-- ===== src/Jumptable.antt =====
-- common/jumptable.c: the table of the functions that read a register, for user mode and the kernel module.
pub mod Readable
mod Tests
use maplesyrup.Base.{ℕ, true, false, List, [], ◌∷◌, length}
use maplesyrup.Usermode.{
  FuncTableEntry, functype_out_1, functype_out_2, functype_bits_32, functype_bits_64,
  functype_bits_arch,
}
use maplesyrup.Registers.{
  ms_sysreg_aa64afr0, ms_sysreg_aa64afr1, ms_sysreg_aa64dfr0, ms_sysreg_aa64dfr1,
  ms_sysreg_aa64isar0, ms_sysreg_aa64isar1, ms_sysreg_aa64mmfr0, ms_sysreg_aa64mmfr1,
  ms_sysreg_aa64pfr0, ms_sysreg_aa64pfr1, ms_sysreg_actlr, ms_sysreg_actlr2, ms_sysreg_adfsr,
  ms_sysreg_afr0, ms_sysreg_aidr, ms_sysreg_aifsr, ms_sysreg_amair, ms_sysreg_amair0,
  ms_sysreg_amair1, ms_sysreg_apsr, ms_sysreg_cbar, ms_sysreg_ccsidr, ms_sysreg_clidr,
  ms_sysreg_contextidr, ms_sysreg_cpacr, ms_sysreg_cpsr, ms_sysreg_cpuactlr, ms_sysreg_cpuectlr,
  ms_sysreg_cpumerrsr, ms_sysreg_csselr, ms_sysreg_ctr, ms_sysreg_currentel, ms_sysreg_dacr,
  ms_sysreg_daif, ms_sysreg_dbgauthstatus, ms_sysreg_dbgdidr, ms_sysreg_dbgdrar, ms_sysreg_dbgdscr,
  ms_sysreg_dczid, ms_sysreg_dfar, ms_sysreg_dfr0, ms_sysreg_dfsr, ms_sysreg_dl1data0,
  ms_sysreg_dl1data1, ms_sysreg_dl1data2, ms_sysreg_dl1data3, ms_sysreg_far, ms_sysreg_fcseidr,
  ms_sysreg_fpcr, ms_sysreg_fpexc, ms_sysreg_fpscr, ms_sysreg_fpsid, ms_sysreg_fpsr, ms_sysreg_ifar,
  ms_sysreg_ifsr, ms_sysreg_il1data0, ms_sysreg_il1data1, ms_sysreg_il1data2, ms_sysreg_il1data3,
  ms_sysreg_isar0, ms_sysreg_isar1, ms_sysreg_isar2, ms_sysreg_isar3, ms_sysreg_isar4,
  ms_sysreg_isar5, ms_sysreg_isr, ms_sysreg_jidr, ms_sysreg_jmcr, ms_sysreg_joscr,
  ms_sysreg_l2actlr, ms_sysreg_l2ctlr, ms_sysreg_l2ectlr, ms_sysreg_l2merrsr, ms_sysreg_l2pfr,
  ms_sysreg_mair, ms_sysreg_mair0, ms_sysreg_mair1, ms_sysreg_midr, ms_sysreg_mmfr0,
  ms_sysreg_mmfr1, ms_sysreg_mmfr2, ms_sysreg_mmfr3, ms_sysreg_mpidr, ms_sysreg_mvbar,
  ms_sysreg_mvfr0, ms_sysreg_mvfr1, ms_sysreg_mvfr2, ms_sysreg_nmrr, ms_sysreg_nsacr,
  ms_sysreg_nzcv, ms_sysreg_par, ms_sysreg_pfr0, ms_sysreg_pfr1, ms_sysreg_pmccfiltr,
  ms_sysreg_pmccntr, ms_sysreg_pmceid0, ms_sysreg_pmceid1, ms_sysreg_pmcntenclr,
  ms_sysreg_pmcntenset, ms_sysreg_pmcr, ms_sysreg_pmintenclr, ms_sysreg_pmintenset,
  ms_sysreg_pmovsclr, ms_sysreg_pmovsr, ms_sysreg_pmovsset, ms_sysreg_pmselr, ms_sysreg_pmswinc,
  ms_sysreg_pmuserenr, ms_sysreg_pmxevcntr, ms_sysreg_pmxevtyper, ms_sysreg_prrr, ms_sysreg_revidr,
  ms_sysreg_rmr, ms_sysreg_rvbar, ms_sysreg_scr, ms_sysreg_sctlr, ms_sysreg_sder, ms_sysreg_spsel,
  ms_sysreg_spsr, ms_sysreg_tcmtr, ms_sysreg_teecr, ms_sysreg_teehbr, ms_sysreg_tlbtr,
  ms_sysreg_tpidrprw, ms_sysreg_tpidruro, ms_sysreg_tpidrurw, ms_sysreg_ttbcr, ms_sysreg_ttbr0,
  ms_sysreg_ttbr0lpae, ms_sysreg_ttbr1, ms_sysreg_ttbr1lpae, ms_sysreg_vbar,
}

-- A row with a function, which reads the register of its name.
abbrev pub read_row : (code function_prototype data_size : ℕ) → FuncTableEntry
read_row code function_prototype data_size = record {
  code = code;
  func_ptr = true;
  function_prototype = function_prototype;
  data_size = data_size;
}

unfoldable pub func_table : List FuncTableEntry
func_table =
    read_row ms_sysreg_midr functype_out_1 functype_bits_32
    ∷ read_row ms_sysreg_ctr functype_out_1 functype_bits_32
    ∷ read_row ms_sysreg_tcmtr functype_out_1 functype_bits_32
    ∷ read_row ms_sysreg_tlbtr functype_out_1 functype_bits_32
    ∷ read_row ms_sysreg_mpidr functype_out_1 functype_bits_arch
    ∷ read_row ms_sysreg_revidr functype_out_1 functype_bits_32
    ∷ read_row ms_sysreg_afr0 functype_out_1 functype_bits_32
    ∷ read_row ms_sysreg_mmfr0 functype_out_1 functype_bits_32
    ∷ read_row ms_sysreg_mmfr1 functype_out_1 functype_bits_32
    ∷ read_row ms_sysreg_mmfr2 functype_out_1 functype_bits_32
    ∷ read_row ms_sysreg_mmfr3 functype_out_1 functype_bits_32
    ∷ read_row ms_sysreg_pfr0 functype_out_1 functype_bits_32
    ∷ read_row ms_sysreg_pfr1 functype_out_1 functype_bits_32
    ∷ read_row ms_sysreg_isar0 functype_out_1 functype_bits_32
    ∷ read_row ms_sysreg_isar1 functype_out_1 functype_bits_32
    ∷ read_row ms_sysreg_isar2 functype_out_1 functype_bits_32
    ∷ read_row ms_sysreg_isar3 functype_out_1 functype_bits_32
    ∷ read_row ms_sysreg_isar4 functype_out_1 functype_bits_32
    ∷ read_row ms_sysreg_isar5 functype_out_1 functype_bits_32
    ∷ read_row ms_sysreg_clidr functype_out_1 functype_bits_arch
    ∷ read_row ms_sysreg_aidr functype_out_1 functype_bits_32
    ∷ read_row ms_sysreg_csselr functype_out_1 functype_bits_32
    ∷ read_row ms_sysreg_dfr0 functype_out_1 functype_bits_32
    ∷ read_row ms_sysreg_ccsidr functype_out_1 functype_bits_32
    ∷ read_row ms_sysreg_sctlr functype_out_1 functype_bits_32
    ∷ read_row ms_sysreg_prrr functype_out_1 functype_bits_32
    ∷ read_row ms_sysreg_mair functype_out_1 functype_bits_64
    ∷ read_row ms_sysreg_mair0 functype_out_1 functype_bits_32
    ∷ read_row ms_sysreg_mair1 functype_out_1 functype_bits_32
    ∷ read_row ms_sysreg_nmrr functype_out_1 functype_bits_32
    ∷ read_row ms_sysreg_ttbcr functype_out_1 functype_bits_arch
    ∷ read_row ms_sysreg_ttbr0 functype_out_1 functype_bits_arch
    ∷ read_row ms_sysreg_ttbr0lpae functype_out_2 functype_bits_32
    ∷ read_row ms_sysreg_ttbr1 functype_out_1 functype_bits_arch
    ∷ read_row ms_sysreg_ttbr1lpae functype_out_2 functype_bits_32
    ∷ read_row ms_sysreg_contextidr functype_out_1 functype_bits_32
    ∷ read_row ms_sysreg_amair0 functype_out_1 functype_bits_32
    ∷ read_row ms_sysreg_amair1 functype_out_1 functype_bits_32
    ∷ read_row ms_sysreg_amair functype_out_1 functype_bits_64
    ∷ read_row ms_sysreg_dacr functype_out_1 functype_bits_32
    ∷ read_row ms_sysreg_dczid functype_out_1 functype_bits_32
    ∷ read_row ms_sysreg_ifar functype_out_1 functype_bits_32
    ∷ read_row ms_sysreg_ifsr functype_out_1 functype_bits_32
    ∷ read_row ms_sysreg_adfsr functype_out_1 functype_bits_32
    ∷ read_row ms_sysreg_aifsr functype_out_1 functype_bits_32
    ∷ read_row ms_sysreg_dfar functype_out_1 functype_bits_32
    ∷ read_row ms_sysreg_dfsr functype_out_1 functype_bits_32
    ∷ read_row ms_sysreg_far functype_out_1 functype_bits_64
    ∷ read_row ms_sysreg_pmccfiltr functype_out_1 functype_bits_32
    ∷ read_row ms_sysreg_pmcr functype_out_1 functype_bits_32
    ∷ read_row ms_sysreg_pmccntr functype_out_1 functype_bits_arch
    ∷ read_row ms_sysreg_pmceid0 functype_out_1 functype_bits_32
    ∷ read_row ms_sysreg_pmceid1 functype_out_1 functype_bits_32
    ∷ read_row ms_sysreg_pmcntenclr functype_out_1 functype_bits_32
    ∷ read_row ms_sysreg_pmcntenset functype_out_1 functype_bits_32
    ∷ read_row ms_sysreg_pmintenclr functype_out_1 functype_bits_32
    ∷ read_row ms_sysreg_pmintenset functype_out_1 functype_bits_32
    ∷ read_row ms_sysreg_pmovsr functype_out_1 functype_bits_32
    ∷ read_row ms_sysreg_pmovsclr functype_out_1 functype_bits_32
    ∷ read_row ms_sysreg_pmovsset functype_out_1 functype_bits_32
    ∷ read_row ms_sysreg_pmselr functype_out_1 functype_bits_32
    ∷ read_row ms_sysreg_pmswinc functype_out_1 functype_bits_32
    ∷ read_row ms_sysreg_pmuserenr functype_out_1 functype_bits_32
    ∷ read_row ms_sysreg_pmxevcntr functype_out_1 functype_bits_32
    ∷ read_row ms_sysreg_pmxevtyper functype_out_1 functype_bits_32
    ∷ read_row ms_sysreg_vbar functype_out_1 functype_bits_arch
    ∷ read_row ms_sysreg_isr functype_out_1 functype_bits_32
    ∷ read_row ms_sysreg_mvbar functype_out_1 functype_bits_32
    ∷ read_row ms_sysreg_nsacr functype_out_1 functype_bits_32
    ∷ read_row ms_sysreg_scr functype_out_1 functype_bits_32
    ∷ read_row ms_sysreg_sder functype_out_1 functype_bits_32
    ∷ read_row ms_sysreg_cpacr functype_out_1 functype_bits_32
    ∷ read_row ms_sysreg_fcseidr functype_out_1 functype_bits_32
    ∷ read_row ms_sysreg_rmr functype_out_1 functype_bits_32
    ∷ read_row ms_sysreg_rvbar functype_out_1 functype_bits_32
    ∷ read_row ms_sysreg_par functype_out_1 functype_bits_arch
    ∷ read_row ms_sysreg_fpexc functype_out_1 functype_bits_32
    ∷ read_row ms_sysreg_fpscr functype_out_1 functype_bits_32
    ∷ read_row ms_sysreg_fpsid functype_out_1 functype_bits_32
    ∷ read_row ms_sysreg_mvfr0 functype_out_1 functype_bits_32
    ∷ read_row ms_sysreg_mvfr1 functype_out_1 functype_bits_32
    ∷ read_row ms_sysreg_mvfr2 functype_out_1 functype_bits_32
    ∷ read_row ms_sysreg_dbgdidr functype_out_1 functype_bits_32
    ∷ read_row ms_sysreg_dbgauthstatus functype_out_1 functype_bits_32
    ∷ read_row ms_sysreg_dbgdrar functype_out_1 functype_bits_64
    ∷ read_row ms_sysreg_dbgdscr functype_out_1 functype_bits_32
    ∷ read_row ms_sysreg_tpidrprw functype_out_1 functype_bits_arch
    ∷ read_row ms_sysreg_tpidruro functype_out_1 functype_bits_arch
    ∷ read_row ms_sysreg_tpidrurw functype_out_1 functype_bits_arch
    ∷ read_row ms_sysreg_jidr functype_out_1 functype_bits_32
    ∷ read_row ms_sysreg_jmcr functype_out_1 functype_bits_32
    ∷ read_row ms_sysreg_joscr functype_out_1 functype_bits_32
    ∷ read_row ms_sysreg_teecr functype_out_1 functype_bits_32
    ∷ read_row ms_sysreg_teehbr functype_out_1 functype_bits_32
    ∷ read_row ms_sysreg_cpumerrsr functype_out_2 functype_bits_arch
    ∷ read_row ms_sysreg_l2merrsr functype_out_2 functype_bits_arch
    ∷ read_row ms_sysreg_l2actlr functype_out_1 functype_bits_32
    ∷ read_row ms_sysreg_actlr functype_out_1 functype_bits_32
    ∷ read_row ms_sysreg_actlr2 functype_out_1 functype_bits_32
    ∷ read_row ms_sysreg_cpuactlr functype_out_1 functype_bits_64
    ∷ read_row ms_sysreg_l2pfr functype_out_1 functype_bits_32
    ∷ read_row ms_sysreg_l2ctlr functype_out_1 functype_bits_32
    ∷ read_row ms_sysreg_l2ectlr functype_out_1 functype_bits_32
    ∷ read_row ms_sysreg_cpuectlr functype_out_1 functype_bits_64
    ∷ read_row ms_sysreg_il1data0 functype_out_1 functype_bits_32
    ∷ read_row ms_sysreg_il1data1 functype_out_1 functype_bits_32
    ∷ read_row ms_sysreg_il1data2 functype_out_1 functype_bits_32
    ∷ read_row ms_sysreg_il1data3 functype_out_1 functype_bits_32
    ∷ read_row ms_sysreg_dl1data0 functype_out_1 functype_bits_32
    ∷ read_row ms_sysreg_dl1data1 functype_out_1 functype_bits_32
    ∷ read_row ms_sysreg_dl1data2 functype_out_1 functype_bits_32
    ∷ read_row ms_sysreg_dl1data3 functype_out_1 functype_bits_32
    ∷ read_row ms_sysreg_cbar functype_out_1 functype_bits_arch
    ∷ read_row ms_sysreg_aa64afr0 functype_out_1 functype_bits_64
    ∷ read_row ms_sysreg_aa64afr1 functype_out_1 functype_bits_64
    ∷ read_row ms_sysreg_aa64dfr0 functype_out_1 functype_bits_64
    ∷ read_row ms_sysreg_aa64dfr1 functype_out_1 functype_bits_64
    ∷ read_row ms_sysreg_aa64isar0 functype_out_1 functype_bits_64
    ∷ read_row ms_sysreg_aa64isar1 functype_out_1 functype_bits_64
    ∷ read_row ms_sysreg_aa64mmfr0 functype_out_1 functype_bits_64
    ∷ read_row ms_sysreg_aa64mmfr1 functype_out_1 functype_bits_64
    ∷ read_row ms_sysreg_aa64pfr0 functype_out_1 functype_bits_64
    ∷ read_row ms_sysreg_aa64pfr1 functype_out_1 functype_bits_64
    ∷ read_row ms_sysreg_currentel functype_out_1 functype_bits_32
    ∷ read_row ms_sysreg_daif functype_out_1 functype_bits_32
    ∷ read_row ms_sysreg_fpcr functype_out_1 functype_bits_32
    ∷ read_row ms_sysreg_fpsr functype_out_1 functype_bits_32
    ∷ read_row ms_sysreg_nzcv functype_out_1 functype_bits_32
    ∷ read_row ms_sysreg_spsel functype_out_1 functype_bits_32
    ∷ read_row ms_sysreg_apsr functype_out_1 functype_bits_32
    ∷ read_row ms_sysreg_cpsr functype_out_1 functype_bits_32
    ∷ read_row ms_sysreg_spsr functype_out_1 functype_bits_32
    ∷ record { code = 0; func_ptr = false; function_prototype = 0; data_size = 0 }
    ∷ []

unfoldable pub return_table_size : ℕ
unfolding func_table
return_table_size = length func_table
