-- ===== src/Bitfields/Armv8a/Monitor.antt =====
-- lib/src/bitfields/bitfield_armv8a.c: rows of `bitfield_armv8a_table`.
use maplesyrup.Base.{List, [], ◌∷◌}
use maplesyrup.Structs.{BitfieldInfo, ns_privilege_level_1}
use maplesyrup.Bitfields.{row, ns_all}
use maplesyrup.Registers.{
  ms_sysreg_actlr, ms_sysreg_adfsr, ms_sysreg_aifsr, ms_sysreg_cpacr, ms_sysreg_dfsr, ms_sysreg_far,
  ms_sysreg_pmccfiltr, ms_sysreg_pmccntr, ms_sysreg_pmceid0, ms_sysreg_pmceid1,
  ms_sysreg_pmcntenclr, ms_sysreg_pmcntenset, ms_sysreg_pmcr, ms_sysreg_pmintenclr,
  ms_sysreg_pmintenset, ms_sysreg_pmovsclr, ms_sysreg_pmovsset, ms_sysreg_pmselr, ms_sysreg_pmswinc,
  ms_sysreg_pmuserenr, ms_sysreg_pmxevcntr, ms_sysreg_pmxevtyper, ms_sysreg_rmr, ms_sysreg_rvbar,
}

unfoldable pub armv8a_monitor : List BitfieldInfo
armv8a_monitor =
    row 1 0 ms_sysreg_pmcr ns_all 0 1 "E" "perfmon" "PMCR" "All counters enable"
    ∷ row 1 1 ms_sysreg_pmcr ns_all 1 1 "P" "perfmon" "PMCR" "Event counter reset"
    ∷ row 1 2 ms_sysreg_pmcr ns_all 2 1 "C" "perfmon" "PMCR" "Cycle counter reset"
    ∷ row 1 3 ms_sysreg_pmcr ns_all 3 1 "D" "perfmon" "PMCR" "Cycle counter clock divider"
    ∷ row 1 4 ms_sysreg_pmcr ns_all 4 1 "X" "perfmon" "PMCR" "Export enable"
    ∷ row 1 5 ms_sysreg_pmcr ns_all 5 1 "DP" "perfmon" "PMCR"
        "Disable PMCCNTR when event counting is prohibited"
    ∷ row 1 6 ms_sysreg_pmcr ns_all 6 1 "LC" "perfmon" "PMCR" "Long cycle counter enable"
    ∷ row 1 7 ms_sysreg_pmcr ns_all 7 4 "Rerverced" "perfmon" "PMCR" "Reserved"
    ∷ row 1 8 ms_sysreg_pmcr ns_all 11 5 "N" "perfmon" "PMCR" "Number of event counters"
    ∷ row 1 9 ms_sysreg_pmcr ns_all 16 8 "IDCODE" "perfmon" "PMCR" "Identification Code"
    ∷ row 1 10 ms_sysreg_pmcr ns_all 24 8 "Implementation Defined" "perfmon" "PMCR"
        "Implementer Code"
    ∷ row 1 0 ms_sysreg_pmccfiltr ns_all 0 26 "Reserved" "perfmon" "PMCCFILTR" "Reserved"
    ∷ row 1 1 ms_sysreg_pmccfiltr ns_all 26 1 "M" "perfmon" "PMCCFILTR" "Secure EL3 filtering bit"
    ∷ row 1 2 ms_sysreg_pmccfiltr ns_all 27 1 "NSH" "perfmon" "PMCCFILTR"
        "Non-secure Hyp modes filtering bit"
    ∷ row 1 3 ms_sysreg_pmccfiltr ns_all 28 1 "NSU" "perfmon" "PMCCFILTR"
        "Non-secure user mode filtering bit"
    ∷ row 1 4 ms_sysreg_pmccfiltr ns_all 29 1 "NSK" "perfmon" "PMCCFILTR"
        "Non-secure kernel (EL1) mode filtering bit"
    ∷ row 1 5 ms_sysreg_pmccfiltr ns_all 30 1 "NSK" "perfmon" "PMCCFILTR" "EL0 filtering bit"
    ∷ row 1 6 ms_sysreg_pmccfiltr ns_all 31 1 "P" "perfmon" "PMCCFILTR" "EL1 modes filtering bit"
    ∷ row 1 0 ms_sysreg_pmccntr ns_all 0 64 "CCNT" "perfmon" "PMCCNTR" "Cycle count"
    ∷ row 1 0 ms_sysreg_pmceid0 ns_all 0 32 "ID" "perfmon" "PMCEID0" "Common event implemented bit"
    ∷ row 1 0 ms_sysreg_pmceid1 ns_all 0 32 "ID" "perfmon" "PMCEID1" "Common event implemented bit"
    ∷ row 1 0 ms_sysreg_pmcntenclr ns_all 0 31 "P" "perfmon" "PMCNTENCLR"
        "Event counter disable bit"
    ∷ row 1 1 ms_sysreg_pmcntenclr ns_all 31 1 "C" "perfmon" "PMCNTENCLR" "PMCCNTR_EL0 disable bit"
    ∷ row 1 0 ms_sysreg_pmcntenset ns_all 0 31 "P" "perfmon" "PMCNTENSET" "Event counter enable bit"
    ∷ row 1 1 ms_sysreg_pmcntenset ns_all 31 1 "C" "perfmon" "PMCNTENSET" "PMCCNTR_EL0 enable bit"
    ∷ row 1 0 ms_sysreg_pmintenclr ns_privilege_level_1 0 31 "P" "perfmon" "PMINTENCLR"
        "Event counter overflow interrupt request disable bit"
    ∷ row 1 1 ms_sysreg_pmintenclr ns_privilege_level_1 31 1 "C" "perfmon" "PMINTENCLR"
        "PMCCNTR_EL0 overflow interrupt disable bit"
    ∷ row 1 0 ms_sysreg_pmintenset ns_privilege_level_1 0 31 "P" "perfmon" "PMINTENSET"
        "Event counter overflow interrupt request enable bit"
    ∷ row 1 1 ms_sysreg_pmintenset ns_privilege_level_1 31 1 "C" "perfmon" "PMINTENSET"
        "PMCCNTR_EL0 overflow interrupt request enable bit"
    ∷ row 1 0 ms_sysreg_pmovsclr ns_all 0 31 "P" "perfmon" "PMOVSCLR"
        "Event counter overflow clear bit for PMEVCNTR"
    ∷ row 1 1 ms_sysreg_pmovsclr ns_all 31 1 "C" "perfmon" "PMOVSCLR" "PMCCNTR_EL0 overflow bit"
    ∷ row 1 0 ms_sysreg_pmovsset ns_all 0 31 "P" "perfmon" "PMOVSSET"
        "Event counter overflow set bit for PMEVCNTR"
    ∷ row 1 1 ms_sysreg_pmovsset ns_all 31 1 "C" "perfmon" "PMOVSSET" "PMCCNTR_EL0 overflow bit"
    ∷ row 1 0 ms_sysreg_pmselr ns_all 0 5 "SEL" "perfmon" "PMSELR" "Selects event counter PMEVCNTR"
    ∷ row 1 1 ms_sysreg_pmselr ns_all 5 27 "Reserved" "perfmon" "PMSELR" "Reserved"
    ∷ row 1 0 ms_sysreg_pmswinc ns_all 0 31 "P" "perfmon" "PMSWINC"
        "Event counter software interrupt for PMEVCNTR"
    ∷ row 1 1 ms_sysreg_pmswinc ns_all 31 1 "Reserved" "perfmon" "PMSWINC" "Reserved"
    ∷ row 1 0 ms_sysreg_pmuserenr ns_all 0 1 "EN" "perfmon" "PMUSERENR"
        "Traps EL0 accesses to the Performance Monitor registers to EL1"
    ∷ row 1 1 ms_sysreg_pmuserenr ns_all 1 1 "SW" "perfmon" "PMUSERENR"
        "Software increment write trap to EL1"
    ∷ row 1 2 ms_sysreg_pmuserenr ns_all 2 1 "CR" "perfmon" "PMUSERENR"
        "Cycle counter read trap to EL1"
    ∷ row 1 3 ms_sysreg_pmuserenr ns_all 3 1 "ER" "perfmon" "PMUSERENR"
        "Event counter read trap to EL1"
    ∷ row 1 4 ms_sysreg_pmuserenr ns_all 4 28 "Reserved" "perfmon" "PMUSERENR" "Reserved"
    ∷ row 1 0 ms_sysreg_pmxevcntr ns_all 0 32 "Value" "perfmon" "PMXEVCNTR"
        "Value of the selected event counter"
    ∷ row 1 0 ms_sysreg_pmxevtyper ns_all 0 32 "ETR" "perfmon" "PMXEVTYPER"
        "Event type register or PMCCFILTR_EL0"
    ∷ row 1 0 ms_sysreg_actlr ns_privilege_level_1 0 64 "Implementation Defined" "other" "ACTLR"
        "Implementation Defined"
    ∷ row 1 0 ms_sysreg_cpacr ns_privilege_level_1 0 19 "Reserved" "other" "CPACR" "Reserved"
    ∷ row 1 1 ms_sysreg_cpacr ns_privilege_level_1 20 2 "FPEN" "other" "CPACR"
        "Floating-point registers in EL0 and EL1 trapped to EL1"
    ∷ row 1 2 ms_sysreg_cpacr ns_privilege_level_1 22 6 "Reserved" "other" "CPACR" "Reserved"
    ∷ row 1 3 ms_sysreg_cpacr ns_privilege_level_1 28 1 "TTA" "other" "CPACR"
        "Trace registers in EL0 and EL1 trapped to EL1"
    ∷ row 1 4 ms_sysreg_cpacr ns_privilege_level_1 29 3 "Reserved" "other" "CPACR" "Reserved"
    ∷ row 1 0 ms_sysreg_rmr ns_privilege_level_1 0 1 "AA64" "other" "RMR"
        "Determines which state the PE boots into after a Warm reset"
    ∷ row 1 1 ms_sysreg_rmr ns_privilege_level_1 1 1 "RR" "other" "RMR" "Requests a Warm reset"
    ∷ row 1 2 ms_sysreg_rmr ns_privilege_level_1 2 30 "Reserved" "other" "RMR" "Reserved"
    ∷ row 1 0 ms_sysreg_rvbar ns_privilege_level_1 0 64 "Reset Address" "other" "RVBAR"
        "Address that execution starts at 64-bit reset"
    ∷ row 1 0 ms_sysreg_far ns_privilege_level_1 0 64 "VA" "fault" "FAR"
        "VA of faulting address of synchronous Data Abort exception"
    ∷ row 1 0 ms_sysreg_dfsr ns_privilege_level_1 0 25 "ISS" "fault" "ESR"
        "Instruction specific syndrome"
    ∷ row 1 1 ms_sysreg_dfsr ns_privilege_level_1 25 1 "IL" "fault" "ESR"
        "Instruction length of synchronous exception"
    ∷ row 1 2 ms_sysreg_dfsr ns_privilege_level_1 26 6 "EC" "fault" "ESR" "Exception class"
    ∷ row 1 0 ms_sysreg_adfsr ns_privilege_level_1 0 32 "Implementation defined" "fault" "AFSR0"
        "Implementation defined"
    ∷ row 1 0 ms_sysreg_aifsr ns_privilege_level_1 0 32 "Implementation defined" "fault" "AFSR1"
        "Implementation defined"
    ∷ []
