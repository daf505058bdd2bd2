-- ===== src/Bitfields/Armv7a/Ident2.antt =====
-- lib/src/bitfields/bitfield_armv7a.c: rows of `bitfield_armv7a_table`.
use maplesyrup.Base.{List, [], ◌∷◌}
use maplesyrup.Structs.{BitfieldInfo, ns_privilege_level_1}
use maplesyrup.Bitfields.{row}
use maplesyrup.Registers.{
  ms_sysreg_aidr, ms_sysreg_ccsidr, ms_sysreg_clidr, ms_sysreg_csselr, ms_sysreg_ctr,
  ms_sysreg_isar2, ms_sysreg_isar3, ms_sysreg_isar4, ms_sysreg_isar5, ms_sysreg_midr,
  ms_sysreg_mpidr, ms_sysreg_revidr, ms_sysreg_tcmtr, ms_sysreg_tlbtr,
}

unfoldable pub armv7a_ident_2 : List BitfieldInfo
armv7a_ident_2 =
    row 1 0 ms_sysreg_isar2 ns_privilege_level_1 0 4 "LoadStore_instrs" "ident" "ISAR2"
      "Additional load/store instructions"
    ∷ row 1 1 ms_sysreg_isar2 ns_privilege_level_1 4 4 "MemHint_instrs" "ident" "ISAR2"
        "Memory Hint instructions"
    ∷ row 1 2 ms_sysreg_isar2 ns_privilege_level_1 8 4 "MultiAccessInt_instrs" "ident" "ISAR2"
        "Interruptible multi-access instructions"
    ∷ row 1 3 ms_sysreg_isar2 ns_privilege_level_1 12 4 "Mult_instrs" "ident" "ISAR2"
        "Additional multiply instructions"
    ∷ row 1 4 ms_sysreg_isar2 ns_privilege_level_1 16 4 "MultS_instrs" "ident" "ISAR2"
        "Advanced signed Multiply instructions"
    ∷ row 1 5 ms_sysreg_isar2 ns_privilege_level_1 20 4 "MultU_instrs" "ident" "ISAR2"
        "Advanced unsigned Multiply instructions"
    ∷ row 1 6 ms_sysreg_isar2 ns_privilege_level_1 24 4 "PSR_AR_instrs" "ident" "ISAR2"
        "Instructions to manipulate PSR"
    ∷ row 1 7 ms_sysreg_isar2 ns_privilege_level_1 28 4 "Reversal_instrs" "ident" "ISAR2"
        "Implemented Reversal instructions"
    ∷ row 1 0 ms_sysreg_isar3 ns_privilege_level_1 0 4 "Saturate_instrs" "ident" "ISAR3"
        "Implemented Saturate instructions"
    ∷ row 1 1 ms_sysreg_isar3 ns_privilege_level_1 4 4 "SIMD_instrs" "ident" "ISAR3"
        "Implemented SIMD instructions"
    ∷ row 1 2 ms_sysreg_isar3 ns_privilege_level_1 8 4 "SVC_instrs" "ident" "ISAR3"
        "Implemented SVC instructions"
    ∷ row 1 3 ms_sysreg_isar3 ns_privilege_level_1 12 4 "SynchPrim_instrs" "ident" "ISAR3"
        " Synchronization Primitive instructions"
    ∷ row 1 4 ms_sysreg_isar3 ns_privilege_level_1 16 4 "TabBranch_instrs" "ident" "ISAR3"
        "Table Branch instructions in Thumb"
    ∷ row 1 5 ms_sysreg_isar3 ns_privilege_level_1 20 4 "ThumbCopy_instrs" "ident" "ISAR3"
        "Thumb non-flag setting MOV instructions"
    ∷ row 1 6 ms_sysreg_isar3 ns_privilege_level_1 24 4 "TrueNOP_instrs" "ident" "ISAR3"
        "Implemented True NOP instructions"
    ∷ row 1 7 ms_sysreg_isar3 ns_privilege_level_1 28 4 "ThumbEE_extn_instrs" "ident" "ISAR3"
        "Thumb Execution Environment Extension instructions"
    ∷ row 1 0 ms_sysreg_isar4 ns_privilege_level_1 0 4 "Unpriv_instrs" "ident" "ISAR4"
        "Implemented Unprivileged instructions"
    ∷ row 1 1 ms_sysreg_isar4 ns_privilege_level_1 4 4 "WithShifts_instrs" "ident" "ISAR4"
        "Support for instructions with shifts"
    ∷ row 1 2 ms_sysreg_isar4 ns_privilege_level_1 8 4 "Writeback_instrs" "ident" "ISAR4"
        "Writeback addressing modes"
    ∷ row 1 3 ms_sysreg_isar4 ns_privilege_level_1 12 4 "SMC_instrs" "ident" "ISAR4"
        "SMC instructions"
    ∷ row 1 4 ms_sysreg_isar4 ns_privilege_level_1 16 4 "Barrier_instrs" "ident" "ISAR4"
        "Barrier instructions"
    ∷ row 1 5 ms_sysreg_isar4 ns_privilege_level_1 20 4 "SynchPrim_instrs" "ident" "ISAR4"
        "Implemented Synchronization Primitive instructions"
    ∷ row 1 6 ms_sysreg_isar4 ns_privilege_level_1 24 4 "PSR_M_instrs" "ident" "ISAR4"
        "M profile instructions to modify PSR"
    ∷ row 1 7 ms_sysreg_isar4 ns_privilege_level_1 28 4 "SWP_frac" "ident" "ISAR4"
        "Bus locking on SWP or SWPB"
    ∷ row 1 0 ms_sysreg_isar5 ns_privilege_level_1 0 32 "Reserved" "ident" "ISAR5" "Reserved"
    ∷ row 1 0 ms_sysreg_revidr ns_privilege_level_1 0 32 "Reserved" "ident" "REVIDR"
        "Implementation Defined"
    ∷ row 1 0 ms_sysreg_tlbtr ns_privilege_level_1 0 1 "nU" "ident" "TLBTR" "[0] Not Unified TLB"
    ∷ row 1 1 ms_sysreg_tlbtr ns_privilege_level_1 1 31 "Implementation Defined" "ident" "TLBTR"
        "Implementation Defined"
    ∷ row 1 0 ms_sysreg_ccsidr ns_privilege_level_1 0 3 "LineSize" "ident" "CCSIDR"
        "Number of words in cache line"
    ∷ row 1 1 ms_sysreg_ccsidr ns_privilege_level_1 3 10 "Associativity" "ident" "CCSIDR"
        "Associativity of cache"
    ∷ row 1 2 ms_sysreg_ccsidr ns_privilege_level_1 13 15 "NumSets" "ident" "CCSIDR"
        "Number of sets in cache"
    ∷ row 1 3 ms_sysreg_ccsidr ns_privilege_level_1 28 1 "WA" "ident" "CCSIDR" "Write allocation"
    ∷ row 1 4 ms_sysreg_ccsidr ns_privilege_level_1 29 1 "RA" "ident" "CCSIDR" "Read allocation"
    ∷ row 1 5 ms_sysreg_ccsidr ns_privilege_level_1 30 1 "WB" "ident" "CCSIDR" "Write back"
    ∷ row 1 6 ms_sysreg_ccsidr ns_privilege_level_1 31 1 "WT" "ident" "CCSIDR" "Write through"
    ∷ row 1 0 ms_sysreg_tcmtr ns_privilege_level_1 0 29 "Implementation Defined" "ident" "TCMTR"
        "Implementation Defined"
    ∷ row 1 1 ms_sysreg_tcmtr ns_privilege_level_1 29 3 "Format" "ident" "TCMTR"
        "Implemented TCMTR format"
    ∷ row 1 0 ms_sysreg_aidr ns_privilege_level_1 0 32 "Implementation Defined" "ident" "AIDR"
        "Implementation Defined"
    ∷ row 1 0 ms_sysreg_clidr ns_privilege_level_1 0 3 "Ctype1" "ident" "CLIDR" "Cache type 1"
    ∷ row 1 1 ms_sysreg_clidr ns_privilege_level_1 3 3 "Ctype2" "ident" "CLIDR" "Cache type 2"
    ∷ row 1 2 ms_sysreg_clidr ns_privilege_level_1 6 3 "Ctype3" "ident" "CLIDR" "Cache type 3"
    ∷ row 1 3 ms_sysreg_clidr ns_privilege_level_1 9 3 "Ctype4" "ident" "CLIDR" "Cache type 4"
    ∷ row 1 4 ms_sysreg_clidr ns_privilege_level_1 12 3 "Ctype5" "ident" "CLIDR" "Cache type 5"
    ∷ row 1 5 ms_sysreg_clidr ns_privilege_level_1 15 3 "Ctype6" "ident" "CLIDR" "Cache type 6"
    ∷ row 1 6 ms_sysreg_clidr ns_privilege_level_1 18 3 "Ctype7" "ident" "CLIDR" "Cache type 7"
    ∷ row 1 7 ms_sysreg_clidr ns_privilege_level_1 21 3 "LoUIS" "ident" "CLIDR"
        "Level of Unification Inner Shareable"
    ∷ row 1 8 ms_sysreg_clidr ns_privilege_level_1 24 3 "LoC" "ident" "CLIDR" "Level of Coherence"
    ∷ row 1 9 ms_sysreg_clidr ns_privilege_level_1 27 3 "LoUU" "ident" "CLIDR"
        "Level of Unification Uniprocessor"
    ∷ row 1 10 ms_sysreg_clidr ns_privilege_level_1 30 2 "Reserved" "ident" "CLIDR" "Reserved"
    ∷ row 1 0 ms_sysreg_csselr ns_privilege_level_1 0 1 "InD" "ident" "CSSELR"
        "Instruction not Data bit"
    ∷ row 1 1 ms_sysreg_csselr ns_privilege_level_1 1 3 "Level" "ident" "CSSELR" "Level"
    ∷ row 1 2 ms_sysreg_csselr ns_privilege_level_1 4 28 "Reserved" "ident" "CSSELR" "Reserved"
    ∷ row 1 0 ms_sysreg_ctr ns_privilege_level_1 0 4 "IminLine" "ident" "CTR" "IminLine"
    ∷ row 1 1 ms_sysreg_ctr ns_privilege_level_1 4 10 "Reserved" "ident" "CTR" "Reserved"
    ∷ row 1 2 ms_sysreg_ctr ns_privilege_level_1 14 2 "L1Ip" "ident" "CTR"
        "Level 1 instruction cache policy"
    ∷ row 1 3 ms_sysreg_ctr ns_privilege_level_1 16 4 "DminLine" "ident" "CTR" "DminLine"
    ∷ row 1 4 ms_sysreg_ctr ns_privilege_level_1 20 4 "ERG" "ident" "CTR"
        "Exclusives Reservation Granule"
    ∷ row 1 5 ms_sysreg_ctr ns_privilege_level_1 24 4 "CWG" "ident" "CTR" "Cache Write-back Granule"
    ∷ row 1 6 ms_sysreg_ctr ns_privilege_level_1 28 1 "Reserved" "ident" "CTR" "Reserved"
    ∷ row 1 7 ms_sysreg_ctr ns_privilege_level_1 29 3 "Format" "ident" "CTR" "CTR Format"
    ∷ row 1 0 ms_sysreg_midr ns_privilege_level_1 0 4 "Revision" "ident" "MIDR" "Revision"
    ∷ row 1 1 ms_sysreg_midr ns_privilege_level_1 4 12 "Primary part number" "ident" "MIDR"
        "Primary part number"
    ∷ row 1 2 ms_sysreg_midr ns_privilege_level_1 16 4 "Architecture" "ident" "MIDR" "Architecture"
    ∷ row 1 3 ms_sysreg_midr ns_privilege_level_1 20 4 "Variant" "ident" "MIDR" "Variant"
    ∷ row 1 4 ms_sysreg_midr ns_privilege_level_1 24 8 "Implementer" "ident" "MIDR" "Implementer"
    ∷ row 1 0 ms_sysreg_mpidr ns_privilege_level_1 0 8 "Aff0" "ident" "MPIDR" "Affinity level 0"
    ∷ row 1 1 ms_sysreg_mpidr ns_privilege_level_1 8 8 "Aff1" "ident" "MPIDR" "Affinity level 1"
    ∷ row 1 2 ms_sysreg_mpidr ns_privilege_level_1 16 8 "Aff2" "ident" "MPIDR" "Affinity level 2"
    ∷ row 1 3 ms_sysreg_mpidr ns_privilege_level_1 24 1 "MT" "ident" "MPIDR" "Affinity dependence"
    ∷ row 1 4 ms_sysreg_mpidr ns_privilege_level_1 25 5 "Reserved" "ident" "MPIDR" "Reserved"
    ∷ row 1 5 ms_sysreg_mpidr ns_privilege_level_1 30 1 "U" "ident" "MPIDR" "Uniprocessor system"
    ∷ row 1 6 ms_sysreg_mpidr ns_privilege_level_1 31 1 "ME" "ident" "MPIDR" "Register format"
    ∷ []
