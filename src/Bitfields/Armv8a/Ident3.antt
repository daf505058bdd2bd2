-- ===== src/Bitfields/Armv8a/Ident3.antt =====
-- lib/src/bitfields/bitfield_armv8a.c: rows of `bitfield_armv8a_table`.
use maplesyrup.Base.{List, [], ◌∷◌}
use maplesyrup.Structs.{BitfieldInfo, ns_privilege_level_0, ns_privilege_level_1}
use maplesyrup.Bitfields.{row}
use maplesyrup.Registers.{
  ms_sysreg_aa64isar0, ms_sysreg_aa64isar1, ms_sysreg_aidr, ms_sysreg_ccsidr, ms_sysreg_clidr,
  ms_sysreg_csselr, ms_sysreg_ctr, ms_sysreg_isar5, ms_sysreg_midr, ms_sysreg_mpidr,
  ms_sysreg_revidr, ms_sysreg_tcmtr, ms_sysreg_tlbtr,
}

unfoldable pub armv8a_ident_3 : List BitfieldInfo
armv8a_ident_3 =
    row 1 0 ms_sysreg_isar5 ns_privilege_level_1 0 4 "SEVL" "ident" "ISAR5"
      "Indicates that SEVL is implemented in AArch32"
    ∷ row 1 1 ms_sysreg_isar5 ns_privilege_level_1 4 4 "AES" "ident" "ISAR5"
        "AES implemented in AArch32"
    ∷ row 1 2 ms_sysreg_isar5 ns_privilege_level_1 8 4 "SHA1" "ident" "ISAR5"
        "SHA1 implemented in AArch32"
    ∷ row 1 3 ms_sysreg_isar5 ns_privilege_level_1 12 4 "SHA2" "ident" "ISAR5"
        "SHA2 implemented in AArch32"
    ∷ row 1 4 ms_sysreg_isar5 ns_privilege_level_1 16 4 "CRC32" "ident" "ISAR5"
        "CRC32 implemented in AArch32"
    ∷ row 1 5 ms_sysreg_isar5 ns_privilege_level_1 20 12 "Reserved" "ident" "ISAR5" "Reserved"
    ∷ row 1 0 ms_sysreg_aa64isar0 ns_privilege_level_1 0 4 "Reserved" "ident" "AA64ISAR0" "Reserved"
    ∷ row 1 1 ms_sysreg_aa64isar0 ns_privilege_level_1 4 4 "AES" "ident" "AA64ISAR0"
        "AES instructions implemented"
    ∷ row 1 2 ms_sysreg_aa64isar0 ns_privilege_level_1 8 4 "SHA1" "ident" "AA64ISAR0"
        "SHA1 instructions implemented"
    ∷ row 1 3 ms_sysreg_aa64isar0 ns_privilege_level_1 12 4 "SHA2" "ident" "AA64ISAR0"
        "SHA2 instructions implemented"
    ∷ row 1 4 ms_sysreg_aa64isar0 ns_privilege_level_1 16 4 "CRC32" "ident" "AA64ISAR0"
        "CRC instructions implemented"
    ∷ row 1 5 ms_sysreg_aa64isar0 ns_privilege_level_1 20 44 "Reserved" "ident" "AA64ISAR0"
        "Reserved"
    ∷ row 1 0 ms_sysreg_aa64isar1 ns_privilege_level_1 0 64 "Reserved" "ident" "AA64ISAR1"
        "Reserved"
    ∷ row 1 0 ms_sysreg_revidr ns_privilege_level_1 0 32 "Reserved" "ident" "REVIDR"
        "Implementation Defined"
    ∷ row 1 0 ms_sysreg_tlbtr ns_privilege_level_1 0 1 "nU" "ident" "TLBTR" "[0] Not Unified TLB"
    ∷ row 1 1 ms_sysreg_tlbtr ns_privilege_level_1 1 31 "Implementation Defined" "ident" "TLBTR"
        "Implementation Defined"
    ∷ row 1 0 ms_sysreg_ccsidr ns_privilege_level_1 0 3 "LineSize" "ident" "CCSIDR"
        "Number of words in cache line"
    ∷ row 1 1 ms_sysreg_ccsidr ns_privilege_level_1 3 10 "Associativity" "ident" "CCSIDR"
        "Associativity of cache"
    ∷ row 1 2 ms_sysreg_ccsidr ns_privilege_level_1 13 15 "NumSets" "ident" "CCSIDR"
        "Number of sets in cache"
    ∷ row 1 3 ms_sysreg_ccsidr ns_privilege_level_1 28 1 "WA" "ident" "CCSIDR" "Write allocation"
    ∷ row 1 4 ms_sysreg_ccsidr ns_privilege_level_1 29 1 "RA" "ident" "CCSIDR" "Read allocation"
    ∷ row 1 5 ms_sysreg_ccsidr ns_privilege_level_1 30 1 "WB" "ident" "CCSIDR" "Write back"
    ∷ row 1 6 ms_sysreg_ccsidr ns_privilege_level_1 31 1 "WT" "ident" "CCSIDR" "Write through"
    ∷ row 1 0 ms_sysreg_tcmtr ns_privilege_level_1 0 29 "Implementation Defined" "ident" "TCMTR"
        "Implementation Defined"
    ∷ row 1 1 ms_sysreg_tcmtr ns_privilege_level_1 29 3 "Format" "ident" "TCMTR"
        "Implemented TCMTR format"
    ∷ row 1 0 ms_sysreg_aidr ns_privilege_level_1 0 32 "Implementation Defined" "ident" "AIDR"
        "Implementation Defined"
    ∷ row 1 0 ms_sysreg_clidr ns_privilege_level_1 0 3 "Ctype1" "ident" "CLIDR" "Cache type"
    ∷ row 1 1 ms_sysreg_clidr ns_privilege_level_1 3 3 "Ctype2" "ident" "CLIDR" "Cache type"
    ∷ row 1 2 ms_sysreg_clidr ns_privilege_level_1 6 3 "Ctype3" "ident" "CLIDR" "Cache type"
    ∷ row 1 3 ms_sysreg_clidr ns_privilege_level_1 9 3 "Ctype4" "ident" "CLIDR" " Cache type"
    ∷ row 1 4 ms_sysreg_clidr ns_privilege_level_1 12 3 "Ctype5" "ident" "CLIDR" "Cache type"
    ∷ row 1 5 ms_sysreg_clidr ns_privilege_level_1 15 3 "Ctype6" "ident" "CLIDR" "Cache type"
    ∷ row 1 6 ms_sysreg_clidr ns_privilege_level_1 18 3 "Ctype7" "ident" "CLIDR" "Cache type"
    ∷ row 1 7 ms_sysreg_clidr ns_privilege_level_1 21 3 "LoUIS" "ident" "CLIDR"
        "Level of Unification Inner Shareable"
    ∷ row 1 8 ms_sysreg_clidr ns_privilege_level_1 24 3 "LoC" "ident" "CLIDR" "Level of Coherence"
    ∷ row 1 9 ms_sysreg_clidr ns_privilege_level_1 27 3 "LoUU" "ident" "CLIDR"
        "Level of Unification Uniprocessor"
    ∷ row 1 10 ms_sysreg_clidr ns_privilege_level_1 30 2 "Reserved" "ident" "CLIDR" "Reserved"
    ∷ row 1 11 ms_sysreg_clidr ns_privilege_level_1 32 32 "Reserved" "ident" "CLIDR" "Reserved"
    ∷ row 1 0 ms_sysreg_csselr ns_privilege_level_1 0 1 "InD" "ident" "CSSELR"
        "Instruction not Data bit"
    ∷ row 1 1 ms_sysreg_csselr ns_privilege_level_1 1 3 "Level" "ident" "CSSELR" "Level"
    ∷ row 1 2 ms_sysreg_csselr ns_privilege_level_1 4 28 "Reserved" "ident" "CSSELR" "Reserved"
    ∷ row 1 0 ms_sysreg_ctr ns_privilege_level_0 0 4 "IminLine" "ident" "CTR" "IminLine"
    ∷ row 1 1 ms_sysreg_ctr ns_privilege_level_0 4 10 "Reserved" "ident" "CTR" "Reserved"
    ∷ row 1 2 ms_sysreg_ctr ns_privilege_level_0 14 2 "L1Ip" "ident" "CTR"
        "Level 1 instruction cache policy"
    ∷ row 1 3 ms_sysreg_ctr ns_privilege_level_0 16 4 "DminLine" "ident" "CTR" "DminLine"
    ∷ row 1 4 ms_sysreg_ctr ns_privilege_level_0 20 4 "ERG" "ident" "CTR"
        "Exclusives Reservation Granule"
    ∷ row 1 5 ms_sysreg_ctr ns_privilege_level_0 24 4 "CWG" "ident" "CTR" "Cache Write-back Granule"
    ∷ row 1 6 ms_sysreg_ctr ns_privilege_level_0 28 3 "Reserved" "ident" "CTR" "Reserved"
    ∷ row 1 7 ms_sysreg_ctr ns_privilege_level_0 31 1 "Reserved" "ident" "CTR" "Reserved"
    ∷ row 1 0 ms_sysreg_midr ns_privilege_level_1 0 4 "Revision" "ident" "MIDR" "Revision"
    ∷ row 1 1 ms_sysreg_midr ns_privilege_level_1 4 12 "Primary part number" "ident" "MIDR"
        "Primary part number"
    ∷ row 1 2 ms_sysreg_midr ns_privilege_level_1 16 4 "Architecture" "ident" "MIDR" "Architecture"
    ∷ row 1 3 ms_sysreg_midr ns_privilege_level_1 20 4 "Variant" "ident" "MIDR" "Variant"
    ∷ row 1 4 ms_sysreg_midr ns_privilege_level_1 24 8 "Implementer" "ident" "MIDR" "Implementer"
    ∷ row 1 0 ms_sysreg_mpidr ns_privilege_level_1 0 8 "Aff0" "ident" "MPIDR" "Affinity level 0"
    ∷ row 1 1 ms_sysreg_mpidr ns_privilege_level_1 8 8 "Aff1" "ident" "MPIDR" "Affinity level 1"
    ∷ row 1 2 ms_sysreg_mpidr ns_privilege_level_1 16 8 "Aff2" "ident" "MPIDR" "Affinity level 2"
    ∷ row 1 3 ms_sysreg_mpidr ns_privilege_level_1 24 1 "MT" "ident" "MPIDR" "Affinity dependence"
    ∷ row 1 4 ms_sysreg_mpidr ns_privilege_level_1 25 5 "Reserved" "ident" "MPIDR" "Reserved"
    ∷ row 1 5 ms_sysreg_mpidr ns_privilege_level_1 30 1 "U" "ident" "MPIDR" "Uniprocessor system"
    ∷ row 1 6 ms_sysreg_mpidr ns_privilege_level_1 31 1 "Reserved" "ident" "MPIDR" "Reserved"
    ∷ row 1 7 ms_sysreg_mpidr ns_privilege_level_1 32 8 "Aff3" "ident" "MPIDR" "Affinity level 3"
    ∷ row 1 8 ms_sysreg_mpidr ns_privilege_level_1 40 24 "Reserved" "ident" "MPIDR" "Reserved"
    ∷ []
