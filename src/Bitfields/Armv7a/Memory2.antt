-- ===== src/Bitfields/Armv7a/Memory2.antt =====
-- lib/src/bitfields/bitfield_armv7a.c: rows of `bitfield_armv7a_table`.
use maplesyrup.Base.{List, [], ◌∷◌}
use maplesyrup.Structs.{BitfieldInfo, ns_privilege_level_1}
use maplesyrup.Bitfields.{row}
use maplesyrup.Registers.{
  ms_sysreg_amair0, ms_sysreg_amair1, ms_sysreg_contextidr, ms_sysreg_dacr, ms_sysreg_mair0,
  ms_sysreg_mair1, ms_sysreg_ttbcr, ms_sysreg_ttbr0, ms_sysreg_ttbr0lpae, ms_sysreg_ttbr1,
  ms_sysreg_ttbr1lpae,
}

unfoldable pub armv7a_memory_2 : List BitfieldInfo
armv7a_memory_2 =
    row 1 0 ms_sysreg_ttbcr ns_privilege_level_1 0 3 "N" "virtmem" "TTBCR" "Reserved"
    ∷ row 1 1 ms_sysreg_ttbcr ns_privilege_level_1 3 1 "Reserved" "virtmem" "TTBCR" "Reserved"
    ∷ row 1 2 ms_sysreg_ttbcr ns_privilege_level_1 4 1 "PD0" "virtmem" "TTBCR" "Reserved"
    ∷ row 1 3 ms_sysreg_ttbcr ns_privilege_level_1 5 1 "PD1" "virtmem" "TTBCR" "Reserved"
    ∷ row 1 4 ms_sysreg_ttbcr ns_privilege_level_1 6 25 "Reserved" "virtmem" "TTBCR" "Reserved"
    ∷ row 1 5 ms_sysreg_ttbcr ns_privilege_level_1 31 1 "EAE" "virtmem" "TTBCR" "Reserved"
    ∷ row 1 0 ms_sysreg_ttbr0 ns_privilege_level_1 0 1 "IRGN_1" "virtmem" "TTBR0"
        "Inner Cacheability attributes"
    ∷ row 1 1 ms_sysreg_ttbr0 ns_privilege_level_1 1 1 "S" "virtmem" "TTBR0" "Shareable attribute"
    ∷ row 1 2 ms_sysreg_ttbr0 ns_privilege_level_1 2 1 "Implementation Defined" "virtmem" "TTBR0"
        "Implementation Defined"
    ∷ row 1 3 ms_sysreg_ttbr0 ns_privilege_level_1 3 2 "RGN" "virtmem" "TTBR0"
        "Outer Cacheability attributes"
    ∷ row 1 4 ms_sysreg_ttbr0 ns_privilege_level_1 5 1 "NOS" "virtmem" "TTBR0"
        "Outer Shareable attributes"
    ∷ row 1 5 ms_sysreg_ttbr0 ns_privilege_level_1 6 1 "IRGN_0" "virtmem" "TTBR0"
        "Inner Cacheability attributes"
    ∷ row 1 6 ms_sysreg_ttbr0 ns_privilege_level_1 7 25 "TTB0A" "virtmem" "TTBR0"
        "Translation table base 0 address or Reserved"
    ∷ row 1 0 ms_sysreg_ttbr0lpae ns_privilege_level_1 0 64 "Implementation Defined" "virtmem"
        "TTBR0" "Refer to TRM for register format"
    ∷ row 1 0 ms_sysreg_ttbr1 ns_privilege_level_1 0 1 "IRGN_1" "virtmem" "TTBR1"
        "Inner Cacheability attributes"
    ∷ row 1 1 ms_sysreg_ttbr1 ns_privilege_level_1 1 1 "S" "virtmem" "TTBR1" "Shareable attribute"
    ∷ row 1 2 ms_sysreg_ttbr1 ns_privilege_level_1 2 1 "Implementation Defined" "virtmem" "TTBR1"
        "Implementation Defined"
    ∷ row 1 3 ms_sysreg_ttbr1 ns_privilege_level_1 3 2 "RGN" "virtmem" "TTBR1"
        "Outer Cacheability attributes"
    ∷ row 1 4 ms_sysreg_ttbr1 ns_privilege_level_1 5 1 "NOS" "virtmem" "TTBR1"
        "Outer Shareable attributes"
    ∷ row 1 5 ms_sysreg_ttbr1 ns_privilege_level_1 6 1 "IRGN_0" "virtmem" "TTBR1"
        "Inner Cacheability attributes"
    ∷ row 1 6 ms_sysreg_ttbr1 ns_privilege_level_1 7 25 "TTB1A" "virtmem" "TTBR1"
        "Translation table base 1 address or Reserved"
    ∷ row 1 0 ms_sysreg_ttbr1lpae ns_privilege_level_1 0 64 "Implementation Defined" "virtmem"
        "TTBR1" "Refer to TRM for register format"
    ∷ row 1 1 ms_sysreg_contextidr ns_privilege_level_1 0 32 "PROCID" "virtmem" "CONTEXTIDR"
        "PROCID"
    ∷ row 1 2 ms_sysreg_contextidr ns_privilege_level_1 0 8 "ASID" "virtmem" "CONTEXTIDR" "ASID"
    ∷ row 1 3 ms_sysreg_contextidr ns_privilege_level_1 8 24 "PROCID" "virtmem" "CONTEXTIDR"
        "PROCID"
    ∷ row 1 0 ms_sysreg_amair0 ns_privilege_level_1 0 32 "AMAIR0" "virtmem" "AMAIR0"
        "Implementation Defined"
    ∷ row 1 0 ms_sysreg_amair1 ns_privilege_level_1 0 32 "AMAIR1" "virtmem" "AMAIR1"
        "Implementation Defined"
    ∷ row 1 0 ms_sysreg_dacr ns_privilege_level_1 0 2 "D0" "virtmem" "DACR"
        "Domain 0 access permission"
    ∷ row 1 1 ms_sysreg_dacr ns_privilege_level_1 2 2 "D1" "virtmem" "DACR"
        "Domain 1 access permission"
    ∷ row 1 2 ms_sysreg_dacr ns_privilege_level_1 4 2 "D2" "virtmem" "DACR"
        "Domain 2 access permission"
    ∷ row 1 3 ms_sysreg_dacr ns_privilege_level_1 6 2 "D3" "virtmem" "DACR"
        "Domain 3 access permission"
    ∷ row 1 4 ms_sysreg_dacr ns_privilege_level_1 8 2 "D4" "virtmem" "DACR"
        "Domain 4 access permission"
    ∷ row 1 5 ms_sysreg_dacr ns_privilege_level_1 10 2 "D5" "virtmem" "DACR"
        "Domain 5 access permission"
    ∷ row 1 6 ms_sysreg_dacr ns_privilege_level_1 12 2 "D6" "virtmem" "DACR"
        "Domain 6 access permission"
    ∷ row 1 7 ms_sysreg_dacr ns_privilege_level_1 14 2 "D7" "virtmem" "DACR"
        "Domain 7 access permission"
    ∷ row 1 8 ms_sysreg_dacr ns_privilege_level_1 16 2 "D8" "virtmem" "DACR"
        "Domain 8 access permission"
    ∷ row 1 9 ms_sysreg_dacr ns_privilege_level_1 18 2 "D9" "virtmem" "DACR"
        "Domain 9 ccess permission"
    ∷ row 1 10 ms_sysreg_dacr ns_privilege_level_1 20 2 "D10" "virtmem" "DACR"
        "Domain 10 access permission"
    ∷ row 1 11 ms_sysreg_dacr ns_privilege_level_1 22 2 "D11" "virtmem" "DACR"
        "Domain 11 access permission"
    ∷ row 1 12 ms_sysreg_dacr ns_privilege_level_1 24 2 "D12" "virtmem" "DACR"
        "Domain 12 access permission"
    ∷ row 1 13 ms_sysreg_dacr ns_privilege_level_1 26 2 "D13" "virtmem" "DACR"
        "Domain 13 access permission"
    ∷ row 1 14 ms_sysreg_dacr ns_privilege_level_1 28 2 "D14" "virtmem" "DACR"
        "Domain 14 access permission"
    ∷ row 1 15 ms_sysreg_dacr ns_privilege_level_1 30 2 "D15" "virtmem" "DACR"
        "Domain 15 access permission"
    ∷ row 1 0 ms_sysreg_mair0 ns_privilege_level_1 0 8 "Attr0" "virtmem" "MAIR0"
        "Memory attribute 0 encoding"
    ∷ row 1 1 ms_sysreg_mair0 ns_privilege_level_1 8 8 "Attr1" "virtmem" "MAIR0"
        "Memory attribute 1 encoding"
    ∷ row 1 2 ms_sysreg_mair0 ns_privilege_level_1 16 8 "Attr2" "virtmem" "MAIR0"
        "Memory attribute 2 encoding"
    ∷ row 1 3 ms_sysreg_mair0 ns_privilege_level_1 24 8 "Attr3" "virtmem" "MAIR0"
        "Memory attribute 3 encoding"
    ∷ row 1 0 ms_sysreg_mair1 ns_privilege_level_1 0 8 "Attr4" "virtmem" "MAIR1"
        "Memory attribute 4 encoding"
    ∷ row 1 1 ms_sysreg_mair1 ns_privilege_level_1 8 8 "Attr5" "virtmem" "MAIR1"
        "Memory attribute 5 encoding"
    ∷ row 1 2 ms_sysreg_mair1 ns_privilege_level_1 16 8 "Attr6" "virtmem" "MAIR1"
        "Memory attribute 6 encoding"
    ∷ row 1 3 ms_sysreg_mair1 ns_privilege_level_1 24 8 "Attr7" "virtmem" "MAIR1"
        "Memory attribute 7 encoding"
    ∷ []
