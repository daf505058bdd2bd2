-- ===== src/Bitfields/Armv8a/Memory.antt =====
-- lib/src/bitfields/bitfield_armv8a.c: rows of `bitfield_armv8a_table`.
use maplesyrup.Base.{List, [], ◌∷◌}
use maplesyrup.Structs.{BitfieldInfo, ns_privilege_level_0, ns_privilege_level_1}
use maplesyrup.Bitfields.{row}
use maplesyrup.Registers.{
  ms_sysreg_amair, ms_sysreg_contextidr, ms_sysreg_dczid, ms_sysreg_mair, ms_sysreg_sctlr,
  ms_sysreg_ttbcr, ms_sysreg_ttbr0, ms_sysreg_ttbr1,
}

unfoldable pub armv8a_memory : List BitfieldInfo
armv8a_memory =
    row 1 0 ms_sysreg_mair ns_privilege_level_1 0 8 "Attr0" "virtmem" "MAIR"
      "Memory attribute encoding"
    ∷ row 1 1 ms_sysreg_mair ns_privilege_level_1 8 8 "Attr1" "virtmem" "MAIR"
        "Memory attribute encoding"
    ∷ row 1 2 ms_sysreg_mair ns_privilege_level_1 16 8 "Attr2" "virtmem" "MAIR"
        "Memory attribute encoding"
    ∷ row 1 3 ms_sysreg_mair ns_privilege_level_1 24 8 "Attr3" "virtmem" "MAIR"
        "Memory attribute encoding"
    ∷ row 1 4 ms_sysreg_mair ns_privilege_level_1 32 8 "Attr4" "virtmem" "MAIR"
        "Memory attribute encoding"
    ∷ row 1 5 ms_sysreg_mair ns_privilege_level_1 40 8 "Attr5" "virtmem" "MAIR"
        "Memory attribute encoding"
    ∷ row 1 6 ms_sysreg_mair ns_privilege_level_1 48 8 "Attr6" "virtmem" "MAIR"
        "Memory attribute encoding"
    ∷ row 1 7 ms_sysreg_mair ns_privilege_level_1 56 8 "Attr7" "virtmem" "MAIR"
        "Memory attribute encoding"
    ∷ row 1 0 ms_sysreg_sctlr ns_privilege_level_1 0 1 "M" "virtmem" "SCTLR" "MMU Enable"
    ∷ row 1 1 ms_sysreg_sctlr ns_privilege_level_1 1 1 "A" "virtmem" "SCTLR"
        "Alignment check enable"
    ∷ row 1 2 ms_sysreg_sctlr ns_privilege_level_1 2 1 "C" "virtmem" "SCTLR" "Cache enable"
    ∷ row 1 3 ms_sysreg_sctlr ns_privilege_level_1 3 1 "SA" "virtmem" "SCTLR"
        "Stack alignment check enable"
    ∷ row 1 4 ms_sysreg_sctlr ns_privilege_level_1 4 1 "SA0" "virtmem" "SCTLR"
        "Stack alignment check enable for EL0"
    ∷ row 1 5 ms_sysreg_sctlr ns_privilege_level_1 5 1 "CP15BEN" "virtmem" "SCTLR"
        "CP15 barrier enable"
    ∷ row 1 6 ms_sysreg_sctlr ns_privilege_level_1 6 1 "Reserved" "virtmem" "SCTLR" "Reserved"
    ∷ row 1 7 ms_sysreg_sctlr ns_privilege_level_1 7 1 "ITD" "virtmem" "SCTLR"
        "Disables some uses of IT instructions at EL0 using AArch32"
    ∷ row 1 8 ms_sysreg_sctlr ns_privilege_level_1 8 1 "SED" "virtmem" "SCTLR"
        "Disables the SETEND instruction at EL0 using AArch32"
    ∷ row 1 9 ms_sysreg_sctlr ns_privilege_level_1 9 1 "UMA" "virtmem" "SCTLR"
        "Traps EL0 execution of MSR and MRS instructions that access PSTATE"
    ∷ row 1 10 ms_sysreg_sctlr ns_privilege_level_1 10 1 "Reserved" "virtmem" "SCTLR" "Reserved"
    ∷ row 1 11 ms_sysreg_sctlr ns_privilege_level_1 11 1 "Reserved" "virtmem" "SCTLR" "Reserved"
    ∷ row 1 12 ms_sysreg_sctlr ns_privilege_level_1 12 1 "I" "virtmem" "SCTLR"
        "Instruction access Cacheability control"
    ∷ row 1 13 ms_sysreg_sctlr ns_privilege_level_1 13 1 "Reserved" "virtmem" "SCTLR" "Reserved"
    ∷ row 1 14 ms_sysreg_sctlr ns_privilege_level_1 14 1 "DZE" "virtmem" "SCTLR"
        "Traps EL0 execution of DC ZVA instructions to EL1"
    ∷ row 1 15 ms_sysreg_sctlr ns_privilege_level_1 15 1 "UCT" "virtmem" "SCTLR"
        "Traps EL0 access to the CTR_EL0 register to EL1"
    ∷ row 1 16 ms_sysreg_sctlr ns_privilege_level_1 16 1 "NTWI" "virtmem" "SCTLR"
        "Traps EL0 execution of WFI instructions to EL1"
    ∷ row 1 17 ms_sysreg_sctlr ns_privilege_level_1 17 1 "Reserved" "virtmem" "SCTLR" "Reserved"
    ∷ row 1 18 ms_sysreg_sctlr ns_privilege_level_1 18 1 "NTWE" "virtmem" "SCTLR"
        "Traps EL0 execution of WFE instructions to EL1"
    ∷ row 1 19 ms_sysreg_sctlr ns_privilege_level_1 19 1 "WXN" "virtmem" "SCTLR"
        "Write permission implies XN (Execute Never) at EL0/1"
    ∷ row 1 20 ms_sysreg_sctlr ns_privilege_level_1 20 1 "Reserved" "virtmem" "SCTLR" "Reserved"
    ∷ row 1 21 ms_sysreg_sctlr ns_privilege_level_1 21 1 "Reserved" "virtmem" "SCTLR" "Reserved"
    ∷ row 1 22 ms_sysreg_sctlr ns_privilege_level_1 22 2 "Reserved" "virtmem" "SCTLR" "Reserved"
    ∷ row 1 23 ms_sysreg_sctlr ns_privilege_level_1 24 1 "E0E" "virtmem" "SCTLR"
        "Endianess of data access at EL0"
    ∷ row 1 24 ms_sysreg_sctlr ns_privilege_level_1 25 1 "EE" "virtmem" "SCTLR"
        "Endianess of data at EL1 and translation table walk"
    ∷ row 1 25 ms_sysreg_sctlr ns_privilege_level_1 26 1 "UCI" "virtmem" "SCTLR"
        "Traps EL0 cache maintenance instructions to EL1"
    ∷ row 1 26 ms_sysreg_sctlr ns_privilege_level_1 27 1 "Reserved" "virtmem" "SCTLR" "Reserved"
    ∷ row 1 27 ms_sysreg_sctlr ns_privilege_level_1 28 2 "Reserved" "virtmem" "SCTLR" "Reserved"
    ∷ row 1 28 ms_sysreg_sctlr ns_privilege_level_1 30 2 "Reserved" "virtmem" "SCTLR" "Reserved"
    ∷ row 1 0 ms_sysreg_contextidr ns_privilege_level_1 0 32 "PROCID" "virtmem" "CONTEXTIDR"
        "PROCID"
    ∷ row 1 1 ms_sysreg_contextidr ns_privilege_level_1 0 8 "ASID" "virtmem" "CONTEXTIDR" "ASID"
    ∷ row 1 2 ms_sysreg_contextidr ns_privilege_level_1 8 24 "PROCID" "virtmem" "CONTEXTIDR"
        "PROCID"
    ∷ row 1 0 ms_sysreg_amair ns_privilege_level_1 0 64 "Implementation Defined" "virtmem" "AMAIR"
        "Implementation Defined"
    ∷ row 1 0 ms_sysreg_dczid ns_privilege_level_0 0 4 "BS" "virtmem" "DCZID" "Block size"
    ∷ row 1 1 ms_sysreg_dczid ns_privilege_level_0 4 1 "DZP" "virtmem" "DCZID"
        "Data Zero prohibited"
    ∷ row 1 2 ms_sysreg_dczid ns_privilege_level_0 5 27 "Reserved" "virtmem" "DCZID" "Reserved"
    ∷ row 1 0 ms_sysreg_ttbcr ns_privilege_level_1 0 6 "T0SZ" "virtmem" "TCR"
        "Size offset of memory region addressed by TTBR0_EL1"
    ∷ row 1 1 ms_sysreg_ttbcr ns_privilege_level_1 6 1 "Reserved" "virtmem" "TCR" "Reserved"
    ∷ row 1 2 ms_sysreg_ttbcr ns_privilege_level_1 7 1 "EPD0" "virtmem" "TCR"
        "Translation table walk disable for translations using TTBR0_EL1"
    ∷ row 1 3 ms_sysreg_ttbcr ns_privilege_level_1 8 2 "IRGN0" "virtmem" "TCR"
        "Inner cacheability attribute"
    ∷ row 1 4 ms_sysreg_ttbcr ns_privilege_level_1 10 2 "ORGN0" "virtmem" "TCR"
        "Outer cacheability attribute"
    ∷ row 1 5 ms_sysreg_ttbcr ns_privilege_level_1 12 2 "SH0" "virtmem" "TCR"
        "Shareability attribute"
    ∷ row 1 6 ms_sysreg_ttbcr ns_privilege_level_1 14 2 "TG0" "virtmem" "TCR"
        "Granule size for translation table base address register"
    ∷ row 1 7 ms_sysreg_ttbcr ns_privilege_level_1 16 6 "T1SZ" "virtmem" "TCR"
        "Size offset of the memory region addressed by TTBR1_EL1"
    ∷ row 1 8 ms_sysreg_ttbcr ns_privilege_level_1 22 1 "A1" "virtmem" "TCR"
        "Selects whether TTBR0_EL1 or TTBR1_EL1 defines the ASID"
    ∷ row 1 9 ms_sysreg_ttbcr ns_privilege_level_1 23 1 "EPD1" "virtmem" "TCR"
        "Translation table walk disable for translations using TTBR1_EL1"
    ∷ row 1 10 ms_sysreg_ttbcr ns_privilege_level_1 24 2 "IRGN1" "virtmem" "TCR"
        "Inner cacheability attribute for memory associated with translation table walks using TTBR1_EL1"
    ∷ row 1 11 ms_sysreg_ttbcr ns_privilege_level_1 26 2 "ORGN1" "virtmem" "TCR"
        "Outer cacheability attribute for memory associated with translation table walks using TTBR1_EL1"
    ∷ row 1 12 ms_sysreg_ttbcr ns_privilege_level_1 28 2 "SH1" "virtmem" "TCR"
        "Shareability attribute"
    ∷ row 1 13 ms_sysreg_ttbcr ns_privilege_level_1 30 2 "TG1" "virtmem" "TCR"
        "TTBR1_EL1 Granule size"
    ∷ row 1 14 ms_sysreg_ttbcr ns_privilege_level_1 32 3 "IPS" "virtmem" "TCR"
        "Intermediate Physical address size"
    ∷ row 1 15 ms_sysreg_ttbcr ns_privilege_level_1 35 1 "Reserved" "virtmem" "TCR" "Reserved"
    ∷ row 1 16 ms_sysreg_ttbcr ns_privilege_level_1 36 1 "AS" "virtmem" "TCR" "ASID size"
    ∷ row 1 17 ms_sysreg_ttbcr ns_privilege_level_1 37 1 "TBI0" "virtmem" "TCR"
        "Top byte ignored for TTBR0_EL1"
    ∷ row 1 18 ms_sysreg_ttbcr ns_privilege_level_1 38 1 "TBI1" "virtmem" "TCR"
        "Top byte ignored for TTBR1_EL1"
    ∷ row 1 19 ms_sysreg_ttbcr ns_privilege_level_1 39 25 "Reserved" "virtmem" "TCR" "Reserved"
    ∷ row 1 0 ms_sysreg_ttbr1 ns_privilege_level_1 0 48 "BADDR" "virtmem" "TTBR0"
        "Translation table base address"
    ∷ row 1 1 ms_sysreg_ttbr1 ns_privilege_level_1 48 16 "ASID" "virtmem" "TTBR0"
        "ASID for translation table base address"
    ∷ row 1 0 ms_sysreg_ttbr0 ns_privilege_level_1 0 48 "BADDR" "virtmem" "TTBR1"
        "Translation table base address"
    ∷ row 1 1 ms_sysreg_ttbr0 ns_privilege_level_1 48 16 "ASID" "virtmem" "TTBR1"
        "ASID for translation table base address"
    ∷ []
