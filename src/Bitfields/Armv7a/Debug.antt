-- ===== src/Bitfields/Armv7a/Debug.antt =====
-- lib/src/bitfields/bitfield_armv7a.c: rows of `bitfield_armv7a_table`.
use maplesyrup.Base.{List, [], ◌∷◌}
use maplesyrup.Structs.{BitfieldInfo, ns_privilege_level_1}
use maplesyrup.Bitfields.{row}
use maplesyrup.Registers.{
  ms_sysreg_dbgauthstatus, ms_sysreg_dbgdidr, ms_sysreg_dbgdrar, ms_sysreg_dbgdscr,
}

unfoldable pub armv7a_debug : List BitfieldInfo
armv7a_debug =
    row 1 0 ms_sysreg_dbgdidr ns_privilege_level_1 0 4 "Revision" "debug" "DBGDIDR" "Revision"
    ∷ row 1 1 ms_sysreg_dbgdidr ns_privilege_level_1 4 4 "Variant" "debug" "DBGDIDR" "Variant"
    ∷ row 1 2 ms_sysreg_dbgdidr ns_privilege_level_1 8 4 "Reserved" "debug" "DBGDIDR" "Reserved"
    ∷ row 1 3 ms_sysreg_dbgdidr ns_privilege_level_1 12 1 "SE_imp" "debug" "DBGDIDR"
        "Security Extensions Implemented"
    ∷ row 1 4 ms_sysreg_dbgdidr ns_privilege_level_1 13 1 "PCSR_imp" "debug" "DBGDIDR"
        "Program Counter Sampling Register"
    ∷ row 1 5 ms_sysreg_dbgdidr ns_privilege_level_1 14 1 "nSUHD_imp" "debug" "DBGDIDR"
        "Secure User Halting Debug"
    ∷ row 1 6 ms_sysreg_dbgdidr ns_privilege_level_1 15 1 "DEVID_imp" "debug" "DBGDIDR"
        "Debug Device ID"
    ∷ row 1 7 ms_sysreg_dbgdidr ns_privilege_level_1 16 4 "Version" "debug" "DBGDIDR" "Version"
    ∷ row 1 8 ms_sysreg_dbgdidr ns_privilege_level_1 20 4 "CTX_CMP" "debug" "DBGDIDR"
        "Context Compare Breakpoints"
    ∷ row 1 9 ms_sysreg_dbgdidr ns_privilege_level_1 24 4 "BRP" "debug" "DBGDIDR"
        "Number of breakpoints"
    ∷ row 1 10 ms_sysreg_dbgdidr ns_privilege_level_1 28 4 "WRP" "debug" "DBGDIDR"
        "Number of Watchpoints Implemented"
    ∷ row 1 0 ms_sysreg_dbgauthstatus ns_privilege_level_1 0 1 "NSE" "debug" "DBGAUTHSTATUS"
        "Non-secure invasive debug"
    ∷ row 1 1 ms_sysreg_dbgauthstatus ns_privilege_level_1 1 1 "NSI" "debug" "DBGAUTHSTATUS"
        " Non-secure invasive debug features"
    ∷ row 1 2 ms_sysreg_dbgauthstatus ns_privilege_level_1 2 1 "NSNE" "debug" "DBGAUTHSTATUS"
        "Non-secure non-invasive debug"
    ∷ row 1 3 ms_sysreg_dbgauthstatus ns_privilege_level_1 3 1 "NSNI" "debug" "DBGAUTHSTATUS"
        "Non-secure non-invasive debug"
    ∷ row 1 4 ms_sysreg_dbgauthstatus ns_privilege_level_1 4 1 "SE" "debug" "DBGAUTHSTATUS"
        "Secure invasive"
    ∷ row 1 5 ms_sysreg_dbgauthstatus ns_privilege_level_1 5 1 "SI" "debug" "DBGAUTHSTATUS"
        "Secure invasive features"
    ∷ row 1 6 ms_sysreg_dbgauthstatus ns_privilege_level_1 6 1 "SNE" "debug" "DBGAUTHSTATUS"
        "Secure non-invasive"
    ∷ row 1 7 ms_sysreg_dbgauthstatus ns_privilege_level_1 7 1 "SNI" "debug" "DBGAUTHSTATUS"
        "Secure non-invasive features"
    ∷ row 1 8 ms_sysreg_dbgauthstatus ns_privilege_level_1 8 24 "Reserved" "debug" "DBGAUTHSTATUS"
        "Reserved"
    ∷ row 1 0 ms_sysreg_dbgdrar ns_privilege_level_1 0 2 "Valid" "debug" "DBGDRAR"
        "ROM table address is valid"
    ∷ row 1 1 ms_sysreg_dbgdrar ns_privilege_level_1 2 10 "Reserved" "debug" "DBGDRAR" "Reserved"
    ∷ row 1 2 ms_sysreg_dbgdrar ns_privilege_level_1 12 28 "ROMADDR" "debug" "DBGDRAR"
        "Bits [39:12] of component physical address. [11:0] are zero."
    ∷ row 1 3 ms_sysreg_dbgdrar ns_privilege_level_1 40 24 "Reserved" "debug" "DBGDRAR" "Reserved"
    ∷ row 1 0 ms_sysreg_dbgdscr ns_privilege_level_1 0 1 "HALTED" "debug" "DBGDSCR"
        "Processor Halted"
    ∷ row 1 1 ms_sysreg_dbgdscr ns_privilege_level_1 1 1 "RESTARTED" "debug" "DBGDSCR"
        "Processor Restarted"
    ∷ row 1 2 ms_sysreg_dbgdscr ns_privilege_level_1 2 4 "MOE" "debug" "DBGDSCR"
        "Method of debug entry"
    ∷ row 1 3 ms_sysreg_dbgdscr ns_privilege_level_1 6 1 "SDABORT_L" "debug" "DBGDSCR"
        "Synchronous data abort exception when in debug state"
    ∷ row 1 4 ms_sysreg_dbgdscr ns_privilege_level_1 7 1 "ADABORT_L" "debug" "DBGDSCR"
        "Asynchronous data abort exception when in debug state"
    ∷ row 1 5 ms_sysreg_dbgdscr ns_privilege_level_1 8 1 "UND_L" "debug" "DBGDSCR"
        "Undefined instruction exception when in debug state"
    ∷ row 1 6 ms_sysreg_dbgdscr ns_privilege_level_1 9 1 "FS" "debug" "DBGDSCR"
        "Updated every data abort exception generated in debug state"
    ∷ row 1 7 ms_sysreg_dbgdscr ns_privilege_level_1 10 1 "DBGack" "debug" "DBGDSCR"
        "Force debug acknowledge"
    ∷ row 1 8 ms_sysreg_dbgdscr ns_privilege_level_1 11 1 "INTdis" "debug" "DBGDSCR"
        "Interrupts disable"
    ∷ row 1 9 ms_sysreg_dbgdscr ns_privilege_level_1 12 1 "UDCCDIS" "debug" "DBGDSCR"
        "User mode access to Debug Communications Channel (DBB) disable"
    ∷ row 1 10 ms_sysreg_dbgdscr ns_privilege_level_1 13 1 "ITRen" "debug" "DBGDSCR"
        "Enabled execution of ARM instructions through the DBGITR"
    ∷ row 1 11 ms_sysreg_dbgdscr ns_privilege_level_1 14 1 "HDBGen" "debug" "DBGDSCR"
        "Halting debug-mode enable"
    ∷ row 1 12 ms_sysreg_dbgdscr ns_privilege_level_1 15 1 "MDGBen" "debug" "DBGDSCR"
        "Monitor debug-mode enable"
    ∷ row 1 13 ms_sysreg_dbgdscr ns_privilege_level_1 16 1 "SPIDdis" "debug" "DBGDSCR"
        "Secure PL1 invasive debug disabled bit"
    ∷ row 1 14 ms_sysreg_dbgdscr ns_privilege_level_1 17 1 "SPNIdis" "debug" "DBGDSCR"
        "Secure PL1 non-invasive debug disabled bit"
    ∷ row 1 15 ms_sysreg_dbgdscr ns_privilege_level_1 18 1 "NS" "debug" "DBGDSCR"
        "Non-secure state status"
    ∷ row 1 16 ms_sysreg_dbgdscr ns_privilege_level_1 19 1 "ADAdiscard" "debug" "DBGDSCR"
        "Asynchronous aborts discarded"
    ∷ row 1 17 ms_sysreg_dbgdscr ns_privilege_level_1 20 2 "ExtDCCmode" "debug" "DBGDSCR"
        "External DCC access mode"
    ∷ row 1 18 ms_sysreg_dbgdscr ns_privilege_level_1 22 2 "Reserved" "debug" "DBGDSCR" "Reserved"
    ∷ row 1 19 ms_sysreg_dbgdscr ns_privilege_level_1 24 1 "InstrCompl_I" "debug" "DBGDSCR"
        "Latched copy of InstrCompl. Indicates completion of DBGITR"
    ∷ row 1 20 ms_sysreg_dbgdscr ns_privilege_level_1 25 1 "PipeAdv" "debug" "DBGDSCR"
        "Stick pipeline advance bit"
    ∷ row 1 21 ms_sysreg_dbgdscr ns_privilege_level_1 26 1 "TXfull_L" "debug" "DBGDSCR"
        "Controls behavior of processor on reads of DBGDTRTXext"
    ∷ row 1 22 ms_sysreg_dbgdscr ns_privilege_level_1 27 1 "RXfull_L" "debug" "DBGDSCR"
        "Controls behavior of processor on reads of DBGDTRRXext"
    ∷ row 1 23 ms_sysreg_dbgdscr ns_privilege_level_1 28 1 "Reserved" "debug" "DBGDSCR" "Reserved"
    ∷ row 1 24 ms_sysreg_dbgdscr ns_privilege_level_1 29 1 "TXfull" "debug" "DBGDSCR"
        "DBGDTRTX register full"
    ∷ row 1 25 ms_sysreg_dbgdscr ns_privilege_level_1 30 1 "RXfull" "debug" "DBGDSCR"
        "DBGDTRTX register full"
    ∷ row 1 26 ms_sysreg_dbgdscr ns_privilege_level_1 31 1 "Reserved" "debug" "DBGDSCR" "Reserved"
    ∷ []
