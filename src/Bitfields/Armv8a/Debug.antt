-- ===== src/Bitfields/Armv8a/Debug.antt =====
-- lib/src/bitfields/bitfield_armv8a.c: rows of `bitfield_armv8a_table`.
use maplesyrup.Base.{List, [], ◌∷◌}
use maplesyrup.Structs.{BitfieldInfo, ns_privilege_level_1}
use maplesyrup.Bitfields.{row}
use maplesyrup.Registers.{
  ms_sysreg_dbgauthstatus, ms_sysreg_dbgdidr, ms_sysreg_dbgdrar, ms_sysreg_dbgdscr,
}

unfoldable pub armv8a_debug : List BitfieldInfo
armv8a_debug =
    row 1 0 ms_sysreg_dbgdidr ns_privilege_level_1 0 4 "Revision" "debug" "DBGDIDR" "Revision"
    ∷ row 1 1 ms_sysreg_dbgdidr ns_privilege_level_1 4 4 "Variant" "debug" "DBGDIDR" "Variant"
    ∷ row 1 2 ms_sysreg_dbgdidr ns_privilege_level_1 8 4 "Reserved" "debug" "DBGDIDR" "Reserved"
    ∷ row 1 3 ms_sysreg_dbgdidr ns_privilege_level_1 12 1 "SE_imp" "debug" "DBGDIDR"
        "Security Extensions Implemented"
    ∷ row 1 4 ms_sysreg_dbgdidr ns_privilege_level_1 13 1 "PCSR_imp" "debug" "DBGDIDR"
        "Program Counter Sampling Register"
    ∷ row 1 5 ms_sysreg_dbgdidr ns_privilege_level_1 14 1 "nSUHD_imp" "debug" "DBGDIDR"
        "Secure User Halting Debug"
    ∷ row 1 6 ms_sysreg_dbgdidr ns_privilege_level_1 15 1 "DEVID_imp" "debug" "DBGDIDR"
        "Debug Device ID"
    ∷ row 1 7 ms_sysreg_dbgdidr ns_privilege_level_1 16 4 "Version" "debug" "DBGDIDR" "Version"
    ∷ row 1 8 ms_sysreg_dbgdidr ns_privilege_level_1 20 4 "CTX_CMP" "debug" "DBGDIDR"
        "Context Compare Breakpoints"
    ∷ row 1 9 ms_sysreg_dbgdidr ns_privilege_level_1 24 4 "BRP" "debug" "DBGDIDR"
        "Number of breakpoints"
    ∷ row 1 10 ms_sysreg_dbgdidr ns_privilege_level_1 28 4 "WRP" "debug" "DBGDIDR"
        "Number of Watchpoints Implemented"
    ∷ row 1 0 ms_sysreg_dbgauthstatus ns_privilege_level_1 0 1 "NSE" "debug" "DBGAUTHSTATUS"
        "Non-secure invasive debug"
    ∷ row 1 1 ms_sysreg_dbgauthstatus ns_privilege_level_1 1 1 "NSI" "debug" "DBGAUTHSTATUS"
        " Non-secure invasive debug features"
    ∷ row 1 2 ms_sysreg_dbgauthstatus ns_privilege_level_1 2 1 "NSNE" "debug" "DBGAUTHSTATUS"
        "Non-secure non-invasive debug"
    ∷ row 1 3 ms_sysreg_dbgauthstatus ns_privilege_level_1 3 1 "NSNI" "debug" "DBGAUTHSTATUS"
        "Non-secure non-invasive debug"
    ∷ row 1 4 ms_sysreg_dbgauthstatus ns_privilege_level_1 4 1 "SE" "debug" "DBGAUTHSTATUS"
        "Secure invasive"
    ∷ row 1 5 ms_sysreg_dbgauthstatus ns_privilege_level_1 5 1 "SI" "debug" "DBGAUTHSTATUS"
        "Secure invasive features"
    ∷ row 1 6 ms_sysreg_dbgauthstatus ns_privilege_level_1 6 1 "SNE" "debug" "DBGAUTHSTATUS"
        "Secure non-invasive"
    ∷ row 1 7 ms_sysreg_dbgauthstatus ns_privilege_level_1 7 1 "SNI" "debug" "DBGAUTHSTATUS"
        "Secure non-invasive features"
    ∷ row 1 8 ms_sysreg_dbgauthstatus ns_privilege_level_1 8 24 "Reserved" "debug" "DBGAUTHSTATUS"
        "Reserved"
    ∷ row 1 0 ms_sysreg_dbgdrar ns_privilege_level_1 0 2 "Valid" "debug" "DBGDRAR"
        "ROM table address is valid"
    ∷ row 1 1 ms_sysreg_dbgdrar ns_privilege_level_1 2 10 "Reserved" "debug" "DBGDRAR" "Reserved"
    ∷ row 1 2 ms_sysreg_dbgdrar ns_privilege_level_1 12 36 "ROMADDR" "debug" "DBGDRAR"
        "Bits [47:12] of component physical address. [11:0] are zero."
    ∷ row 1 3 ms_sysreg_dbgdrar ns_privilege_level_1 48 16 "Reserved" "debug" "DBGDRAR" "Reserved"
    ∷ row 1 0 ms_sysreg_dbgdscr ns_privilege_level_1 0 1 "SS" "debug" "DBGDSCR"
        "Enable software step"
    ∷ row 1 1 ms_sysreg_dbgdscr ns_privilege_level_1 1 5 "Reserved" "debug" "DBGDSCR" "Reserved"
    ∷ row 1 2 ms_sysreg_dbgdscr ns_privilege_level_1 6 1 "ERR" "debug" "DBGDSCR"
        "Used for save/restore of EDSCR.ERR"
    ∷ row 1 3 ms_sysreg_dbgdscr ns_privilege_level_1 7 5 "Reserved" "debug" "DBGDSCR" "Reserved"
    ∷ row 1 4 ms_sysreg_dbgdscr ns_privilege_level_1 12 1 "TDCC" "debug" "DBGDSCR"
        "Trap user mode (EL0) access to the DCC registers to EL1"
    ∷ row 1 5 ms_sysreg_dbgdscr ns_privilege_level_1 13 1 "KDE" "debug" "DBGDSCR"
        "Local (kernel) debug enable"
    ∷ row 1 6 ms_sysreg_dbgdscr ns_privilege_level_1 14 1 "HDE" "debug" "DBGDSCR"
        "Used for save/restore of EDSCR.HDE"
    ∷ row 1 7 ms_sysreg_dbgdscr ns_privilege_level_1 15 1 "MDE" "debug" "DBGDSCR"
        "Monitor debug events"
    ∷ row 1 8 ms_sysreg_dbgdscr ns_privilege_level_1 16 3 "Reserved" "debug" "DBGDSCR" "Reserved"
    ∷ row 1 9 ms_sysreg_dbgdscr ns_privilege_level_1 19 2 "Reserved" "debug" "DBGDSCR" "Reserved"
    ∷ row 1 10 ms_sysreg_dbgdscr ns_privilege_level_1 21 1 "TDA" "debug" "DBGDSCR"
        "Used for save/restore of EDSCR.TDA"
    ∷ row 1 11 ms_sysreg_dbgdscr ns_privilege_level_1 22 2 "INTdis" "debug" "DBGDSCR"
        "Used for save/restore of EDSCR.INTdis"
    ∷ row 1 12 ms_sysreg_dbgdscr ns_privilege_level_1 24 2 "Reserved" "debug" "DBGDSCR" "Reserved"
    ∷ row 1 13 ms_sysreg_dbgdscr ns_privilege_level_1 26 1 "TXU" "debug" "DBGDSCR"
        "Used for save/restore of EDSCR.TXU"
    ∷ row 1 14 ms_sysreg_dbgdscr ns_privilege_level_1 27 1 "RXO" "debug" "DBGDSCR"
        "Used for save/restore of EDSCR.RXO"
    ∷ row 1 15 ms_sysreg_dbgdscr ns_privilege_level_1 28 1 "Reserved" "debug" "DBGDSCR" "Reserved"
    ∷ row 1 16 ms_sysreg_dbgdscr ns_privilege_level_1 29 1 "TXfull" "debug" "DBGDSCR"
        "Used for save/restore of EDSCR.TXfull"
    ∷ row 1 17 ms_sysreg_dbgdscr ns_privilege_level_1 30 1 "RXfull" "debug" "DBGDSCR"
        "Used for save/restore of EDSCR.RXfull"
    ∷ row 1 18 ms_sysreg_dbgdscr ns_privilege_level_1 31 1 "Reserved" "debug" "DBGDSCR" "Reserved"
    ∷ []
