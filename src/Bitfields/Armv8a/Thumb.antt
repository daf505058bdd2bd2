-- ===== src/Bitfields/Armv8a/Thumb.antt =====
-- lib/src/bitfields/bitfield_armv8a.c: rows of `bitfield_armv8a_table`.
use maplesyrup.Base.{List, [], ◌∷◌}
use maplesyrup.Structs.{BitfieldInfo, ns_privilege_level_0, ns_privilege_level_1}
use maplesyrup.Bitfields.{row, ns_all}
use maplesyrup.Registers.{
  ms_sysreg_par, ms_sysreg_teecr, ms_sysreg_teehbr, ms_sysreg_tpidrprw, ms_sysreg_tpidruro,
  ms_sysreg_tpidrurw,
}

unfoldable pub armv8a_thumb : List BitfieldInfo
armv8a_thumb =
    row 1 0 ms_sysreg_teecr ns_all 0 1 "XED" "thumb" "TEECR"
      "Unprivileged Execution Environment Disable"
    ∷ row 1 1 ms_sysreg_teecr ns_all 1 31 "Reserved" "thumb" "TEECR" "Reserved"
    ∷ row 1 0 ms_sysreg_teehbr ns_all 0 2 "Reserved" "thumb" "TEEHBR" "Reserved"
    ∷ row 1 1 ms_sysreg_teehbr ns_all 2 30 "HandlerBase" "thumb" "TEEHBR"
        "Address of ThumbEE handlers"
    ∷ row 1 0 ms_sysreg_tpidrprw ns_privilege_level_1 0 64 "Thread ID" "misc" "TPIDR"
        "Thread ID Storage"
    ∷ row 1 0 ms_sysreg_tpidruro ns_privilege_level_0 0 64 "Thread ID" "misc" "TPIDRRO"
        "Thread ID Storage"
    ∷ row 1 0 ms_sysreg_tpidrurw ns_privilege_level_0 0 64 "Thread ID" "misc" "TPIDR"
        "Thread ID Storage"
    ∷ row 1 0 ms_sysreg_par ns_privilege_level_1 0 1 "F" "addrtrans" "PAR" "Conversion status"
    ∷ row 1 1 ms_sysreg_par ns_privilege_level_1 1 6 "Reserved" "addrtrans" "PAR" "Reserved"
    ∷ row 1 2 ms_sysreg_par ns_privilege_level_1 7 2 "SH" "addrtrans" "PAR" "Shareability attribute"
    ∷ row 1 3 ms_sysreg_par ns_privilege_level_1 9 1 "NS" "addrtrans" "PAR" "Non-secure"
    ∷ row 1 4 ms_sysreg_par ns_privilege_level_1 10 1 "Implementation Defined" "addrtrans" "PAR"
        "Implementation Defined"
    ∷ row 1 5 ms_sysreg_par ns_privilege_level_1 11 1 "Reserved" "addrtrans" "PAR" "Reserved"
    ∷ row 1 6 ms_sysreg_par ns_privilege_level_1 12 36 "PA" "addrtrans" "PAR" "Output Address"
    ∷ row 1 7 ms_sysreg_par ns_privilege_level_1 48 8 "Reserved" "addrtrans" "PAR" "Reserved"
    ∷ row 1 8 ms_sysreg_par ns_privilege_level_1 56 8 "ATTR" "addrtrans" "PAR" "Memory attributes"
    ∷ []
