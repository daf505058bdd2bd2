-- ===== src/Bitfields/Armv7a/Security.antt =====
-- lib/src/bitfields/bitfield_armv7a.c: rows of `bitfield_armv7a_table`.
use maplesyrup.Base.{List, [], ◌∷◌}
use maplesyrup.Structs.{BitfieldInfo, ns_privilege_level_1}
use maplesyrup.Bitfields.{row, s_all}
use maplesyrup.Registers.{
  ms_sysreg_isr, ms_sysreg_mvbar, ms_sysreg_nsacr, ms_sysreg_scr, ms_sysreg_sder, ms_sysreg_vbar,
}

unfoldable pub armv7a_security : List BitfieldInfo
armv7a_security =
    row 1 0 ms_sysreg_scr s_all 0 1 "NS" "secext" "SCR" "Non Secure Bit"
    ∷ row 1 1 ms_sysreg_scr s_all 1 1 "IRQ" "secext" "SCR" "IRQ Handler"
    ∷ row 1 2 ms_sysreg_scr s_all 2 1 "FIQ" "secext" "SCR" "FIQ Handler"
    ∷ row 1 3 ms_sysreg_scr s_all 3 1 "EA" "secext" "SCR" "External Abort Handler"
    ∷ row 1 4 ms_sysreg_scr s_all 4 1 "FW" "secext" "SCR" "F bit writeable"
    ∷ row 1 5 ms_sysreg_scr s_all 5 1 "AW" "secext" "SCR" "A bit writeable"
    ∷ row 1 6 ms_sysreg_scr s_all 6 1 "nET" "secext" "SCR" "Not Early Termination"
    ∷ row 1 7 ms_sysreg_scr s_all 7 1 "SCD" "secext" "SCR" "Secure Monitor Call disable"
    ∷ row 1 8 ms_sysreg_scr s_all 8 1 "HCE" "secext" "SCR" "HYP call enable"
    ∷ row 1 9 ms_sysreg_scr s_all 9 1 "SIF" "secext" "SCR" "Secure Instruction Fetch bit"
    ∷ row 1 10 ms_sysreg_scr s_all 10 22 "Reserved" "secext" "SCR" "Reserved"
    ∷ row 1 0 ms_sysreg_isr ns_privilege_level_1 0 6 "Reserved" "secext" "ISR" "Reserved"
    ∷ row 1 1 ms_sysreg_isr ns_privilege_level_1 6 1 "F" "secext" "ISR" "FIQ pending bit"
    ∷ row 1 2 ms_sysreg_isr ns_privilege_level_1 7 1 "I" "secext" "ISR" "IRQ pending bit"
    ∷ row 1 3 ms_sysreg_isr ns_privilege_level_1 8 1 "A" "secext" "ISR" "External abort pending bit"
    ∷ row 1 4 ms_sysreg_isr ns_privilege_level_1 9 23 "Reserved" "secext" "ISR" "Reserved"
    ∷ row 1 0 ms_sysreg_mvbar s_all 0 5 "Reserved" "secext" "MVBAR" "Reserved"
    ∷ row 1 1 ms_sysreg_mvbar s_all 5 27 "Monitor_Vector_Base_Address" "secext" "MVBAR"
        "Monitor Vector Base Address"
    ∷ row 1 0 ms_sysreg_nsacr ns_privilege_level_1 0 1 "CP0" "secext" "NSACR"
        "Non-secure access to coprocessor 0 enable"
    ∷ row 1 1 ms_sysreg_nsacr ns_privilege_level_1 1 1 "CP1" "secext" "NSACR"
        "Non-secure access to coprocessor 1 enable"
    ∷ row 1 2 ms_sysreg_nsacr ns_privilege_level_1 2 1 "CP2" "secext" "NSACR"
        "Non-secure access to coprocessor 2 enable"
    ∷ row 1 3 ms_sysreg_nsacr ns_privilege_level_1 3 1 "CP3" "secext" "NSACR"
        "Non-secure access to coprocessor 3 enable"
    ∷ row 1 4 ms_sysreg_nsacr ns_privilege_level_1 4 1 "CP4" "secext" "NSACR"
        "Non-secure access to coprocessor 4 enable"
    ∷ row 1 5 ms_sysreg_nsacr ns_privilege_level_1 5 1 "CP5" "secext" "NSACR"
        "Non-secure access to coprocessor 5 enable"
    ∷ row 1 6 ms_sysreg_nsacr ns_privilege_level_1 6 1 "CP6" "secext" "NSACR"
        "Non-secure access to coprocessor 6 enable"
    ∷ row 1 7 ms_sysreg_nsacr ns_privilege_level_1 7 1 "CP7" "secext" "NSACR"
        "Non-secure access to coprocessor 7 enable"
    ∷ row 1 8 ms_sysreg_nsacr ns_privilege_level_1 8 1 "CP8" "secext" "NSACR"
        "Non-secure access to coprocessor 8 enable"
    ∷ row 1 9 ms_sysreg_nsacr ns_privilege_level_1 9 1 "CP9" "secext" "NSACR"
        "Non-secure access to coprocessor 9 enable"
    ∷ row 1 10 ms_sysreg_nsacr ns_privilege_level_1 10 1 "CP10" "secext" "NSACR"
        "Non-secure access to coprocessor 10 enable"
    ∷ row 1 11 ms_sysreg_nsacr ns_privilege_level_1 11 1 "CP11" "secext" "NSACR"
        "Non-secure access to coprocessor 11 enable"
    ∷ row 1 12 ms_sysreg_nsacr ns_privilege_level_1 12 1 "CP12" "secext" "NSACR"
        "Non-secure access to coprocessor 12 enable"
    ∷ row 1 13 ms_sysreg_nsacr ns_privilege_level_1 13 1 "CP13" "secext" "NSACR"
        "Non-secure access to coprocessor 13 enable"
    ∷ row 1 14 ms_sysreg_nsacr ns_privilege_level_1 14 1 "NSD32DIS" "secext" "NSACR"
        "Disable non-secure use of registers"
    ∷ row 1 15 ms_sysreg_nsacr ns_privilege_level_1 15 1 "NSASEDIS" "secext" "NSACR"
        "Disable non-secure advanced SIMD"
    ∷ row 1 16 ms_sysreg_nsacr ns_privilege_level_1 16 3 "Implementation Defined" "secext" "NSACR"
        "Implementation defined"
    ∷ row 1 17 ms_sysreg_nsacr ns_privilege_level_1 19 1 "RFR" "secext" "NSACR"
        "Reserve FIQ Resisters"
    ∷ row 1 18 ms_sysreg_nsacr ns_privilege_level_1 20 1 "NSTRCDIS" "secext" "NSACR"
        "Disable non-secure access to CP14 trace registers"
    ∷ row 1 19 ms_sysreg_nsacr ns_privilege_level_1 21 11 "Reserved" "secext" "NSACR" "Reserved"
    ∷ row 1 0 ms_sysreg_sder s_all 0 1 "SUIDEN" "secext" "SDER" "Secure user invasive debug"
    ∷ row 1 1 ms_sysreg_sder s_all 1 1 "SUNIDEN" "secext" "SDER" "Secure user non-invasive debug"
    ∷ row 1 2 ms_sysreg_sder s_all 2 30 "Reserved" "secext" "SDER" "Reserved"
    ∷ row 1 0 ms_sysreg_vbar ns_privilege_level_1 0 5 "Reserved" "secext" "VBAR" "Reserved"
    ∷ row 1 1 ms_sysreg_vbar ns_privilege_level_1 5 27 "Reserved" "secext" "VBAR"
        "Vector base address"
    ∷ []
