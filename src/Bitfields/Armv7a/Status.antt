-- ===== src/Bitfields/Armv7a/Status.antt =====
-- lib/src/bitfields/bitfield_armv7a.c: rows of `bitfield_armv7a_table`.
use maplesyrup.Base.{List, [], ◌∷◌, bit_or}
use maplesyrup.Structs.{BitfieldInfo, ns_privilege_level_0, ns_privilege_level_1}
use maplesyrup.Bitfields.{row}
use maplesyrup.Registers.{ms_sysreg_apsr, ms_sysreg_cpsr}

unfoldable pub armv7a_status : List BitfieldInfo
armv7a_status =
    row 1 0 ms_sysreg_apsr (bit_or ns_privilege_level_0 ns_privilege_level_1) 0 16 "Reserved" "psr"
      "APSR" "Reserved"
    ∷ row 1 1 ms_sysreg_apsr (bit_or ns_privilege_level_0 ns_privilege_level_1) 16 4 "GE" "psr"
        "APSR" "Greater than or equal to"
    ∷ row 1 2 ms_sysreg_apsr (bit_or ns_privilege_level_0 ns_privilege_level_1) 20 4 "Reserved"
        "psr" "APSR" "Reserved"
    ∷ row 1 3 ms_sysreg_apsr (bit_or ns_privilege_level_0 ns_privilege_level_1) 24 3 "Reserved"
        "psr" "APSR" "Reserved"
    ∷ row 1 4 ms_sysreg_apsr (bit_or ns_privilege_level_0 ns_privilege_level_1) 27 1 "Q" "psr"
        "APSR" "Overflow or saturation"
    ∷ row 1 5 ms_sysreg_apsr (bit_or ns_privilege_level_0 ns_privilege_level_1) 28 1 "V" "psr"
        "APSR" "Overflow condition"
    ∷ row 1 6 ms_sysreg_apsr (bit_or ns_privilege_level_0 ns_privilege_level_1) 29 1 "C" "psr"
        "APSR" "Carry condition"
    ∷ row 1 7 ms_sysreg_apsr (bit_or ns_privilege_level_0 ns_privilege_level_1) 30 1 "Z" "psr"
        "APSR" "Zero condition"
    ∷ row 1 8 ms_sysreg_apsr (bit_or ns_privilege_level_0 ns_privilege_level_1) 31 1 "N" "psr"
        "APSR" "Negative condition"
    ∷ row 1 0 ms_sysreg_cpsr ns_privilege_level_1 0 5 "M" "psr" "CPSR" "Current mode of processor"
    ∷ row 1 1 ms_sysreg_cpsr ns_privilege_level_1 5 1 "T" "psr" "CPSR" "Thumb execution state"
    ∷ row 1 2 ms_sysreg_cpsr ns_privilege_level_1 6 1 "F" "psr" "CPSR" "FIQ mask"
    ∷ row 1 3 ms_sysreg_cpsr ns_privilege_level_1 7 1 "I" "psr" "CPSR" "IRQ mask"
    ∷ row 1 4 ms_sysreg_cpsr ns_privilege_level_1 8 1 "A" "psr" "CPSR" "Asynchronous abort mask"
    ∷ row 1 5 ms_sysreg_cpsr ns_privilege_level_1 9 1 "E" "psr" "CPSR" "Endianess"
    ∷ row 1 6 ms_sysreg_cpsr ns_privilege_level_1 10 6 "IT" "psr" "CPSR"
        "If-then execution state [7:2]"
    ∷ row 1 7 ms_sysreg_cpsr ns_privilege_level_0 16 4 "GE" "psr" "CPSR" "Greater than or equal to"
    ∷ row 1 8 ms_sysreg_cpsr ns_privilege_level_0 20 4 "Reserved" "psr" "CPSR" "Reserved"
    ∷ row 1 9 ms_sysreg_cpsr ns_privilege_level_0 24 1 "J" "psr" "CPSR" "Jazelle bit"
    ∷ row 1 10 ms_sysreg_cpsr ns_privilege_level_1 25 2 "IT" "psr" "CPSR"
        "If-then execution state [1:0]"
    ∷ row 1 11 ms_sysreg_cpsr ns_privilege_level_0 27 1 "Q" "psr" "CPSR" "Cumulative saturation bit"
    ∷ row 1 12 ms_sysreg_cpsr ns_privilege_level_0 28 1 "V" "psr" "CPSR" "Overflow condition"
    ∷ row 1 13 ms_sysreg_cpsr ns_privilege_level_0 29 1 "C" "psr" "CPSR" "Carry condition"
    ∷ row 1 14 ms_sysreg_cpsr ns_privilege_level_0 30 1 "Z" "psr" "CPSR" "Zero condition"
    ∷ row 1 15 ms_sysreg_cpsr ns_privilege_level_0 31 1 "N" "psr" "CPSR" "Negative condition"
    ∷ []
