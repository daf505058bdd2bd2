-- ===== src/Bitfields/Armv8a/Special.antt =====
-- lib/src/bitfields/bitfield_armv8a.c: rows of `bitfield_armv8a_table`.
use maplesyrup.Base.{List, [], ◌∷◌, bit_or}
use maplesyrup.Structs.{BitfieldInfo, ns_privilege_level_0, ns_privilege_level_1}
use maplesyrup.Bitfields.{row}
use maplesyrup.Registers.{
  ms_sysreg_currentel, ms_sysreg_daif, ms_sysreg_fpcr, ms_sysreg_fpsr, ms_sysreg_nzcv,
  ms_sysreg_spsel,
}

unfoldable pub armv8a_special : List BitfieldInfo
armv8a_special =
    row 1 0 ms_sysreg_currentel ns_privilege_level_1 0 2 "Reserved" "other" "CURRENTEL" "Reserved"
    ∷ row 1 1 ms_sysreg_currentel ns_privilege_level_1 2 2 "EL" "other" "CURRENTEL"
        "Current exception level"
    ∷ row 1 2 ms_sysreg_currentel ns_privilege_level_1 4 28 "Reserved" "other" "CURRENTEL"
        "Reserved"
    ∷ row 1 0 ms_sysreg_daif (bit_or ns_privilege_level_0 ns_privilege_level_1) 0 6 "Reserved"
        "other" "DAIF" "Reserved"
    ∷ row 1 1 ms_sysreg_daif (bit_or ns_privilege_level_0 ns_privilege_level_1) 6 1 "F" "other"
        "DAIF" "FIQ mask bit"
    ∷ row 1 2 ms_sysreg_daif (bit_or ns_privilege_level_0 ns_privilege_level_1) 7 1 "I" "other"
        "DAIF" "IRQ mask bit"
    ∷ row 1 3 ms_sysreg_daif (bit_or ns_privilege_level_0 ns_privilege_level_1) 8 1 "A" "other"
        "DAIF" "System Error mask bit"
    ∷ row 1 4 ms_sysreg_daif (bit_or ns_privilege_level_0 ns_privilege_level_1) 9 1 "D" "other"
        "DAIF" "Process state D mask"
    ∷ row 1 5 ms_sysreg_daif (bit_or ns_privilege_level_0 ns_privilege_level_1) 10 22 "Reserved"
        "other" "DAIF" "Reserved"
    ∷ row 1 0 ms_sysreg_fpcr (bit_or ns_privilege_level_0 ns_privilege_level_1) 0 8 "Reserved"
        "other" "FPCR" "Reserved"
    ∷ row 1 1 ms_sysreg_fpcr (bit_or ns_privilege_level_0 ns_privilege_level_1) 8 1 "IOE" "other"
        "FPCR" "Invalid operation trap enable"
    ∷ row 1 2 ms_sysreg_fpcr (bit_or ns_privilege_level_0 ns_privilege_level_1) 9 1 "DZE" "other"
        "FPCR" "Division by zero exception trap enable"
    ∷ row 1 3 ms_sysreg_fpcr (bit_or ns_privilege_level_0 ns_privilege_level_1) 10 1 "OFE" "other"
        "FPCR" "Overflow exception trap enable"
    ∷ row 1 4 ms_sysreg_fpcr (bit_or ns_privilege_level_0 ns_privilege_level_1) 11 1 "UFE" "other"
        "FPCR" "Underflow exception trap enable"
    ∷ row 1 5 ms_sysreg_fpcr (bit_or ns_privilege_level_0 ns_privilege_level_1) 12 1 "IXE" "other"
        "FPCR" "Inexact exception trap enable"
    ∷ row 1 6 ms_sysreg_fpcr (bit_or ns_privilege_level_0 ns_privilege_level_1) 13 2 "Reserved"
        "other" "FPCR" "Reserved"
    ∷ row 1 7 ms_sysreg_fpcr (bit_or ns_privilege_level_0 ns_privilege_level_1) 15 1 "IDE" "other"
        "FPCR" "Input Denormal exception trap enable"
    ∷ row 1 8 ms_sysreg_fpcr (bit_or ns_privilege_level_0 ns_privilege_level_1) 16 3 "LEN" "other"
        "FPCR" "No aarch64 function"
    ∷ row 1 9 ms_sysreg_fpcr (bit_or ns_privilege_level_0 ns_privilege_level_1) 19 1 "Reserved"
        "other" "FPCR" "Reserved"
    ∷ row 1 10 ms_sysreg_fpcr (bit_or ns_privilege_level_0 ns_privilege_level_1) 20 2 "Stride"
        "other" "FPCR" "No aarch64 function"
    ∷ row 1 11 ms_sysreg_fpcr (bit_or ns_privilege_level_0 ns_privilege_level_1) 22 2 "RMode"
        "other" "FPCR" "Rounding Mode control field"
    ∷ row 1 12 ms_sysreg_fpcr (bit_or ns_privilege_level_0 ns_privilege_level_1) 24 1 "FZ" "other"
        "FPCR" "Flush-to-zero mode control bit"
    ∷ row 1 13 ms_sysreg_fpcr (bit_or ns_privilege_level_0 ns_privilege_level_1) 25 1 "DN" "other"
        "FPCR" "Default NaN mode control bit"
    ∷ row 1 14 ms_sysreg_fpcr (bit_or ns_privilege_level_0 ns_privilege_level_1) 26 1 "AHP" "other"
        "FPCR" "Alternative half-precision control bit"
    ∷ row 1 15 ms_sysreg_fpcr (bit_or ns_privilege_level_0 ns_privilege_level_1) 27 5 "Reserved"
        "other" "FPCR" "Reserved"
    ∷ row 1 0 ms_sysreg_fpsr (bit_or ns_privilege_level_0 ns_privilege_level_1) 0 1 "IOC" "other"
        "FPSR" "Invalid operation cumulative exception bit"
    ∷ row 1 1 ms_sysreg_fpsr (bit_or ns_privilege_level_0 ns_privilege_level_1) 1 1 "DZC" "other"
        "FPSR" "Division by zero cumulative exception bit"
    ∷ row 1 2 ms_sysreg_fpsr (bit_or ns_privilege_level_0 ns_privilege_level_1) 2 1 "OFC" "other"
        "FPSR" "Overflow cumulative exception bit"
    ∷ row 1 3 ms_sysreg_fpsr (bit_or ns_privilege_level_0 ns_privilege_level_1) 3 1 "UFC" "other"
        "FPSR" "Underflow cumulative exception bit"
    ∷ row 1 4 ms_sysreg_fpsr (bit_or ns_privilege_level_0 ns_privilege_level_1) 4 1 "IXV" "other"
        "FPSR" "Inexact cumulative exception bit"
    ∷ row 1 5 ms_sysreg_fpsr (bit_or ns_privilege_level_0 ns_privilege_level_1) 5 2 "Reserved"
        "other" "FPSR" "Reserved"
    ∷ row 1 6 ms_sysreg_fpsr (bit_or ns_privilege_level_0 ns_privilege_level_1) 7 1 "IDC" "other"
        "FPSR" "Input Denormal cumulative exception bit"
    ∷ row 1 7 ms_sysreg_fpsr (bit_or ns_privilege_level_0 ns_privilege_level_1) 8 19 "Reserved"
        "other" "FPSR" "Reserved"
    ∷ row 1 8 ms_sysreg_fpsr (bit_or ns_privilege_level_0 ns_privilege_level_1) 27 1 "QC" "other"
        "FPSR" "Cumulative saturation bit"
    ∷ row 1 9 ms_sysreg_fpsr (bit_or ns_privilege_level_0 ns_privilege_level_1) 28 1 "V" "other"
        "FPSR" "Overflow condition flag for aarch32 fp"
    ∷ row 1 10 ms_sysreg_fpsr (bit_or ns_privilege_level_0 ns_privilege_level_1) 29 1 "C" "other"
        "FPSR" "Carry condition flag for aarch32 fp"
    ∷ row 1 11 ms_sysreg_fpsr (bit_or ns_privilege_level_0 ns_privilege_level_1) 30 1 "Z" "other"
        "FPSR" "Zero condition flag for aarch32 fp"
    ∷ row 1 12 ms_sysreg_fpsr (bit_or ns_privilege_level_0 ns_privilege_level_1) 31 1 "N" "other"
        "FPSR" "Negative condition flag for aarch32 fp"
    ∷ row 1 0 ms_sysreg_nzcv (bit_or ns_privilege_level_0 ns_privilege_level_1) 0 28 "Reserved"
        "other" "NZCV" "Reserved"
    ∷ row 1 1 ms_sysreg_nzcv (bit_or ns_privilege_level_0 ns_privilege_level_1) 28 1 "V" "other"
        "NZCV" "Overflow condition flag"
    ∷ row 1 2 ms_sysreg_nzcv (bit_or ns_privilege_level_0 ns_privilege_level_1) 29 1 "C" "other"
        "NZCV" "Carry condition flag"
    ∷ row 1 3 ms_sysreg_nzcv (bit_or ns_privilege_level_0 ns_privilege_level_1) 30 1 "Z" "other"
        "NZCV" "Zero condition flag"
    ∷ row 1 4 ms_sysreg_nzcv (bit_or ns_privilege_level_0 ns_privilege_level_1) 31 1 "N" "other"
        "NZCV" "Negative condition flag"
    ∷ row 1 0 ms_sysreg_spsel ns_privilege_level_1 0 1 "SP" "other" "SPSEL" "Stack pointer to use"
    ∷ row 1 1 ms_sysreg_spsel ns_privilege_level_1 1 31 "Reserved" "other" "SPSEL" "Reserved"
    ∷ []
