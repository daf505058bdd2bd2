-- ===== src/Bitfields/Armv7a/Float.antt =====
-- lib/src/bitfields/bitfield_armv7a.c: rows of `bitfield_armv7a_table`.
use maplesyrup.Base.{List, [], ◌∷◌}
use maplesyrup.Structs.{BitfieldInfo, ns_privilege_level_1}
use maplesyrup.Bitfields.{row}
use maplesyrup.Registers.{
  ms_sysreg_fpexc, ms_sysreg_fpscr, ms_sysreg_fpsid, ms_sysreg_mvfr0, ms_sysreg_mvfr1,
}

unfoldable pub armv7a_float : List BitfieldInfo
armv7a_float =
    row 1 0 ms_sysreg_fpsid ns_privilege_level_1 0 4 "Revision" "fp" "FPSID" "Revision number"
    ∷ row 1 1 ms_sysreg_fpsid ns_privilege_level_1 4 4 "Variant" "fp" "FPSID" "Variant number"
    ∷ row 1 2 ms_sysreg_fpsid ns_privilege_level_1 8 8 "Part Number" "fp" "FPSID" "Part number"
    ∷ row 1 3 ms_sysreg_fpsid ns_privilege_level_1 16 6 "Subarchitecture" "fp" "FPSID"
        "Subarchitecture version number"
    ∷ row 1 4 ms_sysreg_fpsid ns_privilege_level_1 23 1 "SW" "fp" "FPSID" "Software emulation"
    ∷ row 1 5 ms_sysreg_fpsid ns_privilege_level_1 24 8 "Implementer" "fp" "FPSID" "Implementer"
    ∷ row 1 0 ms_sysreg_fpscr ns_privilege_level_1 0 1 "IOC" "fp" "FPSCR"
        "Invalid Operation cumulative exception"
    ∷ row 1 1 ms_sysreg_fpscr ns_privilege_level_1 1 1 "DZC" "fp" "FPSCR"
        "Division by Zero cumulative exception"
    ∷ row 1 2 ms_sysreg_fpscr ns_privilege_level_1 2 1 "OFC" "fp" "FPSCR"
        "Overflow cumulative exception"
    ∷ row 1 3 ms_sysreg_fpscr ns_privilege_level_1 3 1 "UFC" "fp" "FPSCR"
        "Underflow cumulative exception"
    ∷ row 1 4 ms_sysreg_fpscr ns_privilege_level_1 4 1 "IXC" "fp" "FPSCR"
        "Inexact cumulative exception"
    ∷ row 1 5 ms_sysreg_fpscr ns_privilege_level_1 5 2 "Reserved" "fp" "FPSCR" "Reserved"
    ∷ row 1 6 ms_sysreg_fpscr ns_privilege_level_1 7 1 "IDC" "fp" "FPSCR"
        "Input Denormal cumulative exception"
    ∷ row 1 7 ms_sysreg_fpscr ns_privilege_level_1 8 1 "IOE" "fp" "FPSCR"
        "Invalid Operation exception trap enable"
    ∷ row 1 8 ms_sysreg_fpscr ns_privilege_level_1 9 1 "DZE" "fp" "FPSCR"
        "Division by Zero exception trap enable"
    ∷ row 1 9 ms_sysreg_fpscr ns_privilege_level_1 10 1 "OFE" "fp" "FPSCR"
        "Overflow exception trap enable"
    ∷ row 1 10 ms_sysreg_fpscr ns_privilege_level_1 11 1 "UFE" "fp" "FPSCR"
        "Underflow exception trap enable"
    ∷ row 1 11 ms_sysreg_fpscr ns_privilege_level_1 12 1 "IXE" "fp" "FPSCR"
        "Inexact exception trap enable"
    ∷ row 1 12 ms_sysreg_fpscr ns_privilege_level_1 13 2 "Reserved" "fp" "FPSCR" "Reserved"
    ∷ row 1 13 ms_sysreg_fpscr ns_privilege_level_1 15 1 "IDE" "fp" "FPSCR"
        "Input Denormal exception trap enable"
    ∷ row 1 14 ms_sysreg_fpscr ns_privilege_level_1 16 3 "LEN" "fp" "FPSCR" "ARM deprecated field"
    ∷ row 1 15 ms_sysreg_fpscr ns_privilege_level_1 19 1 "Reserved" "fp" "FPSCR" "Reserved"
    ∷ row 1 16 ms_sysreg_fpscr ns_privilege_level_1 20 2 "Stride" "fp" "FPSCR"
        "ARM deprecated field"
    ∷ row 1 17 ms_sysreg_fpscr ns_privilege_level_1 22 2 "RMode" "fp" "FPSCR"
        "Rounding Mode control"
    ∷ row 1 18 ms_sysreg_fpscr ns_privilege_level_1 24 1 "FZ" "fp" "FPSCR" "Flush-to-zero"
    ∷ row 1 19 ms_sysreg_fpscr ns_privilege_level_1 25 1 "DN" "fp" "FPSCR" "Default NaN"
    ∷ row 1 20 ms_sysreg_fpscr ns_privilege_level_1 26 1 "AHP" "fp" "FPSCR"
        "Alternative half-precision"
    ∷ row 1 21 ms_sysreg_fpscr ns_privilege_level_1 27 1 "QC" "fp" "FPSCR"
        "Cumulative saturation bit"
    ∷ row 1 22 ms_sysreg_fpscr ns_privilege_level_1 28 1 "V" "fp" "FPSCR" "Overflow condition flag"
    ∷ row 1 23 ms_sysreg_fpscr ns_privilege_level_1 29 1 "C" "fp" "FPSCR" "Carry condition flag"
    ∷ row 1 24 ms_sysreg_fpscr ns_privilege_level_1 30 1 "Z" "fp" "FPSCR" "Zero condition flag"
    ∷ row 1 25 ms_sysreg_fpscr ns_privilege_level_1 31 1 "N" "fp" "FPSCR" "Negative condition flag"
    ∷ row 1 0 ms_sysreg_fpexc ns_privilege_level_1 0 29 "Implementation Defined" "fp" "FPEXC"
        "Subarchitecture defined"
    ∷ row 1 1 ms_sysreg_fpexc ns_privilege_level_1 30 1 "EN" "fp" "FPEXC"
        "Global enable for Advanced SIMD and Floating-point Extensions"
    ∷ row 1 2 ms_sysreg_fpexc ns_privilege_level_1 31 1 "EX" "fp" "FPEXC"
        "Extent of saved records for Advanced SIMD and Floating-point systems"
    ∷ row 1 0 ms_sysreg_mvfr0 ns_privilege_level_1 0 4 "A_SIMD registers" "fp" "MVFR0"
        "Support for Advanced SIMD register bank"
    ∷ row 1 1 ms_sysreg_mvfr0 ns_privilege_level_1 4 4 "Single-precision" "fp" "MVFR0"
        "Support for Floating-point Extension single-precision operations"
    ∷ row 1 2 ms_sysreg_mvfr0 ns_privilege_level_1 8 4 "Double-precision" "fp" "MVFR0"
        "Support for Floating-point Extension double-precision operations"
    ∷ row 1 3 ms_sysreg_mvfr0 ns_privilege_level_1 12 4 "VFP exception exception trapping" "fp"
        "MVFR0" "VFP support for exception handling"
    ∷ row 1 4 ms_sysreg_mvfr0 ns_privilege_level_1 16 4 "Divide" "fp" "MVFR0" "VFP divide support"
    ∷ row 1 5 ms_sysreg_mvfr0 ns_privilege_level_1 20 4 "Square root" "fp" "MVFR0"
        "VFP square root support"
    ∷ row 1 6 ms_sysreg_mvfr0 ns_privilege_level_1 24 4 "Short vectors" "fp" "MVFR0"
        "VFP short vector support"
    ∷ row 1 7 ms_sysreg_mvfr0 ns_privilege_level_1 28 4 "VFP rounding modes" "fp" "MVFR0"
        "VFP rounding modes support"
    ∷ row 1 0 ms_sysreg_mvfr1 ns_privilege_level_1 0 4 "FtZ mode" "fp" "MVFR1" "Flush-to-zero only"
    ∷ row 1 1 ms_sysreg_mvfr1 ns_privilege_level_1 4 4 "D_NaN" "fp" "MVFR1" "Default NaN only"
    ∷ row 1 2 ms_sysreg_mvfr1 ns_privilege_level_1 8 4 "A_SIMD load/store" "fp" "MVFR1"
        "A_SIMD Load/store implementation"
    ∷ row 1 3 ms_sysreg_mvfr1 ns_privilege_level_1 12 4 "A_SIMD integer" "fp" "MVFR1"
        "A_SIMD integer instructions"
    ∷ row 1 4 ms_sysreg_mvfr1 ns_privilege_level_1 16 4 "A_SIMD SPFP" "fp" "MVFR1"
        "A_SIMD single-precision floating point conversion"
    ∷ row 1 5 ms_sysreg_mvfr1 ns_privilege_level_1 20 4 "A_SIMD HPFP" "fp" "MVFR1"
        "A_SIMD half-precision floating point conversion"
    ∷ row 1 6 ms_sysreg_mvfr1 ns_privilege_level_1 24 4 "VFP HPFP" "fp" "MVFR1"
        "Floating point implements half-precision floating-point conversion"
    ∷ row 1 7 ms_sysreg_mvfr1 ns_privilege_level_1 28 4 "A_SIMD FMAC" "fp" "MVFR1"
        "FP or A_SIMD implements fused multiply accumulate"
    ∷ []
