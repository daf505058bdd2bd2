-- ===== src/Bitfields/Armv8a/Ident1.antt =====
-- lib/src/bitfields/bitfield_armv8a.c: rows of `bitfield_armv8a_table`.
use maplesyrup.Base.{List, [], ◌∷◌}
use maplesyrup.Structs.{BitfieldInfo, ns_privilege_level_1}
use maplesyrup.Bitfields.{row}
use maplesyrup.Registers.{
  ms_sysreg_aa64afr0, ms_sysreg_aa64afr1, ms_sysreg_aa64dfr0, ms_sysreg_aa64dfr1,
  ms_sysreg_aa64pfr0, ms_sysreg_aa64pfr1, ms_sysreg_afr0, ms_sysreg_dfr0, ms_sysreg_mmfr0,
  ms_sysreg_mmfr1, ms_sysreg_pfr0, ms_sysreg_pfr1,
}

unfoldable pub armv8a_ident_1 : List BitfieldInfo
armv8a_ident_1 =
    row 1 0 ms_sysreg_pfr0 ns_privilege_level_1 0 4 "State0" "ident" "PFR0"
      "ARM instruction set support"
    ∷ row 1 1 ms_sysreg_pfr0 ns_privilege_level_1 4 4 "State1" "ident" "PFR0"
        "Thumb instruction set support"
    ∷ row 1 2 ms_sysreg_pfr0 ns_privilege_level_1 8 4 "State2" "ident" "PFR0"
        "Jazelle extension support"
    ∷ row 1 3 ms_sysreg_pfr0 ns_privilege_level_1 12 4 "State3" "ident" "PFR0"
        "ThumbEE instruction set support"
    ∷ row 1 4 ms_sysreg_pfr0 ns_privilege_level_1 16 16 "Reserved" "ident" "PFR0" "Reserved"
    ∷ row 1 0 ms_sysreg_pfr1 ns_privilege_level_1 0 4 "Programmers' model" "ident" "PFR1"
        "Programmers' model"
    ∷ row 1 1 ms_sysreg_pfr1 ns_privilege_level_1 4 4 "Security" "ident" "PFR1" "Security support"
    ∷ row 1 2 ms_sysreg_pfr1 ns_privilege_level_1 8 4 "M profile programmers' model" "ident" "PFR1"
        "M profile programmers' model"
    ∷ row 1 3 ms_sysreg_pfr1 ns_privilege_level_1 12 4 "Virtualization Extensions" "ident" "PFR1"
        "Virtualization Extensions"
    ∷ row 1 4 ms_sysreg_pfr1 ns_privilege_level_1 16 4 "Generic Timer Extension" "ident" "PFR1"
        "Generic Timer Extension"
    ∷ row 1 5 ms_sysreg_pfr1 ns_privilege_level_1 20 4 "Sec_frac" "ident" "PFR1"
        "Security fractional field"
    ∷ row 1 6 ms_sysreg_pfr1 ns_privilege_level_1 24 4 "Virt_frac" "ident" "PFR1"
        "Virtualization fractional field"
    ∷ row 1 7 ms_sysreg_pfr1 ns_privilege_level_1 28 4 "GIC" "ident" "PFR1"
        "System Register GIC CPU interface"
    ∷ row 1 0 ms_sysreg_aa64pfr0 ns_privilege_level_1 0 4 "EL0" "ident" "AA64PFR0"
        "EL0 exception handling"
    ∷ row 1 1 ms_sysreg_aa64pfr0 ns_privilege_level_1 4 4 "EL1" "ident" "AA64PFR0"
        "EL1 exception handling"
    ∷ row 1 2 ms_sysreg_aa64pfr0 ns_privilege_level_1 8 4 "EL2" "ident" "AA64PFR0"
        "EL2 exception handling"
    ∷ row 1 3 ms_sysreg_aa64pfr0 ns_privilege_level_1 12 4 "EL3" "ident" "AA64PFR0"
        "EL3 exception handling"
    ∷ row 1 4 ms_sysreg_aa64pfr0 ns_privilege_level_1 16 4 "FP" "ident" "AA64PFR0"
        "Floating-point implemented"
    ∷ row 1 5 ms_sysreg_aa64pfr0 ns_privilege_level_1 20 4 "AdvSIMD" "ident" "AA64PFR0"
        "Advanced SIMD implemented"
    ∷ row 1 6 ms_sysreg_aa64pfr0 ns_privilege_level_1 24 4 "GIC" "ident" "AA64PFR0"
        "System Register GIC interface"
    ∷ row 1 7 ms_sysreg_aa64pfr0 ns_privilege_level_1 28 36 "Reserved" "ident" "AA64PFR0" "Reserved"
    ∷ row 1 0 ms_sysreg_aa64pfr1 ns_privilege_level_1 0 64 "Reserved" "ident" "AA64PFR1" "Reserved"
    ∷ row 1 0 ms_sysreg_dfr0 ns_privilege_level_1 0 4 "Coprocessor debug model" "ident" "DFR0"
        "Coprocessor debug model"
    ∷ row 1 1 ms_sysreg_dfr0 ns_privilege_level_1 4 4 "Coprocessor secure debug model" "ident"
        "DFR0" "Coprocessor secure debug model"
    ∷ row 1 2 ms_sysreg_dfr0 ns_privilege_level_1 8 4 "Memory-mapped debug model" "ident" "DFR0"
        " Memory-mapped debug model"
    ∷ row 1 3 ms_sysreg_dfr0 ns_privilege_level_1 12 4 "Coprocessor trace model" "ident" "DFR0"
        " Coprocessor trace model"
    ∷ row 1 4 ms_sysreg_dfr0 ns_privilege_level_1 16 4 "Memory-mapped trace model" "ident" "DFR0"
        "Memory-mapped trace model"
    ∷ row 1 5 ms_sysreg_dfr0 ns_privilege_level_1 20 4 "Debug model, M profile" "ident" "DFR0"
        "Debug model, M profile"
    ∷ row 1 6 ms_sysreg_dfr0 ns_privilege_level_1 24 4 "Performance Monitors Extension" "ident"
        "DFR0" "Performance Monitors Extension"
    ∷ row 1 7 ms_sysreg_dfr0 ns_privilege_level_1 28 4 "Reserved" "ident" "DFR0" "Reserved"
    ∷ row 1 0 ms_sysreg_afr0 ns_privilege_level_1 0 4 "Implementation Defined" "ident" "AFR0"
        "Implementation Defined"
    ∷ row 1 1 ms_sysreg_afr0 ns_privilege_level_1 4 4 "Implementation Defined" "ident" "AFR0"
        "Implementation Defined"
    ∷ row 1 2 ms_sysreg_afr0 ns_privilege_level_1 8 4 "Implementation Defined" "ident" "AFR0"
        "Implementation Defined"
    ∷ row 1 3 ms_sysreg_afr0 ns_privilege_level_1 12 4 "Implementation Defined" "ident" "AFR0"
        "Implementation Defined"
    ∷ row 1 4 ms_sysreg_afr0 ns_privilege_level_1 16 16 "Reserved" "ident" "AFR0" "Reserved"
    ∷ row 1 0 ms_sysreg_aa64afr0 ns_privilege_level_1 0 4 "Implementation Defined" "ident"
        "AA64AFR0" "Implementation Defined"
    ∷ row 1 1 ms_sysreg_aa64afr0 ns_privilege_level_1 4 4 "Implementation Defined" "ident"
        "AA64AFR0" "Implementation Defined"
    ∷ row 1 2 ms_sysreg_aa64afr0 ns_privilege_level_1 8 4 "Implementation Defined" "ident"
        "AA64AFR0" "Implementation Defined"
    ∷ row 1 3 ms_sysreg_aa64afr0 ns_privilege_level_1 12 4 "Implementation Defined" "ident"
        "AA64AFR0" "Implementation Defined"
    ∷ row 1 4 ms_sysreg_aa64afr0 ns_privilege_level_1 16 4 "Implementation Defined" "ident"
        "AA64AFR0" "Implementation Defined"
    ∷ row 1 5 ms_sysreg_aa64afr0 ns_privilege_level_1 20 4 "Implementation Defined" "ident"
        "AA64AFR0" "Implementation Defined"
    ∷ row 1 6 ms_sysreg_aa64afr0 ns_privilege_level_1 24 4 "Implementation Defined" "ident"
        "AA64AFR0" "Implementation Defined"
    ∷ row 1 7 ms_sysreg_aa64afr0 ns_privilege_level_1 28 4 "Implementation Defined" "ident"
        "AA64AFR0" "Implementation Defined"
    ∷ row 1 8 ms_sysreg_aa64afr0 ns_privilege_level_1 32 32 "Reserved" "ident" "AA64AFR0" "Reserved"
    ∷ row 1 0 ms_sysreg_aa64afr1 ns_privilege_level_1 0 64 "Implementation Defined" "ident"
        "AA64AFR1" "Implementation Defined"
    ∷ row 1 0 ms_sysreg_aa64dfr0 ns_privilege_level_1 0 4 "DebugVer" "ident" "AA64DFR0"
        "Debug architecture version"
    ∷ row 1 1 ms_sysreg_aa64dfr0 ns_privilege_level_1 4 4 "TraceVer" "ident" "AA64DFR0"
        "Trace support"
    ∷ row 1 2 ms_sysreg_aa64dfr0 ns_privilege_level_1 8 4 "PMUVer" "ident" "AA64DFR0"
        "Performance Monitors extension version"
    ∷ row 1 3 ms_sysreg_aa64dfr0 ns_privilege_level_1 12 4 "BRPs" "ident" "AA64DFR0"
        "Number of breakpoints"
    ∷ row 1 4 ms_sysreg_aa64dfr0 ns_privilege_level_1 16 4 "Reserved" "ident" "AA64DFR0" "Reserved"
    ∷ row 1 5 ms_sysreg_aa64dfr0 ns_privilege_level_1 20 4 "WRPs" "ident" "AA64DFR0"
        "Number of watchpoints"
    ∷ row 1 6 ms_sysreg_aa64dfr0 ns_privilege_level_1 24 4 "Reserved" "ident" "AA64DFR0" "Reserved"
    ∷ row 1 7 ms_sysreg_aa64dfr0 ns_privilege_level_1 28 4 "CTX_CMPs" "ident" "AA64DFR0"
        "Number of breakpoints that are context aware"
    ∷ row 1 8 ms_sysreg_aa64dfr0 ns_privilege_level_1 32 32 "Reserved" "ident" "AA64DFR0" "Reserved"
    ∷ row 1 0 ms_sysreg_aa64dfr1 ns_privilege_level_1 0 64 "Reserved" "ident" "AA64DFR1" "Reserved"
    ∷ row 1 0 ms_sysreg_mmfr0 ns_privilege_level_1 0 4 "VMSA support" "ident" "MMFR0" "VMSA Support"
    ∷ row 1 1 ms_sysreg_mmfr0 ns_privilege_level_1 4 4 "PMSA support" "ident" "MMFR0" "PMSA Support"
    ∷ row 1 2 ms_sysreg_mmfr0 ns_privilege_level_1 8 4 "Outermost shareability" "ident" "MMFR0"
        "Outermost shareability"
    ∷ row 1 3 ms_sysreg_mmfr0 ns_privilege_level_1 12 4 "Shareability levels" "ident" "MMFR0"
        "Shareability levels"
    ∷ row 1 4 ms_sysreg_mmfr0 ns_privilege_level_1 16 4 "TCM support" "ident" "MMFR0"
        "TCM/DMA Support"
    ∷ row 1 5 ms_sysreg_mmfr0 ns_privilege_level_1 20 4 "Auxiliary registers" "ident" "MMFR0"
        "Auxiliary registers"
    ∷ row 1 6 ms_sysreg_mmfr0 ns_privilege_level_1 24 4 "FCSE support" "ident" "MMFR0"
        "FCSE support"
    ∷ row 1 7 ms_sysreg_mmfr0 ns_privilege_level_1 28 4 "Innermost shareability" "ident" "MMFR0"
        "Innermost shareability"
    ∷ row 1 0 ms_sysreg_mmfr1 ns_privilege_level_1 0 4 "L1 Harvard cache VA" "ident" "MMFR1"
        "L1 Harvard cache VA"
    ∷ row 1 1 ms_sysreg_mmfr1 ns_privilege_level_1 4 4 "L1 unified cache VA" "ident" "MMFR1"
        "L1 unified cache VA"
    ∷ row 1 2 ms_sysreg_mmfr1 ns_privilege_level_1 8 4 "L1 Harvard cache set/way" "ident" "MMFR1"
        "Harvard cache set/way"
    ∷ row 1 3 ms_sysreg_mmfr1 ns_privilege_level_1 12 4 "L1 unified cache set/way" "ident" "MMFR1"
        "L1 unified cache set/way"
    ∷ row 1 4 ms_sysreg_mmfr1 ns_privilege_level_1 16 4 "L1 Harvard cache" "ident" "MMFR1"
        "L1 Harvard cache"
    ∷ row 1 5 ms_sysreg_mmfr1 ns_privilege_level_1 20 4 "L1 unified cache VA" "ident" "MMFR1"
        "L1 unified cache"
    ∷ row 1 6 ms_sysreg_mmfr1 ns_privilege_level_1 24 4 "L1 cache test and clean" "ident" "MMFR1"
        "L1 cache test and clean"
    ∷ row 1 7 ms_sysreg_mmfr1 ns_privilege_level_1 28 4 "Branch predictor" "ident" "MMFR1"
        "Branch predictor"
    ∷ []
