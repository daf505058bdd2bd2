-- ===== src/Bitfields/Armv7a/Other.antt =====
-- lib/src/bitfields/bitfield_armv7a.c: rows of `bitfield_armv7a_table`.
use maplesyrup.Base.{List, [], ◌∷◌}
use maplesyrup.Structs.{BitfieldInfo, ns_privilege_level_0, ns_privilege_level_1}
use maplesyrup.Bitfields.{row, ns_all, all_ns_s}
use maplesyrup.Registers.{
  ms_sysreg_actlr, ms_sysreg_adfsr, ms_sysreg_aifsr, ms_sysreg_cpacr, ms_sysreg_dfar,
  ms_sysreg_dfsr, ms_sysreg_fcseidr, ms_sysreg_ifar, ms_sysreg_ifsr, ms_sysreg_jidr, ms_sysreg_jmcr,
  ms_sysreg_joscr, ms_sysreg_par, ms_sysreg_teecr, ms_sysreg_teehbr, ms_sysreg_tpidrprw,
  ms_sysreg_tpidruro, ms_sysreg_tpidrurw,
}

unfoldable pub armv7a_other : List BitfieldInfo
armv7a_other =
    row 1 0 ms_sysreg_actlr ns_privilege_level_1 0 32 "Implementation Defined" "other" "ACTLR"
      "Implementation Defined"
    ∷ row 1 0 ms_sysreg_cpacr ns_privilege_level_1 0 2 "CP0" "other" "CPACR" "Coprocessor 0"
    ∷ row 1 1 ms_sysreg_cpacr ns_privilege_level_1 2 2 "CP1" "other" "CPACR" "Coprocessor 1"
    ∷ row 1 2 ms_sysreg_cpacr ns_privilege_level_1 4 2 "CP2" "other" "CPACR" "Coprocessor 2"
    ∷ row 1 3 ms_sysreg_cpacr ns_privilege_level_1 6 2 "CP3" "other" "CPACR" "Coprocessor 3"
    ∷ row 1 4 ms_sysreg_cpacr ns_privilege_level_1 8 2 "CP4" "other" "CPACR" "Coprocessor 4"
    ∷ row 1 5 ms_sysreg_cpacr ns_privilege_level_1 10 2 "CP5" "other" "CPACR" "Coprocessor 5"
    ∷ row 1 6 ms_sysreg_cpacr ns_privilege_level_1 12 2 "CP6" "other" "CPACR" "Coprocessor 6"
    ∷ row 1 7 ms_sysreg_cpacr ns_privilege_level_1 14 2 "CP7" "other" "CPACR" "Coprocessor 7"
    ∷ row 1 8 ms_sysreg_cpacr ns_privilege_level_1 16 2 "CP8" "other" "CPACR" "Coprocessor 8"
    ∷ row 1 9 ms_sysreg_cpacr ns_privilege_level_1 18 2 "CP9" "other" "CPACR" "Coprocessor 9"
    ∷ row 1 10 ms_sysreg_cpacr ns_privilege_level_1 20 2 "CP10" "other" "CPACR" "Coprocessor 10"
    ∷ row 1 11 ms_sysreg_cpacr ns_privilege_level_1 22 2 "CP11" "other" "CPACR" "Coprocessor 11"
    ∷ row 1 12 ms_sysreg_cpacr ns_privilege_level_1 24 2 "CP12" "other" "CPACR" "Coprocessor 12"
    ∷ row 1 13 ms_sysreg_cpacr ns_privilege_level_1 26 2 "CP13" "other" "CPACR" "Coprocessor 13"
    ∷ row 1 14 ms_sysreg_cpacr ns_privilege_level_1 28 1 "TRCDIS" "other" "CPACR"
        "Disable CP14 access to trace registers"
    ∷ row 1 15 ms_sysreg_cpacr ns_privilege_level_1 29 1 "Reserved" "other" "CPACR" "Reserved"
    ∷ row 1 16 ms_sysreg_cpacr ns_privilege_level_1 30 1 "D32DIS" "other" "CPACR"
        "Disable use of D16-D32 of FP Extension register file"
    ∷ row 1 17 ms_sysreg_cpacr ns_privilege_level_1 31 1 "ASEDIS" "other" "CPACR"
        "Disable Advanced SIMD functionality"
    ∷ row 1 0 ms_sysreg_fcseidr ns_privilege_level_1 0 25 "Reserved" "other" "FCSEIDR" "Reserved"
    ∷ row 1 1 ms_sysreg_fcseidr ns_privilege_level_1 25 8 "PID" "other" "FCSEIDR"
        "Current Process ID for FCSE"
    ∷ row 1 0 ms_sysreg_ifar ns_privilege_level_1 0 32 "VA" "fault" "IFAR"
        "VA of faulting address of synchronous Prefetch Abort exception"
    ∷ row 1 0 ms_sysreg_ifsr ns_privilege_level_1 0 4 "FS_3_0" "fault" "IFSR" "Fault status bit"
    ∷ row 1 1 ms_sysreg_ifsr ns_privilege_level_1 4 5 "Reserved" "fault" "IFSR" "Reserved"
    ∷ row 1 2 ms_sysreg_ifsr ns_privilege_level_1 9 1 "LPAE" "fault" "IFSR"
        "Descriptor table format on exception"
    ∷ row 1 3 ms_sysreg_ifsr ns_privilege_level_1 10 1 "FS_4" "fault" "IFSR" "Fault status bit"
    ∷ row 1 4 ms_sysreg_ifsr ns_privilege_level_1 11 1 "Reserved" "fault" "IFSR" "Reserved"
    ∷ row 1 5 ms_sysreg_ifsr ns_privilege_level_1 12 1 "ExT" "fault" "IFSR" "External abort type"
    ∷ row 1 6 ms_sysreg_ifsr ns_privilege_level_1 13 19 "Reserved" "fault" "IFSR" "Reserved"
    ∷ row 1 0 ms_sysreg_adfsr ns_privilege_level_1 0 32 "Implementation Defined" "fault" "ADFSR"
        "Implementation Defined"
    ∷ row 1 0 ms_sysreg_aifsr ns_privilege_level_1 0 32 "Implementation Defined" "fault" "AIFSR"
        "Implementation Defined"
    ∷ row 1 0 ms_sysreg_dfar ns_privilege_level_1 0 32 "VA" "fault" "DFAR"
        "VA of faulting address of synchronous Data Abort exception"
    ∷ row 1 0 ms_sysreg_dfsr ns_privilege_level_1 0 4 "FS_3_0" "fault" "DFSR" "Fault status bit"
    ∷ row 1 1 ms_sysreg_dfsr ns_privilege_level_1 4 4 "Domain" "fault" "DFSR"
        "The domain of the fault address"
    ∷ row 1 2 ms_sysreg_dfsr ns_privilege_level_1 8 1 "Reserved" "fault" "DFSR" "Reserved"
    ∷ row 1 3 ms_sysreg_dfsr ns_privilege_level_1 9 1 "LPAE" "fault" "DFSR"
        "Indicates short-descriptor table format on exception"
    ∷ row 1 4 ms_sysreg_dfsr ns_privilege_level_1 10 1 "FS_4" "fault" "DFSR" "Fault status bit"
    ∷ row 1 5 ms_sysreg_dfsr ns_privilege_level_1 11 1 "WnR" "fault" "DFSR"
        "Abort caused by read or write"
    ∷ row 1 6 ms_sysreg_dfsr ns_privilege_level_1 12 1 "ExT" "fault" "DFSR" "External abort type"
    ∷ row 1 7 ms_sysreg_dfsr ns_privilege_level_1 13 1 "CM" "fault" "DFSR" "Cache maintenance fault"
    ∷ row 1 8 ms_sysreg_dfsr ns_privilege_level_1 14 18 "Reserved" "fault" "DFSR" "Reserved"
    ∷ row 1 0 ms_sysreg_jidr ns_privilege_level_1 0 12 "ImplementationdDefined" "jazelle" "JIDR"
        "Subarchitecture defined"
    ∷ row 1 1 ms_sysreg_jidr ns_privilege_level_1 12 8 "Subarchitecture" "jazelle" "JIDR"
        "Subarchitecture code"
    ∷ row 1 2 ms_sysreg_jidr ns_privilege_level_1 20 8 "Implementer" "jazelle" "JIDR"
        "Implementer code"
    ∷ row 1 3 ms_sysreg_jidr ns_privilege_level_1 28 4 "Architecture" "jazelle" "JIDR"
        "Architecture code"
    ∷ row 1 0 ms_sysreg_jmcr ns_privilege_level_1 0 1 "JE" "jazelle" "JMCR"
        "Jazelle extensions enable"
    ∷ row 1 1 ms_sysreg_jmcr ns_privilege_level_1 1 31 "Implementation defined" "jazelle" "JMCR"
        "Implementation defined"
    ∷ row 1 0 ms_sysreg_joscr ns_privilege_level_1 0 1 "CD" "jazelle" "JOSCR"
        "Disable user mode access to JIDR and configuration registers"
    ∷ row 1 1 ms_sysreg_joscr ns_privilege_level_1 1 1 "CV" "jazelle" "JOSCR"
        "Instruct EJVM to rewrite configuration in registers"
    ∷ row 1 2 ms_sysreg_joscr ns_privilege_level_1 2 30 "Reserved" "jazelle" "JOSCR" "Reserved"
    ∷ row 1 0 ms_sysreg_teecr ns_all 0 1 "XED" "thumb" "TEECR"
        "Unprivileged Execution Environment Disable"
    ∷ row 1 1 ms_sysreg_teecr ns_all 1 31 "Reserved" "thumb" "TEECR" "Reserved"
    ∷ row 1 0 ms_sysreg_teehbr ns_all 0 2 "Reserved" "thumb" "TEEHBR" "Reserved"
    ∷ row 1 1 ms_sysreg_teehbr ns_all 2 30 "HandlerBase" "thumb" "TEEHBR"
        "Address of ThumbEE handlers"
    ∷ row 1 0 ms_sysreg_tpidrprw ns_privilege_level_1 0 32 "Implementation Defined" "misc"
        "TPIDRPRW" "PL1 Thread ID Storage"
    ∷ row 1 0 ms_sysreg_tpidruro ns_privilege_level_0 0 32 "Implementation Defined" "misc"
        "TPIDRURO" "PL0 Thread ID Storage"
    ∷ row 1 0 ms_sysreg_tpidrurw all_ns_s 0 32 "Implementation Defined" "misc" "TPIDRURW"
        "PL0 Thread ID Storage"
    ∷ row 1 0 ms_sysreg_par ns_privilege_level_1 0 1 "F" "addrtrans" "PAR" "Conversion status"
    ∷ row 1 1 ms_sysreg_par ns_privilege_level_1 1 1 "SS" "addrtrans" "PAR"
        "Result is a supersection"
    ∷ row 1 2 ms_sysreg_par ns_privilege_level_1 2 1 "Outer_1_0" "addrtrans" "PAR"
        "Outer memory attributes"
    ∷ row 1 3 ms_sysreg_par ns_privilege_level_1 4 3 "Inner_2_0" "addrtrans" "PAR"
        "Inner memory attributes"
    ∷ row 1 4 ms_sysreg_par ns_privilege_level_1 7 1 "Shareable attribute" "addrtrans" "PAR"
        "Physical memory is shareable"
    ∷ row 1 5 ms_sysreg_par ns_privilege_level_1 8 1 "Implementation Defined" "addrtrans" "PAR"
        "Implementation Defined"
    ∷ row 1 6 ms_sysreg_par ns_privilege_level_1 9 1 "Non-secure" "addrtrans" "PAR"
        "NS bit from secure state"
    ∷ row 1 7 ms_sysreg_par ns_privilege_level_1 10 1 "NOS" "addrtrans" "PAR"
        "Not outer shareable bit"
    ∷ row 1 8 ms_sysreg_par ns_privilege_level_1 11 1 "LPAE" "addrtrans" "PAR"
        "Implementation includes LPAE"
    ∷ row 1 9 ms_sysreg_par ns_privilege_level_1 12 20 "PA" "addrtrans" "PAR" "Physical address"
    ∷ []
