-- ===== src/Bitfields/Armv7a/Ident1.antt =====
-- lib/src/bitfields/bitfield_armv7a.c: rows of `bitfield_armv7a_table`.
use maplesyrup.Base.{List, [], ◌∷◌}
use maplesyrup.Structs.{BitfieldInfo, ns_privilege_level_1}
use maplesyrup.Bitfields.{row}
use maplesyrup.Registers.{
  ms_sysreg_afr0, ms_sysreg_dfr0, ms_sysreg_isar0, ms_sysreg_isar1, ms_sysreg_mmfr0,
  ms_sysreg_mmfr1, ms_sysreg_mmfr2, ms_sysreg_mmfr3, ms_sysreg_pfr0, ms_sysreg_pfr1,
}

unfoldable pub armv7a_ident_1 : List BitfieldInfo
armv7a_ident_1 =
    row 1 0 ms_sysreg_pfr0 ns_privilege_level_1 0 4 "State0" "ident" "PFR0"
      "ARM instruction set support"
    ∷ row 1 1 ms_sysreg_pfr0 ns_privilege_level_1 4 4 "State1" "ident" "PFR0"
        "Thumb instruction set support"
    ∷ row 1 2 ms_sysreg_pfr0 ns_privilege_level_1 8 4 "State2" "ident" "PFR0"
        "Jazelle extension support"
    ∷ row 1 3 ms_sysreg_pfr0 ns_privilege_level_1 12 4 "State3" "ident" "PFR0"
        "ThumbEE instruction set support"
    ∷ row 1 4 ms_sysreg_pfr0 ns_privilege_level_1 16 16 "Reserved" "ident" "PFR0" "Reserved"
    ∷ row 1 0 ms_sysreg_pfr1 ns_privilege_level_1 0 4 "Programmers' model" "ident" "PFR1"
        "Programmers' model"
    ∷ row 1 1 ms_sysreg_pfr1 ns_privilege_level_1 4 4 "Security" "ident" "PFR1" "Security support"
    ∷ row 1 2 ms_sysreg_pfr1 ns_privilege_level_1 8 4 "M profile programmers' model" "ident" "PFR1"
        "M profile programmers' model"
    ∷ row 1 3 ms_sysreg_pfr1 ns_privilege_level_1 12 4 "Virtualization Extensions" "ident" "PFR1"
        "Virtualization Extensions"
    ∷ row 1 4 ms_sysreg_pfr1 ns_privilege_level_1 16 4 "Generic Timer Extension" "ident" "PFR1"
        "Generic Timer Extension"
    ∷ row 1 5 ms_sysreg_pfr1 ns_privilege_level_1 20 12 "Reserved" "ident" "PFR1" "Reserved"
    ∷ row 1 0 ms_sysreg_dfr0 ns_privilege_level_1 0 4 "Coprocessor debug model" "ident" "DFR0"
        "Coprocessor debug model"
    ∷ row 1 1 ms_sysreg_dfr0 ns_privilege_level_1 4 4 "Coprocessor secure debug model" "ident"
        "DFR0" "Coprocessor secure debug model"
    ∷ row 1 2 ms_sysreg_dfr0 ns_privilege_level_1 8 4 "Memory-mapped debug model" "ident" "DFR0"
        " Memory-mapped debug model"
    ∷ row 1 3 ms_sysreg_dfr0 ns_privilege_level_1 12 4 "Coprocessor trace model" "ident" "DFR0"
        " Coprocessor trace model"
    ∷ row 1 4 ms_sysreg_dfr0 ns_privilege_level_1 16 4 "Memory-mapped trace model" "ident" "DFR0"
        "Memory-mapped trace model"
    ∷ row 1 5 ms_sysreg_dfr0 ns_privilege_level_1 20 4 "Debug model, M profile" "ident" "DFR0"
        "Debug model, M profile"
    ∷ row 1 6 ms_sysreg_dfr0 ns_privilege_level_1 24 4 "Performance Monitors Extension" "ident"
        "DFR0" "Performance Monitors Extension"
    ∷ row 1 7 ms_sysreg_dfr0 ns_privilege_level_1 28 4 "Reserved" "ident" "DFR0" "Reserved"
    ∷ row 1 0 ms_sysreg_afr0 ns_privilege_level_1 0 4 "Implementation Defined" "ident" "AFR0"
        "Implementation Defined"
    ∷ row 1 1 ms_sysreg_afr0 ns_privilege_level_1 4 4 "Implementation Defined" "ident" "AFR0"
        "Implementation Defined"
    ∷ row 1 2 ms_sysreg_afr0 ns_privilege_level_1 8 4 "Implementation Defined" "ident" "AFR0"
        "Implementation Defined"
    ∷ row 1 3 ms_sysreg_afr0 ns_privilege_level_1 12 4 "Implementation Defined" "ident" "AFR0"
        "Implementation Defined"
    ∷ row 1 4 ms_sysreg_afr0 ns_privilege_level_1 16 16 "Reserved" "ident" "AFR0" "Reserved"
    ∷ row 1 0 ms_sysreg_mmfr0 ns_privilege_level_1 0 4 "VMSA support" "ident" "MMFR0" "VMSA Support"
    ∷ row 1 1 ms_sysreg_mmfr0 ns_privilege_level_1 4 4 "PMSA support" "ident" "MMFR0" "PMSA Support"
    ∷ row 1 2 ms_sysreg_mmfr0 ns_privilege_level_1 8 4 "Outermost shareability" "ident" "MMFR0"
        "Outermost shareability"
    ∷ row 1 3 ms_sysreg_mmfr0 ns_privilege_level_1 12 4 "Shareability levels" "ident" "MMFR0"
        "Shareability levels"
    ∷ row 1 4 ms_sysreg_mmfr0 ns_privilege_level_1 16 4 "TCM support" "ident" "MMFR0"
        "TCM/DMA Support"
    ∷ row 1 5 ms_sysreg_mmfr0 ns_privilege_level_1 20 4 "Auxiliary registers" "ident" "MMFR0"
        "Auxiliary registers"
    ∷ row 1 6 ms_sysreg_mmfr0 ns_privilege_level_1 24 4 "FCSE support" "ident" "MMFR0"
        "FCSE support"
    ∷ row 1 7 ms_sysreg_mmfr0 ns_privilege_level_1 28 4 "Innermost shareability" "ident" "MMFR0"
        "Innermost shareability"
    ∷ row 1 0 ms_sysreg_mmfr1 ns_privilege_level_1 0 4 "L1 Harvard cache VA" "ident" "MMFR1"
        "L1 Harvard cache VA"
    ∷ row 1 1 ms_sysreg_mmfr1 ns_privilege_level_1 4 4 "L1 unified cache VA" "ident" "MMFR1"
        "L1 unified cache VA"
    ∷ row 1 2 ms_sysreg_mmfr1 ns_privilege_level_1 8 4 "L1 Harvard cache set/way" "ident" "MMFR1"
        "Harvard cache set/way"
    ∷ row 1 3 ms_sysreg_mmfr1 ns_privilege_level_1 12 4 "L1 unified cache set/way" "ident" "MMFR1"
        "L1 unified cache set/way"
    ∷ row 1 4 ms_sysreg_mmfr1 ns_privilege_level_1 16 4 "L1 Harvard cache" "ident" "MMFR1"
        "L1 Harvard cache"
    ∷ row 1 5 ms_sysreg_mmfr1 ns_privilege_level_1 20 4 "L1 unified cache VA" "ident" "MMFR1"
        "L1 unified cache"
    ∷ row 1 6 ms_sysreg_mmfr1 ns_privilege_level_1 24 4 "L1 cache test and clean" "ident" "MMFR1"
        "L1 cache test and clean"
    ∷ row 1 7 ms_sysreg_mmfr1 ns_privilege_level_1 28 4 "Branch predictor" "ident" "MMFR1"
        "Branch predictor"
    ∷ row 1 0 ms_sysreg_mmfr2 ns_privilege_level_1 0 4 "L1 Harvard fg fetch" "ident" "MMFR2"
        "L1 Harvard fg fetch"
    ∷ row 1 1 ms_sysreg_mmfr2 ns_privilege_level_1 4 4 "L1 Harvard bg fetch" "ident" "MMFR2"
        "L1 Harvard bg fetch"
    ∷ row 1 2 ms_sysreg_mmfr2 ns_privilege_level_1 8 4 "L1 Harvard range" "ident" "MMFR2"
        "L1 Harvard range"
    ∷ row 1 3 ms_sysreg_mmfr2 ns_privilege_level_1 12 4 "Harvard TLB" "ident" "MMFR2" "Harvard TLB"
    ∷ row 1 4 ms_sysreg_mmfr2 ns_privilege_level_1 16 4 "Unified TLB" "ident" "MMFR2" "Unified TLB"
    ∷ row 1 5 ms_sysreg_mmfr2 ns_privilege_level_1 20 4 "Mem barrier" "ident" "MMFR2" "Mem barrier"
    ∷ row 1 6 ms_sysreg_mmfr2 ns_privilege_level_1 24 4 "WFI stall" "ident" "MMFR2" "WFI stall"
    ∷ row 1 7 ms_sysreg_mmfr2 ns_privilege_level_1 28 4 "HW Access flag" "ident" "MMFR2"
        "HW Access flag"
    ∷ row 1 0 ms_sysreg_mmfr3 ns_privilege_level_1 0 4 "Cache maintain MVA" "ident" "MMFR3"
        "Cache maintain MVA"
    ∷ row 1 1 ms_sysreg_mmfr3 ns_privilege_level_1 4 4 "Cache maintain set/way" "ident" "MMFR3"
        "Cache maintain set/way"
    ∷ row 1 2 ms_sysreg_mmfr3 ns_privilege_level_1 8 4 "BP maintain" "ident" "MMFR3" "BP maintain"
    ∷ row 1 3 ms_sysreg_mmfr3 ns_privilege_level_1 12 4 "Maintenance broadcast" "ident" "MMFR3"
        "Maintenance broadcast"
    ∷ row 1 4 ms_sysreg_mmfr3 ns_privilege_level_1 16 4 "Reserved" "ident" "MMFR3" "Reserved"
    ∷ row 1 5 ms_sysreg_mmfr3 ns_privilege_level_1 20 4 "Coherent walk" "ident" "MMFR3"
        "Coherent walk"
    ∷ row 1 6 ms_sysreg_mmfr3 ns_privilege_level_1 24 4 "Cached memory size" "ident" "MMFR3"
        "Cached memory size"
    ∷ row 1 7 ms_sysreg_mmfr3 ns_privilege_level_1 28 4 "Supersection support" "ident" "MMFR3"
        "Supersection support"
    ∷ row 1 0 ms_sysreg_isar0 ns_privilege_level_1 0 4 "Swap_instrs" "ident" "ISAR0" "Swap_instrs"
    ∷ row 1 1 ms_sysreg_isar0 ns_privilege_level_1 4 4 "BitCount_instrs" "ident" "ISAR0"
        "BitCount_instrs"
    ∷ row 1 2 ms_sysreg_isar0 ns_privilege_level_1 8 4 "Bitfield_instrs" "ident" "ISAR0"
        "Bitfield_instrs"
    ∷ row 1 3 ms_sysreg_isar0 ns_privilege_level_1 12 4 "CmpBranch_instrs" "ident" "ISAR0"
        "Compare and Branch instructions"
    ∷ row 1 4 ms_sysreg_isar0 ns_privilege_level_1 16 4 "Coproc_instrs" "ident" "ISAR0"
        "Coprocessor instructions"
    ∷ row 1 5 ms_sysreg_isar0 ns_privilege_level_1 20 4 "Debug_instrs" "ident" "ISAR0"
        "Debug instructions"
    ∷ row 1 6 ms_sysreg_isar0 ns_privilege_level_1 24 4 "Divide_instrs" "ident" "ISAR0"
        "Divide instructions"
    ∷ row 1 7 ms_sysreg_isar0 ns_privilege_level_1 28 4 "Reserved" "ident" "ISAR0" "Reserved"
    ∷ row 1 0 ms_sysreg_isar1 ns_privilege_level_1 0 4 "Ending_instrs" "ident" "ISAR1"
        "Endian instructions"
    ∷ row 1 1 ms_sysreg_isar1 ns_privilege_level_1 4 4 "Except_instrs" "ident" "ISAR1"
        "Exception-handling instructions"
    ∷ row 1 2 ms_sysreg_isar1 ns_privilege_level_1 8 4 "Except_AR_instrs" "ident" "ISAR1"
        "A & R profile exception-handling instructions"
    ∷ row 1 3 ms_sysreg_isar1 ns_privilege_level_1 12 4 "Extend_instrs" "ident" "ISAR1"
        "Extend instructions"
    ∷ row 1 4 ms_sysreg_isar1 ns_privilege_level_1 16 4 "IfThen_instrs" "ident" "ISAR1"
        "If-Then instructions in Thumb"
    ∷ row 1 5 ms_sysreg_isar1 ns_privilege_level_1 20 4 "Immediate_instrs" "ident" "ISAR1"
        "Data processing instructions on long immediates"
    ∷ row 1 6 ms_sysreg_isar1 ns_privilege_level_1 24 4 "Interwork_instrs" "ident" "ISAR1"
        "Interworking instructions"
    ∷ row 1 7 ms_sysreg_isar1 ns_privilege_level_1 28 4 "Jazelle_instrs" "ident" "ISAR1"
        "Jazelle extension instructions"
    ∷ []
