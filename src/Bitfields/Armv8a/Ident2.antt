-- ===== src/Bitfields/Armv8a/Ident2.antt =====
-- lib/src/bitfields/bitfield_armv8a.c: rows of `bitfield_armv8a_table`.
use maplesyrup.Base.{List, [], ◌∷◌}
use maplesyrup.Structs.{BitfieldInfo, ns_privilege_level_1}
use maplesyrup.Bitfields.{row}
use maplesyrup.Registers.{
  ms_sysreg_aa64mmfr0, ms_sysreg_aa64mmfr1, ms_sysreg_isar0, ms_sysreg_isar1, ms_sysreg_isar2,
  ms_sysreg_isar3, ms_sysreg_isar4, ms_sysreg_mmfr2, ms_sysreg_mmfr3, ms_sysreg_mmfr4,
}

unfoldable pub armv8a_ident_2 : List BitfieldInfo
armv8a_ident_2 =
    row 1 0 ms_sysreg_mmfr2 ns_privilege_level_1 0 4 "L1 Harvard fg fetch" "ident" "MMFR2"
      "L1 Harvard fg fetch"
    ∷ row 1 1 ms_sysreg_mmfr2 ns_privilege_level_1 4 4 "L1 Harvard bg fetch" "ident" "MMFR2"
        "L1 Harvard bg fetch"
    ∷ row 1 2 ms_sysreg_mmfr2 ns_privilege_level_1 8 4 "L1 Harvard range" "ident" "MMFR2"
        "L1 Harvard range"
    ∷ row 1 3 ms_sysreg_mmfr2 ns_privilege_level_1 12 4 "Harvard TLB" "ident" "MMFR2" "Harvard TLB"
    ∷ row 1 4 ms_sysreg_mmfr2 ns_privilege_level_1 16 4 "Unified TLB" "ident" "MMFR2" "Unified TLB"
    ∷ row 1 5 ms_sysreg_mmfr2 ns_privilege_level_1 20 4 "Mem barrier" "ident" "MMFR2" "Mem barrier"
    ∷ row 1 6 ms_sysreg_mmfr2 ns_privilege_level_1 24 4 "WFI stall" "ident" "MMFR2" "WFI stall"
    ∷ row 1 7 ms_sysreg_mmfr2 ns_privilege_level_1 28 4 "HW Access flag" "ident" "MMFR2"
        "HW Access flag"
    ∷ row 1 0 ms_sysreg_mmfr3 ns_privilege_level_1 0 4 "Cache maintain MVA" "ident" "MMFR3"
        "Cache maintain MVA"
    ∷ row 1 1 ms_sysreg_mmfr3 ns_privilege_level_1 4 4 "Cache maintain set/way" "ident" "MMFR3"
        "Cache maintain set/way"
    ∷ row 1 2 ms_sysreg_mmfr3 ns_privilege_level_1 8 4 "BP maintain" "ident" "MMFR3" "BP maintain"
    ∷ row 1 3 ms_sysreg_mmfr3 ns_privilege_level_1 12 4 "Maintenance broadcast" "ident" "MMFR3"
        "Maintenance broadcast"
    ∷ row 1 4 ms_sysreg_mmfr3 ns_privilege_level_1 16 4 "Reserved" "ident" "MMFR3" "Reserved"
    ∷ row 1 5 ms_sysreg_mmfr3 ns_privilege_level_1 20 4 "Coherent walk" "ident" "MMFR3"
        "Coherent walk"
    ∷ row 1 6 ms_sysreg_mmfr3 ns_privilege_level_1 24 4 "Cached memory size" "ident" "MMFR3"
        "Cached memory size"
    ∷ row 1 7 ms_sysreg_mmfr3 ns_privilege_level_1 28 4 "Supersection support" "ident" "MMFR3"
        "Supersection support"
    ∷ row 1 0 ms_sysreg_mmfr4 ns_privilege_level_1 0 4 "Reserved" "ident" "MMFR4" "Reserved"
    ∷ row 1 1 ms_sysreg_mmfr4 ns_privilege_level_1 0 4 "AC2" "ident" "MMFR4"
        "Extension of ACTLR/HACTLR into register ACTLR2/HACTLR2"
    ∷ row 1 2 ms_sysreg_mmfr4 ns_privilege_level_1 0 4 "Reserved" "ident" "MMFR4" "Reserved"
    ∷ row 1 3 ms_sysreg_mmfr4 ns_privilege_level_1 0 4 "Reserved" "ident" "MMFR4" "Reserved"
    ∷ row 1 4 ms_sysreg_mmfr4 ns_privilege_level_1 0 4 "Reserved" "ident" "MMFR4" "Reserved"
    ∷ row 1 5 ms_sysreg_mmfr4 ns_privilege_level_1 0 4 "Reserved" "ident" "MMFR4" "Reserved"
    ∷ row 1 6 ms_sysreg_mmfr4 ns_privilege_level_1 0 4 "Reserved" "ident" "MMFR4" "Reserved"
    ∷ row 1 7 ms_sysreg_mmfr4 ns_privilege_level_1 0 4 "Reserved" "ident" "MMFR4" "Reserved"
    ∷ row 1 0 ms_sysreg_aa64mmfr0 ns_privilege_level_1 0 4 "PARange" "ident" "AA64MMFR0"
        "Physical address range supported"
    ∷ row 1 1 ms_sysreg_aa64mmfr0 ns_privilege_level_1 4 4 "ASIDBits" "ident" "AA64MMFR0"
        "Number of ASID bits supported"
    ∷ row 1 2 ms_sysreg_aa64mmfr0 ns_privilege_level_1 8 4 "BigEnd" "ident" "AA64MMFR0"
        "Mixed-endian configuration support"
    ∷ row 1 3 ms_sysreg_aa64mmfr0 ns_privilege_level_1 12 4 "SNSMem" "ident" "AA64MMFR0"
        "Secure versus non-secure memory distinction"
    ∷ row 1 4 ms_sysreg_aa64mmfr0 ns_privilege_level_1 16 4 "BigEndEL0" "ident" "AA64MMFR0"
        "Mixed-endian support at EL0 only"
    ∷ row 1 5 ms_sysreg_aa64mmfr0 ns_privilege_level_1 20 4 "TGran16" "ident" "AA64MMFR0"
        "Support for 16KB memory translation granule size"
    ∷ row 1 6 ms_sysreg_aa64mmfr0 ns_privilege_level_1 24 4 "TGran64" "ident" "AA64MMFR0"
        "Support for 64KB memory translation granule size"
    ∷ row 1 7 ms_sysreg_aa64mmfr0 ns_privilege_level_1 28 4 "TGran4" "ident" "AA64MMFR0"
        "Support for 4KB memory translation granule size"
    ∷ row 1 8 ms_sysreg_aa64mmfr0 ns_privilege_level_1 32 32 "Reserved" "ident" "AA64MMFR0"
        "Reserved"
    ∷ row 1 0 ms_sysreg_aa64mmfr1 ns_privilege_level_1 0 64 "Reserved" "ident" "AA64MMFR1"
        "Reserved"
    ∷ row 1 0 ms_sysreg_isar0 ns_privilege_level_1 0 4 "Swap_instrs" "ident" "ISAR0" "Swap_instrs"
    ∷ row 1 1 ms_sysreg_isar0 ns_privilege_level_1 4 4 "BitCount_instrs" "ident" "ISAR0"
        "BitCount_instrs"
    ∷ row 1 2 ms_sysreg_isar0 ns_privilege_level_1 8 4 "Bitfield_instrs" "ident" "ISAR0"
        "Bitfield_instrs"
    ∷ row 1 3 ms_sysreg_isar0 ns_privilege_level_1 12 4 "CmpBranch_instrs" "ident" "ISAR0"
        "Compare and Branch instructions"
    ∷ row 1 4 ms_sysreg_isar0 ns_privilege_level_1 16 4 "Coproc_instrs" "ident" "ISAR0"
        "Coprocessor instructions"
    ∷ row 1 5 ms_sysreg_isar0 ns_privilege_level_1 20 4 "Debug_instrs" "ident" "ISAR0"
        "Debug instructions"
    ∷ row 1 6 ms_sysreg_isar0 ns_privilege_level_1 24 4 "Divide_instrs" "ident" "ISAR0"
        "Divide instructions"
    ∷ row 1 7 ms_sysreg_isar0 ns_privilege_level_1 28 4 "Reserved" "ident" "ISAR0" "Reserved"
    ∷ row 1 0 ms_sysreg_isar1 ns_privilege_level_1 0 4 "Ending_instrs" "ident" "ISAR1"
        "Endian instructions"
    ∷ row 1 1 ms_sysreg_isar1 ns_privilege_level_1 4 4 "Except_instrs" "ident" "ISAR1"
        "Exception-handling instructions"
    ∷ row 1 2 ms_sysreg_isar1 ns_privilege_level_1 8 4 "Except_AR_instrs" "ident" "ISAR1"
        "A & R profile exception-handling instructions"
    ∷ row 1 3 ms_sysreg_isar1 ns_privilege_level_1 12 4 "Extend_instrs" "ident" "ISAR1"
        "Extend instructions"
    ∷ row 1 4 ms_sysreg_isar1 ns_privilege_level_1 16 4 "IfThen_instrs" "ident" "ISAR1"
        "If-Then instructions in Thumb"
    ∷ row 1 5 ms_sysreg_isar1 ns_privilege_level_1 20 4 "Immediate_instrs" "ident" "ISAR1"
        "Data processing instructions on long immediates"
    ∷ row 1 6 ms_sysreg_isar1 ns_privilege_level_1 24 4 "Interwork_instrs" "ident" "ISAR1"
        "Interworking instructions"
    ∷ row 1 7 ms_sysreg_isar1 ns_privilege_level_1 28 4 "Jazelle_instrs" "ident" "ISAR1"
        "Jazelle extension instructions"
    ∷ row 1 0 ms_sysreg_isar2 ns_privilege_level_1 0 4 "LoadStore_instrs" "ident" "ISAR2"
        "Additional load/store instructions"
    ∷ row 1 1 ms_sysreg_isar2 ns_privilege_level_1 4 4 "MemHint_instrs" "ident" "ISAR2"
        "Memory Hint instructions"
    ∷ row 1 2 ms_sysreg_isar2 ns_privilege_level_1 8 4 "MultiAccessInt_instrs" "ident" "ISAR2"
        "Interruptible multi-access instructions"
    ∷ row 1 3 ms_sysreg_isar2 ns_privilege_level_1 12 4 "Mult_instrs" "ident" "ISAR2"
        "Additional multiply instructions"
    ∷ row 1 4 ms_sysreg_isar2 ns_privilege_level_1 16 4 "MultS_instrs" "ident" "ISAR2"
        "Advanced signed Multiply instructions"
    ∷ row 1 5 ms_sysreg_isar2 ns_privilege_level_1 20 4 "MultU_instrs" "ident" "ISAR2"
        "Advanced unsigned Multiply instructions"
    ∷ row 1 6 ms_sysreg_isar2 ns_privilege_level_1 24 4 "PSR_AR_instrs" "ident" "ISAR2"
        "Instructions to manipulate PSR"
    ∷ row 1 7 ms_sysreg_isar2 ns_privilege_level_1 28 4 "Reversal_instrs" "ident" "ISAR2"
        "Implemented Reversal instructions"
    ∷ row 1 0 ms_sysreg_isar3 ns_privilege_level_1 0 4 "Saturate_instrs" "ident" "ISAR3"
        "Implemented Saturate instructions"
    ∷ row 1 1 ms_sysreg_isar3 ns_privilege_level_1 4 4 "SIMD_instrs" "ident" "ISAR3"
        "Implemented SIMD instructions"
    ∷ row 1 2 ms_sysreg_isar3 ns_privilege_level_1 8 4 "SVC_instrs" "ident" "ISAR3"
        "Implemented SVC instructions"
    ∷ row 1 3 ms_sysreg_isar3 ns_privilege_level_1 12 4 "SynchPrim_instrs" "ident" "ISAR3"
        " Synchronization Primitive instructions"
    ∷ row 1 4 ms_sysreg_isar3 ns_privilege_level_1 16 4 "TabBranch_instrs" "ident" "ISAR3"
        "Table Branch instructions in Thumb"
    ∷ row 1 5 ms_sysreg_isar3 ns_privilege_level_1 20 4 "ThumbCopy_instrs" "ident" "ISAR3"
        "Thumb non-flag setting MOV instructions"
    ∷ row 1 6 ms_sysreg_isar3 ns_privilege_level_1 24 4 "TrueNOP_instrs" "ident" "ISAR3"
        "Implemented True NOP instructions"
    ∷ row 1 7 ms_sysreg_isar3 ns_privilege_level_1 28 4 "ThumbEE_extn_instrs" "ident" "ISAR3"
        "Thumb Execution Environment Extension instructions"
    ∷ row 1 0 ms_sysreg_isar4 ns_privilege_level_1 0 4 "Unpriv_instrs" "ident" "ISAR4"
        "Implemented Unprivileged instructions"
    ∷ row 1 1 ms_sysreg_isar4 ns_privilege_level_1 4 4 "WithShifts_instrs" "ident" "ISAR4"
        "Support for instructions with shifts"
    ∷ row 1 2 ms_sysreg_isar4 ns_privilege_level_1 8 4 "Writeback_instrs" "ident" "ISAR4"
        "Writeback addressing modes"
    ∷ row 1 3 ms_sysreg_isar4 ns_privilege_level_1 12 4 "SMC_instrs" "ident" "ISAR4"
        "SMC instructions"
    ∷ row 1 4 ms_sysreg_isar4 ns_privilege_level_1 16 4 "Barrier_instrs" "ident" "ISAR4"
        "Barrier instructions"
    ∷ row 1 5 ms_sysreg_isar4 ns_privilege_level_1 20 4 "SynchPrim_instrs" "ident" "ISAR4"
        "Implemented Synchronization Primitive instructions"
    ∷ row 1 6 ms_sysreg_isar4 ns_privilege_level_1 24 4 "PSR_M_instrs" "ident" "ISAR4"
        "M profile instructions to modify PSR"
    ∷ row 1 7 ms_sysreg_isar4 ns_privilege_level_1 28 4 "SWP_frac" "ident" "ISAR4"
        "Bus locking on SWP or SWPB"
    ∷ []
