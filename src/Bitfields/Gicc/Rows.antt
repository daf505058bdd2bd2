-- ===== src/Bitfields/Gicc/Rows.antt =====
-- lib/src/bitfields/bitfield_gicv2.c: rows of `bitfield_giccv2_table`.
use maplesyrup.Base.{List, [], ◌∷◌}
use maplesyrup.Structs.{BitfieldInfo, ns_privilege_level_1}
use maplesyrup.Bitfields.{row}
use maplesyrup.Registers.{
  ms_gic_gicc_abpr, ms_gic_gicc_aeoir, ms_gic_gicc_ahppir, ms_gic_gicc_aiar, ms_gic_gicc_apr,
  ms_gic_gicc_bpr, ms_gic_gicc_ctlr, ms_gic_gicc_dir, ms_gic_gicc_eoir, ms_gic_gicc_hppir,
  ms_gic_gicc_iar, ms_gic_gicc_iidr, ms_gic_gicc_impl_def_00, ms_gic_gicc_nsapr, ms_gic_gicc_pmr,
  ms_gic_gicc_reserved_00, ms_gic_gicc_reserved_01, ms_gic_gicc_rpr,
}

unfoldable pub gicc_rows : List BitfieldInfo
gicc_rows =
    row 1 0 ms_gic_gicc_ctlr ns_privilege_level_1 0 1 "EnableGrp1" "gicc" "GICC_CTLR"
      "Enable signaling of Group 1 interrupts to CPU"
    ∷ row 1 1 ms_gic_gicc_ctlr ns_privilege_level_1 1 4 "Reserved" "gicc" "GICC_CTLR" "Reserved"
    ∷ row 1 2 ms_gic_gicc_ctlr ns_privilege_level_1 5 1 "FIQBypDisGrp1" "gicc" "GICC_CTLR"
        "Bypass FIQ signal is signaled to the processor"
    ∷ row 1 3 ms_gic_gicc_ctlr ns_privilege_level_1 6 1 "IRQBypDisGrp1" "gicc" "GICC_CTLR"
        "Bypass IRQ signal is signaled to the processor"
    ∷ row 1 4 ms_gic_gicc_ctlr ns_privilege_level_1 7 2 "Reserved" "gicc" "GICC_CTLR" "Reserved"
    ∷ row 1 5 ms_gic_gicc_ctlr ns_privilege_level_1 9 1 "EOImodeNS" "gicc" "GICC_CTLR"
        "Controls behavior of non-secures accesses to GICC_EOIR and GICC_DIR registers"
    ∷ row 1 6 ms_gic_gicc_ctlr ns_privilege_level_1 10 22 "Reserved" "gicc" "GICC_CTLR" "Reserved"
    ∷ row 1 0 ms_gic_gicc_pmr ns_privilege_level_1 0 8 "Priority" "gicc" "GICC_PMR"
        "The priority mask level for the CPU interface"
    ∷ row 1 1 ms_gic_gicc_pmr ns_privilege_level_1 8 24 "Reserved" "gicc" "GICC_PMR" "Reserved"
    ∷ row 1 0 ms_gic_gicc_bpr ns_privilege_level_1 0 3 "Binary Point" "gicc" "GICC_BPR"
        "Binary Point Register"
    ∷ row 1 1 ms_gic_gicc_bpr ns_privilege_level_1 3 29 "Reserved" "gicc" "GICC_BPR" "Reserved"
    ∷ row 1 0 ms_gic_gicc_iar ns_privilege_level_1 0 10 "Interrupt ID" "gicc" "GICC_IAR"
        "The interrupt ID"
    ∷ row 1 1 ms_gic_gicc_iar ns_privilege_level_1 10 3 "CPUID" "gicc" "GICC_IAR"
        "CPU interface that generated the SGI"
    ∷ row 1 2 ms_gic_gicc_iar ns_privilege_level_1 13 19 "Reserved" "gicc" "GICC_IAR" "Reserved"
    ∷ row 1 0 ms_gic_gicc_eoir ns_privilege_level_1 0 10 "EOIINTID" "gicc" "GICC_EOIR"
        "The interrupt ID value from the corresponding GICC_IAR access"
    ∷ row 1 1 ms_gic_gicc_eoir ns_privilege_level_1 10 3 "CPUID" "gicc" "GICC_EOIR"
        "CPUID from corresponding GICC_IAR access"
    ∷ row 1 2 ms_gic_gicc_eoir ns_privilege_level_1 13 19 "Reserved" "gicc" "GICC_EOIR" "Reserved"
    ∷ row 1 0 ms_gic_gicc_rpr ns_privilege_level_1 0 8 "Priority" "gicc" "GICC_RPR"
        "The current running priority of the CPU interface"
    ∷ row 1 1 ms_gic_gicc_rpr ns_privilege_level_1 8 24 "Reserved" "gicc" "GICC_RPR" "Reserved"
    ∷ row 1 0 ms_gic_gicc_hppir ns_privilege_level_1 0 10 "PENDINTID" "gicc" "GICC_HPPIR"
        "The interrupt ID of the highest pending priority interrupt"
    ∷ row 1 1 ms_gic_gicc_hppir ns_privilege_level_1 10 3 "CPUID" "gicc" "GICC_HPPIR"
        "CPUID for corresponding interrupt"
    ∷ row 1 2 ms_gic_gicc_hppir ns_privilege_level_1 13 19 "Reserved" "gicc" "GICC_HPPIR" "Reserved"
    ∷ row 1 0 ms_gic_gicc_abpr ns_privilege_level_1 0 3 "Binary Point" "gicc" "GICC_ABPR"
        "Binary Point"
    ∷ row 1 1 ms_gic_gicc_abpr ns_privilege_level_1 3 29 "Reserved" "gicc" "GICC_ABPR" "Reserved"
    ∷ row 1 0 ms_gic_gicc_aiar ns_privilege_level_1 0 10 "Interrupt ID" "gicc" "GICC_AIAR"
        "The interrupt ID"
    ∷ row 1 1 ms_gic_gicc_aiar ns_privilege_level_1 10 3 "CPUID" "gicc" "GICC_AIAR"
        "The processor that requested the interrupt"
    ∷ row 1 2 ms_gic_gicc_aiar ns_privilege_level_1 13 19 "Reserved" "gicc" "GICC_AIAR" "Reserved"
    ∷ row 1 0 ms_gic_gicc_aeoir ns_privilege_level_1 0 10 "Interrupt ID" "gicc" "GICC_AEOIR"
        "The interrupt ID"
    ∷ row 1 1 ms_gic_gicc_aeoir ns_privilege_level_1 10 3 "CPUID" "gicc" "GICC_AEOIR"
        "CPUID of the corresponding interrupt"
    ∷ row 1 2 ms_gic_gicc_aeoir ns_privilege_level_1 13 19 "Reserved" "gicc" "GICC_AEOIR" "Reserved"
    ∷ row 1 0 ms_gic_gicc_ahppir ns_privilege_level_1 0 10 "PENDINTID" "gicc" "GICC_AHPPIR"
        "The interrupt ID of the highest priority interrupt"
    ∷ row 1 1 ms_gic_gicc_ahppir ns_privilege_level_1 10 3 "CPUID" "gicc" "GICC_AHPPIR"
        "CPUID of the corresponding interrupt"
    ∷ row 1 2 ms_gic_gicc_ahppir ns_privilege_level_1 13 19 "Reserved" "gicc" "GICC_AHPPIR"
        "Reserved"
    ∷ row 4 0 ms_gic_gicc_reserved_00 ns_privilege_level_1 0 32 "Reserved" "gicc" "GICC_RESERVED"
        "Reserved"
    ∷ row 24 0 ms_gic_gicc_impl_def_00 ns_privilege_level_1 0 32 "Implementation Defined" "gicc"
        "GICC_IMPL_DEF" "Implementation Defined"
    ∷ row 4 0 ms_gic_gicc_apr ns_privilege_level_1 0 32 "APR" "gicc" "GICC_APR"
        "Active Priorities Registers"
    ∷ row 4 0 ms_gic_gicc_nsapr ns_privilege_level_1 0 32 "NSAPR" "gicc" "GICC_NSAPR"
        "Non-secure Active Priorities Registers"
    ∷ row 3 0 ms_gic_gicc_reserved_01 ns_privilege_level_1 0 32 "Reserved" "gicc" "GICC_RESERVED"
        "Reserved"
    ∷ row 1 0 ms_gic_gicc_iidr ns_privilege_level_1 0 12 "Implementer" "gicc" "GICC_IIDR"
        "The JEP106 code for the implementer of the GIC CPU interface"
    ∷ row 1 1 ms_gic_gicc_iidr ns_privilege_level_1 12 4 "Revision" "gicc" "GICC_IIDR"
        "Revision number of GIC CPU inteface"
    ∷ row 1 2 ms_gic_gicc_iidr ns_privilege_level_1 16 4 "Architecture version" "gicc" "GICC_IIDR"
        "Architecture version"
    ∷ row 1 3 ms_gic_gicc_iidr ns_privilege_level_1 20 12 "Product ID" "gicc" "GICC_IIDR"
        "Implentation defined product identifier"
    ∷ row 1 0 ms_gic_gicc_dir ns_privilege_level_1 0 10 "InterruptID" "gicc" "GICC_DIR"
        "The interrupt ID"
    ∷ row 1 1 ms_gic_gicc_dir ns_privilege_level_1 10 3 "CPUID" "gicc" "GICC_DIR"
        "The processor that requested the interrupt"
    ∷ row 1 2 ms_gic_gicc_dir ns_privilege_level_1 13 19 "Reserved" "gicc" "GICC_DIR" "Reserved"
    ∷ []
