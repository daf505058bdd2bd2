-- ===== src/Bitfields/Gicd/Rows.antt =====
-- lib/src/bitfields/bitfield_gicv2.c: rows of `bitfield_gicdv2_table`.
use maplesyrup.Base.{List, [], ◌∷◌}
use maplesyrup.Structs.{BitfieldInfo, ns_privilege_level_1}
use maplesyrup.Bitfields.{row}
use maplesyrup.Registers.{
  ms_gic_gicd_cpendsgir, ms_gic_gicd_ctlr, ms_gic_gicd_icactiver, ms_gic_gicd_icfgr,
  ms_gic_gicd_icpendr, ms_gic_gicd_icpidr2, ms_gic_gicd_ident, ms_gic_gicd_igroupr,
  ms_gic_gicd_iidr, ms_gic_gicd_imp_def_00, ms_gic_gicd_imp_def_01, ms_gic_gicd_ipriorityr,
  ms_gic_gicd_isactiver, ms_gic_gicd_isenabler, ms_gic_gicd_ispendr, ms_gic_gicd_itargetsr,
  ms_gic_gicd_nsacr, ms_gic_gicd_reserved_00, ms_gic_gicd_reserved_01, ms_gic_gicd_reserved_02,
  ms_gic_gicd_reserved_03, ms_gic_gicd_reserved_04, ms_gic_gicd_reserved_05, ms_gic_gicd_sgir,
  ms_gic_gicd_spendsgir, ms_gic_gicd_typer,
}

unfoldable pub gicd_rows : List BitfieldInfo
gicd_rows =
    row 1 0 ms_gic_gicd_ctlr ns_privilege_level_1 0 1 "Enable" "gicd" "GICD_CTLR"
      "Enable forwarding of Group 1 interrupts to CPU interface"
    ∷ row 1 1 ms_gic_gicd_ctlr ns_privilege_level_1 1 31 "Reserved" "gicd" "GICD_CTLR" "Reserved"
    ∷ row 1 0 ms_gic_gicd_typer ns_privilege_level_1 0 5 "ITLinesNumber" "gicd" "GICD_TYPER"
        "Indicates the maximum number of interrupts that the GIC supports. 32(ITLinesNumber + 1)"
    ∷ row 1 1 ms_gic_gicd_typer ns_privilege_level_1 5 3 "CPUNumber" "gicd" "GICD_TYPER"
        "Indicates the number of implemented CPU interfaces"
    ∷ row 1 2 ms_gic_gicd_typer ns_privilege_level_1 8 2 "Reserved" "gicd" "GICD_TYPER" "Reserved"
    ∷ row 1 3 ms_gic_gicd_typer ns_privilege_level_1 10 1 "SecurityExtn" "gicd" "GICD_TYPER"
        "Indicates whether the GIC implements the Security Extensions"
    ∷ row 1 4 ms_gic_gicd_typer ns_privilege_level_1 11 5 "LSPI" "gicd" "GICD_TYPER"
        "The maximum number of implemented lockable SPIs"
    ∷ row 1 5 ms_gic_gicd_typer ns_privilege_level_1 16 16 "Reserved" "gicd" "GICD_TYPER" "Reserved"
    ∷ row 1 0 ms_gic_gicd_iidr ns_privilege_level_1 0 12 "Implementer" "gicd" "GICD_IIDR"
        "Contains the JEP106 of the company that implemented the GIC Distributor"
    ∷ row 1 1 ms_gic_gicd_iidr ns_privilege_level_1 12 4 "Revision" "gicd" "GICD_IIDR"
        "Denotes minor revisions of a product"
    ∷ row 1 2 ms_gic_gicd_iidr ns_privilege_level_1 16 4 "Variant" "gicd" "GICD_IIDR"
        "Distinguishes product variations, or major revisions of a product"
    ∷ row 1 3 ms_gic_gicd_iidr ns_privilege_level_1 20 4 "Reserved" "gicd" "GICD_IIDR" "Reserved"
    ∷ row 1 4 ms_gic_gicd_iidr ns_privilege_level_1 24 8 "ProductID" "gicd" "GICD_IIDR"
        "Implementation defined product identifier"
    ∷ row 5 0 ms_gic_gicd_reserved_00 ns_privilege_level_1 0 32 "Reserved" "gicd" "GICD_RESERVED_00"
        "Reserved"
    ∷ row 8 0 ms_gic_gicd_imp_def_00 ns_privilege_level_1 0 32 "Implementation Defined" "gicd"
        "GICD_IMP_DEF_00" "Implementation Defined"
    ∷ row 16 0 ms_gic_gicd_reserved_01 ns_privilege_level_1 0 32 "Reserved" "gicd"
        "GICD_RESERVED_01" "Reserved"
    ∷ row 32 0 ms_gic_gicd_igroupr ns_privilege_level_1 0 32 "Group status bits" "gicd"
        "GICD_IGROUPR" "Group number for interrupt (0 or 1)"
    ∷ row 32 0 ms_gic_gicd_isenabler ns_privilege_level_1 0 32 "Set-enable bits" "gicd"
        "GICD_ISENABLER" "Enable forwarding of interrupt from Distributor to CPU interface"
    ∷ row 32 0 ms_gic_gicd_ispendr ns_privilege_level_1 0 32 "Set-pending bits" "gicd"
        "GICD_ISPENDR" "Identifies whether an interrupt is pending"
    ∷ row 32 0 ms_gic_gicd_icpendr ns_privilege_level_1 0 32 "Clear-pending bits" "gicd"
        "GICD_ICPENDR" "Identifies whether an interrupt is pending"
    ∷ row 32 0 ms_gic_gicd_isactiver ns_privilege_level_1 0 32 "Set-active bits" "gicd"
        "GICD_ISACTIVER" "Activates an interrupt"
    ∷ row 32 0 ms_gic_gicd_icactiver ns_privilege_level_1 0 32 "Clear-active bits" "gicd"
        "GICD_ICACTIVER" "Deactivates an interrupt"
    ∷ row 256 0 ms_gic_gicd_ipriorityr ns_privilege_level_1 0 8 "Priority 0" "gicd"
        "GICD_IPRIORITYR" "The lower the value, the greater the priority of the interrupt"
    ∷ row 256 1 ms_gic_gicd_ipriorityr ns_privilege_level_1 8 8 "Priority 1" "gicd"
        "GICD_IPRIORITYR" "The lower the value, the greater the priority of the interrupt"
    ∷ row 256 2 ms_gic_gicd_ipriorityr ns_privilege_level_1 16 8 "Priority 2" "gicd"
        "GICD_IPRIORITYR" "The lower the value, the greater the priority of the interrupt"
    ∷ row 256 3 ms_gic_gicd_ipriorityr ns_privilege_level_1 24 8 "Priority 3" "gicd"
        "GICD_IPRIORITYR" "The lower the value, the greater the priority of the interrupt"
    ∷ row 1 0 ms_gic_gicd_reserved_02 ns_privilege_level_1 0 32 "Reserved" "gicd" "GICD_RESERVED_02"
        "Reserved"
    ∷ row 64 0 ms_gic_gicd_itargetsr ns_privilege_level_1 0 8 "CPU Targets 0" "gicd"
        "GICD_ITARGETSR" "List of target processors for the interrupt"
    ∷ row 64 1 ms_gic_gicd_itargetsr ns_privilege_level_1 8 8 "CPU Targets 1" "gicd"
        "GICD_ITARGETSR" "List of target processors for the interrupt"
    ∷ row 64 2 ms_gic_gicd_itargetsr ns_privilege_level_1 16 8 "CPU Targets 2" "gicd"
        "GICD_ITARGETSR" "List of target processors for the interrupt"
    ∷ row 64 3 ms_gic_gicd_itargetsr ns_privilege_level_1 24 8 "CPU Targets 3" "gicd"
        "GICD_ITARGETSR" "List of target processors for the interrupt"
    ∷ row 1 0 ms_gic_gicd_reserved_03 ns_privilege_level_1 0 32 "Reserved" "gicd" "GICD_RESERVED_03"
        "Reserved"
    ∷ row 128 0 ms_gic_gicd_icfgr ns_privilege_level_1 0 2 "Int_config" "gicd" "GICD_ICFGR"
        "Interrupt is level-sensitive of edge-triggered"
    ∷ row 128 1 ms_gic_gicd_icfgr ns_privilege_level_1 2 2 "Int_config" "gicd" "GICD_ICFGR"
        "Interrupt is level-sensitive of edge-triggered"
    ∷ row 128 2 ms_gic_gicd_icfgr ns_privilege_level_1 4 2 "Int_config" "gicd" "GICD_ICFGR"
        "Interrupt is level-sensitive of edge-triggered"
    ∷ row 128 3 ms_gic_gicd_icfgr ns_privilege_level_1 6 2 "Int_config" "gicd" "GICD_ICFGR"
        "Interrupt is level-sensitive of edge-triggered"
    ∷ row 128 4 ms_gic_gicd_icfgr ns_privilege_level_1 8 2 "Int_config" "gicd" "GICD_ICFGR"
        "Interrupt is level-sensitive of edge-triggered"
    ∷ row 128 5 ms_gic_gicd_icfgr ns_privilege_level_1 10 2 "Int_config" "gicd" "GICD_ICFGR"
        "Interrupt is level-sensitive of edge-triggered"
    ∷ row 128 6 ms_gic_gicd_icfgr ns_privilege_level_1 12 2 "Int_config" "gicd" "GICD_ICFGR"
        "Interrupt is level-sensitive of edge-triggered"
    ∷ row 128 7 ms_gic_gicd_icfgr ns_privilege_level_1 14 2 "Int_config" "gicd" "GICD_ICFGR"
        "Interrupt is level-sensitive of edge-triggered"
    ∷ row 128 8 ms_gic_gicd_icfgr ns_privilege_level_1 16 2 "Int_config" "gicd" "GICD_ICFGR"
        "Interrupt is level-sensitive of edge-triggered"
    ∷ row 128 9 ms_gic_gicd_icfgr ns_privilege_level_1 18 2 "Int_config" "gicd" "GICD_ICFGR"
        "Interrupt is level-sensitive of edge-triggered"
    ∷ row 128 10 ms_gic_gicd_icfgr ns_privilege_level_1 20 2 "Int_config" "gicd" "GICD_ICFGR"
        "Interrupt is level-sensitive of edge-triggered"
    ∷ row 128 11 ms_gic_gicd_icfgr ns_privilege_level_1 22 2 "Int_config" "gicd" "GICD_ICFGR"
        "Interrupt is level-sensitive of edge-triggered"
    ∷ row 128 12 ms_gic_gicd_icfgr ns_privilege_level_1 24 2 "Int_config" "gicd" "GICD_ICFGR"
        "Interrupt is level-sensitive of edge-triggered"
    ∷ row 128 13 ms_gic_gicd_icfgr ns_privilege_level_1 26 2 "Int_config" "gicd" "GICD_ICFGR"
        "Interrupt is level-sensitive of edge-triggered"
    ∷ row 128 14 ms_gic_gicd_icfgr ns_privilege_level_1 28 2 "Int_config" "gicd" "GICD_ICFGR"
        "Interrupt is level-sensitive of edge-triggered"
    ∷ row 128 15 ms_gic_gicd_icfgr ns_privilege_level_1 30 2 "Int_config" "gicd" "GICD_ICFGR"
        "Interrupt is level-sensitive of edge-triggered"
    ∷ row 32 0 ms_gic_gicd_imp_def_01 ns_privilege_level_1 0 32 "Implementation Defined" "gicd"
        "GICD_IMP_DEF_01" "Implementation Defined"
    ∷ row 64 0 ms_gic_gicd_nsacr ns_privilege_level_1 0 2 "NS_access" "gicd" "GICD_NSACR"
        "Configures level of non-secure access permittted"
    ∷ row 64 1 ms_gic_gicd_nsacr ns_privilege_level_1 2 2 "NS_access" "gicd" "GICD_NSACR"
        "Configures level of non-secure access permittted"
    ∷ row 64 2 ms_gic_gicd_nsacr ns_privilege_level_1 4 2 "NS_access" "gicd" "GICD_NSACR"
        "Configures level of non-secure access permittted"
    ∷ row 64 3 ms_gic_gicd_nsacr ns_privilege_level_1 6 2 "NS_access" "gicd" "GICD_NSACR"
        "Configures level of non-secure access permittted"
    ∷ row 64 4 ms_gic_gicd_nsacr ns_privilege_level_1 8 2 "NS_access" "gicd" "GICD_NSACR"
        "Configures level of non-secure access permittted"
    ∷ row 64 5 ms_gic_gicd_nsacr ns_privilege_level_1 10 2 "NS_access" "gicd" "GICD_NSACR"
        "Configures level of non-secure access permittted"
    ∷ row 64 6 ms_gic_gicd_nsacr ns_privilege_level_1 12 2 "NS_access" "gicd" "GICD_NSACR"
        "Configures level of non-secure access permittted"
    ∷ row 64 7 ms_gic_gicd_nsacr ns_privilege_level_1 14 2 "NS_access" "gicd" "GICD_NSACR"
        "Configures level of non-secure access permittted"
    ∷ row 64 8 ms_gic_gicd_nsacr ns_privilege_level_1 16 2 "NS_access" "gicd" "GICD_NSACR"
        "Configures level of non-secure access permittted"
    ∷ row 64 9 ms_gic_gicd_nsacr ns_privilege_level_1 18 2 "NS_access" "gicd" "GICD_NSACR"
        "Configures level of non-secure access permittted"
    ∷ row 64 10 ms_gic_gicd_nsacr ns_privilege_level_1 20 2 "NS_access" "gicd" "GICD_NSACR"
        "Configures level of non-secure access permittted"
    ∷ row 64 11 ms_gic_gicd_nsacr ns_privilege_level_1 22 2 "NS_access" "gicd" "GICD_NSACR"
        "Configures level of non-secure access permittted"
    ∷ row 64 12 ms_gic_gicd_nsacr ns_privilege_level_1 24 2 "NS_access" "gicd" "GICD_NSACR"
        "Configures level of non-secure access permittted"
    ∷ row 64 13 ms_gic_gicd_nsacr ns_privilege_level_1 26 2 "NS_access" "gicd" "GICD_NSACR"
        "Configures level of non-secure access permittted"
    ∷ row 64 14 ms_gic_gicd_nsacr ns_privilege_level_1 28 2 "NS_access" "gicd" "GICD_NSACR"
        "Configures level of non-secure access permittted"
    ∷ row 64 15 ms_gic_gicd_nsacr ns_privilege_level_1 30 2 "NS_access" "gicd" "GICD_NSACR"
        "Configures level of non-secure access permittted"
    ∷ row 1 0 ms_gic_gicd_sgir ns_privilege_level_1 0 4 "SGIINTD" "gicd" "GICD_SGIR"
        "Interrupt ID of SGI to forward to specified CPU interface"
    ∷ row 1 1 ms_gic_gicd_sgir ns_privilege_level_1 4 11 "Reserved" "gicd" "GICD_SGIR" "Reserved"
    ∷ row 1 2 ms_gic_gicd_sgir ns_privilege_level_1 15 1 "NSATT" "gicd" "GICD_SGIR"
        "Required security value of the SGI"
    ∷ row 1 3 ms_gic_gicd_sgir ns_privilege_level_1 16 8 "CPUTargetList" "gicd" "GICD_SGIR"
        "Defines the CPU interface to which the Distributor must forward the interrupt"
    ∷ row 1 4 ms_gic_gicd_sgir ns_privilege_level_1 24 2 "TargetListFilter" "gicd" "GICD_SGIR"
        "Determines how the Distributor must forward the requested SGI"
    ∷ row 1 5 ms_gic_gicd_sgir ns_privilege_level_1 26 6 "Reserved" "gicd" "GICD_SGIR" "Reserved"
    ∷ row 3 0 ms_gic_gicd_reserved_04 ns_privilege_level_1 0 4 "Reserved" "gicd" "GICD_RESERVED_04"
        "Reserved"
    ∷ row 4 0 ms_gic_gicd_cpendsgir ns_privilege_level_1 0 8 "SGI clear-pending 0" "gicd"
        "GICD_CPENDSGIR" "Indicates whether the SGI is pending"
    ∷ row 4 1 ms_gic_gicd_cpendsgir ns_privilege_level_1 8 8 "SGI clear-pending 1" "gicd"
        "GICD_CPENDSGIR" "Indicates whether the SGI is pending"
    ∷ row 4 2 ms_gic_gicd_cpendsgir ns_privilege_level_1 16 8 "SGI clear-pending 2" "gicd"
        "GICD_CPENDSGIR" "Indicates whether the SGI is pending"
    ∷ row 4 3 ms_gic_gicd_cpendsgir ns_privilege_level_1 24 8 "SGI clear-pending 3" "gicd"
        "GICD_CPENDSGIR" "Indicates whether the SGI is pending"
    ∷ row 4 0 ms_gic_gicd_spendsgir ns_privilege_level_1 0 8 "SGI set-pending 0" "gicd"
        "GICD_SPENDSGIR" "Indicates whether the SGI is pending"
    ∷ row 4 1 ms_gic_gicd_spendsgir ns_privilege_level_1 8 8 "SGI set-pending 1" "gicd"
        "GICD_SPENDSGIR" "Indicates whether the SGI is pending"
    ∷ row 4 2 ms_gic_gicd_spendsgir ns_privilege_level_1 16 8 "SGI set-pending 2" "gicd"
        "GICD_SPENDSGIR" "Indicates whether the SGI is pending"
    ∷ row 4 3 ms_gic_gicd_spendsgir ns_privilege_level_1 24 8 "SGI set-pending 3" "gicd"
        "GICD_SPENDSGIR" "Indicates whether the SGI is pending"
    ∷ row 40 0 ms_gic_gicd_reserved_05 ns_privilege_level_1 0 32 "Reserved" "gicd"
        "GICD_RESERVED_05" "Reserved"
    ∷ row 12 0 ms_gic_gicd_ident ns_privilege_level_1 0 32 "Implementation Defined" "gicd"
        "GICD_IDENT" "Implementation Defined ID"
    ∷ row 1 0 ms_gic_gicd_icpidr2 ns_privilege_level_1 0 4 "Implementation Defined" "gicd"
        "GICD_ICPIDR2" "Implementation Defined"
    ∷ row 1 1 ms_gic_gicd_icpidr2 ns_privilege_level_1 4 4 "ArchRev" "gicd" "GICD_ICPIDR2"
        "Revision field for the GIC architecture"
    ∷ row 1 2 ms_gic_gicd_icpidr2 ns_privilege_level_1 8 24 "Implementation Defined" "gicd"
        "GICD_ICPIDR2" "Implementation Defined"
    ∷ []
