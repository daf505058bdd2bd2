-- ===== src/Registers/Gic.antt =====
-- common/parse.h: registers of the interrupt controller, by their offsets.
use maplesyrup.Base.{ℕ}

abbrev pub ms_gic_gicc_ctlr : ℕ
ms_gic_gicc_ctlr = 0

abbrev pub ms_gic_gicc_pmr : ℕ
ms_gic_gicc_pmr = 4

abbrev pub ms_gic_gicc_bpr : ℕ
ms_gic_gicc_bpr = 8

abbrev pub ms_gic_gicc_iar : ℕ
ms_gic_gicc_iar = 12

abbrev pub ms_gic_gicc_eoir : ℕ
ms_gic_gicc_eoir = 16

abbrev pub ms_gic_gicc_rpr : ℕ
ms_gic_gicc_rpr = 20

abbrev pub ms_gic_gicc_hppir : ℕ
ms_gic_gicc_hppir = 24

abbrev pub ms_gic_gicc_abpr : ℕ
ms_gic_gicc_abpr = 28

abbrev pub ms_gic_gicc_aiar : ℕ
ms_gic_gicc_aiar = 32

abbrev pub ms_gic_gicc_aeoir : ℕ
ms_gic_gicc_aeoir = 36

abbrev pub ms_gic_gicc_ahppir : ℕ
ms_gic_gicc_ahppir = 40

abbrev pub ms_gic_gicc_reserved_00 : ℕ
ms_gic_gicc_reserved_00 = 44

abbrev pub ms_gic_gicc_impl_def_00 : ℕ
ms_gic_gicc_impl_def_00 = 64

abbrev pub ms_gic_gicc_apr : ℕ
ms_gic_gicc_apr = 208

abbrev pub ms_gic_gicc_nsapr : ℕ
ms_gic_gicc_nsapr = 224

abbrev pub ms_gic_gicc_reserved_01 : ℕ
ms_gic_gicc_reserved_01 = 240

abbrev pub ms_gic_gicc_iidr : ℕ
ms_gic_gicc_iidr = 252

abbrev pub ms_gic_gicc_dir : ℕ
ms_gic_gicc_dir = 4096

abbrev pub ms_gic_gicd_ctlr : ℕ
ms_gic_gicd_ctlr = 0

abbrev pub ms_gic_gicd_typer : ℕ
ms_gic_gicd_typer = 4

abbrev pub ms_gic_gicd_iidr : ℕ
ms_gic_gicd_iidr = 8

abbrev pub ms_gic_gicd_reserved_00 : ℕ
ms_gic_gicd_reserved_00 = 12

abbrev pub ms_gic_gicd_imp_def_00 : ℕ
ms_gic_gicd_imp_def_00 = 32

abbrev pub ms_gic_gicd_reserved_01 : ℕ
ms_gic_gicd_reserved_01 = 64

abbrev pub ms_gic_gicd_igroupr : ℕ
ms_gic_gicd_igroupr = 128

abbrev pub ms_gic_gicd_isenabler : ℕ
ms_gic_gicd_isenabler = 256

abbrev pub ms_gic_gicd_ispendr : ℕ
ms_gic_gicd_ispendr = 512

abbrev pub ms_gic_gicd_icpendr : ℕ
ms_gic_gicd_icpendr = 640

abbrev pub ms_gic_gicd_isactiver : ℕ
ms_gic_gicd_isactiver = 768

abbrev pub ms_gic_gicd_icactiver : ℕ
ms_gic_gicd_icactiver = 896

abbrev pub ms_gic_gicd_ipriorityr : ℕ
ms_gic_gicd_ipriorityr = 1024

abbrev pub ms_gic_gicd_reserved_02 : ℕ
ms_gic_gicd_reserved_02 = 2044

abbrev pub ms_gic_gicd_itargetsr : ℕ
ms_gic_gicd_itargetsr = 2048

abbrev pub ms_gic_gicd_reserved_03 : ℕ
ms_gic_gicd_reserved_03 = 3068

abbrev pub ms_gic_gicd_icfgr : ℕ
ms_gic_gicd_icfgr = 3072

abbrev pub ms_gic_gicd_imp_def_01 : ℕ
ms_gic_gicd_imp_def_01 = 3328

abbrev pub ms_gic_gicd_nsacr : ℕ
ms_gic_gicd_nsacr = 3584

abbrev pub ms_gic_gicd_sgir : ℕ
ms_gic_gicd_sgir = 3840

abbrev pub ms_gic_gicd_reserved_04 : ℕ
ms_gic_gicd_reserved_04 = 3844

abbrev pub ms_gic_gicd_cpendsgir : ℕ
ms_gic_gicd_cpendsgir = 3856

abbrev pub ms_gic_gicd_spendsgir : ℕ
ms_gic_gicd_spendsgir = 3872

abbrev pub ms_gic_gicd_reserved_05 : ℕ
ms_gic_gicd_reserved_05 = 3888

abbrev pub ms_gic_gicd_ident : ℕ
ms_gic_gicd_ident = 4048

abbrev pub ms_gic_gicd_icpidr2 : ℕ
ms_gic_gicd_icpidr2 = 4072
