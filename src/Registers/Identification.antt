-- ===== src/Registers/Identification.antt =====
-- common/parse.h: register numbers.
use maplesyrup.Base.{ℕ}

abbrev pub ms_sysreg_pfr0 : ℕ
ms_sysreg_pfr0 = 1

abbrev pub ms_sysreg_pfr1 : ℕ
ms_sysreg_pfr1 = 2

abbrev pub ms_sysreg_dfr0 : ℕ
ms_sysreg_dfr0 = 3

abbrev pub ms_sysreg_afr0 : ℕ
ms_sysreg_afr0 = 4

abbrev pub ms_sysreg_mmfr0 : ℕ
ms_sysreg_mmfr0 = 5

abbrev pub ms_sysreg_mmfr1 : ℕ
ms_sysreg_mmfr1 = 6

abbrev pub ms_sysreg_mmfr2 : ℕ
ms_sysreg_mmfr2 = 7

abbrev pub ms_sysreg_mmfr3 : ℕ
ms_sysreg_mmfr3 = 8

abbrev pub ms_sysreg_mmfr4 : ℕ
ms_sysreg_mmfr4 = 9

abbrev pub ms_sysreg_isar0 : ℕ
ms_sysreg_isar0 = 10

abbrev pub ms_sysreg_isar1 : ℕ
ms_sysreg_isar1 = 11

abbrev pub ms_sysreg_isar2 : ℕ
ms_sysreg_isar2 = 12

abbrev pub ms_sysreg_isar3 : ℕ
ms_sysreg_isar3 = 13

abbrev pub ms_sysreg_isar4 : ℕ
ms_sysreg_isar4 = 14

abbrev pub ms_sysreg_isar5 : ℕ
ms_sysreg_isar5 = 15

abbrev pub ms_sysreg_revidr : ℕ
ms_sysreg_revidr = 16

abbrev pub ms_sysreg_tlbtr : ℕ
ms_sysreg_tlbtr = 17

abbrev pub ms_sysreg_ccsidr : ℕ
ms_sysreg_ccsidr = 18

abbrev pub ms_sysreg_tcmtr : ℕ
ms_sysreg_tcmtr = 19

abbrev pub ms_sysreg_aidr : ℕ
ms_sysreg_aidr = 20

abbrev pub ms_sysreg_clidr : ℕ
ms_sysreg_clidr = 21

abbrev pub ms_sysreg_csselr : ℕ
ms_sysreg_csselr = 22

abbrev pub ms_sysreg_ctr : ℕ
ms_sysreg_ctr = 23

abbrev pub ms_sysreg_midr : ℕ
ms_sysreg_midr = 24

abbrev pub ms_sysreg_mpidr : ℕ
ms_sysreg_mpidr = 25

abbrev pub ms_sysreg_aa64afr0 : ℕ
ms_sysreg_aa64afr0 = 26

abbrev pub ms_sysreg_aa64afr1 : ℕ
ms_sysreg_aa64afr1 = 27

abbrev pub ms_sysreg_aa64dfr0 : ℕ
ms_sysreg_aa64dfr0 = 28

abbrev pub ms_sysreg_aa64dfr1 : ℕ
ms_sysreg_aa64dfr1 = 29

abbrev pub ms_sysreg_aa64isar0 : ℕ
ms_sysreg_aa64isar0 = 30

abbrev pub ms_sysreg_aa64isar1 : ℕ
ms_sysreg_aa64isar1 = 31

abbrev pub ms_sysreg_aa64mmfr0 : ℕ
ms_sysreg_aa64mmfr0 = 32

abbrev pub ms_sysreg_aa64mmfr1 : ℕ
ms_sysreg_aa64mmfr1 = 33

abbrev pub ms_sysreg_aa64pfr0 : ℕ
ms_sysreg_aa64pfr0 = 34

abbrev pub ms_sysreg_aa64pfr1 : ℕ
ms_sysreg_aa64pfr1 = 35

abbrev pub ms_sysreg_isr : ℕ
ms_sysreg_isr = 36

abbrev pub ms_sysreg_mvbar : ℕ
ms_sysreg_mvbar = 37

abbrev pub ms_sysreg_nsacr : ℕ
ms_sysreg_nsacr = 38

abbrev pub ms_sysreg_scr : ℕ
ms_sysreg_scr = 39

abbrev pub ms_sysreg_sder : ℕ
ms_sysreg_sder = 40

abbrev pub ms_sysreg_vbar : ℕ
ms_sysreg_vbar = 41
