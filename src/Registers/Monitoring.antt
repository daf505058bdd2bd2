-- ===== src/Registers/Monitoring.antt =====
-- common/parse.h: register numbers.
use maplesyrup.Base.{ℕ}

abbrev pub ms_sysreg_nmrr : ℕ
ms_sysreg_nmrr = 42

abbrev pub ms_sysreg_prrr : ℕ
ms_sysreg_prrr = 43

abbrev pub ms_sysreg_sctlr : ℕ
ms_sysreg_sctlr = 44

abbrev pub ms_sysreg_ttbcr : ℕ
ms_sysreg_ttbcr = 45

abbrev pub ms_sysreg_ttbr0 : ℕ
ms_sysreg_ttbr0 = 46

abbrev pub ms_sysreg_ttbr0lpae : ℕ
ms_sysreg_ttbr0lpae = 47

abbrev pub ms_sysreg_ttbr1 : ℕ
ms_sysreg_ttbr1 = 48

abbrev pub ms_sysreg_ttbr1lpae : ℕ
ms_sysreg_ttbr1lpae = 49

abbrev pub ms_sysreg_contextidr : ℕ
ms_sysreg_contextidr = 50

abbrev pub ms_sysreg_amair : ℕ
ms_sysreg_amair = 51

abbrev pub ms_sysreg_amair0 : ℕ
ms_sysreg_amair0 = 52

abbrev pub ms_sysreg_amair1 : ℕ
ms_sysreg_amair1 = 53

abbrev pub ms_sysreg_amair2 : ℕ
ms_sysreg_amair2 = 54

abbrev pub ms_sysreg_dacr : ℕ
ms_sysreg_dacr = 55

abbrev pub ms_sysreg_mair : ℕ
ms_sysreg_mair = 56

abbrev pub ms_sysreg_mair0 : ℕ
ms_sysreg_mair0 = 57

abbrev pub ms_sysreg_mair1 : ℕ
ms_sysreg_mair1 = 58

abbrev pub ms_sysreg_dczid : ℕ
ms_sysreg_dczid = 59

abbrev pub ms_sysreg_tcr : ℕ
ms_sysreg_tcr = 60

abbrev pub ms_sysreg_actlr : ℕ
ms_sysreg_actlr = 61

abbrev pub ms_sysreg_cpacr : ℕ
ms_sysreg_cpacr = 62

abbrev pub ms_sysreg_fcseidr : ℕ
ms_sysreg_fcseidr = 63

abbrev pub ms_sysreg_rmr : ℕ
ms_sysreg_rmr = 64

abbrev pub ms_sysreg_rvbar : ℕ
ms_sysreg_rvbar = 65

abbrev pub ms_sysreg_pmccfiltr : ℕ
ms_sysreg_pmccfiltr = 66

abbrev pub ms_sysreg_pmcr : ℕ
ms_sysreg_pmcr = 67

abbrev pub ms_sysreg_pmccntr : ℕ
ms_sysreg_pmccntr = 68

abbrev pub ms_sysreg_pmceid0 : ℕ
ms_sysreg_pmceid0 = 69

abbrev pub ms_sysreg_pmceid1 : ℕ
ms_sysreg_pmceid1 = 70

abbrev pub ms_sysreg_pmcntenset : ℕ
ms_sysreg_pmcntenset = 71

abbrev pub ms_sysreg_pmcntenclr : ℕ
ms_sysreg_pmcntenclr = 72

abbrev pub ms_sysreg_pmintenset : ℕ
ms_sysreg_pmintenset = 73

abbrev pub ms_sysreg_pmintenclr : ℕ
ms_sysreg_pmintenclr = 74

abbrev pub ms_sysreg_pmovsclr : ℕ
ms_sysreg_pmovsclr = 75

abbrev pub ms_sysreg_pmovsr : ℕ
ms_sysreg_pmovsr = 76

abbrev pub ms_sysreg_pmovsset : ℕ
ms_sysreg_pmovsset = 77

abbrev pub ms_sysreg_pmselr : ℕ
ms_sysreg_pmselr = 78

abbrev pub ms_sysreg_pmswinc : ℕ
ms_sysreg_pmswinc = 79

abbrev pub ms_sysreg_pmuserenr : ℕ
ms_sysreg_pmuserenr = 80

abbrev pub ms_sysreg_pmxevcntr : ℕ
ms_sysreg_pmxevcntr = 81

abbrev pub ms_sysreg_pmxevtyper : ℕ
ms_sysreg_pmxevtyper = 82

abbrev pub ms_sysreg_ifar : ℕ
ms_sysreg_ifar = 83

abbrev pub ms_sysreg_ifsr : ℕ
ms_sysreg_ifsr = 84

abbrev pub ms_sysreg_adfsr : ℕ
ms_sysreg_adfsr = 85

abbrev pub ms_sysreg_aifsr : ℕ
ms_sysreg_aifsr = 86

abbrev pub ms_sysreg_dfar : ℕ
ms_sysreg_dfar = 87

abbrev pub ms_sysreg_dfsr : ℕ
ms_sysreg_dfsr = 88

abbrev pub ms_sysreg_afsr0 : ℕ
ms_sysreg_afsr0 = 89

abbrev pub ms_sysreg_afsr1 : ℕ
ms_sysreg_afsr1 = 90

abbrev pub ms_sysreg_esr : ℕ
ms_sysreg_esr = 91

abbrev pub ms_sysreg_far : ℕ
ms_sysreg_far = 92

abbrev pub ms_sysreg_par : ℕ
ms_sysreg_par = 93

abbrev pub ms_sysreg_fpexc : ℕ
ms_sysreg_fpexc = 94

abbrev pub ms_sysreg_fpscr : ℕ
ms_sysreg_fpscr = 95

abbrev pub ms_sysreg_fpsid : ℕ
ms_sysreg_fpsid = 96

abbrev pub ms_sysreg_mvfr0 : ℕ
ms_sysreg_mvfr0 = 97

abbrev pub ms_sysreg_mvfr1 : ℕ
ms_sysreg_mvfr1 = 98

abbrev pub ms_sysreg_mvfr2 : ℕ
ms_sysreg_mvfr2 = 99
