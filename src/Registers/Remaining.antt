-- ===== src/Registers/Remaining.antt =====
-- common/parse.h: register numbers.
use maplesyrup.Base.{ℕ}

abbrev pub ms_sysreg_cpumerrsr : ℕ
ms_sysreg_cpumerrsr = 150

abbrev pub ms_sysreg_l2merrsr : ℕ
ms_sysreg_l2merrsr = 151

abbrev pub ms_sysreg_il1data0 : ℕ
ms_sysreg_il1data0 = 152

abbrev pub ms_sysreg_il1data1 : ℕ
ms_sysreg_il1data1 = 153

abbrev pub ms_sysreg_il1data2 : ℕ
ms_sysreg_il1data2 = 154

abbrev pub ms_sysreg_il1data3 : ℕ
ms_sysreg_il1data3 = 155

abbrev pub ms_sysreg_dl1data0 : ℕ
ms_sysreg_dl1data0 = 156

abbrev pub ms_sysreg_dl1data1 : ℕ
ms_sysreg_dl1data1 = 157

abbrev pub ms_sysreg_dl1data2 : ℕ
ms_sysreg_dl1data2 = 158

abbrev pub ms_sysreg_dl1data3 : ℕ
ms_sysreg_dl1data3 = 159

abbrev pub ms_sysreg_l2actlr : ℕ
ms_sysreg_l2actlr = 160

abbrev pub ms_sysreg_l2ctlr : ℕ
ms_sysreg_l2ctlr = 161

abbrev pub ms_sysreg_l2ectlr : ℕ
ms_sysreg_l2ectlr = 162

abbrev pub ms_sysreg_l2pfr : ℕ
ms_sysreg_l2pfr = 163

abbrev pub ms_sysreg_actlr2 : ℕ
ms_sysreg_actlr2 = 164

abbrev pub ms_sysreg_cdbgdr0 : ℕ
ms_sysreg_cdbgdr0 = 165

abbrev pub ms_sysreg_cdbgdr1 : ℕ
ms_sysreg_cdbgdr1 = 166

abbrev pub ms_sysreg_cdbgdr2 : ℕ
ms_sysreg_cdbgdr2 = 167

abbrev pub ms_sysreg_cdbgdct : ℕ
ms_sysreg_cdbgdct = 168

abbrev pub ms_sysreg_cdbgict : ℕ
ms_sysreg_cdbgict = 169

abbrev pub ms_sysreg_cdbgdcd : ℕ
ms_sysreg_cdbgdcd = 170

abbrev pub ms_sysreg_cdbgicd : ℕ
ms_sysreg_cdbgicd = 171

abbrev pub ms_sysreg_cdbgtd : ℕ
ms_sysreg_cdbgtd = 172

abbrev pub ms_sysreg_cbar : ℕ
ms_sysreg_cbar = 173

abbrev pub ms_sysreg_cpuactlr : ℕ
ms_sysreg_cpuactlr = 174

abbrev pub ms_sysreg_cpuectlr : ℕ
ms_sysreg_cpuectlr = 175

abbrev pub ms_sysreg_nop01 : ℕ
ms_sysreg_nop01 = 176

abbrev pub ms_sysreg_nop02 : ℕ
ms_sysreg_nop02 = 177

abbrev pub ms_sysreg_tpidrprw : ℕ
ms_sysreg_tpidrprw = 178

abbrev pub ms_sysreg_tpidruro : ℕ
ms_sysreg_tpidruro = 179

abbrev pub ms_sysreg_tpidrurw : ℕ
ms_sysreg_tpidrurw = 180

abbrev pub ms_sysreg_htpidr : ℕ
ms_sysreg_htpidr = 181

abbrev pub ms_sysreg_apsr : ℕ
ms_sysreg_apsr = 182

abbrev pub ms_sysreg_cpsr : ℕ
ms_sysreg_cpsr = 183

abbrev pub ms_sysreg_spsr : ℕ
ms_sysreg_spsr = 184

abbrev pub ms_sysreg_currentel : ℕ
ms_sysreg_currentel = 185

abbrev pub ms_sysreg_daif : ℕ
ms_sysreg_daif = 186

abbrev pub ms_sysreg_fpcr : ℕ
ms_sysreg_fpcr = 187

abbrev pub ms_sysreg_fpsr : ℕ
ms_sysreg_fpsr = 188

abbrev pub ms_sysreg_nzcv : ℕ
ms_sysreg_nzcv = 189

abbrev pub ms_sysreg_spsel : ℕ
ms_sysreg_spsel = 190
