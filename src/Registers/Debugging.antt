-- ===== src/Registers/Debugging.antt =====
-- common/parse.h: register numbers.
use maplesyrup.Base.{ℕ}

abbrev pub ms_sysreg_dbgdidr : ℕ
ms_sysreg_dbgdidr = 100

abbrev pub ms_sysreg_dbgauthstatus : ℕ
ms_sysreg_dbgauthstatus = 101

abbrev pub ms_sysreg_dbgbcr : ℕ
ms_sysreg_dbgbcr = 102

abbrev pub ms_sysreg_dbgbvr : ℕ
ms_sysreg_dbgbvr = 103

abbrev pub ms_sysreg_dbgbxvr : ℕ
ms_sysreg_dbgbxvr = 104

abbrev pub ms_sysreg_dbgcid0 : ℕ
ms_sysreg_dbgcid0 = 105

abbrev pub ms_sysreg_dbgcid1 : ℕ
ms_sysreg_dbgcid1 = 106

abbrev pub ms_sysreg_dbgcid2 : ℕ
ms_sysreg_dbgcid2 = 107

abbrev pub ms_sysreg_dbgcid3 : ℕ
ms_sysreg_dbgcid3 = 108

abbrev pub ms_sysreg_dbgcidsr : ℕ
ms_sysreg_dbgcidsr = 109

abbrev pub ms_sysreg_dbgclaimclr : ℕ
ms_sysreg_dbgclaimclr = 110

abbrev pub ms_sysreg_dbgclaimset : ℕ
ms_sysreg_dbgclaimset = 111

abbrev pub ms_sysreg_dbgdevid : ℕ
ms_sysreg_dbgdevid = 112

abbrev pub ms_sysreg_dbgdevid1 : ℕ
ms_sysreg_dbgdevid1 = 113

abbrev pub ms_sysreg_dbgdevtype : ℕ
ms_sysreg_dbgdevtype = 114

abbrev pub ms_sysreg_dbgdrar : ℕ
ms_sysreg_dbgdrar = 115

abbrev pub ms_sysreg_dbgdrcr : ℕ
ms_sysreg_dbgdrcr = 116

abbrev pub ms_sysreg_dbgdsar : ℕ
ms_sysreg_dbgdsar = 117

abbrev pub ms_sysreg_dbgdsccr : ℕ
ms_sysreg_dbgdsccr = 118

abbrev pub ms_sysreg_dbgdscr : ℕ
ms_sysreg_dbgdscr = 119

abbrev pub ms_sysreg_dbgdsmcr : ℕ
ms_sysreg_dbgdsmcr = 120

abbrev pub ms_sysreg_dbgdtrrx : ℕ
ms_sysreg_dbgdtrrx = 121

abbrev pub ms_sysreg_dbgdtrtx : ℕ
ms_sysreg_dbgdtrtx = 122

abbrev pub ms_sysreg_dbgeacr : ℕ
ms_sysreg_dbgeacr = 123

abbrev pub ms_sysreg_dbgecr : ℕ
ms_sysreg_dbgecr = 124

abbrev pub ms_sysreg_dbgitctrl : ℕ
ms_sysreg_dbgitctrl = 125

abbrev pub ms_sysreg_dbgitr : ℕ
ms_sysreg_dbgitr = 126

abbrev pub ms_sysreg_dbglar : ℕ
ms_sysreg_dbglar = 127

abbrev pub ms_sysreg_dbglsr : ℕ
ms_sysreg_dbglsr = 128

abbrev pub ms_sysreg_dbgosdlr : ℕ
ms_sysreg_dbgosdlr = 129

abbrev pub ms_sysreg_dbgoslsr : ℕ
ms_sysreg_dbgoslsr = 130

abbrev pub ms_sysreg_dbgossrr : ℕ
ms_sysreg_dbgossrr = 131

abbrev pub ms_sysreg_dbgpcsr : ℕ
ms_sysreg_dbgpcsr = 132

abbrev pub ms_sysreg_dbgpid0 : ℕ
ms_sysreg_dbgpid0 = 133

abbrev pub ms_sysreg_dbgpid1 : ℕ
ms_sysreg_dbgpid1 = 134

abbrev pub ms_sysreg_dbgpid2 : ℕ
ms_sysreg_dbgpid2 = 135

abbrev pub ms_sysreg_dbgpid3 : ℕ
ms_sysreg_dbgpid3 = 136

abbrev pub ms_sysreg_dbgpid4 : ℕ
ms_sysreg_dbgpid4 = 137

abbrev pub ms_sysreg_dbgprcr : ℕ
ms_sysreg_dbgprcr = 138

abbrev pub ms_sysreg_dbgprsr : ℕ
ms_sysreg_dbgprsr = 139

abbrev pub ms_sysreg_dbgvcr : ℕ
ms_sysreg_dbgvcr = 140

abbrev pub ms_sysreg_dbgvidsr : ℕ
ms_sysreg_dbgvidsr = 141

abbrev pub ms_sysreg_dbgwcr : ℕ
ms_sysreg_dbgwcr = 142

abbrev pub ms_sysreg_dbgwfar : ℕ
ms_sysreg_dbgwfar = 143

abbrev pub ms_sysreg_dbgwvr : ℕ
ms_sysreg_dbgwvr = 144

abbrev pub ms_sysreg_jidr : ℕ
ms_sysreg_jidr = 145

abbrev pub ms_sysreg_jmcr : ℕ
ms_sysreg_jmcr = 146

abbrev pub ms_sysreg_joscr : ℕ
ms_sysreg_joscr = 147

abbrev pub ms_sysreg_teecr : ℕ
ms_sysreg_teecr = 148

abbrev pub ms_sysreg_teehbr : ℕ
ms_sysreg_teehbr = 149
