-- ===== src/Structs.antt =====
-- The constants and structures that the parts of the program share: common/parse.h,
-- common/ms_error.h, lib/include/maplesyrup.h and lib/src/parse_breakout.h. The links of the list
-- elements are left to `Support`; elsewhere a list of the program is a list of these records.
use maplesyrup.Base.{ℕ, ◌-◌, ◌^◌, CString, List}

-- A C `unsigned int` that was given -1.
abbrev pub minus_one : ℕ
minus_one = 2 ^ 32 - 1

-- The status that most functions return: 0 and -1.
pub data Status : Type 0 where
  success failure : Status

abbrev pub ms_max_cpus : ℕ
ms_max_cpus = 8

abbrev pub parse_max_description : ℕ
parse_max_description = 256

abbrev pub parse_max_bitfield : ℕ
parse_max_bitfield = 64

abbrev pub parse_max_functional : ℕ
parse_max_functional = 64

abbrev pub parse_max_register : ℕ
parse_max_register = 32

abbrev pub parse_max_partnumber : ℕ
parse_max_partnumber = 64

abbrev pub parse_max_architecture : ℕ
parse_max_architecture = 16

abbrev pub parse_max_implementation : ℕ
parse_max_implementation = 16

-- Kinds of table
abbrev pub type_impl : ℕ
type_impl = 0

abbrev pub type_arch : ℕ
type_arch = 1

abbrev pub type_mm : ℕ
type_mm = 2

-- Privilege levels, one bit each
abbrev pub ns_privilege_level_0 : ℕ
ns_privilege_level_0 = 1

abbrev pub ns_privilege_level_1 : ℕ
ns_privilege_level_1 = 2

abbrev pub ns_privilege_level_2 : ℕ
ns_privilege_level_2 = 4

abbrev pub s_privilege_level_0 : ℕ
s_privilege_level_0 = 8

abbrev pub s_privilege_level_1 : ℕ
s_privilege_level_1 = 16

abbrev pub preferred_pl : ℕ
preferred_pl = 32

-- Part numbers
abbrev pub arch_armv7a : ℕ
arch_armv7a = 0

abbrev pub arch_armv8a : ℕ
arch_armv8a = 1

abbrev pub impl_cortex_a7 : ℕ
impl_cortex_a7 = 2

abbrev pub impl_cortex_a9 : ℕ
impl_cortex_a9 = 3

abbrev pub impl_cortex_a15 : ℕ
impl_cortex_a15 = 4

abbrev pub impl_cortex_a53 : ℕ
impl_cortex_a53 = 5

abbrev pub impl_cortex_a57 : ℕ
impl_cortex_a57 = 6

abbrev pub impl_all : ℕ
impl_all = 7

abbrev pub gicc_v2 : ℕ
gicc_v2 = 8

abbrev pub gicd_v2 : ℕ
gicd_v2 = 9

abbrev pub gich_v2 : ℕ
gich_v2 = 10

abbrev pub gicv_v2 : ℕ
gicv_v2 = 11

-- Error codes of common/ms_error.h
abbrev pub ms_error_success : ℕ
ms_error_success = 0

abbrev pub ms_error_illinst : ℕ
ms_error_illinst = 1

abbrev pub ms_error_undefinst : ℕ
ms_error_undefinst = 2

abbrev pub ms_error_smp : ℕ
ms_error_smp = 3

abbrev pub ms_error_smp_single : ℕ
ms_error_smp_single = 4

abbrev pub ms_error_noresult : ℕ
ms_error_noresult = 5

abbrev pub ms_error_table : ℕ
ms_error_table = 6

pub record MsData : Type 0 where
  pub cpu : ℕ
  pub midr : ℕ
  pub in1 : ℕ
  pub in2 : ℕ
  pub out64 : ℕ
  pub out1 : ℕ
  pub out2 : ℕ
  pub status : ℕ

-- `cpu` holds `ms_max_cpus` entries.
pub record MsDataCpu : Type 0 where
  pub code : ℕ
  pub pcpu : ℕ
  pub part_number : ℕ
  pub cpu : List MsData

pub record BitfieldInfo : Type 0 where
  pub range : ℕ
  pub uid : ℕ
  pub register_uid : ℕ
  pub ppl : ℕ
  pub rightshift : ℕ
  pub mask : ℕ
  pub bitfield : CString
  pub functional_group : CString
  pub register_name : CString
  pub description : CString

-- A `bitfield_info_heap` with its `info` written out. Nothing sets or reads `info.register_name`.
pub record BitfieldInfoHeap : Type 0 where
  pub table_type : ℕ
  pub register_name_expanded : CString
  pub range : ℕ
  pub uid : ℕ
  pub register_uid : ℕ
  pub ppl : ℕ
  pub rightshift : ℕ
  pub mask : ℕ
  pub bitfield : CString
  pub functional_group : CString
  pub description : CString

pub record BitfieldInfoPopulated : Type 0 where
  pub cpu : ℕ
  pub epl : ℕ
  pub uid : ℕ
  pub ioctl : ℕ
  pub midr : ℕ
  pub status : ℕ
  pub bitfield : CString
  pub functional_group : CString
  pub register_name : CString
  pub description : CString
  pub value : ℕ
  pub uvalue : ℕ

pub record MatchInfo : Type 0 where
  pub architecture : ℕ
  pub implementation : ℕ
  pub functional_group : CString
  pub register_name : CString
  pub uid : ℕ
  pub pl : ℕ
  pub noparse : ℕ
  pub cpu : ℕ
  pub calc : ℕ
  pub calc_value : ℕ

pub record ResultsInfo : Type 0 where
  pub register_uid : ℕ
  pub uid : ℕ
  pub ppl : ℕ
  pub pl : ℕ
  pub cpu : ℕ
  pub noparse : ℕ
  pub part_number : ℕ
  pub calc : ℕ
  pub calc_value : ℕ

pub record UsedIoctl : Type 0 where
  pub register_uid : ℕ
  pub cpu : ℕ
  pub partnumber : ℕ

pub record IoctlResult : Type 0 where
  pub register_uid : ℕ
  pub val64 : ℕ
  pub low : ℕ
  pub high : ℕ
  pub cpu : ℕ
  pub midr : ℕ
  pub epl : ℕ
  pub status : ℕ
