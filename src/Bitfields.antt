-- ===== src/Bitfields.antt =====
-- lib/src/bitfields: the tables of bitfields. Each table is a list of rows, in files that hold rows that
-- stand together in the source.
pub mod Armv7a
pub mod Armv8a
pub mod Gicd
pub mod Gicc
pub mod Tiling
pub mod Distinct
pub mod Sizes
mod Tests
use Prim.Native.String.{String}
use maplesyrup.Base.{ℕ, List, bit_or, cstr}
use maplesyrup.Structs.{
  BitfieldInfo, ns_privilege_level_0, ns_privilege_level_1, ns_privilege_level_2,
  s_privilege_level_0, s_privilege_level_1,
}

abbrev pub ns_all : ℕ
ns_all = bit_or (bit_or ns_privilege_level_0 ns_privilege_level_1) ns_privilege_level_2

abbrev pub s_all : ℕ
s_all = bit_or s_privilege_level_0 s_privilege_level_1

abbrev pub all_ns_s : ℕ
all_ns_s = bit_or ns_all s_all

-- A `bitfield_info` in braces.
abbrev pub row :
    (range uid register_uid ppl rightshift mask : ℕ)
    → (bitfield functional_group register_name description : String) → BitfieldInfo
row range uid register_uid ppl rightshift mask bitfield functional_group register_name description =
    record {
      range = range;
      uid = uid;
      register_uid = register_uid;
      ppl = ppl;
      rightshift = rightshift;
      mask = mask;
      bitfield = cstr bitfield;
      functional_group = cstr functional_group;
      register_name = cstr register_name;
      description = cstr description;
    }
