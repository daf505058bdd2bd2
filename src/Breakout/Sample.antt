-- ===== src/Breakout/Sample.antt =====
-- A small table in memory and requests to it: two bitfields of the MIDR and one of the CTR.
mod Tests
use maplesyrup.Base.{ℕ, ◌≡◌, refl, some, List, [], ◌∷◌, CString, cstr, arith}
use maplesyrup.Structs.{BitfieldInfoHeap, MatchInfo, type_arch, arch_armv7a, impl_all}
use maplesyrup.Breakout.Tables.{Globals}
use maplesyrup.Breakout.Lookup.First.{IsLoaded}
use maplesyrup.Breakout.Results.Indices.{Unique}

abbrev pub entry :
    (uid register_uid rightshift mask : ℕ) → (register_name bitfield : CString) → BitfieldInfoHeap
entry uid register_uid rightshift mask register_name bitfield = record {
  table_type = type_arch;
  register_name_expanded = register_name;
  range = 0;
  uid = uid;
  register_uid = register_uid;
  ppl = 2;
  rightshift = rightshift;
  mask = mask;
  bitfield = bitfield;
  functional_group = cstr "ID";
  description = cstr "";
}

abbrev pub revision : BitfieldInfoHeap
revision = entry 16 1 0 4 (cstr "MIDR") (cstr "REVISION")

abbrev pub partnum : BitfieldInfoHeap
partnum = entry 17 1 4 12 (cstr "MIDR") (cstr "PARTNUM")

abbrev pub cache_line : BitfieldInfoHeap
cache_line = entry 32 2 0 4 (cstr "CTR") (cstr "IMINLINE")

abbrev pub sample : List BitfieldInfoHeap
sample = revision ∷ partnum ∷ cache_line ∷ []

abbrev pub sample_globals : Globals
sample_globals = record {
  table_heap = some (record { capacity = 4; cells = sample });
  table_size = 3;
}

pub sample-IsLoaded : IsLoaded sample_globals sample
sample-IsLoaded = record { capacity = 4; heap = refl; size = refl }

pub sample-Unique : Unique sample
sample-Unique = ((λ e. omega arith, (λ e. omega arith, tt)), ((λ e. omega arith, tt), (tt, tt)))

-- A search for the MIDR of a Cortex-A7 whose value is known.
abbrev pub midr_value : ℕ
midr_value = 1091551349

abbrev pub request : MatchInfo
request = record {
  architecture = arch_armv7a;
  implementation = impl_all;
  functional_group = cstr "none";
  register_name = cstr "MIDR";
  uid = 5000;
  pl = 32;
  noparse = 0;
  cpu = 0;
  calc = 1;
  calc_value = midr_value;
}
