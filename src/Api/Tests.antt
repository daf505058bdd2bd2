-- ===== src/Api/Tests.antt =====
-- Arrays of results.
use maplesyrup.Base.{
  ◌^◌, ◌-◌, keep, ◌≡◌, refl, length, arith, true, false, none, some, [], ◌∷◌, map, cstr,
}
use maplesyrup.Structs.{failure, type_arch, arch_armv7a}
use maplesyrup.Env.{Env, illegal, fault}
use maplesyrup.Env.Yields.{Yields}
use maplesyrup.Breakout.Listing.Distinct.{listed}
use maplesyrup.Breakout.Tables.{BitfieldTableEntry, erase_tables}
use maplesyrup.Breakout.Tables.Expand.{expand, row_entries, AreSized}
use maplesyrup.Api.{ms_free_result, MsBitfieldInfo, read_field}
use maplesyrup.Api.Flat.{element_of}
use maplesyrup.Api.Getters.{read_field-outcome}
use maplesyrup.Api.Lists.{ms_get_bitfields}
use maplesyrup.Api.Match.{strtoll_16, architecture_of, implementation_of}
use maplesyrup.Api.Find.{Machine, ms_find_by_register}
use maplesyrup.Api.Find.Value.{request_of, value_array, ms_find_by_register-value}
use maplesyrup.Mscode.{mscode, mscode_partnumber}
use maplesyrup.Breakout.Tables.{system_entry}
use maplesyrup.Breakout.Search.{matches, applies}
use maplesyrup.Breakout.Search.Keep.{wanted}
use maplesyrup.Api.Whole.{loaded_globals, ms_get_bitfields-table}

abbrev quiet : Env
quiet = record {
  alloc = λ n. true;
  ioctl = λ n cmd d. none;
  execute = λ n code. illegal;
  device_open = false;
}

abbrev only : MsBitfieldInfo
only = record {
  cpu = 0;
  epl = 2;
  uid = 16;
  status = 0;
  array_elements = 1;
  part_number = [];
  part_number_table = [];
  stamp = [];
  bitfield = [];
  functional_group = [];
  register_name = [];
  description = [];
  value = 5;
}

-- The index that is one too large is taken for an index.
read_field-outcome_example : read_field (λ x. x.value) 0 (some (only ∷ [])) 1 quiet ≡ fault
read_field-outcome_example = read_field-outcome (λ x. x.value) 0 only [] 1 quiet (refl, tt)

abbrev midr_row : BitfieldTableEntry
midr_row = record {
  table_type = type_arch;
  part_number = arch_armv7a;
  table_ptr =
      record {
        range = 0;
        uid = 0;
        register_uid = 1;
        ppl = 2;
        rightshift = 0;
        mask = 4;
        bitfield = cstr "REVISION";
        functional_group = cstr "ID";
        register_name = cstr "MIDR";
        description = cstr "";
      }
      ∷ [];
  table_size_ptr = 1;
  table_compsize_ptr = none;
}

sized : AreSized (midr_row ∷ [])
sized = (
  (
    record {
      system = λ h. refl;
      device_size = λ h. absurd (omega arith);
      device_compsize = λ h. absurd (omega arith);
      names = (omega arith, tt);
    },
    tt,
  ),
  omega arith,
)

ms_get_bitfields-table_example :
    Yields
      (ms_get_bitfields (midr_row ∷ []) (record { table_heap = none; table_size = 0 }) true 0)
      (
        some (
            map
              (element_of
                (expand 0 0 (midr_row ∷ []))
                (length (map listed (expand 0 0 (midr_row ∷ [])))))
              (map listed (expand 0 0 (midr_row ∷ [])))),
        erase_tables (loaded_globals 0 (midr_row ∷ [])),
      )
unfolding expand row_entries
ms_get_bitfields-table_example =
    ms_get_bitfields-table (midr_row ∷ []) (record { table_heap = none; table_size = 0 }) 0 sized
      (tt, tt) (λ e. cc e)

abbrev machine : Machine
machine = record {
  aarch64 = false;
  func_table = [];
  rows = midr_row ∷ [];
  signals = true;
  opens = false;
  erange = false;
}

ms_find_by_register-value_example :
    Yields
      (ms_find_by_register machine
        (record { table_heap = none; table_size = 0 })
        (some (cstr "armv7a"))
        (some (cstr "all"))
        (cstr "MIDR")
        0
        32
        0
        (some (cstr "0x410FC075"))
        0
        true)
      (
        some (
            value_array
              (expand 0 0 (midr_row ∷ []))
              (request_of false 0 7 0 32 0 (cstr "MIDR") (cstr "0x410FC075"))
              (keep
                (wanted (request_of false 0 7 0 32 0 (cstr "MIDR") (cstr "0x410FC075")))
                (expand 0 0 (midr_row ∷ [])))),
        erase_tables (loaded_globals 0 (midr_row ∷ [])),
      )
unfolding request_of matches applies mscode mscode_partnumber expand row_entries system_entry
    architecture_of implementation_of
ms_find_by_register-value_example =
    ms_find_by_register-value machine (record { table_heap = none; table_size = 0 }) 0 sized
      (tt, tt) (cstr "armv7a") (cstr "all") (cstr "MIDR") (cstr "0x410FC075") 0 7 0 32 0 1 refl refl
      (λ e. omega arith) (λ e. cc e) (refl, tt)

-- A value with its top bit set is out of the range of a long long.
strtoll_top : strtoll_16 (cstr "0x8000000000000000") ≡ (2 ^ 63 - 1, true)
unfolding strtoll_16
strtoll_top = refl

strtoll_value : strtoll_16 (cstr " 410fC075") ≡ (0x410FC075, false)
unfolding strtoll_16
strtoll_value = refl

-- A result is freed once.
free_once : ms_free_result (ms_free_result (some (some (only ∷ [])))).1 ≡ (failure, some none)
unfolding ms_free_result
free_once = refl
