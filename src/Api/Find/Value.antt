-- ===== src/Api/Find/Value.antt =====
-- `ms_find_by_register` with a value that the caller supplies, from the texts to the array.
use maplesyrup.Base.{
  ℕ, ◌-◌, ◌≡◌, refl, sym, ◌≢◌, Bool, true, false, Option, some, List, [], ◌∷◌, map, keep, length,
  CString, strncpy, arith,
}
use mathlib.Core.Path.{subst}
use maplesyrup.Structs.{success, MatchInfo, BitfieldInfoHeap, parse_max_register}
use maplesyrup.Env.{pure}
use maplesyrup.Env.Yields.{Yields, bind-Yields, pure-Yields}
use maplesyrup.Breakout.Tables.{Globals, read_tables_to_memory, erase_tables}
use maplesyrup.Breakout.Tables.Expand.{expand, AreSized}
use maplesyrup.Breakout.Tables.Layout.{read_tables_to_memory-expand}
use maplesyrup.Breakout.Lookup.First.{IsLoaded}
use maplesyrup.Breakout.Search.Keep.{wanted}
use maplesyrup.Breakout.Results.Indices.{Unique}
use maplesyrup.Breakout.Results.Fields.{value_result}
use maplesyrup.Breakout.Find.{find_bitfields}
use maplesyrup.Breakout.Find.Supplied.{OneRegister, find_bitfields-supplied}
use maplesyrup.Api.{MsBitfieldInfo, flatten_results}
use maplesyrup.Api.Flat.{element_of, flatten_results-map}
use maplesyrup.Api.Whole.{loaded_globals, loaded_globals-IsLoaded}
use maplesyrup.Api.Match.{architecture_of, implementation_of, calc_of, set_match_info}
use maplesyrup.Api.Find.{
  Machine, run_search, search_started, ms_find, is_null, with_register, ms_find_by_register,
}

-- The request that the texts make.
unfoldable pub request_of :
    (erange : Bool) → (a i cpu pl noparse : ℕ) → (regname calc_value : CString) → MatchInfo
request_of erange a i cpu pl noparse regname calc_value = record {
  architecture = a;
  implementation = i;
  functional_group = [];
  register_name = strncpy regname (parse_max_register - 1);
  uid = 0;
  pl = pl;
  noparse = noparse;
  cpu = cpu;
  calc = 1;
  calc_value = (calc_of erange (some calc_value)).1;
}

-- The results of a search with a value, as an array.
abbrev pub value_array :
    List BitfieldInfoHeap → MatchInfo → List BitfieldInfoHeap → List MsBitfieldInfo
value_array table info xs =
    map (element_of table (length (map (value_result info.calc_value) xs)))
      (map (value_result info.calc_value) xs)

flatten-values :
    (g : Globals) (table xs : List BitfieldInfoHeap) (info : MatchInfo)
    → IsLoaded g table
    → xs ≢ []
    → Yields
        (flatten_results g (some (map (value_result info.calc_value) xs)))
        (some (value_array table info xs))
flatten-values g table [] info loaded some_there = absurd (some_there refl)
flatten-values g table (x ∷ xs) info loaded some_there =
    flatten_results-map g loaded (value_result info.calc_value x)
      (map (value_result info.calc_value) xs)

set_match_info-known :
    (erange : Bool) (arch impl regname calc_value : CString) (a i cpu pl noparse : ℕ)
    → architecture_of arch ≡ some a
    → implementation_of impl ≡ some i
    → with_register regname
        (set_match_info erange (some arch) (some impl) cpu pl noparse (some calc_value))
      ≡ some (request_of erange a i cpu pl noparse regname calc_value)
unfolding with_register set_match_info request_of
set_match_info-known erange arch impl regname calc_value a i cpu pl noparse known_a known_i =
    rw (with_register, set_match_info, known_a, known_i)

module _ (m : Machine) (g : Globals) (include_devices : ℕ) (sized : AreSized m.rows)
    (unique : Unique (expand include_devices 0 m.rows)) where
  run_search-value :
      (info : MatchInfo) (ioctl : ℕ)
      → info.calc ≢ 0
      → info.noparse ≢ 1
      → keep (wanted info) (expand include_devices 0 m.rows) ≢ []
      → OneRegister ioctl (keep (wanted info) (expand include_devices 0 m.rows))
      → Yields (run_search m g info include_devices) (
        some (
            value_array
              (expand include_devices 0 m.rows)
              info
              (keep (wanted info) (expand include_devices 0 m.rows))),
        loaded_globals include_devices m.rows,
      )
  unfolding run_search
  run_search-value info ioctl calc parsed there one =
      let table = expand include_devices 0 m.rows in
      let h = loaded_globals include_devices m.rows in
      let loaded = loaded_globals-IsLoaded include_devices m.rows in
      bind-Yields (read_tables_to_memory m.rows include_devices g) _
        ((read_tables_to_memory-expand m.rows include_devices g sized).0)
        (bind-Yields (find_bitfields m.aarch64 m.func_table h 0 (some info) (some [])) _
          (find_bitfields-supplied m.aarch64 m.func_table h table 0 ioctl info [] loaded unique calc
            parsed there one)
          (bind-Yields
            (flatten_results h
              (some (map (value_result info.calc_value) (keep (wanted info) table))))
            _ (flatten-values h table (keep (wanted info) table) info loaded there)
            (pure-Yields _)))

  ms_find-value :
      (info : MatchInfo) (ioctl : ℕ)
      → info.calc ≢ 0
      → info.noparse ≢ 1
      → keep (wanted info) (expand include_devices 0 m.rows) ≢ []
      → OneRegister ioctl (keep (wanted info) (expand include_devices 0 m.rows))
      → Yields (ms_find m g false (some info) include_devices) (
        some (
            value_array
              (expand include_devices 0 m.rows)
              info
              (keep (wanted info) (expand include_devices 0 m.rows))),
        erase_tables (loaded_globals include_devices m.rows),
      )
  unfolding ms_find search_started
  ms_find-value info ioctl calc parsed there one =
      bind-Yields (pure success) _ (pure-Yields success) (
        bind-Yields (run_search m g info include_devices) _
          (run_search-value info ioctl calc parsed there one)
          (bind-Yields (pure tt) _ (pure-Yields tt) (pure-Yields _)))

  -- With memory at hand, rows whose sizes are right, whose bytes fit an unsigned int and whose register names
  -- have fewer than 31 bytes, and entries that have distinct codes, a register
  -- search for bitfields, not for whole registers, with a supplied value and names of an architecture and an implementation that are known, whose
  -- matching entries, at least one, belong to one register, hands out one element for each of these, in
  -- order, with the bits of the value at its place. It opens no device, and leaves no table in memory.
  pub ms_find_by_register-value :
      (arch impl regname calc_value : CString) (a i cpu pl noparse ioctl : ℕ)
      → architecture_of arch ≡ some a
      → implementation_of impl ≡ some i
      → noparse ≢ 1
      → keep
          (wanted (request_of m.erange a i cpu pl noparse regname calc_value))
          (expand include_devices 0 m.rows)
        ≢ []
      → OneRegister ioctl (
          keep
            (wanted (request_of m.erange a i cpu pl noparse regname calc_value))
            (expand include_devices 0 m.rows))
      → Yields
          (ms_find_by_register m g
            (some arch)
            (some impl)
            regname
            cpu
            pl
            noparse
            (some calc_value)
            include_devices
            true)
          (
            some (
                value_array
                  (expand include_devices 0 m.rows)
                  (request_of m.erange a i cpu pl noparse regname calc_value)
                  (keep
                    (wanted (request_of m.erange a i cpu pl noparse regname calc_value))
                    (expand include_devices 0 m.rows))),
            erase_tables (loaded_globals include_devices m.rows),
          )
  unfolding ms_find_by_register is_null request_of
  ms_find_by_register-value arch impl regname calc_value a i cpu pl noparse ioctl known_a known_i
        parsed there one =
      subst
        (λ (o : Option MatchInfo). Yields (ms_find m g false o include_devices) (
          some (
              value_array (expand include_devices 0 m.rows)
                (request_of m.erange a i cpu pl noparse regname calc_value)
                (keep (wanted (request_of m.erange a i cpu pl noparse regname calc_value))
                  (expand include_devices 0 m.rows))),
          erase_tables (loaded_globals include_devices m.rows),
        ))
        (sym (
          set_match_info-known m.erange arch impl regname calc_value a i cpu pl noparse known_a
            known_i))
        (ms_find-value (request_of m.erange a i cpu pl noparse regname calc_value) ioctl
          (λ e. omega arith) parsed there one)
