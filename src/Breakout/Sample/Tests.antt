-- ===== src/Breakout/Sample/Tests.antt =====
-- The properties of lib/src/parse_breakout.c on the sample table.
use maplesyrup.Base.{
  ℕ, ◌≡◌, ◌≢◌, ◌↔◌, refl, true, false, Option, some, List, [], ◌∷◌, map, All, some_of, strncmp_eq,
  arith,
}
use maplesyrup.Structs.{
  success, BitfieldInfoPopulated, IoctlResult, UsedIoctl, parse_max_functional,
}
use maplesyrup.Mscode.{mscode_partnumber}
use maplesyrup.Env.Loop.{next, walk}
use maplesyrup.Env.Yields.{Plenty, Yields, Returns, fold}
use maplesyrup.Breakout.Lookup.{breakout_get_index}
use maplesyrup.Breakout.Lookup.Index.{Found, breakout_get_index-Found}
use maplesyrup.Breakout.Search.{matches, applies, breakout_search_table}
use maplesyrup.Breakout.Search.Keep.{match_of, breakout_search_table-keep}
use maplesyrup.Breakout.Results.{breakout_value_validate, breakout_parse_results}
use maplesyrup.Breakout.Results.Value.{IsFor, breakout_value_validate-All}
use maplesyrup.Breakout.Results.Fields.{value_result}
use maplesyrup.Breakout.Results.Rounds.{ioctl_round, breakout_parse_results-Yields}
use maplesyrup.Breakout.Listing.{get_groups, get_bitfields}
use maplesyrup.Breakout.Listing.Distinct.{listed, IsFrom}
use maplesyrup.Breakout.Listing.Names.{NoRepeat, get_groups-once, get_bitfields-all}
use maplesyrup.Env.{Env, illegal, ret}
use maplesyrup.Usermode.{FuncTableEntry}
use maplesyrup.Breakout.Ioctls.User.{breakout_call_usermode-results}
use maplesyrup.Breakout.Ioctls.Served.{served_results, breakout_call_driver-Served}
use maplesyrup.Breakout.Ioctls.{
  Todo, sort_body, breakout_call_driver, breakout_call_usermode, zero_data_cpu,
}
use maplesyrup.Breakout.Ioctls.Sort.{Covers}
use maplesyrup.Breakout.Ioctls.Once.{OnceTodo, sort_body-Once}
use maplesyrup.Breakout.Find.{find_bitfields}
use maplesyrup.Breakout.Find.Supplied.{find_bitfields-supplied}
use maplesyrup.Breakout.Sample.{
  revision, partnum, cache_line, sample, sample_globals, sample-IsLoaded, sample-Unique, midr_value,
  request,
}

find_bitfields-supplied_example :
    Yields
      (find_bitfields false [] sample_globals 0 (some request) (some []))
      (success, 0, some (map (value_result midr_value) (revision ∷ partnum ∷ [])))
unfolding matches applies mscode_partnumber
find_bitfields-supplied_example =
    find_bitfields-supplied false [] sample_globals sample 0 1 request [] sample-IsLoaded
      sample-Unique (λ e. omega arith) (λ e. omega arith) (λ e. cc e) (refl, (refl, tt))

breakout_search_table-keep_example :
    Yields
      (breakout_search_table sample_globals (some request) (some []))
      (success, some (match_of request revision ∷ match_of request partnum ∷ []))
unfolding matches applies mscode_partnumber
breakout_search_table-keep_example =
    breakout_search_table-keep sample_globals sample-IsLoaded request []

breakout_value_validate-All_example :
    (breakout_value_validate (some (match_of request revision ∷ match_of request cache_line ∷ []))
      ≡ some (1, midr_value))
    ↔ (((match_of request revision ∷ match_of request cache_line ∷ []) ≢ [])
        × All (IsFor 1 midr_value) (match_of request revision ∷ match_of request cache_line ∷ []))
breakout_value_validate-All_example =
    breakout_value_validate-All (match_of request revision ∷ match_of request cache_line ∷ []) 1
      midr_value

abbrev read_midr : IoctlResult
read_midr = record {
  register_uid = 1;
  val64 = 0;
  low = midr_value;
  high = 0;
  cpu = 2;
  midr = midr_value;
  epl = 2;
  status = 0;
}

breakout_parse_results-Yields_example :
    Yields
      (breakout_parse_results sample_globals
        (some (read_midr ∷ []))
        (some (match_of request partnum ∷ []))
        (some []))
      (
        success,
        some (fold (ioctl_round sample (match_of request partnum ∷ [])) (read_midr ∷ []) []),
      )
breakout_parse_results-Yields_example =
    breakout_parse_results-Yields sample_globals sample-IsLoaded sample-Unique read_midr []
      (match_of request partnum ∷ []) []

breakout_get_index-Found_example :
    (r : Option ℕ) × Returns (breakout_get_index sample_globals 17) r × Found 17 sample r
breakout_get_index-Found_example = breakout_get_index-Found sample_globals sample 17 sample-IsLoaded

get_groups-once_example :
    (l : List BitfieldInfoPopulated) × Yields
      (get_groups sample_globals (some []))
      (success, some l)
    × NoRepeat (λ t. t.functional_group) parse_max_functional l
    × All
        (λ x.
          some_of (λ t. strncmp_eq x.functional_group t.functional_group parse_max_functional) l
          ≡ true)
        sample
    × All (IsFrom sample) l
get_groups-once_example =
    get_groups-once sample_globals sample-IsLoaded sample-Unique
      (omega arith, (omega arith, (omega arith, tt)))

get_bitfields-all_example :
    Yields
      (get_bitfields sample_globals (some []))
      (success, some (listed revision ∷ listed partnum ∷ listed cache_line ∷ []))
get_bitfields-all_example = get_bitfields-all sample_globals sample sample-IsLoaded sample-Unique

sort_body-Once_example :
    (todo : Todo) × Yields
      (walk sort_body
        (match_of request revision ∷ match_of request partnum ∷ [])
        (record { to_driver = []; to_usermode = [] }))
      (next todo)
    × OnceTodo todo
    × All (Covers todo) (match_of request revision ∷ match_of request partnum ∷ [])
sort_body-Once_example = sort_body-Once (match_of request revision ∷ match_of request partnum ∷ [])

-- A driver that answers, with nothing to say.
abbrev answering : Env
answering = record {
  alloc = λ n. true;
  ioctl = λ n cmd d. some zero_data_cpu;
  execute = λ n code. illegal;
  device_open = true;
}

abbrev read_ctr : UsedIoctl
read_ctr = record { register_uid = 2; cpu = 0; partnumber = 0 }

breakout_call_driver-Served_example :
    (e' : Env) × (breakout_call_driver (some (read_ctr ∷ [])) (some []) answering
      ≡ ret (success, some (served_results (read_ctr ∷ []) (zero_data_cpu ∷ []))) e')
    × Plenty e'
    × (e'.execute ≡ answering.execute)
breakout_call_driver-Served_example =
    breakout_call_driver-Served (read_ctr ∷ []) (zero_data_cpu ∷ []) [] answering (λ n. refl) refl
      (refl, refl, tt)

abbrev ctr_row : FuncTableEntry
ctr_row = record { code = 2; func_ptr = true; function_prototype = 0; data_size = 2 }

abbrev read_unknown : UsedIoctl
read_unknown = record { register_uid = 3; cpu = 0; partnumber = 0 }

-- Two reads in user mode, of which one has a row, whose instruction is illegal.
breakout_call_usermode-results_example :
    (e' : Env) × (breakout_call_usermode false
        (ctr_row ∷ [])
        0
        (some (read_ctr ∷ read_unknown ∷ []))
        (some [])
        answering
      ≡ ret
          (
            success,
            0,
            some (
                record {
                  register_uid = 2;
                  val64 = 0;
                  low = 0;
                  high = 0;
                  cpu = 0;
                  midr = 0;
                  epl = 1;
                  status = 1;
                }
                ∷ []),
          )
          e')
    × Plenty e'
breakout_call_usermode-results_example =
    breakout_call_usermode-results false (ctr_row ∷ []) (read_ctr ∷ read_unknown ∷ []) [] answering
      (λ n. refl)
