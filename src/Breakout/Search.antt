-- ===== src/Breakout/Search.antt =====
-- `breakout_search_table` of lib/src/parse_breakout.c: the entries that a request asks for.
pub mod Keep
use maplesyrup.Base.{
  ℕ, ◌-◌, Bool, true, false, ◌&&◌, ◌||◌, Option, none, some, List, strncmp_eq, ◌==◌, if◌then◌else◌,
}
use maplesyrup.Structs.{
  Status, success, failure, BitfieldInfoHeap, MatchInfo, ResultsInfo, type_impl, type_arch, type_mm,
  impl_all, parse_max_functional, parse_max_register,
}
use maplesyrup.Mscode.{mscode_partnumber}
use maplesyrup.Env.{M, pure, ◌>>=◌}
use maplesyrup.Env.Loop.{Flow, next, leave, for_loop}
use maplesyrup.Breakout.Tables.{Globals}
use maplesyrup.Breakout.Parts.{get_arch_from_impl}
use maplesyrup.Breakout.Lookup.{table_entry}
use maplesyrup.Breakout.Add.{breakout_add_match}

-- The bitfield code, functional group, or register name matches.
unfoldable pub matches : MatchInfo → BitfieldInfoHeap → Bool
matches info x =
    x.uid == info.uid
    || strncmp_eq x.functional_group info.functional_group (parse_max_functional - 1)
    || strncmp_eq x.register_name_expanded info.register_name (parse_max_register - 1)

-- The branches on the kind of the table.
unfoldable pub applies : MatchInfo → BitfieldInfoHeap → Bool
applies info x =
    let part = mscode_partnumber x.uid in
    if x.table_type == type_impl
    then (info.architecture == get_arch_from_impl part
        && (info.implementation == impl_all || info.implementation == part))
    else (if x.table_type == type_arch then part == info.architecture else x.table_type == type_mm)

-- A failed `breakout_add_match` is only traced.
unfoldable pub search_body :
    Globals → MatchInfo → ℕ → Option (List ResultsInfo) → M (Flow (Option (List ResultsInfo)))
unfolding matches applies
search_body g info i list_out = do
  x ← table_entry g i
  if matches info x && applies info x
      then (do
        r ←
            breakout_add_match list_out x.ppl info.cpu info.pl x.uid x.register_uid info.noparse
              (mscode_partnumber x.uid) info.calc info.calc_value
        pure (next (r.1)))
      else pure (next list_out)

unfoldable pub breakout_search_table :
    Globals → Option MatchInfo → Option (List ResultsInfo) → M (Status × Option (List ResultsInfo))
unfolding search_body
breakout_search_table g none list_out = pure (failure, list_out)
breakout_search_table g (some info) none = pure (failure, none)
breakout_search_table g (some info) (some list) = do
  r ← for_loop (search_body g info) g.table_size 0 (some list)
  elim r [ next l ↦ pure (success, l) | leave l ↦ pure (success, l) ]
