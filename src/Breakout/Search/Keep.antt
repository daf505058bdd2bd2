-- ===== src/Breakout/Search/Keep.antt =====
-- What a search adds to its list: the entries asked for, in the order of the table.
use maplesyrup.Base.{
  ℕ, ◌≡◌, Bool, ◌&&◌, Option, some, List, ◌++◌, map, keep, get_elem?, if◌then◌else◌, Bool-cases,
  inl, inr,
}
use mathlib.Core.Path.{subst}
use maplesyrup.Structs.{success, BitfieldInfoHeap, MatchInfo, ResultsInfo}
use maplesyrup.Mscode.{mscode_partnumber}
use maplesyrup.Env.{pure}
use maplesyrup.Env.Loop.{next, for_loop}
use maplesyrup.Env.Yields.{Yields, Returns-Yields, bind-Yields, pure-Yields}
use maplesyrup.Env.Gather.{gather-keep, grown, add_element-grown}
use maplesyrup.Breakout.Tables.{Globals}
use maplesyrup.Breakout.Lookup.{table_entry}
use maplesyrup.Breakout.Lookup.First.{IsLoaded, table_entry-Returns}
use maplesyrup.Breakout.Lookup.Loop.{table_loop-gather}
use maplesyrup.Breakout.Add.{breakout_add_match}
use maplesyrup.Breakout.Search.{matches, applies, search_body, breakout_search_table}

abbrev pub wanted : MatchInfo → BitfieldInfoHeap → Bool
wanted info x = matches info x && applies info x

-- The element for a matching entry: the identity of the entry, and the rest of the request.
abbrev pub match_of : MatchInfo → BitfieldInfoHeap → ResultsInfo
match_of info x = record {
  register_uid = x.register_uid;
  uid = x.uid;
  ppl = x.ppl;
  pl = info.pl;
  cpu = info.cpu;
  noparse = info.noparse;
  part_number = mscode_partnumber x.uid;
  calc = info.calc;
  calc_value = info.calc_value;
}

module _ (g : Globals) {table : List BitfieldInfoHeap} (loaded : IsLoaded g table) where
  search_body-Yields :
      (info : MatchInfo) (i : ℕ) (x : BitfieldInfoHeap) (s : Option (List ResultsInfo))
      → get_elem? table i ≡ some x
      → Yields
          (search_body g info i s)
          (next (if wanted info x then grown s (match_of info x) else s))
  unfolding search_body breakout_add_match
  search_body-Yields info i x s at =
      bind-Yields (table_entry g i) _ (Returns-Yields _ (table_entry-Returns g loaded i x at))
        (elim (Bool-cases (wanted info x)) [
          | inl hit ↦
              let (status, added) = add_element-grown s (pure (match_of info x)) (pure-Yields _) in
              rw hit (bind-Yields _ _ added (pure-Yields _))
          | inr miss ↦ rw miss (pure-Yields _)
        ])

  -- With a loaded table and memory at hand, a search succeeds, and adds to its list the entries of the
  -- table that match the request and apply to its architecture, all of them and in order.
  pub breakout_search_table-keep :
      (info : MatchInfo) (list : List ResultsInfo)
      → Yields
          (breakout_search_table g (some info) (some list))
          (success, some (list ++ map (match_of info) (keep (wanted info) table)))
  unfolding breakout_search_table
  breakout_search_table-keep info list =
      bind-Yields (for_loop (search_body g info) g.table_size 0 (some list)) _
        (subst
          (λ (new : List ResultsInfo).
            Yields (for_loop (search_body g info) g.table_size 0 (some list))
              (next (some (list ++ new))))
          (gather-keep (wanted info) (match_of info) 0 table)
          (table_loop-gather g loaded (search_body g info) (wanted info) (λ i x. match_of info x)
            (search_body-Yields info) list))
        (pure-Yields _)
