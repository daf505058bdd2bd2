-- ===== src/Breakout/Find/Unmatched.antt =====
-- A search that matches nothing.
use maplesyrup.Base.{ℕ, ◌≡◌, refl, Bool, some, List, [], ◌++◌, map, keep, ==_iff}
use mathlib.Core.Path.{subst}
use maplesyrup.Structs.{success, MatchInfo, BitfieldInfoHeap, BitfieldInfoPopulated}
use maplesyrup.Env.{Env, ret, fault, ◌>>=◌}
use maplesyrup.Env.Loop.{walk}
use maplesyrup.Env.Yields.{Plenty, Yields}
use maplesyrup.Usermode.{FuncTableEntry}
use maplesyrup.Breakout.Tables.{Globals}
use maplesyrup.Breakout.Lookup.First.{IsLoaded}
use maplesyrup.Breakout.Search.{breakout_search_table}
use maplesyrup.Breakout.Search.Keep.{wanted, match_of, breakout_search_table-keep}
use maplesyrup.Breakout.Ioctls.{breakout_sort_ioctls, breakout_call_driver, breakout_call_usermode}
use maplesyrup.Breakout.Results.{breakout_parse_results}
use maplesyrup.Breakout.Find.{find_bitfields}

search-nothing :
    (g : Globals) (table : List BitfieldInfoHeap) (info : MatchInfo)
    → IsLoaded g table
    → keep (wanted info) table ≡ []
    → Yields (breakout_search_table g (some info) (some [])) (success, some [])
search-nothing g table info loaded nothing =
    subst
      (λ (xs : List BitfieldInfoHeap).
        Yields (breakout_search_table g (some info) (some []))
          (success, some ([] ++ map (match_of info) xs)))
      nothing (breakout_search_table-keep g loaded info [])

sort-nothing :
    (aarch64 : Bool) (func_table : List FuncTableEntry) (illsig : ℕ) (e : Env)
    → breakout_sort_ioctls aarch64 func_table illsig (some []) (some []) e
      ≡ ret (success, illsig, some []) e
unfolding breakout_sort_ioctls breakout_call_driver breakout_call_usermode walk ◌>>=◌
sort-nothing aarch64 func_table illsig e = refl

-- With a loaded table, memory at hand and no value supplied, a search that no entry matches faults: no
-- value is parsed, and the lists that are freed after the parsing were not set up.
pub find_bitfields-unmatched :
    (aarch64 : Bool) (func_table : List FuncTableEntry) (g : Globals)
    (table : List BitfieldInfoHeap) (illsig : ℕ) (info : MatchInfo)
    (list : List BitfieldInfoPopulated) (e : Env)
    → IsLoaded g table
    → info.calc ≡ 0
    → keep (wanted info) table ≡ []
    → Plenty e
    → find_bitfields aarch64 func_table g illsig (some info) (some list) e ≡ fault
unfolding find_bitfields breakout_parse_results ◌>>=◌
find_bitfields-unmatched aarch64 func_table g table illsig info list e loaded no_value nothing
      plenty =
    let (e1, runs1, plenty1, untouched) = search-nothing g table info loaded nothing e plenty in
    rw (
      find_bitfields,
      runs1,
      (==_iff info.calc 0).1 no_value,
      ◌>>=◌,
      sort-nothing aarch64 func_table illsig e1,
      breakout_parse_results,
    )
