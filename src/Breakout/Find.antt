-- ===== src/Breakout/Find.antt =====
-- `find_bitfields` of lib/src/parse_breakout.c.
pub mod Supplied
pub mod Driver
pub mod Unmatched
mod Tests
use maplesyrup.Base.{ℕ, Bool, Option, none, some, List, [], ◌==◌, if◌then◌else◌}
use maplesyrup.Structs.{Status, success, failure, MatchInfo, BitfieldInfoPopulated}
use maplesyrup.Env.{M, pure, crash, ◌>>=◌}
use maplesyrup.Usermode.{FuncTableEntry}
use maplesyrup.Breakout.Tables.{Globals}
use maplesyrup.Breakout.Search.{breakout_search_table}
use maplesyrup.Breakout.Ioctls.{breakout_sort_ioctls}
use maplesyrup.Breakout.Results.{breakout_parse_results, breakout_parse_results_value}

-- `g_illsig` is returned besides. With a NULL argument the lists that are freed at the end were not set
-- up.
unfoldable pub find_bitfields :
    (aarch64 : Bool)
    → List FuncTableEntry
    → Globals
    → (illsig : ℕ) → Option MatchInfo
    → Option (List BitfieldInfoPopulated)
    → M (Status × ℕ × Option (List BitfieldInfoPopulated))
find_bitfields aarch64 func_table g illsig none list = crash
find_bitfields aarch64 func_table g illsig (some info) none = crash
find_bitfields aarch64 func_table g illsig (some info) (some list) = do
  requested ← breakout_search_table g (some info) (some [])
  elim (requested.0) [
    | failure ↦ pure (failure, illsig, some list)
    | success ↦
        if info.calc == 0
        then (do
          results ← breakout_sort_ioctls aarch64 func_table illsig (requested.1) (some [])
          elim (results.0) [
            | failure ↦ pure (failure, results.1, some list)
            | success ↦ (do
              parsed ← breakout_parse_results g (results.2) (requested.1) (some list)
              pure (parsed.0, results.1, parsed.1))
          ])
        else (do
          parsed ← breakout_parse_results_value g (requested.1) (some list)
          pure (parsed.0, illsig, parsed.1))
  ]
