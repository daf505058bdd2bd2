-- ===== src/Api/Find.antt =====
-- `ms_find_by_bitfield`, `ms_find_by_register` and `ms_find_by_group` of lib/src/maplesyrup.c, and
-- `start_test` and `stop_test` of lib/src/open_device.c.
pub mod Value
use maplesyrup.Base.{
  ℕ, ◌-◌, Bool, true, false, Option, none, some, List, [], CString, strncpy, if◌then◌else◌,
}
use maplesyrup.Structs.{
  Status, success, failure, MatchInfo, parse_max_register, parse_max_functional,
}
use maplesyrup.Env.{Env, ret, M, pure, crash, ◌>>=◌, ◌>>◌}
use maplesyrup.Usermode.{FuncTableEntry}
use maplesyrup.Breakout.Tables.{Globals, BitfieldTableEntry, read_tables_to_memory, erase_tables}
use maplesyrup.Breakout.Find.{find_bitfields}
use maplesyrup.Api.{MsBitfieldInfo, flatten_results}
use maplesyrup.Api.Match.{set_match_info}

-- The tables and the target of the program, and what the system answers: to sigaction, to open, and
-- whether errno is ERANGE.
pub record Machine : Type 0 where
  pub aarch64 : Bool
  pub func_table : List FuncTableEntry
  pub rows : List BitfieldTableEntry
  pub signals : Bool
  pub opens : Bool
  pub erange : Bool

-- `ms_fd` is left open, or at -1 where open fails.
unfoldable pub start_test : Machine → M Status
start_test m e =
    if m.signals
    then (if m.opens
        then ret success (record e { device_open = true })
        else ret failure (record e { device_open = false }))
    else ret failure e

unfoldable pub stop_test : M (Unit {0})
stop_test e = ret tt (record e { device_open = false })

-- From the tables to the array; the caller of `find_bitfields` frees the list.
unfoldable pub run_search :
    Machine → Globals → MatchInfo → ℕ → M (Option (List MsBitfieldInfo) × Globals)
run_search m g info include_devices = do
  r ← read_tables_to_memory m.rows include_devices g
  f ← find_bitfields m.aarch64 m.func_table (r.1) 0 (some info) (some [])
  elim (f.0) [
    | failure ↦ pure (none, r.1)
    | success ↦ (do a ← flatten_results (r.1) (f.2); pure (a, r.1))
  ]

-- What is done once `start_test` has returned; a request that is `none` could not be set up.
unfoldable pub search_started :
    Machine → Globals → Status → Option MatchInfo → ℕ → M (Option (List MsBitfieldInfo) × Globals)
unfolding run_search
search_started m g failure info include_devices = pure (none, g)
search_started m g success none include_devices = pure (none, g)
search_started m g success (some info) include_devices = run_search m g info include_devices

-- What the three functions do with the request that was set up, up to the frees. `driver` is whether the
-- device is opened and closed. The flag `g_illsig` is clear, as `start_test` leaves it.
unfoldable pub ms_find :
    Machine
    → Globals
    → (driver : Bool) → Option MatchInfo
    → (include_devices : ℕ) → M (Option (List MsBitfieldInfo) × Globals)
unfolding start_test stop_test search_started
ms_find m g driver info include_devices = do
  started ← (if driver then start_test m else pure success)
  r ← search_started m g started info include_devices
  closed ← (if driver then stop_test else pure tt)
  pure (r.0, erase_tables (r.1))

-- The request with what is searched for.
unfoldable pub with_uid : ℕ → Option MatchInfo → Option MatchInfo
with_uid bitfield none = none
with_uid bitfield (some i) = some (record i { uid = bitfield })

unfoldable pub with_register : CString → Option MatchInfo → Option MatchInfo
with_register regname none = none
with_register regname (some i) =
    some (record i { register_name = strncpy regname (parse_max_register - 1) })

unfoldable pub with_group : CString → Option MatchInfo → Option MatchInfo
with_group groupname none = none
with_group groupname (some i) =
    some (record i { functional_group = strncpy groupname (parse_max_functional - 1) })

-- The functions: `results_out` is whether that is not NULL. If it is, lists are freed that were not set
-- up. The names to search for are not NULL.
unfoldable pub ms_find_by_bitfield :
    Machine
    → Globals
    → (arch impl : Option CString) → (bitfield cpu pl noparse include_devices : ℕ)
    → (results_out : Bool) → M (Option (List MsBitfieldInfo) × Globals)
unfolding ms_find with_uid
ms_find_by_bitfield m g arch impl bitfield cpu pl noparse include_devices false = crash
ms_find_by_bitfield m g arch impl bitfield cpu pl noparse include_devices true =
    ms_find m g true (with_uid bitfield (set_match_info m.erange arch impl cpu pl noparse none))
      include_devices

unfoldable pub is_null : Option CString → Bool
is_null none = true
is_null (some s) = false

unfoldable pub ms_find_by_register :
    Machine
    → Globals
    → (arch impl : Option CString) → (regname : CString) → (cpu pl noparse : ℕ)
    → (calc_value : Option CString) → (include_devices : ℕ) → (results_out : Bool)
    → M (Option (List MsBitfieldInfo) × Globals)
unfolding ms_find is_null with_register
ms_find_by_register m g arch impl regname cpu pl noparse calc_value include_devices false = crash
ms_find_by_register m g arch impl regname cpu pl noparse calc_value include_devices true =
    ms_find m g (is_null calc_value)
      (with_register regname (set_match_info m.erange arch impl cpu pl noparse calc_value))
      include_devices

unfoldable pub ms_find_by_group :
    Machine
    → Globals
    → (arch impl : Option CString) → (groupname : CString) → (cpu pl noparse include_devices : ℕ)
    → (results_out : Bool) → M (Option (List MsBitfieldInfo) × Globals)
unfolding ms_find with_group
ms_find_by_group m g arch impl groupname cpu pl noparse include_devices false = crash
ms_find_by_group m g arch impl groupname cpu pl noparse include_devices true =
    ms_find m g true (with_group groupname (set_match_info m.erange arch impl cpu pl noparse none))
      include_devices
