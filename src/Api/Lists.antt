-- ===== src/Api/Lists.antt =====
-- `ms_get_groups`, `ms_get_registers` and `ms_get_bitfields` of lib/src/maplesyrup.c.
use maplesyrup.Base.{ℕ, Bool, true, false, Option, none, some, List, []}
use maplesyrup.Structs.{Status, success, failure, BitfieldInfoPopulated}
use maplesyrup.Env.{M, pure, crash, ◌>>=◌}
use maplesyrup.Breakout.Tables.{Globals, BitfieldTableEntry, read_tables_to_memory, erase_tables}
use maplesyrup.Breakout.Listing.{get_groups, get_registers, get_bitfields}
use maplesyrup.Api.{MsBitfieldInfo, flatten_results}

-- `list_out` is whether that is not NULL. Whatever `read_tables_to_memory` returns is only traced. With a
-- NULL argument the list that is freed at the end was not set up.
unfoldable pub ms_get_listing :
    (Globals
      → Option (List BitfieldInfoPopulated)
      → M (Status × Option (List BitfieldInfoPopulated)))
    → List BitfieldTableEntry
    → Globals
    → (list_out : Bool) → (include_devices : ℕ) → M (Option (List MsBitfieldInfo) × Globals)
ms_get_listing get rows g false include_devices = crash
ms_get_listing get rows g true include_devices = do
  r ← read_tables_to_memory rows include_devices g
  l ← get (r.1) (some [])
  elim (l.0) [
    | failure ↦ pure (none, erase_tables (r.1))
    | success ↦ (do a ← flatten_results (r.1) (l.1); pure (a, erase_tables (r.1)))
  ]

unfoldable pub ms_get_groups :
    List BitfieldTableEntry → Globals → Bool → ℕ → M (Option (List MsBitfieldInfo) × Globals)
unfolding ms_get_listing
ms_get_groups = ms_get_listing get_groups

unfoldable pub ms_get_registers :
    List BitfieldTableEntry → Globals → Bool → ℕ → M (Option (List MsBitfieldInfo) × Globals)
unfolding ms_get_listing
ms_get_registers = ms_get_listing get_registers

unfoldable pub ms_get_bitfields :
    List BitfieldTableEntry → Globals → Bool → ℕ → M (Option (List MsBitfieldInfo) × Globals)
unfolding ms_get_listing
ms_get_bitfields = ms_get_listing get_bitfields
