-- ===== src/Breakout/Listing.antt =====
-- `get_find`, `get_groups`, `get_registers` and `get_bitfields` of lib/src/parse_breakout.c.
pub mod Distinct
pub mod Names
use maplesyrup.Base.{
  ℕ, Bool, true, false, Option, none, some, List, CString, strncmp_eq, some_of, if◌then◌else◌,
}
use maplesyrup.Structs.{
  Status, success, failure, BitfieldInfoHeap, BitfieldInfoPopulated, parse_max_register,
  parse_max_functional,
}
use maplesyrup.Env.{M, pure, ◌>>=◌}
use maplesyrup.Env.Loop.{Flow, next, leave, for_loop}
use maplesyrup.Breakout.Tables.{Globals}
use maplesyrup.Breakout.Lookup.{table_entry}
use maplesyrup.Breakout.Add.{breakout_add_bitfield_result}

-- The result 1 is `some true`, 0 is `some false`, and -1 is `none`.
unfoldable pub get_find :
    Option (List BitfieldInfoPopulated)
    → (register_name functional_group : Option CString) → Option Bool
get_find none register_name functional_group = none
get_find (some list) (some register_name) functional_group = some (
    some_of
      (λ (t : BitfieldInfoPopulated). strncmp_eq register_name t.register_name parse_max_register)
      list)
get_find (some list) none (some functional_group) = some (
    some_of
      (λ (t : BitfieldInfoPopulated).
        strncmp_eq functional_group t.functional_group parse_max_functional)
      list)
get_find (some list) none none = some false

-- get_find (…) <= 0
abbrev pub not_found : Option Bool → Bool
not_found (some true) = false
not_found r = true

-- An entry is added, or the loop left; entries that `present` finds are passed over.
unfoldable pub listing_body :
    Globals
    → (present : BitfieldInfoHeap → Option (List BitfieldInfoPopulated) → Option Bool) → ℕ
    → Option (List BitfieldInfoPopulated)
    → M (Flow (Option (List BitfieldInfoPopulated)))
listing_body g present i listout = do
  x ← table_entry g i
  if not_found (present x listout)
      then (do
        r ← breakout_add_bitfield_result g listout x.uid 0 0 0 0 0 0 0
        elim (r.0) [ success ↦ pure (next (r.1)) | failure ↦ pure (leave (r.1)) ])
      else pure (next listout)

-- The body that the three functions share.
unfoldable pub listing :
    Globals
    → (present : BitfieldInfoHeap → Option (List BitfieldInfoPopulated) → Option Bool)
    → Option (List BitfieldInfoPopulated)
    → M (Status × Option (List BitfieldInfoPopulated))
unfolding listing_body
listing g present none = pure (failure, none)
listing g present (some list) = do
  r ← for_loop (listing_body g present) g.table_size 0 (some list)
  elim r [ next l ↦ pure (success, l) | leave l ↦ pure (failure, l) ]

abbrev pub group_present : BitfieldInfoHeap → Option (List BitfieldInfoPopulated) → Option Bool
group_present x listout = get_find listout none (some x.functional_group)

abbrev pub register_present : BitfieldInfoHeap → Option (List BitfieldInfoPopulated) → Option Bool
register_present x listout = get_find listout (some x.register_name_expanded) none

unfoldable pub get_groups :
    Globals → Option (List BitfieldInfoPopulated) → M (Status × Option (List BitfieldInfoPopulated))
unfolding listing get_find
get_groups g listout = listing g group_present listout

unfoldable pub get_registers :
    Globals → Option (List BitfieldInfoPopulated) → M (Status × Option (List BitfieldInfoPopulated))
unfolding listing get_find
get_registers g listout = listing g register_present listout

unfoldable pub get_bitfields :
    Globals → Option (List BitfieldInfoPopulated) → M (Status × Option (List BitfieldInfoPopulated))
unfolding listing
get_bitfields g listout = listing g (λ x l. some false) listout
