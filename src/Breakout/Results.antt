-- ===== src/Breakout/Results.antt =====
-- From the values of registers to the bitfields that were asked for: `breakout_construct_bitfield_list`,
-- `breakout_apply_masks_to_list`, `breakout_add_noparse`, `breakout_filter_results`,
-- `breakout_value_validate`, `breakout_parse_results_value` and `breakout_parse_results` of
-- lib/src/parse_breakout.c.
pub mod Indices
pub mod Masks
pub mod Filter
pub mod Value
pub mod Rounds
pub mod Fields
pub mod Supplied
use maplesyrup.Base.{
  ℕ, Bool, true, false, ◌&&◌, ◌||◌, not, Option, none, some, List, [], ◌∷◌, ◌==◌, if◌then◌else◌,
  some_of,
}
use maplesyrup.Structs.{Status, success, failure, BitfieldInfoPopulated, ResultsInfo, IoctlResult}
use maplesyrup.Mask.{breakout_applymask, value_to_long}
use maplesyrup.Env.{M, pure, crash, ◌>>=◌}
use maplesyrup.Env.Loop.{Flow, next, leave, for_loop, walk}
use maplesyrup.Breakout.Tables.{Globals}
use maplesyrup.Breakout.Parts.{get_impl_from_midr, get_arch_from_midr}
use maplesyrup.Breakout.Lookup.{table_entry}
use maplesyrup.Breakout.Add.{
  breakout_add_table_index, breakout_add_bitfield_result, breakout_add_noparse_result,
}

-- A failed `breakout_add_table_index` is only traced.
unfoldable pub index_list_body : Globals → ℕ → ℕ → Option (List ℕ) → M (Flow (Option (List ℕ)))
index_list_body g ioctl i s = do
  x ← table_entry g i
  if x.register_uid == ioctl
      then (do r ← breakout_add_table_index s i; pure (next (r.1)))
      else pure (next s)

unfoldable pub breakout_construct_bitfield_list :
    Globals → ℕ → Option (List ℕ) → M (Status × Option (List ℕ))
unfolding index_list_body
breakout_construct_bitfield_list g ioctl none = pure (failure, none)
breakout_construct_bitfield_list g ioctl (some list) = do
  r ← for_loop (index_list_body g ioctl) g.table_size 0 (some list)
  elim r [ next l ↦ pure (success, l) | leave l ↦ pure (success, l) ]

-- The loop body: mask the value, add the bitfield, and stop where that fails.
unfoldable pub mask_body :
    Globals
    → (cat_value cpu_in epl midr status : ℕ) → ℕ
    → Option (List BitfieldInfoPopulated)
    → M (Flow (Option (List BitfieldInfoPopulated)))
mask_body g cat_value cpu_in epl midr status index list_out = do
  x ← table_entry g index
  r ←
      breakout_add_bitfield_result g list_out x.uid x.register_uid
        (breakout_applymask cat_value x.rightshift x.mask) cat_value cpu_in epl midr status
  elim (r.0) [ success ↦ pure (next (r.1)) | failure ↦ pure (leave (r.1)) ]

unfoldable pub breakout_apply_masks_to_list :
    Globals
    → (val_in_64 low high cpu_in epl midr status : ℕ) → Option (List ℕ)
    → Option (List BitfieldInfoPopulated)
    → M (Status × Option (List BitfieldInfoPopulated))
unfolding mask_body
breakout_apply_masks_to_list g val_in_64 low high cpu_in epl midr status none list_out =
    pure (failure, list_out)
breakout_apply_masks_to_list g val_in_64 low high cpu_in epl midr status (some indices) none =
    pure (failure, none)
breakout_apply_masks_to_list g val_in_64 low high cpu_in epl midr status (some indices)
      (some list) =
    do
      r ←
          walk (mask_body g (value_to_long val_in_64 low high) cpu_in epl midr status) indices
            (some list)
      elim r [ next l ↦ pure (success, l) | leave l ↦ pure (failure, l) ]

-- The results -1, 0 and 1 of `breakout_add_noparse`.
pub data NoparseResult : Type 0 where
  failed not_searched added : NoparseResult

-- The result of the same register, from the same processor and with the same status.
unfoldable pub same_register : BitfieldInfoPopulated → BitfieldInfoPopulated → Bool
same_register x t = t.ioctl == x.ioctl && t.cpu == x.cpu && t.status == x.status

unfoldable pub breakout_add_noparse :
    Globals
    → Option (List BitfieldInfoPopulated)
    → Option ResultsInfo
    → Option BitfieldInfoPopulated
    → M (NoparseResult × Option (List BitfieldInfoPopulated))
unfolding same_register
breakout_add_noparse g none requested all = pure (failed, none)
breakout_add_noparse g (some list) none all = pure (failed, some list)
breakout_add_noparse g (some list) (some requested) none = pure (failed, some list)
breakout_add_noparse g (some list) (some requested) (some x) =
    if requested.noparse == 1
    then (if some_of (same_register x) list then pure (added, some list) else (do
      r ←
          breakout_add_noparse_result g (some list) x.uid x.ioctl 0 x.uvalue x.cpu x.epl x.midr
            x.status
      pure (added, r.1)))
    else pure (not_searched, some list)

-- The bitfield was requested, and the processor that the value is from has it.
unfoldable pub filter_test : ResultsInfo → BitfieldInfoPopulated → Bool
filter_test requested x =
    requested.uid == x.uid
    && (get_impl_from_midr x.midr == requested.part_number
        || get_arch_from_midr x.midr == requested.part_number
        || x.midr == 0)

unfoldable pub filter_body :
    Globals
    → ResultsInfo
    → BitfieldInfoPopulated
    → Option (List BitfieldInfoPopulated)
    → M (Flow (Option (List BitfieldInfoPopulated)))
unfolding filter_test
filter_body g requested x list_out =
    if filter_test requested x
    then (do
      r ← breakout_add_noparse g list_out (some requested) (some x)
      let plain = (do
        s ← breakout_add_bitfield_result g (r.1) x.uid x.ioctl x.value 0 x.cpu x.epl x.midr x.status
        pure (next (s.1))) in
          elim (r.0) [ added ↦ pure (next (r.1)) | failed ↦ plain | not_searched ↦ plain ])
    else pure (next list_out)

unfoldable pub breakout_filter_results :
    Globals
    → (all_bitfields : Option (List BitfieldInfoPopulated))
    → (requested_bitfields : Option (List ResultsInfo))
    → (list_out : Option (List BitfieldInfoPopulated))
    → M (Status × Option (List BitfieldInfoPopulated))
unfolding filter_body
breakout_filter_results g none requested_bitfields list_out = pure (failure, list_out)
breakout_filter_results g (some all) none list_out = pure (failure, list_out)
breakout_filter_results g (some all) (some requested) none = pure (failure, none)
breakout_filter_results g (some all) (some requested) (some list) = do
  r ← walk (λ req s. walk (filter_body g req) all s) requested (some list)
  elim r [ next l ↦ pure (success, l) | leave l ↦ pure (success, l) ]

-- The loop of `breakout_value_validate`; it begins with the first element again.
unfoldable pub validate_loop : (current_ioctl calc_value : ℕ) → List ResultsInfo → Bool
validate_loop current_ioctl calc_value [] = true
validate_loop current_ioctl calc_value (x ∷ xs) =
    let rest = validate_loop current_ioctl calc_value xs in
    if not (current_ioctl == x.register_uid) || not (calc_value == x.calc_value)
    then false
    else rest

-- `*ioctl_return` and `*calc_return`, or `none` for -1.
unfoldable pub breakout_value_validate : Option (List ResultsInfo) → Option (ℕ × ℕ)
unfolding validate_loop
breakout_value_validate none = none
breakout_value_validate (some []) = none
breakout_value_validate (some (x ∷ xs)) =
    if validate_loop x.register_uid x.calc_value (x ∷ xs)
    then some (x.register_uid, x.calc_value)
    else none

-- What both functions below do with one value, up to freeing the two lists; `result` is what theirs was
-- set to last.
unfoldable pub parse_value :
    Globals
    → (register_uid val64 low high cpu epl midr status : ℕ) → (result : Status)
    → (matches : Option (List ResultsInfo)) → (list_out : Option (List BitfieldInfoPopulated))
    → M (Flow (Status × Option (List BitfieldInfoPopulated)))
parse_value g register_uid val64 low high cpu epl midr status result matches list_out = do
  c ← breakout_construct_bitfield_list g register_uid (some [])
  elim (c.0) [
    | failure ↦ pure (leave (result, list_out))
    | success ↦ (do
      m ← breakout_apply_masks_to_list g val64 low high cpu epl midr status (c.1) (some [])
      elim (m.0) [
        | failure ↦ pure (leave (failure, list_out))
        | success ↦ (do
          f ← breakout_filter_results g (m.1) matches list_out
          elim (f.0) [
            | success ↦ pure (next (success, f.1))
            | failure ↦ pure (leave (success, f.1))
          ])
      ])
  ]

-- What `breakout_parse_results_value` does with the register and the value that were validated.
unfoldable pub parse_validated :
    Globals
    → Option (List ResultsInfo)
    → Option (List BitfieldInfoPopulated)
    → Option (ℕ × ℕ)
    → M (Status × Option (List BitfieldInfoPopulated))
unfolding parse_value
parse_validated g matches list_out none = pure (failure, list_out)
parse_validated g matches list_out (some (ioctl, calc)) = do
  r ← parse_value g ioctl calc 0 0 0 0 0 0 failure matches list_out
  elim r [ next s ↦ pure s | leave s ↦ pure s ]

-- With a NULL list the lists that are freed at the end were not set up.
unfoldable pub breakout_parse_results_value :
    Globals
    → Option (List ResultsInfo)
    → Option (List BitfieldInfoPopulated)
    → M (Status × Option (List BitfieldInfoPopulated))
unfolding parse_validated
breakout_parse_results_value g none list_out = crash
breakout_parse_results_value g (some matches) none = crash
breakout_parse_results_value g (some matches) (some list) =
    parse_validated g (some matches) (some list) (breakout_value_validate (some matches))

unfoldable pub parse_body :
    Globals
    → Option (List ResultsInfo)
    → IoctlResult
    → Status × Option (List BitfieldInfoPopulated)
    → M (Flow (Status × Option (List BitfieldInfoPopulated)))
unfolding parse_value
parse_body g matches r (result, list_out) =
    parse_value g r.register_uid r.val64 r.low r.high r.cpu r.epl r.midr r.status result matches
      list_out

-- The loop sets up the lists that are freed after it, so that they are not set up where it has no round.
unfoldable pub breakout_parse_results :
    Globals
    → Option (List IoctlResult)
    → Option (List ResultsInfo)
    → Option (List BitfieldInfoPopulated)
    → M (Status × Option (List BitfieldInfoPopulated))
unfolding parse_body
breakout_parse_results g none matches list_out = crash
breakout_parse_results g (some ioctls) none list_out = crash
breakout_parse_results g (some ioctls) (some matches) none = crash
breakout_parse_results g (some []) (some matches) (some list) = crash
breakout_parse_results g (some (i ∷ ioctls)) (some matches) (some list) = do
  r ← walk (parse_body g (some matches)) (i ∷ ioctls) (failure, some list)
  elim r [ next s ↦ pure (success, s.1) | leave s ↦ pure s ]
