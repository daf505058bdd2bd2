-- ===== src/Breakout/Results/Masks.antt =====
-- The bitfields that a value is taken apart into.
use maplesyrup.Base.{ℕ, ◌≡◌, some, List, [], ◌∷◌, ◌++◌, map, append_assoc, append-nil, get_elem?}
use mathlib.Core.Path.{subst}
use maplesyrup.Structs.{success, BitfieldInfoHeap, BitfieldInfoPopulated}
use maplesyrup.Mask.{breakout_applymask, value_to_long}
use maplesyrup.Env.Loop.{next, walk}
use maplesyrup.Env.Yields.{Yields, Returns-Yields, bind-Yields, pure-Yields}
use maplesyrup.Breakout.Tables.{Globals}
use maplesyrup.Breakout.Lookup.{table_entry}
use maplesyrup.Breakout.Lookup.First.{IsLoaded, table_entry-Returns}
use maplesyrup.Breakout.Add.{breakout_add_bitfield_result}
use maplesyrup.Breakout.Add.Elements.{bitfield_result, breakout_add_bitfield_result-Yields}
use maplesyrup.Breakout.Results.{mask_body, breakout_apply_masks_to_list}
use maplesyrup.Breakout.Results.Indices.{Pointing, Unique, Unique-entry_of}

-- The bitfield of `x` in a value.
abbrev pub field_result :
    (cat_value cpu epl midr status : ℕ) → BitfieldInfoHeap → BitfieldInfoPopulated
field_result cat_value cpu epl midr status x =
    bitfield_result x x.uid x.register_uid (breakout_applymask cat_value x.rightshift x.mask)
      cat_value cpu epl midr status

module _ (g : Globals) {table : List BitfieldInfoHeap} (loaded : IsLoaded g table)
    (unique : Unique table) (cpu epl midr status : ℕ) where
  mask_body-Yields :
      (cat_value i : ℕ) (x : BitfieldInfoHeap) (list : List BitfieldInfoPopulated)
      → get_elem? table i ≡ some x
      → Yields
          (mask_body g cat_value cpu epl midr status i (some list))
          (next (some (list ++ field_result cat_value cpu epl midr status x ∷ [])))
  unfolding mask_body
  mask_body-Yields cat_value i x list at =
      bind-Yields (table_entry g i) _ (Returns-Yields _ (table_entry-Returns g loaded i x at)) (
        bind-Yields
          (breakout_add_bitfield_result g (some list) x.uid x.register_uid
            (breakout_applymask cat_value x.rightshift x.mask) cat_value cpu epl midr status)
          _
          (breakout_add_bitfield_result-Yields g loaded list x x.uid x.register_uid
            (breakout_applymask cat_value x.rightshift x.mask) cat_value cpu epl midr status
            (Unique-entry_of table i x unique at))
          (pure-Yields _))

  mask_walk-Yields :
      (cat_value : ℕ) (is : List ℕ) (xs : List BitfieldInfoHeap) (list : List BitfieldInfoPopulated)
      → Pointing table is xs
      → Yields
          (walk (mask_body g cat_value cpu epl midr status) is (some list))
          (next (some (list ++ map (field_result cat_value cpu epl midr status) xs)))
  unfolding walk
  mask_walk-Yields cat_value [] [] list at = rw (append-nil list) (pure-Yields _)
  mask_walk-Yields cat_value [] (x ∷ xs) list at = absurd at
  mask_walk-Yields cat_value (i ∷ is) [] list at = absurd at
  mask_walk-Yields cat_value (i ∷ is) (x ∷ xs) list (here, rest) =
      let new = field_result cat_value cpu epl midr status in
      subst
        (λ (l : List BitfieldInfoPopulated).
          Yields (walk (mask_body g cat_value cpu epl midr status) (i ∷ is) (some list))
            (next (some l)))
        (append_assoc list (new x ∷ []) (map new xs))
        (bind-Yields (mask_body g cat_value cpu epl midr status i (some list)) _
          (mask_body-Yields cat_value i x list here)
          (mask_walk-Yields cat_value is xs (list ++ new x ∷ []) rest))

  pub breakout_apply_masks_to_list-Yields :
      (val64 low high : ℕ) (is : List ℕ) (xs : List BitfieldInfoHeap)
      → Pointing table is xs
      → Yields
          (breakout_apply_masks_to_list g val64 low high cpu epl midr status (some is) (some []))
          (success, some (map (field_result (value_to_long val64 low high) cpu epl midr status) xs))
  unfolding breakout_apply_masks_to_list
  breakout_apply_masks_to_list-Yields val64 low high is xs at =
      bind-Yields
        (walk (mask_body g (value_to_long val64 low high) cpu epl midr status) is (some [])) _
        (mask_walk-Yields (value_to_long val64 low high) is xs [] at) (pure-Yields _)
