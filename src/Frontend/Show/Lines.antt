-- ===== src/Frontend/Show/Lines.antt =====
-- What `show_results` prints of an array of results.
use native.Mathlib.Nat.{zero-add}
use mathlib.Core.Path.{subst}
use maplesyrup.Base.{
  ℕ, ◌+◌, ◌≡◌, refl, sym, ap, ◌∙◌, inl, inr, Bool, true, false, ◌&&◌, ◌||◌, Option, none, some,
  List, [], ◌∷◌, ◌++◌, map, keep, some_of, length, get_elem?, ltb, ◌==◌, if◌then◌else◌, Bool-cases,
}
use maplesyrup.Structs.{Status, success, failure, minus_one}
use maplesyrup.Env.{ret, M, pure, ◌>>=◌}
use maplesyrup.Env.Loop.{Flow, next, leave, for_loop}
use maplesyrup.Env.Yields.{
  Yields, Returns, Returns-Yields, bind-Returns, bind-Yields, pure-Yields, Suffix, Suffix-head,
  Suffix-tail, Suffix-start, for_loop-Yields,
}
use maplesyrup.Api.{
  MsBitfieldInfo, minus_one_64, read_field, translate_epl, ms_get_size, ms_get_value,
  ms_get_register_string, ms_get_group_string, ms_get_description_string, ms_get_partnumber_string,
  ms_get_decode_string, ms_get_cpu, ms_get_epl, ms_get_status, ms_get_bitfield_string, ms_get_stamp,
}
use maplesyrup.Api.Getters.{IsCounted, outcome, read_field-outcome}
use maplesyrup.Frontend.Show.Folds.{
  line_of, is_valid, is_shown, printed, first_flow, first_flow-some_of, count_step, count-keep,
  show_step, show-keep, keep-none,
}
use maplesyrup.Frontend.Show.{
  Line, banner, no_results_line, first_body, count_body, state_of, no_results, show_element,
  show_body, lines_of, is_failure, show_results,
}

if-Returns :
    {A : Type 0} (b : Bool) (a c : A) → Returns (if b then pure a else pure c) (if b then a else c)
if-Returns true a c e = refl
if-Returns false a c e = refl

module _ (x : MsBitfieldInfo) (xs : List MsBitfieldInfo)
    (counted : IsCounted (length (x ∷ xs)) (x ∷ xs)) where
  field-Returns :
      {A : Type 0} (read : MsBitfieldInfo → A) (error : A) (i : ℕ) (y : MsBitfieldInfo)
      → get_elem? (x ∷ xs) i ≡ some y
      → Returns (read_field read error (some (x ∷ xs)) i) (read y)
  field-Returns read error i y at e =
      read_field-outcome read error x xs i e counted ∙ rw (outcome, at)

  first_body-Returns :
      (i s : ℕ) (y : MsBitfieldInfo)
      → get_elem? (x ∷ xs) i ≡ some y
      → Returns (first_body (some (x ∷ xs)) i s) (if is_valid y then leave i else next (i + 1))
  unfolding first_body ms_get_status
  first_body-Returns i s y at =
      bind-Returns (ms_get_status (some (x ∷ xs)) i) _
        (field-Returns (λ z. z.status) minus_one i y at)
        (if-Returns (is_valid y) (leave i) (next (i + 1)))

  first_body-from :
      (rest : List MsBitfieldInfo) (i : ℕ)
      → Suffix (x ∷ xs) i rest
      → Returns (for_loop (first_body (some (x ∷ xs))) (length rest) i i) (first_flow i rest)
  unfolding for_loop
  first_body-from [] i suffix = λ e. refl
  first_body-from (y ∷ rest) i suffix =
      bind-Returns (first_body (some (x ∷ xs)) i i) _
        (first_body-Returns i i y (Suffix-head (x ∷ xs) i y rest suffix))
        (after (first_body-from rest (i + 1) (Suffix-tail (x ∷ xs) i y rest suffix)) (is_valid y))
    where
      after :
          Returns
            (for_loop (first_body (some (x ∷ xs))) (length rest) (i + 1) (i + 1))
            (first_flow (i + 1) rest)
          → (b : Bool)
          → Returns
              (elim (if b then leave i else next (i + 1)) [
                | next s' ↦ for_loop (first_body (some (x ∷ xs))) (length rest) (i + 1) s'
                | leave s' ↦ pure (leave s')
              ])
              (if b then leave i else first_flow (i + 1) rest)
      after later true e = refl
      after later false e = later e

  count_body-Returns :
      (i valid : ℕ) (y : MsBitfieldInfo)
      → get_elem? (x ∷ xs) i ≡ some y
      → Returns (count_body (some (x ∷ xs)) i valid) (next (count_step i y valid))
  unfolding count_body ms_get_status
  count_body-Returns i valid y at =
      bind-Returns (ms_get_status (some (x ∷ xs)) i) _
        (field-Returns (λ z. z.status) minus_one i y at) (after (is_valid y))
    where
      after :
          (b : Bool)
          → Returns
              (if b then pure (next (valid + 1)) else pure (next valid))
              (next (if b then valid + 1 else valid))
      after true e = refl
      after false e = refl

  show_element-Returns :
      (i : ℕ) (y : MsBitfieldInfo)
      → get_elem? (x ∷ xs) i ≡ some y
      → Returns (show_element (some (x ∷ xs)) i) (line_of y)
  unfolding show_element ms_get_cpu ms_get_partnumber_string ms_get_decode_string ms_get_epl
      ms_get_group_string ms_get_register_string ms_get_stamp ms_get_bitfield_string ms_get_value
      ms_get_description_string ms_get_status
  show_element-Returns i y at =
      bind-Returns (ms_get_cpu array i) _ (field-Returns (λ z. z.cpu) minus_one i y at) (
        bind-Returns (ms_get_partnumber_string array i) _
          (field-Returns (λ z. some z.part_number) none i y at)
          (bind-Returns (ms_get_decode_string array i) _
            (field-Returns (λ z. some z.part_number_table) none i y at)
            (bind-Returns (ms_get_epl array i) _
              (field-Returns (λ z. translate_epl z.epl) minus_one i y at)
              (bind-Returns (ms_get_group_string array i) _
                (field-Returns (λ z. some z.functional_group) none i y at)
                (bind-Returns (ms_get_register_string array i) _
                  (field-Returns (λ z. some z.register_name) none i y at)
                  (bind-Returns (ms_get_stamp array i) _
                    (field-Returns (λ z. some z.stamp) none i y at)
                    (bind-Returns (ms_get_bitfield_string array i) _
                      (field-Returns (λ z. some z.bitfield) none i y at)
                      (bind-Returns (ms_get_value array i) _
                        (field-Returns (λ z. z.value) minus_one_64 i y at)
                        (bind-Returns (ms_get_description_string array i) _
                          (field-Returns (λ z. some z.description) none i y at)
                          (bind-Returns (ms_get_status array i) _
                            (field-Returns (λ z. z.status) minus_one i y at) (λ e. refl)))))))))))
    where
      array : Option (List MsBitfieldInfo)
      array = some (x ∷ xs)

  show_body-Returns :
      (showerrors i : ℕ) (lines : List Line) (y : MsBitfieldInfo)
      → get_elem? (x ∷ xs) i ≡ some y
      → Returns
          (show_body showerrors (some (x ∷ xs)) i lines)
          (next (show_step showerrors i y lines))
  unfolding show_body ms_get_status
  show_body-Returns showerrors i lines y at =
      bind-Returns (ms_get_status (some (x ∷ xs)) i) _
        (field-Returns (λ z. z.status) minus_one i y at) (after (is_shown showerrors y))
    where
      after :
          (b : Bool)
          → Returns
              (if b
                then (do line ← show_element (some (x ∷ xs)) i; pure (next (lines ++ line ∷ [])))
                else pure (next lines))
              (next (if b then lines ++ line_of y ∷ [] else lines))
      after true e =
          bind-Returns (show_element (some (x ∷ xs)) i) _ (show_element-Returns i y at) (λ e'. refl)
            e
      after false e = refl

  ms_get_size-Returns : Returns (ms_get_size (some (x ∷ xs))) (some (length (x ∷ xs)))
  unfolding ms_get_size ◌>>=◌
  ms_get_size-Returns e = ap (λ (n : ℕ). ret (some n) e) counted.0

  first_loop-Returns :
      Returns (for_loop (first_body (some (x ∷ xs))) (length (x ∷ xs)) 0 0) (first_flow 0 (x ∷ xs))
  first_loop-Returns = first_body-from (x ∷ xs) 0 (Suffix-start (x ∷ xs))

  count_loop-Yields :
      Yields
        (for_loop (count_body (some (x ∷ xs))) (length (x ∷ xs)) 0 0)
        (next (length (keep is_valid (x ∷ xs))))
  count_loop-Yields =
      subst (λ n. Yields (for_loop (count_body (some (x ∷ xs))) (length (x ∷ xs)) 0 0) (next n))
        (count-keep 0 (x ∷ xs) 0 ∙ zero-add (length (keep is_valid (x ∷ xs))))
        (for_loop-Yields (x ∷ xs) (count_body (some (x ∷ xs))) count_step
          (λ j y valid at.
            Returns-Yields (count_body (some (x ∷ xs)) j valid) (count_body-Returns j valid y at))
          0)

  -- Whether there is something to show, and the lines that say so.
  abbrev summary : ℕ → Status × List Line
  summary showerrors =
      if some_of is_valid (x ∷ xs) || showerrors == 1
      then (success, banner (length (keep is_valid (x ∷ xs))) (length (x ∷ xs)) ∷ [])
      else (failure, no_results_line ∷ [])

  no_results-Yields :
      (showerrors : ℕ) → Yields (no_results showerrors (some (x ∷ xs))) (summary showerrors)
  unfolding no_results
  no_results-Yields showerrors =
      bind-Yields (ms_get_size (some (x ∷ xs))) _
        (Returns-Yields (ms_get_size (some (x ∷ xs))) ms_get_size-Returns)
        (bind-Yields (for_loop (first_body (some (x ∷ xs))) (length (x ∷ xs)) 0 0) _
          (Returns-Yields (for_loop (first_body (some (x ∷ xs))) (length (x ∷ xs)) 0 0)
            first_loop-Returns)
          (bind-Yields (for_loop (count_body (some (x ∷ xs))) (length (x ∷ xs)) 0 0) _
            count_loop-Yields decided))
    where
      found : ltb (state_of (first_flow 0 (x ∷ xs))) (length (x ∷ xs)) ≡ some_of is_valid (x ∷ xs)
      found =
          ap (ltb (state_of (first_flow 0 (x ∷ xs)))) (sym (zero-add (length (x ∷ xs))))
          ∙ first_flow-some_of 0 (x ∷ xs)

      lines : Bool → M (Status × List Line)
      lines b =
          if b || showerrors == 1
          then pure (success, banner (length (keep is_valid (x ∷ xs))) (length (x ∷ xs)) ∷ [])
          else pure (failure, no_results_line ∷ [])

      decided :
          Yields
            (lines (ltb (state_of (first_flow 0 (x ∷ xs))) (length (x ∷ xs))))
            (summary showerrors)
      decided =
          subst (λ b. Yields (lines b) (summary showerrors)) (sym found)
            (Returns-Yields (lines (some_of is_valid (x ∷ xs)))
              (if-Returns (some_of is_valid (x ∷ xs) || showerrors == 1) _ _))

  -- With memory at hand, of an array whose elements say how many there are, `show_results` prints, in
  -- order, a banner with the number of valid results and of all, and each valid result, with the values
  -- and texts of its element; with `--showfail`, each result. Where none is valid, and failures are not shown, it prints that there are no results.
  pub show_results-printed :
      (showerrors : ℕ)
      → Yields (show_results showerrors (some (x ∷ xs))) (printed showerrors (x ∷ xs))
  unfolding show_results
  show_results-printed showerrors =
      bind-Yields (ms_get_size (some (x ∷ xs))) _
        (Returns-Yields (ms_get_size (some (x ∷ xs))) ms_get_size-Returns)
        (bind-Yields (no_results showerrors (some (x ∷ xs))) _ (no_results-Yields showerrors)
          (shown (some_of is_valid (x ∷ xs)) (showerrors == 1) refl refl))
    where
      loop : List Line → M (Flow (List Line))
      loop lines = for_loop (show_body showerrors (some (x ∷ xs))) (length (x ∷ xs)) 0 lines

      loop-Yields :
          (lines : List Line)
          → Yields
              (do f ← loop lines; pure (lines_of f))
              (lines ++ map line_of (keep (is_shown showerrors) (x ∷ xs)))
      loop-Yields lines =
          bind-Yields (loop lines) _
            (subst (λ l. Yields (loop lines) (next l)) (show-keep showerrors 0 (x ∷ xs) lines)
              (for_loop-Yields (x ∷ xs) (show_body showerrors (some (x ∷ xs)))
                (show_step showerrors)
                (λ i y s at.
                  Returns-Yields (show_body showerrors (some (x ∷ xs)) i s)
                    (show_body-Returns showerrors i s y at))
                lines))
            (pure-Yields _)

      head : List Line
      head = banner (length (keep is_valid (x ∷ xs))) (length (x ∷ xs)) ∷ []

      decided : Bool → Bool → Status × List Line
      decided v e = if v || e then (success, head) else (failure, no_results_line ∷ [])

      final : Bool → Bool → List Line
      final v e =
          if v || e
          then banner (length (keep is_valid (x ∷ xs))) (length (x ∷ xs))
            ∷ map line_of (keep (is_shown showerrors) (x ∷ xs))
          else no_results_line ∷ []

      shown :
          (v e : Bool)
          → some_of is_valid (x ∷ xs) ≡ v
          → (showerrors == 1) ≡ e
          → Yields
              (if is_failure (decided v e).0 && showerrors == 0
                then pure (decided v e).1
                else (do f ← loop (decided v e).1; pure (lines_of f)))
              (final v e)
      shown true e h k = loop-Yields head
      shown false true h k = loop-Yields head
      shown false false h k = elim (Bool-cases (showerrors == 0)) [
        | inl hidden ↦ rw hidden (pure-Yields _)
        | inr other ↦
            let none_shown : keep (is_shown showerrors) (x ∷ xs) ≡ [] =
              keep-none showerrors (x ∷ xs) h k in
            rw other (
              subst
                (λ l.
                  Yields (do f ← loop (no_results_line ∷ []); pure (lines_of f))
                    (no_results_line ∷ map line_of l))
                none_shown (loop-Yields (no_results_line ∷ [])))
      ]
