-- ===== src/Env/Gather.antt =====
-- What a loop collects: for each element that passes a test, a new one at the end of a list.
use maplesyrup.Base.{
  ℕ, ◌+◌, ◌≡◌, refl, sym, ap, ◌∙◌, Bool, Option, none, some, List, [], ◌∷◌, ◌++◌, map, append_assoc,
  append-nil, if◌then◌else◌, keep, Bool-cases, inl, inr,
}
use maplesyrup.Structs.{Status, success, failure}
use maplesyrup.Env.{M, add_element}
use maplesyrup.Env.Yields.{Yields, pure-Yields, add_element-Yields, fold_from}

-- A list with one more element, where there is one.
abbrev pub grown : {B : Type 0} → Option (List B) → B → Option (List B)
grown none b = none
grown (some l) b = some (l ++ b ∷ [])

module _ {A B : Type 0} where
  -- Of the elements from index `i` on that pass the test, what `make` makes of them and their indices.
  abbrev pub gather : (A → Bool) → (ℕ → A → B) → ℕ → List A → List B
  gather p make i [] = []
  gather p make i (x ∷ xs) =
      let rest = gather p make (i + 1) xs in if p x then make i x ∷ rest else rest

  pub gather-keep :
      (p : A → Bool) (make : A → B) (i : ℕ) (xs : List A)
      → gather p (λ j x. make x) i xs ≡ map make (keep p xs)
  gather-keep p make i [] = refl
  gather-keep p make i (x ∷ xs) = elim (Bool-cases (p x)) [
    | inl hit ↦ rw hit (ap (◌∷◌ (make x)) (gather-keep p make (i + 1) xs))
    | inr miss ↦ rw miss (gather-keep p make (i + 1) xs)
  ]

  pub fold_from-gather :
      (p : A → Bool) (make : ℕ → A → B) (i : ℕ) (xs : List A) (l : List B)
      → fold_from (λ j x s. if p x then grown s (make j x) else s) i xs (some l)
        ≡ some (l ++ gather p make i xs)
  fold_from-gather p make i [] l = ap some (sym (append-nil l))
  fold_from-gather p make i (x ∷ xs) l = elim (Bool-cases (p x)) [
    | inl hit ↦ rw hit (
        fold_from-gather p make (i + 1) xs (l ++ make i x ∷ [])
        ∙ ap some (append_assoc l (make i x ∷ []) (gather p make (i + 1) xs)))
    | inr miss ↦ rw miss (fold_from-gather p make (i + 1) xs l)
  ]

-- The list is grown, or there is none and nothing is done; the status does not matter.
pub add_element-grown :
    {B : Type 0} (list : Option (List B)) (item : M B) {b : B}
    → Yields item b
    → (s : Status) × Yields (add_element list item) (s, grown list b)
unfolding add_element
add_element-grown none item fills = (failure, pure-Yields _)
add_element-grown (some l) item fills = (success, add_element-Yields l item fills)
