-- ===== src/Breakout/Lookup/First.antt =====
-- A lookup finds the first entry with the code, and fails exactly when there is none.
use maplesyrup.Base.{
  ℕ, zero, suc, ◌+◌, ◌≡◌, refl, sym, ap, ◌∙◌, Option, none, some, List, [], ◌∷◌, length, get_elem?,
  ◌==◌, ==_iff, ==_refl, if◌then◌else◌, Bool-cases, Option-cases, inl, inr,
}
use mathlib.Core.Option
use mathlib.Core.Path.{subst}
use maplesyrup.Structs.{BitfieldInfoHeap}
use maplesyrup.Env.{ret, deref}
use maplesyrup.Env.Loop.{Flow, next, leave, for_loop}
use maplesyrup.Env.Yields.{Returns, bind-Returns, Suffix, Suffix-tail, Suffix-head, Suffix-start}
use maplesyrup.Breakout.Tables.{Globals}
use maplesyrup.Breakout.Lookup.{
  table_entry, index_body, ended, breakout_get_index, column, get_register_name,
  get_functional_group, get_description, get_bitfield, get_bitfieldstamp, stamp_text,
}

-- The globals hold `table`, and count it.
pub record IsLoaded (g : Globals) (table : List BitfieldInfoHeap) : Type 0 where
  pub capacity : ℕ
  pub heap : g.table_heap ≡ some (record { capacity = capacity; cells = table })
  pub size : g.table_size ≡ length table

unfoldable pub index_from : ℕ → ℕ → List BitfieldInfoHeap → Option ℕ
index_from code i [] = none
index_from code i (x ∷ xs) = if x.uid == code then some i else index_from code (i + 1) xs

-- The first entry with a code.
unfoldable pub entry_of : ℕ → List BitfieldInfoHeap → Option BitfieldInfoHeap
entry_of code [] = none
entry_of code (x ∷ xs) = if x.uid == code then some x else entry_of code xs

flow : Option ℕ → Flow (Option ℕ)
flow none = next none
flow (some i) = leave (some i)

ended-flow : (o : Option ℕ) → ended (flow o) ≡ o
unfolding flow
ended-flow none = refl
ended-flow (some i) = refl

-- The entry at the index that is found is the first with the code.
index-entry_none :
    (code : ℕ) (rest : List BitfieldInfoHeap) (i : ℕ)
    → index_from code i rest ≡ none
    → entry_of code rest ≡ none
unfolding index_from entry_of
index-entry_none code [] i h = refl
index-entry_none code (x ∷ rest) i h = elim (Bool-cases (x.uid == code)) [
  | inl hit ↦ cc (rw hit at h)
  | inr miss ↦ rw miss (index-entry_none code rest (i + 1) (rw miss at h))
]

index-entry_some :
    (code : ℕ) (table rest : List BitfieldInfoHeap) (i j : ℕ)
    → Suffix table i rest
    → index_from code i rest ≡ some j
    → (x : BitfieldInfoHeap) × (entry_of code rest ≡ some x) × (get_elem? table j ≡ some x)
unfolding index_from entry_of
index-entry_some code table [] i j at h = cc
index-entry_some code table (x ∷ rest) i j at h = elim (Bool-cases (x.uid == code)) [
  | inl hit ↦
      let same : some i ≡ some j = rw hit at h in
      let index : j ≡ i = cc same in
      (x, rw hit, ap (get_elem? table) index ∙ Suffix-head table i x rest at)
  | inr miss ↦
      let (y, first, there) =
        index-entry_some code table rest (i + 1) j (Suffix-tail table i x rest at) (rw miss at h) in
      (y, rw miss first, there)
]

module _ (g : Globals) {table : List BitfieldInfoHeap} (loaded : IsLoaded g table) where
  pub table_entry-Returns :
      (i : ℕ) (x : BitfieldInfoHeap) → get_elem? table i ≡ some x → Returns (table_entry g i) x
  unfolding table_entry
  table_entry-Returns i x at =
      rw loaded.heap (bind-Returns (deref (some _)) _ (λ e. refl) (rw at (λ e. refl)))

  index_body-Returns :
      (code i : ℕ) (x : BitfieldInfoHeap)
      → get_elem? table i ≡ some x
      → Returns (index_body g code i none) (if x.uid == code then leave (some i) else next none)
  unfolding index_body
  index_body-Returns code i x at =
      bind-Returns (table_entry g i) _ (table_entry-Returns i x at)
        (elim (Bool-cases (x.uid == code)) [
          | inl hit ↦ rw hit (λ e. refl)
          | inr miss ↦ rw miss (λ e. refl)
        ])

  search-Returns :
      (code : ℕ) (rest : List BitfieldInfoHeap) (i : ℕ)
      → Suffix table i rest
      → Returns (for_loop (index_body g code) (length rest) i none) (flow (index_from code i rest))
  unfolding for_loop index_from flow
  search-Returns code [] i at = λ e. refl
  search-Returns code (x ∷ rest) i at =
      let here = index_body-Returns code i x (Suffix-head table i x rest at) in
      elim (Bool-cases (x.uid == code)) [
        | inl hit ↦ rw hit (bind-Returns (index_body g code i none) _ (rw hit at here) (λ e. refl))
        | inr miss ↦ rw miss (
            bind-Returns (index_body g code i none) _ (rw miss at here)
              (search-Returns code rest (i + 1) (Suffix-tail table i x rest at)))
      ]

  pub breakout_get_index-Returns :
      (code : ℕ) → Returns (breakout_get_index g code) (index_from code 0 table)
  unfolding breakout_get_index
  breakout_get_index-Returns code =
      bind-Returns (for_loop (index_body g code) g.table_size 0 none) _
        (subst
          (λ (n : ℕ).
            Returns (for_loop (index_body g code) n 0 none) (flow (index_from code 0 table)))
          (sym loaded.size) (search-Returns code table 0 (Suffix-start table)))
        (λ e. ap (λ r. ret r e) (ended-flow (index_from code 0 table)))

  column-Returns :
      {A : Type 0} (read : BitfieldInfoHeap → A) (code : ℕ)
      → Returns (column read g code) (Option.map read (entry_of code table))
  column-Returns read code =
      bind-Returns (breakout_get_index g code) _ (breakout_get_index-Returns code)
        (elim (Option-cases (index_from code 0 table)) [
          | inl absent ↦ rw (absent, index-entry_none code table 0 absent) (λ e. refl)
          | inr (i, found) ↦
              let (x, same, at) =
                index-entry_some code table table 0 i (Suffix-start table) found in
              rw (found, same)
                (bind-Returns (table_entry g i) _ (table_entry-Returns i x at) (λ e. refl))
        ])

  pub get_register_name-Returns :
      (code : ℕ)
      → Returns
          (get_register_name g code)
          (Option.map (λ x. x.register_name_expanded) (entry_of code table))
  unfolding get_register_name
  get_register_name-Returns = column-Returns (λ x. x.register_name_expanded)

  pub get_functional_group-Returns :
      (code : ℕ)
      → Returns
          (get_functional_group g code)
          (Option.map (λ x. x.functional_group) (entry_of code table))
  unfolding get_functional_group
  get_functional_group-Returns = column-Returns (λ x. x.functional_group)

  pub get_description-Returns :
      (code : ℕ)
      → Returns (get_description g code) (Option.map (λ x. x.description) (entry_of code table))
  unfolding get_description
  get_description-Returns = column-Returns (λ x. x.description)

  pub get_bitfield-Returns :
      (code : ℕ)
      → Returns (get_bitfield g code) (Option.map (λ x. x.bitfield) (entry_of code table))
  unfolding get_bitfield
  get_bitfield-Returns = column-Returns (λ x. x.bitfield)

  pub get_bitfieldstamp-Returns :
      (code : ℕ) → Returns (get_bitfieldstamp g code) (Option.map stamp_text (entry_of code table))
  unfolding get_bitfieldstamp
  get_bitfieldstamp-Returns = column-Returns stamp_text

-- The entry that is found has the code, and there is one for every code of the table.
pub entry_of-uid :
    (code : ℕ) (table : List BitfieldInfoHeap) (x : BitfieldInfoHeap)
    → entry_of code table ≡ some x
    → x.uid ≡ code
unfolding entry_of
entry_of-uid code [] x h = cc
entry_of-uid code (y ∷ table) x h = elim (Bool-cases (y.uid == code)) [
  | inl hit ↦
      let same : some y ≡ some x = rw hit at h in
      let first : x ≡ y = cc same in
      ap (λ (z : BitfieldInfoHeap). z.uid) first ∙ (==_iff y.uid code).0 hit
  | inr miss ↦ entry_of-uid code table x (rw miss at h)
]

pub entry_of-some :
    (table : List BitfieldInfoHeap) (i : ℕ) (x : BitfieldInfoHeap)
    → get_elem? table i ≡ some x
    → (y : BitfieldInfoHeap) × (entry_of x.uid table ≡ some y)
unfolding entry_of
entry_of-some [] i x h = cc
entry_of-some (y ∷ table) zero x h =
    let first : y ≡ x = cc h in (y, rw (ap (λ (z : BitfieldInfoHeap). z.uid) first, ==_refl x.uid))
entry_of-some (y ∷ table) (suc i) x h = elim (Bool-cases (y.uid == x.uid)) [
  | inl hit ↦ (y, rw hit)
  | inr miss ↦ let (z, found) = entry_of-some table i x h in (z, rw miss found)
]
