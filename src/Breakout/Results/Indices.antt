-- ===== src/Breakout/Results/Indices.antt =====
-- The indices of the bitfields of a register.
use maplesyrup.Base.{
  ℕ, zero, suc, ◌+◌, ◌≡◌, ◌≢◌, Bool, Option, some, List, [], ◌∷◌, get_elem?, ◌==◌, ==_refl, ==_ne,
  if◌then◌else◌, keep, All, Bool-cases, inl, inr,
}
use maplesyrup.Structs.{success, BitfieldInfoHeap}
use maplesyrup.Env.{pure}
use maplesyrup.Env.Loop.{next, for_loop}
use maplesyrup.Env.Yields.{
  Yields, Returns-Yields, bind-Yields, pure-Yields, Suffix, Suffix-tail, Suffix-head, Suffix-start,
}
use maplesyrup.Env.Gather.{gather, grown, add_element-grown}
use maplesyrup.Breakout.Tables.{Globals}
use maplesyrup.Breakout.Lookup.{table_entry}
use maplesyrup.Breakout.Lookup.First.{IsLoaded, entry_of, table_entry-Returns}
use maplesyrup.Breakout.Lookup.Loop.{table_loop-gather}
use maplesyrup.Breakout.Add.{breakout_add_table_index}
use maplesyrup.Breakout.Results.{index_list_body, breakout_construct_bitfield_list}

-- The bitfield is one of the register.
abbrev pub is_field_of : ℕ → BitfieldInfoHeap → Bool
is_field_of ioctl x = x.register_uid == ioctl

-- The indices are those of the entries.
abbrev pub Pointing : List BitfieldInfoHeap → List ℕ → List BitfieldInfoHeap → Type 0
Pointing table [] [] = Unit
Pointing table [] (x ∷ xs) = ⊥
Pointing table (i ∷ is) [] = ⊥
Pointing table (i ∷ is) (x ∷ xs) = (get_elem? table i ≡ some x) × Pointing table is xs

gather-Pointing :
    (table : List BitfieldInfoHeap) (p : BitfieldInfoHeap → Bool) (rest : List BitfieldInfoHeap)
    (i : ℕ)
    → Suffix table i rest
    → Pointing table (gather p (λ j x. j) i rest) (keep p rest)
gather-Pointing table p [] i at = tt
gather-Pointing table p (x ∷ rest) i at =
    let tail = gather-Pointing table p rest (i + 1) (Suffix-tail table i x rest at) in
    elim (Bool-cases (p x)) [
      | inl hit ↦ rw hit (Suffix-head table i x rest at, tail)
      | inr miss ↦ rw miss tail
    ]

module _ (g : Globals) {table : List BitfieldInfoHeap} (loaded : IsLoaded g table) where
  index_list_body-Yields :
      (ioctl i : ℕ) (x : BitfieldInfoHeap) (s : Option (List ℕ))
      → get_elem? table i ≡ some x
      → Yields (index_list_body g ioctl i s) (next (if is_field_of ioctl x then grown s i else s))
  unfolding index_list_body breakout_add_table_index
  index_list_body-Yields ioctl i x s at =
      bind-Yields (table_entry g i) _ (Returns-Yields _ (table_entry-Returns g loaded i x at))
        (elim (Bool-cases (is_field_of ioctl x)) [
          | inl hit ↦
              let (status, added) = add_element-grown s (pure i) (pure-Yields _) in
              rw hit (bind-Yields _ _ added (pure-Yields _))
          | inr miss ↦ rw miss (pure-Yields _)
        ])

  -- The indices that are found are those of the entries of the register, in order.
  pub breakout_construct_bitfield_list-Yields :
      (ioctl : ℕ)
      → (is : List ℕ) × Yields
          (breakout_construct_bitfield_list g ioctl (some []))
          (success, some is)
        × Pointing table is (keep (is_field_of ioctl) table)
  unfolding breakout_construct_bitfield_list
  breakout_construct_bitfield_list-Yields ioctl = (
    gather (is_field_of ioctl) (λ j x. j) 0 table,
    bind-Yields (for_loop (index_list_body g ioctl) g.table_size 0 (some [])) _
        (table_loop-gather g loaded (index_list_body g ioctl) (is_field_of ioctl) (λ j x. j)
          (index_list_body-Yields ioctl) [])
        (pure-Yields _),
    gather-Pointing table (is_field_of ioctl) table 0 (Suffix-start table),
  )

-- No two entries have one code.
abbrev pub Unique : List BitfieldInfoHeap → Type 0
Unique [] = Unit
Unique (x ∷ xs) = All (λ y. y.uid ≢ x.uid) xs × Unique xs

pub All-get_elem? :
    {A : Type 0} (P : A → Type 0) (xs : List A) (i : ℕ) (x : A)
    → All P xs
    → get_elem? xs i ≡ some x
    → P x
All-get_elem? P [] i x h at = cc
All-get_elem? P (y ∷ xs) zero x h at = let same : y ≡ x = cc at in rw same at h.0
All-get_elem? P (y ∷ xs) (suc i) x h at = All-get_elem? P xs i x h.1 at

-- Each entry is then the first with its code.
pub Unique-entry_of :
    (table : List BitfieldInfoHeap) (i : ℕ) (x : BitfieldInfoHeap)
    → Unique table
    → get_elem? table i ≡ some x
    → entry_of x.uid table ≡ some x
unfolding entry_of
Unique-entry_of [] i x unique at = cc
Unique-entry_of (y ∷ table) zero x unique at = let same : y ≡ x = cc at in rw (same, ==_refl x.uid)
Unique-entry_of (y ∷ table) (suc i) x unique at =
    let apart = All-get_elem? (λ z. z.uid ≢ y.uid) table i x unique.0 at in
    rw (==_ne y.uid x.uid (λ e. apart (cc e))) (Unique-entry_of table i x unique.1 at)
