-- ===== src/Breakout/Lookup/Index.antt =====
-- `breakout_get_index` searches the whole table and stops at the first hit.
use native.Mathlib.Nat.{zero-add}
use maplesyrup.Base.{
  ℕ, suc, ◌+◌, ◌≡◌, refl, ◌≢◌, ap, ◌∙◌, false, Option, none, some, List, [], ◌∷◌, get_elem?, take,
  arith, ◌==◌, ==_iff, Bool-cases, inl, inr, ◌⊎◌, All,
}
use maplesyrup.Structs.{BitfieldInfoHeap}
use maplesyrup.Env.Yields.{Returns}
use maplesyrup.Breakout.Tables.{Globals}
use maplesyrup.Breakout.Lookup.{breakout_get_index}
use maplesyrup.Breakout.Lookup.First.{IsLoaded, index_from, breakout_get_index-Returns}

abbrev pub Misses : ℕ → BitfieldInfoHeap → Type 0
Misses code x = x.uid ≢ code

-- `i` is the index of the first entry with the code.
pub record IsFirst (code : ℕ) (table : List BitfieldInfoHeap) (i : ℕ) : Type 0 where
  pub entry : BitfieldInfoHeap
  pub there : get_elem? table i ≡ some entry
  pub hit : entry.uid ≡ code
  pub before : All (Misses code) (take i table)

abbrev pub Found : ℕ → List BitfieldInfoHeap → Option ℕ → Type 0
Found code table none = All (Misses code) table
Found code table (some i) = IsFirst code table i

-- The same with the index where the search of `rest` began.
abbrev FoundFrom : ℕ → ℕ → List BitfieldInfoHeap → Type 0
FoundFrom code i rest =
    ((index_from code i rest ≡ none) × All (Misses code) rest)
    ⊎ ((k : ℕ) × (index_from code i rest ≡ some (i + k)) × IsFirst code rest k)

miss_of : (code : ℕ) (x : BitfieldInfoHeap) → (x.uid == code) ≡ false → Misses code x
miss_of code x h = ground arith

IsFirst-cons :
    (code : ℕ) (x : BitfieldInfoHeap) (rest : List BitfieldInfoHeap) (k : ℕ)
    → Misses code x
    → IsFirst code rest k
    → IsFirst code (x ∷ rest) (suc k)
IsFirst-cons code x rest k miss first = record {
  entry = first.entry;
  there = first.there;
  hit = first.hit;
  before = (miss, first.before);
}

found_from : (code i : ℕ) (rest : List BitfieldInfoHeap) → FoundFrom code i rest
unfolding index_from
found_from code i [] = inl (refl, tt)
found_from code i (x ∷ rest) = elim (Bool-cases (x.uid == code)) [
  | inl hit ↦ inr (
    0,
    rw hit (ap (λ (n : ℕ). some n) (omega arith)),
    record { entry = x; there = refl; hit = (==_iff x.uid code).0 hit; before = tt },
  )
  | inr miss ↦ elim (found_from code (i + 1) rest) [
    | inl (absent, all) ↦ inl (rw miss absent, (miss_of code x miss, all))
    | inr (k, found, first) ↦ inr (
      suc k,
      rw miss (found ∙ ap (λ (n : ℕ). some n) (omega arith)),
      IsFirst-cons code x rest k (miss_of code x miss) first,
    )
  ]
]

-- On a loaded table `breakout_get_index` has no effect and no fault. It fails only if no entry has the
-- code; otherwise it gives the index of the first entry that has it.
pub breakout_get_index-Found :
    (g : Globals) (table : List BitfieldInfoHeap) (code : ℕ)
    → IsLoaded g table
    → (r : Option ℕ) × Returns (breakout_get_index g code) r × Found code table r
breakout_get_index-Found g table code loaded = elim (found_from code 0 table) [
  | inl (absent, all) ↦ (none, rw absent at (breakout_get_index-Returns g loaded code), all)
  | inr (k, found, first) ↦
      (some k, rw (found, zero-add) at (breakout_get_index-Returns g loaded code), first)
]
