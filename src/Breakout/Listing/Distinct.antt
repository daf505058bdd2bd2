-- ===== src/Breakout/Listing/Distinct.antt =====
-- The listings name each group and each register of the table once.
use maplesyrup.Base.{
  ℕ, ◌+◌, ◌≡◌, refl, sym, All, All-append, Bool, true, Option, some, List, [], ◌∷◌, ◌++◌, length,
  get_elem?, some_of, if◌then◌else◌, Bool-cases, inl, inr,
}
use mathlib.Core.Path.{subst}
use maplesyrup.Structs.{success, BitfieldInfoHeap, BitfieldInfoPopulated}
use maplesyrup.Env.Loop.{next, for_loop}
use maplesyrup.Env.Yields.{
  Yields, Returns-Yields, bind-Yields, pure-Yields, Suffix, Suffix-tail, Suffix-head, Suffix-start,
}
use maplesyrup.Breakout.Tables.{Globals}
use maplesyrup.Breakout.Lookup.{table_entry}
use maplesyrup.Breakout.Lookup.First.{IsLoaded, table_entry-Returns}
use maplesyrup.Breakout.Add.{breakout_add_bitfield_result}
use maplesyrup.Breakout.Add.Elements.{bitfield_result, breakout_add_bitfield_result-Yields}
use maplesyrup.Breakout.Results.Indices.{Unique, Unique-entry_of}
use maplesyrup.Breakout.Listing.{listing_body, listing}

-- An entry as it is listed, with no value.
abbrev pub listed : BitfieldInfoHeap → BitfieldInfoPopulated
listed x = bitfield_result x x.uid 0 0 0 0 0 0 0

-- A test for the entries that are present, on lists that are there.
module _ (same : BitfieldInfoHeap → BitfieldInfoPopulated → Bool) where
  abbrev pub list_from :
      List BitfieldInfoHeap → List BitfieldInfoPopulated → List BitfieldInfoPopulated
  list_from [] l = l
  list_from (x ∷ xs) l = list_from xs (if some_of (same x) l then l else l ++ listed x ∷ [])

  abbrev pub IsPresent : List BitfieldInfoPopulated → BitfieldInfoHeap → Type 0
  IsPresent l x = some_of (same x) l ≡ true

-- An element that is an entry of the table as it is listed.
abbrev pub IsFrom : List BitfieldInfoHeap → BitfieldInfoPopulated → Type 0
IsFrom table t = (i : ℕ) × (x : BitfieldInfoHeap) × (get_elem? table i ≡ some x) × (t ≡ listed x)

pub list_from-IsFrom :
    (same : BitfieldInfoHeap → BitfieldInfoPopulated → Bool) (table rest : List BitfieldInfoHeap)
    (i : ℕ) (l : List BitfieldInfoPopulated)
    → Suffix table i rest
    → All (IsFrom table) l
    → All (IsFrom table) (list_from same rest l)
list_from-IsFrom same table [] i l at all = all
list_from-IsFrom same table (x ∷ rest) i l at all =
    list_from-IsFrom same table rest (i + 1) _ (Suffix-tail table i x rest at)
      (elim (Bool-cases (some_of (same x) l)) [
        | inl there ↦ rw there all
        | inr absent ↦ rw absent (
            All-append (IsFrom table) l (listed x ∷ []) all
              ((i, x, Suffix-head table i x rest at, refl), tt))
      ])

module _ (g : Globals) {table : List BitfieldInfoHeap} (loaded : IsLoaded g table)
    (unique : Unique table)
    (present : BitfieldInfoHeap → Option (List BitfieldInfoPopulated) → Option Bool)
    (same : BitfieldInfoHeap → BitfieldInfoPopulated → Bool)
    (agree : (x : BitfieldInfoHeap) (l : List BitfieldInfoPopulated)
      → present x (some l) ≡ some (some_of (same x) l)) where
  listing_body-Yields :
      (i : ℕ) (x : BitfieldInfoHeap) (l : List BitfieldInfoPopulated)
      → get_elem? table i ≡ some x
      → Yields
          (listing_body g present i (some l))
          (next (some (if some_of (same x) l then l else l ++ listed x ∷ [])))
  unfolding listing_body
  listing_body-Yields i x l at =
      bind-Yields (table_entry g i) _ (Returns-Yields _ (table_entry-Returns g loaded i x at))
        (elim (Bool-cases (some_of (same x) l)) [
          | inl there ↦ rw (agree x l, there) (pure-Yields _)
          | inr absent ↦
              rw (agree x l, absent)
                (bind-Yields (breakout_add_bitfield_result g (some l) x.uid 0 0 0 0 0 0 0) _
                  (breakout_add_bitfield_result-Yields g loaded l x x.uid 0 0 0 0 0 0 0
                    (Unique-entry_of table i x unique at))
                  (pure-Yields _))
        ])

  listing_from :
      (rest : List BitfieldInfoHeap) (i : ℕ) (l : List BitfieldInfoPopulated)
      → Suffix table i rest
      → Yields
          (for_loop (listing_body g present) (length rest) i (some l))
          (next (some (list_from same rest l)))
  unfolding for_loop
  listing_from [] i l at = pure-Yields _
  listing_from (x ∷ rest) i l at =
      bind-Yields (listing_body g present i (some l)) _
        (listing_body-Yields i x l (Suffix-head table i x rest at))
        (listing_from rest (i + 1) _ (Suffix-tail table i x rest at))

  pub listing-Yields :
      (l : List BitfieldInfoPopulated)
      → Yields (listing g present (some l)) (success, some (list_from same table l))
  unfolding listing
  listing-Yields l =
      bind-Yields (for_loop (listing_body g present) g.table_size 0 (some l)) _
        (subst
          (λ (n : ℕ).
            Yields (for_loop (listing_body g present) n 0 (some l))
              (next (some (list_from same table l))))
          (sym loaded.size) (listing_from table 0 l (Suffix-start table)))
        (pure-Yields _)
