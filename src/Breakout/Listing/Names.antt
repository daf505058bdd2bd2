-- ===== src/Breakout/Listing/Names.antt =====
-- `get_groups`, `get_registers` and `get_bitfields` on a table in memory.
use maplesyrup.Base.{
  ℕ, ◌-◌, ◌≤◌, ◌≡◌, refl, sym, ap, ◌∙◌, Bool, true, false, ◌||◌, some, List, [], ◌∷◌, ◌++◌, map,
  append_assoc, append-nil, CString, strncmp_eq, strncmp_refl, take-length_le, length, some_of,
  if◌then◌else◌, All, Bool-cases, inl, inr, arith,
}
use mathlib.Core.Path.{subst}
use maplesyrup.Structs.{
  success, BitfieldInfoHeap, BitfieldInfoPopulated, parse_max_register, parse_max_functional,
}
use maplesyrup.Env.Yields.{Yields, Suffix-start}
use maplesyrup.Breakout.Tables.{Globals}
use maplesyrup.Breakout.Lookup.First.{IsLoaded}
use maplesyrup.Breakout.Add.Elements.{bitfield_result}
use maplesyrup.Breakout.Results.Indices.{Unique}
use maplesyrup.Breakout.Listing.{
  get_find, listing, group_present, register_present, get_groups, get_registers, get_bitfields,
}
use maplesyrup.Breakout.Listing.Distinct.{
  listed, list_from, IsFrom, list_from-IsFrom, IsPresent, listing-Yields,
}

some_of-append :
    {A : Type 0} (p : A → Bool) (xs : List A) (y : A)
    → some_of p (xs ++ y ∷ []) ≡ (some_of p xs || p y)
some_of-append p [] y = ground arith
some_of-append p (x ∷ xs) y = ground (arith, some_of-append p xs y)

module _ (shown : BitfieldInfoPopulated → CString) (n : ℕ) where
  -- No element has the name of an earlier one.
  abbrev pub NoRepeat : List BitfieldInfoPopulated → Type 0
  NoRepeat [] = Unit
  NoRepeat (t ∷ ts) = (some_of (λ u. strncmp_eq (shown u) (shown t) n) ts ≡ false) × NoRepeat ts

  NoRepeat-append :
      (ts : List BitfieldInfoPopulated) (u : BitfieldInfoPopulated)
      → NoRepeat ts
      → some_of (λ t. strncmp_eq (shown u) (shown t) n) ts ≡ false
      → NoRepeat (ts ++ u ∷ [])
  NoRepeat-append [] u h new = (refl, tt)
  NoRepeat-append (t ∷ ts) u (here, rest) new = (
    some_of-append (λ v. strncmp_eq (shown v) (shown t) n) ts u ∙ ground arith,
    NoRepeat-append ts u rest (ground arith),
  )

  module _ (name : BitfieldInfoHeap → CString) where
    abbrev pub same_name : BitfieldInfoHeap → BitfieldInfoPopulated → Bool
    same_name x t = strncmp_eq (name x) (shown t) n

    -- The name is listed whole.
    abbrev pub Fits : BitfieldInfoHeap → Type 0
    Fits x = shown (listed x) ≡ name x

    list_from-keeps :
        (xs : List BitfieldInfoHeap) (l : List BitfieldInfoPopulated) (x : BitfieldInfoHeap)
        → IsPresent same_name l x
        → IsPresent same_name (list_from same_name xs l) x
    list_from-keeps [] l x h = h
    list_from-keeps (y ∷ xs) l x h = elim (Bool-cases (some_of (same_name y) l)) [
      | inl there ↦ rw there (list_from-keeps xs l x h)
      | inr absent ↦ rw absent (
          list_from-keeps xs (l ++ listed y ∷ []) x
            (some_of-append (same_name x) l (listed y) ∙ ground (arith, h)))
    ]

    abbrev Once : List BitfieldInfoHeap → List BitfieldInfoPopulated → Type 0
    Once xs l = NoRepeat l × All (IsPresent same_name l) xs

    pub list_from-Once :
        (xs : List BitfieldInfoHeap) (l : List BitfieldInfoPopulated)
        → All Fits xs
        → NoRepeat l
        → Once xs (list_from same_name xs l)
    list_from-Once [] l fits h = (h, tt)
    list_from-Once (x ∷ xs) l (fit, fits) h =
        let grown = l ++ listed x ∷ [] in
        let result = λ (k : List BitfieldInfoPopulated). Once (x ∷ xs) (list_from same_name xs k) in
        let self : strncmp_eq (name x) (shown (listed x)) n ≡ true =
          ap (λ s. strncmp_eq (name x) s n) fit ∙ strncmp_refl (name x) n in
        elim (Bool-cases (some_of (same_name x) l)) [
          | inl there ↦
              let (once, all) = list_from-Once xs l fits h in
              let kept : (if some_of (same_name x) l then l else grown) ≡ l = rw there refl in
              subst result (sym kept) (once, (list_from-keeps xs l x there, all))
          | inr absent ↦
              let new =
                subst (λ s. some_of (λ t. strncmp_eq s (shown t) n) l ≡ false) (sym fit) absent in
              let (once, all) = list_from-Once xs grown fits (NoRepeat-append l (listed x) h new) in
              let kept : (if some_of (same_name x) l then l else grown) ≡ grown = rw absent refl in
              subst result (sym kept) (
                once,
                (
                  list_from-keeps xs grown x
                      (some_of-append (same_name x) l (listed x) ∙ ground (arith, self)),
                  all,
                ),
              )
        ]

module _ (g : Globals) {table : List BitfieldInfoHeap} (loaded : IsLoaded g table)
    (unique : Unique table) where
  group_Fits :
      (xs : List BitfieldInfoHeap)
      → All (λ x. length x.functional_group ≤ parse_max_functional - 1) xs
      → All (Fits (λ t. t.functional_group) parse_max_functional (λ x. x.functional_group)) xs
  unfolding bitfield_result
  group_Fits [] h = tt
  group_Fits (x ∷ xs) (here, rest) =
      (take-length_le (parse_max_functional - 1) x.functional_group here, group_Fits xs rest)

  -- With a loaded table whose codes are distinct and whose group names fit a result, and memory at hand,
  -- the groups that are listed are those of the table: no name is listed twice, every entry's group is
  -- listed, and each element of the list is an entry of the table.
  pub get_groups-once :
      All (λ x. length x.functional_group ≤ parse_max_functional - 1) table
      → (l : List BitfieldInfoPopulated) × Yields (get_groups g (some [])) (success, some l)
        × NoRepeat (λ t. t.functional_group) parse_max_functional l
        × All
            (λ x.
              some_of (λ t. strncmp_eq x.functional_group t.functional_group parse_max_functional) l
              ≡ true)
            table
        × All (IsFrom table) l
  unfolding get_groups get_find
  get_groups-once short =
      let name = (λ (x : BitfieldInfoHeap). x.functional_group) in
      let same = same_name (λ t. t.functional_group) parse_max_functional name in
      let (once, all) =
        list_from-Once (λ t. t.functional_group) parse_max_functional name table []
          (group_Fits table short) tt in
      (
        list_from same table [],
        listing-Yields g loaded unique group_present same (λ x l. refl) [],
        once,
        all,
        list_from-IsFrom same table table 0 [] (Suffix-start table) tt,
      )

  register_Fits :
      (xs : List BitfieldInfoHeap)
      → All (λ x. length x.register_name_expanded ≤ parse_max_register - 1) xs
      → All (Fits (λ t. t.register_name) parse_max_register (λ x. x.register_name_expanded)) xs
  unfolding bitfield_result
  register_Fits [] h = tt
  register_Fits (x ∷ xs) (here, rest) =
      (take-length_le (parse_max_register - 1) x.register_name_expanded here, register_Fits xs rest)

  -- The same of the registers: no name is listed twice, and every entry's register is listed.
  pub get_registers-once :
      All (λ x. length x.register_name_expanded ≤ parse_max_register - 1) table
      → (l : List BitfieldInfoPopulated) × Yields (get_registers g (some [])) (success, some l)
        × NoRepeat (λ t. t.register_name) parse_max_register l
        × All
            (λ x.
              some_of
                (λ t. strncmp_eq x.register_name_expanded t.register_name parse_max_register)
                l
              ≡ true)
            table
  unfolding get_registers get_find
  get_registers-once short =
      let name = (λ (x : BitfieldInfoHeap). x.register_name_expanded) in
      let same = same_name (λ t. t.register_name) parse_max_register name in
      let (once, all) =
        list_from-Once (λ t. t.register_name) parse_max_register name table []
          (register_Fits table short) tt in
      (
        list_from same table [],
        listing-Yields g loaded unique register_present same (λ x l. refl) [],
        once,
        all,
      )

none_same : (l : List BitfieldInfoPopulated) → some_of (λ t. false) l ≡ false
none_same [] = refl
none_same (t ∷ l) = none_same l

list_from-all :
    (xs : List BitfieldInfoHeap) (l : List BitfieldInfoPopulated)
    → list_from (λ x t. false) xs l ≡ l ++ map listed xs
list_from-all [] l = sym (append-nil l)
list_from-all (x ∷ xs) l =
    rw (none_same l)
      (list_from-all xs (l ++ listed x ∷ []) ∙ append_assoc l (listed x ∷ []) (map listed xs))

-- With a loaded table whose codes are distinct, and memory at hand, every bitfield of the table is
-- listed, in the order of the table.
pub get_bitfields-all :
    (g : Globals) (table : List BitfieldInfoHeap)
    → IsLoaded g table
    → Unique table
    → Yields (get_bitfields g (some [])) (success, some (map listed table))
unfolding get_bitfields
get_bitfields-all g table loaded unique =
    subst
      (λ (l : List BitfieldInfoPopulated).
        Yields (listing g (λ x o. some false) (some [])) (success, some l))
      (list_from-all table [])
      (listing-Yields g loaded unique (λ x o. some false) (λ x t. false)
        (λ x l. ap some (sym (none_same l))) [])
