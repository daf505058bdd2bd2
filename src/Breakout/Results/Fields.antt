-- ===== src/Breakout/Results/Fields.antt =====
-- The fields of a value that the caller supplies.
use maplesyrup.Base.{
  ℕ, zero, suc, ◌≡◌, refl, sym, ap, ◌∙◌, ◌≢◌, Bool, true, false, ◌&&◌, some, List, [], ◌∷◌, ◌++◌,
  map, append_assoc, append-nil, get_elem?, ◌==◌, ==_iff, ==_refl, ==_ne, keep, All, Bool-cases,
  inl, inr,
}
use mathlib.Core.Path.{subst, fun_ext}
use maplesyrup.Structs.{BitfieldInfoHeap, BitfieldInfoPopulated, ResultsInfo, MatchInfo}
use maplesyrup.Mask.{breakout_applymask}
use maplesyrup.Breakout.Add.Elements.{bitfield_result}
use maplesyrup.Breakout.Search.Keep.{match_of}
use maplesyrup.Breakout.Results.Indices.{Unique, is_field_of, All-get_elem?}
use maplesyrup.Breakout.Results.Masks.{field_result}
use maplesyrup.Breakout.Results.Filter.{asks_for, filter_step, filter_one, filter_all, plain_result}

filter_step-hit :
    (r : ResultsInfo) (x : BitfieldInfoPopulated) (y : BitfieldInfoHeap)
    (list : List BitfieldInfoPopulated)
    → asks_for r x ≡ true
    → (r.noparse == 1) ≡ false
    → filter_step r x y list ≡ list ++ plain_result x y ∷ []
unfolding filter_step
filter_step-hit r x y list hit parsed = rw (hit, parsed)

filter_step-miss :
    (r : ResultsInfo) (x : BitfieldInfoPopulated) (y : BitfieldInfoHeap)
    (list : List BitfieldInfoPopulated)
    → asks_for r x ≡ false
    → filter_step r x y list ≡ list
unfolding filter_step
filter_step-miss r x y list miss = rw miss

-- What a request of bitfields, not of whole registers, makes of the values of some entries.
filter_one-keep :
    (r : ResultsInfo) (value : BitfieldInfoHeap → BitfieldInfoPopulated)
    (ys : List BitfieldInfoHeap) (list : List BitfieldInfoPopulated)
    → (r.noparse == 1) ≡ false
    → filter_one r (map value ys) ys list
      ≡ list ++ map (λ y. plain_result (value y) y) (keep (λ y. asks_for r (value y)) ys)
unfolding filter_one
filter_one-keep r value [] list parsed = sym (append-nil list)
filter_one-keep r value (y ∷ ys) list parsed = elim (Bool-cases (asks_for r (value y))) [
  | inl hit ↦
      let new = plain_result (value y) y in
      let shown = map (λ z. plain_result (value z) z) (keep (λ z. asks_for r (value z)) ys) in
      rw hit (
        ap (filter_one r (map value ys) ys) (filter_step-hit r (value y) y list hit parsed)
        ∙ (filter_one-keep r value ys (list ++ new ∷ []) parsed
            ∙ append_assoc list (new ∷ []) shown))
  | inr miss ↦ rw miss (
      ap (filter_one r (map value ys) ys) (filter_step-miss r (value y) y list miss)
      ∙ filter_one-keep r value ys list parsed)
]

-- The entries of a register that have a code that is none of theirs, or that of one of them.
keep-none :
    (uid : ℕ) (p : BitfieldInfoHeap → Bool) (ys : List BitfieldInfoHeap)
    → All (λ y. y.uid ≢ uid) ys
    → keep (λ y. uid == y.uid) (keep p ys) ≡ []
keep-none uid p [] apart = refl
keep-none uid p (y ∷ ys) apart =
    let rest = keep-none uid p ys apart.1 in
    elim (Bool-cases (p y)) [
      | inl hit ↦ rw (hit, ==_ne uid y.uid (λ e. apart.0 (sym e))) rest
      | inr miss ↦ rw miss rest
    ]

keep-one :
    (table : List BitfieldInfoHeap) (i : ℕ) (x : BitfieldInfoHeap) (p : BitfieldInfoHeap → Bool)
    → Unique table
    → get_elem? table i ≡ some x
    → p x ≡ true
    → keep (λ y. x.uid == y.uid) (keep p table) ≡ x ∷ []
keep-one [] i x p unique at hit = cc at
keep-one (y ∷ table) zero x p unique at hit =
    let same : y ≡ x = cc at in
    rw (same, hit, ==_refl x.uid)
      (ap (◌∷◌ x) (
        keep-none x.uid p table
          (subst (λ (z : BitfieldInfoHeap). All (λ w. w.uid ≢ z.uid) table) same unique.0)))
keep-one (y ∷ table) (suc i) x p unique at hit =
    let rest = keep-one table i x p unique.1 at hit in
    elim (Bool-cases (p y)) [
      | inl other ↦
          rw
            (
              other,
              ==_ne x.uid y.uid (λ e. All-get_elem? (λ z. z.uid ≢ y.uid) table i x unique.0 at e),
            )
            rest
      | inr miss ↦ rw miss rest
    ]

-- A result of a value that the caller supplied: the field of the entry's width and place.
abbrev pub value_result : ℕ → BitfieldInfoHeap → BitfieldInfoPopulated
value_result calc x =
    bitfield_result x x.uid x.register_uid (breakout_applymask calc x.rightshift x.mask) 0 0 0 0 0

-- A list of entries that are in the table, of one register.
abbrev pub Fields : List BitfieldInfoHeap → ℕ → List BitfieldInfoHeap → Type 0
Fields table ioctl = All (λ x. ((i : ℕ) × (get_elem? table i ≡ some x)) × (x.register_uid ≡ ioctl))

and_true : (a : Bool) → (a && true) ≡ a
and_true true = refl
and_true false = refl

asks_for-value :
    (info : MatchInfo) (x y : BitfieldInfoHeap) (calc : ℕ)
    → asks_for (match_of info x) (field_result calc 0 0 0 0 y) ≡ (x.uid == y.uid)
unfolding bitfield_result
asks_for-value info x y calc = and_true (x.uid == y.uid)

-- Each request for a field of a supplied value adds that field.
module _ (table : List BitfieldInfoHeap) (unique : Unique table) (info : MatchInfo) (ioctl : ℕ)
    (parsed : (info.noparse == 1) ≡ false) where
  filter_one-value :
      (x : BitfieldInfoHeap) (list : List BitfieldInfoPopulated)
      → ((i : ℕ) × (get_elem? table i ≡ some x)) × (x.register_uid ≡ ioctl)
      → filter_one
          (match_of info x)
          (map (field_result info.calc_value 0 0 0 0) (keep (is_field_of ioctl) table))
          (keep (is_field_of ioctl) table)
          list
        ≡ list ++ value_result info.calc_value x ∷ []
  unfolding bitfield_result
  filter_one-value x list ((i, at), of) =
      let fields = keep (is_field_of ioctl) table in
      let value = field_result info.calc_value 0 0 0 0 in
      filter_one-keep (match_of info x) value fields list parsed
      ∙ (ap
            (λ (p : BitfieldInfoHeap → Bool).
              list ++ map (λ y. plain_result (value y) y) (keep p fields))
            (fun_ext (λ y. asks_for-value info x y info.calc_value))
          ∙ ap (λ (ys : List BitfieldInfoHeap). list ++ map (λ y. plain_result (value y) y) ys)
              (keep-one table i x (is_field_of ioctl) unique at
                ((==_iff x.register_uid ioctl).1 of)))

  pub filter_all-value :
      (xs : List BitfieldInfoHeap) (list : List BitfieldInfoPopulated)
      → Fields table ioctl xs
      → filter_all
          (map (match_of info) xs)
          (map (field_result info.calc_value 0 0 0 0) (keep (is_field_of ioctl) table))
          (keep (is_field_of ioctl) table)
          list
        ≡ list ++ map (value_result info.calc_value) xs
  unfolding filter_all
  filter_all-value [] list fields = sym (append-nil list)
  filter_all-value (x ∷ xs) list fields =
      let rest = keep (is_field_of ioctl) table in
      let values = map (field_result info.calc_value 0 0 0 0) rest in
      let new = value_result info.calc_value x in
      ap (filter_all (map (match_of info) xs) values rest) (filter_one-value x list fields.0)
      ∙ (filter_all-value xs (list ++ new ∷ []) fields.1
          ∙ append_assoc list (new ∷ []) (map (value_result info.calc_value) xs))
