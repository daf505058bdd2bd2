-- ===== src/Bitfields/Distinct.antt =====
-- The codes that `mscode` gives the rows of the tables of lib/src/bitfields.
use maplesyrup.Base.{
  ℕ, zero, suc, ◌^◌, ◌<◌, ◌≡◌, refl, sym, ap, Bool, true, false, ◌&&◌, not, some, List, [], ◌∷◌,
  some_of, all_of, get_elem?, ◌==◌, ltb, arith,
}
use mathlib.Core.Option.{some-injective}
use mathlib.Core.Path.{subst}
use maplesyrup.Structs.{BitfieldInfo}
use maplesyrup.Mscode.{mscode, partnumber_bits, instruction_bits, field_bits}
use maplesyrup.Mscode.RoundTrip.{mscode-injective}
use maplesyrup.Bitfields.Tiling.{Table, armv7a, armv8a, gicd, gicc, rows_of}

-- The tables of system registers; the codes of devices hold the offset of the register as the field.
abbrev pub is_system_table : Table → Bool
is_system_table armv7a = true
is_system_table armv8a = true
is_system_table gicd = false
is_system_table gicc = false

-- The register and the field number of a row fit their bits of a code.
abbrev fits : BitfieldInfo → Bool
fits x = ltb x.register_uid (2 ^ instruction_bits) && ltb x.uid (2 ^ field_bits)

abbrev same_field : BitfieldInfo → BitfieldInfo → Bool
same_field x y = x.register_uid == y.register_uid && x.uid == y.uid

abbrev all_distinct : List BitfieldInfo → Bool
all_distinct [] = true
all_distinct (x ∷ xs) = not (some_of (same_field x) xs) && all_distinct xs

rows_of-fits : (t : Table) → is_system_table t ≡ true → all_of fits (rows_of t) ≡ true
unfolding rows_of
rows_of-fits armv7a system = refl
rows_of-fits armv8a system = refl
rows_of-fits gicd system = absurd (ground arith)
rows_of-fits gicc system = absurd (ground arith)

rows_of-distinct : (t : Table) → is_system_table t ≡ true → all_distinct (rows_of t) ≡ true
unfolding rows_of
rows_of-distinct armv7a system = refl
rows_of-distinct armv8a system = refl
rows_of-distinct gicd system = absurd (ground arith)
rows_of-distinct gicc system = absurd (ground arith)

pub get_elem?-all_of :
    {A : Type 0} (p : A → Bool) (rows : List A) (i : ℕ) (x : A)
    → all_of p rows ≡ true
    → get_elem? rows i ≡ some x
    → p x ≡ true
get_elem?-all_of p [] i x all at = ground arith
get_elem?-all_of p (y ∷ rows) zero x all at =
    subst (λ z. p z ≡ true) (some-injective y x at) (ground arith)
get_elem?-all_of p (y ∷ rows) (suc i) x all at = get_elem?-all_of p rows i x (ground arith) at

get_elem?-some_of :
    (p : BitfieldInfo → Bool) (rows : List BitfieldInfo) (i : ℕ) (x : BitfieldInfo)
    → some_of p rows ≡ false
    → get_elem? rows i ≡ some x
    → p x ≡ false
get_elem?-some_of p [] i x all at = ground arith
get_elem?-some_of p (y ∷ rows) zero x all at =
    subst (λ z. p z ≡ false) (some-injective y x at) (ground arith)
get_elem?-some_of p (y ∷ rows) (suc i) x all at = get_elem?-some_of p rows i x (ground arith) at

-- Rows of the same register and field number are one row.
all_distinct-index :
    (rows : List BitfieldInfo) (i j : ℕ) (x y : BitfieldInfo)
    → all_distinct rows ≡ true
    → get_elem? rows i ≡ some x
    → get_elem? rows j ≡ some y
    → x.register_uid ≡ y.register_uid
    → x.uid ≡ y.uid
    → i ≡ j
all_distinct-index [] i j x y distinct at at' r u = ground arith
all_distinct-index (z ∷ rows) zero zero x y distinct at at' r u = refl
all_distinct-index (z ∷ rows) zero (suc j) x y distinct at at' r u =
    let apart : same_field z y ≡ false =
      get_elem?-some_of (same_field z) rows j y (ground arith) at' in
    let same : same_field z y ≡ true =
      subst (λ v. same_field v y ≡ true) (sym (some-injective z x at)) (ground arith) in
    cc
all_distinct-index (z ∷ rows) (suc i) zero x y distinct at at' r u =
    let apart : same_field z x ≡ false =
      get_elem?-some_of (same_field z) rows i x (ground arith) at in
    let same : same_field z x ≡ true =
      subst (λ v. same_field v x ≡ true) (sym (some-injective z y at')) (ground arith) in
    cc
all_distinct-index (z ∷ rows) (suc i) (suc j) x y distinct at at' r u =
    ap suc (all_distinct-index rows i j x y (ground arith) at at' r u)

-- In each table of system registers, rows with the same code are the same row, whatever part numbers
-- of five bits the codes are made with.
pub rows_of-mscode :
    (t : Table) (p q i j : ℕ) (x y : BitfieldInfo)
    → is_system_table t ≡ true
    → p < 2 ^ partnumber_bits
    → q < 2 ^ partnumber_bits
    → get_elem? (rows_of t) i ≡ some x
    → get_elem? (rows_of t) j ≡ some y
    → mscode p x.register_uid x.uid ≡ mscode q y.register_uid y.uid
    → i ≡ j
rows_of-mscode t p q i j x y system hp hq at at' code =
    let fx = get_elem?-all_of fits (rows_of t) i x (rows_of-fits t system) at in
    let fy = get_elem?-all_of fits (rows_of t) j y (rows_of-fits t system) at' in
    let (part, register, field) =
      mscode-injective p x.register_uid x.uid q y.register_uid y.uid
        (hp, ground arith, ground arith) (hq, ground arith, ground arith) code in
    all_distinct-index (rows_of t) i j x y (rows_of-distinct t system) at at' register field
