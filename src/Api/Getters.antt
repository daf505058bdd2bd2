-- ===== src/Api/Getters.antt =====
-- Reading an element of the array of results, at every index.
use maplesyrup.Base.{
  ℕ, ◌<◌, ◌≤◌, ◌≡◌, ◌⊎◌, true, false, none, some, List, ◌∷◌, length, get_elem?, leb, ◌==◌,
  if◌then◌else◌, All, Bool-cases, inl, inr, get_elem?-lt, get_elem?-ge, arith,
}
use native.Mathlib.Decide.{dec_lt}
use maplesyrup.Env.{Env, Out, fault, ret, ◌>>=◌}
use maplesyrup.Api.{MsBitfieldInfo, read_field}

-- Each element says how many there are.
abbrev pub IsCounted : ℕ → List MsBitfieldInfo → Type 0
IsCounted n = All (λ (x : MsBitfieldInfo). x.array_elements ≡ n)

within :
    (index : ℕ) (x : MsBitfieldInfo) (size : ℕ)
    → x.array_elements ≡ size
    → index ≤ size
    → leb index x.array_elements ≡ true
within index x size counted h = ground arith

outside :
    (index : ℕ) (x : MsBitfieldInfo) (size : ℕ)
    → x.array_elements ≡ size
    → size < index
    → leb index x.array_elements ≡ false
outside index x size counted h = ground arith

lt_or_ge : (a b : ℕ) → (a < b) ⊎ (b ≤ a)
lt_or_ge a b = elim (dec_lt a b) [ yes h ↦ inl h | no h ↦ inr (omega arith) ]

-- What reading a field at an index comes to: the field of the element there; a read past the end at the
-- count itself, which passes the test for an index; the error beyond it.
abbrev pub outcome : {A : Type 0} → (MsBitfieldInfo → A) → A → List MsBitfieldInfo → ℕ → Env → Out A
outcome read error array index e = elim (get_elem? array index) [
  | some y ↦ ret (read y) e
  | none ↦ if index == length array then fault else ret error e
]

-- In an array whose elements say how many there are, reading a field gives the field at the index of an
-- element and the error beyond the count, and at the count itself it reads past the end.
pub read_field-outcome :
    {A : Type 0} (read : MsBitfieldInfo → A) (error : A) (x : MsBitfieldInfo)
    (xs : List MsBitfieldInfo) (index : ℕ) (e : Env)
    → IsCounted (length (x ∷ xs)) (x ∷ xs)
    → read_field read error (some (x ∷ xs)) index e ≡ outcome read error (x ∷ xs) index e
unfolding read_field ◌>>=◌
read_field-outcome read error x xs index e counted =
    let size = length (x ∷ xs) in
    elim (lt_or_ge index size) [
      | inl below ↦
          let (y, at) = get_elem?-lt (x ∷ xs) index below in
          rw (within index x size counted.0 (omega arith), outcome, at)
      | inr above ↦ elim (Bool-cases (index == size)) [
        | inl last ↦ rw (
          within index x size counted.0 (ground arith),
          outcome,
          get_elem?-ge (x ∷ xs) index above,
          last,
        )
        | inr other ↦ rw (
          outside index x size counted.0 (ground arith),
          outcome,
          get_elem?-ge (x ∷ xs) index above,
          other,
        )
      ]
    ]
