-- ===== src/Mask/Tile.antt =====
-- Fields that tile a register: the values that `breakout_applymask` takes out of it, put back at
-- their shifts, are the register again.
use native.Mathlib.Nat.{div-add-mod, mod-lt}
use maplesyrup.Base.{
  ℕ, ◌+◌, ◌*◌, ◌/◌, ◌%◌, ◌^◌, ◌≤◌, ◌<◌, ◌≡◌, ap, ◌∙◌, List, [], ◌∷◌, arith, mod-of_sum,
}
use maplesyrup.Mask.{breakout_applymask, mask_max_bits}
use maplesyrup.Mask.Power.{pow-add}
use maplesyrup.Mask.Extract.{breakout_applymask-div, two_pow_pos}

-- A field of a register, as the `rightshift` and the `mask` of a table entry give it.
pub record Field : Type 0 where
  pub rightshift : ℕ
  pub mask : ℕ

-- The fields follow one another with no gap and no overlap, from bit `lo` to below bit `hi`.
abbrev pub Tiles : ℕ → ℕ → List Field → Type 0
Tiles lo hi [] = lo ≡ hi
Tiles lo hi (f ∷ fs) = (f.rightshift ≡ lo) × (f.mask ≤ mask_max_bits) × Tiles (lo + f.mask) hi fs

-- The extracted values, each shifted back to its place, summed.
pub reassemble : ℕ → List Field → ℕ
reassemble value [] = 0
reassemble value (f ∷ fs) =
    breakout_applymask value f.rightshift f.mask * 2 ^ f.rightshift + reassemble value fs

place_in_range : (i r n m : ℕ) → i < n → r < m → i * m + r < n * m
place_in_range i r n m p q = grind arith

-- The low `s + w` bits are the low `s` bits and the `w` bits above them.
low_bits_split : (v s w : ℕ) → v % 2 ^ (s + w) ≡ v / 2 ^ s % 2 ^ w * 2 ^ s + v % 2 ^ s
low_bits_split v s w =
    ap (λ (t : ℕ). t % 2 ^ (s + w)) split
    ∙ mod-of_sum (2 ^ (s + w)) (v / 2 ^ s / 2 ^ w) (v / 2 ^ s % 2 ^ w * 2 ^ s + v % 2 ^ s) fits
  where
    split : v ≡ 2 ^ (s + w) * (v / 2 ^ s / 2 ^ w) + (v / 2 ^ s % 2 ^ w * 2 ^ s + v % 2 ^ s)
    split = omega (
      arith,
      div-add-mod v (2 ^ s),
      ap (λ (t : ℕ). t * 2 ^ s) (div-add-mod (v / 2 ^ s) (2 ^ w)),
      ap (λ (t : ℕ). t * (v / 2 ^ s / 2 ^ w)) (pow-add 2 s w),
    )

    fits : v / 2 ^ s % 2 ^ w * 2 ^ s + v % 2 ^ s < 2 ^ (s + w)
    fits = omega (
      arith,
      pow-add 2 s w,
      place_in_range (v / 2 ^ s % 2 ^ w) (v % 2 ^ s) (2 ^ w) (2 ^ s)
          (mod-lt (v / 2 ^ s) (two_pow_pos w)) (mod-lt v (two_pow_pos s)),
    )

reassemble-low :
    (value lo hi : ℕ) (fs : List Field)
    → Tiles lo hi fs
    → reassemble value fs + value % 2 ^ lo ≡ value % 2 ^ hi
unfolding reassemble
reassemble-low value lo hi [] e = omega (arith, ap (λ (t : ℕ). value % 2 ^ t) e)
reassemble-low value lo hi (f ∷ fs) (at, narrow, rest) = omega (
  arith,
  ap (λ (t : ℕ). breakout_applymask value t f.mask * 2 ^ t) at,
  ap (λ (t : ℕ). t * 2 ^ lo) (breakout_applymask-div value lo f.mask narrow),
  low_bits_split value lo f.mask,
  reassemble-low value (lo + f.mask) hi fs rest,
)

-- The fields of a register that tile its bits from 0 to `hi` carry exactly those bits: put back at
-- their shifts they give the value of the register modulo 2 ^ hi.
pub reassemble-value :
    (value hi : ℕ) (fs : List Field) → Tiles 0 hi fs → reassemble value fs ≡ value % 2 ^ hi
reassemble-value value hi fs t = omega (arith, reassemble-low value 0 hi fs t)
