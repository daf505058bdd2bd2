-- ===== src/Mask/Extract.antt =====
-- What `get_mask`, `breakout_applymask` and `value_to_long` compute, as arithmetic.
use native.Mathlib.Nat.{one-le-pow, pow-le-pow_right, mod-lt}
use maplesyrup.Base.{
  ℕ, ◌+◌, ◌-◌, ◌*◌, ◌/◌, ◌%◌, ◌^◌, ◌≤◌, ◌<◌, ◌≡◌, ap, ◌∙◌, arith, le→leb, bit_and, bit_or,
  bit_and_ones, bit_or_disjoint,
}
use maplesyrup.Mask.{get_mask, breakout_applymask, value_to_long, mask_max_bits, shr64}
use maplesyrup.Mask.Power.{power-pow}

-- 2 ^ bits - 1 in 64 bits, also where 2 ^ 64 has wrapped to 0.
ones64 : (t : ℕ) → 0 < t → t ≤ 2 ^ 64 → (t % 2 ^ 64 + 2 ^ 64 - 1) % 2 ^ 64 ≡ t - 1
ones64 t h k = omega arith

pub two_pow_pos : (w : ℕ) → 0 < 2 ^ w
two_pow_pos w = one-le-pow w 2 (omega arith)

-- `get_mask` is a mask of as many ones as it is asked for, up to all 64.
pub get_mask-ones : (bits : ℕ) → bits ≤ mask_max_bits → get_mask bits ≡ 2 ^ bits - 1
unfolding get_mask
get_mask-ones bits h =
    rw (le→leb bits 64 h, power-pow 2 bits)
      (ones64 (2 ^ bits) (two_pow_pos bits) (pow-le-pow_right (omega arith) h))

pub breakout_applymask-div :
    (value start mask : ℕ)
    → mask ≤ mask_max_bits
    → breakout_applymask value start mask ≡ value / 2 ^ start % 2 ^ mask
unfolding breakout_applymask
breakout_applymask-div value start mask h =
    ap (bit_and (shr64 value start)) (get_mask-ones mask h) ∙ bit_and_ones mask (shr64 value start)

-- For a start below 64 and a width of at most 64 bits, `breakout_applymask` is the field of `mask` bits
-- that begins at bit `start`, and fits its width.
pub breakout_applymask-field :
    (value start mask : ℕ)
    → start < 64
    → mask ≤ mask_max_bits
    → (breakout_applymask value start mask ≡ value / 2 ^ start % 2 ^ mask)
      × (breakout_applymask value start mask < 2 ^ mask)
breakout_applymask-field value start mask low h =
    let field = breakout_applymask-div value start mask h in
    (field, rw field (mod-lt (value / 2 ^ start) (two_pow_pos mask)))

-- A register read as one 64-bit value is passed on, and one read as two words is put together.
pub value_to_long-parts :
    (v low high : ℕ)
    → low < 2 ^ 32
    → high < 2 ^ 32
    → (value_to_long v 0 0 ≡ v) × (value_to_long 0 low high ≡ high * 2 ^ 32 + low)
unfolding value_to_long
value_to_long-parts v low high hl hh = (
  ground arith,
  ap (λ (t : ℕ). bit_or t low) (let e : high * 2 ^ 32 % 2 ^ 64 ≡ high * 2 ^ 32 = omega arith in e)
      ∙ bit_or_disjoint 32 high low hl,
)
