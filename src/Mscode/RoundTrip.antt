-- ===== src/Mscode/RoundTrip.antt =====
-- Codes of parts in range can be taken apart again, and every 32-bit code is one of those.
use maplesyrup.Base.{
  ℕ, ◌+◌, ◌*◌, ◌/◌, ◌%◌, ◌^◌, ◌<◌, ◌≡◌, arith, bit_or_disjoint, bit_and_ones, ◌∙◌,
}
use maplesyrup.Mscode.{mscode, mscode_partnumber, mscode_instruction, mscode_field}

abbrev pub InRange : ℕ → ℕ → ℕ → Type 0
InRange partnumber instruction field =
    (partnumber < 2 ^ 5) × (instruction < 2 ^ 11) × (field < 2 ^ 16)

pub mscode-sum : (p i f : ℕ) → InRange p i f → mscode p i f ≡ p * 2 ^ 27 + i * 2 ^ 16 + f
unfolding mscode
mscode-sum p i f (hp, hi, hf) =
    rw (high, middle, low, bit_or_disjoint 27 p (i * 2 ^ 16) (omega arith), joined)
      (bit_or_disjoint 16 (p * 2 ^ 11 + i) f (omega arith) ∙ omega arith)
  where
    high : p * 2 ^ 27 % 2 ^ 32 ≡ p * 2 ^ 27
    high = omega arith

    middle : i * 2 ^ 16 % 2 ^ 32 ≡ i * 2 ^ 16
    middle = omega arith

    low : f * 2 ^ 0 % 2 ^ 32 ≡ f
    low = omega arith

    joined : p * 2 ^ 27 + i * 2 ^ 16 ≡ (p * 2 ^ 11 + i) * 2 ^ 16
    joined = omega arith

pub mscode_partnumber-div : (c : ℕ) → mscode_partnumber c ≡ c / 2 ^ 27 % 2 ^ 5
unfolding mscode_partnumber
mscode_partnumber-div c = bit_and_ones 5 (c / 2 ^ 27)

pub mscode_instruction-div : (c : ℕ) → mscode_instruction c ≡ c / 2 ^ 16 % 2 ^ 11
unfolding mscode_instruction
mscode_instruction-div c = bit_and_ones 11 (c / 2 ^ 16)

pub mscode_field-div : (c : ℕ) → mscode_field c ≡ c % 2 ^ 16
unfolding mscode_field
mscode_field-div c = bit_and_ones 16 (c / 2 ^ 0) ∙ omega arith

ruleset decoding = (arith, mscode_partnumber-div, mscode_instruction-div, mscode_field-div)

-- A code made of a part number, a register and a field that fit their widths gives back all three.
pub decode-mscode :
    (p i f : ℕ)
    → InRange p i f
    → (mscode_partnumber (mscode p i f) ≡ p)
      × (mscode_instruction (mscode p i f) ≡ i)
      × (mscode_field (mscode p i f) ≡ f)
decode-mscode p i f (hp, hi, hf) =
    let sum = mscode-sum p i f (hp, hi, hf) in
    (
      omega (arith, mscode_partnumber-div (mscode p i f), sum),
      omega (arith, mscode_instruction-div (mscode p i f), sum),
      omega (arith, mscode_field-div (mscode p i f), sum),
    )

-- Every 32-bit code is rebuilt from the parts that the macros read from it.
pub mscode-decode :
    (c : ℕ) → c < 2 ^ 32 → mscode (mscode_partnumber c) (mscode_instruction c) (mscode_field c) ≡ c
mscode-decode c h =
    mscode-sum (mscode_partnumber c) (mscode_instruction c) (mscode_field c)
      (omega decoding, omega decoding, omega decoding)
    ∙ omega decoding

-- Distinct parts in range have distinct codes.
pub mscode-injective :
    (p i f q j g : ℕ)
    → InRange p i f
    → InRange q j g
    → mscode p i f ≡ mscode q j g
    → (p ≡ q) × (i ≡ j) × (f ≡ g)
mscode-injective p i f q j g h k e = omega (arith, mscode-sum p i f h, mscode-sum q j g k)
