-- ===== src/Mscode/Spill.antt =====
-- What becomes of the part number when the register number does not fit its 11 bits.
use native.Mathlib.Nat.{mod-eq_of_lt}
use maplesyrup.Base.{
  ℕ, ◌*◌, ◌/◌, ◌%◌, ◌^◌, ◌<◌, ◌≡◌, arith, bit_or, bit_or_empty, bit_or-shift, bit_or-lt, ap, ◌∙◌,
}
use mathlib.Core.Path.{ap₂}
use maplesyrup.Mscode.{mscode, mscode_partnumber}
use maplesyrup.Mscode.RoundTrip.{mscode_partnumber-div}

shift_part :
    (p i f : ℕ) → p < 2 ^ 5 → f < 2 ^ 16 → mscode p i f / 2 ^ 27 ≡ bit_or p (i / 2 ^ 11 % 2 ^ 5)
unfolding mscode
shift_part p i f hp hf =
    bit_or-shift 27 (bit_or (p * 2 ^ 27 % 2 ^ 32) (i * 2 ^ 16 % 2 ^ 32)) (f * 2 ^ 0 % 2 ^ 32)
    ∙ ap₂ bit_or
        (bit_or-shift 27 (p * 2 ^ 27 % 2 ^ 32) (i * 2 ^ 16 % 2 ^ 32) ∙ ap₂ bit_or part register)
        field
    ∙ bit_or_empty (bit_or p (i / 2 ^ 11 % 2 ^ 5))
  where
    part : p * 2 ^ 27 % 2 ^ 32 / 2 ^ 27 ≡ p
    part = omega arith

    register : i * 2 ^ 16 % 2 ^ 32 / 2 ^ 27 ≡ i / 2 ^ 11 % 2 ^ 5
    register = omega arith

    field : f * 2 ^ 0 % 2 ^ 32 / 2 ^ 27 ≡ 0
    field = omega arith

-- The bits of a register number above its 11 bits are merged into the part number: the part number that
-- is read back from a code is the one given, or-ed with those bits. The field has to fit.
pub partnumber-spill :
    (p i f : ℕ)
    → p < 2 ^ 5
    → f < 2 ^ 16
    → mscode_partnumber (mscode p i f) ≡ bit_or p (i / 2 ^ 11 % 2 ^ 5)
partnumber-spill p i f hp hf =
    mscode_partnumber-div (mscode p i f)
    ∙ ap (λ (t : ℕ). t % 2 ^ 5) (shift_part p i f hp hf)
    ∙ mod-eq_of_lt (bit_or-lt 5 p (i / 2 ^ 11 % 2 ^ 5) hp (omega arith))
