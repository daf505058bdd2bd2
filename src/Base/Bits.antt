-- ===== src/Base/Bits.antt =====
-- `&` and `|` on machine words, where one side is a mask of low bits or the two share no bit.
use Prim.Native.Nat.{
  ℕ, zero, suc, ◌+◌, ◌-◌, ◌*◌, ◌/◌, ◌%◌, ◌^◌, ◌≤◌, ◌<◌, min, max, bit_and, bit_or, digits,
  bit_and-bitwise, bit_or-bitwise,
}
use mathlib.Core.Path.{◌≡◌, refl, sym, ap, ap₂, ◌∙◌}
use native.Mathlib.Nat.{
  pow-suc, one-le-pow, mod-lt, mod-eq_of_lt, mul-add-mod_self_left, div-div-eq-div-mul,
  div-eq_of_lt, div-add-mod,
}
use native.Mathlib.Omega.{arith}
use native.Mathlib.Decide.{dec_lt}

-- A native bit operation is a recursion on digits, whose count only has to reach the first operand.
module _ (ends : ℕ → ℕ) (op : ℕ → ℕ → ℕ) where
  digits_enough : (c d x y : ℕ) → x ≤ c → x ≤ d → digits ends op c x y ≡ digits ends op d x y
  digits_enough c d zero y p q = digits_zero c ∙ digits_zero' d
    where
      digits_zero : (n : ℕ) → digits ends op n 0 y ≡ ends y
      digits_zero zero = refl
      digits_zero (suc n) = refl

      digits_zero' : (n : ℕ) → ends y ≡ digits ends op n 0 y
      digits_zero' zero = refl
      digits_zero' (suc n) = refl
  digits_enough zero d (suc x) y p q = absurd (omega arith)
  digits_enough (suc c) zero (suc x) y p q = absurd (omega arith)
  digits_enough (suc c) (suc d) (suc x) y p q =
      ap (λ t. t * 2 + op (suc x % 2) (y % 2))
        (digits_enough c d (suc x / 2) (y / 2) (omega arith) (omega arith))

pub bit_and_digit : (x y : ℕ) → bit_and x y ≡ bit_and (x / 2) (y / 2) * 2 + min (x % 2) (y % 2)
bit_and_digit zero y = omega (arith, bit_and-bitwise 0 y, bit_and-bitwise 0 (y / 2))
bit_and_digit (suc x) y = omega (
  arith,
  bit_and-bitwise (suc x) y,
  bit_and-bitwise (suc x / 2) (y / 2),
  digits_enough (λ _. 0) min x (suc x / 2) (suc x / 2) (y / 2) (omega arith) (omega arith),
)

pub bit_or_digit : (x y : ℕ) → bit_or x y ≡ bit_or (x / 2) (y / 2) * 2 + max (x % 2) (y % 2)
bit_or_digit zero y = omega (arith, bit_or-bitwise 0 y, bit_or-bitwise 0 (y / 2))
bit_or_digit (suc x) y = omega (
  arith,
  bit_or-bitwise (suc x) y,
  bit_or-bitwise (suc x / 2) (y / 2),
  digits_enough (λ b. b) max x (suc x / 2) (suc x / 2) (y / 2) (omega arith) (omega arith),
)

bit_or_empty_below : (n x : ℕ) → x ≤ n → bit_or x 0 ≡ x
bit_or_empty_below n zero h = refl
bit_or_empty_below zero (suc x) h = absurd (omega arith)
bit_or_empty_below (suc n) (suc x) h =
    omega (arith, bit_or_digit (suc x) 0, bit_or_empty_below n (suc x / 2) (omega arith))

pub bit_or_empty : (x : ℕ) → bit_or x 0 ≡ x
bit_or_empty x = bit_or_empty_below x x (omega arith)

bit_and_empty_below : (n x : ℕ) → x ≤ n → bit_and x 0 ≡ 0
bit_and_empty_below n zero h = refl
bit_and_empty_below zero (suc x) h = absurd (omega arith)
bit_and_empty_below (suc n) (suc x) h =
    omega (arith, bit_and_digit (suc x) 0, bit_and_empty_below n (suc x / 2) (omega arith))

double_shift : (q w : ℕ) → q * 2 ^ suc w ≡ q * 2 ^ w * 2
double_shift q w = omega (arith, ap (λ (t : ℕ). q * t) (pow-suc 2 w))

-- A high field and a low field of `w` bits share no bit, so `|` adds them.
pub bit_or_disjoint :
    (w high low : ℕ) → low < 2 ^ w → bit_or (high * 2 ^ w) low ≡ high * 2 ^ w + low
bit_or_disjoint zero high low fits =
    let none_low : low ≡ 0 = omega arith in rw none_low (omega (arith, bit_or_empty (high * 2 ^ 0)))
bit_or_disjoint (suc w) high low fits = omega (
  arith,
  bit_or_digit (high * 2 ^ suc w) low,
  double_shift high w,
  pow-suc 2 w,
  ap (λ (t : ℕ). bit_or t (low / 2)) halved,
  bit_or_disjoint w high (low / 2) (omega (arith, pow-suc 2 w)),
)
  where
    halved : high * 2 ^ suc w / 2 ≡ high * 2 ^ w
    halved = omega (arith, double_shift high w)

pub mod-of_sum : (m q r : ℕ) → r < m → (m * q + r) % m ≡ r
mod-of_sum m q r h = mul-add-mod_self_left m q r ∙ mod-eq_of_lt h

mod-double : (m x : ℕ) → 0 < m → x % (2 * m) ≡ x / 2 % m * 2 + x % 2
mod-double m x h =
    ap (λ (t : ℕ). t % (2 * m)) split
    ∙ mod-of_sum (2 * m) (x / 2 / m) (x / 2 % m * 2 + x % 2) (omega (arith, mod-lt (x / 2) h))
  where
    split : x ≡ 2 * m * (x / 2 / m) + (x / 2 % m * 2 + x % 2)
    split = omega (arith, div-add-mod (x / 2) m)

-- A shift to the right goes into `|`.
pub bit_or-shift : (w x y : ℕ) → bit_or x y / 2 ^ w ≡ bit_or (x / 2 ^ w) (y / 2 ^ w)
bit_or-shift zero x y = omega (
  arith,
  ap (λ (t : ℕ). bit_or t (y / 2 ^ 0)) (let e : x / 2 ^ 0 ≡ x = omega arith in e),
  ap (λ (t : ℕ). bit_or x t) (let e : y / 2 ^ 0 ≡ y = omega arith in e),
)
bit_or-shift (suc w) x y =
    halve w (bit_or x y)
    ∙ ap (λ (t : ℕ). t / 2 ^ w)
        (let e : bit_or x y / 2 ≡ bit_or (x / 2) (y / 2) = omega (arith, bit_or_digit x y) in e)
    ∙ bit_or-shift w (x / 2) (y / 2)
    ∙ sym (ap₂ bit_or (halve w x) (halve w y))
  where
    halve : (v n : ℕ) → n / 2 ^ suc v ≡ n / 2 / 2 ^ v
    halve v n =
        ap (λ (t : ℕ). n / t) (let e : 2 ^ suc v ≡ 2 * 2 ^ v = omega (arith, pow-suc 2 v) in e)
        ∙ sym (div-div-eq-div-mul n 2 (2 ^ v))

-- `|` of numbers below 2 ^ w stays below it.
pub bit_or-lt : (w x y : ℕ) → x < 2 ^ w → y < 2 ^ w → bit_or x y < 2 ^ w
bit_or-lt w x y hx hy = elim (dec_lt (bit_or x y) (2 ^ w)) [
  | yes fits ↦ fits
  | no large ↦ absurd (
      omega (
        arith,
        none_above,
        div-add-mod (bit_or x y) (2 ^ w),
        mod-lt (bit_or x y) (one-le-pow w 2 (omega arith)),
        ap (λ (t : ℕ). 2 ^ w * t) none_above,
      ))
]
  where
    none_above : bit_or x y / 2 ^ w ≡ 0
    none_above = bit_or-shift w x y ∙ ap₂ bit_or (div-eq_of_lt hx) (div-eq_of_lt hy)

-- A mask of `w` ones keeps the low `w` bits.
pub bit_and_ones : (w x : ℕ) → bit_and x (2 ^ w - 1) ≡ x % 2 ^ w
bit_and_ones zero x = bit_and_empty_below x x (omega arith) ∙ omega arith
bit_and_ones (suc w) x = omega (
  arith,
  bit_and_digit x (2 ^ suc w - 1),
  twice,
  some_bit,
  ap (λ (t : ℕ). bit_and (x / 2) t) halved,
  ap (λ (t : ℕ). x % t) twice,
  bit_and_ones w (x / 2),
  mod-double (2 ^ w) x some_bit,
)
  where
    twice : 2 ^ suc w ≡ 2 * 2 ^ w
    twice = omega (arith, pow-suc 2 w)

    some_bit : 0 < 2 ^ w
    some_bit = one-le-pow w 2 (omega arith)

    halved : (2 ^ suc w - 1) / 2 ≡ 2 ^ w - 1
    halved = omega (arith, twice, some_bit)
