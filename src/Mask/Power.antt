-- ===== src/Mask/Power.antt =====
-- `power` by repeated squaring is the power, modulo 2 ^ 64, and its recursion ends.
use native.Mathlib.Nat.{pow-zero, pow-suc, div-add-mod}
use maplesyrup.Base.{
  ℕ, zero, suc, ◌+◌, ◌-◌, ◌*◌, ◌/◌, ◌%◌, ◌^◌, ◌<◌, ◌≡◌, sym, ap, ◌∙◌, inl, inr, arith, ◌==◌, ==_iff,
  Bool-cases,
}
use native.Mathlib.Nat.{mul-add-mod_self_left}
use maplesyrup.Mask.{power, power_loop, u64_mod}

pub pow-add : (x a b : ℕ) → x ^ (a + b) ≡ x ^ a * x ^ b
pow-add x a zero = omega (
  arith,
  ap (λ (t : ℕ). x ^ t) (let e : a + 0 ≡ a = omega arith in e),
  ap (λ (t : ℕ). x ^ a * t) (pow-zero x),
)
pow-add x a (suc b) =
    ap (λ (t : ℕ). x ^ t) (let e : a + suc b ≡ suc (a + b) = omega arith in e)
    ∙ omega (
      arith,
      pow-suc x (a + b),
      ap (λ (t : ℕ). t * x) (pow-add x a b),
      ap (λ (t : ℕ). x ^ a * t) (pow-suc x b),
    )

-- The remainder of a product depends on the remainders of its factors alone.
mul-mod_self : (m a b : ℕ) → a % m * (b % m) % m ≡ a * b % m
mul-mod_self m a b = sym (
    ap (λ (t : ℕ). t % m) split
    ∙ mul-add-mod_self_left m (a / m * b + a % m * (b / m)) (a % m * (b % m)))
  where
    split : a * b ≡ m * (a / m * b + a % m * (b / m)) + a % m * (b % m)
    split = omega (
      arith,
      ap (λ (t : ℕ). t * b) (div-add-mod a m),
      ap (λ (t : ℕ). a % m * t) (div-add-mod b m),
    )

mul-mod_right' : (m a b : ℕ) → a * (b % m) % m ≡ a * b % m
mul-mod_right' m a b =
    sym (ap (λ (t : ℕ). t % m) split ∙ mul-add-mod_self_left m (a * (b / m)) (a * (b % m)))
  where
    split : a * b ≡ m * (a * (b / m)) + a * (b % m)
    split = omega (arith, ap (λ (t : ℕ). a * t) (div-add-mod b m))

square : (x n : ℕ) → n % 2 ≡ 0 → x ^ (n / 2) * x ^ (n / 2) ≡ x ^ n
square x n even =
    sym (pow-add x (n / 2) (n / 2))
    ∙ ap (λ (t : ℕ). x ^ t) (let e : n / 2 + n / 2 ≡ n = omega arith in e)

step : (x n : ℕ) → 0 < n → x * x ^ (n - 1) ≡ x ^ n
step x zero h = absurd (omega arith)
step x (suc n) h =
    omega (arith, pow-suc x n, ap (λ (t : ℕ). x * x ^ t) (let e : suc n - 1 ≡ n = omega arith in e))

power_loop-pow : (fuel x n : ℕ) → n < fuel → power_loop fuel x n ≡ x ^ n % u64_mod
unfolding power_loop
power_loop-pow zero x n h = absurd (omega arith)
power_loop-pow (suc fuel) x n h = elim (Bool-cases (n == 0)) [
  | inl none_left ↦ rw none_left (
      sym (
        ap (λ (t : ℕ). t % u64_mod)
          (ap (λ (t : ℕ). x ^ t) ((==_iff n 0).0 none_left) ∙ pow-zero x)))
  | inr more ↦ elim (Bool-cases (n % 2 == 0)) [
    | inl even ↦
        rw (more, even)
          (rw (power_loop-pow fuel x (n / 2) (ground arith)) (
            mul-mod_self u64_mod (x ^ (n / 2)) (x ^ (n / 2))
            ∙ ap (λ (t : ℕ). t % u64_mod) (square x n ((==_iff (n % 2) 0).0 even))))
    | inr odd ↦
        rw (more, odd)
          (rw (power_loop-pow fuel x (n - 1) (ground arith)) (
            mul-mod_right' u64_mod x (x ^ (n - 1))
            ∙ ap (λ (t : ℕ). t % u64_mod) (step x n (ground arith))))
  ]
]

-- `power` computes the power in 64 bits.
pub power-pow : (x n : ℕ) → power x n ≡ x ^ n % 2 ^ 64
unfolding power
power-pow x n = power_loop-pow (n + 1) x n (omega arith)
