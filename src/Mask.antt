-- ===== src/Mask.antt =====
-- The bitfield arithmetic of lib/src/parse_breakout.c: `power`, `get_mask`, `breakout_applymask` and
-- `value_to_long`. A `long long` is its bit pattern, below 2 ^ 64, and wraps around; `power 2`
-- does so from exponent 63 on, which C leaves undefined and the masks of 63 and 64 bits rely on.
pub mod Power
pub mod Extract
pub mod Tile
mod Tests
use maplesyrup.Base.{
  ℕ, zero, suc, ◌+◌, ◌-◌, ◌*◌, ◌/◌, ◌%◌, ◌^◌, Bool, ◌&&◌, not, ◌==◌, leb, if◌then◌else◌, bit_and,
  bit_or,
}

abbrev pub u64_mod : ℕ
u64_mod = 2 ^ 64

-- The recursion of `power`, on fuel; 0 if that ran out.
pub power_loop : ℕ → ℕ → ℕ → ℕ
power_loop zero x n = 0
power_loop (suc fuel) x n =
    let even = (let m = power_loop fuel x (n / 2) in m * m % u64_mod) in
    let odd = x * power_loop fuel x (n - 1) % u64_mod in
    if n == 0 then 1 else (if n % 2 == 0 then even else odd)

-- Each call has a smaller exponent, so `n + 1` calls are enough.
unfoldable pub power : ℕ → ℕ → ℕ
unfolding power_loop
power x n = power_loop (n + 1) x n

abbrev pub mask_max_bits : ℕ
mask_max_bits = 64

unfoldable pub get_mask : ℕ → ℕ
unfolding power
get_mask bits = if leb bits mask_max_bits then (power 2 bits + u64_mod - 1) % u64_mod else 0

-- value >> start of an unsigned long long. C leaves it undefined from `start` 64 on, which no row of the
-- tables has; it is 0 here.
abbrev pub shr64 : ℕ → ℕ → ℕ
shr64 value start = value / 2 ^ start

unfoldable pub breakout_applymask : (value start mask : ℕ) → ℕ
unfolding get_mask
breakout_applymask value start mask = bit_and (shr64 value start) (get_mask mask)

unfoldable pub value_to_long : (val_in_64 low high : ℕ) → ℕ
value_to_long val_in_64 low high =
    if not (val_in_64 == 0) && (low == 0 && high == 0)
    then val_in_64
    else bit_or (high * 2 ^ 32 % u64_mod) low
