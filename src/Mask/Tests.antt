-- ===== src/Mask/Tests.antt =====
-- Bitfields of concrete registers, and the theorems at them.
use maplesyrup.Base.{ℕ, ◌-◌, ◌/◌, ◌%◌, ◌^◌, ◌<◌, ◌≡◌, refl, arith}
use maplesyrup.Mask.{power, get_mask, breakout_applymask, value_to_long}
use maplesyrup.Mask.Extract.{breakout_applymask-field}

-- MIDR of a Cortex-A7, as the usage text of the front end has it.
abbrev midr : ℕ
midr = 0x410fc073

part_number : breakout_applymask midr 4 12 ≡ 0xc07
unfolding breakout_applymask
part_number = refl

power_wraps : power 2 64 ≡ 0
unfolding power
power_wraps = refl

all_ones : get_mask 64 ≡ 2 ^ 64 - 1
unfolding get_mask
all_ones = refl

too_wide : get_mask 65 ≡ 0
unfolding get_mask
too_wide = refl

-- The second word takes precedence over a 64-bit value.
both_given : value_to_long 5 0 1 ≡ 2 ^ 32
unfolding value_to_long
both_given = refl

breakout_applymask-field_example :
    (breakout_applymask midr 4 12 ≡ midr / 2 ^ 4 % 2 ^ 12) × (breakout_applymask midr 4 12 < 2 ^ 12)
breakout_applymask-field_example = breakout_applymask-field midr 4 12 (omega arith) (omega arith)
