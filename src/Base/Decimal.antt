-- ===== src/Base/Decimal.antt =====
-- `%d` and `%02d` of printf for numbers that are not negative.
use Prim.Native.Nat.{ℕ, zero, suc, ◌+◌, ◌/◌, ◌%◌}
use mathlib.Core.List.{[], ◌∷◌}
use maplesyrup.Base.Tests.{ltb, if◌then◌else◌}
use maplesyrup.Base.Text.{CString}

-- On fuel; each round drops a digit.
decimal_loop : ℕ → ℕ → CString → CString
decimal_loop zero n acc = acc
decimal_loop (suc fuel) n acc =
    let rest = decimal_loop fuel (n / 10) ((b'0' + n % 10) ∷ acc) in
    if ltb n 10 then (b'0' + n) ∷ acc else rest

unfoldable pub decimal : ℕ → CString
unfolding decimal_loop
decimal n = decimal_loop (n + 1) n []

unfoldable pub decimal_02 : ℕ → CString
unfolding decimal
decimal_02 n = if ltb n 10 then b'0' ∷ decimal n else decimal n
