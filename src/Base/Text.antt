-- ===== src/Base/Text.antt =====
-- C strings as the bytes before the terminating zero, and the functions of string.h on them.
use Prim.Native.Nat.{ℕ, zero, suc}
use Prim.Native.Char.{code}
use Prim.Native.String.{String}
use mathlib.Core.Bool.{Bool, true, false, ◌&&◌}
use mathlib.Core.List.{List, [], ◌∷◌}
use mathlib.Core.Path.{◌≡◌, refl}
use native.Mathlib.Omega.{arith}
use maplesyrup.Base.Tests.{◌==◌}
use maplesyrup.Base.Lists.{take}

abbrev pub CString : Type 0
CString = List ℕ

abbrev pub cstr : String → CString
cstr String.[] = []
cstr (String.◌∷◌ c s) = code c ∷ cstr s

-- strncpy (dst, src, n) into a buffer of zeros that is longer than n.
abbrev pub strncpy : CString → ℕ → CString
strncpy src n = take n src

-- strncmp (a, b, n) == 0
abbrev pub strncmp_eq : CString → CString → ℕ → Bool
strncmp_eq a b zero = true
strncmp_eq [] [] (suc n) = true
strncmp_eq [] (y ∷ ys) (suc n) = false
strncmp_eq (x ∷ xs) [] (suc n) = false
strncmp_eq (x ∷ xs) (y ∷ ys) (suc n) = (x == y) && strncmp_eq xs ys n

pub strncmp_refl : (a : CString) (n : ℕ) → strncmp_eq a a n ≡ true
strncmp_refl a zero = refl
strncmp_refl [] (suc n) = refl
strncmp_refl (x ∷ xs) (suc n) = ground (arith, strncmp_refl xs n)

pub strncmp-take : (a b : CString) (n : ℕ) → strncmp_eq a b n ≡ true → take n a ≡ take n b
strncmp-take a b zero h = refl
strncmp-take [] [] (suc n) h = refl
strncmp-take [] (y ∷ ys) (suc n) h = ground arith
strncmp-take (x ∷ xs) [] (suc n) h = ground arith
strncmp-take (x ∷ xs) (y ∷ ys) (suc n) h = ground (arith, strncmp-take xs ys n)

pub take-strncmp : (a b : CString) (n : ℕ) → take n a ≡ take n b → strncmp_eq a b n ≡ true
take-strncmp a b zero h = refl
take-strncmp [] [] (suc n) h = refl
take-strncmp [] (y ∷ ys) (suc n) h = ground arith
take-strncmp (x ∷ xs) [] (suc n) h = ground arith
take-strncmp (x ∷ xs) (y ∷ ys) (suc n) h = ground (arith, take-strncmp xs ys n)
