-- ===== src/Mscode.antt =====
-- The numbering of bitfields and registers in common/parse.h, and `mscode` of
-- lib/src/parse_breakout.c: a 32-bit code of a part number (5 bits), a register (11 bits) and a
-- field (16 bits).
pub mod RoundTrip
pub mod Spill
mod Tests
use maplesyrup.Base.{ℕ, ◌+◌, ◌-◌, ◌*◌, ◌/◌, ◌%◌, ◌^◌, bit_and, bit_or}

abbrev pub partnumber_bits : ℕ
partnumber_bits = 5

abbrev pub instruction_bits : ℕ
instruction_bits = 11

abbrev pub field_bits : ℕ
field_bits = 16

abbrev pub mscode_fieldshift : ℕ
mscode_fieldshift = 0

abbrev pub mscode_instructionshift : ℕ
mscode_instructionshift = mscode_fieldshift + field_bits

abbrev pub mscode_partnumbershift : ℕ
mscode_partnumbershift = mscode_instructionshift + instruction_bits

-- x << k and x >> k of an unsigned int
abbrev pub shl32 : ℕ → ℕ → ℕ
shl32 x k = x * 2 ^ k % 2 ^ 32

abbrev pub shr32 : ℕ → ℕ → ℕ
shr32 x k = x / 2 ^ k

unfoldable pub mscode : (partnumber instruction field : ℕ) → ℕ
mscode partnumber instruction field =
    bit_or
      (bit_or (shl32 partnumber mscode_partnumbershift) (shl32 instruction mscode_instructionshift))
      (shl32 field mscode_fieldshift)

unfoldable pub mscode_partnumber : ℕ → ℕ
mscode_partnumber code = bit_and (shr32 code mscode_partnumbershift) (2 ^ partnumber_bits - 1)

unfoldable pub mscode_instruction : ℕ → ℕ
mscode_instruction code = bit_and (shr32 code mscode_instructionshift) (2 ^ instruction_bits - 1)

unfoldable pub mscode_field : ℕ → ℕ
mscode_field code = bit_and (shr32 code mscode_fieldshift) (2 ^ field_bits - 1)
