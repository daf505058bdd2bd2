-- ===== src/Mscode/Tests.antt =====
-- Codes of bitfields of the tables, and the theorems at them.
use maplesyrup.Base.{◌≡◌, refl, arith}
use maplesyrup.Mscode.{mscode, mscode_partnumber, mscode_instruction, mscode_field}
use maplesyrup.Mscode.Spill.{partnumber-spill}
use maplesyrup.Mscode.RoundTrip.{decode-mscode, mscode-decode}

-- The part number field of MIDR in the table of armv8a: part 1, register 24.
midr_code : mscode 1 24 3 ≡ 0x8180003
unfolding mscode
midr_code = refl

-- A register number that needs a twelfth bit runs into the part number.
overlong : mscode_partnumber (mscode 2 0x800 0) ≡ 3
unfolding mscode mscode_partnumber
overlong = refl

decode-mscode_example :
    (mscode_partnumber (mscode 4 24 3) ≡ 4)
    × (mscode_instruction (mscode 4 24 3) ≡ 24)
    × (mscode_field (mscode 4 24 3) ≡ 3)
decode-mscode_example = decode-mscode 4 24 3 (omega arith)

mscode-decode_example :
    mscode (mscode_partnumber 0x8180003) (mscode_instruction 0x8180003) (mscode_field 0x8180003)
    ≡ 0x8180003
mscode-decode_example = mscode-decode 0x8180003 (omega arith)

-- GICC_DIR of the GIC's CPU interface, whose register number needs 13 bits, gets the part number of the
-- hypervisor's interface.
partnumber-spill_example : mscode_partnumber (mscode 8 0x1000 0) ≡ 10
partnumber-spill_example = partnumber-spill 8 0x1000 0 (omega arith) (omega arith)
