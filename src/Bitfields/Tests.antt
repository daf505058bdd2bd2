-- ===== src/Bitfields/Tests.antt =====
-- MIDR in the two tables of system registers.
use maplesyrup.Base.{ℕ, ◌%◌, ◌^◌, ◌≡◌, refl, ◌⊎◌, arith, cstr}
use maplesyrup.Structs.{BitfieldInfo}
use maplesyrup.Mask.Tile.{reassemble}
use maplesyrup.Registers.{ms_sysreg_pfr0, ms_sysreg_midr}
use maplesyrup.Bitfields.Tiling.{armv7a, rows_of, fields_of, rows_of-reassemble}
use maplesyrup.Bitfields.Distinct.{rows_of-mscode}

rows_of-reassemble_example :
    (reassemble 1091551091 (fields_of (rows_of armv7a) ms_sysreg_midr) ≡ 1091551091 % 2 ^ 32)
    ⊎ (reassemble 1091551091 (fields_of (rows_of armv7a) ms_sysreg_midr) ≡ 1091551091 % 2 ^ 64)
unfolding rows_of
rows_of-reassemble_example = rows_of-reassemble armv7a ms_sysreg_midr 1091551091 refl refl

rows_of-mscode_example : ◌≡◌ {A = ℕ} 1 1
unfolding rows_of
rows_of-mscode_example =
    rows_of-mscode armv7a 0 0 1 1 second second refl (omega arith) (omega arith) refl refl refl
  where
    second : BitfieldInfo
    second = record {
      range = 1;
      uid = 1;
      register_uid = ms_sysreg_pfr0;
      ppl = 2;
      rightshift = 4;
      mask = 4;
      bitfield = cstr "State1";
      functional_group = cstr "ident";
      register_name = cstr "PFR0";
      description = cstr "Thumb instruction set support";
    }
