-- ===== src/Jumptable/Tests.antt =====
-- The first row of ARMv7-A.
use maplesyrup.Base.{◌≡◌, refl, ◌⊎◌, true, none, cstr}
use maplesyrup.Structs.{BitfieldInfo}
use maplesyrup.Usermode.{find_function_index}
use maplesyrup.Registers.{ms_sysreg_pfr0, ms_sysreg_mmfr4}
use maplesyrup.Bitfields.Tiling.{armv7a, rows_of}
use maplesyrup.Jumptable.{func_table}
use maplesyrup.Jumptable.Readable.{Readable, rows_of-Readable}

rows_of-Readable_example :
    Readable true func_table ms_sysreg_pfr0
    ⊎ ((ms_sysreg_pfr0 ≡ ms_sysreg_mmfr4) × (find_function_index func_table ms_sysreg_pfr0 ≡ none))
unfolding rows_of
rows_of-Readable_example = rows_of-Readable armv7a 0 first true refl refl
  where
    first : BitfieldInfo
    first = record {
      range = 1;
      uid = 0;
      register_uid = ms_sysreg_pfr0;
      ppl = 2;
      rightshift = 0;
      mask = 4;
      bitfield = cstr "State0";
      functional_group = cstr "ident";
      register_name = cstr "PFR0";
      description = cstr "ARM instruction set support";
    }
