-- ===== src/Bitfields/Sizes.antt =====
-- The functions of lib/src/bitfields that return the sizes of the tables, and the rows of
-- `bitfield_table` of lib/src/parse_breakout.c for the architectures and the interrupt controller.
use maplesyrup.Base.{
  ℕ, ◌+◌, ltb, ◌-◌, ◌%◌, ◌^◌, ◌≡◌, refl, ◌≢◌, Bool, true, false, ◌&&◌, not, none, some, List, [],
  ◌∷◌, some_of, length, ◌==◌, All, arith,
}
use maplesyrup.Structs.{
  BitfieldInfo, BitfieldInfoHeap, type_arch, type_mm, arch_armv7a, arch_armv8a, gicc_v2, gicd_v2,
  parse_max_register,
}
use maplesyrup.Mscode.{mscode}
use maplesyrup.Breakout.Tables.{BitfieldTableEntry, system_entry}
use maplesyrup.Breakout.Tables.Expand.{expand, row_entries, IsTerminated, IsSized, AreSized}
use maplesyrup.Breakout.Results.Indices.{Unique}
use maplesyrup.Bitfields.Armv7a.{bitfield_armv7a_table}
use maplesyrup.Bitfields.Armv8a.{bitfield_armv8a_table}
use maplesyrup.Bitfields.Gicd.{bitfield_gicdv2_table}
use maplesyrup.Bitfields.Gicc.{bitfield_giccv2_table}

-- The loop over the ranges, in an unsigned int.
unfoldable pub ranged_size : ℕ → List BitfieldInfo → ℕ
ranged_size sum_size [] = sum_size
ranged_size sum_size (x ∷ xs) = ranged_size ((sum_size + x.range) % 2 ^ 32) xs

unfoldable pub return_bitfield_armv7a_size : ℕ
unfolding bitfield_armv7a_table
return_bitfield_armv7a_size = length bitfield_armv7a_table

unfoldable pub return_bitfield_armv8a_size : ℕ
unfolding bitfield_armv8a_table
return_bitfield_armv8a_size = length bitfield_armv8a_table

unfoldable pub return_bitfield_gicdv2_size : ℕ
unfolding ranged_size bitfield_gicdv2_table
return_bitfield_gicdv2_size = ranged_size 0 bitfield_gicdv2_table

unfoldable pub return_bitfield_gicdv2_compsize : ℕ
unfolding bitfield_gicdv2_table
return_bitfield_gicdv2_compsize = length bitfield_gicdv2_table

unfoldable pub return_bitfield_giccv2_size : ℕ
unfolding ranged_size bitfield_giccv2_table
return_bitfield_giccv2_size = ranged_size 0 bitfield_giccv2_table

unfoldable pub return_bitfield_giccv2_compsize : ℕ
unfolding bitfield_giccv2_table
return_bitfield_giccv2_compsize = length bitfield_giccv2_table

abbrev pub armv7a_row : BitfieldTableEntry
armv7a_row = record {
  table_type = type_arch;
  part_number = arch_armv7a;
  table_ptr = bitfield_armv7a_table;
  table_size_ptr = return_bitfield_armv7a_size;
  table_compsize_ptr = none;
}

abbrev pub armv8a_row : BitfieldTableEntry
armv8a_row = record {
  table_type = type_arch;
  part_number = arch_armv8a;
  table_ptr = bitfield_armv8a_table;
  table_size_ptr = return_bitfield_armv8a_size;
  table_compsize_ptr = none;
}

abbrev pub giccv2_row : BitfieldTableEntry
giccv2_row = record {
  table_type = type_mm;
  part_number = gicc_v2;
  table_ptr = bitfield_giccv2_table;
  table_size_ptr = return_bitfield_giccv2_size;
  table_compsize_ptr = some return_bitfield_giccv2_compsize;
}

abbrev pub gicdv2_row : BitfieldTableEntry
gicdv2_row = record {
  table_type = type_mm;
  part_number = gicd_v2;
  table_ptr = bitfield_gicdv2_table;
  table_size_ptr = return_bitfield_gicdv2_size;
  table_compsize_ptr = some return_bitfield_gicdv2_compsize;
}

-- The rows of the architectures and of the interrupt controller; `bitfield_table` has those of four Cortex
-- processors before them.
abbrev pub architecture_rows : List BitfieldTableEntry
architecture_rows = armv7a_row ∷ armv8a_row ∷ giccv2_row ∷ gicdv2_row ∷ []

abbrev all_terminated : List BitfieldInfo → Bool
all_terminated [] = true
all_terminated (x ∷ xs) = ltb (length x.register_name) (parse_max_register - 1) && all_terminated xs

all_terminated-names : (xs : List BitfieldInfo) → all_terminated xs ≡ true → All IsTerminated xs
all_terminated-names [] h = tt
all_terminated-names (x ∷ xs) h = (ground arith, all_terminated-names xs (ground arith))

architecture_rows-IsSized : All IsSized architecture_rows
unfolding return_bitfield_armv7a_size return_bitfield_armv8a_size return_bitfield_gicdv2_size
    return_bitfield_giccv2_size return_bitfield_gicdv2_compsize return_bitfield_giccv2_compsize
architecture_rows-IsSized = (
  record {
    system = λ h. refl;
    device_size = λ h. absurd (omega arith);
    device_compsize = λ h. absurd (omega arith);
    names = all_terminated-names bitfield_armv7a_table refl;
  },
  (
    record {
      system = λ h. refl;
      device_size = λ h. absurd (omega arith);
      device_compsize = λ h. absurd (omega arith);
      names = all_terminated-names bitfield_armv8a_table refl;
    },
    (
      record {
        system = λ h. absurd (ground arith);
        device_size = λ h. refl;
        device_compsize = λ h. refl;
        names = all_terminated-names bitfield_giccv2_table refl;
      },
      (
        record {
          system = λ h. absurd (ground arith);
          device_size = λ h. refl;
          device_compsize = λ h. refl;
          names = all_terminated-names bitfield_gicdv2_table refl;
        },
        tt,
      ),
    ),
  ),
)

pub architecture_rows-AreSized : AreSized architecture_rows
unfolding return_bitfield_armv7a_size return_bitfield_armv8a_size return_bitfield_gicdv2_size
    return_bitfield_giccv2_size
architecture_rows-AreSized = (architecture_rows-IsSized, omega arith)

abbrev distinct_codes : List BitfieldInfoHeap → Bool
distinct_codes [] = true
distinct_codes (x ∷ xs) = not (some_of (λ y. y.uid == x.uid) xs) && distinct_codes xs

apart-All :
    (u : ℕ) (xs : List BitfieldInfoHeap)
    → some_of (λ y. y.uid == u) xs ≡ false
    → All (λ y. y.uid ≢ u) xs
apart-All u [] h = tt
apart-All u (y ∷ xs) h = (ground arith, apart-All u xs (ground arith))

distinct_codes-Unique : (xs : List BitfieldInfoHeap) → distinct_codes xs ≡ true → Unique xs
distinct_codes-Unique [] h = tt
distinct_codes-Unique (x ∷ xs) h =
    (apart-All x.uid xs (ground arith), distinct_codes-Unique xs (ground arith))

-- No two entries of the tables of system registers have the same code, once they are in memory.
pub architecture_rows-Unique : Unique (expand 0 0 architecture_rows)
unfolding expand row_entries system_entry mscode bitfield_armv7a_table bitfield_armv8a_table
architecture_rows-Unique = distinct_codes-Unique (expand 0 0 architecture_rows) refl
