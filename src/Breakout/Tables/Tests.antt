-- ===== src/Breakout/Tables/Tests.antt =====
-- Tables of the program read to memory: a system table, and a device with a range of registers.
use maplesyrup.Base.{◌≤◌, refl, none, some, [], ◌∷◌, All, length, cstr, arith}
use maplesyrup.Structs.{BitfieldInfo, success, type_arch, type_mm, arch_armv7a, gicd_v2}
use maplesyrup.Env.Yields.{Yields}
use maplesyrup.Breakout.Tables.{
  Globals, BitfieldTableEntry, total_size, buffer_size, read_tables_to_memory,
}
use maplesyrup.Breakout.Tables.Expand.{buffer, expand, row_entries, AreSized}
use maplesyrup.Breakout.Tables.Layout.{read_tables_to_memory-expand}
use maplesyrup.Breakout.Tables.Codes.{IsOf, row_entries-IsOf}

abbrev revision : BitfieldInfo
revision = record {
  range = 0;
  uid = 0;
  register_uid = 1;
  ppl = 2;
  rightshift = 0;
  mask = 4;
  bitfield = cstr "REVISION";
  functional_group = cstr "ID";
  register_name = cstr "MIDR";
  description = cstr "";
}

abbrev isenabler : BitfieldInfo
isenabler = record {
  range = 2;
  uid = 7;
  register_uid = 256;
  ppl = 2;
  rightshift = 0;
  mask = 32;
  bitfield = cstr "SET";
  functional_group = cstr "GIC";
  register_name = cstr "ISENABLER";
  description = cstr "";
}

abbrev system : BitfieldTableEntry
system = record {
  table_type = type_arch;
  part_number = arch_armv7a;
  table_ptr = revision ∷ [];
  table_size_ptr = 1;
  table_compsize_ptr = none;
}

abbrev distributor : BitfieldTableEntry
distributor = record {
  table_type = type_mm;
  part_number = gicd_v2;
  table_ptr = isenabler ∷ [];
  table_size_ptr = 2;
  table_compsize_ptr = some 1;
}

abbrev no_tables : Globals
no_tables = record { table_heap = none; table_size = 0 }

sized : AreSized (system ∷ distributor ∷ [])
sized = (
  (
    record {
      system = λ h. refl;
      device_size = λ h. absurd (omega arith);
      device_compsize = λ h. absurd (omega arith);
      names = (omega arith, tt);
    },
    (
      record {
        system = λ h. cc h;
        device_size = λ h. refl;
        device_compsize = λ h. refl;
        names = (omega arith, tt);
      },
      tt,
    ),
  ),
  omega arith,
)

read_tables_to_memory-expand_example :
    Yields (read_tables_to_memory (system ∷ distributor ∷ []) 1 no_tables) (
      success,
      record {
        table_heap = some (buffer 3 (expand 1 0 (system ∷ distributor ∷ [])));
        table_size = length (expand 1 0 (system ∷ distributor ∷ []));
      },
    )
    × (length (expand 1 0 (system ∷ distributor ∷ [])) ≤ 3)
unfolding total_size buffer_size
read_tables_to_memory-expand_example =
    read_tables_to_memory-expand (system ∷ distributor ∷ []) 1 no_tables sized

row_entries-IsOf_example : All (IsOf 9) (row_entries 1 distributor 1)
row_entries-IsOf_example =
    row_entries-IsOf distributor (omega arith) 1 1 ((refl, omega arith), tt) (omega arith)
