-- ===== src/Breakout/Tables/Codes.antt =====
-- The codes that `read_tables_to_memory` gives its entries name the table they come from.
use maplesyrup.Base.{
  ℕ, zero, suc, ◌+◌, ◌^◌, ◌<◌, ◌≡◌, ◌∙◌, ◌/◌, ◌%◌, bit_or, List, [], ◌∷◌, map, arith, ltb,
  Bool-cases, inl, inr, All, All-append,
}
use maplesyrup.Structs.{BitfieldInfo, BitfieldInfoHeap}
use maplesyrup.Mscode.{mscode_partnumber}
use maplesyrup.Mscode.Spill.{partnumber-spill}
use maplesyrup.Breakout.Tables.{
  BitfieldTableEntry, system_entry, device_entry, is_system, with_device,
}
use maplesyrup.Breakout.Tables.Expand.{device_copies, device_entries, row_entries, sum_ranges}

-- The field number fits a code, and what the register number has above 11 bits is in the part number
-- already.
abbrev pub Fits : ℕ → BitfieldInfo → Type 0
Fits part x = (bit_or part (x.register_uid / 2 ^ 11 % 2 ^ 5) ≡ part) × (x.uid < 2 ^ 16)

-- The code of `y` carries the part number.
abbrev pub IsOf : ℕ → BitfieldInfoHeap → Type 0
IsOf part y = mscode_partnumber y.uid ≡ part

module _ (row : BitfieldTableEntry) (part : row.part_number < 2 ^ 5) where
  system_entry-IsOf :
      (x : BitfieldInfo) → Fits row.part_number x → IsOf row.part_number (system_entry row x)
  unfolding system_entry
  system_entry-IsOf x (hr, hu) =
      (partnumber-spill row.part_number x.register_uid x.uid part hu ∙ hr)

  device_entry-IsOf :
      (x : BitfieldInfo) (k index : ℕ)
      → Fits row.part_number x
      → index < 2 ^ 16
      → IsOf row.part_number (device_entry row x k index)
  unfolding device_entry
  device_entry-IsOf x k index (hr, hu) hi = elim (Bool-cases (ltb 1 x.range)) [
    | inl many ↦ rw many (partnumber-spill row.part_number x.register_uid index part hi ∙ hr)
    | inr one ↦ rw one (partnumber-spill row.part_number x.register_uid x.uid part hu ∙ hr)
  ]

  map-IsOf :
      (xs : List BitfieldInfo)
      → All (Fits row.part_number) xs
      → All (IsOf row.part_number) (map (system_entry row) xs)
  map-IsOf [] h = tt
  map-IsOf (x ∷ xs) (here, rest) = (system_entry-IsOf x here, map-IsOf xs rest)

  device_copies-IsOf :
      (x : BitfieldInfo) (n k index : ℕ)
      → Fits row.part_number x
      → index + n < 2 ^ 16
      → All (IsOf row.part_number) (device_copies row x n k index)
  unfolding device_copies
  device_copies-IsOf x zero k index h room = tt
  device_copies-IsOf x (suc n) k index h room = (
    device_entry-IsOf x k index h (omega arith),
    device_copies-IsOf x n (k + 1) (index + 1) h (omega arith),
  )

  device_entries-IsOf :
      (xs : List BitfieldInfo) (index : ℕ)
      → All (Fits row.part_number) xs
      → index + sum_ranges xs < 2 ^ 16
      → All (IsOf row.part_number) (device_entries row index xs)
  unfolding device_entries
  device_entries-IsOf [] index h room = tt
  device_entries-IsOf (x ∷ xs) index (here, rest) room =
      All-append (IsOf row.part_number) (device_copies row x x.range 0 index) _
        (device_copies-IsOf x x.range 0 index here (omega arith))
        (device_entries-IsOf xs (index + x.range) rest (omega arith))

  -- The part number in the code of every entry of a row, of a system table or of a device, is the row's,
  -- if its field numbers fit a code, its register numbers add no bit to the part number, and the table in
  -- memory has less than 2 ^ 16 entries.
  pub row_entries-IsOf :
      (include_devices index : ℕ)
      → All (Fits row.part_number) row.table_ptr
      → index + sum_ranges row.table_ptr < 2 ^ 16
      → All (IsOf row.part_number) (row_entries include_devices row index)
  unfolding row_entries
  row_entries-IsOf include_devices index fits room = elim (Bool-cases (is_system row.table_type)) [
    | inl system ↦ rw system (map-IsOf row.table_ptr fits)
    | inr other ↦ elim (Bool-cases (with_device include_devices row.table_type)) [
      | inl device ↦ rw (other, device) (device_entries-IsOf row.table_ptr index fits room)
      | inr neither ↦ rw (other, neither) tt
    ]
  ]
