-- ===== src/Breakout/Tables/Layout.antt =====
-- `read_tables_to_memory` as a whole.
use mathlib.Core.Path.{subst}
use maplesyrup.Base.{
  ℕ, ◌+◌, ◌*◌, ◌%◌, ◌^◌, ◌<◌, ◌≤◌, ◌≡◌, ◌∙◌, refl, sym, true, false, some, List, [], ◌∷◌, ◌++◌, map,
  append_assoc, append-nil, arith, length, length-append, length-map, Bool-cases, inl, inr, All,
}
use maplesyrup.Structs.{BitfieldInfoHeap, success, type_mm}
use maplesyrup.Env.{M, ◌>>=◌, allocate, deref}
use maplesyrup.Env.Loop.{for_loop}
use maplesyrup.Env.Yields.{
  Returns, Yields, Returns-Yields, bind-Returns, bind-Yields, pure-Yields, allocate-Yields,
  Suffix-start,
}
use maplesyrup.Breakout.Tables.{
  BitfieldTableEntry, Buffer, Globals, system_entry, system_body, and_on, is_system, with_device,
  system_rows, device_rows, copy_rows, sizeof_bitfield_info_heap, buffer_size, total_size,
  read_tables_to_memory,
}
use maplesyrup.Breakout.Tables.Expand.{
  buffer, device_entries, row_entries, expand, IsSized, AreSized, sum_sizes, Appends,
  system_loop-Appends, device_loop-Appends, length-device_entries,
}

exclusive :
    (include_devices kind : ℕ) → is_system kind ≡ true → with_device include_devices kind ≡ false
exclusive include_devices kind h = ground arith

with_device-type_mm :
    (include_devices kind : ℕ) → with_device include_devices kind ≡ true → kind ≡ type_mm
with_device-type_mm include_devices kind h = ground arith

system_rows-skip :
    (row : BitfieldTableEntry) (b : Buffer)
    → is_system row.table_type ≡ false
    → Returns (system_rows row b) b
unfolding system_rows
system_rows-skip row b other = rw other (λ e. refl)

device_rows-skip :
    (include_devices : ℕ) (row : BitfieldTableEntry) (b : Buffer)
    → with_device include_devices row.table_type ≡ false
    → Returns (device_rows include_devices row b) b
unfolding device_rows
device_rows-skip include_devices row b other = rw other (λ e. refl)

-- One row adds its entries.
abbrev row_step : ℕ → BitfieldTableEntry → Buffer → M Buffer
row_step include_devices row b = system_rows row b >>= λ s. device_rows include_devices row s

module _ (include_devices c : ℕ) (row : BitfieldTableEntry) (sized : IsSized row) where
  length-row_entries-le :
      (index : ℕ) → length (row_entries include_devices row index) ≤ row.table_size_ptr
  unfolding row_entries
  length-row_entries-le index = elim (Bool-cases (is_system row.table_type)) [
    | inl system ↦
        rw system (omega (arith, sized.system system, length-map (system_entry row) row.table_ptr))
    | inr other ↦ elim (Bool-cases (with_device include_devices row.table_type)) [
      | inl device ↦
          rw (other, device)
            (omega (
              arith,
              sized.device_size (with_device-type_mm include_devices row.table_type device),
              length-device_entries row index row.table_ptr,
            ))
      | inr neither ↦ rw (other, neither) (omega arith)
    ]
  ]

  module _ (cells : List BitfieldInfoHeap) (room : length cells + row.table_size_ptr ≤ c) where
    system_rows-Returns :
        is_system row.table_type ≡ true
        → Returns
            (system_rows row (buffer c cells))
            (buffer c (cells ++ map (system_entry row) row.table_ptr))
    unfolding system_rows and_on
    system_rows-Returns system = rw system (
        bind-Returns _ and_on
          (subst
            (λ (n : ℕ).
              Appends c (for_loop (system_body row) n 0 (buffer c cells))
                (cells ++ map (system_entry row) row.table_ptr))
            (sym (sized.system system))
            (system_loop-Appends row c row.table_ptr 0 cells (Suffix-start row.table_ptr)
              sized.names (omega (arith, sized.system system))))
          (λ e. refl))

    device_rows-Returns :
        with_device include_devices row.table_type ≡ true
        → Returns
            (device_rows include_devices row (buffer c cells))
            (buffer c (cells ++ device_entries row (length cells) row.table_ptr))
    unfolding device_rows and_on
    device_rows-Returns device =
        let mm = with_device-type_mm include_devices row.table_type device in
        rw device (
          bind-Returns (deref row.table_compsize_ptr) _
            (subst (λ n. Returns (deref n) (length row.table_ptr)) (sym (sized.device_compsize mm))
              (λ e. refl))
            (bind-Returns _ and_on
              (device_loop-Appends row c row.table_ptr 0 cells (Suffix-start row.table_ptr)
                sized.names (omega (arith, sized.device_size mm)))
              (λ e. refl)))

    row_step-Returns :
        Returns
          (row_step include_devices row (buffer c cells))
          (buffer c (cells ++ row_entries include_devices row (length cells)))
    unfolding row_entries
    row_step-Returns = elim (Bool-cases (is_system row.table_type)) [
      | inl system ↦ rw system (
          bind-Returns (system_rows row (buffer c cells)) _ (system_rows-Returns system) (
            device_rows-skip include_devices row _
              (exclusive include_devices row.table_type system)))
      | inr other ↦ elim (Bool-cases (with_device include_devices row.table_type)) [
        | inl device ↦
            rw (other, device)
              (bind-Returns (system_rows row (buffer c cells)) _ (system_rows-skip row _ other)
                (device_rows-Returns device))
        | inr neither ↦
            rw (other, neither, append-nil)
              (bind-Returns (system_rows row (buffer c cells)) _ (system_rows-skip row _ other)
                (device_rows-skip include_devices row _ neither))
      ]
    ]

module _ (include_devices c : ℕ) where
  copy_rows-Returns :
      (rows : List BitfieldTableEntry) (cells : List BitfieldInfoHeap)
      → All IsSized rows
      → length cells + sum_sizes rows ≤ c
      → Returns
          (copy_rows include_devices rows (buffer c cells))
          (buffer c (cells ++ expand include_devices (length cells) rows))
  unfolding copy_rows expand
  copy_rows-Returns [] cells sized room = λ e. rw append-nil
  copy_rows-Returns (row ∷ rows) cells (here, rest) room =
      let new = row_entries include_devices row (length cells) in
      let grown : length (cells ++ new) ≡ length cells + length new = length-append cells new in
      let le = length-row_entries-le include_devices c row here (length cells) in
      bind-Returns _ (copy_rows include_devices rows)
        (row_step-Returns include_devices c row here cells (omega arith))
        (subst
          (λ l. Returns (copy_rows include_devices rows (buffer c (cells ++ new))) (buffer c l))
          (append_assoc cells new (expand include_devices (length cells + length new) rows))
          (subst
            (λ (i : ℕ).
              Returns (copy_rows include_devices rows (buffer c (cells ++ new)))
                (buffer c ((cells ++ new) ++ expand include_devices i rows)))
            grown (copy_rows-Returns rows (cells ++ new) rest (omega (arith, grown, le)))))

length-expand-le :
    (include_devices : ℕ) (rows : List BitfieldTableEntry) (index : ℕ)
    → All IsSized rows
    → length (expand include_devices index rows) ≤ sum_sizes rows
unfolding expand
length-expand-le include_devices [] index sized = omega arith
length-expand-le include_devices (row ∷ rows) index (here, rest) =
    let new = row_entries include_devices row index in
    omega (
      arith,
      length-append new (expand include_devices (index + length new) rows),
      length-row_entries-le include_devices 0 row here index,
      length-expand-le include_devices rows (index + length new) rest,
    )

buffer_size-sum :
    (sum : ℕ) (rows : List BitfieldTableEntry)
    → sum + sum_sizes rows * sizeof_bitfield_info_heap < 2 ^ 32
    → buffer_size sum rows ≡ sum + sum_sizes rows * sizeof_bitfield_info_heap
unfolding buffer_size
buffer_size-sum sum [] small = omega arith
buffer_size-sum sum (row ∷ rows) small =
    let exact : (sum + row.table_size_ptr * sizeof_bitfield_info_heap) % 2 ^ 32
        ≡ sum + row.table_size_ptr * sizeof_bitfield_info_heap =
      omega arith in
    rw exact (
      buffer_size-sum (sum + row.table_size_ptr * sizeof_bitfield_info_heap) rows (omega arith)
      ∙ omega arith)

-- While the bytes fit an unsigned int, there is room for as many entries as the rows have.
pub total_size-sum :
    (rows : List BitfieldTableEntry)
    → sum_sizes rows * sizeof_bitfield_info_heap < 2 ^ 32
    → total_size rows ≡ sum_sizes rows
unfolding total_size
total_size-sum rows small = rw (buffer_size-sum 0 rows (omega arith)) (omega arith)

-- With memory at hand, and rows whose sizes are right, whose bytes fit an unsigned int and whose register names
-- have fewer than 31 bytes, `read_tables_to_memory` writes no further than it allocated, leaves the rows
-- expanded in order, and counts them.
pub read_tables_to_memory-expand :
    (rows : List BitfieldTableEntry) (include_devices : ℕ) (g : Globals)
    → AreSized rows
    → Yields (read_tables_to_memory rows include_devices g) (
      success,
      record {
        table_heap = some (buffer (total_size rows) (expand include_devices 0 rows));
        table_size = length (expand include_devices 0 rows);
      },
    )
      × (length (expand include_devices 0 rows) ≤ total_size rows)
unfolding read_tables_to_memory
read_tables_to_memory-expand rows include_devices g (sized, small) =
    let room = total_size-sum rows small in
    (
      bind-Yields allocate _ allocate-Yields (
          bind-Yields (copy_rows include_devices rows (buffer (total_size rows) [])) _
            (Returns-Yields _ (
              copy_rows-Returns include_devices (total_size rows) rows [] sized
                (omega (arith, room))))
            (pure-Yields _)),
      omega (arith, room, length-expand-le include_devices rows 0 sized),
    )
