-- ===== src/Breakout/Tables.antt =====
-- The globals `g_bitfield_table_heap` and `g_bitfield_table_size` of lib/src/parse_breakout.c, and
-- `read_tables_to_memory`, `create_uid` and `erase_tables`.
pub mod Expand
pub mod Layout
pub mod Codes
mod Tests
use maplesyrup.Base.{
  ℕ, ◌+◌, ◌-◌, ◌*◌, ◌/◌, ◌%◌, ◌^◌, Bool, ◌&&◌, ◌||◌, Option, none, some, List, [], ◌∷◌, ◌++◌,
  CString, strncpy, decimal, take, length, get_elem?, ltb, ◌==◌, if◌then◌else◌,
}
use maplesyrup.Structs.{
  BitfieldInfo, BitfieldInfoHeap, Status, success, failure, type_impl, type_arch, type_mm,
  parse_max_register,
}
use maplesyrup.Mscode.{mscode}
use maplesyrup.Env.{M, pure, crash, ◌>>=◌, ◌>>◌, allocate, deref}
use maplesyrup.Env.Loop.{Flow, next, leave, for_loop}

-- A row of `bitfield_table`; the sizes are what its two functions return, `none` for no function.
pub record BitfieldTableEntry : Type 0 where
  pub table_type : ℕ
  pub part_number : ℕ
  pub table_ptr : List BitfieldInfo
  pub table_size_ptr : ℕ
  pub table_compsize_ptr : Option ℕ

-- The memory at `g_bitfield_table_heap`: room for `capacity` entries, of which the first are set.
pub record Buffer : Type 0 where
  pub capacity : ℕ
  pub cells : List BitfieldInfoHeap

pub record Globals : Type 0 where
  pub table_heap : Option Buffer
  pub table_size : ℕ

abbrev pub ms_gicv2_alignment : ℕ
ms_gicv2_alignment = 4

-- `create_uid`, of the entry that its two first arguments name
unfoldable pub create_uid : BitfieldInfo → ℕ → ℕ → ℕ
create_uid x k part = mscode part x.register_uid (x.register_uid + k * ms_gicv2_alignment)

unfoldable pub system_entry : BitfieldTableEntry → BitfieldInfo → BitfieldInfoHeap
system_entry row x = record {
  table_type = row.table_type;
  register_name_expanded = strncpy x.register_name (parse_max_register - 1);
  range = x.range;
  uid = mscode row.part_number x.register_uid x.uid;
  register_uid = x.register_uid;
  ppl = x.ppl;
  rightshift = x.rightshift;
  mask = x.mask;
  bitfield = x.bitfield;
  functional_group = x.functional_group;
  description = x.description;
}

-- Entry `k` of the range of `x`, at `buffer_index`.
unfoldable pub device_entry :
    BitfieldTableEntry → BitfieldInfo → (k buffer_index : ℕ) → BitfieldInfoHeap
unfolding create_uid
device_entry row x k buffer_index =
    let name = strncpy x.register_name (parse_max_register - 1) in
    record {
      table_type = row.table_type;
      register_name_expanded =
          if ltb 1 x.range then name ++ take (parse_max_register - 1) (decimal k) else name;
      range = x.range;
      uid =
          if ltb 1 x.range
          then mscode row.part_number x.register_uid buffer_index
          else mscode row.part_number x.register_uid x.uid;
      register_uid = create_uid x k row.part_number;
      ppl = x.ppl;
      rightshift = x.rightshift;
      mask = x.mask;
      bitfield = x.bitfield;
      functional_group = x.functional_group;
      description = x.description;
    }

-- A write at `buffer_index`, which then moves on.
pub push : Buffer → BitfieldInfoHeap → M Buffer
push b x =
    if ltb (length b.cells) b.capacity then pure (record b { cells = b.cells ++ x ∷ [] }) else crash

-- strncpy into memory that was not cleared: a name of 31 bytes or more gets no zero behind it, and whatever reads
-- it later runs on. That is taken for a fault at the copy.
pub terminated : BitfieldInfo → M BitfieldInfo
terminated x = if ltb (length x.register_name) (parse_max_register - 1) then pure x else crash

pub system_body : BitfieldTableEntry → ℕ → Buffer → M (Flow Buffer)
system_body row j b = do
  x ← deref (get_elem? row.table_ptr j)
  y ← terminated x
  b' ← push b (system_entry row y)
  pure (next b')

pub device_copy : BitfieldTableEntry → BitfieldInfo → ℕ → Buffer → M (Flow Buffer)
device_copy row x k b = do
  y ← terminated x
  b' ← push b (device_entry row y k (length b.cells))
  pure (next b')

pub device_body : BitfieldTableEntry → ℕ → Buffer → M (Flow Buffer)
device_body row j b = do
  x ← deref (get_elem? row.table_ptr j)
  for_loop (device_copy row x) x.range 0 b

-- What a loop that is never left ends with.
pub and_on : Flow Buffer → M Buffer
and_on (next b) = pure b
and_on (leave b) = pure b

abbrev pub is_system : ℕ → Bool
is_system kind = (kind == type_arch) || (kind == type_impl)

abbrev pub with_device : ℕ → ℕ → Bool
with_device include_devices kind = (include_devices == 1) && (kind == type_mm)

pub system_rows : BitfieldTableEntry → Buffer → M Buffer
system_rows row b =
    if is_system row.table_type
    then for_loop (system_body row) row.table_size_ptr 0 b >>= and_on
    else pure b

pub device_rows : ℕ → BitfieldTableEntry → Buffer → M Buffer
device_rows include_devices row b =
    if with_device include_devices row.table_type
    then (do n ← deref row.table_compsize_ptr; r ← for_loop (device_body row) n 0 b; and_on r)
    else pure b

pub copy_rows : ℕ → List BitfieldTableEntry → Buffer → M Buffer
copy_rows include_devices [] b = pure b
copy_rows include_devices (row ∷ rows) b = do
  b' ← (do s ← system_rows row b; device_rows include_devices row s)
  copy_rows include_devices rows b'

-- The size of a bitfield_info_heap where pointers have 64 bits; it is 108 where they have 32.
abbrev pub sizeof_bitfield_info_heap : ℕ
sizeof_bitfield_info_heap = 128

-- The first loop, which adds the bytes up in an unsigned int.
pub buffer_size : ℕ → List BitfieldTableEntry → ℕ
buffer_size sum [] = sum
buffer_size sum (row ∷ rows) =
    buffer_size ((sum + row.table_size_ptr * sizeof_bitfield_info_heap) % 2 ^ 32) rows

-- The entries that the memory of that size has room for.
pub total_size : List BitfieldTableEntry → ℕ
total_size rows = buffer_size 0 rows / sizeof_bitfield_info_heap

pub read_tables_to_memory : List BitfieldTableEntry → ℕ → Globals → M (Status × Globals)
read_tables_to_memory rows include_devices g = do
  got ← allocate
  if got
      then (do
        b ← copy_rows include_devices rows (record { capacity = total_size rows; cells = [] })
        pure (success, record { table_heap = some b; table_size = length b.cells }))
      else pure (failure, record g { table_heap = none })

-- `erase_tables` frees the memory and leaves the size as it is.
pub erase_tables : Globals → Globals
erase_tables g = record g { table_heap = none }
