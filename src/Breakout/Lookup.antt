-- ===== src/Breakout/Lookup.antt =====
-- Lookups in the tables in memory: `breakout_get_index`, the functions that read a column at a code,
-- and `get_bitfieldstamp` of lib/src/parse_breakout.c.
pub mod First
pub mod Index
pub mod Loop
use maplesyrup.Base.{
  ℕ, ◌+◌, ◌-◌, ◌%◌, ◌^◌, Option, none, some, List, [], ◌∷◌, ◌++◌, CString, decimal, decimal_02,
  get_elem?, ltb, ◌==◌, if◌then◌else◌,
}
use maplesyrup.Structs.{BitfieldInfoHeap, minus_one}
use maplesyrup.Env.{M, pure, ◌>>=◌, deref}
use maplesyrup.Env.Loop.{Flow, next, leave, for_loop}
use maplesyrup.Breakout.Tables.{Globals}

-- g_bitfield_table_heap[i]
unfoldable pub table_entry : Globals → ℕ → M BitfieldInfoHeap
table_entry g i = do b ← deref g.table_heap; deref (get_elem? b.cells i)

pub index_body : Globals → ℕ → ℕ → Option ℕ → M (Flow (Option ℕ))
index_body g code i found = do
  x ← table_entry g i
  if x.uid == code then pure (leave (some i)) else pure (next found)

-- The value that the loop ended with, however it ended.
abbrev pub ended : {S : Type 0} → Flow S → S
ended (next s) = s
ended (leave s) = s

-- `none` is the result -1.
pub breakout_get_index : Globals → ℕ → M (Option ℕ)
breakout_get_index g code = do r ← for_loop (index_body g code) g.table_size 0 none; pure (ended r)

-- A column of the entry at a code, NULL if there is none.
abbrev pub column : {A : Type 0} → (BitfieldInfoHeap → A) → Globals → ℕ → M (Option A)
column read g code = do
  index ← breakout_get_index g code
  elim index [ none ↦ pure none | some i ↦ (do x ← table_entry g i; pure (some (read x))) ]

unfoldable pub get_register_name : Globals → ℕ → M (Option CString)
get_register_name = column (λ x. x.register_name_expanded)

unfoldable pub get_functional_group : Globals → ℕ → M (Option CString)
get_functional_group = column (λ x. x.functional_group)

unfoldable pub get_description : Globals → ℕ → M (Option CString)
get_description = column (λ x. x.description)

unfoldable pub get_bitfield : Globals → ℕ → M (Option CString)
get_bitfield = column (λ x. x.bitfield)

-- `get_ioctl`: the register of a bitfield, -1 as an unsigned number if there is none.
unfoldable pub get_ioctl : Globals → ℕ → M ℕ
get_ioctl g code = do
  index ← breakout_get_index g code
  elim index [ none ↦ pure minus_one | some i ↦ (do x ← table_entry g i; pure x.register_uid) ]

-- %02d of an unsigned int, which printf takes for a signed one.
unfoldable pub print_02 : ℕ → CString
print_02 n = if ltb n (2 ^ 31) then decimal_02 n else b'-' ∷ decimal (2 ^ 32 - n)

unfoldable pub stamp_text : BitfieldInfoHeap → CString
unfolding print_02
stamp_text x =
    let lsb = x.rightshift in
    let msb = (x.mask + minus_one + lsb) % 2 ^ 32 in print_02 msb ++ b':' ∷ print_02 lsb

-- The text that is left in the buffer, or `none` for -1.
unfoldable pub get_bitfieldstamp : Globals → ℕ → M (Option CString)
get_bitfieldstamp = column stamp_text
