-- ===== src/Jumptable/Readable.antt =====
-- The registers of the tables of lib/src/bitfields in the table of common/jumptable.c.
use maplesyrup.Base.{
  ℕ, ◌≡◌, refl, ap, ◌∙◌, ◌⊎◌, inl, inr, Bool, true, ◌&&◌, ◌||◌, not, none, some, List, all_of,
  get_elem?, ◌==◌, Bool-cases, ◌≢◌, arith,
}
use native.Mathlib.Nat.{zero-add}
use maplesyrup.Structs.{BitfieldInfo, MsData}
use maplesyrup.Usermode.{FuncTableEntry, Outputs, find_function_index, store}
use maplesyrup.Usermode.Values.{has_row, is_known}
use maplesyrup.Usermode.Flag.{find_from-cases, row_for-code, has_row-none}
use maplesyrup.Registers.{ms_sysreg_mmfr4}
use maplesyrup.Bitfields.Tiling.{Table, armv7a, armv8a, gicd, gicc, rows_of}
use maplesyrup.Bitfields.Distinct.{is_system_table, get_elem?-all_of}
use maplesyrup.Jumptable.{func_table}

known-store :
    (aarch64 : Bool) (f : FuncTableEntry) (o : Outputs) (d : MsData)
    → is_known f ≡ true
    → store aarch64 f o d ≢ none
unfolding store
known-store aarch64 f o d known = λ missing. ground arith

-- The row that is found for a code has it, and calls a function whose outputs are stored.
abbrev pub Readable : (aarch64 : Bool) → List FuncTableEntry → ℕ → Type 0
Readable aarch64 table code =
    (n : ℕ) × (f : FuncTableEntry) × (find_function_index table code ≡ some n)
    × (get_elem? table n ≡ some f)
    × (f.code ≡ code)
    × (f.func_ptr ≡ true)
    × ((o : Outputs) (d : MsData) → store aarch64 f o d ≢ none)

-- The last row has the code 0.
abbrev is_end_or_known : FuncTableEntry → Bool
is_end_or_known f = f.code == 0 || f.func_ptr && is_known f

func_table-known : all_of is_end_or_known func_table ≡ true
unfolding func_table
func_table-known = refl

abbrev is_covered : BitfieldInfo → Bool
is_covered x =
    not (x.register_uid == 0)
    && (x.register_uid == ms_sysreg_mmfr4 || has_row x.register_uid func_table)

rows_of-covered : (t : Table) → is_system_table t ≡ true → all_of is_covered (rows_of t) ≡ true
unfolding rows_of func_table
rows_of-covered armv7a system = refl
rows_of-covered armv8a system = refl
rows_of-covered gicd system = absurd (ground arith)
rows_of-covered gicc system = absurd (ground arith)

mmfr4-absent : find_function_index func_table ms_sysreg_mmfr4 ≡ none
unfolding find_function_index func_table
mmfr4-absent = refl

-- A code that is not 0 and has a row is readable, where the rows are known.
row-Readable :
    (aarch64 : Bool) (table : List FuncTableEntry) (code : ℕ)
    → all_of is_end_or_known table ≡ true
    → code ≢ 0
    → has_row code table ≡ true
    → Readable aarch64 table code
unfolding find_function_index
row-Readable aarch64 table code known nonzero row = elim (find_from-cases code 0 table) [
  | inl (missing, absent) ↦ absurd (ground (arith, has_row-none code table absent))
  | inr (n, f, found, at, row_at) ↦
      let same = row_for-code code table f row_at in
      let good = get_elem?-all_of is_end_or_known table n f known at in
      let kind : is_known f ≡ true = ground arith in
      (
        n,
        f,
        found ∙ ap some (zero-add n),
        at,
        same,
        ground arith,
        λ o d. known-store aarch64 f o d kind,
      )
]

-- For the tables of system registers, the register of each row has a row of its code in the table of
-- functions, which the search finds first, which calls a function, and whose outputs are stored on either
-- processor; the exception is MMFR4, for which the search finds none.
pub rows_of-Readable :
    (t : Table) (i : ℕ) (x : BitfieldInfo) (aarch64 : Bool)
    → is_system_table t ≡ true
    → get_elem? (rows_of t) i ≡ some x
    → Readable aarch64 func_table x.register_uid
      ⊎ ((x.register_uid ≡ ms_sysreg_mmfr4)
          × (find_function_index func_table x.register_uid ≡ none))
rows_of-Readable t i x aarch64 system at =
    let covered = get_elem?-all_of is_covered (rows_of t) i x (rows_of-covered t system) at in
    elim (Bool-cases (has_row x.register_uid func_table)) [
      | inl row ↦
          inl (row-Readable aarch64 func_table x.register_uid func_table-known (ground arith) row)
      | inr absent ↦
          let which : x.register_uid ≡ ms_sysreg_mmfr4 = ground arith in
          inr (which, ap (find_function_index func_table) which ∙ mmfr4-absent)
    ]
