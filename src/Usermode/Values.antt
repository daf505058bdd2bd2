-- ===== src/Usermode/Values.antt =====
-- What a read of a row of the table of functions gives, described by the kind of the row.
use maplesyrup.Base.{
  ℕ, ◌≡◌, Bool, true, false, ◌&&◌, ◌||◌, Option, none, some, List, [], ◌∷◌, some_of, ◌==◌,
  if◌then◌else◌, arith,
}
use maplesyrup.Structs.{MsData, ms_error_success, ms_error_table}
use maplesyrup.Env.{Executed, outputs, illegal}
use maplesyrup.Usermode.{
  FuncTableEntry, Outputs, no_outputs, functype_out_1, functype_out_2, functype_bits_32,
  functype_bits_64, functype_bits_arch, store,
}

-- The first row for a register.
abbrev pub row_for : ℕ → List FuncTableEntry → Option FuncTableEntry
row_for code [] = none
row_for code (f ∷ fs) = if f.code == code then some f else row_for code fs

abbrev pub has_row : ℕ → List FuncTableEntry → Bool
has_row code table = some_of (λ f. f.code == code) table

-- The kinds of row that there are.
abbrev pub is_known : FuncTableEntry → Bool
is_known f =
    f.function_prototype == functype_out_1
      && (f.data_size == functype_bits_32
          || f.data_size == functype_bits_64
          || f.data_size == functype_bits_arch)
    || f.function_prototype == functype_out_2
      && (f.data_size == functype_bits_32 || f.data_size == functype_bits_arch)

-- A row whose first output has 64 bits.
abbrev pub is_wide : (aarch64 : Bool) → FuncTableEntry → Bool
is_wide aarch64 f = f.data_size == functype_bits_64 || f.data_size == functype_bits_arch && aarch64

-- The outputs that the kind of a row has, the others 0.
abbrev pub kept_outputs : (aarch64 : Bool) → FuncTableEntry → Outputs → Outputs
kept_outputs aarch64 f o = record {
  first64 = if is_wide aarch64 f then o.first64 else 0;
  first = if is_wide aarch64 f then 0 else o.first;
  second = if f.function_prototype == functype_out_2 then o.second else 0;
}

abbrev pub with_outputs : MsData → Outputs → MsData
with_outputs d o = record d { out64 = o.first64; out1 = o.first; out2 = o.second }

-- An illegal instruction gives no value.
abbrev pub values_of : (aarch64 : Bool) → FuncTableEntry → Executed → Outputs
values_of aarch64 f illegal = no_outputs
values_of aarch64 f (outputs out64 out1 out2) =
    kept_outputs aarch64 f (record { first64 = out64; first = out1; second = out2 })

abbrev pub status_of : (undefined : ℕ) → Executed → ℕ
status_of undefined illegal = undefined
status_of undefined (outputs out64 out1 out2) = ms_error_success

-- The data after a row was read, where `undefined` is the status of an illegal instruction. A row of no
-- known kind is not read.
abbrev pub read_data :
    (undefined : ℕ) (aarch64 : Bool) → FuncTableEntry → Executed → MsData → MsData
read_data undefined aarch64 f x d =
    record (with_outputs d (if is_known f then values_of aarch64 f x else no_outputs)) {
      status = if is_known f then status_of undefined x else ms_error_table;
    }

pub store-known :
    (aarch64 : Bool) (f : FuncTableEntry) (o : Outputs) (d : MsData)
    → is_known f ≡ true
    → store aarch64 f o (with_outputs d no_outputs)
      ≡ some (with_outputs d (kept_outputs aarch64 f o))
unfolding store
store-known aarch64 f o d known = ground arith

pub store-unknown :
    (aarch64 : Bool) (f : FuncTableEntry) (o : Outputs) (d : MsData)
    → is_known f ≡ false
    → store aarch64 f o d ≡ none
unfolding store
store-unknown aarch64 f o d unknown = ground arith

pub store-zero :
    (aarch64 : Bool) (f : FuncTableEntry) (d : MsData)
    → is_known f ≡ true
    → store aarch64 f no_outputs (with_outputs d no_outputs) ≡ some (with_outputs d no_outputs)
unfolding store
store-zero aarch64 f d known = ground arith
