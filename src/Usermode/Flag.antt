-- ===== src/Usermode/Flag.antt =====
-- What a read from user mode reports, and that it leaves the flag of the signal handler clear.
use maplesyrup.Base.{
  ℕ, suc, ◌+◌, ◌≡◌, refl, sym, ap, ◌∙◌, Bool, true, false, ◌&&◌, if◌then◌else◌, none, some, List,
  [], ◌∷◌, get_elem?, ◌==◌, ==_iff, Bool-cases, inl, inr, ◌⊎◌, arith,
}
use native.Mathlib.Nat.{zero-add}
use mathlib.Core.Path.{subst}
use mathlib.Core.Option.{some-injective}
use maplesyrup.Structs.{Status, success, failure, MsData, ms_error_illinst, ms_error_noresult}
use maplesyrup.Env.{Env, Executed, outputs, illegal, ret, M, ◌>>=◌, rest_of}
use maplesyrup.Usermode.Values.{
  row_for, has_row, is_known, read_data, store-known, store-unknown, store-zero,
}
use maplesyrup.Usermode.{
  FuncTableEntry, Outputs, no_outputs, find_from, find_function_index, run_function, returned,
  try_command, finish, set_status_flag, store, cleared, call_known, call_func_ptr, usermode_results,
}

-- A row whose function is called.
abbrev pub is_called : FuncTableEntry → Bool
is_called f = is_known f && f.func_ptr

-- The reads that are left after one of the row.
abbrev pub reads_after : FuncTableEntry → (ℕ → ℕ → Executed) → ℕ → ℕ → Executed
reads_after f execute = if is_called f then rest_of execute else execute

-- The data after a read of the row in user mode: a NULL pointer is passed over.
abbrev pub user_data : (aarch64 : Bool) → FuncTableEntry → (ℕ → ℕ → Executed) → MsData → MsData
user_data aarch64 f execute d =
    read_data ms_error_illinst aarch64 f (if f.func_ptr then execute 0 f.code else outputs 0 0 0)
      (record d { cpu = 0; midr = 0 })

-- What a read in user mode reports, the data and the environment that are left.
abbrev pub Reported :
    (aarch64 : Bool) → List FuncTableEntry → ℕ → MsData → Env → Status → MsData → Env → Type 0
Reported aarch64 func_table cmd d e success d' e' =
    (f : FuncTableEntry) × (row_for cmd func_table ≡ some f)
    × (d' ≡ user_data aarch64 f e.execute d)
    × (e'.execute ≡ reads_after f e.execute)
Reported aarch64 func_table cmd d e failure d' e' =
    (row_for cmd func_table ≡ none)
    × (d' ≡ record d { status = ms_error_noresult })
    × (e'.execute ≡ e.execute)

pub find_from-cases :
    (ioctl i : ℕ) (fs : List FuncTableEntry)
    → ((find_from ioctl i fs ≡ none) × (row_for ioctl fs ≡ none))
      ⊎ ((k : ℕ) × (f : FuncTableEntry) × (find_from ioctl i fs ≡ some (i + k))
          × (get_elem? fs k ≡ some f)
          × (row_for ioctl fs ≡ some f))
unfolding find_from
find_from-cases ioctl i [] = inl (refl, refl)
find_from-cases ioctl i (f ∷ fs) = elim (Bool-cases (ioctl == f.code)) [
  | inl hit ↦
      let same : (f.code == ioctl) ≡ true = ground arith in
      inr (0, f, rw hit (ap (λ (n : ℕ). some n) (omega arith)), refl, rw same refl)
  | inr miss ↦
      let apart : (f.code == ioctl) ≡ false = ground arith in
      elim (find_from-cases ioctl (i + 1) fs) [
        | inl (absent, no_row) ↦ inl (rw miss absent, rw apart no_row)
        | inr (k, y, found, at, row) ↦
            inr (suc k, y, rw miss (found ∙ ap (λ (n : ℕ). some n) (omega arith)), at, rw apart row)
      ]
]

pub row_for-code :
    (code : ℕ) (fs : List FuncTableEntry) (f : FuncTableEntry)
    → row_for code fs ≡ some f
    → f.code ≡ code
row_for-code code [] f row = ground arith
row_for-code code (x ∷ fs) f row = elim (Bool-cases (x.code == code)) [
  | inl hit ↦
      let same : some x ≡ some f =
        subst (λ b. (if b then some x else row_for code fs) ≡ some f) hit row in
      ap (λ (y : FuncTableEntry). y.code) (sym (some-injective x f same))
      ∙ (==_iff x.code code).0 hit
  | inr miss ↦
      row_for-code code fs f
        (subst (λ b. (if b then some x else row_for code fs) ≡ some f) miss row)
]

pub has_row-none :
    (code : ℕ) (table : List FuncTableEntry)
    → row_for code table ≡ none
    → has_row code table ≡ false
has_row-none code [] absent = refl
has_row-none code (f ∷ table) absent = elim (Bool-cases (f.code == code)) [
  | inl hit ↦ cc (absent, ap (λ b. if b then some f else row_for code table) hit)
  | inr miss ↦
      let rest : row_for code table ≡ none =
        subst (λ b. (if b then some f else row_for code table) ≡ none) miss absent in
      rw miss (has_row-none code table rest)
]

pub has_row-some :
    (code : ℕ) (table : List FuncTableEntry) (f : FuncTableEntry)
    → row_for code table ≡ some f
    → has_row code table ≡ true
has_row-some code [] f row = ground arith
has_row-some code (x ∷ table) f row = elim (Bool-cases (x.code == code)) [
  | inl hit ↦ rw hit refl
  | inr miss ↦
      let rest : row_for code table ≡ some f =
        subst (λ b. (if b then some x else row_for code table) ≡ some f) miss row in
      rw miss (has_row-some code table f rest)
]

-- The answer of a call: the flag is clear, the data those of the read.
abbrev Answers : M (ℕ × MsData) → MsData → (ℕ → ℕ → Executed) → Env → Type 0
Answers m d execute e =
    (e' : Env) × (m e ≡ ret (0, d) e') × (e'.alloc ≡ e.alloc) × (e'.execute ≡ execute)

finish-executed :
    (aarch64 : Bool) (f : FuncTableEntry) (d : MsData) (x : Executed) (e : Env)
    → is_known f ≡ true
    → Answers
        (returned 0 x >>= finish aarch64 f (cleared d))
        (read_data ms_error_illinst aarch64 f x (cleared d))
        e.execute
        e
unfolding returned finish set_status_flag ◌>>=◌
finish-executed aarch64 f d (outputs out64 out1 out2) e known =
    let o : Outputs = record { first64 = out64; first = out1; second = out2 } in
    (e, rw (known, store-known aarch64 f o (cleared d) known) refl, refl, refl)
finish-executed aarch64 f d illegal e known =
    (e, rw (known, store-zero aarch64 f (cleared d) known) refl, refl, refl)

try-Answers :
    (aarch64 : Bool) (f : FuncTableEntry) (d : MsData) (func_ptr : Bool) (e : Env)
    → is_known f ≡ true
    → Answers
        (try_command func_ptr f.code 0 >>= finish aarch64 f (cleared d))
        (read_data ms_error_illinst aarch64 f
          (if func_ptr then e.execute 0 f.code else outputs 0 0 0)
          (cleared d))
        (if func_ptr then rest_of e.execute else e.execute)
        e
unfolding try_command run_function ◌>>=◌
try-Answers aarch64 f d true e known =
    finish-executed aarch64 f d (e.execute 0 f.code) (record e { execute = rest_of e.execute })
      known
try-Answers aarch64 f d false e known = finish-executed aarch64 f d (outputs 0 0 0) e known

call_known-Answers :
    (aarch64 : Bool) (f : FuncTableEntry) (d : MsData) (e : Env)
    → Answers
        (call_known aarch64 f 0 (cleared d) (store aarch64 f no_outputs (cleared d)))
        (user_data aarch64 f e.execute d)
        (reads_after f e.execute)
        e
unfolding call_known
call_known-Answers aarch64 f d e = elim (Bool-cases (is_known f)) [
  | inr unknown ↦ (
    e,
    rw (unknown, store-unknown aarch64 f no_outputs (cleared d) unknown) refl,
    refl,
    rw unknown refl,
  )
  | inl known ↦
      let (e', runs, alloc, execute) = try-Answers aarch64 f d f.func_ptr e known in
      (e', rw (store-zero aarch64 f (cleared d) known) runs, alloc, rw known execute)
]

-- With the flag of the signal handler clear, a read from user mode has no fault, allocates nothing and
-- leaves the flag clear. It fails only if no row of the table is for the register; the data then say that
-- there is no result. Otherwise they are those of the first row for the register: where its kind is known
-- and its pointer not NULL, the outputs of one read, each in the place of its kind, and that it succeeded, or
-- no value and that the instruction was illegal; no value where the pointer is NULL, or where the kind is
-- not known, which they then say.
pub usermode_results-Reported :
    (aarch64 : Bool) (func_table : List FuncTableEntry) (cmd : ℕ) (d : MsData) (e : Env)
    → (s : Status) × (d' : MsData) × (e' : Env) × (usermode_results aarch64 func_table 0 cmd
          (some d)
          e
        ≡ ret (s, 0, some d') e')
      × (e'.alloc ≡ e.alloc)
      × Reported aarch64 func_table cmd d e s d' e'
unfolding usermode_results find_function_index call_func_ptr ◌>>=◌
usermode_results-Reported aarch64 func_table cmd d e = elim (find_from-cases cmd 0 func_table) [
  | inl (absent, no_row) ↦ (
    failure,
    record d { status = ms_error_noresult },
    e,
    rw (usermode_results, absent) refl,
    refl,
    (no_row, refl, refl),
  )
  | inr (k, f, found, at, row) ↦
      let (e', runs, alloc, execute) =
        call_known-Answers aarch64 f (record d { status = ms_error_noresult }) e in
      (
        success,
        user_data aarch64 f e.execute d,
        e',
        rw (usermode_results, found, zero-add k, call_func_ptr, at, ◌>>=◌, runs) refl,
        alloc,
        (f, row, refl, execute),
      )
]
