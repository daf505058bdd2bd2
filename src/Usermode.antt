-- ===== src/Usermode.antt =====
-- lib/src/cmd_handler.c: register reads from user mode. The table of functions (`func_table` of
-- common/jumptable.c) is an argument; its functions are single register reads, which the environment
-- answers, and `g_illsig` is passed along. `aarch64` is the build for that target.
pub mod Values
pub mod Flag
mod Tests
use maplesyrup.Base.{
  ℕ, ◌+◌, Bool, true, false, Option, none, some, List, [], ◌∷◌, get_elem?, length, ◌==◌,
  if◌then◌else◌, leb,
}
use maplesyrup.Structs.{
  Status, success, failure, MsData, ms_error_success, ms_error_illinst, ms_error_noresult,
  ms_error_table,
}
use maplesyrup.Env.{Env, Executed, outputs, illegal, ret, M, pure, crash, ◌>>=◌, rest_of, deref}

abbrev pub functype_out_1 : ℕ
functype_out_1 = 0

abbrev pub functype_out_2 : ℕ
functype_out_2 = 1

abbrev pub functype_bits_32 : ℕ
functype_bits_32 = 2

abbrev pub functype_bits_64 : ℕ
functype_bits_64 = 3

abbrev pub functype_bits_arch : ℕ
functype_bits_arch = 4

-- `func_ptr` is whether that is not NULL.
pub record FuncTableEntry : Type 0 where
  pub code : ℕ
  pub func_ptr : Bool
  pub function_prototype : ℕ
  pub data_size : ℕ

unfoldable pub run_function : ℕ → M Executed
run_function code e = ret (e.execute 0 code) (record e { execute = rest_of e.execute })

-- The two outputs of a read: the first, in 64 bits or in 32, and the second.
pub record Outputs : Type 0 where
  pub first64 : ℕ
  pub first : ℕ
  pub second : ℕ

abbrev pub no_outputs : Outputs
no_outputs = record { first64 = 0; first = 0; second = 0 }

-- How a read ends. An illegal one is left by a jump from `ms_signal_handler`, which sets `g_illsig`, and
-- the outputs stay 0.
unfoldable pub returned : (illsig : ℕ) → Executed → M (ℕ × Outputs)
returned illsig (outputs out64 out1 out2) =
    pure (illsig, record { first64 = out64; first = out1; second = out2 })
returned illsig illegal = pure (1, no_outputs)

-- The functions `try_command_…`, of whether the pointer is not NULL.
unfoldable pub try_command : (func_ptr : Bool) → (code illsig : ℕ) → M (ℕ × Outputs)
unfolding run_function returned
try_command true code illsig = do r ← run_function code; returned illsig r
try_command false code illsig = pure (illsig, no_outputs)

-- The value of `g_illsig` that is left, and the data.
unfoldable pub set_status_flag : (illsig : ℕ) → Option MsData → ℕ × Option MsData
set_status_flag illsig none = (illsig, none)
set_status_flag illsig (some out) =
    if leb 1 illsig
    then (0, some (record out { status = ms_error_illinst }))
    else (illsig, some (record out { status = ms_error_success }))

unfoldable pub find_from : ℕ → ℕ → List FuncTableEntry → Option ℕ
find_from ioctl i [] = none
find_from ioctl i (f ∷ fs) = if ioctl == f.code then some i else find_from ioctl (i + 1) fs

-- `*index_out`, or `none` for -1
unfoldable pub find_function_index : List FuncTableEntry → ℕ → Option ℕ
unfolding find_from
find_function_index func_table ioctl = find_from ioctl 0 func_table

-- What `call_func_ptr` stores of the outputs; `none` for a row that is not known.
unfoldable pub store : (aarch64 : Bool) → FuncTableEntry → Outputs → MsData → Option MsData
store aarch64 f o d =
    let arch = (if aarch64 then record d { out64 = o.first64 } else record d { out1 = o.first }) in
    if f.function_prototype == functype_out_1
    then (if f.data_size == functype_bits_32
        then some (record d { out1 = o.first })
        else (if f.data_size == functype_bits_64
            then some (record d { out64 = o.first64 })
            else (if f.data_size == functype_bits_arch then some arch else none)))
    else (if f.function_prototype == functype_out_2
        then (if f.data_size == functype_bits_32
            then some (record d { out1 = o.first; out2 = o.second })
            else (if f.data_size == functype_bits_arch
                then some (record arch { out2 = o.second })
                else none))
        else none)

abbrev pub cleared : MsData → MsData
cleared d = record d { cpu = 0; midr = 0; out64 = 0; out1 = 0; out2 = 0 }

-- What follows a read: the outputs are stored, and the status set.
unfoldable pub finish : (aarch64 : Bool) → FuncTableEntry → MsData → ℕ × Outputs → M (ℕ × MsData)
unfolding set_status_flag store
finish aarch64 f d (illsig, o) =
    let (illsig', shown) = set_status_flag illsig (store aarch64 f o d) in
    (do out ← deref shown; pure (illsig', out))

-- A row that is not known, so that nothing can be stored, is not called.
unfoldable pub call_known :
    (aarch64 : Bool) → FuncTableEntry → (illsig : ℕ) → MsData → Option MsData → M (ℕ × MsData)
unfolding try_command finish
call_known aarch64 f illsig d none = pure (illsig, record d { status = ms_error_table })
call_known aarch64 f illsig d (some stored) =
    try_command f.func_ptr f.code illsig >>= finish aarch64 f d

-- The status, `g_illsig` and the data that are left.
unfoldable pub call_func_ptr :
    (aarch64 : Bool)
    → List FuncTableEntry
    → (illsig func_index : ℕ) → Option MsData
    → M (Status × ℕ × Option MsData)
unfolding store call_known
call_func_ptr aarch64 func_table illsig func_index none = pure (failure, illsig, none)
call_func_ptr aarch64 func_table illsig func_index (some result_out) =
    elim (get_elem? func_table func_index) [
      | none ↦ pure (failure, illsig, some (cleared result_out))
      | some f ↦ (do
        r ←
            call_known aarch64 f illsig (cleared result_out)
              (store aarch64 f no_outputs (cleared result_out))
        pure (success, r.0, some (r.1)))
    ]

unfoldable pub usermode_results :
    (aarch64 : Bool)
    → List FuncTableEntry
    → (illsig cmd : ℕ) → Option MsData
    → M (Status × ℕ × Option MsData)
unfolding find_function_index call_func_ptr
usermode_results aarch64 func_table illsig cmd none = pure (failure, illsig, none)
usermode_results aarch64 func_table illsig cmd (some result_out) =
    let begun = record result_out { status = ms_error_noresult } in
    elim (find_function_index func_table cmd) [
      | none ↦ pure (failure, illsig, some begun)
      | some index ↦ call_func_ptr aarch64 func_table illsig index (some begun)
    ]
