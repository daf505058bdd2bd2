-- ===== src/Kernel.antt =====
-- module: the kernel module, which reads registers on the processors asked for. What the kernel and the
-- hardware answer during one ioctl is a `Machine`; each processor is asked once in it. `none` is
-- undefined behaviour of C: an access outside an array, or a call through NULL.
pub mod Cpus
pub mod Read
pub mod Gic
pub mod Ioctl
pub mod Tree
pub mod Device
mod Tests
use maplesyrup.Base.{
  ℕ, Bool, true, false, Option, none, some, List, [], ◌∷◌, replicate, get_elem?, set, ◌==◌,
  if◌then◌else◌,
}
use maplesyrup.Structs.{
  Status, success, failure, MsData, MsDataCpu, ms_max_cpus, ms_error_success, ms_error_undefinst,
  ms_error_table,
}
use maplesyrup.Env.{Executed, outputs, illegal}
use maplesyrup.Usermode.{FuncTableEntry, Outputs, no_outputs, find_from, store}

pub record Machine : Type 0 where
  pub aarch64 : Bool
  pub config_smp : Bool
  pub cpu_online : ℕ → Bool
  pub cpu_up : ℕ → Bool  -- whether the call succeeds
  pub smp_call_function_single : ℕ → Bool  -- whether the function runs
  pub midr : ℕ → ℕ  -- by processor
  pub execute : ℕ → ℕ → Executed  -- by processor and code; `illegal` ends in `undef_hook`
  pub readl_relaxed : ℕ → ℕ → ℕ  -- by processor and address

infixl 5 ◌>>=◌
unfoldable pub ◌>>=◌ : {A B : Type 0} → Option A → (A → Option B) → Option B
none >>= k = none
some a >>= k = k a

-- A `base_addr` of 0 is NULL.
pub record Wrapper : Type 0 where
  pub found_index : ℕ
  pub base_addr : ℕ
  pub pcpu : ℕ
  pub results : MsDataCpu

abbrev pub zero_entry : MsData
zero_entry = record {
  cpu = 0;
  midr = 0;
  in1 = 0;
  in2 = 0;
  out64 = 0;
  out1 = 0;
  out2 = 0;
  status = 0;
}

-- memset (&local_result, 0, …)
abbrev pub zero_wrapper : Wrapper
zero_wrapper = record {
  found_index = 0;
  base_addr = 0;
  pcpu = 0;
  results = record { code = 0; pcpu = 0; part_number = 0; cpu = replicate ms_max_cpus zero_entry };
}

unfoldable pub copy_entry : (from to : MsData) → MsData
copy_entry from to = record to {
  in1 = from.in1;
  in2 = from.in2;
  out64 = from.out64;
  out1 = from.out1;
  out2 = from.out2;
  cpu = from.cpu;
  midr = from.midr;
  status = from.status;
}

-- The loop over the `ms_max_cpus` entries of two structures.
unfoldable pub copy_entries : (from to : List MsData) → List MsData
unfolding copy_entry
copy_entries (f ∷ from) (t ∷ to) = copy_entry f t ∷ copy_entries from to
copy_entries from to = to

unfoldable pub unpack_result_wrapper : Option MsDataCpu → Option Wrapper → Status × Option Wrapper
unfolding copy_entries
unpack_result_wrapper none kernelout = (failure, kernelout)
unpack_result_wrapper (some userin) none = (failure, none)
unpack_result_wrapper (some userin) (some w) = (
  success,
  some (record w {
    results = record w.results { cpu = copy_entries userin.cpu w.results.cpu; code = userin.code };
    pcpu = userin.pcpu;
  }),
)

unfoldable pub repack_result_wrapper : Option Wrapper → Option MsDataCpu → Status × Option MsDataCpu
unfolding copy_entries
repack_result_wrapper none userout = (failure, userout)
repack_result_wrapper (some kernelin) none = (failure, none)
repack_result_wrapper (some kernelin) (some d) =
    (success, some (record d { cpu = copy_entries kernelin.results.cpu d.cpu }))

-- `*index_out`, or `none` for -1
unfoldable pub find_function_index : List FuncTableEntry → ℕ → Option ℕ
unfolding find_from
find_function_index func_table ioctl = find_from ioctl 0 func_table

-- The value of `g_undef_flag` that is left, and the data.
unfoldable pub set_undef_flag : (undef_flag : ℕ) → Option MsData → ℕ × Option MsData
set_undef_flag undef_flag none = (undef_flag, none)
set_undef_flag undef_flag (some out) =
    if undef_flag == 1
    then (0, some (record out { status = ms_error_undefinst }))
    else (undef_flag, some (record out { status = ms_error_success }))

-- The value of `g_undef_flag` that the hook leaves. It also skips the instruction.
unfoldable pub undef_hook : (undef_flag : ℕ) → ℕ
undef_hook undef_flag = 1

-- How a read ends: the flag and the outputs, which stay 0 when the instruction was skipped.
unfoldable pub returned : (undef_flag : ℕ) → Executed → ℕ × Outputs
unfolding undef_hook
returned undef_flag (outputs out64 out1 out2) =
    (undef_flag, record { first64 = out64; first = out1; second = out2 })
returned undef_flag illegal = (undef_hook undef_flag, no_outputs)

abbrev pub with_entry : Wrapper → ℕ → MsData → Wrapper
with_entry w i d = record w { results = record w.results { cpu = set w.results.cpu i d } }

-- What `get_cpu` returns, which is not called without CONFIG_SMP.
unfoldable pub cpu_index_of : Machine → ℕ → ℕ
cpu_index_of k cpu = if k.config_smp then cpu else 0

-- The entry before a read. `get_midr` reads a register, and is not reported.
unfoldable pub begun : Machine → ℕ → MsData → MsData
begun k i d = record d { out64 = 0; out1 = 0; out2 = 0; cpu = i; midr = k.midr i }

abbrev pub out_or : MsData → Option MsData → MsData
out_or d none = d
out_or d (some out) = out

-- What follows a read: the outputs are stored and the status set.
unfoldable pub finish : (aarch64 : Bool) → FuncTableEntry → MsData → ℕ × Outputs → ℕ × MsData
unfolding store set_undef_flag
finish aarch64 f d (undef_flag, o) =
    let (flag, out) = set_undef_flag undef_flag (store aarch64 f o d) in (flag, out_or d out)

-- The switch over the row, of what the row stores. A row that is not known is not called; the pointer of
-- one that is known is not tested.
unfoldable pub call_row :
    Machine
    → FuncTableEntry
    → (cpu_index undef_flag : ℕ) → MsData
    → Option MsData
    → Option (ℕ × MsData)
unfolding returned finish
call_row k f i undef_flag d none = some (undef_flag, record d { status = ms_error_table })
call_row k f i undef_flag d (some stored) =
    if f.func_ptr
    then some (finish k.aarch64 f d (returned undef_flag (k.execute i f.code)))
    else none

-- Runs on `cpu`, and leaves `g_undef_flag` and the wrapper.
unfoldable pub call_func_ptr :
    Machine
    → List FuncTableEntry
    → (cpu undef_flag : ℕ) → Option Wrapper
    → Option (ℕ × Option Wrapper)
unfolding store call_row ◌>>=◌ cpu_index_of begun
call_func_ptr k func_table cpu undef_flag none = some (undef_flag, none)
call_func_ptr k func_table cpu undef_flag (some w) =
    let i = cpu_index_of k cpu in
    (do
      entry ← get_elem? w.results.cpu i
      f ← get_elem? func_table w.found_index
      r ←
          call_row k f i undef_flag (begun k i entry)
            (store k.aarch64 f no_outputs (begun k i entry))
      some (r.0, some (with_entry w i (r.1))))
