-- ===== src/Kernel/Cpus.antt =====
-- `cpu_online_wrapper` and `on_each_cpu_kick` of module/cmd_handler.c: a function is run on the
-- processors asked for, which are brought up when they are off.
pub mod Each
use maplesyrup.Base.{
  ℕ, zero, suc, ◌+◌, ◌-◌, ◌^◌, Bool, true, false, ◌&&◌, ◌||◌, not, Option, none, some, get_elem?,
  ◌==◌, leb, ltb, if◌then◌else◌,
}
use maplesyrup.Structs.{
  Status, success, failure, MsData, ms_max_cpus, ms_error_smp, ms_error_smp_single,
}
use maplesyrup.Kernel.{Machine, Wrapper, with_entry, ◌>>=◌}

abbrev pub ms_cpu_all : ℕ
ms_cpu_all = 2 ^ 32 - 1

-- A function run on a processor, with `g_undef_flag` and the data.
abbrev pub Thread : Type 0
Thread = ℕ → ℕ → Option Wrapper → Option (ℕ × Option Wrapper)

-- entry->status = …
unfoldable pub set_status : ℕ → ℕ → Wrapper → Option Wrapper
unfolding ◌>>=◌
set_status cpu status w = do
  entry ← get_elem? w.results.cpu cpu
  some (with_entry w cpu (record entry { status = status }))

-- The processor cannot be used, or could not be called: that status is stored.
unfoldable pub not_called :
    (cpu status undef_flag : ℕ) → Wrapper → Option (Status × ℕ × Option Wrapper)
unfolding set_status ◌>>=◌
not_called cpu status undef_flag w = do
  w' ← set_status cpu status w
  some (failure, undef_flag, some w')

unfoldable pub called :
    Thread → (cpu undef_flag : ℕ) → Wrapper → Option (Status × ℕ × Option Wrapper)
unfolding ◌>>=◌
called threadfn cpu undef_flag w = do r ← threadfn cpu undef_flag (some w); some (success, r.0, r.1)

unfoldable pub cpu_online_wrapper :
    Machine
    → (cpu undef_flag : ℕ) → Option Thread
    → Option Wrapper
    → Option (Status × ℕ × Option Wrapper)
unfolding not_called called
cpu_online_wrapper k cpu undef_flag none data_in = some (failure, undef_flag, data_in)
cpu_online_wrapper k cpu undef_flag (some threadfn) none = some (failure, undef_flag, none)
cpu_online_wrapper k cpu undef_flag (some threadfn) (some w) =
    if leb ms_max_cpus cpu
    then not_called cpu ms_error_smp undef_flag w
    else (if k.config_smp
        then (if not (k.cpu_online cpu) && not (k.cpu_up cpu)
            then not_called cpu ms_error_smp undef_flag w
            else (if k.smp_call_function_single cpu
                then called threadfn cpu undef_flag w
                else not_called cpu ms_error_smp_single undef_flag w))
        else called threadfn cpu undef_flag w)

-- `n` more processors, beginning at `i`; a failure is only traced.
unfoldable pub all_cpus :
    Machine → (n i undef_flag : ℕ) → Option Thread → Option Wrapper → Option (ℕ × Option Wrapper)
unfolding cpu_online_wrapper ◌>>=◌
all_cpus k zero i undef_flag funcptr w = some (undef_flag, w)
all_cpus k (suc n) i undef_flag funcptr w = do
  r ← cpu_online_wrapper k i undef_flag funcptr w
  all_cpus k n (i + 1) (r.1) funcptr (r.2)

unfoldable pub on_each_cpu_kick :
    Machine
    → (undef_flag : ℕ) → Option Thread
    → Option Wrapper
    → Option (Status × ℕ × Option Wrapper)
unfolding all_cpus cpu_online_wrapper ◌>>=◌
on_each_cpu_kick k undef_flag none w = some (failure, undef_flag, w)
on_each_cpu_kick k undef_flag (some funcptr) none = some (failure, undef_flag, none)
on_each_cpu_kick k undef_flag (some funcptr) (some w) =
    if w.pcpu == ms_cpu_all
    then (do
      r ← all_cpus k ms_max_cpus 0 undef_flag (some funcptr) (some w)
      some (success, r.0, r.1))
    else (if ltb ms_max_cpus w.pcpu then some (failure, undef_flag, some w) else (do
      r ← cpu_online_wrapper k w.pcpu undef_flag (some funcptr) (some w)
      some (success, r.1, r.2)))
