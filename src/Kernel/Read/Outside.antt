-- ===== src/Kernel/Read/Outside.antt =====
-- A read in the kernel for a processor that there is no entry for.
use native.Mathlib.Nat.{zero-add}
use maplesyrup.Base.{
  ℕ, ◌≤◌, ◌<◌, ◌≡◌, refl, inl, inr, none, some, List, length, ◌&&◌, ◌==◌, if◌then◌else◌, Bool-cases,
  ==_iff, arith,
}
use maplesyrup.Structs.{failure, MsDataCpu, ms_max_cpus}
use maplesyrup.Usermode.{FuncTableEntry}
use maplesyrup.Usermode.Values.{has_row}
use maplesyrup.Usermode.Flag.{find_from-cases, has_row-none, has_row-some}
use maplesyrup.Kernel.{Machine, ◌>>=◌, find_function_index, call_func_ptr}
use maplesyrup.Kernel.Cpus.{ms_cpu_all, Thread}
use maplesyrup.Kernel.Cpus.Each.{on_each_cpu_kick-above, on_each_cpu_kick-at}
use maplesyrup.Kernel.Read.{repacked, kicked, call_func_return_results}
use maplesyrup.Kernel.Read.Answers.{request_wrapper, unpack-cpus}

kicked-outside :
    (k : Machine) (thread : Thread) (d : MsDataCpu) (index base : ℕ)
    → length d.cpu ≡ ms_max_cpus
    → ms_max_cpus ≤ d.pcpu
    → d.pcpu < ms_cpu_all
    → kicked k thread 0 (some (request_wrapper d index base)) (some d)
      ≡ (if d.pcpu == ms_max_cpus then none else some (failure, 0, some d))
unfolding kicked repacked ◌>>=◌
kicked-outside k thread d index base eight above low = elim (Bool-cases (d.pcpu == ms_max_cpus)) [
  | inl at ↦
      let fault =
        on_each_cpu_kick-at k thread (request_wrapper d index base) eight
          ((==_iff d.pcpu ms_max_cpus).0 at) in
      rw (at, kicked, fault) refl
  | inr apart ↦
      let refused =
        on_each_cpu_kick-above k thread (request_wrapper d index base) (ground arith) low in
      rw (apart, kicked, refused) refl
]

-- A request with its `ms_max_cpus` entries for a processor that there is no entry for, with a number from `ms_max_cpus` to below
-- `ms_cpu_all`, fails and is left as it was, except that where the table has a row for its register and the
-- number is `ms_max_cpus` itself, which is not refused, the entry behind the last is written.
pub call_func_return_results-outside :
    (k : Machine) (func_table : List FuncTableEntry) (d : MsDataCpu)
    → length d.cpu ≡ ms_max_cpus
    → ms_max_cpus ≤ d.pcpu
    → d.pcpu < ms_cpu_all
    → call_func_return_results k func_table 0 (some d) ≡ (
        if has_row d.code func_table && d.pcpu == ms_max_cpus
        then none
        else some (failure, 0, some d))
unfolding call_func_return_results find_function_index
call_func_return_results-outside k func_table d eight above low =
    elim (find_from-cases d.code 0 func_table) [
      | inl (absent, no_row) ↦
          rw (call_func_return_results, absent, has_row-none d.code func_table no_row) refl
      | inr (n, f, found, at, row) ↦
          rw
            (
              call_func_return_results,
              found,
              zero-add n,
              unpack-cpus d eight,
              has_row-some d.code func_table f row,
            )
            (kicked-outside k (call_func_ptr k func_table) d n 0 eight above low)
    ]
