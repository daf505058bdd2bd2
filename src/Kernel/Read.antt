-- ===== src/Kernel/Read.antt =====
-- `call_func_return_results` of module/cmd_handler.c: a system register is read on the processors asked
-- for.
pub mod Answers
pub mod Outside
use maplesyrup.Base.{ℕ, Option, none, some, List}
use maplesyrup.Structs.{Status, success, failure, MsDataCpu}
use maplesyrup.Usermode.{FuncTableEntry}
use maplesyrup.Kernel.{
  Machine, Wrapper, zero_wrapper, ◌>>=◌, unpack_result_wrapper, repack_result_wrapper,
  find_function_index, call_func_ptr,
}
use maplesyrup.Kernel.Cpus.{on_each_cpu_kick, Thread}

abbrev pub with_index : ℕ → Wrapper → Wrapper
with_index index w = record w { found_index = index }

abbrev pub map_wrapper : (Wrapper → Wrapper) → Option Wrapper → Option Wrapper
map_wrapper f none = none
map_wrapper f (some w) = some (f w)

-- Copies the wrapper back when the call on the processors was made.
unfoldable pub repacked :
    Option MsDataCpu → Status × ℕ × Option Wrapper → Status × ℕ × Option MsDataCpu
unfolding repack_result_wrapper
repacked result_out (failure, undef_flag, w) = (failure, undef_flag, result_out)
repacked result_out (success, undef_flag, w) =
    let (status, out) = repack_result_wrapper w result_out in (status, undef_flag, out)

-- The call on the processors asked for, of the wrapper that the request was copied to.
unfoldable pub kicked :
    Machine
    → Thread
    → (undef_flag : ℕ) → Option Wrapper
    → Option MsDataCpu
    → Option (Status × ℕ × Option MsDataCpu)
unfolding on_each_cpu_kick repacked ◌>>=◌
kicked k funcptr undef_flag w result_out = do
  r ← on_each_cpu_kick k undef_flag (some funcptr) w
  some (repacked result_out r)

unfoldable pub call_func_return_results :
    Machine
    → List FuncTableEntry
    → (undef_flag : ℕ) → Option MsDataCpu
    → Option (Status × ℕ × Option MsDataCpu)
unfolding find_function_index unpack_result_wrapper call_func_ptr kicked
call_func_return_results k func_table undef_flag none = some (failure, undef_flag, none)
call_func_return_results k func_table undef_flag (some result_out) =
    elim (find_function_index func_table result_out.code) [
      | none ↦ some (failure, undef_flag, some result_out)
      | some index ↦
          let (unpacked, w) = unpack_result_wrapper (some result_out) (some zero_wrapper) in
          elim unpacked [
            | failure ↦ some (failure, undef_flag, some result_out)
            | success ↦
                kicked k (call_func_ptr k func_table) undef_flag (map_wrapper (with_index index) w)
                  (some result_out)
          ]
    ]
