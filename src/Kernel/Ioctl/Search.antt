-- ===== src/Kernel/Ioctl/Search.antt =====
-- `find_bitfields` of lib/src/parse_breakout.c with the kernel module behind the device: a search from the
-- request to what the processors answer.
use mathlib.Core.Path.{subst}
use maplesyrup.Base.{
  ℕ, ◌<◌, ◌≡◌, refl, sym, ◌⊎◌, ◌≢◌, Bool, true, false, Option, some, List, [], ◌∷◌, ◌++◌, map, keep,
  length, All, All-append, Bool-cases, inl, inr, arith,
}
use maplesyrup.Structs.{
  MatchInfo, BitfieldInfoHeap, BitfieldInfoPopulated, MsData, MsDataCpu, UsedIoctl, IoctlResult,
  ms_max_cpus,
}
use maplesyrup.Env.{Env}
use maplesyrup.Env.Yields.{Plenty, fold}
use maplesyrup.Usermode.{FuncTableEntry}
use maplesyrup.Breakout.Tables.{Globals}
use maplesyrup.Breakout.Lookup.First.{IsLoaded}
use maplesyrup.Breakout.Search.Keep.{wanted, match_of}
use maplesyrup.Breakout.Ioctls.{Todo, zero_data_cpu}
use maplesyrup.Breakout.Ioctls.Sort.{used_of, added_if, is_listed, sort_step}
use maplesyrup.Breakout.Ioctls.Driver.{cpu_result}
use maplesyrup.Breakout.Ioctls.Served.{Served, served_results}
use maplesyrup.Breakout.Results.Indices.{Unique}
use maplesyrup.Breakout.Results.Rounds.{ioctl_round}
use maplesyrup.Breakout.Find.{find_bitfields}
use maplesyrup.Breakout.Find.Driver.{todo_of, requests, Succeeds, find_bitfields-driver}
use maplesyrup.Kernel.{Machine}
use maplesyrup.Kernel.Cpus.{ms_cpu_all}
use maplesyrup.Kernel.Read.Answers.{IsCallable}
use maplesyrup.Kernel.Gic.{MsGicMap}
use maplesyrup.Kernel.Ioctl.Served.{device}
use maplesyrup.Kernel.Ioctl.Device.{HasCpu, DeviceServes, device-Served}

-- A search that is for one of the processors, or for all of them.
abbrev pub ForCpu : MatchInfo → Type 0
ForCpu info = (info.cpu ≡ ms_cpu_all) ⊎ (info.cpu < ms_max_cpus)

module _ (info : MatchInfo) (cpu : ForCpu info) where
  added-HasCpu :
      (test : Bool) (x : BitfieldInfoHeap) (us : List UsedIoctl)
      → All HasCpu us
      → All HasCpu (added_if test (match_of info x) us)
  added-HasCpu true x us all = All-append HasCpu us (used_of (match_of info x) ∷ []) all (cpu, tt)
  added-HasCpu false x us all = all

  step-HasCpu :
      (x : BitfieldInfoHeap) (todo : Todo)
      → All HasCpu todo.to_driver
      → All HasCpu (sort_step (match_of info x) todo).to_driver
  unfolding sort_step
  step-HasCpu x todo all = elim (Bool-cases (is_listed (match_of info x) todo)) [
    | inl there ↦ rw there all
    | inr absent ↦ rw absent (added-HasCpu _ x todo.to_driver all)
  ]

  sorted-HasCpu :
      (xs : List BitfieldInfoHeap) (todo : Todo)
      → All HasCpu todo.to_driver
      → All HasCpu (fold sort_step (map (match_of info) xs) todo).to_driver
  sorted-HasCpu [] todo all = all
  sorted-HasCpu (x ∷ xs) todo all =
      sorted-HasCpu xs (sort_step (match_of info x) todo) (step-HasCpu x todo all)

  todo-HasCpu :
      (table : List BitfieldInfoHeap) → All HasCpu (todo_of (requests table info)).to_driver
  unfolding todo_of
  todo-HasCpu table =
      sorted-HasCpu (keep (wanted info) table) (record { to_driver = []; to_usermode = [] }) tt

abbrev Nonempty : List IoctlResult → Type 0
Nonempty l = (i : IoctlResult) × (ioctls : List IoctlResult) × (l ≡ i ∷ ioctls)

cpus-Nonempty :
    (u : UsedIoctl) (cpus : List MsData) (rest : List IoctlResult)
    → length cpus ≡ ms_max_cpus
    → Nonempty (map (cpu_result u) cpus ++ rest)
cpus-Nonempty u [] rest eight = absurd (omega arith)
cpus-Nonempty u (d ∷ cpus) rest eight = (cpu_result u d, map (cpu_result u) cpus ++ rest, refl)

served_results-Nonempty :
    (ioctl : ℕ → ℕ → MsDataCpu → Option MsDataCpu) (us : List UsedIoctl) (answers : List MsDataCpu)
    (before : MsDataCpu)
    → us ≢ []
    → Served ioctl before us answers
    → Nonempty (served_results us answers)
served_results-Nonempty ioctl [] answers before some_us served = absurd (some_us refl)
served_results-Nonempty ioctl (u ∷ us) [] before some_us served = absurd served
served_results-Nonempty ioctl (u ∷ us) (a ∷ answers) before some_us (runs, eight, rest) =
    cpus-Nonempty u a.cpu (served_results us answers) eight

-- With the kernel module behind the device, which is open, copies from and to user space that succeed, the
-- pointers of the module's table not NULL, several processors configured, memory at hand, and a loaded table whose
-- codes are distinct, a search for one processor or for all, without a value, succeeds when its registers, at
-- least one, are to be read in the kernel only. The results come from what the device answers to each
-- question: the answer of the processors asked for, with what the function of the first row for the register gave
-- there, or the interface of the interrupt controller; or the question unchanged, where no row of the table of
-- the module is for the register. The value of each register and processor, in order, is taken apart into
-- the bitfields of the register, and those that were requested are added; for a search not to parse, the whole
-- value is added instead, once for each register, processor and status.
pub find_bitfields-device :
    (func_table : List FuncTableEntry) (gic_map : MsGicMap) (undef_flag : ℕ) (ks : ℕ → Machine)
    (g : Globals) (table : List BitfieldInfoHeap) (info : MatchInfo) (aarch64 : Bool)
    (user_table : List FuncTableEntry) (illsig : ℕ) (list : List BitfieldInfoPopulated) (e : Env)
    → All IsCallable func_table
    → ((n : ℕ) → (ks n).config_smp ≡ true)
    → (e.ioctl ≡ λ n. device (ks n) func_table gic_map undef_flag)
    → Plenty e
    → e.device_open ≡ true
    → IsLoaded g table
    → Unique table
    → info.calc ≡ 0
    → ForCpu info
    → (todo_of (requests table info)).to_usermode ≡ []
    → (todo_of (requests table info)).to_driver ≢ []
    → (answers : List MsDataCpu) × DeviceServes func_table gic_map ks zero_data_cpu
        (todo_of (requests table info)).to_driver
        answers
      × Succeeds
          (find_bitfields aarch64 user_table g illsig (some info) (some list))
          illsig
          (some (
            fold
              (ioctl_round table (requests table info))
              (served_results (todo_of (requests table info)).to_driver answers)
              list))
          e
find_bitfields-device func_table gic_map undef_flag ks g table info aarch64 user_table illsig list e
      callable smp behind plenty is_open loaded unique no_value cpu kernel_only some_register =
    let us = (todo_of (requests table info)).to_driver in
    let (answers, served, serves) =
      device-Served func_table gic_map undef_flag callable us zero_data_cpu ks smp
        (todo-HasCpu info cpu table) refl in
    let served_here : Served e.ioctl zero_data_cpu us answers =
      subst (λ s. Served s zero_data_cpu us answers) (sym behind) served in
    let (i, ioctls, results) =
      served_results-Nonempty e.ioctl us answers zero_data_cpu some_register served_here in
    (
      answers,
      serves,
      subst
          (λ l.
            Succeeds (find_bitfields aarch64 user_table g illsig (some info) (some list)) illsig
              (some (fold (ioctl_round table (requests table info)) l list)) e)
          (sym results)
          (find_bitfields-driver g table info aarch64 user_table illsig answers i ioctls list e
            loaded unique no_value plenty is_open kernel_only served_here results),
    )
