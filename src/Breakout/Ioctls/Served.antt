-- ===== src/Breakout/Ioctls/Served.antt =====
-- `breakout_call_driver` of lib/src/parse_breakout.c with a driver that answers.
use maplesyrup.Base.{
  ℕ, ◌≡◌, refl, sym, ap, ◌∙◌, Option, some, List, [], ◌∷◌, ◌++◌, map, length, append_assoc,
  append-nil, true,
}
use mathlib.Core.Path.{subst}
use maplesyrup.Structs.{success, MsDataCpu, UsedIoctl, IoctlResult, ms_max_cpus}
use maplesyrup.Env.{Env, ret, ◌>>=◌, rest_of}
use maplesyrup.Env.Loop.{next, walk}
use maplesyrup.Env.Yields.{Plenty}
use maplesyrup.Breakout.Ioctls.{command_for, driver_body, breakout_call_driver, zero_data_cpu}
use maplesyrup.Breakout.Ioctls.Driver.{asked, cpu_result, driver_body-answered}

-- The driver's answers, one for each register in turn, each for all the processors. Each question holds
-- the data of the answer before.
abbrev pub Served :
    (ℕ → ℕ → MsDataCpu → Option MsDataCpu) → MsDataCpu → List UsedIoctl → List MsDataCpu → Type 0
Served ioctl before [] [] = Unit
Served ioctl before [] (a ∷ answers) = ⊥
Served ioctl before (u ∷ us) [] = ⊥
Served ioctl before (u ∷ us) (a ∷ answers) =
    (ioctl 0 (command_for u.partnumber) (asked u before) ≡ some a)
    × (length a.cpu ≡ ms_max_cpus)
    × Served (rest_of ioctl) a us answers

-- A result for each register and processor.
abbrev pub served_results : List UsedIoctl → List MsDataCpu → List IoctlResult
served_results (u ∷ us) (a ∷ answers) = map (cpu_result u) a.cpu ++ served_results us answers
served_results us answers = []

-- Where a walk ends that adds results and reads no register itself.
abbrev Ends : List UsedIoctl → MsDataCpu → List IoctlResult → List IoctlResult → Env → Type 0
Ends us before list final e =
    (last : MsDataCpu) × (e' : Env) × (walk driver_body us (before, some list) e
      ≡ ret (next (last, some final)) e')
    × Plenty e'
    × (e'.execute ≡ e.execute)

walk-Served :
    (us : List UsedIoctl) (answers : List MsDataCpu) (before : MsDataCpu) (list : List IoctlResult)
    (e : Env)
    → Plenty e
    → e.device_open ≡ true
    → Served e.ioctl before us answers
    → Ends us before list (list ++ served_results us answers) e
unfolding walk ◌>>=◌
walk-Served [] [] before list e plenty is_open served =
    (before, e, rw (append-nil list), plenty, refl)
walk-Served [] (a ∷ answers) before list e plenty is_open served = absurd served
walk-Served (u ∷ us) [] before list e plenty is_open served = absurd served
walk-Served (u ∷ us) (a ∷ answers) before list e plenty is_open (answered, eight, served) =
    let new = map (cpu_result u) a.cpu in
    let (e1, runs1, plenty1, (ioctl1, execute1, open1)) =
      driver_body-answered u before a list e plenty is_open answered eight in
    let (last, e2, runs2, plenty2, execute2) =
      walk-Served us answers a (list ++ new) e1 plenty1 (open1 ∙ is_open)
        (subst (λ i. Served i a us answers) (sym ioctl1) served) in
    let runs : walk driver_body (u ∷ us) (before, some list) e
        ≡ ret (next (last, some ((list ++ new) ++ served_results us answers))) e2 =
      rw (runs1, ◌>>=◌) runs2 in
    (
      last,
      e2,
      runs
          ∙ ap (λ l. ret (next (last, some l)) e2)
              (append_assoc list new (served_results us answers)),
      plenty2,
      execute2 ∙ execute1,
    )

-- With the device open, memory at hand and a driver that answers each of the registers for all its
-- processors, the call of the driver succeeds, and adds one result for each register and processor, in
-- order, with the values, the status and the MIDR that the driver gave. It reads no register in user mode.
pub breakout_call_driver-Served :
    (us : List UsedIoctl) (answers : List MsDataCpu) (list : List IoctlResult) (e : Env)
    → Plenty e
    → e.device_open ≡ true
    → Served e.ioctl zero_data_cpu us answers
    → (e' : Env) × (breakout_call_driver (some us) (some list) e
        ≡ ret (success, some (list ++ served_results us answers)) e')
      × Plenty e'
      × (e'.execute ≡ e.execute)
unfolding breakout_call_driver ◌>>=◌
breakout_call_driver-Served us answers list e plenty is_open served =
    let (last, e', runs, plenty', execute) =
      walk-Served us answers zero_data_cpu list e plenty is_open served in
    (e', rw (breakout_call_driver, runs, ◌>>=◌), plenty', execute)
