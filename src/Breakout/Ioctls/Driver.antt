-- ===== src/Breakout/Ioctls/Driver.antt =====
-- What a register that is read through the driver adds to the results.
use maplesyrup.Base.{
  ℕ, ◌≡◌, refl, sym, ap, ◌∙◌, Bool, true, Option, some, List, [], ◌∷◌, ◌++◌, map, length, get_elem?,
  keep, if◌then◌else◌,
}
use mathlib.Core.Path.{subst}
use maplesyrup.Structs.{
  success, MsData, MsDataCpu, UsedIoctl, IoctlResult, ms_max_cpus, ns_privilege_level_1,
}
use maplesyrup.Env.{Env, ret, pure, ◌>>=◌, deref, rest_of}
use maplesyrup.Env.Loop.{next, for_loop}
use maplesyrup.Env.Yields.{Plenty, Untouched, Yields, bind-Yields, pure-Yields, for_loop-Yields}
use maplesyrup.Env.Gather.{gather-keep, grown, fold_from-gather, add_element-grown}
use maplesyrup.Driver.{no_result, ioctl_ended, send_ioctl, ask_driver, driver_results}
use maplesyrup.Breakout.Add.{breakout_add_ioctl_result}
use maplesyrup.Breakout.Ioctls.{command_for, save_cpu, driver_body}

-- What the driver is asked: the register, the processor and the component, with no result yet.
unfoldable pub asked : UsedIoctl → MsDataCpu → MsDataCpu
unfolding no_result
asked u local_result =
    no_result
      (record local_result { code = u.register_uid; pcpu = u.cpu; part_number = u.partnumber })

-- The result for a processor.
abbrev pub cpu_result : UsedIoctl → MsData → IoctlResult
cpu_result u d = record {
  register_uid = u.register_uid;
  val64 = d.out64;
  low = d.out1;
  high = d.out2;
  cpu = d.cpu;
  midr = d.midr;
  epl = ns_privilege_level_1;
  status = d.status;
}

save_cpu-Yields :
    (u : UsedIoctl) (answer : MsDataCpu) (i : ℕ) (d : MsData) (s : Option (List IoctlResult))
    → get_elem? answer.cpu i ≡ some d
    → Yields
        (save_cpu u.register_uid answer i s)
        (next (if true then grown s (cpu_result u d) else s))
unfolding save_cpu breakout_add_ioctl_result
save_cpu-Yields u answer i d s at =
    let (status, added) = add_element-grown s (pure (cpu_result u d)) (pure-Yields _) in
    rw at (bind-Yields (deref (some d)) _ (pure-Yields _) (bind-Yields _ _ added (pure-Yields _)))

keep-true : {A : Type 0} (xs : List A) → keep (λ x. true) xs ≡ xs
keep-true [] = refl
keep-true (x ∷ xs) = ap (◌∷◌ x) (keep-true xs)

save_all-Yields :
    (u : UsedIoctl) (answer : MsDataCpu) (list : List IoctlResult)
    → length answer.cpu ≡ ms_max_cpus
    → Yields
        (for_loop (save_cpu u.register_uid answer) ms_max_cpus 0 (some list))
        (next (some (list ++ map (cpu_result u) answer.cpu)))
save_all-Yields u answer list eight =
    let cpus = answer.cpu in
    let every : MsData → Bool = λ d. true in
    subst
      (λ (n : ℕ).
        Yields (for_loop (save_cpu u.register_uid answer) n 0 (some list))
          (next (some (list ++ map (cpu_result u) cpus))))
      eight
      (subst
        (λ (r : Option (List IoctlResult)).
          Yields (for_loop (save_cpu u.register_uid answer) (length cpus) 0 (some list)) (next r))
        (fold_from-gather every (λ i d. cpu_result u d) 0 cpus list
          ∙ ap (λ (new : List IoctlResult). some (list ++ new))
              (gather-keep every (cpu_result u) 0 cpus ∙ ap (map (cpu_result u)) (keep-true cpus)))
        (for_loop-Yields cpus (save_cpu u.register_uid answer)
          (λ i d s. if true then grown s (cpu_result u d) else s) (save_cpu-Yields u answer)
          (some list)))

driver_results-answered :
    (cmd : ℕ) (results answer : MsDataCpu) (e : Env)
    → e.device_open ≡ true
    → e.ioctl 0 cmd (no_result results) ≡ some answer
    → driver_results cmd (some results) e
      ≡ ret (success, some answer) (record e { ioctl = rest_of e.ioctl })
unfolding driver_results ask_driver send_ioctl ioctl_ended
driver_results-answered cmd results answer e is_open answered =
    let later : Env = record e { ioctl = rest_of e.ioctl } in
    let end = ret (success, some answer) later in
    subst (λ (b : Bool). ask_driver b cmd results e ≡ end) (sym is_open)
      (subst (λ (o : Option MsDataCpu). ioctl_ended (no_result results) o later ≡ end)
        (sym answered) refl)

-- A register that the driver answers for all its processors adds one result for each processor, in order,
-- with the values, the status and the MIDR from the driver, after one ioctl of the kind of its component.
-- The device is open and memory at hand.
pub driver_body-answered :
    (u : UsedIoctl) (local_result answer : MsDataCpu) (list : List IoctlResult) (e : Env)
    → Plenty e
    → e.device_open ≡ true
    → e.ioctl 0 (command_for u.partnumber) (asked u local_result) ≡ some answer
    → length answer.cpu ≡ ms_max_cpus
    → (e' : Env) × (driver_body u (local_result, some list) e
        ≡ ret (next (answer, some (list ++ map (cpu_result u) answer.cpu))) e')
      × Plenty e'
      × Untouched (record e { ioctl = rest_of e.ioctl }) e'
unfolding driver_body asked ◌>>=◌
driver_body-answered u local_result answer list e plenty is_open answered eight =
    let later : Env = record e { ioctl = rest_of e.ioctl } in
    let (e', runs, plenty', untouched) = save_all-Yields u answer list eight later plenty in
    let asked_first : MsDataCpu = record local_result {
      code = u.register_uid;
      pcpu = u.cpu;
      part_number = u.partnumber;
    } in
    let first =
      driver_results-answered (command_for u.partnumber) asked_first answer e is_open answered in
    (e', rw (driver_body, first, ◌>>=◌, runs), plenty', untouched)
