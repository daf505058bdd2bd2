-- ===== src/Breakout/Ioctls.antt =====
-- `breakout_call_driver`, `breakout_call_usermode` and `breakout_sort_ioctls` of
-- lib/src/parse_breakout.c: each register asked for is read once, in the kernel or in user mode.
pub mod Sort
pub mod Once
pub mod Driver
pub mod Served
pub mod User
use maplesyrup.Base.{
  ℕ, ◌+◌, ◌*◌, ◌^◌, Bool, true, false, ◌&&◌, ◌||◌, not, Option, none, some, List, [], ◌∷◌,
  replicate, get_elem?, ◌==◌, if◌then◌else◌, some_of, bit_and,
}
use maplesyrup.Structs.{
  Status, success, failure, MsData, MsDataCpu, ResultsInfo, UsedIoctl, IoctlResult, ms_max_cpus,
  ns_privilege_level_0, ns_privilege_level_1, preferred_pl, gicc_v2, gicd_v2, gich_v2, gicv_v2,
}
use maplesyrup.Env.{M, pure, crash, ◌>>=◌, deref}
use maplesyrup.Env.Loop.{Flow, next, leave, for_loop, walk}
use maplesyrup.Driver.{driver_results}
use maplesyrup.Usermode.{FuncTableEntry, usermode_results}
use maplesyrup.Breakout.Lookup.{ended}
use maplesyrup.Breakout.Add.{breakout_add_ioctl, breakout_add_ioctl_result}

-- _IO (MS_MAGIC, number)
abbrev pub ms_ioctl : ℕ → ℕ
ms_ioctl number = 176 * 2 ^ 8 + number

abbrev pub ms_ioctl_co : ℕ
ms_ioctl_co = ms_ioctl 0

abbrev pub ms_ioctl_gic : ℕ
ms_ioctl_gic = ms_ioctl 2

unfoldable pub command_for : (partnumber : ℕ) → ℕ
command_for partnumber =
    if partnumber == gicc_v2
      || partnumber == gicd_v2
      || partnumber == gich_v2
      || partnumber == gicv_v2
    then ms_ioctl_gic
    else ms_ioctl_co

abbrev pub zero_data : MsData
zero_data = record {
  cpu = 0;
  midr = 0;
  in1 = 0;
  in2 = 0;
  out64 = 0;
  out1 = 0;
  out2 = 0;
  status = 0;
}

abbrev pub zero_data_cpu : MsDataCpu
zero_data_cpu = record {
  code = 0;
  pcpu = 0;
  part_number = 0;
  cpu = replicate ms_max_cpus zero_data;
}

-- The results of one processor; a failed `breakout_add_ioctl_result` is only traced.
unfoldable pub save_cpu :
    (register_uid : ℕ)
    → MsDataCpu
    → ℕ
    → Option (List IoctlResult)
    → M (Flow (Option (List IoctlResult)))
save_cpu register_uid local_result i list_out = do
  d ← deref (get_elem? local_result.cpu i)
  r ←
      breakout_add_ioctl_result list_out register_uid d.out64 d.out1 d.out2 d.cpu d.midr d.status
        ns_privilege_level_1
  pure (next (r.1))

-- `local_result` is left by the calls before, and the list.
unfoldable pub driver_body :
    UsedIoctl
    → MsDataCpu × Option (List IoctlResult)
    → M (Flow (MsDataCpu × Option (List IoctlResult)))
unfolding save_cpu command_for
driver_body u (local_result, list_out) =
    let asked = record local_result {
      code = u.register_uid;
      pcpu = u.cpu;
      part_number = u.partnumber;
    } in
    (do
      r ← driver_results (command_for u.partnumber) (some asked)
      answer ← deref (r.1)
      elim (r.0) [
        | failure ↦ pure (next (answer, list_out))
        | success ↦ (do
          f ← for_loop (save_cpu u.register_uid answer) ms_max_cpus 0 list_out
          elim f [ next l ↦ pure (next (answer, l)) | leave l ↦ pure (next (answer, l)) ])
      ])

unfoldable pub breakout_call_driver :
    Option (List UsedIoctl) → Option (List IoctlResult) → M (Status × Option (List IoctlResult))
unfolding driver_body
breakout_call_driver none list_out = pure (failure, list_out)
breakout_call_driver (some list_in) none = pure (failure, none)
breakout_call_driver (some list_in) (some list) = do
  r ← walk driver_body list_in (zero_data_cpu, some list)
  elim r [ next s ↦ pure (success, s.1) | leave s ↦ pure (success, s.1) ]

-- `g_illsig` and `local_result` are left by the calls before, and the list.
unfoldable pub usermode_body :
    (aarch64 : Bool)
    → List FuncTableEntry
    → UsedIoctl
    → ℕ × MsData × Option (List IoctlResult)
    → M (Flow (ℕ × MsData × Option (List IoctlResult)))
usermode_body aarch64 func_table u (illsig, local_result, list_out) = do
  r ← usermode_results aarch64 func_table illsig u.register_uid (some local_result)
  answer ← deref (r.2)
  elim (r.0) [
    | failure ↦ pure (next (r.1, answer, list_out))
    | success ↦ (do
      a ←
          breakout_add_ioctl_result list_out u.register_uid answer.out64 answer.out1 answer.out2 0 0
            answer.status ns_privilege_level_0
      pure (next (r.1, answer, a.1)))
  ]

-- `g_illsig` is returned besides.
unfoldable pub breakout_call_usermode :
    (aarch64 : Bool)
    → List FuncTableEntry
    → (illsig : ℕ) → Option (List UsedIoctl)
    → Option (List IoctlResult)
    → M (Status × ℕ × Option (List IoctlResult))
unfolding usermode_body
breakout_call_usermode aarch64 func_table illsig none list_out = pure (failure, illsig, list_out)
breakout_call_usermode aarch64 func_table illsig (some list_in) none = pure (failure, illsig, none)
breakout_call_usermode aarch64 func_table illsig (some list_in) (some list) = do
  r ← walk (usermode_body aarch64 func_table) list_in (illsig, zero_data, some list)
  elim r [ next s ↦ pure (success, s.0, s.2) | leave s ↦ pure (success, s.0, s.2) ]

-- The lists `to_driver` and `to_usermode`.
pub record Todo : Type 0 where
  pub to_driver : List UsedIoctl
  pub to_usermode : List UsedIoctl

abbrev pub has_register : ℕ → List UsedIoctl → Bool
has_register uid list = some_of (λ u. u.register_uid == uid) list

abbrev pub is_set : ℕ → ℕ → Bool
is_set pl bit = not (bit_and pl bit == 0)

-- The levels to read at: the register's own where the preferred one is asked for, or those asked for.
abbrev pub levels : ResultsInfo → ℕ
levels r = if is_set r.pl preferred_pl then r.ppl else r.pl

-- A list after `breakout_add_ioctl`, under a test; a failure is not looked at.
unfoldable pub add_if : Bool → ResultsInfo → List UsedIoctl → M (List UsedIoctl)
add_if test r list =
    if test
    then (do a ← breakout_add_ioctl (some list) r.register_uid r.cpu r.part_number; deref (a.1))
    else pure list

unfoldable pub sort_body : ResultsInfo → Todo → M (Flow Todo)
unfolding add_if
sort_body r todo =
    if has_register r.register_uid todo.to_driver || has_register r.register_uid todo.to_usermode
    then pure (next todo)
    else (do
      u ← add_if (is_set (levels r) ns_privilege_level_0) r todo.to_usermode
      d ← add_if (is_set (levels r) ns_privilege_level_1) r todo.to_driver
      pure (next (record { to_driver = d; to_usermode = u })))

-- `g_illsig` is returned besides. With a NULL list the lists that are freed at the end were not set up.
unfoldable pub breakout_sort_ioctls :
    (aarch64 : Bool)
    → List FuncTableEntry
    → (illsig : ℕ) → Option (List ResultsInfo)
    → Option (List IoctlResult)
    → M (Status × ℕ × Option (List IoctlResult))
unfolding sort_body breakout_call_driver breakout_call_usermode
breakout_sort_ioctls aarch64 func_table illsig none list_out = crash
breakout_sort_ioctls aarch64 func_table illsig (some list) none = crash
breakout_sort_ioctls aarch64 func_table illsig (some list) (some out) = do
  todo ← walk sort_body list (record { to_driver = []; to_usermode = [] })
  d ← breakout_call_driver (some ((ended todo).to_driver)) (some out)
  u ← breakout_call_usermode aarch64 func_table illsig (some ((ended todo).to_usermode)) (d.1)
  pure (success, u.1, u.2)
