-- ===== src/Kernel/Ioctl/Served.antt =====
-- A request through the device: `ms_ioctl`, and `driver_results` of lib/src/raw_results.c that asks it.
use maplesyrup.Base.{
  ℕ, ◌≡◌, refl, ap, sym, ◌||◌, ◌⊎◌, inl, inr, Bool, true, false, Option, none, some, List, length,
  ◌==◌, if◌then◌else◌, Bool-cases, All, arith,
}
use mathlib.Core.Path.{subst}
use maplesyrup.Structs.{
  Status, success, failure, MsDataCpu, ms_max_cpus, gicc_v2, gicd_v2, gich_v2, gicv_v2,
}
use maplesyrup.Usermode.{FuncTableEntry}
use maplesyrup.Breakout.Ioctls.{ms_ioctl_co, ms_ioctl_gic, command_for}
use maplesyrup.Kernel.{Machine, ◌>>=◌}
use maplesyrup.Kernel.Read.{call_func_return_results}
use maplesyrup.Kernel.Read.Answers.{
  IsCallable, IsRequest, Answered, call_func_return_results-Answered,
}
use maplesyrup.Kernel.Gic.{MsGicMap, gic_return_results}
use maplesyrup.Kernel.Gic.Bar.{IsNoInterface, GicAnswered, gic_return_results-Answered}
use maplesyrup.Kernel.Ioctl.{whole, Copies, Handler, copied_back, call_cmd, ms_ioctl}

abbrev pub all_copied : Copies
all_copied = record { copy_from_user = true; copy_to_user = whole }

-- The buffer of a request after a handler: its answer, or as it was.
abbrev pub buffer_after : MsDataCpu → Status → MsDataCpu → MsDataCpu
buffer_after d failure d' = d
buffer_after d success d' = d'

call_cmd-handled :
    (pcall : Handler) (undef_flag : ℕ) (d d' : MsDataCpu) (s : Status)
    → pcall 0 (some d) ≡ some (s, 0, some d')
    → call_cmd all_copied undef_flag (some d) (some pcall) ≡ some (s, 0, some (buffer_after d s d'))
unfolding call_cmd copied_back ◌>>=◌
call_cmd-handled pcall undef_flag d d' success runs = rw runs refl
call_cmd-handled pcall undef_flag d d' failure runs = rw runs refl

ms_ioctl-co :
    (k : Machine) (func_table : List FuncTableEntry) (gic_map : MsGicMap) (undef_flag : ℕ)
    (d d' : MsDataCpu) (s : Status)
    → call_func_return_results k func_table 0 (some d) ≡ some (s, 0, some d')
    → ms_ioctl k func_table gic_map all_copied ms_ioctl_co undef_flag (some d)
      ≡ some (0, 0, some (buffer_after d s d'))
unfolding ms_ioctl ◌>>=◌
ms_ioctl-co k func_table gic_map undef_flag d d' s runs =
    rw (ms_ioctl, call_cmd-handled (call_func_return_results k func_table) undef_flag d d' s runs)
      refl

ms_ioctl-gic :
    (k : Machine) (func_table : List FuncTableEntry) (gic_map : MsGicMap) (undef_flag : ℕ)
    (d d' : MsDataCpu) (s : Status)
    → gic_return_results k gic_map 0 (some d) ≡ some (s, 0, some d')
    → ms_ioctl k func_table gic_map all_copied ms_ioctl_gic undef_flag (some d)
      ≡ some (0, 0, some (buffer_after d s d'))
unfolding ms_ioctl ◌>>=◌
ms_ioctl-gic k func_table gic_map undef_flag d d' s runs =
    rw (ms_ioctl, call_cmd-handled (gic_return_results k gic_map) undef_flag d d' s runs) refl

-- The result of an ioctl that the library sees: the buffer, as the number returned is 0.
abbrev pub buffer_of : Option (ℕ × ℕ × Option MsDataCpu) → Option MsDataCpu
buffer_of none = none
buffer_of (some r) = r.2

-- The device as the library sees it, where the copies from and to user space succeed.
abbrev pub device :
    Machine → List FuncTableEntry → MsGicMap → (undef_flag : ℕ) → ℕ → MsDataCpu → Option MsDataCpu
device k func_table gic_map undef_flag cmd d =
    buffer_of (ms_ioctl k func_table gic_map all_copied cmd undef_flag (some d))

abbrev pub is_gic : ℕ → Bool
is_gic part_number =
    part_number == gicc_v2
    || part_number == gicd_v2
    || part_number == gich_v2
    || part_number == gicv_v2

-- What the device makes of a request: the answer of the processors that are asked, or the request as it
-- was, where no row of the table is for the register.
abbrev pub DeviceAnswer : Machine → List FuncTableEntry → MsGicMap → MsDataCpu → MsDataCpu → Type 0
DeviceAnswer k func_table gic_map q a =
    ((is_gic q.part_number ≡ true) × GicAnswered k gic_map q success a)
    ⊎ ((is_gic q.part_number ≡ false)
        × (Answered k func_table q success a ⊎ Answered k func_table q failure a))

is_gic-IsNoInterface : (part_number : ℕ) → is_gic part_number ≡ true → IsNoInterface part_number → ⊥
is_gic-IsNoInterface part_number gic missing = ground arith

module _ (k : Machine) (func_table : List FuncTableEntry) (gic_map : MsGicMap)
    (undef_flag : ℕ) where
  abbrev Answers : ℕ → MsDataCpu → Type 0
  Answers cmd q =
      (a : MsDataCpu) × (device k func_table gic_map undef_flag cmd q ≡ some a)
      × DeviceAnswer k func_table gic_map q a

  gic-Answers :
      (q a : MsDataCpu) (s : Status)
      → is_gic q.part_number ≡ true
      → gic_return_results k gic_map 0 (some q) ≡ some (s, 0, some a)
      → GicAnswered k gic_map q s a
      → Answers ms_ioctl_gic q
  gic-Answers q a success gic runs answer = (
    a,
    ap buffer_of (ms_ioctl-gic k func_table gic_map undef_flag q a success runs),
    inl (gic, answer),
  )
  gic-Answers q a failure gic runs (same, missing) =
      absurd (is_gic-IsNoInterface q.part_number gic missing)

  co-Answers :
      (q a : MsDataCpu) (s : Status)
      → is_gic q.part_number ≡ false
      → call_func_return_results k func_table 0 (some q) ≡ some (s, 0, some a)
      → Answered k func_table q s a
      → Answers ms_ioctl_co q
  co-Answers q a success gic runs answer = (
    a,
    ap buffer_of (ms_ioctl-co k func_table gic_map undef_flag q a success runs),
    inr (gic, inl answer),
  )
  co-Answers q a failure gic runs (same, absent) = (
    q,
    ap buffer_of (ms_ioctl-co k func_table gic_map undef_flag q a failure runs),
    inr (gic, inr (refl, absent)),
  )

  pub device-Answers :
      (q : MsDataCpu)
      → k.config_smp ≡ true
      → All IsCallable func_table
      → length q.cpu ≡ ms_max_cpus
      → IsRequest q
      → Answers (command_for q.part_number) q
  unfolding command_for
  device-Answers q smp callable eight request = elim (Bool-cases (is_gic q.part_number)) [
    | inl gic ↦
        let (s, a, runs, answer) = gic_return_results-Answered k gic_map q smp eight request in
        subst (λ b. Answers (if b then ms_ioctl_gic else ms_ioctl_co) q) (sym gic)
          (gic-Answers q a s gic runs answer)
    | inr co ↦
        let (s, a, runs, answer) =
          call_func_return_results-Answered k func_table q smp callable eight request in
        subst (λ b. Answers (if b then ms_ioctl_gic else ms_ioctl_co) q) (sym co)
          (co-Answers q a s co runs answer)
  ]
