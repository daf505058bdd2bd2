-- ===== src/Kernel/Ioctl/Device.antt =====
-- `breakout_call_driver` of lib/src/parse_breakout.c with the kernel module behind the device.
use mathlib.Core.Path.{subst}
use maplesyrup.Base.{
  ℕ, suc, ◌<◌, ◌≡◌, refl, sym, ap, ◌∙◌, ◌⊎◌, inl, inr, true, some, List, [], ◌∷◌, ◌++◌, length, All,
  length-map,
}
use maplesyrup.Structs.{success, MsDataCpu, UsedIoctl, IoctlResult, ms_max_cpus}
use maplesyrup.Env.{Env, ret, rest_of}
use maplesyrup.Env.Yields.{Plenty}
use maplesyrup.Usermode.{FuncTableEntry}
use maplesyrup.Breakout.Ioctls.{command_for, breakout_call_driver, zero_data_cpu}
use maplesyrup.Breakout.Ioctls.Driver.{asked}
use maplesyrup.Breakout.Ioctls.Served.{Served, served_results, breakout_call_driver-Served}
use maplesyrup.Kernel.{Machine}
use maplesyrup.Kernel.Cpus.{ms_cpu_all}
use maplesyrup.Kernel.Cpus.Each.{length-each, entry_after}
use maplesyrup.Kernel.Read.Answers.{IsCallable, read_entry}
use maplesyrup.Kernel.Gic.{MsGicMap}
use maplesyrup.Kernel.Gic.Bar.{gic_entry}
use maplesyrup.Kernel.Ioctl.Served.{device, DeviceAnswer, device-Answers}

-- A register that is asked for on one of the processors, or on all of them.
abbrev pub HasCpu : UsedIoctl → Type 0
HasCpu u = (u.cpu ≡ ms_cpu_all) ⊎ (u.cpu < ms_max_cpus)

-- Each answer is that of the device to what is asked, which holds the data of the answer before. The
-- machines are what the kernel and the hardware answer in each of the calls.
abbrev pub DeviceServes :
    List FuncTableEntry
    → MsGicMap
    → (ℕ → Machine)
    → MsDataCpu
    → List UsedIoctl
    → List MsDataCpu
    → Type 0
DeviceServes func_table gic_map ks before [] [] = Unit
DeviceServes func_table gic_map ks before [] (a ∷ answers) = ⊥
DeviceServes func_table gic_map ks before (u ∷ us) [] = ⊥
DeviceServes func_table gic_map ks before (u ∷ us) (a ∷ answers) =
    DeviceAnswer (ks 0) func_table gic_map (asked u before) a
    × DeviceServes func_table gic_map (rest_of ks) a us answers

length-DeviceAnswer :
    (k : Machine) (func_table : List FuncTableEntry) (gic_map : MsGicMap) (q a : MsDataCpu)
    → DeviceAnswer k func_table gic_map q a
    → length a.cpu ≡ length q.cpu
length-DeviceAnswer k func_table gic_map q a (inl (gic, (base, found, same))) =
    ap (λ (d : MsDataCpu). length d.cpu) same
    ∙ length-each (entry_after k q.pcpu (gic_entry k base q.code)) 0 q.cpu
length-DeviceAnswer k func_table gic_map q a (inr (co, inl (f, code, same))) =
    ap (λ (d : MsDataCpu). length d.cpu) same
    ∙ length-each (entry_after k q.pcpu (read_entry k f)) 0 q.cpu
length-DeviceAnswer k func_table gic_map q a (inr (co, inr (same, absent))) =
    ap (λ (d : MsDataCpu). length d.cpu) same

length-asked : (u : UsedIoctl) (d : MsDataCpu) → length (asked u d).cpu ≡ length d.cpu
unfolding asked
length-asked u d = length-map _ d.cpu

module _ (func_table : List FuncTableEntry) (gic_map : MsGicMap) (undef_flag : ℕ)
    (callable : All IsCallable func_table) where
  asked-Answers :
      (k : Machine) (u : UsedIoctl) (before : MsDataCpu)
      → k.config_smp ≡ true
      → HasCpu u
      → length (asked u before).cpu ≡ ms_max_cpus
      → (a : MsDataCpu) × (device k func_table gic_map undef_flag
            (command_for u.partnumber)
            (asked u before)
          ≡ some a)
        × DeviceAnswer k func_table gic_map (asked u before) a
  unfolding asked
  asked-Answers k u before smp cpu long =
      device-Answers k func_table gic_map undef_flag (asked u before) smp callable long cpu

  pub device-Served :
      (us : List UsedIoctl) (before : MsDataCpu) (ks : ℕ → Machine)
      → ((n : ℕ) → (ks n).config_smp ≡ true)
      → All HasCpu us
      → length before.cpu ≡ ms_max_cpus
      → (answers : List MsDataCpu) × Served
          (λ n. device (ks n) func_table gic_map undef_flag)
          before
          us
          answers
        × DeviceServes func_table gic_map ks before us answers
  device-Served [] before ks smp cpus eight = ([], tt, tt)
  device-Served (u ∷ us) before ks smp (cpu, cpus) eight =
      let q = asked u before in
      let long : length q.cpu ≡ ms_max_cpus = length-asked u before ∙ eight in
      let (a, runs, answer) = asked-Answers (ks 0) u before (smp 0) cpu long in
      let longer : length a.cpu ≡ ms_max_cpus =
        length-DeviceAnswer (ks 0) func_table gic_map q a answer ∙ long in
      let (answers, served, serves) =
        device-Served us a (rest_of ks) (λ n. smp (suc n)) cpus longer in
      (a ∷ answers, (runs, longer, served), (answer, serves))

-- With the kernel module behind the device, which is open, copies from and to user space that succeed, the
-- pointers of the module's table not NULL, several processors configured, and memory at hand, registers that are
-- asked for on one of the processors or on all: the call of the driver succeeds and adds a result for each register
-- and processor, of what the device answers to each question. That is the answer of the processors asked
-- for, with what the function of the first row for the register gave there, or the interface of the interrupt
-- controller; or the question unchanged, where no row of the table of the module is for the register.
pub breakout_call_driver-device :
    (func_table : List FuncTableEntry) (gic_map : MsGicMap) (undef_flag : ℕ) (ks : ℕ → Machine)
    (us : List UsedIoctl) (list : List IoctlResult) (e : Env)
    → All IsCallable func_table
    → ((n : ℕ) → (ks n).config_smp ≡ true)
    → Plenty e
    → e.device_open ≡ true
    → (e.ioctl ≡ λ n. device (ks n) func_table gic_map undef_flag)
    → All HasCpu us
    → (answers : List MsDataCpu) × (e' : Env) × (breakout_call_driver (some us) (some list) e
        ≡ ret (success, some (list ++ served_results us answers)) e')
      × DeviceServes func_table gic_map ks zero_data_cpu us answers
breakout_call_driver-device func_table gic_map undef_flag ks us list e callable smp plenty is_open
      behind cpus =
    let (answers, served, serves) =
      device-Served func_table gic_map undef_flag callable us zero_data_cpu ks smp cpus refl in
    let (e', runs, plenty', reads) =
      breakout_call_driver-Served us answers list e plenty is_open
        (subst (λ i. Served i zero_data_cpu us answers) (sym behind) served) in
    (answers, e', runs, serves)
