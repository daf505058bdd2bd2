-- ===== src/Kernel/Tests.antt =====
-- A board with four processors, of which the last cannot be brought up, and requests to it.
use maplesyrup.Base.{
  ℕ, ◌+◌, ◌≡◌, refl, inl, inr, true, false, Option, none, some, List, [], ◌∷◌, ◌++◌, replicate, leb,
  ◌==◌, ◌&&◌, if◌then◌else◌, get_elem?, arith,
}
use maplesyrup.Structs.{
  Status, success, failure, MatchInfo, MsDataCpu, UsedIoctl, ms_max_cpus, gicd_v2, impl_all,
}
use maplesyrup.Env.{Env, outputs, illegal, ret}
use maplesyrup.Usermode.Values.{has_row}
use maplesyrup.Usermode.{FuncTableEntry, functype_out_1, functype_bits_32}
use maplesyrup.Breakout.Ioctls.{breakout_call_driver, zero_data_cpu}
use maplesyrup.Breakout.Ioctls.Served.{served_results}
use maplesyrup.Mscode.{mscode_partnumber}
use maplesyrup.Env.Yields.{fold}
use maplesyrup.Breakout.Search.{matches, applies}
use maplesyrup.Breakout.Ioctls.Sort.{sort_step}
use maplesyrup.Breakout.Results.Rounds.{ioctl_round}
use maplesyrup.Breakout.Find.{find_bitfields}
use maplesyrup.Breakout.Find.Driver.{todo_of, requests, Succeeds}
use maplesyrup.Breakout.Sample.{
  sample, sample_globals, sample-IsLoaded, sample-Unique, request as midr_request,
}
use maplesyrup.Kernel.Ioctl.Search.{find_bitfields-device}
use maplesyrup.Kernel.{Machine, zero_entry}
use maplesyrup.Kernel.Cpus.{ms_cpu_all}
use maplesyrup.Kernel.Read.{call_func_return_results}
use maplesyrup.Kernel.Read.Answers.{Answered, call_func_return_results-Answered}
use maplesyrup.Kernel.Read.Outside.{call_func_return_results-outside}
use maplesyrup.Kernel.Gic.{Interface, MsGicMap, gic_return_results}
use maplesyrup.Kernel.Gic.Bar.{GicAnswered, gic_return_results-Answered}
use maplesyrup.Kernel.Ioctl.Served.{device}
use maplesyrup.Kernel.Ioctl.Device.{DeviceServes, breakout_call_driver-device}
use maplesyrup.Kernel.Tree.{Board, ms_init_dt_data}
use maplesyrup.Kernel.Tree.Ledger.{Loaded, ms_init_dt_data-Loaded}
use maplesyrup.Kernel.Device.{Answers, broken, ms_open, maplesyrup_init}
use maplesyrup.Kernel.Device.Lifecycle.{System, boot, fresh, load, opened, Reach, here, further}
use maplesyrup.Kernel.Device.Lifecycle.Kept.{IsSound}
use maplesyrup.Kernel.Device.Lifecycle.Sound.{
  IsGone, reached-IsSound, reached-unload, open-twice-broken,
}

-- Processor 2 does not know the instruction, and processor 3 is off.
abbrev quad : Machine
quad = record {
  aarch64 = false;
  config_smp = true;
  cpu_online = λ cpu. leb cpu 2;
  cpu_up = λ cpu. false;
  smp_call_function_single = λ cpu. true;
  midr = λ cpu. 1092599923;
  execute = λ cpu code. if cpu == 2 then illegal else outputs 0 (code + cpu) 0;
  readl_relaxed = λ cpu address. address + cpu;
}

abbrev table : List FuncTableEntry
table =
    record {
      code = 7;
      func_ptr = true;
      function_prototype = functype_out_1;
      data_size = functype_bits_32;
    }
    ∷ record { code = 0; func_ptr = false; function_prototype = 0; data_size = 0 }
    ∷ []

abbrev request : ℕ → MsDataCpu
request pcpu = record {
  code = 7;
  pcpu = pcpu;
  part_number = gicd_v2;
  cpu = replicate ms_max_cpus zero_entry;
}

abbrev status_at : ℕ → Option (Status × ℕ × Option MsDataCpu) → Option ℕ
status_at i (some (s, flag, some d)) = elim (get_elem? d.cpu i) [
  | some x ↦ some x.status
  | none ↦ none
]
status_at i _ = none

first_reads :
    status_at 0 (call_func_return_results quad table 0 (some (request ms_cpu_all))) ≡ some 0
unfolding call_func_return_results
first_reads = refl

third_undefined :
    status_at 2 (call_func_return_results quad table 0 (some (request ms_cpu_all))) ≡ some 2
unfolding call_func_return_results
third_undefined = refl

fourth_offline :
    status_at 3 (call_func_return_results quad table 0 (some (request ms_cpu_all))) ≡ some 3
unfolding call_func_return_results
fourth_offline = refl

call_func_return_results-Answered_example :
    (s : Status) × (d' : MsDataCpu) × (call_func_return_results quad table 0
        (some (request ms_cpu_all))
      ≡ some (s, 0, some d'))
    × Answered quad table (request ms_cpu_all) s d'
call_func_return_results-Answered_example =
    call_func_return_results-Answered quad table (request ms_cpu_all) refl
      (inl refl, (inr refl, tt)) refl (inl refl)

call_func_return_results-outside_example :
    call_func_return_results quad table 0 (some (request 8)) ≡ (
      if has_row 7 table && (request 8).pcpu == ms_max_cpus
      then none
      else some (failure, 0, some (request 8)))
call_func_return_results-outside_example =
    call_func_return_results-outside quad table (request 8) refl (omega arith) (omega arith)

-- The distributor is mapped at 4096.
abbrev one_mapped : MsGicMap
one_mapped = record {
  gicc = missing;
  gicd = record { phys = 65536; virt = 4096; size = 4096 };
  gich = missing;
  gicv = missing;
}
  where
    missing : Interface
    missing = record { phys = 0; virt = 0; size = 0 }

gic_return_results-Answered_example :
    (s : Status) × (d' : MsDataCpu) × (gic_return_results quad one_mapped 0 (some (request 1))
      ≡ some (s, 0, some d'))
    × GicAnswered quad one_mapped (request 1) s d'
gic_return_results-Answered_example =
    gic_return_results-Answered quad one_mapped (request 1) refl refl (inr (omega arith))

-- The device answers all that is asked, and memory does not run out.
abbrev served_env : Env
served_env = record {
  alloc = λ n. true;
  ioctl = λ n. device quad table one_mapped 0;
  execute = λ n code. illegal;
  device_open = true;
}

abbrev used : List UsedIoctl
used =
    record { register_uid = 7; cpu = ms_cpu_all; partnumber = impl_all }
    ∷ record { register_uid = 16; cpu = 1; partnumber = gicd_v2 }
    ∷ []

breakout_call_driver-device_example :
    (answers : List MsDataCpu) × (e' : Env) × (breakout_call_driver (some used) (some []) served_env
      ≡ ret (success, some ([] ++ served_results used answers)) e')
    × DeviceServes table one_mapped (λ n. quad) zero_data_cpu used answers
breakout_call_driver-device_example =
    breakout_call_driver-device table one_mapped 0 (λ n. quad) used [] served_env
      (inl refl, (inr refl, tt)) (λ n. refl) (λ n. refl) refl refl
      (inl refl, (inr (omega arith), tt))

-- A search for the MIDR on all the processors, which the module reads.
abbrev midr_table : List FuncTableEntry
midr_table =
    record {
      code = 1;
      func_ptr = true;
      function_prototype = functype_out_1;
      data_size = functype_bits_32;
    }
    ∷ []

abbrev from_kernel : MatchInfo
from_kernel = record midr_request { calc = 0; pl = 2; cpu = ms_cpu_all }

abbrev searched_env : Env
searched_env = record served_env { ioctl = λ n. device quad midr_table one_mapped 0 }

find_bitfields-device_example :
    (answers : List MsDataCpu) × DeviceServes midr_table one_mapped
      (λ n. quad)
      zero_data_cpu
      (todo_of (requests sample from_kernel)).to_driver
      answers
    × Succeeds
        (find_bitfields true [] sample_globals 0 (some from_kernel) (some []))
        0
        (some (
          fold
            (ioctl_round sample (requests sample from_kernel))
            (served_results (todo_of (requests sample from_kernel)).to_driver answers)
            []))
        searched_env
unfolding todo_of sort_step matches applies mscode_partnumber
find_bitfields-device_example =
    find_bitfields-device midr_table one_mapped 0 (λ n. quad) sample_globals sample from_kernel true
      [] 0 [] searched_env (inl refl, tt) (λ n. refl) refl (λ n. refl) refl sample-IsLoaded
      sample-Unique refl (inl refl) refl (λ e. cc e)

-- A board with the two interfaces that have to be there, and the third.
abbrev board : Board
board = record {
  of_find_compatible_node = λ name.
      some (λ index.
        if leb index 2 then some (record { start = 65536 + index; size = 4096 }) else none);
  ioremap = λ index r. r.start + 4096;
}

ms_init_dt_data-Loaded_example : Loaded boot.state.dt (ms_init_dt_data board boot.state.dt)
ms_init_dt_data-Loaded_example = ms_init_dt_data-Loaded board boot.state.dt refl

abbrev answers : Answers
answers = record {
  finds_register = true;
  finds_unregister = true;
  misc_register = true;
  board = board;
}

abbrev loaded_system : System
unfolding maplesyrup_init
loaded_system = record boot {
  state = (maplesyrup_init answers (fresh boot.state)).1;
  loaded = true;
  opens = 0;
}

abbrev open_system : System
unfolding ms_open
open_system = record loaded_system { state = (ms_open loaded_system.state).1; opens = 1 }

open_reached : Reach 1 boot open_system
unfolding ms_open maplesyrup_init
open_reached =
    further (further here (load boot answers refl refl))
      (opened loaded_system refl (omega arith) refl)

reached-IsSound_example : IsSound open_system
reached-IsSound_example = reached-IsSound open_system open_reached

reached-unload_example : (t : System) × Reach 1 open_system t × IsGone open_system t
reached-unload_example = reached-unload open_system open_reached

open-twice-broken_example :
    ((ms_open open_system.state).0 ≡ success)
    × ((record open_system { state = (ms_open open_system.state).1; opens = 2 }).state.hook
        ≡ broken)
unfolding open_system
open-twice-broken_example =
    open-twice-broken 2 open_system
      (record open_system { state = (ms_open open_system.state).1; opens = 2 }) open_reached refl
      here
