-- ===== src/Kernel/Device/Lifecycle.antt =====
-- The life of the module: it is loaded, its device is opened and closed, and it is unloaded. The kernel
-- sees to the order of the calls.
pub mod Kept
pub mod Sound
use maplesyrup.Base.{ℕ, zero, suc, ◌+◌, ◌-◌, ◌<◌, ◌≡◌, Bool, true, false, ◌||◌, List, []}
use maplesyrup.Structs.{Status, success, failure}
use maplesyrup.Kernel.Tree.{zero_map}
use maplesyrup.Kernel.Device.{
  Module, Answers, off, maplesyrup_init, maplesyrup_exit, ms_open, ms_release,
}

-- `opens` is the number of open files of the device. `unregistered` is whether a load has failed as the
-- device was registered, after the interfaces were mapped.
pub record System : Type 0 where
  pub state : Module
  pub loaded : Bool
  pub opens : ℕ
  pub unregistered : Bool

-- The variables of the module as it is loaded; the list of hooks and the mappings are the kernel's.
abbrev pub fresh : Module → Module
fresh m = record m {
  reg_undef_hook = false;
  unreg_undef_hook = false;
  registered = false;
  dt = record m.dt { gic_map = zero_map };
}

abbrev pub boot : System
boot = record {
  state = record {
    reg_undef_hook = false;
    unreg_undef_hook = false;
    hook = off;
    registered = false;
    dt = record { gic_map = zero_map; mapped = []; nodes = 0 };
  };
  loaded = false;
  opens = 0;
  unregistered = false;
}

-- What may happen while at most `limit` files of the device are open at a time. A load that fails leaves
-- what it has put in the kernel; it fails as the device is registered if the symbol for hooks was found.
pub data Step (limit : ℕ) : System → System → Type 0 where
  load :
      (s : System) (a : Answers)
      → s.loaded ≡ false
      → (maplesyrup_init a (fresh s.state)).0 ≡ success
      → Step limit s
          (record s { state = (maplesyrup_init a (fresh s.state)).1; loaded = true; opens = 0 })
  load_failed :
      (s : System) (a : Answers)
      → s.loaded ≡ false
      → (maplesyrup_init a (fresh s.state)).0 ≡ failure
      → Step limit s (record s {
        state = (maplesyrup_init a (fresh s.state)).1;
        unregistered = s.unregistered || a.finds_register;
      })
  opened :
      (s : System)
      → s.loaded ≡ true
      → s.opens < limit
      → (ms_open s.state).0 ≡ success
      → Step limit s (record s { state = (ms_open s.state).1; opens = s.opens + 1 })
  refused :
      (s : System)
      → s.loaded ≡ true
      → (ms_open s.state).0 ≡ failure
      → Step limit s (record s { state = (ms_open s.state).1 })
  released :
      (s : System)
      → s.loaded ≡ true
      → 0 < s.opens
      → Step limit s (record s { state = (ms_release s.state).1; opens = s.opens - 1 })
  unload :
      (s : System)
      → s.loaded ≡ true
      → s.opens ≡ 0
      → Step limit s (record s { state = maplesyrup_exit s.state; loaded = false })

pub data Reach (limit : ℕ) (s : System) : System → Type 0 where
  here : Reach limit s s
  further : {t u : System} → Reach limit s t → Step limit t u → Reach limit s u
