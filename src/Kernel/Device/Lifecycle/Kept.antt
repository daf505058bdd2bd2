-- ===== src/Kernel/Device/Lifecycle/Kept.antt =====
-- What holds of the module and its device, and that each of the steps keeps it.
use maplesyrup.Base.{
  ℕ, zero, suc, ◌+◌, ◌-◌, ◌<◌, ◌≤◌, ◌≡◌, refl, sym, ap, ◌||◌, ◌∙◌, ◌⊎◌, inl, inr, true, false, [],
  if◌then◌else◌, arith,
}
use maplesyrup.Structs.{Status, success, failure}
use maplesyrup.Kernel.Tree.{ms_cleanup_dt_data}
use maplesyrup.Kernel.Tree.Ledger.{
  addresses, IsLedger, ms_init_dt_data-Loaded, ms_cleanup_dt_data-empty,
}
use maplesyrup.Kernel.Device.{
  Hook, off, on, list_add, list_del, Module, Answers, ms_find_undef_hook, ms_add_undef_instr_hook,
  ms_del_undef_instr_hook, ms_open, ms_release, maplesyrup_init, maplesyrup_exit,
}
use maplesyrup.Kernel.Device.Lifecycle.{System, fresh}

abbrev pub hook_for : ℕ → Hook
hook_for zero = off
hook_for (suc n) = on

-- The hook is on the list just while the device is open; what is mapped is what the map holds, and
-- nothing once the module is unloaded, unless a load has failed as the device was registered.
pub record IsSound (s : System) : Type 0 where
  pub hooked : s.state.hook ≡ hook_for s.opens
  pub single : s.opens ≤ 1
  pub closed : (s.loaded ≡ true) ⊎ (s.opens ≡ 0)
  pub mapped :
      (s.unregistered ≡ true)
      ⊎ (s.state.dt.mapped ≡ (if s.loaded then addresses s.state.dt.gic_map else []))
  pub registered : s.state.registered ≡ s.loaded
  pub found : (s.loaded ≡ false) ⊎ (s.state.reg_undef_hook ≡ true)

pub pair_of : {r : Status × Module} {s : Status} → r.0 ≡ s → r ≡ (s, r.1)
pair_of {r} e = ap (λ (t : Status). (t, r.1)) e

pub zero_or_one : (n : ℕ) → n ≤ 1 → (n ≡ 0) ⊎ (n ≡ 1)
zero_or_one n h = ground arith

init_loaded :
    (a : Answers) (m m' : Module)
    → maplesyrup_init a m ≡ (success, m')
    → (m'.registered ≡ true) × (m'.hook ≡ m.hook) × (m'.reg_undef_hook ≡ true)
unfolding maplesyrup_init ms_find_undef_hook
init_loaded a m m' runs = ground arith

init-IsLedger :
    (a : Answers) (m m' : Module)
    → m.dt.mapped ≡ []
    → maplesyrup_init a m ≡ (success, m')
    → IsLedger m'.dt
unfolding maplesyrup_init ms_find_undef_hook
init-IsLedger a m m' nothing runs = ground (arith, ms_init_dt_data-Loaded a.board m.dt nothing)

-- A load that fails before the device is registered has mapped nothing.
init_failed :
    (a : Answers) (m m' : Module)
    → maplesyrup_init a m ≡ (failure, m')
    → (m'.registered ≡ m.registered)
      × (m'.hook ≡ m.hook)
      × ((a.finds_register ≡ true) ⊎ (m'.dt.mapped ≡ m.dt.mapped))
unfolding maplesyrup_init ms_find_undef_hook
init_failed a m m' runs = ground arith

load-mapped :
    (s : System) (a : Answers) (m' : Module)
    → s.loaded ≡ false
    → maplesyrup_init a (fresh s.state) ≡ (success, m')
    → IsSound s
    → (s.unregistered ≡ true) ⊎ (m'.dt.mapped ≡ addresses m'.dt.gic_map)
load-mapped s a m' closed runs sound = elim sound.mapped [
  | inl unregistered ↦ inl unregistered
  | inr mapped ↦
      let nothing : s.state.dt.mapped ≡ [] =
        mapped ∙ ap (λ b. if b then addresses s.state.dt.gic_map else []) closed in
      inr (init-IsLedger a (fresh s.state) m' nothing runs)
]

pub load-IsSound :
    (s : System) (a : Answers) (m' : Module)
    → s.loaded ≡ false
    → maplesyrup_init a (fresh s.state) ≡ (success, m')
    → IsSound s
    → IsSound (record s { state = m'; loaded = true; opens = 0 })
load-IsSound s a m' closed runs sound =
    let (registered, hook, found) = init_loaded a (fresh s.state) m' runs in
    let shut : s.opens ≡ 0 = ground (arith, sound.closed) in
    record {
      hooked = hook ∙ sound.hooked ∙ ap hook_for shut;
      single = omega arith;
      closed = inl refl;
      mapped = load-mapped s a m' closed runs sound;
      registered = registered;
      found = inr found;
    }

fail-mapped :
    (s : System) (a : Answers) (m' : Module)
    → s.loaded ≡ false
    → (a.finds_register ≡ true) ⊎ (m'.dt.mapped ≡ s.state.dt.mapped)
    → IsSound s
    → ((s.unregistered || a.finds_register) ≡ true)
      ⊎ (m'.dt.mapped ≡ (if s.loaded then addresses m'.dt.gic_map else []))
fail-mapped s a m' closed (inl found) sound = inl (ground arith)
fail-mapped s a m' closed (inr same) sound = elim sound.mapped [
  | inl unregistered ↦ inl (ground arith)
  | inr mapped ↦ inr (
      same
      ∙ mapped
      ∙ ap (λ b. if b then addresses s.state.dt.gic_map else []) closed
      ∙ sym (ap (λ b. if b then addresses m'.dt.gic_map else []) closed))
]

pub fail-IsSound :
    (s : System) (a : Answers) (m' : Module)
    → s.loaded ≡ false
    → maplesyrup_init a (fresh s.state) ≡ (failure, m')
    → IsSound s
    → IsSound (record s { state = m'; unregistered = s.unregistered || a.finds_register })
fail-IsSound s a m' closed runs sound =
    let (registered, hook, kept) = init_failed a (fresh s.state) m' runs in
    record {
      hooked = hook ∙ sound.hooked;
      single = sound.single;
      closed = sound.closed;
      mapped = fail-mapped s a m' closed kept sound;
      registered = registered ∙ sym closed;
      found = inl closed;
    }

pub open-IsSound :
    (s : System) (m' : Module)
    → s.loaded ≡ true
    → s.opens < 1
    → ms_open s.state ≡ (success, m')
    → IsSound s
    → IsSound (record s { state = m'; opens = s.opens + 1 })
unfolding ms_open ms_add_undef_instr_hook list_add
open-IsSound s m' is_loaded low runs sound =
    ground
      (arith, sound.hooked, sound.single, sound.closed, sound.mapped, sound.registered, sound.found)

pub refuse-IsSound :
    (s : System) (m' : Module)
    → ms_open s.state ≡ (failure, m')
    → IsSound s
    → IsSound (record s { state = m' })
unfolding ms_open ms_add_undef_instr_hook
refuse-IsSound s m' runs sound =
    ground
      (arith, sound.hooked, sound.single, sound.closed, sound.mapped, sound.registered, sound.found)

pub release-IsSound :
    (s : System)
    → s.loaded ≡ true
    → 0 < s.opens
    → IsSound s
    → IsSound (record s { state = (ms_release s.state).1; opens = s.opens - 1 })
unfolding ms_release ms_del_undef_instr_hook list_del
release-IsSound s is_loaded some_open sound =
    ground
      (arith, sound.hooked, sound.single, sound.closed, sound.mapped, sound.registered, sound.found)

unload-mapped :
    (s : System)
    → s.loaded ≡ true
    → IsSound s
    → (s.unregistered ≡ true) ⊎ ((ms_cleanup_dt_data s.state.dt).mapped ≡ [])
unload-mapped s is_loaded sound = elim sound.mapped [
  | inl unregistered ↦ inl unregistered
  | inr mapped ↦
      let ledger : s.state.dt.mapped ≡ addresses s.state.dt.gic_map =
        mapped ∙ ap (λ b. if b then addresses s.state.dt.gic_map else []) is_loaded in
      inr (ms_cleanup_dt_data-empty s.state.dt ledger)
]

pub unload-IsSound :
    (s : System)
    → s.loaded ≡ true
    → s.opens ≡ 0
    → IsSound s
    → IsSound (record s { state = maplesyrup_exit s.state; loaded = false })
unfolding maplesyrup_exit
unload-IsSound s is_loaded shut sound = record {
  hooked = sound.hooked;
  single = sound.single;
  closed = inr shut;
  mapped = unload-mapped s is_loaded sound;
  registered = refl;
  found = inl refl;
}
