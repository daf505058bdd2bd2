-- ===== src/Kernel/Device/Lifecycle/Sound.antt =====
-- What holds of the module and its device at any time.
use maplesyrup.Base.{
  ℕ, ◌+◌, ◌-◌, ◌≡◌, refl, sym, ap, ◌∙◌, ◌⊎◌, inl, inr, true, false, [], if◌then◌else◌, Bool-cases,
  arith,
}
use maplesyrup.Structs.{success}
use maplesyrup.Kernel.Tree.Ledger.{addresses}
use maplesyrup.Kernel.Device.{
  off, on, broken, list_add, list_del, Module, Answers, ms_find_undef_hook, ms_add_undef_instr_hook,
  ms_del_undef_instr_hook, ms_open, ms_release, maplesyrup_init, maplesyrup_exit,
}
use maplesyrup.Kernel.Device.Lifecycle.{
  System, fresh, boot, Step, load, load_failed, opened, refused, released, unload, Reach, here,
  further,
}
use maplesyrup.Kernel.Device.Lifecycle.Kept.{
  hook_for, IsSound, pair_of, zero_or_one, load-IsSound, fail-IsSound, open-IsSound, refuse-IsSound,
  release-IsSound, unload-IsSound,
}

Step-IsSound : {s t : System} → Step 1 s t → IsSound s → IsSound t
Step-IsSound (load s a closed done) sound =
    load-IsSound s a (maplesyrup_init a (fresh s.state)).1 closed (pair_of done) sound
Step-IsSound (load_failed s a closed done) sound =
    fail-IsSound s a (maplesyrup_init a (fresh s.state)).1 closed (pair_of done) sound
Step-IsSound (opened s is_loaded low done) sound =
    open-IsSound s (ms_open s.state).1 is_loaded low (pair_of done) sound
Step-IsSound (refused s is_loaded done) sound =
    refuse-IsSound s (ms_open s.state).1 (pair_of done) sound
Step-IsSound (released s is_loaded some_open) sound = release-IsSound s is_loaded some_open sound
Step-IsSound (unload s is_loaded shut) sound = unload-IsSound s is_loaded shut sound

boot-IsSound : IsSound boot
boot-IsSound = record {
  hooked = refl;
  single = omega arith;
  closed = inr refl;
  mapped = inr refl;
  registered = refl;
  found = inl refl;
}

Reach-IsSound : {s t : System} → IsSound s → Reach 1 s t → IsSound t
Reach-IsSound sound here = sound
Reach-IsSound sound (further reach step) = Step-IsSound step (Reach-IsSound sound reach)

-- Whatever loads, failed ones among them, opens, closes and unloads come before, as long as the device is
-- never opened while it is open: the hook is on the list of the kernel just while the device is open, and
-- a loaded module has found the symbol for registering hooks. Unless one of the loads has failed as the
-- device was registered, the mapped memory is what the map of the controller holds, and nothing is mapped
-- when the module is not loaded.
pub reached-IsSound : (s : System) → Reach 1 boot s → IsSound s
reached-IsSound s reach = Reach-IsSound boot-IsSound reach

-- The module is not loaded, its hook not on the list, and nothing mapped, unless a load has failed as the
-- device was registered, before `s`.
abbrev pub IsGone : (s t : System) → Type 0
IsGone s t =
    (t.loaded ≡ false) × (t.state.hook ≡ off) × ((s.unregistered ≡ true) ⊎ (t.state.dt.mapped ≡ []))

IsSound-IsGone :
    (s t : System) → IsSound t → t.unregistered ≡ s.unregistered → t.loaded ≡ false → IsGone s t
IsSound-IsGone s t sound same closed = (
  closed,
  ground (arith, sound.hooked, sound.closed),
  (elim sound.mapped [
    | inl unregistered ↦ inl (sym same ∙ unregistered)
    | inr mapped ↦ inr (mapped ∙ ap (λ b. if b then addresses t.state.dt.gic_map else []) closed)
  ]),
)

close :
    (s : System)
    → IsSound s
    → s.loaded ≡ true
    → (t : System) × Reach 1 s t
      × (t.loaded ≡ true)
      × (t.opens ≡ 0)
      × (t.unregistered ≡ s.unregistered)
close s sound is_loaded = elim (zero_or_one s.opens sound.single) [
  | inl shut ↦ (s, here, is_loaded, shut, refl)
  | inr one ↦ (
    record s { state = (ms_release s.state).1; opens = s.opens - 1 },
    further here (released s is_loaded (omega arith)),
    is_loaded,
    omega arith,
    refl,
  )
]

-- From any state that is reached with the device never opened while it is open, the device can be closed and
-- the module unloaded, after which its hook is not on the list and nothing is mapped, unless a load before that
-- state has failed as the device was registered.
pub reached-unload : (s : System) → Reach 1 boot s → (t : System) × Reach 1 s t × IsGone s t
reached-unload s reach =
    let sound = reached-IsSound s reach in
    elim (Bool-cases s.loaded) [
      | inl is_loaded ↦
          let (t, closes, still, shut, same) = close s sound is_loaded in
          let last = further closes (unload t still shut) in
          (_, last, IsSound-IsGone s _ (Reach-IsSound sound last) same refl)
      | inr closed ↦ (s, here, IsSound-IsGone s s sound refl closed)
    ]

init-hook : (a : Answers) (m : Module) → (maplesyrup_init a m).1.hook ≡ m.hook
unfolding maplesyrup_init ms_find_undef_hook
init-hook a m = ground arith

open-broken : (m : Module) → m.hook ≡ broken → (ms_open m).1.hook ≡ broken
unfolding ms_open ms_add_undef_instr_hook list_add
open-broken m b = ground arith

release-broken : (m : Module) → m.hook ≡ broken → (ms_release m).1.hook ≡ broken
unfolding ms_release ms_del_undef_instr_hook list_del
release-broken m b = ground arith

Step-broken :
    {limit : ℕ} {s t : System} → Step limit s t → s.state.hook ≡ broken → t.state.hook ≡ broken
unfolding maplesyrup_exit
Step-broken (load s a closed done) b = init-hook a (fresh s.state) ∙ b
Step-broken (load_failed s a closed done) b = init-hook a (fresh s.state) ∙ b
Step-broken (opened s is_loaded low done) b = open-broken s.state b
Step-broken (refused s is_loaded done) b = open-broken s.state b
Step-broken (released s is_loaded some_open) b = release-broken s.state b
Step-broken (unload s is_loaded shut) b = b

Reach-broken :
    {limit : ℕ} {s t : System} → Reach limit s t → s.state.hook ≡ broken → t.state.hook ≡ broken
Reach-broken here b = b
Reach-broken (further reach step) b = Step-broken step (Reach-broken reach b)

open-twice :
    (m : Module)
    → m.hook ≡ on
    → m.reg_undef_hook ≡ true
    → ((ms_open m).0 ≡ success) × ((ms_open m).1.hook ≡ broken)
unfolding ms_open ms_add_undef_instr_hook list_add
open-twice m h r = ground arith

-- While the device is open, a second open succeeds, and
-- puts the node of the hook on the list again, by which the list is broken; no later step mends it.
pub open-twice-broken :
    (limit : ℕ) (s t : System)
    → Reach 1 boot s
    → s.opens ≡ 1
    → Reach limit (record s { state = (ms_open s.state).1; opens = s.opens + 1 }) t
    → ((ms_open s.state).0 ≡ success) × (t.state.hook ≡ broken)
open-twice-broken limit s t before one after =
    let sound = reached-IsSound s before in
    let found : s.state.reg_undef_hook ≡ true = ground (arith, sound.found, sound.closed) in
    let (succeeds, b) = open-twice s.state (sound.hooked ∙ ap hook_for one) found in
    (succeeds, Reach-broken after b)
