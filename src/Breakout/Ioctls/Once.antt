-- ===== src/Breakout/Ioctls/Once.antt =====
-- Each register is on a list to read, once.
use maplesyrup.Base.{
  ℕ, ◌≡◌, Bool, true, false, ◌||◌, ◌&&◌, List, [], ◌∷◌, ◌==◌, ==_refl, All, Bool-cases, inl, inr,
  arith,
}
use maplesyrup.Structs.{ResultsInfo, UsedIoctl, ns_privilege_level_0, ns_privilege_level_1}
use maplesyrup.Env.Loop.{next, walk}
use maplesyrup.Env.Yields.{Yields, fold, walk-Yields}
use maplesyrup.Breakout.Ioctls.{Todo, has_register, is_set, levels, sort_body}
use maplesyrup.Breakout.Ioctls.Sort.{
  used_of, added_if, is_listed, sort_step, sort_body-Yields, Once, has_register-append, Once-append,
  Covers,
}

Once-added :
    (test : Bool) (r : ResultsInfo) (list : List UsedIoctl)
    → Once list
    → has_register r.register_uid list ≡ false
    → Once (added_if test r list)
Once-added true r list once absent = Once-append list (used_of r) once absent
Once-added false r list once absent = once

has_register-added :
    (uid : ℕ) (test : Bool) (r : ResultsInfo) (list : List UsedIoctl)
    → has_register uid (added_if test r list)
      ≡ (has_register uid list || (test && r.register_uid == uid))
has_register-added uid true r list = has_register-append uid list (used_of r)
has_register-added uid false r list = ground arith

abbrev pub OnceTodo : Todo → Type 0
OnceTodo todo = Once todo.to_driver × Once todo.to_usermode

sort_step-Once : (r : ResultsInfo) (todo : Todo) → OnceTodo todo → OnceTodo (sort_step r todo)
unfolding sort_step
sort_step-Once r todo once = elim (Bool-cases (is_listed r todo)) [
  | inl there ↦ rw there once
  | inr absent ↦ rw absent (
    Once-added _ r todo.to_driver once.0 (ground (arith, absent)),
    Once-added _ r todo.to_usermode once.1 (ground (arith, absent)),
  )
]

sort_step-listed :
    (r q : ResultsInfo) (todo : Todo)
    → is_listed q todo ≡ true
    → is_listed q (sort_step r todo) ≡ true
unfolding sort_step
sort_step-listed r q todo h = elim (Bool-cases (is_listed r todo)) [
  | inl there ↦ rw there h
  | inr absent ↦
      let driver =
        has_register-added q.register_uid (is_set (levels r) ns_privilege_level_1) r
          todo.to_driver in
      let usermode =
        has_register-added q.register_uid (is_set (levels r) ns_privilege_level_0) r
          todo.to_usermode in
      rw (absent, driver, usermode) (ground (arith, h))
]

sort_step-Covers : (r : ResultsInfo) (todo : Todo) → Covers (sort_step r todo) r
unfolding sort_step
sort_step-Covers r todo = elim (Bool-cases (is_listed r todo)) [
  | inl there ↦ rw there (ground (arith, there))
  | inr absent ↦
      let uid = r.register_uid in
      let driver =
        has_register-added uid (is_set (levels r) ns_privilege_level_1) r todo.to_driver in
      let usermode =
        has_register-added uid (is_set (levels r) ns_privilege_level_0) r todo.to_usermode in
      rw (absent, driver, usermode) (ground (arith, ==_refl uid))
]

fold-Covers :
    (rs : List ResultsInfo) (q : ResultsInfo) (todo : Todo)
    → Covers todo q
    → Covers (fold sort_step rs todo) q
fold-Covers [] q todo h = h
fold-Covers (r ∷ rs) q todo h =
    fold-Covers rs q (sort_step r todo) (elim (Bool-cases (is_listed q todo)) [
      | inl there ↦ rw (sort_step-listed r q todo there) (ground arith)
      | inr absent ↦ ground (arith, h, absent)
    ])

fold-Once :
    (rs : List ResultsInfo) (todo : Todo)
    → OnceTodo todo
    → OnceTodo (fold sort_step rs todo) × All (Covers (fold sort_step rs todo)) rs
fold-Once [] todo once = (once, tt)
fold-Once (r ∷ rs) todo once =
    let (later, covers) = fold-Once rs (sort_step r todo) (sort_step-Once r todo once) in
    (later, (fold-Covers rs r (sort_step r todo) (sort_step-Covers r todo), covers))

-- With memory at hand, sorting the requests of a search makes two lists on each of which no register
-- stands twice, and the register of each request that may be read in the kernel or in user mode stands
-- on one of them.
pub sort_body-Once :
    (rs : List ResultsInfo)
    → (todo : Todo) × Yields
        (walk sort_body rs (record { to_driver = []; to_usermode = [] }))
        (next todo)
      × OnceTodo todo
      × All (Covers todo) rs
sort_body-Once rs =
    let start : Todo = record { to_driver = []; to_usermode = [] } in
    let (once, covers) = fold-Once rs start (tt, tt) in
    (
      fold sort_step rs start,
      walk-Yields sort_body sort_step sort_body-Yields rs start,
      once,
      covers,
    )
