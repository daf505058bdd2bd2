-- ===== src/Breakout/Ioctls/Sort.antt =====
-- The lists of registers to read that `breakout_sort_ioctls` makes.
use maplesyrup.Base.{
  ℕ, ◌≡◌, refl, ◌∙◌, Bool, true, false, ◌||◌, not, List, [], ◌∷◌, ◌++◌, ◌==◌, if◌then◌else◌,
  Bool-cases, inl, inr, arith,
}
use maplesyrup.Structs.{ResultsInfo, UsedIoctl, ns_privilege_level_0, ns_privilege_level_1}
use maplesyrup.Env.{pure}
use maplesyrup.Env.Loop.{next}
use maplesyrup.Env.Yields.{Yields, bind-Yields, pure-Yields, add_element-Yields}
use maplesyrup.Breakout.Add.{breakout_add_ioctl}
use maplesyrup.Breakout.Ioctls.{Todo, has_register, is_set, levels, add_if, sort_body}

abbrev pub used_of : ResultsInfo → UsedIoctl
used_of r = record { register_uid = r.register_uid; cpu = r.cpu; partnumber = r.part_number }

abbrev pub added_if : Bool → ResultsInfo → List UsedIoctl → List UsedIoctl
added_if test r list = if test then list ++ used_of r ∷ [] else list

abbrev pub is_listed : ResultsInfo → Todo → Bool
is_listed r todo =
    has_register r.register_uid todo.to_driver || has_register r.register_uid todo.to_usermode

unfoldable pub sort_step : ResultsInfo → Todo → Todo
sort_step r todo = if is_listed r todo then todo else record {
  to_driver = added_if (is_set (levels r) ns_privilege_level_1) r todo.to_driver;
  to_usermode = added_if (is_set (levels r) ns_privilege_level_0) r todo.to_usermode;
}

add_if-Yields :
    (test : Bool) (r : ResultsInfo) (list : List UsedIoctl)
    → Yields (add_if test r list) (added_if test r list)
unfolding add_if breakout_add_ioctl
add_if-Yields true r list =
    bind-Yields _ _ (add_element-Yields list (pure (used_of r)) (pure-Yields _)) (pure-Yields _)
add_if-Yields false r list = pure-Yields _

pub sort_body-Yields :
    (r : ResultsInfo) (todo : Todo) → Yields (sort_body r todo) (next (sort_step r todo))
unfolding sort_body sort_step
sort_body-Yields r todo = elim (Bool-cases (is_listed r todo)) [
  | inl there ↦ rw there (pure-Yields _)
  | inr absent ↦ rw absent (
      bind-Yields (add_if (is_set (levels r) ns_privilege_level_0) r todo.to_usermode) _
        (add_if-Yields _ r todo.to_usermode)
        (bind-Yields (add_if (is_set (levels r) ns_privilege_level_1) r todo.to_driver) _
          (add_if-Yields _ r todo.to_driver) (pure-Yields _)))
]

-- No register is on the list twice.
abbrev pub Once : List UsedIoctl → Type 0
Once [] = Unit
Once (u ∷ us) = (has_register u.register_uid us ≡ false) × Once us

pub has_register-append :
    (uid : ℕ) (us : List UsedIoctl) (u : UsedIoctl)
    → has_register uid (us ++ u ∷ []) ≡ (has_register uid us || u.register_uid == uid)
has_register-append uid [] u = ground arith
has_register-append uid (x ∷ us) u = ground (arith, has_register-append uid us u)

pub Once-append :
    (us : List UsedIoctl) (u : UsedIoctl)
    → Once us
    → has_register u.register_uid us ≡ false
    → Once (us ++ u ∷ [])
Once-append [] u once absent = (refl, tt)
Once-append (x ∷ us) u (here, rest) absent =
    (has_register-append x.register_uid us u ∙ ground arith, Once-append us u rest (ground arith))

abbrev pub can_read : ResultsInfo → Bool
can_read r = is_set (levels r) ns_privilege_level_0 || is_set (levels r) ns_privilege_level_1

-- A request that may be read at neither level, or whose register is on a list.
abbrev pub Covers : Todo → ResultsInfo → Type 0
Covers todo r = (not (can_read r) || is_listed r todo) ≡ true
