-- ===== src/Breakout/Results/Value.antt =====
-- A value that the caller supplies.
use maplesyrup.Base.{
  ℕ, ◌≡◌, refl, sym, ◌≢◌, Bool, true, false, Option, none, some, List, [], ◌∷◌, if◌then◌else◌, All,
  ◌↔◌, arith,
}
use mathlib.Core.Path.{subst}
use maplesyrup.Structs.{ResultsInfo}
use maplesyrup.Breakout.Results.{validate_loop, breakout_value_validate}

-- The request is for a bitfield of this register, with this value.
abbrev pub IsFor : (ioctl calc : ℕ) → ResultsInfo → Type 0
IsFor ioctl calc r = (r.register_uid ≡ ioctl) × (r.calc_value ≡ calc)

validate_loop-All :
    (ioctl calc : ℕ) (rs : List ResultsInfo)
    → (validate_loop ioctl calc rs ≡ true) ↔ All (IsFor ioctl calc) rs
unfolding validate_loop
validate_loop-All ioctl calc [] = (λ h. tt, λ h. refl)
validate_loop-All ioctl calc (r ∷ rs) =
    let tail = validate_loop-All ioctl calc rs in
    (λ h. (ground arith, tail.0 (ground arith)), λ h. (let rest = tail.1 h.1 in ground arith))

verdict :
    (v : Bool) (i c ioctl calc : ℕ)
    → ((let out : Option (ℕ × ℕ) = some (i, c) in if v then out else none) ≡ some (ioctl, calc))
      ↔ ((v ≡ true) × (i ≡ ioctl) × (c ≡ calc))
verdict true i c ioctl calc =
    (λ h. (refl, cc h, cc h), λ h. let (ok, here, value) = h in cc (here, value))
verdict false i c ioctl calc = (λ h. cc h, λ h. cc h.0)

-- The requests that are accepted with a value are those, at least one, that are all for the bitfields of
-- one register and for one value; the register and the value are returned.
pub breakout_value_validate-All :
    (rs : List ResultsInfo) (ioctl calc : ℕ)
    → (breakout_value_validate (some rs) ≡ some (ioctl, calc))
      ↔ ((rs ≢ []) × All (IsFor ioctl calc) rs)
unfolding breakout_value_validate
breakout_value_validate-All [] ioctl calc = (λ h. cc h, λ h. absurd (h.0 refl))
breakout_value_validate-All (r ∷ rs) ioctl calc =
    let whole =
      verdict (validate_loop r.register_uid r.calc_value (r ∷ rs)) r.register_uid r.calc_value ioctl
        calc in
    (
      λ h.
          let (ok, here, value) = whole.0 h in
          (
            λ e. cc e,
            subst (λ (n : ℕ). All (IsFor n calc) (r ∷ rs)) here
                (subst (λ (n : ℕ). All (IsFor r.register_uid n) (r ∷ rs)) value
                  ((validate_loop-All r.register_uid r.calc_value (r ∷ rs)).0 ok)),
          ),
      λ h.
          let (here, value) = h.1.0 in
          whole.1 (
            (validate_loop-All r.register_uid r.calc_value (r ∷ rs)).1 (
                subst (λ (n : ℕ). All (IsFor n r.calc_value) (r ∷ rs)) (sym here)
                  (subst (λ (n : ℕ). All (IsFor ioctl n) (r ∷ rs)) (sym value) h.1)),
            here,
            value,
          ),
    )
