-- ===== src/Breakout/Parts/Agree.antt =====
-- The functions on a MIDR agree with one another.
use maplesyrup.Base.{ℕ, ◌≡◌, none, ◌↔◌, arith}
use maplesyrup.Structs.{minus_one}
use maplesyrup.Breakout.Parts.{
  get_arch_from_impl, get_arch_from_midr, get_impl_from_midr, get_partnumber_from_midr,
}

-- The architecture of a MIDR is that of its implementation, and the three functions on a MIDR know the
-- same processors: they fail together.
arch_of_midr :
    (midr : ℕ)
    → (get_arch_from_midr midr ≡ get_arch_from_impl (get_impl_from_midr midr))
      × ((get_arch_from_midr midr ≡ minus_one) ↔ (get_impl_from_midr midr ≡ minus_one))
      × ((get_partnumber_from_midr midr ≡ none) ↔ (get_impl_from_midr midr ≡ minus_one))
unfolding get_arch_from_midr get_impl_from_midr get_partnumber_from_midr
arch_of_midr midr = (ground arith, (ground arith, ground arith), (ground arith, ground arith))
