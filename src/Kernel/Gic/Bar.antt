-- ===== src/Kernel/Gic/Bar.antt =====
-- What a read of a register of the interrupt controller answers for each processor.
use maplesyrup.Base.{
  ℕ, zero, suc, [], ◌∷◌, ◌+◌, ◌%◌, ◌^◌, ◌≡◌, ◌≢◌, ◌⊎◌, refl, sym, ap, inl, inr, true, none, some,
  List, length, get_elem?, set, ◌==◌, if◌then◌else◌, Option-cases, Bool-cases, arith,
}
use mathlib.Core.Option.{some-injective}
use maplesyrup.Structs.{
  Status, success, failure, MsData, MsDataCpu, ms_max_cpus, ms_error_success, gicc_v2, gicd_v2,
  gich_v2, gicv_v2,
}
use maplesyrup.Mscode.RoundTrip.{mscode_field-div}
use maplesyrup.Kernel.{Machine, ◌>>=◌, cpu_index_of}
use maplesyrup.Kernel.Cpus.Each.{with_cpus}
use maplesyrup.Kernel.Read.Answers.{request_wrapper, unpack-cpus, IsRequest, answered, kicked-each}
use maplesyrup.Kernel.Gic.{MsGicMap, bar_entry, gic_bar_read, base_of, gic_return_results}

-- The entry with the 32 bits at the offset that the low 16 bits of the code are, from `base`; an interface
-- that is not mapped is not read.
abbrev pub gic_entry : Machine → (base code i : ℕ) → MsData → MsData
gic_entry k base code i d = if base == 0 then d else record d {
  cpu = i;
  out64 = 0;
  out1 = k.readl_relaxed i (base + code % 2 ^ 16) % 2 ^ 32;
  out2 = 0;
  status = ms_error_success;
}

-- The interface of a part number is mapped at `base`.
abbrev pub IsBase : MsGicMap → (part_number base : ℕ) → Type 0
IsBase gic_map part_number base =
    ((part_number ≡ gicc_v2) × (base ≡ gic_map.gicc.virt))
    ⊎ ((part_number ≡ gicd_v2) × (base ≡ gic_map.gicd.virt))
    ⊎ ((part_number ≡ gich_v2) × (base ≡ gic_map.gich.virt))
    ⊎ ((part_number ≡ gicv_v2) × (base ≡ gic_map.gicv.virt))

abbrev pub IsNoInterface : ℕ → Type 0
IsNoInterface part_number =
    (part_number ≢ gicc_v2)
    × (part_number ≢ gicd_v2)
    × (part_number ≢ gich_v2)
    × (part_number ≢ gicv_v2)

base_of-IsBase :
    (gic_map : MsGicMap) (part_number base : ℕ)
    → base_of gic_map part_number ≡ some base
    → IsBase gic_map part_number base
unfolding base_of
base_of-IsBase gic_map part_number base found = ground arith

base_of-IsNoInterface :
    (gic_map : MsGicMap) (part_number : ℕ)
    → base_of gic_map part_number ≡ none
    → IsNoInterface part_number
unfolding base_of
base_of-IsNoInterface gic_map part_number missing = ground arith

set-same : (l : List MsData) (i : ℕ) (x : MsData) → get_elem? l i ≡ some x → set l i x ≡ l
set-same [] i x at = refl
set-same (y ∷ l) zero x at = ap (λ z. z ∷ l) (sym (some-injective y x at))
set-same (y ∷ l) (suc i) x at = ap (◌∷◌ y) (set-same l i x at)

gic_bar_read-entry :
    (k : Machine) (d : MsDataCpu) (base : ℕ)
    → k.config_smp ≡ true
    → (i : ℕ) (l : List MsData) (x : MsData) → get_elem? l i ≡ some x
    → gic_bar_read k i 0 (some (with_cpus (request_wrapper d 0 base) l))
      ≡ some
          (0, some (with_cpus (request_wrapper d 0 base) (set l i (gic_entry k base d.code i x))))
unfolding gic_bar_read bar_entry cpu_index_of ◌>>=◌
gic_bar_read-entry k d base smp i l x at = elim (Bool-cases (base == 0)) [
  | inl missing ↦ rw (missing, set-same l i x at) refl
  | inr mapped ↦ simp (mapped, smp, at, mscode_field-div d.code) refl
]

-- The answer to a request for a register of the interrupt controller.
abbrev pub GicAnswered : Machine → MsGicMap → MsDataCpu → Status → MsDataCpu → Type 0
GicAnswered k gic_map d failure d' = (d' ≡ d) × IsNoInterface d.part_number
GicAnswered k gic_map d success d' =
    (base : ℕ) × IsBase gic_map d.part_number base × (d' ≡ answered k (gic_entry k base d.code) d)

-- With several processors configured, a request with its `ms_max_cpus` entries for a register of the interrupt
-- controller on one of the processors, or on all, has no fault. It fails only if the part number is none of the four interfaces, and is then left
-- as it was. Otherwise each processor that is asked and can be called reads 32 bits at the address where the interface
-- of the part number is mapped plus the low 16 bits of the code, and puts them in its entry with its number and that
-- it succeeded; it changes nothing in its entry where the interface is not mapped. A processor that cannot be called
-- says so in its entry, and the entries of the others are left as they were.
pub gic_return_results-Answered :
    (k : Machine) (gic_map : MsGicMap) (d : MsDataCpu)
    → k.config_smp ≡ true
    → length d.cpu ≡ ms_max_cpus
    → IsRequest d
    → (s : Status) × (d' : MsDataCpu) × (gic_return_results k gic_map 0 (some d)
        ≡ some (s, 0, some d'))
      × GicAnswered k gic_map d s d'
unfolding gic_return_results
gic_return_results-Answered k gic_map d smp eight request =
    elim (Option-cases (base_of gic_map d.part_number)) [
      | inl no_base ↦ (
        failure,
        d,
        rw (gic_return_results, no_base) refl,
        (refl, base_of-IsNoInterface gic_map d.part_number no_base),
      )
      | inr (base, found) ↦ (
        success,
        answered k (gic_entry k base d.code) d,
        rw (gic_return_results, found, unpack-cpus d eight)
            (kicked-each k (gic_bar_read k) d 0 base (gic_entry k base d.code) smp eight request
              (gic_bar_read-entry k d base smp)),
        (base, base_of-IsBase gic_map d.part_number base found, refl),
      )
    ]
