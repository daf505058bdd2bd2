-- ===== src/Breakout/Results/Filter.antt =====
-- What the filter puts on the list of results.
use maplesyrup.Base.{
  ℕ, ◌/◌, ◌%◌, ◌^◌, ◌&&◌, ◌||◌, Bool, ap, ◌∙◌, bit_and_ones, arith, ◌≡◌, some, List, [], ◌∷◌, ◌++◌,
  ◌==◌, if◌then◌else◌, some_of, Bool-cases, inl, inr,
}
use maplesyrup.Structs.{
  success, BitfieldInfoHeap, BitfieldInfoPopulated, ResultsInfo, minus_one, arch_armv7a,
  arch_armv8a, impl_cortex_a7, impl_cortex_a9, impl_cortex_a15, impl_cortex_a53, impl_cortex_a57,
}
use maplesyrup.Env.{pure, ◌>>=◌}
use maplesyrup.Env.Loop.{next, walk}
use maplesyrup.Env.Yields.{Yields, bind-Yields, pure-Yields}
use maplesyrup.Breakout.Tables.{Globals}
use maplesyrup.Breakout.Lookup.First.{IsLoaded, entry_of}
use maplesyrup.Breakout.Parts.{get_impl_from_midr, get_arch_from_midr, part_number_of_midr}
use maplesyrup.Breakout.Add.{breakout_add_bitfield_result, breakout_add_noparse_result}
use maplesyrup.Breakout.Add.Elements.{
  bitfield_result, noparse_result, breakout_add_bitfield_result-Yields,
  breakout_add_noparse_result-Yields,
}
use maplesyrup.Breakout.Results.{
  same_register, breakout_add_noparse, added, not_searched, filter_test, filter_body,
  breakout_filter_results,
}

abbrev pub plain_result : BitfieldInfoPopulated → BitfieldInfoHeap → BitfieldInfoPopulated
plain_result x y = bitfield_result y x.uid x.ioctl x.value 0 x.cpu x.epl x.midr x.status

abbrev pub whole_result : BitfieldInfoPopulated → BitfieldInfoHeap → BitfieldInfoPopulated
whole_result x y = noparse_result y x.uid x.ioctl x.uvalue x.cpu x.epl x.midr x.status

-- A processor by the part number in its MIDR, with its implementation and its architecture.
abbrev processors : List (ℕ × ℕ × ℕ)
processors =
    (0xC07, impl_cortex_a7, arch_armv7a)
    ∷ (0xC09, impl_cortex_a9, arch_armv7a)
    ∷ (0xC0F, impl_cortex_a15, arch_armv7a)
    ∷ (0xD03, impl_cortex_a53, arch_armv8a)
    ∷ (0xD07, impl_cortex_a57, arch_armv8a)
    ∷ []

-- The part number of a request is the implementation or the architecture of the processor with the given
-- part number in its MIDR, or -1 for one that is not known.
abbrev is_part_of : ℕ → (ppn : ℕ) → Bool
is_part_of part_number ppn =
    if some_of (λ p. p.0 == ppn) processors
    then some_of (λ p. p.0 == ppn && (p.1 == part_number || p.2 == part_number)) processors
    else minus_one == part_number

-- A request asks for a value with its code, from a processor of its part number or from one whose MIDR is 0.
abbrev pub asks_for : ResultsInfo → BitfieldInfoPopulated → Bool
asks_for requested x =
    requested.uid == x.uid
    && (x.midr == 0 || is_part_of requested.part_number (x.midr / 2 ^ 4 % 2 ^ 12))

ppn_cases :
    (part_number midr : ℕ)
    → (get_impl_from_midr midr == part_number || get_arch_from_midr midr == part_number)
      ≡ is_part_of part_number (part_number_of_midr midr)
unfolding get_impl_from_midr get_arch_from_midr
ppn_cases part_number midr = ground arith

filter_test-asks_for :
    (requested : ResultsInfo) (x : BitfieldInfoPopulated)
    → filter_test requested x ≡ asks_for requested x
unfolding filter_test
filter_test-asks_for requested x =
    let part =
      ppn_cases requested.part_number x.midr
      ∙ ap (is_part_of requested.part_number) (bit_and_ones 12 (x.midr / 2 ^ 4)) in
    ground (arith, part)

-- A value for a request adds the bitfield, or, for a request of a whole register, the register unless it
-- is on the list.
unfoldable pub filter_step :
    ResultsInfo
    → BitfieldInfoPopulated
    → BitfieldInfoHeap
    → List BitfieldInfoPopulated
    → List BitfieldInfoPopulated
filter_step requested x y list =
    if asks_for requested x
    then (if requested.noparse == 1
        then (if some_of (same_register x) list then list else list ++ whole_result x y ∷ [])
        else list ++ plain_result x y ∷ [])
    else list

-- The values with their entries.
abbrev pub Sourced :
    List BitfieldInfoHeap → List BitfieldInfoPopulated → List BitfieldInfoHeap → Type 0
Sourced table [] [] = Unit
Sourced table [] (y ∷ ys) = ⊥
Sourced table (x ∷ xs) [] = ⊥
Sourced table (x ∷ xs) (y ∷ ys) = (entry_of x.uid table ≡ some y) × Sourced table xs ys

unfoldable pub filter_one :
    ResultsInfo
    → List BitfieldInfoPopulated
    → List BitfieldInfoHeap
    → List BitfieldInfoPopulated
    → List BitfieldInfoPopulated
unfolding filter_step
filter_one requested (x ∷ xs) (y ∷ ys) list =
    filter_one requested xs ys (filter_step requested x y list)
filter_one requested xs ys list = list

unfoldable pub filter_all :
    List ResultsInfo
    → List BitfieldInfoPopulated
    → List BitfieldInfoHeap
    → List BitfieldInfoPopulated
    → List BitfieldInfoPopulated
unfolding filter_one
filter_all [] xs ys list = list
filter_all (r ∷ rs) xs ys list = filter_all rs xs ys (filter_one r xs ys list)

module _ (g : Globals) {table : List BitfieldInfoHeap} (loaded : IsLoaded g table) where
  filter_body-Yields :
      (requested : ResultsInfo) (x : BitfieldInfoPopulated) (y : BitfieldInfoHeap)
      (list : List BitfieldInfoPopulated)
      → entry_of x.uid table ≡ some y
      → Yields
          (filter_body g requested x (some list))
          (next (some (filter_step requested x y list)))
  unfolding filter_body breakout_add_noparse filter_step
  filter_body-Yields requested x y list found = elim (Bool-cases (asks_for requested x)) [
    | inr other ↦ rw (filter_test-asks_for requested x, other) (pure-Yields _)
    | inl hit ↦ elim (Bool-cases (requested.noparse == 1)) [
      | inr parsed ↦
          rw (filter_test-asks_for requested x, hit, parsed)
            (bind-Yields (pure (not_searched, some list)) _ (pure-Yields _) (
              bind-Yields
                (breakout_add_bitfield_result g (some list) x.uid x.ioctl x.value 0 x.cpu x.epl
                  x.midr x.status)
                _
                (breakout_add_bitfield_result-Yields g loaded list y x.uid x.ioctl x.value 0 x.cpu
                  x.epl x.midr x.status found)
                (pure-Yields _)))
      | inl whole ↦ elim (Bool-cases (some_of (same_register x) list)) [
        | inl there ↦
            rw (filter_test-asks_for requested x, hit, whole, there)
              (bind-Yields (pure (added, some list)) _ (pure-Yields _) (pure-Yields _))
        | inr absent ↦
            rw (filter_test-asks_for requested x, hit, whole, absent)
              (bind-Yields
                (breakout_add_noparse_result g (some list) x.uid x.ioctl 0 x.uvalue x.cpu x.epl
                    x.midr x.status
                  >>= λ r. pure (added, r.1))
                _
                (bind-Yields
                  (breakout_add_noparse_result g (some list) x.uid x.ioctl 0 x.uvalue x.cpu x.epl
                    x.midr x.status)
                  _
                  (breakout_add_noparse_result-Yields g loaded list y x.uid x.ioctl 0 x.uvalue x.cpu
                    x.epl x.midr x.status found)
                  (pure-Yields _))
                (pure-Yields _))
      ]
    ]
  ]

  filter_one-Yields :
      (requested : ResultsInfo) (xs : List BitfieldInfoPopulated) (ys : List BitfieldInfoHeap)
      (list : List BitfieldInfoPopulated)
      → Sourced table xs ys
      → Yields
          (walk (filter_body g requested) xs (some list))
          (next (some (filter_one requested xs ys list)))
  unfolding walk filter_one
  filter_one-Yields requested [] [] list named = pure-Yields _
  filter_one-Yields requested [] (y ∷ ys) list named = absurd named
  filter_one-Yields requested (x ∷ xs) [] list named = absurd named
  filter_one-Yields requested (x ∷ xs) (y ∷ ys) list (here, rest) =
      bind-Yields (filter_body g requested x (some list)) _
        (filter_body-Yields requested x y list here)
        (filter_one-Yields requested xs ys (filter_step requested x y list) rest)

  filter_walk-Yields :
      (rs : List ResultsInfo) (xs : List BitfieldInfoPopulated) (ys : List BitfieldInfoHeap)
      (list : List BitfieldInfoPopulated)
      → Sourced table xs ys
      → Yields
          (walk (λ r s. walk (filter_body g r) xs s) rs (some list))
          (next (some (filter_all rs xs ys list)))
  unfolding walk filter_all
  filter_walk-Yields [] xs ys list named = pure-Yields _
  filter_walk-Yields (r ∷ rs) xs ys list named =
      bind-Yields (walk (filter_body g r) xs (some list)) _ (filter_one-Yields r xs ys list named)
        (filter_walk-Yields rs xs ys (filter_one r xs ys list) named)

  pub breakout_filter_results-Yields :
      (rs : List ResultsInfo) (xs : List BitfieldInfoPopulated) (ys : List BitfieldInfoHeap)
      (list : List BitfieldInfoPopulated)
      → Sourced table xs ys
      → Yields
          (breakout_filter_results g (some xs) (some rs) (some list))
          (success, some (filter_all rs xs ys list))
  unfolding breakout_filter_results
  breakout_filter_results-Yields rs xs ys list named =
      bind-Yields (walk (λ r s. walk (filter_body g r) xs s) rs (some list)) _
        (filter_walk-Yields rs xs ys list named) (pure-Yields _)
