-- ===== src/Kernel/Cpus/Each.antt =====
-- The processors that `on_each_cpu_kick` calls, and what becomes of the entries.
use mathlib.Core.Path.{subst}
use maplesyrup.Base.{
  ℕ, zero, suc, ◌+◌, ◌≤◌, ◌<◌, ◌≡◌, refl, sym, ap, ◌∙◌, ◌⊎◌, inl, inr, Bool, true, false, ◌&&◌,
  ◌||◌, not, none, some, List, [], ◌∷◌, ◌++◌, append_assoc, length, get_elem?, set, ◌==◌, ==_refl,
  leb, ltb, if◌then◌else◌, Bool-cases, get_elem?-lt, get_elem?-ge, arith,
}
use maplesyrup.Structs.{
  Status, success, failure, MsData, ms_max_cpus, ms_error_smp, ms_error_smp_single,
}
use maplesyrup.Kernel.{Machine, Wrapper, ◌>>=◌}
use maplesyrup.Kernel.Cpus.{
  Thread, ms_cpu_all, set_status, not_called, called, cpu_online_wrapper, all_cpus,
  on_each_cpu_kick,
}

abbrev pub with_cpus : Wrapper → List MsData → Wrapper
with_cpus w l = record w { results = record w.results { cpu = l } }

-- A function of the index and the element, at each element.
abbrev pub each : (ℕ → MsData → MsData) → ℕ → List MsData → List MsData
each g i [] = []
each g i (d ∷ ds) = g i d ∷ each g (i + 1) ds

abbrev pub is_asked : (pcpu i : ℕ) → Bool
is_asked pcpu i = (pcpu == ms_cpu_all) || (i == pcpu)

-- What becomes of the entry of a processor that is called, where the function makes `g` of it.
abbrev pub called_entry : Machine → (ℕ → MsData → MsData) → ℕ → MsData → MsData
called_entry k g i d =
    if not (k.cpu_online i) && not (k.cpu_up i)
    then record d { status = ms_error_smp }
    else (if k.smp_call_function_single i then g i d else record d { status = ms_error_smp_single })

-- A processor that is not asked keeps its entry.
abbrev pub entry_after : Machine → (pcpu : ℕ) → (ℕ → MsData → MsData) → ℕ → MsData → MsData
entry_after k pcpu g i d = if is_asked pcpu i then called_entry k g i d else d

each-congr :
    (g h : ℕ → MsData → MsData) (i : ℕ) (ds : List MsData)
    → ((j : ℕ) (d : MsData) → g j d ≡ h j d)
    → each g i ds ≡ each h i ds
each-congr g h i [] same = refl
each-congr g h i (d ∷ ds) same = cc (same i d, each-congr g h (i + 1) ds same)

pub length-each :
    (g : ℕ → MsData → MsData) (i : ℕ) (ds : List MsData) → length (each g i ds) ≡ length ds
length-each g i [] = refl
length-each g i (d ∷ ds) = ap suc (length-each g (i + 1) ds)

get_elem?-middle :
    (pre post : List MsData) (d : MsData) → get_elem? (pre ++ d ∷ post) (length pre) ≡ some d
get_elem?-middle [] post d = refl
get_elem?-middle (p ∷ pre) post d = get_elem?-middle pre post d

set-middle :
    (pre post : List MsData) (d d' : MsData)
    → set (pre ++ d ∷ post) (length pre) d' ≡ pre ++ d' ∷ post
set-middle [] post d d' = refl
set-middle (p ∷ pre) post d d' = ap (◌∷◌ p) (set-middle pre post d d')

length-snoc : (pre : List MsData) (d : MsData) → length (pre ++ d ∷ []) ≡ length pre + 1
length-snoc [] d = refl
length-snoc (p ∷ pre) d = omega (arith, length-snoc pre d)

abbrev only_at : ℕ → (ℕ → MsData → MsData) → ℕ → MsData → MsData
only_at p g i d = if i == p then g i d else d

each-after :
    (g : ℕ → MsData → MsData) (p i : ℕ) (ds : List MsData) → p < i → each (only_at p g) i ds ≡ ds
each-after g p i [] h = refl
each-after g p i (d ∷ ds) h =
    let apart : (i == p) ≡ false = ground arith in
    rw (apart, each-after g p (i + 1) ds (omega arith)) refl

each-only_at :
    (g : ℕ → MsData → MsData) (p n i : ℕ) (ds : List MsData) (d : MsData)
    → p ≡ i + n
    → get_elem? ds n ≡ some d
    → each (only_at p g) i ds ≡ set ds n (g p d)
each-only_at g p n i [] d at h = refl
each-only_at g p zero i (x ∷ ds) d at h =
    let same : p ≡ i = omega arith in
    subst (λ q. each (only_at q g) i (x ∷ ds) ≡ g q d ∷ ds) (sym same)
      (rw (==_refl i, each-after g i (i + 1) ds (omega arith)) (cc h))
each-only_at g p (suc n) i (x ∷ ds) d at h =
    let apart : (i == p) ≡ false = ground arith in
    rw (apart, each-only_at g p n (i + 1) ds d (omega arith) h) refl

module _ (k : Machine) (thread : Thread) (w : Wrapper) (g : ℕ → MsData → MsData)
    (smp : k.config_smp ≡ true)
    (local : (i : ℕ) (l : List MsData) (d : MsData)
      → get_elem? l i ≡ some d
      → thread i 0 (some (with_cpus w l)) ≡ some (0, some (with_cpus w (set l i (g i d))))) where
  -- The entry of a processor that is called, and the others as they were.
  cpu_online_wrapper-entry :
      (i : ℕ) (l : List MsData) (d : MsData)
      → i < ms_max_cpus
      → get_elem? l i ≡ some d
      → (s : Status) × (cpu_online_wrapper k i 0 (some thread) (some (with_cpus w l))
          ≡ some (s, 0, some (with_cpus w (set l i (called_entry k g i d)))))
  unfolding cpu_online_wrapper not_called called set_status ◌>>=◌
  cpu_online_wrapper-entry i l d low at =
      let below : leb ms_max_cpus i ≡ false = ground arith in
      elim (Bool-cases (not (k.cpu_online i) && not (k.cpu_up i))) [
        | inl offline ↦ (failure, rw (below, smp, offline, at) refl)
        | inr online ↦ elim (Bool-cases (k.smp_call_function_single i)) [
          | inl runs ↦ (success, rw (below, smp, online, runs, local i l d at) refl)
          | inr fails ↦ (failure, rw (below, smp, online, fails, at) refl)
        ]
      ]

  all_cpus-each :
      (pre post : List MsData) (i n : ℕ)
      → length pre ≡ i
      → length post ≡ n
      → i + n ≤ ms_max_cpus
      → all_cpus k n i 0 (some thread) (some (with_cpus w (pre ++ post)))
        ≡ some (0, some (with_cpus w (pre ++ each (called_entry k g) i post)))
  unfolding all_cpus ◌>>=◌
  all_cpus-each pre [] i zero at many low = refl
  all_cpus-each pre [] i (suc n) at many low = absurd (omega arith)
  all_cpus-each pre (d ∷ post) i zero at many low = absurd (omega arith)
  all_cpus-each pre (d ∷ post) i (suc n) at many low =
      let d' = called_entry k g i d in
      let found : get_elem? (pre ++ d ∷ post) i ≡ some d =
        subst (λ j. get_elem? (pre ++ d ∷ post) j ≡ some d) at (get_elem?-middle pre post d) in
      let placed : set (pre ++ d ∷ post) i d' ≡ (pre ++ d' ∷ []) ++ post =
        subst (λ j. set (pre ++ d ∷ post) j d' ≡ (pre ++ d' ∷ []) ++ post) at
          (set-middle pre post d d' ∙ sym (append_assoc pre (d' ∷ []) post)) in
      let (s, runs) = cpu_online_wrapper-entry i (pre ++ d ∷ post) d (omega arith) found in
      let rest =
        all_cpus-each (pre ++ d' ∷ []) post (i + 1) n (omega (arith, length-snoc pre d'))
          (omega arith) (omega arith) in
      rw (runs, ◌>>=◌, placed, rest, append_assoc) refl

  -- Every processor that is asked is called, and no entry changes but theirs.
  pub on_each_cpu_kick-each :
      (l : List MsData)
      → length l ≡ ms_max_cpus
      → (w.pcpu ≡ ms_cpu_all) ⊎ (w.pcpu < ms_max_cpus)
      → on_each_cpu_kick k 0 (some thread) (some (with_cpus w l))
        ≡ some (success, 0, some (with_cpus w (each (entry_after k w.pcpu g) 0 l)))
  unfolding on_each_cpu_kick ◌>>=◌
  on_each_cpu_kick-each l eight (inl all) =
      let test : (w.pcpu == ms_cpu_all) ≡ true = ground arith in
      let same : each (entry_after k w.pcpu g) 0 l ≡ each (called_entry k g) 0 l =
        each-congr (entry_after k w.pcpu g) (called_entry k g) 0 l (λ j d. rw test refl) in
      rw (test, all_cpus-each [] l 0 ms_max_cpus refl eight (omega arith), same) refl
  on_each_cpu_kick-each l eight (inr one) =
      let test : (w.pcpu == ms_cpu_all) ≡ false = ground arith in
      let low : ltb ms_max_cpus w.pcpu ≡ false = ground arith in
      let (d, at) = get_elem?-lt l w.pcpu (omega arith) in
      let (s, runs) = cpu_online_wrapper-entry w.pcpu l d one at in
      let same : each (entry_after k w.pcpu g) 0 l ≡ each (only_at w.pcpu (called_entry k g)) 0 l =
        each-congr (entry_after k w.pcpu g) (only_at w.pcpu (called_entry k g)) 0 l
          (λ j d. rw test refl) in
      rw
        (
          test,
          low,
          runs,
          same,
          each-only_at (called_entry k g) w.pcpu w.pcpu 0 l d (omega arith) at,
        )
        refl

pub on_each_cpu_kick-above :
    (k : Machine) (thread : Thread) (w : Wrapper)
    → ms_max_cpus < w.pcpu
    → w.pcpu < ms_cpu_all
    → on_each_cpu_kick k 0 (some thread) (some w) ≡ some (failure, 0, some w)
unfolding on_each_cpu_kick
on_each_cpu_kick-above k thread w above low =
    let one : (w.pcpu == ms_cpu_all) ≡ false = ground arith in
    let refused : ltb ms_max_cpus w.pcpu ≡ true = ground arith in rw (one, refused) refl

pub on_each_cpu_kick-at :
    (k : Machine) (thread : Thread) (w : Wrapper)
    → length w.results.cpu ≡ ms_max_cpus
    → w.pcpu ≡ ms_max_cpus
    → on_each_cpu_kick k 0 (some thread) (some w) ≡ none
unfolding on_each_cpu_kick cpu_online_wrapper not_called set_status ◌>>=◌
on_each_cpu_kick-at k thread w eight at =
    let one : (w.pcpu == ms_cpu_all) ≡ false = ground arith in
    let passes : ltb ms_max_cpus w.pcpu ≡ false = ground arith in
    let too_large : leb ms_max_cpus w.pcpu ≡ true = ground arith in
    let outside : get_elem? w.results.cpu w.pcpu ≡ none =
      get_elem?-ge w.results.cpu w.pcpu (omega arith) in
    rw (one, passes, too_large, outside) refl
