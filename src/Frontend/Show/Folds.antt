-- ===== src/Frontend/Show/Folds.antt =====
-- What the loops of `no_results` and `show_results` make of an array, as functions of the list.
use maplesyrup.Base.{
  ℕ, suc, ◌+◌, ◌≡◌, refl, sym, ap, ◌∙◌, inl, inr, Bool, false, ◌||◌, some, List, [], ◌∷◌, ◌++◌, map,
  keep, some_of, length, append_assoc, append-nil, ltb, ◌==◌, if◌then◌else◌, Bool-cases, arith,
}
use maplesyrup.Env.Loop.{Flow, next, leave}
use maplesyrup.Env.Yields.{fold_from}
use maplesyrup.Api.{MsBitfieldInfo, translate_epl}
use maplesyrup.Frontend.Show.{Line, banner, no_results_line, result, state_of}

-- The line of an element.
abbrev pub line_of : MsBitfieldInfo → Line
line_of x = result (record {
  cpu = x.cpu;
  partnumber = some x.part_number;
  decode = some x.part_number_table;
  epl = translate_epl x.epl;
  group = some x.functional_group;
  register = some x.register_name;
  stamp = some x.stamp;
  bitfield = some x.bitfield;
  value = x.value;
  description = some x.description;
  status = x.status;
})

-- The register was read.
abbrev pub is_valid : MsBitfieldInfo → Bool
is_valid x = x.status == 0

abbrev pub is_shown : ℕ → MsBitfieldInfo → Bool
is_shown showerrors x = x.status == 0 || showerrors == 1

-- What is printed: the number of valid results and of all, and the results that are shown; or that there
-- are no results.
abbrev pub printed : ℕ → List MsBitfieldInfo → List Line
printed showerrors array =
    if some_of is_valid array || showerrors == 1
    then banner (length (keep is_valid array)) (length array)
      ∷ map line_of (keep (is_shown showerrors) array)
    else no_results_line ∷ []

-- Where the first loop ends.
abbrev pub first_flow : ℕ → List MsBitfieldInfo → Flow ℕ
first_flow i [] = next i
first_flow i (y ∷ rest) =
    let later = first_flow (i + 1) rest in if is_valid y then leave i else later

pub first_flow-some_of :
    (i : ℕ) (rest : List MsBitfieldInfo)
    → ltb (state_of (first_flow i rest)) (i + length rest) ≡ some_of is_valid rest
first_flow-some_of i [] = ground arith
first_flow-some_of i (y ∷ rest) = elim (Bool-cases (is_valid y)) [
  | inl valid ↦ rw valid (ground arith)
  | inr invalid ↦
      let same : i + suc (length rest) ≡ i + 1 + length rest = omega arith in
      rw invalid (
        ap (λ n. ltb (state_of (first_flow (i + 1) rest)) n) same ∙ first_flow-some_of (i + 1) rest)
]

-- The state that a loop counts in.
abbrev pub count_step : ℕ → MsBitfieldInfo → ℕ → ℕ
count_step j y valid = if is_valid y then valid + 1 else valid

pub count-keep :
    (j : ℕ) (rest : List MsBitfieldInfo) (n : ℕ)
    → fold_from count_step j rest n ≡ n + length (keep is_valid rest)
count-keep j [] n = omega arith
count-keep j (y ∷ rest) n = elim (Bool-cases (is_valid y)) [
  | inl valid ↦ rw valid (count-keep (j + 1) rest (n + 1) ∙ omega arith)
  | inr invalid ↦ rw invalid (count-keep (j + 1) rest n)
]

abbrev pub show_step : ℕ → ℕ → MsBitfieldInfo → List Line → List Line
show_step showerrors i y lines = if is_shown showerrors y then lines ++ line_of y ∷ [] else lines

pub show-keep :
    (showerrors i : ℕ) (rest : List MsBitfieldInfo) (lines : List Line)
    → fold_from (show_step showerrors) i rest lines
      ≡ lines ++ map line_of (keep (is_shown showerrors) rest)
show-keep showerrors i [] lines = sym (append-nil lines)
show-keep showerrors i (y ∷ rest) lines = elim (Bool-cases (is_shown showerrors y)) [
  | inl shown ↦ rw shown (
      show-keep showerrors (i + 1) rest (lines ++ line_of y ∷ [])
      ∙ append_assoc lines (line_of y ∷ []) (map line_of (keep (is_shown showerrors) rest)))
  | inr hidden ↦ rw hidden (show-keep showerrors (i + 1) rest lines)
]

pub keep-none :
    (showerrors : ℕ) (rest : List MsBitfieldInfo)
    → some_of is_valid rest ≡ false
    → (showerrors == 1) ≡ false
    → keep (is_shown showerrors) rest ≡ []
keep-none showerrors [] h k = refl
keep-none showerrors (y ∷ rest) h k =
    let here : is_shown showerrors y ≡ false = ground arith in
    rw here (keep-none showerrors rest (ground arith) k)
