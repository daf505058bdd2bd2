-- ===== src/Frontend/Main/Calc.antt =====
-- `maplesyrup --register NAME --arch=… --impl=… --calc=…`, from the command line to the lines printed.
use mathlib.Core.Path.{subst}
use maplesyrup.Base.{
  ℕ, ◌-◌, ◌<◌, ◌≡◌, refl, sym, ◌≢◌, true, Option, some, List, [], ◌∷◌, map, keep, length, CString,
  length-map, lt→ltb, arith,
}
use maplesyrup.Structs.{
  success, MatchInfo, BitfieldInfoHeap, BitfieldInfoPopulated, minus_one, preferred_pl,
}
use maplesyrup.Env.{pure, ◌>>=◌, deref}
use maplesyrup.Env.Yields.{Yields, bind-Yields, pure-Yields}
use maplesyrup.Breakout.Tables.{Globals}
use maplesyrup.Breakout.Tables.Expand.{expand, AreSized}
use maplesyrup.Breakout.Search.Keep.{wanted}
use maplesyrup.Breakout.Results.Indices.{Unique}
use maplesyrup.Breakout.Results.Fields.{value_result}
use maplesyrup.Breakout.Find.Supplied.{OneRegister}
use maplesyrup.Api.{MsBitfieldInfo}
use maplesyrup.Api.Flat.{element_of}
use maplesyrup.Api.Getters.{IsCounted}
use maplesyrup.Api.Match.{architecture_of, implementation_of}
use maplesyrup.Api.Find.{Machine, ms_find_by_register}
use maplesyrup.Api.Find.Value.{request_of, value_array, ms_find_by_register-value}
use maplesyrup.Frontend.{
  opt_register, opt_arch, opt_impl, opt_calc, Args, no_args, no_flags, copied_to_buffer,
  take_option, take_options, get_ppl_from_flag, max_arch_buffer, max_calc_buffer,
}
use maplesyrup.Frontend.Show.{show_results}
use maplesyrup.Frontend.Show.Folds.{printed}
use maplesyrup.Frontend.Show.Lines.{show_results-printed}
use maplesyrup.Frontend.Main.{
  Operand, searched, with_operand, by_register, search_for, run_args, main,
}

element_of-IsCounted :
    (table : List BitfieldInfoHeap) (size : ℕ) (xs : List BitfieldInfoPopulated)
    → IsCounted size (map (element_of table size) xs)
unfolding element_of
element_of-IsCounted table size [] = tt
element_of-IsCounted table size (x ∷ xs) = (refl, element_of-IsCounted table size xs)

show-array :
    (showerrors : ℕ) (array : List MsBitfieldInfo)
    → array ≢ []
    → IsCounted (length array) array
    → Yields (show_results showerrors (some array)) (printed showerrors array)
show-array showerrors [] there counted = absurd (there refl)
show-array showerrors (x ∷ xs) there counted = show_results-printed x xs counted showerrors

map-there : {A B : Type 0} (f : A → B) (xs : List A) → xs ≢ [] → map f xs ≢ []
map-there f [] there e = there refl
map-there f (x ∷ xs) there e = cc e

-- The array of a search with a value is printed.
show-value_array :
    (showerrors : ℕ) (table : List BitfieldInfoHeap) (info : MatchInfo) (xs : List BitfieldInfoHeap)
    → xs ≢ []
    → Yields
        (show_results showerrors (some (value_array table info xs)))
        (printed showerrors (value_array table info xs))
show-value_array showerrors table info xs there =
    let results = map (value_result info.calc_value) xs in
    show-array showerrors (value_array table info xs)
      (map-there (element_of table (length results)) results
        (map-there (value_result info.calc_value) xs there))
      (subst (λ n. IsCounted n (value_array table info xs))
        (sym (length-map (element_of table (length results)) results))
        (element_of-IsCounted table (length results) results))

-- The arguments that these options leave.
abbrev pub calc_args : (arch impl calc : CString) → Args
calc_args a i c = record {
  arg_arch = some a;
  arg_impl = some i;
  arg_calc = some c;
  arg_core = minus_one;
  flags = record no_flags { register = 1; calc = 1 };
}

take_options-calc :
    (a i c : CString)
    → length a < max_arch_buffer - 1
    → length i < max_arch_buffer - 1
    → length c < max_calc_buffer - 1
    → take_options (opt_register ∷ opt_arch a ∷ opt_impl i ∷ opt_calc c ∷ []) no_args
      ≡ some (calc_args a i c)
unfolding take_options take_option copied_to_buffer
take_options-calc a i c short_a short_i short_c =
    rw
      (
        lt→ltb (length a) (max_arch_buffer - 1) short_a,
        lt→ltb (length i) (max_arch_buffer - 1) short_i,
        lt→ltb (length c) (max_calc_buffer - 1) short_c,
      )
      refl

-- The request that the command line makes: every processor, the preferred level, the bitfields.
abbrev pub request_for : Machine → (a i : ℕ) → (name calc : CString) → MatchInfo
request_for m a i name calc = request_of m.erange a i minus_one preferred_pl 0 name calc

module _ (m : Machine) (g : Globals) (sized : AreSized m.rows)
    (unique : Unique (expand 0 0 m.rows)) where
  run_args-calc :
      (arch impl calc : CString) (op : Operand) (a i ioctl : ℕ)
      → architecture_of arch ≡ some a
      → implementation_of impl ≡ some i
      → keep (wanted (request_for m a i op.text calc)) (expand 0 0 m.rows) ≢ []
      → OneRegister ioctl (keep (wanted (request_for m a i op.text calc)) (expand 0 0 m.rows))
      → Yields (run_args m g (some op) (some (calc_args arch impl calc))) (
        success,
        printed 0 (
            value_array
              (expand 0 0 m.rows)
              (request_for m a i op.text calc)
              (keep (wanted (request_for m a i op.text calc)) (expand 0 0 m.rows))),
      )
  unfolding run_args search_for with_operand by_register searched get_ppl_from_flag
  run_args-calc arch impl calc op a i ioctl known_a known_i there one =
      bind-Yields (deref (some arch)) _ (pure-Yields arch) (
        bind-Yields (deref (some impl)) _ (pure-Yields impl) (
          bind-Yields (deref (some calc) >>= λ v. pure (some v)) _
            (bind-Yields (deref (some calc)) _ (pure-Yields calc) (pure-Yields (some calc)))
            (bind-Yields
              (ms_find_by_register m g (some arch) (some impl) op.text minus_one preferred_pl 0
                (some calc) 0 true)
              _
              (ms_find_by_register-value m g 0 sized unique arch impl op.text calc a i minus_one
                preferred_pl 0 ioctl known_a known_i (λ e. omega arith) there one)
              (bind-Yields (show_results 0 (some array)) _
                (show-value_array 0 table (request_for m a i op.text calc) found there)
                (pure-Yields _)))))
    where
      table : List BitfieldInfoHeap
      table = expand 0 0 m.rows

      found : List BitfieldInfoHeap
      found = keep (wanted (request_for m a i op.text calc)) table

      array : List MsBitfieldInfo
      array = value_array table (request_for m a i op.text calc) found

  -- With memory at hand, rows whose sizes are right, whose bytes fit an unsigned int and whose register names
  -- have fewer than 31 bytes, and entries that have distinct codes, the command line
  -- `--register NAME --arch=… --impl=… --calc=VALUE`, whose texts fit their buffers and name a known
  -- architecture and implementation, and where the entries that match, at least one, belong to one register, succeeds: it
  -- prints the banner and one line for each of these entries, in order, with the bits of the value at its place.
  pub main-calc :
      (arch impl calc : CString) (op : Operand) (a i ioctl : ℕ)
      → length arch < max_arch_buffer - 1
      → length impl < max_arch_buffer - 1
      → length calc < max_calc_buffer - 1
      → architecture_of arch ≡ some a
      → implementation_of impl ≡ some i
      → keep (wanted (request_for m a i op.text calc)) (expand 0 0 m.rows) ≢ []
      → OneRegister ioctl (keep (wanted (request_for m a i op.text calc)) (expand 0 0 m.rows))
      → Yields
          (main m g (opt_register ∷ opt_arch arch ∷ opt_impl impl ∷ opt_calc calc ∷ []) (some op))
          (
            success,
            printed 0 (
                value_array
                  (expand 0 0 m.rows)
                  (request_for m a i op.text calc)
                  (keep (wanted (request_for m a i op.text calc)) (expand 0 0 m.rows))),
          )
  unfolding main
  main-calc arch impl calc op a i ioctl short_a short_i short_c known_a known_i there one =
      subst
        (λ (o : Option Args). Yields (run_args m g (some op) o) (
          success,
          printed 0 (
              value_array (expand 0 0 m.rows) (request_for m a i op.text calc)
                (keep (wanted (request_for m a i op.text calc)) (expand 0 0 m.rows))),
        ))
        (sym (take_options-calc arch impl calc short_a short_i short_c))
        (run_args-calc arch impl calc op a i ioctl known_a known_i there one)
