-- ===== src/Breakout/Results/Supplied.antt =====
-- `breakout_parse_results_value` of lib/src/parse_breakout.c on the requests of a search.
use maplesyrup.Base.{
  ℕ, ◌≡◌, refl, sym, ◌≢◌, Option, some, List, [], ◌∷◌, ◌++◌, map, All, ==_ne, arith,
}
use mathlib.Core.Path.{subst}
use maplesyrup.Structs.{success, failure, BitfieldInfoHeap, BitfieldInfoPopulated, MatchInfo}
use maplesyrup.Mask.{value_to_long}
use maplesyrup.Mask.Extract.{value_to_long-parts}
use maplesyrup.Env.Loop.{next}
use maplesyrup.Env.Yields.{Yields, bind-Yields, pure-Yields}
use maplesyrup.Breakout.Tables.{Globals}
use maplesyrup.Breakout.Lookup.First.{IsLoaded}
use maplesyrup.Breakout.Search.Keep.{match_of}
use maplesyrup.Breakout.Results.{parse_value, parse_validated, breakout_parse_results_value}
use maplesyrup.Breakout.Results.Indices.{Unique}
use maplesyrup.Breakout.Results.Rounds.{round, parse_value-Yields}
use maplesyrup.Breakout.Results.Value.{IsFor, breakout_value_validate-All}
use maplesyrup.Breakout.Results.Fields.{Fields, value_result, filter_all-value}

Fields-IsFor :
    (table : List BitfieldInfoHeap) (info : MatchInfo) (ioctl : ℕ) (xs : List BitfieldInfoHeap)
    → Fields table ioctl xs
    → All (IsFor ioctl info.calc_value) (map (match_of info) xs)
Fields-IsFor table info ioctl [] fields = tt
Fields-IsFor table info ioctl (x ∷ xs) (here, rest) =
    ((here.1, refl), Fields-IsFor table info ioctl xs rest)

map-nonempty : {A B : Type 0} (f : A → B) (xs : List A) → xs ≢ [] → map f xs ≢ []
map-nonempty f [] h = λ e. h refl
map-nonempty f (x ∷ xs) h = λ e. cc e

module _ (g : Globals) {table : List BitfieldInfoHeap} (loaded : IsLoaded g table)
    (unique : Unique table) where
  round-value :
      (info : MatchInfo) (ioctl : ℕ) (xs : List BitfieldInfoHeap)
      (list : List BitfieldInfoPopulated)
      → info.noparse ≢ 1
      → Fields table ioctl xs
      → round table (map (match_of info) xs) ioctl (value_to_long info.calc_value 0 0) 0 0 0 0 list
        ≡ list ++ map (value_result info.calc_value) xs
  unfolding round
  round-value info ioctl xs list parsed fields =
      subst
        (λ (v : ℕ).
          round table (map (match_of info) xs) ioctl v 0 0 0 0 list
          ≡ list ++ map (value_result info.calc_value) xs)
        (sym ((value_to_long-parts info.calc_value 0 0 (omega arith) (omega arith)).0))
        (filter_all-value table unique info ioctl (==_ne info.noparse 1 parsed) xs list fields)

  -- With a loaded table whose codes are distinct, and memory at hand, a supplied value is parsed for
  -- requests, of bitfields and not of whole registers, for any entries of the table, at least one, that are
  -- fields of one register: each entry adds one result, in order, with the bits of the value at its place.
  pub breakout_parse_results_value-Yields :
      (info : MatchInfo) (ioctl : ℕ) (xs : List BitfieldInfoHeap)
      (list : List BitfieldInfoPopulated)
      → info.noparse ≢ 1
      → xs ≢ []
      → Fields table ioctl xs
      → Yields
          (breakout_parse_results_value g (some (map (match_of info) xs)) (some list))
          (success, some (list ++ map (value_result info.calc_value) xs))
  unfolding breakout_parse_results_value
  breakout_parse_results_value-Yields info ioctl xs list parsed some_there fields =
      let accepted =
        (breakout_value_validate-All (map (match_of info) xs) ioctl info.calc_value).1
          (map-nonempty (match_of info) xs some_there, Fields-IsFor table info ioctl xs fields) in
      subst
        (λ (v : Option (ℕ × ℕ)).
          Yields (parse_validated g (some (map (match_of info) xs)) (some list) v)
            (success, some (list ++ map (value_result info.calc_value) xs)))
        (sym accepted)
        (bind-Yields
          (parse_value g ioctl info.calc_value 0 0 0 0 0 0 failure (some (map (match_of info) xs))
            (some list))
          _
          (subst
            (λ (l : List BitfieldInfoPopulated).
              Yields
                (parse_value g ioctl info.calc_value 0 0 0 0 0 0 failure
                  (some (map (match_of info) xs)) (some list))
                (next (success, some l)))
            (round-value info ioctl xs list parsed fields)
            (parse_value-Yields g loaded unique ioctl info.calc_value 0 0 0 0 0 0 failure
              (map (match_of info) xs) list))
          (pure-Yields _))
