-- ===== src/Breakout/Find/Supplied.antt =====
-- A search with a value that the caller supplies, from the request to the results.
use maplesyrup.Base.{
  ℕ, ◌≡◌, ◌≢◌, Bool, some, List, [], ◌∷◌, ◌++◌, map, keep, All, ==_ne, ◌+◌, Bool-cases, inl, inr,
}
use maplesyrup.Structs.{success, BitfieldInfoHeap, BitfieldInfoPopulated, MatchInfo}
use maplesyrup.Env.Yields.{
  Yields, bind-Yields, pure-Yields, Suffix, Suffix-tail, Suffix-head, Suffix-start,
}
use maplesyrup.Usermode.{FuncTableEntry}
use maplesyrup.Breakout.Tables.{Globals}
use maplesyrup.Breakout.Lookup.First.{IsLoaded}
use maplesyrup.Breakout.Search.{breakout_search_table}
use maplesyrup.Breakout.Search.Keep.{wanted, match_of, breakout_search_table-keep}
use maplesyrup.Breakout.Results.{breakout_parse_results_value}
use maplesyrup.Breakout.Results.Indices.{Unique}
use maplesyrup.Breakout.Results.Fields.{Fields, value_result}
use maplesyrup.Breakout.Results.Supplied.{breakout_parse_results_value-Yields}
use maplesyrup.Breakout.Find.{find_bitfields}

-- All the entries that are kept are fields of one register.
abbrev pub OneRegister : ℕ → List BitfieldInfoHeap → Type 0
OneRegister ioctl = All (λ x. x.register_uid ≡ ioctl)

keep-Fields :
    (table : List BitfieldInfoHeap) (p : BitfieldInfoHeap → Bool) (ioctl : ℕ)
    (rest : List BitfieldInfoHeap) (i : ℕ)
    → Suffix table i rest
    → OneRegister ioctl (keep p rest)
    → Fields table ioctl (keep p rest)
keep-Fields table p ioctl [] i at one = tt
keep-Fields table p ioctl (x ∷ rest) i at one =
    let tail = keep-Fields table p ioctl rest (i + 1) (Suffix-tail table i x rest at) in
    elim (Bool-cases (p x)) [
      | inl hit ↦
          let (of, ones) : (x.register_uid ≡ ioctl) × OneRegister ioctl (keep p rest) =
            rw hit at one in
          rw hit (((i, Suffix-head table i x rest at), of), tail ones)
      | inr miss ↦ rw miss (tail (rw miss at one))
    ]

-- With a loaded table whose codes are distinct, and memory at hand, a search for bitfields, not for whole
-- registers, with a supplied value, whose matching entries, at least one, belong to one register, succeeds
-- without reading a register: the results are those entries in the order of the table, each with the bits
-- of the value at its place.
pub find_bitfields-supplied :
    (aarch64 : Bool) (func_table : List FuncTableEntry) (g : Globals)
    (table : List BitfieldInfoHeap) (illsig ioctl : ℕ) (info : MatchInfo)
    (list : List BitfieldInfoPopulated)
    → IsLoaded g table
    → Unique table
    → info.calc ≢ 0
    → info.noparse ≢ 1
    → keep (wanted info) table ≢ []
    → OneRegister ioctl (keep (wanted info) table)
    → Yields (find_bitfields aarch64 func_table g illsig (some info) (some list)) (
      success,
      illsig,
      some (list ++ map (value_result info.calc_value) (keep (wanted info) table)),
    )
unfolding find_bitfields
find_bitfields-supplied aarch64 func_table g table illsig ioctl info list loaded unique calc parsed
      there one =
    bind-Yields (breakout_search_table g (some info) (some [])) _
      (breakout_search_table-keep g loaded info [])
      (rw (==_ne info.calc 0 calc) (
        bind-Yields
          (breakout_parse_results_value g (some (map (match_of info) (keep (wanted info) table)))
            (some list))
          _
          (breakout_parse_results_value-Yields g loaded unique info ioctl (keep (wanted info) table)
            list parsed there
            (keep-Fields table (wanted info) ioctl table 0 (Suffix-start table) one))
          (pure-Yields _)))
