-- ===== src/Breakout/Results/Rounds.antt =====
-- One value taken apart and filtered, and a list of register values.
use maplesyrup.Base.{ℕ, some, List, [], ◌∷◌, map, keep}
use maplesyrup.Structs.{
  Status, success, failure, BitfieldInfoHeap, BitfieldInfoPopulated, ResultsInfo, IoctlResult,
}
use maplesyrup.Mask.{value_to_long}
use maplesyrup.Env.Loop.{next, walk}
use maplesyrup.Env.Yields.{Yields, bind-Yields, pure-Yields, fold}
use maplesyrup.Breakout.Tables.{Globals}
use maplesyrup.Breakout.Lookup.First.{IsLoaded}
use maplesyrup.Breakout.Add.Elements.{bitfield_result}
use maplesyrup.Breakout.Results.{
  breakout_construct_bitfield_list, breakout_apply_masks_to_list, breakout_filter_results,
  parse_value, parse_body, breakout_parse_results,
}
use maplesyrup.Breakout.Results.Indices.{
  Pointing, Unique, Unique-entry_of, is_field_of, breakout_construct_bitfield_list-Yields,
}
use maplesyrup.Breakout.Results.Masks.{field_result, breakout_apply_masks_to_list-Yields}
use maplesyrup.Breakout.Results.Filter.{Sourced, filter_all, breakout_filter_results-Yields}

-- A register's value on a processor, put on the list of results for the requests.
unfoldable pub round :
    List BitfieldInfoHeap
    → List ResultsInfo
    → (register_uid cat_value cpu epl midr status : ℕ) → List BitfieldInfoPopulated
    → List BitfieldInfoPopulated
round table rs register_uid cat_value cpu epl midr status list =
    let fields = keep (is_field_of register_uid) table in
    filter_all rs (map (field_result cat_value cpu epl midr status) fields) fields list

abbrev pub ioctl_round :
    List BitfieldInfoHeap
    → List ResultsInfo
    → IoctlResult
    → List BitfieldInfoPopulated
    → List BitfieldInfoPopulated
ioctl_round table rs r =
    round table rs r.register_uid (value_to_long r.val64 r.low r.high) r.cpu r.epl r.midr r.status

Pointing-Sourced :
    (table : List BitfieldInfoHeap) (cat_value cpu epl midr status : ℕ) (is : List ℕ)
    (xs : List BitfieldInfoHeap)
    → Unique table
    → Pointing table is xs
    → Sourced table (map (field_result cat_value cpu epl midr status) xs) xs
unfolding bitfield_result
Pointing-Sourced table v cpu epl midr status [] [] unique at = tt
Pointing-Sourced table v cpu epl midr status [] (x ∷ xs) unique at = absurd at
Pointing-Sourced table v cpu epl midr status (i ∷ is) [] unique at = absurd at
Pointing-Sourced table v cpu epl midr status (i ∷ is) (x ∷ xs) unique (here, rest) = (
  Unique-entry_of table i x unique here,
  Pointing-Sourced table v cpu epl midr status is xs unique rest,
)

module _ (g : Globals) {table : List BitfieldInfoHeap} (loaded : IsLoaded g table)
    (unique : Unique table) where
  pub parse_value-Yields :
      (register_uid val64 low high cpu epl midr status : ℕ) (result : Status)
      (rs : List ResultsInfo) (list : List BitfieldInfoPopulated)
      → Yields
          (parse_value g register_uid val64 low high cpu epl midr status result
            (some rs)
            (some list))
          (next (
            success,
            some (
                round table rs register_uid
                  (value_to_long val64 low high)
                  cpu
                  epl
                  midr
                  status
                  list),
          ))
  unfolding parse_value round
  parse_value-Yields register_uid val64 low high cpu epl midr status result rs list =
      let fields = keep (is_field_of register_uid) table in
      let (is, found, at) = breakout_construct_bitfield_list-Yields g loaded register_uid in
      let values = map (field_result (value_to_long val64 low high) cpu epl midr status) fields in
      bind-Yields (breakout_construct_bitfield_list g register_uid (some [])) _ found (
        bind-Yields
          (breakout_apply_masks_to_list g val64 low high cpu epl midr status (some is) (some [])) _
          (breakout_apply_masks_to_list-Yields g loaded unique cpu epl midr status val64 low high is
            fields at)
          (bind-Yields (breakout_filter_results g (some values) (some rs) (some list)) _
            (breakout_filter_results-Yields g loaded rs values fields list (
              Pointing-Sourced table (value_to_long val64 low high) cpu epl midr status is fields
                unique at))
            (pure-Yields _)))

  parse_walk-Yields :
      (rs : List ResultsInfo) (ioctls : List IoctlResult) (result : Status)
      (list : List BitfieldInfoPopulated)
      → (s : Status) × Yields
          (walk (parse_body g (some rs)) ioctls (result, some list))
          (next (s, some (fold (ioctl_round table rs) ioctls list)))
  unfolding walk parse_body
  parse_walk-Yields rs [] result list = (result, pure-Yields _)
  parse_walk-Yields rs (r ∷ ioctls) result list =
      let (s, rest) = parse_walk-Yields rs ioctls success (ioctl_round table rs r list) in
      (
        s,
        bind-Yields (parse_body g (some rs) r (result, some list)) _
            (parse_value-Yields r.register_uid r.val64 r.low r.high r.cpu r.epl r.midr r.status
              result rs list)
            rest,
      )

  -- With a loaded table whose codes are distinct, and memory at hand, the values of at least one register
  -- are parsed without a fault. Each is taken apart into the bitfields of the register, in the order of the
  -- table. For each request in turn, those with the code of the request are added to the results, from a processor
  -- whose implementation or architecture is the request's part number, or whose MIDR is 0; for a request not to
  -- parse, the whole value is added instead, unless there is a result of the register from the same processor
  -- with the same status.
  pub breakout_parse_results-Yields :
      (i : IoctlResult) (ioctls : List IoctlResult) (rs : List ResultsInfo)
      (list : List BitfieldInfoPopulated)
      → Yields
          (breakout_parse_results g (some (i ∷ ioctls)) (some rs) (some list))
          (success, some (fold (ioctl_round table rs) (i ∷ ioctls) list))
  unfolding breakout_parse_results
  breakout_parse_results-Yields i ioctls rs list =
      bind-Yields (walk (parse_body g (some rs)) (i ∷ ioctls) (failure, some list)) _
        ((parse_walk-Yields rs (i ∷ ioctls) failure list).1) (pure-Yields _)
