-- ===== src/Api/Flat.antt =====
-- The array has one element for each element of the list, in order.
use maplesyrup.Base.{
  ℕ, ◌-◌, refl, some, List, [], ◌∷◌, map, length, CString, cstr, strncpy, strncmp_eq, if◌then◌else◌,
  Bool-cases, inl, inr,
}
use mathlib.Core.Option
use maplesyrup.Structs.{
  BitfieldInfoHeap, BitfieldInfoPopulated, parse_max_bitfield, parse_max_functional,
  parse_max_register, parse_max_description, parse_max_partnumber,
}
use maplesyrup.Env.{allocate}
use maplesyrup.Env.Yields.{
  Yields, Returns, Returns-Yields, bind-Returns, bind-Yields, pure-Yields, allocate-Yields,
}
use maplesyrup.Breakout.Tables.{Globals}
use maplesyrup.Breakout.Parts.{get_partnumber_from_midr, get_decode_table}
use maplesyrup.Breakout.Lookup.{get_bitfieldstamp, stamp_text}
use maplesyrup.Breakout.Lookup.First.{IsLoaded, entry_of, get_bitfieldstamp-Returns}
use maplesyrup.Api.{
  MsBitfieldInfo, parse_max_stampsize, filled, flat_stamp, flat_element, flat_loop, flatten_results,
}

abbrev pub stamp_of : List BitfieldInfoHeap → BitfieldInfoPopulated → CString
stamp_of table x =
    if strncmp_eq x.bitfield (cstr "Unparsed") (parse_max_bitfield - 1)
    then []
    else filled (Option.map stamp_text (entry_of x.uid table))

-- The element for a result: the same values and texts, the stamp of the first entry with the code, and
-- the names of the processor and of the table.
unfoldable pub element_of : List BitfieldInfoHeap → ℕ → BitfieldInfoPopulated → MsBitfieldInfo
element_of table size x = record {
  cpu = x.cpu;
  epl = x.epl;
  uid = x.uid;
  status = x.status;
  array_elements = size;
  part_number = strncpy (filled (get_partnumber_from_midr x.midr)) (parse_max_partnumber - 1);
  part_number_table = strncpy (get_decode_table x.uid) (parse_max_partnumber - 1);
  stamp = strncpy (stamp_of table x) (parse_max_stampsize - 1);
  bitfield = strncpy x.bitfield (parse_max_bitfield - 1);
  functional_group = strncpy x.functional_group (parse_max_functional - 1);
  register_name = strncpy x.register_name (parse_max_register - 1);
  description = strncpy x.description (parse_max_description - 1);
  value = x.value;
}

module _ (g : Globals) {table : List BitfieldInfoHeap} (loaded : IsLoaded g table) where
  flat_stamp-Returns : (x : BitfieldInfoPopulated) → Returns (flat_stamp g x) (stamp_of table x)
  unfolding flat_stamp
  flat_stamp-Returns x =
      elim (Bool-cases (strncmp_eq x.bitfield (cstr "Unparsed") (parse_max_bitfield - 1))) [
        | inl whole ↦ rw whole (λ e. refl)
        | inr parsed ↦ rw parsed (
            bind-Returns (get_bitfieldstamp g x.uid) _ (get_bitfieldstamp-Returns g loaded x.uid)
              (λ e. refl))
      ]

  flat_loop-Returns :
      (size : ℕ) (xs : List BitfieldInfoPopulated)
      → Returns (flat_loop g size xs) (map (element_of table size) xs)
  unfolding flat_loop flat_element element_of
  flat_loop-Returns size [] = λ e. refl
  flat_loop-Returns size (x ∷ xs) =
      bind-Returns (flat_element g size x) _
        (bind-Returns (flat_stamp g x) _ (flat_stamp-Returns x) (λ e. refl))
        (bind-Returns (flat_loop g size xs) _ (flat_loop-Returns size xs) (λ e. refl))

  -- With a loaded table and memory at hand, a list of results that is not empty is made an array of as
  -- many elements, in order, each of which holds that number.
  pub flatten_results-map :
      (x : BitfieldInfoPopulated) (xs : List BitfieldInfoPopulated)
      → Yields
          (flatten_results g (some (x ∷ xs)))
          (some (map (element_of table (length (x ∷ xs))) (x ∷ xs)))
  unfolding flatten_results
  flatten_results-map x xs = bind-Yields allocate _ allocate-Yields (
      bind-Yields (flat_loop g (length (x ∷ xs)) (x ∷ xs)) _
        (Returns-Yields _ (flat_loop-Returns (length (x ∷ xs)) (x ∷ xs))) (pure-Yields _))
