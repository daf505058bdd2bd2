-- ===== src/Api.antt =====
-- lib/src/maplesyrup.c: the array of results that the library hands out, and the functions that read it
-- and that list the tables. An array is a list of its elements; `none` is NULL.
pub mod Flat
pub mod Getters
pub mod Lists
pub mod Whole
pub mod Match
pub mod Find
mod Tests
use maplesyrup.Base.{
  ℕ, ◌-◌, ◌^◌, Bool, not, Option, none, some, List, [], ◌∷◌, ◌++◌, CString, cstr, strncpy,
  strncmp_eq, length, get_elem?, leb, ◌==◌, if◌then◌else◌,
}
use maplesyrup.Structs.{
  Status, success, failure, BitfieldInfoPopulated, minus_one, ns_privilege_level_0,
  ns_privilege_level_1, ns_privilege_level_2, s_privilege_level_0, s_privilege_level_1,
  parse_max_bitfield, parse_max_functional, parse_max_register, parse_max_description,
  parse_max_partnumber,
}
use maplesyrup.Env.{M, pure, ◌>>=◌, allocate, deref}
use maplesyrup.Breakout.Tables.{Globals}
use maplesyrup.Breakout.Parts.{get_partnumber_from_midr, get_decode_table, get_error_string}
use maplesyrup.Breakout.Lookup.{get_bitfieldstamp}

abbrev pub parse_max_stampsize : ℕ
parse_max_stampsize = 16

pub record MsBitfieldInfo : Type 0 where
  pub cpu : ℕ
  pub epl : ℕ
  pub uid : ℕ
  pub status : ℕ
  pub array_elements : ℕ
  pub part_number : CString
  pub part_number_table : CString
  pub stamp : CString
  pub bitfield : CString
  pub functional_group : CString
  pub register_name : CString
  pub description : CString
  pub value : ℕ

-- The buffer, of zeros before the call, after a function that may leave it alone.
abbrev pub filled : Option CString → CString
filled none = []
filled (some s) = s

unfoldable pub flat_stamp : Globals → BitfieldInfoPopulated → M CString
flat_stamp g x =
    if strncmp_eq x.bitfield (cstr "Unparsed") (parse_max_bitfield - 1)
    then pure []
    else (do s ← get_bitfieldstamp g x.uid; pure (filled s))

-- An element of the array, from an element of a list of `size` elements.
unfoldable pub flat_element : Globals → (size : ℕ) → BitfieldInfoPopulated → M MsBitfieldInfo
unfolding flat_stamp
flat_element g size x = do
  stamp ← flat_stamp g x
  pure (record {
    cpu = x.cpu;
    epl = x.epl;
    uid = x.uid;
    status = x.status;
    array_elements = size;
    part_number = strncpy (filled (get_partnumber_from_midr x.midr)) (parse_max_partnumber - 1);
    part_number_table = strncpy (get_decode_table x.uid) (parse_max_partnumber - 1);
    stamp = strncpy stamp (parse_max_stampsize - 1);
    bitfield = strncpy x.bitfield (parse_max_bitfield - 1);
    functional_group = strncpy x.functional_group (parse_max_functional - 1);
    register_name = strncpy x.register_name (parse_max_register - 1);
    description = strncpy x.description (parse_max_description - 1);
    value = x.value;
  })

unfoldable pub flat_loop : Globals → ℕ → List BitfieldInfoPopulated → M (List MsBitfieldInfo)
unfolding flat_element
flat_loop g size [] = pure []
flat_loop g size (x ∷ xs) = do y ← flat_element g size x; ys ← flat_loop g size xs; pure (y ∷ ys)

-- The array, or `none` for -1. The size of a list is the number of its elements, so that the loop does
-- not run into the end of the list.
unfoldable pub flatten_results :
    Globals → Option (List BitfieldInfoPopulated) → M (Option (List MsBitfieldInfo))
unfolding flat_loop
flatten_results g none = pure none
flatten_results g (some []) = pure none
flatten_results g (some (x ∷ xs)) = do
  got ← allocate
  if got then (do array ← flat_loop g (length (x ∷ xs)) (x ∷ xs); pure (some array)) else pure none

-- `none` is -1.
unfoldable pub ms_get_size : Option (List MsBitfieldInfo) → M (Option ℕ)
ms_get_size none = pure none
ms_get_size (some array) = do first ← deref (get_elem? array 0); pure (some first.array_elements)

-- What the functions that read a field share: NULL check, bound, and access.
unfoldable pub read_field :
    {A : Type 0} → (MsBitfieldInfo → A) → A → Option (List MsBitfieldInfo) → ℕ → M A
read_field read error none index = pure error
read_field read error (some results) index = do
  first ← deref (get_elem? results 0)
  if leb index first.array_elements
      then (do x ← deref (get_elem? results index); pure (read x))
      else pure error

abbrev pub minus_one_64 : ℕ
minus_one_64 = 2 ^ 64 - 1

unfoldable pub ms_get_value : Option (List MsBitfieldInfo) → ℕ → M ℕ
unfolding read_field
ms_get_value = read_field (λ x. x.value) minus_one_64

unfoldable pub ms_get_register_string : Option (List MsBitfieldInfo) → ℕ → M (Option CString)
unfolding read_field
ms_get_register_string = read_field (λ x. some x.register_name) none

unfoldable pub ms_get_group_string : Option (List MsBitfieldInfo) → ℕ → M (Option CString)
unfolding read_field
ms_get_group_string = read_field (λ x. some x.functional_group) none

unfoldable pub ms_get_description_string : Option (List MsBitfieldInfo) → ℕ → M (Option CString)
unfolding read_field
ms_get_description_string = read_field (λ x. some x.description) none

unfoldable pub ms_get_partnumber_string : Option (List MsBitfieldInfo) → ℕ → M (Option CString)
unfolding read_field
ms_get_partnumber_string = read_field (λ x. some x.part_number) none

unfoldable pub ms_get_decode_string : Option (List MsBitfieldInfo) → ℕ → M (Option CString)
unfolding read_field
ms_get_decode_string = read_field (λ x. some x.part_number_table) none

unfoldable pub ms_get_cpu : Option (List MsBitfieldInfo) → ℕ → M ℕ
unfolding read_field
ms_get_cpu = read_field (λ x. x.cpu) minus_one

unfoldable pub translate_epl : ℕ → ℕ
translate_epl epl =
    if epl == ns_privilege_level_0
    then 0
    else (if epl == ns_privilege_level_1
        then 1
        else (if epl == ns_privilege_level_2
            then 2
            else (if epl == s_privilege_level_0
                then 3
                else (if epl == s_privilege_level_1 then 4 else minus_one))))

unfoldable pub ms_get_epl : Option (List MsBitfieldInfo) → ℕ → M ℕ
unfolding read_field translate_epl
ms_get_epl = read_field (λ x. translate_epl x.epl) minus_one

unfoldable pub ms_get_uid : Option (List MsBitfieldInfo) → ℕ → M ℕ
unfolding read_field
ms_get_uid = read_field (λ x. x.uid) minus_one

unfoldable pub ms_get_status : Option (List MsBitfieldInfo) → ℕ → M ℕ
unfolding read_field
ms_get_status = read_field (λ x. x.status) minus_one

unfoldable pub ms_get_status_string : Option (List MsBitfieldInfo) → ℕ → M (Option CString)
unfolding read_field
ms_get_status_string = read_field (λ x. some (get_error_string x.status)) none

unfoldable pub ms_get_bitfield_string : Option (List MsBitfieldInfo) → ℕ → M (Option CString)
unfolding read_field
ms_get_bitfield_string = read_field (λ x. some x.bitfield) none

unfoldable pub ms_get_stamp : Option (List MsBitfieldInfo) → ℕ → M (Option CString)
unfolding read_field
ms_get_stamp = read_field (λ x. some x.stamp) none

-- `none` is a NULL argument; otherwise the pointer that it points to, which is cleared.
unfoldable pub ms_free_result :
    Option (Option (List MsBitfieldInfo)) → Status × Option (Option (List MsBitfieldInfo))
ms_free_result none = (failure, none)
ms_free_result (some none) = (failure, some none)
ms_free_result (some (some results)) = (success, some none)
