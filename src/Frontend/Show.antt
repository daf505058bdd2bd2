-- ===== src/Frontend/Show.antt =====
-- `no_results` and `show_results` of frontend/entrypoint.c: the results of a search are printed.
pub mod Folds
pub mod Lines
use maplesyrup.Base.{
  ℕ, ◌+◌, Bool, true, false, ◌&&◌, ◌||◌, not, Option, none, some, List, [], ◌∷◌, ◌++◌, CString, ltb,
  ◌==◌, if◌then◌else◌,
}
use maplesyrup.Structs.{Status, success, failure}
use maplesyrup.Env.{M, pure, ◌>>=◌}
use maplesyrup.Env.Loop.{Flow, next, leave, for_loop}
use maplesyrup.Api.{
  MsBitfieldInfo, ms_get_size, ms_get_value, ms_get_register_string, ms_get_group_string,
  ms_get_description_string, ms_get_partnumber_string, ms_get_decode_string, ms_get_cpu, ms_get_epl,
  ms_get_uid, ms_get_status, ms_get_bitfield_string, ms_get_stamp,
}

-- What is printed of a result.
pub record Shown : Type 0 where
  pub cpu : ℕ
  pub partnumber : Option CString
  pub decode : Option CString
  pub epl : ℕ
  pub group : Option CString
  pub register : Option CString
  pub stamp : Option CString
  pub bitfield : Option CString
  pub value : ℕ
  pub description : Option CString
  pub status : ℕ

-- The lines that carry data: the banner, results, and the listings.
pub data Line : Type 0 where
  banner : (valid_elements elements : ℕ) → Line
  no_results_line : Line
  result : Shown → Line
  name : Option CString → Line
  field_line : (uid : ℕ) → (decode register bitfield : Option CString) → Line

abbrev pub or_zero : Option ℕ → ℕ
or_zero none = 0
or_zero (some n) = n

-- The first loop, which stops at a valid element.
unfoldable pub first_body : Option (List MsBitfieldInfo) → ℕ → ℕ → M (Flow ℕ)
unfolding ms_get_status
first_body output i s = do
  status ← ms_get_status output i
  if status == 0 then pure (leave i) else pure (next (i + 1))

-- The second, which counts the valid elements.
unfoldable pub count_body : Option (List MsBitfieldInfo) → ℕ → ℕ → M (Flow ℕ)
unfolding ms_get_status
count_body output j valid = do
  status ← ms_get_status output j
  if status == 0 then pure (next (valid + 1)) else pure (next valid)

abbrev pub state_of : Flow ℕ → ℕ
state_of (next s) = s
state_of (leave s) = s

unfoldable pub no_results : (showerrors : ℕ) → Option (List MsBitfieldInfo) → M (Status × List Line)
unfolding first_body count_body ms_get_size
no_results showerrors none = pure (failure, [])
no_results showerrors (some output) = do
  size ← ms_get_size (some output)
  i ← for_loop (first_body (some output)) (or_zero size) 0 0
  valid ← for_loop (count_body (some output)) (or_zero size) 0 0
  if ltb (state_of i) (or_zero size) || showerrors == 1
      then pure (success, banner (state_of valid) (or_zero size) ∷ [])
      else pure (failure, no_results_line ∷ [])

-- The line of a result.
unfoldable pub show_element : Option (List MsBitfieldInfo) → ℕ → M Line
unfolding ms_get_cpu ms_get_partnumber_string ms_get_decode_string ms_get_epl ms_get_group_string
    ms_get_register_string ms_get_stamp ms_get_bitfield_string ms_get_value
    ms_get_description_string ms_get_status
show_element output i = do
  cpu ← ms_get_cpu output i
  partnumber ← ms_get_partnumber_string output i
  decode ← ms_get_decode_string output i
  epl ← ms_get_epl output i
  group ← ms_get_group_string output i
  register ← ms_get_register_string output i
  stamp ← ms_get_stamp output i
  bitfield ← ms_get_bitfield_string output i
  value ← ms_get_value output i
  description ← ms_get_description_string output i
  status ← ms_get_status output i
  pure (
      result (record {
        cpu = cpu;
        partnumber = partnumber;
        decode = decode;
        epl = epl;
        group = group;
        register = register;
        stamp = stamp;
        bitfield = bitfield;
        value = value;
        description = description;
        status = status;
      }))

unfoldable pub show_body :
    (showerrors : ℕ) → Option (List MsBitfieldInfo) → ℕ → List Line → M (Flow (List Line))
unfolding show_element ms_get_status
show_body showerrors output i lines = do
  status ← ms_get_status output i
  if status == 0 || showerrors == 1
      then (do line ← show_element output i; pure (next (lines ++ line ∷ [])))
      else pure (next lines)

abbrev pub lines_of : Flow (List Line) → List Line
lines_of (next s) = s
lines_of (leave s) = s

abbrev pub is_failure : Status → Bool
is_failure failure = true
is_failure success = false

unfoldable pub show_results : (showerrors : ℕ) → Option (List MsBitfieldInfo) → M (List Line)
unfolding no_results show_body ms_get_size
show_results showerrors output = do
  elements ← ms_get_size output
  r ← no_results showerrors output
  if is_failure (r.0) && showerrors == 0 then pure (r.1) else (do
    shown ← for_loop (show_body showerrors output) (or_zero elements) 0 (r.1)
    pure (lines_of shown))
