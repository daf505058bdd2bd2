-- ===== src/Api/Match.antt =====
-- `set_match_info` of lib/src/maplesyrup.c: a request from the texts that the caller gives.
use maplesyrup.Base.{
  ℕ, ◌+◌, ◌-◌, ◌*◌, ◌^◌, ◌%◌, Bool, true, false, ◌||◌, ◌&&◌, Option, none, some, [], ◌∷◌, CString,
  cstr, strncmp_eq, ltb, leb, ◌==◌, if◌then◌else◌,
}
use maplesyrup.Structs.{
  MatchInfo, arch_armv7a, arch_armv8a, impl_cortex_a7, impl_cortex_a15, impl_cortex_a53,
  impl_cortex_a57, impl_all, parse_max_architecture, parse_max_implementation,
}

abbrev pub within : ℕ → ℕ → ℕ → Bool
within low high c = leb low c && leb c high

-- A hexadecimal digit.
unfoldable pub hex_value : ℕ → Option ℕ
hex_value c =
    if within b'0' b'9' c
    then some (c - b'0')
    else (if within b'a' b'f' c
        then some (c - b'a' + 10)
        else (if within b'A' b'F' c then some (c - b'A' + 10) else none))

-- The digits up to the first other byte.
unfoldable pub hex_digits : ℕ → CString → ℕ
unfolding hex_value
hex_digits acc [] = acc
hex_digits acc (c ∷ s) = elim (hex_value c) [ none ↦ acc | some d ↦ hex_digits (acc * 16 + d) s ]

abbrev pub skip_spaces : CString → CString
skip_spaces [] = []
skip_spaces (c ∷ s) = let rest = skip_spaces s in if c == b' ' || within 9 13 c then rest else c ∷ s

-- The digits, after 0x if that is there.
unfoldable pub hex_number : CString → ℕ
unfolding hex_digits
hex_number (a ∷ b ∷ s) =
    if a == b'0' && (b == b'x' || b == b'X') then hex_digits 0 s else hex_digits 0 (a ∷ b ∷ s)
hex_number s = hex_digits 0 s

-- strtoll (…, NULL, 16): the bits of the result, and whether it was out of range.
unfoldable pub strtoll_16 : CString → ℕ × Bool
unfolding hex_number
strtoll_16 text = signed (skip_spaces text)
  where
    positive : ℕ → ℕ × Bool
    positive n = if ltb n (2 ^ 63) then (n, false) else (2 ^ 63 - 1, true)

    negative : ℕ → ℕ × Bool
    negative n = if leb n (2 ^ 63) then ((2 ^ 64 - n) % 2 ^ 64, false) else (2 ^ 63, true)

    signed : CString → ℕ × Bool
    signed [] = positive 0
    signed (c ∷ s) =
        if c == b'-'
        then negative (hex_number s)
        else (if c == b'+' then positive (hex_number s) else positive (hex_number (c ∷ s)))

abbrev pub same_architecture : CString → CString → Bool
same_architecture a b = strncmp_eq a b parse_max_architecture

unfoldable pub architecture_of : CString → Option ℕ
architecture_of arch =
    if same_architecture arch (cstr "armv7a")
    then some arch_armv7a
    else (if same_architecture arch (cstr "armv8a") then some arch_armv8a else none)

abbrev pub same_implementation : CString → CString → Bool
same_implementation a b = strncmp_eq a b parse_max_implementation

unfoldable pub implementation_of : CString → Option ℕ
implementation_of impl =
    if same_implementation impl (cstr "cortex-a7")
    then some impl_cortex_a7
    else (if same_implementation impl (cstr "cortex-a9")
        then some impl_cortex_a7
        else (if same_implementation impl (cstr "cortex-a15")
            then some impl_cortex_a15
            else (if same_implementation impl (cstr "cortex-a53")
                then some impl_cortex_a53
                else (if same_implementation impl (cstr "cortex-a57")
                    then some impl_cortex_a57
                    else (if same_implementation impl (cstr "all") then some impl_all else none)))))

-- `calc` and `calc_value`; `erange` is whether errno is ERANGE before the call of strtoll.
unfoldable pub calc_of : (erange : Bool) → Option CString → ℕ × ℕ
unfolding strtoll_16
calc_of erange none = (0, 0)
calc_of erange (some text) =
    let (value, out_of_range) = strtoll_16 text in
    (1, if erange || out_of_range then 2 ^ 64 - 1 else value)

-- The request, or `none` for -1. The structure that is filled in is a local of the callers.
unfoldable pub set_match_info :
    (erange : Bool)
    → (arch impl : Option CString) → (cpu pl noparse : ℕ) → (calc_value : Option CString)
    → Option MatchInfo
unfolding architecture_of implementation_of calc_of
set_match_info erange none impl cpu pl noparse calc_value = none
set_match_info erange (some arch) none cpu pl noparse calc_value = none
set_match_info erange (some arch) (some impl) cpu pl noparse calc_value =
    elim (architecture_of arch) [
      | none ↦ none
      | some a ↦ elim (implementation_of impl) [
        | none ↦ none
        | some i ↦ some (record {
          architecture = a;
          implementation = i;
          functional_group = [];
          register_name = [];
          uid = 0;
          pl = pl;
          noparse = noparse;
          cpu = cpu;
          calc = (calc_of erange calc_value).0;
          calc_value = (calc_of erange calc_value).1;
        })
      ]
    ]
