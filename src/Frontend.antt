-- ===== src/Frontend.antt =====
-- frontend/entrypoint.c: the command line. What getopt_long, atoi and strtol make of the arguments is
-- given; what is printed is a list of lines.
pub mod Show
pub mod Main
mod Tests
use maplesyrup.Base.{
  ℕ, ◌+◌, ◌-◌, ◌≡◌, Bool, true, false, ◌&&◌, Option, none, some, List, [], ◌∷◌, CString, length,
  ltb, ◌==◌, if◌then◌else◌, bit_or,
}
use maplesyrup.Structs.{minus_one, ns_privilege_level_0, ns_privilege_level_1, preferred_pl}

abbrev pub max_arch_buffer : ℕ
max_arch_buffer = 16

abbrev pub max_impl_buffer : ℕ
max_impl_buffer = 16

abbrev pub max_calc_buffer : ℕ
max_calc_buffer = 32

abbrev pub flag_show_groups : ℕ
flag_show_groups = 1

abbrev pub flag_show_bitfields : ℕ
flag_show_bitfields = 2

abbrev pub flag_show_registers : ℕ
flag_show_registers = 3

-- The variables `flag_fb_…`.
pub record Flags : Type 0 where
  pub group : ℕ
  pub register : ℕ
  pub bitfield : ℕ
  pub all : ℕ
  pub el0 : ℕ
  pub el1 : ℕ
  pub show_info : ℕ
  pub showerrors : ℕ
  pub noparse : ℕ
  pub calc : ℕ
  pub devices : ℕ

abbrev pub no_flags : Flags
no_flags = record {
  group = 0;
  register = 0;
  bitfield = 0;
  all = 0;
  el0 = 0;
  el1 = 0;
  show_info = 0;
  showerrors = 0;
  noparse = 0;
  calc = 0;
  devices = 0;
}

-- The options of `long_options`, with what getopt_long returns for each; `opt_unknown` is another letter.
pub data Opt : Type 0 where
  opt_arch opt_impl opt_calc : CString → Opt
  opt_core : ℕ → Opt
  opt_help opt_unknown : Opt
  opt_group opt_register opt_bitfield opt_all opt_noparse opt_showfail opt_el0 opt_el1 : Opt
  opt_devices opt_show_groups opt_show_bitfields opt_show_registers : Opt

-- The variables of `main`. A buffer that holds no string, as nothing or too much was copied to it, is
-- `none`.
pub record Args : Type 0 where
  pub arg_arch : Option CString
  pub arg_impl : Option CString
  pub arg_calc : Option CString
  pub arg_core : ℕ
  pub flags : Flags

abbrev pub no_args : Args
no_args = record {
  arg_arch = none;
  arg_impl = none;
  arg_calc = none;
  arg_core = minus_one;
  flags = no_flags;
}

-- strncpy (buffer, src, n) into a buffer that was not set up.
unfoldable pub copied_to_buffer : CString → ℕ → Option CString
copied_to_buffer src n = if ltb (length src) n then some src else none

abbrev pub with_flags : Args → Flags → Args
with_flags a f = record a { flags = f }

-- What an option does, the flags that getopt_long sets included; `none` leaves `main`.
unfoldable pub take_option : Opt → Args → Option Args
unfolding copied_to_buffer
take_option (opt_arch s) a = some (record a { arg_arch = copied_to_buffer s (max_arch_buffer - 1) })
take_option (opt_impl s) a = some (record a { arg_impl = copied_to_buffer s (max_arch_buffer - 1) })
take_option (opt_core n) a = some (record a { arg_core = n })
take_option (opt_calc s) a = some (record a {
  arg_calc = copied_to_buffer s (max_calc_buffer - 1);
  flags = record a.flags { calc = 1 };
})
take_option opt_help a = some a
take_option opt_unknown a = none
take_option opt_group a = some (with_flags a (record a.flags { group = 1 }))
take_option opt_register a = some (with_flags a (record a.flags { register = 1 }))
take_option opt_bitfield a = some (with_flags a (record a.flags { bitfield = 1 }))
take_option opt_all a = some (with_flags a (record a.flags { all = 1 }))
take_option opt_noparse a = some (with_flags a (record a.flags { noparse = 1 }))
take_option opt_showfail a = some (with_flags a (record a.flags { showerrors = 1 }))
take_option opt_el0 a = some (with_flags a (record a.flags { el0 = 1 }))
take_option opt_el1 a = some (with_flags a (record a.flags { el1 = 1 }))
take_option opt_devices a = some (with_flags a (record a.flags { devices = 1 }))
take_option opt_show_groups a =
    some (with_flags a (record a.flags { show_info = flag_show_groups }))
take_option opt_show_bitfields a =
    some (with_flags a (record a.flags { show_info = flag_show_bitfields }))
take_option opt_show_registers a =
    some (with_flags a (record a.flags { show_info = flag_show_registers }))

unfoldable pub take_options : List Opt → Args → Option Args
unfolding take_option
take_options [] a = some a
take_options (o ∷ os) a = elim (take_option o a) [ none ↦ none | some a' ↦ take_options os a' ]

unfoldable pub get_ppl_from_flag : (el0 el1 : ℕ) → ℕ
get_ppl_from_flag el0 el1 =
    if ltb 0 el0 && el1 == 0
    then ns_privilege_level_0
    else (if el0 == 0 && ltb 0 el1
        then ns_privilege_level_1
        else (if ltb 0 el0 && ltb 0 el1
            then bit_or ns_privilege_level_0 ns_privilege_level_1
            else preferred_pl))
