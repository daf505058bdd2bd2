-- ===== src/Frontend/Main.antt =====
-- `main` of frontend/entrypoint.c.
pub mod Calc
pub mod Midr
use maplesyrup.Base.{
  ℕ, ◌+◌, ◌-◌, Bool, true, false, ◌&&◌, ◌||◌, not, Option, none, some, List, [], ◌∷◌, ◌++◌, CString,
  ltb, ◌==◌, if◌then◌else◌,
}
use maplesyrup.Structs.{Status, success, failure}
use maplesyrup.Env.{M, pure, crash, ◌>>=◌, deref}
use maplesyrup.Env.Loop.{Flow, next, leave, for_loop}
use maplesyrup.Breakout.Tables.{Globals}
use maplesyrup.Api.{
  MsBitfieldInfo, ms_get_size, ms_get_uid, ms_get_decode_string, ms_get_register_string,
  ms_get_bitfield_string, ms_get_group_string,
}
use maplesyrup.Api.Lists.{ms_get_groups, ms_get_registers, ms_get_bitfields}
use maplesyrup.Api.Find.{Machine, ms_find_by_bitfield, ms_find_by_register, ms_find_by_group}
use maplesyrup.Frontend.{
  Flags, Opt, Args, no_args, take_options, get_ppl_from_flag, flag_show_groups, flag_show_bitfields,
  flag_show_registers,
}
use maplesyrup.Frontend.Show.{Line, name, field_line, or_zero, lines_of, no_results, show_results}

-- The operand `argv[optind]`, with the number that strtol reads from it.
pub record Operand : Type 0 where
  pub text : CString
  pub hex : ℕ

-- A line of a listing.
unfoldable pub group_line : Option (List MsBitfieldInfo) → ℕ → M Line
unfolding ms_get_group_string
group_line toshow i = do s ← ms_get_group_string toshow i; pure (name s)

unfoldable pub register_line : Option (List MsBitfieldInfo) → ℕ → M Line
unfolding ms_get_register_string
register_line toshow i = do s ← ms_get_register_string toshow i; pure (name s)

unfoldable pub bitfield_line : Option (List MsBitfieldInfo) → ℕ → M Line
unfolding ms_get_uid ms_get_decode_string ms_get_register_string ms_get_bitfield_string
bitfield_line toshow i = do
  uid ← ms_get_uid toshow i
  decode ← ms_get_decode_string toshow i
  register ← ms_get_register_string toshow i
  bitfield ← ms_get_bitfield_string toshow i
  pure (field_line uid decode register bitfield)

unfoldable pub listing_body :
    (Option (List MsBitfieldInfo) → ℕ → M Line)
    → Option (List MsBitfieldInfo)
    → ℕ
    → List Line
    → M (Flow (List Line))
listing_body line toshow i lines = do l ← line toshow i; pure (next (lines ++ l ∷ []))

-- What the three listings share. The number returned is -1 in any case.
unfoldable pub show_listing :
    (showerrors : ℕ)
    → (Option (List MsBitfieldInfo) → ℕ → M Line)
    → M (Option (List MsBitfieldInfo) × Globals)
    → M (Status × List Line)
unfolding no_results listing_body ms_get_size
show_listing showerrors line get = do
  r ← get
  shown ← no_results showerrors (r.0)
  size ← ms_get_size (r.0)
  lines ← for_loop (listing_body line (r.0)) (or_zero size) 0 (shown.1)
  pure (failure, lines_of lines)

-- The switch over the flag of the listings.
unfoldable pub show_listings : Machine → Globals → Flags → M (Status × List Line)
unfolding show_listing group_line bitfield_line register_line ms_get_groups ms_get_bitfields
    ms_get_registers
show_listings m g f =
    if f.show_info == flag_show_groups
    then show_listing f.showerrors group_line (ms_get_groups m.rows g true f.devices)
    else (if f.show_info == flag_show_bitfields
        then show_listing f.showerrors bitfield_line (ms_get_bitfields m.rows g true f.devices)
        else (if f.show_info == flag_show_registers
            then show_listing f.showerrors register_line (ms_get_registers m.rows g true f.devices)
            else pure (failure, [])))

-- What a search that was made hands out; `none` is a search that failed, or found nothing.
abbrev pub Found : Type 0
Found = Option (List MsBitfieldInfo) × Globals

-- With an operand the search is made. When it hands out nothing, `main` is left with -1.
unfoldable pub searched : (showerrors : ℕ) → M Found → M (Status × List Line)
unfolding show_results
searched showerrors search = do
  r ← search
  elim (r.0) [
    | none ↦ pure (failure, [])
    | some output ↦ (do lines ← show_results showerrors (some output); pure (success, lines))
  ]

-- No operand: nothing was searched for, and nothing is shown.
unfoldable pub not_searched : (showerrors : ℕ) → M (Status × List Line)
unfolding show_results
not_searched showerrors = do lines ← show_results showerrors none; pure (success, lines)

unfoldable pub by_bitfield :
    Machine → Globals → Args → (arch impl : CString) → Operand → M (Status × List Line)
unfolding searched get_ppl_from_flag ms_find_by_bitfield
by_bitfield m g a arch impl op = searched a.flags.showerrors (
    ms_find_by_bitfield m g (some arch) (some impl) op.hex a.arg_core
      (get_ppl_from_flag a.flags.el0 a.flags.el1) a.flags.noparse a.flags.devices true)

unfoldable pub by_group :
    Machine → Globals → Args → (arch impl : CString) → Operand → M (Status × List Line)
unfolding searched get_ppl_from_flag ms_find_by_group
by_group m g a arch impl op = searched a.flags.showerrors (
    ms_find_by_group m g (some arch) (some impl) op.text a.arg_core
      (get_ppl_from_flag a.flags.el0 a.flags.el1) a.flags.noparse a.flags.devices true)

-- The value to parse is passed when the flag for it is set, which is when it was given.
abbrev pub calc_given : Args → M (Option CString)
calc_given a = if a.flags.calc == 0 then pure none else (do v ← deref a.arg_calc; pure (some v))

unfoldable pub by_register :
    Machine → Globals → Args → (arch impl : CString) → Operand → M (Status × List Line)
unfolding searched get_ppl_from_flag ms_find_by_register
by_register m g a arch impl op = do
  calc ← calc_given a
  searched a.flags.showerrors (
      ms_find_by_register m g (some arch) (some impl) op.text a.arg_core
        (get_ppl_from_flag a.flags.el0 a.flags.el1) a.flags.noparse calc a.flags.devices true)

-- The buffers are passed to a search, which reads them; one that holds no string is a fault there.
unfoldable pub with_operand :
    Args
    → (CString → CString → Operand → M (Status × List Line))
    → Option Operand
    → M (Status × List Line)
unfolding not_searched
with_operand a search none = not_searched a.flags.showerrors
with_operand a search (some op) = do
  arch ← deref a.arg_arch
  impl ← deref a.arg_impl
  search arch impl op

-- A round of the search for all the groups; `g` is left by the rounds before.
unfoldable pub all_body :
    Machine
    → Args
    → (toshow : Option (List MsBitfieldInfo)) → ℕ
    → Globals × List Line
    → M (Flow (Globals × List Line))
unfolding ms_get_group_string get_ppl_from_flag ms_find_by_group show_results
all_body m a toshow i (g, lines) = do
  arch ← deref a.arg_arch
  impl ← deref a.arg_impl
  s ← ms_get_group_string toshow i
  text ← deref s
  r ←
      ms_find_by_group m g (some arch) (some impl) text a.arg_core
        (get_ppl_from_flag a.flags.el0 a.flags.el1) a.flags.noparse a.flags.devices true
  elim (r.0) [
    | none ↦ pure (leave (r.1, lines))
    | some output ↦ (do
      shown ← show_results a.flags.showerrors (some output)
      pure (next (r.1, lines ++ shown)))
  ]

abbrev pub all_ended : (showerrors : ℕ) → Flow (Globals × List Line) → M (Status × List Line)
all_ended showerrors (leave (g, lines)) = pure (failure, lines)
all_ended showerrors (next (g, lines)) = do
  shown ← show_results showerrors none
  pure (success, lines ++ shown)

unfoldable pub all_groups : Machine → Globals → Args → M (Status × List Line)
unfolding all_body ms_get_groups ms_get_size show_results
all_groups m g a = do
  r ← ms_get_groups m.rows g true a.flags.devices
  size ← ms_get_size (r.0)
  f ← for_loop (all_body m a (r.0)) (or_zero size) 0 (r.1, [])
  all_ended a.flags.showerrors f

-- The searches, by the first flag that is set.
unfoldable pub search_for : Machine → Globals → Args → Option Operand → M (Status × List Line)
unfolding with_operand by_bitfield by_group by_register all_groups
search_for m g a operand =
    if not (a.flags.bitfield == 0)
    then with_operand a (by_bitfield m g a) operand
    else (if not (a.flags.group == 0)
        then with_operand a (by_group m g a) operand
        else (if not (a.flags.register == 0)
            then with_operand a (by_register m g a) operand
            else (if not (a.flags.all == 0) then all_groups m g a else pure (failure, []))))

unfoldable pub run_args : Machine → Globals → Option Operand → Option Args → M (Status × List Line)
unfolding show_listings search_for
run_args m g operand none = pure (failure, [])
run_args m g operand (some a) =
    if not (a.flags.show_info == 0) then show_listings m g a.flags else search_for m g a operand

unfoldable pub main : Machine → Globals → List Opt → Option Operand → M (Status × List Line)
unfolding run_args take_options
main m g opts operand = run_args m g operand (take_options opts no_args)
