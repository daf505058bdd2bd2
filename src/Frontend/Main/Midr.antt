-- ===== src/Frontend/Main/Midr.antt =====
-- `maplesyrup --register MIDR --arch=armv7a --impl=all --calc=VALUE` with the tables of the architectures.
use mathlib.Core.Path.{subst}
use maplesyrup.Base.{
  ℕ, ◌/◌, ◌%◌, ◌^◌, sym, ◌∙◌, Option, ◌-◌, ◌<◌, ◌≡◌, refl, ◌≢◌, some, List, [], ◌∷◌, map, keep,
  length, CString, cstr, ◌==◌, arith,
}
use maplesyrup.Structs.{success, BitfieldInfoHeap}
use maplesyrup.Mscode.{mscode, mscode_partnumber}
use maplesyrup.Env.Yields.{Yields}
use maplesyrup.Breakout.Tables.{Globals, system_entry}
use maplesyrup.Breakout.Tables.Expand.{expand, row_entries}
use maplesyrup.Breakout.Find.Supplied.{OneRegister}
use maplesyrup.Breakout.Search.{matches, applies}
use maplesyrup.Breakout.Search.Keep.{wanted}
use maplesyrup.Mask.{breakout_applymask}
use maplesyrup.Mask.Extract.{breakout_applymask-div}
use maplesyrup.Api.Flat.{element_of}
use maplesyrup.Breakout.Add.Elements.{bitfield_result}
use maplesyrup.Api.Match.{calc_of, architecture_of, implementation_of}
use maplesyrup.Api.Find.{Machine}
use maplesyrup.Api.Find.Value.{request_of, value_array}
use maplesyrup.Registers.{ms_sysreg_midr}
use maplesyrup.Bitfields.Armv7a.{bitfield_armv7a_table}
use maplesyrup.Bitfields.Armv8a.{bitfield_armv8a_table}
use maplesyrup.Bitfields.Sizes.{
  armv7a_row, architecture_rows, architecture_rows-AreSized, architecture_rows-Unique,
}
use maplesyrup.Frontend.{opt_register, opt_arch, opt_impl, opt_calc, max_calc_buffer}
use maplesyrup.Frontend.Show.{Line, result}
use maplesyrup.Frontend.Show.Folds.{printed}
use maplesyrup.Frontend.Main.{Operand, main}
use maplesyrup.Frontend.Main.Calc.{request_for, main-calc}

abbrev pub with_tables : Machine → Machine
with_tables m = record m { rows = architecture_rows }

abbrev pub midr_operand : Operand
midr_operand = record { text = cstr "MIDR"; hex = 0 }

-- The entries of the table of ARMv7-A for the register.
unfoldable pub midr_entries : List BitfieldInfoHeap
unfolding system_entry mscode bitfield_armv7a_table
midr_entries =
    map (system_entry armv7a_row)
      (keep (λ x. x.register_uid == ms_sysreg_midr) bitfield_armv7a_table)

midr-wanted :
    (m : Machine) (calc : CString)
    → keep
        (wanted (request_for (with_tables m) 0 7 (cstr "MIDR") calc))
        (expand 0 0 architecture_rows)
      ≡ midr_entries
unfolding midr_entries request_of matches applies mscode_partnumber expand row_entries
    bitfield_armv8a_table
midr-wanted m calc = refl

known_architecture : architecture_of (cstr "armv7a") ≡ some 0
unfolding architecture_of
known_architecture = refl

known_implementation : implementation_of (cstr "all") ≡ some 7
unfolding implementation_of
known_implementation = refl

midr_there : midr_entries ≢ []
unfolding midr_entries
midr_there e = cc e

midr_one : OneRegister ms_sysreg_midr midr_entries
unfolding midr_entries
midr_one = (refl, (refl, (refl, (refl, (refl, tt)))))

-- The names and the values of the fields in lines that show results.
abbrev pub fields_shown : List Line → List (Option CString × ℕ)
fields_shown [] = []
fields_shown (result s ∷ lines) = (s.bitfield, s.value) ∷ fields_shown lines
fields_shown (l ∷ lines) = fields_shown lines

midr_lines : Machine → CString → List BitfieldInfoHeap → List Line
midr_lines m calc found = printed 0 (
    value_array (expand 0 0 architecture_rows) (request_for (with_tables m) 0 7 (cstr "MIDR") calc)
      found)

-- The fields of MIDR, with what a function of shift and width makes of them.
abbrev pub midr_fields : (ℕ → ℕ → ℕ) → List (Option CString × ℕ)
midr_fields f =
    (some (cstr "Revision"), f 0 4)
    ∷ (some (cstr "Primary part number"), f 4 12)
    ∷ (some (cstr "Architecture"), f 16 4)
    ∷ (some (cstr "Variant"), f 20 4)
    ∷ (some (cstr "Implementer"), f 24 8)
    ∷ []

-- The number in the text, as the program reads it.
abbrev pub number_of : Machine → CString → ℕ
number_of m calc = (calc_of m.erange (some calc)).1

midr_lines-fields :
    (m : Machine) (calc : CString)
    → fields_shown (midr_lines m calc midr_entries)
      ≡ midr_fields (breakout_applymask (number_of m calc))
unfolding midr_lines midr_entries request_of expand row_entries bitfield_armv8a_table
    breakout_applymask element_of bitfield_result
midr_lines-fields m calc = refl

midr_fields-bits :
    (v : ℕ) → midr_fields (breakout_applymask v) ≡ midr_fields (λ s w. v / 2 ^ s % 2 ^ w)
midr_fields-bits v =
    let revision = breakout_applymask-div v 0 4 (omega arith) in
    let part = breakout_applymask-div v 4 12 (omega arith) in
    let architecture = breakout_applymask-div v 16 4 (omega arith) in
    let variant = breakout_applymask-div v 20 4 (omega arith) in
    let implementer = breakout_applymask-div v 24 8 (omega arith) in cc

-- Where the tables are those of ARMv7-A, ARMv8-A and the interrupt controller, and memory does not run out, the
-- command line `--register MIDR --arch=armv7a --impl=all --calc=VALUE`, for a text of fewer than 31 bytes, succeeds; the
-- results that it prints are those of the five fields of MIDR by name, each with its bits of the number that
-- is read from the text.
pub main-midr :
    (m : Machine) (g : Globals) (calc : CString)
    → length calc < max_calc_buffer - 1
    → (lines : List Line) × Yields
        (main
          (with_tables m)
          g
          (opt_register ∷ opt_arch (cstr "armv7a") ∷ opt_impl (cstr "all") ∷ opt_calc calc ∷ [])
          (some midr_operand))
        (success, lines)
      × (fields_shown lines ≡ midr_fields (λ s w. number_of m calc / 2 ^ s % 2 ^ w))
unfolding midr_lines
main-midr m g calc short =
    let found =
      keep (wanted (request_for (with_tables m) 0 7 (cstr "MIDR") calc))
        (expand 0 0 architecture_rows) in
    (
      midr_lines m calc midr_entries,
      subst
          (λ l.
            Yields
              (main (with_tables m) g
                (opt_register
                  ∷ opt_arch (cstr "armv7a")
                  ∷ opt_impl (cstr "all")
                  ∷ opt_calc calc
                  ∷ [])
                (some midr_operand))
              (success, midr_lines m calc l))
          (midr-wanted m calc)
          (main-calc (with_tables m) g architecture_rows-AreSized architecture_rows-Unique
            (cstr "armv7a") (cstr "all") calc midr_operand 0 7 ms_sysreg_midr (omega arith)
            (omega arith) short (known_architecture) (known_implementation)
            (subst (λ l. l ≢ []) (sym (midr-wanted m calc)) midr_there)
            (subst (OneRegister ms_sysreg_midr) (sym (midr-wanted m calc)) midr_one)),
      midr_lines-fields m calc ∙ midr_fields-bits (number_of m calc),
    )
