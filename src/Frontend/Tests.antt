-- ===== src/Frontend/Tests.antt =====
-- A command line for two fields of PFR0, and results with and without a failure.
use maplesyrup.Base.{
  ℕ, ◌/◌, ◌%◌, ◌^◌, List, keep, ◌≡◌, refl, arith, true, false, none, some, [], ◌∷◌, cstr,
}
use maplesyrup.Structs.{success, type_arch, arch_armv7a, ns_privilege_level_1}
use maplesyrup.Env.Yields.{Yields}
use maplesyrup.Mscode.{mscode, mscode_partnumber}
use maplesyrup.Breakout.Tables.{BitfieldTableEntry, Globals, system_entry}
use maplesyrup.Breakout.Tables.Expand.{expand, row_entries, AreSized}
use maplesyrup.Breakout.Search.{matches, applies}
use maplesyrup.Breakout.Search.Keep.{wanted}
use maplesyrup.Api.{MsBitfieldInfo}
use maplesyrup.Api.Match.{architecture_of, implementation_of}
use maplesyrup.Api.Find.{Machine}
use maplesyrup.Api.Find.Value.{request_of, value_array}
use maplesyrup.Registers.{ms_sysreg_pfr0}
use maplesyrup.Bitfields.{row}
use maplesyrup.Frontend.Main.Midr.{
  main-midr, with_tables, midr_operand, midr_fields, fields_shown, number_of,
}
use maplesyrup.Frontend.{opt_register, opt_arch, opt_impl, opt_calc, get_ppl_from_flag}
use maplesyrup.Frontend.Show.{Line, show_results}
use maplesyrup.Frontend.Show.Folds.{printed}
use maplesyrup.Frontend.Show.Lines.{show_results-printed}
use maplesyrup.Frontend.Main.{Operand, main}
use maplesyrup.Frontend.Main.Calc.{request_for, main-calc}

abbrev pfr0_rows : BitfieldTableEntry
pfr0_rows = record {
  table_type = type_arch;
  part_number = arch_armv7a;
  table_ptr =
      row 1 0 ms_sysreg_pfr0 ns_privilege_level_1 0 4 "State0" "ident" "PFR0"
        "ARM instruction set support"
      ∷ row 1 1 ms_sysreg_pfr0 ns_privilege_level_1 4 4 "State1" "ident" "PFR0"
          "Thumb instruction set support"
      ∷ [];
  table_size_ptr = 2;
  table_compsize_ptr = none;
}

sized : AreSized (pfr0_rows ∷ [])
sized = (
  (
    record {
      system = λ h. refl;
      device_size = λ h. absurd (omega arith);
      device_compsize = λ h. absurd (omega arith);
      names = (omega arith, (omega arith, tt));
    },
    tt,
  ),
  omega arith,
)

abbrev machine : Machine
machine = record {
  aarch64 = false;
  func_table = [];
  rows = pfr0_rows ∷ [];
  signals = true;
  opens = false;
  erange = false;
}

abbrev no_table : Globals
no_table = record { table_heap = none; table_size = 0 }

abbrev operand : Operand
operand = record { text = cstr "PFR0"; hex = 0 }

main-calc_example :
    Yields
      (main machine no_table
        (opt_register
          ∷ opt_arch (cstr "armv7a")
          ∷ opt_impl (cstr "all")
          ∷ opt_calc (cstr "0x1131")
          ∷ [])
        (some operand))
      (
        success,
        printed 0 (
            value_array
              (expand 0 0 (pfr0_rows ∷ []))
              (request_for machine 0 7 (cstr "PFR0") (cstr "0x1131"))
              (keep
                (wanted (request_for machine 0 7 (cstr "PFR0") (cstr "0x1131")))
                (expand 0 0 (pfr0_rows ∷ [])))),
      )
unfolding request_of matches applies mscode mscode_partnumber expand row_entries system_entry
    architecture_of implementation_of
main-calc_example =
    main-calc machine no_table sized ((λ e. omega arith, tt), (tt, tt)) (cstr "armv7a") (cstr "all")
      (cstr "0x1131") operand 0 7 1 (omega arith) (omega arith) (omega arith) refl refl (λ e. cc e)
      (refl, (refl, tt))

main-midr_example :
    (lines : List Line) × Yields
      (main
        (with_tables machine)
        no_table
        (opt_register
          ∷ opt_arch (cstr "armv7a")
          ∷ opt_impl (cstr "all")
          ∷ opt_calc (cstr "0x410FC075")
          ∷ [])
        (some midr_operand))
      (success, lines)
    × (fields_shown lines
        ≡ midr_fields (λ s w. number_of machine (cstr "0x410FC075") / 2 ^ s % 2 ^ w))
main-midr_example = main-midr machine no_table (cstr "0x410FC075") (omega arith)

abbrev element : ℕ → MsBitfieldInfo
element status = record {
  cpu = 0;
  epl = 2;
  uid = 16;
  status = status;
  array_elements = 2;
  part_number = [];
  part_number_table = [];
  stamp = [];
  bitfield = [];
  functional_group = [];
  register_name = [];
  description = [];
  value = 5;
}

show_results-printed_example :
    Yields
      (show_results 0 (some (element 0 ∷ element 2 ∷ [])))
      (printed 0 (element 0 ∷ element 2 ∷ []))
show_results-printed_example =
    show_results-printed (element 0) (element 2 ∷ []) (refl, (refl, tt)) 0

both_levels : get_ppl_from_flag 1 1 ≡ 3
unfolding get_ppl_from_flag
both_levels = refl
