-- ===== src/Breakout/Parts.antt =====
-- The part numbers of lib/src/parse_breakout.c: from an implementation or a MIDR to an architecture, and
-- to the names that are shown. A function that fills a buffer returns what it puts there, or `none` if
-- it returns -1; `get_error_string` returns a text always.
pub mod Agree
use maplesyrup.Base.{
  ℕ, ◌-◌, ◌^◌, ◌||◌, Option, none, some, CString, cstr, strncpy, ◌==◌, if◌then◌else◌, bit_and,
}
use maplesyrup.Structs.{
  minus_one, parse_max_partnumber, arch_armv7a, arch_armv8a, impl_cortex_a7, impl_cortex_a9,
  impl_cortex_a15, impl_cortex_a53, impl_cortex_a57, gicc_v2, gicd_v2, gich_v2, gicv_v2,
  ms_error_success, ms_error_illinst, ms_error_undefinst, ms_error_smp, ms_error_smp_single,
  ms_error_table,
}
use maplesyrup.Mscode.{mscode_partnumber, shr32}

abbrev pub ppn_cortex_a7 : ℕ
ppn_cortex_a7 = 0xC07

abbrev pub ppn_cortex_a9 : ℕ
ppn_cortex_a9 = 0xC09

abbrev pub ppn_cortex_a15 : ℕ
ppn_cortex_a15 = 0xC0F

abbrev pub ppn_cortex_a53 : ℕ
ppn_cortex_a53 = 0xD03

abbrev pub ppn_cortex_a57 : ℕ
ppn_cortex_a57 = 0xD07

-- An int result that is compared with unsigned numbers: -1 is `minus_one`.
unfoldable pub get_arch_from_impl : ℕ → ℕ
get_arch_from_impl impl =
    if impl == impl_cortex_a15
    then arch_armv7a
    else (if impl == impl_cortex_a7
        then arch_armv7a
        else (if impl == impl_cortex_a9
            then arch_armv7a
            else (if impl == impl_cortex_a53
                then arch_armv8a
                else (if impl == impl_cortex_a57 then arch_armv8a else minus_one))))

abbrev pub part_number_of_midr : ℕ → ℕ
part_number_of_midr midr = bit_and (shr32 midr 4) 0xFFF

-- The switch on the part number of a MIDR, with what each case returns.
abbrev pub switch_ppn {ℓ} : {A : Type ℓ} → ℕ → (a7 a9 a15 a53 a57 default : A) → A
switch_ppn ppn a7 a9 a15 a53 a57 default =
    if ppn == ppn_cortex_a7
    then a7
    else (if ppn == ppn_cortex_a9
        then a9
        else (if ppn == ppn_cortex_a15
            then a15
            else (if ppn == ppn_cortex_a53
                then a53
                else (if ppn == ppn_cortex_a57 then a57 else default))))

unfoldable pub get_arch_from_midr : ℕ → ℕ
unfolding get_arch_from_impl
get_arch_from_midr midr =
    switch_ppn (part_number_of_midr midr) (get_arch_from_impl impl_cortex_a7)
      (get_arch_from_impl impl_cortex_a9) (get_arch_from_impl impl_cortex_a15)
      (get_arch_from_impl impl_cortex_a53) (get_arch_from_impl impl_cortex_a57) minus_one

unfoldable pub get_impl_from_midr : ℕ → ℕ
get_impl_from_midr midr =
    switch_ppn (part_number_of_midr midr) impl_cortex_a7 impl_cortex_a9 impl_cortex_a15
      impl_cortex_a53 impl_cortex_a57 minus_one

abbrev named : CString → Option CString
named s = some (strncpy s (parse_max_partnumber - 1))

unfoldable pub get_partnumber_from_midr : ℕ → Option CString
get_partnumber_from_midr midr =
    switch_ppn (part_number_of_midr midr) (named (cstr "cortex-a7")) (named (cstr "cortex-a9"))
      (named (cstr "cortex-a15")) (named (cstr "cortex-a53")) (named (cstr "cortex-a57")) none

-- Always 0: a number that names no table is "unknown".
unfoldable pub get_decode_table : ℕ → CString
unfolding mscode_partnumber
get_decode_table uid =
    let index = mscode_partnumber uid in
    let copy = λ (s : CString). strncpy s (parse_max_partnumber - 1) in
    if index == arch_armv7a
    then copy (cstr "armv7a")
    else (if index == arch_armv8a
        then copy (cstr "armv8a")
        else (if index == impl_cortex_a7
            then copy (cstr "cortex-a7")
            else (if index == impl_cortex_a15
                then copy (cstr "cortex-a15")
                else (if index == impl_cortex_a53
                    then copy (cstr "cortex-a53")
                    else (if index == impl_cortex_a57
                        then copy (cstr "cortex-a57")
                        else (if (index == gicc_v2)
                              || ((index == gicd_v2) || ((index == gich_v2) || (index == gicv_v2)))
                            then copy (cstr "gicv2")
                            else copy (cstr "unknown")))))))

unfoldable pub get_error_string : ℕ → CString
get_error_string errval =
    if errval == ms_error_success
    then cstr "Success"
    else (if errval == ms_error_illinst
        then cstr "Illegal Instruction"
        else (if errval == ms_error_undefinst
            then cstr "Undefined Instruction"
            else (if errval == ms_error_smp
                then cstr "SMP error"
                else (if errval == ms_error_table
                    then cstr "Error reading table"
                    else (if errval == ms_error_smp_single
                        then cstr "Error scheduling thread"
                        else cstr "Internal error")))))
