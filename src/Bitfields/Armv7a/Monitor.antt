-- ===== src/Bitfields/Armv7a/Monitor.antt =====
-- lib/src/bitfields/bitfield_armv7a.c: rows of `bitfield_armv7a_table`.
use maplesyrup.Base.{List, [], ◌∷◌}
use maplesyrup.Structs.{BitfieldInfo, ns_privilege_level_1}
use maplesyrup.Bitfields.{row, ns_all}
use maplesyrup.Registers.{
  ms_sysreg_pmccntr, ms_sysreg_pmceid0, ms_sysreg_pmceid1, ms_sysreg_pmcntenclr,
  ms_sysreg_pmcntenset, ms_sysreg_pmcr, ms_sysreg_pmintenclr, ms_sysreg_pmintenset,
  ms_sysreg_pmovsr, ms_sysreg_pmovsset, ms_sysreg_pmselr, ms_sysreg_pmswinc, ms_sysreg_pmuserenr,
  ms_sysreg_pmxevcntr, ms_sysreg_pmxevtyper,
}

unfoldable pub armv7a_monitor : List BitfieldInfo
armv7a_monitor =
    row 1 0 ms_sysreg_pmccntr ns_privilege_level_1 0 32 "CCNT" "perfmon" "PMCCNTR" "Cycle count"
    ∷ row 1 0 ms_sysreg_pmceid0 ns_privilege_level_1 0 1 "0x00" "perfmon" "PMCEID0"
        "Software Increment"
    ∷ row 1 1 ms_sysreg_pmceid0 ns_privilege_level_1 1 1 "0x01" "perfmon" "PMCEID0"
        "Level 1 instruction cache refill"
    ∷ row 1 2 ms_sysreg_pmceid0 ns_privilege_level_1 2 1 "0x02" "perfmon" "PMCEID0"
        "Level 1 instruction TLB refill"
    ∷ row 1 3 ms_sysreg_pmceid0 ns_privilege_level_1 3 1 "0x03" "perfmon" "PMCEID0"
        "Level 1 data cache refill"
    ∷ row 1 4 ms_sysreg_pmceid0 ns_privilege_level_1 4 1 "0x04" "perfmon" "PMCEID0"
        "Level 1 data cache access"
    ∷ row 1 5 ms_sysreg_pmceid0 ns_privilege_level_1 5 1 "0x05" "perfmon" "PMCEID0"
        "Level 1 data TLB refill"
    ∷ row 1 6 ms_sysreg_pmceid0 ns_privilege_level_1 6 1 "0x06" "perfmon" "PMCEID0" "Load"
    ∷ row 1 7 ms_sysreg_pmceid0 ns_privilege_level_1 7 1 "0x07" "perfmon" "PMCEID0" "Store"
    ∷ row 1 8 ms_sysreg_pmceid0 ns_privilege_level_1 8 1 "0x08" "perfmon" "PMCEID0"
        "Instruction architecturally executed"
    ∷ row 1 9 ms_sysreg_pmceid0 ns_privilege_level_1 9 1 "0x09" "perfmon" "PMCEID0"
        "Exception taken"
    ∷ row 1 10 ms_sysreg_pmceid0 ns_privilege_level_1 10 1 "0x0A" "perfmon" "PMCEID0"
        "Exception return"
    ∷ row 1 11 ms_sysreg_pmceid0 ns_privilege_level_1 11 1 "0x0B" "perfmon" "PMCEID0"
        "Write to CONTEXTIDR"
    ∷ row 1 12 ms_sysreg_pmceid0 ns_privilege_level_1 12 1 "0x0C" "perfmon" "PMCEID0"
        "Software change of the PC"
    ∷ row 1 13 ms_sysreg_pmceid0 ns_privilege_level_1 13 1 "0x0D" "perfmon" "PMCEID0"
        "Immediate Branch"
    ∷ row 1 14 ms_sysreg_pmceid0 ns_privilege_level_1 14 1 "0x0E" "perfmon" "PMCEID0"
        "Procedure return"
    ∷ row 1 15 ms_sysreg_pmceid0 ns_privilege_level_1 15 1 "0x0F" "perfmon" "PMCEID0"
        "Unaligned load or store"
    ∷ row 1 16 ms_sysreg_pmceid0 ns_privilege_level_1 16 1 "0x10" "perfmon" "PMCEID0"
        "Speculative execution"
    ∷ row 1 17 ms_sysreg_pmceid0 ns_privilege_level_1 17 1 "0x11" "perfmon" "PMCEID0" "Cycle"
    ∷ row 1 18 ms_sysreg_pmceid0 ns_privilege_level_1 18 1 "0x12" "perfmon" "PMCEID0"
        "Predictable branch speculatively executed"
    ∷ row 1 19 ms_sysreg_pmceid0 ns_privilege_level_1 19 1 "0x13" "perfmon" "PMCEID0"
        "Data memory access"
    ∷ row 1 20 ms_sysreg_pmceid0 ns_privilege_level_1 20 1 "0x14" "perfmon" "PMCEID0"
        "Level 1 instruction cache access"
    ∷ row 1 21 ms_sysreg_pmceid0 ns_privilege_level_1 21 1 "0x15" "perfmon" "PMCEID0"
        "Level 1 data cache write-back"
    ∷ row 1 22 ms_sysreg_pmceid0 ns_privilege_level_1 22 1 "0x16" "perfmon" "PMCEID0"
        "Level 2 data cache access"
    ∷ row 1 23 ms_sysreg_pmceid0 ns_privilege_level_1 23 1 "0x17" "perfmon" "PMCEID0"
        "Level 2 data cache refill"
    ∷ row 1 24 ms_sysreg_pmceid0 ns_privilege_level_1 24 1 "0x18" "perfmon" "PMCEID0"
        "Level 2 data cache write-back"
    ∷ row 1 25 ms_sysreg_pmceid0 ns_privilege_level_1 25 1 "0x19" "perfmon" "PMCEID0" "Bus access"
    ∷ row 1 26 ms_sysreg_pmceid0 ns_privilege_level_1 26 1 "0x1A" "perfmon" "PMCEID0"
        "Local memory error"
    ∷ row 1 27 ms_sysreg_pmceid0 ns_privilege_level_1 27 1 "0x1B" "perfmon" "PMCEID0"
        "Instruction speculatively executed"
    ∷ row 1 28 ms_sysreg_pmceid0 ns_privilege_level_1 28 1 "0x1C" "perfmon" "PMCEID0"
        "Write to TTBR"
    ∷ row 1 29 ms_sysreg_pmceid0 ns_privilege_level_1 29 1 "0x1D" "perfmon" "PMCEID0" "Bus cycle"
    ∷ row 1 30 ms_sysreg_pmceid0 ns_privilege_level_1 30 1 "0x1E" "perfmon" "PMCEID0" "Reserved"
    ∷ row 1 31 ms_sysreg_pmceid0 ns_privilege_level_1 31 1 "0x1F" "perfmon" "PMCEID0" "Reserved"
    ∷ row 1 0 ms_sysreg_pmceid1 ns_privilege_level_1 0 32 "Implementation Defined" "perfmon"
        "PMCEID1" "Implementation Defined"
    ∷ row 1 0 ms_sysreg_pmcntenclr ns_privilege_level_1 0 32 "Implementation Defined" "perfmon"
        "PMCNTENCLR" "Implementation Defined"
    ∷ row 1 0 ms_sysreg_pmcntenset ns_privilege_level_1 0 32 "Implementation Defined" "perfmon"
        "PMCNTENSET" "Implementation Defined"
    ∷ row 1 0 ms_sysreg_pmintenset ns_privilege_level_1 0 32 "Implementation Defined" "perfmon"
        "PMINTENSET" "Implementation Defined"
    ∷ row 1 0 ms_sysreg_pmintenclr ns_privilege_level_1 0 32 "Implementation Defined" "perfmon"
        "PMINTENCLR" "Implementation Defined"
    ∷ row 1 0 ms_sysreg_pmovsr ns_privilege_level_1 0 32 "Implementation Defined" "perfmon" "PMOVSR"
        "Implementation Defined"
    ∷ row 1 0 ms_sysreg_pmovsset ns_privilege_level_1 0 32 "Implementation Defined" "perfmon"
        "PMOVSSET" "Implementation Defined"
    ∷ row 1 0 ms_sysreg_pmselr ns_privilege_level_1 0 5 "SELR" "perfmon" "PMSELR"
        "Selects event counter"
    ∷ row 1 1 ms_sysreg_pmselr ns_privilege_level_1 5 27 "Reserved" "perfmon" "PMSELR" "Reserved"
    ∷ row 1 0 ms_sysreg_pmswinc ns_privilege_level_1 0 32 "Implementation Defined" "perfmon"
        "PMSWINC" "Implementation Defined"
    ∷ row 1 0 ms_sysreg_pmuserenr ns_privilege_level_1 0 1 "EN" "perfmon" "PMUSERENR"
        "User mode access enable bit"
    ∷ row 1 1 ms_sysreg_pmuserenr ns_privilege_level_1 1 31 "Reserved" "perfmon" "PMUSERENR"
        "Reserved"
    ∷ row 1 0 ms_sysreg_pmxevcntr ns_privilege_level_1 0 32 "PMNx" "perfmon" "PMXEVCNTR"
        "Value of selected event counter"
    ∷ row 1 0 ms_sysreg_pmxevtyper ns_privilege_level_1 0 8 "evtCount" "perfmon" "PMXEVTYPER"
        "Event to count"
    ∷ row 1 1 ms_sysreg_pmxevtyper ns_privilege_level_1 8 19 "Reserved" "perfmon" "PMXEVTYPER"
        "Reserved"
    ∷ row 1 2 ms_sysreg_pmxevtyper ns_privilege_level_1 27 1 "NSH" "perfmon" "PMXEVTYPER"
        "Non-secure PL2 enable"
    ∷ row 1 3 ms_sysreg_pmxevtyper ns_privilege_level_1 28 1 "NSU" "perfmon" "PMXEVTYPER"
        "Non-secure unprivileged control bit"
    ∷ row 1 4 ms_sysreg_pmxevtyper ns_privilege_level_1 29 1 "NSK" "perfmon" "PMXEVTYPER"
        "Non-secure PL1 control bit"
    ∷ row 1 5 ms_sysreg_pmxevtyper ns_privilege_level_1 30 1 "U" "perfmon" "PMXEVTYPER"
        "Unprivileged execution filtering bit"
    ∷ row 1 6 ms_sysreg_pmxevtyper ns_privilege_level_1 31 1 "P" "perfmon" "PMXEVTYPER"
        "Privileged execution filtering bit"
    ∷ row 1 0 ms_sysreg_pmcr ns_all 0 1 "E" "perfmon" "PMCR" "All counters enable"
    ∷ row 1 1 ms_sysreg_pmcr ns_all 1 1 "P" "perfmon" "PMCR" "Event counter reset"
    ∷ row 1 2 ms_sysreg_pmcr ns_all 2 1 "C" "perfmon" "PMCR" "Cycle counter reset"
    ∷ row 1 3 ms_sysreg_pmcr ns_all 3 1 "D" "perfmon" "PMCR" "Cycle counter clock divider"
    ∷ row 1 4 ms_sysreg_pmcr ns_all 4 1 "X" "perfmon" "PMCR" "Export enable"
    ∷ row 1 5 ms_sysreg_pmcr ns_all 5 1 "DP" "perfmon" "PMCR"
        "Disable PMCCNTR when event counting is prohibited"
    ∷ row 1 6 ms_sysreg_pmcr ns_all 6 5 "Rerverced" "perfmon" "PMCR" "Reserved"
    ∷ row 1 7 ms_sysreg_pmcr ns_all 11 5 "N" "perfmon" "PMCR" "Number of event counters"
    ∷ row 1 8 ms_sysreg_pmcr ns_all 16 8 "IDCODE" "perfmon" "PMCR" "Identification Code"
    ∷ row 1 9 ms_sysreg_pmcr ns_all 24 8 "Implementation Defined" "perfmon" "PMCR"
        "Implementer Code"
    ∷ []
