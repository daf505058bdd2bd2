-- ===== src/Bitfields/Armv7a/Memory1.antt =====
-- lib/src/bitfields/bitfield_armv7a.c: rows of `bitfield_armv7a_table`.
use maplesyrup.Base.{List, [], ◌∷◌}
use maplesyrup.Structs.{BitfieldInfo, ns_privilege_level_1}
use maplesyrup.Bitfields.{row}
use maplesyrup.Registers.{ms_sysreg_nmrr, ms_sysreg_prrr, ms_sysreg_sctlr}

unfoldable pub armv7a_memory_1 : List BitfieldInfo
armv7a_memory_1 =
    row 1 0 ms_sysreg_nmrr ns_privilege_level_1 0 2 "IR0" "virtmem" "NMRR"
      "Inner Cacheable property 0"
    ∷ row 1 1 ms_sysreg_nmrr ns_privilege_level_1 2 2 "IR1" "virtmem" "NMRR"
        "Inner Cacheable property 1"
    ∷ row 1 2 ms_sysreg_nmrr ns_privilege_level_1 4 2 "IR2" "virtmem" "NMRR"
        "Inner Cacheable property 2"
    ∷ row 1 3 ms_sysreg_nmrr ns_privilege_level_1 6 2 "IR3" "virtmem" "NMRR"
        "Inner Cacheable property 3"
    ∷ row 1 4 ms_sysreg_nmrr ns_privilege_level_1 8 2 "IR4" "virtmem" "NMRR"
        "Inner Cacheable property 4"
    ∷ row 1 5 ms_sysreg_nmrr ns_privilege_level_1 10 2 "IR5" "virtmem" "NMRR"
        "Inner Cacheable property 5"
    ∷ row 1 6 ms_sysreg_nmrr ns_privilege_level_1 12 2 "IR6" "virtmem" "NMRR"
        "Inner Cacheable property 6"
    ∷ row 1 7 ms_sysreg_nmrr ns_privilege_level_1 14 2 "IR7" "virtmem" "NMRR"
        "Inner Cacheable property 7"
    ∷ row 1 8 ms_sysreg_nmrr ns_privilege_level_1 16 2 "OR0" "virtmem" "NMRR"
        "Outer Cacheable property 0"
    ∷ row 1 9 ms_sysreg_nmrr ns_privilege_level_1 18 2 "OR1" "virtmem" "NMRR"
        "Outer Cacheable property 1"
    ∷ row 1 10 ms_sysreg_nmrr ns_privilege_level_1 20 2 "OR2" "virtmem" "NMRR"
        "Outer Cacheable property 2"
    ∷ row 1 11 ms_sysreg_nmrr ns_privilege_level_1 22 2 "OR3" "virtmem" "NMRR"
        "Outer Cacheable property 3"
    ∷ row 1 12 ms_sysreg_nmrr ns_privilege_level_1 24 2 "OR4" "virtmem" "NMRR"
        "Outer Cacheable property 4"
    ∷ row 1 13 ms_sysreg_nmrr ns_privilege_level_1 26 2 "OR5" "virtmem" "NMRR"
        "Outer Cacheable property 5"
    ∷ row 1 14 ms_sysreg_nmrr ns_privilege_level_1 28 2 "OR6" "virtmem" "NMRR"
        "Outer Cacheable property 6"
    ∷ row 1 15 ms_sysreg_nmrr ns_privilege_level_1 30 2 "OR7" "virtmem" "NMRR"
        "Outer Cacheable property 7"
    ∷ row 1 0 ms_sysreg_prrr ns_privilege_level_1 0 2 "TR0" "virtmem" "PRRR" "Memory TEX mapping 0"
    ∷ row 1 1 ms_sysreg_prrr ns_privilege_level_1 2 2 "TR1" "virtmem" "PRRR" "Memory TEX mapping 1"
    ∷ row 1 2 ms_sysreg_prrr ns_privilege_level_1 4 2 "TR2" "virtmem" "PRRR" "Memory TEX mapping 2"
    ∷ row 1 3 ms_sysreg_prrr ns_privilege_level_1 6 2 "TR3" "virtmem" "PRRR" "Memory TEX mapping 3"
    ∷ row 1 4 ms_sysreg_prrr ns_privilege_level_1 8 2 "TR4" "virtmem" "PRRR" "Memory TEX mapping 4"
    ∷ row 1 5 ms_sysreg_prrr ns_privilege_level_1 10 2 "TR5" "virtmem" "PRRR" "Memory TEX mapping 5"
    ∷ row 1 6 ms_sysreg_prrr ns_privilege_level_1 12 2 "TR6" "virtmem" "PRRR" "Memory TEX mapping 6"
    ∷ row 1 7 ms_sysreg_prrr ns_privilege_level_1 14 2 "TR7" "virtmem" "PRRR" "Memory TEX mapping 7"
    ∷ row 1 8 ms_sysreg_prrr ns_privilege_level_1 16 1 "DS0" "virtmem" "PRRR"
        "Mapping of S = 0 attribute for device memory"
    ∷ row 1 9 ms_sysreg_prrr ns_privilege_level_1 17 1 "DS1" "virtmem" "PRRR"
        "Mapping of S = 1 attribute for device memory"
    ∷ row 1 10 ms_sysreg_prrr ns_privilege_level_1 18 1 "NS0" "virtmem" "PRRR"
        "Mapping of S = 0 attribute for normal memory"
    ∷ row 1 11 ms_sysreg_prrr ns_privilege_level_1 19 1 "NS1" "virtmem" "PRRR"
        "Mapping of S = 1 attribute for normal memory"
    ∷ row 1 12 ms_sysreg_prrr ns_privilege_level_1 20 4 "Reserved" "virtmem" "PRRR" "Reserved"
    ∷ row 1 13 ms_sysreg_prrr ns_privilege_level_1 24 1 "NOS0" "virtmem" "PRRR"
        "Outer Shareable property mapping 0"
    ∷ row 1 14 ms_sysreg_prrr ns_privilege_level_1 25 1 "NOS1" "virtmem" "PRRR"
        "Outer Shareable property mapping 1"
    ∷ row 1 15 ms_sysreg_prrr ns_privilege_level_1 26 1 "NOS2" "virtmem" "PRRR"
        "Outer Shareable property mapping 2"
    ∷ row 1 16 ms_sysreg_prrr ns_privilege_level_1 27 1 "NOS3" "virtmem" "PRRR"
        "Outer Shareable property mapping 3"
    ∷ row 1 17 ms_sysreg_prrr ns_privilege_level_1 28 1 "NOS4" "virtmem" "PRRR"
        "Outer Shareable property mapping 4"
    ∷ row 1 18 ms_sysreg_prrr ns_privilege_level_1 29 1 "NOS5" "virtmem" "PRRR"
        "Outer Shareable property mapping 5"
    ∷ row 1 19 ms_sysreg_prrr ns_privilege_level_1 30 1 "NOS6" "virtmem" "PRRR"
        "Outer Shareable property mapping 6"
    ∷ row 1 20 ms_sysreg_prrr ns_privilege_level_1 31 1 "NOS7" "virtmem" "PRRR"
        "Outer Shareable property mapping 7"
    ∷ row 1 0 ms_sysreg_sctlr ns_privilege_level_1 0 1 "M" "virtmem" "SCTLR" "MMU Enable"
    ∷ row 1 1 ms_sysreg_sctlr ns_privilege_level_1 1 1 "A" "virtmem" "SCTLR"
        "Alignment check enable"
    ∷ row 1 2 ms_sysreg_sctlr ns_privilege_level_1 2 1 "C" "virtmem" "SCTLR" "Cache enable"
    ∷ row 1 3 ms_sysreg_sctlr ns_privilege_level_1 3 2 "Reserved" "virtmem" "SCTLR" "Reserved"
    ∷ row 1 4 ms_sysreg_sctlr ns_privilege_level_1 5 1 "CP15BEN" "virtmem" "SCTLR"
        "CP15 barrier enable"
    ∷ row 1 5 ms_sysreg_sctlr ns_privilege_level_1 6 1 "Reserved" "virtmem" "SCTLR" "Reserved"
    ∷ row 1 6 ms_sysreg_sctlr ns_privilege_level_1 7 1 "B" "virtmem" "SCTLR" "Endianess"
    ∷ row 1 7 ms_sysreg_sctlr ns_privilege_level_1 8 2 "Reserved" "virtmem" "SCTLR" "Reserved"
    ∷ row 1 8 ms_sysreg_sctlr ns_privilege_level_1 10 1 "SW" "virtmem" "SCTLR" "SWP and SWPB enable"
    ∷ row 1 9 ms_sysreg_sctlr ns_privilege_level_1 11 1 "Z" "virtmem" "SCTLR"
        "Branch prediction enable"
    ∷ row 1 10 ms_sysreg_sctlr ns_privilege_level_1 12 1 "I" "virtmem" "SCTLR"
        "Instruction cache enable"
    ∷ row 1 11 ms_sysreg_sctlr ns_privilege_level_1 13 1 "V" "virtmem" "SCTLR" "Vectors bit"
    ∷ row 1 12 ms_sysreg_sctlr ns_privilege_level_1 14 1 "RR" "virtmem" "SCTLR" "Round Robin select"
    ∷ row 1 13 ms_sysreg_sctlr ns_privilege_level_1 15 1 "Reserved" "virtmem" "SCTLR" "Reserved"
    ∷ row 1 14 ms_sysreg_sctlr ns_privilege_level_1 16 1 "Reserved" "virtmem" "SCTLR" "Reserved"
    ∷ row 1 15 ms_sysreg_sctlr ns_privilege_level_1 17 1 "A" "virtmem" "SCTLR"
        "Hardware access flag enable"
    ∷ row 1 16 ms_sysreg_sctlr ns_privilege_level_1 18 1 "Reserved" "virtmem" "SCTLR" "Reserved"
    ∷ row 1 17 ms_sysreg_sctlr ns_privilege_level_1 19 1 "WXN" "virtmem" "SCTLR"
        "Write permission implies XN"
    ∷ row 1 18 ms_sysreg_sctlr ns_privilege_level_1 20 1 "UWXN" "virtmem" "SCTLR"
        "Unprivileged write permission implies PL1 XN"
    ∷ row 1 19 ms_sysreg_sctlr ns_privilege_level_1 21 1 "FI" "virtmem" "SCTLR"
        "Fast interrupts configuration enable"
    ∷ row 1 20 ms_sysreg_sctlr ns_privilege_level_1 22 1 "U" "virtmem" "SCTLR" "Alignment model"
    ∷ row 1 21 ms_sysreg_sctlr ns_privilege_level_1 23 1 "Reserved" "virtmem" "SCTLR" "Reserved"
    ∷ row 1 22 ms_sysreg_sctlr ns_privilege_level_1 24 1 "VE" "virtmem" "SCTLR"
        "Interrupt Vectors enable"
    ∷ row 1 23 ms_sysreg_sctlr ns_privilege_level_1 25 1 "EE" "virtmem" "SCTLR"
        "Exception Endianess"
    ∷ row 1 24 ms_sysreg_sctlr ns_privilege_level_1 26 1 "Reserved" "virtmem" "SCTLR" "Reserved"
    ∷ row 1 25 ms_sysreg_sctlr ns_privilege_level_1 27 1 "NMFI" "virtmem" "SCTLR"
        "Non-maskable FIQ support"
    ∷ row 1 26 ms_sysreg_sctlr ns_privilege_level_1 28 1 "TRE" "virtmem" "SCTLR" "TEX remap enable"
    ∷ row 1 27 ms_sysreg_sctlr ns_privilege_level_1 29 1 "AFE" "virtmem" "SCTLR"
        "Access flag enable"
    ∷ row 1 28 ms_sysreg_sctlr ns_privilege_level_1 30 1 "TE" "virtmem" "SCTLR"
        "Thumb Exception enable"
    ∷ row 1 29 ms_sysreg_sctlr ns_privilege_level_1 31 1 "Reserved" "virtmem" "SCTLR" "Reserved"
    ∷ []
