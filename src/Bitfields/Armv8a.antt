-- ===== src/Bitfields/Armv8a.antt =====
-- lib/src/bitfields/bitfield_armv8a.c: `bitfield_armv8a_table`.
mod Ident1
mod Ident2
mod Ident3
mod Float
mod Debug
mod Memory
mod Monitor
mod Thumb
mod Special
use maplesyrup.Base.{List, ◌++◌}
use maplesyrup.Structs.{BitfieldInfo}
use Ident1.{armv8a_ident_1}
use Ident2.{armv8a_ident_2}
use Ident3.{armv8a_ident_3}
use Float.{armv8a_float}
use Debug.{armv8a_debug}
use Memory.{armv8a_memory}
use Monitor.{armv8a_monitor}
use Thumb.{armv8a_thumb}
use Special.{armv8a_special}

unfoldable pub bitfield_armv8a_table : List BitfieldInfo
unfolding armv8a_ident_1 armv8a_ident_2 armv8a_ident_3 armv8a_float armv8a_debug armv8a_memory
    armv8a_monitor armv8a_thumb armv8a_special
bitfield_armv8a_table =
    armv8a_ident_1 ++ armv8a_ident_2 ++ armv8a_ident_3 ++ armv8a_float ++ armv8a_debug
    ++ armv8a_memory ++ armv8a_monitor ++ armv8a_thumb ++ armv8a_special
