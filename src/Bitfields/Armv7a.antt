-- ===== src/Bitfields/Armv7a.antt =====
-- lib/src/bitfields/bitfield_armv7a.c: `bitfield_armv7a_table`.
mod Ident1
mod Ident2
mod Float
mod Security
mod Debug
mod Memory1
mod Memory2
mod Monitor
mod Other
mod Status
use maplesyrup.Base.{List, ◌++◌}
use maplesyrup.Structs.{BitfieldInfo}
use Ident1.{armv7a_ident_1}
use Ident2.{armv7a_ident_2}
use Float.{armv7a_float}
use Security.{armv7a_security}
use Debug.{armv7a_debug}
use Memory1.{armv7a_memory_1}
use Memory2.{armv7a_memory_2}
use Monitor.{armv7a_monitor}
use Other.{armv7a_other}
use Status.{armv7a_status}

unfoldable pub bitfield_armv7a_table : List BitfieldInfo
unfolding armv7a_ident_1 armv7a_ident_2 armv7a_float armv7a_security armv7a_debug armv7a_memory_1
    armv7a_memory_2 armv7a_monitor armv7a_other armv7a_status
bitfield_armv7a_table =
    armv7a_ident_1 ++ armv7a_ident_2 ++ armv7a_float ++ armv7a_security ++ armv7a_debug
    ++ armv7a_memory_1 ++ armv7a_memory_2 ++ armv7a_monitor ++ armv7a_other ++ armv7a_status
