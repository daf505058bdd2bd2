-- ===== src/Bitfields/Gicd.antt =====
-- lib/src/bitfields/bitfield_gicv2.c: `bitfield_gicdv2_table`.
mod Rows
use maplesyrup.Base.{List, ◌++◌}
use maplesyrup.Structs.{BitfieldInfo}
use Rows.{gicd_rows}

unfoldable pub bitfield_gicdv2_table : List BitfieldInfo
unfolding gicd_rows
bitfield_gicdv2_table = gicd_rows
