-- ===== src/Bitfields/Gicc.antt =====
-- lib/src/bitfields/bitfield_gicv2.c: `bitfield_giccv2_table`.
mod Rows
use maplesyrup.Base.{List, ◌++◌}
use maplesyrup.Structs.{BitfieldInfo}
use Rows.{gicc_rows}

unfoldable pub bitfield_giccv2_table : List BitfieldInfo
unfolding gicc_rows
bitfield_giccv2_table = gicc_rows
