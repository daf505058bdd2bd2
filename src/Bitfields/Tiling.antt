-- ===== src/Bitfields/Tiling.antt =====
-- The rows of the tables of lib/src/bitfields against the bits of the registers.
use maplesyrup.Base.{
  ℕ, ◌+◌, ◌%◌, ◌^◌, ◌≡◌, refl, ◌⊎◌, inl, inr, Bool, true, false, ◌&&◌, ◌||◌, List, [], ◌∷◌, map,
  keep, some_of, all_of, ◌==◌, leb, Bool-cases, arith,
}
use mathlib.Core.Path.{subst}
use maplesyrup.Structs.{BitfieldInfo}
use maplesyrup.Mask.Tile.{Field, Tiles, reassemble, reassemble-value}
use maplesyrup.Registers.{
  ms_sysreg_fpsid, ms_sysreg_fpexc, ms_sysreg_contextidr, ms_sysreg_fcseidr, ms_sysreg_par,
  ms_sysreg_mmfr4, ms_sysreg_mvfr2, ms_sysreg_cpacr, ms_gic_gicd_reserved_04,
}
use maplesyrup.Bitfields.Armv7a.{bitfield_armv7a_table}
use maplesyrup.Bitfields.Armv8a.{bitfield_armv8a_table}
use maplesyrup.Bitfields.Gicd.{bitfield_gicdv2_table}
use maplesyrup.Bitfields.Gicc.{bitfield_giccv2_table}

abbrev pub field_of : BitfieldInfo → Field
field_of x = record { rightshift = x.rightshift; mask = x.mask }

-- The fields that the table has for a register, in order.
abbrev pub fields_of : List BitfieldInfo → ℕ → List Field
fields_of table r = map field_of (keep (λ x. x.register_uid == r) table)

abbrev pub tiles? : ℕ → ℕ → List Field → Bool
tiles? lo hi [] = lo == hi
tiles? lo hi (f ∷ fs) = (f.rightshift == lo) && leb f.mask 64 && tiles? (lo + f.mask) hi fs

tiles?-Tiles : (lo hi : ℕ) (fs : List Field) → tiles? lo hi fs ≡ true → Tiles lo hi fs
tiles?-Tiles lo hi [] h = ground arith
tiles?-Tiles lo hi (f ∷ fs) h = ground (arith, tiles?-Tiles (lo + f.mask) hi fs)

abbrev pub is_tiled : List BitfieldInfo → ℕ → Bool
is_tiled table r = tiles? 0 32 (fields_of table r) || tiles? 0 64 (fields_of table r)

abbrev pub has_row : List BitfieldInfo → ℕ → Bool
has_row table r = some_of (λ x. x.register_uid == r) table

abbrev all_tiled : (ℕ → Bool) → List BitfieldInfo → List BitfieldInfo → Bool
all_tiled irregular table rows =
    all_of (λ x. irregular x.register_uid || is_tiled table x.register_uid) rows

-- A check of all the rows holds of every register that has one.
all_tiled-register :
    (irregular : ℕ → Bool) (table rows : List BitfieldInfo) (r : ℕ)
    → all_tiled irregular table rows ≡ true
    → has_row rows r ≡ true
    → irregular r ≡ false
    → is_tiled table r ≡ true
all_tiled-register irregular table [] r all has regular = ground arith
all_tiled-register irregular table (x ∷ rows) r all has regular =
    elim (Bool-cases (x.register_uid == r)) [
      | inl here ↦
          let same : x.register_uid ≡ r = ground arith in
          subst (λ i. irregular i ≡ false → is_tiled table i ≡ true) same
            (λ (regular' : irregular x.register_uid ≡ false). ground arith) regular
      | inr later ↦ all_tiled-register irregular table rows r (ground arith) (ground arith) regular
    ]

reassemble-tiled :
    (value r : ℕ) (table : List BitfieldInfo)
    → is_tiled table r ≡ true
    → (reassemble value (fields_of table r) ≡ value % 2 ^ 32)
      ⊎ (reassemble value (fields_of table r) ≡ value % 2 ^ 64)
reassemble-tiled value r table tiled = elim (Bool-cases (tiles? 0 32 (fields_of table r))) [
  | inl short ↦
      inl (
        reassemble-value value 32 (fields_of table r) (tiles?-Tiles 0 32 (fields_of table r) short))
  | inr other ↦
      let long : tiles? 0 64 (fields_of table r) ≡ true = ground arith in
      inr
        (reassemble-value value 64 (fields_of table r) (tiles?-Tiles 0 64 (fields_of table r) long))
]

-- The tables of bitfields.
pub data Table : Type 0 where
  armv7a armv8a gicd gicc : Table

unfoldable pub rows_of : Table → List BitfieldInfo
unfolding bitfield_armv7a_table bitfield_armv8a_table bitfield_gicdv2_table bitfield_giccv2_table
rows_of armv7a = bitfield_armv7a_table
rows_of armv8a = bitfield_armv8a_table
rows_of gicd = bitfield_gicdv2_table
rows_of gicc = bitfield_giccv2_table

-- Registers with a gap between their rows, with rows for more or fewer bits than they have, with two
-- sets of rows for two layouts, or with rows that all begin at bit 0.
abbrev pub is_irregular : Table → ℕ → Bool
is_irregular armv7a r =
    r == ms_sysreg_fpsid
    || r == ms_sysreg_fpexc
    || r == ms_sysreg_contextidr
    || r == ms_sysreg_fcseidr
    || r == ms_sysreg_par
is_irregular armv8a r =
    r == ms_sysreg_fpsid
    || r == ms_sysreg_fpexc
    || r == ms_sysreg_contextidr
    || r == ms_sysreg_mmfr4
    || r == ms_sysreg_mvfr2
    || r == ms_sysreg_cpacr
is_irregular gicd r = r == ms_gic_gicd_reserved_04
is_irregular gicc r = false

rows_of-tiled : (t : Table) → all_tiled (is_irregular t) (rows_of t) (rows_of t) ≡ true
unfolding rows_of
rows_of-tiled armv7a = refl
rows_of-tiled armv8a = refl
rows_of-tiled gicd = refl
rows_of-tiled gicc = refl

-- Of each register that a table has rows for, a named few apart, the rows lose nothing: the values that
-- `breakout_applymask` takes out of any value with them, put back at their shifts, are its low 32 bits,
-- or its low 64.
pub rows_of-reassemble :
    (t : Table) (r value : ℕ)
    → has_row (rows_of t) r ≡ true
    → is_irregular t r ≡ false
    → (reassemble value (fields_of (rows_of t) r) ≡ value % 2 ^ 32)
      ⊎ (reassemble value (fields_of (rows_of t) r) ≡ value % 2 ^ 64)
rows_of-reassemble t r value has regular =
    reassemble-tiled value r (rows_of t)
      (all_tiled-register (is_irregular t) (rows_of t) (rows_of t) r (rows_of-tiled t) has regular)
