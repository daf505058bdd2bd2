-- ===== src/Kernel/Gic.antt =====
-- module/gic.c: the registers of the interrupt controller, which are memory that was mapped, and
-- common/intc.h.
pub mod Bar
use maplesyrup.Base.{ℕ, ◌+◌, ◌%◌, ◌^◌, Option, none, some, get_elem?, ◌==◌, if◌then◌else◌}
use maplesyrup.Structs.{
  Status, success, failure, MsData, MsDataCpu, ms_error_success, gicc_v2, gicd_v2, gich_v2, gicv_v2,
}
use maplesyrup.Mscode.{mscode_field}
use maplesyrup.Kernel.{
  Machine, Wrapper, zero_wrapper, with_entry, ◌>>=◌, unpack_result_wrapper, cpu_index_of,
}
use maplesyrup.Kernel.Read.{map_wrapper, kicked}

-- The three members that `ms_gic_map` has for each interface; 0 is NULL.
pub record Interface : Type 0 where
  pub phys : ℕ
  pub virt : ℕ
  pub size : ℕ

pub record MsGicMap : Type 0 where
  pub gicc : Interface
  pub gicd : Interface
  pub gich : Interface
  pub gicv : Interface

-- The entry after a read, with 32 bits of it.
unfoldable pub bar_entry : Machine → (cpu_index address : ℕ) → MsData → MsData
bar_entry k i address d = record d {
  out64 = 0;
  out2 = 0;
  cpu = i;
  out1 = k.readl_relaxed i address % 2 ^ 32;
  status = ms_error_success;
}

unfoldable pub gic_bar_read :
    Machine → (cpu undef_flag : ℕ) → Option Wrapper → Option (ℕ × Option Wrapper)
unfolding ◌>>=◌ cpu_index_of bar_entry mscode_field
gic_bar_read k cpu undef_flag none = some (undef_flag, none)
gic_bar_read k cpu undef_flag (some w) =
    if w.base_addr == 0
    then some (undef_flag, some w)
    else (let i = cpu_index_of k cpu in
        (do
          entry ← get_elem? w.results.cpu i
          let address = w.base_addr + mscode_field w.results.code
          some (undef_flag, some (with_entry w i (bar_entry k i address entry)))))

-- The switch over the part number; `none` for one that is no interface.
unfoldable pub base_of : MsGicMap → ℕ → Option ℕ
base_of gic_map part_number =
    if part_number == gicc_v2
    then some gic_map.gicc.virt
    else (if part_number == gicd_v2
        then some gic_map.gicd.virt
        else (if part_number == gich_v2
            then some gic_map.gich.virt
            else (if part_number == gicv_v2 then some gic_map.gicv.virt else none)))

abbrev pub with_base : ℕ → Wrapper → Wrapper
with_base base w = record w { base_addr = base }

unfoldable pub gic_return_results :
    Machine
    → MsGicMap
    → (undef_flag : ℕ) → Option MsDataCpu
    → Option (Status × ℕ × Option MsDataCpu)
unfolding unpack_result_wrapper base_of gic_bar_read kicked
gic_return_results k gic_map undef_flag none = some (failure, undef_flag, none)
gic_return_results k gic_map undef_flag (some result_out) =
    let (unpacked, w) = unpack_result_wrapper (some result_out) (some zero_wrapper) in
    elim unpacked [
      | failure ↦ some (failure, undef_flag, some result_out)
      | success ↦ elim (base_of gic_map result_out.part_number) [
        | none ↦ some (failure, undef_flag, some result_out)
        | some base ↦
            kicked k (gic_bar_read k) undef_flag (map_wrapper (with_base base) w) (some result_out)
      ]
    ]
