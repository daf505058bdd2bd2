-- ===== src/Kernel/Tree.antt =====
-- module/device_tree.c: the interrupt controller is looked up in the device tree, and its registers are
-- mapped. The memory that is mapped, and the nodes that are held, are kept along with `gic_map`.
pub mod Ledger
use maplesyrup.Base.{
  ℕ, ◌+◌, ◌-◌, ◌%◌, ◌^◌, Option, none, some, List, [], ◌∷◌, ◌++◌, ◌==◌, if◌then◌else◌, CString,
  cstr,
}
use maplesyrup.Structs.{Status, success, failure}
use maplesyrup.Kernel.Gic.{Interface, MsGicMap}

-- struct resource: its first address and the number of its bytes.
pub record Resource : Type 0 where
  pub start : ℕ
  pub size : ℕ

-- What the kernel answers. A node is the resources that of_address_to_resource finds in it, by index;
-- ioremap returns an address, or 0, and is asked once for each interface.
pub record Board : Type 0 where
  pub of_find_compatible_node : CString → Option (ℕ → Option Resource)
  pub ioremap : ℕ → Resource → ℕ

-- `gic_map`, the addresses that are mapped, and the number of nodes held.
pub record DtState : Type 0 where
  pub gic_map : MsGicMap
  pub mapped : List ℕ
  pub nodes : ℕ

abbrev pub no_interface : Interface
no_interface = record { phys = 0; virt = 0; size = 0 }

-- memset (&gic_map, 0, …)
abbrev pub zero_map : MsGicMap
zero_map = record {
  gicc = no_interface;
  gicd = no_interface;
  gich = no_interface;
  gicv = no_interface;
}

abbrev pub g_supported_gic : List CString
g_supported_gic =
    cstr "arm,cortex-a15-gic"
    ∷ cstr "arm,cortex-a7-gic"
    ∷ cstr "arm,cortex-a9-gic"
    ∷ cstr "arm,gic-400"
    ∷ []

-- The first of the names that a node is compatible with.
unfoldable pub first_node : Board → List CString → Option (ℕ → Option Resource)
first_node b [] = none
first_node b (name ∷ names) =
    let rest = first_node b names in
    elim (b.of_find_compatible_node name) [ some node ↦ some node | none ↦ rest ]

-- gic_size is an unsigned int; `virt` is left.
unfoldable pub found_at : Resource → Interface → Interface
found_at r i = record i { phys = r.start; size = r.size % 2 ^ 32 }

-- An interface that may be missing.
unfoldable pub may_find : Option Resource → Interface → Interface
unfolding found_at
may_find none i = i
may_find (some r) i = found_at r i

-- The two interfaces that have to be there, then the two that may be.
unfoldable pub read_node : (ℕ → Option Resource) → MsGicMap → Status × MsGicMap
unfolding found_at may_find
read_node node m = elim (node 0) [
  | none ↦ (failure, m)
  | some d ↦
      let m1 = record m { gicd = found_at d m.gicd } in
      elim (node 1) [
        | none ↦ (failure, m1)
        | some c ↦ (
          success,
          record m1 {
            gicc = found_at c m.gicc;
            gich = may_find (node 2) m.gich;
            gicv = may_find (node 3) m.gicv;
          },
        )
      ]
]

abbrev pub with_map : DtState → MsGicMap → DtState
with_map s m = record s { gic_map = m }

abbrev pub hold : DtState → DtState
hold s = record s { nodes = s.nodes + 1 }

-- of_node_put
abbrev pub node_put : DtState → DtState
node_put s = record s { nodes = s.nodes - 1 }

unfoldable pub ms_find_gic_devices : Board → DtState → Status × DtState
unfolding first_node read_node
ms_find_gic_devices b s = elim (first_node b g_supported_gic) [
  | none ↦ (failure, s)
  | some node ↦
      let (status, m) = read_node node s.gic_map in (status, node_put (with_map (hold s) m))
]

-- Maps an interface; its number is the index of its resource.
unfoldable pub remap : Board → ℕ → Interface → List ℕ → Status × Interface × List ℕ
remap b index i mapped =
    let addr = b.ioremap index (record { start = i.phys; size = i.size }) in
    if addr == 0
    then (failure, i, mapped)
    else (success, record i { virt = addr }, mapped ++ addr ∷ [])

-- One of the two that have to be there.
unfoldable pub remap_required : Board → ℕ → Interface → List ℕ → Status × Interface × List ℕ
unfolding remap
remap_required b index i mapped =
    if i.phys == 0 then (failure, i, mapped) else remap b index i mapped

unfoldable pub remap_optional : Board → ℕ → Interface → List ℕ → Status × Interface × List ℕ
unfolding remap
remap_optional b index i mapped =
    if i.phys == 0 then (success, i, mapped) else remap b index i mapped

-- What follows a step: the next one, unless it failed.
unfoldable pub and_then : Status × DtState → (DtState → Status × DtState) → Status × DtState
and_then (failure, s) k = (failure, s)
and_then (success, s) k = k s

abbrev pub set_gicd : DtState → Status × Interface × List ℕ → Status × DtState
set_gicd s (status, i, mapped) =
    (status, record s { gic_map = record s.gic_map { gicd = i }; mapped = mapped })

abbrev pub set_gicc : DtState → Status × Interface × List ℕ → Status × DtState
set_gicc s (status, i, mapped) =
    (status, record s { gic_map = record s.gic_map { gicc = i }; mapped = mapped })

abbrev pub set_gich : DtState → Status × Interface × List ℕ → Status × DtState
set_gich s (status, i, mapped) =
    (status, record s { gic_map = record s.gic_map { gich = i }; mapped = mapped })

abbrev pub set_gicv : DtState → Status × Interface × List ℕ → Status × DtState
set_gicv s (status, i, mapped) =
    (status, record s { gic_map = record s.gic_map { gicv = i }; mapped = mapped })

abbrev pub remap_gicd : Board → DtState → Status × DtState
remap_gicd b s = set_gicd s (remap_required b 0 s.gic_map.gicd s.mapped)

abbrev pub remap_gicc : Board → DtState → Status × DtState
remap_gicc b s = set_gicc s (remap_required b 1 s.gic_map.gicc s.mapped)

abbrev pub remap_gich : Board → DtState → Status × DtState
remap_gich b s = set_gich s (remap_optional b 2 s.gic_map.gich s.mapped)

abbrev pub remap_gicv : Board → DtState → Status × DtState
remap_gicv b s = set_gicv s (remap_optional b 3 s.gic_map.gicv s.mapped)

unfoldable pub ms_remap_gic : Board → DtState → Status × DtState
unfolding remap_required remap_optional and_then
ms_remap_gic b s =
    and_then (and_then (and_then (remap_gicd b s) (remap_gicc b)) (remap_gich b)) (remap_gicv b)

unfoldable pub ms_populate_gic_map : Board → DtState → Status × DtState
unfolding ms_find_gic_devices ms_remap_gic and_then
ms_populate_gic_map b s = and_then (ms_find_gic_devices b s) (ms_remap_gic b)

unfoldable pub ms_init_dt_data : Board → DtState → Status × DtState
unfolding ms_populate_gic_map
ms_init_dt_data b s = ms_populate_gic_map b (with_map s zero_map)

-- iounmap gives one mapping of the address back.
unfoldable pub iounmap : ℕ → List ℕ → List ℕ
iounmap addr [] = []
iounmap addr (a ∷ mapped) = if a == addr then mapped else a ∷ iounmap addr mapped

unfoldable pub unmap : Interface → List ℕ → List ℕ
unfolding iounmap
unmap i mapped = if i.virt == 0 then mapped else iounmap i.virt mapped

-- The pointers are left as they were.
unfoldable pub ms_cleanup_gic : DtState → DtState
unfolding unmap
ms_cleanup_gic s =
    let m = s.gic_map in
    record s { mapped = unmap m.gicv (unmap m.gich (unmap m.gicd (unmap m.gicc s.mapped))) }

unfoldable pub ms_cleanup_dt_data : DtState → DtState
unfolding ms_cleanup_gic
ms_cleanup_dt_data s = ms_cleanup_gic s
