-- ===== src/Kernel/Tree/Ledger.antt =====
-- The memory that loading the module maps, and that unloading it gives back.
use maplesyrup.Base.{
  ℕ, ◌+◌, ◌-◌, ◌≡◌, refl, sym, ◌∙◌, ◌≢◌, inl, inr, Option, List, [], ◌∷◌, ◌++◌, ◌==◌, if◌then◌else◌,
  Option-cases, arith,
}
use mathlib.Core.Path.{subst}
use maplesyrup.Structs.{Status, success, failure}
use maplesyrup.Kernel.Gic.{MsGicMap}
use maplesyrup.Kernel.Tree.{
  Resource, Board, DtState, zero_map, g_supported_gic, first_node, found_at, may_find, read_node,
  with_map, ms_find_gic_devices, remap, remap_required, remap_optional, and_then, ms_remap_gic,
  ms_populate_gic_map, ms_init_dt_data, iounmap, unmap, ms_cleanup_gic, ms_cleanup_dt_data,
}

-- The address, if it is not NULL.
abbrev pub owned : ℕ → List ℕ
owned addr = if addr == 0 then [] else addr ∷ []

-- The addresses that the map holds, in the order in which they are mapped.
abbrev pub addresses : MsGicMap → List ℕ
addresses m = owned m.gicd.virt ++ (owned m.gicc.virt ++ (owned m.gich.virt ++ owned m.gicv.virt))

-- What is mapped is what the map holds.
abbrev pub IsLedger : DtState → Type 0
IsLedger s = s.mapped ≡ addresses s.gic_map

-- No interface is mapped.
abbrev IsUnmapped : MsGicMap → Type 0
IsUnmapped m = (m.gicd.virt ≡ 0) × (m.gicc.virt ≡ 0) × (m.gich.virt ≡ 0) × (m.gicv.virt ≡ 0)

-- The interfaces that have to be there are mapped, if the status is success.
abbrev pub HasRequired : Status → MsGicMap → Type 0
HasRequired failure m = Unit
HasRequired success m = (m.gicd.virt ≢ 0) × (m.gicc.virt ≢ 0)

ms_remap_gic-IsLedger :
    (b : Board) (m : MsGicMap) (n : ℕ)
    → IsUnmapped m
    → IsLedger (ms_remap_gic b (record { gic_map = m; mapped = []; nodes = n })).1
unfolding ms_remap_gic and_then remap_required remap_optional remap
ms_remap_gic-IsLedger b m n unmapped = ground arith

ms_remap_gic-HasRequired :
    (b : Board) (s : DtState) (s' : DtState) (status : Status)
    → ms_remap_gic b s ≡ (status, s')
    → HasRequired status s'.gic_map × (s'.nodes ≡ s.nodes)
unfolding ms_remap_gic and_then remap_required remap_optional remap
ms_remap_gic-HasRequired b s s' status runs = ground arith

read_node-IsUnmapped :
    (node : ℕ → Option Resource) (m : MsGicMap) → IsUnmapped m → IsUnmapped (read_node node m).1
unfolding read_node found_at may_find
read_node-IsUnmapped node m unmapped = ground arith

ms_find_gic_devices-frame :
    (b : Board) (s : DtState)
    → IsUnmapped s.gic_map
    → IsUnmapped (ms_find_gic_devices b s).1.gic_map
      × ((ms_find_gic_devices b s).1.mapped ≡ s.mapped)
      × ((ms_find_gic_devices b s).1.nodes ≡ s.nodes)
unfolding ms_find_gic_devices
ms_find_gic_devices-frame b s unmapped = elim (Option-cases (first_node b g_supported_gic)) [
  | inl missing ↦ rw missing (unmapped, refl, refl)
  | inr (node, found) ↦
      let same : s.nodes + 1 - 1 ≡ s.nodes = omega arith in
      rw found (read_node-IsUnmapped node s.gic_map unmapped, refl, same)
]

-- After the module has looked for the controller, whether or not it found and mapped it.
abbrev pub Loaded : DtState → Status × DtState → Type 0
Loaded s (status, s') = IsLedger s' × HasRequired status s'.gic_map × (s'.nodes ≡ s.nodes)

and_then-Loaded :
    (b : Board) (s s1 : DtState) (status : Status)
    → IsUnmapped s1.gic_map
    → s1.mapped ≡ []
    → s1.nodes ≡ s.nodes
    → Loaded s (and_then (status, s1) (ms_remap_gic b))
unfolding and_then
and_then-Loaded b s s1 failure unmapped nothing nodes = (ground arith, tt, nodes)
and_then-Loaded b s s1 success unmapped nothing nodes =
    let start : DtState = record { gic_map = s1.gic_map; mapped = []; nodes = s1.nodes } in
    let same : s1 ≡ start = ground arith in
    subst (λ t. Loaded s (ms_remap_gic b t)) (sym same)
      (
        ms_remap_gic-IsLedger b s1.gic_map s1.nodes unmapped,
        (ms_remap_gic-HasRequired b start _ _ refl).0,
        (ms_remap_gic-HasRequired b start _ _ refl).1 ∙ nodes,
      )

-- With nothing mapped, looking for the interrupt controller and mapping it leaves mapped just the addresses
-- that the map holds, and as many nodes held as before, whether it succeeds or not; if it
-- succeeds, the distributor and the processor interface are mapped.
pub ms_init_dt_data-Loaded :
    (b : Board) (s : DtState) → s.mapped ≡ [] → Loaded s (ms_init_dt_data b s)
unfolding ms_init_dt_data ms_populate_gic_map
ms_init_dt_data-Loaded b s nothing =
    let (unmapped, mapped, nodes) =
      ms_find_gic_devices-frame b (with_map s zero_map) (refl, refl, refl, refl) in
    let (status, s1) = ms_find_gic_devices b (with_map s zero_map) in
    and_then-Loaded b s s1 status unmapped (mapped ∙ nothing) nodes

-- Unloading gives back all that the map holds.
pub ms_cleanup_dt_data-empty : (s : DtState) → IsLedger s → (ms_cleanup_dt_data s).mapped ≡ []
unfolding ms_cleanup_dt_data ms_cleanup_gic unmap iounmap
ms_cleanup_dt_data-empty s ledger = ground arith
