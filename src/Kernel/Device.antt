-- ===== src/Kernel/Device.antt =====
-- module/undef_hook.c and module/entrypoint.c: the module is loaded, its device opened and closed, and
-- the module unloaded. The hook for undefined instructions is a node that an open puts on a list of the
-- kernel.
pub mod Lifecycle
use maplesyrup.Base.{ℕ, ◌+◌, ◌-◌, Bool, true, false}
use maplesyrup.Structs.{Status, success, failure}
use maplesyrup.Kernel.Tree.{Board, DtState, ms_init_dt_data, ms_cleanup_dt_data}

-- `hook_struct` and the list of the kernel: not on it, on it, or put on it twice or taken off it twice,
-- by which the links of the list are broken.
pub data Hook : Type 0 where
  off on broken : Hook

unfoldable pub list_add : Hook → Hook
list_add off = on
list_add on = broken
list_add broken = broken

-- list_del, which is also what unregister_undef_hook does under its lock.
unfoldable pub list_del : Hook → Hook
list_del on = off
list_del off = broken
list_del broken = broken

-- `reg_undef_hook` and `unreg_undef_hook` are whether the pointers are not NULL.
pub record Module : Type 0 where
  pub reg_undef_hook : Bool
  pub unreg_undef_hook : Bool
  pub hook : Hook
  pub registered : Bool
  pub dt : DtState

-- What the kernel answers as the module is loaded: whether the two symbols are found, and whether
-- misc_register succeeds.
pub record Answers : Type 0 where
  pub finds_register : Bool
  pub finds_unregister : Bool
  pub misc_register : Bool
  pub board : Board

unfoldable pub ms_find_undef_hook : Answers → Module → Status × Module
ms_find_undef_hook a m = elim a.finds_register [
  | false ↦ (failure, record m { reg_undef_hook = false })
  | true ↦ (success, record m { reg_undef_hook = true; unreg_undef_hook = a.finds_unregister })
]

unfoldable pub ms_add_undef_instr_hook : Module → Status × Module
unfolding list_add
ms_add_undef_instr_hook m = elim m.reg_undef_hook [
  | false ↦ (failure, m)
  | true ↦ (success, record m { hook = list_add m.hook })
]

-- Both ways take the node off the list.
unfoldable pub ms_del_undef_instr_hook : Module → Module
unfolding list_del
ms_del_undef_instr_hook m = elim m.unreg_undef_hook [
  | true ↦ record m { hook = list_del m.hook }
  | false ↦ record m { hook = list_del m.hook }
]

unfoldable pub ms_open : Module → Status × Module
unfolding ms_add_undef_instr_hook
ms_open m = ms_add_undef_instr_hook m

unfoldable pub ms_release : Module → Status × Module
unfolding ms_del_undef_instr_hook
ms_release m = (success, ms_del_undef_instr_hook m)

abbrev pub register_device : Answers → Module → Status × Module
register_device a m = elim a.misc_register [
  | false ↦ (failure, m)
  | true ↦ (success, record m { registered = true })
]

-- A failed `ms_init_dt_data` is only traced.
abbrev pub with_dt : Answers → Module → Module
with_dt a m = record m { dt = (ms_init_dt_data a.board m.dt).1 }

abbrev pub init_found : Answers → Status × Module → Status × Module
init_found a (failure, m) = (failure, m)
init_found a (success, m) = register_device a (with_dt a m)

unfoldable pub maplesyrup_init : Answers → Module → Status × Module
unfolding ms_find_undef_hook
maplesyrup_init a m = init_found a (ms_find_undef_hook a m)

unfoldable pub maplesyrup_exit : Module → Module
maplesyrup_exit m = record m { registered = false; dt = ms_cleanup_dt_data m.dt }
