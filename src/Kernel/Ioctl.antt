-- ===== src/Kernel/Ioctl.antt =====
-- `call_cmd` of module/cmd_handler.c and `ms_ioctl` of module/entrypoint.c: a request is copied from
-- user space, answered, and copied back.
pub mod Served
pub mod Device
pub mod Search
use maplesyrup.Base.{ℕ, Bool, true, false, Option, none, some, List, ◌==◌, if◌then◌else◌}
use maplesyrup.Structs.{Status, success, failure, MsDataCpu}
use maplesyrup.Usermode.{FuncTableEntry}
use maplesyrup.Breakout.Ioctls.{ms_ioctl_co, ms_ioctl_gic}
use maplesyrup.Kernel.{Machine, ◌>>=◌}
use maplesyrup.Kernel.Read.{call_func_return_results}
use maplesyrup.Kernel.Gic.{MsGicMap, gic_return_results}

-- What copy_to_user does: all is copied, or the call fails and leaves that in the buffer.
pub data Copied : Type 0 where
  whole : Copied
  partly : MsDataCpu → Copied

-- Whether copy_from_user succeeds, and copy_to_user.
pub record Copies : Type 0 where
  pub copy_from_user : Bool
  pub copy_to_user : Copied

-- The handler of a request, of the kernel's copy of it.
abbrev pub Handler : Type 0
Handler = ℕ → Option MsDataCpu → Option (Status × ℕ × Option MsDataCpu)

-- `buffer` is the request in user space; the status, `g_undef_flag` and the buffer are left.
unfoldable pub copied_back :
    Copied → (buffer : MsDataCpu) → Status × ℕ × Option MsDataCpu → Status × ℕ × Option MsDataCpu
copied_back to buffer (failure, undef_flag, local) = (failure, undef_flag, some buffer)
copied_back whole buffer (success, undef_flag, local) = (success, undef_flag, local)
copied_back (partly rest) buffer (success, undef_flag, local) = (failure, undef_flag, some rest)

unfoldable pub call_cmd :
    Copies
    → (undef_flag : ℕ) → Option MsDataCpu
    → Option Handler
    → Option (Status × ℕ × Option MsDataCpu)
unfolding copied_back ◌>>=◌
call_cmd c undef_flag none pcall = some (failure, undef_flag, none)
call_cmd c undef_flag (some buffer) none = some (failure, undef_flag, some buffer)
call_cmd c undef_flag (some buffer) (some pcall) =
    if c.copy_from_user
    then (do r ← pcall 0 (some buffer); some (copied_back c.copy_to_user buffer r))
    else some (failure, 0, some buffer)

-- The number returned is 0 whatever the handler says. What is left is `g_undef_flag` and the buffer.
unfoldable pub ms_ioctl :
    Machine
    → List FuncTableEntry
    → MsGicMap
    → Copies
    → (cmd undef_flag : ℕ) → Option MsDataCpu
    → Option (ℕ × ℕ × Option MsDataCpu)
unfolding call_cmd call_func_return_results gic_return_results ◌>>=◌
ms_ioctl k func_table gic_map c cmd undef_flag arg =
    if cmd == ms_ioctl_co
    then (do
      r ← call_cmd c undef_flag arg (some (call_func_return_results k func_table))
      some (0, r.1, r.2))
    else (if cmd == ms_ioctl_gic
        then (do
          r ← call_cmd c undef_flag arg (some (gic_return_results k gic_map))
          some (0, r.1, r.2))
        else some (0, undef_flag, arg))
