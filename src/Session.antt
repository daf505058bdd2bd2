-- ===== src/Session.antt =====
-- lib/src/open_device.c, with the signal handlers of lib/src/cmd_handler.c: a search opens the device and
-- takes over SIGILL, and gives both back.
pub mod Handler
mod Tests
use maplesyrup.Base.{ℕ, Bool, true, false, Option, none, some}
use maplesyrup.Structs.{Status, success, failure}

-- What a process does on SIGILL: `ms_signal_handler`, or something else.
pub data Disposition : Type 0 where
  own : Disposition
  other : ℕ → Disposition

-- `sigill` is the action of the process, `saved` is `saved_sigaction`, `registered` is whether
-- `ms_reg_handlers` is 0, and `ms_fd` is `none` for -1.
pub record Process : Type 0 where
  pub sigill : Disposition
  pub saved : Disposition
  pub registered : Bool
  pub illsig : ℕ
  pub ms_fd : Option ℕ

-- What the system answers: whether the calls of sigaction succeed, and the descriptor that open returns.
pub record Answers : Type 0 where
  pub sets : Bool
  pub restores : Bool
  pub opens : Option ℕ

-- All zeros, which is SIG_DFL.
abbrev pub zero_action : Disposition
zero_action = other 0

unfoldable pub register_signal_handlers : Answers → Process → Status × Process
register_signal_handlers a p = elim a.sets [
  | false ↦ (failure, record p { saved = zero_action })
  | true ↦ (success, record p { saved = p.sigill; sigill = own; registered = true; illsig = 0 })
]

-- A failed sigaction is only traced.
unfoldable pub restore_signal_handlers : Answers → Process → Process
restore_signal_handlers a p = elim p.registered [
  | false ↦ p
  | true ↦ elim a.restores [
    | false ↦ record p { registered = false }
    | true ↦ record p { registered = false; sigill = p.saved }
  ]
]

abbrev pub open_device : Answers → Status × Process → Status × Process
open_device a (failure, p) = (failure, p)
open_device a (success, p) = elim a.opens [
  | none ↦ (failure, record p { ms_fd = none })
  | some fd ↦ (success, record p { ms_fd = some fd })
]

unfoldable pub start_test : Answers → Process → Status × Process
unfolding register_signal_handlers
start_test a p = open_device a (register_signal_handlers a p)

unfoldable pub stop_test : Answers → Process → Process
unfolding restore_signal_handlers
stop_test a p = elim p.ms_fd [
  | none ↦ p
  | some fd ↦ restore_signal_handlers a (record p { ms_fd = none })
]

-- A search begins with the one and ends with the other, whatever the first returns.
unfoldable pub searched : Answers → Process → Process
unfolding start_test stop_test
searched a p = stop_test a (start_test a p).1
