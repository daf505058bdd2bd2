-- ===== src/Session/Handler.antt =====
-- Whether a search leaves SIGILL as it was.
use maplesyrup.Base.{ℕ, ◌≡◌, true, false, none, some, List, [], ◌∷◌, arith}
use maplesyrup.Structs.{success, failure}
use maplesyrup.Session.{
  own, Process, Answers, register_signal_handlers, restore_signal_handlers, start_test, stop_test,
  searched,
}

-- With no device open and no handlers registered, a search whose calls of the system all succeed leaves
-- the action on SIGILL as it was, with the device closed and the handlers not registered.
pub searched-restored :
    (a : Answers) (p : Process) (fd : ℕ)
    → p.ms_fd ≡ none
    → a.sets ≡ true
    → a.restores ≡ true
    → a.opens ≡ some fd
    → ((start_test a p).0 ≡ success)
      × ((start_test a p).1.sigill ≡ own)
      × ((searched a p).sigill ≡ p.sigill)
      × ((searched a p).ms_fd ≡ none)
      × ((searched a p).registered ≡ false)
unfolding searched start_test stop_test register_signal_handlers restore_signal_handlers
searched-restored a p fd closed sets restores opens = ground arith

-- One search after another.
unfoldable pub searches : List Answers → Process → Process
searches [] p = p
searches (a ∷ later) p = searches later (searched a p)

-- The handler of the library is what a search finds and saves.
abbrev IsLost : Process → Type 0
IsLost p = (p.ms_fd ≡ none) × (p.sigill ≡ own)

searched-IsLost : (a : Answers) (p : Process) → IsLost p → IsLost (searched a p)
unfolding searched start_test stop_test register_signal_handlers restore_signal_handlers
searched-IsLost a p lost = ground arith

searches-IsLost : (later : List Answers) (p : Process) → IsLost p → IsLost (searches later p)
unfolding searches
searches-IsLost [] p lost = lost
searches-IsLost (a ∷ later) p lost = searches-IsLost later (searched a p) (searched-IsLost a p lost)

unopened-IsLost :
    (a : Answers) (p : Process)
    → p.ms_fd ≡ none
    → a.sets ≡ true
    → a.opens ≡ none
    → IsLost (searched a p)
unfolding searched start_test stop_test register_signal_handlers restore_signal_handlers
unopened-IsLost a p closed sets opens = ground arith

-- With no device open, a search that cannot open the device, after it has set the handler, fails and leaves the
-- handler of the library on SIGILL; whatever searches follow, they do not bring back the action that was before.
pub unopened-lost :
    (a : Answers) (p : Process) (later : List Answers)
    → p.ms_fd ≡ none
    → a.sets ≡ true
    → a.opens ≡ none
    → ((start_test a p).0 ≡ failure) × ((searches later (searched a p)).sigill ≡ own)
unfolding start_test register_signal_handlers
unopened-lost a p later closed sets opens =
    (ground arith, (searches-IsLost later (searched a p) (unopened-IsLost a p closed sets opens)).1)
