-- ===== src/Session/Tests.antt =====
-- A search with the device, and one without, before another with it.
use maplesyrup.Base.{◌≡◌, refl, true, false, none, some, [], ◌∷◌}
use maplesyrup.Structs.{success, failure}
use maplesyrup.Session.{own, other, zero_action, Process, Answers, start_test, searched}
use maplesyrup.Session.Handler.{searches, searched-restored, unopened-lost}

abbrev begin : Process
begin = record {
  sigill = other 7;
  saved = zero_action;
  registered = false;
  illsig = 0;
  ms_fd = none;
}

abbrev present : Answers
present = record { sets = true; restores = true; opens = some 3 }

abbrev absent : Answers
absent = record { sets = true; restores = true; opens = none }

searched-restored_example :
    ((start_test present begin).0 ≡ success)
    × ((start_test present begin).1.sigill ≡ own)
    × ((searched present begin).sigill ≡ begin.sigill)
    × ((searched present begin).ms_fd ≡ none)
    × ((searched present begin).registered ≡ false)
searched-restored_example = searched-restored present begin 3 refl refl refl refl

unopened-lost_example :
    ((start_test absent begin).0 ≡ failure)
    × ((searches (present ∷ []) (searched absent begin)).sigill ≡ own)
unopened-lost_example = unopened-lost absent begin (present ∷ []) refl refl refl
