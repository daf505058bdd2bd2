-- ===== src/Usermode/Tests.antt =====
-- A read from user mode whose instruction is illegal.
use maplesyrup.Base.{◌≡◌, true, false, none, some, [], ◌∷◌}
use maplesyrup.Structs.{Status, MsData}
use maplesyrup.Env.{Env, illegal, ret}
use maplesyrup.Usermode.{FuncTableEntry, functype_out_1, functype_bits_32, usermode_results}
use maplesyrup.Usermode.Flag.{Reported, usermode_results-Reported}

abbrev trapping : Env
trapping = record {
  alloc = λ n. true;
  ioctl = λ n cmd d. none;
  execute = λ n code. illegal;
  device_open = false;
}

abbrev midr_row : FuncTableEntry
midr_row = record {
  code = 1;
  func_ptr = true;
  function_prototype = functype_out_1;
  data_size = functype_bits_32;
}

abbrev stale : MsData
stale = record { cpu = 0; midr = 0; in1 = 0; in2 = 0; out64 = 9; out1 = 9; out2 = 9; status = 0 }

usermode_results-Reported_example :
    (s : Status) × (d' : MsData) × (e' : Env) × (usermode_results false
        (midr_row ∷ [])
        0
        1
        (some stale)
        trapping
      ≡ ret (s, 0, some d') e')
    × (e'.alloc ≡ trapping.alloc)
    × Reported false (midr_row ∷ []) 1 stale trapping s d' e'
usermode_results-Reported_example = usermode_results-Reported false (midr_row ∷ []) 1 stale trapping
