-- ===== src/Breakout/Find/Tests.antt =====
-- A search of the sample table that nothing matches.
use maplesyrup.Base.{◌≡◌, refl, true, some, [], cstr}
use maplesyrup.Structs.{MatchInfo}
use maplesyrup.Env.{Env, illegal, fault}
use maplesyrup.Breakout.Search.{matches, applies}
use maplesyrup.Breakout.Ioctls.{zero_data_cpu}
use maplesyrup.Breakout.Find.{find_bitfields}
use maplesyrup.Breakout.Find.Unmatched.{find_bitfields-unmatched}
use maplesyrup.Breakout.Sample.{sample, sample_globals, sample-IsLoaded, request}

abbrev from_kernel : MatchInfo
from_kernel = record request { calc = 0; pl = 2 }

abbrev answering : Env
answering = record {
  alloc = λ n. true;
  ioctl = λ n cmd d. some zero_data_cpu;
  execute = λ n code. illegal;
  device_open = true;
}

find_bitfields-unmatched_example :
    find_bitfields true [] sample_globals 0
      (some (record from_kernel { register_name = cstr "NONE" }))
      (some [])
      answering
    ≡ fault
unfolding matches applies
find_bitfields-unmatched_example =
    find_bitfields-unmatched true [] sample_globals sample 0
      (record from_kernel { register_name = cstr "NONE" }) [] answering sample-IsLoaded refl refl
      (λ n. refl)
