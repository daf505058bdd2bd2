-- ===== src/Breakout/Find/Driver.antt =====
-- A search whose registers are read through the driver, from the request to the results.
use maplesyrup.Base.{
  ℕ, ◌≡◌, refl, sym, ◌∙◌, Bool, true, some, List, [], ◌∷◌, ◌++◌, map, keep, ==_iff,
}
use mathlib.Core.Path.{subst}
use maplesyrup.Structs.{
  Status, success, MatchInfo, ResultsInfo, BitfieldInfoHeap, BitfieldInfoPopulated, MsDataCpu,
  UsedIoctl, IoctlResult,
}
use maplesyrup.Env.{Env, ret, M, ◌>>=◌}
use maplesyrup.Env.Loop.{walk}
use maplesyrup.Env.Yields.{Plenty, walk-Yields, fold}
use maplesyrup.Usermode.{FuncTableEntry}
use maplesyrup.Breakout.Tables.{Globals}
use maplesyrup.Breakout.Lookup.First.{IsLoaded}
use maplesyrup.Breakout.Search.Keep.{wanted, match_of, breakout_search_table-keep}
use maplesyrup.Breakout.Ioctls.{
  Todo, sort_body, breakout_call_usermode, breakout_sort_ioctls, zero_data_cpu,
}
use maplesyrup.Breakout.Ioctls.Sort.{sort_step, sort_body-Yields}
use maplesyrup.Breakout.Ioctls.Served.{Served, served_results, breakout_call_driver-Served}
use maplesyrup.Breakout.Results.Indices.{Unique}
use maplesyrup.Breakout.Results.Rounds.{ioctl_round, breakout_parse_results-Yields}
use maplesyrup.Breakout.Find.{find_bitfields}

-- The lists of registers that some requests make.
unfoldable pub todo_of : List ResultsInfo → Todo
unfolding sort_step
todo_of rs = fold sort_step rs (record { to_driver = []; to_usermode = [] })

call_usermode-none :
    (aarch64 : Bool) (func_table : List FuncTableEntry) (illsig : ℕ) (us : List UsedIoctl)
    (list : List IoctlResult) (e : Env)
    → us ≡ []
    → breakout_call_usermode aarch64 func_table illsig (some us) (some list) e
      ≡ ret (success, illsig, some list) e
unfolding breakout_call_usermode walk ◌>>=◌
call_usermode-none aarch64 func_table illsig us list e nothing =
    subst
      (λ (us : List UsedIoctl).
        breakout_call_usermode aarch64 func_table illsig (some us) (some list) e
        ≡ ret (success, illsig, some list) e)
      (sym nothing) refl

-- The end of a run that succeeds, memory still at hand.
abbrev pub Succeeds : {A : Type 0} → M (Status × ℕ × A) → ℕ → A → Env → Type 0
Succeeds m illsig a e = (e' : Env) × (m e ≡ ret (success, illsig, a) e') × Plenty e'

pub breakout_sort_ioctls-driver :
    (aarch64 : Bool) (func_table : List FuncTableEntry) (illsig : ℕ) (rs : List ResultsInfo)
    (answers : List MsDataCpu) (list : List IoctlResult) (e : Env)
    → Plenty e
    → e.device_open ≡ true
    → (todo_of rs).to_usermode ≡ []
    → Served e.ioctl zero_data_cpu (todo_of rs).to_driver answers
    → Succeeds
        (breakout_sort_ioctls aarch64 func_table illsig (some rs) (some list))
        illsig
        (some (list ++ served_results (todo_of rs).to_driver answers))
        e
unfolding breakout_sort_ioctls todo_of ◌>>=◌
breakout_sort_ioctls-driver aarch64 func_table illsig rs answers list e plenty is_open nothing
      served =
    let todo = todo_of rs in
    let (e1, runs1, plenty1, (ioctl1, execute1, open1)) =
      walk-Yields sort_body sort_step sort_body-Yields rs
        (record { to_driver = []; to_usermode = [] }) e plenty in
    let (e2, runs2, plenty2, execute2) =
      breakout_call_driver-Served todo.to_driver answers list e1 plenty1 (open1 ∙ is_open)
        (subst (λ i. Served i zero_data_cpu todo.to_driver answers) (sym ioctl1) served) in
    let runs3 =
      call_usermode-none aarch64 func_table illsig todo.to_usermode
        (list ++ served_results todo.to_driver answers) e2 nothing in
    (e2, rw (breakout_sort_ioctls, runs1, ◌>>=◌, runs2, runs3), plenty2)

-- The requests that a search makes of its matching entries.
abbrev pub requests : List BitfieldInfoHeap → MatchInfo → List ResultsInfo
requests table info = map (match_of info) (keep (wanted info) table)

module _ (g : Globals) (table : List BitfieldInfoHeap) (info : MatchInfo) where
  -- With a loaded table whose codes are distinct, memory at hand, the device open and no value supplied, a
  -- search succeeds all of whose registers, at least one, are to be read in the kernel only and are
  -- answered by the driver for all its processors: the values of each register and processor, in order,
  -- are taken apart into the bitfields of the register, and those that were requested are the results.
  pub find_bitfields-driver :
      (aarch64 : Bool) (func_table : List FuncTableEntry) (illsig : ℕ) (answers : List MsDataCpu)
      (i : IoctlResult) (ioctls : List IoctlResult) (list : List BitfieldInfoPopulated) (e : Env)
      → IsLoaded g table
      → Unique table
      → info.calc ≡ 0
      → Plenty e
      → e.device_open ≡ true
      → (todo_of (requests table info)).to_usermode ≡ []
      → Served e.ioctl zero_data_cpu (todo_of (requests table info)).to_driver answers
      → served_results (todo_of (requests table info)).to_driver answers ≡ i ∷ ioctls
      → Succeeds
          (find_bitfields aarch64 func_table g illsig (some info) (some list))
          illsig
          (some (fold (ioctl_round table (requests table info)) (i ∷ ioctls) list))
          e
  unfolding find_bitfields ◌>>=◌
  find_bitfields-driver aarch64 func_table illsig answers i ioctls list e loaded unique no_value
        plenty is_open nothing served results =
      let todo = todo_of (requests table info) in
      let (e1, runs1, plenty1, (ioctl1, execute1, open1)) =
        breakout_search_table-keep g loaded info [] e plenty in
      let (e2, runs2, plenty2) =
        breakout_sort_ioctls-driver aarch64 func_table illsig (requests table info) answers [] e1
          plenty1 (open1 ∙ is_open) nothing
          (subst (λ s. Served s zero_data_cpu todo.to_driver answers) (sym ioctl1) served) in
      let (e3, runs3, plenty3, untouched3) =
        breakout_parse_results-Yields g loaded unique i ioctls (requests table info) list e2
          plenty2 in
      (
        e3,
        rw (find_bitfields, runs1, (==_iff info.calc 0).1 no_value, ◌>>=◌, runs2, results, runs3),
        plenty3,
      )
