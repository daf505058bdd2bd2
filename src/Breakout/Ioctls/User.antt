-- ===== src/Breakout/Ioctls/User.antt =====
-- `breakout_call_usermode` of lib/src/parse_breakout.c.
use maplesyrup.Base.{
  ℕ, ◌≡◌, ap, ◌∙◌, Bool, Option, none, some, List, [], ◌∷◌, ◌++◌, append_assoc, append-nil,
}
use maplesyrup.Structs.{
  Status, success, failure, MsData, UsedIoctl, IoctlResult, ns_privilege_level_0,
}
use maplesyrup.Env.{Env, Executed, ret, pure, ◌>>=◌}
use maplesyrup.Env.Loop.{next, walk}
use maplesyrup.Env.Yields.{Plenty, pure-Yields, add_element-Yields}
use maplesyrup.Usermode.{FuncTableEntry, usermode_results}
use maplesyrup.Usermode.Values.{row_for}
use maplesyrup.Usermode.Flag.{user_data, reads_after, Reported, usermode_results-Reported}
use maplesyrup.Breakout.Add.{breakout_add_ioctl_result}
use maplesyrup.Breakout.Ioctls.{usermode_body, breakout_call_usermode, zero_data}

-- The result for a register whose read left the data.
abbrev pub user_result : UsedIoctl → MsData → IoctlResult
user_result u d = record {
  register_uid = u.register_uid;
  val64 = d.out64;
  low = d.out1;
  high = d.out2;
  cpu = 0;
  midr = 0;
  epl = ns_privilege_level_0;
  status = d.status;
}

-- The results of reads in user mode: one for each register that a row is for, by what its read gave.
-- `execute` is what the reads to come do.
module _ (aarch64 : Bool) (func_table : List FuncTableEntry) where
  abbrev pub row_results : UsedIoctl → (ℕ → ℕ → Executed) → Option FuncTableEntry → List IoctlResult
  row_results u execute none = []
  row_results u execute (some f) = user_result u (user_data aarch64 f execute zero_data) ∷ []

  abbrev pub row_reads : (ℕ → ℕ → Executed) → Option FuncTableEntry → ℕ → ℕ → Executed
  row_reads execute none = execute
  row_reads execute (some f) = reads_after f execute

  abbrev pub user_results : List UsedIoctl → (ℕ → ℕ → Executed) → List IoctlResult
  user_results [] execute = []
  user_results (u ∷ us) execute =
      let row = row_for u.register_uid func_table in
      row_results u execute row ++ user_results us (row_reads execute row)

  -- The state after the body: the flag is clear, and the results of the register were added.
  abbrev Reports : UsedIoctl → MsData → List IoctlResult → Env → Type 0
  Reports u before list e =
      let row = row_for u.register_uid func_table in
      (after : MsData) × (e' : Env) × (usermode_body aarch64 func_table u (0, before, some list) e
        ≡ ret (next (0, after, some (list ++ row_results u e.execute row))) e')
      × Plenty e'
      × (e'.execute ≡ row_reads e.execute row)

  usermode_body-ended :
      (u : UsedIoctl) (before : MsData) (list : List IoctlResult) (e : Env) (s : Status)
      (after : MsData) (e1 : Env)
      → Plenty e1
      → usermode_results aarch64 func_table 0 u.register_uid (some before) e
        ≡ ret (s, 0, some after) e1
      → Reported aarch64 func_table u.register_uid before e s after e1
      → Reports u before list e
  unfolding usermode_body breakout_add_ioctl_result ◌>>=◌
  usermode_body-ended u before list e failure after e1 plenty runs (no_row, same, execute) = (
    after,
    e1,
    rw (usermode_body, ◌>>=◌, runs, no_row, append-nil list),
    plenty,
    rw no_row execute,
  )
  usermode_body-ended u before list e success after e1 plenty runs (f, row, same, execute) =
      let r = user_result u after in
      let (e2, adds, plenty2, (ioctl2, execute2, open2)) =
        add_element-Yields list (pure r) (pure-Yields r) e1 plenty in
      let same_result : r ≡ user_result u (user_data aarch64 f e.execute zero_data) =
        ap (user_result u) same in
      (
        after,
        e2,
        rw (usermode_body, ◌>>=◌, runs, adds, row)
            (ap (λ x. ret (next (0, after, some (list ++ x ∷ []))) e2) same_result),
        plenty2,
        rw row (execute2 ∙ execute),
      )

  usermode_body-Reports :
      (u : UsedIoctl) (before : MsData) (list : List IoctlResult) (e : Env)
      → Plenty e
      → Reports u before list e
  usermode_body-Reports u before list e plenty =
      let (s, after, e1, runs, alloc, reported) =
        usermode_results-Reported aarch64 func_table u.register_uid before e in
      usermode_body-ended u before list e s after e1
        (λ n. ap (λ (a : ℕ → Bool). a n) alloc ∙ plenty n) runs reported

  usermode_walk-results :
      (us : List UsedIoctl) (before : MsData) (list : List IoctlResult) (e : Env)
      → Plenty e
      → (after : MsData) × (e' : Env) × (walk
            (usermode_body aarch64 func_table)
            us
            (0, before, some list)
            e
          ≡ ret (next (0, after, some (list ++ user_results us e.execute))) e')
        × Plenty e'
  unfolding walk ◌>>=◌
  usermode_walk-results [] before list e plenty = (before, e, rw (append-nil list), plenty)
  usermode_walk-results (u ∷ us) before list e plenty =
      let row = row_for u.register_uid func_table in
      let new = row_results u e.execute row in
      let (d1, e1, runs1, plenty1, execute1) = usermode_body-Reports u before list e plenty in
      let (d2, e2, runs2, plenty2) = usermode_walk-results us d1 (list ++ new) e1 plenty1 in
      let runs : walk (usermode_body aarch64 func_table) (u ∷ us) (0, before, some list) e
          ≡ ret (next (0, d2, some ((list ++ new) ++ user_results us e1.execute))) e2 =
        rw (runs1, ◌>>=◌) runs2 in
      (
        d2,
        e2,
        runs
            ∙ ap (λ (l : List IoctlResult). ret (next (0, d2, some l)) e2)
                (append_assoc list new (user_results us e1.execute)
                  ∙ ap (λ x. list ++ (new ++ user_results us x)) execute1),
        plenty2,
      )

  -- With the flag of the signal handler clear and memory at hand, whatever the reads do, the call of user
  -- mode has no fault, succeeds and leaves the flag clear. It adds, in order, one result for each register
  -- that the table has a row for: the outputs of its read in the places of the first such row's kind and that it
  -- succeeded, or no value and that the instruction was illegal or the kind of the row not known; no value where
  -- the row's pointer is NULL.
  pub breakout_call_usermode-results :
      (us : List UsedIoctl) (list : List IoctlResult) (e : Env)
      → Plenty e
      → (e' : Env) × (breakout_call_usermode aarch64 func_table 0 (some us) (some list) e
          ≡ ret (success, 0, some (list ++ user_results us e.execute)) e')
        × Plenty e'
  unfolding breakout_call_usermode ◌>>=◌
  breakout_call_usermode-results us list e plenty =
      let (after, e', runs, plenty') = usermode_walk-results us zero_data list e plenty in
      (e', rw (breakout_call_usermode, runs, ◌>>=◌), plenty')
