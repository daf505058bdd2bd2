-- ===== src/Env/Loop.antt =====
-- Loops with an exit: `for (i = 0; i < n; ++i)` and a walk along a list.
use maplesyrup.Base.{ℕ, zero, suc, ◌+◌, List, [], ◌∷◌}
use maplesyrup.Env.{M, pure, ◌>>=◌}

-- `leave` is a `goto done` in the body.
pub data Flow (S : Type 0) : Type 0 where
  next : S → Flow S
  leave : S → Flow S

module _ {S : Type 0} where
  -- `n` more rounds, beginning at `i`.
  unfoldable pub for_loop : (ℕ → S → M (Flow S)) → (n i : ℕ) → S → M (Flow S)
  for_loop body zero i s = pure (next s)
  for_loop body (suc n) i s = do
    r ← body i s
    elim r [ next s' ↦ for_loop body n (i + 1) s' | leave s' ↦ pure (leave s') ]

  unfoldable pub walk : {A : Type 0} → (A → S → M (Flow S)) → List A → S → M (Flow S)
  walk body [] s = pure (next s)
  walk body (x ∷ xs) s = do
    r ← body x s
    elim r [ next s' ↦ walk body xs s' | leave s' ↦ pure (leave s') ]
