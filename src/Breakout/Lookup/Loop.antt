-- ===== src/Breakout/Lookup/Loop.antt =====
-- Loops over the table in memory.
use maplesyrup.Base.{ℕ, ◌≡◌, sym, Bool, Option, some, List, ◌++◌, get_elem?, if◌then◌else◌}
use mathlib.Core.Path.{subst}
use maplesyrup.Structs.{BitfieldInfoHeap}
use maplesyrup.Env.{M}
use maplesyrup.Env.Loop.{Flow, next, for_loop}
use maplesyrup.Env.Yields.{Yields, fold_from, for_loop-Yields}
use maplesyrup.Env.Gather.{gather, grown, fold_from-gather}
use maplesyrup.Breakout.Tables.{Globals}
use maplesyrup.Breakout.Lookup.First.{IsLoaded}

module _ (g : Globals) {table : List BitfieldInfoHeap} (loaded : IsLoaded g table) where
  pub table_loop :
      {S : Type 0} (body : ℕ → S → M (Flow S)) (f : ℕ → BitfieldInfoHeap → S → S)
      → ((i : ℕ) (x : BitfieldInfoHeap) (s : S)
          → get_elem? table i ≡ some x
          → Yields (body i s) (next (f i x s)))
      → (s : S) → Yields (for_loop body g.table_size 0 s) (next (fold_from f 0 table s))
  table_loop body f each s =
      subst (λ (n : ℕ). Yields (for_loop body n 0 s) (next (fold_from f 0 table s)))
        (sym loaded.size) (for_loop-Yields table body f each s)

  -- A loop whose body adds an element for each entry that passes a test.
  pub table_loop-gather :
      {B : Type 0} (body : ℕ → Option (List B) → M (Flow (Option (List B))))
      (p : BitfieldInfoHeap → Bool) (make : ℕ → BitfieldInfoHeap → B)
      → ((i : ℕ) (x : BitfieldInfoHeap) (s : Option (List B))
          → get_elem? table i ≡ some x
          → Yields (body i s) (next (if p x then grown s (make i x) else s)))
      → (list : List B)
      → Yields
          (for_loop body g.table_size 0 (some list))
          (next (some (list ++ gather p make 0 table)))
  table_loop-gather {B} body p make each list =
      subst (λ (r : Option (List B)). Yields (for_loop body g.table_size 0 (some list)) (next r))
        (fold_from-gather p make 0 table list)
        (table_loop body (λ i x s. if p x then grown s (make i x) else s) each (some list))
