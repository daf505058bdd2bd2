-- ===== src/Env/Yields.antt =====
-- Runs in which every allocation succeeds.
use maplesyrup.Base.{
  ℕ, suc, ◌+◌, ◌≡◌, refl, ◌∙◌, ap, true, some, List, [], ◌∷◌, ◌++◌, length, get_elem?, arith,
}
use maplesyrup.Structs.{success}
use maplesyrup.Env.{Env, ret, M, pure, ◌>>=◌, allocate, add_element}
use maplesyrup.Env.Loop.{Flow, next, for_loop, walk}

-- Memory is never short.
abbrev pub Plenty : Env → Type 0
Plenty e = (n : ℕ) → e.alloc n ≡ true

-- Only memory was used: nothing was asked of the driver, no register was read, and the device is open if
-- it was.
abbrev pub Untouched : Env → Env → Type 0
Untouched e e' = (e'.ioctl ≡ e.ioctl) × (e'.execute ≡ e.execute) × (e'.device_open ≡ e.device_open)

-- The run returns `a`, without a fault, uses only memory, and memory stays plentiful.
abbrev pub Yields : {A : Type 0} → M A → A → Type 0
Yields m a = (e : Env) → Plenty e → (e' : Env) × (m e ≡ ret a e') × Plenty e' × Untouched e e'

-- The run returns `a` in any environment and leaves that alone.
abbrev pub Returns : {A : Type 0} → M A → A → Type 0
Returns m a = (e : Env) → m e ≡ ret a e

pub Returns-Yields : {A : Type 0} (m : M A) {a : A} → Returns m a → Yields m a
Returns-Yields m runs e plenty = (e, runs e, plenty, (refl, refl, refl))

pub bind-Returns :
    {A B : Type 0} (m : M A) (k : A → M B) {a : A} {b : B}
    → Returns m a
    → Returns (k a) b
    → Returns (m >>= k) b
unfolding ◌>>=◌
bind-Returns m k first second e = rw (first e, ◌>>=◌) (second e)

pub pure-Yields : {A : Type 0} (a : A) → Yields (pure a) a
pure-Yields a e plenty = (e, refl, plenty, (refl, refl, refl))

pub bind-Yields :
    {A B : Type 0} (m : M A) (k : A → M B) {a : A} {b : B}
    → Yields m a
    → Yields (k a) b
    → Yields (m >>= k) b
unfolding ◌>>=◌
bind-Yields m k first second e plenty =
    let (e1, runs1, plenty1, (ioctl1, execute1, open1)) = first e plenty in
    let (e2, runs2, plenty2, (ioctl2, execute2, open2)) = second e1 plenty1 in
    (e2, rw (runs1, ◌>>=◌) runs2, plenty2, (ioctl2 ∙ ioctl1, execute2 ∙ execute1, open2 ∙ open1))

pub allocate-Yields : Yields allocate true
unfolding allocate
allocate-Yields e plenty = (
  record e { alloc = λ n. e.alloc (suc n) },
  rw (plenty 0),
  λ n. plenty (suc n),
  (refl, refl, refl),
)

-- With memory at hand an element goes to the end of the list.
pub add_element-Yields :
    {A : Type 0} (list : List A) (item : M A) {x : A}
    → Yields item x
    → Yields (add_element (some list) item) (success, some (list ++ x ∷ []))
unfolding add_element
add_element-Yields list item {x} fills =
    bind-Yields allocate _ allocate-Yields (bind-Yields item _ fills (pure-Yields _))

module _ {A : Type 0} where
  -- `rest` is `table` from index `i` on.
  abbrev pub Suffix : List A → ℕ → List A → Type 0
  Suffix table i rest = (j : ℕ) → get_elem? table (i + j) ≡ get_elem? rest j

  pub Suffix-tail :
      (table : List A) (i : ℕ) (x : A) (rest : List A)
      → Suffix table i (x ∷ rest)
      → Suffix table (i + 1) rest
  Suffix-tail table i x rest h j =
      ap (get_elem? table) (let e : i + 1 + j ≡ i + suc j = omega arith in e) ∙ h (suc j)

  pub Suffix-head :
      (table : List A) (i : ℕ) (x : A) (rest : List A)
      → Suffix table i (x ∷ rest)
      → get_elem? table i ≡ some x
  Suffix-head table i x rest h = ap (get_elem? table) (let e : i ≡ i + 0 = omega arith in e) ∙ h 0

  pub Suffix-start : (table : List A) → Suffix table 0 table
  Suffix-start table j = ap (get_elem? table) (let e : 0 + j ≡ j = omega arith in e)

module _ {A S : Type 0} where
  -- What a loop makes of its state, the index of each element given.
  abbrev pub fold_from : (ℕ → A → S → S) → ℕ → List A → S → S
  fold_from f i [] s = s
  fold_from f i (x ∷ xs) s = fold_from f (i + 1) xs (f i x s)

  abbrev pub fold : (A → S → S) → List A → S → S
  fold f [] s = s
  fold f (x ∷ xs) s = fold f xs (f x s)

  pub walk-Yields :
      (body : A → S → M (Flow S)) (f : A → S → S)
      → ((x : A) (s : S) → Yields (body x s) (next (f x s)))
      → (xs : List A) (s : S) → Yields (walk body xs s) (next (fold f xs s))
  unfolding walk
  walk-Yields body f each [] s = pure-Yields _
  walk-Yields body f each (x ∷ xs) s =
      bind-Yields (body x s) _ (each x s) (walk-Yields body f each xs (f x s))

  module _ (table : List A) (body : ℕ → S → M (Flow S)) (f : ℕ → A → S → S)
      (each : (i : ℕ) (x : A) (s : S)
        → get_elem? table i ≡ some x
        → Yields (body i s) (next (f i x s))) where
    for_loop-from :
        (rest : List A) (i : ℕ) (s : S)
        → Suffix table i rest
        → Yields (for_loop body (length rest) i s) (next (fold_from f i rest s))
    unfolding for_loop
    for_loop-from [] i s h = pure-Yields _
    for_loop-from (x ∷ rest) i s h =
        bind-Yields (body i s) _ (each i x s (Suffix-head table i x rest h))
          (for_loop-from rest (i + 1) (f i x s) (Suffix-tail table i x rest h))

    pub for_loop-Yields :
        (s : S) → Yields (for_loop body (length table) 0 s) (next (fold_from f 0 table s))
    for_loop-Yields s = for_loop-from table 0 s (Suffix-start table)
