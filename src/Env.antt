-- ===== src/Env.antt =====
-- How the library of lib/src runs: steps that may allocate, call the driver, or fault. What the
-- program does not decide is a stream in the environment, of which each call takes the first item.
pub mod Loop
pub mod Yields
pub mod Gather
use maplesyrup.Base.{
  ℕ, suc, Bool, true, false, Option, none, some, List, [], ◌∷◌, ◌++◌, if◌then◌else◌,
}
use maplesyrup.Structs.{Status, success, failure, MsDataCpu, MsData}

-- How the run of an instruction that reads a system register ends: with its outputs, or with SIGILL.
pub data Executed : Type 0 where
  outputs : (out64 out1 out2 : ℕ) → Executed
  illegal : Executed

pub record Env : Type 0 where
  pub alloc : ℕ → Bool  -- whether the allocations to come return memory
  pub ioctl : ℕ → ℕ → MsDataCpu → Option MsDataCpu  -- the driver's answers, `none` for -1
  pub execute : ℕ → ℕ → Executed  -- the register reads to come, by code
  pub device_open : Bool  -- ms_fd is not -1

-- `fault` is undefined behaviour: an access through NULL or outside an array.
pub data Out (A : Type 0) : Type 0 where
  ret : A → Env → Out A
  fault : Out A

abbrev pub M : Type 0 → Type 0
M A = Env → Out A

abbrev pub pure : {A : Type 0} → A → M A
pure = ret

abbrev pub crash : {A : Type 0} → M A
crash e = fault

infixl 5 ◌>>=◌ ◌>>◌
unfoldable pub ◌>>=◌ : {A B : Type 0} → M A → (A → M B) → M B
◌>>=◌ m k e = elim (m e) [ ret a e' ↦ k a e' | fault ↦ fault ]

abbrev pub ◌>>◌ : {A B : Type 0} → M A → M B → M B
m >> n = m >>= λ _. n

abbrev pub rest_of {ℓ} : {A : Type ℓ} → (ℕ → A) → ℕ → A
rest_of s n = s (suc n)

-- calloc (1, …) or malloc: whether it returned memory
pub allocate : M Bool
allocate e = ret (e.alloc 0) (record e { alloc = rest_of e.alloc })

-- The value behind a pointer that may be NULL.
abbrev pub deref : {A : Type 0} → Option A → M A
deref none = crash
deref (some a) = pure a

-- The body that the `breakout_add_…` functions share: NULL check, allocation, filling the element in,
-- `ms_list_add`.
pub add_element : {A : Type 0} → Option (List A) → M A → M (Status × Option (List A))
unfolding allocate
add_element none item = pure (failure, none)
add_element (some list) item = do
  got ← allocate
  if got then (do x ← item; pure (success, some (list ++ x ∷ []))) else pure (failure, some list)
