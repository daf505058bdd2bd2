-- ===== src/Support/Memory.antt =====
-- Reads and writes of list elements: what a put changes, and when an access succeeds.
use maplesyrup.Base.{◌≡◌, ◌≢◌, Option, none, some, ==_refl, ==_ne}
use maplesyrup.Support.{Address, Cells, put, done, load_next, set_next, release}

module _ (h : Cells) (p : Address) (c : Option Address) where
  pub write_self : put h p c p ≡ c
  unfolding put
  write_self = rw (==_refl p)

  pub write_other : (a : Address) → a ≢ p → put h p c a ≡ h a
  unfolding put
  write_other a ne = rw (==_ne a p ne)

module _ (h : Cells) (p : Address) {r : Address} (used : h p ≡ some r) where
  pub load_next-done : load_next p h ≡ done r h
  unfolding load_next
  load_next-done = rw (used, load_next)

  pub set_next-done : (q : Address) → set_next p q h ≡ done tt (put h p (some q))
  unfolding set_next
  set_next-done q = rw (used, set_next)

  pub release-done : release p h ≡ done tt (put h p none)
  unfolding release
  release-done = rw (used, release)
