-- ===== src/Support.antt =====
-- lib/src/support.c and common/support.h: the intrusive singly linked list that every result list of
-- the library is kept in. List elements live at addresses of an explicit heap; a `ms_list_head` is a
-- value that its owner passes in and gets back. `none` for a head is a NULL pointer.
pub mod Memory
pub mod Chain
pub mod Laws
mod Tests
use maplesyrup.Base.{ℕ, zero, suc, ◌+◌, ◌%◌, ◌^◌, Bool, Option, none, some, ◌==◌, if◌then◌else◌}

-- An address, 0 for NULL.
abbrev pub Address : Type 0
Address = ℕ

pub record MsListHead : Type 0 where
  pub head : Address
  pub tail : Address
  pub size : ℕ

-- The `next` field of the `list_element` at an address; `none` where nothing is allocated.
abbrev pub Cells : Type 0
Cells = Address → Option Address

unfoldable pub put : Cells → Address → Option Address → Cells
put cells at c a = if a == at then c else cells a

-- How an action on the cells ends; `fault` is an access through an address that holds no element.
pub data Outcome (R : Type 0) : Type 0 where
  fault : Outcome R
  exhausted : Outcome R
  done : R → Cells → Outcome R

abbrev pub Action : Type 0 → Type 0
Action R = Cells → Outcome R

abbrev pub pure : {R : Type 0} → R → Action R
pure r cells = done r cells

infixl 5 ◌>>=◌
abbrev pub ◌>>=◌ : {R S : Type 0} → Action R → (R → Action S) → Action S
◌>>=◌ first later cells = elim (first cells) [
  | fault ↦ fault
  | exhausted ↦ exhausted
  | done r cells' ↦ later r cells'
]

infixl 5 ◌>>◌
abbrev pub ◌>>◌ : {R S : Type 0} → Action R → Action S → Action S
◌>>◌ first later = first >>= λ r. later

-- element->next
pub load_next : Address → Action Address
load_next p h = elim (h p) [ none ↦ fault | some q ↦ done q h ]

-- element->next = q
pub set_next : Address → Address → Action (Unit {0})
set_next p q h = elim (h p) [ none ↦ fault | some _ ↦ done tt (put h p (some q)) ]

-- free (element)
pub release : Address → Action (Unit {0})
release p h = elim (h p) [ none ↦ fault | some _ ↦ done tt (put h p none) ]

abbrev pub empty_head : MsListHead
empty_head = record { head = 0; tail = 0; size = 0 }

pub ms_list_init : Option MsListHead → Option MsListHead
ms_list_init none = none
ms_list_init (some l) = some empty_head

-- `size` is an unsigned int.
bump : MsListHead → ℕ
bump l = (l.size + 1) % 2 ^ 32

pub add_first : MsListHead → Address → Action MsListHead
unfolding bump set_next
add_first l toadd = do set_next toadd 0; pure (record { head = toadd; tail = toadd; size = bump l })

pub add_last : MsListHead → Address → Action MsListHead
unfolding bump set_next
add_last l toadd = do
  set_next l.tail toadd
  set_next toadd 0
  pure (record l { tail = toadd; size = bump l })

pub ms_list_add : Option MsListHead → Address → Action (Option MsListHead)
unfolding add_first add_last
ms_list_add none toadd = pure none
ms_list_add (some l) toadd =
    if toadd == 0
    then pure (some l)
    else (if l.head == 0
        then (add_first l toadd >>= λ l'. pure (some l'))
        else (if l.tail == 0 then pure (some l) else (add_last l toadd >>= λ l'. pure (some l'))))

pub free_loop : ℕ → Address → Action (Unit {0})
unfolding load_next release
free_loop zero element h = exhausted
free_loop (suc rounds) element h =
    let rest : Outcome (Unit {0}) =
      (do next ← load_next element; release element; free_loop rounds next) h in
    if element == 0 then done tt h else rest

-- The loop is given one round more than the list says it has elements.
pub ms_list_free : Option MsListHead → Action (Option MsListHead)
unfolding free_loop
ms_list_free none = pure none
ms_list_free (some l) =
    if l.size == 0 then pure (some l) else (free_loop (l.size + 1) l.head >> pure (some empty_head))
