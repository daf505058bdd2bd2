-- ===== src/Support/Laws.antt =====
-- `ms_list_add` and `ms_list_free` on well-formed lists: what they do to the list and to the heap.
use mathlib.Core.Path.{subst}
use maplesyrup.Base.{
  ℕ, zero, suc, ◌+◌, ◌%◌, ◌^◌, ◌<◌, ◌≡◌, refl, sym, ap, ◌∙◌, ◌≢◌, false, none, some, List, [], ◌∷◌,
  ◌++◌, arith, ◌==◌, if◌then◌else◌, ==_ne, length, length-append,
}
use maplesyrup.Support.{
  Address, Cells, put, MsListHead, done, empty_head, add_last, ms_list_add, free_loop, ms_list_free,
  ◌>>=◌,
}
use maplesyrup.Support.Memory.{write_self, write_other, load_next-done, set_next-done, release-done}
use maplesyrup.Support.Chain.{
  first, last, has, Linked, Distinct, IsList, last-has, ne_of_has, Linked-last, Linked-last-some,
  Linked-frame, Distinct-snoc, last-snoc, appended, appended-other, Linked-snoc,
}

-- `g` differs from `h` at most at `t` and `x`.
abbrev pub SameOutside : Address → Address → Cells → Cells → Type 0
SameOutside t x h g = (a : Address) → a ≢ t → a ≢ x → g a ≡ h a

-- What a successful `ms_list_add` leaves behind.
pub record Added (h : Cells) (l : MsListHead) (es : List Address) (x : Address) : Type 0 where
  pub l' : MsListHead
  pub h' : Cells
  pub runs : ms_list_add (some l) x h ≡ done (some l') h'
  pub grown : IsList h' l' (es ++ x ∷ [])
  pub same : SameOutside l.tail x h h'

add_last-done :
    (h : Cells) (l : MsListHead) (x : Address) {p q : Address}
    → h l.tail ≡ some p
    → h x ≡ some q
    → x ≢ l.tail
    → add_last l x h
      ≡ done (record l { tail = x; size = (l.size + 1) % 2 ^ 32 }) (appended h l.tail x)
unfolding add_last
add_last-done h l x used new ne = rw (
  set_next-done h l.tail used x,
  set_next-done (put h l.tail (some x)) x (write_other h l.tail (some x) x ne ∙ new) 0,
  ◌>>=◌,
)

module _ {h : Cells} {l : MsListHead} (x q : Address) where
  add_first-Added : IsList h l [] → x ≢ 0 → h x ≡ some q → Added h l [] x
  unfolding ms_list_add
  add_first-Added is ne new = record {
    l' = record { head = x; tail = x; size = (l.size + 1) % 2 ^ 32 };
    h' = put h x (some 0);
    runs = rw (==_ne x 0 ne, is.head, set_next-done h x new 0, ◌>>=◌);
    grown = record {
      head = refl;
      tail = refl;
      size = omega (arith, is.size);
      linked = (ne, write_self h x (some 0), tt);
      distinct = (refl, tt);
    };
    same = λ a not_tail not_x. write_other h x (some 0) a not_x;
  }

  add_last-Added :
      (a : Address) (es : List Address)
      → IsList h l (a ∷ es)
      → x ≢ 0
      → h x ≡ some q
      → has x (a ∷ es) ≡ false
      → Added h l (a ∷ es) x
  unfolding ms_list_add
  add_last-Added a es is ne new out = record {
    l' = record l { tail = x; size = (l.size + 1) % 2 ^ 32 };
    h' = appended h l.tail x;
    runs = rw (==_ne x 0 ne, has_head, has_tail, add_last-done h l x tail_used new not_tail, ◌>>=◌);
    grown = record {
      head = is.head;
      tail = sym (last-snoc x (a ∷ es));
      size = omega (arith, is.size, length-append (a ∷ es) (x ∷ []));
      linked =
          subst (λ t. Linked (appended h t x) ((a ∷ es) ++ x ∷ [])) (sym is.tail)
            (Linked-snoc h a es x is.linked is.distinct out ne);
      distinct = Distinct-snoc x (a ∷ es) is.distinct out;
    };
    same = appended-other h l.tail x;
  }
    where
      has_head : (l.head == 0) ≡ false
      has_head = ==_ne l.head 0 (λ e. is.linked.0 (sym is.head ∙ e))

      has_tail : (l.tail == 0) ≡ false
      has_tail = ==_ne l.tail 0 (λ e. Linked-last h a es is.linked (sym is.tail ∙ e))

      tail_used : h l.tail ≡ some 0
      tail_used = ap h is.tail ∙ Linked-last-some h a es is.linked

      not_tail : x ≢ l.tail
      not_tail e = ne_of_has (last (a ∷ es)) x (a ∷ es) (last-has a es) out (sym (e ∙ is.tail))

-- `ms_list_add` of an allocated element that is not on the list puts it behind the last one, and
-- writes to no element but that and the one that was last.
pub add-Added :
    {h : Cells} {l : MsListHead} (es : List Address) (x q : Address)
    → IsList h l es
    → x ≢ 0
    → h x ≡ some q
    → has x es ≡ false
    → Added h l es x
add-Added [] x q is ne free out = add_first-Added x q is ne free
add-Added (a ∷ es) x q is ne free out = add_last-Added x q a es is ne free out

-- `g` is `h` less the elements of `es`.
abbrev pub Without : List Address → Cells → Cells → Type 0
Without es h g = (a : Address) → g a ≡ (if has a es then none else h a)

Without-cons :
    (h g : Cells) (a : Address) (es : List Address)
    → Without es (put h a none) g
    → Without (a ∷ es) h g
unfolding put
Without-cons h g a es gone b = ground (arith, gone b)

free_loop-Without :
    (rounds : ℕ) (h : Cells) (es : List Address)
    → Linked h es
    → Distinct es
    → length es < rounds
    → (g : Cells) × (free_loop rounds (first es) h ≡ done tt g) × Without es h g
unfolding free_loop
free_loop-Without zero h es k d fuel = absurd (omega arith)
free_loop-Without (suc rounds) h [] k d fuel = (h, refl, λ a. refl)
free_loop-Without (suc rounds) h (a ∷ es) k d fuel =
    let (g, runs, gone) = free_loop-Without rounds (put h a none) es kept d.1 (omega arith) in
    (
      g,
      rw (==_ne a 0 k.0, load_next-done h a k.1, release-done h a k.1, ◌>>=◌) runs,
      Without-cons h g a es gone,
    )
  where
    kept : Linked (put h a none) es
    kept =
        Linked-frame h (put h a none) es (λ b i. write_other h a none b (ne_of_has b a es i d.0))
          k.2

-- What `ms_list_free` leaves behind.
pub record Freed (h : Cells) (l : MsListHead) (es : List Address) : Type 0 where
  pub l' : MsListHead
  pub h' : Cells
  pub runs : ms_list_free (some l) h ≡ done (some l') h'
  pub emptied : IsList h' l' []
  pub gone : Without es h h'

-- `ms_list_free` gives back exactly the elements of the list, each once, and leaves an empty list,
-- as long as the list is shorter than its size counter can count.
pub free-Freed :
    {h : Cells} {l : MsListHead} (es : List Address)
    → IsList h l es
    → length es < 2 ^ 32
    → Freed h l es
unfolding ms_list_free
free-Freed {h} {l} [] is fits = record {
  l' = l;
  h' = h;
  runs = rw is.size;
  emptied = is;
  gone = λ a. refl;
}
free-Freed {h} {l} (a ∷ es) is fits =
    let (g, runs, gone) =
      free_loop-Without (l.size + 1) h (a ∷ es) is.linked is.distinct (omega (arith, is.size)) in
    record {
      l' = empty_head;
      h' = g;
      runs = rw (==_ne l.size 0 (omega (arith, is.size)), is.head, runs, ◌>>=◌);
      emptied = record { head = refl; tail = refl; size = refl; linked = tt; distinct = tt };
      gone = gone;
    }
