-- ===== src/Support/Chain.antt =====
-- What a list head stands for: the addresses of its elements, in order.
use maplesyrup.Base.{
  ◌%◌, ◌^◌, ◌≡◌, refl, sym, ◌∙◌, ◌≢◌, Bool, true, false, ◌||◌, some, List, [], ◌∷◌, ◌++◌, arith,
  ◌==◌, length,
}
use maplesyrup.Support.{Address, Cells, put, MsListHead}
use maplesyrup.Support.Memory.{write_self, write_other}

abbrev pub first : List Address → Address
first [] = 0
first (a ∷ es) = a

abbrev pub last : List Address → Address
last [] = 0
last (a ∷ []) = a
last (a ∷ b ∷ es) = last (b ∷ es)

abbrev pub has : Address → List Address → Bool
has a [] = false
has a (b ∷ es) = (a == b) || has a es

-- Each element is allocated and leads to the one behind it, the last one to NULL.
abbrev pub Linked : Cells → List Address → Type 0
Linked h [] = Unit
Linked h (a ∷ es) = (a ≢ 0) × (h a ≡ some (first es)) × Linked h es

abbrev pub Distinct : List Address → Type 0
Distinct [] = Unit
Distinct (a ∷ es) = (has a es ≡ false) × Distinct es

pub record IsList (h : Cells) (l : MsListHead) (es : List Address) : Type 0 where
  pub head : l.head ≡ first es
  pub tail : l.tail ≡ last es
  pub size : l.size ≡ length es % 2 ^ 32
  pub linked : Linked h es
  pub distinct : Distinct es

pub not_has-cons :
    (x a : Address) (es : List Address) → has x (a ∷ es) ≡ false → (x ≢ a) × (has x es ≡ false)
not_has-cons x a es h = ground arith

pub ne_of_has : (a x : Address) (es : List Address) → has a es ≡ true → has x es ≡ false → a ≢ x
ne_of_has a x es i out e = ground arith

pub last-has : (a : Address) (es : List Address) → has (last (a ∷ es)) (a ∷ es) ≡ true
last-has a [] = ground arith
last-has a (b ∷ es) = ground (arith, last-has b es)

pub Linked-last :
    (h : Cells) (a : Address) (es : List Address) → Linked h (a ∷ es) → last (a ∷ es) ≢ 0
Linked-last h a [] k = k.0
Linked-last h a (b ∷ es) k = Linked-last h b es k.2

pub Linked-last-some :
    (h : Cells) (a : Address) (es : List Address) → Linked h (a ∷ es) → h (last (a ∷ es)) ≡ some 0
Linked-last-some h a [] k = k.1
Linked-last-some h a (b ∷ es) k = Linked-last-some h b es k.2

-- A chain stands as long as its own addresses are left alone.
pub Linked-frame :
    (h g : Cells) (es : List Address)
    → ((a : Address) → has a es ≡ true → g a ≡ h a)
    → Linked h es
    → Linked g es
Linked-frame h g [] same k = tt
Linked-frame h g (a ∷ es) same k =
    (k.0, ground (arith, same a), Linked-frame h g es (λ b i. same b (ground arith)) k.2)

pub has-snoc : (a x : Address) (es : List Address) → has a (es ++ x ∷ []) ≡ (has a es || (a == x))
has-snoc a x [] = ground arith
has-snoc a x (b ∷ es) = ground (arith, has-snoc a x es)

pub Distinct-snoc :
    (x : Address) (es : List Address) → Distinct es → has x es ≡ false → Distinct (es ++ x ∷ [])
Distinct-snoc x [] d out = (refl, tt)
Distinct-snoc x (a ∷ es) d out =
    (ground (arith, has-snoc a x es), Distinct-snoc x es d.1 (ground arith))

pub last-snoc : (x : Address) (es : List Address) → last (es ++ x ∷ []) ≡ x
last-snoc x [] = refl
last-snoc x (a ∷ []) = refl
last-snoc x (a ∷ b ∷ es) = last-snoc x (b ∷ es)

pub first-snoc : (a x : Address) (es : List Address) → first ((a ∷ es) ++ x ∷ []) ≡ a
first-snoc a x es = refl

-- The heap in which `x` is put behind the last element.
abbrev pub appended : Cells → Address → Address → Cells
appended h t x = put (put h t (some x)) x (some 0)

pub appended-other : (h : Cells) (t x a : Address) → a ≢ t → a ≢ x → appended h t x a ≡ h a
appended-other h t x a not_t not_x =
    write_other (put h t (some x)) x (some 0) a not_x ∙ write_other h t (some x) a not_t

pub appended-tail : (h : Cells) (t x : Address) → t ≢ x → appended h t x t ≡ some x
appended-tail h t x not_x =
    write_other (put h t (some x)) x (some 0) t not_x ∙ write_self h t (some x)

pub Linked-snoc :
    (h : Cells) (a : Address) (es : List Address) (x : Address)
    → Linked h (a ∷ es)
    → Distinct (a ∷ es)
    → has x (a ∷ es) ≡ false
    → x ≢ 0
    → Linked (appended h (last (a ∷ es)) x) ((a ∷ es) ++ x ∷ [])
Linked-snoc h a [] x k d out ne = (
  k.0,
  appended-tail h a x (λ e. (not_has-cons x a [] out).0 (sym e)),
  (ne, write_self (put h a (some x)) x (some 0), tt),
)
Linked-snoc h a (b ∷ es) x k d out ne = (
  k.0,
  appended-other h (last (b ∷ es)) x a
        (λ e. ne_of_has (last (b ∷ es)) a (b ∷ es) (last-has b es) d.0 (sym e))
        (λ e. (not_has-cons x a (b ∷ es) out).0 (sym e))
      ∙ k.1,
  Linked-snoc h b es x k.2 d.1 (not_has-cons x a (b ∷ es) out).1 ne,
)
