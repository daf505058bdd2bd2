-- ===== src/Support/Tests.antt =====
-- The list of lib/src/support.c run on small heaps.
use maplesyrup.Base.{◌≡◌, refl, none, some, [], ◌∷◌, arith, ◌==◌, if◌then◌else◌}
use maplesyrup.Support.{Cells, put, MsListHead, done, fault, empty_head, ms_list_add, ◌>>=◌}
use maplesyrup.Support.Chain.{IsList}
use maplesyrup.Support.Laws.{Added, add-Added, Freed, free-Freed}

-- Elements at 16 and 32, on no list yet.
abbrev fresh : Cells
fresh a = if a == 16 then some 7 else (if a == 32 then some 7 else none)

-- The element at 16 is the only one of a list.
abbrev one : Cells
one a = if a == 16 then some 0 else (if a == 32 then some 7 else none)

abbrev one_head : MsListHead
one_head = record { head = 16; tail = 16; size = 1 }

one-IsList : IsList one one_head (16 ∷ [])
one-IsList = record {
  head = refl;
  tail = refl;
  size = refl;
  linked = (ground arith, refl, tt);
  distinct = (refl, tt);
}

add-Added_example : Added one one_head (16 ∷ []) 32
add-Added_example = add-Added (16 ∷ []) 32 7 one-IsList (omega arith) refl refl

free-Freed_example : Freed one one_head (16 ∷ [])
free-Freed_example = free-Freed (16 ∷ []) one-IsList (omega arith)

-- Two additions to a new list keep the order of arrival, and count.
add_twice :
    (ms_list_add (some empty_head) 16 >>= λ l. ms_list_add l 32) fresh
    ≡ done
        (some (record { head = 16; tail = 32; size = 2 }))
        (put (put (put fresh 16 (some 0)) 16 (some 32)) 32 (some 0))
unfolding ms_list_add put
add_twice = refl

-- An element that was already given back is not found.
add_freed : ms_list_add (some empty_head) 48 fresh ≡ fault
unfolding ms_list_add put
add_freed = refl

add_null : ms_list_add (some one_head) 0 one ≡ done (some one_head) one
unfolding ms_list_add
add_null = refl
