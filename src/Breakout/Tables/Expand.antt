-- ===== src/Breakout/Tables/Expand.antt =====
-- What `read_tables_to_memory` leaves in memory: the rows in order, each expanded. It stays inside the
-- memory that it asked for.
use mathlib.Core.Path.{subst}
use maplesyrup.Base.{
  ℕ, zero, suc, ◌+◌, ◌-◌, ◌*◌, ◌^◌, All, ◌≤◌, ◌<◌, ◌≡◌, refl, ap, true, some, List, [], ◌∷◌, ◌++◌,
  map, append_assoc, append-nil, arith, length, length-append, lt→ltb, if◌then◌else◌,
}
use maplesyrup.Structs.{BitfieldInfo, BitfieldInfoHeap, type_mm, parse_max_register}
use maplesyrup.Env.{M, deref}
use maplesyrup.Env.Loop.{Flow, next, for_loop}
use maplesyrup.Env.Yields.{Returns, bind-Returns, Suffix, Suffix-tail, Suffix-head}
use maplesyrup.Breakout.Tables.{
  BitfieldTableEntry, Buffer, system_entry, device_entry, push, terminated,
  sizeof_bitfield_info_heap, system_body, device_copy, device_body, is_system, with_device,
}

abbrev pub buffer : ℕ → List BitfieldInfoHeap → Buffer
buffer c cells = record { capacity = c; cells = cells }

-- One entry for each index of a range, from `k` on, the first of them at `index`.
unfoldable pub device_copies :
    BitfieldTableEntry → BitfieldInfo → (n k index : ℕ) → List BitfieldInfoHeap
device_copies row x zero k index = []
device_copies row x (suc n) k index =
    device_entry row x k index ∷ device_copies row x n (k + 1) (index + 1)

unfoldable pub device_entries : BitfieldTableEntry → ℕ → List BitfieldInfo → List BitfieldInfoHeap
unfolding device_copies
device_entries row index [] = []
device_entries row index (x ∷ xs) =
    device_copies row x x.range 0 index ++ device_entries row (index + x.range) xs

unfoldable pub row_entries : ℕ → BitfieldTableEntry → ℕ → List BitfieldInfoHeap
unfolding device_entries
row_entries include_devices row index =
    if is_system row.table_type
    then map (system_entry row) row.table_ptr
    else (if with_device include_devices row.table_type
        then device_entries row index row.table_ptr
        else [])

unfoldable pub expand : ℕ → ℕ → List BitfieldTableEntry → List BitfieldInfoHeap
unfolding row_entries
expand include_devices index [] = []
expand include_devices index (row ∷ rows) =
    let entries = row_entries include_devices row index in
    entries ++ expand include_devices (index + length entries) rows

abbrev pub sum_ranges : List BitfieldInfo → ℕ
sum_ranges [] = 0
sum_ranges (x ∷ xs) = x.range + sum_ranges xs

-- The copy of the name of a register has a zero behind it.
abbrev pub IsTerminated : BitfieldInfo → Type 0
IsTerminated x = length x.register_name < parse_max_register - 1

-- The sizes that a row reports are those of its table, and the names of its registers are short.
pub record IsSized (row : BitfieldTableEntry) : Type 0 where
  pub system : is_system row.table_type ≡ true → row.table_size_ptr ≡ length row.table_ptr
  pub device_size : row.table_type ≡ type_mm → row.table_size_ptr ≡ sum_ranges row.table_ptr
  pub device_compsize :
      row.table_type ≡ type_mm → row.table_compsize_ptr ≡ some (length row.table_ptr)
  pub names : All IsTerminated row.table_ptr

abbrev pub sum_sizes : List BitfieldTableEntry → ℕ
sum_sizes [] = 0
sum_sizes (row ∷ rows) = row.table_size_ptr + sum_sizes rows

-- Rows of the right sizes, of which the bytes fit an unsigned int.
abbrev pub AreSized : List BitfieldTableEntry → Type 0
AreSized rows = All IsSized rows × (sum_sizes rows * sizeof_bitfield_info_heap < 2 ^ 32)

terminated-Returns : (x : BitfieldInfo) → IsTerminated x → Returns (terminated x) x
unfolding terminated
terminated-Returns x short =
    rw (lt→ltb (length x.register_name) (parse_max_register - 1) short) (λ e. refl)

push-Returns :
    (c : ℕ) (cells : List BitfieldInfoHeap) (x : BitfieldInfoHeap)
    → length cells < c
    → Returns (push (buffer c cells) x) (buffer c (cells ++ x ∷ []))
unfolding push
push-Returns c cells x room = rw (lt→ltb (length cells) c room) (λ e. refl)

length-snoc :
    (cells : List BitfieldInfoHeap) (x : BitfieldInfoHeap)
    → length (cells ++ x ∷ []) ≡ length cells + 1
length-snoc cells x = length-append cells (x ∷ [])

-- Entries that are appended one by one end up behind those that were there.
abbrev pub Appends : ℕ → M (Flow Buffer) → List BitfieldInfoHeap → Type 0
Appends c m cells = Returns m (next (buffer c cells))

regroup :
    (c : ℕ) (m : M (Flow Buffer)) (xs ys zs : List BitfieldInfoHeap)
    → Appends c m ((xs ++ ys) ++ zs)
    → Appends c m (xs ++ (ys ++ zs))
regroup c m xs ys zs = subst (Appends c m) (append_assoc xs ys zs)

module _ (row : BitfieldTableEntry) (c : ℕ) where
  pub system_loop-Appends :
      (xs : List BitfieldInfo) (j : ℕ) (cells : List BitfieldInfoHeap)
      → Suffix row.table_ptr j xs
      → All IsTerminated xs
      → length cells + length xs ≤ c
      → Appends c
          (for_loop (system_body row) (length xs) j (buffer c cells))
          (cells ++ map (system_entry row) xs)
  unfolding for_loop system_body
  system_loop-Appends [] j cells at short room = λ e. rw append-nil
  system_loop-Appends (x ∷ xs) j cells at (here, short) room =
      let y = system_entry row x in
      rw (Suffix-head row.table_ptr j x xs at) (
        bind-Returns _ _
          (bind-Returns (deref (some x)) _ (λ e. refl)
            (bind-Returns (terminated x) _ (terminated-Returns x here) (
              bind-Returns (push (buffer c cells) y) _ (push-Returns c cells y (omega arith))
                (λ e. refl))))
          (regroup c _ cells (y ∷ []) (map (system_entry row) xs) (
            system_loop-Appends xs (j + 1) (cells ++ y ∷ []) (Suffix-tail row.table_ptr j x xs at)
              short (omega (arith, length-snoc cells y)))))

  device_copies-Appends :
      (x : BitfieldInfo) (n k : ℕ) (cells : List BitfieldInfoHeap)
      → IsTerminated x
      → length cells + n ≤ c
      → Appends c
          (for_loop (device_copy row x) n k (buffer c cells))
          (cells ++ device_copies row x n k (length cells))
  unfolding for_loop device_copy device_copies
  device_copies-Appends x zero k cells short room = λ e. rw append-nil
  device_copies-Appends x (suc n) k cells short room =
      let y = device_entry row x k (length cells) in
      bind-Returns _ _
        (bind-Returns (terminated x) _ (terminated-Returns x short) (
          bind-Returns (push (buffer c cells) y) _ (push-Returns c cells y (omega arith))
            (λ e. refl)))
        (regroup c _ cells (y ∷ []) (device_copies row x n (k + 1) (length cells + 1)) (
          subst
            (λ (i : ℕ).
              Appends c (for_loop (device_copy row x) n (k + 1) (buffer c (cells ++ y ∷ [])))
                ((cells ++ y ∷ []) ++ device_copies row x n (k + 1) i))
            (length-snoc cells y)
            (device_copies-Appends x n (k + 1) (cells ++ y ∷ []) short
              (omega (arith, length-snoc cells y)))))

length-device_copies :
    (row : BitfieldTableEntry) (x : BitfieldInfo) (n k index : ℕ)
    → length (device_copies row x n k index) ≡ n
unfolding device_copies
length-device_copies row x zero k index = refl
length-device_copies row x (suc n) k index =
    ap suc (length-device_copies row x n (k + 1) (index + 1))

pub length-device_entries :
    (row : BitfieldTableEntry) (index : ℕ) (xs : List BitfieldInfo)
    → length (device_entries row index xs) ≡ sum_ranges xs
unfolding device_entries
length-device_entries row index [] = refl
length-device_entries row index (x ∷ xs) = omega (
  arith,
  length-append (device_copies row x x.range 0 index) (device_entries row (index + x.range) xs),
  length-device_copies row x x.range 0 index,
  length-device_entries row (index + x.range) xs,
)

module _ (row : BitfieldTableEntry) (c : ℕ) where
  pub device_loop-Appends :
      (xs : List BitfieldInfo) (j : ℕ) (cells : List BitfieldInfoHeap)
      → Suffix row.table_ptr j xs
      → All IsTerminated xs
      → length cells + sum_ranges xs ≤ c
      → Appends c
          (for_loop (device_body row) (length xs) j (buffer c cells))
          (cells ++ device_entries row (length cells) xs)
  unfolding for_loop device_body device_entries
  device_loop-Appends [] j cells at short room = λ e. rw append-nil
  device_loop-Appends (x ∷ xs) j cells at (here, short) room =
      let ys = device_copies row x x.range 0 (length cells) in
      let grown : length (cells ++ ys) ≡ length cells + x.range =
        omega
          (arith, length-append cells ys, length-device_copies row x x.range 0 (length cells)) in
      rw (Suffix-head row.table_ptr j x xs at) (
        bind-Returns _ _
          (bind-Returns (deref (some x)) _ (λ e. refl)
            (device_copies-Appends row c x x.range 0 cells here (omega arith)))
          (regroup c _ cells ys (device_entries row (length cells + x.range) xs) (
            subst
              (λ (i : ℕ).
                Appends c (for_loop (device_body row) (length xs) (j + 1) (buffer c (cells ++ ys)))
                  ((cells ++ ys) ++ device_entries row i xs))
              grown
              (device_loop-Appends xs (j + 1) (cells ++ ys) (Suffix-tail row.table_ptr j x xs at)
                short (omega (arith, grown))))))
