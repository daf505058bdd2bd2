-- ===== src/Kernel/Read/Answers.antt =====
-- What a read in the kernel answers for each processor, the register of the whole request.
use native.Mathlib.Nat.{zero-add}
use mathlib.Core.Option.{some-injective}
use mathlib.Core.Path.{subst}
use maplesyrup.Base.{
  ℕ, suc, ◌<◌, ◌≡◌, refl, sym, ap, ◌∙◌, ◌⊎◌, inl, inr, Bool, true, none, some, List, [], ◌∷◌, zero,
  length, get_elem?, set, replicate, All, Bool-cases, false, arith,
}
use maplesyrup.Structs.{
  Status, success, failure, MsData, MsDataCpu, ms_max_cpus, ms_error_undefinst,
}
use maplesyrup.Env.{Executed, outputs, illegal}
use maplesyrup.Usermode.{FuncTableEntry, no_outputs, store}
use maplesyrup.Usermode.Values.{
  row_for, is_known, with_outputs, read_data, store-known, store-unknown, store-zero,
}
use maplesyrup.Usermode.Flag.{find_from-cases}
use maplesyrup.Kernel.{
  Machine, Wrapper, zero_wrapper, zero_entry, ◌>>=◌, copy_entry, copy_entries,
  repack_result_wrapper, find_function_index, set_undef_flag, returned, undef_hook, cpu_index_of,
  begun, finish, call_row, call_func_ptr,
}
use maplesyrup.Kernel.Cpus.{Thread, ms_cpu_all}
use maplesyrup.Kernel.Cpus.Each.{with_cpus, each, entry_after, length-each, on_each_cpu_kick-each}
use maplesyrup.Kernel.Read.{repacked, kicked, call_func_return_results}

pub copy_entries-all :
    (from to : List MsData) → length from ≡ length to → copy_entries from to ≡ from
unfolding copy_entries copy_entry
copy_entries-all [] [] h = refl
copy_entries-all [] (t ∷ to) h = absurd (omega arith)
copy_entries-all (f ∷ from) [] h = absurd (omega arith)
copy_entries-all (f ∷ from) (t ∷ to) h = ap (◌∷◌ f) (copy_entries-all from to (omega arith))

-- The entry of a processor on which the row is read: its number, its MIDR, and what the read gave there.
abbrev pub read_entry : Machine → FuncTableEntry → ℕ → MsData → MsData
read_entry k f i d =
    read_data ms_error_undefinst k.aarch64 f (k.execute i f.code)
      (record d { cpu = i; midr = k.midr i })

-- A row that is called has a pointer that is not NULL; the last row of the table is not called.
abbrev pub IsCallable : FuncTableEntry → Type 0
IsCallable f = (f.func_ptr ≡ true) ⊎ (f.data_size ≡ 0)

is_known-end : (f : FuncTableEntry) → f.data_size ≡ 0 → is_known f ≡ false
is_known-end f h = ground arith

finish-executed :
    (aarch64 : Bool) (f : FuncTableEntry) (d : MsData) (x : Executed)
    → is_known f ≡ true
    → finish aarch64 f (with_outputs d no_outputs) (returned 0 x)
      ≡ (0, read_data ms_error_undefinst aarch64 f x d)
unfolding finish returned undef_hook set_undef_flag
finish-executed aarch64 f d (outputs out64 out1 out2) known =
    rw
      (
        known,
        store-known aarch64 f (record { first64 = out64; first = out1; second = out2 }) d known,
      )
      refl
finish-executed aarch64 f d illegal known = rw (known, store-zero aarch64 f d known) refl

call_row-entry :
    (k : Machine) (f : FuncTableEntry) (i : ℕ) (d : MsData)
    → IsCallable f
    → call_row k f i 0 (begun k i d) (store k.aarch64 f no_outputs (begun k i d))
      ≡ some (0, read_entry k f i d)
unfolding call_row begun
call_row-entry k f i d callable = elim (Bool-cases (is_known f)) [
  | inr unknown ↦ rw (unknown, store-unknown k.aarch64 f no_outputs (begun k i d) unknown) refl
  | inl known ↦ elim callable [
    | inl pointer ↦
        let d' : MsData = record d { cpu = i; midr = k.midr i } in
        rw (store-zero k.aarch64 f d' known)
          (simp (pointer, finish-executed k.aarch64 f d' (k.execute i f.code) known) refl)
    | inr end ↦ cc (sym known ∙ is_known-end f end)
  ]
]

call_func_ptr-entry :
    (k : Machine) (func_table : List FuncTableEntry) (f : FuncTableEntry) (w : Wrapper)
    → k.config_smp ≡ true
    → get_elem? func_table w.found_index ≡ some f
    → IsCallable f
    → (i : ℕ) (l : List MsData) (d : MsData) → get_elem? l i ≡ some d
    → call_func_ptr k func_table i 0 (some (with_cpus w l))
      ≡ some (0, some (with_cpus w (set l i (read_entry k f i d))))
unfolding call_func_ptr cpu_index_of ◌>>=◌
call_func_ptr-entry k func_table f w smp row callable i l d at =
    simp (smp, at, row, call_row-entry k f i d callable) refl

get_elem?-All :
    (P : FuncTableEntry → Type 0) (fs : List FuncTableEntry) (i : ℕ) (f : FuncTableEntry)
    → All P fs
    → get_elem? fs i ≡ some f
    → P f
get_elem?-All P [] i f all at = ground arith
get_elem?-All P (x ∷ fs) zero f (here, rest) at = subst P (some-injective x f at) here
get_elem?-All P (x ∷ fs) (suc i) f (here, rest) at = get_elem?-All P fs i f rest at

-- The wrapper that a request is copied to.
abbrev pub request_wrapper : MsDataCpu → (found_index base_addr : ℕ) → Wrapper
request_wrapper d found_index base_addr = record {
  found_index = found_index;
  base_addr = base_addr;
  pcpu = d.pcpu;
  results = record zero_wrapper.results { cpu = d.cpu; code = d.code };
}

pub unpack-cpus :
    (d : MsDataCpu)
    → length d.cpu ≡ ms_max_cpus
    → copy_entries d.cpu (replicate ms_max_cpus zero_entry) ≡ d.cpu
unpack-cpus d eight = copy_entries-all d.cpu (replicate ms_max_cpus zero_entry) eight

-- A request for one of the processors, or for all of them.
abbrev pub IsRequest : MsDataCpu → Type 0
IsRequest d = (d.pcpu ≡ ms_cpu_all) ⊎ (d.pcpu < ms_max_cpus)

-- The request with an answer of each processor that is asked.
abbrev pub answered : Machine → (ℕ → MsData → MsData) → MsDataCpu → MsDataCpu
answered k g d = record d { cpu = each (entry_after k d.pcpu g) 0 d.cpu }

-- What a call of a function on the processors leaves, where it makes `g` of their entries.
pub kicked-each :
    (k : Machine) (thread : Thread) (d : MsDataCpu) (index base : ℕ) (g : ℕ → MsData → MsData)
    → k.config_smp ≡ true
    → length d.cpu ≡ ms_max_cpus
    → IsRequest d
    → ((i : ℕ) (l : List MsData) (x : MsData)
        → get_elem? l i ≡ some x
        → thread i 0 (some (with_cpus (request_wrapper d index base) l))
          ≡ some (0, some (with_cpus (request_wrapper d index base) (set l i (g i x)))))
    → kicked k thread 0 (some (request_wrapper d index base)) (some d)
      ≡ some (success, 0, some (answered k g d))
unfolding kicked repacked repack_result_wrapper ◌>>=◌
kicked-each k thread d index base g smp eight request local =
    let after = each (entry_after k d.pcpu g) 0 d.cpu in
    rw
      (
        kicked,
        on_each_cpu_kick-each k thread (request_wrapper d index base) g smp local d.cpu eight
            request,
        ◌>>=◌,
        repacked,
        repack_result_wrapper,
        copy_entries-all after d.cpu (length-each (entry_after k d.pcpu g) 0 d.cpu),
      )
      refl

-- The answer to a request for a system register, where no row of the table is for it, and where one is.
abbrev pub Answered : Machine → List FuncTableEntry → MsDataCpu → Status → MsDataCpu → Type 0
Answered k func_table d failure d' = (d' ≡ d) × (row_for d.code func_table ≡ none)
Answered k func_table d success d' =
    (f : FuncTableEntry) × (row_for d.code func_table ≡ some f)
    × (d' ≡ answered k (read_entry k f) d)

-- With the flag of the hook clear, several processors configured and the pointers of the table not NULL, a
-- request with its `ms_max_cpus` entries for one of the processors, or for all, has no fault and leaves the flag of the hook clear. It fails only if no row of the
-- table is for the register, and is then left as it was. Otherwise each processor that is asked answers in its
-- entry: with its number, its MIDR, the outputs that the function of the first row for the register gave on it,
-- each in the place of the row's kind, and that it succeeded; or with no value, and that the instruction was
-- undefined or the kind of the row not known; or that the processor could not be brought up or called. The
-- entries of the others are left as they were.
pub call_func_return_results-Answered :
    (k : Machine) (func_table : List FuncTableEntry) (d : MsDataCpu)
    → k.config_smp ≡ true
    → All IsCallable func_table
    → length d.cpu ≡ ms_max_cpus
    → IsRequest d
    → (s : Status) × (d' : MsDataCpu) × (call_func_return_results k func_table 0 (some d)
        ≡ some (s, 0, some d'))
      × Answered k func_table d s d'
unfolding call_func_return_results find_function_index
call_func_return_results-Answered k func_table d smp callable eight request =
    elim (find_from-cases d.code 0 func_table) [
      | inl (absent, no_row) ↦
          (failure, d, rw (call_func_return_results, absent) refl, (refl, no_row))
      | inr (n, f, found, at, row) ↦ (
        success,
        answered k (read_entry k f) d,
        rw (call_func_return_results, found, zero-add n, unpack-cpus d eight)
            (kicked-each k (call_func_ptr k func_table) d n 0 (read_entry k f) smp eight request (
              call_func_ptr-entry k func_table f (request_wrapper d n 0) smp at
                (get_elem?-All IsCallable func_table n f callable at))),
        (f, row, refl),
      )
    ]
