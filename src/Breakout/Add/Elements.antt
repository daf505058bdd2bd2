-- ===== src/Breakout/Add/Elements.antt =====
-- What the functions add, when memory is at hand and the code is in the table.
use maplesyrup.Base.{ℕ, ◌-◌, ◌≡◌, refl, Option, some, List, [], ◌∷◌, ◌++◌, CString, cstr, strncpy}
use mathlib.Core.Option
use maplesyrup.Structs.{
  success, BitfieldInfoHeap, BitfieldInfoPopulated, parse_max_description, parse_max_bitfield,
  parse_max_functional, parse_max_register,
}
use maplesyrup.Env.{M, deref}
use maplesyrup.Env.Yields.{Yields, Returns, Returns-Yields, bind-Returns, add_element-Yields}
use maplesyrup.Breakout.Tables.{Globals}
use maplesyrup.Breakout.Lookup.{
  get_register_name, get_functional_group, get_description, get_bitfield,
}
use maplesyrup.Breakout.Lookup.First.{
  IsLoaded, entry_of, get_register_name-Returns, get_functional_group-Returns,
  get_description-Returns, get_bitfield-Returns,
}
use maplesyrup.Breakout.Add.{copied, breakout_add_noparse_result, breakout_add_bitfield_result}

-- The result for the bitfield of `x`.
unfoldable pub bitfield_result :
    BitfieldInfoHeap → (uid ioctl value uvalue cpu epl midr status : ℕ) → BitfieldInfoPopulated
bitfield_result x uid ioctl value uvalue cpu epl midr status = record {
  cpu = cpu;
  epl = epl;
  uid = uid;
  ioctl = ioctl;
  midr = midr;
  status = status;
  bitfield = strncpy x.bitfield (parse_max_bitfield - 1);
  functional_group = strncpy x.functional_group (parse_max_functional - 1);
  register_name = strncpy x.register_name_expanded (parse_max_register - 1);
  description = strncpy x.description (parse_max_description - 1);
  value = value;
  uvalue = uvalue;
}

-- The result for the whole register that `x` is a bitfield of.
unfoldable pub noparse_result :
    BitfieldInfoHeap → (uid ioctl uvalue cpu epl midr status : ℕ) → BitfieldInfoPopulated
noparse_result x uid ioctl uvalue cpu epl midr status = record {
  cpu = cpu;
  epl = epl;
  uid = uid;
  ioctl = ioctl;
  midr = midr;
  status = status;
  bitfield = cstr "Unparsed";
  functional_group = strncpy x.functional_group (parse_max_functional - 1);
  register_name = strncpy x.register_name_expanded (parse_max_register - 1);
  description = cstr "None";
  value = uvalue;
  uvalue = uvalue;
}

copied-Returns :
    (source : M (Option CString)) (n : ℕ) {s : CString}
    → Returns source (some s)
    → Returns (copied source n) (strncpy s n)
unfolding copied
copied-Returns source n runs =
    bind-Returns source _ runs (bind-Returns (deref (some _)) _ (λ e. refl) (λ e. refl))

module _ (g : Globals) {table : List BitfieldInfoHeap} (loaded : IsLoaded g table) where
  -- A column that is copied, of the entry that the code finds.
  column_copied :
      (source : M (Option CString)) (read : BitfieldInfoHeap → CString) (uid n : ℕ)
      (x : BitfieldInfoHeap)
      → entry_of uid table ≡ some x
      → Returns source (Option.map read (entry_of uid table))
      → Returns (copied source n) (strncpy (read x) n)
  column_copied source read uid n x found runs = copied-Returns source n (rw found at runs)

  pub breakout_add_bitfield_result-Yields :
      (list : List BitfieldInfoPopulated) (x : BitfieldInfoHeap)
      (uid ioctl value uvalue cpu epl midr status : ℕ)
      → entry_of uid table ≡ some x
      → Yields
          (breakout_add_bitfield_result g (some list) uid ioctl value uvalue cpu epl midr status)
          (
            success,
            some (list ++ bitfield_result x uid ioctl value uvalue cpu epl midr status ∷ []),
          )
  unfolding breakout_add_bitfield_result bitfield_result
  breakout_add_bitfield_result-Yields list x uid ioctl value uvalue cpu epl midr status found =
      add_element-Yields list _ (
        Returns-Yields _ (
          bind-Returns (copied (get_description g uid) (parse_max_description - 1)) _
            (column_copied _ (λ y. y.description) uid (parse_max_description - 1) x found
              (get_description-Returns g loaded uid))
            (bind-Returns (copied (get_register_name g uid) (parse_max_register - 1)) _
              (column_copied _ (λ y. y.register_name_expanded) uid (parse_max_register - 1) x found
                (get_register_name-Returns g loaded uid))
              (bind-Returns (copied (get_functional_group g uid) (parse_max_functional - 1)) _
                (column_copied _ (λ y. y.functional_group) uid (parse_max_functional - 1) x found
                  (get_functional_group-Returns g loaded uid))
                (bind-Returns (copied (get_bitfield g uid) (parse_max_bitfield - 1)) _
                  (column_copied _ (λ y. y.bitfield) uid (parse_max_bitfield - 1) x found
                    (get_bitfield-Returns g loaded uid))
                  (λ e. refl))))))

  pub breakout_add_noparse_result-Yields :
      (list : List BitfieldInfoPopulated) (x : BitfieldInfoHeap)
      (uid ioctl value uvalue cpu epl midr status : ℕ)
      → entry_of uid table ≡ some x
      → Yields
          (breakout_add_noparse_result g (some list) uid ioctl value uvalue cpu epl midr status)
          (success, some (list ++ noparse_result x uid ioctl uvalue cpu epl midr status ∷ []))
  unfolding breakout_add_noparse_result noparse_result
  breakout_add_noparse_result-Yields list x uid ioctl value uvalue cpu epl midr status found =
      add_element-Yields list _ (
        Returns-Yields _ (
          bind-Returns (copied (get_register_name g uid) (parse_max_register - 1)) _
            (column_copied _ (λ y. y.register_name_expanded) uid (parse_max_register - 1) x found
              (get_register_name-Returns g loaded uid))
            (bind-Returns (copied (get_functional_group g uid) (parse_max_functional - 1)) _
              (column_copied _ (λ y. y.functional_group) uid (parse_max_functional - 1) x found
                (get_functional_group-Returns g loaded uid))
              (λ e. refl))))
