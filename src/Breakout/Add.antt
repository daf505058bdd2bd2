-- ===== src/Breakout/Add.antt =====
-- The functions of lib/src/parse_breakout.c that add an element to a list: `breakout_add_…`. A list
-- pointer that may be NULL is an Option, and an out parameter is a result.
pub mod Elements
use maplesyrup.Base.{ℕ, ◌-◌, Option, List, CString, cstr, strncpy}
use maplesyrup.Structs.{
  Status, BitfieldInfoPopulated, ResultsInfo, UsedIoctl, IoctlResult, parse_max_description,
  parse_max_bitfield, parse_max_functional, parse_max_register,
}
use maplesyrup.Env.{M, pure, ◌>>=◌, deref, add_element}
use maplesyrup.Breakout.Tables.{Globals}
use maplesyrup.Breakout.Lookup.{
  get_register_name, get_functional_group, get_description, get_bitfield,
}

unfoldable pub breakout_add_match :
    Option (List ResultsInfo)
    → (ppl cpu pl uid ioctl noparse part_number calc calc_value : ℕ)
    → M (Status × Option (List ResultsInfo))
breakout_add_match list ppl cpu pl uid ioctl noparse part_number calc calc_value =
    add_element list (
      pure (record {
        register_uid = ioctl;
        uid = uid;
        ppl = ppl;
        pl = pl;
        cpu = cpu;
        noparse = noparse;
        part_number = part_number;
        calc = calc;
        calc_value = calc_value;
      }))

unfoldable pub breakout_add_ioctl :
    Option (List UsedIoctl) → (ioctl cpu partnumber : ℕ) → M (Status × Option (List UsedIoctl))
breakout_add_ioctl list ioctl cpu partnumber =
    add_element list (pure (record { register_uid = ioctl; cpu = cpu; partnumber = partnumber }))

unfoldable pub breakout_add_ioctl_result :
    Option (List IoctlResult)
    → (register_uid val64 low high cpu midr status epl : ℕ) → M (Status × Option (List IoctlResult))
breakout_add_ioctl_result list_in register_uid val64 low high cpu midr status epl =
    add_element list_in (
      pure (record {
        register_uid = register_uid;
        val64 = val64;
        low = low;
        high = high;
        cpu = cpu;
        midr = midr;
        epl = epl;
        status = status;
      }))

-- strncpy into a field, from a pointer that may be NULL
unfoldable pub copied : M (Option CString) → ℕ → M CString
copied source n = do t ← source; s ← deref t; pure (strncpy s n)

unfoldable pub breakout_add_noparse_result :
    Globals
    → Option (List BitfieldInfoPopulated)
    → (uid ioctl value uvalue cpu epl midr status : ℕ)
    → M (Status × Option (List BitfieldInfoPopulated))
unfolding copied
breakout_add_noparse_result g list uid ioctl value uvalue cpu epl midr status = add_element list (do
  register_name ← copied (get_register_name g uid) (parse_max_register - 1)
  functional_group ← copied (get_functional_group g uid) (parse_max_functional - 1)
  pure (record {
    cpu = cpu;
    epl = epl;
    uid = uid;
    ioctl = ioctl;
    midr = midr;
    status = status;
    bitfield = strncpy (cstr "Unparsed") (parse_max_bitfield - 1);
    functional_group = functional_group;
    register_name = register_name;
    description = strncpy (cstr "None") (parse_max_description - 1);
    value = uvalue;
    uvalue = uvalue;
  }))

unfoldable pub breakout_add_bitfield_result :
    Globals
    → Option (List BitfieldInfoPopulated)
    → (uid ioctl value uvalue cpu epl midr status : ℕ)
    → M (Status × Option (List BitfieldInfoPopulated))
unfolding copied
breakout_add_bitfield_result g list uid ioctl value uvalue cpu epl midr status =
    add_element list (do
      description ← copied (get_description g uid) (parse_max_description - 1)
      register_name ← copied (get_register_name g uid) (parse_max_register - 1)
      functional_group ← copied (get_functional_group g uid) (parse_max_functional - 1)
      bitfield ← copied (get_bitfield g uid) (parse_max_bitfield - 1)
      pure (record {
        cpu = cpu;
        epl = epl;
        uid = uid;
        ioctl = ioctl;
        midr = midr;
        status = status;
        bitfield = bitfield;
        functional_group = functional_group;
        register_name = register_name;
        description = description;
        value = value;
        uvalue = uvalue;
      }))

-- An element `table_index` is its index.
unfoldable pub breakout_add_table_index :
    Option (List ℕ) → (index : ℕ) → M (Status × Option (List ℕ))
breakout_add_table_index list index = add_element list (pure index)
