-- ===== src/Nv/Struct.antt =====
-- serialise and S16NVRPCMemberDeserialise of usr/src/lib/s16/newrpc/struct.c with the functions around
-- them. `null` is the code -1; `stopped` is an abort in libnv and what C leaves undefined: a value
-- read as one of another type, and the next step of nvlist_next after its element was taken out.
use e_com_init.Common.{
  ℕ, zero, suc, Bool, not, Option, some, List, [], ◌∷◌, CStr, take, ◌==◌, if◌then◌else◌,
}
use e_com_init.Common.Decimal.{decimal}
use e_com_init.Nv.{LibNv, NvValue, nv_string, nv_bool, nv_number, nv_nvlist, nv_descriptor}
use e_com_init.Nv.Types.{
  NvType, NvFields, k_string, k_bool, k_int, k_nvlist, k_descriptor, k_struct, k_list, no_fields,
  field, CVal, CVals, c_string, c_word, c_nvlist, c_struct, c_list, no_vals, vals, vals_add, takes,
}
use e_com_init.Common.Conv.{needed, Conv, value, null, stopped, ◌>>=◌}

-- snprintf (namebuf, 8, "%i", i)
unfoldable pub index_name : ℕ → CStr
index_name i = take 7 (decimal i)

module _ ⦃v : LibNv⦄ where
  open v use {Nv, create, add, find, names}

  unfoldable mutual
    unfolding index_name

    pub serialise : CVal Nv → NvType → Nv → CStr → Conv Nv
    serialise (c_string s) k_string nvl name = value (add nvl name (nv_string s))
    serialise (c_word n) k_bool nvl name = value (add nvl name (nv_bool (not (n == 0))))
    serialise (c_word n) k_int nvl name = value (add nvl name (nv_number n))
    serialise (c_word n) k_descriptor nvl name = value (add nvl name (nv_descriptor n))
    serialise (c_nvlist m) k_nvlist nvl name = value (add nvl name (nv_nvlist m))
    serialise (c_struct vs) (k_struct fs) nvl name = do
      m ← struct_serialise vs fs create
      value (add nvl name (nv_nvlist m))
    serialise (c_list vs) (k_list t) nvl name = do
      m ← serialise_list vs t create zero
      value (add nvl name (nv_nvlist m))
    serialise _ _ nvl name = stopped

    -- S16NVRPCStructSerialise, from the field on
    pub struct_serialise : CVals Nv → NvFields → Nv → Conv Nv
    struct_serialise no_vals no_fields nvl = value nvl
    struct_serialise (vals x vs) (field name t fs) nvl = do
      nvl' ← serialise x t nvl name
      struct_serialise vs fs nvl'
    struct_serialise _ _ nvl = stopped

    -- serialiseList, from the element and its index on
    pub serialise_list : CVals Nv → NvType → Nv → ℕ → Conv Nv
    serialise_list no_vals t nvl i = value nvl
    serialise_list (vals x vs) t nvl i = do
      nvl' ← serialise x t nvl (index_name i)
      serialise_list vs t nvl' (suc i)

  unfoldable pub take_string : Option (NvValue Nv) → Conv (CVal Nv)
  take_string (some (nv_string s)) = value (c_string s)
  take_string _ = null

  unfoldable pub take_bool : Option (NvValue Nv) → Conv (CVal Nv)
  take_bool (some (nv_bool b)) = value (c_word (if b then 1 else 0))
  take_bool _ = null

  unfoldable pub take_number : Option (NvValue Nv) → Conv (CVal Nv)
  take_number (some (nv_number n)) = value (c_word n)
  take_number _ = null

  unfoldable pub take_descriptor : Option (NvValue Nv) → Conv (CVal Nv)
  take_descriptor (some (nv_descriptor n)) = value (c_word n)
  take_descriptor _ = null

  unfoldable pub get_member_nvlist : Option (NvValue Nv) → Conv (CVal Nv)
  get_member_nvlist (some (nv_nvlist m)) = value (c_nvlist m)
  get_member_nvlist _ = null

  -- nvlist_get_nvlist aborts where there is no such value.
  unfoldable pub get_nvlist : Option (NvValue Nv) → Conv Nv
  get_nvlist (some (nv_nvlist m)) = value m
  get_nvlist _ = stopped

  -- The loop of deserialiseList over the names; an element that is taken out while the list is
  -- traversed leaves nvlist_next nowhere to go on.
  unfoldable pub deserialise_list :
      Bool → (CStr → Conv (CVal Nv)) → List CStr → CVals Nv → Conv (CVals Nv)
  unfolding vals_add
  deserialise_list taken member [] list = value list
  deserialise_list taken member (name ∷ rest) list = do
    dat ← member name
    if taken then stopped else deserialise_list taken member rest (vals_add list dat)

  unfoldable mutual
    unfolding take_string take_bool take_number take_descriptor get_member_nvlist get_nvlist
        deserialise_list takes

    pub member_deserialise : NvType → Nv → CStr → Conv (CVal Nv)
    member_deserialise k_string nvl name = take_string (find nvl name)
    member_deserialise k_bool nvl name = take_bool (find nvl name)
    member_deserialise k_int nvl name = take_number (find nvl name)
    member_deserialise k_nvlist nvl name = get_member_nvlist (find nvl name)
    member_deserialise k_descriptor nvl name = take_descriptor (find nvl name)
    member_deserialise (k_struct fs) nvl name = do
      m ← get_nvlist (find nvl name)
      vs ← struct_deserialise fs m
      value (c_struct vs)
    member_deserialise (k_list t) nvl name = do
      m ← get_nvlist (find nvl name)
      vs ← deserialise_list (takes t) (λ n. member_deserialise t m n) (names m) no_vals
      value (c_list vs)

    -- S16NVRPCStructDeserialise, from the field on
    pub struct_deserialise : NvFields → Nv → Conv (CVals Nv)
    struct_deserialise no_fields nvl = value no_vals
    struct_deserialise (field name t fs) nvl = do
      here ← needed (find nvl name)
      x ← member_deserialise t nvl name
      vs ← struct_deserialise fs nvl
      value (vals x vs)

  -- S16NVRPCMessageSignatureDeserialiseArguments, from the argument on: names are not required first.
  -- The array has room for nargs arguments; one more is written behind it.
  unfoldable pub arguments_deserialise : NvFields → ℕ → Nv → Conv (CVals Nv)
  unfolding member_deserialise
  arguments_deserialise no_fields room nvl = value no_vals
  arguments_deserialise (field name t fs) zero nvl = do x ← member_deserialise t nvl name; stopped
  arguments_deserialise (field name t fs) (suc room) nvl = do
    x ← member_deserialise t nvl name
    vs ← arguments_deserialise fs room nvl
    value (vals x vs)
