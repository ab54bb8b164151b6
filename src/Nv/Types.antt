-- ===== src/Nv/Types.antt =====
-- The type descriptors of usr/src/lib/s16/hdr/S16/NVRPC.h, and the C values that they describe. A
-- struct is the list of its members in the order of its fields, whose offsets are left out; a pointer
-- is what it points to; a word is the bit pattern of an intptr_t.
use e_com_init.Common.{ℕ, suc, Bool, true, false, CStr}

mutual
  pub data NvType : Type 0 where
    k_string k_bool k_int k_nvlist k_descriptor : NvType
    k_struct : NvFields → NvType
    k_list : NvType → NvType

  pub data NvFields : Type 0 where
    no_fields : NvFields
    field : CStr → NvType → NvFields → NvFields

mutual
  pub data CVal (N : Type 0) : Type 0 where
    c_string : CStr → CVal N
    c_word : ℕ → CVal N
    c_nvlist : N → CVal N
    c_struct : CVals N → CVal N
    c_list : CVals N → CVal N

  pub data CVals (N : Type 0) : Type 0 where
    no_vals : CVals N
    vals : CVal N → CVals N → CVals N

-- The number of fields before the one without a name.
unfoldable pub fields_count : NvFields → ℕ
fields_count no_fields = 0
fields_count (field name t fs) = suc (fields_count fs)

-- void_list_add
unfoldable pub vals_add : {N : Type 0} → CVals N → CVal N → CVals N
vals_add no_vals v = vals v no_vals
vals_add (vals w vs) v = vals w (vals_add vs v)

-- The kinds that are read by a function that takes the value out of the list.
unfoldable pub takes : NvType → Bool
takes k_string = true
takes k_bool = true
takes k_int = true
takes k_descriptor = true
takes k_nvlist = false
takes (k_struct fs) = false
takes (k_list t) = false
