-- ===== src/Nv.antt =====
-- The remote calls of usr/src/lib/s16/newrpc/. This file has what they rely on of libnv (nv.h), which is
-- not part of the repository: lists of names with values, as an interface. `Types` has the
-- descriptors of hdr/S16/NVRPC.h, `Struct` the conversions of struct.c, `RoundTrip` their laws.
use e_com_init.Common.{
  ℕ, ◌≡◌, Bool, Option, none, some, List, [], ◌∷◌, ◌++◌, CStr, str_eq, if◌then◌else◌,
}
pub mod Types
pub mod Struct
pub mod RoundTrip
pub mod Typed
pub mod Calls

-- The kinds of value that the program uses. A descriptor stands for its open file: libnv duplicates it.
pub data NvValue (N : Type 0) : Type 0 where
  nv_string : CStr → NvValue N
  nv_bool : Bool → NvValue N
  nv_number : ℕ → NvValue N
  nv_nvlist : N → NvValue N
  nv_descriptor : ℕ → NvValue N
  nv_binary : CStr → NvValue N

pub record LibNv : Type 1 where
  pub Nv : Type 0
  pub create : Nv
  -- nvlist_add_string and its kin, nvlist_move_nvlist
  pub add : Nv → CStr → NvValue Nv → Nv
  -- what nvlist_exists_string, nvlist_get_string and their kin look up
  pub find : Nv → CStr → Option (NvValue Nv)
  -- the names that nvlist_next gives, in order
  pub names : Nv → List CStr
  pub find-create : (q : CStr) → find create q ≡ none
  -- a name that the list does not have yet
  pub find-add :
      (n : Nv) (k : CStr) (v : NvValue Nv) (q : CStr)
      → find n k ≡ none
      → find (add n k v) q ≡ (if str_eq k q then some v else find n q)
  pub names-create : names create ≡ []
  pub names-add :
      (n : Nv) (k : CStr) (v : NvValue Nv) → find n k ≡ none → names (add n k v) ≡ names n ++ k ∷ []
