-- ===== src/Tests/NvCalls.antt =====
-- Structs and calls over a concrete libnv: a list of named values as a tree of the calls that made it.
use e_com_init.Nv.Calls.{
  not_null, lends, NvSignature, NvError, NvOutcome, NvMethod, nv_done, nv_failed, no_nv_error,
  find_meth, nv_call,
}
use e_com_init.Common.{
  ℕ, zero, suc, ◌+◌, ◌≤◌, ◌≡◌, ◌≢◌, refl, Bool, Option, none, some, List, [], ◌∷◌, ◌++◌, CStr,
  codes, str_eq, if◌then◌else◌, arith,
}
use e_com_init.Common.Conv.{Conv, value, stopped, ◌>>=◌}
use e_com_init.Nv.{
  LibNv, NvValue, nv_string, nv_bool, nv_number, nv_nvlist, nv_descriptor, nv_binary,
}
use e_com_init.Nv.Types.{
  NvFields, k_string, k_int, k_bool, k_struct, k_list, no_fields, field, CVal, CVals, c_string,
  c_word, c_struct, c_list, no_vals, vals, takes, fields_count,
}
use e_com_init.Nv.Struct.{
  struct_serialise, struct_deserialise, arguments_deserialise, member_deserialise,
}
use e_com_init.Nv.Typed.{AreReadFrom, arguments_deserialise-AreReadFrom}
use e_com_init.Nv.RoundTrip.{IsDistinct, AreMembers, IsValue, struct_deserialise-struct_serialise}
use e_com_init.Nv.Calls.Laws.{without_aux, nv_call-result, nv_call-error}

pub data Tree : Type 0 where
  t_empty : Tree
  t_string : Tree → CStr → CStr → Tree
  t_bool : Tree → CStr → Bool → Tree
  t_number : Tree → CStr → ℕ → Tree
  t_nvlist : Tree → CStr → Tree → Tree
  t_descriptor : Tree → CStr → ℕ → Tree
  t_binary : Tree → CStr → CStr → Tree

abbrev pub t_add : Tree → CStr → NvValue Tree → Tree
t_add n k (nv_string s) = t_string n k s
t_add n k (nv_bool b) = t_bool n k b
t_add n k (nv_number i) = t_number n k i
t_add n k (nv_nvlist m) = t_nvlist n k m
t_add n k (nv_descriptor i) = t_descriptor n k i
t_add n k (nv_binary s) = t_binary n k s

abbrev pub t_find : Tree → CStr → Option (NvValue Tree)
t_find t_empty q = none
t_find (t_string n k s) q = if str_eq k q then some (nv_string s) else t_find n q
t_find (t_bool n k b) q = if str_eq k q then some (nv_bool b) else t_find n q
t_find (t_number n k i) q = if str_eq k q then some (nv_number i) else t_find n q
t_find (t_nvlist n k m) q = if str_eq k q then some (nv_nvlist m) else t_find n q
t_find (t_descriptor n k i) q = if str_eq k q then some (nv_descriptor i) else t_find n q
t_find (t_binary n k s) q = if str_eq k q then some (nv_binary s) else t_find n q

abbrev pub t_names : Tree → List CStr
t_names t_empty = []
t_names (t_string n k s) = t_names n ++ k ∷ []
t_names (t_bool n k b) = t_names n ++ k ∷ []
t_names (t_number n k i) = t_names n ++ k ∷ []
t_names (t_nvlist n k m) = t_names n ++ k ∷ []
t_names (t_descriptor n k i) = t_names n ++ k ∷ []
t_names (t_binary n k s) = t_names n ++ k ∷ []

pub t_find-add :
    (n : Tree) (k : CStr) (w : NvValue Tree) (q : CStr)
    → t_find (t_add n k w) q ≡ (if str_eq k q then some w else t_find n q)
t_find-add n k (nv_string s) q = refl
t_find-add n k (nv_bool b) q = refl
t_find-add n k (nv_number i) q = refl
t_find-add n k (nv_nvlist m) q = refl
t_find-add n k (nv_descriptor i) q = refl
t_find-add n k (nv_binary s) q = refl

pub t_names-add :
    (n : Tree) (k : CStr) (w : NvValue Tree) → t_names (t_add n k w) ≡ t_names n ++ k ∷ []
t_names-add n k (nv_string s) = refl
t_names-add n k (nv_bool b) = refl
t_names-add n k (nv_number i) = refl
t_names-add n k (nv_nvlist m) = refl
t_names-add n k (nv_descriptor i) = refl
t_names-add n k (nv_binary s) = refl

instance abbrev pub tree_nv : LibNv
tree_nv = record {
  Nv = Tree;
  create = t_empty;
  add = t_add;
  find = t_find;
  names = t_names;
  find-create = λ q. refl;
  find-add = λ n k w q h. t_find-add n k w q;
  names-create = refl;
  names-add = λ n k w h. t_names-add n k w;
}

-- { name: string, up: bool, parts: list of { size: int } }
abbrev part_fields : NvFields
part_fields = field (codes "size") k_int no_fields

abbrev disk_fields : NvFields
disk_fields =
    field (codes "name") k_string
      (field (codes "up") k_bool (field (codes "parts") (k_list (k_struct part_fields)) no_fields))

abbrev part : ℕ → CVal Tree
part n = c_struct (vals (c_word n) no_vals)

abbrev disk : CVals Tree
disk =
    vals (c_string (codes "sd0"))
      (vals (c_word 1) (vals (c_list (vals (part 4) (vals (part 9) no_vals))) no_vals))

disk-IsDistinct : IsDistinct disk_fields
disk-IsDistinct = ground arith

disk-AreMembers : AreMembers disk disk_fields
unfolding AreMembers takes
disk-AreMembers = ground arith

struct_deserialise-struct_serialise_example :
    (struct_serialise disk disk_fields t_empty >>= struct_deserialise disk_fields) ≡ value disk
struct_deserialise-struct_serialise_example =
    struct_deserialise-struct_serialise disk disk_fields disk-IsDistinct disk-AreMembers

-- A method (name, size) that adds the size to the state; it fails for the size 7 and gives the sum.
abbrev grow_sig : NvSignature
grow_sig = record {
  name = codes "grow";
  rtype = k_int;
  nargs = 2;
  args = field (codes "name") k_string (field (codes "size") k_int no_fields);
}

abbrev too_odd : NvError
too_odd = record { code = 5; message = some (codes "odd"); aux = some (codes "7") }

abbrev grow : CVals Tree → ℕ → Conv (NvOutcome ℕ)
grow (vals x (vals (c_word (suc (suc (suc (suc (suc (suc (suc zero)))))))) no_vals)) s =
    value (none, too_odd, s)
grow (vals x (vals (c_word n) no_vals)) s = value (some (c_word (s + n)), no_nv_error, s + n)
grow _ s = stopped

abbrev grow_method : NvMethod ℕ
grow_method = record { sig = grow_sig; fun = grow }

abbrev grow_args : ℕ → CVals Tree
grow_args n = vals (c_string (codes "sd0")) (vals (c_word n) no_vals)

grow-IsDistinct : IsDistinct grow_sig.args
grow-IsDistinct = ground arith

grow-AreMembers : (n : ℕ) → AreMembers (grow_args n) grow_sig.args
unfolding AreMembers
grow-AreMembers n = ground arith

not_zero : ◌≢◌ {A = ℕ} 4 0
not_zero = ground arith

five : ◌≢◌ {A = ℕ} 5 0
five = ground arith

abbrev shrink_sig : NvSignature
shrink_sig = record grow_sig { name = codes "shrink" }

sum-IsValue : IsValue {N = Tree} (c_word 13) k_int
unfolding IsValue
sum-IsValue = tt

grow_found : find_meth (grow_method ∷ []) grow_sig.name ≡ some grow_method
unfolding find_meth str_eq
grow_found = refl

shrink_missing : find_meth (grow_method ∷ []) shrink_sig.name ≡ none
unfolding find_meth str_eq
shrink_missing = refl

nv_call-result_example :
    nv_call k_int (grow_method ∷ []) grow_sig (grow_args 3) 4 10
    ≡ value (nv_done (some (c_word 13)), 13)
unfolding not_null lends fields_count
nv_call-result_example =
    nv_call-result k_int (grow_method ∷ []) grow_method (grow_args 3) 4 10 grow_found (omega arith)
      refl grow-IsDistinct (grow-AreMembers 3) not_zero (omega arith) (c_word 13) 13 refl
      sum-IsValue refl refl

nv_call-error_example :
    nv_call k_int (grow_method ∷ []) grow_sig (grow_args 7) 4 10
    ≡ value (nv_failed (without_aux too_odd (codes "odd")), 10)
unfolding fields_count
nv_call-error_example =
    nv_call-error k_int (grow_method ∷ []) grow_method (grow_args 7) 4 10 grow_found (omega arith)
      refl grow-IsDistinct (grow-AreMembers 7) not_zero (omega arith) too_odd (codes "odd") 10 refl
      five (omega arith) refl

abbrev request_params : Tree
request_params = t_number (t_string t_empty (codes "name") (codes "sd0")) (codes "size") 3

params_read : arguments_deserialise grow_sig.args 2 request_params ≡ value (grow_args 3)
unfolding arguments_deserialise member_deserialise str_eq
params_read = refl

arguments_deserialise-AreReadFrom_example :
    AreReadFrom (grow_args 3) grow_sig.args request_params × (fields_count grow_sig.args ≤ 2)
arguments_deserialise-AreReadFrom_example =
    arguments_deserialise-AreReadFrom grow_sig.args 2 request_params (grow_args 3) params_read
