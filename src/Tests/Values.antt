-- ===== src/Tests/Values.antt =====
-- A concrete libucl: values as trees of the calls that made them, and a text for each.
use e_com_init.Common.{
  ℕ, zero, suc, refl, Bool, true, false, Option, none, some, List, [], ◌∷◌, ◌++◌, CStr, str_eq,
  length, nth, take, drop, ◌==◌, if◌then◌else◌,
}
use e_com_init.Ucl.{
  UclType, ucl_object, ucl_array, ucl_string, ucl_int, ucl_boolean, other_type, LibUcl,
}

pub data Value : Type 0 where
  v_null v_object v_array : Value
  v_string : CStr → Value
  v_int : ℕ → Value
  v_bool : Bool → Value
  v_insert : Value → Value → CStr → Value
  v_append : Value → Value → Value

abbrev v_type : Value → UclType
v_type v_null = other_type
v_type v_object = ucl_object
v_type v_array = ucl_array
v_type (v_string s) = ucl_string
v_type (v_int n) = ucl_int
v_type (v_bool b) = ucl_boolean
v_type (v_insert o e k) = v_type o
v_type (v_append o e) = v_type o

abbrev v_lookup : Value → CStr → Option Value
v_lookup (v_insert o e k) q = if str_eq k q then some e else v_lookup o q
v_lookup _ q = none

abbrev v_items : Value → List Value
v_items (v_append o e) = v_items o ++ e ∷ []
v_items _ = []

abbrev v_tostring : Value → Option CStr
v_tostring (v_string s) = some s
v_tostring _ = none

abbrev v_toint : Value → ℕ
v_toint (v_int n) = n
v_toint _ = 0

abbrev v_toboolean : Value → Bool
v_toboolean (v_bool b) = b
v_toboolean _ = false

abbrev v_emit : Value → CStr
v_emit v_null = 0 ∷ []
v_emit v_object = 1 ∷ []
v_emit v_array = 2 ∷ []
v_emit (v_string s) = 3 ∷ length s ∷ s
v_emit (v_int n) = 4 ∷ n ∷ []
v_emit (v_bool b) = (if b then 5 else 6) ∷ []
v_emit (v_insert o e k) = 7 ∷ length k ∷ (k ++ (v_emit o ++ v_emit e))
v_emit (v_append o e) = 8 ∷ (v_emit o ++ v_emit e)

abbrev Parsed : Type 0
Parsed = Option (Value × CStr)

abbrev then_parse : Parsed → (Value → CStr → Parsed) → Parsed
then_parse none f = none
then_parse (some (v, rest)) f = f v rest

abbrev leaf : ℕ → CStr → Parsed
leaf tag rest =
    if tag == 0
    then some (v_null, rest)
    else if tag == 1
    then some (v_object, rest)
    else if tag == 2
    then some (v_array, rest)
    else if tag == 5
    then some (v_bool true, rest)
    else if tag == 6
    then some (v_bool false, rest)
    else none

abbrev counted : ℕ → CStr → Parsed
counted tag [] = none
counted tag (n ∷ rest) =
    if tag == 3 then some (v_string (take n rest), drop n rest) else some (v_int n, rest)

abbrev key_of : CStr → CStr
key_of [] = []
key_of (n ∷ rest) = take n rest

abbrev after_key : CStr → CStr
after_key [] = []
after_key (n ∷ rest) = drop n rest

-- A tag tells the kind; each step of the fuel reads one value.
abbrev v_parse : ℕ → CStr → Parsed
v_parse zero txt = none
v_parse (suc fuel) [] = none
v_parse (suc fuel) (tag ∷ rest) =
    let first = v_parse fuel (if tag == 7 then after_key rest else rest) in
    if tag == 7
    then then_parse first (λ o rest'.
      then_parse (v_parse fuel rest') (λ e end. some (v_insert o e (key_of rest), end)))
    else if tag == 8
    then then_parse first
        (λ o rest'. then_parse (v_parse fuel rest') (λ e end. some (v_append o e, end)))
    else if tag == 3
    then counted tag rest
    else if tag == 4
    then counted tag rest
    else leaf tag rest

abbrev whole : Parsed → Option Value
whole none = none
whole (some (v, rest)) = some v

abbrev is_none : Option Value → Bool
is_none none = true
is_none (some v) = false

abbrev v_read : CStr → Option Value
v_read txt = whole (v_parse (length txt) txt)

instance abbrev pub tree_ucl : LibUcl
tree_ucl = record {
  Obj = Value;
  type = v_type;
  typed_object = v_object;
  typed_array = v_array;
  fromstring = v_string;
  fromint = v_int;
  frombool = v_bool;
  insert_key = v_insert;
  array_append = v_append;
  lookup = v_lookup;
  items = v_items;
  array_size = λ o. length (v_items o);
  array_find_index = λ o i. nth (v_items o) i;
  typed_null = v_null;
  emit = v_emit;
  parse_error = λ txt. is_none (v_read txt);
  parse_object = v_read;
  tostring = v_tostring;
  toint = v_toint;
  toboolean = v_toboolean;
  type-typed_object = refl;
  type-typed_array = refl;
  type-fromstring = λ s. refl;
  type-fromint = λ n. refl;
  type-frombool = λ b. refl;
  type-insert_key = λ o e k. refl;
  type-array_append = λ o e. refl;
  tostring-fromstring = λ s plain. refl;
  toint-fromint = λ n h. refl;
  toboolean-frombool = λ b. refl;
  lookup-typed_object = λ q. refl;
  lookup-insert_key = λ o e k q t h. refl;
  items-typed_array = refl;
  items-array_append = λ o e t. refl;
  array_size-eq-length = λ o t. refl;
  array_find_index-eq-nth = λ o i t. refl;
}
