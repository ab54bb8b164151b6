-- ===== src/Ucl.antt =====
-- What the program relies on of libucl (ucl.h), which is not part of the repository: an interface of
-- operations and laws. An object is a value: a call that changes its argument returns the changed
-- one, and reference counts are left out. A 64-bit integer is its bit pattern.
use e_com_init.Common.{
  ℕ, ◌+◌, ◌-◌, ◌%◌, ◌^◌, ◌<◌, ◌≤◌, ◌≢◌, All, ◌≡◌, Bool, false, Option, none, some, List, [], ◌∷◌,
  ◌++◌, CStr, str_eq, ltb, if◌then◌else◌, arith, length, nth,
}
pub mod Fields

-- The types that the program tells apart.
pub data UclType : Type 0 where
  ucl_object ucl_array ucl_string ucl_int ucl_boolean other_type : UclType

-- A text that ucl_object_fromstring keeps as it is: printable ASCII without a quote or a backslash.
abbrev pub IsVerbatim : CStr → Type 0
IsVerbatim = All (λ c. (32 ≤ c) × (c < 127) × (c ≢ b'"') × (c ≢ b'\\'))

pub record LibUcl : Type 1 where
  pub Obj : Type 0
  pub type : Obj → UclType
  pub typed_object : Obj
  pub typed_array : Obj
  pub fromstring : CStr → Obj
  pub fromint : ℕ → Obj
  pub frombool : Bool → Obj
  pub insert_key : Obj → Obj → CStr → Obj
  pub array_append : Obj → Obj → Obj
  pub lookup : Obj → CStr → Option Obj
  -- what ucl_iterate_object gives, one call after the other
  pub items : Obj → List Obj
  pub array_size : Obj → ℕ
  pub array_find_index : Obj → ℕ → Option Obj
  -- an object of type UCL_NULL
  pub typed_null : Obj
  -- ucl_object_emit, and a parser's error and object for a text
  pub emit : Obj → CStr
  pub parse_error : CStr → Bool
  pub parse_object : CStr → Option Obj
  pub tostring : Obj → Option CStr
  pub toint : Obj → ℕ
  pub toboolean : Obj → Bool
  pub type-typed_object : type typed_object ≡ ucl_object
  pub type-typed_array : type typed_array ≡ ucl_array
  pub type-fromstring : (s : CStr) → type (fromstring s) ≡ ucl_string
  pub type-fromint : (n : ℕ) → type (fromint n) ≡ ucl_int
  pub type-frombool : (b : Bool) → type (frombool b) ≡ ucl_boolean
  pub type-insert_key : (o e : Obj) (k : CStr) → type (insert_key o e k) ≡ type o
  pub type-array_append : (o e : Obj) → type (array_append o e) ≡ type o
  -- ucl_object_fromstring escapes what JSON does not allow in a string.
  pub tostring-fromstring : (s : CStr) → IsVerbatim s → tostring (fromstring s) ≡ some s
  pub toint-fromint : (n : ℕ) → n < 2 ^ 64 → toint (fromint n) ≡ n
  pub toboolean-frombool : (b : Bool) → toboolean (frombool b) ≡ b
  pub lookup-typed_object : (q : CStr) → lookup typed_object q ≡ none
  -- a key that the object does not have yet
  pub lookup-insert_key :
      (o e : Obj) (k q : CStr)
      → type o ≡ ucl_object
      → lookup o k ≡ none
      → lookup (insert_key o e k) q ≡ (if str_eq k q then some e else lookup o q)
  pub items-typed_array : items typed_array ≡ []
  pub items-array_append :
      (o e : Obj) → type o ≡ ucl_array → items (array_append o e) ≡ items o ++ e ∷ []
  pub array_size-eq-length : (o : Obj) → type o ≡ ucl_array → array_size o ≡ length (items o)
  pub array_find_index-eq-nth :
      (o : Obj) (i : ℕ) → type o ≡ ucl_array → array_find_index o i ≡ nth (items o) i

-- An int that is passed as an int64_t is extended by its sign, and cut to 32 bits on the way back.
unfoldable pub int64_of_int : ℕ → ℕ
int64_of_int n = if ltb n (2 ^ 31) then n else n + 2 ^ 64 - 2 ^ 32

unfoldable pub int_of_int64 : ℕ → ℕ
int_of_int64 n = n % 2 ^ 32

pub int64_of_int-lt : (n : ℕ) → n < 2 ^ 32 → int64_of_int n < 2 ^ 64
unfolding int64_of_int
int64_of_int-lt n h = ground arith

pub int_of_int64-int64_of_int : (n : ℕ) → n < 2 ^ 32 → int_of_int64 (int64_of_int n) ≡ n
unfolding int_of_int64 int64_of_int
int_of_int64-int64_of_int n h = ground arith
