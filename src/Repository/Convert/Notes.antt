-- ===== src/Repository/Convert/Notes.antt =====
-- Notes through libucl and back.
use e_com_init.Common.{ℕ, ◌<◌, ◌^◌, ◌≡◌, refl, some, codes, str_eq, arith}
use e_com_init.Service.Text.{path_to_string}
use e_com_init.Ucl.{LibUcl, int64_of_int, int_of_int64, int64_of_int-lt, int_of_int64-int64_of_int}
use e_com_init.Ucl.Fields.{no_fields, typed_object-HasFields, insert_key-HasFields}
use e_com_init.Repository.Notes.{S16Note, NoteType}
use e_com_init.Repository.Convert.{value, note_type_code, note_type_of_code}
use e_com_init.Repository.Convert.Write.{ins_key, note_to_ucl}
use e_com_init.Repository.Convert.Read.{ucl_to_path, ucl_to_note}
use e_com_init.Repository.Convert.Parts.{IsPlainPath}
use e_com_init.Service.Text.Laws.{path-roundtrip}

module _ ⦃u : LibUcl⦄ where
  open u use {
    Obj, type, typed_object, typed_array, fromstring, fromint, frombool, insert_key, lookup, items,
    type-fromstring, type-fromint, type-frombool, tostring-fromstring, toint, toint-fromint,
    toboolean-frombool,
  }

  note_type_code-lt : (t : NoteType) → note_type_code t < 2 ^ 32
  unfolding note_type_code
  note_type_code-lt t = ground arith

  note_type_of_code-note_type_code : (t : NoteType) → note_type_of_code (note_type_code t) ≡ value t
  unfolding note_type_code note_type_of_code
  note_type_of_code-note_type_code t = ground arith

  pub int-roundtrip : (n : ℕ) → n < 2 ^ 32 → int_of_int64 (toint (fromint (int64_of_int n))) ≡ n
  int-roundtrip n h = rw (toint-fromint _ (int64_of_int-lt n h)) (int_of_int64-int64_of_int n h)

  -- A note whose type and reason are 32-bit numbers and whose path is in full, without a colon in the
  -- service name, is written and read back as it was.
  pub ucl_to_note-note_to_ucl :
      (n : S16Note)
      → n.type < 2 ^ 32
      → n.reason < 2 ^ 32
      → IsPlainPath n.path
      → ucl_to_note (note_to_ucl n) ≡ value n
  unfolding note_to_ucl ucl_to_note ucl_to_path ins_key str_eq
  ucl_to_note-note_to_ucl n t r plain =
      let ukind = fromint (int64_of_int (note_type_code n.note_type)) in
      let utype = fromint (int64_of_int n.type) in
      let upath = fromstring (path_to_string n.path) in
      let ureason = fromint (int64_of_int n.reason) in
      let o1 = insert_key typed_object ukind (codes "note-type") in
      let o2 = insert_key o1 utype (codes "type") in
      let o3 = insert_key o2 upath (codes "path") in
      let obj = insert_key o3 ureason (codes "reason") in
      let h1 =
        insert_key-HasFields typed_object ukind (codes "note-type") no_fields typed_object-HasFields
          refl in
      let h2 = insert_key-HasFields o1 utype (codes "type") _ h1 refl in
      let h3 = insert_key-HasFields o2 upath (codes "path") _ h2 refl in
      let h4 = insert_key-HasFields o3 ureason (codes "reason") _ h3 refl in
      let f1 : lookup obj (codes "note-type") ≡ some ukind = h4.1 (codes "note-type") in
      let f2 : lookup obj (codes "type") ≡ some utype = h4.1 (codes "type") in
      let f3 : lookup obj (codes "path") ≡ some upath = h4.1 (codes "path") in
      let f4 : lookup obj (codes "reason") ≡ some ureason = h4.1 (codes "reason") in
      simp
        (
          f1,
          f2,
          f3,
          f4,
          type-fromint,
          type-fromstring,
          tostring-fromstring (path_to_string n.path) plain.2,
          path-roundtrip n.path plain.0 plain.1,
          int-roundtrip n.type t,
          int-roundtrip n.reason r,
          int-roundtrip _ (note_type_code-lt n.note_type),
          note_type_of_code-note_type_code,
        )
        refl
