-- ===== src/Ucl/Fields.antt =====
-- An object of libucl as the function from its keys to its values.
use e_com_init.Common.{
  ◌≡◌, refl, sym, ap, ◌∙◌, Option, none, some, CStr, str_eq, str_eq_iff, if◌then◌else◌, Bool-cases,
  inl, inr,
}
use e_com_init.Ucl.{LibUcl, ucl_object}

module _ ⦃u : LibUcl⦄ where
  open u use {
    Obj, type, typed_object, insert_key, lookup, type-typed_object, type-insert_key,
    lookup-typed_object, lookup-insert_key,
  }

  -- `o` is an object with exactly the entries of `f`.
  abbrev pub HasFields : Obj → (CStr → Option Obj) → Type 0
  HasFields o f = (type o ≡ ucl_object) × ((q : CStr) → lookup o q ≡ f q)

  abbrev pub no_fields : CStr → Option Obj
  no_fields q = none

  abbrev pub add_field : CStr → Option Obj → (CStr → Option Obj) → CStr → Option Obj
  add_field k e f q = if str_eq k q then e else f q

  pub typed_object-HasFields : HasFields typed_object no_fields
  typed_object-HasFields = (type-typed_object, lookup-typed_object)

  pub insert_key-HasFields :
      (o e : Obj) (k : CStr) (f : CStr → Option Obj)
      → HasFields o f
      → f k ≡ none
      → HasFields (insert_key o e k) (add_field k (some e) f)
  insert_key-HasFields o e k f h free = (
    type-insert_key o e k ∙ h.0,
    λ q.
        lookup-insert_key o e k q h.0 (h.1 k ∙ free)
        ∙ ap (λ t. if str_eq k q then some e else t) (h.1 q),
  )

  -- A key that stays out of the object.
  pub skip_key-HasFields :
      (o : Obj) (k : CStr) (f : CStr → Option Obj)
      → HasFields o f
      → f k ≡ none
      → HasFields o (add_field k none f)
  skip_key-HasFields o k f h free = (h.0, λ q. h.1 q ∙ skipped q)
    where
      skipped : (q : CStr) → f q ≡ add_field k none f q
      skipped q = elim (Bool-cases (str_eq k q)) [
        | inl e ↦ rw e (ap f (sym ((str_eq_iff k q).0 e)) ∙ free)
        | inr e ↦ rw e refl
      ]
