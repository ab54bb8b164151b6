-- ===== src/Repository/Convert/Lists.antt =====
-- The keys of an instance or a service that are written only when there is something to write.
use e_com_init.Common.{
  ◌≡◌, refl, Option, none, some, List, [], ◌∷◌, All, All-map, CStr, codes, map, ap, arith, ◌<◌, ◌^◌,
}
use e_com_init.Service.Types.{S16ServiceState, S16DependencyGroup, S16Property, S16ServiceMethod}
use e_com_init.S16List.{list_empty}
use e_com_init.Ucl.{LibUcl, IsVerbatim, int64_of_int, int64_of_int-lt, int_of_int64-int64_of_int}
use e_com_init.Ucl.Fields.{HasFields, add_field, insert_key-HasFields, skip_key-HasFields}
use e_com_init.Repository.Convert.{Conv, value, state_code, state_of_code}
use e_com_init.Repository.Convert.Write.{
  ins_key_arr, append_each, add_unless_empty, prop_to_ucl, u_add_props, meth_to_ucl, u_add_meths,
  depgroup_to_ucl, u_add_depgroups, add_def_inst, ins_key,
}
use e_com_init.Repository.Convert.Read.{
  assert_type_if, is_array, is_string, when_given, add_each, add_all, ucl_to_prop, add_props,
  ucl_to_meth, add_meths, ucl_to_depgroup, add_depgroups, state_or_none, def_inst_or_null,
}
use e_com_init.Repository.Convert.Arrays.{
  keep_some, IsReadBack, keep_all, add_each-append_each, add_all-append_each,
}
use e_com_init.Repository.Convert.Parts.{
  IsText, IsPlainMethod, IsPlainGroup, stored_group, stored_method, keep_some-some, prop-IsReadBack,
  meth-IsReadBack, group-IsReadBack,
}

-- A name that is there is not escaped.
abbrev pub HasVerbatim : Option CStr → Type 0
HasVerbatim none = Unit
HasVerbatim (some i) = IsVerbatim i

keep_some-map {ℓ} :
    {A : Type ℓ} (f : A → A) (xs : List A) → keep_some (λ x. some (f x)) xs ≡ map f xs
keep_some-map f [] = refl
keep_some-map f (x ∷ xs) = ap (λ t. f x ∷ t) (keep_some-map f xs)

module _ ⦃u : LibUcl⦄ where
  open u use {
    Obj, type, typed_array, items, fromstring, fromint, insert_key, toint, tostring, toint-fromint,
    tostring-fromstring, type-fromstring,
  }

  -- The list is under the key, if it is not empty, and `read` gives `back` for what is there.
  abbrev pub IsListUnder {ℓ} :
      {A : Type ℓ}
      → CStr
      → (CStr → Option Obj)
      → Conv Obj
      → (Obj → List A → Conv (List A))
      → List A
      → Type ℓ
  IsListUnder key f made read back =
      (obj : Obj) × (e : Option Obj) × (made ≡ value obj)
      × HasFields obj (add_field key e f)
      × (assert_type_if is_array e ≡ value e)
      × (when_given read e ≡ value back)

  module _ {A : Type 0} (key : CStr) (to_ucl : A → Conv Obj) (from_ucl : Obj → Conv A) (obj : Obj)
      (f : CStr → Option Obj) (h : HasFields obj f) (free : f key ≡ none) where
    abbrev filler : Obj → List A → Conv Obj
    filler o xs = ins_key_arr o key (append_each to_ucl typed_array xs)

    skip_under :
        (keep : A → Option A) (xs : List A)
        → All (IsReadBack to_ucl from_ucl keep) xs
        → IsListUnder key f
            (add_unless_empty filler obj xs)
            (λ o list. add_each from_ucl (items o) list)
            (keep_some keep xs)
    unfolding add_unless_empty ins_key_arr list_empty when_given
    skip_under keep [] all = (obj, none, refl, skip_key-HasFields obj key f h free, refl, refl)
    skip_under keep (x ∷ xs) all =
        let (arr, made, is_arr, back) = add_each-append_each to_ucl from_ucl keep (x ∷ xs) all in
        (
          insert_key obj arr key,
          some arr,
          rw made refl,
          insert_key-HasFields obj arr key f h free,
          rw is_arr refl,
          back,
        )

    pub strict_under :
        (stored : A → A) (xs : List A)
        → All (IsReadBack to_ucl from_ucl (keep_all to_ucl from_ucl stored)) xs
        → IsListUnder key f
            (add_unless_empty filler obj xs)
            (λ o list. add_all from_ucl (items o) list)
            (map stored xs)
    unfolding add_unless_empty ins_key_arr list_empty when_given
    strict_under stored [] all = (obj, none, refl, skip_key-HasFields obj key f h free, refl, refl)
    strict_under stored (x ∷ xs) all =
        let (arr, made, is_arr, back) = add_all-append_each to_ucl from_ucl stored (x ∷ xs) all in
        (
          insert_key obj arr key,
          some arr,
          rw made refl,
          insert_key-HasFields obj arr key f h free,
          rw is_arr refl,
          back,
        )

  module _ (obj : Obj) (f : CStr → Option Obj) (h : HasFields obj f) where
    pub props_under :
        (props : List S16Property)
        → f (codes "properties") ≡ none
        → All IsText props
        → IsListUnder
            (codes "properties")
            f
            (add_unless_empty u_add_props obj props)
            add_props
            props
    unfolding u_add_props add_props
    props_under props free all = rw (keep_some-some props) at (
        skip_under (codes "properties") prop_to_ucl ucl_to_prop obj f h free (λ x. some x) props
          (All-map IsText _ props prop-IsReadBack all))

    pub meths_under :
        (meths : List S16ServiceMethod)
        → f (codes "methods") ≡ none
        → All IsPlainMethod meths
        → IsListUnder
            (codes "methods")
            f
            (add_unless_empty u_add_meths obj meths)
            add_meths
            (keep_some stored_method meths)
    unfolding u_add_meths add_meths
    meths_under meths free all =
        skip_under (codes "methods") meth_to_ucl ucl_to_meth obj f h free stored_method meths
          (All-map _ _ meths meth-IsReadBack all)

    pub groups_under :
        (groups : List S16DependencyGroup)
        → f (codes "dependencies") ≡ none
        → All IsPlainGroup groups
        → IsListUnder
            (codes "dependencies")
            f
            (add_unless_empty u_add_depgroups obj groups)
            add_depgroups
            (map stored_group groups)
    unfolding u_add_depgroups add_depgroups
    groups_under groups free all = rw (keep_some-map stored_group groups) at (
        skip_under (codes "dependencies") depgroup_to_ucl ucl_to_depgroup obj f h free
          (λ x. some (stored_group x)) groups (All-map IsPlainGroup _ groups group-IsReadBack all))

    pub def_inst_under :
        (inst : Option CStr)
        → HasVerbatim inst
        → f (codes "default-instance") ≡ none
        → (e : Option Obj) × HasFields
            (add_def_inst obj inst)
            (add_field (codes "default-instance") e f)
          × (assert_type_if is_string e ≡ value e)
          × (def_inst_or_null e ≡ value inst)
    unfolding add_def_inst def_inst_or_null ins_key
    def_inst_under none plain free =
        (none, skip_key-HasFields obj (codes "default-instance") f h free, refl, refl)
    def_inst_under (some i) plain free = (
      some (fromstring i),
      insert_key-HasFields obj (fromstring i) (codes "default-instance") f h free,
      rw type-fromstring refl,
      rw (tostring-fromstring i plain) refl,
    )

  state_code-lt : (s : S16ServiceState) → state_code s < 2 ^ 32
  unfolding state_code
  state_code-lt s = ground arith

  state_of_code-state_code : (s : S16ServiceState) → state_of_code (state_code s) ≡ value s
  unfolding state_code state_of_code
  state_of_code-state_code s = ground arith

  -- A state is read back.
  pub state_or_none-state_code :
      (s : S16ServiceState) → state_or_none (some (fromint (int64_of_int (state_code s)))) ≡ value s
  unfolding state_or_none
  state_or_none-state_code s =
      rw
        (
          toint-fromint _ (int64_of_int-lt (state_code s) (state_code-lt s)),
          int_of_int64-int64_of_int (state_code s) (state_code-lt s),
        )
        (state_of_code-state_code s)
