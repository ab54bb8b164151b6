-- ===== src/Repository/Convert/Parts.antt =====
-- Paths, dependency groups, properties and methods through libucl and back.
use e_com_init.Common.{
  ◌≡◌, ◌≢◌, refl, true, Option, none, some, List, [], ◌∷◌, All, All-map, CStr, codes, str_eq, map,
  ap, subst, arith,
}
use e_com_init.Service.Types.{
  S16Path, DependencyGroupType, RestartOn, on_none, on_error, on_restart, on_refresh, on_any,
  S16DependencyGroup, string, S16Property, S16ServiceMethod,
}
use e_com_init.Service.Text.{
  path_to_string, depgroup_type_to_string, string_to_restart_on, restart_on_to_string,
}
use e_com_init.Service.Text.Laws.{
  HasNoColon, path-roundtrip, depgroup_type-roundtrip, restart_on-roundtrip,
}
use e_com_init.S16List.{list_empty}
use e_com_init.Ucl.{LibUcl, IsVerbatim}
use e_com_init.Ucl.Fields.{no_fields, typed_object-HasFields, insert_key-HasFields}
use e_com_init.Repository.Convert.{value}
use e_com_init.Repository.Convert.Write.{
  ins_key, ins_key_arr, append_each, path_to_ucl, depgroup_to_ucl, value_s, prop_to_ucl,
  u_add_props, meth_to_ucl,
}
use e_com_init.Repository.Convert.Read.{
  ucl_to_path, ucl_to_depgroup, ucl_to_prop, add_props, ucl_to_meth,
}
use e_com_init.Repository.Convert.Arrays.{
  keep_some, IsReadBack, keep_all, add_each-append_each, add_all-append_each,
}

-- A path that its text gives back, and a text that libucl does not escape.
abbrev pub IsPlainPath : S16Path → Type 0
IsPlainPath p = (p.full_qual ≡ true) × HasNoColon p.svc × IsVerbatim (path_to_string p)

abbrev pub IsText : S16Property → Type 0
IsText p = (s : CStr) × (p.value ≡ string s) × IsVerbatim p.name × IsVerbatim s

abbrev pub IsPlainMethod : S16ServiceMethod → Type 0
IsPlainMethod m = IsVerbatim m.name × All IsText m.props

abbrev pub IsPlainGroup : S16DependencyGroup → Type 0
IsPlainGroup g = (g.restart_on ≢ on_any) × All IsPlainPath g.paths

-- What the text of a repository keeps of a dependency group: not its name.
abbrev pub stored_group : S16DependencyGroup → S16DependencyGroup
stored_group g = record g { name = none }

-- It keeps a method that has properties.
abbrev pub stored_method : S16ServiceMethod → Option S16ServiceMethod
stored_method m = elim m.props [ [] ↦ none | p ∷ ps ↦ some m ]

restart_on_kept :
    (r : RestartOn) → r ≢ on_any → string_to_restart_on (restart_on_to_string r) ≡ some r
restart_on_kept on_any h = absurd (h refl)
restart_on_kept on_none h = restart_on-roundtrip on_none
restart_on_kept on_error h = restart_on-roundtrip on_error
restart_on_kept on_restart h = restart_on-roundtrip on_restart
restart_on_kept on_refresh h = restart_on-roundtrip on_refresh

depgroup_type-IsVerbatim : (t : DependencyGroupType) → IsVerbatim (depgroup_type_to_string t)
unfolding depgroup_type_to_string
depgroup_type-IsVerbatim t = ground arith

restart_on-IsVerbatim : (r : RestartOn) → IsVerbatim (restart_on_to_string r)
unfolding restart_on_to_string
restart_on-IsVerbatim r = ground arith

keeps_itself {ℓ} : {A : Type ℓ} → (xs : List A) → map (λ x. x) xs ≡ xs
keeps_itself [] = refl
keeps_itself (x ∷ xs) = ap (λ t. x ∷ t) (keeps_itself xs)

pub keep_some-some {ℓ} : {A : Type ℓ} → (xs : List A) → keep_some (λ x. some x) xs ≡ xs
keep_some-some [] = refl
keep_some-some (x ∷ xs) = ap (λ t. x ∷ t) (keep_some-some xs)

module _ ⦃u : LibUcl⦄ where
  open u use {
    Obj, type, typed_object, typed_array, fromstring, insert_key, lookup, type-fromstring,
    tostring-fromstring,
  }

  pub ucl_to_path-path_to_ucl :
      (p : S16Path) → IsPlainPath p → ucl_to_path (fromstring (path_to_string p)) ≡ value p
  unfolding ucl_to_path
  ucl_to_path-path_to_ucl p h =
      rw (type-fromstring, tostring-fromstring (path_to_string p) h.2)
        (ap value (path-roundtrip p h.0 h.1))

  path-IsReadBack :
      (p : S16Path)
      → IsPlainPath p
      → IsReadBack
          (λ x. value (path_to_ucl x))
          ucl_to_path
          (keep_all (λ x. value (path_to_ucl x)) ucl_to_path (λ x. x))
          p
  unfolding path_to_ucl
  path-IsReadBack p h = (fromstring (path_to_string p), refl, ucl_to_path-path_to_ucl p h)

  -- A property whose value is a string is read back as it was.
  pub prop-IsReadBack :
      (p : S16Property) → IsText p → IsReadBack prop_to_ucl ucl_to_prop (λ x. some x) p
  unfolding prop_to_ucl ucl_to_prop ins_key value_s str_eq
  prop-IsReadBack p (s, e, name_plain, plain) =
      let uname = insert_key typed_object (fromstring p.name) (codes "name") in
      let h =
        insert_key-HasFields uname (fromstring s) (codes "value") _
          (insert_key-HasFields typed_object (fromstring p.name) (codes "name") no_fields
            typed_object-HasFields refl)
          refl in
      let name_of : lookup (insert_key uname (fromstring s) (codes "value")) (codes "name")
          ≡ some (fromstring p.name) =
        h.1 (codes "name") in
      let value_of : lookup (insert_key uname (fromstring s) (codes "value")) (codes "value")
          ≡ some (fromstring s) =
        h.1 (codes "value") in
      (
        insert_key uname (fromstring s) (codes "value"),
        rw e refl,
        simp
            (
              name_of,
              value_of,
              type-fromstring,
              tostring-fromstring p.name name_plain,
              tostring-fromstring s plain,
            )
            (subst (λ v. value (record { name = p.name; value = v }) ≡ value p) e refl),
      )

  -- A dependency group is read back without its name, unless it restarts on any event.
  pub group-IsReadBack :
      (g : S16DependencyGroup)
      → IsPlainGroup g
      → IsReadBack depgroup_to_ucl ucl_to_depgroup (λ x. some (stored_group x)) g
  unfolding depgroup_to_ucl ucl_to_depgroup ins_key ins_key_arr str_eq
  group-IsReadBack g (restarts, plain) =
      let (arr, made, is_arr, back) =
        add_all-append_each (λ x. value (path_to_ucl x)) ucl_to_path (λ x. x) g.paths
          (All-map IsPlainPath _ g.paths path-IsReadBack plain) in
      let kind = fromstring (depgroup_type_to_string g.type) in
      let restart = fromstring (restart_on_to_string g.restart_on) in
      let udep = insert_key typed_object kind (codes "grouping") in
      let udep' = insert_key udep restart (codes "restart-on") in
      let obj = insert_key udep' arr (codes "paths") in
      let h1 =
        insert_key-HasFields typed_object kind (codes "grouping") no_fields typed_object-HasFields
          refl in
      let h2 = insert_key-HasFields udep restart (codes "restart-on") _ h1 refl in
      let h3 = insert_key-HasFields udep' arr (codes "paths") _ h2 refl in
      let f1 : lookup obj (codes "grouping") ≡ some kind = h3.1 (codes "grouping") in
      let f2 : lookup obj (codes "restart-on") ≡ some restart = h3.1 (codes "restart-on") in
      let f3 : lookup obj (codes "paths") ≡ some arr = h3.1 (codes "paths") in
      (
        obj,
        rw made refl,
        simp
            (
              f1,
              f2,
              f3,
              type-fromstring,
              tostring-fromstring (depgroup_type_to_string g.type)
                  (depgroup_type-IsVerbatim g.type),
              tostring-fromstring (restart_on_to_string g.restart_on)
                  (restart_on-IsVerbatim g.restart_on),
              is_arr,
              depgroup_type-roundtrip,
              restart_on_kept g.restart_on restarts,
              back,
              keeps_itself,
            )
            refl,
      )

  method_of : CStr → List S16Property → S16ServiceMethod
  method_of name props = record { name = name; props = props }

  method_of-IsReadBack :
      (name : CStr) (props : List S16Property)
      → IsVerbatim name
      → All IsText props
      → IsReadBack meth_to_ucl ucl_to_meth stored_method (method_of name props)
  unfolding method_of meth_to_ucl ucl_to_meth ins_key list_empty str_eq
  method_of-IsReadBack name [] plain h =
      let uname = fromstring name in
      let obj = insert_key typed_object uname (codes "name") in
      let h1 =
        insert_key-HasFields typed_object uname (codes "name") no_fields typed_object-HasFields
          refl in
      let f1 : lookup obj (codes "name") ≡ some uname = h1.1 (codes "name") in
      let f2 : lookup obj (codes "properties") ≡ none = h1.1 (codes "properties") in
      (obj, refl, simp (f1, f2) refl)
  method_of-IsReadBack name (p ∷ props) plain h =
      let (arr, made, is_arr, back) =
        add_each-append_each prop_to_ucl ucl_to_prop (λ x. some x) (p ∷ props)
          (All-map IsText _ (p ∷ props) prop-IsReadBack h) in
      let uname = fromstring name in
      let umeth = insert_key typed_object uname (codes "name") in
      let obj = insert_key umeth arr (codes "properties") in
      let h1 =
        insert_key-HasFields typed_object uname (codes "name") no_fields typed_object-HasFields
          refl in
      let h2 = insert_key-HasFields umeth arr (codes "properties") _ h1 refl in
      let f1 : lookup obj (codes "name") ≡ some uname = h2.1 (codes "name") in
      let f2 : lookup obj (codes "properties") ≡ some arr = h2.1 (codes "properties") in
      (
        obj,
        filled made,
        simp
            (
              f1,
              f2,
              type-fromstring,
              tostring-fromstring name plain,
              is_arr,
              add_props,
              back,
              keep_some-some,
            )
            refl,
      )
    where
      filled :
          {arr : Obj}
          → append_each prop_to_ucl typed_array (p ∷ props) ≡ value arr
          → u_add_props (insert_key typed_object (fromstring name) (codes "name")) (p ∷ props)
            ≡ value (
                insert_key
                  (insert_key typed_object (fromstring name) (codes "name"))
                  arr
                  (codes "properties"))
      filled made = rw (u_add_props, ins_key_arr, made) refl

  -- A method is read back if it has a property; without one it is read as NULL.
  pub meth-IsReadBack :
      (m : S16ServiceMethod) → IsPlainMethod m → IsReadBack meth_to_ucl ucl_to_meth stored_method m
  unfolding method_of
  meth-IsReadBack m h = method_of-IsReadBack m.name m.props h.0 h.1
