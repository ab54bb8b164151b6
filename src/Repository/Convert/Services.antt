-- ===== src/Repository/Convert/Services.antt =====
-- Services through libucl and back.
use e_com_init.Common.{◌≡◌, refl, some, List, All, All-map, codes, str_eq, map}
use e_com_init.Service.Types.{S16Service}
use e_com_init.Service.Text.{path_to_string}
use e_com_init.Ucl.{LibUcl, int64_of_int}
use e_com_init.Ucl.Fields.{no_fields, typed_object-HasFields, insert_key-HasFields}
use e_com_init.Repository.Convert.{value, ◌>>=◌, state_code}
use e_com_init.Repository.Convert.Write.{ins_key, service_to_ucl, append_each}
use e_com_init.Repository.Convert.Read.{ucl_to_path, ucl_to_svc, ucl_to_svcs, stop_at_null}
use e_com_init.Repository.Convert.Arrays.{keep_some, IsReadBack, keep_all, add_all-append_each}
use e_com_init.Repository.Convert.Parts.{
  IsPlainMethod, IsPlainPath, IsText, IsPlainGroup, stored_group, stored_method,
}
use e_com_init.Service.Text.Laws.{path-roundtrip}
use e_com_init.Repository.Convert.Lists.{
  HasVerbatim, props_under, meths_under, groups_under, def_inst_under, state_or_none-state_code,
}
use e_com_init.Repository.Convert.Instances.{IsPlainInstance, stored_instance, insts_under}

abbrev pub IsPlainService : S16Service → Type 0
IsPlainService s =
    IsPlainPath s.path
    × All IsText s.props
    × All IsPlainMethod s.meths
    × All IsPlainInstance s.insts
    × All IsPlainGroup s.depgroups
    × HasVerbatim s.def_inst

abbrev pub stored_service : S16Service → S16Service
stored_service s = record s {
  meths = keep_some stored_method s.meths;
  insts = map stored_instance s.insts;
  depgroups = map stored_group s.depgroups;
}

module _ ⦃u : LibUcl⦄ where
  open u use {
    Obj, type, typed_object, typed_array, fromstring, fromint, frombool, insert_key, lookup, items,
    type-fromstring, type-fromint, type-frombool, tostring-fromstring, toint, toint-fromint,
    toboolean-frombool,
  }

  svc-IsReadBack :
      (s : S16Service)
      → IsPlainService s
      → IsReadBack service_to_ucl ucl_to_svc (keep_all service_to_ucl ucl_to_svc stored_service) s
  unfolding service_to_ucl ucl_to_svc ucl_to_path ins_key str_eq
  svc-IsReadBack s (plain_path, texts, meth_texts, plain_insts, plain_groups, plain_default) =
      let upath = fromstring (path_to_string s.path) in
      let ustate = fromint (int64_of_int (state_code s.state)) in
      let h0 =
        insert_key-HasFields typed_object upath (codes "path") no_fields typed_object-HasFields
          refl in
      let (e1, h1, type1, back1) = def_inst_under _ _ h0 s.def_inst plain_default refl in
      let (o2, e2, made2, h2, type2, back2) = props_under _ _ h1 s.props refl texts in
      let (o3, e3, made3, h3, type3, back3) = meths_under o2 _ h2 s.meths refl meth_texts in
      let (o4, e4, made4, h4, type4, back4) = insts_under o3 _ s.insts h3 refl plain_insts in
      let (o5, e5, made5, h5, type5, back5) = groups_under o4 _ h4 s.depgroups refl plain_groups in
      let obj = insert_key o5 ustate (codes "state") in
      let h6 = insert_key-HasFields o5 ustate (codes "state") _ h5 refl in
      let f0 : lookup obj (codes "path") ≡ some upath = h6.1 (codes "path") in
      let f1 : lookup obj (codes "default-instance") ≡ e1 = h6.1 (codes "default-instance") in
      let f2 : lookup obj (codes "properties") ≡ e2 = h6.1 (codes "properties") in
      let f3 : lookup obj (codes "methods") ≡ e3 = h6.1 (codes "methods") in
      let f4 : lookup obj (codes "instances") ≡ e4 = h6.1 (codes "instances") in
      let f5 : lookup obj (codes "dependencies") ≡ e5 = h6.1 (codes "dependencies") in
      let f6 : lookup obj (codes "state") ≡ some ustate = h6.1 (codes "state") in
      (
        obj,
        rw (made2, made3, made4, made5) refl,
        simp
            (
              f0,
              f1,
              f2,
              f3,
              f4,
              f5,
              f6,
              type1,
              type2,
              type3,
              type4,
              type5,
              type-fromstring,
              type-fromint,
              tostring-fromstring (path_to_string s.path) plain_path.2,
              path-roundtrip s.path plain_path.0 plain_path.1,
              back1,
              back2,
              back3,
              back4,
              back5,
              state_or_none-state_code,
            )
            refl,
      )

  -- A service whose paths are in full and without a colon in the service name, whose property values
  -- are strings, whose dependency groups name their condition, and whose texts are printable ASCII
  -- without quotes and backslashes, which libucl would escape, is written and read back as it was, but
  -- for the methods that have no property and for the names of dependency groups.
  pub ucl_to_svc-service_to_ucl :
      (s : S16Service)
      → IsPlainService s
      → (service_to_ucl s >>= ucl_to_svc) ≡ value (stored_service s)
  ucl_to_svc-service_to_ucl s h = let (o, made, back) = svc-IsReadBack s h in rw made back

  -- A list of such services, sent as an array, is read back whole.
  pub ucl_to_svcs-append_each :
      (svcs : List S16Service)
      → All IsPlainService svcs
      → (append_each service_to_ucl typed_array svcs >>= ucl_to_svcs)
        ≡ value (map stored_service svcs)
  unfolding ucl_to_svcs stop_at_null
  ucl_to_svcs-append_each svcs h =
      let (arr, made, is_arr, back) =
        add_all-append_each service_to_ucl (λ o. stop_at_null (ucl_to_svc o)) stored_service svcs
          (All-map IsPlainService _ svcs asserted_back h) in
      rw made back
    where
      asserted_back :
          (s : S16Service)
          → IsPlainService s
          → IsReadBack service_to_ucl
              (λ o. stop_at_null (ucl_to_svc o))
              (keep_all service_to_ucl (λ o. stop_at_null (ucl_to_svc o)) stored_service)
              s
      asserted_back s plain =
          let (o, made, back) = svc-IsReadBack s plain in (o, made, rw back refl)
