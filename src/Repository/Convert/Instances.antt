-- ===== src/Repository/Convert/Instances.antt =====
-- Instances through libucl and back.
use e_com_init.Common.{
  ◌≡◌, refl, Option, none, some, List, [], All, All-map, CStr, codes, str_eq, map,
}
use e_com_init.Service.Types.{S16ServiceInstance, S16Service}
use e_com_init.Service.Text.{path_to_string}
use e_com_init.Ucl.{LibUcl, int64_of_int}
use e_com_init.Ucl.Fields.{HasFields, no_fields, typed_object-HasFields, insert_key-HasFields}
use e_com_init.Repository.Convert.{Conv, value, ◌>>=◌, state_code}
use e_com_init.Repository.Convert.Write.{ins_key, inst_to_ucl, u_add_insts, add_unless_empty}
use e_com_init.Repository.Convert.Read.{
  ucl_to_path, enabled_or_true, def_inst_or_null, when_given, assert_type_if, is_array, add_props,
  add_meths, add_depgroups, ucl_to_inst, add_insts, ucl_to_svc,
}
use e_com_init.Repository.Convert.Arrays.{keep_some, IsReadBack, keep_all}
use e_com_init.Repository.Convert.Parts.{
  IsPlainMethod, IsPlainPath, IsText, IsPlainGroup, stored_group, stored_method,
}
use e_com_init.Service.Text.Laws.{path-roundtrip}
use e_com_init.Repository.Convert.Lists.{
  IsListUnder, strict_under, props_under, meths_under, groups_under, state_or_none-state_code,
}

-- Paths are in full and have no colon in the service name, values are strings, and no group restarts
-- on any event.
abbrev pub IsPlainInstance : S16ServiceInstance → Type 0
IsPlainInstance i =
    IsPlainPath i.path
    × All IsText i.props
    × All IsPlainMethod i.meths
    × All IsPlainGroup i.depgroups

-- What the text of a repository keeps: not the methods that have no property, and not the names of
-- dependency groups.
abbrev pub stored_instance : S16ServiceInstance → S16ServiceInstance
stored_instance i = record i {
  meths = keep_some stored_method i.meths;
  depgroups = map stored_group i.depgroups;
}

module _ ⦃u : LibUcl⦄ where
  open u use {
    Obj, type, typed_object, typed_array, fromstring, fromint, frombool, insert_key, lookup, items,
    type-fromstring, type-fromint, type-frombool, tostring-fromstring, toint, toint-fromint,
    toboolean-frombool,
  }

  -- A list that an object has under a key, as far as it is written, and what is read from there.
  abbrev HoldsList {ℓ} :
      {A : Type ℓ} → Obj → CStr → (Obj → List A → Conv (List A)) → List A → Type ℓ
  HoldsList obj key read back =
      (e : Option Obj) × (lookup obj key ≡ e)
      × (assert_type_if is_array e ≡ value e)
      × (when_given read e ≡ value back)

  -- The object of an instance: its keys, and two that it does not have.
  record IsInstanceObject (i : S16ServiceInstance) (obj : Obj) : Type 0 where
    path : lookup obj (codes "path") ≡ some (fromstring (path_to_string i.path))
    props : HoldsList obj (codes "properties") add_props i.props
    meths : HoldsList obj (codes "methods") add_meths (keep_some stored_method i.meths)
    depgroups : HoldsList obj (codes "dependencies") add_depgroups (map stored_group i.depgroups)
    enabled : lookup obj (codes "enabled") ≡ some (frombool i.enabled)
    state : lookup obj (codes "state") ≡ some (fromint (int64_of_int (state_code i.state)))
    no_def_inst : lookup obj (codes "default-instance") ≡ none
    no_insts : lookup obj (codes "instances") ≡ none

  inst_to_ucl-IsInstanceObject :
      (i : S16ServiceInstance)
      → IsPlainInstance i
      → (obj : Obj) × (inst_to_ucl i ≡ value obj) × IsInstanceObject i obj
  unfolding inst_to_ucl ins_key str_eq
  inst_to_ucl-IsInstanceObject i (plain_path, texts, meth_texts, plain_groups) =
      let upath = fromstring (path_to_string i.path) in
      let ustate = fromint (int64_of_int (state_code i.state)) in
      let h0 =
        insert_key-HasFields typed_object upath (codes "path") no_fields typed_object-HasFields
          refl in
      let (o1, e1, made1, h1, type1, back1) = props_under _ _ h0 i.props refl texts in
      let (o2, e2, made2, h2, type2, back2) = meths_under o1 _ h1 i.meths refl meth_texts in
      let (o3, e3, made3, h3, type3, back3) = groups_under o2 _ h2 i.depgroups refl plain_groups in
      let o4 = insert_key o3 (frombool i.enabled) (codes "enabled") in
      let h4 = insert_key-HasFields o3 (frombool i.enabled) (codes "enabled") _ h3 refl in
      let h5 = insert_key-HasFields o4 ustate (codes "state") _ h4 refl in
      (
        insert_key o4 ustate (codes "state"),
        rw (made1, made2, made3) refl,
        record {
          path = h5.1 (codes "path");
          props = (e1, h5.1 (codes "properties"), type1, back1);
          meths = (e2, h5.1 (codes "methods"), type2, back2);
          depgroups = (e3, h5.1 (codes "dependencies"), type3, back3);
          enabled = h5.1 (codes "enabled");
          state = h5.1 (codes "state");
          no_def_inst = h5.1 (codes "default-instance");
          no_insts = h5.1 (codes "instances");
        },
      )

  ucl_to_inst-IsInstanceObject :
      (i : S16ServiceInstance) (obj : Obj)
      → IsPlainPath i.path
      → IsInstanceObject i obj
      → ucl_to_inst obj ≡ value (stored_instance i)
  unfolding ucl_to_inst ucl_to_path enabled_or_true
  ucl_to_inst-IsInstanceObject i obj plain h =
      let (e1, f1, type1, back1) = h.props in
      let (e2, f2, type2, back2) = h.meths in
      let (e3, f3, type3, back3) = h.depgroups in
      simp
        (
          h.path,
          f1,
          f2,
          f3,
          h.enabled,
          h.state,
          type1,
          type2,
          type3,
          type-fromstring,
          type-frombool,
          type-fromint,
          tostring-fromstring (path_to_string i.path) plain.2,
          path-roundtrip i.path plain.0 plain.1,
          back1,
          back2,
          back3,
          state_or_none-state_code,
          toboolean-frombool,
        )
        refl

  -- The object of an instance as a service.
  abbrev pub inst_as_svc : S16ServiceInstance → S16Service
  inst_as_svc i = record {
    path = i.path;
    def_inst = none;
    props = i.props;
    meths = keep_some stored_method i.meths;
    insts = [];
    depgroups = map stored_group i.depgroups;
    state = i.state;
  }

  ucl_to_svc-IsInstanceObject :
      (i : S16ServiceInstance) (obj : Obj)
      → IsPlainPath i.path
      → IsInstanceObject i obj
      → ucl_to_svc obj ≡ value (inst_as_svc i)
  unfolding ucl_to_svc ucl_to_path def_inst_or_null when_given
  ucl_to_svc-IsInstanceObject i obj plain h =
      let (e1, f1, type1, back1) = h.props in
      let (e2, f2, type2, back2) = h.meths in
      let (e3, f3, type3, back3) = h.depgroups in
      simp
        (
          h.path,
          f1,
          f2,
          f3,
          h.state,
          h.no_def_inst,
          h.no_insts,
          type1,
          type2,
          type3,
          type-fromstring,
          type-fromint,
          tostring-fromstring (path_to_string i.path) plain.2,
          path-roundtrip i.path plain.0 plain.1,
          back1,
          back2,
          back3,
          state_or_none-state_code,
        )
        refl

  inst-IsReadBack :
      (i : S16ServiceInstance)
      → IsPlainInstance i
      → IsReadBack inst_to_ucl ucl_to_inst (keep_all inst_to_ucl ucl_to_inst stored_instance) i
  inst-IsReadBack i plain =
      let (obj, made, h) = inst_to_ucl-IsInstanceObject i plain in
      (obj, made, ucl_to_inst-IsInstanceObject i obj plain.0 h)

  pub insts_under :
      (obj : Obj) (f : CStr → Option Obj) (insts : List S16ServiceInstance)
      → HasFields obj f
      → f (codes "instances") ≡ none
      → All IsPlainInstance insts
      → IsListUnder
          (codes "instances")
          f
          (add_unless_empty u_add_insts obj insts)
          add_insts
          (map stored_instance insts)
  unfolding u_add_insts add_insts
  insts_under obj f insts h free all =
      strict_under (codes "instances") inst_to_ucl ucl_to_inst obj f h free stored_instance insts
        (All-map IsPlainInstance _ insts inst-IsReadBack all)

  pub ucl_to_inst-inst_to_ucl :
      (i : S16ServiceInstance)
      → IsPlainInstance i
      → (inst_to_ucl i >>= ucl_to_inst) ≡ value (stored_instance i)
  ucl_to_inst-inst_to_ucl i h = let (o, made, back) = inst-IsReadBack i h in rw made back

  -- What is written for an instance is also read as a service.
  pub ucl_to_svc-inst_to_ucl :
      (i : S16ServiceInstance)
      → IsPlainInstance i
      → (inst_to_ucl i >>= ucl_to_svc) ≡ value (inst_as_svc i)
  ucl_to_svc-inst_to_ucl i plain =
      let (obj, made, h) = inst_to_ucl-IsInstanceObject i plain in
      rw made (ucl_to_svc-IsInstanceObject i obj plain.0 h)
