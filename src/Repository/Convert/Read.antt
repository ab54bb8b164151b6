-- ===== src/Repository/Convert/Read.antt =====
-- The functions of usr/src/lib/s16/db/convert.c that read libucl objects.
use e_com_init.Common.{
  Bool, true, false, Option, none, some, List, [], ◌∷◌, CStr, codes, if◌then◌else◌,
}
use e_com_init.Service.Types.{
  S16ServiceState, no_state, S16Path, S16DependencyGroup, string, S16Property, S16ServiceMethod,
  S16ServiceInstance, S16Service,
}
use e_com_init.Service.Text.{string_to_path, string_to_depgroup_type, string_to_restart_on}
use e_com_init.S16List.{list_add}
use e_com_init.Ucl.{LibUcl, UclType, ucl_array, ucl_string, ucl_int, ucl_boolean, int_of_int64}
use e_com_init.Repository.Notes.{S16Note}
use e_com_init.Common.Conv.{needed, asserted}
use e_com_init.Repository.Convert.{
  Conv, value, null, stopped, not_in_enum, ◌>>=◌, state_of_code, note_type_of_code,
}

abbrev pub is_array : UclType → Bool
is_array ucl_array = true
is_array _ = false

abbrev pub is_string : UclType → Bool
is_string ucl_string = true
is_string _ = false

abbrev is_int : UclType → Bool
is_int ucl_int = true
is_int _ = false

abbrev is_boolean : UclType → Bool
is_boolean ucl_boolean = true
is_boolean _ = false

-- A name that has no constant: -1.
abbrev in_enum {ℓ} : {A : Type ℓ} → Option A → Conv A
in_enum none = not_in_enum
in_enum (some x) = value x

module _ ⦃u : LibUcl⦄ where
  open u use {Obj, type, lookup, items, tostring, toint, toboolean}

  -- assert (ucl_object_type (obj) == ...)
  abbrev pub assert_type : (UclType → Bool) → Obj → Conv Obj
  assert_type test obj = if test (type obj) then value obj else stopped

  -- assert (!obj || ucl_object_type (obj) == ...)
  abbrev pub assert_type_if : (UclType → Bool) → Option Obj → Conv (Option Obj)
  assert_type_if test none = value none
  assert_type_if test (some obj) = if test (type obj) then value (some obj) else stopped

  -- strcmp and strdup of what ucl_object_tostring returns
  abbrev pub text : Obj → Conv CStr
  text obj = asserted (tostring obj)

  unfoldable pub ucl_to_path : Obj → Conv S16Path
  unfolding string_to_path
  ucl_to_path upath = do s ← assert_type is_string upath; txt ← text s; value (string_to_path txt)

  -- The loops that skip an element that reads as NULL, with a message.
  unfoldable pub add_each {ℓ} : {A : Type ℓ} → (Obj → Conv A) → List Obj → List A → Conv (List A)
  unfolding list_add
  add_each from_ucl [] list = value list
  add_each from_ucl (obj ∷ objs) list = elim (from_ucl obj) [
    | value x ↦ add_each from_ucl objs (list_add list x)
    | null ↦ add_each from_ucl objs list
    | stopped ↦ stopped
    | not_in_enum ↦ not_in_enum
  ]

  -- The loops that give up at such an element.
  unfoldable pub add_all {ℓ} : {A : Type ℓ} → (Obj → Conv A) → List Obj → List A → Conv (List A)
  unfolding list_add
  add_all from_ucl [] list = value list
  add_all from_ucl (obj ∷ objs) list = do x ← from_ucl obj; add_all from_ucl objs (list_add list x)

  -- if (array) ...
  unfoldable pub when_given {ℓ} :
      {A : Type ℓ} → (Obj → List A → Conv (List A)) → Option Obj → Conv (List A)
  when_given add none = value []
  when_given add (some arr) = add arr []

  unfoldable pub ucl_to_depgroup : Obj → Conv S16DependencyGroup
  unfolding string_to_depgroup_type string_to_restart_on ucl_to_path add_all
  ucl_to_depgroup obj = do
    type_obj ← asserted (lookup obj (codes "grouping"))
    utype ← assert_type is_string type_obj
    restart_obj ← asserted (lookup obj (codes "restart-on"))
    urestart ← assert_type is_string restart_obj
    paths_obj ← asserted (lookup obj (codes "paths"))
    upaths ← assert_type is_array paths_obj
    type_txt ← text utype
    kind ← in_enum (string_to_depgroup_type type_txt)
    restart_txt ← text urestart
    restart ← in_enum (string_to_restart_on restart_txt)
    list ← add_all ucl_to_path (items upaths) []
    value (record { name = none; type = kind; restart_on = restart; paths = list })

  unfoldable pub ucl_to_prop : Obj → Conv S16Property
  ucl_to_prop obj = do
    name_obj ← needed (lookup obj (codes "name"))
    val_obj ← needed (lookup obj (codes "value"))
    uname ← assert_type is_string name_obj
    uval ← assert_type is_string val_obj
    prop_name ← text uname
    val ← text uval
    value (record { name = prop_name; value = string val })

  unfoldable pub add_props : Obj → List S16Property → Conv (List S16Property)
  unfolding ucl_to_prop add_each
  add_props props list = add_each ucl_to_prop (items props) list

  unfoldable pub ucl_to_meth : Obj → Conv S16ServiceMethod
  unfolding add_props
  ucl_to_meth obj = do
    name_obj ← needed (lookup obj (codes "name"))
    props_obj ← needed (lookup obj (codes "properties"))
    uname ← assert_type is_string name_obj
    uprops ← assert_type is_array props_obj
    meth_name ← text uname
    list ← add_props uprops []
    value (record { name = meth_name; props = list })

  unfoldable pub add_meths : Obj → List S16ServiceMethod → Conv (List S16ServiceMethod)
  unfolding ucl_to_meth add_each
  add_meths meths list = add_each ucl_to_meth (items meths) list

  unfoldable pub add_depgroups : Obj → List S16DependencyGroup → Conv (List S16DependencyGroup)
  unfolding ucl_to_depgroup add_each
  add_depgroups depgroups list = add_each ucl_to_depgroup (items depgroups) list

  unfoldable pub state_or_none : Option Obj → Conv S16ServiceState
  unfolding state_of_code int_of_int64
  state_or_none none = value no_state
  state_or_none (some ustate) = state_of_code (int_of_int64 (toint ustate))

  unfoldable pub enabled_or_true : Option Obj → Bool
  enabled_or_true none = true
  enabled_or_true (some uenabled) = toboolean uenabled

  unfoldable pub ucl_to_inst : Obj → Conv S16ServiceInstance
  unfolding ucl_to_path add_props add_meths add_depgroups when_given state_or_none enabled_or_true
  ucl_to_inst obj = do
    path_obj ← needed (lookup obj (codes "path"))
    upath ← assert_type is_string path_obj
    uprops ← assert_type_if is_array (lookup obj (codes "properties"))
    umeths ← assert_type_if is_array (lookup obj (codes "methods"))
    udeps ← assert_type_if is_array (lookup obj (codes "dependencies"))
    uenabled ← assert_type_if is_boolean (lookup obj (codes "enabled"))
    ustate ← assert_type_if is_int (lookup obj (codes "state"))
    inst_path ← ucl_to_path upath
    inst_props ← when_given add_props uprops
    inst_meths ← when_given add_meths umeths
    inst_deps ← when_given add_depgroups udeps
    inst_state ← state_or_none ustate
    value (record {
      path = inst_path;
      props = inst_props;
      meths = inst_meths;
      depgroups = inst_deps;
      enabled = enabled_or_true uenabled;
      state = inst_state;
    })

  unfoldable pub add_insts : Obj → List S16ServiceInstance → Conv (List S16ServiceInstance)
  unfolding ucl_to_inst add_all
  add_insts instances list = add_all ucl_to_inst (items instances) list

  unfoldable pub def_inst_or_null : Option Obj → Conv (Option CStr)
  def_inst_or_null none = value none
  def_inst_or_null (some inst) = do name ← text inst; value (some name)

  unfoldable pub ucl_to_svc : Obj → Conv S16Service
  unfolding ucl_to_path def_inst_or_null add_props add_meths add_depgroups add_insts when_given
      state_or_none
  ucl_to_svc obj = do
    path_obj ← needed (lookup obj (codes "path"))
    upath ← assert_type is_string path_obj
    udef_inst ← assert_type_if is_string (lookup obj (codes "default-instance"))
    uprops ← assert_type_if is_array (lookup obj (codes "properties"))
    umeths ← assert_type_if is_array (lookup obj (codes "methods"))
    uinsts ← assert_type_if is_array (lookup obj (codes "instances"))
    udeps ← assert_type_if is_array (lookup obj (codes "dependencies"))
    ustate ← assert_type_if is_int (lookup obj (codes "state"))
    svc_path ← ucl_to_path upath
    svc_def_inst ← def_inst_or_null udef_inst
    svc_props ← when_given add_props uprops
    svc_meths ← when_given add_meths umeths
    svc_deps ← when_given add_depgroups udeps
    svc_state ← state_or_none ustate
    svc_insts ← when_given add_insts uinsts
    value (record {
      path = svc_path;
      def_inst = svc_def_inst;
      props = svc_props;
      meths = svc_meths;
      insts = svc_insts;
      depgroups = svc_deps;
      state = svc_state;
    })

  -- assert (svc)
  unfoldable pub stop_at_null {ℓ} : {A : Type ℓ} → Conv A → Conv A
  stop_at_null null = stopped
  stop_at_null c = c

  unfoldable pub ucl_to_svcs : Obj → Conv (List S16Service)
  unfolding ucl_to_svc add_all stop_at_null
  ucl_to_svcs usvcs = add_all (λ o. stop_at_null (ucl_to_svc o)) (items usvcs) []

  unfoldable pub ucl_to_note : Obj → Conv S16Note
  unfolding ucl_to_path note_type_of_code int_of_int64
  ucl_to_note unote = do
    note_type_obj ← asserted (lookup unote (codes "note-type"))
    unote_type ← assert_type is_int note_type_obj
    type_obj ← asserted (lookup unote (codes "type"))
    utype ← assert_type is_int type_obj
    path_obj ← asserted (lookup unote (codes "path"))
    upath ← assert_type is_string path_obj
    reason_obj ← asserted (lookup unote (codes "reason"))
    ureason ← assert_type is_int reason_obj
    kind ← note_type_of_code (int_of_int64 (toint unote_type))
    note_path ← ucl_to_path upath
    value (record {
      note_type = kind;
      type = int_of_int64 (toint utype);
      path = note_path;
      reason = int_of_int64 (toint ureason);
    })
