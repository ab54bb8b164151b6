-- ===== src/Repository/Convert/Write.antt =====
-- The functions of usr/src/lib/s16/db/convert.c that make libucl objects. An array is filled before it
-- is put into its object, where the code puts it in first and fills it through its pointer: nothing
-- reads the object in between.
use e_com_init.Common.{Option, none, some, List, [], ◌∷◌, CStr, codes, if◌then◌else◌}
use e_com_init.Service.Types.{
  S16Path, S16DependencyGroup, PropertyValue, string, number, boolean, S16Property,
  S16ServiceMethod, S16ServiceInstance, S16Service,
}
use e_com_init.Service.Text.{path_to_string, depgroup_type_to_string, restart_on_to_string}
use e_com_init.S16List.{list_empty}
use e_com_init.Ucl.{LibUcl, int64_of_int}
use e_com_init.Repository.Notes.{S16Note}
use e_com_init.Repository.Convert.{Conv, value, stopped, ◌>>=◌, state_code, note_type_code}

module _ ⦃u : LibUcl⦄ where
  open u use {
    Obj, typed_object, typed_array, fromstring, fromint, frombool, insert_key, array_append,
  }

  unfoldable pub ins_key : Obj → CStr → CStr → Obj
  ins_key obj key val = insert_key obj (fromstring val) key

  -- The array under the key, as its filler leaves it.
  unfoldable pub ins_key_arr : Obj → CStr → Conv Obj → Conv Obj
  ins_key_arr obj key filled = do arr ← filled; value (insert_key obj arr key)

  unfoldable pub path_to_ucl : S16Path → Obj
  unfolding path_to_string
  path_to_ucl path = fromstring (path_to_string path)

  -- The loops that append one object per list node.
  unfoldable pub append_each {ℓ} : {A : Type ℓ} → (A → Conv Obj) → Obj → List A → Conv Obj
  append_each to_ucl arr [] = value arr
  append_each to_ucl arr (x ∷ xs) = do obj ← to_ucl x; append_each to_ucl (array_append arr obj) xs

  unfoldable pub depgroup_to_ucl : S16DependencyGroup → Conv Obj
  unfolding ins_key ins_key_arr append_each path_to_ucl depgroup_type_to_string restart_on_to_string
  depgroup_to_ucl prop =
      let udep = ins_key typed_object (codes "grouping") (depgroup_type_to_string prop.type) in
      let udep' = ins_key udep (codes "restart-on") (restart_on_to_string prop.restart_on) in
      ins_key_arr udep' (codes "paths")
        (append_each (λ p. value (path_to_ucl p)) typed_array prop.paths)

  -- prop->value.s: the number in the union is read as the address of a string.
  unfoldable pub value_s : PropertyValue → Conv CStr
  value_s (string s) = value s
  value_s (number i) = stopped
  value_s (boolean i) = stopped

  unfoldable pub prop_to_ucl : S16Property → Conv Obj
  unfolding ins_key value_s
  prop_to_ucl prop = do
    let uprop = ins_key typed_object (codes "name") prop.name
    s ← value_s prop.value
    value (ins_key uprop (codes "value") s)

  unfoldable pub u_add_props : Obj → List S16Property → Conv Obj
  unfolding ins_key_arr append_each prop_to_ucl
  u_add_props obj props =
      ins_key_arr obj (codes "properties") (append_each prop_to_ucl typed_array props)

  unfoldable pub meth_to_ucl : S16ServiceMethod → Conv Obj
  unfolding ins_key u_add_props list_empty
  meth_to_ucl meth =
      let umeth = ins_key typed_object (codes "name") meth.name in
      if list_empty meth.props then value umeth else u_add_props umeth meth.props

  unfoldable pub u_add_depgroups : Obj → List S16DependencyGroup → Conv Obj
  unfolding ins_key_arr append_each depgroup_to_ucl
  u_add_depgroups obj depgroups =
      ins_key_arr obj (codes "dependencies") (append_each depgroup_to_ucl typed_array depgroups)

  unfoldable pub u_add_meths : Obj → List S16ServiceMethod → Conv Obj
  unfolding ins_key_arr append_each meth_to_ucl
  u_add_meths obj meths =
      ins_key_arr obj (codes "methods") (append_each meth_to_ucl typed_array meths)

  -- if (!prop_list_empty (...)) u_add_props (...), and its like for the other lists.
  unfoldable pub add_unless_empty {ℓ} :
      {A : Type ℓ} → (Obj → List A → Conv Obj) → Obj → List A → Conv Obj
  unfolding list_empty
  add_unless_empty add obj xs = if list_empty xs then value obj else add obj xs

  unfoldable pub inst_to_ucl : S16ServiceInstance → Conv Obj
  unfolding ins_key path_to_string add_unless_empty u_add_props u_add_meths u_add_depgroups
      state_code int64_of_int
  inst_to_ucl inst = do
    let uinst = ins_key typed_object (codes "path") (path_to_string inst.path)
    with_props ← add_unless_empty u_add_props uinst inst.props
    with_meths ← add_unless_empty u_add_meths with_props inst.meths
    with_deps ← add_unless_empty u_add_depgroups with_meths inst.depgroups
    let with_enabled = insert_key with_deps (frombool inst.enabled) (codes "enabled")
    value (insert_key with_enabled (fromint (int64_of_int (state_code inst.state))) (codes "state"))

  unfoldable pub u_add_insts : Obj → List S16ServiceInstance → Conv Obj
  unfolding ins_key_arr append_each inst_to_ucl
  u_add_insts obj insts =
      ins_key_arr obj (codes "instances") (append_each inst_to_ucl typed_array insts)

  unfoldable pub add_def_inst : Obj → Option CStr → Obj
  unfolding ins_key
  add_def_inst obj none = obj
  add_def_inst obj (some inst) = ins_key obj (codes "default-instance") inst

  unfoldable pub service_to_ucl : S16Service → Conv Obj
  unfolding ins_key path_to_string add_unless_empty add_def_inst u_add_props u_add_meths u_add_insts
      u_add_depgroups state_code int64_of_int
  service_to_ucl svc = do
    let usvc =
        add_def_inst (ins_key typed_object (codes "path") (path_to_string svc.path)) svc.def_inst
    with_props ← add_unless_empty u_add_props usvc svc.props
    with_meths ← add_unless_empty u_add_meths with_props svc.meths
    with_insts ← add_unless_empty u_add_insts with_meths svc.insts
    with_deps ← add_unless_empty u_add_depgroups with_insts svc.depgroups
    value (insert_key with_deps (fromint (int64_of_int (state_code svc.state))) (codes "state"))

  unfoldable pub note_to_ucl : S16Note → Obj
  unfolding ins_key path_to_string note_type_code int64_of_int
  note_to_ucl note =
      let typed =
        insert_key typed_object (fromint (int64_of_int (note_type_code note.note_type)))
          (codes "note-type") in
      let kinded = insert_key typed (fromint (int64_of_int note.type)) (codes "type") in
      let placed = ins_key kinded (codes "path") (path_to_string note.path) in
      insert_key placed (fromint (int64_of_int note.reason)) (codes "reason")
