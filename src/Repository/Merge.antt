-- ===== src/Repository/Merge.antt =====
-- The merge of usr/src/agent/configd/db.c. A merge function returns 0 and changes the list that it
-- is given. What list_add shares with the other layer is shared here as a value.
pub mod Laws
use e_com_init.Common.{ℕ, Bool, Option, none, some, List, [], ◌∷◌, set, length, get_or}
use e_com_init.S16List.{list_add, list_find, list_walk, list_map}
use e_com_init.Service.Types.{
  S16DependencyGroup, S16Property, S16ServiceMethod, S16ServiceInstance, S16Service,
}
use e_com_init.Service.Copy.{
  depgroup_names_equal, depgroup_copy, property_names_equal, property_copy, method_names_equal,
  method_copy, instance_names_equal, service_names_equal, service_copy,
}
use e_com_init.Repository.Lookup.{service_at}

-- The shape of the three functions below: replace the first entry of that name by a copy, or add.
module _ {ℓ} {A : Type ℓ} (names_equal : A → A → Bool) (copy : A → A) where
  unfoldable pub merge_entry : A → List A → ℕ × List A
  merge_entry x list = elim (list_find list (λ y. names_equal y x)) [
    | none ↦ (0, list_add list x)
    | some i ↦ (0, set list i (copy x))
  ]

unfoldable pub merge_depgroup_into_list :
    S16DependencyGroup → List S16DependencyGroup → ℕ × List S16DependencyGroup
merge_depgroup_into_list depgroup list =
    merge_entry depgroup_names_equal depgroup_copy depgroup list

unfoldable pub merge_prop_into_list : S16Property → List S16Property → ℕ × List S16Property
merge_prop_into_list prop list = merge_entry property_names_equal property_copy prop list

unfoldable pub merge_meth_into_list :
    S16ServiceMethod → List S16ServiceMethod → ℕ × List S16ServiceMethod
merge_meth_into_list meth list = merge_entry method_names_equal method_copy meth list

unfoldable pub merge_inst_into_inst : S16ServiceInstance → S16ServiceInstance → S16ServiceInstance
merge_inst_into_inst to from = record to {
  props = (list_walk merge_prop_into_list from.props to.props).1;
  meths = (list_walk merge_meth_into_list from.meths to.meths).1;
  depgroups = (list_walk merge_depgroup_into_list from.depgroups to.depgroups).1;
}

instance_at : S16ServiceInstance → List S16ServiceInstance → ℕ → S16ServiceInstance
instance_at d list i = get_or list i d

-- The instance given is changed too: the first argument of merge_inst_into_inst is its target.
unfoldable pub merge_inst_into_list :
    S16ServiceInstance → List S16ServiceInstance → S16ServiceInstance × List S16ServiceInstance
unfolding instance_at
merge_inst_into_list inst list = elim (list_find list (λ y. instance_names_equal y inst)) [
  | none ↦ (inst, list_add list inst)
  | some i ↦ (merge_inst_into_inst inst (instance_at inst list i), list)
]

unfoldable pub merge_svc_into_svc : S16Service → S16Service → S16Service
merge_svc_into_svc to from = record to {
  def_inst = elim from.def_inst [ none ↦ to.def_inst | some d ↦ some d ];
  props = (list_walk merge_prop_into_list from.props to.props).1;
  meths = (list_walk merge_meth_into_list from.meths to.meths).1;
  depgroups = (list_walk merge_depgroup_into_list from.depgroups to.depgroups).1;
}

module _ (junk : S16ServiceInstance → Bool) where
  unfoldable pub merge_svc_into_list : S16Service → List S16Service → ℕ × List S16Service
  merge_svc_into_list svc svcs = elim (list_find svcs (λ y. service_names_equal y svc)) [
    | none ↦ (0, list_add svcs (service_copy junk svc))
    | some i ↦ (0, set svcs i (merge_svc_into_svc (service_at svcs i) svc))
  ]

  -- update_merged: the new list of the merged scope.
  unfoldable pub update_merged : List S16Service → List S16Service → List S16Service
  update_merged manifest admin =
      (list_walk merge_svc_into_list admin (list_map manifest (service_copy junk))).1
