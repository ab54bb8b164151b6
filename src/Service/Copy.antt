-- ===== src/Service/Copy.antt =====
-- The deep copies and the name tests of usr/src/lib/s16/s16.c. `junk` is what malloc leaves in a
-- field that the code does not write: S16InstanceCopy copies no `enabled`.
pub mod Laws
use e_com_init.Common.{
  ℕ, zero, suc, ◌≡◌, refl, ap, ◌∙◌, Bool, true, false, ◌&&◌, Option, none, some, List, [], ◌∷◌, map,
  CStr, str_eq, str_eq_iff, if◌then◌else◌, All, arith, ◌↔◌,
}
use e_com_init.Service.Types.{
  S16Path, S16DependencyGroup, PropertyValue, string, number, boolean, S16Property,
  S16ServiceMethod, S16ServiceInstance, S16Service, no_state,
}
use e_com_init.Service.Paths.{path_copy}
use e_com_init.S16List.{list_map}

unfoldable pub depgroup_copy : S16DependencyGroup → S16DependencyGroup
unfolding path_copy
depgroup_copy g = record {
  name = g.name;
  type = g.type;
  restart_on = g.restart_on;
  paths = list_map g.paths path_copy;
}

names_equal : Option CStr → Option CStr → Bool
names_equal none b = false
names_equal (some a) none = false
names_equal (some a) (some b) = str_eq a b

unfoldable pub depgroup_names_equal : S16DependencyGroup → S16DependencyGroup → Bool
unfolding names_equal
depgroup_names_equal a b = names_equal a.name b.name

copy_value : PropertyValue → PropertyValue
copy_value (string s) = string s
copy_value (number i) = number i
copy_value (boolean i) = boolean i

unfoldable pub property_copy : S16Property → S16Property
unfolding copy_value
property_copy p = record { name = p.name; value = copy_value p.value }

unfoldable pub property_names_equal : S16Property → S16Property → Bool
property_names_equal a b = str_eq a.name b.name

unfoldable pub method_copy : S16ServiceMethod → S16ServiceMethod
unfolding property_copy
method_copy m = record { name = m.name; props = list_map m.props property_copy }

unfoldable pub method_names_equal : S16ServiceMethod → S16ServiceMethod → Bool
method_names_equal a b = str_eq a.name b.name

-- strcmp of two instance names; the paths of instances have one.
unfoldable pub instance_names_equal : S16ServiceInstance → S16ServiceInstance → Bool
unfolding names_equal
instance_names_equal a b = names_equal a.path.inst b.path.inst

unfoldable pub service_names_equal : S16Service → S16Service → Bool
service_names_equal a b = str_eq a.path.svc b.path.svc

-- S16ServiceAlloc: what calloc leaves, with no path yet.
unfoldable pub service_alloc : S16Path → S16Service
service_alloc path = record {
  path = path;
  def_inst = none;
  props = [];
  meths = [];
  insts = [];
  depgroups = [];
  state = no_state;
}

module _ (junk : S16ServiceInstance → Bool) where
  unfoldable pub instance_copy : S16ServiceInstance → S16ServiceInstance
  unfolding path_copy method_copy depgroup_copy
  instance_copy i = record {
    path = path_copy i.path;
    props = list_map i.props property_copy;
    meths = list_map i.meths method_copy;
    depgroups = list_map i.depgroups depgroup_copy;
    enabled = junk i;
    state = i.state;
  }

  unfoldable pub service_copy : S16Service → S16Service
  unfolding instance_copy
  service_copy s = record {
    path = path_copy s.path;
    def_inst = s.def_inst;
    props = list_map s.props property_copy;
    meths = list_map s.meths method_copy;
    insts = list_map s.insts instance_copy;
    depgroups = list_map s.depgroups depgroup_copy;
    state = s.state;
  }
