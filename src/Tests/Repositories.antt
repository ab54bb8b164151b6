-- ===== src/Tests/Repositories.antt =====
-- Examples of lookups, merges and requests on a repository with one service.
use e_com_init.Service.Copy.{property_copy, property_names_equal, instance_names_equal}
use e_com_init.Repository.Merge.{merge_entry, merge_prop_into_list, merge_svc_into_svc}
use e_com_init.S16List.{list_walk, list_find, find_from}
use e_com_init.Common.{
  true, false, none, some, List, [], ◌∷◌, ◌++◌, ◌≡◌, refl, map, codes, All, str_eq,
}
use e_com_init.Common.Res.{ok}
use e_com_init.Service.Types.{
  S16Path, S16ServiceInstance, S16Service, S16Property, string, number, no_state, offline,
}
use e_com_init.Repository.Lookup.{svc_result, lookup_path_in_scope, service_at}
use e_com_init.Repository.Lookup.Laws.{Found, lookup_path_sound}
use e_com_init.Repository.Merge.Laws.{first_named, or_below, last_named, merge_svc_into_svc_lem}
use e_com_init.Repository.Db.{Db, db_lookup_path_merged, db_set_enabled}
use e_com_init.Repository.Db.Laws.{inst_note, db_set_enabled-service}

abbrev disk : S16Path
disk = record { full_qual = true; svc = codes "fs"; inst = none }

abbrev root : S16Path
root = record { full_qual = true; svc = codes "fs"; inst = some (codes "root") }

abbrev net : S16Path
net = record { full_qual = true; svc = codes "net"; inst = none }

abbrev size : S16Property
size = record { name = codes "size"; value = number 4 }

abbrev label : S16Property
label = record { name = codes "label"; value = string (codes "usr") }

abbrev root_inst : S16ServiceInstance
root_inst = record {
  path = root;
  props = size ∷ [];
  meths = [];
  depgroups = [];
  enabled = true;
  state = offline;
}

abbrev disk_service : S16Service
disk_service = record {
  path = disk;
  def_inst = some (codes "root");
  props = size ∷ label ∷ [];
  meths = [];
  insts = root_inst ∷ [];
  depgroups = [];
  state = no_state;
}

abbrev scope : List S16Service
scope = disk_service ∷ []

abbrev db : Db
db = record { manifest = scope; admin = []; merged = scope; notes = [] }

lookup_path_sound_example : Found scope root (lookup_path_in_scope scope root)
lookup_path_sound_example = lookup_path_sound scope root

abbrev larger : S16Property
larger = record { name = codes "size"; value = number 9 }

-- The customised service on top.
abbrev custom_service : S16Service
custom_service = record disk_service { def_inst = some (codes "home"); props = larger ∷ [] }

merge_svc_into_svc_lem_example :
    (first_named (λ p. p.name) (codes "size") (merge_svc_into_svc disk_service custom_service).props
      ≡ or_below
          (last_named (λ p. p.name) (codes "size") custom_service.props)
          (first_named (λ p. p.name) (codes "size") disk_service.props))
    × (first_named
          (λ m. m.name)
          (codes "size")
          (merge_svc_into_svc disk_service custom_service).meths
        ≡ or_below
            (last_named (λ m. m.name) (codes "size") custom_service.meths)
            (first_named (λ m. m.name) (codes "size") disk_service.meths))
    × ((merge_svc_into_svc disk_service custom_service).def_inst ≡ some (codes "home"))
    × ((merge_svc_into_svc disk_service custom_service).insts ≡ disk_service.insts)
merge_svc_into_svc_lem_example = merge_svc_into_svc_lem disk_service custom_service (codes "size")

merged_size :
    first_named (λ p. p.name) (codes "size") (merge_svc_into_svc disk_service custom_service).props
    ≡ some larger
unfolding first_named merge_svc_into_svc str_eq list_walk merge_prop_into_list merge_entry list_find
    property_names_equal property_copy
merged_size = refl

named : list_find (root_inst ∷ []) (λ y. instance_names_equal y root_inst) ≡ some 0
unfolding list_find find_from instance_names_equal str_eq
named = refl

found : db_lookup_path_merged db disk ≡ svc_result (some 0)
unfolding db_lookup_path_merged lookup_path_in_scope str_eq
found = refl

db_set_enabled-service_example :
    (db' : Db) × (db_set_enabled disk true db ≡ ok (0, db'))
    × All (λ it. it.enabled ≡ false) (service_at db'.manifest 0).insts
    × (db'.notes ≡ [] ++ map (inst_note true) (service_at scope 0).insts)
    × (db'.merged ≡ scope)
db_set_enabled-service_example = db_set_enabled-service disk true db 0 found
