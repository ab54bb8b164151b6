-- ===== src/Tests/Setups.antt =====
-- Examples of installing and setting up: an instance in a graph, a service with one, and the paths of
-- dependency groups.
use e_com_init.Service.Paths.{path_copy, path_new, path_equal}
use e_com_init.Service.Copy.{service_alloc}
use e_com_init.Graph.Edges.{
  add_dependency, add_dependent, edge_new, match_vertex_by_path, new_vertex, vtx_edge_add,
  vtx_find_by_path, vtx_find_or_add,
}
use e_com_init.S16List.{
  find_from, list_add, list_empty, list_find, list_find_eq, list_lpush, list_size,
}
use e_com_init.Graph.Reach.{
  has_seen, push_if_found, search_deeper, search_each, search_vertex, vtx_dependency_add,
  vtx_is_reachable, vtx_is_reachable_internal,
}
use e_com_init.Common.Decimal.{decimal, decimal_from}
use e_com_init.Common.{
  str_eq, ℕ, ◌&&◌, true, false, none, some, List, [], ◌∷◌, ◌≡◌, refl, inl, codes, arith,
}
use e_com_init.Repository.Lookup.{last_instance, last_service, lookup_path_in_scope, service_at}
use e_com_init.Graph.Types.{modify, Edge, Vertex, Graph, vertex_at, v_depgroup}
use e_com_init.Graph.Setup.{
  extended_name, setup_dep, setup_depgroup, setup_deps, update_groups, vtx_update, vtx_setup,
  graph_install_service, depgroup_name, make_depgroup_path,
}
use e_com_init.Graph.Down.{dependents_can_go_down, goes_down_itself, vtx_can_go_down}
use e_com_init.Common.Res.{ok}
use e_com_init.Service.Types.{
  S16Path, S16ServiceInstance, S16Service, S16DependencyGroup, require_all, on_none, offline,
  no_state,
}
use e_com_init.Graph.Satisfy.{is_inst}
use e_com_init.Graph.Notify.{vtx_is_running}
use e_com_init.Graph.Down.Sound.{IsAsked, vtx_can_go_down_sound}
use e_com_init.Graph.Setup.Grows.{Grows}
use e_com_init.Graph.Setup.WellFormed.{vtx_setup-Grows}
use e_com_init.Graph.Setup.Install.{IsInstalled, graph_install_service_lem}
use e_com_init.Tests.Graphs.{
  disk, net, two, joined, inst_vertex, joined-IsWellFormed, two-IsWellFormed,
}

-- net needs disk, through a group.
abbrev needs_disk : S16DependencyGroup
needs_disk = record { name = none; type = require_all; restart_on = on_none; paths = disk ∷ [] }

abbrev net_inst : S16ServiceInstance
net_inst = record {
  path = net;
  props = [];
  meths = [];
  depgroups = needs_disk ∷ [];
  enabled = true;
  state = offline;
}

abbrev disk_inst : S16ServiceInstance
disk_inst = record net_inst { path = disk; depgroups = [] }

abbrev service : List S16ServiceInstance → S16Service
service insts = record {
  path = record { full_qual = true; svc = codes "net"; inst = none };
  def_inst = none;
  props = [];
  meths = [];
  insts = insts;
  depgroups = needs_disk ∷ [];
  state = no_state;
}

abbrev disk_service : S16Service
disk_service = record (service (disk_inst ∷ [])) {
  path = record { full_qual = true; svc = codes "fs"; inst = none };
}

abbrev scope : List S16Service
scope = service (net_inst ∷ []) ∷ disk_service ∷ []

abbrev third : ℕ
third = 3

graph_install_service_lem_example :
    IsInstalled joined
      (service (net_inst ∷ []))
      (graph_install_service joined (service (net_inst ∷ [])))
graph_install_service_lem_example =
    graph_install_service_lem joined (service (net_inst ∷ [])) joined-IsWellFormed

abbrev enabled : S16Path → List Edge → List Edge → Vertex
enabled path dependencies dependents = record (inst_vertex path dependencies dependents) {
  is_setup = true;
  is_enabled = true;
}

abbrev done : Graph
done =
    enabled disk [] (record { from = 0; to = 2 } ∷ [])
    ∷ enabled net (record { from = 1; to = 2 } ∷ []) []
    ∷ record (inst_vertex
        (record { full_qual = true; svc = codes "net"; inst = some (codes "lo#depgroups/0") })
        (record { from = 2; to = 0 } ∷ []) (record { from = 2; to = 1 } ∷ [])) { type = v_depgroup }
    ∷ []

set_up : vtx_setup 9 scope 5 two 1 ≡ ok done
unfolding vtx_setup vertex_at vtx_update modify lookup_path_in_scope str_eq update_groups
    setup_depgroup vtx_dependency_add vtx_is_reachable vtx_is_reachable_internal search_vertex
    has_seen list_find_eq vtx_find_or_add vtx_find_by_path match_vertex_by_path path_equal
    add_dependency add_dependent edge_new new_vertex vtx_edge_add push_if_found search_deeper
    search_each decimal decimal_from depgroup_name extended_name make_depgroup_path setup_dep
    setup_deps last_instance last_service service_at find_from list_add list_empty list_find
    list_lpush list_size service_alloc path_copy path_new
set_up = refl

vtx_setup-Grows_example : Grows two done
vtx_setup-Grows_example = vtx_setup-Grows 9 scope 5 two done 1 (omega arith) two-IsWellFormed set_up

-- net is to go offline, and does not run any more.
abbrev leaving : Graph
leaving =
    inst_vertex disk [] (record { from = 0; to = 1 } ∷ [])
    ∷ record (inst_vertex net (record { from = 1; to = 0 } ∷ []) []) { to_offline = true }
    ∷ []

can : vtx_can_go_down 3 leaving 0 true ≡ ok true
unfolding vtx_can_go_down dependents_can_go_down vertex_at goes_down_itself vtx_is_running
can = refl

asked : IsAsked leaving 0 (1 ∷ [])
unfolding vertex_at
asked = (inl refl, refl, tt)

vtx_can_go_down_sound_example :
    (is_inst (vertex_at leaving 1).type && vtx_is_running (vertex_at leaving 1)) ≡ false
vtx_can_go_down_sound_example = vtx_can_go_down_sound 3 leaving 0 1 [] can asked
