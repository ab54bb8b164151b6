-- ===== src/Tests/Notes.antt =====
-- Examples of notes: a group, an instance that depends on it, and the notes of a change of state.
use e_com_init.Common.{ℕ, str_eq, true, false, none, List, [], ◌∷◌, ◌≡◌, refl, codes}
use e_com_init.Graph.Types.{vertex_at, modify, Edge, Vertex, Engine, VertexType, v_inst, v_depgroup}
use e_com_init.Graph.Process.{
  vtx_process_admin_req, come_up_again, each_vertex, process_disable, process_disabled,
  process_offline, process_online, settle_offline, vtx_process_state_change, change,
  graph_process_note, process_notes,
}
use e_com_init.Graph.Satisfy.{
  vtx_inst_can_come_up, any_edge, grouped_edges, vtx_inst_satisfies, vtx_inst_satisfies_exclusion,
  vtx_inst_satisfies_optional, all_edges, depgroup_is_satisfied, group_step, vtx_satisfies, worsen,
}
use e_com_init.Repository.Notes.{
  a_disable, note_new, S16Note, n_state_change, n_admin_req, sc_online, sc_offline, a_enable,
}
use e_com_init.Service.Paths.{path_new, path_equal, path_copy}
use e_com_init.Graph.Notify.{
  notify_misc_inst, vtx_dependencies_do, vtx_disable, vtx_notify_admin_disable, vtx_notify_misc,
  vtx_offline, vtx_online, vtx_enable, each_edge, notify_start_inst, send, vtx_dependents_do,
  vtx_is_running, vtx_notify_start, vtx_notify_stop,
}
use e_com_init.Graph.Down.{
  dependents_can_go_down, goes_down_itself, offline_if_can, vtx_can_go_down, vtx_offline_dependency,
  vtx_offline_if_possible,
}
use e_com_init.S16List.{find_from, list_empty, list_lpop, list_find, list_add}
use e_com_init.Graph.Edges.{match_vertex_by_path, vtx_find_by_path}
use e_com_init.Common.Res.{ok}
use e_com_init.Service.Types.{S16Path, require_all, on_none, online, offline, S16ServiceState}
use e_com_init.Graph.Notify.Start.{
  Queues, CanStart, Runs, state_note, vtx_notify_start_lem, vtx_notify_stop_lem,
}
use e_com_init.Graph.Process.Preserves.{process_notes-IsWellFormed}
use e_com_init.Graph.Shape.{SameShape}
use e_com_init.Graph.Edges.WellFormed.{IsWellFormed}
use e_com_init.Tests.Graphs.{disk, inst_vertex, joined, joined-IsWellFormed, net}

abbrev named : List ℕ → S16Path
named svc = record { full_qual = true; svc = svc; inst = none }

abbrev vertex : List ℕ → VertexType → S16ServiceState → List Edge → List Edge → Vertex
vertex name type state dependencies dependents = record {
  path = named name;
  type = type;
  dg_type = require_all;
  restart_on = on_none;
  dependencies = dependencies;
  dependents = dependents;
  state = state;
  is_setup = true;
  is_enabled = true;
  to_offline = false;
  to_disable = false;
}

-- The group 0 has no dependencies of its own; the instance 1 depends on it.
abbrev pub engine : S16ServiceState → List S16Note → Engine
engine state notes = record {
  graph =
      vertex (codes "group") v_depgroup offline [] (record { from = 0; to = 1 } ∷ [])
      ∷ vertex (codes "web") v_inst state (record { from = 1; to = 0 } ∷ []) []
      ∷ [];
  notes = notes;
  scope = [];
}

abbrev note : ℕ → S16Note
note type = record {
  note_type = n_state_change;
  type = type;
  path = named (codes "web");
  reason = 0;
}

goes_up : vtx_notify_start 3 3 0 0 (engine offline []) ≡ ok (engine offline (note sc_online ∷ []))
unfolding vtx_notify_start vertex_at vtx_dependents_do each_edge notify_start_inst
    vtx_inst_can_come_up depgroup_is_satisfied group_step all_edges vtx_satisfies worsen
    vtx_is_running send list_add note_new path_copy
goes_up = refl

vtx_notify_start_lem_example :
    Queues
      (CanStart 3)
      (state_note sc_online 0)
      (engine offline [])
      (engine offline (note sc_online ∷ []))
vtx_notify_start_lem_example =
    vtx_notify_start_lem 3 3 0 0 (engine offline []) (engine offline (note sc_online ∷ [])) goes_up

goes_down : vtx_notify_stop 3 1 0 (engine online []) ≡ ok (engine online (note sc_offline ∷ []))
unfolding vtx_notify_stop vertex_at vtx_is_running send list_add note_new path_copy
goes_down = refl

vtx_notify_stop_lem_example :
    Queues Runs (state_note sc_offline 0) (engine online []) (engine online (note sc_offline ∷ []))
vtx_notify_stop_lem_example =
    vtx_notify_stop_lem 3 1 0 (engine online []) (engine online (note sc_offline ∷ [])) goes_down

abbrev enable : S16Note
enable = record { note_type = n_admin_req; type = a_enable; path = net; reason = 0 }

abbrev waiting : List S16Note → Engine
waiting notes = record { graph = joined; notes = notes; scope = [] }

-- net as it is when it was enabled.
abbrev enabled : S16ServiceState → List S16Note → Engine
enabled state notes = record {
  graph =
      inst_vertex disk [] (record { from = 0; to = 1 } ∷ [])
      ∷ record (inst_vertex net (record { from = 1; to = 0 } ∷ []) []) {
        state = state;
        is_enabled = true;
      }
      ∷ [];
  notes = notes;
  scope = [];
}

abbrev offline_note : S16Note
offline_note = record { note_type = n_state_change; type = sc_offline; path = net; reason = 2 }

emptied : process_notes 5 9 (waiting (enable ∷ [])) ≡ ok (enabled offline [])
unfolding process_notes list_lpop graph_process_note vtx_find_by_path list_find match_vertex_by_path
    path_equal str_eq vtx_process_admin_req vtx_enable send list_add change modify note_new
    path_copy vertex_at vtx_process_state_change dependents_can_go_down goes_down_itself
    offline_if_can vtx_can_go_down vtx_offline_dependency vtx_offline_if_possible each_edge
    notify_misc_inst notify_start_inst vtx_dependencies_do vtx_dependents_do vtx_disable
    vtx_is_running vtx_notify_admin_disable vtx_notify_misc vtx_notify_start vtx_notify_stop
    vtx_offline vtx_online come_up_again each_vertex process_disable process_disabled
    process_offline process_online settle_offline all_edges any_edge depgroup_is_satisfied
    group_step grouped_edges vtx_inst_can_come_up vtx_inst_satisfies vtx_inst_satisfies_exclusion
    vtx_inst_satisfies_optional vtx_satisfies worsen find_from list_empty path_new
emptied = refl

process_notes-IsWellFormed_example :
    IsWellFormed (enabled offline []).graph
    × SameShape joined (enabled offline []).graph
    × ((enabled offline []).notes ≡ [])
process_notes-IsWellFormed_example =
    process_notes-IsWellFormed 5 9 (waiting (enable ∷ [])) (enabled offline []) joined-IsWellFormed
      emptied

-- The engine after net was disabled, which was up.
abbrev running : Engine
running = enabled online []

abbrev disabling : Engine
disabling = record {
  graph =
      inst_vertex disk [] (record { from = 0; to = 1 } ∷ [])
      ∷ record (inst_vertex net (record { from = 1; to = 0 } ∷ []) []) {
        state = online;
        to_offline = true;
        to_disable = true;
      }
      ∷ [];
  notes = record { note_type = n_state_change; type = sc_offline; path = net; reason = 2 } ∷ [];
  scope = [];
}

disables : vtx_process_admin_req 5 1 a_disable 0 running ≡ ok disabling
unfolding vtx_process_admin_req process_disable vtx_dependents_do each_edge vertex_at change modify
    vtx_can_go_down dependents_can_go_down each_vertex vtx_offline_if_possible offline_if_can
    goes_down_itself vtx_is_running vtx_offline send list_add note_new vtx_enable
    vtx_notify_admin_disable path_copy path_new
disables = refl
