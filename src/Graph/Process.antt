-- ===== src/Graph/Process.antt =====
-- The handlers of notes and the queue: vtx_process_admin_req, vtx_process_state_change,
-- graph_process_note, processNotes and graph_setup_all of usr/src/agent/graphd/graph.c. `limit` is
-- the depth given to each recursion along the edges.
pub mod Requests
pub mod Keeps
pub mod Preserves
use e_com_init.Common.{
  ℕ, zero, suc, ◌+◌, Bool, true, false, not, ◌&&◌, ◌||◌, Option, none, some, List, [], ◌∷◌,
  if◌then◌else◌, ◌==◌, length, codes,
}
use e_com_init.Common.Res.{Res, ok, aborted, too_deep, ◌>>=◌}
use e_com_init.S16List.{list_add, list_lpop}
use e_com_init.Service.Types.{
  online, offline, disabled, restart_on_code, on_none, on_restart, S16Path,
}
use e_com_init.Service.Paths.{path_new}
use e_com_init.Repository.Notes.{
  S16Note, NoteType, n_admin_req, n_restarter_req, n_state_change, n_config, note_new, a_enable,
  a_disable, sc_online, sc_offline, sc_disabled,
}
use e_com_init.Graph.Types.{Edge, Vertex, v_inst, Graph, Engine, vertex_at, modify}
use e_com_init.Graph.Edges.{vtx_find_by_path}
use e_com_init.Graph.Satisfy.{is_inst, vtx_inst_can_come_up}
use e_com_init.Graph.Setup.{setup_each}
use e_com_init.Graph.Notify.{
  send, vtx_online, vtx_enable, vtx_disable, vtx_dependencies_do, vtx_dependents_do,
  vtx_notify_start, vtx_notify_stop, vtx_notify_misc, vtx_notify_admin_disable,
}
use e_com_init.Graph.Down.{vtx_can_go_down, vtx_offline_if_possible, vtx_offline_dependency}

unfoldable pub change : ℕ → (Vertex → Vertex) → Engine → Engine
change v f e = record e { graph = modify e.graph v f }

abbrev pub request_disable : Vertex → Vertex
request_disable x = record x { to_disable = true; to_offline = true; is_enabled = false }

abbrev pub request_enable : Vertex → Vertex
request_enable x = record x { to_disable = false; to_offline = false; is_enabled = true }

abbrev pub become_online : Vertex → Vertex
become_online x = record x { state = online }

abbrev pub become_offline : Vertex → Vertex
become_offline x = record x { state = offline; to_offline = false }

abbrev pub become_disabled : Vertex → Vertex
become_disabled x = record x { to_offline = false; to_disable = false; state = disabled }

-- list_foreach (vertex, &graph, it) over a body that adds no vertex: the positions i, …, i + n - 1.
unfoldable pub each_vertex : ℕ → ℕ → (ℕ → Engine → Res Engine) → Engine → Res Engine
each_vertex zero i body e = ok e
each_vertex (suc n) i body e = body i e >>= each_vertex n (i + 1) body

module _ (limit : ℕ) where
  unfoldable pub process_disable : ℕ → ℕ → Engine → Res Engine
  process_disable v reason e = do
    e1 ←
        vtx_dependents_do v (λ w. vtx_notify_admin_disable limit w reason)
          (change v request_disable e)
    direct ← vtx_can_go_down limit e1.graph v true
    each_vertex (length e1.graph) 0
        (λ w. vtx_offline_if_possible limit w (restart_on_code on_restart)) e1

  unfoldable pub vtx_process_admin_req : ℕ → ℕ → ℕ → Engine → Res Engine
  vtx_process_admin_req v type reason e =
      let disable = process_disable v reason e in
      if type == a_disable
      then disable
      else if type == a_enable
      then ok (vtx_enable v (change v request_enable e))
      else ok e

  unfoldable pub process_online : ℕ → ℕ → Engine → Res Engine
  process_online v reason e =
      vtx_dependents_do v (λ w. vtx_notify_start limit limit w reason) (change v become_online e)

  -- The branch for a vertex that was to go offline, and the one that may come up again.
  unfoldable pub settle_offline : ℕ → ℕ → Engine → Res Engine
  settle_offline v reason e = do
    e1 ← vtx_dependencies_do v (λ w. vtx_offline_dependency limit limit w reason) e
    ok (if (vertex_at e1.graph v).to_disable then vtx_disable v reason e1 else e1)

  unfoldable pub come_up_again : ℕ → ℕ → Engine → Res Engine
  come_up_again v reason e = do
    can ← vtx_inst_can_come_up limit e.graph v
    ok (if can then vtx_online v reason e else e)

  unfoldable pub process_offline : ℕ → ℕ → Engine → Res Engine
  process_offline v reason e =
      let e0 = change v become_offline e in
      let settled = settle_offline v reason e0 in
      let again = come_up_again v reason e0 in
      (if (vertex_at e.graph v).to_offline then settled else again)
      >>= vtx_dependents_do v (λ w. vtx_notify_stop limit w reason)

  unfoldable pub process_disabled : ℕ → ℕ → Engine → Res Engine
  process_disabled v reason e =
      vtx_dependents_do v (λ w. vtx_notify_misc limit limit w reason) (change v become_disabled e)

  unfoldable pub vtx_process_state_change : ℕ → ℕ → ℕ → Engine → Res Engine
  vtx_process_state_change v type reason e =
      let on = process_online v reason e in
      let off = process_offline v reason e in
      let dis = process_disabled v reason e in
      if type == sc_online
      then on
      else if type == sc_offline
      then off
      else if type == sc_disabled
      then dis
      else ok e

  process_kind : NoteType → ℕ → S16Note → Engine → Res Engine
  process_kind n_admin_req v note e = vtx_process_admin_req v note.type note.reason e
  process_kind n_state_change v note e = vtx_process_state_change v note.type note.reason e
  process_kind n_restarter_req v note e = ok e
  process_kind n_config v note e = ok e

  -- A note about a path that has no vertex is handled with v = NULL. A request writes through it if it
  -- is to enable or to disable; a change of state reads to_offline through it before its type is asked.
  process_unknown : NoteType → ℕ → Engine → Res Engine
  process_unknown n_admin_req type e =
      if type == a_disable || type == a_enable then aborted else ok e
  process_unknown n_state_change type e = aborted
  process_unknown n_restarter_req type e = ok e
  process_unknown n_config type e = ok e

  unfoldable pub graph_process_note : S16Note → Engine → Res Engine
  unfolding process_kind process_unknown
  graph_process_note note e = elim (vtx_find_by_path e.graph note.path) [
    | none ↦ process_unknown note.note_type note.type e
    | some v ↦ process_kind note.note_type v note e
  ]

  -- processNotes (): rounds bound the notes taken from the queue.
  unfoldable pub process_notes : ℕ → Engine → Res Engine
  process_notes zero e = too_deep
  process_notes (suc rounds) e = elim (list_lpop e.notes).0 [
    | none ↦ ok e
    | some note ↦
        graph_process_note note (record e { notes = (list_lpop e.notes).1 })
        >>= process_notes rounds
  ]

  -- The loop that sends every instance that can come up its first note.
  unfoldable pub start_inst : ℕ → Engine → Res Engine
  start_inst v e =
      let ask = do
        can ← vtx_inst_can_come_up limit e.graph v
        ok (if can then send sc_offline v 0 e else e)
      in if is_inst (vertex_at e.graph v).type then ask else ok e

  abbrev test_path : S16Path
  test_path = path_new (codes "a") (some (codes "i"))

  unfoldable pub queue : NoteType → ℕ → Engine → Engine
  queue note_type type e = record e {
    notes = list_add e.notes (note_new note_type type test_path (restart_on_code on_none));
  }

  -- graph_setup_all, with the three tests that it runs on the instance i of a service a.
  unfoldable pub graph_setup_all : ℕ → Engine → Res Engine
  graph_setup_all rounds e = do
    g ← setup_each limit e.scope rounds limit 0 e.graph
    let e1 = record e { graph = g }
    e2 ← each_vertex (length g) 0 start_inst e1
    e3 ← process_notes rounds e2
    e4 ← process_notes rounds (queue n_admin_req a_disable e3)
    e5 ← process_notes rounds (queue n_admin_req a_enable e4)
    process_notes rounds (queue n_state_change sc_offline e5)
