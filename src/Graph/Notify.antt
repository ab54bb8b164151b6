-- ===== src/Graph/Notify.antt =====
-- The notes that graphd sends itself, and how a change of state is passed on to the dependents of a
-- vertex: usr/src/agent/graphd/graph.c. `limit` is the depth given to each test of satisfiability;
-- each recursion along the edges is on a depth of its own.
pub mod Keeps
pub mod Start
pub mod Ends
use e_com_init.Common.{
  ℕ, zero, suc, Bool, true, false, not, ◌&&◌, ◌||◌, List, [], ◌∷◌, if◌then◌else◌, ltb,
}
use e_com_init.Common.Res.{Res, ok, aborted, too_deep, ◌>>=◌}
use e_com_init.S16List.{list_add}
use e_com_init.Service.Types.{
  S16ServiceState, online, degraded, exclude_all, RestartOn, on_none, on_error, on_restart,
  restart_on_code,
}
use e_com_init.Repository.Notes.{
  S16Note, note_new, n_state_change, sc_online, sc_offline, sc_disabled,
}
use e_com_init.Graph.Types.{
  Edge, Vertex, VertexType, v_inst, v_svc, v_depgroup, Engine, vertex_at, modify,
}
use e_com_init.Graph.Reach.{is_exclude_all}
use e_com_init.Graph.Satisfy.{vtx_inst_can_come_up}

unfoldable pub send : ℕ → ℕ → ℕ → Engine → Engine
send type v reason e = record e {
  notes = list_add e.notes (note_new n_state_change type (vertex_at e.graph v).path reason);
}

unfoldable pub vtx_online : ℕ → ℕ → Engine → Engine
vtx_online v reason e = send sc_online v reason e

unfoldable pub vtx_offline : ℕ → ℕ → Engine → Engine
vtx_offline v reason e = send sc_offline v reason e

unfoldable pub vtx_enable : ℕ → Engine → Engine
vtx_enable v e = send sc_offline v (restart_on_code on_restart) e

unfoldable pub vtx_disable : ℕ → ℕ → Engine → Engine
vtx_disable v reason e = send sc_disabled v reason e

-- vtx_dependencies_do and vtx_dependents_do: the function at the target of each edge, in order.
unfoldable pub each_edge : (ℕ → Engine → Res Engine) → List Edge → Engine → Res Engine
each_edge fun [] e = ok e
each_edge fun (it ∷ es) e = fun it.to e >>= each_edge fun es

unfoldable pub vtx_dependencies_do : ℕ → (ℕ → Engine → Res Engine) → Engine → Res Engine
vtx_dependencies_do v fun e = each_edge fun (vertex_at e.graph v).dependencies e

unfoldable pub vtx_dependents_do : ℕ → (ℕ → Engine → Res Engine) → Engine → Res Engine
vtx_dependents_do v fun e = each_edge fun (vertex_at e.graph v).dependents e

abbrev pub is_running_state : S16ServiceState → Bool
is_running_state online = true
is_running_state degraded = true
is_running_state _ = false

unfoldable pub vtx_is_running : Vertex → Bool
vtx_is_running x = is_running_state x.state

abbrev pub is_none_or_error : RestartOn → Bool
is_none_or_error on_none = true
is_none_or_error on_error = true
is_none_or_error _ = false

module _ (limit : ℕ) where
  -- The case of an instance: the messages for one that runs already are left out.
  unfoldable pub notify_start_inst : ℕ → Engine → Res Engine
  notify_start_inst v e = do
    can ← vtx_inst_can_come_up limit e.graph v
    ok (if can && not (vtx_is_running (vertex_at e.graph v)) then send sc_online v 0 e else e)

  unfoldable pub vtx_notify_start : ℕ → ℕ → ℕ → Engine → Res Engine
  vtx_notify_start zero v reason e = too_deep
  vtx_notify_start (suc depth) v reason e =
      let x = vertex_at e.graph v in
      let up =
        vtx_dependents_do v (λ w. vtx_notify_start depth w (restart_on_code x.restart_on)) e in
      elim x.type [ v_inst ↦ notify_start_inst v e | v_svc ↦ up | v_depgroup ↦ up ]

  unfoldable pub notify_misc_inst : ℕ → ℕ → Engine → Res Engine
  notify_misc_inst v reason e = do
    can ← vtx_inst_can_come_up limit e.graph v
    ok (if can && not (vtx_is_running (vertex_at e.graph v)) then vtx_online v reason e else e)

  unfoldable pub vtx_notify_misc : ℕ → ℕ → ℕ → Engine → Res Engine
  vtx_notify_misc zero v reason e = too_deep
  vtx_notify_misc (suc depth) v reason e =
      let up = vtx_dependents_do v (λ w. vtx_notify_misc depth w reason) in
      let inst = notify_misc_inst v reason e >>= up in
      elim (vertex_at e.graph v).type [ v_inst ↦ inst | v_svc ↦ up e | v_depgroup ↦ up e ]

unfoldable pub vtx_notify_stop : ℕ → ℕ → ℕ → Engine → Res Engine
vtx_notify_stop zero v reason e = too_deep
vtx_notify_stop (suc depth) v reason e =
    let x = vertex_at e.graph v in
    let up = vtx_dependents_do v (λ w. vtx_notify_stop depth w reason) e in
    elim x.type [
      | v_inst ↦ ok (if not (vtx_is_running x) then e else send sc_offline v reason e)
      | v_depgroup ↦
          if is_exclude_all x.dg_type || ltb (restart_on_code x.restart_on) reason then ok e else up
      | v_svc ↦ up
    ]

abbrev pub mark_offline : Vertex → Vertex
mark_offline x = record x { to_offline = true }

unfoldable pub vtx_notify_admin_disable : ℕ → ℕ → ℕ → Engine → Res Engine
vtx_notify_admin_disable zero v reason e = too_deep
vtx_notify_admin_disable (suc depth) v reason e =
    let x = vertex_at e.graph v in
    let up = vtx_dependents_do v (λ w. vtx_notify_admin_disable depth w reason) in
    elim x.type [
      | v_inst ↦ up (record e { graph = modify e.graph v mark_offline })
      | v_depgroup ↦
          if is_exclude_all x.dg_type || is_none_or_error x.restart_on then ok e else up e
      | v_svc ↦ up e
    ]
