-- ===== src/Graph/Process/Requests.antt =====
-- What a request to disable leaves of the vertex that it is for.
use e_com_init.Common.{
  ℕ, zero, suc, ◌+◌, ◌<◌, ◌≡◌, ◌⊎◌, refl, subst, ap, ◌∙◌, inl, inr, ◌||◌, not, true, false, List,
  [], ◌∷◌, if◌then◌else◌, ◌==◌, ==_iff, ==_refl, length, arith, Bool-cases,
}
use e_com_init.Common.Res.{Res, ok, >>=-eq-ok}
use e_com_init.Service.Types.{restart_on_code, on_restart}
use e_com_init.Repository.Notes.{a_disable}
use e_com_init.Graph.Types.{
  Edge, VertexType, v_inst, v_svc, v_depgroup, Engine, vertex_at, modify, vertex_at-modify,
  length-modify,
}
use e_com_init.Graph.Reach.{is_exclude_all}
use e_com_init.Graph.Satisfy.{is_inst, vtx_inst_can_come_up}
use e_com_init.Graph.Shape.{modify-beyond}
use native.Mathlib.Decide.{dec_lt}
use e_com_init.Graph.Notify.{
  send, vtx_offline, each_edge, vtx_dependents_do, is_none_or_error, mark_offline,
  vtx_notify_admin_disable,
}
use e_com_init.Graph.Down.{vtx_can_go_down, offline_if_can, vtx_offline_if_possible}
use e_com_init.Graph.Process.{
  change, request_disable, each_vertex, process_disable, vtx_process_admin_req,
}

-- The vertex is to be disabled.
pub record IsDisabling (v : ℕ) (e : Engine) : Type 0 where
  pub in_graph : v < length e.graph
  pub is_enabled : (vertex_at e.graph v).is_enabled ≡ false
  pub to_disable : (vertex_at e.graph v).to_disable ≡ true
  pub to_offline : (vertex_at e.graph v).to_offline ≡ true

-- A call that leaves it so.
abbrev Leaves : ℕ → (Engine → Res Engine) → Type 0
Leaves v f = (e e' : Engine) → IsDisabling v e → f e ≡ ok e' → IsDisabling v e'

module _ (v : ℕ) where
  done :
      (e e' d : Engine) → IsDisabling v d → ◌≡◌ {A = Res Engine} (ok d) (ok e') → IsDisabling v e'
  done e e' d h p = let same : d ≡ e' = cc in subst (IsDisabling v) same h

  each_edge-Leaves :
      (fun : ℕ → Engine → Res Engine) (es : List Edge)
      → ((w : ℕ) → Leaves v (fun w))
      → Leaves v (each_edge fun es)
  unfolding each_edge
  each_edge-Leaves fun [] h e e' i p = done e e' e i p
  each_edge-Leaves fun (it ∷ es) h e e' i p =
      let (d, a, b) = >>=-eq-ok (fun it.to e) _ p in
      each_edge-Leaves fun es h d e' (h it.to e d i a) b

  each_vertex-Leaves :
      (n i : ℕ) (fun : ℕ → Engine → Res Engine)
      → ((w : ℕ) → Leaves v (fun w))
      → Leaves v (each_vertex n i fun)
  unfolding each_vertex
  each_vertex-Leaves zero i fun h e e' k p = done e e' e k p
  each_vertex-Leaves (suc n) i fun h e e' k p =
      let (d, a, b) = >>=-eq-ok (fun i e) _ p in
      each_vertex-Leaves n (i + 1) fun h d e' (h i e d k a) b

  -- A vertex marked to go offline.
  at_marked :
      (w : ℕ) (e : Engine)
      → IsDisabling v e
      → (vertex_at (modify e.graph w mark_offline) v ≡ mark_offline (vertex_at e.graph v))
        ⊎ (vertex_at (modify e.graph w mark_offline) v ≡ vertex_at e.graph v)
  at_marked w e i = elim (dec_lt w (length e.graph)) [
    | yes h ↦ elim (Bool-cases (w == v)) [
      | inl t ↦
          let same : w ≡ v = (==_iff w v).0 t in
          inl (
            vertex_at-modify e.graph w v mark_offline h
            ∙ rw t (ap (λ x. mark_offline (vertex_at e.graph x)) same))
      | inr f ↦ inr (vertex_at-modify e.graph w v mark_offline h ∙ rw f refl)
    ]
    | no h ↦ inr (ap (λ g. vertex_at g v) (modify-beyond e.graph w mark_offline h))
  ]

  marked :
      (w : ℕ) (e : Engine)
      → IsDisabling v e
      → IsDisabling v (record e { graph = modify e.graph w mark_offline })
  marked w e i =
      let size : v < length (modify e.graph w mark_offline) =
        omega (arith, i.in_graph, length-modify e.graph w mark_offline) in
      elim (at_marked w e i) [
        | inl q ↦ record {
          in_graph = size;
          is_enabled = ap (λ x. x.is_enabled) q ∙ i.is_enabled;
          to_disable = ap (λ x. x.to_disable) q ∙ i.to_disable;
          to_offline = ap (λ x. x.to_offline) q;
        }
        | inr q ↦ record {
          in_graph = size;
          is_enabled = ap (λ x. x.is_enabled) q ∙ i.is_enabled;
          to_disable = ap (λ x. x.to_disable) q ∙ i.to_disable;
          to_offline = ap (λ x. x.to_offline) q ∙ i.to_offline;
        }
      ]

  dependents-Leaves :
      (w : ℕ) (fun : ℕ → Engine → Res Engine)
      → ((x : ℕ) → Leaves v (fun x))
      → Leaves v (vtx_dependents_do w fun)
  unfolding vtx_dependents_do
  dependents-Leaves w fun h e e' i p =
      each_edge-Leaves fun (vertex_at e.graph w).dependents h e e' i p

  admin_disable-Leaves : (depth w reason : ℕ) → Leaves v (vtx_notify_admin_disable depth w reason)
  unfolding vtx_notify_admin_disable
  admin_disable-Leaves zero w reason e e' i p = cc
  admin_disable-Leaves (suc depth) w reason e e' i p =
      go (vertex_at e.graph w).type p (λ x. admin_disable-Leaves depth x reason)
    where
      up : Engine → Res Engine
      up = vtx_dependents_do w (λ x. vtx_notify_admin_disable depth x reason)

      go :
          (t : VertexType)
          → elim t [
            | v_inst ↦ up (record e { graph = modify e.graph w mark_offline })
            | v_depgroup ↦
                if is_exclude_all (vertex_at e.graph w).dg_type
                  || is_none_or_error (vertex_at e.graph w).restart_on
                then ok e
                else up e
            | v_svc ↦ up e
          ]
            ≡ ok e'
          → ((x : ℕ) → Leaves v (vtx_notify_admin_disable depth x reason))
          → IsDisabling v e'
      go v_inst q h =
          dependents-Leaves w _ h (record e { graph = modify e.graph w mark_offline }) e'
            (marked w e i) q
      go v_svc q h = dependents-Leaves w _ h e e' i q
      go v_depgroup q h =
          elim (Bool-cases (
            is_exclude_all (vertex_at e.graph w).dg_type
            || is_none_or_error (vertex_at e.graph w).restart_on)) [
              | inl t ↦ done e e' e i (rw t at q)
              | inr f ↦ dependents-Leaves w _ h e e' i (rw f at q)
            ]

  if_can-Leaves : (depth w reason : ℕ) → Leaves v (offline_if_can depth w reason)
  unfolding offline_if_can vtx_offline send
  if_can-Leaves depth w reason e e' i p =
      let (can, a, b) = >>=-eq-ok (vtx_can_go_down depth e.graph w true) _ p in
      elim (Bool-cases can) [
        | inl t ↦
            let sent = vtx_offline w reason e in
            let kept : IsDisabling v sent = record {
              in_graph = i.in_graph;
              is_enabled = i.is_enabled;
              to_disable = i.to_disable;
              to_offline = i.to_offline;
            } in
            done e e' sent kept (rw t at b)
        | inr f ↦ done e e' e i (rw f at b)
      ]

  if_possible-Leaves : (depth w reason : ℕ) → Leaves v (vtx_offline_if_possible depth w reason)
  unfolding vtx_offline_if_possible
  if_possible-Leaves depth w reason e e' i p =
      elim (Bool-cases (not (vertex_at e.graph w).to_offline)) [
        | inl t ↦ done e e' e i (rw t at p)
        | inr f ↦
            let q = rw f at p in
            elim (Bool-cases (is_inst (vertex_at e.graph w).type)) [
              | inl t ↦ if_can-Leaves depth w reason e e' i (rw t at q)
              | inr g ↦ done e e' e i (rw g at q)
            ]
      ]

disabling :
    (limit v reason : ℕ) (e e' : Engine)
    → v < length e.graph
    → vtx_process_admin_req limit v a_disable reason e ≡ ok e'
    → IsDisabling v e'
unfolding vtx_process_admin_req process_disable change
disabling limit v reason e e' h p =
    let e0 = change v request_disable e in
    let at : vertex_at e0.graph v ≡ request_disable (vertex_at e.graph v) =
      vertex_at-modify e.graph v v request_disable h ∙ rw (==_refl v) refl in
    let start : IsDisabling v e0 = record {
      in_graph = omega (arith, h, length-modify e.graph v request_disable);
      is_enabled = ap (λ x. x.is_enabled) at;
      to_disable = ap (λ x. x.to_disable) at;
      to_offline = ap (λ x. x.to_offline) at;
    } in
    let (e1, a, b) =
      >>=-eq-ok (vtx_dependents_do v (λ w. vtx_notify_admin_disable limit w reason) e0) _ p in
    let (direct, c, d) = >>=-eq-ok (vtx_can_go_down limit e1.graph v true) _ b in
    let down =
      dependents-Leaves v v (λ w. vtx_notify_admin_disable limit w reason)
        (λ w. admin_disable-Leaves v limit w reason) e0 e1 start a in
    each_vertex-Leaves v (length e1.graph) 0
      (λ w. vtx_offline_if_possible limit w (restart_on_code on_restart))
      (λ w. if_possible-Leaves v limit w (restart_on_code on_restart)) e1 e' down d

-- A request to disable a vertex of the graph, if its handler returns, leaves the vertex not enabled,
-- to be disabled and to go offline, whatever happens to its dependents meanwhile; and then it cannot
-- come up, whatever its dependencies say.
pub vtx_process_admin_req-disable :
    (limit depth v reason : ℕ) (e e' : Engine)
    → v < length e.graph
    → vtx_process_admin_req limit v a_disable reason e ≡ ok e'
    → IsDisabling v e' × (vtx_inst_can_come_up depth e'.graph v ≡ ok false)
unfolding vtx_inst_can_come_up
vtx_process_admin_req-disable limit depth v reason e e' h p =
    let i = disabling limit v reason e e' h p in (i, rw (i.is_enabled) refl)
