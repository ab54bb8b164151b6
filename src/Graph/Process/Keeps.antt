-- ===== src/Graph/Process/Keeps.antt =====
-- Handling a note keeps the shape of the graph, and the invariant with it.
use e_com_init.Common.{
  ℕ, zero, suc, ◌+◌, ◌≡◌, ◌&&◌, not, Bool, true, false, if◌then◌else◌, ◌==◌, length, arith,
}
use e_com_init.Common.Res.{Res, ok, >>=-eq-ok}
use e_com_init.Service.Types.{on_restart, restart_on_code}
use e_com_init.Repository.Notes.{a_enable, a_disable, sc_online, sc_offline, sc_disabled}
use e_com_init.Graph.Types.{Vertex, Engine, vertex_at}
use e_com_init.Graph.Shape.{Keeps, Keeps-refl, Keeps-trans, SameVertex}
use e_com_init.Graph.Satisfy.{vtx_inst_can_come_up, is_inst}
use e_com_init.Graph.Notify.{
  vtx_online, vtx_offline, vtx_enable, vtx_disable, vtx_dependencies_do, vtx_dependents_do,
  vtx_notify_start, vtx_notify_stop, vtx_notify_misc, vtx_notify_admin_disable,
}
use e_com_init.Graph.Notify.Keeps.{
  CallKeeps, ok-Keeps, >>=-Keeps, send-Keeps, modify-Keeps, vtx_dependents_do-Keeps,
  vtx_dependencies_do-Keeps, send_if-Keeps, stops_or, vtx_notify_start-Keeps, vtx_notify_misc-Keeps,
  vtx_notify_stop-Keeps, vtx_notify_admin_disable-Keeps,
}
use e_com_init.Graph.Down.{
  vtx_can_go_down, offline_if_can, vtx_offline_if_possible, vtx_offline_dependency,
}
use e_com_init.Graph.Process.{
  change, request_disable, request_enable, become_online, become_offline, become_disabled,
  each_vertex, process_disable, vtx_process_admin_req, process_online, settle_offline,
  come_up_again, process_offline, process_disabled,
}

offline_if_can-Keeps : (depth v reason : ℕ) → CallKeeps (offline_if_can depth v reason)
unfolding offline_if_can vtx_offline
offline_if_can-Keeps depth v reason e e' p =
    let (can, a, b) = >>=-eq-ok (vtx_can_go_down depth e.graph v true) _ p in
    ok-Keeps e e' _ (send_if-Keeps can sc_offline v reason e) b

pub vtx_offline_if_possible-Keeps :
    (depth v reason : ℕ) → CallKeeps (vtx_offline_if_possible depth v reason)
unfolding vtx_offline_if_possible
vtx_offline_if_possible-Keeps depth v reason e e' p =
    stops_or e e' (not (vertex_at e.graph v).to_offline)
      (λ q. either (is_inst (vertex_at e.graph v).type) q) p
  where
    either : (b : Bool) → (if b then offline_if_can depth v reason e else ok e) ≡ ok e' → Keeps e e'
    either true q = offline_if_can-Keeps depth v reason e e' q
    either false q = ok-Keeps e e' e (Keeps-refl e) q

pub vtx_offline_dependency-Keeps :
    (limit depth v reason : ℕ) → CallKeeps (vtx_offline_dependency limit depth v reason)
unfolding vtx_offline_dependency
vtx_offline_dependency-Keeps limit zero v reason e e' p = cc
vtx_offline_dependency-Keeps limit (suc depth) v reason e e' p =
    let x = vertex_at e.graph v in
    let down =
      vtx_dependencies_do-Keeps v (λ w. vtx_offline_dependency limit depth w reason)
        (λ w. vtx_offline_dependency-Keeps limit depth w reason) e e' in
    stops_or e e' (is_inst x.type && not x.to_offline) (either (is_inst x.type) down) p
  where
    either :
        (b : Bool) {m : Res Engine}
        → (m ≡ ok e' → Keeps e e')
        → (if b then offline_if_can limit v reason e else m) ≡ ok e'
        → Keeps e e'
    either true k q = offline_if_can-Keeps limit v reason e e' q
    either false k q = k q

pub change-Keeps :
    (v : ℕ) (f : Vertex → Vertex) (e : Engine)
    → ((x : Vertex) → SameVertex x (f x))
    → Keeps e (change v f e)
unfolding change
change-Keeps v f e same = modify-Keeps v f e same

pub each_vertex-Keeps :
    (n i : ℕ) (body : ℕ → Engine → Res Engine)
    → ((w : ℕ) → CallKeeps (body w))
    → CallKeeps (each_vertex n i body)
unfolding each_vertex
each_vertex-Keeps zero i body h e e' p = ok-Keeps e e' e (Keeps-refl e) p
each_vertex-Keeps (suc n) i body h e e' p =
    >>=-Keeps e e' (body i e) (each_vertex n (i + 1) body) (h i e)
      (each_vertex-Keeps n (i + 1) body h) p

after_change :
    (v : ℕ) (f : Vertex → Vertex) (call : Engine → Res Engine)
    → ((x : Vertex) → SameVertex x (f x))
    → CallKeeps call
    → CallKeeps (λ e. call (change v f e))
after_change v f call same h e e' p =
    Keeps-trans e (change v f e) e' (change-Keeps v f e same) (h (change v f e) e' p)

module _ (limit : ℕ) where
  pub process_disable-Keeps : (v reason : ℕ) → CallKeeps (process_disable limit v reason)
  unfolding process_disable
  process_disable-Keeps v reason e e' p =
      let (e1, a, b) =
        >>=-eq-ok
          (vtx_dependents_do v (λ w. vtx_notify_admin_disable limit w reason)
            (change v request_disable e))
          _ p in
      let (direct, c, d) = >>=-eq-ok (vtx_can_go_down limit e1.graph v true) _ b in
      Keeps-trans e e1 e'
        (after_change v request_disable
          (vtx_dependents_do v (λ w. vtx_notify_admin_disable limit w reason)) (λ x. ground arith)
          (vtx_dependents_do-Keeps v _ (λ w. vtx_notify_admin_disable-Keeps limit w reason)) e e1 a)
        (each_vertex-Keeps (length e1.graph) 0 _
          (λ w. vtx_offline_if_possible-Keeps limit w (restart_on_code on_restart)) e1 e' d)

  enable-Keeps : (v : ℕ) (e : Engine) → Keeps e (vtx_enable v (change v request_enable e))
  unfolding vtx_enable
  enable-Keeps v e =
      Keeps-trans e (change v request_enable e) _
        (change-Keeps v request_enable e (λ x. ground arith))
        (send-Keeps sc_offline v (restart_on_code on_restart) (change v request_enable e))

  pub vtx_process_admin_req-Keeps :
      (v type reason : ℕ) → CallKeeps (vtx_process_admin_req limit v type reason)
  unfolding vtx_process_admin_req
  vtx_process_admin_req-Keeps v type reason e e' p = first (type == a_disable) p
    where
      second :
          (b : Bool)
          → (if b then ok (vtx_enable v (change v request_enable e)) else ok e) ≡ ok e'
          → Keeps e e'
      second true q = ok-Keeps e e' _ (enable-Keeps v e) q
      second false q = ok-Keeps e e' e (Keeps-refl e) q

      first :
          (b : Bool)
          → (if b
              then process_disable limit v reason e
              else (if type == a_enable
                  then ok (vtx_enable v (change v request_enable e))
                  else ok e))
            ≡ ok e'
          → Keeps e e'
      first true q = process_disable-Keeps v reason e e' q
      first false q = second (type == a_enable) q

  pub process_online-Keeps : (v reason : ℕ) → CallKeeps (process_online limit v reason)
  unfolding process_online
  process_online-Keeps v reason =
      after_change v become_online
        (vtx_dependents_do v (λ w. vtx_notify_start limit limit w reason)) (λ x. ground arith)
        (vtx_dependents_do-Keeps v _ (λ w. vtx_notify_start-Keeps limit limit w reason))

  pub process_disabled-Keeps : (v reason : ℕ) → CallKeeps (process_disabled limit v reason)
  unfolding process_disabled
  process_disabled-Keeps v reason =
      after_change v become_disabled
        (vtx_dependents_do v (λ w. vtx_notify_misc limit limit w reason)) (λ x. ground arith)
        (vtx_dependents_do-Keeps v _ (λ w. vtx_notify_misc-Keeps limit limit w reason))

  settle_offline-Keeps : (v reason : ℕ) → CallKeeps (settle_offline limit v reason)
  unfolding settle_offline vtx_disable
  settle_offline-Keeps v reason e e' p =
      let (e1, a, b) =
        >>=-eq-ok (vtx_dependencies_do v (λ w. vtx_offline_dependency limit limit w reason) e) _
          p in
      Keeps-trans e e1 e'
        (vtx_dependencies_do-Keeps v _ (λ w. vtx_offline_dependency-Keeps limit limit w reason) e e1
          a)
        (ok-Keeps e1 e' _ (send_if-Keeps _ sc_disabled v reason e1) b)

  come_up_again-Keeps : (v reason : ℕ) → CallKeeps (come_up_again limit v reason)
  unfolding come_up_again vtx_online
  come_up_again-Keeps v reason e e' p =
      let (can, a, b) = >>=-eq-ok (vtx_inst_can_come_up limit e.graph v) _ p in
      ok-Keeps e e' _ (send_if-Keeps can sc_online v reason e) b

  pub process_offline-Keeps : (v reason : ℕ) → CallKeeps (process_offline limit v reason)
  unfolding process_offline
  process_offline-Keeps v reason e e' p =
      let e0 = change v become_offline e in
      Keeps-trans e e0 e' (change-Keeps v become_offline e (λ x. ground arith)) (
        >>=-Keeps e0 e' _ (vtx_dependents_do v (λ w. vtx_notify_stop limit w reason))
          (either (vertex_at e.graph v).to_offline)
          (vtx_dependents_do-Keeps v _ (λ w. vtx_notify_stop-Keeps limit w reason)) p)
    where
      either :
          (b : Bool) (d : Engine)
          → (if b
              then settle_offline limit v reason (change v become_offline e)
              else come_up_again limit v reason (change v become_offline e))
            ≡ ok d
          → Keeps (change v become_offline e) d
      either true d q = settle_offline-Keeps v reason (change v become_offline e) d q
      either false d q = come_up_again-Keeps v reason (change v become_offline e) d q
