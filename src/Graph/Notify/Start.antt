-- ===== src/Graph/Notify/Start.antt =====
-- Which notes are queued when a dependency goes up or down.
use e_com_init.Common.{
  ℕ, zero, suc, ◌≡◌, refl, subst, ◌∙◌, ◌||◌, ◌&&◌, not, Bool, true, false, List, [], ◌∷◌, ◌++◌,
  if◌then◌else◌, ltb, All, All-append, map, append_assoc, append-nil,
}
use e_com_init.Common.Res.{Res, ok, >>=-eq-ok}
use mathlib.Core.List.{map-append}
use e_com_init.S16List.Laws.{list_add-eq-append}
use e_com_init.Service.Types.{restart_on_code}
use e_com_init.Repository.Notes.{S16Note, n_state_change, note_new, sc_online, sc_offline}
use e_com_init.Graph.Types.{Edge, VertexType, v_inst, v_svc, v_depgroup, Graph, Engine, vertex_at}
use e_com_init.Graph.Reach.{is_exclude_all}
use e_com_init.Graph.Satisfy.{vtx_inst_can_come_up}
use e_com_init.Graph.Notify.{
  send, vtx_dependents_do, each_edge, vtx_is_running, notify_start_inst, vtx_notify_start,
  vtx_notify_stop,
}

-- The note that an instance is sent.
abbrev pub state_note : ℕ → ℕ → Graph → ℕ → S16Note
state_note type reason g w = note_new n_state_change type (vertex_at g w).path reason

-- The later state has the same graph, and behind the notes that waited one for each of some
-- vertices, all of which are good.
pub record Sends (Good : ℕ → Type 0) (note : ℕ → S16Note) (e e' : Engine) : Type 0 where
  pub graph : e'.graph ≡ e.graph
  pub scope : e'.scope ≡ e.scope
  pub to : List ℕ
  pub queued : e'.notes ≡ e.notes ++ map note to
  pub good : All Good to

module _ (Good : Graph → ℕ → Type 0) (note : Graph → ℕ → S16Note) where
  abbrev pub Queues : Engine → Engine → Type 0
  Queues e e' = Sends (Good e.graph) (note e.graph) e e'

  Queues-refl : (e : Engine) → Queues e e
  Queues-refl e = record { graph = refl; scope = refl; to = []; queued = rw append-nil; good = tt }

  Queues-trans : (a b c : Engine) → Queues a b → Queues b c → Queues a c
  Queues-trans a b c h k = record {
    graph = k.graph ∙ h.graph;
    scope = k.scope ∙ h.scope;
    to = h.to ++ k.to;
    queued = k.queued ∙ rw (h.queued, h.graph, map-append, append_assoc);
    good = All-append (Good a.graph) h.to k.to h.good (rw h.graph at k.good);
  }

  ok-Queues : (e e' f : Engine) → Queues e f → ◌≡◌ {A = Res Engine} (ok f) (ok e') → Queues e e'
  ok-Queues e e' f h p = let q : f ≡ e' = cc in subst (Queues e) q h

  -- A call that returns gives such a state.
  abbrev CallQueues : (Engine → Res Engine) → Type 0
  CallQueues f = (e e' : Engine) → f e ≡ ok e' → Queues e e'

  each_edge-Queues :
      (fun : ℕ → Engine → Res Engine) (es : List Edge)
      → ((w : ℕ) → CallQueues (fun w))
      → CallQueues (each_edge fun es)
  unfolding each_edge
  each_edge-Queues fun [] h e e' p = ok-Queues e e' e (Queues-refl e) p
  each_edge-Queues fun (it ∷ es) h e e' p =
      let (d, a, b) = >>=-eq-ok (fun it.to e) (each_edge fun es) p in
      Queues-trans e d e' (h it.to e d a) (each_edge-Queues fun es h d e' b)

  dependents-Queues :
      (v : ℕ) (fun : ℕ → Engine → Res Engine)
      → ((w : ℕ) → CallQueues (fun w))
      → CallQueues (vtx_dependents_do v fun)
  unfolding vtx_dependents_do
  dependents-Queues v fun h e e' p = each_edge-Queues fun (vertex_at e.graph v).dependents h e e' p

send-Queues :
    (Good : Graph → ℕ → Type 0) (type v reason : ℕ) (e : Engine)
    → Good e.graph v
    → Queues Good (state_note type reason) e (send type v reason e)
unfolding send
send-Queues Good type v reason e h = record {
  graph = refl;
  scope = refl;
  to = v ∷ [];
  queued = list_add-eq-append e.notes _;
  good = (h, tt);
}

-- An instance that can come up and does not run.
pub record CanStart (limit : ℕ) (g : Graph) (v : ℕ) : Type 0 where
  pub is_instance : (vertex_at g v).type ≡ v_inst
  pub can : vtx_inst_can_come_up limit g v ≡ ok true
  pub stopped : vtx_is_running (vertex_at g v) ≡ false

notify_start_inst-Queues :
    (limit v : ℕ) (e e' : Engine)
    → (vertex_at e.graph v).type ≡ v_inst
    → notify_start_inst limit v e ≡ ok e'
    → Queues (CanStart limit) (state_note sc_online 0) e e'
unfolding notify_start_inst
notify_start_inst-Queues limit v e e' inst p =
    let (can, a, b) = >>=-eq-ok (vtx_inst_can_come_up limit e.graph v) _ p in
    ok-Queues (CanStart limit) (state_note sc_online 0) e e' _
      (one can a (vtx_is_running (vertex_at e.graph v)) refl) b
  where
    one :
        (can : Bool)
        → vtx_inst_can_come_up limit e.graph v ≡ ok can
        → (runs : Bool) → vtx_is_running (vertex_at e.graph v) ≡ runs
        → Queues
            (CanStart limit)
            (state_note sc_online 0)
            e
            (if can && not runs then send sc_online v 0 e else e)
    one true a false r =
        send-Queues (CanStart limit) sc_online v 0 e
          (record { is_instance = inst; can = a; stopped = r })
    one true a true r = Queues-refl (CanStart limit) (state_note sc_online 0) e
    one false a runs r = Queues-refl (CanStart limit) (state_note sc_online 0) e

by_type_eq :
    (t : VertexType) (P : Res Engine → Type 0) (a b c : Res Engine)
    → (t ≡ v_inst → P a)
    → P b
    → P c
    → P (elim t [ v_inst ↦ a | v_svc ↦ b | v_depgroup ↦ c ])
by_type_eq v_inst P a b c x y z = x refl
by_type_eq v_svc P a b c x y z = y
by_type_eq v_depgroup P a b c x y z = z

-- When a vertex has gone up, the graph is as it was, and each note that is queued sends an instance
-- online that can come up, its own flags and all its dependencies allowing it, and does not run.
pub vtx_notify_start_lem :
    (limit depth v reason : ℕ) (e e' : Engine)
    → vtx_notify_start limit depth v reason e ≡ ok e'
    → Queues (CanStart limit) (state_note sc_online 0) e e'
unfolding vtx_notify_start
vtx_notify_start_lem limit zero v reason e e' p = cc
vtx_notify_start_lem limit (suc depth) v reason e e' p =
    let r = restart_on_code (vertex_at e.graph v).restart_on in
    let up =
      dependents-Queues (CanStart limit) (state_note sc_online 0) v
        (λ w. vtx_notify_start limit depth w r) (λ w. vtx_notify_start_lem limit depth w r) e e' in
    by_type_eq (vertex_at e.graph v).type
      (λ m. m ≡ ok e' → Queues (CanStart limit) (state_note sc_online 0) e e') _ _ _
      (λ t. notify_start_inst-Queues limit v e e' t) up up p

-- An instance that runs.
pub record Runs (g : Graph) (v : ℕ) : Type 0 where
  pub is_instance : (vertex_at g v).type ≡ v_inst
  pub running : vtx_is_running (vertex_at g v) ≡ true

-- When a vertex has gone down, the graph is as it was, and each note that is queued sends an instance
-- offline that runs, for the reason that the vertex went down.
pub vtx_notify_stop_lem :
    (depth v reason : ℕ) (e e' : Engine)
    → vtx_notify_stop depth v reason e ≡ ok e'
    → Queues Runs (state_note sc_offline reason) e e'
unfolding vtx_notify_stop
vtx_notify_stop_lem zero v reason e e' p = cc
vtx_notify_stop_lem (suc depth) v reason e e' p =
    let x = vertex_at e.graph v in
    let call = λ (w : ℕ). vtx_notify_stop depth w reason in
    let up =
      dependents-Queues Runs (state_note sc_offline reason) v call
        (λ w. vtx_notify_stop_lem depth w reason) e e' in
    go x.type refl up
      (stops_or_up (is_exclude_all x.dg_type || ltb (restart_on_code x.restart_on) reason) up) p
  where
    q_refl : Queues Runs (state_note sc_offline reason) e e
    q_refl = Queues-refl Runs (state_note sc_offline reason) e

    one :
        (runs : Bool)
        → (vertex_at e.graph v).type ≡ v_inst
        → vtx_is_running (vertex_at e.graph v) ≡ runs
        → Queues Runs
            (state_note sc_offline reason)
            e
            (if not runs then e else send sc_offline v reason e)
    one false t r = q_refl
    one true t r = send-Queues Runs sc_offline v reason e (record { is_instance = t; running = r })

    stops_or_up :
        (b : Bool) {m : Res Engine}
        → (m ≡ ok e' → Queues Runs (state_note sc_offline reason) e e')
        → (if b then ok e else m) ≡ ok e'
        → Queues Runs (state_note sc_offline reason) e e'
    stops_or_up true k q = ok-Queues Runs (state_note sc_offline reason) e e' e q_refl q
    stops_or_up false k q = k q

    go :
        (t : VertexType) {m n : Res Engine}
        → (vertex_at e.graph v).type ≡ t
        → (m ≡ ok e' → Queues Runs (state_note sc_offline reason) e e')
        → (n ≡ ok e' → Queues Runs (state_note sc_offline reason) e e')
        → elim t [
          | v_inst ↦
              ok (
                if not (vtx_is_running (vertex_at e.graph v))
                then e
                else send sc_offline v reason e)
          | v_depgroup ↦ n
          | v_svc ↦ m
        ]
          ≡ ok e'
        → Queues Runs (state_note sc_offline reason) e e'
    go v_inst t a b q = ok-Queues Runs (state_note sc_offline reason) e e' _ (one _ t refl) q
    go v_svc t a b q = a q
    go v_depgroup t a b q = b q
