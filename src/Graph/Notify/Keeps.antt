-- ===== src/Graph/Notify/Keeps.antt =====
-- Passing a change on keeps the shape of the graph and the notes that wait.
use e_com_init.Common.{
  ℕ, zero, suc, ◌≡◌, refl, subst, ◌||◌, not, Bool, true, false, List, [], ◌∷◌, if◌then◌else◌, ltb,
  arith, append-nil,
}
use e_com_init.Common.Res.{Res, ok, ◌>>=◌, >>=-eq-ok}
use e_com_init.S16List.Laws.{list_add-eq-append}
use e_com_init.Service.Types.{restart_on_code}
use e_com_init.Repository.Notes.{n_state_change, note_new, sc_online, sc_offline}
use e_com_init.Graph.Types.{
  Edge, Vertex, VertexType, v_inst, v_svc, v_depgroup, Engine, vertex_at, modify,
}
use e_com_init.Graph.Shape.{Keeps, Keeps-refl, Keeps-trans, SameVertex, SameShape-modify}
use e_com_init.Graph.Reach.{is_exclude_all}
use e_com_init.Graph.Satisfy.{vtx_inst_can_come_up}
use e_com_init.Graph.Notify.{
  send, vtx_online, each_edge, vtx_dependencies_do, vtx_dependents_do, vtx_is_running,
  is_none_or_error, notify_start_inst, vtx_notify_start, notify_misc_inst, vtx_notify_misc,
  vtx_notify_stop, mark_offline, vtx_notify_admin_disable,
}

-- A call that returns gives a later state.
abbrev pub CallKeeps : (Engine → Res Engine) → Type 0
CallKeeps f = (e e' : Engine) → f e ≡ ok e' → Keeps e e'

pub ok-Keeps : (e e' f : Engine) → Keeps e f → ◌≡◌ {A = Res Engine} (ok f) (ok e') → Keeps e e'
ok-Keeps e e' f h p = let q : f ≡ e' = cc in subst (Keeps e) q h

pub >>=-Keeps :
    (e e' : Engine) (m : Res Engine) (f : Engine → Res Engine)
    → ((d : Engine) → m ≡ ok d → Keeps e d)
    → CallKeeps f
    → (m >>= f) ≡ ok e'
    → Keeps e e'
>>=-Keeps e e' m f h k p = let (d, a, b) = >>=-eq-ok m f p in Keeps-trans e d e' (h d a) (k d e' b)

pub send-Keeps : (type v reason : ℕ) (e : Engine) → Keeps e (send type v reason e)
unfolding send
send-Keeps type v reason e = record {
  shape = (Keeps-refl e).shape;
  added = note_new n_state_change type (vertex_at e.graph v).path reason ∷ [];
  queued = list_add-eq-append e.notes _;
  scope = refl;
}

pub modify-Keeps :
    (v : ℕ) (f : Vertex → Vertex) (e : Engine)
    → ((x : Vertex) → SameVertex x (f x))
    → Keeps e (record e { graph = modify e.graph v f })
modify-Keeps v f e same = record {
  shape = SameShape-modify e.graph v f same;
  added = [];
  queued = rw append-nil;
  scope = refl;
}

pub each_edge-Keeps :
    (fun : ℕ → Engine → Res Engine) (es : List Edge)
    → ((w : ℕ) → CallKeeps (fun w))
    → CallKeeps (each_edge fun es)
unfolding each_edge
each_edge-Keeps fun [] h e e' p = ok-Keeps e e' e (Keeps-refl e) p
each_edge-Keeps fun (it ∷ es) h e e' p =
    >>=-Keeps e e' (fun it.to e) (each_edge fun es) (h it.to e) (each_edge-Keeps fun es h) p

pub vtx_dependents_do-Keeps :
    (v : ℕ) (fun : ℕ → Engine → Res Engine)
    → ((w : ℕ) → CallKeeps (fun w))
    → CallKeeps (vtx_dependents_do v fun)
unfolding vtx_dependents_do
vtx_dependents_do-Keeps v fun h e e' p =
    each_edge-Keeps fun (vertex_at e.graph v).dependents h e e' p

pub vtx_dependencies_do-Keeps :
    (v : ℕ) (fun : ℕ → Engine → Res Engine)
    → ((w : ℕ) → CallKeeps (fun w))
    → CallKeeps (vtx_dependencies_do v fun)
unfolding vtx_dependencies_do
vtx_dependencies_do-Keeps v fun h e e' p =
    each_edge-Keeps fun (vertex_at e.graph v).dependencies h e e' p

-- A note that is sent or not.
pub send_if-Keeps :
    (b : Bool) (type v reason : ℕ) (e : Engine) → Keeps e (if b then send type v reason e else e)
send_if-Keeps true type v reason e = send-Keeps type v reason e
send_if-Keeps false type v reason e = Keeps-refl e

pub notify_start_inst-Keeps : (limit v : ℕ) → CallKeeps (notify_start_inst limit v)
unfolding notify_start_inst
notify_start_inst-Keeps limit v e e' p =
    let (can, a, b) = >>=-eq-ok (vtx_inst_can_come_up limit e.graph v) _ p in
    ok-Keeps e e' _ (send_if-Keeps _ sc_online v 0 e) b

-- A call that is left out or made.
pub stops_or :
    (e e' : Engine) (b : Bool) {m : Res Engine}
    → (m ≡ ok e' → Keeps e e')
    → (if b then ok e else m) ≡ ok e'
    → Keeps e e'
stops_or e e' true k q = ok-Keeps e e' e (Keeps-refl e) q
stops_or e e' false k q = k q

pub by_type {ℓ} :
    {A : Type ℓ} (t : VertexType) (P : A → Type 0) (a b c : A)
    → P a
    → P b
    → P c
    → P (elim t [ v_inst ↦ a | v_svc ↦ b | v_depgroup ↦ c ])
by_type v_inst P a b c x y z = x
by_type v_svc P a b c x y z = y
by_type v_depgroup P a b c x y z = z

pub vtx_notify_start-Keeps :
    (limit depth v reason : ℕ) → CallKeeps (vtx_notify_start limit depth v reason)
unfolding vtx_notify_start
vtx_notify_start-Keeps limit zero v reason e e' p = cc
vtx_notify_start-Keeps limit (suc depth) v reason e e' p =
    let up =
      vtx_dependents_do-Keeps v
        (λ w. vtx_notify_start limit depth w (restart_on_code (vertex_at e.graph v).restart_on))
        (λ w.
          vtx_notify_start-Keeps limit depth w (restart_on_code (vertex_at e.graph v).restart_on))
        e e' in
    by_type (vertex_at e.graph v).type (λ m. m ≡ ok e' → Keeps e e') _ _ _
      (notify_start_inst-Keeps limit v e e') up up p

pub notify_misc_inst-Keeps : (limit v reason : ℕ) → CallKeeps (notify_misc_inst limit v reason)
unfolding notify_misc_inst vtx_online
notify_misc_inst-Keeps limit v reason e e' p =
    let (can, a, b) = >>=-eq-ok (vtx_inst_can_come_up limit e.graph v) _ p in
    ok-Keeps e e' _ (send_if-Keeps _ sc_online v reason e) b

pub vtx_notify_misc-Keeps :
    (limit depth v reason : ℕ) → CallKeeps (vtx_notify_misc limit depth v reason)
unfolding vtx_notify_misc
vtx_notify_misc-Keeps limit zero v reason e e' p = cc
vtx_notify_misc-Keeps limit (suc depth) v reason e e' p =
    let call = λ (w : ℕ). vtx_notify_misc limit depth w reason in
    let up = vtx_dependents_do-Keeps v call (λ w. vtx_notify_misc-Keeps limit depth w reason) in
    by_type (vertex_at e.graph v).type (λ m. m ≡ ok e' → Keeps e e') _ _ _
      (>>=-Keeps e e' (notify_misc_inst limit v reason e) (vtx_dependents_do v call)
        (notify_misc_inst-Keeps limit v reason e) up)
      (up e e') (up e e') p

pub vtx_notify_stop-Keeps : (depth v reason : ℕ) → CallKeeps (vtx_notify_stop depth v reason)
unfolding vtx_notify_stop
vtx_notify_stop-Keeps zero v reason e e' p = cc
vtx_notify_stop-Keeps (suc depth) v reason e e' p =
    let x = vertex_at e.graph v in
    let call = λ (w : ℕ). vtx_notify_stop depth w reason in
    let up = vtx_dependents_do-Keeps v call (λ w. vtx_notify_stop-Keeps depth w reason) e e' in
    by_type x.type (λ m. m ≡ ok e' → Keeps e e') _ _ _
      (ok-Keeps e e' _ (unless (vtx_is_running x) e v)) up
      (stops_or e e' (is_exclude_all x.dg_type || ltb (restart_on_code x.restart_on) reason) up) p
  where
    unless :
        (b : Bool) (d : Engine) (w : ℕ) → Keeps d (if not b then d else send sc_offline w reason d)
    unless true d w = send-Keeps sc_offline w reason d
    unless false d w = Keeps-refl d

pub vtx_notify_admin_disable-Keeps :
    (depth v reason : ℕ) → CallKeeps (vtx_notify_admin_disable depth v reason)
unfolding vtx_notify_admin_disable
vtx_notify_admin_disable-Keeps zero v reason e e' p = cc
vtx_notify_admin_disable-Keeps (suc depth) v reason e e' p =
    let x = vertex_at e.graph v in
    let call = λ (w : ℕ). vtx_notify_admin_disable depth w reason in
    let up = vtx_dependents_do-Keeps v call (λ w. vtx_notify_admin_disable-Keeps depth w reason) in
    let marked = record e { graph = modify e.graph v mark_offline } in
    by_type x.type (λ m. m ≡ ok e' → Keeps e e') _ _ _
      (λ q.
        Keeps-trans e marked e' (modify-Keeps v mark_offline e (λ y. ground arith))
          (up marked e' q))
      (up e e')
      (stops_or e e' (is_exclude_all x.dg_type || is_none_or_error x.restart_on) (up e e')) p
