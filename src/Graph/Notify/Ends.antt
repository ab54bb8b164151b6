-- ===== src/Graph/Notify/Ends.antt =====
-- Passing on that a vertex went down returns, where the dependents are not cyclic.
use e_com_init.Graph.Satisfy.{depgroup_is_satisfied, vtx_inst_can_come_up}
use e_com_init.Graph.Satisfy.Ends.{Ranks, depgroup_is_satisfied_ends}
use e_com_init.Graph.Notify.{
  notify_start_inst, vtx_notify_start, send, each_edge, vtx_dependents_do, vtx_is_running,
  vtx_notify_stop,
}
use e_com_init.Graph.Notify.Start.{vtx_notify_start_lem}
use e_com_init.Common.{
  ◌&&◌, ◌≢◌, ℕ, zero, suc, ◌<◌, ◌≡◌, refl, sym, subst, ap, ◌∙◌, inl, inr, ◌||◌, not, Bool, true,
  false, List, [], ◌∷◌, if◌then◌else◌, ltb, arith, All, All-map, Bool-cases,
}
use e_com_init.Common.Res.{>>=-ne-too_deep, aborted, too_deep, Res, ok, ◌>>=◌}
use e_com_init.Service.Types.{restart_on_code}
use e_com_init.Repository.Notes.{sc_offline}
use e_com_init.Graph.Types.{Edge, VertexType, v_inst, v_svc, v_depgroup, Graph, Engine, vertex_at}
use e_com_init.Graph.Reach.{is_exclude_all}

-- Numbers for the vertices, smaller for each dependent.
abbrev pub RanksUp : (ℕ → ℕ) → Graph → Type 0
RanksUp rank g = (v : ℕ) → All (λ e. rank e.to < rank v) (vertex_at g v).dependents

-- The call returns and leaves the graph as it is.
abbrev Returns : Graph → (Engine → Res Engine) → Type 0
Returns g f = (e : Engine) → e.graph ≡ g → (e' : Engine) × (f e ≡ ok e') × (e'.graph ≡ g)

each_edge-Returns :
    (g : Graph) (fun : ℕ → Engine → Res Engine) (es : List Edge)
    → All (λ it. Returns g (fun it.to)) es
    → Returns g (each_edge fun es)
unfolding each_edge
each_edge-Returns g fun [] h e p = (e, refl, p)
each_edge-Returns g fun (it ∷ es) h e p =
    let (d, a, q) = h.0 e p in
    let (e', b, r) = each_edge-Returns g fun es h.1 d q in
    (e', ap (λ m. m >>= each_edge fun es) a ∙ b, r)

if-Returns :
    (g : Graph) (b : Bool) (x y : Res Engine)
    → (e' : Engine) × (x ≡ ok e') × (e'.graph ≡ g)
    → (e' : Engine) × (y ≡ ok e') × (e'.graph ≡ g)
    → (e' : Engine) × ((if b then x else y) ≡ ok e') × (e'.graph ≡ g)
if-Returns g true x y h k = h
if-Returns g false x y h k = k

stop-Returns :
    (rank : ℕ → ℕ) (g : Graph) (depth v reason : ℕ)
    → RanksUp rank g
    → rank v < depth
    → Returns g (vtx_notify_stop depth v reason)
unfolding vtx_notify_stop vtx_dependents_do send
stop-Returns rank g zero v reason ranks h e p = absurd (omega arith)
stop-Returns rank g (suc depth) v reason ranks h e p =
    let call = λ (w : ℕ). vtx_notify_stop depth w reason in
    let smaller =
      subst (λ x. All (λ it. rank it.to < rank v) (vertex_at x v).dependents) (sym p) (ranks v) in
    go (vertex_at e.graph v).type (
      each_edge-Returns g call (vertex_at e.graph v).dependents
        (All-map (λ it. rank it.to < rank v) (λ it. Returns g (call it.to))
          (vertex_at e.graph v).dependents
          (λ it lt. stop-Returns rank g depth it.to reason ranks (omega (arith, lt, h))) smaller)
        e p)
  where
    call : ℕ → Engine → Res Engine
    call w = vtx_notify_stop depth w reason

    go :
        (t : VertexType)
        → (e' : Engine) × (vtx_dependents_do v call e ≡ ok e') × (e'.graph ≡ g)
        → (e' : Engine) × (elim t [
          | v_inst ↦
              ok (
                if not (vtx_is_running (vertex_at e.graph v))
                then e
                else send sc_offline v reason e)
          | v_depgroup ↦
              if is_exclude_all (vertex_at e.graph v).dg_type
                || ltb (restart_on_code (vertex_at e.graph v).restart_on) reason
              then ok e
              else vtx_dependents_do v call e
          | v_svc ↦ vtx_dependents_do v call e
        ]
            ≡ ok e')
          × (e'.graph ≡ g)
    go v_inst k = elim (Bool-cases (not (vtx_is_running (vertex_at e.graph v)))) [
      | inl t ↦ (e, rw t refl, p)
      | inr f ↦ (send sc_offline v reason e, rw f refl, p)
    ]
    go v_depgroup k = if-Returns g _ (ok e) _ (e, refl, p) k
    go v_svc k = k

-- With a rank for the dependents, passing on that a vertex went down returns at each depth above the
-- rank of the vertex.
pub vtx_notify_stop_ends :
    (rank : ℕ → ℕ) (depth v reason : ℕ) (e : Engine)
    → RanksUp rank e.graph
    → rank v < depth
    → (e' : Engine) × (vtx_notify_stop depth v reason e ≡ ok e')
vtx_notify_stop_ends rank depth v reason e ranks h =
    let (e', a, same) = stop-Returns rank e.graph depth v reason ranks h e refl in (e', a)

-- A call that is not cut off and leaves the graph as it is, if it returns.
abbrev NotDeep : Graph → (Engine → Res Engine) → Type 0
NotDeep g f =
    (e : Engine) → e.graph ≡ g → (f e ≢ too_deep) × ((e' : Engine) → f e ≡ ok e' → e'.graph ≡ g)

each_edge-NotDeep :
    (g : Graph) (fun : ℕ → Engine → Res Engine) (es : List Edge)
    → All (λ it. NotDeep g (fun it.to)) es
    → NotDeep g (each_edge fun es)
unfolding each_edge
each_edge-NotDeep g fun [] h e p =
    (λ q. cc, λ e' q. let same : e ≡ e' = cc in ap (λ x. x.graph) (sym same) ∙ p)
each_edge-NotDeep g fun (it ∷ es) h e p =
    let (first, kept) = h.0 e p in
    go (fun it.to e) first kept (λ d q. each_edge-NotDeep g fun es h.1 d q)
  where
    go :
        (r : Res Engine)
        → r ≢ too_deep
        → ((d : Engine) → r ≡ ok d → d.graph ≡ g)
        → NotDeep g (each_edge fun es)
        → ((r >>= each_edge fun es) ≢ too_deep)
          × ((e' : Engine) → (r >>= each_edge fun es) ≡ ok e' → e'.graph ≡ g)
    go (ok d) n k rest = rest d (k d refl)
    go aborted n k rest = (λ q. cc, λ e' q. cc)
    go too_deep n k rest = absurd (n refl)

can-NotDeep :
    (down : ℕ → ℕ) (limit : ℕ) (g : Graph) (v : ℕ)
    → Ranks down g
    → down v < limit
    → vtx_inst_can_come_up limit g v ≢ too_deep
unfolding vtx_inst_can_come_up
can-NotDeep down limit g v deps h =
    let x = vertex_at g v in
    elim (Bool-cases (x.is_enabled && not x.to_offline && not x.to_disable)) [
      | inl t ↦ rw t (
          >>=-ne-too_deep (depgroup_is_satisfied limit g v true) _
            (depgroup_is_satisfied_ends down limit g v true deps h) (λ sat q. cc))
      | inr f ↦ rw f (λ q. cc)
    ]

start-NotDeep :
    (up down : ℕ → ℕ) (g : Graph) (limit depth v reason : ℕ)
    → RanksUp up g
    → Ranks down g
    → ((w : ℕ) → down w < limit)
    → up v < depth
    → NotDeep g (vtx_notify_start limit depth v reason)
unfolding vtx_notify_start vtx_dependents_do notify_start_inst vtx_inst_can_come_up
start-NotDeep up down g limit zero v reason ranks deps all h e p = absurd (omega arith)
start-NotDeep up down g limit (suc depth) v reason ranks deps all h e p =
    let call = λ (w : ℕ).
      vtx_notify_start limit depth w (restart_on_code (vertex_at e.graph v).restart_on) in
    let smaller =
      subst (λ x. All (λ it. up it.to < up v) (vertex_at x v).dependents) (sym p) (ranks v) in
    (
      go (vertex_at e.graph v).type
          (each_edge-NotDeep g call (vertex_at e.graph v).dependents
            (All-map (λ it. up it.to < up v) (λ it. NotDeep g (call it.to))
              (vertex_at e.graph v).dependents
              (λ it lt.
                start-NotDeep up down g limit depth it.to _ ranks deps all (omega (arith, lt, h)))
              smaller)
            e p).0,
      λ e' q. (vtx_notify_start_lem limit (suc depth) v reason e e' q).graph ∙ p,
    )
  where
    go :
        (t : VertexType)
        → vtx_dependents_do v
            (λ w. vtx_notify_start limit depth w (restart_on_code (vertex_at e.graph v).restart_on))
            e
          ≢ too_deep
        → elim t [
          | v_inst ↦ notify_start_inst limit v e
          | v_svc ↦
              vtx_dependents_do v
                (λ w.
                  vtx_notify_start limit depth w (restart_on_code (vertex_at e.graph v).restart_on))
                e
          | v_depgroup ↦
              vtx_dependents_do v
                (λ w.
                  vtx_notify_start limit depth w (restart_on_code (vertex_at e.graph v).restart_on))
                e
        ]
          ≢ too_deep
    go v_inst k =
        >>=-ne-too_deep (vtx_inst_can_come_up limit e.graph v) _
          (can-NotDeep down limit e.graph v (subst (Ranks down) (sym p) deps) (all v)) (λ can q. cc)
    go v_svc k = k
    go v_depgroup k = k

-- With ranks for the dependents and for the dependencies, passing on that a vertex went up is not cut
-- off at a depth above the rank of the vertex among the dependents, when the depth of the
-- satisfiability logic is above all ranks among the dependencies: it returns, or stops at an assert.
pub vtx_notify_start_ends :
    (up down : ℕ → ℕ) (limit depth v reason : ℕ) (e : Engine)
    → RanksUp up e.graph
    → Ranks down e.graph
    → ((w : ℕ) → down w < limit)
    → up v < depth
    → vtx_notify_start limit depth v reason e ≢ too_deep
vtx_notify_start_ends up down limit depth v reason e ranks deps all h =
    (start-NotDeep up down e.graph limit depth v reason ranks deps all h e refl).0
