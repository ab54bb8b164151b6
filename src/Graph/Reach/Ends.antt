-- ===== src/Graph/Reach/Ends.antt =====
-- The cycle check ends: each call marks a vertex, and no vertex is entered twice.
use e_com_init.Common.{
  ℕ, zero, suc, ◌+◌, ◌≤◌, ◌<◌, ◌≡◌, refl, subst, inl, inr, Bool, true, false, List, [], ◌∷◌,
  if◌then◌else◌, ◌==◌, ==_iff, length, arith, All, Bool-cases, All-map,
}
use e_com_init.Common.Res.{Res, ok}
use e_com_init.S16List.{list_add, list_lpush, list_empty, list_find_eq}
use e_com_init.S16List.Laws.{list_find-cons}
use e_com_init.Graph.Types.{Edge, Graph, vertex_at}
use e_com_init.Graph.Edges.{vtx_edge_add}
use e_com_init.Graph.Edges.WellFormed.{IsWellFormed}
use e_com_init.Graph.Reach.{
  Search, has_seen, is_exclude_all, search_each, push_if_found, search_deeper, search_vertex,
  vtx_is_reachable_internal, vtx_is_reachable, vtx_dependency_add,
}

has_seen-cons :
    (x : ℕ) (xs : List ℕ) (w : ℕ) → has_seen (x ∷ xs) w ≡ (if x == w then true else has_seen xs w)
unfolding has_seen list_find_eq
has_seen-cons x xs w = ground (arith, list_find-cons x xs (λ y. y == w))

pub has_seen-add :
    (seen : List ℕ) (v w : ℕ)
    → has_seen (list_add seen v) w ≡ (if v == w then true else has_seen seen w)
unfolding list_add
has_seen-add [] v w = has_seen-cons v [] w
has_seen-add (x ∷ seen) v w =
    ground
      (arith, has_seen-cons x (list_add seen v) w, has_seen-cons x seen w, has_seen-add seen v w)

-- The vertices below n that are not marked.
pub unseen : ℕ → List ℕ → ℕ
unseen zero seen = 0
unseen (suc k) seen = (if has_seen seen k then 0 else 1) + unseen k seen

unseen-add-le : (n : ℕ) (seen : List ℕ) (v : ℕ) → unseen n (list_add seen v) ≤ unseen n seen
unfolding unseen
unseen-add-le zero seen v = omega arith
unseen-add-le (suc n) seen v = ground (arith, has_seen-add seen v n, unseen-add-le n seen v)

unseen-add-lt :
    (n : ℕ) (seen : List ℕ) (v : ℕ)
    → v < n
    → has_seen seen v ≡ false
    → unseen n (list_add seen v) < unseen n seen
unfolding unseen
unseen-add-lt zero seen v h e = absurd (omega arith)
unseen-add-lt (suc n) seen v h e = elim (Bool-cases (v == n)) [
  | inl p ↦
      let q : v ≡ n = (==_iff v n).0 p in
      let f : has_seen seen n ≡ false = subst (λ t. has_seen seen t ≡ false) q e in
      ground (arith, has_seen-add seen v n, unseen-add-le n seen v)
  | inr p ↦ ground (arith, has_seen-add seen v n, unseen-add-lt n seen v)
]

unseen-le : (n : ℕ) (seen : List ℕ) → unseen n seen ≤ n
unfolding unseen
unseen-le zero seen = omega arith
unseen-le (suc n) seen = ground (arith, unseen-le n seen)

-- The call returns, and has marked no fewer vertices.
abbrev Ends : ℕ → Search → Res (Bool × Search) → Type 0
Ends n s res = (r : Bool × Search) × (res ≡ ok r) × (unseen n r.1.seen ≤ unseen n s.seen)

module _ (g : Graph) (to depth : ℕ) (call : ℕ → Search → Res (Bool × Search))
    (ends : (v : ℕ) (s : Search)
      → v < length g
      → unseen (length g) s.seen < depth
      → Ends (length g) s (call v s)) where
  search_each-Ends :
      (es : List Edge) (s : Search)
      → All (λ e. e.to < length g) es
      → unseen (length g) s.seen < depth
      → Ends (length g) s (search_each call es s)
  unfolding search_each
  search_each-Ends [] s fit h = ((true, s), refl, omega arith)
  search_each-Ends (it ∷ es) s fit h =
      let ((cont, s'), e, fewer) = ends it.to s fit.0 h in
      let (r, e', fewer') = search_each-Ends es s' fit.1 (omega arith) in
      elim (Bool-cases cont) [
        | inl c ↦ (r, rw e (rw c e'), omega arith)
        | inr c ↦ ((false, s'), rw e (rw c), fewer)
      ]

  search_vertex-Ends :
      (v : ℕ) (s : Search)
      → IsWellFormed g
      → v < length g
      → unseen (length g) s.seen < suc depth
      → Ends (length g) s (search_vertex call g to v s)
  unfolding search_vertex search_deeper
  search_vertex-Ends v s wf lt h = elim (Bool-cases (has_seen s.seen v)) [
    | inl a ↦ ((false, s), rw a, omega arith)
    | inr a ↦
        let marked = record s { seen = list_add s.seen v } in
        let less = unseen-add-lt (length g) s.seen v lt a in
        elim (Bool-cases (is_exclude_all (vertex_at g v).dg_type)) [
          | inl b ↦ ((false, marked), rw (a, b), omega arith)
          | inr b ↦ elim (Bool-cases (v == to)) [
            | inl c ↦ (
              (false, record marked { path_to = list_lpush s.path_to v }),
              rw (a, b, c),
              omega arith,
            )
            | inr c ↦
                let ((cont, s'), e, fewer) =
                  search_each-Ends (vertex_at g v).dependencies marked fits (omega arith) in
                (
                  (cont, record s' { path_to = push_if_found v s'.path_to }),
                  rw (a, b, c) (rw e),
                  omega arith,
                )
          ]
        ]
  ]
    where
      fits : All (λ e. e.to < length g) (vertex_at g v).dependencies
      fits =
          All-map (λ e. (e.from ≡ v) × (e.to < length g)) (λ e. e.to < length g)
            (vertex_at g v).dependencies (λ e p. p.1) (wf.dependencies_fit v)

internal-Ends :
    (depth : ℕ) (g : Graph) (to v : ℕ) (s : Search)
    → IsWellFormed g
    → v < length g
    → unseen (length g) s.seen < depth
    → Ends (length g) s (vtx_is_reachable_internal depth g to v s)
unfolding vtx_is_reachable_internal
internal-Ends zero g to v s wf lt h = absurd (omega arith)
internal-Ends (suc depth) g to v s wf lt h =
    search_vertex-Ends g to depth (vtx_is_reachable_internal depth g to)
      (λ w t lt' h'. internal-Ends depth g to w t wf lt' h') v s wf lt h

-- In a well-formed graph the search returns at any depth above the number of vertices, also if the
-- dependencies are cyclic.
pub vtx_is_reachable_ends :
    (depth : ℕ) (g : Graph) (from to : ℕ) (path_to : List ℕ)
    → IsWellFormed g
    → from < length g
    → length g < depth
    → (r : Bool × List ℕ) × (vtx_is_reachable depth g from to path_to ≡ ok r)
unfolding vtx_is_reachable
vtx_is_reachable_ends depth g from to path_to wf lt h =
    let start : Search = record { seen = []; path_to = path_to } in
    let ((cont, s), e, fewer) =
      internal-Ends depth g to from start wf lt (omega (arith, unseen-le (length g) [])) in
    ((if list_empty s.path_to then false else true, s.path_to), rw e)

pub vtx_dependency_add_ends :
    (depth : ℕ) (g : Graph) (v to : ℕ) (path_to : List ℕ)
    → IsWellFormed g
    → to < length g
    → length g < depth
    → (r : ℕ × Graph × List ℕ) × (vtx_dependency_add depth g v to path_to ≡ ok r)
unfolding vtx_dependency_add
vtx_dependency_add_ends depth g v to path_to wf lt h =
    let ((found, p), e) = vtx_is_reachable_ends depth g to v path_to wf lt h in
    (if found then (1, g, p) else (0, vtx_edge_add g v to, p), rw e)
