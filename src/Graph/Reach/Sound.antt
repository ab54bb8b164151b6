-- ===== src/Graph/Reach/Sound.antt =====
-- What the cycle check finds is a walk.
use e_com_init.Common.{
  ℕ, zero, suc, ◌+◌, ◌≡◌, refl, sym, subst, ◌∙◌, ◌⊎◌, inl, inr, Bool, true, false, List, [], ◌∷◌,
  if◌then◌else◌, ◌==◌, ==_iff, arith, Bool-cases, Any, List-cases,
}
use e_com_init.Common.Res.{Res, ok, >>=-eq-ok}
use e_com_init.S16List.{list_add, list_lpush, list_size, list_empty}
use e_com_init.Graph.Types.{Edge, Graph, vertex_at}
use e_com_init.Graph.Edges.{vtx_edge_add}
use e_com_init.Graph.Reach.{
  Search, has_seen, is_exclude_all, search_each, push_if_found, search_deeper, search_vertex,
  vtx_is_reachable_internal, vtx_is_reachable, vtx_dependency_add,
}

-- v depends on w.
abbrev pub DependsOn : Graph → ℕ → ℕ → Type 0
DependsOn g v w = Any (λ e. e.to ≡ w) (vertex_at g v).dependencies

-- A list of vertices, each of which depends on the next, from one to another.
abbrev pub IsWalk : Graph → ℕ → ℕ → List ℕ → Type 0
IsWalk g v to [] = ⊥
IsWalk g v to (x ∷ []) = (x ≡ v) × (x ≡ to)
IsWalk g v to (x ∷ y ∷ p) = (x ≡ v) × DependsOn g x y × IsWalk g y to (y ∷ p)

IsWalk-starts : (g : Graph) (v to x : ℕ) (p : List ℕ) → IsWalk g v to (x ∷ p) → x ≡ v
IsWalk-starts g v to x [] h = h.0
IsWalk-starts g v to x (y ∷ p) h = h.0

-- After a call that began with an empty path: nothing was found, or a walk was, and the call says
-- that the search stops.
abbrev Outcome : Graph → ℕ → ℕ → Bool × Search → Type 0
Outcome g v to (cont, s) = (s.path_to ≡ []) ⊎ (cont ≡ false) × IsWalk g v to s.path_to

-- The same for the loop over some of a vertex's dependencies.
abbrev EachOutcome : Graph → ℕ → List Edge → Bool × Search → Type 0
EachOutcome g to es (cont, s) =
    (s.path_to ≡ []) ⊎ ((w : ℕ) × (cont ≡ false) × Any (λ e. e.to ≡ w) es × IsWalk g w to s.path_to)

push_nothing : (v : ℕ) → push_if_found v [] ≡ []
unfolding push_if_found list_size
push_nothing v = refl

push-IsWalk :
    (g : Graph) (v w to : ℕ) (p : List ℕ)
    → DependsOn g v w
    → IsWalk g w to p
    → IsWalk g v to (push_if_found v p)
unfolding push_if_found list_size list_lpush
push-IsWalk g v w to [] edge walk = absurd walk
push-IsWalk g v w to (x ∷ p) edge walk =
    let e : (list_size p + 1 == 0) ≡ false = ground arith in
    let x_is : x ≡ w = IsWalk-starts g w to x p walk in
    rw e (refl, rw x_is edge, subst (λ t. IsWalk g t to (x ∷ p)) (sym x_is) walk)

module _ (g : Graph) (to : ℕ) (call : ℕ → Search → Res (Bool × Search))
    (sound : (v : ℕ) (s : Search) (r : Bool × Search)
      → s.path_to ≡ []
      → call v s ≡ ok r
      → Outcome g v to r) where
  search_each_sound :
      (es : List Edge) (s : Search) (r : Bool × Search)
      → s.path_to ≡ []
      → search_each call es s ≡ ok r
      → EachOutcome g to es r
  unfolding search_each
  search_each_sound [] s r p h = inl (ground arith)
  search_each_sound (it ∷ es) s r p h =
      let ((cont, s'), e, k) = >>=-eq-ok (call it.to s) _ h in
      let first = sound it.to s (cont, s') p e in
      elim (Bool-cases cont) [
        | inl c ↦ elim first [
          | inl nothing ↦ elim (search_each_sound es s' r nothing (rw c at k)) [
            | inl still ↦ inl still
            | inr (w, stop, edge, walk) ↦ inr (w, stop, inr edge, walk)
          ]
          | inr (stop, walk) ↦ cc
        ]
        | inr c ↦
            let e' : r ≡ (false, s') = ground arith in
            elim first [
              | inl nothing ↦ inl (rw e' nothing)
              | inr (stop, walk) ↦ inr (it.to, rw e' refl, inl refl, rw e' walk)
            ]
      ]

  search_deeper_sound :
      (v : ℕ) (s : Search) (r : Bool × Search)
      → s.path_to ≡ []
      → search_deeper call g v s ≡ ok r
      → Outcome g v to r
  unfolding search_deeper
  search_deeper_sound v s r p h =
      let ((cont, s'), e, k) = >>=-eq-ok (search_each call (vertex_at g v).dependencies s) _ h in
      let e' : r ≡ (cont, record s' { path_to = push_if_found v s'.path_to }) = cc in
      elim (search_each_sound (vertex_at g v).dependencies s (cont, s') p e) [
        | inl nothing ↦ inl (rw e' (rw nothing (push_nothing v)))
        | inr (w, stop, edge, walk) ↦
            inr (rw e' stop, rw e' (push-IsWalk g v w to s'.path_to edge walk))
      ]

  search_vertex_sound :
      (v : ℕ) (s : Search) (r : Bool × Search)
      → s.path_to ≡ []
      → search_vertex call g to v s ≡ ok r
      → Outcome g v to r
  unfolding search_vertex
  search_vertex_sound v s r p h = elim (Bool-cases (has_seen s.seen v)) [
    | inl a ↦ inl (ground arith)
    | inr a ↦ elim (Bool-cases (is_exclude_all (vertex_at g v).dg_type)) [
      | inl b ↦ inl (ground arith)
      | inr b ↦ elim (Bool-cases (v == to)) [
        | inl c ↦
            let e : r
                ≡ (false, record s { seen = list_add s.seen v; path_to = list_lpush s.path_to v }) =
              ground arith in
            inr (rw e refl, rw e (unfold list_lpush in rw p (refl, (==_iff v to).0 c)))
        | inr c ↦
            search_deeper_sound v (record s { seen = list_add s.seen v }) r p (rw (a, b, c) at h)
      ]
    ]
  ]

internal_sound :
    (depth : ℕ) (g : Graph) (to v : ℕ) (s : Search) (r : Bool × Search)
    → s.path_to ≡ []
    → vtx_is_reachable_internal depth g to v s ≡ ok r
    → Outcome g v to r
unfolding vtx_is_reachable_internal
internal_sound zero g to v s r p h = cc
internal_sound (suc depth) g to v s r p h =
    search_vertex_sound g to (vtx_is_reachable_internal depth g to)
      (λ w t q. internal_sound depth g to w t q) v s r p h

-- A search that begins with an empty pathTo and answers yes returns a walk along dependencies from
-- the first vertex to the second; one that answers no leaves pathTo empty.
pub vtx_is_reachable_sound :
    (depth : ℕ) (g : Graph) (from to : ℕ) (path_to : List ℕ) (found : Bool)
    → vtx_is_reachable depth g from to [] ≡ ok (found, path_to)
    → if found then IsWalk g from to path_to else (path_to ≡ [])
unfolding vtx_is_reachable list_empty
vtx_is_reachable_sound depth g from to path_to found h =
    let ((cont, s), e, k) =
      >>=-eq-ok (vtx_is_reachable_internal depth g to from (record { seen = []; path_to = [] })) _
        h in
    let same : s.path_to ≡ path_to = cc in
    let out =
      internal_sound depth g to from (record { seen = []; path_to = [] }) (cont, s) refl e in
    elim (List-cases s.path_to) [
      | inl none_found ↦ let no : found ≡ false = ground arith in rw no (sym same ∙ none_found)
      | inr (x, rest, p) ↦
          let yes_found : found ≡ true = ground arith in
          elim out [
            | inl nothing ↦ absurd (cc)
            | inr (stop, walk) ↦ rw yes_found (subst (IsWalk g from to) same walk)
          ]
    ]

-- A dependency that is refused with an empty pathTo would have closed a cycle: the vertices of
-- pathTo are a walk along dependencies from the vertex depended on back to the one that depends.
-- One that is accepted is added, and pathTo stays empty.
pub vtx_dependency_add_sound :
    (depth : ℕ) (g g' : Graph) (v to err : ℕ) (path_to : List ℕ)
    → vtx_dependency_add depth g v to [] ≡ ok (err, g', path_to)
    → (err ≡ 1) × (g' ≡ g) × IsWalk g to v path_to
      ⊎ (err ≡ 0) × (g' ≡ vtx_edge_add g v to) × (path_to ≡ [])
unfolding vtx_dependency_add
vtx_dependency_add_sound depth g g' v to err path_to h =
    let ((found, p), e, k) = >>=-eq-ok (vtx_is_reachable depth g to v []) _ h in
    let out = vtx_is_reachable_sound depth g to v p found e in
    elim (Bool-cases found) [
      | inl t ↦
          let q : p ≡ path_to = ground arith in
          inl (ground arith, ground arith, subst (IsWalk g to v) q (rw t at out))
      | inr f ↦
          let q : p ≡ path_to = ground arith in
          inr (ground arith, ground arith, sym q ∙ (rw f at out))
    ]
