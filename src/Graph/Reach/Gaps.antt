-- ===== src/Graph/Reach/Gaps.antt =====
-- Where the cycle check says something else than whether there is a walk.
use e_com_init.Common.{
  ℕ, zero, suc, ◌≡◌, ◌≢◌, refl, ap, ◌∙◌, ◌⊎◌, inl, inr, Bool, true, false, List, [], ◌∷◌, ◌==◌,
  arith, Bool-cases,
}
use e_com_init.Common.Res.{Res, ok, >>=-eq-ok}
use e_com_init.S16List.{list_add, list_lpush, list_size, list_empty}
use e_com_init.Service.Types.{exclude_all}
use e_com_init.Graph.Types.{Edge, Graph, vertex_at}
use e_com_init.Graph.Reach.{
  Search, has_seen, is_exclude_all, search_each, push_if_found, search_deeper, search_vertex,
  vtx_is_reachable_internal, vtx_is_reachable, vtx_dependency_add,
}

-- A dependency at which the search stops: one that was seen before, or an exclude-all group.
abbrev pub Stops : Graph → List ℕ → ℕ → Type 0
Stops g seen w =
    (has_seen seen w ≡ true) ⊎ (has_seen seen w ≡ false) × ((vertex_at g w).dg_type ≡ exclude_all)

search_vertex-Stops :
    (call : ℕ → Search → Res (Bool × Search)) (g : Graph) (to w : ℕ) (s : Search)
    → Stops g s.seen w
    → (s' : Search) × (search_vertex call g to w s ≡ ok (false, s')) × (s'.path_to ≡ s.path_to)
unfolding search_vertex
search_vertex-Stops call g to w s (inl seen) = (s, rw seen, refl)
search_vertex-Stops call g to w s (inr (new, group)) =
    (record s { seen = list_add s.seen w }, rw new (rw group), refl)

search_each_first :
    (call : ℕ → Search → Res (Bool × Search)) (it : Edge) (rest : List Edge) (s s' : Search)
    → call it.to s ≡ ok (false, s')
    → search_each call (it ∷ rest) s ≡ ok (false, s')
unfolding search_each
search_each_first call it rest s s' e = rw e

search_vertex_enters :
    (call : ℕ → Search → Res (Bool × Search)) (g : Graph) (to v : ℕ) (s : Search)
    → has_seen s.seen v ≡ false
    → is_exclude_all (vertex_at g v).dg_type ≡ false
    → v ≢ to
    → search_vertex call g to v s ≡ search_deeper call g v (record s { seen = list_add s.seen v })
unfolding search_vertex
search_vertex_enters call g to v s new kind ne =
    let differ : (v == to) ≡ false = ground arith in rw (new, kind, differ)

search_deeper_first :
    (call : ℕ → Search → Res (Bool × Search)) (g : Graph) (v : ℕ) (it : Edge) (rest : List Edge)
    (s s' : Search)
    → (vertex_at g v).dependencies ≡ it ∷ rest
    → call it.to s ≡ ok (false, s')
    → search_deeper call g v s ≡ ok (false, record s' { path_to = push_if_found v s'.path_to })
unfolding search_deeper
search_deeper_first call g v it rest s s' deps e = rw (deps, search_each_first call it rest s s' e)

push_nothing : (v : ℕ) → push_if_found v [] ≡ []
unfolding push_if_found list_size
push_nothing v = refl

-- Where the first dependency of a vertex was seen before, or is an exclude-all group, the search of
-- the vertex ends there with no path found, whatever its other dependencies lead to.
pub search_gives_up :
    (depth : ℕ) (g : Graph) (to v : ℕ) (seen : List ℕ) (it : Edge) (rest : List Edge)
    → has_seen seen v ≡ false
    → is_exclude_all (vertex_at g v).dg_type ≡ false
    → v ≢ to
    → (vertex_at g v).dependencies ≡ it ∷ rest
    → Stops g (list_add seen v) it.to
    → (s' : Search) × (vtx_is_reachable_internal
          (suc (suc depth))
          g
          to
          v
          (record { seen = seen; path_to = [] })
        ≡ ok (false, s'))
      × (s'.path_to ≡ [])
unfolding vtx_is_reachable_internal
search_gives_up depth g to v seen it rest new kind ne deps stop =
    let call = vtx_is_reachable_internal (suc depth) g to in
    let start : Search = record { seen = seen; path_to = [] } in
    let marked : Search = record { seen = list_add seen v; path_to = [] } in
    let (s', e, same) =
      search_vertex-Stops (vtx_is_reachable_internal depth g to) g to it.to marked stop in
    (
      record s' { path_to = push_if_found v s'.path_to },
      search_vertex_enters call g to v start new kind ne
          ∙ search_deeper_first call g v it rest marked s' deps e,
      ap (push_if_found v) same ∙ push_nothing v,
    )

abbrev IsFull : List ℕ → Type 0
IsFull path_to = list_empty path_to ≡ false

module _ (call : ℕ → Search → Res (Bool × Search))
    (full : (v : ℕ) (s : Search) (r : Bool × Search)
      → IsFull s.path_to
      → call v s ≡ ok r
      → IsFull r.1.path_to) where
  search_each-IsFull :
      (es : List Edge) (s : Search) (r : Bool × Search)
      → IsFull s.path_to
      → search_each call es s ≡ ok r
      → IsFull r.1.path_to
  unfolding search_each
  search_each-IsFull [] s r p h = ground arith
  search_each-IsFull (it ∷ es) s r p h =
      let ((cont, s'), e, k) = >>=-eq-ok (call it.to s) _ h in
      let p' = full it.to s (cont, s') p e in
      elim (Bool-cases cont) [
        | inl c ↦ search_each-IsFull es s' r p' (rw c at k)
        | inr c ↦ ground arith
      ]

  push-IsFull : (v : ℕ) (p : List ℕ) → IsFull p → IsFull (push_if_found v p)
  unfolding push_if_found list_empty list_lpush
  push-IsFull v [] h = cc
  push-IsFull v (x ∷ p) h = ground arith

  search_deeper-IsFull :
      (g : Graph) (v : ℕ) (s : Search) (r : Bool × Search)
      → IsFull s.path_to
      → search_deeper call g v s ≡ ok r
      → IsFull r.1.path_to
  unfolding search_deeper
  search_deeper-IsFull g v s r p h =
      let ((cont, s'), e, k) = >>=-eq-ok (search_each call (vertex_at g v).dependencies s) _ h in
      let e' : r ≡ (cont, record s' { path_to = push_if_found v s'.path_to }) = cc in
      rw e' (
        push-IsFull v s'.path_to (search_each-IsFull (vertex_at g v).dependencies s (cont, s') p e))

  search_vertex-IsFull :
      (g : Graph) (to v : ℕ) (s : Search) (r : Bool × Search)
      → IsFull s.path_to
      → search_vertex call g to v s ≡ ok r
      → IsFull r.1.path_to
  unfolding search_vertex list_lpush list_empty
  search_vertex-IsFull g to v s r p h =
      ground (arith, search_deeper-IsFull g v (record s { seen = list_add s.seen v }) r p)

internal-IsFull :
    (depth : ℕ) (g : Graph) (to v : ℕ) (s : Search) (r : Bool × Search)
    → IsFull s.path_to
    → vtx_is_reachable_internal depth g to v s ≡ ok r
    → IsFull r.1.path_to
unfolding vtx_is_reachable_internal
internal-IsFull zero g to v s r p h = cc
internal-IsFull (suc depth) g to v s r p h =
    search_vertex-IsFull (vtx_is_reachable_internal depth g to)
      (λ w t q. internal-IsFull depth g to w t q) g to v s r p h

-- pathTo is not emptied between searches: once it holds a path, each further dependency is reported
-- as a cycle and left out, whether it closes one or not.
pub vtx_dependency_add_full :
    (depth : ℕ) (g g' : Graph) (v to x err : ℕ) (path_to path_to' : List ℕ)
    → vtx_dependency_add depth g v to (x ∷ path_to) ≡ ok (err, g', path_to')
    → (err ≡ 1) × (g' ≡ g)
unfolding vtx_dependency_add vtx_is_reachable
vtx_dependency_add_full depth g g' v to x err path_to path_to' h =
    let start : Search = record { seen = []; path_to = x ∷ path_to } in
    let ((found, p), e, k) = >>=-eq-ok (vtx_is_reachable depth g to v (x ∷ path_to)) _ h in
    let ((cont, s), e', k') = >>=-eq-ok (vtx_is_reachable_internal depth g v to start) _ e in
    let full : IsFull s.path_to =
      internal-IsFull depth g v to start (cont, s) (unfold list_empty in refl) e' in
    let yes_found : found ≡ true = ground arith in (ground arith, ground arith)
