-- ===== src/Graph/Setup/Grows.antt =====
-- Changes that keep a graph well-formed and lose no vertex: marks, edges and dependencies.
use e_com_init.Common.{
  ℕ, ◌≤◌, ◌<◌, ◌≡◌, refl, subst, ap, ◌∙◌, inl, inr, some, List, ◌==◌, ==_iff, length, arith,
  Bool-cases,
}
use e_com_init.Common.Res.{ok, >>=-eq-ok}
use e_com_init.S16List.Laws.{list_find-some}
use e_com_init.Service.Types.{S16Path}
use e_com_init.Graph.Types.{
  Vertex, Graph, vertex_at, modify, vertex_at-modify, length-modify, null_vertex,
}
use e_com_init.Graph.Edges.{vtx_edge_add, match_vertex_by_path, vtx_find_by_path}
use e_com_init.Graph.Edges.WellFormed.{
  IsWellFormed, edge_add-IsWellFormed, length-edge_add, vertex_at-edge_add,
}
use e_com_init.Graph.Edges.Find.{IsFoundOrAdded}
use e_com_init.Graph.Reach.{vtx_is_reachable, vtx_dependency_add}

-- The later graph is well-formed and has every vertex of the earlier one, with its path.
pub record Grows (g g' : Graph) : Type 0 where
  pub well_formed : IsWellFormed g'
  pub no_smaller : length g ≤ length g'
  pub kept : (w : ℕ) → w < length g → (vertex_at g' w).path ≡ (vertex_at g w).path

pub Grows-refl : (g : Graph) → IsWellFormed g → Grows g g
Grows-refl g wf = record { well_formed = wf; no_smaller = omega arith; kept = λ w hw. refl }

pub Grows-trans : (a b c : Graph) → Grows a b → Grows b c → Grows a c
Grows-trans a b c h k = record {
  well_formed = k.well_formed;
  no_smaller = omega (arith, h.no_smaller, k.no_smaller);
  kept = λ w hw. k.kept w (omega (arith, hw, h.no_smaller)) ∙ h.kept w hw;
}

-- A change of a vertex that is none of its path and edges.
abbrev pub Marks : (Vertex → Vertex) → Type 0
Marks f =
    (x : Vertex)
    → ((f x).path ≡ x.path)
      × ((f x).dependencies ≡ x.dependencies)
      × ((f x).dependents ≡ x.dependents)

pub marked :
    (g : Graph) (v w : ℕ) (f : Vertex → Vertex)
    → Marks f
    → v < length g
    → ((vertex_at (modify g v f) w).path ≡ (vertex_at g w).path)
      × ((vertex_at (modify g v f) w).dependencies ≡ (vertex_at g w).dependencies)
      × ((vertex_at (modify g v f) w).dependents ≡ (vertex_at g w).dependents)
marked g v w f m h = rw (vertex_at-modify g v w f h) (elim (Bool-cases (v == w)) [
  | inl p ↦
      let q : v ≡ w = (==_iff v w).0 p in
      rw p (
        subst
          (λ t.
            ((f (vertex_at g v)).path ≡ (vertex_at g t).path)
            × ((f (vertex_at g v)).dependencies ≡ (vertex_at g t).dependencies)
            × ((f (vertex_at g v)).dependents ≡ (vertex_at g t).dependents))
          q (m (vertex_at g v)))
  | inr p ↦ rw p (refl, refl, refl)
])

pub mark-Grows :
    (g : Graph) (v : ℕ) (f : Vertex → Vertex)
    → Marks f
    → v < length g
    → IsWellFormed g
    → Grows g (modify g v f)
mark-Grows g v f m h wf = record {
  well_formed = record {
    dependencies_fit =
        λ w. rw ((marked g v w f m h).1, length-modify g v f) (wf.dependencies_fit w);
    dependents_fit = λ w. rw ((marked g v w f m h).2, length-modify g v f) (wf.dependents_fit w);
    mirror = λ x y. rw ((marked g v x f m h).1, (marked g v y f m h).2) (wf.mirror x y);
    distinct = λ x y hx hy p.
        wf.distinct x y (rw (length-modify g v f) at hx) (rw (length-modify g v f) at hy)
          (rw ((marked g v x f m h).0, (marked g v y f m h).0) at p);
  };
  no_smaller = omega (arith, length-modify g v f);
  kept = λ w hw. (marked g v w f m h).0;
}

pub edge-Grows :
    (g : Graph) (v to : ℕ)
    → v < length g
    → to < length g
    → IsWellFormed g
    → Grows g (vtx_edge_add g v to)
edge-Grows g v to hv ht wf = record {
  well_formed = edge_add-IsWellFormed g v to hv ht wf;
  no_smaller = omega (arith, length-edge_add g v to hv ht);
  kept = λ w hw. ap (λ x. x.path) (vertex_at-edge_add g v to hv ht w);
}

pub found-Grows :
    (g : Graph) (path : S16Path) (r : ℕ × Graph) → IsFoundOrAdded g path r → Grows g r.1
found-Grows g path r made = record {
  well_formed = made.well_formed;
  no_smaller = made.no_smaller;
  kept = λ w hw. ap (λ x. x.path) (made.kept w hw);
}

pub dependency-Grows :
    (depth : ℕ) (g g' : Graph) (v to err : ℕ) (p p' : List ℕ)
    → v < length g
    → to < length g
    → IsWellFormed g
    → vtx_dependency_add depth g v to p ≡ ok (err, g', p')
    → Grows g g'
unfolding vtx_dependency_add
dependency-Grows depth g g' v to err p p' hv ht wf e =
    let ((found, path), a, b) = >>=-eq-ok (vtx_is_reachable depth g to v p) _ e in
    elim (Bool-cases found) [
      | inl t ↦
          let out = rw t at b in let same : g ≡ g' = cc in subst (Grows g) same (Grows-refl g wf)
      | inr f ↦
          let out = rw f at b in
          let same : vtx_edge_add g v to ≡ g' = cc in
          subst (Grows g) same (edge-Grows g v to hv ht wf)
    ]

pub find-lt : (g : Graph) (path : S16Path) (v : ℕ) → vtx_find_by_path g path ≡ some v → v < length g
unfolding vtx_find_by_path
find-lt g path v e = (list_find-some g (λ y. match_vertex_by_path y path) v null_vertex e).0
