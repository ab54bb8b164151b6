-- ===== src/Graph/Edges/WellFormed.antt =====
-- The invariant of the graph: edges start at the vertex that holds them and end in the graph, the
-- list of dependents mirrors that of dependencies, and no two vertices have one path.
use e_com_init.Common.{
  ℕ, ◌+◌, ◌<◌, ◌≡◌, ◌∙◌, inl, inr, true, List, [], ◌∷◌, if◌then◌else◌, ◌==◌, ==_iff, length, arith,
  All, Bool-cases,
}
use e_com_init.S16List.{list_add}
use e_com_init.Service.Paths.{path_equal}
use e_com_init.Graph.Types.{Edge, Vertex, Graph, modify, vertex_at, vertex_at-modify, length-modify}
use e_com_init.Graph.Edges.{edge_new, vtx_edge_add, add_dependency, add_dependent}

-- How many edges of a list lead to a vertex.
abbrev pub count_to : ℕ → List Edge → ℕ
count_to w [] = 0
count_to w (e ∷ es) = (if e.to == w then 1 else 0) + count_to w es

abbrev pub EdgesFit : ℕ → ℕ → List Edge → Type 0
EdgesFit n v = All (λ e. (e.from ≡ v) × (e.to < n))

pub record IsWellFormed (g : Graph) : Type 0 where
  pub dependencies_fit : (v : ℕ) → EdgesFit (length g) v (vertex_at g v).dependencies
  pub dependents_fit : (v : ℕ) → EdgesFit (length g) v (vertex_at g v).dependents
  pub mirror :
      (v w : ℕ) → count_to w (vertex_at g v).dependencies ≡ count_to v (vertex_at g w).dependents
  pub distinct :
      (v w : ℕ)
      → v < length g
      → w < length g
      → path_equal (vertex_at g v).path (vertex_at g w).path ≡ true
      → v ≡ w

pub count_to-add :
    (w : ℕ) (es : List Edge) (e : Edge)
    → count_to w (list_add es e) ≡ count_to w es + (if e.to == w then 1 else 0)
unfolding list_add
count_to-add w [] e = omega arith
count_to-add w (x ∷ es) e = omega (arith, count_to-add w es e)

EdgesFit-add :
    (n v : ℕ) (es : List Edge) (e : Edge)
    → EdgesFit n v es
    → e.from ≡ v
    → e.to < n
    → EdgesFit n v (list_add es e)
unfolding list_add
EdgesFit-add n v [] e h p q = ((p, q), tt)
EdgesFit-add n v (x ∷ es) e h p q = (h.0, EdgesFit-add n v es e h.1 p q)

module _ (g : Graph) (v to : ℕ) (hv : v < length g) (hto : to < length g) where
  pub length-edge_add : length (vtx_edge_add g v to) ≡ length g
  unfolding vtx_edge_add
  length-edge_add = length-modify _ to _ ∙ length-modify g v _

  -- A vertex after vtx_edge_add.
  abbrev pub edged : ℕ → Vertex → Vertex
  edged w x = record x {
    dependencies = if v == w then list_add x.dependencies (edge_new v to) else x.dependencies;
    dependents = if to == w then list_add x.dependents (edge_new to v) else x.dependents;
  }

  pub vertex_at-edge_add : (w : ℕ) → vertex_at (vtx_edge_add g v to) w ≡ edged w (vertex_at g w)
  unfolding vtx_edge_add
  vertex_at-edge_add w = ground (
    arith,
    vertex_at-modify (modify g v (add_dependency v to)) to w (add_dependent v to),
    length-modify g v (add_dependency v to),
    vertex_at-modify g v w (add_dependency v to),
  )

  pub edge_add-IsWellFormed : IsWellFormed g → IsWellFormed (vtx_edge_add g v to)
  edge_add-IsWellFormed wf = record {
    dependencies_fit = λ w. rw (vertex_at-edge_add w, length-edge_add) (fits_dependencies w);
    dependents_fit = λ w. rw (vertex_at-edge_add w, length-edge_add) (fits_dependents w);
    mirror = λ x y. rw (vertex_at-edge_add x, vertex_at-edge_add y) (mirrors x y);
    distinct = λ x y hx hy e.
        wf.distinct x y (rw length-edge_add at hx) (rw length-edge_add at hy) (same_paths x y e);
  }
    where
      fits_dependencies : (w : ℕ) → EdgesFit (length g) w (edged w (vertex_at g w)).dependencies
      fits_dependencies w = elim (Bool-cases (v == w)) [
        | inl e ↦ rw e (
            EdgesFit-add (length g) w _ _ (wf.dependencies_fit w)
              (unfold edge_new in (==_iff v w).0 e) (unfold edge_new in hto))
        | inr e ↦ rw e (wf.dependencies_fit w)
      ]

      fits_dependents : (w : ℕ) → EdgesFit (length g) w (edged w (vertex_at g w)).dependents
      fits_dependents w = elim (Bool-cases (to == w)) [
        | inl e ↦ rw e (
            EdgesFit-add (length g) w _ _ (wf.dependents_fit w)
              (unfold edge_new in (==_iff to w).0 e) (unfold edge_new in hv))
        | inr e ↦ rw e (wf.dependents_fit w)
      ]

      mirrors :
          (x y : ℕ)
          → count_to y (edged x (vertex_at g x)).dependencies
            ≡ count_to x (edged y (vertex_at g y)).dependents
      mirrors x y =
          unfold edge_new in
          ground (
            arith,
            wf.mirror x y,
            count_to-add y (vertex_at g x).dependencies (edge_new v to),
            count_to-add x (vertex_at g y).dependents (edge_new to v),
          )

      same_paths :
          (x y : ℕ)
          → path_equal
              (vertex_at (vtx_edge_add g v to) x).path
              (vertex_at (vtx_edge_add g v to) y).path
            ≡ true
          → path_equal (vertex_at g x).path (vertex_at g y).path ≡ true
      same_paths x y e = rw (vertex_at-edge_add x, vertex_at-edge_add y) at e

  -- In a well-formed graph vtx_edge_add puts the edge behind the dependencies of the vertex and its
  -- mirror behind the dependents of the other one, changes nothing else of any vertex and adds none,
  -- and the graph stays well-formed.
  pub vtx_edge_add-IsWellFormed :
      IsWellFormed g
      → IsWellFormed (vtx_edge_add g v to)
        × (length (vtx_edge_add g v to) ≡ length g)
        × ((w : ℕ) → vertex_at (vtx_edge_add g v to) w ≡ edged w (vertex_at g w))
  vtx_edge_add-IsWellFormed wf = (edge_add-IsWellFormed wf, length-edge_add, vertex_at-edge_add)
