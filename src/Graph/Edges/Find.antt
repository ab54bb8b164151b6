-- ===== src/Graph/Edges/Find.antt =====
-- vtx_find_by_path and vtx_find_or_add: each path has one vertex, and it is the one that is found.
use e_com_init.Common.{
  ℕ, zero, suc, ◌+◌, ◌≤◌, ◌<◌, ◌≡◌, refl, sym, ap, ◌∙◌, inl, inr, true, false, Option, none, some,
  List, [], ◌∷◌, ◌++◌, length, arith, All, Bool-cases, All-map, All-get_or, length-append,
  get_or-append_left, get_or-append_end,
}
use native.Mathlib.Decide.{dec_lt}
use mathlib.Core.Bool.{false≢true}
use e_com_init.S16List.{list_find}
use e_com_init.S16List.Laws.{list_add-eq-append, list_find-some, list_find-none}
use e_com_init.Service.Types.{S16Path, DependencyGroupType, RestartOn}
use e_com_init.Service.Paths.{path_equal, path_equal_iff, path_equal_refl, path_equal-copy}
use e_com_init.Graph.Types.{Edge, Vertex, VertexType, Graph, vertex_at, null_vertex}
use e_com_init.Graph.Edges.{match_vertex_by_path, vtx_find_by_path, vtx_find_or_add, new_vertex}
use e_com_init.Graph.Edges.WellFormed.{IsWellFormed, EdgesFit}

path_equal_sym : (a b : S16Path) → path_equal a b ≡ true → path_equal b a ≡ true
path_equal_sym a b h =
    let (svc, inst) = (path_equal_iff a b).0 h in (path_equal_iff b a).1 (sym svc, sym inst)

pub path_equal_trans :
    (a b c : S16Path) → path_equal a b ≡ true → path_equal b c ≡ true → path_equal a c ≡ true
path_equal_trans a b c h k =
    let (svc, inst) = (path_equal_iff a b).0 h in
    let (svc', inst') = (path_equal_iff b c).0 k in
    (path_equal_iff a c).1 (svc ∙ svc', inst ∙ inst')

-- In a well-formed graph the vertex of a path is found.
pub vtx_find_by_path_lem :
    (g : Graph) (v : ℕ) (path : S16Path)
    → IsWellFormed g
    → v < length g
    → path_equal (vertex_at g v).path path ≡ true
    → vtx_find_by_path g path ≡ some v
unfolding vtx_find_by_path match_vertex_by_path
vtx_find_by_path_lem g v path wf h e = go _ refl
  where
    go :
        (o : Option ℕ)
        → list_find g (λ x. path_equal x.path path) ≡ o
        → list_find g (λ x. path_equal x.path path) ≡ some v
    go none p =
        let miss =
          All-get_or (λ x. path_equal x.path path ≡ false) g v null_vertex h
            (list_find-none g _ p) in
        absurd (unfold vertex_at in cc)
    go (some w) p =
        let (lt, hit) = list_find-some g _ w null_vertex p in
        let same =
          wf.distinct w v lt h
            (unfold vertex_at in path_equal_trans _ path _ hit (path_equal_sym _ path e)) in
        p ∙ ap some same

module _ (g : Graph) (x : Vertex) where
  vertex_at-append_left : (v : ℕ) → v < length g → vertex_at (g ++ x ∷ []) v ≡ vertex_at g v
  unfolding vertex_at
  vertex_at-append_left v h = get_or-append_left g (x ∷ []) v null_vertex h

  vertex_at-append_end : vertex_at (g ++ x ∷ []) (length g) ≡ x
  unfolding vertex_at
  vertex_at-append_end = get_or-append_end g x null_vertex

vertex_at-beyond : (g : Graph) (v : ℕ) → length g ≤ v → vertex_at g v ≡ null_vertex
unfolding vertex_at
vertex_at-beyond [] v h = refl
vertex_at-beyond (x ∷ g) zero h = absurd (omega arith)
vertex_at-beyond (x ∷ g) (suc v) h = vertex_at-beyond g v (omega arith)

-- A vertex with no edges at the end: elsewhere the edges are as before.
added_edges :
    (g : Graph) (x : Vertex) (v : ℕ)
    → x.dependencies ≡ []
    → x.dependents ≡ []
    → ((vertex_at (g ++ x ∷ []) v).dependencies ≡ (vertex_at g v).dependencies)
      × ((vertex_at (g ++ x ∷ []) v).dependents ≡ (vertex_at g v).dependents)
unfolding vertex_at
added_edges [] x zero d e = (d, e)
added_edges [] x (suc v) d e = (refl, refl)
added_edges (y ∷ g) x zero d e = (refl, refl)
added_edges (y ∷ g) x (suc v) d e = added_edges g x v d e

EdgesFit-grow : (n m v : ℕ) (es : List Edge) → n ≤ m → EdgesFit n v es → EdgesFit m v es
EdgesFit-grow n m v es h =
    All-map (λ e. (e.from ≡ v) × (e.to < n)) (λ e. (e.from ≡ v) × (e.to < m)) es
      (λ e p. (p.0, omega arith))

append-IsWellFormed :
    (g : Graph) (x : Vertex)
    → IsWellFormed g
    → x.dependencies ≡ []
    → x.dependents ≡ []
    → All (λ y. path_equal y.path x.path ≡ false) g
    → IsWellFormed (g ++ x ∷ [])
append-IsWellFormed g x wf d e fresh = record {
  dependencies_fit = λ v.
      rw ((added_edges g x v d e).0)
        (EdgesFit-grow (length g) (length (g ++ x ∷ [])) v _ longer (wf.dependencies_fit v));
  dependents_fit = λ v.
      rw ((added_edges g x v d e).1)
        (EdgesFit-grow (length g) (length (g ++ x ∷ [])) v _ longer (wf.dependents_fit v));
  mirror = λ v w. rw ((added_edges g x v d e).0, (added_edges g x w d e).1) (wf.mirror v w);
  distinct = λ v w hv hw p. one v w (omega (arith, size)) (omega (arith, size)) p;
}
  where
    size : length (g ++ x ∷ []) ≡ length g + 1
    size = length-append g (x ∷ [])

    longer : length g ≤ length (g ++ x ∷ [])
    longer = omega (arith, size)

    clash : (v : ℕ) → v < length g → ¬ (path_equal (vertex_at g v).path x.path ≡ true)
    clash v h p =
        let miss = All-get_or (λ y. path_equal y.path x.path ≡ false) g v null_vertex h fresh in
        unfold vertex_at in cc

    one :
        (v w : ℕ)
        → v ≤ length g
        → w ≤ length g
        → path_equal (vertex_at (g ++ x ∷ []) v).path (vertex_at (g ++ x ∷ []) w).path ≡ true
        → v ≡ w
    one v w hv hw p = elim (dec_lt v (length g)) [
      | yes a ↦ elim (dec_lt w (length g)) [
        | yes b ↦
            wf.distinct v w a b
              (rw (vertex_at-append_left g x v a, vertex_at-append_left g x w b) at p)
        | no b ↦
            let end : w ≡ length g = omega arith in
            absurd
              (clash v a (rw (end, vertex_at-append_left g x v a, vertex_at-append_end g x) at p))
      ]
      | no a ↦ elim (dec_lt w (length g)) [
        | yes b ↦
            let end : v ≡ length g = omega arith in
            absurd (
              clash w b (
                path_equal_sym _ _
                  (rw (end, vertex_at-append_left g x w b, vertex_at-append_end g x) at p)))
        | no b ↦ omega arith
      ]
    ]

-- What vtx_find_or_add promises of the vertex and the graph that it returns.
pub record IsFoundOrAdded (g : Graph) (path : S16Path) (r : ℕ × Graph) : Type 0 where
  pub well_formed : IsWellFormed r.1
  pub in_graph : r.0 < length r.1
  pub has_path : path_equal (vertex_at r.1 r.0).path path ≡ true
  pub no_smaller : length g ≤ length r.1
  pub kept : (w : ℕ) → w < length g → vertex_at r.1 w ≡ vertex_at g w

-- vtx_find_or_add returns the vertex of the path, old or new, in a graph that is well-formed and in
-- which all earlier vertices are what they were.
pub vtx_find_or_add_lem :
    (g : Graph) (path : S16Path) (type : VertexType) (dg_type : DependencyGroupType)
    (restart_on : RestartOn)
    → IsWellFormed g
    → IsFoundOrAdded g path (vtx_find_or_add g path type dg_type restart_on)
unfolding vtx_find_or_add
vtx_find_or_add_lem g path type dg_type restart_on wf = go _ refl
  where
    x : Vertex
    x = new_vertex path type dg_type restart_on

    copied : path_equal x.path path ≡ true
    copied = path_equal-copy path path ∙ path_equal_refl path

    fresh :
        list_find g (λ y. match_vertex_by_path y path) ≡ none
        → All (λ y. path_equal y.path x.path ≡ false) g
    fresh p =
        All-map (λ y. match_vertex_by_path y path ≡ false) (λ y. path_equal y.path x.path ≡ false) g
          (λ y miss. differ y (unfold match_vertex_by_path in miss)) (list_find-none g _ p)
      where
        differ : (y : Vertex) → path_equal y.path path ≡ false → path_equal y.path x.path ≡ false
        differ y miss = elim (Bool-cases (path_equal y.path x.path)) [
          | inl hit ↦
              absurd (false≢true (sym miss ∙ path_equal_trans y.path x.path path hit copied))
          | inr ok ↦ ok
        ]

    added :
        list_find g (λ y. match_vertex_by_path y path) ≡ none
        → IsFoundOrAdded g path (length g, g ++ x ∷ [])
    added p = record {
      well_formed = append-IsWellFormed g x wf refl refl (fresh p);
      in_graph = omega (arith, length-append g (x ∷ []));
      has_path = rw (vertex_at-append_end g x) copied;
      no_smaller = omega (arith, length-append g (x ∷ []));
      kept = vertex_at-append_left g x;
    }

    go :
        (o : Option ℕ)
        → vtx_find_by_path g path ≡ o
        → IsFoundOrAdded g path (vtx_find_or_add g path type dg_type restart_on)
    go (some v) p =
        let (lt, hit) =
          list_find-some g (λ y. match_vertex_by_path y path) v null_vertex
            (unfold vtx_find_by_path in p) in
        rw (p, vtx_find_or_add)
          (record {
            well_formed = wf;
            in_graph = lt;
            has_path = unfold vertex_at match_vertex_by_path in hit;
            no_smaller = omega arith;
            kept = λ w h. refl;
          })
    go none p =
        rw (p, vtx_find_or_add) (rw (list_add-eq-append g x) (added (unfold vtx_find_by_path in p)))
