-- ===== src/Graph/Satisfy/Ends.antt =====
-- The recursion of the satisfiability logic ends where the dependencies are ranked, that is, where
-- they are not cyclic.
use e_com_init.Common.{ℕ, zero, suc, ◌<◌, ◌≢◌, Bool, List, [], ◌∷◌, arith, All, All-map}
use e_com_init.Common.Res.{Res, too_deep, >>=-ne-too_deep}
use e_com_init.Service.Types.{
  DependencyGroupType, require_any, require_all, optional_all, exclude_all,
}
use e_com_init.Graph.Types.{Edge, Graph, vertex_at}
use e_com_init.Graph.Satisfy.{
  Satisfied, satisfied, unsatisfied, vtx_inst_satisfies, vtx_inst_satisfies_optional,
  vtx_inst_satisfies_exclusion, vtx_satisfies, worsen, all_edges, any_edge, grouped_edge,
  grouped_edges, group_step, depgroup_is_satisfied, keep_bool,
}

-- A number for each vertex that falls along each dependency.
abbrev pub Ranks : (ℕ → ℕ) → Graph → Type 0
Ranks rank g = (v : ℕ) → All (λ e. rank e.to < rank v) (vertex_at g v).dependencies

inst_ends :
    (group : ℕ → Bool → Res Satisfied) (g : Graph) (v : ℕ) (recurse : Bool)
    → group v recurse ≢ too_deep
    → vtx_inst_satisfies group g v recurse ≢ too_deep
unfolding vtx_inst_satisfies
inst_ends group g v recurse h = ground arith

optional_ends :
    (group : ℕ → Bool → Res Satisfied) (g : Graph) (v : ℕ) (recurse : Bool)
    → group v recurse ≢ too_deep
    → vtx_inst_satisfies_optional group g v recurse ≢ too_deep
unfolding vtx_inst_satisfies_optional
optional_ends group g v recurse h = ground arith

exclusion_ends : (g : Graph) (v : ℕ) → vtx_inst_satisfies_exclusion g v ≢ too_deep
unfolding vtx_inst_satisfies_exclusion
exclusion_ends g v = ground arith

satisfies_ends :
    (group : ℕ → Bool → Res Satisfied) (g : Graph) (v : ℕ) (recurse : Bool)
    → group v recurse ≢ too_deep
    → vtx_satisfies group g v recurse ≢ too_deep
unfolding vtx_satisfies
satisfies_ends group g v recurse h = ground (arith, inst_ends group g v recurse)

all_edges_ends :
    (test : ℕ → Res Satisfied) (es : List Edge) (sat : Satisfied)
    → All (λ e. test e.to ≢ too_deep) es
    → all_edges test es sat ≢ too_deep
unfolding all_edges
all_edges_ends test [] sat h = λ e. cc
all_edges_ends test (e ∷ es) sat h =
    >>=-ne-too_deep (test e.to) _ h.0 (λ esat. all_edges_ends test es (worsen sat esat) h.1)

any_edge_ends :
    (test : ℕ → Res Satisfied) (es : List Edge) (sat : Satisfied)
    → All (λ e. test e.to ≢ too_deep) es
    → any_edge test es sat ≢ too_deep
unfolding any_edge
any_edge_ends test [] sat h = λ e. cc
any_edge_ends test (e ∷ es) sat h =
    >>=-ne-too_deep (test e.to) _ h.0
      (λ esat. ground (arith, any_edge_ends test es (keep_bool sat esat) h.1))

grouped_edges_ends :
    (g : Graph) (test : ℕ → Res Satisfied) (inner : ℕ → ℕ → Res Satisfied) (es : List Edge)
    (sat : Satisfied)
    → All (λ e. test e.to ≢ too_deep) es
    → All (λ e. All (λ d. inner e.to d.to ≢ too_deep) (vertex_at g e.to).dependencies) es
    → grouped_edges g test inner es sat ≢ too_deep
unfolding grouped_edges
grouped_edges_ends g test inner [] sat h k = λ e. cc
grouped_edges_ends g test inner (e ∷ es) sat h k =
    >>=-ne-too_deep (grouped_edge g test inner e.to sat) _ one
      (λ sat'. grouped_edges_ends g test inner es sat' h.1 k.1)
  where
    one : grouped_edge g test inner e.to sat ≢ too_deep
    one =
        unfold grouped_edge in
        ground (arith, h.0, all_edges_ends (inner e.to) (vertex_at g e.to).dependencies sat k.0)

module _ (rank : ℕ → ℕ) (g : Graph) (ranks : Ranks rank g) where
  group_step_ends :
      (group : ℕ → Bool → Res Satisfied) (v : ℕ) (kind : DependencyGroupType) (recurse : Bool)
      → ((w : ℕ) (b : Bool) → rank w < rank v → group w b ≢ too_deep)
      → group_step group g kind (vertex_at g v).dependencies recurse ≢ too_deep
  unfolding group_step
  group_step_ends group v kind recurse h = by_kind kind
    where
      below :
          {P : ℕ → Type 0}
          → ((w : ℕ) → rank w < rank v → P w)
          → All (λ e. P e.to) (vertex_at g v).dependencies
      below {P} f = All-map (λ e. rank e.to < rank v) (λ e. P e.to) _ (λ e lt. f e.to lt) (ranks v)

      inner_ends :
          (w : ℕ)
          → rank w < rank v
          → All
              (λ d. vtx_inst_satisfies_optional group g d.to recurse ≢ too_deep)
              (vertex_at g w).dependencies
      inner_ends w lt =
          All-map (λ d. rank d.to < rank w)
            (λ d. vtx_inst_satisfies_optional group g d.to recurse ≢ too_deep) _
            (λ d lt'. optional_ends group g d.to recurse (h d.to recurse (omega arith))) (ranks w)

      any :
          any_edge (λ w. vtx_satisfies group g w recurse) (vertex_at g v).dependencies unsatisfied
          ≢ too_deep
      any =
          any_edge_ends _ _ unsatisfied
            (below (λ w lt. satisfies_ends group g w recurse (h w recurse lt)))

      by_kind :
          (k : DependencyGroupType)
          → group_step group g k (vertex_at g v).dependencies recurse ≢ too_deep
      by_kind require_all =
          all_edges_ends _ _ satisfied
            (below (λ w lt. satisfies_ends group g w recurse (h w recurse lt)))
      by_kind require_any = ground (arith, any)
      by_kind optional_all =
          grouped_edges_ends g _ _ _ satisfied
            (below (λ w lt. optional_ends group g w recurse (h w recurse lt))) (below inner_ends)
      by_kind exclude_all =
          grouped_edges_ends g _ _ _ satisfied (below (λ w lt. exclusion_ends g w)) (
            below (λ w lt.
              All-map (λ d. rank d.to < rank w) (λ d. vtx_inst_satisfies_exclusion g w ≢ too_deep) _
                (λ d lt'. exclusion_ends g w) (ranks w)))

-- With a rank for the dependencies, the logic answers, or stops at a failed assert, at each depth
-- above the rank of the vertex.
pub depgroup_is_satisfied_ends :
    (rank : ℕ → ℕ) (depth : ℕ) (g : Graph) (v : ℕ) (recurse : Bool)
    → Ranks rank g
    → rank v < depth
    → depgroup_is_satisfied depth g v recurse ≢ too_deep
unfolding depgroup_is_satisfied
depgroup_is_satisfied_ends rank zero g v recurse ranks h = absurd (omega arith)
depgroup_is_satisfied_ends rank (suc depth) g v recurse ranks h =
    group_step_ends rank g ranks (depgroup_is_satisfied depth g) v (vertex_at g v).dg_type recurse
      (λ w b lt. depgroup_is_satisfied_ends rank depth g w b ranks (omega arith))
