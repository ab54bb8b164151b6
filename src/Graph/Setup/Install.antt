-- ===== src/Graph/Setup/Install.antt =====
-- Installing a service, and what setting it up then does.
use e_com_init.Common.{
  ℕ, suc, ◌≤◌, ◌<◌, ◌≡◌, ◌⊎◌, All, All-map, refl, ap, ◌∙◌, inl, inr, true, List, [], ◌∷◌, ==_refl,
  length, arith, Bool-cases,
}
use e_com_init.Common.Res.{ok}
use e_com_init.Service.Types.{S16ServiceInstance, S16Service, require_all, on_any}
use e_com_init.Service.Paths.{path_equal}
use e_com_init.Graph.Types.{
  v_inst, v_svc, Graph, vertex_at, vertex_at-modify, length-modify, modify,
}
use e_com_init.Graph.Edges.{edge_new, vtx_edge_add, vtx_find_or_add}
use e_com_init.Graph.Edges.WellFormed.{IsWellFormed, vertex_at-edge_add, count_to, count_to-add}
use e_com_init.Graph.Edges.Find.{vtx_find_or_add_lem}
use e_com_init.Graph.Setup.{
  mark_setup, vtx_setup, install_inst, install_insts, graph_install_service,
}
use e_com_init.Graph.Setup.Grows.{
  Grows, Grows-refl, Grows-trans, found-Grows, marked, mark-Grows, edge-Grows,
}

insts-Grows :
    (sv : ℕ) (insts : List S16ServiceInstance) (g : Graph)
    → sv < length g
    → IsWellFormed g
    → Grows g (install_insts sv insts g)
unfolding install_insts install_inst
insts-Grows sv [] g h wf = Grows-refl g wf
insts-Grows sv (it ∷ insts) g h wf =
    let r = vtx_find_or_add g it.path v_inst require_all on_any in
    let made = vtx_find_or_add_lem g it.path v_inst require_all on_any wf in
    let hs : sv < length r.1 = omega (arith, h, made.no_smaller) in
    let edge = edge-Grows r.1 sv r.0 hs made.in_graph made.well_formed in
    let rest =
      insts-Grows sv insts (vtx_edge_add r.1 sv r.0) (omega (arith, hs, edge.no_smaller))
        edge.well_formed in
    let joined = vtx_edge_add r.1 sv r.0 in
    Grows-trans g r.1 _ (found-Grows g it.path r made) (Grows-trans r.1 joined _ edge rest)

-- An instance has a vertex in the graph, and the vertex `sv` depends on it.
abbrev pub HasInstance : Graph → ℕ → S16ServiceInstance → Type 0
HasInstance g sv it =
    (iv : ℕ) × (iv < length g)
    × (path_equal (vertex_at g iv).path it.path ≡ true)
    × (0 < count_to iv (vertex_at g sv).dependencies)

edge-HasEdge :
    (g : Graph) (v to w iv : ℕ) (hv : v < length g) (hto : to < length g)
    → count_to iv (vertex_at g w).dependencies
      ≤ count_to iv (vertex_at (vtx_edge_add g v to) w).dependencies
unfolding edge_new
edge-HasEdge g v to w iv hv hto =
    rw (vertex_at-edge_add g v to hv hto w)
      (ground (arith, count_to-add iv (vertex_at g w).dependencies (edge_new v to)))

new-HasEdge :
    (g : Graph) (v to : ℕ) (hv : v < length g) (hto : to < length g)
    → 0 < count_to to (vertex_at (vtx_edge_add g v to) v).dependencies
unfolding edge_new
new-HasEdge g v to hv hto =
    rw (vertex_at-edge_add g v to hv hto v, ==_refl v)
      (ground (arith, count_to-add to (vertex_at g v).dependencies (edge_new v to), ==_refl to))

-- Installing further instances keeps an edge.
insts-edge :
    (sv iv : ℕ) (insts : List S16ServiceInstance) (g : Graph)
    → sv < length g
    → IsWellFormed g
    → 0 < count_to iv (vertex_at g sv).dependencies
    → 0 < count_to iv (vertex_at (install_insts sv insts g) sv).dependencies
unfolding install_insts install_inst
insts-edge sv iv [] g h wf c = c
insts-edge sv iv (it ∷ insts) g h wf c =
    let r = vtx_find_or_add g it.path v_inst require_all on_any in
    let made = vtx_find_or_add_lem g it.path v_inst require_all on_any wf in
    let hs : sv < length r.1 = omega (arith, h, made.no_smaller) in
    let edge = edge-Grows r.1 sv r.0 hs made.in_graph made.well_formed in
    let same = ap (λ x. count_to iv x.dependencies) (made.kept sv h) in
    insts-edge sv iv insts (vtx_edge_add r.1 sv r.0) (omega (arith, hs, edge.no_smaller))
      edge.well_formed (omega (arith, c, same, edge-HasEdge r.1 sv r.0 sv iv hs made.in_graph))

insts-HasInstance :
    (sv : ℕ) (insts : List S16ServiceInstance) (g : Graph)
    → sv < length g
    → IsWellFormed g
    → All (HasInstance (install_insts sv insts g) sv) insts
unfolding install_insts install_inst
insts-HasInstance sv [] g h wf = tt
insts-HasInstance sv (it ∷ insts) g h wf =
    let r = vtx_find_or_add g it.path v_inst require_all on_any in
    let made = vtx_find_or_add_lem g it.path v_inst require_all on_any wf in
    let hs : sv < length r.1 = omega (arith, h, made.no_smaller) in
    let edge = edge-Grows r.1 sv r.0 hs made.in_graph made.well_formed in
    let hs' : sv < length (vtx_edge_add r.1 sv r.0) = omega (arith, hs, edge.no_smaller) in
    let rest = insts-Grows sv insts (vtx_edge_add r.1 sv r.0) hs' edge.well_formed in
    let in_edged : r.0 < length (vtx_edge_add r.1 sv r.0) =
      omega (arith, made.in_graph, edge.no_smaller) in
    (
      (
        r.0,
        omega (arith, in_edged, rest.no_smaller),
        rw (rest.kept r.0 in_edged ∙ edge.kept r.0 made.in_graph) made.has_path,
        insts-edge sv r.0 insts (vtx_edge_add r.1 sv r.0) hs' edge.well_formed
            (new-HasEdge r.1 sv r.0 hs made.in_graph),
      ),
      insts-HasInstance sv insts (vtx_edge_add r.1 sv r.0) hs' edge.well_formed,
    )

mark-HasInstance :
    (g : Graph) (sv : ℕ) (insts : List S16ServiceInstance)
    → sv < length g
    → All (HasInstance g sv) insts
    → All (HasInstance (modify g sv mark_setup) sv) insts
mark-HasInstance g sv insts h all =
    All-map (HasInstance g sv) (HasInstance (modify g sv mark_setup) sv) insts
      (λ it (iv, lt, path, edge). (
        iv,
        omega (arith, lt, length-modify g sv mark_setup),
        rw ((marked g sv iv mark_setup (λ x. (refl, refl, refl)) h).0) path,
        rw ((marked g sv sv mark_setup (λ x. (refl, refl, refl)) h).1) edge,
      ))
      all

-- The paths of earlier vertices stay.
insts-path :
    (sv w : ℕ) (insts : List S16ServiceInstance) (g : Graph)
    → sv < length g
    → w < length g
    → IsWellFormed g
    → (vertex_at (install_insts sv insts g) w).path ≡ (vertex_at g w).path
unfolding install_insts install_inst
insts-path sv w [] g h hw wf = refl
insts-path sv w (it ∷ insts) g h hw wf =
    let r = vtx_find_or_add g it.path v_inst require_all on_any in
    let made = vtx_find_or_add_lem g it.path v_inst require_all on_any wf in
    let hs : sv < length r.1 = omega (arith, h, made.no_smaller) in
    let edge = edge-Grows r.1 sv r.0 hs made.in_graph made.well_formed in
    insts-path sv w insts (vtx_edge_add r.1 sv r.0) (omega (arith, hs, edge.no_smaller))
      (omega (arith, hw, made.no_smaller, edge.no_smaller)) edge.well_formed
    ∙ ap (λ x. x.path) (vertex_at-edge_add r.1 sv r.0 hs made.in_graph w)
    ∙ ap (λ x. x.path) (made.kept w hw)

-- What installing a service gives: the position of its vertex, and the graph.
pub record IsInstalled (g : Graph) (svc : S16Service) (r : ℕ × Graph) : Type 0 where
  pub grows : Grows g r.1
  pub in_graph : r.0 < length r.1
  pub has_path : path_equal (vertex_at r.1 r.0).path svc.path ≡ true
  pub is_setup : (vertex_at r.1 r.0).is_setup ≡ true
  pub instances :
      ((vertex_at (vtx_find_or_add g svc.path v_svc require_all on_any).1 r.0).is_setup ≡ true)
      ⊎ All (HasInstance r.1 r.0) svc.insts

-- Installing a service in a well-formed graph gives one that is well-formed, with all vertices of
-- before and their paths, and returns the vertex of the service, which is then marked as set up;
-- unless it was already set up, it depends on a vertex for each of the service's instances.
pub graph_install_service_lem :
    (g : Graph) (svc : S16Service)
    → IsWellFormed g
    → IsInstalled g svc (graph_install_service g svc)
unfolding graph_install_service
graph_install_service_lem g svc wf =
    let r = vtx_find_or_add g svc.path v_svc require_all on_any in
    let made = vtx_find_or_add_lem g svc.path v_svc require_all on_any wf in
    let grown = insts-Grows r.0 svc.insts r.1 made.in_graph made.well_formed in
    let all = install_insts r.0 svc.insts r.1 in
    let h : r.0 < length all = omega (arith, made.in_graph, grown.no_smaller) in
    let marks = mark-Grows all r.0 mark_setup (λ x. (refl, refl, refl)) h grown.well_formed in
    let same_path = insts-path r.0 r.0 svc.insts r.1 made.in_graph made.in_graph made.well_formed in
    elim (Bool-cases (vertex_at r.1 r.0).is_setup) [
      | inl t ↦ rw t (record {
        grows = found-Grows g svc.path r made;
        instances = inl t;
        in_graph = made.in_graph;
        has_path = made.has_path;
        is_setup = t;
      })
      | inr f ↦ rw f (record {
        grows =
            Grows-trans g r.1 _ (found-Grows g svc.path r made) (Grows-trans r.1 all _ grown marks);
        instances = inr (
            mark-HasInstance all r.0 svc.insts h
              (insts-HasInstance r.0 svc.insts r.1 made.in_graph made.well_formed));
        in_graph = omega (arith, h, marks.no_smaller);
        has_path =
            rw ((marked all r.0 r.0 mark_setup (λ x. (refl, refl, refl)) h).0 ∙ same_path)
              made.has_path;
        is_setup = rw (vertex_at-modify all r.0 r.0 mark_setup h, ==_refl r.0);
      })
    ]

-- Setting up a service that was installed does nothing, whatever the repository holds: its dependency
-- groups get no vertices and no edges.
pub vtx_setup-graph_install_service :
    (limit : ℕ) (scope : List S16Service) (depth : ℕ) (g : Graph) (svc : S16Service)
    → IsWellFormed g
    → vtx_setup limit scope
        (suc depth)
        (graph_install_service g svc).1
        (graph_install_service g svc).0
      ≡ ok (graph_install_service g svc).1
unfolding vtx_setup
vtx_setup-graph_install_service limit scope depth g svc wf =
    rw ((graph_install_service_lem g svc wf).is_setup)
