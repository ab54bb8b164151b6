-- ===== src/Graph/Setup.antt =====
-- Installing services and setting vertices up: make_depgroup_path, setup_dep, setup_depgroup,
-- vtx_update, vtx_setup, install_inst and graph_install_service of usr/src/agent/graphd/graph.c.
-- `limit` is the depth given to each cycle check.
pub mod Grows
pub mod WellFormed
pub mod Install
pub mod Names
use e_com_init.Common.{
  ℕ, zero, suc, ◌+◌, ◌/◌, ◌%◌, true, none, some, List, [], ◌∷◌, ◌++◌, CStr, codes, if◌then◌else◌,
  ◌==◌, ltb, length,
}
use e_com_init.Common.Decimal.{decimal}
use e_com_init.Common.Res.{Res, ok, aborted, too_deep, ◌>>=◌}
use e_com_init.Service.Types.{
  S16Path, S16DependencyGroup, S16ServiceInstance, S16Service, require_all, on_any,
}
use e_com_init.Service.Paths.{path_copy}
use e_com_init.Repository.Lookup.{
  LookupResult, svc_result, instance_result, service_at, lookup_path_in_scope,
}
use e_com_init.Graph.Types.{Vertex, v_inst, v_svc, v_depgroup, Graph, vertex_at, modify}
use e_com_init.Graph.Edges.{vtx_edge_add, vtx_find_by_path, vtx_find_or_add}
use e_com_init.Graph.Reach.{vtx_dependency_add}

-- The string that is extended: the instance's name, or the service's if there is none.
unfoldable pub extended_name : S16Path → CStr
extended_name path = elim path.inst [ none ↦ path.svc | some inst ↦ inst ]

unfoldable pub depgroup_name : S16Path → ℕ → CStr
depgroup_name path cnt = extended_name path ++ (codes "#depgroups/" ++ decimal cnt)

-- The bytes that malloc is asked for: the length of "%s>%d", and one.
unfoldable pub depgroup_name_size : S16Path → ℕ → ℕ
depgroup_name_size path cnt = length (extended_name path ++ (codes ">" ++ decimal cnt)) + 1

unfoldable pub make_depgroup_path : S16Path → ℕ → S16Path
make_depgroup_path path cnt =
    let dgp = path_copy path in
    elim dgp.inst [
      | none ↦ record dgp { svc = depgroup_name path cnt }
      | some inst ↦ record dgp { inst = some (depgroup_name path cnt) }
    ]

abbrev pub mark_setup : Vertex → Vertex
mark_setup x = record x { is_setup = true }

abbrev pub mark_enabled : Vertex → Vertex
mark_enabled x = record x { is_setup = true; is_enabled = true }

depgroups_of : List S16ServiceInstance → ℕ → List S16DependencyGroup
depgroups_of [] i = []
depgroups_of (it ∷ insts) zero = it.depgroups
depgroups_of (it ∷ insts) (suc i) = depgroups_of insts i

module _ (limit : ℕ) (scope : List S16Service) where
  -- The error, the graph and pathTo; `setup` is vtx_setup.
  unfoldable pub setup_dep :
      (Graph → ℕ → Res Graph) → S16Path → ℕ → Graph → List ℕ → Res (ℕ × Graph × List ℕ)
  setup_dep setup path vg g path_to = elim (vtx_find_by_path g path) [
    | none ↦ aborted
    | some vdep ↦ do
      (err, g', path_to') ← vtx_dependency_add limit g vg vdep path_to
      let rest = setup g' vdep >>= λ g''. ok (0, g'', path_to')
      if err == 0 then rest else ok (1, g', path_to')
  ]

  unfoldable pub setup_deps :
      (Graph → ℕ → Res Graph) → List S16Path → ℕ → Graph → List ℕ → Res (ℕ × Graph × List ℕ)
  setup_deps setup [] dgv g path_to = ok (0, g, path_to)
  setup_deps setup (it ∷ paths) dgv g path_to = do
    (nerr, g', path_to') ← setup_dep setup it dgv g path_to
    let rest = setup_deps setup paths dgv g' path_to'
    if nerr == 0 then rest else ok (nerr, g', path_to')

  unfoldable pub setup_depgroup :
      (Graph → ℕ → Res Graph)
      → ℕ
      → S16DependencyGroup
      → S16Path
      → Graph
      → List ℕ
      → Res (ℕ × Graph × List ℕ)
  setup_depgroup setup v dg dgp g path_to = do
    let (dgv, g1) = vtx_find_or_add g dgp v_depgroup dg.type dg.restart_on
    (err, g2, path_to') ← vtx_dependency_add limit g1 v dgv path_to
    setup_deps setup dg.paths dgv (modify g2 v mark_setup) path_to'

  -- The loop of vtx_update; an error is printed, and the loop goes on.
  unfoldable pub update_groups :
      (Graph → ℕ → Res Graph) → ℕ → List S16DependencyGroup → ℕ → Graph → List ℕ → Res Graph
  update_groups setup v [] cnt g path_to = ok g
  update_groups setup v (it ∷ depgroups) cnt g path_to = do
    let dgn = make_depgroup_path (vertex_at g v).path cnt
    (err, g', path_to') ← setup_depgroup setup v it dgn g path_to
    update_groups setup v depgroups (cnt + 1) g' path_to'

  -- The dependency groups that the repository has for a vertex; a lookup that found nothing, or
  -- that found the other kind, gives a pointer that is not valid.
  instance_depgroups : LookupResult → Res (List S16DependencyGroup)
  instance_depgroups (instance_result (some (s, i))) =
      ok (depgroups_of (service_at scope s).insts i)
  instance_depgroups _ = aborted

  service_depgroups : LookupResult → Res (List S16DependencyGroup)
  service_depgroups (svc_result (some s)) = ok (service_at scope s).depgroups
  service_depgroups _ = aborted

  unfoldable pub vtx_update : (Graph → ℕ → Res Graph) → Graph → ℕ → Res Graph
  unfolding instance_depgroups service_depgroups depgroups_of
  vtx_update setup g v =
      let found = lookup_path_in_scope scope (vertex_at g v).path in
      let run = λ (depgroups : List S16DependencyGroup). update_groups setup v depgroups 0 g [] in
      elim (vertex_at g v).type [
        | v_inst ↦ instance_depgroups found >>= run
        | v_svc ↦ service_depgroups found >>= run
        | v_depgroup ↦ ok g
      ]

  unfoldable pub vtx_setup : ℕ → Graph → ℕ → Res Graph
  vtx_setup zero g v = too_deep
  vtx_setup (suc depth) g v =
      let update = vtx_update (vtx_setup depth) (modify g v mark_enabled) v in
      if (vertex_at g v).is_setup then ok g else update

  -- list_foreach takes the next node before it runs the body: what the last body adds is not met.
  unfoldable pub setup_each : ℕ → ℕ → ℕ → Graph → Res Graph
  setup_each zero depth i g = too_deep
  setup_each (suc rounds) depth i g =
      let step = vtx_setup depth g i in
      let next = step >>= setup_each rounds depth (i + 1) in
      if ltb (i + 1) (length g) then next else if ltb i (length g) then step else ok g

unfoldable pub install_inst : Graph → S16ServiceInstance → ℕ × Graph
install_inst g inst = vtx_find_or_add g inst.path v_inst require_all on_any

unfoldable pub install_insts : ℕ → List S16ServiceInstance → Graph → Graph
install_insts sv [] g = g
install_insts sv (it ∷ insts) g =
    let (iv, g') = install_inst g it in install_insts sv insts (vtx_edge_add g' sv iv)

unfoldable pub graph_install_service : Graph → S16Service → ℕ × Graph
graph_install_service g svc =
    let (sv, g') = vtx_find_or_add g svc.path v_svc require_all on_any in
    let installed = modify (install_insts sv svc.insts g') sv mark_setup in
    if (vertex_at g' sv).is_setup then (sv, g') else (sv, installed)
