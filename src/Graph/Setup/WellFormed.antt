-- ===== src/Graph/Setup/WellFormed.antt =====
-- Setting vertices up keeps the graph well-formed and loses no vertex.
use e_com_init.Common.{
  ℕ, zero, suc, ◌+◌, ◌<◌, ◌≡◌, refl, subst, inl, inr, List, [], ◌∷◌, ◌==◌, length, arith,
  Bool-cases, Option-cases,
}
use e_com_init.Common.Res.{Res, ok, ◌>>=◌, >>=-eq-ok}
use e_com_init.Service.Types.{S16Path, S16DependencyGroup, S16Service}
use e_com_init.Repository.Lookup.{lookup_path_in_scope}
use e_com_init.Graph.Types.{VertexType, v_inst, v_svc, v_depgroup, Graph, vertex_at, modify}
use e_com_init.Graph.Edges.{vtx_find_by_path, vtx_find_or_add}
use e_com_init.Graph.Edges.WellFormed.{IsWellFormed}
use e_com_init.Graph.Edges.Find.{vtx_find_or_add_lem}
use e_com_init.Graph.Reach.{vtx_dependency_add}
use e_com_init.Graph.Setup.{
  make_depgroup_path, mark_setup, mark_enabled, setup_dep, setup_deps, setup_depgroup,
  update_groups, instance_depgroups, service_depgroups, vtx_update, vtx_setup,
}
use e_com_init.Graph.Setup.Grows.{
  Grows, Grows-refl, Grows-trans, mark-Grows, dependency-Grows, find-lt, found-Grows,
}

module _ (limit : ℕ) (scope : List S16Service) (setup : Graph → ℕ → Res Graph)
    (setup-Grows : (g g' : Graph) (v : ℕ)
      → v < length g
      → IsWellFormed g
      → setup g v ≡ ok g'
      → Grows g g') where
  dep-Grows :
      (path : S16Path) (vg err : ℕ) (g g' : Graph) (p p' : List ℕ)
      → vg < length g
      → IsWellFormed g
      → setup_dep limit scope setup path vg g p ≡ ok (err, g', p')
      → Grows g g'
  unfolding setup_dep
  dep-Grows path vg err g g' p p' h wf e = elim (Option-cases (vtx_find_by_path g path)) [
    | inl none_found ↦ let out = rw (none_found, setup_dep) at e in cc
    | inr (vdep, found) ↦
        let out = rw (found, setup_dep) at e in
        let ((err1, g1, p1), a, b) = >>=-eq-ok (vtx_dependency_add limit g vg vdep p) _ out in
        let first =
          dependency-Grows limit g g1 vg vdep err1 p p1 h (find-lt g path vdep found) wf a in
        elim (Bool-cases (err1 == 0)) [
          | inl t ↦
              let more = rw t at b in
              let (g2, c, d) = >>=-eq-ok (setup g1 vdep) _ more in
              let second =
                setup-Grows g1 g2 vdep (omega (arith, find-lt g path vdep found, first.no_smaller))
                  first.well_formed c in
              let same : g2 ≡ g' = cc in subst (Grows g) same (Grows-trans g g1 g2 first second)
          | inr f ↦ let done = rw f at b in let same : g1 ≡ g' = cc in subst (Grows g) same first
        ]
  ]

  deps-Grows :
      (paths : List S16Path) (dgv err : ℕ) (g g' : Graph) (p p' : List ℕ)
      → dgv < length g
      → IsWellFormed g
      → setup_deps limit scope setup paths dgv g p ≡ ok (err, g', p')
      → Grows g g'
  unfolding setup_deps
  deps-Grows [] dgv err g g' p p' h wf e =
      let same : g ≡ g' = cc in subst (Grows g) same (Grows-refl g wf)
  deps-Grows (it ∷ paths) dgv err g g' p p' h wf e =
      let ((err1, g1, p1), a, b) = >>=-eq-ok (setup_dep limit scope setup it dgv g p) _ e in
      let first = dep-Grows it dgv err1 g g1 p p1 h wf a in
      elim (Bool-cases (err1 == 0)) [
        | inl t ↦ Grows-trans g g1 g' first (
            deps-Grows paths dgv err g1 g' p1 p' (omega (arith, h, first.no_smaller))
              first.well_formed (rw t at b))
        | inr f ↦ let done = rw f at b in let same : g1 ≡ g' = cc in subst (Grows g) same first
      ]

  depgroup-Grows :
      (v : ℕ) (dg : S16DependencyGroup) (dgp : S16Path) (err : ℕ) (g g' : Graph) (p p' : List ℕ)
      → v < length g
      → IsWellFormed g
      → setup_depgroup limit scope setup v dg dgp g p ≡ ok (err, g', p')
      → Grows g g'
  unfolding setup_depgroup
  depgroup-Grows v dg dgp err g g' p p' h wf e =
      let r = vtx_find_or_add g dgp v_depgroup dg.type dg.restart_on in
      let made = vtx_find_or_add_lem g dgp v_depgroup dg.type dg.restart_on wf in
      let ((err1, g2, p1), a, b) = >>=-eq-ok (vtx_dependency_add limit r.1 v r.0 p) _ e in
      let hv : v < length r.1 = omega (arith, h, made.no_smaller) in
      let joined =
        dependency-Grows limit r.1 g2 v r.0 err1 p p1 hv made.in_graph made.well_formed a in
      let hv2 : v < length g2 = omega (arith, hv, joined.no_smaller) in
      let marks = mark-Grows g2 v mark_setup (λ x. (refl, refl, refl)) hv2 joined.well_formed in
      let rest =
        deps-Grows dg.paths r.0 err (modify g2 v mark_setup) g' p1 p'
          (omega (arith, made.in_graph, joined.no_smaller, marks.no_smaller)) marks.well_formed b in
      Grows-trans g r.1 g' (found-Grows g dgp r made)
        (Grows-trans r.1 g2 g' joined (Grows-trans g2 (modify g2 v mark_setup) g' marks rest))

  groups-Grows :
      (v : ℕ) (groups : List S16DependencyGroup) (cnt : ℕ) (g g' : Graph) (p : List ℕ)
      → v < length g
      → IsWellFormed g
      → update_groups limit scope setup v groups cnt g p ≡ ok g'
      → Grows g g'
  unfolding update_groups
  groups-Grows v [] cnt g g' p h wf e =
      let same : g ≡ g' = cc in subst (Grows g) same (Grows-refl g wf)
  groups-Grows v (it ∷ groups) cnt g g' p h wf e =
      let dgn = make_depgroup_path (vertex_at g v).path cnt in
      let ((err1, g1, p1), a, b) = >>=-eq-ok (setup_depgroup limit scope setup v it dgn g p) _ e in
      let first = depgroup-Grows v it dgn err1 g g1 p p1 h wf a in
      Grows-trans g g1 g' first (
        groups-Grows v groups (cnt + 1) g1 g' p1 (omega (arith, h, first.no_smaller))
          first.well_formed b)

  update-Grows :
      (v : ℕ) (g g' : Graph)
      → v < length g
      → IsWellFormed g
      → vtx_update limit scope setup g v ≡ ok g'
      → Grows g g'
  unfolding vtx_update
  update-Grows v g g' h wf e = go (vertex_at g v).type e
    where
      run :
          (r : Res (List S16DependencyGroup))
          → (r >>= (λ groups. update_groups limit scope setup v groups 0 g [])) ≡ ok g'
          → Grows g g'
      run r q = let (groups, a, b) = >>=-eq-ok r _ q in groups-Grows v groups 0 g g' [] h wf b

      go :
          (t : VertexType)
          → elim t [
            | v_inst ↦
                instance_depgroups limit scope (lookup_path_in_scope scope (vertex_at g v).path)
                >>= (λ groups. update_groups limit scope setup v groups 0 g [])
            | v_svc ↦
                service_depgroups limit scope (lookup_path_in_scope scope (vertex_at g v).path)
                >>= (λ groups. update_groups limit scope setup v groups 0 g [])
            | v_depgroup ↦ ok g
          ]
            ≡ ok g'
          → Grows g g'
      go v_inst q = run _ q
      go v_svc q = run _ q
      go v_depgroup q = let same : g ≡ g' = cc in subst (Grows g) same (Grows-refl g wf)

-- Setting a vertex up, with all that it depends on, keeps the graph well-formed, and every
-- vertex of before with its path, whatever the repository holds, if it returns.
pub vtx_setup-Grows :
    (limit : ℕ) (scope : List S16Service) (depth : ℕ) (g g' : Graph) (v : ℕ)
    → v < length g
    → IsWellFormed g
    → vtx_setup limit scope depth g v ≡ ok g'
    → Grows g g'
unfolding vtx_setup
vtx_setup-Grows limit scope zero g g' v h wf e = cc
vtx_setup-Grows limit scope (suc depth) g g' v h wf e = elim (Bool-cases (vertex_at g v).is_setup) [
  | inl t ↦ let out = rw t at e in let same : g ≡ g' = cc in subst (Grows g) same (Grows-refl g wf)
  | inr f ↦
      let marks = mark-Grows g v mark_enabled (λ x. (refl, refl, refl)) h wf in
      Grows-trans g (modify g v mark_enabled) g' marks (
        update-Grows limit scope (vtx_setup limit scope depth)
          (λ a b w hw wfa q. vtx_setup-Grows limit scope depth a b w hw wfa q) v
          (modify g v mark_enabled) g' (omega (arith, h, marks.no_smaller)) marks.well_formed
          (rw f at e))
]
