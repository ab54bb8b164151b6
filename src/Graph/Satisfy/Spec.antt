-- ===== src/Graph/Satisfy/Spec.antt =====
-- What a dependency group answers, from what its dependencies answer.
use e_com_init.Common.{
  ℕ, suc, ◌≡◌, ◌≢◌, ◌↔◌, refl, sym, ap, ◌∙◌, inl, inr, ◌&&◌, not, Bool, true, false, List, [], ◌∷◌,
  arith, All, Bool-cases, Any,
}
use e_com_init.Common.Res.{Res, ok, aborted, ◌>>=◌, >>=-eq-ok}
use e_com_init.S16List.{list_empty}
use e_com_init.Service.Types.{require_any, require_all, exclude_all}
use e_com_init.Graph.Types.{Edge, v_svc, Graph, vertex_at}
use e_com_init.Graph.Satisfy.{
  Satisfied, satisfied, unsatisfied, unsatisfiable, vtx_inst_satisfies_exclusion, vtx_satisfies,
  worsen, all_edges, any_edge, grouped_edge, grouped_edges, group_step, depgroup_is_satisfied,
  vtx_inst_can_come_up,
}

-- The answers of the targets of a list of edges, in order.
abbrev pub Answers : (ℕ → Res Satisfied) → List Edge → List Satisfied → Type 0
Answers test [] [] = Unit
Answers test [] (s ∷ ss) = ⊥
Answers test (e ∷ es) [] = ⊥
Answers test (e ∷ es) (s ∷ ss) = (test e.to ≡ ok s) × Answers test es ss

-- The answer of a group that needs all of its targets.
pub worst : List Satisfied → Satisfied
worst [] = satisfied
worst (s ∷ ss) = worsen s (worst ss)

worsen-satisfied : (s : Satisfied) → worsen s satisfied ≡ s
unfolding worsen
worsen-satisfied s = ground arith

worsen_from_satisfied : (s : Satisfied) → worsen satisfied s ≡ s
unfolding worsen
worsen_from_satisfied s = ground arith

worsen_assoc : (a b c : Satisfied) → worsen (worsen a b) c ≡ worsen a (worsen b c)
unfolding worsen
worsen_assoc a b c = ground arith

all_edges-eq-worst :
    (test : ℕ → Res Satisfied) (es : List Edge) (ss : List Satisfied) (sat : Satisfied)
    → Answers test es ss
    → all_edges test es sat ≡ ok (worsen sat (worst ss))
unfolding all_edges worst
all_edges-eq-worst test [] [] sat h = ap ok (sym (worsen-satisfied sat))
all_edges-eq-worst test [] (s ∷ ss) sat h = absurd h
all_edges-eq-worst test (e ∷ es) [] sat h = absurd h
all_edges-eq-worst test (e ∷ es) (s ∷ ss) sat h =
    rw h.0
      (all_edges-eq-worst test es ss (worsen sat s) h.1 ∙ ap ok (worsen_assoc sat s (worst ss)))

worst-satisfied : (ss : List Satisfied) → (worst ss ≡ satisfied) ↔ All (λ s. s ≡ satisfied) ss
unfolding worst worsen
worst-satisfied [] = (λ _. tt, λ _. refl)
worst-satisfied (s ∷ ss) = ground (arith, worst-satisfied ss)

worst-unsatisfiable :
    (ss : List Satisfied) → (worst ss ≡ unsatisfiable) ↔ Any (λ s. s ≡ unsatisfiable) ss
unfolding worst worsen
worst-unsatisfiable [] = (λ h. cc, λ h. absurd h)
worst-unsatisfiable (s ∷ ss) = ground (arith, worst-unsatisfiable ss)

-- A require-all group whose dependencies have answers is satisfied exactly if all of them are, and
-- unsatisfiable exactly if one of them is.
pub require_all_lem :
    (depth : ℕ) (g : Graph) (v : ℕ) (recurse : Bool) (ss : List Satisfied)
    → (vertex_at g v).dg_type ≡ require_all
    → Answers
        (λ w. vtx_satisfies (depgroup_is_satisfied depth g) g w recurse)
        (vertex_at g v).dependencies
        ss
    → (sat : Satisfied) × (depgroup_is_satisfied (suc depth) g v recurse ≡ ok sat)
      × ((sat ≡ satisfied) ↔ All (λ s. s ≡ satisfied) ss)
      × ((sat ≡ unsatisfiable) ↔ Any (λ s. s ≡ unsatisfiable) ss)
unfolding depgroup_is_satisfied group_step
require_all_lem depth g v recurse ss kind answers = (
  worst ss,
  rw kind (
      all_edges-eq-worst (λ w. vtx_satisfies (depgroup_is_satisfied depth g) g w recurse)
        (vertex_at g v).dependencies ss satisfied answers
      ∙ ap ok (worsen_from_satisfied (worst ss))),
  worst-satisfied ss,
  worst-unsatisfiable ss,
)

any_edge_lem :
    (test : ℕ → Res Satisfied) (es : List Edge) (ss : List Satisfied)
    → Answers test es ss
    → (sat : Satisfied) × (any_edge test es unsatisfied ≡ ok sat)
      × ((sat ≡ satisfied) ↔ Any (λ s. s ≡ satisfied) ss)
      × (sat ≢ unsatisfiable)
unfolding any_edge
any_edge_lem test [] [] h = (unsatisfied, refl, (λ e. cc, λ a. absurd a), λ e. cc)
any_edge_lem test [] (s ∷ ss) h = absurd h
any_edge_lem test (e ∷ es) [] h = absurd h
any_edge_lem test (e ∷ es) (satisfied ∷ ss) h =
    (satisfied, rw h.0, (λ _. inl refl, λ _. refl), λ e. cc)
any_edge_lem test (e ∷ es) (unsatisfied ∷ ss) h =
    let (sat, eq, some_sat, never) = any_edge_lem test es ss h.1 in
    (sat, rw h.0 eq, ground (arith, some_sat), never)
any_edge_lem test (e ∷ es) (unsatisfiable ∷ ss) h =
    let (sat, eq, some_sat, never) = any_edge_lem test es ss h.1 in
    (sat, rw h.0 eq, ground (arith, some_sat), never)

-- A require-any group with dependencies that have answers is satisfied exactly if one of them is.
-- It is never unsatisfiable, not even if all of them are.
pub require_any_lem :
    (depth : ℕ) (g : Graph) (v : ℕ) (recurse : Bool) (ss : List Satisfied)
    → (vertex_at g v).dg_type ≡ require_any
    → list_empty (vertex_at g v).dependencies ≡ false
    → Answers
        (λ w. vtx_satisfies (depgroup_is_satisfied depth g) g w recurse)
        (vertex_at g v).dependencies
        ss
    → (sat : Satisfied) × (depgroup_is_satisfied (suc depth) g v recurse ≡ ok sat)
      × ((sat ≡ satisfied) ↔ Any (λ s. s ≡ satisfied) ss)
      × (sat ≢ unsatisfiable)
unfolding depgroup_is_satisfied group_step
require_any_lem depth g v recurse ss kind some_dep answers =
    let (sat, eq, some_sat, never) =
      any_edge_lem (λ w. vtx_satisfies (depgroup_is_satisfied depth g) g w recurse)
        (vertex_at g v).dependencies ss answers in
    (sat, rw kind (rw some_dep eq), some_sat, never)

-- An exclude-all group whose first dependency is a service that depends on anything, such as its
-- instances, stops the engine: the test for instances is given the service.
pub exclude_all-service :
    (depth : ℕ) (g : Graph) (v : ℕ) (recurse : Bool) (it e : Edge) (rest es : List Edge)
    → (vertex_at g v).dg_type ≡ exclude_all
    → (vertex_at g v).dependencies ≡ it ∷ rest
    → (vertex_at g it.to).type ≡ v_svc
    → (vertex_at g it.to).dependencies ≡ e ∷ es
    → depgroup_is_satisfied (suc depth) g v recurse ≡ aborted
unfolding depgroup_is_satisfied group_step grouped_edges
exclude_all-service depth g v recurse it e rest es kind deps type inner =
    rw (kind, deps) (rw (stops, ◌>>=◌))
  where
    test_stops : vtx_inst_satisfies_exclusion g it.to ≡ aborted
    test_stops = unfold vtx_inst_satisfies_exclusion in rw type

    stops :
        grouped_edge g
          (vtx_inst_satisfies_exclusion g)
          (λ dv ddv. vtx_inst_satisfies_exclusion g dv)
          it.to
          satisfied
        ≡ aborted
    stops = unfold grouped_edge all_edges in rw (type, grouped_edge) (rw inner (rw test_stops))

all_edges-satisfied :
    (test : ℕ → Res Satisfied) (es : List Edge) (sat : Satisfied)
    → all_edges test es sat ≡ ok satisfied
    → (sat ≡ satisfied) × All (λ e. test e.to ≡ ok satisfied) es
unfolding all_edges
all_edges-satisfied test [] sat h = (ground arith, tt)
all_edges-satisfied test (e ∷ es) sat h =
    let (esat, a, k) = >>=-eq-ok (test e.to) _ h in
    let (both, rest) = all_edges-satisfied test es (worsen sat esat) k in
    let (p, q) = worsen-parts sat esat both in (p, (a ∙ ap ok q, rest))
  where
    worsen-parts : (a b : Satisfied) → worsen a b ≡ satisfied → (a ≡ satisfied) × (b ≡ satisfied)
    worsen-parts a b p = unfold worsen in ground arith

require_all-satisfied :
    (depth : ℕ) (g : Graph) (v : ℕ) (recurse : Bool)
    → (vertex_at g v).dg_type ≡ require_all
    → depgroup_is_satisfied (suc depth) g v recurse ≡ ok satisfied
    → All
        (λ e. vtx_satisfies (depgroup_is_satisfied depth g) g e.to recurse ≡ ok satisfied)
        (vertex_at g v).dependencies
unfolding depgroup_is_satisfied group_step
require_all-satisfied depth g v recurse kind h =
    (all_edges-satisfied (λ w. vtx_satisfies (depgroup_is_satisfied depth g) g w recurse)
      (vertex_at g v).dependencies satisfied (rw (kind, group_step) at h)).1

-- If an instance can come up, which is a require-all group of its dependencies, then it is enabled and
-- is not to go down, and each of its dependencies is satisfied.
pub vtx_inst_can_come_up_sound :
    (depth : ℕ) (g : Graph) (v : ℕ)
    → (vertex_at g v).dg_type ≡ require_all
    → vtx_inst_can_come_up (suc depth) g v ≡ ok true
    → ((vertex_at g v).is_enabled ≡ true)
      × ((vertex_at g v).to_offline ≡ false)
      × ((vertex_at g v).to_disable ≡ false)
      × All
          (λ e. vtx_satisfies (depgroup_is_satisfied depth g) g e.to true ≡ ok satisfied)
          (vertex_at g v).dependencies
unfolding vtx_inst_can_come_up
vtx_inst_can_come_up_sound depth g v kind h =
    elim (Bool-cases (
      (vertex_at g v).is_enabled
      && not (vertex_at g v).to_offline
      && not (vertex_at g v).to_disable)) [
        | inl c ↦
            let (sat, a, k) =
              >>=-eq-ok (depgroup_is_satisfied (suc depth) g v true) _ (rw c at h) in
            let good : sat ≡ satisfied = ground arith in
            (
              ground arith,
              ground arith,
              ground arith,
              require_all-satisfied depth g v true kind (a ∙ ap ok good),
            )
        | inr c ↦ absurd (no_answer (rw c at h))
      ]
  where
    no_answer : ◌≡◌ {A = Res Bool} (ok false) (ok true) → ⊥
    no_answer p = cc
