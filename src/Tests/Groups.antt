-- ===== src/Tests/Groups.antt =====
-- Examples of the logic of dependency groups: vertex 0 is a group on vertex 1, and vertex 2 is an
-- instance that depends on the group.
use e_com_init.Graph.Satisfy.{
  all_edges, group_step, vtx_inst_satisfies, worsen, Satisfied, satisfied, unsatisfiable,
  vtx_satisfies, depgroup_is_satisfied, vtx_inst_can_come_up,
}
use e_com_init.Common.{
  ℕ, true, false, none, List, [], ◌∷◌, ◌≡◌, ◌≢◌, ◌↔◌, refl, codes, arith, All, Any, zero, suc,
}
use e_com_init.Common.Res.{ok, too_deep}
use e_com_init.S16List.{list_empty}
use e_com_init.Service.Types.{
  S16Path, DependencyGroupType, require_all, require_any, exclude_all, on_none, online, offline,
  maintenance, S16ServiceState,
}
use e_com_init.Graph.Types.{Edge, Vertex, Graph, vertex_at, VertexType, v_inst, v_svc, v_depgroup}
use e_com_init.Graph.Satisfy.Spec.{Answers, require_all_lem, vtx_inst_can_come_up_sound}
use e_com_init.Graph.Satisfy.Ends.{Ranks, depgroup_is_satisfied_ends}

abbrev named : List ℕ → S16Path
named svc = record { full_qual = true; svc = svc; inst = none }

abbrev vertex : VertexType → DependencyGroupType → S16ServiceState → List Edge → Vertex
vertex type dg_type state dependencies = record {
  path = named (codes "x");
  type = type;
  dg_type = dg_type;
  restart_on = on_none;
  dependencies = dependencies;
  dependents = [];
  state = state;
  is_setup = true;
  is_enabled = true;
  to_offline = false;
  to_disable = false;
}

abbrev grouped : DependencyGroupType → VertexType → S16ServiceState → List Edge → Graph
grouped dg_type type state dependencies =
    vertex v_depgroup dg_type offline (record { from = 0; to = 1 } ∷ [])
    ∷ vertex type require_all state dependencies
    ∷ vertex v_inst require_all offline (record { from = 2; to = 0 } ∷ [])
    ∷ []

abbrev up : Graph
up = grouped require_all v_inst online []

up_type : (vertex_at up 0).dg_type ≡ require_all
unfolding vertex_at
up_type = refl

up-Answers :
    Answers
      (λ w. vtx_satisfies (depgroup_is_satisfied 3 up) up w true)
      (vertex_at up 0).dependencies
      (satisfied ∷ [])
unfolding vertex_at vtx_satisfies vtx_inst_satisfies
up-Answers = (refl, tt)

require_all_lem_example :
    (sat : Satisfied) × (depgroup_is_satisfied 4 up 0 true ≡ ok sat)
    × ((sat ≡ satisfied) ↔ All (λ s. s ≡ satisfied) (satisfied ∷ []))
    × ((sat ≡ unsatisfiable) ↔ Any (λ s. s ≡ unsatisfiable) (satisfied ∷ []))
require_all_lem_example = require_all_lem 3 up 0 true (satisfied ∷ []) up_type up-Answers

abbrev broken : Graph
broken = grouped require_any v_inst maintenance []

broken_type : (vertex_at broken 0).dg_type ≡ require_any
unfolding vertex_at
broken_type = refl

broken_edges : list_empty (vertex_at broken 0).dependencies ≡ false
unfolding vertex_at list_empty
broken_edges = refl

broken-Answers :
    Answers
      (λ w. vtx_satisfies (depgroup_is_satisfied 3 broken) broken w true)
      (vertex_at broken 0).dependencies
      (unsatisfiable ∷ [])
unfolding vertex_at vtx_satisfies vtx_inst_satisfies
broken-Answers = (refl, tt)

abbrev excluding : Graph
excluding = grouped exclude_all v_svc offline (record { from = 1; to = 2 } ∷ [])

excluding_type : (vertex_at excluding 0).dg_type ≡ exclude_all
unfolding vertex_at
excluding_type = refl

excluding_edges : (vertex_at excluding 0).dependencies ≡ record { from = 0; to = 1 } ∷ []
unfolding vertex_at
excluding_edges = refl

service_type : (vertex_at excluding 1).type ≡ v_svc
unfolding vertex_at
service_type = refl

service_edges : (vertex_at excluding 1).dependencies ≡ record { from = 1; to = 2 } ∷ []
unfolding vertex_at
service_edges = refl

inst_type : (vertex_at up 2).dg_type ≡ require_all
unfolding vertex_at
inst_type = refl

comes_up : vtx_inst_can_come_up 4 up 2 ≡ ok true
unfolding vtx_inst_can_come_up vertex_at depgroup_is_satisfied group_step all_edges vtx_satisfies
    vtx_inst_satisfies worsen
comes_up = refl

vtx_inst_can_come_up_sound_example :
    ((vertex_at up 2).is_enabled ≡ true)
    × ((vertex_at up 2).to_offline ≡ false)
    × ((vertex_at up 2).to_disable ≡ false)
    × All
        (λ e. vtx_satisfies (depgroup_is_satisfied 3 up) up e.to true ≡ ok satisfied)
        (vertex_at up 2).dependencies
vtx_inst_can_come_up_sound_example = vtx_inst_can_come_up_sound 3 up 2 inst_type comes_up

-- A rank: the number of dependencies that can be walked from a vertex.
abbrev rank : ℕ → ℕ
rank zero = 1
rank (suc zero) = 0
rank (suc (suc v)) = 2

ranks : Ranks rank up
unfolding vertex_at
ranks zero = ground arith
ranks (suc zero) = ground arith
ranks (suc (suc zero)) = ground arith
ranks (suc (suc (suc v))) = ground arith

depgroup_is_satisfied_ends_example : depgroup_is_satisfied 3 up 2 true ≢ too_deep
depgroup_is_satisfied_ends_example = depgroup_is_satisfied_ends rank 3 up 2 true ranks (omega arith)
