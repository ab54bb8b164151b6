-- ===== src/Graph/Edges.antt =====
-- Edges and the search for vertices: edge_new, vtx_edge_add, match_vertex_by_path,
-- vtx_find_by_path and vtx_find_or_add of usr/src/agent/graphd/graph.c.
pub mod WellFormed
pub mod Find
use e_com_init.Common.{ℕ, Bool, false, Option, none, some, List, [], ◌∷◌, length}
use e_com_init.S16List.{list_add, list_find}
use e_com_init.Service.Types.{S16Path, DependencyGroupType, RestartOn, uninitialised}
use e_com_init.Service.Paths.{path_equal, path_copy}
use e_com_init.Graph.Types.{Edge, Vertex, VertexType, Graph, modify}

unfoldable pub edge_new : ℕ → ℕ → Edge
edge_new from to = record { from = from; to = to }

unfoldable pub add_dependency : ℕ → ℕ → Vertex → Vertex
add_dependency v to x = record x { dependencies = list_add x.dependencies (edge_new v to) }

unfoldable pub add_dependent : ℕ → ℕ → Vertex → Vertex
add_dependent v to x = record x { dependents = list_add x.dependents (edge_new to v) }

unfoldable pub vtx_edge_add : Graph → ℕ → ℕ → Graph
unfolding add_dependency add_dependent
vtx_edge_add g v to = modify (modify g v (add_dependency v to)) to (add_dependent v to)

unfoldable pub match_vertex_by_path : Vertex → S16Path → Bool
match_vertex_by_path cand path = path_equal cand.path path

unfoldable pub vtx_find_by_path : Graph → S16Path → Option ℕ
vtx_find_by_path g name = list_find g (λ cand. match_vertex_by_path cand name)

unfoldable pub new_vertex : S16Path → VertexType → DependencyGroupType → RestartOn → Vertex
new_vertex path type dg_type restart_on = record {
  path = path_copy path;
  type = type;
  dg_type = dg_type;
  restart_on = restart_on;
  dependencies = [];
  dependents = [];
  state = uninitialised;
  is_setup = false;
  is_enabled = false;
  to_offline = false;
  to_disable = false;
}

-- The vertex, and the graph with it.
unfoldable pub vtx_find_or_add :
    Graph → S16Path → VertexType → DependencyGroupType → RestartOn → ℕ × Graph
unfolding new_vertex
vtx_find_or_add g path type dg_type restart_on = elim (vtx_find_by_path g path) [
  | some v ↦ (v, g)
  | none ↦ (length g, list_add g (new_vertex path type dg_type restart_on))
]
