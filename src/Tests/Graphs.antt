-- ===== src/Tests/Graphs.antt =====
-- Examples of graphs: two instances, the second of which depends on the first.
use e_com_init.S16List.{
  list_empty, list_find_eq, list_lpush, list_size, list_add, list_find, find_from,
}
use e_com_init.Graph.Reach.{
  push_if_found, search_deeper, search_each, search_vertex, has_seen, is_exclude_all,
  vtx_is_reachable, vtx_is_reachable_internal, vtx_dependency_add,
}
use e_com_init.Common.{
  ℕ, Bool, true, false, some, List, [], ◌∷◌, ◌≡◌, ◌⊎◌, refl, subst, inl, str_eq, codes, arith,
  length,
}
use e_com_init.Common.Res.{ok}
use e_com_init.Service.Types.{uninitialised, S16Path, require_all, on_none}
use e_com_init.Service.Paths.{path_equal, path_equal_refl, path_copy}
use e_com_init.Graph.Types.{Edge, Vertex, Graph, vertex_at, v_inst, modify}
use e_com_init.Graph.Edges.{
  add_dependency, add_dependent, edge_new, match_vertex_by_path, vtx_edge_add, vtx_find_by_path,
  vtx_find_or_add, new_vertex,
}
use e_com_init.Graph.Edges.WellFormed.{
  IsWellFormed, edged, edge_add-IsWellFormed, vtx_edge_add-IsWellFormed,
}
use e_com_init.Graph.Edges.Find.{IsFoundOrAdded, vtx_find_or_add_lem}
use e_com_init.Graph.Reach.Sound.{IsWalk, vtx_is_reachable_sound, vtx_dependency_add_sound}
use e_com_init.Graph.Reach.Ends.{vtx_is_reachable_ends}
use e_com_init.Graph.Reach.Gaps.{Stops}

abbrev pub disk : S16Path
disk = record { full_qual = true; svc = codes "fs"; inst = some (codes "root") }

abbrev pub net : S16Path
net = record { full_qual = true; svc = codes "net"; inst = some (codes "lo") }

abbrev empty : Graph
empty = []

empty-IsWellFormed : IsWellFormed empty
unfolding vertex_at
empty-IsWellFormed = record {
  dependencies_fit = λ v. tt;
  dependents_fit = λ v. tt;
  mirror = λ v w. refl;
  distinct = λ v w h. absurd (omega arith);
}

abbrev pub inst_vertex : S16Path → List Edge → List Edge → Vertex
inst_vertex path dependencies dependents = record {
  path = path;
  type = v_inst;
  dg_type = require_all;
  restart_on = on_none;
  dependencies = dependencies;
  dependents = dependents;
  state = uninitialised;
  is_setup = false;
  is_enabled = false;
  to_offline = false;
  to_disable = false;
}

abbrev pub one : Graph
one = inst_vertex disk [] [] ∷ []

abbrev pub two : Graph
two = inst_vertex disk [] [] ∷ inst_vertex net [] [] ∷ []

-- net depends on disk.
abbrev pub joined : Graph
joined =
    inst_vertex disk [] (record { from = 0; to = 1 } ∷ [])
    ∷ inst_vertex net (record { from = 1; to = 0 } ∷ []) []
    ∷ []

-- The code makes these graphs.
made_one : (vtx_find_or_add [] disk v_inst require_all on_none).1 ≡ one
unfolding vtx_find_or_add vtx_find_by_path list_find find_from path_equal new_vertex list_add
    match_vertex_by_path str_eq path_copy
made_one = refl

made_two : (vtx_find_or_add one net v_inst require_all on_none).1 ≡ two
unfolding vtx_find_or_add vtx_find_by_path list_find find_from path_equal new_vertex list_add
    match_vertex_by_path str_eq path_copy
made_two = refl

made_joined : vtx_edge_add two 1 0 ≡ joined
unfolding vtx_edge_add modify vertex_at list_add add_dependency add_dependent edge_new
made_joined = refl

one-IsWellFormed : IsWellFormed one
one-IsWellFormed =
    subst IsWellFormed made_one
      (vtx_find_or_add_lem empty disk v_inst require_all on_none empty-IsWellFormed).well_formed

vtx_find_or_add_lem_example :
    IsFoundOrAdded one net (vtx_find_or_add one net v_inst require_all on_none)
vtx_find_or_add_lem_example =
    vtx_find_or_add_lem one net v_inst require_all on_none one-IsWellFormed

pub two-IsWellFormed : IsWellFormed two
two-IsWellFormed =
    subst IsWellFormed made_two
      (vtx_find_or_add_lem one net v_inst require_all on_none one-IsWellFormed).well_formed

vtx_edge_add-IsWellFormed_example :
    IsWellFormed (vtx_edge_add two 1 0)
    × (length (vtx_edge_add two 1 0) ≡ length two)
    × ((w : ℕ)
        → vertex_at (vtx_edge_add two 1 0) w
          ≡ edged two 1 0 (omega arith) (omega arith) w (vertex_at two w))
vtx_edge_add-IsWellFormed_example =
    vtx_edge_add-IsWellFormed two 1 0 (omega arith) (omega arith) two-IsWellFormed

pub joined-IsWellFormed : IsWellFormed joined
joined-IsWellFormed =
    subst IsWellFormed made_joined
      (edge_add-IsWellFormed two 1 0 (omega arith) (omega arith) two-IsWellFormed)

net_path : path_equal (vertex_at joined 1).path net ≡ true
unfolding vertex_at
net_path = path_equal_refl net

reached : vtx_is_reachable 3 joined 1 0 [] ≡ ok (true, 1 ∷ 0 ∷ [])
unfolding vtx_is_reachable vtx_is_reachable_internal search_vertex has_seen list_find_eq vertex_at
    search_deeper search_each list_add list_empty push_if_found list_size list_lpush
reached = refl

vtx_is_reachable_sound_example : IsWalk joined 1 0 (1 ∷ 0 ∷ [])
vtx_is_reachable_sound_example = vtx_is_reachable_sound 3 joined 1 0 (1 ∷ 0 ∷ []) true reached

vtx_is_reachable_ends_example : (r : Bool × List ℕ) × (vtx_is_reachable 3 joined 0 1 [] ≡ ok r)
vtx_is_reachable_ends_example =
    vtx_is_reachable_ends 3 joined 0 1 [] joined-IsWellFormed (omega arith) (omega arith)

abbrev cycle : List ℕ
cycle = 1 ∷ 0 ∷ []

abbrev reported : ℕ
reported = 1

refused : vtx_dependency_add 3 joined 0 1 [] ≡ ok (reported, joined, cycle)
unfolding vtx_dependency_add vtx_is_reachable vtx_is_reachable_internal search_vertex has_seen
    list_find_eq vertex_at search_deeper search_each list_add list_empty push_if_found list_size
    list_lpush
refused = refl

-- disk may not depend on net.
vtx_dependency_add_sound_example :
    (reported ≡ 1) × (joined ≡ joined) × IsWalk joined 1 0 cycle
    ⊎ (reported ≡ 0) × (joined ≡ vtx_edge_add joined 0 1) × (cycle ≡ [])
vtx_dependency_add_sound_example =
    vtx_dependency_add_sound 3 joined joined 0 1 reported cycle refused

new : has_seen (0 ∷ []) 1 ≡ false
unfolding has_seen list_find_eq
new = refl

no_group : is_exclude_all (vertex_at joined 1).dg_type ≡ false
unfolding vertex_at
no_group = refl

depends : (vertex_at joined 1).dependencies ≡ record { from = 1; to = 0 } ∷ []
unfolding vertex_at
depends = refl

stops : Stops joined (list_add (0 ∷ []) 1) 0
unfolding has_seen list_add list_find_eq
stops = inl refl
