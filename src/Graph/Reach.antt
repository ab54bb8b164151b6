-- ===== src/Graph/Reach.antt =====
-- The cycle check: vtx_is_reachable_internal, vtx_is_reachable and vtx_dependency_add of
-- usr/src/agent/graphd/graph.c. The recursion is on a depth; `seen` bounds it (Reach/Ends).
pub mod Sound
pub mod Ends
pub mod Gaps
use e_com_init.Common.{
  ℕ, zero, suc, Bool, true, false, Option, none, some, List, [], ◌∷◌, if◌then◌else◌, ◌==◌,
}
use e_com_init.Common.Res.{Res, ok, too_deep, ◌>>=◌}
use e_com_init.S16List.{list_add, list_lpush, list_find_eq, list_empty, list_size}
use e_com_init.Service.Types.{DependencyGroupType, exclude_all}
use e_com_init.Graph.Types.{Edge, Vertex, Graph, vertex_at}
use e_com_init.Graph.Edges.{vtx_edge_add}

-- The two lists that the calls share.
pub record Search : Type 0 where
  pub seen : List ℕ
  pub path_to : List ℕ

-- vertex_list_find_eq (seen, v)
unfoldable pub has_seen : List ℕ → ℕ → Bool
has_seen seen v = elim (list_find_eq ◌==◌ seen v) [ none ↦ false | some i ↦ true ]

abbrev pub is_exclude_all : DependencyGroupType → Bool
is_exclude_all exclude_all = true
is_exclude_all _ = false

-- The loop over the dependencies: it goes on while the calls return true.
unfoldable pub search_each :
    (ℕ → Search → Res (Bool × Search)) → List Edge → Search → Res (Bool × Search)
search_each call [] s = ok (true, s)
search_each call (it ∷ es) s = do
  (cont, s') ← call it.to s
  let rest = search_each call es s'
  if cont then rest else ok (false, s')

unfoldable pub push_if_found : ℕ → List ℕ → List ℕ
push_if_found v path_to = if list_size path_to == 0 then path_to else list_lpush path_to v

unfoldable pub search_deeper :
    (ℕ → Search → Res (Bool × Search)) → Graph → ℕ → Search → Res (Bool × Search)
search_deeper call g v marked = do
  (cont, s') ← search_each call (vertex_at g v).dependencies marked
  ok (cont, record s' { path_to = push_if_found v s'.path_to })

-- The body, over its own recursive call.
unfoldable pub search_vertex :
    (ℕ → Search → Res (Bool × Search)) → Graph → ℕ → ℕ → Search → Res (Bool × Search)
search_vertex call g to v s =
    let marked = record s { seen = list_add s.seen v } in
    if has_seen s.seen v
    then ok (false, s)
    else if is_exclude_all (vertex_at g v).dg_type
    then ok (false, marked)
    else if v == to
    then ok (false, record marked { path_to = list_lpush s.path_to v })
    else search_deeper call g v marked

unfoldable pub vtx_is_reachable_internal : ℕ → Graph → ℕ → ℕ → Search → Res (Bool × Search)
vtx_is_reachable_internal zero g to v s = too_deep
vtx_is_reachable_internal (suc depth) g to v s =
    search_vertex (vtx_is_reachable_internal depth g to) g to v s

-- Whether there is a path, and pathTo.
unfoldable pub vtx_is_reachable : ℕ → Graph → ℕ → ℕ → List ℕ → Res (Bool × List ℕ)
vtx_is_reachable depth g from to path_to = do
  (cont, s) ← vtx_is_reachable_internal depth g to from (record { seen = []; path_to = path_to })
  ok (if list_empty s.path_to then false else true, s.path_to)

-- The number returned, the graph and pathTo.
unfoldable pub vtx_dependency_add : ℕ → Graph → ℕ → ℕ → List ℕ → Res (ℕ × Graph × List ℕ)
vtx_dependency_add depth g v to path_to = do
  (reachable, path_to') ← vtx_is_reachable depth g to v path_to
  ok (if reachable then (1, g, path_to') else (0, vtx_edge_add g v to, path_to'))
