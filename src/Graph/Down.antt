-- ===== src/Graph/Down.antt =====
-- Taking instances offline: vtx_can_go_down, vtx_offline_if_possible and vtx_offline_dependency of
-- usr/src/agent/graphd/graph.c.
pub mod Sound
use e_com_init.Common.{ℕ, zero, suc, Bool, true, false, not, ◌&&◌, List, [], ◌∷◌, if◌then◌else◌}
use e_com_init.Common.Res.{Res, ok, too_deep, ◌>>=◌}
use e_com_init.Graph.Types.{Edge, Vertex, Graph, Engine, vertex_at}
use e_com_init.Graph.Satisfy.{is_inst}
use e_com_init.Graph.Notify.{vtx_offline, vtx_dependencies_do, vtx_is_running}

-- The loop over the dependents: an instance that is not to go offline is passed over, and the loop
-- returns at the first other one that cannot go down.
unfoldable pub dependents_can_go_down : (ℕ → Res Bool) → Graph → List Edge → Res Bool
dependents_can_go_down call g [] = ok true
dependents_can_go_down call g (it ∷ es) =
    let rest = dependents_can_go_down call g es in
    let x = vertex_at g it.to in
    let asked = call it.to >>= λ can. if can then rest else ok false in
    if is_inst x.type && not x.to_offline then rest else asked

-- What the vertex says of itself once its dependents have none against it.
unfoldable pub goes_down_itself : Vertex → Bool → Bool
goes_down_itself x root = not (is_inst x.type && vtx_is_running x && not root)

unfoldable pub vtx_can_go_down : ℕ → Graph → ℕ → Bool → Res Bool
vtx_can_go_down zero g v root = too_deep
vtx_can_go_down (suc depth) g v root = do
  can ← dependents_can_go_down (λ w. vtx_can_go_down depth g w false) g (vertex_at g v).dependents
  ok (if can then goes_down_itself (vertex_at g v) root else false)

-- The common part of the two functions below, for an instance.
unfoldable pub offline_if_can : ℕ → ℕ → ℕ → Engine → Res Engine
offline_if_can depth v reason e = do
  can ← vtx_can_go_down depth e.graph v true
  ok (if can then vtx_offline v reason e else e)

unfoldable pub vtx_offline_if_possible : ℕ → ℕ → ℕ → Engine → Res Engine
vtx_offline_if_possible depth v reason e =
    let x = vertex_at e.graph v in
    if not x.to_offline
    then ok e
    else if is_inst x.type
    then offline_if_can depth v reason e
    else ok e

-- `limit` is the depth given to vtx_can_go_down.
unfoldable pub vtx_offline_dependency : ℕ → ℕ → ℕ → ℕ → Engine → Res Engine
vtx_offline_dependency limit zero v reason e = too_deep
vtx_offline_dependency limit (suc depth) v reason e =
    let x = vertex_at e.graph v in
    let down = vtx_dependencies_do v (λ w. vtx_offline_dependency limit depth w reason) e in
    if is_inst x.type && not x.to_offline
    then ok e
    else if is_inst x.type
    then offline_if_can limit v reason e
    else down
