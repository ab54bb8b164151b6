-- ===== src/Tests/Depths.antt =====
-- Examples of ranks that bound how deep a change of state is passed on.
use e_com_init.Common.{ℕ, zero, suc, ◌<◌, ◌≡◌, ◌≢◌, [], arith}
use e_com_init.Common.Res.{ok, too_deep}
use e_com_init.Service.Types.{online, offline}
use e_com_init.Graph.Types.{Engine, vertex_at}
use e_com_init.Graph.Satisfy.Ends.{Ranks}
use e_com_init.Graph.Notify.{vtx_notify_start, vtx_notify_stop}
use e_com_init.Graph.Notify.Ends.{RanksUp, vtx_notify_stop_ends, vtx_notify_start_ends}
use e_com_init.Tests.Notes.{engine}

-- The instance is below its group.
abbrev rank : ℕ → ℕ
rank zero = 1
rank (suc v) = 0

ranks : RanksUp rank (engine online []).graph
unfolding vertex_at
ranks zero = ground arith
ranks (suc zero) = ground arith
ranks (suc (suc v)) = ground arith

vtx_notify_stop_ends_example : (e' : Engine) × (vtx_notify_stop 2 0 0 (engine online []) ≡ ok e')
vtx_notify_stop_ends_example =
    vtx_notify_stop_ends rank 2 0 0 (engine online []) ranks (omega arith)

-- The group is what the instance depends on.
abbrev down : ℕ → ℕ
down zero = 0
down (suc v) = 1

downs : Ranks down (engine offline []).graph
unfolding vertex_at
downs zero = ground arith
downs (suc zero) = ground arith
downs (suc (suc v)) = ground arith

offline_ranks : RanksUp rank (engine offline []).graph
unfolding vertex_at
offline_ranks zero = ground arith
offline_ranks (suc zero) = ground arith
offline_ranks (suc (suc v)) = ground arith

down_bound : (w : ℕ) → down w < 3
down_bound zero = omega arith
down_bound (suc w) = omega arith

vtx_notify_start_ends_example : vtx_notify_start 3 2 0 0 (engine offline []) ≢ too_deep
vtx_notify_start_ends_example =
    vtx_notify_start_ends rank down 3 2 0 0 (engine offline []) offline_ranks downs down_bound
      (omega arith)
