-- ===== src/Tests/Managers.antt =====
-- Examples of the manager: the events that reach a unit.
use e_com_init.Restartd.Units.States.{UnitRecord, unit_has_pid}
use e_com_init.Common.{ℕ, ◌<◌, ◌⊎◌, ◌≡◌, refl, true, false, [], ◌∷◌, All, set, codes}
use e_com_init.Common.Res.{ok}
use e_com_init.Restartd.Units.Events.{unit_ptevent, PtEvent, ev_child}
use e_com_init.S16List.{list_find}
use e_com_init.Restartd.Manager.{
  manager_find_unit_for_pid, on_unit, Manager, unit_at, manager_ptevent, segments,
}
use e_com_init.Restartd.Manager.Laws.{manager_ptevent_lem}
use e_com_init.Tests.Restarter.{web, forks}

-- The manager of the unit above.
abbrev manager : UnitRecord → Manager
manager unit = record {
  units = unit ∷ [];
  ts = record { timers = []; drawn = 0 };
  forks = 0;
  watched = 30 ∷ [];
  killed = [];
  connections = 0;
  repo_up = false;
  repo_retry_delay = 0;
  repo_retry_timer = 0;
}

abbrev child_33 : PtEvent
child_33 = record { event = ev_child; pid = 33; abnormal = false }

abbrev parent : Manager
parent = record (manager (record web { pids = 30 ∷ 33 ∷ [] })) { watched = 30 ∷ 33 ∷ [] }

-- The child of process 30 is born.
born : manager_ptevent forks 4 child_33 30 (manager web) ≡ ok parent
unfolding manager_ptevent manager_find_unit_for_pid list_find unit_has_pid on_unit unit_ptevent
born = refl

manager_ptevent_lem_example :
    (parent ≡ manager web)
      × All (λ u. unit_has_pid u 33 ≡ false) (manager web).units
      × All (λ u. unit_has_pid u 30 ≡ false) (manager web).units
    ⊎ ((i : ℕ) × (i < 1)
        × (unit_has_pid (unit_at (manager web) i) 33 ≡ true
            ⊎ unit_has_pid (unit_at (manager web) i) 30 ≡ true)
        × (parent.units ≡ set (manager web).units i (unit_at parent i)))
manager_ptevent_lem_example = manager_ptevent_lem forks 4 30 child_33 (manager web) parent born

nobody : All (λ u. unit_has_pid u 99 ≡ false) (manager web).units
unfolding unit_has_pid
nobody = (refl, tt)

ready_message : segments [] (codes "READY=1") ≡ codes "READY=1" ∷ []
unfolding segments
ready_message = refl
