-- ===== src/Restartd/Manager.antt =====
-- The manager of usr/src/agent/restartd/restartd.c and manager.h with all its units, and the dispatch
-- of process events, timers and readiness messages to them. A unit is named by its position in the
-- list of units, which only grows.
pub mod Laws
use e_com_init.Common.{
  ℕ, ◌==◌, Bool, true, false, not, Option, none, some, List, [], ◌∷◌, ◌++◌, CStr, codes, str_eq,
  get_or, set, length, take, drop, if◌then◌else◌, ltb, ◌&&◌, ◌+◌,
}
use e_com_init.Common.Res.{Res, ok, aborted, ◌>>=◌}
use e_com_init.S16List.{list_add, list_find}
use e_com_init.Service.Types.{S16Path}
use e_com_init.Restartd.Timer.{TimerSet}
use e_com_init.Restartd.Units.States.{UnitRecord, Machine, Os, unit_has_pid, unit_new}
use e_com_init.Restartd.Units.Events.{PtEvent, unit_ptevent, unit_notify_ready}

pub record Manager : Type 0 where
  pub units : List UnitRecord
  pub ts : TimerSet
  pub forks : ℕ
  pub watched : List ℕ
  pub killed : List ℕ
  pub connections : ℕ
  pub repo_up : Bool
  pub repo_retry_delay : ℕ
  pub repo_retry_timer : ℕ

abbrev pub null_unit : UnitRecord
null_unit = unit_new (record { full_qual = false; svc = []; inst = none }) false

unfoldable pub unit_at : Manager → ℕ → UnitRecord
unit_at m i = get_or m.units i null_unit

-- A function of unit.c, which changes its unit and the manager.
unfoldable pub on_unit : ℕ → (Machine → Res Machine) → Manager → Res Manager
unfolding unit_at
on_unit i f m = do
  x ← f (record {
    unit = unit_at m i;
    ts = m.ts;
    forks = m.forks;
    watched = m.watched;
    killed = m.killed;
    connections = m.connections;
    repo_up = m.repo_up;
    repo_retry_delay = m.repo_retry_delay;
    repo_retry_timer = m.repo_retry_timer;
  })
  ok (record {
    units = set m.units i x.unit;
    ts = x.ts;
    forks = x.forks;
    watched = x.watched;
    killed = x.killed;
    connections = x.connections;
    repo_up = x.repo_up;
    repo_retry_delay = x.repo_retry_delay;
    repo_retry_timer = x.repo_retry_timer;
  })

-- The position of the new unit.
unfoldable pub unit_add : S16Path → Bool → Manager → ℕ × Manager
unit_add path is_repository m =
    (length m.units, record m { units = list_add m.units (unit_new path is_repository) })

unfoldable pub manager_find_unit_for_pid : ℕ → Manager → Option ℕ
manager_find_unit_for_pid pid m = list_find m.units (λ u. unit_has_pid u pid)

-- A process event goes to the unit of the process, or to that of its parent, if any.
unfoldable pub manager_ptevent : Os → ℕ → PtEvent → ℕ → Manager → Res Manager
manager_ptevent os depth info ppid m = elim (manager_find_unit_for_pid info.pid m) [
  | some i ↦ on_unit i (unit_ptevent os depth info) m
  | none ↦ elim (manager_find_unit_for_pid ppid m) [
    | some i ↦ on_unit i (unit_ptevent os depth info) m
    | none ↦ ok m
  ]
]

-- A part that is not empty is kept.
unfoldable pub keep_segment : CStr → List CStr → List CStr
keep_segment [] segs = segs
keep_segment (c ∷ part) segs = (c ∷ part) ∷ segs

-- strtok_r with "\n"; the first argument is the part read so far.
unfoldable pub segments : CStr → CStr → List CStr
unfolding keep_segment
segments part [] = keep_segment part []
segments part (c ∷ buf) =
    let next = keep_segment part (segments [] buf) in
    let more = segments (part ++ c ∷ []) buf in if c == 10 then next else more

-- One part of a message. The unit may be NULL, which READY=1 reads through; a status is logged, with
-- the path of the unit.
unfoldable pub notify_segment : Os → ℕ → Option ℕ → CStr → Manager → Res Manager
notify_segment os depth unit seg m =
    let to_ready : Res Manager = elim unit [
      | none ↦ aborted
      | some i ↦ on_unit i (unit_notify_ready os depth) m
    ] in
    let to_status : Res Manager = elim unit [ none ↦ aborted | some i ↦ ok m ] in
    if str_eq seg (codes "READY=1")
    then to_ready
    else if ltb 7 (length seg) && str_eq (take 7 seg) (codes "STATUS=")
    then to_status
    else ok m

unfoldable pub notify_segments : Os → ℕ → Option ℕ → List CStr → Manager → Res Manager
notify_segments os depth unit [] m = ok m
notify_segments os depth unit (seg ∷ segs) m = do
  next ← notify_segment os depth unit seg m
  notify_segments os depth unit segs next

unfoldable pub dispatch_sd_notify : Os → ℕ → ℕ → CStr → Manager → Res Manager
dispatch_sd_notify os depth pid buf m =
    notify_segments os depth (manager_find_unit_for_pid pid m) (segments [] buf) m
