-- ===== src/Restartd/Units/Events.antt =====
-- What the restarter tells a unit (usr/src/agent/restartd/unit.c): events of the process tracker,
-- timers, readiness and requests.
pub mod Laws
pub mod Errors
use e_com_init.Restartd.Units.States.{
  manager_repo_retry_cb, UnitType, u_simple, u_forks, u_oneshot, u_group, u_notify, UnitState,
  us_none, us_uninitialised, us_disabled, us_offline, us_prestart, us_start, us_poststart,
  us_online, us_exited, us_stop, us_stopterm, us_stopkill, us_poststop, us_maintenance, is_state,
  UnitMethodType, um_prestart, at_method, set_method, UnitRecord, Machine, Os, state_to_method,
  unit_stopping, unit_has_pid, unit_deregister_pid, set_target, set_main, set_secondary,
  unit_timer_dereg,
}
use e_com_init.Common.{
  not, [], ℕ, zero, suc, ◌+◌, Bool, true, false, Option, none, some, List, ◌∷◌, if◌then◌else◌, ◌==◌,
  ltb, ◌&&◌, ◌||◌,
}
use e_com_init.Common.Res.{Res, ok, aborted, too_deep, ◌>>=◌}
use e_com_init.S16List.{list_add, list_empty}
use e_com_init.Restartd.Timer.{unit_restart_begin_cb, timerset_add, timerset_del}
use e_com_init.Restartd.Units.Enter.{
  Entry, purge_and_target, prestart, poststart, online, stop, stopterm, stopkill, enter_state,
  unit_enter,
}

pub data EventType : Type 0 where
  ev_child ev_exit ev_none : EventType

-- `abnormal` is S16ExitWasAbnormal of the event's flags.
pub record PtEvent : Type 0 where
  pub event : EventType
  pub pid : ℕ
  pub abnormal : Bool

-- timerset_del of a timer, without a change to the unit's timer_id.
unfoldable pub drop_timer : ℕ → Machine → Machine
unfolding timerset_del
drop_timer id m = record m { ts = timerset_del id m.ts }

unfoldable pub drop_timer_if_set : Machine → Machine
unfolding drop_timer
drop_timer_if_set m = if m.unit.timer_id == 0 then m else drop_timer m.unit.timer_id m

-- The list of PIDs, at the start of unit_ptevent.
unfoldable pub track_event : PtEvent → Machine → Machine
unfolding unit_has_pid unit_deregister_pid list_add
track_event info m = elim info.event [
  | ev_child ↦ if unit_has_pid m.unit info.pid then m else record m {
    watched = list_add m.watched info.pid;
    unit = record m.unit { pids = list_add m.unit.pids info.pid };
  }
  | ev_exit ↦ unit_deregister_pid info.pid m
  | ev_none ↦ m
]

-- One more failure of the method, as a count of the new value. A state that is no method's has index
-- -1, which writes outside the array.
unfoldable pub count_failure : Machine → Res (ℕ × Machine)
unfolding state_to_method at_method set_method
count_failure m = elim (state_to_method m.unit.state) [
  | none ↦ aborted
  | some method ↦
      let n = at_method m.unit.fail_cnt method + 1 in
      ok (n, record m { unit = record m.unit { fail_cnt = set_method m.unit.fail_cnt method n } })
]

module _ (os : Os) (depth : ℕ) where
  -- The delay is not used.
  unfoldable pub unit_retry_start : Machine → Res Machine
  unfolding set_target
  unit_retry_start m = do
    purged ← unit_enter os depth purge_and_target (set_target us_none m)
    (id, ts) ← timerset_add os.kernel os.tries unit_restart_begin_cb purged.ts
    ok (record purged { ts = ts; unit = record purged.unit { meth_restart_timer_id = id } })

  unfoldable pub restart_begin : ℕ → Machine → Res Machine
  unfolding drop_timer
  restart_begin id m =
      unit_enter os depth prestart
        (drop_timer id (record m { unit = record m.unit { meth_restart_timer_id = 0 } }))

  -- A method that fails for the sixth time sends the unit to maintenance.
  unfoldable pub after_failure : UnitState → ℕ → Machine → Res Machine
  unfolding set_target
  after_failure again n m =
      if ltb 5 n
      then unit_enter os depth purge_and_target (set_target us_maintenance m)
      else unit_retry_start (set_target again m)

  unfoldable pub failed_method : UnitState → Machine → Res Machine
  failed_method again m = do (n, counted) ← count_failure m; after_failure again n counted

  -- The exit of a process while the unit stops.
  unfoldable pub stopping_exit : Machine → Res Machine
  unfolding list_empty is_state drop_timer
  stopping_exit m =
      if is_state m.unit.state us_stop && list_empty m.unit.pids
      then unit_enter os depth stopterm (drop_timer m.unit.timer_id m)
      else if is_state m.unit.state us_stopterm && list_empty m.unit.pids
      then unit_enter os depth stopkill (drop_timer m.unit.timer_id m)
      else ok m

  unfoldable pub running_main_exit : Machine → Res Machine
  unfolding list_empty set_target
  running_main_exit m = elim m.unit.type [
    | u_simple ↦ unit_enter os depth stop (set_target us_offline m)
    | u_group ↦ ok m
    | u_forks ↦
        if list_empty m.unit.pids then unit_enter os depth stop (set_target us_offline m) else ok m
    | u_oneshot ↦
        if list_empty m.unit.pids then unit_enter os depth stop (set_target us_offline m) else ok m
    | u_notify ↦
        if list_empty m.unit.pids then unit_enter os depth stop (set_target us_offline m) else ok m
  ]

  unfoldable pub main_exit : Bool → Machine → Res Machine
  unfolding is_state drop_timer_if_set set_target set_main
  main_exit abnormal m =
      let left = drop_timer_if_set (set_main 0 m) in
      if abnormal
      then if is_state left.unit.state us_online
        then unit_enter os depth purge_and_target (set_target us_offline left)
        else failed_method left.unit.state left
      else if is_state left.unit.state us_prestart
      then unit_enter os depth purge_and_target (set_target us_start left)
      else if is_state left.unit.state us_online || is_state left.unit.state us_poststart
      then running_main_exit left
      else ok left

  unfoldable pub after_poststart : Bool → Machine → Res Machine
  after_poststart abnormal left =
      if abnormal then failed_method us_prestart left else unit_enter os depth online left

  unfoldable pub secondary_exit : Bool → Machine → Res Machine
  unfolding is_state drop_timer_if_set set_secondary
  secondary_exit abnormal m =
      if is_state m.unit.state us_poststart
      then after_poststart abnormal (set_secondary 0 (drop_timer_if_set m))
      else ok m

  unfoldable pub unit_ptevent : PtEvent → Machine → Res Machine
  unfolding track_event unit_stopping
  unit_ptevent info m =
      let tracked = track_event info m in
      elim info.event [
        | ev_exit ↦
            if unit_stopping tracked.unit
            then stopping_exit tracked
            else if info.pid == tracked.unit.main_pid
            then main_exit info.abnormal tracked
            else if info.pid == tracked.unit.secondary_pid
            then secondary_exit info.abnormal tracked
            else ok tracked
        | ev_child ↦ ok tracked
        | ev_none ↦ ok tracked
      ]

  unfoldable pub start_timed_out : Machine → Res Machine
  unfolding at_method set_method set_target
  start_timed_out m =
      let n = m.unit.fail_cnt.prestart + 1 in
      let counted = record m {
        unit = record m.unit { fail_cnt = set_method m.unit.fail_cnt um_prestart n };
      } in
      if ltb 5 n
      then unit_enter os depth purge_and_target (set_target us_maintenance counted)
      else unit_enter os depth purge_and_target (set_target us_prestart counted)

  unfoldable pub timer_in_state : UnitState → Machine → Res Machine
  timer_in_state us_stop m = unit_enter os depth stopterm m
  timer_in_state us_stopkill m = unit_enter os depth (enter_state m.unit.target) m
  timer_in_state us_prestart m = start_timed_out m
  timer_in_state us_start m = start_timed_out m
  timer_in_state us_stopterm m = ok m
  timer_in_state us_none m = ok m
  timer_in_state us_uninitialised m = ok m
  timer_in_state us_disabled m = ok m
  timer_in_state us_offline m = ok m
  timer_in_state us_poststart m = ok m
  timer_in_state us_online m = ok m
  timer_in_state us_exited m = ok m
  timer_in_state us_poststop m = ok m
  timer_in_state us_maintenance m = ok m

  unfoldable pub unit_timer_event : ℕ → Machine → Res Machine
  unfolding drop_timer timer_in_state
  unit_timer_event id m =
      timer_in_state m.unit.state
        (drop_timer id (record m { unit = record m.unit { timer_id = 0 } }))

  unfoldable pub unit_notify_ready : Machine → Res Machine
  unfolding is_state unit_timer_dereg
  unit_notify_ready m =
      if is_state m.unit.state us_start
      then unit_enter os depth poststart (unit_timer_dereg m)
      else ok m

  -- A request of the type RR_START; the others are ignored.
  unfoldable pub unit_msg : Bool → Machine → Res Machine
  unit_msg rr_start m = if rr_start then unit_enter os depth prestart m else ok m

-- What can happen to a unit.
pub data Happening : Type 0 where
  process_event : PtEvent → Happening
  timer_event restart_event : ℕ → Happening
  ready : Happening
  repo_retry : Happening
  request : Bool → Happening

unfoldable pub handle : Os → ℕ → Happening → Machine → Res Machine
handle os depth (process_event info) m = unit_ptevent os depth info m
handle os depth (timer_event id) m = unit_timer_event os depth id m
handle os depth (restart_event id) m = restart_begin os depth id m
handle os depth ready m = unit_notify_ready os depth m
handle os depth repo_retry m = manager_repo_retry_cb os m
handle os depth (request rr_start) m = unit_msg os depth rr_start m

unfoldable pub handle_all : Os → ℕ → List Happening → Machine → Res Machine
unfolding handle
handle_all os depth [] m = ok m
handle_all os depth (e ∷ es) m = do next ← handle os depth e m; handle_all os depth es next
