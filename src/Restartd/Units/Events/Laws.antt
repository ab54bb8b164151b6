-- ===== src/Restartd/Units/Events/Laws.antt =====
-- What a unit can be brought to by events.
use e_com_init.Restartd.Units.Events.{
  repo_retry, EventType, ev_child, ev_exit, ev_none, PtEvent, drop_timer, drop_timer_if_set,
  track_event, count_failure, unit_retry_start, restart_begin, after_failure, failed_method,
  stopping_exit, running_main_exit, main_exit, after_poststart, secondary_exit, unit_ptevent,
  start_timed_out, timer_in_state, unit_timer_event, unit_notify_ready, unit_msg, Happening,
  process_event, timer_event, restart_event, ready, request, handle, handle_all,
}
use e_com_init.Restartd.Units.Enter.Online.{
  repo_retry-Safe, NotOnline, Safe, ok-Safe, bind-Safe, unit_enter-NotOnline,
}
use e_com_init.Common.{
  ℕ, ◌+◌, ◌≡◌, inl, inr, ◌||◌, ◌&&◌, Bool, true, false, List, [], ◌∷◌, if◌then◌else◌, ◌==◌, ltb,
  arith, Option-cases,
}
use e_com_init.Common.Res.{Res, ok, >>=-eq-ok}
use e_com_init.S16List.{list_add, list_empty}
use e_com_init.Restartd.Timer.{timerset_add, unit_restart_begin_cb}
use e_com_init.Restartd.Units.States.{
  UnitType, UnitState, Machine, Os, set_target, set_main, set_secondary, u_simple, u_forks,
  u_oneshot, u_group, u_notify, us_none, us_uninitialised, us_disabled, us_offline, us_prestart,
  us_start, us_poststart, us_online, us_exited, us_stop, us_stopterm, us_stopkill, us_poststop,
  us_maintenance, is_state, state_to_method, unit_stopping, unit_has_pid, unit_deregister_pid,
  unit_timer_dereg, set_method, um_prestart,
}
use e_com_init.Restartd.Units.Enter.{
  Entry, purge_and_target, prestart, poststart, online, stop, stopterm, stopkill, enter_state,
  unit_enter,
}

if-Safe : (b : Bool) {x y : Res Machine} → Safe x → Safe y → Safe (if b then x else y)
if-Safe true a c = a
if-Safe false a c = c

pub drop-NotOnline : (m : Machine) → NotOnline m → NotOnline (drop_timer_if_set m)
unfolding drop_timer_if_set drop_timer
drop-NotOnline m n = ground arith

track-NotOnline : (info : PtEvent) (m : Machine) → NotOnline m → NotOnline (track_event info m)
unfolding track_event unit_deregister_pid
track-NotOnline info m n = go info.event
  where
    go :
        (e : EventType)
        → NotOnline (elim e [
          | ev_child ↦ if unit_has_pid m.unit info.pid then m else record m {
            watched = list_add m.watched info.pid;
            unit = record m.unit { pids = list_add m.unit.pids info.pid };
          }
          | ev_exit ↦ unit_deregister_pid info.pid m
          | ev_none ↦ m
        ])
    go ev_child = ground arith
    go ev_exit = n
    go ev_none = n

count-Safe : (m : Machine) (r : ℕ × Machine) → NotOnline m → count_failure m ≡ ok r → NotOnline r.1
unfolding count_failure
count-Safe m (k, r) n e = elim (Option-cases (state_to_method m.unit.state)) [
  | inl a ↦ ground (arith, e, a)
  | inr (method, a) ↦ let out = rw (a, count_failure) at e in cc
]

module _ (os : Os) (depth : ℕ) where
  enters : (entry : Entry) (m : Machine) → NotOnline m → Safe (unit_enter os depth entry m)
  enters = unit_enter-NotOnline os depth

  retry-Safe : (m : Machine) → NotOnline m → Safe (unit_retry_start os depth m)
  unfolding unit_retry_start set_target
  retry-Safe m n =
      bind-Safe (unit_enter os depth purge_and_target (set_target us_none m)) _ (λ purged p.
        bind-Safe (timerset_add os.kernel os.tries unit_restart_begin_cb purged.ts) _
          (λ a q. ok-Safe _ (enters purge_and_target (set_target us_none m) n purged p)))

  failed-Safe :
      (again : UnitState) (m : Machine) → NotOnline m → Safe (failed_method os depth again m)
  unfolding failed_method after_failure set_target
  failed-Safe again m n = bind-Safe (count_failure m) _ (λ r p.
      let k = count-Safe m r n p in
      if-Safe (ltb 5 r.0) (enters purge_and_target (set_target us_maintenance r.1) k)
        (retry-Safe (set_target again r.1) k))

  stopping-Safe : (m : Machine) → NotOnline m → Safe (stopping_exit os depth m)
  unfolding stopping_exit drop_timer
  stopping-Safe m n =
      if-Safe (is_state m.unit.state us_stop && list_empty m.unit.pids)
        (enters stopterm (drop_timer m.unit.timer_id m) n)
        (if-Safe (is_state m.unit.state us_stopterm && list_empty m.unit.pids)
          (enters stopkill (drop_timer m.unit.timer_id m) n) (ok-Safe m n))

  running-Safe : (m : Machine) → NotOnline m → Safe (running_main_exit os depth m)
  unfolding running_main_exit set_target
  running-Safe m n = go m.unit.type
    where
      stops : Safe (unit_enter os depth stop (set_target us_offline m))
      stops = enters stop (set_target us_offline m) n

      go :
          (t : UnitType)
          → Safe (elim t [
            | u_simple ↦ unit_enter os depth stop (set_target us_offline m)
            | u_group ↦ ok m
            | u_forks ↦
                if list_empty m.unit.pids
                then unit_enter os depth stop (set_target us_offline m)
                else ok m
            | u_oneshot ↦
                if list_empty m.unit.pids
                then unit_enter os depth stop (set_target us_offline m)
                else ok m
            | u_notify ↦
                if list_empty m.unit.pids
                then unit_enter os depth stop (set_target us_offline m)
                else ok m
          ])
      go u_simple = stops
      go u_group = ok-Safe m n
      go u_forks = if-Safe (list_empty m.unit.pids) stops (ok-Safe m n)
      go u_oneshot = if-Safe (list_empty m.unit.pids) stops (ok-Safe m n)
      go u_notify = if-Safe (list_empty m.unit.pids) stops (ok-Safe m n)

  main-Safe : (abnormal : Bool) (m : Machine) → NotOnline m → Safe (main_exit os depth abnormal m)
  unfolding main_exit set_main set_target
  main-Safe abnormal m n =
      let left = drop_timer_if_set (set_main 0 m) in
      let k : NotOnline left = drop-NotOnline (set_main 0 m) n in
      if-Safe abnormal
        (if-Safe (is_state left.unit.state us_online)
          (enters purge_and_target (set_target us_offline left) k)
          (failed-Safe left.unit.state left k))
        (if-Safe (is_state left.unit.state us_prestart)
          (enters purge_and_target (set_target us_start left) k)
          (if-Safe (is_state left.unit.state us_online || is_state left.unit.state us_poststart)
            (running-Safe left k) (ok-Safe left k)))

  secondary-Safe :
      (abnormal : Bool) (m : Machine) → NotOnline m → Safe (secondary_exit os depth abnormal m)
  unfolding secondary_exit after_poststart set_secondary
  secondary-Safe abnormal m n =
      let left = set_secondary 0 (drop_timer_if_set m) in
      let k : NotOnline left = drop-NotOnline m n in
      if-Safe (is_state m.unit.state us_poststart)
        (if-Safe abnormal (failed-Safe us_prestart left k) (enters online left k)) (ok-Safe m n)

  ptevent-Safe : (info : PtEvent) (m : Machine) → NotOnline m → Safe (unit_ptevent os depth info m)
  unfolding unit_ptevent
  ptevent-Safe info m n = go info.event
    where
      tracked : Machine
      tracked = track_event info m

      k : NotOnline tracked
      k = track-NotOnline info m n

      go :
          (e : EventType)
          → Safe (elim e [
            | ev_exit ↦
                if unit_stopping tracked.unit
                then stopping_exit os depth tracked
                else if info.pid == tracked.unit.main_pid
                then main_exit os depth info.abnormal tracked
                else if info.pid == tracked.unit.secondary_pid
                then secondary_exit os depth info.abnormal tracked
                else ok tracked
            | ev_child ↦ ok tracked
            | ev_none ↦ ok tracked
          ])
      go ev_child = ok-Safe tracked k
      go ev_none = ok-Safe tracked k
      go ev_exit = if-Safe (unit_stopping tracked.unit) (stopping-Safe tracked k) (
          if-Safe (info.pid == tracked.unit.main_pid) (main-Safe info.abnormal tracked k) (
            if-Safe (info.pid == tracked.unit.secondary_pid)
              (secondary-Safe info.abnormal tracked k) (ok-Safe tracked k)))

  timed_out-Safe : (m : Machine) → NotOnline m → Safe (start_timed_out os depth m)
  unfolding start_timed_out set_target
  timed_out-Safe m n =
      let counts = set_method m.unit.fail_cnt um_prestart (m.unit.fail_cnt.prestart + 1) in
      let counted = record m { unit = record m.unit { fail_cnt = counts } } in
      if-Safe (ltb 5 (m.unit.fail_cnt.prestart + 1))
        (enters purge_and_target (set_target us_maintenance counted) n)
        (enters purge_and_target (set_target us_prestart counted) n)

  timer-Safe : (s : UnitState) (m : Machine) → NotOnline m → Safe (timer_in_state os depth s m)
  unfolding timer_in_state
  timer-Safe us_stop m n = enters stopterm m n
  timer-Safe us_stopkill m n = enters (enter_state m.unit.target) m n
  timer-Safe us_prestart m n = timed_out-Safe m n
  timer-Safe us_start m n = timed_out-Safe m n
  timer-Safe us_stopterm m n = ok-Safe m n
  timer-Safe us_none m n = ok-Safe m n
  timer-Safe us_uninitialised m n = ok-Safe m n
  timer-Safe us_disabled m n = ok-Safe m n
  timer-Safe us_offline m n = ok-Safe m n
  timer-Safe us_poststart m n = ok-Safe m n
  timer-Safe us_online m n = ok-Safe m n
  timer-Safe us_exited m n = ok-Safe m n
  timer-Safe us_poststop m n = ok-Safe m n
  timer-Safe us_maintenance m n = ok-Safe m n

  handle-Safe : (e : Happening) (m : Machine) → NotOnline m → Safe (handle os depth e m)
  unfolding handle unit_timer_event restart_begin unit_notify_ready unit_msg drop_timer
      unit_timer_dereg
  handle-Safe (process_event info) m n = ptevent-Safe info m n
  handle-Safe (timer_event id) m n =
      timer-Safe m.unit.state (drop_timer id (record m { unit = record m.unit { timer_id = 0 } })) n
  handle-Safe (restart_event id) m n =
      enters prestart
        (drop_timer id (record m { unit = record m.unit { meth_restart_timer_id = 0 } })) n
  handle-Safe ready m n =
      if-Safe (is_state m.unit.state us_start) (enters poststart (unit_timer_dereg m) n)
        (ok-Safe m n)
  handle-Safe repo_retry m n = repo_retry-Safe os m n
  handle-Safe (request rr_start) m n = if-Safe rr_start (enters prestart m n) (ok-Safe m n)

-- Whatever process events, timers, retries, readiness messages and requests reach a unit whose state is not
-- online, and however its forks end, its state is not online afterwards: no operation arrives there.
pub handle_all-NotOnline :
    (os : Os) (depth : ℕ) (events : List Happening) (m m' : Machine)
    → NotOnline m
    → handle_all os depth events m ≡ ok m'
    → NotOnline m'
unfolding handle_all
handle_all-NotOnline os depth [] m m' n e = cc
handle_all-NotOnline os depth (x ∷ xs) m m' n e =
    let (next, p, q) = >>=-eq-ok (handle os depth x m) _ e in
    handle_all-NotOnline os depth xs next m' (handle-Safe os depth x m n next p) q
