-- ===== src/Restartd/Units/Events/Errors.antt =====
-- Where a failure is counted outside the array.
use e_com_init.Common.{ℕ, ◌≡◌, refl, sym, subst, ap, ◌∙◌, true, false, none, ◌==◌, ==_iff, arith}
use e_com_init.Common.Res.{aborted}
use e_com_init.Restartd.Units.States.{
  UnitState, Machine, Os, set_main, us_online, is_state, state_to_method, unit_stopping,
  unit_deregister_pid,
}
use e_com_init.Restartd.Units.Events.{
  ev_exit, PtEvent, drop_timer, drop_timer_if_set, track_event, count_failure, failed_method,
  main_exit, unit_ptevent,
}
use e_com_init.Restartd.Units.Events.Laws.{drop-NotOnline}

failed-aborted :
    (os : Os) (depth : ℕ) (again : UnitState) (m : Machine)
    → state_to_method m.unit.state ≡ none
    → failed_method os depth again m ≡ aborted
unfolding failed_method count_failure
failed-aborted os depth again m h =
    let out : count_failure m ≡ aborted = rw (h, count_failure) refl in rw out refl

drop-state : (m : Machine) → (drop_timer_if_set m).unit.state ≡ m.unit.state
unfolding drop_timer_if_set drop_timer
drop-state m = ground arith

main-aborted :
    (os : Os) (depth : ℕ) (m : Machine)
    → is_state m.unit.state us_online ≡ false
    → state_to_method m.unit.state ≡ none
    → main_exit os depth true m ≡ aborted
unfolding main_exit set_main
main-aborted os depth m n h =
    let left = drop_timer_if_set (set_main 0 m) in
    let same : left.unit.state ≡ m.unit.state = drop-state (set_main 0 m) in
    let not_online : is_state left.unit.state us_online ≡ false = drop-NotOnline (set_main 0 m) n in
    rw (not_online) (failed-aborted os depth left.unit.state left (ap state_to_method same ∙ h))

-- The abnormal exit of the main process in a state that is no method's, not online and not stopping,
-- writes outside the array of failure counts.
pub unit_ptevent-aborted :
    (os : Os) (depth : ℕ) (info : PtEvent) (m : Machine)
    → info.event ≡ ev_exit
    → info.abnormal ≡ true
    → info.pid ≡ m.unit.main_pid
    → unit_stopping m.unit ≡ false
    → is_state m.unit.state us_online ≡ false
    → state_to_method m.unit.state ≡ none
    → unit_ptevent os depth info m ≡ aborted
unfolding unit_ptevent track_event unit_deregister_pid
unit_ptevent-aborted os depth info m e a p s n none_of =
    let gone = unit_deregister_pid info.pid m in
    let main : (info.pid == gone.unit.main_pid) ≡ true = (==_iff info.pid m.unit.main_pid).1 p in
    let stays : unit_stopping gone.unit ≡ false = s in
    let out : main_exit os depth info.abnormal gone ≡ aborted =
      subst (λ b. main_exit os depth b gone ≡ aborted) (sym a)
        (main-aborted os depth gone n none_of) in
    rw (e, stays, main) out
