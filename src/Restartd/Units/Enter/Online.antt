-- ===== src/Restartd/Units/Enter/Online.antt =====
-- No function unit_enter_* gives a unit the state online.
use Prim.Native.Nat.{◌*◌}
use e_com_init.Common.{
  ltb, ◌+◌, ℕ, zero, suc, ◌≡◌, refl, inl, inr, not, Bool, true, false, Option, none, some, List,
  if◌then◌else◌, ◌==◌, Bool-cases,
}
use e_com_init.Restartd.Timer.{repo_retry_cb, unit_timer_event, timerset_add}
use e_com_init.Restartd.Units.States.{
  retry_after, manager_configd_came_up, manager_repo_retry_cb, UnitType, UnitState, Machine, Os,
  set_state, set_target, set_main, set_secondary, signal_pids, unit_timer_reg,
  unit_fork_and_register, u_simple, u_forks, u_oneshot, u_group, u_notify, us_none,
  us_uninitialised, us_disabled, us_offline, us_prestart, us_start, us_poststart, us_online,
  us_exited, us_stop, us_stopterm, us_stopkill, us_poststop, us_maintenance, is_state, state_code,
}
use e_com_init.Common.Res.{Res, ok, too_deep, ◌>>=◌, >>=-eq-ok}
use e_com_init.S16List.{list_empty}
use e_com_init.Restartd.Units.Enter.{
  Entry, purge_and_target, maintenance, offline, prestart, start, poststart, online, stop, stopterm,
  stopkill, enter_state, unit_enter_maintenance, unit_enter_offline, unit_enter_online, give_up,
  unit_purge_and_target, unit_enter_prestart, unit_enter_start, unit_enter_poststart,
  unit_enter_stop, unit_enter_stopterm, unit_enter_stopkill, unit_enter_state, enter_body,
  unit_enter,
}

-- The result, if there is one, does not have the state online.
abbrev pub NotOnline : Machine → Type 0
NotOnline m = is_state m.unit.state us_online ≡ false

abbrev pub Safe : Res Machine → Type 0
Safe r = (m' : Machine) → r ≡ ok m' → NotOnline m'

pub ok-Safe : (m : Machine) → NotOnline m → Safe (ok m)
ok-Safe m h m' e = cc

pub too_deep-Safe : Safe too_deep
too_deep-Safe m' e = cc

pub bind-Safe :
    {A : Type 0} (r : Res A) (f : A → Res Machine)
    → ((a : A) → r ≡ ok a → Safe (f a))
    → Safe (r >>= f)
bind-Safe r f h m' e = let (a, p, q) = >>=-eq-ok r f e in h a p m' q

module _ (os : Os) where
  timer_reg-Safe : (m : Machine) → NotOnline m → Safe (unit_timer_reg os m)
  unfolding unit_timer_reg
  timer_reg-Safe m h =
      bind-Safe (timerset_add os.kernel os.tries unit_timer_event m.ts) _ (λ a p. ok-Safe _ h)

  fork-NotOnline : (m : Machine) → NotOnline m → NotOnline (unit_fork_and_register os m).1
  unfolding unit_fork_and_register
  fork-NotOnline m n = elim (Bool-cases (os.fork_pid m.forks == 0)) [
    | inl t ↦ rw t n
    | inr f ↦ rw f n
  ]

  retry_after-Safe : (delay : ℕ) (m : Machine) → NotOnline m → Safe (retry_after os delay m)
  unfolding retry_after
  retry_after-Safe delay m h =
      bind-Safe (timerset_add os.kernel os.tries repo_retry_cb m.ts) _ (λ a p. ok-Safe _ h)

  came_up-Safe : (m : Machine) → NotOnline m → Safe (manager_configd_came_up os m)
  unfolding manager_configd_came_up
  came_up-Safe m h =
      let tried = record m { connections = m.connections + 1 } in
      elim (Bool-cases (os.connects m.connections)) [
        | inl t ↦ rw t (ok-Safe (record tried { repo_up = true }) h)
        | inr f ↦ rw f (retry_after-Safe 5 tried h)
      ]

  pub repo_retry-Safe : (m : Machine) → NotOnline m → Safe (manager_repo_retry_cb os m)
  unfolding manager_repo_retry_cb
  repo_retry-Safe m h =
      let tried = record m { connections = m.connections + 1 } in
      elim (Bool-cases (os.connects m.connections)) [
        | inl t ↦ rw t (ok-Safe (record tried { repo_up = true }) h)
        | inr f ↦ rw f (elim (Bool-cases (ltb 3000 (m.repo_retry_delay * 2))) [
          | inl t ↦ rw t (ok-Safe (record tried { repo_retry_delay = m.repo_retry_delay * 2 }) h)
          | inr g ↦ rw g (retry_after-Safe (m.repo_retry_delay * 2) tried h)
        ])
      ]

module _ (os : Os) (call : Entry → Machine → Res Machine)
    (h : (entry : Entry) (m : Machine) → NotOnline m → Safe (call entry m)) where
  give_up-Safe : (m : Machine) → NotOnline m → Safe (give_up os call m)
  unfolding give_up set_target
  give_up-Safe m n = h purge_and_target _ n

  forked-Safe :
      (pid : ℕ) (m : Machine) → NotOnline m → Safe (if pid == 0 then give_up os call m else ok m)
  forked-Safe pid m n = elim (Bool-cases (pid == 0)) [
    | inl t ↦ rw t (give_up-Safe m n)
    | inr f ↦ rw f (ok-Safe m n)
  ]

  -- A fork in the state s, with the timer started first.
  timed-Safe :
      (s : UnitState) (place : ℕ → Machine → Machine) (m : Machine)
      → is_state s us_online ≡ false
      → ((pid : ℕ) (x : Machine) → NotOnline x → NotOnline (place pid x))
      → Safe (
          unit_timer_reg os (set_state s m) >>= (λ timed.
            let (pid, forked) = unit_fork_and_register os timed in
            if pid == 0 then give_up os call (place pid forked) else ok (place pid forked)))
  unfolding set_state
  timed-Safe s place m n k = bind-Safe (unit_timer_reg os (set_state s m)) _ (λ timed p.
      forked-Safe (unit_fork_and_register os timed).0 _
        (k _ _ (fork-NotOnline os timed (timer_reg-Safe os (set_state s m) n timed p))))

  optional-Safe :
      (method : Option (List ℕ)) (next : Res Machine) (timed : Res Machine)
      → Safe next
      → Safe timed
      → Safe (elim method [ none ↦ next | some cmd ↦ timed ])
  optional-Safe none next timed a b = a
  optional-Safe (some cmd) next timed a b = b

  empty-Safe : (b : Bool) (x y : Res Machine) → Safe x → Safe y → Safe (if b then x else y)
  empty-Safe true x y a c = a
  empty-Safe false x y a c = c

  by_type-Safe :
      (t : UnitType) (x y : Res Machine)
      → Safe x
      → Safe y
      → Safe (elim t [ u_simple ↦ x | u_oneshot ↦ x | u_group ↦ x | u_forks ↦ y | u_notify ↦ y ])
  by_type-Safe u_simple x y a b = a
  by_type-Safe u_oneshot x y a b = a
  by_type-Safe u_group x y a b = a
  by_type-Safe u_forks x y a b = b
  by_type-Safe u_notify x y a b = b

  main-Safe :
      (pid : ℕ) (x : Machine)
      → NotOnline x
      → Safe (
          if pid == 0 then give_up os call x else elim x.unit.type [
            | u_simple ↦ call poststart x
            | u_oneshot ↦ call poststart x
            | u_group ↦ call poststart x
            | u_forks ↦ unit_timer_reg os x
            | u_notify ↦ unit_timer_reg os x
          ])
  main-Safe pid x k = empty-Safe (pid == 0) _ _ (give_up-Safe x k) (
      by_type-Safe x.unit.type (call poststart x) (unit_timer_reg os x) (h poststart x k)
        (timer_reg-Safe os x k))

  state-Safe : (s : UnitState) (m : Machine) → NotOnline m → Safe (unit_enter_state os call s m)
  unfolding unit_enter_state set_state is_state state_code
  state-Safe us_offline m n = h offline m n
  state-Safe us_maintenance m n = h maintenance m n
  state-Safe us_prestart m n = h prestart m n
  state-Safe us_start m n = h start m n
  state-Safe us_poststart m n = h poststart m n
  state-Safe us_online m n = h online m n
  state-Safe us_none m n = ok-Safe (set_state us_none m) refl
  state-Safe us_uninitialised m n = ok-Safe m n
  state-Safe us_disabled m n = ok-Safe m n
  state-Safe us_exited m n = ok-Safe m n
  state-Safe us_stop m n = ok-Safe m n
  state-Safe us_stopterm m n = ok-Safe m n
  state-Safe us_stopkill m n = ok-Safe m n
  state-Safe us_poststop m n = ok-Safe m n

  entered-Safe : (entry : Entry) (m : Machine) → NotOnline m → Safe (enter_body os call entry m)
  unfolding enter_body unit_enter_maintenance unit_enter_offline unit_enter_online
      unit_purge_and_target unit_enter_prestart unit_enter_start unit_enter_poststart
      unit_enter_stop unit_enter_stopterm unit_enter_stopkill signal_pids set_state set_main
      set_secondary is_state state_code
  entered-Safe maintenance m n = ok-Safe (set_state us_maintenance m) refl
  entered-Safe purge_and_target m n =
      empty-Safe (not (list_empty m.unit.pids)) _ _ (h stop m n) (h (enter_state m.unit.target) m n)
  entered-Safe offline m n = ok-Safe (set_state us_offline m) refl
  entered-Safe prestart m n =
      optional-Safe m.unit.methods.prestart _ _ (h start m n)
        (timed-Safe us_prestart set_main m refl (λ pid x k. k))
  entered-Safe start m n =
      let r = unit_fork_and_register os (set_state us_start m) in
      main-Safe r.0 (set_main r.0 r.1) (fork-NotOnline os (set_state us_start m) refl)
  entered-Safe poststart m n =
      optional-Safe m.unit.methods.poststart _ _ (h online m n)
        (timed-Safe us_poststart set_secondary m refl (λ pid x k. k))
  entered-Safe online m n = empty-Safe m.unit.is_repository _ _ (came_up-Safe os m n) (ok-Safe m n)
  entered-Safe stop m n =
      optional-Safe m.unit.methods.stop _ _ (h stopterm m n)
        (timed-Safe us_stop set_secondary m refl (λ pid x k. k))
  entered-Safe stopterm m n =
      empty-Safe (list_empty m.unit.pids) _ _ (h (enter_state m.unit.target) m n)
        (timer_reg-Safe os (signal_pids (set_state us_stopterm m)) refl)
  entered-Safe stopkill m n =
      empty-Safe (list_empty m.unit.pids) _ _ (h (enter_state m.unit.target) m n)
        (timer_reg-Safe os (signal_pids (set_state us_stopkill m)) refl)
  entered-Safe (enter_state s) m n = state-Safe s m n

-- Whatever is entered, at whatever depth, a unit whose state is not online before is not online
-- after: entering online does not set the state.
pub unit_enter-NotOnline :
    (os : Os) (depth : ℕ) (entry : Entry) (m : Machine)
    → NotOnline m
    → Safe (unit_enter os depth entry m)
unfolding unit_enter
unit_enter-NotOnline os zero entry m n = too_deep-Safe
unit_enter-NotOnline os (suc depth) entry m n =
    entered-Safe os (unit_enter os depth) (unit_enter-NotOnline os depth) entry m n
