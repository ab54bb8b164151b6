-- ===== src/Restartd/Units/Enter/Stop.antt =====
-- A unit whose stop method cannot be forked.
use e_com_init.Common.{
  ℕ, zero, suc, ◌+◌, ◌≡◌, ◌≢◌, refl, sym, ap, ◌∙◌, false, Option, none, some, List,
}
use e_com_init.Common.Res.{Res, ok, >>=-eq-ok}
use e_com_init.S16List.{list_empty}
use e_com_init.Restartd.Timer.{unit_timer_event, timerset_add}
use e_com_init.Restartd.Units.States.{
  Machine, Os, set_state, set_target, set_secondary, unit_timer_reg, unit_fork_and_register,
  us_stop, us_maintenance,
}
use e_com_init.Restartd.Units.Enter.{
  Entry, purge_and_target, stop, give_up, unit_purge_and_target, unit_enter_stop, enter_body,
  unit_enter,
}

-- Starting the timer changes the unit's timer_id only.
pub timer_reg-unit :
    (os : Os) (m t : Machine)
    → unit_timer_reg os m ≡ ok t
    → (id : ℕ) × (t.unit ≡ record m.unit { timer_id = id })
unfolding unit_timer_reg
timer_reg-unit os m t e =
    let ((id, ts), p, q) = >>=-eq-ok (timerset_add os.kernel os.tries unit_timer_event m.ts) _ e in
    let same : record m { ts = ts; unit = record m.unit { timer_id = id } } ≡ t = cc in
    (id, ap (λ x. x.unit) (sym same))

-- A fork that fails gives no PID.
fork-fails :
    (os : Os) (m : Machine)
    → os.fork_pid m.forks ≡ 0
    → unit_fork_and_register os m ≡ (0, record m { forks = m.forks + 1 })
unfolding unit_fork_and_register
fork-fails os m h = rw h refl

has_method :
    {cmd : List ℕ} (method : Option (List ℕ)) (next timed : Res Machine)
    → method ≡ some cmd
    → elim method [ none ↦ next | some c ↦ timed ] ≡ timed
has_method none next timed e = cc
has_method (some c) next timed e = refl

gives_up :
    (os : Os) (call : Entry → Machine → Res Machine) (m m' : Machine) (cmd : List ℕ)
    → ((n : ℕ) → os.fork_pid n ≡ 0)
    → m.unit.methods.stop ≡ some cmd
    → unit_enter_stop os call m ≡ ok m'
    → (x : Machine) × (x.unit.methods.stop ≡ some cmd)
      × (x.unit.pids ≡ m.unit.pids)
      × (call purge_and_target x ≡ ok m')
unfolding unit_enter_stop set_state set_secondary give_up set_target
gives_up os call m m' cmd fails has e =
    let (timed, p, q) =
      >>=-eq-ok (unit_timer_reg os (set_state us_stop m)) _
        (sym (has_method m.unit.methods.stop _ _ has) ∙ e) in
    let (id, u) = timer_reg-unit os (set_state us_stop m) timed p in
    let out = rw (fork-fails os timed (fails timed.forks)) at q in
    (
      set_target us_maintenance (set_secondary 0 (record timed { forks = timed.forks + 1 })),
      ap (λ x. x.methods.stop) u ∙ has,
      ap (λ x. x.pids) u,
      out,
    )

-- Where a unit has a stop method and PIDs and no fork succeeds, unit_enter_stop never returns, however
-- deep the calls nest: each attempt fails and asks for another.
pub unit_enter_stop_lem :
    (os : Os) (depth : ℕ) (m m' : Machine) (cmd : List ℕ)
    → ((n : ℕ) → os.fork_pid n ≡ 0)
    → m.unit.methods.stop ≡ some cmd
    → list_empty m.unit.pids ≡ false
    → (unit_enter os depth stop m ≢ ok m') × (unit_enter os depth purge_and_target m ≢ ok m')
unfolding unit_enter enter_body unit_purge_and_target
unit_enter_stop_lem os zero m m' cmd fails has pids = (λ e. cc, λ e. cc)
unit_enter_stop_lem os (suc depth) m m' cmd fails has pids = (
  λ e.
      let (x, s, same, again) = gives_up os (unit_enter os depth) m m' cmd fails has e in
      (unit_enter_stop_lem os depth x m' cmd fails s (ap list_empty same ∙ pids)).1 again,
  λ e. (unit_enter_stop_lem os depth m m' cmd fails has pids).0 (rw pids at e),
)
