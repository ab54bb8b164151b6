-- ===== src/Restartd/Units/States.antt =====
-- The types of usr/src/agent/restartd/unit.h, the state of the restarter (manager.h) that a unit
-- uses, and the functions of unit.c that do not move a unit from state to state.
use Prim.Native.Nat.{◌*◌}
use e_com_init.Common.{
  ltb, ℕ, ◌+◌, Bool, true, false, Option, none, some, List, [], ◌∷◌, ◌++◌, if◌then◌else◌, ◌==◌,
  ◌||◌,
}
use e_com_init.Common.Res.{Res, ok, ◌>>=◌}
use e_com_init.S16List.{list_add}
use e_com_init.Restartd.Timer.{Callback, TimerSet, Kernel, timerset_add, timerset_del}
use e_com_init.Service.Types.{S16Path}

pub data UnitType : Type 0 where
  u_simple u_forks u_oneshot u_group u_notify : UnitType

pub data UnitState : Type 0 where
  us_none us_uninitialised us_disabled us_offline us_prestart us_start us_poststart us_online
        us_exited us_stop us_stopterm us_stopkill us_poststop us_maintenance :
      UnitState

-- The value of the C enum.
unfoldable pub state_code : UnitState → ℕ
state_code us_none = 0
state_code us_uninitialised = 1
state_code us_disabled = 2
state_code us_offline = 3
state_code us_prestart = 4
state_code us_start = 5
state_code us_poststart = 6
state_code us_online = 7
state_code us_exited = 8
state_code us_stop = 9
state_code us_stopterm = 10
state_code us_stopkill = 11
state_code us_poststop = 12
state_code us_maintenance = 13

unfoldable pub is_state : UnitState → UnitState → Bool
unfolding state_code
is_state s t = state_code s == state_code t

pub data UnitMethodType : Type 0 where
  um_prestart um_start um_poststart um_stop um_poststop : UnitMethodType

-- A value per method type: the arrays of UM_MAX entries.
pub record PerMethod {ℓ} (A : Type ℓ) : Type ℓ where
  pub prestart : A
  pub start : A
  pub poststart : A
  pub stop : A
  pub poststop : A

unfoldable pub at_method {ℓ} : {A : Type ℓ} → PerMethod A → UnitMethodType → A
at_method m um_prestart = m.prestart
at_method m um_start = m.start
at_method m um_poststart = m.poststart
at_method m um_stop = m.stop
at_method m um_poststop = m.poststop

unfoldable pub set_method {ℓ} : {A : Type ℓ} → PerMethod A → UnitMethodType → A → PerMethod A
set_method m um_prestart a = record m { prestart = a }
set_method m um_start a = record m { start = a }
set_method m um_poststart a = record m { poststart = a }
set_method m um_stop a = record m { stop = a }
set_method m um_poststop a = record m { poststop = a }

-- A PID of 0 is none. `methods` has the command line of each method, or none for NULL.
pub record UnitRecord : Type 0 where
  pub path : S16Path
  pub type : UnitType
  pub methods : PerMethod (Option (List ℕ))
  pub state : UnitState
  pub target : UnitState
  pub pids : List ℕ
  pub main_pid : ℕ
  pub secondary_pid : ℕ
  pub fail_cnt : PerMethod ℕ
  pub timer_id : ℕ
  pub meth_restart_timer_id : ℕ
  -- The path is the very object of S16PathOfRepository, as for the unit that manager.c makes.
  pub is_repository : Bool

-- A unit with the parts of the manager that it uses, and what it did to the system: the processes
-- that were forked, those the tracker watches, the signals sent, and the connections to the repository
-- that were tried.
pub record Machine : Type 0 where
  pub unit : UnitRecord
  pub ts : TimerSet
  pub forks : ℕ
  pub watched : List ℕ
  pub killed : List ℕ
  pub connections : ℕ
  pub repo_up : Bool
  pub repo_retry_delay : ℕ
  pub repo_retry_timer : ℕ

-- What is outside: rand and kevent, the PID that each fork gives (0 where it fails), whether each
-- s16db_hdl_new connects, and the number of draws of a timer id.
pub record Os : Type 0 where
  pub kernel : Kernel
  pub fork_pid : ℕ → ℕ
  pub connects : ℕ → Bool
  pub tries : ℕ

unfoldable pub state_to_method : UnitState → Option UnitMethodType
state_to_method us_prestart = some um_prestart
state_to_method us_start = some um_start
state_to_method us_poststart = some um_poststart
state_to_method us_stop = some um_stop
state_to_method us_poststop = some um_poststop
state_to_method us_none = none
state_to_method us_uninitialised = none
state_to_method us_disabled = none
state_to_method us_offline = none
state_to_method us_online = none
state_to_method us_exited = none
state_to_method us_stopterm = none
state_to_method us_stopkill = none
state_to_method us_maintenance = none

unfoldable pub unit_stopping : UnitRecord → Bool
unfolding is_state
unit_stopping u =
    is_state u.state us_stop
    || is_state u.state us_stopterm
    || is_state u.state us_stopkill
    || is_state u.state us_poststop

unfoldable pub has_pid : List ℕ → ℕ → Bool
has_pid [] pid = false
has_pid (it ∷ pids) pid = if it == pid then true else has_pid pids pid

unfoldable pub unit_has_pid : UnitRecord → ℕ → Bool
unfolding has_pid
unit_has_pid u pid = has_pid u.pids pid

-- pid_list_del, which removes the first entry of that value.
unfoldable pub pid_list_del : List ℕ → ℕ → List ℕ
pid_list_del [] pid = []
pid_list_del (it ∷ pids) pid = if it == pid then pids else it ∷ pid_list_del pids pid

unfoldable pub unit_deregister_pid : ℕ → Machine → Machine
unfolding pid_list_del
unit_deregister_pid pid m = record m {
  unit = record m.unit { pids = pid_list_del m.unit.pids pid };
  watched = pid_list_del m.watched pid;
}

unfoldable pub set_state : UnitState → Machine → Machine
set_state s m = record m { unit = record m.unit { state = s } }

unfoldable pub set_target : UnitState → Machine → Machine
set_target s m = record m { unit = record m.unit { target = s } }

unfoldable pub set_main : ℕ → Machine → Machine
set_main pid m = record m { unit = record m.unit { main_pid = pid } }

unfoldable pub set_secondary : ℕ → Machine → Machine
set_secondary pid m = record m { unit = record m.unit { secondary_pid = pid } }

unfoldable pub kill_all : List ℕ → Machine → Machine
kill_all pids m = record m { killed = m.killed ++ pids }

-- The main PID first, if there is one, then all the PIDs.
unfoldable pub signal_pids : Machine → Machine
unfolding kill_all
signal_pids m =
    kill_all (if m.unit.main_pid == 0 then m.unit.pids else m.unit.main_pid ∷ m.unit.pids) m

-- The macro UnitTimerDereg.
unfoldable pub unit_timer_dereg : Machine → Machine
unit_timer_dereg m = record m {
  ts = timerset_del m.unit.timer_id m.ts;
  unit = record m.unit { timer_id = 0 };
}

module _ (os : Os) where
  -- The macro UnitTimerReg.
  unfoldable pub unit_timer_reg : Machine → Res Machine
  unit_timer_reg m = do
    (id, ts) ← timerset_add os.kernel os.tries Callback.unit_timer_event m.ts
    ok (record m { ts = ts; unit = record m.unit { timer_id = id } })

  -- The PID, or 0 where the fork fails.
  unfoldable pub unit_fork_and_register : Machine → ℕ × Machine
  unit_fork_and_register m =
      let pid = os.fork_pid m.forks in
      let next = record m { forks = m.forks + 1 } in
      if pid == 0 then (0, next) else (
        pid,
        record next {
          watched = list_add next.watched pid;
          unit = record next.unit { pids = list_add next.unit.pids pid };
        },
      )

  -- The timer of the next try, and its delay, which the kernel is told.
  unfoldable pub retry_after : ℕ → Machine → Res Machine
  retry_after delay m = do
    (id, ts) ← timerset_add os.kernel os.tries Callback.repo_retry_cb m.ts
    ok (record m { ts = ts; repo_retry_delay = delay; repo_retry_timer = id })

  unfoldable pub manager_configd_came_up : Machine → Res Machine
  manager_configd_came_up m =
      let tried = record m { connections = m.connections + 1 } in
      let later = retry_after 5 tried in
      if os.connects m.connections then ok (record tried { repo_up = true }) else later

  -- The delay doubles; past three seconds no timer is started. The timer that fired is not deleted.
  unfoldable pub manager_repo_retry_cb : Machine → Res Machine
  manager_repo_retry_cb m =
      let tried = record m { connections = m.connections + 1 } in
      let delay = m.repo_retry_delay * 2 in
      let later = retry_after delay tried in
      if os.connects m.connections
      then ok (record tried { repo_up = true })
      else if ltb 3000 delay
      then ok (record tried { repo_retry_delay = delay })
      else later

-- The unit of unit_add, which the manager's list gets (Restartd/Manager).
unfoldable pub unit_new : S16Path → Bool → UnitRecord
unit_new path is_repository = record {
  path = path;
  type = u_simple;
  methods = record {
    prestart = none;
    start = none;
    poststart = none;
    stop = none;
    poststop = none;
  };
  state = us_uninitialised;
  target = us_none;
  pids = [];
  main_pid = 0;
  secondary_pid = 0;
  fail_cnt = record { prestart = 0; start = 0; poststart = 0; stop = 0; poststop = 0 };
  timer_id = 0;
  meth_restart_timer_id = 0;
  is_repository = is_repository;
}
