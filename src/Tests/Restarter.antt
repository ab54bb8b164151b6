-- ===== src/Tests/Restarter.antt =====
-- Examples of timers and units of the restarter.
use e_com_init.Common.{◌%◌, ℕ, ◌+◌, true, false, none, some, [], ◌∷◌, ◌≡◌, ◌⊎◌, refl, codes}
use e_com_init.Restartd.Timer.{
  uint_max, draw_ident, unit_timer_event, repo_retry_cb, TsTimer, TimerSet, timerset_find,
  timerset_add, Kernel, find_timer,
}
use e_com_init.Restartd.Units.Enter.{
  unit_enter_online, unit_enter_poststart, unit_enter_prestart, unit_enter_start, unit_enter,
}
use e_com_init.Restartd.Units.Events.{unit_msg, ev_exit, PtEvent, request, handle_all}
use e_com_init.S16List.{list_add, list_empty}
use e_com_init.Common.Res.{ok}
use e_com_init.Service.Types.{S16Path}
use e_com_init.Restartd.Timer.Laws.{IsDistinct, Added, timerset_add_lem}
use e_com_init.Restartd.Units.States.{
  UnitRecord, Machine, Os, u_simple, us_none, us_maintenance, us_start, us_offline, us_online,
  is_state, unit_stopping, state_to_method,
}
use e_com_init.Restartd.Units.Enter.Online.{NotOnline}
use e_com_init.Restartd.Units.Events.Laws.{handle_all-NotOnline}

abbrev watch : TsTimer
watch = record { id = 5; cb = unit_timer_event }

abbrev timers : TimerSet
timers = record { timers = watch ∷ record { id = 6; cb = repo_retry_cb } ∷ []; drawn = 0 }

distinct : IsDistinct timers.timers
unfolding find_timer
distinct = (refl, (refl, tt))

-- The first draw gives an id that is taken.
abbrev kernel : Kernel
kernel = record { rand = λ n. n + 6; takes = λ id. true }

abbrev timers_after : TimerSet
timers_after = record {
  timers =
      watch ∷ record { id = 6; cb = repo_retry_cb } ∷ record { id = 7; cb = unit_timer_event } ∷ [];
  drawn = 2;
}

added : timerset_add kernel 3 unit_timer_event timers ≡ ok (7, timers_after)
unfolding timerset_add draw_ident timerset_find list_add
added = refl

abbrev new_id : ℕ
new_id = 7

timerset_add_lem_example :
    Added 7 unit_timer_event timers.timers timers_after
    ⊎ IsDistinct timers_after.timers × (new_id ≡ 0) × (timers_after.timers ≡ timers.timers)
timerset_add_lem_example =
    timerset_add_lem kernel 3 unit_timer_event timers timers_after 7 distinct added

abbrev path : S16Path
path = record { full_qual = true; svc = codes "web"; inst = some (codes "a") }

-- A unit with a start and a stop method, in the state start, whose main process is 30.
abbrev pub web : UnitRecord
web = record {
  path = path;
  type = u_simple;
  methods = record {
    prestart = none;
    start = some (codes "run");
    poststart = none;
    stop = some (codes "halt");
    poststop = none;
  };
  state = us_start;
  target = us_none;
  pids = 30 ∷ [];
  main_pid = 30;
  secondary_pid = 0;
  fail_cnt = record { prestart = 0; start = 0; poststart = 0; stop = 0; poststop = 0 };
  timer_id = 0;
  meth_restart_timer_id = 0;
  is_repository = false;
}

abbrev machine : UnitRecord → Machine
machine unit = record {
  unit = unit;
  ts = record { timers = []; drawn = 0 };
  forks = 0;
  watched = 30 ∷ [];
  killed = [];
  connections = 0;
  repo_up = false;
  repo_retry_delay = 0;
  repo_retry_timer = 0;
}

abbrev no_forks : Os
no_forks = record { kernel = kernel; fork_pid = λ n. 0; connects = λ n. true; tries = 3 }

abbrev pub forks : Os
forks = record { kernel = kernel; fork_pid = λ n. n + 31; connects = λ n. true; tries = 3 }

has_pids : list_empty web.pids ≡ false
unfolding list_empty
has_pids = refl

abbrev idle : UnitRecord
idle = record web { state = us_maintenance }

abbrev exit_30 : PtEvent
exit_30 = record { event = ev_exit; pid = 30; abnormal = true }

not_stopping : unit_stopping idle ≡ false
unfolding unit_stopping
not_stopping = refl

not_online : is_state idle.state us_online ≡ false
unfolding is_state
not_online = refl

no_method : state_to_method idle.state ≡ none
unfolding state_to_method
no_method = refl

-- The service is started: it runs, and its state says start.
abbrev fresh : UnitRecord
fresh = record web { state = us_offline; pids = []; main_pid = 0 }

abbrev started : Machine
started = record {
  unit = record web { pids = 31 ∷ []; main_pid = 31 };
  ts = record { timers = []; drawn = 0 };
  forks = 1;
  watched = 30 ∷ 31 ∷ [];
  killed = [];
  connections = 0;
  repo_up = false;
  repo_retry_delay = 0;
  repo_retry_timer = 0;
}

fresh_state : NotOnline (machine fresh)
unfolding is_state
fresh_state = refl

starts : handle_all forks 6 (request true ∷ []) (machine fresh) ≡ ok started
unfolding handle_all unit_msg unit_enter unit_enter_prestart unit_enter_start unit_enter_poststart
    unit_enter_online list_add
starts = refl

handle_all-NotOnline_example : NotOnline started
handle_all-NotOnline_example =
    handle_all-NotOnline forks 6 (request true ∷ []) (machine fresh) started fresh_state starts

-- Of the next three numbers the first gives an id that is taken.
free : timerset_find timers ((timers.drawn + 1 + 6) % uint_max) ≡ none
unfolding timerset_find find_timer
free = refl
