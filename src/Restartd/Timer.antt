-- ===== src/Restartd/Timer.antt =====
-- The timers of usr/src/agent/restartd/timer.c. The kernel queue is not modelled, but for whether it
-- takes a timer; rand () is a sequence of numbers, of which `drawn` were used.
pub mod Laws
use e_com_init.Common.{
  ℕ, zero, suc, ◌+◌, ◌%◌, Bool, true, false, Option, none, some, List, [], ◌∷◌, if◌then◌else◌, ◌==◌,
}
use e_com_init.Common.Res.{Res, ok, too_deep, ◌>>=◌}
use e_com_init.S16List.{list_add}

-- What a timer calls: the functions of the restarter that are given to timerset_add.
pub data Callback : Type 0 where
  unit_timer_event unit_restart_begin_cb repo_retry_cb : Callback

-- `user` is left out: the callbacks on a unit get the unit that the timer was made for.
pub record TsTimer : Type 0 where
  pub id : ℕ
  pub cb : Callback

pub record TimerSet : Type 0 where
  pub timers : List TsTimer
  pub drawn : ℕ

unfoldable pub timerset_init : TimerSet
timerset_init = record { timers = []; drawn = 0 }

unfoldable pub find_timer : List TsTimer → ℕ → Option TsTimer
find_timer [] id = none
find_timer (it ∷ timers) id = if it.id == id then some it else find_timer timers id

unfoldable pub timerset_find : TimerSet → ℕ → Option TsTimer
unfolding find_timer
timerset_find tset id = find_timer tset.timers id

-- tstimer_list_del of the timer that timerset_find returns: the first of that id.
unfoldable pub del_timer : List TsTimer → ℕ → List TsTimer
del_timer [] id = []
del_timer (it ∷ timers) id = if it.id == id then timers else it ∷ del_timer timers id

unfoldable pub timerset_del : ℕ → TimerSet → TimerSet
unfolding del_timer
timerset_del id tset = elim (timerset_find tset id) [
  | none ↦ tset
  | some timer ↦ record tset { timers = del_timer tset.timers id }
]

-- UINT_MAX
abbrev pub uint_max : ℕ
uint_max = 4294967295

-- rand () and whether kevent takes a timer of an id.
pub record Kernel : Type 0 where
  pub rand : ℕ → ℕ
  pub takes : ℕ → Bool

module _ (k : Kernel) where
  -- The loop that draws until the id is new; `tries` bounds it.
  unfoldable pub draw_ident : ℕ → TimerSet → Res (ℕ × TimerSet)
  draw_ident zero tset = too_deep
  draw_ident (suc tries) tset =
      let ident = k.rand tset.drawn % uint_max in
      let next = record tset { drawn = tset.drawn + 1 } in
      let again = draw_ident tries next in
      elim (timerset_find tset ident) [ none ↦ ok (ident, next) | some timer ↦ again ]

  -- The id, or 0 where the kernel refuses.
  unfoldable pub timerset_add : ℕ → Callback → TimerSet → Res (ℕ × TimerSet)
  timerset_add tries cb tset = do
    (ident, next) ← draw_ident tries tset
    let added = record next { timers = list_add next.timers (record { id = ident; cb = cb }) }
    ok (if k.takes ident then (ident, added) else (0, next))

-- What a timer event of the kernel queue calls.
unfoldable pub timerset_investigate_kevent : TimerSet → ℕ → Option Callback
timerset_investigate_kevent tset ident = elim (timerset_find tset ident) [
  | none ↦ none
  | some timer ↦ some timer.cb
]
