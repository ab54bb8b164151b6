-- ===== src/Restartd/Units/Enter.antt =====
-- The functions unit_enter_* and unit_purge_and_target of usr/src/agent/restartd/unit.c. Each takes
-- the function that stands for the calls it makes.
pub mod Online
pub mod Stop
use e_com_init.Restartd.Units.States.{
  manager_configd_came_up, UnitType, UnitState, UnitRecord, Machine, Os, set_state, set_target,
  set_main, set_secondary, signal_pids, unit_timer_reg, u_simple, u_forks, u_oneshot, u_group,
  u_notify, us_none, us_uninitialised, us_disabled, us_offline, us_prestart, us_start, us_poststart,
  us_online, us_exited, us_stop, us_stopterm, us_stopkill, us_poststop, us_maintenance,
  unit_fork_and_register,
}
use e_com_init.Common.{
  not, ℕ, zero, suc, Bool, true, false, Option, none, some, List, if◌then◌else◌, ◌==◌,
}
use e_com_init.Common.Res.{Res, ok, aborted, too_deep, ◌>>=◌}
use e_com_init.S16List.{list_empty}

-- The functions that call one another.
pub data Entry : Type 0 where
  purge_and_target maintenance offline prestart start poststart online stop stopterm stopkill :
      Entry
  enter_state : UnitState → Entry

unfoldable pub unit_enter_maintenance : Machine → Machine
unfolding set_state
unit_enter_maintenance m = set_state us_maintenance m

unfoldable pub unit_enter_offline : Machine → Machine
unfolding set_state
unit_enter_offline m = set_state us_offline m

-- The state is not set.
unfoldable pub unit_enter_online : Os → Machine → Res Machine
unit_enter_online os m = if m.unit.is_repository then manager_configd_came_up os m else ok m

module _ (os : Os) (call : Entry → Machine → Res Machine) where
  -- What follows a failed fork.
  unfoldable pub give_up : Machine → Res Machine
  unfolding set_target
  give_up m = call purge_and_target (set_target us_maintenance m)

  unfoldable pub unit_purge_and_target : Machine → Res Machine
  unfolding list_empty
  unit_purge_and_target m =
      if not (list_empty m.unit.pids) then call stop m else call (enter_state m.unit.target) m

  unfoldable pub unit_enter_prestart : Machine → Res Machine
  unfolding set_state set_main unit_fork_and_register
  unit_enter_prestart m = elim m.unit.methods.prestart [
    | none ↦ call start m
    | some cmd ↦ do
      timed ← unit_timer_reg os (set_state us_prestart m)
      let (pid, forked) = unit_fork_and_register os timed
      if pid == 0 then give_up (set_main pid forked) else ok (set_main pid forked)
  ]

  unfoldable pub unit_enter_start : Machine → Res Machine
  unfolding set_state set_main unit_fork_and_register
  unit_enter_start m =
      let (pid, forked) = unit_fork_and_register os (set_state us_start m) in
      let main = set_main pid forked in
      if pid == 0 then give_up main else elim main.unit.type [
        | u_simple ↦ call poststart main
        | u_oneshot ↦ call poststart main
        | u_group ↦ call poststart main
        | u_forks ↦ unit_timer_reg os main
        | u_notify ↦ unit_timer_reg os main
      ]

  unfoldable pub unit_enter_poststart : Machine → Res Machine
  unfolding set_state set_secondary unit_fork_and_register
  unit_enter_poststart m = elim m.unit.methods.poststart [
    | none ↦ call online m
    | some cmd ↦ do
      timed ← unit_timer_reg os (set_state us_poststart m)
      let (pid, forked) = unit_fork_and_register os timed
      if pid == 0 then give_up (set_secondary pid forked) else ok (set_secondary pid forked)
  ]

  unfoldable pub unit_enter_stop : Machine → Res Machine
  unfolding set_state set_secondary unit_fork_and_register
  unit_enter_stop m = elim m.unit.methods.stop [
    | none ↦ call stopterm m
    | some cmd ↦ do
      timed ← unit_timer_reg os (set_state us_stop m)
      let (pid, forked) = unit_fork_and_register os timed
      if pid == 0 then give_up (set_secondary pid forked) else ok (set_secondary pid forked)
  ]

  unfoldable pub unit_enter_stopterm : Machine → Res Machine
  unfolding set_state signal_pids list_empty
  unit_enter_stopterm m =
      if list_empty m.unit.pids
      then call (enter_state m.unit.target) m
      else unit_timer_reg os (signal_pids (set_state us_stopterm m))

  unfoldable pub unit_enter_stopkill : Machine → Res Machine
  unfolding set_state signal_pids list_empty
  unit_enter_stopkill m =
      if list_empty m.unit.pids
      then call (enter_state m.unit.target) m
      else unit_timer_reg os (signal_pids (set_state us_stopkill m))

  -- A state that the switch does not name is left alone.
  unfoldable pub unit_enter_state : UnitState → Machine → Res Machine
  unfolding set_state
  unit_enter_state us_offline m = call offline m
  unit_enter_state us_maintenance m = call maintenance m
  unit_enter_state us_prestart m = call prestart m
  unit_enter_state us_start m = call start m
  unit_enter_state us_poststart m = call poststart m
  unit_enter_state us_online m = call online m
  unit_enter_state us_none m = ok (set_state us_none m)
  unit_enter_state us_uninitialised m = ok m
  unit_enter_state us_disabled m = ok m
  unit_enter_state us_exited m = ok m
  unit_enter_state us_stop m = ok m
  unit_enter_state us_stopterm m = ok m
  unit_enter_state us_stopkill m = ok m
  unit_enter_state us_poststop m = ok m

  -- The body of each.
  unfoldable pub enter_body : Entry → Machine → Res Machine
  enter_body purge_and_target m = unit_purge_and_target m
  enter_body maintenance m = ok (unit_enter_maintenance m)
  enter_body offline m = ok (unit_enter_offline m)
  enter_body prestart m = unit_enter_prestart m
  enter_body start m = unit_enter_start m
  enter_body poststart m = unit_enter_poststart m
  enter_body online m = unit_enter_online os m
  enter_body stop m = unit_enter_stop m
  enter_body stopterm m = unit_enter_stopterm m
  enter_body stopkill m = unit_enter_stopkill m
  enter_body (enter_state s) m = unit_enter_state s m

-- `depth` bounds the nesting of the calls.
unfoldable pub unit_enter : Os → ℕ → Entry → Machine → Res Machine
unfolding enter_body
unit_enter os zero entry m = too_deep
unit_enter os (suc depth) entry m = enter_body os (unit_enter os depth) entry m
