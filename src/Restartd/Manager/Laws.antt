-- ===== src/Restartd/Manager/Laws.antt =====
-- Which unit an event reaches.
use e_com_init.Common.{
  ℕ, ◌<◌, ◌≡◌, ◌⊎◌, inl, inr, refl, sym, ap, ◌∙◌, true, false, some, List, [], ◌∷◌, CStr, codes,
  str_eq_refl, All-get_or, get_or, get_or-set_self, set, length, All, Option-cases,
}
use e_com_init.Common.Res.{Res, ok, aborted, too_deep, >>=-eq-ok}
use e_com_init.S16List.Laws.{list_find-some, list_find-none}
use e_com_init.Restartd.Units.States.{Machine, Os, unit_has_pid}
use e_com_init.Restartd.Units.Events.{PtEvent, unit_ptevent}
use e_com_init.Restartd.Manager.{
  Manager, null_unit, unit_at, on_unit, manager_find_unit_for_pid, manager_ptevent, segments,
  notify_segment, notify_segments, dispatch_sd_notify,
}

-- A function on a unit changes that unit of the list only.
on_unit-units :
    (i : ℕ) (f : Machine → Res Machine) (m m' : Manager)
    → i < length m.units
    → on_unit i f m ≡ ok m'
    → m'.units ≡ set m.units i (unit_at m' i)
unfolding on_unit unit_at
on_unit-units i f m m' h e =
    let (x, a, b) = >>=-eq-ok (f _) _ e in
    let units : set m.units i x.unit ≡ m'.units =
      ap (λ r. elim r [ ok d ↦ d.units | aborted ↦ [] | too_deep ↦ [] ]) b in
    let self : get_or m'.units i null_unit ≡ x.unit =
      ap (λ u. get_or u i null_unit) (sym units) ∙ get_or-set_self m.units i x.unit null_unit h in
    sym units ∙ ap (λ u. set m.units i u) (sym self)

-- The first unit of a PID is in the list and has it.
found :
    (pid i : ℕ) (m : Manager)
    → manager_find_unit_for_pid pid m ≡ some i
    → (i < length m.units) × (unit_has_pid (unit_at m i) pid ≡ true)
unfolding manager_find_unit_for_pid unit_at
found pid i m e = list_find-some m.units (λ u. unit_has_pid u pid) i null_unit e

-- A process event that is handled either belongs to no unit, neither by the process nor by its parent,
-- and changes nothing; or it changes one unit at most, one that has the process or the parent.
pub manager_ptevent_lem :
    (os : Os) (depth ppid : ℕ) (info : PtEvent) (m m' : Manager)
    → manager_ptevent os depth info ppid m ≡ ok m'
    → (m' ≡ m)
        × All (λ u. unit_has_pid u info.pid ≡ false) m.units
        × All (λ u. unit_has_pid u ppid ≡ false) m.units
      ⊎ ((i : ℕ) × (i < length m.units)
          × (unit_has_pid (unit_at m i) info.pid ≡ true ⊎ unit_has_pid (unit_at m i) ppid ≡ true)
          × (m'.units ≡ set m.units i (unit_at m' i)))
unfolding manager_ptevent manager_find_unit_for_pid
manager_ptevent_lem os depth ppid info m m' e =
    elim (Option-cases (manager_find_unit_for_pid info.pid m)) [
      | inl a ↦
          let out = rw (a, manager_ptevent) at e in
          elim (Option-cases (manager_find_unit_for_pid ppid m)) [
            | inl b ↦
                let same : m ≡ m' =
                  ap (λ r. elim r [ ok d ↦ d | aborted ↦ m | too_deep ↦ m ]) (rw b at out) in
                inl (sym same, list_find-none m.units _ a, list_find-none m.units _ b)
            | inr (i, b) ↦
                let (h, has) = found ppid i m b in
                inr
                  (i, h, inr has, on_unit-units i (unit_ptevent os depth info) m m' h (rw b at out))
          ]
      | inr (i, a) ↦
          let (h, has) = found info.pid i m a in
          inr (
            i,
            h,
            inl has,
            on_unit-units i (unit_ptevent os depth info) m m' h (rw (a, manager_ptevent) at e),
          )
    ]

-- A message that begins with READY=1, of a process that no unit has, crashes the restarter: the unit is
-- read through NULL.
pub dispatch_sd_notify-unknown :
    (os : Os) (depth pid : ℕ) (buf : CStr) (segs : List CStr) (m : Manager)
    → All (λ u. unit_has_pid u pid ≡ false) m.units
    → segments [] buf ≡ codes "READY=1" ∷ segs
    → dispatch_sd_notify os depth pid buf m ≡ aborted
unfolding dispatch_sd_notify notify_segments notify_segment manager_find_unit_for_pid
dispatch_sd_notify-unknown os depth pid buf segs m none_of e =
    elim (Option-cases (manager_find_unit_for_pid pid m)) [
      | inl a ↦ rw (a, e, str_eq_refl (codes "READY=1")) refl
      | inr (i, a) ↦
          let (h, has) = found pid i m a in
          let not : unit_has_pid (unit_at m i) pid ≡ false =
            unfold unit_at in
            All-get_or (λ u. unit_has_pid u pid ≡ false) m.units i null_unit h none_of in
          absurd (cc)
    ]
