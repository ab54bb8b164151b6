-- ===== src/Restartd/Timer/Laws.antt =====
-- Timers have distinct ids; one that was added is found until it is deleted.
use e_com_init.Common.{
  zero, suc, ◌<◌, ℕ, zero, suc, ◌+◌, ◌%◌, ◌≡◌, refl, sym, subst, ap, ◌∙◌, ◌⊎◌, inl, inr, false,
  none, some, List, [], ◌∷◌, if◌then◌else◌, ◌==◌, ==_iff, ==_refl, arith, Bool-cases, Option-cases,
}
use e_com_init.Common.Res.{Res, ok, >>=-eq-ok}
use e_com_init.S16List.{list_add}
use e_com_init.Restartd.Timer.{
  Callback, TsTimer, TimerSet, find_timer, timerset_find, del_timer, timerset_del, uint_max, Kernel,
  draw_ident, timerset_add, timerset_investigate_kevent,
}

-- No two timers have one id.
abbrev pub IsDistinct : List TsTimer → Type 0
IsDistinct [] = Unit
IsDistinct (t ∷ ts) = (find_timer ts t.id ≡ none) × IsDistinct ts

find-add :
    (ts : List TsTimer) (t : TsTimer) (id : ℕ)
    → find_timer ts t.id ≡ none
    → find_timer (list_add ts t) id ≡ (if t.id == id then some t else find_timer ts id)
unfolding find_timer list_add
find-add [] t id h = refl
find-add (x ∷ ts) t id h = ground (arith, find-add ts t id)

find-del :
    (ts : List TsTimer) (id j : ℕ)
    → IsDistinct ts
    → find_timer (del_timer ts id) j ≡ (if id == j then none else find_timer ts j)
unfolding find_timer del_timer
find-del [] id j h = ground arith
find-del (x ∷ ts) id j (h, rest) = elim (Bool-cases (x.id == id)) [
  | inl e ↦ elim (Bool-cases (x.id == j)) [
    | inl e2 ↦
        let same = (==_iff x.id id).0 e in
        let same2 = (==_iff x.id j).0 e2 in
        ground (arith, subst (λ n. find_timer ts n ≡ none) same2 h, same, same2)
    | inr ne ↦ ground (arith, (==_iff x.id id).0 e)
  ]
  | inr ne ↦ ground (arith, find-del ts id j rest)
]

-- A deletion from timers of distinct ids removes the timer of that id, if there is one: it is not
-- found any more, and every other timer is found as before.
pub timerset_del_lem :
    (id j : ℕ) (tset : TimerSet)
    → IsDistinct tset.timers
    → timerset_find (timerset_del id tset) j ≡ (if id == j then none else timerset_find tset j)
unfolding timerset_del timerset_find
timerset_del_lem id j tset h = elim (Option-cases (find_timer tset.timers id)) [
  | inl e ↦ ground (arith, (==_iff id j).0)
  | inr (t, e) ↦ rw (e, timerset_del) (find-del tset.timers id j h)
]

-- The drawn id is new, and the draws leave the timers alone.
fresh :
    (k : Kernel) (tries : ℕ) (tset next : TimerSet) (id : ℕ)
    → draw_ident k tries tset ≡ ok (id, next)
    → (find_timer tset.timers id ≡ none) × (next.timers ≡ tset.timers)
unfolding draw_ident timerset_find
fresh k zero tset next id h = cc
fresh k (suc tries) tset next id h =
    elim (Option-cases (find_timer tset.timers (k.rand tset.drawn % uint_max))) [
      | inl e ↦
          let new : Path (Res (ℕ × TimerSet))
              (ok (k.rand tset.drawn % uint_max, record tset { drawn = tset.drawn + 1 }))
              (ok (id, next)) =
            rw (e, draw_ident) at h in
          let same_id : k.rand tset.drawn % uint_max ≡ id = cc in
          let same_timers : tset.timers ≡ next.timers = cc in
          (subst (λ n. find_timer tset.timers n ≡ none) same_id e, sym same_timers)
      | inr (t, e) ↦
          fresh k tries (record tset { drawn = tset.drawn + 1 }) next id (rw (e, draw_ident) at h)
    ]

add-IsDistinct :
    (ts : List TsTimer) (t : TsTimer)
    → find_timer ts t.id ≡ none
    → IsDistinct ts
    → IsDistinct (list_add ts t)
unfolding find_timer list_add
add-IsDistinct [] t h d = (refl, tt)
add-IsDistinct (x ∷ ts) t h (a, d) =
    let not_x : (x.id == t.id) ≡ false = ground arith in
    (
      find-add ts t x.id (rw not_x at h) ∙ ground (arith, h, a, not_x),
      add-IsDistinct ts t (rw not_x at h) d,
    )

abbrev pub Added : ℕ → Callback → List TsTimer → TimerSet → Type 0
Added id cb ts next =
    IsDistinct next.timers
    × (find_timer ts id ≡ none)
    × (timerset_investigate_kevent next id ≡ some cb)
    × ((j : ℕ)
        → timerset_find next j
          ≡ (if id == j then some (record { id = id; cb = cb }) else find_timer ts j))

added :
    (id drawn : ℕ) (cb : Callback) (ts : List TsTimer)
    → IsDistinct ts
    → find_timer ts id ≡ none
    → Added id cb ts (record { timers = list_add ts (record { id = id; cb = cb }); drawn = drawn })
unfolding timerset_find timerset_investigate_kevent
added id drawn cb ts d new =
    let t : TsTimer = record { id = id; cb = cb } in
    let itself : find_timer (list_add ts t) id ≡ some t =
      find-add ts t id new ∙ ground (arith, ==_refl id) in
    (
      add-IsDistinct ts t new d,
      new,
      rw (itself, timerset_investigate_kevent) refl,
      λ j. find-add ts t j new,
    )

-- Where the ids are distinct and a draw of a new id succeeds, either a timer of the returned id is
-- added: the id was free, its event calls the callback, every other timer is as before, and the ids
-- stay distinct; or the timers are as they were and the id is 0.
pub timerset_add_lem :
    (k : Kernel) (tries : ℕ) (cb : Callback) (tset next : TimerSet) (id : ℕ)
    → IsDistinct tset.timers
    → timerset_add k tries cb tset ≡ ok (id, next)
    → Added id cb tset.timers next ⊎ IsDistinct next.timers × (id ≡ 0) × (next.timers ≡ tset.timers)
unfolding timerset_add timerset_find timerset_investigate_kevent list_add
timerset_add_lem k tries cb tset next id d h =
    let ((ident, drawn), e, rest) = >>=-eq-ok (draw_ident k tries tset) _ h in
    let (new, same) = fresh k tries tset drawn ident e in
    elim (Bool-cases (k.takes ident)) [
      | inl t ↦
          let out = rw t at rest in
          let same_id : ident ≡ id = cc in
          let same_set : record {
            timers = list_add drawn.timers (record { id = ident; cb = cb });
            drawn = drawn.drawn;
          }
              ≡ next =
            cc in
          let found = added ident drawn.drawn cb tset.timers d new in
          let found2 =
            subst
              (λ ts. Added ident cb tset.timers (record {
                timers = list_add ts (record { id = ident; cb = cb });
                drawn = drawn.drawn;
              }))
              (sym same) found in
          let found3 = subst (λ s. Added ident cb tset.timers s) same_set found2 in
          inl (subst (λ i. Added i cb tset.timers next) same_id found3)
      | inr f ↦
          let out = rw f at rest in
          let same_id : 0 ≡ id = cc in
          let same_set : drawn ≡ next = cc in
          let timers : next.timers ≡ tset.timers = sym (ap (λ s. s.timers) same_set) ∙ same in
          inr (subst IsDistinct (sym timers) d, sym same_id, timers)
    ]

draw_ident_ends :
    (k : Kernel) (tries i : ℕ) (tset : TimerSet)
    → i < tries
    → find_timer tset.timers (k.rand (tset.drawn + i) % uint_max) ≡ none
    → (r : ℕ × TimerSet) × (draw_ident k tries tset ≡ ok r)
unfolding draw_ident timerset_find
draw_ident_ends k zero i tset h free = absurd (omega arith)
draw_ident_ends k (suc tries) zero tset h free =
    let same : tset.drawn + 0 ≡ tset.drawn = omega arith in
    let here : find_timer tset.timers (k.rand tset.drawn % uint_max) ≡ none =
      subst (λ n. find_timer tset.timers (k.rand n % uint_max) ≡ none) same free in
    (
      (k.rand tset.drawn % uint_max, record tset { drawn = tset.drawn + 1 }),
      rw (here, draw_ident) refl,
    )
draw_ident_ends k (suc tries) (suc i) tset h free =
    let next = record tset { drawn = tset.drawn + 1 } in
    let same : tset.drawn + suc i ≡ tset.drawn + 1 + i = omega arith in
    let later =
      draw_ident_ends k tries i next (omega arith)
        (subst (λ n. find_timer tset.timers (k.rand n % uint_max) ≡ none) same free) in
    elim (Option-cases (find_timer tset.timers (k.rand tset.drawn % uint_max))) [
      | inl e ↦ ((k.rand tset.drawn % uint_max, next), rw (e, draw_ident) refl)
      | inr (t, e) ↦ (later.0, rw (e, draw_ident) later.1)
    ]

-- The loop that draws an id ends, and the timer is added or refused, if one of the next numbers of
-- rand, fewer ahead than the draws allowed, gives an id that no timer has.
pub timerset_add_ends :
    (k : Kernel) (tries i : ℕ) (cb : Callback) (tset : TimerSet)
    → i < tries
    → timerset_find tset (k.rand (tset.drawn + i) % uint_max) ≡ none
    → (r : ℕ × TimerSet) × (timerset_add k tries cb tset ≡ ok r)
unfolding timerset_add timerset_find
timerset_add_ends k tries i cb tset h free =
    let ((id, next), e) = draw_ident_ends k tries i tset h free in
    let added = record next { timers = list_add next.timers (record { id = id; cb = cb }) } in
    (if k.takes id then (id, added) else (0, next), rw e refl)
