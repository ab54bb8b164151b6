-- ===== src/Configd/Loop/Laws.antt =====
-- Which messages the event loop of usr/src/agent/configd/configd.c writes.
use e_com_init.Common.{
  ℕ, ◌≡◌, ◌⊎◌, inl, inr, ◌↔◌, refl, Bool, true, false, Option, List, [], ◌∷◌, ◌++◌, Bool-cases, Any,
}
use e_com_init.Ucl.{LibUcl}
use e_com_init.Repository.Notes.{S16Note}
use e_com_init.Configd.Handlers.{Subscriber, Configd}
use e_com_init.Configd.Loop.{
  wants, notify_message, notify_all, send_notes, remaining_subs, left_with, after_event,
}
use e_com_init.Common.Conv.{value}

pub Any-append :
    {A : Type 0} (P : A → Type 0) (xs ys : List A) → Any P (xs ++ ys) ↔ (Any P xs ⊎ Any P ys)
Any-append P [] ys = (λ h. inr h, λ h. elim h [ inl a ↦ absurd a | inr b ↦ b ])
Any-append P (x ∷ xs) ys = (
  λ h. elim h [
    | inl p ↦ inl (inl p)
    | inr t ↦ elim ((Any-append P xs ys).0 t) [ inl a ↦ inl (inr a) | inr b ↦ inr b ]
  ],
  λ h. elim h [
    | inl a ↦ elim a [ inl p ↦ inl p | inr t ↦ inr ((Any-append P xs ys).1 (inl t)) ]
    | inr b ↦ inr ((Any-append P xs ys).1 (inr b))
  ],
)

clash : {b : Bool} → b ≡ true → b ≡ false → ⊥
clash t f = cc

module _ ⦃u : LibUcl⦄ where
  open u use {Obj}

  -- The message goes to a subscriber of the note's kind.
  abbrev pub IsFor : S16Note → ℕ × Obj → Subscriber → Type 0
  IsFor note m sub = (wants sub note.note_type ≡ true) × (m ≡ (sub.fd, notify_message note))

  -- Every message of a note to a subscriber of its kind is answered.
  abbrev IsAnswered : (ℕ → Obj → Bool) → S16Note → List Subscriber → Type 0
  IsAnswered answers note subs = (m : ℕ × Obj) → Any (IsFor note m) subs → answers m.0 m.1 ≡ true

  notify_all_lem :
      (answers : ℕ → Obj → Bool) (note : S16Note) (subs : List Subscriber)
      → IsAnswered answers note subs
      → ((notify_all answers note subs).1 ≡ true)
        × ((m : ℕ × Obj)
            → Any (λ x. m ≡ x) (notify_all answers note subs).0 ↔ Any (IsFor note m) subs)
  unfolding notify_all
  notify_all_lem answers note [] live = (refl, λ m. (λ h. h, λ h. h))
  notify_all_lem answers note (it ∷ subs) live =
      let (ends, rest) = notify_all_lem answers note subs (λ m h. live m (inr h)) in
      elim (Bool-cases (wants it note.note_type)) [
        | inl wanted ↦
            let answered = live (it.fd, notify_message note) (inl (wanted, refl)) in
            rw (wanted, answered)
              (
                ends,
                λ m. (
                  λ h. elim h [ inl e ↦ inl (refl, e) | inr t ↦ inr ((rest m).0 t) ],
                  λ h. elim h [ inl p ↦ inl p.1 | inr t ↦ inr ((rest m).1 t) ],
                ),
              )
        | inr other ↦ rw other (
          ends,
          λ m. (
            λ h. inr ((rest m).0 h),
            λ h. elim h [ inl p ↦ absurd (clash p.0 refl) | inr t ↦ (rest m).1 t ],
          ),
        )
      ]

  abbrev pub AreAnswered : (ℕ → Obj → Bool) → List S16Note → List Subscriber → Type 0
  AreAnswered answers notes subs =
      (m : ℕ × Obj) → Any (λ note. Any (IsFor note m) subs) notes → answers m.0 m.1 ≡ true

  send_notes_lem :
      (answers : ℕ → Obj → Bool) (notes : List S16Note) (subs : List Subscriber)
      → AreAnswered answers notes subs
      → ((send_notes answers notes subs).1 ≡ value [])
        × ((m : ℕ × Obj)
            → Any (λ x. m ≡ x) (send_notes answers notes subs).0
              ↔ Any (λ note. Any (IsFor note m) subs) notes)
  unfolding send_notes
  send_notes_lem answers [] subs live = (refl, λ m. (λ h. h, λ h. h))
  send_notes_lem answers (note ∷ notes) subs live =
      let (ends, here) = notify_all_lem answers note subs (λ m h. live m (inl h)) in
      let (left, later) = send_notes_lem answers notes subs (λ m h. live m (inr h)) in
      rw ends (
        left,
        λ m.
            let (to, from) =
              Any-append (λ x. m ≡ x) (notify_all answers note subs).0
                (send_notes answers notes subs).0 in
            (
              λ h. elim (to h) [ inl a ↦ inl ((here m).0 a) | inr b ↦ inr ((later m).0 b) ],
              λ h. elim h [
                | inl a ↦ from (inl ((here m).1 a))
                | inr b ↦ from (inr ((later m).1 b))
              ],
            ),
      )

  -- If every message of a queued note to a remaining subscriber of its kind is answered, the event loop
  -- goes on with an empty queue and the remaining subscribers, and the messages written are exactly
  -- those.
  pub after_event_lem :
      (answers : ℕ → Obj → Bool) (closed : Option ℕ) (s : Configd)
      → AreAnswered answers s.db.notes (remaining_subs closed s.subs)
      → ((after_event answers closed s).1 ≡ value (left_with s (remaining_subs closed s.subs) []))
        × ((m : ℕ × Obj)
            → Any (λ x. m ≡ x) (after_event answers closed s).0
              ↔ Any (λ note. Any (IsFor note m) (remaining_subs closed s.subs)) s.db.notes)
  unfolding after_event
  after_event_lem answers closed s live =
      let (left, sent) = send_notes_lem answers s.db.notes (remaining_subs closed s.subs) live in
      (rw left refl, sent)
