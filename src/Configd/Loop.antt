-- ===== src/Configd/Loop.antt =====
-- The body of the event loop of usr/src/agent/configd/configd.c, after the call of
-- s16rpc_investigate_kevent: a closed socket ends a subscription, and queued notes are sent. A
-- subscriber's address is its position in the list.
use Prim.Native.Nat.{bit_and}
use e_com_init.Common.{
  ℕ, zero, suc, Bool, true, false, not, Option, none, some, List, [], ◌∷◌, ◌++◌, CStr, codes, ◌==◌,
  if◌then◌else◌,
}
use e_com_init.S16List.{list_add, list_lpop}
use e_com_init.Common.Conv.{Conv, value, stopped, ◌>>=◌}
use e_com_init.Ucl.{LibUcl}
use e_com_init.Repository.Notes.{NoteType, S16Note}
use e_com_init.Repository.Convert.{note_type_code}
use e_com_init.Repository.Convert.Write.{note_to_ucl}
use e_com_init.Rpc.Client.{clnt_call}
use e_com_init.Configd.Handlers.{Subscriber, Configd}
pub mod Laws

-- The loop over the subscribers does not break: the last one with the descriptor is found.
unfoldable pub last_with_fd : ℕ → ℕ → Option ℕ → List Subscriber → Option ℕ
last_with_fd fd i sub [] = sub
last_with_fd fd i sub (it ∷ subs) =
    last_with_fd fd (suc i) (if it.fd == fd then some i else sub) subs

-- subscriber_list_del, of the node whose value is the pointer.
unfoldable pub remove_at : List Subscriber → ℕ → List Subscriber
remove_at [] i = []
remove_at (it ∷ subs) zero = subs
remove_at (it ∷ subs) (suc i) = it ∷ remove_at subs i

unfoldable pub socket_closed : ℕ → List Subscriber → List Subscriber
unfolding last_with_fd remove_at
socket_closed fd subs = elim (last_with_fd fd 0 none subs) [
  | none ↦ subs
  | some i ↦ remove_at subs i
]

-- it->val->kinds & note->note_type
unfoldable pub wants : Subscriber → NoteType → Bool
unfolding note_type_code
wants sub t = not (bit_and sub.kinds (note_type_code t) == 0)

module _ ⦃u : LibUcl⦄ where
  open u use {Obj}

  -- A message with the descriptor that it is written to.
  unfoldable pub notify_message : S16Note → Obj
  unfolding clnt_call note_to_ucl
  notify_message note = clnt_call (codes "notify") (note_to_ucl note ∷ [])

  -- The loop over the subscribers for one note: the messages that are written, and whether the loop ends.
  -- s16rpc_clnt_call_unsafe waits for an answer of the subscriber; where there is none it does not
  -- return: it waits on, or the assert on the four bytes of the length fails.
  unfoldable pub notify_all : (ℕ → Obj → Bool) → S16Note → List Subscriber → List (ℕ × Obj) × Bool
  unfolding wants notify_message
  notify_all answers note [] = ([], true)
  notify_all answers note (it ∷ subs) =
      let m : ℕ × Obj = (it.fd, notify_message note) in
      let rest = notify_all answers note subs in
      if wants it note.note_type
      then (if answers it.fd (notify_message note) then (m ∷ rest.0, rest.1) else (m ∷ [], false))
      else rest

  -- while ((note = s16note_list_lpop (&notes))): the messages that are written, in order, and the notes
  -- that are left.
  unfoldable pub send_notes :
      (ℕ → Obj → Bool) → List S16Note → List Subscriber → List (ℕ × Obj) × Conv (List S16Note)
  unfolding notify_all
  send_notes answers [] subs = ([], value [])
  send_notes answers (note ∷ notes) subs =
      let sent = notify_all answers note subs in
      let rest = send_notes answers notes subs in
      if sent.1 then (sent.0 ++ rest.0, rest.1) else (sent.0, stopped)

  -- The subscribers after an event; `closed` is the descriptor of an event with EV_EOF.
  unfoldable pub remaining_subs : Option ℕ → List Subscriber → List Subscriber
  unfolding socket_closed
  remaining_subs none subs = subs
  remaining_subs (some fd) subs = socket_closed fd subs

  unfoldable pub left_with : Configd → List Subscriber → List S16Note → Configd
  left_with s subs notes = record s { db = record s.db { notes = notes }; subs = subs }

  -- What follows an event; `answers` says whether a call of the subscriber on a descriptor returns.
  unfoldable pub after_event : (ℕ → Obj → Bool) → Option ℕ → Configd → List (ℕ × Obj) × Conv Configd
  unfolding remaining_subs send_notes left_with
  after_event answers closed s =
      let subs = remaining_subs closed s.subs in
      let sent = send_notes answers s.db.notes subs in
      (sent.0, sent.1 >>= λ notes. value (left_with s subs notes))
