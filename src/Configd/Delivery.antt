-- ===== src/Configd/Delivery.antt =====
-- From s16db_enable of usr/src/lib/s16/db/rpc.c to the messages of the event loop of
-- usr/src/agent/configd/configd.c.
use e_com_init.Common.{
  ℕ, ◌≡◌, refl, Bool, true, none, some, List, [], ◌∷◌, ◌++◌, codes, Any, inl, inr, arith,
}
use e_com_init.Service.Types.{S16Path, S16ServiceInstance}
use e_com_init.Ucl.{LibUcl}
use e_com_init.Repository.Notes.{S16Note, note_new, n_admin_req, a_enable}
use e_com_init.Repository.Lookup.{instance_result}
use e_com_init.Repository.Db.{db_lookup_path_merged}
use e_com_init.Repository.Db.Laws.{db_set_enabled-instance}
use e_com_init.Common.Conv.{value}
use e_com_init.Repository.Convert.Write.{path_to_ucl}
use e_com_init.Repository.Convert.Parts.{IsPlainPath}
use e_com_init.Repository.Client.{s16db_enable}
use e_com_init.Rpc.Server.{RpcError, result_message}
use e_com_init.Rpc.Client.{clnt_call}
use e_com_init.Rpc.Exchange.{exchange}
use e_com_init.Rpc.Calls.{IsCarried}
use e_com_init.Rpc.Exchange.Laws.{IsReceived}
use e_com_init.Configd.Handlers.{Subscriber, Configd, error_number, rpc_setup}
use e_com_init.Configd.Loop.{wants, notify_message, remaining_subs, after_event}
use e_com_init.Configd.Loop.Laws.{Any-append, IsFor, AreAnswered, after_event_lem}
use e_com_init.Configd.Remote.{s16db_enable-db_set_enabled}

Any-map :
    {A : Type 0} (P Q : A → Type 0) (xs : List A) → ((x : A) → P x → Q x) → Any P xs → Any Q xs
Any-map P Q [] f h = h
Any-map P Q (x ∷ xs) f (inl p) = inl (f x p)
Any-map P Q (x ∷ xs) f (inr t) = inr (Any-map P Q xs f t)

module _ ⦃u : LibUcl⦄ (junk : S16ServiceInstance → Bool) where
  open u use {Obj}

  -- A note at the end of the queue is sent to each subscriber of its kind.
  delivered :
      (answers : ℕ → Obj → Bool) (s : Configd) (queue : List S16Note) (note : S16Note)
      (sub : Subscriber)
      → s.db.notes ≡ queue ++ note ∷ []
      → Any (λ x. x ≡ sub) s.subs
      → wants sub note.note_type ≡ true
      → AreAnswered answers s.db.notes s.subs
      → Any (λ m. (sub.fd, notify_message note) ≡ m) (after_event answers none s).0
  unfolding remaining_subs
  delivered answers s queue note sub queued member wanted live =
      let member_for =
        Any-map (λ x. x ≡ sub) (IsFor note (sub.fd, notify_message note)) s.subs for_sub member in
      ((after_event_lem answers none s live).1 (sub.fd, notify_message note)).1 (
        rw queued (
          (Any-append (λ n. Any (IsFor n (sub.fd, notify_message note)) s.subs) queue (note ∷ [])).1
            (inr (inl member_for))))
    where
      for_sub : (x : Subscriber) → x ≡ sub → IsFor note (sub.fd, notify_message note) x
      for_sub x e = rw e (wanted, refl)

  -- s16db_enable of an instance returns 0, keeps the subscribers, and has the daemon send the
  -- instance's request to every subscriber of administrative requests after its next event, if the path
  -- is in full, without a colon in the service name and of printable ASCII without quotes and
  -- backslashes, the messages are parsed as they were emitted, the reply is not too long, and each
  -- subscriber answers what it is sent.
  pub s16db_enable-delivered :
      (answers : ℕ → Obj → Bool) (sock : ℕ) (rerror : RpcError Obj) (p : S16Path) (s : Configd)
      (si ii : ℕ)
      → IsPlainPath p
      → db_lookup_path_merged s.db p ≡ instance_result (some (si, ii))
      → IsCarried (clnt_call (codes "enable") (path_to_ucl p ∷ []))
      → IsReceived (result_message none (some (error_number 0)))
      → ((m : ℕ × Obj) → answers m.0 m.1 ≡ true)
      → (s' : Configd) × (s16db_enable (exchange (rpc_setup junk) sock rerror) p s ≡ value (0, s'))
        × (s'.subs ≡ s.subs)
        × ((sub : Subscriber)
            → Any (λ x. x ≡ sub) s.subs
            → wants sub n_admin_req ≡ true
            → Any
                (λ m. (sub.fd, notify_message (note_new n_admin_req a_enable p 0)) ≡ m)
                (after_event answers none s').0)
  unfolding note_new
  s16db_enable-delivered answers sock rerror p s si ii plain found sent answered live =
      let (db', done, queued) = db_set_enabled-instance p true s.db si ii found in
      let s' : Configd = record s { db = db' } in
      (
        s',
        s16db_enable-db_set_enabled junk sock rerror p s 0 db' plain done (omega arith) sent
            answered,
        refl,
        λ sub member wanted.
            delivered answers s' s.db.notes (note_new n_admin_req a_enable p 0) sub queued member
              wanted (λ m h. live m),
      )
