-- ===== src/Rpc/Connections/Laws.antt =====
-- What events do to the connections of a server of usr/src/lib/s16/rpc/rpc.c.
use e_com_init.Common.{
  ℕ, ◌≡◌, ◌≢◌, refl, ap, sym, subst, ◌∙◌, Bool, true, false, not, ◌&&◌, Option, none, some, List,
  ◌∷◌, CStr, ◌==◌, if◌then◌else◌, All, Bool-cases, inl, inr,
}
use e_com_init.Common.Res.{Res, ok, aborted, too_deep}
use e_com_init.Common.Conv.{Conv, value, Gives, Gives->>=, Gives-any}
use e_com_init.S16List.{list_add, list_add_if_absent, list_del, list_find, list_find_eq, find_from}
use e_com_init.Ucl.{LibUcl}
use e_com_init.Rpc.Wire.{Conn, conn_new, text_in}
use e_com_init.Rpc.Server.{RpcMethod, handle_msg}
use e_com_init.Rpc.Connections.{
  RpcSrv, KEvent, SystemCalls, find_conn, add_conn, conn_close, kq_add, kq_delete, put_conn, on_eof,
  on_accept, Served, on_message, on_read, unserved, investigate_kevent, srv_new,
}
use e_com_init.Rpc.Connections.Descriptors.{
  fds, AllDistinct, add-AllDistinct, del-AllDistinct, add_if_absent-new, close_fds, add_fds,
  put_fds,
}

-- The descriptors that the server has open: its own socket, which a client has as a connection, and
-- the connections.
abbrev pub open_fds : RpcSrv → List ℕ
open_fds srv = if srv.is_client then fds srv.conns else srv.fd ∷ fds srv.conns

-- The descriptors are distinct, and the kernel queue watches exactly them.
abbrev pub IsTracked : RpcSrv → Type 0
IsTracked srv = AllDistinct (open_fds srv) × (srv.watched ≡ open_fds srv)

-- What close leaves of the queue's descriptors is what it leaves of the server's.
on_eof-IsTracked :
    (taken : Bool) (srv : RpcSrv) (fd : ℕ) (found : Option Conn)
    → find_conn srv.conns fd ≡ found
    → IsTracked srv
    → Gives IsTracked (on_eof taken found fd srv)
unfolding on_eof kq_delete conn_close
on_eof-IsTracked taken srv fd none h t = t
on_eof-IsTracked false srv fd (some c) h t = tt
on_eof-IsTracked true srv fd (some c) h t =
    let same = close_fds srv.is_client srv.fd srv.conns c fd h t.0 in
    (
      subst AllDistinct (sym same) (del-AllDistinct (open_fds srv) fd t.0),
      ap (λ l. list_del ◌==◌ l fd) t.1 ∙ sym same,
    )

on_accept-IsTracked :
    (taken : Bool) (srv : RpcSrv) (fd : Option ℕ)
    → ((new : ℕ) → fd ≡ some new → All (λ y. y ≢ new) (open_fds srv))
    → IsTracked srv
    → Gives IsTracked (on_accept taken fd srv)
unfolding on_accept kq_add add_conn conn_new
on_accept-IsTracked taken srv none new t = tt
on_accept-IsTracked false srv (some fd) new t = tt
on_accept-IsTracked true srv (some fd) new t =
    let same = add_fds srv.is_client srv.fd srv.conns fd in
    let fresh = new fd refl in
    (
      subst AllDistinct (sym same) (add-AllDistinct (open_fds srv) fd t.0 fresh),
      ap (λ l. list_add_if_absent ◌==◌ l fd) t.1
          ∙ add_if_absent-new (open_fds srv) fd fresh
          ∙ sym same,
    )

put_conn-IsTracked :
    (srv : RpcSrv) (c : Conn)
    → IsTracked srv
    → IsTracked (record srv { conns = put_conn srv.conns c })
put_conn-IsTracked srv c t =
    let same = put_fds srv.is_client srv.fd srv.conns c in
    (subst AllDistinct (sym same) t.0, t.1 ∙ sym same)

module _ ⦃u : LibUcl⦄ where
  open u use {Obj}

  abbrev LeavesTracked : {S : Type 0} → Served S → Type 0
  LeavesTracked x = IsTracked x.0

  on_message-LeavesTracked :
      {S : Type 0} (meths : List (RpcMethod S)) (srv : RpcSrv) (s : S)
      (got : Res (Conn × Option CStr))
      → IsTracked srv
      → Gives LeavesTracked (on_message meths srv s got)
  unfolding on_message
  on_message-LeavesTracked meths srv s (ok (conn, none)) t = put_conn-IsTracked srv conn t
  on_message-LeavesTracked meths srv s (ok (conn, some buf)) t =
      Gives->>= _ _ (handle_msg meths conn.fd (text_in buf) s) _ (Gives-any _)
        (λ x _. put_conn-IsTracked srv conn t)
  on_message-LeavesTracked meths srv s aborted t = tt
  on_message-LeavesTracked meths srv s too_deep t = tt

  on_read-LeavesTracked :
      {S : Type 0} (meths : List (RpcMethod S)) (io : SystemCalls) (found : Option Conn)
      (srv : RpcSrv) (s : S)
      → IsTracked srv
      → Gives LeavesTracked (on_read meths io found srv s)
  unfolding on_read
  on_read-LeavesTracked meths io none srv s t = t
  on_read-LeavesTracked meths io (some c) srv s t = on_message-LeavesTracked meths srv s _ t

  unserved-LeavesTracked :
      {S : Type 0} (s : S) (c : Conv RpcSrv)
      → Gives IsTracked c
      → Gives LeavesTracked (unserved s c)
  unfolding unserved
  unserved-LeavesTracked s c h = Gives->>= _ _ c _ h (λ srv t. t)

  investigate_kevent-LeavesTracked :
      {S : Type 0} (meths : List (RpcMethod S)) (io : SystemCalls) (ev : KEvent) (srv : RpcSrv)
      (s : S)
      → IsTracked srv
      → ((new : ℕ) → io.accepted ≡ some new → All (λ y. y ≢ new) (open_fds srv))
      → Gives LeavesTracked (investigate_kevent meths io ev srv s)
  unfolding investigate_kevent
  investigate_kevent-LeavesTracked meths io ev srv s t new = elim (Bool-cases ev.is_eof) [
    | inl e ↦
        rw e (unserved-LeavesTracked s _ (on_eof-IsTracked io.kevent_taken srv ev.ident _ refl t))
    | inr e ↦ elim (Bool-cases (not srv.is_client && ev.ident == srv.fd)) [
      | inl e' ↦
          rw (e, e')
            (unserved-LeavesTracked s _ (on_accept-IsTracked io.kevent_taken srv io.accepted new t))
      | inr e' ↦ elim (Bool-cases ev.is_read) [
        | inl e'' ↦
            rw (e, e', e'') (on_read-LeavesTracked meths io (find_conn srv.conns ev.ident) srv s t)
        | inr e'' ↦ rw (e, e', e'') t
      ]
    ]
  ]

  -- An event keeps the connections and the kernel queue in step: if the descriptors of the server and of
  -- its connections are distinct and the queue watches exactly them, the same holds after the event,
  -- whatever it is and whatever the methods do, if accept gives a descriptor that is not open.
  pub investigate_kevent-IsTracked :
      {S : Type 0} (meths : List (RpcMethod S)) (io : SystemCalls) (ev : KEvent) (srv : RpcSrv)
      (s : S) (left : Served S)
      → IsTracked srv
      → ((new : ℕ) → io.accepted ≡ some new → All (λ y. y ≢ new) (open_fds srv))
      → investigate_kevent meths io ev srv s ≡ value left
      → IsTracked left.0
  investigate_kevent-IsTracked meths io ev srv s left t new e =
      subst (Gives LeavesTracked) e (investigate_kevent-LeavesTracked meths io ev srv s t new)

-- A new server is in step with the kernel queue, whether it listens or reads its own socket.
pub srv_new-IsTracked :
    (sock : ℕ) (is_client : Bool) → Gives IsTracked (srv_new true sock is_client)
unfolding srv_new kq_add add_conn list_add list_add_if_absent list_find_eq list_find find_from
srv_new-IsTracked sock true = ((tt, tt), refl)
srv_new-IsTracked sock false = ((tt, tt), refl)
