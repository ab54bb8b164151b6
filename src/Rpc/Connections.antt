-- ===== src/Rpc/Connections.antt =====
-- The connections of a server of usr/src/lib/s16/rpc/rpc.c and the events of its kernel queue. What
-- accept, kevent and recv give for an event is an argument. `watched` has the descriptors that the
-- queue reports to the server: it is the kernel's side of the EV_ADD and EV_DELETE.
use e_com_init.Common.{
  ℕ, Bool, true, false, not, ◌&&◌, Option, none, some, List, [], ◌∷◌, CStr, ◌==◌, if◌then◌else◌,
}
use e_com_init.Common.Res.{Res, ok, aborted, too_deep}
use e_com_init.Common.Conv.{Conv, value, stopped, ◌>>=◌}
use e_com_init.S16List.{list_add, list_add_if_absent, list_del, list_find, list_it_val}
use e_com_init.Ucl.{LibUcl}
use e_com_init.Rpc.Wire.{Conn, conn_new, text_in, handle_recv}
use e_com_init.Rpc.Server.{RpcMethod, handle_msg}
pub mod Descriptors
pub mod Laws
pub mod Serves

-- The methods and the extra pointer are arguments of the handlers.
pub record RpcSrv : Type 0 where
  pub is_client : Bool
  pub fd : ℕ
  pub conns : List Conn
  pub watched : List ℕ

pub record KEvent : Type 0 where
  pub ident : ℕ
  pub is_eof : Bool
  pub is_read : Bool

-- What the system calls of a handler give: the descriptor of accept, whether kevent takes the change,
-- the two parts that recv reads, and what malloc gives.
pub record SystemCalls : Type 0 where
  pub accepted : Option ℕ
  pub kevent_taken : Bool
  pub header : Option ℕ
  pub chunk : Option CStr
  pub junk : ℕ → CStr

unfoldable pub match_fd : Conn → ℕ → Bool
match_fd a fd = a.fd == fd

-- s16rpc_conn_list_find_int
unfoldable pub find_conn : List Conn → ℕ → Option Conn
unfolding list_find list_it_val match_fd
find_conn conns fd = list_it_val conns (list_find conns (λ a. match_fd a fd))

unfoldable pub add_conn : RpcSrv → ℕ → RpcSrv
unfolding list_add conn_new
add_conn srv fd = record srv { conns = list_add srv.conns (conn_new fd) }

-- The connection is the first of its descriptor, which is the one that find_conn gives.
unfoldable pub conn_close : RpcSrv → Conn → RpcSrv
unfolding list_del
conn_close srv con = record srv { conns = list_del (λ a b. a.fd == b.fd) srv.conns con }

-- kevent with EV_ADD and with EV_DELETE; the program stops where it is not taken.
unfoldable pub kq_add : Bool → RpcSrv → ℕ → Conv RpcSrv
unfolding list_add_if_absent
kq_add taken srv fd =
    if taken
    then value (record srv { watched = list_add_if_absent ◌==◌ srv.watched fd })
    else stopped

unfoldable pub kq_delete : Bool → RpcSrv → ℕ → Conv RpcSrv
unfolding list_del
kq_delete taken srv fd =
    if taken then value (record srv { watched = list_del ◌==◌ srv.watched fd }) else stopped

-- The connection that was read from, which is changed in place.
unfoldable pub put_conn : List Conn → Conn → List Conn
put_conn [] c = []
put_conn (y ∷ n) c = if y.fd == c.fd then c ∷ n else y ∷ put_conn n c

unfoldable pub on_eof : Bool → Option Conn → ℕ → RpcSrv → Conv RpcSrv
unfolding kq_delete conn_close
on_eof taken none fd srv = value srv
on_eof taken (some cand) fd srv = kq_delete taken srv fd >>= λ srv'. value (conn_close srv' cand)

unfoldable pub on_accept : Bool → Option ℕ → RpcSrv → Conv RpcSrv
unfolding kq_add add_conn
on_accept taken none srv = stopped
on_accept taken (some fd) srv = kq_add taken (add_conn srv fd) fd

module _ ⦃u : LibUcl⦄ where
  open u use {Obj}

  -- What a handler leaves: the server, the state of the methods, and the reply that is written with the
  -- descriptor that it is written to.
  abbrev pub Served : Type 0 → Type 0
  Served S = RpcSrv × S × Option (ℕ × Obj)

  abbrev pub addressed : ℕ → Option Obj → Option (ℕ × Obj)
  addressed fd none = none
  addressed fd (some reply) = some (fd, reply)

  -- handle_recv after its two parts: the message that is there is handled.
  unfoldable pub on_message :
      {S : Type 0} → List (RpcMethod S) → RpcSrv → S → Res (Conn × Option CStr) → Conv (Served S)
  unfolding handle_msg put_conn text_in
  on_message meths srv s (ok (conn, none)) =
      value (record srv { conns = put_conn srv.conns conn }, s, none)
  on_message meths srv s (ok (conn, some buf)) = do
    (s', reply) ← handle_msg meths conn.fd (text_in buf) s
    value (record srv { conns = put_conn srv.conns conn }, s', addressed conn.fd reply)
  on_message meths srv s aborted = stopped
  on_message meths srv s too_deep = stopped

  unfoldable pub on_read :
      {S : Type 0} → List (RpcMethod S) → SystemCalls → Option Conn → RpcSrv → S → Conv (Served S)
  unfolding handle_recv on_message
  on_read meths io none srv s = value (srv, s, none)
  on_read meths io (some cand) srv s =
      on_message meths srv s (handle_recv io.junk io.header io.chunk cand)

  unfoldable pub unserved : {S : Type 0} → S → Conv RpcSrv → Conv (Served S)
  unserved s c = c >>= λ srv. value (srv, s, none)

  unfoldable pub investigate_kevent :
      {S : Type 0} → List (RpcMethod S) → SystemCalls → KEvent → RpcSrv → S → Conv (Served S)
  unfolding find_conn on_eof on_accept on_read unserved
  investigate_kevent meths io ev srv s =
      if ev.is_eof
      then unserved s (on_eof io.kevent_taken (find_conn srv.conns ev.ident) ev.ident srv)
      else if not srv.is_client && ev.ident == srv.fd
      then unserved s (on_accept io.kevent_taken io.accepted srv)
      else if ev.is_read
      then on_read meths io (find_conn srv.conns ev.ident) srv s
      else value (srv, s, none)

-- From the kevent on; a client has its own socket as a connection.
unfoldable pub srv_new : Bool → ℕ → Bool → Conv RpcSrv
unfolding kq_add add_conn
srv_new taken sock is_client =
    kq_add taken (record { is_client = is_client; fd = sock; conns = []; watched = [] }) sock
    >>= λ srv. value (if is_client then add_conn srv sock else srv)
