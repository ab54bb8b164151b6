-- ===== src/Tests/Connections.antt =====
-- A server that listens on 3 and has a connection on 5, over the libucl of `Values`.
use e_com_init.Common.{
  ℕ, ◌≡◌, ◌≢◌, refl, true, false, none, some, List, [], ◌∷◌, codes, ◌==◌, if◌then◌else◌, All, arith,
}
use e_com_init.Common.Conv.{value, ◌>>=◌}
use e_com_init.S16List.{
  list_del, list_add, list_add_if_absent, list_find_eq, list_find, find_from, list_it_val,
}
use e_com_init.Rpc.Wire.{Conn, conn_new, write_text}
use e_com_init.Rpc.Wire.Laws.{IsIdle}
use e_com_init.Rpc.Server.{handle_msg}
use e_com_init.Rpc.Connections.{
  RpcSrv, KEvent, SystemCalls, find_conn, match_fd, addressed, investigate_kevent, on_accept,
  on_eof, kq_add, kq_delete, add_conn, conn_close, unserved,
}
use e_com_init.Rpc.Connections.Laws.{IsTracked, open_fds, investigate_kevent-IsTracked}
use e_com_init.Rpc.Connections.Serves.{investigate_kevent-write_text}
use e_com_init.Tests.Values.{tree_ucl}
use e_com_init.Tests.Wires.{xs, conn, no_nul}

abbrev server : RpcSrv
server = record { is_client = false; fd = 3; conns = conn ∷ []; watched = 3 ∷ 5 ∷ [] }

server-IsTracked : IsTracked server
server-IsTracked = ground arith

abbrev calls : SystemCalls
calls = record { accepted = some 6; kevent_taken = true; header = none; chunk = none; junk = xs }

abbrev knock : KEvent
knock = record { ident = 3; is_eof = false; is_read = true }

abbrev hang_up : KEvent
hang_up = record { ident = 5; is_eof = true; is_read = true }

abbrev joined : RpcSrv
joined = record {
  is_client = false;
  fd = 3;
  conns = conn ∷ conn_new 6 ∷ [];
  watched = 3 ∷ 5 ∷ 6 ∷ [];
}

knock_joins : investigate_kevent {S = ℕ} [] calls knock server 7 ≡ value (joined, 7, none)
unfolding investigate_kevent unserved on_accept kq_add add_conn list_add list_add_if_absent
    list_find_eq list_find find_from
knock_joins = refl

hang_up_leaves :
    investigate_kevent {S = ℕ} [] calls hang_up server 7
    ≡ value (record server { conns = []; watched = 3 ∷ [] }, 7, none)
unfolding investigate_kevent unserved on_eof find_conn kq_delete conn_close list_del list_find
    find_from list_it_val match_fd
hang_up_leaves = refl

new_descriptor : (new : ℕ) → some 6 ≡ some new → All (λ y. y ≢ new) (open_fds server)
new_descriptor new e = let six : 6 ≡ new = cc in ground arith

investigate_kevent-IsTracked_example : IsTracked joined
investigate_kevent-IsTracked_example =
    investigate_kevent-IsTracked [] calls knock server 7 (joined, 7, none) server-IsTracked
      new_descriptor knock_joins

found : find_conn server.conns 5 ≡ some conn
unfolding find_conn match_fd list_find find_from list_it_val
found = refl

investigate_kevent-write_text_example :
    (conn' : Conn) × (conns : List Conn) × (investigate_kevent {S = ℕ} []
        (record {
          accepted = none;
          kevent_taken = true;
          header = some (write_text (codes "abc")).len;
          chunk = some (write_text (codes "abc")).bytes;
          junk = xs;
        })
        (record { ident = 5; is_eof = false; is_read = true })
        server
        7
      ≡ (handle_msg [] 5 (codes "abc") 7 >>= λ (st', reply).
          value (record server { conns = conns }, st', addressed 5 reply)))
    × IsIdle conn'
    × ((q : ℕ) → find_conn conns q ≡ (if 5 == q then some conn' else find_conn server.conns q))
investigate_kevent-write_text_example =
    investigate_kevent-write_text [] xs none true server conn 5 (codes "abc") 7 server-IsTracked
      found refl no_nul (omega arith)
