-- ===== src/Rpc/Connections/Serves.antt =====
-- A message that arrives whole at a server of usr/src/lib/s16/rpc/rpc.c.
use e_com_init.Common.{
  ℕ, ◌+◌, ◌<◌, ◌^◌, ◌≡◌, ap, sym, subst, ◌∙◌, Bool, true, false, Option, some, List, [], ◌∷◌, CStr,
  length, ◌==◌, if◌then◌else◌, Bool-cases, inl, inr, arith,
}
use e_com_init.Common.Res.{ok}
use e_com_init.Common.Conv.{value, ◌>>=◌}
use e_com_init.Ucl.{LibUcl}
use e_com_init.Rpc.Wire.{Conn, write_text, text_in, recv_message, handle_recv}
use e_com_init.Rpc.Wire.Laws.{
  HasNoNul, IsIdle, handle_recv-started, start_message-idle, handle_recv-write_text,
}
use e_com_init.Rpc.Server.{RpcMethod, handle_msg}
use e_com_init.Rpc.Connections.{
  RpcSrv, SystemCalls, find_conn, put_conn, addressed, on_message, on_read, investigate_kevent,
}
use e_com_init.Rpc.Connections.Laws.{IsTracked}
use e_com_init.Rpc.Connections.Descriptors.{
  find_conn-nil, find_conn-cons, find_conn-some, listening_apart,
}

recv_message-fd : (chunk : Option CStr) (conn : Conn) → (recv_message chunk conn).0.fd ≡ conn.fd
unfolding recv_message
recv_message-fd chunk conn = ground arith

ok_injective : (a b : Conn × Option CStr) → ok a ≡ ok b → a ≡ b
ok_injective a b e = cc

handle_recv-fd :
    (junk : ℕ → CStr) (len : ℕ) (chunk : Option CStr) (conn conn' : Conn) (got : Option CStr)
    → IsIdle conn
    → len < 2 ^ 31
    → handle_recv junk (some len) chunk conn ≡ ok (conn', got)
    → conn'.fd ≡ conn.fd
handle_recv-fd junk len chunk conn conn' got idle fits e =
    let started = record conn { cur_msg_len = len; cur_msg_off = 0; cur_msg_buf = junk len } in
    let ran =
      handle_recv-started junk (some len) chunk conn started
        (start_message-idle junk len conn idle fits) in
    ap (λ p. p.0.fd) (sym (ok_injective _ _ (sym ran ∙ e))) ∙ recv_message-fd chunk started

put_conn-found :
    (n : List Conn) (c c' : Conn) (q : ℕ)
    → find_conn n c'.fd ≡ some c
    → find_conn (put_conn n c') q ≡ (if c'.fd == q then some c' else find_conn n q)
unfolding put_conn
put_conn-found [] c c' q h = absurd (cc (h, find_conn-nil c'.fd))
put_conn-found (y ∷ n) c c' q h = elim (Bool-cases (y.fd == c'.fd)) [
  | inl e ↦ rw (e, find_conn-cons y n q, find_conn-cons c' n q) (ground arith)
  | inr e ↦
      let later = put_conn-found n c c' q (rw (find_conn-cons y n c'.fd, e) at h) in
      rw (e, find_conn-cons y (put_conn n c') q, find_conn-cons y n q, later) (ground arith)
]

module _ ⦃u : LibUcl⦄ where
  on_read-got :
      {S : Type 0} (meths : List (RpcMethod S)) (io : SystemCalls) (cand conn' : Conn)
      (srv : RpcSrv) (st : S) (buf s : CStr)
      → handle_recv io.junk io.header io.chunk cand ≡ ok (conn', some buf)
      → text_in buf ≡ s
      → on_read meths io (some cand) srv st ≡ (
          handle_msg meths conn'.fd s st >>= λ (st', reply).
          value (record srv { conns = put_conn srv.conns conn' }, st', addressed conn'.fd reply))
  unfolding on_read on_message
  on_read-got meths io cand conn' srv st buf s got text =
      ap (on_message meths srv st) got
      ∙ ap
          (λ t. handle_msg meths conn'.fd t st >>= λ (st', reply).
            value (record srv { conns = put_conn srv.conns conn' }, st', addressed conn'.fd reply))
          text

  -- A message of less than 2 ^ 31 bytes, with no NUL inside, that arrives whole at a connection between
  -- two messages, at a server whose descriptors are distinct and are what the kernel queue watches: the
  -- message's text is handled once, the reply is written to the same descriptor, that connection is
  -- between two messages again, and every other connection is as it was.
  pub investigate_kevent-write_text :
      {S : Type 0} (meths : List (RpcMethod S)) (junk : ℕ → CStr) (accepted : Option ℕ)
      (taken : Bool) (srv : RpcSrv) (conn : Conn) (fd : ℕ) (s : CStr) (st : S)
      → IsTracked srv
      → find_conn srv.conns fd ≡ some conn
      → IsIdle conn
      → HasNoNul s
      → length s + 1 < 2 ^ 31
      → (conn' : Conn) × (conns : List Conn) × (investigate_kevent meths
            (record {
              accepted = accepted;
              kevent_taken = taken;
              header = some (write_text s).len;
              chunk = some (write_text s).bytes;
              junk = junk;
            })
            (record { ident = fd; is_eof = false; is_read = true })
            srv
            st
          ≡ (handle_msg meths fd s st >>= λ (st', reply).
              value (record srv { conns = conns }, st', addressed fd reply)))
        × IsIdle conn'
        × ((q : ℕ) → find_conn conns q ≡ (if fd == q then some conn' else find_conn srv.conns q))
  unfolding investigate_kevent write_text
  investigate_kevent-write_text meths junk accepted taken srv conn fd s st tracked found idle text
        fits =
      let (conn', buf, got, idle', same) = handle_recv-write_text junk s conn idle text fits in
      let at_fd : conn'.fd ≡ fd =
        handle_recv-fd junk (write_text s).len (some (write_text s).bytes) conn conn' (some buf)
          idle (omega arith) got
        ∙ (find_conn-some srv.conns fd conn found).0 in
      let apart = listening_apart srv.is_client srv.fd srv.conns conn fd found tracked.0 in
      let io : SystemCalls = record {
        accepted = accepted;
        kevent_taken = taken;
        header = some (write_text s).len;
        chunk = some (write_text s).bytes;
        junk = junk;
      } in
      (
        conn',
        put_conn srv.conns conn',
        rw (apart, found)
            (subst
              (λ d. on_read meths io (some conn) srv st ≡ (
                handle_msg meths d s st >>= λ (st', reply).
                value (record srv { conns = put_conn srv.conns conn' }, st', addressed d reply)))
              at_fd (on_read-got meths io conn conn' srv st buf s got same)),
        idle',
        λ q.
            subst
              (λ d.
                find_conn (put_conn srv.conns conn') q
                ≡ (if d == q then some conn' else find_conn srv.conns q))
              at_fd
              (put_conn-found srv.conns conn conn' q
                (subst (λ d. find_conn srv.conns d ≡ some conn) (sym at_fd) found)),
      )
