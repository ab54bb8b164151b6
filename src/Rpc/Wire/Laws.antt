-- ===== src/Rpc/Wire/Laws.antt =====
-- Messages that arrive whole, and messages that arrive in parts.
use e_com_init.Common.{
  ℕ, zero, suc, ◌+◌, ◌%◌, ◌^◌, ◌<◌, ◌≤◌, ◌≡◌, ◌≢◌, refl, ap, ◌∙◌, true, Option, none, some, [], ◌∷◌,
  ◌++◌, CStr, codes, length, drop, ltb, if◌then◌else◌, All, arith, length-append, append_assoc,
}
use e_com_init.Common.Res.{ok}
use e_com_init.Rpc.Wire.{
  write_text, text_in, Conn, recv_into, recv_count, start_message, recv_message, handle_recv,
  max_len_msg, recv_text,
}

-- The bytes of a C string.
abbrev pub HasNoNul : CStr → Type 0
HasNoNul = All (λ c. c ≢ 0)

pub text_in-append_nul : (s rest : CStr) → HasNoNul s → text_in (s ++ 0 ∷ rest) ≡ s
unfolding text_in
text_in-append_nul [] rest h = refl
text_in-append_nul (c ∷ s) rest h = ground (arith, text_in-append_nul s rest h.1)

drop_all : (n : ℕ) (xs : CStr) → length xs ≤ n → drop n xs ≡ []
drop_all zero [] h = refl
drop_all zero (x ∷ xs) h = absurd (omega arith)
drop_all (suc n) [] h = refl
drop_all (suc n) (x ∷ xs) h = drop_all n xs (omega arith)

-- A connection between two messages.
abbrev pub IsIdle : Conn → Type 0
IsIdle conn = conn.cur_msg_len ≡ 0

pub start_message-idle :
    (junk : ℕ → CStr) (len : ℕ) (conn : Conn)
    → IsIdle conn
    → len < 2 ^ 31
    → start_message junk (some len) conn
      ≡ ok (record conn { cur_msg_len = len; cur_msg_off = 0; cur_msg_buf = junk len })
unfolding start_message
start_message-idle junk len conn idle fits =
    let small : ltb len (2 ^ 31) ≡ true = ground arith in rw (idle, small) refl

start_message-busy :
    (junk : ℕ → CStr) (header : Option ℕ) (conn : Conn)
    → conn.cur_msg_len ≢ 0
    → start_message junk header conn ≡ ok conn
unfolding start_message
start_message-busy junk header conn busy = ground arith

-- The last part of a message.
recv_message-last :
    (chunk : CStr) (conn : Conn)
    → 0 < conn.cur_msg_len
    → conn.cur_msg_len < 2 ^ 31
    → conn.cur_msg_off + length chunk ≡ conn.cur_msg_len
    → recv_message (some chunk) conn ≡ (
      record conn { cur_msg_len = 0; cur_msg_off = conn.cur_msg_len; cur_msg_buf = [] },
      some (recv_into conn.cur_msg_buf (some chunk)),
    )
unfolding recv_message recv_count
recv_message-last chunk conn some_len fits full = ground (arith, full)

-- A part that is not the last one.
recv_message-part :
    (chunk : CStr) (conn : Conn)
    → conn.cur_msg_len < 2 ^ 31
    → conn.cur_msg_off + length chunk < conn.cur_msg_len
    → recv_message (some chunk) conn ≡ (
      record conn {
        cur_msg_off = conn.cur_msg_off + length chunk;
        cur_msg_buf = recv_into conn.cur_msg_buf (some chunk);
      },
      none,
    )
unfolding recv_message recv_count
recv_message-part chunk conn fits part = ground arith

pub handle_recv-started :
    (junk : ℕ → CStr) (header : Option ℕ) (chunk : Option CStr) (conn started : Conn)
    → start_message junk header conn ≡ ok started
    → handle_recv junk header chunk conn ≡ ok (recv_message chunk started)
unfolding handle_recv
handle_recv-started junk header chunk conn started e = rw (e, handle_recv) refl

-- A message that arrives in one piece at a connection between two messages is handed on as the text
-- that was written, and leaves the connection between two messages.
pub handle_recv-write_text :
    (junk : ℕ → CStr) (s : CStr) (conn : Conn)
    → IsIdle conn
    → HasNoNul s
    → length s + 1 < 2 ^ 31
    → (conn' : Conn) × (buf : CStr) × (handle_recv junk
          (some (write_text s).len)
          (some (write_text s).bytes)
          conn
        ≡ ok (conn', some buf))
      × IsIdle conn'
      × (text_in buf ≡ s)
unfolding write_text recv_into
handle_recv-write_text junk s conn idle text fits =
    let n = (length s + 1) % 2 ^ 32 in
    let started = record conn { cur_msg_len = n; cur_msg_off = 0; cur_msg_buf = junk n } in
    let len : length (s ++ 0 ∷ []) ≡ length s + 1 = length-append s (0 ∷ []) in
    let last =
      recv_message-last (s ++ 0 ∷ []) started (omega arith) (omega arith) (omega (arith, len)) in
    (
      record started { cur_msg_len = 0; cur_msg_off = n; cur_msg_buf = [] },
      recv_into (junk n) (some (s ++ 0 ∷ [])),
      handle_recv-started junk _ _ conn started (start_message-idle junk n conn idle (omega arith))
          ∙ ap ok last,
      refl,
      rw append_assoc (text_in-append_nul s _ text),
    )

-- A message of less than 2 ^ 31 bytes that arrives in two parts, neither of them empty, at a connection
-- between two messages is handed on with its second part at the start of the buffer: the second part
-- is received over the first one.
pub handle_recv-split :
    (junk : ℕ → CStr) (a b : CStr) (header : Option ℕ) (conn : Conn)
    → IsIdle conn
    → 0 < length a
    → 0 < length b
    → length a + length b < 2 ^ 31
    → (part conn' : Conn) × (handle_recv junk (some (length a + length b)) (some a) conn
        ≡ ok (part, none))
      × (handle_recv junk header (some b) part
          ≡ ok (
            conn',
            some (b ++ drop (length b) (a ++ drop (length a) (junk (length a + length b)))),
          ))
      × IsIdle conn'
unfolding recv_into
handle_recv-split junk a b header conn idle some_a some_b fits =
    let n = length a + length b in
    let started = record conn { cur_msg_len = n; cur_msg_off = 0; cur_msg_buf = junk n } in
    let part = record started {
      cur_msg_off = 0 + length a;
      cur_msg_buf = a ++ drop (length a) (junk n);
    } in
    let first = recv_message-part a started fits (omega arith) in
    let last = recv_message-last b part (omega arith) fits (omega arith) in
    (
      part,
      record part { cur_msg_len = 0; cur_msg_off = n; cur_msg_buf = [] },
      handle_recv-started junk _ _ conn started (start_message-idle junk n conn idle (omega arith))
          ∙ ap ok first,
      handle_recv-started junk _ _ part part
            (start_message-busy junk header part (λ e. omega (arith, e)))
          ∙ ap ok last,
      refl,
    )

-- The client reads a message of at most 16384 bytes, its NUL included, that arrives in one piece as
-- the text that was written, which has no NUL inside; a longer one, of less than 2 ^ 31 bytes, it reads
-- as the text INVALID-MESSAGE.
pub recv_text-write_text :
    (junk : ℕ → CStr) (s : CStr)
    → HasNoNul s
    → length s + 1 < 2 ^ 31
    → recv_text junk (some (write_text s).len) (some (write_text s).bytes)
      ≡ ok (if ltb max_len_msg (length s + 1) then codes "INVALID-MESSAGE" else s)
unfolding recv_text write_text recv_into
recv_text-write_text junk s text fits =
    let small : (length s + 1) % 2 ^ 32 ≡ length s + 1 = omega arith in
    let below : ltb (length s + 1) (2 ^ 31) ≡ true = ground arith in
    rw (small, below, append_assoc)
      (ground
        (arith, text_in-append_nul s (drop (length (s ++ 0 ∷ [])) (junk (length s + 1))) text))
