-- ===== src/Rpc/Wire.antt =====
-- Messages on a socket of usr/src/lib/s16/rpc/rpc.c: four bytes of length, then a text with its NUL.
-- A 32-bit int is its bit pattern. What recv gives is an argument: `none` is its -1.
use e_com_init.Common.{
  ℕ, zero, suc, ◌+◌, ◌-◌, ◌%◌, ◌^◌, ◌<◌, ◌≤◌, ◌≡◌, refl, Bool, true, false, not, ◌&&◌, Option, none,
  some, List, [], ◌∷◌, ◌++◌, CStr, codes, length, take, drop, ltb, ◌==◌, if◌then◌else◌,
}
use e_com_init.Common.Res.{Res, ok, aborted}
pub mod Laws

pub record Message : Type 0 where
  pub len : ℕ
  pub bytes : CStr

-- write_object, from the text that libucl emits
unfoldable pub write_text : CStr → Message
write_text s = record { len = (length s + 1) % 2 ^ 32; bytes = s ++ 0 ∷ [] }

-- The text in a buffer: its bytes in front of the first NUL.
unfoldable pub text_in : CStr → CStr
text_in [] = []
text_in (c ∷ buf) = if c == 0 then [] else c ∷ text_in buf

pub record Conn : Type 0 where
  pub fd : ℕ
  pub cur_msg_len : ℕ
  pub cur_msg_off : ℕ
  pub cur_msg_buf : CStr

unfoldable pub conn_new : ℕ → Conn
conn_new fd = record { fd = fd; cur_msg_len = 0; cur_msg_off = 0; cur_msg_buf = [] }

-- recv (fd, buf, n): what arrived is written to the start of the buffer.
unfoldable pub recv_into : CStr → Option CStr → CStr
recv_into buf none = buf
recv_into buf (some chunk) = chunk ++ drop (length chunk) buf

unfoldable pub recv_count : Option CStr → ℕ
recv_count none = 2 ^ 32 - 1
recv_count (some chunk) = length chunk

-- The first part: the length of a new message. `junk` is what malloc gives; a length of 2 ^ 31 or more
-- is a negative int, for which it gives NULL.
unfoldable pub start_message : (ℕ → CStr) → Option ℕ → Conn → Res Conn
start_message junk header conn =
    if conn.cur_msg_len == 0
    then elim header [
      | none ↦ aborted
      | some len ↦ ok (record conn {
        cur_msg_len = len;
        cur_msg_off = 0;
        cur_msg_buf = if ltb len (2 ^ 31) then junk len else [];
      })
    ]
    else ok conn

-- The second part: what has arrived of the message; the buffer goes to handle_msg when it is full. recv
-- fails for a NULL buffer.
unfoldable pub recv_message : Option CStr → Conn → Conn × Option CStr
unfolding recv_into recv_count
recv_message chunk conn =
    let got = if ltb conn.cur_msg_len (2 ^ 31) then chunk else none in
    let off = (conn.cur_msg_off + recv_count got) % 2 ^ 32 in
    let buf = recv_into conn.cur_msg_buf got in
    if not (conn.cur_msg_len == 0) && off == conn.cur_msg_len
    then (record conn { cur_msg_len = 0; cur_msg_off = off; cur_msg_buf = [] }, some buf)
    else (record conn { cur_msg_off = off; cur_msg_buf = buf }, none)

unfoldable pub handle_recv : (ℕ → CStr) → Option ℕ → Option CStr → Conn → Res (Conn × Option CStr)
unfolding start_message recv_message
handle_recv junk header chunk conn = elim (start_message junk header conn) [
  | ok started ↦ ok (recv_message chunk started)
  | r ↦ aborted
]

-- MAX_LEN_MSG
abbrev pub max_len_msg : ℕ
max_len_msg = 16384

-- The client's side: the length is read, then the text, in one recv.
unfoldable pub recv_text : (ℕ → CStr) → Option ℕ → Option CStr → Res CStr
unfolding recv_into text_in
recv_text junk header chunk = elim header [
  | none ↦ aborted
  | some len ↦
      if ltb max_len_msg len && ltb len (2 ^ 31)
      then ok (codes "INVALID-MESSAGE")
      else ok (text_in (recv_into (junk len) chunk))
]
