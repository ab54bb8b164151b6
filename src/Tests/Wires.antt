-- ===== src/Tests/Wires.antt =====
-- A message of three bytes, whole and in two parts.
use e_com_init.Common.{
  ℕ, zero, suc, ◌+◌, none, some, [], ◌∷◌, ◌≡◌, refl, CStr, codes, length, arith, if◌then◌else◌, ltb,
}
use e_com_init.Common.Res.{ok}
use e_com_init.Rpc.Wire.{Conn, write_text, handle_recv, recv_text, max_len_msg}
use e_com_init.Rpc.Wire.Laws.{HasNoNul, IsIdle, handle_recv-split, recv_text-write_text}

-- A fresh buffer of the letter x.
abbrev pub xs : ℕ → CStr
xs zero = []
xs (suc n) = b'x' ∷ xs n

abbrev pub conn : Conn
conn = record { fd = 5; cur_msg_len = 0; cur_msg_off = 0; cur_msg_buf = [] }

pub no_nul : HasNoNul (codes "abc")
no_nul = ground arith

handle_recv-split_example :
    (part conn' : Conn) × (handle_recv xs (some 4) (some (codes "abc")) conn ≡ ok (part, none))
    × (handle_recv xs none (some (0 ∷ [])) part ≡ ok (conn', some (0 ∷ codes "bcx")))
    × IsIdle conn'
handle_recv-split_example =
    handle_recv-split xs (codes "abc") (0 ∷ []) none conn refl (omega arith) (omega arith)
      (omega arith)

recv_text-write_text_example :
    recv_text xs (some (write_text (codes "abc")).len) (some (write_text (codes "abc")).bytes)
    ≡ ok (
        if ltb max_len_msg (length (codes "abc") + 1) then codes "INVALID-MESSAGE" else codes "abc")
recv_text-write_text_example = recv_text-write_text xs (codes "abc") no_nul (omega arith)
