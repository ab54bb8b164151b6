-- ===== src/Rpc/Exchange.antt =====
-- A call from one end to the other of usr/src/lib/s16/rpc/rpc.c, where the messages arrive whole: the
-- text that the client reads of a message longer than MAX_LEN_MSG is INVALID-MESSAGE.
use e_com_init.Common.{
  ℕ, ◌+◌, Bool, Option, none, some, List, CStr, codes, ltb, length, if◌then◌else◌,
}
use e_com_init.Ucl.{LibUcl}
use e_com_init.Common.Conv.{Conv, value, null, stopped, not_in_enum, ◌>>=◌}
use e_com_init.Rpc.Wire.{max_len_msg}
use e_com_init.Rpc.Server.{RpcError, Outcome, RpcMethod, no_error, handle_msg}
use e_com_init.Rpc.Client.{clnt_call, recv_reply}
pub mod Laws

module _ ⦃u : LibUcl⦄ where
  open u use {Obj, emit}

  unfoldable pub reply_text : Obj → CStr
  reply_text m = if ltb max_len_msg (length (emit m) + 1) then codes "INVALID-MESSAGE" else emit m

  -- Without a reply the client waits in recv and does not return.
  unfoldable pub receive : {S : Type 0} → RpcError Obj → S × Option Obj → Conv (Outcome S)
  unfolding reply_text recv_reply
  receive rerror (s, none) = stopped
  receive rerror (s, some m) = do (r, e) ← recv_reply rerror (reply_text m); value (r, e, s)

  unfoldable pub exchange :
      {S : Type 0} → List (RpcMethod S) → ℕ → RpcError Obj → CStr → List Obj → S → Conv (Outcome S)
  unfolding clnt_call handle_msg receive
  exchange meths sock rerror name args s =
      handle_msg meths sock (emit (clnt_call name args)) s >>= receive rerror

  -- s16rpc_i_clnt_call_unsafe: the error is not returned.
  unfoldable pub exchange_unsafe :
      {S : Type 0} → List (RpcMethod S) → ℕ → CStr → List Obj → S → Conv (Option Obj × S)
  unfolding exchange no_error
  exchange_unsafe meths sock name args s = do
    (r, e, s') ← exchange meths sock no_error name args s
    value (r, s')
