-- ===== src/Rpc/Client.antt =====
-- The client of usr/src/lib/s16/rpc/rpc.c.
use e_com_init.Common.{ℕ, Option, none, some, List, [], ◌∷◌, CStr, codes}
use e_com_init.Ucl.{LibUcl, int_of_int64}
use e_com_init.Common.Conv.{Conv, value, ◌>>=◌}
use e_com_init.Repository.Convert.Read.{text}
use e_com_init.Rpc.Server.{RpcError}

module _ ⦃u : LibUcl⦄ where
  open u use {
    Obj, typed_object, typed_array, fromstring, insert_key, array_append, lookup, tostring, toint,
    parse_object,
  }

  -- The message of s16rpc_i_clnt_call_arr.
  unfoldable pub call_message : CStr → Obj → Obj
  call_message meth_name params =
      let msg = insert_key typed_object (fromstring (codes "2.0")) (codes "jsonrpc") in
      insert_key (insert_key msg (fromstring meth_name) (codes "method")) params (codes "params")

  -- The loop over the variable arguments.
  unfoldable pub append_args : Obj → List Obj → Obj
  append_args params [] = params
  append_args params (arg ∷ args) = append_args (array_append params arg) args

  unfoldable pub clnt_call : CStr → List Obj → Obj
  unfolding call_message append_args
  clnt_call meth_name args = call_message meth_name (append_args typed_array args)

  error_text : Option Obj → Conv (Option CStr)
  error_text none = value none
  error_text (some message) = do m ← text message; value (some m)

  -- ucl_object_toint of NULL is 0.
  code_of : Option Obj → ℕ
  code_of none = 0
  code_of (some code) = toint code

  read_error : Obj → Conv (RpcError Obj)
  unfolding error_text code_of int_of_int64
  read_error error = do
    m ← error_text (lookup error (codes "message"))
    value (record {
      code = int_of_int64 (code_of (lookup error (codes "code")));
      message = m;
      error_data = lookup error (codes "data");
    })

  reply_parts : RpcError Obj → Option Obj → Option Obj → Conv (Option Obj × RpcError Obj)
  unfolding read_error
  reply_parts rerror (some error) result = do e ← read_error error; value (none, e)
  reply_parts rerror none result = value (result, rerror)

  -- From the text of the reply on. The result is NULL for an error and for a malformed reply; in the
  -- latter case the caller's error is left as it was. A parser error is printed and has no other
  -- effect; the lookups in a NULL object give NULL.
  unfoldable pub recv_reply : RpcError Obj → CStr → Conv (Option Obj × RpcError Obj)
  unfolding reply_parts
  recv_reply rerror reply = elim (parse_object reply) [
    | none ↦ value (none, rerror)
    | some obj ↦ reply_parts rerror (lookup obj (codes "error")) (lookup obj (codes "result"))
  ]
