-- ===== src/Rpc/Calls.antt =====
-- What a call through the client and the server of usr/src/lib/s16/rpc/rpc.c gives.
use e_com_init.Common.{
  ℕ, ◌<◌, ◌^◌, ◌≡◌, refl, ap, ◌∙◌, false, Option, none, some, List, [], ◌∷◌, ◌++◌, CStr, codes,
  str_eq, length, nth, append_assoc, append-nil,
}
use e_com_init.Ucl.{
  LibUcl, IsVerbatim, ucl_array, int64_of_int, int64_of_int-lt, int_of_int64-int64_of_int,
}
use e_com_init.Ucl.Fields.{no_fields, typed_object-HasFields, insert_key-HasFields}
use e_com_init.Common.Conv.{Conv, value, ◌>>=◌}
use e_com_init.Rpc.Server.{
  RpcError, RpcData, no_such_method, Outcome, fun0, fun1, fun2, RpcMethod, make_error,
  error_message, result_message, dispatch_method, reply_outcome, find_method, params_size,
  handle_call, handle_parsed, handle_msg,
}
use e_com_init.Rpc.Client.{call_message, append_args, clnt_call, recv_reply}

module _ ⦃u : LibUcl⦄ where
  open u use {
    Obj, type, typed_object, typed_array, typed_null, fromstring, fromint, insert_key, array_append,
    lookup, items, tostring, toint, array_size, array_find_index, emit, parse_error, parse_object,
    type-typed_array, type-array_append, items-typed_array, items-array_append,
    array_size-eq-length, array_find_index-eq-nth, tostring-fromstring, toint-fromint,
  }

  -- The text of an object is parsed to the object.
  abbrev pub IsCarried : Obj → Type 0
  IsCarried m = (parse_error (emit m) ≡ false) × (parse_object (emit m) ≡ some m)

  append_args-items :
      (arr : Obj) (args : List Obj)
      → type arr ≡ ucl_array
      → (type (append_args arr args) ≡ ucl_array)
        × (items (append_args arr args) ≡ items arr ++ args)
  unfolding append_args
  append_args-items arr [] t = (t, rw append-nil refl)
  append_args-items arr (arg ∷ args) t =
      let (t', all) =
        append_args-items (array_append arr arg) args (type-array_append arr arg ∙ t) in
      (t', all ∙ rw (items-array_append arr arg t, append_assoc) refl)

  abbrev pub params_of : List Obj → Obj
  params_of args = append_args typed_array args

  params_of-items : (args : List Obj) → items (params_of args) ≡ args
  params_of-items args =
      (append_args-items typed_array args type-typed_array).1 ∙ rw items-typed_array refl

  params_of-size : (args : List Obj) → params_size (some (params_of args)) ≡ length args
  unfolding params_size
  params_of-size args =
      array_size-eq-length _ (append_args-items typed_array args type-typed_array).0
      ∙ ap length (params_of-items args)

  pub params_of-nth : (args : List Obj) (i : ℕ) → array_find_index (params_of args) i ≡ nth args i
  params_of-nth args i =
      array_find_index-eq-nth _ i (append_args-items typed_array args type-typed_array).0
      ∙ ap (λ xs. nth xs i) (params_of-items args)

  -- The server reads a call as the client made it.
  pub handle_msg-clnt_call :
      {S : Type 0} (meths : List (RpcMethod S)) (sock : ℕ) (name : CStr) (args : List Obj) (s : S)
      → IsVerbatim name
      → IsCarried (clnt_call name args)
      → handle_msg meths sock (emit (clnt_call name args)) s
        ≡ handle_call meths sock name (some (params_of args)) none s
  unfolding handle_msg handle_parsed clnt_call call_message str_eq
  handle_msg-clnt_call meths sock name args s plain (no_error, parsed) =
      let params = params_of args in
      let version = fromstring (codes "2.0") in
      let meth = fromstring name in
      let o1 = insert_key typed_object version (codes "jsonrpc") in
      let o2 = insert_key o1 meth (codes "method") in
      let obj = clnt_call name args in
      let h1 =
        insert_key-HasFields typed_object version (codes "jsonrpc") no_fields typed_object-HasFields
          refl in
      let h2 = insert_key-HasFields o1 meth (codes "method") _ h1 refl in
      let h3 = insert_key-HasFields o2 params (codes "params") _ h2 refl in
      let f1 : lookup obj (codes "method") ≡ some meth = h3.1 (codes "method") in
      let f2 : lookup obj (codes "params") ≡ some params = h3.1 (codes "params") in
      let f3 : lookup obj (codes "id") ≡ none = h3.1 (codes "id") in
      rw (no_error, parsed, handle_parsed, h3.0, f1, f2, f3, tostring-fromstring name plain) refl

  -- The client reads the result that the server sent.
  pub recv_reply-result_message :
      (rerror : RpcError Obj) (r : Obj)
      → IsCarried (result_message none (some r))
      → recv_reply rerror (emit (result_message none (some r))) ≡ value (some r, rerror)
  unfolding recv_reply result_message str_eq
  recv_reply-result_message rerror r (no_error, parsed) =
      let version = fromstring (codes "2.0") in
      let o1 = insert_key typed_object version (codes "jsonrpc") in
      let o2 = insert_key o1 r (codes "result") in
      let obj = result_message none (some r) in
      let h1 =
        insert_key-HasFields typed_object version (codes "jsonrpc") no_fields typed_object-HasFields
          refl in
      let h2 = insert_key-HasFields o1 r (codes "result") _ h1 refl in
      let h3 = insert_key-HasFields o2 typed_null (codes "id") _ h2 refl in
      let f1 : lookup obj (codes "result") ≡ some r = h3.1 (codes "result") in
      let f2 : lookup obj (codes "error") ≡ none = h3.1 (codes "error") in
      rw (recv_reply, parsed, f1, f2) refl

  abbrev pub error_of : ℕ → CStr → RpcError Obj
  error_of code txt = record { code = code; message = some txt; error_data = none }

  -- The error that the client has from one that the server sent without data.
  pub recv_reply-error_message :
      (rerror : RpcError Obj) (code : ℕ) (txt : CStr)
      → code < 2 ^ 32
      → IsVerbatim txt
      → IsCarried (error_message none (error_of code txt))
      → recv_reply rerror (emit (error_message none (error_of code txt)))
        ≡ value (none, record { code = code; message = some txt; error_data = some typed_null })
  unfolding recv_reply error_message make_error str_eq
  recv_reply-error_message rerror code txt small plain (no_error, parsed) =
      let version = fromstring (codes "2.0") in
      let ucode = fromint (int64_of_int code) in
      let e1 = insert_key typed_object ucode (codes "code") in
      let e2 = insert_key e1 (fromstring txt) (codes "message") in
      let uerr = make_error (error_of code txt) in
      let o1 = insert_key typed_object version (codes "jsonrpc") in
      let o2 = insert_key o1 uerr (codes "error") in
      let obj = error_message none (error_of code txt) in
      let h1 =
        insert_key-HasFields typed_object version (codes "jsonrpc") no_fields typed_object-HasFields
          refl in
      let h2 = insert_key-HasFields o1 uerr (codes "error") _ h1 refl in
      let h3 = insert_key-HasFields o2 typed_null (codes "id") _ h2 refl in
      let k1 =
        insert_key-HasFields typed_object ucode (codes "code") no_fields typed_object-HasFields
          refl in
      let k2 = insert_key-HasFields e1 (fromstring txt) (codes "message") _ k1 refl in
      let k3 = insert_key-HasFields e2 typed_null (codes "data") _ k2 refl in
      let f1 : lookup obj (codes "error") ≡ some uerr = h3.1 (codes "error") in
      let g1 : lookup uerr (codes "code") ≡ some ucode = k3.1 (codes "code") in
      let g2 : lookup uerr (codes "message") ≡ some (fromstring txt) = k3.1 (codes "message") in
      let g3 : lookup uerr (codes "data") ≡ some typed_null = k3.1 (codes "data") in
      rw (recv_reply, parsed, f1, g1, g2, g3)
        (simp
          (
            tostring-fromstring txt plain,
            toint-fromint _ (int64_of_int-lt code small),
            int_of_int64-int64_of_int code small,
          )
          refl)

  -- A method that is not registered: the client has the error S16ENOSUCHMETH, and the state is as it
  -- was.
  pub handle_call-unknown :
      {S : Type 0} (meths : List (RpcMethod S)) (sock : ℕ) (name : CStr) (params id : Option Obj)
      (s : S)
      → find_method meths name ≡ none
      → handle_call meths sock name params id s
        ≡ value (
          s,
          some (error_message id (error_of no_such_method (codes "Server cannot handle method"))),
        )
  unfolding handle_call
  handle_call-unknown meths sock name params id s e = rw (e, handle_call) refl

  -- A registered method of one parameter is called with it.
  pub handle_call-fun1 :
      {S : Type 0} (meths : List (RpcMethod S)) (sock : ℕ) (name : CStr) (arg : Obj)
      (id : Option Obj) (s : S) (f : RpcData → Obj → S → Conv (Outcome S))
      → find_method meths name ≡ some (record { name = name; nparams = 1; fun = fun1 f })
      → handle_call meths sock name (some (params_of (arg ∷ []))) id s
        ≡ (f (record { sock = sock; method = name }) arg s >>= reply_outcome id)
  unfolding handle_call dispatch_method
  handle_call-fun1 meths sock name arg id s f e =
      rw (e, handle_call) (simp (params_of-size, params_of-nth) refl)

  -- So is one of two parameters.
  pub handle_call-fun2 :
      {S : Type 0} (meths : List (RpcMethod S)) (sock : ℕ) (name : CStr) (a b : Obj)
      (id : Option Obj) (s : S) (f : RpcData → Obj → Obj → S → Conv (Outcome S))
      → find_method meths name ≡ some (record { name = name; nparams = 2; fun = fun2 f })
      → handle_call meths sock name (some (params_of (a ∷ b ∷ []))) id s
        ≡ (f (record { sock = sock; method = name }) a b s >>= reply_outcome id)
  unfolding handle_call dispatch_method
  handle_call-fun2 meths sock name a b id s f e =
      rw (e, handle_call) (simp (params_of-size, params_of-nth) refl)

  -- And one without parameters.
  pub handle_call-fun0 :
      {S : Type 0} (meths : List (RpcMethod S)) (sock : ℕ) (name : CStr) (id : Option Obj) (s : S)
      (f : RpcData → S → Conv (Outcome S))
      → find_method meths name ≡ some (record { name = name; nparams = 0; fun = fun0 f })
      → handle_call meths sock name (some (params_of [])) id s
        ≡ (f (record { sock = sock; method = name }) s >>= reply_outcome id)
  unfolding handle_call dispatch_method
  handle_call-fun0 meths sock name id s f e = rw (e, handle_call) (simp (params_of-size) refl)
