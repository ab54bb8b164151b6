-- ===== src/Rpc/Server.antt =====
-- The server of usr/src/lib/s16/rpc/rpc.c: its methods, the dispatch of a message, and the replies.
-- `S` is the state that the methods change. Values are not counted or copied.
use e_com_init.Common.{
  ℕ, Bool, true, false, Option, none, some, List, CStr, codes, str_eq, ltb, ◌==◌, if◌then◌else◌,
}
use e_com_init.S16List.{list_add, list_find, list_it_val}
use e_com_init.Ucl.{LibUcl, UclType, ucl_object, int64_of_int}
use e_com_init.Common.Conv.{Conv, value, stopped, ◌>>=◌, asserted}

pub record RpcError (Obj : Type 0) : Type 0 where
  pub code : ℕ
  pub message : Option CStr
  pub error_data : Option Obj

-- What a method is told; the server's extra pointer is part of the state.
pub record RpcData : Type 0 where
  pub sock : ℕ
  pub method : CStr

-- S16ENOSUCHMETH
abbrev pub no_such_method : ℕ
no_such_method = 5000

abbrev is_object : UclType → Bool
is_object ucl_object = true
is_object _ = false

module _ ⦃u : LibUcl⦄ where
  open u use {
    Obj, type, typed_object, typed_null, fromstring, fromint, insert_key, lookup, tostring,
    array_size, array_find_index, parse_error, parse_object,
  }

  -- The result and the error that a method leaves, and the new state.
  abbrev pub Outcome : Type 0 → Type 0
  Outcome S = Option Obj × RpcError Obj × S

  -- A method function by its number of parameters.
  pub data RpcFun (S : Type 0) : Type 0 where
    fun0 : (RpcData → S → Conv (Outcome S)) → RpcFun S
    fun1 : (RpcData → Obj → S → Conv (Outcome S)) → RpcFun S
    fun2 : (RpcData → Obj → Obj → S → Conv (Outcome S)) → RpcFun S
    fun3 : (RpcData → Obj → Obj → Obj → S → Conv (Outcome S)) → RpcFun S
    fun4 : (RpcData → Obj → Obj → Obj → Obj → S → Conv (Outcome S)) → RpcFun S

  pub record RpcMethod (S : Type 0) : Type 0 where
    pub name : CStr
    pub nparams : ℕ
    pub fun : RpcFun S

  unfoldable pub match_method : {S : Type 0} → RpcMethod S → CStr → Bool
  match_method meth txt = str_eq meth.name txt

  unfoldable pub make_error : RpcError Obj → Obj
  make_error e =
      let with_code = insert_key typed_object (fromint (int64_of_int e.code)) (codes "code") in
      let with_message : Obj = elim e.message [
        | none ↦ with_code
        | some m ↦ insert_key with_code (fromstring m) (codes "message")
      ] in
      insert_key with_message (elim e.error_data [ none ↦ typed_null | some d ↦ d ]) (codes "data")

  abbrev id_or_null : Option Obj → Obj
  id_or_null none = typed_null
  id_or_null (some id) = id

  -- The message that reply_error writes.
  unfoldable pub error_message : Option Obj → RpcError Obj → Obj
  unfolding make_error
  error_message id e =
      let msg = insert_key typed_object (fromstring (codes "2.0")) (codes "jsonrpc") in
      insert_key (insert_key msg (make_error e) (codes "error")) (id_or_null id) (codes "id")

  -- The message that reply_result writes. A NULL result is not inserted.
  unfoldable pub result_message : Option Obj → Option Obj → Obj
  result_message id result =
      let msg = insert_key typed_object (fromstring (codes "2.0")) (codes "jsonrpc") in
      let with_result : Obj = elim result [
        | none ↦ msg
        | some r ↦ insert_key msg r (codes "result")
      ] in
      insert_key with_result (id_or_null id) (codes "id")

  unfoldable pub no_error : RpcError Obj
  no_error = record { code = 0; message = none; error_data = none }

  failure : ℕ → CStr → RpcError Obj
  failure code txt = record { code = code; message = some txt; error_data = none }

  -- Param (i). A NULL is not followed further: the count has been compared with the array's.
  param : Option Obj → ℕ → Conv Obj
  param none i = stopped
  param (some params) i = asserted (array_find_index params i)

  -- The call through the pointer is cast by the number of parameters; a cast to another function type
  -- than the function's is undefined.
  call_method : {S : Type 0} → RpcData → RpcFun S → Option Obj → ℕ → S → Conv (Outcome S)
  unfolding param
  call_method dat (fun0 f) params n s = if n == 0 then f dat s else stopped
  call_method dat (fun1 f) params n s =
      if n == 1 then (param params 0 >>= λ a. f dat a s) else stopped
  call_method dat (fun2 f) params n s =
      if n == 2 then (param params 0 >>= λ a. param params 1 >>= λ b. f dat a b s) else stopped
  call_method dat (fun3 f) params n s =
      if n == 3
      then (param params 0 >>= λ a. param params 1 >>= λ b. param params 2 >>= λ c. f dat a b c s)
      else stopped
  call_method dat (fun4 f) params n s =
      if n == 4
      then (param params 0 >>= λ a.
          param params 1 >>= λ b. param params 2 >>= λ c. param params 3 >>= λ d. f dat a b c d s)
      else stopped

  -- The assert on a string literal does nothing: more than four parameters give NULL.
  unfoldable pub dispatch_method :
      {S : Type 0} → RpcData → RpcFun S → ℕ → Option Obj → S → Conv (Outcome S)
  unfolding call_method no_error
  dispatch_method dat fun nparams params s =
      if ltb 4 nparams then value (none, no_error, s) else call_method dat fun params nparams s

  -- What follows the call: an error is sent with its fields, and a result without one.
  unfoldable pub reply_outcome : {S : Type 0} → Option Obj → Outcome S → Conv (S × Option Obj)
  unfolding error_message result_message
  reply_outcome id (result, e, s) =
      if e.code == 0
      then elim e.message [
        | none ↦ elim e.error_data [
          | none ↦ value (s, some (result_message id result))
          | some d ↦ stopped
        ]
        | some m ↦ stopped
      ]
      else elim result [ none ↦ value (s, some (error_message id e)) | some r ↦ stopped ]

  unfoldable pub find_method : {S : Type 0} → List (RpcMethod S) → CStr → Option (RpcMethod S)
  unfolding list_find list_it_val match_method
  find_method meths txt = list_it_val meths (list_find meths (λ m. match_method m txt))

  unfoldable pub params_size : Option Obj → ℕ
  params_size none = 0
  params_size (some params) = array_size params

  -- From the method's name on.
  unfoldable pub handle_call :
      {S : Type 0}
      → List (RpcMethod S)
      → ℕ
      → CStr
      → Option Obj
      → Option Obj
      → S
      → Conv (S × Option Obj)
  unfolding find_method params_size dispatch_method reply_outcome error_message failure
  handle_call meths sock txt params id s = elim (find_method meths txt) [
    | none ↦
        value (
          s,
          some (error_message id (failure no_such_method (codes "Server cannot handle method"))),
        )
    | some cand ↦
        if params_size params == cand.nparams
        then (dispatch_method (record { sock = sock; method = cand.name }) cand.fun
              (params_size params) params s
            >>= reply_outcome id)
        else value (s, some (error_message id (failure 1 (codes "Incorrect parameter count"))))
  ]

  method_text : Option Obj → Option CStr
  method_text none = none
  method_text (some method) = tostring method

  handle_fields :
      {S : Type 0}
      → List (RpcMethod S)
      → ℕ
      → Option CStr
      → Option Obj
      → Option Obj
      → S
      → Conv (S × Option Obj)
  unfolding handle_call
  handle_fields meths sock none params id s =
      value (s, some (error_message id (failure 1 (codes "Missing or malformed method"))))
  handle_fields meths sock (some txt) params id s = handle_call meths sock txt params id s

  handle_object : {S : Type 0} → List (RpcMethod S) → ℕ → Obj → S → Conv (S × Option Obj)
  unfolding handle_fields method_text
  handle_object meths sock obj s =
      handle_fields meths sock (method_text (lookup obj (codes "method")))
        (lookup obj (codes "params")) (lookup obj (codes "id")) s

  unfoldable pub handle_parsed :
      {S : Type 0} → List (RpcMethod S) → ℕ → Option Obj → S → Conv (S × Option Obj)
  unfolding handle_object
  handle_parsed meths sock none s = value (s, none)
  handle_parsed meths sock (some obj) s =
      if is_object (type obj) then handle_object meths sock obj s else value (s, none)

  -- The state that a message leaves, and the object that is written in reply, if any.
  unfoldable pub handle_msg :
      {S : Type 0} → List (RpcMethod S) → ℕ → CStr → S → Conv (S × Option Obj)
  unfolding handle_parsed error_message failure
  handle_msg meths sock txt s =
      if parse_error txt
      then value (s, some (error_message none (failure 1 (codes "Error parsing JSON"))))
      else handle_parsed meths sock (parse_object txt) s

  unfoldable pub register_method :
      {S : Type 0} → List (RpcMethod S) → CStr → ℕ → RpcFun S → List (RpcMethod S)
  unfolding list_add
  register_method meths name nparams fun =
      list_add meths (record { name = name; nparams = nparams; fun = fun })
