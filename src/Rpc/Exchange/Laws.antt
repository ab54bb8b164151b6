-- ===== src/Rpc/Exchange/Laws.antt =====
-- Calls from end to end.
use e_com_init.Common.{
  ℕ, ◌+◌, ◌≤◌, ◌≡◌, refl, ◌∙◌, none, some, List, [], ◌∷◌, CStr, codes, length, arith,
}
use e_com_init.Ucl.{LibUcl, IsVerbatim}
use e_com_init.Common.Conv.{Conv, value}
use e_com_init.Rpc.Wire.{max_len_msg}
use e_com_init.Rpc.Server.{
  RpcError, RpcData, no_such_method, no_error, Outcome, fun0, fun1, fun2, RpcMethod, error_message,
  result_message, reply_outcome, find_method, handle_call,
}
use e_com_init.Rpc.Client.{clnt_call}
use e_com_init.Rpc.Exchange.{reply_text, receive, exchange}
use e_com_init.Rpc.Calls.{
  IsCarried, params_of, error_of, handle_msg-clnt_call, handle_call-unknown, handle_call-fun0,
  handle_call-fun1, handle_call-fun2, recv_reply-result_message, recv_reply-error_message,
}

unknown_text-IsVerbatim : IsVerbatim (codes "Server cannot handle method")
unknown_text-IsVerbatim = ground arith

module _ ⦃u : LibUcl⦄ where
  open u use {Obj, emit, typed_null}

  -- A message that the client takes: it is parsed to the object and is not too long.
  abbrev pub IsReceived : Obj → Type 0
  IsReceived m = IsCarried m × (length (emit m) + 1 ≤ max_len_msg)

  reply_text-short : (m : Obj) → length (emit m) + 1 ≤ max_len_msg → reply_text m ≡ emit m
  unfolding reply_text
  reply_text-short m h = ground arith

  abbrev pub unknown_method : RpcError Obj
  unknown_method = error_of no_such_method (codes "Server cannot handle method")

  module _ {S : Type 0} (meths : List (RpcMethod S)) (sock : ℕ) (rerror : RpcError Obj)
      (name : CStr) (plain : IsVerbatim name) where
    -- A call whose procedure gives a result.
    exchange-answer :
        (args : List Obj) (s s' : S) (r : Obj)
        → IsCarried (clnt_call name args)
        → IsReceived (result_message none (some r))
        → handle_call meths sock name (some (params_of args)) none s
          ≡ value (s', some (result_message none (some r)))
        → exchange meths sock rerror name args s ≡ value (some r, rerror, s')
    unfolding exchange receive
    exchange-answer args s s' r sent answered h =
        rw
          (
            handle_msg-clnt_call meths sock name args s plain sent,
            h,
            reply_text-short _ answered.1,
            recv_reply-result_message rerror r answered.0,
          )
          refl

    answered_by :
        (r : Obj) (s' : S)
        → reply_outcome none (some r, no_error, s')
          ≡ value (s', some (result_message none (some r)))
    unfolding reply_outcome no_error
    answered_by r s' = refl

    pub exchange-fun0 :
        (f : RpcData → S → Conv (Outcome S)) (s s' : S) (r : Obj)
        → find_method meths name ≡ some (record { name = name; nparams = 0; fun = fun0 f })
        → f (record { sock = sock; method = name }) s ≡ value (some r, no_error, s')
        → IsCarried (clnt_call name [])
        → IsReceived (result_message none (some r))
        → exchange meths sock rerror name [] s ≡ value (some r, rerror, s')
    exchange-fun0 f s s' r found result sent answered =
        exchange-answer [] s s' r sent answered
          (handle_call-fun0 meths sock name none s f found ∙ rw result (answered_by r s'))

    pub exchange-fun1 :
        (f : RpcData → Obj → S → Conv (Outcome S)) (arg : Obj) (s s' : S) (r : Obj)
        → find_method meths name ≡ some (record { name = name; nparams = 1; fun = fun1 f })
        → f (record { sock = sock; method = name }) arg s ≡ value (some r, no_error, s')
        → IsCarried (clnt_call name (arg ∷ []))
        → IsReceived (result_message none (some r))
        → exchange meths sock rerror name (arg ∷ []) s ≡ value (some r, rerror, s')
    exchange-fun1 f arg s s' r found result sent answered =
        exchange-answer (arg ∷ []) s s' r sent answered
          (handle_call-fun1 meths sock name arg none s f found ∙ rw result (answered_by r s'))

    pub exchange-fun2 :
        (f : RpcData → Obj → Obj → S → Conv (Outcome S)) (a b : Obj) (s s' : S) (r : Obj)
        → find_method meths name ≡ some (record { name = name; nparams = 2; fun = fun2 f })
        → f (record { sock = sock; method = name }) a b s ≡ value (some r, no_error, s')
        → IsCarried (clnt_call name (a ∷ b ∷ []))
        → IsReceived (result_message none (some r))
        → exchange meths sock rerror name (a ∷ b ∷ []) s ≡ value (some r, rerror, s')
    exchange-fun2 f a b s s' r found result sent answered =
        exchange-answer (a ∷ b ∷ []) s s' r sent answered
          (handle_call-fun2 meths sock name a b none s f found ∙ rw result (answered_by r s'))

    -- A call of a method that the server does not have: the client gets the error S16ENOSUCHMETH and
    -- no result, and the server's state is as it was.
    pub exchange-unknown :
        (args : List Obj) (s : S)
        → find_method meths name ≡ none
        → IsCarried (clnt_call name args)
        → IsReceived (error_message none unknown_method)
        → exchange meths sock rerror name args s
          ≡ value (none, record unknown_method { error_data = some typed_null }, s)
    unfolding exchange receive
    exchange-unknown args s missing sent answered =
        rw
          (
            handle_msg-clnt_call meths sock name args s plain sent,
            handle_call-unknown meths sock name (some (params_of args)) none s missing,
            reply_text-short _ answered.1,
            recv_reply-error_message rerror no_such_method (codes "Server cannot handle method")
                (omega arith) unknown_text-IsVerbatim answered.0,
          )
          refl
