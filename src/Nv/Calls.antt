-- ===== src/Nv/Calls.antt =====
-- The server and the client of usr/src/lib/s16/newrpc/clnt.c. `S` is the state that the methods change.
-- An int and an enum are 32-bit patterns; a number of libnv has 64 bits.
use e_com_init.Common.{
  ℕ, zero, suc, ◌-◌, ◌^◌, Bool, true, false, Option, none, some, List, [], ◌∷◌, CStr, codes, str_eq,
  length, ltb, ◌==◌, if◌then◌else◌, ◌||◌,
}
use e_com_init.Common.Conv.{Conv, value, null, stopped, not_in_enum, ◌>>=◌, needed, asserted}
use e_com_init.S16List.{list_add, list_find, list_it_val}
use e_com_init.Ucl.{int64_of_int, int_of_int64}
use e_com_init.Nv.{LibNv, NvValue, nv_string, nv_number, nv_nvlist, nv_binary}
use e_com_init.Nv.Types.{
  NvType, NvFields, no_fields, field, CVal, CVals, c_word, c_list, no_vals, vals, c_string,
  c_nvlist, c_struct, fields_count,
}
use e_com_init.Nv.Struct.{serialise, struct_serialise, member_deserialise, arguments_deserialise}
pub mod Laws

pub record NvSignature : Type 0 where
  pub name : CStr
  pub rtype : NvType
  pub nargs : ℕ
  pub args : NvFields

pub record NvError : Type 0 where
  pub code : ℕ
  pub message : Option CStr
  pub aux : Option CStr

-- kS16NVRPCErrorInvalidRequest, -32600
abbrev pub invalid_request : ℕ
invalid_request = 2 ^ 32 - 32600

module _ ⦃v : LibNv⦄ where
  open v use {Nv, create, add, find}

  -- What a method returns, NULL or a pointer or word, with the error of its context.
  abbrev pub NvOutcome : Type 0 → Type 0
  NvOutcome S = Option (CVal Nv) × NvError × S

  pub record NvMethod (S : Type 0) : Type 0 where
    pub sig : NvSignature
    pub fun : CVals Nv → S → Conv (NvOutcome S)

  unfoldable pub find_meth : {S : Type 0} → List (NvMethod S) → CStr → Option (NvMethod S)
  unfolding list_find list_it_val
  find_meth meths name = list_it_val meths (list_find meths (λ m. str_eq m.sig.name name))

  unfoldable pub register_meth :
      {S : Type 0}
      → List (NvMethod S)
      → NvSignature
      → (CVals Nv → S → Conv (NvOutcome S))
      → List (NvMethod S)
  unfolding list_add
  register_meth meths sig fun = list_add meths (record { sig = sig; fun = fun })

  -- The context before the call.
  abbrev pub no_nv_error : NvError
  no_nv_error = record { code = 0; message = none; aux = none }

  -- A request without params is a NULL list, which libnv aborts on; a method without arguments reads none.
  unfoldable pub arguments_of : NvFields → ℕ → Option Nv → Conv (CVals Nv)
  unfolding arguments_deserialise
  arguments_of args nargs (some nvparams) = arguments_deserialise args nargs nvparams
  arguments_of no_fields nargs none = value no_vals
  arguments_of (field name t args) nargs none = stopped

  -- Arguments that are not there and too many parameters give NULL, without an error.
  -- With fewer named parameters than nargs the method would be given words that were not written.
  unfoldable pub dispatch_converted : {S : Type 0} → NvMethod S → Option Nv → S → Conv (NvOutcome S)
  unfolding arguments_of
  dispatch_converted meth nvparams s = elim (arguments_of meth.sig.args meth.sig.nargs nvparams) [
    | null ↦ value (none, no_nv_error, s)
    | value params ↦
        if ltb 5 meth.sig.nargs
        then value (none, no_nv_error, s)
        else if ltb (fields_count meth.sig.args) meth.sig.nargs
        then stopped
        else meth.fun params s
    | stopped ↦ stopped
    | not_in_enum ↦ not_in_enum
  ]

  add_aux : Option CStr → Nv → Nv
  add_aux none nverr = nverr
  add_aux (some aux) nverr = add nverr (codes "data") (nv_binary aux)

  -- A NULL message makes the list erroneous, which is asserted against. The length is not written.
  unfoldable pub create_error : NvError → Conv Nv
  unfolding int64_of_int add_aux
  create_error e = do
    message ← asserted e.message
    let nverr = add create (codes "code") (nv_number (int64_of_int e.code))
    value (add_aux e.aux (add nverr (codes "message") (nv_string message)))

  -- The test `if (result)`: a word 0 and an empty list are NULL as well.
  unfoldable pub not_null : Option (CVal Nv) → Option (CVal Nv)
  not_null (some (c_word zero)) = none
  not_null (some (c_list no_vals)) = none
  not_null result = result

  -- "result" or "error"; a NULL error makes the response erroneous, which is asserted against.
  unfoldable pub add_result : Nv → Option (CVal Nv) → NvType → Option Nv → Conv Nv
  unfolding serialise
  add_result response (some result) rtype error = serialise result rtype response (codes "result")
  add_result response none rtype (some error) =
      value (add response (codes "error") (nv_nvlist error))
  add_result response none rtype none = stopped

  unfoldable pub create_response : NvType → Option (CVal Nv) → Option Nv → ℕ → Conv Nv
  unfolding not_null add_result int64_of_int
  create_response rtype result error id = do
    response ←
        add_result (add create (codes "nvrpc") (nv_string (codes "0.9"))) (not_null result) rtype
          error
    value (add response (codes "id") (nv_number (int64_of_int id)))

  -- A value of the kind asked for, if the list has one under the name.
  abbrev number_of : Option (NvValue Nv) → Option ℕ
  number_of (some (nv_number n)) = some n
  number_of _ = none

  abbrev string_of : Option (NvValue Nv) → Option CStr
  string_of (some (nv_string s)) = some s
  string_of _ = none

  abbrev nvlist_of : Option (NvValue Nv) → Option Nv
  nvlist_of (some (nv_nvlist n)) = some n
  nvlist_of _ = none

  -- dnvlist_get_number (req, "id", 0)
  abbrev id_of : Option ℕ → ℕ
  id_of none = 0
  id_of (some n) = int_of_int64 n

  -- A notification, whose id is 0, has no response.
  unfoldable pub refuse : {S : Type 0} → ℕ → CStr → S → NvType → Conv (Option Nv × S)
  refuse id txt s rtype =
      if id == 0
      then value (none, s)
      else (create_error (record { code = invalid_request; message = some txt; aux = none })
          >>= λ nverr.
              create_response rtype none (some nverr) id >>= λ response. value (some response, s))

  error_of_call : NvError → Conv (Option Nv)
  error_of_call e =
      if e.code == 0 then value none else (create_error e >>= λ nverr. value (some nverr))

  unfoldable pub respond : {S : Type 0} → ℕ → NvType → NvOutcome S → Conv (Option Nv × S)
  unfolding error_of_call
  respond id rtype (result, e, s) =
      if id == 0
      then value (none, s)
      else (error_of_call e >>= λ nverr.
          create_response rtype result nverr id >>= λ response. value (some response, s))

  -- From the method on. A refused request has no result, so its type is not read.
  unfoldable pub handle_found :
      {S : Type 0} → ℕ → Option (NvMethod S) → Option Nv → S → NvType → Conv (Option Nv × S)
  unfolding refuse respond dispatch_converted
  handle_found id none params s any = refuse id (codes "Method not found") s any
  handle_found id (some meth) params s any =
      dispatch_converted meth params s >>= respond id meth.sig.rtype

  handle_named :
      {S : Type 0}
      → List (NvMethod S)
      → ℕ
      → Option CStr
      → Option Nv
      → S
      → NvType
      → Conv (Option Nv × S)
  unfolding handle_found refuse find_meth
  handle_named meths id none params s any = refuse id (codes "Missing method name") s any
  handle_named meths id (some name) params s any =
      handle_found id (find_meth meths name) params s any

  handle_versioned :
      {S : Type 0}
      → List (NvMethod S)
      → ℕ
      → Option CStr
      → Option CStr
      → Option Nv
      → S
      → NvType
      → Conv (Option Nv × S)
  unfolding handle_named refuse
  handle_versioned meths id none name params s any = refuse id (codes "Missing nvrpc field") s any
  handle_versioned meths id (some version) name params s any =
      handle_named meths id name params s any

  -- `any` stands for the NULL type of a refused request.
  unfoldable pub handle_request :
      {S : Type 0} → NvType → List (NvMethod S) → Nv → S → Conv (Option Nv × S)
  unfolding handle_versioned int_of_int64
  handle_request any meths req s =
      handle_versioned meths (id_of (number_of (find req (codes "id"))))
        (string_of (find req (codes "nvrpc"))) (string_of (find req (codes "method")))
        (nvlist_of (find req (codes "params"))) s any

  -- The message of clientCallInternal; `id` is what rand gave.
  unfoldable pub call_request : CStr → Nv → ℕ → Nv
  unfolding int64_of_int
  call_request name params id =
      let message = add create (codes "nvrpc") (nv_string (codes "0.9")) in
      let named = add message (codes "method") (nv_string name) in
      add (add named (codes "params") (nv_nvlist params)) (codes "id") (nv_number (int64_of_int id))

  aux_of : Option (NvValue Nv) → Option (NvValue Nv) → Conv (Option CStr)
  aux_of (some (nv_number len)) (some (nv_binary aux)) =
      if length aux == len then value (some aux) else stopped
  aux_of (some (nv_number len)) _ = stopped
  aux_of _ aux = value none

  -- ProcessReply without a result.
  unfoldable pub read_nv_error : Nv → Conv NvError
  unfolding aux_of int_of_int64
  read_nv_error reply = do
    nverr ← asserted (nvlist_of (find reply (codes "error")))
    code ← asserted (number_of (find nverr (codes "code")))
    message ← asserted (string_of (find nverr (codes "message")))
    aux ← aux_of (find nverr (codes "data_len")) (find nverr (codes "data"))
    value (record { code = int_of_int64 code; message = some message; aux = aux })

  -- What the caller has: an error, or the result. A result that cannot be read is none: the caller's
  -- variable is not written, or has the elements of a list up to the one that fails. A result is
  -- dangling where it holds a nested list of the reply, which is destroyed with the reply.
  pub data NvResult : Type 0 where
    nv_failed : NvError → NvResult
    nv_done : Option (CVal Nv) → NvResult
    nv_dangling : NvResult

  -- nvlist_get_nvlist lends the list; what the other kinds read is taken or copied.
  unfoldable mutual
    pub lends : CVal Nv → Bool
    lends (c_nvlist m) = true
    lends (c_struct vs) = lends_any vs
    lends (c_list vs) = lends_any vs
    lends (c_string s) = false
    lends (c_word n) = false

    pub lends_any : CVals Nv → Bool
    lends_any no_vals = false
    lends_any (vals x vs) = lends x || lends_any vs

  unwritten : Conv (CVal Nv) → Conv NvResult
  unfolding lends
  unwritten (value x) = value (if lends x then nv_dangling else nv_done (some x))
  unwritten null = value (nv_done none)
  unwritten stopped = stopped
  unwritten not_in_enum = not_in_enum

  process_result : Option (NvValue Nv) → Nv → NvType → Conv NvResult
  unfolding unwritten read_nv_error member_deserialise
  process_result none reply rtype = do e ← read_nv_error reply; value (nv_failed e)
  process_result (some x) reply rtype = unwritten (member_deserialise rtype reply (codes "result"))

  unfoldable pub process_reply : Nv → NvType → Conv NvResult
  unfolding process_result
  process_reply reply rtype = do
    version ← asserted (string_of (find reply (codes "nvrpc")))
    id ← asserted (number_of (find reply (codes "id")))
    process_result (find reply (codes "result")) reply rtype

  -- The server sends the response; there is none for a notification, and sending NULL fails, which
  -- is asserted against.
  answered : {S : Type 0} → NvType → Option Nv × S → Conv (NvResult × S)
  unfolding process_reply
  answered rtype (none, s) = stopped
  answered rtype (some response, s) = do result ← process_reply response rtype; value (result, s)

  -- S16NVRPCClientCallInternal to a server on the other end of the socket.
  unfoldable pub nv_call :
      {S : Type 0}
      → NvType
      → List (NvMethod S)
      → NvSignature
      → CVals Nv
      → ℕ
      → S
      → Conv (NvResult × S)
  unfolding struct_serialise call_request handle_request answered
  nv_call any meths sig args id s = do
    params ← struct_serialise args sig.args create
    reply ← handle_request any meths (call_request sig.name params id) s
    answered sig.rtype reply
