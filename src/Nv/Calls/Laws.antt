-- ===== src/Nv/Calls/Laws.antt =====
-- Calls from end to end over usr/src/lib/s16/newrpc/clnt.c.
use e_com_init.Common.{
  ℕ, ◌≤◌, ◌<◌, ◌^◌, ◌≡◌, ◌≢◌, refl, ap, ◌∙◌, false, Option, none, some, List, CStr, codes, str_eq,
  ltb, ◌==◌, if◌then◌else◌, arith,
}
use e_com_init.Common.Conv.{value, stopped, ◌>>=◌}
use e_com_init.Ucl.{int64_of_int, int_of_int64-int64_of_int}
use e_com_init.Nv.{LibNv, NvValue, nv_string, nv_number, nv_nvlist, nv_binary}
use e_com_init.Nv.Types.{NvType, CVal, CVals, fields_count}
use e_com_init.Nv.Struct.{arguments_deserialise}
use e_com_init.Nv.RoundTrip.{IsDistinct, AreMembers, IsValue, serialise-IsSent, arguments_sent}
use e_com_init.Nv.Calls.{
  NvSignature, NvError, invalid_request, NvMethod, find_meth, no_nv_error, arguments_of,
  dispatch_converted, create_error, not_null, add_result, create_response, refuse, respond,
  handle_found, handle_request, call_request, read_nv_error, NvResult, nv_failed, nv_done, lends,
  process_reply, nv_call, error_of_call, answered, add_aux,
}

module _ ⦃v : LibNv⦄ where
  open v use {Nv, create, add, find, find-create, find-add}

  abbrev HasEntries : Nv → (CStr → Option (NvValue Nv)) → Type 0
  HasEntries nvl f = (q : CStr) → find nvl q ≡ f q

  abbrev no_entries : CStr → Option (NvValue Nv)
  no_entries q = none

  abbrev add_entry : CStr → NvValue Nv → (CStr → Option (NvValue Nv)) → CStr → Option (NvValue Nv)
  add_entry k w f q = if str_eq k q then some w else f q

  add-HasEntries :
      (nvl : Nv) (k : CStr) (w : NvValue Nv) (f : CStr → Option (NvValue Nv))
      → HasEntries nvl f
      → f k ≡ none
      → HasEntries (add nvl k w) (add_entry k w f)
  add-HasEntries nvl k w f h free q =
      find-add nvl k w q (h k ∙ free) ∙ ap (λ t. if str_eq k q then some w else t) (h q)

  -- The server reads a request as the client made it.
  handle_request-call_request :
      {S : Type 0} (any : NvType) (meths : List (NvMethod S)) (name : CStr) (params : Nv) (id : ℕ)
      (s : S)
      → id < 2 ^ 32
      → handle_request any meths (call_request name params id) s
        ≡ handle_found id (find_meth meths name) (some params) s any
  unfolding handle_request call_request str_eq
  handle_request-call_request any meths name params id s small =
      let h1 =
        add-HasEntries create (codes "nvrpc") (nv_string (codes "0.9")) no_entries find-create
          refl in
      let h2 = add-HasEntries _ (codes "method") (nv_string name) _ h1 refl in
      let h3 = add-HasEntries _ (codes "params") (nv_nvlist params) _ h2 refl in
      let h4 = add-HasEntries _ (codes "id") (nv_number (int64_of_int id)) _ h3 refl in
      let f1 : find (call_request name params id) (codes "nvrpc") ≡ some (nv_string (codes "0.9")) =
        h4 (codes "nvrpc") in
      let f2 : find (call_request name params id) (codes "method") ≡ some (nv_string name) =
        h4 (codes "method") in
      let f3 : find (call_request name params id) (codes "params") ≡ some (nv_nvlist params) =
        h4 (codes "params") in
      let f4 : find (call_request name params id) (codes "id")
          ≡ some (nv_number (int64_of_int id)) =
        h4 (codes "id") in
      simp (f1, f2, f3, f4, int_of_int64-int64_of_int id small) refl

  -- A response with a result, and what the client reads from it.
  process_reply-result :
      (rtype : NvType) (r : CVal Nv) (error : Option Nv) (id : ℕ)
      → IsValue r rtype
      → not_null (some r) ≡ some r
      → lends r ≡ false
      → (response : Nv) × (create_response rtype (some r) error id ≡ value response)
        × (process_reply response rtype ≡ value (nv_done (some r)))
  unfolding create_response add_result process_reply str_eq
  process_reply-result rtype r error id plain pointer own =
      let (w, made, back) = serialise-IsSent r rtype plain in
      let versioned = add create (codes "nvrpc") (nv_string (codes "0.9")) in
      let with_result = add versioned (codes "result") w in
      let response = add with_result (codes "id") (nv_number (int64_of_int id)) in
      let h1 =
        add-HasEntries create (codes "nvrpc") (nv_string (codes "0.9")) no_entries find-create
          refl in
      let h2 = add-HasEntries versioned (codes "result") w _ h1 refl in
      let h3 = add-HasEntries with_result (codes "id") (nv_number (int64_of_int id)) _ h2 refl in
      let f1 : find response (codes "nvrpc") ≡ some (nv_string (codes "0.9")) =
        h3 (codes "nvrpc") in
      let f2 : find response (codes "id") ≡ some (nv_number (int64_of_int id)) = h3 (codes "id") in
      let f3 : find response (codes "result") ≡ some w = h3 (codes "result") in
      (
        response,
        rw (pointer, made) refl,
        simp (f1, f2, f3, back response (codes "result") f3, own) refl,
      )

  -- The error without its data.
  abbrev pub without_aux : NvError → CStr → NvError
  without_aux e m = record { code = e.code; message = some m; aux = none }

  find-add_aux :
      (aux : Option CStr) (nvl : Nv) (q : CStr)
      → find nvl (codes "data") ≡ none
      → str_eq (codes "data") q ≡ false
      → find (add_aux aux nvl) q ≡ find nvl q
  unfolding add_aux
  find-add_aux none nvl q free other = refl
  find-add_aux (some aux) nvl q free other =
      find-add nvl (codes "data") (nv_binary aux) q free ∙ rw other refl

  -- A response with an error, and what the client reads from it.
  process_reply-error :
      (rtype rtype' : NvType) (e : NvError) (m : CStr) (id : ℕ)
      → e.message ≡ some m
      → e.code < 2 ^ 32
      → (nverr response : Nv) × (create_error e ≡ value nverr)
        × (create_response rtype none (some nverr) id ≡ value response)
        × (process_reply response rtype' ≡ value (nv_failed (without_aux e m)))
  unfolding create_error create_response add_result not_null process_reply read_nv_error str_eq
  process_reply-error rtype rtype' e m id said small =
      let coded = add create (codes "code") (nv_number (int64_of_int e.code)) in
      let messaged = add coded (codes "message") (nv_string m) in
      let versioned = add create (codes "nvrpc") (nv_string (codes "0.9")) in
      let k1 =
        add-HasEntries create (codes "code") (nv_number (int64_of_int e.code)) no_entries
          find-create refl in
      let k2 = add-HasEntries coded (codes "message") (nv_string m) _ k1 refl in
      let h1 =
        add-HasEntries create (codes "nvrpc") (nv_string (codes "0.9")) no_entries find-create
          refl in
      let nverr = add_aux e.aux messaged in
      let with_error = add versioned (codes "error") (nv_nvlist nverr) in
      let response = add with_error (codes "id") (nv_number (int64_of_int id)) in
      let h2 = add-HasEntries versioned (codes "error") (nv_nvlist nverr) _ h1 refl in
      let h3 = add-HasEntries with_error (codes "id") (nv_number (int64_of_int id)) _ h2 refl in
      let f1 : find response (codes "nvrpc") ≡ some (nv_string (codes "0.9")) =
        h3 (codes "nvrpc") in
      let f2 : find response (codes "id") ≡ some (nv_number (int64_of_int id)) = h3 (codes "id") in
      let f3 : find response (codes "result") ≡ none = h3 (codes "result") in
      let f4 : find response (codes "error") ≡ some (nv_nvlist nverr) = h3 (codes "error") in
      let g1 : find nverr (codes "code") ≡ some (nv_number (int64_of_int e.code)) =
        find-add_aux e.aux messaged (codes "code") (k2 (codes "data")) refl ∙ k2 (codes "code") in
      let g2 : find nverr (codes "message") ≡ some (nv_string m) =
        find-add_aux e.aux messaged (codes "message") (k2 (codes "data")) refl
        ∙ k2 (codes "message") in
      let g3 : find nverr (codes "data_len") ≡ none =
        find-add_aux e.aux messaged (codes "data_len") (k2 (codes "data")) refl
        ∙ k2 (codes "data_len") in
      (
        nverr,
        response,
        rw said refl,
        refl,
        simp (f1, f2, f3, f4, g1, g2, g3, int_of_int64-int64_of_int e.code small) refl,
      )

  dispatch-value :
      {S : Type 0} (meth : NvMethod S) (args : CVals Nv) (m : Nv) (s : S)
      → meth.sig.nargs ≤ 5
      → fields_count meth.sig.args ≡ meth.sig.nargs
      → arguments_deserialise meth.sig.args meth.sig.nargs m ≡ value args
      → dispatch_converted meth (some m) s ≡ meth.fun args s
  unfolding dispatch_converted arguments_of
  dispatch-value meth args m s few whole back =
      let enough : ltb 5 meth.sig.nargs ≡ false = ground arith in
      let written : ltb (fields_count meth.sig.args) meth.sig.nargs ≡ false = ground arith in
      rw (back, dispatch_converted) (rw (enough, written) refl)

  -- A response with an error reaches the client, from the method on and from a refusal.
  respond-failed :
      {S : Type 0} (rtype rtype' : NvType) (id : ℕ) (e : NvError) (s' : S) (nverr response : Nv)
      (result : NvResult)
      → (id == 0) ≡ false
      → (e.code == 0) ≡ false
      → create_error e ≡ value nverr
      → create_response rtype none (some nverr) id ≡ value response
      → process_reply response rtype' ≡ value result
      → (respond id rtype (none, e, s') >>= answered rtype') ≡ value (result, s')
  unfolding respond error_of_call answered
  respond-failed rtype rtype' id e s' nverr response result asked failed made made' read =
      rw (asked, failed, made) (rw made' (rw read refl))

  refuse-failed :
      {S : Type 0} (rtype rtype' : NvType) (id : ℕ) (txt : CStr) (s : S) (nverr response : Nv)
      (result : NvResult)
      → (id == 0) ≡ false
      → create_error (record { code = invalid_request; message = some txt; aux = none })
        ≡ value nverr
      → create_response rtype none (some nverr) id ≡ value response
      → process_reply response rtype' ≡ value result
      → (refuse id txt s rtype >>= answered rtype') ≡ value (result, s)
  unfolding refuse answered
  refuse-failed rtype rtype' id txt s nverr response result asked made made' read =
      rw (asked, made) (rw made' (rw read refl))

  module _ {S : Type 0} (any : NvType) (meths : List (NvMethod S)) (meth : NvMethod S)
      (args : CVals Nv) (id : ℕ) (s : S) (found : find_meth meths meth.sig.name ≡ some meth)
      (few : meth.sig.nargs ≤ 5) (whole : fields_count meth.sig.args ≡ meth.sig.nargs)
      (distinct : IsDistinct meth.sig.args) (members : AreMembers args meth.sig.args)
      (call_id : id ≢ 0) (small : id < 2 ^ 32) where
    -- The call up to the method's return.
    nv_call-respond :
        nv_call any meths meth.sig args id s
        ≡ (meth.fun args s >>= respond id meth.sig.rtype >>= answered meth.sig.rtype)
    unfolding nv_call handle_found
    nv_call-respond =
        let (m, made, back) =
          arguments_sent args meth.sig.args meth.sig.nargs (omega (arith, whole)) distinct
            members in
        rw
          (
            made,
            handle_request-call_request any meths meth.sig.name m id s small,
            found,
            dispatch-value meth args m s few whole back,
          )
          refl

    -- A call of a registered method of at most five parameters, all of them named and with distinct
    -- names, with arguments of their types and an id that is not 0, gives the result that the method
    -- returns for the same arguments, and leaves the state that it leaves, if the result has the
    -- method's type, is not NULL and holds no nested list of the reply. A value of a type has a 0 or 1
    -- for a bool, distinct field names in each struct, no list that is not empty of strings, numbers,
    -- booleans or descriptors, and none of more than 10 ^ 7 elements.
    pub nv_call-result :
        (r : CVal Nv) (s' : S)
        → meth.fun args s ≡ value (some r, no_nv_error, s')
        → IsValue r meth.sig.rtype
        → not_null (some r) ≡ some r
        → lends r ≡ false
        → nv_call any meths meth.sig args id s ≡ value (nv_done (some r), s')
    unfolding respond error_of_call answered
    nv_call-result r s' returns plain pointer own =
        let (response, made, read) =
          process_reply-result meth.sig.rtype r none id plain pointer own in
        let asked : (id == 0) ≡ false = ground arith in
        nv_call-respond ∙ rw (returns, asked, made, read) refl

    -- The same call of a method that returns the word 0, an empty list or NULL and no error: an assert
    -- of the server fails.
    pub nv_call-null :
        (result : Option (CVal Nv)) (s' : S)
        → meth.fun args s ≡ value (result, no_nv_error, s')
        → not_null result ≡ none
        → nv_call any meths meth.sig args id s ≡ stopped
    unfolding respond error_of_call answered create_response add_result
    nv_call-null result s' returns is_null =
        let asked : (id == 0) ≡ false = ground arith in
        nv_call-respond ∙ rw (returns, asked, is_null) refl

    -- A call of a registered method of at most five parameters, all of them named and with distinct
    -- names, with arguments of their types and an id that is not 0, where the method returns NULL with
    -- an error that has a code other than 0 and a message: the client has the code and the message, and
    -- never the error's data, and the state is the one that the method leaves. An argument of a type
    -- has a 0 or 1 for a bool, distinct field names in each struct, no list that is not empty of
    -- strings, numbers, booleans or descriptors, and none of more than 10 ^ 7 elements.
    pub nv_call-error :
        (e : NvError) (m : CStr) (s' : S)
        → meth.fun args s ≡ value (none, e, s')
        → e.code ≢ 0
        → e.code < 2 ^ 32
        → e.message ≡ some m
        → nv_call any meths meth.sig args id s ≡ value (nv_failed (without_aux e m), s')
    nv_call-error e m s' returns coded short said =
        let (nverr, response, made, made', read) =
          process_reply-error meth.sig.rtype meth.sig.rtype e m id said short in
        nv_call-respond
        ∙ rw returns (
            respond-failed meth.sig.rtype meth.sig.rtype id e s' nverr response
              (nv_failed (without_aux e m)) (ground arith) (ground arith) made made' read)

  -- A call of a method that is not registered, with arguments of their types and an id that is not 0:
  -- the client has the code of an invalid request, and the state is as it was.
  pub nv_call-unknown :
      {S : Type 0} (any : NvType) (meths : List (NvMethod S)) (sig : NvSignature) (args : CVals Nv)
      (id : ℕ) (s : S)
      → find_meth meths sig.name ≡ none
      → IsDistinct sig.args
      → AreMembers args sig.args
      → id ≢ 0
      → id < 2 ^ 32
      → nv_call any meths sig args id s
        ≡ value (
          nv_failed (record {
            code = invalid_request;
            message = some (codes "Method not found");
            aux = none;
          }),
          s,
        )
  unfolding nv_call handle_found
  nv_call-unknown any meths sig args id s missing distinct members call_id small =
      let e : NvError = record {
        code = invalid_request;
        message = some (codes "Method not found");
        aux = none;
      } in
      let (m, made, back) =
        arguments_sent args sig.args (fields_count sig.args) (omega arith) distinct members in
      let (nverr, response, made1, made2, read) =
        process_reply-error any sig.rtype e (codes "Method not found") id refl (omega arith) in
      rw (made, handle_request-call_request any meths sig.name m id s small, missing)
        (refuse-failed any sig.rtype id (codes "Method not found") s nverr response (nv_failed e)
          (ground arith) made1 made2 read)
