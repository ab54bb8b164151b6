-- ===== src/Configd/Remote.antt =====
-- The remote calls of usr/src/lib/s16/db/rpc.c answered by the procedures of
-- usr/src/agent/configd/rpc.c.
use e_com_init.Common.{
  arith, ℕ, ◌<◌, ◌^◌, ◌≡◌, refl, Bool, true, none, some, [], ◌∷◌, ◌++◌, codes, str_eq, str_eq_refl,
  map, All,
}
use e_com_init.Common.Res.{ok}
use e_com_init.S16List.Laws.{list_add-eq-append}
use e_com_init.Service.Types.{S16Path, S16Service, S16ServiceInstance, S16ServiceState}
use e_com_init.Ucl.{LibUcl, int64_of_int}
use e_com_init.Ucl.Fields.{no_fields, typed_object-HasFields, insert_key-HasFields}
use e_com_init.Repository.Notes.{S16Note}
use e_com_init.Repository.Lookup.{svc_result, instance_result, service_at}
use e_com_init.Repository.Db.{Db, db_lookup_path_merged, db_set_enabled, db_get_all_svcs_merged}
use e_com_init.Common.Conv.{value, ◌>>=◌}
use e_com_init.Repository.Convert.{state_code}
use e_com_init.Repository.Convert.Write.{
  path_to_ucl, note_to_ucl, service_to_ucl, inst_to_ucl, append_each,
}
use e_com_init.Repository.Convert.Read.{ucl_to_svc}
use e_com_init.Repository.Convert.Parts.{IsPlainPath, ucl_to_path-path_to_ucl}
use e_com_init.Repository.Convert.Services.{
  IsPlainService, ucl_to_svc-service_to_ucl, stored_service, ucl_to_svcs-append_each,
}
use e_com_init.Repository.Convert.Instances.{IsPlainInstance, inst_as_svc, ucl_to_svc-inst_to_ucl}
use e_com_init.Repository.Convert.Notes.{int-roundtrip}
use e_com_init.Repository.Client.{
  found_svc, error_of_reply, remote_error, remote_call, s16db_enable, s16db_set_state,
  s16db_publish, s16db_subscribe, s16db_repo_get_all_services_merged, merged_result,
  s16db_repo_get_path_merged,
}
use e_com_init.Rpc.Server.{
  RpcError, RpcData, no_such_method, no_error, error_message, result_message,
}
use e_com_init.Rpc.Client.{clnt_call}
use e_com_init.Rpc.Exchange.{exchange}
use e_com_init.Rpc.Calls.{IsCarried}
use e_com_init.Rpc.Exchange.Laws.{
  IsReceived, exchange-fun0, exchange-fun1, unknown_method, exchange-unknown,
}
use e_com_init.Configd.Methods.{
  find-enable, find-get_all, find-get_path, find-subscribe, find-set_state, find-publish,
}
use e_com_init.Configd.Handlers.{
  Configd, answer, error_number, handle_disable, handle_get_all_services_merged, instance_at,
  svc_reply, instance_reply, path_reply, handle_get_path_merged, handle_subscribe, rpc_setup,
}

module _ ⦃u : LibUcl⦄ (junk : S16ServiceInstance → Bool) where
  open u use {
    Obj, fromstring, fromint, typed_object, typed_array, insert_key, lookup, toint, toint-fromint,
    tostring-fromstring,
  }

  handled_enable :
      (dat : RpcData) (p : S16Path) (s : Configd) (e : ℕ) (db' : Db)
      → IsPlainPath p
      → str_eq dat.method (codes "enable") ≡ true
      → db_set_enabled p true s.db ≡ ok (e, db')
      → handle_disable dat (path_to_ucl p) s
        ≡ value (some (error_number e), no_error, record s { db = db' })
  unfolding handle_disable path_to_ucl answer
  handled_enable dat p s e db' plain named done =
      rw (handle_disable, ucl_to_path-path_to_ucl p plain, named, done) refl

  -- s16db_enable of a path that is in full, without a colon in the service name and of printable ASCII
  -- without quotes and backslashes does remotely what db_set_enabled does: where the latter ends with
  -- a number and a database, the call returns that number and leaves that database, if the messages
  -- are parsed as they were emitted and the reply is not too long.
  pub s16db_enable-db_set_enabled :
      (sock : ℕ) (rerror : RpcError Obj) (p : S16Path) (s : Configd) (e : ℕ) (db' : Db)
      → IsPlainPath p
      → db_set_enabled p true s.db ≡ ok (e, db')
      → e < 2 ^ 32
      → IsCarried (clnt_call (codes "enable") (path_to_ucl p ∷ []))
      → IsReceived (result_message none (some (error_number e)))
      → s16db_enable (exchange (rpc_setup junk) sock rerror) p s ≡ value (e, record s { db = db' })
  unfolding s16db_enable remote_error error_of_reply error_number
  s16db_enable-db_set_enabled sock rerror p s e db' plain done small sent answered =
      let handled =
        handled_enable (record { sock = sock; method = codes "enable" }) p s e db' plain
          (str_eq_refl (codes "enable")) done in
      rw
        (exchange-fun1 (rpc_setup junk) sock rerror (codes "enable") (ground arith) handle_disable
          (path_to_ucl p) s (record s { db = db' }) (error_number e) (find-enable junk) handled sent
          answered)
        (rw (int-roundtrip e small) refl)

  merged_result-svc_reply :
      (uvalue : Obj) (svc : S16Service)
      → ucl_to_svc uvalue ≡ value svc
      → merged_result (svc_reply uvalue) ≡ value (found_svc (some svc))
  unfolding merged_result svc_reply str_eq
  merged_result-svc_reply uvalue svc back =
      let utype = fromstring (codes "svc") in
      let o1 = insert_key typed_object utype (codes "type") in
      let h1 =
        insert_key-HasFields typed_object utype (codes "type") no_fields typed_object-HasFields
          refl in
      let h2 = insert_key-HasFields o1 uvalue (codes "value") _ h1 refl in
      let f1 : lookup (svc_reply uvalue) (codes "type") ≡ some utype = h2.1 (codes "type") in
      let f2 : lookup (svc_reply uvalue) (codes "value") ≡ some uvalue = h2.1 (codes "value") in
      simp (f1, f2, tostring-fromstring (codes "svc") (ground arith), back) refl

  get_path_answered :
      (sock : ℕ) (rerror : RpcError Obj) (p : S16Path) (s : Configd) (uvalue : Obj)
      (svc : S16Service)
      → IsPlainPath p
      → path_reply s.db (db_lookup_path_merged s.db p) ≡ value (svc_reply uvalue)
      → ucl_to_svc uvalue ≡ value svc
      → IsCarried (clnt_call (codes "get-path-merged") (path_to_ucl p ∷ []))
      → IsReceived (result_message none (some (svc_reply uvalue)))
      → s16db_repo_get_path_merged (exchange (rpc_setup junk) sock rerror) p s
        ≡ value (found_svc (some svc), s)
  unfolding s16db_repo_get_path_merged
  get_path_answered sock rerror p s uvalue svc plain replied back sent answered =
      rw
        (exchange-fun1 (rpc_setup junk) sock rerror (codes "get-path-merged") (ground arith)
          handle_get_path_merged (path_to_ucl p) s s (svc_reply uvalue) (find-get_path junk) handled
          sent answered)
        (rw (merged_result-svc_reply uvalue svc back) refl)
    where
      handled :
          handle_get_path_merged
            (record { sock = sock; method = codes "get-path-merged" })
            (path_to_ucl p)
            s
          ≡ value (some (svc_reply uvalue), no_error, s)
      handled =
          unfold handle_get_path_merged path_to_ucl answer in
          rw (ucl_to_path-path_to_ucl p plain, replied) refl

  from_object :
      (svc stored : S16Service) (o : Obj)
      → service_to_ucl svc ≡ value o
      → (service_to_ucl svc >>= ucl_to_svc) ≡ value stored
      → ucl_to_svc o ≡ value stored
  from_object svc stored o made back = rw made at back

  -- s16db_repo_get_path_merged of a path to a service gives the service of the manifest layer, not of
  -- the merged scope, as far as its object keeps it, if service and path are plain: paths in full and
  -- without a colon in the service name, texts of printable ASCII without quotes and backslashes,
  -- string values and no group that restarts on any event; if the messages are parsed as they were
  -- emitted and the reply is not too long.
  pub s16db_repo_get_path_merged-service :
      (sock : ℕ) (rerror : RpcError Obj) (p : S16Path) (s : Configd) (i : ℕ) (usvc : Obj)
      → IsPlainPath p
      → db_lookup_path_merged s.db p ≡ svc_result (some i)
      → IsPlainService (service_at s.db.manifest i)
      → service_to_ucl (service_at s.db.manifest i) ≡ value usvc
      → IsCarried (clnt_call (codes "get-path-merged") (path_to_ucl p ∷ []))
      → IsReceived (result_message none (some (svc_reply usvc)))
      → s16db_repo_get_path_merged (exchange (rpc_setup junk) sock rerror) p s
        ≡ value (found_svc (some (stored_service (service_at s.db.manifest i))), s)
  s16db_repo_get_path_merged-service sock rerror p s i usvc plain found plain_svc made sent
        answered =
      get_path_answered sock rerror p s usvc _ plain replied
        (from_object _ _ usvc made (ucl_to_svc-service_to_ucl _ plain_svc)) sent answered
    where
      replied : path_reply s.db (db_lookup_path_merged s.db p) ≡ value (svc_reply usvc)
      replied = unfold path_reply in rw (found, made) refl

  -- The same of a path to an instance: the reply has the type of a service, so the caller gets a
  -- service that has the path of the instance.
  pub s16db_repo_get_path_merged-instance :
      (sock : ℕ) (rerror : RpcError Obj) (p : S16Path) (s : Configd) (si ii : ℕ)
      (inst : S16ServiceInstance) (uinst : Obj)
      → IsPlainPath p
      → db_lookup_path_merged s.db p ≡ instance_result (some (si, ii))
      → instance_at s.db.manifest si ii ≡ some inst
      → IsPlainInstance inst
      → inst_to_ucl inst ≡ value uinst
      → IsCarried (clnt_call (codes "get-path-merged") (path_to_ucl p ∷ []))
      → IsReceived (result_message none (some (svc_reply uinst)))
      → s16db_repo_get_path_merged (exchange (rpc_setup junk) sock rerror) p s
        ≡ value (found_svc (some (inst_as_svc inst)), s)
  s16db_repo_get_path_merged-instance sock rerror p s si ii inst uinst plain found at_place
        plain_inst made sent answered =
      get_path_answered sock rerror p s uinst _ plain replied
        (rw made at (ucl_to_svc-inst_to_ucl inst plain_inst)) sent answered
    where
      replied : path_reply s.db (db_lookup_path_merged s.db p) ≡ value (svc_reply uinst)
      replied = unfold path_reply instance_reply in rw (found, at_place, made) refl

  -- s16db_repo_get_all_services_merged gives the merged scope, each service as far as its object
  -- keeps it, if the services are plain, with texts of printable ASCII without quotes and
  -- backslashes, the messages are parsed as they were emitted and the reply is not too long.
  pub s16db_repo_get_all_services_merged-merged :
      (sock : ℕ) (rerror : RpcError Obj) (s : Configd) (usvcs : Obj)
      → All IsPlainService s.db.merged
      → append_each service_to_ucl typed_array s.db.merged ≡ value usvcs
      → IsCarried (clnt_call (codes "get-all-services-merged") [])
      → IsReceived (result_message none (some usvcs))
      → s16db_repo_get_all_services_merged (exchange (rpc_setup junk) sock rerror) s
        ≡ value (some (map stored_service s.db.merged), s)
  unfolding s16db_repo_get_all_services_merged
  s16db_repo_get_all_services_merged-merged sock rerror s usvcs plain made sent answered =
      rw
        (exchange-fun0 (rpc_setup junk) sock rerror (codes "get-all-services-merged") (ground arith)
          handle_get_all_services_merged s s usvcs (find-get_all junk) handled sent answered)
        (rw (rw made at (ucl_to_svcs-append_each s.db.merged plain)) refl)
    where
      handled :
          handle_get_all_services_merged
            (record { sock = sock; method = codes "get-all-services-merged" })
            s
          ≡ value (some usvcs, no_error, s)
      handled = unfold handle_get_all_services_merged db_get_all_svcs_merged answer in rw made refl

  -- s16db_set_state and s16db_publish reach no procedure: the former returns S16ENOSUCHMETH, the latter
  -- drops the error, and neither changes the daemon.
  pub set_state-publish-unknown :
      (sock : ℕ) (rerror : RpcError Obj) (p : S16Path) (state : S16ServiceState) (note : S16Note)
      (s : Configd)
      → IsCarried (
          clnt_call
            (codes "set-state")
            (path_to_ucl p ∷ fromint (int64_of_int (state_code state)) ∷ []))
      → IsCarried (clnt_call (codes "publish") (note_to_ucl note ∷ []))
      → IsReceived (error_message none unknown_method)
      → (s16db_set_state (exchange (rpc_setup junk) sock rerror) p state s
          ≡ value (no_such_method, s))
        × (s16db_publish (exchange (rpc_setup junk) sock rerror) note s ≡ value s)
  unfolding s16db_set_state s16db_publish remote_error remote_call error_of_reply
  set_state-publish-unknown sock rerror p state note s sent sent' answered = (
    rw
        (exchange-unknown (rpc_setup junk) sock rerror (codes "set-state") (ground arith) _ s
          (find-set_state junk) sent answered)
        refl,
    rw
        (exchange-unknown (rpc_setup junk) sock rerror (codes "publish") (ground arith) _ s
          (find-publish junk) sent' answered)
        refl,
  )

  -- s16db_subscribe adds a subscriber with the connection's descriptor and the kinds that were asked
  -- for, behind the others, if the messages are parsed as they were emitted and the reply is not too
  -- long.
  pub s16db_subscribe-subs :
      (sock : ℕ) (rerror : RpcError Obj) (kinds : ℕ) (s : Configd)
      → kinds < 2 ^ 32
      → IsCarried (clnt_call (codes "subscribe") (fromint (int64_of_int kinds) ∷ []))
      → IsReceived (result_message none (some (error_number 0)))
      → s16db_subscribe (exchange (rpc_setup junk) sock rerror) kinds s
        ≡ value (record s { subs = s.subs ++ record { fd = sock; kinds = kinds } ∷ [] })
  unfolding s16db_subscribe remote_call
  s16db_subscribe-subs sock rerror kinds s small sent answered =
      let added = record s { subs = s.subs ++ record { fd = sock; kinds = kinds } ∷ [] } in
      rw
        (exchange-fun1 (rpc_setup junk) sock rerror (codes "subscribe") (ground arith)
          handle_subscribe (fromint (int64_of_int kinds)) s added (error_number 0)
          (find-subscribe junk) handled sent answered)
        refl
    where
      handled :
          handle_subscribe
            (record { sock = sock; method = codes "subscribe" })
            (fromint (int64_of_int kinds))
            s
          ≡ value (
            some (error_number 0),
            no_error,
            record s { subs = s.subs ++ record { fd = sock; kinds = kinds } ∷ [] },
          )
      handled =
          unfold handle_subscribe answer in rw (int-roundtrip kinds small, list_add-eq-append) refl
