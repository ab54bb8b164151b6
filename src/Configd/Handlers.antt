-- ===== src/Configd/Handlers.antt =====
-- The remote procedures of usr/src/agent/configd/rpc.c.
use e_com_init.Common.{
  ℕ, Bool, Option, none, some, List, [], codes, str_eq, ◌==◌, if◌then◌else◌, nth,
}
use e_com_init.Common.Res.{Res, ok, aborted, too_deep}
use e_com_init.S16List.{list_add}
use e_com_init.Service.Types.{S16ServiceInstance, S16Service}
use e_com_init.Ucl.{LibUcl, int64_of_int, int_of_int64}
use e_com_init.Repository.Lookup.{
  LookupResult, bad_access, not_found, svc_result, instance_result, service_at,
}
use e_com_init.Repository.Db.{
  Db, Layer, l_manifest, l_admin, db_lookup_path_merged, db_get_all_svcs_merged, db_import,
  db_set_enabled,
}
use e_com_init.Common.Conv.{Conv, value, null, stopped, not_in_enum, ◌>>=◌}
use e_com_init.Repository.Convert.Write.{append_each, inst_to_ucl, service_to_ucl}
use e_com_init.Repository.Convert.Read.{ucl_to_path, ucl_to_svc}
use e_com_init.Rpc.Server.{RpcData, Outcome, fun0, fun1, fun2, RpcMethod, register_method, no_error}

pub record Subscriber : Type 0 where
  pub fd : ℕ
  pub kinds : ℕ

pub record Configd : Type 0 where
  pub db : Db
  pub subs : List Subscriber

-- S16EBADPATH
abbrev pub bad_path : ℕ
bad_path = 6000

-- A crash of the database code ends the daemon.
abbrev pub finished {ℓ} : {A : Type ℓ} → Res A → Conv A
finished (ok a) = value a
finished aborted = stopped
finished too_deep = stopped

-- The instance at a position that a lookup gave.
unfoldable pub instance_at : List S16Service → ℕ → ℕ → Option S16ServiceInstance
unfolding service_at
instance_at scope s i = nth (service_at scope s).insts i

module _ ⦃u : LibUcl⦄ where
  open u use {Obj, typed_object, typed_array, fromstring, fromint, insert_key, toint}

  abbrev pub Handled : Type 0
  Handled = Conv (Outcome Configd)

  unfoldable pub answer : Obj → Configd → Handled
  unfolding no_error
  answer reply s = value (some reply, no_error, s)

  unfoldable pub error_number : ℕ → Obj
  unfolding int64_of_int
  error_number e = fromint (int64_of_int e)

  unfoldable pub handle_disable : RpcData → Obj → Configd → Handled
  unfolding answer error_number ucl_to_path
  handle_disable dat upath s = elim (ucl_to_path upath) [
    | null ↦ answer (error_number bad_path) s
    | value path ↦
        (finished (db_set_enabled path (str_eq dat.method (codes "enable")) s.db) >>= λ (e, db').
        answer (error_number e) (record s { db = db' }))
    | stopped ↦ stopped
    | not_in_enum ↦ not_in_enum
  ]

  abbrev layer_of : ℕ → Layer
  layer_of n = if n == 0 then l_manifest else l_admin

  -- A manifest that reads as NULL is answered with 0 as well.
  unfoldable pub handle_import_service :
      (S16ServiceInstance → Bool) → RpcData → Obj → Obj → Configd → Handled
  unfolding answer error_number ucl_to_svc
  handle_import_service junk dat umanifest ulayer s = elim (ucl_to_svc umanifest) [
    | null ↦ answer (error_number 0) s
    | value svc ↦
        answer (error_number 0)
          (record s { db = db_import junk (layer_of (toint ulayer)) svc s.db })
    | stopped ↦ stopped
    | not_in_enum ↦ not_in_enum
  ]

  unfoldable pub handle_get_all_services_merged : RpcData → Configd → Handled
  unfolding answer append_each service_to_ucl
  handle_get_all_services_merged dat s = do
    ureply ← append_each service_to_ucl typed_array (db_get_all_svcs_merged s.db)
    answer ureply s

  -- The reply of get-path-merged with a value: both branches write "svc" as its type.
  unfoldable pub svc_reply : Obj → Obj
  svc_reply uvalue =
      insert_key (insert_key typed_object (fromstring (codes "svc")) (codes "type")) uvalue
        (codes "value")

  unfoldable pub error_reply : Obj
  error_reply = insert_key typed_object (fromstring (codes "error")) (codes "type")

  unfoldable pub instance_reply : Option S16ServiceInstance → Conv Obj
  unfolding svc_reply error_reply inst_to_ucl
  instance_reply none = value error_reply
  instance_reply (some inst) = do uinst ← inst_to_ucl inst; value (svc_reply uinst)

  unfoldable pub path_reply : Db → LookupResult → Conv Obj
  unfolding svc_reply error_reply instance_reply service_to_ucl instance_at service_at
  path_reply db (svc_result (some s)) = do
    usvc ← service_to_ucl (service_at db.manifest s)
    value (svc_reply usvc)
  path_reply db (instance_result (some (s, i))) = instance_reply (instance_at db.manifest s i)
  path_reply db (svc_result none) = value error_reply
  path_reply db (instance_result none) = value error_reply
  path_reply db not_found = value error_reply
  path_reply db bad_access = stopped

  unfoldable pub handle_get_path_merged : RpcData → Obj → Configd → Handled
  unfolding answer path_reply ucl_to_path
  handle_get_path_merged dat upath s = do
    path ← ucl_to_path upath
    reply ← path_reply s.db (db_lookup_path_merged s.db path)
    answer reply s

  unfoldable pub handle_subscribe : RpcData → Obj → Configd → Handled
  unfolding answer error_number int_of_int64 list_add
  handle_subscribe dat utypes s =
      let sub : Subscriber = record { fd = dat.sock; kinds = int_of_int64 (toint utypes) } in
      answer (error_number 0) (record s { subs = list_add s.subs sub })

  unfoldable pub rpc_setup : (S16ServiceInstance → Bool) → List (RpcMethod Configd)
  unfolding register_method handle_disable handle_import_service handle_get_all_services_merged
      handle_get_path_merged handle_subscribe
  rpc_setup junk =
      let m1 = register_method [] (codes "disable") 1 (fun1 handle_disable) in
      let m2 = register_method m1 (codes "enable") 1 (fun1 handle_disable) in
      let m3 = register_method m2 (codes "import-service") 2 (fun2 (handle_import_service junk)) in
      let m4 =
        register_method m3 (codes "get-all-services-merged") 0
          (fun0 handle_get_all_services_merged) in
      let m5 = register_method m4 (codes "get-path-merged") 1 (fun1 handle_get_path_merged) in
      register_method m5 (codes "subscribe") 1 (fun1 handle_subscribe)
