-- ===== src/Repository/Client.antt =====
-- The remote calls of usr/src/lib/s16/db/rpc.c, over the exchange of usr/src/lib/s16/rpc/rpc.c. `call`
-- is the connection: it takes a method, its arguments and the state at the other end.
use e_com_init.Common.{ℕ, Option, none, some, List, [], ◌∷◌, CStr, codes, str_eq, if◌then◌else◌}
use e_com_init.Service.Types.{S16Path, S16Service, S16ServiceInstance, S16ServiceState}
use e_com_init.S16List.{list_add}
use e_com_init.Ucl.{LibUcl, int64_of_int, int_of_int64}
use e_com_init.Repository.Notes.{S16Note}
use e_com_init.Repository.Convert.{Conv, value, null, stopped, not_in_enum, ◌>>=◌, state_code}
use e_com_init.Repository.Convert.Write.{path_to_ucl, note_to_ucl}
use e_com_init.Common.Conv.{asserted}
use e_com_init.Repository.Convert.Read.{ucl_to_svc, ucl_to_svcs, ucl_to_inst, ucl_to_note, text}
use e_com_init.Rpc.Server.{RpcError, RpcData, Outcome}

-- The result of s16db_repo_get_path_merged: its type and the pointer in its union. On an error the
-- type is the error's code and the pointer is not written.
pub data MergedResult : Type 0 where
  failed_type : ℕ → MergedResult
  not_there : MergedResult
  found_svc : Option S16Service → MergedResult
  found_inst : Option S16ServiceInstance → MergedResult

-- A converter's NULL is a value of the caller.
abbrev pub or_null {ℓ} : {A : Type ℓ} → Conv A → Conv (Option A)
or_null (value x) = value (some x)
or_null null = value none
or_null stopped = stopped
or_null not_in_enum = not_in_enum

-- A converter looks for keys in a NULL object in vain and returns NULL.
abbrev pub read_value {ℓ κ} : {A : Type ℓ} {B : Type κ} → (A → Conv B) → Option A → Conv (Option B)
read_value from_ucl none = value none
read_value from_ucl (some v) = or_null (from_ucl v)

module _ ⦃u : LibUcl⦄ where
  open u use {Obj, fromint, lookup, tostring, toint}

  abbrev pub RemoteCall : Type 0 → Type 0
  RemoteCall S = CStr → List Obj → S → Conv (Outcome S)

  -- errc: the number in the reply, or the error's code.
  unfoldable pub error_of_reply : Option Obj → RpcError Obj → ℕ
  unfolding int_of_int64
  error_of_reply none e = e.code
  error_of_reply (some reply) e = int_of_int64 (toint reply)

  unfoldable pub remote_error : {S : Type 0} → RemoteCall S → CStr → List Obj → S → Conv (ℕ × S)
  unfolding error_of_reply
  remote_error call name args s = do
    (reply, e, s') ← call name args s
    value (error_of_reply reply e, s')

  unfoldable pub s16db_enable : {S : Type 0} → RemoteCall S → S16Path → S → Conv (ℕ × S)
  unfolding remote_error path_to_ucl
  s16db_enable call path s = remote_error call (codes "enable") (path_to_ucl path ∷ []) s

  unfoldable pub s16db_disable : {S : Type 0} → RemoteCall S → S16Path → S → Conv (ℕ × S)
  unfolding remote_error path_to_ucl
  s16db_disable call path s = remote_error call (codes "disable") (path_to_ucl path ∷ []) s

  unfoldable pub s16db_set_state :
      {S : Type 0} → RemoteCall S → S16Path → S16ServiceState → S → Conv (ℕ × S)
  unfolding remote_error path_to_ucl state_code int64_of_int
  s16db_set_state call path state s =
      remote_error call (codes "set-state")
        (path_to_ucl path ∷ fromint (int64_of_int (state_code state)) ∷ []) s

  unfoldable pub s16db_import_ucl_svc : {S : Type 0} → RemoteCall S → Obj → ℕ → S → Conv (ℕ × S)
  unfolding remote_error int64_of_int
  s16db_import_ucl_svc call usvc layer s =
      remote_error call (codes "import-service") (usvc ∷ fromint (int64_of_int layer) ∷ []) s

  -- A reply and an error are both dropped, the latter with a message.
  unfoldable pub remote_call : {S : Type 0} → RemoteCall S → CStr → List Obj → S → Conv S
  remote_call call name args s = do (reply, e, s') ← call name args s; value s'

  unfoldable pub s16db_publish : {S : Type 0} → RemoteCall S → S16Note → S → Conv S
  unfolding remote_call note_to_ucl
  s16db_publish call note s = remote_call call (codes "publish") (note_to_ucl note ∷ []) s

  -- The registration of notify on the handle is left out.
  unfoldable pub s16db_subscribe : {S : Type 0} → RemoteCall S → ℕ → S → Conv S
  unfolding remote_call int64_of_int
  s16db_subscribe call kinds s =
      remote_call call (codes "subscribe") (fromint (int64_of_int kinds) ∷ []) s

  services_of_reply : Option Obj → Conv (Option (List S16Service))
  unfolding ucl_to_svcs
  services_of_reply none = value none
  services_of_reply (some reply) = do svcs ← ucl_to_svcs reply; value (some svcs)

  -- After an error the variable that is returned has not been written: `none`.
  unfoldable pub s16db_repo_get_all_services_merged :
      {S : Type 0} → RemoteCall S → S → Conv (Option (List S16Service) × S)
  unfolding services_of_reply
  s16db_repo_get_all_services_merged call s = do
    (reply, e, s') ← call (codes "get-all-services-merged") [] s
    svcs ← services_of_reply reply
    value (svcs, s')

  -- The reply's type is a text and is compared by strcmp, which reads through a NULL.
  unfoldable pub merged_result : Obj → Conv MergedResult
  unfolding ucl_to_svc ucl_to_inst
  merged_result reply = do
    utype ← asserted (lookup reply (codes "type"))
    type ← text utype
    if str_eq type (codes "error")
        then value not_there
        else if str_eq type (codes "svc")
        then (read_value ucl_to_svc (lookup reply (codes "value")) >>= λ svc. value (found_svc svc))
        else (read_value ucl_to_inst (lookup reply (codes "value")) >>= λ inst.
            value (found_inst inst))

  path_of_reply : Option Obj → RpcError Obj → Conv MergedResult
  unfolding merged_result
  path_of_reply none e = value (failed_type e.code)
  path_of_reply (some reply) e = merged_result reply

  unfoldable pub s16db_repo_get_path_merged :
      {S : Type 0} → RemoteCall S → S16Path → S → Conv (MergedResult × S)
  unfolding path_of_reply path_to_ucl
  s16db_repo_get_path_merged call path s = do
    (reply, e, s') ← call (codes "get-path-merged") (path_to_ucl path ∷ []) s
    res ← path_of_reply reply e
    value (res, s')

  -- The handler of notes that the daemon sends; the state is the handle's queue.
  unfoldable pub handle_notify : RpcData → Obj → List S16Note → Conv (Option Obj × List S16Note)
  unfolding ucl_to_note list_add int64_of_int
  handle_notify dat unote notes = do
    note ← ucl_to_note unote
    value (some (fromint (int64_of_int 0)), list_add notes note)
