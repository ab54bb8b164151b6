-- ===== src/Tests/Remotes.antt =====
-- Remote calls to a daemon with one service, over the libucl of `Values`.
use e_com_init.S16List.{list_add}
use e_com_init.Common.{
  str_eq, ℕ, true, Bool, none, some, [], ◌∷◌, ◌≡◌, ◌↔◌, refl, map, codes, Any, arith,
}
use e_com_init.Repository.Lookup.{lookup_path_in_scope, svc_result, instance_result, service_at}
use e_com_init.Common.Res.{ok}
use e_com_init.Service.Types.{S16ServiceInstance, online}
use e_com_init.Ucl.{int64_of_int}
use e_com_init.Repository.Notes.{S16Note, note_new, n_admin_req, n_state_change, a_enable}
use e_com_init.Repository.Db.{Db, db_lookup_path_merged, db_set_enabled}
use e_com_init.Common.Conv.{Conv, value}
use e_com_init.Repository.Convert.{state_code}
use e_com_init.Repository.Convert.Write.{
  path_to_ucl, note_to_ucl, service_to_ucl, inst_to_ucl, append_each,
}
use e_com_init.Repository.Convert.Services.{IsPlainService, stored_service}
use e_com_init.Repository.Client.{
  found_svc, s16db_enable, s16db_set_state, s16db_publish, s16db_repo_get_all_services_merged,
  s16db_repo_get_path_merged,
}
use e_com_init.Rpc.Server.{RpcError, no_such_method, error_message, result_message}
use e_com_init.Rpc.Client.{clnt_call}
use e_com_init.Rpc.Exchange.{exchange}
use e_com_init.Rpc.Calls.{IsCarried}
use e_com_init.Rpc.Exchange.Laws.{IsReceived, unknown_method}
use e_com_init.Configd.Handlers.{
  Subscriber, Configd, error_number, instance_at, svc_reply, rpc_setup,
}
use e_com_init.Configd.Loop.{wants, notify_message, remaining_subs, left_with, after_event}
use e_com_init.Configd.Loop.Laws.{IsFor, after_event_lem}
use e_com_init.Configd.Remote.{
  s16db_enable-db_set_enabled, s16db_repo_get_path_merged-service,
  s16db_repo_get_all_services_merged-merged, set_state-publish-unknown,
}
use e_com_init.Configd.Delivery.{s16db_enable-delivered}
use e_com_init.Tests.Values.{Value, v_null, v_array, v_int, tree_ucl}
use e_com_init.Tests.Conversions.{
  disk, root, root_inst, disk_svc, disk-IsPlain, root-IsPlain, disk_svc-IsPlain,
}

abbrev graphd : Subscriber
graphd = record { fd = 7; kinds = 5 }

abbrev repository : Configd
repository = record {
  db = record { merged = disk_svc ∷ []; manifest = disk_svc ∷ []; admin = []; notes = [] };
  subs = graphd ∷ [];
}

abbrev junk : S16ServiceInstance → Bool
junk i = true

abbrev rerror : RpcError Value
rerror = record { code = 77; message = none; error_data = none }

enable-IsCarried : IsCarried (clnt_call (codes "enable") (path_to_ucl root ∷ []))
unfolding clnt_call path_to_ucl
enable-IsCarried = (refl, refl)

zero-IsReceived : IsReceived (result_message none (some (error_number 0)))
unfolding result_message error_number
zero-IsReceived = ((refl, refl), omega arith)

found_root : db_lookup_path_merged repository.db root ≡ instance_result (some (0, 0))
unfolding db_lookup_path_merged lookup_path_in_scope str_eq
found_root = refl

found_disk : db_lookup_path_merged repository.db disk ≡ svc_result (some 0)
unfolding db_lookup_path_merged lookup_path_in_scope str_eq
found_disk = refl

abbrev live : ℕ → Value → Bool
live fd m = true

s16db_enable-delivered_example :
    (s' : Configd) × (s16db_enable (exchange (rpc_setup junk) 7 rerror) root repository
      ≡ value (0, s'))
    × (s'.subs ≡ repository.subs)
    × ((sub : Subscriber)
        → Any (λ x. x ≡ sub) repository.subs
        → wants sub n_admin_req ≡ true
        → Any
            (λ m. (sub.fd, notify_message (note_new n_admin_req a_enable root 0)) ≡ m)
            (after_event live none s').0)
s16db_enable-delivered_example =
    s16db_enable-delivered junk live 7 rerror root repository 0 0 root-IsPlain found_root
      enable-IsCarried zero-IsReceived (λ m. refl)

-- One note waits, and its subscriber is still there after a socket was closed.
abbrev waiting : Configd
waiting = record repository {
  db = record repository.db { notes = note_new n_admin_req a_enable root 0 ∷ [] };
}

after_event_lem_example :
    ((after_event live (some 9) waiting).1
      ≡ value (left_with waiting (remaining_subs (some 9) waiting.subs) []))
    × ((m : ℕ × Value)
        → Any (λ x. m ≡ x) (after_event live (some 9) waiting).0
          ↔ Any
              (λ note. Any (IsFor note m) (remaining_subs (some 9) waiting.subs))
              waiting.db.notes)
after_event_lem_example = after_event_lem live (some 9) waiting (λ m h. refl)

abbrev object_of : Conv Value → Value
object_of (value v) = v
object_of _ = v_null

enabled_root : Db
enabled_root = record repository.db {
  manifest = record disk_svc { insts = record root_inst { enabled = true } ∷ [] } ∷ [];
  notes = note_new n_admin_req a_enable root 0 ∷ [];
}

done : db_set_enabled root true repository.db ≡ ok (0, enabled_root)
unfolding db_set_enabled db_lookup_path_merged lookup_path_in_scope str_eq enabled_root list_add
done = refl

s16db_enable-db_set_enabled_example :
    s16db_enable (exchange (rpc_setup junk) 7 rerror) root repository
    ≡ value (0, record repository { db = enabled_root })
s16db_enable-db_set_enabled_example =
    s16db_enable-db_set_enabled junk 7 rerror root repository 0 enabled_root root-IsPlain done
      (omega arith) enable-IsCarried zero-IsReceived

disk_object : Value
disk_object = object_of (service_to_ucl disk_svc)

disk_made : service_to_ucl (service_at repository.db.manifest 0) ≡ value disk_object
unfolding service_to_ucl service_at disk_object
disk_made = refl

ask_disk-IsCarried : IsCarried (clnt_call (codes "get-path-merged") (path_to_ucl disk ∷ []))
unfolding clnt_call path_to_ucl
ask_disk-IsCarried = (refl, refl)

disk_reply-IsReceived : IsReceived (result_message none (some (svc_reply disk_object)))
unfolding result_message svc_reply disk_object service_to_ucl
disk_reply-IsReceived = ((refl, refl), omega arith)

disk_at-IsPlain : IsPlainService (service_at repository.db.manifest 0)
unfolding service_at
disk_at-IsPlain = disk_svc-IsPlain

s16db_repo_get_path_merged-service_example :
    s16db_repo_get_path_merged (exchange (rpc_setup junk) 7 rerror) disk repository
    ≡ value (found_svc (some (stored_service (service_at repository.db.manifest 0))), repository)
s16db_repo_get_path_merged-service_example =
    s16db_repo_get_path_merged-service junk 7 rerror disk repository 0 disk_object disk-IsPlain
      found_disk disk_at-IsPlain disk_made ask_disk-IsCarried disk_reply-IsReceived

root_object : Value
root_object = object_of (inst_to_ucl root_inst)

root_made : inst_to_ucl root_inst ≡ value root_object
unfolding inst_to_ucl root_object
root_made = refl

root_at : instance_at repository.db.manifest 0 0 ≡ some root_inst
unfolding instance_at
root_at = refl

ask_root-IsCarried : IsCarried (clnt_call (codes "get-path-merged") (path_to_ucl root ∷ []))
unfolding clnt_call path_to_ucl
ask_root-IsCarried = (refl, refl)

root_reply-IsReceived : IsReceived (result_message none (some (svc_reply root_object)))
unfolding result_message svc_reply root_object inst_to_ucl
root_reply-IsReceived = ((refl, refl), omega arith)

all_objects : Value
all_objects = object_of (append_each service_to_ucl v_array repository.db.merged)

all_made : append_each service_to_ucl v_array repository.db.merged ≡ value all_objects
unfolding append_each service_to_ucl all_objects
all_made = refl

ask_all-IsCarried : IsCarried (clnt_call (codes "get-all-services-merged") [])
unfolding clnt_call
ask_all-IsCarried = (refl, refl)

all_reply-IsReceived : IsReceived (result_message none (some all_objects))
unfolding result_message all_objects append_each service_to_ucl
all_reply-IsReceived = ((refl, refl), omega arith)

s16db_repo_get_all_services_merged-merged_example :
    s16db_repo_get_all_services_merged (exchange (rpc_setup junk) 7 rerror) repository
    ≡ value (some (map stored_service repository.db.merged), repository)
s16db_repo_get_all_services_merged-merged_example =
    s16db_repo_get_all_services_merged-merged junk 7 rerror repository all_objects
      (disk_svc-IsPlain, tt) all_made ask_all-IsCarried all_reply-IsReceived

abbrev root_online : S16Note
root_online = record { note_type = n_state_change; type = 0; path = root; reason = 0 }

set_state-IsCarried : IsCarried (
    clnt_call
      (codes "set-state")
      (path_to_ucl root ∷ v_int (int64_of_int (state_code online)) ∷ []))
unfolding clnt_call path_to_ucl
set_state-IsCarried = (refl, refl)

publish-IsCarried : IsCarried (clnt_call (codes "publish") (note_to_ucl root_online ∷ []))
unfolding clnt_call note_to_ucl
publish-IsCarried = (refl, refl)

unknown-IsReceived : IsReceived (error_message none unknown_method)
unfolding error_message
unknown-IsReceived = ((refl, refl), omega arith)

set_state-publish-unknown_example :
    (s16db_set_state (exchange (rpc_setup junk) 7 rerror) root online repository
      ≡ value (no_such_method, repository))
    × (s16db_publish (exchange (rpc_setup junk) 7 rerror) root_online repository ≡ value repository)
set_state-publish-unknown_example =
    set_state-publish-unknown junk 7 rerror root online root_online repository set_state-IsCarried
      publish-IsCarried unknown-IsReceived

subscribe-IsCarried : IsCarried (clnt_call (codes "subscribe") (v_int (int64_of_int 4) ∷ []))
unfolding clnt_call
subscribe-IsCarried = (refl, refl)
