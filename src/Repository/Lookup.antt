-- ===== src/Repository/Lookup.antt =====
-- s16db_lookup_path_in_scope of usr/src/lib/s16/db/local.c. A pointer to a service is its position
-- in the scope, one to an instance adds the position in the service's list. The branch for a path
-- with no service is left out: no function makes such a path.
use e_com_init.Common.{
  ℕ, zero, suc, Bool, true, false, Option, none, some, List, [], ◌∷◌, CStr, str_eq, if◌then◌else◌,
  get_or,
}
use e_com_init.Common.Res.{Res, ok, aborted, too_deep}
use e_com_init.Service.Types.{S16Path, S16ServiceInstance, S16Service}
use e_com_init.Service.Copy.{service_alloc}
pub mod Laws

-- The result's type with its union; the pointer may be NULL under either type. `bad_access` is no result:
-- strcmp has read through NULL.
pub data LookupResult : Type 0 where
  not_found : LookupResult
  svc_result : Option ℕ → LookupResult
  instance_result : Option (ℕ × ℕ) → LookupResult
  bad_access : LookupResult

-- The loops keep the last match, since they do not break.
unfoldable pub last_service : CStr → ℕ → Option ℕ → List S16Service → Option ℕ
last_service svc i res [] = res
last_service svc i res (s ∷ svcs) =
    last_service svc (suc i) (if str_eq svc s.path.svc then some i else res) svcs

-- strcmp reads the instance name of each path, and a path from a text without a colon has none.
unfoldable pub last_instance : CStr → ℕ → Option ℕ → List S16ServiceInstance → Res (Option ℕ)
last_instance inst i res [] = ok res
last_instance inst i res (it ∷ insts) = elim it.path.inst [
  | none ↦ aborted
  | some name ↦ last_instance inst (suc i) (if str_eq inst name then some i else res) insts
]

abbrev null_service : S16Service
null_service = service_alloc (record { full_qual = false; svc = []; inst = none })

-- The service at a position that a lookup gave.
unfoldable pub service_at : List S16Service → ℕ → S16Service
service_at scope i = get_or scope i null_service

unfoldable pub found_instance : ℕ → Res (Option ℕ) → LookupResult
found_instance s (ok none) = instance_result none
found_instance s (ok (some i)) = instance_result (some (s, i))
found_instance s aborted = bad_access
found_instance s too_deep = bad_access

lookup_instance : List S16Service → ℕ → Option CStr → LookupResult
unfolding found_instance
lookup_instance scope s none = svc_result (some s)
lookup_instance scope s (some inst) =
    found_instance s (last_instance inst 0 none (service_at scope s).insts)

unfoldable pub lookup_path_in_scope : List S16Service → S16Path → LookupResult
unfolding lookup_instance last_service last_instance service_at
lookup_path_in_scope scope path = elim (last_service path.svc 0 none scope) [
  | none ↦ svc_result none
  | some s ↦ lookup_instance scope s path.inst
]
