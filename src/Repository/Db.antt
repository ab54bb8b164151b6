-- ===== src/Repository/Db.antt =====
-- The database of usr/src/agent/configd/db.c: its three scopes and the queue of notes.
pub mod Laws
use e_com_init.Common.{
  ℕ, Bool, true, false, Option, none, some, List, [], ◌∷◌, set, get_or, length, ◌<◌, if◌then◌else◌,
}
use e_com_init.Common.Res.{Res, ok, aborted}
use e_com_init.S16List.{list_add}
use e_com_init.Service.Types.{S16Path, S16ServiceInstance, S16Service}
use e_com_init.Repository.Notes.{S16Note, note_new, n_admin_req, a_enable, a_disable}
use e_com_init.Repository.Lookup.{
  LookupResult, bad_access, not_found, svc_result, instance_result, service_at,
  lookup_path_in_scope,
}
use e_com_init.Repository.Merge.{update_merged}

pub record Db : Type 0 where
  pub merged : List S16Service
  pub manifest : List S16Service
  pub admin : List S16Service
  pub notes : List S16Note

pub data Layer : Type 0 where
  l_manifest l_admin : Layer

-- S16ENOSUCHSVC
abbrev pub no_such_svc : ℕ
no_such_svc = 6001

-- The globals are zero, then db_setup runs and main makes the queue.
unfoldable pub db_setup : Db
db_setup = record { merged = []; manifest = []; admin = []; notes = [] }

unfoldable pub db_lookup_path_merged : Db → S16Path → LookupResult
db_lookup_path_merged db path = lookup_path_in_scope db.manifest path

unfoldable pub db_get_all_svcs_merged : Db → List S16Service
db_get_all_svcs_merged db = db.merged

-- The layer is not read.
unfoldable pub db_import : (S16ServiceInstance → Bool) → Layer → S16Service → Db → Db
db_import junk layer svc db =
    let manifest = list_add db.manifest svc in
    record db { manifest = manifest; merged = update_merged junk manifest db.admin }

admin_type : Bool → ℕ
admin_type enabled = if enabled then a_enable else a_disable

admin_note : Bool → S16Path → S16Note
unfolding admin_type
admin_note enabled path = note_new n_admin_req (admin_type enabled) path 0

-- The loop over the instances of a service: each flag is set to false, and a note is queued.
disable_all : Bool → List S16ServiceInstance → List S16Note → List S16ServiceInstance × List S16Note
unfolding admin_note
disable_all enabled [] notes = ([], notes)
disable_all enabled (it ∷ insts) notes =
    let (insts', notes') =
      disable_all enabled insts (list_add notes (admin_note enabled it.path)) in
    (record it { enabled = false } ∷ insts', notes')

set_instance_enabled : Bool → List S16ServiceInstance → ℕ → List S16ServiceInstance
set_instance_enabled enabled [] i = []
set_instance_enabled enabled (it ∷ insts) ℕ.zero = record it { enabled = enabled } ∷ insts
set_instance_enabled enabled (it ∷ insts) (ℕ.suc i) = it ∷ set_instance_enabled enabled insts i

-- A service that was not found is a NULL pointer, whose list of instances is then read: a crash.
unfoldable pub db_set_enabled : S16Path → Bool → Db → Res (ℕ × Db)
unfolding disable_all set_instance_enabled
db_set_enabled path enabled db = elim (db_lookup_path_merged db path) [
  | not_found ↦ ok (no_such_svc, db)
  | svc_result none ↦ aborted
  | svc_result (some s) ↦
      let svc = service_at db.manifest s in
      let (insts, notes) = disable_all enabled svc.insts db.notes in
      ok (
        0,
        record db { manifest = set db.manifest s (record svc { insts = insts }); notes = notes },
      )
  | instance_result none ↦ aborted
  | bad_access ↦ aborted
  | instance_result (some (s, i)) ↦
      let svc = service_at db.manifest s in
      let insts = set_instance_enabled enabled svc.insts i in
      ok (
        0,
        record db {
          manifest = set db.manifest s (record svc { insts = insts });
          notes = list_add db.notes (admin_note enabled path);
        },
      )
]
