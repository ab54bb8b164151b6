-- ===== src/Repository/Db/Laws.antt =====
-- What the database operations of configd do to the scopes and to the queue.
use e_com_init.Common.{
  ℕ, ◌<◌, ◌≡◌, ◌≢◌, refl, ap, ◌∙◌, Bool, false, none, some, List, [], ◌∷◌, ◌++◌, if◌then◌else◌, set,
  length, All, map, append_assoc, append-nil, get_or-set_self, All-get_or, subst,
}
use e_com_init.Common.Res.{ok, aborted}
use e_com_init.S16List.{list_add, list_walk, list_walk_from, list_map}
use e_com_init.S16List.Laws.{list_add-eq-append}
use e_com_init.Service.Types.{S16Path, S16ServiceInstance, S16Service}
use e_com_init.Service.Copy.{service_copy}
use e_com_init.Repository.Notes.{S16Note, note_new, n_admin_req, a_enable, a_disable}
use e_com_init.Repository.Lookup.{
  LookupResult, bad_access, not_found, svc_result, instance_result, service_at,
  lookup_path_in_scope,
}
use e_com_init.Repository.Lookup.Laws.{lookup_path_sound, Found}
use e_com_init.Repository.Merge.{update_merged}
use e_com_init.Repository.Db.{
  Db, Layer, db_setup, db_lookup_path_merged, db_get_all_svcs_merged, db_import, admin_note,
  disable_all, set_instance_enabled, db_set_enabled,
}

-- Imports in order, each into a layer of its own.
pub import_all : (S16ServiceInstance → Bool) → List (Layer × S16Service) → Db → Db
import_all junk [] db = db
import_all junk ((layer, svc) ∷ rest) db = import_all junk rest (db_import junk layer svc db)

abbrev pub services_of : List (Layer × S16Service) → List S16Service
services_of [] = []
services_of ((layer, svc) ∷ rest) = svc ∷ services_of rest

pub record IsFlat (junk : S16ServiceInstance → Bool) (db : Db) : Type 0 where
  pub no_admin : db.admin ≡ []
  pub copied : db.merged ≡ list_map db.manifest (service_copy junk)

import-IsFlat :
    (junk : S16ServiceInstance → Bool) (layer : Layer) (svc : S16Service) (db : Db)
    → IsFlat junk db
    → IsFlat junk (db_import junk layer svc db)
unfolding db_import update_merged list_walk list_walk_from
import-IsFlat junk layer svc db h = record { no_admin = h.no_admin; copied = rw h.no_admin }

import_all_from :
    (junk : S16ServiceInstance → Bool) (imports : List (Layer × S16Service)) (db : Db)
    → IsFlat junk db
    → IsFlat junk (import_all junk imports db)
      × ((import_all junk imports db).manifest ≡ db.manifest ++ services_of imports)
unfolding import_all
import_all_from junk [] db h = (h, rw append-nil)
import_all_from junk ((layer, svc) ∷ rest) db h =
    let (flat, services) =
      import_all_from junk rest (db_import junk layer svc db) (import-IsFlat junk layer svc db h) in
    (flat, services ∙ one)
  where
    one :
        (db_import junk layer svc db).manifest ++ services_of rest
        ≡ db.manifest ++ (svc ∷ services_of rest)
    one = unfold db_import in rw (list_add-eq-append, append_assoc)

-- After any imports into any layers the manifest scope holds all the services in the order in which
-- they came, the merged scope is its copy, and the admin scope is empty.
pub import_all_lem :
    (junk : S16ServiceInstance → Bool) (imports : List (Layer × S16Service))
    → let db = import_all junk imports db_setup in
      (db.manifest ≡ services_of imports)
      × (db_get_all_svcs_merged db ≡ list_map (services_of imports) (service_copy junk))
      × (db.admin ≡ [])
unfolding db_setup db_get_all_svcs_merged
import_all_lem junk imports =
    let (flat, services) =
      import_all_from junk imports db_setup
        (record { no_admin = refl; copied = unfold list_map in refl }) in
    (services, rw (← services) flat.copied, flat.no_admin)

abbrev disabled_inst : S16ServiceInstance → S16ServiceInstance
disabled_inst it = record it { enabled = false }

-- The request that is queued for an instance.
abbrev pub inst_note : Bool → S16ServiceInstance → S16Note
inst_note enabled it = note_new n_admin_req (if enabled then a_enable else a_disable) it.path 0

disable_all_lem :
    (enabled : Bool) (insts : List S16ServiceInstance) (notes : List S16Note)
    → ((disable_all enabled insts notes).0 ≡ map disabled_inst insts)
      × ((disable_all enabled insts notes).1 ≡ notes ++ map (inst_note enabled) insts)
unfolding disable_all
disable_all_lem enabled [] notes = (refl, rw append-nil)
disable_all_lem enabled (it ∷ insts) notes =
    let (flags, queue) =
      disable_all_lem enabled insts (list_add notes (admin_note enabled it.path)) in
    (ap (λ t. disabled_inst it ∷ t) flags, queue ∙ rw (list_add-eq-append, append_assoc))

All-disabled :
    (insts : List S16ServiceInstance) → All (λ it. it.enabled ≡ false) (map disabled_inst insts)
All-disabled [] = tt
All-disabled (it ∷ insts) = (refl, All-disabled insts)

-- Enabling or disabling a service that was found: the call returns 0, all its instances are then
-- disabled, also if they were to be enabled; a note for each instance, in order, is queued with the
-- request that was made; and the merged scope is as it was.
pub db_set_enabled-service :
    (path : S16Path) (enabled : Bool) (db : Db) (s : ℕ)
    → db_lookup_path_merged db path ≡ svc_result (some s)
    → (db' : Db) × (db_set_enabled path enabled db ≡ ok (0, db'))
      × All (λ it. it.enabled ≡ false) (service_at db'.manifest s).insts
      × (db'.notes ≡ db.notes ++ map (inst_note enabled) (service_at db.manifest s).insts)
      × (db'.merged ≡ db.merged)
unfolding db_set_enabled
db_set_enabled-service path enabled db s h =
    let svc = service_at db.manifest s in
    let (flags, queue) = disable_all_lem enabled svc.insts db.notes in
    (
      record db {
        manifest =
            set db.manifest s (record svc { insts = (disable_all enabled svc.insts db.notes).0 });
        notes = (disable_all enabled svc.insts db.notes).1;
      },
      rw (h, db_set_enabled),
      rw (written) (rw flags (All-disabled svc.insts)),
      queue,
      refl,
    )
  where
    in_scope : s < length db.manifest
    in_scope =
        unfold db_lookup_path_merged in
        (subst (Found db.manifest path) h (lookup_path_sound db.manifest path)).0

    written : (v : S16Service) → service_at (set db.manifest s v) s ≡ v
    written v = unfold service_at in get_or-set_self db.manifest s v _ in_scope

-- Asking for a service that the scope does not have crashes: the code tests for an answer that the
-- lookup never gives, and reads through the NULL that it does give.
-- On an instance the database queues its request.
pub db_set_enabled-instance :
    (path : S16Path) (enabled : Bool) (db : Db) (s i : ℕ)
    → db_lookup_path_merged db path ≡ instance_result (some (s, i))
    → (db' : Db) × (db_set_enabled path enabled db ≡ ok (0, db'))
      × (db'.notes
          ≡ db.notes ++ note_new n_admin_req (if enabled then a_enable else a_disable) path 0 ∷ [])
unfolding db_set_enabled
db_set_enabled-instance path enabled db s i h =
    let svc = service_at db.manifest s in
    (
      record db {
        manifest =
            set db.manifest s (record svc { insts = set_instance_enabled enabled svc.insts i });
        notes = list_add db.notes (admin_note enabled path);
      },
      rw (h, db_set_enabled) refl,
      unfold admin_note in list_add-eq-append db.notes (admin_note enabled path),
    )

pub db_set_enabled-missing :
    (path : S16Path) (enabled : Bool) (db : Db)
    → All (λ s. s.path.svc ≢ path.svc) db.manifest
    → db_set_enabled path enabled db ≡ aborted
unfolding db_set_enabled db_lookup_path_merged
db_set_enabled-missing path enabled db h = crash _ refl (lookup_path_sound db.manifest path)
  where
    no_service :
        (s : ℕ) → s < length db.manifest → ¬ ((service_at db.manifest s).path.svc ≡ path.svc)
    no_service s lt =
        unfold service_at in All-get_or (λ s. s.path.svc ≢ path.svc) db.manifest s _ lt h

    crash :
        (r : LookupResult)
        → lookup_path_in_scope db.manifest path ≡ r
        → Found db.manifest path r
        → db_set_enabled path enabled db ≡ aborted
    crash not_found e f = absurd f
    crash (svc_result none) e f = rw (e, db_set_enabled)
    crash (svc_result (some s)) e f = absurd (no_service s f.0 f.1)
    crash (instance_result none) e f = rw (e, db_set_enabled)
    crash (instance_result (some (s, i))) e f = absurd (no_service s f.0 f.1)
    crash bad_access e f = rw (e, db_set_enabled)
