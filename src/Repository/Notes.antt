-- ===== src/Repository/Notes.antt =====
-- Notes: usr/src/lib/s16/hdr/S16/ServiceNotification.h and s16note_new of
-- usr/src/lib/s16/db/local.c. The int `type` is read by the constants of its note_type.
use e_com_init.Common.{ℕ}
use e_com_init.Service.Types.{S16Path}
use e_com_init.Service.Paths.{path_copy}

pub data NoteType : Type 0 where
  n_admin_req n_restarter_req n_state_change n_config : NoteType

abbrev pub a_enable : ℕ
a_enable = 0

abbrev pub a_disable : ℕ
a_disable = 1

abbrev pub rr_start : ℕ
rr_start = 3

abbrev pub sc_online : ℕ
sc_online = 0

abbrev pub sc_offline : ℕ
sc_offline = 1

abbrev pub sc_disabled : ℕ
sc_disabled = 2

pub record S16Note : Type 0 where
  pub note_type : NoteType
  pub type : ℕ
  pub path : S16Path
  pub reason : ℕ

unfoldable pub note_new : NoteType → ℕ → S16Path → ℕ → S16Note
note_new note_type type path reason = record {
  note_type = note_type;
  type = type;
  path = path_copy path;
  reason = reason;
}
