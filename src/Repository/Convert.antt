-- ===== src/Repository/Convert.antt =====
-- usr/src/lib/s16/db/convert.c: services, instances and notes as libucl objects, and back. `Write`
-- has the functions that make objects, `Read` those that read them, and the other children the
-- proofs.
use e_com_init.Common.{ℕ, ◌≡◌, refl, Option, none, some, List, [], ◌∷◌, CStr, ◌==◌, if◌then◌else◌}
pub use e_com_init.Common.Conv.{Conv, value, null, stopped, not_in_enum, ◌>>=◌}
use e_com_init.Service.Types.{
  S16ServiceState, no_state, uninitialised, disabled, offline, maintenance, online, degraded,
  enum_maximum,
}
use e_com_init.Repository.Notes.{NoteType, n_admin_req, n_restarter_req, n_state_change, n_config}
pub mod Write
pub mod Read
pub mod Arrays
pub mod Parts
pub mod Lists
pub mod Instances
pub mod Notes
pub mod Services

-- The numbers of the enumerations.
unfoldable pub state_code : S16ServiceState → ℕ
state_code no_state = 0
state_code uninitialised = 1
state_code disabled = 2
state_code offline = 3
state_code maintenance = 4
state_code online = 5
state_code degraded = 6
state_code enum_maximum = 7

unfoldable pub state_of_code : ℕ → Conv S16ServiceState
state_of_code n =
    if n == 0
    then value no_state
    else if n == 1
    then value uninitialised
    else if n == 2
    then value disabled
    else if n == 3
    then value offline
    else if n == 4
    then value maintenance
    else if n == 5
    then value online
    else if n == 6
    then value degraded
    else if n == 7
    then value enum_maximum
    else not_in_enum

unfoldable pub note_type_code : NoteType → ℕ
note_type_code n_admin_req = 1
note_type_code n_restarter_req = 2
note_type_code n_state_change = 4
note_type_code n_config = 8

unfoldable pub note_type_of_code : ℕ → Conv NoteType
note_type_of_code n =
    if n == 1
    then value n_admin_req
    else if n == 2
    then value n_restarter_req
    else if n == 4
    then value n_state_change
    else if n == 8
    then value n_config
    else not_in_enum
