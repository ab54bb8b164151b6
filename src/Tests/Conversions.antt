-- ===== src/Tests/Conversions.antt =====
-- A service and a note through the libucl of `Values` and back.
use e_com_init.Common.{true, false, none, some, [], ◌∷◌, ◌≡◌, ◌≢◌, refl, codes, arith}
use e_com_init.Service.Types.{
  S16Path, S16ServiceInstance, S16Service, S16Property, S16ServiceMethod, S16DependencyGroup,
  require_all, on_restart, on_any, string, no_state, offline,
}
use e_com_init.Repository.Notes.{S16Note, n_state_change}
use e_com_init.Common.Conv.{value, ◌>>=◌}
use e_com_init.Repository.Convert.Write.{service_to_ucl}
use e_com_init.Repository.Convert.Read.{ucl_to_svc}
use e_com_init.Repository.Convert.Parts.{IsPlainPath, IsPlainMethod, IsText}
use e_com_init.Service.Text.{path_to_string}
use e_com_init.Repository.Convert.Instances.{IsPlainInstance}
use e_com_init.Repository.Convert.Services.{
  IsPlainService, stored_service, ucl_to_svc-service_to_ucl,
}
use e_com_init.Tests.Values.{tree_ucl}

abbrev pub disk : S16Path
disk = record { full_qual = true; svc = codes "fs"; inst = none }

abbrev pub root : S16Path
root = record { full_qual = true; svc = codes "fs"; inst = some (codes "root") }

abbrev label : S16Property
label = record { name = codes "label"; value = string (codes "usr") }

abbrev start : S16ServiceMethod
start = record { name = codes "start"; props = label ∷ [] }

abbrev stop : S16ServiceMethod
stop = record { name = codes "stop"; props = [] }

abbrev needs_root : S16DependencyGroup
needs_root = record {
  name = some (codes "g");
  type = require_all;
  restart_on = on_restart;
  paths = root ∷ [];
}

abbrev pub root_inst : S16ServiceInstance
root_inst = record {
  path = root;
  props = label ∷ [];
  meths = start ∷ stop ∷ [];
  depgroups = [];
  enabled = false;
  state = offline;
}

abbrev pub disk_svc : S16Service
disk_svc = record {
  path = disk;
  def_inst = some (codes "root");
  props = label ∷ [];
  meths = stop ∷ [];
  insts = root_inst ∷ [];
  depgroups = needs_root ∷ [];
  state = no_state;
}

pub disk-IsPlain : IsPlainPath disk
unfolding path_to_string
disk-IsPlain = ground arith

pub root-IsPlain : IsPlainPath root
unfolding path_to_string
root-IsPlain = ground arith

label-IsText : IsText label
label-IsText = (codes "usr", refl, ground arith, ground arith)

start-IsPlain : IsPlainMethod start
start-IsPlain = (ground arith, (label-IsText, tt))

stop-IsPlain : IsPlainMethod stop
stop-IsPlain = (ground arith, tt)

restarts : on_restart ≢ on_any
restarts = ground arith

pub root_inst-IsPlain : IsPlainInstance root_inst
root_inst-IsPlain = (root-IsPlain, (label-IsText, tt), (start-IsPlain, (stop-IsPlain, tt)), tt)

pub disk_svc-IsPlain : IsPlainService disk_svc
disk_svc-IsPlain = (
  disk-IsPlain,
  (label-IsText, tt),
  (stop-IsPlain, tt),
  (root_inst-IsPlain, tt),
  ((restarts, (root-IsPlain, tt)), tt),
  ground arith,
)

-- One method is lost, and the name of the dependency group.
kept : stored_service disk_svc ≡ record disk_svc {
  meths = [];
  insts = record root_inst { meths = start ∷ [] } ∷ [];
  depgroups = record needs_root { name = none } ∷ [];
}
kept = refl

ucl_to_svc-service_to_ucl_example :
    (service_to_ucl disk_svc >>= ucl_to_svc) ≡ value (stored_service disk_svc)
ucl_to_svc-service_to_ucl_example = ucl_to_svc-service_to_ucl disk_svc disk_svc-IsPlain

abbrev went_online : S16Note
went_online = record { note_type = n_state_change; type = 0; path = root; reason = 4294967295 }
