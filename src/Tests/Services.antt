-- ===== src/Tests/Services.antt =====
-- Examples of paths, names and copies of services.
use e_com_init.Common.{true, none, some, [], ◌∷◌, codes, arith}
use e_com_init.Service.Types.{S16Path, S16ServiceInstance, S16Service, no_state, offline}
use e_com_init.Service.Text.Laws.{HasNoColon}
use e_com_init.Service.Copy.Laws.{ServiceIsQualified}

abbrev disk : S16Path
disk = record { full_qual = true; svc = codes "fs"; inst = some (codes "a:b") }

abbrev net : S16Path
net = record { full_qual = true; svc = codes "net"; inst = none }

no_colon : HasNoColon disk.svc
no_colon = ground arith

abbrev disk_inst : S16ServiceInstance
disk_inst = record {
  path = disk;
  props = [];
  meths = [];
  depgroups = [];
  enabled = true;
  state = offline;
}

abbrev disk_service : S16Service
disk_service = record {
  path = record { full_qual = true; svc = codes "fs"; inst = none };
  def_inst = some (codes "a:b");
  props = [];
  meths = [];
  insts = disk_inst ∷ [];
  depgroups = [];
  state = no_state;
}

qualified : ServiceIsQualified disk_service
qualified = ground arith
