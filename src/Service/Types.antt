-- ===== src/Service/Types.antt =====
-- The data of usr/src/lib/s16/hdr/S16/Service.h. A nullable string is an Option; the svc of a path is
-- never NULL, since S16PathNew asserts it and s16db_string_to_path sets it.
use e_com_init.Common.{ℕ, Bool, CStr, Option, List}

pub data S16ServiceState : Type 0 where
  no_state uninitialised disabled offline maintenance online degraded : S16ServiceState
  enum_maximum : S16ServiceState

pub record S16Path : Type 0 where
  pub full_qual : Bool
  pub svc : CStr
  pub inst : Option CStr

pub data DependencyGroupType : Type 0 where
  require_any require_all optional_all exclude_all : DependencyGroupType

pub data RestartOn : Type 0 where
  on_none on_error on_restart on_refresh on_any : RestartOn

-- The number of a RestartOn condition in C, by which conditions are compared.
abbrev pub restart_on_code : RestartOn → ℕ
restart_on_code on_none = 0
restart_on_code on_error = 1
restart_on_code on_restart = 2
restart_on_code on_refresh = 3
restart_on_code on_any = 4

pub record S16DependencyGroup : Type 0 where
  pub name : Option CStr
  pub type : DependencyGroupType
  pub restart_on : RestartOn
  pub paths : List S16Path

-- The type tag and the union of a property; a `long` is its bit pattern.
pub data PropertyValue : Type 0 where
  string : CStr → PropertyValue
  number : ℕ → PropertyValue
  boolean : ℕ → PropertyValue

pub record S16Property : Type 0 where
  pub name : CStr
  pub value : PropertyValue

pub record S16ServiceMethod : Type 0 where
  pub name : CStr
  pub props : List S16Property

pub record S16ServiceInstance : Type 0 where
  pub path : S16Path
  pub props : List S16Property
  pub meths : List S16ServiceMethod
  pub depgroups : List S16DependencyGroup
  pub enabled : Bool
  pub state : S16ServiceState

pub record S16Service : Type 0 where
  pub path : S16Path
  pub def_inst : Option CStr
  pub props : List S16Property
  pub meths : List S16ServiceMethod
  pub insts : List S16ServiceInstance
  pub depgroups : List S16DependencyGroup
  pub state : S16ServiceState
