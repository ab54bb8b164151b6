-- ===== src/Configd/Methods.antt =====
-- The methods that rpc_setup of usr/src/agent/configd/rpc.c registers, and two that it does not.
use e_com_init.Common.{◌≡◌, refl, Bool, none, some, codes, str_eq}
use e_com_init.Service.Types.{S16ServiceInstance}
use e_com_init.Ucl.{LibUcl}
use e_com_init.Rpc.Server.{fun0, fun1, find_method}
use e_com_init.Configd.Handlers.{
  handle_disable, handle_get_all_services_merged, handle_get_path_merged, handle_subscribe,
  rpc_setup,
}

module _ ⦃u : LibUcl⦄ (junk : S16ServiceInstance → Bool) where
  open u use {
    Obj, fromstring, fromint, typed_object, typed_array, insert_key, lookup, toint, toint-fromint,
    tostring-fromstring,
  }

  pub find-enable :
      find_method (rpc_setup junk) (codes "enable")
      ≡ some (record { name = codes "enable"; nparams = 1; fun = fun1 handle_disable })
  unfolding find_method rpc_setup str_eq
  find-enable = refl

  pub find-disable :
      find_method (rpc_setup junk) (codes "disable")
      ≡ some (record { name = codes "disable"; nparams = 1; fun = fun1 handle_disable })
  unfolding find_method rpc_setup str_eq
  find-disable = refl

  pub find-get_all :
      find_method (rpc_setup junk) (codes "get-all-services-merged")
      ≡ some (record {
        name = codes "get-all-services-merged";
        nparams = 0;
        fun = fun0 handle_get_all_services_merged;
      })
  unfolding find_method rpc_setup str_eq
  find-get_all = refl

  pub find-get_path :
      find_method (rpc_setup junk) (codes "get-path-merged")
      ≡ some (record {
        name = codes "get-path-merged";
        nparams = 1;
        fun = fun1 handle_get_path_merged;
      })
  unfolding find_method rpc_setup str_eq
  find-get_path = refl

  pub find-subscribe :
      find_method (rpc_setup junk) (codes "subscribe")
      ≡ some (record { name = codes "subscribe"; nparams = 1; fun = fun1 handle_subscribe })
  unfolding find_method rpc_setup str_eq
  find-subscribe = refl

  pub find-set_state : find_method (rpc_setup junk) (codes "set-state") ≡ none
  unfolding find_method rpc_setup str_eq
  find-set_state = refl

  pub find-publish : find_method (rpc_setup junk) (codes "publish") ≡ none
  unfolding find_method rpc_setup str_eq
  find-publish = refl
