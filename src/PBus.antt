-- ===== src/PBus.antt =====
-- The objects of usr/src/lib/PBus/PBusObject.c and how a message finds its receiver. A class is named
-- by a key `C`, which the argument `classes` maps to its functions; `U` is what the user pointer points
-- to; `S` is the state that methods and classes change, the error that they set among it.
use e_com_init.Common.{
  ℕ, zero, suc, Bool, true, false, Option, none, some, List, [], ◌∷◌, ◌++◌, CStr, codes, str_eq,
  length, ltb, ◌==◌, if◌then◌else◌,
}
use e_com_init.Common.Conv.{Conv, value, null, stopped, not_in_enum, ◌>>=◌}
use e_com_init.Nv.{LibNv}
use e_com_init.Nv.Types.{
  NvType, k_string, k_bool, k_int, k_nvlist, k_descriptor, k_struct, k_list, CVal, CVals, c_word,
  fields_count, c_list, no_vals,
}
use e_com_init.Nv.Struct.{serialise, arguments_deserialise}
use e_com_init.Nv.Calls.{NvSignature}
pub mod Paths
pub mod Receivers

mutual
  pub data PBusObject (C : Type 0) : Type 0 where
    object : C → CStr → PBusObjects C → PBusObject C

  pub data PBusObjects (C : Type 0) : Type 0 where
    no_objects : PBusObjects C
    objects : PBusObject C → PBusObjects C → PBusObjects C

abbrev pub is_a : {C : Type 0} → PBusObject C → C
is_a (object c name subs) = c

abbrev pub sub_objects : {C : Type 0} → PBusObject C → PBusObjects C
sub_objects (object c name subs) = subs

unfoldable pub match_object : {C : Type 0} → PBusObject C → CStr → Bool
match_object (object c name subs) n = str_eq name n

-- PBusObject_list_find with matchObject
unfoldable pub find_object : {C : Type 0} → PBusObjects C → CStr → Option (PBusObject C)
unfolding match_object
find_object no_objects n = none
find_object (objects o os) n = if match_object o n then some o else find_object os n

pub record PBusContext (U : Type 0) : Type 0 where
  pub from_busname : Option CStr
  pub full_self_path : Option CStr
  pub self_path : Option CStr
  pub user : Option U
  pub selector : CStr

-- strtok_r over "/": the segments between slashes, without the empty ones.
unfoldable pub push_segment : CStr → List CStr → List CStr
push_segment [] segs = segs
push_segment (c ∷ seg) segs = (c ∷ seg) ∷ segs

unfoldable pub split_from : CStr → CStr → List CStr
unfolding push_segment
split_from seg [] = push_segment seg []
split_from seg (c ∷ cs) = elim (c == b'/') [
  | true ↦ push_segment seg (split_from [] cs)
  | false ↦ split_from (seg ++ c ∷ []) cs
]

unfoldable pub path_elements : CStr → List CStr
unfolding split_from
path_elements path = split_from [] path

module _ ⦃v : LibNv⦄ (C U S : Type 0) where
  open v use {Nv, create}

  pub record PBusMethod : Type 0 where
    pub sig : NvSignature
    pub raw : Bool
    pub fun : PBusObject C → PBusContext U → CVals Nv → S → Conv (Option (CVal Nv) × S)

  -- What a class resolves a path element to: an object or NULL, the user pointer and the path that
  -- remains.
  abbrev pub Resolved : Type 0
  Resolved = Option (PBusObject C) × Option U × List CStr × S

  pub record PBusClass : Type 0 where
    pub resolve_sub_object :
        Option (PBusObject C → Option U → CStr → CStr → List CStr → CStr → S → Conv Resolved)
    pub dispatch_message : Option (PBusObject C → PBusContext U → Nv → S → Conv (Option Nv × S))
    pub methods : List PBusMethod

module _ ⦃v : LibNv⦄ where
  open v use {Nv}

  -- serialise with a pointer that can be NULL. A NULL word is 0, a NULL list is empty, a NULL struct is
  -- read through, and a NULL string or list of libnv gives an erroneous list, which is `null`.
  unfoldable pub serialise_result : Option (CVal Nv) → NvType → Nv → Conv Nv
  unfolding serialise
  serialise_result (some x) rtype nvl = serialise x rtype nvl (codes "result")
  serialise_result none k_bool nvl = serialise (c_word 0) k_bool nvl (codes "result")
  serialise_result none k_int nvl = serialise (c_word 0) k_int nvl (codes "result")
  serialise_result none k_descriptor nvl = serialise (c_word 0) k_descriptor nvl (codes "result")
  serialise_result none (k_list t) nvl = serialise (c_list no_vals) (k_list t) nvl (codes "result")
  serialise_result none (k_struct fs) nvl = stopped
  serialise_result none k_string nvl = null
  serialise_result none k_nvlist nvl = null

module _ ⦃v : LibNv⦄ {C U S : Type 0} where
  open v use {Nv, create}

  -- Too many parameters and arguments that are not there give NULL. With fewer named parameters than
  -- nargs the method would be given words that were not written.
  unfoldable pub dispatch_fun :
      PBusObject C → PBusContext U → PBusMethod C U S → Nv → S → Conv (Option (CVal Nv) × S)
  unfolding arguments_deserialise
  dispatch_fun self ctx meth nvparams s =
      elim (arguments_deserialise meth.sig.args meth.sig.nargs nvparams) [
        | null ↦ value (none, s)
        | value params ↦
            if ltb 4 meth.sig.nargs
            then value (none, s)
            else if ltb (fields_count meth.sig.args) meth.sig.nargs
            then stopped
            else meth.fun self ctx params s
        | stopped ↦ stopped
        | not_in_enum ↦ not_in_enum
      ]

  -- A raw method is not called: the response is empty.
  unfoldable pub send_message :
      PBusObject C → PBusContext U → PBusMethod C U S → Nv → S → Conv (Option Nv × S)
  unfolding dispatch_fun serialise_result
  send_message self ctx meth params s =
      if meth.raw
      then value (some create, s)
      else (dispatch_fun self ctx meth params s >>= λ (result, s').
          serialise_result result meth.sig.rtype create >>= λ response. value (some response, s'))

  -- The loop over the methods.
  unfoldable pub send_first :
      List (PBusMethod C U S) → PBusObject C → PBusContext U → Nv → S → Conv (Option Nv × S)
  unfolding send_message
  send_first [] self ctx params s = value (none, s)
  send_first (meth ∷ meths) self ctx params s =
      if str_eq ctx.selector meth.sig.name
      then send_message self ctx meth params s
      else send_first meths self ctx params s

  unfoldable pub dispatch_class :
      PBusClass C U S → PBusObject C → PBusContext U → Nv → S → Conv (Option Nv × S)
  unfolding send_first
  dispatch_class cls self ctx params s = elim cls.dispatch_message [
    | some fun ↦ fun self ctx params s
    | none ↦ send_first cls.methods self ctx params s
  ]

  module _ (classes : C → PBusClass C U S) where
    unfoldable pub dispatch_message : PBusObject C → PBusContext U → Nv → S → Conv (Option Nv × S)
    unfolding dispatch_class
    dispatch_message self ctx params s = dispatch_class (classes (is_a self)) self ctx params s

    -- The next step from a sub-object that was found, and from one that a class resolved.
    unfoldable pub go_on :
        (PBusObject C → Option (Conv (Option Nv × S)))
        → S
        → Option (PBusObject C)
        → Option (Conv (Option Nv × S))
    go_on next s none = some (value (none, s))
    go_on next s (some o) = next o

    unfoldable pub go_on_resolved :
        (PBusObject C → Option U → List CStr → S → Option (Conv (Option Nv × S)))
        → Conv (Resolved C U S)
        → Option (Conv (Option Nv × S))
    go_on_resolved next (value (none, user, rest, s)) = some (value (none, s))
    go_on_resolved next (value (some o, user, rest, s)) = next o user rest s
    go_on_resolved next null = some null
    go_on_resolved next stopped = some stopped
    go_on_resolved next not_in_enum = some not_in_enum

    -- The context of the receiver has what the elements behind it left. `none` is a bound that was
    -- passed: a class can lengthen the path that remains.
    unfoldable pub find_receiver :
        ℕ → PBusObject C → PBusContext U → CStr → List CStr → Nv → S → Option (Conv (Option Nv × S))
    unfolding dispatch_message go_on go_on_resolved find_object
    find_receiver zero self ctx path rest params s = none
    find_receiver (suc n) self ctx path [] params s = some (dispatch_message self ctx params s)
    find_receiver (suc n) self ctx path (next ∷ rest) params s =
        elim (classes (is_a self)).resolve_sub_object [
          | none ↦
              go_on
                (λ o. find_receiver n o (record ctx { self_path = some next }) path rest params s) s
                (find_object (sub_objects self) next)
          | some resolve ↦
              go_on_resolved
                (λ o user rest' s'.
                  find_receiver n o (record ctx { self_path = some next; user = user }) path rest'
                    params s')
                (resolve self ctx.user path next rest ctx.selector s)
        ]

    -- The context at the root.
    abbrev pub root_context : Option CStr → Option CStr → CStr → PBusContext U
    root_context path from_busname selector = record {
      from_busname = from_busname;
      full_self_path = path;
      self_path = none;
      user = none;
      selector = selector;
    }

    unfoldable pub find_receiver_root :
        ℕ → PBusObject C → Option CStr → Option CStr → CStr → Nv → S → Option (Conv (Option Nv × S))
    unfolding find_receiver path_elements
    find_receiver_root n self none from_busname selector params s =
        some (dispatch_message self (root_context none from_busname selector) params s)
    find_receiver_root n self (some path) from_busname selector params s =
        find_receiver n self (root_context (some path) from_busname selector) path
          (path_elements path) params s
