-- ===== src/Repository/Merge/Laws.antt =====
-- What a merge of two layers gives: the entry of a name comes from the layer on top if it has one.
use e_com_init.Common.{
  ℕ, ◌≡◌, refl, Bool, Option, none, some, List, [], ◌∷◌, CStr, str_eq, str_eq_iff, if◌then◌else◌,
  ◌==◌, get_or, arith,
}
use e_com_init.S16List.{list_add, list_find, list_walk, list_walk_from}
use e_com_init.S16List.Laws.{list_find-cons}
use e_com_init.Service.Types.{S16Property, S16ServiceMethod, S16ServiceInstance, S16Service}
use e_com_init.Service.Copy.{
  property_names_equal, property_copy, method_names_equal, method_copy, instance_names_equal,
}
use e_com_init.Service.Copy.Laws.{property_copy-eq, method_copy-eq}
use e_com_init.Repository.Merge.{
  merge_entry, merge_prop_into_list, merge_meth_into_list, merge_inst_into_inst,
  merge_inst_into_list, merge_svc_into_svc,
}

-- merge_entry, node by node.
merge_entry-cons {ℓ} :
    {A : Type ℓ} (eq : A → A → Bool) (copy : A → A) (x y : A) (ys : List A)
    → (merge_entry eq copy x (y ∷ ys)).1
      ≡ (if eq y x then copy x ∷ ys else y ∷ (merge_entry eq copy x ys).1)
unfolding merge_entry list_add
merge_entry-cons eq copy x y ys = rw (list_find-cons y ys (λ z. eq z x), merge_entry) (ground arith)

-- The first entry of a name.
unfoldable pub first_named {ℓ} : {A : Type ℓ} → (A → CStr) → CStr → List A → Option A
first_named key name [] = none
first_named key name (p ∷ list) = if str_eq (key p) name then some p else first_named key name list

-- What the first layer that has a name says of it.
abbrev pub or_below {ℓ} : {A : Type ℓ} → Option A → Option A → Option A
or_below none below = below
or_below (some v) below = some v

-- The last entry of a name.
unfoldable pub last_named {ℓ} : {A : Type ℓ} → (A → CStr) → CStr → List A → Option A
last_named key name [] = none
last_named key name (p ∷ ps) =
    or_below (last_named key name ps) (if str_eq (key p) name then some p else none)

-- Entries that are compared by a name and copied as they are.
module _ {ℓ} {A : Type ℓ} (key : A → CStr) (eq : A → A → Bool) (copy : A → A)
    (same : (a b : A) → eq a b ≡ str_eq (key a) (key b)) (kept : (a : A) → copy a ≡ a) where
  merge_entry-named :
      (p q : A) (list : List A)
      → (merge_entry eq copy p (q ∷ list)).1
        ≡ (if str_eq (key q) (key p) then p ∷ list else q ∷ (merge_entry eq copy p list).1)
  merge_entry-named p q list = rw (merge_entry-cons eq copy p q list, same q p, kept p) refl

  -- Merging an entry gives its name the entry, and leaves the entries of all other names.
  first_named-merge :
      (name : CStr) (p : A) (list : List A)
      → first_named key name (merge_entry eq copy p list).1
        ≡ (if str_eq (key p) name then some p else first_named key name list)
  unfolding first_named
  first_named-merge name p [] = unfold merge_entry list_find list_add in refl
  first_named-merge name p (q ∷ list) = rw (merge_entry-named p q list) (
      ground (
        arith,
        first_named-merge name p list,
        str_eq_iff (key q) (key p),
        str_eq_iff (key q) name,
        str_eq_iff (key p) name,
      ))

  first_named-walk :
      (name : CStr) (r : ℕ) (from to : List A)
      → first_named key name (list_walk_from (merge_entry eq copy) r from to).1
        ≡ or_below (last_named key name from) (first_named key name to)
  unfolding list_walk_from last_named
  first_named-walk name r [] to = refl
  first_named-walk name r (p ∷ from) to =
      let (fr, to') = merge_entry eq copy p to in
      ground (
        arith,
        first_named-walk name (if fr == 0 then 0 else fr) from to',
        first_named-merge name p to,
      )

prop_named-walk :
    (name : CStr) (r : ℕ) (from to : List S16Property)
    → first_named (λ p. p.name) name (list_walk_from merge_prop_into_list r from to).1
      ≡ or_below (last_named (λ p. p.name) name from) (first_named (λ p. p.name) name to)
unfolding merge_prop_into_list property_names_equal
prop_named-walk name r from to =
    first_named-walk (λ p. p.name) property_names_equal property_copy (λ a b. refl) property_copy-eq
      name r from to

meth_named-walk :
    (name : CStr) (r : ℕ) (from to : List S16ServiceMethod)
    → first_named (λ m. m.name) name (list_walk_from merge_meth_into_list r from to).1
      ≡ or_below (last_named (λ m. m.name) name from) (first_named (λ m. m.name) name to)
unfolding merge_meth_into_list method_names_equal
meth_named-walk name r from to =
    first_named-walk (λ m. m.name) method_names_equal method_copy (λ a b. refl) method_copy-eq name
      r from to

-- Merging a service into the one below it: a property is what the upper service has last under its
-- name, or the lower one's if the upper has none of that name; so is a method; a default instance of
-- the upper service wins; and the instances stay those of the lower service, the upper's are left out.
pub merge_svc_into_svc_lem :
    (to from : S16Service) (name : CStr)
    → (first_named (λ p. p.name) name (merge_svc_into_svc to from).props
        ≡ or_below
            (last_named (λ p. p.name) name from.props)
            (first_named (λ p. p.name) name to.props))
      × (first_named (λ m. m.name) name (merge_svc_into_svc to from).meths
          ≡ or_below
              (last_named (λ m. m.name) name from.meths)
              (first_named (λ m. m.name) name to.meths))
      × ((merge_svc_into_svc to from).def_inst
          ≡ (elim from.def_inst [ none ↦ to.def_inst | some d ↦ some d ]))
      × ((merge_svc_into_svc to from).insts ≡ to.insts)
unfolding merge_svc_into_svc list_walk
merge_svc_into_svc_lem to from name = (
  prop_named-walk name 0 from.props to.props,
  meth_named-walk name 0 from.meths to.meths,
  refl,
  refl,
)

-- Merging an instance into a list that has one of its name changes nothing of the list: what is
-- changed is the instance given, which takes over the entries of the one in the list.
pub merge_inst_into_list_found :
    (inst : S16ServiceInstance) (list : List S16ServiceInstance) (i : ℕ)
    → list_find list (λ y. instance_names_equal y inst) ≡ some i
    → ((merge_inst_into_list inst list).1 ≡ list)
      × ((name : CStr)
          → first_named (λ p. p.name) name (merge_inst_into_list inst list).0.props
            ≡ or_below
                (last_named (λ p. p.name) name (get_or list i inst).props)
                (first_named (λ p. p.name) name inst.props))
unfolding merge_inst_into_list merge_inst_into_inst list_walk
merge_inst_into_list_found inst list i h = (
  rw (h, merge_inst_into_list),
  λ name.
      rw (h, merge_inst_into_list) (prop_named-walk name 0 (get_or list i inst).props inst.props),
)
