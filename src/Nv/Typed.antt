-- ===== src/Nv/Typed.antt =====
-- What usr/src/lib/s16/newrpc/struct.c reads is what the list has, in entries of the declared kinds.
use e_com_init.Common.{
  ℕ, zero, suc, ◌≤◌, arith, ◌≡◌, refl, sym, ◌∙◌, subst, Bool, true, false, Option, none, some, List,
  [], ◌∷◌, CStr, if◌then◌else◌,
}
use e_com_init.Common.Conv.{Gives, Gives->>=, Gives-map, Gives-any, Conv, value, needed}
use e_com_init.Nv.{LibNv, NvValue, nv_string, nv_bool, nv_number, nv_nvlist, nv_descriptor}
use e_com_init.Nv.Types.{
  NvType, NvFields, k_string, k_bool, k_int, k_nvlist, k_descriptor, k_struct, k_list, no_fields,
  field, CVal, CVals, c_string, c_word, c_nvlist, c_struct, c_list, no_vals, vals, vals_add, takes,
  fields_count,
}
use e_com_init.Nv.Struct.{
  take_string, take_bool, take_number, take_descriptor, get_member_nvlist, get_nvlist,
  deserialise_list, member_deserialise, struct_deserialise, arguments_deserialise,
}
use e_com_init.Nv.RoundTrip.{vals_append, vals_append-add, vals_append_end}

module _ ⦃v : LibNv⦄ where
  open v use {Nv, find, names}

  -- A value is what an entry of the kind of its type holds: a bool is 0 or 1, a struct has a member for
  -- each field, read from the entry of the field's name in the nested list, and a list has an element
  -- for each name of the nested list, in order.
  unfoldable mutual
    pub IsReadFrom : CVal Nv → NvType → Option (NvValue Nv) → Type 0
    IsReadFrom (c_string s) k_string o = o ≡ some (nv_string s)
    IsReadFrom (c_word n) k_bool o =
        (b : Bool) × (o ≡ some (nv_bool b)) × (n ≡ (if b then 1 else 0))
    IsReadFrom (c_word n) k_int o = o ≡ some (nv_number n)
    IsReadFrom (c_word n) k_descriptor o = o ≡ some (nv_descriptor n)
    IsReadFrom (c_nvlist m) k_nvlist o = o ≡ some (nv_nvlist m)
    IsReadFrom (c_struct vs) (k_struct fs) o =
        (m : Nv) × (o ≡ some (nv_nvlist m)) × AreReadFrom vs fs m
    IsReadFrom (c_list vs) (k_list t) o =
        (m : Nv) × (o ≡ some (nv_nvlist m)) × AreListedIn vs t m (names m)
    IsReadFrom _ _ o = ⊥

    pub AreReadFrom : CVals Nv → NvFields → Nv → Type 0
    AreReadFrom no_vals no_fields m = Unit
    AreReadFrom (vals x vs) (field name t fs) m = IsReadFrom x t (find m name) × AreReadFrom vs fs m
    AreReadFrom _ _ m = ⊥

    pub AreListedIn : CVals Nv → NvType → Nv → List CStr → Type 0
    AreListedIn no_vals t m [] = Unit
    AreListedIn (vals x vs) t m (n ∷ ns) = IsReadFrom x t (find m n) × AreListedIn vs t m ns
    AreListedIn _ t m _ = ⊥

  take_string-IsReadFrom :
      (o : Option (NvValue Nv)) → Gives (λ x. IsReadFrom x k_string o) (take_string o)
  unfolding take_string IsReadFrom
  take_string-IsReadFrom (some (nv_string s)) = refl
  take_string-IsReadFrom none = tt
  take_string-IsReadFrom (some _) = tt

  take_bool-IsReadFrom :
      (o : Option (NvValue Nv)) → Gives (λ x. IsReadFrom x k_bool o) (take_bool o)
  unfolding take_bool IsReadFrom
  take_bool-IsReadFrom (some (nv_bool b)) = (b, refl, refl)
  take_bool-IsReadFrom none = tt
  take_bool-IsReadFrom (some _) = tt

  take_number-IsReadFrom :
      (o : Option (NvValue Nv)) → Gives (λ x. IsReadFrom x k_int o) (take_number o)
  unfolding take_number IsReadFrom
  take_number-IsReadFrom (some (nv_number n)) = refl
  take_number-IsReadFrom none = tt
  take_number-IsReadFrom (some _) = tt

  take_descriptor-IsReadFrom :
      (o : Option (NvValue Nv)) → Gives (λ x. IsReadFrom x k_descriptor o) (take_descriptor o)
  unfolding take_descriptor IsReadFrom
  take_descriptor-IsReadFrom (some (nv_descriptor n)) = refl
  take_descriptor-IsReadFrom none = tt
  take_descriptor-IsReadFrom (some _) = tt

  get_member_nvlist-IsReadFrom :
      (o : Option (NvValue Nv)) → Gives (λ x. IsReadFrom x k_nvlist o) (get_member_nvlist o)
  unfolding get_member_nvlist IsReadFrom
  get_member_nvlist-IsReadFrom (some (nv_nvlist m)) = refl
  get_member_nvlist-IsReadFrom none = tt
  get_member_nvlist-IsReadFrom (some _) = tt

  get_nvlist_lem : (o : Option (NvValue Nv)) → Gives (λ m. o ≡ some (nv_nvlist m)) (get_nvlist o)
  unfolding get_nvlist
  get_nvlist_lem (some (nv_nvlist m)) = refl
  get_nvlist_lem none = tt
  get_nvlist_lem (some _) = tt

  -- What the loop adds to the list are the elements of the names that are left.
  deserialise_list-AreListedIn :
      (taken : Bool) (member : CStr → Conv (CVal Nv)) (t : NvType) (m : Nv) (ns : List CStr)
      (list : CVals Nv)
      → ((n : CStr) → Gives (λ x. IsReadFrom x t (find m n)) (member n))
      → Gives
          (λ ws. (vs : CVals Nv) × (ws ≡ vals_append list vs) × AreListedIn vs t m ns)
          (deserialise_list taken member ns list)
  unfolding deserialise_list AreListedIn
  deserialise_list-AreListedIn taken member t m [] list h =
      (no_vals, sym (vals_append_end list), tt)
  deserialise_list-AreListedIn true member t m (name ∷ ns) list h =
      Gives->>= _ _ (member name) _ (h name) (λ x _. tt)
  deserialise_list-AreListedIn false member t m (name ∷ ns) list h =
      Gives->>= _ _ (member name) _ (h name) (λ x read.
        Gives-map _ _ (deserialise_list false member ns (vals_add list x))
          (deserialise_list-AreListedIn false member t m ns (vals_add list x) h)
          (λ ws rest. (vals x rest.0, rest.1 ∙ vals_append-add list x rest.0, (read, rest.2))))

  mutual
    unfolding member_deserialise struct_deserialise IsReadFrom AreReadFrom AreListedIn

    member_read :
        (t : NvType) (nvl : Nv) (name : CStr)
        → Gives (λ x. IsReadFrom x t (find nvl name)) (member_deserialise t nvl name)
    member_read k_string nvl name = take_string-IsReadFrom (find nvl name)
    member_read k_bool nvl name = take_bool-IsReadFrom (find nvl name)
    member_read k_int nvl name = take_number-IsReadFrom (find nvl name)
    member_read k_nvlist nvl name = get_member_nvlist-IsReadFrom (find nvl name)
    member_read k_descriptor nvl name = take_descriptor-IsReadFrom (find nvl name)
    member_read (k_struct fs) nvl name =
        Gives->>= _ _ (get_nvlist (find nvl name)) _ (get_nvlist_lem (find nvl name)) (λ m there.
          Gives->>= _ _ (struct_deserialise fs m) _ (members_read fs m)
            (λ vs read. (m, there, read)))
    member_read (k_list t) nvl name =
        Gives->>= _ _ (get_nvlist (find nvl name)) _ (get_nvlist_lem (find nvl name)) (λ m there.
          Gives->>= _ _
            (deserialise_list (takes t) (λ n. member_deserialise t m n) (names m) no_vals) _
            (deserialise_list-AreListedIn (takes t) (λ n. member_deserialise t m n) t m (names m)
              no_vals (λ n. member_read t m n))
            (λ ws read. (m, there, subst (λ us. AreListedIn us t m (names m)) (sym read.1) read.2)))

    members_read :
        (fs : NvFields) (nvl : Nv) → Gives (λ vs. AreReadFrom vs fs nvl) (struct_deserialise fs nvl)
    members_read no_fields nvl = tt
    members_read (field name t fs) nvl =
        Gives->>= _ _ (needed (find nvl name)) _ (Gives-any _) (λ here _.
          Gives->>= _ _ (member_deserialise t nvl name) _ (member_read t nvl name) (λ x read.
            Gives->>= _ _ (struct_deserialise fs nvl) _ (members_read fs nvl)
              (λ vs rest. (read, rest))))

  arguments_read :
      (fs : NvFields) (room : ℕ) (nvl : Nv)
      → Gives
          (λ vs. AreReadFrom vs fs nvl × (fields_count fs ≤ room))
          (arguments_deserialise fs room nvl)
  unfolding arguments_deserialise AreReadFrom fields_count
  arguments_read no_fields room nvl = (tt, omega arith)
  arguments_read (field name t fs) zero nvl =
      Gives->>= _ _ (member_deserialise t nvl name) _ (Gives-any _) (λ x any. tt)
  arguments_read (field name t fs) (suc room) nvl =
      Gives->>= _ _ (member_deserialise t nvl name) _ (member_read t nvl name) (λ x read.
        Gives->>= _ _ (arguments_deserialise fs room nvl) _ (arguments_read fs room nvl)
          (λ vs rest. ((read, rest.0), omega (arith, rest.1))))

  -- Whatever list a request has as its params: if the arguments of a method are read from it, there is
  -- one for each parameter, and each is what the entry of the parameter's name holds, which is of the
  -- kind that the parameter declares, all the way down: a number is read from a number, a descriptor
  -- from a descriptor, the members of a struct and the elements of a list from a nested list. There are
  -- no more parameters than the array for them has room for.
  pub arguments_deserialise-AreReadFrom :
      (fs : NvFields) (room : ℕ) (nvl : Nv) (vs : CVals Nv)
      → arguments_deserialise fs room nvl ≡ value vs
      → AreReadFrom vs fs nvl × (fields_count fs ≤ room)
  arguments_deserialise-AreReadFrom fs room nvl vs e =
      subst (Gives (λ ws. AreReadFrom ws fs nvl × (fields_count fs ≤ room))) e
        (arguments_read fs room nvl)
