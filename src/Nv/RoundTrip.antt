-- ===== src/Nv/RoundTrip.antt =====
-- What usr/src/lib/s16/newrpc/struct.c writes for a value is read back as the value.
use e_com_init.Common.{
  ℕ, zero, suc, ◌+◌, ◌≤◌, ◌<◌, ◌^◌, ◌≡◌, ◌≢◌, refl, sym, ap, ◌∙◌, true, false, none, some, List, [],
  ◌∷◌, ◌++◌, append_assoc, append-nil, CStr, str_eq, str_eq_iff, str_eq_refl, take_all, Bool-cases,
  inl, inr, arith,
}
use e_com_init.Common.Conv.{value, ◌>>=◌, needed, >>=-eq-value}
use e_com_init.Common.Decimal.{decimal, decimal_injective, length-decimal}
use e_com_init.Nv.{LibNv, NvValue, nv_string, nv_bool, nv_number, nv_nvlist, nv_descriptor}
use e_com_init.Nv.Types.{
  NvType, NvFields, k_string, k_bool, k_int, k_nvlist, k_descriptor, k_struct, k_list, no_fields,
  field, CVal, CVals, c_string, c_word, c_nvlist, c_struct, c_list, no_vals, vals, vals_add, takes,
  fields_count,
}
use e_com_init.Nv.Struct.{
  index_name, serialise, struct_serialise, serialise_list, deserialise_list, member_deserialise,
  struct_deserialise, arguments_deserialise,
}

abbrev max_elements : ℕ
max_elements = 10 ^ 7

abbrev vals_size : {N : Type 0} → CVals N → ℕ
vals_size no_vals = 0
vals_size (vals x vs) = suc (vals_size vs)

abbrev pub vals_append : {N : Type 0} → CVals N → CVals N → CVals N
vals_append no_vals ws = ws
vals_append (vals x vs) ws = vals x (vals_append vs ws)

pub vals_append-add :
    {N : Type 0} (vs : CVals N) (x : CVal N) (ws : CVals N)
    → vals_append (vals_add vs x) ws ≡ vals_append vs (vals x ws)
unfolding vals_add
vals_append-add no_vals x ws = refl
vals_append-add (vals w vs) x ws = ap (λ t. vals w t) (vals_append-add vs x ws)

pub vals_append_end : {N : Type 0} (vs : CVals N) → vals_append vs no_vals ≡ vs
vals_append_end no_vals = refl
vals_append_end (vals x vs) = ap (λ t. vals x t) (vals_append_end vs)

str_eq-ne : (a b : CStr) → a ≢ b → str_eq a b ≡ false
str_eq-ne a b h = elim (Bool-cases (str_eq a b)) [
  | inl e ↦ absurd (h ((str_eq_iff a b).0 e))
  | inr e ↦ e
]

index_name_injective :
    (i j : ℕ) → i < max_elements → j < max_elements → index_name i ≡ index_name j → i ≡ j
unfolding index_name
index_name_injective i j hi hj e = decimal_injective i j (
    sym (take_all 7 (decimal i) (length-decimal i 6 hi))
    ∙ e
    ∙ take_all 7 (decimal j) (length-decimal j 6 hj))

apart : (i j : ℕ) → suc i ≤ j → i < max_elements → j < max_elements → index_name i ≢ index_name j
apart i j lo hi hj e = let same = index_name_injective i j hi hj e in omega (arith, lo, same)

-- The names of `n` elements from the index `i` on.
abbrev index_names : ℕ → ℕ → List CStr
index_names i zero = []
index_names i (suc n) = index_name i ∷ index_names (suc i) n

-- No field has the name.
abbrev pub IsNew : CStr → NvFields → Type 0
IsNew q no_fields = Unit
IsNew q (field name t fs) = (q ≢ name) × IsNew q fs

abbrev pub IsDistinct : NvFields → Type 0
IsDistinct no_fields = Unit
IsDistinct (field name t fs) = IsNew name fs × IsDistinct fs

-- A value has the type: the names of a struct's fields are distinct, a bool is 0 or 1, and a list has
-- at most 10 ^ 7 elements, none of a kind that is taken out when it is read.
unfoldable mutual
  pub IsValue : {N : Type 0} → CVal N → NvType → Type 0
  IsValue (c_string s) k_string = Unit
  IsValue (c_word n) k_bool = n < 2
  IsValue (c_word n) k_int = Unit
  IsValue (c_word n) k_descriptor = Unit
  IsValue (c_nvlist m) k_nvlist = Unit
  IsValue (c_struct vs) (k_struct fs) = IsDistinct fs × AreMembers vs fs
  IsValue (c_list vs) (k_list t) = (vals_size vs ≤ max_elements) × AreElements vs t
  IsValue _ _ = ⊥

  pub AreMembers : {N : Type 0} → CVals N → NvFields → Type 0
  AreMembers no_vals no_fields = Unit
  AreMembers (vals x vs) (field name t fs) = IsValue x t × AreMembers vs fs
  AreMembers _ _ = ⊥

  pub AreElements : {N : Type 0} → CVals N → NvType → Type 0
  AreElements no_vals t = Unit
  AreElements (vals x vs) t = (takes t ≡ false) × (IsValue x t × AreElements vs t)

module _ ⦃v : LibNv⦄ where
  open v use {Nv, create, add, find, names, find-create, find-add, names-create, names-add}

  abbrev IsAbsent : NvFields → Nv → Type 0
  IsAbsent no_fields nvl = Unit
  IsAbsent (field name t fs) nvl = (find nvl name ≡ none) × IsAbsent fs nvl

  -- Some entry is written under any name, and is read as the value wherever it is found.
  abbrev IsSent : CVal Nv → NvType → Type 0
  IsSent x t =
      (w : NvValue Nv) × ((nvl : Nv) (name : CStr)
        → serialise x t nvl name ≡ value (add nvl name w))
      × ((nvl : Nv) (name : CStr)
          → find nvl name ≡ some w
          → member_deserialise t nvl name ≡ value x)

  find-add_self :
      (nvl : Nv) (k : CStr) (w : NvValue Nv) → find nvl k ≡ none → find (add nvl k w) k ≡ some w
  find-add_self nvl k w h = find-add nvl k w k h ∙ rw (str_eq_refl k) refl

  find-add_ne :
      (nvl : Nv) (k : CStr) (w : NvValue Nv) (q : CStr)
      → find nvl k ≡ none
      → k ≢ q
      → find (add nvl k w) q ≡ find nvl q
  find-add_ne nvl k w q h ne = find-add nvl k w q h ∙ rw (str_eq-ne k q ne) refl

  create-IsAbsent : (fs : NvFields) → IsAbsent fs create
  create-IsAbsent no_fields = tt
  create-IsAbsent (field name t fs) = (find-create name, create-IsAbsent fs)

  add-IsAbsent :
      (fs : NvFields) (nvl : Nv) (k : CStr) (w : NvValue Nv)
      → find nvl k ≡ none
      → IsNew k fs
      → IsAbsent fs nvl
      → IsAbsent fs (add nvl k w)
  add-IsAbsent no_fields nvl k w h n a = tt
  add-IsAbsent (field name t fs) nvl k w h n a =
      (find-add_ne nvl k w name h n.0 ∙ a.0, add-IsAbsent fs nvl k w h n.1 a.1)

  -- From the field on: earlier entries stay, and the members are read back.
  abbrev AreSent : CVals Nv → NvFields → Nv → Type 0
  AreSent vs fs nvl =
      (nvl' : Nv) × (struct_serialise vs fs nvl ≡ value nvl')
      × ((q : CStr) → IsNew q fs → find nvl' q ≡ find nvl q)
      × (struct_deserialise fs nvl' ≡ value vs)

  -- From the index on.
  abbrev IsFrom : ℕ → CStr → Type 0
  IsFrom i q = (j : ℕ) → i ≤ j → j < max_elements → index_name j ≢ q

  abbrev AreListed : CVals Nv → NvType → Nv → ℕ → Type 0
  AreListed vs t nvl i =
      (nvl' : Nv) × (serialise_list vs t nvl i ≡ value nvl')
      × (names nvl' ≡ names nvl ++ index_names i (vals_size vs))
      × ((q : CStr) → IsFrom i q → find nvl' q ≡ find nvl q)
      × ((list : CVals Nv)
          → deserialise_list (takes t) (λ n. member_deserialise t nvl' n)
              (index_names i (vals_size vs)) list
            ≡ value (vals_append list vs))

  mutual
    unfolding serialise struct_serialise serialise_list member_deserialise struct_deserialise
        deserialise_list IsValue AreMembers AreElements

    sent : (x : CVal Nv) (t : NvType) → IsValue x t → IsSent x t
    sent (c_string s) k_string h = (nv_string s, λ nvl name. refl, λ nvl name e. rw e refl)
    sent (c_word zero) k_bool h = (nv_bool false, λ nvl name. refl, λ nvl name e. rw e refl)
    sent (c_word (suc zero)) k_bool h = (nv_bool true, λ nvl name. refl, λ nvl name e. rw e refl)
    sent (c_word (suc (suc n))) k_bool h = absurd (omega (arith, h))
    sent (c_word n) k_int h = (nv_number n, λ nvl name. refl, λ nvl name e. rw e refl)
    sent (c_word n) k_descriptor h = (nv_descriptor n, λ nvl name. refl, λ nvl name e. rw e refl)
    sent (c_nvlist m) k_nvlist h = (nv_nvlist m, λ nvl name. refl, λ nvl name e. rw e refl)
    sent (c_struct vs) (k_struct fs) h =
        let (m, made, kept, back) = members_sent vs fs create h.1 h.0 (create-IsAbsent fs) in
        (nv_nvlist m, λ nvl name. rw made refl, λ nvl name e. rw e (rw back refl))
    sent (c_list vs) (k_list t) h =
        let (m, made, listed, kept, back) =
          elements_sent vs t create 0 h.1 (omega (arith, h.0))
            (λ j lo hi. find-create (index_name j)) in
        (
          nv_nvlist m,
          λ nvl name. rw made refl,
          λ nvl name e. rw e (rw (listed, names-create, back no_vals) refl),
        )
    sent _ _ h = elim h [ ]

    members_sent :
        (vs : CVals Nv) (fs : NvFields) (nvl : Nv)
        → AreMembers vs fs
        → IsDistinct fs
        → IsAbsent fs nvl
        → AreSent vs fs nvl
    members_sent no_vals no_fields nvl h d a = (nvl, refl, λ q n. refl, refl)
    members_sent (vals x vs) (field name t fs) nvl h d a =
        let (w, made, back) = sent x t h.0 in
        let (nvl', rest, kept, read) =
          members_sent vs fs (add nvl name w) h.1 d.1 (add-IsAbsent fs nvl name w a.0 d.0 a.1) in
        let here : find nvl' name ≡ some w = kept name d.0 ∙ find-add_self nvl name w a.0 in
        (
          nvl',
          rw (made nvl name) rest,
          λ q n. kept q n.1 ∙ find-add_ne nvl name w q a.0 (λ e. n.0 (sym e)),
          rw (here, back nvl' name here, read) refl,
        )
    members_sent _ _ nvl h d a = elim h [ ]

    elements_sent :
        (vs : CVals Nv) (t : NvType) (nvl : Nv) (i : ℕ)
        → AreElements vs t
        → i + vals_size vs ≤ max_elements
        → ((j : ℕ) → i ≤ j → j < max_elements → find nvl (index_name j) ≡ none)
        → AreListed vs t nvl i
    elements_sent no_vals t nvl i h small absent =
        (nvl, refl, rw append-nil refl, λ q n. refl, λ list. ap value (sym (vals_append_end list)))
    elements_sent (vals x vs) t nvl i h small absent =
        let (w, made, back) = sent x t h.1.0 in
        let free = absent i (omega arith) (omega (arith, small)) in
        let nvl1 = add nvl (index_name i) w in
        let below : i < max_elements = omega (arith, small) in
        let (nvl', rest, listed, kept, read) =
          elements_sent vs t nvl1 (suc i) h.1.1 (omega (arith, small)) (λ j lo hi.
            find-add_ne nvl (index_name i) w (index_name j) free (λ e. apart i j lo below hi e)
            ∙ absent j (omega (arith, lo)) hi) in
        let here : find nvl' (index_name i) ≡ some w =
          kept (index_name i) (λ j lo hi e. apart i j lo below hi (sym e))
          ∙ find-add_self nvl (index_name i) w free in
        (
          nvl',
          rw (made nvl (index_name i)) rest,
          listed ∙ rw (names-add nvl (index_name i) w free, append_assoc) refl,
          λ q fr.
              kept q (λ j lo hi. fr j (omega (arith, lo)) hi)
              ∙ find-add_ne nvl (index_name i) w q free (fr i (omega arith) below),
          λ list.
              rw (back nvl' (index_name i) here, h.0)
                (read (vals_add list x) ∙ ap value (vals_append-add list x vs)),
        )

  -- A struct whose fields have distinct names is read back from its list as it was, with everything
  -- that it holds, if its members have the types of the fields, where a bool is 0 or 1, the fields of
  -- a struct inside have distinct names too, and a list has at most 10 ^ 7 elements and, unless it is
  -- empty, elements that are nested lists, structs or lists: none of strings, numbers, booleans or
  -- descriptors.
  pub struct_deserialise-struct_serialise :
      (vs : CVals Nv) (fs : NvFields)
      → IsDistinct fs
      → AreMembers vs fs
      → (struct_serialise vs fs create >>= struct_deserialise fs) ≡ value vs
  struct_deserialise-struct_serialise vs fs d h =
      let (m, made, kept, back) = members_sent vs fs create h d (create-IsAbsent fs) in rw made back

  -- A value under a name that the list does not have.
  pub serialise-IsSent :
      (x : CVal Nv) (t : NvType)
      → IsValue x t
      → (w : NvValue Nv) × ((nvl : Nv) (name : CStr)
          → serialise x t nvl name ≡ value (add nvl name w))
        × ((nvl : Nv) (name : CStr)
            → find nvl name ≡ some w
            → member_deserialise t nvl name ≡ value x)
  serialise-IsSent x t h = sent x t h

  arguments_deserialise-eq :
      (fs : NvFields) (room : ℕ) (nvl : Nv) (vs : CVals Nv)
      → fields_count fs ≤ room
      → struct_deserialise fs nvl ≡ value vs
      → arguments_deserialise fs room nvl ≡ value vs
  unfolding arguments_deserialise struct_deserialise member_deserialise fields_count
  arguments_deserialise-eq no_fields room nvl vs few h = h
  arguments_deserialise-eq (field name t fs) zero nvl vs few h = absurd (omega (arith, few))
  arguments_deserialise-eq (field name t fs) (suc room) nvl vs few h =
      let (w, here, rest) = >>=-eq-value (needed (find nvl name)) _ h in
      let (x, member, rest') = >>=-eq-value (member_deserialise t nvl name) _ rest in
      let (ws, others, last) = >>=-eq-value (struct_deserialise fs nvl) _ rest' in
      rw (member, arguments_deserialise-eq fs room nvl ws (omega (arith, few)) others) last

  -- Arguments are written as a struct is and read back.
  pub arguments_sent :
      (vs : CVals Nv) (fs : NvFields) (room : ℕ)
      → fields_count fs ≤ room
      → IsDistinct fs
      → AreMembers vs fs
      → (m : Nv) × (struct_serialise vs fs create ≡ value m)
        × (arguments_deserialise fs room m ≡ value vs)
  arguments_sent vs fs room few d h =
      let (m, made, kept, back) = members_sent vs fs create h d (create-IsAbsent fs) in
      (m, made, arguments_deserialise-eq fs room m vs few back)
