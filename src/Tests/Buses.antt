-- ===== src/Tests/Buses.antt =====
-- Messages to an object under the root, over the libnv of `NvCalls`.
use e_com_init.Common.{
  str_eq, ℕ, zero, suc, ◌+◌, ◌≤◌, ◌<◌, ◌≡◌, ◌≢◌, refl, ap, subst, ◌∙◌, false, Option, none, some,
  List, [], ◌∷◌, CStr, codes, length, All, arith,
}
use e_com_init.Common.Conv.{Conv, value}
use e_com_init.Nv.Types.{k_int, no_fields, c_word, fields_count}
use e_com_init.PBus.{
  PBusObject, object, no_objects, objects, PBusMethod, PBusClass, Resolved, find_receiver_root,
  root_context,
}
use e_com_init.PBus.Paths.{IsElement, path_of}
use e_com_init.PBus.Receivers.{
  object_at, delivered, last_element, HasPlainClasses, IsShortening, find_receiver_root-delivered,
  find_receiver_root_ends,
}
use e_com_init.Tests.NvCalls.{Tree, tree_nv, t_empty, t_number}

-- A method that counts its calls.
abbrev count : PBusMethod ℕ ℕ ℕ
count = record {
  sig = record { name = codes "count"; rtype = k_int; nargs = 0; args = no_fields };
  raw = false;
  fun = λ self ctx params s. value (some (c_word (suc s)), suc s);
}

abbrev plain : ℕ → PBusClass ℕ ℕ ℕ
plain c = record { resolve_sub_object = none; dispatch_message = none; methods = count ∷ [] }

abbrev disks : PBusObject ℕ
disks = object 0 (codes "disks") (objects (object 0 (codes "sd0") no_objects) no_objects)

abbrev root : PBusObject ℕ
root = object 0 [] (objects disks no_objects)

abbrev names : List CStr
names = codes "disks" ∷ codes "sd0" ∷ []

names-AreElements : All IsElement names
names-AreElements = ((λ e. cc, ground arith), ((λ e. cc, ground arith), tt))

plain-HasPlainClasses : HasPlainClasses plain
plain-HasPlainClasses c = refl

find_receiver_root-delivered_example :
    find_receiver_root plain 3 root (some (path_of names)) none (codes "count") t_empty 7
    ≡ some (
        delivered plain
          (object_at root names)
          (record (root_context plain (some (path_of names)) none (codes "count")) {
            self_path = last_element none names;
          })
          t_empty
          7)
find_receiver_root-delivered_example =
    find_receiver_root-delivered plain 3 root names none (codes "count") t_empty 7
      plain-HasPlainClasses names-AreElements (omega arith)

-- A class that resolves every element to the same object.
abbrev to_disks :
    PBusObject ℕ → Option ℕ → CStr → CStr → List CStr → CStr → ℕ → Conv (Resolved ℕ ℕ ℕ)
to_disks self user path next rest selector s = value (some disks, some 1, rest, s)

abbrev mixed : ℕ → PBusClass ℕ ℕ ℕ
mixed zero = plain zero
mixed (suc c) = record { resolve_sub_object = some to_disks; dispatch_message = none; methods = [] }

abbrev rest_of : Conv (Resolved ℕ ℕ ℕ) → List CStr
rest_of (value (o, user, rest, s)) = rest
rest_of _ = []

mixed-IsShortening : IsShortening mixed
mixed-IsShortening zero self user path next rest selector s resolve o user' rest' s' e got =
    absurd (cc e)
mixed-IsShortening (suc c) self user path next rest selector s resolve o user' rest' s' e got =
    let same : to_disks ≡ resolve = cc in
    let kept : rest ≡ rest' =
      ap (λ f. rest_of (f self user path next rest selector s)) same ∙ ap rest_of got in
    subst (λ r. length r ≤ length rest) kept (omega arith)

short_path : (p : CStr) → some (codes "/a/sd0") ≡ some p → length p + 1 < 9
short_path p e =
    let same : codes "/a/sd0" ≡ p = cc in subst (λ q. length q + 1 < 9) same (omega arith)

find_receiver_root_ends_example :
    ◌≢◌ {A = Option (Conv (Option Tree × ℕ))}
      (find_receiver_root mixed 9
        (object 1 [] no_objects)
        (some (codes "/a/sd0"))
        none
        (codes "count")
        t_empty
        7)
      none
find_receiver_root_ends_example =
    find_receiver_root_ends mixed 9 (object 1 [] no_objects) (some (codes "/a/sd0")) none
      (codes "count") t_empty 7 mixed-IsShortening short_path

counted :
    find_receiver_root mixed 9
      (object 1 [] no_objects)
      (some (codes "/a/sd0"))
      none
      (codes "count")
      t_empty
      7
    ≡ some (value (some (t_number t_empty (codes "result") 8), 8))
unfolding find_receiver_root str_eq fields_count
counted = refl
