-- ===== src/PBus/Receivers.antt =====
-- Which object receives a message of usr/src/lib/PBus/PBusObject.c.
use e_com_init.Common.{
  ℕ, zero, suc, ◌+◌, ◌≤◌, ◌<◌, ◌≡◌, ◌≢◌, refl, ◌⊎◌, inl, inr, Option, none, some, List, [], ◌∷◌,
  CStr, length, All, arith,
}
use e_com_init.Common.Conv.{Conv, value, null, stopped, not_in_enum}
use e_com_init.Nv.{LibNv}
use e_com_init.PBus.{
  PBusObject, is_a, sub_objects, find_object, PBusContext, path_elements, PBusClass, Resolved,
  dispatch_message, go_on, go_on_resolved, find_receiver, root_context, find_receiver_root,
}
use e_com_init.PBus.Paths.{IsElement, path_of, path_elements-path_of, length-path_elements}

abbrev onward :
    {C : Type 0}
    → (PBusObject C → Option (PBusObject C))
    → Option (PBusObject C)
    → Option (PBusObject C)
onward next none = none
onward next (some o) = next o

-- The object that a path of names leads to in the tree.
abbrev pub object_at : {C : Type 0} → PBusObject C → List CStr → Option (PBusObject C)
object_at self [] = some self
object_at self (next ∷ rest) = onward (λ o. object_at o rest) (find_object (sub_objects self) next)

abbrev pub last_element : Option CStr → List CStr → Option CStr
last_element name [] = name
last_element name (next ∷ rest) = last_element (some next) rest

option-cases : {A : Type 0} (o : Option A) → (o ≡ none) ⊎ ((a : A) × (o ≡ some a))
option-cases none = inl refl
option-cases (some a) = inr (a, refl)

module _ ⦃v : LibNv⦄ {C U S : Type 0} (classes : C → PBusClass C U S) where
  open v use {Nv}

  -- What an object at the end of a path makes of a message, or NULL where there is none.
  abbrev pub delivered : Option (PBusObject C) → PBusContext U → Nv → S → Conv (Option Nv × S)
  delivered none ctx params s = value (none, s)
  delivered (some o) ctx params s = dispatch_message classes o ctx params s

  -- No class resolves its sub-objects itself.
  abbrev pub HasPlainClasses : Type 0
  HasPlainClasses = (c : C) → (classes c).resolve_sub_object ≡ none

  find_receiver-delivered :
      (n : ℕ) (self : PBusObject C) (ctx : PBusContext U) (path : CStr) (rest : List CStr)
      (params : Nv) (s : S)
      → HasPlainClasses
      → length rest < n
      → find_receiver classes n self ctx path rest params s
        ≡ some (
            delivered
              (object_at self rest)
              (record ctx { self_path = last_element ctx.self_path rest })
              params
              s)
  unfolding find_receiver go_on
  find_receiver-delivered zero self ctx path rest params s plain enough = absurd (omega arith)
  find_receiver-delivered (suc n) self ctx path [] params s plain enough = refl
  find_receiver-delivered (suc n) self ctx path (next ∷ rest) params s plain enough =
      elim (option-cases (find_object (sub_objects self) next)) [
        | inl e ↦ rw (find_receiver, plain (is_a self), e) refl
        | inr (o, e) ↦
            rw (find_receiver, plain (is_a self), e)
              (find_receiver-delivered n o (record ctx { self_path = some next }) path rest params s
                plain (omega arith))
      ]

  -- Where no class resolves its sub-objects itself, a message to the path of names, none of them empty or
  -- with a slash, is dispatched by the object that the names lead to from the root, one sub-object
  -- after the other, and has no answer if they lead to none; a bound above the number of names is enough.
  pub find_receiver_root-delivered :
      (n : ℕ) (root : PBusObject C) (names : List CStr) (from_busname : Option CStr)
      (selector : CStr) (params : Nv) (s : S)
      → HasPlainClasses
      → All IsElement names
      → length names < n
      → find_receiver_root classes n root (some (path_of names)) from_busname selector params s
        ≡ some (
            delivered
              (object_at root names)
              (record (root_context classes (some (path_of names)) from_busname selector) {
                self_path = last_element none names;
              })
              params
              s)
  unfolding find_receiver_root
  find_receiver_root-delivered n root names from_busname selector params s plain elements enough =
      rw (path_elements-path_of names elements)
        (find_receiver-delivered n root _ _ names params s plain enough)

  -- A class that resolves a sub-object leaves no more path than it was given.
  abbrev pub IsShortening : Type 0
  IsShortening =
      (c : C) (self : PBusObject C) (user : Option U) (path next : CStr) (rest : List CStr)
      (selector : CStr) (s : S)
      (resolve : PBusObject C
        → Option U
        → CStr
        → CStr
        → List CStr
        → CStr
        → S
        → Conv (Resolved C U S))
      (o : PBusObject C) (user' : Option U) (rest' : List CStr) (s' : S)
      → (classes c).resolve_sub_object ≡ some resolve
      → resolve self user path next rest selector s ≡ value (some o, user', rest', s')
      → length rest' ≤ length rest

  go_on-ends :
      (next : PBusObject C → Option (Conv (Option Nv × S))) (s : S) (found : Option (PBusObject C))
      → ((o : PBusObject C) → next o ≢ none)
      → go_on classes next s found ≢ none
  unfolding go_on
  go_on-ends next s none h = λ e. cc
  go_on-ends next s (some o) h = h o

  go_on_resolved-ends :
      (next : PBusObject C → Option U → List CStr → S → Option (Conv (Option Nv × S)))
      (got : Conv (Resolved C U S))
      → ((o : PBusObject C) (user : Option U) (rest : List CStr) (s : S)
          → got ≡ value (some o, user, rest, s)
          → next o user rest s ≢ none)
      → go_on_resolved classes next got ≢ none
  unfolding go_on_resolved
  go_on_resolved-ends next (value (none, user, rest, s)) h = λ e. cc
  go_on_resolved-ends next (value (some o, user, rest, s)) h = h o user rest s refl
  go_on_resolved-ends next null h = λ e. cc
  go_on_resolved-ends next stopped h = λ e. cc
  go_on_resolved-ends next not_in_enum h = λ e. cc

  find_receiver-ends :
      (n : ℕ) (self : PBusObject C) (ctx : PBusContext U) (path : CStr) (rest : List CStr)
      (params : Nv) (s : S)
      → IsShortening
      → length rest < n
      → find_receiver classes n self ctx path rest params s ≢ none
  unfolding find_receiver
  find_receiver-ends zero self ctx path rest params s short enough = absurd (omega arith)
  find_receiver-ends (suc n) self ctx path [] params s short enough = λ e. cc
  find_receiver-ends (suc n) self ctx path (next ∷ rest) params s short enough =
      elim (option-cases (classes (is_a self)).resolve_sub_object) [
        | inl e ↦
            rw (find_receiver, e)
              (go_on-ends _ s _
                (λ o. find_receiver-ends n o _ path rest params s short (omega arith)))
        | inr (resolve, e) ↦
            rw (find_receiver, e)
              (go_on_resolved-ends _ _ (λ o user rest' s' got.
                let shorter =
                  short (is_a self) self ctx.user path next rest ctx.selector s resolve o user rest'
                    s' e got in
                find_receiver-ends n o _ path rest' params s' short (omega (arith, shorter))))
      ]

  -- If no class lengthens the path that remains, the search for a receiver ends, whatever the path and
  -- whatever the classes resolve: a bound of two more than the length of the path is enough.
  pub find_receiver_root_ends :
      (n : ℕ) (root : PBusObject C) (path from_busname : Option CStr) (selector : CStr)
      (params : Nv) (s : S)
      → IsShortening
      → ((p : CStr) → path ≡ some p → length p + 1 < n)
      → find_receiver_root classes n root path from_busname selector params s ≢ none
  unfolding find_receiver_root
  find_receiver_root_ends n root none from_busname selector params s short enough = λ e. cc
  find_receiver_root_ends n root (some p) from_busname selector params s short enough =
      find_receiver-ends n root _ p (path_elements p) params s short
        (omega (arith, enough p refl, length-path_elements p))
