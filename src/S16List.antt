-- ===== src/S16List.antt =====
-- The singly linked list of usr/src/lib/s16/hdr/S16/List.h (the macro S16ListType), as the sequence
-- of the values of its nodes. An iterator is the position of its node; NULL is `none`.
use e_com_init.Common.{
  ℕ, zero, suc, ◌+◌, Bool, true, false, Option, none, some, List, [], ◌∷◌, if◌then◌else◌, ◌==◌,
}
pub mod Laws

module _ {ℓ} {A : Type ℓ} where
  -- Walks to the last node and links the new one behind it.
  unfoldable pub list_add : List A → A → List A
  list_add [] x = x ∷ []
  list_add (y ∷ n) x = y ∷ list_add n x

  unfoldable pub list_lpush : List A → A → List A
  list_lpush n x = x ∷ n

  -- The first value, and the list without it; 0 on an empty list.
  unfoldable pub list_lpop : List A → Option A × List A
  list_lpop [] = (none, [])
  list_lpop (x ∷ n) = (some x, n)

  unfoldable pub list_lget : List A → Option A
  list_lget [] = none
  list_lget (x ∷ n) = some x

  unfoldable pub list_empty : List A → Bool
  list_empty [] = true
  list_empty (x ∷ n) = false

  unfoldable pub list_size : List A → ℕ
  list_size [] = 0
  list_size (x ∷ n) = list_size n + 1

  -- The loop of list_find, with the number of nodes passed.
  unfoldable pub find_from : ℕ → (A → Bool) → List A → Option ℕ
  find_from k fun [] = none
  find_from k fun (x ∷ n) = if fun x then some k else find_from (suc k) fun n

  unfoldable pub list_find : List A → (A → Bool) → Option ℕ
  unfolding find_from
  list_find n fun = find_from 0 fun n

  -- list_it_val: the value of the node.
  unfoldable pub list_it_val : List A → Option ℕ → Option A
  list_it_val n none = none
  list_it_val [] (some i) = none
  list_it_val (x ∷ n) (some zero) = some x
  list_it_val (x ∷ n) (some (suc i)) = list_it_val n (some i)

  -- `==` on the values is that of C: pointers or integers.
  module _ (eq : A → A → Bool) where
    unfoldable pub list_find_eq : List A → A → Option ℕ
    unfolding list_find
    list_find_eq n x = list_find n (λ y. eq y x)

    unfoldable pub list_add_if_absent : List A → A → List A
    unfolding list_find_eq list_add
    list_add_if_absent n x = elim (list_find_eq n x) [ none ↦ list_add n x | some i ↦ n ]

    -- Unlinks the first node that holds the value.
    unfoldable pub list_del : List A → A → List A
    list_del [] x = []
    list_del (y ∷ n) x = if eq y x then n else y ∷ list_del n x

module _ {ℓ κ} {A : Type ℓ} {B : Type κ} where
  unfoldable pub list_map_from : (A → B) → List B → List A → List B
  unfolding list_add
  list_map_from fun out [] = out
  list_map_from fun out (x ∷ n) = list_map_from fun (list_add out (fun x)) n

  -- The copy is built by list_add.
  unfoldable pub list_map : List A → (A → B) → List B
  unfolding list_map_from
  list_map n fun = list_map_from fun [] n

  -- list_walk over a function that changes a state; the code of the last call is returned.
  unfoldable pub list_walk_from : (A → B → ℕ × B) → ℕ → List A → B → ℕ × B
  list_walk_from fun r [] s = (r, s)
  list_walk_from fun r (x ∷ n) s =
      let (fr, s') = fun x s in list_walk_from fun (if fr == 0 then 0 else fr) n s'

  unfoldable pub list_walk : (A → B → ℕ × B) → List A → B → ℕ × B
  unfolding list_walk_from
  list_walk fun n s = list_walk_from fun 0 n s
