-- ===== src/S16List/Laws.antt =====
-- What the list operations of S16/List.h promise: a queue by list_add and list_lpop, the first
-- match by list_find, one node less by list_del, and an element by element copy by list_map.
use mathlib.Core.List.{append_assoc, append-nil}
use e_com_init.Common.{
  ℕ, suc, Option, if◌then◌else◌, suc, ◌+◌, ◌-◌, ◌≤◌, ◌<◌, ◌≡◌, ◌⊎◌, inl, inr, refl, ap, Bool, true,
  false, none, some, List, [], ◌∷◌, ◌++◌, map, if◌then◌else◌, ◌==◌, arith, length, get_or, All,
  Bool-cases,
}
use e_com_init.S16List.{
  list_add, list_lpush, list_lpop, list_size, find_from, list_find, list_del, list_map_from,
  list_map, list_walk_from, list_walk,
}

module _ {ℓ} {A : Type ℓ} where
  pub list_add-eq-append : (n : List A) (x : A) → list_add n x ≡ n ++ x ∷ []
  unfolding list_add
  list_add-eq-append [] x = refl
  list_add-eq-append (y ∷ n) x = ap (λ t. y ∷ t) (list_add-eq-append n x)

  pub list_size-eq-length : (n : List A) → list_size n ≡ length n
  unfolding list_size
  list_size-eq-length [] = refl
  list_size-eq-length (x ∷ n) = omega (arith, list_size-eq-length n)

  -- list_lpop undoes list_lpush, and behind a list that is not empty list_add and list_lpop commute:
  -- values leave in the order in which list_add brought them.
  pub lpop-add-lpush :
      (n : List A) (x y : A)
      → (list_lpop (list_lpush n x) ≡ (some x, n))
        × (list_lpop (list_add (x ∷ n) y) ≡ (some x, list_add n y))
        × (list_lpop (list_add [] y) ≡ (some y, []))
  unfolding list_lpop list_lpush list_add
  lpop-add-lpush n x y = (refl, refl, refl)

  pub find_from-some :
      (k : ℕ) (fun : A → Bool) (n : List A) (i : ℕ) (d : A)
      → find_from k fun n ≡ some i
      → (k ≤ i) × (i < k + length n) × (fun (get_or n (i - k) d) ≡ true)
  unfolding find_from
  find_from-some k fun [] i d h = cc
  find_from-some k fun (x ∷ n) i d h = elim (Bool-cases (fun x)) [
    | inl e ↦ ground arith
    | inr e ↦
        let (lo, hi, hit) = find_from-some (suc k) fun n i d (ground arith) in
        let p : i - k ≡ suc (i - suc k) = omega arith in (omega arith, omega arith, rw p hit)
  ]

  -- A position that list_find returns is in the list and holds a match.
  pub list_find-some :
      (n : List A) (fun : A → Bool) (i : ℕ) (d : A)
      → list_find n fun ≡ some i
      → (i < length n) × (fun (get_or n i d) ≡ true)
  unfolding list_find
  list_find-some n fun i d h =
      let (lo, hi, hit) = find_from-some 0 fun n i d h in
      let p : i - 0 ≡ i = omega arith in (omega arith, rw p at hit)

  pub find_from-none :
      (k : ℕ) (fun : A → Bool) (n : List A) → find_from k fun n ≡ none → All (λ x. fun x ≡ false) n
  unfolding find_from
  find_from-none k fun [] h = tt
  find_from-none k fun (x ∷ n) h = elim (Bool-cases (fun x)) [
    | inl e ↦ absurd (ground arith)
    | inr e ↦ (e, find_from-none (suc k) fun n (ground arith))
  ]

  pub list_find-none :
      (n : List A) (fun : A → Bool) → list_find n fun ≡ none → All (λ x. fun x ≡ false) n
  unfolding list_find
  list_find-none n fun h = find_from-none 0 fun n h

  -- list_del unlinks the first node that equals the value, and leaves a list without one alone.
  pub list_del_split :
      (eq : A → A → Bool) (n : List A) (x : A)
      → All (λ y. eq y x ≡ false) n × (list_del eq n x ≡ n)
        ⊎ ((pre : List A) × (y : A) × (post : List A) × (n ≡ pre ++ y ∷ post)
            × (eq y x ≡ true)
            × All (λ z. eq z x ≡ false) pre
            × (list_del eq n x ≡ pre ++ post))
  unfolding list_del
  list_del_split eq [] x = inl (tt, refl)
  list_del_split eq (y ∷ n) x = elim (Bool-cases (eq y x)) [
    | inl e ↦ inr ([], y, n, refl, e, tt, rw e)
    | inr e ↦ elim (list_del_split eq n x) [
      | inl (none_of, same) ↦ inl ((e, none_of), rw e (ap (λ t. y ∷ t) same))
      | inr (pre, z, post, split, hit, miss, rest) ↦
          inr (y ∷ pre, z, post, ap (λ t. y ∷ t) split, hit, (e, miss), rw e (ap (λ t. y ∷ t) rest))
    ]
  ]

module _ {ℓ κ} {A : Type ℓ} {B : Type κ} where
  list_map_from-eq-append :
      (fun : A → B) (out : List B) (n : List A) → list_map_from fun out n ≡ out ++ map fun n
  unfolding list_map_from
  list_map_from-eq-append fun out [] = rw append-nil
  list_map_from-eq-append fun out (x ∷ n) =
      rw (list_map_from-eq-append fun (list_add out (fun x)) n, list_add-eq-append, append_assoc)

  -- list_map copies element by element and keeps the order.
  pub list_map-eq-map : (n : List A) (fun : A → B) → list_map n fun ≡ map fun n
  unfolding list_map
  list_map-eq-map n fun = list_map_from-eq-append fun [] n

  pub list_walk_from-append :
      (fun : A → B → ℕ × B) (r : ℕ) (n : List A) (x : A) (s : B)
      → list_walk_from fun r (n ++ x ∷ []) s ≡ fun x (list_walk_from fun r n s).1
  unfolding list_walk_from
  list_walk_from-append fun r [] x s = ground arith
  list_walk_from-append fun r (y ∷ n) x s =
      let (fr, s') = fun y s in list_walk_from-append fun (if fr == 0 then 0 else fr) n x s'

  -- list_walk calls the function on the values in order and returns what its last call returned.
  pub list_walk-append :
      (fun : A → B → ℕ × B) (n : List A) (x : A) (s : B)
      → list_walk fun (n ++ x ∷ []) s ≡ fun x (list_walk fun n s).1
  unfolding list_walk
  list_walk-append fun n x s = list_walk_from-append fun 0 n x s

-- A position one further on.
abbrev pub shift_some : Option ℕ → Option ℕ
shift_some none = none
shift_some (some i) = some (suc i)

module _ {ℓ} {A : Type ℓ} where
  pub find_from-suc :
      (k : ℕ) (fun : A → Bool) (n : List A)
      → find_from (suc k) fun n ≡ shift_some (find_from k fun n)
  unfolding find_from
  find_from-suc k fun [] = refl
  find_from-suc k fun (x ∷ n) = ground (arith, find_from-suc (suc k) fun n)

  pub list_find-cons :
      (x : A) (n : List A) (fun : A → Bool)
      → list_find (x ∷ n) fun ≡ (if fun x then some 0 else shift_some (list_find n fun))
  unfolding list_find find_from
  list_find-cons x n fun = ground (arith, find_from-suc 0 fun n)
