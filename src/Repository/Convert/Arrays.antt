-- ===== src/Repository/Convert/Arrays.antt =====
-- A list that is appended to an array one object at a time, and read back one object at a time.
use e_com_init.Common.{
  ◌≡◌, refl, ◌∙◌, Option, none, some, List, [], ◌∷◌, ◌++◌, map, All, append_assoc, append-nil,
  Option-cases, inl, inr,
}
use e_com_init.S16List.Laws.{list_add-eq-append}
use e_com_init.Ucl.{LibUcl, ucl_array}
use e_com_init.Repository.Convert.{Conv, value, null}
use e_com_init.Repository.Convert.Write.{append_each}
use e_com_init.Repository.Convert.Read.{add_each, add_all}

abbrev pub kept {ℓ} : {A : Type ℓ} → Option A → Conv A
kept none = null
kept (some x) = value x

-- The elements of which something is kept, as it is kept.
abbrev pub keep_some {ℓ} : {A : Type ℓ} → (A → Option A) → List A → List A
keep_some keep [] = []
keep_some keep (x ∷ xs) = elim (keep x) [
  | none ↦ keep_some keep xs
  | some y ↦ y ∷ keep_some keep xs
]

module _ ⦃u : LibUcl⦄ {A : Type 0} (to_ucl : A → Conv u.Obj) (from_ucl : u.Obj → Conv A)
    (keep : A → Option A) where
  open u use {
    Obj, type, typed_array, items, array_append, type-typed_array, type-array_append,
    items-typed_array, items-array_append,
  }

  -- An element is written, and reads as what is kept of it.
  abbrev pub IsReadBack : A → Type 0
  IsReadBack x = (o : Obj) × (to_ucl x ≡ value o) × (from_ucl o ≡ kept (keep x))

  abbrev Reads : List Obj → List A → Type 0
  Reads [] [] = Unit
  Reads [] (x ∷ xs) = ⊥
  Reads (o ∷ os) [] = ⊥
  Reads (o ∷ os) (x ∷ xs) = (from_ucl o ≡ kept (keep x)) × Reads os xs

  add_each-Reads :
      (os : List Obj) (xs list : List A)
      → Reads os xs
      → add_each from_ucl os list ≡ value (list ++ keep_some keep xs)
  unfolding add_each
  add_each-Reads [] [] list h = rw append-nil refl
  add_each-Reads [] (x ∷ xs) list h = elim h [ ]
  add_each-Reads (o ∷ os) [] list h = elim h [ ]
  add_each-Reads (o ∷ os) (x ∷ xs) list h = elim (Option-cases (keep x)) [
    | inl e ↦ rw (h.0, e, add_each, keep_some) (add_each-Reads os xs list h.1)
    | inr (y, e) ↦
        rw (h.0, e, add_each, keep_some, list_add-eq-append)
          (add_each-Reads os xs (list ++ y ∷ []) h.1 ∙ rw append_assoc refl)
  ]

  append_each-Reads :
      (arr : Obj) (xs : List A)
      → type arr ≡ ucl_array
      → All IsReadBack xs
      → (arr' : Obj) × (os : List Obj) × (append_each to_ucl arr xs ≡ value arr')
        × (type arr' ≡ ucl_array)
        × (items arr' ≡ items arr ++ os)
        × Reads os xs
  unfolding append_each
  append_each-Reads arr [] t h = (arr, [], refl, t, rw append-nil refl, tt)
  append_each-Reads arr (x ∷ xs) t ((o, made, back), rest) =
      let (arr', os, done, t', all, reads) =
        append_each-Reads (array_append arr o) xs (type-array_append arr o ∙ t) rest in
      (
        arr',
        o ∷ os,
        rw made done,
        t',
        all ∙ rw (items-array_append arr o t, append_assoc) refl,
        (back, reads),
      )

  -- An array that is filled from an empty one, and what the loop that skips reads from it.
  pub add_each-append_each :
      (xs : List A)
      → All IsReadBack xs
      → (arr : Obj) × (append_each to_ucl typed_array xs ≡ value arr)
        × (type arr ≡ ucl_array)
        × (add_each from_ucl (items arr) [] ≡ value (keep_some keep xs))
  add_each-append_each xs h =
      let (arr, os, done, t, all, reads) = append_each-Reads typed_array xs type-typed_array h in
      (arr, done, t, rw (all, items-typed_array) (add_each-Reads os xs [] reads))

module _ ⦃u : LibUcl⦄ {A : Type 0} (to_ucl : A → Conv u.Obj) (from_ucl : u.Obj → Conv A)
    (stored : A → A) where
  open u use {Obj, type, typed_array, items, type-typed_array, items-typed_array}

  abbrev pub keep_all : A → Option A
  keep_all x = some (stored x)

  add_all-Reads :
      (os : List Obj) (xs list : List A)
      → Reads to_ucl from_ucl keep_all os xs
      → add_all from_ucl os list ≡ value (list ++ map stored xs)
  unfolding add_all
  add_all-Reads [] [] list h = rw append-nil refl
  add_all-Reads [] (x ∷ xs) list h = elim h [ ]
  add_all-Reads (o ∷ os) [] list h = elim h [ ]
  add_all-Reads (o ∷ os) (x ∷ xs) list h =
      rw (h.0, list_add-eq-append)
        (add_all-Reads os xs (list ++ stored x ∷ []) h.1 ∙ rw append_assoc refl)

  -- The same for the loop that gives up, where every element is kept.
  pub add_all-append_each :
      (xs : List A)
      → All (IsReadBack to_ucl from_ucl keep_all) xs
      → (arr : Obj) × (append_each to_ucl typed_array xs ≡ value arr)
        × (type arr ≡ ucl_array)
        × (add_all from_ucl (items arr) [] ≡ value (map stored xs))
  add_all-append_each xs h =
      let (arr, os, done, t, all, reads) =
        append_each-Reads to_ucl from_ucl keep_all typed_array xs type-typed_array h in
      (arr, done, t, rw (all, items-typed_array) (add_all-Reads os xs [] reads))
