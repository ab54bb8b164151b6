-- ===== src/PBus/Paths.antt =====
-- Paths of usr/src/lib/PBus/PBusObject.c and their elements.
use e_com_init.Common.{
  suc, ◌≤◌, ◌≡◌, ◌≢◌, refl, ap, ◌∙◌, false, List, [], ◌∷◌, ◌++◌, append_assoc, append-nil, CStr,
  length, ◌==◌, All, Bool-cases, inl, inr, arith,
}
use e_com_init.PBus.{push_segment, split_from, path_elements}

-- A name of an object: not empty and without a slash.
abbrev pub IsElement : CStr → Type 0
IsElement seg = (seg ≢ []) × All (λ c. c ≢ b'/') seg

-- The path of names, with a slash in front of each.
abbrev pub path_of : List CStr → CStr
path_of [] = []
path_of (seg ∷ segs) = b'/' ∷ seg ++ path_of segs

split_from-append :
    (acc seg rest : CStr)
    → All (λ c. c ≢ b'/') seg
    → split_from acc (seg ++ rest) ≡ split_from (acc ++ seg) rest
unfolding split_from
split_from-append acc [] rest h = rw append-nil refl
split_from-append acc (c ∷ seg) rest h =
    let other : (c == b'/') ≡ false = ground (arith, h.0) in
    rw (other, split_from) (split_from-append (acc ++ c ∷ []) seg rest h.1 ∙ rw append_assoc refl)

push_segment-element :
    (seg : CStr) (segs : List CStr) → seg ≢ [] → push_segment seg segs ≡ seg ∷ segs
unfolding push_segment
push_segment-element [] segs h = absurd (h refl)
push_segment-element (c ∷ seg) segs h = refl

split_from-path_of :
    (seg : CStr) (segs : List CStr)
    → seg ≢ []
    → All IsElement segs
    → split_from seg (path_of segs) ≡ seg ∷ segs
unfolding split_from
split_from-path_of seg [] h all = push_segment-element seg [] h
split_from-path_of seg (next ∷ segs) h all =
    push_segment-element seg _ h
    ∙ ap (λ t. seg ∷ t)
        (split_from-append [] next (path_of segs) all.0.1
          ∙ split_from-path_of next segs all.0.0 all.1)

-- The elements of the path of names are the names, in order, if none is empty or has a slash.
pub path_elements-path_of :
    (segs : List CStr) → All IsElement segs → path_elements (path_of segs) ≡ segs
unfolding path_elements split_from push_segment
path_elements-path_of [] all = refl
path_elements-path_of (next ∷ segs) all =
    split_from-append [] next (path_of segs) all.0.1 ∙ split_from-path_of next segs all.0.0 all.1

length-push_segment :
    (seg : CStr) (segs : List CStr) → length (push_segment seg segs) ≤ suc (length segs)
unfolding push_segment
length-push_segment [] segs = omega arith
length-push_segment (c ∷ seg) segs = omega arith

length-split_from : (seg path : CStr) → length (split_from seg path) ≤ suc (length path)
unfolding split_from
length-split_from seg [] = length-push_segment seg []
length-split_from seg (c ∷ cs) = elim (Bool-cases (c == b'/')) [
  | inl e ↦
      rw (e, split_from)
        (omega (arith, length-push_segment seg (split_from [] cs), length-split_from [] cs))
  | inr e ↦ rw (e, split_from) (omega (arith, length-split_from (seg ++ c ∷ []) cs))
]

pub length-path_elements : (path : CStr) → length (path_elements path) ≤ suc (length path)
unfolding path_elements
length-path_elements path = length-split_from [] path
