-- ===== src/Common/Res.antt =====
-- What a call of the C code does: it returns, it stops in a failed assert, in `abort`
-- or at a read through NULL, or the depth
-- that the model allows to its recursion is used up.
use mathlib.Core.Path.{◌≡◌, refl}
use mathlib.Core.Logic.{◌≢◌}

pub data Res {ℓ} (A : Type ℓ) : Type ℓ where
  ok : A → Res A
  aborted : Res A
  too_deep : Res A

infixl 5 ◌>>=◌
abbrev pub ◌>>=◌ {ℓ κ} : {A : Type ℓ} {B : Type κ} → Res A → (A → Res B) → Res B
ok a >>= f = f a
aborted >>= f = aborted
too_deep >>= f = too_deep

module _ {ℓ κ} {A : Type ℓ} {B : Type κ} where
  -- Where a bind returns, its first part returned, and the second part did, from there.
  pub >>=-eq-ok :
      (first : Res A) (next : A → Res B) {b : B}
      → (first >>= next) ≡ ok b
      → (a : A) × (first ≡ ok a) × (next a ≡ ok b)
  >>=-eq-ok (ok a) next p = (a, refl, p)
  >>=-eq-ok aborted next p = cc
  >>=-eq-ok too_deep next p = cc

  -- A bind stays within the depth when both parts do.
  pub >>=-ne-too_deep :
      (first : Res A) (next : A → Res B)
      → first ≢ too_deep
      → ((a : A) → next a ≢ too_deep)
      → (first >>= next) ≢ too_deep
  >>=-ne-too_deep (ok a) next h k = k a
  >>=-ne-too_deep aborted next h k = λ e. cc
  >>=-ne-too_deep too_deep next h k = λ e. h refl
