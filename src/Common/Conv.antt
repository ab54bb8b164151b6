-- ===== src/Common/Conv.antt =====
-- What code that reads data of another format does, and the tests that it makes on pointers.
use mathlib.Core.Path.{◌≡◌, refl}
use mathlib.Core.Option.{Option, none, some}

-- A conversion or a remote call returns a value or NULL, it stops in a failed assert or at a read
-- through something that is not a string, or it reads a number or a name that its enumeration does
-- not have. In the last case the C code goes on with a value outside of the enumeration; the model
-- ends there.
pub data Conv {ℓ} (A : Type ℓ) : Type ℓ where
  value : A → Conv A
  null : Conv A
  stopped : Conv A
  not_in_enum : Conv A

infixl 5 ◌>>=◌
abbrev pub ◌>>=◌ {ℓ κ} : {A : Type ℓ} {B : Type κ} → Conv A → (A → Conv B) → Conv B
value a >>= f = f a
null >>= f = null
stopped >>= f = stopped
not_in_enum >>= f = not_in_enum

-- if (!x) goto fail
abbrev pub needed {ℓ} : {A : Type ℓ} → Option A → Conv A
needed none = null
needed (some x) = value x

-- assert (x)
abbrev pub asserted {ℓ} : {A : Type ℓ} → Option A → Conv A
asserted none = stopped
asserted (some x) = value x

-- Where a bind gives a value, its first part gave one, and the second part did, from there.
pub >>=-eq-value {ℓ κ} :
    {A : Type ℓ} {B : Type κ} (first : Conv A) (next : A → Conv B) {b : B}
    → (first >>= next) ≡ value b
    → (a : A) × (first ≡ value a) × (next a ≡ value b)
>>=-eq-value (value a) next p = (a, refl, p)
>>=-eq-value null next p = cc
>>=-eq-value stopped next p = cc
>>=-eq-value not_in_enum next p = cc

-- The value, if there is one, has the property.
abbrev pub Gives {ℓ} : {A : Type ℓ} → (A → Type 0) → Conv A → Type 0
Gives P (value x) = P x
Gives P null = Unit
Gives P stopped = Unit
Gives P not_in_enum = Unit

pub Gives->>= :
    {A B : Type 0} (P : A → Type 0) (Q : B → Type 0) (c : Conv A) (f : A → Conv B)
    → Gives P c
    → ((a : A) → P a → Gives Q (f a))
    → Gives Q (c >>= f)
Gives->>= P Q (value a) f h next = next a h
Gives->>= P Q null f h next = tt
Gives->>= P Q stopped f h next = tt
Gives->>= P Q not_in_enum f h next = tt

pub Gives-map :
    {A : Type 0} (P Q : A → Type 0) (c : Conv A) → Gives P c → ((a : A) → P a → Q a) → Gives Q c
Gives-map P Q (value a) h weaker = weaker a h
Gives-map P Q null h weaker = tt
Gives-map P Q stopped h weaker = tt
Gives-map P Q not_in_enum h weaker = tt

pub Gives-any : {A : Type 0} (c : Conv A) → Gives (λ _. Unit) c
Gives-any (value a) = tt
Gives-any null = tt
Gives-any stopped = tt
Gives-any not_in_enum = tt
