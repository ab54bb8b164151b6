-- ===== src/Common/Decimal.antt =====
-- Decimal digits of numbers that are not negative.
use Prim.Native.Nat.{ℕ, zero, suc, ◌+◌, ◌-◌, ◌*◌, ◌/◌, ◌%◌, ◌^◌, ◌≤◌, ◌<◌}
use mathlib.Core.Path.{◌≡◌, refl, sym, ap, ◌∙◌}
use mathlib.Core.Logic.{inl, inr}
use mathlib.Core.List.{[], ◌∷◌, ◌++◌}
use native.Mathlib.Omega.{arith}
use e_com_init.Common.Tests.{ltb, if◌then◌else◌, Bool-cases}
use e_com_init.Common.Lists.{length, length-append}
use e_com_init.Common.Text.{CStr}

-- printf "%d" of a number that is not negative.
unfoldable pub decimal_from : ℕ → ℕ → CStr
decimal_from zero n = []
decimal_from (suc fuel) n =
    let front = decimal_from fuel (n / 10) in
    if ltb n 10 then (b'0' + n) ∷ [] else front ++ (b'0' + n % 10) ∷ []

unfoldable pub decimal : ℕ → CStr
unfolding decimal_from
decimal n = decimal_from (suc n) n

-- The number that digits stand for, behind those read already.
read : ℕ → CStr → ℕ
read acc [] = acc
read acc (c ∷ cs) = read (acc * 10 + (c - 48)) cs

read-append : (acc : ℕ) (cs : CStr) (c : ℕ) → read acc (cs ++ c ∷ []) ≡ read acc cs * 10 + (c - 48)
unfolding read
read-append acc [] c = refl
read-append acc (x ∷ cs) c = read-append (acc * 10 + (x - 48)) cs c

read-decimal_from : (fuel n : ℕ) → n < fuel → read 0 (decimal_from fuel n) ≡ n
unfolding decimal_from read
read-decimal_from zero n h = absurd (omega arith)
read-decimal_from (suc fuel) n h = elim (Bool-cases (ltb n 10)) [
  | inl small ↦ rw small (omega arith)
  | inr large ↦
      let big : 10 ≤ n = ground arith in
      let front = read-decimal_from fuel (n / 10) (omega arith) in
      rw large (read-append 0 (decimal_from fuel (n / 10)) (48 + n % 10) ∙ omega (arith, front))
]

pub decimal_injective : (m n : ℕ) → decimal m ≡ decimal n → m ≡ n
unfolding decimal
decimal_injective m n e =
    sym (read-decimal_from (suc m) m (omega arith))
    ∙ ap (read 0) e
    ∙ read-decimal_from (suc n) n (omega arith)

length-decimal_from : (fuel n k : ℕ) → n < 10 ^ suc k → length (decimal_from fuel n) ≤ suc k
unfolding decimal_from
length-decimal_from zero n k h = omega arith
length-decimal_from (suc fuel) n zero h = ground arith
length-decimal_from (suc fuel) n (suc k) h =
    let power : 10 ^ suc (suc k) ≡ 10 * 10 ^ suc k = grind arith in
    let front = length-decimal_from fuel (n / 10) k (omega (arith, h, power)) in
    ground (arith, front, length-append (decimal_from fuel (n / 10)) ((48 + n % 10) ∷ []))

pub length-decimal : (n k : ℕ) → n < 10 ^ suc k → length (decimal n) ≤ suc k
unfolding decimal
length-decimal n k h = length-decimal_from (suc n) n k h
