-- ===== src/Service/Paths.antt =====
-- The path functions of usr/src/lib/s16/s16.c.
use e_com_init.Common.{
  ◌≡◌, refl, ◌↔◌, Bool, true, false, Option, none, some, CStr, str_eq, str_eq_iff, arith,
  if◌then◌else◌,
}
use e_com_init.Service.Types.{S16Path}

unfoldable pub path_new : CStr → Option CStr → S16Path
path_new svc inst = record { full_qual = true; svc = svc; inst = inst }

unfoldable pub path_copy : S16Path → S16Path
unfolding path_new
path_copy path = path_new path.svc path.inst

inst_equal : Option CStr → Option CStr → Bool
inst_equal none none = true
inst_equal none (some b) = false
inst_equal (some a) none = false
inst_equal (some a) (some b) = str_eq a b

unfoldable pub path_equal : S16Path → S16Path → Bool
unfolding inst_equal
path_equal a b = if str_eq a.svc b.svc then inst_equal a.inst b.inst else false

unfoldable pub path_is_instance : S16Path → Bool
path_is_instance path = elim path.inst [ none ↦ false | some i ↦ true ]

-- The assert on path->inst is the Option.
unfoldable pub service_path_from_instance_path : S16Path → Option S16Path
unfolding path_new
service_path_from_instance_path path = elim path.inst [
  | none ↦ none
  | some i ↦ some (path_new path.svc none)
]

inst_equal_iff : (a b : Option CStr) → (inst_equal a b ≡ true) ↔ (a ≡ b)
unfolding inst_equal
inst_equal_iff none none = ground arith
inst_equal_iff none (some b) = ground arith
inst_equal_iff (some a) none = ground arith
inst_equal_iff (some a) (some b) = ground (arith, str_eq_iff a b)

-- S16PathEqual compares the service and the instance, and nothing else.
pub path_equal_iff :
    (a b : S16Path) → (path_equal a b ≡ true) ↔ ((a.svc ≡ b.svc) × (a.inst ≡ b.inst))
unfolding path_equal
path_equal_iff a b = ground (arith, str_eq_iff a.svc b.svc, inst_equal_iff a.inst b.inst)

pub path_equal_refl : (a : S16Path) → path_equal a a ≡ true
path_equal_refl a = (path_equal_iff a a).1 (refl, refl)

-- A copy equals its original, and so does whatever equals the original.
pub path_equal-copy : (a b : S16Path) → path_equal (path_copy a) b ≡ path_equal a b
unfolding path_copy path_equal
path_equal-copy a b = refl
