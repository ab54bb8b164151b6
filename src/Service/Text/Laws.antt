-- ===== src/Service/Text/Laws.antt =====
-- Paths and dependency groups written as text and read back.
use mathlib.Core.List.{append-nil}
use e_com_init.Common.{
  ℕ, suc, ◌+◌, ◌-◌, ◌≡◌, refl, ◌∙◌, Bool, true, Option, none, some, [], ◌∷◌, ◌++◌, CStr, codes,
  str_eq, length, drop, All, arith, ◌≢◌, length-append, take_all, take-append,
}
use e_com_init.Service.Types.{S16Path, DependencyGroupType, require_any, RestartOn, on_none, on_any}
use e_com_init.Service.Text.{
  path_to_string, svc_len, split_path, string_to_path, depgroup_type_to_string,
  string_to_depgroup_type, restart_on_to_string, string_to_restart_on,
}

abbrev path_of : Bool → CStr → Option CStr → S16Path
path_of q s i = record { full_qual = q; svc = s; inst = i }

abbrev pub HasNoColon : CStr → Type 0
HasNoColon = All (λ c. c ≢ b':')

svc_len-append_colon : (s rest : CStr) → HasNoColon s → svc_len (s ++ b':' ∷ rest) ≡ length s
unfolding svc_len
svc_len-append_colon [] rest h = refl
svc_len-append_colon (c ∷ s) rest h = ground (arith, svc_len-append_colon s rest h.1)

svc_len-eq-length : (s : CStr) → HasNoColon s → svc_len s ≡ length s
unfolding svc_len
svc_len-eq-length [] h = refl
svc_len-eq-length (c ∷ s) h = ground (arith, svc_len-eq-length s h.1)

split_path-service :
    (q : Bool) (s : CStr)
    → HasNoColon s
    → split_path q s ≡ record { full_qual = q; svc = s; inst = none }
unfolding split_path
split_path-service q s h = ground (arith, svc_len-eq-length s h, take_all (length s) s)

drop-suc : (s rest : CStr) (c : ℕ) → drop (length s + 1) (s ++ c ∷ rest) ≡ rest
drop-suc [] rest c = refl
drop-suc (x ∷ s) rest c =
    let e : suc (length s) + 1 ≡ suc (length s + 1) = omega arith in rw e (drop-suc s rest c)

split_path-instance :
    (q : Bool) (s i : CStr)
    → HasNoColon s
    → split_path q (s ++ b':' ∷ i) ≡ record { full_qual = q; svc = s; inst = some i }
unfolding split_path
split_path-instance q s i h = ground (
  arith,
  svc_len-append_colon s i h,
  take-append s (b':' ∷ i),
  drop-suc s i b':',
  length-append s (b':' ∷ i),
  take_all (length (s ++ b':' ∷ i) - 1) i,
)

drop_prefix : (txt : CStr) → string_to_path (codes "svc:/" ++ txt) ≡ split_path true txt
unfolding string_to_path str_eq
drop_prefix txt = ground arith

split_path-parts :
    (s : CStr) (i : Option CStr)
    → HasNoColon s
    → split_path true (s ++ (elim i [ none ↦ [] | some inst ↦ b':' ∷ inst ])) ≡ path_of true s i
split_path-parts s none h = rw append-nil (split_path-service true s h)
split_path-parts s (some i) h = split_path-instance true s i h

-- A path that S16PathNew makes, whose service name has no colon, is read back from its text as it
-- was, with or without an instance, whatever the instance name holds.
pub path-roundtrip :
    (p : S16Path) → p.full_qual ≡ true → HasNoColon p.svc → string_to_path (path_to_string p) ≡ p
unfolding path_to_string
path-roundtrip p q h = rw q (drop_prefix _) ∙ split_path-parts p.svc p.inst h ∙ qualified
  where
    qualified : path_of true p.svc p.inst ≡ p
    qualified = ground arith

-- The prefix test compares four bytes of five: the fifth byte of a text that begins with "svc:" is
-- dropped, whatever it is.
pub prefix_drops_any_byte :
    (c : ℕ) (txt : CStr)
    → string_to_path (codes "svc:" ++ c ∷ txt) ≡ string_to_path (codes "svc:/" ++ txt)
unfolding string_to_path str_eq
prefix_drops_any_byte c txt = ground arith

-- The names of the dependency group types are read back.
pub depgroup_type-roundtrip :
    (t : DependencyGroupType) → string_to_depgroup_type (depgroup_type_to_string t) ≡ some t
unfolding string_to_depgroup_type depgroup_type_to_string str_eq
depgroup_type-roundtrip require_any = refl
depgroup_type-roundtrip _ = refl

-- The names of the restart-on conditions are read back, but for "any", which has no name: its text
-- is refused.
pub restart_on-roundtrip :
    (r : RestartOn)
    → string_to_restart_on (restart_on_to_string r) ≡ (elim r [ on_any ↦ none | r' ↦ some r' ])
unfolding string_to_restart_on restart_on_to_string str_eq
restart_on-roundtrip on_none = refl
restart_on-roundtrip _ = refl
