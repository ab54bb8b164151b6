-- ===== src/Service/Text.antt =====
-- S16PathToString of usr/src/lib/s16/s16.c, and the string conversions of
-- usr/src/lib/s16/db/convert.c. A result of -1 is `none`.
pub mod Laws
use e_com_init.Common.{
  ℕ, zero, suc, ◌+◌, ◌-◌, ◌≡◌, refl, Bool, true, false, not, ◌&&◌, Option, none, some, List, [],
  ◌∷◌, ◌++◌, CStr, codes, str_eq, ltb, ◌==◌, if◌then◌else◌, length, take, drop,
}
use e_com_init.Service.Types.{
  S16Path, DependencyGroupType, require_any, require_all, optional_all, exclude_all, RestartOn,
  on_none, on_error, on_restart, on_refresh, on_any,
}

-- sprintf "%s%s%s%s"
unfoldable pub path_to_string : S16Path → CStr
path_to_string path =
    (if path.full_qual then codes "svc:/" else [])
    ++ (path.svc ++ elim path.inst [ none ↦ [] | some inst ↦ b':' ∷ inst ])

-- The `for` loop that counts svc_len: the bytes in front of the first colon.
unfoldable pub svc_len : CStr → ℕ
svc_len [] = 0
svc_len (c ∷ txt) = if not (c == b':') then suc (svc_len txt) else 0

-- What follows the test for the prefix; strndup stops at the end of the string.
unfoldable pub split_path : Bool → CStr → S16Path
unfolding svc_len
split_path qual txt =
    let n = svc_len txt in
    let len = length txt in
    record {
      full_qual = qual;
      svc = take n txt;
      inst = if ltb n len then some (take (len - 1) (drop (n + 1) txt)) else none;
    }

-- !strncmp (txt, "svc:/", 4), of a text of more than four bytes.
unfoldable pub string_to_path : CStr → S16Path
unfolding split_path
string_to_path txt =
    if ltb 4 (length txt) && str_eq (take 4 txt) (take 4 (codes "svc:/"))
    then split_path true (drop 5 txt)
    else split_path false txt

unfoldable pub depgroup_type_to_string : DependencyGroupType → CStr
depgroup_type_to_string require_all = codes "require-all"
depgroup_type_to_string require_any = codes "require-any"
depgroup_type_to_string optional_all = codes "optional-all"
depgroup_type_to_string exclude_all = codes "exclude-all"

unfoldable pub string_to_depgroup_type : CStr → Option DependencyGroupType
string_to_depgroup_type txt =
    if str_eq txt (codes "require-all")
    then some require_all
    else if str_eq txt (codes "require-any")
    then some require_any
    else if str_eq txt (codes "optional-all")
    then some optional_all
    else if str_eq txt (codes "exclude-all")
    then some exclude_all
    else none

unfoldable pub restart_on_to_string : RestartOn → CStr
restart_on_to_string on_none = codes "none"
restart_on_to_string on_error = codes "error"
restart_on_to_string on_refresh = codes "refresh"
restart_on_to_string on_restart = codes "restart"
restart_on_to_string on_any = codes "INVALID"

unfoldable pub string_to_restart_on : CStr → Option RestartOn
string_to_restart_on txt =
    if str_eq txt (codes "none")
    then some on_none
    else if str_eq txt (codes "error")
    then some on_error
    else if str_eq txt (codes "refresh")
    then some on_refresh
    else if str_eq txt (codes "restart")
    then some on_restart
    else none
