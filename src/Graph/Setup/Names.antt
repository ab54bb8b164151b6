-- ===== src/Graph/Setup/Names.antt =====
-- The names that make_depgroup_path makes: their length, and that two of one vertex differ.
use e_com_init.Common.{
  ℕ, ◌+◌, ◌≡◌, refl, true, Option, none, some, List, [], ◌∷◌, ◌++◌, length, arith, length-append,
  CStr, codes,
}
use e_com_init.Service.Types.{S16Path}
use e_com_init.Service.Paths.{path_equal, path_copy, path_equal_iff}
use e_com_init.Common.Decimal.{decimal, decimal_injective}
use e_com_init.Graph.Setup.{extended_name, depgroup_name, depgroup_name_size, make_depgroup_path}

-- make_depgroup_path writes ten bytes more than it asked for, the zero at the end included, whatever
-- the path and the number of the group.
pub depgroup_name_lem :
    (path : S16Path) (cnt : ℕ)
    → length (depgroup_name path cnt) + 1 ≡ depgroup_name_size path cnt + 10
unfolding depgroup_name depgroup_name_size
depgroup_name_lem path cnt = omega (
  arith,
  length-append (extended_name path) (codes "#depgroups/" ++ decimal cnt),
  length-append (codes "#depgroups/") (decimal cnt),
  length-append (extended_name path) (codes ">" ++ decimal cnt),
  length-append (codes ">") (decimal cnt),
)

cancel {ℓ} : {A : Type ℓ} (xs ys zs : List A) → xs ++ ys ≡ xs ++ zs → ys ≡ zs
cancel [] ys zs e = e
cancel (x ∷ xs) ys zs e = cancel xs ys zs (ground arith)

name_injective : (path : S16Path) (i j : ℕ) → depgroup_name path i ≡ depgroup_name path j → i ≡ j
unfolding depgroup_name
name_injective path i j e = decimal_injective i j (
    cancel (codes "#depgroups/") (decimal i) (decimal j) (
      cancel (extended_name path) (codes "#depgroups/" ++ decimal i)
        (codes "#depgroups/" ++ decimal j) e))

-- The groups of one vertex have different paths.
pub make_depgroup_path_injective :
    (path : S16Path) (i j : ℕ)
    → path_equal (make_depgroup_path path i) (make_depgroup_path path j) ≡ true
    → i ≡ j
unfolding make_depgroup_path path_copy
make_depgroup_path_injective path i j e =
    let (svc, inst) =
      (path_equal_iff (make_depgroup_path path i) (make_depgroup_path path j)).0 e in
    go path.inst refl svc inst
  where
    go :
        (o : Option CStr)
        → path.inst ≡ o
        → (make_depgroup_path path i).svc ≡ (make_depgroup_path path j).svc
        → (make_depgroup_path path i).inst ≡ (make_depgroup_path path j).inst
        → i ≡ j
    go none q svc inst = name_injective (record path { inst = none }) i j (rw q at svc)
    go (some x) q svc inst =
        let named = record path { inst = some x } in
        let both : some (depgroup_name named i) ≡ some (depgroup_name named j) = rw q at inst in
        name_injective named i j cc
