-- ===== src/Service/Copy/Laws.antt =====
-- What the deep copies keep.
use e_com_init.Common.{◌≡◌, refl, ◌∙◌, Bool, true, List, [], ◌∷◌, map, All, arith}
use e_com_init.Service.Types.{
  S16Path, S16DependencyGroup, S16Property, S16ServiceMethod, S16ServiceInstance, S16Service,
}
use e_com_init.Service.Paths.{path_copy}
use e_com_init.Service.Copy.{depgroup_copy, property_copy, method_copy, instance_copy, service_copy}
use e_com_init.S16List.{list_map}
use e_com_init.S16List.Laws.{list_map-eq-map}

-- Paths as S16PathNew makes them.
abbrev pub IsQualified : S16Path → Type 0
IsQualified p = p.full_qual ≡ true

abbrev pub GroupIsQualified : S16DependencyGroup → Type 0
GroupIsQualified g = All IsQualified g.paths

pub record InstIsQualified (i : S16ServiceInstance) : Type 0 where
  pub path : IsQualified i.path
  pub groups : All GroupIsQualified i.depgroups

pub record ServiceIsQualified (s : S16Service) : Type 0 where
  pub path : IsQualified s.path
  pub insts : All InstIsQualified s.insts
  pub groups : All GroupIsQualified s.depgroups

-- Copying element by element changes nothing where each element is kept.
list_map-id {ℓ κ} :
    {A : Type ℓ} (P : A → Type κ) (f : A → A) (xs : List A)
    → ((x : A) → P x → f x ≡ x)
    → All P xs
    → list_map xs f ≡ xs
list_map-id P f xs keep h = list_map-eq-map xs f ∙ go xs h
  where
    go : (ys : List _) → All P ys → map f ys ≡ ys
    go [] a = refl
    go (y ∷ ys) a = λ i. keep y a.0 i ∷ go ys a.1 i

All-unit {ℓ} : {A : Type ℓ} (xs : List A) → All (λ _. Unit {0}) xs
All-unit [] = tt
All-unit (x ∷ xs) = (tt, All-unit xs)

pub property_copy-eq : (p : S16Property) → property_copy p ≡ p
unfolding property_copy
property_copy-eq p = ground arith

path_copy-eq : (p : S16Path) → IsQualified p → path_copy p ≡ p
unfolding path_copy
path_copy-eq p h = ground arith

depgroup_copy-eq : (g : S16DependencyGroup) → GroupIsQualified g → depgroup_copy g ≡ g
unfolding depgroup_copy
depgroup_copy-eq g h = ground (arith, list_map-id IsQualified path_copy g.paths path_copy-eq h)

props_copy-eq : (ps : List S16Property) → list_map ps property_copy ≡ ps
props_copy-eq ps =
    list_map-id (λ _. Unit {0}) property_copy ps (λ p _. property_copy-eq p) (All-unit ps)

pub method_copy-eq : (m : S16ServiceMethod) → method_copy m ≡ m
unfolding method_copy
method_copy-eq m = ground (arith, props_copy-eq m.props)

meths_copy-eq : (ms : List S16ServiceMethod) → list_map ms method_copy ≡ ms
meths_copy-eq ms =
    list_map-id (λ _. Unit {0}) method_copy ms (λ m _. method_copy-eq m) (All-unit ms)

groups_copy-eq :
    (gs : List S16DependencyGroup) → All GroupIsQualified gs → list_map gs depgroup_copy ≡ gs
groups_copy-eq gs h = list_map-id GroupIsQualified depgroup_copy gs depgroup_copy-eq h

module _ (junk : S16ServiceInstance → Bool) where
  -- An instance with the flag that the copy finds in its memory.
  abbrev pub with_junk : S16ServiceInstance → S16ServiceInstance
  with_junk i = record i { enabled = junk i }

  instance_copy-eq :
      (i : S16ServiceInstance) → InstIsQualified i → instance_copy junk i ≡ with_junk i
  unfolding instance_copy
  instance_copy-eq i h = ground (
    arith,
    path_copy-eq i.path h.path,
    props_copy-eq i.props,
    meths_copy-eq i.meths,
    groups_copy-eq i.depgroups h.groups,
  )

  insts_copy-eq :
      (is : List S16ServiceInstance)
      → All InstIsQualified is
      → list_map is (instance_copy junk) ≡ map with_junk is
  insts_copy-eq is h = list_map-eq-map is (instance_copy junk) ∙ go is h
    where
      go :
          (xs : List S16ServiceInstance)
          → All InstIsQualified xs
          → map (instance_copy junk) xs ≡ map with_junk xs
      go [] a = refl
      go (x ∷ xs) a = λ i. instance_copy-eq x a.0 i ∷ go xs a.1 i

  -- The copy of a service whose paths are all fully qualified is the service, but for the enabled
  -- flags of its instances: each of those is what malloc left in that memory.
  pub service_copy_lem :
      (s : S16Service)
      → ServiceIsQualified s
      → service_copy junk s ≡ record s { insts = map with_junk s.insts }
  unfolding service_copy
  service_copy_lem s h = ground (
    arith,
    path_copy-eq s.path h.path,
    props_copy-eq s.props,
    meths_copy-eq s.meths,
    insts_copy-eq s.insts h.insts,
    groups_copy-eq s.depgroups h.groups,
  )
