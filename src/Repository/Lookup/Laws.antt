-- ===== src/Repository/Lookup/Laws.antt =====
-- What a lookup returns.
use e_com_init.Common.{
  ℕ, zero, suc, ◌+◌, ◌-◌, ◌≤◌, ◌<◌, ◌≡◌, ◌≢◌, refl, sym, ◌⊎◌, inl, inr, false, Option, none, some,
  List, [], ◌∷◌, CStr, str_eq, str_eq_iff, nth, Option-cases, Any, ap, ◌∙◌, if◌then◌else◌, length,
  arith, All, Bool-cases,
}
use e_com_init.Common.Res.{Res, ok, aborted, too_deep}
use e_com_init.Service.Types.{S16Path, S16ServiceInstance, S16Service}
use e_com_init.Repository.Lookup.{
  LookupResult, not_found, svc_result, instance_result, last_service, last_instance, bad_access,
  found_instance, service_at, lookup_path_in_scope, lookup_instance,
}

-- What the loop over the services returns: what it had, or a service of that name.
last_service-some :
    (svc : CStr) (i : ℕ) (res : Option ℕ) (svcs : List S16Service) (k : ℕ)
    → last_service svc i res svcs ≡ some k
    → (res ≡ some k)
      ⊎ ((i ≤ k) × (k < i + length svcs) × ((service_at svcs (k - i)).path.svc ≡ svc))
unfolding last_service service_at
last_service-some svc i res [] k h = inl h
last_service-some svc i res (s ∷ svcs) k h = elim (Bool-cases (str_eq svc s.path.svc)) [
  | inl t ↦ elim (last_service-some svc (suc i) (some i) svcs k (rw t at h)) [
    | inl e ↦
        let p : k - i ≡ zero = ground arith in
        inr (ground arith, ground arith, rw p (sym ((str_eq_iff svc s.path.svc).0 t)))
    | inr later ↦ inr (further later)
  ]
  | inr f ↦ elim (last_service-some svc (suc i) res svcs k (rw f at h)) [
    | inl e ↦ inl e
    | inr later ↦ inr (further later)
  ]
]
  where
    further :
        (suc i ≤ k) × (k < suc i + length svcs) × ((service_at svcs (k - suc i)).path.svc ≡ svc)
        → (i ≤ k) × (k < i + length (s ∷ svcs)) × ((service_at (s ∷ svcs) (k - i)).path.svc ≡ svc)
    further (lo, hi, eq) =
        let p : k - i ≡ suc (k - suc i) = omega arith in (omega arith, omega arith, rw p eq)

last_service-none :
    (svc : CStr) (i : ℕ) (res : Option ℕ) (svcs : List S16Service)
    → last_service svc i res svcs ≡ none
    → (res ≡ none) × All (λ s. s.path.svc ≢ svc) svcs
unfolding last_service
last_service-none svc i res [] h = (h, tt)
last_service-none svc i res (s ∷ svcs) h = elim (Bool-cases (str_eq svc s.path.svc)) [
  | inl t ↦ absurd (cc (last_service-none svc (suc i) (some i) svcs (rw t at h)).0)
  | inr f ↦
      let (was, rest) = last_service-none svc (suc i) res svcs (rw f at h) in
      (was, (differs f, rest))
]
  where
    differs : str_eq svc s.path.svc ≡ false → s.path.svc ≢ svc
    differs f e = ground (arith, str_eq_iff svc s.path.svc)

-- What the loop over the instances returns: what it had, or an instance of that name.
last_instance-some :
    (inst : CStr) (i : ℕ) (res : Option ℕ) (insts : List S16ServiceInstance) (k : ℕ)
    → last_instance inst i res insts ≡ ok (some k)
    → (res ≡ some k)
      ⊎ ((i ≤ k)
          × (it : S16ServiceInstance) × (nth insts (k - i) ≡ some it)
          × (it.path.inst ≡ some inst))
unfolding last_instance
last_instance-some inst i res [] k h = inl (cc)
last_instance-some inst i res (x ∷ insts) k h = elim (Option-cases x.path.inst) [
  | inl e ↦ absurd (cc (rw (e, last_instance) at h))
  | inr (name, e) ↦ elim (Bool-cases (str_eq inst name)) [
    | inl t ↦
        elim (last_instance-some inst (suc i) (some i) insts k (rw (last_instance, e, t) at h)) [
          | inl same ↦
              let here : k - i ≡ zero = ground arith in
              inr (ground arith, x, rw here refl, e ∙ ap some (sym ((str_eq_iff inst name).0 t)))
          | inr later ↦ inr (further later)
        ]
    | inr f ↦ elim (last_instance-some inst (suc i) res insts k (rw (last_instance, e, f) at h)) [
      | inl same ↦ inl same
      | inr later ↦ inr (further later)
    ]
  ]
]
  where
    further :
        (suc i ≤ k)
          × (it : S16ServiceInstance) × (nth insts (k - suc i) ≡ some it)
          × (it.path.inst ≡ some inst)
        → (i ≤ k)
          × (it : S16ServiceInstance) × (nth (x ∷ insts) (k - i) ≡ some it)
          × (it.path.inst ≡ some inst)
    further (lo, it, at, name) =
        let p : k - i ≡ suc (k - suc i) = omega arith in (omega arith, it, rw p at, name)

last_instance-none :
    (inst : CStr) (i : ℕ) (res : Option ℕ) (insts : List S16ServiceInstance)
    → last_instance inst i res insts ≡ ok none
    → (res ≡ none) × All (λ x. x.path.inst ≢ some inst) insts
unfolding last_instance
last_instance-none inst i res [] h = (cc, tt)
last_instance-none inst i res (x ∷ insts) h = elim (Option-cases x.path.inst) [
  | inl e ↦ absurd (cc (rw (e, last_instance) at h))
  | inr (name, e) ↦ elim (Bool-cases (str_eq inst name)) [
    | inl t ↦
        absurd
          (cc (last_instance-none inst (suc i) (some i) insts (rw (last_instance, e, t) at h)).0)
    | inr f ↦
        let (was, rest) =
          last_instance-none inst (suc i) res insts (rw (last_instance, e, f) at h) in
        (was, (λ q. differs name f (cc), rest))
  ]
]
  where
    differs : (name : CStr) → str_eq inst name ≡ false → name ≢ inst
    differs name f e = ground (arith, str_eq_iff inst name)

last_instance-stops :
    (inst : CStr) (i : ℕ) (res : Option ℕ) (insts : List S16ServiceInstance)
    → ((last_instance inst i res insts ≡ aborted) → Any (λ x. x.path.inst ≡ none) insts)
      × (last_instance inst i res insts ≢ too_deep)
unfolding last_instance
last_instance-stops inst i res [] = (λ h. cc, λ h. cc)
last_instance-stops inst i res (x ∷ insts) = elim (Option-cases x.path.inst) [
  | inl e ↦ (λ h. inl e, rw (e, last_instance) (λ h. cc))
  | inr (name, e) ↦
      let (a, b) =
        last_instance-stops inst (suc i) (if str_eq inst name then some i else res) insts in
      (λ h. inr (a (rw (last_instance, e) at h)), rw (e, last_instance) b)
]

-- A lookup never answers that nothing was found: a missing service and a missing instance come as a
-- NULL pointer under the type that was looked for.
pub lookup_path-ne-not_found :
    (scope : List S16Service) (path : S16Path) → lookup_path_in_scope scope path ≢ not_found
unfolding lookup_path_in_scope
lookup_path-ne-not_found scope path = ground arith

-- What a result says of the scope and the path.
abbrev pub Found : List S16Service → S16Path → LookupResult → Type 0
Found scope path not_found = ⊥
Found scope path (svc_result none) = All (λ s. s.path.svc ≢ path.svc) scope
Found scope path (svc_result (some s)) =
    (s < length scope) × ((service_at scope s).path.svc ≡ path.svc) × (path.inst ≡ none)
Found scope path (instance_result none) =
    (s : ℕ) × (s < length scope)
    × ((service_at scope s).path.svc ≡ path.svc)
    × (path.inst ≢ none)
    × All (λ x. x.path.inst ≢ path.inst) (service_at scope s).insts
Found scope path (instance_result (some (s, i))) =
    (s < length scope)
    × ((service_at scope s).path.svc ≡ path.svc)
    × (path.inst ≢ none)
    × (it : S16ServiceInstance) × (nth (service_at scope s).insts i ≡ some it)
    × (it.path.inst ≡ path.inst)
Found scope path bad_access =
    (s : ℕ) × (s < length scope)
    × ((service_at scope s).path.svc ≡ path.svc)
    × (path.inst ≢ none)
    × Any (λ x. x.path.inst ≡ none) (service_at scope s).insts

Found-instance :
    (scope : List S16Service) (path : S16Path) (s : ℕ) (inst : CStr) (o : Res (Option ℕ))
    → last_instance inst 0 none (service_at scope s).insts ≡ o
    → path.inst ≡ some inst
    → (s < length scope) × ((service_at scope s).path.svc ≡ path.svc)
    → Found scope path (found_instance s o)
unfolding found_instance
Found-instance scope path s inst (ok none) e p f =
    (s, f.0, f.1, λ q. cc, rw p (last_instance-none inst 0 none (service_at scope s).insts e).1)
Found-instance scope path s inst (ok (some i)) e p f =
    elim (last_instance-some inst 0 none (service_at scope s).insts i e) [
      | inl q ↦ absurd (cc)
      | inr (lo, it, at, name) ↦
          let here : i - 0 ≡ i = omega arith in (f.0, f.1, λ q. cc, it, rw here at at, name ∙ sym p)
    ]
Found-instance scope path s inst aborted e p f =
    (s, f.0, f.1, λ q. cc, (last_instance-stops inst 0 none (service_at scope s).insts).0 e)
Found-instance scope path s inst too_deep e p f =
    absurd ((last_instance-stops inst 0 none (service_at scope s).insts).1 e)

Found-service :
    (scope : List S16Service) (path : S16Path) (s : ℕ) (inst : Option CStr)
    → path.inst ≡ inst
    → (s < length scope) × ((service_at scope s).path.svc ≡ path.svc)
    → Found scope path (lookup_instance scope s inst)
unfolding lookup_instance
Found-service scope path s none p f = (f.0, f.1, p)
Found-service scope path s (some inst) p f = Found-instance scope path s inst _ refl p f

Found-lookup :
    (scope : List S16Service) (path : S16Path) (o : Option ℕ)
    → last_service path.svc 0 none scope ≡ o
    → Found scope path
        (elim o [ none ↦ svc_result none | some s ↦ lookup_instance scope s path.inst ])
Found-lookup scope path none e = (last_service-none path.svc 0 none scope e).1
Found-lookup scope path (some s) e = elim (last_service-some path.svc 0 none scope s e) [
  | inl q ↦ absurd (cc)
  | inr (lo, hi, name) ↦
      let p : s - 0 ≡ s = omega arith in
      Found-service scope path s path.inst refl (omega arith, rw p at name)
]

-- What a lookup finds is in the scope: a service, or the service of an instance, has the name that
-- was looked for, and the instance is one of that service's and has the instance name that was looked
-- for. NULL for a service says that no service has the name, and NULL for an instance that a service
-- of the name has no such instance. The lookup crashes only where an instance of a service of the name
-- has no instance name.
pub lookup_path_sound :
    (scope : List S16Service) (path : S16Path) → Found scope path (lookup_path_in_scope scope path)
unfolding lookup_path_in_scope
lookup_path_sound scope path = Found-lookup scope path _ refl
