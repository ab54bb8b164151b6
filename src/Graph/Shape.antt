-- ===== src/Graph/Shape.antt =====
-- What the handling of notes never changes: the paths, types and edges of the vertices, the notes
-- that wait already, and the repository's scope.
use e_com_init.Common.{
  ℕ, zero, suc, ◌<◌, ◌≡◌, refl, subst, ap, ◌∙◌, inl, inr, List, [], ◌∷◌, ◌++◌, ◌==◌, ==_iff, set,
  length, arith, Bool-cases, append_assoc, append-nil,
}
use e_com_init.Repository.Notes.{S16Note}
use e_com_init.Graph.Types.{
  Vertex, Graph, Engine, vertex_at, modify, vertex_at-modify, length-modify,
}
use e_com_init.Graph.Edges.WellFormed.{IsWellFormed}
use native.Mathlib.Decide.{dec_lt}

-- Two states of one vertex.
pub record SameVertex (x y : Vertex) : Type 0 where
  pub path : y.path ≡ x.path
  pub type : y.type ≡ x.type
  pub dg_type : y.dg_type ≡ x.dg_type
  pub restart_on : y.restart_on ≡ x.restart_on
  pub dependencies : y.dependencies ≡ x.dependencies
  pub dependents : y.dependents ≡ x.dependents
  pub is_setup : y.is_setup ≡ x.is_setup

SameVertex-refl : (x : Vertex) → SameVertex x x
SameVertex-refl x = ground arith

SameVertex-trans : (x y z : Vertex) → SameVertex x y → SameVertex y z → SameVertex x z
SameVertex-trans x y z h k = ground arith

pub record SameShape (g g' : Graph) : Type 0 where
  pub size : length g' ≡ length g
  pub at : (v : ℕ) → SameVertex (vertex_at g v) (vertex_at g' v)

-- An assignment through a position out of range changes nothing in the model.
set-beyond {ℓ} : {A : Type ℓ} (xs : List A) (i : ℕ) (x : A) → ¬ (i < length xs) → set xs i x ≡ xs
set-beyond [] i x h = refl
set-beyond (y ∷ xs) zero x h = absurd (h (omega arith))
set-beyond (y ∷ xs) (suc i) x h = ap (λ t. y ∷ t) (set-beyond xs i x (λ lt. h (omega arith)))

pub modify-beyond : (g : Graph) (v : ℕ) (f : Vertex → Vertex) → ¬ (v < length g) → modify g v f ≡ g
unfolding modify
modify-beyond g v f h = set-beyond g v (f (vertex_at g v)) h

pub SameShape-refl : (g : Graph) → SameShape g g
SameShape-refl g = record { size = refl; at = λ v. SameVertex-refl (vertex_at g v) }

pub SameShape-trans : (a b c : Graph) → SameShape a b → SameShape b c → SameShape a c
SameShape-trans a b c h k = record {
  size = k.size ∙ h.size;
  at = λ v. SameVertex-trans _ (vertex_at b v) _ (h.at v) (k.at v);
}

pub SameShape-modify :
    (g : Graph) (v : ℕ) (f : Vertex → Vertex)
    → ((x : Vertex) → SameVertex x (f x))
    → SameShape g (modify g v f)
SameShape-modify g v f same = record { size = length-modify g v f; at = at }
  where
    at : (w : ℕ) → SameVertex (vertex_at g w) (vertex_at (modify g v f) w)
    at w = elim (dec_lt v (length g)) [
      | yes h ↦ rw (vertex_at-modify g v w f h) (elim (Bool-cases (v == w)) [
        | inl p ↦
            let q : v ≡ w = (==_iff v w).0 p in
            rw p
              (subst (λ t. SameVertex (vertex_at g t) (f (vertex_at g v))) q (same (vertex_at g v)))
        | inr p ↦ rw p (SameVertex-refl (vertex_at g w))
      ])
      | no h ↦ rw (modify-beyond g v f h) (SameVertex-refl (vertex_at g w))
    ]

pub SameShape-IsWellFormed : (g g' : Graph) → SameShape g g' → IsWellFormed g → IsWellFormed g'
SameShape-IsWellFormed g g' s wf = record {
  dependencies_fit = λ v. rw (s.size, (s.at v).dependencies) (wf.dependencies_fit v);
  dependents_fit = λ v. rw (s.size, (s.at v).dependents) (wf.dependents_fit v);
  mirror = λ v w. rw ((s.at v).dependencies, (s.at w).dependents) (wf.mirror v w);
  distinct = λ v w hv hw p.
      wf.distinct v w (rw (s.size) at hv) (rw (s.size) at hw)
        (rw ((s.at v).path, (s.at w).path) at p);
}

-- A later state of the engine.
pub record Keeps (e e' : Engine) : Type 0 where
  pub shape : SameShape e.graph e'.graph
  pub added : List S16Note
  pub queued : e'.notes ≡ e.notes ++ added
  pub scope : e'.scope ≡ e.scope

pub Keeps-refl : (e : Engine) → Keeps e e
Keeps-refl e = record {
  shape = SameShape-refl e.graph;
  added = [];
  queued = rw append-nil;
  scope = refl;
}

pub Keeps-trans : (a b c : Engine) → Keeps a b → Keeps b c → Keeps a c
Keeps-trans a b c h k = record {
  shape = SameShape-trans a.graph b.graph c.graph h.shape k.shape;
  added = h.added ++ k.added;
  queued = k.queued ∙ rw (h.queued, append_assoc);
  scope = k.scope ∙ h.scope;
}
