-- ===== src/Graph/Types.antt =====
-- The vertices, edges and globals of usr/src/agent/graphd/graphd.h. Vertices are never freed, and
-- each one is added at the end of the list `graph`: a pointer to a vertex is its position there.
use e_com_init.Common.{
  ℕ, ◌≡◌, ◌≢◌, ◌<◌, Bool, false, none, List, [], length, set, get_or, if◌then◌else◌, ◌==◌, arith,
  ==_iff, get_or-set_self, get_or-set_ne, Bool-cases, inl, inr, length-set,
}
use e_com_init.Service.Types.{
  S16Path, DependencyGroupType, require_any, RestartOn, on_none, S16ServiceState, no_state,
  S16Service,
}
use e_com_init.Repository.Notes.{S16Note}

pub data VertexType : Type 0 where
  v_inst v_svc v_depgroup : VertexType

pub record Edge : Type 0 where
  pub from : ℕ
  pub to : ℕ

pub record Vertex : Type 0 where
  pub path : S16Path
  pub type : VertexType
  pub dg_type : DependencyGroupType
  pub restart_on : RestartOn
  pub dependencies : List Edge
  pub dependents : List Edge
  pub state : S16ServiceState
  pub is_setup : Bool
  pub is_enabled : Bool
  pub to_offline : Bool
  pub to_disable : Bool

abbrev pub Graph : Type 0
Graph = List Vertex

-- The globals `graph` and `notes`, and the scope of `hdl`, which the engine only reads.
pub record Engine : Type 0 where
  pub graph : Graph
  pub notes : List S16Note
  pub scope : List S16Service

-- What is read at a position out of range; no pointer of a well-formed graph is one.
abbrev pub null_vertex : Vertex
null_vertex = record {
  path = record { full_qual = false; svc = []; inst = none };
  type = v_inst;
  dg_type = require_any;
  restart_on = on_none;
  dependencies = [];
  dependents = [];
  state = no_state;
  is_setup = false;
  is_enabled = false;
  to_offline = false;
  to_disable = false;
}

unfoldable pub vertex_at : Graph → ℕ → Vertex
vertex_at g v = get_or g v null_vertex

-- An assignment to fields of *v.
unfoldable pub modify : Graph → ℕ → (Vertex → Vertex) → Graph
modify g v change = set g v (change (vertex_at g v))

pub vertex_at-modify :
    (g : Graph) (v w : ℕ) (change : Vertex → Vertex)
    → v < length g
    → vertex_at (modify g v change) w ≡ (if v == w then change (vertex_at g v) else vertex_at g w)
unfolding modify vertex_at
vertex_at-modify g v w change h = elim (Bool-cases (v == w)) [
  | inl e ↦
      let p : v ≡ w = (==_iff v w).0 e in
      rw (e, ← p) (get_or-set_self g v (change (get_or g v null_vertex)) null_vertex h)
  | inr e ↦ rw e (get_or-set_ne g v w (change (get_or g v null_vertex)) null_vertex (differ e))
]
  where
    differ : (v == w) ≡ false → v ≢ w
    differ e p = ground arith

pub length-modify :
    (g : Graph) (v : ℕ) (change : Vertex → Vertex) → length (modify g v change) ≡ length g
unfolding modify
length-modify g v change = length-set g v (change (vertex_at g v))
