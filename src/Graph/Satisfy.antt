-- ===== src/Graph/Satisfy.antt =====
-- The satisfiability logic of usr/src/agent/graphd/graph.c. The recursion along dependencies is on a
-- depth (Satisfy/Ends says which is enough); the functions below take it as their argument `group`.
pub mod Ends
pub mod Spec
use e_com_init.Common.{
  ℕ, zero, suc, Bool, true, false, not, ◌&&◌, ◌||◌, Option, none, some, List, [], ◌∷◌,
  if◌then◌else◌,
}
use e_com_init.Common.Res.{Res, ok, aborted, too_deep, ◌>>=◌}
use e_com_init.S16List.{list_empty}
use e_com_init.Service.Types.{
  DependencyGroupType, require_any, require_all, optional_all, exclude_all, S16ServiceState,
  no_state, uninitialised, disabled, offline, maintenance, online, degraded, enum_maximum,
}
use e_com_init.Graph.Types.{Edge, Vertex, VertexType, v_inst, v_svc, v_depgroup, Graph, vertex_at}

pub data Satisfied : Type 0 where
  satisfied unsatisfied unsatisfiable : Satisfied

abbrev pub is_satisfied : Satisfied → Bool
is_satisfied satisfied = true
is_satisfied _ = false

abbrev pub is_unsatisfiable : Satisfied → Bool
is_unsatisfiable unsatisfiable = true
is_unsatisfiable _ = false

-- A satisfied_t kept in a bool: what is not 0 becomes 1, which is UNSATISFIED.
abbrev pub as_bool : Satisfied → Satisfied
as_bool satisfied = satisfied
as_bool _ = unsatisfied

abbrev pub is_inst : VertexType → Bool
is_inst v_inst = true
is_inst _ = false

abbrev pub is_depgroup : VertexType → Bool
is_depgroup v_depgroup = true
is_depgroup _ = false

-- The depgroup test of an offline instance, and its answer if it is unsatisfiable.
offline_satisfies : (ℕ → Bool → Res Satisfied) → ℕ → Bool → Satisfied → Res Satisfied
offline_satisfies group v recurse never = do
  sat ← group v recurse
  ok (if is_unsatisfiable sat then never else unsatisfied)

inst_state_satisfies : (ℕ → Bool → Res Satisfied) → ℕ → Bool → S16ServiceState → Res Satisfied
inst_state_satisfies group v recurse uninitialised = ok unsatisfied
inst_state_satisfies group v recurse disabled = ok unsatisfiable
inst_state_satisfies group v recurse offline =
    let deeper = offline_satisfies group v recurse unsatisfiable in
    if not recurse then ok unsatisfied else deeper
inst_state_satisfies group v recurse maintenance = ok unsatisfiable
inst_state_satisfies group v recurse online = ok satisfied
inst_state_satisfies group v recurse degraded = ok satisfied
inst_state_satisfies group v recurse no_state = aborted
inst_state_satisfies group v recurse enum_maximum = aborted

unfoldable pub vtx_inst_satisfies : (ℕ → Bool → Res Satisfied) → Graph → ℕ → Bool → Res Satisfied
unfolding inst_state_satisfies offline_satisfies
vtx_inst_satisfies group g v recurse =
    let x = vertex_at g v in
    let by_state = inst_state_satisfies group v recurse x.state in
    if not (is_inst x.type)
    then aborted
    else if not x.is_setup || not x.is_enabled
    then ok unsatisfiable
    else by_state

optional_state_satisfies : (ℕ → Bool → Res Satisfied) → ℕ → Bool → S16ServiceState → Res Satisfied
optional_state_satisfies group v recurse uninitialised = ok unsatisfied
optional_state_satisfies group v recurse offline =
    let deeper = offline_satisfies group v recurse satisfied in
    if not recurse then ok unsatisfied else deeper
optional_state_satisfies group v recurse disabled = ok satisfied
optional_state_satisfies group v recurse maintenance = ok satisfied
optional_state_satisfies group v recurse online = ok satisfied
optional_state_satisfies group v recurse degraded = ok satisfied
optional_state_satisfies group v recurse no_state = aborted
optional_state_satisfies group v recurse enum_maximum = aborted

unfoldable pub vtx_inst_satisfies_optional :
    (ℕ → Bool → Res Satisfied) → Graph → ℕ → Bool → Res Satisfied
unfolding optional_state_satisfies offline_satisfies
vtx_inst_satisfies_optional group g v recurse =
    let x = vertex_at g v in
    let by_state = optional_state_satisfies group v recurse x.state in
    if not (is_inst x.type) then aborted else if not x.is_setup then ok satisfied else by_state

exclusion_state_satisfies : Bool → S16ServiceState → Res Satisfied
exclusion_state_satisfies enabled uninitialised = ok unsatisfied
exclusion_state_satisfies enabled offline = ok unsatisfied
exclusion_state_satisfies enabled maintenance = ok satisfied
exclusion_state_satisfies enabled disabled = ok satisfied
exclusion_state_satisfies enabled online = ok (if enabled then unsatisfiable else unsatisfied)
exclusion_state_satisfies enabled degraded = ok (if enabled then unsatisfiable else unsatisfied)
exclusion_state_satisfies enabled no_state = aborted
exclusion_state_satisfies enabled enum_maximum = aborted

unfoldable pub vtx_inst_satisfies_exclusion : Graph → ℕ → Res Satisfied
unfolding exclusion_state_satisfies
vtx_inst_satisfies_exclusion g v =
    let x = vertex_at g v in
    if not (is_inst x.type)
    then aborted
    else if not x.is_setup
    then ok satisfied
    else exclusion_state_satisfies x.is_enabled x.state

unfoldable pub vtx_satisfies : (ℕ → Bool → Res Satisfied) → Graph → ℕ → Bool → Res Satisfied
vtx_satisfies group g v recurse =
    let inst = vtx_inst_satisfies group g v recurse in
    let other = group v recurse in if is_inst (vertex_at g v).type then inst else other

-- sat = (sat == UNSATISFIABLE) ? UNSATISFIABLE : esat, where esat is not SATISFIED.
unfoldable pub worsen : Satisfied → Satisfied → Satisfied
worsen sat esat =
    if is_satisfied esat then sat else if is_unsatisfiable sat then unsatisfiable else esat

-- A loop over edges that worsens sat by what the test says of each target.
unfoldable pub all_edges : (ℕ → Res Satisfied) → List Edge → Satisfied → Res Satisfied
all_edges test [] sat = ok sat
all_edges test (it ∷ es) sat = do esat ← test it.to; all_edges test es (worsen sat esat)

-- if (esat == UNSATISFIED) sat = esat, where sat is a bool.
keep_bool : Satisfied → Satisfied → Satisfied
keep_bool sat unsatisfied = as_bool unsatisfied
keep_bool sat _ = sat

-- The loop of the require-any case, which returns at the first satisfied target.
unfoldable pub any_edge : (ℕ → Res Satisfied) → List Edge → Satisfied → Res Satisfied
unfolding keep_bool
any_edge test [] sat = ok sat
any_edge test (it ∷ es) sat = do
  esat ← test it.to
  let rest = any_edge test es (keep_bool sat esat)
  if is_satisfied esat then ok satisfied else rest

-- One round of the loop of the optional-all and exclude-all cases: an instance is tested, and of a
-- service all that it depends on, by `inner`, which takes the service and what it depends on.
grouped_edge : Graph → (ℕ → Res Satisfied) → (ℕ → ℕ → Res Satisfied) → ℕ → Satisfied → Res Satisfied
grouped_edge g test inner dv sat = elim (vertex_at g dv).type [
  | v_depgroup ↦ aborted
  | v_inst ↦ test dv >>= λ esat. ok (worsen sat esat)
  | v_svc ↦ all_edges (inner dv) (vertex_at g dv).dependencies sat
]

unfoldable pub grouped_edges :
    Graph → (ℕ → Res Satisfied) → (ℕ → ℕ → Res Satisfied) → List Edge → Satisfied → Res Satisfied
unfolding grouped_edge
grouped_edges g test inner [] sat = ok sat
grouped_edges g test inner (it ∷ es) sat = do
  sat' ← grouped_edge g test inner it.to sat
  grouped_edges g test inner es sat'

-- The switch on dg_type, over the recursive call.
unfoldable pub group_step :
    (ℕ → Bool → Res Satisfied) → Graph → DependencyGroupType → List Edge → Bool → Res Satisfied
group_step group g require_all edges recurse =
    all_edges (λ w. vtx_satisfies group g w recurse) edges satisfied
group_step group g require_any edges recurse =
    let search = any_edge (λ w. vtx_satisfies group g w recurse) edges (as_bool unsatisfiable) in
    if list_empty edges then ok satisfied else search
group_step group g optional_all edges recurse =
    grouped_edges g (λ dv. vtx_inst_satisfies_optional group g dv recurse)
      (λ dv ddv. vtx_inst_satisfies_optional group g ddv recurse) edges satisfied
group_step group g exclude_all edges recurse =
    grouped_edges g (vtx_inst_satisfies_exclusion g) (λ dv ddv. vtx_inst_satisfies_exclusion g dv)
      edges satisfied

unfoldable pub depgroup_is_satisfied : ℕ → Graph → ℕ → Bool → Res Satisfied
depgroup_is_satisfied zero g v recurse = too_deep
depgroup_is_satisfied (suc depth) g v recurse =
    let x = vertex_at g v in
    group_step (depgroup_is_satisfied depth g) g x.dg_type x.dependencies recurse

unfoldable pub vtx_inst_can_come_up : ℕ → Graph → ℕ → Res Bool
vtx_inst_can_come_up depth g v =
    let x = vertex_at g v in
    let deps = depgroup_is_satisfied depth g v true >>= λ sat. ok (is_satisfied sat) in
    if x.is_enabled && not x.to_offline && not x.to_disable then deps else ok false
