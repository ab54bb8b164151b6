-- ===== src/Graph/Process/Preserves.antt =====
-- The queue of notes, and what no number of notes changes.
use e_com_init.Common.{
  ℕ, zero, suc, ◌≡◌, refl, subst, Bool, true, false, Option, none, some, List, [], ◌∷◌,
  if◌then◌else◌, ◌==◌, ◌||◌,
}
use e_com_init.Common.Res.{ok, aborted, >>=-eq-ok}
use e_com_init.S16List.{list_lpop}
use e_com_init.Repository.Notes.{
  S16Note, NoteType, n_admin_req, n_restarter_req, n_state_change, n_config, sc_online, sc_offline,
  sc_disabled, a_enable, a_disable,
}
use e_com_init.Graph.Types.{Graph, Engine}
use e_com_init.Graph.Shape.{
  Keeps, Keeps-refl, SameShape, SameShape-refl, SameShape-trans, SameShape-IsWellFormed,
}
use e_com_init.Graph.Edges.{vtx_find_by_path}
use e_com_init.Service.Types.{S16Service}
use e_com_init.Graph.Edges.WellFormed.{IsWellFormed}
use e_com_init.Graph.Notify.Keeps.{CallKeeps, ok-Keeps}
use e_com_init.Graph.Process.{
  process_online, process_offline, process_disabled, vtx_process_state_change, process_kind,
  process_unknown, graph_process_note, process_notes,
}
use e_com_init.Graph.Process.Keeps.{
  vtx_process_admin_req-Keeps, process_online-Keeps, process_offline-Keeps, process_disabled-Keeps,
}

module _ (limit : ℕ) where
  vtx_process_state_change-Keeps :
      (v type reason : ℕ) → CallKeeps (vtx_process_state_change limit v type reason)
  unfolding vtx_process_state_change
  vtx_process_state_change-Keeps v type reason e e' p = first (type == sc_online) p
    where
      third :
          (b : Bool) → (if b then process_disabled limit v reason e else ok e) ≡ ok e' → Keeps e e'
      third true q = process_disabled-Keeps limit v reason e e' q
      third false q = ok-Keeps e e' e (Keeps-refl e) q

      second :
          (b : Bool)
          → (if b
              then process_offline limit v reason e
              else if type == sc_disabled
              then process_disabled limit v reason e
              else ok e)
            ≡ ok e'
          → Keeps e e'
      second true q = process_offline-Keeps limit v reason e e' q
      second false q = third (type == sc_disabled) q

      first :
          (b : Bool)
          → (if b
              then process_online limit v reason e
              else if type == sc_offline
              then process_offline limit v reason e
              else if type == sc_disabled
              then process_disabled limit v reason e
              else ok e)
            ≡ ok e'
          → Keeps e e'
      first true q = process_online-Keeps limit v reason e e' q
      first false q = second (type == sc_offline) q

  process_kind-Keeps :
      (t : NoteType) (v : ℕ) (note : S16Note) → CallKeeps (process_kind limit t v note)
  unfolding process_kind
  process_kind-Keeps n_admin_req v note e e' p =
      vtx_process_admin_req-Keeps limit v note.type note.reason e e' p
  process_kind-Keeps n_state_change v note e e' p =
      vtx_process_state_change-Keeps v note.type note.reason e e' p
  process_kind-Keeps n_restarter_req v note e e' p = ok-Keeps e e' e (Keeps-refl e) p
  process_kind-Keeps n_config v note e e' p = ok-Keeps e e' e (Keeps-refl e) p

  process_unknown-Keeps : (t : NoteType) (type : ℕ) → CallKeeps (process_unknown limit t type)
  unfolding process_unknown
  process_unknown-Keeps n_admin_req type e e' p = either (type == a_disable || type == a_enable) p
    where
      either : (b : Bool) → (if b then aborted else ok e) ≡ ok e' → Keeps e e'
      either true q = cc
      either false q = ok-Keeps e e' e (Keeps-refl e) q
  process_unknown-Keeps n_state_change type e e' p = cc
  process_unknown-Keeps n_restarter_req type e e' p = ok-Keeps e e' e (Keeps-refl e) p
  process_unknown-Keeps n_config type e e' p = ok-Keeps e e' e (Keeps-refl e) p

  -- Handling a note of any kind, if it returns, changes no path, type or edge of a vertex, whose
  -- number stays, takes back no note that waits, and leaves the scope alone.
  pub graph_process_note-Keeps :
      (note : S16Note) (e e' : Engine) → graph_process_note limit note e ≡ ok e' → Keeps e e'
  unfolding graph_process_note
  graph_process_note-Keeps note e e' p = go (vtx_find_by_path e.graph note.path) p
    where
      go :
          (o : Option ℕ)
          → elim o [
            | none ↦ process_unknown limit note.note_type note.type e
            | some v ↦ process_kind limit note.note_type v note e
          ]
            ≡ ok e'
          → Keeps e e'
      go none q = process_unknown-Keeps note.note_type note.type e e' q
      go (some v) q = process_kind-Keeps note.note_type v note e e' q

  -- The state is given by its parts, so that the queue can be taken apart.
  process_notes-shape :
      (rounds : ℕ) (g : Graph) (notes : List S16Note) (scope : List S16Service) (e' : Engine)
      → process_notes limit rounds (record { graph = g; notes = notes; scope = scope }) ≡ ok e'
      → SameShape g e'.graph × (e'.notes ≡ [])
  unfolding process_notes list_lpop
  process_notes-shape zero g notes scope e' p = cc
  process_notes-shape (suc rounds) g [] scope e' p =
      let e : Engine = record { graph = g; notes = []; scope = scope } in
      let same : e ≡ e' = cc in
      subst (λ d. SameShape g d.graph × (d.notes ≡ [])) same (SameShape-refl g, refl)
  process_notes-shape (suc rounds) g (note ∷ rest) scope e' p =
      let popped : Engine = record { graph = g; notes = rest; scope = scope } in
      let (d, a, b) =
        >>=-eq-ok (graph_process_note limit note popped) (process_notes limit rounds) p in
      let (later, done) = process_notes-shape rounds d.graph d.notes d.scope e' b in
      (
        SameShape-trans g d.graph e'.graph (graph_process_note-Keeps note popped d a).shape later,
        done,
      )

  -- However many notes are handled until the queue is empty, the graph stays well-formed, and its
  -- shape: the vertices, their paths and types, and the edges are those of before.
  pub process_notes-IsWellFormed :
      (rounds : ℕ) (e e' : Engine)
      → IsWellFormed e.graph
      → process_notes limit rounds e ≡ ok e'
      → IsWellFormed e'.graph × SameShape e.graph e'.graph × (e'.notes ≡ [])
  process_notes-IsWellFormed rounds e e' wf p =
      let (shape, done) = process_notes-shape rounds e.graph e.notes e.scope e' p in
      (SameShape-IsWellFormed e.graph e'.graph shape wf, shape, done)
