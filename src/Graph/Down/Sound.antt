-- ===== src/Graph/Down/Sound.antt =====
-- What vtx_can_go_down promises of the dependents.
use e_com_init.Common.{
  All-map, All, ◌<◌, refl, if◌then◌else◌, ℕ, zero, suc, ◌≡◌, sym, subst, ap, ◌∙◌, inl, inr, ◌&&◌,
  not, Bool, true, false, List, [], ◌∷◌, arith, Bool-cases, Any,
}
use e_com_init.Graph.Notify.Ends.{RanksUp}
use e_com_init.Common.Res.{Res, ok, >>=-eq-ok}
use e_com_init.Graph.Types.{Edge, Vertex, Graph, vertex_at}
use e_com_init.Graph.Satisfy.{is_inst}
use e_com_init.Graph.Notify.{vtx_is_running}
use e_com_init.Graph.Down.{dependents_can_go_down, goes_down_itself, vtx_can_go_down}

-- An instance that is not to go offline: the loop does not look at it, nor behind it.
abbrev pub passed_over : Vertex → Bool
passed_over x = is_inst x.type && not x.to_offline

-- A list of vertices, each of which is a dependent of the one before, none of them passed over.
abbrev pub IsAsked : Graph → ℕ → List ℕ → Type 0
IsAsked g v [] = Unit
IsAsked g v (w ∷ p) =
    Any (λ e. e.to ≡ w) (vertex_at g v).dependents
    × (passed_over (vertex_at g w) ≡ false)
    × IsAsked g w p

abbrev pub last : ℕ → List ℕ → ℕ
last v [] = v
last v (w ∷ p) = last w p

-- Each dependent that is asked can go down.
each-can :
    (call : ℕ → Res Bool) (g : Graph) (w : ℕ) (es : List Edge)
    → dependents_can_go_down call g es ≡ ok true
    → Any (λ e. e.to ≡ w) es
    → passed_over (vertex_at g w) ≡ false
    → call w ≡ ok true
unfolding dependents_can_go_down
each-can call g w [] h m n = absurd m
each-can call g w (it ∷ es) h m n = elim (Bool-cases (passed_over (vertex_at g it.to))) [
  | inl over ↦ elim m [
    | inl q ↦
        let clash : true ≡ false = sym over ∙ ap (λ x. passed_over (vertex_at g x)) q ∙ n in cc
    | inr m' ↦ each-can call g w es (rw (over, dependents_can_go_down) at h) m' n
  ]
  | inr asked ↦
      let (can, a, b) = >>=-eq-ok (call it.to) _ (rw (asked, dependents_can_go_down) at h) in
      elim (Bool-cases can) [
        | inl t ↦ elim m [
          | inl q ↦ subst (λ x. call x ≡ ok true) q (a ∙ ap ok t)
          | inr m' ↦ each-can call g w es (rw t at b) m' n
        ]
        | inr f ↦ let no = rw f at b in cc
      ]
]

-- The parts of a yes.
parts :
    (depth : ℕ) (g : Graph) (v : ℕ) (root : Bool)
    → vtx_can_go_down (suc depth) g v root ≡ ok true
    → (dependents_can_go_down (λ w. vtx_can_go_down depth g w false) g (vertex_at g v).dependents
        ≡ ok true)
      × (goes_down_itself (vertex_at g v) root ≡ true)
unfolding vtx_can_go_down
parts depth g v root h =
    let (can, x, y) =
      >>=-eq-ok
        (dependents_can_go_down (λ w. vtx_can_go_down depth g w false) g (vertex_at g v).dependents)
        _ h in
    elim (Bool-cases can) [
      | inl t ↦ let own = rw t at y in (x ∙ ap ok t, cc)
      | inr f ↦ let no = rw f at y in cc
    ]

below :
    (depth : ℕ) (g : Graph) (v : ℕ) (p : List ℕ)
    → vtx_can_go_down depth g v false ≡ ok true
    → IsAsked g v p
    → goes_down_itself (vertex_at g (last v p)) false ≡ true
unfolding vtx_can_go_down
below zero g v p h a = cc
below (suc depth) g v [] h a = (parts depth g v false h).1
below (suc depth) g v (w ∷ p) h (edge, asked, more) =
    below depth g w p
      (each-can _ g w (vertex_at g v).dependents (parts depth g v false h).0 edge asked) more

-- If a vertex can go down as the root of the question, then no vertex that is reached from it by
-- dependents, none of which is an instance that is not to go offline, is an instance that runs.
pub vtx_can_go_down_sound :
    (depth : ℕ) (g : Graph) (v w : ℕ) (p : List ℕ)
    → vtx_can_go_down depth g v true ≡ ok true
    → IsAsked g v (w ∷ p)
    → (is_inst (vertex_at g (last w p)).type && vtx_is_running (vertex_at g (last w p))) ≡ false
unfolding vtx_can_go_down goes_down_itself
vtx_can_go_down_sound zero g v w p h a = cc
vtx_can_go_down_sound (suc depth) g v w p h (edge, asked, more) =
    let own =
      below depth g w p
        (each-can _ g w (vertex_at g v).dependents (parts depth g v true h).0 edge asked) more in
    ground (arith, own)

-- The loop over the dependents returns if each call does.
each-returns :
    (call : ℕ → Res Bool) (g : Graph) (es : List Edge)
    → All (λ it. (r : Bool) × (call it.to ≡ ok r)) es
    → (r : Bool) × (dependents_can_go_down call g es ≡ ok r)
unfolding dependents_can_go_down
each-returns call g [] h = (true, refl)
each-returns call g (it ∷ es) h =
    let (rest, a) = each-returns call g es h.1 in
    let (can, b) = h.0 in
    elim (Bool-cases (passed_over (vertex_at g it.to))) [
      | inl over ↦ (rest, rw (over, dependents_can_go_down) a)
      | inr asked ↦ elim (Bool-cases can) [
        | inl t ↦ (rest, rw (asked, b, t, dependents_can_go_down) a)
        | inr f ↦ (false, rw (asked, b, f, dependents_can_go_down) refl)
      ]
    ]

-- With a rank for the dependents, vtx_can_go_down answers at each depth above the rank of the vertex.
pub vtx_can_go_down_ends :
    (rank : ℕ → ℕ) (depth : ℕ) (g : Graph) (v : ℕ) (root : Bool)
    → RanksUp rank g
    → rank v < depth
    → (r : Bool) × (vtx_can_go_down depth g v root ≡ ok r)
unfolding vtx_can_go_down
vtx_can_go_down_ends rank zero g v root ranks h = absurd (omega arith)
vtx_can_go_down_ends rank (suc depth) g v root ranks h =
    let call = λ (w : ℕ). vtx_can_go_down depth g w false in
    let (can, a) = each-returns call g (vertex_at g v).dependents (
      All-map (λ it. rank it.to < rank v) (λ it. (r : Bool) × (call it.to ≡ ok r))
        (vertex_at g v).dependents
        (λ it lt. vtx_can_go_down_ends rank depth g it.to false ranks (omega (arith, lt, h)))
        (ranks v)) in
    (if can then goes_down_itself (vertex_at g v) root else false, rw a refl)
