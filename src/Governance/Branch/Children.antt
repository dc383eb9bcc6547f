-- ===== src/Governance/Branch/Children.antt =====
-- The children map of js/governance/branch.mjs turns the parents of the graph round.
use fount_p2p.Base.{
  ◌≢◌, ◌≡◌, refl, ◌⊎◌, some, List, [], ◌∷◌, ◌++◌, true, arith, inl, inr, Bool-cases, Option-cases,
  sym, ◌∙◌, ap, subst, if◌then◌else◌, keep_if,
}
use fount_p2p.Base.JsMap.{JsMap, get, put, get-put_self, get-put_ne, IsMap}
use fount_p2p.Core.HexIds.{Text, text_dec, IsIn, IsIn-append, IsIn-append_left, IsIn-append_right}
use fount_p2p.Core.HexIds.Order.{IsIn-keep_if, keep_if-IsIn}
use fount_p2p.Governance.Branch.{
  Event, Graph, parents, parents_of, parents_in, add_events, graph_of, in_graph, list_or_empty,
  add_child, add_children, children_map_from, children_of,
}
use fount_p2p.Governance.Branch.Score.{graph_of-IsMap}

-- Each event stands at its id.
abbrev IsKeyed : Graph → Type 0
IsKeyed [] = Unit
IsKeyed ((k, e) ∷ g) = (e.id ≡ k) × IsKeyed g

put-IsKeyed : (e : Event) (g : Graph) → IsKeyed g → IsKeyed (put text_dec e.id e g)
unfolding put
put-IsKeyed e [] h = (refl, tt)
put-IsKeyed e ((k, d) ∷ g) h = elim (text_dec k e.id) [
  | yes same ↦ ground (arith, h.1)
  | no other ↦ ground (arith, put-IsKeyed e g h.1)
]

add_events-IsKeyed : (events : List Event) (g : Graph) → IsKeyed g → IsKeyed (add_events g events)
unfolding add_events
add_events-IsKeyed [] g h = h
add_events-IsKeyed (e ∷ events) g h =
    add_events-IsKeyed events (put text_dec e.id e g) (put-IsKeyed e g h)

-- An entry of the graph is the child, and has the parent.
abbrev IsChildIn : Graph → Text → Text → Type 0
IsChildIn [] p c = ⊥
IsChildIn ((k, e) ∷ rest) p c = ((e.id ≡ c) × IsIn p (parents e)) ⊎ IsChildIn rest p c

child-get :
    (g : Graph) (p c : Text)
    → IsMap text_dec g
    → IsKeyed g
    → IsChildIn g p c
    → (e : Event) × (get text_dec c g ≡ some e) × IsIn p (parents e)
unfolding get
child-get [] p c distinct keyed h = absurd h
child-get ((k, e) ∷ g) p c distinct keyed (inl (same, parent)) =
    (e, ground (arith, keyed.0), parent)
child-get ((k, e) ∷ g) p c distinct keyed (inr h) =
    let (d, found, parent) = child-get g p c distinct.1 keyed.1 h in
    elim (text_dec k c) [
      | yes same ↦ absurd (ground (arith, ap (λ x. get text_dec x g) same, distinct.0, found))
      | no other ↦ (d, ground (arith, found), parent)
    ]

get-child :
    (g : Graph) (p c : Text) (e : Event)
    → IsKeyed g
    → get text_dec c g ≡ some e
    → IsIn p (parents e)
    → IsChildIn g p c
unfolding get
get-child [] p c e keyed found parent = cc
get-child ((k, d) ∷ g) p c e keyed found parent = elim (text_dec k c) [
  | yes same ↦
      let one : d ≡ e = ground (arith, found) in
      inl (keyed.0 ∙ same, subst (λ x. IsIn p (parents x)) (sym one) parent)
  | no other ↦ inr (get-child g p c e keyed.1 (ground (arith, found)) parent)
]

abbrev at : Text → JsMap Text (List Text) → List Text
at p children = list_or_empty (get text_dec p children)

at-add_child :
    (p child : Text) (children : JsMap Text (List Text))
    → at p (add_child children p child) ≡ at p children ++ child ∷ []
at-add_child p child children = ap list_or_empty (get-put_self text_dec p _ children)

at-add_child_ne :
    (p q child : Text) (children : JsMap Text (List Text))
    → q ≢ p
    → at p (add_child children q child) ≡ at p children
at-add_child_ne p q child children other =
    ap list_or_empty (get-put_ne text_dec p q _ children other)

module _ (g : Graph) where
  -- One turn of the loop over the parents of an event.
  abbrev turn : Text → Text → JsMap Text (List Text) → JsMap Text (List Text)
  turn child q children = if in_graph g q then add_child children q child else children

  turn_sound :
      (child q p c : Text) (children : JsMap Text (List Text))
      → IsIn c (at p (turn child q children))
      → IsIn c (at p children) ⊎ ((child ≡ c) × (q ≡ p) × (in_graph g p ≡ true))
  turn_sound child q p c children h = elim (Bool-cases (in_graph g q)) [
    | inl inside ↦
        let added =
          subst (λ b. IsIn c (at p (if b then add_child children q child else children))) inside
            h in
        elim (text_dec q p) [
          | yes same ↦
              elim (IsIn-append c (at p children) (child ∷ []) (
                subst (IsIn c) (at-add_child p child children)
                  (subst (λ x. IsIn c (at p (add_child children x child))) same added))) [
                    | inl old ↦ inl old
                    | inr (inl new) ↦ inr (new, same, ap (in_graph g) (sym same) ∙ inside)
                    | inr (inr none_left) ↦ absurd none_left
                  ]
          | no other ↦ inl (subst (IsIn c) (at-add_child_ne p q child children other) added)
        ]
    | inr outside ↦
        inl (
          subst (λ b. IsIn c (at p (if b then add_child children q child else children))) outside h)
  ]

  turn-keeps :
      (child q p c : Text) (children : JsMap Text (List Text))
      → IsIn c (at p children)
      → IsIn c (at p (turn child q children))
  turn-keeps child q p c children h = elim (Bool-cases (in_graph g q)) [
    | inl inside ↦ rw (inside) (elim (text_dec q p) [
      | yes same ↦
          subst (λ x. IsIn c (at p (add_child children x child))) (sym same)
            (subst (IsIn c) (sym (at-add_child p child children))
              (IsIn-append_left c (at p children) (child ∷ []) h))
      | no other ↦ subst (IsIn c) (sym (at-add_child_ne p q child children other)) h
    ])
    | inr outside ↦ rw (outside) h
  ]

  turn-adds :
      (p c : Text) (children : JsMap Text (List Text))
      → in_graph g p ≡ true
      → IsIn c (at p (turn c p children))
  turn-adds p c children inside = rw (inside) (
      subst (IsIn c) (sym (at-add_child p c children))
        (IsIn-append_right c (at p children) (c ∷ []) (inl refl)))

  add_children_sound :
      (child p c : Text) (ps : List Text) (children : JsMap Text (List Text))
      → IsIn c (at p (add_children g child ps children))
      → IsIn c (at p children) ⊎ ((child ≡ c) × IsIn p ps × (in_graph g p ≡ true))
  unfolding add_children
  add_children_sound child p c [] children h = inl h
  add_children_sound child p c (q ∷ ps) children h =
      elim (add_children_sound child p c ps (turn child q children) h) [
        | inl first ↦ elim (turn_sound child q p c children first) [
          | inl old ↦ inl old
          | inr (new, same, inside) ↦ inr (new, inl same, inside)
        ]
        | inr (new, later, inside) ↦ inr (new, inr later, inside)
      ]

  add_children-keeps :
      (child p c : Text) (ps : List Text) (children : JsMap Text (List Text))
      → IsIn c (at p children)
      → IsIn c (at p (add_children g child ps children))
  unfolding add_children
  add_children-keeps child p c [] children h = h
  add_children-keeps child p c (q ∷ ps) children h =
      add_children-keeps child p c ps (turn child q children) (turn-keeps child q p c children h)

  add_children-adds :
      (p c : Text) (ps : List Text) (children : JsMap Text (List Text))
      → IsIn p ps
      → in_graph g p ≡ true
      → IsIn c (at p (add_children g c ps children))
  unfolding add_children
  add_children-adds p c [] children h inside = absurd h
  add_children-adds p c (q ∷ ps) children (inl same) inside =
      add_children-keeps c p c ps (turn c q children)
        (subst (λ x. IsIn c (at p (turn c x children))) (sym same) (turn-adds p c children inside))
  add_children-adds p c (q ∷ ps) children (inr later) inside =
      add_children-adds p c ps (turn c q children) later inside

  children_map_from_sound :
      (rest : Graph) (p c : Text) (children : JsMap Text (List Text))
      → IsIn c (at p (children_map_from g rest children))
      → IsIn c (at p children) ⊎ (IsChildIn rest p c × (in_graph g p ≡ true))
  unfolding children_map_from
  children_map_from_sound [] p c children h = inl h
  children_map_from_sound ((k, e) ∷ rest) p c children h =
      elim (children_map_from_sound rest p c (add_children g e.id (parents e) children) h) [
        | inl first ↦ elim (add_children_sound e.id p c (parents e) children first) [
          | inl old ↦ inl old
          | inr (same, parent, inside) ↦ inr (inl (same, parent), inside)
        ]
        | inr (later, inside) ↦ inr (inr later, inside)
      ]

  children_map_from-keeps :
      (rest : Graph) (p c : Text) (children : JsMap Text (List Text))
      → IsIn c (at p children)
      → IsIn c (at p (children_map_from g rest children))
  unfolding children_map_from
  children_map_from-keeps [] p c children h = h
  children_map_from-keeps ((k, e) ∷ rest) p c children h =
      children_map_from-keeps rest p c (add_children g e.id (parents e) children)
        (add_children-keeps e.id p c (parents e) children h)

  children_map_from-adds :
      (rest : Graph) (p c : Text) (children : JsMap Text (List Text))
      → IsChildIn rest p c
      → in_graph g p ≡ true
      → IsIn c (at p (children_map_from g rest children))
  unfolding children_map_from
  children_map_from-adds [] p c children h inside = absurd h
  children_map_from-adds ((k, e) ∷ rest) p c children (inl (same, parent)) inside =
      children_map_from-keeps rest p c (add_children g e.id (parents e) children) (
        subst (λ x. IsIn c (at p (add_children g x (parents e) children))) (sym same)
          (add_children-adds p c (parents e) children parent inside))
  children_map_from-adds ((k, e) ∷ rest) p c children (inr later) inside =
      children_map_from-adds rest p c (add_children g e.id (parents e) children) later inside

parents_of-some :
    (g : Graph) (c : Text) (e : Event)
    → get text_dec c g ≡ some e
    → parents_of g c ≡ keep_if (in_graph g) (parents e)
parents_of-some g c e found = ap (parents_in g) found

-- On the graph of some events, an id is a child of another if and only if the other is a parent of it
-- that the graph holds.
pub children_of-parents_of :
    (events : List Event) (p c : Text)
    → let g = graph_of events in
      (IsIn c (children_of g p) → IsIn p (parents_of g c))
      × (IsIn p (parents_of g c) → IsIn c (children_of g p))
unfolding get
children_of-parents_of events p c =
    let g = graph_of events in
    let keyed = add_events-IsKeyed events [] tt in
    let distinct = graph_of-IsMap events in
    (
      λ h. elim (children_map_from_sound g g p c [] h) [
        | inl nothing ↦ absurd nothing
        | inr (child, inside) ↦
            let (e, found, parent) = child-get g p c distinct keyed child in
            subst (IsIn p) (sym (parents_of-some g c e found))
              (keep_if-IsIn p (in_graph g) (parents e) parent inside)
      ],
      λ h. elim (Option-cases (get text_dec c g)) [
        | inl missing ↦ absurd (subst (IsIn p) (ap (parents_in g) missing) h)
        | inr (e, found) ↦
            let (parent, inside) =
              IsIn-keep_if p (in_graph g) (parents e)
                (subst (IsIn p) (parents_of-some g c e found) h) in
            children_map_from-adds g g p c [] (get-child g p c e keyed found parent) inside
      ],
    )
