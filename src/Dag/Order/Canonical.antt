-- ===== src/Dag/Order/Canonical.antt =====
-- `topologicalCanonicalOrder` (js/dag/index.mjs) as a whole, on events with distinct, non-empty ids.
use fount_p2p.Base.{
  ℕ, zero, suc, ◌≤◌, ◌<◌, ◌≡◌, none, some, List, [], ◌∷◌, false, arith, inl, inr, length, ◌==◌, sym,
  ◌∙◌, ap, subst, All, Option-cases, dec_le,
}
use fount_p2p.Base.Int.{ℤ, pos}
use fount_p2p.Base.JsMap.{get}
use fount_p2p.Core.HexIds.{Text, text_dec}
use fount_p2p.Core.HexIds.Count.{occurrences}
use fount_p2p.Dag.Order.Build.{
  ids_of, find_meta, parents_found, find_meta-none, find_meta-some, get-metas_by_id,
  get-links_from_counts, count_of-some, times_child-links_from, occurrences-ready_from,
  occurrences-parents_found-le, parents_found-has, length-ids_of-le,
}
use fount_p2p.Dag.Order.Loop.{IsGraph, IsRound}
use fount_p2p.Dag.Order.Release.{missing, missing-nil}
use fount_p2p.Dag.Order.Run.{IsParentsFirst, run-IsParentsFirst, run-occurrences-le, run_closed}
use fount_p2p.Dag.Order.{
  Meta, Metas, Links, metas_by_id, links_from, ready_from, push_count, topological_canonical_order,
}

-- The parents of an id among the events.
abbrev pub parents_of : List Meta → Text → List Text
parents_of metas c = parents_found (metas_by_id [] metas) (find_meta c metas)

abbrev pub IsNamed : List Meta → Type 0
IsNamed metas = All (λ m. (length m.id == 0) ≡ false) metas

abbrev pub IsDistinct : List Meta → Type 0
IsDistinct metas = (u : Text) → occurrences u (ids_of metas) ≤ 1

IsNamed-id :
    (metas : List Meta) (c : Text)
    → IsNamed metas
    → 1 ≤ occurrences c (ids_of metas)
    → (length c == 0) ≡ false
IsNamed-id [] c named h = absurd (omega arith)
IsNamed-id (m ∷ metas) c named h = elim (text_dec m.id c) [
  | yes e ↦ subst (λ y. (length y == 0) ≡ false) e named.0
  | no d ↦ IsNamed-id metas c named.1 (ground arith)
]

parents_of-some :
    (metas : List Meta) (p c : Text)
    → 1 ≤ occurrences p (parents_of metas c)
    → 1 ≤ occurrences c (ids_of metas)
parents_of-some metas p c h = elim (Option-cases (find_meta c metas)) [
  | inl e ↦
      absurd (ground (arith, ap (λ o. occurrences p (parents_found (metas_by_id [] metas) o)) e))
  | inr (m, e) ↦ find_meta-some c metas m e
]

module _ (metas : List Meta) (named : IsNamed metas) (distinct : IsDistinct metas) where
  abbrev by_id : Metas
  by_id = metas_by_id [] metas

  abbrev links : Links
  links = links_from by_id metas (record { parent_count = []; children = [] })

  parents_of-inside :
      (p c : Text) → 1 ≤ occurrences p (parents_of metas c) → 1 ≤ occurrences p (ids_of metas)
  unfolding get
  parents_of-inside p c h = elim (Option-cases (find_meta p metas)) [
    | inl e ↦ ground (
      arith,
      e,
      get-metas_by_id p [] metas distinct,
      parents_found-has by_id p (find_meta c metas) h,
    )
    | inr (m, e) ↦ find_meta-some p metas m e
  ]

  graph : IsGraph (ids_of metas) (parents_of metas) links.children
  unfolding get
  graph = record {
    once = distinct;
    named = λ c h. IsNamed-id metas c named h;
    parents_once = λ p c. occurrences-parents_found-le by_id p (find_meta c metas);
    parents_inside = parents_of-inside;
    has_node = parents_of-some metas;
    mirror = λ p c. omega (
      arith,
      times_child-links_from by_id c p metas (record { parent_count = []; children = [] }) distinct,
    );
  }

  count_found :
      (c : Text)
      → 1 ≤ occurrences c (ids_of metas)
      → get text_dec c links.parent_count ≡ some (pos (missing [] (parents_of metas c)))
  unfolding get
  count_found c inside =
      let counted =
        get-links_from_counts by_id c metas (record { parent_count = []; children = [] })
          distinct in
      elim (Option-cases (find_meta c metas)) [
        | inl e ↦ absurd (omega (arith, find_meta-none c metas e))
        | inr (m, e) ↦
            counted
            ∙ count_of-some by_id (find_meta c metas) none m e
            ∙ ap (λ n. some (pos n)) (sym (missing-nil (parents_of metas c)))
      ]

  module _ (locale_compare : Text → Text → ℤ) where
    start :
        IsRound locale_compare by_id
          (ids_of metas)
          (parents_of metas)
          links.children
          graph
          []
          links.parent_count
          (ready_from locale_compare by_id links.parent_count metas [])
    start = record {
      counted = count_found;
      once_ready = λ c. elim (dec_le 1 (occurrences c (ids_of metas))) [
        | yes inside ↦ ground (
          arith,
          occurrences-ready_from locale_compare by_id links.parent_count c metas [],
          count_found c inside,
        )
        | no outside ↦
            ground
              (arith, occurrences-ready_from locale_compare by_id links.parent_count c metas [])
      ];
    }

    fuel_enough : missing [] (ids_of metas) ≤ push_count locale_compare by_id metas
    fuel_enough =
        omega (arith, missing-nil (ids_of metas), length-ids_of-le by_id locale_compare metas)

-- On events with distinct, non-empty ids: every id comes after all its parents among the events; no
-- id comes more often than there is an event with it; and each event whose parents are all in the
-- result is in the result.
pub topological_canonical_order_lem :
    (locale_compare : Text → Text → ℤ) (metas : List Meta)
    → IsNamed metas
    → IsDistinct metas
    → let ids = topological_canonical_order locale_compare metas in
      IsParentsFirst (parents_of metas) [] ids
      × ((u : Text) → occurrences u ids ≤ occurrences u (ids_of metas))
      × ((u : Text)
          → 1 ≤ occurrences u (ids_of metas)
          → ((p : Text) → 1 ≤ occurrences p (parents_of metas u) → 1 ≤ occurrences p ids)
          → 1 ≤ occurrences u ids)
unfolding topological_canonical_order
topological_canonical_order_lem locale_compare metas named distinct =
    let g = graph metas named distinct in
    let round = start metas named distinct locale_compare in
    let by_id = metas_by_id [] metas in
    let links = links_from by_id metas (record { parent_count = []; children = [] }) in
    let fuel = push_count locale_compare by_id metas in
    let ready = ready_from locale_compare by_id links.parent_count metas [] in
    (
      run-IsParentsFirst locale_compare by_id (ids_of metas) (parents_of metas) links.children g
          fuel [] ready links.parent_count round,
      λ u. omega (
        arith,
        run-occurrences-le locale_compare by_id (ids_of metas) (parents_of metas) links.children g
            fuel [] ready links.parent_count u round,
      ),
      λ u inside above. omega (
        arith,
        run_closed locale_compare by_id (ids_of metas) (parents_of metas) links.children g fuel []
            ready links.parent_count u round (fuel_enough metas named distinct locale_compare)
            inside (λ p k. omega (arith, above p k)),
      ),
    )

ranked-out :
    (metas : List Meta) (rank : Text → ℕ) (ids : List Text) (n : ℕ) (u : Text)
    → ((p c : Text) → 1 ≤ occurrences p (parents_of metas c) → rank p < rank c)
    → ((p c : Text) → 1 ≤ occurrences p (parents_of metas c) → 1 ≤ occurrences p (ids_of metas))
    → ((c : Text)
        → 1 ≤ occurrences c (ids_of metas)
        → ((p : Text) → 1 ≤ occurrences p (parents_of metas c) → 1 ≤ occurrences p ids)
        → 1 ≤ occurrences c ids)
    → rank u < n
    → 1 ≤ occurrences u (ids_of metas)
    → 1 ≤ occurrences u ids
ranked-out metas rank ids zero u grows above closed low inside = absurd (omega arith)
ranked-out metas rank ids (suc n) u grows above closed low inside = closed u inside (λ p k.
    ranked-out metas rank ids n p grows above closed (omega (arith, grows p u k)) (above p u k))

-- On events with distinct, non-empty ids whose parents have no cycle, as a rank that grows from
-- parent to child shows, the result has exactly the ids of the events, each as often.
pub topological_canonical_order_complete :
    (locale_compare : Text → Text → ℤ) (metas : List Meta) (rank : Text → ℕ)
    → IsNamed metas
    → IsDistinct metas
    → ((p c : Text) → 1 ≤ occurrences p (parents_of metas c) → rank p < rank c)
    → (u : Text)
    → occurrences u (topological_canonical_order locale_compare metas)
      ≡ occurrences u (ids_of metas)
topological_canonical_order_complete locale_compare metas rank named distinct grows u =
    let (first, at_most, closed) =
      topological_canonical_order_lem locale_compare metas named distinct in
    elim (dec_le 1 (occurrences u (ids_of metas))) [
      | yes inside ↦ omega (
        arith,
        at_most u,
        distinct u,
        ranked-out metas rank (topological_canonical_order locale_compare metas) (suc (rank u)) u
            grows (parents_of-inside metas named distinct) closed (omega arith) inside,
      )
      | no outside ↦ omega (arith, at_most u)
    ]
