-- ===== src/Tests/Ordering.antt =====
-- Runs of the canonical order of js/dag/index.mjs.
use fount_p2p.Base.{
  arith, replicate, ◌≤◌, ◌<◌, ap, subst, sym, ◌∙◌, List, ℕ, ℕ_discrete, ◌≡◌, refl, [], ◌∷◌,
  if◌then◌else◌,
}
use fount_p2p.Base.Int.{ℤ, pos, negsuc}
use fount_p2p.Base.JsMap.{get, put}
use fount_p2p.Core.HexIds.{Text, text_dec, text_lt, sorted_prev_event_ids, sort, dedupe}
use fount_p2p.Core.HexIds.{is_event_id, all_hex, is_hex_digit, decided, insert_sorted}
use fount_p2p.Core.HexIds.Count.{occurrences}
use fount_p2p.Dag.Heap
use fount_p2p.Dag.Order
use fount_p2p.Dag.Order.Build.{ids_of}
use fount_p2p.Dag.Order.Canonical
use fount_p2p.Dag.Order.Run.{IsParentsFirst}

-- Texts compared by their units.
abbrev pub by_units : Text → Text → ℤ
by_units a b = if text_lt a b then negsuc 0 else pos 1

abbrev at_wall : ℕ → ℕ → Order.Meta
at_wall name wall = record {
  id = name ∷ [];
  prev_event_ids = [];
  wall = wall;
  logical = 0;
  node_id = [];
}

by_wall :
    Order.topological_canonical_order by_units (at_wall 1 30 ∷ at_wall 2 10 ∷ at_wall 3 20 ∷ [])
    ≡ (2 ∷ []) ∷ (3 ∷ []) ∷ (1 ∷ []) ∷ []
unfolding Order.topological_canonical_order get put text_dec ℕ_discrete Order.order_from
    Order.push_count sorted_prev_event_ids sort dedupe Heap.heap_pop Order.ready_from
    Order.links_from Heap.heap_push Heap.sift_up Heap.is_less Order.compare_ids Order.metas_by_id
    Order.release Order.add_child_to Heap.sift_down
by_wall = refl

-- A parent and its child, which the input has first though its clock is behind.
abbrev pub parent_id : Text
parent_id = replicate 64 b'b'

abbrev pub child_id : Text
child_id = replicate 64 b'a'

abbrev pub child_first : List Order.Meta
child_first =
    record { id = child_id; prev_event_ids = parent_id ∷ []; wall = 10; logical = 0; node_id = [] }
    ∷ record { id = parent_id; prev_event_ids = []; wall = 20; logical = 0; node_id = [] }
    ∷ []

child_once : occurrences child_id (ids_of child_first) ≤ 1
unfolding text_dec ℕ_discrete
child_once = omega arith

pub child_first-IsDistinct : Canonical.IsDistinct child_first
child_first-IsDistinct u = elim (text_dec child_id u) [
  | yes e ↦ subst (λ y. occurrences y (ids_of child_first) ≤ 1) e child_once
  | no d ↦ ground arith
]

abbrev pub rank : Text → ℕ
rank u = if decided (text_dec u parent_id) then 0 else 1

child_parents : Canonical.parents_of child_first child_id ≡ parent_id ∷ []
unfolding get put text_dec ℕ_discrete sorted_prev_event_ids sort dedupe Order.metas_by_id
    is_event_id all_hex is_hex_digit insert_sorted
child_parents = refl

parent_parents : Canonical.parents_of child_first parent_id ≡ []
unfolding get put text_dec ℕ_discrete sorted_prev_event_ids sort dedupe Order.metas_by_id
    is_event_id all_hex is_hex_digit insert_sorted
parent_parents = refl

child_rank : (rank parent_id ≡ 0) × (rank child_id ≡ 1)
unfolding text_dec ℕ_discrete
child_rank = (refl, refl)

pub child_first_grows :
    (p c : Text) → 1 ≤ occurrences p (Canonical.parents_of child_first c) → rank p < rank c
child_first_grows p c h = elim (text_dec child_id c) [
  | yes e ↦ elim (text_dec parent_id p) [
    | yes f ↦ omega (arith, child_rank.0, child_rank.1, ap rank e, ap rank f)
    | no g ↦ absurd (
        ground (
          arith,
          ap (occurrences p) (ap (Canonical.parents_of child_first) (sym e) ∙ child_parents),
        ))
  ]
  | no d ↦ elim (text_dec parent_id c) [
    | yes f ↦ absurd (
        omega (
          arith,
          ap (occurrences p) (ap (Canonical.parents_of child_first) (sym f) ∙ parent_parents),
        ))
    | no g ↦ absurd (ground arith)
  ]
]

topological_canonical_order_lem_example :
    let ids = Order.topological_canonical_order by_units child_first in
    IsParentsFirst (Canonical.parents_of child_first) [] ids
    × ((u : Text) → occurrences u ids ≤ occurrences u (ids_of child_first))
    × ((u : Text)
        → 1 ≤ occurrences u (ids_of child_first)
        → ((p : Text)
            → 1 ≤ occurrences p (Canonical.parents_of child_first u)
            → 1 ≤ occurrences p ids)
        → 1 ≤ occurrences u ids)
topological_canonical_order_lem_example =
    Canonical.topological_canonical_order_lem by_units child_first (refl, (refl, tt))
      child_first-IsDistinct

topological_canonical_order_complete_example :
    occurrences child_id (Order.topological_canonical_order by_units child_first)
    ≡ occurrences child_id (ids_of child_first)
topological_canonical_order_complete_example =
    Canonical.topological_canonical_order_complete by_units child_first rank (refl, (refl, tt))
      child_first-IsDistinct child_first_grows child_id
