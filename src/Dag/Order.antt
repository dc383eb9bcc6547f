-- ===== src/Dag/Order.antt =====
-- `topologicalCanonicalOrder` of js/dag/index.mjs. The host's `localeCompare` is a parameter.
pub mod Release
pub mod Loop
pub mod Run
pub mod Build
pub mod Canonical
use fount_p2p.Base.{
  ℕ, zero, suc, ◌+◌, ◌*◌, ◌-◌, ◌/◌, Option, none, some, List, [], ◌∷◌, ◌++◌, Bool, true, false, ltb,
  ◌==◌, if◌then◌else◌, ◌&&◌, length, get_elem?, set, keep_if, take,
}
use fount_p2p.Base.Int.{ℤ, pos, negsuc, sub_ℕ, is_negative}
use fount_p2p.Base.JsMap.{JsMap, get, has, put}
use fount_p2p.Dag.Heap.{heap_push, heap_pop}
use fount_p2p.Core.HexIds.{Text, text_dec, decided, sorted_prev_event_ids}

pub record Meta : Type 0 where
  pub id : Text
  pub prev_event_ids : List Text
  pub wall : ℕ
  pub logical : ℕ
  pub node_id : Text

abbrev pub Metas : Type 0
Metas = JsMap Text Meta

unfoldable pub metas_by_id : Metas → List Meta → Metas
metas_by_id by_id [] = by_id
metas_by_id by_id (m ∷ metas) = metas_by_id (put text_dec m.id m by_id) metas

abbrev pub parents_in_graph : Metas → Meta → List Text
parents_in_graph by_id m =
    keep_if (λ p. has text_dec p by_id) (sorted_prev_event_ids m.prev_event_ids)

-- The numbers of parents that are still to be ordered, and the children of each id.
pub record Links : Type 0 where
  pub parent_count : JsMap Text ℤ
  pub children : JsMap Text (List Text)

abbrev pub ids_or_empty : Option (List Text) → List Text
ids_or_empty none = []
ids_or_empty (some ids) = ids

unfoldable pub add_child_to : Text → List Text → JsMap Text (List Text) → JsMap Text (List Text)
add_child_to child [] children = children
add_child_to child (p ∷ parents) children =
    add_child_to child parents
      (put text_dec p (ids_or_empty (get text_dec p children) ++ child ∷ []) children)

unfoldable pub links_from : Metas → List Meta → Links → Links
links_from by_id [] links = links
links_from by_id (m ∷ metas) links =
    let parents = parents_in_graph by_id m in
    links_from by_id metas (record {
      parent_count = put text_dec m.id (pos (length parents)) links.parent_count;
      children = add_child_to m.id parents links.children;
    })

-- What the comparison reads of an id: its clock and its node, 0 and empty where it has none.
abbrev pub wall_of : Option Meta → ℕ
wall_of none = 0
wall_of (some m) = m.wall

abbrev pub logical_of : Option Meta → ℕ
logical_of none = 0
logical_of (some m) = m.logical

abbrev pub node_of : Option Meta → Text
node_of none = []
node_of (some m) = m.node_id

-- `count || 0`
abbrev pub count_or_zero : Option ℤ → ℤ
count_or_zero none = pos 0
count_or_zero (some n) = n

-- n - 1
abbrev pub minus_one : ℤ → ℤ
minus_one (pos zero) = negsuc 0
minus_one (pos (suc n)) = pos n
minus_one (negsuc n) = negsuc (suc n)

abbrev pub is_zero : ℤ → Bool
is_zero (pos n) = n == 0
is_zero (negsuc n) = false

abbrev pub is_count_zero : Option ℤ → Bool
is_count_zero none = false
is_count_zero (some n) = is_zero n

module _ (locale_compare : Text → Text → ℤ) where
  unfoldable pub compare_ids : Metas → Text → Text → ℤ
  compare_ids by_id left_id right_id =
      let left = get text_dec left_id by_id in
      let right = get text_dec right_id by_id in
      if wall_of left == wall_of right
      then (if logical_of left == logical_of right
          then (if decided (text_dec (node_of left) (node_of right))
              then locale_compare left_id right_id
              else locale_compare (node_of left) (node_of right))
          else sub_ℕ (logical_of left) (logical_of right))
      else sub_ℕ (wall_of left) (wall_of right)

  unfoldable pub ready_from : Metas → JsMap Text ℤ → List Meta → List Text → List Text
  ready_from by_id parent_count [] ready = ready
  ready_from by_id parent_count (m ∷ metas) ready = ready_from by_id parent_count metas (
      if is_count_zero (get text_dec m.id parent_count)
      then heap_push (compare_ids by_id) m.id ready
      else ready)

  -- The children of an ordered id: each has one parent less to wait for.
  unfoldable pub release : Metas → List Text → JsMap Text ℤ → List Text → JsMap Text ℤ × List Text
  release by_id [] parent_count ready = (parent_count, ready)
  release by_id (child ∷ children) parent_count ready =
      let remaining = minus_one (count_or_zero (get text_dec child parent_count)) in
      release by_id children (put text_dec child remaining parent_count)
        (if is_zero remaining then heap_push (compare_ids by_id) child ready else ready)

  -- The loop, on fuel.
  unfoldable pub order_from :
      ℕ → Metas → JsMap Text (List Text) → JsMap Text ℤ → List Text → List Text
  order_from zero by_id children parent_count ready = []
  order_from (suc fuel) by_id children parent_count ready =
      elim (heap_pop (compare_ids by_id) ready) [
        | none ↦ []
        | some (next, rest) ↦ elim (length next == 0) [
          | true ↦ []
          | false ↦
              let (counts, heap) =
                release by_id (ids_or_empty (get text_dec next children)) parent_count rest in
              next ∷ order_from fuel by_id children counts heap
        ]
      ]

  -- The pushes that can happen: one for each event and one for each edge.
  unfoldable pub push_count : Metas → List Meta → ℕ
  push_count by_id [] = 0
  push_count by_id (m ∷ metas) = suc (length (parents_in_graph by_id m)) + push_count by_id metas

  unfoldable pub topological_canonical_order : List Meta → List Text
  topological_canonical_order metas =
      let by_id = metas_by_id [] metas in
      let links = links_from by_id metas (record { parent_count = []; children = [] }) in
      order_from (push_count by_id metas) by_id links.children links.parent_count
        (ready_from by_id links.parent_count metas [])
