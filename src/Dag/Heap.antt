-- ===== src/Dag/Heap.antt =====
-- The class `MinHeap` of js/dag/index.mjs. A heap is the list of its array, the root first; the
-- comparison is a parameter. An index out of bounds reads nothing and writes nothing.
pub mod Members
use fount_p2p.Base.{
  ℕ, zero, suc, ◌+◌, ◌*◌, ◌-◌, ◌/◌, Option, none, some, List, [], ◌∷◌, ◌++◌, Bool, true, false, ltb,
  ◌==◌, if◌then◌else◌, ◌&&◌, length, get_elem?, set, take,
}
use fount_p2p.Base.Int.{ℤ, is_negative}
use fount_p2p.Core.HexIds.{Text}

abbrev pub put_at : ℕ → Option Text → List Text → List Text
put_at i none items = items
put_at i (some a) items = set items i a

-- `[data[i], data[j]] = [data[j], data[i]]`
abbrev pub swap : ℕ → ℕ → List Text → List Text
swap i j items = put_at j (get_elem? items i) (put_at i (get_elem? items j) items)

-- The array after `data.pop()` and `data[0] = last`, where something is left.
abbrev pub last_to_front : List Text → List Text
last_to_front items =
    let rest = take (length items - 1) items in
    if length rest == 0 then [] else put_at 0 (get_elem? items (length items - 1)) rest

module _ (compare : Text → Text → ℤ) where
  -- `compare(data[i], data[j]) < 0`
  unfoldable pub is_less : Option Text → Option Text → Bool
  is_less none b = false
  is_less (some a) none = false
  is_less (some a) (some b) = is_negative (compare a b)

  abbrev pub less_at : List Text → ℕ → ℕ → Bool
  less_at items i j = is_less (get_elem? items i) (get_elem? items j)

  -- The loop of `push`, on fuel.
  unfoldable pub sift_up : ℕ → ℕ → List Text → List Text
  sift_up zero index items = items
  sift_up (suc fuel) index items = elim (ltb 0 index && less_at items index ((index - 1) / 2)) [
    | false ↦ items
    | true ↦ sift_up fuel ((index - 1) / 2) (swap index ((index - 1) / 2) items)
  ]

  unfoldable pub heap_push : Text → List Text → List Text
  heap_push value items = sift_up (length items) (length items) (items ++ value ∷ [])

  -- The index of the least of a node and its children.
  abbrev pub smallest : ℕ → List Text → ℕ
  smallest index items =
      let left = index * 2 + 1 in
      let first = if ltb left (length items) && less_at items left index then left else index in
      if ltb (left + 1) (length items) && less_at items (left + 1) first then left + 1 else first

  -- The loop of `pop`, on fuel.
  unfoldable pub sift_down : ℕ → ℕ → List Text → List Text
  sift_down zero index items = items
  sift_down (suc fuel) index items = elim (smallest index items == index) [
    | true ↦ items
    | false ↦ sift_down fuel (smallest index items) (swap index (smallest index items) items)
  ]

  unfoldable pub heap_pop : List Text → Option (Text × List Text)
  heap_pop [] = none
  heap_pop (top ∷ items) =
      let rest = last_to_front (top ∷ items) in some (top, sift_down (length rest) 0 rest)
