-- ===== src/Dag/Heap/Members.antt =====
-- The operations of `MinHeap` in js/dag/index.mjs keep the members of the heap.
use fount_p2p.Base.{
  ℕ, zero, suc, ◌+◌, ◌-◌, ◌/◌, ◌<◌, ◌≡◌, refl, ◌⊎◌, none, some, List, [], ◌∷◌, ◌++◌, arith, inl,
  inr, length, get_elem?, set, take, ◌==◌, Option-cases, Bool-cases, ◌∙◌,
}
use fount_p2p.Base.Int.{ℤ}
use fount_p2p.Core.HexIds.{Text}
use fount_p2p.Core.HexIds.Count.{
  is_one, occurrences, occurrences-append, occurrences-set, set_outside, get_elem?-set,
  get_elem?-some, get_elem?-none,
}
use fount_p2p.Dag.Heap.{swap, last_to_front, sift_up, heap_push, smallest, sift_down, heap_pop}

swap_inside :
    (u : Text) (items : List Text) (i j : ℕ) (a b : Text)
    → get_elem? items i ≡ some a
    → get_elem? items j ≡ some b
    → occurrences u (set (set items i b) j a) ≡ occurrences u items
swap_inside u items i j a b h k =
    let there : get_elem? (set items i b) j ≡ some b =
      ground (arith, get_elem?-set items i j b, get_elem?-some items i a h) in
    omega (arith, occurrences-set u items i b a h, occurrences-set u (set items i b) j a b there)

pub swap_outside :
    (items : List Text) (i j : ℕ)
    → (get_elem? items i ≡ none) ⊎ (get_elem? items j ≡ none)
    → swap i j items ≡ items
swap_outside items i j (inl h) = elim (Option-cases (get_elem? items j)) [
  | inl k ↦ rw (h, k) refl
  | inr (b, k) ↦ rw (h, k) (set_outside items i b h)
]
swap_outside items i j (inr k) = elim (Option-cases (get_elem? items i)) [
  | inl h ↦ rw (h, k) refl
  | inr (a, h) ↦ rw (h, k) (set_outside items j a k)
]

pub occurrences-swap :
    (u : Text) (items : List Text) (i j : ℕ) → occurrences u (swap i j items) ≡ occurrences u items
occurrences-swap u items i j = elim (Option-cases (get_elem? items i)) [
  | inl h ↦ rw (swap_outside items i j (inl h)) refl
  | inr (a, h) ↦ elim (Option-cases (get_elem? items j)) [
    | inl k ↦ rw (swap_outside items i j (inr k)) refl
    | inr (b, k) ↦ rw (h, k) (swap_inside u items i j a b h k)
  ]
]

occurrences-take :
    (u : Text) (n : ℕ) (xs : List Text) (v : Text)
    → length xs ≡ suc n
    → get_elem? xs n ≡ some v
    → occurrences u (take n xs) + is_one u v ≡ occurrences u xs
occurrences-take u zero [] v h k = absurd (omega arith)
occurrences-take u zero (x ∷ []) v h k = ground arith
occurrences-take u zero (x ∷ y ∷ xs) v h k = absurd (omega arith)
occurrences-take u (suc n) [] v h k = absurd (omega arith)
occurrences-take u (suc n) (x ∷ xs) v h k = omega (arith, occurrences-take u n xs v (omega arith) k)

get_elem?-inside : (xs : List Text) (i : ℕ) → i < length xs → (v : Text) × (get_elem? xs i ≡ some v)
get_elem?-inside xs i h = elim (Option-cases (get_elem? xs i)) [
  | inl e ↦ absurd (omega (arith, get_elem?-none xs i e))
  | inr e ↦ e
]

occurrences-last_to_front :
    (u top : Text) (items : List Text)
    → is_one u top + occurrences u (last_to_front (top ∷ items)) ≡ occurrences u (top ∷ items)
occurrences-last_to_front u top [] = refl
occurrences-last_to_front u top (x ∷ items) =
    let less_one : length (top ∷ x ∷ items) - 1 ≡ suc (length items) = omega arith in
    let (v, found) = get_elem?-inside (x ∷ items) (length items) (omega arith) in
    let front : last_to_front (top ∷ x ∷ items) ≡ v ∷ take (length items) (x ∷ items) =
      rw (less_one, found) (ground arith) in
    rw front (omega (arith, occurrences-take u (length items) (x ∷ items) v (omega arith) found))

module _ (compare : Text → Text → ℤ) where
  occurrences-sift_up :
      (u : Text) (fuel index : ℕ) (items : List Text)
      → occurrences u (sift_up compare fuel index items) ≡ occurrences u items
  unfolding sift_up
  occurrences-sift_up u zero index items = refl
  occurrences-sift_up u (suc fuel) index items = ground (
    arith,
    occurrences-sift_up u fuel ((index - 1) / 2) (swap index ((index - 1) / 2) items),
    occurrences-swap u items index ((index - 1) / 2),
  )

  occurrences-sift_down :
      (u : Text) (fuel index : ℕ) (items : List Text)
      → occurrences u (sift_down compare fuel index items) ≡ occurrences u items
  unfolding sift_down
  occurrences-sift_down u zero index items = refl
  occurrences-sift_down u (suc fuel) index items =
      elim (Bool-cases (smallest compare index items == index)) [
        | inl e ↦ rw (e, sift_down) refl
        | inr e ↦
            rw (e, sift_down)
              (occurrences-sift_down u fuel (smallest compare index items)
                  (swap index (smallest compare index items) items)
                ∙ occurrences-swap u items index (smallest compare index items))
      ]

  pub occurrences-heap_push :
      (u value : Text) (items : List Text)
      → occurrences u (heap_push compare value items) ≡ is_one u value + occurrences u items
  unfolding heap_push
  occurrences-heap_push u value items = omega (
    arith,
    occurrences-sift_up u (length items) (length items) (items ++ value ∷ []),
    occurrences-append u items (value ∷ []),
  )

  -- What a pop returns: nothing for an empty heap, else its root and the others.
  pub occurrences-heap_pop :
      (top : Text) (items : List Text)
      → (rest : List Text) × (heap_pop compare (top ∷ items) ≡ some (top, rest))
        × ((u : Text) → is_one u top + occurrences u rest ≡ occurrences u (top ∷ items))
  unfolding heap_pop
  occurrences-heap_pop top items =
      let rest = last_to_front (top ∷ items) in
      (
        sift_down compare (length rest) 0 rest,
        refl,
        λ u. omega (
          arith,
          occurrences-sift_down u (length rest) 0 rest,
          occurrences-last_to_front u top items,
        ),
      )
