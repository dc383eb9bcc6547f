-- ===== src/Dag/Order/Run.antt =====
-- The whole loop of `topologicalCanonicalOrder` (js/dag/index.mjs), from any round to its end.
use fount_p2p.Base.{
  ℕ, zero, suc, ◌+◌, ◌≤◌, ◌≡◌, refl, some, List, [], ◌∷◌, true, false, arith, inl, inr, length,
  ◌==◌, Bool-cases, subst, All,
}
use fount_p2p.Base.Int.{ℤ}
use fount_p2p.Base.JsMap.{JsMap, get}
use fount_p2p.Core.HexIds.{Text, text_dec, contains}
use fount_p2p.Core.HexIds.Count.{occurrences}
use fount_p2p.Dag.Heap.{heap_pop}
use fount_p2p.Dag.Heap.Members.{occurrences-heap_pop}
use fount_p2p.Dag.Order.Loop.{IsGraph, IsRound, next-new, round-step}
use fount_p2p.Dag.Order.Release.{
  missing, missing-cons, missing-none, none-missing, contains-occurrences, released,
}
use fount_p2p.Dag.Order.{Metas, compare_ids, order_from, ids_or_empty}

-- Each id comes after all its parents, where `out` has come before the list.
abbrev pub IsParentsFirst : (Text → List Text) → List Text → List Text → Type 0
IsParentsFirst parents out [] = Unit
IsParentsFirst parents out (x ∷ xs) =
    All (λ p. contains p out ≡ true) (parents x) × IsParentsFirst parents (x ∷ out) xs

occurrences-All :
    (P : Text → Type 0) (xs : List Text) → ((p : Text) → 1 ≤ occurrences p xs → P p) → All P xs
occurrences-All P [] h = tt
occurrences-All P (x ∷ xs) h = (h x (ground arith), occurrences-All P xs (λ p k. h p (omega arith)))

pub All-occurrences :
    (P : Text → Type 0) (xs : List Text) (p : Text) → All P xs → 1 ≤ occurrences p xs → P p
All-occurrences P [] p h k = absurd (omega arith)
All-occurrences P (x ∷ xs) p h k = elim (text_dec x p) [
  | yes e ↦ subst P e h.0
  | no d ↦ All-occurrences P xs p h.1 (ground arith)
]

pub occurrences-contains-true :
    (p : Text) (xs : List Text) → 1 ≤ occurrences p xs → contains p xs ≡ true
occurrences-contains-true p xs h = elim (Bool-cases (contains p xs)) [
  | inl e ↦ e
  | inr e ↦ absurd (omega (arith, contains-occurrences p xs e))
]

contains-true-occurrences :
    (p : Text) (xs : List Text) → contains p xs ≡ true → 1 ≤ occurrences p xs
contains-true-occurrences p [] h = cc
contains-true-occurrences p (x ∷ xs) h = ground (arith, contains-true-occurrences p xs)

module _ (locale_compare : Text → Text → ℤ) (by_id : Metas) (nodes : List Text)
    (parents : Text → List Text) (children : JsMap Text (List Text))
    (graph : IsGraph nodes parents children) where
  abbrev Round : List Text → JsMap Text ℤ → List Text → Type 0
  Round out counts ready =
      IsRound locale_compare by_id nodes parents children graph out counts ready

  abbrev after : ℕ → JsMap Text ℤ → List Text → List Text
  after fuel counts ready = order_from locale_compare fuel by_id children counts ready

  order_from_pop :
      (fuel : ℕ) (next : Text) (ready rest : List Text) (counts : JsMap Text ℤ)
      → heap_pop (compare_ids locale_compare by_id) ready ≡ some (next, rest)
      → (length next == 0) ≡ false
      → let r =
          released locale_compare by_id (ids_or_empty (get text_dec next children)) counts rest in
        after (suc fuel) counts ready ≡ next ∷ after fuel r.0 r.1
  unfolding order_from
  order_from_pop fuel next ready rest counts h k = rw (h, k, order_from) refl

  -- One turn: what is taken from the heap, and the round that follows.
  turn :
      (fuel : ℕ) (top : Text) (items out : List Text) (counts : JsMap Text ℤ)
      → Round out counts (top ∷ items)
      → (counts' : JsMap Text ℤ) × (ready' : List Text) × (after (suc fuel) counts (top ∷ items)
          ≡ top ∷ after fuel counts' ready')
        × Round (top ∷ out) counts' ready'
  turn fuel top items out counts round =
      let (rest, popped, split) =
        occurrences-heap_pop (compare_ids locale_compare by_id) top items in
      let among : 1 ≤ occurrences top (top ∷ items) = ground arith in
      let (free, node, ready_now) =
        next-new locale_compare by_id nodes parents children graph top out counts (top ∷ items)
          round among in
      let named : (length top == 0) ≡ false = graph.named top (omega arith) in
      let r =
        released locale_compare by_id (ids_or_empty (get text_dec top children)) counts rest in
      (
        r.0,
        r.1,
        order_from_pop fuel top (top ∷ items) rest counts popped named,
        round-step locale_compare by_id nodes parents children graph top out (top ∷ items) rest
            counts round among split,
      )

  stop : (fuel : ℕ) (counts : JsMap Text ℤ) → after fuel counts [] ≡ []
  unfolding order_from heap_pop
  stop zero counts = refl
  stop (suc fuel) counts = refl

  -- From any round: parents come first.
  pub run-IsParentsFirst :
      (fuel : ℕ) (out ready : List Text) (counts : JsMap Text ℤ)
      → Round out counts ready
      → IsParentsFirst parents out (after fuel counts ready)
  unfolding order_from
  run-IsParentsFirst zero out ready counts round = tt
  run-IsParentsFirst (suc fuel) out [] counts round = rw (stop (suc fuel) counts) tt
  run-IsParentsFirst (suc fuel) out (top ∷ items) counts round =
      let (counts', ready', same, round') = turn fuel top items out counts round in
      let ready_now =
        next-new locale_compare by_id nodes parents children graph top out counts (top ∷ items)
          round (ground arith) in
      rw same (
        missing-none out (parents top) ready_now.2,
        run-IsParentsFirst fuel (top ∷ out) ready' counts' round',
      )

  -- From any round: an id is out at most as often as it is a node.
  pub run-occurrences-le :
      (fuel : ℕ) (out ready : List Text) (counts : JsMap Text ℤ) (u : Text)
      → Round out counts ready
      → occurrences u out + occurrences u (after fuel counts ready) ≤ occurrences u nodes
  unfolding order_from
  run-occurrences-le zero out ready counts u round = ground (arith, round.once_ready u)
  run-occurrences-le (suc fuel) out [] counts u round =
      rw (stop (suc fuel) counts) (ground (arith, round.once_ready u))
  run-occurrences-le (suc fuel) out (top ∷ items) counts u round =
      let (counts', ready', same, round') = turn fuel top items out counts round in
      rw same (omega (arith, run-occurrences-le fuel (top ∷ out) ready' counts' u round'))

  -- From any round, with fuel for what is left: a node whose parents are all out is out.
  pub run_closed :
      (fuel : ℕ) (out ready : List Text) (counts : JsMap Text ℤ) (u : Text)
      → Round out counts ready
      → missing out nodes ≤ fuel
      → 1 ≤ occurrences u nodes
      → ((p : Text)
          → 1 ≤ occurrences p (parents u)
          → 1 ≤ occurrences p out + occurrences p (after fuel counts ready))
      → 1 ≤ occurrences u out + occurrences u (after fuel counts ready)
  unfolding order_from
  run_closed zero out ready counts u round enough node above = omega (
    arith,
    contains-true-occurrences u out (
        All-occurrences (λ p. contains p out ≡ true) nodes u (missing-none out nodes (omega arith))
          node),
  )
  run_closed (suc fuel) out [] counts u round enough node above =
      let all_out : missing out (parents u) ≡ 0 = none-missing out (parents u) (
        occurrences-All (λ p. contains p out ≡ true) (parents u)
          (λ p k. occurrences-contains-true p out (
            omega (
              arith,
              subst (λ xs. 1 ≤ occurrences p out + occurrences p xs) (stop (suc fuel) counts)
                  (above p k),
            )))) in
      rw (stop (suc fuel) counts) (ground (arith, round.once_ready u, all_out))
  run_closed (suc fuel) out (top ∷ items) counts u round enough node above =
      let (counts', ready', same, round') = turn fuel top items out counts round in
      let (free, once, ready_now) =
        next-new locale_compare by_id nodes parents children graph top out counts (top ∷ items)
          round (ground arith) in
      let later =
        run_closed fuel (top ∷ out) ready' counts' u round'
          (omega (arith, missing-cons top out nodes free, once)) node
          (λ p k.
            omega
              (arith, subst (λ xs. 1 ≤ occurrences p out + occurrences p xs) same (above p k))) in
      rw same (omega (arith, later))
