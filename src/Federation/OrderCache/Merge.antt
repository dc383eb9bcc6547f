-- ===== src/Federation/OrderCache/Merge.antt =====
-- `mergeTopologicalOrder` of js/federation/dag_order_cache.mjs puts every new event at the end.
use fount_p2p.Base.{
  ℕ, ◌+◌, ◌<◌, ◌≡◌, refl, max, some, List, [], ◌∷◌, ◌++◌, true, arith, ◌==◌, not, length, keep_if,
  inl, inr, Bool-cases, Option-cases, append-nil, append_assoc, ap, sym, ◌∙◌,
}
use fount_p2p.Base.Int.{ℤ}
use fount_p2p.Base.JsMap.{get}
use fount_p2p.Core.HexIds.{Text, text_dec, contains, dedupe}
use fount_p2p.Dag.Merkle.{Buffer}
use fount_p2p.Dag.Order.{Metas, metas_by_id, topological_canonical_order, push_count, order_from}
use fount_p2p.Federation.OrderCache.{
  Row, row_ids, index_of, insert_place, splice, parents_or_none, merge_from, full_order,
  events_to_metas, merge_topological_order,
}

index_of-lt : (id : Text) (xs : List Text) (i : ℕ) → index_of id xs ≡ some i → i < length xs
unfolding index_of
index_of-lt id [] i h = cc
index_of-lt id (x ∷ xs) i h = elim (text_dec x id) [
  | yes e ↦ ground arith
  | no d ↦ elim (Option-cases (index_of id xs)) [
    | inl f ↦ ground (arith, f)
    | inr (j, f) ↦ ground (arith, index_of-lt id xs j f, f)
  ]
]

-- A parent stands before the end, so the place stays at the end.
insert_place-end :
    (merged parents : List Text) → insert_place merged parents (length merged) ≡ length merged
unfolding insert_place
insert_place-end merged [] = refl
insert_place-end merged (p ∷ parents) = elim (Option-cases (index_of p merged)) [
  | inl f ↦ rw (f, insert_place) (insert_place-end merged parents)
  | inr (i, f) ↦
      let same : max (length merged) (i + 1) ≡ length merged =
        omega (arith, index_of-lt p merged i f) in
      rw (f, insert_place, same) (insert_place-end merged parents)
]

splice-end : (id : Text) (merged : List Text) → splice (length merged) id merged ≡ merged ++ id ∷ []
splice-end id [] = refl
splice-end id (x ∷ merged) = ap (◌∷◌ x) (splice-end id merged)

merge_from_lem :
    (by_id : Metas) (order_set merged new_order : List Text)
    → merge_from by_id order_set merged new_order ≡ merged ++ dedupe order_set new_order
unfolding merge_from dedupe
merge_from_lem by_id order_set merged [] = sym (append-nil merged)
merge_from_lem by_id order_set merged (id ∷ new_order) = elim (Bool-cases (contains id order_set)) [
  | inl old ↦ rw old (merge_from_lem by_id order_set merged new_order)
  | inr new ↦ rw new (
      ap (λ place. merge_from by_id (id ∷ order_set) (splice place id merged) new_order)
        (insert_place-end merged (parents_or_none (get text_dec id by_id)))
      ∙ ap (λ xs. merge_from by_id (id ∷ order_set) xs new_order) (splice-end id merged)
      ∙ merge_from_lem by_id (id ∷ order_set) (merged ++ id ∷ []) new_order
      ∙ append_assoc merged (id ∷ []) (dedupe (id ∷ order_set) new_order))
]

pub full_order_empty :
    (locale_compare : Text → Text → ℤ) (sha256 : Buffer → Buffer) (utf8 : Text → Buffer)
    (events : List Row)
    → (length events == 0) ≡ true
    → full_order locale_compare sha256 utf8 events ≡ []
unfolding topological_canonical_order push_count order_from
full_order_empty locale_compare sha256 utf8 [] h = refl
full_order_empty locale_compare sha256 utf8 (r ∷ events) h = absurd (ground arith)

-- The merge is the part of the cached order that the events have, and after all of it the canonical
-- order of the events that are not in it, each id once: also where a new event is the parent of a
-- cached one.
pub merge_topological_order_lem :
    (locale_compare : Text → Text → ℤ) (sha256 : Buffer → Buffer) (utf8 : Text → Buffer)
    (cached_order : List Text) (events : List Row)
    → let kept = keep_if (λ id. contains id (row_ids events)) cached_order in
      let new_events = keep_if (λ r. not (contains r.meta.id kept)) events in
      merge_topological_order locale_compare sha256 utf8 cached_order events
      ≡ kept ++ dedupe kept (full_order locale_compare sha256 utf8 new_events)
unfolding merge_topological_order dedupe
merge_topological_order_lem locale_compare sha256 utf8 cached_order events =
    let kept = keep_if (λ id. contains id (row_ids events)) cached_order in
    let new_events = keep_if (λ r. not (contains r.meta.id kept)) events in
    elim (Bool-cases (length new_events == 0)) [
      | inl e ↦ rw e (
          sym (
            ap (λ ids. kept ++ dedupe kept ids)
              (full_order_empty locale_compare sha256 utf8 new_events e)
            ∙ append-nil kept))
      | inr e ↦ rw e (
          merge_from_lem (metas_by_id [] (events_to_metas events)) kept kept
            (full_order locale_compare sha256 utf8 new_events))
    ]
