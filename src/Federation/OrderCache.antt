-- ===== src/Federation/OrderCache.antt =====
-- js/federation/dag_order_cache.mjs: the cached order of a group's events, and its merge with events
-- that are new. The file behind the cache is left out; `localeCompare`, SHA-256 and the UTF-8 encoder
-- are parameters.
pub mod Merge
pub mod Hit
use fount_p2p.Base.{
  ℕ, zero, suc, ◌+◌, max, Option, none, some, List, [], ◌∷◌, ◌++◌, Bool, true, false, leb, ◌==◌,
  if◌then◌else◌, ◌&&◌, not, length, take, drop, keep_if, map,
}
use fount_p2p.Base.Int.{ℤ}
use fount_p2p.Base.JsMap.{get}
use fount_p2p.Core.HexIds.{Text, text_dec, decided, contains, sorted_prev_event_ids}
use fount_p2p.Dag.Merkle.{Buffer, compute_local_tips_hash}
use fount_p2p.Dag.Order.{Meta, Metas, metas_by_id, topological_canonical_order}
use fount_p2p.Governance.Branch.{Event, compute_dag_tip_ids}

-- An event as far as it is read: its fields for the order, its type and its sender.
pub record Row : Type 0 where
  pub meta : Meta
  pub kind : Text
  pub sender : Text

-- `eventsToMetas`
abbrev pub events_to_metas : List Row → List Meta
events_to_metas [] = []
events_to_metas (r ∷ events) = r.meta ∷ events_to_metas events

abbrev pub as_events : List Row → List Event
as_events [] = []
as_events (r ∷ events) =
    record {
      id = r.meta.id;
      prev_event_ids = r.meta.prev_event_ids;
      kind = r.kind;
      sender = r.sender;
    }
    ∷ as_events events

abbrev pub row_ids : List Row → List Text
row_ids [] = []
row_ids (r ∷ events) = r.meta.id ∷ row_ids events

-- `merged.indexOf(id)`, none for -1.
unfoldable pub index_of : Text → List Text → Option ℕ
index_of id [] = none
index_of id (x ∷ xs) =
    let rest = index_of id xs in
    if decided (text_dec x id) then some 0 else elim rest [ none ↦ none | some i ↦ some (suc i) ]

-- The loop over the parents: the place after the last of them, from a first place on.
unfoldable pub insert_place : List Text → List Text → ℕ → ℕ
insert_place merged [] insert_at = insert_at
insert_place merged (p ∷ parents) insert_at = elim (index_of p merged) [
  | none ↦ insert_place merged parents insert_at
  | some parent_idx ↦ insert_place merged parents (max insert_at (parent_idx + 1))
]

-- `merged.splice(insertAt, 0, id)`
abbrev pub splice : ℕ → Text → List Text → List Text
splice insert_at id merged = take insert_at merged ++ id ∷ drop insert_at merged

abbrev pub parents_or_none : Option Meta → List Text
parents_or_none none = []
parents_or_none (some m) = sorted_prev_event_ids m.prev_event_ids

-- The loop over the new order.
unfoldable pub merge_from : Metas → List Text → List Text → List Text → List Text
merge_from by_id order_set merged [] = merged
merge_from by_id order_set merged (id ∷ new_order) =
    let skipped = merge_from by_id order_set merged new_order in
    let place = insert_place merged (parents_or_none (get text_dec id by_id)) (length merged) in
    let added = merge_from by_id (id ∷ order_set) (splice place id merged) new_order in
    if contains id order_set then skipped else added

pub record Cache : Type 0 where
  pub order : List Text
  pub tips_hash : Text
  pub event_count : ℕ

module _ (locale_compare : Text → Text → ℤ) (sha256 : Buffer → Buffer) (utf8 : Text → Buffer) where
  abbrev pub full_order : List Row → List Text
  full_order events = topological_canonical_order locale_compare (events_to_metas events)

  unfoldable pub merge_topological_order : List Text → List Row → List Text
  merge_topological_order cached_order events =
      let merged = keep_if (λ id. contains id (row_ids events)) cached_order in
      let new_events = keep_if (λ r. not (contains r.meta.id merged)) events in
      if length new_events == 0
      then merged
      else merge_from (metas_by_id [] (events_to_metas events)) merged merged
          (full_order new_events)

  abbrev pub tips_hash_of : List Row → Text
  tips_hash_of events = compute_local_tips_hash sha256 utf8 (compute_dag_tip_ids (as_events events))

  abbrev pub all_known : List Row → List Text → Bool
  all_known events [] = true
  all_known events (id ∷ order) = contains id (row_ids events) && all_known events order

  -- Whether the cache is used as it is.
  abbrev pub is_hit : Cache → List Row → Bool
  is_hit cache events =
      decided (text_dec cache.tips_hash (tips_hash_of events))
      && cache.event_count == length events
      && length cache.order == length events
      && all_known events cache.order

  -- Whether its order is merged with the events.
  abbrev pub is_mergeable : Cache → List Row → Bool
  is_mergeable cache events = leb cache.event_count (length events) && all_known events cache.order

  unfoldable pub resolve_with : List Row → Cache → List Text
  resolve_with events cache =
      let merged = merge_topological_order cache.order events in
      if length cache.order == 0
      then full_order events
      else (if is_hit cache events
          then cache.order
          else (if is_mergeable cache events && length merged == length events
              then merged
              else full_order events))

  unfoldable pub resolve_event_topological_order : List Row → Option Cache → Bool → List Text
  resolve_event_topological_order [] cache force_full = []
  resolve_event_topological_order (r ∷ events) cache true = full_order (r ∷ events)
  resolve_event_topological_order (r ∷ events) none false = full_order (r ∷ events)
  resolve_event_topological_order (r ∷ events) (some cache) false = resolve_with (r ∷ events) cache

  unfoldable pub build_order_cache_payload : List Text → List Row → Cache
  build_order_cache_payload order events = record {
    order = order;
    tips_hash = tips_hash_of events;
    event_count = length events;
  }
