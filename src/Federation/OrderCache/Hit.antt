-- ===== src/Federation/OrderCache/Hit.antt =====
-- A cache that `buildOrderCachePayload` (js/federation/dag_order_cache.mjs) makes is used as it is.
use fount_p2p.Base.{
  ◌≤◌, ◌≡◌, refl, some, List, [], ◌∷◌, true, false, arith, ◌==◌, length, ap, sym, ◌∙◌,
}
use fount_p2p.Base.Int.{ℤ}
use fount_p2p.Core.HexIds.{Text, text_dec, decided, contains}
use fount_p2p.Core.HexIds.Count.{occurrences, occurrences_same_length}
use fount_p2p.Dag.Merkle.{Buffer}
use fount_p2p.Dag.Order.Build.{ids_of}
use fount_p2p.Dag.Order.Run.{occurrences-contains-true}
use fount_p2p.Federation.OrderCache.{
  Row, Cache, row_ids, events_to_metas, all_known, is_hit, tips_hash_of, resolve_with,
  resolve_event_topological_order, build_order_cache_payload,
}

pub ids_of-events_to_metas : (events : List Row) → ids_of (events_to_metas events) ≡ row_ids events
ids_of-events_to_metas [] = refl
ids_of-events_to_metas (r ∷ events) = ap (◌∷◌ r.meta.id) (ids_of-events_to_metas events)

pub length-row_ids : (events : List Row) → length (row_ids events) ≡ length events
length-row_ids [] = refl
length-row_ids (r ∷ events) = omega (arith, length-row_ids events)

length-0 : (xs : List Text) → length xs ≡ 0 → xs ≡ []
length-0 [] h = refl
length-0 (x ∷ xs) h = absurd (omega arith)

module _ (locale_compare : Text → Text → ℤ) (sha256 : Buffer → Buffer) (utf8 : Text → Buffer) where
  all_known-true :
      (events : List Row) (order : List Text)
      → ((u : Text) → 1 ≤ occurrences u order → contains u (row_ids events) ≡ true)
      → all_known locale_compare sha256 utf8 events order ≡ true
  all_known-true events [] h = refl
  all_known-true events (id ∷ order) h =
      ground (arith, h id (ground arith), all_known-true events order (λ u k. h u (omega arith)))

  all_known-same :
      (events : List Row) (order : List Text)
      → ((u : Text) → occurrences u order ≡ occurrences u (row_ids events))
      → all_known locale_compare sha256 utf8 events order ≡ true
  all_known-same events order same =
      all_known-true events order
        (λ u h. occurrences-contains-true u (row_ids events) (omega (arith, same u)))

  resolve_with-hit :
      (events : List Row) (cache : Cache)
      → (length cache.order == 0) ≡ false
      → is_hit locale_compare sha256 utf8 cache events ≡ true
      → resolve_with locale_compare sha256 utf8 events cache ≡ cache.order
  unfolding resolve_with
  resolve_with-hit events cache h k = rw (h, k) refl

  payload-hit :
      (events : List Row) (order : List Text)
      → length order ≡ length events
      → all_known locale_compare sha256 utf8 events order ≡ true
      → is_hit locale_compare sha256 utf8
          (build_order_cache_payload locale_compare sha256 utf8 order events)
          events
        ≡ true
  unfolding build_order_cache_payload
  payload-hit events order long known =
      let hash = tips_hash_of locale_compare sha256 utf8 events in
      let same : decided (text_dec hash hash) ≡ true = ground arith in
      let counted : (length events == length events) ≡ true = ground arith in
      let full : (length order == length events) ≡ true = ground arith in
      rw (same, counted, full, known) refl

  -- A payload made of any order that has the ids of the events, each as often, is a hit on those
  -- events: what is resolved from it is that very order, be it the canonical one or not.
  pub resolve-build_order_cache_payload :
      (events : List Row) (order : List Text)
      → ((u : Text) → occurrences u order ≡ occurrences u (row_ids events))
      → let payload = build_order_cache_payload locale_compare sha256 utf8 order events in
        (is_hit locale_compare sha256 utf8 payload events ≡ true)
        × (resolve_event_topological_order locale_compare sha256 utf8 events (some payload) false
            ≡ order)
  unfolding resolve_event_topological_order build_order_cache_payload
  resolve-build_order_cache_payload [] order same =
      let long : length order ≡ 0 = occurrences_same_length order [] same in
      (payload-hit [] order long (all_known-same [] order same), sym (length-0 order long))
  resolve-build_order_cache_payload (r ∷ events) order same =
      let all = r ∷ events in
      let long : length order ≡ length all =
        occurrences_same_length order (row_ids all) same ∙ length-row_ids all in
      let hit = payload-hit all order long (all_known-same all order same) in
      (
        hit,
        resolve_with-hit all (build_order_cache_payload locale_compare sha256 utf8 order all)
            (ground (arith, long)) hit,
      )
