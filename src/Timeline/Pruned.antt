-- ===== src/Timeline/Pruned.antt =====
-- What `enforceTimelineEventRetention` (js/timeline/retention.mjs) leaves in the file.
use fount_p2p.Base.{
  ℕ, ◌≤◌, ◌<◌, ◌≡◌, refl, ◌⊎◌, Option, none, some, List, Bool, true, false, arith, leb, ◌==◌,
  length, keep_if, inl, inr, Bool-cases, ap, sym, subst,
}
use fount_p2p.Base.Int.{ℤ}
use fount_p2p.Core.HexIds.{Text, contains, IsIn, contains-IsIn, IsIn-contains}
use fount_p2p.Core.HexIds.Order.{IsIn-keep_if, keep_if-IsIn}
use fount_p2p.Core.HexIds.Count.{occurrences, occurrences-IsIn, IsIn-occurrences}
use fount_p2p.Dag.Order.Canonical.{
  IsNamed, IsDistinct, parents_of, topological_canonical_order_complete,
}
use fount_p2p.Federation.OrderCache.Hit.{ids_of-events_to_metas}
use fount_p2p.Federation.OrderCache.{Row, row_ids, events_to_metas, as_events}
use fount_p2p.Governance.Branch.{Graph, ancestor_closure_from_tip, authz_fold_order_ids, graph_of}
use fount_p2p.Governance.Branch.Closure.{NonEmpty}
use fount_p2p.Node.Retention.Seeds.{compute_retention_keep_ids_lem}
use fount_p2p.Timeline.Reread.{read, IsWritten, write_kept_lem, order-known}
use fount_p2p.Timeline.{
  Stats, rows, order_of, write_kept, unpruned, TimelinePolicy, keep_ids_at, policy_at, wall_in,
  enforce_timeline_event_retention,
}

-- The lines are as they were, or the file has just the ids of the events that are chosen.
abbrev pub IsLeft :
    (Text → Option Row)
    → (Text → Text → ℤ)
    → List Text
    → (Text → Type 0)
    → Stats × List Text
    → Type 0
IsLeft parse locale_compare lines chosen (stats, written) =
    ((stats.pruned ≡ false) × (written ≡ lines))
    ⊎ ((stats.pruned ≡ true)
        × ((u : Text)
            → (IsIn u (row_ids (rows (read parse locale_compare written)))
                → IsIn u (row_ids (rows (read parse locale_compare lines))) × chosen u)
              × (IsIn u (row_ids (rows (read parse locale_compare lines)))
                  → chosen u
                  → IsIn u (row_ids (rows (read parse locale_compare written))))))

fold_order-IsIn :
    (order : List Text) (g : Graph) (tip : Option Text) (u : Text)
    → IsIn u (authz_fold_order_ids order g tip)
    → IsIn u order
unfolding authz_fold_order_ids
fold_order-IsIn order g none u h = h
fold_order-IsIn order g (some tip) u h = elim (Bool-cases (length tip == 0)) [
  | inl e ↦ subst (IsIn u) {y = order} (rw e refl) h
  | inr e ↦
      let kept = keep_if (λ id. contains id (ancestor_closure_from_tip tip g)) order in
      (IsIn-keep_if u (λ id. contains id (ancestor_closure_from_tip tip g)) order
        (subst (IsIn u) {y = kept} (rw e refl) h)).0
]

module _ (parse : Text → Option Row) (locale_compare : Text → Text → ℤ) (lines : List Text)
    (rank : Text → ℕ) (named : IsNamed (events_to_metas (rows (read parse locale_compare lines))))
    (distinct : IsDistinct (events_to_metas (rows (read parse locale_compare lines))))
    (grows : (p c : Text)
      → 1 ≤ occurrences p (parents_of (events_to_metas (rows (read parse locale_compare lines))) c)
      → rank p < rank c) where
  abbrev pub events : List Row
  events = rows (read parse locale_compare lines)

  pub order_complete :
      (u : Text)
      → IsIn u (row_ids events)
      → IsIn u (order_of parse locale_compare (read parse locale_compare lines))
  order_complete u h =
      let order = order_of parse locale_compare (read parse locale_compare lines) in
      occurrences-IsIn u order (
        omega (
          arith,
          topological_canonical_order_complete locale_compare (events_to_metas events) rank named
              distinct grows u,
          ap (occurrences u) (ids_of-events_to_metas events),
          IsIn-occurrences u (row_ids events) h,
        ))

  IsWritten-IsLeft :
      (keep_ids : List Text) (chosen : Text → Type 0) (result : Stats × List Text)
      → ((u : Text) → (IsIn u keep_ids → chosen u) × (chosen u → IsIn u keep_ids))
      → IsWritten parse locale_compare lines keep_ids result
      → IsLeft parse locale_compare lines chosen result
  IsWritten-IsLeft keep_ids chosen (stats, written) same (inl (unpruned, kept, all)) =
      inl (unpruned, kept)
  IsWritten-IsLeft keep_ids chosen (stats, written) same (inr (pruned, ids)) =
      let order = order_of parse locale_compare (read parse locale_compare lines) in
      inr (
        pruned,
        λ u. (
          λ h.
              let (ordered, kept) =
                IsIn-keep_if u (λ id. contains id keep_ids) order (subst (IsIn u) ids h) in
              (
                order-known parse locale_compare (read parse locale_compare lines) u named distinct
                    ordered,
                (same u).0 (contains-IsIn u keep_ids kept),
              ),
          λ h c. subst (IsIn u) (sym ids) (
              keep_if-IsIn u (λ id. contains id keep_ids) order (order_complete u h)
                (IsIn-contains u keep_ids ((same u).1 c))),
        ),
      )

  -- The retention leaves the file as it was, or with just the chosen ids.
  enforce-IsLeft :
      (is_authz : Text → Bool) (policy : TimelinePolicy) (hint : Option Text) (now : ℕ)
      → IsLeft parse locale_compare lines
          (λ u. IsIn u (
            keep_ids_at parse locale_compare is_authz policy hint now
              (read parse locale_compare lines)))
          (enforce_timeline_event_retention parse locale_compare is_authz policy hint now lines)
  unfolding enforce_timeline_event_retention
  enforce-IsLeft is_authz policy hint now =
      let entries = read parse locale_compare lines in
      let keep_ids = keep_ids_at parse locale_compare is_authz policy hint now entries in
      elim (Bool-cases (length entries == 0)) [
        | inl empty ↦ rw empty (inl (refl, refl))
        | inr some_entry ↦ elim (Bool-cases (leb (length entries) (length keep_ids))) [
          | inl all ↦ rw (some_entry, all) (inl (refl, refl))
          | inr some_dropped ↦
              rw (some_entry, some_dropped)
                (IsWritten-IsLeft keep_ids (λ u. IsIn u keep_ids)
                  (write_kept parse locale_compare lines entries keep_ids) (λ u. (λ h. h, λ h. h))
                  (write_kept_lem parse locale_compare lines keep_ids named distinct))
        ]
      ]

  left-IsIn :
      (chosen : Text → Type 0) (result : Stats × List Text) (u : Text)
      → IsLeft parse locale_compare lines chosen result
      → IsIn u (row_ids events)
      → chosen u
      → IsIn u (row_ids (rows (read parse locale_compare result.1)))
  left-IsIn chosen (stats, written) u (inl (unpruned, same)) h c =
      subst (λ xs. IsIn u (row_ids (rows (read parse locale_compare xs)))) (sym same) h
  left-IsIn chosen (stats, written) u (inr (pruned, left)) h c = (left u).1 h c

  -- On events with distinct, non-empty ids whose parents have no cycle, the retention never takes an
  -- event of the consensus branch out of the file that is not older than the policy's cutoff.
  pub enforce_timeline_event_retention_keeps_recent :
      (is_authz : Text → Bool) (policy : TimelinePolicy) (hint : Option Text) (now : ℕ) (u : Text)
      → let order = order_of parse locale_compare (read parse locale_compare lines) in
        let p = policy_at is_authz policy hint now events in
        IsIn u (authz_fold_order_ids order (graph_of (as_events events)) p.branch_tip_id)
        → leb p.cutoff_wall (wall_in events u) ≡ true
        → NonEmpty u
        → IsIn u (
            row_ids (
              rows (
                read parse locale_compare
                  (enforce_timeline_event_retention parse locale_compare is_authz policy hint now
                    lines).1)))
  enforce_timeline_event_retention_keeps_recent is_authz policy hint now u on_branch young named_u =
      let entries = read parse locale_compare lines in
      let order = order_of parse locale_compare entries in
      let g = graph_of (as_events events) in
      let p = policy_at is_authz policy hint now events in
      let kept =
        (compute_retention_keep_ids_lem (wall_in events) order g p).1 u on_branch young named_u in
      left-IsIn (λ v. IsIn v (keep_ids_at parse locale_compare is_authz policy hint now entries))
        (enforce_timeline_event_retention parse locale_compare is_authz policy hint now lines) u
        (enforce-IsLeft is_authz policy hint now)
        (order-known parse locale_compare entries u named distinct
          (fold_order-IsIn order g p.branch_tip_id u on_branch))
        kept
