-- ===== src/Timeline/Checkpoint.antt =====
-- What `pruneEventsJsonlAfterCheckpoint` (js/timeline/prune.mjs) leaves in the file.
use fount_p2p.Base.{
  ◌∷◌, [], ◌∙◌, length-keep_if-le, ℕ, ◌≤◌, ◌<◌, ◌≡◌, refl, ◌⊎◌, Option, some, List, Bool, true,
  false, arith, ◌==◌, length, keep_if, inl, inr, Bool-cases, ap, sym, subst,
}
use fount_p2p.Base.Int.{ℤ}
use fount_p2p.Core.HexIds.{Text, contains, IsIn, contains-IsIn, IsIn-contains}
use fount_p2p.Core.HexIds.Order.{IsIn-keep_if, keep_if-IsIn}
use fount_p2p.Core.HexIds.Count.{occurrences}
use fount_p2p.Dag.Order.Canonical.{
  IsNamed, IsDistinct, parents_of as parents_of_meta, topological_canonical_order_complete,
}
use fount_p2p.Federation.OrderCache.Hit.{ids_of-events_to_metas, length-row_ids}
use fount_p2p.Federation.OrderCache.{Row, row_ids, events_to_metas, as_events}
use fount_p2p.Governance.Branch.{graph_of, in_graph, descendant_closure_from_tip}
use fount_p2p.Governance.Branch.Closure.{NonEmpty}
use fount_p2p.Governance.Branch.Reachability.{Reaches}
use fount_p2p.Timeline.Reread.{read, IsWritten, write_kept_lem, order-known}
use fount_p2p.Timeline.{
  Entry, Stats, rows, order_of, write_kept, unpruned, prune_events_jsonl_after_checkpoint,
}
use fount_p2p.Core.HexIds.Count.{occurrences_same_length}
use fount_p2p.Governance.Branch.{parents_of, add_events}
use fount_p2p.Base.JsMap.{get}
use fount_p2p.Governance.Branch.Descent.{descendant_closure_from_tip_lem}
use fount_p2p.Timeline.Pruned.{order_complete}

-- A selection that is as long as the list has all of it.
all_kept :
    (p : Text → Bool) (u : Text) (xs : List Text)
    → length xs ≤ length (keep_if p xs)
    → IsIn u xs
    → p u ≡ true
all_kept p u [] long h = absurd h
all_kept p u (x ∷ xs) long h = elim (Bool-cases (p x)) [
  | inl kept ↦ elim h [
    | inl same ↦ ap p (sym same) ∙ kept
    | inr later ↦ all_kept p u xs (ground arith) later
  ]
  | inr dropped ↦ absurd (ground (arith, length-keep_if-le p xs))
]

length-rows : (entries : List Entry) → length (rows entries) ≡ length entries
length-rows [] = refl
length-rows (e ∷ entries) = omega (arith, length-rows entries)

nothing_in :
    (tip : Text) (entries : List Entry)
    → (length entries == 0) ≡ true
    → in_graph (graph_of (as_events (rows entries))) tip ≡ false
unfolding add_events get
nothing_in tip [] h = refl
nothing_in tip (e ∷ entries) h = absurd (ground arith)

IsIn-named :
    (u : Text) (events : List Row)
    → IsNamed (events_to_metas events)
    → IsIn u (row_ids events)
    → NonEmpty u
IsIn-named u [] named h = absurd h
IsIn-named u (r ∷ events) named (inl same) = ap (λ x. length x == 0) (sym same) ∙ named.0
IsIn-named u (r ∷ events) named (inr later) = IsIn-named u events named.1 later

-- The file has just the ids of the lines that are chosen.
abbrev pub IsJust :
    (Text → Option Row) → (Text → Text → ℤ) → List Text → (Text → Type 0) → List Text → Type 0
IsJust parse locale_compare lines chosen written =
    (u : Text)
    → (IsIn u (row_ids (rows (read parse locale_compare written)))
        → IsIn u (row_ids (rows (read parse locale_compare lines))) × chosen u)
      × (IsIn u (row_ids (rows (read parse locale_compare lines)))
          → chosen u
          → IsIn u (row_ids (rows (read parse locale_compare written))))

module _ (parse : Text → Option Row) (locale_compare : Text → Text → ℤ) (lines : List Text)
    (rank : Text → ℕ) (named : IsNamed (events_to_metas (rows (read parse locale_compare lines))))
    (distinct : IsDistinct (events_to_metas (rows (read parse locale_compare lines))))
    (grows : (p c : Text)
      → 1
        ≤ occurrences p
            (parents_of_meta (events_to_metas (rows (read parse locale_compare lines))) c)
      → rank p < rank c) where
  abbrev events : List Row
  events = rows (read parse locale_compare lines)

  abbrev order : List Text
  order = order_of parse locale_compare (read parse locale_compare lines)

  IsIn-order : (u : Text) → IsIn u (row_ids events) → IsIn u order
  IsIn-order = order_complete parse locale_compare lines rank named distinct grows

  length-order : length order ≡ length (read parse locale_compare lines)
  length-order =
      occurrences_same_length order (row_ids events) (λ u.
        topological_canonical_order_complete locale_compare (events_to_metas events) rank named
          distinct grows u
        ∙ ap (occurrences u) (ids_of-events_to_metas events))
      ∙ length-row_ids events
      ∙ length-rows (read parse locale_compare lines)

  -- What is written is just what is kept, also where nothing is written.
  IsWritten-IsJust :
      (keep_ids : List Text) (result : Stats × List Text)
      → IsWritten parse locale_compare lines keep_ids result
      → IsJust parse locale_compare lines (λ u. IsIn u keep_ids) result.1
  IsWritten-IsJust keep_ids (stats, written) (inl (unpruned, same, all)) u = (
    λ h.
        let old = subst (λ ls. IsIn u (row_ids (rows (read parse locale_compare ls)))) same h in
        (
          old,
          contains-IsIn u keep_ids (
              all_kept (λ id. contains id keep_ids) u order (omega (arith, length-order, all))
                (IsIn-order u old)),
        ),
    λ h c. subst (λ ls. IsIn u (row_ids (rows (read parse locale_compare ls)))) (sym same) h,
  )
  IsWritten-IsJust keep_ids (stats, written) (inr (pruned, ids)) u = (
    λ h.
        let (ordered, kept) =
          IsIn-keep_if u (λ id. contains id keep_ids) order (subst (IsIn u) ids h) in
        (
          order-known parse locale_compare (read parse locale_compare lines) u named distinct
              ordered,
          contains-IsIn u keep_ids kept,
        ),
    λ h c. subst (IsIn u) (sym ids) (
        keep_if-IsIn u (λ id. contains id keep_ids) order (IsIn-order u h)
          (IsIn-contains u keep_ids c)),
  )

  descendants_written :
      (tip : Text)
      → NonEmpty tip
      → in_graph (graph_of (as_events events)) tip ≡ true
      → IsJust parse locale_compare lines
          (λ u. Reaches (parents_of (graph_of (as_events events))) u tip)
          (write_kept parse locale_compare lines
            (read parse locale_compare lines)
            (descendant_closure_from_tip tip (graph_of (as_events events)))).1
  descendants_written tip named_tip found u =
      let keep_ids = descendant_closure_from_tip tip (graph_of (as_events events)) in
      let just =
        IsWritten-IsJust keep_ids
          (write_kept parse locale_compare lines (read parse locale_compare lines) keep_ids)
          (write_kept_lem parse locale_compare lines keep_ids named distinct) u in
      let exact = λ (h : IsIn u (row_ids events)).
        descendant_closure_from_tip_lem (as_events events) tip u named_tip
          (IsIn-named u events named h) in
      (
        λ h. let (old, kept) = just.0 h in (old, ((exact old).0 kept).1),
        λ h r. just.1 h ((exact h).1 found r),
      )

  -- On events with distinct, non-empty ids whose parents have no cycle: if the checkpoint's event is
  -- not in the file, a pruning after the checkpoint leaves the lines as they were; if it is, the file
  -- then has just the ids from which that event is reached along the parents in the file, itself
  -- included.
  pub prune_events_jsonl_after_checkpoint_lem :
      (tip : Text)
      → let g = graph_of (as_events events) in
        let written =
          (prune_events_jsonl_after_checkpoint parse locale_compare (some tip) lines).1 in
        (NonEmpty tip
          × (in_graph g tip ≡ true)
          × IsJust parse locale_compare lines (λ u. Reaches (parents_of g) u tip) written)
        ⊎ ((¬ (NonEmpty tip × (in_graph g tip ≡ true))) × (written ≡ lines))
  unfolding prune_events_jsonl_after_checkpoint
  prune_events_jsonl_after_checkpoint_lem tip =
      let entries = read parse locale_compare lines in
      let g = graph_of (as_events events) in
      elim (Bool-cases (length tip == 0)) [
        | inl unnamed ↦ rw unnamed (inr ((λ h. ground (arith, h.0, unnamed)), refl))
        | inr named_tip ↦ elim (Bool-cases (length entries == 0)) [
          | inl empty ↦
              rw (named_tip, empty)
                (inr ((λ h. ground (arith, h.1, nothing_in tip entries empty)), refl))
          | inr something ↦ elim (Bool-cases (in_graph g tip)) [
            | inl found ↦
                rw (named_tip, something, found)
                  (inl (refl, refl, descendants_written tip named_tip found))
            | inr missing ↦
                rw (named_tip, something, missing) (inr ((λ h. ground (arith, h.1)), refl))
          ]
        ]
      ]
