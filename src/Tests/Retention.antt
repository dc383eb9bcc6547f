-- ===== src/Tests/Retention.antt =====
-- The theorems on what a node keeps (js/node, js/timeline) and on the cached order of
-- js/federation/dag_order_cache.mjs at concrete inputs.
use fount_p2p.Base.{
  ◌⊎◌, ℕ, ℕ_discrete, ◌≡◌, refl, ◌≤◌, Option, none, some, List, [], ◌∷◌, ◌++◌, Bool, true, false,
  arith, length, leb, ◌==◌, keep_if, not, if◌then◌else◌, inl,
}
use fount_p2p.Base.JsMap.{get, put}
use fount_p2p.Core.HexIds.{
  Text, text_dec, IsIn, contains, dedupe, sort, sorted_prev_event_ids, insert_sorted, is_event_id,
  all_hex, is_hex_digit,
}
use fount_p2p.Dag.Heap
use fount_p2p.Dag.Order
use fount_p2p.Federation.OrderCache.{
  Row, row_ids, full_order, merge_topological_order, resolve_event_topological_order,
  build_order_cache_payload, as_events, is_hit,
}
use fount_p2p.Federation.OrderCache.Hit.{resolve-build_order_cache_payload}
use fount_p2p.Federation.OrderCache.Merge.{merge_topological_order_lem}
use fount_p2p.Governance.Branch
use fount_p2p.Governance.Branch.Closure.{NonEmpty}
use fount_p2p.Governance.Branch.Reachability.{Reaches}
use fount_p2p.Node.Retention
use fount_p2p.Node.Retention.Kept.{IsKept}
use fount_p2p.Node.Retention.Seeds.{newest, compute_retention_keep_ids_lem}
use fount_p2p.Tests.Ordering.{
  by_units, parent_id, child_id, rank, child_first-IsDistinct, child_first_grows,
}
use fount_p2p.Timeline
use fount_p2p.Timeline.Checkpoint.{IsJust, prune_events_jsonl_after_checkpoint_lem}
use fount_p2p.Timeline.Pruned.{enforce_timeline_event_retention_keeps_recent}
use fount_p2p.Timeline.Reread.{read}

abbrev child_row : Row
child_row = record {
  meta = record {
    id = child_id;
    prev_event_ids = parent_id ∷ [];
    wall = 10;
    logical = 0;
    node_id = [];
  };
  kind = [];
  sender = [];
}

abbrev parent_row : Row
parent_row = record {
  meta = record { id = parent_id; prev_event_ids = []; wall = 20; logical = 0; node_id = [] };
  kind = [];
  sender = [];
}

abbrev as_is : List ℕ → List ℕ
as_is t = t

abbrev never : Text → Bool
never kind = false

merge_topological_order_lem_example :
    let kept =
      keep_if (λ id. contains id (row_ids (child_row ∷ parent_row ∷ []))) (child_id ∷ []) in
    let new_events = keep_if (λ r. not (contains r.meta.id kept)) (child_row ∷ parent_row ∷ []) in
    merge_topological_order by_units as_is as_is (child_id ∷ []) (child_row ∷ parent_row ∷ [])
    ≡ kept ++ dedupe kept (full_order by_units as_is as_is new_events)
merge_topological_order_lem_example =
    merge_topological_order_lem by_units as_is as_is (child_id ∷ []) (child_row ∷ parent_row ∷ [])

-- An order with the child first is not the canonical one, and is resolved all the same.
resolve-build_order_cache_payload_example :
    let events = child_row ∷ parent_row ∷ [] in
    let order = child_id ∷ parent_id ∷ [] in
    let payload = build_order_cache_payload by_units as_is as_is order events in
    (is_hit by_units as_is as_is payload events ≡ true)
    × (resolve_event_topological_order by_units as_is as_is events (some payload) false ≡ order)
resolve-build_order_cache_payload_example =
    resolve-build_order_cache_payload by_units as_is as_is (child_row ∷ parent_row ∷ [])
      (child_id ∷ parent_id ∷ []) (λ u. refl)

abbrev policy : Retention.Policy
policy = record {
  max_depth = 1;
  cutoff_wall = 15;
  anchor_types = never;
  checkpoint_tip_id = none;
  branch_tip_id = some child_id;
}

abbrev walls : Text → ℕ
walls id = length id

abbrev pair_graph : Branch.Graph
pair_graph = Branch.graph_of (as_events (child_row ∷ parent_row ∷ []))

compute_retention_keep_ids_lem_example :
    let branch =
      Branch.authz_fold_order_ids (parent_id ∷ child_id ∷ []) pair_graph (some child_id) in
    let keep =
      Retention.compute_retention_keep_ids walls (parent_id ∷ child_id ∷ []) pair_graph policy in
    IsKept branch pair_graph
      (Retention.checkpoint_ids branch pair_graph none)
      (Retention.ancestor_seeds walls pair_graph policy branch)
      keep
    × ((x : Text) → IsIn x branch → leb 15 (walls x) ≡ true → NonEmpty x → IsIn x keep)
    × ((x : Text) → IsIn x (newest walls pair_graph policy branch) → NonEmpty x → IsIn x keep)
    × (1 ≤ length branch → 1 ≤ length keep)
compute_retention_keep_ids_lem_example =
    compute_retention_keep_ids_lem walls (parent_id ∷ child_id ∷ []) pair_graph policy

-- A line of one unit: 0 is the child, 1 its parent, another line is no event.
abbrev parse : Text → Option Row
parse [] = none
parse (c ∷ cs) = if c == 0 then some child_row else (if c == 1 then some parent_row else none)

abbrev file : List Text
file = (0 ∷ []) ∷ [] ∷ (1 ∷ []) ∷ []

prune_events_jsonl_after_checkpoint_lem_example :
    let g = Branch.graph_of (as_events (Timeline.rows (read parse by_units file))) in
    let written =
      (Timeline.prune_events_jsonl_after_checkpoint parse by_units (some child_id) file).1 in
    (NonEmpty child_id
      × (Branch.in_graph g child_id ≡ true)
      × IsJust parse by_units file (λ u. Reaches (Branch.parents_of g) u child_id) written)
    ⊎ ((¬ (NonEmpty child_id × (Branch.in_graph g child_id ≡ true))) × (written ≡ file))
unfolding Timeline.read_jsonl_entries
prune_events_jsonl_after_checkpoint_lem_example =
    prune_events_jsonl_after_checkpoint_lem parse by_units file rank (refl, (refl, tt))
      child_first-IsDistinct child_first_grows child_id

abbrev timeline_policy : Timeline.TimelinePolicy
timeline_policy = record { max_depth = 0; max_ms = 0; anchor_types = never }

parent_on_branch : IsIn parent_id (
    Branch.authz_fold_order_ids
      (Timeline.order_of parse by_units (read parse by_units file))
      (Branch.graph_of (as_events (Timeline.rows (read parse by_units file))))
      (Timeline.policy_at never timeline_policy none 100
        (Timeline.rows (read parse by_units file))).branch_tip_id)
unfolding Timeline.read_jsonl_entries Branch.authz_fold_order_ids Order.topological_canonical_order
    get put text_dec ℕ_discrete Order.order_from Order.push_count sorted_prev_event_ids sort dedupe
    Heap.heap_pop Order.ready_from Order.links_from Heap.heap_push Heap.sift_up Heap.is_less
    Order.compare_ids Order.metas_by_id Order.release Order.add_child_to Heap.sift_down
    Branch.select_consensus_branch_tip Branch.compute_dag_tip_ids Branch.referenced
    Branch.add_events Branch.ancestor_closure_from_tip Branch.close Branch.edge_count is_event_id
    all_hex is_hex_digit insert_sorted
parent_on_branch = inl refl

enforce_timeline_event_retention_keeps_recent_example : IsIn parent_id (
    row_ids (
      Timeline.rows (
        read parse by_units
          (Timeline.enforce_timeline_event_retention parse by_units never timeline_policy none 100
            file).1)))
unfolding Timeline.read_jsonl_entries
enforce_timeline_event_retention_keeps_recent_example =
    enforce_timeline_event_retention_keeps_recent parse by_units file rank (refl, (refl, tt))
      child_first-IsDistinct child_first_grows never timeline_policy none 100 parent_id
      parent_on_branch (ground arith) refl
