-- ===== src/Timeline.antt =====
-- js/timeline/prune.mjs and js/timeline/retention.mjs with the reading of js/dag/storage.mjs: what is
-- left in the file of a timeline. A file is the list of its lines; the parser of a line (its trim,
-- `JSON.parse` and the caller's sanitizer) is a parameter, none for a line that is skipped. Both run
-- under the lock of the file, so each is one step; the memo of the order is not kept here.
pub mod Reread
pub mod Pruned
pub mod Checkpoint
use fount_p2p.Base.{
  ℕ, zero, suc, ◌+◌, ◌-◌, ◌*◌, max, Option, none, some, List, [], ◌∷◌, Bool, true, false, leb, ◌==◌,
  if◌then◌else◌, ◌||◌, length, keep_if, is_some,
}
use fount_p2p.Base.Int.{ℤ}
use fount_p2p.Base.JsMap.{JsMap, get, put}
use fount_p2p.Core.HexIds.{Text, text_dec, contains}
use fount_p2p.Dag.Order.{wall_of, metas_by_id, topological_canonical_order}
use fount_p2p.Federation.OrderCache.{Row, events_to_metas, as_events}
use fount_p2p.Governance.Branch.{
  Graph, graph_of, in_graph, descendant_closure_from_tip, compute_dag_tip_ids,
  select_consensus_branch_tip,
}
use fount_p2p.Node.Retention.{Policy, compute_retention_keep_ids}

pub record Entry : Type 0 where
  pub row : Row
  pub raw : Text

pub record Stats : Type 0 where
  pub pruned : Bool
  pub kept : ℕ
  pub dropped : ℕ

abbrev pub rows : List Entry → List Row
rows [] = []
rows (e ∷ entries) = e.row ∷ rows entries

-- `new Map(entries.map(entry => [entry.row.id, entry.raw]))`
unfoldable pub raw_by_id : JsMap Text Text → List Entry → JsMap Text Text
raw_by_id raws [] = raws
raw_by_id raws (e ∷ entries) = raw_by_id (put text_dec e.row.meta.id e.raw raws) entries

-- The raw lines of ids, without those that have none.
unfoldable pub raws_of : JsMap Text Text → List Text → List Text
raws_of raws [] = []
raws_of raws (id ∷ ids) =
    let rest = raws_of raws ids in
    elim (get text_dec id raws) [ none ↦ rest | some raw ↦ raw ∷ rest ]

pub record TimelinePolicy : Type 0 where
  pub max_depth : ℕ
  pub max_ms : ℕ
  pub anchor_types : Text → Bool

abbrev pub or_default : ℕ → ℕ → ℕ
or_default n d = if n == 0 then d else n

-- The wall of the event with an id, 0 where there is none.
abbrev pub wall_in : List Row → Text → ℕ
wall_in events id = wall_of (get text_dec id (metas_by_id [] (events_to_metas events)))

-- The policy that the timeline hands to the choice of the ids.
abbrev pub policy_at : (Text → Bool) → TimelinePolicy → Option Text → ℕ → List Row → Policy
policy_at is_authz policy hint now events = record {
  max_depth = max 256 (or_default policy.max_depth 200000);
  cutoff_wall = now - max 3600000 (or_default policy.max_ms (365 * 24 * 3600 * 1000));
  anchor_types = policy.anchor_types;
  checkpoint_tip_id = hint;
  branch_tip_id =
      select_consensus_branch_tip is_authz (compute_dag_tip_ids (as_events events))
        (graph_of (as_events events));
}

module _ (parse : Text → Option Row) (locale_compare : Text → Text → ℤ) where
  unfoldable pub read_jsonl_entries : List Text → List Entry
  read_jsonl_entries [] = []
  read_jsonl_entries (raw ∷ lines) =
      let rest = read_jsonl_entries lines in
      elim (parse raw) [ none ↦ rest | some row ↦ record { row = row; raw = raw } ∷ rest ]

  abbrev pub order_of : List Entry → List Text
  order_of entries = topological_canonical_order locale_compare (events_to_metas (rows entries))

  -- The end that both share: the kept ids in their order, and the lines written.
  unfoldable pub write_kept : List Text → List Entry → List Text → Stats × List Text
  write_kept lines entries keep_ids =
      let kept_ids = keep_if (λ id. contains id keep_ids) (order_of entries) in
      if leb (length entries) (length kept_ids)
      then (record { pruned = false; kept = length kept_ids; dropped = 0 }, lines)
      else (
        record {
          pruned = true;
          kept = length kept_ids;
          dropped = length entries - length kept_ids;
        },
        raws_of (raw_by_id [] entries) kept_ids,
      )

  abbrev pub unpruned : ℕ → Stats
  unpruned kept = record { pruned = false; kept = kept; dropped = 0 }

  unfoldable pub prune_events_jsonl_after_checkpoint : Option Text → List Text → Stats × List Text
  prune_events_jsonl_after_checkpoint none lines = (unpruned 0, lines)
  prune_events_jsonl_after_checkpoint (some tip_id) lines =
      let entries = read_jsonl_entries lines in
      let by_id = graph_of (as_events (rows entries)) in
      if length tip_id == 0 || length entries == 0
      then (unpruned 0, lines)
      else (if in_graph by_id tip_id
          then write_kept lines entries (descendant_closure_from_tip tip_id by_id)
          else (unpruned (length entries), lines))

  abbrev pub keep_ids_at : (Text → Bool) → TimelinePolicy → Option Text → ℕ → List Entry → List Text
  keep_ids_at is_authz policy hint now entries =
      compute_retention_keep_ids (wall_in (rows entries)) (order_of entries)
        (graph_of (as_events (rows entries))) (policy_at is_authz policy hint now (rows entries))

  unfoldable pub enforce_timeline_event_retention :
      (Text → Bool) → TimelinePolicy → Option Text → ℕ → List Text → Stats × List Text
  enforce_timeline_event_retention is_authz policy hint now lines =
      let entries = read_jsonl_entries lines in
      let keep_ids = keep_ids_at is_authz policy hint now entries in
      if length entries == 0
      then (unpruned 0, lines)
      else (if leb (length entries) (length keep_ids)
          then (unpruned (length entries), lines)
          else write_kept lines entries keep_ids)
