-- ===== src/Node/Retention.antt =====
-- js/node/retention_policy.mjs: the events of the consensus branch that a node keeps. `byId` is the
-- graph of js/governance/branch.mjs, with the walls of its clocks beside it.
pub mod Kept
pub mod Seeds
use fount_p2p.Base.{
  ℕ, zero, suc, ◌+◌, ◌-◌, Option, none, some, List, [], ◌∷◌, ◌++◌, Bool, true, false, leb, ltb,
  ◌==◌, if◌then◌else◌, ◌&&◌, ◌||◌, not, length, drop, keep_if,
}
use mathlib.Core.List.{reverse}
use fount_p2p.Base.JsMap.{get}
use fount_p2p.Core.HexIds.{Text, text_dec, contains, dedupe}
use fount_p2p.Governance.Branch.{
  Event, Graph, parents, edge_count, authz_fold_order_ids, descendant_closure_from_tip,
}

pub record Policy : Type 0 where
  pub max_depth : ℕ
  pub cutoff_wall : ℕ
  pub anchor_types : Text → Bool
  pub checkpoint_tip_id : Option Text
  pub branch_tip_id : Option Text

-- The checkpoint's descendants on the branch.
abbrev pub checkpoint_ids : List Text → Graph → Option Text → List Text
checkpoint_ids branch g none = []
checkpoint_ids branch g (some tip) =
    if not (length tip == 0) && contains tip branch
    then keep_if (λ id. contains id branch) (descendant_closure_from_tip tip g)
    else []

abbrev pub is_anchor : (Text → Bool) → Option Event → Bool
is_anchor anchor_types none = false
is_anchor anchor_types (some e) = anchor_types e.kind

-- The last anchor, looked for from the end: the first of the reversed order.
unfoldable pub first_anchor : (Text → Bool) → Graph → List Text → List Text
first_anchor anchor_types g [] = []
first_anchor anchor_types g (id ∷ ids) =
    let rest = first_anchor anchor_types g ids in
    if is_anchor anchor_types (get text_dec id g) then id ∷ [] else rest

-- `slice(-n)`, which is all of the list for 0.
abbrev pub slice_last : ℕ → List Text → List Text
slice_last n xs = if n == 0 then xs else drop (length xs - n) xs

unfoldable pub ancestor_seeds : (Text → ℕ) → Graph → Policy → List Text → List Text
ancestor_seeds wall g policy branch = dedupe [] (
    first_anchor policy.anchor_types g (reverse branch)
    ++ keep_if (λ id. leb policy.cutoff_wall (wall id)) branch
    ++ (if ltb policy.max_depth (length branch) then slice_last policy.max_depth branch else []))

abbrev pub parents_on : List Text → Option Event → List Text
parents_on branch none = []
parents_on branch (some e) = keep_if (λ p. contains p branch) (parents e)

-- The loop, on fuel. The stack's top is the head of its list.
unfoldable pub keep_from : List Text → Graph → ℕ → List Text → List Text → List Text
keep_from branch g zero stack keep = keep
keep_from branch g (suc fuel) [] keep = keep
keep_from branch g (suc fuel) (id ∷ stack) keep =
    elim (length id == 0 || not (contains id branch) || contains id keep) [
      | true ↦ keep_from branch g fuel stack keep
      | false ↦
          keep_from branch g fuel (reverse (parents_on branch (get text_dec id g)) ++ stack)
            (keep ++ id ∷ [])
    ]

abbrev pub keep_fuel : List Text → Graph → List Text → ℕ
keep_fuel branch g seeds = length seeds + edge_count (λ id. parents_on branch (get text_dec id g)) g

abbrev pub or_all : List Text → List Text → List Text
or_all branch [] = dedupe [] branch
or_all branch (id ∷ keep) = id ∷ keep

unfoldable pub compute_retention_keep_ids : (Text → ℕ) → List Text → Graph → Policy → List Text
compute_retention_keep_ids wall order g policy =
    let branch = authz_fold_order_ids order g policy.branch_tip_id in
    let seeds = ancestor_seeds wall g policy branch in
    if length branch == 0
    then []
    else or_all branch (
        keep_from branch g (keep_fuel branch g seeds) (reverse seeds)
          (checkpoint_ids branch g policy.checkpoint_tip_id))
