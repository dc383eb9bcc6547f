-- ===== src/Tests/Events.antt =====
-- The theorems on js/core, js/dag and js/governance at concrete inputs.
use fount_p2p.Base.{
  ℕ, ℕ_discrete, ◌≡◌, refl, Option, none, some, List, [], ◌∷◌, Bool, true, length, replicate, inl,
  inr, ◌==◌,
}
use fount_p2p.Base.JsMap.{get, put}
use fount_p2p.Core.Hlc.{Hlc, stamp_all, Increases, stamp_all-Increases}
use fount_p2p.Core.HexIds.{Text, text_dec, is_event_id, IsIn, sorted_prev_event_ids}
use fount_p2p.Core.HexIds.Order.{IsAscending, sorted_prev_event_ids_lem}
use fount_p2p.Dag.Merkle.{Buffer, merkle_root, compute_local_tips_hash, SameIds, merkle_root_agrees}
use fount_p2p.Governance.Branch.{
  Event, add_events, graph_of, in_graph, parents_of, ancestor_closure_from_tip,
  descendant_closure_from_tip, select_consensus_branch_tip,
}
use fount_p2p.Governance.Branch.Descent.{descendant_closure_from_tip_lem}
use fount_p2p.Governance.Branch.Score.{
  IsConsensus, governance_behind, select_consensus_branch_tip-IsConsensus,
}
use fount_p2p.Governance.Branch.Reachability.{IsReach, ancestor_closure_from_tip-IsReach, Reaches}
use fount_p2p.Governance.Branch.Choice.{select_consensus_branch_tip_agrees}

abbrev early : Hlc
early = record { wall = 100; logical = 3 }

abbrev late : Hlc
late = record { wall = 200; logical = 0 }

abbrev wanted : List (Option ℕ × ℕ × ℕ)
wanted = (none, 100, 100) ∷ (some 300, 101, 102) ∷ (none, 103, 103) ∷ []

stamp_all-Increases_example : Increases (stamp_all (some early) wanted)
stamp_all-Increases_example = stamp_all-Increases wanted (some early)

abbrev id_a : Text
id_a = replicate 64 b'a'

abbrev id_b : Text
id_b = replicate 64 b'b'

abbrev id_c : Text
id_c = replicate 64 b'c'

abbrev raw : List Text
raw = id_b ∷ id_a ∷ (b'x' ∷ []) ∷ id_b ∷ []

sorted_prev_event_ids_lem_example :
    IsAscending (sorted_prev_event_ids raw)
    × ((u : Text)
        → (IsIn u (sorted_prev_event_ids raw) → IsIn u raw × (is_event_id u ≡ true))
          × (IsIn u raw → is_event_id u ≡ true → IsIn u (sorted_prev_event_ids raw)))
sorted_prev_event_ids_lem_example = sorted_prev_event_ids_lem raw

-- A hash of two numbers, in place of SHA-256.
abbrev toy_hash : Buffer → Buffer
toy_hash bs = length bs ∷ 7 ∷ []

swapped : SameIds (id_a ∷ id_b ∷ []) (id_b ∷ id_a ∷ id_b ∷ [])
swapped u valid = (
  λ h. elim h [ inl e ↦ inr (inl e) | inr (inl e) ↦ inl e | inr (inr e) ↦ absurd e ],
  λ h. elim h [
    | inl e ↦ inr (inl e)
    | inr (inl e) ↦ inl e
    | inr (inr (inl e)) ↦ inr (inl e)
    | inr (inr (inr e)) ↦ absurd e
  ],
)

merkle_root_agrees_example :
    (merkle_root toy_hash (λ t. t) (id_a ∷ id_b ∷ [])
      ≡ merkle_root toy_hash (λ t. t) (id_b ∷ id_a ∷ id_b ∷ []))
    × (compute_local_tips_hash toy_hash (λ t. t) (id_a ∷ id_b ∷ [])
        ≡ compute_local_tips_hash toy_hash (λ t. t) (id_b ∷ id_a ∷ id_b ∷ []))
merkle_root_agrees_example =
    merkle_root_agrees toy_hash (λ t. t) (id_a ∷ id_b ∷ []) (id_b ∷ id_a ∷ id_b ∷ []) swapped

-- Two events on top of a first one.
abbrev events : List Event
events =
    record { id = id_a; prev_event_ids = []; kind = b'g' ∷ []; sender = [] }
    ∷ record { id = id_b; prev_event_ids = id_a ∷ []; kind = b'm' ∷ []; sender = [] }
    ∷ record { id = id_c; prev_event_ids = id_a ∷ []; kind = b'g' ∷ []; sender = [] }
    ∷ []

ancestor_closure_from_tip-IsReach_example :
    IsReach (parents_of (graph_of events)) id_b (ancestor_closure_from_tip id_b (graph_of events))
ancestor_closure_from_tip-IsReach_example =
    ancestor_closure_from_tip-IsReach (graph_of events) id_b refl

root_in_graph : in_graph (graph_of events) id_a ≡ true
unfolding add_events get put text_dec ℕ_discrete
root_in_graph = refl

descendant_closure_from_tip_lem_example :
    (IsIn id_b (descendant_closure_from_tip id_a (graph_of events))
      → (in_graph (graph_of events) id_a ≡ true) × Reaches (parents_of (graph_of events)) id_b id_a)
    × (in_graph (graph_of events) id_a ≡ true
        → Reaches (parents_of (graph_of events)) id_b id_a
        → IsIn id_b (descendant_closure_from_tip id_a (graph_of events)))
descendant_closure_from_tip_lem_example = descendant_closure_from_tip_lem events id_a id_b refl refl

abbrev is_governance : Text → Bool
is_governance kind = length kind == 1

select_consensus_branch_tip-IsConsensus_example :
    IsConsensus
      (governance_behind is_governance (graph_of events))
      (id_b ∷ id_c ∷ [])
      (select_consensus_branch_tip is_governance (id_b ∷ id_c ∷ []) (graph_of events))
select_consensus_branch_tip-IsConsensus_example =
    select_consensus_branch_tip-IsConsensus is_governance (id_b ∷ id_c ∷ []) events

either_order : (x y t : Text) → IsIn t (x ∷ y ∷ []) → IsIn t (y ∷ x ∷ [])
either_order x y t (inl e) = inr (inl e)
either_order x y t (inr (inl e)) = inl e
either_order x y t (inr (inr e)) = absurd e

select_consensus_branch_tip_agrees_example :
    select_consensus_branch_tip is_governance (id_b ∷ id_c ∷ []) (graph_of events)
    ≡ select_consensus_branch_tip is_governance (id_c ∷ id_b ∷ []) (graph_of events)
select_consensus_branch_tip_agrees_example =
    select_consensus_branch_tip_agrees is_governance (id_b ∷ id_c ∷ []) (id_c ∷ id_b ∷ [])
      (graph_of events) (either_order id_b id_c) (either_order id_c id_b)
