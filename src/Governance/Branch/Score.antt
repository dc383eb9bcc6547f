-- ===== src/Governance/Branch/Score.antt =====
-- `selectConsensusBranchTip` of js/governance/branch.mjs counts the governance events of the graph that
-- a tip reaches, and takes the tip with the most.
use fount_p2p.Base.{
  ℕ, zero, suc, ◌+◌, ◌≤◌, ◌<◌, ◌≡◌, refl, ◌⊎◌, Option, none, some, List, [], ◌∷◌, ◌++◌, Bool, false,
  arith, inl, inr, Bool-cases, ap, ◌&&◌, ◌||◌, length, if◌then◌else◌, ◌==◌,
}
use mathlib.Core.List.{reverse}
use fount_p2p.Base.JsMap.{get, put, IsMap, put-IsMap}
use fount_p2p.Core.HexIds.{Text, text_dec, text_lt, decided, contains, IsIn}
use fount_p2p.Core.HexIds.Count.{occurrences}
use fount_p2p.Governance.Branch.{
  Event, Graph, add_events, graph_of, close, closure_fuel, parents_of, ancestor_closure_from_tip,
  count_authz, authz_score, select_consensus_branch_tip,
}
use fount_p2p.Governance.Branch.Choice.{above, IsChoice, select-IsChoice}

-- The governance events of the graph that are among the ids.
abbrev pub governance_events : (Text → Bool) → List Text → Graph → ℕ
governance_events is_authz ids [] = 0
governance_events is_authz ids ((id, e) ∷ g) =
    (if is_authz e.kind && contains id ids then 1 else 0) + governance_events is_authz ids g

-- Those that a tip reaches.
abbrev pub governance_behind : (Text → Bool) → Graph → Text → ℕ
governance_behind is_authz g tip = governance_events is_authz (ancestor_closure_from_tip tip g) g

add_events-IsMap :
    (events : List Event) (g : Graph) → IsMap text_dec g → IsMap text_dec (add_events g events)
unfolding add_events
add_events-IsMap [] g h = h
add_events-IsMap (e ∷ events) g h =
    add_events-IsMap events (put text_dec e.id e g) (put-IsMap text_dec e.id e g h)

pub graph_of-IsMap : (events : List Event) → IsMap text_dec (graph_of events)
graph_of-IsMap events = add_events-IsMap events [] tt

abbrev IsOnce : List Text → Type 0
IsOnce out = (id : Text) → occurrences id out ≤ 1

occurrences-snoc :
    (u id : Text) (out : List Text)
    → occurrences u (out ++ id ∷ [])
      ≡ occurrences u out + (if decided (text_dec id u) then 1 else 0)
occurrences-snoc u id [] = ground arith
occurrences-snoc u id (x ∷ out) = ground (arith, occurrences-snoc u id out)

occurrences_if :
    (id : Text) (out : List Text)
    → occurrences id out ≤ 1
    → occurrences id out ≡ (if contains id out then 1 else 0)
occurrences_if id [] h = ground arith
occurrences_if id (x ∷ out) h = ground (arith, occurrences_if id out)

occurrences_absent :
    (id : Text) (out : List Text) → contains id out ≡ false → occurrences id out ≡ 0
occurrences_absent id [] h = ground arith
occurrences_absent id (x ∷ out) h = ground (arith, occurrences_absent id out)

close-IsOnce :
    (neighbours : Text → List Text) (fuel : ℕ) (stack out : List Text)
    → IsOnce out
    → IsOnce (close neighbours fuel stack out)
unfolding close
close-IsOnce neighbours zero stack out h = h
close-IsOnce neighbours (suc fuel) [] out h = h
close-IsOnce neighbours (suc fuel) (id ∷ stack) out h =
    elim (Bool-cases (length id == 0 || contains id out)) [
      | inl skip ↦ rw (skip, close) (close-IsOnce neighbours fuel stack out h)
      | inr visit ↦
          rw (visit, close)
            (close-IsOnce neighbours fuel (reverse (neighbours id) ++ stack) (out ++ id ∷ []) (λ u.
              elim (text_dec id u) [
                | yes e ↦ ground (
                  arith,
                  occurrences-snoc u id out,
                  occurrences_absent id out (ground arith),
                  ap (λ v. occurrences v out) e,
                )
                | no d ↦ ground (arith, occurrences-snoc u id out, h u)
              ]))
    ]

-- One more event of the graph, that it did not have.
count_authz-cons :
    (is_authz : Text → Bool) (k : Text) (e : Event) (g : Graph) (ids : List Text)
    → get text_dec k g ≡ none
    → count_authz is_authz ((k, e) ∷ g) ids
      ≡ count_authz is_authz g ids + (if is_authz e.kind then occurrences k ids else 0)
unfolding count_authz get
count_authz-cons is_authz k e g [] h = ground arith
count_authz-cons is_authz k e g (id ∷ ids) h = elim (text_dec k id) [
  | yes same ↦
      ground (arith, count_authz-cons is_authz k e g ids h, ap (λ v. get text_dec v g) same, h)
  | no other ↦ ground (arith, count_authz-cons is_authz k e g ids h)
]

count_authz_empty : (is_authz : Text → Bool) (ids : List Text) → count_authz is_authz [] ids ≡ 0
unfolding count_authz get
count_authz_empty is_authz [] = refl
count_authz_empty is_authz (id ∷ ids) = count_authz_empty is_authz ids

count_authz_lem :
    (is_authz : Text → Bool) (ids : List Text) (g : Graph)
    → IsOnce ids
    → IsMap text_dec g
    → count_authz is_authz g ids ≡ governance_events is_authz ids g
count_authz_lem is_authz ids [] once distinct = count_authz_empty is_authz ids
count_authz_lem is_authz ids ((k, e) ∷ g) once distinct = ground (
  arith,
  count_authz-cons is_authz k e g ids distinct.0,
  occurrences_if k ids (once k),
  count_authz_lem is_authz ids g once distinct.1,
)

authz_score_lem :
    (is_authz : Text → Bool) (g : Graph) (tip : Text)
    → IsMap text_dec g
    → authz_score is_authz g tip ≡ governance_behind is_authz g tip
unfolding ancestor_closure_from_tip
authz_score_lem is_authz g tip distinct =
    count_authz_lem is_authz (ancestor_closure_from_tip tip g) g
      (close-IsOnce (parents_of g) (closure_fuel (parents_of g) g) (tip ∷ []) [] (λ u. omega arith))
      distinct

-- One tip has no more behind it than another, or as much and an id that is not greater.
abbrev pub IsNoBetter : (Text → ℕ) → Text → Text → Type 0
IsNoBetter score t best =
    (score t < score best) ⊎ ((score t ≡ score best) × (text_lt best t ≡ false))

abbrev pub IsConsensus : (Text → ℕ) → List Text → Option Text → Type 0
IsConsensus score tips none = tips ≡ []
IsConsensus score tips (some best) =
    IsIn best tips × ((t : Text) → IsIn t tips → IsNoBetter score t best)

above-IsNoBetter :
    (score other : Text → ℕ) (t best : Text)
    → score t ≡ other t
    → score best ≡ other best
    → above score t best ≡ false
    → IsNoBetter other t best
above-IsNoBetter score other t best h k no_better = ground arith

consensus :
    (score other : Text → ℕ) (tips : List Text) (o : Option Text)
    → ((t : Text) → score t ≡ other t)
    → IsChoice score tips o
    → IsConsensus other tips o
consensus score other [] none same h = refl
consensus score other [] (some best) same h = cc
consensus score other (t ∷ tips) none same h = absurd h
consensus score other (t ∷ tips) (some best) same h =
    (h.0, λ u k. above-IsNoBetter score other u best (same u) (same best) (h.1 u k))

-- On the graph of some events, `select_consensus_branch_tip` returns nothing if there are no tips;
-- else it returns one of the tips such that every tip reaches fewer governance events of the graph, or
-- as many and has no greater id.
pub select_consensus_branch_tip-IsConsensus :
    (is_authz : Text → Bool) (tips : List Text) (events : List Event)
    → IsConsensus
        (governance_behind is_authz (graph_of events))
        tips
        (select_consensus_branch_tip is_authz tips (graph_of events))
select_consensus_branch_tip-IsConsensus is_authz tips events =
    consensus (authz_score is_authz (graph_of events))
      (governance_behind is_authz (graph_of events)) tips
      (select_consensus_branch_tip is_authz tips (graph_of events))
      (λ t. authz_score_lem is_authz (graph_of events) t (graph_of-IsMap events))
      (select-IsChoice is_authz tips (graph_of events))
