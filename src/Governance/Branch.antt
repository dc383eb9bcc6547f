-- ===== src/Governance/Branch.antt =====
-- js/governance/branch.mjs: tips of the event graph, closures along its edges, and the choice of a
-- tip. The graph is the source's `byId` map; an event has its id, parents, type and sender. The
-- registered governance types are a parameter, the predicate of the type.
pub mod Closure
pub mod Reachability
pub mod Choice
pub mod Score
pub mod Children
pub mod Descent
use fount_p2p.Base.{
  ℕ, zero, suc, max, min, ◌+◌, ◌≤◌, ◌<◌, ◌≡◌, refl, ◌⊎◌, Option, none, some, List, [], ◌∷◌, ◌++◌,
  Bool, true, false, arith, ltb, leb, ◌==◌, if◌then◌else◌, inl, inr, ◌&&◌, ◌||◌, not, length,
  keep_if, map, is_some,
}
use mathlib.Core.List.{reverse}
use fount_p2p.Base.JsMap.{JsMap, get, has, put}
use fount_p2p.Core.HexIds.{Text, text_dec, text_lt, contains, sorted_prev_event_ids}

pub record Event : Type 0 where
  pub id : Text
  pub prev_event_ids : List Text
  pub kind : Text
  pub sender : Text

abbrev pub Graph : Type 0
Graph = JsMap Text Event

abbrev pub parents : Event → List Text
parents e = sorted_prev_event_ids e.prev_event_ids

-- `new Map(events.map(event => [event.id, event]))`
unfoldable pub add_events : Graph → List Event → Graph
add_events g [] = g
add_events g (e ∷ events) = add_events (put text_dec e.id e g) events

abbrev pub graph_of : List Event → Graph
graph_of events = add_events [] events

abbrev pub in_graph : Graph → Text → Bool
in_graph g id = has text_dec id g

unfoldable pub any_missing : Graph → List Text → Bool
any_missing g [] = false
any_missing g (p ∷ ps) = not (in_graph g p) || any_missing g ps

unfoldable pub any_dangling : Graph → List Event → Bool
any_dangling g [] = false
any_dangling g (e ∷ events) = any_missing g (parents e) || any_dangling g events

unfoldable pub has_dangling_parents : List Event → Bool
has_dangling_parents events = any_dangling (graph_of events) events

unfoldable pub referenced : List Event → List Text
referenced [] = []
referenced (e ∷ events) = parents e ++ referenced events

abbrev pub is_tip : List Text → Event → Bool
is_tip refs e = not (length e.id == 0) && not (contains e.id refs)

unfoldable pub compute_dag_tip_ids : List Event → List Text
compute_dag_tip_ids events = map (λ e. e.id) (keep_if (is_tip (referenced events)) events)

-- The loop that both closures share, on fuel: `neighbours` are pushed in order, so that the last
-- one is popped first. The stack's top is the head of its list.
unfoldable pub close : (Text → List Text) → ℕ → List Text → List Text → List Text
close neighbours zero stack out = out
close neighbours (suc fuel) [] out = out
close neighbours (suc fuel) (id ∷ stack) out = elim (length id == 0 || contains id out) [
  | true ↦ close neighbours fuel stack out
  | false ↦ close neighbours fuel (reverse (neighbours id) ++ stack) (out ++ id ∷ [])
]

abbrev pub parents_in : Graph → Option Event → List Text
parents_in g none = []
parents_in g (some e) = keep_if (in_graph g) (parents e)

-- The parents of an id that the graph holds.
abbrev pub parents_of : Graph → Text → List Text
parents_of g id = parents_in g (get text_dec id g)

-- The entries that the graph's events can push, one by one.
unfoldable pub edge_count : (Text → List Text) → Graph → ℕ
edge_count neighbours [] = 0
edge_count neighbours ((id, e) ∷ g) = length (neighbours id) + edge_count neighbours g

-- Fuel for one start and every edge.
abbrev pub closure_fuel : (Text → List Text) → Graph → ℕ
closure_fuel neighbours g = suc (edge_count neighbours g)

unfoldable pub ancestor_closure_from_tip : Text → Graph → List Text
ancestor_closure_from_tip tip g = close (parents_of g) (closure_fuel (parents_of g) g) (tip ∷ []) []

abbrev pub list_or_empty : Option (List Text) → List Text
list_or_empty none = []
list_or_empty (some l) = l

-- `list.push(childId)`, or a new list.
abbrev pub add_child : JsMap Text (List Text) → Text → Text → JsMap Text (List Text)
add_child children parent child =
    put text_dec parent (list_or_empty (get text_dec parent children) ++ child ∷ []) children

unfoldable pub add_children :
    Graph → Text → List Text → JsMap Text (List Text) → JsMap Text (List Text)
add_children g child [] children = children
add_children g child (p ∷ ps) children =
    add_children g child ps (if in_graph g p then add_child children p child else children)

unfoldable pub children_map_from : Graph → Graph → JsMap Text (List Text) → JsMap Text (List Text)
children_map_from g [] children = children
children_map_from g ((id, e) ∷ rest) children =
    children_map_from g rest (add_children g e.id (parents e) children)

abbrev pub build_dag_children_map : Graph → JsMap Text (List Text)
build_dag_children_map g = children_map_from g g []

abbrev pub children_of : Graph → Text → List Text
children_of g id = list_or_empty (get text_dec id (build_dag_children_map g))

unfoldable pub descendant_closure_from_tip : Text → Graph → List Text
descendant_closure_from_tip root g =
    if length root == 0 || not (in_graph g root)
    then []
    else close (children_of g) (closure_fuel (children_of g) g) (root ∷ []) []

-- The events of a list of ids that are of a governance type.
unfoldable pub count_authz : (Text → Bool) → Graph → List Text → ℕ
count_authz is_authz g [] = 0
count_authz is_authz g (id ∷ ids) = elim (get text_dec id g) [
  | none ↦ count_authz is_authz g ids
  | some e ↦ (if is_authz e.kind then 1 else 0) + count_authz is_authz g ids
]

abbrev pub authz_score : (Text → Bool) → Graph → Text → ℕ
authz_score is_authz g tip = count_authz is_authz g (ancestor_closure_from_tip tip g)

-- `score > bestScore || (score === bestScore && tip > best)`; no best score is -Infinity.
abbrev pub beats : ℕ → Text → Option ℕ → Text → Bool
beats score tip none best = true
beats score tip (some best_score) best =
    ltb best_score score || (score == best_score && text_lt best tip)

unfoldable pub choose : (Text → ℕ) → List Text → Option ℕ → Text → Text
choose score [] best_score best = best
choose score (tip ∷ tips) best_score best =
    if beats (score tip) tip best_score best
    then choose score tips (some (score tip)) tip
    else choose score tips best_score best

unfoldable pub select_consensus_branch_tip : (Text → Bool) → List Text → Graph → Option Text
select_consensus_branch_tip is_authz [] g = none
select_consensus_branch_tip is_authz (tip ∷ []) g = some tip
select_consensus_branch_tip is_authz (tip ∷ next ∷ tips) g =
    some (choose (authz_score is_authz g) (tip ∷ next ∷ tips) none tip)

-- The scores by tip, as `out[tip] = score` sets them.
unfoldable pub scores_from : (Text → Bool) → Graph → List Text → JsMap Text ℕ → JsMap Text ℕ
scores_from is_authz g [] out = out
scores_from is_authz g (tip ∷ tips) out =
    scores_from is_authz g tips (put text_dec tip (authz_score is_authz g tip) out)

abbrev pub compute_tip_consensus_scores : (Text → Bool) → List Text → Graph → JsMap Text ℕ
compute_tip_consensus_scores is_authz tips g = scores_from is_authz g tips []

-- The ids of the order that belong to the branch; no tip, or an empty one, allows them all.
unfoldable pub authz_fold_order_ids : List Text → Graph → Option Text → List Text
authz_fold_order_ids order g none = order
authz_fold_order_ids order g (some tip) =
    if length tip == 0
    then order
    else keep_if (λ id. contains id (ancestor_closure_from_tip tip g)) order

abbrev pub is_chosen : Option Text → Bool
is_chosen none = false
is_chosen (some tip) = not (length tip == 0)

abbrev pub has_governance_fork : List Text → Option Text → Bool
has_governance_fork tips tip = ltb 1 (length tips) && is_chosen tip
