-- ===== src/Governance/Branch/Reachability.antt =====
-- What the two closures of js/governance/branch.mjs return, as a set of event ids.
use fount_p2p.Base.{
  some, ◌≡◌, refl, none, List, [], ◌∷◌, ◌++◌, true, arith, if◌then◌else◌, inl, inr, ap, subst,
}
use fount_p2p.Base.JsMap.{JsMap, get, get-put}
use fount_p2p.Core.HexIds.{Text, text_dec, IsIn, contains, contains-IsIn, IsIn-contains}
use fount_p2p.Core.HexIds.Order.{IsIn-keep_if, keep_if-IsIn}
use fount_p2p.Governance.Branch.{
  Graph, parents_of, in_graph, parents, list_or_empty, add_child, add_children, children_map_from,
  children_of, close, closure_fuel, ancestor_closure_from_tip, authz_fold_order_ids,
  descendant_closure_from_tip,
}
use fount_p2p.Governance.Branch.Closure.{
  NonEmpty, IsBounded, IsClosure, close-sound, close-IsClosure, weight-edge_count,
}

-- A walk along `neighbours` through ids that are not empty.
pub data Reaches (neighbours : Text → List Text) (root : Text) : Text → Type 0 where
  start : Reaches neighbours root root
  along :
      (x u : Text)
      → Reaches neighbours root x
      → IsIn u (neighbours x)
      → NonEmpty u
      → Reaches neighbours root u

-- The list holds just what the root reaches.
abbrev pub IsReach : (Text → List Text) → Text → List Text → Type 0
IsReach neighbours root result =
    (x : Text)
    → (IsIn x result → Reaches neighbours root x) × (Reaches neighbours root x → IsIn x result)

Reaches-IsIn :
    (neighbours : Text → List Text) (root : Text) (result : List Text) (x : Text)
    → NonEmpty root
    → IsClosure neighbours (root ∷ []) [] result
    → Reaches neighbours root x
    → IsIn x result
Reaches-IsIn neighbours root result x n c start = c.takes root (inl refl) n
Reaches-IsIn neighbours root result x n c (along y u r h m) =
    c.closed y u (Reaches-IsIn neighbours root result y n c r) h m

close-IsReach :
    (neighbours : Text → List Text) (g : Graph) (root : Text)
    → IsBounded neighbours g
    → NonEmpty root
    → IsReach neighbours root (close neighbours (closure_fuel neighbours g) (root ∷ []) [])
close-IsReach neighbours g root b n x = (
  close-sound neighbours (Reaches neighbours root) (closure_fuel neighbours g) (root ∷ []) []
      (λ y u r h m. along y u r h m)
      (λ y h m. elim h [ inl e ↦ subst (Reaches neighbours root) e start | inr e ↦ absurd e ])
      (λ y h. absurd h) x,
  Reaches-IsIn neighbours root (close neighbours (closure_fuel neighbours g) (root ∷ []) []) x n (
      close-IsClosure neighbours g (closure_fuel neighbours g) (root ∷ []) [] b
        (omega (arith, weight-edge_count neighbours g)) (λ y u h. absurd h)),
)

-- For a tip that is not empty, `ancestor_closure_from_tip` returns just the ids that the tip
-- reaches along the parents that the graph holds, the tip itself included: the fuel is enough.
pub ancestor_closure_from_tip-IsReach :
    (g : Graph) (tip : Text)
    → NonEmpty tip
    → IsReach (parents_of g) tip (ancestor_closure_from_tip tip g)
unfolding ancestor_closure_from_tip
ancestor_closure_from_tip-IsReach g tip n = close-IsReach (parents_of g) g tip (λ x h. cc) n

absent-add_children :
    (g : Graph) (child x : Text) (ps : List Text) (children : JsMap Text (List Text))
    → get text_dec x g ≡ none
    → get text_dec x children ≡ none
    → get text_dec x (add_children g child ps children) ≡ none
unfolding add_children
absent-add_children g child x [] children a h = h
absent-add_children g child x (p ∷ ps) children a h =
    absent-add_children g child x ps (if in_graph g p then add_child children p child else children)
      a
      (ground (
        arith,
        get-put text_dec x p (list_or_empty (get text_dec p children) ++ child ∷ []) children,
      ))

absent-children_map_from :
    (g rest : Graph) (x : Text) (children : JsMap Text (List Text))
    → get text_dec x g ≡ none
    → get text_dec x children ≡ none
    → get text_dec x (children_map_from g rest children) ≡ none
unfolding children_map_from
absent-children_map_from g [] x children a h = h
absent-children_map_from g ((id, e) ∷ rest) x children a h =
    absent-children_map_from g rest x (add_children g e.id (parents e) children) a
      (absent-add_children g e.id x (parents e) children a h)

-- For a root of the graph that is not empty, `descendant_closure_from_tip` returns just the ids
-- that the root reaches along the children map, the root itself included: the fuel is enough.
pub descendant_closure_from_tip-IsReach :
    (g : Graph) (root : Text)
    → NonEmpty root
    → in_graph g root ≡ true
    → IsReach (children_of g) root (descendant_closure_from_tip root g)
unfolding descendant_closure_from_tip get
descendant_closure_from_tip-IsReach g root n h = rw n (
    rw h (
      close-IsReach (children_of g) g root
        (λ x a. ap list_or_empty (absent-children_map_from g g x [] a refl)) n))

-- For a tip that is not empty, `authz_fold_order_ids` keeps of an order just the ids that the tip
-- reaches along the parents that the graph holds.
pub authz_fold_order_ids_lem :
    (order : List Text) (g : Graph) (tip x : Text)
    → NonEmpty tip
    → (IsIn x (authz_fold_order_ids order g (some tip))
        → IsIn x order × Reaches (parents_of g) tip x)
      × (IsIn x order
          → Reaches (parents_of g) tip x
          → IsIn x (authz_fold_order_ids order g (some tip)))
unfolding authz_fold_order_ids
authz_fold_order_ids_lem order g tip x n =
    let closure = ancestor_closure_from_tip tip g in
    let exact = ancestor_closure_from_tip-IsReach g tip n x in
    rw n (
      λ h.
          let k = IsIn-keep_if x (λ id. contains id closure) order h in
          (k.0, exact.0 (contains-IsIn x closure k.1)),
      λ h r.
          keep_if-IsIn x (λ id. contains id closure) order h (IsIn-contains x closure (exact.1 r)),
    )
