-- ===== src/Governance/Branch/Descent.antt =====
-- The closure of js/governance/branch.mjs along the children has just the descendants.
use fount_p2p.Base.{◌≡◌, refl, List, [], true, inl, inr, Bool-cases, subst}
use fount_p2p.Core.HexIds.{Text, IsIn}
use fount_p2p.Governance.Branch.{
  Event, parents_of, graph_of, in_graph, children_of, descendant_closure_from_tip,
}
use fount_p2p.Governance.Branch.Closure.{NonEmpty}
use fount_p2p.Governance.Branch.Reachability.{
  Reaches, start, along, descendant_closure_from_tip-IsReach,
}
use fount_p2p.Governance.Branch.Children.{children_of-parents_of}

module _ (there back : Text → List Text) where
  before : (a b z : Text) → IsIn b (there a) → NonEmpty b → Reaches there b z → Reaches there a z
  before a b z h m start = along a b start h m
  before a b z h m (along y u r k n) = along y u (before a b y h m r) k n

  Reaches-NonEmpty : (a z : Text) → NonEmpty a → Reaches there a z → NonEmpty z
  Reaches-NonEmpty a z n start = n
  Reaches-NonEmpty a z n (along y u r k m) = m

-- A walk, turned round.
turned :
    (there back : Text → List Text)
    → ((a b : Text) → IsIn b (there a) → IsIn a (back b))
    → (a z : Text) → NonEmpty a
    → Reaches there a z
    → Reaches back z a
turned there back converse a z n start = start
turned there back converse a z n (along y u r k m) =
    before back there u y a (converse y u k) (Reaches-NonEmpty there back a y n r)
      (turned there back converse a y n r)

-- On the graph of some events, for a root and an id that are not empty: if `descendant_closure_from_tip`
-- returns the id, the graph holds the root, and the root is reached from the id along the parents
-- that the graph holds; and if the graph holds the root, every id from which it is so reached is
-- returned, the root itself included.
pub descendant_closure_from_tip_lem :
    (events : List Event) (root x : Text)
    → NonEmpty root
    → NonEmpty x
    → let g = graph_of events in
      (IsIn x (descendant_closure_from_tip root g)
        → (in_graph g root ≡ true) × Reaches (parents_of g) x root)
      × (in_graph g root ≡ true
          → Reaches (parents_of g) x root
          → IsIn x (descendant_closure_from_tip root g))
unfolding descendant_closure_from_tip
descendant_closure_from_tip_lem events root x named_root named =
    let g = graph_of events in
    let exact = λ (inside : in_graph g root ≡ true).
      descendant_closure_from_tip-IsReach g root named_root inside x in
    (
      λ h. elim (Bool-cases (in_graph g root)) [
        | inl inside ↦ (
          inside,
          turned (children_of g) (parents_of g) (λ a b k. (children_of-parents_of events a b).0 k)
              root x named_root ((exact inside).0 h),
        )
        | inr outside ↦ absurd (
            subst (IsIn x) {x = descendant_closure_from_tip root g} {y = []}
              (rw (named_root, outside) refl) h)
      ],
      λ inside r. (exact inside).1 (
          turned (parents_of g) (children_of g) (λ a b k. (children_of-parents_of events b a).1 k) x
            root named r),
    )
