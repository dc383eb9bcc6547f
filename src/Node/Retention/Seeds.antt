-- ===== src/Node/Retention/Seeds.antt =====
-- The ids from which `computeRetentionKeepIds` (js/node/retention_policy.mjs) walks back, and the whole.
use fount_p2p.Base.{
  ℕ, zero, suc, ◌-◌, ◌≤◌, ◌≡◌, refl, Option, none, some, List, [], ◌∷◌, ◌++◌, Bool, true, false,
  arith, leb, ltb, ◌==◌, if◌then◌else◌, ◌&&◌, not, length, drop, keep_if, inl, inr, Bool-cases,
  subst,
}
use mathlib.Core.List.{reverse}
use fount_p2p.Base.JsMap.{get}
use fount_p2p.Core.HexIds.{
  Text, text_dec, contains, dedupe, IsIn, contains-IsIn, IsIn-append, IsIn-append_left,
  IsIn-append_right,
}
use fount_p2p.Core.HexIds.Order.{IsIn-keep_if, keep_if-IsIn, IsIn-dedupe, dedupe-IsIn}
use fount_p2p.Governance.Branch.{Graph, authz_fold_order_ids, descendant_closure_from_tip}
use fount_p2p.Governance.Branch.Closure.{NonEmpty, IsIn-reverse}
use fount_p2p.Node.Retention.Kept.{IsKept, walk-IsKept, or_all-IsKept}
use fount_p2p.Node.Retention.{
  Policy, checkpoint_ids, is_anchor, first_anchor, slice_last, ancestor_seeds, keep_from, keep_fuel,
  or_all, compute_retention_keep_ids,
}

first_anchor-IsIn :
    (anchor : Text → Bool) (g : Graph) (ids : List Text) (x : Text)
    → IsIn x (first_anchor anchor g ids)
    → IsIn x ids
unfolding first_anchor
first_anchor-IsIn anchor g [] x h = h
first_anchor-IsIn anchor g (id ∷ ids) x h =
    elim (Bool-cases (is_anchor anchor (get text_dec id g))) [
      | inl e ↦ elim (subst (IsIn x) {y = id ∷ []} (rw e refl) h) [
        | inl f ↦ inl f
        | inr k ↦ absurd k
      ]
      | inr e ↦ inr (
          first_anchor-IsIn anchor g ids x
            (subst (IsIn x) {y = first_anchor anchor g ids} (rw e refl) h))
    ]

drop-IsIn : (n : ℕ) (xs : List Text) (x : Text) → IsIn x (drop n xs) → IsIn x xs
drop-IsIn zero xs x h = h
drop-IsIn (suc n) [] x h = h
drop-IsIn (suc n) (y ∷ xs) x h = inr (drop-IsIn n xs x h)

slice_last-IsIn : (n : ℕ) (xs : List Text) (x : Text) → IsIn x (slice_last n xs) → IsIn x xs
slice_last-IsIn n xs x h = elim (Bool-cases (n == 0)) [
  | inl e ↦ subst (IsIn x) {y = xs} (rw e refl) h
  | inr e ↦
      drop-IsIn (length xs - n) xs x (subst (IsIn x) {y = drop (length xs - n) xs} (rw e refl) h)
]

checkpoint_ids-IsIn :
    (branch : List Text) (g : Graph) (o : Option Text) (x : Text)
    → IsIn x (checkpoint_ids branch g o)
    → IsIn x branch
checkpoint_ids-IsIn branch g none x h = absurd h
checkpoint_ids-IsIn branch g (some tip) x h =
    elim (Bool-cases (not (length tip == 0) && contains tip branch)) [
      | inl e ↦
          let kept = keep_if (λ id. contains id branch) (descendant_closure_from_tip tip g) in
          contains-IsIn x branch
            (IsIn-keep_if x (λ id. contains id branch) (descendant_closure_from_tip tip g)
              (subst (IsIn x) {y = kept} (rw e refl) h)).1
      | inr e ↦ absurd (subst (IsIn x) {y = []} (rw e refl) h)
    ]

module _ (wall : Text → ℕ) (g : Graph) (policy : Policy) (branch : List Text) where
  abbrev anchors : List Text
  anchors = first_anchor policy.anchor_types g (reverse branch)

  abbrev recent : List Text
  recent = keep_if (λ id. leb policy.cutoff_wall (wall id)) branch

  abbrev pub newest : List Text
  newest = if ltb policy.max_depth (length branch) then slice_last policy.max_depth branch else []

  newest-IsIn : (x : Text) → IsIn x newest → IsIn x branch
  newest-IsIn x h = elim (Bool-cases (ltb policy.max_depth (length branch))) [
    | inl e ↦
        slice_last-IsIn policy.max_depth branch x
          (subst (IsIn x) {y = slice_last policy.max_depth branch} (rw e refl) h)
    | inr e ↦ absurd (subst (IsIn x) {y = []} (rw e refl) h)
  ]

  ancestor_seeds-inside : (x : Text) → IsIn x (ancestor_seeds wall g policy branch) → IsIn x branch
  unfolding ancestor_seeds
  ancestor_seeds-inside x h =
      elim (IsIn-append x (anchors ++ recent) newest
        (IsIn-dedupe x [] (anchors ++ recent ++ newest) h).0) [
          | inl ar ↦ elim (IsIn-append x anchors recent ar) [
            | inl a ↦
                IsIn-reverse x branch (first_anchor-IsIn policy.anchor_types g (reverse branch) x a)
            | inr r ↦ (IsIn-keep_if x (λ id. leb policy.cutoff_wall (wall id)) branch r).0
          ]
          | inr n ↦ newest-IsIn x n
        ]

  recent-seeded :
      (x : Text)
      → IsIn x branch
      → leb policy.cutoff_wall (wall x) ≡ true
      → IsIn x (ancestor_seeds wall g policy branch)
  unfolding ancestor_seeds
  recent-seeded x h young =
      dedupe-IsIn x [] (anchors ++ recent ++ newest)
        (IsIn-append_left x (anchors ++ recent) newest (
          IsIn-append_right x anchors recent
            (keep_if-IsIn x (λ id. leb policy.cutoff_wall (wall id)) branch h young)))
        (λ e. e)

  newest-seeded : (x : Text) → IsIn x newest → IsIn x (ancestor_seeds wall g policy branch)
  unfolding ancestor_seeds
  newest-seeded x h =
      dedupe-IsIn x [] (anchors ++ recent ++ newest)
        (IsIn-append_right x (anchors ++ recent) newest h) (λ e. e)

or_all-pos : (branch keep : List Text) → 1 ≤ length branch → 1 ≤ length (or_all branch keep)
unfolding dedupe
or_all-pos branch (x ∷ keep) h = omega arith
or_all-pos [] [] h = absurd (omega arith)
or_all-pos (x ∷ branch) [] h = omega arith

empty-IsIn : (xs : List Text) (x : Text) → length xs ≡ 0 → IsIn x xs → ⊥
empty-IsIn [] x e h = h
empty-IsIn (y ∷ xs) x e h = absurd (omega arith)

abbrev kept_by : (Text → ℕ) → Graph → Policy → List Text → List Text
kept_by wall g policy branch =
    if length branch == 0
    then []
    else or_all branch (
        keep_from branch g (keep_fuel branch g (ancestor_seeds wall g policy branch))
          (reverse (ancestor_seeds wall g policy branch))
          (checkpoint_ids branch g policy.checkpoint_tip_id))

kept_by-IsKept :
    (wall : Text → ℕ) (g : Graph) (policy : Policy) (branch : List Text)
    → IsKept branch g
        (checkpoint_ids branch g policy.checkpoint_tip_id)
        (ancestor_seeds wall g policy branch)
        (kept_by wall g policy branch)
kept_by-IsKept wall g policy branch =
    let seeds = ancestor_seeds wall g policy branch in
    let checkpoint = checkpoint_ids branch g policy.checkpoint_tip_id in
    let inside = ancestor_seeds-inside wall g policy branch in
    let known = checkpoint_ids-IsIn branch g policy.checkpoint_tip_id in
    elim (Bool-cases (length branch == 0)) [
      | inl empty ↦ rw empty (record {
        inside = λ x h. absurd h;
        seeded = λ x h n. absurd (empty-IsIn branch x (ground arith) (inside x h));
        checkpointed = λ x h. absurd (empty-IsIn branch x (ground arith) (known x h));
        closed = λ x p h fresh k n. absurd h;
      })
      | inr some_id ↦ rw some_id (
          or_all-IsKept branch g checkpoint seeds
            (keep_from branch g (keep_fuel branch g seeds) (reverse seeds) checkpoint)
            (walk-IsKept branch g checkpoint seeds inside known) inside known)
    ]

-- The ids that are kept are of the branch; with an id that is not of the checkpoint, its parents on
-- the branch are kept; the checkpoint's descendants on the branch, the ids that are not older than
-- the cutoff, and the last ids of a branch that is longer than the depth are kept; and of a branch
-- with an id something is kept.
pub compute_retention_keep_ids_lem :
    (wall : Text → ℕ) (order : List Text) (g : Graph) (policy : Policy)
    → let branch = authz_fold_order_ids order g policy.branch_tip_id in
      let keep = compute_retention_keep_ids wall order g policy in
      IsKept branch g
        (checkpoint_ids branch g policy.checkpoint_tip_id)
        (ancestor_seeds wall g policy branch)
        keep
      × ((x : Text)
          → IsIn x branch
          → leb policy.cutoff_wall (wall x) ≡ true
          → NonEmpty x
          → IsIn x keep)
      × ((x : Text) → IsIn x (newest wall g policy branch) → NonEmpty x → IsIn x keep)
      × (1 ≤ length branch → 1 ≤ length keep)
unfolding compute_retention_keep_ids
compute_retention_keep_ids_lem wall order g policy =
    let branch = authz_fold_order_ids order g policy.branch_tip_id in
    let kept = kept_by-IsKept wall g policy branch in
    (
      kept,
      λ x h young n. kept.seeded x (recent-seeded wall g policy branch x h young) n,
      λ x h n. kept.seeded x (newest-seeded wall g policy branch x h) n,
      λ some_id.
          let not_empty : (length branch == 0) ≡ false = ground arith in
          rw not_empty (
            or_all-pos branch
              (keep_from branch g (keep_fuel branch g (ancestor_seeds wall g policy branch))
                (reverse (ancestor_seeds wall g policy branch))
                (checkpoint_ids branch g policy.checkpoint_tip_id))
              some_id),
    )
