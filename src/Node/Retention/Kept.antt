-- ===== src/Node/Retention/Kept.antt =====
-- What `computeRetentionKeepIds` (js/node/retention_policy.mjs) keeps.
use fount_p2p.Base.{
  ℕ, zero, suc, ◌≤◌, ◌≡◌, refl, Option, none, some, List, [], ◌∷◌, ◌++◌, true, false, arith, ◌==◌,
  if◌then◌else◌, ◌||◌, not, length, inl, inr, Bool-cases, sym, ◌∙◌, subst,
}
use mathlib.Core.List.{reverse}
use fount_p2p.Base.JsMap.{get}
use fount_p2p.Core.HexIds.{
  Text, text_dec, contains, IsIn, contains-IsIn, IsIn-contains, IsIn-append, IsIn-append_left,
}
use fount_p2p.Core.HexIds.Order.{IsIn-keep_if, IsIn-dedupe, dedupe-IsIn}
use fount_p2p.Governance.Branch.{Event, Graph, parents, edge_count, close}
use fount_p2p.Governance.Branch.Closure.{
  NonEmpty, IsBounded, IsClosure, IsFrontier, weight, close_skip, close_visit, close-sound,
  close-IsClosure, IsIn-reverse, reverse-IsIn, length-reverse,
}
use fount_p2p.Node.Retention.{parents_on, keep_from, keep_fuel, or_all}

module _ (branch : List Text) (g : Graph) (checkpoint : List Text) where
  abbrev on_branch : Text → List Text
  on_branch id = parents_on branch (get text_dec id g)

  -- The walk does not go on from what the checkpoint has kept.
  abbrev next_ids : Text → List Text
  next_ids id = if contains id checkpoint then [] else on_branch id

  parents_on-IsIn : (o : Option Event) (p : Text) → IsIn p (parents_on branch o) → IsIn p branch
  parents_on-IsIn none p h = absurd h
  parents_on-IsIn (some e) p h =
      contains-IsIn p branch (IsIn-keep_if p (λ q. contains q branch) (parents e) h).1

  abbrev IsInside : List Text → List Text → Type 0
  IsInside stack keep =
      ((x : Text) → IsIn x stack → contains x branch ≡ true)
      × ((x : Text) → contains x checkpoint ≡ true → contains x keep ≡ true)

  keep_skip :
      (fuel : ℕ) (id : Text) (stack keep : List Text)
      → (length id == 0 || not (contains id branch) || contains id keep) ≡ true
      → keep_from branch g (suc fuel) (id ∷ stack) keep ≡ keep_from branch g fuel stack keep
  unfolding keep_from
  keep_skip fuel id stack keep h = ground arith

  keep_visit :
      (fuel : ℕ) (id : Text) (stack keep : List Text)
      → (length id == 0 || not (contains id branch) || contains id keep) ≡ false
      → keep_from branch g (suc fuel) (id ∷ stack) keep
        ≡ keep_from branch g fuel (reverse (on_branch id) ++ stack) (keep ++ id ∷ [])
  unfolding keep_from
  keep_visit fuel id stack keep h = ground arith

  contains-append_left :
      (x : Text) (xs ys : List Text) → contains x xs ≡ true → contains x (xs ++ ys) ≡ true
  contains-append_left x xs ys h =
      IsIn-contains x (xs ++ ys) (IsIn-append_left x xs ys (contains-IsIn x xs h))

  visited :
      (id : Text) (stack keep : List Text)
      → IsInside (id ∷ stack) keep
      → IsInside (reverse (on_branch id) ++ stack) (keep ++ id ∷ [])
  visited id stack keep inside = (
    λ x h. elim (IsIn-append x (reverse (on_branch id)) stack h) [
      | inl k ↦
          IsIn-contains x branch
            (parents_on-IsIn (get text_dec id g) x (IsIn-reverse x (on_branch id) k))
      | inr k ↦ inside.0 x (inr k)
    ],
    λ x h. contains-append_left x keep (id ∷ []) (inside.1 x h),
  )

  keep_from_lem :
      (fuel : ℕ) (stack keep : List Text)
      → IsInside stack keep
      → keep_from branch g fuel stack keep ≡ close next_ids fuel stack keep
  unfolding keep_from close
  keep_from_lem zero stack keep inside = refl
  keep_from_lem (suc fuel) [] keep inside = refl
  keep_from_lem (suc fuel) (id ∷ stack) keep inside =
      let here : contains id branch ≡ true = inside.0 id (inl refl) in
      elim (Bool-cases (length id == 0 || contains id keep)) [
        | inl skip ↦
            keep_skip fuel id stack keep (ground arith)
            ∙ keep_from_lem fuel stack keep (λ x h. inside.0 x (inr h), inside.1)
            ∙ sym (close_skip next_ids fuel id stack keep skip)
        | inr visit ↦
            let same : next_ids id ≡ on_branch id =
              let not_checkpoint : contains id checkpoint ≡ false = ground (arith, inside.1 id) in
              rw not_checkpoint refl in
            keep_visit fuel id stack keep (ground arith)
            ∙ keep_from_lem fuel (reverse (on_branch id) ++ stack) (keep ++ id ∷ [])
                (visited id stack keep inside)
            ∙ sym (
                subst
                  (λ ids.
                    close next_ids (suc fuel) (id ∷ stack) keep
                    ≡ close next_ids fuel (reverse ids ++ stack) (keep ++ id ∷ []))
                  same (close_visit next_ids fuel id stack keep visit))
      ]

  weight-le : (out : List Text) (h : Graph) → weight next_ids out h ≤ edge_count on_branch h
  unfolding edge_count
  weight-le out [] = omega arith
  weight-le out ((id, e) ∷ h) = ground (arith, weight-le out h, Bool-cases (contains id checkpoint))

  next_ids-IsBounded : IsBounded next_ids g
  next_ids-IsBounded x h = elim (Bool-cases (contains x checkpoint)) [
    | inl old ↦ rw old refl
    | inr new ↦ rw (new, h) refl
  ]

  start-IsFrontier : (stack : List Text) → IsFrontier next_ids stack checkpoint
  start-IsFrontier stack x u h k n =
      let none_next : next_ids x ≡ [] = rw (IsIn-contains x checkpoint h) refl in
      absurd (subst (IsIn u) none_next k)

  abbrev pub walk : List Text → List Text
  walk seeds = keep_from branch g (keep_fuel branch g seeds) (reverse seeds) checkpoint

  walk_lem :
      (seeds : List Text)
      → ((x : Text) → IsIn x seeds → IsIn x branch)
      → walk seeds ≡ close next_ids (keep_fuel branch g seeds) (reverse seeds) checkpoint
  walk_lem seeds inside =
      keep_from_lem (keep_fuel branch g seeds) (reverse seeds) checkpoint
        (λ x h. IsIn-contains x branch (inside x (IsIn-reverse x seeds h)), λ x h. h)

  walk-IsClosure :
      (seeds : List Text)
      → ((x : Text) → IsIn x seeds → IsIn x branch)
      → IsClosure next_ids (reverse seeds) checkpoint (walk seeds)
  walk-IsClosure seeds inside = rw (walk_lem seeds inside) (
      close-IsClosure next_ids g (keep_fuel branch g seeds) (reverse seeds) checkpoint
        next_ids-IsBounded (omega (arith, length-reverse seeds, weight-le checkpoint g))
        (start-IsFrontier (reverse seeds)))

  next_ids-inside : (x u : Text) → IsIn u (next_ids x) → IsIn u branch
  next_ids-inside x u h = elim (Bool-cases (contains x checkpoint)) [
    | inl old ↦ absurd (subst (IsIn u) {y = []} (rw old refl) h)
    | inr new ↦
        parents_on-IsIn (get text_dec x g) u (subst (IsIn u) {y = on_branch x} (rw new refl) h)
  ]

  fresh_ids : (x : Text) → contains x checkpoint ≡ false → on_branch x ≡ next_ids x
  fresh_ids x fresh = rw fresh refl

  -- What is kept: ids of the branch, the seeds and the checkpoint's ids among them, and with each id
  -- that is not the checkpoint's also its parents on the branch.
  pub record IsKept (seeds keep : List Text) : Type 0 where
    pub inside : (x : Text) → IsIn x keep → IsIn x branch
    pub seeded : (x : Text) → IsIn x seeds → NonEmpty x → IsIn x keep
    pub checkpointed : (x : Text) → IsIn x checkpoint → IsIn x keep
    pub closed :
        (x p : Text)
        → IsIn x keep
        → contains x checkpoint ≡ false
        → IsIn p (on_branch x)
        → NonEmpty p
        → IsIn p keep

  pub walk-IsKept :
      (seeds : List Text)
      → ((x : Text) → IsIn x seeds → IsIn x branch)
      → ((x : Text) → IsIn x checkpoint → IsIn x branch)
      → IsKept seeds (walk seeds)
  walk-IsKept seeds inside known =
      let c = walk-IsClosure seeds inside in
      record {
        inside = λ x h.
            close-sound next_ids (λ y. IsIn y branch) (keep_fuel branch g seeds) (reverse seeds)
              checkpoint (λ y u k m n. next_ids-inside y u m)
              (λ y k n. inside y (IsIn-reverse y seeds k)) known x
              (subst (IsIn x) (walk_lem seeds inside) h);
        seeded = λ x h n. c.takes x (reverse-IsIn x seeds h) n;
        checkpointed = c.keeps;
        closed = λ x p h fresh k n. c.closed x p h (subst (IsIn p) (fresh_ids x fresh) k) n;
      }

  -- A fall back on the whole branch keeps as much.
  pub or_all-IsKept :
      (seeds keep : List Text)
      → IsKept seeds keep
      → ((x : Text) → IsIn x seeds → IsIn x branch)
      → ((x : Text) → IsIn x checkpoint → IsIn x branch)
      → IsKept seeds (or_all branch keep)
  or_all-IsKept seeds (x ∷ keep) k inside known = k
  or_all-IsKept seeds [] k inside known = record {
    inside = λ x h. (IsIn-dedupe x [] branch h).0;
    seeded = λ x h n. dedupe-IsIn x [] branch (inside x h) (λ e. e);
    checkpointed = λ x h. dedupe-IsIn x [] branch (known x h) (λ e. e);
    closed = λ x p h fresh m n.
        dedupe-IsIn p [] branch (parents_on-IsIn (get text_dec x g) p m) (λ e. e);
  }
