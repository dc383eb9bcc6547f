-- ===== src/Governance/Branch/Choice.antt =====
-- `selectConsensusBranchTip` of js/governance/branch.mjs: which tip it returns.
use fount_p2p.Base.{
  ℕ, ◌≡◌, refl, Option, none, some, List, [], ◌∷◌, Bool, true, false, arith, inl, inr, Bool-cases,
  sym, ◌∙◌, ap, subst,
}
use fount_p2p.Core.HexIds.{Text, IsIn}
use fount_p2p.Core.HexIds.Order.{text_lt_irrefl, text_lt_trans, text_lt_connex, text_lt_negtrans}
use fount_p2p.Governance.Branch.{Graph, authz_score, beats, choose, select_consensus_branch_tip}

module _ (score : Text → ℕ) where
  -- b has a higher score than a, or the same score and a greater id.
  abbrev pub above : Text → Text → Bool
  above b a = beats (score b) b (some (score a)) a

  -- A tip of the list, and none of the list is above it.
  abbrev pub IsBest : List Text → Text → Type 0
  IsBest tips best = IsIn best tips × ((t : Text) → IsIn t tips → above t best ≡ false)

  -- What is above neither way is the same.
  above_connex : (a b : Text) → above a b ≡ false → above b a ≡ false → a ≡ b
  above_connex a b h k = ground (arith, text_lt_connex a b)

  above_trans : (a b c : Text) → above c b ≡ true → above c a ≡ false → above b a ≡ false
  above_trans a b c h k = ground (arith, text_lt_trans a b c)

  above_irrefl : (a : Text) → above a a ≡ false
  above_irrefl a = ground (arith, text_lt_irrefl a)

  above_negtrans : (a b c : Text) → above a b ≡ false → above b c ≡ false → above a c ≡ false
  above_negtrans a b c h k = ground (arith, text_lt_negtrans c b a)

  IsBest-up :
      (a b r : Text) (tips : List Text)
      → above b a ≡ true
      → IsBest (b ∷ tips) r
      → IsBest (a ∷ b ∷ tips) r
  IsBest-up a b r tips up h = (
    inr h.0,
    λ t k. elim k [
      | inl e ↦ subst (λ y. above y r ≡ false) e (above_trans r a b up (h.1 b (inl refl)))
      | inr m ↦ h.1 t m
    ],
  )

  IsBest-keep :
      (a b r : Text) (tips : List Text)
      → above b a ≡ false
      → IsBest (a ∷ tips) r
      → IsBest (a ∷ b ∷ tips) r
  IsBest-keep a b r tips keep h = (
    elim h.0 [ inl e ↦ inl e | inr m ↦ inr (inr m) ],
    λ t k. elim k [
      | inl e ↦ h.1 t (inl e)
      | inr (inl e) ↦
          subst (λ y. above y r ≡ false) e (above_negtrans b a r keep (h.1 a (inl refl)))
      | inr (inr m) ↦ h.1 t (inr m)
    ],
  )

  choose-IsBest :
      (tips : List Text) (best : Text)
      → IsBest (best ∷ tips) (choose score tips (some (score best)) best)
  unfolding choose
  choose-IsBest [] best = (
    inl refl,
    λ t k. elim k [
      | inl e ↦ subst (λ y. above y best ≡ false) e (above_irrefl best)
      | inr m ↦ absurd m
    ],
  )
  choose-IsBest (tip ∷ tips) best = elim (Bool-cases (above tip best)) [
    | inl up ↦
        subst (IsBest (best ∷ tip ∷ tips)) {x = choose score tips (some (score tip)) tip}
          (rw up refl)
          (IsBest-up best tip (choose score tips (some (score tip)) tip) tips up
            (choose-IsBest tips tip))
    | inr keep ↦
        subst (IsBest (best ∷ tip ∷ tips)) {x = choose score tips (some (score best)) best}
          (rw keep refl)
          (IsBest-keep best tip (choose score tips (some (score best)) best) tips keep
            (choose-IsBest tips best))
  ]

  best_unique :
      (xs ys : List Text) (a b : Text)
      → ((t : Text) → IsIn t xs → IsIn t ys)
      → ((t : Text) → IsIn t ys → IsIn t xs)
      → IsBest xs a
      → IsBest ys b
      → a ≡ b
  best_unique xs ys a b there back h k = above_connex a b (k.1 a (there a h.0)) (h.1 b (back b k.0))

-- What the selection returns: nothing for no tips, else the best tip.
abbrev pub IsChoice : (Text → ℕ) → List Text → Option Text → Type 0
IsChoice score [] o = o ≡ none
IsChoice score (t ∷ tips) none = ⊥
IsChoice score (t ∷ tips) (some best) = IsBest score (t ∷ tips) best

pub select-IsChoice :
    (is_authz : Text → Bool) (tips : List Text) (g : Graph)
    → IsChoice (authz_score is_authz g) tips (select_consensus_branch_tip is_authz tips g)
unfolding select_consensus_branch_tip choose
select-IsChoice is_authz [] g = refl
select-IsChoice is_authz (t ∷ []) g = choose-IsBest (authz_score is_authz g) [] t
select-IsChoice is_authz (t ∷ u ∷ tips) g = choose-IsBest (authz_score is_authz g) (u ∷ tips) t

choice_unique :
    (score : Text → ℕ) (xs ys : List Text) (o p : Option Text)
    → ((t : Text) → IsIn t xs → IsIn t ys)
    → ((t : Text) → IsIn t ys → IsIn t xs)
    → IsChoice score xs o
    → IsChoice score ys p
    → o ≡ p
choice_unique score [] [] o p there back h k = h ∙ sym k
choice_unique score [] (y ∷ ys) o p there back h k = absurd (back y (inl refl))
choice_unique score (x ∷ xs) [] o p there back h k = absurd (there x (inl refl))
choice_unique score (x ∷ xs) (y ∷ ys) none p there back h k = absurd h
choice_unique score (x ∷ xs) (y ∷ ys) (some a) none there back h k = absurd k
choice_unique score (x ∷ xs) (y ∷ ys) (some a) (some b) there back h k =
    ap some (best_unique score (x ∷ xs) (y ∷ ys) a b there back h k)

-- Two lists with the same tips, in any order and with any repetition, select the same tip.
pub select_consensus_branch_tip_agrees :
    (is_authz : Text → Bool) (xs ys : List Text) (g : Graph)
    → ((t : Text) → IsIn t xs → IsIn t ys)
    → ((t : Text) → IsIn t ys → IsIn t xs)
    → select_consensus_branch_tip is_authz xs g ≡ select_consensus_branch_tip is_authz ys g
select_consensus_branch_tip_agrees is_authz xs ys g there back =
    choice_unique (authz_score is_authz g) xs ys (select_consensus_branch_tip is_authz xs g)
      (select_consensus_branch_tip is_authz ys g) there back (select-IsChoice is_authz xs g)
      (select-IsChoice is_authz ys g)
