-- ===== src/Core/HexIds/Order.antt =====
-- The order on texts, and what `sortedPrevEventIds` (js/dag/index.mjs) returns: the valid ids of
-- its argument, each once, in ascending order.
use fount_p2p.Base.{
  ◌≡◌, refl, List, [], ◌∷◌, Bool, true, false, arith, inl, inr, keep_if, Bool-cases, subst, sym,
}
use fount_p2p.Core.HexIds.{
  Text, text_dec, is_event_id, text_lt, contains, dedupe, insert_sorted, sort,
  sorted_prev_event_ids, IsIn, contains-IsIn, IsIn-contains,
}

pub text_lt_irrefl : (a : Text) → text_lt a a ≡ false
unfolding text_lt
text_lt_irrefl [] = refl
text_lt_irrefl (c ∷ a) = ground (arith, text_lt_irrefl a)

pub text_lt_trans : (a b c : Text) → text_lt a b ≡ true → text_lt b c ≡ true → text_lt a c ≡ true
unfolding text_lt
text_lt_trans [] [] c h k = k
text_lt_trans [] (y ∷ b) [] h k = cc
text_lt_trans [] (y ∷ b) (z ∷ c) h k = refl
text_lt_trans (x ∷ a) [] c h k = cc
text_lt_trans (x ∷ a) (y ∷ b) [] h k = cc
text_lt_trans (x ∷ a) (y ∷ b) (z ∷ c) h k = ground (arith, text_lt_trans a b c)

pub text_lt_connex : (a b : Text) → text_lt a b ≡ false → text_lt b a ≡ false → a ≡ b
unfolding text_lt
text_lt_connex [] [] h k = refl
text_lt_connex [] (y ∷ b) h k = cc
text_lt_connex (x ∷ a) [] h k = cc
text_lt_connex (x ∷ a) (y ∷ b) h k = ground (arith, text_lt_connex a b)

pub text_lt_negtrans :
    (a b c : Text) → text_lt a b ≡ false → text_lt b c ≡ false → text_lt a c ≡ false
text_lt_negtrans a b c h k = elim (Bool-cases (text_lt b a)) [
  | inl lt ↦ elim (Bool-cases (text_lt a c)) [
    | inl up ↦ cc (text_lt_trans b a c lt up, k)
    | inr ge ↦ ge
  ]
  | inr ge ↦ subst (λ y. text_lt y c ≡ false) (text_lt_connex b a ge h) k
]

-- Every text is below all that follow it.
abbrev pub IsBelow : Text → List Text → Type 0
IsBelow a [] = Unit
IsBelow a (x ∷ xs) = (text_lt a x ≡ true) × IsBelow a xs

abbrev pub IsAscending : List Text → Type 0
IsAscending [] = Unit
IsAscending (x ∷ xs) = IsBelow x xs × IsAscending xs

IsBelow-trans : (a b : Text) (xs : List Text) → text_lt a b ≡ true → IsBelow b xs → IsBelow a xs
IsBelow-trans a b [] h k = tt
IsBelow-trans a b (x ∷ xs) h k = (text_lt_trans a b x h k.0, IsBelow-trans a b xs h k.1)

IsBelow-insert_sorted :
    (a b : Text) (xs : List Text)
    → text_lt a b ≡ true
    → IsBelow a xs
    → IsBelow a (insert_sorted b xs)
unfolding insert_sorted
IsBelow-insert_sorted a b [] h k = (h, tt)
IsBelow-insert_sorted a b (x ∷ xs) h k = elim (Bool-cases (text_lt b x)) [
  | inl lt ↦ rw lt (h, k)
  | inr ge ↦ rw ge (k.0, IsBelow-insert_sorted a b xs h k.1)
]

insert_sorted-IsAscending :
    (a : Text) (xs : List Text)
    → (IsIn a xs → ⊥)
    → IsAscending xs
    → IsAscending (insert_sorted a xs)
unfolding insert_sorted
insert_sorted-IsAscending a [] new h = (tt, tt)
insert_sorted-IsAscending a (x ∷ xs) new h = elim (Bool-cases (text_lt a x)) [
  | inl lt ↦ rw lt ((lt, IsBelow-trans a x xs lt h.0), h)
  | inr ge ↦ rw ge (
    IsBelow-insert_sorted x a xs
        (elim (Bool-cases (text_lt x a)) [
          | inl lt ↦ lt
          | inr eq ↦ absurd (new (inl (text_lt_connex x a eq ge)))
        ])
        h.0,
    insert_sorted-IsAscending a xs (λ k. new (inr k)) h.1,
  )
]

insert_sorted-IsIn : (u a : Text) (xs : List Text) → IsIn u (a ∷ xs) → IsIn u (insert_sorted a xs)
unfolding insert_sorted
insert_sorted-IsIn u a [] h = h
insert_sorted-IsIn u a (x ∷ xs) h = elim (Bool-cases (text_lt a x)) [
  | inl lt ↦ rw lt h
  | inr ge ↦ rw ge (elim h [
    | inl e ↦ inr (insert_sorted-IsIn u a xs (inl e))
    | inr (inl e) ↦ inl e
    | inr (inr k) ↦ inr (insert_sorted-IsIn u a xs (inr k))
  ])
]

IsIn-insert_sorted : (u a : Text) (xs : List Text) → IsIn u (insert_sorted a xs) → IsIn u (a ∷ xs)
unfolding insert_sorted
IsIn-insert_sorted u a [] h = h
IsIn-insert_sorted u a (x ∷ xs) h = elim (Bool-cases (text_lt a x)) [
  | inl lt ↦ subst (IsIn u) {y = a ∷ x ∷ xs} (rw lt refl) h
  | inr ge ↦ elim (subst (IsIn u) {y = x ∷ insert_sorted a xs} (rw ge refl) h) [
    | inl e ↦ inr (inl e)
    | inr k ↦ elim (IsIn-insert_sorted u a xs k) [ inl e ↦ inl e | inr m ↦ inr (inr m) ]
  ]
]

IsIn-sort : (u : Text) (xs : List Text) → IsIn u (sort xs) → IsIn u xs
unfolding sort
IsIn-sort u [] h = h
IsIn-sort u (x ∷ xs) h = elim (IsIn-insert_sorted u x (sort xs) h) [
  | inl e ↦ inl e
  | inr k ↦ inr (IsIn-sort u xs k)
]

sort-IsIn : (u : Text) (xs : List Text) → IsIn u xs → IsIn u (sort xs)
unfolding sort
sort-IsIn u [] h = h
sort-IsIn u (x ∷ xs) (inl e) = insert_sorted-IsIn u x (sort xs) (inl e)
sort-IsIn u (x ∷ xs) (inr h) = insert_sorted-IsIn u x (sort xs) (inr (sort-IsIn u xs h))

abbrev pub IsNodup : List Text → Type 0
IsNodup [] = Unit
IsNodup (x ∷ xs) = (IsIn x xs → ⊥) × IsNodup xs

sort-IsAscending : (xs : List Text) → IsNodup xs → IsAscending (sort xs)
unfolding sort
sort-IsAscending [] h = tt
sort-IsAscending (x ∷ xs) h =
    insert_sorted-IsAscending x (sort xs) (λ k. h.0 (IsIn-sort x xs k)) (sort-IsAscending xs h.1)

pub IsIn-dedupe :
    (u : Text) (seen xs : List Text) → IsIn u (dedupe seen xs) → IsIn u xs × (IsIn u seen → ⊥)
unfolding dedupe
IsIn-dedupe u seen [] h = absurd h
IsIn-dedupe u seen (x ∷ xs) h = elim (Bool-cases (contains x seen)) [
  | inl old ↦
      let k = IsIn-dedupe u seen xs (subst (IsIn u) {y = dedupe seen xs} (rw old refl) h) in
      (inr k.0, k.1)
  | inr new ↦ elim (subst (IsIn u) {y = x ∷ dedupe (x ∷ seen) xs} (rw new refl) h) [
    | inl e ↦ (inl e, λ k. cc (IsIn-contains x seen (subst (λ y. IsIn y seen) (sym e) k), new))
    | inr m ↦ let k = IsIn-dedupe u (x ∷ seen) xs m in (inr k.0, λ s. k.1 (inr s))
  ]
]

pub dedupe-IsIn :
    (u : Text) (seen xs : List Text) → IsIn u xs → (IsIn u seen → ⊥) → IsIn u (dedupe seen xs)
unfolding dedupe
dedupe-IsIn u seen [] h n = h
dedupe-IsIn u seen (x ∷ xs) h n = elim (Bool-cases (contains x seen)) [
  | inl old ↦ rw old (elim h [
    | inl e ↦ absurd (n (subst (λ y. IsIn y seen) e (contains-IsIn x seen old)))
    | inr k ↦ dedupe-IsIn u seen xs k n
  ])
  | inr new ↦ rw new (elim (text_dec x u) [
    | yes e ↦ inl e
    | no d ↦ elim h [
      | inl e ↦ absurd (d e)
      | inr k ↦ inr (dedupe-IsIn u (x ∷ seen) xs k (λ s. elim s [ inl e ↦ d e | inr t ↦ n t ]))
    ]
  ])
]

pub dedupe-IsNodup : (seen xs : List Text) → IsNodup (dedupe seen xs)
unfolding dedupe
dedupe-IsNodup seen [] = tt
dedupe-IsNodup seen (x ∷ xs) = elim (Bool-cases (contains x seen)) [
  | inl old ↦ rw old (dedupe-IsNodup seen xs)
  | inr new ↦
      rw new (λ h. (IsIn-dedupe x (x ∷ seen) xs h).1 (inl refl), dedupe-IsNodup (x ∷ seen) xs)
]

pub IsIn-keep_if :
    (u : Text) (f : Text → Bool) (xs : List Text) → IsIn u (keep_if f xs) → IsIn u xs × (f u ≡ true)
IsIn-keep_if u f [] h = absurd h
IsIn-keep_if u f (x ∷ xs) h = elim (Bool-cases (f x)) [
  | inl keep ↦ elim (subst (IsIn u) {y = x ∷ keep_if f xs} (rw keep refl) h) [
    | inl e ↦ (inl e, subst (λ y. f y ≡ true) e keep)
    | inr k ↦ let m = IsIn-keep_if u f xs k in (inr m.0, m.1)
  ]
  | inr skip ↦
      let m = IsIn-keep_if u f xs (subst (IsIn u) {y = keep_if f xs} (rw skip refl) h) in
      (inr m.0, m.1)
]

pub keep_if-IsIn :
    (u : Text) (f : Text → Bool) (xs : List Text) → IsIn u xs → f u ≡ true → IsIn u (keep_if f xs)
keep_if-IsIn u f [] h k = h
keep_if-IsIn u f (x ∷ xs) h k = elim (Bool-cases (f x)) [
  | inl keep ↦ rw keep (elim h [ inl e ↦ inl e | inr m ↦ inr (keep_if-IsIn u f xs m k) ])
  | inr skip ↦
      rw skip (elim h [
        | inl e ↦ cc (subst (λ y. f y ≡ false) e skip, k)
        | inr m ↦ keep_if-IsIn u f xs m k
      ])
]

-- `sorted_prev_event_ids` returns its ids in strictly ascending order, and an id is in the result
-- if and only if it is an event id of the argument.
pub sorted_prev_event_ids_lem :
    (raw : List Text)
    → IsAscending (sorted_prev_event_ids raw)
      × ((u : Text)
          → (IsIn u (sorted_prev_event_ids raw) → IsIn u raw × (is_event_id u ≡ true))
            × (IsIn u raw → is_event_id u ≡ true → IsIn u (sorted_prev_event_ids raw)))
unfolding sorted_prev_event_ids
sorted_prev_event_ids_lem raw = (
  sort-IsAscending (dedupe [] (keep_if is_event_id raw))
      (dedupe-IsNodup [] (keep_if is_event_id raw)),
  λ u. (
    λ h.
        IsIn-keep_if u is_event_id raw
          (IsIn-dedupe u [] (keep_if is_event_id raw)
            (IsIn-sort u (dedupe [] (keep_if is_event_id raw)) h)).0,
    λ h k.
        sort-IsIn u (dedupe [] (keep_if is_event_id raw)) (
          dedupe-IsIn u [] (keep_if is_event_id raw) (keep_if-IsIn u is_event_id raw h k) (λ e. e)),
  ),
)
