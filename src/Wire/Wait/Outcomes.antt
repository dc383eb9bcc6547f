-- ===== src/Wire/Wait/Outcomes.antt =====
-- What becomes of the waiters of js/wire/wait.mjs.
use fount_p2p.Base.{
  ◌⊎◌, subst, ℕ, Option, none, some, List, [], ◌∷◌, ◌++◌, Bool, true, false, ◌==◌, if◌then◌else◌,
  ◌||◌, not, keep_if, ◌≡◌, refl, sym, ◌∙◌, ap, arith, Bool-cases, inl, inr,
}
use fount_p2p.Base.JsMap.{
  JsMap, get, delete, remove_if, IsMap, get-remove_if, get-put_self, get-delete_self,
}
use fount_p2p.Core.HexIds.{Text, text_dec}
use fount_p2p.Wire.Wait.{
  Bucket, State, bucket_or_new, waiters_or_none, waiters_of, put_or_forget, wants, woken,
  outcome_in, outcome, wake, finish_waiters, finish_multi_wire_waiters, time_out, notify_bucket,
  notify_multi_wire_waiters_by_prefix,
}

abbrev pub is_among : ℕ → List ℕ → Bool
is_among w [] = false
is_among w (x ∷ xs) = x == w || is_among w xs

is_among-append_left :
    (w : ℕ) (xs ys : List ℕ) → is_among w xs ≡ true → is_among w (xs ++ ys) ≡ true
is_among-append_left w [] ys h = absurd (ground arith)
is_among-append_left w (x ∷ xs) ys h = ground (arith, is_among-append_left w xs ys)

is_among-append_right :
    (w : ℕ) (xs ys : List ℕ) → is_among w ys ≡ true → is_among w (xs ++ ys) ≡ true
is_among-append_right w [] ys h = h
is_among-append_right w (x ∷ xs) ys h = ground (arith, is_among-append_right w xs ys h)

is_among-woken :
    (parse : Text → Option (List Text)) (ids : List Text) (suffix : Text) (waiters : List ℕ) (w : ℕ)
    (bucket : Bucket)
    → get text_dec suffix bucket ≡ some waiters
    → wants (parse suffix) ids ≡ true
    → is_among w waiters ≡ true
    → is_among w (woken parse ids bucket) ≡ true
unfolding get
is_among-woken parse ids suffix waiters w [] found hit among = absurd (ground arith)
is_among-woken parse ids suffix waiters w ((k, ws) ∷ bucket) found hit among =
    elim (text_dec k suffix) [
      | yes e ↦ ground (arith, ap parse e, is_among-append_left w ws (woken parse ids bucket))
      | no d ↦ ground (
        arith,
        is_among-append_right w ws (woken parse ids bucket),
        is_among-woken parse ids suffix waiters w bucket,
      )
    ]

wants_nothing : (wanted : Option (List Text)) → wants wanted [] ≡ false
wants_nothing none = refl
wants_nothing (some wanted) = refl

-- What a prefix has after its bucket was stored.
waiters_of-put_or_forget :
    (prefix suffix : Text) (bucket : Bucket) (pending : JsMap Text Bucket)
    → waiters_of (put_or_forget prefix bucket pending) prefix suffix
      ≡ waiters_or_none (get text_dec suffix bucket)
unfolding get
waiters_of-put_or_forget prefix suffix [] pending =
    ap (λ b. waiters_or_none (get text_dec suffix (bucket_or_new b)))
      (get-delete_self text_dec prefix pending)
waiters_of-put_or_forget prefix suffix (x ∷ bucket) pending =
    ap (λ b. waiters_or_none (get text_dec suffix (bucket_or_new b)))
      (get-put_self text_dec prefix (x ∷ bucket) pending)

module _ {V : Type 0} where
  outcome_in-append :
      (w x : ℕ) (v : Option V) (settled : List (ℕ × Option V))
      → outcome_in w settled ≡ none
      → outcome_in w (settled ++ (x, v) ∷ []) ≡ (if x == w then some v else none)
  outcome_in-append w x v [] h = refl
  outcome_in-append w x v ((y, u) ∷ settled) h = ground (arith, outcome_in-append w x v settled)

  outcome_in-append_kept :
      (w x : ℕ) (v : Option V) (settled : List (ℕ × Option V)) (r : Option V)
      → outcome_in w settled ≡ some r
      → outcome_in w (settled ++ (x, v) ∷ []) ≡ some r
  outcome_in-append_kept w x v [] r h = absurd (ground arith)
  outcome_in-append_kept w x v ((y, u) ∷ settled) r h =
      ground (arith, outcome_in-append_kept w x v settled r)

  -- A first outcome stays.
  outcome-wake_kept :
      (waiters : List ℕ) (w : ℕ) (s : State V) (r : Option V)
      → outcome w s ≡ some r
      → outcome w (wake waiters s) ≡ some r
  unfolding wake
  outcome-wake_kept [] w s r h = h
  outcome-wake_kept (x ∷ waiters) w s r h =
      outcome-wake_kept waiters w _ r (outcome_in-append_kept w x none s.settled r h)

  outcome-wake :
      (waiters : List ℕ) (w : ℕ) (s : State V)
      → outcome w s ≡ none
      → outcome w (wake waiters s) ≡ (if is_among w waiters then some none else none)
  unfolding wake
  outcome-wake [] w s h = h
  outcome-wake (x ∷ waiters) w s h =
      let first = outcome_in-append w x none s.settled h in
      elim (Bool-cases (x == w)) [
        | inl same ↦ ground (
          arith,
          outcome-wake_kept waiters w
              (record {
                pending = s.pending;
                settled = s.settled ++ (x, none) ∷ [];
                armed = keep_if (λ y. not (y == x)) s.armed;
              })
              none (ground (arith, first)),
        )
        | inr different ↦ ground (
          arith,
          outcome-wake waiters w
              (record {
                pending = s.pending;
                settled = s.settled ++ (x, none) ∷ [];
                armed = keep_if (λ y. not (y == x)) s.armed;
              })
              (ground (arith, first)),
        )
      ]

  pending-wake : (waiters : List ℕ) (s : State V) → (wake waiters s).pending ≡ s.pending
  unfolding wake
  pending-wake [] s = refl
  pending-wake (x ∷ waiters) s = pending-wake waiters _

  outcome-finish_waiters :
      (prefix suffix : Text) (waiters : List ℕ) (x : ℕ) (s : State V)
      → is_among x waiters ≡ true
      → outcome x s ≡ none
      → outcome x (finish_waiters prefix suffix waiters s) ≡ some none
  outcome-finish_waiters prefix suffix [] x s among waiting = absurd (ground arith)
  outcome-finish_waiters prefix suffix (w ∷ waiters) x s among waiting =
      outcome-wake (w ∷ waiters) x _ waiting ∙ ap (λ b. if b then some none else none) among

  waiters_of-finish_waiters :
      (prefix suffix : Text) (waiters : List ℕ) (s : State V)
      → waiters_of s.pending prefix suffix ≡ waiters
      → waiters_of (finish_waiters prefix suffix waiters s).pending prefix suffix ≡ []
  waiters_of-finish_waiters prefix suffix [] s h = h
  waiters_of-finish_waiters prefix suffix (w ∷ waiters) s h =
      let bucket = delete text_dec suffix (bucket_or_new (get text_dec prefix s.pending)) in
      ap (λ p. waiters_of p prefix suffix) (pending-wake (w ∷ waiters) _)
      ∙ waiters_of-put_or_forget prefix suffix bucket s.pending
      ∙ ap waiters_or_none
          (get-delete_self text_dec suffix (bucket_or_new (get text_dec prefix s.pending)))

  -- When the timer of one waiter runs out, every waiter of its key that has no outcome yet, itself and
  -- those whose time is not over, is resolved with `undefined`, whatever the value of the callback;
  -- and no one waits for the key any longer.
  pub time_out_lem :
      (prefix suffix : Text) (w x : ℕ) (value : V) (s : State V)
      → is_among x (waiters_of s.pending prefix suffix) ≡ true
      → outcome x s ≡ none
      → (outcome x (time_out prefix suffix w value s) ≡ some none)
        × (waiters_of (time_out prefix suffix w value s).pending prefix suffix ≡ [])
  unfolding time_out finish_multi_wire_waiters
  time_out_lem prefix suffix w x value s among waiting =
      let waiters = waiters_of s.pending prefix suffix in
      (
        outcome_in-append_kept x w (some value) (finish_waiters prefix suffix waiters s).settled
            none (outcome-finish_waiters prefix suffix waiters x s among waiting),
        waiters_of-finish_waiters prefix suffix waiters s refl,
      )

  -- What is left for a suffix, and what its waiters get, once its bucket is notified.
  abbrev pub IsNotified :
      (Text → Option (List Text)) → List Text → Text → Text → List ℕ → ℕ → State V → Type 0
  IsNotified parse ids prefix suffix waiters w t =
      ((wants (parse suffix) ids ≡ true)
        × (waiters_of t.pending prefix suffix ≡ [])
        × (outcome w t ≡ some none))
      ⊎ ((wants (parse suffix) ids ≡ false) × (waiters_of t.pending prefix suffix ≡ waiters))

  notify_bucket-IsNotified :
      (parse : Text → Option (List Text)) (ids : List Text) (prefix suffix : Text) (bucket : Bucket)
      (waiters : List ℕ) (w : ℕ) (s : State V)
      → IsMap text_dec bucket
      → get text_dec suffix bucket ≡ some waiters
      → is_among w waiters ≡ true
      → outcome w s ≡ none
      → IsNotified parse ids prefix suffix waiters w
          (notify_bucket prefix parse ids (some bucket) s)
  notify_bucket-IsNotified parse ids prefix suffix bucket waiters w s distinct found among waiting =
      let left = remove_if (λ k ws. wants (parse k) ids) bucket in
      let after =
        ap (λ p. waiters_of p prefix suffix)
          (pending-wake (woken parse ids bucket) (record {
            pending = put_or_forget prefix left s.pending;
            settled = s.settled;
            armed = s.armed;
          }))
        ∙ waiters_of-put_or_forget prefix suffix left s.pending
        ∙ ap waiters_or_none (
            get-remove_if text_dec (λ k ws. wants (parse k) ids) suffix bucket waiters distinct
              found) in
      elim (Bool-cases (wants (parse suffix) ids)) [
        | inl hit ↦ inl (
          hit,
          after ∙ ap (λ b. waiters_or_none (if b then none else some waiters)) hit,
          outcome-wake (woken parse ids bucket) w _ waiting
              ∙ ap (λ b. if b then some none else none)
                  (is_among-woken parse ids suffix waiters w bucket found hit among),
        )
        | inr missed ↦
            inr
              (missed, after ∙ ap (λ b. waiters_or_none (if b then none else some waiters)) missed)
      ]

  -- A notification of some ids, for a waiter of a suffix that has no outcome yet: if the suffix wants
  -- one of the ids, the waiter is resolved and no one waits for the suffix any longer; if not, the
  -- suffix keeps its waiters.
  pub notify_multi_wire_waiters_by_prefix_lem :
      (parse : Text → Option (List Text)) (ids : List Text) (prefix suffix : Text) (bucket : Bucket)
      (waiters : List ℕ) (w : ℕ) (s : State V)
      → get text_dec prefix s.pending ≡ some bucket
      → IsMap text_dec bucket
      → get text_dec suffix bucket ≡ some waiters
      → is_among w waiters ≡ true
      → outcome w s ≡ none
      → IsNotified parse ids prefix suffix waiters w
          (notify_multi_wire_waiters_by_prefix prefix parse ids s)
  unfolding notify_multi_wire_waiters_by_prefix
  notify_multi_wire_waiters_by_prefix_lem parse [] prefix suffix bucket waiters w s here distinct
        found among waiting =
      inr (
        wants_nothing (parse suffix),
        ap (λ b. waiters_or_none (get text_dec suffix (bucket_or_new b))) here
            ∙ ap waiters_or_none found,
      )
  notify_multi_wire_waiters_by_prefix_lem parse (id ∷ ids) prefix suffix bucket waiters w s here
        distinct found among waiting =
      subst
        (λ b.
          IsNotified parse (id ∷ ids) prefix suffix waiters w
            (notify_bucket prefix parse (id ∷ ids) b s))
        (sym here)
        (notify_bucket-IsNotified parse (id ∷ ids) prefix suffix bucket waiters w s distinct found
          among waiting)
