-- ===== src/Wire/Wait.antt =====
-- The table of several waiters for a key of js/wire/wait.mjs. A waiter is a number. `settled` logs the
-- calls of `resolve`, of which the first for a waiter decides; none is `undefined`. `armed` holds
-- the waiters whose timer runs.
pub mod Outcomes
use fount_p2p.Base.{
  ℕ, Option, none, some, List, [], ◌∷◌, ◌++◌, Bool, true, false, ◌==◌, if◌then◌else◌, ◌||◌, not,
  keep_if,
}
use fount_p2p.Base.JsMap.{JsMap, get, put, delete, remove_if}
use fount_p2p.Core.HexIds.{Text, text_dec, contains}

abbrev pub Bucket : Type 0
Bucket = JsMap Text (List ℕ)

pub record State (V : Type 0) : Type 0 where
  pub pending : JsMap Text Bucket
  pub settled : List (ℕ × Option V)
  pub armed : List ℕ

abbrev pub bucket_or_new : Option Bucket → Bucket
bucket_or_new none = []
bucket_or_new (some bucket) = bucket

abbrev pub waiters_or_none : Option (List ℕ) → List ℕ
waiters_or_none none = []
waiters_or_none (some waiters) = waiters

-- Who waits for a suffix of a prefix.
abbrev pub waiters_of : JsMap Text Bucket → Text → Text → List ℕ
waiters_of pending prefix suffix =
    waiters_or_none (get text_dec suffix (bucket_or_new (get text_dec prefix pending)))

-- An empty bucket is forgotten.
abbrev pub put_or_forget : Text → Bucket → JsMap Text Bucket → JsMap Text Bucket
put_or_forget prefix [] pending = delete text_dec prefix pending
put_or_forget prefix (w ∷ bucket) pending = put text_dec prefix (w ∷ bucket) pending

-- A waiter of this suffix wants one of the ids.
abbrev pub hits_one : List Text → List Text → Bool
hits_one [] wanted = false
hits_one (id ∷ ids) wanted = contains id wanted || hits_one ids wanted

abbrev pub wants : Option (List Text) → List Text → Bool
wants none hit_ids = false
wants (some wanted) hit_ids = hits_one hit_ids wanted

-- The waiters of the suffixes that are hit.
abbrev pub woken : (Text → Option (List Text)) → List Text → Bucket → List ℕ
woken parse_want_ids hit_ids [] = []
woken parse_want_ids hit_ids ((suffix, waiters) ∷ bucket) =
    if wants (parse_want_ids suffix) hit_ids
    then waiters ++ woken parse_want_ids hit_ids bucket
    else woken parse_want_ids hit_ids bucket

module _ {V : Type 0} where
  -- What a waiter was resolved with first.
  abbrev pub outcome_in : ℕ → List (ℕ × Option V) → Option (Option V)
  outcome_in w [] = none
  outcome_in w ((x, v) ∷ settled) = if x == w then some v else outcome_in w settled

  abbrev pub outcome : ℕ → State V → Option (Option V)
  outcome w s = outcome_in w s.settled

  unfoldable pub register_multi_wire_wait : Text → Text → ℕ → State V → State V
  register_multi_wire_wait prefix suffix w s = record {
    pending =
        put text_dec prefix
          (put text_dec suffix (waiters_of s.pending prefix suffix ++ w ∷ [])
            (bucket_or_new (get text_dec prefix s.pending)))
          s.pending;
    settled = s.settled;
    armed = w ∷ s.armed;
  }

  -- `clearTimeout(waiter.timer)` and `waiter.resolve()` for each.
  unfoldable pub wake : List ℕ → State V → State V
  wake [] s = s
  wake (w ∷ waiters) s = wake waiters record {
    pending = s.pending;
    settled = s.settled ++ (w, none) ∷ [];
    armed = keep_if (λ x. not (x == w)) s.armed;
  }

  abbrev pub finish_waiters : Text → Text → List ℕ → State V → State V
  finish_waiters prefix suffix [] s = s
  finish_waiters prefix suffix (w ∷ waiters) s = wake (w ∷ waiters) record {
    pending =
        put_or_forget prefix
          (delete text_dec suffix (bucket_or_new (get text_dec prefix s.pending))) s.pending;
    settled = s.settled;
    armed = s.armed;
  }

  unfoldable pub finish_multi_wire_waiters : Text → Text → State V → State V
  finish_multi_wire_waiters prefix suffix s =
      finish_waiters prefix suffix (waiters_of s.pending prefix suffix) s

  -- The timer of a waiter: all waiters of its key are finished, then it is resolved with the value of
  -- its callback.
  unfoldable pub time_out : Text → Text → ℕ → V → State V → State V
  time_out prefix suffix w value s =
      let finished = finish_multi_wire_waiters prefix suffix s in
      record {
        pending = finished.pending;
        settled = finished.settled ++ (w, some value) ∷ [];
        armed = keep_if (λ x. not (x == w)) finished.armed;
      }

  abbrev pub notify_bucket :
      Text → (Text → Option (List Text)) → List Text → Option Bucket → State V → State V
  notify_bucket prefix parse_want_ids hit_ids none s = s
  notify_bucket prefix parse_want_ids hit_ids (some bucket) s =
      wake (woken parse_want_ids hit_ids bucket) record {
        pending =
            put_or_forget prefix
              (remove_if (λ suffix waiters. wants (parse_want_ids suffix) hit_ids) bucket)
              s.pending;
        settled = s.settled;
        armed = s.armed;
      }

  unfoldable pub notify_multi_wire_waiters_by_prefix :
      Text → (Text → Option (List Text)) → List Text → State V → State V
  notify_multi_wire_waiters_by_prefix prefix parse_want_ids [] s = s
  notify_multi_wire_waiters_by_prefix prefix parse_want_ids (id ∷ ids) s =
      notify_bucket prefix parse_want_ids (id ∷ ids) (get text_dec prefix s.pending) s
