-- ===== src/Utils/AsyncMutex/Unaffected.antt =====
-- The steps of one key of js/utils/async_mutex.mjs leave the other keys as they are.
use fount_p2p.Base.{
  ℕ, ◌-◌, ◌≡◌, ◌≢◌, refl, List, [], ◌∷◌, ◌++◌, arith, length, inl, inr, Bool-cases, append-nil, sym,
  ◌∙◌,
}
use fount_p2p.Base.JsMap.{get, get-put_ne, get-delete_ne}
use fount_p2p.Core.HexIds.{Text, text_dec}
use fount_p2p.Utils.AsyncMutex.{State, mutex_state, with_async_mutex, leave, release_next}
use fount_p2p.Utils.AsyncMutex.Run.{tasks_of}

pub tasks_of-append :
    (key : Text) (xs ys : List (Text × ℕ))
    → tasks_of key (xs ++ ys) ≡ tasks_of key xs ++ tasks_of key ys
tasks_of-append key [] ys = refl
tasks_of-append key ((k, task) ∷ xs) ys = ground (arith, tasks_of-append key xs ys)

pub tasks_of-leave :
    (key : Text) (inside : List (Text × ℕ))
    → length (tasks_of key (leave key inside)) ≡ length (tasks_of key inside) - 1
unfolding leave
tasks_of-leave key [] = ground arith
tasks_of-leave key ((k, task) ∷ inside) = ground (arith, tasks_of-leave key inside)

pub tasks_of-leave_ne :
    (key other : Text) (inside : List (Text × ℕ))
    → key ≢ other
    → tasks_of other (leave key inside) ≡ tasks_of other inside
unfolding leave
tasks_of-leave_ne key other [] d = refl
tasks_of-leave_ne key other ((k, task) ∷ inside) d = elim (text_dec k key) [
  | yes e ↦ let other_key : k ≢ other = λ f. d (sym e ∙ f) in ground arith
  | no n ↦ ground (arith, tasks_of-leave_ne key other inside d)
]

-- One more of the key, and none more of another.
pub tasks_of-snoc :
    (key : Text) (task : ℕ) (xs : List (Text × ℕ))
    → tasks_of key (xs ++ (key, task) ∷ []) ≡ tasks_of key xs ++ task ∷ []
tasks_of-snoc key task xs = ground (arith, tasks_of-append key xs ((key, task) ∷ []))

pub tasks_of-snoc_ne :
    (key other : Text) (task : ℕ) (xs : List (Text × ℕ))
    → key ≢ other
    → tasks_of other (xs ++ (key, task) ∷ []) ≡ tasks_of other xs
tasks_of-snoc_ne key other task xs d =
    ground (arith, tasks_of-append other xs ((key, task) ∷ []), append-nil (tasks_of other xs))

-- What a step on another key leaves as it is.
pub record IsSame (key : Text) (s t : State) : Type 0 where
  pub mutex_same : get text_dec key t.mutexes ≡ get text_dec key s.mutexes
  pub inside_same : tasks_of key t.inside ≡ tasks_of key s.inside
  pub entered_same : tasks_of key t.entered ≡ tasks_of key s.entered

pub with_async_mutex-IsSame :
    (key other : Text) (task : ℕ) (s : State)
    → key ≢ other
    → IsSame other s (with_async_mutex key task s)
unfolding with_async_mutex
with_async_mutex-IsSame key other task s d = elim (Bool-cases (mutex_state key s).locked) [
  | inl h ↦ rw (h) record {
    mutex_same = get-put_ne text_dec other key _ s.mutexes d;
    inside_same = refl;
    entered_same = refl;
  }
  | inr h ↦ rw (h) record {
    mutex_same = get-put_ne text_dec other key _ s.mutexes d;
    inside_same = tasks_of-snoc_ne key other task s.inside d;
    entered_same = tasks_of-snoc_ne key other task s.entered d;
  }
]

pub release_next-IsSame :
    (key other : Text) (queue : List ℕ) (s : State)
    → key ≢ other
    → IsSame other s (release_next key queue s)
unfolding release_next
release_next-IsSame key other [] s d = record {
  mutex_same = get-delete_ne text_dec other key s.mutexes d;
  inside_same = tasks_of-leave_ne key other s.inside d;
  entered_same = refl;
}
release_next-IsSame key other (next ∷ queue) s d = record {
  mutex_same = get-put_ne text_dec other key _ s.mutexes d;
  inside_same =
      tasks_of-snoc_ne key other next (leave key s.inside) d
      ∙ tasks_of-leave_ne key other s.inside d;
  entered_same = tasks_of-snoc_ne key other next s.entered d;
}
