-- ===== src/Utils/AsyncMutex/Steps.antt =====
-- Each step of js/utils/async_mutex.mjs keeps a key in order.
use fount_p2p.Base.{
  ℕ, ◌+◌, ◌≤◌, ◌≡◌, ◌≢◌, refl, Option, none, some, List, [], ◌∷◌, ◌++◌, true, arith, length,
  append_assoc, append-nil, length-append, ap, sym, ◌∙◌,
}
use fount_p2p.Base.JsMap.{get, put, get-put_self, get-delete_self}
use fount_p2p.Core.HexIds.{Text, text_dec}
use fount_p2p.Utils.AsyncMutex.{
  Mutex, State, mutex_state, mutex_or_new, let_in, with_async_mutex, leave, release_next,
  release_mutex,
}
use fount_p2p.Utils.AsyncMutex.Run.{tasks_of, Event, call, settle, called, IsHeld, IsFair}
use fount_p2p.Utils.AsyncMutex.Unaffected.{
  tasks_of-leave, tasks_of-snoc, IsSame, release_next-IsSame,
}

-- A key keeps what it has through such a step, if the event is of another key.
pub IsSame-IsFair :
    (key : Text) (events more : List Event) (s t : State)
    → IsFair key events s
    → called key more ≡ called key events
    → IsSame key s t
    → IsFair key more t
IsSame-IsFair key events more s t fair unchanged same = record {
  held = rw (same.mutex_same, same.inside_same) fair.held;
  ordered =
      ap (λ m. tasks_of key t.entered ++ (mutex_or_new m).queue) same.mutex_same
      ∙ ap (λ l. l ++ (mutex_state key s).queue) same.entered_same
      ∙ fair.ordered
      ∙ sym unchanged;
}

pub held_by-IsFair :
    (key : Text) (events : List Event) (t : State) (queue : List ℕ)
    → get text_dec key t.mutexes ≡ some (record { locked = true; queue = queue })
    → length (tasks_of key t.inside) ≡ 1
    → tasks_of key t.entered ++ queue ≡ called key events
    → IsFair key events t
held_by-IsFair key events t queue h one order = record {
  held = rw (h) (refl, one);
  ordered = ap (λ m. tasks_of key t.entered ++ (mutex_or_new m).queue) h ∙ order;
}

pub free-IsFair :
    (key : Text) (events : List Event) (t : State)
    → get text_dec key t.mutexes ≡ none
    → length (tasks_of key t.inside) ≡ 0
    → tasks_of key t.entered ≡ called key events
    → IsFair key events t
free-IsFair key events t h none_inside order = record {
  held = rw (h) none_inside;
  ordered =
      ap (λ m. tasks_of key t.entered ++ (mutex_or_new m).queue) h
      ∙ append-nil (tasks_of key t.entered)
      ∙ order;
}

-- A task that is let in when none of the key is inside.
pub let_in-IsFair :
    (key : Text) (task : ℕ) (events : List Event) (s : State) (queue : List ℕ)
    → length (tasks_of key s.inside) ≡ 0
    → tasks_of key s.entered ++ task ∷ queue ≡ called key events
    → IsFair key events
        (let_in key task (put text_dec key (record { locked = true; queue = queue }) s.mutexes) s)
let_in-IsFair key task events s queue h order =
    held_by-IsFair key events _ queue
      (get-put_self text_dec key (record { locked = true; queue = queue }) s.mutexes)
      (ap length (tasks_of-snoc key task s.inside)
        ∙ length-append (tasks_of key s.inside) (task ∷ [])
        ∙ ap (λ n. n + 1) h)
      (ap (λ l. l ++ queue) (tasks_of-snoc key task s.entered)
        ∙ append_assoc (tasks_of key s.entered) (task ∷ []) queue
        ∙ order)

pub called_snoc :
    (key : Text) (task : ℕ) (events : List Event)
    → called key (call key task ∷ events) ≡ called key events ++ task ∷ []
called_snoc key task events = ground arith

pub with_async_mutex_free :
    (key : Text) (task : ℕ) (s : State)
    → get text_dec key s.mutexes ≡ none
    → with_async_mutex key task s
      ≡ let_in key task (put text_dec key (record { locked = true; queue = [] }) s.mutexes) s
unfolding with_async_mutex
with_async_mutex_free key task s h = rw (h) refl

pub with_async_mutex_held :
    (key : Text) (task : ℕ) (s : State) (queue : List ℕ)
    → get text_dec key s.mutexes ≡ some (record { locked = true; queue = queue })
    → with_async_mutex key task s ≡ record {
      mutexes = put text_dec key (record { locked = true; queue = queue ++ task ∷ [] }) s.mutexes;
      inside = s.inside;
      entered = s.entered;
    }
unfolding with_async_mutex
with_async_mutex_held key task s queue h = rw (h) refl

-- The two states of a key.
pub data IsFreeOrHeld (key : Text) (events : List Event) (s : State) : Type 0 where
  free :
      get text_dec key s.mutexes ≡ none
      → length (tasks_of key s.inside) ≡ 0
      → tasks_of key s.entered ≡ called key events
      → IsFreeOrHeld key events s
  held_by :
      (queue : List ℕ)
      → get text_dec key s.mutexes ≡ some (record { locked = true; queue = queue })
      → length (tasks_of key s.inside) ≡ 1
      → tasks_of key s.entered ++ queue ≡ called key events
      → IsFreeOrHeld key events s

pub free_or_held :
    (key : Text) (events : List Event) (s : State) (found : Option Mutex)
    → get text_dec key s.mutexes ≡ found
    → IsHeld found (length (tasks_of key s.inside))
    → tasks_of key s.entered ++ (mutex_or_new found).queue ≡ called key events
    → IsFreeOrHeld key events s
free_or_held key events s none h held order =
    free h held (sym (append-nil (tasks_of key s.entered)) ∙ order)
free_or_held key events s (some m) h held order =
    held_by m.queue (h ∙ ap (λ b. some (record { locked = b; queue = m.queue })) held.0) held.1
      order

-- A call for the key itself: it is let in at once, or is the last of the queue.
pub with_async_mutex-IsFair :
    (key : Text) (task : ℕ) (events : List Event) (s : State)
    → IsFair key events s
    → IsFair key (call key task ∷ events) (with_async_mutex key task s)
with_async_mutex-IsFair key task events s fair =
    elim (free_or_held key events s _ refl fair.held fair.ordered) [
      | free h zero_inside order ↦ rw (with_async_mutex_free key task s h) (
          let_in-IsFair key task (call key task ∷ events) s [] zero_inside
            (ap (λ l. l ++ task ∷ []) order ∙ sym (called_snoc key task events)))
      | held_by queue h one order ↦ rw (with_async_mutex_held key task s queue h) (
          held_by-IsFair key (call key task ∷ events) _ (queue ++ task ∷ [])
            (get-put_self text_dec key _ s.mutexes) one
            (sym (append_assoc (tasks_of key s.entered) queue (task ∷ []))
              ∙ ap (λ l. l ++ task ∷ []) order
              ∙ sym (called_snoc key task events)))
    ]

-- The end of a task of the key itself: the next of the queue is let in, or the key is free.
pub release_next-IsFair :
    (key : Text) (queue : List ℕ) (events : List Event) (s : State)
    → length (tasks_of key s.inside) ≡ 1
    → tasks_of key s.entered ++ queue ≡ called key events
    → IsFair key (settle key ∷ events) (release_next key queue s)
unfolding release_next
release_next-IsFair key [] events s one order =
    free-IsFair key (settle key ∷ events) _ (get-delete_self text_dec key s.mutexes)
      (omega (arith, tasks_of-leave key s.inside, one))
      (sym (append-nil (tasks_of key s.entered)) ∙ order)
release_next-IsFair key (next ∷ queue) events s one order =
    let_in-IsFair key next (settle key ∷ events)
      (record { mutexes = s.mutexes; inside = leave key s.inside; entered = s.entered }) queue
      (omega (arith, tasks_of-leave key s.inside, one)) order

pub release_mutex-IsFair :
    (key : Text) (events : List Event) (s : State)
    → 1 ≤ length (tasks_of key s.inside)
    → IsFair key events s
    → IsFair key (settle key ∷ events) (release_mutex key s)
unfolding release_mutex
release_mutex-IsFair key events s busy fair =
    elim (free_or_held key events s _ refl fair.held fair.ordered) [
      | free h zero_inside order ↦ absurd (omega arith)
      | held_by queue h one order ↦ release_next-IsFair key _ events s one fair.ordered
    ]

pub release_mutex-IsSame :
    (key other : Text) (s : State) → key ≢ other → IsSame other s (release_mutex key s)
unfolding release_mutex
release_mutex-IsSame key other s d = release_next-IsSame key other (mutex_state key s).queue s d

pub called_ne :
    (key other : Text) (task : ℕ) (events : List Event)
    → key ≢ other
    → called other (call key task ∷ events) ≡ called other events
called_ne key other task events d = ground arith
