-- ===== src/Utils/AsyncMutex/Exclusion.antt =====
-- The mutexes of js/utils/async_mutex.mjs let in one task of a key at a time, in the order of the calls.
use fount_p2p.Base.{◌≡◌, refl, none, List, [], ◌∷◌, arith, length, ap, subst}
use fount_p2p.Base.JsMap.{get}
use fount_p2p.Core.HexIds.{Text, text_dec}
use fount_p2p.Utils.AsyncMutex.{State, idle, with_async_mutex, release_mutex}
use fount_p2p.Utils.AsyncMutex.Run.{
  tasks_of, Event, call, settle, called, IsFair, Run, start, calls, settles,
}
use fount_p2p.Utils.AsyncMutex.Steps.{
  IsSame-IsFair, with_async_mutex-IsFair, release_mutex-IsFair, free_or_held, free, held_by,
  release_mutex-IsSame, called_ne,
}
use fount_p2p.Utils.AsyncMutex.Unaffected.{with_async_mutex-IsSame}

idle-IsFair : (key : Text) → IsFair key [] idle
unfolding get
idle-IsFair key = record { held = refl; ordered = refl }

-- In a run of calls and ends of tasks, at most one task of a key is inside, and one is exactly if the
-- table holds the key, which is then locked; and the tasks of the key that were let in, followed by
-- those that wait, are the calls for it in their order.
pub Run-IsFair : (key : Text) (events : List Event) (s : State) → Run events s → IsFair key events s
Run-IsFair key [] s start = idle-IsFair key
Run-IsFair key _ _ (calls {events = events} {s = s} k task run) = elim (text_dec k key) [
  | yes e ↦
      subst (λ u. IsFair u (call k task ∷ events) (with_async_mutex k task s)) e
        (with_async_mutex-IsFair k task events s (Run-IsFair k events s run))
  | no d ↦
      IsSame-IsFair key events (call k task ∷ events) s (with_async_mutex k task s)
        (Run-IsFair key events s run) (called_ne k key task events d)
        (with_async_mutex-IsSame k key task s d)
]
Run-IsFair key _ _ (settles {events = events} {s = s} k busy run) = elim (text_dec k key) [
  | yes e ↦
      subst (λ u. IsFair u (settle k ∷ events) (release_mutex k s)) e
        (release_mutex-IsFair k events s busy (Run-IsFair k events s run))
  | no d ↦
      IsSame-IsFair key events (settle k ∷ events) s (release_mutex k s)
        (Run-IsFair key events s run) refl (release_mutex-IsSame k key s d)
]

-- In a run, if no task of a key is inside, every call for the key was let in, in the order of the
-- calls, and the table has forgotten the key.
pub Run-drained :
    (key : Text) (events : List Event) (s : State)
    → Run events s
    → tasks_of key s.inside ≡ []
    → (get text_dec key s.mutexes ≡ none) × (tasks_of key s.entered ≡ called key events)
Run-drained key events s run none_inside =
    let fair = Run-IsFair key events s run in
    elim (free_or_held key events s _ refl fair.held fair.ordered) [
      | free h zero_inside order ↦ (h, order)
      | held_by queue h one order ↦ absurd (omega (arith, ap length none_inside, one))
    ]
