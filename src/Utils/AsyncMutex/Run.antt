-- ===== src/Utils/AsyncMutex/Run.antt =====
-- The runs of the mutexes of js/utils/async_mutex.mjs, as a step relation, and their invariant for a key.
use fount_p2p.Base.{
  ℕ, ◌≤◌, ◌≡◌, Option, none, some, List, [], ◌∷◌, ◌++◌, true, length, if◌then◌else◌,
}
use fount_p2p.Base.JsMap.{get}
use fount_p2p.Core.HexIds.{Text, text_dec, decided}
use fount_p2p.Utils.AsyncMutex.{Mutex, State, idle, mutex_state, with_async_mutex, release_mutex}

-- The tasks of one key.
abbrev pub tasks_of : Text → List (Text × ℕ) → List ℕ
tasks_of key [] = []
tasks_of key ((k, task) ∷ list) =
    if decided (text_dec k key) then task ∷ tasks_of key list else tasks_of key list

-- What happens: a call, and the end of the task of a key that is inside.
pub data Event : Type 0 where
  call : Text → ℕ → Event
  settle : Text → Event

-- Only a task that is inside settles.
pub data Run : List Event → State → Type 0 where
  start : Run [] idle
  calls :
      {events : List Event} {s : State} (key : Text) (task : ℕ)
      → Run events s
      → Run (call key task ∷ events) (with_async_mutex key task s)
  settles :
      {events : List Event} {s : State} (key : Text)
      → 1 ≤ length (tasks_of key s.inside)
      → Run events s
      → Run (settle key ∷ events) (release_mutex key s)

-- The calls for a key, the first one first; the events are listed from the last one.
abbrev pub called : Text → List Event → List ℕ
called key [] = []
called key (call k task ∷ events) =
    if decided (text_dec k key) then called key events ++ task ∷ [] else called key events
called key (settle k ∷ events) = called key events

abbrev pub IsHeld : Option Mutex → ℕ → Type 0
IsHeld none inside = inside ≡ 0
IsHeld (some m) inside = (m.locked ≡ true) × (inside ≡ 1)

-- One task of a key is inside where the table has the key, and none where it has not; those let in
-- and those in the queue are the calls, in their order.
pub record IsFair (key : Text) (events : List Event) (s : State) : Type 0 where
  pub held : IsHeld (get text_dec key s.mutexes) (length (tasks_of key s.inside))
  pub ordered : tasks_of key s.entered ++ (mutex_state key s).queue ≡ called key events
