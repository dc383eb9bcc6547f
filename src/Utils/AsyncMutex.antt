-- ===== src/Utils/AsyncMutex.antt =====
-- js/utils/async_mutex.mjs: a mutex for each key. A task is a number. A task is let in when its `run`
-- is called or put on the microtasks: its critical section follows without a further test.
pub mod Run
pub mod Unaffected
pub mod Steps
pub mod Exclusion
use fount_p2p.Base.{
  ℕ, suc, Option, none, some, List, [], ◌∷◌, ◌++◌, Bool, true, false, if◌then◌else◌,
}
use fount_p2p.Base.JsMap.{JsMap, get, put, delete, size}
use fount_p2p.Core.HexIds.{Text, text_dec, decided}

pub record Mutex : Type 0 where
  pub locked : Bool
  pub queue : List ℕ

-- The table, who is let in and has not settled, and who was ever let in, the first one first.
pub record State : Type 0 where
  pub mutexes : JsMap Text Mutex
  pub inside : List (Text × ℕ)
  pub entered : List (Text × ℕ)

abbrev pub idle : State
idle = record { mutexes = []; inside = []; entered = [] }

abbrev pub active_mutex_count : State → ℕ
active_mutex_count s = size s.mutexes

-- `mutexState`: the state of a key, or a new one.
abbrev pub mutex_or_new : Option Mutex → Mutex
mutex_or_new none = record { locked = false; queue = [] }
mutex_or_new (some m) = m

abbrev pub mutex_state : Text → State → Mutex
mutex_state key s = mutex_or_new (get text_dec key s.mutexes)

abbrev pub let_in : Text → ℕ → JsMap Text Mutex → State → State
let_in key task mutexes s = record {
  mutexes = mutexes;
  inside = s.inside ++ (key, task) ∷ [];
  entered = s.entered ++ (key, task) ∷ [];
}

-- A call of `withAsyncMutex`, up to where it waits.
unfoldable pub with_async_mutex : Text → ℕ → State → State
with_async_mutex key task s =
    let m = mutex_state key s in
    if m.locked
    then record {
      mutexes = put text_dec key (record { locked = true; queue = m.queue ++ task ∷ [] }) s.mutexes;
      inside = s.inside;
      entered = s.entered;
    }
    else let_in key task (put text_dec key (record { locked = true; queue = m.queue }) s.mutexes) s

-- The task of a key that is inside settles.
unfoldable pub leave : Text → List (Text × ℕ) → List (Text × ℕ)
leave key [] = []
leave key ((k, task) ∷ inside) =
    let rest = leave key inside in if decided (text_dec k key) then inside else (k, task) ∷ rest

-- `releaseMutex`: the next of the queue is let in, or the key is forgotten.
unfoldable pub release_next : Text → List ℕ → State → State
release_next key [] s = record {
  mutexes = delete text_dec key s.mutexes;
  inside = leave key s.inside;
  entered = s.entered;
}
release_next key (next ∷ queue) s =
    let_in key next (put text_dec key (record { locked = true; queue = queue }) s.mutexes)
      (record { mutexes = s.mutexes; inside = leave key s.inside; entered = s.entered })

unfoldable pub release_mutex : Text → State → State
release_mutex key s = release_next key (mutex_state key s).queue s
