-- ===== src/Tests/Locks.antt =====
-- The theorems on the mutexes of js/utils/async_mutex.mjs at concrete inputs.
use fount_p2p.Base.{ℕ_discrete, ◌≡◌, refl, [], ◌∷◌, arith, none}
use fount_p2p.Base.JsMap.{get, put, delete}
use fount_p2p.Core.HexIds.{Text, text_dec}
use fount_p2p.Utils.AsyncMutex.{
  State, idle, active_mutex_count, with_async_mutex, leave, release_next, release_mutex,
}
use fount_p2p.Utils.AsyncMutex.Run.{
  tasks_of, call, settle, called, IsFair, Run, start, calls, settles,
}
use fount_p2p.Utils.AsyncMutex.Exclusion.{Run-IsFair, Run-drained}

abbrev feed : Text
feed = b'f' ∷ b'e' ∷ []

abbrev inbox : Text
inbox = b'i' ∷ b'n' ∷ []

-- Two tasks want the first key, one the second.
abbrev three_calls : State
three_calls = with_async_mutex feed 2 (with_async_mutex inbox 3 (with_async_mutex feed 1 idle))

abbrev one_settled : State
one_settled = release_mutex feed three_calls

abbrev two_settled : State
two_settled = release_mutex feed one_settled

three_calls-Run : Run (call feed 2 ∷ call inbox 3 ∷ call feed 1 ∷ []) three_calls
three_calls-Run = calls feed 2 (calls inbox 3 (calls feed 1 start))

one_inside : tasks_of feed three_calls.inside ≡ 1 ∷ []
unfolding with_async_mutex get put text_dec ℕ_discrete
one_inside = refl

next_inside : tasks_of feed one_settled.inside ≡ 2 ∷ []
unfolding with_async_mutex release_mutex release_next leave get put text_dec ℕ_discrete
next_inside = refl

none_inside : tasks_of feed two_settled.inside ≡ []
unfolding with_async_mutex release_mutex release_next leave get put delete text_dec ℕ_discrete
none_inside = refl

-- The other key is still held.
one_key_left : active_mutex_count two_settled ≡ 1
unfolding with_async_mutex release_mutex release_next leave get put delete text_dec ℕ_discrete
one_key_left = refl

one_settled-Run : Run (settle feed ∷ call feed 2 ∷ call inbox 3 ∷ call feed 1 ∷ []) one_settled
one_settled-Run = settles feed (rw (one_inside) omega arith) three_calls-Run

two_settled-Run :
    Run (settle feed ∷ settle feed ∷ call feed 2 ∷ call inbox 3 ∷ call feed 1 ∷ []) two_settled
two_settled-Run = settles feed (rw (next_inside) omega arith) one_settled-Run

Run-IsFair_example :
    IsFair feed (settle feed ∷ call feed 2 ∷ call inbox 3 ∷ call feed 1 ∷ []) one_settled
Run-IsFair_example =
    Run-IsFair feed (settle feed ∷ call feed 2 ∷ call inbox 3 ∷ call feed 1 ∷ []) one_settled
      one_settled-Run

Run-drained_example :
    (get text_dec feed two_settled.mutexes ≡ none)
    × (tasks_of feed two_settled.entered
        ≡ called feed (settle feed ∷ settle feed ∷ call feed 2 ∷ call inbox 3 ∷ call feed 1 ∷ []))
Run-drained_example =
    Run-drained feed (settle feed ∷ settle feed ∷ call feed 2 ∷ call inbox 3 ∷ call feed 1 ∷ [])
      two_settled two_settled-Run none_inside
