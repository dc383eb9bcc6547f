-- ===== src/Tests/Waits.antt =====
-- The theorems on the waiters of js/wire/wait.mjs at concrete inputs.
use fount_p2p.Base.{ℕ, ℕ_discrete, ◌≡◌, refl, Option, none, some, List, [], ◌∷◌}
use fount_p2p.Base.JsMap.{get, put}
use fount_p2p.Core.HexIds.{Text, text_dec}
use fount_p2p.Wire.Wait.{
  Bucket, State, waiters_of, outcome, register_multi_wire_wait, time_out,
  notify_multi_wire_waiters_by_prefix,
}
use fount_p2p.Wire.Wait.Outcomes.{IsNotified, time_out_lem, notify_multi_wire_waiters_by_prefix_lem}

abbrev room : Text
room = b'r' ∷ []

abbrev topic : Text
topic = b't' ∷ []

abbrev no_one : State ℕ
no_one = record { pending = []; settled = []; armed = [] }

-- Two waiters of one key.
abbrev two_waiting : State ℕ
two_waiting = register_multi_wire_wait room topic 2 (register_multi_wire_wait room topic 1 no_one)

abbrev topic_bucket : Bucket
topic_bucket = (topic, 1 ∷ 2 ∷ []) ∷ []

abbrev itself : Text → Option (List Text)
itself suffix = some (suffix ∷ [])

time_out_lem_example :
    (outcome 2 (time_out room topic 1 7 two_waiting) ≡ some none)
    × (waiters_of (time_out room topic 1 7 two_waiting).pending room topic ≡ [])
unfolding register_multi_wire_wait get put text_dec ℕ_discrete
time_out_lem_example = time_out_lem room topic 1 2 7 two_waiting refl refl

notify_multi_wire_waiters_by_prefix_lem_example :
    IsNotified itself
      (topic ∷ [])
      room
      topic
      (1 ∷ 2 ∷ [])
      1
      (notify_multi_wire_waiters_by_prefix room itself (topic ∷ []) two_waiting)
unfolding register_multi_wire_wait get put text_dec ℕ_discrete
notify_multi_wire_waiters_by_prefix_lem_example =
    notify_multi_wire_waiters_by_prefix_lem itself (topic ∷ []) room topic topic_bucket (1 ∷ 2 ∷ [])
      1 two_waiting refl (refl, tt) refl refl refl
