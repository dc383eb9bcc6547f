-- ===== src/Tests/Wire.antt =====
-- The theorems on js/core/bytes_codec.mjs and js/link at concrete inputs.
use fount_p2p.Base.{
  some, map, ℕ, ◌≡◌, refl, ◌+◌, ◌-◌, none, List, [], ◌∷◌, ◌++◌, false, arith, length, replicate,
  max, map, ◌*◌,
}
use fount_p2p.Base.JsMap.{get}
use fount_p2p.Core.BytesCodec.{bytes_to_hex}
use fount_p2p.Link.Frame.{
  frame_id_bytes, FrameId, bytes, encode_frames, Result, chunk_bytes_of, frame_count, frames_from,
  decode_frame,
}
use fount_p2p.Link.Frame
use fount_p2p.Link.Frame.Codec.{decode_frame-encode_frames, decoded_from, chunks_from, join}
use fount_p2p.Link.Frame.Search.{
  IsLargest, max_frame_chunk_bytes_for_payload, max_frame_chunk_bytes_for_payload-IsLargest,
}
use fount_p2p.Link.Reassembler.{Limits, Partial, id_dec, pending, message}
use fount_p2p.Link.Reassembler.AnyOrder.{
  Arrivals, InRange, Distinct, deliver, deliver-encode_frames,
}
use fount_p2p.Link.ChannelMux.{
  Mux, Item, enqueue, bulk, is_inherited, inherited_members, schedule_flush, insert_item, search,
  compare_items, resolve_action_priority, priority_in,
}
use fount_p2p.Link.ChannelMux.Order.{IsInOrder, enqueue-IsInOrder}
use fount_p2p.Link.ChannelMux.Wakeups.{IsScheduled}

abbrev id_bytes : List ℕ
id_bytes = replicate 16 7

abbrev body : List ℕ
body = 1 ∷ 2 ∷ 3 ∷ 4 ∷ 5 ∷ []

abbrev limits : Limits
limits = record { max_message_bytes = 1024; max_partials = 2; partial_timeout_ms = 1000 }

-- The last frame first.
abbrev arrivals : Arrivals
arrivals = (100, 2) ∷ (101, 0) ∷ (102, 1) ∷ []

abbrev frames : List (List ℕ)
frames = frames_from id_bytes body 2 3 0 3

encoded : encode_frames (bytes id_bytes) body 2 ≡ Frame.ok frames
unfolding encode_frames Frame.normalize_frame_id_bytes
encoded = refl

arrivals-InRange : InRange (length frames) arrivals
unfolding frames_from
arrivals-InRange = ground arith

arrivals-Distinct : Distinct arrivals
arrivals-Distinct = ground arith

arrivals_all : length arrivals ≡ length frames
unfolding frames_from
arrivals_all = refl

no_partials : get {V = Partial} id_dec (bytes_to_hex id_bytes) [] ≡ none
unfolding get
no_partials = refl

deliver-encode_frames_example :
    ((deliver limits frames arrivals []).1
      ≡ replicate (length frames - 1) pending ++ message body ∷ [])
    × (get id_dec (bytes_to_hex id_bytes) (deliver limits frames arrivals []).0 ≡ none)
deliver-encode_frames_example =
    deliver-encode_frames limits id_bytes body 2 frames arrivals [] encoded (omega arith)
      (omega arith) (omega arith) arrivals-InRange arrivals-Distinct arrivals_all no_partials
      (omega arith)

decode_frame-encode_frames_example :
    let total = frame_count (length body) (chunk_bytes_of 2) in
    (found : List (List ℕ)) × (encode_frames (bytes id_bytes) body 2 ≡ Frame.ok found)
    × (map decode_frame found ≡ decoded_from id_bytes body (chunk_bytes_of 2) total 0 total)
    × (join (chunks_from body (chunk_bytes_of 2) 0 total) ≡ body)
decode_frame-encode_frames_example =
    decode_frame-encode_frames id_bytes body 2 (omega arith) (omega arith)

-- Twice the bytes and two more.
abbrev twice : ℕ → ℕ
twice n = 2 * n + 2

max_frame_chunk_bytes_for_payload-IsLargest_example :
    IsLargest twice 24 (max 1 100) (max 1 100) (max_frame_chunk_bytes_for_payload 100 twice 24)
max_frame_chunk_bytes_for_payload-IsLargest_example =
    max_frame_chunk_bytes_for_payload-IsLargest 100 twice 24 (λ a b h. omega arith)

abbrev empty : Mux
empty = record {
  control_lane = record { queue = []; scheduled = false };
  bulk_lane = record { queue = []; scheduled = false };
  seq = 0;
  microtasks = [];
}

empty-IsInOrder : IsInOrder empty
empty-IsInOrder = record {
  control_ordered = tt;
  bulk_ordered = tt;
  control_numbered = tt;
  bulk_numbered = tt;
}

empty-IsScheduled : IsScheduled empty
empty-IsScheduled = record { control_tasks = refl; bulk_tasks = refl }

abbrev queued : Mux
queued = enqueue "fed_tip_ping" body none empty

tip_ping_is_own : is_inherited inherited_members "fed_tip_ping" ≡ false
unfolding is_inherited
tip_ping_is_own = refl

-- An action named like an inherited member upsets the order: a message of priority 5 stays behind one
-- of priority 10.
abbrev upset : Mux
upset =
    enqueue "fed_chunk_put" body (some bulk)
      (enqueue "toString" body (some bulk) (enqueue "fed_volatile" body (some bulk) empty))

upset_order : map (λ x. x.priority) upset.bulk_lane.queue ≡ some 10 ∷ none ∷ some 5 ∷ []
unfolding enqueue schedule_flush insert_item search compare_items resolve_action_priority
    priority_in is_inherited
upset_order = refl

enqueue-IsInOrder_example : IsInOrder queued
enqueue-IsInOrder_example =
    enqueue-IsInOrder "fed_tip_ping" body none empty tip_ping_is_own empty-IsInOrder

abbrev first_item : Item
first_item = record { priority = some 0; seq = 1; bytes = body }

abbrev second_item : Item
second_item = record { priority = some 3; seq = 2; bytes = body }
