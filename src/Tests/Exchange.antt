-- ===== src/Tests/Exchange.antt =====
-- The theorems on js/federation and on the pruning of js/mailbox at concrete inputs.
use fount_p2p.Base.{
  ℕ, ℕ_discrete, ◌≡◌, refl, ◌≤◌, none, some, List, [], ◌∷◌, ◌++◌, true, false, arith, length,
}
use fount_p2p.Base.JsMap.{size, get}
use fount_p2p.Core.HexIds.{Text, text_dec}
use fount_p2p.Federation.WantIds
use fount_p2p.Federation.WantIds.HoldOff.{take_incoming_backs_off}
use fount_p2p.Federation.VolatileStreams.{Streams}
use fount_p2p.Federation.DedupeSlot.{take_slot}
use fount_p2p.Federation.ChunkFetch.{
  Table, failed, done, chunk_fetch_progress, counted, chunk_fetch_progress_lem, is_settled,
  row_or_new,
}
use fount_p2p.Mailbox.Prune.{
  Record, normal, sort_rows, stored_before, prune_bucket, max_bucket_entries, max_bucket_bytes,
  total_bytes, prune_bucket_lem,
}

abbrev group : Text
group = b'g' ∷ []

abbrev peer : Text
peer = b'p' ∷ []

abbrev limits : WantIds.Limits
limits = record { in_window_ms = 0; in_max_batch = 1; out_window_ms = 0; out_max_batch = 1 }

-- The peer has used up its window.
abbrev used_up : WantIds.State
used_up = record {
  inbound = (WantIds.want_ids_peer_key group peer, record { count = 1; reset_at = 90000 }) ∷ [];
  outbound = [];
  backoff = [];
}

free :
    (WantIds.is_want_ids_in_backoff 500 (WantIds.want_ids_peer_key group peer) used_up.backoff).0
    ≡ false
unfolding WantIds.is_want_ids_in_backoff get
free = refl

refused : (WantIds.take_incoming_want_ids_slot 500 500 500 group peer limits used_up).0 ≡ false
unfolding WantIds.take_incoming_want_ids_slot WantIds.is_want_ids_in_backoff
    WantIds.take_from_window get text_dec ℕ_discrete
refused = refl

take_incoming_backs_off_example :
    let after = (WantIds.take_incoming_want_ids_slot 500 500 500 group peer limits used_up).1 in
    WantIds.take_incoming_want_ids_slot 900 900 900 group peer limits after ≡ (false, after)
take_incoming_backs_off_example =
    take_incoming_backs_off group peer limits 500 500 500 900 900 900 used_up tt free refused
      (omega arith)

abbrev streams : Streams
streams = (group, record { chunks = (2, peer) ∷ (1, group) ∷ []; ended = false }) ∷ []

one_stream :
    get text_dec group streams
    ≡ some (record { chunks = (2, peer) ∷ (1, group) ∷ []; ended = false })
unfolding get text_dec ℕ_discrete
one_stream = refl

let_through : (take_slot 5 1000 200 group []).0 ≡ true
unfolding take_slot get
let_through = refl

abbrev rows : Table
rows =
    (group, record { state = done; peer_id = none; attempts = 0 })
    ∷ (peer, record { state = failed; peer_id = none; attempts = 3 })
    ∷ []

chunk_fetch_progress_lem_example :
    (counted (chunk_fetch_progress rows) ≡ (chunk_fetch_progress rows).total)
    × ((chunk_fetch_progress rows).total ≡ size rows)
chunk_fetch_progress_lem_example = chunk_fetch_progress_lem rows

not_settled : is_settled (row_or_new (get text_dec peer rows)).state ≡ false
unfolding get text_dec ℕ_discrete
not_settled = refl

abbrev mail : ℕ → Record
mail at = record {
  id = at ∷ [];
  to_pub_key_hash = group;
  from_node_hash = peer;
  envelope_sender = [];
  stored_at = at;
  tier = normal;
}

prune_bucket_lem_example :
    ((dropped : List Record) × (sort_rows stored_before (mail 2 ∷ mail 1 ∷ [])
        ≡ dropped ++ prune_bucket (λ r. 2000000) (mail 2 ∷ mail 1 ∷ [])))
    × (length (prune_bucket (λ r. 2000000) (mail 2 ∷ mail 1 ∷ [])) ≤ max_bucket_entries)
    × (total_bytes (λ r. 2000000) (prune_bucket (λ r. 2000000) (mail 2 ∷ mail 1 ∷ []))
        ≤ max_bucket_bytes)
prune_bucket_lem_example = prune_bucket_lem (λ r. 2000000) (mail 2 ∷ mail 1 ∷ [])
