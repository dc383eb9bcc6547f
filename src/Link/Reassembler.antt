-- ===== src/Link/Reassembler.antt =====
-- js/link/frame.mjs, `createReassembler`: frames are gathered by frame id, in a table with a limit
-- on the messages under way, on their bytes and on their age. The limits are the resolved options.
-- A push returns the table that it leaves, also where the source throws.
pub mod Slots
pub mod Delivery
pub mod AnyOrder
use fount_p2p.Base.{
  ℕ, zero, suc, max, min, ◌+◌, ◌-◌, ◌*◌, ◌/◌, ◌%◌, ◌≤◌, ◌<◌, ◌≡◌, refl, ◌≢◌, ◌⊎◌, Option, none,
  some, List, [], ◌∷◌, ◌++◌, Bool, true, false, arith, ltb, leb, ◌==◌, if◌then◌else◌, inl, inr,
  ◌&&◌, ◌||◌, All, not, length, take, drop, get_elem?, set, replicate, ℕ_discrete, map,
}
use fount_p2p.Base.JsMap.{JsMap, size, get, has, put, delete, remove_if}
use fount_p2p.Link.Frame.{
  Frame, FrameError, too_many_partials, total_mismatch, too_large, Result, ok, err, decode_frame,
  default_max_message_bytes, default_max_partial_messages, default_partial_timeout_ms,
}

pub record Limits : Type 0 where
  pub max_message_bytes : ℕ
  pub max_partials : ℕ
  pub partial_timeout_ms : ℕ

-- `Number(n) || d`
abbrev pub or_default : ℕ → ℕ → ℕ
or_default n d = if n == 0 then d else n

-- The options as `createReassembler` resolves them; an option that is missing is 0.
abbrev pub resolve : Limits → Limits
resolve o = record {
  max_message_bytes = max 1024 (or_default o.max_message_bytes default_max_message_bytes);
  max_partials = max 1 (or_default o.max_partials default_max_partial_messages);
  partial_timeout_ms = max 1000 (or_default o.partial_timeout_ms default_partial_timeout_ms);
}

pub record Partial : Type 0 where
  pub total : ℕ
  pub remaining : ℕ
  pub chunks : List (Option (List ℕ))
  pub bytes : ℕ
  pub first_seen_at : ℕ
  pub last_seen_at : ℕ

abbrev pub Table : Type 0
Table = JsMap (List ℕ) Partial

-- Equality of frame ids.
pub id_dec : Discrete (List ℕ)
id_dec = hlevel ℕ_discrete

abbrev pub new_partial : ℕ → ℕ → Partial
new_partial total now = record {
  total = total;
  remaining = total;
  chunks = replicate total none;
  bytes = 0;
  first_seen_at = now;
  last_seen_at = now;
}

-- `concatChunks`; a slot that is empty adds nothing.
unfoldable pub concat_chunks : List (Option (List ℕ)) → List ℕ
concat_chunks [] = []
concat_chunks (none ∷ chunks) = concat_chunks chunks
concat_chunks (some c ∷ chunks) = c ++ concat_chunks chunks

pub data Outcome : Type 0 where
  pending : Outcome
  message : List ℕ → Outcome
  failed : FrameError → Outcome

abbrev pub partial_or_new : ℕ → ℕ → Option Partial → Partial
partial_or_new total now none = new_partial total now
partial_or_new total now (some p) = p

abbrev pub slot : Option (Option (List ℕ)) → Option (List ℕ)
slot none = none
slot (some s) = s

-- `partial.lastSeenAt = now`, and the chunk if its slot is empty.
unfoldable pub store_chunk : Frame → ℕ → Partial → Partial
store_chunk f now p = elim (slot (get_elem? p.chunks f.seq)) [
  | some c ↦ record p { last_seen_at = now }
  | none ↦ record p {
    chunks = set p.chunks f.seq (some f.chunk);
    remaining = p.remaining - 1;
    bytes = p.bytes + length f.chunk;
    last_seen_at = now;
  }
]

-- Is it this push that stores the chunk?
abbrev pub stores : Frame → Partial → Bool
stores f p = elim (slot (get_elem? p.chunks f.seq)) [ some c ↦ false | none ↦ true ]

-- After the chunk: the limit is tested only by a push that stores one.
unfoldable pub finish : Limits → List ℕ → Bool → Partial → Table → Table × Outcome
finish o id stored p s =
    if stored && ltb o.max_message_bytes p.bytes
    then (delete id_dec id s, failed too_large)
    else if p.remaining == 0
    then (delete id_dec id s, message (concat_chunks p.chunks))
    else (put id_dec id p s, pending)

unfoldable pub push_frame : Limits → ℕ → Frame → Table → Table × Outcome
push_frame o now f s =
    let p = partial_or_new f.total now (get id_dec f.frame_id s) in
    if not (has id_dec f.frame_id s) && leb o.max_partials (size s)
    then (s, failed too_many_partials)
    else if not (p.total == f.total)
    then (delete id_dec f.frame_id s, failed total_mismatch)
    else finish o f.frame_id (stores f p) (store_chunk f now p) s

abbrev pub push_decoded : Limits → ℕ → Result Frame → Table → Table × Outcome
push_decoded o now (err e) s = (s, failed e)
push_decoded o now (ok f) s = push_frame o now f s

unfoldable pub push : Limits → ℕ → List ℕ → Table → Table × Outcome
push o now frame s = push_decoded o now (decode_frame frame) s

abbrev pub is_stale : Limits → ℕ → List ℕ → Partial → Bool
is_stale o now id p = ltb (p.last_seen_at + o.partial_timeout_ms) now

unfoldable pub expired_ids : Limits → ℕ → Table → List (List ℕ)
expired_ids o now [] = []
expired_ids o now ((id, p) ∷ s) =
    if is_stale o now id p then id ∷ expired_ids o now s else expired_ids o now s

-- The table without the stale messages, and their ids.
unfoldable pub prune : Limits → ℕ → Table → Table × List (List ℕ)
prune o now s = (remove_if (is_stale o now) s, expired_ids o now s)

abbrev pub clear : Table → Table
clear s = []
