-- ===== src/Link/Frame/Codec.antt =====
-- The frames of js/link/frame.mjs decode to what was encoded.
use fount_p2p.Base.{
  ℕ, zero, suc, min, ◌+◌, ◌-◌, ◌*◌, ◌≤◌, ◌<◌, ◌≡◌, refl, List, [], ◌∷◌, ◌++◌, arith, length, take,
  drop, map, length-append, take-append_left, drop-append_left, drop-drop, drop_all,
  take-append-drop, ◌∙◌, ap, sym, dec_le,
}
use fount_p2p.Core.BytesCodec.{bytes_to_hex}
use fount_p2p.Link.Frame.{
  Frame, bytes, Result, ok, uint32_bytes, read_uint32, make_frame, chunk_bytes_of, chunk_at,
  frame_count, frames_from, encode_frames, decode_frame, frame_id_bytes, normalize_frame_id_bytes,
}

read_uint32-uint32_bytes :
    (n : ℕ) (rest : List ℕ) → n < 4294967296 → read_uint32 (uint32_bytes n ++ rest) ≡ n
unfolding read_uint32 uint32_bytes
read_uint32-uint32_bytes n rest h = omega arith

-- The frame that `decode_frame` reads from a frame that was made.
abbrev pub frame_at : List ℕ → List ℕ → ℕ → ℕ → ℕ → Frame
frame_at id_bytes body chunk_bytes total seq = record {
  frame_id = bytes_to_hex id_bytes;
  seq = seq;
  total = total;
  chunk = chunk_at body chunk_bytes seq;
}

length-make_frame :
    (id_bytes : List ℕ) (seq total : ℕ) (chunk : List ℕ)
    → length (make_frame id_bytes seq total chunk) ≡ length id_bytes + 8 + length chunk
unfolding make_frame uint32_bytes
length-make_frame id_bytes seq total chunk =
    omega (arith, length-append id_bytes (uint32_bytes seq ++ (uint32_bytes total ++ chunk)))

-- A frame reads back: its id in hexadecimal, its place and its chunk.
pub decode_frame-make_frame :
    (id_bytes : List ℕ) (seq total : ℕ) (chunk : List ℕ)
    → length id_bytes ≡ frame_id_bytes
    → seq < total
    → total < 4294967296
    → decode_frame (make_frame id_bytes seq total chunk)
      ≡ ok (record { frame_id = bytes_to_hex id_bytes; seq = seq; total = total; chunk = chunk })
unfolding decode_frame make_frame uint32_bytes read_uint32
decode_frame-make_frame id_bytes seq total chunk h lt small =
    let tail = uint32_bytes seq ++ (uint32_bytes total ++ chunk) in
    ground (
      arith,
      length-make_frame id_bytes seq total chunk,
      take-append_left frame_id_bytes id_bytes tail,
      drop-append_left 16 0 id_bytes tail,
      drop-append_left 20 4 id_bytes tail,
      drop-append_left 24 8 id_bytes tail,
      read_uint32-uint32_bytes seq (uint32_bytes total ++ chunk),
      read_uint32-uint32_bytes total chunk,
    )

-- The chunks of the frames from `seq` on.
abbrev pub chunks_from : List ℕ → ℕ → ℕ → ℕ → List (List ℕ)
chunks_from body chunk_bytes seq zero = []
chunks_from body chunk_bytes seq (suc left) =
    chunk_at body chunk_bytes seq ∷ chunks_from body chunk_bytes (suc seq) left

abbrev pub join : List (List ℕ) → List ℕ
join [] = []
join (c ∷ cs) = c ++ join cs

drop-clamped :
    (xs : List ℕ) (s n : ℕ) → drop (min (length xs) (s + n) - s) (drop s xs) ≡ drop (s + n) xs
drop-clamped xs s n =
    let k = min (length xs) (s + n) - s in
    elim (dec_le (s + n) (length xs)) [
      | yes fits ↦ let e : k ≡ n = omega arith in rw (e, drop-drop n s xs)
      | no cut ↦
          drop-drop k s xs
          ∙ drop_all (s + k) xs (omega arith)
          ∙ sym (drop_all (s + n) xs (omega arith))
    ]

take-append-drop_clamped :
    (xs : List ℕ) (s n : ℕ)
    → take (min (length xs) (s + n) - s) (drop s xs) ++ drop (s + n) xs ≡ drop s xs
take-append-drop_clamped xs s n =
    rw (← drop-clamped xs s n) (take-append-drop (min (length xs) (s + n) - s) (drop s xs))

chunk-append-rest :
    (body : List ℕ) (chunk_bytes seq : ℕ)
    → chunk_at body chunk_bytes seq ++ drop (suc seq * chunk_bytes) body
      ≡ drop (seq * chunk_bytes) body
chunk-append-rest body chunk_bytes seq =
    let e : suc seq * chunk_bytes ≡ seq * chunk_bytes + chunk_bytes = omega arith in
    rw e (take-append-drop_clamped body (seq * chunk_bytes) chunk_bytes)

join-chunks_from :
    (body : List ℕ) (chunk_bytes seq left : ℕ)
    → length body ≤ (seq + left) * chunk_bytes
    → join (chunks_from body chunk_bytes seq left) ≡ drop (seq * chunk_bytes) body
join-chunks_from body chunk_bytes seq zero h =
    sym (drop_all (seq * chunk_bytes) body (omega (arith)))
join-chunks_from body chunk_bytes seq (suc left) h =
    ap (◌++◌ (chunk_at body chunk_bytes seq))
      (join-chunks_from body chunk_bytes (suc seq) left (omega arith))
    ∙ chunk-append-rest body chunk_bytes seq

frame_count-covers :
    (n chunk_bytes : ℕ) → 0 < chunk_bytes → n ≤ frame_count n chunk_bytes * chunk_bytes
frame_count-covers n chunk_bytes h = grind arith

frame_count-le : (n chunk_bytes : ℕ) → 0 < chunk_bytes → frame_count n chunk_bytes ≤ suc n
frame_count-le n chunk_bytes h = grind arith

pub chunk_bytes_of-pos : (m : ℕ) → 0 < chunk_bytes_of m
chunk_bytes_of-pos m = ground arith

pub frame_count-small :
    (n chunk_bytes : ℕ) → 0 < chunk_bytes → n < 4294967295 → frame_count n chunk_bytes < 4294967296
frame_count-small n chunk_bytes h k = omega (arith, frame_count-le n chunk_bytes h)

drop_none : (xs : List ℕ) (n : ℕ) → n ≡ 0 → drop n xs ≡ xs
drop_none xs n e = rw e

pub join-all_chunks :
    (body : List ℕ) (chunk_bytes : ℕ)
    → 0 < chunk_bytes
    → join (chunks_from body chunk_bytes 0 (frame_count (length body) chunk_bytes)) ≡ body
join-all_chunks body chunk_bytes h =
    let total = frame_count (length body) chunk_bytes in
    let e : zero + total ≡ total = omega arith in
    join-chunks_from body chunk_bytes 0 total
      (rw e (frame_count-covers (length body) chunk_bytes h))
    ∙ drop_none body (0 * chunk_bytes) (omega arith)

pub normalize_frame_id_bytes-bytes :
    (id_bytes : List ℕ)
    → length id_bytes ≡ frame_id_bytes
    → normalize_frame_id_bytes (bytes id_bytes) ≡ ok id_bytes
unfolding normalize_frame_id_bytes
normalize_frame_id_bytes-bytes id_bytes h = ground arith

-- The frames that decoding gives, from `seq` on.
abbrev pub decoded_from : List ℕ → List ℕ → ℕ → ℕ → ℕ → ℕ → List (Result Frame)
decoded_from id_bytes body chunk_bytes total seq zero = []
decoded_from id_bytes body chunk_bytes total seq (suc left) =
    ok (frame_at id_bytes body chunk_bytes total seq)
    ∷ decoded_from id_bytes body chunk_bytes total (suc seq) left

map-decode_frame :
    (id_bytes body : List ℕ) (chunk_bytes total seq left : ℕ)
    → length id_bytes ≡ frame_id_bytes
    → seq + left ≡ total
    → total < 4294967296
    → map decode_frame (frames_from id_bytes body chunk_bytes total seq left)
      ≡ decoded_from id_bytes body chunk_bytes total seq left
unfolding frames_from
map-decode_frame id_bytes body chunk_bytes total seq zero h e small = refl
map-decode_frame id_bytes body chunk_bytes total seq (suc left) h e small = rw (
  decode_frame-make_frame id_bytes seq total (chunk_at body chunk_bytes seq) h (omega arith) small,
  map-decode_frame id_bytes body chunk_bytes total (suc seq) left h (omega arith) small,
)

-- A message that is encoded under a frame id of 16 bytes gives frames that all decode, to the id in
-- hexadecimal, consecutive places, their common number and the message's consecutive chunks; the
-- chunks joined are the message.
pub decode_frame-encode_frames :
    (id_bytes body : List ℕ) (max_chunk_bytes : ℕ)
    → length id_bytes ≡ frame_id_bytes
    → length body < 4294967295
    → let chunk_bytes = chunk_bytes_of max_chunk_bytes in
      let total = frame_count (length body) chunk_bytes in
      (frames : List (List ℕ)) × (encode_frames (bytes id_bytes) body max_chunk_bytes ≡ ok frames)
      × (map decode_frame frames ≡ decoded_from id_bytes body chunk_bytes total 0 total)
      × (join (chunks_from body chunk_bytes 0 total) ≡ body)
unfolding encode_frames
decode_frame-encode_frames id_bytes body max_chunk_bytes h small =
    let chunk_bytes = chunk_bytes_of max_chunk_bytes in
    let total = frame_count (length body) chunk_bytes in
    let pos = chunk_bytes_of-pos max_chunk_bytes in
    (
      frames_from id_bytes body chunk_bytes total 0 total,
      rw (normalize_frame_id_bytes-bytes id_bytes h),
      map-decode_frame id_bytes body chunk_bytes total 0 total h (omega arith)
          (frame_count-small (length body) chunk_bytes pos small),
      join-all_chunks body chunk_bytes pos,
    )
