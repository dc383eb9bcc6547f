-- ===== src/Link/Frame.antt =====
-- js/link/frame.mjs: messages cut into frames, and the reassembly of frames into messages. Bytes
-- are numbers below 256 in lists; a thrown error is a value, beside the state that it leaves.

pub mod Codec
pub mod Search
use fount_p2p.Base.{
  ℕ, zero, suc, max, min, ◌+◌, ◌-◌, ◌*◌, ◌/◌, ◌%◌, ◌≤◌, ◌<◌, ◌≡◌, refl, ◌≢◌, ◌⊎◌, Option, none,
  some, List, [], ◌∷◌, ◌++◌, Bool, true, false, arith, ltb, leb, ◌==◌, if◌then◌else◌, inl, inr,
  ◌&&◌, ◌||◌, All, not, length, take, drop, get_elem?, set, replicate, ℕ_discrete, map,
}
use fount_p2p.Base.JsMap.{JsMap, size, get, has, put, delete, remove_if}
use fount_p2p.Core.BytesCodec.{bytes_to_hex, hex_to_bytes, Decoded}

abbrev pub frame_id_bytes : ℕ
frame_id_bytes = 16

abbrev pub frame_header_bytes : ℕ
frame_header_bytes = 24

abbrev pub default_max_frame_chunk_bytes : ℕ
default_max_frame_chunk_bytes = 15 * 1024

abbrev pub default_max_message_bytes : ℕ
default_max_message_bytes = 8 * 1024 * 1024

abbrev pub default_max_partial_messages : ℕ
default_max_partial_messages = 32

abbrev pub default_partial_timeout_ms : ℕ
default_partial_timeout_ms = 30000

pub data FrameError : Type 0 where
  bad_frame_id too_short bad_sequence too_many_partials total_mismatch too_large : FrameError

pub data Result (A : Type 0) : Type 0 where
  ok : A → Result A
  err : FrameError → Result A

-- A frame id is 16 bytes, or a text of 32 hexadecimal digits.
pub data FrameId : Type 0 where
  bytes : List ℕ → FrameId
  text : List ℕ → FrameId

abbrev pub id_of_decoded : Decoded → Result (List ℕ)
id_of_decoded (Decoded.ok bs) = ok bs
id_of_decoded (Decoded.err e) = err bad_frame_id

unfoldable pub normalize_frame_id_bytes : FrameId → Result (List ℕ)
normalize_frame_id_bytes (bytes bs) =
    if length bs == frame_id_bytes then ok bs else err bad_frame_id
normalize_frame_id_bytes (text hex) =
    if length hex == frame_id_bytes * 2 then id_of_decoded (hex_to_bytes hex) else err bad_frame_id

-- `view.setUint32(offset, n, false)`: the low 32 bits, the highest byte first.
unfoldable pub uint32_bytes : ℕ → List ℕ
uint32_bytes n = (n / 16777216 % 256) ∷ (n / 65536 % 256) ∷ (n / 256 % 256) ∷ (n % 256) ∷ []

-- `view.getUint32(offset, false)` of the four bytes there.
unfoldable pub read_uint32 : List ℕ → ℕ
read_uint32 (a ∷ b ∷ c ∷ d ∷ rest) = a * 16777216 + b * 65536 + c * 256 + d
read_uint32 _ = 0

unfoldable pub make_frame : List ℕ → ℕ → ℕ → List ℕ → List ℕ
make_frame id_bytes seq total chunk =
    id_bytes ++ (uint32_bytes seq ++ (uint32_bytes total ++ chunk))

-- `Number(maxChunkBytes) || DEFAULT`, capped.
abbrev pub chunk_bytes_of : ℕ → ℕ
chunk_bytes_of max_chunk_bytes =
    min default_max_message_bytes
      (if max_chunk_bytes == 0 then default_max_frame_chunk_bytes else max_chunk_bytes)

-- `body.subarray(start, end)` of frame `seq`.
abbrev pub chunk_at : List ℕ → ℕ → ℕ → List ℕ
chunk_at body chunk_bytes seq =
    let start = seq * chunk_bytes in
    take (min (length body) (start + chunk_bytes) - start) (drop start body)

-- `Math.max(1, Math.ceil(body.byteLength / chunkBytes))`
abbrev pub frame_count : ℕ → ℕ → ℕ
frame_count body_length chunk_bytes = max 1 ((body_length + (chunk_bytes - 1)) / chunk_bytes)

-- The loop from `seq` on, with `left` rounds to go.
unfoldable pub frames_from : List ℕ → List ℕ → ℕ → ℕ → ℕ → ℕ → List (List ℕ)
frames_from id_bytes body chunk_bytes total seq zero = []
frames_from id_bytes body chunk_bytes total seq (suc left) =
    make_frame id_bytes seq total (chunk_at body chunk_bytes seq)
    ∷ frames_from id_bytes body chunk_bytes total (suc seq) left

abbrev pub frames_of : Result (List ℕ) → List ℕ → ℕ → Result (List (List ℕ))
frames_of (err e) body chunk_bytes = err e
frames_of (ok id_bytes) body chunk_bytes =
    let total = frame_count (length body) chunk_bytes in
    ok (frames_from id_bytes body chunk_bytes total 0 total)

unfoldable pub encode_frames : FrameId → List ℕ → ℕ → Result (List (List ℕ))
encode_frames frame_id body max_chunk_bytes =
    frames_of (normalize_frame_id_bytes frame_id) body (chunk_bytes_of max_chunk_bytes)

pub record Frame : Type 0 where
  pub frame_id : List ℕ
  pub seq : ℕ
  pub total : ℕ
  pub chunk : List ℕ

unfoldable pub decode_frame : List ℕ → Result Frame
decode_frame frame =
    let seq = read_uint32 (drop frame_id_bytes frame) in
    let total = read_uint32 (drop 20 frame) in
    if ltb (length frame) frame_header_bytes
    then err too_short
    else if total == 0 || leb total seq
    then err bad_sequence
    else ok (record {
      frame_id = bytes_to_hex (take frame_id_bytes frame);
      seq = seq;
      total = total;
      chunk = drop frame_header_bytes frame;
    })
