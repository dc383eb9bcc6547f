-- ===== src/Federation/VolatileStreams.antt =====
-- js/federation/volatile_streams.mjs: the chunks of a stream that is not yet final.
use fount_p2p.Base.{
  ℕ, ◌≡◌, refl, Option, none, some, List, [], ◌∷◌, Bool, true, false, arith, ltb, if◌then◌else◌,
  ℕ_discrete, sym, ◌∙◌,
}
use fount_p2p.Base.JsMap.{JsMap, get, put, delete, get-put_self}
use fount_p2p.Core.HexIds.{Text, text_dec}

abbrev pub Chunks : Type 0
Chunks = JsMap ℕ Text

pub record Stream : Type 0 where
  pub chunks : Chunks
  pub ended : Bool

abbrev pub Streams : Type 0
Streams = JsMap Text Stream

abbrev pub stream_or_new : Option Stream → Stream
stream_or_new none = record { chunks = []; ended = false }
stream_or_new (some s) = s

-- `if (!stream.ended) stream.chunks.set(chunkSeq, payload)`
abbrev pub with_chunk : ℕ → Text → Stream → Stream
with_chunk seq payload s =
    if s.ended then s else record { chunks = put ℕ_discrete seq payload s.chunks; ended = false }

unfoldable pub add_chunk : Text → ℕ → Text → Streams → Streams
add_chunk id seq payload streams =
    put text_dec id (with_chunk seq payload (stream_or_new (get text_dec id streams))) streams

unfoldable pub end_stream : Text → Streams → Streams
end_stream id streams = elim (get text_dec id streams) [
  | none ↦ streams
  | some s ↦ put text_dec id (record { chunks = s.chunks; ended = true }) streams
]

-- The sort by sequence number, by insertion, equal numbers in their order.
unfoldable pub insert_chunk : ℕ × Text → Chunks → Chunks
insert_chunk c [] = c ∷ []
insert_chunk c (d ∷ chunks) = if ltb d.0 c.0 then d ∷ insert_chunk c chunks else c ∷ d ∷ chunks

unfoldable pub sort_chunks : Chunks → Chunks
sort_chunks [] = []
sort_chunks (c ∷ chunks) = insert_chunk c (sort_chunks chunks)

unfoldable pub list_chunks : Text → Streams → Chunks
list_chunks id streams = elim (get text_dec id streams) [
  | none ↦ []
  | some s ↦ sort_chunks s.chunks
]

unfoldable pub clear_stream : Text → Streams → Streams
clear_stream id streams = delete text_dec id streams

-- Chunks that arrive for a stream, one after the other.
unfoldable pub add_all : Text → List (ℕ × Text) → Streams → Streams
add_all id [] streams = streams
add_all id ((seq, payload) ∷ more) streams = add_all id more (add_chunk id seq payload streams)

get-add_chunk_ended :
    (id : Text) (seq : ℕ) (payload : Text) (streams : Streams) (s : Stream)
    → get text_dec id streams ≡ some s
    → s.ended ≡ true
    → get text_dec id (add_chunk id seq payload streams) ≡ some s
unfolding add_chunk
get-add_chunk_ended id seq payload streams s h e = ground (
  arith,
  get-put_self text_dec id (with_chunk seq payload (stream_or_new (get text_dec id streams)))
      streams,
)

get-add_all_ended :
    (id : Text) (more : List (ℕ × Text)) (streams : Streams) (s : Stream)
    → get text_dec id streams ≡ some s
    → s.ended ≡ true
    → get text_dec id (add_all id more streams) ≡ some s
unfolding add_all
get-add_all_ended id [] streams s h e = h
get-add_all_ended id ((seq, payload) ∷ more) streams s h e =
    get-add_all_ended id more (add_chunk id seq payload streams) s
      (get-add_chunk_ended id seq payload streams s h e) e

list_chunks-some :
    (id : Text) (streams : Streams) (s : Stream)
    → get text_dec id streams ≡ some s
    → list_chunks id streams ≡ sort_chunks s.chunks
unfolding list_chunks
list_chunks-some id streams s h = rw (h, list_chunks) refl

get-end_stream :
    (id : Text) (streams : Streams) (s : Stream)
    → get text_dec id streams ≡ some s
    → get text_dec id (end_stream id streams) ≡ some (record { chunks = s.chunks; ended = true })
unfolding end_stream
get-end_stream id streams s h =
    ground (arith, get-put_self text_dec id (record { chunks = s.chunks; ended = true }) streams)

-- Once a stream is ended, its list of chunks stays what it was, whatever chunks still arrive for it.
pub list_chunks-end_stream :
    (id : Text) (more : List (ℕ × Text)) (streams : Streams) (s : Stream)
    → get text_dec id streams ≡ some s
    → list_chunks id (add_all id more (end_stream id streams)) ≡ list_chunks id streams
list_chunks-end_stream id more streams s h =
    list_chunks-some id (add_all id more (end_stream id streams))
      (record { chunks = s.chunks; ended = true })
      (get-add_all_ended id more (end_stream id streams)
        (record { chunks = s.chunks; ended = true }) (get-end_stream id streams s h) refl)
    ∙ sym (list_chunks-some id streams s h)
