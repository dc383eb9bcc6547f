-- ===== src/Link/Reassembler/AnyOrder.antt =====
-- js/link/frame.mjs from end to end: a message that is encoded, and whose frames arrive in any
-- order, comes out of the table.
use fount_p2p.Base.{
  ℕ, zero, suc, ◌+◌, ◌-◌, ◌≤◌, ◌<◌, ◌≡◌, refl, ◌≢◌, Option, none, some, List, [], ◌∷◌, ◌++◌, arith,
  inr, All, All-map, length, get_elem?, set, replicate, ◌∙◌, ap, sym, subst,
}
use fount_p2p.Base.JsMap.{size, get}
use fount_p2p.Core.BytesCodec.{bytes_to_hex}
use fount_p2p.Link.Frame.{
  bytes, ok, make_frame, chunk_at, chunk_bytes_of, frame_count, frames_from, encode_frames,
  frame_id_bytes,
}
use fount_p2p.Link.Frame.Codec.{
  join, chunks_from, decode_frame-make_frame, frame_count-small, join-all_chunks,
  normalize_frame_id_bytes-bytes, chunk_bytes_of-pos,
}
use fount_p2p.Link.Reassembler.{
  Limits, Table, Outcome, pending, message, id_dec, new_partial, push_frame, push,
}
use fount_p2p.Link.Reassembler.Slots.{
  Slots, get_elem?-replicate, get_elem?-set_ne, missing-replicate,
}
use fount_p2p.Link.Reassembler.Delivery.{new_partial-Gathers, frame_for, feed, feed_lem, Brings}

-- The arrival at a time of the frame at a place.
abbrev pub Arrivals : Type 0
Arrivals = List (ℕ × ℕ)

abbrev pub arrive : Limits → ℕ → Option (List ℕ) → Table → Table × List Outcome
arrive o now none s = (s, [])
arrive o now (some frame) s = let (s', out) = push o now frame s in (s', out ∷ [])

-- Each arrival is pushed; the outcomes in order.
unfoldable pub deliver : Limits → List (List ℕ) → Arrivals → Table → Table × List Outcome
deliver o frames [] s = (s, [])
deliver o frames ((now, i) ∷ rest) s =
    let (s', out) = arrive o now (get_elem? frames i) s in
    let (t, outs) = deliver o frames rest s' in (t, out ++ outs)

abbrev pub InRange : ℕ → Arrivals → Type 0
InRange n = All (λ a. a.1 < n)

-- No place arrives twice.
abbrev pub Distinct : Arrivals → Type 0
Distinct [] = Unit
Distinct (a ∷ rest) = All (λ b. a.1 ≢ b.1) rest × Distinct rest

get_elem?-frames_from :
    (id_bytes body : List ℕ) (cb total seq left i : ℕ)
    → i < left
    → get_elem? (frames_from id_bytes body cb total seq left) i
      ≡ some (make_frame id_bytes (seq + i) total (chunk_at body cb (seq + i)))
unfolding frames_from
get_elem?-frames_from id_bytes body cb total seq zero i h = absurd (omega arith)
get_elem?-frames_from id_bytes body cb total seq (suc left) zero h =
    let e : seq + zero ≡ seq = omega arith in rw e
get_elem?-frames_from id_bytes body cb total seq (suc left) (suc i) h =
    let e : suc seq + i ≡ seq + suc i = omega arith in
    get_elem?-frames_from id_bytes body cb total (suc seq) left i (omega arith) ∙ rw e

length-frames_from :
    (id_bytes body : List ℕ) (cb total seq left : ℕ)
    → length (frames_from id_bytes body cb total seq left) ≡ left
unfolding frames_from
length-frames_from id_bytes body cb total seq zero = refl
length-frames_from id_bytes body cb total seq (suc left) =
    ap suc (length-frames_from id_bytes body cb total (suc seq) left)

get_elem?-chunks_from :
    (body : List ℕ) (cb seq left i : ℕ)
    → i < left
    → get_elem? (chunks_from body cb seq left) i ≡ some (chunk_at body cb (seq + i))
get_elem?-chunks_from body cb seq zero i h = absurd (omega arith)
get_elem?-chunks_from body cb seq (suc left) zero h = let e : seq + zero ≡ seq = omega arith in rw e
get_elem?-chunks_from body cb seq (suc left) (suc i) h =
    let e : suc seq + i ≡ seq + suc i = omega arith in
    get_elem?-chunks_from body cb (suc seq) left i (omega arith) ∙ rw e

length-chunks_from :
    (body : List ℕ) (cb seq left : ℕ) → length (chunks_from body cb seq left) ≡ left
length-chunks_from body cb seq zero = refl
length-chunks_from body cb seq (suc left) = ap suc (length-chunks_from body cb (suc seq) left)

abbrev with_chunks : List ℕ → ℕ → Arrivals → List (ℕ × ℕ × List ℕ)
with_chunks body cb [] = []
with_chunks body cb ((now, i) ∷ rest) = (now, i, chunk_at body cb i) ∷ with_chunks body cb rest

length-with_chunks :
    (body : List ℕ) (cb : ℕ) (arrivals : Arrivals)
    → length (with_chunks body cb arrivals) ≡ length arrivals
length-with_chunks body cb [] = refl
length-with_chunks body cb (a ∷ rest) = ap suc (length-with_chunks body cb rest)

module _ (o : Limits) (id_bytes body : List ℕ) (cb total : ℕ) where
  abbrev cs : List (List ℕ)
  cs = chunks_from body cb 0 total

  abbrev hex_id : List ℕ
  hex_id = bytes_to_hex id_bytes

  module _ (fits : length (join cs) ≤ o.max_message_bytes) where
    -- The slots of later places stay empty when one is filled.
    others_empty :
        (arrivals : Arrivals) (os : Slots) (i : ℕ) (c : Option (List ℕ))
        → All (λ b. i ≢ b.1) arrivals
        → All (λ a. get_elem? os a.1 ≡ some none) arrivals
        → All (λ a. get_elem? (set os i c) a.1 ≡ some none) arrivals
    others_empty [] os i c d e = tt
    others_empty (a ∷ rest) os i c d e =
        (get_elem?-set_ne os i a.1 c d.0 ∙ e.0, others_empty rest os i c d.1 e.1)

    Brings-with_chunks :
        (arrivals : Arrivals) (os : Slots)
        → InRange total arrivals
        → Distinct arrivals
        → All (λ a. get_elem? os a.1 ≡ some none) arrivals
        → Brings o hex_id cs fits os (with_chunks body cb arrivals)
    Brings-with_chunks [] os r d e = tt
    Brings-with_chunks ((now, i) ∷ rest) os r d e =
        let z : zero + i ≡ i = omega arith in
        let here = get_elem?-chunks_from body cb 0 total i r.0 in
        (
          here ∙ ap (λ n. some (chunk_at body cb n)) z,
          e.0,
          Brings-with_chunks rest (set os i (some (chunk_at body cb i))) r.1 d.1
              (others_empty rest os i (some (chunk_at body cb i)) d.0 e.1),
        )

    arrive-push_frame :
        (now i : ℕ) (s : Table)
        → length id_bytes ≡ frame_id_bytes
        → total < 4294967296
        → i < total
        → arrive o now (get_elem? (frames_from id_bytes body cb total 0 total) i) s ≡ (
            let r = push_frame o now (frame_for o hex_id cs fits i (chunk_at body cb i)) s in
            (r.0, r.1 ∷ []))
    unfolding push
    arrive-push_frame now i s h small lt =
        let z : zero + i ≡ i = omega arith in
        let e =
          get_elem?-frames_from id_bytes body cb total 0 total i lt
          ∙ ap (λ n. some (make_frame id_bytes n total (chunk_at body cb n))) z in
        rw (
          e,
          decode_frame-make_frame id_bytes i total (chunk_at body cb i) h lt small,
          length-chunks_from body cb 0 total,
        )

    deliver-feed :
        (arrivals : Arrivals) (s : Table)
        → length id_bytes ≡ frame_id_bytes
        → total < 4294967296
        → InRange total arrivals
        → deliver o (frames_from id_bytes body cb total 0 total) arrivals s
          ≡ feed o hex_id cs fits (with_chunks body cb arrivals) s
    unfolding deliver feed
    deliver-feed [] s h small r = refl
    deliver-feed ((now, i) ∷ rest) s h small r =
        let s' = (push_frame o now (frame_for o hex_id cs fits i (chunk_at body cb i)) s).0 in
        rw (arrive-push_frame now i s h small r.0, deliver-feed rest s' h small r.1)

    All-empty :
        (n : ℕ) (arrivals : Arrivals)
        → n ≡ total
        → InRange total arrivals
        → All (λ a. get_elem? {A = Option (List ℕ)} (replicate n none) a.1 ≡ some none) arrivals
    All-empty n arrivals e r =
        All-map _ _ arrivals (λ a lt. get_elem?-replicate n a.1 (omega arith)) r

    deliver_any_order :
        (arrivals : Arrivals) (s : Table)
        → length id_bytes ≡ frame_id_bytes
        → 0 < total
        → total < 4294967296
        → InRange total arrivals
        → Distinct arrivals
        → length arrivals ≡ total
        → get id_dec hex_id s ≡ none
        → size s < o.max_partials
        → ((deliver o (frames_from id_bytes body cb total 0 total) arrivals s).1
            ≡ replicate (total - 1) pending ++ message (join cs) ∷ [])
          × (get id_dec hex_id (deliver o (frames_from id_bytes body cb total 0 total) arrivals s).0
              ≡ none)
    deliver_any_order [] s h pos small r d n absent room = absurd (omega arith)
    deliver_any_order ((now, i) ∷ rest) s h pos small r d n absent room =
        let count = length-chunks_from body cb 0 total in
        let slots = replicate {A = Option (List ℕ)} (length cs) none in
        let brings =
          Brings-with_chunks ((now, i) ∷ rest) slots r d
            (All-empty (length cs) ((now, i) ∷ rest) count r) in
        let e : total - 1 ≡ length (with_chunks body cb rest) =
          omega (arith, length-with_chunks body cb rest) in
        rw (deliver-feed ((now, i) ∷ rest) s h small r, e)
          (feed_lem o hex_id cs fits (with_chunks body cb rest) now i (chunk_at body cb i)
            (new_partial (length cs) now) s (new_partial-Gathers cs now) (inr (absent, room, refl))
            brings
            (omega (arith, missing-replicate (length cs), length-with_chunks body cb rest, count)))

frame_count-pos : (n cb : ℕ) → 0 < frame_count n cb
frame_count-pos n cb = omega arith

ok-injective : (xs ys : List (List ℕ)) → ok xs ≡ ok ys → xs ≡ ys
ok-injective xs ys e = cc

-- A message within the limit, encoded under a frame id that is not under way in a table with room,
-- comes out with its last frame, whole, in whatever order its frames arrive, each once; before
-- that every frame is accepted as pending, and after it the table holds nothing of the message.
pub deliver-encode_frames :
    (o : Limits) (id_bytes body : List ℕ) (max_chunk_bytes : ℕ) (frames : List (List ℕ))
    (arrivals : Arrivals) (s : Table)
    → encode_frames (bytes id_bytes) body max_chunk_bytes ≡ ok frames
    → length id_bytes ≡ frame_id_bytes
    → length body < 4294967295
    → length body ≤ o.max_message_bytes
    → InRange (length frames) arrivals
    → Distinct arrivals
    → length arrivals ≡ length frames
    → get id_dec (bytes_to_hex id_bytes) s ≡ none
    → size s < o.max_partials
    → ((deliver o frames arrivals s).1 ≡ replicate (length frames - 1) pending ++ message body ∷ [])
      × (get id_dec (bytes_to_hex id_bytes) (deliver o frames arrivals s).0 ≡ none)
unfolding encode_frames
deliver-encode_frames o id_bytes body m frames arrivals s enc h small fits r d n absent room =
    let cb = chunk_bytes_of m in
    let total = frame_count (length body) cb in
    let pos = chunk_bytes_of-pos m in
    let whole = join-all_chunks body cb pos in
    let made = frames_from id_bytes body cb total 0 total in
    let e : frames ≡ made =
      ok-injective frames made (sym enc ∙ rw (normalize_frame_id_bytes-bytes id_bytes h)) in
    let count : length frames ≡ total =
      ap length e ∙ length-frames_from id_bytes body cb total 0 total in
    let base =
      deliver_any_order o id_bytes body cb total
        (subst (λ x. length x ≤ o.max_message_bytes) (sym whole) fits) arrivals s h
        (frame_count-pos (length body) cb) (frame_count-small (length body) cb pos small)
        (subst (λ k. InRange k arrivals) count r) d (n ∙ count) absent room in
    (cc (base.0, e, count, whole), cc (base.1, e))
