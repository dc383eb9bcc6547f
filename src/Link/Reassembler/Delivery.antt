-- ===== src/Link/Reassembler/Delivery.antt =====
-- The frames of one message, fed to the table of js/link/frame.mjs in any order.
use fount_p2p.Base.{
  ℕ, suc, ◌+◌, ◌-◌, ◌≤◌, ◌<◌, ◌≡◌, refl, ◌⊎◌, none, some, List, [], ◌∷◌, ◌++◌, true, arith, ◌==◌,
  if◌then◌else◌, inl, inr, length, get_elem?, set, replicate, ◌∙◌, ap, sym,
}
use fount_p2p.Base.JsMap.{size, get, put, delete, get-put_self, get-delete_self}
use fount_p2p.Link.Frame.{Frame}
use fount_p2p.Link.Frame.Codec.{join}
use fount_p2p.Link.Reassembler.{
  Limits, Partial, Table, Outcome, pending, message, id_dec, new_partial, store_chunk, stores,
  finish, push_frame,
}
use fount_p2p.Link.Reassembler.Slots.{
  Slots, Matches, missing, held_bytes, Matches-replicate, missing-replicate, held_bytes-replicate,
  Matches-set, missing-set, held_bytes-set, held_bytes-le, concat_chunks-join,
}

-- A message under way: its slots hold chunks of the message, and its counters count them.
pub record Gathers (cs : List (List ℕ)) (p : Partial) : Type 0 where
  pub total : p.total ≡ length cs
  pub remaining : p.remaining ≡ missing p.chunks
  pub bytes : p.bytes ≡ held_bytes p.chunks
  pub slots : Matches p.chunks cs

pub new_partial-Gathers : (cs : List (List ℕ)) (now : ℕ) → Gathers cs (new_partial (length cs) now)
new_partial-Gathers cs now = record {
  total = refl;
  remaining = sym (missing-replicate (length cs));
  bytes = sym (held_bytes-replicate (length cs));
  slots = Matches-replicate cs;
}

module _ (o : Limits) (id : List ℕ) (cs : List (List ℕ))
    (fits : length (join cs) ≤ o.max_message_bytes) where
  abbrev pub frame_for : ℕ → List ℕ → Frame
  frame_for i c = record { frame_id = id; seq = i; total = length cs; chunk = c }

  abbrev stored : ℕ → ℕ → List ℕ → Partial → Partial
  stored now i c p = record p {
    chunks = set p.chunks i (some c);
    remaining = p.remaining - 1;
    bytes = p.bytes + length c;
    last_seen_at = now;
  }

  stored-Gathers :
      (now i : ℕ) (c : List ℕ) (p : Partial)
      → Gathers cs p
      → get_elem? cs i ≡ some c
      → get_elem? p.chunks i ≡ some none
      → Gathers cs (stored now i c p)
  stored-Gathers now i c p g e m = record {
    total = g.total;
    remaining = omega (arith, missing-set p.chunks i c m, g.remaining);
    bytes = omega (arith, held_bytes-set p.chunks i c m, g.bytes);
    slots = Matches-set p.chunks cs i c g.slots e;
  }

  -- The table and the outcome after a chunk that was missing.
  abbrev after_chunk : Partial → Table → Table × Outcome
  after_chunk p s =
      if p.remaining == 0
      then (delete id_dec id s, message (join cs))
      else (put id_dec id p s, pending)

  finish-stored : (p : Partial) (s : Table) → Gathers cs p → finish o id true p s ≡ after_chunk p s
  unfolding finish
  finish-stored p s g = ground (
    arith,
    held_bytes-le p.chunks cs g.slots,
    concat_chunks-join p.chunks cs g.slots,
    g.bytes,
    g.remaining,
  )

  -- The message is under way as `p`, or is not and there is room for it.
  abbrev pub Admits : ℕ → Partial → Table → Type 0
  Admits now p s =
      (get id_dec id s ≡ some p)
      ⊎ ((get id_dec id s ≡ none) × (size s < o.max_partials) × (p ≡ new_partial (length cs) now))

  store_chunk-missing :
      (now i : ℕ) (c : List ℕ) (p : Partial)
      → get_elem? p.chunks i ≡ some none
      → (store_chunk (frame_for i c) now p ≡ stored now i c p) × (stores (frame_for i c) p ≡ true)
  unfolding store_chunk
  store_chunk-missing now i c p m = ground arith

  push_frame-admitted :
      (now i : ℕ) (c : List ℕ) (p : Partial) (s : Table)
      → p.total ≡ length cs
      → Admits now p s
      → push_frame o now (frame_for i c) s
        ≡ finish o id (stores (frame_for i c) p) (store_chunk (frame_for i c) now p) s
  unfolding push_frame
  push_frame-admitted now i c p s e (inl h) = rw h (ground arith)
  push_frame-admitted now i c p s e (inr (h, room, new)) = rw (h, new) (ground arith)

  push_frame-missing :
      (now i : ℕ) (c : List ℕ) (p : Partial) (s : Table)
      → Gathers cs p
      → Admits now p s
      → get_elem? cs i ≡ some c
      → get_elem? p.chunks i ≡ some none
      → push_frame o now (frame_for i c) s ≡ after_chunk (stored now i c p) s
  push_frame-missing now i c p s g h e m =
      push_frame-admitted now i c p s g.total h
      ∙ rw ((store_chunk-missing now i c p m).0, (store_chunk-missing now i c p m).1)
          (finish-stored (stored now i c p) s (stored-Gathers now i c p g e m))

  push_frame_last :
      (now i : ℕ) (c : List ℕ) (p : Partial) (s : Table)
      → Gathers cs p
      → Admits now p s
      → get_elem? cs i ≡ some c
      → get_elem? p.chunks i ≡ some none
      → missing p.chunks ≡ 1
      → push_frame o now (frame_for i c) s ≡ (delete id_dec id s, message (join cs))
  push_frame_last now i c p s g h e m l =
      push_frame-missing now i c p s g h e m ∙ ground (arith, g.remaining)

  push_frame_more :
      (now i : ℕ) (c : List ℕ) (p : Partial) (s : Table) (n : ℕ)
      → Gathers cs p
      → Admits now p s
      → get_elem? cs i ≡ some c
      → get_elem? p.chunks i ≡ some none
      → missing p.chunks ≡ suc (suc n)
      → push_frame o now (frame_for i c) s ≡ (put id_dec id (stored now i c p) s, pending)
  push_frame_more now i c p s n g h e m l =
      push_frame-missing now i c p s g h e m ∙ ground (arith, g.remaining)

  -- Arrivals: the time, the place and the chunk of each frame.
  unfoldable pub feed : List (ℕ × ℕ × List ℕ) → Table → Table × List Outcome
  feed [] s = (s, [])
  feed ((now, i, c) ∷ rest) s =
      let (s', out) = push_frame o now (frame_for i c) s in
      let (t, outs) = feed rest s' in (t, out ∷ outs)

  -- Each arrival brings a chunk of the message that no earlier one has brought.
  abbrev pub Brings : Slots → List (ℕ × ℕ × List ℕ) → Type 0
  Brings os [] = Unit
  Brings os ((now, i, c) ∷ rest) =
      (get_elem? cs i ≡ some c) × (get_elem? os i ≡ some none) × Brings (set os i (some c)) rest

  pub feed_lem :
      (rest : List (ℕ × ℕ × List ℕ)) (now i : ℕ) (c : List ℕ) (p : Partial) (s : Table)
      → Gathers cs p
      → Admits now p s
      → Brings p.chunks ((now, i, c) ∷ rest)
      → missing p.chunks ≡ suc (length rest)
      → ((feed ((now, i, c) ∷ rest) s).1
          ≡ replicate (length rest) pending ++ message (join cs) ∷ [])
        × (get id_dec id (feed ((now, i, c) ∷ rest) s).0 ≡ none)
  unfolding feed
  feed_lem [] now i c p s g h b e =
      rw (push_frame_last now i c p s g h b.0 b.1 e) (refl, get-delete_self id_dec id s)
  feed_lem ((now', i', c') ∷ rest) now i c p s g h b e =
      let q = stored now i c p in
      let later =
        feed_lem rest now' i' c' q (put id_dec id q s) (stored-Gathers now i c p g b.0 b.1)
          (inl (get-put_self id_dec id q s)) b.2 (omega (arith, missing-set p.chunks i c b.1, e)) in
      rw (push_frame_more now i c p s (length rest) g h b.0 b.1 e)
        (ap (◌∷◌ pending) later.0, later.1)
