-- ===== src/Mailbox/Rate/Size.antt =====
-- js/mailbox/rate.mjs: the size of the table.
use fount_p2p.Base.{
  ℕ, suc, ◌≤◌, ◌<◌, ◌≡◌, none, [], ◌∷◌, arith, leb, if◌then◌else◌, inl, inr, Bool-cases,
  Option-cases,
}
use fount_p2p.Base.JsMap.{
  size, get, put, delete, size-put-le, size-put_present, size-delete-lt, size-delete-le,
  get-put_self,
}
use fount_p2p.Core.HexIds.{Text, text_dec, is_event_id}
use fount_p2p.Mailbox.Rate.{
  Limits, Entry, Table, max_keys, expire_sweep_batch, resolve_mailbox_rate_limits,
  sweep_expired_entries, touch_lru_key, delete_oldest, evict_lru_if_needed, current, make_room,
  count_put, take_incoming_mailbox_put_slot, size-sweep-le, size-evict-lt,
}

pub get-touch :
    (key : Text) (t : Table) → get text_dec key (touch_lru_key key t) ≡ get text_dec key t
unfolding touch_lru_key
get-touch key t = elim (Option-cases (get text_dec key t)) [
  | inl e ↦ rw (e, touch_lru_key) e
  | inr (d, e) ↦ rw (e, touch_lru_key) (get-put_self text_dec key d (delete text_dec key t))
]

size-touch-le : (key : Text) (t : Table) → size (touch_lru_key key t) ≤ size t
unfolding touch_lru_key
size-touch-le key t = elim (Option-cases (get text_dec key t)) [
  | inl e ↦ rw (e, touch_lru_key) (omega arith)
  | inr (d, e) ↦
      rw (e, touch_lru_key)
        (omega (
          arith,
          size-put-le text_dec key d (delete text_dec key t),
          size-delete-lt text_dec key t (λ h. cc (h, e)),
        ))
]

size-delete_oldest-le : (t : Table) → size (delete_oldest t) ≤ size t
size-delete_oldest-le [] = omega arith
size-delete_oldest-le ((k, e) ∷ t) = size-delete-le text_dec k ((k, e) ∷ t)

size-evict-le : (key : Text) (t : Table) → size (evict_lru_if_needed key t) ≤ size t
unfolding evict_lru_if_needed
size-evict-le key t = ground (arith, size-delete_oldest-le t)

size-swept-le :
    (now : ℕ) (t : Table)
    → size (if leb max_keys (size t) then sweep_expired_entries expire_sweep_batch now t else t)
      ≤ size t
size-swept-le now t = ground (arith, size-sweep-le expire_sweep_batch now t)

size-make_room-le : (now : ℕ) (key : Text) (t : Table) → size (make_room now key t) ≤ size t
unfolding make_room
size-make_room-le now key t =
    let swept =
      if leb max_keys (size t) then sweep_expired_entries expire_sweep_batch now t else t in
    omega (arith, size-swept-le now t, size-evict-le key swept)

size-make_room-lt :
    (now : ℕ) (key : Text) (t : Table)
    → size t ≤ max_keys
    → get text_dec key (make_room now key t) ≡ none
    → size (make_room now key t) < max_keys
unfolding make_room
size-make_room-lt now key t h k =
    size-evict-lt key
      (if leb max_keys (size t) then sweep_expired_entries expire_sweep_batch now t else t)
      (omega (arith, size-swept-le now t)) k

size-put_room-le :
    (now : ℕ) (key : Text) (e : Entry) (t : Table)
    → size t ≤ max_keys
    → size (put text_dec key e (make_room now key t)) ≤ max_keys
size-put_room-le now key e t h = elim (Option-cases (get text_dec key (make_room now key t))) [
  | inl missing ↦ omega (
    arith,
    size-put-le text_dec key e (make_room now key t),
    size-make_room-lt now key t h missing,
  )
  | inr (d, found) ↦ omega (
    arith,
    size-put_present text_dec key e (make_room now key t) (λ z. cc (z, found)),
    size-make_room-le now key t,
  )
]

size-count_put-le :
    (limits : Limits) (now : ℕ) (key : Text) (e : Entry) (t : Table)
    → size t ≤ max_keys
    → size (count_put limits key e (make_room now key t)).1 ≤ max_keys
unfolding count_put
size-count_put-le limits now key e t h =
    let counted =
      put text_dec key (record { count = suc e.count; reset_at = e.reset_at })
        (make_room now key t) in
    ground (
      arith,
      size-touch-le key (make_room now key t),
      size-touch-le key counted,
      size-make_room-le now key t,
      size-put_room-le now key (record { count = suc e.count; reset_at = e.reset_at }) t h,
    )

-- A call leaves at most `max_keys` keys in a table that has at most so many, whatever the key, the
-- limits and the time.
pub size-take_incoming_mailbox_put_slot-le :
    (now : ℕ) (key : Text) (limits : Limits) (t : Table)
    → size t ≤ max_keys
    → size (take_incoming_mailbox_put_slot now key limits t).1 ≤ max_keys
unfolding take_incoming_mailbox_put_slot
size-take_incoming_mailbox_put_slot-le now key limits t h = elim (Bool-cases (is_event_id key)) [
  | inr bad ↦ ground arith
  | inl good ↦
      let resolved = resolve_mailbox_rate_limits limits in
      ground (
        arith,
        size-count_put-le resolved now key
            (current resolved now (get text_dec key (make_room now key t))) t h,
      )
]
