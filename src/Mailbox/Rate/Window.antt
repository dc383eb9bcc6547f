-- ===== src/Mailbox/Rate/Window.antt =====
-- js/mailbox/rate.mjs: how many puts a window allows.
use fount_p2p.Base.{
  ℕ, zero, suc, min, ◌+◌, ◌≤◌, ◌<◌, ◌≡◌, refl, ◌⊎◌, Option, none, some, List, [], ◌∷◌, Bool, true,
  false, arith, ltb, leb, if◌then◌else◌, inl, inr, length, All, Bool-cases, sym, ◌∙◌, ap, subst,
}
use fount_p2p.Base.JsMap.{size, get, put, IsMap, get-put_self, get-delete}
use fount_p2p.Core.HexIds.{Text, text_dec, is_event_id}
use fount_p2p.Mailbox.Rate.{
  Limits, Entry, Table, max_keys, expire_sweep_batch, resolve_mailbox_rate_limits,
  sweep_expired_entries, delete_oldest, evict_lru_if_needed, current, make_room, count_put,
  take_incoming_mailbox_put_slot, take_all, get-sweep,
}
use fount_p2p.Mailbox.Rate.Size.{get-touch}

-- While a window is open the entry survives the making of room.
get-make_room :
    (now : ℕ) (key : Text) (t : Table) (e : Entry)
    → get text_dec key t ≡ some e
    → now ≤ e.reset_at
    → get text_dec key (make_room now key t) ≡ some e
unfolding make_room evict_lru_if_needed
get-make_room now key t e h k = ground (arith, get-sweep expire_sweep_batch now key t e h k)

take_valid :
    (now : ℕ) (key : Text) (limits : Limits) (t : Table)
    → is_event_id key ≡ true
    → take_incoming_mailbox_put_slot now key limits t
      ≡ count_put
          (resolve_mailbox_rate_limits limits)
          key
          (current
            (resolve_mailbox_rate_limits limits)
            now
            (get text_dec key (make_room now key t)))
          (make_room now key t)
unfolding take_incoming_mailbox_put_slot
take_valid now key limits t valid = rw valid refl

current_open :
    (limits : Limits) (now : ℕ) (e : Entry) → now ≤ e.reset_at → current limits now (some e) ≡ e
current_open limits now e h = ground arith

-- What a count does: it allows and adds one, or refuses and keeps the entry.
abbrev IsCounted : Limits → Text → Entry → Bool × Table → Type 0
IsCounted limits key e r =
    ((r.0 ≡ true)
      × (e.count < limits.max_puts)
      × (get text_dec key r.1 ≡ some (record { count = suc e.count; reset_at = e.reset_at })))
    ⊎ ((r.0 ≡ false) × (limits.max_puts ≤ e.count) × (get text_dec key r.1 ≡ some e))

count_put-IsCounted :
    (limits : Limits) (key : Text) (e : Entry) (t : Table)
    → (limits.max_puts ≤ e.count → get text_dec key t ≡ some e)
    → IsCounted limits key e (count_put limits key e t)
unfolding count_put
count_put-IsCounted limits key e t h =
    let more : Entry = record { count = suc e.count; reset_at = e.reset_at } in
    elim (Bool-cases (leb limits.max_puts e.count)) [
      | inl full ↦ rw full (inr (refl, ground arith, get-touch key t ∙ h (ground arith)))
      | inr space ↦ rw space (
          inl (
            refl,
            ground arith,
            get-touch key (put text_dec key more t) ∙ get-put_self text_dec key more t,
          ))
    ]

-- One call in an open window.
take_open :
    (now : ℕ) (key : Text) (limits : Limits) (t : Table) (e : Entry)
    → is_event_id key ≡ true
    → get text_dec key t ≡ some e
    → now ≤ e.reset_at
    → IsCounted
        (resolve_mailbox_rate_limits limits)
        key
        e
        (take_incoming_mailbox_put_slot now key limits t)
take_open now key limits t e valid h k =
    let resolved = resolve_mailbox_rate_limits limits in
    let found = get-make_room now key t e h k in
    let same = ap (current resolved now) found ∙ current_open resolved now e k in
    subst (IsCounted resolved key e)
      (sym (
        take_valid now key limits t valid
        ∙ ap (λ d. count_put resolved key d (make_room now key t)) same))
      (count_put-IsCounted resolved key e (make_room now key t) (λ z. found))

take_all_open :
    (key : Text) (limits : Limits) (times : List ℕ) (t : Table) (e : Entry)
    → is_event_id key ≡ true
    → get text_dec key t ≡ some e
    → All (λ now. now ≤ e.reset_at) times
    → e.count ≤ (resolve_mailbox_rate_limits limits).max_puts
    → take_all key limits times t + e.count
      ≡ min (length times + e.count) (resolve_mailbox_rate_limits limits).max_puts
unfolding take_all
take_all_open key limits [] t e valid h times_in c = omega arith
take_all_open key limits (now ∷ times) t e valid h times_in c =
    let r = take_incoming_mailbox_put_slot now key limits t in
    elim (take_open now key limits t e valid h times_in.0) [
      | inl (allowed, space, found) ↦ ground (
        arith,
        take_all_open key limits times r.1 (record { count = suc e.count; reset_at = e.reset_at })
            valid found times_in.1 space,
      )
      | inr (refused, full, found) ↦
          ground (arith, take_all_open key limits times r.1 e valid found times_in.1 c)
    ]

get-sweep_none :
    (n now : ℕ) (key : Text) (t : Table)
    → get text_dec key t ≡ none
    → get text_dec key (sweep_expired_entries n now t) ≡ none
unfolding get sweep_expired_entries
get-sweep_none zero now key t h = h
get-sweep_none (suc n) now key [] h = h
get-sweep_none (suc n) now key ((j, d) ∷ t) h = ground (arith, get-sweep_none n now key t)

-- A new window starts: the key has no entry, or its window is over.
abbrev pub IsStale : ℕ → Option Entry → Type 0
IsStale now none = Unit
IsStale now (some e) = e.reset_at < now

IsStale-kept : (now : ℕ) (o p : Option Entry) → (o ≡ none) ⊎ (o ≡ p) → IsStale now p → IsStale now o
IsStale-kept now o p (inl e) h = subst (IsStale now) (sym e) tt
IsStale-kept now o p (inr e) h = subst (IsStale now) (sym e) h

sweep_kept :
    (n now : ℕ) (key : Text) (t : Table)
    → IsMap text_dec t
    → (get text_dec key (sweep_expired_entries n now t) ≡ none)
      ⊎ (get text_dec key (sweep_expired_entries n now t) ≡ get text_dec key t)
unfolding get sweep_expired_entries
sweep_kept zero now key t m = inr refl
sweep_kept (suc n) now key [] m = inr refl
sweep_kept (suc n) now key ((j, d) ∷ t) m = elim (text_dec j key) [
  | yes e ↦ elim (Bool-cases (ltb d.reset_at now)) [
    | inl old ↦
        inl
          (ground (arith, get-sweep_none n now key t (subst (λ k. get text_dec k t ≡ none) e m.0)))
    | inr young ↦ inr (ground arith)
  ]
  | no other ↦ ground (arith, sweep_kept n now key t m.1)
]

delete_oldest_kept :
    (key : Text) (t : Table)
    → (get text_dec key (delete_oldest t) ≡ none)
      ⊎ (get text_dec key (delete_oldest t) ≡ get text_dec key t)
delete_oldest_kept key [] = inr refl
delete_oldest_kept key ((k, d) ∷ t) = ground (arith, get-delete text_dec key k ((k, d) ∷ t))

evict_kept :
    (key : Text) (t : Table)
    → (get text_dec key (evict_lru_if_needed key t) ≡ none)
      ⊎ (get text_dec key (evict_lru_if_needed key t) ≡ get text_dec key t)
unfolding evict_lru_if_needed
evict_kept key t = ground (arith, delete_oldest_kept key t)

swept_kept :
    (now : ℕ) (key : Text) (t : Table)
    → IsMap text_dec t
    → let swept =
        if leb max_keys (size t) then sweep_expired_entries expire_sweep_batch now t else t in
      (get text_dec key swept ≡ none) ⊎ (get text_dec key swept ≡ get text_dec key t)
swept_kept now key t m = ground (arith, sweep_kept expire_sweep_batch now key t m)

make_room-IsStale :
    (now : ℕ) (key : Text) (t : Table)
    → IsMap text_dec t
    → IsStale now (get text_dec key t)
    → IsStale now (get text_dec key (make_room now key t))
unfolding make_room
make_room-IsStale now key t m h =
    let swept =
      if leb max_keys (size t) then sweep_expired_entries expire_sweep_batch now t else t in
    IsStale-kept now (get text_dec key (make_room now key t)) (get text_dec key swept)
      (evict_kept key swept)
      (IsStale-kept now (get text_dec key swept) (get text_dec key t) (swept_kept now key t m) h)

current_stale :
    (limits : Limits) (now : ℕ) (o : Option Entry)
    → IsStale now o
    → current limits now o ≡ record { count = 0; reset_at = now + limits.window_ms }
current_stale limits now none h = refl
current_stale limits now (some e) h = ground arith

-- The first call of a window.
take_stale :
    (now : ℕ) (key : Text) (limits : Limits) (t : Table)
    → is_event_id key ≡ true
    → IsMap text_dec t
    → IsStale now (get text_dec key t)
    → let resolved = resolve_mailbox_rate_limits limits in
      IsCounted resolved key
        (record { count = 0; reset_at = now + resolved.window_ms })
        (take_incoming_mailbox_put_slot now key limits t)
take_stale now key limits t valid m h =
    let resolved = resolve_mailbox_rate_limits limits in
    let e : Entry = record { count = 0; reset_at = now + resolved.window_ms } in
    let same =
      current_stale resolved now (get text_dec key (make_room now key t))
        (make_room-IsStale now key t m h) in
    subst (IsCounted resolved key e)
      (sym (
        take_valid now key limits t valid
        ∙ ap (λ d. count_put resolved key d (make_room now key t)) same))
      (count_put-IsCounted resolved key e (make_room now key t) (λ z. absurd (omega arith)))

-- Of the calls of one valid source, the first of which opens a window and the others of which fall
-- in it, just the first `max_puts` are allowed, as the limit is resolved: as many as there are
-- calls, or `max_puts` if that is less.
pub take_all_lem :
    (key : Text) (limits : Limits) (now : ℕ) (times : List ℕ) (t : Table)
    → is_event_id key ≡ true
    → IsMap text_dec t
    → IsStale now (get text_dec key t)
    → All (λ later. later ≤ now + (resolve_mailbox_rate_limits limits).window_ms) times
    → take_all key limits (now ∷ times) t
      ≡ min (length (now ∷ times)) (resolve_mailbox_rate_limits limits).max_puts
unfolding take_all
take_all_lem key limits now times t valid m h times_in =
    let resolved = resolve_mailbox_rate_limits limits in
    let r = take_incoming_mailbox_put_slot now key limits t in
    elim (take_stale now key limits t valid m h) [
      | inl (allowed, space, found) ↦ ground (
        arith,
        take_all_open key limits times r.1
            (record { count = 1; reset_at = now + resolved.window_ms }) valid found times_in space,
      )
      | inr (refused, full, found) ↦ absurd (omega arith)
    ]
