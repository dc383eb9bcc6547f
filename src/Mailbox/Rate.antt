-- ===== src/Mailbox/Rate.antt =====
-- js/mailbox/rate.mjs: how many puts a source node may make in a window. The module's `Map` is the
-- state; a time is in milliseconds, read once for each call.
pub mod Size
pub mod Window
use fount_p2p.Base.{
  ℕ, zero, suc, max, min, ◌+◌, ◌≤◌, ◌<◌, ◌≡◌, refl, ◌≢◌, ◌⊎◌, Option, none, some, List, [], ◌∷◌,
  Bool, true, false, arith, ltb, leb, ◌==◌, if◌then◌else◌, ◌||◌, not, inl, inr, length, All,
  Bool-cases, is_some,
}
use fount_p2p.Base.JsMap.{
  JsMap, size, get, has, put, delete, size-put-le, size-put_present, size-delete-lt, get-put_self,
  get-delete_self,
}
use fount_p2p.Core.HexIds.{Text, text_dec, is_event_id}

abbrev pub default_window_ms : ℕ
default_window_ms = 60000

abbrev pub default_max_puts : ℕ
default_max_puts = 20

abbrev pub max_keys : ℕ
max_keys = 8000

abbrev pub expire_sweep_batch : ℕ
expire_sweep_batch = 64

pub record Limits : Type 0 where
  pub window_ms : ℕ
  pub max_puts : ℕ

-- `Number(n) || d`
abbrev pub or_default : ℕ → ℕ → ℕ
or_default n d = if n == 0 then d else n

-- A limit that is missing is 0.
abbrev pub resolve_mailbox_rate_limits : Limits → Limits
resolve_mailbox_rate_limits limits = record {
  window_ms = max 1000 (or_default limits.window_ms default_window_ms);
  max_puts = max 1 (min 256 (or_default limits.max_puts default_max_puts));
}

pub record Entry : Type 0 where
  pub count : ℕ
  pub reset_at : ℕ

abbrev pub Table : Type 0
Table = JsMap Text Entry

-- The scan of the first `batch` entries.
unfoldable pub sweep_expired_entries : ℕ → ℕ → Table → Table
sweep_expired_entries zero now t = t
sweep_expired_entries (suc batch) now [] = []
sweep_expired_entries (suc batch) now ((k, e) ∷ t) =
    let rest = sweep_expired_entries batch now t in
    if ltb e.reset_at now then rest else (k, e) ∷ rest

unfoldable pub touch_lru_key : Text → Table → Table
touch_lru_key key t = elim (get text_dec key t) [
  | none ↦ t
  | some e ↦ put text_dec key e (delete text_dec key t)
]

abbrev pub delete_oldest : Table → Table
delete_oldest [] = []
delete_oldest ((k, e) ∷ t) = delete text_dec k ((k, e) ∷ t)

unfoldable pub evict_lru_if_needed : Text → Table → Table
evict_lru_if_needed key t =
    if has text_dec key t || ltb (size t) max_keys then t else delete_oldest t

-- The key's entry, or a new one when it has none or the window is over.
abbrev pub current : Limits → ℕ → Option Entry → Entry
current limits now none = record { count = 0; reset_at = now + limits.window_ms }
current limits now (some e) =
    if ltb e.reset_at now then record { count = 0; reset_at = now + limits.window_ms } else e

-- The table before the key is counted.
unfoldable pub make_room : ℕ → Text → Table → Table
make_room now key t =
    evict_lru_if_needed key
      (if leb max_keys (size t) then sweep_expired_entries expire_sweep_batch now t else t)

unfoldable pub count_put : Limits → Text → Entry → Table → Bool × Table
count_put limits key e t = if leb limits.max_puts e.count then (false, touch_lru_key key t) else (
  true,
  touch_lru_key key (put text_dec key (record { count = suc e.count; reset_at = e.reset_at }) t),
)

unfoldable pub take_incoming_mailbox_put_slot : ℕ → Text → Limits → Table → Bool × Table
take_incoming_mailbox_put_slot now key limits t =
    if not (is_event_id key)
    then (false, t)
    else let room = make_room now key t in
      let resolved = resolve_mailbox_rate_limits limits in
      count_put resolved key (current resolved now (get text_dec key room)) room

-- The calls of one source, at these times, and how many of them were allowed.
unfoldable pub take_all : Text → Limits → List ℕ → Table → ℕ
take_all key limits [] t = 0
take_all key limits (now ∷ times) t =
    let r = take_incoming_mailbox_put_slot now key limits t in
    (if r.0 then 1 else 0) + take_all key limits times r.1

pub size-sweep-le : (n now : ℕ) (t : Table) → size (sweep_expired_entries n now t) ≤ size t
unfolding sweep_expired_entries
size-sweep-le zero now t = omega arith
size-sweep-le (suc n) now [] = omega arith
size-sweep-le (suc n) now ((k, e) ∷ t) = ground (arith, size-sweep-le n now t)

pub get-sweep :
    (n now : ℕ) (key : Text) (t : Table) (e : Entry)
    → get text_dec key t ≡ some e
    → now ≤ e.reset_at
    → get text_dec key (sweep_expired_entries n now t) ≡ some e
unfolding get sweep_expired_entries
get-sweep zero now key t e h k = h
get-sweep (suc n) now key [] e h k = h
get-sweep (suc n) now key ((j, d) ∷ t) e h k = ground (arith, get-sweep n now key t e)

pub size-evict-lt :
    (key : Text) (t : Table)
    → size t ≤ max_keys
    → get text_dec key (evict_lru_if_needed key t) ≡ none
    → size (evict_lru_if_needed key t) < max_keys
unfolding get evict_lru_if_needed
size-evict-lt key [] h k = ground arith
size-evict-lt key ((j, e) ∷ t) h k =
    ground (arith, size-delete-lt text_dec j ((j, e) ∷ t) (ground arith))
