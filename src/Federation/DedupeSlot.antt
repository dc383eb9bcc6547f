-- ===== src/Federation/DedupeSlot.antt =====
-- js/federation/dedupe_slot.mjs: a key counts once in a while, over the map of js/utils/lru.mjs.
use fount_p2p.Base.{
  ℕ, zero, suc, ◌+◌, ◌≤◌, ◌<◌, ◌≡◌, none, some, [], ◌∷◌, Bool, true, false, arith, ltb, ◌==◌,
  if◌then◌else◌, ◌++◌, Option-cases, inl, inr,
}
use fount_p2p.Base.JsMap.{
  JsMap, size, get, delete, delete-append, put_absent, get-delete, get-delete_self,
}
use fount_p2p.Core.HexIds.{Text, text_dec}
use fount_p2p.Utils.Lru.{drop_oldest, evict, move_to_end, touch}

-- `Number(options.maxSize) || 2000`; an option that is missing is 0.
abbrev pub resolve_max_size : ℕ → ℕ
resolve_max_size n = if n == 0 then 2000 else n

abbrev pub resolve_ttl_ms : ℕ → ℕ
resolve_ttl_ms n = if n == 0 then 30000 else n

-- The closure that `createDedupeSlot` returns: true for the first in a while.
unfoldable pub take_slot : ℕ → ℕ → ℕ → Text → JsMap Text ℕ → Bool × JsMap Text ℕ
take_slot max_size ttl_ms now key seen = elim (get text_dec key seen) [
  | none ↦ (true, touch text_dec max_size key now seen)
  | some seen_at ↦
      if ltb now (seen_at + ttl_ms)
      then (false, seen)
      else (true, touch text_dec max_size key now (delete text_dec key seen))
]

get-append_new :
    (key : Text) (v : ℕ) (m : JsMap Text ℕ)
    → get text_dec key m ≡ none
    → get text_dec key (m ++ (key, v) ∷ []) ≡ some v
unfolding get
get-append_new key v [] h = ground arith
get-append_new key v ((j, w) ∷ m) h = ground (arith, get-append_new key v m)

drop_oldest-append :
    (j key : Text) (w v : ℕ) (m : JsMap Text ℕ)
    → get text_dec key ((j, w) ∷ m) ≡ none
    → drop_oldest text_dec ((j, w) ∷ m ++ (key, v) ∷ []) ≡ delete text_dec j m ++ (key, v) ∷ []
unfolding get delete drop_oldest
drop_oldest-append j key w v m h = ground (arith, delete-append text_dec j m ((key, v) ∷ []))

get-delete-none :
    (j key : Text) (w : ℕ) (m : JsMap Text ℕ)
    → get text_dec key ((j, w) ∷ m) ≡ none
    → get text_dec key (delete text_dec j m) ≡ none
unfolding get
get-delete-none j key w m h = ground (arith, get-delete text_dec key j m)

-- The eviction never reaches the newest key.
get-evict :
    (fuel max_size : ℕ) (key : Text) (v : ℕ) (m : JsMap Text ℕ)
    → 1 ≤ max_size
    → get text_dec key m ≡ none
    → get text_dec key (evict text_dec fuel max_size (m ++ (key, v) ∷ [])) ≡ some v
unfolding evict
get-evict zero max_size key v m h k = get-append_new key v m k
get-evict (suc fuel) max_size key v [] h k = ground (arith, get-append_new key v [] k)
get-evict (suc fuel) max_size key v ((j, w) ∷ m) h k = ground (
  arith,
  drop_oldest-append j key w v m k,
  get-evict fuel max_size key v (delete text_dec j m) h (get-delete-none j key w m k),
  get-append_new key v ((j, w) ∷ m) k,
)

get-touch :
    (max_size now : ℕ) (key : Text) (m : JsMap Text ℕ)
    → 1 ≤ max_size
    → get text_dec key m ≡ none
    → get text_dec key (touch text_dec max_size key now m) ≡ some now
unfolding touch move_to_end
get-touch max_size now key m h k =
    rw (k, put_absent text_dec key now m k)
      (get-evict (size (m ++ (key, now) ∷ [])) max_size key now m h k)

get-take_slot :
    (max_size ttl_ms now : ℕ) (key : Text) (seen : JsMap Text ℕ)
    → 1 ≤ max_size
    → (take_slot max_size ttl_ms now key seen).0 ≡ true
    → get text_dec key (take_slot max_size ttl_ms now key seen).1 ≡ some now
unfolding take_slot
get-take_slot max_size ttl_ms now key seen h allowed = elim (Option-cases (get text_dec key seen)) [
  | inl missing ↦ ground (arith, get-touch max_size now key seen h missing)
  | inr (seen_at, found) ↦ ground (
    arith,
    get-touch max_size now key (delete text_dec key seen) h (get-delete_self text_dec key seen),
  )
]

take_slot_soon :
    (max_size ttl_ms seen_at later : ℕ) (key : Text) (seen : JsMap Text ℕ)
    → get text_dec key seen ≡ some seen_at
    → later < seen_at + ttl_ms
    → take_slot max_size ttl_ms later key seen ≡ (false, seen)
unfolding take_slot
take_slot_soon max_size ttl_ms seen_at later key seen h soon = ground arith

-- When a key has been let through, the same key is refused at every time less than `ttl_ms` later,
-- and the refusal leaves the map as it is, if the map has room for a key.
pub take_slot_lem :
    (max_size ttl_ms now later : ℕ) (key : Text) (seen : JsMap Text ℕ)
    → 1 ≤ max_size
    → later < now + ttl_ms
    → (take_slot max_size ttl_ms now key seen).0 ≡ true
    → let after = (take_slot max_size ttl_ms now key seen).1 in
      take_slot max_size ttl_ms later key after ≡ (false, after)
take_slot_lem max_size ttl_ms now later key seen h soon allowed =
    take_slot_soon max_size ttl_ms now later key (take_slot max_size ttl_ms now key seen).1
      (get-take_slot max_size ttl_ms now key seen h allowed) soon
