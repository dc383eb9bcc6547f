-- ===== src/Federation/WantIds.antt =====
-- js/federation/want_ids.mjs: how often a peer may ask for missing events, and how long it is put
-- off when it asks too often. The module's three maps are the state; each `Date.now()` of a call is
-- an argument, in the order in which they are read.
pub mod HoldOff
use fount_p2p.Base.{
  ℕ, zero, suc, max, min, ◌+◌, ◌*◌, ◌-◌, ◌≤◌, ◌<◌, ◌≡◌, refl, Option, none, some, List, ◌∷◌, ◌++◌,
  Bool, true, false, arith, ltb, leb, ◌==◌, if◌then◌else◌, take, sym, ◌∙◌, ap,
}
use fount_p2p.Base.JsMap.{
  JsMap, size, get, put, delete, remove_if, IsMap, get-put_self, get-remove_if, put-IsMap,
  delete-IsMap,
}
use fount_p2p.Core.HexIds.{Text, text_dec}

abbrev pub default_in_window_ms : ℕ
default_in_window_ms = 60000

abbrev pub default_in_max_batch : ℕ
default_in_max_batch = 32

abbrev pub default_out_window_ms : ℕ
default_out_window_ms = 60000

abbrev pub default_out_max_batch : ℕ
default_out_max_batch = 16

abbrev pub default_backoff_base_ms : ℕ
default_backoff_base_ms = 2000

abbrev pub default_backoff_max_ms : ℕ
default_backoff_max_ms = 120000

pub record Window : Type 0 where
  pub count : ℕ
  pub reset_at : ℕ

pub record Backoff : Type 0 where
  pub until : ℕ
  pub strikes : ℕ

pub record State : Type 0 where
  pub inbound : JsMap Text Window
  pub outbound : JsMap Text Window
  pub backoff : JsMap Text Backoff

pub record Limits : Type 0 where
  pub in_window_ms : ℕ
  pub in_max_batch : ℕ
  pub out_window_ms : ℕ
  pub out_max_batch : ℕ

unfoldable pub prune_rate_map : JsMap Text Window → ℕ → ℕ → JsMap Text Window
prune_rate_map m max_size now =
    if leb (size m) max_size then m else remove_if (λ k v. ltb (v.reset_at + 120000) now) m

-- `Number(n) || d`
abbrev pub or_default : ℕ → ℕ → ℕ
or_default n d = if n == 0 then d else n

-- A limit that is missing is 0.
abbrev pub resolve_want_ids_limits : Limits → Limits
resolve_want_ids_limits limits = record {
  in_window_ms = max 1000 (or_default limits.in_window_ms default_in_window_ms);
  in_max_batch = max 1 (min 256 (or_default limits.in_max_batch default_in_max_batch));
  out_window_ms = max 1000 (or_default limits.out_window_ms default_out_window_ms);
  out_max_batch = max 1 (min 256 (or_default limits.out_max_batch default_out_max_batch));
}

-- The ids with a zero unit between them.
abbrev pub want_ids_peer_key : Text → Text → Text
want_ids_peer_key group_id peer_id = group_id ++ 0 ∷ peer_id

abbrev pub want_ids_group_key : Text → Text
want_ids_group_key group_id = group_id

-- The answer, and the map without the key if its time is over.
unfoldable pub is_want_ids_in_backoff : ℕ → Text → JsMap Text Backoff → Bool × JsMap Text Backoff
is_want_ids_in_backoff now key m = elim (get text_dec key m) [
  | none ↦ (false, m)
  | some b ↦ if ltb now b.until then (true, m) else (false, delete text_dec key m)
]

-- `2 ** n`
unfoldable pub power_of_two : ℕ → ℕ
power_of_two zero = 1
power_of_two (suc n) = 2 * power_of_two n

unfoldable pub backoff_delay : ℕ → ℕ
backoff_delay strikes =
    min default_backoff_max_ms (default_backoff_base_ms * power_of_two (min (strikes - 1) 6))

-- `(prev?.strikes ?? 0) + 1`
abbrev pub next_strikes : Option Backoff → ℕ
next_strikes none = 1
next_strikes (some b) = b.strikes + 1

unfoldable pub record_want_ids_backoff : ℕ → Text → JsMap Text Backoff → JsMap Text Backoff
record_want_ids_backoff now key m =
    let strikes = next_strikes (get text_dec key m) in
    let m' =
      put text_dec key (record { until = now + backoff_delay strikes; strikes = strikes }) m in
    if ltb 12000 (size m') then remove_if (λ k v. ltb v.until now) m' else m'

-- The key's window, or a new one when it has none or its window is over.
abbrev pub current : ℕ → ℕ → Option Window → Window
current window_ms now none = record { count = 0; reset_at = now + window_ms }
current window_ms now (some w) =
    if ltb w.reset_at now then record { count = 0; reset_at = now + window_ms } else w

-- What both directions do once the key is not held off: the answer, the windows and the backoffs.
unfoldable pub take_from_window :
    ℕ
    → ℕ
    → ℕ
    → ℕ
    → ℕ
    → Text
    → JsMap Text Window
    → JsMap Text Backoff
    → Bool × JsMap Text Window × JsMap Text Backoff
take_from_window window_ms max_batch map_max now again key windows backoff =
    let w = current window_ms now (get text_dec key windows) in
    if leb max_batch w.count then (false, windows, record_want_ids_backoff again key backoff) else (
      true,
      prune_rate_map
          (put text_dec key (record { count = suc w.count; reset_at = w.reset_at }) windows) map_max
          now,
      backoff,
    )

unfoldable pub take_incoming_want_ids_slot : ℕ → ℕ → ℕ → Text → Text → Limits → State → Bool × State
take_incoming_want_ids_slot at now again group_id requester_id limits s =
    let resolved = resolve_want_ids_limits limits in
    let key = want_ids_peer_key group_id requester_id in
    let (held, backoff) = is_want_ids_in_backoff at key s.backoff in
    let (allowed, inbound, backoff') =
      take_from_window resolved.in_window_ms resolved.in_max_batch 8000 now again key s.inbound
        backoff in
    if held
    then (false, record s { backoff = backoff })
    else (allowed, record { inbound = inbound; outbound = s.outbound; backoff = backoff' })

unfoldable pub take_outgoing_want_ids_slot : ℕ → ℕ → ℕ → Text → Limits → State → Bool × State
take_outgoing_want_ids_slot at now again group_id limits s =
    let resolved = resolve_want_ids_limits limits in
    let key = want_ids_group_key group_id in
    let (held, backoff) = is_want_ids_in_backoff at key s.backoff in
    let (allowed, outbound, backoff') =
      take_from_window resolved.out_window_ms resolved.out_max_batch 4000 now again key s.outbound
        backoff in
    if held
    then (false, record s { backoff = backoff })
    else (allowed, record { inbound = s.inbound; outbound = outbound; backoff = backoff' })

abbrev pub batch_want_ids : List Text → ℕ → List Text
batch_want_ids want_ids budget =
    take (max 1 (min 256 (or_default budget default_out_max_batch))) want_ids
