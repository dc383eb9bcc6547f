-- ===== src/Link/ChannelMux.antt =====
-- js/link/channel_mux.mjs: two send queues, ordered by priority and then by arrival, that are
-- flushed in microtasks up to a high watermark. A channel is read through its state and its
-- buffered amount before each send, both given by the environment.
pub mod Insertion
pub mod Order
pub mod Sending
pub mod Wakeups
use text.Mathlib.Text.{◌==◌ as str_eq, starts_with}
use Prim.Native.String.{String}
use fount_p2p.Base.{
  ℕ, zero, suc, max, min, ◌+◌, ◌-◌, ◌*◌, ◌/◌, ◌≤◌, ◌<◌, ◌≡◌, refl, ◌⊎◌, Option, none, some, List,
  [], ◌∷◌, ◌++◌, Bool, true, false, arith, ltb, leb, ◌==◌, if◌then◌else◌, inl, inr, ◌&&◌, ◌||◌,
  length, take, drop, get_elem?, map,
}
use fount_p2p.Base.Int.{ℤ, pos, negsuc, sub_ℕ, is_negative}

abbrev pub channel_low_threshold_bytes : ℕ
channel_low_threshold_bytes = 256 * 1024

abbrev pub channel_high_watermark_bytes : ℕ
channel_high_watermark_bytes = 1024 * 1024

abbrev pub bulk_channel_min_bytes : ℕ
bulk_channel_min_bytes = 64 * 1024

pub data Channel : Type 0 where
  control bulk : Channel

pub Channel-discrete : Discrete Channel
Channel-discrete = hlevel

abbrev pub default_action_priorities : List (String × ℕ)
default_action_priorities =
    ("dag_event", 0)
    ∷ ("gossip_request", 1)
    ∷ ("gossip_response", 2)
    ∷ ("channel_history_want", 2)
    ∷ ("fed_bootstrap_request", 2)
    ∷ ("fed_bootstrap_response", 2)
    ∷ ("fed_join_snapshot_request", 2)
    ∷ ("fed_archive_month_want", 2)
    ∷ ("fed_archive_month_response", 2)
    ∷ ("mailbox_put", 2)
    ∷ ("mailbox_want", 2)
    ∷ ("mailbox_give", 2)
    ∷ ("fed_tip_ping", 3)
    ∷ ("discovery_announce", 3)
    ∷ ("discovery_query", 3)
    ∷ ("discovery_query_response", 3)
    ∷ ("part_invoke", 3)
    ∷ ("part_invoke_response", 3)
    ∷ ("part_query_req", 5)
    ∷ ("part_query_res", 5)
    ∷ ("char_rpc", 3)
    ∷ ("fed_chunk_put", 5)
    ∷ ("fed_chunk_get", 5)
    ∷ ("fed_chunk_data", 5)
    ∷ ("fed_chunk_ack", 5)
    ∷ ("fed_manifest_get", 5)
    ∷ ("fed_manifest_data", 5)
    ∷ ("fed_partition_bridge", 5)
    ∷ ("fed_volatile", 10)
    ∷ []

-- The members that a plain object of the host inherits: functions and an object.
abbrev pub inherited_members : List String
inherited_members =
    "constructor" ∷ "__defineGetter__" ∷ "__defineSetter__" ∷ "hasOwnProperty" ∷ "__lookupGetter__"
    ∷ "__lookupSetter__" ∷ "isPrototypeOf" ∷ "propertyIsEnumerable" ∷ "toString" ∷ "valueOf"
    ∷ "__proto__" ∷ "toLocaleString" ∷ []

unfoldable pub is_inherited : List String → String → Bool
is_inherited [] action = false
is_inherited (name ∷ names) action = str_eq name action || is_inherited names action

-- `priorities[action] ?? 5`. None stands for what an inherited member gives, which is not nullish, and
-- is NaN where a number is asked for.
unfoldable pub priority_in : List (String × ℕ) → String → Option ℕ
priority_in [] action = if is_inherited inherited_members action then none else some 5
priority_in ((name, p) ∷ rest) action =
    if str_eq name action then some p else priority_in rest action

unfoldable pub resolve_action_priority : String → Option ℕ
unfolding priority_in
resolve_action_priority action = priority_in default_action_priorities action

-- `priority <= limit`, which is false for NaN.
abbrev pub is_at_most : Option ℕ → ℕ → Bool
is_at_most none limit = false
is_at_most (some p) limit = leb p limit

unfoldable pub pick_channel : String → ℕ → Channel
pick_channel action byte_length =
    if str_eq action "ping" || str_eq action "pong" || starts_with action "route_"
    then control
    else if ltb bulk_channel_min_bytes byte_length
    then bulk
    else if is_at_most (resolve_action_priority action) 3
    then control
    else bulk

pub record Item : Type 0 where
  pub priority : Option ℕ
  pub seq : ℕ
  pub bytes : List ℕ

pub record Lane : Type 0 where
  pub queue : List Item
  pub scheduled : Bool

pub record Mux : Type 0 where
  pub control_lane : Lane
  pub bulk_lane : Lane
  pub seq : ℕ
  -- The flushes that wait as microtasks, the next one first.
  pub microtasks : List Channel

abbrev pub lane : Channel → Mux → Lane
lane control m = m.control_lane
lane bulk m = m.bulk_lane

abbrev pub with_lane : Channel → Lane → Mux → Mux
with_lane control l m = record m { control_lane = l }
with_lane bulk l m = record m { bulk_lane = l }

-- `priority - other || by_seq`: 0 and NaN both give way to the numbers of the items.
abbrev pub compare_priorities : Option ℕ → Option ℕ → ℤ → ℤ
compare_priorities (some p) (some q) by_seq = if p == q then by_seq else sub_ℕ p q
compare_priorities (some p) none by_seq = by_seq
compare_priorities none q by_seq = by_seq

unfoldable pub compare_items : Item → Item → ℤ
compare_items item other =
    compare_priorities item.priority other.priority (sub_ℕ item.seq other.seq)

abbrev pub goes_before : Item → Item → Bool
goes_before item other = is_negative (compare_items item other)

-- Is the entry of the queue at `mid` one that the new item goes before?
abbrev pub test_at : {A : Type 0} → (A → Bool) → Option A → Bool
test_at before none = false
test_at before (some x) = before x

-- The binary search of `enqueue`, on fuel.
unfoldable pub search : {A : Type 0} → (A → Bool) → ℕ → ℕ → ℕ → List A → ℕ
search before zero lo hi queue = lo
search before (suc fuel) lo hi queue = elim (ltb lo hi) [
  | false ↦ lo
  | true ↦ elim (test_at before (get_elem? queue ((lo + hi) / 2))) [
    | true ↦ search before fuel lo ((lo + hi) / 2) queue
    | false ↦ search before fuel ((lo + hi) / 2 + 1) hi queue
  ]
]

-- `queue.splice(lo, 0, item)`
abbrev pub splice_in : {A : Type 0} → ℕ → A → List A → List A
splice_in lo item queue = take lo queue ++ item ∷ drop lo queue

unfoldable pub insert_item : Item → List Item → List Item
insert_item item queue =
    splice_in (search (goes_before item) (length queue) 0 (length queue) queue) item queue

unfoldable pub schedule_flush : Channel → Mux → Mux
schedule_flush c m =
    if (lane c m).scheduled
    then m
    else (let s = with_lane c (record { queue = (lane c m).queue; scheduled = true }) m in
        record s { microtasks = m.microtasks ++ c ∷ [] })

abbrev pub channel_or : Option Channel → Channel → Channel
channel_or none d = d
channel_or (some c) d = c

-- The item takes the next number and its place in the queue.
abbrev pub push_item : Channel → Item → Mux → Mux
push_item c item m =
    record (with_lane c
      (record { queue = insert_item item (lane c m).queue; scheduled = (lane c m).scheduled }) m) {
        seq = m.seq + 1;
      }

unfoldable pub enqueue : String → List ℕ → Option Channel → Mux → Mux
enqueue action bytes preferred m =
    let c = channel_or preferred (pick_channel action (length bytes)) in
    let item : Item = record {
      priority = resolve_action_priority action;
      seq = m.seq + 1;
      bytes = bytes;
    } in
    schedule_flush c (push_item c item m)

-- The loop of `flush`: `buffered n` is the buffered amount after `n` sends. The items sent, and the
-- rest.
unfoldable pub drain : (ℕ → ℕ) → ℕ → ℕ → List Item → List Item × List Item
drain buffered high sent [] = ([], [])
drain buffered high sent (item ∷ queue) =
    let (out, rest) = drain buffered high (suc sent) queue in
    if ltb high (buffered sent) then ([], item ∷ queue) else (item ∷ out, rest)

-- The microtask: an open channel takes what the watermark lets through.
unfoldable pub flush : Bool → (ℕ → ℕ) → ℕ → Channel → Mux → Mux × List Item
flush is_open buffered high c m =
    let queue = (lane c m).queue in
    let (out, rest) = drain buffered high 0 queue in
    if is_open
    then (with_lane c (record { queue = rest; scheduled = false }) m, out)
    else (with_lane c (record { queue = queue; scheduled = false }) m, [])

unfoldable pub run_next : Bool → (ℕ → ℕ) → ℕ → List Channel → Mux → Mux × List Item
run_next is_open buffered high [] m = (m, [])
run_next is_open buffered high (c ∷ rest) m =
    flush is_open buffered high c (record m { microtasks = rest })

-- The event loop runs the next microtask.
unfoldable pub run_microtask : Bool → (ℕ → ℕ) → ℕ → Mux → Mux × List Item
unfolding run_next
run_microtask is_open buffered high m = run_next is_open buffered high m.microtasks m

unfoldable pub flush_all : Option Channel → Mux → Mux
flush_all (some c) m = schedule_flush c m
flush_all none m = schedule_flush bulk (schedule_flush control m)

abbrev pub pending : Mux → ℕ × ℕ
pending m = (length m.control_lane.queue, length m.bulk_lane.queue)

unfoldable pub clear : Mux → Mux
clear m = record m {
  control_lane = record { queue = []; scheduled = m.control_lane.scheduled };
  bulk_lane = record { queue = []; scheduled = m.bulk_lane.scheduled };
}
