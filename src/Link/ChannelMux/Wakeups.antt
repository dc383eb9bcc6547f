-- ===== src/Link/ChannelMux/Wakeups.antt =====
-- In js/link/channel_mux.mjs a lane's flag says whether a flush of it waits as a microtask.
use fount_p2p.Base.{
  ℕ, ◌+◌, ◌≡◌, refl, Option, List, [], ◌∷◌, ◌++◌, Bool, true, false, arith, if◌then◌else◌, length,
  ◌∙◌,
}
use Prim.Native.String.{String}
use fount_p2p.Link.ChannelMux.{
  Item, Channel, control, bulk, Mux, lane, insert_item, push_item, enqueue, schedule_flush, flush,
  run_microtask, run_next, channel_or, pick_channel, resolve_action_priority,
}

abbrev pub same : Channel → Channel → Bool
same control control = true
same bulk bulk = true
same _ _ = false

abbrev pub count : Channel → List Channel → ℕ
count c [] = 0
count c (d ∷ tasks) = (if same c d then 1 else 0) + count c tasks

abbrev pub flag : Bool → ℕ
flag true = 1
flag false = 0

-- One microtask for a scheduled lane, and none for the other.
pub record IsScheduled (m : Mux) : Type 0 where
  pub control_tasks : count control m.microtasks ≡ flag m.control_lane.scheduled
  pub bulk_tasks : count bulk m.microtasks ≡ flag m.bulk_lane.scheduled

count-append : (c : Channel) (xs ys : List Channel) → count c (xs ++ ys) ≡ count c xs + count c ys
count-append c [] ys = omega arith
count-append c (d ∷ xs) ys = omega (arith, count-append c xs ys)

schedule_flush-IsScheduled :
    (c : Channel) (m : Mux) → IsScheduled m → IsScheduled (schedule_flush c m)
unfolding schedule_flush
schedule_flush-IsScheduled control m v = ground (
  arith,
  count-append control m.microtasks (control ∷ []),
  count-append bulk m.microtasks (control ∷ []),
)
schedule_flush-IsScheduled bulk m v = ground (
  arith,
  count-append control m.microtasks (bulk ∷ []),
  count-append bulk m.microtasks (bulk ∷ []),
)

schedule_flush_sets : (c : Channel) (m : Mux) → (lane c (schedule_flush c m)).scheduled ≡ true
unfolding schedule_flush
schedule_flush_sets control m = ground arith
schedule_flush_sets bulk m = ground arith

schedule_flush_queue :
    (c : Channel) (m : Mux) → (lane c (schedule_flush c m)).queue ≡ (lane c m).queue
unfolding schedule_flush
schedule_flush_queue control m = ground arith
schedule_flush_queue bulk m = ground arith

push_item-IsScheduled :
    (c : Channel) (item : Item) (m : Mux) → IsScheduled m → IsScheduled (push_item c item m)
push_item-IsScheduled control item m v = ground (arith, v.control_tasks, v.bulk_tasks)
push_item-IsScheduled bulk item m v = ground (arith, v.control_tasks, v.bulk_tasks)

push_item_queue :
    (c : Channel) (item : Item) (m : Mux)
    → (lane c (push_item c item m)).queue ≡ insert_item item (lane c m).queue
push_item_queue control item m = refl
push_item_queue bulk item m = refl

-- No wakeup is lost: in a state where each scheduled lane has one microtask, and no other has any,
-- an `enqueue` inserts the item in its lane's queue, leaves the lane scheduled and keeps the state so.
pub enqueue-IsScheduled :
    (action : String) (bytes : List ℕ) (preferred : Option Channel) (m : Mux)
    → IsScheduled m
    → let c = channel_or preferred (pick_channel action (length bytes)) in
      let after = enqueue action bytes preferred m in
      IsScheduled after
      × ((lane c after).scheduled ≡ true)
      × ((lane c after).queue
          ≡ insert_item
              (record { priority = resolve_action_priority action; seq = m.seq + 1; bytes = bytes })
              (lane c m).queue)
unfolding enqueue
enqueue-IsScheduled action bytes preferred m v =
    let c = channel_or preferred (pick_channel action (length bytes)) in
    let item : Item = record {
      priority = resolve_action_priority action;
      seq = m.seq + 1;
      bytes = bytes;
    } in
    (
      schedule_flush-IsScheduled c (push_item c item m) (push_item-IsScheduled c item m v),
      schedule_flush_sets c (push_item c item m),
      schedule_flush_queue c (push_item c item m) ∙ push_item_queue c item m,
    )

flush-IsScheduled :
    (is_open : Bool) (buffered : ℕ → ℕ) (high : ℕ) (c : Channel) (rest : List Channel) (m : Mux)
    → m.microtasks ≡ c ∷ rest
    → IsScheduled m
    → IsScheduled (flush is_open buffered high c (record m { microtasks = rest })).0
unfolding flush
flush-IsScheduled is_open buffered high control rest m e v =
    ground (arith, v.control_tasks, v.bulk_tasks)
flush-IsScheduled is_open buffered high bulk rest m e v =
    ground (arith, v.control_tasks, v.bulk_tasks)

run_next-IsScheduled :
    (is_open : Bool) (buffered : ℕ → ℕ) (high : ℕ) (tasks : List Channel) (m : Mux)
    → m.microtasks ≡ tasks
    → IsScheduled m
    → IsScheduled (run_next is_open buffered high tasks m).0
unfolding run_next
run_next-IsScheduled is_open buffered high [] m e v = v
run_next-IsScheduled is_open buffered high (c ∷ rest) m e v =
    flush-IsScheduled is_open buffered high c rest m e v

-- A microtask keeps the flags right, whether the channel is open or not: a lane is scheduled if and
-- only if just one flush of it waits.
pub run_microtask-IsScheduled :
    (is_open : Bool) (buffered : ℕ → ℕ) (high : ℕ) (m : Mux)
    → IsScheduled m
    → IsScheduled (run_microtask is_open buffered high m).0
unfolding run_microtask
run_microtask-IsScheduled is_open buffered high m v =
    run_next-IsScheduled is_open buffered high m.microtasks m refl v
