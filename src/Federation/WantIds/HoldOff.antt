-- ===== src/Federation/WantIds/HoldOff.antt =====
-- js/federation/want_ids.mjs: a peer that is refused is held off.
use fount_p2p.Base.{
  ℕ, zero, suc, min, ◌+◌, ◌-◌, ◌≤◌, ◌<◌, ◌≡◌, refl, some, Bool, true, false, arith, ltb, sym, ◌∙◌,
  ap,
}
use fount_p2p.Base.JsMap.{
  JsMap, get, put, IsMap, get-put_self, get-remove_if, put-IsMap, delete-IsMap,
}
use fount_p2p.Core.HexIds.{Text, text_dec}
use fount_p2p.Federation.WantIds.{
  default_backoff_base_ms, default_backoff_max_ms, Window, Backoff, State, Limits,
  resolve_want_ids_limits, want_ids_peer_key, is_want_ids_in_backoff, power_of_two, backoff_delay,
  next_strikes, record_want_ids_backoff, take_from_window, take_incoming_want_ids_slot,
}

power_of_two-pos : (n : ℕ) → 1 ≤ power_of_two n
unfolding power_of_two
power_of_two-pos zero = omega arith
power_of_two-pos (suc n) = omega (arith, power_of_two-pos n)

-- Every delay is at least the base and at most the maximum.
backoff_delay-bounds :
    (strikes : ℕ)
    → (default_backoff_base_ms ≤ backoff_delay strikes)
      × (backoff_delay strikes ≤ default_backoff_max_ms)
unfolding backoff_delay
backoff_delay-bounds strikes = (omega (arith, power_of_two-pos (min (strikes - 1) 6)), omega arith)

get-record_want_ids_backoff :
    (now : ℕ) (key : Text) (m : JsMap Text Backoff)
    → IsMap text_dec m
    → let strikes = next_strikes (get text_dec key m) in
      get text_dec key (record_want_ids_backoff now key m)
      ≡ some (record { until = now + backoff_delay strikes; strikes = strikes })
unfolding record_want_ids_backoff
get-record_want_ids_backoff now key m h =
    let strikes = next_strikes (get text_dec key m) in
    let b : Backoff = record { until = now + backoff_delay strikes; strikes = strikes } in
    ground (
      arith,
      get-put_self text_dec key b m,
      get-remove_if text_dec (λ k v. ltb v.until now) key (put text_dec key b m) b
          (put-IsMap text_dec key b m h) (get-put_self text_dec key b m),
    )

is_want_ids_in_backoff-IsMap :
    (now : ℕ) (key : Text) (m : JsMap Text Backoff)
    → IsMap text_dec m
    → IsMap text_dec (is_want_ids_in_backoff now key m).1
unfolding is_want_ids_in_backoff
is_want_ids_in_backoff-IsMap now key m h = ground (arith, delete-IsMap text_dec key m h)

held_off :
    (later : ℕ) (key : Text) (m : JsMap Text Backoff) (b : Backoff)
    → get text_dec key m ≡ some b
    → later < b.until
    → is_want_ids_in_backoff later key m ≡ (true, m)
unfolding is_want_ids_in_backoff
held_off later key m b h k = ground arith

-- A refusal by the window is recorded.
get-take_from_window :
    (window_ms max_batch map_max now again : ℕ) (key : Text) (windows : JsMap Text Window)
    (backoff : JsMap Text Backoff)
    → IsMap text_dec backoff
    → (take_from_window window_ms max_batch map_max now again key windows backoff).0 ≡ false
    → get text_dec key
        (take_from_window window_ms max_batch map_max now again key windows backoff).2
      ≡ some (record {
        until = again + backoff_delay (next_strikes (get text_dec key backoff));
        strikes = next_strikes (get text_dec key backoff);
      })
unfolding take_from_window
get-take_from_window window_ms max_batch map_max now again key windows backoff m h =
    ground (arith, get-record_want_ids_backoff again key backoff m)

module _ (group_id requester_id : Text) (limits : Limits) where
  abbrev take_incoming : ℕ → ℕ → ℕ → State → Bool × State
  take_incoming at now again s =
      take_incoming_want_ids_slot at now again group_id requester_id limits s

  -- A call of a peer that is not held off.
  take_incoming-free :
      (at now again : ℕ) (s : State)
      → (is_want_ids_in_backoff at (want_ids_peer_key group_id requester_id) s.backoff).0 ≡ false
      → let key = want_ids_peer_key group_id requester_id in
        let resolved = resolve_want_ids_limits limits in
        let (allowed, inbound, backoff) =
          take_from_window resolved.in_window_ms resolved.in_max_batch 8000 now again key s.inbound
            (is_want_ids_in_backoff at key s.backoff).1 in
        take_incoming at now again s
        ≡ (allowed, record { inbound = inbound; outbound = s.outbound; backoff = backoff })
  unfolding take_incoming_want_ids_slot
  take_incoming-free at now again s free = rw free refl

  take_incoming-refused :
      (at now again : ℕ) (s : State)
      → IsMap text_dec s.backoff
      → (is_want_ids_in_backoff at (want_ids_peer_key group_id requester_id) s.backoff).0 ≡ false
      → (take_incoming at now again s).0 ≡ false
      → (b : Backoff) × (get text_dec
            (want_ids_peer_key group_id requester_id)
            (take_incoming at now again s).1.backoff
          ≡ some b)
        × (again + default_backoff_base_ms ≤ b.until)
  unfolding take_incoming_want_ids_slot
  take_incoming-refused at now again s m free refused =
      let key = want_ids_peer_key group_id requester_id in
      let backoff = (is_want_ids_in_backoff at key s.backoff).1 in
      let e = take_incoming-free at now again s free in
      (
        record {
          until = again + backoff_delay (next_strikes (get text_dec key backoff));
          strikes = next_strikes (get text_dec key backoff);
        },
        ap (λ r. get text_dec key r.1.backoff) e
            ∙ get-take_from_window (resolve_want_ids_limits limits).in_window_ms
                (resolve_want_ids_limits limits).in_max_batch 8000 now again key s.inbound backoff
                (is_want_ids_in_backoff-IsMap at key s.backoff m) (sym (ap (λ r. r.0) e) ∙ refused),
        omega (arith, (backoff_delay-bounds (next_strikes (get text_dec key backoff))).0),
      )

  take_incoming-held :
      (at now again : ℕ) (s : State) (b : Backoff)
      → get text_dec (want_ids_peer_key group_id requester_id) s.backoff ≡ some b
      → at < b.until
      → take_incoming at now again s ≡ (false, s)
  unfolding take_incoming_want_ids_slot
  take_incoming-held at now again s b h soon =
      rw (held_off at (want_ids_peer_key group_id requester_id) s.backoff b h soon) refl

  -- When a peer that is not held off is refused, it is held off: every call of it in the next
  -- 2000 milliseconds, the shortest delay, is refused too and changes nothing.
  pub take_incoming_backs_off :
      (at now again later now' again' : ℕ) (s : State)
      → IsMap text_dec s.backoff
      → (is_want_ids_in_backoff at (want_ids_peer_key group_id requester_id) s.backoff).0 ≡ false
      → (take_incoming at now again s).0 ≡ false
      → later < again + default_backoff_base_ms
      → let after = (take_incoming at now again s).1 in
        take_incoming later now' again' after ≡ (false, after)
  take_incoming_backs_off at now again later now' again' s m free refused soon =
      let (b, found, long) = take_incoming-refused at now again s m free refused in
      take_incoming-held later now' again' (take_incoming at now again s).1 b found (omega arith)
