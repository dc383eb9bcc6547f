-- ===== src/Utils/Inflight/Safety.antt =====
-- The table of js/utils/inflight_table.mjs stays within its size and cancels only what timed out.
use fount_p2p.Base.{
  ℕ, zero, suc, ◌+◌, ◌≤◌, ◌≡◌, ◌≢◌, ◌⊎◌, none, some, List, [], ◌∷◌, arith, Option-cases, ◌∙◌, inl,
  inr,
}
use fount_p2p.Base.JsMap.{
  size, get, delete, get-put_self, get-put_ne, get-delete_ne, size-delete-lt, size-put-le,
  size-delete-le,
}
use fount_p2p.Utils.Inflight.{
  Entry, Table, Options, aged, victim, drop_entry, prune, prune_over_cap, move_to_end, open_new,
  acquire, victim-get,
}

abbrev pub IsIn : ℕ → List ℕ → Type 0
IsIn a [] = ⊥
IsIn a (x ∷ xs) = (x ≡ a) ⊎ IsIn a xs

module _ {K : Type 0} (dec : Discrete K) (o : Options) (t : ℕ) where
  abbrev IsTimedOut : Entry → Type 0
  IsTimedOut e = e.started_at + o.base_timeout ≤ t

  -- What may become of an entry: it stays, or it has run out and is cancelled.
  abbrev pub Kept : K → Entry → Table K → Type 0
  Kept j e s = (get dec j s.entries ≡ some e) ⊎ (IsIn e.handle s.cancelled × IsTimedOut e)

  size-prune-le : (fuel : ℕ) (s : Table K) → size (prune dec fuel o t s).entries ≤ size s.entries
  unfolding prune
  size-prune-le zero s = omega arith
  size-prune-le (suc fuel) s = elim (Option-cases (victim dec o t s.entries)) [
    | inl e ↦ rw (e, prune) (ground arith)
    | inr ((k, e), h) ↦
        rw (h, prune)
          (ground
            (arith, size-prune-le fuel (drop_entry dec s k e), size-delete-le dec k s.entries))
  ]

  prune-cancelled :
      (fuel : ℕ) (s : Table K) (a : ℕ)
      → IsIn a s.cancelled
      → IsIn a (prune dec fuel o t s).cancelled
  unfolding prune
  prune-cancelled zero s a h = h
  prune-cancelled (suc fuel) s a h = elim (Option-cases (victim dec o t s.entries)) [
    | inl e ↦ rw (e, prune) (ground arith)
    | inr ((k, e), p) ↦
        rw (p, prune) (ground (arith, prune-cancelled fuel (drop_entry dec s k e) a (inr h)))
  ]

  prune-Kept :
      (fuel : ℕ) (s : Table K) (j : K) (e : Entry)
      → get dec j s.entries ≡ some e
      → Kept j e (prune dec fuel o t s)
  unfolding prune
  prune-Kept zero s j e h = inl h
  prune-Kept (suc fuel) s j e h = elim (Option-cases (victim dec o t s.entries)) [
    | inl stop ↦ rw (stop, prune) (inl h)
    | inr ((k, d), p) ↦
        rw (p, prune)
          (elim (dec k j) [
            | yes same ↦ inr (
              prune-cancelled fuel (drop_entry dec s k d) e.handle
                  (ground (arith, victim-get dec o t s.entries k d)),
              ground (arith, victim-get dec o t s.entries k d),
            )
            | no other ↦
                prune-Kept fuel (drop_entry dec s k d) j e
                  (get-delete_ne dec j k s.entries other ∙ h)
          ])
  ]

  -- The loop ends by its own tests: with room, or at an entry that may not be cancelled.
  prune_done :
      (fuel : ℕ) (s : Table K)
      → size s.entries ≤ fuel
      → victim dec o t (prune dec fuel o t s).entries ≡ none
  unfolding prune
  prune_done zero s h = elim (Option-cases (victim dec o t s.entries)) [
    | inl stop ↦ stop
    | inr ((k, e), p) ↦
        absurd (ground (arith, victim-get dec o t s.entries k e, size-delete-lt dec k s.entries))
  ]
  prune_done (suc fuel) s h = elim (Option-cases (victim dec o t s.entries)) [
    | inl stop ↦ rw (stop, prune) stop
    | inr ((k, e), p) ↦
        rw (p, prune)
          (prune_done fuel (drop_entry dec s k e)
            (ground (arith, victim-get dec o t s.entries k e, size-delete-lt dec k s.entries)))
  ]

  size-move_to_end-le :
      (k : K) (e : Entry) (s : Table K)
      → get dec k s.entries ≡ some e
      → size (move_to_end dec k e s).entries ≤ size s.entries
  size-move_to_end-le k e s h =
      ground (arith, size-put-le dec k e (delete dec k s.entries), size-delete-lt dec k s.entries)

  get-move_to_end :
      (k : K) (e : Entry) (s : Table K) (j : K)
      → get dec k s.entries ≡ some e
      → get dec j (move_to_end dec k e s).entries ≡ get dec j s.entries
  get-move_to_end k e s j h = elim (dec k j) [
    | yes same ↦ ground (arith, get-put_self dec k e (delete dec k s.entries))
    | no other ↦
        get-put_ne dec j k e (delete dec k s.entries) other ∙ get-delete_ne dec j k s.entries other
  ]

  -- A table of at most `max_size` requests has at most so many after an `acquire`.
  pub size-acquire-le :
      (started_at : ℕ) (k : K) (start : ℕ) (s : Table K)
      → size s.entries ≤ o.max_size
      → size (acquire dec o t started_at k start s).0.entries ≤ o.max_size
  unfolding acquire open_new
  size-acquire-le started_at k start s h = elim (Option-cases (get dec k s.entries)) [
    | inl new ↦
        rw (new, acquire)
          (ground (
            arith,
            size-prune-le (size s.entries) s,
            size-put-le dec k (record { handle = start; started_at = started_at })
                (prune_over_cap dec o t s).entries,
          ))
    | inr (e, old) ↦
        rw (old, acquire)
          (omega (
            arith,
            size-prune-le (size (move_to_end dec k e s).entries) (move_to_end dec k e s),
            size-move_to_end-le k e s old,
          ))
  ]

  -- A key in flight is shared: `acquire` returns the handle of the request that is under way.
  pub acquire_shares :
      (started_at : ℕ) (k : K) (start : ℕ) (s : Table K) (e : Entry)
      → get dec k s.entries ≡ some e
      → (acquire dec o t started_at k start s).1 ≡ some e.handle
  unfolding acquire
  acquire_shares started_at k start s e h = ground arith

  -- When a key is acquired, the request of any other key stays in the table, unless its time has run
  -- out and it is cancelled.
  pub acquire-Kept :
      (started_at : ℕ) (k : K) (start : ℕ) (s : Table K) (j : K) (e : Entry)
      → k ≢ j
      → get dec j s.entries ≡ some e
      → Kept j e (acquire dec o t started_at k start s).0
  unfolding acquire open_new
  acquire-Kept started_at k start s j e ne h = elim (Option-cases (get dec k s.entries)) [
    | inl new ↦
        rw (new, acquire)
          (ground (
            arith,
            prune-Kept (size s.entries) s j e h,
            get-put_ne dec j k (record { handle = start; started_at = started_at })
                (prune_over_cap dec o t s).entries ne,
          ))
    | inr (d, old) ↦
        rw (old, acquire)
          (prune-Kept (size (move_to_end dec k d s).entries) (move_to_end dec k d s) j e
            (get-move_to_end k d s j old ∙ h))
  ]

  -- A request is refused only when its key is not in flight, the table is full after the pruning, and
  -- no oldest request is left that may be cancelled.
  pub acquire_refuses :
      (started_at : ℕ) (k : K) (start : ℕ) (s : Table K)
      → (acquire dec o t started_at k start s).1 ≡ none
      → (get dec k s.entries ≡ none)
        × (o.max_size ≤ size (acquire dec o t started_at k start s).0.entries)
        × (aged dec o t (acquire dec o t started_at k start s).0.entries ≡ none)
  unfolding acquire open_new victim
  acquire_refuses started_at k start s h =
      ground (arith, prune_done (size s.entries) s (omega arith))
