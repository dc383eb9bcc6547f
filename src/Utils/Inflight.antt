-- ===== src/Utils/Inflight.antt =====
-- js/utils/inflight_table.mjs: requests in flight, shared by key. A started request is named by a
-- number, its handle, that stands for the identity of its promise; `cancelled` logs the calls of
-- `cancel`, latest first. The clock's readings are arguments, and `max_size` and `base_timeout` are
-- the resolved options.
pub mod Safety
use fount_p2p.Base.{
  ℕ, zero, suc, max, min, ◌+◌, ◌-◌, ◌*◌, ◌≤◌, ◌<◌, ◌≡◌, refl, ◌≢◌, Option, none, some, List, [],
  ◌∷◌, Bool, true, false, arith, ltb, leb, ◌==◌, if◌then◌else◌, Option-cases, ◌∙◌, ap, Bool-cases,
  inl, inr, ◌++◌, map,
}
use fount_p2p.Base.JsMap.{
  JsMap, size, oldest, get, has, put, delete, get-put_self, get-put_ne, get-delete_ne,
  size-delete-lt, size-put-le, size-put_present, size-delete-le, get-delete_self,
}

pub record Entry : Type 0 where
  pub handle : ℕ
  pub started_at : ℕ

pub record Table (K : Type 0) : Type 0 where
  pub entries : JsMap K Entry
  pub cancelled : List ℕ

pub record Options : Type 0 where
  pub max_size : ℕ
  pub base_timeout : ℕ

-- `Math.max(1, Math.floor(Number(options.maxSize) || 1))`, and the timeout as it is.
abbrev pub resolve : Options → Options
resolve o = record o { max_size = max 1 o.max_size }

module _ {K : Type 0} (dec : Discrete K) where
  -- The oldest entry, if it may be cancelled at `t`.
  unfoldable pub aged : Options → ℕ → JsMap K Entry → Option (K × Entry)
  aged o t m = elim (oldest m) [
    | none ↦ none
    | some k ↦ elim (get dec k m) [
      | none ↦ none
      | some e ↦ if ltb t (e.started_at + o.base_timeout) then none else some (k, e)
    ]
  ]

  abbrev pub drop_entry : Table K → K → Entry → Table K
  drop_entry s k e = record { entries = delete dec k s.entries; cancelled = e.handle ∷ s.cancelled }

  -- The entry that the next round of the loop cancels, if its test and its `break` let it.
  unfoldable pub victim : Options → ℕ → JsMap K Entry → Option (K × Entry)
  victim o t m = if leb o.max_size (size m) then aged o t m else none

  -- `pruneAgedOverCap`: the loop, on fuel.
  unfoldable pub prune : ℕ → Options → ℕ → Table K → Table K
  prune zero o t s = s
  prune (suc fuel) o t s = elim (victim o t s.entries) [
    | none ↦ s
    | some (k, e) ↦ prune fuel o t (drop_entry s k e)
  ]

  abbrev pub prune_over_cap : Options → ℕ → Table K → Table K
  prune_over_cap o t s = prune (size s.entries) o t s

  abbrev pub move_to_end : K → Entry → Table K → Table K
  move_to_end k e s = record s { entries = put dec k e (delete dec k s.entries) }

  -- The branch of a key that is not in flight.
  unfoldable pub open_new : Options → ℕ → K → ℕ → Table K → Table K × Option ℕ
  open_new o started_at k start s = if leb o.max_size (size s.entries) then (s, none) else (
    record s { entries = put dec k (record { handle = start; started_at = started_at }) s.entries },
    some start,
  )

  -- `start` is the handle that the starting function would give. The clock is read twice: for the
  -- pruning, and when the request has been started.
  unfoldable pub acquire : Options → ℕ → ℕ → K → ℕ → Table K → Table K × Option ℕ
  acquire o t started_at k start s = elim (get dec k s.entries) [
    | some e ↦ (prune_over_cap o t (move_to_end k e s), some e.handle)
    | none ↦ open_new o started_at k start (prune_over_cap o t s)
  ]

  -- The `finally` of `track`, when the promise of `handle` settles.
  unfoldable pub settle : K → ℕ → Table K → Table K
  settle k handle s = elim (get dec k s.entries) [
    | none ↦ s
    | some e ↦ if e.handle == handle then record s { entries = delete dec k s.entries } else s
  ]

  unfoldable pub clear : Table K → Table K
  clear s = record { entries = []; cancelled = map (λ e. e.1.handle) s.entries ++ s.cancelled }

  pub victim-get :
      (o : Options) (t : ℕ) (m : JsMap K Entry) (k : K) (e : Entry)
      → victim o t m ≡ some (k, e)
      → (get dec k m ≡ some e) × (e.started_at + o.base_timeout ≤ t)
  unfolding victim aged
  victim-get o t [] k e h = ground arith
  victim-get o t ((j, d) ∷ m) k e h = ground arith
