-- ===== src/Utils/TtlMap.antt =====
-- js/utils/ttl_map.mjs: a map whose entries expire, bounded by a sweep and an eviction of the
-- oldest keys. `ttl` and `cap` are the closure's constants, and each method takes the time that it
-- reads. Times are natural numbers of milliseconds.
use fount_p2p.Base.{
  ℕ, zero, suc, max, ◌+◌, ◌≤◌, ◌<◌, ◌≡◌, ◌≢◌, Option, none, some, Bool, true, false, arith, ltb,
  leb, ◌==◌, if◌then◌else◌,
}
use fount_p2p.Base.JsMap.{
  JsMap, size, get, has, put, delete, remove_if, size-put-le, get-put_self, get-put_ne,
  size-delete-le, get-delete_ne, get-delete_self,
}
use fount_p2p.Utils.Lru.{drop_oldest, size-drop_oldest-lt}

pub record Entry (V : Type 0) : Type 0 where
  pub value : V
  pub seen_at : ℕ

-- `Math.max(1, Math.floor(Number(maxSize) || 4096))`
abbrev pub resolve_cap : ℕ → ℕ
resolve_cap max_size = max 1 (if max_size == 0 then 4096 else max_size)

-- `now - entry.seenAt > ttlMs`, over the integers.
abbrev pub is_expired : {V : Type 0} → ℕ → ℕ → Entry V → Bool
is_expired ttl now e = ltb (e.seen_at + ttl) now

module _ {K V : Type 0} (dec : Discrete K) where
  -- `while (map.size >= cap)`, on fuel.
  unfoldable pub evict_full : ℕ → ℕ → JsMap K (Entry V) → JsMap K (Entry V)
  evict_full zero cap m = m
  evict_full (suc fuel) cap m = elim (leb cap (size m)) [
    | true ↦ evict_full fuel cap (drop_oldest dec m)
    | false ↦ m
  ]

  unfoldable pub prune : ℕ → ℕ → ℕ → JsMap K (Entry V) → JsMap K (Entry V)
  prune ttl cap now m =
      let live = remove_if (λ k e. is_expired ttl now e) m in evict_full (size live) cap live

  unfoldable pub set : ℕ → ℕ → ℕ → K → V → JsMap K (Entry V) → JsMap K (Entry V)
  set ttl cap now k v m =
      let rest = (if has dec k m then delete dec k m else m) in
      put dec k (record { value = v; seen_at = now })
        (if leb cap (size rest) then prune ttl cap now rest else rest)

  -- The value, and the map without the key if its entry has expired.
  unfoldable pub lookup : ℕ → ℕ → K → JsMap K (Entry V) → Option V × JsMap K (Entry V)
  lookup ttl now k m = elim (get dec k m) [
    | none ↦ (none, m)
    | some e ↦ if is_expired ttl now e then (none, delete dec k m) else (some e.value, m)
  ]

  size-evict_full-lt :
      (fuel cap : ℕ) (m : JsMap K (Entry V))
      → 0 < cap
      → size m ≤ fuel
      → size (evict_full fuel cap m) < cap
  unfolding evict_full
  size-evict_full-lt zero cap m c h = omega arith
  size-evict_full-lt (suc fuel) cap m c h =
      ground (arith, size-drop_oldest-lt dec m, size-evict_full-lt fuel cap (drop_oldest dec m))

  size-prune-lt :
      (ttl cap now : ℕ) (m : JsMap K (Entry V)) → 0 < cap → size (prune ttl cap now m) < cap
  unfolding prune
  size-prune-lt ttl cap now m c =
      size-evict_full-lt _ cap (remove_if (λ k e. is_expired ttl now e) m) c (omega arith)

  -- A write leaves at most the resolved number of entries, whatever the map held before.
  pub size-set-le :
      (ttl max_size now : ℕ) (k : K) (v : V) (m : JsMap K (Entry V))
      → size (set ttl (resolve_cap max_size) now k v m) ≤ resolve_cap max_size
  unfolding set
  size-set-le ttl max_size now k v m =
      let cap = resolve_cap max_size in
      let e : Entry V = record { value = v; seen_at = now } in
      let d = delete dec k m in
      ground (
        arith,
        size-put-le dec k e m,
        size-put-le dec k e d,
        size-put-le dec k e (prune ttl cap now m),
        size-put-le dec k e (prune ttl cap now d),
        size-prune-lt ttl cap now m,
        size-prune-lt ttl cap now d,
      )

  -- A value that was written is read back up to `ttl` milliseconds later, and not after that.
  pub lookup-set :
      (ttl cap now later : ℕ) (k : K) (v : V) (m : JsMap K (Entry V))
      → (lookup ttl later k (set ttl cap now k v m)).0
        ≡ (if leb later (now + ttl) then some v else none)
  unfolding lookup set
  lookup-set ttl cap now later k v m =
      let e : Entry V = record { value = v; seen_at = now } in
      let d = delete dec k m in
      ground (
        arith,
        get-put_self dec k e m,
        get-put_self dec k e d,
        get-put_self dec k e (prune ttl cap now m),
        get-put_self dec k e (prune ttl cap now d),
      )

  -- A write to a map with fewer than `cap` entries leaves every other key as it was.
  pub get-set_ne :
      (ttl cap now : ℕ) (k j : K) (v : V) (m : JsMap K (Entry V))
      → size m < cap
      → k ≢ j
      → get dec j (set ttl cap now k v m) ≡ get dec j m
  unfolding set
  get-set_ne ttl cap now k j v m room ne =
      let e : Entry V = record { value = v; seen_at = now } in
      let d = delete dec k m in
      ground (
        arith,
        get-put_ne dec j k e m ne,
        get-put_ne dec j k e d ne,
        get-delete_ne dec j k m ne,
        size-delete-le dec k m,
      )

  -- Reading a key whose entry has expired answers `none` and drops the key.
  pub lookup_expired :
      (ttl now : ℕ) (k : K) (e : Entry V) (m : JsMap K (Entry V))
      → get dec k m ≡ some e
      → e.seen_at + ttl < now
      → ((lookup ttl now k m).0 ≡ none) × (get dec k (lookup ttl now k m).1 ≡ none)
  unfolding lookup
  lookup_expired ttl now k e m h old = ground (arith, get-delete_self dec k m)
