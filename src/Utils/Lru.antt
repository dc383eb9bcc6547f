-- ===== src/Utils/Lru.antt =====
-- js/utils/lru.mjs: a host `Map` with a `touch` that moves a key to the end and evicts the oldest
-- keys. `max` is the closure's constant; the eviction loop runs on fuel, the size of the map.
pub mod Recency
use fount_p2p.Base.{
  ℕ, zero, suc, ◌≤◌, ◌<◌, ◌≡◌, refl, ◌≢◌, Option, none, some, [], ◌∷◌, Bool, true, false, arith,
  ltb, if◌then◌else◌, Bool-cases, inl, inr,
}
use fount_p2p.Base.JsMap.{
  JsMap, size, oldest, get, has, put, delete, size-delete-lt, size-delete-le,
}

module _ {K V : Type 0} (dec : Discrete K) where
  -- `map.delete(map.keys().next().value)`
  unfoldable pub drop_oldest : JsMap K V → JsMap K V
  drop_oldest m = elim (oldest m) [ none ↦ m | some k ↦ delete dec k m ]

  -- `while (map.size > max)`
  unfoldable pub evict : ℕ → ℕ → JsMap K V → JsMap K V
  evict zero max m = m
  evict (suc fuel) max m = elim (ltb max (size m)) [
    | true ↦ evict fuel max (drop_oldest m)
    | false ↦ m
  ]

  -- `touch(key, value)` before its eviction loop.
  unfoldable pub move_to_end : K → V → JsMap K V → JsMap K V
  move_to_end k v m = put dec k v (if has dec k m then delete dec k m else m)

  unfoldable pub touch : ℕ → K → V → JsMap K V → JsMap K V
  unfolding move_to_end
  touch max k v m = evict (size (move_to_end k v m)) max (move_to_end k v m)

  pub size-drop_oldest-lt : (m : JsMap K V) → 0 < size m → size (drop_oldest m) < size m
  unfolding drop_oldest get
  size-drop_oldest-lt [] h = absurd (omega arith)
  size-drop_oldest-lt ((k, v) ∷ m) h = size-delete-lt dec k ((k, v) ∷ m) (ground arith)

  -- Enough fuel ends the loop by its test.
  pub size-evict-le : (fuel max : ℕ) (m : JsMap K V) → size m ≤ fuel → size (evict fuel max m) ≤ max
  unfolding evict
  size-evict-le zero max m h = omega arith
  size-evict-le (suc fuel) max m h =
      ground (arith, size-drop_oldest-lt m, size-evict-le fuel max (drop_oldest m))

  -- After a touch the map holds at most `max` keys, whatever it held before.
  pub size-touch-le : (max : ℕ) (k : K) (v : V) (m : JsMap K V) → size (touch max k v m) ≤ max
  unfolding touch
  size-touch-le max k v m =
      size-evict-le (size (move_to_end k v m)) max (move_to_end k v m) (omega arith)
