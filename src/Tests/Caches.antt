-- ===== src/Tests/Caches.antt =====
-- The theorems on js/utils at concrete inputs.
use fount_p2p.Base.{ℕ, ◌≡◌, refl, ◌+◌, ◌-◌, ◌*◌, ◌≤◌, none, some, List, [], ◌∷◌, arith, ℕ_discrete}
use fount_p2p.Base.JsMap.{JsMap, get}
use fount_p2p.Utils.Lru.Recency.{newest, recent_all, touch_all, touch_all_lem}
use fount_p2p.Utils.TtlMap
use fount_p2p.Utils.TokenBucket
use fount_p2p.Utils.TokenBucket.Bounds.{consume_all-le}
use fount_p2p.Utils.Inflight
use fount_p2p.Utils.Inflight.Safety.{acquire-Kept, Kept}

abbrev three_touches : List (ℕ × ℕ)
three_touches = (1, 10) ∷ (2, 20) ∷ (1, 11) ∷ (3, 30) ∷ []

touch_all_lem_example :
    touch_all ℕ_discrete 2 three_touches [] ≡ newest 2 (recent_all ℕ_discrete three_touches [])
touch_all_lem_example = touch_all_lem ℕ_discrete 2 three_touches

abbrev seen : JsMap ℕ (TtlMap.Entry ℕ)
seen = (1, record { value = 10; seen_at = 100 }) ∷ (2, record { value = 20; seen_at = 150 }) ∷ []

abbrev limits : TokenBucket.Limits
limits = record { per_min = 30; burst = 2 }

abbrev buckets : JsMap ℕ TokenBucket.Bucket
buckets = (7, record { tokens = 0; updated_at = 1000 }) ∷ []

consume_all-le_example :
    (TokenBucket.consume_all ℕ_discrete limits 7 (1000 ∷ 1000 ∷ 3000 ∷ []) []).1 * TokenBucket.token
    ≤ TokenBucket.capacity limits + (3000 - 1000) * TokenBucket.rate limits
consume_all-le_example =
    consume_all-le ℕ_discrete limits 7 1000 (1000 ∷ 3000 ∷ []) 3000 []
      (omega arith, (omega arith, omega arith))

bucket_seven : get ℕ_discrete 7 buckets ≡ some (record { tokens = 0; updated_at = 1000 })
unfolding get ℕ_discrete
bucket_seven = refl

abbrev options : Inflight.Options
options = record { max_size = 2; base_timeout = 100 }

abbrev flights : Inflight.Table ℕ
flights = record {
  entries =
      (1, record { handle = 11; started_at = 0 })
      ∷ (2, record { handle = 12; started_at = 90 })
      ∷ [];
  cancelled = [];
}

flight_one : get ℕ_discrete 1 flights.entries ≡ some (record { handle = 11; started_at = 0 })
unfolding get ℕ_discrete
flight_one = refl

acquire-Kept_example :
    Kept ℕ_discrete options 150 1
      (record { handle = 11; started_at = 0 })
      (Inflight.acquire ℕ_discrete options 150 151 3 13 flights).0
acquire-Kept_example =
    acquire-Kept ℕ_discrete options 150 151 3 13 flights 1 (record { handle = 11; started_at = 0 })
      (omega arith) flight_one

refused : (Inflight.acquire ℕ_discrete options 50 50 3 13 flights).1 ≡ none
unfolding get Inflight.acquire Inflight.open_new Inflight.prune Inflight.victim Inflight.aged
    ℕ_discrete
refused = refl
