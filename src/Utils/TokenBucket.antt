-- ===== src/Utils/TokenBucket.antt =====
-- js/utils/token_bucket.mjs. A token is counted in parts of 1/60000, so that a millisecond refills
-- `perMin` parts: the source's floating-point quotients are modelled by exact arithmetic. Times are
-- natural numbers of milliseconds.
pub mod Bounds
use fount_p2p.Base.{
  ℕ, zero, suc, max, min, ◌+◌, ◌-◌, ◌*◌, ◌≤◌, ◌<◌, ◌≡◌, refl, ◌≢◌, Option, none, some, List, [],
  ◌∷◌, Bool, true, false, arith, ltb, leb, ◌==◌, if◌then◌else◌, Option-cases, Bool-cases, inl, inr,
}
use fount_p2p.Base.JsMap.{JsMap, get, put, get-put_self, get-put_ne}

pub record Bucket : Type 0 where
  pub tokens : ℕ
  pub updated_at : ℕ

pub record Limits : Type 0 where
  pub per_min : ℕ
  pub burst : ℕ

-- The parts of a token.
abbrev pub token : ℕ
token = 60000

abbrev pub rate : Limits → ℕ
rate l = max 1 l.per_min

abbrev pub capacity : Limits → ℕ
capacity l = max 1 l.burst * token

-- The bucket at `now`: `elapsed` is `Math.max(0, now - updatedAt)`.
unfoldable pub refill : Limits → ℕ → Bucket → Bucket
refill l now b = record {
  tokens = min (capacity l) (b.tokens + (now - b.updated_at) * rate l);
  updated_at = now;
}

-- The decision on a bucket, which both branches store.
unfoldable pub spend : Bucket → Bucket × Bool
spend b = if ltb b.tokens token then (b, false) else (record b { tokens = b.tokens - token }, true)

abbrev pub fresh : Limits → ℕ → Bucket
fresh l now = record { tokens = capacity l; updated_at = now }

abbrev pub bucket_or : Limits → ℕ → Option Bucket → Bucket
bucket_or l now none = fresh l now
bucket_or l now (some b) = b

module _ {K : Type 0} (dec : Discrete K) where
  unfoldable pub consume_token : JsMap K Bucket → K → ℕ → Limits → JsMap K Bucket × Bool
  consume_token buckets key now l =
      let (b, allowed) = spend (refill l now (bucket_or l now (get dec key buckets))) in
      (put dec key b buckets, allowed)

  -- Requests at the given times on one key; the number allowed.
  unfoldable pub consume_all : Limits → K → List ℕ → JsMap K Bucket → JsMap K Bucket × ℕ
  consume_all l key [] buckets = (buckets, 0)
  consume_all l key (now ∷ times) buckets =
      let (m, allowed) = consume_token buckets key now l in
      let (m', n) = consume_all l key times m in (m', if allowed then suc n else n)
