-- ===== src/Utils/TokenBucket/Bounds.antt =====
-- How many requests js/utils/token_bucket.mjs lets through.
use fount_p2p.Base.{
  ℕ, ◌+◌, ◌-◌, ◌*◌, ◌≤◌, ◌≡◌, refl, ◌≢◌, some, List, [], ◌∷◌, true, arith, if◌then◌else◌, ◌∙◌, ap,
}
use fount_p2p.Base.JsMap.{JsMap, get, get-put_self, get-put_ne}
use fount_p2p.Utils.TokenBucket.{
  Bucket, Limits, token, rate, capacity, refill, spend, bucket_or, consume_token, consume_all,
}

-- Times that do not fall, from a first to a last.
abbrev pub Ascends : ℕ → List ℕ → ℕ → Type 0
Ascends from [] last = from ≤ last
Ascends from (t ∷ times) last = (from ≤ t) × Ascends t times last

Ascends-le : (from : ℕ) (times : List ℕ) (last : ℕ) → Ascends from times last → from ≤ last
Ascends-le from [] last h = h
Ascends-le from (t ∷ times) last h = omega (arith, Ascends-le t times last h.1)

split_elapsed : (a b c r : ℕ) → a ≤ b → b ≤ c → (b - a) * r + (c - b) * r ≡ (c - a) * r
split_elapsed a b c r h k = grind arith

spend_lem :
    (b : Bucket)
    → ((spend b).0.tokens + (if (spend b).1 then token else 0) ≡ b.tokens)
      × ((spend b).0.updated_at ≡ b.updated_at)
unfolding spend
spend_lem b = ground arith

refill_lem :
    (l : Limits) (now : ℕ) (b : Bucket)
    → ((refill l now b).tokens ≤ b.tokens + (now - b.updated_at) * rate l)
      × ((refill l now b).tokens ≤ capacity l)
      × ((refill l now b).updated_at ≡ now)
unfolding refill
refill_lem l now b = (omega arith, omega arith, refl)

module _ {K : Type 0} (dec : Discrete K) (l : Limits) (key : K) where
  -- The bucket that a request meets, refilled.
  abbrev met : ℕ → JsMap K Bucket → Bucket
  met now m = refill l now (bucket_or l now (get dec key m))

  get-consume_token :
      (now : ℕ) (m : JsMap K Bucket)
      → get dec key (consume_token dec m key now l).0 ≡ some (spend (met now m)).0
  unfolding consume_token
  get-consume_token now m = get-put_self dec key (spend (met now m)).0 m

  refill_at_held :
      (t : ℕ) (m : JsMap K Bucket) (b : Bucket)
      → get dec key m ≡ some b
      → (met t m).tokens ≤ b.tokens + (t - b.updated_at) * rate l
  refill_at_held t m b h = rw h (refill_lem l t b).0

  -- One more request, from a bound on the later ones.
  consume_all-cons :
      (t : ℕ) (times : List ℕ) (m : JsMap K Bucket) (later : ℕ)
      → (consume_all dec l key times (consume_token dec m key t l).0).1 * token
        ≤ (spend (met t m)).0.tokens + later
      → (consume_all dec l key (t ∷ times) m).1 * token ≤ (met t m).tokens + later
  unfolding consume_all consume_token
  consume_all-cons t times m later h = ground (arith, spend_lem (met t m))

  consume_all-held :
      (times : List ℕ) (from last : ℕ) (m : JsMap K Bucket) (b : Bucket)
      → get dec key m ≡ some b
      → b.updated_at ≡ from
      → Ascends from times last
      → (consume_all dec l key times m).1 * token ≤ b.tokens + (last - from) * rate l
  unfolding consume_all
  consume_all-held [] from last m b h e a = omega arith
  consume_all-held (t ∷ times) from last m b h e a =
      let o = bucket_or l t (get dec key m) in
      let rest = consume_all-cons t times m ((last - t) * rate l) (
        consume_all-held times t last (consume_token dec m key t l).0 (spend (met t m)).0
          (get-consume_token t m) ((spend_lem (met t m)).1 ∙ (refill_lem l t o).2) a.1) in
      omega (
        arith,
        rest,
        refill_at_held t m b h,
        split_elapsed from t last (rate l) a.0 (Ascends-le t times last a.1),
        ap (λ x. (t - x) * rate l) e,
      )

  -- For requests on one key at times that do not decrease, those that pass up to a later time number
  -- at most `burst` and what `perMin` adds from the first request to that time.
  pub consume_all-le :
      (t : ℕ) (times : List ℕ) (last : ℕ) (m : JsMap K Bucket)
      → Ascends t times last
      → (consume_all dec l key (t ∷ times) m).1 * token ≤ capacity l + (last - t) * rate l
  consume_all-le t times last m a =
      let o = bucket_or l t (get dec key m) in
      omega (
        arith,
        consume_all-cons t times m ((last - t) * rate l) (
            consume_all-held times t last (consume_token dec m key t l).0 (spend (met t m)).0
              (get-consume_token t m) ((spend_lem (met t m)).1 ∙ (refill_lem l t o).2) a),
        refill_lem l t o,
      )

  -- Requests on one key leave the buckets of the others alone.
  pub get-consume_token_ne :
      (j : K) (now : ℕ) (m : JsMap K Bucket)
      → key ≢ j
      → get dec j (consume_token dec m key now l).0 ≡ get dec j m
  unfolding consume_token
  get-consume_token_ne j now m ne = get-put_ne dec j key (spend (met now m)).0 m ne

  -- A key whose bucket has refilled by at least one token since it was last used is let through.
  pub consume_token_after_wait :
      (now : ℕ) (m : JsMap K Bucket) (b : Bucket)
      → get dec key m ≡ some b
      → token ≤ (now - b.updated_at) * rate l
      → (consume_token dec m key now l).1 ≡ true
  unfolding consume_token spend refill
  consume_token_after_wait now m b h w = rw h (ground arith)
