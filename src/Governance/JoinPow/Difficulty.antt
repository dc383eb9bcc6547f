-- ===== src/Governance/JoinPow/Difficulty.antt =====
-- The two readings of a hash in js/governance/join_pow.mjs: `joinPowHashMeetsDifficulty` tests
-- masks, `countAchievedLeadingZeroBits` counts zeros.
use fount_p2p.Base.{
  ℕ, zero, suc, ◌+◌, ◌*◌, ◌-◌, ◌/◌, ◌≤◌, ◌<◌, ◌≡◌, refl, some, [], ◌∷◌, Bool, true, false, ltb, leb,
  ◌==◌, if◌then◌else◌, ◌&&◌, length, take, length-take, min, arith, All, Option-cases, inl, inr,
  is_some, dec_le, ap, ◌∙◌,
}
use fount_p2p.Core.HexIds.{Text}
use fount_p2p.Governance.JoinPow.{
  parse_hex, and_bits, mask_of, meets_from, join_pow_hash_meets_difficulty, leading_zeros,
  count_achieved_leading_zero_bits,
}

-- Each unit is a hexadecimal digit.
abbrev pub IsHex : Text → Type 0
IsHex hash = All (λ c. is_some (parse_hex c) ≡ true) hash

abbrev all_below : ℕ → (ℕ → Bool) → Bool
all_below zero f = true
all_below (suc n) f = all_below n f && f n

all_below_lem : (n i : ℕ) (f : ℕ → Bool) → all_below n f ≡ true → i < n → f i ≡ true
all_below_lem zero i f h k = absurd (omega arith)
all_below_lem (suc n) i f h k = elim (dec_le (suc i) n) [
  | yes lt ↦ all_below_lem n i f (ground arith) lt
  | no ge ↦ let e : i ≡ n = omega arith in ap f e ∙ ground arith
]

-- A digit passes the mask of its k upper bits if and only if it has k zeros in front.
abbrev digit_test : ℕ → ℕ → Bool
digit_test k n =
    let (bits, stopped) = leading_zeros 4 n in
    let count = if n == 0 then 4 else bits in
    let passes = and_bits 8 n (mask_of (suc k)) == 0 in
    let enough = leb (suc k) count in
    (if passes then enough else if enough then false else true)
    && (if n == 0 then true else stopped)
    && (if n == 0 then true else ltb bits 4)

digit_tests : all_below 4 (λ k. all_below 16 (digit_test k)) ≡ true
unfolding leading_zeros and_bits
digit_tests = refl

digit_lem : (k n : ℕ) → k < 4 → n < 16 → digit_test k n ≡ true
digit_lem k n hk hn =
    all_below_lem 16 n (digit_test k)
      (all_below_lem 4 k (λ j. all_below 16 (digit_test j)) digit_tests hk) hn

parse_hex-lt : (c n : ℕ) → parse_hex c ≡ some n → n < 16
unfolding parse_hex
parse_hex-lt c n h = ground arith

meets_from-some :
    (bits needed i c v : ℕ) (prefix : Text)
    → parse_hex c ≡ some v
    → meets_from bits needed i (c ∷ prefix) ≡ (
        if and_bits 8 v (mask_of (if ltb i (needed - 1) then 4 else bits - i * 4)) == 0
        then meets_from bits needed (suc i) prefix
        else false)
unfolding meets_from
meets_from-some bits needed i c v prefix h = rw (h, meets_from) refl

count-some :
    (c v : ℕ) (hash : Text)
    → parse_hex c ≡ some v
    → count_achieved_leading_zero_bits (c ∷ hash) ≡ (
        if v == 0
        then 4 + count_achieved_leading_zero_bits hash
        else (if (leading_zeros 4 v).1
            then (leading_zeros 4 v).0
            else (leading_zeros 4 v).0 + count_achieved_leading_zero_bits hash))
unfolding count_achieved_leading_zero_bits
count-some c v hash h = rw (h, count_achieved_leading_zero_bits) refl

-- From any index: r bits are left to test.
meets_from_lem :
    (bits needed i r : ℕ) (hash : Text)
    → IsHex hash
    → bits ≡ i * 4 + suc r
    → needed ≡ (bits + 3) / 4
    → needed ≤ i + length hash
    → meets_from bits needed i (take (needed - i) hash)
      ≡ leb (suc r) (count_achieved_leading_zero_bits hash)
unfolding meets_from
meets_from_lem bits needed i r [] hex e n long = absurd (omega arith)
meets_from_lem bits needed i r (c ∷ hash) hex e n long = elim (Option-cases (parse_hex c)) [
  | inl h ↦ absurd (ground (arith, hex.0, h))
  | inr (v, h) ↦
      let step : take (needed - i) (c ∷ hash) ≡ c ∷ take (needed - suc i) hash =
        let k : needed - i ≡ suc (needed - suc i) = omega arith in rw k refl in
      rw
        (
          step,
          meets_from-some bits needed i c v (take (needed - suc i) hash) h,
          count-some c v hash h,
        )
        (elim (dec_le 4 r) [
          | yes more ↦
              let four : (if ltb i (needed - 1) then 4 else bits - i * 4) ≡ 4 = ground arith in
              rw four (
                ground (
                  arith,
                  digit_lem 3 v (omega arith) (parse_hex-lt c v h),
                  meets_from_lem bits needed (suc i) (r - 4) hash hex.1 (omega arith) n
                      (omega arith),
                ))
          | no last ↦
              let few : (if ltb i (needed - 1) then 4 else bits - i * 4) ≡ suc r = ground arith in
              let end : needed - suc i ≡ 0 = omega arith in
              rw (few, end) (ground (arith, digit_lem r v (omega arith) (parse_hex-lt c v h)))
        ])
]

-- For a hash of 64 hexadecimal digits, `joinPowHashMeetsDifficulty` holds at a difficulty of up to
-- 256 bits if and only if `countAchievedLeadingZeroBits` counts at least that many.
pub join_pow_hash_meets_difficulty_lem :
    (hash : Text) (difficulty : ℕ)
    → IsHex hash
    → length hash ≡ 64
    → difficulty ≤ 256
    → join_pow_hash_meets_difficulty hash difficulty
      ≡ leb difficulty (count_achieved_leading_zero_bits hash)
unfolding join_pow_hash_meets_difficulty
join_pow_hash_meets_difficulty_lem hash zero hex long le = ground arith
join_pow_hash_meets_difficulty_lem hash (suc r) hex long le =
    let bits : min 256 (suc r) ≡ suc r = omega arith in
    let found =
      meets_from_lem (suc r) ((suc r + 3) / 4) 0 r hash hex (omega arith) refl (omega arith) in
    rw bits (ground (arith, found, length-take ((suc r + 3) / 4) hash))
