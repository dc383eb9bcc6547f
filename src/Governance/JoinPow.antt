-- ===== src/Governance/JoinPow.antt =====
-- js/governance/join_pow.mjs: the proof of work of a join. SHA-256 of a text, in hexadecimal, and
-- `String` of a number are parameters. An epoch is a natural number, or none where `Number` of it
-- is not finite; an absent `epochSkew` is none, and its `Number` is NaN.
pub mod Difficulty
pub mod Search
pub mod Verify
use fount_p2p.Base.{
  ℕ, zero, suc, ◌+◌, ◌*◌, ◌-◌, ◌/◌, ◌%◌, ◌^◌, Option, none, some, List, [], ◌∷◌, ◌++◌, Bool, true,
  false, ltb, leb, ◌==◌, if◌then◌else◌, ◌&&◌, ◌||◌, not, length, take, keep_if, max, min,
}
use fount_p2p.Core.HexIds.{Text, text_dec, decided, contains}

abbrev pub join_pow_default_epoch_ms : ℕ
join_pow_default_epoch_ms = 3600000

-- `Number.parseInt(c, 16)` of one unit.
unfoldable pub parse_hex : ℕ → Option ℕ
parse_hex c =
    if leb b'0' c && leb c b'9'
    then some (c - b'0')
    else (if leb b'a' c && leb c b'f'
        then some (c - b'a' + 10)
        else (if leb b'A' c && leb c b'F' then some (c - b'A' + 10) else none))

-- `a & b` on numbers below 2 ^ w.
unfoldable pub and_bits : ℕ → ℕ → ℕ → ℕ
and_bits zero a b = 0
and_bits (suc w) a b = (a % 2) * (b % 2) + 2 * and_bits w (a / 2) (b / 2)

-- `(0xF << (4 - nibbleBits)) & 0xF`
abbrev pub mask_of : ℕ → ℕ
mask_of nibble_bits = and_bits 8 (15 * 2 ^ (4 - nibble_bits)) 15

-- The loop of `joinPowHashMeetsDifficulty`, from the index i on.
unfoldable pub meets_from : ℕ → ℕ → ℕ → Text → Bool
meets_from bits needed i [] = true
meets_from bits needed i (c ∷ prefix) =
    let rest = meets_from bits needed (suc i) prefix in
    elim (parse_hex c) [
      | none ↦ false
      | some nibble ↦
          if and_bits 8 nibble (mask_of (if ltb i (needed - 1) then 4 else bits - i * 4)) == 0
          then rest
          else false
    ]

unfoldable pub join_pow_hash_meets_difficulty : Text → ℕ → Bool
join_pow_hash_meets_difficulty hex_hash difficulty_bits =
    let bits = min 256 difficulty_bits in
    let needed = (bits + 3) / 4 in
    if bits == 0
    then true
    else (if ltb (length (take needed hex_hash)) needed
        then false
        else meets_from bits needed 0 (take needed hex_hash))

-- The inner loop of `countAchievedLeadingZeroBits`, on the bits below b: the zeros counted, and
-- whether a one stopped it.
unfoldable pub leading_zeros : ℕ → ℕ → ℕ × Bool
leading_zeros zero nibble = (0, false)
leading_zeros (suc b) nibble =
    let (bits, stopped) = leading_zeros b nibble in
    if and_bits 8 nibble (2 ^ b) == 0 then (suc bits, stopped) else (0, true)

unfoldable pub count_achieved_leading_zero_bits : Text → ℕ
count_achieved_leading_zero_bits [] = 0
count_achieved_leading_zero_bits (c ∷ hex_hash) =
    let rest = count_achieved_leading_zero_bits hex_hash in
    elim (parse_hex c) [
      | none ↦ 0
      | some nibble ↦
          let (bits, stopped) = leading_zeros 4 nibble in
          if nibble == 0 then 4 + rest else (if stopped then bits else bits + rest)
    ]

unfoldable pub expected_join_pow_hashes : ℕ → ℕ
expected_join_pow_hashes bits = if leb bits 52 then 2 ^ bits else 2 ^ 53 - 1

pub record Fields : Type 0 where
  pub group_id : Text
  pub anchor_ref : Text
  pub joiner_node_hash : Text
  pub epoch : ℕ

pub record Solution : Type 0 where
  pub anchor_ref : Text
  pub joiner_node_hash : Option Text
  pub epoch : Option ℕ
  pub nonce : Option Text
  pub achieved_bits : ℕ

pub record Options : Type 0 where
  pub group_id : Text
  pub sender_node_hash : Text
  pub known_anchors : List Text
  pub difficulty_bits : ℕ
  pub epoch_ms : ℕ
  pub epoch_skew : Option ℕ

pub record Verdict : Type 0 where
  pub ok : Bool
  pub achieved_bits : ℕ

abbrev pub refused : Verdict
refused = record { ok = false; achieved_bits = 0 }

abbrev pub or_sender : Option Text → Text → Text
or_sender none sender = sender
or_sender (some joiner) sender = joiner

-- A number of the host: a natural one, or NaN.
pub data Number : Type 0 where
  nan : Number
  finite : ℕ → Number

-- `Number(option)`, which is NaN for an absent one.
abbrev pub number_of : Option ℕ → Number
number_of none = nan
number_of (some n) = finite n

-- `n ?? fallback`: no number is nullish, NaN neither.
abbrev pub or_if_nullish : Number → Number → Number
or_if_nullish n fallback = n

-- `Math.max(0, Math.floor(n))`, which is NaN for NaN and leaves a natural number as it is.
abbrev pub floor_from_0 : Number → Number
floor_from_0 nan = nan
floor_from_0 (finite n) = finite (max 0 n)

-- `n > m`, which is false for NaN.
abbrev pub exceeds : ℕ → Number → Bool
exceeds n nan = false
exceeds n (finite m) = ltb m n

abbrev pub join_pow_default_epoch_skew : ℕ
join_pow_default_epoch_skew = 1

abbrev pub skew_of : Option ℕ → Number
skew_of epoch_skew =
    floor_from_0 (or_if_nullish (number_of epoch_skew) (finite join_pow_default_epoch_skew))

-- `Math.abs(epoch - nowEpoch) > skew`
abbrev pub is_off_epoch : Option ℕ → ℕ → ℕ → Bool
is_off_epoch epoch_skew epoch now_epoch =
    exceeds ((epoch - now_epoch) + (now_epoch - epoch)) (skew_of epoch_skew)

abbrev pub epoch_ms_of : ℕ → ℕ
epoch_ms_of ms = max 60000 (if ms == 0 then join_pow_default_epoch_ms else ms)

-- `!best || achieved > best.achievedBits`
abbrev pub is_better : ℕ → Option Solution → Bool
is_better achieved none = true
is_better achieved (some best) = ltb best.achieved_bits achieved

module _ (sha256_hex : Text → Text) (to_text : ℕ → Text) where
  abbrev pub preimage_of : Fields → Text → Text
  preimage_of f nonce =
      f.group_id
      ++ b':' ∷ f.anchor_ref
      ++ b':' ∷ f.joiner_node_hash
      ++ b':' ∷ to_text f.epoch
      ++ b':' ∷ nonce

  unfoldable pub compute_join_pow_hash : Fields → Text → Text
  compute_join_pow_hash f nonce = sha256_hex (preimage_of f nonce)

  -- The checks of a solution that is there.
  unfoldable pub verify_solution :
      Text → Option Text → Option ℕ → Options → ℕ → Option Text → Verdict
  verify_solution anchor_ref _ none options now joiner = refused
  verify_solution anchor_ref none (some epoch) options now joiner = refused
  verify_solution anchor_ref (some nonce) (some epoch) options now joiner =
      let joiner_node_hash = or_sender joiner options.sender_node_hash in
      let anchors = keep_if (λ a. not (length a == 0)) options.known_anchors in
      let hash =
        compute_join_pow_hash
          (record {
            group_id = options.group_id;
            anchor_ref = anchor_ref;
            joiner_node_hash = joiner_node_hash;
            epoch = epoch;
          })
          nonce in
      if length anchor_ref == 0
        || length joiner_node_hash == 0
        || not (decided (text_dec joiner_node_hash options.sender_node_hash))
        || not (contains anchor_ref anchors)
        || is_off_epoch options.epoch_skew epoch (now / epoch_ms_of options.epoch_ms)
      then refused
      else record {
        ok = join_pow_hash_meets_difficulty hash options.difficulty_bits;
        achieved_bits = count_achieved_leading_zero_bits hash;
      }

  unfoldable pub verify_join_pow : Option Solution → Options → ℕ → Verdict
  verify_join_pow none options now =
      if options.difficulty_bits == 0 then record { ok = true; achieved_bits = 0 } else refused
  verify_join_pow (some s) options now =
      if options.difficulty_bits == 0
      then record { ok = true; achieved_bits = 0 }
      else verify_solution s.anchor_ref s.nonce s.epoch options now s.joiner_node_hash

  abbrev pub solution_of : Fields → ℕ → ℕ → Solution
  solution_of f nonce achieved = record {
    anchor_ref = f.anchor_ref;
    joiner_node_hash = some f.joiner_node_hash;
    epoch = some f.epoch;
    nonce = some (to_text nonce);
    achieved_bits = achieved;
  }

  -- The loop of `solveJoinPow`, on the attempts that are left.
  unfoldable pub solve_from : Fields → ℕ → ℕ → ℕ → ℕ → Option Solution → Option Solution
  solve_from f floor target zero nonce best = best
  solve_from f floor target (suc attempts) nonce best =
      let achieved = count_achieved_leading_zero_bits (compute_join_pow_hash f (to_text nonce)) in
      let kept =
        if leb floor achieved && is_better achieved best
        then some (solution_of f nonce achieved)
        else best in
      let rest = solve_from f floor target attempts (suc nonce) kept in
      if leb floor achieved && leb target achieved
      then some (solution_of f nonce achieved)
      else rest

  unfoldable pub solve_join_pow : Fields → ℕ → ℕ → ℕ → Option Solution
  solve_join_pow f floor_bits max_attempts target_bits =
      let floor = max 1 floor_bits in
      let target = max floor (if target_bits == 0 then floor else target_bits) in
      solve_from f floor target max_attempts 0 none
