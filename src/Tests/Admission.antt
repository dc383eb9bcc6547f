-- ===== src/Tests/Admission.antt =====
-- The theorems on the admission and succession of js/governance, on js/core/canonical_json.mjs and on
-- the ids of events in js/dag/index.mjs at concrete inputs.
use fount_p2p.Base.{
  ltb, ◌+◌, ◌*◌, ◌/◌, ◌||◌, ℕ, zero, suc, ℕ_discrete, ◌≡◌, refl, some, [], ◌∷◌, Bool, true, arith,
  length, leb, ◌&&◌, not, ◌==◌, replicate, inl, inr,
}
use fount_p2p.Core.HexIds.{Text, text_dec, contains, dedupe}
use fount_p2p.Core.CanonicalJson.{
  null, undefined, string, object, Entries, end, entry, canonical_stringify,
}
use fount_p2p.Core.CanonicalJson.KeyOrder.{keep, swap, skip, both, canonical_stringify_agrees}
use fount_p2p.Dag.Event.{
  Event, event_body_for_sign, compute_event_id, sign_payload_bytes, canonical_bytes, hashed,
}
use fount_p2p.Dag.Event.Identity.{compute_event_id_lem}
use fount_p2p.Dag.Merkle.{SameIds}
use fount_p2p.Governance.JoinPow
use fount_p2p.Governance.JoinPow.{parse_hex, and_bits, leading_zeros}
use fount_p2p.Governance.JoinPow.Difficulty.{IsHex, join_pow_hash_meets_difficulty_lem}
use fount_p2p.Governance.JoinPow.Search.{IsSolved, solve_join_pow_lem}
use fount_p2p.Governance.JoinPow.Verify.{asked, verify_join_pow-solve_join_pow}
use fount_p2p.Governance.Succession
use fount_p2p.Governance.Succession.Threshold.{
  count_if, supports, is_valid, verify_owner_succession_threshold_lem,
}

zeros-IsHex : (n : ℕ) → IsHex (replicate n b'0')
unfolding parse_hex
zeros-IsHex zero = tt
zeros-IsHex (suc n) = (refl, zeros-IsHex n)

abbrev zeros : Text
zeros = replicate 64 b'0'

-- A stand-in for the hash, and one for the print of a number.
abbrev zero_hash : Text → Text
zero_hash t = zeros

abbrev one_unit : ℕ → Text
one_unit n = n ∷ []

abbrev fields : JoinPow.Fields
fields = record {
  group_id = b'g' ∷ [];
  anchor_ref = b'a' ∷ [];
  joiner_node_hash = b'j' ∷ [];
  epoch = 7;
}

join_pow_hash_meets_difficulty_lem_example :
    JoinPow.join_pow_hash_meets_difficulty zeros 18
    ≡ leb 18 (JoinPow.count_achieved_leading_zero_bits zeros)
join_pow_hash_meets_difficulty_lem_example =
    join_pow_hash_meets_difficulty_lem zeros 18 (zeros-IsHex 64) refl (omega arith)

solve_join_pow_lem_example :
    IsSolved zero_hash one_unit fields 18 20 5
      (JoinPow.solve_join_pow zero_hash one_unit fields 18 5 20)
solve_join_pow_lem_example = solve_join_pow_lem zero_hash one_unit fields 18 5 20

solved :
    JoinPow.solve_join_pow zero_hash one_unit fields 18 5 0
    ≡ some (JoinPow.solution_of zero_hash one_unit fields 0 256)
unfolding JoinPow.solve_join_pow JoinPow.solve_from JoinPow.compute_join_pow_hash
    JoinPow.count_achieved_leading_zero_bits parse_hex
solved = refl

knows : contains fields.anchor_ref ((b'a' ∷ []) ∷ []) ≡ true
unfolding text_dec ℕ_discrete
knows = refl

verify_join_pow-solve_join_pow_example :
    JoinPow.verify_join_pow zero_hash one_unit
      (some (JoinPow.solution_of zero_hash one_unit fields 0 256))
      (asked zero_hash one_unit fields ((b'a' ∷ []) ∷ []) 18 0 (some 1))
      25200000
    ≡ record { ok = true; achieved_bits = 256 }
verify_join_pow-solve_join_pow_example =
    verify_join_pow-solve_join_pow zero_hash one_unit fields ((b'a' ∷ []) ∷ []) 18 5 0 0 (some 1)
      25200000 (JoinPow.solution_of zero_hash one_unit fields 0 256) (λ t. (zeros-IsHex 64, refl))
      refl refl knows refl (omega arith) (omega arith) solved

-- Two admins and one signature.
abbrev as_is : Text → Text
as_is t = t

abbrev accepts : Text → Text → Text → Bool
accepts signature message key = true

abbrev ballot : Succession.Ballot
ballot = record {
  proposed_owner_pub_key_hash = b'o' ∷ [];
  group_id = b'g' ∷ [];
  ballot_id = b'b' ∷ [];
  admin_signatures = record { pub_key_hex = zeros; signature = replicate 128 b'0' } ∷ [];
}

-- A ratio in hundredths, for the host's numbers.
abbrev is_no_share : ℕ → Bool
is_no_share percent = percent == 0 || ltb 100 percent

abbrev ceil_share : ℕ → ℕ → ℕ
ceil_share size percent = (size * percent + 99) / 100

verify_owner_succession_threshold_lem_example :
    let hashes = zeros ∷ (b'x' ∷ []) ∷ [] in
    let admins = dedupe [] hashes in
    let sign_bytes = Succession.owner_succession_ballot_sign_bytes as_is as_is accepts ballot in
    Succession.verify_owner_succession_threshold is_no_share ceil_share as_is as_is accepts ballot
      hashes 50
    ≡ (not (length admins == 0)
        && not (is_no_share 50)
        && leb (ceil_share (length admins) 50) (
            count_if (supports (is_valid accepts sign_bytes) as_is ballot.admin_signatures) admins))
verify_owner_succession_threshold_lem_example =
    verify_owner_succession_threshold_lem is_no_share ceil_share as_is as_is accepts ballot
      (zeros ∷ (b'x' ∷ []) ∷ []) 50 (λ size some_size in_range. omega arith)

abbrev b_then_a : Entries
b_then_a =
    entry (b'b' ∷ []) null
      (entry (b'a' ∷ []) (string (b's' ∷ [])) (entry (b'c' ∷ []) undefined end))

abbrev a_then_b : Entries
a_then_b = entry (b'a' ∷ []) (string (b's' ∷ [])) (entry (b'b' ∷ []) null end)

canonical_stringify_agrees_example :
    canonical_stringify as_is (object b_then_a) ≡ canonical_stringify as_is (object a_then_b)
canonical_stringify_agrees_example =
    canonical_stringify_agrees as_is b_then_a a_then_b
      (both (swap (λ e. ground arith)) (keep (keep skip)))

abbrev event : Event
event = record {
  type = string (b't' ∷ []);
  group_id = string (b'g' ∷ []);
  channel_id = undefined;
  sender = string (b's' ∷ []);
  char_id = undefined;
  timestamp = null;
  hlc = null;
  prev_event_ids = zeros ∷ zeros ∷ [];
  content = undefined;
  node_id = undefined;
}

once-SameIds : SameIds (zeros ∷ zeros ∷ []) (zeros ∷ [])
once-SameIds u valid = (
  λ h. elim h [ inl e ↦ inl e | inr (inl e) ↦ inl e | inr (inr k) ↦ absurd k ],
  λ h. elim h [ inl e ↦ inl e | inr k ↦ absurd k ],
)

compute_event_id_lem_example :
    let body = event_body_for_sign event in
    let other = event_body_for_sign (record event { prev_event_ids = zeros ∷ [] }) in
    let signed = sign_payload_bytes as_is as_is as_is body in
    (signed ≡ canonical_bytes as_is as_is as_is body)
    × (compute_event_id as_is as_is as_is body ≡ hashed as_is as_is as_is signed)
    × (compute_event_id as_is as_is as_is other ≡ hashed as_is as_is as_is signed)
compute_event_id_lem_example =
    compute_event_id_lem as_is as_is as_is event (zeros ∷ []) once-SameIds
