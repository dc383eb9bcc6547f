-- ===== src/Governance/JoinPow/Verify.antt =====
-- What `verifyJoinPow` of js/governance/join_pow.mjs says of the solutions of `solveJoinPow`.
use fount_p2p.Base.{
  ℕ, ◌/◌, ◌≤◌, ◌≡◌, refl, Option, some, List, true, false, ◌==◌, if◌then◌else◌, not, length,
  keep_if, max, arith, ap, sym, ◌∙◌, subst,
}
use fount_p2p.Core.HexIds.{Text, text_dec, decided, contains, contains-IsIn, IsIn-contains}
use fount_p2p.Core.HexIds.Order.{keep_if-IsIn}
use fount_p2p.Governance.JoinPow.Difficulty.{IsHex, join_pow_hash_meets_difficulty_lem}
use fount_p2p.Governance.JoinPow.{
  Fields, Solution, Options, compute_join_pow_hash, solution_of, solve_join_pow, verify_join_pow,
  verify_solution, preimage_of, is_off_epoch, epoch_ms_of, join_pow_hash_meets_difficulty,
}
use fount_p2p.Governance.JoinPow.Search.{achieved, IsSolved-IsFound, solve_join_pow_lem}

module _ (sha256_hex : Text → Text) (to_text : ℕ → Text) where
  -- What a group asks of the solver of its fields.
  abbrev pub asked : Fields → List Text → ℕ → ℕ → Option ℕ → Options
  asked f anchors difficulty ms skew = record {
    group_id = f.group_id;
    sender_node_hash = f.joiner_node_hash;
    known_anchors = anchors;
    difficulty_bits = difficulty;
    epoch_ms = ms;
    epoch_skew = skew;
  }

  anchor-known :
      (a : Text) (anchors : List Text)
      → (length a == 0) ≡ false
      → contains a anchors ≡ true
      → contains a (keep_if (λ b. not (length b == 0)) anchors) ≡ true
  anchor-known a anchors named known =
      IsIn-contains a (keep_if (λ b. not (length b == 0)) anchors) (
        keep_if-IsIn a (λ b. not (length b == 0)) anchors (contains-IsIn a anchors known)
          (ap not named))

  hash-IsHex :
      (f : Fields) (nonce : Text)
      → ((t : Text) → IsHex (sha256_hex t) × (length (sha256_hex t) ≡ 64))
      → let hash = compute_join_pow_hash sha256_hex to_text f nonce in
        IsHex hash × (length hash ≡ 64)
  unfolding compute_join_pow_hash
  hash-IsHex f nonce sha = sha (preimage_of sha256_hex to_text f nonce)

  verify-found :
      (f : Fields) (anchors : List Text) (difficulty ms : ℕ) (skew : Option ℕ) (now n : ℕ)
      → ((t : Text) → IsHex (sha256_hex t) × (length (sha256_hex t) ≡ 64))
      → (length f.anchor_ref == 0) ≡ false
      → (length f.joiner_node_hash == 0) ≡ false
      → contains f.anchor_ref anchors ≡ true
      → is_off_epoch skew f.epoch (now / epoch_ms_of ms) ≡ false
      → 1 ≤ difficulty
      → difficulty ≤ 256
      → difficulty ≤ achieved sha256_hex to_text f n
      → verify_join_pow sha256_hex to_text
          (some (solution_of sha256_hex to_text f n (achieved sha256_hex to_text f n)))
          (asked f anchors difficulty ms skew)
          now
        ≡ record { ok = true; achieved_bits = achieved sha256_hex to_text f n }
  unfolding verify_join_pow verify_solution
  verify-found f anchors difficulty ms skew now n sha named joiner known on_time some_bits few_bits
        enough =
      let hash = compute_join_pow_hash sha256_hex to_text f (to_text n) in
      let meets : join_pow_hash_meets_difficulty hash difficulty ≡ true =
        join_pow_hash_meets_difficulty_lem hash difficulty (hash-IsHex f (to_text n) sha).0
          (hash-IsHex f (to_text n) sha).1 few_bits
        ∙ ground arith in
      let asks : (difficulty == 0) ≡ false = ground arith in
      let same : decided (text_dec f.joiner_node_hash f.joiner_node_hash) ≡ true = ground arith in
      rw (asks, named, joiner, same, anchor-known f.anchor_ref anchors named known, on_time, meets)
        refl

  -- A solution of `solveJoinPow` passes `verifyJoinPow` with its bits, where the group asks for the
  -- difficulty that was solved, of 1 to 256 bits, knows the anchor, and the epoch is not off.
  pub verify_join_pow-solve_join_pow :
      (f : Fields) (anchors : List Text) (difficulty max_attempts target_bits ms : ℕ)
      (skew : Option ℕ) (now : ℕ) (s : Solution)
      → ((t : Text) → IsHex (sha256_hex t) × (length (sha256_hex t) ≡ 64))
      → (length f.anchor_ref == 0) ≡ false
      → (length f.joiner_node_hash == 0) ≡ false
      → contains f.anchor_ref anchors ≡ true
      → is_off_epoch skew f.epoch (now / epoch_ms_of ms) ≡ false
      → 1 ≤ difficulty
      → difficulty ≤ 256
      → solve_join_pow sha256_hex to_text f difficulty max_attempts target_bits ≡ some s
      → verify_join_pow sha256_hex to_text (some s) (asked f anchors difficulty ms skew) now
        ≡ record { ok = true; achieved_bits = s.achieved_bits }
  verify_join_pow-solve_join_pow f anchors difficulty max_attempts target_bits ms skew now s sha
        named joiner known on_time some_bits few_bits solved =
      let floor = max 1 difficulty in
      let (n, lt, same, enough) =
        IsSolved-IsFound sha256_hex to_text f floor
          (max floor (if target_bits == 0 then floor else target_bits)) max_attempts
          (solve_join_pow sha256_hex to_text f difficulty max_attempts target_bits) s
          (solve_join_pow_lem sha256_hex to_text f difficulty max_attempts target_bits) solved in
      subst
        (λ t.
          verify_join_pow sha256_hex to_text (some t) (asked f anchors difficulty ms skew) now
          ≡ record { ok = true; achieved_bits = Solution.achieved_bits t })
        (sym same)
        (verify-found f anchors difficulty ms skew now n sha named joiner known on_time some_bits
          few_bits (omega arith))
