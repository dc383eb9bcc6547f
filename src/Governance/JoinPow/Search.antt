-- ===== src/Governance/JoinPow/Search.antt =====
-- `solveJoinPow` of js/governance/join_pow.mjs.
use fount_p2p.Base.{
  ℕ, zero, suc, ◌+◌, ◌≤◌, ◌<◌, ◌≡◌, refl, ◌⊎◌, Option, none, some, Bool, true, false, ltb, leb,
  ◌==◌, if◌then◌else◌, ◌&&◌, max, arith, inl, inr, Bool-cases, ap, subst, dec_le,
}
use fount_p2p.Core.HexIds.{Text}
use fount_p2p.Governance.JoinPow.{
  Fields, Solution, compute_join_pow_hash, count_achieved_leading_zero_bits, solution_of,
  solve_from, solve_join_pow, is_better,
}

below_suc : (P : ℕ → Type 0) (k : ℕ) → ((n : ℕ) → n < k → P n) → P k → (n : ℕ) → n < suc k → P n
below_suc P k h last n le = elim (dec_le (suc n) k) [
  | yes lt ↦ h n lt
  | no ge ↦ let e : k ≡ n = omega arith in subst P e last
]

module _ (sha256_hex : Text → Text) (to_text : ℕ → Text) where
  -- The zeros in front of the hash with a nonce.
  abbrev pub achieved : Fields → ℕ → ℕ
  achieved f nonce =
      count_achieved_leading_zero_bits (compute_join_pow_hash sha256_hex to_text f (to_text nonce))

  -- A solution with a nonce below a bound, that achieves the floor.
  abbrev pub IsFound : Fields → ℕ → ℕ → Solution → Type 0
  IsFound f floor bound s =
      (n : ℕ) × (n < bound)
      × (s ≡ solution_of sha256_hex to_text f n (achieved f n))
      × (floor ≤ achieved f n)

  -- The best of the nonces below a bound: none, where none achieves the floor.
  abbrev pub IsBest : Fields → ℕ → ℕ → Option Solution → Type 0
  IsBest f floor bound none = (n : ℕ) → n < bound → achieved f n < floor
  IsBest f floor bound (some s) =
      IsFound f floor bound s × ((n : ℕ) → n < bound → achieved f n ≤ s.achieved_bits)

  -- A solution that achieves the target, or the best of all attempts.
  abbrev pub IsSolved : Fields → ℕ → ℕ → ℕ → Option Solution → Type 0
  IsSolved f floor target attempts none = IsBest f floor attempts none
  IsSolved f floor target attempts (some s) =
      (IsFound f floor attempts s × (target ≤ s.achieved_bits)) ⊎ IsBest f floor attempts (some s)

  abbrev next_best : Fields → ℕ → ℕ → Option Solution → Option Solution
  next_best f floor nonce best =
      if leb floor (achieved f nonce) && is_better (achieved f nonce) best
      then some (solution_of sha256_hex to_text f nonce (achieved f nonce))
      else best

  IsFound-widen :
      (f : Fields) (floor bound : ℕ) (s : Solution)
      → IsFound f floor bound s
      → IsFound f floor (suc bound) s
  IsFound-widen f floor bound s (n, lt, same, enough) = (n, omega arith, same, enough)

  IsBest-suc :
      (f : Fields) (floor nonce : ℕ) (best : Option Solution)
      → IsBest f floor nonce best
      → IsBest f floor (suc nonce) (next_best f floor nonce best)
  IsBest-suc f floor nonce none h = elim (Bool-cases (leb floor (achieved f nonce))) [
    | inl e ↦ rw e (
      (nonce, omega arith, refl, ground arith),
      below_suc (λ n. achieved f n ≤ achieved f nonce) nonce (λ n lt. ground (arith, h n lt))
          (omega arith),
    )
    | inr e ↦ rw e (below_suc (λ n. achieved f n < floor) nonce h (ground arith))
  ]
  IsBest-suc f floor nonce (some s) (found, most) =
      elim (Bool-cases (leb floor (achieved f nonce))) [
        | inl e ↦ elim (Bool-cases (ltb s.achieved_bits (achieved f nonce))) [
          | inl better ↦
              rw (e, better)
                (
                  (nonce, omega arith, refl, ground arith),
                  below_suc (λ n. achieved f n ≤ achieved f nonce) nonce
                      (λ n lt. ground (arith, most n lt)) (omega arith),
                )
          | inr worse ↦
              rw (e, worse)
                (
                  IsFound-widen f floor nonce s found,
                  below_suc (λ n. achieved f n ≤ s.achieved_bits) nonce most (ground arith),
                )
        ]
        | inr e ↦ rw e (
          IsFound-widen f floor nonce s found,
          below_suc (λ n. achieved f n ≤ s.achieved_bits) nonce most
              (let (n, lt, same, enough) = found in
                let g : s.achieved_bits ≡ achieved f n = ap (λ t. Solution.achieved_bits t) same in
                ground arith),
        )
      ]

  IsBest-IsSolved :
      (f : Fields) (floor target bound : ℕ) (best : Option Solution)
      → IsBest f floor bound best
      → IsSolved f floor target bound best
  IsBest-IsSolved f floor target bound none h = h
  IsBest-IsSolved f floor target bound (some s) h = inr h

  IsSolved-if :
      (f : Fields) (floor target bound : ℕ) (b : Bool) (s : Solution) (o : Option Solution)
      → (b ≡ true → IsSolved f floor target bound (some s))
      → IsSolved f floor target bound o
      → IsSolved f floor target bound (if b then some s else o)
  IsSolved-if f floor target bound true s o h k = h refl
  IsSolved-if f floor target bound false s o h k = k

  solve_from_lem :
      (f : Fields) (floor target attempts nonce : ℕ) (best : Option Solution)
      → IsBest f floor nonce best
      → IsSolved f floor target
          (attempts + nonce)
          (solve_from sha256_hex to_text f floor target attempts nonce best)
  unfolding solve_from
  solve_from_lem f floor target zero nonce best h =
      let e : zero + nonce ≡ nonce = omega arith in
      rw e (IsBest-IsSolved f floor target nonce best h)
  solve_from_lem f floor target (suc attempts) nonce best h =
      let e : suc attempts + nonce ≡ attempts + suc nonce = omega arith in
      rw e (
        IsSolved-if f floor target (attempts + suc nonce)
          (leb floor (achieved f nonce) && leb target (achieved f nonce))
          (solution_of sha256_hex to_text f nonce (achieved f nonce))
          (solve_from sha256_hex to_text f floor target attempts (suc nonce)
            (next_best f floor nonce best))
          (λ both. inl ((nonce, omega arith, refl, ground arith), ground arith))
          (solve_from_lem f floor target attempts (suc nonce) (next_best f floor nonce best)
            (IsBest-suc f floor nonce best h)))

  -- `solveJoinPow` returns a solution that achieves the target, or the best of its attempts, and
  -- none only if no attempt achieves the floor.
  pub solve_join_pow_lem :
      (f : Fields) (floor_bits max_attempts target_bits : ℕ)
      → let floor = max 1 floor_bits in
        IsSolved f floor
          (max floor (if target_bits == 0 then floor else target_bits))
          max_attempts
          (solve_join_pow sha256_hex to_text f floor_bits max_attempts target_bits)
  unfolding solve_join_pow
  solve_join_pow_lem f floor_bits max_attempts target_bits =
      let floor = max 1 floor_bits in
      let target = max floor (if target_bits == 0 then floor else target_bits) in
      let e : max_attempts + 0 ≡ max_attempts = omega arith in
      subst
        (λ n.
          IsSolved f floor target n
            (solve_from sha256_hex to_text f floor target max_attempts 0 none))
        e (solve_from_lem f floor target max_attempts 0 none (λ n lt. absurd (omega arith)))

  pub IsSolved-IsFound :
      (f : Fields) (floor target attempts : ℕ) (o : Option Solution) (s : Solution)
      → IsSolved f floor target attempts o
      → o ≡ some s
      → IsFound f floor attempts s
  IsSolved-IsFound f floor target attempts none s h e = cc
  IsSolved-IsFound f floor target attempts (some t) s (inl h) e =
      let same : t ≡ s = cc in subst (IsFound f floor attempts) same h.0
  IsSolved-IsFound f floor target attempts (some t) s (inr h) e =
      let same : t ≡ s = cc in subst (IsFound f floor attempts) same h.0
