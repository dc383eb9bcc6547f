-- ===== src/Link/Frame/Search.antt =====
-- js/link/frame.mjs, `maxFrameChunkBytesForPayload`: the largest chunk whose encoded frame fits a
-- limit, by binary search. The payload's encoding is a parameter: its length in characters at a
-- number of bytes.
use fount_p2p.Base.{
  ℕ, zero, suc, max, ◌+◌, ◌-◌, ◌/◌, ◌≤◌, ◌<◌, ◌≡◌, refl, Bool, true, false, arith, ltb, leb, inl,
  inr, dec_le, Bool-cases,
}

module _ (encoded_length : ℕ → ℕ) (header_bytes limit : ℕ) where
  abbrev candidate : ℕ → ℕ → ℕ
  candidate lower upper = (lower + upper + 2) / 2

  abbrev fits : ℕ → Bool
  fits chunk = leb (encoded_length (header_bytes + chunk)) limit

  -- The loop, on fuel; `candidate` is the source's `Math.ceil((lower + upper + 1) / 2)`.
  unfoldable pub search : ℕ → ℕ → ℕ → ℕ
  search zero lower upper = lower
  search (suc fuel) lower upper = elim (ltb lower upper) [
    | false ↦ lower
    | true ↦ elim (fits (candidate lower upper)) [
      | true ↦ search fuel (candidate lower upper) upper
      | false ↦ search fuel lower (candidate lower upper - 1)
    ]
  ]

  abbrev IsMonotone : Type 0
  IsMonotone = (a b : ℕ) → a ≤ b → encoded_length a ≤ encoded_length b

  -- The result, between the bounds of the search.
  pub record IsLargest (upper result : ℕ) : Type 0 where
    pub within : result ≤ upper
    pub largest : (c : ℕ) → c ≤ upper → encoded_length (header_bytes + c) ≤ limit → c ≤ result
    pub fits_if_any : (0 < result) → encoded_length (header_bytes + result) ≤ limit

  -- A candidate that does not fit bounds every chunk that does.
  below_misfit :
      (c d : ℕ)
      → IsMonotone
      → fits c ≡ false
      → encoded_length (header_bytes + d) ≤ limit
      → d ≤ c - 1
  below_misfit c d mono no_fit h = elim (dec_le c d) [
    | yes above ↦ absurd (ground (arith, mono (header_bytes + c) (header_bytes + d) (omega arith)))
    | no below ↦ omega arith
  ]

  search-zero : (lower upper : ℕ) → search zero lower upper ≡ lower
  unfolding search
  search-zero lower upper = refl

  search_done :
      (fuel lower upper : ℕ) → ltb lower upper ≡ false → search (suc fuel) lower upper ≡ lower
  unfolding search
  search_done fuel lower upper h = ground arith

  search_fit :
      (fuel lower upper : ℕ)
      → ltb lower upper ≡ true
      → fits (candidate lower upper) ≡ true
      → search (suc fuel) lower upper ≡ search fuel (candidate lower upper) upper
  unfolding search
  search_fit fuel lower upper h k = ground arith

  search_misfit :
      (fuel lower upper : ℕ)
      → ltb lower upper ≡ true
      → fits (candidate lower upper) ≡ false
      → search (suc fuel) lower upper ≡ search fuel lower (candidate lower upper - 1)
  unfolding search
  search_misfit fuel lower upper h k = ground arith

  -- A bound on the search moves up over chunks that do not fit.
  raise_upper :
      (lower upper r : ℕ)
      → IsMonotone
      → lower < upper
      → fits (candidate lower upper) ≡ false
      → IsLargest (candidate lower upper - 1) r
      → IsLargest upper r
  raise_upper lower upper r mono lt no_fit l = record {
    within = omega (arith, l.within);
    largest = λ c h e. l.largest c (below_misfit (candidate lower upper) c mono no_fit e) e;
    fits_if_any = l.fits_if_any;
  }

  search-IsLargest :
      (fuel lower upper : ℕ)
      → IsMonotone
      → lower ≤ upper
      → upper - lower ≤ fuel
      → ((0 < lower) → encoded_length (header_bytes + lower) ≤ limit)
      → IsLargest upper (search fuel lower upper)
  search-IsLargest zero lower upper mono ord enough ok_so_far =
      rw search-zero
        (record { within = ord; largest = λ c h _. omega arith; fits_if_any = ok_so_far })
  search-IsLargest (suc fuel) lower upper mono ord enough ok_so_far =
      let c = candidate lower upper in
      elim (Bool-cases (ltb lower upper)) [
        | inl more ↦ elim (Bool-cases (fits c)) [
          | inl fit ↦
              rw (search_fit fuel lower upper more fit) (
                search-IsLargest fuel c upper mono (ground arith) (ground arith)
                  (λ _. ground arith))
          | inr no_fit ↦ rw (search_misfit fuel lower upper more no_fit) (
              raise_upper lower upper (search fuel lower (c - 1)) mono (ground arith) no_fit
                (search-IsLargest fuel lower (c - 1) mono (ground arith) (ground arith) ok_so_far))
        ]
        | inr done ↦
            rw (search_done fuel lower upper done)
              (record { within = ord; largest = λ c h _. ground arith; fits_if_any = ok_so_far })
      ]

-- `limit` is `Math.max(1, Math.floor(Number(maxPayloadChars) || 0))`.
unfoldable pub max_frame_chunk_bytes_for_payload : ℕ → (ℕ → ℕ) → ℕ → ℕ
max_frame_chunk_bytes_for_payload max_payload_chars encoded_length header_bytes =
    let limit = max 1 max_payload_chars in search encoded_length header_bytes limit limit 0 limit

-- For an encoding that does not shrink as bytes are added, the result is the largest number of
-- chunk bytes, up to the limit, whose frame fits the limit; it is 0 if none does.
pub max_frame_chunk_bytes_for_payload-IsLargest :
    (max_payload_chars : ℕ) (encoded_length : ℕ → ℕ) (header_bytes : ℕ)
    → ((a b : ℕ) → a ≤ b → encoded_length a ≤ encoded_length b)
    → IsLargest encoded_length header_bytes
        (max 1 max_payload_chars)
        (max 1 max_payload_chars)
        (max_frame_chunk_bytes_for_payload max_payload_chars encoded_length header_bytes)
unfolding max_frame_chunk_bytes_for_payload
max_frame_chunk_bytes_for_payload-IsLargest m encoded_length header_bytes mono =
    let limit = max 1 m in
    search-IsLargest encoded_length header_bytes limit limit 0 limit mono (omega arith)
      (omega arith) (λ h. absurd (omega arith))
