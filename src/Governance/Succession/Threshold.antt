-- ===== src/Governance/Succession/Threshold.antt =====
-- `verifyOwnerSuccessionThreshold` (js/governance/owner_succession_ballot.mjs) counts each admin with
-- a valid signature once.
use fount_p2p.Base.{
  ℕ, suc, ◌+◌, ◌≤◌, ◌<◌, ◌≡◌, refl, List, [], ◌∷◌, Bool, true, false, leb, ◌==◌, if◌then◌else◌,
  ◌&&◌, ◌||◌, not, length, arith, inl, inr, Bool-cases, dec_le, ap, sym, subst, ◌∙◌,
}
use fount_p2p.Core.HexIds.{
  Text, text_dec, decided, contains, contains-IsIn, IsIn-contains, IsIn, dedupe, is_event_id,
  is_signature,
}
use fount_p2p.Core.HexIds.Order.{IsNodup, dedupe-IsNodup}
use fount_p2p.Governance.Succession.{
  AdminSignature, Ballot, owner_succession_ballot_sign_bytes, counts, reaches,
  verify_owner_succession_threshold,
}

abbrev pub count_if : (Text → Bool) → List Text → ℕ
count_if p [] = 0
count_if p (x ∷ xs) = (if p x then 1 else 0) + count_if p xs

count_if-same :
    (p q : Text → Bool) (xs : List Text)
    → ((x : Text) → IsIn x xs → p x ≡ q x)
    → count_if p xs ≡ count_if q xs
count_if-same p q [] h = refl
count_if-same p q (x ∷ xs) h =
    ground (arith, h x (inl refl), count_if-same p q xs (λ y k. h y (inr k)))

count_if-le :
    (p q : Text → Bool) (xs : List Text)
    → ((x : Text) → p x ≡ true → q x ≡ true)
    → count_if p xs ≤ count_if q xs
count_if-le p q [] h = omega arith
count_if-le p q (x ∷ xs) h = ground (arith, h x, count_if-le p q xs h)

not_added : (p : Text → Bool) (a y : Text) → (a ≡ y → ⊥) → (decided (text_dec a y) || p y) ≡ p y
not_added p a y new = ground arith

-- One more member, that is in the list once.
count_if-suc :
    (p : Text → Bool) (a : Text) (xs : List Text)
    → IsNodup xs
    → IsIn a xs
    → p a ≡ false
    → count_if (λ x. decided (text_dec a x) || p x) xs ≡ suc (count_if p xs)
count_if-suc p a [] nodup h new = absurd h
count_if-suc p a (x ∷ xs) nodup h new = elim (text_dec a x) [
  | yes e ↦
      let others : count_if (λ y. decided (text_dec a y) || p y) xs ≡ count_if p xs =
        count_if-same (λ y. decided (text_dec a y) || p y) p xs
          (λ y k. not_added p a y (λ f. nodup.0 (subst (λ z. IsIn z xs) (sym f ∙ e) k))) in
      ground (arith, ap p e, others)
  | no d ↦ elim h [
    | inl e ↦ absurd (d (sym e))
    | inr k ↦ ground (arith, count_if-suc p a xs nodup.1 k new)
  ]
]

-- The admins that are seen or have a signature that counts.
abbrev pub supports : (AdminSignature → Bool) → (Text → Text) → List AdminSignature → Text → Bool
supports valid hash [] admin = false
supports valid hash (e ∷ entries) admin =
    valid e && decided (text_dec (hash e.pub_key_hex) admin) || supports valid hash entries admin

abbrev pub is_valid : (Text → Text → Text → Bool) → Text → AdminSignature → Bool
is_valid verify sign_bytes e =
    is_event_id e.pub_key_hex
    && is_signature e.signature
    && verify e.signature sign_bytes e.pub_key_hex

module _ (json_string : Text → Text) (pub_key_hash : Text → Text)
    (verify : Text → Text → Text → Bool) (sign_bytes : Text) (admins : List Text)
    (nodup : IsNodup admins) where
  abbrev is_supporter : List Text → List AdminSignature → Text → Bool
  is_supporter seen entries admin =
      contains admin seen || supports (is_valid verify sign_bytes) pub_key_hash entries admin

  abbrev all_counts : List Text → AdminSignature → Bool
  all_counts = counts json_string pub_key_hash verify sign_bytes admins

  skip-same :
      (e : AdminSignature) (entries : List AdminSignature) (seen : List Text) (a : Text)
      → all_counts seen e ≡ false
      → IsIn a admins
      → is_supporter seen entries a ≡ is_supporter seen (e ∷ entries) a
  skip-same e entries seen a skipped inside = elim (text_dec (pub_key_hash e.pub_key_hex) a) [
    | yes f ↦ ground (
      arith,
      ap (λ y. contains y seen) f,
      ap (λ y. contains y admins) f,
      IsIn-contains a admins inside,
    )
    | no d ↦ ground arith
  ]

  reaches_lem :
      (needed valid : ℕ) (entries : List AdminSignature) (seen : List Text)
      → valid ≡ count_if (λ a. contains a seen) admins
      → valid < needed
      → reaches json_string pub_key_hash verify sign_bytes admins needed entries seen valid
        ≡ leb needed (count_if (is_supporter seen entries) admins)
  unfolding reaches
  reaches_lem needed valid [] seen same few =
      let all : count_if (λ a. contains a seen) admins ≡ count_if (is_supporter seen []) admins =
        count_if-same (λ a. contains a seen) (is_supporter seen []) admins (λ a k. ground arith) in
      ground arith
  reaches_lem needed valid (e ∷ entries) seen same few =
      let hash = pub_key_hash e.pub_key_hex in
      elim (Bool-cases (all_counts seen e)) [
        | inl counted ↦
            let known : contains hash admins ≡ true = ground arith in
            let new : contains hash seen ≡ false = ground arith in
            let more : count_if (λ a. contains a (hash ∷ seen)) admins ≡ suc valid =
              count_if-suc (λ a. contains a seen) hash admins nodup
                (contains-IsIn hash admins known) new
              ∙ ap suc (sym same) in
            let alike : count_if (is_supporter (hash ∷ seen) entries) admins
                ≡ count_if (is_supporter seen (e ∷ entries)) admins =
              count_if-same (is_supporter (hash ∷ seen) entries) (is_supporter seen (e ∷ entries))
                admins (λ a k. ground arith) in
            let least : count_if (λ a. contains a (hash ∷ seen)) admins
                ≤ count_if (is_supporter (hash ∷ seen) entries) admins =
              count_if-le (λ a. contains a (hash ∷ seen)) (is_supporter (hash ∷ seen) entries)
                admins (λ a k. ground arith) in
            rw counted (elim (dec_le needed (suc valid)) [
              | yes reached ↦ ground (arith, more, alike, least)
              | no further ↦ ground (
                arith,
                reaches_lem needed (suc valid) entries (hash ∷ seen) (sym more) (omega arith),
                alike,
              )
            ])
        | inr skipped ↦ rw skipped (
            reaches_lem needed valid entries seen same few
            ∙ ap (leb needed) (
                count_if-same (is_supporter seen entries) (is_supporter seen (e ∷ entries)) admins
                  (λ a k. skip-same e entries seen a skipped k)))
      ]

count_if-none : (xs : List Text) → count_if (λ x. false) xs ≡ 0
count_if-none [] = refl
count_if-none (x ∷ xs) = omega (arith, count_if-none xs)

-- With some admin and a ratio in range, the ballot passes if and only if at least the needed number
-- of distinct admins, the host's rounded-up product, have a valid signature in it; without, it does
-- not pass. The product of a positive size and a ratio in range is taken to be positive.
pub verify_owner_succession_threshold_lem :
    {R : Type 0} (is_out_of_range : R → Bool) (ceil_product : ℕ → R → ℕ) (json_string : Text → Text)
    (pub_key_hash : Text → Text) (verify : Text → Text → Text → Bool) (b : Ballot)
    (hashes : List Text) (ratio : R)
    → ((size : ℕ) → 1 ≤ size → is_out_of_range ratio ≡ false → 1 ≤ ceil_product size ratio)
    → let admins = dedupe [] hashes in
      let sign_bytes = owner_succession_ballot_sign_bytes json_string pub_key_hash verify b in
      verify_owner_succession_threshold is_out_of_range ceil_product json_string pub_key_hash verify
        b hashes ratio
      ≡ (not (length admins == 0)
          && not (is_out_of_range ratio)
          && leb (ceil_product (length admins) ratio) (
              count_if
                (supports (is_valid verify sign_bytes) pub_key_hash b.admin_signatures)
                admins))
unfolding verify_owner_succession_threshold
verify_owner_succession_threshold_lem is_out_of_range ceil_product json_string pub_key_hash verify b
      hashes ratio positive =
    let admins = dedupe [] hashes in
    let sign_bytes = owner_succession_ballot_sign_bytes json_string pub_key_hash verify b in
    elim (Bool-cases (length admins == 0)) [
      | inl empty ↦ rw empty refl
      | inr some_admin ↦ elim (Bool-cases (is_out_of_range ratio)) [
        | inl out ↦ rw (some_admin, out) refl
        | inr fine ↦
            rw (some_admin, fine)
              (reaches_lem json_string pub_key_hash verify sign_bytes admins
                (dedupe-IsNodup [] hashes) (ceil_product (length admins) ratio) 0 b.admin_signatures
                [] (sym (count_if-none admins)) (positive (length admins) (ground arith) fine))
      ]
    ]
