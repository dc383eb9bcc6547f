-- ===== src/Link/ChannelMux/Insertion.antt =====
-- The binary search of js/link/channel_mux.mjs finds the place of a linear search.
use fount_p2p.Base.{
  ℕ, zero, suc, ◌+◌, ◌-◌, ◌/◌, ◌≤◌, ◌<◌, ◌≡◌, refl, List, [], ◌∷◌, Bool, true, arith, leb,
  if◌then◌else◌, inl, inr, length, get_elem?, All, Bool-cases,
}
use fount_p2p.Link.ChannelMux.{test_at, search, splice_in}

module _ {A : Type 0} (before : A → Bool) where
  -- The number of entries up to the first that passes the test.
  abbrev pub rank : List A → ℕ
  rank [] = 0
  rank (x ∷ xs) = if before x then 0 else suc (rank xs)

  -- Once an entry passes the test, all later ones do.
  abbrev pub UpClosed : List A → Type 0
  UpClosed [] = Unit
  UpClosed (x ∷ xs) = (before x ≡ true → All (λ y. before y ≡ true) xs) × UpClosed xs

  rank-le-length : (xs : List A) → rank xs ≤ length xs
  rank-le-length [] = omega arith
  rank-le-length (x ∷ xs) = ground (arith, rank-le-length xs)

  All-get_elem? :
      (xs : List A) (i : ℕ)
      → All (λ y. before y ≡ true) xs
      → i < length xs
      → test_at before (get_elem? xs i) ≡ true
  All-get_elem? [] i h lt = absurd (omega arith)
  All-get_elem? (x ∷ xs) zero h lt = h.0
  All-get_elem? (x ∷ xs) (suc i) h lt = All-get_elem? xs i h.1 (omega arith)

  -- In such a list the entries that pass are those from the rank on.
  test_at-rank :
      (xs : List A) (i : ℕ)
      → UpClosed xs
      → i < length xs
      → test_at before (get_elem? xs i) ≡ leb (rank xs) i
  test_at-rank [] i u lt = absurd (omega arith)
  test_at-rank (x ∷ xs) zero u lt = ground arith
  test_at-rank (x ∷ xs) (suc i) u lt = elim (Bool-cases (before x)) [
    | inl p ↦ rw p (ground (arith, All-get_elem? xs i (u.0 p)))
    | inr n ↦ rw (n, test_at-rank xs i u.1 (omega arith)) (ground arith)
  ]

  -- Each round keeps the rank between the bounds, and the bounds meet within the fuel.
  search-rank_between :
      (fuel lo hi : ℕ) (xs : List A)
      → UpClosed xs
      → hi ≤ length xs
      → lo ≤ rank xs
      → rank xs ≤ hi
      → hi - lo ≤ fuel
      → search before fuel lo hi xs ≡ rank xs
  unfolding search
  search-rank_between zero lo hi xs u len l h enough = omega arith
  search-rank_between (suc fuel) lo hi xs u len l h enough =
      let mid = (lo + hi) / 2 in
      ground (
        arith,
        test_at-rank xs mid u,
        search-rank_between fuel lo mid xs u,
        search-rank_between fuel (mid + 1) hi xs u len,
      )

  pub search-rank :
      (xs : List A) → UpClosed xs → search before (length xs) 0 (length xs) xs ≡ rank xs
  search-rank xs u =
      search-rank_between (length xs) 0 (length xs) xs u (omega arith) (omega arith)
        (rank-le-length xs) (omega arith)

  -- The reference: put the item before the first entry that passes.
  unfoldable pub place : A → List A → List A
  place a [] = a ∷ []
  place a (x ∷ xs) = if before x then a ∷ x ∷ xs else x ∷ place a xs

  splice_in-rank : (a : A) (xs : List A) → splice_in (rank xs) a xs ≡ place a xs
  unfolding place
  splice_in-rank a [] = refl
  splice_in-rank a (x ∷ xs) = ground (arith, splice_in-rank a xs)

  -- On such a list, inserting at the place of the binary search is inserting before the first entry
  -- that passes.
  pub splice_in-search :
      (a : A) (xs : List A)
      → UpClosed xs
      → splice_in (search before (length xs) 0 (length xs) xs) a xs ≡ place a xs
  splice_in-search a xs u = rw (search-rank xs u) (splice_in-rank a xs)
