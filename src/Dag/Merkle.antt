-- ===== src/Dag/Merkle.antt =====
-- `merkleRoot` and `computeLocalTipsHash` of js/dag/index.mjs. SHA-256 and the UTF-8 encoder are
-- parameters; a buffer is the list of its bytes.
use fount_p2p.Base.{
  ℕ, zero, suc, ◌≤◌, ◌<◌, ◌≡◌, refl, List, [], ◌∷◌, ◌++◌, true, arith, ltb, if◌then◌else◌, inl, inr,
  length, map, sym, subst,
}
use fount_p2p.Core.BytesCodec.{bytes_to_hex}
use fount_p2p.Core.HexIds.{Text, text_lt, is_event_id, IsIn, sorted_prev_event_ids}
use fount_p2p.Core.HexIds.Order.{
  IsBelow, IsAscending, text_lt_irrefl, text_lt_trans, sorted_prev_event_ids_lem,
}

abbrev pub Buffer : Type 0
Buffer = List ℕ

module _ (sha256 : Buffer → Buffer) (utf8 : Text → Buffer) where
  -- One level from the one below: neighbours are hashed in pairs, a last odd one with itself.
  unfoldable pub pair_up : List Buffer → List Buffer
  pair_up [] = []
  pair_up (left ∷ []) = sha256 (left ++ left) ∷ []
  pair_up (left ∷ right ∷ level) = sha256 (left ++ right) ∷ pair_up level

  unfoldable pub reduce_levels : ℕ → List Buffer → List Buffer
  reduce_levels zero level = level
  reduce_levels (suc fuel) level =
      if ltb 1 (length level) then reduce_levels fuel (pair_up level) else level

  abbrev pub leaf : Text → Buffer
  leaf id = sha256 (utf8 id)

  -- `level[0]`
  abbrev pub first_or_empty : List Buffer → Buffer
  first_or_empty [] = []
  first_or_empty (b ∷ bs) = b

  unfoldable pub root_of : List Text → Buffer
  root_of [] = sha256 (utf8 [])
  root_of (id ∷ ids) = first_or_empty (reduce_levels (length (id ∷ ids)) (map leaf (id ∷ ids)))

  unfoldable pub merkle_root : List Text → Text
  merkle_root ids = bytes_to_hex (root_of (sorted_prev_event_ids ids))

  -- `sorted.join(',')`
  unfoldable pub join_commas : List Text → Text
  join_commas [] = []
  join_commas (id ∷ []) = id
  join_commas (id ∷ next ∷ ids) = id ++ b',' ∷ join_commas (next ∷ ids)

  unfoldable pub compute_local_tips_hash : List Text → Text
  compute_local_tips_hash tips =
      bytes_to_hex (sha256 (utf8 (join_commas (sorted_prev_event_ids tips))))

-- A member is above what is below the whole list.
IsBelow-IsIn : (a u : Text) (xs : List Text) → IsBelow a xs → IsIn u xs → text_lt a u ≡ true
IsBelow-IsIn a u [] h k = absurd k
IsBelow-IsIn a u (x ∷ xs) h (inl e) = subst (λ y. text_lt a y ≡ true) e h.0
IsBelow-IsIn a u (x ∷ xs) h (inr k) = IsBelow-IsIn a u xs h.1 k

abbrev pub Includes : List Text → List Text → Type 0
Includes xs ys = (u : Text) → IsIn u xs → IsIn u ys

head_unique :
    (x y : Text) (xs ys : List Text)
    → IsBelow x xs
    → IsBelow y ys
    → IsIn x (y ∷ ys)
    → IsIn y (x ∷ xs)
    → x ≡ y
head_unique x y xs ys h k (inl e) m = sym e
head_unique x y xs ys h k (inr l) (inl e) = e
head_unique x y xs ys h k (inr l) (inr m) =
    absurd (
      cc
        (text_lt_trans x y x (IsBelow-IsIn x y xs h m) (IsBelow-IsIn y x ys k l), text_lt_irrefl x))

tail-Includes :
    (x y : Text) (xs ys : List Text)
    → x ≡ y
    → IsBelow x xs
    → Includes (x ∷ xs) (y ∷ ys)
    → Includes xs ys
tail-Includes x y xs ys same h there u k = elim (there u (inr k)) [
  | inl e ↦ absurd (cc (IsBelow-IsIn x u xs h k, text_lt_irrefl x, same, e))
  | inr m ↦ m
]

-- Two ascending lists with the same members are the same list.
ascending_unique :
    (xs ys : List Text)
    → IsAscending xs
    → IsAscending ys
    → Includes xs ys
    → Includes ys xs
    → xs ≡ ys
ascending_unique [] [] h k there back = refl
ascending_unique [] (y ∷ ys) h k there back = absurd (back y (inl refl))
ascending_unique (x ∷ xs) [] h k there back = absurd (there x (inl refl))
ascending_unique (x ∷ xs) (y ∷ ys) h k there back =
    let same = head_unique x y xs ys h.0 k.0 (there x (inl refl)) (back y (inl refl)) in
    cc (
      same,
      ascending_unique xs ys h.1 k.1 (tail-Includes x y xs ys same h.0 there)
          (tail-Includes y x ys xs (sym same) k.0 back),
    )

-- The two lists hold the same event ids, whatever else they hold.
abbrev pub SameIds : List Text → List Text → Type 0
SameIds xs ys =
    (u : Text) → is_event_id u ≡ true → (IsIn u xs → IsIn u ys) × (IsIn u ys → IsIn u xs)

sorted_prev_event_ids-Includes :
    (xs ys : List Text)
    → ((u : Text) → is_event_id u ≡ true → IsIn u xs → IsIn u ys)
    → Includes (sorted_prev_event_ids xs) (sorted_prev_event_ids ys)
sorted_prev_event_ids-Includes xs ys h u k =
    let m = ((sorted_prev_event_ids_lem xs).1 u).0 k in
    ((sorted_prev_event_ids_lem ys).1 u).1 (h u m.1 m.0) m.1

pub sorted_prev_event_ids_agrees :
    (xs ys : List Text) → SameIds xs ys → sorted_prev_event_ids xs ≡ sorted_prev_event_ids ys
sorted_prev_event_ids_agrees xs ys h =
    ascending_unique (sorted_prev_event_ids xs) (sorted_prev_event_ids ys)
      (sorted_prev_event_ids_lem xs).0 (sorted_prev_event_ids_lem ys).0
      (sorted_prev_event_ids-Includes xs ys (λ u v. (h u v).0))
      (sorted_prev_event_ids-Includes ys xs (λ u v. (h u v).1))

-- Two lists that hold the same event ids, in any order, with any repetition and any invalid ids
-- besides, have the same Merkle root and the same local tips hash.
pub merkle_root_agrees :
    (sha256 : Buffer → Buffer) (utf8 : Text → Buffer) (xs ys : List Text)
    → SameIds xs ys
    → (merkle_root sha256 utf8 xs ≡ merkle_root sha256 utf8 ys)
      × (compute_local_tips_hash sha256 utf8 xs ≡ compute_local_tips_hash sha256 utf8 ys)
unfolding merkle_root compute_local_tips_hash
merkle_root_agrees sha256 utf8 xs ys h =
    let e = sorted_prev_event_ids_agrees xs ys h in (cc e, cc e)

length-pair_up-lt :
    (sha256 : Buffer → Buffer) (utf8 : Text → Buffer) (a b : Buffer) (level : List Buffer)
    → length (pair_up sha256 utf8 (a ∷ b ∷ level)) < length (a ∷ b ∷ level)
unfolding pair_up
length-pair_up-lt sha256 utf8 a b [] = omega arith
length-pair_up-lt sha256 utf8 a b (c ∷ []) = omega arith
length-pair_up-lt sha256 utf8 a b (c ∷ d ∷ level) =
    omega (arith, length-pair_up-lt sha256 utf8 c d level)

length-pair_up-pos :
    (sha256 : Buffer → Buffer) (utf8 : Text → Buffer) (a : Buffer) (level : List Buffer)
    → 1 ≤ length (pair_up sha256 utf8 (a ∷ level))
unfolding pair_up
length-pair_up-pos sha256 utf8 a [] = omega arith
length-pair_up-pos sha256 utf8 a (b ∷ level) = omega arith

-- As many rounds as there are nodes reduce a level that is not empty to a single node, the root.
pub length-reduce_levels :
    (sha256 : Buffer → Buffer) (utf8 : Text → Buffer) (fuel : ℕ) (level : List Buffer)
    → 1 ≤ length level
    → length level ≤ fuel
    → length (reduce_levels sha256 utf8 fuel level) ≡ 1
unfolding reduce_levels
length-reduce_levels sha256 utf8 fuel [] h k = absurd (omega arith)
length-reduce_levels sha256 utf8 zero (a ∷ level) h k = absurd (omega arith)
length-reduce_levels sha256 utf8 (suc fuel) (a ∷ []) h k = refl
length-reduce_levels sha256 utf8 (suc fuel) (a ∷ b ∷ level) h k = ground (
  arith,
  length-reduce_levels sha256 utf8 fuel (pair_up sha256 utf8 (a ∷ b ∷ level))
      (length-pair_up-pos sha256 utf8 a (b ∷ level))
      (omega (arith, length-pair_up-lt sha256 utf8 a b level)),
)
