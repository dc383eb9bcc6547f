-- ===== src/Link/Reassembler/Slots.antt =====
-- The chunk slots of a message under way, against the chunks that the message has.
use fount_p2p.Base.{
  ℕ, zero, suc, ◌+◌, ◌≤◌, ◌<◌, ◌≡◌, refl, ◌≢◌, ◌⊎◌, Option, none, some, List, [], ◌∷◌, arith, inl,
  inr, length, get_elem?, set, replicate, length-append, ap, sym,
}
use fount_p2p.Link.Frame.Codec.{join}
use fount_p2p.Link.Reassembler.{concat_chunks}

abbrev pub Slots : Type 0
Slots = List (Option (List ℕ))

-- Each slot is empty or holds its chunk.
abbrev pub Matches : Slots → List (List ℕ) → Type 0
Matches [] [] = Unit
Matches [] (c ∷ cs) = ⊥
Matches (o ∷ os) [] = ⊥
Matches (o ∷ os) (c ∷ cs) = ((o ≡ none) ⊎ (o ≡ some c)) × Matches os cs

abbrev pub missing : Slots → ℕ
missing [] = 0
missing (none ∷ os) = suc (missing os)
missing (some c ∷ os) = missing os

abbrev pub held_bytes : Slots → ℕ
held_bytes [] = 0
held_bytes (none ∷ os) = held_bytes os
held_bytes (some c ∷ os) = length c + held_bytes os

pub Matches-replicate : (cs : List (List ℕ)) → Matches (replicate (length cs) none) cs
Matches-replicate [] = tt
Matches-replicate (c ∷ cs) = (inl refl, Matches-replicate cs)

pub missing-replicate : (n : ℕ) → missing (replicate n none) ≡ n
missing-replicate zero = refl
missing-replicate (suc n) = ap suc (missing-replicate n)

pub held_bytes-replicate : (n : ℕ) → held_bytes (replicate n none) ≡ 0
held_bytes-replicate zero = refl
held_bytes-replicate (suc n) = held_bytes-replicate n

pub get_elem?-replicate :
    (n i : ℕ) → i < n → get_elem? {A = Option (List ℕ)} (replicate n none) i ≡ some none
get_elem?-replicate zero i h = absurd (omega arith)
get_elem?-replicate (suc n) zero h = refl
get_elem?-replicate (suc n) (suc i) h = get_elem?-replicate n i (omega arith)

pub Matches-set :
    (os : Slots) (cs : List (List ℕ)) (i : ℕ) (c : List ℕ)
    → Matches os cs
    → get_elem? cs i ≡ some c
    → Matches (set os i (some c)) cs
Matches-set [] [] i c m e = tt
Matches-set [] (d ∷ cs) i c m e = absurd m
Matches-set (o ∷ os) [] i c m e = absurd m
Matches-set (o ∷ os) (d ∷ cs) zero c m e = (inr (sym e), m.1)
Matches-set (o ∷ os) (d ∷ cs) (suc i) c m e = (m.0, Matches-set os cs i c m.1 e)

pub missing-set :
    (os : Slots) (i : ℕ) (c : List ℕ)
    → get_elem? os i ≡ some none
    → suc (missing (set os i (some c))) ≡ missing os
missing-set [] i c e = cc
missing-set (none ∷ os) zero c e = refl
missing-set (some d ∷ os) zero c e = cc
missing-set (none ∷ os) (suc i) c e = ap suc (missing-set os i c e)
missing-set (some d ∷ os) (suc i) c e = missing-set os i c e

pub held_bytes-set :
    (os : Slots) (i : ℕ) (c : List ℕ)
    → get_elem? os i ≡ some none
    → held_bytes (set os i (some c)) ≡ held_bytes os + length c
held_bytes-set [] i c e = cc
held_bytes-set (none ∷ os) zero c e = omega arith
held_bytes-set (some d ∷ os) zero c e = cc
held_bytes-set (none ∷ os) (suc i) c e = held_bytes-set os i c e
held_bytes-set (some d ∷ os) (suc i) c e = omega (arith, held_bytes-set os i c e)

pub get_elem?-set_ne :
    (os : Slots) (i j : ℕ) (c : Option (List ℕ)) → i ≢ j → get_elem? (set os i c) j ≡ get_elem? os j
get_elem?-set_ne [] i j c h = refl
get_elem?-set_ne (o ∷ os) zero zero c h = absurd (h refl)
get_elem?-set_ne (o ∷ os) zero (suc j) c h = refl
get_elem?-set_ne (o ∷ os) (suc i) zero c h = refl
get_elem?-set_ne (o ∷ os) (suc i) (suc j) c h = get_elem?-set_ne os i j c (λ e. h (ap suc e))

pub held_bytes-le :
    (os : Slots) (cs : List (List ℕ)) → Matches os cs → held_bytes os ≤ length (join cs)
held_bytes-le [] [] m = omega arith
held_bytes-le [] (d ∷ cs) m = absurd m
held_bytes-le (o ∷ os) [] m = absurd m
held_bytes-le (none ∷ os) (d ∷ cs) m =
    omega (arith, held_bytes-le os cs m.1, length-append d (join cs))
held_bytes-le (some c ∷ os) (d ∷ cs) m =
    ground (arith, held_bytes-le os cs m.1, length-append d (join cs))

-- When nothing is missing the slots joined are the message.
pub concat_chunks-join :
    (os : Slots) (cs : List (List ℕ)) → Matches os cs → missing os ≡ 0 → concat_chunks os ≡ join cs
unfolding concat_chunks
concat_chunks-join [] [] m e = refl
concat_chunks-join [] (d ∷ cs) m e = absurd m
concat_chunks-join (o ∷ os) [] m e = absurd m
concat_chunks-join (none ∷ os) (d ∷ cs) m e = absurd (omega arith)
concat_chunks-join (some c ∷ os) (d ∷ cs) m e = ground (arith, concat_chunks-join os cs m.1)
