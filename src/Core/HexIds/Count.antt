-- ===== src/Core/HexIds/Count.antt =====
-- How often an id is in a list.
use fount_p2p.Base.{
  ℕ, zero, suc, ◌+◌, ◌≤◌, ◌<◌, ◌≡◌, refl, none, some, List, [], ◌∷◌, ◌++◌, arith, ap, inl, inr,
  length, get_elem?, set, if◌then◌else◌, ltb, ◌==◌,
}
use fount_p2p.Core.HexIds.{Text, text_dec, decided, IsIn}

abbrev pub is_one : Text → Text → ℕ
is_one u x = if decided (text_dec x u) then 1 else 0

abbrev pub occurrences : Text → List Text → ℕ
occurrences u [] = 0
occurrences u (x ∷ xs) = is_one u x + occurrences u xs

pub occurrences-append :
    (u : Text) (xs ys : List Text) → occurrences u (xs ++ ys) ≡ occurrences u xs + occurrences u ys
occurrences-append u [] ys = omega arith
occurrences-append u (x ∷ xs) ys = omega (arith, occurrences-append u xs ys)

-- A write trades the old entry for the new one.
pub occurrences-set :
    (u : Text) (xs : List Text) (i : ℕ) (v w : Text)
    → get_elem? xs i ≡ some w
    → occurrences u (set xs i v) + is_one u w ≡ occurrences u xs + is_one u v
occurrences-set u [] i v w h = cc
occurrences-set u (x ∷ xs) zero v w h = ground arith
occurrences-set u (x ∷ xs) (suc i) v w h = omega (arith, occurrences-set u xs i v w h)

pub set_outside : (xs : List Text) (i : ℕ) (v : Text) → get_elem? xs i ≡ none → set xs i v ≡ xs
set_outside [] i v h = refl
set_outside (x ∷ xs) zero v h = cc
set_outside (x ∷ xs) (suc i) v h = cc (set_outside xs i v h)

pub get_elem?-set :
    (xs : List Text) (i j : ℕ) (v : Text)
    → get_elem? (set xs i v) j
      ≡ (if i == j then (if ltb i (length xs) then some v else none) else get_elem? xs j)
get_elem?-set [] i j v = ground arith
get_elem?-set (x ∷ xs) zero zero v = ground arith
get_elem?-set (x ∷ xs) zero (suc j) v = ground arith
get_elem?-set (x ∷ xs) (suc i) zero v = ground arith
get_elem?-set (x ∷ xs) (suc i) (suc j) v = ground (arith, get_elem?-set xs i j v)

pub get_elem?-some : (xs : List Text) (i : ℕ) (v : Text) → get_elem? xs i ≡ some v → i < length xs
get_elem?-some [] i v h = cc
get_elem?-some (x ∷ xs) zero v h = omega arith
get_elem?-some (x ∷ xs) (suc i) v h = omega (arith, get_elem?-some xs i v h)

pub get_elem?-none : (xs : List Text) (i : ℕ) → get_elem? xs i ≡ none → length xs ≤ i
get_elem?-none [] i h = omega arith
get_elem?-none (x ∷ xs) zero h = cc
get_elem?-none (x ∷ xs) (suc i) h = omega (arith, get_elem?-none xs i h)

pub occurrences-IsIn : (u : Text) (xs : List Text) → 1 ≤ occurrences u xs → IsIn u xs
occurrences-IsIn u [] h = absurd (omega arith)
occurrences-IsIn u (x ∷ xs) h = elim (text_dec x u) [
  | yes e ↦ inl e
  | no d ↦ inr (occurrences-IsIn u xs (ground arith))
]

pub IsIn-occurrences : (u : Text) (xs : List Text) → IsIn u xs → 1 ≤ occurrences u xs
IsIn-occurrences u [] h = absurd h
IsIn-occurrences u (x ∷ xs) (inl e) = ground arith
IsIn-occurrences u (x ∷ xs) (inr h) = omega (arith, IsIn-occurrences u xs h)

-- One of the places of an id, taken out.
abbrev remove_one : Text → List Text → List Text
remove_one u [] = []
remove_one u (x ∷ xs) = if decided (text_dec x u) then xs else x ∷ remove_one u xs

length-remove_one :
    (u : Text) (xs : List Text) → 1 ≤ occurrences u xs → suc (length (remove_one u xs)) ≡ length xs
length-remove_one u [] h = absurd (omega arith)
length-remove_one u (x ∷ xs) h = ground (arith, length-remove_one u xs)

occurrences-remove_one :
    (v u : Text) (xs : List Text)
    → 1 ≤ occurrences u xs
    → is_one v u + occurrences v (remove_one u xs) ≡ occurrences v xs
occurrences-remove_one v u [] h = absurd (omega arith)
occurrences-remove_one v u (x ∷ xs) h = elim (text_dec x u) [
  | yes e ↦ ground (arith, ap (is_one v) e)
  | no d ↦ ground (arith, occurrences-remove_one v u xs)
]

-- Lists with the same members, each as often, are equally long.
pub occurrences_same_length :
    (xs ys : List Text) → ((u : Text) → occurrences u xs ≡ occurrences u ys) → length xs ≡ length ys
occurrences_same_length [] [] h = refl
occurrences_same_length [] (y ∷ ys) h = absurd (ground (arith, h y))
occurrences_same_length (x ∷ xs) ys h =
    let there : 1 ≤ occurrences x ys = ground (arith, h x) in
    omega (
      arith,
      length-remove_one x ys there,
      occurrences_same_length xs (remove_one x ys)
          (λ u. omega (arith, h u, occurrences-remove_one u x ys there)),
    )
