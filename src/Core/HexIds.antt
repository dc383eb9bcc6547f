-- ===== src/Core/HexIds.antt =====
-- js/core/hexIds.mjs, and `sortedPrevEventIds` of js/dag/index.mjs: event ids. A text is the list
-- of its UTF-16 units, compared from the left, as the host's `<` and `sort` do.
pub mod Order
pub mod Count
use fount_p2p.Base.{
  ℕ, zero, suc, ◌≤◌, ◌<◌, ◌≡◌, refl, ◌≢◌, ◌⊎◌, Option, none, some, List, [], ◌∷◌, ◌++◌, Bool, true,
  false, arith, ltb, leb, ◌==◌, if◌then◌else◌, inl, inr, ◌&&◌, ◌||◌, not, length, keep_if,
  ℕ_discrete, All, Bool-cases,
}

abbrev pub Text : Type 0
Text = List ℕ

unfoldable pub text_dec : Discrete Text
text_dec = hlevel ℕ_discrete

unfoldable pub is_hex_digit : ℕ → Bool
is_hex_digit c = leb b'0' c && leb c b'9' || leb b'a' c && leb c b'f'

unfoldable pub all_hex : Text → Bool
all_hex [] = true
all_hex (c ∷ cs) = is_hex_digit c && all_hex cs

-- `HEX_ID_64.test(id)`
unfoldable pub is_event_id : Text → Bool
is_event_id id = length id == 64 && all_hex id

-- `SIGNATURE_HEX_128.test(value)`
unfoldable pub is_signature : Text → Bool
is_signature value = length value == 128 && all_hex value

-- `a < b` on texts.
unfoldable pub text_lt : Text → Text → Bool
text_lt [] [] = false
text_lt [] (d ∷ ds) = true
text_lt (c ∷ cs) [] = false
text_lt (c ∷ cs) (d ∷ ds) = if c == d then text_lt cs ds else ltb c d

abbrev pub decided {ℓ} : {P : Type ℓ} → Dec P → Bool
decided (yes p) = true
decided (no p) = false

-- `set.has(a)`
abbrev pub contains : Text → List Text → Bool
contains a [] = false
contains a (x ∷ xs) = decided (text_dec x a) || contains a xs

-- `[...new Set(ids)]`: each id once, where it comes first.
unfoldable pub dedupe : List Text → List Text → List Text
dedupe seen [] = []
dedupe seen (x ∷ xs) = if contains x seen then dedupe seen xs else x ∷ dedupe (x ∷ seen) xs

-- `sort()`: by insertion, equal texts in their order.
unfoldable pub insert_sorted : Text → List Text → List Text
insert_sorted a [] = a ∷ []
insert_sorted a (x ∷ xs) = if text_lt a x then a ∷ x ∷ xs else x ∷ insert_sorted a xs

unfoldable pub sort : List Text → List Text
sort [] = []
sort (x ∷ xs) = insert_sorted x (sort xs)

-- An absent list of parents is the empty list.
unfoldable pub sorted_prev_event_ids : List Text → List Text
sorted_prev_event_ids raw = sort (dedupe [] (keep_if is_event_id raw))

-- Membership, as a type.
abbrev pub IsIn : Text → List Text → Type 0
IsIn a [] = ⊥
IsIn a (x ∷ xs) = (x ≡ a) ⊎ IsIn a xs

pub contains-IsIn : (a : Text) (xs : List Text) → contains a xs ≡ true → IsIn a xs
contains-IsIn a [] h = cc
contains-IsIn a (x ∷ xs) h = elim (text_dec x a) [
  | yes p ↦ inl p
  | no p ↦ inr (contains-IsIn a xs (ground arith))
]

pub IsIn-contains : (a : Text) (xs : List Text) → IsIn a xs → contains a xs ≡ true
IsIn-contains a [] h = absurd h
IsIn-contains a (x ∷ xs) (inl e) = ground arith
IsIn-contains a (x ∷ xs) (inr h) = ground (arith, IsIn-contains a xs h)

pub IsIn-append_left : (a : Text) (xs ys : List Text) → IsIn a xs → IsIn a (xs ++ ys)
IsIn-append_left a [] ys h = absurd h
IsIn-append_left a (x ∷ xs) ys (inl e) = inl e
IsIn-append_left a (x ∷ xs) ys (inr h) = inr (IsIn-append_left a xs ys h)

pub IsIn-append_right : (a : Text) (xs ys : List Text) → IsIn a ys → IsIn a (xs ++ ys)
IsIn-append_right a [] ys h = h
IsIn-append_right a (x ∷ xs) ys h = inr (IsIn-append_right a xs ys h)

pub IsIn-append : (a : Text) (xs ys : List Text) → IsIn a (xs ++ ys) → IsIn a xs ⊎ IsIn a ys
IsIn-append a [] ys h = inr h
IsIn-append a (x ∷ xs) ys (inl e) = inl (inl e)
IsIn-append a (x ∷ xs) ys (inr h) = elim (IsIn-append a xs ys h) [
  | inl k ↦ inl (inr k)
  | inr k ↦ inr k
]
