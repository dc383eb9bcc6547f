-- ===== src/Core/CanonicalJson/KeyOrder.antt =====
-- The text of js/core/canonical_json.mjs does not depend on the order of the keys.
use fount_p2p.Base.{
  ◌≡◌, refl, ◌≢◌, List, [], ◌∷◌, true, false, arith, inl, inr, Bool-cases, ap, ◌∙◌, if◌then◌else◌,
}
use fount_p2p.Core.HexIds.{Text, text_lt}
use fount_p2p.Core.HexIds.Order.{text_lt_connex, text_lt_negtrans, text_lt_trans, text_lt_irrefl}
use fount_p2p.Core.CanonicalJson.{
  Value, Entries, entry, object, Canonical, insert_key, canonical_stringify, sorted_entries,
  key_texts, braced, is_undefined, undefined,
}

-- The same entries in another order, or without one whose value is undefined.
pub data IsReorder : Entries → Entries → Type 0 where
  same : {es : Entries} → IsReorder es es
  keep :
      {k : Text} {v : Value} {es fs : Entries}
      → IsReorder es fs
      → IsReorder (entry k v es) (entry k v fs)
  swap :
      {j k : Text} {v w : Value} {es : Entries}
      → j ≢ k
      → IsReorder (entry j v (entry k w es)) (entry k w (entry j v es))
  skip : {k : Text} {es : Entries} → IsReorder (entry k undefined es) es
  both : {es fs gs : Entries} → IsReorder es fs → IsReorder fs gs → IsReorder es gs

-- Distinct keys: just one is below the other.
text_lt_flip : (j k : Text) → j ≢ k → text_lt k j ≡ (if text_lt j k then false else true)
text_lt_flip j k new = elim (Bool-cases (text_lt j k)) [
  | inl below ↦ rw below (elim (Bool-cases (text_lt k j)) [
    | inl above ↦ cc (text_lt_trans j k j below above, text_lt_irrefl j)
    | inr fine ↦ fine
  ])
  | inr not_below ↦ rw not_below (elim (Bool-cases (text_lt k j)) [
    | inl above ↦ above
    | inr neither ↦ absurd (new (text_lt_connex j k not_below neither))
  ])
]

insert_key_comm :
    (j k : Text) (c d : Canonical) (entries : List (Text × Canonical))
    → j ≢ k
    → insert_key j c (insert_key k d entries) ≡ insert_key k d (insert_key j c entries)
unfolding insert_key
insert_key_comm j k c d [] new = ground (arith, text_lt_flip j k new)
insert_key_comm j k c d ((i, e) ∷ entries) new = ground (
  arith,
  text_lt_flip j k new,
  insert_key_comm j k c d entries new,
  text_lt_negtrans i j k,
  text_lt_negtrans i k j,
)

module _ (json_string : Text → Text) where
  sorted_entries-same :
      (es fs : Entries)
      → IsReorder es fs
      → sorted_entries json_string es ≡ sorted_entries json_string fs
  unfolding sorted_entries
  sorted_entries-same xs ys same = refl
  sorted_entries-same xs ys (keep {k} {v} {es} {fs} r) =
      ap
        (λ rest.
          if is_undefined v then rest else insert_key k (canonical_stringify json_string v) rest)
        (sorted_entries-same es fs r)
  sorted_entries-same xs ys (swap {j} {k} {v} {w} {es} new) = ground (
    arith,
    insert_key_comm j k (canonical_stringify json_string v) (canonical_stringify json_string w)
        (sorted_entries json_string es) new,
    Bool-cases (is_undefined v),
    Bool-cases (is_undefined w),
  )
  sorted_entries-same xs ys skip = refl
  sorted_entries-same xs ys (both {es} {fs} {gs} r q) =
      sorted_entries-same es fs r ∙ sorted_entries-same fs gs q

  -- Two objects with the same entries in another order, or with and without entries whose value is
  -- undefined, have the same text.
  pub canonical_stringify_agrees :
      (es fs : Entries)
      → IsReorder es fs
      → canonical_stringify json_string (object es) ≡ canonical_stringify json_string (object fs)
  unfolding canonical_stringify
  canonical_stringify_agrees es fs r =
      ap (λ entries. braced (key_texts json_string entries)) (sorted_entries-same es fs r)
