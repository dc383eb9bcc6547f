-- ===== src/Core/CanonicalJson.antt =====
-- js/core/canonical_json.mjs: the JSON text with sorted keys. `JSON.stringify` of a string is a
-- parameter; a number carries its own text.
pub mod KeyOrder
use fount_p2p.Base.{Option, none, some, List, [], ◌∷◌, ◌++◌, Bool, true, false, if◌then◌else◌}
use fount_p2p.Core.HexIds.{Text, text_lt}

-- A value of the host. A function or a symbol is `unsupported`.
mutual
  pub data Value : Type 0 where
    null undefined bigint unsupported : Value
    boolean : Bool → Value
    number : Text → Value
    string : Text → Value
    array : Items → Value
    object : Entries → Value

  pub data Items : Type 0 where
    nil : Items
    cons : Value → Items → Items

  pub data Entries : Type 0 where
    end : Entries
    entry : Text → Value → Entries → Entries

-- A text, the host's undefined, or a TypeError.
pub data Canonical : Type 0 where
  text : Text → Canonical
  absent thrown : Canonical

abbrev pub is_undefined : Value → Bool
is_undefined undefined = true
is_undefined _ = false

-- `join(',')`
abbrev pub join : List Text → Text
join [] = []
join (x ∷ []) = x
join (x ∷ y ∷ xs) = x ++ b',' ∷ join (y ∷ xs)

-- The sort of the keys, with what stands at each.
unfoldable pub insert_key : Text → Canonical → List (Text × Canonical) → List (Text × Canonical)
insert_key k c [] = (k, c) ∷ []
insert_key k c ((j, d) ∷ entries) =
    let rest = insert_key k c entries in
    if text_lt j k then (j, d) ∷ rest else (k, c) ∷ (j, d) ∷ entries

abbrev pub prepend : Canonical → Option (List Text) → Option (List Text)
prepend (text t) (some ts) = some (t ∷ ts)
prepend (text t) none = none
prepend absent ts = ts
prepend thrown ts = none

abbrev pub bracketed : Option (List Text) → Canonical
bracketed none = thrown
bracketed (some ts) = text (b'[' ∷ join ts ++ b']' ∷ [])

abbrev pub braced : Option (List Text) → Canonical
braced none = thrown
braced (some ts) = text (b'{' ∷ join ts ++ b'}' ∷ [])

abbrev pub null_text : Text
null_text = b'n' ∷ b'u' ∷ b'l' ∷ b'l' ∷ []

abbrev pub boolean_text : Bool → Text
boolean_text true = b't' ∷ b'r' ∷ b'u' ∷ b'e' ∷ []
boolean_text false = b'f' ∷ b'a' ∷ b'l' ∷ b's' ∷ b'e' ∷ []

module _ (json_string : Text → Text) where
  abbrev pub with_key : Text → Canonical → Canonical
  with_key k (text t) = text (json_string k ++ b':' ∷ t)
  with_key k absent = absent
  with_key k thrown = thrown

  unfoldable pub key_texts : List (Text × Canonical) → Option (List Text)
  key_texts [] = some []
  key_texts ((k, c) ∷ entries) = prepend (with_key k c) (key_texts entries)

  unfoldable mutual
    pub canonical_stringify : Value → Canonical
    canonical_stringify null = text null_text
    canonical_stringify undefined = absent
    canonical_stringify bigint = thrown
    canonical_stringify unsupported = thrown
    canonical_stringify (boolean b) = text (boolean_text b)
    canonical_stringify (number t) = text t
    canonical_stringify (string t) = text (json_string t)
    canonical_stringify (array items) = bracketed (item_texts items)
    canonical_stringify (object entries) = braced (key_texts (sorted_entries entries))

    pub item_texts : Items → Option (List Text)
    item_texts nil = some []
    item_texts (cons v items) =
        prepend (if is_undefined v then text null_text else canonical_stringify v)
          (item_texts items)

    -- The keys that are not undefined, sorted, with the texts of their values.
    pub sorted_entries : Entries → List (Text × Canonical)
    sorted_entries end = []
    sorted_entries (entry k v entries) =
        let rest = sorted_entries entries in
        let c = canonical_stringify v in if is_undefined v then rest else insert_key k c rest
