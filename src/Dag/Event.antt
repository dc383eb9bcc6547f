-- ===== src/Dag/Event.antt =====
-- The bodies, ids and signed bytes of events in js/dag/index.mjs. SHA-256, the UTF-8 encoder and
-- `JSON.stringify` of a string are parameters. A field of an event is a value of the host, undefined
-- where it is absent; the parents are strings.
pub mod Identity
use fount_p2p.Base.{ℕ, Option, none, some, List, [], ◌∷◌, Bool, true, false, if◌then◌else◌, ◌||◌}
use fount_p2p.Core.CanonicalJson.{
  Value, null, undefined, string, array, object, Items, nil, cons, Entries, end, entry, Canonical,
  text, absent, thrown, is_undefined, canonical_stringify,
}
use fount_p2p.Core.HexIds.{Text, text_dec, decided, sorted_prev_event_ids}

abbrev pub type_key : Text
type_key = b't' ∷ b'y' ∷ b'p' ∷ b'e' ∷ []

abbrev pub group_id_key : Text
group_id_key = b'g' ∷ b'r' ∷ b'o' ∷ b'u' ∷ b'p' ∷ b'I' ∷ b'd' ∷ []

abbrev pub channel_id_key : Text
channel_id_key = b'c' ∷ b'h' ∷ b'a' ∷ b'n' ∷ b'n' ∷ b'e' ∷ b'l' ∷ b'I' ∷ b'd' ∷ []

abbrev pub sender_key : Text
sender_key = b's' ∷ b'e' ∷ b'n' ∷ b'd' ∷ b'e' ∷ b'r' ∷ []

abbrev pub char_id_key : Text
char_id_key = b'c' ∷ b'h' ∷ b'a' ∷ b'r' ∷ b'I' ∷ b'd' ∷ []

abbrev pub timestamp_key : Text
timestamp_key = b't' ∷ b'i' ∷ b'm' ∷ b'e' ∷ b's' ∷ b't' ∷ b'a' ∷ b'm' ∷ b'p' ∷ []

abbrev pub hlc_key : Text
hlc_key = b'h' ∷ b'l' ∷ b'c' ∷ []

abbrev pub prev_event_ids_key : Text
prev_event_ids_key =
    b'p' ∷ b'r' ∷ b'e' ∷ b'v' ∷ b'_' ∷ b'e' ∷ b'v' ∷ b'e' ∷ b'n' ∷ b't' ∷ b'_' ∷ b'i' ∷ b'd' ∷ b's'
    ∷ []

abbrev pub content_key : Text
content_key = b'c' ∷ b'o' ∷ b'n' ∷ b't' ∷ b'e' ∷ b'n' ∷ b't' ∷ []

abbrev pub node_id_key : Text
node_id_key = b'n' ∷ b'o' ∷ b'd' ∷ b'e' ∷ b'_' ∷ b'i' ∷ b'd' ∷ []

pub record Event : Type 0 where
  pub type : Value
  pub group_id : Value
  pub channel_id : Value
  pub sender : Value
  pub char_id : Value
  pub timestamp : Value
  pub hlc : Value
  pub prev_event_ids : List Text
  pub content : Value
  pub node_id : Value

unfoldable pub strip_undefined : Entries → Entries
strip_undefined end = end
strip_undefined (entry k v body) =
    let out = strip_undefined body in if is_undefined v then out else entry k v out

-- `value ?? null`
abbrev pub or_null : Value → Value
or_null undefined = null
or_null v = v

-- `value != null`
abbrev pub is_present : Value → Bool
is_present undefined = false
is_present null = false
is_present _ = true

abbrev pub strings : List Text → Items
strings [] = nil
strings (id ∷ ids) = cons (string id) (strings ids)

abbrev pub texts : Items → List Text
texts nil = []
texts (cons (string t) items) = t ∷ texts items
texts (cons _ items) = texts items

-- `raw || []`, as a list of strings.
abbrev pub ids_of_value : Value → List Text
ids_of_value (array items) = texts items
ids_of_value _ = []

-- `key in body`, `body[key]` and `{ ...body, [key]: value }`.
unfoldable pub has_key : Text → Entries → Bool
has_key key end = false
has_key key (entry k v body) = decided (text_dec k key) || has_key key body

unfoldable pub value_at : Text → Entries → Value
value_at key end = undefined
value_at key (entry k v body) =
    let rest = value_at key body in if decided (text_dec k key) then v else rest

unfoldable pub with_value : Text → Value → Entries → Entries
with_value key value end = entry key value end
with_value key value (entry k v body) =
    let rest = with_value key value body in
    if decided (text_dec k key) then entry k value body else entry k v rest

abbrev pub node_entry : Value → Entries
node_entry node_id = if is_present node_id then entry node_id_key node_id end else end

-- The body before `stripUndefined`, with the value of its parents.
abbrev pub full_body : Event → Value → Entries
full_body e parents = entry type_key e.type (
    entry group_id_key e.group_id (
      entry channel_id_key (or_null e.channel_id) (
        entry sender_key e.sender (
          entry char_id_key (or_null e.char_id) (
            entry timestamp_key e.timestamp (
              entry hlc_key e.hlc (
                entry prev_event_ids_key parents
                  (entry content_key e.content (node_entry e.node_id)))))))))

unfoldable pub event_body_for_sign : Event → Entries
event_body_for_sign e =
    strip_undefined (full_body e (array (strings (sorted_prev_event_ids e.prev_event_ids))))

-- The text of an object, or none where a TypeError is thrown.
abbrev pub text_of : Canonical → Option Text
text_of (text t) = some t
text_of absent = none
text_of thrown = none

abbrev pub with_sorted_parents : Entries → Entries
with_sorted_parents body =
    with_value prev_event_ids_key
      (array (strings (sorted_prev_event_ids (ids_of_value (value_at prev_event_ids_key body)))))
      body

module _ (json_string : Text → Text) (utf8 : Text → List ℕ) (sha256_hex : List ℕ → Text) where
  abbrev pub encoded : Option Text → Option (List ℕ)
  encoded none = none
  encoded (some t) = some (utf8 t)

  abbrev pub hashed : Option (List ℕ) → Option Text
  hashed none = none
  hashed (some bytes) = some (sha256_hex bytes)

  abbrev pub canonical_bytes : Entries → Option (List ℕ)
  canonical_bytes body = encoded (text_of (canonical_stringify json_string (object body)))

  unfoldable pub compute_event_id : Entries → Option Text
  compute_event_id body = hashed (
      canonical_bytes (
        strip_undefined
          (if has_key prev_event_ids_key body then with_sorted_parents body else body)))

  unfoldable pub sign_payload_bytes : Entries → Option (List ℕ)
  sign_payload_bytes body = canonical_bytes (strip_undefined (with_sorted_parents body))
