-- ===== src/Dag/Event/Identity.antt =====
-- What identifies an event in js/dag/index.mjs: the canonical text of its body.
use fount_p2p.Base.{
  ◌≡◌, refl, List, [], ◌∷◌, true, false, arith, inl, inr, Bool-cases, ap, ◌∙◌, sym, ℕ, ℕ_discrete,
}
use fount_p2p.Core.CanonicalJson.{Value, array, Entries, end, entry, is_undefined}
use fount_p2p.Core.HexIds.{Text, text_dec, sorted_prev_event_ids}
use fount_p2p.Dag.Merkle.{SameIds, sorted_prev_event_ids_agrees}
use fount_p2p.Core.HexIds.Order.{sorted_prev_event_ids_lem}
use fount_p2p.Dag.Event.{
  Event, strip_undefined, strings, texts, ids_of_value, has_key, value_at, with_value,
  event_body_for_sign, full_body, with_sorted_parents, prev_event_ids_key, compute_event_id,
  sign_payload_bytes, canonical_bytes, hashed,
}

texts-strings : (ids : List Text) → texts (strings ids) ≡ ids
texts-strings [] = refl
texts-strings (id ∷ ids) = ap (◌∷◌ id) (texts-strings ids)

-- Sorting again changes nothing.
sorted_prev_event_ids_twice :
    (raw : List Text)
    → sorted_prev_event_ids (sorted_prev_event_ids raw) ≡ sorted_prev_event_ids raw
sorted_prev_event_ids_twice raw =
    sorted_prev_event_ids_agrees (sorted_prev_event_ids raw) raw (λ u valid. (
      λ h. (((sorted_prev_event_ids_lem raw).1 u).0 h).0,
      λ h. ((sorted_prev_event_ids_lem raw).1 u).1 h valid,
    ))

strip_undefined_kept :
    (k : Text) (v : Value) (body : Entries)
    → is_undefined v ≡ false
    → strip_undefined (entry k v body) ≡ entry k v (strip_undefined body)
unfolding strip_undefined
strip_undefined_kept k v body h = rw h refl

strip_undefined_twice :
    (body : Entries) → strip_undefined (strip_undefined body) ≡ strip_undefined body
unfolding strip_undefined
strip_undefined_twice end = refl
strip_undefined_twice (entry k v body) = elim (Bool-cases (is_undefined v)) [
  | inl gone ↦ rw gone (strip_undefined_twice body)
  | inr kept ↦
      ap strip_undefined (strip_undefined_kept k v body kept)
      ∙ strip_undefined_kept k v (strip_undefined body) kept
      ∙ ap (entry k v) (strip_undefined_twice body)
      ∙ sym (strip_undefined_kept k v body kept)
]

-- The entry that is found is kept by the strip.
value_at-strip_undefined :
    (key : Text) (body : Entries)
    → is_undefined (value_at key body) ≡ false
    → value_at key (strip_undefined body) ≡ value_at key body
unfolding strip_undefined value_at
value_at-strip_undefined key end h = refl
value_at-strip_undefined key (entry k v body) h = ground (arith, value_at-strip_undefined key body)

has_key-value_at :
    (key : Text) (body : Entries)
    → is_undefined (value_at key body) ≡ false
    → has_key key body ≡ true
unfolding value_at has_key
has_key-value_at key end h = cc
has_key-value_at key (entry k v body) h = ground (arith, has_key-value_at key body)

with_value_same :
    (key : Text) (body : Entries)
    → has_key key body ≡ true
    → with_value key (value_at key body) body ≡ body
unfolding with_value value_at has_key
with_value_same key end h = cc
with_value_same key (entry k v body) h = ground (arith, with_value_same key body)

abbrev parents_value : Event → Value
parents_value e = array (strings (sorted_prev_event_ids e.prev_event_ids))

full_parents : (e : Event) (v : Value) → value_at prev_event_ids_key (full_body e v) ≡ v
unfolding value_at text_dec ℕ_discrete
full_parents e v = refl

parents_of_body :
    (e : Event) → value_at prev_event_ids_key (event_body_for_sign e) ≡ parents_value e
unfolding event_body_for_sign
parents_of_body e =
    let found = full_parents e (parents_value e) in
    value_at-strip_undefined prev_event_ids_key (full_body e (parents_value e))
      (ap is_undefined found)
    ∙ found

-- A body is not changed by what is done before it is hashed and signed.
body-with_sorted_parents :
    (e : Event) → with_sorted_parents (event_body_for_sign e) ≡ event_body_for_sign e
body-with_sorted_parents e =
    let body = event_body_for_sign e in
    let found = parents_of_body e in
    let same : array
          (strings (sorted_prev_event_ids (ids_of_value (value_at prev_event_ids_key body))))
        ≡ value_at prev_event_ids_key body =
      ap (λ v. array (strings (sorted_prev_event_ids (ids_of_value v)))) found
      ∙ ap (λ ids. array (strings (sorted_prev_event_ids ids)))
          (texts-strings (sorted_prev_event_ids e.prev_event_ids))
      ∙ ap (λ ids. array (strings ids)) (sorted_prev_event_ids_twice e.prev_event_ids)
      ∙ sym found in
    ap (λ v. with_value prev_event_ids_key v body) same
    ∙ with_value_same prev_event_ids_key body
        (has_key-value_at prev_event_ids_key body (ap is_undefined found))

body-strip_undefined : (e : Event) → strip_undefined (event_body_for_sign e) ≡ event_body_for_sign e
unfolding event_body_for_sign
body-strip_undefined e = strip_undefined_twice (full_body e (parents_value e))

body_same_parents :
    (e : Event) (parents : List Text)
    → SameIds e.prev_event_ids parents
    → event_body_for_sign (record e { prev_event_ids = parents }) ≡ event_body_for_sign e
unfolding event_body_for_sign
body_same_parents e parents same =
    ap (λ ids. strip_undefined (full_body e (array (strings ids))))
      (sym (sorted_prev_event_ids_agrees e.prev_event_ids parents same))

-- What is signed of an event is the canonical text of its body, its id is the hash of what is
-- signed, and neither changes with the order or the repetition of its parents or with parents that
-- are no event ids.
pub compute_event_id_lem :
    (json_string : Text → Text) (utf8 : Text → List ℕ) (sha256_hex : List ℕ → Text) (e : Event)
    (parents : List Text)
    → SameIds e.prev_event_ids parents
    → let body = event_body_for_sign e in
      let other = event_body_for_sign (record e { prev_event_ids = parents }) in
      let signed = sign_payload_bytes json_string utf8 sha256_hex body in
      (signed ≡ canonical_bytes json_string utf8 sha256_hex body)
      × (compute_event_id json_string utf8 sha256_hex body
          ≡ hashed json_string utf8 sha256_hex signed)
      × (compute_event_id json_string utf8 sha256_hex other
          ≡ hashed json_string utf8 sha256_hex signed)
unfolding compute_event_id sign_payload_bytes
compute_event_id_lem json_string utf8 sha256_hex e parents same =
    let body = event_body_for_sign e in
    let has : has_key prev_event_ids_key body ≡ true =
      has_key-value_at prev_event_ids_key body (ap is_undefined (parents_of_body e)) in
    let unchanged : event_body_for_sign (record e { prev_event_ids = parents }) ≡ body =
      body_same_parents e parents same in
    let hash : compute_event_id json_string utf8 sha256_hex body
        ≡ hashed json_string utf8 sha256_hex (sign_payload_bytes json_string utf8 sha256_hex body) =
      rw has refl in
    (
      ap (λ b. canonical_bytes json_string utf8 sha256_hex (strip_undefined b))
            (body-with_sorted_parents e)
          ∙ ap (canonical_bytes json_string utf8 sha256_hex) (body-strip_undefined e),
      hash,
      ap (compute_event_id json_string utf8 sha256_hex) unchanged ∙ hash,
    )
