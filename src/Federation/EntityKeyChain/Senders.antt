-- ===== src/Federation/EntityKeyChain/Senders.antt =====
-- Which senders a history of js/federation/entity_key_chain.mjs accepts.
use fount_p2p.Base.{
  ◌⊎◌, ℕ, some, List, [], ◌∷◌, true, false, ◌==◌, if◌then◌else◌, ◌≡◌, refl, ◌∙◌, ap, arith,
  Bool-cases, inl, inr,
}
use fount_p2p.Core.HexIds.{Text, text_dec, is_event_id}
use fount_p2p.Federation.EntityKeyChain.{
  Entry, History, Event, has_generation, resolve_active_key_at_generation,
  is_active_generation_revoked, fold_from, fold_entity_key_history_from_events, is_valid_among,
  is_valid_active_sender, is_or_next, hash_from_pub_key_hex,
}
use fount_p2p.Federation.EntityKeyChain.Sound.{IsSound, fold_from-IsSound, resolve_behind}

module _ (pub_key_hash : Text → Text) where
  -- A generation that is not revoked and whose key has the sender's hash.
  pub record IsActive (whole h : History) (sender : Text) : Type 0 where
    pub generation : ℕ
    pub key : Text
    pub found : resolve_active_key_at_generation h generation ≡ some key
    pub not_revoked : is_active_generation_revoked whole generation ≡ false
    pub hashed : pub_key_hash key ≡ sender

  hash_of_key :
      (key : Text)
      → is_event_id key ≡ true
      → hash_from_pub_key_hex pub_key_hash key ≡ some (pub_key_hash key)
  hash_of_key key h = ground arith

  -- The loop at an entry, with its key's hash.
  among_step :
      (whole : History) (sender : Text) (e : Entry) (h : History)
      → is_event_id e.active_pub_key_hex ≡ true
      → is_valid_among pub_key_hash whole sender (e ∷ h) ≡ (
          if is_active_generation_revoked whole e.generation
          then is_valid_among pub_key_hash whole sender h
          else is_or_next
              (some (pub_key_hash e.active_pub_key_hex))
              sender
              (is_valid_among pub_key_hash whole sender h))
  unfolding is_valid_among
  among_step whole sender e h key =
      ap
        (λ o.
          if is_active_generation_revoked whole e.generation
          then is_valid_among pub_key_hash whole sender h
          else is_or_next o sender (is_valid_among pub_key_hash whole sender h))
        (hash_of_key e.active_pub_key_hex key)

  behind :
      {whole h : History} {sender : Text} (e : Entry)
      → has_generation h e.generation ≡ false
      → IsActive whole h sender
      → IsActive whole (e ∷ h) sender
  behind {h = h} e new a = record {
    generation = a.generation;
    key = a.key;
    found = resolve_behind e h a.generation a.key new a.found;
    not_revoked = a.not_revoked;
    hashed = a.hashed;
  }

  -- Such a generation is that of the first entry, or one of the others.
  at_or_behind :
      (whole : History) (sender : Text) (e : Entry) (h : History)
      → IsActive whole (e ∷ h) sender
      → ((is_active_generation_revoked whole e.generation ≡ false)
          × (pub_key_hash e.active_pub_key_hex ≡ sender))
        ⊎ IsActive whole h sender
  at_or_behind whole sender e h a = elim (Bool-cases (e.generation == a.generation)) [
    | inl same ↦
        let same_generation : e.generation ≡ a.generation = ground arith in
        let same_key : e.active_pub_key_hex ≡ a.key = ground (arith, a.found) in
        inl (
          ap (is_active_generation_revoked whole) same_generation ∙ a.not_revoked,
          ap pub_key_hash same_key ∙ a.hashed,
        )
    | inr different ↦ inr record {
      generation = a.generation;
      key = a.key;
      found = ground (arith, a.found);
      not_revoked = a.not_revoked;
      hashed = a.hashed;
    }
  ]

  at_front :
      (whole : History) (sender : Text) (e : Entry) (h : History)
      → is_active_generation_revoked whole e.generation ≡ false
      → pub_key_hash e.active_pub_key_hex ≡ sender
      → IsActive whole (e ∷ h) sender
  at_front whole sender e h free hashed = record {
    generation = e.generation;
    key = e.active_pub_key_hex;
    found = ground arith;
    not_revoked = free;
    hashed = hashed;
  }

  abbrev IsVerdict : History → Text → History → Type 0
  IsVerdict whole sender h =
      (IsActive whole h sender × (is_valid_among pub_key_hash whole sender h ≡ some true))
      ⊎ ((¬ IsActive whole h sender) × (is_valid_among pub_key_hash whole sender h ≡ some false))

  -- The entry that is passed over changes nothing.
  passed_over :
      (whole : History) (sender : Text) (e : Entry) (h : History)
      → has_generation h e.generation ≡ false
      → is_valid_among pub_key_hash whole sender (e ∷ h)
        ≡ is_valid_among pub_key_hash whole sender h
      → ¬ (
          (is_active_generation_revoked whole e.generation ≡ false)
          × (pub_key_hash e.active_pub_key_hex ≡ sender))
      → IsVerdict whole sender h
      → IsVerdict whole sender (e ∷ h)
  passed_over whole sender e h new same not_here (inl (a, verdict)) =
      inl (behind e new a, same ∙ verdict)
  passed_over whole sender e h new same not_here (inr (no_other, verdict)) = inr (
    (λ a. elim (at_or_behind whole sender e h a) [
      | inl here ↦ not_here here
      | inr other_one ↦ no_other other_one
    ]),
    same ∙ verdict,
  )

  -- The loop ends with a verdict, which is that there is such a generation.
  is_valid_among_lem :
      (whole : History) (sender : Text) (h : History) → IsSound h → IsVerdict whole sender h
  unfolding is_valid_among
  is_valid_among_lem whole sender [] sound = inr ((λ a. ground (arith, a.found)), refl)
  is_valid_among_lem whole sender (e ∷ h) (key, new, sound) =
      let step = among_step whole sender e h key in
      let rest = is_valid_among_lem whole sender h sound in
      elim (Bool-cases (is_active_generation_revoked whole e.generation)) [
        | inl out ↦
            passed_over whole sender e h new (ground (arith, step)) (λ here. ground (arith, here.0))
              rest
        | inr free ↦ elim (text_dec (pub_key_hash e.active_pub_key_hex) sender) [
          | yes hashed ↦ inl (at_front whole sender e h free hashed, ground (arith, step))
          | no different ↦
              passed_over whole sender e h new (ground (arith, step)) (λ here. different here.1)
                rest
        ]
      ]

  -- On a history that events have made, the test of a sender of 64 digits never throws: it accepts
  -- the sender, which is then the hash of the key of a generation that is not revoked; or it refuses
  -- it, and there is no such generation.
  pub is_valid_active_sender_lem :
      (events : List Event) (sender : Text)
      → is_event_id sender ≡ true
      → (IsActive
            (fold_entity_key_history_from_events events)
            (fold_entity_key_history_from_events events)
            sender
          × (is_valid_active_sender pub_key_hash (fold_entity_key_history_from_events events) sender
              ≡ some true))
        ⊎ ((¬ IsActive
              (fold_entity_key_history_from_events events)
              (fold_entity_key_history_from_events events)
              sender)
            × (is_valid_active_sender pub_key_hash
                  (fold_entity_key_history_from_events events)
                  sender
                ≡ some false))
  unfolding is_valid_active_sender
  is_valid_active_sender_lem events sender hex = rw (hex) (
      is_valid_among_lem (fold_from [] events) sender (fold_from [] events)
        (fold_from-IsSound events [] tt))
