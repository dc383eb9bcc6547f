-- ===== src/Tests/Keys.antt =====
-- The theorems on the keys of an entity (js/federation/entity_key_chain.mjs) at concrete inputs.
use fount_p2p.Base.{ℕ_discrete, ◌≡◌, refl, none, some, [], ◌∷◌, true, false, replicate, ◌⊎◌, ◌||◌}
use fount_p2p.Core.HexIds.{Text, text_dec, is_event_id, all_hex, is_hex_digit}
use fount_p2p.Federation.EntityKeyChain.{
  History, Event, entity_key_rotate, entity_key_revoke, fold_from, revoke_all, revoke_generation,
  fold_entity_key_history_from_events, is_active_generation_revoked,
  resolve_active_key_at_generation, is_valid_among, is_valid_active_sender,
}
use fount_p2p.Federation.EntityKeyChain.Folded.{
  resolve-fold_from, is_active_generation_revoked-fold_from, some_revokes,
}
use fount_p2p.Federation.EntityKeyChain.Senders.{IsActive, is_valid_active_sender_lem}

abbrev first_key : Text
first_key = replicate 64 b'a'

abbrev second_key : Text
second_key = replicate 64 b'b'

abbrev first_rotation : Event
first_rotation = entity_key_rotate record {
  generation = some 0;
  active_pub_key_hex = some first_key;
  wall = some 1;
  timestamp = none;
}

-- The first generation is revoked, a second one is made.
abbrev lost_key : Event
lost_key = entity_key_revoke record {
  new_generation = some 1;
  active_pub_key_hex = some second_key;
  revoke_generations = some 0 ∷ none ∷ [];
  wall = none;
  timestamp = some 5;
}

-- A second event for the first generation, which comes too late.
abbrev late_rotation : Event
late_rotation = entity_key_rotate record {
  generation = some 0;
  active_pub_key_hex = some second_key;
  wall = some 6;
  timestamp = none;
}

abbrev one_key : History
one_key = fold_from [] (first_rotation ∷ [])

first_key_is_a_key : is_event_id first_key ≡ true
unfolding is_event_id all_hex is_hex_digit
first_key_is_a_key = refl

first_generation : resolve_active_key_at_generation one_key 0 ≡ some first_key
unfolding fold_from is_event_id all_hex is_hex_digit
first_generation = refl

resolve-fold_from_example :
    resolve_active_key_at_generation (fold_from one_key (lost_key ∷ late_rotation ∷ [])) 0
    ≡ some first_key
resolve-fold_from_example =
    resolve-fold_from (lost_key ∷ late_rotation ∷ []) one_key 0 first_key first_generation

is_active_generation_revoked-fold_from_example :
    is_active_generation_revoked (fold_from one_key (lost_key ∷ late_rotation ∷ [])) 0
    ≡ is_active_generation_revoked one_key 0
      || some_revokes one_key (lost_key ∷ late_rotation ∷ []) 0
is_active_generation_revoked-fold_from_example =
    is_active_generation_revoked-fold_from (lost_key ∷ late_rotation ∷ []) one_key 0

-- The key of the revoked generation is refused, the new one is accepted; a key is its own hash.
first_key_is_refused :
    is_valid_active_sender
      (λ key. key)
      (fold_entity_key_history_from_events (first_rotation ∷ lost_key ∷ []))
      first_key
    ≡ some false
unfolding fold_from revoke_all revoke_generation is_valid_active_sender is_valid_among is_event_id
    all_hex is_hex_digit text_dec ℕ_discrete
first_key_is_refused = refl

is_valid_active_sender_lem_example :
    (IsActive
        (λ key. key)
        (fold_entity_key_history_from_events (first_rotation ∷ lost_key ∷ []))
        (fold_entity_key_history_from_events (first_rotation ∷ lost_key ∷ []))
        first_key
      × (is_valid_active_sender
            (λ key. key)
            (fold_entity_key_history_from_events (first_rotation ∷ lost_key ∷ []))
            first_key
          ≡ some true))
    ⊎ ((¬ IsActive
          (λ key. key)
          (fold_entity_key_history_from_events (first_rotation ∷ lost_key ∷ []))
          (fold_entity_key_history_from_events (first_rotation ∷ lost_key ∷ []))
          first_key)
        × (is_valid_active_sender
              (λ key. key)
              (fold_entity_key_history_from_events (first_rotation ∷ lost_key ∷ []))
              first_key
            ≡ some false))
is_valid_active_sender_lem_example =
    is_valid_active_sender_lem (λ key. key) (first_rotation ∷ lost_key ∷ []) first_key
      first_key_is_a_key
