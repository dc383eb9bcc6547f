-- ===== src/Federation/EntityKeyChain.antt =====
-- js/federation/entity_key_chain.mjs: the history of the keys of an entity. The hash of a public key
-- is a parameter, on its hex text. A generation of an event is none where it is no finite number
-- from 0 on; the numbers are whole. A negative number in the list of a revocation counts as none:
-- it is the generation of no entry. An absent history or list is the empty one.
pub mod Rows
pub mod Folded
pub mod Sound
pub mod Senders
use fount_p2p.Base.{
  ℕ, Option, none, some, List, [], ◌∷◌, ◌++◌, Bool, true, false, ◌==◌, if◌then◌else◌, ◌||◌,
}
use fount_p2p.Core.HexIds.{Text, text_dec, decided, is_event_id}

pub data AttestedBy : Type 0 where
  recovery : AttestedBy
  active : AttestedBy
  revoked : AttestedBy

pub record Entry : Type 0 where
  pub generation : ℕ
  pub active_pub_key_hex : Text
  pub attested_by : AttestedBy
  pub valid_from : Option ℕ
  pub revoked_generations : List ℕ

abbrev pub History : Type 0
History = List Entry

-- The contents of the two kinds of event, and their two times.
pub record Rotation : Type 0 where
  pub generation : Option ℕ
  pub active_pub_key_hex : Option Text
  pub wall : Option ℕ
  pub timestamp : Option ℕ

pub record Revocation : Type 0 where
  pub new_generation : Option ℕ
  pub active_pub_key_hex : Option Text
  pub revoke_generations : List (Option ℕ)
  pub wall : Option ℕ
  pub timestamp : Option ℕ

pub data Event : Type 0 where
  entity_key_rotate : Rotation → Event
  entity_key_revoke : Revocation → Event
  other : Event

-- An empty text is no key.
abbrev pub create_genesis_key_history : Text → ℕ → History
create_genesis_key_history [] valid_from = []
create_genesis_key_history (c ∷ cs) valid_from =
    record {
      generation = 0;
      active_pub_key_hex = c ∷ cs;
      attested_by = recovery;
      valid_from = some valid_from;
      revoked_generations = [];
    }
    ∷ []

-- `list.includes(g)`
abbrev pub includes : ℕ → List ℕ → Bool
includes g [] = false
includes g (x ∷ xs) = x == g || includes g xs

-- `history.some(row => row.generation === g)`
abbrev pub has_generation : History → ℕ → Bool
has_generation [] g = false
has_generation (e ∷ h) g = e.generation == g || has_generation h g

abbrev pub resolve_active_key_at_generation : History → ℕ → Option Text
resolve_active_key_at_generation [] g = none
resolve_active_key_at_generation (e ∷ h) g =
    if e.generation == g then some e.active_pub_key_hex else resolve_active_key_at_generation h g

abbrev pub is_active_generation_revoked : History → ℕ → Bool
is_active_generation_revoked [] g = false
is_active_generation_revoked (e ∷ h) g =
    includes g e.revoked_generations || is_active_generation_revoked h g

-- `hlc?.wall ?? timestamp`
abbrev pub or_timestamp : Option ℕ → Option ℕ → Option ℕ
or_timestamp none timestamp = timestamp
or_timestamp (some wall) timestamp = some wall

-- `isHex64`
abbrev pub is_hex64 : Option Text → Option Text
is_hex64 none = none
is_hex64 (some hex) = if is_event_id hex then some hex else none

abbrev pub add_entry : History → Entry → History
add_entry h e = if has_generation h e.generation then h else h ++ e ∷ []

abbrev pub attested_at : ℕ → AttestedBy
attested_at g = if g == 0 then recovery else active

abbrev pub rotate_with : Option ℕ → Option Text → Rotation → History → History
rotate_with none key r h = h
rotate_with (some g) none r h = h
rotate_with (some g) (some key) r h = add_entry h record {
  generation = g;
  active_pub_key_hex = key;
  attested_by = attested_at g;
  valid_from = or_timestamp r.wall r.timestamp;
  revoked_generations = [];
}

abbrev pub reduce_entity_key_rotate : History → Rotation → History
reduce_entity_key_rotate h r = rotate_with r.generation (is_hex64 r.active_pub_key_hex) r h

-- `.map(Number).filter(Number.isFinite)`
abbrev pub finite_generations : List (Option ℕ) → List ℕ
finite_generations [] = []
finite_generations (none ∷ gs) = finite_generations gs
finite_generations (some g ∷ gs) = g ∷ finite_generations gs

-- A revoked generation is noted in its own entry, once.
abbrev pub revoke_in : ℕ → Entry → Entry
revoke_in g e = record e {
  revoked_generations =
      if includes g e.revoked_generations
      then e.revoked_generations
      else e.revoked_generations ++ g ∷ [];
}

unfoldable pub revoke_generation : ℕ → History → History
revoke_generation g [] = []
revoke_generation g (e ∷ h) =
    let rest = revoke_generation g h in if e.generation == g then revoke_in g e ∷ h else e ∷ rest

unfoldable pub revoke_all : List ℕ → History → History
revoke_all [] h = h
revoke_all (g ∷ gs) h = revoke_all gs (revoke_generation g h)

abbrev pub revoke_with : Option ℕ → Option Text → Revocation → History → History
revoke_with none key r h = h
revoke_with (some g) none r h = h
revoke_with (some g) (some key) r h =
    add_entry (revoke_all (finite_generations r.revoke_generations) h) record {
      generation = g;
      active_pub_key_hex = key;
      attested_by = recovery;
      valid_from = or_timestamp r.wall r.timestamp;
      revoked_generations = [];
    }

abbrev pub reduce_entity_key_revoke : History → Revocation → History
reduce_entity_key_revoke h r = revoke_with r.new_generation (is_hex64 r.active_pub_key_hex) r h

abbrev pub reduce_event : History → Event → History
reduce_event h (entity_key_rotate r) = reduce_entity_key_rotate h r
reduce_event h (entity_key_revoke r) = reduce_entity_key_revoke h r
reduce_event h other = h

-- The loop over the events.
unfoldable pub fold_from : History → List Event → History
fold_from h [] = h
fold_from h (e ∷ events) = fold_from (reduce_event h e) events

abbrev pub fold_entity_key_history_from_events : List Event → History
fold_entity_key_history_from_events events = fold_from [] events

-- A hash that is thrown for, is the sender's, or is not.
abbrev pub is_or_next : Option Text → Text → Option Bool → Option Bool
is_or_next none sender rest = none
is_or_next (some hash) sender rest = if decided (text_dec hash sender) then some true else rest

module _ (pub_key_hash : Text → Text) where
  -- It throws for a text that is no key.
  abbrev pub hash_from_pub_key_hex : Text → Option Text
  hash_from_pub_key_hex hex = if is_event_id hex then some (pub_key_hash hex) else none

  -- The loop over the entries.
  unfoldable pub is_valid_among : History → Text → History → Option Bool
  is_valid_among whole sender [] = some false
  is_valid_among whole sender (e ∷ h) =
      let rest = is_valid_among whole sender h in
      if is_active_generation_revoked whole e.generation
      then rest
      else is_or_next (hash_from_pub_key_hex e.active_pub_key_hex) sender rest

  unfoldable pub is_valid_active_sender : History → Text → Option Bool
  is_valid_active_sender h sender =
      if is_event_id sender then is_valid_among h sender h else some false

  unfoldable pub is_recovery_sender : Text → Text → Option Bool
  is_recovery_sender recovery_pub_key_hex sender =
      is_or_next (hash_from_pub_key_hex recovery_pub_key_hex) sender (some false)
