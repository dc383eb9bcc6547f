-- ===== src/Federation/EntityKeyChain/Folded.antt =====
-- What the events of js/federation/entity_key_chain.mjs do to the keys of an entity, in the long run.
use fount_p2p.Base.{
  ℕ, Option, none, some, List, [], ◌∷◌, Bool, true, false, ◌||◌, ◌&&◌, ◌≡◌, refl, ◌∙◌, arith,
}
use fount_p2p.Core.HexIds.{Text}
use fount_p2p.Federation.EntityKeyChain.{
  History, Event, entity_key_rotate, entity_key_revoke, other, Rotation, Revocation, includes,
  has_generation, resolve_active_key_at_generation, is_active_generation_revoked, revoke_all,
  rotate_with, revoke_with, is_hex64, finite_generations, reduce_event, fold_from,
}
use fount_p2p.Federation.EntityKeyChain.Rows.{
  resolve-revoke_all, is_active_generation_revoked-revoke_all, resolve-add_entry,
  is_active_generation_revoked-add_entry,
}

resolve-rotate_with :
    (g : Option ℕ) (hex : Option Text) (r : Rotation) (h : History) (k : ℕ) (key : Text)
    → resolve_active_key_at_generation h k ≡ some key
    → resolve_active_key_at_generation (rotate_with g hex r h) k ≡ some key
resolve-rotate_with none hex r h k key found = found
resolve-rotate_with (some g) none r h k key found = found
resolve-rotate_with (some g) (some hex) r h k key found = resolve-add_entry h _ k key found

resolve-revoke_with :
    (g : Option ℕ) (hex : Option Text) (r : Revocation) (h : History) (k : ℕ) (key : Text)
    → resolve_active_key_at_generation h k ≡ some key
    → resolve_active_key_at_generation (revoke_with g hex r h) k ≡ some key
resolve-revoke_with none hex r h k key found = found
resolve-revoke_with (some g) none r h k key found = found
resolve-revoke_with (some g) (some hex) r h k key found =
    resolve-add_entry (revoke_all (finite_generations r.revoke_generations) h) _ k key
      (resolve-revoke_all (finite_generations r.revoke_generations) k h ∙ found)

resolve-reduce_event :
    (h : History) (e : Event) (k : ℕ) (key : Text)
    → resolve_active_key_at_generation h k ≡ some key
    → resolve_active_key_at_generation (reduce_event h e) k ≡ some key
resolve-reduce_event h (entity_key_rotate r) k key found =
    resolve-rotate_with r.generation (is_hex64 r.active_pub_key_hex) r h k key found
resolve-reduce_event h (entity_key_revoke r) k key found =
    resolve-revoke_with r.new_generation (is_hex64 r.active_pub_key_hex) r h k key found
resolve-reduce_event h other k key found = found

-- The key of a generation is never changed by later events: the first event that names it decides.
pub resolve-fold_from :
    (events : List Event) (h : History) (k : ℕ) (key : Text)
    → resolve_active_key_at_generation h k ≡ some key
    → resolve_active_key_at_generation (fold_from h events) k ≡ some key
unfolding fold_from
resolve-fold_from [] h k key found = found
resolve-fold_from (e ∷ events) h k key found =
    resolve-fold_from events (reduce_event h e) k key (resolve-reduce_event h e k key found)

abbrev pub both : Option ℕ → Option Text → Bool
both none key = false
both (some g) none = false
both (some g) (some key) = true

-- Whether a revocation is one: it names a generation and a key.
abbrev pub is_accepted : Revocation → Bool
is_accepted r = both r.new_generation (is_hex64 r.active_pub_key_hex)

revoked-rotate_with :
    (g : Option ℕ) (hex : Option Text) (r : Rotation) (h : History) (k : ℕ)
    → is_active_generation_revoked (rotate_with g hex r h) k ≡ is_active_generation_revoked h k
revoked-rotate_with none hex r h k = refl
revoked-rotate_with (some g) none r h k = refl
revoked-rotate_with (some g) (some hex) r h k = is_active_generation_revoked-add_entry h _ k refl

revoked-revoke_with :
    (g : Option ℕ) (hex : Option Text) (r : Revocation) (h : History) (k : ℕ)
    → is_active_generation_revoked (revoke_with g hex r h) k
      ≡ is_active_generation_revoked h k
        || both g hex && includes k (finite_generations r.revoke_generations) && has_generation h k
revoked-revoke_with none hex r h k = ground arith
revoked-revoke_with (some g) none r h k = ground arith
revoked-revoke_with (some g) (some hex) r h k =
    is_active_generation_revoked-add_entry (revoke_all (finite_generations r.revoke_generations) h)
      _ k refl
    ∙ is_active_generation_revoked-revoke_all (finite_generations r.revoke_generations) k h

-- The generations that an event revokes: those of an accepted revocation that have an entry.
abbrev pub revokes : History → Event → ℕ → Bool
revokes h (entity_key_rotate r) k = false
revokes h (entity_key_revoke r) k =
    is_accepted r && includes k (finite_generations r.revoke_generations) && has_generation h k
revokes h other k = false

revoked-reduce_event :
    (h : History) (e : Event) (k : ℕ)
    → is_active_generation_revoked (reduce_event h e) k
      ≡ is_active_generation_revoked h k || revokes h e k
revoked-reduce_event h (entity_key_rotate r) k =
    ground (arith, revoked-rotate_with r.generation (is_hex64 r.active_pub_key_hex) r h k)
revoked-reduce_event h (entity_key_revoke r) k =
    revoked-revoke_with r.new_generation (is_hex64 r.active_pub_key_hex) r h k
revoked-reduce_event h other k = ground arith

-- Whether one of the events revokes a generation, when its turn comes.
abbrev pub some_revokes : History → List Event → ℕ → Bool
some_revokes h [] k = false
some_revokes h (e ∷ events) k = revokes h e k || some_revokes (reduce_event h e) events k

-- After some events a generation is revoked if and only if it was before, or one of the events is an
-- accepted revocation of it at a time when it had an entry: a revocation is for ever, and one of a
-- generation that comes later has no effect.
pub is_active_generation_revoked-fold_from :
    (events : List Event) (h : History) (k : ℕ)
    → is_active_generation_revoked (fold_from h events) k
      ≡ is_active_generation_revoked h k || some_revokes h events k
unfolding fold_from
is_active_generation_revoked-fold_from [] h k = ground arith
is_active_generation_revoked-fold_from (e ∷ events) h k = ground (
  arith,
  is_active_generation_revoked-fold_from events (reduce_event h e) k,
  revoked-reduce_event h e k,
)
