-- ===== src/Federation/EntityKeyChain/Sound.antt =====
-- The events of js/federation/entity_key_chain.mjs make histories of keys with distinct generations.
use fount_p2p.Base.{
  ℕ, Option, none, some, List, [], ◌∷◌, ◌++◌, true, false, ◌==◌, ◌≡◌, refl, ◌∙◌, ap, arith,
  Bool-cases, inl, inr,
}
use fount_p2p.Core.HexIds.{Text, is_event_id}
use fount_p2p.Federation.EntityKeyChain.{
  Entry, History, Event, entity_key_rotate, entity_key_revoke, other, Rotation, Revocation,
  has_generation, resolve_active_key_at_generation, add_entry, revoke_generation, revoke_all,
  rotate_with, revoke_with, is_hex64, finite_generations, reduce_event, fold_from,
}
use fount_p2p.Federation.EntityKeyChain.Rows.{
  has_generation-revoke_generation, has_generation-append,
}

-- Every entry has a key, and a generation that none after it has.
abbrev pub IsSound : History → Type 0
IsSound [] = Unit
IsSound (e ∷ h) =
    (is_event_id e.active_pub_key_hex ≡ true) × (has_generation h e.generation ≡ false) × IsSound h

append-IsSound :
    (h : History) (e : Entry)
    → IsSound h
    → is_event_id e.active_pub_key_hex ≡ true
    → has_generation h e.generation ≡ false
    → IsSound (h ++ e ∷ [])
append-IsSound [] e sound key new = (key, refl, tt)
append-IsSound (d ∷ h) e (d_key, d_new, sound) key new = (
  d_key,
  ground (arith, has_generation-append h e d.generation),
  append-IsSound h e sound key (ground arith),
)

add_entry-IsSound :
    (h : History) (e : Entry)
    → IsSound h
    → is_event_id e.active_pub_key_hex ≡ true
    → IsSound (add_entry h e)
add_entry-IsSound h e sound key = elim (Bool-cases (has_generation h e.generation)) [
  | inl present ↦ rw (present) sound
  | inr new ↦ rw (new) (append-IsSound h e sound key new)
]

revoke_generation-IsSound : (g : ℕ) (h : History) → IsSound h → IsSound (revoke_generation g h)
unfolding revoke_generation
revoke_generation-IsSound g [] sound = tt
revoke_generation-IsSound g (e ∷ h) (key, new, sound) = elim (Bool-cases (e.generation == g)) [
  | inl here ↦ rw (here) (key, new, sound)
  | inr there ↦ rw (there) (
    key,
    has_generation-revoke_generation g e.generation h ∙ new,
    revoke_generation-IsSound g h sound,
  )
]

revoke_all-IsSound : (gs : List ℕ) (h : History) → IsSound h → IsSound (revoke_all gs h)
unfolding revoke_all
revoke_all-IsSound [] h sound = sound
revoke_all-IsSound (g ∷ gs) h sound =
    revoke_all-IsSound gs (revoke_generation g h) (revoke_generation-IsSound g h sound)

is_hex64-some : (hex : Option Text) (key : Text) → is_hex64 hex ≡ some key → is_event_id key ≡ true
is_hex64-some none key h = absurd (ground arith)
is_hex64-some (some hex) key h = ground arith

rotate_with-IsSound :
    (g : Option ℕ) (hex : Option Text) (r : Rotation) (h : History)
    → is_hex64 r.active_pub_key_hex ≡ hex
    → IsSound h
    → IsSound (rotate_with g hex r h)
rotate_with-IsSound none hex r h e sound = sound
rotate_with-IsSound (some g) none r h e sound = sound
rotate_with-IsSound (some g) (some key) r h e sound =
    add_entry-IsSound h _ sound (is_hex64-some r.active_pub_key_hex key e)

revoke_with-IsSound :
    (g : Option ℕ) (hex : Option Text) (r : Revocation) (h : History)
    → is_hex64 r.active_pub_key_hex ≡ hex
    → IsSound h
    → IsSound (revoke_with g hex r h)
revoke_with-IsSound none hex r h e sound = sound
revoke_with-IsSound (some g) none r h e sound = sound
revoke_with-IsSound (some g) (some key) r h e sound =
    add_entry-IsSound _ _ (revoke_all-IsSound (finite_generations r.revoke_generations) h sound)
      (is_hex64-some r.active_pub_key_hex key e)

reduce_event-IsSound : (h : History) (e : Event) → IsSound h → IsSound (reduce_event h e)
reduce_event-IsSound h (entity_key_rotate r) sound =
    rotate_with-IsSound r.generation (is_hex64 r.active_pub_key_hex) r h refl sound
reduce_event-IsSound h (entity_key_revoke r) sound =
    revoke_with-IsSound r.new_generation (is_hex64 r.active_pub_key_hex) r h refl sound
reduce_event-IsSound h other sound = sound

pub fold_from-IsSound :
    (events : List Event) (h : History) → IsSound h → IsSound (fold_from h events)
unfolding fold_from
fold_from-IsSound [] h sound = sound
fold_from-IsSound (e ∷ events) h sound =
    fold_from-IsSound events (reduce_event h e) (reduce_event-IsSound h e sound)

pub resolve_has :
    (h : History) (k : ℕ) (key : Text)
    → resolve_active_key_at_generation h k ≡ some key
    → has_generation h k ≡ true
resolve_has [] k key found = absurd (ground arith)
resolve_has (e ∷ h) k key found = ground (arith, resolve_has h k key)

-- What is found behind an entry is found with it.
pub resolve_behind :
    (e : Entry) (h : History) (k : ℕ) (key : Text)
    → has_generation h e.generation ≡ false
    → resolve_active_key_at_generation h k ≡ some key
    → resolve_active_key_at_generation (e ∷ h) k ≡ some key
resolve_behind e h k key new found = elim (Bool-cases (e.generation == k)) [
  | inl same ↦
      let same_generation : e.generation ≡ k = ground arith in
      absurd (ground (arith, ap (has_generation h) same_generation, resolve_has h k key found))
  | inr different ↦ rw (different) found
]
