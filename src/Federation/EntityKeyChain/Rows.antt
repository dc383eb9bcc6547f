-- ===== src/Federation/EntityKeyChain/Rows.antt =====
-- What one change of the history of js/federation/entity_key_chain.mjs does to its entries.
use fount_p2p.Base.{
  ℕ, some, List, [], ◌∷◌, ◌++◌, true, false, ◌==◌, ◌||◌, ◌&&◌, ◌≡◌, refl, ◌∙◌, ap, arith,
}
use fount_p2p.Core.HexIds.{Text}
use fount_p2p.Federation.EntityKeyChain.{
  Entry, History, includes, has_generation, resolve_active_key_at_generation,
  is_active_generation_revoked, add_entry, revoke_in, revoke_generation, revoke_all,
}

includes-append : (g x : ℕ) (xs : List ℕ) → includes g (xs ++ x ∷ []) ≡ includes g xs || x == g
includes-append g x [] = ground arith
includes-append g x (y ∷ xs) = ground (arith, includes-append g x xs)

pub has_generation-revoke_generation :
    (g k : ℕ) (h : History) → has_generation (revoke_generation g h) k ≡ has_generation h k
unfolding revoke_generation
has_generation-revoke_generation g k [] = refl
has_generation-revoke_generation g k (e ∷ h) =
    ground (arith, has_generation-revoke_generation g k h)

pub resolve-revoke_generation :
    (g k : ℕ) (h : History)
    → resolve_active_key_at_generation (revoke_generation g h) k
      ≡ resolve_active_key_at_generation h k
unfolding revoke_generation
resolve-revoke_generation g k [] = refl
resolve-revoke_generation g k (e ∷ h) = ground (arith, resolve-revoke_generation g k h)

includes-revoke_in :
    (g k : ℕ) (e : Entry)
    → includes k (revoke_in g e).revoked_generations ≡ includes k e.revoked_generations || g == k
includes-revoke_in g k e = ground (arith, includes-append k g e.revoked_generations)

-- A generation is revoked once it was, or if it is the one and has an entry.
is_active_generation_revoked-revoke_generation :
    (g k : ℕ) (h : History)
    → is_active_generation_revoked (revoke_generation g h) k
      ≡ is_active_generation_revoked h k || g == k && has_generation h g
unfolding revoke_generation
is_active_generation_revoked-revoke_generation g k [] = ground arith
is_active_generation_revoked-revoke_generation g k (e ∷ h) =
    ground (arith, is_active_generation_revoked-revoke_generation g k h, includes-revoke_in g k e)

-- Equal generations are found alike.
has_generation-eq :
    (g k : ℕ) (h : History) → g == k ≡ true → has_generation h g ≡ has_generation h k
has_generation-eq g k h e = ap (has_generation h) (ground arith)

pub has_generation-revoke_all :
    (gs : List ℕ) (k : ℕ) (h : History) → has_generation (revoke_all gs h) k ≡ has_generation h k
unfolding revoke_all
has_generation-revoke_all [] k h = refl
has_generation-revoke_all (g ∷ gs) k h =
    has_generation-revoke_all gs k (revoke_generation g h) ∙ has_generation-revoke_generation g k h

pub resolve-revoke_all :
    (gs : List ℕ) (k : ℕ) (h : History)
    → resolve_active_key_at_generation (revoke_all gs h) k ≡ resolve_active_key_at_generation h k
unfolding revoke_all
resolve-revoke_all [] k h = refl
resolve-revoke_all (g ∷ gs) k h =
    resolve-revoke_all gs k (revoke_generation g h) ∙ resolve-revoke_generation g k h

pub is_active_generation_revoked-revoke_all :
    (gs : List ℕ) (k : ℕ) (h : History)
    → is_active_generation_revoked (revoke_all gs h) k
      ≡ is_active_generation_revoked h k || includes k gs && has_generation h k
unfolding revoke_all
is_active_generation_revoked-revoke_all [] k h = ground arith
is_active_generation_revoked-revoke_all (g ∷ gs) k h = ground (
  arith,
  is_active_generation_revoked-revoke_all gs k (revoke_generation g h),
  is_active_generation_revoked-revoke_generation g k h,
  has_generation-revoke_generation g k h,
  has_generation-eq g k h,
)

pub has_generation-append :
    (h : History) (e : Entry) (k : ℕ)
    → has_generation (h ++ e ∷ []) k ≡ has_generation h k || e.generation == k
has_generation-append [] e k = ground arith
has_generation-append (d ∷ h) e k = ground (arith, has_generation-append h e k)

pub has_generation-add_entry :
    (h : History) (e : Entry) (k : ℕ)
    → has_generation (add_entry h e) k ≡ has_generation h k || e.generation == k
has_generation-add_entry h e k =
    ground (arith, has_generation-append h e k, has_generation-eq e.generation k h)

resolve-append :
    (h : History) (e : Entry) (k : ℕ) (key : Text)
    → resolve_active_key_at_generation h k ≡ some key
    → resolve_active_key_at_generation (h ++ e ∷ []) k ≡ some key
resolve-append [] e k key found = absurd (ground arith)
resolve-append (d ∷ h) e k key found = ground (arith, resolve-append h e k key)

pub resolve-add_entry :
    (h : History) (e : Entry) (k : ℕ) (key : Text)
    → resolve_active_key_at_generation h k ≡ some key
    → resolve_active_key_at_generation (add_entry h e) k ≡ some key
resolve-add_entry h e k key found = ground (arith, resolve-append h e k key found)

is_active_generation_revoked-append :
    (h : History) (e : Entry) (k : ℕ)
    → e.revoked_generations ≡ []
    → is_active_generation_revoked (h ++ e ∷ []) k ≡ is_active_generation_revoked h k
is_active_generation_revoked-append [] e k none_revoked =
    ap (λ l. includes k l || false) none_revoked
is_active_generation_revoked-append (d ∷ h) e k none_revoked =
    ap (λ b. includes k d.revoked_generations || b)
      (is_active_generation_revoked-append h e k none_revoked)

pub is_active_generation_revoked-add_entry :
    (h : History) (e : Entry) (k : ℕ)
    → e.revoked_generations ≡ []
    → is_active_generation_revoked (add_entry h e) k ≡ is_active_generation_revoked h k
is_active_generation_revoked-add_entry h e k none_revoked =
    ground (arith, is_active_generation_revoked-append h e k none_revoked)
