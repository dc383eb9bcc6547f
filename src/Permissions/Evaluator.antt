-- ===== src/Permissions/Evaluator.antt =====
-- `calculate` of js/permissions/evaluator.mjs against a description by names instead of bits.
use fount_p2p.Base.{
  ◌≡◌, refl, Option, none, some, List, [], ◌∷◌, Bool, true, false, arith, ◌&&◌, ◌||◌, not,
  Bool-cases, inl, inr, ap,
}
use fount_p2p.Base.JsMap.{get}
use fount_p2p.Core.HexIds.{Text, text_dec, contains}
use fount_p2p.Permissions.{
  Flags, Bits, no_bits, encode, decode, first_bit, or_bits, and_not_bits, Override, Overrides,
  Schema, and_not_flags, or_flags, apply_deny_allow_override, merge_from, Roles, or_role, base_from,
  role_overrides, scope_bits, calculate,
}

decode-no_bits : (order : List Text) (p : Text) → decode order no_bits p ≡ false
unfolding decode
decode-no_bits [] p = refl
decode-no_bits (n ∷ order) p = refl

decode-or_bits :
    (order : List Text) (a b : Bits) (p : Text)
    → decode order (or_bits a b) p ≡ (decode order a p || decode order b p)
unfolding decode or_bits
decode-or_bits [] a b p = refl
decode-or_bits (n ∷ order) [] b p = refl
decode-or_bits (n ∷ order) (x ∷ a) [] p = ground arith
decode-or_bits (n ∷ order) (x ∷ a) (y ∷ b) p = ground (arith, decode-or_bits order a b p)

decode-and_not_bits :
    (order : List Text) (a b : Bits) (p : Text)
    → decode order (and_not_bits a b) p ≡ (decode order a p && not (decode order b p))
unfolding decode and_not_bits
decode-and_not_bits [] a b p = refl
decode-and_not_bits (n ∷ order) [] b p = refl
decode-and_not_bits (n ∷ order) (x ∷ a) [] p = ground arith
decode-and_not_bits (n ∷ order) (x ∷ a) (y ∷ b) p = ground (arith, decode-and_not_bits order a b p)

-- The flag of a name, which an absent record lacks.
abbrev pub flag : Option Flags → Text → Bool
flag none p = false
flag (some f) p = f p

-- What `encode` packs, `decode` gives back, for the names of the order; other names are false.
pub decode-encode :
    (order : List Text) (flags : Option Flags) (p : Text)
    → decode order (encode order flags) p ≡ (contains p order && flag flags p)
unfolding decode encode
decode-encode order none p = ground (arith, decode-no_bits order p)
decode-encode [] (some f) p = refl
decode-encode (n ∷ order) (some f) p = elim (text_dec n p) [
  | yes e ↦ ground (arith, decode-encode order (some f) p, ap f e)
  | no d ↦ ground (arith, decode-encode order (some f) p)
]

first_bit-no_bits : (order : List Text) (p : Text) → first_bit order no_bits p ≡ false
unfolding first_bit
first_bit-no_bits [] p = refl
first_bit-no_bits (n ∷ order) p = refl

first_bit-or_bits :
    (order : List Text) (a b : Bits) (p : Text)
    → first_bit order (or_bits a b) p ≡ (first_bit order a p || first_bit order b p)
unfolding first_bit or_bits
first_bit-or_bits [] a b p = refl
first_bit-or_bits (n ∷ order) [] b p = refl
first_bit-or_bits (n ∷ order) (x ∷ a) [] p = ground arith
first_bit-or_bits (n ∷ order) (x ∷ a) (y ∷ b) p = ground (arith, first_bit-or_bits order a b p)

first_bit-encode :
    (order : List Text) (flags : Option Flags) (p : Text)
    → first_bit order (encode order flags) p ≡ (contains p order && flag flags p)
unfolding first_bit encode
first_bit-encode order none p = ground (arith, first_bit-no_bits order p)
first_bit-encode [] (some f) p = refl
first_bit-encode (n ∷ order) (some f) p = elim (text_dec n p) [
  | yes e ↦ ground (arith, first_bit-encode order (some f) p, ap f e)
  | no d ↦ ground (arith, first_bit-encode order (some f) p)
]

abbrev pub role_flag : Option (Option Flags) → Text → Bool
role_flag none p = false
role_flag (some flags) p = flag flags p

-- Some role of the member has the permission.
abbrev pub role_grants : Roles → List Text → Text → Bool
role_grants roles [] p = false
role_grants roles (id ∷ ids) p = role_flag (get text_dec id roles) p || role_grants roles ids p

-- Some override allows or denies the permission.
abbrev pub any_allows : List Override → Text → Bool
any_allows [] p = false
any_allows (o ∷ os) p = flag o.allow p || any_allows os p

abbrev pub any_denies : List Override → Text → Bool
any_denies [] p = false
any_denies (o ∷ os) p = flag o.deny p || any_denies os p

decode-or_role :
    (order : List Text) (role : Option (Option Flags)) (bits : Bits) (p : Text)
    → decode order (or_role order role bits) p
      ≡ (decode order bits p || contains p order && role_flag role p)
decode-or_role order none bits p = ground arith
decode-or_role order (some flags) bits p =
    ground (arith, decode-or_bits order bits (encode order flags) p, decode-encode order flags p)

first_bit-or_role :
    (order : List Text) (role : Option (Option Flags)) (bits : Bits) (p : Text)
    → first_bit order (or_role order role bits) p
      ≡ (first_bit order bits p || contains p order && role_flag role p)
first_bit-or_role order none bits p = ground arith
first_bit-or_role order (some flags) bits p =
    ground
      (arith, first_bit-or_bits order bits (encode order flags) p, first_bit-encode order flags p)

decode-base_from :
    (order : List Text) (roles : Roles) (bits : Bits) (ids : List Text) (p : Text)
    → decode order (base_from order roles bits ids) p
      ≡ (decode order bits p || contains p order && role_grants roles ids p)
unfolding base_from
decode-base_from order roles bits [] p = ground arith
decode-base_from order roles bits (id ∷ ids) p = ground (
  arith,
  decode-base_from order roles (or_role order (get text_dec id roles) bits) ids p,
  decode-or_role order (get text_dec id roles) bits p,
)

first_bit-base_from :
    (order : List Text) (roles : Roles) (bits : Bits) (ids : List Text) (p : Text)
    → first_bit order (base_from order roles bits ids) p
      ≡ (first_bit order bits p || contains p order && role_grants roles ids p)
unfolding base_from
first_bit-base_from order roles bits [] p = ground arith
first_bit-base_from order roles bits (id ∷ ids) p = ground (
  arith,
  first_bit-base_from order roles (or_role order (get text_dec id roles) bits) ids p,
  first_bit-or_role order (get text_dec id roles) bits p,
)

decode-or_flags :
    (order : List Text) (bits : Bits) (flags : Option Flags) (p : Text)
    → decode order (or_flags order bits flags) p
      ≡ (decode order bits p || contains p order && flag flags p)
decode-or_flags order bits none p = ground arith
decode-or_flags order bits (some f) p =
    ground
      (arith, decode-or_bits order bits (encode order (some f)) p, decode-encode order (some f) p)

decode-and_not_flags :
    (order : List Text) (bits : Bits) (flags : Option Flags) (p : Text)
    → decode order (and_not_flags order bits flags) p
      ≡ (decode order bits p && not (contains p order && flag flags p))
decode-and_not_flags order bits none p = ground arith
decode-and_not_flags order bits (some f) p = ground (
  arith,
  decode-and_not_bits order bits (encode order (some f)) p,
  decode-encode order (some f) p,
)

decode-merge_from :
    (order : List Text) (base role_allow role_deny : Bits) (os : List Override) (p : Text)
    → contains p order ≡ true
    → decode order (merge_from order base role_allow role_deny os) p ≡ (
        decode order role_allow p
        || any_allows os p
        || decode order base p && not (decode order role_deny p || any_denies os p))
unfolding merge_from
decode-merge_from order base role_allow role_deny [] p h = ground (
  arith,
  decode-or_bits order (and_not_bits base role_deny) role_allow p,
  decode-and_not_bits order base role_deny p,
)
decode-merge_from order base role_allow role_deny (o ∷ os) p h = ground (
  arith,
  decode-merge_from order base (or_flags order role_allow o.allow) (or_flags order role_deny o.deny)
      os p h,
  decode-or_flags order role_allow o.allow p,
  decode-or_flags order role_deny o.deny p,
)

-- Everyone's override of the scope: what it allows, and the base less what it denies.
abbrev pub after_everyone : Option Override → Bool → Text → Bool
after_everyone none base p = base
after_everyone (some o) base p = flag o.allow p || base && not (flag o.deny p)

-- The scope's overrides, by name: the roles' allow wins over their deny, and both over everyone's.
abbrev pub in_scope : Text → Option Overrides → List Text → Bool → Text → Bool
in_scope everyone none ids base p = base
in_scope everyone (some overrides) ids base p =
    any_allows (role_overrides everyone overrides ids) p
    || after_everyone (get text_dec everyone overrides) base p
      && not (any_denies (role_overrides everyone overrides ids) p)

decode-apply_deny_allow_override :
    (order : List Text) (base : Bits) (o : Option Override) (p : Text)
    → contains p order ≡ true
    → decode order (apply_deny_allow_override order base o) p
      ≡ after_everyone o (decode order base p) p
unfolding apply_deny_allow_override
decode-apply_deny_allow_override order base none p h = refl
decode-apply_deny_allow_override order base (some o) p h = ground (
  arith,
  decode-or_flags order (and_not_flags order base o.deny) o.allow p,
  decode-and_not_flags order base o.deny p,
)

decode-scope_bits :
    (s : Schema) (base : Bits) (ids : List Text) (overrides : Option Overrides) (p : Text)
    → contains p s.order ≡ true
    → decode s.order (scope_bits s base ids overrides) p
      ≡ in_scope s.everyone_role_id overrides ids (decode s.order base p) p
decode-scope_bits s base ids none p h = refl
decode-scope_bits s base ids (some os) p h = ground (
  arith,
  decode-merge_from s.order
      (apply_deny_allow_override s.order base (get text_dec s.everyone_role_id os)) no_bits no_bits
      (role_overrides s.everyone_role_id os ids) p h,
  decode-apply_deny_allow_override s.order base (get text_dec s.everyone_role_id os) p h,
  decode-no_bits s.order p,
)

decode_unknown :
    (order : List Text) (bits : Bits) (p : Text)
    → contains p order ≡ false
    → decode order bits p ≡ false
unfolding decode
decode_unknown [] bits p h = refl
decode_unknown (n ∷ order) [] p h = refl
decode_unknown (n ∷ order) (b ∷ bits) p h = ground (arith, decode_unknown order bits p)

-- A member has the superuser permission by some role.
abbrev pub is_superuser : Schema → List Text → Roles → Bool
is_superuser s ids roles =
    contains s.superuser_name s.order && role_grants roles ids s.superuser_name

-- `calculate` grants a permission if and only if the order names it, and either a role of the
-- member has the superuser permission, or the overrides of the scope leave it granted: a role's
-- allow wins over any role's deny, which wins over everyone's allow, which wins over everyone's
-- deny, which wins over what the roles grant.
pub calculate_lem :
    (s : Schema) (ids : List Text) (roles : Roles) (overrides : Option Overrides) (p : Text)
    → calculate s ids roles overrides p ≡ (
        contains p s.order
        && (is_superuser s ids roles
            || in_scope s.everyone_role_id overrides ids (role_grants roles ids p) p))
unfolding calculate
calculate_lem s ids roles overrides p = elim (Bool-cases (contains p s.order)) [
  | inl known ↦ ground (
    arith,
    first_bit-base_from s.order roles no_bits ids s.superuser_name,
    first_bit-no_bits s.order s.superuser_name,
    decode-base_from s.order roles no_bits ids p,
    decode-no_bits s.order p,
    decode-scope_bits s (base_from s.order roles no_bits ids) ids overrides p known,
  )
  | inr unknown ↦ ground (
    arith,
    decode_unknown s.order (scope_bits s (base_from s.order roles no_bits ids) ids overrides) p
        unknown,
  )
]
