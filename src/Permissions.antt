-- ===== src/Permissions.antt =====
-- js/permissions: the permissions of a member in a scope. A bigint of permission bits is the list
-- of its bits, lowest first, one for each name of the order. A record of flags is the function
-- from a name to its truth, false where the record lacks the name; an absent record is none.
pub mod Evaluator
pub mod RoleOrder
use fount_p2p.Base.{
  ℕ, ◌≡◌, refl, ◌≢◌, Option, none, some, List, [], ◌∷◌, ◌++◌, Bool, true, false, arith,
  if◌then◌else◌, ◌&&◌, ◌||◌, not, map,
}
use fount_p2p.Base.JsMap.{JsMap, get}
use fount_p2p.Core.HexIds.{Text, text_dec, contains, decided}

abbrev pub Flags : Type 0
Flags = Text → Bool

abbrev pub Bits : Type 0
Bits = List Bool

-- `0n`; a bit past the end of a list is 0.
abbrev pub no_bits : Bits
no_bits = []

unfoldable pub encode : List Text → Option Flags → Bits
encode order none = no_bits
encode order (some flags) = map flags order

-- `decode(bits)[p] === true`: the last index of a name decides.
unfoldable pub decode : List Text → Bits → Text → Bool
decode [] bits p = false
decode (name ∷ order) [] p = false
decode (name ∷ order) (b ∷ bits) p =
    if decided (text_dec name p) && not (contains p order) then b else decode order bits p

-- `bits & (1n << BigInt(order.indexOf(p)))`: the first index of a name; no bit if it has none.
unfoldable pub first_bit : List Text → Bits → Text → Bool
first_bit [] bits p = false
first_bit (name ∷ order) [] p = false
first_bit (name ∷ order) (b ∷ bits) p =
    if decided (text_dec name p) then b else first_bit order bits p

-- `bits | other`
unfoldable pub or_bits : Bits → Bits → Bits
or_bits [] other = other
or_bits (b ∷ bits) [] = b ∷ bits
or_bits (b ∷ bits) (c ∷ other) = (b || c) ∷ or_bits bits other

-- `bits & ~other`
unfoldable pub and_not_bits : Bits → Bits → Bits
and_not_bits [] other = []
and_not_bits (b ∷ bits) [] = b ∷ bits
and_not_bits (b ∷ bits) (c ∷ other) = (b && not c) ∷ and_not_bits bits other

pub record Override : Type 0 where
  pub deny : Option Flags
  pub allow : Option Flags

abbrev pub Overrides : Type 0
Overrides = JsMap Text Override

pub record Schema : Type 0 where
  pub order : List Text
  pub superuser_name : Text
  pub everyone_role_id : Text

abbrev pub and_not_flags : List Text → Bits → Option Flags → Bits
and_not_flags order bits none = bits
and_not_flags order bits (some flags) = and_not_bits bits (encode order (some flags))

abbrev pub or_flags : List Text → Bits → Option Flags → Bits
or_flags order bits none = bits
or_flags order bits (some flags) = or_bits bits (encode order (some flags))

unfoldable pub apply_deny_allow_override : List Text → Bits → Option Override → Bits
apply_deny_allow_override order base none = base
apply_deny_allow_override order base (some o) =
    or_flags order (and_not_flags order base o.deny) o.allow

unfoldable pub merge_from : List Text → Bits → Bits → Bits → List Override → Bits
merge_from order base role_allow role_deny [] = or_bits (and_not_bits base role_deny) role_allow
merge_from order base role_allow role_deny (o ∷ overrides) =
    merge_from order base (or_flags order role_allow o.allow) (or_flags order role_deny o.deny)
      overrides

abbrev pub merge_role_overrides : List Text → Bits → List Override → Bits
merge_role_overrides order base overrides = merge_from order base no_bits no_bits overrides

-- A role is its `permissions`, which may be absent.
abbrev pub Roles : Type 0
Roles = JsMap Text (Option Flags)

abbrev pub or_role : List Text → Option (Option Flags) → Bits → Bits
or_role order none bits = bits
or_role order (some permissions) bits = or_bits bits (encode order permissions)

unfoldable pub base_from : List Text → Roles → Bits → List Text → Bits
base_from order roles bits [] = bits
base_from order roles bits (id ∷ ids) =
    base_from order roles (or_role order (get text_dec id roles) bits) ids

abbrev pub prepend_found : Option Override → List Override → List Override
prepend_found none rest = rest
prepend_found (some o) rest = o ∷ rest

-- The overrides of the member's roles, but for everyone's.
unfoldable pub role_overrides : Text → Overrides → List Text → List Override
role_overrides everyone overrides [] = []
role_overrides everyone overrides (id ∷ ids) =
    let rest = role_overrides everyone overrides ids in
    if decided (text_dec id everyone) then rest else prepend_found (get text_dec id overrides) rest

abbrev pub scope_bits : Schema → Bits → List Text → Option Overrides → Bits
scope_bits s base ids none = base
scope_bits s base ids (some overrides) =
    merge_role_overrides s.order
      (apply_deny_allow_override s.order base (get text_dec s.everyone_role_id overrides))
      (role_overrides s.everyone_role_id overrides ids)

-- `calculate(...)[p] === true`, for a member with the roles `ids`.
unfoldable pub calculate : Schema → List Text → Roles → Option Overrides → Text → Bool
calculate s ids roles overrides p =
    let base = base_from s.order roles no_bits ids in
    if first_bit s.order base s.superuser_name
    then contains p s.order
    else decode s.order (scope_bits s base ids overrides) p
