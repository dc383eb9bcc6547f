-- ===== src/Tests/Access.antt =====
-- The theorems on js/permissions and js/mailbox at concrete inputs.
use fount_p2p.Base.{
  ℕ, ◌≡◌, refl, none, some, [], ◌∷◌, Bool, true, arith, length, replicate, min, inl, inr, ◌&&◌,
  ◌||◌,
}
use fount_p2p.Base.JsMap.{get}
use fount_p2p.Core.HexIds.{Text, text_dec, is_event_id, is_hex_digit, all_hex, IsIn, contains}
use fount_p2p.Permissions.{Overrides, Schema, Roles, calculate}
use fount_p2p.Permissions.Evaluator.{calculate_lem, is_superuser, in_scope, role_grants}
use fount_p2p.Permissions.RoleOrder.{calculate_agrees}
use fount_p2p.Mailbox.Rate.{Limits, Entry, resolve_mailbox_rate_limits, take_all}
use fount_p2p.Mailbox.Rate.Window.{IsStale, take_all_lem}

abbrev view : Text
view = b'v' ∷ []

abbrev send : Text
send = b's' ∷ []

abbrev admin : Text
admin = b'a' ∷ []

abbrev everyone : Text
everyone = b'@' ∷ []

abbrev writer : Text
writer = b'w' ∷ []

abbrev schema : Schema
schema = record {
  order = view ∷ send ∷ admin ∷ [];
  superuser_name = admin;
  everyone_role_id = everyone;
}

abbrev only_view : Text → Bool
only_view p = contains p (view ∷ [])

abbrev only_send : Text → Bool
only_send p = contains p (send ∷ [])

abbrev roles : Roles
roles = (everyone, some only_view) ∷ (writer, none) ∷ []

-- Everyone may not send here; writers may.
abbrev overrides : Overrides
overrides =
    (everyone, record { deny = some only_send; allow = none })
    ∷ (writer, record { deny = none; allow = some only_send })
    ∷ []

calculate_lem_example : calculate schema (everyone ∷ writer ∷ []) roles (some overrides) send ≡ (
    contains send schema.order
    && (is_superuser schema (everyone ∷ writer ∷ []) roles
        || in_scope everyone
            (some overrides)
            (everyone ∷ writer ∷ [])
            (role_grants roles (everyone ∷ writer ∷ []) send)
            send))
calculate_lem_example = calculate_lem schema (everyone ∷ writer ∷ []) roles (some overrides) send

either_order : (x y t : Text) → IsIn t (x ∷ y ∷ []) → IsIn t (y ∷ x ∷ [])
either_order x y t (inl e) = inr (inl e)
either_order x y t (inr (inl e)) = inl e
either_order x y t (inr (inr e)) = absurd e

calculate_agrees_example :
    calculate schema (everyone ∷ writer ∷ []) roles (some overrides) send
    ≡ calculate schema (writer ∷ everyone ∷ []) roles (some overrides) send
calculate_agrees_example =
    calculate_agrees schema (everyone ∷ writer ∷ []) (writer ∷ everyone ∷ []) roles (some overrides)
      send (either_order everyone writer) (either_order writer everyone)

abbrev node : Text
node = replicate 64 b'a'

abbrev limits : Limits
limits = record { window_ms = 5000; max_puts = 2 }

node_valid : is_event_id node ≡ true
unfolding is_event_id all_hex is_hex_digit
node_valid = refl

no_entry : IsStale 100 (get {V = Entry} text_dec node [])
unfolding get
no_entry = tt

take_all_lem_example :
    take_all node limits (100 ∷ 200 ∷ 300 ∷ 400 ∷ []) []
    ≡ min
        (length {A = ℕ} (100 ∷ 200 ∷ 300 ∷ 400 ∷ []))
        (resolve_mailbox_rate_limits limits).max_puts
take_all_lem_example =
    take_all_lem node limits 100 (200 ∷ 300 ∷ 400 ∷ []) [] node_valid tt no_entry
      (omega arith, (omega arith, (omega arith, tt)))
