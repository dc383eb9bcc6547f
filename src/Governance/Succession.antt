-- ===== src/Governance/Succession.antt =====
-- js/governance/owner_succession_ballot.mjs: the ballot of the admins for a new owner. The key
-- hash, the signature check and `JSON.stringify` of a string are parameters, and so are the host's
-- floating-point numbers, of which the ratio is one: whether it is out of range, that is not finite,
-- not above 0 or above 1, and the rounded-up product of a size and it.
pub mod Threshold
use fount_p2p.Base.{
  ℕ, zero, suc, ◌+◌, ◌*◌, ◌-◌, ◌/◌, Option, none, some, List, [], ◌∷◌, ◌++◌, Bool, true, false, ltb,
  leb, ◌==◌, if◌then◌else◌, ◌&&◌, ◌||◌, not, length,
}
use fount_p2p.Core.CanonicalJson.{
  string, object, Entries, end, entry, Canonical, text, absent, thrown, canonical_stringify,
}
use fount_p2p.Core.HexIds.{Text, contains, dedupe, is_event_id, is_signature}

pub record AdminSignature : Type 0 where
  pub pub_key_hex : Text
  pub signature : Text

pub record Ballot : Type 0 where
  pub proposed_owner_pub_key_hash : Text
  pub group_id : Text
  pub ballot_id : Text
  pub admin_signatures : List AdminSignature

abbrev pub ballot_domain : Text
ballot_domain =
    b'f' ∷ b'o' ∷ b'u' ∷ b'n' ∷ b't' ∷ b'-' ∷ b'o' ∷ b'w' ∷ b'n' ∷ b'e' ∷ b'r' ∷ b'-' ∷ b's' ∷ b'u'
    ∷ b'c' ∷ b'c' ∷ b'e' ∷ b's' ∷ b's' ∷ b'i' ∷ b'o' ∷ b'n' ∷ []

abbrev pub ballot_body : Ballot → Entries
ballot_body b =
    entry
      (b'p' ∷ b'r' ∷ b'o' ∷ b'p' ∷ b'o' ∷ b's' ∷ b'e' ∷ b'd' ∷ b'O' ∷ b'w' ∷ b'n' ∷ b'e' ∷ b'r'
        ∷ b'P' ∷ b'u' ∷ b'b' ∷ b'K' ∷ b'e' ∷ b'y' ∷ b'H' ∷ b'a' ∷ b's' ∷ b'h' ∷ [])
      (string b.proposed_owner_pub_key_hash)
      (entry (b'g' ∷ b'r' ∷ b'o' ∷ b'u' ∷ b'p' ∷ b'I' ∷ b'd' ∷ []) (string b.group_id) (
        entry (b'b' ∷ b'a' ∷ b'l' ∷ b'l' ∷ b'o' ∷ b't' ∷ b'I' ∷ b'd' ∷ []) (string b.ballot_id)
          end))

-- An object of strings always has a text.
abbrev pub text_or_empty : Canonical → Text
text_or_empty (text t) = t
text_or_empty absent = []
text_or_empty thrown = []

module _ (json_string : Text → Text) (pub_key_hash : Text → Text)
    (verify : Text → Text → Text → Bool) where
  unfoldable pub owner_succession_ballot_sign_bytes : Ballot → Text
  owner_succession_ballot_sign_bytes b =
      ballot_domain ++ 0 ∷ text_or_empty (canonical_stringify json_string (object (ballot_body b)))

  -- The tests of one signature: its form, an admin not seen yet, the signature itself.
  abbrev pub counts : Text → List Text → List Text → AdminSignature → Bool
  counts sign_bytes admins seen e =
      is_event_id e.pub_key_hex
      && is_signature e.signature
      && contains (pub_key_hash e.pub_key_hex) admins
      && not (contains (pub_key_hash e.pub_key_hex) seen)
      && verify e.signature sign_bytes e.pub_key_hex

  -- The loop over the signatures.
  unfoldable pub reaches : Text → List Text → ℕ → List AdminSignature → List Text → ℕ → Bool
  reaches sign_bytes admins needed [] seen valid = false
  reaches sign_bytes admins needed (e ∷ entries) seen valid =
      let skipped = reaches sign_bytes admins needed entries seen valid in
      let counted =
        reaches sign_bytes admins needed entries (pub_key_hash e.pub_key_hex ∷ seen) (suc valid) in
      if counts sign_bytes admins seen e
      then (if leb needed (suc valid) then true else counted)
      else skipped

module _ {R : Type 0} (is_out_of_range : R → Bool) (ceil_product : ℕ → R → ℕ)
    (json_string : Text → Text) (pub_key_hash : Text → Text)
    (verify : Text → Text → Text → Bool) where
  unfoldable pub verify_owner_succession_threshold : Ballot → List Text → R → Bool
  verify_owner_succession_threshold b admin_pub_key_hashes ratio =
      let admins = dedupe [] admin_pub_key_hashes in
      let sign_bytes = owner_succession_ballot_sign_bytes json_string pub_key_hash verify b in
      if length admins == 0 || is_out_of_range ratio
      then false
      else reaches json_string pub_key_hash verify sign_bytes admins
          (ceil_product (length admins) ratio) b.admin_signatures [] 0
