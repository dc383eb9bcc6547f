-- ===== src/Mailbox/Prune.antt =====
-- js/mailbox/prune.mjs and js/mailbox/importance.mjs: which records the mailbox keeps. A record is
-- what these functions read of it; the length of its JSON text, `mailboxRecordBytes`, is a parameter.
use fount_p2p.Base.{
  ℕ, zero, suc, ◌+◌, ◌*◌, ◌-◌, ◌≤◌, ◌≡◌, refl, Option, none, some, List, [], ◌∷◌, ◌++◌, Bool, true,
  false, arith, ltb, ◌==◌, if◌then◌else◌, ◌&&◌, ◌||◌, not, length, keep_if, drop, inl, inr,
  Bool-cases, ap,
}
use fount_p2p.Base.JsMap.{JsMap, get, put}
use fount_p2p.Core.HexIds.{Text, text_dec, decided}

abbrev pub max_bucket_entries : ℕ
max_bucket_entries = 10

abbrev pub max_bucket_bytes : ℕ
max_bucket_bytes = 2097152

abbrev pub max_mailbox_entries : ℕ
max_mailbox_entries = 500

abbrev pub max_mailbox_bytes : ℕ
max_mailbox_bytes = 52428800

pub data Tier : Type 0 where
  quarantine normal trusted : Tier

-- A text that is missing is empty; every record of the store has a tier.
pub record Record : Type 0 where
  pub id : Text
  pub to_pub_key_hash : Text
  pub from_node_hash : Text
  pub envelope_sender : Text
  pub stored_at : ℕ
  pub tier : Tier

abbrev pub tier_order : Tier → ℕ
tier_order quarantine = 0
tier_order normal = 1
tier_order trusted = 2

abbrev pub default_ttl_ms_for_tier : Tier → ℕ
default_ttl_ms_for_tier trusted = 2592000000
default_ttl_ms_for_tier normal = 604800000
default_ttl_ms_for_tier quarantine = 86400000

abbrev pub allow_mailbox_relay_for_tier : Tier → Bool
allow_mailbox_relay_for_tier quarantine = false
allow_mailbox_relay_for_tier normal = true
allow_mailbox_relay_for_tier trusted = true

-- Stable insertion sort by a test for a record that must come first.
unfoldable pub insert_row : (Record → Record → Bool) → Record → List Record → List Record
insert_row before r [] = r ∷ []
insert_row before r (x ∷ rows) = if before x r then x ∷ insert_row before r rows else r ∷ x ∷ rows

unfoldable pub sort_rows : (Record → Record → Bool) → List Record → List Record
sort_rows before [] = []
sort_rows before (r ∷ rows) = insert_row before r (sort_rows before rows)

abbrev pub stored_before : Record → Record → Bool
stored_before a b = ltb a.stored_at b.stored_at

abbrev pub retained_before : Record → Record → Bool
retained_before a b =
    ltb (tier_order a.tier) (tier_order b.tier)
    || (tier_order a.tier == tier_order b.tier && ltb a.stored_at b.stored_at)

abbrev pub sort_mailbox_for_retention : List Record → List Record
sort_mailbox_for_retention rows = sort_rows retained_before rows

abbrev pub or_text : Text → Text → Text
or_text a b = if length a == 0 then b else a

-- The recipient and the sender with a zero unit between them.
unfoldable pub mailbox_bucket_key : Record → Text
mailbox_bucket_key r =
    r.to_pub_key_hash
    ++ 0
      ∷ or_text r.from_node_hash
          (or_text r.envelope_sender (b'u' ∷ b'n' ∷ b'k' ∷ b'n' ∷ b'o' ∷ b'w' ∷ b'n' ∷ []))

abbrev pub Buckets : Type 0
Buckets = JsMap Text (List Record)

abbrev pub rows_or_empty : Option (List Record) → List Record
rows_or_empty none = []
rows_or_empty (some rows) = rows

unfoldable pub add_to_buckets : Buckets → List Record → Buckets
add_to_buckets buckets [] = buckets
add_to_buckets buckets (r ∷ rows) =
    let key = mailbox_bucket_key r in
    add_to_buckets (put text_dec key (rows_or_empty (get text_dec key buckets) ++ r ∷ []) buckets)
      rows

module _ (bytes : Record → ℕ) where
  unfoldable pub total_bytes : List Record → ℕ
  total_bytes [] = 0
  total_bytes (r ∷ rows) = bytes r + total_bytes rows

  -- The loop that shifts the oldest record out; `total` is the bytes of those left.
  unfoldable pub trim_bucket : ℕ → List Record → List Record
  trim_bucket total [] = []
  trim_bucket total (r ∷ rows) =
      let rest = trim_bucket (total - bytes r) rows in
      if ltb max_bucket_entries (length (r ∷ rows)) || ltb max_bucket_bytes total
      then rest
      else r ∷ rows

  -- One bucket, the oldest record first.
  unfoldable pub prune_bucket : List Record → List Record
  prune_bucket list =
      let bucket = sort_rows stored_before list in trim_bucket (total_bytes bucket) bucket

  unfoldable pub prune_each : Buckets → List Record
  prune_each [] = []
  prune_each ((key, list) ∷ buckets) = prune_bucket list ++ prune_each buckets

  unfoldable pub prune_mailbox_buckets : List Record → List Record
  prune_mailbox_buckets rows = prune_each (add_to_buckets [] rows)

  -- The score of a bucket: its number of records first, then its bytes.
  abbrev pub score : List Record → ℕ
  score list = length list * 1000000 + total_bytes list

  -- The bucket with the highest score, the first of equals; a score of -1 is none.
  unfoldable pub victim_from : Option ℕ → List Record → Buckets → List Record
  victim_from best victim [] = victim
  victim_from none victim ((key, list) ∷ buckets) = victim_from (some (score list)) list buckets
  victim_from (some best) victim ((key, list) ∷ buckets) =
      if ltb best (score list)
      then victim_from (some (score list)) list buckets
      else victim_from (some best) victim buckets

  -- The id of the victim's oldest record.
  abbrev pub oldest_id : List Record → Option Text
  oldest_id [] = none
  oldest_id (r ∷ rows) = some r.id

  abbrev pub drop_id : List Record → Option Text
  drop_id kept = oldest_id (sort_rows stored_before (victim_from none [] (add_to_buckets [] kept)))

  abbrev pub has_other_id : Text → Record → Bool
  has_other_id id r = not (decided (text_dec r.id id))

  -- `while ((too many || too large) && kept.length > 1)`, on fuel.
  unfoldable pub drop_until_fair : ℕ → List Record → List Record
  drop_until_fair zero kept = kept
  drop_until_fair (suc fuel) kept =
      elim ((ltb max_mailbox_entries (length kept) || ltb max_mailbox_bytes (total_bytes kept))
        && ltb 1 (length kept)) [
          | false ↦ kept
          | true ↦ elim (drop_id kept) [
            | none ↦ kept
            | some id ↦ drop_until_fair fuel (keep_if (has_other_id id) kept)
          ]
        ]

  -- `kept.slice(-MAX_MAILBOX_ENTRIES)` of a list that is too long.
  abbrev pub last_entries : List Record → List Record
  last_entries kept =
      if ltb max_mailbox_entries (length kept)
      then drop (length kept - max_mailbox_entries) kept
      else kept

  unfoldable pub prune_mailbox_global_fair : List Record → List Record
  prune_mailbox_global_fair rows =
      last_entries (drop_until_fair (length rows) (sort_rows stored_before rows))

  trim_bucket-bounds :
      (total : ℕ) (rows : List Record)
      → total ≡ total_bytes rows
      → (length (trim_bucket total rows) ≤ max_bucket_entries)
        × (total_bytes (trim_bucket total rows) ≤ max_bucket_bytes)
  unfolding trim_bucket total_bytes
  trim_bucket-bounds total [] h = (omega arith, omega arith)
  trim_bucket-bounds total (r ∷ rows) h =
      ground (arith, trim_bucket-bounds (total - bytes r) rows (omega arith))

  trim_bucket-suffix :
      (total : ℕ) (rows : List Record)
      → (dropped : List Record) × (rows ≡ dropped ++ trim_bucket total rows)
  unfolding trim_bucket
  trim_bucket-suffix total [] = ([], refl)
  trim_bucket-suffix total (r ∷ rows) =
      let (dropped, e) = trim_bucket-suffix (total - bytes r) rows in
      elim (Bool-cases (ltb max_bucket_entries (length (r ∷ rows)) || ltb max_bucket_bytes total)) [
        | inl over ↦ (r ∷ dropped, rw over (ap (λ l. r ∷ l) e))
        | inr fits ↦ ([], rw fits refl)
      ]

  -- Of a bucket, sorted by the time of storing, the oldest records are dropped and the others kept
  -- in order; at most 10 records of at most 2 MiB together are kept.
  pub prune_bucket_lem :
      (list : List Record)
      → ((dropped : List Record) × (sort_rows stored_before list ≡ dropped ++ prune_bucket list))
        × (length (prune_bucket list) ≤ max_bucket_entries)
        × (total_bytes (prune_bucket list) ≤ max_bucket_bytes)
  unfolding prune_bucket
  prune_bucket_lem list =
      let bucket = sort_rows stored_before list in
      (
        trim_bucket-suffix (total_bytes bucket) bucket,
        (trim_bucket-bounds (total_bytes bucket) bucket refl).0,
        (trim_bucket-bounds (total_bytes bucket) bucket refl).1,
      )
