-- ===== src/Federation/ChunkFetch.antt =====
-- js/federation/chunk_fetch_scheduler.mjs: which peer is asked for which missing chunk.
use fount_p2p.Base.{
  ℕ, suc, max, ◌+◌, ◌%◌, ◌≡◌, refl, ◌⊎◌, Option, none, some, List, [], ◌∷◌, Bool, true, false,
  arith, leb, ◌==◌, if◌then◌else◌, not, length, keep_if, get_elem?, sym, ◌∙◌, inl, inr, Bool-cases,
  subst,
}
use fount_p2p.Base.JsMap.{JsMap, size, get, put}
use fount_p2p.Core.HexIds.{Text, text_dec, IsIn}

pub data FetchState : Type 0 where
  waiting inflight done failed : FetchState

pub record Row : Type 0 where
  pub state : FetchState
  pub peer_id : Option Text
  pub attempts : ℕ

abbrev pub Table : Type 0
Table = JsMap Text Row

-- `peerIds.filter(Boolean)`: a peer id that is not empty.
abbrev pub is_named : Text → Bool
is_named p = not (length p == 0)

-- `list[i % list.length]`; undefined, as `none`, in an empty list.
abbrev pub peer_at : ℕ → List Text → Option Text
peer_at i [] = none
peer_at i (p ∷ list) = get_elem? (p ∷ list) (i % length (p ∷ list))

unfoldable pub assign_from :
    ℕ → List Text → List Text → JsMap Text (Option Text) → JsMap Text (Option Text)
assign_from i [] list out = out
assign_from i (hash ∷ hashes) list out =
    assign_from (suc i) hashes list (put text_dec hash (peer_at i list) out)

unfoldable pub assign_chunks_to_peers : List Text → List Text → JsMap Text (Option Text)
assign_chunks_to_peers hashes [] = []
assign_chunks_to_peers hashes (p ∷ peers) = assign_from 0 hashes (keep_if is_named (p ∷ peers)) []

abbrev pub row_or_new : Option Row → Row
row_or_new none = record { state = waiting; peer_id = none; attempts = 0 }
row_or_new (some r) = r

abbrev pub is_assigned : Option (Option Text) → Bool
is_assigned none = false
is_assigned (some none) = false
is_assigned (some (some p)) = true

-- Is the chunk to be broadcast?
abbrev pub needs_broadcast : ℕ → FetchState → ℕ → Bool → Bool
needs_broadcast max_attempts done attempts assigned = false
needs_broadcast max_attempts inflight attempts assigned = false
needs_broadcast max_attempts waiting attempts assigned =
    if leb max_attempts attempts then true else not assigned
needs_broadcast max_attempts failed attempts assigned =
    if leb max_attempts attempts then true else not assigned

unfoldable pub broadcast_of : ℕ → Table → JsMap Text (Option Text) → List Text → List Text
broadcast_of max_attempts table assignments [] = []
broadcast_of max_attempts table assignments (hash ∷ hashes) =
    let rest = broadcast_of max_attempts table assignments hashes in
    let row = row_or_new (get text_dec hash table) in
    if needs_broadcast max_attempts row.state row.attempts
      (is_assigned (get text_dec hash assignments))
    then hash ∷ rest
    else rest

-- `Math.max(1, Number(options.maxAttempts) || 3)`; an option that is missing is 0.
abbrev pub resolve_max_attempts : ℕ → ℕ
resolve_max_attempts n = max 1 (if n == 0 then 3 else n)

-- The assignments and the chunks to broadcast.
unfoldable pub plan_chunk_fetches :
    Table → List Text → List Text → ℕ → JsMap Text (Option Text) × List Text
plan_chunk_fetches table hashes peers max_attempts =
    let assignments = assign_chunks_to_peers hashes peers in
    (assignments, broadcast_of (resolve_max_attempts max_attempts) table assignments hashes)

unfoldable pub mark_chunk_inflight : Text → Text → Table → Table
mark_chunk_inflight hash peer table =
    let attempts = (row_or_new (get text_dec hash table)).attempts in
    put text_dec hash (record { state = inflight; peer_id = some peer; attempts = attempts + 1 })
      table

unfoldable pub mark_chunk_done : Text → Table → Table
mark_chunk_done hash table =
    put text_dec hash (record { state = done; peer_id = none; attempts = 0 }) table

unfoldable pub mark_chunk_failed : Text → Table → Table
mark_chunk_failed hash table =
    let attempts = (row_or_new (get text_dec hash table)).attempts in
    put text_dec hash (record { state = failed; peer_id = none; attempts = attempts }) table

pub record Progress : Type 0 where
  pub done_count : ℕ
  pub pending_count : ℕ
  pub inflight_count : ℕ
  pub failed_count : ℕ
  pub total : ℕ

-- One row's step of the loop.
abbrev pub count_row : FetchState → Progress → Progress
count_row done p = record p { done_count = suc p.done_count }
count_row inflight p = record p { inflight_count = suc p.inflight_count }
count_row failed p = record p { failed_count = suc p.failed_count }
count_row waiting p = record p { pending_count = suc p.pending_count }

unfoldable pub count_rows : Table → Progress → Progress
count_rows [] p = p
count_rows ((hash, row) ∷ table) p = count_rows table (count_row row.state p)

unfoldable pub chunk_fetch_progress : Table → Progress
chunk_fetch_progress table = count_rows table (record {
  done_count = 0;
  pending_count = 0;
  inflight_count = 0;
  failed_count = 0;
  total = size table;
})

-- The four counts of a progress.
abbrev pub counted : Progress → ℕ
counted p = p.done_count + p.pending_count + p.inflight_count + p.failed_count

counted-count_row : (s : FetchState) (p : Progress) → counted (count_row s p) ≡ suc (counted p)
counted-count_row waiting p = omega arith
counted-count_row inflight p = omega arith
counted-count_row done p = omega arith
counted-count_row failed p = omega arith

total-count_row : (s : FetchState) (p : Progress) → (count_row s p).total ≡ p.total
total-count_row waiting p = refl
total-count_row inflight p = refl
total-count_row done p = refl
total-count_row failed p = refl

count_rows_lem :
    (table : Table) (p : Progress)
    → (counted (count_rows table p) ≡ counted p + size table)
      × ((count_rows table p).total ≡ p.total)
unfolding count_rows
count_rows_lem [] p = (omega arith, refl)
count_rows_lem ((hash, row) ∷ table) p =
    let r = count_rows_lem table (count_row row.state p) in
    (omega (arith, r.0, counted-count_row row.state p), r.1 ∙ total-count_row row.state p)

-- The progress counts every row of the table under just one state: the four counts add up to the
-- total, which is the size of the table.
pub chunk_fetch_progress_lem :
    (table : Table)
    → (counted (chunk_fetch_progress table) ≡ (chunk_fetch_progress table).total)
      × ((chunk_fetch_progress table).total ≡ size table)
unfolding chunk_fetch_progress
chunk_fetch_progress_lem table =
    let start : Progress = record {
      done_count = 0;
      pending_count = 0;
      inflight_count = 0;
      failed_count = 0;
      total = size table;
    } in
    let r = count_rows_lem table start in (omega (arith, r.0, r.1), r.1)

-- Is the chunk fetched or under way?
abbrev pub is_settled : FetchState → Bool
is_settled done = true
is_settled inflight = true
is_settled waiting = false
is_settled failed = false

needs_broadcast_lem :
    (max_attempts : ℕ) (s : FetchState) (attempts : ℕ) (assigned : Bool)
    → is_settled s ≡ false
    → assigned ≡ false
    → needs_broadcast max_attempts s attempts assigned ≡ true
needs_broadcast_lem max_attempts done attempts assigned h k = cc
needs_broadcast_lem max_attempts inflight attempts assigned h k = cc
needs_broadcast_lem max_attempts waiting attempts assigned h k = ground arith
needs_broadcast_lem max_attempts failed attempts assigned h k = ground arith

if-IsIn_head :
    (b : Bool) (x a : Text) (rest : List Text)
    → x ≡ a
    → b ≡ true
    → IsIn a (if b then x ∷ rest else rest)
if-IsIn_head true x a rest e h = inl e
if-IsIn_head false x a rest e h = cc

if-IsIn_tail :
    (b : Bool) (x a : Text) (rest : List Text) → IsIn a rest → IsIn a (if b then x ∷ rest else rest)
if-IsIn_tail true x a rest h = inr h
if-IsIn_tail false x a rest h = h

broadcast_of_lem :
    (max_attempts : ℕ) (table : Table) (assignments : JsMap Text (Option Text)) (hashes : List Text)
    (hash : Text)
    → IsIn hash hashes
    → is_settled (row_or_new (get text_dec hash table)).state ≡ false
    → is_assigned (get text_dec hash assignments) ≡ false
    → IsIn hash (broadcast_of max_attempts table assignments hashes)
unfolding broadcast_of
broadcast_of_lem max_attempts table assignments [] hash h k n = h
broadcast_of_lem max_attempts table assignments (x ∷ hashes) hash (inl e) k n =
    let row = row_or_new (get text_dec x table) in
    let assigned = is_assigned (get text_dec x assignments) in
    if-IsIn_head (needs_broadcast max_attempts row.state row.attempts assigned) x hash
      (broadcast_of max_attempts table assignments hashes) e
      (needs_broadcast_lem max_attempts row.state row.attempts assigned
        (subst (λ y. is_settled (row_or_new (get text_dec y table)).state ≡ false) (sym e) k)
        (subst (λ y. is_assigned (get text_dec y assignments) ≡ false) (sym e) n))
broadcast_of_lem max_attempts table assignments (x ∷ hashes) hash (inr h) k n =
    let row = row_or_new (get text_dec x table) in
    let assigned = is_assigned (get text_dec x assignments) in
    if-IsIn_tail (needs_broadcast max_attempts row.state row.attempts assigned) x hash
      (broadcast_of max_attempts table assignments hashes)
      (broadcast_of_lem max_attempts table assignments hashes hash h k n)

-- A missing chunk that is neither fetched nor under way is not forgotten by a plan: it has a peer
-- among the assignments, or it is broadcast.
pub plan_chunk_fetches_lem :
    (table : Table) (hashes peers : List Text) (max_attempts : ℕ) (hash : Text)
    → IsIn hash hashes
    → is_settled (row_or_new (get text_dec hash table)).state ≡ false
    → let plan = plan_chunk_fetches table hashes peers max_attempts in
      (is_assigned (get text_dec hash plan.0) ≡ true) ⊎ IsIn hash plan.1
unfolding plan_chunk_fetches
plan_chunk_fetches_lem table hashes peers max_attempts hash h k =
    let assignments = assign_chunks_to_peers hashes peers in
    elim (Bool-cases (is_assigned (get text_dec hash assignments))) [
      | inl assigned ↦ inl assigned
      | inr free ↦ inr (
          broadcast_of_lem (resolve_max_attempts max_attempts) table assignments hashes hash h k
            free)
    ]
