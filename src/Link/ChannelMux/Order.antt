-- ===== src/Link/ChannelMux/Order.antt =====
-- The queues of js/link/channel_mux.mjs stay in order of priority and arrival.
use Prim.Native.String.{String}
use fount_p2p.Base.{
  none, some, is_some, ℕ, ◌+◌, ◌≤◌, ◌<◌, ◌≡◌, refl, ◌⊎◌, Option, List, [], ◌∷◌, true, false, arith,
  inl, inr, length, All, All-map, Bool-cases, ◌↔◌,
}
use fount_p2p.Base.Int.{is_negative, sub_ℕ}
use fount_p2p.Link.ChannelMux.{
  compare_priorities, priority_in, inherited_members, is_inherited, default_action_priorities, Item,
  Channel, control, bulk, Mux, lane, compare_items, goes_before, insert_item, enqueue,
  schedule_flush, channel_or, pick_channel, resolve_action_priority, with_lane,
}
use fount_p2p.Link.ChannelMux.Insertion.{UpClosed, place, splice_in-search}

abbrev pub level_of : Option ℕ → ℕ
level_of none = 0
level_of (some p) = p

-- The priority of an item that has a number for it.
abbrev pub level : Item → ℕ
level a = level_of a.priority

-- The order of sending.
abbrev pub SentBefore : Item → Item → Type 0
SentBefore a b = (level a < level b) ⊎ ((level a ≡ level b) × (a.seq < b.seq))

abbrev pub HasLevel : Item → Type 0
HasLevel a = is_some a.priority ≡ true

compare_priorities-negative :
    (p q : Option ℕ) (i j : ℕ)
    → is_some p ≡ true
    → is_some q ≡ true
    → (is_negative (compare_priorities p q (sub_ℕ i j)) ≡ true)
      ↔ ((level_of p < level_of q) ⊎ ((level_of p ≡ level_of q) × (i < j)))
compare_priorities-negative none q i j h k = absurd (ground arith)
compare_priorities-negative (some p) none i j h k = absurd (ground arith)
compare_priorities-negative (some p) (some q) i j h k = ground arith

pub goes_before-SentBefore :
    (a b : Item) → HasLevel a → HasLevel b → (goes_before a b ≡ true) ↔ SentBefore a b
unfolding compare_items
goes_before-SentBefore a b h k = compare_priorities-negative a.priority b.priority a.seq b.seq h k

SentBefore-trans : (a b c : Item) → SentBefore a b → SentBefore b c → SentBefore a c
SentBefore-trans a b c p q = ground arith

-- Each entry is sent before all later ones.
abbrev pub IsOrdered : List Item → Type 0
IsOrdered [] = Unit
IsOrdered (x ∷ xs) = All (SentBefore x) xs × IsOrdered xs

-- All entries have a number for their priority, and all their numbers have been given out.
abbrev pub IsNumbered : ℕ → List Item → Type 0
IsNumbered n = All (λ x. (x.seq ≤ n) × HasLevel x)

before-All :
    (a x : Item) (xs : List Item) (n : ℕ)
    → HasLevel a
    → SentBefore a x
    → IsNumbered n xs
    → All (SentBefore x) xs
    → All (λ y. goes_before a y ≡ true) xs
before-All a x [] n has here num h = tt
before-All a x (y ∷ xs) n has here num h = (
  (goes_before-SentBefore a y has num.0.1).1 (SentBefore-trans a x y here h.0),
  before-All a x xs n has here num.1 h.1,
)

IsOrdered-UpClosed :
    (n : ℕ) (a : Item) (xs : List Item)
    → HasLevel a
    → IsNumbered n xs
    → IsOrdered xs
    → UpClosed (goes_before a) xs
IsOrdered-UpClosed n a [] has num h = tt
IsOrdered-UpClosed n a (x ∷ xs) has num h = (
  λ p. before-All a x xs n has ((goes_before-SentBefore a x has num.0.1).0 p) num.1 h.0,
  IsOrdered-UpClosed n a xs has num.1 h.1,
)

-- On a queue in order the binary search inserts an item where a scan does: before the first item
-- that it goes before.
pub insert_item-place :
    (n : ℕ) (a : Item) (xs : List Item)
    → HasLevel a
    → IsNumbered n xs
    → IsOrdered xs
    → insert_item a xs ≡ place (goes_before a) a xs
unfolding insert_item
insert_item-place n a xs has num h =
    splice_in-search (goes_before a) a xs (IsOrdered-UpClosed n a xs has num h)

All-place {ℓ} :
    (P : Item → Type ℓ) (a : Item) (xs : List Item)
    → P a
    → All P xs
    → All P (place (goes_before a) a xs)
unfolding place
All-place P a [] h k = (h, tt)
All-place P a (x ∷ xs) h k = elim (Bool-cases (goes_before a x)) [
  | inl p ↦ rw (p, place) (h, k)
  | inr n ↦ rw (n, place) (k.0, All-place P a xs h k.1)
]

comes_after :
    (n : ℕ) (a x : Item)
    → n < a.seq
    → HasLevel a
    → (x.seq ≤ n) × HasLevel x
    → goes_before a x ≡ false
    → SentBefore x a
comes_after n a x new has num h = ground (arith, goes_before-SentBefore a x has num.1)

place-IsOrdered :
    (n : ℕ) (a : Item) (xs : List Item)
    → n < a.seq
    → HasLevel a
    → IsNumbered n xs
    → IsOrdered xs
    → IsOrdered (place (goes_before a) a xs)
unfolding place
place-IsOrdered n a [] new has num h = (tt, tt)
place-IsOrdered n a (x ∷ xs) new has num h = elim (Bool-cases (goes_before a x)) [
  | inl p ↦
      let here = (goes_before-SentBefore a x has num.0.1).0 p in
      rw (p, place) ((here, All-map _ _ xs (λ y q. SentBefore-trans a x y here q) h.0), h)
  | inr later ↦
      rw (later, place)
        (
          All-place (SentBefore x) a xs (comes_after n a x new has num.0 later) h.0,
          place-IsOrdered n a xs new has num.1 h.1,
        )
]

-- A new item keeps the queue in order: it goes behind every entry of its priority or a more urgent
-- one, and before the rest.
pub insert_item-IsOrdered :
    (n : ℕ) (a : Item) (xs : List Item)
    → n < a.seq
    → HasLevel a
    → IsNumbered n xs
    → IsOrdered xs
    → IsOrdered (insert_item a xs)
insert_item-IsOrdered n a xs new has num h =
    rw (insert_item-place n a xs has num h) (place-IsOrdered n a xs new has num h)

IsNumbered-le : (n m : ℕ) (xs : List Item) → n ≤ m → IsNumbered n xs → IsNumbered m xs
IsNumbered-le n m xs le num = All-map _ _ xs (λ x k. (omega (arith, k.0), k.1)) num

insert_item-IsNumbered :
    (n m : ℕ) (a : Item) (xs : List Item)
    → n ≤ m
    → a.seq ≤ m
    → HasLevel a
    → IsNumbered n xs
    → IsOrdered xs
    → IsNumbered m (insert_item a xs)
insert_item-IsNumbered n m a xs le new has num h =
    rw (insert_item-place n a xs has num h)
      (All-place (λ x. (x.seq ≤ m) × HasLevel x) a xs (new, has) (IsNumbered-le n m xs le num))

pub record IsInOrder (m : Mux) : Type 0 where
  pub control_ordered : IsOrdered m.control_lane.queue
  pub bulk_ordered : IsOrdered m.bulk_lane.queue
  pub control_numbered : IsNumbered m.seq m.control_lane.queue
  pub bulk_numbered : IsNumbered m.seq m.bulk_lane.queue

schedule_flush-IsInOrder : (c : Channel) (m : Mux) → IsInOrder m → IsInOrder (schedule_flush c m)
unfolding schedule_flush
schedule_flush-IsInOrder control m v = ground arith
schedule_flush-IsInOrder bulk m v = ground arith

enqueued :
    (a : Item) (c : Channel) (m : Mux)
    → a.seq ≡ m.seq + 1
    → HasLevel a
    → IsInOrder m
    → IsInOrder
        (record (with_lane c
          (record { queue = insert_item a (lane c m).queue; scheduled = (lane c m).scheduled })
          m) { seq = m.seq + 1 })
enqueued a control m e has v = record {
  control_ordered =
      insert_item-IsOrdered m.seq a m.control_lane.queue (omega arith) has v.control_numbered
        v.control_ordered;
  bulk_ordered = v.bulk_ordered;
  control_numbered =
      insert_item-IsNumbered m.seq (m.seq + 1) a m.control_lane.queue (omega arith) (omega arith)
        has v.control_numbered v.control_ordered;
  bulk_numbered = IsNumbered-le m.seq (m.seq + 1) m.bulk_lane.queue (omega arith) v.bulk_numbered;
}
enqueued a bulk m e has v = record {
  control_ordered = v.control_ordered;
  bulk_ordered =
      insert_item-IsOrdered m.seq a m.bulk_lane.queue (omega arith) has v.bulk_numbered
        v.bulk_ordered;
  control_numbered =
      IsNumbered-le m.seq (m.seq + 1) m.control_lane.queue (omega arith) v.control_numbered;
  bulk_numbered =
      insert_item-IsNumbered m.seq (m.seq + 1) a m.bulk_lane.queue (omega arith) (omega arith) has
        v.bulk_numbered v.bulk_ordered;
}

priority_in-some :
    (table : List (String × ℕ)) (action : String)
    → is_inherited inherited_members action ≡ false
    → is_some (priority_in table action) ≡ true
unfolding priority_in
priority_in-some [] action own = ground arith
priority_in-some ((name, p) ∷ table) action own = ground (arith, priority_in-some table action own)

-- Every `enqueue` of an action that is not named like an inherited member of an object keeps both
-- queues in order of priority and arrival, and their numbers up to date.
pub enqueue-IsInOrder :
    (action : String) (bytes : List ℕ) (preferred : Option Channel) (m : Mux)
    → is_inherited inherited_members action ≡ false
    → IsInOrder m
    → IsInOrder (enqueue action bytes preferred m)
unfolding enqueue resolve_action_priority
enqueue-IsInOrder action bytes preferred m own v =
    let c = channel_or preferred (pick_channel action (length bytes)) in
    schedule_flush-IsInOrder c _ (
      enqueued
        (record { priority = resolve_action_priority action; seq = m.seq + 1; bytes = bytes }) c m
        refl (priority_in-some default_action_priorities action own) v)
