-- ===== src/Dag/Order/Build.antt =====
-- What `topologicalCanonicalOrder` (js/dag/index.mjs) builds before its loop: the metadata by id,
-- the counts of parents, the children of each id and the ids that are ready.
use fount_p2p.Base.{
  ℕ, ◌+◌, ◌≤◌, ◌≡◌, refl, Option, none, some, List, [], ◌∷◌, ◌++◌, Bool, true, arith, inl, inr,
  length, if◌then◌else◌, Bool-cases, ◌∙◌, ap, subst, keep_if, Option-cases,
}
use fount_p2p.Base.Int.{ℤ, pos}
use fount_p2p.Base.JsMap.{JsMap, get, put, get-put, has}
use fount_p2p.Core.HexIds.{Text, text_dec, decided, sorted_prev_event_ids}
use fount_p2p.Core.HexIds.Order.{
  IsBelow, IsAscending, IsIn-keep_if, sorted_prev_event_ids_lem, text_lt_irrefl,
}
use fount_p2p.Core.HexIds.Count.{occurrences, occurrences-append, occurrences-IsIn}
use fount_p2p.Dag.Heap.{heap_push}
use fount_p2p.Dag.Heap.Members.{occurrences-heap_push}
use fount_p2p.Dag.Order.{
  Meta, Metas, Links, compare_ids, metas_by_id, parents_in_graph, ids_or_empty, add_child_to,
  links_from, is_count_zero, ready_from, push_count,
}

abbrev pub ids_of : List Meta → List Text
ids_of [] = []
ids_of (m ∷ metas) = m.id ∷ ids_of metas

-- The first event with an id.
abbrev pub find_meta : Text → List Meta → Option Meta
find_meta c [] = none
find_meta c (m ∷ metas) = if decided (text_dec m.id c) then some m else find_meta c metas

abbrev or_else : Option Meta → Option Meta → Option Meta
or_else none o = o
or_else (some m) o = some m

-- The parents of an event in the graph, and none for what is not there.
abbrev pub parents_found : Metas → Option Meta → List Text
parents_found by_id none = []
parents_found by_id (some m) = parents_in_graph by_id m

pub find_meta-none :
    (c : Text) (metas : List Meta) → find_meta c metas ≡ none → occurrences c (ids_of metas) ≡ 0
find_meta-none c [] h = refl
find_meta-none c (m ∷ metas) h = elim (text_dec m.id c) [
  | yes e ↦ ground arith
  | no d ↦ ground (arith, find_meta-none c metas)
]

pub find_meta-some :
    (c : Text) (metas : List Meta) (m : Meta)
    → find_meta c metas ≡ some m
    → 1 ≤ occurrences c (ids_of metas)
find_meta-some c [] m h = cc
find_meta-some c (n ∷ metas) m h = elim (text_dec n.id c) [
  | yes e ↦ ground arith
  | no d ↦ ground (arith, find_meta-some c metas m)
]

-- With each id once, `byId` gives the event with the id.
pub get-metas_by_id :
    (c : Text) (acc : Metas) (metas : List Meta)
    → ((u : Text) → occurrences u (ids_of metas) ≤ 1)
    → get text_dec c (metas_by_id acc metas) ≡ or_else (find_meta c metas) (get text_dec c acc)
unfolding metas_by_id
get-metas_by_id c acc [] once = refl
get-metas_by_id c acc (m ∷ metas) once =
    let rest = get-metas_by_id c (put text_dec m.id m acc) metas (λ u. omega (arith, once u)) in
    elim (text_dec m.id c) [
      | yes e ↦ elim (Option-cases (find_meta c metas)) [
        | inl f ↦ rest ∙ ground (arith, get-put text_dec c m.id m acc, f)
        | inr (n, f) ↦ absurd (ground (arith, once c, find_meta-some c metas n f))
      ]
      | no d ↦ rest ∙ ground (arith, get-put text_dec c m.id m acc)
    ]

abbrev pub count_of : Metas → Option Meta → Option ℤ → Option ℤ
count_of by_id none o = o
count_of by_id (some m) o = some (pos (length (parents_in_graph by_id m)))

pub count_of-some :
    (by_id : Metas) (o : Option Meta) (counted : Option ℤ) (m : Meta)
    → o ≡ some m
    → count_of by_id o counted ≡ some (pos (length (parents_found by_id o)))
count_of-some by_id none counted m h = cc
count_of-some by_id (some n) counted m h = refl

pub get-links_from_counts :
    (by_id : Metas) (c : Text) (metas : List Meta) (links : Links)
    → ((u : Text) → occurrences u (ids_of metas) ≤ 1)
    → get text_dec c (links_from by_id metas links).parent_count
      ≡ count_of by_id (find_meta c metas) (get text_dec c links.parent_count)
unfolding links_from
get-links_from_counts by_id c [] links once = refl
get-links_from_counts by_id c (m ∷ metas) links once =
    let parents = parents_in_graph by_id m in
    let rest =
      get-links_from_counts by_id c metas
        (record {
          parent_count = put text_dec m.id (pos (length parents)) links.parent_count;
          children = add_child_to m.id parents links.children;
        })
        (λ u. omega (arith, once u)) in
    elim (text_dec m.id c) [
      | yes e ↦ elim (Option-cases (find_meta c metas)) [
        | inl f ↦
            rest
            ∙ ground (arith, get-put text_dec c m.id (pos (length parents)) links.parent_count, f)
        | inr (n, f) ↦ absurd (ground (arith, once c, find_meta-some c metas n f))
      ]
      | no d ↦
          rest ∙ ground (arith, get-put text_dec c m.id (pos (length parents)) links.parent_count)
    ]

-- How often an id is among the children of another.
abbrev times_child : Text → Text → JsMap Text (List Text) → ℕ
times_child c p children = occurrences c (ids_or_empty (get text_dec p children))

times_child-add_child_to :
    (c p child : Text) (parents : List Text) (children : JsMap Text (List Text))
    → times_child c p (add_child_to child parents children)
      ≡ times_child c p children + (if decided (text_dec child c) then occurrences p parents else 0)
unfolding add_child_to
times_child-add_child_to c p child [] children = ground arith
times_child-add_child_to c p child (q ∷ parents) children =
    let added = ids_or_empty (get text_dec q children) ++ child ∷ [] in
    let rest = times_child-add_child_to c p child parents (put text_dec q added children) in
    let last = occurrences-append c (ids_or_empty (get text_dec q children)) (child ∷ []) in
    elim (text_dec q p) [
      | yes e ↦ rest ∙ ground (arith, get-put text_dec p q added children, last)
      | no d ↦ rest ∙ ground (arith, get-put text_dec p q added children)
    ]

pub times_child-links_from :
    (by_id : Metas) (c p : Text) (metas : List Meta) (links : Links)
    → ((u : Text) → occurrences u (ids_of metas) ≤ 1)
    → times_child c p (links_from by_id metas links).children
      ≡ times_child c p links.children + occurrences p (parents_found by_id (find_meta c metas))
unfolding links_from
times_child-links_from by_id c p [] links once = omega arith
times_child-links_from by_id c p (m ∷ metas) links once =
    let parents = parents_in_graph by_id m in
    let rest =
      times_child-links_from by_id c p metas
        (record {
          parent_count = put text_dec m.id (pos (length parents)) links.parent_count;
          children = add_child_to m.id parents links.children;
        })
        (λ u. omega (arith, once u)) in
    let added = times_child-add_child_to c p m.id parents links.children in
    elim (text_dec m.id c) [
      | yes e ↦ elim (Option-cases (find_meta c metas)) [
        | inl f ↦ rest ∙ ground (arith, added, f)
        | inr (n, f) ↦ absurd (ground (arith, once c, find_meta-some c metas n f))
      ]
      | no d ↦ rest ∙ ground (arith, added)
    ]

pub occurrences-ready_from :
    (locale_compare : Text → Text → ℤ) (by_id : Metas) (counts : JsMap Text ℤ) (c : Text)
    (metas : List Meta) (ready : List Text)
    → occurrences c (ready_from locale_compare by_id counts metas ready)
      ≡ occurrences c ready
        + (if is_count_zero (get text_dec c counts) then occurrences c (ids_of metas) else 0)
unfolding ready_from
occurrences-ready_from locale_compare by_id counts c [] ready = ground arith
occurrences-ready_from locale_compare by_id counts c (m ∷ metas) ready =
    let compare = compare_ids locale_compare by_id in
    let ready' =
      if is_count_zero (get text_dec m.id counts) then heap_push compare m.id ready else ready in
    let rest = occurrences-ready_from locale_compare by_id counts c metas ready' in
    let pushed = occurrences-heap_push compare c m.id ready in
    elim (text_dec m.id c) [
      | yes e ↦
          rest
          ∙ ground (
            arith,
            pushed,
            ap (λ y. is_count_zero (get text_dec y counts)) e,
            Bool-cases (is_count_zero (get text_dec c counts)),
          )
      | no d ↦ rest ∙ ground (arith, pushed, Bool-cases (is_count_zero (get text_dec m.id counts)))
    ]

IsBelow-occurrences : (p : Text) (xs : List Text) → IsBelow p xs → occurrences p xs ≡ 0
IsBelow-occurrences p [] h = refl
IsBelow-occurrences p (x ∷ xs) h = elim (text_dec x p) [
  | yes e ↦ cc (h.0, text_lt_irrefl p, e)
  | no d ↦ ground (arith, IsBelow-occurrences p xs h.1)
]

IsAscending-occurrences-le : (p : Text) (xs : List Text) → IsAscending xs → occurrences p xs ≤ 1
IsAscending-occurrences-le p [] h = omega arith
IsAscending-occurrences-le p (x ∷ xs) h = elim (text_dec x p) [
  | yes e ↦ ground (arith, IsBelow-occurrences p xs (subst (λ y. IsBelow y xs) e h.0))
  | no d ↦ ground (arith, IsAscending-occurrences-le p xs h.1)
]

occurrences-keep_if-le :
    (p : Text) (f : Text → Bool) (xs : List Text) → occurrences p (keep_if f xs) ≤ occurrences p xs
occurrences-keep_if-le p f [] = omega arith
occurrences-keep_if-le p f (x ∷ xs) = ground (arith, occurrences-keep_if-le p f xs)

pub occurrences-parents_found-le :
    (by_id : Metas) (p : Text) (o : Option Meta) → occurrences p (parents_found by_id o) ≤ 1
occurrences-parents_found-le by_id p none = omega arith
occurrences-parents_found-le by_id p (some m) =
    let sorted = sorted_prev_event_ids m.prev_event_ids in
    omega (
      arith,
      occurrences-keep_if-le p (λ q. has text_dec q by_id) sorted,
      IsAscending-occurrences-le p sorted (sorted_prev_event_ids_lem m.prev_event_ids).0,
    )

pub parents_found-has :
    (by_id : Metas) (p : Text) (o : Option Meta)
    → 1 ≤ occurrences p (parents_found by_id o)
    → has text_dec p by_id ≡ true
parents_found-has by_id p none h = absurd (omega arith)
parents_found-has by_id p (some m) h =
    (IsIn-keep_if p (λ q. has text_dec q by_id) (sorted_prev_event_ids m.prev_event_ids)
      (occurrences-IsIn p (parents_in_graph by_id m) h)).1

-- The fuel is enough for each id.
pub length-ids_of-le :
    (by_id : Metas) (locale_compare : Text → Text → ℤ) (metas : List Meta)
    → length (ids_of metas) ≤ push_count locale_compare by_id metas
unfolding push_count
length-ids_of-le by_id locale_compare [] = omega arith
length-ids_of-le by_id locale_compare (m ∷ metas) =
    omega (arith, length-ids_of-le by_id locale_compare metas)
