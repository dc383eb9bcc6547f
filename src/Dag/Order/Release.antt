-- ===== src/Dag/Order/Release.antt =====
-- The release of the children in `topologicalCanonicalOrder` (js/dag/index.mjs): what it does to the
-- count of a child and to the heap.
use fount_p2p.Base.{
  ℕ, suc, ◌+◌, ◌≡◌, refl, some, List, [], ◌∷◌, true, false, arith, length, if◌then◌else◌, ◌==◌,
  Bool-cases, ◌∙◌, ap, All,
}
use fount_p2p.Base.Int.{ℤ, pos}
use fount_p2p.Base.JsMap.{JsMap, get, put, get-put}
use fount_p2p.Core.HexIds.{Text, text_dec, contains}
use fount_p2p.Core.HexIds.Count.{occurrences}
use fount_p2p.Dag.Heap.{heap_push}
use fount_p2p.Dag.Heap.Members.{occurrences-heap_push}
use fount_p2p.Dag.Order.{Metas, compare_ids, count_or_zero, minus_one, is_zero, release}

-- The parents that are not yet out.
abbrev pub missing : List Text → List Text → ℕ
missing out [] = 0
missing out (p ∷ parents) = (if contains p out then 0 else 1) + missing out parents

pub missing-nil : (parents : List Text) → missing [] parents ≡ length parents
missing-nil [] = refl
missing-nil (p ∷ parents) = omega (arith, missing-nil parents)

pub occurrences-contains :
    (u : Text) (xs : List Text) → occurrences u xs ≡ 0 → contains u xs ≡ false
occurrences-contains u [] h = refl
occurrences-contains u (x ∷ xs) h = ground (arith, occurrences-contains u xs)

pub contains-occurrences :
    (u : Text) (xs : List Text) → contains u xs ≡ false → occurrences u xs ≡ 0
contains-occurrences u [] h = refl
contains-occurrences u (x ∷ xs) h = ground (arith, contains-occurrences u xs)

pub missing-cons :
    (next : Text) (out parents : List Text)
    → contains next out ≡ false
    → missing (next ∷ out) parents + occurrences next parents ≡ missing out parents
missing-cons next out [] h = refl
missing-cons next out (p ∷ parents) h = elim (text_dec p next) [
  | yes e ↦ ground (arith, missing-cons next out parents h)
  | no d ↦ ground (arith, missing-cons next out parents h)
]

pub missing-none :
    (out parents : List Text) → missing out parents ≡ 0 → All (λ p. contains p out ≡ true) parents
missing-none out [] h = tt
missing-none out (p ∷ parents) h = (ground arith, missing-none out parents (omega arith))

pub none-missing :
    (out parents : List Text) → All (λ p. contains p out ≡ true) parents → missing out parents ≡ 0
none-missing out [] h = refl
none-missing out (p ∷ parents) h = ground (arith, none-missing out parents h.1, h.0)

module _ (locale_compare : Text → Text → ℤ) (by_id : Metas) where
  abbrev pub released : List Text → JsMap Text ℤ → List Text → JsMap Text ℤ × List Text
  released kids counts ready = release locale_compare by_id kids counts ready

  pub release_other :
      (c : Text) (kids : List Text) (counts : JsMap Text ℤ) (ready : List Text)
      → occurrences c kids ≡ 0
      → (get text_dec c (released kids counts ready).0 ≡ get text_dec c counts)
        × (occurrences c (released kids counts ready).1 ≡ occurrences c ready)
  unfolding release
  release_other c [] counts ready h = (refl, refl)
  release_other c (x ∷ kids) counts ready h =
      let remaining = minus_one (count_or_zero (get text_dec x counts)) in
      let heap = heap_push (compare_ids locale_compare by_id) x ready in
      let r =
        release_other c kids (put text_dec x remaining counts)
          (if is_zero remaining then heap else ready) (omega arith) in
      (
        r.0 ∙ ground (arith, get-put text_dec c x remaining counts),
        r.1
            ∙ ground (
              arith,
              occurrences-heap_push (compare_ids locale_compare by_id) c x ready,
              Bool-cases (is_zero remaining),
            ),
      )

  pub release_once :
      (c : Text) (kids : List Text) (counts : JsMap Text ℤ) (ready : List Text) (k : ℕ)
      → occurrences c kids ≡ 1
      → get text_dec c counts ≡ some (pos (suc k))
      → (get text_dec c (released kids counts ready).0 ≡ some (pos k))
        × (occurrences c (released kids counts ready).1
            ≡ occurrences c ready + (if k == 0 then 1 else 0))
  unfolding release
  release_once c [] counts ready k h g = absurd (omega arith)
  release_once c (x ∷ kids) counts ready k h g =
      let remaining = minus_one (count_or_zero (get text_dec x counts)) in
      let heap = heap_push (compare_ids locale_compare by_id) x ready in
      let ready' = if is_zero remaining then heap else ready in
      let counts' = put text_dec x remaining counts in
      let pushed = occurrences-heap_push (compare_ids locale_compare by_id) c x ready in
      elim (text_dec x c) [
        | yes e ↦
            let r = release_other c kids counts' ready' (ground arith) in
            let one : remaining ≡ pos k =
              ap (λ y. minus_one (count_or_zero (get text_dec y counts))) e
              ∙ ap (λ o. minus_one (count_or_zero o)) g in
            (
              r.0 ∙ ground (arith, get-put text_dec c x remaining counts, one),
              r.1 ∙ ground (arith, pushed, one),
            )
        | no d ↦
            let r =
              release_once c kids counts' ready' k (ground arith)
                (ground (arith, get-put text_dec c x remaining counts, g)) in
            (r.0, r.1 ∙ ground (arith, pushed, Bool-cases (is_zero remaining)))
      ]
