-- ===== src/Dag/Order/Loop.antt =====
-- The loop of `topologicalCanonicalOrder` in js/dag/index.mjs: parents come first, and nothing that
-- can come is left out. An abstract graph stands for the events: its nodes, and each node's parents.
use fount_p2p.Base.{
  ℕ, suc, ◌+◌, ◌≤◌, ◌≡◌, refl, some, List, ◌∷◌, false, arith, length, if◌then◌else◌, ◌==◌, sym, ◌∙◌,
  ap, dec_le,
}
use fount_p2p.Base.Int.{ℤ, pos}
use fount_p2p.Base.JsMap.{JsMap, get}
use fount_p2p.Core.HexIds.{Text, text_dec, contains}
use fount_p2p.Core.HexIds.Count.{is_one, occurrences}
use fount_p2p.Dag.Order.Release.{
  missing, missing-cons, occurrences-contains, released, release_other, release_once,
}
use fount_p2p.Dag.Order.{Metas, ids_or_empty}

-- The graph: its nodes, each once, each node's parents, each once, and the children that mirror them.
pub record IsGraph (nodes : List Text) (parents : Text → List Text)
    (children : JsMap Text (List Text)) : Type 0 where
  pub once : (c : Text) → occurrences c nodes ≤ 1
  pub named : (c : Text) → 1 ≤ occurrences c nodes → (length c == 0) ≡ false
  pub parents_once : (p c : Text) → occurrences p (parents c) ≤ 1
  pub parents_inside : (p c : Text) → 1 ≤ occurrences p (parents c) → 1 ≤ occurrences p nodes
  pub has_node : (p c : Text) → 1 ≤ occurrences p (parents c) → 1 ≤ occurrences c nodes
  pub mirror :
      (p c : Text)
      → occurrences c (ids_or_empty (get text_dec p children)) ≡ occurrences p (parents c)

module _ (locale_compare : Text → Text → ℤ) (by_id : Metas) (nodes : List Text)
    (parents : Text → List Text) (children : JsMap Text (List Text))
    (graph : IsGraph nodes parents children) where
  -- The counts are those of the parents that are not yet out; what is ready or out are the nodes
  -- whose parents are all out, each once.
  pub record IsRound (out : List Text) (counts : JsMap Text ℤ) (ready : List Text) : Type 0 where
    pub counted :
        (c : Text)
        → 1 ≤ occurrences c nodes
        → get text_dec c counts ≡ some (pos (missing out (parents c)))
    pub once_ready :
        (c : Text)
        → occurrences c ready + occurrences c out
          ≡ (if missing out (parents c) == 0 then occurrences c nodes else 0)

  pub next-new :
      (next : Text) (out : List Text) (counts : JsMap Text ℤ) (ready : List Text)
      → IsRound out counts ready
      → 1 ≤ occurrences next ready
      → (contains next out ≡ false)
        × (occurrences next nodes ≡ 1)
        × (missing out (parents next) ≡ 0)
  next-new next out counts ready r h =
      let free : occurrences next out ≡ 0 = ground (arith, r.once_ready next, graph.once next) in
      (
        occurrences-contains next out free,
        ground (arith, r.once_ready next, graph.once next),
        ground (arith, r.once_ready next),
      )

  round-untouched :
      (next c : Text) (out ready rest ready' : List Text) (counts : JsMap Text ℤ)
      → IsRound out counts ready
      → contains next out ≡ false
      → is_one c next + occurrences c rest ≡ occurrences c ready
      → occurrences next (parents c) ≡ 0
      → occurrences c ready' ≡ occurrences c rest
      → occurrences c ready' + occurrences c (next ∷ out)
        ≡ (if missing (next ∷ out) (parents c) == 0 then occurrences c nodes else 0)
  round-untouched next c out ready rest ready' counts r free split none_of same =
      let kept : missing (next ∷ out) (parents c) ≡ missing out (parents c) =
        omega (arith, missing-cons next out (parents c) free) in
      rw kept (omega (arith, r.once_ready c))

  round-released :
      (next c : Text) (out ready rest ready' : List Text) (counts : JsMap Text ℤ) (k : ℕ)
      → IsRound out counts ready
      → is_one c next + occurrences c rest ≡ occurrences c ready
      → occurrences c nodes ≡ 1
      → missing out (parents c) ≡ suc k
      → missing (next ∷ out) (parents c) ≡ k
      → occurrences c ready' ≡ occurrences c rest + (if k == 0 then 1 else 0)
      → occurrences c ready' + occurrences c (next ∷ out)
        ≡ (if missing (next ∷ out) (parents c) == 0 then occurrences c nodes else 0)
  round-released next c out ready rest ready' counts k r split node before after heap =
      ground (arith, r.once_ready c)

  -- What the release of the children does to one node.
  round-child :
      (next c : Text) (out ready rest : List Text) (counts : JsMap Text ℤ)
      → IsRound out counts ready
      → contains next out ≡ false
      → occurrences next (parents c) ≡ 1
      → (occurrences c nodes ≡ 1)
        × (k : ℕ) × (missing out (parents c) ≡ suc k)
        × (missing (next ∷ out) (parents c) ≡ k)
        × let r =
            released locale_compare by_id (ids_or_empty (get text_dec next children)) counts rest in
          (get text_dec c r.0 ≡ some (pos k))
          × (occurrences c r.1 ≡ occurrences c rest + (if k == 0 then 1 else 0))
  round-child next c out ready rest counts round free linked =
      let node : occurrences c nodes ≡ 1 =
        omega (arith, graph.once c, graph.has_node next c (omega arith)) in
      let k = missing (next ∷ out) (parents c) in
      let before : missing out (parents c) ≡ suc k =
        omega (arith, missing-cons next out (parents c) free) in
      (
        node,
        k,
        before,
        refl,
        release_once locale_compare by_id c (ids_or_empty (get text_dec next children)) counts rest
            k (graph.mirror next c ∙ linked)
            (round.counted c (omega arith) ∙ ap (λ n. some (pos n)) before),
      )

  pub round-step :
      (next : Text) (out ready rest : List Text) (counts : JsMap Text ℤ)
      → IsRound out counts ready
      → 1 ≤ occurrences next ready
      → ((c : Text) → is_one c next + occurrences c rest ≡ occurrences c ready)
      → let r =
          released locale_compare by_id (ids_or_empty (get text_dec next children)) counts rest in
        IsRound (next ∷ out) r.0 r.1
  round-step next out ready rest counts round h split =
      let kids = ids_or_empty (get text_dec next children) in
      let (free, node, ready_now) = next-new next out counts ready round h in
      let r = released locale_compare by_id kids counts rest in
      let other : (c : Text)
          → occurrences next (parents c) ≡ 0
          → (get text_dec c r.0 ≡ get text_dec c counts)
            × (occurrences c r.1 ≡ occurrences c rest) =
        λ c none_of.
          release_other locale_compare by_id c kids counts rest (graph.mirror next c ∙ none_of) in
      let one_of : (c : Text)
          → (1 ≤ occurrences next (parents c))
          → occurrences next (parents c) ≡ 1 =
        λ c some_of. omega (arith, graph.parents_once next c) in
      record {
        counted = λ c inside. elim (dec_le 1 (occurrences next (parents c))) [
          | yes some_of ↦
              let (node_c, k, before, after, found) =
                round-child next c out ready rest counts round free (one_of c some_of) in
              found.0 ∙ ap (λ n. some (pos n)) (sym after)
          | no none_of ↦
              (other c (omega arith)).0
              ∙ round.counted c inside
              ∙ ap (λ n. some (pos n)) (omega (arith, missing-cons next out (parents c) free))
        ];
        once_ready = λ c. elim (dec_le 1 (occurrences next (parents c))) [
          | yes some_of ↦
              let (node_c, k, before, after, found) =
                round-child next c out ready rest counts round free (one_of c some_of) in
              round-released next c out ready rest r.1 counts k round (split c) node_c before after
                found.1
          | no none_of ↦
              round-untouched next c out ready rest r.1 counts round free (split c) (omega arith)
                (other c (omega arith)).1
        ];
      }
