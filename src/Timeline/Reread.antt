-- ===== src/Timeline/Reread.antt =====
-- A file of js/timeline that is written and read again has the ids that were kept.
use fount_p2p.Base.{
  ◌≤◌, ◌≡◌, refl, ◌⊎◌, Option, some, List, [], ◌∷◌, true, false, arith, leb, length, keep_if, inl,
  inr, Bool-cases, Option-cases, All, ap, sym, ◌∙◌, subst,
}
use fount_p2p.Base.Int.{ℤ}
use fount_p2p.Base.JsMap.{JsMap, get, put, get-put}
use fount_p2p.Core.HexIds.{Text, text_dec, contains, IsIn}
use fount_p2p.Core.HexIds.Order.{IsIn-keep_if}
use fount_p2p.Core.HexIds.Count.{occurrences-IsIn, IsIn-occurrences}
use fount_p2p.Dag.Order.Build.{ids_of}
use fount_p2p.Dag.Order.Canonical.{IsNamed, IsDistinct, topological_canonical_order_lem}
use fount_p2p.Federation.OrderCache.Hit.{ids_of-events_to_metas}
use fount_p2p.Federation.OrderCache.{Row, row_ids, events_to_metas}
use fount_p2p.Timeline.{
  Entry, Stats, rows, raw_by_id, raws_of, read_jsonl_entries, order_of, write_kept,
}

module _ (parse : Text → Option Row) (locale_compare : Text → Text → ℤ) where
  abbrev pub read : List Text → List Entry
  read lines = read_jsonl_entries parse locale_compare lines

  abbrev IsRead : List Entry → Type 0
  IsRead entries = All (λ e. parse e.raw ≡ some e.row) entries

  read-IsRead : (lines : List Text) → IsRead (read lines)
  unfolding read_jsonl_entries
  read-IsRead [] = tt
  read-IsRead (raw ∷ lines) = elim (Option-cases (parse raw)) [
    | inl e ↦ rw (e, read_jsonl_entries) (read-IsRead lines)
    | inr (row, e) ↦ rw (e, read_jsonl_entries) (e, read-IsRead lines)
  ]

  -- Each raw line stands at the id of its row.
  abbrev IsSource : JsMap Text Text → Type 0
  IsSource raws =
      (id raw : Text)
      → get text_dec id raws ≡ some raw
      → (row : Row) × (parse raw ≡ some row) × (row.meta.id ≡ id)

  empty-IsSource : IsSource []
  unfolding get
  empty-IsSource id raw found = cc

  put-IsSource :
      (raws : JsMap Text Text) (e : Entry)
      → parse e.raw ≡ some e.row
      → IsSource raws
      → IsSource (put text_dec e.row.meta.id e.raw raws)
  put-IsSource raws e read_it h id raw found = elim (text_dec e.row.meta.id id) [
    | yes same ↦
        let one : e.raw ≡ raw =
          ground (arith, get-put text_dec id e.row.meta.id e.raw raws, found) in
        (e.row, ap parse (sym one) ∙ read_it, same)
    | no other ↦ h id raw (ground (arith, get-put text_dec id e.row.meta.id e.raw raws, found))
  ]

  raw_by_id-IsSource :
      (raws : JsMap Text Text) (entries : List Entry)
      → IsRead entries
      → IsSource raws
      → IsSource (raw_by_id raws entries)
  unfolding raw_by_id
  raw_by_id-IsSource raws [] h k = k
  raw_by_id-IsSource raws (e ∷ entries) h k =
      raw_by_id-IsSource (put text_dec e.row.meta.id e.raw raws) entries h.1
        (put-IsSource raws e h.0 k)

  abbrev IsKnown : JsMap Text Text → Text → Type 0
  IsKnown raws id = (raw : Text) × (get text_dec id raws ≡ some raw)

  raw_by_id-keeps :
      (raws : JsMap Text Text) (entries : List Entry) (id : Text)
      → IsKnown raws id
      → IsKnown (raw_by_id raws entries) id
  unfolding raw_by_id
  raw_by_id-keeps raws [] id h = h
  raw_by_id-keeps raws (e ∷ entries) id (raw, h) =
      raw_by_id-keeps (put text_dec e.row.meta.id e.raw raws) entries id
        (elim (text_dec e.row.meta.id id) [
          | yes same ↦ (e.raw, ground (arith, get-put text_dec id e.row.meta.id e.raw raws))
          | no other ↦ (raw, ground (arith, get-put text_dec id e.row.meta.id e.raw raws, h))
        ])

  raw_by_id-knows :
      (raws : JsMap Text Text) (entries : List Entry) (id : Text)
      → IsIn id (row_ids (rows entries))
      → IsKnown (raw_by_id raws entries) id
  unfolding raw_by_id
  raw_by_id-knows raws [] id h = absurd h
  raw_by_id-knows raws (e ∷ entries) id (inl same) =
      raw_by_id-keeps (put text_dec e.row.meta.id e.raw raws) entries id
        (e.raw, ground (arith, get-put text_dec id e.row.meta.id e.raw raws, same))
  raw_by_id-knows raws (e ∷ entries) id (inr h) =
      raw_by_id-knows (put text_dec e.row.meta.id e.raw raws) entries id h

  reread :
      (raws : JsMap Text Text) (ids : List Text)
      → IsSource raws
      → ((id : Text) → IsIn id ids → IsKnown raws id)
      → row_ids (rows (read (raws_of raws ids))) ≡ ids
  unfolding raws_of read_jsonl_entries
  reread raws [] h k = refl
  reread raws (id ∷ ids) h k =
      let (raw, found) = k id (inl refl) in
      let (row, parsed, same) = h id raw found in
      rw (found, raws_of, parsed, read_jsonl_entries)
        (ap (λ x. x ∷ row_ids (rows (read (raws_of raws ids)))) same
          ∙ ap (◌∷◌ id) (reread raws ids h (λ j m. k j (inr m))))

  pub order-known :
      (entries : List Entry) (id : Text)
      → IsNamed (events_to_metas (rows entries))
      → IsDistinct (events_to_metas (rows entries))
      → IsIn id (order_of parse locale_compare entries)
      → IsIn id (row_ids (rows entries))
  order-known entries id named distinct h =
      let at_most =
        (topological_canonical_order_lem locale_compare (events_to_metas (rows entries)) named
            distinct).1
          id in
      subst (IsIn id) (ids_of-events_to_metas (rows entries)) (
        occurrences-IsIn id (ids_of (events_to_metas (rows entries)))
          (omega (arith, at_most, IsIn-occurrences id (order_of parse locale_compare entries) h)))

  -- The lines are as they were, since all are kept, or the file has the kept ids, in canonical order.
  abbrev pub IsWritten : List Text → List Text → Stats × List Text → Type 0
  IsWritten lines keep_ids (stats, written) =
      ((stats.pruned ≡ false)
        × (written ≡ lines)
        × (length (read lines)
            ≤ length (
                keep_if (λ id. contains id keep_ids) (order_of parse locale_compare (read lines)))))
      ⊎ ((stats.pruned ≡ true)
          × (row_ids (rows (read written))
              ≡ keep_if (λ id. contains id keep_ids) (order_of parse locale_compare (read lines))))

  pub write_kept_lem :
      (lines : List Text) (keep_ids : List Text)
      → IsNamed (events_to_metas (rows (read lines)))
      → IsDistinct (events_to_metas (rows (read lines)))
      → IsWritten lines keep_ids (write_kept parse locale_compare lines (read lines) keep_ids)
  unfolding write_kept
  write_kept_lem lines keep_ids named distinct =
      let entries = read lines in
      let kept_ids = keep_if (λ id. contains id keep_ids) (order_of parse locale_compare entries) in
      elim (Bool-cases (leb (length entries) (length kept_ids))) [
        | inl none_dropped ↦ rw none_dropped (inl (refl, refl, ground arith))
        | inr dropped ↦ rw dropped (
            inr (
              refl,
              reread (raw_by_id [] entries) kept_ids
                  (raw_by_id-IsSource [] entries (read-IsRead lines) empty-IsSource)
                  (λ id m. raw_by_id-knows [] entries id (
                    order-known entries id named distinct
                      (IsIn-keep_if id (λ j. contains j keep_ids)
                        (order_of parse locale_compare entries) m).0)),
            ))
      ]
