-- ===== src/Utils/Lru/Recency.antt =====
-- The map of js/utils/lru.mjs against an ideal map that forgets nothing.
use fount_p2p.Base.{
  ℕ, zero, suc, ◌-◌, ◌≤◌, ◌≡◌, refl, sym, ap, ◌∙◌, none, List, [], ◌∷◌, ◌++◌, arith, drop, dec_le,
  length-append,
}
use fount_p2p.Base.JsMap.{
  JsMap, IsMap, size, get, delete, put_absent, delete_absent, get-delete_self, put-IsMap,
  delete-IsMap,
}
use fount_p2p.Utils.Lru.{drop_oldest, evict, move_to_end, touch}

-- The `n` newest entries.
abbrev pub newest : {K V : Type 0} → ℕ → JsMap K V → JsMap K V
newest n m = drop (size m - n) m

module _ {K V : Type 0} where
  newest_all : (n : ℕ) (m : JsMap K V) → size m ≤ n → newest n m ≡ m
  newest_all n m h = let e : size m - n ≡ 0 = omega arith in rw e

  newest-cons : (n : ℕ) (e : K × V) (m : JsMap K V) → n ≤ size m → newest n (e ∷ m) ≡ newest n m
  newest-cons n e m h = let p : suc (size m) - n ≡ suc (size m - n) = omega arith in rw p

module _ {K V : Type 0} (dec : Discrete K) where
  -- The ideal map: a touch forgets the key's old entry and appends the new one.
  abbrev pub recent : K → V → JsMap K V → JsMap K V
  recent k v h = delete dec k h ++ (k, v) ∷ []

  pub recent-IsMap : (k : K) (v : V) (h : JsMap K V) → IsMap dec h → IsMap dec (recent k v h)
  recent-IsMap k v h d =
      rw (← put_absent dec k v (delete dec k h) (get-delete_self dec k h))
        (put-IsMap dec k v (delete dec k h) (delete-IsMap dec k h d))

  move_to_end-recent : (k : K) (v : V) (m : JsMap K V) → move_to_end dec k v m ≡ recent k v m
  unfolding move_to_end
  move_to_end-recent k v m = ground (
    arith,
    delete_absent dec k m,
    put_absent dec k v m,
    put_absent dec k v (delete dec k m),
    get-delete_self dec k m,
  )

  drop_oldest-cons :
      (k : K) (v : V) (m : JsMap K V) → get dec k m ≡ none → drop_oldest dec ((k, v) ∷ m) ≡ m
  unfolding drop_oldest delete
  drop_oldest-cons k v m h = ground (arith, delete_absent dec k m)

  evict-newest :
      (fuel max : ℕ) (m : JsMap K V)
      → size m ≤ fuel
      → IsMap dec m
      → evict dec fuel max m ≡ newest max m
  unfolding evict
  evict-newest zero max [] h d = sym (newest_all max [] (omega arith))
  evict-newest zero max (e ∷ m) h d = absurd (omega arith)
  evict-newest (suc fuel) max [] h d = ground (arith, newest_all {K = K} {V = V} max [])
  evict-newest (suc fuel) max ((k, v) ∷ m) h d = ground (
    arith,
    drop_oldest-cons k v m d.0,
    newest-cons max (k, v) m,
    newest_all max ((k, v) ∷ m),
    evict-newest fuel max m,
  )

  pub touch-newest :
      (max : ℕ) (k : K) (v : V) (m : JsMap K V)
      → IsMap dec m
      → touch dec max k v m ≡ newest max (recent k v m)
  unfolding touch
  touch-newest max k v m d =
      rw move_to_end-recent
        (evict-newest (size (recent k v m)) max (recent k v m) (omega arith) (recent-IsMap k v m d))

  size-delete-ge : (k : K) (m : JsMap K V) → IsMap dec m → size m ≤ suc (size (delete dec k m))
  unfolding delete
  size-delete-ge k [] d = omega arith
  size-delete-ge k ((i, w) ∷ m) d =
      ground (arith, size-delete-ge k m d.1, delete_absent dec i m d.0)

  size-recent-ge : (k : K) (v : V) (h : JsMap K V) → IsMap dec h → size h ≤ size (recent k v h)
  size-recent-ge k v h d =
      omega (arith, size-delete-ge k h d, length-append (delete dec k h) ((k, v) ∷ []))

  newest-recent_cons :
      (n : ℕ) (k : K) (v : V) (i : K) (w : V) (h : JsMap K V)
      → n ≤ size h
      → IsMap dec ((i, w) ∷ h)
      → newest n (recent k v ((i, w) ∷ h)) ≡ newest n (recent k v h)
  unfolding delete
  newest-recent_cons n k v i w h more d =
      ground (arith, newest-cons n (i, w) (recent k v h), size-recent-ge k v h d.1)

  -- To touch a key and keep the newest, the newest entries of the map are all that matter.
  newest-recent :
      (n : ℕ) (k : K) (v : V) (h : JsMap K V)
      → IsMap dec h
      → newest n (recent k v (newest n h)) ≡ newest n (recent k v h)
  newest-recent n k v [] d = rw (newest_all {K = K} {V = V} n [] (omega arith))
  newest-recent n k v ((i, w) ∷ h) d = elim (dec_le (suc (size h)) n) [
    | yes all ↦ rw (newest_all n ((i, w) ∷ h) all)
    | no some_go ↦
        rw (newest-cons n (i, w) h (omega arith))
          (newest-recent n k v h d.1 ∙ sym (newest-recent_cons n k v i w h (omega arith) d))
  ]

  -- A sequence of touches, on the map and on the ideal one.
  unfoldable pub touch_all : ℕ → List (K × V) → JsMap K V → JsMap K V
  touch_all max [] m = m
  touch_all max ((k, v) ∷ calls) m = touch_all max calls (touch dec max k v m)

  unfoldable pub recent_all : List (K × V) → JsMap K V → JsMap K V
  recent_all [] h = h
  recent_all ((k, v) ∷ calls) h = recent_all calls (recent k v h)

  -- The ideal map keeps each key once.
  pub recent_all-IsMap :
      (calls : List (K × V)) (h : JsMap K V) → IsMap dec h → IsMap dec (recent_all calls h)
  unfolding recent_all
  recent_all-IsMap [] h d = d
  recent_all-IsMap ((k, v) ∷ calls) h d =
      recent_all-IsMap calls (recent k v h) (recent-IsMap k v h d)

  drop-IsMap : (n : ℕ) (m : JsMap K V) → IsMap dec m → IsMap dec (drop n m)
  drop-IsMap zero m d = d
  drop-IsMap (suc n) [] d = d
  drop-IsMap (suc n) (e ∷ m) d = drop-IsMap n m d.1

  touch_all-newest :
      (max : ℕ) (calls : List (K × V)) (h : JsMap K V)
      → IsMap dec h
      → touch_all max calls (newest max h) ≡ newest max (recent_all calls h)
  unfolding touch_all recent_all
  touch_all-newest max [] h d = refl
  touch_all-newest max ((k, v) ∷ calls) h d =
      rw
        (
          touch-newest max k v (newest max h) (drop-IsMap (size h - max) h d),
          newest-recent max k v h d,
        )
        (touch_all-newest max calls (recent k v h) (recent-IsMap k v h d))

  -- However often and in whatever order keys are touched, the map holds exactly the `max` most
  -- recently touched keys of all, oldest first, each with the value of its last touch.
  pub touch_all_lem :
      (max : ℕ) (calls : List (K × V)) → touch_all max calls [] ≡ newest max (recent_all calls [])
  touch_all_lem max calls =
      ap (touch_all max calls) (sym (newest_all {K = K} {V = V} max [] (omega arith)))
      ∙ touch_all-newest max calls [] tt
