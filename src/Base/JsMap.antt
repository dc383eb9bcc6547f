-- ===== src/Base/JsMap.antt =====
-- The host language's `Map`, which the sources use: entries in insertion order. Setting a key that
-- is present replaces its value in place; deleting removes the key; the oldest key comes first.
use mathlib.Core.Logic.{ite}
use mathlib.Core.List.{List, [], ◌∷◌, ◌++◌}
use mathlib.Core.Logic.{◌≢◌}
use mathlib.Core.Option.{Option, none, some}
use mathlib.Core.Path.{◌≡◌, refl}
use mathlib.Core.Bool.{Bool}
use Prim.Native.Nat.{ℕ, suc, ◌≤◌, ◌<◌}
use native.Mathlib.Omega.{arith}
use fount_p2p.Base.Tests.{is_some, if◌then◌else◌}
use fount_p2p.Base.Lists.{length}

abbrev pub JsMap {ℓ} : Type ℓ → Type ℓ → Type ℓ
JsMap K V = List (K × V)

module _ {ℓ} {K V : Type ℓ} where
  abbrev pub size : JsMap K V → ℕ
  size = length

  -- `map.keys().next().value`
  abbrev pub oldest : JsMap K V → Option K
  oldest [] = none
  oldest ((k, v) ∷ m) = some k

  abbrev pub remove_if : (K → V → Bool) → JsMap K V → JsMap K V
  remove_if p [] = []
  remove_if p ((k, v) ∷ m) = if p k v then remove_if p m else (k, v) ∷ remove_if p m

  pub size-remove_if-le : (p : K → V → Bool) (m : JsMap K V) → size (remove_if p m) ≤ size m
  size-remove_if-le p [] = omega arith
  size-remove_if-le p ((k, v) ∷ m) = ground (arith, size-remove_if-le p m)

module _ {ℓ} {K V : Type ℓ} (dec : Discrete K) where
  unfoldable pub get : K → JsMap K V → Option V
  get k [] = none
  get k ((j, v) ∷ m) = ite (dec j k) (some v) (get k m)

  abbrev pub has : K → JsMap K V → Bool
  has k m = is_some (get k m)

  unfoldable pub put : K → V → JsMap K V → JsMap K V
  put k v [] = (k, v) ∷ []
  put k v ((j, w) ∷ m) = ite (dec j k) ((j, v) ∷ m) ((j, w) ∷ put k v m)

  unfoldable pub delete : K → JsMap K V → JsMap K V
  delete k [] = []
  delete k ((j, w) ∷ m) = ite (dec j k) (delete k m) ((j, w) ∷ delete k m)

  -- Each key once, as the host guarantees.
  abbrev pub IsMap : JsMap K V → Type ℓ
  IsMap [] = Unit
  IsMap ((k, v) ∷ m) = (get k m ≡ none) × IsMap m

  pub get-put :
      (j k : K) (v : V) (m : JsMap K V) → get j (put k v m) ≡ ite (dec k j) (some v) (get j m)
  unfolding get put
  get-put j k v [] = refl
  get-put j k v ((i, w) ∷ m) = ground (arith, get-put j k v m)

  pub get-put_self : (k : K) (v : V) (m : JsMap K V) → get k (put k v m) ≡ some v
  get-put_self k v m = ground (arith, get-put k k v m)

  pub get-put_ne : (j k : K) (v : V) (m : JsMap K V) → k ≢ j → get j (put k v m) ≡ get j m
  get-put_ne j k v m h = ground (arith, get-put j k v m)

  pub get-delete : (j k : K) (m : JsMap K V) → get j (delete k m) ≡ ite (dec k j) none (get j m)
  unfolding get delete
  get-delete j k [] = ground arith
  get-delete j k ((i, w) ∷ m) = ground (arith, get-delete j k m)

  pub get-delete_self : (k : K) (m : JsMap K V) → get k (delete k m) ≡ none
  get-delete_self k m = ground (arith, get-delete k k m)

  pub get-delete_ne : (j k : K) (m : JsMap K V) → k ≢ j → get j (delete k m) ≡ get j m
  get-delete_ne j k m h = ground (arith, get-delete j k m)

  -- An absent key is appended.
  pub put_absent : (k : K) (v : V) (m : JsMap K V) → get k m ≡ none → put k v m ≡ m ++ (k, v) ∷ []
  unfolding get put
  put_absent k v [] h = refl
  put_absent k v ((i, w) ∷ m) h = ground (arith, put_absent k v m)

  pub delete_absent : (k : K) (m : JsMap K V) → get k m ≡ none → delete k m ≡ m
  unfolding get delete
  delete_absent k [] h = refl
  delete_absent k ((i, w) ∷ m) h = ground (arith, delete_absent k m)

  pub delete-append : (k : K) (m n : JsMap K V) → delete k (m ++ n) ≡ delete k m ++ delete k n
  unfolding delete
  delete-append k [] n = refl
  delete-append k ((i, w) ∷ m) n = ground (arith, delete-append k m n)

  pub size-delete-le : (k : K) (m : JsMap K V) → size (delete k m) ≤ size m
  unfolding delete
  size-delete-le k [] = omega arith
  size-delete-le k ((i, w) ∷ m) = ground (arith, size-delete-le k m)

  pub size-delete-lt : (k : K) (m : JsMap K V) → get k m ≢ none → size (delete k m) < size m
  unfolding get delete
  size-delete-lt k [] h = absurd (h refl)
  size-delete-lt k ((i, w) ∷ m) h = ground (arith, size-delete-le k m, size-delete-lt k m)

  pub size-put-le : (k : K) (v : V) (m : JsMap K V) → size (put k v m) ≤ suc (size m)
  unfolding put
  size-put-le k v [] = omega arith
  size-put-le k v ((i, w) ∷ m) = ground (arith, size-put-le k v m)

  pub size-put_present :
      (k : K) (v : V) (m : JsMap K V) → get k m ≢ none → size (put k v m) ≡ size m
  unfolding get put
  size-put_present k v [] h = absurd (h refl)
  size-put_present k v ((i, w) ∷ m) h = ground (arith, size-put_present k v m)

  pub put-IsMap : (k : K) (v : V) (m : JsMap K V) → IsMap m → IsMap (put k v m)
  unfolding get put
  put-IsMap k v [] h = (refl, tt)
  put-IsMap k v ((i, w) ∷ m) h = ground (arith, put-IsMap k v m h.1, get-put i k v m)

  pub delete-IsMap : (k : K) (m : JsMap K V) → IsMap m → IsMap (delete k m)
  unfolding get delete
  delete-IsMap k [] h = tt
  delete-IsMap k ((i, w) ∷ m) h = ground (arith, delete-IsMap k m h.1, get-delete i k m)

  pub get-remove_if_absent :
      (p : K → V → Bool) (k : K) (m : JsMap K V) → get k m ≡ none → get k (remove_if p m) ≡ none
  unfolding get
  get-remove_if_absent p k [] h = refl
  get-remove_if_absent p k ((i, w) ∷ m) h = ground (arith, get-remove_if_absent p k m)

  pub remove_if-IsMap : (p : K → V → Bool) (m : JsMap K V) → IsMap m → IsMap (remove_if p m)
  remove_if-IsMap p [] h = tt
  remove_if-IsMap p ((i, w) ∷ m) h =
      ground (arith, remove_if-IsMap p m h.1, get-remove_if_absent p i m h.0)

  -- A sweep keeps exactly the entries that it does not reject.
  pub get-remove_if :
      (p : K → V → Bool) (k : K) (m : JsMap K V) (v : V)
      → IsMap m
      → get k m ≡ some v
      → get k (remove_if p m) ≡ (if p k v then none else some v)
  unfolding get
  get-remove_if p k [] v d h = ground arith
  get-remove_if p k ((i, w) ∷ m) v d h = elim (dec i k) [
    | yes e ↦ ground (arith, get-remove_if_absent p i m d.0)
    | no n ↦ ground (arith, get-remove_if p k m v d.1)
  ]
