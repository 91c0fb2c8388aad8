-- ===== src/Common/Maps.antt =====
-- `Map` and `Set`: association lists and lists in insertion order.
use mathlib.Core.Path.{◌≡◌, refl}
use mathlib.Core.Logic.{inl, inr}
use mathlib.Core.Bool.{Bool, false, ◌||◌}
use mathlib.Core.Option.{Option, none, some}
use mathlib.Core.List.{List, [], ◌∷◌, ◌++◌}
use native.Mathlib.Omega.{arith}
use caveat.Common.Tests.{if◌then◌else◌, Bool-cases}
use caveat.Common.Lists.{length}
use Prim.Native.Nat.{suc}
use caveat.Common.Equal.{Equality, ◌==◌}

module _ {ℓ} {K : Type ℓ} ⦃e : Equality K⦄ where
  -- `set.has(key)`
  abbrev pub has : K → List K → Bool
  has k [] = false
  has k (j ∷ js) = j == k || has k js

  -- `set.add(key)`: a new key goes to the end.
  abbrev pub add : K → List K → List K
  add k [] = k ∷ []
  add k (j ∷ js) = if j == k then j ∷ js else j ∷ add k js

  pub has-add : (k j : K) (js : List K) → has j (add k js) ≡ (k == j || has j js)
  has-add k j [] = refl
  has-add k j (i ∷ js) =
      ground (arith, e.same_iff i k, e.same_iff k j, e.same_iff i j, has-add k j js)

  -- No key stands twice.
  abbrev pub IsDistinct : List K → Type 0
  IsDistinct [] = Unit
  IsDistinct (k ∷ ks) = (has k ks ≡ false) × IsDistinct ks

  pub has-append : (k : K) (xs ys : List K) → has k (xs ++ ys) ≡ (has k xs || has k ys)
  has-append k [] ys = refl
  has-append k (x ∷ xs) ys = ground (arith, has-append k xs ys)

  pub add-IsDistinct : (k : K) (js : List K) → IsDistinct js → IsDistinct (add k js)
  add-IsDistinct k [] h = (refl, tt)
  add-IsDistinct k (j ∷ js) (new, h) = elim (Bool-cases (j == k)) [
    | inl same ↦ rw same (new, h)
    | inr other ↦
        rw other
          (ground (arith, has-add k j js, e.same_iff j k, e.same_iff k j), add-IsDistinct k js h)
  ]

module _ {ℓ κ} {K : Type ℓ} {V : Type κ} ⦃e : Equality K⦄ where
  -- `map.get(key)`
  abbrev pub get : K → List (K × V) → Option V
  get k [] = none
  get k ((j, v) ∷ m) = if j == k then some v else get k m

  -- `map.set(key, value)`: an old key keeps its place, a new one goes to the end.
  abbrev pub put : K → V → List (K × V) → List (K × V)
  put k v [] = (k, v) ∷ []
  put k v ((j, w) ∷ m) = if j == k then (j, v) ∷ m else (j, w) ∷ put k v m

  -- `map.delete(key)`
  abbrev pub remove : K → List (K × V) → List (K × V)
  remove k [] = []
  remove k ((j, w) ∷ m) = if j == k then remove k m else (j, w) ∷ remove k m

  pub get-put :
      (k j : K) (v : V) (m : List (K × V))
      → get j (put k v m) ≡ (if k == j then some v else get j m)
  get-put k j v [] = refl
  get-put k j v ((i, w) ∷ m) =
      ground (arith, e.same_iff k j, e.same_iff i k, e.same_iff i j, get-put k j v m)

  pub get-remove :
      (k j : K) (m : List (K × V)) → get j (remove k m) ≡ (if k == j then none else get j m)
  get-remove k j [] = ground arith
  get-remove k j ((i, w) ∷ m) =
      ground (arith, e.same_iff k j, e.same_iff i k, e.same_iff i j, get-remove k j m)

module _ {ℓ} {K : Type ℓ} ⦃e : Equality K⦄ where
  pub length-add : (k : K) (js : List K) → has k js ≡ false → length (add k js) ≡ suc (length js)
  length-add k [] h = refl
  length-add k (j ∷ js) h = ground (arith, length-add k js)

  -- `new Set(keys)` on top of an old set.
  abbrev pub add_all : List K → List K → List K
  add_all set [] = set
  add_all set (k ∷ ks) = add_all (add k set) ks

  pub add_again : (k : K) (js : List K) → add k (add k js) ≡ add k js
  add_again k [] = ground (arith, e.same_iff k k)
  add_again k (j ∷ js) = ground (arith, e.same_iff j k, add_again k js)

  -- A key that is not there goes to the end.
  pub IsDistinct-append :
      (k : K) (ks : List K) → has k ks ≡ false → IsDistinct ks → IsDistinct (ks ++ k ∷ [])
  IsDistinct-append k [] new h = (refl, tt)
  IsDistinct-append k (j ∷ js) new (other, h) = (
    ground (arith, has-append j js (k ∷ []), e.same_iff j k, e.same_iff k j),
    IsDistinct-append k js (ground arith) h,
  )
