-- ===== src/Common/Sort.antt =====
-- `Array.prototype.sort` by a numeric key, largest first: a stable insertion sort.
use Prim.Native.Nat.{ℕ, ◌≤◌}
use mathlib.Core.List.{List, [], ◌∷◌, Perm}
use mathlib.Core.List.Perm
use mathlib.Core.Logic.{inl, inr}
use native.Mathlib.Omega.{arith}
use caveat.Common.Tests.{leb, if◌then◌else◌, Bool-cases, leb→le}
use caveat.Common.Lists.{All}

module _ {ℓ} {A : Type ℓ} (key : A → ℕ) where
  -- `x` comes before the first element whose key is no larger.
  abbrev pub insert_desc : A → List A → List A
  insert_desc x [] = x ∷ []
  insert_desc x (y ∷ ys) = if leb (key y) (key x) then x ∷ y ∷ ys else y ∷ insert_desc x ys

  abbrev pub sort_desc : List A → List A
  sort_desc [] = []
  sort_desc (x ∷ xs) = insert_desc x (sort_desc xs)

  -- Every key is at most the keys before it.
  abbrev pub IsDescending : List A → Type 0
  IsDescending [] = Unit
  IsDescending (x ∷ xs) = All (λ y. key y ≤ key x) xs × IsDescending xs

  insert_desc-perm : (x : A) (ys : List A) → Perm (insert_desc x ys) (x ∷ ys)
  insert_desc-perm x [] = Perm.refl _
  insert_desc-perm x (y ∷ ys) = elim (Bool-cases (leb (key y) (key x))) [
    | inl e ↦ rw e (Perm.refl _)
    | inr e ↦ rw e (Perm.trans (Perm.cons y (insert_desc-perm x ys)) (Perm.swap x y ys))
  ]

  pub sort_desc-perm : (xs : List A) → Perm (sort_desc xs) xs
  sort_desc-perm [] = Perm.refl []
  sort_desc-perm (x ∷ xs) =
      Perm.trans (insert_desc-perm x (sort_desc xs)) (Perm.cons x (sort_desc-perm xs))

  pub insert_desc-All {κ} :
      (P : A → Type κ) (x : A) (ys : List A) → P x → All P ys → All P (insert_desc x ys)
  insert_desc-All P x [] p h = (p, tt)
  insert_desc-All P x (y ∷ ys) p (q, h) = elim (Bool-cases (leb (key y) (key x))) [
    | inl e ↦ rw e (p, (q, h))
    | inr e ↦ rw e (q, insert_desc-All P x ys p h)
  ]

  pub sort_desc-All {κ} : (P : A → Type κ) (xs : List A) → All P xs → All P (sort_desc xs)
  sort_desc-All P [] h = tt
  sort_desc-All P (x ∷ xs) (p, h) = insert_desc-All P x (sort_desc xs) p (sort_desc-All P xs h)

  All-le_trans : (m n : ℕ) (ys : List A) → m ≤ n → All (λ y. key y ≤ m) ys → All (λ y. key y ≤ n) ys
  All-le_trans m n [] h k = tt
  All-le_trans m n (y ∷ ys) h (k, ks) = (omega arith, All-le_trans m n ys h ks)

  insert_desc-IsDescending :
      (x : A) (ys : List A) → IsDescending ys → IsDescending (insert_desc x ys)
  insert_desc-IsDescending x [] d = (tt, tt)
  insert_desc-IsDescending x (y ∷ ys) (b, d) = elim (Bool-cases (leb (key y) (key x))) [
    | inl e ↦
        let le = leb→le (key y) (key x) e in
        rw e ((le, All-le_trans (key y) (key x) ys le b), (b, d))
    | inr e ↦ rw e (
      insert_desc-All (λ z. key z ≤ key y) x ys (ground arith) b,
      insert_desc-IsDescending x ys d,
    )
  ]

  pub sort_desc-IsDescending : (xs : List A) → IsDescending (sort_desc xs)
  sort_desc-IsDescending [] = tt
  sort_desc-IsDescending (x ∷ xs) =
      insert_desc-IsDescending x (sort_desc xs) (sort_desc-IsDescending xs)
