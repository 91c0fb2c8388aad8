-- ===== src/Retrieval/Entries.antt =====
-- Sets, selections and association lists as the search uses them.
use caveat.Common.{
  ℕ, ◌≤◌, ◌≡◌, inl, inr, refl, ap, Bool, true, false, ◌&&◌, ◌||◌, none, some, List, [], ◌∷◌, map,
  Text, Memᴰ, if◌then◌else◌, arith, ltb, nat_beq, nat_beq_iff, any, select, All, list_eq, nat_eq,
  Bool-cases, Equality, ◌==◌,
}
use caveat.Common.Maps.{add, add_all, get, put, get-put}
use caveat.Retrieval.Search.{PerEntry, min_df}

pub select-cong {ℓ} :
    {A : Type ℓ} (p q : A → Bool) (xs : List A) → ((x : A) → p x ≡ q x) → select p xs ≡ select q xs
select-cong p q [] h = refl
select-cong p q (x ∷ xs) h = rw (h x, select-cong p q xs h) refl

pub select-none {ℓ} :
    {A : Type ℓ} (p : A → Bool) (xs : List A) → any p xs ≡ false → select p xs ≡ []
select-none p [] h = refl
select-none p (x ∷ xs) h = ground (arith, select-none p xs)

pub select-All {ℓ κ} :
    {A : Type ℓ} (P : A → Type κ) (test : A → Bool) (xs : List A)
    → ((x : A) → Memᴰ x xs → test x ≡ true → P x)
    → All P (select test xs)
select-All P test [] h = tt
select-All P test (x ∷ xs) h = elim (Bool-cases (test x)) [
  | inl e ↦ rw e (h x (Memᴰ.head refl) e, select-All P test xs (λ y m. h y (Memᴰ.tail m)))
  | inr e ↦ rw e (select-All P test xs (λ y m. h y (Memᴰ.tail m)))
]

pub map-All {ℓ κ μ} :
    {A : Type ℓ} {B : Type κ} (P : B → Type μ) (f : A → B) (xs : List A)
    → All (λ x. P (f x)) xs
    → All P (map f xs)
map-All P f [] h = tt
map-All P f (x ∷ xs) (p, h) = (p, map-All P f xs h)

pub any-map-select {ℓ κ} :
    {A : Type ℓ} {B : Type κ} (f : B → Bool) (g : A → B) (p : A → Bool) (xs : List A)
    → any f (map g (select p xs)) ≡ any (λ x. p x && f (g x)) xs
any-map-select f g p [] = refl
any-map-select f g p (x ∷ xs) = elim (Bool-cases (p x)) [
  | inl e ↦ rw e (ap (λ b. f (g x) || b) (any-map-select f g p xs))
  | inr e ↦ rw e (any-map-select f g p xs)
]

any-add {ℓ} :
    {K : Type ℓ} ⦃q : Equality K⦄ (f : K → Bool) (k : K) (s : List K)
    → any f (add k s) ≡ (f k || any f s)
any-add f k [] = refl
any-add ⦃q⦄ f k (j ∷ js) = elim (Bool-cases (j == k)) [
  | inl same ↦ let e = ap f ((q.same_iff j k).0 same) in rw same (ground (arith, e))
  | inr other ↦ rw other (ground (arith, any-add f k js))
]

pub any-add_all {ℓ} :
    {K : Type ℓ} ⦃q : Equality K⦄ (f : K → Bool) (s ks : List K)
    → any f (add_all s ks) ≡ (any f s || any f ks)
any-add_all f s [] = ground arith
any-add_all f s (k ∷ ks) = ground (arith, any-add_all f (add k s) ks, any-add f k s)

-- No row id has two entries.
abbrev pub Unique : List (ℕ × PerEntry) → Type 0
Unique [] = Unit
Unique ((k, e) ∷ m) = (get k m ≡ none) × Unique m

pub put-Unique : (k : ℕ) (e : PerEntry) (m : List (ℕ × PerEntry)) → Unique m → Unique (put k e m)
put-Unique k e [] u = (refl, tt)
put-Unique k e ((j, d) ∷ m) (new, u) = elim (Bool-cases (nat_beq j k)) [
  | inl same ↦ rw same (new, u)
  | inr other ↦ rw other (ground (arith, get-put k j e m), put-Unique k e m u)
]

pub Memᴰ-get :
    (k : ℕ) (e : PerEntry) (m : List (ℕ × PerEntry)) → Unique m → Memᴰ (k, e) m → get k m ≡ some e
Memᴰ-get k e [] u i = elim i [ ]
Memᴰ-get k e ((j, d) ∷ m) (new, u) (Memᴰ.head p) =
    let jk = ap (λ x. x.0) p in let de = ap (λ x. x.1) p in ground (arith, jk, ap (λ x. some x) de)
Memᴰ-get k e ((j, d) ∷ m) (new, u) (Memᴰ.tail i) =
    let rest = Memᴰ-get k e m u i in
    elim (Bool-cases (nat_beq j k)) [
      | inl same ↦ absurd (cc ((nat_beq_iff j k).0 same, new, rest))
      | inr other ↦ rw other rest
    ]

pub min_df-least :
    (l : ℕ) (dfs : List (Text × ℕ)) (least : ℕ)
    → min_df (some l) dfs ≡ some least
    → (least ≤ l) × All (λ d. least ≤ d.1) dfs
min_df-least l [] least h = let e : l ≡ least = ground arith in (omega arith, tt)
min_df-least l ((t, df) ∷ dfs) least h =
    let (small, all_small) = min_df-least (if ltb df l then df else l) dfs least h in
    (ground arith, (ground arith, all_small))
