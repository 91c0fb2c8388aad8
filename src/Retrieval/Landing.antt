-- ===== src/Retrieval/Landing.antt =====
-- What the loops over candidates and rows collect for one entry.
use mathlib.Core.Path.{subst}
use caveat.Common.{
  ℕ, ◌≡◌, inl, inr, refl, sym, ◌∙◌, ap, Bool, true, false, ◌&&◌, ◌||◌, Option, none, some, List, [],
  ◌∷◌, ◌++◌, map, Text, if◌then◌else◌, arith, nat_beq, nat_beq_iff, any, All, list_eq, nat_eq,
  Bool-cases, Option-cases, length, Equality, list_beq_iff, ◌==◌,
}
use caveat.Common.Maps.{has, add, add_all, add_again, get, put, get-put, IsDistinct}
use caveat.Retrieval.{Candidate}
use caveat.Retrieval.Bounds.{lowered}
use caveat.Retrieval.Search.{
  EntryRow, PerEntry, Scan, or_new, entry_for, land, lower_text, visit_rows, quoted, note_rows,
  visit_unless, visit, visit_all,
}

-- To add a key once or twice is the same.
pub twice {ℓ} :
    {K : Type ℓ} ⦃q : Equality K⦄ (a b t : Bool) (x : K) (s s' s'' : List K)
    → s' ≡ (if a && t then add x s else s)
    → s'' ≡ (if b && t then add x s' else s')
    → s'' ≡ (if (a || b) && t then add x s else s)
twice true true true x s s' s'' h h' = h' ∙ (ap (λ u. add x u) h ∙ add_again x s)
twice true true false x s s' s'' h h' = h' ∙ h
twice true false t x s s' s'' h h' = h' ∙ h
twice false b t x s s' s'' h h' = subst (λ u. s'' ≡ (if b && t then add x u else u)) h h'

pub add_all-if {ℓ κ} :
    {A : Type ℓ} {K : Type κ} ⦃q : Equality K⦄ (b : Bool) (item : A → K) (a : A) (rest : List A)
    (s : List K) {s' : List K}
    → s' ≡ (if b then add (item a) s else s)
    → add_all s' (map item rest) ≡ add_all s (map item (if b then a ∷ rest else rest))
add_all-if true item a rest s h = ap (λ u. add_all u (map item rest)) h
add_all-if false item a rest s h = ap (λ u. add_all u (map item rest)) h

append_nil {ℓ} : {A : Type ℓ} (xs : List A) → xs ++ [] ≡ xs
append_nil [] = refl
append_nil (x ∷ xs) = ap (λ u. x ∷ u) (append_nil xs)

append_assoc {ℓ} : {A : Type ℓ} (xs ys zs : List A) → (xs ++ ys) ++ zs ≡ xs ++ (ys ++ zs)
append_assoc [] ys zs = refl
append_assoc (x ∷ xs) ys zs = ap (λ u. x ∷ u) (append_assoc xs ys zs)

put_new {ℓ κ} :
    {K : Type ℓ} {V : Type κ} ⦃q : Equality K⦄ (k : K) (v : V) (m : List (K × V))
    → get k m ≡ none
    → put k v m ≡ m ++ (k, v) ∷ []
put_new k v [] h = refl
put_new k v ((j, w) ∷ m) h = elim (Bool-cases (j == k)) [
  | inl same ↦ absurd (ground arith)
  | inr other ↦ rw other (ap (λ u. (j, w) ∷ u) (put_new k v m (ground arith)))
]

abbrev pub found : Option (List EntryRow) → List EntryRow
found none = []
found (some rows) = rows

module _ (is_word : ℕ → Bool) (lower : Text → Text) (stmt : Text → Option (List EntryRow))
    (entry : ℕ → EntryRow) where
  -- The rows that the query for a candidate gives.
  abbrev pub rows_of : Candidate → List EntryRow
  rows_of c = found (stmt (quoted is_word lower stmt c.token))

  abbrev pub answer : Candidate → Option (List EntryRow)
  answer c = stmt (quoted is_word lower stmt c.token)

  -- The candidate's query finds the entry.
  abbrev pub lands : ℕ → Candidate → Bool
  lands k c = any (λ row. nat_beq row.rowid k) (rows_of c)

  -- The rows of one row id are one row of the table.
  abbrev pub AreRows : List EntryRow → Type 0
  AreRows rows = All (λ row. row ≡ entry row.rowid) rows

  abbrev pub Fits : ℕ × PerEntry → Type 0
  Fits (k, e) =
      (e.row.rowid ≡ k)
      × (e.row ≡ entry k)
      × (e.symptom_lower ≡ lower_text is_word lower stmt (entry k).symptom_text)
      × (e.topical_lower ≡ lower_text is_word lower stmt (entry k).topical_text)

  abbrev pub Fit : List (ℕ × PerEntry) → Type 0
  Fit m = All Fits m

  pub get-Fits :
      (k : ℕ) (m : List (ℕ × PerEntry)) {e : PerEntry} → Fit m → get k m ≡ some e → Fits (k, e)
  get-Fits k [] f h = absurd (cc h)
  get-Fits k ((j, d) ∷ m) {e} (p, f) h = elim (Bool-cases (nat_beq j k)) [
    | inl same ↦
        let jk = (nat_beq_iff j k).0 same in
        let de : d ≡ e = ground arith in subst (λ i. Fits (i, e)) jk (subst (λ x. Fits (j, x)) de p)
    | inr other ↦ get-Fits k m {e = e} f (ground arith)
  ]

  pub put-Fit :
      (k : ℕ) (e : PerEntry) (m : List (ℕ × PerEntry)) → Fits (k, e) → Fit m → Fit (put k e m)
  put-Fit k e [] p f = (p, tt)
  put-Fit k e ((j, d) ∷ m) p (q, f) = elim (Bool-cases (nat_beq j k)) [
    | inl same ↦ rw same (subst (λ i. Fits (i, e)) (sym ((nat_beq_iff j k).0 same)) p, f)
    | inr other ↦ rw other (q, put-Fit k e m p f)
  ]

  or_new-Fits :
      (row : EntryRow) (o : Option PerEntry)
      → row ≡ entry row.rowid
      → ((e : PerEntry) → o ≡ some e → Fits (row.rowid, e))
      → Fits (row.rowid, or_new is_word lower stmt row o)
  or_new-Fits row none r f = (
    refl,
    r,
    ap (λ x. lower_text is_word lower stmt x.symptom_text) r,
    ap (λ x. lower_text is_word lower stmt x.topical_text) r,
  )
  or_new-Fits row (some e) r f = f e refl

  pub entry_for-Fits :
      (row : EntryRow) (m : List (ℕ × PerEntry))
      → row ≡ entry row.rowid
      → Fit m
      → Fits (row.rowid, entry_for is_word lower stmt row m)
  entry_for-Fits row m r f =
      or_new-Fits row (get row.rowid m) r (λ e old. get-Fits row.rowid m {e = e} f old)

  pub land-Fits :
      (evidence : Option (List Text)) (c : Candidate) (k : ℕ) (e : PerEntry)
      → Fits (k, e)
      → Fits (k, land is_word lower stmt evidence c e)
  unfolding land
  land-Fits evidence c k e f = f

  pub visit_rows-Fit :
      (evidence : Option (List Text)) (c : Candidate) (rows : List EntryRow)
      (m : List (ℕ × PerEntry))
      → AreRows rows
      → Fit m
      → Fit (visit_rows is_word lower stmt evidence c rows m)
  unfolding visit_rows
  visit_rows-Fit evidence c [] m r f = f
  visit_rows-Fit evidence c (row ∷ rows) m (r, rs) f =
      visit_rows-Fit evidence c rows _ rs
        (put-Fit row.rowid _ m (land-Fits evidence c row.rowid _ (entry_for-Fits row m r f)) f)

  pub note_rows-Fit :
      (evidence : Option (List Text)) (c : Candidate) (scan : Scan) (o : Option (List EntryRow))
      → AreRows (found o)
      → Fit scan.per_entry
      → Fit (note_rows is_word lower stmt evidence c scan o).per_entry
  unfolding note_rows
  note_rows-Fit evidence c scan none r f = f
  note_rows-Fit evidence c scan (some rows) r f = visit_rows-Fit evidence c rows scan.per_entry r f

  pub note_rows-df :
      (evidence : Option (List Text)) (c : Candidate) (scan : Scan) (o : Option (List EntryRow))
      → (note_rows is_word lower stmt evidence c scan o).token_df
        ≡ put (lower c.token) (length (found o)) scan.token_df
  unfolding note_rows
  note_rows-df evidence c scan none = refl
  note_rows-df evidence c scan (some rows) = refl

  pub visit-fresh :
      (evidence : Option (List Text)) (c : Candidate) (scan : Scan)
      → get (lower c.token) scan.token_df ≡ none
      → visit is_word lower stmt evidence c scan
        ≡ note_rows is_word lower stmt evidence c scan (answer c)
  unfolding visit visit_unless
  visit-fresh evidence c scan n = ap (λ o. visit_unless is_word lower stmt evidence c scan o) n

  visit-Fit :
      (evidence : Option (List Text)) (c : Candidate) (scan : Scan)
      → AreRows (rows_of c)
      → Fit scan.per_entry
      → Fit (visit is_word lower stmt evidence c scan).per_entry
  unfolding visit visit_unless
  visit-Fit evidence c scan r f = elim (Option-cases (get (lower c.token) scan.token_df)) [
    | inl n ↦ rw n (note_rows-Fit evidence c scan (answer c) r f)
    | inr (df, old) ↦ rw old f
  ]

  -- No query was counted for these candidates.
  abbrev pub Fresh : List (Text × ℕ) → List Candidate → Type 0
  Fresh dfs cs = All (λ c. get (lower c.token) dfs ≡ none) cs

  pub none_counted : (cs : List Candidate) → Fresh [] cs
  none_counted [] = tt
  none_counted (c ∷ cs) = (refl, none_counted cs)

  pub put-Fresh :
      (t : Text) (n : ℕ) (dfs : List (Text × ℕ)) (cs : List Candidate)
      → has t (lowered is_word lower cs) ≡ false
      → Fresh dfs cs
      → Fresh (put t n dfs) cs
  put-Fresh t n dfs [] new f = tt
  put-Fresh t n dfs (c ∷ cs) new (f, fs) = (
    ground (
      arith,
      get-put t (lower c.token) n dfs,
      list_beq_iff t (lower c.token),
      list_beq_iff (lower c.token) t,
    ),
    put-Fresh t n dfs cs (ground arith) fs,
  )

  -- The counts of the queries, in the order of the candidates.
  abbrev pub counts_of : List Candidate → List (Text × ℕ)
  counts_of [] = []
  counts_of (c ∷ cs) = (lower c.token, length (rows_of c)) ∷ counts_of cs

  pub visit_all-df :
      (evidence : Option (List Text)) (cs : List Candidate) (scan : Scan)
      → IsDistinct (lowered is_word lower cs)
      → Fresh scan.token_df cs
      → (visit_all is_word lower stmt evidence cs scan).token_df ≡ scan.token_df ++ counts_of cs
  unfolding visit_all
  visit_all-df evidence [] scan d n = sym (append_nil scan.token_df)
  visit_all-df evidence (c ∷ cs) scan (new, d) (n, ns) =
      let scan' = note_rows is_word lower stmt evidence c scan (answer c) in
      let df = note_rows-df evidence c scan (answer c) in
      let fresh = put-Fresh (lower c.token) (length (rows_of c)) scan.token_df cs new ns in
      let later = visit_all-df evidence cs scan' d (subst (λ m. Fresh m cs) (sym df) fresh) in
      ap (λ u. (visit_all is_word lower stmt evidence cs u).token_df)
        (visit-fresh evidence c scan n)
      ∙ (later
          ∙ (ap (λ m. m ++ counts_of cs)
                (df ∙ put_new (lower c.token) (length (rows_of c)) scan.token_df n)
              ∙ append_assoc scan.token_df ((lower c.token, length (rows_of c)) ∷ [])
                  (counts_of cs)))

  -- Each entry that is stored is stored under its row id.
  pub visit_all-Fit :
      (evidence : Option (List Text)) (cs : List Candidate) (scan : Scan)
      → All (λ c. AreRows (rows_of c)) cs
      → Fit scan.per_entry
      → Fit (visit_all is_word lower stmt evidence cs scan).per_entry
  unfolding visit_all
  visit_all-Fit evidence [] scan r f = f
  visit_all-Fit evidence (c ∷ cs) scan (r, rs) f =
      visit_all-Fit evidence cs _ rs (visit-Fit evidence c scan r f)
