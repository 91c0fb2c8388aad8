-- ===== src/Retrieval/Collect.antt =====
-- The sets that an entry collects in the loops over candidates and rows.
use mathlib.Core.Path.{subst}
use caveat.Common.{
  ℕ, ◌≡◌, inl, inr, refl, sym, ◌∙◌, ap, Bool, ◌&&◌, Option, none, some, List, [], ◌∷◌, map, Text,
  if◌then◌else◌, nat_beq, nat_beq_iff, any, select, All, list_eq, nat_eq, Bool-cases, length,
  Equality,
}
use caveat.Common.Maps.{add, add_all, get, put, get-put, IsDistinct}
use caveat.Retrieval.{Candidate}
use caveat.Retrieval.Bounds.{lowered}
use caveat.Retrieval.Search.{
  EntryRow, PerEntry, Scan, new_entry, or_new, entry_for, land, visit_rows, note_rows, visit_all,
  empty_scan,
}
use caveat.Retrieval.Landing.{
  twice, add_all-if, found, Fits, Fit, AreRows, rows_of, lands, Fresh, answer, land-Fits,
  entry_for-Fits, put-Fit, note_rows-Fit, note_rows-df, visit-fresh, put-Fresh, none_counted,
}

module _ (is_word : ℕ → Bool) (lower : Text → Text) (stmt : Text → Option (List EntryRow))
    (entry : ℕ → EntryRow) where
  -- One of the sets of an entry, given what a candidate adds to it and when.
  module _ {ℓ} {K : Type ℓ} ⦃q : Equality K⦄ (evidence : Option (List Text))
      (proj : PerEntry → List K) (test : ℕ → Candidate → Bool) (item : Candidate → K)
      (law : (c : Candidate) (k : ℕ) (e : PerEntry)
        → Fits is_word lower stmt entry (k, e)
        → proj (land is_word lower stmt evidence c e)
          ≡ (if test k c then add (item c) (proj e) else proj e))
      (none_yet : (row : EntryRow) → proj (new_entry is_word lower stmt row) ≡ []) where
    abbrev pub set_at : Option PerEntry → List K
    set_at none = []
    set_at (some e) = proj e

    abbrev pub set_of : ℕ → List (ℕ × PerEntry) → List K
    set_of k m = set_at (get k m)

    or_new-set :
        (row : EntryRow) (o : Option PerEntry) → proj (or_new is_word lower stmt row o) ≡ set_at o
    or_new-set row none = none_yet row
    or_new-set row (some e) = refl

    landed : Candidate → EntryRow → List (ℕ × PerEntry) → PerEntry
    landed c row m = land is_word lower stmt evidence c (entry_for is_word lower stmt row m)

    landed-set :
        (c : Candidate) (row : EntryRow) (m : List (ℕ × PerEntry))
        → row ≡ entry row.rowid
        → Fit is_word lower stmt entry m
        → proj (landed c row m)
          ≡ (if test row.rowid c then add (item c) (set_of row.rowid m) else set_of row.rowid m)
    unfolding landed
    landed-set c row m r f = rw (← or_new-set row (get row.rowid m)) (
        law c row.rowid (entry_for is_word lower stmt row m)
          (entry_for-Fits is_word lower stmt entry row m r f))

    row-set :
        (c : Candidate) (k : ℕ) (row : EntryRow) (m : List (ℕ × PerEntry))
        → row ≡ entry row.rowid
        → Fit is_word lower stmt entry m
        → set_of k (put row.rowid (landed c row m) m)
          ≡ (if nat_beq row.rowid k && test k c then add (item c) (set_of k m) else set_of k m)
    row-set c k row m r f = elim (Bool-cases (nat_beq row.rowid k)) [
      | inl same ↦
          rw (get-put row.rowid k (landed c row m) m, same)
            (subst
              (λ i.
                proj (landed c row m)
                ≡ (if test i c then add (item c) (set_of i m) else set_of i m))
              ((nat_beq_iff row.rowid k).0 same) (landed-set c row m r f))
      | inr other ↦ rw (get-put row.rowid k (landed c row m) m, other) refl
    ]

    rows-set :
        (c : Candidate) (k : ℕ) (rows : List EntryRow) (m : List (ℕ × PerEntry))
        → AreRows is_word lower stmt entry rows
        → Fit is_word lower stmt entry m
        → set_of k (visit_rows is_word lower stmt evidence c rows m) ≡ (
            if any (λ row. nat_beq row.rowid k) rows && test k c
            then add (item c) (set_of k m)
            else set_of k m)
    unfolding visit_rows landed
    rows-set c k [] m r f = refl
    rows-set c k (row ∷ rows) m (r, rs) f =
        let m' = put row.rowid (landed c row m) m in
        let f' : Fit is_word lower stmt entry m' =
          put-Fit is_word lower stmt entry row.rowid (landed c row m) m
            (land-Fits is_word lower stmt entry evidence c row.rowid _
              (entry_for-Fits is_word lower stmt entry row m r f))
            f in
        let later = rows-set c k rows m' rs f' in
        let here = row-set c k row m r f in
        twice (nat_beq row.rowid k) _ (test k c) (item c) (set_of k m) (set_of k m') _ here later

    note_rows-set :
        (c : Candidate) (k : ℕ) (scan : Scan) (o : Option (List EntryRow))
        → AreRows is_word lower stmt entry (found o)
        → Fit is_word lower stmt entry scan.per_entry
        → set_of k (note_rows is_word lower stmt evidence c scan o).per_entry ≡ (
            if any (λ row. nat_beq row.rowid k) (found o) && test k c
            then add (item c) (set_of k scan.per_entry)
            else set_of k scan.per_entry)
    unfolding note_rows
    note_rows-set c k scan none r f = refl
    note_rows-set c k scan (some rows) r f = rows-set c k rows scan.per_entry r f

    -- After all candidates, the set has what each one that lands is_word lower stmt entry adds.
    pub visit_all-set :
        (k : ℕ) (cs : List Candidate) (scan : Scan)
        → IsDistinct (lowered is_word lower cs)
        → Fresh is_word lower stmt entry scan.token_df cs
        → All (λ c. AreRows is_word lower stmt entry (rows_of is_word lower stmt entry c)) cs
        → Fit is_word lower stmt entry scan.per_entry
        → set_of k (visit_all is_word lower stmt evidence cs scan).per_entry
          ≡ add_all
              (set_of k scan.per_entry)
              (map item (select (λ c. lands is_word lower stmt entry k c && test k c) cs))
    unfolding visit_all
    visit_all-set k [] scan d n r f = refl
    visit_all-set k (c ∷ cs) scan (new, d) (n, ns) (r, rs) f =
        let scan' =
          note_rows is_word lower stmt evidence c scan (answer is_word lower stmt entry c) in
        let df =
          note_rows-df is_word lower stmt entry evidence c scan
            (answer is_word lower stmt entry c) in
        let fresh =
          put-Fresh is_word lower stmt entry (lower c.token)
            (length (rows_of is_word lower stmt entry c)) scan.token_df cs new ns in
        let f' =
          note_rows-Fit is_word lower stmt entry evidence c scan (answer is_word lower stmt entry c)
            r f in
        let later =
          visit_all-set k cs scan' d
            (subst (λ m. Fresh is_word lower stmt entry m cs) (sym df) fresh) rs f' in
        let here = note_rows-set c k scan (answer is_word lower stmt entry c) r f in
        ap (λ u. set_of k (visit_all is_word lower stmt evidence cs u).per_entry)
          (visit-fresh is_word lower stmt entry evidence c scan n)
        ∙ (later
            ∙ add_all-if (lands is_word lower stmt entry k c && test k c) item c _
                (set_of k scan.per_entry) here)

    -- So it is for an entry that is stored at the end of the search.
    pub entry-set :
        (k : ℕ) (cs : List Candidate) (e : PerEntry)
        → IsDistinct (lowered is_word lower cs)
        → All (λ c. AreRows is_word lower stmt entry (rows_of is_word lower stmt entry c)) cs
        → get k (visit_all is_word lower stmt evidence cs empty_scan).per_entry ≡ some e
        → proj e
          ≡ add_all [] (map item (select (λ c. lands is_word lower stmt entry k c && test k c) cs))
    entry-set k cs e d r h =
        ap set_at (sym h)
        ∙ visit_all-set k cs empty_scan d (none_counted is_word lower stmt entry cs) r tt
