-- ===== src/Retrieval/Gates.antt =====
-- The gates of the search: what is true of every row that it returns.
use mathlib.Core.Path.{subst}
use caveat.Common.{
  ℕ, ◌≤◌, ◌<◌, ◌≡◌, ◌⊎◌, inl, inr, refl, sym, ◌∙◌, ap, Bool, true, false, not, ◌&&◌, Option, none,
  some, List, [], ◌∷◌, map, Text, Memᴰ, arith, length, any, any-Memᴰ, select, sort_desc-All, All,
  All-take, list_eq, nat_eq, Bool-cases, and-true,
}
use caveat.Common.Maps.{has, add_all, get, IsDistinct}
use caveat.Retrieval.{Candidate}
use caveat.Retrieval.Candidates.{build_prompt_candidates}
use caveat.Retrieval.Bounds.{lowered, build_prompt_candidates-All}
use caveat.Retrieval.Search.{
  EntryRow, PerEntry, Scan, empty_scan, SearchOptions, min_of, min_df, valid_dfs, rare_tokens,
  limit_of, land, passes, row_of, group_count, ranked, ranked_by, visit_all, not_self,
  find_for_candidates, find_caveats_for_text, visit_rows, visit, visit_unless, note_rows,
}
use caveat.Retrieval.Landing.{
  found, AreRows, Fit, visit_all-df, visit_all-Fit, get-Fits, none_counted,
}
use caveat.Retrieval.Collect.{entry-set}
use caveat.Retrieval.Entries.{
  select-cong, select-none, select-All, map-All, any-map-select, any-add_all, Unique, put-Unique,
  Memᴰ-get,
}
use caveat.Retrieval.Rarest.{
  rows, finds, speaks, names, counts, IsRarest, Passes, same-candidate, rare-Memᴰ, least_df,
}

module _ (is_word : ℕ → Bool) (lower : Text → Text) (stmt : Text → Option (List EntryRow))
    (entry : ℕ → EntryRow) where
  module _ (evidence : Option (List Text)) (cs : List Candidate)
      (distinct : IsDistinct (lowered is_word lower cs))
      (are_rows : All
        (λ c. AreRows is_word lower stmt entry (rows is_word lower stmt entry c))
        cs) where
    abbrev scan : Scan
    scan = visit_all is_word lower stmt evidence cs empty_scan

    abbrev entries : List (ℕ × PerEntry)
    entries = scan.per_entry

    entries-Fit : Fit is_word lower stmt entry entries
    entries-Fit = visit_all-Fit is_word lower stmt entry evidence cs empty_scan are_rows tt

    groups-of :
        (k : ℕ) (e : PerEntry)
        → get k entries ≡ some e
        → e.groups
          ≡ add_all []
              (map (λ c. c.group) (select (λ c. finds is_word lower stmt entry k c && true) cs))
    unfolding land
    groups-of k e h =
        entry-set is_word lower stmt entry evidence (λ x. x.groups) (λ i c. true) (λ c. c.group)
          (λ c i x f. refl) (λ row. refl) k cs e distinct are_rows h

    symptom-of :
        (k : ℕ) (e : PerEntry)
        → get k entries ≡ some e
        → e.symptom_tokens
          ≡ add_all [] (
              map
                (λ c. lower c.token)
                (select
                  (λ c.
                    finds is_word lower stmt entry k c
                    && speaks is_word lower stmt entry evidence (entry k) c)
                  cs))
    unfolding land
    symptom-of k e h =
        entry-set is_word lower stmt entry evidence (λ x. x.symptom_tokens)
          (λ i c. speaks is_word lower stmt entry evidence (entry i) c) (λ c. lower c.token)
          (λ c i x (r, s, l, t). rw l refl) (λ row. refl) k cs e distinct are_rows h

    topical-of :
        (k : ℕ) (e : PerEntry)
        → get k entries ≡ some e
        → e.topical_tokens
          ≡ add_all [] (
              map
                (λ c. lower c.token)
                (select
                  (λ c.
                    finds is_word lower stmt entry k c
                    && names is_word lower stmt entry (entry k) c)
                  cs))
    unfolding land
    topical-of k e h =
        entry-set is_word lower stmt entry evidence (λ x. x.topical_tokens)
          (λ i c. names is_word lower stmt entry (entry i) c) (λ c. lower c.token)
          (λ c i x (r, s, l, t). rw t refl) (λ row. refl) k cs e distinct are_rows h

    -- A rare token among the topical ones is that of a rarest candidate.
    topical-IsRarest :
        (k : ℕ) (e : PerEntry) (least : ℕ)
        → get k entries ≡ some e
        → min_df none (valid_dfs (counts is_word lower stmt entry cs)) ≡ some least
        → any
            (λ t. has t (rare_tokens least (valid_dfs (counts is_word lower stmt entry cs))))
            e.topical_tokens
          ≡ true
        → (c : Candidate) × Memᴰ c cs
          × ((finds is_word lower stmt entry k c && names is_word lower stmt entry (entry k) c)
              ≡ true)
          × IsRarest is_word lower stmt entry cs c
    topical-IsRarest k e least h m a =
        let f = λ (t : Text).
          has t (rare_tokens least (valid_dfs (counts is_word lower stmt entry cs))) in
        let p = λ (c : Candidate).
          finds is_word lower stmt entry k c && names is_word lower stmt entry (entry k) c in
        let item = λ (c : Candidate). lower c.token in
        let found : any (λ c. p c && f (item c)) cs ≡ true =
          sym (
            ap (any f) (topical-of k e h)
            ∙ (any-add_all f [] (map item (select p cs)) ∙ any-map-select f item p cs))
          ∙ a in
        let (c, i, pf) = any-Memᴰ (λ c. p c && f (item c)) cs found in
        let (pc, fc) = and-true (p c) (f (item c)) pf in
        let (d, j, same, df) = rare-Memᴰ is_word lower stmt entry (item c) least cs fc in
        let cd = same-candidate is_word lower stmt entry c d cs distinct i j (sym same) in
        let n : length (rows is_word lower stmt entry c) ≡ least =
          ap (λ x. length (rows is_word lower stmt entry x)) cd ∙ df in
        (
          c,
          i,
          pc,
          subst
              (λ l.
                All
                  (λ b.
                    (length (rows is_word lower stmt entry b) ≡ 0)
                    ⊎ (l ≤ length (rows is_word lower stmt entry b)))
                  cs)
              (sym n) (least_df is_word lower stmt entry cs least m),
        )

    symptom-any :
        (k : ℕ) (e : PerEntry)
        → get k entries ≡ some e
        → 0 < length e.symptom_tokens
        → any
            (λ c.
              finds is_word lower stmt entry k c
              && speaks is_word lower stmt entry evidence (entry k) c)
            cs
          ≡ true
    symptom-any k e h pos =
        let p = λ (c : Candidate).
          finds is_word lower stmt entry k c
          && speaks is_word lower stmt entry evidence (entry k) c in
        elim (Bool-cases (any p cs)) [
          | inl holds ↦ holds
          | inr missing ↦
              let empty : e.symptom_tokens ≡ [] =
                symptom-of k e h
                ∙ ap (λ xs. add_all [] (map (λ c. lower c.token) xs)) (select-none p cs missing) in
              absurd (omega (arith, ap length empty))
        ]

    abbrev min_matches : ℕ
    min_matches = min_of 2 (length (add_all [] (map (λ c. c.group) cs)))

    entry-Passes :
        (k : ℕ) (e : PerEntry) (least : ℕ)
        → get k entries ≡ some e
        → min_df none (valid_dfs (counts is_word lower stmt entry cs)) ≡ some least
        → passes min_matches (rare_tokens least (valid_dfs (counts is_word lower stmt entry cs))) e
          ≡ true
        → Passes is_word lower stmt entry evidence cs e.row
    unfolding passes
    entry-Passes k e least h m p =
        let (rid, listed, sym_text, top_text) =
          get-Fits is_word lower stmt entry k entries {e = e} entries-Fit h in
        let rk : k ≡ (entry k).rowid = sym rid ∙ ap (λ r. r.rowid) listed in
        let many : min_matches ≤ length e.groups = ground arith in
        let all_groups : e.groups
            ≡ add_all [] (map (λ c. c.group) (select (finds is_word lower stmt entry k) cs)) =
          groups-of k e h
          ∙ ap (λ xs. add_all [] (map (λ c. c.group) xs))
              (select-cong (λ c. finds is_word lower stmt entry k c && true)
                (finds is_word lower stmt entry k) cs (λ c. ground arith)) in
        let symptom = symptom-any k e h (ground arith) in
        let topical = topical-IsRarest k e least h m (ground arith) in
        let gates : Passes is_word lower stmt entry evidence cs (entry k) = record {
          listed = ap entry rk;
          groups =
              subst
                (λ i.
                  min_matches
                  ≤ length (
                      add_all []
                        (map (λ c. c.group) (select (finds is_word lower stmt entry i) cs))))
                rk (subst (λ gs. min_matches ≤ length gs) all_groups many);
          symptom =
              subst
                (λ i.
                  any
                    (λ c.
                      finds is_word lower stmt entry i c
                      && speaks is_word lower stmt entry evidence (entry k) c)
                    cs
                  ≡ true)
                rk symptom;
          topical =
              subst
                (λ i.
                  (c : Candidate) × Memᴰ c cs
                  × ((finds is_word lower stmt entry i c
                        && names is_word lower stmt entry (entry k) c)
                      ≡ true)
                  × IsRarest is_word lower stmt entry cs c)
                rk topical;
        } in
        subst (Passes is_word lower stmt entry evidence cs) (sym listed) gates

    visit_rows-Unique :
        (c : Candidate) (rs : List EntryRow) (m : List (ℕ × PerEntry))
        → Unique m
        → Unique (visit_rows is_word lower stmt evidence c rs m)
    unfolding visit_rows
    visit_rows-Unique c [] m u = u
    visit_rows-Unique c (row ∷ rs) m u = visit_rows-Unique c rs _ (put-Unique row.rowid _ m u)

    note_rows-Unique :
        (c : Candidate) (s : Scan) (o : Option (List EntryRow))
        → Unique s.per_entry
        → Unique (note_rows is_word lower stmt evidence c s o).per_entry
    unfolding note_rows
    note_rows-Unique c s none u = u
    note_rows-Unique c s (some rs) u = visit_rows-Unique c rs s.per_entry u

    visit_unless-Unique :
        (c : Candidate) (s : Scan) (o : Option ℕ)
        → Unique s.per_entry
        → Unique (visit_unless is_word lower stmt evidence c s o).per_entry
    unfolding visit_unless
    visit_unless-Unique c s (some n) u = u
    visit_unless-Unique c s none u = note_rows-Unique c s _ u

    visit_all-Unique :
        (bs : List Candidate) (s : Scan)
        → Unique s.per_entry
        → Unique (visit_all is_word lower stmt evidence bs s).per_entry
    unfolding visit_all visit
    visit_all-Unique [] s u = u
    visit_all-Unique (b ∷ bs) s u = visit_all-Unique bs _ (visit_unless-Unique b s _ u)

    ranked_by-Passes :
        (limit : ℕ) (o : Option ℕ)
        → min_df none (valid_dfs (counts is_word lower stmt entry cs)) ≡ o
        → All (Passes is_word lower stmt entry evidence cs) (ranked_by min_matches limit scan o)
    unfolding ranked_by row_of
    ranked_by-Passes limit none m = tt
    ranked_by-Passes limit (some least) m =
        let df : scan.token_df ≡ counts is_word lower stmt entry cs =
          visit_all-df is_word lower stmt entry evidence cs empty_scan distinct
            (none_counted is_word lower stmt entry cs) in
        let rare = rare_tokens least (valid_dfs scan.token_df) in
        let Q = λ (x : ℕ × PerEntry). Passes is_word lower stmt entry evidence cs x.1.row in
        let selected : All Q (select (λ x. passes min_matches rare x.1) entries) =
          select-All Q (λ x. passes min_matches rare x.1) entries
            (λ x i t.
              entry-Passes x.0 x.1 least
                (Memᴰ-get x.0 x.1 entries (visit_all-Unique cs empty_scan tt) i) m
                (subst (λ dfs. passes min_matches (rare_tokens least (valid_dfs dfs)) x.1 ≡ true) df
                  t)) in
        map-All (Passes is_word lower stmt entry evidence cs) row_of _
          (All-take Q limit _ (sort_desc-All group_count Q _ selected))

  has-select :
      (t : Text) (p : Candidate → Bool) (cs : List Candidate)
      → has t (lowered is_word lower cs) ≡ false
      → has t (lowered is_word lower (select p cs)) ≡ false
  has-select t p [] h = refl
  has-select t p (c ∷ cs) h = ground (arith, has-select t p cs)

  select-IsDistinct :
      (p : Candidate → Bool) (cs : List Candidate)
      → IsDistinct (lowered is_word lower cs)
      → IsDistinct (lowered is_word lower (select p cs))
  select-IsDistinct p [] d = tt
  select-IsDistinct p (c ∷ cs) (new, d) = elim (Bool-cases (p c)) [
    | inl e ↦ rw e (has-select (lower c.token) p cs new, select-IsDistinct p cs d)
    | inr e ↦ rw e (select-IsDistinct p cs d)
  ]

  not_self-IsDistinct :
      (o : Option (List Text)) (cs : List Candidate)
      → IsDistinct (lowered is_word lower cs)
      → IsDistinct (lowered is_word lower (not_self lower o cs))
  not_self-IsDistinct none cs d = d
  not_self-IsDistinct (some ids) cs d = select-IsDistinct (λ c. not (has (lower c.token) ids)) cs d

  -- The rows of every query are rows of the table.
  abbrev pub IsTable : Type 0
  IsTable = (query : Text) → AreRows is_word lower stmt entry (found (stmt query))

  IsTable-AreRows :
      IsTable
      → (cs : List Candidate)
      → All (λ c. AreRows is_word lower stmt entry (rows is_word lower stmt entry c)) cs
  IsTable-AreRows t [] = tt
  IsTable-AreRows t (c ∷ cs) = (t _, IsTable-AreRows t cs)

  find_for_candidates-Passes :
      (evidence : Option (List Text)) (limit : ℕ) (cs : List Candidate)
      → IsTable
      → IsDistinct (lowered is_word lower cs)
      → All
          (Passes is_word lower stmt entry evidence cs)
          (find_for_candidates is_word lower stmt evidence limit cs)
  unfolding find_for_candidates ranked
  find_for_candidates-Passes evidence limit [] t d = tt
  find_for_candidates-Passes evidence limit (c ∷ cs) t d =
      let df =
        visit_all-df is_word lower stmt entry evidence (c ∷ cs) empty_scan d
          (none_counted is_word lower stmt entry (c ∷ cs)) in
      ranked_by-Passes evidence (c ∷ cs) d (IsTable-AreRows t (c ∷ cs)) limit _
        (ap (λ dfs. min_df none (valid_dfs dfs)) (sym df))

  -- With a full-text query that answers with rows of one table, every row that a search returns passes
  -- the three gates: at least two groups of the prompt (or its only one) find it; some candidate that
  -- finds is_word lower stmt entry it, and is evidence where evidence is asked for, appears in its symptom text; and some
  -- candidate that finds is_word lower stmt entry it appears in its topical text and is the rarest of the prompt.
  pub find_caveats_for_text-Passes :
      (c : ℕ) (text : Text) (opts : SearchOptions) (evidence : Option (List Text))
      → IsTable
      → All
          (Passes is_word lower stmt entry evidence
            (not_self lower opts.self_identity (build_prompt_candidates is_word lower (c ∷ text))))
          (find_caveats_for_text is_word lower stmt (some (c ∷ text)) opts evidence)
  unfolding find_caveats_for_text
  find_caveats_for_text-Passes c text opts evidence t =
      find_for_candidates-Passes evidence (limit_of opts) _ t (
        not_self-IsDistinct opts.self_identity (build_prompt_candidates is_word lower (c ∷ text))
          (build_prompt_candidates-All is_word lower (c ∷ text)).1)
