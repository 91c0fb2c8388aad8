-- ===== src/Retrieval/Rarest.antt =====
-- What the search promises of a row, and where the rare tokens come from.
use caveat.Common.{
  ℕ, ◌≤◌, ◌≡◌, ◌⊎◌, inl, inr, refl, sym, ◌∙◌, ap, Bool, true, ◌&&◌, Option, none, some, List, [],
  ◌∷◌, map, Text, Memᴰ, if◌then◌else◌, arith, ltb, length, any, select, All, list_eq, nat_eq,
  Bool-cases, list_beq_iff,
}
use caveat.Common.Maps.{has, add_all, IsDistinct}
use caveat.Retrieval.{Candidate}
use caveat.Retrieval.Bounds.{lowered}
use caveat.Retrieval.Search.{
  EntryRow, min_of, min_df, valid_dfs, rare_tokens, lower_text, appears, is_evidence,
}
use caveat.Retrieval.Landing.{rows_of, lands, counts_of}
use caveat.Retrieval.Entries.{min_df-least}

module _ (is_word : ℕ → Bool) (lower : Text → Text) (stmt : Text → Option (List EntryRow))
    (entry : ℕ → EntryRow) where
  abbrev pub rows : Candidate → List EntryRow
  rows c = rows_of is_word lower stmt entry c

  abbrev pub finds : ℕ → Candidate → Bool
  finds k c = lands is_word lower stmt entry k c

  -- The candidate speaks of the symptom of the row.
  abbrev pub speaks : Option (List Text) → EntryRow → Candidate → Bool
  speaks evidence row c =
      is_evidence evidence (lower c.token)
      && appears is_word lower stmt (lower c.token) (lower_text is_word lower stmt row.symptom_text)

  -- The candidate names the topic of the row.
  abbrev pub names : EntryRow → Candidate → Bool
  names row c =
      appears is_word lower stmt (lower c.token) (lower_text is_word lower stmt row.topical_text)

  -- No candidate that finds anything finds fewer rows.
  abbrev pub IsRarest : List Candidate → Candidate → Type 0
  IsRarest cs c = All (λ d. (length (rows d) ≡ 0) ⊎ (length (rows c) ≤ length (rows d))) cs

  -- What the search promises of a row that it returns for the candidates `cs`.
  pub record Passes (evidence : Option (List Text)) (cs : List Candidate) (row : EntryRow)
      : Type 0 where
    pub listed : row ≡ entry row.rowid
    pub groups :
        min_of 2 (length (add_all [] (map (λ c. c.group) cs)))
        ≤ length (add_all [] (map (λ c. c.group) (select (finds row.rowid) cs)))
    pub symptom : any (λ c. finds row.rowid c && speaks evidence row c) cs ≡ true
    pub topical :
        (c : Candidate) × Memᴰ c cs × ((finds row.rowid c && names row c) ≡ true) × IsRarest cs c

  pub Memᴰ-has :
      (d : Candidate) (cs : List Candidate)
      → Memᴰ d cs
      → has (lower d.token) (lowered is_word lower cs) ≡ true
  Memᴰ-has d [] i = elim i [ ]
  Memᴰ-has d (c ∷ cs) (Memᴰ.head p) =
      ground (arith, list_beq_iff (lower c.token) (lower d.token), ap (λ x. lower x.token) p)
  Memᴰ-has d (c ∷ cs) (Memᴰ.tail i) = ground (arith, Memᴰ-has d cs i)

  pub same-candidate :
      (c d : Candidate) (cs : List Candidate)
      → IsDistinct (lowered is_word lower cs)
      → Memᴰ c cs
      → Memᴰ d cs
      → lower c.token ≡ lower d.token
      → c ≡ d
  same-candidate c d [] u i j e = elim i [ ]
  same-candidate c d (b ∷ cs) (new, u) (Memᴰ.head p) (Memᴰ.head q) e = p ∙ sym q
  same-candidate c d (b ∷ cs) (new, u) (Memᴰ.head p) (Memᴰ.tail j) e =
      absurd (cc (Memᴰ-has d cs j, ap (λ x. lower x.token) p))
  same-candidate c d (b ∷ cs) (new, u) (Memᴰ.tail i) (Memᴰ.head q) e =
      absurd (cc (Memᴰ-has c cs i, ap (λ x. lower x.token) q))
  same-candidate c d (b ∷ cs) (new, u) (Memᴰ.tail i) (Memᴰ.tail j) e = same-candidate c d cs u i j e

  abbrev pub counts : List Candidate → List (Text × ℕ)
  counts cs = counts_of is_word lower stmt entry cs

  -- A rare token is the token of a candidate with the least count.
  pub rare-Memᴰ :
      (t : Text) (least : ℕ) (cs : List Candidate)
      → has t (rare_tokens least (valid_dfs (counts cs))) ≡ true
      → (d : Candidate) × Memᴰ d cs × (lower d.token ≡ t) × (length (rows d) ≡ least)
  rare-Memᴰ t least [] h = cc
  rare-Memᴰ t least (c ∷ cs) h =
      elim (Bool-cases (has t (rare_tokens least (valid_dfs (counts cs))))) [
        | inl later ↦ let (d, i, e, n) = rare-Memᴰ t least cs later in (d, Memᴰ.tail i, e, n)
        | inr here ↦
            (c, Memᴰ.head refl, ground (arith, list_beq_iff (lower c.token) t), ground arith)
      ]

  pub least-IsLeast :
      (cs : List Candidate) (l : ℕ) (least : ℕ)
      → min_df (some l) (valid_dfs (counts cs)) ≡ some least
      → All (λ d. (length (rows d) ≡ 0) ⊎ (least ≤ length (rows d))) cs
  least-IsLeast [] l least h = tt
  least-IsLeast (c ∷ cs) l least h = elim (Bool-cases (ltb 0 (length (rows c)))) [
    | inl pos ↦
        let l' = if ltb (length (rows c)) l then length (rows c) else l in
        let rest : min_df (some l') (valid_dfs (counts cs)) ≡ some least = ground arith in
        let small = (min_df-least l' (valid_dfs (counts cs)) least rest).0 in
        (inr (ground arith), least-IsLeast cs l' least rest)
    | inr zero_df ↦ (inl (ground arith), least-IsLeast cs l least (ground arith))
  ]

  pub least_df :
      (cs : List Candidate) (least : ℕ)
      → min_df none (valid_dfs (counts cs)) ≡ some least
      → All (λ d. (length (rows d) ≡ 0) ⊎ (least ≤ length (rows d))) cs
  least_df [] least h = tt
  least_df (c ∷ cs) least h = elim (Bool-cases (ltb 0 (length (rows c)))) [
    | inl pos ↦
        let df = length (rows c) in
        let rest : min_df (some df) (valid_dfs (counts cs)) ≡ some least = ground arith in
        let small = (min_df-least df (valid_dfs (counts cs)) least rest).0 in
        (inr small, least-IsLeast cs df least rest)
    | inr zero_df ↦ (inl (ground arith), least_df cs least (ground arith))
  ]
