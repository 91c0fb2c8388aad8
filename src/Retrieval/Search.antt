-- ===== src/Retrieval/Search.antt =====
-- `findCaveatsForText` of packages/core/src/claudeHooks.ts, up to `toSearchResult`: the rows that
-- the search returns.
use caveat.Common.{
  ℕ, Bool, true, false, not, ◌&&◌, Option, none, some, List, [], ◌∷◌, ◌++◌, map, Text,
  if◌then◌else◌, leb, ltb, nat_beq, length, take, any, select, sort_desc, list_eq, nat_eq,
}
use caveat.Common.Maps.{has, add, add_all, get, put}
use caveat.Retrieval.{
  default_reminder_hit_limit, min_distinct_token_matches_ceiling, Candidate, token_appears_in,
}
use caveat.Retrieval.Candidates.{build_prompt_candidates}

-- `EntryRow`: the columns that the search and its callers read.
pub record EntryRow : Type 0 where
  pub rowid : ℕ
  pub id : Text
  pub source : Text
  pub symptom_text : Option Text
  pub topical_text : Option Text

pub record SearchOptions : Type 0 where
  pub limit : Option ℕ
  pub self_identity : Option (List Text)

pub record PerEntry : Type 0 where
  pub groups : List ℕ
  pub symptom_tokens : List Text
  pub topical_tokens : List Text
  pub symptom_lower : Option Text
  pub topical_lower : Option Text
  pub row : EntryRow

pub record Scan : Type 0 where
  pub per_entry : List (ℕ × PerEntry)
  pub token_df : List (Text × ℕ)

abbrev pub empty_scan : Scan
empty_scan = record { per_entry = []; token_df = [] }

-- `opts.limit ?? DEFAULT_REMINDER_HIT_LIMIT`
abbrev pub limit_of : SearchOptions → ℕ
limit_of opts = elim opts.limit [ none ↦ default_reminder_hit_limit | some limit ↦ limit ]

abbrev pub min_of : ℕ → ℕ → ℕ
min_of m n = if leb m n then m else n

-- `symptomEvidenceTokens === undefined || symptomEvidenceTokens.has(tokLower)`
abbrev pub is_evidence : Option (List Text) → Text → Bool
is_evidence none token = true
is_evidence (some tokens) token = has token tokens

-- The least count of `validDfs`, over the least so far.
abbrev pub min_df : Option ℕ → List (Text × ℕ) → Option ℕ
min_df least [] = least
min_df none ((t, df) ∷ dfs) = min_df (some df) dfs
min_df (some least) ((t, df) ∷ dfs) = min_df (some (if ltb df least then df else least)) dfs

abbrev pub valid_dfs : List (Text × ℕ) → List (Text × ℕ)
valid_dfs dfs = select (λ e. ltb 0 e.1) dfs

-- `rareTokens`
abbrev pub rare_tokens : ℕ → List (Text × ℕ) → List Text
rare_tokens least dfs = map (λ e. e.0) (select (λ e. nat_beq e.1 least) dfs)

-- The filter of the result.
unfoldable pub passes : ℕ → List Text → PerEntry → Bool
passes min_matches rare e =
    leb min_matches (length e.groups)
    && ltb 0 (length e.symptom_tokens)
    && any (λ t. has t rare) e.topical_tokens

unfoldable pub group_count : ℕ × PerEntry → ℕ
group_count (rowid, e) = length e.groups

unfoldable pub row_of : ℕ × PerEntry → EntryRow
row_of (rowid, e) = e.row

-- The filter, the sort and the cut, given the least count.
unfoldable pub ranked_by : ℕ → ℕ → Scan → Option ℕ → List EntryRow
ranked_by min_matches limit scan none = []
ranked_by min_matches limit scan (some least) =
    let rare = rare_tokens least (valid_dfs scan.token_df) in
    map row_of (
      take limit (sort_desc group_count (select (λ e. passes min_matches rare e.1) scan.per_entry)))

-- What is done once all rows are read.
unfoldable pub ranked : ℕ → ℕ → Scan → List EntryRow
unfolding ranked_by
ranked min_matches limit scan =
    ranked_by min_matches limit scan (min_df none (valid_dfs scan.token_df))

-- The candidates that are not of the user's own environment.
abbrev pub not_self : (lower : Text → Text) → Option (List Text) → List Candidate → List Candidate
not_self lower none cs = cs
not_self lower (some self_ids) cs = select (λ c. not (has (lower c.token) self_ids)) cs

module _ (is_word : ℕ → Bool) (lower : Text → Text) (stmt : Text → Option (List EntryRow)) where
  -- `symptomLower` and `topicalLower`
  abbrev pub lower_text : Option Text → Option Text
  lower_text none = none
  lower_text (some []) = none
  lower_text (some (c ∷ cs)) = some (lower (c ∷ cs))

  abbrev pub appears : Text → Option Text → Bool
  appears token none = false
  appears token (some text) = token_appears_in is_word token text

  abbrev pub new_entry : EntryRow → PerEntry
  new_entry row = record {
    groups = [];
    symptom_tokens = [];
    topical_tokens = [];
    symptom_lower = lower_text row.symptom_text;
    topical_lower = lower_text row.topical_text;
    row = row;
  }

  abbrev pub or_new : EntryRow → Option PerEntry → PerEntry
  or_new row none = new_entry row
  or_new row (some e) = e

  abbrev pub entry_for : EntryRow → List (ℕ × PerEntry) → PerEntry
  entry_for row m = or_new row (get row.rowid m)

  -- One candidate lands in one entry.
  unfoldable pub land : Option (List Text) → Candidate → PerEntry → PerEntry
  land evidence c e =
      let token = lower c.token in
      record {
        groups = add c.group e.groups;
        symptom_tokens =
            if is_evidence evidence token && appears token e.symptom_lower
            then add token e.symptom_tokens
            else e.symptom_tokens;
        topical_tokens =
            if appears token e.topical_lower then add token e.topical_tokens else e.topical_tokens;
        symptom_lower = e.symptom_lower;
        topical_lower = e.topical_lower;
        row = e.row;
      }

  -- The loop over the rows of one candidate.
  unfoldable pub visit_rows :
      Option (List Text) → Candidate → List EntryRow → List (ℕ × PerEntry) → List (ℕ × PerEntry)
  visit_rows evidence c [] m = m
  visit_rows evidence c (row ∷ rows) m =
      visit_rows evidence c rows (put row.rowid (land evidence c (entry_for row m)) m)

  abbrev pub quoted : Text → Text
  quoted token = 34 ∷ token ++ (34 ∷ [])

  -- The answer of one query; one that throws counts as one without rows.
  unfoldable pub note_rows : Option (List Text) → Candidate → Scan → Option (List EntryRow) → Scan
  note_rows evidence c scan none = record scan { token_df = put (lower c.token) 0 scan.token_df }
  note_rows evidence c scan (some rows) = record {
    per_entry = visit_rows evidence c rows scan.per_entry;
    token_df = put (lower c.token) (length rows) scan.token_df;
  }

  unfoldable pub visit_unless : Option (List Text) → Candidate → Scan → Option ℕ → Scan
  unfolding note_rows
  visit_unless evidence c scan (some seen) = scan
  visit_unless evidence c scan none = note_rows evidence c scan (stmt (quoted c.token))

  -- One candidate.
  unfoldable pub visit : Option (List Text) → Candidate → Scan → Scan
  unfolding visit_unless
  visit evidence c scan = visit_unless evidence c scan (get (lower c.token) scan.token_df)

  unfoldable pub visit_all : Option (List Text) → List Candidate → Scan → Scan
  unfolding visit
  visit_all evidence [] scan = scan
  visit_all evidence (c ∷ cs) scan = visit_all evidence cs (visit evidence c scan)

  -- The search for the candidates that are left.
  unfoldable pub find_for_candidates : Option (List Text) → ℕ → List Candidate → List EntryRow
  find_for_candidates evidence limit [] = []
  find_for_candidates evidence limit (c ∷ cs) =
      let total_groups = length (add_all [] (map (λ k. k.group) (c ∷ cs))) in
      ranked (min_of min_distinct_token_matches_ceiling total_groups) limit
        (visit_all evidence (c ∷ cs) empty_scan)

  -- `findCaveatsForText`, and `findCaveatsForPrompt` without evidence tokens.
  unfoldable pub find_caveats_for_text :
      Option Text → SearchOptions → Option (List Text) → List EntryRow
  find_caveats_for_text none opts evidence = []
  find_caveats_for_text (some []) opts evidence = []
  find_caveats_for_text (some (c ∷ cs)) opts evidence =
      find_for_candidates evidence (limit_of opts)
        (not_self lower opts.self_identity (build_prompt_candidates is_word lower (c ∷ cs)))
