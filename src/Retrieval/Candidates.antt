-- ===== src/Retrieval/Candidates.antt =====
-- `buildPromptCandidates` and `extractPromptCandidates` of packages/core/src/claudeHooks.ts.
use caveat.Common.{
  ℕ, suc, Bool, true, false, ◌||◌, Option, none, some, List, [], ◌∷◌, ◌++◌, map, Text,
  if◌then◌else◌, ltb, length, take, select, split, is_space, list_eq, nat_eq,
}
use caveat.Common.Maps.{has}
use caveat.Retrieval.{prompt_max_candidate_tokens, points, units, Candidate, expand_token}
use caveat.Retrieval.Paths.{strip_fs_paths}

-- The loop over the raw tokens, whose index is the group.
unfoldable pub expand_tokens : ℕ → List Text → List Candidate
expand_tokens i [] = []
expand_tokens i (t ∷ ts) = expand_token t i ++ expand_tokens (suc i) ts

module _ (is_word : ℕ → Bool) (lower : Text → Text) where
  -- `replace(/[^\p{L}\p{N}\s]/gu, ' ')`
  abbrev pub clean : List ℕ → Text
  clean [] = []
  clean (p ∷ ps) = (if is_word p || is_space p then units p else 32 ∷ []) ++ clean ps

  -- The first candidate of each token, whatever its case.
  abbrev pub unique : List Text → List Candidate → List Candidate
  unique seen [] = []
  unique seen (c ∷ cs) = elim (has (lower c.token) seen) [
    | true ↦ unique seen cs
    | false ↦ c ∷ unique (lower c.token ∷ seen) cs
  ]

  -- `buildPromptCandidates`
  unfoldable pub build_prompt_candidates : Text → List Candidate
  build_prompt_candidates prompt =
      let cleaned = clean (points (strip_fs_paths prompt)) in
      let raw_tokens = select (λ t. ltb 0 (length t)) (split is_space cleaned) in
      take prompt_max_candidate_tokens (unique [] (expand_tokens 0 raw_tokens))

  -- `extractPromptCandidates`; `none` is a prompt that is no string.
  unfoldable pub extract_prompt_candidates : Option Text → List Text
  extract_prompt_candidates none = []
  extract_prompt_candidates (some []) = []
  extract_prompt_candidates (some (c ∷ cs)) = map (λ k. k.token) (build_prompt_candidates (c ∷ cs))
