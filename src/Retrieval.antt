-- ===== src/Retrieval.antt =====
-- The words of `buildPromptCandidates` of packages/core/src/claudeHooks.ts: constants, character
-- classes, `tokenAppearsIn` and `expandToken`.
pub mod Paths
pub mod Candidates
pub mod Search
pub mod Surfaces
pub mod Bounds
pub mod Boundaries
pub mod Landing
pub mod Entries
pub mod Collect
pub mod Rarest
pub mod Gates
pub mod Merge
pub mod Reminder
pub mod Stop
pub mod Inert
pub mod ReminderTests
pub mod Tests
use caveat.Common.{
  ℕ, ◌+◌, ◌-◌, ◌*◌, ◌/◌, ◌%◌, Bool, true, false, not, ◌&&◌, ◌||◌, List, [], ◌∷◌, ◌++◌, Text,
  if◌then◌else◌, leb, ltb, nat_beq, length, take, any, all, starts_with, includes,
}

abbrev pub prompt_token_min_length : ℕ
prompt_token_min_length = 3

abbrev pub prompt_max_candidate_tokens : ℕ
prompt_max_candidate_tokens = 50

abbrev pub default_reminder_hit_limit : ℕ
default_reminder_hit_limit = 5

abbrev pub min_distinct_token_matches_ceiling : ℕ
min_distinct_token_matches_ceiling = 2

abbrev pub is_hiragana : ℕ → Bool
is_hiragana c = leb 0x3040 c && leb c 0x309f

-- `CJK_CHAR` on one code unit.
abbrev pub is_cjk_char : ℕ → Bool
is_cjk_char c =
    is_hiragana c
    || (leb 0x30a0 c && leb c 0x30ff)
    || (leb 0x4e00 c && leb c 0x9fff)
    || (leb 0xff66 c && leb c 0xff9f)

-- `isCjkDominated`
unfoldable pub is_cjk_dominated : Text → Bool
is_cjk_dominated token = any is_cjk_char token

-- `isPureHiragana`
unfoldable pub is_pure_hiragana : Text → Bool
is_pure_hiragana token = ltb 0 (length token) && all is_hiragana token

abbrev is_pair : ℕ → ℕ → Bool
is_pair c d = leb 0xd800 c && leb c 0xdbff && leb 0xdc00 d && leb d 0xdfff

-- The code points of a text, as a regular expression with the flag `u` reads them.
abbrev pub points : Text → List ℕ
points [] = []
points (c ∷ []) = c ∷ []
points (c ∷ d ∷ cs) = elim (is_pair c d) [
  | true ↦ (0x10000 + (c - 0xd800) * 0x400 + (d - 0xdc00)) ∷ points cs
  | false ↦ c ∷ points (d ∷ cs)
]

-- The code units of a code point.
abbrev pub units : ℕ → Text
units p =
    if ltb p 0x10000
    then p ∷ []
    else (0xd800 + (p - 0x10000) / 0x400) ∷ (0xdc00 + (p - 0x10000) % 0x400) ∷ []

pub record Candidate : Type 0 where
  pub token : Text
  pub group : ℕ

-- The slices of `n` units that start at each index up to the last one that holds a whole slice.
abbrev pub windows : ℕ → Text → List Text
windows n [] = []
windows n (c ∷ cs) = if leb n (length (c ∷ cs)) then take n (c ∷ cs) ∷ windows n cs else []

abbrev pub in_group : ℕ → List Text → List Candidate
in_group group [] = []
in_group group (t ∷ ts) =
    if is_pure_hiragana t
    then in_group group ts
    else record { token = t; group = group } ∷ in_group group ts

-- `expandToken`: what it pushes.
unfoldable pub expand_token : Text → ℕ → List Candidate
expand_token token group =
    if is_cjk_dominated token
    then in_group group (windows prompt_token_min_length token)
    else if leb prompt_token_min_length (length token)
    then record { token = token; group = group } ∷ []
    else []

-- What `\p{L}` and `\p{N}` match is the Unicode database's.
module _ (is_word : ℕ → Bool) where
  -- What stands behind the token in a match: the end, or a character of no word.
  abbrev pub ends_here : List ℕ → Bool
  ends_here [] = true
  ends_here (p ∷ ps) = not (is_word p)

  -- The token and its end at the head of the text.
  abbrev pub token_here : List ℕ → List ℕ → Bool
  token_here [] ps = ends_here ps
  token_here (t ∷ ts) [] = false
  token_here (t ∷ ts) (p ∷ ps) = nat_beq t p && token_here ts ps

  -- Behind some character of no word.
  abbrev pub token_behind : List ℕ → List ℕ → Bool
  token_behind ts [] = false
  token_behind ts (p ∷ ps) = (not (is_word p) && token_here ts ps) || token_behind ts ps

  -- `tokenAppearsIn`
  unfoldable pub token_appears_in : Text → Text → Bool
  token_appears_in token [] = false
  token_appears_in token (c ∷ cs) =
      if is_cjk_dominated token
      then includes token (c ∷ cs)
      else token_here (points token) (points (c ∷ cs))
        || token_behind (points token) (points (c ∷ cs))
