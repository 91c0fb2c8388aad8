-- ===== src/Transcript.antt =====
-- What packages/core/src/transcriptSignals.ts and codexTranscriptSignals.ts share: the result, the
-- limits and the helpers that both files hold a copy of.
pub mod Claude
pub mod Codex
pub mod Counts
pub mod Limits
pub mod Gate
pub mod Throws
mod Tests
use caveat.Common.{
  ℕ, zero, suc, ◌+◌, ◌-◌, ◌/◌, Bool, true, false, ◌||◌, ◌&&◌, Option, none, some, List, [], ◌∷◌,
  ◌++◌, map, Text, codes, take, select, length, ltb, if◌then◌else◌, sort_desc, join, one_spaces,
  trim, list_eq, nat_eq,
}
use caveat.Common.Maps.{get, put}
use caveat.Json.{Json, str}

abbrev pub max_error_snippets : ℕ
max_error_snippets = 10

abbrev pub max_error_snippet_length : ℕ
max_error_snippet_length = 300

abbrev pub max_search_queries : ℕ
max_search_queries = 10

abbrev pub max_search_query_length : ℕ
max_search_query_length = 200

abbrev pub max_file_edit_entries : ℕ
max_file_edit_entries = 20

pub record SessionSignals : Type 0 where
  pub tool_failure_count : ℕ
  pub file_edit_counts : List (Text × ℕ)
  pub web_search_count : ℕ
  pub web_fetch_count : ℕ
  pub bash_retry_count : ℕ
  pub duration_minutes : ℕ
  pub error_snippets : List Text
  pub search_queries : List Text

-- What a reader returns: `null`, the signals, or a thrown `TypeError`.
pub data Reading : Type 0 where
  absent throws : Reading
  signals : SessionSignals → Reading

-- The variables of a reader's loop; `Map`s are association lists in insertion order.
pub record Tally : Type 0 where
  pub edit_counts : List (Text × ℕ)
  pub bash_counts : List (Text × ℕ)
  pub error_snippets : List Text
  pub search_queries : List Text
  pub tool_failure_count : ℕ
  pub web_search_count : ℕ
  pub web_fetch_count : ℕ
  pub first_ts : Option ℕ
  pub last_ts : Option ℕ

abbrev pub empty_tally : Tally
empty_tally = record {
  edit_counts = [];
  bash_counts = [];
  error_snippets = [];
  search_queries = [];
  tool_failure_count = 0;
  web_search_count = 0;
  web_fetch_count = 0;
  first_ts = none;
  last_ts = none;
}

abbrev pub or_zero : Option ℕ → ℕ
or_zero none = 0
or_zero (some n) = n

-- `counts.set(key, (counts.get(key) ?? 0) + 1)`
unfoldable pub bump : Text → List (Text × ℕ) → List (Text × ℕ)
bump key counts = put key (or_zero (get key counts) + 1) counts

-- The same under `if (key)`.
unfoldable pub bump_nonempty : Text → List (Text × ℕ) → List (Text × ℕ)
bump_nonempty [] counts = counts
bump_nonempty (c ∷ cs) counts = bump (c ∷ cs) counts

-- `if (texts.length < limit) texts.push(text.slice(0, size))`
unfoldable pub push_limited : ℕ → ℕ → Text → List Text → List Text
push_limited limit size text texts =
    if ltb (length texts) limit then texts ++ take size text ∷ [] else texts

-- The snippet of a failure: compacted, and dropped if nothing is left.
unfoldable pub push_snippet : Text → List Text → List Text
unfolding push_limited
push_snippet [] snippets = snippets
push_snippet (c ∷ cs) snippets =
    push_limited max_error_snippets max_error_snippet_length (c ∷ cs) snippets

-- `text.replace(/\s+/g, ' ').trim()`
unfoldable pub compact_text : Text → Text
compact_text text = trim (one_spaces false text)

earlier : ℕ → Option ℕ → Option ℕ
earlier ts none = some ts
earlier ts (some first) = if ltb ts first then some ts else some first

later : ℕ → Option ℕ → Option ℕ
later ts none = some ts
later ts (some last) = if ltb last ts then some ts else some last

-- The loop's use of a line's timestamp; `none` is a missing or unparseable one.
unfoldable pub note_time : Option ℕ → Tally → Tally
unfolding earlier later
note_time none t = t
note_time (some ts) t = record t { first_ts = earlier ts t.first_ts; last_ts = later ts t.last_ts }

-- `parseTimestamp`; `date_parse` is `Date.parse`, with `none` for NaN.
unfoldable pub parse_timestamp : (Text → Option ℕ) → Option Json → Option ℕ
parse_timestamp date_parse (some (str raw)) = date_parse raw
parse_timestamp date_parse _ = none

-- `Math.max(0, Math.round((last - first) / 60000))`
unfoldable pub duration : Option ℕ → Option ℕ → ℕ
duration (some first) (some last) = (last - first + 30000) / 60000
duration (some first) none = 0
duration none last = 0

abbrev pub repeated : List (Text × ℕ) → List (Text × ℕ)
repeated counts = select (λ e. ltb 1 e.1) counts

-- What stands behind the loop.
unfoldable pub finish : Tally → SessionSignals
unfolding duration
finish t = record {
  tool_failure_count = t.tool_failure_count;
  file_edit_counts = take max_file_edit_entries (sort_desc (λ e. e.1) (repeated t.edit_counts));
  web_search_count = t.web_search_count;
  web_fetch_count = t.web_fetch_count;
  bash_retry_count = length (repeated t.bash_counts);
  duration_minutes = duration t.first_ts t.last_ts;
  error_snippets = t.error_snippets;
  search_queries = t.search_queries;
}

-- `hasAnyStruggleSignal`
unfoldable pub has_any_struggle_signal : SessionSignals → Bool
has_any_struggle_signal s =
    ltb 0 s.tool_failure_count
    || ltb 0 (length s.file_edit_counts)
    || ltb 0 s.web_search_count
    || ltb 0 s.web_fetch_count
    || ltb 0 s.bash_retry_count

-- `struggleSearchText`
unfoldable pub struggle_search_text : SessionSignals → Text
struggle_search_text s = join (codes " ") (s.error_snippets ++ s.search_queries)
