-- ===== src/Transcript/Limits.antt =====
-- The limits on what a reader returns, and the gate on it.
use mathlib.Core.Path.{subst}
use caveat.Common.{
  split, nat_beq, ℕ, zero, suc, ◌<◌, ◌≤◌, ◌≡◌, inl, inr, Option, none, some, List, [], ◌∷◌, Text,
  codes, list_eq, nat_eq, arith, Bool-cases, Option-cases, All, All-take, All-append, length, take,
  length-take-le, length-append, ltb, ltb→lt, sort_desc, sort_desc-All, IsDescending,
  sort_desc-IsDescending, some-injective,
}
use caveat.Json.{Json, str, obj, null, Fields, prop, fields_of}
use caveat.Transcript.{
  SessionSignals, signals, Tally, empty_tally, push_limited, push_snippet, compact_text, note_time,
  finish, repeated,
}
use caveat.Transcript.Claude.{
  search, tool_use, tool_result, extract_result_text, content_item, content_items, line_content,
  parsed_line, transcript_lines, read_session_signals,
}

-- The lists of snippets and queries keep to their limits.
pub record IsBounded (t : Tally) : Type 0 where
  pub snippets : length t.error_snippets ≤ 10
  pub snippet : All (λ s. length s ≤ 300) t.error_snippets
  pub queries : length t.search_queries ≤ 10
  pub query : All (λ q. length q ≤ 200) t.search_queries

pub push_limited-length :
    (limit size : ℕ) (text : Text) (texts : List Text)
    → length texts ≤ limit
    → length (push_limited limit size text texts) ≤ limit
unfolding push_limited
push_limited-length limit size text texts h =
    ground (arith, length-append texts (take size text ∷ []))

pub push_limited-All :
    (limit size : ℕ) (text : Text) (texts : List Text)
    → All (λ t. length t ≤ size) texts
    → All (λ t. length t ≤ size) (push_limited limit size text texts)
unfolding push_limited
push_limited-All limit size text texts h = elim (Bool-cases (ltb (length texts) limit)) [
  | inl e ↦ rw e (
      All-append (λ t. length t ≤ size) texts (take size text ∷ []) h
        (length-take-le size text, tt))
  | inr e ↦ rw e h
]

pub push_snippet-length :
    (text : Text) (texts : List Text) → length texts ≤ 10 → length (push_snippet text texts) ≤ 10
unfolding push_snippet
push_snippet-length [] texts h = h
push_snippet-length (c ∷ cs) texts h = push_limited-length 10 300 (c ∷ cs) texts h

pub push_snippet-All :
    (text : Text) (texts : List Text)
    → All (λ t. length t ≤ 300) texts
    → All (λ t. length t ≤ 300) (push_snippet text texts)
unfolding push_snippet
push_snippet-All [] texts h = h
push_snippet-All (c ∷ cs) texts h = push_limited-All 10 300 (c ∷ cs) texts h

search-IsBounded : (query : Option Json) (t : Tally) → IsBounded t → IsBounded (search query t)
unfolding search
search-IsBounded (some (str q)) t b = record {
  snippets = b.snippets;
  snippet = b.snippet;
  queries = push_limited-length 10 200 q t.search_queries b.queries;
  query = push_limited-All 10 200 q t.search_queries b.query;
}
search-IsBounded none t b = record {
  snippets = b.snippets;
  snippet = b.snippet;
  queries = b.queries;
  query = b.query;
}
search-IsBounded _ t b = record {
  snippets = b.snippets;
  snippet = b.snippet;
  queries = b.queries;
  query = b.query;
}

tool_use-IsBounded :
    (name : Option Json) (input : Fields) (t : Tally)
    → IsBounded t
    → IsBounded (tool_use name input t)
unfolding tool_use
tool_use-IsBounded name input t b =
    ground (arith, search-IsBounded (prop (codes "query") input) t b)

tool_result-IsBounded : (item : Fields) (t : Tally) → IsBounded t → IsBounded (tool_result item t)
unfolding tool_result
tool_result-IsBounded item t b =
    let text = compact_text (extract_result_text (prop (codes "content") item)) in
    ground (
      arith,
      push_snippet-length text t.error_snippets b.snippets,
      push_snippet-All text t.error_snippets b.snippet,
    )

content_item-IsBounded : (block : Json) (t : Tally) → IsBounded t → IsBounded (content_item block t)
unfolding content_item
content_item-IsBounded (obj item) t b = ground (
  arith,
  tool_use-IsBounded (prop (codes "name") item) (fields_of (prop (codes "input") item)) t b,
  tool_result-IsBounded item t b,
)
content_item-IsBounded null t b = b
content_item-IsBounded _ t b = b

content_items-IsBounded :
    (content : List Json) (t : Tally) → IsBounded t → IsBounded (content_items content t)
unfolding content_items
content_items-IsBounded [] t b = b
content_items-IsBounded (block ∷ rest) t b =
    content_items-IsBounded rest (content_item block t) (content_item-IsBounded block t b)

pub note_time-IsBounded : (ts : Option ℕ) (t : Tally) → IsBounded t → IsBounded (note_time ts t)
unfolding note_time
note_time-IsBounded none t b = b
note_time-IsBounded (some ts) t b = record {
  snippets = b.snippets;
  snippet = b.snippet;
  queries = b.queries;
  query = b.query;
}

pub empty_tally-IsBounded : IsBounded empty_tally
empty_tally-IsBounded = record {
  snippets = omega arith;
  snippet = tt;
  queries = omega arith;
  query = tt;
}

-- What a caller may rely on.
pub record IsWithinLimits (s : SessionSignals) : Type 0 where
  pub snippets : length s.error_snippets ≤ 10
  pub snippet : All (λ t. length t ≤ 300) s.error_snippets
  pub queries : length s.search_queries ≤ 10
  pub query : All (λ q. length q ≤ 200) s.search_queries
  pub files : length s.file_edit_counts ≤ 20
  pub repeats : All (λ e. 1 < e.1) s.file_edit_counts
  pub descending : IsDescending (λ e. e.1) s.file_edit_counts

repeated-All : (counts : List (Text × ℕ)) → All (λ e. 1 < e.1) (repeated counts)
repeated-All [] = tt
repeated-All (e ∷ counts) = elim (Bool-cases (ltb 1 e.1)) [
  | inl h ↦ rw h (ltb→lt 1 e.1 h, repeated-All counts)
  | inr h ↦ rw h (repeated-All counts)
]

IsDescending-take :
    (n : ℕ) (es : List (Text × ℕ))
    → IsDescending (λ e. e.1) es
    → IsDescending (λ e. e.1) (take n es)
IsDescending-take zero es d = tt
IsDescending-take (suc n) [] d = tt
IsDescending-take (suc n) (e ∷ es) (h, d) =
    (All-take (λ y. y.1 ≤ e.1) n es h, IsDescending-take n es d)

pub finish-IsWithinLimits : (t : Tally) → IsBounded t → IsWithinLimits (finish t)
unfolding finish
finish-IsWithinLimits t b =
    let sorted = sort_desc (λ e. e.1) (repeated t.edit_counts) in
    record {
      snippets = b.snippets;
      snippet = b.snippet;
      queries = b.queries;
      query = b.query;
      files = length-take-le 20 sorted;
      repeats =
          All-take (λ e. 1 < e.1) 20 sorted
            (sort_desc-All (λ e. e.1) (λ e. 1 < e.1) (repeated t.edit_counts)
              (repeated-All t.edit_counts));
      descending =
          IsDescending-take 20 sorted (sort_desc-IsDescending (λ e. e.1) (repeated t.edit_counts));
    }

module _ (json_parse : Text → Option Json) (date_parse : Text → Option ℕ) where
  parsed_line-IsBounded :
      (v : Json) (t : Tally) {u : Tally}
      → parsed_line json_parse date_parse v t ≡ some u
      → IsBounded t
      → IsBounded u
  unfolding parsed_line
  parsed_line-IsBounded null t e b = cc
  parsed_line-IsBounded v t e b =
      subst IsBounded (some-injective e)
        (content_items-IsBounded (line_content v) _ (note_time-IsBounded _ t b))

  transcript_lines-IsBounded :
      (lines : List Text) (t : Tally) {u : Tally}
      → transcript_lines json_parse date_parse lines t ≡ some u
      → IsBounded t
      → IsBounded u
  unfolding transcript_lines
  transcript_lines-IsBounded [] t e b = subst IsBounded (some-injective e) b
  transcript_lines-IsBounded ([] ∷ lines) t e b = transcript_lines-IsBounded lines t e b
  transcript_lines-IsBounded ((c ∷ cs) ∷ lines) t {u} e b =
      elim (Option-cases (json_parse (c ∷ cs))) [
        | inl bad ↦ transcript_lines-IsBounded lines t (ground arith) b
        | inr (v, good) ↦ elim (Option-cases (parsed_line json_parse date_parse v t)) [
          | inl thrown ↦ absurd (ground arith)
          | inr (s, fine) ↦
              transcript_lines-IsBounded lines s (ground arith) (parsed_line-IsBounded v t fine b)
        ]
      ]

  -- Whatever the transcript holds, a result has at most ten snippets of at most 300 characters, ten
  -- queries of at most 200, and twenty files, each edited more than once, most edited first.
  pub read_session_signals-IsWithinLimits :
      (file : Option Text) {s : SessionSignals}
      → read_session_signals json_parse date_parse file ≡ signals s
      → IsWithinLimits s
  unfolding read_session_signals
  read_session_signals-IsWithinLimits none e = cc
  read_session_signals-IsWithinLimits (some raw) {s} e =
      elim (Option-cases
        (transcript_lines json_parse date_parse (split (λ c. nat_beq c 10) raw) empty_tally)) [
          | inl thrown ↦ absurd (ground arith)
          | inr (t, fine) ↦
              let same : finish t ≡ s = ground arith in
              subst IsWithinLimits same (
                finish-IsWithinLimits t (
                  transcript_lines-IsBounded (split (λ c. nat_beq c 10) raw) empty_tally fine
                    empty_tally-IsBounded))
        ]
