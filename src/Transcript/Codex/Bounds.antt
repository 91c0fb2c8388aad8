-- ===== src/Transcript/Codex/Bounds.antt =====
-- The limits on what `readCodexSessionSignals` returns.
use mathlib.Core.Path.{subst}
use caveat.Common.{
  ℕ, ◌≤◌, ◌≡◌, Option, none, some, List, [], ◌∷◌, Text, codes, split, nat_beq, list_eq, nat_eq,
  length, arith, Option-cases, inl, inr, some-injective, All,
}
use caveat.Json.{Json, obj, null, Fields, prop}
use caveat.Transcript.{SessionSignals, signals, Tally, finish, compact_text}
use caveat.Transcript.Limits.{
  IsBounded, IsWithinLimits, push_limited-length, push_limited-All, push_snippet-length,
  push_snippet-All, note_time-IsBounded, empty_tally-IsBounded, finish-IsWithinLimits,
}
use caveat.Transcript.Codex.{
  CodexTally, empty_codex, text_of, text_list, add_query, add_queries, collect_search_queries,
}
use caveat.Transcript.Codex.Reader.{
  tool_effect, function_call, web_search_call, fail, function_call_output, exec_command_end,
  codex_payload, on_payload, codex_value, codex_parsed, codex_lines, count_calls,
  read_codex_session_signals,
}

add_queries-length :
    (qs queries : List Text) → length queries ≤ 10 → length (add_queries qs queries) ≤ 10
unfolding add_queries
add_queries-length [] queries h = h
add_queries-length (q ∷ qs) queries h =
    add_queries-length qs (add_query q queries) (push_limited-length 10 200 q queries h)

add_queries-All :
    (qs queries : List Text)
    → All (λ q. length q ≤ 200) queries
    → All (λ q. length q ≤ 200) (add_queries qs queries)
unfolding add_queries
add_queries-All [] queries h = h
add_queries-All (q ∷ qs) queries h =
    add_queries-All qs (add_query q queries) (push_limited-All 10 200 q queries h)

fail-IsBounded : (output : Text) (t : Tally) → IsBounded t → IsBounded (fail output t)
unfolding fail
fail-IsBounded output t b = record {
  snippets = push_snippet-length (compact_text output) t.error_snippets b.snippets;
  snippet = push_snippet-All (compact_text output) t.error_snippets b.snippet;
  queries = b.queries;
  query = b.query;
}

tool_effect-IsBounded :
    (name : Text) (args : Fields) (t : Tally) → IsBounded t → IsBounded (tool_effect name args t)
unfolding tool_effect
tool_effect-IsBounded name args t b =
    let qs = collect_search_queries args in
    ground (
      arith,
      add_queries-length qs t.search_queries b.queries,
      add_queries-All qs t.search_queries b.query,
    )

function_call-IsBounded :
    (json_parse : Text → Option Json) (payload : Fields) (s : CodexTally)
    → IsBounded s.tally
    → IsBounded (function_call json_parse payload s).tally
unfolding function_call
function_call-IsBounded json_parse payload s b =
    tool_effect-IsBounded _ _ _
      (record { snippets = b.snippets; snippet = b.snippet; queries = b.queries; query = b.query })

web_search_call-IsBounded :
    (payload : Fields) (s : CodexTally)
    → IsBounded s.tally
    → IsBounded (web_search_call payload s).tally
unfolding web_search_call
web_search_call-IsBounded payload s b =
    let qs = text_list (prop (codes "query") payload) in
    record {
      snippets = b.snippets;
      snippet = b.snippet;
      queries = add_queries-length qs s.tally.search_queries b.queries;
      query = add_queries-All qs s.tally.search_queries b.query;
    }

codex_payload-IsBounded :
    (json_parse : Text → Option Json) (type : Option Json) (payload : Fields) (s : CodexTally)
    → IsBounded s.tally
    → IsBounded (codex_payload json_parse type payload s).tally
unfolding codex_payload function_call_output exec_command_end
codex_payload-IsBounded json_parse type payload s b =
    let output = text_of (prop (codes "output") payload) in
    ground (
      arith,
      function_call-IsBounded json_parse payload s b,
      web_search_call-IsBounded payload s b,
      fail-IsBounded output s.tally b,
    )

codex_value-IsBounded :
    (json_parse : Text → Option Json) (v : Json) (s : CodexTally)
    → IsBounded s.tally
    → IsBounded (codex_value json_parse v s).tally
unfolding codex_value
codex_value-IsBounded json_parse (obj line) s h =
    on_payload-IsBounded (prop (codes "type") line) (prop (codes "payload") line)
  where
    on_payload-IsBounded :
        (type payload : Option Json) → IsBounded (on_payload json_parse type payload s).tally
    on_payload-IsBounded type (some (obj payload)) =
        codex_payload-IsBounded json_parse type payload s h
    on_payload-IsBounded type none = h
    on_payload-IsBounded type _ = h
codex_value-IsBounded json_parse null s h = h
codex_value-IsBounded json_parse _ s h = h

module _ (json_parse : Text → Option Json) (date_parse : Text → Option ℕ) where
  codex_parsed-IsBounded :
      (v : Json) (s : CodexTally) {u : CodexTally}
      → codex_parsed json_parse date_parse v s ≡ some u
      → IsBounded s.tally
      → IsBounded u.tally
  unfolding codex_parsed
  codex_parsed-IsBounded null s e h = cc
  codex_parsed-IsBounded v s e h =
      subst (λ x. IsBounded x.tally) (some-injective e)
        (codex_value-IsBounded json_parse v _ (note_time-IsBounded _ s.tally h))

  codex_lines-IsBounded :
      (lines : List Text) (s u : CodexTally)
      → codex_lines json_parse date_parse lines s ≡ some u
      → IsBounded s.tally
      → IsBounded u.tally
  unfolding codex_lines
  codex_lines-IsBounded [] s u e h = subst (λ x. IsBounded x.tally) (some-injective e) h
  codex_lines-IsBounded ([] ∷ lines) s u e h = codex_lines-IsBounded lines s u e h
  codex_lines-IsBounded ((c ∷ cs) ∷ lines) s u e h = elim (Option-cases (json_parse (c ∷ cs))) [
    | inl bad ↦ codex_lines-IsBounded lines s u (ground arith) h
    | inr (v, good) ↦ elim (Option-cases (codex_parsed json_parse date_parse v s)) [
      | inl thrown ↦ absurd (ground arith)
      | inr (t, fine) ↦
          codex_lines-IsBounded lines t u (ground arith) (codex_parsed-IsBounded v s fine h)
    ]
  ]

  -- A Codex rollout gives a result within the same limits as a Claude transcript.
  pub read_codex_session_signals-IsWithinLimits :
      (file : Option Text) {r : SessionSignals}
      → read_codex_session_signals json_parse date_parse file ≡ signals r
      → IsWithinLimits r
  unfolding read_codex_session_signals
  read_codex_session_signals-IsWithinLimits none e = cc
  read_codex_session_signals-IsWithinLimits (some raw) {r} e =
      let lines = split (λ c. nat_beq c 10) raw in
      elim (Option-cases (codex_lines json_parse date_parse lines empty_codex)) [
        | inl thrown ↦ absurd (ground arith)
        | inr (s, fine) ↦
            let t = s.tally in
            let done : Tally = record t { bash_counts = count_calls s.tool_calls t.bash_counts } in
            let b = codex_lines-IsBounded lines empty_codex s fine empty_tally-IsBounded in
            let same : finish done ≡ r = ground arith in
            subst IsWithinLimits same (
              finish-IsWithinLimits done (record {
                snippets = b.snippets;
                snippet = b.snippet;
                queries = b.queries;
                query = b.query;
              }))
      ]
