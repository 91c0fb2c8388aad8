-- ===== src/Transcript/Claude.antt =====
-- `readSessionSignals` of packages/core/src/transcriptSignals.ts: a Claude Code transcript.
use caveat.Common.{
  ℕ, ◌+◌, ◌||◌, Option, none, some, List, [], ◌∷◌, Text, codes, if◌then◌else◌, join, split, nat_beq,
  list_eq, nat_eq,
}
use caveat.Json.{Json, str, arr, obj, null, Fields, items, prop, fields_of, is_text, is_true}
use caveat.Transcript.{
  Reading, absent, throws, signals, Tally, empty_tally, bump_nonempty, push_limited, push_snippet,
  compact_text, note_time, parse_timestamp, finish, max_search_queries, max_search_query_length,
}

-- The texts of a result that is an array of content blocks.
block_texts : List Json → List Text
block_texts [] = []
block_texts (obj fs ∷ blocks) =
    let more = block_texts blocks in
    elim (prop (codes "text") fs) [ some (str t) ↦ t ∷ more | _ ↦ more ]
block_texts (_ ∷ blocks) = block_texts blocks

-- `extractResultText`
unfoldable pub extract_result_text : Option Json → Text
unfolding block_texts
extract_result_text (some (str t)) = t
extract_result_text (some (arr blocks)) = join (codes " ") (block_texts (items blocks))
extract_result_text _ = []

-- `typeof input[key] === 'string' ? input[key] : ''`
abbrev pub text_prop : Text → Fields → Text
text_prop key fs = elim (prop key fs) [ some (str t) ↦ t | _ ↦ [] ]

unfoldable pub search : Option Json → Tally → Tally
search (some (str query)) t = record t {
  web_search_count = t.web_search_count + 1;
  search_queries = push_limited max_search_queries max_search_query_length query t.search_queries;
}
search _ t = record t { web_search_count = t.web_search_count + 1 }

-- A `tool_use` block: the tool's name, and its input.
unfoldable pub tool_use : Option Json → Fields → Tally → Tally
tool_use name input t =
    if is_text name (codes "Edit")
      || is_text name (codes "Write")
      || is_text name (codes "NotebookEdit")
    then record t {
      edit_counts = bump_nonempty (text_prop (codes "file_path") input) t.edit_counts;
    }
    else if is_text name (codes "WebSearch")
    then search (prop (codes "query") input) t
    else if is_text name (codes "WebFetch")
    then record t { web_fetch_count = t.web_fetch_count + 1 }
    else if is_text name (codes "Bash")
    then record t { bash_counts = bump_nonempty (text_prop (codes "command") input) t.bash_counts }
    else t

-- A `tool_result` block.
unfoldable pub tool_result : Fields → Tally → Tally
tool_result item t =
    if is_true (prop (codes "is_error") item)
    then record t {
      tool_failure_count = t.tool_failure_count + 1;
      error_snippets =
          push_snippet (compact_text (extract_result_text (prop (codes "content") item)))
            t.error_snippets;
    }
    else t

-- One round of the loop over the content.
unfoldable pub content_item : Json → Tally → Tally
unfolding search tool_use tool_result
content_item (obj item) t =
    if is_text (prop (codes "type") item) (codes "tool_use")
    then tool_use (prop (codes "name") item) (fields_of (prop (codes "input") item)) t
    else if is_text (prop (codes "type") item) (codes "tool_result")
    then tool_result item t
    else t
content_item _ t = t

unfoldable pub content_items : List Json → Tally → Tally
unfolding content_item
content_items [] t = t
content_items (item ∷ rest) t = content_items rest (content_item item t)

-- `parsed.message?.content`, where it is an array, on a line of the assistant or the user.
unfoldable pub line_content : Json → List Json
line_content (obj line) =
    if is_text (prop (codes "type") line) (codes "assistant")
      || is_text (prop (codes "type") line) (codes "user")
    then elim (prop (codes "content") (fields_of (prop (codes "message") line))) [
      | some (arr content) ↦ items content
      | _ ↦ []
    ]
    else []
line_content _ = []

-- `parsed.timestamp`, undefined on a value that is no object.
abbrev pub stamp_of : Json → Option Json
stamp_of (obj line) = prop (codes "timestamp") line
stamp_of _ = none

module _ (json_parse : Text → Option Json) (date_parse : Text → Option ℕ) where
  -- A line that `JSON.parse` accepted. Reading a property of `null` throws.
  unfoldable pub parsed_line : Json → Tally → Option Tally
  parsed_line null t = none
  parsed_line v t =
      some (content_items (line_content v) (note_time (parse_timestamp date_parse (stamp_of v)) t))

  -- One round of the loop over the lines: empty lines and what is no JSON are passed over.
  unfoldable pub transcript_line : Text → Tally → Option Tally
  unfolding parsed_line
  transcript_line [] t = some t
  transcript_line (c ∷ cs) t = elim (json_parse (c ∷ cs)) [
    | none ↦ some t
    | some v ↦ parsed_line v t
  ]

  unfoldable pub transcript_lines : List Text → Tally → Option Tally
  unfolding transcript_line
  transcript_lines [] t = some t
  transcript_lines (line ∷ lines) t = elim (transcript_line line t) [
    | none ↦ none
    | some t' ↦ transcript_lines lines t'
  ]

  reading : Option Tally → Reading
  reading none = throws
  reading (some t) = signals (finish t)

  -- `readSessionSignals`, given the text of the file; `none` is a path that is empty, absent or
  -- unreadable.
  unfoldable pub read_session_signals : Option Text → Reading
  unfolding transcript_lines reading
  read_session_signals none = absent
  read_session_signals (some raw) =
      reading (transcript_lines (split (λ c. nat_beq c 10) raw) empty_tally)
