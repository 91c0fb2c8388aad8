-- ===== src/Transcript/Tests.antt =====
-- Readings of small transcripts. Two tables stand for `JSON.parse` and `Date.parse`.
use caveat.Common.{
  ℕ, ◌+◌, ◌≡◌, ◌↔◌, refl, true, false, Option, none, some, List, [], ◌∷◌, Text, codes, any, split,
  join, nat_beq, list_eq, nat_eq, length,
}
use caveat.Common.Maps.{get, IsDistinct, has}
use caveat.Json.{Json, null, bool, int, str, arr, obj, nil, cons, end, field}
use caveat.Transcript.{
  note_time, bump_nonempty, push_snippet, parse_timestamp, bump, compact_text, SessionSignals,
  throws, signals, Tally, empty_tally, finish, has_any_struggle_signal, or_zero,
}
use caveat.Transcript.Claude.{
  content_items, line_content, extract_result_text, read_session_signals, transcript_lines,
}
use caveat.Transcript.Codex.{
  CodexTally, empty_codex, parse_args, extract_command, extract_exit_code, add_queries,
}
use caveat.Transcript.Codex.Reader.{
  codex_value, function_call, tool_effect, function_call_output, exec_command_end, fail, note_stamp,
  read_codex_session_signals, codex_lines, count_calls,
}
use caveat.Transcript.Counts.{count, calls, edits, runs, fails, blocks, transcript_lines-count}
use caveat.Transcript.Limits.{IsWithinLimits, read_session_signals-IsWithinLimits}
use caveat.Transcript.Gate.{Struggles, has_any_struggle_signal_iff}
use caveat.Transcript.Throws.{null_line, read_session_signals-throws_iff}
use caveat.Transcript.Codex.Failures.{reports, anonymous, values, codex_lines-failures}
use caveat.Transcript.Codex.Commands.{count_calls-idle_after}
use caveat.Transcript.Codex.Bounds.{read_codex_session_signals-IsWithinLimits}

claude : Unit {0}
unfolding read_session_signals finish content_items line_content note_time bump_nonempty
    push_snippet parse_timestamp bump compact_text extract_result_text
claude = tt

codex : Unit {0}
unfolding claude read_codex_session_signals codex_value function_call tool_effect parse_args
    extract_command function_call_output exec_command_end extract_exit_code fail add_queries
    count_calls note_stamp
codex = tt

abbrev edit_block : Json
edit_block = obj (
    field (codes "type") (str (codes "tool_use")) (
      field (codes "name") (str (codes "Edit"))
        (field (codes "input") (obj (field (codes "file_path") (str (codes "a.ts")) end)) end)))

abbrev failed_block : Json
failed_block = obj (
    field (codes "type") (str (codes "tool_result")) (
      field (codes "is_error") (bool true)
        (field (codes "content") (str (codes "  no   such file ")) end)))

abbrev assistant : Json
assistant = obj (
    field (codes "type") (str (codes "assistant")) (
      field (codes "timestamp") (str (codes "t1")) (
        field (codes "message")
          (obj (
            field (codes "content")
              (arr (cons edit_block (cons failed_block (cons edit_block nil)))) end))
          end)))

abbrev call_line : Json
call_line = obj (
    field (codes "type") (str (codes "response_item")) (
      field (codes "payload")
        (obj (
          field (codes "type") (str (codes "function_call")) (
            field (codes "name") (str (codes "exec_command")) (
              field (codes "call_id") (str (codes "c1")) (
                field (codes "arguments") (obj (field (codes "cmd") (str (codes "make")) end))
                  end)))))
        end))

abbrev output_line : Json
output_line = obj (
    field (codes "type") (str (codes "response_item")) (
      field (codes "payload")
        (obj (
          field (codes "type") (str (codes "function_call_output")) (
            field (codes "call_id") (str (codes "c1"))
              (field (codes "output") (str (codes "Process exited with code 2")) end))))
        end))

abbrev end_line : Json
end_line = obj (
    field (codes "type") (str (codes "event_msg")) (
      field (codes "payload")
        (obj (
          field (codes "type") (str (codes "exec_command_end")) (
            field (codes "call_id") (str (codes "c1"))
              (field (codes "exit_code") (int false 2) end))))
        end))

abbrev table : List (Text × Json)
table =
    (codes "A", assistant)
    ∷ (codes "null", null)
    ∷ (codes "C", call_line)
    ∷ (codes "O", output_line)
    ∷ (codes "E", end_line)
    ∷ []

abbrev json_parse : Text → Option Json
json_parse t = get t table

abbrev date_parse : Text → Option ℕ
date_parse t = get t ((codes "t1", 60000) ∷ [])

abbrev file : Text
file = join (10 ∷ []) (codes "A" ∷ codes "garbage" ∷ [] ∷ [])

abbrev found : SessionSignals
found = record {
  tool_failure_count = 1;
  file_edit_counts = (codes "a.ts", 2) ∷ [];
  web_search_count = 0;
  web_fetch_count = 0;
  bash_retry_count = 0;
  duration_minutes = 0;
  error_snippets = codes "no such file" ∷ [];
  search_queries = [];
}

claude_run : read_session_signals json_parse date_parse (some file) ≡ signals found
unfolding claude
claude_run = refl

read_session_signals-IsWithinLimits_example : IsWithinLimits found
read_session_signals-IsWithinLimits_example =
    read_session_signals-IsWithinLimits json_parse date_parse (some file) claude_run

has_any_struggle_signal_iff_example :
    (has_any_struggle_signal found ≡ true)
    ↔ Struggles (blocks json_parse (split (λ c. nat_beq c 10) file))
has_any_struggle_signal_iff_example =
    has_any_struggle_signal_iff json_parse date_parse file claude_run

-- A line `null` behind a good line.
abbrev null_file : Text
null_file = join (10 ∷ []) (codes "A" ∷ codes "null" ∷ [])

null_run : read_session_signals json_parse date_parse (some null_file) ≡ throws
unfolding claude
null_run = refl

read_session_signals-throws_iff_example :
    (read_session_signals json_parse date_parse (some null_file) ≡ throws)
    ↔ (any (null_line json_parse) (split (λ c. nat_beq c 10) null_file) ≡ true)
read_session_signals-throws_iff_example =
    read_session_signals-throws_iff json_parse date_parse null_file

abbrev lines : List Text
lines = codes "A" ∷ codes "garbage" ∷ []

abbrev tally : Tally
tally = record {
  edit_counts = (codes "a.ts", 2) ∷ [];
  bash_counts = [];
  error_snippets = codes "no such file" ∷ [];
  search_queries = [];
  tool_failure_count = 1;
  web_search_count = 0;
  web_fetch_count = 0;
  first_ts = some 60000;
  last_ts = some 60000;
}

lines_run : transcript_lines json_parse date_parse lines empty_tally ≡ some tally
unfolding claude
lines_run = refl

transcript_lines-count_example :
    (let content = blocks json_parse lines in
      (or_zero (get (codes "a.ts") tally.edit_counts) ≡ count (edits (codes "a.ts")) content)
      × (or_zero (get (codes "ls") tally.bash_counts) ≡ count (runs (codes "ls")) content)
      × (tally.web_search_count ≡ count (calls (codes "WebSearch")) content)
      × (tally.web_fetch_count ≡ count (calls (codes "WebFetch")) content)
      × (tally.tool_failure_count ≡ count fails content))
transcript_lines-count_example =
    transcript_lines-count json_parse date_parse lines tally (codes "a.ts") (codes "ls") (λ e. cc)
      (λ e. cc) lines_run

-- One call, whose failure is reported twice.
abbrev codex_file : List Text
codex_file = codes "C" ∷ codes "O" ∷ codes "E" ∷ []

abbrev codex_end : CodexTally
codex_end = record {
  tally = record {
    edit_counts = [];
    bash_counts = (codes "make", 1) ∷ [];
    error_snippets = codes "Process exited with code 2" ∷ [];
    search_queries = [];
    tool_failure_count = 1;
    web_search_count = 0;
    web_fetch_count = 0;
    first_ts = none;
    last_ts = none;
  };
  tool_calls =
      (
        codes "c1",
        record {
          name = codes "exec_command";
          args = field (codes "cmd") (str (codes "make")) end;
          command = some (codes "make");
        },
      )
      ∷ [];
  failed_call_ids = codes "c1" ∷ [];
}

codex_run : codex_lines json_parse date_parse codex_file empty_codex ≡ some codex_end
unfolding codex
codex_run = refl

codex_lines-failures_example :
    IsDistinct codex_end.failed_call_ids
    × (has (codes "c1") codex_end.failed_call_ids
        ≡ any (reports (codes "c1")) (values json_parse codex_file))
    × (codex_end.tally.tool_failure_count
        ≡ length codex_end.failed_call_ids + count anonymous (values json_parse codex_file))
codex_lines-failures_example =
    codex_lines-failures json_parse date_parse codex_file codex_end (codes "c1") (λ e. cc) codex_run

count_calls-idle_after_example :
    count_calls codex_end.tool_calls codex_end.tally.bash_counts ≡ codex_end.tally.bash_counts
count_calls-idle_after_example =
    count_calls-idle_after json_parse date_parse codex_file codex_end codex_run

abbrev codex_found : SessionSignals
codex_found = record {
  tool_failure_count = 1;
  file_edit_counts = [];
  web_search_count = 0;
  web_fetch_count = 0;
  bash_retry_count = 0;
  duration_minutes = 0;
  error_snippets = codes "Process exited with code 2" ∷ [];
  search_queries = [];
}

codex_read :
    read_codex_session_signals json_parse date_parse (some (join (10 ∷ []) codex_file))
    ≡ signals codex_found
unfolding codex
codex_read = refl

read_codex_session_signals-IsWithinLimits_example : IsWithinLimits codex_found
read_codex_session_signals-IsWithinLimits_example =
    read_codex_session_signals-IsWithinLimits json_parse date_parse
      (some (join (10 ∷ []) codex_file)) codex_read
