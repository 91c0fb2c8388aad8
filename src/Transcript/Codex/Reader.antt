-- ===== src/Transcript/Codex/Reader.antt =====
-- The loop of `readCodexSessionSignals`, one handler for each kind of line.
use caveat.Common.{
  ℕ, ◌+◌, Bool, true, false, not, ◌||◌, ◌&&◌, Option, none, some, List, [], ◌∷◌, Text, codes,
  if◌then◌else◌, split, nat_beq, list_eq, nat_eq, ◌==◌, length,
}
use caveat.Common.Maps.{get, put, has, add}
use caveat.Json.{Json, obj, null, int, fraction, Fields, prop, is_text}
use caveat.Transcript.{
  Reading, absent, throws, signals, Tally, push_snippet, compact_text, note_time, parse_timestamp,
  finish,
}
use caveat.Transcript.Codex.{
  ToolCallInfo, CodexTally, empty_codex, parse_args, extract_exit_code, nullish, extract_command,
  add_edit_path, collect_patch_paths, collect_search_queries, add_queries, bump_all, text_of,
  text_list, array_items, bump_command,
}

-- `if (callId && name) toolCalls.set(...)`
unfoldable pub register_call :
    Text → ToolCallInfo → List (Text × ToolCallInfo) → List (Text × ToolCallInfo)
register_call call_id info calls =
    if not (call_id == []) && not (info.name == []) then put call_id info calls else calls

-- What a call of the named tool does to the counters.
unfoldable pub tool_effect : Text → Fields → Tally → Tally
tool_effect name args t =
    if name == codes "apply_patch"
    then record t {
      edit_counts =
          bump_all (collect_patch_paths (text_of (prop (codes "patch") args))) t.edit_counts;
    }
    else if name == codes "edit" || name == codes "write" || name == codes "notebook_edit"
    then record t {
      edit_counts =
          add_edit_path (nullish (prop (codes "path") args) (prop (codes "file_path") args))
            t.edit_counts;
    }
    else if name == codes "web.run"
    then (let queries = collect_search_queries args in
        record t {
          web_search_count = t.web_search_count + length queries;
          search_queries = add_queries queries t.search_queries;
          web_fetch_count = t.web_fetch_count + length (array_items (prop (codes "open") args));
        })
    else t

unfoldable pub call_info : (Text → Option Json) → Fields → ToolCallInfo
call_info json_parse payload =
    let name = text_of (prop (codes "name") payload) in
    let args = parse_args json_parse (prop (codes "arguments") payload) in
    record { name = name; args = args; command = extract_command name args }

-- A `function_call` item.
unfoldable pub function_call : (Text → Option Json) → Fields → CodexTally → CodexTally
unfolding register_call call_info
function_call json_parse payload s =
    let info = call_info json_parse payload in
    let t = s.tally in
    record s {
      tool_calls = register_call (text_of (prop (codes "call_id") payload)) info s.tool_calls;
      tally =
          tool_effect info.name info.args
            (record t { bash_counts = bump_command info.command t.bash_counts });
    }

-- A `web_search_call` item.
unfoldable pub web_search_call : Fields → CodexTally → CodexTally
web_search_call payload s =
    let t = s.tally in
    record s {
      tally = record t {
        web_search_count = t.web_search_count + 1;
        search_queries = add_queries (text_list (prop (codes "query") payload)) t.search_queries;
      };
    }

-- One more failure, with the snippet of its output.
unfoldable pub fail : Text → Tally → Tally
fail output t = record t {
  tool_failure_count = t.tool_failure_count + 1;
  error_snippets = push_snippet (compact_text output) t.error_snippets;
}

-- `exit !== null && exit !== 0`
abbrev pub exited_badly : Option (Bool × ℕ) → Bool
exited_badly none = false
exited_badly (some (negative, size)) = not (nat_beq size 0)

-- A `function_call_output` item.
unfoldable pub function_call_output : Fields → CodexTally → CodexTally
function_call_output payload s =
    let call_id = text_of (prop (codes "call_id") payload) in
    let output = text_of (prop (codes "output") payload) in
    if not (call_id == [])
      && exited_badly (extract_exit_code output)
      && not (has call_id s.failed_call_ids)
    then record s { failed_call_ids = add call_id s.failed_call_ids; tally = fail output s.tally }
    else s

-- `typeof exit_code === 'number'` and not 0.
abbrev pub bad_code : Option Json → Bool
bad_code (some (int negative size)) = not (nat_beq size 0)
bad_code (some fraction) = true
bad_code _ = false

-- An `exec_command_end` message.
unfoldable pub exec_command_end : Fields → CodexTally → CodexTally
exec_command_end payload s =
    let call_id = text_of (prop (codes "call_id") payload) in
    if bad_code (prop (codes "exit_code") payload)
      && (call_id == [] || not (has call_id s.failed_call_ids))
    then record s {
      failed_call_ids = if call_id == [] then s.failed_call_ids else add call_id s.failed_call_ids;
      tally = fail (text_of (prop (codes "output") payload)) s.tally;
    }
    else s

-- The branches of the loop's body, by the types of the line and of its payload.
unfoldable pub codex_payload : (Text → Option Json) → Option Json → Fields → CodexTally → CodexTally
codex_payload json_parse type payload s =
    if is_text type (codes "response_item")
      && is_text (prop (codes "type") payload) (codes "function_call")
    then function_call json_parse payload s
    else if is_text type (codes "response_item")
        && is_text (prop (codes "type") payload) (codes "web_search_call")
    then web_search_call payload s
    else if is_text type (codes "response_item")
        && is_text (prop (codes "type") payload) (codes "function_call_output")
    then function_call_output payload s
    else if is_text type (codes "event_msg")
        && is_text (prop (codes "type") payload) (codes "exec_command_end")
    then exec_command_end payload s
    else s

-- `if (!isRecord(parsed.payload)) continue`
unfoldable pub on_payload :
    (Text → Option Json) → Option Json → Option Json → CodexTally → CodexTally
unfolding codex_payload
on_payload json_parse type (some (obj payload)) s = codex_payload json_parse type payload s
on_payload json_parse type _ s = s

-- The payload of a line.
unfoldable pub codex_value : (Text → Option Json) → Json → CodexTally → CodexTally
unfolding on_payload
codex_value json_parse (obj line) s =
    on_payload json_parse (prop (codes "type") line) (prop (codes "payload") line) s
codex_value json_parse _ s = s

abbrev stamp_of : Json → Option Json
stamp_of (obj line) = prop (codes "timestamp") line
stamp_of _ = none

-- The loop over `toolCalls` behind the lines.
unfoldable pub count_calls : List (Text × ToolCallInfo) → List (Text × ℕ) → List (Text × ℕ)
count_calls [] counts = counts
count_calls ((id, info) ∷ calls) counts = count_calls calls (elim info.command [
  | none ↦ counts
  | some [] ↦ counts
  | some (c ∷ cs) ↦ elim (get (c ∷ cs) counts) [ none ↦ put (c ∷ cs) 1 counts | some n ↦ counts ]
])

module _ (json_parse : Text → Option Json) (date_parse : Text → Option ℕ) where
  -- The use of `parsed.timestamp`.
  unfoldable pub note_stamp : Json → CodexTally → CodexTally
  note_stamp v s = record s { tally = note_time (parse_timestamp date_parse (stamp_of v)) s.tally }

  -- A line that `JSON.parse` accepted. Reading a property of `null` throws.
  unfoldable pub codex_parsed : Json → CodexTally → Option CodexTally
  unfolding note_stamp
  codex_parsed null s = none
  codex_parsed v s = some (codex_value json_parse v (note_stamp v s))

  unfoldable pub codex_line : Text → CodexTally → Option CodexTally
  unfolding codex_parsed
  codex_line [] s = some s
  codex_line (c ∷ cs) s = elim (json_parse (c ∷ cs)) [ none ↦ some s | some v ↦ codex_parsed v s ]

  unfoldable pub codex_lines : List Text → CodexTally → Option CodexTally
  unfolding codex_line
  codex_lines [] s = some s
  codex_lines (line ∷ lines) s = elim (codex_line line s) [
    | none ↦ none
    | some s' ↦ codex_lines lines s'
  ]

  codex_reading : Option CodexTally → Reading
  codex_reading none = throws
  codex_reading (some s) =
      let t = s.tally in
      signals (finish (record t { bash_counts = count_calls s.tool_calls t.bash_counts }))

  -- `readCodexSessionSignals`, given the text of the file.
  unfoldable pub read_codex_session_signals : Option Text → Reading
  unfolding codex_lines codex_reading
  read_codex_session_signals none = absent
  read_codex_session_signals (some raw) =
      codex_reading (codex_lines (split (λ c. nat_beq c 10) raw) empty_codex)
