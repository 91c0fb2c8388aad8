-- ===== src/Transcript/Codex.antt =====
-- `readCodexSessionSignals` of packages/core/src/codexTranscriptSignals.ts: a Codex rollout.
pub mod Reader
pub mod Failures
pub mod Commands
pub mod Bounds
use caveat.Common.{
  ℕ, zero, suc, ◌+◌, ◌*◌, ◌-◌, Bool, true, false, not, ◌||◌, ◌&&◌, Option, none, some, List, [],
  ◌∷◌, ◌++◌, Text, codes, if◌then◌else◌, split, nat_beq, leb, list_eq, nat_eq, ◌==◌, starts_with,
  drop, length, any, is_space, foldl,
}
use caveat.Common.Maps.{get, put, has, add}
use caveat.Json.{
  Json, str, arr, obj, null, int, fraction, Items, Fields, end, items, prop, fields_of, is_text,
}
use caveat.Transcript.{
  Reading, absent, throws, signals, Tally, empty_tally, bump_nonempty, push_limited, push_snippet,
  compact_text, note_time, parse_timestamp, finish, max_search_queries, max_search_query_length,
}

pub record ToolCallInfo : Type 0 where
  pub name : Text
  pub args : Fields
  pub command : Option Text

-- The loop's variables: the shared ones, `toolCalls` and `failedCallIds`.
pub record CodexTally : Type 0 where
  pub tally : Tally
  pub tool_calls : List (Text × ToolCallInfo)
  pub failed_call_ids : List Text

abbrev pub empty_codex : CodexTally
empty_codex = record { tally = empty_tally; tool_calls = []; failed_call_ids = [] }

-- `parseArgs`: a record as it is, a text through `JSON.parse`, anything else as `{}`.
unfoldable pub parse_args : (Text → Option Json) → Option Json → Fields
parse_args json_parse (some (obj fs)) = fs
parse_args json_parse (some (str (c ∷ cs))) = fields_of (json_parse (c ∷ cs))
parse_args json_parse _ = end

abbrev is_digit : ℕ → Bool
is_digit c = leb b'0' c && leb c b'9'

-- The value of the digits in front, and whether there is one.
digits_value : ℕ → Bool → Text → Option ℕ
digits_value n found [] = if found then some n else none
digits_value n found (c ∷ cs) =
    let rest = digits_value (n * 10 + (c - b'0')) true cs in
    if is_digit c then rest else if found then some n else none

-- `(-?\d+)`
signed_value : Text → Option (Bool × ℕ)
unfolding digits_value
signed_value [] = none
signed_value (c ∷ cs) =
    if nat_beq c b'-'
    then elim (digits_value 0 false cs) [ none ↦ none | some n ↦ some (true, n) ]
    else elim (digits_value 0 false (c ∷ cs)) [ none ↦ none | some n ↦ some (false, n) ]

-- `\s+(-?\d+)`: at least one space, then the number behind all of them.
after_spaces : Bool → Text → Option (Bool × ℕ)
unfolding signed_value
after_spaces seen [] = none
after_spaces seen (c ∷ cs) = elim (is_space c) [
  | true ↦ after_spaces true cs
  | false ↦ if seen then signed_value (c ∷ cs) else none
]

exit_here : Text → Option (Bool × ℕ)
unfolding after_spaces
exit_here text =
    if starts_with (codes "Process exited with code") text
    then after_spaces false (drop (length (codes "Process exited with code")) text)
    else none

-- `extractExitCode`: sign and size at the first match of the expression.
unfoldable pub extract_exit_code : Text → Option (Bool × ℕ)
unfolding exit_here
extract_exit_code [] = none
extract_exit_code (c ∷ cs) = elim (exit_here (c ∷ cs)) [
  | some code ↦ some code
  | none ↦ extract_exit_code cs
]

-- `a ?? b`: the second where the first is undefined or null.
unfoldable pub nullish : Option Json → Option Json → Option Json
nullish none b = b
nullish (some null) b = b
nullish (some v) b = some v

nonempty_text : Option Json → Option Text
nonempty_text (some (str (c ∷ cs))) = some (c ∷ cs)
nonempty_text _ = none

-- `extractCommand`
unfoldable pub extract_command : Text → Fields → Option Text
unfolding nullish nonempty_text
extract_command name args =
    if name == codes "exec_command" || name == codes "Bash"
    then nonempty_text (nullish (prop (codes "cmd") args) (prop (codes "command") args))
    else none

-- `addEditPath`
unfoldable pub add_edit_path : Option Json → List (Text × ℕ) → List (Text × ℕ)
add_edit_path (some (str path)) counts = bump_nonempty path counts
add_edit_path _ counts = counts

-- What `.` does not match.
abbrev is_line_end : ℕ → Bool
is_line_end c = nat_beq c 10 || nat_beq c 13 || nat_beq c 0x2028 || nat_beq c 0x2029

-- `(.+)$` behind a prefix of the line.
path_behind : Text → Text → Option Text
path_behind prefix line =
    let path = drop (length prefix) line in
    if starts_with prefix line && not (any is_line_end path) && not (path == [])
    then some path
    else none

first_of_three : Option Text → Option Text → Option Text → List Text
first_of_three (some p) b c = p ∷ []
first_of_three none (some p) c = p ∷ []
first_of_three none none (some p) = p ∷ []
first_of_three none none none = []

patch_paths : List Text → List Text
unfolding path_behind first_of_three
patch_paths [] = []
patch_paths (line ∷ lines) =
    first_of_three (path_behind (codes "*** Add File: ") line)
      (path_behind (codes "*** Update File: ") line) (path_behind (codes "*** Delete File: ") line)
    ++ patch_paths lines

-- `collectPatchPaths`
unfoldable pub collect_patch_paths : Text → List Text
unfolding patch_paths
collect_patch_paths patch = patch_paths (split (λ c. nat_beq c 10) patch)

query_items : List Json → List Text
query_items [] = []
query_items (obj fs ∷ rest) =
    let more = query_items rest in elim (prop (codes "q") fs) [ some (str q) ↦ q ∷ more | _ ↦ more ]
query_items (_ ∷ rest) = query_items rest

abbrev pub text_list : Option Json → List Text
text_list (some (str t)) = t ∷ []
text_list _ = []

abbrev pub array_items : Option Json → List Json
array_items (some (arr vs)) = items vs
array_items _ = []

-- `collectSearchQueries`
unfoldable pub collect_search_queries : Fields → List Text
unfolding query_items
collect_search_queries args =
    query_items (array_items (prop (codes "search_query") args))
    ++ (text_list (prop (codes "query") args) ++ text_list (prop (codes "q") args))

-- `addQuery`
unfoldable pub add_query : Text → List Text → List Text
add_query query queries = push_limited max_search_queries max_search_query_length query queries

unfoldable pub add_queries : List Text → List Text → List Text
unfolding add_query
add_queries [] queries = queries
add_queries (q ∷ qs) queries = add_queries qs (add_query q queries)

unfoldable pub bump_all : List Text → List (Text × ℕ) → List (Text × ℕ)
bump_all [] counts = counts
bump_all (p ∷ ps) counts = bump_all ps (bump_nonempty p counts)

abbrev pub text_of : Option Json → Text
text_of (some (str t)) = t
text_of _ = []

abbrev pub bump_command : Option Text → List (Text × ℕ) → List (Text × ℕ)
bump_command none counts = counts
bump_command (some c) counts = bump_nonempty c counts
