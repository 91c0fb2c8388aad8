-- ===== src/Transcript/Codex/Commands.antt =====
-- The loop over `toolCalls` at the end of `readCodexSessionSignals`.
use mathlib.Core.Path.{subst}
use caveat.Common.{
  ℕ, ◌+◌, ◌≡◌, ◌≢◌, refl, not, ◌&&◌, Option, none, some, List, [], ◌∷◌, Text, codes, list_eq,
  nat_eq, ◌==◌, arith, list_beq_iff, Bool-cases, Option-cases, inl, inr, some-injective, All,
}
use caveat.Common.Maps.{get, put, get-put}
use caveat.Json.{Json, obj, null, Fields, prop}
use caveat.Transcript.{Tally, or_zero, bump, bump_nonempty, note_time}
use caveat.Transcript.Codex.{ToolCallInfo, CodexTally, empty_codex, text_of, bump_command}
use caveat.Transcript.Codex.Reader.{
  register_call, call_info, tool_effect, function_call, web_search_call, fail, function_call_output,
  exec_command_end, codex_payload, on_payload, codex_value, codex_parsed, codex_lines, count_calls,
}

-- The command of the call, if it has one, is among the counted commands.
abbrev IsCounted : List (Text × ℕ) → Text × ToolCallInfo → Type 0
IsCounted counts (id, info) =
    (c : ℕ) (cs : Text) → info.command ≡ some (c ∷ cs) → get (c ∷ cs) counts ≢ none

count_calls-idle :
    (calls : List (Text × ToolCallInfo)) (counts : List (Text × ℕ))
    → All (IsCounted counts) calls
    → count_calls calls counts ≡ counts
unfolding count_calls
count_calls-idle [] counts h = refl
count_calls-idle ((id, info) ∷ calls) counts (h, hs) = elim (Option-cases info.command) [
  | inl e ↦ rw e (count_calls-idle calls counts hs)
  | inr ([], e) ↦ rw e (count_calls-idle calls counts hs)
  | inr (c ∷ cs, e) ↦ elim (Option-cases (get (c ∷ cs) counts)) [
    | inl missing ↦ absurd (h c cs e missing)
    | inr (n, found) ↦ rw (e, found) (count_calls-idle calls counts hs)
  ]
]

bump_nonempty-keeps :
    (key k : Text) (counts : List (Text × ℕ))
    → get k counts ≢ none
    → get k (bump_nonempty key counts) ≢ none
unfolding bump_nonempty bump
bump_nonempty-keeps [] k counts h = h
bump_nonempty-keeps (c ∷ cs) k counts h =
    ground (arith, get-put (c ∷ cs) k (or_zero (get (c ∷ cs) counts) + 1) counts)

bump_command-keeps :
    (command : Option Text) (k : Text) (counts : List (Text × ℕ))
    → get k counts ≢ none
    → get k (bump_command command counts) ≢ none
bump_command-keeps none k counts h = h
bump_command-keeps (some c) k counts h = bump_nonempty-keeps c k counts h

bump_command_self :
    (c : ℕ) (cs : Text) (counts : List (Text × ℕ))
    → get (c ∷ cs) (bump_command (some (c ∷ cs)) counts) ≢ none
unfolding bump_nonempty bump
bump_command_self c cs counts = ground (
  arith,
  get-put (c ∷ cs) (c ∷ cs) (or_zero (get (c ∷ cs) counts) + 1) counts,
  list_beq_iff (c ∷ cs) (c ∷ cs),
)

abbrev AllCounted : List (Text × ℕ) → List (Text × ToolCallInfo) → Type 0
AllCounted counts calls = All (IsCounted counts) calls

AllCounted-bump :
    (command : Option Text) (counts : List (Text × ℕ)) (calls : List (Text × ToolCallInfo))
    → AllCounted counts calls
    → AllCounted (bump_command command counts) calls
AllCounted-bump command counts [] h = tt
AllCounted-bump command counts ((id, info) ∷ calls) (h, hs) = (
  λ c cs e. bump_command-keeps command (c ∷ cs) counts (h c cs e),
  AllCounted-bump command counts calls hs,
)

AllCounted-put :
    (id : Text) (info : ToolCallInfo) (counts : List (Text × ℕ))
    (calls : List (Text × ToolCallInfo))
    → IsCounted counts (id, info)
    → AllCounted counts calls
    → AllCounted counts (put id info calls)
AllCounted-put id info counts [] h hs = (h, tt)
AllCounted-put id info counts ((j, other) ∷ calls) h (k, ks) = elim (Bool-cases (j == id)) [
  | inl same ↦ rw same (h, ks)
  | inr new ↦ rw new (k, AllCounted-put id info counts calls h ks)
]

-- The call that is registered has just been counted.
register_call-AllCounted :
    (id : Text) (info : ToolCallInfo) (counts : List (Text × ℕ))
    (calls : List (Text × ToolCallInfo))
    → AllCounted counts calls
    → AllCounted (bump_command info.command counts) (register_call id info calls)
unfolding register_call
register_call-AllCounted id info counts calls h =
    let old = AllCounted-bump info.command counts calls h in
    let here : IsCounted (bump_command info.command counts) (id, info) =
      λ c cs e. rw e (bump_command_self c cs counts) in
    elim (Bool-cases (not (id == []) && not (info.name == []))) [
      | inl yes' ↦
          rw yes' (AllCounted-put id info (bump_command info.command counts) calls here old)
      | inr no' ↦ rw no' old
    ]

tool_effect-bash :
    (name : Text) (args : Fields) (t : Tally)
    → (tool_effect name args t).bash_counts ≡ t.bash_counts
unfolding tool_effect
tool_effect-bash name args t = ground arith

abbrev IsTidy : CodexTally → Type 0
IsTidy s = AllCounted s.tally.bash_counts s.tool_calls

function_call-IsTidy :
    (json_parse : Text → Option Json) (payload : Fields) (s : CodexTally)
    → IsTidy s
    → IsTidy (function_call json_parse payload s)
unfolding function_call
function_call-IsTidy json_parse payload s h = rw tool_effect-bash (
    register_call-AllCounted (text_of (prop (codes "call_id") payload))
      (call_info json_parse payload) s.tally.bash_counts s.tool_calls h)

codex_payload-IsTidy :
    (json_parse : Text → Option Json) (type : Option Json) (payload : Fields) (s : CodexTally)
    → IsTidy s
    → IsTidy (codex_payload json_parse type payload s)
unfolding codex_payload web_search_call function_call_output exec_command_end fail
codex_payload-IsTidy json_parse type payload s h =
    ground (arith, function_call-IsTidy json_parse payload s h)

codex_value-IsTidy :
    (json_parse : Text → Option Json) (v : Json) (s : CodexTally)
    → IsTidy s
    → IsTidy (codex_value json_parse v s)
unfolding codex_value
codex_value-IsTidy json_parse (obj line) s h =
    on_payload-IsTidy (prop (codes "type") line) (prop (codes "payload") line)
  where
    on_payload-IsTidy : (type payload : Option Json) → IsTidy (on_payload json_parse type payload s)
    on_payload-IsTidy type (some (obj payload)) = codex_payload-IsTidy json_parse type payload s h
    on_payload-IsTidy type none = h
    on_payload-IsTidy type _ = h
codex_value-IsTidy json_parse null s h = h
codex_value-IsTidy json_parse _ s h = h

note_time-bash : (ts : Option ℕ) (t : Tally) → (note_time ts t).bash_counts ≡ t.bash_counts
unfolding note_time
note_time-bash none t = refl
note_time-bash (some ts) t = refl

module _ (json_parse : Text → Option Json) (date_parse : Text → Option ℕ) where
  codex_parsed-IsTidy :
      (v : Json) (s : CodexTally) {u : CodexTally}
      → codex_parsed json_parse date_parse v s ≡ some u
      → IsTidy s
      → IsTidy u
  unfolding codex_parsed
  codex_parsed-IsTidy null s e h = cc
  codex_parsed-IsTidy v s e h =
      subst IsTidy (some-injective e) (codex_value-IsTidy json_parse v _ (rw note_time-bash h))

  codex_lines-IsTidy :
      (lines : List Text) (s u : CodexTally)
      → codex_lines json_parse date_parse lines s ≡ some u
      → IsTidy s
      → IsTidy u
  unfolding codex_lines
  codex_lines-IsTidy [] s u e h = subst IsTidy (some-injective e) h
  codex_lines-IsTidy ([] ∷ lines) s u e h = codex_lines-IsTidy lines s u e h
  codex_lines-IsTidy ((c ∷ cs) ∷ lines) s u e h = elim (Option-cases (json_parse (c ∷ cs))) [
    | inl bad ↦ codex_lines-IsTidy lines s u (ground arith) h
    | inr (v, good) ↦ elim (Option-cases (codex_parsed json_parse date_parse v s)) [
      | inl thrown ↦ absurd (ground arith)
      | inr (t, fine) ↦ codex_lines-IsTidy lines t u (ground arith) (codex_parsed-IsTidy v s fine h)
    ]
  ]

  -- The loop over the registered calls adds nothing: each of their commands was counted when the
  -- call was read, so the loop leaves the counts of every rollout as they are.
  pub count_calls-idle_after :
      (lines : List Text) (s : CodexTally)
      → codex_lines json_parse date_parse lines empty_codex ≡ some s
      → count_calls s.tool_calls s.tally.bash_counts ≡ s.tally.bash_counts
  count_calls-idle_after lines s e =
      count_calls-idle s.tool_calls s.tally.bash_counts
        (codex_lines-IsTidy lines empty_codex s e tt)
