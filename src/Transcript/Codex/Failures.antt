-- ===== src/Transcript/Codex/Failures.antt =====
-- Each failed call of a Codex rollout is counted once, however often it is reported.
use mathlib.Core.Path.{subst}
use caveat.Common.{
  ℕ, ◌+◌, ◌≡◌, ◌≢◌, refl, Bool, true, false, ◌||◌, ◌&&◌, Option, none, some, List, [], ◌∷◌, Text,
  codes, if◌then◌else◌, list_eq, nat_eq, ◌==◌, length, arith, list_beq, list_beq_iff, Option-cases,
  inl, inr, any, some-injective,
}
use caveat.Common.Maps.{has, has-add, add-IsDistinct, IsDistinct, length-add}
use caveat.Json.{Json, str, obj, null, Fields, prop, is_text}
use caveat.Transcript.{Tally, note_time}
use caveat.Transcript.Codex.{CodexTally, empty_codex, extract_exit_code, text_of}
use caveat.Transcript.Codex.Reader.{
  tool_effect, function_call, web_search_call, fail, exited_badly, function_call_output, bad_code,
  exec_command_end, codex_payload, on_payload, codex_value, note_stamp, codex_parsed, codex_lines,
}
use caveat.Transcript.Counts.{count}

-- The values of the lines that are JSON.
unfoldable pub values : (Text → Option Json) → List Text → List Json
values json_parse [] = []
values json_parse ([] ∷ lines) = values json_parse lines
values json_parse ((c ∷ cs) ∷ lines) =
    let rest = values json_parse lines in
    elim (json_parse (c ∷ cs)) [ none ↦ rest | some v ↦ v ∷ rest ]

abbrev pub matches : Text → Text → (Fields → Bool) → Option Json → Option Json → Bool
matches outer inner test type (some (obj payload)) =
    is_text type outer && is_text (prop (codes "type") payload) inner && test payload
matches outer inner test type _ = false

-- The value is a line of the two types, with a record as its payload of which the test holds.
abbrev pub has_payload : Text → Text → (Fields → Bool) → Json → Bool
has_payload outer inner test (obj line) =
    matches outer inner test (prop (codes "type") line) (prop (codes "payload") line)
has_payload outer inner test _ = false

abbrev pub bad_output : Text → Fields → Bool
bad_output id payload =
    text_of (prop (codes "call_id") payload) == id
    && exited_badly (extract_exit_code (text_of (prop (codes "output") payload)))

abbrev pub bad_end : Text → Fields → Bool
bad_end id payload =
    text_of (prop (codes "call_id") payload) == id && bad_code (prop (codes "exit_code") payload)

-- The value reports that the call with this id failed.
abbrev pub reports : Text → Json → Bool
reports id v =
    has_payload (codes "response_item") (codes "function_call_output") (bad_output id) v
    || has_payload (codes "event_msg") (codes "exec_command_end") (bad_end id) v

-- The value is the end of a command that failed and has no call id.
abbrev pub anonymous : Json → Bool
anonymous v = has_payload (codes "event_msg") (codes "exec_command_end") (bad_end []) v

is_text_unique : (v : Option Json) (a b : Text) → is_text v a ≡ true → is_text v b ≡ list_beq a b
is_text_unique none a b h = cc
is_text_unique (some (str t)) a b h = rw ((list_beq_iff t a).0 h) refl
is_text_unique (some _) a b h = cc

tool_effect-failures :
    (name : Text) (args : Fields) (t : Tally)
    → (tool_effect name args t).tool_failure_count ≡ t.tool_failure_count
unfolding tool_effect
tool_effect-failures name args t = ground arith

function_call-failures :
    (json_parse : Text → Option Json) (payload : Fields) (s : CodexTally)
    → ((function_call json_parse payload s).tally.tool_failure_count ≡ s.tally.tool_failure_count)
      × ((function_call json_parse payload s).failed_call_ids ≡ s.failed_call_ids)
unfolding function_call
function_call-failures json_parse payload s = (tool_effect-failures _ _ _, refl)

-- What a payload does to the ids and the counter.
pub record Reported (before after : CodexTally) (report : Text → Bool) (nameless : Bool)
    : Type 0 where
  pub ids :
      (id : Text)
      → id ≢ []
      → has id after.failed_call_ids ≡ (has id before.failed_call_ids || report id)
  pub distinct : IsDistinct before.failed_call_ids → IsDistinct after.failed_call_ids
  pub counter :
      after.tally.tool_failure_count + length before.failed_call_ids
      ≡ before.tally.tool_failure_count + length after.failed_call_ids + (if nameless then 1 else 0)

function_call_output-Reported :
    (payload : Fields) (s : CodexTally)
    → Reported s (function_call_output payload s) (λ id. bad_output id payload) false
unfolding function_call_output fail
function_call_output-Reported payload s =
    let id = text_of (prop (codes "call_id") payload) in
    let ids = s.failed_call_ids in
    record {
      ids = λ k h. ground (arith, has-add id k ids, list_beq_iff id k, list_beq_iff id []);
      distinct = λ d. ground (arith, add-IsDistinct id ids d);
      counter = ground (arith, length-add id ids);
    }

exec_command_end-Reported :
    (payload : Fields) (s : CodexTally)
    → Reported s (exec_command_end payload s) (λ id. bad_end id payload) (bad_end [] payload)
unfolding exec_command_end fail
exec_command_end-Reported payload s =
    let id = text_of (prop (codes "call_id") payload) in
    let ids = s.failed_call_ids in
    record {
      ids = λ k h. ground (arith, has-add id k ids, list_beq_iff id k, list_beq_iff id []);
      distinct = λ d. ground (arith, add-IsDistinct id ids d);
      counter = ground (arith, length-add id ids);
    }

codex_payload-Reported :
    (json_parse : Text → Option Json) (type : Option Json) (payload : Fields) (s : CodexTally)
    → Reported s
        (codex_payload json_parse type payload s)
        (λ id.
          matches
            (codes "response_item")
            (codes "function_call_output")
            (bad_output id)
            type
            (some (obj payload))
          || matches
              (codes "event_msg")
              (codes "exec_command_end")
              (bad_end id)
              type
              (some (obj payload)))
        (matches
          (codes "event_msg")
          (codes "exec_command_end")
          (bad_end [])
          type
          (some (obj payload)))
unfolding codex_payload web_search_call
codex_payload-Reported json_parse type payload s =
    let inner = prop (codes "type") payload in
    let re = is_text_unique type (codes "response_item") (codes "event_msg") in
    let fw = is_text_unique inner (codes "function_call") (codes "web_search_call") in
    let fo = is_text_unique inner (codes "function_call") (codes "function_call_output") in
    let wo = is_text_unique inner (codes "web_search_call") (codes "function_call_output") in
    let fc = function_call-failures json_parse payload s in
    let out = function_call_output-Reported payload s in
    let end = exec_command_end-Reported payload s in
    record {
      ids = λ id h. ground (arith, re, fw, fo, wo, fc, out.ids id h, end.ids id h);
      distinct = λ d. ground (arith, fc, out.distinct d, end.distinct d);
      counter = ground (arith, re, fw, fo, wo, fc, out.counter, end.counter);
    }

Reported-none : (s : CodexTally) → Reported s s (λ id. false) false
Reported-none s = record { ids = λ id h. ground arith; distinct = λ d. d; counter = omega arith }

on_payload-Reported :
    (json_parse : Text → Option Json) (type payload : Option Json) (s : CodexTally)
    → Reported s
        (on_payload json_parse type payload s)
        (λ id.
          matches
            (codes "response_item")
            (codes "function_call_output")
            (bad_output id)
            type
            payload
          || matches (codes "event_msg") (codes "exec_command_end") (bad_end id) type payload)
        (matches (codes "event_msg") (codes "exec_command_end") (bad_end []) type payload)
unfolding on_payload
on_payload-Reported json_parse type (some (obj payload)) s =
    codex_payload-Reported json_parse type payload s
on_payload-Reported json_parse type none s = Reported-none s
on_payload-Reported json_parse type _ s = Reported-none s

codex_value-Reported :
    (json_parse : Text → Option Json) (v : Json) (s : CodexTally)
    → Reported s (codex_value json_parse v s) (λ id. reports id v) (anonymous v)
unfolding codex_value
codex_value-Reported json_parse (obj line) s =
    on_payload-Reported json_parse (prop (codes "type") line) (prop (codes "payload") line) s
codex_value-Reported json_parse null s = Reported-none s
codex_value-Reported json_parse _ s = Reported-none s

-- The same over the values of many lines.
record Totals (before after : CodexTally) (vs : List Json) : Type 0 where
  ids :
      (id : Text)
      → id ≢ []
      → has id after.failed_call_ids ≡ (has id before.failed_call_ids || any (reports id) vs)
  distinct : IsDistinct before.failed_call_ids → IsDistinct after.failed_call_ids
  counter :
      after.tally.tool_failure_count + length before.failed_call_ids
      ≡ before.tally.tool_failure_count + length after.failed_call_ids + count anonymous vs

Totals-nil : (s : CodexTally) → Totals s s []
unfolding count
Totals-nil s = record { ids = λ id h. ground arith; distinct = λ d. d; counter = omega arith }

Totals-cons :
    {s t u : CodexTally} (v : Json) (vs : List Json)
    → Reported s t (λ id. reports id v) (anonymous v)
    → Totals t u vs
    → Totals s u (v ∷ vs)
unfolding count
Totals-cons v vs r rest = record {
  ids = λ id h. ground (arith, r.ids id h, rest.ids id h);
  distinct = λ d. rest.distinct (r.distinct d);
  counter = ground (arith, r.counter, rest.counter);
}

note_time-count :
    (ts : Option ℕ) (t : Tally) → (note_time ts t).tool_failure_count ≡ t.tool_failure_count
unfolding note_time
note_time-count none t = refl
note_time-count (some ts) t = refl

module _ (json_parse : Text → Option Json) (date_parse : Text → Option ℕ) where
  note_stamp-Reported :
      (v : Json) (s : CodexTally) {u : CodexTally} {report : Text → Bool} {nameless : Bool}
      → Reported (note_stamp json_parse date_parse v s) u report nameless
      → Reported s u report nameless
  unfolding note_stamp
  note_stamp-Reported v s r = record {
    ids = r.ids;
    distinct = r.distinct;
    counter = omega (arith, r.counter, note_time-count);
  }

  codex_parsed-Reported :
      (v : Json) (s u : CodexTally)
      → codex_parsed json_parse date_parse v s ≡ some u
      → Reported s u (λ id. reports id v) (anonymous v)
  unfolding codex_parsed
  codex_parsed-Reported null s u e = cc
  codex_parsed-Reported v s u e =
      subst (λ x. Reported s x (λ id. reports id v) (anonymous v)) (some-injective e)
        (note_stamp-Reported v s
          (codex_value-Reported json_parse v (note_stamp json_parse date_parse v s)))

  codex_lines-Totals :
      (lines : List Text) (s u : CodexTally)
      → codex_lines json_parse date_parse lines s ≡ some u
      → Totals s u (values json_parse lines)
  unfolding codex_lines values
  codex_lines-Totals [] s u e = subst (λ x. Totals s x []) (some-injective e) (Totals-nil s)
  codex_lines-Totals ([] ∷ lines) s u e = codex_lines-Totals lines s u e
  codex_lines-Totals ((c ∷ cs) ∷ lines) s u e = elim (Option-cases (json_parse (c ∷ cs))) [
    | inl bad ↦ rw (bad, values) (codex_lines-Totals lines s u (ground arith))
    | inr (v, good) ↦ elim (Option-cases (codex_parsed json_parse date_parse v s)) [
      | inl thrown ↦ absurd (ground arith)
      | inr (t, fine) ↦
          rw (good, values)
            (Totals-cons v (values json_parse lines) (codex_parsed-Reported v s t fine)
              (codex_lines-Totals lines t u (ground arith)))
    ]
  ]

  -- The failed calls of a rollout are counted once each: the ids are distinct, an id is among them
  -- exactly when some line reports the failure of that call, and the counter is the number of the ids
  -- and of the failed commands that have no id.
  pub codex_lines-failures :
      (lines : List Text) (s : CodexTally) (id : Text)
      → id ≢ []
      → codex_lines json_parse date_parse lines empty_codex ≡ some s
      → IsDistinct s.failed_call_ids
        × (has id s.failed_call_ids ≡ any (reports id) (values json_parse lines))
        × (s.tally.tool_failure_count
            ≡ length s.failed_call_ids + count anonymous (values json_parse lines))
  codex_lines-failures lines s id h e =
      let t = codex_lines-Totals lines empty_codex s e in
      (t.distinct tt, ground (arith, t.ids id h), omega (arith, t.counter))
