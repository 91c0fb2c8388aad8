-- ===== src/Transcript/Counts.antt =====
-- What the counters of `readSessionSignals` count, said of the content blocks of the transcript.
use caveat.Common.{
  some-injective, ℕ, suc, ◌+◌, ◌≡◌, ◌≢◌, refl, Bool, true, false, ◌||◌, ◌&&◌, Option, none, some,
  List, [], ◌∷◌, ◌++◌, Text, codes, if◌then◌else◌, list_eq, nat_eq, ◌==◌, arith, list_beq_iff,
  list_beq, Option-cases, inl, inr,
}
use caveat.Common.Maps.{get, get-put}
use mathlib.Core.Path.{subst}
use caveat.Json.{Json, str, obj, null, Fields, prop, fields_of, is_text, is_true}
use caveat.Transcript.{Tally, empty_tally, bump, bump_nonempty, or_zero, note_time, parse_timestamp}
use caveat.Transcript.Claude.{
  text_prop, search, tool_use, tool_result, content_item, content_items, line_content, stamp_of,
  parsed_line, transcript_lines,
}

unfoldable pub count {ℓ} : {A : Type ℓ} → (A → Bool) → List A → ℕ
count p [] = 0
count p (x ∷ xs) = if p x then suc (count p xs) else count p xs

pub count-append {ℓ} :
    {A : Type ℓ} (p : A → Bool) (xs ys : List A) → count p (xs ++ ys) ≡ count p xs + count p ys
unfolding count
count-append p [] ys = omega arith
count-append p (x ∷ xs) ys = ground (arith, count-append p xs ys)

-- The block calls the named tool.
abbrev pub calls : Text → Json → Bool
calls tool (obj item) =
    is_text (prop (codes "type") item) (codes "tool_use") && is_text (prop (codes "name") item) tool
calls tool _ = false

abbrev pub input_text : Text → Json → Text
input_text key (obj item) = text_prop key (fields_of (prop (codes "input") item))
input_text key _ = []

-- The block edits the file.
abbrev pub edits : Text → Json → Bool
edits path block =
    (calls (codes "Edit") block
      || calls (codes "Write") block
      || calls (codes "NotebookEdit") block)
    && input_text (codes "file_path") block == path

-- The block runs the command.
abbrev pub runs : Text → Json → Bool
runs command block = calls (codes "Bash") block && input_text (codes "command") block == command

-- The block is the result of a failed call.
abbrev pub fails : Json → Bool
fails (obj item) =
    is_text (prop (codes "type") item) (codes "tool_result")
    && is_true (prop (codes "is_error") item)
fails _ = false

-- The content blocks of all the lines.
pub blocks : (Text → Option Json) → List Text → List Json
blocks json_parse [] = []
blocks json_parse ([] ∷ lines) = blocks json_parse lines
blocks json_parse ((c ∷ cs) ∷ lines) =
    let rest = blocks json_parse lines in
    elim (json_parse (c ∷ cs)) [ none ↦ rest | some v ↦ line_content v ++ rest ]

is_text_unique : (v : Option Json) (a b : Text) → is_text v a ≡ true → is_text v b ≡ list_beq a b
is_text_unique none a b h = cc
is_text_unique (some (str t)) a b h = rw ((list_beq_iff t a).0 h) refl
is_text_unique (some _) a b h = cc

or_zero-bump :
    (key path : Text) (counts : List (Text × ℕ))
    → path ≢ []
    → or_zero (get path (bump_nonempty key counts))
      ≡ (if key == path then suc (or_zero (get path counts)) else or_zero (get path counts))
unfolding bump bump_nonempty
or_zero-bump [] [] counts h = absurd (h refl)
or_zero-bump [] (d ∷ ds) counts h = refl
or_zero-bump (c ∷ cs) path counts h =
    let e = get-put (c ∷ cs) path (or_zero (get (c ∷ cs) counts) + 1) counts in
    ground (arith, e, list_beq_iff (c ∷ cs) path)

-- What one tool call does to each counter.
pub record Counted (before after : Tally) (edit : Text → Bool) (run : Text → Bool)
    (search fetch failure : Bool) : Type 0 where
  pub edited :
      (path : Text)
      → path ≢ []
      → or_zero (get path after.edit_counts) ≡ (
          if edit path
          then suc (or_zero (get path before.edit_counts))
          else or_zero (get path before.edit_counts))
  pub ran :
      (command : Text)
      → command ≢ []
      → or_zero (get command after.bash_counts) ≡ (
          if run command
          then suc (or_zero (get command before.bash_counts))
          else or_zero (get command before.bash_counts))
  pub searched :
      after.web_search_count
      ≡ (if search then suc before.web_search_count else before.web_search_count)
  pub fetched :
      after.web_fetch_count ≡ (if fetch then suc before.web_fetch_count else before.web_fetch_count)
  pub failed :
      after.tool_failure_count
      ≡ (if failure then suc before.tool_failure_count else before.tool_failure_count)

tool_use-Counted :
    (name : Option Json) (input : Fields) (t : Tally)
    → Counted t
        (tool_use name input t)
        (λ path.
          (is_text name (codes "Edit")
            || is_text name (codes "Write")
            || is_text name (codes "NotebookEdit"))
          && text_prop (codes "file_path") input == path)
        (λ command. is_text name (codes "Bash") && text_prop (codes "command") input == command)
        (is_text name (codes "WebSearch"))
        (is_text name (codes "WebFetch"))
        false
unfolding search tool_use
tool_use-Counted name input t =
    let we = is_text_unique name (codes "WebSearch") (codes "Edit") in
    let ww = is_text_unique name (codes "WebSearch") (codes "Write") in
    let wn = is_text_unique name (codes "WebSearch") (codes "NotebookEdit") in
    let fe = is_text_unique name (codes "WebFetch") (codes "Edit") in
    let fw = is_text_unique name (codes "WebFetch") (codes "Write") in
    let fn = is_text_unique name (codes "WebFetch") (codes "NotebookEdit") in
    let fs = is_text_unique name (codes "WebFetch") (codes "WebSearch") in
    let be = is_text_unique name (codes "Bash") (codes "Edit") in
    let bw = is_text_unique name (codes "Bash") (codes "Write") in
    let bn = is_text_unique name (codes "Bash") (codes "NotebookEdit") in
    let bs = is_text_unique name (codes "Bash") (codes "WebSearch") in
    let bf = is_text_unique name (codes "Bash") (codes "WebFetch") in
    record {
      edited = λ path h.
          ground (arith, or_zero-bump (text_prop (codes "file_path") input) path t.edit_counts h);
      ran = λ command h. ground (
        arith,
        be,
        bw,
        bn,
        bs,
        bf,
        or_zero-bump (text_prop (codes "command") input) command t.bash_counts h,
      );
      searched = ground (arith, we, ww, wn);
      fetched = ground (arith, fe, fw, fn, fs);
      failed = ground arith;
    }

content_item-Counted :
    (block : Json) (t : Tally)
    → Counted t
        (content_item block t)
        (λ path. edits path block)
        (λ command. runs command block)
        (calls (codes "WebSearch") block)
        (calls (codes "WebFetch") block)
        (fails block)
unfolding content_item tool_result
content_item-Counted (obj item) t =
    let c = tool_use-Counted (prop (codes "name") item) (fields_of (prop (codes "input") item)) t in
    let rt = is_text_unique (prop (codes "type") item) (codes "tool_use") (codes "tool_result") in
    unfold content_item tool_result in
    record {
      edited = λ path h. ground (arith, c.edited path h, rt);
      ran = λ command h. ground (arith, c.ran command h, rt);
      searched = ground (arith, c.searched, rt);
      fetched = ground (arith, c.fetched, rt);
      failed = ground (arith, c.failed, rt);
    }
content_item-Counted null t = record {
  edited = λ _ _. refl;
  ran = λ _ _. refl;
  searched = refl;
  fetched = refl;
  failed = refl;
}
content_item-Counted _ t = record {
  edited = λ _ _. refl;
  ran = λ _ _. refl;
  searched = refl;
  fetched = refl;
  failed = refl;
}

-- The counters of `after` are those of `before` and the occurrences among the blocks.
pub record Adds (before after : Tally) (content : List Json) : Type 0 where
  pub edited :
      (path : Text)
      → path ≢ []
      → or_zero (get path after.edit_counts)
        ≡ or_zero (get path before.edit_counts) + count (edits path) content
  pub ran :
      (command : Text)
      → command ≢ []
      → or_zero (get command after.bash_counts)
        ≡ or_zero (get command before.bash_counts) + count (runs command) content
  pub searched :
      after.web_search_count ≡ before.web_search_count + count (calls (codes "WebSearch")) content
  pub fetched :
      after.web_fetch_count ≡ before.web_fetch_count + count (calls (codes "WebFetch")) content
  pub failed : after.tool_failure_count ≡ before.tool_failure_count + count fails content

content_items-Adds : (content : List Json) (t : Tally) → Adds t (content_items content t) content
unfolding count content_items
content_items-Adds [] t = record {
  edited = λ _ _. omega arith;
  ran = λ _ _. omega arith;
  searched = omega arith;
  fetched = omega arith;
  failed = omega arith;
}
content_items-Adds (block ∷ rest) t =
    let c = content_item-Counted block t in
    let ih = content_items-Adds rest (content_item block t) in
    record {
      edited = λ path h. ground (arith, c.edited path h, ih.edited path h);
      ran = λ command h. ground (arith, c.ran command h, ih.ran command h);
      searched = ground (arith, c.searched, ih.searched);
      fetched = ground (arith, c.fetched, ih.fetched);
      failed = ground (arith, c.failed, ih.failed);
    }

note_time-Adds :
    (ts : Option ℕ) (t after : Tally) (content : List Json)
    → Adds (note_time ts t) after content
    → Adds t after content
unfolding note_time
note_time-Adds none t after content a = a
note_time-Adds (some ts) t after content a = record {
  edited = a.edited;
  ran = a.ran;
  searched = a.searched;
  fetched = a.fetched;
  failed = a.failed;
}

Adds-append : {s t u : Tally} (xs ys : List Json) → Adds s t xs → Adds t u ys → Adds s u (xs ++ ys)
Adds-append xs ys a b = record {
  edited =
      λ path h. omega (arith, count-append (edits path) xs ys, a.edited path h, b.edited path h);
  ran = λ command h.
      omega (arith, count-append (runs command) xs ys, a.ran command h, b.ran command h);
  searched = omega (arith, count-append (calls (codes "WebSearch")) xs ys, a.searched, b.searched);
  fetched = omega (arith, count-append (calls (codes "WebFetch")) xs ys, a.fetched, b.fetched);
  failed = omega (arith, count-append fails xs ys, a.failed, b.failed);
}

Adds-nil : (t : Tally) → Adds t t []
unfolding count
Adds-nil t = record {
  edited = λ _ _. omega arith;
  ran = λ _ _. omega arith;
  searched = omega arith;
  fetched = omega arith;
  failed = omega arith;
}

module _ (json_parse : Text → Option Json) (date_parse : Text → Option ℕ) where
  parsed_line-Adds :
      (v : Json) (t t' : Tally)
      → parsed_line json_parse date_parse v t ≡ some t'
      → Adds t t' (line_content v)
  unfolding parsed_line
  parsed_line-Adds null t t' e = cc
  parsed_line-Adds v t t' e =
      let stamp = parse_timestamp date_parse (stamp_of v) in
      subst (λ u. Adds t u (line_content v)) (some-injective e)
        (note_time-Adds stamp t _ _ (content_items-Adds (line_content v) (note_time stamp t)))

  transcript_lines-Adds :
      (lines : List Text) (t t' : Tally)
      → transcript_lines json_parse date_parse lines t ≡ some t'
      → Adds t t' (blocks json_parse lines)
  unfolding transcript_lines blocks
  transcript_lines-Adds [] t t' e = subst (λ u. Adds t u []) (some-injective e) (Adds-nil t)
  transcript_lines-Adds ([] ∷ lines) t t' e = transcript_lines-Adds lines t t' e
  transcript_lines-Adds ((c ∷ cs) ∷ lines) t t' e = elim (Option-cases (json_parse (c ∷ cs))) [
    | inl bad ↦ rw (bad, blocks) (transcript_lines-Adds lines t t' (ground arith))
    | inr (v, good) ↦ elim (Option-cases (parsed_line json_parse date_parse v t)) [
      | inl thrown ↦ absurd (ground arith)
      | inr (u, fine) ↦
          rw (good, blocks)
            (Adds-append (line_content v) (blocks json_parse lines) (parsed_line-Adds v t u fine)
              (transcript_lines-Adds lines u t' (ground arith)))
    ]
  ]

  -- Each counter of the reader is the number of content blocks of its kind in the transcript: the
  -- edits of each file, the runs of each command, the searches, the fetches and the failed results.
  pub transcript_lines-count :
      (lines : List Text) (t : Tally) (path command : Text)
      → path ≢ []
      → command ≢ []
      → transcript_lines json_parse date_parse lines empty_tally ≡ some t
      → (let content = blocks json_parse lines in
          (or_zero (get path t.edit_counts) ≡ count (edits path) content)
          × (or_zero (get command t.bash_counts) ≡ count (runs command) content)
          × (t.web_search_count ≡ count (calls (codes "WebSearch")) content)
          × (t.web_fetch_count ≡ count (calls (codes "WebFetch")) content)
          × (t.tool_failure_count ≡ count fails content))
  transcript_lines-count lines t path command hp hc e =
      let a = transcript_lines-Adds lines empty_tally t e in
      (
        omega (arith, a.edited path hp),
        omega (arith, a.ran command hc),
        omega (arith, a.searched),
        omega (arith, a.fetched),
        omega (arith, a.failed),
      )
