-- ===== src/Transcript/Gate.antt =====
-- `hasAnyStruggleSignal` on what `readSessionSignals` returns: when the gate opens.
use mathlib.Core.Path.{subst}
use caveat.Common.{
  split, nat_beq, ℕ, suc, ◌<◌, ◌≡◌, ◌≢◌, ◌↔◌, ◌⊎◌, inl, inr, refl, true, Option, none, some, List,
  [], ◌∷◌, Text, codes, list_eq, nat_eq, ◌==◌, arith, Bool-cases, Option-cases, length, take, ltb,
  sort_desc, insert_desc, some-injective, list_beq_iff,
}
use caveat.Common.Maps.{get, put, get-put}
use caveat.Json.{Json, str, obj, null, Fields, prop, fields_of}
use caveat.Transcript.{
  SessionSignals, signals, Tally, empty_tally, bump, bump_nonempty, or_zero, note_time, finish,
  repeated, has_any_struggle_signal,
}
use caveat.Transcript.Claude.{
  text_prop, search, tool_use, tool_result, content_item, content_items, line_content, parsed_line,
  transcript_lines, read_session_signals,
}
use caveat.Transcript.Counts.{count, calls, edits, runs, fails, blocks, transcript_lines-count}

-- Keys are not empty, and none stands twice.
abbrev IsKeyed : List (Text × ℕ) → Type 0
IsKeyed [] = Unit
IsKeyed ((key, n) ∷ counts) = (key ≢ []) × (get key counts ≡ none) × IsKeyed counts

put-IsKeyed :
    (key : Text) (n : ℕ) (counts : List (Text × ℕ))
    → key ≢ []
    → IsKeyed counts
    → IsKeyed (put key n counts)
put-IsKeyed key n [] h k = (h, refl, tt)
put-IsKeyed key n ((j, m) ∷ counts) h (nj, fresh, k) = elim (Bool-cases (j == key)) [
  | inl same ↦ rw same (nj, fresh, k)
  | inr other ↦ rw other (
    nj,
    ground (arith, get-put key j n counts, list_beq_iff j key, list_beq_iff key j),
    put-IsKeyed key n counts h k,
  )
]

bump_nonempty-IsKeyed :
    (key : Text) (counts : List (Text × ℕ)) → IsKeyed counts → IsKeyed (bump_nonempty key counts)
unfolding bump_nonempty bump
bump_nonempty-IsKeyed [] counts k = k
bump_nonempty-IsKeyed (c ∷ cs) counts k = put-IsKeyed (c ∷ cs) _ counts (λ e. cc) k

abbrev IsTidy : Tally → Type 0
IsTidy t = IsKeyed t.edit_counts × IsKeyed t.bash_counts

search-IsTidy : (query : Option Json) (t : Tally) → IsTidy t → IsTidy (search query t)
unfolding search
search-IsTidy (some (str q)) t k = k
search-IsTidy none t k = k
search-IsTidy _ t k = k

tool_use-IsTidy :
    (name : Option Json) (input : Fields) (t : Tally) → IsTidy t → IsTidy (tool_use name input t)
unfolding tool_use
tool_use-IsTidy name input t k = ground (
  arith,
  search-IsTidy (prop (codes "query") input) t k,
  bump_nonempty-IsKeyed (text_prop (codes "file_path") input) t.edit_counts k.0,
  bump_nonempty-IsKeyed (text_prop (codes "command") input) t.bash_counts k.1,
)

content_item-IsTidy : (block : Json) (t : Tally) → IsTidy t → IsTidy (content_item block t)
unfolding content_item tool_result
content_item-IsTidy (obj item) t k =
    ground (
      arith,
      tool_use-IsTidy (prop (codes "name") item) (fields_of (prop (codes "input") item)) t k,
    )
content_item-IsTidy null t k = k
content_item-IsTidy _ t k = k

content_items-IsTidy :
    (content : List Json) (t : Tally) → IsTidy t → IsTidy (content_items content t)
unfolding content_items
content_items-IsTidy [] t k = k
content_items-IsTidy (block ∷ rest) t k =
    content_items-IsTidy rest (content_item block t) (content_item-IsTidy block t k)

note_time-IsTidy : (ts : Option ℕ) (t : Tally) → IsTidy t → IsTidy (note_time ts t)
unfolding note_time
note_time-IsTidy none t k = k
note_time-IsTidy (some ts) t k = k

-- Some key was counted more than once.
abbrev HasRepeat : List (Text × ℕ) → Type 0
HasRepeat counts = (key : Text) × (key ≢ []) × (1 < or_zero (get key counts))

repeated-HasRepeat :
    (counts : List (Text × ℕ)) → IsKeyed counts → 0 < length (repeated counts) → HasRepeat counts
repeated-HasRepeat [] k h = absurd (omega arith)
repeated-HasRepeat ((key, n) ∷ counts) (nk, fresh, k) h = elim (Bool-cases (ltb 1 n)) [
  | inl more ↦ (key, nk, ground (arith, list_beq_iff key key))
  | inr once ↦
      let (j, nj, r) = repeated-HasRepeat counts k (ground arith) in
      (j, nj, ground (arith, list_beq_iff key j))
]

HasRepeat-repeated :
    (key : Text) (counts : List (Text × ℕ))
    → 1 < or_zero (get key counts)
    → 0 < length (repeated counts)
HasRepeat-repeated key [] h = absurd (omega arith)
HasRepeat-repeated key ((j, n) ∷ counts) h = ground (arith, HasRepeat-repeated key counts)

length-insert_desc {ℓ} :
    {A : Type ℓ} (key : A → ℕ) (x : A) (ys : List A)
    → length (insert_desc key x ys) ≡ suc (length ys)
length-insert_desc key x [] = refl
length-insert_desc key x (y ∷ ys) = ground (arith, length-insert_desc key x ys)

length-sort_desc {ℓ} :
    {A : Type ℓ} (key : A → ℕ) (xs : List A) → length (sort_desc key xs) ≡ length xs
length-sort_desc key [] = refl
length-sort_desc key (x ∷ xs) =
    omega (arith, length-insert_desc key x (sort_desc key xs), length-sort_desc key xs)

take-pos {ℓ} : {A : Type ℓ} (n : ℕ) (xs : List A) → (0 < length (take (suc n) xs)) ↔ (0 < length xs)
take-pos n [] = (λ h. h, λ h. h)
take-pos n (x ∷ xs) = (λ h. omega arith, λ h. omega arith)

finish-files :
    (t : Tally) → (0 < length (finish t).file_edit_counts) ↔ (0 < length (repeated t.edit_counts))
unfolding finish
finish-files t =
    let sorted = sort_desc (λ e. e.1) (repeated t.edit_counts) in
    let same = length-sort_desc (λ e. e.1) (repeated t.edit_counts) in
    let cut = take-pos 19 sorted in (λ h. rw (← same) (cut.0 h), λ h. cut.1 (rw same h))

finish-counts :
    (t : Tally)
    → ((finish t).tool_failure_count ≡ t.tool_failure_count)
      × ((finish t).web_search_count ≡ t.web_search_count)
      × ((finish t).web_fetch_count ≡ t.web_fetch_count)
      × ((finish t).bash_retry_count ≡ length (repeated t.bash_counts))
unfolding finish
finish-counts t = (refl, refl, refl, refl)

gate-cases :
    (s : SessionSignals)
    → has_any_struggle_signal s ≡ true
    → (0 < s.tool_failure_count)
      ⊎ (0 < length s.file_edit_counts)
      ⊎ (0 < s.web_search_count)
      ⊎ (0 < s.web_fetch_count)
      ⊎ (0 < s.bash_retry_count)
unfolding has_any_struggle_signal
gate-cases s h = ground arith

-- The session ran into something: a failed call, a search, a fetch, a file edited twice or a
-- command run twice.
abbrev pub Struggles : List Json → Type 0
Struggles content =
    (0 < count fails content)
    ⊎ (0 < count (calls (codes "WebSearch")) content)
    ⊎ (0 < count (calls (codes "WebFetch")) content)
    ⊎ ((path : Text) × (path ≢ []) × (1 < count (edits path) content))
    ⊎ ((command : Text) × (command ≢ []) × (1 < count (runs command) content))

module _ (json_parse : Text → Option Json) (date_parse : Text → Option ℕ) where
  parsed_line-IsTidy :
      (v : Json) (t : Tally) {u : Tally}
      → parsed_line json_parse date_parse v t ≡ some u
      → IsTidy t
      → IsTidy u
  unfolding parsed_line
  parsed_line-IsTidy null t e k = cc
  parsed_line-IsTidy v t e k =
      subst IsTidy (some-injective e)
        (content_items-IsTidy (line_content v) _ (note_time-IsTidy _ t k))

  transcript_lines-IsTidy :
      (lines : List Text) (t : Tally) {u : Tally}
      → transcript_lines json_parse date_parse lines t ≡ some u
      → IsTidy t
      → IsTidy u
  unfolding transcript_lines
  transcript_lines-IsTidy [] t e k = subst IsTidy (some-injective e) k
  transcript_lines-IsTidy ([] ∷ lines) t e k = transcript_lines-IsTidy lines t e k
  transcript_lines-IsTidy ((c ∷ cs) ∷ lines) t {u} e k = elim (Option-cases (json_parse (c ∷ cs))) [
    | inl bad ↦ transcript_lines-IsTidy lines t {u = u} (ground arith) k
    | inr (v, good) ↦ elim (Option-cases (parsed_line json_parse date_parse v t)) [
      | inl thrown ↦ absurd (ground arith)
      | inr (s, fine) ↦
          transcript_lines-IsTidy lines s {u = u} (ground arith) (parsed_line-IsTidy v t fine k)
    ]
  ]

  open_gate :
      (lines : List Text) (t : Tally)
      → transcript_lines json_parse date_parse lines empty_tally ≡ some t
      → has_any_struggle_signal (finish t) ≡ true
      → Struggles (blocks json_parse lines)
  unfolding has_any_struggle_signal
  open_gate lines t e h =
      let c = λ (path command : Text) (hp : path ≢ []) (hc : command ≢ []).
        transcript_lines-count json_parse date_parse lines t path command hp hc e in
      let x = c (0 ∷ []) (0 ∷ []) (λ z. cc) (λ z. cc) in
      let tidy = transcript_lines-IsTidy lines empty_tally e (tt, tt) in
      elim (gate-cases (finish t) h) [
        | inl failed ↦ inl (ground (arith, x.4, finish-counts t))
        | inr (inl files) ↦
            let (path, n, r) = repeated-HasRepeat t.edit_counts tidy.0 ((finish-files t).0 files) in
            inr (inr (inr (inl (path, n, omega (arith, (c path path n n).0, r)))))
        | inr (inr (inl searched)) ↦ inr (inl (omega (arith, x.2, finish-counts t)))
        | inr (inr (inr (inl fetched))) ↦ inr (inr (inl (omega (arith, x.3, finish-counts t))))
        | inr (inr (inr (inr retried))) ↦
            let (command, n, r) =
              repeated-HasRepeat t.bash_counts tidy.1 (omega (arith, finish-counts t)) in
            inr (inr (inr (inr (command, n, omega (arith, (c command command n n).1, r)))))
      ]

  Struggles-gate :
      (lines : List Text) (t : Tally)
      → transcript_lines json_parse date_parse lines empty_tally ≡ some t
      → Struggles (blocks json_parse lines)
      → has_any_struggle_signal (finish t) ≡ true
  unfolding has_any_struggle_signal
  Struggles-gate lines t e h =
      let c = λ (path command : Text) (hp : path ≢ []) (hc : command ≢ []).
        transcript_lines-count json_parse date_parse lines t path command hp hc e in
      let x = c (0 ∷ []) (0 ∷ []) (λ z. cc) (λ z. cc) in
      elim h [
        | inl failed ↦ ground (arith, x.4, finish-counts t)
        | inr (inl searched) ↦ ground (arith, x.2, finish-counts t)
        | inr (inr (inl fetched)) ↦ ground (arith, x.3, finish-counts t)
        | inr (inr (inr (inl (path, n, more)))) ↦ ground (
          arith,
          (finish-files t).1
              (HasRepeat-repeated path t.edit_counts (omega (arith, (c path path n n).0))),
        )
        | inr (inr (inr (inr (command, n, more)))) ↦ ground (
          arith,
          finish-counts t,
          HasRepeat-repeated command t.bash_counts (omega (arith, (c command command n n).1)),
        )
      ]

  -- When a transcript is read without a throw, the gate opens exactly when the content blocks of its
  -- lines hold a failed result, a search, a fetch, two edits of one file or two runs of one command.
  pub has_any_struggle_signal_iff :
      (raw : Text) {s : SessionSignals}
      → read_session_signals json_parse date_parse (some raw) ≡ signals s
      → (has_any_struggle_signal s ≡ true)
        ↔ Struggles (blocks json_parse (split (λ c. nat_beq c 10) raw))
  unfolding read_session_signals
  has_any_struggle_signal_iff raw {s} e =
      let lines = split (λ c. nat_beq c 10) raw in
      elim (Option-cases (transcript_lines json_parse date_parse lines empty_tally)) [
        | inl thrown ↦ absurd (ground arith)
        | inr (t, fine) ↦
            let same : finish t ≡ s = ground arith in
            subst (λ r. (has_any_struggle_signal r ≡ true) ↔ Struggles (blocks json_parse lines))
              same (open_gate lines t fine, Struggles-gate lines t fine)
      ]
