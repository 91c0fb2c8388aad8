-- ===== src/Transcript/Throws.antt =====
-- When `readSessionSignals` throws.
use caveat.Common.{
  ℕ, ◌≡◌, ◌↔◌, refl, Bool, true, false, Option, none, some, List, [], ◌∷◌, Text, any, split,
  nat_beq, arith, Bool-cases, Option-cases, inl, inr,
}
use caveat.Json.{Json, null}
use caveat.Transcript.{throws, Tally, empty_tally}
use caveat.Transcript.Claude.{parsed_line, transcript_lines, read_session_signals}

abbrev pub is_null : Option Json → Bool
is_null (some null) = true
is_null _ = false

-- The line is the JSON text of `null`.
abbrev pub null_line : (Text → Option Json) → Text → Bool
null_line json_parse [] = false
null_line json_parse (c ∷ cs) = is_null (json_parse (c ∷ cs))

null-of_is_null : (v : Json) → is_null (some v) ≡ true → v ≡ null
null-of_is_null null h = refl
null-of_is_null _ h = cc

module _ (json_parse : Text → Option Json) (date_parse : Text → Option ℕ) where
  parsed_line-none :
      (v : Json) (t : Tally)
      → is_null (some v) ≡ false
      → (u : Tally) × (parsed_line json_parse date_parse v t ≡ some u)
  unfolding parsed_line
  parsed_line-none null t h = absurd (ground arith)
  parsed_line-none _ t h = (_, refl)

  transcript_lines-none :
      (lines : List Text) (t : Tally)
      → (transcript_lines json_parse date_parse lines t ≡ none)
        ↔ (any (null_line json_parse) lines ≡ true)
  unfolding transcript_lines
  transcript_lines-none [] t = ground arith
  transcript_lines-none ([] ∷ lines) t = transcript_lines-none lines t
  transcript_lines-none ((c ∷ cs) ∷ lines) t = elim (Option-cases (json_parse (c ∷ cs))) [
    | inl bad ↦ rw (bad, transcript_lines) (transcript_lines-none lines t)
    | inr (v, good) ↦ elim (Bool-cases (is_null (some v))) [
      | inl is ↦ ground (arith, null-of_is_null v is)
      | inr other ↦
          let (u, fine) = parsed_line-none v t other in
          ground (arith, transcript_lines-none lines u)
    ]
  ]

  -- The reader throws exactly when some line is the JSON text of `null`; lines that are no JSON are
  -- passed over.
  pub read_session_signals-throws_iff :
      (raw : Text)
      → (read_session_signals json_parse date_parse (some raw) ≡ throws)
        ↔ (any (null_line json_parse) (split (λ c. nat_beq c 10) raw) ≡ true)
  unfolding read_session_signals
  read_session_signals-throws_iff raw =
      ground (arith, transcript_lines-none (split (λ c. nat_beq c 10) raw) empty_tally)
