-- ===== src/Retrieval/Inert.antt =====
-- The text of an entry cannot add a line or an angle bracket to a reminder.
use caveat.Common.{
  ℕ, suc, ◌≤◌, ◌≡◌, refl, Bool, true, false, not, ◌||◌, List, [], ◌∷◌, map, Text, codes, arith, inl,
  inr, Bool-cases, nat_beq, length, trim, trim_start, trim_end, trim_last, if-both, all, ◌+◌,
  starts_with, length-append, one_spaces, is_space, All, All-append, All-take,
}
use caveat.Retrieval.Reminder.{
  SearchResult, inert_char, sanitize_reminder_display, reminder_hit_line, nonempty_line,
  reminder_symptom_line, hit_lines, community_content_advisory,
}

-- No break of a line.
abbrev IsFlat : ℕ → Type 0
IsFlat c = (nat_beq c 10 || nat_beq c 13) ≡ false

-- No break of a line, and no angle bracket.
abbrev pub IsInert : ℕ → Type 0
IsInert c = (nat_beq c 10 || nat_beq c 13 || nat_beq c 60 || nat_beq c 62) ≡ false

not_space-IsFlat : (c : ℕ) → is_space c ≡ false → IsFlat c
not_space-IsFlat c h = ground arith

one_spaces-All : (run : Bool) (t : Text) → All IsFlat (one_spaces run t)
one_spaces-All run [] = tt
one_spaces-All run (c ∷ cs) = elim (Bool-cases (is_space c)) [
  | inl e ↦
      rw (one_spaces, e)
        (if-both (All IsFlat) run (one_spaces true cs) (32 ∷ one_spaces true cs)
          (one_spaces-All true cs) (refl, one_spaces-All true cs))
  | inr e ↦ rw (one_spaces, e) (not_space-IsFlat c e, one_spaces-All false cs)
]

module _ (P : ℕ → Type 0) where
  trim_start-All : (t : Text) → All P t → All P (trim_start t)
  trim_start-All [] h = tt
  trim_start-All (c ∷ cs) (p, h) =
      if-both (All P) (is_space c) (trim_start cs) (c ∷ cs) (trim_start-All cs h) (p, h)

  trim_last-All : (c : ℕ) (t : Text) → P c → All P t → All P (trim_last c t)
  trim_last-All c [] p h = if-both (All P) (is_space c) [] (c ∷ []) tt (p, tt)
  trim_last-All c (d ∷ ds) p h = (p, h)

  trim_end-All : (t : Text) → All P t → All P (trim_end t)
  trim_end-All [] h = tt
  trim_end-All (c ∷ cs) (p, h) = trim_last-All c (trim_end cs) p (trim_end-All cs h)

inert_char-IsInert : (c : ℕ) → IsFlat c → IsInert (inert_char c)
inert_char-IsInert c h = ground arith

map-IsInert : (t : Text) → All IsFlat t → All IsInert (map inert_char t)
map-IsInert [] h = tt
map-IsInert (c ∷ cs) (p, h) = (inert_char-IsInert c p, map-IsInert cs h)

sanitize-IsInert : (t : Text) (n : ℕ) → All IsInert (sanitize_reminder_display t n)
unfolding sanitize_reminder_display
sanitize-IsInert t n =
    let flat = one_spaces-All false t in
    let trimmed = trim_end-All IsFlat _ (trim_start-All IsFlat (one_spaces false t) flat) in
    All-take IsInert n _ (map-IsInert (trim (one_spaces false t)) trimmed)

nonempty_line-IsInert : (t : Text) → All IsInert t → All (All IsInert) (nonempty_line t)
nonempty_line-IsInert [] h = tt
nonempty_line-IsInert (c ∷ cs) h = (
  All-append IsInert (codes "   症状: ") (c ∷ cs)
      (refl, (refl, (refl, (refl, (refl, (refl, (refl, tt))))))) h,
  tt,
)

all-All :
    (t : Text)
    → all (λ c. not (nat_beq c 10 || nat_beq c 13 || nat_beq c 60 || nat_beq c 62)) t ≡ true
    → All IsInert t
all-All [] h = tt
all-All (c ∷ cs) h = (ground arith, all-All cs (ground arith))

nonempty_line-length : (t : Text) → length (nonempty_line t) ≤ 1
nonempty_line-length [] = omega arith
nonempty_line-length (c ∷ cs) = omega arith

module _ (decimal : ℕ → Text) (digits : (n : ℕ) → All IsInert (decimal n)) where
  hit_line-IsInert : (hit : SearchResult) (i : ℕ) → All IsInert (reminder_hit_line decimal hit i)
  unfolding reminder_hit_line
  hit_line-IsInert hit i =
      let join2 = λ (xs ys : Text). All-append IsInert xs ys in
      join2 (decimal (suc i)) _ (digits (suc i)) (
        join2 (codes ". ") _ (all-All (codes ". ") refl) (
          join2 (sanitize_reminder_display hit.id 160) _ (sanitize-IsInert hit.id 160) (
            join2 (codes " (") _ (all-All (codes " (") refl) (
              join2 (sanitize_reminder_display hit.source 160) _ (sanitize-IsInert hit.source 160) (
                join2 (codes ") — ") _ (all-All (codes ") — ") refl) (
                  join2 (sanitize_reminder_display hit.title 240) _ (sanitize-IsInert hit.title 240)
                    (if-both (All IsInert) (starts_with (codes "community/") hit.source)
                      community_content_advisory [] (all-All community_content_advisory refl)
                      tt)))))))

  -- When decimal numbers have no line break and no angle bracket, neither have the lines of the hits
  -- in a reminder, whatever the entries hold; and n hits give from n to 2n lines.
  pub hit_lines-IsInert :
      (i : ℕ) (hits : List SearchResult)
      → (length hits ≤ length (hit_lines decimal i hits))
        × (length (hit_lines decimal i hits) ≤ length hits + length hits)
        × All (All IsInert) (hit_lines decimal i hits)
  unfolding hit_lines reminder_symptom_line
  hit_lines-IsInert i [] = (omega arith, omega arith, tt)
  hit_lines-IsInert i (hit ∷ hits) =
      let (low, high, inert) = hit_lines-IsInert (suc i) hits in
      let excerpt = sanitize_reminder_display hit.symptom_excerpt 120 in
      let symptom = nonempty_line excerpt in
      let more = length-append symptom (hit_lines decimal (suc i) hits) in
      let one = nonempty_line-length excerpt in
      (
        omega (arith, low, more),
        omega (arith, high, more, one),
        (
          hit_line-IsInert hit i,
          All-append (All IsInert) symptom (hit_lines decimal (suc i) hits)
              (nonempty_line-IsInert excerpt (sanitize-IsInert hit.symptom_excerpt 120)) inert,
        ),
      )
