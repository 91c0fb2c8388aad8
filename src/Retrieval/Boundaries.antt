-- ===== src/Retrieval/Boundaries.antt =====
-- `tokenAppearsIn`: a token without CJK characters is found between the boundaries of words.
use caveat.Common.{
  ℕ, ◌≡◌, ◌↔◌, inl, inr, refl, ap, Bool, true, false, not, ◌&&◌, ◌||◌, List, [], ◌∷◌, ◌++◌, Text,
  arith, nat_beq, nat_beq_iff, and-true, or-true,
}
use caveat.Retrieval.{
  points, is_cjk_dominated, ends_here, token_here, token_behind, token_appears_in,
}

module _ (is_word : ℕ → Bool) where
  -- The list is empty, or its last character belongs to no word.
  abbrev pub ends_free : List ℕ → Bool
  ends_free [] = true
  ends_free (p ∷ []) = not (is_word p)
  ends_free (p ∷ q ∷ ps) = ends_free (q ∷ ps)

  -- The token stands in the text as whole words do.
  abbrev pub StandsIn : List ℕ → List ℕ → Type 0
  StandsIn ts ps =
      (before : List ℕ) × (after : List ℕ) × (ps ≡ before ++ (ts ++ after))
      × (ends_free before ≡ true)
      × (ends_here is_word after ≡ true)

  here-to :
      (ts ps : List ℕ)
      → token_here is_word ts ps ≡ true
      → (after : List ℕ) × (ps ≡ ts ++ after) × (ends_here is_word after ≡ true)
  here-to [] ps h = (ps, refl, h)
  here-to (t ∷ ts) [] h = cc
  here-to (t ∷ ts) (p ∷ ps) h =
      let (same, rest) = and-true (nat_beq t p) (token_here is_word ts ps) h in
      let (after, e, b) = here-to ts ps rest in
      let eq = (nat_beq_iff t p).0 same in (after, rw (eq, e) refl, b)

  here-from :
      (ts after : List ℕ)
      → ends_here is_word after ≡ true
      → token_here is_word ts (ts ++ after) ≡ true
  here-from [] after b = b
  here-from (t ∷ ts) after b = ground (arith, here-from ts after)

  -- It stands so behind a first character `q`.
  abbrev StandsBehind : List ℕ → List ℕ → Type 0
  StandsBehind ts ps =
      (q : ℕ) × (before : List ℕ) × (after : List ℕ) × (ps ≡ (q ∷ before) ++ (ts ++ after))
      × (ends_free (q ∷ before) ≡ true)
      × (ends_here is_word after ≡ true)

  behind-to : (ts ps : List ℕ) → token_behind is_word ts ps ≡ true → StandsBehind ts ps
  behind-to ts [] h = cc
  behind-to ts (p ∷ ps) h =
      elim (or-true (not (is_word p) && token_here is_word ts ps) (token_behind is_word ts ps) h) [
        | inl here ↦
            let (free, found) = and-true (not (is_word p)) (token_here is_word ts ps) here in
            let (after, e, b) = here-to ts ps found in (p, [], after, ap (λ qs. p ∷ qs) e, free, b)
        | inr later ↦
            let (q, before, after, e, f, b) = behind-to ts ps later in
            (p, q ∷ before, after, ap (λ qs. p ∷ qs) e, f, b)
      ]

  behind-from :
      (ts : List ℕ) (q : ℕ) (before after : List ℕ)
      → ends_free (q ∷ before) ≡ true
      → ends_here is_word after ≡ true
      → token_behind is_word ts ((q ∷ before) ++ (ts ++ after)) ≡ true
  behind-from ts q [] after f b = ground (arith, here-from ts after b)
  behind-from ts q (p ∷ before) after f b = ground (arith, behind-from ts p before after f b)

  found-to :
      (ts ps : List ℕ)
      → (token_here is_word ts ps || token_behind is_word ts ps) ≡ true
      → StandsIn ts ps
  found-to ts ps h = elim (or-true (token_here is_word ts ps) (token_behind is_word ts ps) h) [
    | inl here ↦ let (after, e, b) = here-to ts ps here in ([], after, e, refl, b)
    | inr behind ↦
        let (q, before, after, e, f, b) = behind-to ts ps behind in (q ∷ before, after, e, f, b)
  ]

  found-from :
      (ts before after : List ℕ)
      → ends_free before ≡ true
      → ends_here is_word after ≡ true
      → (token_here is_word ts (before ++ (ts ++ after))
          || token_behind is_word ts (before ++ (ts ++ after)))
        ≡ true
  found-from ts [] after f b = ground (arith, here-from ts after b)
  found-from ts (q ∷ before) after f b = ground (arith, behind-from ts q before after f b)

  -- A token without CJK characters appears in a text that is not empty exactly when its code points
  -- stand there between ends of the text or characters of no word; inside a longer word they do not.
  pub token_appears_in_iff :
      (token : Text) (c : ℕ) (cs : Text)
      → is_cjk_dominated token ≡ false
      → (token_appears_in is_word token (c ∷ cs) ≡ true) ↔ StandsIn (points token) (points (c ∷ cs))
  unfolding token_appears_in
  token_appears_in_iff token c cs latin = rw latin (
    found-to (points token) (points (c ∷ cs)),
    λ (before, after, e, f, b). rw e (found-from (points token) before after f b),
  )
