-- ===== src/Retrieval/Bounds.antt =====
-- What the candidates of a prompt look like.
use caveat.Common.{
  ℕ, zero, suc, ◌≤◌, ◌≡◌, ◌⊎◌, inl, inr, refl, Bool, true, false, List, [], ◌∷◌, Text, list_eq,
  nat_eq, arith, leb, ltb, length, take, select, split, is_space, All, All-append, All-take,
  length-take-le, Bool-cases, list_beq, list_beq_iff,
}
use caveat.Common.Maps.{has, IsDistinct}
use caveat.Retrieval.{
  points, Candidate, windows, in_group, expand_token, is_cjk_dominated, is_pure_hiragana,
}
use caveat.Retrieval.Paths.{strip_fs_paths}
use caveat.Retrieval.Candidates.{expand_tokens, clean, unique, build_prompt_candidates}

-- A word of at least three units without CJK characters, or three units that are not all hiragana.
pub record IsSearchable (c : Candidate) : Type 0 where
  pub long : 3 ≤ length c.token
  pub kind :
      (is_cjk_dominated c.token ≡ false)
      ⊎ ((length c.token ≡ 3) × (is_pure_hiragana c.token ≡ false))

length-take {ℓ} : {A : Type ℓ} (n : ℕ) (xs : List A) → n ≤ length xs → length (take n xs) ≡ n
length-take zero xs h = refl
length-take (suc n) [] h = absurd (omega arith)
length-take (suc n) (x ∷ xs) h = omega (arith, length-take n xs)

windows-All : (n : ℕ) (t : Text) → All (λ w. length w ≡ n) (windows n t)
windows-All n [] = tt
windows-All n (c ∷ cs) = elim (Bool-cases (leb n (length (c ∷ cs)))) [
  | inl e ↦ rw e (length-take n (c ∷ cs) (ground arith), windows-All n cs)
  | inr e ↦ rw e tt
]

in_group-All :
    (group : ℕ) (ts : List Text) → All (λ t. length t ≡ 3) ts → All IsSearchable (in_group group ts)
in_group-All group [] h = tt
in_group-All group (t ∷ ts) (three, h) = elim (Bool-cases (is_pure_hiragana t)) [
  | inl e ↦ rw e (in_group-All group ts h)
  | inr e ↦ rw e (record { long = omega arith; kind = inr (three, e) }, in_group-All group ts h)
]

expand_token-All : (t : Text) (group : ℕ) → All IsSearchable (expand_token t group)
unfolding expand_token
expand_token-All t group = elim (Bool-cases (is_cjk_dominated t)) [
  | inl e ↦ rw e (in_group-All group (windows 3 t) (windows-All 3 t))
  | inr e ↦ elim (Bool-cases (leb 3 (length t))) [
    | inl long ↦ rw (e, long) (record { long = ground arith; kind = inl e }, tt)
    | inr short ↦ rw (e, short) tt
  ]
]

expand_tokens-All : (i : ℕ) (ts : List Text) → All IsSearchable (expand_tokens i ts)
unfolding expand_tokens
expand_tokens-All i [] = tt
expand_tokens-All i (t ∷ ts) =
    All-append IsSearchable (expand_token t i) (expand_tokens (suc i) ts) (expand_token-All t i)
      (expand_tokens-All (suc i) ts)

module _ (is_word : ℕ → Bool) (lower : Text → Text) where
  abbrev pub lowered : List Candidate → List Text
  lowered [] = []
  lowered (c ∷ cs) = lower c.token ∷ lowered cs

  unique-All :
      (seen : List Text) (cs : List Candidate)
      → All IsSearchable cs
      → All IsSearchable (unique is_word lower seen cs)
  unique-All seen [] h = tt
  unique-All seen (c ∷ cs) (p, h) = elim (Bool-cases (has (lower c.token) seen)) [
    | inl e ↦ rw (unique, e) (unique-All seen cs h)
    | inr e ↦ rw (unique, e) (p, unique-All (lower c.token ∷ seen) cs h)
  ]

  differs :
      (t u : Text) (seen : List Text)
      → has t seen ≡ true
      → has u seen ≡ false
      → list_beq u t ≡ false
  differs t u seen h k = elim (Bool-cases (list_beq u t)) [
    | inl same ↦ absurd (cc ((list_beq_iff u t).0 same))
    | inr other ↦ other
  ]

  -- What was seen does not come again.
  unique-fresh :
      (t : Text) (seen : List Text) (cs : List Candidate)
      → has t seen ≡ true
      → has t (lowered (unique is_word lower seen cs)) ≡ false
  unique-fresh t seen [] h = refl
  unique-fresh t seen (c ∷ cs) h = elim (Bool-cases (has (lower c.token) seen)) [
    | inl e ↦ rw (unique, e) (unique-fresh t seen cs h)
    | inr e ↦
        let other = differs t (lower c.token) seen h e in
        let more = unique-fresh t (lower c.token ∷ seen) cs in
        rw (unique, e) (ground (arith, other, more))
  ]

  unique-IsDistinct :
      (seen : List Text) (cs : List Candidate) → IsDistinct (lowered (unique is_word lower seen cs))
  unique-IsDistinct seen [] = tt
  unique-IsDistinct seen (c ∷ cs) = elim (Bool-cases (has (lower c.token) seen)) [
    | inl e ↦ rw (unique, e) (unique-IsDistinct seen cs)
    | inr e ↦
        rw (unique, e)
          (
            unique-fresh (lower c.token) (lower c.token ∷ seen) cs
                (ground (arith, list_beq_iff (lower c.token) (lower c.token))),
            unique-IsDistinct (lower c.token ∷ seen) cs,
          )
  ]

  has-take :
      (t : Text) (n : ℕ) (cs : List Candidate)
      → has t (lowered cs) ≡ false
      → has t (lowered (take n cs)) ≡ false
  has-take t zero cs h = refl
  has-take t (suc n) [] h = refl
  has-take t (suc n) (c ∷ cs) h = ground (arith, has-take t n cs)

  take-IsDistinct :
      (n : ℕ) (cs : List Candidate) → IsDistinct (lowered cs) → IsDistinct (lowered (take n cs))
  take-IsDistinct zero cs h = tt
  take-IsDistinct (suc n) [] h = tt
  take-IsDistinct (suc n) (c ∷ cs) (new, h) =
      (has-take (lower c.token) n cs new, take-IsDistinct n cs h)

  -- A prompt has at most fifty candidates. No two are the same up to case, each has at least three
  -- units, and one with a CJK character has exactly three and is not all hiragana.
  pub build_prompt_candidates-All :
      (prompt : Text)
      → (length (build_prompt_candidates is_word lower prompt) ≤ 50)
        × IsDistinct (lowered (build_prompt_candidates is_word lower prompt))
        × All IsSearchable (build_prompt_candidates is_word lower prompt)
  unfolding build_prompt_candidates
  build_prompt_candidates-All prompt =
      let raw =
        select (λ t. ltb 0 (length t))
          (split is_space (clean is_word lower (points (strip_fs_paths prompt)))) in
      let expanded = expand_tokens 0 raw in
      let cs = unique is_word lower [] expanded in
      (
        length-take-le 50 cs,
        take-IsDistinct 50 cs (unique-IsDistinct [] expanded),
        All-take IsSearchable 50 cs (unique-All [] expanded (expand_tokens-All 0 raw)),
      )
