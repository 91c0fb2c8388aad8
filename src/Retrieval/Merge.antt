-- ===== src/Retrieval/Merge.antt =====
-- The merge of the hits of several inputs.
use caveat.Common.{
  ℕ, ◌≤◌, ◌≡◌, ◌⊎◌, inl, inr, refl, Bool, true, false, Option, none, some, List, [], ◌∷◌, ◌++◌, map,
  Text, if◌then◌else◌, arith, leb, length, take, length-take-le, length-append, list_eq, nat_eq,
  Bool-cases, select, sort_desc, All, list_beq_iff, ◌||◌, ◌<◌,
}
use caveat.Common.Maps.{has, has-append, IsDistinct, IsDistinct-append}
use caveat.Retrieval.{Candidate}
use caveat.Retrieval.Search.{
  EntryRow, SearchOptions, Scan, limit_of, ranked, ranked_by, visit_all, empty_scan, valid_dfs,
  rare_tokens, passes, row_of, group_count, find_for_candidates, find_caveats_for_text,
}
use caveat.Retrieval.Surfaces.{
  HookSearchSurface, user_prompt, tool_error, stop, HookSearchInput, hit_key, Merge, no_hits,
  push_hit, merge_hit, merge_hits, hook_hits, find_caveats_for_hook, merge_inputs,
  find_caveats_for_hook_segments,
}

length-map {ℓ κ} :
    {A : Type ℓ} {B : Type κ} (f : A → B) (xs : List A) → length (map f xs) ≡ length xs
length-map f [] = refl
length-map f (x ∷ xs) = omega (arith, length-map f xs)

ranked_by-length :
    (n limit : ℕ) (scan : Scan) (least : Option ℕ) → length (ranked_by n limit scan least) ≤ limit
unfolding ranked_by
ranked_by-length n limit scan none = omega arith
ranked_by-length n limit scan (some least) =
    let rare = rare_tokens least (valid_dfs scan.token_df) in
    let sorted = sort_desc group_count (select (λ p. passes n rare p.1) scan.per_entry) in
    omega (arith, length-map row_of (take limit sorted), length-take-le limit sorted)

abbrev pub keys : List EntryRow → List Text
keys [] = []
keys (hit ∷ hits) = hit_key hit ∷ keys hits

keys-append : (xs ys : List EntryRow) → keys (xs ++ ys) ≡ keys xs ++ keys ys
keys-append [] ys = refl
keys-append (x ∷ xs) ys = cc (keys-append xs ys)

-- What holds between two hits: `seen` are the keys of `out`, which are distinct, and the loop is
-- over exactly when the limit is reached.
record IsMerged (limit : ℕ) (m : Merge) : Type 0 where
  short : length m.out ≤ limit
  over : m.full ≡ leb limit (length m.out)
  same : (k : Text) → has k m.seen ≡ has k (keys m.out)
  distinct : IsDistinct (keys m.out)

-- The loop is over, or the key is among the keys seen.
abbrev covers : Text → Merge → Bool
covers k m = m.full || has k m.seen

All-map {ℓ κ κ'} :
    {A : Type ℓ} (P : A → Type κ) (Q : A → Type κ') (xs : List A)
    → ((x : A) → P x → Q x)
    → All P xs
    → All Q xs
All-map P Q [] f h = tt
All-map P Q (x ∷ xs) f (p, h) = (f x p, All-map P Q xs f h)

-- What holds of one branch, and of the other when its condition fails, holds of the conditional.
if-then {ℓ κ} :
    {A : Type ℓ} (P : A → Type κ) (b : Bool) (x y : A)
    → P x
    → (b ≡ false → P y)
    → P (if b then x else y)
if-then P true x y p q = p
if-then P false x y p q = q refl

module _ (limit : ℕ) where
  push_hit-IsMerged :
      (hit : EntryRow) (m : Merge)
      → m.full ≡ false
      → has (hit_key hit) m.seen ≡ false
      → IsMerged limit m
      → IsMerged limit (push_hit limit hit m)
  unfolding push_hit
  push_hit-IsMerged hit m room new i = record {
    short = ground (arith, i.over, length-append m.out (hit ∷ []));
    over = refl;
    same = λ k. ground (
      arith,
      i.same k,
      keys-append m.out (hit ∷ []),
      has-append k (keys m.out) (hit_key hit ∷ []),
    );
    distinct = rw (keys-append m.out (hit ∷ [])) (
        IsDistinct-append (hit_key hit) (keys m.out) (ground (arith, i.same (hit_key hit)))
          i.distinct);
  }

  merge_hit-IsMerged :
      (hit : EntryRow) (m : Merge) → IsMerged limit m → IsMerged limit (merge_hit limit hit m)
  unfolding merge_hit
  merge_hit-IsMerged hit m i = if-then (IsMerged limit) m.full m _ i (λ room.
      if-then (IsMerged limit) (has (hit_key hit) m.seen) m _ i
        (λ new. push_hit-IsMerged hit m room new i))

  merge_hits-IsMerged :
      (hits : List EntryRow) (m : Merge)
      → IsMerged limit m
      → IsMerged limit (merge_hits limit hits m)
  unfolding merge_hits
  merge_hits-IsMerged [] m i = i
  merge_hits-IsMerged (hit ∷ hits) m i =
      merge_hits-IsMerged hits (merge_hit limit hit m) (merge_hit-IsMerged hit m i)

  merge_hit-covers :
      (k : Text) (hit : EntryRow) (m : Merge)
      → covers k m ≡ true
      → covers k (merge_hit limit hit m) ≡ true
  unfolding merge_hit
  merge_hit-covers k hit m h = ground arith

  merge_hit-covers_self :
      (hit : EntryRow) (m : Merge) → covers (hit_key hit) (merge_hit limit hit m) ≡ true
  unfolding merge_hit
  merge_hit-covers_self hit m = ground (arith, list_beq_iff (hit_key hit) (hit_key hit))

  merge_hits-covers :
      (k : Text) (hits : List EntryRow) (m : Merge)
      → covers k m ≡ true
      → covers k (merge_hits limit hits m) ≡ true
  unfolding merge_hits
  merge_hits-covers k [] m h = h
  merge_hits-covers k (hit ∷ hits) m h =
      merge_hits-covers k hits (merge_hit limit hit m) (merge_hit-covers k hit m h)

  merge_hits-cover :
      (hits : List EntryRow) (m : Merge)
      → All (λ hit. covers (hit_key hit) (merge_hits limit hits m) ≡ true) hits
  unfolding merge_hits
  merge_hits-cover [] m = tt
  merge_hits-cover (hit ∷ hits) m =
      let m' = merge_hit limit hit m in
      (
        merge_hits-covers (hit_key hit) hits m' (merge_hit-covers_self hit m),
        merge_hits-cover hits m',
      )

module _ (is_word : ℕ → Bool) (lower : Text → Text) (stmt : Text → Option (List EntryRow)) where
  find_for_candidates-length :
      (evidence : Option (List Text)) (limit : ℕ) (cs : List Candidate)
      → length (find_for_candidates is_word lower stmt evidence limit cs) ≤ limit
  unfolding find_for_candidates ranked
  find_for_candidates-length evidence limit [] = omega arith
  find_for_candidates-length evidence limit (c ∷ cs) =
      ranked_by-length _ limit (visit_all is_word lower stmt evidence (c ∷ cs) empty_scan) _

  find_caveats_for_text-length :
      (prompt : Option Text) (opts : SearchOptions) (evidence : Option (List Text))
      → length (find_caveats_for_text is_word lower stmt prompt opts evidence) ≤ limit_of opts
  unfolding find_caveats_for_text
  find_caveats_for_text-length none opts evidence = omega arith
  find_caveats_for_text-length (some []) opts evidence = omega arith
  find_caveats_for_text-length (some (c ∷ cs)) opts evidence =
      find_for_candidates-length evidence (limit_of opts) _

  hook_hits-length :
      (s : HookSearchSurface) (topic failure : Text) (opts : SearchOptions)
      → length (hook_hits is_word lower stmt s topic failure opts) ≤ limit_of opts
  unfolding hook_hits
  hook_hits-length user_prompt topic failure opts = find_caveats_for_text-length _ opts none
  hook_hits-length stop topic failure opts = find_caveats_for_text-length _ opts none
  hook_hits-length tool_error topic failure opts = find_caveats_for_text-length _ opts _

  hook-length :
      (input : HookSearchInput) (opts : SearchOptions)
      → length (find_caveats_for_hook is_word lower stmt input opts) ≤ limit_of opts
  unfolding find_caveats_for_hook
  hook-length input opts = hook_hits-length input.surface input.topic_text input.failure_text opts

  abbrev hits_of : HookSearchInput → SearchOptions → List EntryRow
  hits_of input opts = find_caveats_for_hook is_word lower stmt input opts

  merge_inputs-IsMerged :
      (inputs : List HookSearchInput) (opts : SearchOptions) (m : Merge)
      → IsMerged (limit_of opts) m
      → IsMerged (limit_of opts) (merge_inputs is_word lower stmt inputs opts m)
  unfolding merge_inputs
  merge_inputs-IsMerged [] opts m i = i
  merge_inputs-IsMerged (input ∷ inputs) opts m i =
      merge_inputs-IsMerged inputs opts _
        (merge_hits-IsMerged (limit_of opts) (hits_of input opts) m i)

  merge_inputs-covers :
      (k : Text) (inputs : List HookSearchInput) (opts : SearchOptions) (m : Merge)
      → covers k m ≡ true
      → covers k (merge_inputs is_word lower stmt inputs opts m) ≡ true
  unfolding merge_inputs
  merge_inputs-covers k [] opts m h = h
  merge_inputs-covers k (input ∷ inputs) opts m h =
      merge_inputs-covers k inputs opts _
        (merge_hits-covers (limit_of opts) k (hits_of input opts) m h)

  -- Every hit of every input is covered.
  abbrev Covers : Merge → SearchOptions → List HookSearchInput → Type 0
  Covers m opts inputs =
      All (λ input. All (λ hit. covers (hit_key hit) m ≡ true) (hits_of input opts)) inputs

  merge_inputs-Covers :
      (inputs : List HookSearchInput) (opts : SearchOptions) (m : Merge)
      → Covers (merge_inputs is_word lower stmt inputs opts m) opts inputs
  unfolding merge_inputs
  merge_inputs-Covers [] opts m = tt
  merge_inputs-Covers (input ∷ inputs) opts m =
      let hits = hits_of input opts in
      let m' = merge_hits (limit_of opts) hits m in
      (
        All-map _ _ hits (λ hit h. merge_inputs-covers (hit_key hit) inputs opts m' h)
            (merge_hits-cover (limit_of opts) hits m),
        merge_inputs-Covers inputs opts m',
      )

  -- The options that the loop hands on.
  abbrev pub with_limit : SearchOptions → SearchOptions
  with_limit opts = record opts { limit = some (limit_of opts) }

  -- Every hit of every input is among those of the result.
  abbrev pub HasAll : List EntryRow → SearchOptions → List HookSearchInput → Type 0
  HasAll out opts inputs =
      All (λ input. All (λ hit. has (hit_key hit) (keys out) ≡ true) (hits_of input opts)) inputs

  Covers-HasAll :
      (limit : ℕ) (m : Merge) (opts : SearchOptions) (inputs : List HookSearchInput)
      → IsMerged limit m
      → m.full ≡ false
      → Covers m opts inputs
      → HasAll m.out opts inputs
  Covers-HasAll limit m opts inputs i room c =
      All-map _ _ inputs
        (λ input h.
          All-map _ _ (hits_of input opts) (λ hit k. ground (arith, i.same (hit_key hit))) h)
        c

  -- With a limit above 0 the segments give at most so many hits, no two with the same source and id;
  -- and either they fill the limit, or every hit of every segment is among them.
  pub find_caveats_for_hook_segments-merged :
      (inputs : List HookSearchInput) (opts : SearchOptions)
      → 0 < limit_of opts
      → let out = find_caveats_for_hook_segments is_word lower stmt inputs opts in
        (length out ≤ limit_of opts)
        × IsDistinct (keys out)
        × ((length out ≡ limit_of opts) ⊎ HasAll out (with_limit opts) inputs)
  unfolding find_caveats_for_hook_segments
  find_caveats_for_hook_segments-merged inputs opts pos =
      let opts' = with_limit opts in
      let m = merge_inputs is_word lower stmt inputs opts' no_hits in
      let i : IsMerged (limit_of opts) m =
        merge_inputs-IsMerged inputs opts' no_hits
          (record { short = omega arith; over = ground arith; same = λ k. refl; distinct = tt }) in
      (
        i.short,
        i.distinct,
        elim (Bool-cases m.full) [
          | inl full ↦ inl (ground (arith, i.short, i.over))
          | inr room ↦ inr (
              Covers-HasAll (limit_of opts) m opts' inputs i room
                (merge_inputs-Covers inputs opts' no_hits))
        ],
      )
