-- ===== src/Retrieval/Surfaces.antt =====
-- `findCaveatsForHook` and `findCaveatsForHookSegments` of packages/core/src/claudeHooks.ts.
use caveat.Common.{
  ℕ, Bool, false, Option, none, some, List, [], ◌∷◌, ◌++◌, map, Text, leb, length, if◌then◌else◌,
  select, ltb, join, list_eq, nat_eq,
}
use caveat.Common.Maps.{has}
use caveat.Retrieval.Candidates.{build_prompt_candidates}
use caveat.Retrieval.Search.{EntryRow, SearchOptions, limit_of, find_caveats_for_text}

pub data HookSearchSurface : Type 0 where
  user_prompt tool_error stop : HookSearchSurface

pub record HookSearchInput : Type 0 where
  pub topic_text : Text
  pub failure_text : Text
  pub surface : HookSearchSurface

-- `a || b` on strings
abbrev pub or_else : Text → Text → Text
or_else [] b = b
or_else (c ∷ cs) b = c ∷ cs

-- `${hit.source}\u0000${hit.id}`
abbrev pub hit_key : EntryRow → Text
hit_key hit = hit.source ++ (0 ∷ hit.id)

-- What the loops have put out, and whether they returned early.
pub record Merge : Type 0 where
  pub out : List EntryRow
  pub seen : List Text
  pub full : Bool

abbrev pub no_hits : Merge
no_hits = record { out = []; seen = []; full = false }

unfoldable pub push_hit : ℕ → EntryRow → Merge → Merge
push_hit limit hit m =
    let out = m.out ++ hit ∷ [] in
    record { out = out; seen = hit_key hit ∷ m.seen; full = leb limit (length out) }

-- The inner loop: one hit.
unfoldable pub merge_hit : ℕ → EntryRow → Merge → Merge
unfolding push_hit
merge_hit limit hit m =
    if m.full then m else if has (hit_key hit) m.seen then m else push_hit limit hit m

unfoldable pub merge_hits : ℕ → List EntryRow → Merge → Merge
merge_hits limit [] m = m
merge_hits limit (hit ∷ hits) m = merge_hits limit hits (merge_hit limit hit m)

module _ (is_word : ℕ → Bool) (lower : Text → Text) (stmt : Text → Option (List EntryRow)) where
  -- `findCaveatsForHook`
  unfoldable pub hook_hits : HookSearchSurface → Text → Text → SearchOptions → List EntryRow
  hook_hits user_prompt topic failure opts =
      find_caveats_for_text is_word lower stmt (some (or_else topic failure)) opts none
  hook_hits stop topic failure opts =
      find_caveats_for_text is_word lower stmt (some failure) opts none
  hook_hits tool_error topic failure opts =
      let failure_tokens =
        map (λ c. lower c.token) (build_prompt_candidates is_word lower failure) in
      let text = join (10 ∷ []) (select (λ t. ltb 0 (length t)) (topic ∷ failure ∷ [])) in
      find_caveats_for_text is_word lower stmt (some text) opts (some failure_tokens)

  unfoldable pub find_caveats_for_hook : HookSearchInput → SearchOptions → List EntryRow
  find_caveats_for_hook input opts =
      hook_hits input.surface input.topic_text input.failure_text opts

  -- The outer loop.
  unfoldable pub merge_inputs : List HookSearchInput → SearchOptions → Merge → Merge
  merge_inputs [] opts m = m
  merge_inputs (input ∷ inputs) opts m =
      merge_inputs inputs opts (merge_hits (limit_of opts) (find_caveats_for_hook input opts) m)

  -- `findCaveatsForHookSegments`
  unfoldable pub find_caveats_for_hook_segments :
      List HookSearchInput → SearchOptions → List EntryRow
  find_caveats_for_hook_segments inputs opts =
      (merge_inputs inputs (record opts { limit = some (limit_of opts) }) no_hits).out
