-- ===== src/Retrieval/Tests.antt =====
-- Small searches. ASCII letters and digits stand for `\p{L}` and `\p{N}`, and ASCII lower case for
-- `toLowerCase`; the table has three entries.
use caveat.Common.{
  ℕ, ◌+◌, ◌≤◌, ◌≡◌, ◌⊎◌, ◌↔◌, refl, Bool, true, false, ◌&&◌, ◌||◌, Option, none, some, List, [],
  ◌∷◌, Text, codes, leb, if◌then◌else◌, includes, length, All, arith, if-both, list_eq, nat_eq,
}
use caveat.Common.Maps.{IsDistinct}
use caveat.Retrieval.{points, is_cjk_dominated, is_pure_hiragana, expand_token, token_appears_in}
use caveat.Retrieval.Paths.{strip_fs_paths}
use caveat.Retrieval.Candidates.{expand_tokens, build_prompt_candidates, extract_prompt_candidates}
use caveat.Retrieval.Search.{
  EntryRow, SearchOptions, passes, group_count, row_of, ranked, land, visit_rows, visit_all,
  find_for_candidates, find_caveats_for_text,
}
use caveat.Retrieval.Surfaces.{
  HookSearchInput, tool_error, stop, hook_hits, find_caveats_for_hook,
  find_caveats_for_hook_segments, merge_hit, merge_hits, merge_inputs,
}
use caveat.Retrieval.Bounds.{IsSearchable, lowered, build_prompt_candidates-All}
use caveat.Retrieval.Boundaries.{StandsIn, token_appears_in_iff}
use caveat.Retrieval.Landing.{found, AreRows}
use caveat.Retrieval.Rarest.{Passes}
use caveat.Retrieval.Gates.{find_caveats_for_text-Passes}
use caveat.Retrieval.Merge.{keys, HasAll, with_limit, find_caveats_for_hook_segments-merged}

runs : Unit {0}
unfolding is_cjk_dominated is_pure_hiragana expand_token token_appears_in strip_fs_paths
    expand_tokens build_prompt_candidates extract_prompt_candidates passes group_count row_of ranked
    land visit_rows visit_all find_for_candidates find_caveats_for_text hook_hits
    find_caveats_for_hook find_caveats_for_hook_segments merge_hit merge_hits merge_inputs
runs = tt

abbrev word : ℕ → Bool
word c = (leb 48 c && leb c 57) || (leb 65 c && leb c 90) || (leb 97 c && leb c 122) || leb 0x3040 c

abbrev small : Text → Text
small [] = []
small (c ∷ cs) = (if leb 65 c && leb c 90 then c + 32 else c) ∷ small cs

unc_paths : strip_fs_paths (codes "in \\\\srv\\x now") ≡ codes "in   now"
unfolding runs
unc_paths = refl

drive_paths : strip_fs_paths (codes "C:\\a\\b \"d:/x y") ≡ codes "  \"  y"
unfolding runs
drive_paths = refl

posix_paths :
    strip_fs_paths (codes "see /home/me/x and /etc (/a/b//c") ≡ codes "see   and /etc ( /c"
unfolding runs
posix_paths = refl

urls : strip_fs_paths (codes "get https://a.b/c/d") ≡ codes "get https://a.b/c/d"
unfolding runs
urls = refl

words :
    extract_prompt_candidates word small (some (codes "CUDA cuda is-not init"))
    ≡ codes "CUDA" ∷ codes "not" ∷ codes "init" ∷ []
unfolding runs
words = refl

trigrams :
    extract_prompt_candidates word small (some (codes "初期化する"))
    ≡ codes "初期化" ∷ codes "期化す" ∷ codes "化する" ∷ []
unfolding runs
trigrams = refl

whole_words : token_appears_in word (codes "cuda") (codes "use cuda.") ≡ true
unfolding runs
whole_words = refl

parts_of_words : token_appears_in word (codes "cuda") (codes "cudagetdevice") ≡ false
unfolding runs
parts_of_words = refl

abbrev row : ℕ → EntryRow
row n = record {
  rowid = n;
  id = n ∷ [];
  source = codes "own";
  symptom_text = some (codes "init fails on start");
  topical_text = some (if leb n 1 then codes "CUDA driver" else codes "npm");
}

-- All entries hold "init" and "fails", and the first holds "cuda".
abbrev stmt : Text → Option (List EntryRow)
stmt query =
    if includes (codes "cuda") (small query)
    then some (row 1 ∷ [])
    else if includes (codes "init") query || includes (codes "fails") query
    then some (row 1 ∷ row 2 ∷ row 3 ∷ [])
    else none

abbrev options : SearchOptions
options = record { limit = none; self_identity = none }

abbrev prompt : Text
prompt = codes "CUDA init fails!"

found_one : find_caveats_for_text word small stmt (some prompt) options none ≡ row 1 ∷ []
unfolding runs
found_one = refl

-- The topic alone is no symptom.
topic_only : find_caveats_for_text word small stmt (some (codes "CUDA driver")) options none ≡ []
unfolding runs
topic_only = refl

stmt-IsTable : (query : Text) → AreRows word small stmt row (found (stmt query))
stmt-IsTable query =
    let P = λ (o : Option (List EntryRow)). AreRows word small stmt row (found o) in
    if-both P (includes (codes "cuda") (small query)) _ _ (refl, tt)
      (if-both P (includes (codes "init") query || includes (codes "fails") query) _ _
        (refl, (refl, (refl, tt))) tt)

abbrev segments : List HookSearchInput
segments =
    record { topic_text = codes "CUDA"; failure_text = codes "init fails"; surface = tool_error }
    ∷ record { topic_text = []; failure_text = prompt; surface = stop }
    ∷ []

one_of_two : find_caveats_for_hook_segments word small stmt segments options ≡ row 1 ∷ []
unfolding runs
one_of_two = refl

build_prompt_candidates-All_example :
    (length (build_prompt_candidates word small prompt) ≤ 50)
    × IsDistinct (lowered word small (build_prompt_candidates word small prompt))
    × All IsSearchable (build_prompt_candidates word small prompt)
build_prompt_candidates-All_example = build_prompt_candidates-All word small prompt

token_appears_in_iff_example :
    (token_appears_in word (codes "cuda") (codes "use cuda.") ≡ true)
    ↔ StandsIn word (points (codes "cuda")) (points (codes "use cuda."))
unfolding runs
token_appears_in_iff_example = token_appears_in_iff word (codes "cuda") 117 (codes "se cuda.") refl

find_caveats_for_text-Passes_example :
    All
      (Passes word small stmt row none (build_prompt_candidates word small prompt))
      (find_caveats_for_text word small stmt (some prompt) options none)
find_caveats_for_text-Passes_example =
    find_caveats_for_text-Passes word small stmt row 67 (codes "UDA init fails!") options none
      stmt-IsTable

find_caveats_for_hook_segments-merged_example :
    let out = find_caveats_for_hook_segments word small stmt segments options in
    (length out ≤ 5)
    × IsDistinct (keys out)
    × ((length out ≡ 5) ⊎ HasAll word small stmt out (with_limit word small stmt options) segments)
find_caveats_for_hook_segments-merged_example =
    find_caveats_for_hook_segments-merged word small stmt segments options (omega arith)
