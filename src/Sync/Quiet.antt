-- ===== src/Sync/Quiet.antt =====
-- The part of a sync that only asks: `preflightSync`.
use caveat.Common.{
  ◌≡◌, refl, Bool, true, false, Option, none, some, List, [], ◌∷◌, ◌++◌, Text, codes, trim,
}
use caveat.Sync.{
  Answer, gave, threw, Call, create_git, check_is_repo, show_toplevel, symbolic_ref, list_remotes,
  get_url, git_path, common_dir, status, ls_remote, count_entries, remote_url, ls_heads, ls_symref,
  head_name, Env, World, Sync, ◌>>=◌, done, throw, log, plain, coded, ask, ensure,
}
use caveat.Sync.Remote.{assert_targets, assert_named_github_targets}
use caveat.Sync.Preflight.{
  create_git_client, require_own_directory, inspect_repo, raw, active_rebase, real, or_missing,
  one_of, file_exists, no_origin, branch_of, current_branch, assert_targets_of,
}
use caveat.Sync.Rules.{Keeps, Triple, bind-Triple, bind-Keeps, ensure-Keeps, result-Ends, ask-Keeps}

-- A question that settles nothing: no change here or at the remote, no push URL and no verdict.
abbrev pub is_question : Call → Bool
is_question create_git = true
is_question check_is_repo = true
is_question show_toplevel = true
is_question symbolic_ref = true
is_question list_remotes = true
is_question get_url = true
is_question (git_path name) = true
is_question common_dir = true
is_question status = true
is_question (ls_remote branch) = true
is_question count_entries = true
is_question (remote_url url) = true
is_question (ls_heads url) = true
is_question (ls_symref url) = true
is_question head_name = true
is_question _ = false

-- A property of worlds that no question can break.
module _ (env : Env) (P : World → Type 0)
    (asks : (c : Call) → is_question c ≡ true → (w : World) → P w → P (log c w)) where
  pub create_git_client-Keeps : Keeps P (create_git_client env)
  unfolding create_git_client
  create_git_client-Keeps =
      bind-Keeps P (ask create_git coded (env.text create_git)) (λ a. done tt)
        (ask-Keeps P create_git coded (env.text create_git) (asks create_git refl)) (λ a w p. p)

  pub raw-Keeps : (c : Call) → is_question c ≡ true → Keeps P (raw env c)
  unfolding raw
  raw-Keeps c r =
      bind-Keeps P (ask c plain (env.text c)) (λ out. done (trim out))
        (ask-Keeps P c plain (env.text c) (asks c r)) (λ a w p. p)

  pub inspect_repo-Keeps : Keeps P (inspect_repo env)
  unfolding inspect_repo
  inspect_repo-Keeps = ask-Keeps P check_is_repo plain env.is_repo (asks check_is_repo refl)

  pub require_own_directory-Keeps : Keeps P (require_own_directory env)
  unfolding require_own_directory
  require_own_directory-Keeps w p = ensure-Keeps P (env.is_directory w.trace) _ w p

  one_of-Keeps : (m n : Sync Bool) (b : Bool) → Keeps P m → Keeps P n → Keeps P (one_of env m n b)
  one_of-Keeps m n true h k = h
  one_of-Keeps m n false h k = k

  pub active_rebase-Keeps : (dir : Text) → Keeps P (active_rebase env dir)
  unfolding active_rebase
  active_rebase-Keeps dir =
      let apply : Sync Bool =
        raw env (git_path (codes "rebase-apply")) >>= λ path. file_exists env dir path in
      let apply_keeps : Keeps P apply =
        bind-Keeps P (raw env (git_path (codes "rebase-apply"))) (file_exists env dir)
          (raw-Keeps (git_path (codes "rebase-apply")) refl) (λ path w p. p) in
      bind-Keeps P (raw env (git_path (codes "rebase-merge")))
        (λ path. file_exists env dir path >>= one_of env (done true) apply)
        (raw-Keeps (git_path (codes "rebase-merge")) refl)
        (λ path.
          bind-Keeps P (file_exists env dir path) (one_of env (done true) apply) (λ w p. p)
            (λ merging. one_of-Keeps (done true) apply merging (λ w p. p) apply_keeps))

  pub real-Keeps : (path : Text) → Keeps P (real env path)
  real-Keeps path w p = result-Ends P (or_missing (env.realpath path)) w p

  branch_of-Keeps : (a : Answer Text) → Keeps P (branch_of env a)
  branch_of-Keeps (gave out) w p = p
  branch_of-Keeps (threw code) w p = p

  pub current_branch-Keeps : Keeps P (current_branch env)
  unfolding current_branch
  current_branch-Keeps w p =
      branch_of-Keeps (env.text symbolic_ref w.trace) (log symbolic_ref w)
        (asks symbolic_ref refl w p)

  assert_targets-Keeps : (urls : List Text) → Keeps P (assert_targets env.parse_url urls)
  unfolding assert_targets
  assert_targets-Keeps [] = λ w p. p
  assert_targets-Keeps (url ∷ urls) =
      bind-Keeps P (ensure _ _) (λ u. assert_targets env.parse_url urls) (ensure-Keeps P _ _)
        (λ u. assert_targets-Keeps urls)

  pub assert_named_github_targets-Keeps :
      (urls : List Text) (user : Option Text)
      → Keeps P (assert_named_github_targets env.parse_url urls user)
  unfolding assert_named_github_targets
  assert_named_github_targets-Keeps urls none = λ w p. p
  assert_named_github_targets-Keeps urls (some user) =
      bind-Keeps P (ensure _ _) (λ u. assert_targets env.parse_url urls) (ensure-Keeps P _ _)
        (λ u. assert_targets-Keeps urls)

  pub assert_targets_of-Keeps :
      (urls : List Text) (user : Option Text) → Keeps P (assert_targets_of env urls user)
  unfolding assert_targets_of
  assert_targets_of-Keeps urls none = λ w p. p
  assert_targets_of-Keeps urls (some user) =
      bind-Keeps P (raw env get_url)
        (λ url. assert_named_github_targets env.parse_url (urls ++ url ∷ []) (some user))
        (raw-Keeps get_url refl)
        (λ url. assert_named_github_targets-Keeps (urls ++ url ∷ []) (some user))

  -- It never returns.
  pub no_origin-Triple : (R : List Text → World → Type 0) → Triple P (no_origin env) R P
  no_origin-Triple R =
      bind-Triple P P (ask list_remotes plain (env.text list_remotes)) (λ a. P) (λ a. throw _) R
        (ask-Keeps P list_remotes plain (env.text list_remotes) (asks list_remotes refl))
        (λ a w p. p)
