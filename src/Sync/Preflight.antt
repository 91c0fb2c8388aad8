-- ===== src/Sync/Preflight.antt =====
-- `preflightSync` of packages/core/src/sync.ts and what it calls.
use caveat.Common.{
  Bool, true, false, not, Option, none, some, List, [], ◌∷◌, ◌++◌, map, Text, codes, if◌then◌else◌,
  ltb, nat_beq, length, select, split, trim, list_eq, nat_eq, ◌==◌,
}
use caveat.AutoSync.{
  not_a_repo, external_toplevel, detached_head, no_remote, remote_public,
  remote_visibility_indeterminate, rebase_in_progress, sync_error, other_error, RemoteAccess,
  anonymous_readable, denied, indeterminate,
}
use caveat.Sync.{
  Answer, gave, threw, Call, create_git, check_is_repo, show_toplevel, symbolic_ref, targets,
  list_remotes, get_url, git_path, probed, Env, Result, ok, failed, Sync, ◌>>=◌, ◌>>◌, done, throw,
  log, plain, coded, ask, ensure,
}
use caveat.Sync.Remote.{derive_anonymous_probe_url, assert_named_github_targets}

-- `PreflightSyncOptions`
pub record PreflightOptions : Type 0 where
  pub github_user : Option Text
  pub trust_remote_private : Bool

-- `SyncPreflight`
pub record SyncPreflight : Type 0 where
  pub own_dir : Text
  pub branch : Text
  pub urls : List Text
  pub probe : RemoteAccess

abbrev pub or_missing : Option Text → Result Text
or_missing none = failed other_error
or_missing (some path) = ok path

module _ (env : Env) where
  -- `createGit`
  unfoldable pub create_git_client : Sync (Unit {0})
  create_git_client = ask create_git coded (env.text create_git) >> done tt

  -- `requireOwnDirectory`
  unfoldable pub require_own_directory : Sync (Unit {0})
  require_own_directory w = ensure (env.is_directory w.trace) (sync_error not_a_repo) w

  -- `git.checkIsRepo()`
  unfoldable pub inspect_repo : Sync Bool
  inspect_repo = ask check_is_repo plain env.is_repo

  -- A command of git whose failure passes as it is; its output is trimmed.
  unfoldable pub raw : Call → Sync Text
  raw c = ask c plain (env.text c) >>= λ out. done (trim out)

  abbrev pub one_of : (yes_case no_case : Sync Bool) → Bool → Sync Bool
  one_of here later true = here
  one_of here later false = later

  abbrev pub file_exists : Text → Text → Sync Bool
  file_exists own_dir path w = (w, ok (env.exists (env.resolve_in own_dir path) w.trace))

  -- `activeRebase`: the loop over the two names.
  unfoldable pub active_rebase : Text → Sync Bool
  unfolding raw
  active_rebase own_dir = raw (git_path (codes "rebase-merge")) >>= λ merge.
      file_exists own_dir merge >>= λ merging.
      one_of (done true)
        (raw (git_path (codes "rebase-apply")) >>= λ apply. file_exists own_dir apply) merging

  -- The lines of the answer, trimmed, without the empty ones.
  abbrev pub url_lines : Text → List Text
  url_lines out = select (λ u. ltb 0 (length u)) (map trim (split (λ c. nat_beq c 10) out))

  abbrev pub some_urls : List Text → Sync (List Text)
  some_urls [] w = (w, failed (sync_error no_remote))
  some_urls (u ∷ us) w = (log (targets (u ∷ us)) w, ok (u ∷ us))

  -- The `catch` asks for the remotes only to name them.
  abbrev pub no_origin : Sync (List Text)
  no_origin = ask list_remotes plain (env.text list_remotes) >> throw (sync_error no_remote)

  abbrev pub urls_of : Answer Text → Sync (List Text)
  urls_of (gave out) = some_urls (url_lines out)
  urls_of (threw code) = no_origin

  -- `effectivePushUrls`
  unfoldable pub effective_push_urls : Sync (List Text)
  effective_push_urls w = urls_of (env.push_urls w.trace) w

  -- What the loop does with a verdict: the worst so far, or an error.
  unfoldable pub judge : Bool → RemoteAccess → RemoteAccess → Result RemoteAccess
  judge trust worst anonymous_readable = failed (sync_error remote_public)
  judge trust worst (denied status) = ok worst
  judge trust worst (indeterminate reason) =
      if trust
      then ok (indeterminate reason)
      else failed (sync_error remote_visibility_indeterminate)

  -- One probe. An implementation that throws passes its error on, and leaves no verdict.
  abbrev pub probe_one : Bool → Text → RemoteAccess → Answer RemoteAccess → Sync RemoteAccess
  probe_one trust url worst (threw code) w = (w, failed other_error)
  probe_one trust url worst (gave verdict) w =
      (log (probed url verdict) w, judge trust worst verdict)

  -- The loop of `assertPrivateRemotes`.
  unfoldable pub probe_all : Bool → List Text → RemoteAccess → Sync RemoteAccess
  unfolding judge derive_anonymous_probe_url
  probe_all trust [] worst = done worst
  probe_all trust (url ∷ urls) worst =
      (λ w.
        probe_one trust url worst
          (env.verdict (derive_anonymous_probe_url env.parse_url url) w.trace) w)
      >>= λ worse. probe_all trust urls worse

  -- `assertPrivateRemotes`
  unfoldable pub assert_private_remotes : Bool → List Text → Sync RemoteAccess
  unfolding probe_all
  assert_private_remotes trust urls = probe_all trust urls (denied 0)

  -- `normalizePath`
  unfoldable pub normalize_path : Text → Text
  normalize_path path =
      env.normalize_case (map (λ c. if nat_beq c 92 then 47 else c) (env.resolve path))

  -- `realpathSync.native`, which throws where there is no such file.
  abbrev pub real : Text → Sync Text
  real path w = (w, or_missing (env.realpath path))

  -- The `catch` of `symbolic-ref`.
  abbrev pub branch_of : Answer Text → Sync Text
  branch_of (gave out) = done (trim out)
  branch_of (threw code) = throw (sync_error detached_head)

  unfoldable pub current_branch : Sync Text
  current_branch w = branch_of (env.text symbolic_ref w.trace) (log symbolic_ref w)

  -- With a named user the push URLs and the fetch URL must be of GitHub.
  unfoldable pub assert_targets_of : List Text → Option Text → Sync (Unit {0})
  unfolding raw assert_named_github_targets
  assert_targets_of urls none = done tt
  assert_targets_of urls (some user) = raw get_url >>= λ url.
      assert_named_github_targets env.parse_url (urls ++ url ∷ []) (some user)

  -- `preflightSync`
  unfoldable pub preflight_sync : Text → PreflightOptions → Sync SyncPreflight
  unfolding create_git_client require_own_directory inspect_repo raw active_rebase
      effective_push_urls assert_private_remotes normalize_path current_branch assert_targets_of
  preflight_sync own_dir opts = do
    require_own_directory
    create_git_client
    repo ← inspect_repo
    ensure repo (sync_error not_a_repo)
    top ← raw show_toplevel
    root ← real top
    requested ← real own_dir
    ensure (normalize_path root == normalize_path requested) (sync_error external_toplevel)
    rebasing ← active_rebase requested
    ensure (not rebasing) (sync_error rebase_in_progress)
    branch ← current_branch
    urls ← effective_push_urls
    assert_targets_of urls opts.github_user
    probe ← assert_private_remotes opts.trust_remote_private urls
    done (record { own_dir = requested; branch = branch; urls = urls; probe = probe })
