-- ===== src/Sync/Own.antt =====
-- `syncOwn` of packages/core/src/sync.ts: the locks, and what is done under them.
use caveat.Common.{
  ℕ, Bool, true, false, not, ◌||◌, Option, none, some, List, [], ◌∷◌, Text, if◌then◌else◌, length,
  trim,
}
use caveat.Lock.{acquire_file_lock, release_file_lock}
use caveat.AutoSync.{
  sync_busy, worktree_dirty, sync_conflict, SyncErrorCode, inspect, pull, push, SyncFailure,
  sync_error, remote_error, recovery_error,
}
use caveat.Sync.{
  Answer, gave, threw, status, add_all, rebase_abort, reindex, commit, common_dir, ls_remote,
  pushed, pulled, Env, World, Result, ok, failed, Sync, ◌>>=◌, ◌>>◌, done, throw, log, plain,
  remote, ask, ensure,
}
use caveat.Sync.Preflight.{
  PreflightOptions, SyncPreflight, create_git_client, require_own_directory, inspect_repo, raw,
  active_rebase, real, preflight_sync,
}

-- `SyncOwnOptions`; `refuse` is the dirty policy of scheduled reception.
pub record SyncOwnOptions : Type 0 where
  pub own_dir : Text
  pub preflight : PreflightOptions
  pub dry_run : Bool
  pub refuse : Bool
  pub held_reindex_lock : Bool

-- `SyncOwnResult`
pub record SyncOwnResult : Type 0 where
  pub preflight : SyncPreflight
  pub committed : Bool
  pub was_pulled : Bool
  pub was_pushed : Bool
  pub dry_run : Bool
  pub changed_files : ℕ

abbrev pub is_clean : List Text → Bool
is_clean [] = true
is_clean (f ∷ fs) = false

abbrev pub in_recovery {ℓ} : {A : Type ℓ} → World × Result A → World × Result A
in_recovery (w, ok a) = (w, ok a)
in_recovery (w, failed e) = (w, failed recovery_error)

-- A failure while recovering.
abbrev pub recovering {ℓ} : {A : Type ℓ} → Sync A → Sync A
recovering m w = in_recovery (m w)

module _ (env : Env) where
  -- `git.status()`
  unfoldable pub changed_paths : Sync (List Text)
  changed_paths = ask status plain env.files

  -- Scheduled reception stops at uncommitted changes.
  unfoldable pub refuse_dirty : Bool → Sync (Unit {0})
  unfolding changed_paths
  refuse_dirty false = done tt
  refuse_dirty true = changed_paths >>= λ files. ensure (is_clean files) (sync_error worktree_dirty)

  -- The commit of the changes; whether there was one.
  unfoldable pub commit_changes : List Text → Sync Bool
  commit_changes [] = done false
  commit_changes (f ∷ fs) = do
    ask add_all plain (env.text add_all)
    ask (commit (length (f ∷ fs))) plain (env.text (commit (length (f ∷ fs))))
    done true

  -- A pull that failed before a rebase began.
  abbrev pub pull_error : Option SyncErrorCode → SyncFailure
  pull_error none = remote_error pull
  pull_error (some code) = sync_error code

  -- The abort of the rebase that a pull left, and the conflict that is reported.
  unfoldable pub abort_rebase : Text → Sync Bool
  unfolding raw active_rebase
  abort_rebase own_dir = do
    recovering (
        raw env rebase_abort >>= λ out.
        active_rebase env own_dir >>= λ still. ensure (not still) recovery_error)
    throw (sync_error sync_conflict)

  abbrev pub after_failed_pull : Text → Option SyncErrorCode → Bool → Sync Bool
  after_failed_pull own_dir code false = throw (pull_error code)
  after_failed_pull own_dir code true = abort_rebase own_dir

  abbrev pub pull_answer : Text → Answer Text → Sync Bool
  pull_answer own_dir (gave out) = done true
  pull_answer own_dir (threw code) =
      recovering (active_rebase env own_dir) >>= after_failed_pull own_dir code

  unfoldable pub pull_branch : SyncPreflight → Bool → Sync Bool
  unfolding abort_rebase active_rebase
  pull_branch pf refuse w =
      let call = pulled pf.branch (not refuse) in
      pull_answer pf.own_dir (env.text call w.trace) (log call w)

  -- The pull, when the remote has the branch; whether there was one.
  unfoldable pub receive : SyncPreflight → Bool → Text → Sync Bool
  unfolding pull_branch
  receive pf refuse [] = done false
  receive pf refuse (c ∷ cs) = pull_branch pf refuse

  -- The rest of a sync that is no dry run.
  unfoldable pub exchange : SyncOwnOptions → SyncPreflight → List Text → Sync SyncOwnResult
  unfolding commit_changes receive refuse_dirty
  exchange opts pf files = do
    committed ← commit_changes files
    heads ← ask (ls_remote pf.branch) (remote inspect) (env.text (ls_remote pf.branch))
    was_pulled ← receive pf opts.refuse (trim heads)
    refuse_dirty opts.refuse
    ask reindex plain (env.text reindex)
    ask (pushed pf.branch) (remote push) (env.text (pushed pf.branch))
    done (record {
      preflight = pf;
      committed = committed;
      was_pulled = was_pulled;
      was_pushed = true;
      dry_run = false;
      changed_files = length files;
    })

  abbrev pub planned : SyncPreflight → List Text → SyncOwnResult
  planned pf files = record {
    preflight = pf;
    committed = false;
    was_pulled = false;
    was_pushed = false;
    dry_run = true;
    changed_files = length files;
  }

  -- What `syncOwnLocked` does after the preflight.
  unfoldable pub after_preflight : SyncOwnOptions → SyncPreflight → Sync SyncOwnResult
  unfolding changed_paths exchange create_git_client
  after_preflight opts pf = do
    create_git_client env
    files ← changed_paths
    ensure (not opts.refuse || is_clean files) (sync_error worktree_dirty)
    if opts.dry_run then done (planned pf files) else exchange opts pf files

  -- `syncOwnLocked`
  unfoldable pub sync_own_locked : SyncOwnOptions → Sync SyncOwnResult
  unfolding preflight_sync after_preflight
  sync_own_locked opts = preflight_sync env opts.own_dir opts.preflight >>= after_preflight opts

  -- `finally`
  abbrev pub release_repo {ℓ} : {A : Type ℓ} → World × Result A → World × Result A
  release_repo (w, r) = (record w { repo_lock = release_file_lock w.repo_lock }, r)

  abbrev pub release_index {ℓ} : {A : Type ℓ} → World × Result A → World × Result A
  release_index (w, r) = (record w { index_lock = release_file_lock w.index_lock }, r)

  -- What runs under the lock of the repository.
  unfoldable pub with_repo_lock : Sync SyncOwnResult → Sync SyncOwnResult
  with_repo_lock body w =
      let (file, taken) = acquire_file_lock env.kill env.me w.repo_lock in
      let w' : World = record w { repo_lock = file } in
      if taken then release_repo (body w') else (w', failed (sync_error sync_busy))

  abbrev pub in_repo : SyncOwnOptions → Bool → Sync SyncOwnResult
  in_repo opts false = sync_own_locked opts
  in_repo opts true = raw env common_dir >>= λ out.
      real env (env.resolve_in opts.own_dir out) >>= λ common.
      with_repo_lock (refuse_dirty opts.refuse >> sync_own_locked opts)

  -- The `try` block.
  unfoldable pub sync_own_body : SyncOwnOptions → Sync SyncOwnResult
  unfolding sync_own_locked with_repo_lock refuse_dirty
  sync_own_body opts = do
    require_own_directory env
    create_git_client env
    repo ← inspect_repo env
    in_repo opts repo

  -- `syncOwn`
  unfoldable pub sync_own : SyncOwnOptions → Sync SyncOwnResult
  unfolding sync_own_body
  sync_own opts w =
      if opts.held_reindex_lock
      then sync_own_body opts w
      else (let (file, taken) = acquire_file_lock env.kill env.me w.index_lock in
          let w' : World = record w { index_lock = file } in
          if taken
          then release_index (sync_own_body opts w')
          else (w', failed (sync_error sync_busy)))
