-- ===== src/Sync/Tests.antt =====
-- Runs of the sync.
use caveat.Common.{
  ◌↔◌, ◌≡◌, refl, true, false, Option, none, some, List, [], ◌∷◌, ◌++◌, Text, codes, all,
}
use caveat.Lock.{running, acquire_file_lock, release_file_lock}
use caveat.AutoSync.{
  both_have_entries, denied, anonymous_readable, remote_public, sync_error, worktree_dirty,
}
use caveat.Sync.{
  Answer, gave, threw, Call, make_dir, git_init, remove_git_dir, scaffolded, count_entries,
  add_remote, head_name, create_git, check_is_repo, show_toplevel, symbolic_ref, targets, git_path,
  probed, common_dir, status, add_all, reindex, commit, ls_remote, pushed, pulled, ls_heads,
  ls_symref, Env, World, failed, ◌>>=◌,
}
use caveat.Sync.Remote.{Response, probe_anonymous_read}
use caveat.Sync.Preflight
use caveat.Sync.Own
use caveat.Sync.Own.{SyncOwnOptions, SyncOwnResult, sync_own}
use caveat.Sync.Init
use caveat.Sync.Init.{InitOwnSyncOptions, InitOwnSyncResult, init_own_sync}
use caveat.Sync.Restrained.{sync_own-dry_run, sync_own-refuse, is_inspection, is_exchange}
use caveat.Sync.Reports.{sync_own-IsReported, IsReported}
use caveat.Sync.Undone.{init_own_sync-IsSettled, IsSettled}
use caveat.Sync.Verdicts.{probe_anonymous_read-verdict, with_slash, Answers, IsServed, IsRefused}

runs : Unit {0}
unfolding sync_own init_own_sync ◌>>=◌ acquire_file_lock release_file_lock Own.sync_own_body
    Own.sync_own_locked Own.after_preflight Own.with_repo_lock Own.exchange Own.receive
    Own.pull_branch Own.abort_rebase Own.commit_changes Own.refuse_dirty Own.changed_paths
    Preflight.preflight_sync Preflight.assert_targets_of Preflight.current_branch
    Preflight.normalize_path Preflight.assert_private_remotes Preflight.probe_all Preflight.judge
    Preflight.effective_push_urls Preflight.active_rebase Preflight.raw Preflight.inspect_repo
    Preflight.require_own_directory Preflight.create_git_client Init.init_repo Init.with_rollback
    Init.rolled_back Init.connect Init.join_own Init.import_own Init.assert_fetch_target
    Init.default_remote_branch Init.first_head Init.symref_branch
runs = tt

-- A repository with one changed file, whose remote has the branch and two push URLs.
abbrev answer : Call → Answer Text
answer symbolic_ref = gave (codes "main")
answer (ls_remote branch) = gave (codes "1 refs/heads/main")
answer (ls_heads url) = gave (codes "1 refs/heads/main")
answer (ls_symref url) = gave (codes "ref: refs/heads/main HEAD")
answer _ = gave []

abbrev env : Env
env = record {
  text = λ c t. answer c;
  push_urls = λ t. gave (97 ∷ 10 ∷ 98 ∷ 10 ∷ []);
  is_repo = λ t. gave true;
  files = λ t. gave (codes "f" ∷ []);
  entry_count = λ t. gave 0;
  is_directory = λ t. true;
  exists = λ p t. false;
  verdict = λ u t. gave (denied 404);
  realpath = some;
  resolve = λ p. p;
  normalize_case = λ p. p;
  resolve_in = λ b p. p;
  parse_url = λ u. none;
  kill = λ pid. running;
  me = 7;
}

-- The same with nothing changed.
abbrev clean : Env
clean = record env { files = λ t. gave []; is_repo = λ t. gave true }

-- No repository is there yet, and the second push URL is public.
abbrev public : Env
public = record env { is_repo = λ t. gave false; verdict = λ u t. gave anonymous_readable }

abbrev opts : SyncOwnOptions
opts = record {
  own_dir = [];
  preflight = record { github_user = none; trust_remote_private = false };
  dry_run = false;
  refuse = false;
  held_reindex_lock = false;
}

abbrev init_opts : InitOwnSyncOptions
init_opts = record {
  own_dir = [];
  url = codes "u";
  preflight = record { github_user = none; trust_remote_private = false };
}

abbrev quiet : World
quiet = record { trace = []; index_lock = none; repo_lock = none }

abbrev rebase_paths : List Call
rebase_paths = git_path (codes "rebase-merge") ∷ git_path (codes "rebase-apply") ∷ []

abbrev asked : List Call
asked =
    create_git ∷ check_is_repo ∷ common_dir ∷ create_git ∷ check_is_repo ∷ show_toplevel
      ∷ rebase_paths
    ++ symbolic_ref
      ∷ targets (codes "a" ∷ codes "b" ∷ [])
      ∷ probed (codes "a") (denied 404)
      ∷ probed (codes "b") (denied 404)
      ∷ create_git
      ∷ status
      ∷ []

sync_run :
    (sync_own env opts quiet).0.trace
    ≡ asked
      ++ add_all
        ∷ commit 1
        ∷ ls_remote (codes "main")
        ∷ pulled (codes "main") true
        ∷ reindex
        ∷ pushed (codes "main")
        ∷ []
unfolding runs
sync_run = refl

refuse_run :
    (sync_own env (record opts { refuse = true }) quiet).1 ≡ failed (sync_error worktree_dirty)
unfolding runs
refuse_run = refl

init_run : (init_own_sync public init_opts quiet).1 ≡ failed (sync_error remote_public)
unfolding runs
init_run = refl

sync_own-dry_run_example :
    all is_inspection (sync_own env (record opts { dry_run = true }) quiet).0.trace ≡ true
sync_own-dry_run_example = sync_own-dry_run env (record opts { dry_run = true }) quiet refl refl

sync_own-refuse_example :
    all is_exchange (sync_own clean (record opts { refuse = true }) quiet).0.trace ≡ true
sync_own-refuse_example = sync_own-refuse clean (record opts { refuse = true }) quiet refl refl

init_own_sync-IsSettled_example : IsSettled public (init_own_sync public init_opts quiet)
init_own_sync-IsSettled_example = init_own_sync-IsSettled public init_opts quiet refl

-- `new URL` joins, and a server answers every request with the status 404.
abbrev joined : (relative base : Text) → Option Text
joined relative base = some (base ++ relative)

abbrev missing : Text → Option Response
missing url = some (record { status = 404; content_type = none })

probe_anonymous_read-verdict_example :
    (let result =
        probe_anonymous_read (λ t. t) (λ n. []) joined missing (some (codes "https://h/r")) in
      let endpoint =
        joined (codes "info/refs?service=git-upload-pack") (with_slash (codes "https://h/") 114) in
      ((result ≡ threw none) ↔ (endpoint ≡ none))
      × ((result ≡ gave anonymous_readable) ↔ Answers missing endpoint (IsServed (λ t. t)))
      × ((result ≡ gave (denied 404)) ↔ Answers missing endpoint (IsRefused 404)))
probe_anonymous_read-verdict_example =
    probe_anonymous_read-verdict (λ t. t) (λ n. []) joined missing (codes "https://h/") 114 404

sync_own-IsReported_example : IsReported opts (sync_own env opts quiet)
sync_own-IsReported_example = sync_own-IsReported env opts quiet

-- The first import reaches the remote, and then the index cannot be rebuilt: the `.git` is removed.
abbrev unindexed : Call → Answer Text
unindexed head_name = gave (codes "main")
unindexed reindex = threw none
unindexed _ = gave []

abbrev first : Env
first = record env {
  text = λ c t. unindexed c;
  is_repo = λ t. gave false;
  entry_count = λ t. gave 1;
}

first_run :
    (init_own_sync first init_opts quiet).0.trace
    ≡ make_dir
      ∷ create_git
      ∷ check_is_repo
      ∷ create_git
      ∷ ls_heads (codes "u")
      ∷ count_entries
      ∷ create_git
      ∷ git_init
      ∷ add_remote (codes "u")
      ∷ targets (codes "a" ∷ codes "b" ∷ [])
      ∷ probed (codes "a") (denied 404)
      ∷ probed (codes "b") (denied 404)
      ∷ scaffolded
      ∷ add_all
      ∷ commit 1
      ∷ head_name
      ∷ pushed (codes "main")
      ∷ reindex
      ∷ remove_git_dir
      ∷ []
unfolding runs
first_run = refl

-- The next start finds the branch at the remote and the entry here.
next_run :
    (init_own_sync
      (record env { is_repo = λ t. gave false; entry_count = λ t. gave 1 })
      init_opts
      quiet).1
    ≡ failed (sync_error both_have_entries)
unfolding runs
next_run = refl
