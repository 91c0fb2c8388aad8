-- ===== src/Sync/Locked.antt =====
-- `syncOwn` of packages/core/src/sync.ts around `syncOwnLocked`: what the calls under the locks keep,
-- all its calls keep.
use caveat.Common.{◌≡◌, refl, Bool, true, false, if◌then◌else◌}
use caveat.Lock.{LockFile, acquire_file_lock}
use caveat.Sync.{Call, status, common_dir, Env, World, Result, ok, failed, Sync, log, plain}
use caveat.Sync.Own.{
  SyncOwnOptions, SyncOwnResult, changed_paths, refuse_dirty, sync_own_locked, with_repo_lock,
  release_repo, release_index, in_repo, sync_own_body, sync_own,
}
use caveat.Sync.Rules.{Keeps, Ends, ensure-Keeps, ask-Keeps, bind-Keeps}
use caveat.Sync.Quiet.{
  is_question, create_git_client-Keeps, inspect_repo-Keeps, require_own_directory-Keeps, raw-Keeps,
  real-Keeps,
}

module _ {A : Type 0} (P : World → Type 0) where
  pub if-Ends :
      (b : Bool) (r r' : World × Result A)
      → Ends (λ a. P) P r
      → Ends (λ a. P) P r'
      → Ends (λ a. P) P (if b then r else r')
  if-Ends true r r' h k = h
  if-Ends false r r' h k = k

  pub if-Keeps : (b : Bool) (m n : Sync A) → Keeps P m → Keeps P n → Keeps P (if b then m else n)
  if-Keeps true m n h k = h
  if-Keeps false m n h k = k

module _ (env : Env) (P : World → Type 0)
    (asks : (c : Call) → is_question c ≡ true → (w : World) → P w → P (log c w)) where
  pub changed_paths-Keeps : Keeps P (changed_paths env)
  unfolding changed_paths
  changed_paths-Keeps = ask-Keeps P status plain env.files (asks status refl)

  pub refuse_dirty-Keeps : (b : Bool) → Keeps P (refuse_dirty env b)
  unfolding refuse_dirty
  refuse_dirty-Keeps false = λ w p. p
  refuse_dirty-Keeps true = bind-Keeps P _ _ changed_paths-Keeps (λ files. ensure-Keeps P _ _)

  module _ (repo_lock : (w : World) (f : LockFile) → P w → P (record w { repo_lock = f }))
      (index_lock : (w : World) (f : LockFile) → P w → P (record w { index_lock = f })) where
    release_repo-Ends :
        (r : World × Result SyncOwnResult)
        → Ends (λ a. P) P r
        → Ends (λ a. P) P (release_repo env r)
    release_repo-Ends (w, ok a) h = repo_lock w _ h
    release_repo-Ends (w, failed e) h = repo_lock w _ h

    release_index-Ends :
        (r : World × Result SyncOwnResult)
        → Ends (λ a. P) P r
        → Ends (λ a. P) P (release_index env r)
    release_index-Ends (w, ok a) h = index_lock w _ h
    release_index-Ends (w, failed e) h = index_lock w _ h

    with_repo_lock-Keeps :
        (body : Sync SyncOwnResult) → Keeps P body → Keeps P (with_repo_lock env body)
    unfolding with_repo_lock
    with_repo_lock-Keeps body h w p =
        let w' : World = record w {
          repo_lock = (acquire_file_lock env.kill env.me w.repo_lock).0;
        } in
        if-Ends P (acquire_file_lock env.kill env.me w.repo_lock).1 _ _
          (release_repo-Ends (body w') (h w' (repo_lock w _ p))) (repo_lock w _ p)

    module _ (opts : SyncOwnOptions) (locked : Keeps P (sync_own_locked env opts)) where
      in_repo-Keeps : (b : Bool) → Keeps P (in_repo env opts b)
      in_repo-Keeps false = locked
      in_repo-Keeps true = bind-Keeps P _ _ (raw-Keeps env P asks common_dir refl) (λ out.
          bind-Keeps P _ _ (real-Keeps env P asks _) (λ common.
            with_repo_lock-Keeps _
              (bind-Keeps P _ _ (refuse_dirty-Keeps opts.refuse) (λ a. locked))))

      sync_own_body-Keeps : Keeps P (sync_own_body env opts)
      unfolding sync_own_body
      sync_own_body-Keeps = bind-Keeps P _ _ (require_own_directory-Keeps env P asks) (λ a.
          bind-Keeps P _ _ (create_git_client-Keeps env P asks)
            (λ a. bind-Keeps P _ _ (inspect_repo-Keeps env P asks) in_repo-Keeps))

      pub sync_own-Keeps : Keeps P (sync_own env opts)
      unfolding sync_own
      sync_own-Keeps w p =
          let w' : World = record w {
            index_lock = (acquire_file_lock env.kill env.me w.index_lock).0;
          } in
          if-Ends P opts.held_reindex_lock _ _ (sync_own_body-Keeps w p) (
            if-Ends P (acquire_file_lock env.kill env.me w.index_lock).1 _ _
              (release_index-Ends (sync_own_body env opts w')
                (sync_own_body-Keeps w' (index_lock w _ p)))
              (index_lock w _ p))
