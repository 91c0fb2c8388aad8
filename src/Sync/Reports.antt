-- ===== src/Sync/Reports.antt =====
-- What a sync that returns has done, in packages/core/src/sync.ts.
use caveat.Common.{
  ◌≡◌, refl, Bool, true, false, not, ◌||◌, Option, none, some, List, [], ◌∷◌, ◌++◌, Text,
  if◌then◌else◌,
}
use caveat.Lock.{acquire_file_lock}
use caveat.AutoSync.{push, sync_error, worktree_dirty}
use caveat.Sync.{
  Call, status, pushed, Env, World, Result, ok, failed, Sync, then_run, ◌>>=◌, ◌>>◌, done, log,
  ensure, plain, remote, ask,
}
use caveat.Sync.Preflight.{SyncPreflight}
use caveat.Sync.Own.{
  SyncOwnOptions, SyncOwnResult, changed_paths, exchange, planned, is_clean, after_preflight,
  sync_own_locked, with_repo_lock, release_repo, release_index, in_repo, sync_own_body, sync_own,
}
use caveat.Sync.Rules.{Ends, bind-Outcome}

-- The branch of the push that was the last call.
abbrev pub last_push : List Call → Option Text
last_push [] = none
last_push (pushed branch ∷ []) = some branch
last_push (c ∷ []) = none
last_push (c ∷ d ∷ cs) = last_push (d ∷ cs)

last_push-snoc : (cs : List Call) (c : Call) → last_push (cs ++ c ∷ []) ≡ last_push (c ∷ [])
last_push-snoc [] c = refl
last_push-snoc (c' ∷ []) c = refl
last_push-snoc (c' ∷ d ∷ cs) c = last_push-snoc (d ∷ cs) c

abbrev pub IsReported : SyncOwnOptions → World × Result SyncOwnResult → Type 0
IsReported opts (w, ok r) =
    (r.was_pushed ≡ not opts.dry_run)
    × (last_push w.trace ≡ (if opts.dry_run then none else some r.preflight.branch))
IsReported opts (w, failed e) = Unit {0}

module _ (env : Env) (opts : SyncOwnOptions) where
  abbrev Any : World → Type 0
  Any w = Unit {0}

  trivial {ℓ} : {A : Type ℓ} (r : World × Result A) → Ends (λ a. Any) Any r
  trivial (w, ok a) = tt
  trivial (w, failed e) = tt

  -- A step before the last one.
  follow {ℓ} :
      {A : Type ℓ} (m : Sync A) (f : A → Sync SyncOwnResult)
      → ((a : A) (w : World) → IsReported opts (f a w))
      → (w : World) → IsReported opts ((m >>= f) w)
  follow m f k w =
      bind-Outcome Any (IsReported opts) (λ e w p. tt) m f (λ w p. trivial (m w)) (λ a w p. k a w) w
        tt

  push-IsReported :
      (r : Result Text) (w : World) (pf : SyncPreflight) (result : SyncOwnResult)
      → opts.dry_run ≡ false
      → result.was_pushed ≡ true
      → result.preflight ≡ pf
      → IsReported opts (then_run (λ a. done result) (log (pushed pf.branch) w, r))
  push-IsReported (ok out) w pf result real_run p q =
      rw (real_run, p, q) (refl, last_push-snoc w.trace (pushed pf.branch))
  push-IsReported (failed e) w pf result real_run p q = tt

  sent :
      (pf : SyncPreflight) (result : SyncOwnResult)
      → opts.dry_run ≡ false
      → result.was_pushed ≡ true
      → result.preflight ≡ pf
      → (w : World)
      → IsReported opts (
          (ask (pushed pf.branch) (remote push) (env.text (pushed pf.branch)) >>= λ a. done result)
            w)
  unfolding ◌>>=◌
  sent pf result real_run p q w =
      push-IsReported (remote push (env.text (pushed pf.branch) w.trace)) w pf result real_run p q

  exchange-IsReported :
      (pf : SyncPreflight) (files : List Text)
      → opts.dry_run ≡ false
      → (w : World) → IsReported opts (exchange env opts pf files w)
  unfolding exchange
  exchange-IsReported pf files real_run = follow _ _ (λ committed. follow _ _ (λ heads.
      follow _ _ (λ was_pulled. follow _ _ (λ a. follow _ _ (λ a. sent pf _ real_run refl refl)))))

  guarded :
      (b : Bool) (files : List Text) (w : World) (pf : SyncPreflight)
      → opts.dry_run ≡ true
      → IsReported opts
          ((ensure b (sync_error worktree_dirty) >> done (planned env pf files)) (log status w))
  unfolding ◌>>=◌
  guarded true files w pf dry = rw dry (refl, last_push-snoc w.trace status)
  guarded false files w pf dry = tt

  -- A dry run ends with the status of the files.
  planned-IsReported :
      (r : Result (List Text)) (w : World) (pf : SyncPreflight)
      → opts.dry_run ≡ true
      → IsReported opts (
          then_run
            (λ files.
              ensure (not opts.refuse || is_clean files) (sync_error worktree_dirty)
              >> done (planned env pf files))
            (log status w, r))
  unfolding ◌>>=◌
  planned-IsReported (failed e) w pf dry = tt
  planned-IsReported (ok files) w pf dry =
      guarded (not opts.refuse || is_clean files) files w pf dry

  dry_status :
      (pf : SyncPreflight)
      → opts.dry_run ≡ true
      → (w : World)
      → IsReported opts (
          (changed_paths env >>= λ files.
          ensure (not opts.refuse || is_clean files) (sync_error worktree_dirty)
          >> done (planned env pf files))
            w)
  unfolding ◌>>=◌ changed_paths
  dry_status pf e w = planned-IsReported (plain (env.files w.trace)) w pf e

  status-IsReported :
      (pf : SyncPreflight) (dry : Bool)
      → opts.dry_run ≡ dry
      → (w : World)
      → IsReported opts (
          (changed_paths env >>= λ files.
          ensure (not opts.refuse || is_clean files) (sync_error worktree_dirty)
          >> (if dry then done (planned env pf files) else exchange env opts pf files))
            w)
  status-IsReported pf true e = dry_status pf e
  status-IsReported pf false e =
      follow _ _ (λ files. follow _ _ (λ a. exchange-IsReported pf files e))

  locked-IsReported : (w : World) → IsReported opts (sync_own_locked env opts w)
  unfolding sync_own_locked after_preflight
  locked-IsReported = follow _ _ (λ pf. follow _ _ (λ a. status-IsReported pf opts.dry_run refl))

  either :
      (b : Bool) (r r' : World × Result SyncOwnResult)
      → IsReported opts r
      → IsReported opts r'
      → IsReported opts (if b then r else r')
  either true r r' h k = h
  either false r r' h k = k

  release_repo-IsReported :
      (r : World × Result SyncOwnResult) → IsReported opts r → IsReported opts (release_repo env r)
  release_repo-IsReported (w, ok r) h = h
  release_repo-IsReported (w, failed e) h = h

  release_index-IsReported :
      (r : World × Result SyncOwnResult) → IsReported opts r → IsReported opts (release_index env r)
  release_index-IsReported (w, ok r) h = h
  release_index-IsReported (w, failed e) h = h

  under_lock :
      (body : Sync SyncOwnResult)
      → ((w : World) → IsReported opts (body w))
      → (w : World) → IsReported opts (with_repo_lock env body w)
  unfolding with_repo_lock
  under_lock body h w =
      let w' : World = record w { repo_lock = (acquire_file_lock env.kill env.me w.repo_lock).0 } in
      either (acquire_file_lock env.kill env.me w.repo_lock).1 _ _
        (release_repo-IsReported (body w') (h w')) tt

  in_repo-IsReported : (b : Bool) (w : World) → IsReported opts (in_repo env opts b w)
  in_repo-IsReported false = locked-IsReported
  in_repo-IsReported true =
      follow _ _ (λ out. follow _ _ (λ common. under_lock _ (follow _ _ (λ a. locked-IsReported))))

  body-IsReported : (w : World) → IsReported opts (sync_own_body env opts w)
  unfolding sync_own_body
  body-IsReported = follow _ _ (λ a. follow _ _ (λ a. follow _ _ in_repo-IsReported))

-- When `sync_own` returns, it reports a push exactly when no dry run was asked for; then its last call was
-- the push of the branch that it reports, and in a dry run the last call was no push.
pub sync_own-IsReported :
    (env : Env) (opts : SyncOwnOptions) (w : World) → IsReported opts (sync_own env opts w)
unfolding sync_own
sync_own-IsReported env opts w =
    let w' : World = record w { index_lock = (acquire_file_lock env.kill env.me w.index_lock).0 } in
    either env opts opts.held_reindex_lock _ _ (body-IsReported env opts w) (
      either env opts (acquire_file_lock env.kill env.me w.index_lock).1 _ _
        (release_index-IsReported env opts (sync_own_body env opts w')
          (body-IsReported env opts w'))
        tt)
