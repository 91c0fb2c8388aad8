-- ===== src/Sync/Started.antt =====
-- `initOwnSync` of packages/core/src/sync.ts: its pushes, and the `.git` that it makes.
use caveat.Common.{ℕ, ◌≡◌, refl, Bool, true, false, Option, List, [], ◌∷◌, Text, trim}
use caveat.AutoSync.{SyncFailure, other_error, inspect}
use caveat.Sync.{
  Answer, gave, threw, Call, targets, probed, reindex, pushed, make_dir, git_init, remove_git_dir,
  count_entries, add_remote, ls_heads, Env, World, Result, ok, failed, then_run, ◌>>=◌, ◌>>◌, log,
  plain, remote,
}
use caveat.Sync.Init.{
  InitOwnSyncOptions, InitOwnSyncResult, connect, with_rollback, rolled_back, removed, init_repo,
  init_own_sync,
}
use caveat.Sync.Rules.{Triple, Ends, ask-Keeps, ensure-Keeps, bind-Outcome}
use caveat.Sync.Quiet.{
  is_question, create_git_client-Keeps, inspect_repo-Keeps, assert_named_github_targets-Keeps,
}
use caveat.Sync.Made.{is_work, assert_fetch_target-Keeps, connect-Triple}
use caveat.Sync.Watch.{
  IsPrivate, Left, seen-log, question-seen, targets-Left, probed-Left, probed-IsPrivate,
  pushed-Left,
}

abbrev pub is_gave : Answer Text → Bool
is_gave (gave out) = true
is_gave (threw code) = false

-- `R` of the outcome, from `P` before `git.init()`, and `R` of what follows a `git.init()`, by its
-- answer.
module _ (env : Env) (P : World → Type 0) (R : World × Result InitOwnSyncResult → Type 0)
    (fails : (e : SyncFailure) (w : World) → P w → R (w, failed e))
    (asks : (c : Call) → is_question c ≡ true → (w : World) → P w → P (log c w))
    (makes : (w : World) → P w → P (log make_dir w))
    (init_fails : (w : World)
      → P w
      → is_gave (env.text git_init w.trace) ≡ false
      → R (log git_init w, failed other_error)) where
  after_init :
      (a : Answer Text) (w : World) (opts : InitOwnSyncOptions) (refs : Text) (n : ℕ)
      → P w
      → is_gave (env.text git_init w.trace) ≡ is_gave a
      → ((w : World)
          → P w
          → is_gave (env.text git_init w.trace) ≡ true
          → R (rolled_back env (connect env opts refs n (log git_init w))))
      → R (then_run (λ a. with_rollback env (connect env opts refs n)) (log git_init w, plain a))
  unfolding with_rollback
  after_init (gave out) w opts refs n p same k = k w p same
  after_init (threw code) w opts refs n p same k = init_fails w p same

  init_repo-Outcome :
      (opts : InitOwnSyncOptions) (refs : Text) (n : ℕ)
      → ((w : World)
          → P w
          → is_gave (env.text git_init w.trace) ≡ true
          → R (rolled_back env (connect env opts refs n (log git_init w))))
      → (w : World) → P w
      → R ((init_repo env >> with_rollback env (connect env opts refs n)) w)
  unfolding init_repo ◌>>=◌
  init_repo-Outcome opts refs n k w p =
      after_init (env.text git_init w.trace) w opts refs n p refl k

  pub init_own_sync-Outcome :
      (opts : InitOwnSyncOptions)
      → ((refs : Text) (n : ℕ) (w : World)
          → P w
          → is_gave (env.text git_init w.trace) ≡ true
          → R (rolled_back env (connect env opts refs n (log git_init w))))
      → (w : World) → P w
      → R (init_own_sync env opts w)
  unfolding init_own_sync
  init_own_sync-Outcome opts k =
      let user : Option Text = opts.preflight.github_user in
      bind-Outcome P R fails _ _ (assert_named_github_targets-Keeps env P asks (opts.url ∷ []) user)
        (λ a.
          bind-Outcome P R fails _ _ (ask-Keeps P make_dir plain (env.text make_dir) makes) (λ a.
            bind-Outcome P R fails _ _ (create_git_client-Keeps env P asks) (λ a.
              bind-Outcome P R fails _ _ (inspect_repo-Keeps env P asks) (λ repo.
                bind-Outcome P R fails _ _ (ensure-Keeps P _ _) (λ a.
                  bind-Outcome P R fails _ _ (create_git_client-Keeps env P asks) (λ a.
                    bind-Outcome P R fails _ _ (assert_fetch_target-Keeps env P asks opts.url user)
                      (λ a.
                        bind-Outcome P R fails _ _
                          (ask-Keeps P (ls_heads opts.url) (remote inspect)
                            (env.text (ls_heads opts.url)) (asks (ls_heads opts.url) refl))
                          (λ heads.
                            bind-Outcome P R fails _ _
                              (ask-Keeps P count_entries plain env.entry_count
                                (asks count_entries refl))
                              (λ n. bind-Outcome P R fails _ _ (ensure-Keeps P _ _) (λ a.
                                bind-Outcome P R fails _ _ (create_git_client-Keeps env P asks)
                                  (λ a.
                                    init_repo-Outcome opts (trim heads) n
                                      (k (trim heads) n))))))))))))

module _ (env : Env) (trust : Bool) where
  asks-IsPrivate :
      (c : Call)
      → is_question c ≡ true
      → (w : World) → IsPrivate trust w
      → IsPrivate trust (log c w)
  asks-IsPrivate c q w p = rw (question-seen trust c q w) p

  asks-Left :
      (urls : List Text) (c : Call)
      → is_question c ≡ true
      → (w : World) → Left trust urls w
      → Left trust urls (log c w)
  asks-Left urls c q w p = rw (question-seen trust c q w) p

  works-Left :
      (c : Call) → is_work c ≡ true → (w : World) → Left trust [] w → Left trust [] (log c w)
  works-Left (pushed branch) h w p = pushed-Left trust branch w p
  works-Left (targets urls) h w p = cc
  works-Left (probed url verdict) h w p = cc
  works-Left reindex h w p = rw (seen-log trust reindex w) p
  works-Left c h w p = rw (seen-log trust c w) p

  removed-IsPrivate :
      (a : Answer Text) (e : SyncFailure) (w : World)
      → IsPrivate trust w
      → IsPrivate trust (removed env e a w).0
  removed-IsPrivate (gave out) e w p = rw (seen-log trust remove_git_dir w) p
  removed-IsPrivate (threw code) e w p = rw (seen-log trust remove_git_dir w) p

  rolled_back-IsPrivate :
      (r : World × Result InitOwnSyncResult)
      → Ends (λ a. Left trust []) (IsPrivate trust) r
      → IsPrivate trust (rolled_back env r).0
  unfolding rolled_back
  rolled_back-IsPrivate (w, ok r) h = h.0
  rolled_back-IsPrivate (w, failed e) h = removed-IsPrivate (env.text remove_git_dir w.trace) e w h

  connect-Left :
      (opts : InitOwnSyncOptions) (refs : Text) (n : ℕ)
      → opts.preflight.trust_remote_private ≡ trust
      → Triple (IsPrivate trust) (connect env opts refs n) (λ r. Left trust []) (IsPrivate trust)
  connect-Left opts refs n trusts =
      connect-Triple env trust (IsPrivate trust) (Left trust) asks-IsPrivate asks-Left
        (targets-Left trust) (probed-Left trust) (probed-IsPrivate trust) (λ urls w h. h.0)
        (λ url w p. rw (seen-log trust (add_remote url) w) p) works-Left opts refs n trusts

  pub init_own_sync-IsPrivate' :
      (opts : InitOwnSyncOptions)
      → opts.preflight.trust_remote_private ≡ trust
      → (w : World) → IsPrivate trust w
      → IsPrivate trust (init_own_sync env opts w).0
  init_own_sync-IsPrivate' opts trusts =
      init_own_sync-Outcome env (IsPrivate trust) (λ r. IsPrivate trust r.0) (λ e w p. p)
        asks-IsPrivate (λ w p. rw (seen-log trust make_dir w) p)
        (λ w p threw'. rw (seen-log trust git_init w) p) opts
        (λ refs n w p gave'.
          rolled_back-IsPrivate (connect env opts refs n (log git_init w))
            (connect-Left opts refs n trusts (log git_init w) (rw (seen-log trust git_init w) p)))
