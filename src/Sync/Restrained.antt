-- ===== src/Sync/Restrained.antt =====
-- What a dry run and scheduled reception leave undone, in packages/core/src/sync.ts.
use caveat.Common.{
  ◌≡◌, refl, Bool, true, false, not, ◌||◌, List, [], ◌∷◌, ◌++◌, Text, all, if◌then◌else◌, arith,
}
use caveat.AutoSync.{inspect, push, RemoteAccess}
use caveat.Sync.{
  Call, targets, probed, rebase_abort, reindex, ls_remote, pushed, pulled, Env, World, done, log,
  plain, remote,
}
use caveat.Sync.Preflight.{SyncPreflight, PreflightOptions, preflight_sync}
use caveat.Sync.Own.{
  SyncOwnOptions, exchange, after_preflight, sync_own_locked, sync_own, is_clean, planned,
  commit_changes,
}
use caveat.Sync.Rules.{Keeps, ensure-Triple, ask-Keeps, bind-Keeps, at_end}
use caveat.Sync.Quiet.{is_question, create_git_client-Keeps}
use caveat.Sync.Received.{receive-Keeps}
use caveat.Sync.Locked.{if-Keeps, changed_paths-Keeps, refuse_dirty-Keeps, sync_own-Keeps}
use caveat.Sync.Cleared.{preflight_sync-Triple}

abbrev settles : Call → Bool
settles (targets urls) = true
settles (probed url verdict) = true
settles _ = false

-- `git` is asked, and its push URLs are probed.
abbrev pub is_inspection : Call → Bool
is_inspection c = is_question c || settles c

abbrev moves : Call → Bool
moves (pulled branch autostash) = not autostash
moves rebase_abort = true
moves reindex = true
moves (pushed branch) = true
moves c = settles c

-- Besides, the remote's commits may be received and the own ones sent: with no commit made, and no
-- change put aside for a rebase.
abbrev pub is_exchange : Call → Bool
is_exchange c = is_question c || moves c

-- Calls of one kind only.
module _ (allowed : Call → Bool) where
  all-snoc :
      (cs : List Call) (c : Call)
      → all allowed cs ≡ true
      → allowed c ≡ true
      → all allowed (cs ++ c ∷ []) ≡ true
  all-snoc [] c h a = rw a refl
  all-snoc (d ∷ cs) c h a = ground (arith, all-snoc cs c)

  abbrev Within : World → Type 0
  Within w = all allowed w.trace ≡ true

  log-Within : (c : Call) → allowed c ≡ true → (w : World) → Within w → Within (log c w)
  log-Within c a w h = all-snoc w.trace c h a

  module _ (env : Env) (asks : (c : Call) → is_question c ≡ true → allowed c ≡ true)
      (names : (urls : List Text) → allowed (targets urls) ≡ true)
      (probes : (url : Text) (verdict : RemoteAccess) → allowed (probed url verdict) ≡ true) where
    asks_within : (c : Call) → is_question c ≡ true → (w : World) → Within w → Within (log c w)
    asks_within c q = log-Within c (asks c q)

    preflight_sync-Within :
        (own_dir : Text) (opts : PreflightOptions) → Keeps Within (preflight_sync env own_dir opts)
    preflight_sync-Within own_dir opts =
        preflight_sync-Triple env opts.trust_remote_private Within (λ urls. Within) asks_within
          (λ urls. asks_within) (λ urls. log-Within (targets urls) (names urls))
          (λ url urls verdict good. log-Within (probed url verdict) (probes url verdict))
          (λ url verdict. log-Within (probed url verdict) (probes url verdict)) (λ urls w h. h)
          own_dir opts refl

    after_preflight-Within :
        (opts : SyncOwnOptions)
        → ((pf : SyncPreflight) (files : List Text)
            → (not opts.refuse || is_clean files) ≡ true
            → Keeps Within
                (if opts.dry_run then done (planned env pf files) else exchange env opts pf files))
        → (pf : SyncPreflight) → Keeps Within (after_preflight env opts pf)
    unfolding after_preflight
    after_preflight-Within opts rest pf =
        bind-Keeps Within _ _ (create_git_client-Keeps env Within asks_within) (λ a.
          bind-Keeps Within _ _ (changed_paths-Keeps env Within asks_within)
            (λ files. ensure-Triple Within Within _ _ _ (λ r. Within) (λ w h. h) (rest pf files)))

    locked :
        (opts : SyncOwnOptions)
        → ((pf : SyncPreflight) (files : List Text)
            → (not opts.refuse || is_clean files) ≡ true
            → Keeps Within
                (if opts.dry_run then done (planned env pf files) else exchange env opts pf files))
        → Keeps Within (sync_own_locked env opts)
    unfolding sync_own_locked
    locked opts rest =
        bind-Keeps Within _ _ (preflight_sync-Within opts.own_dir opts.preflight)
          (after_preflight-Within opts rest)

    -- What is left is what follows the clean check, or the dry run.
    sync_own-Within :
        (opts : SyncOwnOptions)
        → ((pf : SyncPreflight) (files : List Text)
            → (not opts.refuse || is_clean files) ≡ true
            → Keeps Within
                (if opts.dry_run then done (planned env pf files) else exchange env opts pf files))
        → (w : World) → w.trace ≡ []
        → Within (sync_own env opts w).0
    sync_own-Within opts rest w fresh = at_end Within (sync_own env opts w) (
        sync_own-Keeps env Within asks_within (λ w f p. p) (λ w f p. p) opts (locked opts rest) w
          (rw fresh refl))

question-or : (p : Call → Bool) (c : Call) → is_question c ≡ true → (is_question c || p c) ≡ true
question-or p c q = rw q refl

-- A dry run that starts with no call made, whatever git and the network answer, only asks git and probes push URLs: it makes no
-- commit, no pull, no push and no index.
pub sync_own-dry_run :
    (env : Env) (opts : SyncOwnOptions) (w : World)
    → opts.dry_run ≡ true
    → w.trace ≡ []
    → all is_inspection (sync_own env opts w).0.trace ≡ true
sync_own-dry_run env opts w dry =
    sync_own-Within is_inspection env (question-or settles) (λ urls. refl) (λ url verdict. refl)
      opts (λ pf files clean. rw dry (λ w h. h)) w

-- The exchange when the clean check has passed under `refuse`.
exchange-Within :
    (env : Env) (opts : SyncOwnOptions) (pf : SyncPreflight) (files : List Text)
    → opts.refuse ≡ true
    → is_clean files ≡ true
    → Keeps (Within is_exchange) (exchange env opts pf files)
unfolding exchange commit_changes
exchange-Within env opts pf (f ∷ fs) refuses clean = cc
exchange-Within env opts pf [] refuses clean =
    let P : World → Type 0 = Within is_exchange in
    let asks : (c : Call) → is_question c ≡ true → (w : World) → P w → P (log c w) =
      λ c q. log-Within is_exchange c (question-or moves c q) in
    bind-Keeps P _ _ (λ w h. h)
      (λ committed.
        bind-Keeps P _ _
          (ask-Keeps P (ls_remote pf.branch) (remote inspect) (env.text (ls_remote pf.branch))
            (asks (ls_remote pf.branch) refl))
          (λ heads.
            bind-Keeps P _ _
              (receive-Keeps env P asks (log-Within is_exchange rebase_abort refl) pf opts.refuse
                (log-Within is_exchange (pulled pf.branch (not opts.refuse)) (rw refuses refl)) _)
              (λ was_pulled. bind-Keeps P _ _ (refuse_dirty-Keeps env P asks opts.refuse) (λ a.
                bind-Keeps P _ _
                  (ask-Keeps P reindex plain (env.text reindex)
                    (log-Within is_exchange reindex refl))
                  (λ a.
                    bind-Keeps P _ _
                      (ask-Keeps P (pushed pf.branch) (remote push) (env.text (pushed pf.branch))
                        (log-Within is_exchange (pushed pf.branch) refl))
                      (λ a w h. h))))))

under_refuse : (r clean : Bool) → r ≡ true → (not r || clean) ≡ true → clean ≡ true
under_refuse true clean r h = h
under_refuse false clean r h = cc

-- Under the dirty policy `refuse` of scheduled reception, whatever git and the network answer, a
-- sync that starts with no call made stages and commits nothing, and no pull stashes changes for its rebase.
pub sync_own-refuse :
    (env : Env) (opts : SyncOwnOptions) (w : World)
    → opts.refuse ≡ true
    → w.trace ≡ []
    → all is_exchange (sync_own env opts w).0.trace ≡ true
sync_own-refuse env opts w refuses =
    sync_own-Within is_exchange env (question-or moves) (λ urls. refl) (λ url verdict. refl) opts
      (λ pf files clean.
        if-Keeps (Within is_exchange) opts.dry_run _ _ (λ w h. h)
          (exchange-Within env opts pf files refuses (under_refuse opts.refuse _ refuses clean)))
      w
