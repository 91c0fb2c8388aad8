-- ===== src/Sync/Cleared.antt =====
-- The push URLs and their probes: what stands behind `preflightSync` in packages/core/src/sync.ts
-- that returns.
use caveat.Common.{
  ◌≡◌, refl, Bool, true, false, Option, List, [], ◌∷◌, Text, Bool-cases, inl, inr, list_eq, nat_eq,
}
use caveat.AutoSync.{RemoteAccess, anonymous_readable, denied, indeterminate}
use caveat.Sync.{Answer, gave, threw, Call, show_toplevel, targets, probed, Env, World, log}
use caveat.Sync.Remote.{derive_anonymous_probe_url}
use caveat.Sync.Preflight.{
  PreflightOptions, SyncPreflight, some_urls, urls_of, url_lines, probe_one, effective_push_urls,
  judge, probe_all, assert_private_remotes, assert_targets_of, preflight_sync,
}
use caveat.Sync.Rules.{ensure-Keeps, Triple, Ends, bind-Triple, bind_kept-Triple, weaken-Triple}
use caveat.Sync.Quiet.{
  is_question, create_git_client-Keeps, inspect_repo-Keeps, require_own_directory-Keeps, raw-Keeps,
  real-Keeps, active_rebase-Keeps, current_branch-Keeps, assert_targets_of-Keeps, no_origin-Triple,
}

-- The verdicts with which a push may go on.
abbrev pub is_private : Bool → RemoteAccess → Bool
is_private trust anonymous_readable = false
is_private trust (denied status) = true
is_private trust (indeterminate reason) = trust

-- `P` is what always holds, `Left urls` what holds while the URLs `urls` are to be probed.
module _ (env : Env) (trust : Bool) (P : World → Type 0) (Left : List Text → World → Type 0)
    (asks : (c : Call) → is_question c ≡ true → (w : World) → P w → P (log c w))
    (asks_left : (urls : List Text) (c : Call)
      → is_question c ≡ true
      → (w : World) → Left urls w
      → Left urls (log c w))
    (starts : (urls : List Text) (w : World) → P w → Left urls (log (targets urls) w))
    (clears : (url : Text) (urls : List Text) (verdict : RemoteAccess)
      → is_private trust verdict ≡ true
      → (w : World) → Left (url ∷ urls) w
      → Left urls (log (probed url verdict) w))
    (ends : (url : Text) (verdict : RemoteAccess) (w : World)
      → P w
      → P (log (probed url verdict) w))
    (leaves : (urls : List Text) (w : World) → Left urls w → P w) where
  some_urls-Triple : (urls : List Text) → Triple P (some_urls env urls) Left P
  some_urls-Triple [] w p = p
  some_urls-Triple (u ∷ us) w p = starts (u ∷ us) w p

  urls_of-Triple : (a : Answer Text) → Triple P (urls_of env a) Left P
  urls_of-Triple (gave out) = some_urls-Triple (url_lines env out)
  urls_of-Triple (threw code) = no_origin-Triple env P asks Left

  pub effective_push_urls-Triple : Triple P (effective_push_urls env) Left P
  unfolding effective_push_urls
  effective_push_urls-Triple w p = urls_of-Triple (env.push_urls w.trace) w p

  judge-Ends :
      (url : Text) (urls : List Text) (worst verdict : RemoteAccess) (w : World)
      → Left (url ∷ urls) w
      → Ends (λ worse. Left urls) P (log (probed url verdict) w, judge env trust worst verdict)
  unfolding judge
  judge-Ends url urls worst anonymous_readable w h =
      ends url anonymous_readable w (leaves (url ∷ urls) w h)
  judge-Ends url urls worst (denied status) w h = clears url urls (denied status) refl w h
  judge-Ends url urls worst (indeterminate reason) w h = elim (Bool-cases trust) [
    | inl t ↦ rw t (clears url urls (indeterminate reason) t w h)
    | inr f ↦ rw f (ends url (indeterminate reason) w (leaves (url ∷ urls) w h))
  ]

  probe_one-Ends :
      (url : Text) (urls : List Text) (worst : RemoteAccess) (a : Answer RemoteAccess) (w : World)
      → Left (url ∷ urls) w
      → Ends (λ worse. Left urls) P (probe_one env trust url worst a w)
  probe_one-Ends url urls worst (threw code) w h = leaves (url ∷ urls) w h
  probe_one-Ends url urls worst (gave verdict) w h = judge-Ends url urls worst verdict w h

  probe_all-Triple :
      (urls : List Text) (worst : RemoteAccess)
      → Triple (Left urls) (probe_all env trust urls worst) (λ worse. Left []) P
  unfolding probe_all
  probe_all-Triple [] worst = λ w h. h
  probe_all-Triple (url ∷ urls) worst =
      bind-Triple P (Left (url ∷ urls)) _ (λ worse. Left urls)
        (λ worse. probe_all env trust urls worse) (λ worse. Left [])
        (λ w.
          probe_one-Ends url urls worst
            (env.verdict (derive_anonymous_probe_url env.parse_url url) w.trace) w)
        (λ worse. probe_all-Triple urls worse)

  pub assert_private_remotes-Triple :
      (urls : List Text)
      → Triple (Left urls) (assert_private_remotes env trust urls) (λ worse. Left []) P
  unfolding assert_private_remotes
  assert_private_remotes-Triple urls = probe_all-Triple urls (denied 0)

  named_targets-Triple :
      (urls : List Text) (user : Option Text)
      → Triple (Left urls) (assert_targets_of env urls user) (λ a. Left urls) P
  named_targets-Triple urls user =
      weaken-Triple (λ a. Left urls) (Left urls) P (Left urls) (assert_targets_of env urls user)
        (leaves urls) (assert_targets_of-Keeps env (Left urls) (asks_left urls) urls user)

  -- `preflightSync` returns only when no push URL that git named is left to be probed.
  pub preflight_sync-Triple :
      (own_dir : Text) (opts : PreflightOptions)
      → opts.trust_remote_private ≡ trust
      → Triple P (preflight_sync env own_dir opts) (λ pf. Left []) P
  unfolding preflight_sync
  preflight_sync-Triple own_dir opts trusts =
      let left : SyncPreflight → World → Type 0 = λ pf. Left [] in
      bind_kept-Triple P left _ _ (require_own_directory-Keeps env P asks) (λ a.
        bind_kept-Triple P left _ _ (create_git_client-Keeps env P asks) (λ a.
          bind_kept-Triple P left _ _ (inspect_repo-Keeps env P asks) (λ repo.
            bind_kept-Triple P left _ _ (ensure-Keeps P repo _) (λ a.
              bind_kept-Triple P left _ _ (raw-Keeps env P asks show_toplevel refl) (λ top.
                bind_kept-Triple P left _ _ (real-Keeps env P asks top) (λ root.
                  bind_kept-Triple P left _ _ (real-Keeps env P asks own_dir) (λ requested.
                    bind_kept-Triple P left _ _ (ensure-Keeps P _ _) (λ a.
                      bind_kept-Triple P left _ _ (active_rebase-Keeps env P asks requested)
                        (λ rebasing. bind_kept-Triple P left _ _ (ensure-Keeps P _ _) (λ a.
                          bind_kept-Triple P left _ _ (current_branch-Keeps env P asks) (λ branch.
                            bind-Triple P P _ Left _ (λ pf. Left []) effective_push_urls-Triple
                              (λ urls.
                                bind-Triple P (Left urls) _ (λ a. Left urls) _ left
                                  (named_targets-Triple urls opts.github_user)
                                  (λ a.
                                    bind-Triple P (Left urls) _ (λ worse. Left []) _ left
                                      (rw trusts (assert_private_remotes-Triple urls))
                                      (λ probe w h. h))))))))))))))
