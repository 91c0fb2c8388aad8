-- ===== src/Sync/Made.antt =====
-- The steps of `initOwnSync` in packages/core/src/sync.ts.
use caveat.Common.{ℕ, ◌≡◌, refl, Bool, true, false, Option, none, some, List, [], ◌∷◌, Text}
use caveat.AutoSync.{inspect, push, fetch, RemoteAccess}
use caveat.Sync.{
  Call, targets, probed, make_dir, scaffolded, remove_scaffold, add_remote, remote_url, ls_heads,
  ls_symref, fetched, checked_out, head_name, add_all, commit, pushed, reindex, Env, World, log,
  plain, remote, ask,
}
use caveat.Sync.Init.{
  InitOwnSyncOptions, branch_or_throw, after_symref, default_remote_branch, symref_branch,
  first_head, assert_fetch_target, import_own, join_own, import_or_join, connect,
}
use caveat.Sync.Rules.{
  Keeps, Triple, ask-Keeps, bind-Keeps, bind-Triple, bind_kept-Triple, weaken-Triple,
}
use caveat.Sync.Quiet.{is_question, raw-Keeps, assert_named_github_targets-Keeps}
use caveat.Sync.Cleared.{is_private, effective_push_urls-Triple, assert_private_remotes-Triple}

-- What `initOwnSync` does besides asking, probing, and making and removing `.git`.
abbrev pub is_work : Call → Bool
is_work make_dir = true
is_work scaffolded = true
is_work remove_scaffold = true
is_work (add_remote url) = true
is_work (fetched branch) = true
is_work (checked_out branch) = true
is_work add_all = true
is_work (commit n) = true
is_work (pushed branch) = true
is_work reindex = true
is_work _ = false

module _ (env : Env) (P : World → Type 0)
    (asks : (c : Call) → is_question c ≡ true → (w : World) → P w → P (log c w)) where
  pub assert_fetch_target-Keeps :
      (url : Text) (user : Option Text) → Keeps P (assert_fetch_target env url user)
  unfolding assert_fetch_target
  assert_fetch_target-Keeps url none = λ w p. p
  assert_fetch_target-Keeps url (some user) =
      bind-Keeps P _ _ (raw-Keeps env P asks (remote_url url) refl)
        (λ out. assert_named_github_targets-Keeps env P asks (out ∷ []) (some user))

module _ (env : Env) (P : World → Type 0)
    (asks : (c : Call) → is_question c ≡ true → (w : World) → P w → P (log c w))
    (works : (c : Call) → is_work c ≡ true → (w : World) → P w → P (log c w)) where
  branch_or_throw-Keeps : (found : Option Text) → Keeps P (branch_or_throw env found)
  branch_or_throw-Keeps none w p = p
  branch_or_throw-Keeps (some branch) w p = p

  after_symref-Keeps : (url : Text) (found : Option Text) → Keeps P (after_symref env url found)
  after_symref-Keeps url (some branch) = λ w p. p
  after_symref-Keeps url none =
      bind-Keeps P _ _
        (ask-Keeps P (ls_heads url) (remote inspect) (env.text (ls_heads url))
          (asks (ls_heads url) refl))
        (λ heads. branch_or_throw-Keeps (first_head heads))

  default_remote_branch-Keeps : (url : Text) → Keeps P (default_remote_branch env url)
  unfolding default_remote_branch
  default_remote_branch-Keeps url =
      bind-Keeps P _ _
        (ask-Keeps P (ls_symref url) (remote inspect) (env.text (ls_symref url))
          (asks (ls_symref url) refl))
        (λ out. after_symref-Keeps url (symref_branch true out))

  work-Keeps : (c : Call) → is_work c ≡ true → Keeps P (ask c plain (env.text c))
  work-Keeps c h = ask-Keeps P c plain (env.text c) (works c h)

  import_own-Keeps : (opts : InitOwnSyncOptions) (n : ℕ) → Keeps P (import_own env opts n)
  unfolding import_own
  import_own-Keeps opts n = bind-Keeps P _ _ (work-Keeps scaffolded refl) (λ a.
      bind-Keeps P _ _ (work-Keeps add_all refl) (λ a.
        bind-Keeps P _ _ (work-Keeps (commit n) refl) (λ a.
          bind-Keeps P _ _ (raw-Keeps env P asks head_name refl) (λ branch.
            bind-Keeps P _ _
              (ask-Keeps P (pushed branch) (remote push) (env.text (pushed branch))
                (works (pushed branch) refl))
              (λ a. bind-Keeps P _ _ (work-Keeps reindex refl) (λ a w p. p))))))

  join_own-Keeps : (opts : InitOwnSyncOptions) → Keeps P (join_own env opts)
  unfolding join_own
  join_own-Keeps opts = bind-Keeps P _ _ (default_remote_branch-Keeps opts.url) (λ branch.
      bind-Keeps P _ _
        (ask-Keeps P (fetched branch) (remote fetch) (env.text (fetched branch))
          (works (fetched branch) refl))
        (λ a. bind-Keeps P _ _ (work-Keeps remove_scaffold refl) (λ a.
          bind-Keeps P _ _ (work-Keeps (checked_out branch) refl)
            (λ a. bind-Keeps P _ _ (work-Keeps reindex refl) (λ a w p. p)))))

  import_or_join-Keeps :
      (opts : InitOwnSyncOptions) (refs : Text) (n : ℕ) → Keeps P (import_or_join env opts refs n)
  import_or_join-Keeps opts [] n = import_own-Keeps opts n
  import_or_join-Keeps opts (c ∷ cs) n = join_own-Keeps opts

-- `P` is what always holds, `Left urls` what holds while the URLs `urls` are to be probed.
module _ (env : Env) (trust : Bool) (P : World → Type 0) (Left : List Text → World → Type 0)
    (asks : (c : Call) → is_question c ≡ true → (w : World) → P w → P (log c w))
    (asks_left : (urls : List Text) (c : Call)
      → is_question c ≡ true
      → (w : World) → Left urls w
      → Left urls (log c w))
    (starts : (urls : List Text) (w : World) → P w → Left urls (log (targets urls) w))
    (clears : (url : Text) (urls : List Text) (verdict : RemoteAccess)
      → is_private trust verdict ≡ true
      → (w : World) → Left (url ∷ urls) w
      → Left urls (log (probed url verdict) w))
    (ends : (url : Text) (verdict : RemoteAccess) (w : World)
      → P w
      → P (log (probed url verdict) w))
    (leaves : (urls : List Text) (w : World) → Left urls w → P w)
    (adds : (url : Text) (w : World) → P w → P (log (add_remote url) w))
    (works : (c : Call) → is_work c ≡ true → (w : World) → Left [] w → Left [] (log c w)) where
  pub connect-Triple :
      (opts : InitOwnSyncOptions) (refs : Text) (n : ℕ)
      → opts.preflight.trust_remote_private ≡ trust
      → Triple P (connect env opts refs n) (λ r. Left []) P
  unfolding connect
  connect-Triple opts refs n trusts =
      bind_kept-Triple P (λ r. Left []) _ _
        (ask-Keeps P (add_remote opts.url) plain (env.text (add_remote opts.url)) (adds opts.url))
        (λ a.
          bind-Triple P P _ Left _ (λ r. Left [])
            (effective_push_urls-Triple env trust P Left asks asks_left starts clears ends leaves)
            (λ urls.
              bind-Triple P (Left urls) _ (λ a. Left urls) _ (λ r. Left [])
                (weaken-Triple (λ a. Left urls) (Left urls) P (Left urls) _ (leaves urls)
                  (assert_named_github_targets-Keeps env (Left urls) (asks_left urls) urls
                    opts.preflight.github_user))
                (λ a.
                  bind-Triple P (Left urls) _ (λ worse. Left []) _ (λ r. Left [])
                    (rw trusts (
                      assert_private_remotes-Triple env trust P Left asks asks_left starts clears
                        ends leaves urls))
                    (λ probe.
                      weaken-Triple (λ r. Left []) (Left []) P (Left []) _ (leaves [])
                        (import_or_join-Keeps env (Left []) (asks_left []) works opts refs n)))))
