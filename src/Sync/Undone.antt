-- ===== src/Sync/Undone.antt =====
-- `initOwnSync` of packages/core/src/sync.ts: the `.git` that it makes, and removes when it fails.
use caveat.Common.{
  any, any-append, append_assoc, arith, not, ◌||◌, ℕ, ◌≡◌, refl, Bool, true, false, List, [], ◌∷◌,
  ◌++◌, Text, inl, inr, ◌⊎◌,
}
use caveat.AutoSync.{SyncFailure, other_error, recovery_error}
use caveat.Sync.{
  Answer, gave, threw, Call, targets, probed, make_dir, git_init, remove_git_dir, add_remote, Env,
  World, Result, ok, failed, log,
}
use caveat.Sync.Init.{
  InitOwnSyncOptions, InitOwnSyncResult, connect, rolled_back, removed, init_own_sync,
}
use caveat.Sync.Rules.{Keeps, Ends}
use caveat.Sync.Quiet.{is_question}
use caveat.Sync.Made.{is_work, connect-Triple}
use caveat.Sync.Started.{is_gave, init_own_sync-Outcome}

abbrev pub is_init : Call → Bool
is_init git_init = true
is_init c = false

abbrev pub is_removal : Call → Bool
is_removal remove_git_dir = true
is_removal c = false

abbrev is_other : Call → Bool
is_other c = not (is_init c || is_removal c)

question-other : (c : Call) → is_question c ≡ true → is_other c ≡ true
question-other git_init q = cc
question-other remove_git_dir q = cc
question-other c q = refl

work-other : (c : Call) → is_work c ≡ true → is_other c ≡ true
work-other git_init q = cc
work-other remove_git_dir q = cc
work-other c q = refl

-- Git has made a `.git`, and since then it was not to be removed.
abbrev pub IsMade : Env → World → Type 0
IsMade env w =
    (before : List Call) × (after : List Call) × (w.trace ≡ before ++ (git_init ∷ after))
    × (is_gave (env.text git_init before) ≡ true)
    × (any is_removal after ≡ false)

-- The last call was that of `git.init()`, which threw.
abbrev pub IsInitFailure : Env → World → SyncFailure → Type 0
IsInitFailure env w e =
    (before : List Call) × (w.trace ≡ before ++ (git_init ∷ []))
    × (is_gave (env.text git_init before) ≡ false)
    × (e ≡ other_error)

-- The last call was the removal of the `.git`: it is gone, or the error says that this failed.
abbrev pub IsRemoved : Env → World → SyncFailure → Type 0
IsRemoved env w e =
    (before : List Call) × (w.trace ≡ before ++ (remove_git_dir ∷ []))
    × ((is_gave (env.text remove_git_dir before) ≡ true) ⊎ (e ≡ recovery_error))

abbrev pub IsSettled : Env → World × Result InitOwnSyncResult → Type 0
IsSettled env (w, ok r) = IsMade env w
IsSettled env (w, failed e) =
    (any is_init w.trace ≡ false) ⊎ (IsInitFailure env w e ⊎ IsRemoved env w e)

module _ (env : Env) where
  abbrev NoInit : World → Type 0
  NoInit w = any is_init w.trace ≡ false

  log-NoInit : (c : Call) → is_other c ≡ true → (w : World) → NoInit w → NoInit (log c w)
  log-NoInit c o w p = ground (arith, any-append is_init w.trace (c ∷ []))

  log-IsMade : (c : Call) → is_other c ≡ true → (w : World) → IsMade env w → IsMade env (log c w)
  log-IsMade c o w (before, after, split', good, kept) = (
    before,
    after ++ c ∷ [],
    rw split' (append_assoc before (git_init ∷ after) (c ∷ [])),
    good,
    ground (arith, any-append is_removal after (c ∷ [])),
  )

  connect-Keeps :
      (opts : InitOwnSyncOptions) (refs : Text) (n : ℕ)
      → Keeps (IsMade env) (connect env opts refs n)
  connect-Keeps opts refs n =
      connect-Triple env opts.preflight.trust_remote_private (IsMade env) (λ urls. IsMade env)
        (λ c q. log-IsMade c (question-other c q)) (λ urls c q. log-IsMade c (question-other c q))
        (λ urls w p. log-IsMade (targets urls) refl w p)
        (λ url urls verdict good w p. log-IsMade (probed url verdict) refl w p)
        (λ url verdict w p. log-IsMade (probed url verdict) refl w p) (λ urls w h. h)
        (λ url. log-IsMade (add_remote url) refl) (λ c q. log-IsMade c (work-other c q)) opts refs n
        refl

  removed-IsRemoved :
      (a : Answer Text) (e : SyncFailure) (w : World)
      → is_gave (env.text remove_git_dir w.trace) ≡ is_gave a
      → IsSettled env (removed env e a w)
  removed-IsRemoved (gave out) e w same = inr (inr (w.trace, refl, inl same))
  removed-IsRemoved (threw code) e w same = inr (inr (w.trace, refl, inr refl))

  rolled_back-IsSettled :
      (r : World × Result InitOwnSyncResult)
      → Ends (λ a. IsMade env) (IsMade env) r
      → IsSettled env (rolled_back env r)
  unfolding rolled_back
  rolled_back-IsSettled (w, ok r) h = h
  rolled_back-IsSettled (w, failed e) h =
      removed-IsRemoved (env.text remove_git_dir w.trace) e w refl

-- Whatever git, the network and the disk answer, starting with no call made: when `init_own_sync`
-- returns, `git.init()` has made a `.git`, and no removal of it was called. When it throws, either
-- `git.init()` was not called; or it threw itself, as the last call, and its error is passed on; or
-- the last call removed the `.git`, or else the error is that of a failed recovery.
pub init_own_sync-IsSettled :
    (env : Env) (opts : InitOwnSyncOptions) (w : World)
    → w.trace ≡ []
    → IsSettled env (init_own_sync env opts w)
init_own_sync-IsSettled env opts w fresh =
    init_own_sync-Outcome env (NoInit env) (IsSettled env) (λ e w p. inl p)
      (λ c q. log-NoInit env c (question-other c q)) (log-NoInit env make_dir refl)
      (λ w p threw'. inr (inl (w.trace, refl, threw', refl))) opts
      (λ refs n w p gave'.
        rolled_back-IsSettled env (connect env opts refs n (log git_init w))
          (connect-Keeps env opts refs n (log git_init w) (w.trace, [], refl, gave', refl)))
      w (rw fresh refl)
