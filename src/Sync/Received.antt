-- ===== src/Sync/Received.antt =====
-- The pull of `syncOwnLocked` in packages/core/src/sync.ts, and the abort of a rebase that it left.
use caveat.Common.{◌≡◌, Bool, true, false, not, Option, [], ◌∷◌, Text}
use caveat.AutoSync.{SyncErrorCode}
use caveat.Sync.{Answer, gave, threw, Call, rebase_abort, pulled, Env, World, log, plain}
use caveat.Sync.Preflight.{raw, SyncPreflight}
use caveat.Sync.Own.{abort_rebase, pull_answer, pull_branch, receive, after_failed_pull}
use caveat.Sync.Rules.{Keeps, ensure-Keeps, ask-Keeps, bind-Keeps, recovering-Keeps}
use caveat.Sync.Quiet.{is_question, active_rebase-Keeps}

module _ (env : Env) (P : World → Type 0)
    (asks : (c : Call) → is_question c ≡ true → (w : World) → P w → P (log c w))
    (aborts : (w : World) → P w → P (log rebase_abort w)) where
  abort_rebase-Keeps : (own_dir : Text) → Keeps P (abort_rebase env own_dir)
  unfolding abort_rebase raw
  abort_rebase-Keeps own_dir =
      bind-Keeps P _ _
        (recovering-Keeps P _ (
          bind-Keeps P _ _ (bind-Keeps P _ _ (ask-Keeps P rebase_abort plain _ aborts) (λ a w p. p))
            (λ out.
              bind-Keeps P _ _ (active_rebase-Keeps env P asks own_dir)
                (λ still. ensure-Keeps P _ _))))
        (λ a w p. p)

  after_failed_pull-Keeps :
      (own_dir : Text) (code : Option SyncErrorCode) (b : Bool)
      → Keeps P (after_failed_pull env own_dir code b)
  after_failed_pull-Keeps own_dir code false = λ w p. p
  after_failed_pull-Keeps own_dir code true = abort_rebase-Keeps own_dir

  pull_answer-Keeps : (own_dir : Text) (a : Answer Text) → Keeps P (pull_answer env own_dir a)
  pull_answer-Keeps own_dir (gave out) = λ w p. p
  pull_answer-Keeps own_dir (threw code) =
      bind-Keeps P _ _ (recovering-Keeps P _ (active_rebase-Keeps env P asks own_dir))
        (after_failed_pull-Keeps own_dir code)

  module _ (pf : SyncPreflight) (refuse : Bool)
      (pulls : (w : World) → P w → P (log (pulled pf.branch (not refuse)) w)) where
    pull_branch-Keeps : Keeps P (pull_branch env pf refuse)
    unfolding pull_branch
    pull_branch-Keeps w p =
        pull_answer-Keeps pf.own_dir (env.text (pulled pf.branch (not refuse)) w.trace) _
          (pulls w p)

    pub receive-Keeps : (heads : Text) → Keeps P (receive env pf refuse heads)
    unfolding receive
    receive-Keeps [] = λ w p. p
    receive-Keeps (c ∷ cs) = pull_branch-Keeps
