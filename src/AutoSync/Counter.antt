-- ===== src/AutoSync/Counter.antt =====
-- The failure counter that rows of cycles of autoSync.ts leave in the state file.
use caveat.Common.{
  ℕ, ◌≡◌, refl, sym, ap, ◌∙◌, inl, inr, Bool, true, false, not, ◌||◌, Option, none, some, List, [],
  ◌∷◌, Text, if◌then◌else◌, arith, Bool-cases,
}
use caveat.Lock.{LockFile, acquire_file_lock}
use caveat.AutoSync.{CommunityResult, OwnOutcome, AutoSyncOutcome}
use caveat.AutoSync.State.{
  OwnSyncState, OwnAttempt, Options, Env, World, RunResult, skipped, ran, cycle_failed,
  should_attempt, mark_degraded, is_refusal, previous_own,
}
use caveat.AutoSync.Cycle.{
  next_state, save, conclude, finish_cycle, cycle_body, run_auto_sync_cycle,
}
use caveat.AutoSync.Half.{half}
use caveat.AutoSync.Backoff.{Verdict, verdict, streak, Counts, fresh-Counts, attempt-Counts}
use caveat.AutoSync.Tried.{half-suspended}
use caveat.AutoSync.Notices.{run-Finished, refusal-silent}

-- A cycle, with the lock files that it finds.
pub record Round : Type 0 where
  pub opts : Options
  pub env : Env
  pub sync_lock : LockFile
  pub index_lock : LockFile

-- The cycle ended without a result of its own.
abbrev is_cut : RunResult → Bool
is_cut (ran outcome notified) = false
is_cut (skipped reason) = true
is_cut cycle_failed = true

if-not : {A : Type 0} (b : Bool) (x y : A) → (if not b then x else y) ≡ (if b then y else x)
if-not true x y = refl
if-not false x y = refl

module _ (sha256 : Text → Text) (stringify : List (Option Text) → Text) where
  -- An attempt counts when its cycle ran to its end, was not refused for a dirty or busy worktree,
  -- and did not put the own sync off.
  pub tally : OwnAttempt → RunResult → List Verdict → List Verdict
  tally answer (ran outcome notified) vs =
      if is_refusal outcome.own.code || outcome.own.suspended
      then vs
      else verdict sha256 stringify answer ∷ vs
  tally answer (skipped reason) vs = vs
  tally answer cycle_failed vs = vs

  -- Cycles in a row, latest first, from the world `w`: the world behind them, and the verdicts.
  unfoldable pub history : World → List Round → World × List Verdict
  unfolding tally
  history w [] = (w, [])
  history w (round ∷ earlier) =
      let (v, vs) = history w earlier in
      let (w', r) =
        run_auto_sync_cycle sha256 stringify round.opts round.env
          (record v { sync_lock = round.sync_lock; index_lock = round.index_lock }) in
      (w', tally round.env.own r vs)

  mark_degraded-state : (own : OwnOutcome × OwnSyncState) → (mark_degraded own).1 ≡ own.1
  unfolding mark_degraded
  mark_degraded-state own = ground arith

  half-Counts :
      (answer : OwnAttempt) (own : OwnSyncState) (now : ℕ) (vs : List Verdict)
      → Counts sha256 stringify own vs
      → Counts sha256 stringify
          (half sha256 stringify answer own now).1
          (if should_attempt own now then verdict sha256 stringify answer ∷ vs else vs)
  unfolding half
  half-Counts answer own now vs c = elim (Bool-cases (should_attempt own now)) [
    | inl tried ↦
        rw (tried, half, mark_degraded-state)
          (attempt-Counts sha256 stringify answer own (some now) vs c)
    | inr waits ↦ rw (waits, half, mark_degraded-state) c
  ]

  save-cut :
      (opts : Options) (env : Env) (outcome : AutoSyncOutcome) (own : OwnSyncState)
      (signature : Text) (notified : Bool) (w : World)
      → is_cut (save sha256 stringify opts env outcome own signature notified w).1 ≡ true
      → (save sha256 stringify opts env outcome own signature notified w).0.state ≡ w.state
  unfolding save
  save-cut opts env outcome own signature notified w e = ground arith

  conclude-cut :
      (opts : Options) (env : Env) (outcome : AutoSyncOutcome) (own : OwnSyncState) (w : World)
      → is_cut (conclude sha256 stringify opts env outcome own w).1 ≡ true
      → (conclude sha256 stringify opts env outcome own w).0.state ≡ w.state
  unfolding conclude
  conclude-cut opts env outcome own w e = ground arith

  finish_cycle-cut :
      (opts : Options) (env : Env) (community : List CommunityResult)
      (own : OwnOutcome × OwnSyncState) (w : World)
      → is_cut (finish_cycle sha256 stringify opts env community own w).1 ≡ true
      → (finish_cycle sha256 stringify opts env community own w).0.state ≡ w.state
  unfolding finish_cycle
  finish_cycle-cut opts env community own w e = ground arith

  cycle_body-cut :
      (opts : Options) (env : Env) (w : World)
      → is_cut (cycle_body sha256 stringify opts env w).1 ≡ true
      → (cycle_body sha256 stringify opts env w).0.state ≡ w.state
  unfolding cycle_body
  cycle_body-cut opts env w e = ground arith

  run-cut :
      (opts : Options) (env : Env) (w : World)
      → is_cut (run_auto_sync_cycle sha256 stringify opts env w).1 ≡ true
      → (run_auto_sync_cycle sha256 stringify opts env w).0.state ≡ w.state
  unfolding run_auto_sync_cycle
  run-cut opts env w e =
      let v : World = record w {
        sync_lock = (acquire_file_lock env.kill env.me w.sync_lock).0;
        index_lock = (acquire_file_lock env.kill env.me w.index_lock).0;
      } in
      ground (arith, cycle_body-cut opts env v)

  cycle-Counts :
      (opts : Options) (env : Env) (w : World) (vs : List Verdict) (r : RunResult) (w' : World)
      → run_auto_sync_cycle sha256 stringify opts env w ≡ (w', r)
      → Counts sha256 stringify (previous_own w.state) vs
      → Counts sha256 stringify (previous_own w'.state) (tally env.own r vs)
  unfolding tally next_state
  cycle-Counts opts env w vs (ran outcome notified) w' e c =
      elim (Bool-cases (is_refusal outcome.own.code)) [
        | inl refused ↦ rw (refused, (refusal-silent sha256 stringify opts env w refused e).1) c
        | inr fine ↦
            let own = previous_own w.state in
            let f = run-Finished sha256 stringify opts env w fine e in
            let off : outcome.own.suspended ≡ not (should_attempt own env.now) =
              ap (λ o. o.suspended) f.own_half
              ∙ half-suspended sha256 stringify env.own own env.now in
            rw (fine, off, if-not (should_attempt own env.now) vs _, f.completed.state)
              (half-Counts env.own own env.now vs c)
      ]
  cycle-Counts opts env w vs (skipped reason) w' e c =
      rw (ap (λ p. p.0.state) (sym e) ∙ run-cut opts env w (ap (λ p. is_cut p.1) e)) c
  cycle-Counts opts env w vs cycle_failed w' e c =
      rw (ap (λ p. p.0.state) (sym e) ∙ run-cut opts env w (ap (λ p. is_cut p.1) e)) c

  history-Counts :
      (w : World) (rounds : List Round)
      → w.state ≡ none
      → Counts sha256 stringify (previous_own (history w rounds).0.state) (history w rounds).1
  unfolding history
  history-Counts w [] fresh = rw fresh (fresh-Counts sha256 stringify)
  history-Counts w (round ∷ earlier) fresh =
      let v : World = record (history w earlier).0 {
        sync_lock = round.sync_lock;
        index_lock = round.index_lock;
      } in
      cycle-Counts round.opts round.env v (history w earlier).1 _ _ refl
        (history-Counts w earlier fresh)

  -- Over any row of cycles that starts without a state file, whatever lock files each of them finds,
  -- the counter that is stored, 0 where no state is, is the length of the latest run of failures
  -- with one signature among the attempts that count: those of the cycles that ran to their end,
  -- were not refused for a dirty or busy worktree and did not put the own sync off. A success ends
  -- the run, an attempt that is classified as skipped neither ends it nor adds to it, and a cycle that fails,
  -- at its index, its notice or its write too, leaves the counter as it was.
  pub history-streak :
      (w : World) (rounds : List Round)
      → w.state ≡ none
      → (previous_own (history w rounds).0.state).consecutive_failure_count
        ≡ streak (history w rounds).1
  history-streak w rounds fresh = (history-Counts w rounds fresh).count
