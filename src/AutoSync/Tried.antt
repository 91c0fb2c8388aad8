-- ===== src/AutoSync/Tried.antt =====
-- When a cycle of autoSync.ts calls `syncOwn`, and what its result says of it.
use caveat.Common.{
  ℕ, ◌+◌, ◌<◌, ◌≤◌, ◌≡◌, ◌↔◌, ◌⊎◌, inl, inr, refl, ◌∙◌, Bool, true, false, not, Option, some, List,
  [], ◌∷◌, ◌++◌, ◌||◌, Text, if◌then◌else◌, arith, any, any-append, Bool-cases, Option-cases,
}
use caveat.Lock.{acquire_file_lock}
use caveat.AutoSync.{
  SyncFailure, Disposition, fail, CommunityResult, OwnOutcome, AutoSyncOutcome, notice_lines,
  notice_text,
}
use caveat.AutoSync.State.{
  Stamp, is_refusal, present, is_new_message, repeat_due, parse_timestamp, OwnSyncState, OwnAttempt,
  synced, failed, Options, Env, Effect, own_called, reindexed, World, RunResult, skipped, ran,
  cycle_failed, should_attempt, mark_degraded, previous_own, release_index, release_sync,
}
use caveat.AutoSync.Cycle.{
  thrown, attempt, save, conclude, finish_cycle, cycle_body, early_skip, locked, with_index,
  run_auto_sync_cycle,
}
use caveat.AutoSync.Half.{called, half, cycle_body-half}

abbrev pub is_own_call : Effect → Bool
is_own_call own_called = true
is_own_call reindexed = false

-- The own sync is to be tried.
abbrev pub IsDue : OwnSyncState → ℕ → Type 0
IsDue own now =
    (own.consecutive_failure_count < 3) ⊎ (parse_timestamp own.last_attempt_at + 21600000 ≤ now)

-- What the result of a cycle has to do with the calls of `syncOwn` in it.
abbrev pub Backs : OwnSyncState → ℕ → RunResult → List Effect → Type 0
Backs own now (skipped reason) effects = any is_own_call effects ≡ false
Backs own now cycle_failed effects = (any is_own_call effects ≡ true) ↔ IsDue own now
Backs own now (ran outcome notified) effects =
    ((any is_own_call effects ≡ true) ↔ IsDue own now)
    × (outcome.own.suspended ≡ not (any is_own_call effects))

IsDue-iff : (own : OwnSyncState) (now : ℕ) → (should_attempt own now ≡ true) ↔ IsDue own now
unfolding should_attempt
IsDue-iff own now = ground arith

-- The result tells whether the own sync was put off.
abbrev Tells : Bool → RunResult → Type 0
Tells off (skipped reason) = ⊥
Tells off cycle_failed = Unit
Tells off (ran outcome notified) = outcome.own.suspended ≡ off

Backs-tried :
    (own : OwnSyncState) (now : ℕ) (off : Bool) (r : RunResult) (effects : List Effect)
    → Tells off r
    → off ≡ not (should_attempt own now)
    → any is_own_call effects ≡ should_attempt own now
    → Backs own now r effects
Backs-tried own now off (skipped reason) effects t o e = elim t [ ]
Backs-tried own now off cycle_failed effects t o e = rw e (IsDue-iff own now)
Backs-tried own now off (ran outcome notified) effects t o e = rw e (IsDue-iff own now, t ∙ o)

any-called :
    (tried : Bool) (w : World) → w.effects ≡ [] → any is_own_call (called tried w).effects ≡ tried
any-called true w none_yet = rw none_yet refl
any-called false w none_yet = rw none_yet refl

mark_degraded-suspended :
    (own : OwnOutcome × OwnSyncState) → (mark_degraded own).0.suspended ≡ own.0.suspended
unfolding mark_degraded
mark_degraded-suspended own = ground arith

if-All : {A : Type 0} (P : A → Type 0) (b : Bool) {x y : A} → P x → P y → P (if b then x else y)
if-All P true p q = p
if-All P false p q = q

module _ (sha256 : Text → Text) (stringify : List (Option Text) → Text) where
  thrown-suspended :
      (failure : SyncFailure) (d : Disposition) (own : OwnSyncState) (now : Stamp)
      → (thrown sha256 stringify failure d own now).0.suspended ≡ false
  unfolding thrown
  thrown-suspended failure fail own now = refl
  thrown-suspended failure d own now = refl

  attempt-suspended :
      (answer : OwnAttempt) (own : OwnSyncState) (now : Stamp)
      → (attempt sha256 stringify answer own now).0.suspended ≡ false
  unfolding attempt
  attempt-suspended (synced pulled changed) own now = refl
  attempt-suspended (failed failure probe) own now = thrown-suspended failure _ _ now

  pub half-suspended :
      (answer : OwnAttempt) (own : OwnSyncState) (now : ℕ)
      → (half sha256 stringify answer own now).0.suspended ≡ not (should_attempt own now)
  unfolding half
  half-suspended answer own now = elim (Bool-cases (should_attempt own now)) [
    | inl tried ↦
        rw (tried, half) (mark_degraded-suspended _ ∙ attempt-suspended answer own (some now))
    | inr waits ↦ rw (waits, half) (mark_degraded-suspended _)
  ]

  save-Tells :
      (opts : Options) (env : Env) (outcome : AutoSyncOutcome) (own : OwnSyncState)
      (signature : Text) (notified : Bool) (w : World)
      → Tells outcome.own.suspended
          (save sha256 stringify opts env outcome own signature notified w).1
  unfolding save
  save-Tells opts env outcome own signature notified w = elim (Bool-cases env.write_ok) [
    | inl good ↦ rw (good, save) refl
    | inr bad ↦ rw (bad, save) tt
  ]

  conclude-Tells :
      (opts : Options) (env : Env) (outcome : AutoSyncOutcome) (own : OwnSyncState) (w : World)
      → Tells outcome.own.suspended (conclude sha256 stringify opts env outcome own w).1
  unfolding conclude
  conclude-Tells opts env outcome own w =
      let lines = notice_lines outcome env.managed in
      let signature = sha256 (stringify (present lines)) in
      elim (Option-cases (notice_text lines)) [
        | inl silent ↦ rw (silent, conclude) (save-Tells opts env outcome own signature false w)
        | inr (text, speaks) ↦
            elim (Bool-cases
              (is_new_message w.state signature || repeat_due w.state outcome.own env.now)) [
                | inr old ↦
                    rw (speaks, old, conclude) (save-Tells opts env outcome own signature false w)
                | inl new ↦ elim (Bool-cases env.reminder_ok) [
                  | inl written ↦
                      rw (speaks, new, written, conclude)
                        (save-Tells opts env outcome own signature true
                          (record w { reminders = w.reminders ++ text ∷ [] }))
                  | inr lost ↦ rw (speaks, new, lost, conclude) tt
                ]
              ]
      ]

  finish_cycle-Tells :
      (opts : Options) (env : Env) (community : List CommunityResult)
      (own : OwnOutcome × OwnSyncState) (w : World)
      → Tells own.0.suspended (finish_cycle sha256 stringify opts env community own w).1
  unfolding finish_cycle
  finish_cycle-Tells opts env community (own, state) w = elim (Bool-cases (is_refusal own.code)) [
    | inl refused ↦ rw (refused, finish_cycle) refl
    | inr good ↦ elim (Bool-cases env.reindex_ok) [
      | inl indexed ↦
          rw (good, indexed, finish_cycle)
            (conclude-Tells opts env (record { community = community; own = own }) state
              (record w { effects = w.effects ++ reindexed ∷ [] }))
      | inr failed' ↦ rw (good, failed', finish_cycle) tt
    ]
  ]

  finish_cycle-called :
      (opts : Options) (env : Env) (community : List CommunityResult)
      (own : OwnOutcome × OwnSyncState) (w : World)
      → any is_own_call (finish_cycle sha256 stringify opts env community own w).0.effects
        ≡ any is_own_call w.effects
  unfolding finish_cycle
  finish_cycle-called opts env community own w =
      ground (arith, any-append is_own_call w.effects (reindexed ∷ []))

  cycle_body-Backs :
      (opts : Options) (env : Env) (w : World) {community : List CommunityResult}
      → env.community ≡ some community
      → w.effects ≡ []
      → (let (w', r) = cycle_body sha256 stringify opts env w in
          Backs (previous_own w.state) env.now r w'.effects)
  cycle_body-Backs opts env w {community} answered none_yet =
      let own = previous_own w.state in
      let tried = should_attempt own env.now in
      let h = half sha256 stringify env.own own env.now in
      let tells = finish_cycle-Tells opts env community h (called tried w) in
      rw (cycle_body-half sha256 stringify opts env w answered) (
        Backs-tried own env.now h.0.suspended _ _ tells (half-suspended env.own own env.now)
          (finish_cycle-called opts env community h (called tried w) ∙ any-called tried w none_yet))

  locked-Backs :
      (opts : Options) (env : Env) (w : World) {community : List CommunityResult}
      → env.community ≡ some community
      → w.effects ≡ []
      → (let (w', r) = locked sha256 stringify opts env w in
          Backs (previous_own w.state) env.now r w'.effects)
  unfolding locked
  locked-Backs opts env w answered none_yet =
      elim (Option-cases (early_skip sha256 stringify opts env w)) [
        | inl goes_on ↦ rw (goes_on, locked) (cycle_body-Backs opts env w answered none_yet)
        | inr (reason, skips) ↦ rw (skips, locked, none_yet) refl
      ]

  with_index-Backs :
      (opts : Options) (env : Env) (w : World) {community : List CommunityResult}
      → env.community ≡ some community
      → w.effects ≡ []
      → (let (w', r) = with_index sha256 stringify opts env w in
          Backs (previous_own w.state) env.now r w'.effects)
  unfolding with_index release_index
  with_index-Backs opts env w answered none_yet =
      elim (Bool-cases (acquire_file_lock env.kill env.me w.index_lock).1) [
        | inl taken ↦ rw (taken, with_index) (locked-Backs opts env _ answered none_yet)
        | inr busy ↦ rw (busy, with_index, none_yet) refl
      ]

  -- A cycle that starts with no call made, and in which the community repositories answer, calls the
  -- own sync exactly when fewer than three failures stand in a row or the last attempt is at least
  -- six hours old, unless it is skipped: then it does not. If it runs to its end, its result says that
  -- the own sync is suspended exactly when it was not called.
  pub run_auto_sync_cycle-Backs :
      (opts : Options) (env : Env) (w : World) {community : List CommunityResult}
      → env.community ≡ some community
      → w.effects ≡ []
      → (let (w', r) = run_auto_sync_cycle sha256 stringify opts env w in
          Backs (previous_own w.state) env.now r w'.effects)
  unfolding run_auto_sync_cycle release_sync
  run_auto_sync_cycle-Backs opts env w answered none_yet =
      let P : World × RunResult → Type 0 =
        λ p. Backs (previous_own w.state) env.now p.1 p.0.effects in
      let quiet : any is_own_call w.effects ≡ false = rw none_yet refl in
      if-All P env.disabled quiet (
        if-All P (acquire_file_lock env.kill env.me w.sync_lock).1
          (with_index-Backs opts env
            (record w { sync_lock = (acquire_file_lock env.kill env.me w.sync_lock).0 }) answered
            none_yet)
          quiet)
