-- ===== src/AutoSync/Cycle.antt =====
-- `runAutoSyncCycle` of packages/core/src/autoSync.ts, from its guards to the `finally` that
-- releases both locks. What the network, the disk and the other components answer is in `Env`.
use caveat.Common.{
  ℕ, ◌+◌, Bool, true, false, ◌&&◌, ◌||◌, Option, none, some, List, [], ◌∷◌, ◌++◌, Text,
  if◌then◌else◌, ltb, nat_beq, list_eq, nat_eq,
}
use caveat.Lock.{acquire_file_lock}
use caveat.AutoSync.{
  auto_sync_suspend_threshold, SyncFailure, Disposition, success, fail, CommunityResult, OwnOutcome,
  AutoSyncOutcome, classify_own_sync_outcome, sync_failure_code, notice_lines, notice_text,
}
use caveat.AutoSync.State.{
  Stamp, OwnSyncState, fresh_own, AutoSyncState, OwnAttempt, synced, failed, Options, Env,
  reindexed, World, SkipReason, disabled, sync_busy, index_busy, interval_wait,
  write_already_synced, RunResult, skipped, ran, cycle_failed, present, same_signature, known_code,
  backed_off, should_attempt, mark_degraded, is_refusal, previous_own, previous_notified,
  is_new_message, repeat_due, own_called, within_interval, release_index, release_sync,
}

module _ (sha256 : Text → Text) (stringify : List (Option Text) → Text) where
  -- `ownSyncFailureSignature`
  unfoldable pub own_sync_failure_signature : SyncFailure → Text
  own_sync_failure_signature failure = sha256 (sync_failure_code failure)

  -- The failure counter after a failed attempt at the time `now`.
  unfoldable pub after_failure : OwnSyncState → Stamp → Text → OwnSyncState
  unfolding same_signature
  after_failure own now signature = record {
    consecutive_failure_signature = some signature;
    consecutive_failure_count =
        if same_signature own.consecutive_failure_signature signature
        then own.consecutive_failure_count + 1
        else 1;
    last_attempt_at = some now;
  }

  unfoldable pub thrown :
      SyncFailure → Disposition → OwnSyncState → Stamp → OwnOutcome × OwnSyncState
  unfolding known_code
  thrown failure fail own now =
      let own' = after_failure own now (own_sync_failure_signature failure) in
      (
        record {
          disposition = fail;
          code = known_code (sync_failure_code failure);
          pulled = false;
          changed_files = 0;
          suspended = false;
          escalated = nat_beq own'.consecutive_failure_count auto_sync_suspend_threshold;
          degraded = false;
        },
        own',
      )
  thrown failure disposition own now = (
    record {
      disposition = disposition;
      code = known_code (sync_failure_code failure);
      pulled = false;
      changed_files = 0;
      suspended = false;
      escalated = false;
      degraded = false;
    },
    own,
  )

  -- One attempt of the own sync. `lastAttemptAt` is set before the call.
  unfoldable pub attempt : OwnAttempt → OwnSyncState → Stamp → OwnOutcome × OwnSyncState
  unfolding thrown after_failure
  attempt (synced pulled changed) own now = (
    record {
      disposition = success;
      code = none;
      pulled = pulled;
      changed_files = changed;
      suspended = false;
      escalated = false;
      degraded = false;
    },
    fresh_own,
  )
  attempt (failed failure probe) own now =
      thrown failure (classify_own_sync_outcome failure probe)
        (record own { last_attempt_at = some now }) now

  -- The own half of the cycle: inside the backoff `syncOwn` is not called.
  unfoldable pub own_step :
      OwnAttempt → OwnSyncState → ℕ → World → World × (OwnOutcome × OwnSyncState)
  unfolding mark_degraded
  own_step answer own now w =
      if should_attempt own now
      then (
        record w { effects = w.effects ++ own_called ∷ [] },
        mark_degraded (attempt answer own (some now)),
      )
      else (w, mark_degraded (backed_off, own))

  -- The state that a completed cycle writes.
  unfoldable pub next_state :
      Options → ℕ → Option AutoSyncState → OwnSyncState → Text → Bool → AutoSyncState
  next_state opts now previous own signature notified = record {
    finished_at = some now;
    started_at = some now;
    context_sha256 = some (sha256 (stringify opts.context));
    signature = signature;
    last_notified_at = if notified then some (some now) else previous_notified previous;
    own_sync = own;
  }

  unfoldable pub save :
      Options → Env → AutoSyncOutcome → OwnSyncState → Text → Bool → World → World × RunResult
  unfolding next_state
  save opts env outcome own signature notified w =
      if env.write_ok
      then (
        record w { state = some (next_state opts env.now w.state own signature notified) },
        ran outcome notified,
      )
      else (w, cycle_failed)

  -- The notice, and the state behind it.
  unfoldable pub conclude :
      Options → Env → AutoSyncOutcome → OwnSyncState → World → World × RunResult
  unfolding is_new_message repeat_due save
  conclude opts env outcome own w =
      let lines = notice_lines outcome env.managed in
      let signature = sha256 (stringify (present lines)) in
      elim (notice_text lines) [
        | none ↦ save opts env outcome own signature false w
        | some text ↦
            if is_new_message w.state signature || repeat_due w.state outcome.own env.now
            then (if env.reminder_ok
                then save opts env outcome own signature true
                    (record w { reminders = w.reminders ++ text ∷ [] })
                else (w, cycle_failed))
            else save opts env outcome own signature false w
      ]

  -- From the own half to the end.
  unfoldable pub finish_cycle :
      Options → Env → List CommunityResult → OwnOutcome × OwnSyncState → World → World × RunResult
  unfolding conclude
  finish_cycle opts env community (own, state) w =
      let outcome : AutoSyncOutcome = record { community = community; own = own } in
      if is_refusal own.code
      then (w, ran outcome false)
      else if env.reindex_ok
      then conclude opts env outcome state (record w { effects = w.effects ++ reindexed ∷ [] })
      else (w, cycle_failed)

  unfoldable pub cycle_body : Options → Env → World → World × RunResult
  unfolding finish_cycle own_step
  cycle_body opts env w = elim env.community [
    | none ↦ (w, cycle_failed)
    | some community ↦
        let (w', own) = own_step env.own (previous_own w.state) env.now w in
        finish_cycle opts env community own w'
  ]

  unfoldable pub already_synced : Options → Option AutoSyncState → ℕ → Bool
  already_synced opts none requested = false
  already_synced opts (some s) requested = elim s.started_at [
    | none ↦ false
    | some started ↦
        same_signature s.context_sha256 (sha256 (stringify opts.context)) && ltb requested started
  ]

  -- The reason to do nothing, under the locks.
  unfoldable pub early_skip : Options → Env → World → Option SkipReason
  unfolding already_synced within_interval same_signature
  early_skip opts env w = elim opts.write_requested_at [
    | some requested ↦
        if already_synced opts w.state requested then some write_already_synced else none
    | none ↦ if within_interval opts.debounce_ms w.state env.now then some interval_wait else none
  ]

  unfoldable pub locked : Options → Env → World → World × RunResult
  unfolding early_skip
  locked opts env w = elim (early_skip opts env w) [
    | some reason ↦ (w, skipped reason)
    | none ↦ cycle_body opts env w
  ]

  unfoldable pub with_index : Options → Env → World → World × RunResult
  unfolding locked release_index
  with_index opts env w =
      let (file, taken) = acquire_file_lock env.kill env.me w.index_lock in
      let w' : World = record w { index_lock = file } in
      if taken then release_index env (locked opts env w') else (w', skipped index_busy)

  -- `runAutoSyncCycle`
  unfoldable pub run_auto_sync_cycle : Options → Env → World → World × RunResult
  unfolding with_index release_sync
  run_auto_sync_cycle opts env w =
      if env.disabled
      then (w, skipped disabled)
      else (let (file, taken) = acquire_file_lock env.kill env.me w.sync_lock in
          let w' : World = record w { sync_lock = file } in
          if taken then release_sync env (with_index opts env w') else (w', skipped sync_busy))
