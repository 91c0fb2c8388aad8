-- ===== src/AutoSync/Tests.antt =====
-- Cycles of the autosync worker. The identity stands for the hash, and a plain joining for JSON.
use caveat.Common.{
  ℕ, zero, suc, ◌+◌, ◌<◌, ◌≡◌, refl, Bool, true, false, not, ◌&&◌, Option, none, some, List, [],
  ◌∷◌, ◌++◌, Text, codes, list_eq, nat_eq,
}
use caveat.Lock.{acquire_file_lock, release_file_lock}
use caveat.AutoSync.{
  skip, fail, OwnOutcome, classify_own_sync_outcome, sync_failure_code, notice_lines, notice_text,
  worktree_dirty, sync_error,
}
use caveat.AutoSync.State.{
  parse_timestamp, AutoSyncState, synced, failed, Options, Env, World, disabled, sync_busy,
  index_busy, RunResult, skipped, ran, present, should_attempt, mark_degraded, is_refusal,
  repeat_due, previous_own,
}
use caveat.AutoSync.Cycle.{
  own_sync_failure_signature, attempt, own_step, cycle_body, run_auto_sync_cycle,
}
use caveat.Lock.{running}
use caveat.AutoSync.{pull, remote_error}
use caveat.AutoSync.Wait.{Waited, finished, int, run_auto_sync, run_auto_sync-Ends, Ends}
use caveat.AutoSync.Locks.{left_behind, run_auto_sync_cycle-locks}
use caveat.AutoSync.Backoff.{streak}
use caveat.AutoSync.Counter.{Round, history, history-streak}
use caveat.AutoSync.Tried.{Backs, run_auto_sync_cycle-Backs}
use caveat.AutoSync.Notices.{degraded-announced, repeated-silent, refusal-silent}

cycles : Unit {0}
unfolding run_auto_sync_cycle acquire_file_lock cycle_body own_step attempt should_attempt
    is_refusal classify_own_sync_outcome sync_failure_code own_sync_failure_signature notice_lines
    notice_text parse_timestamp release_file_lock mark_degraded present
cycles = tt

abbrev hash : Text → Text
hash t = t

abbrev plain : List (Option Text) → Text
plain [] = []
plain (none ∷ ts) = 0 ∷ plain ts
plain (some t ∷ ts) = 1 ∷ t ++ plain ts

abbrev opts : Options
opts = record { write_requested_at = none; debounce_ms = none; context = [] }

-- A cycle at the given time whose own sync fails at the pull.
abbrev failing : ℕ → Env
failing t = record {
  disabled = false;
  kill = λ pid. running;
  me = 7;
  now = t;
  community = some [];
  own = failed (remote_error pull) none;
  reindex_ok = true;
  managed = false;
  reminder_ok = true;
  write_ok = true;
  index_released = true;
  sync_released = true;
}

abbrev dirty : ℕ → Env
dirty t = record (failing t) { own = failed (sync_error worktree_dirty) none }

-- Two failures stand in the state.
abbrev twice_failed : World
twice_failed = record {
  sync_lock = none;
  index_lock = none;
  state = some (record {
    finished_at = some 50;
    started_at = none;
    context_sha256 = none;
    signature = [];
    last_notified_at = none;
    own_sync = record {
      consecutive_failure_signature = some (codes "REMOTE_PULL_FAILED");
      consecutive_failure_count = 2;
      last_attempt_at = some (some 50);
    };
  });
  reminders = [];
  effects = [];
}

abbrev third : World × RunResult
third = run_auto_sync_cycle hash plain opts (failing 100000000) twice_failed

abbrev fourth : World × RunResult
fourth = run_auto_sync_cycle hash plain opts (failing 130000000) third.0

abbrev third_own : OwnOutcome
third_own = record {
  disposition = fail;
  code = some (codes "REMOTE_PULL_FAILED");
  pulled = false;
  changed_files = 0;
  suspended = false;
  escalated = true;
  degraded = true;
}

third_run : third.1 ≡ ran (record { community = []; own = third_own }) true
unfolding cycles
third_run = refl

fourth_run :
    fourth.1 ≡ ran (record { community = []; own = record third_own { escalated = false } }) false
unfolding cycles
fourth_run = refl

-- The cycle as the pair of its parts.
third_pair : third ≡ (third.0, ran (record { community = []; own = third_own }) true)
unfolding cycles
third_pair = refl

fourth_pair : fourth ≡ (
  fourth.0,
  ran (record { community = []; own = record third_own { escalated = false } }) false,
)
unfolding cycles
fourth_pair = refl

no_refusal : is_refusal (some (codes "REMOTE_PULL_FAILED")) ≡ false
unfolding is_refusal
no_refusal = refl

a_refusal : is_refusal (some (codes "WORKTREE_DIRTY")) ≡ true
unfolding is_refusal
a_refusal = refl

degraded-announced_example :
    (s : AutoSyncState) × (third.0.state ≡ some s)
    × (100000000 < parse_timestamp s.last_notified_at + 86400000)
degraded-announced_example =
    degraded-announced hash plain opts (failing 100000000) twice_failed no_refusal third_pair refl

not_due : repeat_due third.0.state (record third_own { escalated = false }) 130000000 ≡ false
unfolding cycles repeat_due
not_due = refl

same_lines :
    notice_lines (record { community = []; own = third_own }) false
    ≡ notice_lines (record { community = []; own = record third_own { escalated = false } }) false
unfolding notice_lines
same_lines = refl

repeated-silent_example : (◌≡◌ {A = Bool} false false) × (fourth.0.reminders ≡ third.0.reminders)
repeated-silent_example =
    repeated-silent hash plain opts (failing 100000000) (failing 130000000) twice_failed no_refusal
      no_refusal third_pair fourth_pair same_lines not_due

abbrev refused : World × RunResult
refused = run_auto_sync_cycle hash plain opts (dirty 200000000) third.0

abbrev refused_own : OwnOutcome
refused_own = record {
  disposition = skip;
  code = some (codes "WORKTREE_DIRTY");
  pulled = false;
  changed_files = 0;
  suspended = false;
  escalated = false;
  degraded = true;
}

refused_pair : refused ≡ (refused.0, ran (record { community = []; own = refused_own }) false)
unfolding cycles
refused_pair = refl

-- The sync is degraded, and the last notice is more than a day old.
refusal-silent_example :
    (◌≡◌ {A = Bool} false false)
    × (refused.0.state ≡ third.0.state)
    × (refused.0.reminders ≡ third.0.reminders)
refusal-silent_example =
    refusal-silent hash plain opts (dirty 200000000) third.0 a_refusal refused_pair

run_auto_sync_cycle-locks_example :
    (let w' = third.0 in
      let takes_sync = not false && (acquire_file_lock (λ pid. running) 7 none).1 in
      let takes_index = takes_sync && (acquire_file_lock (λ pid. running) 7 none).1 in
      (w'.sync_lock ≡ left_behind 7 takes_sync true none)
      × (w'.index_lock ≡ left_behind 7 takes_index true none))
run_auto_sync_cycle-locks_example =
    run_auto_sync_cycle-locks hash plain opts (failing 100000000) twice_failed

-- The release of the index lock fails.
stuck_run :
    (run_auto_sync_cycle hash plain opts
      (record (failing 100000000) { index_released = false })
      twice_failed).0.index_lock
    ≡ some (some 7)
unfolding cycles
stuck_run = refl

abbrev bare : World
bare = record twice_failed { state = none }

abbrev round : Env → Round
round env = record { opts = opts; env = env; sync_lock = none; index_lock = none }

-- A success, three failures, the last of which is lost with its index, and a refusal between them.
abbrev rounds : List Round
rounds =
    round (record (failing 500) { reindex_ok = false })
    ∷ round (failing 400)
    ∷ round (dirty 300)
    ∷ round (failing 200)
    ∷ round (record (failing 100) { own = synced true 1 })
    ∷ []

history-streak_example :
    (previous_own (history hash plain bare rounds).0.state).consecutive_failure_count
    ≡ streak (history hash plain bare rounds).1
history-streak_example = history-streak hash plain bare rounds refl

counted_run : (previous_own (history hash plain bare rounds).0.state).consecutive_failure_count ≡ 2
unfolding cycles history
counted_run = refl

run_auto_sync_cycle-Backs_example :
    (let (w', r) = run_auto_sync_cycle hash plain opts (failing 100) twice_failed in
      Backs (previous_own twice_failed.state) 100 r w'.effects)
run_auto_sync_cycle-Backs_example =
    run_auto_sync_cycle-Backs hash plain opts (failing 100) twice_failed refl refl

-- Two busy cycles, then one that is disabled.
abbrev answers : ℕ → RunResult
answers zero = skipped sync_busy
answers (suc zero) = skipped index_busy
answers (suc (suc n)) = skipped disabled

run_auto_sync-Ends_example :
    (r : Waited × ℕ) × (run_auto_sync answers (λ k. 20) (some (int false 900)) 1000 ≡ some r)
    × Ends answers (λ k. 20) 1000 (some (int false 900)) r
run_auto_sync-Ends_example = run_auto_sync-Ends answers (λ k. 20) 1000 (some (int false 900))

waited_run :
    run_auto_sync answers (λ k. 20) (some (int false 900)) 1000
    ≡ some (finished (skipped disabled), 1260)
unfolding run_auto_sync
waited_run = refl
