-- ===== src/AutoSync/State.antt =====
-- The data of `runAutoSyncCycle` of packages/core/src/autoSync.ts, and the tests and small steps of
-- the cycle that call nothing else.
use caveat.Common.{
  ℕ, ◌+◌, Bool, true, false, not, ◌&&◌, ◌||◌, Option, none, some, List, [], ◌∷◌, Text, codes,
  if◌then◌else◌, leb, ltb, list_eq, nat_eq, ◌==◌,
}
use caveat.Lock.{LockFile, Probe, release_file_lock}
use caveat.AutoSync.{
  auto_sync_suspend_threshold, auto_sync_degraded_retry_ms, auto_sync_notice_repeat_ms, SyncFailure,
  RemoteAccess, skip, CommunityResult, OwnOutcome, AutoSyncOutcome,
}

-- A stored time: what `Date.parse` makes of the text, `none` for NaN.
abbrev pub Stamp : Type 0
Stamp = Option ℕ

-- `parseTimestamp`: an absent or unreadable time is 0.
unfoldable pub parse_timestamp : Option Stamp → ℕ
parse_timestamp none = 0
parse_timestamp (some none) = 0
parse_timestamp (some (some ms)) = ms

pub record OwnSyncState : Type 0 where
  pub consecutive_failure_signature : Option Text
  pub consecutive_failure_count : ℕ
  pub last_attempt_at : Option Stamp

abbrev pub fresh_own : OwnSyncState
fresh_own = record {
  consecutive_failure_signature = none;
  consecutive_failure_count = 0;
  last_attempt_at = none;
}

-- `AutoSyncState`. `isAutoSyncState` refuses a state whose `startedAt` is not a time.
pub record AutoSyncState : Type 0 where
  pub finished_at : Stamp
  pub started_at : Option ℕ
  pub context_sha256 : Option Text
  pub signature : Text
  pub last_notified_at : Option Stamp
  pub own_sync : OwnSyncState

-- What one call of `syncOwn` did: it returned, or it threw after this last probe.
pub data OwnAttempt : Type 0 where
  synced : (pulled : Bool) (changed_files : ℕ) → OwnAttempt
  failed : SyncFailure → Option RemoteAccess → OwnAttempt

pub record Options : Type 0 where
  pub write_requested_at : Option ℕ
  pub debounce_ms : Option ℕ
  -- The directories, the database and the user that `contextSha256` covers.
  pub context : List (Option Text)

-- The answers of the outside during one cycle. A step that may throw is `none` or `false`.
pub record Env : Type 0 where
  pub disabled : Bool
  pub kill : ℕ → Probe
  pub me : ℕ
  pub now : ℕ
  pub community : Option (List CommunityResult)
  pub own : OwnAttempt
  pub reindex_ok : Bool
  pub managed : Bool
  pub reminder_ok : Bool
  pub write_ok : Bool
  -- The lock files can be unlinked.
  pub index_released : Bool
  pub sync_released : Bool

pub data Effect : Type 0 where
  own_called reindexed : Effect

-- The files that the cycle works on, and the calls that it made.
pub record World : Type 0 where
  pub sync_lock : LockFile
  pub index_lock : LockFile
  pub state : Option AutoSyncState
  pub reminders : List Text
  pub effects : List Effect

pub data SkipReason : Type 0 where
  disabled sync_busy index_busy interval_wait write_already_synced write_lock_timeout : SkipReason

pub data RunResult : Type 0 where
  skipped : SkipReason → RunResult
  ran : AutoSyncOutcome → (notified : Bool) → RunResult
  cycle_failed : RunResult

unfoldable pub present : List Text → List (Option Text)
present [] = []
present (t ∷ ts) = some t ∷ present ts

unfoldable pub same_signature : Option Text → Text → Bool
same_signature none signature = false
same_signature (some old) signature = old == signature

-- `code === 'UNKNOWN' ? undefined : code`
unfoldable pub known_code : Text → Option Text
known_code code = if code == codes "UNKNOWN" then none else some code

abbrev pub backed_off : OwnOutcome
backed_off = record {
  disposition = skip;
  code = none;
  pulled = false;
  changed_files = 0;
  suspended = true;
  escalated = false;
  degraded = false;
}

-- After the threshold the sync is tried only when the retry is due.
unfoldable pub should_attempt : OwnSyncState → ℕ → Bool
should_attempt own now =
    not (leb auto_sync_suspend_threshold own.consecutive_failure_count)
    || leb (parse_timestamp own.last_attempt_at + auto_sync_degraded_retry_ms) now

unfoldable pub mark_degraded : OwnOutcome × OwnSyncState → OwnOutcome × OwnSyncState
mark_degraded (own, state) =
    if leb auto_sync_suspend_threshold state.consecutive_failure_count
    then (record own { degraded = true }, state)
    else (own, state)

-- A dirty or busy refusal.
unfoldable pub is_refusal : Option Text → Bool
is_refusal none = false
is_refusal (some code) = code == codes "WORKTREE_DIRTY" || code == codes "SYNC_BUSY"

abbrev pub previous_own : Option AutoSyncState → OwnSyncState
previous_own none = fresh_own
previous_own (some s) = s.own_sync

abbrev pub previous_notified : Option AutoSyncState → Option Stamp
previous_notified none = none
previous_notified (some s) = s.last_notified_at

-- `previousState?.signature !== signature`
unfoldable pub is_new_message : Option AutoSyncState → Text → Bool
is_new_message none signature = true
is_new_message (some s) signature = not (s.signature == signature)

unfoldable pub repeat_due : Option AutoSyncState → OwnOutcome → ℕ → Bool
repeat_due previous own now =
    own.degraded
    && leb (parse_timestamp (previous_notified previous) + auto_sync_notice_repeat_ms) now

unfoldable pub within_interval : Option ℕ → Option AutoSyncState → ℕ → Bool
within_interval none previous now = false
within_interval (some debounce) none now = false
within_interval (some debounce) (some s) now =
    ltb now (debounce + parse_timestamp (some s.finished_at))

-- `releaseFileLock` under `try`: when the unlink fails, a warning is logged and the file stays.
abbrev pub try_release : Bool → LockFile → LockFile
try_release released file = if released then release_file_lock file else file

unfoldable pub release_index : Env → World × RunResult → World × RunResult
release_index env (w, r) =
    (record w { index_lock = try_release env.index_released w.index_lock }, r)

unfoldable pub release_sync : Env → World × RunResult → World × RunResult
release_sync env (w, r) = (record w { sync_lock = try_release env.sync_released w.sync_lock }, r)
