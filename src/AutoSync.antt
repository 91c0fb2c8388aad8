-- ===== src/AutoSync.antt =====
-- packages/core/src/autoSync.ts: the data of the periodic sync, the classification of its failures
-- and the notice that it writes. The cycle itself is in AutoSync/Cycle.antt.
pub mod State
pub mod Cycle
pub mod Wait
pub mod Locks
pub mod Half
pub mod Tried
pub mod Backoff
pub mod Notices
pub mod Counter
mod Tests
use caveat.Common.{
  ℕ, zero, suc, ◌+◌, Bool, true, false, ◌&&◌, ◌||◌, Option, none, some, List, [], ◌∷◌, ◌++◌, map,
  Text, codes, if◌then◌else◌, leb, ltb, nat_beq, join, list_eq, nat_eq, ◌==◌,
}

abbrev pub auto_sync_suspend_threshold : ℕ
auto_sync_suspend_threshold = 3

abbrev pub auto_sync_degraded_retry_ms : ℕ
auto_sync_degraded_retry_ms = 21600000

abbrev pub auto_sync_notice_repeat_ms : ℕ
auto_sync_notice_repeat_ms = 86400000

abbrev pub auto_sync_write_lock_wait_ms : ℕ
auto_sync_write_lock_wait_ms = 30000

abbrev pub auto_sync_debounce_ms : ℕ
auto_sync_debounce_ms = 900000

-- `SyncErrorCode` of packages/core/src/syncErrors.ts.
pub data SyncErrorCode : Type 0 where
  git_env_unsafe not_a_repo external_toplevel detached_head no_remote remote_public : SyncErrorCode
  remote_visibility_indeterminate sync_conflict rebase_in_progress own_repo_exists : SyncErrorCode
  both_have_entries worktree_dirty sync_busy github_config_unsupported : SyncErrorCode
  github_user_invalid github_user_unavailable github_username_mismatch : SyncErrorCode
  github_target_unsupported github_credential_unavailable github_cli_unavailable : SyncErrorCode
  github_cli_unsupported github_credential_expired : SyncErrorCode

pub data SyncPhase : Type 0 where
  inspect pull push fetch : SyncPhase

-- What `syncOwn` throws: a `SyncError`, a `SyncRemoteError`, a `SyncRecoveryError` or anything else.
pub data SyncFailure : Type 0 where
  sync_error : SyncErrorCode → SyncFailure
  remote_error : SyncPhase → SyncFailure
  recovery_error other_error : SyncFailure

-- `RemoteAccess` of packages/core/src/remoteVisibility.ts.
pub data RemoteAccess : Type 0 where
  anonymous_readable : RemoteAccess
  denied : ℕ → RemoteAccess
  indeterminate : Text → RemoteAccess

pub data Disposition : Type 0 where
  success skip network_skip fail : Disposition

abbrev pub probe_request_failed_reason : Text
probe_request_failed_reason = codes "anonymous read probe request failed"

unfoldable pub classify_probe : Option RemoteAccess → Disposition
classify_probe (some (indeterminate reason)) =
    if reason == probe_request_failed_reason then network_skip else fail
classify_probe _ = fail

-- `classifyOwnSyncOutcome`
unfoldable pub classify_own_sync_outcome : SyncFailure → Option RemoteAccess → Disposition
unfolding classify_probe
classify_own_sync_outcome (sync_error not_a_repo) probe = skip
classify_own_sync_outcome (sync_error no_remote) probe = skip
classify_own_sync_outcome (sync_error external_toplevel) probe = skip
classify_own_sync_outcome (sync_error detached_head) probe = skip
classify_own_sync_outcome (sync_error own_repo_exists) probe = skip
classify_own_sync_outcome (sync_error both_have_entries) probe = skip
classify_own_sync_outcome (sync_error worktree_dirty) probe = skip
classify_own_sync_outcome (sync_error sync_busy) probe = skip
classify_own_sync_outcome (sync_error remote_visibility_indeterminate) probe = classify_probe probe
classify_own_sync_outcome _ probe = fail

abbrev pub code_text : SyncErrorCode → Text
code_text git_env_unsafe = codes "CAVEAT_GIT_ENV_UNSAFE"
code_text not_a_repo = codes "NOT_A_REPO"
code_text external_toplevel = codes "EXTERNAL_TOPLEVEL"
code_text detached_head = codes "DETACHED_HEAD"
code_text no_remote = codes "NO_REMOTE"
code_text remote_public = codes "REMOTE_PUBLIC"
code_text remote_visibility_indeterminate = codes "REMOTE_VISIBILITY_INDETERMINATE"
code_text sync_conflict = codes "SYNC_CONFLICT"
code_text rebase_in_progress = codes "REBASE_IN_PROGRESS"
code_text own_repo_exists = codes "OWN_REPO_EXISTS"
code_text both_have_entries = codes "BOTH_HAVE_ENTRIES"
code_text worktree_dirty = codes "WORKTREE_DIRTY"
code_text sync_busy = codes "SYNC_BUSY"
code_text github_config_unsupported = codes "CAVEAT_GITHUB_CONFIG_UNSUPPORTED"
code_text github_user_invalid = codes "CAVEAT_GITHUB_USER_INVALID"
code_text github_user_unavailable = codes "CAVEAT_GITHUB_USER_UNAVAILABLE"
code_text github_username_mismatch = codes "CAVEAT_GITHUB_USERNAME_MISMATCH"
code_text github_target_unsupported = codes "CAVEAT_GITHUB_TARGET_UNSUPPORTED"
code_text github_credential_unavailable = codes "CAVEAT_GITHUB_CREDENTIAL_UNAVAILABLE"
code_text github_cli_unavailable = codes "CAVEAT_GITHUB_CLI_UNAVAILABLE"
code_text github_cli_unsupported = codes "CAVEAT_GITHUB_CLI_UNSUPPORTED"
code_text github_credential_expired = codes "CAVEAT_GITHUB_CREDENTIAL_EXPIRED"

-- `phase.toUpperCase()`
abbrev pub phase_text : SyncPhase → Text
phase_text inspect = codes "INSPECT"
phase_text pull = codes "PULL"
phase_text push = codes "PUSH"
phase_text fetch = codes "FETCH"

-- `syncFailureCode`
unfoldable pub sync_failure_code : SyncFailure → Text
sync_failure_code (sync_error code) = code_text code
sync_failure_code (remote_error phase) = codes "REMOTE_" ++ (phase_text phase ++ codes "_FAILED")
sync_failure_code recovery_error = codes "RECOVERY_FAILED"
sync_failure_code other_error = codes "UNKNOWN"

pub record CommunityResult : Type 0 where
  pub handle : Text
  pub ok : Bool

-- `AutoSyncOutcome['own']`; an absent flag is `false`.
pub record OwnOutcome : Type 0 where
  pub disposition : Disposition
  pub code : Option Text
  pub pulled : Bool
  pub changed_files : ℕ
  pub suspended : Bool
  pub escalated : Bool
  pub degraded : Bool

pub record AutoSyncOutcome : Type 0 where
  pub community : List CommunityResult
  pub own : OwnOutcome

text_leb : Text → Text → Bool
text_leb [] u = true
text_leb (c ∷ cs) [] = false
text_leb (c ∷ cs) (d ∷ ds) = ltb c d || (nat_beq c d && text_leb cs ds)

insert_text : Text → List Text → List Text
insert_text t [] = t ∷ []
insert_text t (u ∷ us) = if text_leb t u then t ∷ u ∷ us else u ∷ insert_text t us

-- `texts.sort()`
sort_texts : List Text → List Text
sort_texts [] = []
sort_texts (t ∷ ts) = insert_text t (sort_texts ts)

failed_handles : List CommunityResult → List Text
failed_handles [] = []
failed_handles (r ∷ rs) = if r.ok then failed_handles rs else r.handle ∷ failed_handles rs

retry_text : Bool → Text
retry_text true =
    codes
      "call the Caveat MCP tool caveat_sync with {}. If unavailable, stop; do not use a PATH command or another context"
retry_text false = codes "run `caveat sync`"

or_unknown : Option Text → Text
or_unknown none = codes "UNKNOWN"
or_unknown (some code) = code

is_fail : Disposition → Bool
is_fail fail = true
is_fail _ = false

pulled_lines : OwnOutcome → List Text
pulled_lines own =
    if own.pulled then codes "autosync: pulled updates from your private remote" ∷ [] else []

-- 6 is `Math.round(AUTO_SYNC_DEGRADED_RETRY_MS / (60 * 60 * 1000))`.
failure_lines : OwnOutcome → Bool → List Text
unfolding retry_text or_unknown is_fail
failure_lines own managed =
    if own.degraded
    then (codes "autosync: own sync keeps failing; auto-retry is backed off to every 6h. "
        ++ (retry_text managed ++ codes " to resolve now."))
      ∷ []
    else if is_fail own.disposition
    then (codes "autosync: own sync failed ("
        ++ (or_unknown own.code ++ (codes "). " ++ (retry_text managed ++ codes " to resolve."))))
      ∷ []
    else []

community_lines : List Text → List Text
community_lines [] = []
community_lines (h ∷ hs) =
    (codes "autosync: community pull failed: " ++ join (codes ", ") (h ∷ hs)) ∷ []

-- The lines of `autoSyncNotification`.
unfoldable pub notice_lines : AutoSyncOutcome → Bool → List Text
unfolding pulled_lines failure_lines community_lines failed_handles sort_texts insert_text text_leb
notice_lines outcome managed =
    pulled_lines outcome.own
    ++ (failure_lines outcome.own managed
        ++ community_lines (sort_texts (failed_handles outcome.community)))

-- `lines.length > 0 ? lines.join('\n') : null`
unfoldable pub notice_text : List Text → Option Text
notice_text [] = none
notice_text (line ∷ lines) = some (join (10 ∷ []) (line ∷ lines))
