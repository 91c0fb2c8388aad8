-- ===== src/Pending/Sweep.antt =====
-- The sweep of old session directories: `cleanupStalePendingDirs` and `maybeSweepPendingDirs` of
-- packages/core/src/pendingReminders.ts. What the disk answers stands in the directories.
use caveat.Common.{
  ℕ, suc, ◌+◌, ◌*◌, Bool, true, false, Option, none, some, List, [], ◌∷◌, Text, if◌then◌else◌, leb,
  ltb,
}
use caveat.Pending.{claim_ttl_ms, ClaimFile, created_at, Outcome, throws, gives}

abbrev pub day_ms : ℕ
day_ms = 86400000

-- The claims of a session: there is no such directory, it cannot be read, or it has these files; one
-- whose time cannot be read is `none`.
pub data Claims : Type 0 where
  no_claims unreadable_claims : Claims
  listed : List (Option ClaimFile) → Claims

-- An entry below `pending`.
pub record Directory : Type 0 where
  pub path : Text
  -- Whether it is a directory, and its time; `none` when `statSync` throws.
  pub stat : Option (Bool × ℕ)
  pub claims : Claims
  -- The times of what it holds; `none` when the directory, or the time of a file, cannot be read.
  pub files : Option (List (Option ℕ))
  pub is_removable : Bool

-- The loop of `hasNonExpiredPendingClaim`.
abbrev pub some_non_expired : ℕ → List (Option ClaimFile) → Bool
some_non_expired now [] = false
some_non_expired now (none ∷ fs) = true
some_non_expired now (some f ∷ fs) =
    let later = some_non_expired now fs in
    if leb now (claim_ttl_ms + created_at f) then true else later

-- `hasNonExpiredPendingClaim`
unfoldable pub has_non_expired_pending_claim : Claims → ℕ → Bool
has_non_expired_pending_claim no_claims now = false
has_non_expired_pending_claim unreadable_claims now = true
has_non_expired_pending_claim (listed fs) now = some_non_expired now fs

-- The newest time; `none` for a scan that failed.
abbrev pub newest_of : ℕ → List (Option ℕ) → Option ℕ
newest_of newest [] = some newest
newest_of newest (none ∷ fs) = none
newest_of newest (some t ∷ fs) =
    let later = newest_of t fs in
    let same = newest_of newest fs in if ltb newest t then later else same

abbrev pub scan : ℕ → Option (List (Option ℕ)) → Option ℕ
scan newest none = none
scan newest (some fs) = newest_of newest fs

pub data Verdict : Type 0 where
  passed_over kept removed : Verdict

-- The cutoff is `stale_days` before now.
abbrev pub by_age : (now stale_days : ℕ) (is_removable : Bool) → Option ℕ → Verdict
by_age now stale_days is_removable none = kept
by_age now stale_days is_removable (some newest) =
    if leb now (newest + stale_days * day_ms) then kept else if is_removable then removed else kept

abbrev pub on_stat : (now stale_days : ℕ) → Directory → Option (Bool × ℕ) → Verdict
on_stat now stale_days d none = passed_over
on_stat now stale_days d (some (false, mtime)) = passed_over
on_stat now stale_days d (some (true, mtime)) =
    if has_non_expired_pending_claim d.claims now
    then kept
    else by_age now stale_days d.is_removable (scan mtime d.files)

-- The body of the loop over the entries.
unfoldable pub sweep_dir : (now stale_days : ℕ) → Directory → Verdict
unfolding has_non_expired_pending_claim
sweep_dir now stale_days d = on_stat now stale_days d d.stat

pub record Swept : Type 0 where
  pub removed_paths : List Text
  pub kept_count : ℕ

abbrev nothing : Swept
nothing = record { removed_paths = []; kept_count = 0 }

-- What the entries are afterwards, with the result.
abbrev pub count : Directory → Verdict → List Directory × Swept → List Directory × Swept
count d passed_over (ds, s) = (d ∷ ds, s)
count d kept (ds, s) = (d ∷ ds, record s { kept_count = suc s.kept_count })
count d removed (ds, s) = (ds, record s { removed_paths = d.path ∷ s.removed_paths })

unfoldable pub sweep_all : (now stale_days : ℕ) → List Directory → List Directory × Swept
unfolding sweep_dir
sweep_all now stale_days [] = ([], nothing)
sweep_all now stale_days (d ∷ ds) =
    count d (sweep_dir now stale_days d) (sweep_all now stale_days ds)

-- A number of days that a caller gives.
pub data Days : Type 0 where
  negative : Days
  days : ℕ → Days

-- The directory `pending`.
pub data Root : Type 0 where
  absent unreadable : Root
  holds : List Directory → Root

abbrev pub held : List Directory × Swept → Root × Outcome Swept
held (ds, s) = (holds ds, gives s)

-- `cleanupStalePendingDirs`; the sweep is one step under the queue lock.
unfoldable pub cleanup_stale_pending_dirs : (now : ℕ) → Days → Root → Root × Outcome Swept
unfolding sweep_all
cleanup_stale_pending_dirs now negative root = (root, throws)
cleanup_stale_pending_dirs now (days n) absent = (absent, gives nothing)
cleanup_stale_pending_dirs now (days n) unreadable = (unreadable, gives nothing)
cleanup_stale_pending_dirs now (days n) (holds ds) = held (sweep_all now n ds)

-- `MaybeSweepResult`
pub data MaybeSwept : Type 0 where
  env_off no_pending_dir debounced : MaybeSwept
  swept : Swept → MaybeSwept

-- The directory, and the time of the marker in it.
pub record Pending : Type 0 where
  pub root : Root
  pub marker : Option ℕ

abbrev pub is_fresh : (now debounce : ℕ) → Option ℕ → Bool
is_fresh now debounce none = false
is_fresh now debounce (some mtime) = ltb now (mtime + debounce * day_ms)

-- The marker is written behind a sweep that returned, when that succeeds.
abbrev pub mark :
    (now : ℕ) (writes : Bool) → Option ℕ → Root × Outcome Swept → Pending × Outcome MaybeSwept
mark now writes marker (root, throws) = (record { root = root; marker = marker }, throws)
mark now writes marker (root, gives s) =
    (record { root = root; marker = if writes then some now else marker }, gives (swept s))

abbrev pub is_absent : Root → Bool
is_absent absent = true
is_absent unreadable = false
is_absent (holds ds) = false

-- `maybeSweepPendingDirs`
unfoldable pub maybe_sweep_pending_dirs :
    (off : Bool) (now : ℕ) (stale debounce : Days) (writes : Bool)
    → Pending
    → Pending × Outcome MaybeSwept
unfolding cleanup_stale_pending_dirs
maybe_sweep_pending_dirs true now stale debounce writes p = (p, gives env_off)
maybe_sweep_pending_dirs false now stale negative writes p = (p, throws)
maybe_sweep_pending_dirs false now stale (days n) writes p =
    if is_absent p.root
    then (p, gives no_pending_dir)
    else if is_fresh now n p.marker
    then (p, gives debounced)
    else mark now writes p.marker (cleanup_stale_pending_dirs now stale p.root)
