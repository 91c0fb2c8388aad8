-- ===== src/Lock.antt =====
-- The lock file of packages/core/src/autoReindex.ts (`tryCreateLock`, `acquireFileLock`,
-- `releaseFileLock`), which the reindex worker and the autosync worker take. A process that
-- acquires the lock makes one system call at a time, and other processes may run between two of
-- them: `step` is one call, and `acquire_file_lock` is the whole function with nobody between.
pub mod Alone
pub mod Shared
mod Tests
use caveat.Common.{ℕ, zero, suc, Bool, true, false, Option, none, some, nat_beq, if◌then◌else◌}

-- The lock file: absent, or holding a text with what `Number.parseInt` makes of it. A text that
-- is no integer, or a negative one, is `none`; so is a file that cannot be read.
abbrev pub LockFile : Type 0
LockFile = Option (Option ℕ)

-- What `process.kill(pid, 0)` says: the process runs, there is none (ESRCH), or another error.
pub data Probe : Type 0 where
  running esrch denied : Probe

-- Where a process stands in `acquireFileLock`.
pub data Phase : Type 0 where
  create read : Phase
  probe : ℕ → Phase
  unlink recreate held refused idle : Phase

-- `tryCreateLock`: an exclusive create by the process `me`. It fails on an existing file.
unfoldable pub try_create_lock : ℕ → LockFile → LockFile × Bool
try_create_lock me none = (some (some me), true)
try_create_lock me (some text) = (some text, false)

after_read : LockFile → Phase
after_read none = recreate
after_read (some none) = refused
after_read (some (some zero)) = refused
after_read (some (some (suc n))) = probe (suc n)

after_probe : Probe → Phase
after_probe running = refused
after_probe esrch = unlink
after_probe denied = refused

created : Phase → LockFile × Bool → LockFile × Phase
created otherwise (file, true) = (file, held)
created otherwise (file, false) = (file, otherwise)

-- One system call of the process `me`.
unfoldable pub step : (ℕ → Probe) → ℕ → Phase → LockFile → LockFile × Phase
unfolding try_create_lock after_read after_probe created
step kill me create file = created read (try_create_lock me file)
step kill me read file = (file, after_read file)
step kill me (probe pid) file = (file, after_probe (kill pid))
step kill me unlink file = (none, recreate)
step kill me recreate file = created refused (try_create_lock me file)
step kill me held file = (file, held)
step kill me refused file = (file, refused)
step kill me idle file = (file, idle)

reclaim : (ℕ → Probe) → ℕ → ℕ → LockFile → LockFile × Bool
unfolding try_create_lock
reclaim kill me pid file = elim (kill pid) [
  | running ↦ (file, false)
  | esrch ↦ try_create_lock me none
  | denied ↦ (file, false)
]

contend : (ℕ → Probe) → ℕ → LockFile → LockFile × Bool
unfolding try_create_lock reclaim
contend kill me none = try_create_lock me none
contend kill me (some none) = (some none, false)
contend kill me (some (some zero)) = (some (some zero), false)
contend kill me (some (some (suc pid))) = reclaim kill me (suc pid) (some (some (suc pid)))

-- `acquireFileLock`, run with no other process in between. The Boolean is `lock !== null`.
unfoldable pub acquire_file_lock : (ℕ → Probe) → ℕ → LockFile → LockFile × Bool
unfolding try_create_lock contend
acquire_file_lock kill me file =
    let (file', taken) = try_create_lock me file in
    if taken then (file', true) else contend kill me file'

-- `releaseFileLock`: an absent file is no error.
unfoldable pub release_file_lock : LockFile → LockFile
release_file_lock file = none
