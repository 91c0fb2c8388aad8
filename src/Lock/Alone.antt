-- ===== src/Lock/Alone.antt =====
-- `acquireFileLock` when no other process runs between its calls.
use caveat.Common.{ℕ, zero, suc, ◌≡◌, true, none, some, arith, ◌↔◌, if◌then◌else◌}
use caveat.Lock.{LockFile, Probe, esrch, acquire_file_lock}

-- The lock is free for the taking: no file, or the file of a process that is gone.
abbrev pub IsFree : (ℕ → Probe) → LockFile → Type 0
IsFree kill none = Unit
IsFree kill (some none) = ⊥
IsFree kill (some (some zero)) = ⊥
IsFree kill (some (some (suc pid))) = kill (suc pid) ≡ esrch

-- The lock is acquired exactly when it is free, and then the file names the new owner; otherwise
-- the file is left as it was.
pub acquire-IsFree :
    (kill : ℕ → Probe) (me : ℕ) (file : LockFile)
    → (((acquire_file_lock kill me file).1 ≡ true) ↔ IsFree kill file)
      × ((acquire_file_lock kill me file).0
          ≡ (if (acquire_file_lock kill me file).1 then some (some me) else file))
unfolding acquire_file_lock
acquire-IsFree kill me none = ground arith
acquire-IsFree kill me (some none) = ground arith
acquire-IsFree kill me (some (some zero)) = ground arith
acquire-IsFree kill me (some (some (suc pid))) = ground arith
