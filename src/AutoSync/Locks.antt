-- ===== src/AutoSync/Locks.antt =====
-- The two lock files under `runAutoSyncCycle`, on every branch.
use caveat.Common.{
  refl, inl, inr, Option-cases, ℕ, some, ◌≡◌, Bool, not, ◌&&◌, Option, none, List, Text,
  if◌then◌else◌, list_eq, nat_eq, arith,
}
use caveat.Lock.{LockFile, acquire_file_lock, release_file_lock}
use caveat.Lock.Alone.{acquire-IsFree}
use caveat.AutoSync.{CommunityResult, OwnOutcome, AutoSyncOutcome}
use caveat.AutoSync.State.{OwnSyncState, Options, Env, World, release_index, release_sync}
use caveat.AutoSync.Cycle.{
  locked, with_index, early_skip, save, conclude, finish_cycle, cycle_body, run_auto_sync_cycle,
}

-- The two worlds have the same lock files.
abbrev SameLocks : World → World → Type 0
SameLocks w v = (w.sync_lock ≡ v.sync_lock) × (w.index_lock ≡ v.index_lock)

-- The lock file behind a cycle of the process `me`.
abbrev pub left_behind : (me : ℕ) (taken released : Bool) → LockFile → LockFile
left_behind me taken released file =
    if taken then (if released then none else some (some me)) else file

module _ (sha256 : Text → Text) (stringify : List (Option Text) → Text) where
  save-locks :
      (opts : Options) (env : Env) (outcome : AutoSyncOutcome) (own : OwnSyncState)
      (signature : Text) (notified : Bool) (w : World)
      → SameLocks (save sha256 stringify opts env outcome own signature notified w).0 w
  unfolding save
  save-locks opts env outcome own signature notified w = ground arith

  conclude-locks :
      (opts : Options) (env : Env) (outcome : AutoSyncOutcome) (own : OwnSyncState) (w : World)
      → SameLocks (conclude sha256 stringify opts env outcome own w).0 w
  unfolding conclude
  conclude-locks opts env outcome own w = ground arith

  finish_cycle-locks :
      (opts : Options) (env : Env) (community : List CommunityResult)
      (own : OwnOutcome × OwnSyncState) (w : World)
      → SameLocks (finish_cycle sha256 stringify opts env community own w).0 w
  unfolding finish_cycle
  finish_cycle-locks opts env community (own, state) w = ground arith

  cycle_body-locks :
      (opts : Options) (env : Env) (w : World)
      → SameLocks (cycle_body sha256 stringify opts env w).0 w
  unfolding cycle_body
  cycle_body-locks opts env w = ground arith

  locked-locks :
      (opts : Options) (env : Env) (w : World) → SameLocks (locked sha256 stringify opts env w).0 w
  unfolding locked
  locked-locks opts env w = elim (Option-cases (early_skip sha256 stringify opts env w)) [
    | inl goes_on ↦ rw (goes_on, locked) (cycle_body-locks opts env w)
    | inr (reason, skips) ↦ rw (skips, locked) (refl, refl)
  ]

  with_index-locks :
      (opts : Options) (env : Env) (w : World)
      → (let w' = (with_index sha256 stringify opts env w).0 in
          let taken = (acquire_file_lock env.kill env.me w.index_lock).1 in
          (w'.sync_lock ≡ w.sync_lock)
          × (w'.index_lock ≡ left_behind env.me taken env.index_released w.index_lock))
  unfolding with_index release_index release_file_lock
  with_index-locks opts env w =
      let same =
        locked-locks opts env
          (record w { index_lock = (acquire_file_lock env.kill env.me w.index_lock).0 }) in
      ground (arith, same, (acquire-IsFree env.kill env.me w.index_lock).1)

  -- A lock that a cycle takes is gone afterwards, or, when its file cannot be unlinked, is left with
  -- the mark of the cycle's process; a lock that it does not take is as it was. So on every branch.
  pub run_auto_sync_cycle-locks :
      (opts : Options) (env : Env) (w : World)
      → (let w' = (run_auto_sync_cycle sha256 stringify opts env w).0 in
          let takes_sync = not env.disabled && (acquire_file_lock env.kill env.me w.sync_lock).1 in
          let takes_index = takes_sync && (acquire_file_lock env.kill env.me w.index_lock).1 in
          (w'.sync_lock ≡ left_behind env.me takes_sync env.sync_released w.sync_lock)
          × (w'.index_lock ≡ left_behind env.me takes_index env.index_released w.index_lock))
  unfolding run_auto_sync_cycle release_sync release_file_lock
  run_auto_sync_cycle-locks opts env w =
      let same =
        with_index-locks opts env
          (record w { sync_lock = (acquire_file_lock env.kill env.me w.sync_lock).0 }) in
      ground (
        arith,
        same,
        (acquire-IsFree env.kill env.me w.sync_lock).1,
        (acquire-IsFree env.kill env.me w.index_lock).1,
      )
