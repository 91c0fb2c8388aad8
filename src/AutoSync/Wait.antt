-- ===== src/AutoSync/Wait.antt =====
-- `runAutoSync` of packages/core/src/autoSync.ts: one cycle, or for a write the cycle again and again
-- while a lock is busy, for half a minute at most.
use caveat.Common.{
  ℕ, zero, suc, ◌+◌, ◌-◌, ◌*◌, ◌≤◌, ◌<◌, ◌≡◌, ◌⊎◌, inl, inr, refl, Bool, true, false, not, ◌&&◌,
  ◌||◌, Option, none, some, Text, codes, if◌then◌else◌, leb, ltb, nat_beq, list_eq, nat_eq, ◌==◌,
  arith, Bool-cases, list_beq_iff, ap, ◌∙◌,
}
use caveat.AutoSync.{auto_sync_write_lock_wait_ms}
use caveat.AutoSync.State.{RunResult, skipped, ran, cycle_failed, sync_busy, index_busy}

busy_code : Option Text → Bool
busy_code none = false
busy_code (some code) = code == codes "SYNC_BUSY"

-- `busy`
unfoldable pub is_busy : RunResult → Bool
unfolding busy_code
is_busy (skipped sync_busy) = true
is_busy (skipped index_busy) = true
is_busy (skipped reason) = false
is_busy (ran outcome notified) = busy_code outcome.own.code
is_busy cycle_failed = false

-- The result as it is, or with the skip reason `write_lock_timeout`, or a throw.
pub data Waited : Type 0 where
  finished timed_out : RunResult → Waited
  write_requested_at_invalid : Waited

-- A JavaScript number: an integer is its sign (true for negative) and its size.
pub data Number : Type 0 where
  int : Bool → ℕ → Number
  no_integer : Number

-- `Number.isSafeInteger(t) && t >= 0`
unfoldable pub is_write_time : Number → Bool
is_write_time (int negative n) = leb n 9007199254740991 && (not negative || nat_beq n 0)
is_write_time no_integer = false

unfoldable pub pause : ℕ → ℕ
pause remaining = if ltb 100 remaining then 100 else remaining

-- A result for which a write is tried again.
abbrev pub IsBusy : RunResult → Type 0
IsBusy (skipped sync_busy) = Unit
IsBusy (skipped index_busy) = Unit
IsBusy (skipped reason) = ⊥
IsBusy (ran outcome notified) = outcome.own.code ≡ some (codes "SYNC_BUSY")
IsBusy cycle_failed = ⊥

busy_code_sound : (code : Option Text) → busy_code code ≡ true → code ≡ some (codes "SYNC_BUSY")
unfolding busy_code
busy_code_sound none e = cc
busy_code_sound (some code) e = ap some ((list_beq_iff code (codes "SYNC_BUSY")).0 e)

busy_code_complete :
    (code : Option Text) → busy_code code ≡ false → ¬ (code ≡ some (codes "SYNC_BUSY"))
unfolding busy_code
busy_code_complete none e = λ h. cc
busy_code_complete (some code) e = λ h. ground (arith, list_beq_iff code (codes "SYNC_BUSY"))

is_busy-IsBusy : (r : RunResult) → is_busy r ≡ true → IsBusy r
unfolding is_busy
is_busy-IsBusy (skipped sync_busy) e = tt
is_busy-IsBusy (skipped index_busy) e = tt
is_busy-IsBusy (skipped reason) e = cc
is_busy-IsBusy (ran outcome notified) e = busy_code_sound outcome.own.code e
is_busy-IsBusy cycle_failed e = cc

is_busy-refutes : (r : RunResult) → is_busy r ≡ false → ¬ IsBusy r
unfolding is_busy
is_busy-refutes (skipped sync_busy) e = cc
is_busy-refutes (skipped index_busy) e = cc
is_busy-refutes (skipped reason) e = λ h. h
is_busy-refutes (ran outcome notified) e = busy_code_complete outcome.own.code e
is_busy-refutes cycle_failed e = λ h. h

module _ (cycle : ℕ → RunResult) (took : ℕ → ℕ) where
  -- The loop, with fuel: round `k` starts at the time `clock`; its cycle returns `cycle k` and takes
  -- `took k` milliseconds. The result stands beside the time of its return.
  unfoldable pub wait_loop : ℕ → ℕ → ℕ → ℕ → Option (Waited × ℕ)
  unfolding is_busy pause
  wait_loop zero k clock deadline = none
  wait_loop (suc fuel) k clock deadline =
      let now = clock + took k in
      let again = wait_loop fuel (suc k) (now + pause (deadline - now)) deadline in
      if is_busy (cycle k)
      then (if leb deadline now then some (timed_out (cycle k), now) else again)
      else some (finished (cycle k), now)

  -- `runAutoSync`, started at `start`.
  unfoldable pub run_auto_sync : Option Number → ℕ → Option (Waited × ℕ)
  unfolding wait_loop is_write_time
  run_auto_sync none start = some (finished (cycle 0), start + took 0)
  run_auto_sync (some requested) start =
      let waited = wait_loop 301 0 start (start + auto_sync_write_lock_wait_ms) in
      if is_write_time requested then waited else some (write_requested_at_invalid, start)

  module _ (start : ℕ) where
    -- The next cycle starts a tenth of a second after the last, or at the end of the half minute.
    abbrev pub next_start : ℕ → ℕ
    next_start now = if leb (now + 100) (start + 30000) then now + 100 else start + 30000

    -- When cycle `j` ends, if the ones before it are each tried again.
    abbrev pub ended_at : ℕ → ℕ
    ended_at zero = start + took 0
    ended_at (suc j) = next_start (ended_at j) + took (suc j)

    -- Each cycle before `j` is busy, and ends within the half minute.
    abbrev pub AllAgain : ℕ → Type 0
    AllAgain zero = Unit
    AllAgain (suc j) = AllAgain j × IsBusy (cycle j) × (ended_at j < start + 30000)

    -- What the wait gives after cycle `j`.
    abbrev pub Gives : ℕ → Waited → Type 0
    Gives j (finished r) = (r ≡ cycle j) × ¬ IsBusy (cycle j)
    Gives j (timed_out r) = (r ≡ cycle j) × IsBusy (cycle j) × (start + 30000 ≤ ended_at j)
    Gives j write_requested_at_invalid = ⊥

    abbrev pub EndsWait : Waited × ℕ → Type 0
    EndsWait (waited, now) = (j : ℕ) × AllAgain j × Gives j waited × (now ≡ ended_at j)

    -- What `run_auto_sync` gives, by the write time.
    abbrev pub Ends : Option Number → Waited × ℕ → Type 0
    Ends none r = r ≡ (finished (cycle 0), start + took 0)
    Ends (some no_integer) r = r ≡ (write_requested_at_invalid, start)
    Ends (some (int true (suc n))) r = r ≡ (write_requested_at_invalid, start)
    Ends (some (int negative n)) r =
        ((n < 9007199254740992) × EndsWait r)
        ⊎ ((9007199254740992 ≤ n) × (r ≡ (write_requested_at_invalid, start)))

    pause-next_start :
        (now : ℕ) → now < start + 30000 → now + pause (start + 30000 - now) ≡ next_start now
    unfolding pause
    pause-next_start now early = ground arith

    -- A round is the last, or it is tried again.
    wait_loop-round :
        (fuel k clock : ℕ)
        → AllAgain k
        → clock + took k ≡ ended_at k
        → ((r : Waited × ℕ) × (wait_loop (suc fuel) k clock (start + 30000) ≡ some r) × EndsWait r)
          ⊎ (AllAgain (suc k)
              × (ended_at k < start + 30000)
              × (wait_loop (suc fuel) k clock (start + 30000)
                  ≡ wait_loop fuel (suc k) (next_start (ended_at k)) (start + 30000)))
    unfolding wait_loop
    wait_loop-round fuel k clock before at = elim (Bool-cases (is_busy (cycle k))) [
      | inr free ↦ inl (
        (finished (cycle k), clock + took k),
        rw free refl,
        (k, before, (refl, is_busy-refutes (cycle k) free), at),
      )
      | inl busy ↦ elim (Bool-cases (leb (start + 30000) (clock + took k))) [
        | inl late ↦ inl (
          (timed_out (cycle k), clock + took k),
          rw (busy, late) refl,
          (k, before, (refl, is_busy-IsBusy (cycle k) busy, ground arith), at),
        )
        | inr early ↦
            let soon : ended_at k < start + 30000 = ground arith in
            inr (
              (before, is_busy-IsBusy (cycle k) busy, soon),
              soon,
              rw (busy, early, at, pause-next_start (ended_at k) soon) refl,
            )
      ]
    ]

    wait_loop-ends :
        (fuel k clock : ℕ)
        → start + 30000 ≤ clock + 100 * fuel
        → AllAgain k
        → clock + took k ≡ ended_at k
        → (r : Waited × ℕ) × (wait_loop (suc fuel) k clock (start + 30000) ≡ some r) × EndsWait r
    wait_loop-ends zero k clock h before at = elim (wait_loop-round 0 k clock before at) [
      | inl ends ↦ ends
      | inr (again, soon, same) ↦ absurd (omega arith)
    ]
    wait_loop-ends (suc fuel) k clock h before at =
        elim (wait_loop-round (suc fuel) k clock before at) [
          | inl ends ↦ ends
          | inr (again, soon, same) ↦
              let (r, ends, good) =
                wait_loop-ends fuel (suc k) (next_start (ended_at k)) (ground arith) again refl in
              (r, same ∙ ends, good)
        ]

    waits :
        (requested : Number)
        → is_write_time requested ≡ true
        → (r : Waited × ℕ) × (run_auto_sync (some requested) start ≡ some r) × EndsWait r
    unfolding run_auto_sync
    waits requested valid = rw valid (wait_loop-ends 300 0 start (omega arith) tt refl)

    throws :
        (requested : Number)
        → is_write_time requested ≡ false
        → run_auto_sync (some requested) start ≡ some (write_requested_at_invalid, start)
    unfolding run_auto_sync
    throws requested invalid = rw invalid refl

    size_waits :
        (negative : Bool) (n : ℕ)
        → not negative || nat_beq n 0 ≡ true
        → (r : Waited × ℕ) × (run_auto_sync (some (int negative n)) start ≡ some r)
          × (((n < 9007199254740992) × EndsWait r)
              ⊎ ((9007199254740992 ≤ n) × (r ≡ (write_requested_at_invalid, start))))
    unfolding is_write_time
    size_waits negative n sign = elim (Bool-cases (leb n 9007199254740991)) [
      | inl small ↦
          let (r, ends, good) = waits (int negative n) (rw (small, sign) refl) in
          (r, ends, inl (ground arith, good))
      | inr large ↦ (
        (write_requested_at_invalid, start),
        throws (int negative n) (rw large refl),
        inr (ground arith, refl),
      )
    ]

    -- Without a write time there is one cycle, and its result is returned. A write time that is no
    -- integer from 0 to 2 ^ 53 - 1 is refused with a throw. With any other the cycle is tried again
    -- as long as it is busy and ends within half a minute of the start, each time a tenth of a second
    -- later or at the end of the half minute; the wait ends, however long the cycles take, with the
    -- result of the first that is not busy, or that of the first that ends too late, which is busy.
    pub run_auto_sync-Ends :
        (requested : Option Number)
        → (r : Waited × ℕ) × (run_auto_sync requested start ≡ some r) × Ends requested r
    unfolding run_auto_sync is_write_time
    run_auto_sync-Ends none = (_, refl, refl)
    run_auto_sync-Ends (some no_integer) = (_, throws no_integer refl, refl)
    run_auto_sync-Ends (some (int true (suc n))) =
        (_, throws (int true (suc n)) (ground arith), refl)
    run_auto_sync-Ends (some (int true zero)) = size_waits true 0 refl
    run_auto_sync-Ends (some (int false n)) = size_waits false n refl
