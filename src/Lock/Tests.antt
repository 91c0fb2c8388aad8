-- ===== src/Lock/Tests.antt =====
-- Runs of the lock file.
use caveat.Common.{
  if◌then◌else◌, ℕ, zero, suc, ◌≡◌, ◌≢◌, ◌↔◌, refl, true, false, none, some, arith, [], ◌∷◌,
}
use caveat.Lock.{Probe, running, esrch, create, held, idle, step, acquire_file_lock}
use caveat.Lock.Alone.{IsFree, acquire-IsFree}
use caveat.Lock.Shared.{
  System, Moves, here, next, start, call, quiet, play, update, advance, Moves-exclusive,
  stale-both_held,
}

abbrev all_running : ℕ → Probe
all_running pid = running

all_running_alive : (pid : ℕ) → all_running pid ≢ esrch
all_running_alive pid = cc

abbrev dead_9 : ℕ → Probe
dead_9 pid = elim pid [ zero ↦ running | suc n ↦ esrch ]

acquire_tests :
    (acquire_file_lock all_running 7 none ≡ (some (some 7), true))
    × (acquire_file_lock all_running 7 (some (some 3)) ≡ (some (some 3), false))
    × (acquire_file_lock dead_9 7 (some (some 3)) ≡ (some (some 7), true))
    × (acquire_file_lock dead_9 7 (some none) ≡ (some none, false))
unfolding acquire_file_lock
acquire_tests = (refl, refl, refl, refl)

acquire-IsFree_example :
    (((acquire_file_lock dead_9 7 (some (some 3))).1 ≡ true) ↔ IsFree dead_9 (some (some 3)))
    × ((acquire_file_lock dead_9 7 (some (some 3))).0
        ≡ (if (acquire_file_lock dead_9 7 (some (some 3))).1 then some (some 7) else some (some 3)))
acquire-IsFree_example = acquire-IsFree dead_9 7 (some (some 3))

-- Process 7 starts and takes the lock; process 8 starts and waits.
abbrev contended : System
contended = advance all_running 8 (record {
  file = some (some 7);
  phase = update 8 create (update 7 held (update 7 create (λ p. idle)));
})

contended-Moves : Moves all_running quiet contended
unfolding advance step
contended-Moves =
    next (next (next (next here (start _ 7 refl)) (call _ 7)) (start _ 8 refl)) (call _ 8)

contended-held : contended.phase 7 ≡ held
unfolding advance step
contended-held = refl

Moves-exclusive_example : ◌≡◌ {A = ℕ} 7 7
Moves-exclusive_example =
    Moves-exclusive all_running all_running_alive 7 7 contended-Moves contended-held contended-held

stale-both_held_example :
    (let s =
        play dead_9
          (1 ∷ 2 ∷ 1 ∷ 2 ∷ 1 ∷ 2 ∷ 1 ∷ 1 ∷ 2 ∷ 2 ∷ [])
          (record { file = some (some 5); phase = λ _. create }) in
      (s.phase 1 ≡ held) × (s.phase 2 ≡ held))
stale-both_held_example = stale-both_held dead_9 1 2 4 (omega arith) refl
