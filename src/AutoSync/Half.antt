-- ===== src/AutoSync/Half.antt =====
-- The own half of a cycle (autoSync.ts), apart from the call that it logs.
use caveat.Common.{
  ℕ, ◌≡◌, refl, Bool, true, false, Option, some, List, [], ◌∷◌, ◌++◌, Text, if◌then◌else◌,
  Bool-cases, inl, inr,
}
use caveat.AutoSync.{CommunityResult, OwnOutcome}
use caveat.AutoSync.State.{
  OwnSyncState, OwnAttempt, Options, Env, own_called, World, backed_off, should_attempt,
  mark_degraded, previous_own,
}
use caveat.AutoSync.Cycle.{attempt, own_step, finish_cycle, cycle_body}

abbrev pub called : Bool → World → World
called true w = record w { effects = w.effects ++ own_called ∷ [] }
called false w = w

module _ (sha256 : Text → Text) (stringify : List (Option Text) → Text) where
  -- The outcome and the state of the own half.
  unfoldable pub half : OwnAttempt → OwnSyncState → ℕ → OwnOutcome × OwnSyncState
  half answer own now = mark_degraded (
      if should_attempt own now
      then attempt sha256 stringify answer own (some now)
      else (backed_off, own))

  own_step-half :
      (answer : OwnAttempt) (own : OwnSyncState) (now : ℕ) (w : World)
      → own_step sha256 stringify answer own now w
        ≡ (called (should_attempt own now) w, half answer own now)
  unfolding own_step half
  own_step-half answer own now w = elim (Bool-cases (should_attempt own now)) [
    | inl tried ↦ rw tried refl
    | inr waits ↦ rw waits refl
  ]

  pub cycle_body-half :
      (opts : Options) (env : Env) (w : World) {community : List CommunityResult}
      → env.community ≡ some community
      → (let own = previous_own w.state in
          cycle_body sha256 stringify opts env w
          ≡ finish_cycle sha256 stringify opts env community
              (half env.own own env.now)
              (called (should_attempt own env.now) w))
  unfolding cycle_body
  cycle_body-half opts env w answered =
      rw (answered, own_step-half env.own (previous_own w.state) env.now w) refl
