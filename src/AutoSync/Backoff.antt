-- ===== src/AutoSync/Backoff.antt =====
-- How the attempts of the own sync count, and what the cycle stores of them (autoSync.ts).
use caveat.Common.{
  ℕ, suc, ◌≡◌, refl, Option, some, List, [], ◌∷◌, Text, if◌then◌else◌, list_eq, nat_eq, ◌==◌, arith,
  list_beq_iff,
}
use caveat.AutoSync.{SyncFailure, Disposition, success, fail, classify_own_sync_outcome}
use caveat.AutoSync.State.{
  Stamp, OwnSyncState, fresh_own, OwnAttempt, synced, failed, same_signature,
}
use caveat.AutoSync.Cycle.{own_sync_failure_signature, after_failure, thrown, attempt}

-- How an attempt of the own sync counts: it clears the counter, leaves it, or adds a failure.
pub data Verdict : Type 0 where
  clears passes : Verdict
  fails : Text → Verdict

judge : Disposition → Text → Verdict
judge fail signature = fails signature
judge _ signature = passes

-- The length of the run of failures with the signature at the head, latest first.
pub lead : Text → List Verdict → ℕ
lead s [] = 0
lead s (passes ∷ vs) = lead s vs
lead s (clears ∷ vs) = 0
lead s (fails t ∷ vs) = if t == s then suc (lead s vs) else 0

-- The length of the latest run of failures with one signature.
pub streak : List Verdict → ℕ
streak [] = 0
streak (passes ∷ vs) = streak vs
streak (clears ∷ vs) = 0
streak (fails s ∷ vs) = suc (lead s vs)

module _ (sha256 : Text → Text) (stringify : List (Option Text) → Text) where
  pub verdict : OwnAttempt → Verdict
  unfolding judge
  verdict (synced pulled changed) = clears
  verdict (failed failure probe) =
      judge (classify_own_sync_outcome failure probe)
        (own_sync_failure_signature sha256 stringify failure)

  -- What the stored pair of signature and count says of the verdicts.
  pub record Counts (own : OwnSyncState) (vs : List Verdict) : Type 0 where
    pub count : own.consecutive_failure_count ≡ streak vs
    pub same :
        (s : Text)
        → lead s vs ≡ (
            if same_signature own.consecutive_failure_signature s
            then own.consecutive_failure_count
            else 0)

  pub fresh-Counts : Counts fresh_own []
  unfolding streak lead same_signature
  fresh-Counts = record { count = refl; same = λ s. refl }

  thrown-Counts :
      (failure : SyncFailure) (d : Disposition) (own : OwnSyncState) (now : Stamp)
      (vs : List Verdict)
      → Counts own vs
      → Counts
          (thrown sha256 stringify failure d own now).1
          (judge d (own_sync_failure_signature sha256 stringify failure) ∷ vs)
  unfolding thrown after_failure judge streak lead same_signature
  thrown-Counts failure fail own now vs c =
      let s = own_sync_failure_signature sha256 stringify failure in
      record {
        count = ground (arith, c.same s);
        same = λ t. ground (arith, c.same t, c.same s, list_beq_iff s t);
      }
  thrown-Counts failure success own now vs c = record { count = c.count; same = c.same }
  thrown-Counts failure _ own now vs c = record { count = c.count; same = c.same }

  pub attempt-Counts :
      (answer : OwnAttempt) (own : OwnSyncState) (now : Stamp) (vs : List Verdict)
      → Counts own vs
      → Counts (attempt sha256 stringify answer own now).1 (verdict answer ∷ vs)
  unfolding attempt verdict streak lead same_signature
  attempt-Counts (synced pulled changed) own now vs c = record { count = refl; same = λ t. refl }
  attempt-Counts (failed failure probe) own now vs c =
      thrown-Counts failure (classify_own_sync_outcome failure probe)
        (record own { last_attempt_at = some now }) now vs
        (record { count = c.count; same = c.same })
