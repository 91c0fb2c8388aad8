-- ===== src/Lock/Shared.antt =====
-- `acquireFileLock` and `releaseFileLock` called by many processes, whose system calls interleave.
use caveat.Common.{
  ℕ, zero, suc, ◌≡◌, ◌≢◌, inl, inr, refl, true, false, Option, none, some, arith, List, [], ◌∷◌,
  nat_beq, nat_beq_iff, if◌then◌else◌, Bool-cases,
}
use caveat.Lock.{
  LockFile, Probe, esrch, Phase, create, read, probe, unlink, held, idle, step, release_file_lock,
}

pub record System : Type 0 where
  pub file : LockFile
  pub phase : ℕ → Phase

abbrev pub update : ℕ → Phase → (ℕ → Phase) → ℕ → Phase
update p v f q = if nat_beq p q then v else f q

-- The process `p` makes its next system call.
unfoldable pub advance : (ℕ → Probe) → ℕ → System → System
advance kill p s =
    let (file', phase') = step kill p (s.phase p) s.file in
    record { file = file'; phase = update p phase' s.phase }

-- Any process may start an attempt, go on with it, or release the lock that it holds.
pub data Move (kill : ℕ → Probe) : System → System → Type 0 where
  start :
      (s : System) (p : ℕ)
      → s.phase p ≡ idle
      → Move kill s (record s { phase = update p create s.phase })
  call : (s : System) (p : ℕ) → Move kill s (advance kill p s)
  release :
      (s : System) (p : ℕ)
      → s.phase p ≡ held
      → Move kill s (record { file = release_file_lock s.file; phase = update p idle s.phase })

pub data Moves (kill : ℕ → Probe) (s : System) : System → Type 0 where
  here : Moves kill s s
  next : {t u : System} → Moves kill s t → Move kill t u → Moves kill s u

-- Whoever holds the lock is named by the file, and nobody is about to remove a file.
pub record IsSafe (s : System) : Type 0 where
  pub named : (p : ℕ) → s.phase p ≡ held → s.file ≡ some (some p)
  pub kept : (p : ℕ) → s.phase p ≢ unlink

abbrev pub quiet : System
quiet = record { file = none; phase = λ p. idle }

quiet-IsSafe : IsSafe quiet
quiet-IsSafe = record { named = λ r h. cc; kept = λ r h. cc }

module _ (kill : ℕ → Probe) (alive : (pid : ℕ) → kill pid ≢ esrch) where
  step-held :
      (p : ℕ) (phase : Phase) (file : LockFile)
      → (phase ≡ held → file ≡ some (some p))
      → (step kill p phase file).1 ≡ held
      → (step kill p phase file).0 ≡ some (some p)
  unfolding step
  step-held p read (some (some zero)) known h = cc
  step-held p read (some (some (suc n))) known h = cc
  step-held p phase file known h = ground arith

  step-file :
      (p : ℕ) (phase : Phase) (file : LockFile) {text : Option ℕ}
      → phase ≢ unlink
      → file ≡ some text
      → (step kill p phase file).0 ≡ some text
  unfolding step
  step-file p unlink file quiet e = absurd (quiet refl)
  step-file p phase file quiet e = ground arith

  step-ne-unlink :
      (p : ℕ) (phase : Phase) (file : LockFile)
      → phase ≢ unlink
      → (step kill p phase file).1 ≢ unlink
  unfolding step
  step-ne-unlink p read (some (some zero)) quiet = cc
  step-ne-unlink p read (some (some (suc n))) quiet = cc
  step-ne-unlink p (probe pid) file quiet = ground (arith, alive pid)
  step-ne-unlink p phase file quiet = ground arith

  -- A process that has just taken the lock found no file, so nobody else held it.
  step-new :
      (p : ℕ) (phase : Phase) (file : LockFile)
      → phase ≢ held
      → (step kill p phase file).1 ≡ held
      → file ≡ none
  unfolding step
  step-new p read (some (some zero)) other h = cc
  step-new p read (some (some (suc n))) other h = cc
  step-new p phase file other h = ground arith

  call-IsSafe : (s : System) (p : ℕ) → IsSafe s → IsSafe (advance kill p s)
  unfolding advance
  call-IsSafe s p safe = record {
    named = λ q h. elim (Bool-cases (nat_beq p q)) [
      | inl same ↦
          let e = (nat_beq_iff p q).0 same in
          rw (← e) (step-held p (s.phase p) s.file (safe.named p) (rw same at h))
      | inr other ↦ step-file p (s.phase p) s.file (safe.kept p) (safe.named q (rw other at h))
    ];
    kept = λ q. elim (Bool-cases (nat_beq p q)) [
      | inl same ↦ rw same (step-ne-unlink p (s.phase p) s.file (safe.kept p))
      | inr other ↦ rw other (safe.kept q)
    ];
  }

  Move-IsSafe : {s t : System} → Move kill s t → IsSafe s → IsSafe t
  unfolding release_file_lock
  Move-IsSafe (start s p e) safe = record {
    named = λ q h. safe.named q (ground arith);
    kept = λ q. ground (arith, safe.kept q);
  }
  Move-IsSafe (call s p) safe = call-IsSafe s p safe
  Move-IsSafe (release s p e) safe = record {
    named = λ q h. absurd (ground (arith, safe.named q, safe.named p e, nat_beq_iff p q));
    kept = λ q. ground (arith, safe.kept q);
  }

  Moves-IsSafe : {s t : System} → Moves kill s t → IsSafe s → IsSafe t
  Moves-IsSafe here safe = safe
  Moves-IsSafe (next ms m) safe = Move-IsSafe m (Moves-IsSafe ms safe)

  -- While no process dies, at most one process holds the lock, however the calls interleave.
  pub Moves-exclusive :
      {t : System} (p q : ℕ) → Moves kill quiet t → t.phase p ≡ held → t.phase q ≡ held → p ≡ q
  Moves-exclusive {t} p q ms hp hq =
      let safe = Moves-IsSafe ms quiet-IsSafe in
      let mine : t.file ≡ some (some p) = safe.named p hp in
      let yours : t.file ≡ some (some q) = safe.named q hq in cc

-- A schedule names the process that makes the next system call.
unfoldable pub play : (ℕ → Probe) → List ℕ → System → System
unfolding advance
play kill [] s = s
play kill (p ∷ ps) s = play kill ps (advance kill p s)

-- With the file of a dead process in place, two processes that both saw it can both acquire the
-- lock: the second removes the file that the first has just created.
pub stale-both_held :
    (kill : ℕ → Probe) (p q dead : ℕ)
    → p ≢ q
    → kill (suc dead) ≡ esrch
    → (let s =
          play kill
            (p ∷ q ∷ p ∷ q ∷ p ∷ q ∷ p ∷ p ∷ q ∷ q ∷ [])
            (record { file = some (some (suc dead)); phase = λ _. create }) in
        (s.phase p ≡ held) × (s.phase q ≡ held))
unfolding play step
stale-both_held kill p q dead other gone =
    let pq : nat_beq p q ≡ false = ground arith in
    let qp : nat_beq q p ≡ false = ground arith in
    let pp : nat_beq p p ≡ true = ground arith in
    let qq : nat_beq q q ≡ true = ground arith in
    (simp (pq, qp, pp, qq, gone), simp (pq, qp, pp, qq, gone))
