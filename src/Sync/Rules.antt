-- ===== src/Sync/Rules.antt =====
-- What a step of the sync ensures, from the parts of which it is made.
use caveat.Common.{◌≡◌, refl, Bool, true, false, List}
use caveat.AutoSync.{SyncFailure}
use caveat.Sync.{
  Answer, Call, World, Result, ok, failed, Sync, then_run, ◌>>=◌, ◌>>◌, log, ask, ensure,
}
use caveat.Sync.Own.{in_recovery, recovering}

-- `Q` of a value and the world behind it, `E` of the world behind an error.
abbrev pub Ends {ℓ} :
    {A : Type ℓ} → (A → World → Type 0) → (World → Type 0) → World × Result A → Type 0
Ends Q E (w, ok a) = Q a w
Ends Q E (w, failed e) = E w

-- From every world with `P`.
abbrev pub Triple {ℓ} :
    {A : Type ℓ} → (World → Type 0) → Sync A → (A → World → Type 0) → (World → Type 0) → Type 0
Triple P m Q E = (w : World) → P w → Ends Q E (m w)

abbrev pub Keeps {ℓ} : {A : Type ℓ} → (World → Type 0) → Sync A → Type 0
Keeps P m = Triple P m (λ a. P) P

module _ {ℓ κ} {A : Type ℓ} {B : Type κ} (E : World → Type 0) where
  then_run-Ends :
      (Q : A → World → Type 0) (f : A → Sync B) (R : B → World → Type 0) (r : World × Result A)
      → Ends Q E r
      → ((a : A) → Triple (Q a) (f a) R E)
      → Ends R E (then_run f r)
  then_run-Ends Q f R (w, ok a) h k = k a w h
  then_run-Ends Q f R (w, failed e) h k = h

  pub bind-Triple :
      (P : World → Type 0) (m : Sync A) (Q : A → World → Type 0) (f : A → Sync B)
      (R : B → World → Type 0)
      → Triple P m Q E
      → ((a : A) → Triple (Q a) (f a) R E)
      → Triple P (m >>= f) R E
  unfolding ◌>>=◌
  bind-Triple P m Q f R h k w p = then_run-Ends Q f R (m w) (h w p) k

module _ {ℓ} {A : Type ℓ} (Q : A → World → Type 0) (E E' : World → Type 0) where
  weaken-Ends : ((w : World) → E w → E' w) → (r : World × Result A) → Ends Q E r → Ends Q E' r
  weaken-Ends k (w, ok a) h = h
  weaken-Ends k (w, failed e) h = k w h

  -- Less is asked of an error.
  pub weaken-Triple :
      (P : World → Type 0) (m : Sync A)
      → ((w : World) → E w → E' w)
      → Triple P m Q E
      → Triple P m Q E'
  weaken-Triple P m k h w p = weaken-Ends k (m w) (h w p)

module _ {ℓ} {B : Type ℓ} (E : World → Type 0) where
  -- A guard that holds in what follows.
  pub ensure-Triple :
      (P : World → Type 0) (b : Bool) (e : SyncFailure) (m : Sync B) (R : B → World → Type 0)
      → ((w : World) → P w → E w)
      → (b ≡ true → Triple P m R E)
      → Triple P (ensure b e >> m) R E
  unfolding ◌>>=◌
  ensure-Triple P true e m R fails k w p = k refl w p
  ensure-Triple P false e m R fails k w p = fails w p

module _ (P : World → Type 0) where
  -- A step that keeps `P`, and what follows it.
  pub bind_kept-Triple {ℓ κ} :
      {A : Type ℓ} {B : Type κ} (R : B → World → Type 0) (m : Sync A) (f : A → Sync B)
      → Keeps P m
      → ((a : A) → Triple P (f a) R P)
      → Triple P (m >>= f) R P
  bind_kept-Triple R m f h k = bind-Triple P P m (λ a. P) f R h k

  pub bind-Keeps {ℓ κ} :
      {A : Type ℓ} {B : Type κ} (m : Sync A) (f : A → Sync B)
      → Keeps P m
      → ((a : A) → Keeps P (f a))
      → Keeps P (m >>= f)
  bind-Keeps m f h k = bind-Triple P P m (λ a. P) f (λ b. P) h k

  pub ensure-Keeps : (b : Bool) (e : SyncFailure) → Keeps P (ensure b e)
  ensure-Keeps true e w p = p
  ensure-Keeps false e w p = p

  pub result-Ends {ℓ} : {A : Type ℓ} (r : Result A) (w : World) → P w → Ends (λ a. P) P (w, r)
  result-Ends (ok a) w p = p
  result-Ends (failed e) w p = p

  pub ask-Keeps {ℓ} :
      {A : Type ℓ} (c : Call) (as_result : Answer A → Result A) (answer : List Call → Answer A)
      → ((w : World) → P w → P (log c w))
      → Keeps P (ask c as_result answer)
  ask-Keeps c as_result answer logs w p =
      result-Ends (as_result (answer w.trace)) (log c w) (logs w p)

  -- What is kept holds at the end, of a return and of an error.
  pub at_end {ℓ} : {A : Type ℓ} (r : World × Result A) → Ends (λ a. P) P r → P r.0
  at_end (w, ok a) h = h
  at_end (w, failed e) h = h

  in_recovery-Ends {ℓ} :
      {A : Type ℓ} (r : World × Result A) → Ends (λ a. P) P r → Ends (λ a. P) P (in_recovery r)
  in_recovery-Ends (w, ok a) h = h
  in_recovery-Ends (w, failed e) h = h

  pub recovering-Keeps {ℓ} : {A : Type ℓ} (m : Sync A) → Keeps P m → Keeps P (recovering m)
  recovering-Keeps m h w p = in_recovery-Ends (m w) (h w p)

module _ (P Q E : World → Type 0) where
  answered-Ends {ℓ} :
      {A : Type ℓ} (r : Result A) (w : World)
      → ((w : World) → Q w → E w)
      → Q w
      → Ends (λ a. Q) E (w, r)
  answered-Ends (ok a) w k q = q
  answered-Ends (failed e) w k q = k w q

  -- A call after which `Q` holds, whatever the answer is.
  pub ask-Triple {ℓ} :
      {A : Type ℓ} (c : Call) (as_result : Answer A → Result A) (answer : List Call → Answer A)
      → ((w : World) → P w → Q (log c w))
      → ((w : World) → Q w → E w)
      → Triple P (ask c as_result answer) (λ a. Q) E
  ask-Triple c as_result answer logs k w p =
      answered-Ends (as_result (answer w.trace)) (log c w) k (logs w p)

module _ {ℓ} {B : Type ℓ} (P : World → Type 0) (R : World × Result B → Type 0)
    (fails : (e : SyncFailure) (w : World) → P w → R (w, failed e)) where
  run-Outcome {κ} :
      {A : Type κ} (f : A → Sync B) (r : World × Result A)
      → Ends (λ a. P) P r
      → ((a : A) (w : World) → P w → R (f a w))
      → R (then_run f r)
  run-Outcome f (w, ok a) h k = k a w h
  run-Outcome f (w, failed e) h k = fails e w h

  -- `R` of the outcome, when a failure under `P` is as `R` wants it.
  pub bind-Outcome {κ} :
      {A : Type κ} (m : Sync A) (f : A → Sync B)
      → Keeps P m
      → ((a : A) (w : World) → P w → R (f a w))
      → (w : World) → P w
      → R ((m >>= f) w)
  unfolding ◌>>=◌
  bind-Outcome m f h k w p = run-Outcome f (m w) (h w p) k
