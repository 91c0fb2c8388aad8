-- ===== src/Pending/Once.antt =====
-- One build at a time for a key, and one reminder for a key.
use mathlib.Core.Path.{subst, sym}
use caveat.Common.{
  ℕ, ◌+◌, ◌≤◌, ◌≡◌, ap, ◌∙◌, inl, inr, refl, Bool, true, false, not, Option, none, some, List, [],
  ◌∷◌, Text, leb, arith, All, if◌then◌else◌, list_eq, nat_eq, list_beq, list_beq_iff, Bool-cases,
}
use caveat.Common.Maps.{get, get-put, get-remove}
use caveat.Pending.{
  is_key, ClaimText, torn, null_text, parsed, ClaimFile, Session, gives, is_some, created_at,
  claim_file, write_claim, drop_claim, on_file, attempt_claim, acquire_pending_claim, release_text,
  release_file, release_pending_claim, publish_pending_reminder,
}

-- No claim of the key is in force.
abbrev pub free_at : (now ttl : ℕ) → Option ClaimFile → Bool
free_at now ttl none = true
free_at now ttl (some f) = not (leb now (ttl + created_at f))

-- An expired claim costs the first of the two attempts.
abbrev pub token_of : (first second : Text) → Option ClaimFile → Text
token_of first second none = first
token_of first second (some f) = second

module _ (key : Text) (now ttl : ℕ) where
  -- Without a claim the first token is taken.
  attempt-absent :
      (token : Text) (tokens : List Text) (s : Session)
      → get key s.ready ≡ none
      → get key s.claims ≡ none
      → attempt_claim key now ttl (token ∷ tokens) s ≡ (write_claim key token now s, some token)
  unfolding attempt_claim on_file
  attempt-absent token tokens s unready absent =
      ap (on_file key now ttl token (attempt_claim key now ttl tokens) s) absent
      ∙ ap (λ o. if is_some o then (s, none) else (write_claim key token now s, some token)) unready

  attempt-present :
      (token : Text) (tokens : List Text) (s : Session) (f : ClaimFile)
      → get key s.claims ≡ some f
      → attempt_claim key now ttl (token ∷ tokens) s ≡ (
          if leb now (ttl + created_at f)
          then (s, none)
          else attempt_claim key now ttl tokens (drop_claim key s))
  unfolding attempt_claim on_file
  attempt-present token tokens s f h =
      ap (on_file key now ttl token (attempt_claim key now ttl tokens) s) h

  pub dropped : (s : Session) → get key (drop_claim key s).claims ≡ none
  dropped s = ground (arith, get-remove key key s.claims, list_beq_iff key key)

  written :
      (token : Text) (s : Session)
      → get key (write_claim key token now s).claims ≡ some (claim_file token now)
  written token s =
      ground (arith, get-put key key (claim_file token now) s.claims, list_beq_iff key key)

  attempt-two :
      (first second : Text) (s : Session) (old : Option ClaimFile)
      → get key s.ready ≡ none
      → get key s.claims ≡ old
      → let (s', o) = attempt_claim key now ttl (first ∷ second ∷ []) s in
        let token = token_of first second old in
        (o ≡ (if free_at now ttl old then some token else none))
        × (get key s'.claims ≡ (if free_at now ttl old then some (claim_file token now) else old))
        × (s'.ready ≡ s.ready)
  attempt-two first second s none unready h =
      rw (attempt-absent first (second ∷ []) s unready h) (refl, written first s, refl)
  attempt-two first second s (some f) unready h = elim (Bool-cases (leb now (ttl + created_at f))) [
    | inl live ↦ rw (attempt-present first (second ∷ []) s f h, live) (refl, h, refl)
    | inr expired ↦
        rw
          (
            attempt-present first (second ∷ []) s f h,
            expired,
            attempt-absent second [] (drop_claim key s) unready (dropped s),
          )
          (refl, written second (drop_claim key s), refl)
  ]

  -- A valid key that is not published is claimed exactly when no claim of it is in force; then the
  -- claim file holds the caller's token, and else it is as it was. The reminders stay as they are.
  pub acquire_pending_claim_iff :
      (first second : Text) (s : Session)
      → is_key key ≡ true
      → get key s.ready ≡ none
      → let (s', o) = acquire_pending_claim key now ttl first second s in
        let old = get key s.claims in
        let token = token_of first second old in
        (o ≡ gives (if free_at now ttl old then some token else none))
        × (get key s'.claims ≡ (if free_at now ttl old then some (claim_file token now) else old))
        × (s'.ready ≡ s.ready)
  unfolding acquire_pending_claim
  acquire_pending_claim_iff first second s valid unready =
      let (o, c, r) = attempt-two first second s (get key s.claims) unready refl in
      rw (valid, unready) (ap (λ x. gives x) o, c, r)

-- What processes do to one session, and the publication of a reminder that claims nothing.
pub data Op : Type 0 where
  acquire : (key : Text) (now ttl : ℕ) (first second : Text) → Op
  release : (key token : Text) → Op
  publish : (key text : Text) → Op

unfoldable pub run_op : Op → Session → Session
run_op (acquire key now ttl first second) s = (acquire_pending_claim key now ttl first second s).0
run_op (release key token) s = (release_pending_claim key token s).0
run_op (publish key text) s = (publish_pending_reminder key text s).0

unfoldable pub run_ops : List Op → Session → Session
run_ops [] s = s
run_ops (op ∷ ops) s = run_ops ops (run_op op s)

on_file-ready :
    (key : Text) (now ttl : ℕ) (token : Text) (next : Session → Session × Option Text) (s : Session)
    (o : Option ClaimFile)
    → (next (drop_claim key s)).0.ready ≡ s.ready
    → (on_file key now ttl token next s o).0.ready ≡ s.ready
unfolding on_file
on_file-ready key now ttl token next s none h = ground arith
on_file-ready key now ttl token next s (some f) h = ground arith

attempt-ready :
    (key : Text) (now ttl : ℕ) (tokens : List Text) (s : Session)
    → (attempt_claim key now ttl tokens s).0.ready ≡ s.ready
unfolding attempt_claim
attempt-ready key now ttl [] s = refl
attempt-ready key now ttl (token ∷ tokens) s =
    on_file-ready key now ttl token (attempt_claim key now ttl tokens) s (get key s.claims)
      (attempt-ready key now ttl tokens (drop_claim key s))

acquire-ready :
    (key : Text) (now ttl : ℕ) (first second : Text) (s : Session)
    → (acquire_pending_claim key now ttl first second s).0.ready ≡ s.ready
unfolding acquire_pending_claim
acquire-ready key now ttl first second s =
    ground (arith, attempt-ready key now ttl (first ∷ second ∷ []) s)

release_text-ready :
    (key token : Text) (s : Session) (t : ClaimText)
    → (release_text key token s t).0.ready ≡ s.ready
unfolding release_text
release_text-ready key token s torn = refl
release_text-ready key token s null_text = refl
release_text-ready key token s (parsed owner created) = ground arith

release_file-ready :
    (key token : Text) (s : Session) (o : Option ClaimFile)
    → (release_file key token s o).0.ready ≡ s.ready
unfolding release_file
release_file-ready key token s none = refl
release_file-ready key token s (some f) = release_text-ready key token s f.text

run_op-ready :
    (op : Op) (k : Text) {text : Text} (s : Session)
    → get k s.ready ≡ some text
    → get k (run_op op s).ready ≡ some text
unfolding run_op release_pending_claim publish_pending_reminder
run_op-ready (acquire key now ttl first second) k s h =
    ap (get k) (acquire-ready key now ttl first second s) ∙ h
run_op-ready (release key token) k s h =
    ap (get k) (release_file-ready key token s (get key s.claims)) ∙ h
run_op-ready (publish key new) k s h = ground (arith, get-put key k new s.ready, list_beq_iff key k)

-- A reminder that is published keeps its text, whatever claims, releases and publications follow.
pub run_ops-ready :
    (ops : List Op) (k : Text) {text : Text} (s : Session)
    → get k s.ready ≡ some text
    → get k (run_ops ops s).ready ≡ some text
unfolding run_ops
run_ops-ready [] k s h = h
run_ops-ready (op ∷ ops) k {text} s h =
    run_ops-ready ops k {text = text} (run_op op s) (run_op-ready op k {text = text} s h)

-- The file of another key stays as it is.
on_file-other :
    (k key : Text) (now ttl : ℕ) (token : Text) (next : Session → Session × Option Text)
    (s : Session) (o : Option ClaimFile)
    → list_beq key k ≡ false
    → get k (next (drop_claim key s)).0.claims ≡ get k s.claims
    → get k (on_file key now ttl token next s o).0.claims ≡ get k s.claims
unfolding on_file
on_file-other k key now ttl token next s none other h =
    ground (arith, get-put key k (claim_file token now) s.claims)
on_file-other k key now ttl token next s (some f) other h = ground arith

attempt-other :
    (k key : Text) (now ttl : ℕ) (tokens : List Text) (s : Session)
    → list_beq key k ≡ false
    → get k (attempt_claim key now ttl tokens s).0.claims ≡ get k s.claims
unfolding attempt_claim
attempt-other k key now ttl [] s other = refl
attempt-other k key now ttl (token ∷ tokens) s other =
    on_file-other k key now ttl token (attempt_claim key now ttl tokens) s (get key s.claims) other
      (attempt-other k key now ttl tokens (drop_claim key s) other
        ∙ ground (arith, get-remove key k s.claims))

-- An operation of another process while the claim of `k` by `token` at the time `now` is in force.
abbrev pub IsForeign : (k token : Text) (now : ℕ) → Op → Type 0
IsForeign k token now (acquire key later ttl first second) = later ≤ ttl + now
IsForeign k token now (release key other) = list_beq token other ≡ false
IsForeign k token now (publish key text) = Unit

acquire-held :
    (key token : Text) (now later ttl : ℕ) (first second : Text) (s : Session)
    → later ≤ ttl + now
    → get key s.claims ≡ some (claim_file token now)
    → get key (acquire_pending_claim key later ttl first second s).0.claims
      ≡ some (claim_file token now)
unfolding acquire_pending_claim created_at
acquire-held key token now later ttl first second s le h =
    let live : leb later (ttl + now) ≡ true = ground arith in
    let kept =
      attempt-present key later ttl first (second ∷ []) s (claim_file token now) h
      ∙ ap
          (λ b.
            if b then (s, none) else attempt_claim key later ttl (second ∷ []) (drop_claim key s))
          live in
    ground (arith, ap (λ r. r.0.claims) kept)

acquire-other :
    (k key : Text) (now ttl : ℕ) (first second : Text) (s : Session)
    → list_beq key k ≡ false
    → get k (acquire_pending_claim key now ttl first second s).0.claims ≡ get k s.claims
unfolding acquire_pending_claim
acquire-other k key now ttl first second s other =
    let tried = attempt-other k key now ttl (first ∷ second ∷ []) s other in ground (arith, tried)

release_text-other :
    (k key token : Text) (s : Session) (t : ClaimText)
    → list_beq key k ≡ false
    → get k (release_text key token s t).0.claims ≡ get k s.claims
unfolding release_text
release_text-other k key token s torn other = refl
release_text-other k key token s null_text other = refl
release_text-other k key token s (parsed owner created) other =
    ground (arith, get-remove key k s.claims)

release_file-other :
    (k key token : Text) (s : Session) (o : Option ClaimFile)
    → list_beq key k ≡ false
    → get k (release_file key token s o).0.claims ≡ get k s.claims
unfolding release_file
release_file-other k key token s none other = refl
release_file-other k key token s (some f) other = release_text-other k key token s f.text other

release-held :
    (key token other : Text) (now : ℕ) (s : Session)
    → list_beq token other ≡ false
    → get key s.claims ≡ some (claim_file token now)
    → get key (release_pending_claim key other s).0.claims ≡ some (claim_file token now)
unfolding release_pending_claim release_file release_text
release-held key token other now s differs h =
    ap (λ o. get key (release_file key other s o).0.claims) h
    ∙ ap (λ b. get key (if b then drop_claim key s else s).claims) differs
    ∙ h

run_op-claim :
    (op : Op) (k token : Text) (now : ℕ) (s : Session)
    → IsForeign k token now op
    → get k s.claims ≡ some (claim_file token now)
    → get k (run_op op s).claims ≡ some (claim_file token now)
unfolding run_op release_pending_claim publish_pending_reminder
run_op-claim (acquire key later ttl first second) k token now s f h =
    elim (Bool-cases (list_beq key k)) [
      | inl same ↦
          subst
            (λ j.
              get k (acquire_pending_claim j later ttl first second s).0.claims
              ≡ some (claim_file token now))
            (sym ((list_beq_iff key k).0 same))
            (acquire-held k token now later ttl first second s f h)
      | inr other ↦ acquire-other k key later ttl first second s other ∙ h
    ]
run_op-claim (release key other) k token now s f h = elim (Bool-cases (list_beq key k)) [
  | inl same ↦
      subst (λ j. get k (release_pending_claim j other s).0.claims ≡ some (claim_file token now))
        (sym ((list_beq_iff key k).0 same)) (release-held k token other now s f h)
  | inr apart ↦ release_file-other k key other s (get key s.claims) apart ∙ h
]
run_op-claim (publish key new) k token now s f h = ground arith

-- While a claim is in force, acquisitions by others, releases with other tokens and publications, in
-- any order, leave its file in place.
pub run_ops-claim :
    (ops : List Op) (k token : Text) (now : ℕ) (s : Session)
    → All (IsForeign k token now) ops
    → get k s.claims ≡ some (claim_file token now)
    → get k (run_ops ops s).claims ≡ some (claim_file token now)
unfolding run_ops
run_ops-claim [] k token now s f h = h
run_ops-claim (op ∷ ops) k token now s (f, fs) h =
    run_ops-claim ops k token now (run_op op s) fs (run_op-claim op k token now s f h)
