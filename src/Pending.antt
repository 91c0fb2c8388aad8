-- ===== src/Pending.antt =====
-- packages/core/src/pendingReminders.ts: the claims of a session and the reminders that are
-- published once per key. Each operation runs under the queue lock, so it is one step.
pub mod Once
pub mod Build
pub mod Queue
pub mod Drained
pub mod DrainTests
pub mod Sweep
pub mod Swept
pub mod SweepTests
pub mod Tests
use caveat.Common.{
  ℕ, ◌+◌, Bool, true, false, not, ◌&&◌, ◌||◌, Option, none, some, List, [], ◌∷◌, Text, codes,
  length, all, select, if◌then◌else◌, leb, nat_beq, list_eq, nat_eq, ◌==◌,
}
use caveat.Common.Maps.{get, put, remove}

abbrev pub claim_ttl_ms : ℕ
claim_ttl_ms = 300000

abbrev is_digit : ℕ → Bool
is_digit c = leb 48 c && leb c 57

-- `[A-Za-z0-9_-]`
abbrev pub is_safe : ℕ → Bool
is_safe c =
    is_digit c || (leb 65 c && leb c 90) || (leb 97 c && leb c 122) || nat_beq c 95 || nat_beq c 45

abbrev or_unknown : Text → Text
or_unknown [] = codes "_unknown"
or_unknown (c ∷ cs) = c ∷ cs

-- `sanitizeSessionId`
unfoldable pub sanitize_session_id : Text → Text
sanitize_session_id raw = or_unknown (select is_safe raw)

-- `/^[a-f0-9]{64}$/`
unfoldable pub is_key : Text → Bool
is_key key = nat_beq (length key) 64 && all (λ c. is_digit c || (leb 97 c && leb c 102)) key

-- What `JSON.parse` makes of a claim file: it throws, it is `null`, or a value whose two properties
-- are a text and a time or not.
pub data ClaimText : Type 0 where
  torn null_text : ClaimText
  parsed : (owner_token : Option Text) (created_at : Option ℕ) → ClaimText

pub record ClaimFile : Type 0 where
  pub text : ClaimText
  pub mtime : ℕ

-- The directory of one session: the completed `.ready` files and the `.claim` files, by key.
pub record Session : Type 0 where
  pub ready : List (Text × Text)
  pub claims : List (Text × ClaimFile)

-- `throws`: an error that the caller sees. `gives`: the value that is returned.
pub data Outcome {ℓ} (A : Type ℓ) : Type ℓ where
  throws : Outcome A
  gives : A → Outcome A

abbrev pub is_some {ℓ} : {A : Type ℓ} → Option A → Bool
is_some none = false
is_some (some a) = true

-- The time of a claim: its own, or that of the file.
unfoldable pub created_at : ClaimFile → ℕ
created_at f = from f.text
  where
    from : ClaimText → ℕ
    from (parsed owner (some ms)) = ms
    from (parsed owner none) = f.mtime
    from torn = f.mtime
    from null_text = f.mtime

abbrev is_ready : Text → Session → Bool
is_ready key s = is_some (get key s.ready)

-- The file that a claim writes.
abbrev pub claim_file : (token : Text) (now : ℕ) → ClaimFile
claim_file token now = record { text = parsed (some token) (some now); mtime = now }

abbrev pub write_claim : (key token : Text) (now : ℕ) → Session → Session
write_claim key token now s = record s { claims = put key (claim_file token now) s.claims }

abbrev pub drop_claim : Text → Session → Session
drop_claim key s = record s { claims = remove key s.claims }

-- One attempt, on the claim file that it finds; behind an expired claim the next one follows.
unfoldable pub on_file :
    (key : Text) (now ttl : ℕ) (token : Text)
    → (next : Session → Session × Option Text) → Session
    → Option ClaimFile
    → Session × Option Text
on_file key now ttl token next s none =
    if is_ready key s then (s, none) else (write_claim key token now s, some token)
on_file key now ttl token next s (some f) =
    if leb now (ttl + created_at f) then (s, none) else next (drop_claim key s)

-- The attempts, with their random tokens.
unfoldable pub attempt_claim :
    (key : Text) (now ttl : ℕ) → List Text → Session → Session × Option Text
unfolding on_file
attempt_claim key now ttl [] s = (s, none)
attempt_claim key now ttl (token ∷ tokens) s =
    on_file key now ttl token (attempt_claim key now ttl tokens) s (get key s.claims)

-- `acquirePendingClaim`, with the tokens of its two attempts: the claim's token, or `none` for null.
unfoldable pub acquire_pending_claim :
    (key : Text) (now ttl : ℕ) (first second : Text) → Session → Session × Outcome (Option Text)
unfolding attempt_claim
acquire_pending_claim key now ttl first second s =
    if not (is_key key)
    then (s, throws)
    else if is_ready key s
    then (s, gives none)
    else (let (s', claim) = attempt_claim key now ttl (first ∷ second ∷ []) s in (s', gives claim))

abbrev pub owns : Text → Option Text → Bool
owns token none = false
owns token (some owner) = owner == token

-- What `releasePendingClaim` does with the text of the file that it reads.
unfoldable pub release_text :
    (key token : Text) → Session → ClaimText → Session × Outcome (Unit {0})
release_text key token s torn = (s, throws)
release_text key token s null_text = (s, throws)
release_text key token s (parsed owner created) =
    (if owns token owner then drop_claim key s else s, gives tt)

unfoldable pub release_file :
    (key token : Text) → Session → Option ClaimFile → Session × Outcome (Unit {0})
unfolding release_text
release_file key token s none = (s, gives tt)
release_file key token s (some f) = release_text key token s f.text

-- `releasePendingClaim`
unfoldable pub release_pending_claim : (key token : Text) → Session → Session × Outcome (Unit {0})
unfolding release_file
release_pending_claim key token s = release_file key token s (get key s.claims)

-- `publishPendingReminder`: whether this call has published.
unfoldable pub publish_pending_reminder : (key text : Text) → Session → Session × Outcome Bool
publish_pending_reminder key text s =
    if not (is_key key)
    then (s, throws)
    else if is_ready key s
    then (s, gives false)
    else (record s { ready = put key text s.ready }, gives true)

-- The result of `buildAndPublishPendingReminder`.
pub record Built : Type 0 where
  pub ran : Bool
  pub published : Bool

unfoldable pub built : Session × Outcome Bool → Session × Outcome Built
built (s, throws) = (s, throws)
built (s, gives published) = (s, gives (record { ran = true; published = published }))

-- The body under the claim: `none` is a `build` that throws.
unfoldable pub build_under : (key : Text) → Option Text → Session → Session × Outcome Built
unfolding built publish_pending_reminder
build_under key none s = (s, throws)
build_under key (some text) s = built (publish_pending_reminder key text s)

-- An error of the `finally` stands in place of the result.
abbrev finally : Outcome (Unit {0}) → Outcome Built → Outcome Built
finally throws o = throws
finally (gives u) o = o

unfoldable pub with_claim :
    (key : Text) → Option Text → Session → Outcome (Option Text) → Session × Outcome Built
unfolding build_under release_pending_claim
with_claim key text s throws = (s, throws)
with_claim key text s (gives none) = (s, gives (record { ran = false; published = false }))
with_claim key text s (gives (some token)) =
    let (s', o) = build_under key text s in
    let (s'', r) = release_pending_claim key token s' in (s'', finally r o)

-- `buildAndPublishPendingReminder`, undisturbed.
unfoldable pub build_and_publish :
    (key : Text) (now : ℕ) (first second : Text) → Option Text → Session → Session × Outcome Built
unfolding acquire_pending_claim with_claim
build_and_publish key now first second text s =
    let (s', o) = acquire_pending_claim key now claim_ttl_ms first second s in
    with_claim key text s' o
