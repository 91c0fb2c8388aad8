-- ===== src/Pending/Build.antt =====
-- `buildAndPublishPendingReminder`, undisturbed.
use mathlib.Core.Path.{subst, sym}
use caveat.Common.{
  ℕ, ◌≡◌, refl, ap, ◌∙◌, true, Option, none, some, Text, arith, if◌then◌else◌, list_eq, nat_eq,
  list_beq_iff,
}
use caveat.Common.Maps.{get, put, get-put}
use caveat.Pending.{
  claim_ttl_ms, is_key, Session, Outcome, throws, gives, claim_file, drop_claim,
  acquire_pending_claim, release_text, release_file, release_pending_claim,
  publish_pending_reminder, Built, built, build_under, with_claim, build_and_publish,
}
use caveat.Pending.Once.{free_at, token_of, dropped, acquire_pending_claim_iff}

release-own :
    (key token : Text) (now : ℕ) (s : Session)
    → get key s.claims ≡ some (claim_file token now)
    → release_pending_claim key token s ≡ (drop_claim key s, gives tt)
unfolding release_pending_claim release_file release_text
release-own key token now s h =
    ap (release_file key token s) h
    ∙ ap (λ b. (if b then drop_claim key s else s, gives tt)) ((list_beq_iff token token).1 refl)

-- What the caller sees: the error of `build`, or that it ran and published.
abbrev pub outcome_of : Option Text → Outcome Built
outcome_of none = throws
outcome_of (some text) = gives (record { ran = true; published = true })

module _ (key : Text) (valid : is_key key ≡ true) where
  publish-new :
      (text : Text) (s : Session)
      → get key s.ready ≡ none
      → publish_pending_reminder key text s
        ≡ (record s { ready = put key text s.ready }, gives true)
  unfolding publish_pending_reminder
  publish-new text s unready = rw (valid, unready) refl

  under-new :
      (text : Text) (s : Session)
      → get key s.ready ≡ none
      → build_under key (some text) s ≡ (
        record s { ready = put key text s.ready },
        gives (record { ran = true; published = true }),
      )
  unfolding build_under built
  under-new text s unready = ap (λ r. built r) (publish-new text s unready)

  with_claim-own :
      (token : Text) (now : ℕ) (answer : Option Text) (s : Session)
      → get key s.ready ≡ none
      → get key s.claims ≡ some (claim_file token now)
      → let (s', o) = with_claim key answer s (gives (some token)) in
        (o ≡ outcome_of answer) × (get key s'.ready ≡ answer) × (get key s'.claims ≡ none)
  unfolding with_claim build_under
  with_claim-own token now none s unready h =
      rw (release-own key token now s h) (refl, unready, dropped key now claim_ttl_ms s)
  with_claim-own token now (some text) s unready h =
      let s' : Session = record s { ready = put key text s.ready } in
      rw (under-new text s unready, release-own key token now s' h)
        (
          refl,
          ground (arith, get-put key key text s.ready, list_beq_iff key key),
          dropped key now claim_ttl_ms s',
        )

  -- For a valid key that is neither published nor under a claim in force, the build runs, and its
  -- text is published, or its error is passed on with nothing published; in both cases the claim is
  -- gone afterwards.
  pub build_and_publish-runs :
      (now : ℕ) (first second : Text) (answer : Option Text) (s : Session)
      → get key s.ready ≡ none
      → free_at now claim_ttl_ms (get key s.claims) ≡ true
      → let (s', o) = build_and_publish key now first second answer s in
        (o ≡ outcome_of answer) × (get key s'.ready ≡ answer) × (get key s'.claims ≡ none)
  unfolding build_and_publish
  build_and_publish-runs now first second answer s unready free =
      let (o, c, r) = acquire_pending_claim_iff key now claim_ttl_ms first second s valid unready in
      let token = token_of first second (get key s.claims) in
      let s' = (acquire_pending_claim key now claim_ttl_ms first second s).0 in
      let got : (acquire_pending_claim key now claim_ttl_ms first second s).1 ≡ gives (some token) =
        o ∙ ap (λ b. gives (if b then some token else none)) free in
      let held : get key s'.claims ≡ some (claim_file token now) =
        c ∙ ap (λ b. if b then some (claim_file token now) else get key s.claims) free in
      subst
        (λ x.
          let (t, y) = with_claim key answer s' x in
          (y ≡ outcome_of answer) × (get key t.ready ≡ answer) × (get key t.claims ≡ none))
        (sym got) (with_claim-own token now answer s' (ap (get key) r ∙ unready) held)
