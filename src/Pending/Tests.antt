-- ===== src/Pending/Tests.antt =====
-- One session with the claim of a process that is gone.
use caveat.Common.{
  ℕ, zero, suc, ◌≡◌, refl, none, some, List, [], ◌∷◌, Text, codes, if◌then◌else◌, arith, list_eq,
  nat_eq,
}
use caveat.Common.Maps.{get}
use caveat.Pending.{
  sanitize_session_id, is_key, Session, gives, claim_file, created_at, acquire_pending_claim,
  release_pending_claim, publish_pending_reminder, build_and_publish,
}
use caveat.Pending.Once.{
  free_at, token_of, Op, acquire, release, publish, run_op, run_ops, acquire_pending_claim_iff,
  run_ops-ready, run_ops-claim,
}
use caveat.Pending.Build.{outcome_of, build_and_publish-runs}

runs : Unit {0}
unfolding sanitize_session_id is_key created_at acquire_pending_claim release_pending_claim
    publish_pending_reminder build_and_publish run_op run_ops
runs = tt

abbrev repeat : ℕ → ℕ → Text
repeat zero c = []
repeat (suc n) c = c ∷ repeat n c

abbrev key_a : Text
key_a = repeat 64 97

abbrev stale : Session
stale = record { ready = []; claims = (key_a, claim_file (codes "old") 1000) ∷ [] }

no_traversal : sanitize_session_id (codes "../a_b") ≡ codes "a_b"
unfolding runs
no_traversal = refl

empty_id : sanitize_session_id (codes "./") ≡ codes "_unknown"
unfolding runs
empty_id = refl

acquire_pending_claim_iff_example :
    let (s', o) = acquire_pending_claim key_a 400000 300000 (codes "t1") (codes "t2") stale in
    let old = get key_a stale.claims in
    let token = token_of (codes "t1") (codes "t2") old in
    (o ≡ gives (if free_at 400000 300000 old then some token else none))
    × (get key_a s'.claims
        ≡ (if free_at 400000 300000 old then some (claim_file token 400000) else old))
    × (s'.ready ≡ stale.ready)
unfolding runs
acquire_pending_claim_iff_example =
    acquire_pending_claim_iff key_a 400000 300000 (codes "t1") (codes "t2") stale refl refl

abbrev others : List Op
others =
    acquire key_a 9000 300000 (codes "t3") (codes "t4")
    ∷ release key_a (codes "t3")
    ∷ publish key_a (codes "hint")
    ∷ []

run_ops-claim_example :
    get key_a (run_ops others stale).claims ≡ some (claim_file (codes "old") 1000)
run_ops-claim_example =
    run_ops-claim others key_a (codes "old") 1000 stale (omega arith, (refl, (tt, tt))) refl

abbrev told : Session
told = record { ready = (key_a, codes "first") ∷ []; claims = [] }

run_ops-ready_example : get key_a (run_ops others told).ready ≡ some (codes "first")
run_ops-ready_example = run_ops-ready others key_a {text = codes "first"} told refl

build_and_publish-runs_example :
    let (s', o) =
      build_and_publish key_a 400000 (codes "t1") (codes "t2") (some (codes "hint")) stale in
    (o ≡ outcome_of (some (codes "hint")))
    × (get key_a s'.ready ≡ some (codes "hint"))
    × (get key_a s'.claims ≡ none)
unfolding runs
build_and_publish-runs_example =
    build_and_publish-runs key_a refl 400000 (codes "t1") (codes "t2") (some (codes "hint")) stale
      refl refl
