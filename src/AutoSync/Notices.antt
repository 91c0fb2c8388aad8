-- ===== src/AutoSync/Notices.antt =====
-- The notices of the autosync cycle: when the user hears of a sync that keeps failing, and when not.
use caveat.Common.{
  sym, ap, ◌∙◌, ◌+◌, ◌<◌, ◌≡◌, inl, inr, refl, Bool, true, false, ◌&&◌, ◌||◌, Option, none, some,
  List, [], ◌∷◌, ◌++◌, Text, if◌then◌else◌, list_eq, nat_eq, arith, Bool-cases, Option-cases,
  list_beq_iff,
}
use caveat.Lock.{acquire_file_lock}
use caveat.AutoSync.{CommunityResult, OwnOutcome, AutoSyncOutcome, notice_lines, notice_text}
use caveat.AutoSync.State.{
  parse_timestamp, OwnSyncState, AutoSyncState, Options, Env, World, ran, present, should_attempt,
  is_refusal, previous_own, is_new_message, repeat_due,
}
use caveat.AutoSync.Half.{called, half, cycle_body-half}
use caveat.AutoSync.Cycle.{next_state, conclude, finish_cycle, cycle_body, run_auto_sync_cycle}

notice_text-append :
    (xs ys : List Text) (line : Text) → (t : Text) × (notice_text (xs ++ (line ∷ ys)) ≡ some t)
unfolding notice_text
notice_text-append [] ys line = (_, refl)
notice_text-append (x ∷ xs) ys line = (_, refl)

-- A degraded sync always has something to say.
notice_text-degraded :
    (outcome : AutoSyncOutcome) (managed : Bool)
    → outcome.own.degraded ≡ true
    → (t : Text) × (notice_text (notice_lines outcome managed) ≡ some t)
unfolding notice_lines
notice_text-degraded outcome managed h = rw (h, notice_lines) (notice_text-append _ _ _)

abbrev pub has_text : Option Text → Bool
has_text none = false
has_text (some text) = true

abbrev pub said : Option Text → List Text
said none = []
said (some text) = text ∷ []

module _ (sha256 : Text → Text) (stringify : List (Option Text) → Text) where
  -- The signature of the message that the outcome makes.
  abbrev pub message_signature : AutoSyncOutcome → Bool → Text
  message_signature outcome managed = sha256 (stringify (present (notice_lines outcome managed)))

  -- The user is to be told: there is a message, and it is new or its repetition is due.
  abbrev pub speaks : Option AutoSyncState → AutoSyncOutcome → Env → Bool
  speaks previous outcome env =
      has_text (notice_text (notice_lines outcome env.managed))
      && (is_new_message previous (message_signature outcome env.managed)
          || repeat_due previous outcome.own env.now)

  -- What a cycle that ran to its end has done.
  pub record Completed (opts : Options) (env : Env) (own : OwnSyncState) (w w' : World)
      (outcome : AutoSyncOutcome) (notified : Bool) : Type 0 where
    pub told : notified ≡ speaks w.state outcome env
    pub state :
        w'.state
        ≡ some (
            next_state sha256 stringify opts env.now w.state own
              (message_signature outcome env.managed)
              notified)
    pub reminders : w'.reminders ≡ (
        if notified
        then w.reminders ++ said (notice_text (notice_lines outcome env.managed))
        else w.reminders)

  conclude-Completed :
      (opts : Options) (env : Env) (outcome : AutoSyncOutcome) (own : OwnSyncState) (w : World)
      {w' : World} {outcome' : AutoSyncOutcome} {notified : Bool}
      → conclude sha256 stringify opts env outcome own w ≡ (w', ran outcome' notified)
      → Completed opts env own w w' outcome' notified
  unfolding conclude is_new_message repeat_due
  conclude-Completed opts env outcome own w e = record {
    told = ground arith;
    state = ground arith;
    reminders = ground arith;
  }

  -- What `finish_cycle` returns when the own half was no refusal.
  pub record Finished (opts : Options) (env : Env) (own : OwnOutcome × OwnSyncState) (w w' : World)
      (outcome : AutoSyncOutcome) (notified : Bool) : Type 0 where
    pub own_half : outcome.own ≡ own.0
    pub completed : Completed opts env own.1 w w' outcome notified

  finish_cycle-Finished :
      (opts : Options) (env : Env) (community : List CommunityResult)
      (own : OwnOutcome × OwnSyncState) (w : World) {w' : World} {outcome : AutoSyncOutcome}
      {notified : Bool}
      → is_refusal outcome.own.code ≡ false
      → finish_cycle sha256 stringify opts env community own w ≡ (w', ran outcome notified)
      → Finished opts env own w w' outcome notified
  unfolding finish_cycle is_new_message repeat_due
  finish_cycle-Finished opts env community (own, state) w {outcome} fine e =
      elim (Bool-cases (is_refusal own.code)) [
        | inl refused ↦ absurd (ground arith)
        | inr good ↦ record {
          own_half = ground arith;
          completed = record {
            told = ground arith;
            state = ground arith;
            reminders = ground arith;
          };
        }
      ]

  Finished-called :
      (opts : Options) (env : Env) (own : OwnOutcome × OwnSyncState) (tried : Bool) (w : World)
      {w' : World} {outcome : AutoSyncOutcome} {notified : Bool}
      → Finished opts env own (called tried w) w' outcome notified
      → Finished opts env own w w' outcome notified
  Finished-called opts env own true w f = record {
    own_half = f.own_half;
    completed = record {
      told = f.completed.told;
      state = f.completed.state;
      reminders = f.completed.reminders;
    };
  }
  Finished-called opts env own false w f = f

  cycle_body-Finished :
      (opts : Options) (env : Env) (w : World) {w' : World} {outcome : AutoSyncOutcome}
      {notified : Bool}
      → is_refusal outcome.own.code ≡ false
      → cycle_body sha256 stringify opts env w ≡ (w', ran outcome notified)
      → Finished opts env
          (half sha256 stringify env.own (previous_own w.state) env.now)
          w
          w'
          outcome
          notified
  unfolding cycle_body
  cycle_body-Finished opts env w fine e = elim (Option-cases env.community) [
    | inl failed' ↦ absurd (ground arith)
    | inr (community, answered) ↦
        let own = half sha256 stringify env.own (previous_own w.state) env.now in
        Finished-called opts env own (should_attempt (previous_own w.state) env.now) w (
          finish_cycle-Finished opts env community own _ fine
            (sym (cycle_body-half sha256 stringify opts env w answered) ∙ e))
  ]

  -- A cycle that ran is a body between two locks.
  run-body :
      (opts : Options) (env : Env) (w : World) {w' : World} {outcome : AutoSyncOutcome}
      {notified : Bool}
      → run_auto_sync_cycle sha256 stringify opts env w ≡ (w', ran outcome notified)
      → (let v : World = record w {
        sync_lock = (acquire_file_lock env.kill env.me w.sync_lock).0;
        index_lock = (acquire_file_lock env.kill env.me w.index_lock).0;
      } in
          let b = cycle_body sha256 stringify opts env v in
          (b.1 ≡ ran outcome notified) × (w'.state ≡ b.0.state) × (w'.reminders ≡ b.0.reminders))
  unfolding run_auto_sync_cycle
  run-body opts env w e = ground arith

  pub run-Finished :
      (opts : Options) (env : Env) (w : World) {w' : World} {outcome : AutoSyncOutcome}
      {notified : Bool}
      → is_refusal outcome.own.code ≡ false
      → run_auto_sync_cycle sha256 stringify opts env w ≡ (w', ran outcome notified)
      → Finished opts env
          (half sha256 stringify env.own (previous_own w.state) env.now)
          w
          w'
          outcome
          notified
  run-Finished opts env w {w'} {outcome} {notified} fine e =
      let v : World = record w {
        sync_lock = (acquire_file_lock env.kill env.me w.sync_lock).0;
        index_lock = (acquire_file_lock env.kill env.me w.index_lock).0;
      } in
      let (ending, state, reminders) = run-body opts env w e in
      let b = cycle_body sha256 stringify opts env v in
      let same : b ≡ (b.0, ran outcome notified) = ground arith in
      let f =
        cycle_body-Finished opts env v {w' = b.0} {outcome = outcome} {notified = notified} fine
          same in
      record {
        own_half = f.own_half;
        completed = record {
          told = f.completed.told;
          state = state ∙ f.completed.state;
          reminders = reminders ∙ f.completed.reminders;
        };
      }

  -- A cycle that runs to its end with a degraded sync, and is not refused for a dirty or busy
  -- worktree, leaves a state whose last notice is less than a day old: a failing sync is announced at
  -- least every 24 hours.
  pub degraded-announced :
      (opts : Options) (env : Env) (w : World) {w' : World} {outcome : AutoSyncOutcome}
      {notified : Bool}
      → is_refusal outcome.own.code ≡ false
      → run_auto_sync_cycle sha256 stringify opts env w ≡ (w', ran outcome notified)
      → outcome.own.degraded ≡ true
      → (s : AutoSyncState) × (w'.state ≡ some s)
        × (env.now < parse_timestamp s.last_notified_at + 86400000)
  unfolding next_state parse_timestamp repeat_due
  degraded-announced opts env w {outcome} {notified} fine e h =
      let c = (run-Finished opts env w fine e).completed in
      let (text, something) = notice_text-degraded outcome env.managed h in
      let sig = message_signature outcome env.managed in
      (
        next_state sha256 stringify opts env.now w.state
            (half sha256 stringify env.own (previous_own w.state) env.now).1 sig notified,
        c.state,
        ground (arith, c.told, something, h),
      )

  -- A message is told once: when two cycles in a row run to their ends with the same message, the
  -- second says nothing, unless the sync is degraded and the last notice a day old.
  pub repeated-silent :
      (opts : Options) (env env' : Env) (w : World) {w₁ w₂ : World} {o₁ o₂ : AutoSyncOutcome}
      {n₁ n₂ : Bool}
      → is_refusal o₁.own.code ≡ false
      → is_refusal o₂.own.code ≡ false
      → run_auto_sync_cycle sha256 stringify opts env w ≡ (w₁, ran o₁ n₁)
      → run_auto_sync_cycle sha256 stringify opts env' w₁ ≡ (w₂, ran o₂ n₂)
      → notice_lines o₁ env.managed ≡ notice_lines o₂ env'.managed
      → repeat_due w₁.state o₂.own env'.now ≡ false
      → (n₂ ≡ false) × (w₂.reminders ≡ w₁.reminders)
  unfolding next_state is_new_message
  repeated-silent opts env env' w {o₁} {o₂} {n₁} {n₂} f₁ f₂ e₁ e₂ same wait =
      let c₁ = (run-Finished opts env w f₁ e₁).completed in
      let c₂ = (run-Finished opts env' _ f₂ e₂).completed in
      let sig₁ = message_signature o₁ env.managed in
      let sig₂ = message_signature o₂ env'.managed in
      let sigs : sig₁ ≡ sig₂ = ap (λ lines. sha256 (stringify (present lines))) same in
      let silent : n₂ ≡ false =
        ground (arith, c₂.told, c₁.state, sigs, list_beq_iff sig₁ sig₂, wait) in
      (silent, ground (arith, c₂.reminders, silent))

  finish_cycle-refused :
      (opts : Options) (env : Env) (community : List CommunityResult)
      (own : OwnOutcome × OwnSyncState) (w : World) {outcome : AutoSyncOutcome} {notified : Bool}
      → is_refusal outcome.own.code ≡ true
      → (finish_cycle sha256 stringify opts env community own w).1 ≡ ran outcome notified
      → (notified ≡ false) × ((finish_cycle sha256 stringify opts env community own w).0 ≡ w)
  unfolding finish_cycle
  finish_cycle-refused opts env community (own, state) w {outcome} refused e =
      elim (Bool-cases (is_refusal own.code)) [
        | inl same ↦ rw (same, finish_cycle) (ground arith, refl)
        | inr other ↦ absurd (ground arith)
      ]

  -- The same behind the call of the own sync, which only the log shows.
  called-refused :
      (opts : Options) (env : Env) (community : List CommunityResult)
      (own : OwnOutcome × OwnSyncState) (tried : Bool) (w : World) {outcome : AutoSyncOutcome}
      {notified : Bool}
      → is_refusal outcome.own.code ≡ true
      → (finish_cycle sha256 stringify opts env community own (called tried w)).1
        ≡ ran outcome notified
      → (let w' = (finish_cycle sha256 stringify opts env community own (called tried w)).0 in
          (notified ≡ false) × (w'.state ≡ w.state) × (w'.reminders ≡ w.reminders))
  called-refused opts env community own true w refused e =
      let (quiet, same) = finish_cycle-refused opts env community own (called true w) refused e in
      (quiet, ap (λ v. v.state) same, ap (λ v. v.reminders) same)
  called-refused opts env community own false w refused e =
      let (quiet, same) = finish_cycle-refused opts env community own w refused e in
      (quiet, ap (λ v. v.state) same, ap (λ v. v.reminders) same)

  cycle_body-refused :
      (opts : Options) (env : Env) (w : World) {outcome : AutoSyncOutcome} {notified : Bool}
      → is_refusal outcome.own.code ≡ true
      → (cycle_body sha256 stringify opts env w).1 ≡ ran outcome notified
      → (let w' = (cycle_body sha256 stringify opts env w).0 in
          (notified ≡ false) × (w'.state ≡ w.state) × (w'.reminders ≡ w.reminders))
  unfolding cycle_body
  cycle_body-refused opts env w refused e = elim (Option-cases env.community) [
    | inl failed' ↦ absurd (ground arith)
    | inr (community, answered) ↦
        let eq = cycle_body-half sha256 stringify opts env w answered in
        rw eq (
          called-refused opts env community _ (should_attempt (previous_own w.state) env.now) w
            refused (ap (λ b. b.1) (sym eq) ∙ e))
  ]

  -- A cycle that is refused for a dirty or busy worktree tells nobody and writes no state, also when
  -- the sync is degraded and its notice is overdue.
  pub refusal-silent :
      (opts : Options) (env : Env) (w : World) {w' : World} {outcome : AutoSyncOutcome}
      {notified : Bool}
      → is_refusal outcome.own.code ≡ true
      → run_auto_sync_cycle sha256 stringify opts env w ≡ (w', ran outcome notified)
      → (notified ≡ false) × (w'.state ≡ w.state) × (w'.reminders ≡ w.reminders)
  refusal-silent opts env w refused e =
      let v : World = record w {
        sync_lock = (acquire_file_lock env.kill env.me w.sync_lock).0;
        index_lock = (acquire_file_lock env.kill env.me w.index_lock).0;
      } in
      let (ending, state, reminders) = run-body opts env w e in
      let (quiet, kept, silent) = cycle_body-refused opts env v refused ending in
      (quiet, state ∙ kept, reminders ∙ silent)
