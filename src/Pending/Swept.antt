-- ===== src/Pending/Swept.antt =====
-- What a sweep removes: packages/core/src/pendingReminders.ts.
use caveat.Common.{
  ℕ, ◌+◌, ◌*◌, ◌≡◌, refl, sym, ap, Bool, true, false, not, ◌&&◌, Option, none, some, List, [], ◌∷◌,
  map, length, select, all, if◌then◌else◌, ltb, Bool-cases, inl, inr, arith, ◌∙◌,
}
use caveat.Pending.{claim_ttl_ms, ClaimFile, created_at, Outcome, throws, gives}
use caveat.Pending.Sweep.{
  day_ms, Claims, no_claims, unreadable_claims, listed, Directory, some_non_expired,
  has_non_expired_pending_claim, newest_of, scan, Verdict, passed_over, kept, removed, by_age,
  on_stat, sweep_dir, Swept, sweep_all, Days, days, Root, holds, cleanup_stale_pending_dirs,
  maybe_sweep_pending_dirs, mark, is_absent, is_fresh, MaybeSwept, swept, debounced, no_pending_dir,
  Pending, absent, unreadable, negative,
}

-- A time that lies more than so many days back.
abbrev pub is_old : (now n : ℕ) → Option ℕ → Bool
is_old now n none = false
is_old now n (some t) = ltb (t + n * day_ms) now

abbrev pub is_expired : ℕ → Option ClaimFile → Bool
is_expired now none = false
is_expired now (some f) = ltb (claim_ttl_ms + created_at f) now

abbrev pub all_expired : ℕ → Claims → Bool
all_expired now no_claims = true
all_expired now unreadable_claims = false
all_expired now (listed fs) = all (is_expired now) fs

abbrev pub all_old : (now n : ℕ) → Option (List (Option ℕ)) → Bool
all_old now n none = false
all_old now n (some times) = all (is_old now n) times

abbrev pub is_directory : Option (Bool × ℕ) → Bool
is_directory none = false
is_directory (some (b, mtime)) = b

abbrev pub time_of : Option (Bool × ℕ) → Option ℕ
time_of none = none
time_of (some (b, mtime)) = some mtime

-- A directory that may go: its time and those of all that it holds can be read and are old, all its
-- claims can be read and have expired, and it can be removed.
unfoldable pub is_gone : (now n : ℕ) → Directory → Bool
is_gone now n d =
    is_directory d.stat
    && is_old now n (time_of d.stat)
    && all_expired now d.claims
    && all_old now n d.files
    && d.is_removable

-- A directory that stays and is counted.
unfoldable pub is_kept : (now n : ℕ) → Directory → Bool
unfolding is_gone
is_kept now n d = is_directory d.stat && not (is_gone now n d)

abbrev is_removed : Verdict → Bool
is_removed removed = true
is_removed _ = false

claims-expired :
    (now : ℕ) (fs : List (Option ClaimFile))
    → some_non_expired now fs ≡ not (all (is_expired now) fs)
claims-expired now [] = refl
claims-expired now (none ∷ fs) = refl
claims-expired now (some f ∷ fs) = ground (arith, claims-expired now fs)

claims-all_expired :
    (now : ℕ) (c : Claims) → has_non_expired_pending_claim c now ≡ not (all_expired now c)
unfolding has_non_expired_pending_claim
claims-all_expired now no_claims = refl
claims-all_expired now unreadable_claims = refl
claims-all_expired now (listed fs) = claims-expired now fs

-- What the age decides.
abbrev old_enough : (now n : ℕ) → Option ℕ → Bool
old_enough now n none = false
old_enough now n (some newest) = ltb (newest + n * day_ms) now

newest-old :
    (now n newest : ℕ) (fs : List (Option ℕ))
    → old_enough now n (newest_of newest fs)
      ≡ (ltb (newest + n * day_ms) now && all (is_old now n) fs)
newest-old now n newest [] = ground arith
newest-old now n newest (none ∷ fs) = ground arith
newest-old now n newest (some t ∷ fs) =
    ground (arith, newest-old now n newest fs, newest-old now n t fs)

abbrev verdict : (gone stays : Bool) → Verdict
verdict true stays = removed
verdict false true = kept
verdict false false = passed_over

by_age-verdict :
    (now n : ℕ) (r : Bool) (m : Option ℕ)
    → by_age now n r m ≡ verdict (old_enough now n m && r) true
by_age-verdict now n r none = refl
by_age-verdict now n true (some t) = ground arith
by_age-verdict now n false (some t) = ground arith

scan-old :
    (now n t : ℕ) (files : Option (List (Option ℕ)))
    → old_enough now n (scan t files) ≡ (is_old now n (some t) && all_old now n files)
scan-old now n t none = ground arith
scan-old now n t (some fs) = newest-old now n t fs

-- The parts of `is_gone` in the order in which the loop looks at them.
parts :
    (expired old held r : Bool) → (old && expired && held && r) ≡ (expired && (old && held && r))
parts true true held r = refl
parts true false held r = refl
parts false true held r = refl
parts false false held r = refl

choose :
    (expired rest : Bool)
    → (if not expired then kept else verdict rest true) ≡ verdict (expired && rest) true
choose true rest = refl
choose false rest = refl

on_stat-verdict :
    (now n t : ℕ) (d : Directory)
    → on_stat now n d (some (true, t))
      ≡ verdict
          (is_old now n (some t)
            && all_expired now d.claims
            && all_old now n d.files
            && d.is_removable)
          true
on_stat-verdict now n t d =
    rw
      (
        parts (all_expired now d.claims) (is_old now n (some t)) (all_old now n d.files)
            d.is_removable,
        claims-all_expired now d.claims,
        by_age-verdict now n d.is_removable (scan t d.files),
        scan-old now n t d.files,
      )
      (choose (all_expired now d.claims)
        ((is_old now n (some t) && all_old now n d.files) && d.is_removable))

abbrev gone_at : (now n : ℕ) → Directory → Option (Bool × ℕ) → Bool
gone_at now n d s =
    is_directory s
    && is_old now n (time_of s)
    && all_expired now d.claims
    && all_old now n d.files
    && d.is_removable

settled : (b : Bool) → verdict b true ≡ verdict b (not b)
settled true = refl
settled false = refl

stat-verdict :
    (now n : ℕ) (d : Directory) (s : Option (Bool × ℕ))
    → on_stat now n d s ≡ verdict (gone_at now n d s) (is_directory s && not (gone_at now n d s))
stat-verdict now n d none = refl
stat-verdict now n d (some (false, t)) = refl
stat-verdict now n d (some (true, t)) = on_stat-verdict now n t d ∙ settled _

sweep_dir-verdict :
    (now n : ℕ) (d : Directory) → sweep_dir now n d ≡ verdict (is_gone now n d) (is_kept now n d)
unfolding sweep_dir is_gone is_kept
sweep_dir-verdict now n d = stat-verdict now n d d.stat

abbrev pub swept_of : (now n : ℕ) → List Directory → Swept
swept_of now n ds = record {
  removed_paths = map (λ d. d.path) (select (is_gone now n) ds);
  kept_count = length (select (is_kept now n) ds);
}

gone-not_kept : (now n : ℕ) (d : Directory) → is_gone now n d ≡ true → is_kept now n d ≡ false
unfolding is_kept
gone-not_kept now n d g = elim (Bool-cases (is_directory d.stat)) [
  | inl b ↦ rw (g, b) refl
  | inr b ↦ rw (b) refl
]

sweep_all-swept :
    (now n : ℕ) (ds : List Directory)
    → sweep_all now n ds ≡ (select (λ d. not (is_gone now n d)) ds, swept_of now n ds)
unfolding sweep_all
sweep_all-swept now n [] = refl
sweep_all-swept now n (d ∷ ds) =
    rw (sweep_dir-verdict now n d, sweep_all-swept now n ds)
      (elim (Bool-cases (is_gone now n d)) [
        | inl g ↦ rw (g, gone-not_kept now n d g) refl
        | inr g ↦ elim (Bool-cases (is_kept now n d)) [
          | inl k ↦ rw (g, k) refl
          | inr k ↦ rw (g, k) refl
        ]
      ])

-- A sweep of a directory that can be read, for a number of days, removes exactly the session
-- directories whose times can be read and are all older than that, whose claims can be read and have all
-- expired, and which can be removed; it reports their paths in order, and the number of the other
-- directories. Everything else stays.
pub cleanup_stale_pending_dirs-swept :
    (now n : ℕ) (ds : List Directory)
    → cleanup_stale_pending_dirs now (days n) (holds ds)
      ≡ (holds (select (λ d. not (is_gone now n d)) ds), gives (swept_of now n ds))
unfolding cleanup_stale_pending_dirs
cleanup_stale_pending_dirs-swept now n ds = rw (sweep_all-swept now n ds) refl

-- The state behind a sweep that was made and whose marker was written.
debounced_next :
    (now n later : ℕ) (stale : Days) (w : Bool) (marker : Option ℕ) (r : Root × Outcome Swept)
    (s : Swept)
    → is_absent r.0 ≡ false
    → (mark now true marker r).1 ≡ gives (swept s)
    → ltb later (now + n * day_ms) ≡ true
    → maybe_sweep_pending_dirs false later stale (days n) w (mark now true marker r).0
      ≡ ((mark now true marker r).0, gives debounced)
unfolding maybe_sweep_pending_dirs
debounced_next now n later stale w marker (root, throws) s here e soon = cc
debounced_next now n later stale w marker (root, gives t) s here e soon = rw (here, soon) refl

cleanup-absent :
    (now : ℕ) (stale : Days) (root : Root)
    → is_absent (cleanup_stale_pending_dirs now stale root).0 ≡ is_absent root
unfolding cleanup_stale_pending_dirs
cleanup-absent now negative root = refl
cleanup-absent now (days n) absent = refl
cleanup-absent now (days n) unreadable = refl
cleanup-absent now (days n) (holds ds) = refl

picked-swept :
    (a f : Bool) (p : Pending) (q : Pending × Outcome MaybeSwept) (s : Swept)
    → (if a then (p, gives no_pending_dir) else if f then (p, gives debounced) else q).1
      ≡ gives (swept s)
    → ((if a then (p, gives no_pending_dir) else if f then (p, gives debounced) else q) ≡ q)
      × (a ≡ false)
picked-swept true f p q s e = cc
picked-swept false true p q s e = cc
picked-swept false false p q s e = (refl, refl)

-- After a sweep that wrote its marker, a call with a debounce of `n` days that comes sooner than `n` days
-- later sweeps nothing and changes nothing.
pub maybe_sweep_pending_dirs-debounced :
    (now later n : ℕ) (stale stale' first : Days) (w : Bool) (p : Pending) (s : Swept)
    → (maybe_sweep_pending_dirs false now stale first true p).1 ≡ gives (swept s)
    → ltb later (now + n * day_ms) ≡ true
    → maybe_sweep_pending_dirs false later stale'
        (days n)
        w
        (maybe_sweep_pending_dirs false now stale first true p).0
      ≡ ((maybe_sweep_pending_dirs false now stale first true p).0, gives debounced)
unfolding maybe_sweep_pending_dirs
maybe_sweep_pending_dirs-debounced now later n stale stale' negative w p s e soon = cc
maybe_sweep_pending_dirs-debounced now later n stale stale' (days m) w p s e soon =
    let r : Root × Outcome Swept = cleanup_stale_pending_dirs now stale p.root in
    let (whole, here) =
      picked-swept (is_absent p.root) (is_fresh now m p.marker) p (mark now true p.marker r) s e in
    rw (whole) (
      debounced_next now n later stale' w p.marker r s (cleanup-absent now stale p.root ∙ here)
        (sym (ap (λ x. x.1) whole) ∙ e) soon)
