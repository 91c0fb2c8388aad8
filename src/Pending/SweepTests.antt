-- ===== src/Pending/SweepTests.antt =====
-- Sweeps of small directories.
use caveat.Common.{ℕ, ◌≡◌, refl, true, false, not, none, some, List, [], ◌∷◌, codes, select}
use caveat.Pending.{parsed, torn, created_at, gives}
use caveat.Pending.Sweep.{
  no_claims, listed, has_non_expired_pending_claim, Directory, sweep_dir, sweep_all, days, holds,
  cleanup_stale_pending_dirs, maybe_sweep_pending_dirs, Pending, swept, debounced,
}
use caveat.Pending.Swept.{
  is_gone, is_kept, swept_of, cleanup_stale_pending_dirs-swept, maybe_sweep_pending_dirs-debounced,
}

sweeps : Unit {0}
unfolding has_non_expired_pending_claim sweep_dir sweep_all cleanup_stale_pending_dirs
    maybe_sweep_pending_dirs is_gone is_kept created_at
sweeps = tt

abbrev old : Directory
old = record {
  path = codes "old";
  stat = some (true, 5);
  claims = no_claims;
  files = some (some 7 ∷ []);
  is_removable = true;
}

-- A claim that was made an hour ago has expired; the file beside it is new.
abbrev used : Directory
used = record old {
  path = codes "used";
  claims = listed (some (record { text = parsed none (some 700000000); mtime = 5 }) ∷ []);
  files = some (some 700000000 ∷ []);
}

-- Its claim, torn, is of this minute.
abbrev building : Directory
building = record old {
  path = codes "building";
  claims = listed (some (record { text = torn; mtime = 703600000 }) ∷ []);
}

-- The marker.
abbrev marker : Directory
marker = record old { path = codes ".last-sweep"; stat = some (false, 5) }

abbrev dirs : List Directory
dirs = old ∷ used ∷ building ∷ marker ∷ []

abbrev now : ℕ
now = 703600001

sweep_run : cleanup_stale_pending_dirs now (days 7) (holds dirs) ≡ (
  holds (used ∷ building ∷ marker ∷ []),
  gives (record { removed_paths = codes "old" ∷ []; kept_count = 2 }),
)
unfolding sweeps
sweep_run = refl

cleanup_stale_pending_dirs-swept_example :
    cleanup_stale_pending_dirs now (days 7) (holds dirs)
    ≡ (holds (select (λ d. not (is_gone now 7 d)) dirs), gives (swept_of now 7 dirs))
cleanup_stale_pending_dirs-swept_example = cleanup_stale_pending_dirs-swept now 7 dirs

abbrev pending : Pending
pending = record { root = holds dirs; marker = some 3 }

first_sweep :
    (maybe_sweep_pending_dirs false now (days 7) (days 1) true pending).1
    ≡ gives (swept (record { removed_paths = codes "old" ∷ []; kept_count = 2 }))
unfolding sweeps
first_sweep = refl

maybe_sweep_pending_dirs-debounced_example :
    maybe_sweep_pending_dirs false 703600002
      (days 7)
      (days 1)
      true
      (maybe_sweep_pending_dirs false now (days 7) (days 1) true pending).0
    ≡ ((maybe_sweep_pending_dirs false now (days 7) (days 1) true pending).0, gives debounced)
maybe_sweep_pending_dirs-debounced_example =
    maybe_sweep_pending_dirs-debounced now 703600002 1 (days 7) (days 7) (days 1) true pending
      (record { removed_paths = codes "old" ∷ []; kept_count = 2 }) first_sweep refl
