-- ===== src/Pending/Queue.antt =====
-- The reminders that wait in the directory of a session: how packages/core/src/pendingReminders.ts
-- peeks, acknowledges and drains them. `name_le` is `localeCompare`.
use caveat.Common.{
  ℕ, Bool, true, false, not, ◌&&◌, ◌||◌, Option, none, some, List, [], ◌∷◌, Text, codes,
  if◌then◌else◌, ltb, nat_beq, length, drop, ◌-◌, select, any, list_eq, nat_eq, ◌==◌,
}
use caveat.Pending.{Outcome, throws, gives}

-- A file, with what the disk answers about it: its time (`none` when `statSync` throws), and whether it
-- can be read and removed.
pub record QueueFile : Type 0 where
  pub name : Text
  pub text : Text
  pub mtime : Option ℕ
  pub is_readable : Bool
  pub is_removable : Bool

pub data Queue : Type 0 where
  absent unreadable : Queue
  holds : List QueueFile → Queue

abbrev ends_with : Text → Text → Bool
ends_with suffix text = drop (length text - length suffix) text == suffix

-- `.txt` or `.ready`
unfoldable pub is_queued : QueueFile → Bool
is_queued f = ends_with (codes ".txt") f.name || ends_with (codes ".ready") f.name

module _ (name_le : Text → Text → Bool) where
  abbrev by_time : Bool → Option ℕ → Option ℕ → Bool
  by_time by_name (some s) (some t) = if nat_beq s t then by_name else ltb s t
  by_time by_name (some s) none = by_name
  by_time by_name none t = by_name

  -- The comparison of the drain: by time, then by name; by name alone where a time cannot be read.
  abbrev pub before : QueueFile → QueueFile → Bool
  before f g = by_time (name_le f.name g.name) f.mtime g.mtime

  abbrev pub insert : QueueFile → List QueueFile → List QueueFile
  insert f [] = f ∷ []
  insert f (g ∷ gs) = let rest = insert f gs in if before f g then f ∷ g ∷ gs else g ∷ rest

  -- `entries.sort`, which is stable.
  unfoldable pub sort : List QueueFile → List QueueFile
  sort [] = []
  sort (f ∷ fs) = insert f (sort fs)

-- `unlinkSync`
abbrev pub unlink : Text → List QueueFile → List QueueFile
unlink name files = select (λ g. not (name == g.name)) files

-- `PendingDrainResult`
pub record DrainResult : Type 0 where
  pub reminders : List Text
  pub cleanup_failures : List Text

abbrev pub fail : Text → DrainResult → DrainResult
fail name r = record r { cleanup_failures = name ∷ r.cleanup_failures }

abbrev pub deliver : Text → DrainResult → DrainResult
deliver text r = record r { reminders = text ∷ r.reminders }

-- What becomes of an entry in the result.
abbrev pub note : QueueFile → DrainResult → DrainResult
note f r =
    if not f.is_readable
    then fail f.name r
    else if f.is_removable
    then deliver f.text r
    else deliver f.text (fail f.name r)

-- The loop over the sorted entries, with the files that are left.
unfoldable pub drain_entries : List QueueFile → List QueueFile → List QueueFile × DrainResult
drain_entries [] files = (files, record { reminders = []; cleanup_failures = [] })
drain_entries (f ∷ fs) files =
    let (left, r) =
      drain_entries fs (if f.is_readable && f.is_removable then unlink f.name files else files) in
    (left, note f r)

abbrev only_failure : Text → DrainResult
only_failure text = record { reminders = []; cleanup_failures = text ∷ [] }

abbrev pub held : List QueueFile × DrainResult → Queue × DrainResult
held (files, r) = (holds files, r)

-- `drainPendingRemindersDetailed`; `locks` says whether the queue lock is had.
unfoldable pub drain_pending_reminders_detailed :
    (name_le : Text → Text → Bool) (locks : Bool) → Queue → Queue × DrainResult
unfolding is_queued sort drain_entries
drain_pending_reminders_detailed name_le locks absent =
    (absent, record { reminders = []; cleanup_failures = [] })
drain_pending_reminders_detailed name_le false q =
    (q, only_failure (codes "pending queue lock unavailable"))
drain_pending_reminders_detailed name_le true unreadable =
    (unreadable, only_failure (codes "pending directory read failed"))
drain_pending_reminders_detailed name_le true (holds files) =
    held (drain_entries (sort name_le (select is_queued files)) files)

-- `drainPendingReminders`
unfoldable pub drain_pending_reminders :
    (name_le : Text → Text → Bool) (locks : Bool) → Queue → Queue × List Text
unfolding drain_pending_reminders_detailed
drain_pending_reminders name_le locks q =
    let (q', r) = drain_pending_reminders_detailed name_le locks q in (q', r.reminders)

-- `PendingPeekResult`
pub record PeekResult : Type 0 where
  pub reminders : List (Text × Text)
  pub read_failures : List Text

unfoldable pub peek_entries : List QueueFile → PeekResult
peek_entries [] = record { reminders = []; read_failures = [] }
peek_entries (f ∷ fs) =
    let r = peek_entries fs in
    if f.is_readable
    then record r { reminders = (f.name, f.text) ∷ r.reminders }
    else record r { read_failures = f.name ∷ r.read_failures }

abbrev has_time : QueueFile → Bool
has_time f = elim f.mtime [ none ↦ false | some t ↦ true ]

abbrev is_single : List QueueFile → Bool
is_single [] = true
is_single (f ∷ []) = true
is_single (f ∷ g ∷ fs) = false

-- The comparison of the peek throws at a time that cannot be read, when there is one.
abbrev peek_sorted : (name_le : Text → Text → Bool) → List QueueFile → Outcome PeekResult
peek_sorted name_le fs =
    if is_single fs || not (any (λ f. not (has_time f)) fs)
    then gives (peek_entries (sort name_le fs))
    else throws

-- `peekPendingRemindersDetailed`; the names stand for the paths.
unfoldable pub peek_pending_reminders_detailed :
    (name_le : Text → Text → Bool) (locks : Bool) → Queue → Outcome PeekResult
unfolding is_queued sort peek_entries
peek_pending_reminders_detailed name_le locks absent =
    gives (record { reminders = []; read_failures = [] })
peek_pending_reminders_detailed name_le false q = throws
peek_pending_reminders_detailed name_le true unreadable = throws
peek_pending_reminders_detailed name_le true (holds files) =
    peek_sorted name_le (select is_queued files)

-- A file that is there and cannot be removed.
abbrev is_stuck : Text → List QueueFile → Bool
is_stuck name files = any (λ g. name == g.name && not g.is_removable) files

-- The loop of `acknowledgePendingReminders`; the flag says that a path lies below `pending`. What was
-- removed before an error stays removed.
unfoldable pub acknowledge :
    List (Bool × Text) → List QueueFile → List QueueFile × Outcome (Unit {0})
acknowledge [] files = (files, gives tt)
acknowledge ((below, name) ∷ paths) files =
    let rest = acknowledge paths (unlink name files) in
    if not below then (files, throws) else if is_stuck name files then (files, throws) else rest

-- `acknowledgePendingReminders`, for the files of one session.
unfoldable pub acknowledge_pending_reminders :
    (locks : Bool) → List (Bool × Text) → List QueueFile → List QueueFile × Outcome (Unit {0})
unfolding acknowledge
acknowledge_pending_reminders locks [] files = (files, gives tt)
acknowledge_pending_reminders false (p ∷ ps) files = (files, throws)
acknowledge_pending_reminders true (p ∷ ps) files = acknowledge (p ∷ ps) files
