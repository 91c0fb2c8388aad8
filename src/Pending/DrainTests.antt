-- ===== src/Pending/DrainTests.antt =====
-- Drains of small directories. Names are compared by their first letters.
use caveat.Common.{◌≡◌, refl, Bool, true, false, not, some, List, [], ◌∷◌, Text, codes, select, leb}
use mathlib.Core.List.{Perm}
use caveat.Pending.{gives}
use caveat.Pending.Queue.{
  QueueFile, holds, is_queued, sort, drain_entries, drain_pending_reminders_detailed, peek_entries,
  peek_pending_reminders_detailed, acknowledge, acknowledge_pending_reminders,
}
use caveat.Pending.Drained.{goes, results, drain_pending_reminders_detailed-results}

drains : Unit {0}
unfolding drain_pending_reminders_detailed drain_entries sort is_queued peek_entries
    peek_pending_reminders_detailed acknowledge acknowledge_pending_reminders
drains = tt

abbrev name_le : Text → Text → Bool
name_le [] t = true
name_le (c ∷ s) [] = false
name_le (c ∷ s) (d ∷ t) = leb c d

abbrev late : QueueFile
late = record {
  name = codes "a.txt";
  text = codes "late";
  mtime = some 9;
  is_readable = true;
  is_removable = true;
}

abbrev early : QueueFile
early = record {
  name = codes "b.ready";
  text = codes "early";
  mtime = some 4;
  is_readable = true;
  is_removable = false;
}

abbrev torn : QueueFile
torn = record late { name = codes "c.txt"; mtime = some 5; is_readable = false }

abbrev marker : QueueFile
marker = record late { name = codes "d.tmp" }

abbrev files : List QueueFile
files = late ∷ early ∷ torn ∷ marker ∷ []

drain_run : drain_pending_reminders_detailed name_le true (holds files) ≡ (
  holds (early ∷ torn ∷ marker ∷ []),
  record {
    reminders = codes "early" ∷ codes "late" ∷ [];
    cleanup_failures = codes "b.ready" ∷ codes "c.txt" ∷ [];
  },
)
unfolding drains
drain_run = refl

peek_run :
    peek_pending_reminders_detailed name_le true (holds files)
    ≡ gives (record {
      reminders = (codes "b.ready", codes "early") ∷ (codes "a.txt", codes "late") ∷ [];
      read_failures = codes "c.txt" ∷ [];
    })
unfolding drains
peek_run = refl

acknowledge_run :
    acknowledge_pending_reminders true ((true, codes "a.txt") ∷ (true, codes "gone") ∷ []) files
    ≡ (early ∷ torn ∷ marker ∷ [], gives tt)
unfolding drains
acknowledge_run = refl

drain_pending_reminders_detailed-results_example :
    (drain_pending_reminders_detailed name_le true (holds files) ≡ (
      holds (select (λ g. not (goes (select is_queued files) g)) files),
      results (sort name_le (select is_queued files)),
    ))
    × Perm (sort name_le (select is_queued files)) (select is_queued files)
drain_pending_reminders_detailed-results_example =
    drain_pending_reminders_detailed-results name_le files
