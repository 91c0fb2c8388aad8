-- ===== src/Pending/Drained.antt =====
-- What a drain gives and leaves: packages/core/src/pendingReminders.ts.
use caveat.Common.{
  ◌≡◌, refl, sym, ap, ◌∙◌, Bool, true, false, not, ◌&&◌, ◌||◌, List, [], ◌∷◌, map, Text,
  if◌then◌else◌, select, any, list_eq, nat_eq, ◌==◌, Bool-cases, inl, inr,
}
use mathlib.Core.List.{Perm}
use mathlib.Core.List.Perm
use caveat.Pending.Queue.{
  QueueFile, holds, is_queued, before, insert, sort, unlink, DrainResult, note, drain_entries,
  drain_pending_reminders_detailed,
}

abbrev pub is_delivered : QueueFile → Bool
is_delivered f = f.is_readable && f.is_removable

-- A file that goes: an entry of its name can be read and removed.
abbrev pub goes : List QueueFile → QueueFile → Bool
goes entries g = any (λ f. is_delivered f && f.name == g.name) entries

abbrev pub results : List QueueFile → DrainResult
results fs = record {
  reminders = map (λ f. f.text) (select (λ f. f.is_readable) fs);
  cleanup_failures = map (λ f. f.name) (select (λ f. not (is_delivered f)) fs);
}

select-select :
    (p q : QueueFile → Bool) (fs : List QueueFile)
    → select p (select q fs) ≡ select (λ f. q f && p f) fs
select-select p q [] = refl
select-select p q (f ∷ fs) = elim (Bool-cases (q f)) [
  | inl a ↦ elim (Bool-cases (p f)) [
    | inl b ↦ rw (a, b, select-select p q fs) refl
    | inr b ↦ rw (a, b, select-select p q fs) refl
  ]
  | inr a ↦ rw (a, select-select p q fs) refl
]

select-cong :
    (p q : QueueFile → Bool) (fs : List QueueFile)
    → ((f : QueueFile) → p f ≡ q f)
    → select p fs ≡ select q fs
select-cong p q [] h = refl
select-cong p q (f ∷ fs) h = rw (h f, select-cong p q fs h) refl

note-results : (f : QueueFile) (fs : List QueueFile) → note f (results fs) ≡ results (f ∷ fs)
note-results f fs = elim (Bool-cases f.is_readable) [
  | inr a ↦ rw (a) refl
  | inl a ↦ elim (Bool-cases f.is_removable) [ inl b ↦ rw (a, b) refl | inr b ↦ rw (a, b) refl ]
]

all_stay : (fs : List QueueFile) → select (λ g. not false) fs ≡ fs
all_stay [] = refl
all_stay (f ∷ fs) = ap (λ x. f ∷ x) (all_stay fs)

-- The files that an entry leaves, and then the entries behind it.
left_by : (b same rest : Bool) → b ≡ true → (not same && not rest) ≡ not ((b && same) || rest)
left_by true true rest e = refl
left_by true false rest e = refl
left_by false same rest e = cc

drain_entries-results :
    (fs files : List QueueFile)
    → drain_entries fs files ≡ (select (λ g. not (goes fs g)) files, results fs)
unfolding drain_entries
drain_entries-results [] files = ap (λ x. (x, results [])) (sym (all_stay files))
drain_entries-results (f ∷ fs) files =
    rw
      (
        drain_entries-results fs
            (if f.is_readable && f.is_removable then unlink f.name files else files),
        note-results f fs,
      )
      (ap (λ x. (x, results (f ∷ fs)))
        (elim (Bool-cases (is_delivered f)) [
          | inl d ↦ rw (d) (
              select-select (λ g. not (goes fs g)) (λ g. not (f.name == g.name)) files
              ∙ select-cong _ _ files (λ g. left_by true (f.name == g.name) (goes fs g) refl))
          | inr d ↦ rw (d) refl
        ]))

or_swap : (a b c : Bool) → (b || (a || c)) ≡ (a || (b || c))
or_swap true true c = refl
or_swap true false c = refl
or_swap false true c = refl
or_swap false false c = refl

module _ (name_le : Text → Text → Bool) where
  insert-Perm : (f : QueueFile) (gs : List QueueFile) → Perm (insert name_le f gs) (f ∷ gs)
  insert-Perm f [] = Perm.refl _
  insert-Perm f (g ∷ gs) = elim (Bool-cases (before name_le f g)) [
    | inl b ↦ rw b (Perm.refl _)
    | inr b ↦ rw b (Perm.trans (Perm.cons g (insert-Perm f gs)) (Perm.swap f g gs))
  ]

  sort-Perm : (fs : List QueueFile) → Perm (sort name_le fs) fs
  unfolding sort
  sort-Perm [] = Perm.refl []
  sort-Perm (f ∷ fs) = Perm.trans (insert-Perm f (sort name_le fs)) (Perm.cons f (sort-Perm fs))

  any-insert :
      (p : QueueFile → Bool) (f : QueueFile) (gs : List QueueFile)
      → any p (insert name_le f gs) ≡ any p (f ∷ gs)
  any-insert p f [] = refl
  any-insert p f (g ∷ gs) = elim (Bool-cases (before name_le f g)) [
    | inl b ↦ rw b refl
    | inr b ↦ rw (b, any-insert p f gs) (or_swap (p f) (p g) (any p gs))
  ]

  any-sort : (p : QueueFile → Bool) (fs : List QueueFile) → any p (sort name_le fs) ≡ any p fs
  unfolding sort
  any-sort p [] = refl
  any-sort p (f ∷ fs) = any-insert p f (sort name_le fs) ∙ ap (λ b. p f || b) (any-sort p fs)

-- A drain under the lock looks at the queued files in some order, by the comparison: it gives the texts of
-- those that can be read, once each, and the names of those that cannot be read or removed; the files
-- whose names are those of queued files that can be read and removed are gone, and all others stay.
pub drain_pending_reminders_detailed-results :
    (name_le : Text → Text → Bool) (files : List QueueFile)
    → (drain_pending_reminders_detailed name_le true (holds files) ≡ (
      holds (select (λ g. not (goes (select is_queued files) g)) files),
      results (sort name_le (select is_queued files)),
    ))
      × Perm (sort name_le (select is_queued files)) (select is_queued files)
unfolding drain_pending_reminders_detailed
drain_pending_reminders_detailed-results name_le files =
    let entries = select is_queued files in
    (
      rw (drain_entries-results (sort name_le entries) files) (
          ap (λ x. (holds x, results (sort name_le entries)))
            (select-cong _ _ files
              (λ g. ap not (any-sort name_le (λ f. is_delivered f && f.name == g.name) entries)))),
      sort-Perm name_le entries,
    )
