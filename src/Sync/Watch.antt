-- ===== src/Sync/Watch.antt =====
-- A watch over the calls of a sync: which push URLs are still to be probed, and whether the index
-- was rebuilt since the files changed.
use caveat.Common.{
  ◌≡◌, refl, Bool, true, false, ◌&&◌, Option, none, some, List, [], ◌∷◌, ◌++◌, Text, if◌then◌else◌,
  ◌==◌, list_eq, nat_eq, beq_refl,
}
use caveat.AutoSync.{RemoteAccess}
use caveat.Sync.{Call, targets, probed, reindex, pushed, World, log}
use caveat.Sync.Quiet.{is_question}
use caveat.Sync.Cleared.{is_private}

pub record Watch : Type 0 where
  -- The push URLs that git named last and no verdict cleared; `none` before it named any.
  pub left : Option (List Text)
  pub indexed : Bool
  -- Every push so far came when no URL was left; and when the index was rebuilt.
  pub private_only : Bool
  pub indexed_only : Bool

abbrev start : Watch
start = record { left = none; indexed = false; private_only = true; indexed_only = true }

abbrev pub is_cleared : Option (List Text) → Bool
is_cleared (some []) = true
is_cleared _ = false

-- A verdict clears the first URL that is left, when it is its own and lets the push go on.
abbrev pub clear : Bool → Text → RemoteAccess → Option (List Text) → Option (List Text)
clear trust url verdict none = none
clear trust url verdict (some []) = some []
clear trust url verdict (some (u ∷ us)) =
    if u == url && is_private trust verdict then some us else some (u ∷ us)

abbrev pub change : Bool → Call → Watch → Watch
change trust (targets urls) s = record s { left = some urls }
change trust (probed url verdict) s = record s { left = clear trust url verdict s.left }
change trust reindex s = record s { indexed = true }
change trust (pushed branch) s = record s {
  private_only = s.private_only && is_cleared s.left;
  indexed_only = s.indexed_only && s.indexed;
}
change trust c s = record s { indexed = false }

abbrev pub see : Bool → Call → Watch → Watch
see trust c s = if is_question c then s else change trust c s

abbrev watch_from : Bool → Watch → List Call → Watch
watch_from trust s [] = s
watch_from trust s (c ∷ cs) = watch_from trust (see trust c s) cs

unfoldable pub watch : Bool → List Call → Watch
watch trust calls = watch_from trust start calls

watch_from-snoc :
    (trust : Bool) (s : Watch) (cs : List Call) (c : Call)
    → watch_from trust s (cs ++ c ∷ []) ≡ see trust c (watch_from trust s cs)
watch_from-snoc trust s [] c = refl
watch_from-snoc trust s (d ∷ cs) c = watch_from-snoc trust (see trust d s) cs c

module _ (trust : Bool) where
  -- What was seen up to a world.
  abbrev pub seen : World → Watch
  seen w = watch trust w.trace

  pub seen-log : (c : Call) (w : World) → seen (log c w) ≡ see trust c (seen w)
  unfolding watch
  seen-log c w = watch_from-snoc trust start w.trace c

  abbrev pub IsPrivate : World → Type 0
  IsPrivate w = (seen w).private_only ≡ true

  -- The URLs that are left.
  abbrev pub Left : List Text → World → Type 0
  Left urls w = IsPrivate w × ((seen w).left ≡ some urls)

  pub question-seen : (c : Call) → is_question c ≡ true → (w : World) → seen (log c w) ≡ seen w
  question-seen c q w = rw (seen-log c w, q) refl

  pub targets-Left : (urls : List Text) (w : World) → IsPrivate w → Left urls (log (targets urls) w)
  targets-Left urls w p = rw (seen-log (targets urls) w) (p, refl)

  pub probed-Left :
      (url : Text) (urls : List Text) (verdict : RemoteAccess)
      → is_private trust verdict ≡ true
      → (w : World) → Left (url ∷ urls) w
      → Left urls (log (probed url verdict) w)
  probed-Left url urls verdict good w (p, l) =
      rw (seen-log (probed url verdict) w, l, beq_refl url, good) (p, refl)

  pub probed-IsPrivate :
      (url : Text) (verdict : RemoteAccess) (w : World)
      → IsPrivate w
      → IsPrivate (log (probed url verdict) w)
  probed-IsPrivate url verdict w p = rw (seen-log (probed url verdict) w) p

  -- And every push came when the index was rebuilt.
  abbrev pub IsSafe : World → Type 0
  IsSafe w = IsPrivate w × ((seen w).indexed_only ≡ true)

  abbrev pub SafeLeft : List Text → World → Type 0
  SafeLeft urls w = Left urls w × ((seen w).indexed_only ≡ true)

  -- All is ready for the push.
  abbrev pub IsReady : World → Type 0
  IsReady w = SafeLeft [] w × ((seen w).indexed ≡ true)

  pub targets-SafeLeft :
      (urls : List Text) (w : World) → IsSafe w → SafeLeft urls (log (targets urls) w)
  targets-SafeLeft urls w (p, i) = (targets-Left urls w p, rw (seen-log (targets urls) w) i)

  pub probed-SafeLeft :
      (url : Text) (urls : List Text) (verdict : RemoteAccess)
      → is_private trust verdict ≡ true
      → (w : World) → SafeLeft (url ∷ urls) w
      → SafeLeft urls (log (probed url verdict) w)
  probed-SafeLeft url urls verdict good w (p, i) =
      (probed-Left url urls verdict good w p, rw (seen-log (probed url verdict) w) i)

  pub probed-IsSafe :
      (url : Text) (verdict : RemoteAccess) (w : World)
      → IsSafe w
      → IsSafe (log (probed url verdict) w)
  probed-IsSafe url verdict w (p, i) =
      (probed-IsPrivate url verdict w p, rw (seen-log (probed url verdict) w) i)

  pub reindex-IsReady : (w : World) → SafeLeft [] w → IsReady (log reindex w)
  reindex-IsReady w p = rw (seen-log reindex w) (p, refl)

  pub pushed-Left : (branch : Text) (w : World) → Left [] w → Left [] (log (pushed branch) w)
  pushed-Left branch w (p, l) = rw (seen-log (pushed branch) w, p, l) (refl, refl)

  pub pushed-SafeLeft :
      (branch : Text) (w : World) → IsReady w → SafeLeft [] (log (pushed branch) w)
  pushed-SafeLeft branch w ((l, i), r) =
      (pushed-Left branch w l, rw (seen-log (pushed branch) w, i, r) refl)
