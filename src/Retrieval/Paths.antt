-- ===== src/Retrieval/Paths.antt =====
-- `stripFsPaths` of packages/core/src/claudeHooks.ts: its three replacements as scanners.
use caveat.Common.{
  ℕ, Bool, true, false, not, ◌&&◌, ◌||◌, [], ◌∷◌, Text, if◌then◌else◌, leb, nat_beq, is_space,
}

-- `\\\\[^\s]+` at the head of the text.
abbrev unc_here : Text → Bool
unc_here (a ∷ b ∷ c ∷ cs) = nat_beq a 92 && nat_beq b 92 && not (is_space c)
unc_here _ = false

-- `replace(/\\\\[^\s]+/g, ' ')`; the flag says that the scanner is inside a match.
abbrev pub strip_unc : Bool → Text → Text
strip_unc inside [] = []
strip_unc inside (c ∷ cs) = elim (inside && not (is_space c)) [
  | true ↦ strip_unc true cs
  | false ↦ elim (unc_here (c ∷ cs)) [
    | true ↦ 32 ∷ strip_unc true cs
    | false ↦ c ∷ strip_unc false cs
  ]
]

-- `[\s=>"'(]`
abbrev is_delimiter : ℕ → Bool
is_delimiter c =
    is_space c || nat_beq c 61 || nat_beq c 62 || nat_beq c 34 || nat_beq c 39 || nat_beq c 40

-- `start`: at the beginning of the text. `inside`: behind a kept character. `skipping`: inside a
-- match, whose last character was a slash or not.
pub data Mode : Type 0 where
  start inside : Mode
  skipping : (slash : Bool) → Mode

pub data Action : Type 0 where
  -- The match goes on, one begins here, one begins behind this character, none does.
  drop_it cut cut_after keep : Action

abbrev at_character : (here : Text → Bool) → ℕ → Text → Action
at_character here c cs = if is_delimiter c && here cs then cut_after else keep

abbrev action : (here : Text → Bool) (goes_on : Bool → ℕ → Bool) → Mode → ℕ → Text → Action
action here goes_on start c cs = if here (c ∷ cs) then cut else at_character here c cs
action here goes_on inside c cs = at_character here c cs
action here goes_on (skipping slash) c cs =
    if goes_on slash c then drop_it else at_character here c cs

-- `replace(/(^|[\s=>"'(])…/g, '$1 ')` with the rest of the pattern given by its test and its end.
abbrev pub strip_after : (here : Text → Bool) (goes_on : Bool → ℕ → Bool) → Mode → Text → Text
strip_after here goes_on mode [] = []
strip_after here goes_on mode (c ∷ cs) = elim (action here goes_on mode c cs) [
  | drop_it ↦ strip_after here goes_on (skipping (nat_beq c 47)) cs
  | cut ↦ 32 ∷ strip_after here goes_on (skipping (nat_beq c 47)) cs
  | cut_after ↦ c ∷ 32 ∷ strip_after here goes_on (skipping false) cs
  | keep ↦ c ∷ strip_after here goes_on inside cs
]

abbrev is_ascii_letter : ℕ → Bool
is_ascii_letter c = (leb 65 c && leb c 90) || (leb 97 c && leb c 122)

-- `[A-Za-z]:[\\/]`
abbrev drive_here : Text → Bool
drive_here (a ∷ b ∷ c ∷ cs) = is_ascii_letter a && nat_beq b 58 && (nat_beq c 92 || nat_beq c 47)
drive_here _ = false

-- `[^\s]*`
abbrev drive_goes_on : Bool → ℕ → Bool
drive_goes_on slash c = not (is_space c)

-- `[^\s/]+\/`; the flag says that a character of the segment was read.
abbrev segment_here : Bool → Text → Bool
segment_here some_read [] = false
segment_here some_read (c ∷ cs) =
    if nat_beq c 47 then some_read else not (is_space c) && segment_here true cs

-- `\/(?:[^\s/]+\/)+`, once
abbrev posix_here : Text → Bool
posix_here [] = false
posix_here (c ∷ cs) = nat_beq c 47 && segment_here false cs

-- `(?:[^\s/]+\/)+[^\s/]*`: a second slash in a row ends it.
abbrev posix_goes_on : Bool → ℕ → Bool
posix_goes_on slash c = not (is_space c) && not (slash && nat_beq c 47)

-- `stripFsPaths`
unfoldable pub strip_fs_paths : Text → Text
strip_fs_paths s =
    strip_after posix_here posix_goes_on start
      (strip_after drive_here drive_goes_on start (strip_unc false s))
