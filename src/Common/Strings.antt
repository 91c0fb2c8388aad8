-- ===== src/Common/Strings.antt =====
-- JavaScript strings as lists of UTF-16 code units, and the operations that the code calls.
use Prim.Native.Nat.{ℕ}
use Prim.Native.Char.{code}
use Prim.Native.String.{String}
use mathlib.Core.Bool.{Bool, true, false, ◌&&◌, ◌||◌}
use mathlib.Core.List.{List, [], ◌∷◌, ◌++◌}
use caveat.Common.Tests.{if◌then◌else◌, leb, nat_beq}
use caveat.Common.Equal.{nat_eq}

abbrev pub Text : Type 0
Text = List ℕ

-- The code units of a literal, all of whose characters stand in the basic plane.
abbrev pub codes : String → Text
codes String.[] = []
codes (String.◌∷◌ c s) = code c ∷ codes s

-- `text.startsWith(prefix)`
abbrev pub starts_with : Text → Text → Bool
starts_with [] t = true
starts_with (p ∷ ps) [] = false
starts_with (p ∷ ps) (c ∷ cs) = nat_beq p c && starts_with ps cs

-- `text.includes(part)`
abbrev pub includes : Text → Text → Bool
includes part [] = starts_with part []
includes part (c ∷ cs) = starts_with part (c ∷ cs) || includes part cs

-- `parts.join(separator)`
abbrev pub join : Text → List Text → Text
join sep [] = []
join sep (t ∷ []) = t
join sep (t ∷ u ∷ ts) = t ++ (sep ++ join sep (u ∷ ts))

-- What `\s` matches.
abbrev pub is_space : ℕ → Bool
is_space c =
    (leb 9 c && leb c 13)
    || nat_beq c 32
    || nat_beq c 160
    || nat_beq c 0x1680
    || (leb 0x2000 c && leb c 0x200a)
    || nat_beq c 0x2028
    || nat_beq c 0x2029
    || nat_beq c 0x202f
    || nat_beq c 0x205f
    || nat_beq c 0x3000
    || nat_beq c 0xfeff

-- `text.replace(/\s+/g, ' ')`; the flag says that the character before was a space of the run.
abbrev pub one_spaces : Bool → Text → Text
one_spaces run [] = []
one_spaces run (c ∷ cs) = elim (is_space c) [
  | true ↦ if run then one_spaces true cs else 32 ∷ one_spaces true cs
  | false ↦ c ∷ one_spaces false cs
]

abbrev pub trim_start : Text → Text
trim_start [] = []
trim_start (c ∷ cs) = if is_space c then trim_start cs else c ∷ cs

abbrev pub trim_last : ℕ → Text → Text
trim_last c [] = if is_space c then [] else c ∷ []
trim_last c (d ∷ ds) = c ∷ d ∷ ds

abbrev pub trim_end : Text → Text
trim_end [] = []
trim_end (c ∷ cs) = trim_last c (trim_end cs)

-- `text.trim()`
abbrev pub trim : Text → Text
trim t = trim_end (trim_start t)

abbrev pub grow : ℕ → List Text → List Text
grow c [] = (c ∷ []) ∷ []
grow c (t ∷ ts) = (c ∷ t) ∷ ts

-- `text.split(separator)` by one character that the test names.
abbrev pub split : (ℕ → Bool) → Text → List Text
split sep [] = [] ∷ []
split sep (c ∷ cs) = if sep c then [] ∷ split sep cs else grow c (split sep cs)
