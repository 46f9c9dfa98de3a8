-- ===== src/Common/Lines.antt =====
-- `str::lines`, `str::split_whitespace` and the prefixes and splits at a character.
use titan_ssh.Common.Tests.{nat_eq, ◌==◌, if◌then◌else◌}
use titan_ssh.Common.Lists.{retain, is_empty}
use titan_ssh.Common.Texts.{Text, is_whitespace}
use Prim.Native.Nat.{ℕ}
use mathlib.Core.Bool.{Bool, false, not, ◌&&◌}
use mathlib.Core.List.{List, [], ◌∷◌}
use mathlib.Core.Option.{Option, none, some}

-- One more character in front of the first piece.
abbrev pub push : ℕ → List Text → List Text
push c [] = (c ∷ []) ∷ []
push c (l ∷ ls) = (c ∷ l) ∷ ls

abbrev pub starts_with_char : ℕ → Text → Bool
starts_with_char c [] = false
starts_with_char c (d ∷ s) = c == d

-- A line ends with a line feed, with or without a carriage return before it; the last needs none.
unfoldable pub lines : Text → List Text
lines [] = []
lines (c ∷ s) =
    let rest = lines s in
    if c == 10 then [] ∷ rest else if c == 13 && starts_with_char 10 s then rest else push c rest

-- `str::split(char::is_whitespace)`.
unfoldable pub split_at_whitespace : Text → List Text
split_at_whitespace [] = [] ∷ []
split_at_whitespace (c ∷ s) =
    let rest = split_at_whitespace s in if is_whitespace c then [] ∷ rest else push c rest

unfoldable pub split_whitespace : Text → List Text
unfolding split_at_whitespace
split_whitespace s = retain (λ l. not (is_empty l)) (split_at_whitespace s)

-- `str::split(c)`.
unfoldable pub split_char : ℕ → Text → List Text
split_char c [] = [] ∷ []
split_char c (d ∷ s) = let rest = split_char c s in if d == c then [] ∷ rest else push d rest

-- `str::find(c)`, with the text before the character and after it.
unfoldable pub split_once : ℕ → Text → Option (Text × Text)
split_once c [] = none
split_once c (d ∷ s) =
    if d == c
    then some ([], s)
    else elim (split_once c s) [ none ↦ none | some (a, b) ↦ some (d ∷ a, b) ]

-- `str::strip_prefix`.
unfoldable pub strip_prefix : Text → Text → Option Text
strip_prefix [] s = some s
strip_prefix (c ∷ p) [] = none
strip_prefix (c ∷ p) (d ∷ s) = if c == d then strip_prefix p s else none
