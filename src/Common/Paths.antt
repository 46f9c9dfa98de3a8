-- ===== src/Common/Paths.antt =====
-- The parts of `std::path::Path` that the program calls, for Unix: separators and `.` at the end of
-- a path do not count. The texts are read from their end.
use mathlib.Core.Bool.{Bool, true, false, ◌||◌}
use mathlib.Core.List.{[], ◌∷◌, ◌++◌, reverse}
use mathlib.Core.Option.{Option, none, some}
use titan_ssh.Common.Tests.{nat_beq, if◌then◌else◌, ◌==◌}
use titan_ssh.Common.Texts.{Text, text_eq}

-- Of a reversed path: without the separators and the `.` at its end. The flag says that a `.` was
-- passed, which counts unless a separator comes before it.
unfoldable pub skip : Bool → Text → Text
skip false [] = []
skip true [] = 46 ∷ []
skip false (c ∷ r) =
    if nat_beq c 47 then skip false r else if nat_beq c 46 then skip true r else c ∷ r
skip true (c ∷ r) = if nat_beq c 47 then skip false r else 46 ∷ c ∷ r

-- The characters before the first separator, and the rest from it on.
unfoldable pub last_part : Text → Text
last_part [] = []
last_part (c ∷ r) = if nat_beq c 47 then [] else c ∷ last_part r

unfoldable pub before_last : Text → Text
before_last [] = []
before_last (c ∷ r) = if nat_beq c 47 then c ∷ r else before_last r

abbrev is_nothing : Text → Bool
is_nothing s = s == [] || s == 46 ∷ [] || s == 46 ∷ 46 ∷ []

-- `Path::file_name`.
unfoldable pub file_name : Text → Option Text
unfolding skip last_part
file_name path =
    let name = reverse (last_part (skip false (reverse path))) in
    if is_nothing name then none else some name

abbrev directory : Text → Text
directory r = if r == [] then 47 ∷ [] else reverse r

-- `Path::parent`.
unfoldable pub parent : Text → Option Text
unfolding skip before_last
parent path =
    let r = skip false (reverse path) in
    let rest = before_last r in
    if r == [] then none else if rest == [] then some [] else some (directory (skip false rest))

abbrev pub ends_with_separator : Text → Bool
ends_with_separator r = elim r [ [] ↦ true | c ∷ _ ↦ nat_beq c 47 ]

-- `Path::join` with a relative name.
unfoldable pub join : Text → Text → Text
join path name = if ends_with_separator (reverse path) then path ++ name else path ++ (47 ∷ name)
