-- ===== src/Base/Paths.antt =====
-- `Path::parent` and `Path::join` on Unix, over the bytes of a path.
use mathlib.Core.Path.{◌≡◌, refl}
use mathlib.Core.Bool.{Bool, true, false}
use mathlib.Core.List.{[], ◌∷◌, ◌++◌}
use mathlib.Core.Option.{Option, none, some}
use certforge.Base.Tests.{◌==◌, if◌then◌else◌}
use certforge.Base.Strings.{Text}

reverse_onto : Text → Text → Text
reverse_onto [] acc = acc
reverse_onto (c ∷ path) acc = reverse_onto path (c ∷ acc)

-- A reversed path without the separators and `.` components at its end; a root stays.
trim_end : Text → Text
trim_end [] = []
trim_end (c ∷ []) = c ∷ []
trim_end (c ∷ d ∷ path) =
    let rest = trim_end (d ∷ path) in
    if c == b'/'
    then rest
    else if c == b'.'
    then (if d == b'/' then rest else c ∷ d ∷ path)
    else c ∷ d ∷ path

drop_component : Text → Text
drop_component [] = []
drop_component (c ∷ path) = let rest = drop_component path in if c == b'/' then c ∷ path else rest

-- no parent where nothing or only the root is left
parent_of : Text → Option Text
unfolding reverse_onto trim_end drop_component
parent_of [] = none
parent_of (c ∷ []) =
    if c == b'/' then none else some (reverse_onto (trim_end (drop_component (c ∷ []))) [])
parent_of path = some (reverse_onto (trim_end (drop_component path)) [])

unfoldable pub parent : Text → Option Text
unfolding parent_of
parent path = parent_of (trim_end (reverse_onto path []))

ends_in_slash : Text → Bool
ends_in_slash [] = true
ends_in_slash (c ∷ []) = c == b'/'
ends_in_slash (c ∷ d ∷ path) = ends_in_slash (d ∷ path)

starts_with_slash : Text → Bool
starts_with_slash [] = false
starts_with_slash (c ∷ path) = c == b'/'

-- `base.join(path)`
unfoldable pub join : Text → Text → Text
unfolding ends_in_slash starts_with_slash
join base path =
    let joined = if ends_in_slash base then base ++ path else base ++ (b'/' ∷ path) in
    if starts_with_slash path then path else joined

parents :
    (parent (b'/' ∷ b'a' ∷ b'/' ∷ b'.' ∷ b'/' ∷ b'b' ∷ b'/' ∷ []) ≡ some (b'/' ∷ b'a' ∷ []))
    × (parent (b'/' ∷ b'a' ∷ []) ≡ some (b'/' ∷ []))
    × (parent (b'a' ∷ []) ≡ some [])
    × (parent (b'/' ∷ []) ≡ none)
    × (parent (b'.' ∷ b'/' ∷ b'a' ∷ []) ≡ some (b'.' ∷ []))
unfolding parent
parents = (refl, refl, refl, refl, refl)
