-- ===== src/Path/Canonical.antt =====
-- canonicalize of kernel/path.hpp: a path without `.`, `..` and doubled slashes. The arrays are the
-- lists of their characters before the zero; the output is kept from its last character on, since the
-- code only changes its end. The result is the output, or `none` where the code returns false; what
-- is left in the output then is not modelled.
use mikos.Prelude.{
  ℕ, zero, suc, ◌+◌, ◌-◌, ◌*◌, List, [], ◌∷◌, ◌++◌, Option, none, some, Bool, true, false, not,
  ◌&&◌, ◌||◌, if◌then◌else◌, ◌==◌, ltb, leb, length,
}

abbrev pub capacity : ℕ
capacity = 256

-- The size of `combined`.
abbrev pub combined_capacity : ℕ
combined_capacity = capacity * 2

abbrev pub slash : ℕ
slash = 47

abbrev pub dot : ℕ
dot = 46

-- The loops that copy a text to the end of `combined`, of which `size` characters are written: whether
-- all of it has room.
unfoldable pub copies : ℕ → List ℕ → Bool
copies size [] = true
copies size (x ∷ xs) =
    let rest = copies (size + 1) xs in if leb combined_capacity (size + 1) then false else rest

abbrev pub ends_with_slash : List ℕ → Bool
ends_with_slash [] = false
ends_with_slash (x ∷ []) = x == slash
ends_with_slash (x ∷ y ∷ ys) = ends_with_slash (y ∷ ys)

abbrev pub starts_with_slash : List ℕ → Bool
starts_with_slash [] = false
starts_with_slash (x ∷ xs) = x == slash

-- What `combined` holds, the path appended to the directory where it is relative.
unfoldable pub combine : List ℕ → List ℕ → Option (List ℕ)
unfolding copies
combine directory path =
    if starts_with_slash path
    then (if copies 0 path then some path else none)
    else if not (copies 0 directory)
    then none
    else (let from = if ends_with_slash directory then directory else directory ++ slash ∷ [] in
        if copies (length from) path then some (from ++ path) else none)

unfoldable pub skip_slashes : List ℕ → List ℕ
skip_slashes [] = []
skip_slashes (x ∷ xs) = let rest = skip_slashes xs in if x == slash then rest else x ∷ xs

-- The characters up to a slash, and the rest.
unfoldable pub component : List ℕ → List ℕ × List ℕ
component [] = ([], [])
component (x ∷ xs) =
    let (c, rest) = component xs in if x == slash then ([], x ∷ xs) else (x ∷ c, rest)

abbrev pub is_dot : List ℕ → Bool
is_dot (x ∷ []) = x == dot
is_dot _ = false

abbrev pub is_dot_dot : List ℕ → Bool
is_dot_dot (x ∷ y ∷ []) = x == dot && y == dot
is_dot_dot _ = false

-- The loop that takes the last name from the output.
unfoldable pub unwind : List ℕ → List ℕ
unwind [] = []
unwind (x ∷ []) = x ∷ []
unwind (x ∷ y ∷ ys) = let rest = unwind (y ∷ ys) in if x == slash then x ∷ y ∷ ys else rest

abbrev pub drop_last : List ℕ → List ℕ
drop_last [] = []
drop_last (x ∷ []) = x ∷ []
drop_last (x ∷ y ∷ ys) = y ∷ ys

-- The loop that copies characters to the end of the output.
unfoldable pub push_all : List ℕ → List ℕ → List ℕ
push_all [] out = out
push_all (x ∷ xs) out = push_all xs (x ∷ out)

-- One component: the output after it, where it has room.
unfoldable pub enter : ℕ → List ℕ → List ℕ → Option (List ℕ)
unfolding unwind push_all
enter room out c =
    if length c == 0 || is_dot c
    then some out
    else if is_dot_dot c
    then some (if ltb 1 (length out) then drop_last (unwind out) else out)
    else (let separator = if ltb 1 (length out) then 1 else 0 in
        if leb (room - length out) (length c + separator)
        then none
        else some (push_all c (if ltb 1 (length out) then slash ∷ out else out)))

-- The loop over the components, with fuel.
unfoldable pub normalize : ℕ → ℕ → List ℕ → List ℕ → Option (List ℕ)
unfolding skip_slashes component enter
normalize fuel room out [] = some out
normalize zero room out (x ∷ xs) = none
normalize (suc fuel) room out (x ∷ xs) =
    let (c, rest) = component (skip_slashes (x ∷ xs)) in
    elim (enter room out c) [ none ↦ none | some out' ↦ normalize fuel room out' rest ]

abbrev pub is_empty : List ℕ → Bool
is_empty [] = true
is_empty (x ∷ xs) = false

unfoldable pub canonicalize : List ℕ → List ℕ → ℕ → Option (List ℕ)
unfolding combine normalize push_all
canonicalize directory path room =
    if is_empty path || ltb room 2 then none else (elim (combine directory path) [
      | none ↦ none
      | some combined ↦ elim (normalize (length combined) room (slash ∷ []) combined) [
        | none ↦ none
        | some out ↦ some (push_all out [])
      ]
    ])
