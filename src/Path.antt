-- ===== src/Path.antt =====
-- numbered_suffix of kernel/path.hpp: the number that ends a device's name. A text is the list of its
-- characters, without the zero at its end; an invalid number is `none`.
pub mod Suffix
pub mod Canonical
pub mod Names
pub mod Resolve
pub mod Written
pub mod Answers
pub mod Canonicity
mod Tests
use mikos.Prelude.{
  ℕ, ◌+◌, ◌-◌, ◌*◌, ◌/◌, List, [], ◌∷◌, Option, none, some, Bool, true, false, not, ◌&&◌, ◌||◌,
  if◌then◌else◌, ◌==◌, ltb, leb, u32,
}

-- The loop over the prefix, and the test that all of it was there.
unfoldable pub strip : List ℕ → List ℕ → Option (List ℕ)
strip [] text = some text
strip (p ∷ ps) [] = none
strip (p ∷ ps) (x ∷ xs) = let rest = strip ps xs in if x == p then rest else none

abbrev pub is_digit : ℕ → Bool
is_digit x = leb 48 x && leb x 57

-- The loop over the digits, and the tests at its end.
unfoldable pub digits_from : ℕ → ℕ → List ℕ → Option ℕ
digits_from limit value [] = if ltb value limit then some value else none
digits_from limit value (x ∷ xs) =
    let digit = x - 48 in
    let rest = digits_from limit (u32 (value * 10 + digit)) xs in
    if not (is_digit x)
    then none
    else if leb limit digit || ltb ((limit - 1 - digit) / 10) value
    then none
    else rest

unfoldable pub starts_with_digit : List ℕ → Bool
starts_with_digit [] = false
starts_with_digit (x ∷ xs) = is_digit x

unfoldable pub numbered_suffix : List ℕ → List ℕ → ℕ → Option ℕ
unfolding strip starts_with_digit digits_from
numbered_suffix text prefix limit = if limit == 0 then none else (elim (strip prefix text) [
  | none ↦ none
  | some rest ↦ if starts_with_digit rest then digits_from limit 0 rest else none
])
