-- ===== src/Path/Suffix.antt =====
-- The number that `numbered_suffix` reads is the decimal value of the digits.
use mikos.Prelude.{
  ℕ, ◌+◌, ◌-◌, ◌*◌, ◌/◌, ◌^◌, ◌≤◌, ◌<◌, ◌≡◌, refl, List, [], ◌∷◌, ◌++◌, none, some, Bool, true,
  ◌&&◌, ◌||◌, if◌then◌else◌, ltb, leb, u32, arith, inl, inr, Bool-cases,
}
use mikos.Path.{strip, is_digit, digits_from, starts_with_digit, numbered_suffix}

unfoldable pub all_digits : List ℕ → Bool
all_digits [] = true
all_digits (x ∷ xs) = is_digit x && all_digits xs

-- The decimal value of the digits that follow `value`.
unfoldable pub decimal : ℕ → List ℕ → ℕ
decimal value [] = value
decimal value (x ∷ xs) = decimal (value * 10 + (x - 48)) xs

decimal-le : (value : ℕ) (xs : List ℕ) → value ≤ decimal value xs
unfolding decimal
decimal-le value [] = omega arith
decimal-le value (x ∷ xs) = omega (arith, decimal-le (value * 10 + (x - 48)) xs)

digits_from_lem :
    (limit value : ℕ) (xs : List ℕ)
    → limit ≤ 2 ^ 32
    → digits_from limit value xs
      ≡ (if all_digits xs && ltb (decimal value xs) limit then some (decimal value xs) else none)
unfolding digits_from all_digits decimal
digits_from_lem limit value [] h = ground arith
digits_from_lem limit value (x ∷ xs) h =
    elim (Bool-cases (leb limit (x - 48) || ltb ((limit - 1 - (x - 48)) / 10) value)) [
      | inl over ↦ ground (arith, decimal-le (value * 10 + (x - 48)) xs)
      | inr fits ↦
          let exact : u32 (value * 10 + (x - 48)) ≡ value * 10 + (x - 48) = ground arith in
          rw (fits, exact) (ground (arith, digits_from_lem limit (value * 10 + (x - 48)) xs))
    ]

strip-append : (prefix text : List ℕ) → strip prefix (prefix ++ text) ≡ some text
unfolding strip
strip-append [] text = refl
strip-append (p ∷ ps) text = ground (arith, strip-append ps text)

-- After its prefix, a text names a number exactly if it goes on with decimal digits alone, at least
-- one, whose value is below the limit; it is that value, and no digits wrap around, for any limit of
-- 32 bits that is not 0.
pub numbered_suffix_lem :
    (prefix text : List ℕ) (limit : ℕ)
    → 0 < limit
    → limit ≤ 2 ^ 32
    → numbered_suffix (prefix ++ text) prefix limit ≡ (
        if starts_with_digit text && (all_digits text && ltb (decimal 0 text) limit)
        then some (decimal 0 text)
        else none)
unfolding numbered_suffix
numbered_suffix_lem prefix text limit pos h =
    rw (strip-append prefix text) (ground (arith, digits_from_lem limit 0 text))
