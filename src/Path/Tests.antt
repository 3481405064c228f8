-- ===== src/Path/Tests.antt =====
-- `pts/12`, with a limit of 16, and `../c/./d//` from `/a/b`.
use mikos.Prelude.{
  ℕ, ◌<◌, ◌≡◌, ◌≢◌, length, refl, List, [], ◌∷◌, ◌++◌, none, some, ◌&&◌, if◌then◌else◌, ltb, arith,
}
use mikos.Path.{strip, digits_from, starts_with_digit, numbered_suffix}
use mikos.Slots.{All}
use mikos.Path.Canonical.{canonicalize}
use mikos.Path.Names.{split, names_of}
use mikos.Path.Resolve.{IsClean, resolve}
use mikos.Path.Written.{absolute, written}
use mikos.Path.Answers.{canonicalize_lem, canonicalize_enough}
use mikos.Path.Canonicity.{join, spelled, canonicalize-AreClean, canonicalize-canonicalize}
use mikos.Path.Suffix.{all_digits, decimal, numbered_suffix_lem}

abbrev pts : List ℕ
pts = 112 ∷ 116 ∷ 115 ∷ 47 ∷ []

abbrev twelve : List ℕ
twelve = 49 ∷ 50 ∷ []

pts_12 : numbered_suffix (pts ++ twelve) pts 16 ≡ some 12
unfolding numbered_suffix strip starts_with_digit digits_from
pts_12 = refl

numbered_suffix_lem_example : numbered_suffix (pts ++ twelve) pts 16 ≡ (
    if starts_with_digit twelve && (all_digits twelve && ltb (decimal 0 twelve) 16)
    then some (decimal 0 twelve)
    else none)
numbered_suffix_lem_example = numbered_suffix_lem pts twelve 16 (omega arith) (omega arith)

abbrev from_b : List ℕ
from_b = 47 ∷ 97 ∷ 47 ∷ 98 ∷ []

abbrev to_d : List ℕ
to_d = 46 ∷ 46 ∷ 47 ∷ 99 ∷ 47 ∷ 46 ∷ 47 ∷ 100 ∷ 47 ∷ 47 ∷ []

abbrev at_d : List ℕ
at_d = 47 ∷ 97 ∷ 47 ∷ 99 ∷ 47 ∷ 100 ∷ []

to_d_test : canonicalize from_b to_d 256 ≡ some at_d
unfolding canonicalize
to_d_test = refl

-- Empty names are not spelled out.
doubled : (47 ∷ 47 ∷ 97 ∷ []) ≢ spelled (names_of (47 ∷ 47 ∷ 97 ∷ []))
unfolding spelled join names_of split
doubled e = cc

-- It has six characters, and its zero.
too_small : canonicalize from_b to_d 6 ≡ none
unfolding canonicalize
too_small = refl

canonicalize_lem_example :
    (at_d ≡ written (resolve [] (names_of (absolute from_b to_d)))) × (length at_d < 7)
unfolding canonicalize
canonicalize_lem_example = canonicalize_lem from_b to_d at_d 7 refl

canonicalize_enough_example :
    canonicalize from_b to_d 256 ≡ some (written (resolve [] (names_of (absolute from_b to_d))))
unfolding absolute
canonicalize_enough_example =
    canonicalize_enough from_b to_d 256 (omega arith) (omega arith) (omega arith)

canonicalize-AreClean_example : All IsClean (names_of at_d) × (at_d ≡ spelled (names_of at_d))
unfolding canonicalize
canonicalize-AreClean_example = canonicalize-AreClean from_b to_d at_d 256 refl

canonicalize-canonicalize_example : canonicalize to_d at_d 256 ≡ some at_d
unfolding canonicalize
canonicalize-canonicalize_example =
    canonicalize-canonicalize from_b to_d to_d at_d 256 (omega arith) refl
