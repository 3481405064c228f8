-- ===== src/Path/Names.antt =====
-- Paths as the names between their slashes, and the loop of `canonicalize` as one over these names.
use mikos.Prelude.{
  ℕ, zero, suc, ◌≤◌, ◌≡◌, refl, ap, sym, ◌∙◌, List, [], ◌∷◌, Option, none, some, true, false,
  if◌then◌else◌, ◌==◌, length, arith, if_intro,
}
use mikos.Path.Canonical.{slash, skip_slashes, component, enter, normalize}

abbrev pub prepend : List ℕ → List (List ℕ) → List (List ℕ)
prepend [] names = names
prepend (x ∷ xs) names = (x ∷ xs) ∷ names

-- The characters up to the first slash, and the names after it.
unfoldable pub split : List ℕ → List ℕ × List (List ℕ)
split [] = ([], [])
split (x ∷ xs) =
    let (c, names) = split xs in if x == slash then ([], prepend c names) else (x ∷ c, names)

-- The names of a path, of which none is empty.
unfoldable pub names_of : List ℕ → List (List ℕ)
unfolding split
names_of text = let (c, names) = split text in prepend c names

split-slash : (x : ℕ) (xs : List ℕ) → (x == slash) ≡ true → split (x ∷ xs) ≡ ([], names_of xs)
unfolding split names_of
split-slash x xs here =
    ap (λ b. if b then ([], names_of xs) else (x ∷ (split xs).0, (split xs).1)) here

pub split-other :
    (x : ℕ) (xs : List ℕ) → (x == slash) ≡ false → split (x ∷ xs) ≡ (x ∷ (split xs).0, (split xs).1)
unfolding split names_of
split-other x xs other =
    ap (λ b. if b then ([], names_of xs) else (x ∷ (split xs).0, (split xs).1)) other

abbrev joined : List ℕ × List (List ℕ) → List (List ℕ)
joined p = prepend p.0 p.1

pub names_of-slash : (x : ℕ) (xs : List ℕ) → (x == slash) ≡ true → names_of (x ∷ xs) ≡ names_of xs
unfolding names_of
names_of-slash x xs here = ap joined (split-slash x xs here)

skip_slashes-names_of : (text : List ℕ) → names_of (skip_slashes text) ≡ names_of text
unfolding skip_slashes
skip_slashes-names_of [] = refl
skip_slashes-names_of (x ∷ xs) =
    if_intro (λ t. names_of t ≡ names_of (x ∷ xs)) (x == slash) (skip_slashes xs) (x ∷ xs)
      (λ here. skip_slashes-names_of xs ∙ sym (names_of-slash x xs here)) (λ other. refl)

abbrev parted : List ℕ × List ℕ → List ℕ × List (List ℕ)
parted p = (p.0, names_of p.1)

split-nil : split [] ≡ ([], names_of [])
unfolding split names_of
split-nil = refl

component-split : (text : List ℕ) → split text ≡ parted (component text)
unfolding component
component-split [] = split-nil
component-split (x ∷ xs) =
    if_intro (λ p. split (x ∷ xs) ≡ parted p) (x == slash) ([], x ∷ xs)
      (x ∷ (component xs).0, (component xs).1)
      (λ here. split-slash x xs here ∙ ap (λ ns. ([], ns)) (sym (names_of-slash x xs here)))
      (λ other. split-other x xs other ∙ ap (λ p. (x ∷ p.0, p.1)) (component-split xs))

component-names_of :
    (text : List ℕ) → names_of text ≡ prepend (component text).0 (names_of (component text).1)
unfolding names_of
component-names_of text = ap joined (component-split text)

skip_slashes-length : (text : List ℕ) → length (skip_slashes text) ≤ length text
unfolding skip_slashes
skip_slashes-length [] = omega arith
skip_slashes-length (x ∷ xs) = ground (arith, skip_slashes-length xs)

component-length : (text : List ℕ) → length (component text).1 ≤ length text
unfolding component
component-length [] = omega arith
component-length (x ∷ xs) = ground (arith, component-length xs)

-- A round of the loop takes at least a character.
round-length : (x : ℕ) (xs : List ℕ) → length (component (skip_slashes (x ∷ xs))).1 ≤ length xs
unfolding skip_slashes component
round-length x xs =
    ground (arith, component-length (skip_slashes xs), skip_slashes-length xs, component-length xs)

-- The loop, over names.
unfoldable pub enter_all : ℕ → List ℕ → List (List ℕ) → Option (List ℕ)
unfolding enter
enter_all room out [] = some out
enter_all room out (c ∷ cs) = elim (enter room out c) [
  | none ↦ none
  | some out' ↦ enter_all room out' cs
]

enter_all-prepend :
    (room : ℕ) (out c : List ℕ) (cs : List (List ℕ))
    → enter_all room out (prepend c cs)
      ≡ (elim (enter room out c) [ none ↦ none | some out' ↦ enter_all room out' cs ])
unfolding enter_all enter
enter_all-prepend room out [] cs = refl
enter_all-prepend room out (x ∷ xs) cs = refl

-- With fuel for every character, the loop enters the names one after another.
pub normalize_lem :
    (fuel room : ℕ) (out text : List ℕ)
    → length text ≤ fuel
    → normalize fuel room out text ≡ enter_all room out (names_of text)
unfolding normalize names_of split enter_all
normalize_lem fuel room out [] enough = refl
normalize_lem zero room out (x ∷ xs) enough = absurd (omega (arith, enough))
normalize_lem (suc fuel) room out (x ∷ xs) enough =
    let p = component (skip_slashes (x ∷ xs)) in
    next (enter room out p.0) p.1
      (λ out'. normalize_lem fuel room out' p.1 (omega (arith, enough, round-length x xs)))
    ∙ sym (enter_all-prepend room out p.0 (names_of p.1))
    ∙ ap (enter_all room out)
        (sym (component-names_of (skip_slashes (x ∷ xs))) ∙ skip_slashes-names_of (x ∷ xs))
  where
    next :
        (o : Option (List ℕ)) (rest : List ℕ)
        → ((out' : List ℕ) → normalize fuel room out' rest ≡ enter_all room out' (names_of rest))
        → (elim o [ none ↦ none | some out' ↦ normalize fuel room out' rest ])
          ≡ (elim o [ none ↦ none | some out' ↦ enter_all room out' (names_of rest) ])
    next none rest same = refl
    next (some out') rest same = same out'
