-- ===== src/Path/Canonicity.antt =====
-- A canonical path is its own canonical path, and has only clean names.
use mikos.Prelude.{
  ℕ, ◌≤◌, ◌<◌, ◌≡◌, refl, ap, sym, subst, ◌∙◌, List, [], ◌∷◌, ◌++◌, Option, none, some, true, false,
  not, ◌&&◌, ◌||◌, if◌then◌else◌, ltb, length, arith,
}
use mikos.Slots.{All}
use mikos.Path.Canonical.{
  slash, ends_with_slash, is_dot, is_dot_dot, starts_with_slash, combined_capacity, is_empty,
  canonicalize,
}
use mikos.Path.Names.{split, split-other, names_of, names_of-slash, prepend, enter_all}
use mikos.Path.Resolve.{
  no_slash, IsName, IsClean, visit, resolve, output_of, names_of-AreNames, resolve-AreClean,
  push_all-length,
}
use mikos.Path.Written.{absolute, text_of, written, refuses, enter-output_of, output_of-name}
use mikos.Path.Answers.{
  combine-enough, canonicalize-is, written_from, written_from_lem, reversed, reversed-output_of,
  canonicalize_lem, push_all-output_of,
}

-- Names in their order, before others.
unfoldable onto : List (List ℕ) → List (List ℕ) → List (List ℕ)
onto [] cs = cs
onto (n ∷ ns) cs = onto ns (n ∷ cs)

-- What follows a name: nothing, or a slash.
abbrev IsAfter : List ℕ → Type 0
IsAfter text = split text ≡ ([], names_of text)

slash-IsAfter : (text : List ℕ) → IsAfter (slash ∷ text)
unfolding split names_of
slash-IsAfter text = refl

nil-IsAfter : IsAfter []
unfolding split names_of
nil-IsAfter = refl

split-append :
    (n text : List ℕ) → no_slash n ≡ true → IsAfter text → split (n ++ text) ≡ (n, names_of text)
unfolding no_slash
split-append [] text whole after = after
split-append (x ∷ xs) text whole after =
    split-other x (xs ++ text) (ground (arith, whole))
    ∙ ap (λ (p : List ℕ × List (List ℕ)). (x ∷ p.0, p.1))
        (split-append xs text (ground (arith, whole)) after)

names_of-append :
    (n text : List ℕ) → IsName n → IsAfter text → names_of (n ++ text) ≡ n ∷ names_of text
unfolding names_of
names_of-append [] text name after = absurd (omega (arith, name.some_character))
names_of-append (x ∷ xs) text name after =
    ap (λ (p : List ℕ × List (List ℕ)). prepend p.0 p.1)
      (split-append (x ∷ xs) text name.unbroken after)

-- Writing names out and taking the text apart gives them back.
text_of-names_of :
    (ns : List (List ℕ)) (text : List ℕ)
    → All IsClean ns
    → IsAfter text
    → names_of (text_of ns text) ≡ onto ns (names_of text)
unfolding text_of onto
text_of-names_of [] text all after = refl
text_of-names_of (n ∷ ns) text all after =
    text_of-names_of ns (slash ∷ n ++ text) all.1 (slash-IsAfter (n ++ text))
    ∙ ap (onto ns) (names_of-slash slash (n ++ text) refl ∙ names_of-append n text all.0.name after)

written-names_of : (ns : List (List ℕ)) → All IsClean ns → names_of (written ns) ≡ onto ns []
unfolding written names_of split onto
written-names_of [] all = refl
written-names_of (n ∷ ns) all = text_of-names_of (n ∷ ns) [] all nil-IsAfter

onto-All : (P : List ℕ → Type 0) (ns cs : List (List ℕ)) → All P ns → All P cs → All P (onto ns cs)
unfolding onto
onto-All P [] cs all others = others
onto-All P (n ∷ ns) cs all others = onto-All P ns (n ∷ cs) all.1 (all.0, others)

onto-AreNames : (ns : List (List ℕ)) → All IsClean ns → All IsName ns
onto-AreNames [] all = tt
onto-AreNames (n ∷ ns) all = (all.0.name, onto-AreNames ns all.1)

clean-visit : (n : List ℕ) (ns : List (List ℕ)) → IsClean n → visit ns n ≡ n ∷ ns
unfolding visit
clean-visit n ns clean = let a = clean.no_dot in let b = clean.no_dot_dot in ground (arith, a, b)

-- Clean names that fit together are entered one after another.
enter_all-onto :
    (room : ℕ) (ns cs : List (List ℕ))
    → All IsClean ns
    → length (output_of ns) < room
    → enter_all room (output_of []) (onto ns cs) ≡ enter_all room (output_of ns) cs
unfolding onto enter_all
enter_all-onto room [] cs all short = refl
enter_all-onto room (n ∷ ns) cs all short =
    let size = output_of-name n ns all.1 in
    let clean = all.0 in
    let a = clean.no_dot in
    let b = clean.no_dot_dot in
    let fits : (not (is_dot n) && (not (is_dot_dot n) && refuses room (output_of ns) n)) ≡ false =
      ground (arith, size, short, a, b) in
    enter_all-onto room ns (n ∷ cs) all.1 (omega (arith, size, short))
    ∙ ap (λ (o : Option (List ℕ)). elim o [ none ↦ none | some out' ↦ enter_all room out' cs ])
        (enter-output_of room ns n all.1 clean.name
          ∙ ap (λ t. if t then none else some (output_of (visit ns n))) fits
          ∙ ap (λ ms. some (output_of ms)) (clean-visit n ns clean))

text_of-starts :
    (ns : List (List ℕ)) (text : List ℕ)
    → starts_with_slash text ≡ true
    → starts_with_slash (text_of ns text) ≡ true
unfolding text_of
text_of-starts [] text e = e
text_of-starts (n ∷ ns) text e = text_of-starts ns (slash ∷ n ++ text) refl

written-starts : (ns : List (List ℕ)) → starts_with_slash (written ns) ≡ true
unfolding written text_of
written-starts [] = refl
written-starts (n ∷ ns) = text_of-starts ns (slash ∷ n ++ []) refl

written-length : (ns : List (List ℕ)) → length (written ns) ≡ length (output_of ns)
written-length ns =
    ap length (sym (push_all-output_of ns)) ∙ push_all-length (output_of ns) [] ∙ omega arith

-- The names that a path resolves to are clean.
resolved-AreClean : (path : List ℕ) → All IsClean (resolve [] (names_of path))
resolved-AreClean path = resolve-AreClean [] (names_of path) tt (names_of-AreNames path)

-- Names in a text, each after one slash.
unfoldable pub join : List (List ℕ) → List ℕ
join [] = []
join (c ∷ cs) = slash ∷ c ++ join cs

-- The text of a path of these names.
unfoldable pub spelled : List (List ℕ) → List ℕ
unfolding join
spelled [] = slash ∷ []
spelled (c ∷ cs) = join (c ∷ cs)

text_of-join : (ns cs : List (List ℕ)) → text_of ns (join cs) ≡ join (onto ns cs)
unfolding text_of onto join
text_of-join [] cs = refl
text_of-join (n ∷ ns) cs = text_of-join ns (n ∷ cs)

spelled-onto :
    (ns : List (List ℕ)) (c : List ℕ) (cs : List (List ℕ))
    → spelled (onto ns (c ∷ cs)) ≡ join (onto ns (c ∷ cs))
unfolding spelled onto
spelled-onto [] c cs = refl
spelled-onto (n ∷ ns) c cs = spelled-onto ns n (c ∷ cs)

written-spelled : (ns : List (List ℕ)) → written ns ≡ spelled (onto ns [])
unfolding written text_of onto spelled join
written-spelled [] = refl
written-spelled (n ∷ ns) = text_of-join ns (n ∷ []) ∙ sym (spelled-onto ns n [])

-- A canonical path has no name `.` or `..`. It is a slash alone if it has no names, and is otherwise
-- its names in their order, each after exactly one slash, and nothing else: it has no empty name and
-- does not end with a slash.
pub canonicalize-AreClean :
    (directory path text : List ℕ) (room : ℕ)
    → canonicalize directory path room ≡ some text
    → All IsClean (names_of text) × (text ≡ spelled (names_of text))
canonicalize-AreClean directory path text room e =
    let ns = resolve [] (names_of (absolute directory path)) in
    let clean = resolved-AreClean (absolute directory path) in
    let (same, short) = canonicalize_lem directory path text room e in
    subst (λ (t : List ℕ). All IsClean (names_of t) × (t ≡ spelled (names_of t))) (sym same)
      (
        subst (All IsClean) (sym (written-names_of ns clean)) (onto-All IsClean ns [] clean tt),
        written-spelled ns ∙ ap spelled (sym (written-names_of ns clean)),
      )

absolute_self : (other text : List ℕ) → starts_with_slash text ≡ true → absolute other text ≡ text
unfolding absolute
absolute_self other text e =
    ap
      (λ b.
        if b then text else (if ends_with_slash other then other else other ++ slash ∷ []) ++ text)
      e

not_empty :
    (room : ℕ) (text : List ℕ)
    → starts_with_slash text ≡ true
    → length text < room
    → (is_empty text || ltb room 2) ≡ false
not_empty room [] e short = cc
not_empty room (x ∷ xs) e short = ground (arith, short)

written-canonicalize :
    (other : List ℕ) (room : ℕ) (ns : List (List ℕ))
    → All IsClean ns
    → room ≤ 512
    → length (written ns) < room
    → canonicalize other (written ns) room ≡ some (written ns)
unfolding enter_all
written-canonicalize other room ns clean wide short =
    let w = written ns in
    let from = absolute_self other w (written-starts ns) in
    let fits : length (absolute other w) < combined_capacity =
      subst (λ (t : List ℕ). length t < combined_capacity) (sym from)
        (omega (arith, short, wide)) in
    canonicalize-is other w room (not_empty room w (written-starts ns) short)
    ∙ ap (written_from room) (combine-enough other w fits ∙ ap some from)
    ∙ written_from_lem room w
    ∙ ap (λ cs. reversed (enter_all room (output_of []) cs)) (written-names_of ns clean)
    ∙ ap reversed (enter_all-onto room ns [] clean (omega (arith, short, written-length ns)))
    ∙ reversed-output_of ns

-- A canonical path is its own canonical path, from any directory, for an output of the same size of at
-- most 512.
pub canonicalize-canonicalize :
    (directory other path text : List ℕ) (room : ℕ)
    → room ≤ 512
    → canonicalize directory path room ≡ some text
    → canonicalize other text room ≡ some text
canonicalize-canonicalize directory other path text room wide e =
    let ns = resolve [] (names_of (absolute directory path)) in
    let (same, short) = canonicalize_lem directory path text room e in
    subst (λ (t : List ℕ). canonicalize other t room ≡ some t) (sym same)
      (written-canonicalize other room ns (resolved-AreClean (absolute directory path)) wide
        (subst (λ (t : List ℕ). length t < room) same short))
