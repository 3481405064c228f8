-- ===== src/Path/Written.antt =====
-- What `canonicalize` returns is what the path resolves to, written out.
use mikos.Prelude.{
  ℕ, ◌+◌, ◌-◌, ◌≤◌, ◌<◌, ◌≡◌, refl, ap, sym, subst, ◌∙◌, List, [], ◌∷◌, ◌++◌, Option, none, some,
  Bool, false, not, ◌&&◌, if◌then◌else◌, ltb, leb, length, arith, inl, inr, Bool-cases, if_intro,
}
use mikos.Slots.{All}
use mikos.Path.Canonical.{slash, ends_with_slash, starts_with_slash, is_dot, is_dot_dot, enter}
use mikos.Path.Names.{split, names_of, prepend, enter_all}
use mikos.Path.Resolve.{
  IsName, IsClean, parent, visit, resolve, body, output_of, visit-AreClean, body-length,
  unwind-output_of, push_all-output_of,
}

-- The directory that a path starts from, before its names.
unfoldable pub absolute : List ℕ → List ℕ → List ℕ
absolute directory path =
    if starts_with_slash path
    then path
    else (if ends_with_slash directory then directory else directory ++ slash ∷ []) ++ path

-- Names, the last first, before a text: each with a slash.
unfoldable pub text_of : List (List ℕ) → List ℕ → List ℕ
text_of [] text = text
text_of (n ∷ ns) text = text_of ns (slash ∷ n ++ text)

unfoldable pub written : List (List ℕ) → List ℕ
unfolding text_of
written [] = slash ∷ []
written (n ∷ ns) = text_of (n ∷ ns) []

-- Whether a name after `out` does not fit into `room` characters with the zero.
abbrev pub refuses : ℕ → List ℕ → List ℕ → Bool
refuses room out c = leb (room - length out) (length c + (if ltb 1 (length out) then 1 else 0))

pub enter-output_of :
    (room : ℕ) (ns : List (List ℕ)) (c : List ℕ)
    → All IsClean ns
    → IsName c
    → enter room (output_of ns) c ≡ (
        if not (is_dot c) && (not (is_dot_dot c) && refuses room (output_of ns) c)
        then none
        else some (output_of (visit ns c)))
unfolding enter visit
enter-output_of room ns c all name =
    let long = name.some_character in
    let left = unwind-output_of ns all in
    let pushed = push_all-output_of c ns all in rw (left, pushed) (ground (arith, long))

output_of-parent : (ns : List (List ℕ)) → length (output_of (parent ns)) ≤ length (output_of ns)
unfolding body
output_of-parent [] = omega arith
output_of-parent (n ∷ []) = omega (arith, body-length n [])
output_of-parent (n ∷ m ∷ ns) = omega (arith, body-length n (m ∷ ns))

-- The output after a name is one longer than before, for its slash, but for the first name.
pub output_of-name :
    (c : List ℕ) (ns : List (List ℕ))
    → All IsClean ns
    → length (output_of (c ∷ ns))
      ≡ length c + (if ltb 1 (length (output_of ns)) then 1 else 0) + length (output_of ns)
unfolding body
output_of-name c [] all = omega (arith, body-length c [])
output_of-name c (n ∷ ns) all =
    let long = all.0.name.some_character in
    let size = body-length n ns in
    let more = body-length c (n ∷ ns) in ground (arith, long, size, more)

pub visit-length :
    (room : ℕ) (ns : List (List ℕ)) (c : List ℕ)
    → All IsClean ns
    → length (output_of ns) < room
    → (not (is_dot c) && (not (is_dot_dot c) && refuses room (output_of ns) c)) ≡ false
    → length (output_of (visit ns c)) < room
unfolding visit
visit-length room ns c all short fits =
    let up = output_of-parent ns in
    let name = output_of-name c ns all in
    if_intro (λ ms. length (output_of ms) < room) (is_dot c) ns
      (if is_dot_dot c then parent ns else c ∷ ns) (λ d. short)
      (λ no_dot.
        if_intro (λ ms. length (output_of ms) < room) (is_dot_dot c) (parent ns) (c ∷ ns)
          (λ dd. omega (arith, short, up))
          (λ no_dot_dot. ground (arith, fits, no_dot, no_dot_dot, name, short)))

pub enter_all-Written :
    (room : ℕ) (ns cs : List (List ℕ)) (out : List ℕ)
    → All IsClean ns
    → All IsName cs
    → length (output_of ns) < room
    → enter_all room (output_of ns) cs ≡ some out
    → (out ≡ output_of (resolve ns cs)) × (length out < room)
unfolding enter_all resolve
enter_all-Written room ns [] out all names short e =
    let same : output_of ns ≡ out = cc in
    (sym same, subst (λ (t : List ℕ). length t < room) same short)
enter_all-Written room ns (c ∷ cs) out all names short e =
    let entered = enter-output_of room ns c all names.0 in
    elim (Bool-cases refused) [
      | inl r ↦
          let failed : none ≡ some out =
            subst rest-is (entered ∙ ap (λ b. if b then none else some (output_of (visit ns c))) r)
              e in
          absurd (cc)
      | inr fits ↦
          enter_all-Written room (visit ns c) cs out (visit-AreClean ns c all names.0) names.1
            (visit-length room ns c all short fits)
            (subst rest-is
              (entered ∙ ap (λ b. if b then none else some (output_of (visit ns c))) fits) e)
    ]
  where
    refused : Bool
    refused = not (is_dot c) && (not (is_dot_dot c) && refuses room (output_of ns) c)

    rest-is : Option (List ℕ) → Type 0
    rest-is o = (elim o [ none ↦ none | some out' ↦ enter_all room out' cs ]) ≡ some out

-- The characters of names, with a slash for each.
unfoldable pub total : List (List ℕ) → ℕ
total [] = 0
total (c ∷ cs) = length c + 1 + total cs

prepend-total : (c : List ℕ) (cs : List (List ℕ)) → total (prepend c cs) ≤ length c + 1 + total cs
unfolding total
prepend-total [] cs = omega arith
prepend-total (x ∷ xs) cs = omega arith

split-total : (text : List ℕ) → length (split text).0 + total (split text).1 ≤ length text
unfolding split total
split-total [] = omega arith
split-total (x ∷ xs) = ground (arith, split-total xs, prepend-total (split xs).0 (split xs).1)

pub names_of-total : (text : List ℕ) → total (names_of text) ≤ length text + 1
unfolding names_of
names_of-total text = omega (arith, split-total text, prepend-total (split text).0 (split text).1)

visit-total :
    (ns : List (List ℕ)) (c : List ℕ)
    → All IsClean ns
    → length (output_of (visit ns c)) ≤ length (output_of ns) + (length c + 1)
unfolding visit
visit-total ns c all =
    let up = output_of-parent ns in
    let name = output_of-name c ns all in
    if_intro (λ ms. length (output_of ms) ≤ length (output_of ns) + (length c + 1)) (is_dot c) ns
      (if is_dot_dot c then parent ns else c ∷ ns) (λ d. omega arith)
      (λ no_dot.
        if_intro (λ ms. length (output_of ms) ≤ length (output_of ns) + (length c + 1))
          (is_dot_dot c) (parent ns) (c ∷ ns) (λ dd. omega (arith, up))
          (λ no_dot_dot. ground (arith, name)))

pub enter_all-enough :
    (room : ℕ) (ns cs : List (List ℕ))
    → All IsClean ns
    → All IsName cs
    → length (output_of ns) + total cs < room
    → enter_all room (output_of ns) cs ≡ some (output_of (resolve ns cs))
unfolding enter_all resolve total
enter_all-enough room ns [] all names enough = refl
enter_all-enough room ns (c ∷ cs) all names enough =
    let grown = visit-total ns c all in
    let fits : (not (is_dot c) && (not (is_dot_dot c) && refuses room (output_of ns) c)) ≡ false =
      ground (arith, enough) in
    ap (λ (o : Option (List ℕ)). elim o [ none ↦ none | some out' ↦ enter_all room out' cs ])
      (enter-output_of room ns c all names.0
        ∙ ap (λ b. if b then none else some (output_of (visit ns c))) fits)
    ∙ enter_all-enough room (visit ns c) cs (visit-AreClean ns c all names.0) names.1
        (omega (arith, enough, grown))
