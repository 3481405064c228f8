-- ===== src/Path/Resolve.antt =====
-- What a path names: names entered and left one after another. `canonicalize` writes them out.
use mikos.Prelude.{
  ℕ, ◌+◌, ◌<◌, ◌≡◌, refl, ap, ◌∙◌, List, [], ◌∷◌, Bool, true, false, not, ◌&&◌, if◌then◌else◌, ◌==◌,
  ltb, length, arith, if_intro,
}
use mikos.Slots.{All}
use mikos.Path.Canonical.{slash, is_dot, is_dot_dot, unwind, push_all, drop_last}
use mikos.Path.Names.{split, names_of, prepend}

-- A name is not empty and has no slash.
unfoldable pub no_slash : List ℕ → Bool
no_slash [] = true
no_slash (x ∷ xs) = not (x == slash) && no_slash xs

pub record IsName (c : List ℕ) : Type 0 where
  pub some_character : 0 < length c
  pub unbroken : no_slash c ≡ true

-- And a clean one is not `.` or `..` either.
pub record IsClean (c : List ℕ) : Type 0 where
  pub name : IsName c
  pub no_dot : is_dot c ≡ false
  pub no_dot_dot : is_dot_dot c ≡ false

abbrev pub parent : List (List ℕ) → List (List ℕ)
parent [] = []
parent (n ∷ ns) = ns

-- The names of a directory, the last first, after one more.
unfoldable pub visit : List (List ℕ) → List ℕ → List (List ℕ)
visit names c = if is_dot c then names else if is_dot_dot c then parent names else c ∷ names

unfoldable pub resolve : List (List ℕ) → List (List ℕ) → List (List ℕ)
unfolding visit
resolve names [] = names
resolve names (c ∷ cs) = resolve (visit names c) cs

-- The output that stands for names, from its last character on.
unfoldable pub body : List (List ℕ) → List ℕ
unfolding push_all
body [] = []
body (n ∷ ns) = push_all n (slash ∷ body ns)

abbrev pub output_of : List (List ℕ) → List ℕ
output_of [] = slash ∷ []
output_of (n ∷ ns) = body (n ∷ ns)

split-no_slash : (text : List ℕ) → no_slash (split text).0 ≡ true
unfolding split no_slash
split-no_slash [] = refl
split-no_slash (x ∷ xs) = ground (arith, split-no_slash xs)

prepend-AreNames :
    (c : List ℕ) (cs : List (List ℕ))
    → no_slash c ≡ true
    → All IsName cs
    → All IsName (prepend c cs)
prepend-AreNames [] cs whole all = all
prepend-AreNames (x ∷ xs) cs whole all =
    (record { some_character = omega arith; unbroken = whole }, all)

split-AreNames : (text : List ℕ) → All IsName (split text).1
unfolding split
split-AreNames [] = tt
split-AreNames (x ∷ xs) =
    if_intro (λ (p : List ℕ × List (List ℕ)). All IsName p.1) (x == slash)
      ([], prepend (split xs).0 (split xs).1) (x ∷ (split xs).0, (split xs).1)
      (λ here. prepend-AreNames (split xs).0 (split xs).1 (split-no_slash xs) (split-AreNames xs))
      (λ other. split-AreNames xs)

pub names_of-AreNames : (text : List ℕ) → All IsName (names_of text)
unfolding names_of
names_of-AreNames text =
    prepend-AreNames (split text).0 (split text).1 (split-no_slash text) (split-AreNames text)

pub visit-AreClean :
    (ns : List (List ℕ)) (c : List ℕ) → All IsClean ns → IsName c → All IsClean (visit ns c)
unfolding visit
visit-AreClean ns c all name =
    if_intro (All IsClean) (is_dot c) ns (if is_dot_dot c then parent ns else c ∷ ns) (λ d. all)
      (λ no_dot.
        if_intro (All IsClean) (is_dot_dot c) (parent ns) (c ∷ ns) (λ dd. above ns all)
          (λ no_dot_dot. (record { name = name; no_dot = no_dot; no_dot_dot = no_dot_dot }, all)))
  where
    above : (ms : List (List ℕ)) → All IsClean ms → All IsClean (parent ms)
    above [] ok = tt
    above (m ∷ ms) ok = ok.1

pub resolve-AreClean :
    (ns cs : List (List ℕ)) → All IsClean ns → All IsName cs → All IsClean (resolve ns cs)
unfolding resolve
resolve-AreClean ns [] all names = all
resolve-AreClean ns (c ∷ cs) all names =
    resolve-AreClean (visit ns c) cs (visit-AreClean ns c all names.0) names.1

pub push_all-length : (c out : List ℕ) → length (push_all c out) ≡ length c + length out
unfolding push_all
push_all-length [] out = omega arith
push_all-length (x ∷ xs) out = omega (arith, push_all-length xs (x ∷ out))

-- Characters of a name are taken away before what stands below them.
unwind-other :
    (x : ℕ) (out : List ℕ) → (x == slash) ≡ false → 0 < length out → unwind (x ∷ out) ≡ unwind out
unfolding unwind
unwind-other x [] other deep = absurd (omega (arith, deep))
unwind-other x (y ∷ ys) other deep = ap (λ b. if b then x ∷ y ∷ ys else unwind (y ∷ ys)) other

unwind-push_all :
    (c out : List ℕ) → no_slash c ≡ true → 0 < length out → unwind (push_all c out) ≡ unwind out
unfolding push_all no_slash
unwind-push_all [] out whole deep = refl
unwind-push_all (x ∷ xs) out whole deep =
    unwind-push_all xs (x ∷ out) (ground (arith, whole)) (omega arith)
    ∙ unwind-other x out (ground (arith, whole)) deep

unwind-slash : (out : List ℕ) → unwind (slash ∷ out) ≡ slash ∷ out
unfolding unwind
unwind-slash [] = refl
unwind-slash (y ∷ ys) = refl

pub output_of-length : (ns : List (List ℕ)) → 0 < length (output_of ns)
unfolding body
output_of-length [] = omega arith
output_of-length (n ∷ ns) = omega (arith, push_all-length n (slash ∷ body ns))

pub body-length :
    (n : List ℕ) (ns : List (List ℕ)) → length (body (n ∷ ns)) ≡ length n + length (body ns) + 1
unfolding body
body-length n ns = omega (arith, push_all-length n (slash ∷ body ns))

-- Leaving a name.
drop_last-body : (ns : List (List ℕ)) → All IsClean ns → drop_last (slash ∷ body ns) ≡ output_of ns
unfolding body
drop_last-body [] all = refl
drop_last-body (n ∷ ns) all = nonempty (body (n ∷ ns)) (omega (arith, body-length n ns))
  where
    nonempty : (b : List ℕ) → 0 < length b → drop_last (slash ∷ b) ≡ b
    nonempty [] deep = absurd (omega (arith, deep))
    nonempty (x ∷ xs) deep = refl

pub unwind-output_of :
    (ns : List (List ℕ))
    → All IsClean ns
    → (if ltb 1 (length (output_of ns)) then drop_last (unwind (output_of ns)) else output_of ns)
      ≡ output_of (parent ns)
unfolding body
unwind-output_of [] all = refl
unwind-output_of (n ∷ ns) all =
    let long = all.0.name.some_character in
    let size = body-length n ns in
    let deep : ltb 1 (length (body (n ∷ ns))) ≡ true = ground (arith, long, size) in
    let emptied =
      unwind-push_all n (slash ∷ body ns) all.0.name.unbroken (omega arith)
      ∙ unwind-slash (body ns) in
    ap (λ b. if b then drop_last (unwind (body (n ∷ ns))) else body (n ∷ ns)) deep
    ∙ ap drop_last emptied
    ∙ drop_last-body ns all.1

-- Entering a name.
pub push_all-output_of :
    (c : List ℕ) (ns : List (List ℕ))
    → All IsClean ns
    → push_all c (if ltb 1 (length (output_of ns)) then slash ∷ output_of ns else output_of ns)
      ≡ output_of (c ∷ ns)
unfolding body
push_all-output_of c [] all = refl
push_all-output_of c (n ∷ ns) all =
    let long = all.0.name.some_character in
    let size = body-length n ns in
    let deep : ltb 1 (length (body (n ∷ ns))) ≡ true = ground (arith, long, size) in
    ap (λ b. push_all c (if b then slash ∷ body (n ∷ ns) else body (n ∷ ns))) deep
