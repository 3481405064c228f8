-- ===== src/Path/Answers.antt =====
-- What `canonicalize` answers.
use mikos.Prelude.{
  ℕ, ◌+◌, ◌≤◌, ◌<◌, ◌≡◌, refl, ap, sym, subst, ◌∙◌, List, [], ◌∷◌, ◌++◌, Option, none, some, true,
  false, ◌||◌, if◌then◌else◌, ltb, length, length-append, arith, inl, inr, Option-cases,
}
use mikos.Path.Canonical.{
  slash, copies, ends_with_slash, combine, combined_capacity, push_all, is_empty, normalize,
  canonicalize,
}
use mikos.Path.Names.{names_of, enter_all, normalize_lem}
use mikos.Path.Resolve.{resolve, body, output_of, names_of-AreNames, push_all-length}
use mikos.Path.Written.{
  absolute, text_of, written, enter_all-Written, enter_all-enough, names_of-total,
}

push_all-push_all :
    (n out text : List ℕ) → push_all (push_all n out) text ≡ push_all out (n ++ text)
unfolding push_all
push_all-push_all [] out text = refl
push_all-push_all (x ∷ xs) out text = push_all-push_all xs (x ∷ out) text

push_all-body : (ns : List (List ℕ)) (text : List ℕ) → push_all (body ns) text ≡ text_of ns text
unfolding push_all body text_of
push_all-body [] text = refl
push_all-body (n ∷ ns) text =
    push_all-push_all n (slash ∷ body ns) text ∙ push_all-body ns (slash ∷ n ++ text)

pub push_all-output_of : (ns : List (List ℕ)) → push_all (output_of ns) [] ≡ written ns
unfolding push_all written
push_all-output_of [] = refl
push_all-output_of (n ∷ ns) = push_all-body (n ∷ ns) []

pub copies_lem :
    (size : ℕ) (text : List ℕ) → size + length text < combined_capacity → copies size text ≡ true
unfolding copies
copies_lem size [] enough = refl
copies_lem size (x ∷ xs) enough =
    ground (arith, enough, copies_lem (size + 1) xs (omega (arith, enough)))

combine-absolute :
    (directory path t : List ℕ) → combine directory path ≡ some t → t ≡ absolute directory path
unfolding combine absolute
combine-absolute directory path t e = ground arith

start : List ℕ → List ℕ
start directory = if ends_with_slash directory then directory else directory ++ slash ∷ []

start-length : (directory : List ℕ) → length directory ≤ length (start directory)
unfolding start
start-length directory = ground (arith, length-append directory (slash ∷ []))

pub combine-enough :
    (directory path : List ℕ)
    → length (absolute directory path) < combined_capacity
    → combine directory path ≡ some (absolute directory path)
unfolding combine absolute start
combine-enough directory path enough =
    let fits = copies_lem 0 path in
    let fits_directory = copies_lem 0 directory in
    let fits_after = copies_lem (length (start directory)) path in
    let sum = length-append (start directory) path in
    let longer = start-length directory in
    ground (arith, enough, fits, fits_directory, fits_after, sum, longer)

-- The rest of `canonicalize`, after `combine`.
unfoldable pub written_from : ℕ → Option (List ℕ) → Option (List ℕ)
written_from room combined = elim combined [
  | none ↦ none
  | some t ↦ elim (normalize (length t) room (slash ∷ []) t) [
    | none ↦ none
    | some out ↦ some (push_all out [])
  ]
]

unfoldable pub reversed : Option (List ℕ) → Option (List ℕ)
reversed out = elim out [ none ↦ none | some out ↦ some (push_all out []) ]

pub written_from_lem :
    (room : ℕ) (t : List ℕ)
    → written_from room (some t) ≡ reversed (enter_all room (output_of []) (names_of t))
unfolding written_from reversed
written_from_lem room t = ap reversed (normalize_lem (length t) room (slash ∷ []) t (omega arith))

reversed_lem :
    (room : ℕ) (cs : List (List ℕ)) (o : Option (List ℕ)) (text : List ℕ)
    → ((out : List ℕ) → o ≡ some out → (out ≡ output_of (resolve [] cs)) × (length out < room))
    → reversed o ≡ some text
    → (text ≡ written (resolve [] cs)) × (length text < room)
unfolding reversed
reversed_lem room cs none text ok e = cc
reversed_lem room cs (some out) text ok e =
    let (same, short) = ok out refl in
    let here : push_all out [] ≡ text = cc in
    (
      sym here ∙ ap (λ o. push_all o []) same ∙ push_all-output_of (resolve [] cs),
      subst (λ (w : List ℕ). length w < room) here (omega (arith, short, push_all-length out [])),
    )

pub reversed-output_of : (ns : List (List ℕ)) → reversed (some (output_of ns)) ≡ some (written ns)
unfolding reversed
reversed-output_of ns = ap some (push_all-output_of ns)

nothing : (room : ℕ) (text : List ℕ) → written_from room none ≡ some text → ⊥
unfolding written_from
nothing room text e = cc

canonicalize-from :
    (directory path text : List ℕ) (room : ℕ)
    → canonicalize directory path room ≡ some text
    → (written_from room (combine directory path) ≡ some text) × (2 ≤ room)
unfolding canonicalize written_from
canonicalize-from directory path text room e = ground (arith, e)

-- A canonical path is the absolute one's names, entered and left one after another, where `.` stays
-- and `..` leaves the last, if there is one; and with its zero it fits into the output.
pub canonicalize_lem :
    (directory path text : List ℕ) (room : ℕ)
    → canonicalize directory path room ≡ some text
    → (text ≡ written (resolve [] (names_of (absolute directory path)))) × (length text < room)
canonicalize_lem directory path text room e =
    let (from, wide) = canonicalize-from directory path text room e in
    elim (Option-cases (combine directory path)) [
      | inl n ↦ absurd (nothing room text (ap (written_from room) (sym n) ∙ from))
      | inr (t, f) ↦
          let g = sym (written_from_lem room t) ∙ sym (ap (written_from room) f) ∙ from in
          let cs = names_of t in
          let r =
            reversed_lem room cs (enter_all room (output_of []) cs) text
              (λ out o.
                enter_all-Written room [] cs out tt (names_of-AreNames t) (omega (arith, wide)) o)
              g in
          subst (λ (a : List ℕ). (text ≡ written (resolve [] (names_of a))) × (length text < room))
            (combine-absolute directory path t f) r
    ]

pub canonicalize-is :
    (directory path : List ℕ) (room : ℕ)
    → (is_empty path || ltb room 2) ≡ false
    → canonicalize directory path room ≡ written_from room (combine directory path)
unfolding canonicalize written_from
canonicalize-is directory path room fine =
    ap (λ b. if b then none else written_from room (combine directory path)) fine

-- There is a canonical path for every path that is not empty, where the absolute one has fewer than
-- 512 characters, and the output has room for two more than these and the zero.
pub canonicalize_enough :
    (directory path : List ℕ) (room : ℕ)
    → 0 < length path
    → length (absolute directory path) < 512
    → length (absolute directory path) + 2 < room
    → canonicalize directory path room
      ≡ some (written (resolve [] (names_of (absolute directory path))))
canonicalize_enough directory path room there short enough =
    let a = absolute directory path in
    canonicalize-is directory path room (wide path there)
    ∙ ap (written_from room) (combine-enough directory path short)
    ∙ written_from_lem room a
    ∙ ap reversed (
        enter_all-enough room [] (names_of a) tt (names_of-AreNames a)
          (omega (arith, enough, names_of-total a)))
    ∙ reversed-output_of (resolve [] (names_of a))
  where
    wide : (p : List ℕ) → 0 < length p → (is_empty p || ltb room 2) ≡ false
    wide [] one = absurd (omega (arith, one))
    wide (x ∷ xs) one = ground (arith, enough)
