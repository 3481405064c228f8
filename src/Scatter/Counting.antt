-- ===== src/Scatter/Counting.antt =====
-- A scattered write that counts its bytes without bound, and the loop of scatter_write that counts
-- them on 32 bits.
use mikos.Prelude.{
  refl, u32, sym, ℕ, ◌+◌, ◌≤◌, ◌≡◌, ap, ◌∙◌, List, [], ◌∷◌, if◌then◌else◌, ◌==◌, ltb, arith,
  if_intro,
}
use mikos.Scatter.{Vector, Answer, wrote, failed, to_i32, advance, write_loop}

unfoldable pub total_size : List Vector → ℕ
total_size [] = 0
total_size (v ∷ vs) = v.size + total_size vs

-- How far a scattered write comes, counted without bound: it counts the bytes up to the end or to a
-- write that took fewer than it was given, or it breaks with an error after some bytes, or the writer
-- says that it took more than it was given.
pub data Outcome : Type 0 where
  counted : ℕ → Outcome
  broke : ℕ → ℕ → Outcome
  overran : Outcome

-- `n` bytes before.
abbrev pub more : ℕ → Outcome → Outcome
more n (counted m) = counted (n + m)
more n (broke m e) = broke (n + m) e
more n overran = overran

-- What is answered: the bytes, if there are any.
abbrev pub reply : ℕ → Outcome → Answer
reply invalid (counted n) = wrote n
reply invalid (broke n e) = if n == 0 then failed e else wrote n
reply invalid overran = failed invalid

-- It counts at most `n` bytes.
abbrev pub AtMost : ℕ → Outcome → Type 0
AtMost n (counted m) = m ≤ n
AtMost n (broke m e) = m ≤ n
AtMost n overran = Unit

pub more-none : (o : Outcome) → more 0 o ≡ o
more-none (counted n) = ap counted (omega arith)
more-none (broke n e) = ap (λ m. broke m e) (omega arith)
more-none overran = refl

more-more : (a b : ℕ) (o : Outcome) → more (a + b) o ≡ more a (more b o)
more-more a b (counted n) = ap counted (omega arith)
more-more a b (broke n e) = ap (λ m. broke m e) (omega arith)
more-more a b overran = refl

module _ {S : Type 0} (writer : ℕ → ℕ → S → Answer × S) (invalid : ℕ) where
  -- After the answer to the vector `v`.
  unfoldable pub go_on : Vector → Answer → S → (S → Outcome × S) → Outcome × S
  go_on v (failed e) s rest = (broke 0 e, s)
  go_on v (wrote n) s rest =
      if ltb v.size n
      then (overran, s)
      else if ltb n v.size
      then (counted n, s)
      else (more n (rest s).0, (rest s).1)

  unfoldable pub outcome : List Vector → S → Outcome × S
  outcome [] s = (counted 0, s)
  outcome (v ∷ vs) s =
      if v.size == 0
      then outcome vs s
      else go_on v (writer v.base v.size s).0 (writer v.base v.size s).1 (outcome vs)

  -- What is answered after `total` bytes.
  abbrev pub answered : ℕ → Outcome × S → Answer × S
  answered total r = (reply invalid (more total r.0), r.1)

  advance-go_on :
      (total rest_size : ℕ) (v : Vector) (answer : Answer) (s : S) (next : ℕ → S → Answer × S)
      (rest : S → Outcome × S)
      → total + (v.size + rest_size) ≤ 0x7fffffff
      → ((k : ℕ) (s' : S) → k + rest_size ≤ 0x7fffffff → next k s' ≡ answered k (rest s'))
      → advance writer invalid total v answer s next ≡ answered total (go_on v answer s rest)
  unfolding advance go_on to_i32
  advance-go_on total rest_size v (failed e) s next rest small h = ground (arith, small)
  advance-go_on total rest_size v (wrote n) s next rest small h =
      if_intro (λ (r : Answer × S). r ≡ answered total (go_on v (wrote n) s rest)) (ltb v.size n)
        (failed invalid, s)
        (if ltb n v.size then (to_i32 (u32 (total + n)), s) else next (u32 (total + n)) s)
        (λ over. ground (arith, over))
        (λ within.
          if_intro (λ (r : Answer × S). r ≡ answered total (go_on v (wrote n) s rest))
            (ltb n v.size) (to_i32 (u32 (total + n)), s) (next (u32 (total + n)) s)
            (λ short. ground (arith, within, short, small))
            (λ whole.
              let exact : u32 (total + n) ≡ total + n = ground (arith, within, whole, small) in
              let later = h (total + n) s (ground (arith, within, whole, small)) in
              let joined : answered (total + n) (rest s)
                  ≡ answered total (more n (rest s).0, (rest s).1) =
                ap (λ o. (reply invalid o, (rest s).1)) (more-more total n (rest s).0) in
              ap (λ k. next k s) exact ∙ later ∙ joined ∙ ground (arith, within, whole)))

  pub write_loop-outcome :
      (vs : List Vector) (total : ℕ) (s : S)
      → total + total_size vs ≤ 0x7fffffff
      → write_loop writer invalid vs total s ≡ answered total (outcome vs s)
  unfolding write_loop outcome total_size to_i32
  write_loop-outcome [] total s small = ground (arith, small)
  write_loop-outcome (v ∷ vs) total s small =
      if_intro (λ (r : Answer × S). r ≡ answered total (outcome (v ∷ vs) s)) (v.size == 0)
        (write_loop writer invalid vs total s)
        (advance writer invalid total v (writer v.base v.size s).0 (writer v.base v.size s).1
          (write_loop writer invalid vs))
        (λ none_left.
          write_loop-outcome vs total s (ground (arith, none_left, small))
          ∙ ap (answered total) (
              ap
                (λ b.
                  if b
                  then outcome vs s
                  else go_on v (writer v.base v.size s).0 (writer v.base v.size s).1 (outcome vs))
                (sym none_left)))
        (λ some_left.
          advance-go_on total (total_size vs) v (writer v.base v.size s).0
            (writer v.base v.size s).1 (write_loop writer invalid vs) (outcome vs) small
            (write_loop-outcome vs)
          ∙ ap (answered total) (
              ap
                (λ b.
                  if b
                  then outcome vs s
                  else go_on v (writer v.base v.size s).0 (writer v.base v.size s).1 (outcome vs))
                (sym some_left)))

  AtMost-more : (n m : ℕ) (o : Outcome) → AtMost m o → AtMost (n + m) (more n o)
  AtMost-more n m (counted k) h = omega (arith, h)
  AtMost-more n m (broke k e) h = omega (arith, h)
  AtMost-more n m overran h = tt

  AtMost-mono : (n m : ℕ) (o : Outcome) → n ≤ m → AtMost n o → AtMost m o
  AtMost-mono n m (counted k) le h = omega (arith, le, h)
  AtMost-mono n m (broke k e) le h = omega (arith, le, h)
  AtMost-mono n m overran le h = tt

  go_on-AtMost :
      (n : ℕ) (v : Vector) (answer : Answer) (s : S) (rest : S → Outcome × S)
      → ((s' : S) → AtMost n (rest s').0)
      → AtMost (v.size + n) (go_on v answer s rest).0
  unfolding go_on
  go_on-AtMost n v (failed e) s rest h = omega arith
  go_on-AtMost n v (wrote k) s rest h =
      if_intro (λ (r : Outcome × S). AtMost (v.size + n) r.0) (ltb v.size k) (overran, s)
        (if ltb k v.size then (counted k, s) else (more k (rest s).0, (rest s).1)) (λ over. tt)
        (λ within.
          if_intro (λ (r : Outcome × S). AtMost (v.size + n) r.0) (ltb k v.size) (counted k, s)
            (more k (rest s).0, (rest s).1) (λ short. ground (arith, within))
            (λ whole.
              AtMost-mono (k + n) (v.size + n) (more k (rest s).0) (ground (arith, within))
                (AtMost-more k n (rest s).0 (h s))))

  pub outcome-AtMost : (vs : List Vector) (s : S) → AtMost (total_size vs) (outcome vs s).0
  unfolding outcome total_size
  outcome-AtMost [] s = omega arith
  outcome-AtMost (v ∷ vs) s =
      if_intro (λ (r : Outcome × S). AtMost (v.size + total_size vs) r.0) (v.size == 0)
        (outcome vs s) (go_on v (writer v.base v.size s).0 (writer v.base v.size s).1 (outcome vs))
        (λ none_left.
          AtMost-mono (total_size vs) (v.size + total_size vs) (outcome vs s).0 (omega arith)
            (outcome-AtMost vs s))
        (λ some_left.
          go_on-AtMost (total_size vs) v (writer v.base v.size s).0 (writer v.base v.size s).1
            (outcome vs) (outcome-AtMost vs))
