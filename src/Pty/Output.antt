-- ===== src/Pty/Output.antt =====
-- The output discipline: what the slave writes, with its line feeds expanded, reaches the master.
use mikos.Prelude.{
  ℕ, suc, ◌+◌, ◌-◌, ◌≤◌, ◌<◌, ◌≡◌, ◌≢◌, refl, ap, sym, ◌∙◌, List, [], ◌∷◌, ◌++◌, append-nil,
  append_assoc, Bool, true, false, ◌&&◌, if◌then◌else◌, ◌==◌, ltb, arith, length, take, inl, inr,
  Bool-cases,
}
use mikos.Ring
use mikos.Ring.{Ring}
use mikos.Ring.Refine.{IsCapacity, IsValid, contents, free_space_lem, write_lem}
use mikos.Pty.{Limits}
use mikos.Pty.Io.{write_slave}

take-length : (xs : List ℕ) → take (length xs) xs ≡ xs
take-length [] = refl
take-length (x ∷ xs) = ap (λ ys. x ∷ ys) (take-length xs)

-- What the master gets for a character.
abbrev pub expanded : Bool → ℕ → List ℕ
expanded newline x = if newline && x == 10 then 13 ∷ 10 ∷ [] else x ∷ []

pub expand : Bool → List ℕ → List ℕ
expand newline [] = []
expand newline (x ∷ xs) = expanded newline x ++ expand newline xs

-- The ring after `n` of the characters are consumed: what was in it, then those characters expanded.
-- Characters are left over only where fewer than two bytes are free.
pub record Wrote (c : Limits) (newline : Bool) (input : List ℕ) (r : Ring) (n : ℕ) (r' : Ring)
    : Type 0 where
  pub valid : IsValid c.buffer r'
  pub appended : contents c.buffer r' ≡ contents c.buffer r ++ expand newline (take n input)
  pub consumed : n ≤ length input
  pub all_fit : n < length input → c.buffer < r'.size + 2

module _ (c : Limits) (cap : IsCapacity c.buffer) (newline : Bool) where
  -- With room for it, a whole sequence of bytes is appended.
  fits_lem :
      (bytes : List ℕ) (r : Ring)
      → IsValid c.buffer r
      → length bytes ≤ c.buffer - r.size
      → IsValid c.buffer (Ring.write c.buffer r bytes (length bytes)).1
        × (contents c.buffer (Ring.write c.buffer r bytes (length bytes)).1
            ≡ contents c.buffer r ++ bytes)
  fits_lem bytes r v room =
      let (amount, now, ok) = write_lem c.buffer cap r bytes (length bytes) v (omega arith) in
      let whole : (Ring.write c.buffer r bytes (length bytes)).0 ≡ length bytes = ground arith in
      (
        ok,
        now
            ∙ ap (λ n. contents c.buffer r ++ take n bytes) whole
            ∙ ap (λ xs. contents c.buffer r ++ xs) (take-length bytes),
      )

  full_lem : (r : Ring) → Ring.full c.buffer r ≡ true → c.buffer < r.size + 2
  unfolding Ring.full
  full_lem r full = ground arith

  room_lem : (r : Ring) → Ring.full c.buffer r ≡ false → r.size ≢ c.buffer
  unfolding Ring.full
  room_lem r room = ground arith

  stopped :
      (input : List ℕ) (r : Ring)
      → IsValid c.buffer r
      → c.buffer < r.size + 2
      → Wrote c newline input r 0 r
  unfolding expand
  stopped input r v full = record {
    valid = v;
    appended = sym (append-nil (contents c.buffer r));
    consumed = omega arith;
    all_fit = λ h. full;
  }

  went_on :
      (x : ℕ) (input : List ℕ) (r r₁ : Ring) (n : ℕ) (r' : Ring)
      → contents c.buffer r₁ ≡ contents c.buffer r ++ expanded newline x
      → Wrote c newline input r₁ n r'
      → Wrote c newline (x ∷ input) r (n + 1) r'
  unfolding expand
  went_on x input r r₁ n r' now later = record {
    valid = later.valid;
    appended =
        later.appended
        ∙ ap (λ xs. xs ++ expand newline (take n input)) now
        ∙ append_assoc (contents c.buffer r) (expanded newline x) (expand newline (take n input))
        ∙ ap (λ k. contents c.buffer r ++ expand newline (take k (x ∷ input))) next;
    consumed = omega (arith, later.consumed);
    all_fit = λ h. later.all_fit (omega arith);
  }
    where
      next : suc n ≡ n + 1
      next = omega arith

  -- What the slave writes reaches the ring that the master reads in order, with each line feed turned
  -- into a carriage return and a line feed where the terminal state asks for it; a line feed is never
  -- split, and characters are left over only where fewer than two bytes are free.
  pub write_slave_lem :
      (input : List ℕ) (r : Ring)
      → IsValid c.buffer r
      → let (n, r') = write_slave c newline input r in Wrote c newline input r n r'
  unfolding write_slave expand
  write_slave_lem [] r v = record {
    valid = v;
    appended = sym (append-nil (contents c.buffer r));
    consumed = omega arith;
    all_fit = λ h. absurd (omega arith);
  }
  write_slave_lem (x ∷ input) r v = elim (Bool-cases (newline && x == 10)) [
    | inl expands ↦ elim (Bool-cases (ltb (Ring.free_space c.buffer r) 2)) [
      | inl full ↦
          rw (expands, full)
            (stopped (x ∷ input) r v (ground (arith, free_space_lem c.buffer cap v)))
      | inr room ↦
          let (ok, now) =
            fits_lem (13 ∷ 10 ∷ []) r v (ground (arith, free_space_lem c.buffer cap v)) in
          let later = write_slave_lem input (Ring.write c.buffer r (13 ∷ 10 ∷ []) 2).1 ok in
          rw (expands, room)
            (went_on x input r (Ring.write c.buffer r (13 ∷ 10 ∷ []) 2).1 _ _ (rw expands now)
              later)
    ]
    | inr single ↦ elim (Bool-cases (Ring.full c.buffer r)) [
      | inl full ↦ rw (single, full) (stopped (x ∷ input) r v (ground (arith, full_lem r full)))
      | inr room ↦
          let (ok, now) = fits_lem (x ∷ []) r v (ground (arith, room_lem r room, v.size_in)) in
          let later = write_slave_lem input (Ring.write c.buffer r (x ∷ []) 1).1 ok in
          rw (single, room)
            (went_on x input r (Ring.write c.buffer r (x ∷ []) 1).1 _ _ (rw single now) later)
    ]
  ]
