-- ===== src/Scatter/Bounds.antt =====
-- Bounds of ranges and of scattered writes.
use mikos.Prelude.{
  sym, ℕ, ◌+◌, ◌-◌, ◌≤◌, ◌≡◌, ap, ◌∙◌, List, [], ◌∷◌, ◌&&◌, if◌then◌else◌, ltb, leb, arith, inl,
  inr, Bool-cases, if_intro,
}
use mikos.Scatter.{Range, contains, Vector, Answer, failed, in_range, write_loop, scatter_write}
use mikos.Scatter.Counting.{
  total_size, reply, AtMost, outcome, more-none, write_loop-outcome, outcome-AtMost,
}

-- A range contains `size` bytes from `address` on exactly if they lie between its ends, where the sum
-- is not taken on 32 bits: no wrap-around lets an address in.
pub contains_lem :
    (r : Range) (address size : ℕ)
    → contains r address size ≡ (leb r.begin address && leb (address + size) r.end)
unfolding contains
contains_lem r address size = ground arith

in_range_lem :
    (requested : ℕ) (vs : List Vector)
    → requested ≤ 0x7fffffff
    → in_range requested vs ≡ leb (requested + total_size vs) 0x7fffffff
unfolding in_range total_size
in_range_lem requested [] h = ground arith
in_range_lem requested (v ∷ vs) h = elim (Bool-cases (ltb (0x7fffffff - requested) v.size)) [
  | inl over ↦ rw over (ground arith)
  | inr fits ↦ rw fits (ground (arith, in_range_lem (requested + v.size) vs))
]

module _ {S : Type 0} (writer : ℕ → ℕ → S → Answer × S) (invalid : ℕ) where
  -- A scattered write of vectors that have more than 2^31 - 1 bytes together is refused, and nothing is
  -- written. Any other answers as counting without bound does, whatever the writer answers: what it
  -- says, and the writer's calls, are those of an outcome that counts at most the bytes of the vectors.
  pub scatter_write_lem :
      (vs : List Vector) (s : S)
      → (scatter_write writer invalid vs s ≡ (
          if leb (total_size vs) 0x7fffffff
          then (reply invalid (outcome writer invalid vs s).0, (outcome writer invalid vs s).1)
          else (failed invalid, s)))
        × AtMost (total_size vs) (outcome writer invalid vs s).0
  unfolding scatter_write
  scatter_write_lem vs s =
      let checked : in_range 0 vs ≡ leb (total_size vs) 0x7fffffff =
        in_range_lem 0 vs (omega arith) ∙ ap (λ n. leb n 0x7fffffff) (omega arith) in
      (
        ap (λ b. if b then write_loop writer invalid vs 0 s else (failed invalid, s)) checked
            ∙ if_intro (λ (r : Answer × S). r ≡ wanted vs s) (leb (total_size vs) 0x7fffffff)
                (write_loop writer invalid vs 0 s) (failed invalid, s)
                (λ fits.
                  write_loop-outcome writer invalid vs 0 s (ground (arith, fits))
                  ∙ ap (λ o. (reply invalid o, (outcome writer invalid vs s).1))
                      (more-none (outcome writer invalid vs s).0)
                  ∙ ap
                      (λ b.
                        if b
                        then (
                          reply invalid (outcome writer invalid vs s).0,
                          (outcome writer invalid vs s).1,
                        )
                        else (failed invalid, s))
                      (sym fits))
                (λ over.
                  ap
                    (λ b.
                      if b
                      then (
                        reply invalid (outcome writer invalid vs s).0,
                        (outcome writer invalid vs s).1,
                      )
                      else (failed invalid, s))
                    (sym over)),
        outcome-AtMost writer invalid vs s,
      )
    where
      wanted : List Vector → S → Answer × S
      wanted vs s =
          if leb (total_size vs) 0x7fffffff
          then (reply invalid (outcome writer invalid vs s).0, (outcome writer invalid vs s).1)
          else (failed invalid, s)
