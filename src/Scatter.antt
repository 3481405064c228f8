-- ===== src/Scatter.antt =====
-- include/mikos/io/scatter_write.hpp, and UserRange of include/mikos/base.hpp: ranges of user memory
-- that are checked, and written out one after another. The writer is a parameter.
pub mod Counting
pub mod Bounds
mod Tests
use mikos.Prelude.{
  ℕ, ◌+◌, ◌-◌, ◌^◌, u32, List, [], ◌∷◌, Option, none, some, Bool, true, false, ◌&&◌, if◌then◌else◌,
  ◌==◌, ltb, leb,
}

pub record Range : Type 0 where
  pub begin : ℕ
  pub end : ℕ

unfoldable pub contains : Range → ℕ → ℕ → Bool
contains r address size = leb r.begin address && (leb address r.end && leb size (r.end - address))

-- `Iovec32`
pub record Vector : Type 0 where
  pub base : ℕ
  pub size : ℕ

-- An `i32`: a count `n` of less than 2^31, or a negative error `-e`.
pub data Answer : Type 0 where
  wrote : ℕ → Answer
  failed : ℕ → Answer

-- The first loop: whether the sizes add up to at most `0x7fffffff`.
unfoldable pub in_range : ℕ → List Vector → Bool
in_range requested [] = true
in_range requested (v ∷ vs) =
    if ltb (0x7fffffff - requested) v.size then false else in_range (u32 (requested + v.size)) vs

-- `static_cast<i32>` of a `u32`.
unfoldable pub to_i32 : ℕ → Answer
to_i32 n = if ltb n (2 ^ 31) then wrote n else failed (2 ^ 32 - n)

module _ {S : Type 0} (writer : ℕ → ℕ → S → Answer × S) (invalid_argument : ℕ) where
  -- What follows a write of `n` bytes of the vector `v`, where `next` goes on.
  unfoldable pub advance : ℕ → Vector → Answer → S → (ℕ → S → Answer × S) → Answer × S
  advance total v (failed e) s next = (if total == 0 then failed e else to_i32 total, s)
  advance total v (wrote n) s next =
      if ltb v.size n
      then (failed invalid_argument, s)
      else if ltb n v.size
      then (to_i32 (u32 (total + n)), s)
      else next (u32 (total + n)) s

  -- The second loop.
  unfoldable pub write_loop : List Vector → ℕ → S → Answer × S
  unfolding advance
  write_loop [] total s = (to_i32 total, s)
  write_loop (v ∷ vs) total s =
      if v.size == 0
      then write_loop vs total s
      else (let (answer, s') = writer v.base v.size s in advance total v answer s' (write_loop vs))

  unfoldable pub scatter_write : List Vector → S → Answer × S
  unfolding write_loop
  scatter_write vs s = if in_range 0 vs then write_loop vs 0 s else (failed invalid_argument, s)
