-- ===== src/Scatter/Tests.antt =====
-- A writer that takes ten bytes at most each time, and adds up what it took.
use mikos.Prelude.{ℕ, ◌+◌, ◌≡◌, refl, List, [], ◌∷◌, ◌&&◌, if◌then◌else◌, leb, ltb}
use mikos.Scatter.{
  Range, contains, Vector, Answer, wrote, failed, in_range, to_i32, advance, write_loop,
  scatter_write,
}
use mikos.Scatter.Counting.{AtMost, reply, outcome, total_size}
use mikos.Scatter.Bounds.{contains_lem, scatter_write_lem}

abbrev ten_at_most : ℕ → ℕ → ℕ → Answer × ℕ
ten_at_most base size taken = (let n = (if ltb 10 size then 10 else size) in (wrote n, taken + n))

abbrev vectors : List Vector
vectors =
    record { base = 64; size = 4 }
    ∷ record { base = 96; size = 12 }
    ∷ record { base = 128; size = 2 }
    ∷ []

abbrev page : Range
page = record { begin = 4096; end = 8192 }

-- Four bytes, and 2^31 - 1 after them.
abbrev too_many : List Vector
too_many = record { base = 64; size = 4 } ∷ record { base = 96; size = 0x7fffffff } ∷ []

nothing_written : scatter_write ten_at_most 22 too_many 0 ≡ (failed 22, 0)
unfolding scatter_write in_range
nothing_written = refl

-- The second vector is cut short, so the third is left out.
fourteen : scatter_write ten_at_most 22 vectors 0 ≡ (wrote 14, 14)
unfolding scatter_write write_loop advance in_range to_i32
fourteen = refl

contains_lem_example : contains page 8000 200 ≡ (leb 4096 8000 && leb (8000 + 200) 8192)
contains_lem_example = contains_lem page 8000 200

scatter_write_lem_example :
    (scatter_write ten_at_most 22 vectors 0 ≡ (
      if leb (total_size vectors) 0x7fffffff
      then (reply 22 (outcome ten_at_most 22 vectors 0).0, (outcome ten_at_most 22 vectors 0).1)
      else (failed 22, 0)))
    × AtMost (total_size vectors) (outcome ten_at_most 22 vectors 0).0
scatter_write_lem_example = scatter_write_lem ten_at_most 22 vectors 0
