-- ===== src/Ring/Refine.antt =====
-- A valid ring holds a queue of bytes, oldest first.
use mathlib.Core.Path.{ap₂}
use native.Mathlib.Nat.{add-zero, mod-eq_of_lt}
use mikos.Prelude.{
  ℕ, ◌+◌, ◌-◌, ◌%◌, ◌^◌, ◌≤◌, ◌<◌, min, ◌≡◌, refl, sym, ap, ◌∙◌, List, [], ◌++◌, arith, u32, take,
  drop, take-append, drop-append, length, length-replicate, mod-add-ne,
}
use mikos.Ring.{Ring, fresh, free_space, write, read, clear, write_loop, read_loop}
use mikos.Ring.Window.{
  peek, window, window-add, window-mod, window_ext, read_loop-window, length-read_loop,
  write_loop_ne, length-write_loop, window-write_loop,
}

-- The capacities at which no index of the loops wraps.
pub record IsCapacity (capacity : ℕ) : Type 0 where
  pub positive : 0 < capacity
  pub bounded : capacity ≤ 2 ^ 31

pub record IsValid (capacity : ℕ) (r : Ring) : Type 0 where
  pub storage : length r.bytes ≡ capacity
  pub head_in : r.head < capacity
  pub size_in : r.size ≤ capacity

-- The bytes that a ring holds, oldest first.
abbrev pub contents : ℕ → Ring → List ℕ
contents capacity r = window capacity r.bytes r.head r.size

module _ (capacity : ℕ) (cap : IsCapacity capacity) where
  pub fresh_lem : IsValid capacity (fresh capacity) × (contents capacity (fresh capacity) ≡ [])
  unfolding fresh
  fresh_lem = (
    record { storage = length-replicate capacity 0; head_in = cap.positive; size_in = omega arith },
    refl,
  )

  pub clear_lem :
      {r : Ring}
      → IsValid capacity r
      → IsValid capacity (clear r) × (contents capacity (clear r) ≡ [])
  unfolding clear
  clear_lem v =
      (record { storage = v.storage; head_in = cap.positive; size_in = omega arith }, refl)

  pub free_space_lem : {r : Ring} → IsValid capacity r → free_space capacity r ≡ capacity - r.size
  unfolding free_space
  free_space_lem v = omega arith

  -- What `write` does with `n` bytes for which there is room.
  write_amount :
      (r : Ring) (input : List ℕ) (n : ℕ)
      → IsValid capacity r
      → n + r.size ≤ capacity
      → n ≤ length input
      → window capacity
          (write_loop capacity n (r.head + r.size) input 0 r.bytes)
          r.head
          (r.size + n)
        ≡ contents capacity r ++ take n input
  write_amount r input n v room src = window-add capacity after r.head r.size n ∙ ap₂ ◌++◌ old new
    where
      after : List ℕ
      after = write_loop capacity n (r.head + r.size) input 0 r.bytes

      kept :
          (j : ℕ)
          → j < r.size
          → peek capacity after (r.head + j) ≡ peek capacity r.bytes (r.head + j)
      kept j hj =
          write_loop_ne capacity n (r.head + r.size) input 0 r.bytes _
            (λ i hi e.
              mod-add-ne capacity (r.head + j) (r.size + i - j) (omega arith) (omega arith)
                (ap (λ t. t % capacity) (omega arith) ∙ e))
            (omega arith)

      old : window capacity after r.head r.size ≡ contents capacity r
      old = window_ext capacity after r.bytes r.head r.size kept

      new : window capacity after (r.head + r.size) n ≡ take n input
      new =
          ap (λ k. window capacity after k n) (omega arith)
          ∙ window-write_loop capacity n (r.head + r.size) input 0 r.bytes cap.positive
              (omega arith) v.storage (omega arith) (omega arith)

  -- `write` takes as much of the input as there is room for, appends it, and keeps the ring valid.
  pub write_lem :
      (r : Ring) (input : List ℕ) (count : ℕ)
      → IsValid capacity r
      → count ≤ length input
      → let (n, r') = write capacity r input count in
        (n ≡ min count (capacity - r.size))
        × (contents capacity r' ≡ contents capacity r ++ take n input)
        × IsValid capacity r'
  unfolding write free_space
  write_lem r input count v src = ground (
    arith,
    write_amount r input count v,
    write_amount r input (free_space capacity r) v,
    length-write_loop capacity count (r.head + r.size) input 0 r.bytes,
    length-write_loop capacity (free_space capacity r) (r.head + r.size) input 0 r.bytes,
  )

  read_amount :
      (r : Ring) (n : ℕ)
      → IsValid capacity r
      → n ≤ r.size
      → read_loop capacity n r.head 0 r.bytes
          ++ window capacity r.bytes (u32 (r.head + n) % capacity) (r.size - n)
        ≡ contents capacity r
  read_amount r n v le =
      ap₂ ◌++◌ front back
      ∙ sym (window-add capacity r.bytes r.head n (r.size - n))
      ∙ ap (window capacity r.bytes r.head) whole
    where
      same : r.head + 0 ≡ r.head
      same = omega arith

      front : read_loop capacity n r.head 0 r.bytes ≡ window capacity r.bytes r.head n
      front =
          read_loop-window capacity n r.head 0 r.bytes (omega arith)
          ∙ ap (λ k. window capacity r.bytes k n) same

      index : u32 (r.head + n) % capacity ≡ (r.head + n) % capacity + 0
      index = rw (add-zero, mod-eq_of_lt {n = r.head + n} {m = 2 ^ 32} (omega arith))

      back :
          window capacity r.bytes (u32 (r.head + n) % capacity) (r.size - n)
          ≡ window capacity r.bytes (r.head + n) (r.size - n)
      back =
          ap (λ k. window capacity r.bytes k (r.size - n)) index
          ∙ window-mod capacity r.bytes (r.head + n) 0 (r.size - n)
          ∙ ap (λ k. window capacity r.bytes k (r.size - n)) (add-zero (r.head + n))

      whole : n + (r.size - n) ≡ r.size
      whole = omega arith

  -- `read` takes the oldest bytes, as many as are asked for and there are, and keeps the ring valid.
  pub read_lem :
      (r : Ring) (count : ℕ)
      → IsValid capacity r
      → let (n, out, r') = read capacity r count in
        (n ≡ min count r.size)
        × (length out ≡ n)
        × (out ++ contents capacity r' ≡ contents capacity r)
        × IsValid capacity r'
  unfolding read
  read_lem r count v = ground (
    arith,
    read_amount r count v,
    read_amount r r.size v,
    length-read_loop capacity count r.head 0 r.bytes,
    length-read_loop capacity r.size r.head 0 r.bytes,
  )

  -- So `read` splits the queue where it has read enough.
  pub take-read :
      (r : Ring) (count : ℕ)
      → IsValid capacity r
      → let (n, out, r') = read capacity r count in
        (out ≡ take n (contents capacity r)) × (contents capacity r' ≡ drop n (contents capacity r))
  take-read r count v =
      let (n, out, r') = read capacity r count in
      let (_, len, split, _) = read_lem r count v in
      (
        rw (← split, ← len) (sym (take-append out (contents capacity r'))),
        rw (← split, ← len) (sym (drop-append out (contents capacity r'))),
      )
