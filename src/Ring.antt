-- ===== src/Ring.antt =====
-- include/mikos/io/ring_buffer.hpp: the bounded byte ring under pipes and pseudo-terminals.
-- The template parameter `Capacity` is the section's parameter, and `data_` a list of that length.
-- A pointer to bytes is a list: `read` returns what it stores through `output`.
pub mod Window
pub mod Refine
mod Tests
use mikos.Prelude.{
  ℕ, zero, suc, ◌+◌, ◌-◌, ◌%◌, List, [], ◌∷◌, Bool, ltb, ◌==◌, if◌then◌else◌, u32, sub32, get_or,
  set, replicate,
}

pub record Ring : Type 0 where
  pub bytes : List ℕ
  pub head : ℕ
  pub size : ℕ

-- `amount` rounds of the loop of `write` from index `i` on, at `start = head_ + size_`.
pub write_loop : ℕ → ℕ → ℕ → List ℕ → ℕ → List ℕ → List ℕ
write_loop capacity zero start input i bytes = bytes
write_loop capacity (suc n) start input i bytes =
    write_loop capacity n start input (i + 1)
      (set bytes (u32 (start + i) % capacity) (get_or input i 0))

-- `amount` rounds of the loop of `read` from index `i` on: the bytes that it copies out.
pub read_loop : ℕ → ℕ → ℕ → ℕ → List ℕ → List ℕ
read_loop capacity zero head i bytes = []
read_loop capacity (suc n) head i bytes =
    get_or bytes (u32 (head + i) % capacity) 0 ∷ read_loop capacity n head (i + 1) bytes

unfoldable pub empty : Ring → Bool
empty r = r.size == 0

module _ (capacity : ℕ) where
  -- `RingBuffer<Capacity>{}`
  pub fresh : Ring
  fresh = record { bytes = replicate capacity 0; head = 0; size = 0 }

  pub free_space : Ring → ℕ
  free_space r = sub32 capacity r.size

  unfoldable pub full : Ring → Bool
  full r = r.size == capacity

  pub write : Ring → List ℕ → ℕ → ℕ × Ring
  unfolding free_space
  write r input count =
      let amount = if ltb count (free_space r) then count else free_space r in
      (
        amount,
        record r {
          bytes = write_loop capacity amount (r.head + r.size) input 0 r.bytes;
          size = u32 (r.size + amount);
        },
      )

  -- The number of bytes read, the bytes, and the ring after.
  pub read : Ring → ℕ → ℕ × List ℕ × Ring
  read r count =
      let amount = if ltb count r.size then count else r.size in
      (
        amount,
        read_loop capacity amount r.head 0 r.bytes,
        record r { head = u32 (r.head + amount) % capacity; size = r.size - amount },
      )

pub clear : Ring → Ring
clear r = record r { head = 0; size = 0 }
