-- ===== src/Pipe.antt =====
-- include/mikos/process/pipe.hpp: the table of pipes, each a byte ring with counted ends.
-- The template parameters are a record of limits. A pointer that `find` returns is read and written
-- back through the slot of the handle. Each operation returns the table after it.
pub mod Spec
pub mod Invariant
pub mod Refine
pub mod Lifetime
pub mod Stream
pub mod Ready
mod Tests
use mikos.Prelude.{
  ℕ, ◌+◌, ◌-◌, ◌%◌, List, [], ◌∷◌, Option, none, some, Bool, true, false, not, ◌&&◌, ◌||◌,
  if◌then◌else◌, ◌==◌, ltb, leb, get_or, set,
}
use mikos.Ring
use mikos.Ring.{Ring}
use mikos.Slots.{Handle, no_handle, next_generation, find_index, resolve}

pub data End : Type 0 where
  read_end write_end : End

pub data Status : Type 0 where
  success would_block end_of_file broken_pipe bad_handle no_space : Status

-- `TableCapacity`, `BufferCapacity`, `AtomicCapacity`
pub record Limits : Type 0 where
  pub table : ℕ
  pub buffer : ℕ
  pub atomic : ℕ

pub record Pipe : Type 0 where
  pub ring : Ring
  pub generation : ℕ
  pub readers : ℕ
  pub writers : ℕ
  pub used : Bool

abbrev pub is_used : Pipe → Bool
is_used p = p.used

abbrev pub generation_of : Pipe → ℕ
generation_of p = p.generation

abbrev pub Table : Type 0
Table = List Pipe

-- `end == PipeEnd::read ? readers : writers`
abbrev pub ends : End → Pipe → ℕ
ends read_end p = p.readers
ends write_end p = p.writers

abbrev pub with_ends : End → ℕ → Pipe → Pipe
with_ends read_end n p = record p { readers = n }
with_ends write_end n p = record p { writers = n }

module _ (c : Limits) where
  -- `Pipe{}`
  pub vacant : Pipe
  vacant = record {
    ring = Ring.fresh c.buffer;
    generation = 0;
    readers = 0;
    writers = 0;
    used = false;
  }

  -- The slot that `create` takes: a pipe with one reader and one writer.
  opened : ℕ → Pipe
  opened g = record vacant { used = true; generation = g; readers = 1; writers = 1 }

  pub create : Table → Status × Handle × Table
  unfolding vacant opened
  create t = elim (find_index (λ p. not p.used) t) [
    | none ↦ (no_space, no_handle, t)
    | some i ↦
        let g = next_generation (get_or t i vacant).generation in
        (success, record { generation = g; slot = i % 256 }, set t i (opened g))
  ]

  pub find : Table → Handle → Option Pipe
  find t h = resolve is_used generation_of c.table t h

  pub retain : Table → Handle → End → Status × Table
  retain t h end = elim (find t h) [
    | none ↦ (bad_handle, t)
    | some p ↦
        if ends end p == 0xffff
        then (no_space, t)
        else (success, set t h.slot (with_ends end (ends end p + 1) p))
  ]

  -- The last reference gives the slot up, and keeps its generation.
  retire : Pipe → Pipe
  unfolding vacant
  retire p =
      if p.readers == 0 && p.writers == 0 then record vacant { generation = p.generation } else p

  pub release : Table → Handle → End → Status × Table
  unfolding retire
  release t h end = elim (find t h) [
    | none ↦ (bad_handle, t)
    | some p ↦
        if ends end p == 0
        then (bad_handle, t)
        else (success, set t h.slot (retire (with_ends end (ends end p - 1) p)))
  ]

  -- The status, the bytes read (their number is `size`), and the table.
  pub read : Table → Handle → ℕ → Status × ℕ × List ℕ × Table
  read t h count = elim (find t h) [
    | none ↦ (bad_handle, 0, [], t)
    | some p ↦
        if p.readers == 0
        then (bad_handle, 0, [], t)
        else if count == 0
        then (success, 0, [], t)
        else if not (Ring.empty p.ring)
        then (let (n, out, ring') = Ring.read c.buffer p.ring count in
            (success, n, out, set t h.slot (record p { ring = ring' })))
        else if p.writers == 0
        then (end_of_file, 0, [], t)
        else (would_block, 0, [], t)
  ]

  pub write : Table → Handle → List ℕ → ℕ → Status × ℕ × Table
  write t h input count = elim (find t h) [
    | none ↦ (bad_handle, 0, t)
    | some p ↦
        if p.writers == 0
        then (bad_handle, 0, t)
        else if count == 0
        then (success, 0, t)
        else if p.readers == 0
        then (broken_pipe, 0, t)
        else if leb count c.atomic && ltb (Ring.free_space c.buffer p.ring) count
        then (would_block, 0, t)
        else (let (n, ring') = Ring.write c.buffer p.ring input count in
            (if n == 0 then would_block else success, n, set t h.slot (record p { ring = ring' })))
  ]

  pub readable : Table → Handle → Bool
  readable t h = elim (find t h) [
    | none ↦ false
    | some p ↦ not (p.readers == 0) && (not (Ring.empty p.ring) || p.writers == 0)
  ]

  pub writable : Table → Handle → Bool
  writable t h = elim (find t h) [
    | none ↦ false
    | some p ↦ not (p.writers == 0) && (not (p.readers == 0) && not (Ring.full c.buffer p.ring))
  ]

  pub hung_up : Table → Handle → End → Bool
  hung_up t h end = elim (find t h) [
    | none ↦ false
    | some p ↦ elim end [ read_end ↦ p.writers == 0 | write_end ↦ p.readers == 0 ]
  ]

  pub references : Table → Handle → End → ℕ
  references t h end = elim (find t h) [ none ↦ 0 | some p ↦ ends end p ]

pub used : Table → ℕ
used [] = 0
used (p ∷ t) = (if p.used then 1 else 0) + used t
