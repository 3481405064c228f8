-- ===== src/Pipe/Spec.antt =====
-- What a table of pipes is to its clients: each handle names nothing, or a queue of bytes with
-- counted readers and writers. No slots, no generations, no indices.
use mikos.Prelude.{
  ℕ, ◌+◌, ◌-◌, List, [], ◌++◌, Option, none, some, ◌&&◌, if◌then◌else◌, ◌==◌, ltb, leb, min, length,
  take, drop,
}
use mikos.Slots.{Handle, same_handle}
use mikos.Pipe.{
  End, read_end, write_end, Status, success, would_block, end_of_file, broken_pipe, bad_handle,
  no_space, Limits,
}

pub record View : Type 0 where
  pub queue : List ℕ
  pub readers : ℕ
  pub writers : ℕ

abbrev pub Views : Type 0
Views = Handle → Option View

abbrev pub update : Views → Handle → Option View → Views
update a h v j = if same_handle h j then v else a j

abbrev pub ends : End → View → ℕ
ends read_end v = v.readers
ends write_end v = v.writers

abbrev pub with_ends : End → ℕ → View → View
with_ends read_end n v = record v { readers = n }
with_ends write_end n v = record v { writers = n }

-- A pipe lives as long as some end of it is open.
abbrev pub alive : View → Option View
alive v = if v.readers == 0 && v.writers == 0 then none else some v

abbrev pub retain : Views → Handle → End → Status × Views
retain a h end = elim (a h) [
  | none ↦ (bad_handle, a)
  | some v ↦
      if ends end v == 0xffff
      then (no_space, a)
      else (success, update a h (some (with_ends end (ends end v + 1) v)))
]

abbrev pub release : Views → Handle → End → Status × Views
release a h end = elim (a h) [
  | none ↦ (bad_handle, a)
  | some v ↦
      if ends end v == 0
      then (bad_handle, a)
      else (success, update a h (alive (with_ends end (ends end v - 1) v)))
]

-- `capacity` is the size of the queue's buffer.
abbrev pub write : Limits → Views → Handle → List ℕ → ℕ → Status × ℕ × Views
write c a h input count = elim (a h) [
  | none ↦ (bad_handle, 0, a)
  | some v ↦
      let room = c.buffer - length v.queue in
      let n = min count room in
      if v.writers == 0
      then (bad_handle, 0, a)
      else if count == 0
      then (success, 0, a)
      else if v.readers == 0
      then (broken_pipe, 0, a)
      else if leb count c.atomic && ltb room count
      then (would_block, 0, a)
      else (
        if n == 0 then would_block else success,
        n,
        update a h (some (record v { queue = v.queue ++ take n input })),
      )
]

-- The bytes that `read` hands over, oldest first, leave the queue.
abbrev pub read : Views → Handle → ℕ → Status × ℕ × List ℕ × Views
read a h count = elim (a h) [
  | none ↦ (bad_handle, 0, [], a)
  | some v ↦
      let n = min count (length v.queue) in
      if v.readers == 0
      then (bad_handle, 0, [], a)
      else if count == 0
      then (success, 0, [], a)
      else if length v.queue == 0
      then (if v.writers == 0 then end_of_file else would_block, 0, [], a)
      else (success, n, take n v.queue, update a h (some (record v { queue = drop n v.queue })))
]
