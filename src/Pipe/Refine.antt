-- ===== src/Pipe/Refine.antt =====
-- The operations on the table keep it valid, and are those of the views of its handles.
use mikos.Prelude.{
  ℕ, ◌+◌, ◌-◌, ◌^◌, ◌≤◌, ◌<◌, ◌≡◌, refl, ap, ◌∙◌, List, ◌++◌, some, true, ◌&&◌, ◌==◌, arith, length,
  set, min, take, drop, Option-cases, Bool-cases, inl, inr,
}
use mikos.Slots.{Handle, resolve-some}
use mikos.Ring
use mikos.Ring.Refine
use mikos.Ring.Refine.{contents, write_lem, read_lem, take-read, free_space_lem}
use mikos.Ring.Window.{length-window}
use mikos.Pipe.{
  End, read_end, write_end, Limits, Pipe, Table, is_used, generation_of, vacant, find, retire,
  retain, release, read, write,
}
use mikos.Pipe.Spec
use mikos.Pipe.Spec.{View, Views, update}
use mikos.Pipe.Invariant.{
  IsLimits, IsPipe, IsValid, view_pipe, view, vacant_lem, set-IsValid, find-IsPipe, view-set_live,
  view-set_dead,
}

find-used : (c : Limits) (t : Table) (h : Handle) (p : Pipe) → find c t h ≡ some p → p.used ≡ true
unfolding find
find-used c t h p e = (resolve-some is_used generation_of c.table t h p e).2

module _ (c : Limits) (limits : IsLimits c) where
  -- Writing back a pipe that a handle names, in use as before.
  write_back :
      (t : Table) (h : Handle) (p p' : Pipe)
      → IsValid c t
      → find c t h ≡ some p
      → p'.used ≡ p.used
      → p'.generation ≡ p.generation
      → IsPipe c p'
      → IsValid c (set t h.slot p')
        × (view c (set t h.slot p') ≡ update (view c t) h (some (view_pipe c p')))
  write_back t h p p' v e u g ok = (
    set-IsValid c limits t h.slot p' v ok,
    view-set_live c limits t h p p' v e (u ∙ find-used c t h p e) g,
  )

  retain_found :
      (t : Table) (h : Handle) (end : End) (p : Pipe)
      → IsValid c t
      → find c t h ≡ some p
      → let (s, t') = retain c t h end in
        IsValid c t' × ((s, view c t') ≡ Spec.retain (view c t) h end)
  unfolding retain
  retain_found t h read_end p v e = ground (
    arith,
    find-IsPipe c limits t h p v e,
    find-used c t h p e,
    write_back t h p (record p { readers = p.readers + 1 }) v e,
  )
  retain_found t h write_end p v e = ground (
    arith,
    find-IsPipe c limits t h p v e,
    find-used c t h p e,
    write_back t h p (record p { writers = p.writers + 1 }) v e,
  )

  -- `retain` counts one more reference, up to what a count can hold.
  pub retain_refines :
      (t : Table) (h : Handle) (end : End)
      → IsValid c t
      → let (s, t') = retain c t h end in
        IsValid c t' × ((s, view c t') ≡ Spec.retain (view c t) h end)
  unfolding retain
  retain_refines t h end v = elim (Option-cases (find c t h)) [
    | inl e ↦ ground arith
    | inr (p, e) ↦ retain_found t h end p v e
  ]

  -- Writing back what the last reference leaves.
  retire_lem :
      (t : Table) (h : Handle) (p p' : Pipe)
      → IsValid c t
      → find c t h ≡ some p
      → p'.used ≡ p.used
      → p'.generation ≡ p.generation
      → p'.readers < 2 ^ 16
      → p'.writers < 2 ^ 16
      → Refine.IsValid c.buffer p'.ring
      → IsValid c (set t h.slot (retire c p'))
        × (view c (set t h.slot (retire c p')) ≡ update (view c t) h (Spec.alive (view_pipe c p')))
  unfolding retire vacant
  retire_lem t h p p' v e u g r w ok = elim (Bool-cases (p'.readers == 0 && p'.writers == 0)) [
    | inl last ↦
        rw (last, retire)
          (set-IsValid c limits t h.slot _ v gone_ok, view-set_dead c limits t h p _ v e refl)
    | inr more ↦
        rw (more, retire)
          (write_back t h p p' v e u g
            (ground (arith, find-IsPipe c limits t h p v e, find-used c t h p e)))
  ]
    where
      gone : Pipe
      gone = record (vacant c) { generation = p'.generation }

      gone_ok : IsPipe c gone
      gone_ok = ground (arith, vacant_lem c limits, find-IsPipe c limits t h p v e)

  release_found :
      (t : Table) (h : Handle) (end : End) (p : Pipe)
      → IsValid c t
      → find c t h ≡ some p
      → let (s, t') = release c t h end in
        IsValid c t' × ((s, view c t') ≡ Spec.release (view c t) h end)
  unfolding release
  release_found t h read_end p v e = ground (
    arith,
    find-IsPipe c limits t h p v e,
    retire_lem t h p (record p { readers = p.readers - 1 }) v e,
  )
  release_found t h write_end p v e = ground (
    arith,
    find-IsPipe c limits t h p v e,
    retire_lem t h p (record p { writers = p.writers - 1 }) v e,
  )

  -- `release` gives one reference up, and with the last one the pipe.
  pub release_refines :
      (t : Table) (h : Handle) (end : End)
      → IsValid c t
      → let (s, t') = release c t h end in
        IsValid c t' × ((s, view c t') ≡ Spec.release (view c t) h end)
  unfolding release
  release_refines t h end v = elim (Option-cases (find c t h)) [
    | inl e ↦ ground arith
    | inr (p, e) ↦ release_found t h end p v e
  ]

  -- The ring's own `write` at the pipe that a handle names.
  stored :
      (t : Table) (h : Handle) (input : List ℕ) (count : ℕ) (p : Pipe)
      → count ≤ length input
      → IsValid c t
      → find c t h ≡ some p
      → let (n, ring') = Ring.write c.buffer p.ring input count in
        let t' = set t h.slot (record p { ring = ring' }) in
        let room = c.buffer - length (contents c.buffer p.ring) in
        (n ≡ min count room)
        × IsValid c t'
        × (view c t'
            ≡ update (view c t) h (
                some (record (view_pipe c p) {
                  queue = contents c.buffer p.ring ++ take (min count room) input;
                })))
  stored t h input count p src v e = (amount, back.0, back.1 ∙ ap named same)
    where
      ring' : Ring.Ring
      ring' = (Ring.write c.buffer p.ring input count).1

      held : length (contents c.buffer p.ring) ≡ p.ring.size
      held = length-window c.buffer p.ring.bytes p.ring.head p.ring.size

      wrote :
          ((Ring.write c.buffer p.ring input count).0 ≡ min count (c.buffer - p.ring.size))
          × (contents c.buffer ring'
              ≡ contents c.buffer p.ring ++ take (Ring.write c.buffer p.ring input count).0 input)
          × Refine.IsValid c.buffer ring'
      wrote =
          write_lem c.buffer limits.buffer_in p.ring input count
            (find-IsPipe c limits t h p v e).ring_valid src

      amount :
          (Ring.write c.buffer p.ring input count).0
          ≡ min count (c.buffer - length (contents c.buffer p.ring))
      amount = rw held wrote.0

      same :
          contents c.buffer ring'
          ≡ contents c.buffer p.ring
            ++ take (min count (c.buffer - length (contents c.buffer p.ring))) input
      same = wrote.1 ∙ ap (λ n. contents c.buffer p.ring ++ take n input) amount

      named : List ℕ → Views
      named q = update (view c t) h (some (record (view_pipe c p) { queue = q }))

      back :
          IsValid c (set t h.slot (record p { ring = ring' }))
          × (view c (set t h.slot (record p { ring = ring' })) ≡ named (contents c.buffer ring'))
      back =
          write_back t h p (record p { ring = ring' }) v e refl refl
            (ground (arith, wrote, find-IsPipe c limits t h p v e))

  write_found :
      (t : Table) (h : Handle) (input : List ℕ) (count : ℕ) (p : Pipe)
      → count ≤ length input
      → IsValid c t
      → find c t h ≡ some p
      → let (s, n, t') = write c t h input count in
        IsValid c t' × ((s, n, view c t') ≡ Spec.write c (view c t) h input count)
  unfolding write
  write_found t h input count p src v e = ground (
    arith,
    free_space_lem c.buffer limits.buffer_in (find-IsPipe c limits t h p v e).ring_valid,
    length-window c.buffer p.ring.bytes p.ring.head p.ring.size,
    stored t h input count p src v e,
  )

  -- `write` appends as much as there is room for, all of it or nothing up to the atomic size.
  pub write_refines :
      (t : Table) (h : Handle) (input : List ℕ) (count : ℕ)
      → count ≤ length input
      → IsValid c t
      → let (s, n, t') = write c t h input count in
        IsValid c t' × ((s, n, view c t') ≡ Spec.write c (view c t) h input count)
  unfolding write
  write_refines t h input count src v = elim (Option-cases (find c t h)) [
    | inl e ↦ ground arith
    | inr (p, e) ↦ write_found t h input count p src v e
  ]

  -- The ring's own `read` at the pipe that a handle names.
  fetched :
      (t : Table) (h : Handle) (count : ℕ) (p : Pipe)
      → IsValid c t
      → find c t h ≡ some p
      → let (n, out, ring') = Ring.read c.buffer p.ring count in
        let t' = set t h.slot (record p { ring = ring' }) in
        let queue = contents c.buffer p.ring in
        let m = min count (length queue) in
        (n ≡ m)
        × (out ≡ take m queue)
        × IsValid c t'
        × (view c t' ≡ update (view c t) h (some (record (view_pipe c p) { queue = drop m queue })))
  fetched t h count p v e = (
    amount,
    taken.0 ∙ ap (λ n. take n (contents c.buffer p.ring)) amount,
    back.0,
    back.1 ∙ ap named same,
  )
    where
      ring' : Ring.Ring
      ring' = (Ring.read c.buffer p.ring count).2

      held : length (contents c.buffer p.ring) ≡ p.ring.size
      held = length-window c.buffer p.ring.bytes p.ring.head p.ring.size

      valid : Refine.IsValid c.buffer p.ring
      valid = (find-IsPipe c limits t h p v e).ring_valid

      amount : (Ring.read c.buffer p.ring count).0 ≡ min count (length (contents c.buffer p.ring))
      amount = rw held (read_lem c.buffer limits.buffer_in p.ring count valid).0

      taken :
          ((Ring.read c.buffer p.ring count).1
            ≡ take (Ring.read c.buffer p.ring count).0 (contents c.buffer p.ring))
          × (contents c.buffer ring'
              ≡ drop (Ring.read c.buffer p.ring count).0 (contents c.buffer p.ring))
      taken = take-read c.buffer limits.buffer_in p.ring count valid

      same :
          contents c.buffer ring'
          ≡ drop (min count (length (contents c.buffer p.ring))) (contents c.buffer p.ring)
      same = taken.1 ∙ ap (λ n. drop n (contents c.buffer p.ring)) amount

      named : List ℕ → Views
      named q = update (view c t) h (some (record (view_pipe c p) { queue = q }))

      back :
          IsValid c (set t h.slot (record p { ring = ring' }))
          × (view c (set t h.slot (record p { ring = ring' })) ≡ named (contents c.buffer ring'))
      back =
          write_back t h p (record p { ring = ring' }) v e refl refl
            (ground (
              arith,
              (read_lem c.buffer limits.buffer_in p.ring count valid).3,
              find-IsPipe c limits t h p v e,
            ))

  read_found :
      (t : Table) (h : Handle) (count : ℕ) (p : Pipe)
      → IsValid c t
      → find c t h ≡ some p
      → let (s, n, out, t') = read c t h count in
        IsValid c t' × ((s, n, out, view c t') ≡ Spec.read (view c t) h count)
  unfolding read Ring.empty
  read_found t h count p v e =
      ground (
        arith,
        length-window c.buffer p.ring.bytes p.ring.head p.ring.size,
        fetched t h count p v e,
      )

  -- `read` hands the oldest bytes over, and tells an idle pipe from one that nobody writes to.
  pub read_refines :
      (t : Table) (h : Handle) (count : ℕ)
      → IsValid c t
      → let (s, n, out, t') = read c t h count in
        IsValid c t' × ((s, n, out, view c t') ≡ Spec.read (view c t) h count)
  unfolding read
  read_refines t h count v = elim (Option-cases (find c t h)) [
    | inl e ↦ ground arith
    | inr (p, e) ↦ read_found t h count p v e
  ]
