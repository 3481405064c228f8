-- ===== src/Pty/Io.antt =====
-- `read` and `write` of a pseudo terminal: what the master writes passes through the line discipline,
-- which turns some characters into signals, and what the slave writes through the output discipline.
use mikos.Prelude.{
  ℕ, ◌+◌, ◌%◌, ◌/◌, List, [], ◌∷◌, none, some, Bool, false, not, ◌&&◌, ◌||◌, if◌then◌else◌, ◌==◌,
  ltb, get_or, set,
}
use mikos.Ring
use mikos.Ring.{Ring}
use mikos.Slots.{Handle}
use mikos.Signal.{Mask, empty_mask, mask_or, bit, signal_interrupt, signal_quit, signal_tty_stop}
use mikos.Pty.{
  End, master, slave, Status, success, would_block, end_of_file, io_error, bad_handle, Termios, Pty,
  Limits, Table, references, find,
}

-- `(flags & flag) != 0`, where `flag` is a power of two.
abbrev pub has_flag : ℕ → ℕ → Bool
has_flag flags flag = (flags / flag) % 2 == 1

abbrev pub peer_closed : End → Pty → Bool
peer_closed master p = p.slaves == 0
peer_closed slave p = p.masters == 0

-- The ring that an end reads from.
abbrev pub input_ring : End → Pty → Ring
input_ring master p = p.slave_to_master
input_ring slave p = p.master_to_slave

abbrev pub with_input_ring : End → Ring → Pty → Pty
with_input_ring master r p = record p { slave_to_master = r }
with_input_ring slave r p = record p { master_to_slave = r }

abbrev pub output_ring : End → Pty → Ring
output_ring master p = p.master_to_slave
output_ring slave p = p.slave_to_master

-- `translate_newline`: the flags OPOST and ONLCR are both set.
abbrev pub translates : Termios → Bool
translates s = has_flag s.output_flags 1 && has_flag s.output_flags 4

-- The signal that a character gives, or 0.
unfoldable pub signal_for : Termios → ℕ → ℕ
signal_for s character =
    if not (has_flag s.local_flags 1)
    then 0
    else if not (get_or s.control 0 0 == 0) && character == get_or s.control 0 0
    then signal_interrupt
    else if not (get_or s.control 1 0 == 0) && character == get_or s.control 1 0
    then signal_quit
    else if not (get_or s.control 10 0 == 0) && character == get_or s.control 10 0
    then signal_tty_stop
    else 0

module _ (c : Limits) where
  -- The loop over the characters that the slave writes: how many are consumed, and the ring.
  unfoldable pub write_slave : Bool → List ℕ → Ring → ℕ × Ring
  write_slave newline [] r = (0, r)
  write_slave newline (x ∷ input) r =
      let expands = newline && x == 10 in
      let put =
        (if expands
          then Ring.write c.buffer r (13 ∷ 10 ∷ []) 2
          else Ring.write c.buffer r (x ∷ []) 1) in
      let (n, r') = write_slave newline input put.1 in
      if expands && ltb (Ring.free_space c.buffer r) 2
      then (0, r)
      else if not expands && Ring.full c.buffer r
      then (0, r)
      else (n + 1, r')

  -- What a character that gives a signal does to the rings.
  unfoldable pub flush_and_echo : ℕ → Pty → Pty
  flush_and_echo x p =
      let flags = p.termios.local_flags in
      let q : Pty =
        (if has_flag flags 128 then p else record p {
          master_to_slave = Ring.clear p.master_to_slave;
          slave_to_master = Ring.clear p.slave_to_master;
        }) in
      if not (has_flag flags 8)
      then q
      else if has_flag flags 512 && ltb x 32
      then record q {
        slave_to_master = (Ring.write c.buffer q.slave_to_master (94 ∷ (x + 64) % 256 ∷ []) 2).1;
      }
      else record q { slave_to_master = (Ring.write c.buffer q.slave_to_master (x ∷ []) 1).1 }

  -- The loop over the characters that the master writes: how many are consumed, the signals, and the
  -- terminal.
  unfoldable pub write_master : List ℕ → Mask → Pty → ℕ × Mask × Pty
  unfolding signal_for flush_and_echo
  write_master [] generated p = (0, generated, p)
  write_master (x ∷ input) generated p =
      let s = signal_for p.termios x in
      let kept : Pty = record p {
        master_to_slave = (Ring.write c.buffer p.master_to_slave (x ∷ []) 1).1;
      } in
      let p' : Pty = (if s == 0 then kept else flush_and_echo x p) in
      let (n, signals, q) =
        write_master input (if s == 0 then generated else mask_or generated (bit s)) p' in
      if s == 0 && Ring.full c.buffer p.master_to_slave
      then (0, generated, p)
      else (n + 1, signals, q)

  -- The status, the bytes read, and the table.
  unfoldable pub read : Table → Handle → End → ℕ → Status × ℕ × List ℕ × Table
  read t h end count = elim (find c t h) [
    | none ↦ (bad_handle, 0, [], t)
    | some p ↦
        if references end p == 0
        then (bad_handle, 0, [], t)
        else if count == 0
        then (success, 0, [], t)
        else if not (Ring.empty (input_ring end p))
        then (let (n, out, r) = Ring.read c.buffer (input_ring end p) count in
            (success, n, out, set t h.slot (with_input_ring end r p)))
        else if peer_closed end p
        then (end_of_file, 0, [], t)
        else (would_block, 0, [], t)
  ]

  -- The `input` is the first `count` bytes of the source's. The status, the number of bytes consumed,
  -- the signals, and the table.
  unfoldable pub write : Table → Handle → End → List ℕ → Status × ℕ × Mask × Table
  unfolding write_slave write_master
  write t h end input = elim (find c t h) [
    | none ↦ (bad_handle, 0, empty_mask, t)
    | some p ↦ if references end p == 0 then (bad_handle, 0, empty_mask, t) else (elim input [
      | [] ↦ (success, 0, empty_mask, t)
      | x ∷ rest ↦ if peer_closed end p then (io_error, 0, empty_mask, t) else (elim end [
        | slave ↦
            let (n, r) = write_slave (translates p.termios) (x ∷ rest) p.slave_to_master in
            (
              if n == 0 then would_block else success,
              n,
              empty_mask,
              set t h.slot (record p { slave_to_master = r }),
            )
        | master ↦
            let (n, signals, q) = write_master (x ∷ rest) empty_mask p in
            (if n == 0 then would_block else success, n, signals, set t h.slot q)
      ])
    ])
  ]

  unfoldable pub readable : Table → Handle → End → Bool
  readable t h end = elim (find c t h) [
    | none ↦ false
    | some p ↦
        not (references end p == 0) && (not (Ring.empty (input_ring end p)) || peer_closed end p)
  ]

  unfoldable pub writable : Table → Handle → End → Bool
  writable t h end = elim (find c t h) [
    | none ↦ false
    | some p ↦
        not (references end p == 0)
        && (not (peer_closed end p) && not (Ring.full c.buffer (output_ring end p)))
  ]
