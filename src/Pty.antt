-- ===== src/Pty.antt =====
-- include/mikos/process/pty.hpp: the table of pseudo terminals, each with two byte rings, a lock, a
-- terminal state and a session. As in Pipe, a pointer that `find` returns is read and written back
-- through the slot of the handle.
pub mod Io
pub mod Control
pub mod Output
pub mod Sessions
mod Tests
use mikos.Prelude.{
  ℕ, ◌+◌, ◌-◌, ◌%◌, List, [], ◌∷◌, Option, none, some, Bool, true, false, not, ◌&&◌, ◌||◌,
  if◌then◌else◌, ◌==◌, leb, get_or, set,
}
use mikos.Ring
use mikos.Ring.{Ring}
use mikos.Slots.{Handle, no_handle, next_generation, find_index, resolve}

pub data End : Type 0 where
  master slave : End

pub data Status : Type 0 where
  success would_block end_of_file io_error bad_handle locked no_space permission_denied
        invalid_argument :
      Status

pub record Termios : Type 0 where
  pub input_flags : ℕ
  pub output_flags : ℕ
  pub control_flags : ℕ
  pub local_flags : ℕ
  pub line : ℕ
  pub control : List ℕ

-- `TermiosState{}`
abbrev pub default_termios : Termios
default_termios = record {
  input_flags = 0x500;
  output_flags = 5;
  control_flags = 0xbf;
  local_flags = 0x803b;
  line = 0;
  control =
      3 ∷ 28 ∷ 127 ∷ 21 ∷ 4 ∷ 0 ∷ 1 ∷ 0 ∷ 17 ∷ 19 ∷ 26 ∷ 0 ∷ 18 ∷ 15 ∷ 23 ∷ 22 ∷ 0 ∷ 0 ∷ 0 ∷ [];
}

pub record Window : Type 0 where
  pub rows : ℕ
  pub columns : ℕ
  pub horizontal_pixels : ℕ
  pub vertical_pixels : ℕ

-- `WindowSize{}`
abbrev pub default_window : Window
default_window = record { rows = 24; columns = 80; horizontal_pixels = 0; vertical_pixels = 0 }

pub record Pty : Type 0 where
  pub master_to_slave : Ring
  pub slave_to_master : Ring
  pub termios : Termios
  pub window : Window
  pub session : ℕ
  pub foreground_group : ℕ
  pub generation : ℕ
  pub masters : ℕ
  pub slaves : ℕ
  pub mode : ℕ
  pub used : Bool
  pub is_locked : Bool

abbrev pub is_used : Pty → Bool
is_used p = p.used

abbrev pub generation_of : Pty → ℕ
generation_of p = p.generation

-- `TableCapacity`, `BufferCapacity`
pub record Limits : Type 0 where
  pub table : ℕ
  pub buffer : ℕ

abbrev pub Table : Type 0
Table = List Pty

abbrev pub references : End → Pty → ℕ
references master p = p.masters
references slave p = p.slaves

abbrev pub with_references : End → ℕ → Pty → Pty
with_references master n p = record p { masters = n }
with_references slave n p = record p { slaves = n }

module _ (c : Limits) where
  -- `Pty{}`
  pub vacant : Pty
  vacant = record {
    master_to_slave = Ring.fresh c.buffer;
    slave_to_master = Ring.fresh c.buffer;
    termios = default_termios;
    window = default_window;
    session = 0;
    foreground_group = 0;
    generation = 0;
    masters = 0;
    slaves = 0;
    mode = 438;
    used = false;
    is_locked = false;
  }

  pub at : Table → ℕ → Pty
  unfolding vacant
  at t i = get_or t i vacant

  unfoldable pub find : Table → Handle → Option Pty
  find t h = resolve is_used generation_of c.table t h

  -- What `open_master` puts into its slot.
  pub opened : ℕ → Pty
  unfolding vacant
  opened g = record vacant { used = true; is_locked = true; generation = g; masters = 1 }

  pub open_master : Table → Status × Handle × Table
  unfolding opened at
  open_master t = elim (find_index (λ p. not p.used) t) [
    | none ↦ (no_space, no_handle, t)
    | some i ↦
        let g = next_generation (at t i).generation in
        (success, record { generation = g; slot = i % 256 }, set t i (opened g))
  ]

  pub set_locked : Table → Handle → Bool → Status × Table
  unfolding find
  set_locked t h value = elim (find t h) [
    | none ↦ (bad_handle, t)
    | some p ↦
        if p.masters == 0
        then (bad_handle, t)
        else (success, set t h.slot (record p { is_locked = value }))
  ]

  -- The end of both functions that open a slave, with the terminal in slot `i`.
  open_at : Table → ℕ → Status × Handle × Table
  unfolding at
  open_at t i =
      let p = at t i in
      if p.is_locked
      then (locked, no_handle, t)
      else if p.slaves == 0xffff
      then (no_space, no_handle, t)
      else (
        success,
        record { generation = p.generation; slot = i % 256 },
        set t i (record p { slaves = p.slaves + 1 }),
      )

  pub open_slave : Table → ℕ → Status × Handle × Table
  unfolding open_at at
  open_slave t number =
      if leb c.table number || not (at t number).used
      then (bad_handle, no_handle, t)
      else open_at t number

  pub open_controlling_slave : Table → ℕ → Status × Handle × Table
  unfolding open_at
  open_controlling_slave t session =
      if session == 0
      then (bad_handle, no_handle, t)
      else (elim (find_index (λ p. p.used && p.session == session) t) [
        | none ↦ (bad_handle, no_handle, t)
        | some i ↦ open_at t i
      ])

  pub retain : Table → Handle → End → Status × Table
  unfolding find
  retain t h end = elim (find t h) [
    | none ↦ (bad_handle, t)
    | some p ↦
        let n = references end p in
        if n == 0
        then (bad_handle, t)
        else if n == 0xffff
        then (no_space, t)
        else (success, set t h.slot (with_references end (n + 1) p))
  ]

  -- The last reference gives the slot up, and keeps its generation.
  pub retire : Pty → Pty
  unfolding vacant
  retire p =
      if p.masters == 0 && p.slaves == 0 then record vacant { generation = p.generation } else p

  pub release : Table → Handle → End → Status × Table
  unfolding find retire
  release t h end = elim (find t h) [
    | none ↦ (bad_handle, t)
    | some p ↦
        let n = references end p in
        if n == 0
        then (bad_handle, t)
        else (success, set t h.slot (retire (with_references end (n - 1) p)))
  ]

  pub used : Table → ℕ
  used [] = 0
  used (p ∷ t) = (if p.used then 1 else 0) + used t

  pub active : Table → ℕ → Bool
  unfolding at
  active t number = not (leb c.table number) && (at t number).used

  pub mode : Table → ℕ → ℕ
  unfolding active at
  mode t number = if active t number then (at t number).mode else 0

  -- `mode & 07777`
  pub set_mode : Table → ℕ → ℕ → Status × Table
  unfolding active at
  set_mode t number m =
      if not (active t number)
      then (bad_handle, t)
      else (success, set t number (record (at t number) { mode = m % 4096 }))
