-- ===== src/Pty/Control.antt =====
-- Sessions, foreground groups and terminal states of pseudo terminals.
use mikos.Prelude.{ℕ, Option, none, some, Bool, false, not, ◌&&◌, ◌||◌, if◌then◌else◌, ◌==◌, set}
use mikos.Slots.{Handle}
use mikos.Pty.{
  Status, success, bad_handle, permission_denied, invalid_argument, Termios, Window, Pty, Limits,
  Table, find,
}

-- `session` and `foreground_group`, as they are written together.
abbrev pub with_session : ℕ → ℕ → Pty → Pty
with_session s group p = record p { session = s; foreground_group = group }

abbrev pub same_window : Window → Window → Bool
same_window a b =
    a.rows == b.rows
    && (a.columns == b.columns
        && (a.horizontal_pixels == b.horizontal_pixels && a.vertical_pixels == b.vertical_pixels))

module _ (c : Limits) where
  unfoldable pub acquire_controlling_terminal : Table → Handle → ℕ → ℕ → ℕ → Bool → Status × Table
  acquire_controlling_terminal t h pid group s force = elim (find c t h) [
    | none ↦ (bad_handle, t)
    | some p ↦
        if p.slaves == 0
        then (bad_handle, t)
        else if not (pid == s)
        then (permission_denied, t)
        else if not (p.session == 0) && (not (p.session == s) && not force)
        then (permission_denied, t)
        else (success, set t h.slot (with_session s group p))
  ]

  unfoldable pub detach : Table → Handle → ℕ → Status × Table
  detach t h s = elim (find c t h) [
    | none ↦ (bad_handle, t)
    | some p ↦
        if not (p.session == s)
        then (permission_denied, t)
        else (success, set t h.slot (with_session 0 0 p))
  ]

  unfoldable pub set_foreground_group : Table → Handle → ℕ → ℕ → Status × Table
  set_foreground_group t h s group = elim (find c t h) [
    | none ↦ (bad_handle, t)
    | some p ↦
        if group == 0
        then (invalid_argument, t)
        else if p.session == 0 || not (p.session == s)
        then (permission_denied, t)
        else (success, set t h.slot (record p { foreground_group = group }))
  ]

  unfoldable pub foreground_group : Table → Handle → ℕ
  foreground_group t h = elim (find c t h) [ none ↦ 0 | some p ↦ p.foreground_group ]

  unfoldable pub session : Table → Handle → ℕ
  session t h = elim (find c t h) [ none ↦ 0 | some p ↦ p.session ]

  unfoldable pub set_termios : Table → Handle → Termios → Status × Table
  set_termios t h value = elim (find c t h) [
    | none ↦ (bad_handle, t)
    | some p ↦ (success, set t h.slot (record p { termios = value }))
  ]

  unfoldable pub termios : Table → Handle → Option Termios
  termios t h = elim (find c t h) [ none ↦ none | some p ↦ some p.termios ]

  -- The status, what `*changed` becomes where the handle is good, and the table.
  unfoldable pub set_window : Table → Handle → Window → Status × Bool × Table
  set_window t h value = elim (find c t h) [
    | none ↦ (bad_handle, false, t)
    | some p ↦
        (success, not (same_window p.window value), set t h.slot (record p { window = value }))
  ]

  unfoldable pub window : Table → Handle → Option Window
  window t h = elim (find c t h) [ none ↦ none | some p ↦ some p.window ]
