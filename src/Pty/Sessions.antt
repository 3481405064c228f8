-- ===== src/Pty/Sessions.antt =====
-- What a terminal lets a process do: locks, sessions and polls.
use mikos.Prelude.{
  ℕ, ◌<◌, ◌≡◌, ◌⊎◌, refl, inl, inr, some, Bool, true, false, arith, length, set, Option-cases,
}
use mikos.Slots.{Handle, resolve-set_live, resolve-some}
use mikos.Ring
use mikos.Pty.{End, Status, success, end_of_file, Pty, Limits, Table, is_used, generation_of, find}
use mikos.Pty.Io.{read, readable}
use mikos.Pty.Control.{acquire_controlling_terminal, foreground_group, session, with_session}

-- A read ends at once with data or with the end of the file.
abbrev pub has_input : Status → Bool
has_input success = true
has_input end_of_file = true
has_input _ = false

-- `readable` is what a read of at least one byte would tell by its status.
pub readable-has_input :
    (c : Limits) (t : Table) (h : Handle) (end : End) (count : ℕ)
    → 0 < count
    → readable c t h end ≡ has_input (read c t h end count).0
unfolding readable read Ring.empty
readable-has_input c t h end count pos = elim (Option-cases (find c t h)) [
  | inl e ↦ ground arith
  | inr (p, e) ↦ ground arith
]

module _ (c : Limits) (t : Table) (h : Handle) (full : length t ≡ c.table) where
  -- A terminal that is written back with the same generation is what its handle names.
  kept :
      (p p' : Pty)
      → find c t h ≡ some p
      → p'.used ≡ true
      → p'.generation ≡ p.generation
      → find c (set t h.slot p') h ≡ some p'
  unfolding find
  kept p p' e u g = ground (arith, resolve-set_live is_used generation_of c.table t h h p p')

  used_lem : (p : Pty) → find c t h ≡ some p → p.used ≡ true
  unfolding find
  used_lem p e =
      let (below, there, in_use, fits) = resolve-some is_used generation_of c.table t h p e in
      in_use

  -- Where a session leader takes a terminal, it names that session and the group from then on, if no
  -- other session has it or the call forces it.
  pub session-acquire :
      (pid group s : ℕ) (force : Bool)
      → (acquire_controlling_terminal c t h pid group s force).0 ≡ success
      → (pid ≡ s)
        × ((session c t h ≡ 0) ⊎ ((session c t h ≡ s) ⊎ (force ≡ true)))
        × (session c (acquire_controlling_terminal c t h pid group s force).1 h ≡ s)
        × (foreground_group c (acquire_controlling_terminal c t h pid group s force).1 h ≡ group)
  unfolding acquire_controlling_terminal session foreground_group
  session-acquire pid group s force ok = elim (Option-cases (find c t h)) [
    | inl e ↦ absurd (ground arith)
    | inr (p, e) ↦
        let now = kept p (with_session s group p) e (used_lem p e) refl in ground (arith, now)
  ]
