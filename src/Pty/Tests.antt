-- ===== src/Pty/Tests.antt =====
-- A table of two pseudo terminals with rings of four bytes, and the theorems there.
use mikos.Prelude.{ℕ, ◌≡◌, ◌⊎◌, refl, [], ◌∷◌, true, false, arith, length, replicate}
use mikos.Ring
use mikos.Ring.{Ring}
use mikos.Ring.Refine.{IsCapacity, fresh_lem}
use mikos.Slots.{Handle, find_index, resolve, next_generation}
use mikos.Pty.{
  master, slave, success, bad_handle, locked, Limits, Table, vacant, at, find, opened, open_master,
  set_locked, open_at, open_slave, open_controlling_slave, retain, retire, release, used, active,
  mode, set_mode,
}
use mikos.Pty.Io.{write_slave, write_master, read, write, readable, signal_for, flush_and_echo}
use mikos.Pty.Control.{acquire_controlling_terminal, foreground_group, session}
use mikos.Pty.Output.{Wrote, write_slave_lem}
use mikos.Pty.Sessions.{has_input, readable-has_input, session-acquire}

abbrev small : Limits
small = record { table = 2; buffer = 4 }

small-IsCapacity : IsCapacity 4
small-IsCapacity = record { positive = omega arith; bounded = omega arith }

abbrev empty_table : Table
empty_table = replicate 2 (vacant small)

-- Opened, unlocked, and opened by a slave too.
abbrev handle : Handle
handle = (open_master small empty_table).1

abbrev unlocked : Table
unlocked = (set_locked small (open_master small empty_table).2 handle false).1

abbrev pair : Table
pair = (open_slave small unlocked 0).2

handle_lem : handle ≡ record { generation = 1; slot = 0 }
unfolding open_master at vacant opened find_index next_generation
handle_lem = refl

still_locked : (open_slave small (open_master small empty_table).2 0).0 ≡ locked
unfolding open_slave open_at open_master at vacant opened find_index next_generation
still_locked = refl

pair-write : (write small pair handle slave []).0 ≡ success
unfolding write open_slave set_locked find resolve open_at open_master at vacant opened find_index
    next_generation Ring.full
pair-write = refl

pair-interrupt : (write small pair handle master (3 ∷ [])).2 1 ≡ true
unfolding write write_master signal_for flush_and_echo open_slave set_locked find resolve open_at
    open_master at vacant opened find_index next_generation Ring.full
pair-interrupt = refl

references_kept :
    ((retain small pair handle slave).0 ≡ success)
    × ((release small pair handle slave).0 ≡ success)
    × ((open_controlling_slave small pair 0).0 ≡ bad_handle)
    × ((open_controlling_slave small pair 7).0 ≡ bad_handle)
unfolding retain release retire open_controlling_slave open_slave set_locked find resolve open_at
    open_master at vacant opened find_index next_generation
references_kept = (refl, refl, refl, refl)

counted :
    (used small pair ≡ 1)
    × (active small pair 0 ≡ true)
    × (mode small pair 0 ≡ 438)
    × (mode small (set_mode small pair 0 4097).1 0 ≡ 1)
unfolding used active mode set_mode open_slave set_locked find resolve open_at open_master at vacant
    opened find_index next_generation
counted = (refl, refl, refl, refl)

pair-acquire : (acquire_controlling_terminal small pair handle 7 7 7 false).0 ≡ success
unfolding acquire_controlling_terminal open_slave set_locked find resolve open_at open_master at
    vacant opened find_index next_generation
pair-acquire = refl

two_slots : length pair ≡ 2
unfolding open_slave set_locked find resolve open_at open_master at vacant opened find_index
    next_generation
two_slots = refl

write_slave_lem_example :
    let (n, r) = write_slave small true (97 ∷ 10 ∷ 98 ∷ 99 ∷ []) (Ring.fresh 4) in
    Wrote small true (97 ∷ 10 ∷ 98 ∷ 99 ∷ []) (Ring.fresh 4) n r
write_slave_lem_example =
    write_slave_lem small small-IsCapacity true (97 ∷ 10 ∷ 98 ∷ 99 ∷ []) (Ring.fresh 4)
      (fresh_lem 4 small-IsCapacity).0

readable_test : readable small pair handle master ≡ has_input (read small pair handle master 3).0
readable_test = readable-has_input small pair handle master 3 (omega arith)

abbrev leader : ℕ
leader = 7

session-acquire_example :
    (leader ≡ leader)
    × ((session small pair handle ≡ 0) ⊎ ((session small pair handle ≡ leader) ⊎ (false ≡ true)))
    × (session small
          (acquire_controlling_terminal small pair handle leader leader leader false).1
          handle
        ≡ leader)
    × (foreground_group small
          (acquire_controlling_terminal small pair handle leader leader leader false).1
          handle
        ≡ leader)
session-acquire_example =
    session-acquire small pair handle two_slots leader leader leader false pair-acquire
