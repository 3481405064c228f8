-- ===== src/Process/Tests.antt =====
-- The theorems on the process table at concrete tables.
use mikos.Prelude.{
  ℕ, ◌≡◌, ◌⊎◌, ◌<◌, refl, List, [], ◌∷◌, none, some, true, false, ◌&&◌, if◌then◌else◌, ◌==◌, length,
  arith,
}
use mathlib.Core.Option.{map as map_option}
use mikos.Process.{
  Process, waiting, success, Table, any, with_pid, initialize, fork, found, find, at, modify, used,
  address_spaces, with_state, child_of, first_process, vfork_wait, can_run,
}
use mikos.Slots.{find_index}
use mikos.Process.Lifecycle.{wait, exit, wait_scan, is_candidate, matches}
use mikos.Process.Groups.{invariant, next_runnable, next_from}
use mikos.Process.History.{
  Call, starts, forks, waits, empty_table, step, run, run-IsValid, empty-IsValid, run-invariant,
}
use mikos.Process.Exit.{adopter_of}
use mikos.Process.Ended.{exit_lem, ended_process}
use mikos.Process.Reap.{wait-exit}
use mikos.Process.Fork.{fork_lem}
use mikos.Process.Schedule.{First, slot_of, next_runnable_lem}

-- Process 1 forks 2 and 3 in a table of four records, and waits.
abbrev family : List Call
family = starts 1 ∷ forks 1 false ∷ forks 2 true ∷ waits 1 any false ∷ []

abbrev family_table : Table
family_table = run (empty_table 4) family

run-invariant_example : invariant (run (empty_table 4) family) ≡ true
run-invariant_example = run-invariant 4 family

abbrev child_2 : Process
child_2 = record (child_of (first_process 1) 1 2 false) { state = vfork_wait }

abbrev waiting_1 : Process
waiting_1 = with_state waiting (first_process 1)

found_1 : found family_table.records 1 ≡ some waiting_1
unfolding found find run step initialize fork wait wait_scan is_candidate matches used modify at
    find_index
found_1 = refl

found_2 : found family_table.records 2 ≡ some child_2
unfolding found find run step initialize fork wait wait_scan is_candidate matches used modify at
    find_index
found_2 = refl

exit_lem_example :
    ((exit 2 7 family_table).0 ≡ success)
    × ((q : ℕ)
        → found (exit 2 7 family_table).1.records q
          ≡ map_option
              (ended_process 2 7 child_2 (adopter_of 2 family_table.records) q)
              (found family_table.records q))
exit_lem_example = exit_lem family_table 2 7 child_2 found_2 refl

wait-exit_example :
    let ended = wait 1 (with_pid 2) true (exit 2 7 family_table).1 in
    (ended.0 ≡ success) × (ended.1 ≡ 2) × (ended.2 ≡ 7) × (found ended.3.records 2 ≡ none)
wait-exit_example =
    wait-exit family_table 1 2 7 true waiting_1 child_2
      (run-IsValid 2 (empty_table 4) family (empty-IsValid 2 4)) found_1 refl found_2 refl refl
      (λ e. omega (arith, e))

next_4 : family_table.next_pid ≡ 4
unfolding run step initialize fork wait wait_scan is_candidate matches find used modify at
    find_index
next_4 = refl

three_used : used family_table.records ≡ 3
unfolding run step initialize fork wait wait_scan is_candidate matches find used modify at
    find_index
three_used = refl

four_slots : length family_table.records ≡ 4
unfolding run step initialize fork wait wait_scan is_candidate matches find used modify at
    find_index
four_slots = refl

fork_lem_example :
    let forked = fork 2 false family_table in
    (forked.0 ≡ success)
    × (forked.1 ≡ family_table.next_pid)
    × (found family_table.records family_table.next_pid ≡ none)
    × ((p : ℕ)
        → found forked.2.records p ≡ (
            if p == family_table.next_pid
            then some (child_of child_2 2 family_table.next_pid false)
            else if p == 2 && false
            then some (with_state vfork_wait child_2)
            else found family_table.records p))
fork_lem_example =
    fork_lem family_table 2 false child_2
      (run-IsValid family_table.next_pid (empty_table 4) family
        (empty-IsValid family_table.next_pid 4))
      found_2 refl (omega (arith, three_used, four_slots)) (λ e. omega (arith, e, next_4))

next_runnable_lem_example :
    First family_table.records
      (slot_of family_table.records 1)
      (length family_table.records)
      1
      (next_runnable 1 family_table)
    ⊎ ((next_runnable 1 family_table ≡ 0)
        × ((i : ℕ)
            → i < length family_table.records
            → can_run (at family_table.records i).state ≡ false))
next_runnable_lem_example = next_runnable_lem family_table 1 (omega (arith, four_slots))

-- Process 2 waits for its child, and process 1 for process 2: the child runs.
next_runnable-family : next_runnable 1 family_table ≡ 3
unfolding next_runnable next_from run step initialize fork wait wait_scan is_candidate matches find
    used modify at find_index
next_runnable-family = refl

three_spaces : address_spaces family_table.records ≡ 3
unfolding address_spaces run step initialize fork wait wait_scan is_candidate matches find used
    modify at find_index
three_spaces = refl
