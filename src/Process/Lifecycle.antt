-- ===== src/Process/Lifecycle.antt =====
-- `mark_exec`, `exit` and `wait` of the process table, with the private functions that they call.
use mikos.Prelude.{
  ℕ, suc, List, [], ◌∷◌, Option, none, some, Bool, true, false, not, ◌&&◌, ◌||◌, if◌then◌else◌,
  ◌==◌,
}
use mikos.Process.{
  ProcessState, runnable, waiting, zombie, Status, success, no_process, no_child, would_block,
  Selector, any, with_pid, in_group, Process, vacant, Table, is_free, is_zombie, is_waiting,
  is_vfork_wait, find, at, modify, with_state,
}

abbrev pub clear_vfork : Process → Process
clear_vfork r = record r { vfork_parent = 0 }

-- Makes the process with this pid runnable, if it is in the state that the test accepts.
unfoldable pub wake : (ProcessState → Bool) → List Process → ℕ → List Process
wake asleep rs p = elim (find rs p) [
  | none ↦ rs
  | some j ↦ if asleep (at rs j).state then modify rs j (with_state runnable) else rs
]

-- The argument `child` is record `i`.
unfoldable pub wake_vfork_parent : List Process → ℕ → List Process
unfolding wake
wake_vfork_parent rs i =
    let p = (at rs i).vfork_parent in
    if p == 0 then rs else modify (wake is_vfork_wait rs p) i clear_vfork

abbrev pub set_executed : Process → Process
set_executed r = record r { executed = true }

unfoldable pub mark_exec : ℕ → Table → Status × Table
unfolding wake_vfork_parent
mark_exec p t = elim (find t.records p) [
  | none ↦ (no_process, t)
  | some i ↦
      if is_zombie (at t.records i).state
      then (no_process, t)
      else (success, record t { records = wake_vfork_parent (modify t.records i set_executed) i })
]

-- Whether process 1 is there and is not the one that exits.
unfoldable pub has_adopter : ℕ → List Process → Bool
has_adopter exiting [] = false
has_adopter exiting (r ∷ rs) =
    (not (is_free r.state) && (r.pid == 1 && not (r.pid == exiting))) || has_adopter exiting rs

abbrev pub adopt : ℕ → ℕ → Process → Process
adopt exiting adopter r =
    if not (is_free r.state) && r.parent == exiting then record r { parent = adopter } else r

unfoldable pub adopt_all : ℕ → ℕ → List Process → List Process
adopt_all exiting adopter [] = []
adopt_all exiting adopter (r ∷ rs) = adopt exiting adopter r ∷ adopt_all exiting adopter rs

unfoldable pub reparent_children : ℕ → List Process → List Process
unfolding has_adopter adopt_all
reparent_children exiting rs = adopt_all exiting (if has_adopter exiting rs then 1 else 0) rs

abbrev pub end_with : ℕ → Process → Process
end_with status r = record r { exit_status = status; state = zombie; address_space = false }

unfoldable pub exit : ℕ → ℕ → Table → Status × Table
unfolding wake_vfork_parent wake reparent_children
exit p status t = elim (find t.records p) [
  | none ↦ (no_process, t)
  | some i ↦
      if is_zombie (at t.records i).state
      then (no_process, t)
      else (let ended = wake_vfork_parent (modify t.records i (end_with status)) i in
          let told = wake is_waiting ended (at ended i).parent in
          (success, record t { records = reparent_children p told }))
]

unfoldable pub matches : Process → Process → Selector → Bool
matches parent child any = true
matches parent child (with_pid v) = child.pid == v
matches parent child (in_group v) =
    child.process_group == (if v == 0 then parent.process_group else v)

-- A child that the caller of `wait` asks for.
unfoldable pub is_candidate : ℕ → Process → Selector → Process → Bool
unfolding matches
is_candidate parent_pid parent selector r =
    not (is_free r.state || not (r.parent == parent_pid) || not (matches parent r selector))

-- The loop of `wait`: whether there is a candidate, and the first one that is a zombie.
unfoldable pub wait_scan : ℕ → Process → Selector → List Process → Bool × Option ℕ
unfolding is_candidate
wait_scan parent_pid parent selector [] = (false, none)
wait_scan parent_pid parent selector (r ∷ rs) =
    let (later, dead) = wait_scan parent_pid parent selector rs in
    let after : Option ℕ = elim dead [ none ↦ none | some i ↦ some (suc i) ] in
    if not (is_candidate parent_pid parent selector r)
    then (later, after)
    else if is_zombie r.state
    then (true, some 0)
    else (true, after)

-- The status, the pid and the exit status that the caller gets, and the table.
unfoldable pub wait : ℕ → Selector → Bool → Table → Status × ℕ × ℕ × Table
unfolding wait_scan
wait parent_pid selector no_hang t = elim (find t.records parent_pid) [
  | none ↦ (no_process, 0, 0, t)
  | some i ↦
      if is_zombie (at t.records i).state
      then (no_process, 0, 0, t)
      else (let (has_child, dead) = wait_scan parent_pid (at t.records i) selector t.records in
          (elim dead [
            | some j ↦ (
              success,
              (at t.records j).pid,
              (at t.records j).exit_status,
              record t { records = modify t.records j (λ r. vacant) },
            )
            | none ↦
                if not has_child
                then (no_child, 0, 0, t)
                else if no_hang
                then (success, 0, 0, t)
                else (
                  would_block,
                  0,
                  0,
                  record t { records = modify t.records i (with_state waiting) },
                )
          ]))
]
