-- ===== src/Process/Groups.antt =====
-- Groups, sessions, stopping and scheduling of the process table, and its own check of itself.
use mikos.Prelude.{
  ℕ, zero, suc, ◌+◌, ◌%◌, List, [], ◌∷◌, Option, none, some, Bool, true, false, not, ◌&&◌, ◌||◌,
  if◌then◌else◌, ◌==◌, length,
}
use mikos.Process.{
  runnable, stopped, Status, success, no_process, permission_denied, invalid_pid, Process, Table,
  is_free, is_zombie, is_stopped, can_run, has_pid, find, at, modify, with_state,
}

abbrev pub with_group : ℕ → Process → Process
with_group g r = record r { process_group = g }

-- Whether `group` is a group of this session with its leader in the table.
unfoldable pub is_group_of : List Process → ℕ → ℕ → Bool
is_group_of rs group session = elim (find rs group) [
  | none ↦ false
  | some j ↦ (at rs j).process_group == group && (at rs j).session == session
]

unfoldable pub set_process_group : ℕ → ℕ → ℕ → Table → Status × Table
unfolding is_group_of
set_process_group caller_pid target group t = elim (find t.records caller_pid) [
  | none ↦ (no_process, t)
  | some c ↦
      let target_pid = if target == 0 then caller_pid else target in
      elim (find t.records target_pid) [
        | none ↦ (no_process, t)
        | some i ↦
            let r = at t.records i in
            let g = if group == 0 then target_pid else group in
            if not (target_pid == caller_pid) && not (r.parent == caller_pid)
            then (no_process, t)
            else if r.session == r.pid || (not (target_pid == caller_pid) && r.executed)
            then (permission_denied, t)
            else if not (g == target_pid) && not (is_group_of t.records g r.session)
            then (permission_denied, t)
            else (success, record t { records = modify t.records i (with_group g) })
      ]
]

abbrev pub lead_session : ℕ → Process → Process
lead_session p r = record r { session = p; process_group = p }

unfoldable pub create_session : ℕ → Table → Status × Table
create_session p t = elim (find t.records p) [
  | none ↦ (no_process, t)
  | some i ↦
      if (at t.records i).process_group == p
      then (permission_denied, t)
      else (success, record t { records = modify t.records i (lead_session p) })
]

unfoldable pub stop : ℕ → Table → Status × Table
stop p t = elim (find t.records p) [
  | none ↦ (no_process, t)
  | some i ↦
      if is_zombie (at t.records i).state
      then (no_process, t)
      else (success, record t { records = modify t.records i (with_state stopped) })
]

unfoldable pub resume : ℕ → Table → Status × Table
resume p t = elim (find t.records p) [
  | none ↦ (no_process, t)
  | some i ↦
      if is_zombie (at t.records i).state
      then (no_process, t)
      else if is_stopped (at t.records i).state
      then (success, record t { records = modify t.records i (with_state runnable) })
      else (success, t)
]

-- The loop of `next_runnable`: `n` rounds from this offset on.
unfoldable pub next_from : List Process → ℕ → ℕ → ℕ → Option ℕ
next_from rs after_slot zero offset = none
next_from rs after_slot (suc n) offset =
    let later = next_from rs after_slot n (offset + 1) in
    let i = (after_slot + offset) % length rs in
    if can_run (at rs i).state then some (at rs i).pid else later

unfoldable pub next_runnable : ℕ → Table → ℕ
unfolding next_from
next_runnable after_pid t =
    let start : ℕ = elim (find t.records after_pid) [ none ↦ 0 | some i ↦ i ] in
    let is_found : Bool = elim (find t.records after_pid) [ none ↦ false | some i ↦ true ] in
    elim (next_from t.records start (length t.records) 1) [
      | some p ↦ p
      | none ↦
          if not is_found && can_run (at t.records 0).state
          then (at t.records 0).pid
          else invalid_pid
    ]

-- Whether a record further on has this pid.
unfoldable pub has_copy : ℕ → List Process → Bool
has_copy p [] = false
has_copy p (r ∷ rs) = has_pid p r || has_copy p rs

unfoldable pub invariant_from : List Process → Bool
unfolding has_copy
invariant_from [] = true
invariant_from (r ∷ rs) =
    (if is_free r.state
      then not (not (r.pid == 0) || r.address_space)
      else not (
          r.pid == 0
          || r.process_group == 0
          || r.session == 0
          || (is_zombie r.state && r.address_space))
        && not (has_copy r.pid rs))
    && invariant_from rs

unfoldable pub invariant : Table → Bool
unfolding invariant_from
invariant t = invariant_from t.records
