-- ===== src/Process.antt =====
-- include/mikos/process/model.hpp: the process table, from fork to wait.
-- `records_` is a list, whose length is the template parameter `Capacity`. What `find` points to is
-- read and written through its index, so that two pointers into one record stay one record.
pub mod Lookup
pub mod Lifecycle
pub mod Groups
pub mod Waiting
pub mod Invariant
pub mod Birth
pub mod History
pub mod View
pub mod Exit
pub mod Ended
pub mod Reap
pub mod Fork
pub mod Schedule
mod Tests
use mikos.Prelude.{
  ℕ, zero, suc, ◌+◌, ◌-◌, ◌%◌, List, [], ◌∷◌, Option, none, some, Bool, true, false, not, ◌&&◌,
  ◌||◌, if◌then◌else◌, ◌==◌, u32, length, get_elem?, get_or, set,
}
use mikos.Signal
use mikos.Slots.{find_index}

abbrev pub invalid_pid : ℕ
invalid_pid = 0

pub data ProcessState : Type 0 where
  free runnable running waiting vfork_wait stopped zombie : ProcessState

pub data Status : Type 0 where
  success no_process no_child would_block no_space invalid_argument permission_denied : Status

pub data Selector : Type 0 where
  any : Selector
  with_pid : ℕ → Selector
  in_group : ℕ → Selector

pub record Process : Type 0 where
  pub state : ProcessState
  pub pid : ℕ
  pub parent : ℕ
  pub process_group : ℕ
  pub session : ℕ
  pub exit_status : ℕ
  pub vfork_parent : ℕ
  pub executed : Bool
  pub address_space : Bool
  pub signals : Signal.State

-- `ProcessRecord{}`
abbrev pub vacant : Process
vacant = record {
  state = free;
  pid = 0;
  parent = 0;
  process_group = 0;
  session = 0;
  exit_status = 0;
  vfork_parent = 0;
  executed = false;
  address_space = false;
  signals = Signal.initial;
}

pub record Table : Type 0 where
  pub records : List Process
  pub next_pid : ℕ

abbrev pub is_free : ProcessState → Bool
is_free free = true
is_free _ = false

abbrev pub is_zombie : ProcessState → Bool
is_zombie zombie = true
is_zombie _ = false

abbrev pub is_waiting : ProcessState → Bool
is_waiting waiting = true
is_waiting _ = false

abbrev pub is_vfork_wait : ProcessState → Bool
is_vfork_wait vfork_wait = true
is_vfork_wait _ = false

abbrev pub is_stopped : ProcessState → Bool
is_stopped stopped = true
is_stopped _ = false

-- `runnable(state)`
abbrev pub can_run : ProcessState → Bool
can_run runnable = true
can_run running = true
can_run _ = false

-- The record that `find` looks for.
abbrev pub has_pid : ℕ → Process → Bool
has_pid p r = not (is_free r.state) && r.pid == p

pub find : List Process → ℕ → Option ℕ
find rs p = find_index (has_pid p) rs

pub at : List Process → ℕ → Process
at rs i = get_or rs i vacant

-- A write through a pointer to record `i`.
pub modify : List Process → ℕ → (Process → Process) → List Process
unfolding at
modify rs i f = set rs i (f (at rs i))

-- The record that a pointer from `find` points to, if it is not null.
pub found : List Process → ℕ → Option Process
unfolding find at
found rs p = elim (find rs p) [ none ↦ none | some i ↦ some (at rs i) ]

pub used : List Process → ℕ
used [] = 0
used (r ∷ rs) = (if is_free r.state then 0 else 1) + used rs

pub address_spaces : List Process → ℕ
address_spaces [] = 0
address_spaces (r ∷ rs) = (if r.address_space then 1 else 0) + address_spaces rs

-- The process that `initialize` starts.
abbrev pub first_process : ℕ → Process
first_process p = record {
  state = running;
  pid = p;
  parent = invalid_pid;
  process_group = p;
  session = p;
  exit_status = 0;
  vfork_parent = 0;
  executed = false;
  address_space = true;
  signals = Signal.initial;
}

pub initialize : ℕ → Table → Status × Table
initialize p t =
    if p == invalid_pid || not (used t.records == 0)
    then (invalid_argument, t)
    else (success, record { records = set t.records 0 (first_process p); next_pid = u32 (p + 1) })

-- The copy of `parent` that `fork` puts into a free slot.
abbrev pub child_of : Process → ℕ → ℕ → Bool → Process
child_of parent parent_pid p vfork = record parent {
  state = runnable;
  pid = p;
  parent = parent_pid;
  exit_status = 0;
  vfork_parent = if vfork then parent_pid else 0;
  executed = false;
  address_space = true;
}

abbrev pub with_state : ProcessState → Process → Process
with_state s r = record r { state = s }

-- The status, and the child's pid: what the parent gets.
pub fork : ℕ → Bool → Table → Status × ℕ × Table
fork parent_pid vfork t = elim (find t.records parent_pid) [
  | none ↦ (no_process, 0, t)
  | some i ↦
      if is_zombie (at t.records i).state || is_free (at t.records i).state
      then (no_process, 0, t)
      else (elim (find_index (λ (r : Process). is_free r.state) t.records) [
        | none ↦ (no_space, 0, t)
        | some j ↦
            if t.next_pid == invalid_pid
            then (no_space, 0, t)
            else (let child = child_of (at t.records i) parent_pid t.next_pid vfork in
                let rs = set t.records j child in
                (
                  success,
                  t.next_pid,
                  record {
                    records = if vfork then modify rs i (with_state vfork_wait) else rs;
                    next_pid = u32 (t.next_pid + 1);
                  },
                ))
      ])
]
