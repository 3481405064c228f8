-- ===== src/Process/History.antt =====
-- Any sequence of calls on the process table, and the code's own check of the table after it.
use mikos.Prelude.{ℕ, zero, suc, ◌≡◌, refl, List, [], ◌∷◌, Bool, true, false, arith, u32, replicate}
use mikos.Process.{Process, Table, Selector, vacant, initialize, fork}
use mikos.Process.Lifecycle.{mark_exec, exit, wait}
use mikos.Process.Groups.{
  set_process_group, create_session, stop, resume, has_copy, invariant_from, invariant,
}
use mikos.Process.Lookup.{count, Good}
use mikos.Process.Invariant.{
  IsValid, mark_exec-IsValid, exit-IsValid, stop-IsValid, resume-IsValid, create_session-IsValid,
  set_process_group-IsValid,
}
use mikos.Process.Birth.{initialize-IsValid, fork-IsValid, wait-IsValid}

-- `ProcessTable{}` with this capacity.
abbrev pub empty_table : ℕ → Table
empty_table capacity = record { records = replicate capacity vacant; next_pid = 1 }

-- A call, with the arguments that a caller picks.
pub data Call : Type 0 where
  starts : ℕ → Call
  forks : ℕ → Bool → Call
  execs : ℕ → Call
  exits : ℕ → ℕ → Call
  waits : ℕ → Selector → Bool → Call
  groups : ℕ → ℕ → ℕ → Call
  leads : ℕ → Call
  stops : ℕ → Call
  resumes : ℕ → Call

unfoldable pub step : Table → Call → Table
step t (starts p) = (initialize (u32 p) t).1
step t (forks p vfork) = (fork p vfork t).2
step t (execs p) = (mark_exec p t).1
step t (exits p status) = (exit p status t).1
step t (waits p selector no_hang) = (wait p selector no_hang t).3
step t (groups caller target group) = (set_process_group caller target group t).1
step t (leads p) = (create_session p t).1
step t (stops p) = (stop p t).1
step t (resumes p) = (resume p t).1

unfoldable pub run : Table → List Call → Table
unfolding step
run t [] = t
run t (c ∷ cs) = run (step t c) cs

step-IsValid : (p : ℕ) (t : Table) (c : Call) → IsValid p t → IsValid p (step t c)
unfolding step
step-IsValid p t (starts q) v = initialize-IsValid p (u32 q) t (ground arith) v
step-IsValid p t (forks q vfork) v = fork-IsValid p q vfork t v
step-IsValid p t (execs q) v = mark_exec-IsValid p q t v
step-IsValid p t (exits q status) v = exit-IsValid p q status t v
step-IsValid p t (waits q selector no_hang) v = wait-IsValid p q selector no_hang t v
step-IsValid p t (groups caller target group) v =
    set_process_group-IsValid p caller target group t v
step-IsValid p t (leads q) v = create_session-IsValid p q t v
step-IsValid p t (stops q) v = stop-IsValid p q t v
step-IsValid p t (resumes q) v = resume-IsValid p q t v

pub run-IsValid : (p : ℕ) (t : Table) (cs : List Call) → IsValid p t → IsValid p (run t cs)
unfolding run
run-IsValid p t [] v = v
run-IsValid p t (c ∷ cs) v = run-IsValid p (step t c) cs (step-IsValid p t c v)

empty-Good : (p n : ℕ) → Good p 1 (replicate n vacant)
empty-Good p zero = record { each = tt; unique = omega arith }
empty-Good p (suc n) =
    let g = empty-Good p n in
    record { each = (ground arith, g.each); unique = ground (arith, g.unique) }

pub empty-IsValid : (p n : ℕ) → IsValid p (empty_table n)
empty-IsValid p n = record { next_in = omega arith; good = empty-Good p n }

count-has_copy : (p : ℕ) (rs : List Process) → count p rs ≡ 0 → has_copy p rs ≡ false
unfolding has_copy
count-has_copy p [] h = refl
count-has_copy p (r ∷ rs) h = ground (arith, count-has_copy p rs)

Good-invariant_from :
    (next : ℕ) (rs : List Process) → ((p : ℕ) → Good p next rs) → invariant_from rs ≡ true
unfolding invariant_from
Good-invariant_from next [] g = refl
Good-invariant_from next (r ∷ rs) g =
    let rest : invariant_from rs ≡ true =
      Good-invariant_from next rs
        (λ p. record { each = (g p).each.1; unique = ground (arith, (g p).unique) }) in
    ground (arith, (g r.pid).each.0, (g r.pid).unique, count-has_copy r.pid rs, rest)

-- After any calls on a new table, of any capacity, the table passes its own check: free records are
-- clear, every other record has a pid, a group and a session, a zombie has no address space, and no
-- two processes have one pid.
pub run-invariant :
    (capacity : ℕ) (cs : List Call) → invariant (run (empty_table capacity) cs) ≡ true
unfolding invariant
run-invariant capacity cs =
    let t = run (empty_table capacity) cs in
    Good-invariant_from t.next_pid t.records
      (λ p. (run-IsValid p (empty_table capacity) cs (empty-IsValid p capacity)).good)
