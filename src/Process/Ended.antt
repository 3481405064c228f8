-- ===== src/Process/Ended.antt =====
-- What `exit` makes of each process, field by field.
use mikos.Prelude.{
  ℕ, ◌≡◌, refl, ap, subst, ◌∙◌, List, some, Bool, false, not, ◌&&◌, ◌||◌, if◌then◌else◌, ◌==◌,
  arith, inl, inr, Option-cases,
}
use mathlib.Core.Option.{map as map_option}
use mikos.Process.{
  Process, runnable, zombie, success, Table, is_free, is_zombie, is_waiting, is_vfork_wait, found,
}
use mikos.Process.Lifecycle.{exit}
use mikos.Process.Lookup.{find-Points}
use mikos.Process.View.{find-found}
use mikos.Process.Exit.{after_exit, adopter_of, exit-after_exit}

-- Whether the exit of process `c`, whose record was `r`, wakes process `q`: a parent that waits, or one
-- that a vfork suspended.
abbrev pub is_woken : Process → ℕ → Process → Bool
is_woken r q x =
    (q == r.parent && is_waiting x.state)
    || (not (r.vfork_parent == 0) && (q == r.vfork_parent && is_vfork_wait x.state))

-- Process `q` after that exit; `heir` gets the children.
abbrev pub ended_process : ℕ → ℕ → Process → ℕ → ℕ → Process → Process
ended_process c status r heir q x = record {
  state = if q == c then zombie else if is_woken r q x then runnable else x.state;
  pid = x.pid;
  parent = if x.parent == c then heir else x.parent;
  process_group = x.process_group;
  session = x.session;
  exit_status = if q == c then status else x.exit_status;
  vfork_parent = if q == c then 0 else x.vfork_parent;
  executed = x.executed;
  address_space = if q == c then false else x.address_space;
  signals = x.signals;
}

same_process :
    (c status : ℕ) (r : Process) (heir q : ℕ) (x : Process)
    → is_free x.state ≡ false
    → after_exit c status r heir q x ≡ ended_process c status r heir q x
same_process c status r heir q x there = ground (arith, there)

found-live :
    (rs : List Process) (q : ℕ) (x : Process) → found rs q ≡ some x → is_free x.state ≡ false
found-live rs q x there =
    let (i, e, same) = find-found rs q x there in
    let here = (find-Points rs q i e).answers in
    subst (λ (y : Process). is_free y.state ≡ false) same (ground (arith, here))

-- The exit of process `c`, which is there and is no zombie, succeeds. Afterwards that process is a
-- zombie with the status, no address space and no vfork parent; its parent, if it waits, and the parent
-- that a vfork of it suspended are runnable; every child of it has process 1 as its parent, if that is
-- there and is not the one that exits, and 0 otherwise; and every other field of every process that is
-- there is as it was, while no pid appears that was not there.
pub exit_lem :
    (t : Table) (c status : ℕ) (r : Process)
    → found t.records c ≡ some r
    → is_zombie r.state ≡ false
    → ((exit c status t).0 ≡ success)
      × ((q : ℕ)
          → found (exit c status t).1.records q
            ≡ map_option (ended_process c status r (adopter_of c t.records) q) (found t.records q))
exit_lem t c status r there alive =
    let (ok, after) = exit-after_exit t c status r there alive in
    let heir = adopter_of c t.records in
    (
      ok,
      λ q. after q ∙ elim (Option-cases (found t.records q)) [
        | inl gone ↦ rw gone refl
        | inr (x, e) ↦
            rw e (ap some (same_process c status r heir q x (found-live t.records q x e)))
      ],
    )
