-- ===== src/Process/Invariant.antt =====
-- Every operation on the process table keeps its records well formed and its pids distinct.
use mikos.Prelude.{
  ℕ, ◌^◌, ◌<◌, ◌≡◌, refl, List, [], ◌∷◌, some, Bool, false, not, ◌&&◌, if◌then◌else◌, ◌==◌, arith,
  length, inl, inr, Option-cases, if_intro,
}
use mikos.Slots.{All}
use mikos.Process.{
  Process, ProcessState, Table, Status, success, runnable, stopped, is_zombie, is_waiting,
  is_vfork_wait, has_pid, find, at, modify, with_state,
}
use mikos.Process.Lifecycle.{
  wake, wake_vfork_parent, clear_vfork, set_executed, mark_exec, adopt_all, reparent_children,
  end_with, exit,
}
use mikos.Process.Groups.{with_group, set_process_group, lead_session, create_session, stop, resume}
use mikos.Process.Lookup.{
  count, find-Points, RecordOk, Good, at-RecordOk, modify-Good, length-modify,
}

-- A table whose records are well formed, with at most one that answers to `p`.
pub record IsValid (p : ℕ) (t : Table) : Type 0 where
  pub next_in : t.next_pid < 2 ^ 32
  pub good : Good p t.next_pid t.records

length-wake :
    (asleep : ProcessState → Bool) (rs : List Process) (q : ℕ)
    → length (wake asleep rs q) ≡ length rs
unfolding wake
length-wake asleep rs q = elim (Option-cases (find rs q)) [
  | inl e ↦ rw (e, wake)
  | inr (j, e) ↦ ground (arith, length-modify rs j (with_state runnable))
]

module _ (p next : ℕ) where
  -- Waking a process leaves its pid alone.
  wake-Good :
      (asleep : ProcessState → Bool) (rs : List Process) (q : ℕ)
      → (asleep ProcessState.free ≡ false)
      → (asleep ProcessState.zombie ≡ false)
      → Good p next rs
      → Good p next (wake asleep rs q)
  unfolding wake
  wake-Good asleep rs q fr zo g = elim (Option-cases (find rs q)) [
    | inl e ↦ rw (e, wake) g
    | inr (j, e) ↦
        let pt = find-Points rs q j e in
        rw (e, wake)
          (if_intro (Good p next) (asleep (at rs j).state) (modify rs j (with_state runnable)) rs
            (λ slept.
              modify-Good p next rs j (with_state runnable) g pt.within
                (ground (arith, at-RecordOk next rs j g.each pt.within)) (ground (arith, pt)))
            (λ other. g))
  ]

  wake_vfork_parent-Good :
      (rs : List Process) (i : ℕ)
      → i < length rs
      → Good p next rs
      → Good p next (wake_vfork_parent rs i)
  unfolding wake_vfork_parent
  wake_vfork_parent-Good rs i h g =
      if_intro (Good p next) (q == 0) rs (modify (wake is_vfork_wait rs q) i clear_vfork)
        (λ orphan. g)
        (λ forked.
          modify-Good p next (wake is_vfork_wait rs q) i clear_vfork woken within
            (ground (arith, at-RecordOk next (wake is_vfork_wait rs q) i woken.each within))
            (ground arith))
    where
      q : ℕ
      q = (at rs i).vfork_parent

      woken : Good p next (wake is_vfork_wait rs q)
      woken = wake-Good is_vfork_wait rs q refl refl g

      within : i < length (wake is_vfork_wait rs q)
      within = rw (length-wake is_vfork_wait rs q) h

  adopt_all-RecordOk :
      (exiting adopter : ℕ) (rs : List Process)
      → All (RecordOk next) rs
      → All (RecordOk next) (adopt_all exiting adopter rs)
  unfolding adopt_all
  adopt_all-RecordOk exiting adopter [] h = h
  adopt_all-RecordOk exiting adopter (r ∷ rs) h =
      (ground (arith, h.0), adopt_all-RecordOk exiting adopter rs h.1)

  count-adopt_all :
      (exiting adopter : ℕ) (rs : List Process)
      → count p (adopt_all exiting adopter rs) ≡ count p rs
  unfolding adopt_all
  count-adopt_all exiting adopter [] = refl
  count-adopt_all exiting adopter (r ∷ rs) = ground (arith, count-adopt_all exiting adopter rs)

  reparent-Good :
      (exiting : ℕ) (rs : List Process)
      → Good p next rs
      → Good p next (reparent_children exiting rs)
  unfolding reparent_children
  reparent-Good exiting rs g = record {
    each = adopt_all-RecordOk exiting _ rs g.each;
    unique = rw (count-adopt_all exiting _ rs) g.unique;
  }

  -- A change that leaves pid, state, group, session and space as they were, or good.
  change-Good :
      (rs : List Process) (q i : ℕ) (f : Process → Process)
      → Good p next rs
      → find rs q ≡ some i
      → (RecordOk next (at rs i) → RecordOk next (f (at rs i)))
      → (has_pid p (f (at rs i)) && not (has_pid p (at rs i))) ≡ false
      → Good p next (modify rs i f)
  change-Good rs q i f g e ok same =
      let pt = find-Points rs q i e in
      modify-Good p next rs i f g pt.within (ok (at-RecordOk next rs i g.each pt.within)) same

module _ (p : ℕ) where
  pub mark_exec-IsValid : (q : ℕ) (t : Table) → IsValid p t → IsValid p (mark_exec q t).1
  unfolding mark_exec
  mark_exec-IsValid q t v = elim (Option-cases (find t.records q)) [
    | inl e ↦ rw (e, mark_exec) v
    | inr (i, e) ↦
        rw (e, mark_exec)
          (if_intro (λ (r : Status × Table). IsValid p r.1) (is_zombie (at t.records i).state)
            (Status.no_process, t) (success, _) (λ dead. v)
            (λ alive. record {
              next_in = v.next_in;
              good =
                  wake_vfork_parent-Good p t.next_pid _ i
                    (rw (length-modify t.records i set_executed)
                      (find-Points t.records q i e).within)
                    (change-Good p t.next_pid t.records q i set_executed v.good e
                      (λ k. ground (arith, k)) (ground arith));
            }))
  ]

  pub exit-IsValid : (q status : ℕ) (t : Table) → IsValid p t → IsValid p (exit q status t).1
  unfolding exit
  exit-IsValid q status t v = elim (Option-cases (find t.records q)) [
    | inl e ↦ rw (e, exit) v
    | inr (i, e) ↦
        rw (e, exit)
          (if_intro (λ (r : Status × Table). IsValid p r.1) (is_zombie (at t.records i).state)
            (Status.no_process, t) (success, _) (λ dead. v)
            (λ alive. record {
              next_in = v.next_in;
              good = reparent-Good p t.next_pid q _ (
                  wake-Good p t.next_pid is_waiting _ _ refl refl (
                    wake_vfork_parent-Good p t.next_pid _ i
                      (rw (length-modify t.records i (end_with status))
                        (find-Points t.records q i e).within)
                      (change-Good p t.next_pid t.records q i (end_with status) v.good e
                        (λ k. ground (arith, k, find-Points t.records q i e))
                        (ground (arith, find-Points t.records q i e)))));
            }))
  ]

  simple :
      (q i : ℕ) (f : Process → Process) (t : Table)
      → IsValid p t
      → find t.records q ≡ some i
      → (RecordOk t.next_pid (at t.records i) → RecordOk t.next_pid (f (at t.records i)))
      → (has_pid p (f (at t.records i)) && not (has_pid p (at t.records i))) ≡ false
      → IsValid p (record t { records = modify t.records i f })
  simple q i f t v e ok same = record {
    next_in = v.next_in;
    good = change-Good p t.next_pid t.records q i f v.good e ok same;
  }

  pub stop-IsValid : (q : ℕ) (t : Table) → IsValid p t → IsValid p (stop q t).1
  unfolding stop
  stop-IsValid q t v = elim (Option-cases (find t.records q)) [
    | inl e ↦ rw (e, stop) v
    | inr (i, e) ↦ ground (
      arith,
      simple q i (with_state stopped) t v e (λ k. ground (arith, k, find-Points t.records q i e))
          (ground (arith, find-Points t.records q i e)),
    )
  ]

  pub resume-IsValid : (q : ℕ) (t : Table) → IsValid p t → IsValid p (resume q t).1
  unfolding resume
  resume-IsValid q t v = elim (Option-cases (find t.records q)) [
    | inl e ↦ rw (e, resume) v
    | inr (i, e) ↦ ground (
      arith,
      simple q i (with_state runnable) t v e (λ k. ground (arith, k, find-Points t.records q i e))
          (ground (arith, find-Points t.records q i e)),
    )
  ]

  pub create_session-IsValid : (q : ℕ) (t : Table) → IsValid p t → IsValid p (create_session q t).1
  unfolding create_session
  create_session-IsValid q t v = elim (Option-cases (find t.records q)) [
    | inl e ↦ rw (e, create_session) v
    | inr (i, e) ↦ ground (
      arith,
      simple q i (lead_session q) t v e (λ k. ground (arith, k, find-Points t.records q i e))
          (ground (arith, find-Points t.records q i e)),
    )
  ]

  pub set_process_group-IsValid :
      (caller target group : ℕ) (t : Table)
      → IsValid p t
      → IsValid p (set_process_group caller target group t).1
  unfolding set_process_group
  set_process_group-IsValid caller target group t v = elim (Option-cases (find t.records caller)) [
    | inl e ↦ rw (e, set_process_group) v
    | inr (c, e) ↦ elim (Option-cases (find t.records goal)) [
      | inl e' ↦ rw (e, e', set_process_group) v
      | inr (i, e') ↦ ground (
        arith,
        simple goal i (with_group g) t v e'
            (λ k. ground (arith, k, find-Points t.records goal i e'))
            (ground (arith, find-Points t.records goal i e')),
      )
    ]
  ]
    where
      goal : ℕ
      goal = if target == 0 then caller else target

      g : ℕ
      g = if group == 0 then goal else group
