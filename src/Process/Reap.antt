-- ===== src/Process/Reap.antt =====
-- A parent's `wait` for a child that is a zombie.
use mikos.Prelude.{
  ℕ, zero, suc, ◌≤◌, ◌<◌, ◌≡◌, ◌≢◌, refl, ap, ◌∙◌, List, [], ◌∷◌, none, some, Bool, true, false,
  ◌==◌, arith, length, inl, inr, Option-cases,
}
use mathlib.Core.Option.{map as map_option}
use mikos.Slots.{All-get_elem?, find_index}
use mikos.Process.{
  Process, success, Table, with_pid, vacant, is_waiting, is_zombie, has_pid, find, at, modify,
  found,
}
use mikos.Process.Lifecycle.{
  adopt, clear_vfork, end_with, exit, wait, wait_scan, is_candidate, matches,
}
use mikos.Process.Lookup.{count, count-set, find-Points}
use mikos.Process.Waiting.{wait_scan-some, wait_scan-none}
use mikos.Process.Invariant.{IsValid, exit-IsValid}
use mikos.Process.View.{woken, found-cons, find-found}
use mikos.Process.Exit.{exit-after_exit, after_exit, adopter_of, ended, vfork_woken}

pub count-found : (p : ℕ) (rs : List Process) → count p rs ≡ 0 → found rs p ≡ none
unfolding found find find_index
count-found p [] h = refl
count-found p (r ∷ rs) h = ground (arith, found-cons r rs p, count-found p rs)

count-at :
    (p : ℕ) (rs : List Process) (j : ℕ)
    → j < length rs
    → has_pid p (at rs j) ≡ true
    → 0 < count p rs
unfolding at
count-at p [] j h has = absurd (omega arith)
count-at p (r ∷ rs) zero h has = ground arith
count-at p (r ∷ rs) (suc j) h has = ground (arith, count-at p rs j)

-- In a table with one process of this pid, `find` gives it.
found-at :
    (p : ℕ) (rs : List Process) (j : ℕ)
    → count p rs ≤ 1
    → j < length rs
    → has_pid p (at rs j) ≡ true
    → found rs p ≡ some (at rs j)
unfolding at
found-at p [] j one h has = absurd (omega arith)
found-at p (r ∷ rs) zero one h has = ground (arith, found-cons r rs p)
found-at p (r ∷ rs) (suc j) one h has =
    ground (arith, found-cons r rs p, found-at p rs j, count-at p rs j)

found-vacant :
    (p : ℕ) (rs : List Process) (j : ℕ)
    → count p rs ≤ 1
    → j < length rs
    → has_pid p (at rs j) ≡ true
    → found (modify rs j (λ r. vacant)) p ≡ none
unfolding modify
found-vacant p rs j one h has = count-found p _ (ground (arith, count-set p rs j vacant h))

candidate_of :
    (q c : ℕ) (parent r : Process)
    → has_pid c r ≡ true
    → r.parent ≡ q
    → is_candidate q parent (with_pid c) r ≡ true
unfolding is_candidate matches
candidate_of q c parent r has its = ground arith

candidate-has_pid :
    (q c : ℕ) (parent r : Process)
    → is_candidate q parent (with_pid c) r ≡ true
    → has_pid c r ≡ true
unfolding is_candidate matches
candidate-has_pid q c parent r asked = ground arith

-- The parent of a zombie that waits for it by its pid gets the pid and the exit status at once, and
-- the process is gone, if no two processes have that pid.
pub wait_lem :
    (t : Table) (q c : ℕ) (no_hang : Bool) (parent child : Process)
    → IsValid c t
    → found t.records q ≡ some parent
    → is_zombie parent.state ≡ false
    → found t.records c ≡ some child
    → is_zombie child.state ≡ true
    → child.parent ≡ q
    → ((wait q (with_pid c) no_hang t).0 ≡ success)
      × ((wait q (with_pid c) no_hang t).1 ≡ c)
      × ((wait q (with_pid c) no_hang t).2 ≡ child.exit_status)
      × (found (wait q (with_pid c) no_hang t).3.records c ≡ none)
unfolding wait
wait_lem t q c no_hang parent child v fq alive fc dead its =
    let (i, e, at_i) = find-found t.records q parent fq in
    let (k, ek, at_k) = find-found t.records c child fc in
    let alive_i : is_zombie (at t.records i).state ≡ false =
      ap (λ (x : Process). is_zombie x.state) at_i ∙ alive in
    elim (Option-cases (wait_scan q (at t.records i) (with_pid c) t.records).1) [
      | inl none_dead ↦
          let pt = find-Points t.records c k ek in
          let passed =
            All-get_elem? _ t.records k
              (wait_scan-none q (at t.records i) (with_pid c) t.records none_dead) pt.there in
          let asked =
            candidate_of q c (at t.records i) (at t.records k) pt.answers
              (ap (λ (x : Process). x.parent) at_k ∙ its) in
          let dead_k : is_zombie (at t.records k).state ≡ true =
            ap (λ (x : Process). is_zombie x.state) at_k ∙ dead in
          absurd (ground arith)
      | inr (j, picks) ↦
          let got = wait_scan-some q (at t.records i) (with_pid c) t.records j picks in
          let one = v.good.unique in
          let names = candidate-has_pid q c (at t.records i) (at t.records j) got.asked in
          let it : at t.records j ≡ child =
            let here = found-at c t.records j one got.within names in cc in
          let result : wait q (with_pid c) no_hang t ≡ (
            success,
            (at t.records j).pid,
            (at t.records j).exit_status,
            record t { records = modify t.records j (λ r. vacant) },
          ) =
            rw (e, picks, alive_i, wait) refl in
          rw result (
            refl,
            ground arith,
            ap (λ (x : Process). x.exit_status) it,
            found-vacant c t.records j one got.within names,
          )
    ]

module _ (c a : ℕ) (x : Process) where
  adopt-state : (adopt c a x).state ≡ x.state
  adopt-state = ground arith

  adopt-exit_status : (adopt c a x).exit_status ≡ x.exit_status
  adopt-exit_status = ground arith

  adopt-parent : (x.parent == c) ≡ false → (adopt c a x).parent ≡ x.parent
  adopt-parent h = ground arith

is_zombie-woken :
    (k q : ℕ) (x : Process) → is_zombie (woken is_waiting k q x).state ≡ is_zombie x.state
is_zombie-woken k q x = ground arith

is_zombie-vfork_woken :
    (v q : ℕ) (x : Process) → is_zombie (vfork_woken v q x).state ≡ is_zombie x.state
is_zombie-vfork_woken v q x = ground arith

-- A zombie is not woken.
woken-zombie : (k q : ℕ) (x : Process) → is_zombie x.state ≡ true → woken is_waiting k q x ≡ x
woken-zombie k q x dead = ground arith

module _ (c status : ℕ) (r : Process) (a : ℕ) (x : Process) where
  ended_itself : ended c status r.vfork_parent c x ≡ clear_vfork (end_with status x)
  ended_itself = ground arith

  after_exit-itself : after_exit c status r a c x ≡ adopt c a (clear_vfork (end_with status x))
  after_exit-itself =
      rw ended_itself
        (ap (adopt c a) (woken-zombie r.parent c (clear_vfork (end_with status x)) refl))

  is_zombie-after_exit :
      (q : ℕ) → (q == c) ≡ false → is_zombie (after_exit c status r a q x).state ≡ is_zombie x.state
  is_zombie-after_exit q other =
      ap is_zombie (adopt-state c a _)
      ∙ is_zombie-woken r.parent q _
      ∙ rw other (is_zombie-vfork_woken r.vfork_parent q x)

-- A child exits with a status, and its parent, which is another process and no zombie, waits for it:
-- the parent gets the child's pid and that status, whatever it asked for on hanging, and the child is
-- gone, if the table is well formed with one process of that pid.
pub wait-exit :
    (t : Table) (q c status : ℕ) (no_hang : Bool) (parent child : Process)
    → IsValid c t
    → found t.records q ≡ some parent
    → is_zombie parent.state ≡ false
    → found t.records c ≡ some child
    → is_zombie child.state ≡ false
    → child.parent ≡ q
    → q ≢ c
    → let ended = wait q (with_pid c) no_hang (exit c status t).1 in
      (ended.0 ≡ success) × (ended.1 ≡ c) × (ended.2 ≡ status) × (found ended.3.records c ≡ none)
wait-exit t q c status no_hang parent child v fq up fc alive its other =
    let effect = exit-after_exit t c status child fc alive in
    let a = adopter_of c t.records in
    let zombie_child = clear_vfork (end_with status child) in
    let (done, its_pid, its_status, gone) =
      wait_lem (exit c status t).1 q c no_hang (after_exit c status child a q parent)
        (adopt c a zombie_child) (exit-IsValid c c status t v)
        (effect.1 q ∙ ap (map_option (after_exit c status child a q)) fq)
        (is_zombie-after_exit c status child a parent q (ground (arith, other)) ∙ up)
        (effect.1 c
          ∙ ap (map_option (after_exit c status child a c)) fc
          ∙ ap some (after_exit-itself c status child a child))
        (ap is_zombie (adopt-state c a zombie_child))
        (adopt-parent c a zombie_child (ground (arith, its, other)) ∙ its) in
    (done, its_pid, its_status ∙ adopt-exit_status c a zombie_child, gone)
