-- ===== src/Process/Fork.antt =====
-- What `fork` does to each process.
use mikos.Prelude.{
  ℕ, zero, suc, ◌+◌, ◌<◌, ◌≡◌, ◌≢◌, refl, ap, subst, ◌∙◌, List, [], ◌∷◌, none, some, Bool, true,
  false, ◌&&◌, if◌then◌else◌, ◌==◌, u32, arith, length, set, get_or, get_elem?-eq-get_or, inl, inr,
  Bool-cases, Option-cases,
}
use mikos.Slots.{find_index, find_index-some}
use mikos.Process.{
  Process, success, Table, vfork_wait, is_free, is_zombie, has_pid, find, at, modify, found, used,
  vacant, child_of, with_state, fork,
}
use mikos.Process.Lookup.{find-Points}
use mikos.Process.Invariant.{IsValid}
use mikos.Process.Birth.{count-next}
use mikos.Process.View.{found-cons, found-some, find-found, found-modify, find-set}
use mikos.Process.Reap.{count-found}

found-set_free :
    (rs : List Process) (j : ℕ) (r : Process) (p : ℕ)
    → is_free (at rs j).state ≡ true
    → has_pid p r ≡ false
    → found (set rs j r) p ≡ found rs p
unfolding at
found-set_free [] j r p free_j other = refl
found-set_free (x ∷ rs) zero r p free_j other = ground (arith, found-cons x rs p, found-cons r rs p)
found-set_free (x ∷ rs) (suc j) r p free_j other =
    ground (arith, found-cons x rs p, found-cons x (set rs j r) p, found-set_free rs j r p)

found-set_new :
    (rs : List Process) (j : ℕ) (r : Process) (p : ℕ)
    → j < length rs
    → has_pid p r ≡ true
    → found rs p ≡ none
    → found (set rs j r) p ≡ some r
found-set_new [] j r p h new none_yet = absurd (omega arith)
found-set_new (x ∷ rs) zero r p h new none_yet =
    ground (arith, found-cons x rs p, found-cons r rs p)
found-set_new (x ∷ rs) (suc j) r p h new none_yet =
    ground (arith, found-cons x rs p, found-cons x (set rs j r) p, found-set_new rs j r p)

used-full :
    (rs : List Process)
    → find_index (λ (r : Process). is_free r.state) rs ≡ none
    → used rs ≡ length rs
unfolding used find_index
used-full [] h = refl
used-full (r ∷ rs) h = elim (Option-cases (find_index (λ (r : Process). is_free r.state) rs)) [
  | inl e ↦ ground (arith, used-full rs e)
  | inr (j, e) ↦ absurd (ground arith)
]

free-at :
    (rs : List Process) (j : ℕ)
    → find_index (λ (r : Process). is_free r.state) rs ≡ some j
    → (j < length rs) × (is_free (at rs j).state ≡ true)
unfolding at
free-at rs j e =
    let (r, at_j, fits, below) = find_index-some (λ (r : Process). is_free r.state) rs j e in
    let same : get_or rs j vacant ≡ r = cc (at_j, get_elem?-eq-get_or rs j vacant below) in
    (below, ap (λ (x : Process). is_free x.state) same ∙ fits)

-- The new record `r` in the free slot `j`, and then the parent put to sleep, if it is to wait.
module _ (rs : List Process) (q i j : ℕ) (r : Process) (vfork : Bool) (e : find rs q ≡ some i)
    (within : j < length rs) (spare : is_free (at rs j).state ≡ true)
    (born : is_free r.state ≡ false) (fresh : found rs r.pid ≡ none) where
  found-copied : (p : ℕ) → found (set rs j r) p ≡ (if p == r.pid then some r else found rs p)
  found-copied p = elim (Bool-cases (p == r.pid)) [
    | inl it ↦
        let same : r.pid ≡ p = ground arith in
        let none_yet = subst (λ k. found rs k ≡ none) same fresh in
        let new = found-set_new rs j r p within (ground arith) none_yet in rw it new
    | inr other ↦ let old = found-set_free rs j r p spare (ground arith) in rw other old
  ]

  not_child : (q == r.pid) ≡ false
  not_child = elim (Bool-cases (q == r.pid)) [
    | inl it ↦
        let same : q ≡ r.pid = ground arith in let parent_there = found-some rs q i e in absurd cc
    | inr other ↦ other
  ]

  find-copied : find (set rs j r) q ≡ some i
  find-copied = find-set rs j r q (ground (arith, not_child)) ∙ e

  found-asleep :
      (p : ℕ)
      → found (if vfork then modify (set rs j r) i (with_state vfork_wait) else set rs j r) p ≡ (
          if p == r.pid
          then some r
          else if p == q && vfork
          then some (with_state vfork_wait (at rs i))
          else found rs p)
  found-asleep p =
      let alive = (find-Points rs q i e).answers in
      let copy = found-copied q in
      let parent_there = found-some rs q i e in
      let still = found-some (set rs j r) q i find-copied in
      let same : at (set rs j r) i ≡ at rs i =
        let old : found (set rs j r) q ≡ found rs q = ground (arith, copy, not_child) in cc in
      let asleep =
        found-modify (set rs j r) q i (with_state vfork_wait) p find-copied
          (λ k. ground (arith, same, alive)) in
      elim (Bool-cases vfork) [
        | inl waits ↦ rw waits (ground (arith, asleep, same, not_child, found-copied p))
        | inr goes_on ↦ rw goes_on (ground (arith, found-copied p))
      ]

-- A process that is there and is no zombie forks while a record is free and pids are left: it gets a
-- pid that no process had, the child with that pid is a copy of it as `fork` makes it, it waits if the fork is a
-- vfork, and every other process stays as it was.
pub fork_lem :
    (t : Table) (q : ℕ) (vfork : Bool) (parent : Process)
    → IsValid t.next_pid t
    → found t.records q ≡ some parent
    → is_zombie parent.state ≡ false
    → used t.records < length t.records
    → t.next_pid ≢ 0
    → ((fork q vfork t).0 ≡ success)
      × ((fork q vfork t).1 ≡ t.next_pid)
      × (found t.records t.next_pid ≡ none)
      × ((p : ℕ)
          → found (fork q vfork t).2.records p ≡ (
              if p == t.next_pid
              then some (child_of parent q t.next_pid vfork)
              else if p == q && vfork
              then some (with_state vfork_wait parent)
              else found t.records p))
unfolding fork
fork_lem t q vfork parent v there alive spare ne =
    elim (Option-cases (find_index (λ (r : Process). is_free r.state) t.records)) [
      | inl full ↦ absurd (omega (arith, used-full t.records full))
      | inr (j, ej) ↦
          let (i, e, at_i) = find-found t.records q parent there in
          let (within, spare_j) = free-at t.records j ej in
          let fresh : found t.records t.next_pid ≡ none =
            count-found t.next_pid t.records
              (count-next t.next_pid t.records (omega arith) v.good.each) in
          let pt = find-Points t.records q i e in
          subst
            (λ (x : Process).
              is_zombie x.state ≡ false
              → ((fork q vfork t).0 ≡ success)
                × ((fork q vfork t).1 ≡ t.next_pid)
                × (found t.records t.next_pid ≡ none)
                × ((p : ℕ)
                    → found (fork q vfork t).2.records p ≡ (
                        if p == t.next_pid
                        then some (child_of x q t.next_pid vfork)
                        else if p == q && vfork
                        then some (with_state vfork_wait x)
                        else found t.records p)))
            at_i
            (λ alive_i.
              let result : fork q vfork t ≡ (
                success,
                t.next_pid,
                record {
                  records =
                      if vfork
                      then modify (set t.records j (child_of (at t.records i) q t.next_pid vfork)) i
                          (with_state vfork_wait)
                      else set t.records j (child_of (at t.records i) q t.next_pid vfork);
                  next_pid = u32 (t.next_pid + 1);
                },
              ) =
                rw (e, ej, fork) (ground (arith, pt.answers)) in
              rw result (
                refl,
                refl,
                fresh,
                found-asleep t.records q i j (child_of (at t.records i) q t.next_pid vfork) vfork e
                    within spare_j refl fresh,
              ))
            alive
    ]
