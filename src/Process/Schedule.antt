-- ===== src/Process/Schedule.antt =====
-- The choice of the next process to run.
use mikos.Prelude.{
  ℕ, zero, suc, ◌+◌, ◌-◌, ◌%◌, ◌≤◌, ◌<◌, ◌≡◌, ◌⊎◌, ap, subst, ◌∙◌, List, none, some, true, false,
  ◌==◌, ltb, arith, length, inl, inr, Bool-cases, Option-cases,
}
use native.Mathlib.Nat.{mod-eq_of_lt, mod-eq-sub-mod}
use mikos.Process.{Process, Table, invalid_pid, can_run, find, at}
use mikos.Process.Groups.{next_from, next_runnable}
use mikos.Process.Lookup.{find-Points}

-- The record at the offset `d` from the slot `s`, going round.
abbrev pub around : List Process → ℕ → ℕ → Process
around rs s d = at rs ((s + d) % length rs)

next_from-none :
    (rs : List Process) (s n o : ℕ)
    → next_from rs s n o ≡ none
    → (d : ℕ) → o ≤ d
    → d < o + n
    → can_run (around rs s d).state ≡ false
unfolding next_from
next_from-none rs s zero o h d lo hi = absurd (omega arith)
next_from-none rs s (suc n) o h d lo hi = elim (Bool-cases (o == d)) [
  | inl first ↦
      let same : o ≡ d = ground arith in
      subst (λ (k : ℕ). can_run (around rs s k).state ≡ false) same (ground arith)
  | inr later ↦ next_from-none rs s n (o + 1) (ground arith) d (ground arith) (omega arith)
]

-- The first that can run, within `n` offsets.
pub record First (rs : List Process) (s n o p : ℕ) : Type 0 where
  pub offset : ℕ
  pub from : o ≤ offset
  pub below : offset < o + n
  pub runs : can_run (around rs s offset).state ≡ true
  pub is_it : p ≡ (around rs s offset).pid
  pub before : (d : ℕ) → o ≤ d → d < offset → can_run (around rs s d).state ≡ false

next_from-some : (rs : List Process) (s n o p : ℕ) → next_from rs s n o ≡ some p → First rs s n o p
unfolding next_from
next_from-some rs s zero o p h = cc
next_from-some rs s (suc n) o p h = elim (Bool-cases (can_run (around rs s o).state)) [
  | inl now ↦ record {
    offset = o;
    from = omega arith;
    below = omega arith;
    runs = now;
    is_it = ground arith;
    before = λ d lo hi. absurd (omega arith);
  }
  | inr not_now ↦
      let rest = next_from-some rs s n (o + 1) p (ground arith) in
      record {
        offset = rest.offset;
        from = omega (arith, rest.from);
        below = omega (arith, rest.below);
        runs = rest.runs;
        is_it = rest.is_it;
        before = λ d lo hi. elim (Bool-cases (o == d)) [
          | inl first ↦
              let same : o ≡ d = ground arith in
              subst (λ (k : ℕ). can_run (around rs s k).state ≡ false) same not_now
          | inr later ↦ rest.before d (ground arith) hi
        ];
      }
]

-- The slot that the search starts after.
abbrev pub slot_of : List Process → ℕ → ℕ
slot_of rs p = elim (find rs p) [ none ↦ 0 | some i ↦ i ]

slot_of-bound : (rs : List Process) (p : ℕ) → 0 < length rs → slot_of rs p < length rs
slot_of-bound rs p pos = elim (Option-cases (find rs p)) [
  | inl e ↦ rw (e, slot_of) pos
  | inr (i, e) ↦ rw (e, slot_of) ((find-Points rs p i e).within)
]

around-reaches : (n s i : ℕ) → s < n → i < n → (d : ℕ) × (1 ≤ d) × (d < 1 + n) × ((s + d) % n ≡ i)
around-reaches n s i hs hi = elim (Bool-cases (ltb s i)) [
  | inl ahead ↦
      (i - s, ground arith, ground arith, ap (λ k. k % n) (ground arith) ∙ mod-eq_of_lt hi)
  | inr behind ↦
      let total : s + (i + n - s) ≡ i + n = ground arith in
      (
        i + n - s,
        ground arith,
        ground arith,
        ap (λ k. k % n) total
            ∙ mod-eq-sub-mod {n = i + n} {m = n} (omega arith)
            ∙ ap (λ k. k % n) (omega arith)
            ∙ mod-eq_of_lt hi,
      )
]

-- Either a process that can run is chosen, the first one after the slot of the last process going
-- round (with that process itself the last one to be looked at), or 0 is, and no process can run.
pub next_runnable_lem :
    (t : Table) (last : ℕ)
    → 0 < length t.records
    → First t.records (slot_of t.records last) (length t.records) 1 (next_runnable last t)
      ⊎ ((next_runnable last t ≡ invalid_pid)
          × ((i : ℕ) → i < length t.records → can_run (at t.records i).state ≡ false))
unfolding next_runnable
next_runnable_lem t last pos = elim (Option-cases (next_from t.records s (length t.records) 1)) [
  | inl idle ↦
      let quiet : (i : ℕ) → i < length t.records → can_run (at t.records i).state ≡ false = λ i h.
        let (d, lo, hi, there) =
          around-reaches (length t.records) s i (slot_of-bound t.records last pos) h in
        subst (λ k. can_run (at t.records k).state ≡ false) there
          (next_from-none t.records s (length t.records) 1 idle d lo hi) in
      let first_quiet = quiet 0 pos in inr (rw (idle, next_runnable) (ground arith), quiet)
  | inr (p, e) ↦ inl (rw (e, next_runnable) (next_from-some t.records s (length t.records) 1 p e))
]
  where
    s : ℕ
    s = slot_of t.records last
