-- ===== src/Process/Birth.antt =====
-- New processes: `initialize` and `fork`; and the end of one: `wait`.
use mikos.Prelude.{
  ℕ, ◌+◌, ◌^◌, ◌<◌, ◌≡◌, ◌≢◌, refl, subst, List, [], ◌∷◌, some, Bool, true, false, not, ◌||◌, ◌==◌,
  arith, u32, length, length-set, set, get_or-set_self, get_or-set_ne, inl, inr, Option-cases,
  Bool-cases, if_intro,
}
use mikos.Slots.{All, All-set, find_index, find_index-some}
use mikos.Process.{
  Process, Table, Status, success, vacant, waiting, vfork_wait, is_free, is_zombie, has_pid, find,
  at, modify, used, child_of, first_process, initialize, fork, with_state, Selector,
}
use mikos.Process.Lifecycle.{wait_scan, wait}
use mikos.Process.Lookup.{count, count-set, find-Points, RecordOk, Good, at-RecordOk, modify-Good}
use mikos.Process.Waiting.{wait_scan-some}
use mikos.Process.Invariant.{IsValid}

-- No pid is given out twice: none in the table is the next one.
pub count-next :
    (next : ℕ) (rs : List Process) → 0 < next → All (RecordOk next) rs → count next rs ≡ 0
count-next next [] pos h = refl
count-next next (r ∷ rs) pos h = ground (arith, h.0, count-next next rs pos h.1)

pub RecordOk-next :
    (next : ℕ) (rs : List Process)
    → 0 < next
    → next < 2 ^ 32
    → All (RecordOk next) rs
    → All (RecordOk (u32 (next + 1))) rs
RecordOk-next next [] pos lt h = tt
RecordOk-next next (r ∷ rs) pos lt h = (ground (arith, h.0), RecordOk-next next rs pos lt h.1)

-- A table with nothing in use is good for any next pid.
unused :
    (next' next p : ℕ) (rs : List Process)
    → used rs ≡ 0
    → All (RecordOk next) rs
    → All (RecordOk next') rs × (count p rs ≡ 0)
unfolding used
unused next' next p [] h all = (tt, refl)
unused next' next p (r ∷ rs) h all =
    let rest = unused next' next p rs (ground arith) all.1 in
    ((ground (arith, all.0), rest.0), ground (arith, rest.1))

pub set-Good :
    (p next : ℕ) (rs : List Process) (j : ℕ) (r : Process)
    → Good p next rs
    → j < length rs
    → RecordOk next r
    → (has_pid p r ≡ true → count p rs ≡ 0)
    → Good p next (set rs j r)
set-Good p next rs j r g h ok new = record {
  each = All-set (RecordOk next) rs j g.each ok;
  unique = elim (Bool-cases (has_pid p r)) [
    | inl e ↦ let none_yet = new e in ground (arith, count-set p rs j r h)
    | inr e ↦ ground (arith, count-set p rs j r h, g.unique)
  ];
}

pub at-set_self : (rs : List Process) (j : ℕ) (r : Process) → j < length rs → at (set rs j r) j ≡ r
unfolding at
at-set_self rs j r h = get_or-set_self rs j r vacant h

pub at-set_ne : (rs : List Process) (i j : ℕ) (r : Process) → j ≢ i → at (set rs j r) i ≡ at rs i
unfolding at
at-set_ne rs i j r h = get_or-set_ne rs r vacant h

first-Good :
    (p next : ℕ) (rs : List Process) (r : Process)
    → All (RecordOk next) rs × (count p rs ≡ 0)
    → RecordOk next r
    → Good p next (set rs 0 r)
first-Good p next [] r clear ok = record { each = tt; unique = omega arith }
first-Good p next (x ∷ rs) r clear ok = record {
  each = (ok, clear.0.1);
  unique = ground (arith, clear.1);
}

module _ (p : ℕ) where
  pub initialize-IsValid :
      (q : ℕ) (t : Table) → q < 2 ^ 32 → IsValid p t → IsValid p (initialize q t).1
  unfolding initialize
  initialize-IsValid q t lt v =
      if_intro (λ (r : Status × Table). IsValid p r.1) (q == 0 || not (used t.records == 0))
        (Status.invalid_argument, t) (success, _) (λ refused. v)
        (λ granted. record {
          next_in = ground arith;
          good =
              first-Good p (u32 (q + 1)) t.records (first_process q)
                (unused (u32 (q + 1)) t.next_pid p t.records (ground arith) v.good.each)
                (ground arith);
        })

  -- The child's record in the free slot `j`.
  child-Good :
      (t : Table) (i j : ℕ) (parent_pid : ℕ) (vfork : Bool)
      → IsValid p t
      → i < length t.records
      → j < length t.records
      → is_free (at t.records i).state ≡ false
      → t.next_pid ≢ 0
      → Good p
          (u32 (t.next_pid + 1))
          (set t.records j (child_of (at t.records i) parent_pid t.next_pid vfork))
  child-Good t i j q vfork v hi hj alive ne =
      set-Good p (u32 (t.next_pid + 1)) t.records j child
        (record {
          each = RecordOk-next t.next_pid t.records (omega arith) v.next_in v.good.each;
          unique = v.good.unique;
        })
        hj (ground (arith, at-RecordOk t.next_pid t.records i v.good.each hi, v.next_in))
        (λ it.
          let same : t.next_pid ≡ p = ground arith in
          subst (λ (n : ℕ). count n t.records ≡ 0) same
            (count-next t.next_pid t.records (omega arith) v.good.each))
    where
      child : Process
      child = child_of (at t.records i) q t.next_pid vfork

  sleep-Good :
      (next : ℕ) (rs : List Process) (i : ℕ)
      → Good p next rs
      → i < length rs
      → is_free (at rs i).state ≡ false
      → Good p next (modify rs i (with_state vfork_wait))
  sleep-Good next rs i g hi alive =
      modify-Good p next rs i (with_state vfork_wait) g hi
        (ground (arith, at-RecordOk next rs i g.each hi)) (ground arith)

  pub fork-IsValid : (q : ℕ) (vfork : Bool) (t : Table) → IsValid p t → IsValid p (fork q vfork t).2
  unfolding fork
  fork-IsValid q vfork t v = elim (Option-cases (find t.records q)) [
    | inl e ↦ rw (e, fork) v
    | inr (i, e) ↦ elim (Option-cases (find_index (λ (r : Process). is_free r.state) t.records)) [
      | inl e' ↦ rw (e, e', fork) (ground (arith, v))
      | inr (j, e') ↦
          let hi = (find-Points t.records q i e).within in
          let (r, at_j, spare, hj) =
            find_index-some (λ (r : Process). is_free r.state) t.records j e' in
          let child = child_of (at t.records i) q t.next_pid vfork in
          let other : is_free (at t.records i).state ≡ false → j ≢ i = λ alive same.
            let there = (find-Points t.records q i e).there in
            let clash : r ≡ at t.records i = cc in absurd cc in
          rw (e, e', fork)
            (ground (
              arith,
              child-Good t i j q vfork v hi hj,
              sleep-Good (u32 (t.next_pid + 1)) (set t.records j child) i,
              at-set_ne t.records i j child,
              length-set t.records j child,
            ))
    ]
  ]

  sleeping :
      (q i : ℕ) (t : Table)
      → IsValid p t
      → find t.records q ≡ some i
      → is_zombie (at t.records i).state ≡ false
      → IsValid p (record t { records = modify t.records i (with_state waiting) })
  sleeping q i t v e alive =
      let pt = find-Points t.records q i e in
      record {
        next_in = v.next_in;
        good =
            modify-Good p t.next_pid t.records i (with_state waiting) v.good pt.within
              (ground (arith, at-RecordOk t.next_pid t.records i v.good.each pt.within, pt))
              (ground (arith, pt));
      }

  reaping :
      (j : ℕ) (t : Table)
      → IsValid p t
      → j < length t.records
      → IsValid p (record t { records = modify t.records j (λ r. vacant) })
  reaping j t v h = record {
    next_in = v.next_in;
    good =
        modify-Good p t.next_pid t.records j (λ r. vacant) v.good h (ground arith) (ground arith);
  }

  pub wait-IsValid :
      (q : ℕ) (sel : Selector) (no_hang : Bool) (t : Table)
      → IsValid p t
      → IsValid p (wait q sel no_hang t).3
  unfolding wait
  wait-IsValid q sel no_hang t v = elim (Option-cases (find t.records q)) [
    | inl e ↦ rw (e, wait) v
    | inr (i, e) ↦ elim (Option-cases (wait_scan q (at t.records i) sel t.records).1) [
      | inl e' ↦ ground (arith, sleeping q i t v e)
      | inr (j, e') ↦
          ground
            (arith, reaping j t v (wait_scan-some q (at t.records i) sel t.records j e').within)
    ]
  ]
