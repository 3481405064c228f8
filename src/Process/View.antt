-- ===== src/Process/View.antt =====
-- What `find` gives for each pid, before and after a write through a pointer that it gave: the table
-- as a map from pids to records.
use mikos.Prelude.{
  ℕ, zero, suc, ◌<◌, ◌≡◌, refl, subst, List, [], ◌∷◌, none, some, Bool, false, ◌&&◌, if◌then◌else◌,
  ◌==◌, arith, set, get_or-set_self, length, inl, inr, Bool-cases, Option-cases,
}
use mathlib.Core.Option.{map as map_option}
use mikos.Slots.{find_index}
use mikos.Process.{
  Process, ProcessState, vacant, runnable, has_pid, find, at, modify, found, with_state,
}
use mikos.Process.Lookup.{find-Points}
use mikos.Process.Lifecycle.{wake, adopt, adopt_all}

pub found-cons :
    (r : Process) (rs : List Process) (p : ℕ)
    → found (r ∷ rs) p ≡ (if has_pid p r then some r else found rs p)
unfolding found find at find_index
found-cons r rs p = elim (Option-cases (find_index (has_pid p) rs)) [
  | inl e ↦ ground arith
  | inr (i, e) ↦ ground arith
]

pub found-none : (rs : List Process) (p : ℕ) → find rs p ≡ none → found rs p ≡ none
unfolding found
found-none rs p e = rw (e, found) refl

pub found-some : (rs : List Process) (p i : ℕ) → find rs p ≡ some i → found rs p ≡ some (at rs i)
unfolding found
found-some rs p i e = rw (e, found) refl

-- A process that is there has an index.
pub find-found :
    (rs : List Process) (p : ℕ) (r : Process)
    → found rs p ≡ some r
    → (i : ℕ) × (find rs p ≡ some i) × (at rs i ≡ r)
find-found rs p r e = elim (Option-cases (find rs p)) [
  | inl missing ↦ let no = found-none rs p missing in absurd cc
  | inr (i, at_i) ↦ let here = found-some rs p i at_i in (i, at_i, cc)
]

found-set :
    (rs : List Process) (p i : ℕ) (r' : Process) (q : ℕ)
    → find rs p ≡ some i
    → ((k : ℕ) → has_pid k r' ≡ has_pid k (at rs i))
    → found (set rs i r') q ≡ (if q == p then some r' else found rs q)
unfolding find at find_index
found-set [] p i r' q e same = cc
found-set (r ∷ rs) p i r' q e same = elim (Bool-cases (has_pid p r)) [
  | inl here ↦
      let first : 0 ≡ i = ground arith in
      subst
        (λ (n : ℕ).
          ((k : ℕ) → has_pid k r' ≡ has_pid k (at (r ∷ rs) n))
          → found (set (r ∷ rs) n r') q ≡ (if q == p then some r' else found (r ∷ rs) q))
        first (λ alike. ground (arith, found-cons r rs q, found-cons r' rs q, alike q)) same
  | inr other ↦ elim (Option-cases (find_index (has_pid p) rs)) [
    | inl missing ↦ absurd (ground arith)
    | inr (j, at_j) ↦
        let later : suc j ≡ i = ground arith in
        subst
          (λ (n : ℕ).
            ((k : ℕ) → has_pid k r' ≡ has_pid k (at (r ∷ rs) n))
            → found (set (r ∷ rs) n r') q ≡ (if q == p then some r' else found (r ∷ rs) q))
          later
          (λ alike. ground (
            arith,
            found-cons r rs q,
            found-cons r (set rs j r') q,
            found-set rs p j r' q at_j alike,
          ))
          same
  ]
]

-- A write through a pointer that leaves the pid alone changes that process and no other.
pub found-modify :
    (rs : List Process) (p i : ℕ) (f : Process → Process) (q : ℕ)
    → find rs p ≡ some i
    → ((k : ℕ) → has_pid k (f (at rs i)) ≡ has_pid k (at rs i))
    → found (modify rs i f) q ≡ (if q == p then some (f (at rs i)) else found rs q)
unfolding modify
found-modify rs p i f q e same = found-set rs p i (f (at rs i)) q e same

pub find-set :
    (rs : List Process) (i : ℕ) (r' : Process) (q : ℕ)
    → has_pid q r' ≡ has_pid q (at rs i)
    → find (set rs i r') q ≡ find rs q
unfolding find at find_index
find-set [] i r' q same = refl
find-set (r ∷ rs) zero r' q same = ground arith
find-set (r ∷ rs) (suc i) r' q same = ground (arith, find-set rs i r' q same)

pub find-modify :
    (rs : List Process) (i : ℕ) (f : Process → Process) (q : ℕ)
    → has_pid q (f (at rs i)) ≡ has_pid q (at rs i)
    → find (modify rs i f) q ≡ find rs q
unfolding modify
find-modify rs i f q same = find-set rs i (f (at rs i)) q same

pub at-modify :
    (rs : List Process) (i : ℕ) (f : Process → Process)
    → i < length rs
    → at (modify rs i f) i ≡ f (at rs i)
unfolding at modify
at-modify rs i f h = get_or-set_self rs i (f (at rs i)) vacant h

-- What a wake-up of process `k` makes of process `q`.
abbrev pub woken : (ProcessState → Bool) → ℕ → ℕ → Process → Process
woken asleep k q r = if q == k && asleep r.state then with_state runnable r else r

module _ (asleep : ProcessState → Bool) (awake : asleep ProcessState.free ≡ false)
    (rs : List Process) (k : ℕ) where
  pub find-wake : (q : ℕ) → find (wake asleep rs k) q ≡ find rs q
  unfolding wake
  find-wake q = elim (Option-cases (find rs k)) [
    | inl e ↦ rw (e, wake) refl
    | inr (j, e) ↦ ground (arith, find-modify rs j (with_state runnable) q, find-Points rs k j e)
  ]

  pub found-wake : (q : ℕ) → found (wake asleep rs k) q ≡ map_option (woken asleep k q) (found rs q)
  unfolding wake
  found-wake q = elim (Option-cases (find rs k)) [
    | inl e ↦ elim (Option-cases (found rs q)) [
      | inl gone ↦ rw (e, wake, gone) refl
      | inr (r, here) ↦
          let other : (q == k) ≡ false = elim (Bool-cases (q == k)) [
            | inl it ↦
                let same : q ≡ k = ground arith in let lost = found-none rs k e in absurd (cc)
            | inr differ ↦ differ
          ] in
          rw (e, wake, here) (ground arith)
    ]
    | inr (j, e) ↦
        let changed =
          found-modify rs k j (with_state runnable) q e
            (λ p. ground (arith, find-Points rs k j e)) in
        elim (Bool-cases (q == k)) [
          | inl it ↦
              let same : q ≡ k = ground arith in
              let here : found rs q ≡ some (at rs j) = cc (found-some rs k j e) in
              rw (e, wake, here) (ground (arith, changed))
          | inr other ↦ elim (Option-cases (found rs q)) [
            | inl gone ↦ rw (e, wake, gone) (ground (arith, changed))
            | inr (r, here) ↦ rw (e, wake, here) (ground (arith, changed))
          ]
        ]
  ]

pub found-adopt_all :
    (c a : ℕ) (rs : List Process) (q : ℕ)
    → found (adopt_all c a rs) q ≡ map_option (adopt c a) (found rs q)
unfolding adopt_all found find_index find
found-adopt_all c a [] q = refl
found-adopt_all c a (r ∷ rs) q = ground (
  arith,
  found-cons r rs q,
  found-cons (adopt c a r) (adopt_all c a rs) q,
  found-adopt_all c a rs q,
)
