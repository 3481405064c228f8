-- ===== src/Process/Waiting.antt =====
-- The loop of `wait` over the records, and what it picks.
use mikos.Prelude.{
  ℕ, zero, suc, ◌<◌, ◌≡◌, subst, List, [], ◌∷◌, none, some, true, false, ◌&&◌, arith, length, inl,
  inr, Option-cases, Bool-cases,
}
use mikos.Slots.{All}
use mikos.Process.{Process, is_zombie, at, Selector}
use mikos.Process.Lifecycle.{wait_scan, is_candidate}

module _ (q : ℕ) (parent : Process) (sel : Selector) where
  -- The zombie that `wait` takes, which is a child that it asks for; none before it is.
  pub record Reaped (rs : List Process) (j : ℕ) : Type 0 where
    pub within : j < length rs
    pub asked : is_candidate q parent sel (at rs j) ≡ true
    pub dead : is_zombie (at rs j).state ≡ true
    pub first :
        (k : ℕ) → k < j → (is_candidate q parent sel (at rs k) && is_zombie (at rs k).state) ≡ false

  further :
      (r : Process) (rs : List Process) (j : ℕ)
      → (is_candidate q parent sel r && is_zombie r.state) ≡ false
      → Reaped rs j
      → Reaped (r ∷ rs) (suc j)
  unfolding at
  further r rs j gone found = record {
    within = ground (arith, found.within);
    asked = found.asked;
    dead = found.dead;
    first = passed;
  }
    where
      passed :
          (k : ℕ)
          → k < suc j
          → (is_candidate q parent sel (at (r ∷ rs) k) && is_zombie (at (r ∷ rs) k).state) ≡ false
      passed zero h = gone
      passed (suc k) h = found.first k (omega arith)

  pub wait_scan-some :
      (rs : List Process) (j : ℕ) → (wait_scan q parent sel rs).1 ≡ some j → Reaped rs j
  unfolding wait_scan at
  wait_scan-some [] j e = cc
  wait_scan-some (r ∷ rs) j e =
      elim (Bool-cases (is_candidate q parent sel r && is_zombie r.state)) [
        | inl here ↦
            let found : 0 ≡ j = ground arith in
            subst (λ (n : ℕ). Reaped (r ∷ rs) n) found
              (record {
                within = ground arith;
                asked = ground arith;
                dead = ground arith;
                first = λ k h. absurd (omega arith);
              })
        | inr gone ↦ elim (Option-cases (wait_scan q parent sel rs).1) [
          | inl missing ↦ absurd (ground arith)
          | inr (k, later) ↦
              let found : suc k ≡ j = ground arith in
              subst (λ (n : ℕ). Reaped (r ∷ rs) n) found
                (further r rs k gone (wait_scan-some rs k later))
        ]
      ]

  -- Where there is no such zombie, the loop says whether any child was asked for.
  pub wait_scan-none :
      (rs : List Process)
      → (wait_scan q parent sel rs).1 ≡ none
      → All (λ r. (is_candidate q parent sel r && is_zombie r.state) ≡ false) rs
  unfolding wait_scan
  wait_scan-none [] e = tt
  wait_scan-none (r ∷ rs) e = elim (Option-cases (wait_scan q parent sel rs).1) [
    | inl later ↦ (ground (arith), wait_scan-none rs later)
    | inr (j, later) ↦ absurd (ground arith)
  ]

  pub wait_scan-childless :
      (rs : List Process)
      → (wait_scan q parent sel rs).0 ≡ false
      → All (λ r. is_candidate q parent sel r ≡ false) rs
  unfolding wait_scan
  wait_scan-childless [] e = tt
  wait_scan-childless (r ∷ rs) e = (ground arith, wait_scan-childless rs (ground arith))
