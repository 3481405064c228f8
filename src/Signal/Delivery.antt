-- ===== src/Signal/Delivery.antt =====
-- Which signal is delivered, and which are never held back.
use mikos.Prelude.{
  ℕ, zero, suc, ◌+◌, ◌-◌, ◌≤◌, ◌<◌, ◌≡◌, ◌⊎◌, inl, inr, refl, ap, List, [], ◌∷◌, Bool, true, false,
  not, ◌&&◌, ◌==◌, ltb, leb, arith, Bool-cases,
}
use mikos.Signal.{
  Mask, State, Action, no_action, MaskOperation, block, unblock, set_mask, other, nonzero, mask_and,
  mask_not, valid, initial, set_action, change_mask, queue, next, next_from, has_deliverable,
  signal_kill, signal_stop,
}
use mikos.Signal.Masks.{nonzero_of, nonzero-witness, nonzero-bit}

-- The bit of the signal `s` is set where the loop stops, and no lower one from the start on.
Found : ℕ → ℕ → Mask → ℕ → ℕ → Type 0
Found n s m j r =
    ((r ≡ 0) × ((leb s j && ltb j (s + n) && m (j - 1)) ≡ false))
    ⊎ ((s ≤ r) × (r < s + n) × (m (r - 1) ≡ true) × ((leb s j && ltb j r && m (j - 1)) ≡ false))

next_from_lem : (n s : ℕ) (m : Mask) (j : ℕ) → 0 < s → s + n ≤ 65 → Found n s m j (next_from n s m)
unfolding next_from Found
next_from_lem zero s m j pos le = ground arith
next_from_lem (suc n) s m j pos le = ground (arith, nonzero-bit m s, next_from_lem n (s + 1) m j)

-- The loop gives 0 on the empty mask alone.
next_from-zero : (m : Mask) → next_from 64 1 m ≡ 0 → nonzero m ≡ false
unfolding Found
next_from-zero m e = elim (Bool-cases (nonzero m)) [
  | inr clear ↦ clear
  | inl some_set ↦
      let (i, h, at_i) = nonzero-witness m some_set in
      let there : i + 1 - 1 ≡ i = omega arith in
      ground (arith, next_from_lem 64 1 m (i + 1), ap m there)
]

-- The signal `j` is pending and not blocked.
abbrev pub waits : State → ℕ → Bool
waits st j = valid j && (st.pending (j - 1) && not (st.blocked (j - 1)))

-- `next` gives the lowest signal that is pending and not blocked, and takes that one alone off the
-- pending ones; if it gives 0, then none is, `has_deliverable` says so, and nothing changes.
pub next_lem :
    (st : State) (j : ℕ)
    → let (s, st') = next st in
      ((s ≡ 0) × (st' ≡ st) × (waits st j ≡ false) × (has_deliverable st ≡ false))
      ⊎ ((waits st s ≡ true)
          × ((ltb j s && waits st j) ≡ false)
          × (st'.pending j ≡ (st.pending j && not (j == s - 1)))
          × (st'.blocked ≡ st.blocked)
          × (st'.actions ≡ st.actions)
          × (has_deliverable st ≡ true))
unfolding next has_deliverable Found
next_lem st j = elim (next_from_lem 64 1 m j (omega arith) (omega arith)) [
  | inl (zero_found, none_at_j) ↦ ground (arith, next_from-zero m zero_found)
  | inr (lo, hi, set, below) ↦ ground (arith, nonzero_of (next_from 64 1 m - 1) m)
]
  where
    m : Mask
    m = mask_and st.pending (mask_not st.blocked)

pub data Call : Type 0 where
  acts : ℕ → Action → Call
  masks : MaskOperation → Mask → Call
  queues : ℕ → Call
  nexts : Call

pub step : State → Call → State
step st (acts s a) = (set_action s a st).2
step st (masks op value) = (change_mask op value st).2
step st (queues s) = (queue s st).1
step st nexts = (next st).1

pub run : State → List Call → State
run st [] = st
run st (c ∷ cs) = run (step st c) cs

-- The signals that no process may block or catch, and that no handler `s` may block.
pub record Unstoppable (s : ℕ) (st : State) : Type 0 where
  pub kill_open : st.blocked (signal_kill - 1) ≡ false
  pub stop_open : st.blocked (signal_stop - 1) ≡ false
  pub kill_default : st.actions signal_kill ≡ no_action
  pub stop_default : st.actions signal_stop ≡ no_action
  pub handler_kill : (st.actions s).mask (signal_kill - 1) ≡ false
  pub handler_stop : (st.actions s).mask (signal_stop - 1) ≡ false

step-Unstoppable : (s : ℕ) (st : State) (c : Call) → Unstoppable s st → Unstoppable s (step st c)
unfolding step set_action change_mask queue next
step-Unstoppable s st (acts t a) u = ground arith
step-Unstoppable s st (masks block value) u = ground arith
step-Unstoppable s st (masks unblock value) u = ground arith
step-Unstoppable s st (masks set_mask value) u = ground arith
step-Unstoppable s st (masks other value) u = u
step-Unstoppable s st (queues t) u = ground arith
step-Unstoppable s st nexts u = ground arith

run-Unstoppable_any :
    (s : ℕ) (cs : List Call) (st : State) → Unstoppable s st → Unstoppable s (run st cs)
unfolding run
run-Unstoppable_any s [] st u = u
run-Unstoppable_any s (c ∷ cs) st u =
    run-Unstoppable_any s cs (step st c) (step-Unstoppable s st c u)

-- Whatever a process asked for since it started, it neither blocks nor catches signals 9 and 19,
-- and no handler of its blocks them.
pub run-Unstoppable : (s : ℕ) (cs : List Call) → Unstoppable s (run initial cs)
run-Unstoppable s cs = run-Unstoppable_any s cs initial (record {
  kill_open = refl;
  stop_open = refl;
  kill_default = refl;
  stop_default = refl;
  handler_kill = refl;
  handler_stop = refl;
})
