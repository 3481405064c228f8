-- ===== src/Signal/Masks.antt =====
-- Masks of 64 bits: one bit alone, and the test against 0.
use native.Mathlib.Decide.{ℕ_discrete}
use mikos.Prelude.{ℕ, zero, suc, ◌-◌, ◌<◌, ◌≡◌, inl, inr, ap, subst, true, arith, Bool-cases}
use mikos.Signal.{Mask, any_below, nonzero, mask_and, bit, valid}

-- A bit that is set shows.
any_below_of : (n i : ℕ) (m : Mask) → i < n → m i ≡ true → any_below n m ≡ true
unfolding any_below
any_below_of zero i m h e = absurd (omega arith)
any_below_of (suc n) i m h e = elim (ℕ_discrete i n) [
  | yes here ↦ ground (arith, subst (λ j. m j ≡ true) here e)
  | no away ↦ ground (arith, any_below_of n i m)
]

-- What shows has a bit set.
any_below-witness : (n : ℕ) (m : Mask) → any_below n m ≡ true → (i : ℕ) × (i < n) × (m i ≡ true)
unfolding any_below
any_below-witness zero m e = cc
any_below-witness (suc n) m e = elim (Bool-cases (m n)) [
  | inl here ↦ (n, omega arith, here)
  | inr away ↦ let (i, h, at_i) = any_below-witness n m (ground arith) in (i, omega arith, at_i)
]

pub nonzero_of : (i : ℕ) (m : Mask) → i < 64 → m i ≡ true → nonzero m ≡ true
unfolding nonzero
nonzero_of i m h e = any_below_of 64 i m h e

pub nonzero-witness : (m : Mask) → nonzero m ≡ true → (i : ℕ) × (i < 64) × (m i ≡ true)
unfolding nonzero
nonzero-witness m e = any_below-witness 64 m e

-- Testing a mask by the bit of a signal reads that signal's bit.
pub nonzero-bit : (m : Mask) (s : ℕ) → valid s ≡ true → nonzero (mask_and m (bit s)) ≡ m (s - 1)
nonzero-bit m s ok = elim (Bool-cases (m (s - 1))) [
  | inl set ↦ rw set (nonzero_of (s - 1) (mask_and m (bit s)) (ground arith) (ground arith))
  | inr clear ↦ elim (Bool-cases (nonzero (mask_and m (bit s)))) [
    | inr none_set ↦ rw (clear, none_set)
    | inl some_set ↦
        let (i, h, at_i) = nonzero-witness (mask_and m (bit s)) some_set in
        let here : i ≡ s - 1 = ground arith in ground (arith, ap m here)
  ]
]
