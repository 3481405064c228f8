-- ===== src/Socket/Termination.antt =====
-- The loop of `drain_reassembly` ends: each round that goes on takes a segment from the store.
use mikos.Prelude.{
  ℕ, zero, suc, ◌+◌, ◌≤◌, ◌<◌, ◌≡◌, refl, ap, sym, ◌∙◌, List, [], ◌∷◌, Option, none, some,
  if◌then◌else◌, arith, subst, length, set, get_elem?, inl, inr, Option-cases, if_intro,
}
use mikos.Socket.{Slot, Segment, clear_reassembly}
use mikos.Socket.Stream.{
  prefers, choose, Round, stop, again, deliver, drain_round, drain_reassembly, drain_fuel,
}

pub stored : List (Option Segment) → ℕ
stored [] = 0
stored (none ∷ es) = stored es
stored (some g ∷ es) = stored es + 1

-- Entry `i` holds a segment.
abbrev IsStored : List (Option Segment) → ℕ → Type 0
IsStored store i = (g : Segment) × (get_elem? store i ≡ some (some g))

stored-set :
    (store : List (Option Segment)) (i : ℕ)
    → IsStored store i
    → stored (set store i none) + 1 ≡ stored store
unfolding stored
stored-set [] i (g, e) = cc
stored-set (none ∷ es) zero (g, e) = cc
stored-set (some x ∷ es) zero (g, e) = refl
stored-set (none ∷ es) (suc i) (g, e) = stored-set es i (g, e)
stored-set (some x ∷ es) (suc i) (g, e) = omega (arith, stored-set es i (g, e))

-- The entry that `choose` picks is stored. The list is the part of the store from entry `i` on.
abbrev BestStored : List (Option Segment) → Option (ℕ × Segment) → Type 0
BestStored store none = Unit
BestStored store (some b) = IsStored store b.0

choose-BestStored :
    (store : List (Option Segment)) (h next i : ℕ) (best : Option (ℕ × Segment))
    (part : List (Option Segment))
    → ((k : ℕ) → get_elem? part k ≡ get_elem? store (i + k))
    → BestStored store best
    → BestStored store (choose h next i best part)
unfolding choose
choose-BestStored store h next i best [] same ok = ok
choose-BestStored store h next i best (none ∷ es) same ok =
    choose-BestStored store h next (i + 1) best es
      (λ k. same (suc k) ∙ ap (get_elem? store) (omega arith)) ok
choose-BestStored store h next i best (some g ∷ es) same ok =
    choose-BestStored store h next (i + 1) (if prefers h next best g then some (i, g) else best) es
      (λ k. same (suc k) ∙ ap (get_elem? store) (omega arith))
      (if_intro (BestStored store) (prefers h next best g) (some (i, g)) best
        (λ better. (g, sym (same zero ∙ ap (get_elem? store) (omega arith)))) (λ worse. ok))

-- A round that goes on leaves fewer segments.
abbrev Shrinks : List (Option Segment) → Round → Type 0
Shrinks store (stop n s store') = Unit
Shrinks store (again n s store') = stored store' + 1 ≡ stored store

deliver-Shrinks :
    (i : ℕ) (g : Segment) (s : Slot) (store : List (Option Segment))
    → IsStored store i
    → Shrinks store (deliver i g s store)
unfolding deliver
deliver-Shrinks i g s store there = let fewer = stored-set store i there in ground (arith, fewer)

drain_round-Shrinks :
    (h : ℕ) (s : Slot) (store : List (Option Segment)) → Shrinks store (drain_round h s store)
unfolding drain_round
drain_round-Shrinks h s store =
    if_intro (Shrinks store) s.receive_closed (stop 0 s (clear_reassembly h store)) (from best)
      (λ closed. tt)
      (λ open_yet. elim (Option-cases best) [
        | inl e ↦ subst (λ b. Shrinks store (from b)) (sym e) tt
        | inr ((i, g), e) ↦
            subst (λ b. Shrinks store (from b)) (sym e)
              (deliver-Shrinks i g s store (
                subst (BestStored store) e (
                  choose-BestStored store h s.receive_next 0 none store
                    (λ k. ap (get_elem? store) (omega arith)) tt)))
      ])
  where
    best : Option (ℕ × Segment)
    best = choose h s.receive_next 0 none store

    from : Option (ℕ × Segment) → Round
    from b = elim b [ none ↦ stop 0 s store | some (i, g) ↦ deliver i g s store ]

-- With fuel for one round more than there are segments, the loop ends by itself: more fuel changes
-- nothing.
pub drain_enough :
    (fuel more h : ℕ) (s : Slot) (store : List (Option Segment))
    → stored store < fuel
    → drain_reassembly (fuel + more) h s store ≡ drain_reassembly fuel h s store
unfolding drain_reassembly
drain_enough zero more h s store enough = absurd (omega (arith, enough))
drain_enough (suc fuel) more h s store enough =
    let e : suc fuel + more ≡ suc (fuel + more) = omega arith in
    ap (λ n. drain_reassembly n h s store) e
    ∙ next (drain_round h s store) (drain_round-Shrinks h s store) (drain_enough fuel more h)
  where
    onward : ℕ → Round → ℕ × Slot × List (Option Segment)
    onward n r = elim r [
      | stop k s' store' ↦ (k, s', store')
      | again k s' store' ↦
          let (later, s'', store'') = drain_reassembly n h s' store' in (k + later, s'', store'')
    ]

    next :
        (r : Round)
        → Shrinks store r
        → ((s' : Slot) (store' : List (Option Segment))
            → stored store' < fuel
            → drain_reassembly (fuel + more) h s' store' ≡ drain_reassembly fuel h s' store')
        → onward (fuel + more) r ≡ onward fuel r
    next (stop k s' store') less later = refl
    next (again k s' store') less later =
        ap (λ (d : ℕ × Slot × List (Option Segment)). (k + d.0, d.1, d.2))
          (later s' store' (omega (arith, less, enough)))

stored-length : (store : List (Option Segment)) → stored store ≤ length store
unfolding stored
stored-length [] = omega arith
stored-length (none ∷ es) = omega (arith, stored-length es)
stored-length (some g ∷ es) = omega (arith, stored-length es)

-- The loop as the model runs it, on fuel of one more than the entries of the store, has ended: on any
-- more fuel, it delivers the same bytes and leaves the same slot and store.
pub drain_fuel_lem :
    (more h : ℕ) (s : Slot) (store : List (Option Segment))
    → drain_reassembly (drain_fuel store + more) h s store
      ≡ drain_reassembly (drain_fuel store) h s store
drain_fuel_lem more h s store =
    drain_enough (drain_fuel store) more h s store (omega (arith, stored-length store))
