-- ===== src/Signal/Tests.antt =====
-- Signals 9 and 2 pending with 2 blocked, and the theorems there.
use mikos.Prelude.{◌-◌, ◌≡◌, ◌⊎◌, refl, List, [], ◌∷◌, true, false, not, ◌&&◌, ◌==◌, ltb}
use mikos.Signal.{
  State, initial, no_action, mask_or, bit, set_mask, uncatchable, terminate, stop, set_action,
  action, next, next_from, nonzero, has_deliverable, default_for,
}
use mikos.Signal.Delivery.{
  waits, next_lem, Unstoppable, run-Unstoppable, run, Call, masks, queues, acts, nexts,
}

abbrev two : State
two = record initial { blocked = bit 2; pending = mask_or (bit 2) (mask_or (bit 9) (bit 15)) }

next-two : (next two).0 ≡ 9
unfolding next next_from nonzero
next-two = refl

set_action-kill : (set_action 9 (record no_action { handler = 64 }) two).0 ≡ uncatchable
unfolding set_action
set_action-kill = refl

action-two : (action 9 two).handler ≡ 0
unfolding action
action-two = refl

default_for-stop : (default_for 19 ≡ stop) × (default_for 9 ≡ terminate)
unfolding default_for
default_for-stop = (refl, refl)

next_lem_example :
    let (s, st') = next two in
    ((s ≡ 0) × (st' ≡ two) × (waits two 15 ≡ false) × (has_deliverable two ≡ false))
    ⊎ ((waits two s ≡ true)
        × ((ltb 15 s && waits two 15) ≡ false)
        × (st'.pending 15 ≡ (two.pending 15 && not (15 == s - 1)))
        × (st'.blocked ≡ two.blocked)
        × (st'.actions ≡ two.actions)
        × (has_deliverable two ≡ true))
next_lem_example = next_lem two 15

abbrev calls : List Call
calls =
    masks set_mask (λ i. true)
    ∷ acts 15 (record { handler = 64; flags = 0; mask = λ i. true })
    ∷ queues 9
    ∷ nexts
    ∷ []

run-Unstoppable_example : Unstoppable 15 (run initial calls)
run-Unstoppable_example = run-Unstoppable 15 calls
