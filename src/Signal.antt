-- ===== src/Signal.antt =====
-- include/mikos/process/signal.hpp: the signal state of a process.
-- A `u64` mask is its 64 bits, a function that is read at 0 to 63: the code only sets, clears,
-- complements and tests bits. An array of actions is a function of the signal.
pub mod Masks
pub mod Delivery
mod Tests
use mikos.Prelude.{
  ℕ, zero, suc, ◌+◌, ◌-◌, Bool, true, false, not, ◌&&◌, ◌||◌, if◌then◌else◌, ◌==◌, leb,
}

abbrev pub Mask : Type 0
Mask = ℕ → Bool

-- Bitwise operations, and the test of a mask against 0.
abbrev pub empty_mask : Mask
empty_mask = λ i. false

abbrev pub mask_and : Mask → Mask → Mask
mask_and a b = λ i. a i && b i

abbrev pub mask_or : Mask → Mask → Mask
mask_or a b = λ i. a i || b i

abbrev pub mask_not : Mask → Mask
mask_not a = λ i. not (a i)

any_below : ℕ → Mask → Bool
any_below zero m = false
any_below (suc n) m = m n || any_below n m

unfoldable pub nonzero : Mask → Bool
unfolding any_below
nonzero m = any_below 64 m

abbrev pub signal_max : ℕ
signal_max = 64

abbrev pub signal_interrupt : ℕ
signal_interrupt = 2

abbrev pub signal_quit : ℕ
signal_quit = 3

abbrev pub signal_kill : ℕ
signal_kill = 9

abbrev pub signal_child : ℕ
signal_child = 17

abbrev pub signal_continue : ℕ
signal_continue = 18

abbrev pub signal_stop : ℕ
signal_stop = 19

abbrev pub signal_tty_stop : ℕ
signal_tty_stop = 20

abbrev pub signal_tty_input : ℕ
signal_tty_input = 21

abbrev pub signal_tty_output : ℕ
signal_tty_output = 22

abbrev pub signal_urgent : ℕ
signal_urgent = 23

abbrev pub signal_window_change : ℕ
signal_window_change = 28

pub data Status : Type 0 where
  success invalid_signal uncatchable invalid_operation : Status

-- `other` is a value of the enumeration's type that is none of the three.
pub data MaskOperation : Type 0 where
  block unblock set_mask other : MaskOperation

pub data Default : Type 0 where
  ignore terminate stop resume : Default

pub record Action : Type 0 where
  pub handler : ℕ
  pub flags : ℕ
  pub mask : Mask

abbrev pub no_action : Action
no_action = record { handler = 0; flags = 0; mask = empty_mask }

pub record State : Type 0 where
  pub actions : ℕ → Action
  pub blocked : Mask
  pub pending : Mask

-- `SignalState{}`
abbrev pub initial : State
initial = record { actions = λ s. no_action; blocked = empty_mask; pending = empty_mask }

abbrev pub valid : ℕ → Bool
valid s = not (s == 0) && leb s signal_max

-- `u64{1} << (signal - 1)`
abbrev pub bit : ℕ → Mask
bit s = if valid s then (λ i. i == s - 1) else empty_mask

abbrev pub uncatchable_mask : Mask
uncatchable_mask = mask_or (bit signal_kill) (bit signal_stop)

-- The status, what is stored through `old`, and the state.
pub set_action : ℕ → Action → State → Status × Action × State
set_action s a st =
    if not (valid s)
    then (invalid_signal, no_action, st)
    else if s == signal_kill || s == signal_stop
    then (uncatchable, st.actions s, st)
    else (
      success,
      st.actions s,
      record st {
        actions = λ j.
            if j == s
            then record a { mask = mask_and a.mask (mask_not uncatchable_mask) }
            else st.actions j;
      },
    )

pub action : ℕ → State → Action
action s st = if valid s then st.actions s else no_action

-- `blocked_ = m`, then `blocked_ &= ~uncatchable_mask()`.
abbrev pub with_blocked : Mask → State → State
with_blocked m st = record st { blocked = mask_and m (mask_not uncatchable_mask) }

pub change_mask : MaskOperation → Mask → State → Status × Mask × State
change_mask op value st =
    let v = mask_and value (mask_not uncatchable_mask) in
    elim op [
      | block ↦ (success, st.blocked, with_blocked (mask_or st.blocked v) st)
      | unblock ↦ (success, st.blocked, with_blocked (mask_and st.blocked (mask_not v)) st)
      | set_mask ↦ (success, st.blocked, with_blocked v st)
      | other ↦ (invalid_operation, st.blocked, st)
    ]

pub queue : ℕ → State → Status × State
queue s st =
    if not (valid s)
    then (invalid_signal, st)
    else (success, record st { pending = mask_or st.pending (bit s) })

-- The loop of `next`: `n` rounds from the signal `s` on.
pub next_from : ℕ → ℕ → Mask → ℕ
next_from zero s deliverable = 0
next_from (suc n) s deliverable =
    let later = next_from n (s + 1) deliverable in
    if nonzero (mask_and deliverable (bit s)) then s else later

-- The signal to deliver, or 0, and the state.
pub next : State → ℕ × State
next st =
    let s = next_from signal_max 1 (mask_and st.pending (mask_not st.blocked)) in
    if s == 0 then (0, st) else (s, record st { pending = mask_and st.pending (mask_not (bit s)) })

pub has_deliverable : State → Bool
has_deliverable st = nonzero (mask_and st.pending (mask_not st.blocked))

pub default_for : ℕ → Default
default_for s =
    if s == signal_child || s == signal_urgent || s == signal_window_change
    then ignore
    else if s == signal_continue
    then resume
    else if s == signal_stop
        || s == signal_tty_stop
        || s == signal_tty_input
        || s == signal_tty_output
    then stop
    else terminate
