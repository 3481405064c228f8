-- ===== src/Socket/Binding.antt =====
-- What `bind` and `begin_connection` promise: an address that is the socket's own, and a queue that
-- keeps to its bound.
use mikos.Prelude.{
  ℕ, zero, suc, ◌+◌, ◌≤◌, ◌≡◌, ◌≢◌, refl, ap, sym, subst, ◌∙◌, List, [], ◌∷◌, some, true, false,
  arith, set, get_elem?, inl, inr, ◌⊎◌, Option-cases,
}
use mikos.Socket.{allocate, at, bound, Slot, Table, Endpoint, success, slot}
use mikos.Socket.Lifecycle.{pending, begun, begin_connection}
use mikos.Socket.Ports.{is_bound, port_conflicts, bind}
use mikos.Socket.Asked.{
  port_conflicts-IsOwn, IsGiven, asked_port, asked_port_lem, IsWithout, IsApart, IsOwn-IsApart,
}

at-set :
    (slots : List Slot) (i : ℕ) (x s : Slot) → get_elem? slots i ≡ some x → at (set slots i s) i ≡ s
unfolding at
at-set [] i x s e = cc
at-set (y ∷ ys) zero x s e = refl
at-set (y ∷ ys) (suc i) x s e = at-set ys i x s e

slot-there :
    (slots : List Slot) (h : ℕ) (s : Slot) → slot slots h ≡ some s → get_elem? slots h ≡ some s
unfolding slot
slot-there slots h s e = ground arith

bind_success :
    (h : ℕ) (e : Endpoint) (t : Table) (x : Slot)
    → slot t.slots h ≡ some x
    → (bind h e t).0 ≡ success
    → let chosen : Endpoint = record { address = e.address; port = asked_port e t.slots } in
      ((bind h e t).1.slots ≡ set t.slots h (record x { here = chosen; state = bound }))
      × (chosen.port ≢ 0)
      × (port_conflicts t.slots h chosen ≡ false)
unfolding bind asked_port
bind_success h e t x f ok = ground (arith, f, ok)

-- Where `bind` succeeds, the socket is bound to the address that was asked for, and to the port asked
-- for if that is not 0, and to one from 49152 to 65535 if it is. Every other slot has no address of its
-- own (it is no stream socket, free, or open for control only), or another port, or both name an
-- address and these differ.
pub bind_lem :
    (h : ℕ) (e : Endpoint) (t : Table) (k : ℕ)
    → (bind h e t).0 ≡ success
    → let given = (at (bind h e t).1.slots h).here in
      (is_bound (at (bind h e t).1.slots h).state ≡ true)
      × (given.address ≡ e.address)
      × IsGiven e.port given.port
      × ((k ≡ h) ⊎ (IsWithout (at t.slots k) ⊎ IsApart (at t.slots k).here given))
unfolding bind
bind_lem h e t k ok = elim (Option-cases (slot t.slots h)) [
  | inl n ↦ absurd (ground (arith, n, ok))
  | inr (x, f) ↦
      let chosen : Endpoint = record { address = e.address; port = asked_port e t.slots } in
      let given : Slot = record x { here = chosen; state = bound } in
      let (written, some_port, free) = bind_success h e t x f ok in
      let placed : at (bind h e t).1.slots h ≡ given =
        ap (λ ss. at ss h) written ∙ at-set t.slots h x given (slot-there t.slots h x f) in
      subst
        (λ (s' : Slot).
          (is_bound s'.state ≡ true)
          × (s'.here.address ≡ e.address)
          × IsGiven e.port s'.here.port
          × ((k ≡ h) ⊎ (IsWithout (at t.slots k) ⊎ IsApart (at t.slots k).here s'.here)))
        (sym placed)
        (
          refl,
          refl,
          asked_port_lem e t.slots some_port,
          IsOwn-IsApart t.slots h k chosen (port_conflicts-IsOwn t.slots h chosen free),
        )
]

pending-set :
    (h i : ℕ) (s : Slot) (slots : List Slot) → pending h (set slots i s) ≤ pending h slots + 1
unfolding pending
pending-set h i s [] = omega arith
pending-set h zero s (x ∷ xs) = ground arith
pending-set h (suc i) s (x ∷ xs) = omega (arith, pending-set h i s xs)

-- The queue of a listener: where no more connections wait in it than its backlog allows, no more do
-- after `begin_connection`, whatever the connection it is asked for.
pub begin_connection_lem :
    (h : ℕ) (here remote : Endpoint) (mac remote_sequence local_sequence : ℕ) (t : Table) (l : Slot)
    → slot t.slots h ≡ some l
    → pending h t.slots ≤ l.backlog
    → pending h (begin_connection h here remote mac remote_sequence local_sequence t).2.slots
      ≤ l.backlog
unfolding begin_connection
begin_connection_lem h here remote mac remote_sequence local_sequence t l there bounded =
    let more = λ (i : ℕ).
      pending-set h i (begun h here remote mac remote_sequence local_sequence (at t.slots i))
        t.slots in
    let one_more = more (allocate t.slots) in
    rw (there, begin_connection) (ground (arith, bounded, one_more))
