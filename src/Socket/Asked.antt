-- ===== src/Socket/Asked.antt =====
-- The port that `bind` takes, and what it is to the addresses of the other slots.
use mikos.Prelude.{
  ℕ, zero, suc, ◌+◌, ◌≤◌, ◌<◌, ◌≡◌, ◌≢◌, refl, ap, sym, subst, ◌∙◌, List, [], ◌∷◌, some, Bool, true,
  false, not, ◌&&◌, ◌||◌, if◌then◌else◌, ◌==◌, arith, get_elem?, inl, inr, ◌⊎◌, Option-cases,
  if_intro, Bool-cases, none,
}
use mikos.Socket.{vacant, is_free, is_control, is_stream, at, Slot, Endpoint, invalid_socket}
use mikos.Socket.Ports.{
  overlaps, holds_port, conflicts_from, port_conflicts, ephemeral_from, allocate_ephemeral_port,
}

-- No slot but `excluded` holds an address that overlaps with `e`.
abbrev pub IsOwn : List Slot → ℕ → Endpoint → Type 0
IsOwn slots excluded e =
    (k : ℕ) (s : Slot)
    → get_elem? slots k ≡ some s
    → k ≢ excluded
    → holds_port s ≡ true
    → overlaps s.here e ≡ false

or-right : (a b : Bool) → a || b ≡ false → b ≡ false
or-right true b e = cc
or-right false b e = e

conflicts_from-false :
    (excluded : ℕ) (e : Endpoint) (i : ℕ) (slots : List Slot)
    → conflicts_from excluded e i slots ≡ false
    → (k : ℕ) (s : Slot) → get_elem? slots k ≡ some s
    → i + k ≢ excluded
    → holds_port s ≡ true
    → overlaps s.here e ≡ false
unfolding conflicts_from
conflicts_from-false excluded e i [] none_found k s there other holds = cc
conflicts_from-false excluded e i (x ∷ xs) none_found zero s there other holds =
    let same : x ≡ s = cc in
    let other' : i ≢ excluded = λ e'. other (omega (arith, e')) in
    let holds' : holds_port x ≡ true = ap holds_port same ∙ holds in
    let free' : holds_port x && overlaps x.here e ≡ false = ground (arith, none_found, other') in
    subst (λ (y : Slot). overlaps y.here e ≡ false) same (ground (arith, free', holds'))
conflicts_from-false excluded e i (x ∷ xs) none_found (suc k) s there other holds =
    conflicts_from-false excluded e (i + 1) xs
      (or-right (not (i == excluded) && (holds_port x && overlaps x.here e))
        (conflicts_from excluded e (i + 1) xs) none_found)
      k s there (λ e'. other (omega (arith, e'))) holds

pub port_conflicts-IsOwn :
    (slots : List Slot) (excluded : ℕ) (e : Endpoint)
    → port_conflicts slots excluded e ≡ false
    → IsOwn slots excluded e
unfolding port_conflicts
port_conflicts-IsOwn slots excluded e none_found k s there other holds =
    conflicts_from-false excluded e 0 slots none_found k s there (λ e'. other (omega (arith, e')))
      holds

-- A port of a range that no slot holds with this address.
abbrev FreePort : List Slot → ℕ → ℕ → ℕ → ℕ → Type 0
FreePort slots address n port found =
    ((port ≤ found) × (found < port + n))
    × (port_conflicts slots invalid_socket (record { address = address; port = found }) ≡ false)

ephemeral_from_lem :
    (slots : List Slot) (address n port : ℕ)
    → ephemeral_from slots address n port ≢ 0
    → FreePort slots address n port (ephemeral_from slots address n port)
unfolding ephemeral_from
ephemeral_from_lem slots address zero port there = absurd (there refl)
ephemeral_from_lem slots address (suc n) port there =
    if_intro (λ found. found ≢ 0 → FreePort slots address (suc n) port found) (not taken) port later
      (λ free some_port. ((omega arith, omega arith), ground (arith, free)))
      (λ taken some_port.
        let ((low, high), free) = ephemeral_from_lem slots address n (port + 1) some_port in
        ((omega (arith, low), omega (arith, high)), free))
      there
  where
    taken : Bool
    taken = port_conflicts slots invalid_socket (record { address = address; port = port })

    later : ℕ
    later = ephemeral_from slots address n (port + 1)

-- The port that `bind` takes.
unfoldable pub asked_port : Endpoint → List Slot → ℕ
asked_port e slots = if e.port == 0 then allocate_ephemeral_port slots e.address else e.port

-- The port that is given to a socket which asks for `asked`.
abbrev pub IsGiven : ℕ → ℕ → Type 0
IsGiven asked given =
    ((asked ≢ 0) × (given ≡ asked)) ⊎ ((asked ≡ 0) × ((49152 ≤ given) × (given < 65536)))

is_zero : (n : ℕ) → (n == 0) ≡ true → n ≡ 0
is_zero n e = ground (arith, e)

pub asked_port_lem :
    (e : Endpoint) (slots : List Slot)
    → asked_port e slots ≢ 0
    → IsGiven e.port (asked_port e slots)
unfolding asked_port allocate_ephemeral_port
asked_port_lem e slots there =
    if_intro (λ p. p ≢ 0 → IsGiven e.port p) (e.port == 0)
      (ephemeral_from slots e.address 16384 49152) e.port
      (λ unnamed found.
        inr (is_zero e.port unnamed, (ephemeral_from_lem slots e.address 16384 49152 found).0))
      (λ named found. inl (found, refl)) there

-- A slot without an address of its own: no stream socket, free, or one that is open for control only.
abbrev pub IsWithout : Slot → Type 0
IsWithout s = (is_stream s.kind ≡ false) ⊎ ((is_free s.state ≡ true) ⊎ (is_control s.state ≡ true))

-- Two addresses that no packet can be meant for both.
abbrev pub IsApart : Endpoint → Endpoint → Type 0
IsApart a b = (a.port ≢ b.port) ⊎ ((a.address ≢ 0) × ((b.address ≢ 0) × (a.address ≢ b.address)))

overlaps-IsApart : (a b : Endpoint) → overlaps a b ≡ false → IsApart a b
overlaps-IsApart a b e = ground (arith, e)

at-missing : (slots : List Slot) (k : ℕ) → get_elem? slots k ≡ none → at slots k ≡ vacant
unfolding at
at-missing [] k e = refl
at-missing (x ∷ xs) zero e = cc
at-missing (x ∷ xs) (suc k) e = at-missing xs k e

at-present : (slots : List Slot) (k : ℕ) (s : Slot) → get_elem? slots k ≡ some s → at slots k ≡ s
unfolding at
at-present [] k s e = cc
at-present (x ∷ xs) zero s e = cc
at-present (x ∷ xs) (suc k) s e = at-present xs k s e

-- What a slot is to another with the address `given`.
pub IsOwn-IsApart :
    (slots : List Slot) (h k : ℕ) (given : Endpoint)
    → IsOwn slots h given
    → (k ≡ h) ⊎ (IsWithout (at slots k) ⊎ IsApart (at slots k).here given)
IsOwn-IsApart slots h k given own = elim (Option-cases (get_elem? slots k)) [
  | inl missing ↦
      inr (inl (inr (inl (ap (λ (s : Slot). is_free s.state) (at-missing slots k missing)))))
  | inr (s, there) ↦
      subst (λ (s' : Slot). (k ≡ h) ⊎ (IsWithout s' ⊎ IsApart s'.here given))
        (sym (at-present slots k s there))
        (elim (decide k h) [
          | inl same ↦ inl same
          | inr other ↦ inr (elim (Bool-cases (holds_port s)) [
            | inl holds ↦ inr (overlaps-IsApart s.here given (own k s there other holds))
            | inr without ↦ inl (ground (arith, without))
          ])
        ])
]
  where
    decide : (a b : ℕ) → (a ≡ b) ⊎ (a ≢ b)
    decide a b = omega arith
