-- ===== src/Socket/Ports.antt =====
-- Addresses and ports: `open`, `bind`, `listen` and the searches by address.
use mikos.Prelude.{
  ℕ, zero, suc, ◌+◌, List, [], ◌∷◌, Option, none, some, Bool, true, false, not, ◌&&◌, ◌||◌,
  if◌then◌else◌, ◌==◌, ltb, set,
}
use mikos.Slots.{find_index}
use mikos.Socket.{
  State, Result, Kind, Endpoint, Slot, Table, control, created, bound, listening, success,
  bad_handle, wrong_type, invalid_argument, address_in_use, not_bound, no_space, invalid_socket,
  listen_backlog_capacity, unspecified, is_free, is_control, is_listening, is_stream, is_connection,
  same_endpoint, at, slot, allocate,
}

abbrev pub is_created : State → Bool
is_created created = true
is_created _ = false

abbrev pub is_bound : State → Bool
is_bound bound = true
is_bound _ = false

-- `open`
unfoldable pub open_socket : Kind → Table → Result × ℕ × Table
unfolding allocate at
open_socket kind t =
    let h = allocate t.slots in
    if h == invalid_socket then (no_space, invalid_socket, t) else (
      success,
      h,
      record t {
        slots = set t.slots h (record (at t.slots h) {
          kind = kind;
          state = if is_stream kind then created else control;
          references = 1;
        });
      },
    )

-- Whether an address of a socket and one that is asked for are the same, or one stands for all.
abbrev pub overlaps : Endpoint → Endpoint → Bool
overlaps a b =
    a.port == b.port && (unspecified a.address || (unspecified b.address || a.address == b.address))

-- A slot that holds its address against others.
abbrev pub holds_port : Slot → Bool
holds_port s = is_stream s.kind && (not (is_free s.state) && not (is_control s.state))

-- The loop over the slots, from slot `i` on.
unfoldable pub conflicts_from : ℕ → Endpoint → ℕ → List Slot → Bool
conflicts_from excluded e i [] = false
conflicts_from excluded e i (s ∷ ss) =
    (not (i == excluded) && (holds_port s && overlaps s.here e))
    || conflicts_from excluded e (i + 1) ss

unfoldable pub port_conflicts : List Slot → ℕ → Endpoint → Bool
unfolding conflicts_from
port_conflicts slots excluded e = conflicts_from excluded e 0 slots

-- The loop over `n` ports from `port` on.
unfoldable pub ephemeral_from : List Slot → ℕ → ℕ → ℕ → ℕ
unfolding port_conflicts
ephemeral_from slots address zero port = 0
ephemeral_from slots address (suc n) port =
    let later = ephemeral_from slots address n (port + 1) in
    if not (port_conflicts slots invalid_socket (record { address = address; port = port }))
    then port
    else later

-- The ports from 49152 to 65535.
unfoldable pub allocate_ephemeral_port : List Slot → ℕ → ℕ
unfolding ephemeral_from
allocate_ephemeral_port slots address = ephemeral_from slots address 16384 49152

unfoldable pub bind : ℕ → Endpoint → Table → Result × Table
bind h e t = elim (slot t.slots h) [
  | none ↦ (bad_handle, t)
  | some s ↦
      if not (is_stream s.kind)
      then (wrong_type, t)
      else if not (is_created s.state)
      then (invalid_argument, t)
      else (let port = if e.port == 0 then allocate_ephemeral_port t.slots e.address else e.port in
          let chosen : Endpoint = record { address = e.address; port = port } in
          if port == 0
          then (no_space, t)
          else if port_conflicts t.slots h chosen
          then (address_in_use, t)
          else (
            success,
            record t { slots = set t.slots h (record s { here = chosen; state = bound }) },
          ))
]

-- `std::clamp(backlog, 1, listen_backlog_capacity)`
abbrev pub clamp_backlog : ℕ → ℕ
clamp_backlog n =
    if ltb n 1 then 1 else if ltb listen_backlog_capacity n then listen_backlog_capacity else n

unfoldable pub listen : ℕ → ℕ → Table → Result × Table
listen h n t = elim (slot t.slots h) [
  | none ↦ (bad_handle, t)
  | some s ↦
      if not (is_stream s.kind)
      then (wrong_type, t)
      else if not (is_bound s.state) && not (is_listening s.state)
      then (not_bound, t)
      else (
        success,
        record t {
          slots = set t.slots h (record s { backlog = clamp_backlog n; state = listening });
        },
      )
]

abbrev pub first_or_invalid : Option ℕ → ℕ
first_or_invalid none = invalid_socket
first_or_invalid (some i) = i

abbrev pub listens_at : Endpoint → Slot → Bool
listens_at e s =
    is_listening s.state
    && (s.here.port == e.port && (unspecified s.here.address || s.here.address == e.address))

unfoldable pub listener_of : List Slot → Endpoint → ℕ
listener_of slots e = first_or_invalid (find_index (listens_at e) slots)

abbrev pub connects : Endpoint → Endpoint → Slot → Bool
connects here remote s =
    is_connection s.state && (same_endpoint s.here here && same_endpoint s.remote remote)

unfoldable pub connection : List Slot → Endpoint → Endpoint → ℕ
connection slots here remote = first_or_invalid (find_index (connects here remote) slots)
