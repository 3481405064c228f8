-- ===== src/Socket/Lifecycle.antt =====
-- The life of a connection: references, the queue of a listener, the handshake and resets.
use mikos.Prelude.{
  ℕ, ◌+◌, ◌-◌, List, [], ◌∷◌, Option, none, some, Bool, true, false, not, ◌&&◌, ◌||◌, if◌then◌else◌,
  ◌==◌, leb, set, u32,
}
use mikos.Slots.{find_index}
use mikos.Socket.{
  Result, stream, Endpoint, no_endpoint, Slot, Segment, Table, syn_received, established,
  reset_state, success, bad_handle, invalid_argument, not_listening, would_block, no_space,
  invalid_socket, is_listening, is_syn_received, is_reset, is_open, is_ready, same_endpoint, at,
  slot, allocate, vacant, clear_reassembly,
}

unfoldable pub retain : ℕ → Table → Result × Table
retain h t = elim (slot t.slots h) [
  | none ↦ (bad_handle, t)
  | some s ↦ if s.references == 0xffff then (bad_handle, t) else (
    success,
    record t { slots = set t.slots h (record s { references = s.references + 1 }) },
  )
]

-- A connection that waits in the queue of the listener `h`.
abbrev pub is_pending : ℕ → Slot → Bool
is_pending h s = s.listener == h && not s.accepted

-- The loop of `release` over the slots from slot `i` on: the connections that wait are given up.
unfoldable pub release_pending :
    ℕ → ℕ → List Slot → List (Option Segment) → List Slot × List (Option Segment)
release_pending h i [] store = ([], store)
release_pending h i (s ∷ ss) store =
    let store' = if is_pending h s then clear_reassembly i store else store in
    let (ss', after) = release_pending h (i + 1) ss store' in
    ((if is_pending h s then vacant else s) ∷ ss', after)

-- The end of `release`, where the last reference is gone.
unfoldable pub give_up : ℕ → List Slot × List (Option Segment) → Table
give_up h rest = record { slots = set rest.0 h vacant; reassembly = clear_reassembly h rest.1 }

unfoldable pub release : ℕ → Table → Result × Table
unfolding release_pending give_up
release h t = elim (slot t.slots h) [
  | none ↦ (bad_handle, t)
  | some s ↦
      if s.references == 0
      then (bad_handle, t)
      else if not (s.references - 1 == 0)
      then (
        success,
        record t { slots = set t.slots h (record s { references = s.references - 1 }) },
      )
      else (
        success,
        give_up h (
            if is_listening s.state
            then release_pending h 0 (set t.slots h (record s { references = 0 })) t.reassembly
            else (t.slots, t.reassembly)),
      )
]

-- How many connections wait in the queue of the listener `h`.
unfoldable pub pending : ℕ → List Slot → ℕ
pending h [] = 0
pending h (s ∷ ss) = (if is_pending h s then 1 else 0) + pending h ss

-- What `begin_connection` writes over a slot.
abbrev pub begun : ℕ → Endpoint → Endpoint → ℕ → ℕ → ℕ → Slot → Slot
begun listener here remote mac remote_sequence local_sequence s = record s {
  state = syn_received;
  kind = stream;
  here = here;
  remote = remote;
  remote_mac = mac;
  send_next = u32 (local_sequence + 1);
  send_unacknowledged = local_sequence;
  window_sequence = remote_sequence;
  window_acknowledgement = local_sequence;
  receive_next = u32 (remote_sequence + 1);
  references = 1;
  listener = listener;
}

unfoldable pub begin_connection : ℕ → Endpoint → Endpoint → ℕ → ℕ → ℕ → Table → Result × ℕ × Table
unfolding pending at
begin_connection listener here remote mac remote_sequence local_sequence t =
    elim (slot t.slots listener) [
      | none ↦ (not_listening, invalid_socket, t)
      | some l ↦
          if not (is_listening l.state)
          then (not_listening, invalid_socket, t)
          else (elim (find_index
              (λ (s : Slot).
                s.listener == listener && (same_endpoint s.remote remote && not s.accepted))
              t.slots) [
                | some i ↦ (success, i, t)
                | none ↦
                    if leb l.backlog (pending listener t.slots)
                    then (no_space, invalid_socket, t)
                    else (let h = allocate t.slots in
                        if h == invalid_socket then (no_space, invalid_socket, t) else (
                          success,
                          h,
                          record t {
                            slots = set t.slots h (
                                begun listener here remote mac remote_sequence local_sequence
                                  (at t.slots h));
                          },
                        ))
              ])
    ]

unfoldable pub establish : ℕ → ℕ → Table → Result × Table
establish h acknowledgement t = elim (slot t.slots h) [
  | none ↦ (bad_handle, t)
  | some s ↦
      if is_open s.state
      then (success, t)
      else if not (is_syn_received s.state) || not (acknowledgement == s.send_next)
      then (invalid_argument, t)
      else (
        success,
        record t {
          slots =
              set t.slots h
                (record s { state = established; send_unacknowledged = acknowledgement });
        },
      )
]

-- The status, the handle and the peer.
unfoldable pub accept : ℕ → Table → Result × ℕ × Endpoint × Table
unfolding at
accept listener t = elim (slot t.slots listener) [
  | none ↦ (bad_handle, invalid_socket, no_endpoint, t)
  | some l ↦
      if not (is_listening l.state)
      then (not_listening, invalid_socket, no_endpoint, t)
      else (elim (find_index (λ (s : Slot). is_pending listener s && is_ready s.state) t.slots) [
        | none ↦ (would_block, invalid_socket, no_endpoint, t)
        | some i ↦
            let s = at t.slots i in
            (
              success,
              i,
              s.remote,
              record t { slots = set t.slots i (record s { accepted = true }) },
            )
      ])
]

-- What `reset` leaves of a connection.
abbrev pub aborted : Result → Slot → Slot
aborted failure s = record s {
  receive_buffer = [];
  state = reset_state;
  failure = failure;
  receive_closed = false;
  persist_waiting = false;
}

unfoldable pub reset : ℕ → Result → Table → Table
unfolding release
reset h failure t = elim (slot t.slots h) [
  | none ↦ t
  | some s ↦ if is_syn_received s.state then (release h t).1 else record {
    slots = set t.slots h (aborted failure s);
    reassembly = clear_reassembly h t.reassembly;
  }
]

unfoldable pub any_ready : ℕ → List Slot → Bool
any_ready h [] = false
any_ready h (s ∷ ss) = (is_pending h s && is_ready s.state) || any_ready h ss

abbrev pub is_empty : List ℕ → Bool
is_empty [] = true
is_empty (x ∷ xs) = false

unfoldable pub readable : ℕ → Table → Bool
unfolding any_ready
readable h t = elim (slot t.slots h) [
  | none ↦ false
  | some s ↦
      if is_listening s.state
      then any_ready h t.slots
      else not (is_empty s.receive_buffer)
        || (s.receive_closed || (s.read_closed || is_reset s.state))
]

unfoldable pub writable : ℕ → Table → Bool
writable h t = elim (slot t.slots h) [
  | none ↦ false
  | some s ↦ is_open s.state && not s.send_closed
]
