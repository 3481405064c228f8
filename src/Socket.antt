-- ===== src/Socket.antt =====
-- include/mikos/net/socket.hpp: the table of TCP sockets, its slots and its store of segments that
-- came early. A handle is its index; a pointer into `slots_` is read and written through that index.
-- An address, four octets of IPv4 or six of Ethernet, is the number that they write, since this class
-- only compares addresses.
pub mod Ports
pub mod Lifecycle
pub mod Stream
pub mod Slices
pub mod Reassembly
pub mod Drain
pub mod Others
pub mod Delivery
pub mod Calls
pub mod InOrder
pub mod Termination
pub mod Asked
pub mod Binding
mod Tests
use mikos.Prelude.{
  ℕ, zero, suc, ◌+◌, ◌-◌, ◌*◌, ◌^◌, List, [], ◌∷◌, Option, none, some, Bool, true, false, not, ◌&&◌,
  ◌||◌, if◌then◌else◌, ◌==◌, ltb, leb, get_or, get_elem?, set, length, replicate,
}
use mikos.Slots.{find_index}

abbrev pub socket_capacity : ℕ
socket_capacity = 13

abbrev pub receive_capacity : ℕ
receive_capacity = 4096

abbrev pub listen_backlog_capacity : ℕ
listen_backlog_capacity = 4

abbrev pub reassembly_capacity : ℕ
reassembly_capacity = 16

abbrev pub reassembly_segment_capacity : ℕ
reassembly_segment_capacity = 1500

-- `SocketHandle{}`
abbrev pub invalid_socket : ℕ
invalid_socket = 255

pub data State : Type 0 where
  free control created bound listening syn_received established close_wait : State
  fin_wait_1 fin_wait_2 closing last_ack time_wait closed reset_state : State

pub data Result : Type 0 where
  success bad_handle wrong_type invalid_argument address_in_use not_bound not_listening : Result
  would_block not_connected no_space was_reset end_of_file timed_out : Result

-- `abi::socket::Type`
pub data Kind : Type 0 where
  stream datagram : Kind

pub record Endpoint : Type 0 where
  pub address : ℕ
  pub port : ℕ

-- `Endpoint{}`
abbrev pub no_endpoint : Endpoint
no_endpoint = record { address = 0; port = 0 }

abbrev pub same_endpoint : Endpoint → Endpoint → Bool
same_endpoint a b = a.address == b.address && a.port == b.port

abbrev pub unspecified : ℕ → Bool
unspecified address = address == 0

-- The members of `SocketSlot` that this class sets to their first values and otherwise leaves alone:
-- congestion control, options of the peer, timers and retries.
pub record Transport : Type 0 where
  pub peer_window : ℕ
  pub congestion_window : ℕ
  pub slow_start_threshold : ℕ
  pub congestion_credit : ℕ
  pub duplicate_acks : ℕ
  pub fast_recovery : Bool
  pub peer_mss : ℕ
  pub peer_scale : ℕ
  pub scale_negotiated : Bool
  pub detached : Bool
  pub fin_sent : Bool
  pub fin_acked : Bool
  pub active_close : Bool
  pub rtt_measured : Bool
  pub opened_at : ℕ
  pub progress_at : ℕ
  pub control_retry_at : ℕ
  pub control_delay : ℕ
  pub persist_retry_at : ℕ
  pub persist_delay : ℕ
  pub state_since : ℕ
  pub rto : ℕ
  pub smoothed_rtt : ℕ
  pub rtt_variance : ℕ
  pub acknowledgement_retries : ℕ

abbrev pub first_transport : Transport
first_transport = record {
  peer_window = 65535;
  congestion_window = 4 * 536;
  slow_start_threshold = 65535;
  congestion_credit = 0;
  duplicate_acks = 0;
  fast_recovery = false;
  peer_mss = 536;
  peer_scale = 0;
  scale_negotiated = false;
  detached = false;
  fin_sent = false;
  fin_acked = false;
  active_close = false;
  rtt_measured = false;
  opened_at = 0;
  progress_at = 0;
  control_retry_at = 0;
  control_delay = 10000000;
  persist_retry_at = 0;
  persist_delay = 10000000;
  state_since = 0;
  rto = 10000000;
  smoothed_rtt = 0;
  rtt_variance = 0;
  acknowledgement_retries = 0;
}

pub record Slot : Type 0 where
  pub state : State
  pub kind : Kind
  pub here : Endpoint
  pub remote : Endpoint
  pub remote_mac : ℕ
  pub send_next : ℕ
  pub send_unacknowledged : ℕ
  pub window_sequence : ℕ
  pub window_acknowledgement : ℕ
  pub receive_closed : Bool
  pub read_closed : Bool
  pub persist_waiting : Bool
  pub failure : Result
  pub receive_next : ℕ
  pub references : ℕ
  pub listener : ℕ
  pub backlog : ℕ
  pub accepted : Bool
  pub send_closed : Bool
  pub receive_buffer : List ℕ
  pub transport : Transport

-- `SocketSlot{}`
abbrev pub vacant : Slot
vacant = record {
  state = free;
  kind = datagram;
  here = no_endpoint;
  remote = no_endpoint;
  remote_mac = 0;
  send_next = 0;
  send_unacknowledged = 0;
  window_sequence = 0;
  window_acknowledgement = 0;
  receive_closed = false;
  read_closed = false;
  persist_waiting = false;
  failure = was_reset;
  receive_next = 0;
  references = 0;
  listener = invalid_socket;
  backlog = 0;
  accepted = false;
  send_closed = false;
  receive_buffer = [];
  transport = first_transport;
}

-- A segment that came early, with its key.
pub record Segment : Type 0 where
  pub handle : ℕ
  pub sequence : ℕ
  pub finish : Bool
  pub bytes : List ℕ

pub record Table : Type 0 where
  pub slots : List Slot
  pub reassembly : List (Option Segment)

-- `SocketTable{}`
abbrev pub empty_table : Table
empty_table = record {
  slots = replicate socket_capacity vacant;
  reassembly = replicate reassembly_capacity none;
}

abbrev pub is_free : State → Bool
is_free free = true
is_free _ = false

abbrev pub is_control : State → Bool
is_control control = true
is_control _ = false

abbrev pub is_listening : State → Bool
is_listening listening = true
is_listening _ = false

abbrev pub is_syn_received : State → Bool
is_syn_received syn_received = true
is_syn_received _ = false

abbrev pub is_reset : State → Bool
is_reset reset_state = true
is_reset _ = false

abbrev pub is_stream : Kind → Bool
is_stream stream = true
is_stream datagram = false

abbrev pub is_connection : State → Bool
is_connection syn_received = true
is_connection established = true
is_connection close_wait = true
is_connection fin_wait_1 = true
is_connection fin_wait_2 = true
is_connection closing = true
is_connection last_ack = true
is_connection time_wait = true
is_connection reset_state = true
is_connection _ = false

-- `established` or `close_wait`.
abbrev pub is_open : State → Bool
is_open established = true
is_open close_wait = true
is_open _ = false

-- A connection that `accept` may hand out: it is open, or was reset before it was accepted.
abbrev pub is_ready : State → Bool
is_ready established = true
is_ready close_wait = true
is_ready reset_state = true
is_ready _ = false

pub at : List Slot → ℕ → Slot
at slots i = get_or slots i vacant

-- What the pointer that `slot` gives points to.
unfoldable pub slot : List Slot → ℕ → Option Slot
slot slots h = elim (get_elem? slots h) [
  | none ↦ none
  | some s ↦ if is_free s.state then none else some s
]

-- The index of a free slot, or the invalid handle.
unfoldable pub allocate : List Slot → ℕ
unfolding find_index
allocate slots = elim (find_index (λ (s : Slot). is_free s.state) slots) [
  | none ↦ invalid_socket
  | some i ↦ i
]

-- What `clear_reassembly` does to one entry.
abbrev pub keep_other : ℕ → Option Segment → Option Segment
keep_other h none = none
keep_other h (some g) = if g.handle == h then none else some g

unfoldable pub clear_reassembly : ℕ → List (Option Segment) → List (Option Segment)
clear_reassembly h [] = []
clear_reassembly h (e ∷ es) = keep_other h e ∷ clear_reassembly h es
