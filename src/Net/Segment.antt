-- ===== src/Net/Segment.antt =====
-- send_segment of network/stack.cpp: the frame of a segment. What is handed to the driver is the result,
-- with the next identification; `none` is a payload that is too large. An address of a socket is the
-- number of its octets.
use mikos.Prelude.{
  ℕ, ◌+◌, ◌-◌, ◌*◌, ◌/◌, ◌%◌, List, [], ◌∷◌, ◌++◌, Option, none, some, Bool, if◌then◌else◌, ◌==◌,
  ltb, length, take, u16,
}
use mikos.Net.{bytes16, bytes32, bytes48, internet_checksum, tcp_checksum}
use mikos.Net.Tcp.{EthernetHeader, Ipv4Header, TcpHeader}
use mikos.Socket.{Slot, receive_capacity}

abbrev pub transmit_buffer_size : ℕ
transmit_buffer_size = 1536

-- Whether the flags have `tcp_syn` and `tcp_rst`.
abbrev pub has_syn : ℕ → Bool
has_syn flags = flags / 2 % 2 == 1

abbrev pub has_rst : ℕ → Bool
has_rst flags = flags / 4 % 2 == 1

abbrev pub syn_options : List ℕ
syn_options = 2 ∷ 4 ∷ 0x05 ∷ 0xb4 ∷ 1 ∷ 3 ∷ 3 ∷ 0 ∷ []

unfoldable pub options_for : Bool → Bool → List ℕ
options_for syn scale = if syn then take (if scale then 8 else 4) syn_options else []

-- The bytes of the headers, as `std::bit_cast` gives them.
unfoldable pub encode_ethernet : EthernetHeader → List ℕ
encode_ethernet h = h.destination ++ (h.source ++ bytes16 h.type)

unfoldable pub encode_ip : Ipv4Header → List ℕ
encode_ip h =
    h.version_ihl
    ∷ h.dscp_ecn
    ∷ (bytes16 h.total_length
        ++ (bytes16 h.identification
            ++ (bytes16 h.flags_fragment
                ++ (h.ttl ∷ h.protocol ∷ (bytes16 h.checksum ++ (h.source ++ h.destination))))))

unfoldable pub encode_tcp : TcpHeader → List ℕ
encode_tcp h =
    bytes16 h.source_port
    ++ (bytes16 h.destination_port
        ++ (bytes32 h.sequence
            ++ (bytes32 h.acknowledgement
                ++ (h.data_offset
                    ∷ h.flags
                    ∷ (bytes16 h.window ++ (bytes16 h.checksum ++ bytes16 h.urgent))))))

unfoldable pub ethernet_header : ℕ → Slot → EthernetHeader
ethernet_header mac s = record {
  destination = bytes48 s.remote_mac;
  source = bytes48 mac;
  type = 0x0800;
}

-- The header of the packet, its checksum yet to come.
unfoldable pub ip_header : ℕ → Slot → ℕ → Ipv4Header
ip_header identification s size = record {
  version_ihl = 0x45;
  dscp_ecn = 0;
  total_length = u16 (20 + size);
  identification = identification;
  flags_fragment = 0;
  ttl = 64;
  protocol = 6;
  checksum = 0;
  source = bytes32 s.here.address;
  destination = bytes32 s.remote.address;
}

-- The header of the segment, its checksum yet to come.
unfoldable pub tcp_header : Slot → ℕ → ℕ → ℕ → TcpHeader
tcp_header s flags sequence size = record {
  source_port = s.here.port;
  destination_port = s.remote.port;
  sequence = sequence;
  acknowledgement = s.receive_next;
  data_offset = size / 4 * 16;
  flags = flags;
  window = if has_rst flags then 0 else u16 (receive_capacity - length s.receive_buffer);
  checksum = 0;
  urgent = 0;
}

unfoldable pub with_ip_checksum : Ipv4Header → Ipv4Header
with_ip_checksum h = record h { checksum = internet_checksum (encode_ip h) }

-- A segment, with its checksum between the two addresses.
unfoldable pub checked_segment : List ℕ → List ℕ → TcpHeader → List ℕ → List ℕ
checked_segment source destination h rest =
    let sum = tcp_checksum source destination (encode_tcp h ++ rest) in
    encode_tcp (record h { checksum = sum }) ++ rest

unfoldable pub send_segment : ℕ → ℕ → Slot → ℕ → List ℕ → ℕ → Option (List ℕ) × ℕ
send_segment mac identification s flags payload sequence =
    let options = options_for (has_syn flags) s.transport.scale_negotiated in
    let size = 20 + length options in
    if ltb (transmit_buffer_size - (34 + size)) (length payload) then (none, identification) else (
      some (
          encode_ethernet (ethernet_header mac s)
          ++ (encode_ip (with_ip_checksum (ip_header identification s (size + length payload)))
              ++ checked_segment (bytes32 s.here.address) (bytes32 s.remote.address)
                  (tcp_header s flags sequence size) (options ++ payload))),
      u16 (identification + 1),
    )
