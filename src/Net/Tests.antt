-- ===== src/Net/Tests.antt =====
-- A connection from 10.0.2.15 port 80 to 10.0.2.2 port 40000, and what it sends; options alone; an
-- echo request; and requests for the interface.
use mikos.Prelude.{
  replicate, ℕ, ◌≡◌, refl, List, [], ◌∷◌, ◌++◌, Option, none, some, Bool, true, ◌&&◌, ltb, arith,
  length, take, drop,
}
use mikos.Slots.{All}
use mikos.Net.Reply.{icmp_bytes, is_echo_request, make_icmp_echo_reply}
use mikos.Net.Interface.{
  InterfaceState, invalid_argument, interface_name_matches, update_broadcast, broadcast_of,
  write_sockaddr_ipv4, apply_interface_ioctl,
}
use mikos.Net.Requests.{outcome, verdict, starts_with, eth0_text, apply_interface_ioctl_lem}
use mikos.Net.Ping.{make_icmp_echo_reply_lem}
use mikos.Socket.{Slot, Endpoint, vacant}
use mikos.Net.{
  IsByte, bytes32, read8, read16, checksum_add, fold_carries, checksum_finish, internet_checksum,
}
use mikos.Net.Options.{
  Item, no_operation, option, encode, parse_tcp_options, no_options, take_option, parse_from,
  next_option,
}
use mikos.Net.Meaning.{all_well_formed, of_kind, meaning, parse_tcp_options-encode}
use mikos.Net.Tcp.{decode_ip, same_octets, parse_tcp}
use mikos.Net.Segment.{
  send_segment, options_for, ethernet_header, tcp_header, ip_header, encode_ethernet, encode_ip,
  encode_tcp, with_ip_checksum, checked_segment,
}
use mikos.Net.Received.{Sendable, sent_ip, sent_tcp, options_meant, parse_tcp-send_segment}

abbrev here : Endpoint
here = record { address = 167772687; port = 80 }

abbrev remote : Endpoint
remote = record { address = 167772674; port = 40000 }

abbrev socket : Slot
socket = record vacant {
  here = here;
  remote = remote;
  remote_mac = 90520730730498;
  receive_next = 4294967295;
}

abbrev greeting : List ℕ
greeting = 104 ∷ 105 ∷ 33 ∷ []

abbrev sent : List ℕ
sent = get (send_segment 90520730730499 7 socket 24 greeting 1000).0
  where
    get : Option (List ℕ) → List ℕ
    get none = []
    get (some frame) = frame

sent_test : length sent ≡ 57
unfolding send_segment options_for encode_ethernet ethernet_header encode_ip ip_header
    with_ip_checksum encode_tcp tcp_header checked_segment
sent_test = refl

-- The checksum of the packet.
sent_checksum : read16 sent 24 ≡ 25270
unfolding send_segment options_for encode_ethernet ethernet_header encode_ip ip_header
    with_ip_checksum encode_tcp tcp_header checked_segment internet_checksum checksum_add
    checksum_finish fold_carries read16 read8
sent_checksum = refl

socket-Sendable : Sendable 7 socket 24 greeting 1000
socket-Sendable = record {
  identification_short = omega arith;
  here_address = omega arith;
  remote_address = omega arith;
  here_port = omega arith;
  remote_port = omega arith;
  receive_word = omega arith;
  flags_byte = omega arith;
  sequence_word = omega arith;
  payload_bytes = (omega arith, (omega arith, (omega arith, tt)));
}

parse_tcp-send_segment_example :
    parse_tcp sent (bytes32 remote.address)
    ≡ some (record {
      ethernet = ethernet_header 90520730730499 socket;
      ip = sent_ip 7 socket 23;
      tcp = sent_tcp socket 24 1000 [] greeting;
      payload = greeting;
      options = no_options;
    })
unfolding send_segment options_for encode_ethernet ethernet_header encode_ip ip_header
    with_ip_checksum encode_tcp tcp_header checked_segment options_meant
parse_tcp-send_segment_example =
    parse_tcp-send_segment 90520730730499 7 socket 24 greeting 1000 sent socket-Sendable refl

abbrev handshake : List Item
handshake = option 2 (5 ∷ 180 ∷ []) ∷ no_operation ∷ option 4 [] ∷ option 3 (20 ∷ []) ∷ []

-- The scale is at most 14.
handshake_test :
    parse_tcp_options (encode handshake)
    ≡ some (record { maximum_segment_size = some 1460; window_scale = some 14 })
unfolding parse_tcp_options parse_from next_option take_option encode read16 read8
handshake_test = refl

-- A length of 1 frames nothing.
malformed : parse_tcp_options (2 ∷ 1 ∷ 5 ∷ 180 ∷ []) ≡ none
unfolding parse_tcp_options parse_from next_option take_option read16 read8
malformed = refl

-- Two sizes are refused.
twice : meaning (option 2 (5 ∷ 180 ∷ []) ∷ option 2 (2 ∷ 24 ∷ []) ∷ []) ≡ none
unfolding meaning all_well_formed of_kind read16 read8
twice = refl

parse_tcp_options-encode_example :
    parse_tcp_options (encode handshake ++ 0 ∷ 7 ∷ []) ≡ meaning handshake
parse_tcp_options-encode_example =
    parse_tcp_options-encode handshake (0 ∷ 7 ∷ [])
      (
        (omega arith, omega arith),
        (tt, ((omega arith, omega arith), ((omega arith, omega arith), tt))),
      )
      refl

-- An echo request from 10.0.2.2 to 10.0.2.15, with two bytes of data.
abbrev ping : List ℕ
ping =
    1 ∷ 2 ∷ 3 ∷ 4 ∷ 5 ∷ 6 ∷ 11 ∷ 12 ∷ 13 ∷ 14 ∷ 15 ∷ 16 ∷ 8 ∷ 0 ∷ 0x45 ∷ 0 ∷ 0 ∷ 30 ∷ 0 ∷ 1 ∷ 0 ∷ 0
    ∷ 64 ∷ 1 ∷ 98 ∷ 206 ∷ 10 ∷ 0 ∷ 2 ∷ 2 ∷ 10 ∷ 0 ∷ 2 ∷ 15 ∷ 8 ∷ 0 ∷ 240 ∷ 244 ∷ 0 ∷ 1 ∷ 0 ∷ 1 ∷ 7
    ∷ 9 ∷ []

abbrev own_mac : List ℕ
own_mac = 1 ∷ 2 ∷ 3 ∷ 4 ∷ 5 ∷ 6 ∷ []

abbrev own_ip : List ℕ
own_ip = 10 ∷ 0 ∷ 2 ∷ 15 ∷ []

abbrev pong : List ℕ
pong = (make_icmp_echo_reply ping own_mac own_ip).1

ping-reply : (make_icmp_echo_reply ping own_mac own_ip).0 ≡ 44
unfolding make_icmp_echo_reply is_echo_request decode_ip same_octets internet_checksum checksum_add
    checksum_finish fold_carries read16 read8
ping-reply = refl

all_small : List ℕ → Bool
all_small [] = true
all_small (x ∷ xs) = ltb x 256 && all_small xs

small : (xs : List ℕ) → all_small xs ≡ true → All IsByte xs
unfolding all_small
small [] e = tt
small (x ∷ xs) e = (ground (arith, e), small xs (ground (arith, e)))

ping-AreBytes : All IsByte ping
unfolding all_small
ping-AreBytes = small ping refl

make_icmp_echo_reply_lem_example :
    (take 12 pong ≡ take 6 (drop 6 ping) ++ own_mac)
    × ((decode_ip (drop 14 pong)).source ≡ own_ip)
    × ((decode_ip (drop 14 pong)).destination ≡ (decode_ip (drop 14 ping)).source)
    × (internet_checksum (take 20 (drop 14 pong)) ≡ 0)
    × (internet_checksum (icmp_bytes pong) ≡ 0)
    × (drop 4 (icmp_bytes pong) ≡ drop 4 (icmp_bytes ping))
make_icmp_echo_reply_lem_example =
    make_icmp_echo_reply_lem ping own_mac own_ip ping-AreBytes
      (omega arith, (omega arith, (omega arith, (omega arith, tt)))) refl refl
      (λ e. absurd (omega (arith, e, ping-reply)))

abbrev eth0 : List ℕ
eth0 = 101 ∷ 116 ∷ 104 ∷ 48 ∷ 0 ∷ []

abbrev interface : InterfaceState
interface = record {
  mac = own_mac;
  address = own_ip;
  netmask = 255 ∷ 255 ∷ 255 ∷ 0 ∷ [];
  broadcast = 10 ∷ 0 ∷ 2 ∷ 255 ∷ [];
  flags = 4163;
}

-- An address of no family, and one of family 2.
abbrev unset : List ℕ
unset = replicate 16 0

abbrev moved : List ℕ
moved = write_sockaddr_ipv4 (192 ∷ 168 ∷ 0 ∷ 7 ∷ [])

moved-broadcast :
    (apply_interface_ioctl interface 0x8916 eth0 moved).1.broadcast ≡ 192 ∷ 168 ∷ 0 ∷ 255 ∷ []
unfolding apply_interface_ioctl interface_name_matches update_broadcast broadcast_of read8
moved-broadcast = refl

-- An address of no family is refused, for the broadcast address too.
refused : (apply_interface_ioctl interface 0x891a eth0 unset).0 ≡ invalid_argument
unfolding apply_interface_ioctl interface_name_matches read8
refused = refl

apply_interface_ioctl_lem_example :
    apply_interface_ioctl interface 0x8916 eth0 moved
    ≡ outcome (verdict (starts_with eth0_text eth0) 0x8916 moved) interface 0x8916 moved
apply_interface_ioctl_lem_example =
    apply_interface_ioctl_lem interface 0x8916 eth0 moved (omega arith)
