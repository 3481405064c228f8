-- ===== src/Net/Received.antt =====
-- What send_segment hands to the driver, parse_tcp reads at the other end.
use mikos.Prelude.{
  ℕ, ◌+◌, ◌-◌, ◌*◌, ◌/◌, ◌^◌, ◌≤◌, ◌<◌, ◌≡◌, refl, ap, sym, ◌∙◌, List, ◌++◌, Option, none, some,
  Bool, true, false, if◌then◌else◌, ltb, arith, length, length-append, u16, inl, inr, Bool-cases,
}
use mikos.Slots.{All}
use mikos.Socket.{Slot}
use mikos.Net.{IsByte, bytes32, read8, read16, internet_checksum, tcp_checksum}
use mikos.Net.Options.{
  TcpOptions, no_options, parse_tcp_options, parse_from, next_option, take_option,
}
use mikos.Net.Tcp.{Ipv4Header, TcpHeader, parse_tcp}
use mikos.Net.Segment.{
  encode_ethernet, encode_ip, encode_tcp, checked_segment, with_ip_checksum, options_for, has_syn,
  ethernet_header, ip_header, tcp_header, send_segment, transmit_buffer_size,
}
use mikos.Net.Headers.{IsIp, IsTcp, All-append, bytes32-AreBytes}
use mikos.Net.Valid.{with_ip_checksum-valid, encode_tcp-length}
use mikos.Net.Accepted.{parse_segment-checked_segment, parse_tcp-packet}

-- A socket whose addresses and numbers are in range, and what it sends.
pub record Sendable (identification : ℕ) (s : Slot) (flags : ℕ) (payload : List ℕ) (sequence : ℕ)
    : Type 0 where
  pub identification_short : identification < 65536
  pub here_address : s.here.address < 2 ^ 32
  pub remote_address : s.remote.address < 2 ^ 32
  pub here_port : s.here.port < 65536
  pub remote_port : s.remote.port < 65536
  pub receive_word : s.receive_next < 2 ^ 32
  pub flags_byte : flags < 256
  pub sequence_word : sequence < 2 ^ 32
  pub payload_bytes : All IsByte payload

-- What the options say: a segment size of 1460 with a handshake, and no scaling where scaling is
-- negotiated.
unfoldable pub options_meant : Bool → Bool → TcpOptions
options_meant false scale = no_options
options_meant true false = record { maximum_segment_size = some 1460; window_scale = none }
options_meant true true = record { maximum_segment_size = some 1460; window_scale = some 0 }

options_for-options_meant :
    (syn scale : Bool) → parse_tcp_options (options_for syn scale) ≡ some (options_meant syn scale)
unfolding options_for options_meant parse_tcp_options parse_from next_option take_option read16
    read8
options_for-options_meant false scale = refl
options_for-options_meant true false = refl
options_for-options_meant true true = refl

record IsOptions (options : List ℕ) : Type 0 where
  few : length options ≤ 8
  counted : (20 + length options) / 4 * 16 / 16 * 4 ≡ 20 + length options
  bytes : All IsByte options

options_for-IsOptions : (syn scale : Bool) → IsOptions (options_for syn scale)
unfolding options_for
options_for-IsOptions false scale = record { few = omega arith; counted = refl; bytes = tt }
options_for-IsOptions true false = record {
  few = omega arith;
  counted = refl;
  bytes = (omega arith, (omega arith, (omega arith, (omega arith, tt))));
}
options_for-IsOptions true true = record {
  few = omega arith;
  counted = refl;
  bytes = (
    omega arith,
    (
      omega arith,
      (omega arith, (omega arith, (omega arith, (omega arith, (omega arith, (omega arith, tt)))))),
    ),
  );
}

-- The packet's header as it is sent.
abbrev pub sent_ip : ℕ → Slot → ℕ → Ipv4Header
sent_ip identification s size = with_ip_checksum (ip_header identification s size)

abbrev pub sent_tcp : Slot → ℕ → ℕ → List ℕ → List ℕ → TcpHeader
sent_tcp s flags sequence options payload =
    let h = tcp_header s flags sequence (20 + length options) in
    record h {
      checksum =
          tcp_checksum (bytes32 s.here.address) (bytes32 s.remote.address)
            (encode_tcp h ++ (options ++ payload));
    }

tcp_header-IsTcp :
    (identification : ℕ) (s : Slot) (flags : ℕ) (payload options : List ℕ) (sequence : ℕ)
    → Sendable identification s flags payload sequence
    → length options ≤ 8
    → IsTcp (tcp_header s flags sequence (20 + length options))
unfolding tcp_header
tcp_header-IsTcp identification s flags payload options sequence k few = record {
  source_short = k.here_port;
  destination_short = k.remote_port;
  sequence_word = k.sequence_word;
  acknowledgement_word = k.receive_word;
  offset_byte = omega (arith, few);
  flags_byte = k.flags_byte;
  window_short = ground arith;
  checksum_short = omega arith;
  urgent_short = omega arith;
}

ip_header-IsIp :
    (identification : ℕ) (s : Slot) (flags : ℕ) (payload : List ℕ) (sequence size : ℕ)
    → Sendable identification s flags payload sequence
    → IsIp (ip_header identification s size)
unfolding ip_header
ip_header-IsIp identification s flags payload sequence size k = record {
  version_byte = omega arith;
  dscp_byte = omega arith;
  total_short = omega arith;
  identification_short = k.identification_short;
  fragment_short = omega arith;
  ttl_byte = omega arith;
  protocol_byte = omega arith;
  checksum_short = omega arith;
  source_bytes = bytes32-AreBytes s.here.address k.here_address;
  destination_bytes = bytes32-AreBytes s.remote.address k.remote_address;
}

ip_header-valid :
    (identification : ℕ) (s : Slot) (flags : ℕ) (payload : List ℕ) (sequence size : ℕ)
    → Sendable identification s flags payload sequence
    → internet_checksum (encode_ip (sent_ip identification s size)) ≡ 0
unfolding ip_header
ip_header-valid identification s flags payload sequence size k =
    with_ip_checksum-valid (ip_header identification s size)
      (ip_header-IsIp identification s flags payload sequence size k) refl refl

checked_segment-length :
    (source destination : List ℕ) (h : TcpHeader) (rest : List ℕ)
    → length (checked_segment source destination h rest) ≡ 20 + length rest
unfolding checked_segment
checked_segment-length source destination h rest =
    encode_tcp-length
      (record h { checksum = tcp_checksum source destination (encode_tcp h ++ rest) }) rest

-- A frame with some options.
frame_lem :
    (mac identification : ℕ) (s : Slot) (flags : ℕ) (options payload : List ℕ) (sequence : ℕ)
    (meant : TcpOptions)
    → Sendable identification s flags payload sequence
    → IsOptions options
    → length payload ≤ 1482
    → parse_tcp_options options ≡ some meant
    → parse_tcp
        (encode_ethernet (ethernet_header mac s)
          ++ (encode_ip (sent_ip identification s (20 + length options + length payload))
              ++ checked_segment
                  (bytes32 s.here.address)
                  (bytes32 s.remote.address)
                  (tcp_header s flags sequence (20 + length options))
                  (options ++ payload)))
        (bytes32 s.remote.address)
      ≡ some (record {
        ethernet = ethernet_header mac s;
        ip = sent_ip identification s (20 + length options + length payload);
        tcp = sent_tcp s flags sequence options payload;
        payload = payload;
        options = meant;
      })
unfolding ethernet_header ip_header with_ip_checksum tcp_header
frame_lem mac identification s flags options payload sequence meant k o short parsed =
    let h = tcp_header s flags sequence (20 + length options) in
    let size = 20 + length options + length payload in
    let segment =
      checked_segment (bytes32 s.here.address) (bytes32 s.remote.address) h (options ++ payload) in
    let sum = length-append options payload in
    let long : length segment ≡ 20 + length (options ++ payload) =
      checked_segment-length (bytes32 s.here.address) (bytes32 s.remote.address) h
        (options ++ payload) in
    parse_tcp-packet s.remote_mac mac (sent_ip identification s size) s.here.address
      s.remote.address segment refl refl refl (omega (arith, long, sum, short, o.few))
      (omega (arith, long)) (ip_header-valid identification s flags payload sequence size k)
    ∙ parse_segment-checked_segment (ethernet_header mac s) (sent_ip identification s size)
        s.here.address s.remote.address h options payload meant
        (tcp_header-IsTcp identification s flags payload options sequence k o.few) refl o.counted
        refl k.here_address k.remote_address (All-append options payload o.bytes k.payload_bytes)
        (omega (arith, sum, short, o.few)) parsed

-- A frame that `send_segment` hands to the driver, for a socket whose addresses and numbers are in
-- range, is parsed at the remote address to exactly the headers, the payload and the options that were
-- sent; no check of `parse_tcp` refuses it.
pub parse_tcp-send_segment :
    (mac identification : ℕ) (s : Slot) (flags : ℕ) (payload : List ℕ) (sequence : ℕ)
    (frame : List ℕ)
    → Sendable identification s flags payload sequence
    → (send_segment mac identification s flags payload sequence).0 ≡ some frame
    → let scale = s.transport.scale_negotiated in
      let options = options_for (has_syn flags) scale in
      parse_tcp frame (bytes32 s.remote.address)
      ≡ some (record {
        ethernet = ethernet_header mac s;
        ip = sent_ip identification s (20 + length options + length payload);
        tcp = sent_tcp s flags sequence options payload;
        payload = payload;
        options = options_meant (has_syn flags) scale;
      })
unfolding send_segment
parse_tcp-send_segment mac identification s flags payload sequence frame k sent =
    let scale = s.transport.scale_negotiated in
    let o = options_for-IsOptions (has_syn flags) scale in
    elim (Bool-cases too_large) [
      | inl large ↦ let failed : none ≡ some frame = sym (ap handed large) ∙ sent in absurd cc
      | inr fits ↦
          let same : some whole ≡ some frame = sym (ap handed fits) ∙ sent in
          let here : whole ≡ frame = cc in
          ap (λ f. parse_tcp f (bytes32 s.remote.address)) (sym here)
          ∙ frame_lem mac identification s flags options payload sequence
              (options_meant (has_syn flags) scale) k o (ground (arith, fits))
              (options_for-options_meant (has_syn flags) scale)
    ]
  where
    options : List ℕ
    options = options_for (has_syn flags) s.transport.scale_negotiated

    too_large : Bool
    too_large = ltb (transmit_buffer_size - (34 + (20 + length options))) (length payload)

    whole : List ℕ
    whole =
        encode_ethernet (ethernet_header mac s)
        ++ (encode_ip (sent_ip identification s (20 + length options + length payload))
            ++ checked_segment (bytes32 s.here.address) (bytes32 s.remote.address)
                (tcp_header s flags sequence (20 + length options)) (options ++ payload))

    handed : Bool → Option (List ℕ)
    handed large =
        let result : Option (List ℕ) × ℕ =
          if large then (none, identification) else (some whole, u16 (identification + 1)) in
        result.0
