-- ===== src/Net/Accepted.antt =====
-- parse_tcp takes the frames that send_segment sends for what they were sent for.
use mikos.Prelude.{
  ℕ, ◌+◌, ◌-◌, ◌*◌, ◌/◌, ◌%◌, ◌^◌, ◌≤◌, ◌<◌, ◌≡◌, refl, ap, ap₂, ◌∙◌, List, [], ◌∷◌, ◌++◌, Option,
  none, some, true, false, if◌then◌else◌, ltb, arith, length, length-append, take, take-append,
  drop, drop-append,
}
use mikos.Slots.{All}
use mikos.Socket.Slices.{drop-add, take_all}
use mikos.Net.{IsByte, bytes32, bytes48, internet_checksum, tcp_checksum}
use mikos.Net.Options.{TcpOptions, parse_tcp_options}
use mikos.Net.Tcp.{
  EthernetHeader, Ipv4Header, TcpHeader, TcpView, decode_ethernet, decode_ip, same_octets,
  ip_header_size, refuses_packet, tcp_header_size, refuses_segment, parse_segment, parse_tcp,
}
use mikos.Net.Segment.{encode_ethernet, encode_ip, encode_tcp, checked_segment}
use mikos.Net.Headers.{
  IsTcp, decode_tcp-encode_tcp, decode_ip-encode_ip, decode_ethernet-encode_ethernet,
  bytes32-AreBytes,
}
use mikos.Net.Valid.{checked_segment-valid, encode_tcp-length}

same_octets_refl : (xs : List ℕ) → same_octets xs xs ≡ true
unfolding same_octets
same_octets_refl [] = refl
same_octets_refl (x ∷ xs) = ground (arith, same_octets_refl xs)

drop-encode_tcp : (h : TcpHeader) (rest : List ℕ) → drop 20 (encode_tcp h ++ rest) ≡ rest
unfolding encode_tcp
drop-encode_tcp h rest = refl

-- A segment with options and a payload, at its end.
pub parse_segment-checked_segment :
    (ethernet : EthernetHeader) (ip : Ipv4Header) (a b : ℕ) (h : TcpHeader)
    (options payload : List ℕ) (meant : TcpOptions)
    → IsTcp h
    → h.checksum ≡ 0
    → h.data_offset / 16 * 4 ≡ 20 + length options
    → ip.source ≡ bytes32 a
    → a < 2 ^ 32
    → b < 2 ^ 32
    → All IsByte (options ++ payload)
    → length (options ++ payload) < 60000
    → parse_tcp_options options ≡ some meant
    → let c = tcp_checksum (bytes32 a) (bytes32 b) (encode_tcp h ++ (options ++ payload)) in
      parse_segment ethernet ip
        (bytes32 b)
        (checked_segment (bytes32 a) (bytes32 b) h (options ++ payload))
      ≡ some (record {
        ethernet = ethernet;
        ip = ip;
        tcp = record h { checksum = c };
        payload = payload;
        options = meant;
      })
unfolding parse_segment checked_segment refuses_segment
parse_segment-checked_segment ethernet ip a b h options payload meant k zero_yet offset from short
      short' bytes small parsed =
    let rest = options ++ payload in
    let c = tcp_checksum (bytes32 a) (bytes32 b) (encode_tcp h ++ rest) in
    let g : TcpHeader = record h { checksum = c } in
    let segment = encode_tcp g ++ rest in
    let size = encode_tcp-length g rest in
    let sum = length-append options payload in
    let valid : tcp_checksum ip.source (bytes32 b) segment ≡ 0 =
      ap (λ s. tcp_checksum s (bytes32 b) segment) from
      ∙ checked_segment-valid (bytes32 a) (bytes32 b) h rest k zero_yet (bytes32-AreBytes a short)
          (bytes32-AreBytes b short') refl refl bytes small in
    let accepted : refuses_segment ip g segment (bytes32 b) ≡ false =
      ground (arith, valid, size, sum, offset) in
    let read : parse_tcp_options (take (tcp_header_size g - 20) (drop 20 segment)) ≡ some meant =
      ap parse_tcp_options
        (ap₂ take (omega (arith, offset)) (drop-encode_tcp g rest) ∙ take-append options payload)
      ∙ parsed in
    let left : drop (tcp_header_size g) segment ≡ payload =
      ap (λ n. drop n segment) offset
      ∙ drop-add 20 (length options) segment
      ∙ ap (drop (length options)) (drop-encode_tcp g rest)
      ∙ drop-append options payload in
    ap (stage segment) (decode_tcp-encode_tcp g rest k.sequence_word k.acknowledgement_word)
    ∙ ap
        (λ t.
          if t
          then none
          else view segment g (parse_tcp_options (take (tcp_header_size g - 20) (drop 20 segment))))
        accepted
    ∙ ap (view segment g) read
    ∙ ap
        (λ p. some (record { ethernet = ethernet; ip = ip; tcp = g; payload = p; options = meant }))
        left
  where
    view : List ℕ → TcpHeader → Option TcpOptions → Option TcpView
    view segment tcp o = elim o [
      | none ↦ none
      | some options ↦ some (record {
        ethernet = ethernet;
        ip = ip;
        tcp = tcp;
        payload = drop (tcp_header_size tcp) segment;
        options = options;
      })
    ]

    stage : List ℕ → TcpHeader → Option TcpView
    stage segment tcp =
        if refuses_segment ip tcp segment (bytes32 b)
        then none
        else view segment tcp
            (parse_tcp_options (take (tcp_header_size tcp - 20) (drop 20 segment)))

-- A packet with a header of 20 bytes and its checksum, for this address.
refuses_packet-encode_ip :
    (h : Ipv4Header) (a b : ℕ) (segment : List ℕ)
    → let g : Ipv4Header = record h { source = bytes32 a; destination = bytes32 b } in
      h.version_ihl ≡ 0x45
      → h.protocol ≡ 6
      → h.flags_fragment ≡ 0
      → h.total_length ≡ 20 + length segment
      → 20 ≤ length segment
      → internet_checksum (encode_ip g) ≡ 0
      → refuses_packet 0x0800 g (encode_ip g ++ segment) (bytes32 b) ≡ false
unfolding refuses_packet encode_ip
refuses_packet-encode_ip h a b segment v p f t long valid =
    let g : Ipv4Header = record h { source = bytes32 a; destination = bytes32 b } in
    let same = same_octets_refl (bytes32 b) in
    let words : h.version_ihl % 16 * 4 ≡ 20 = omega (arith, v) in
    let checked : internet_checksum (take (h.version_ihl % 16 * 4) (encode_ip g ++ segment)) ≡ 0 =
      ap (λ n. internet_checksum (take n (encode_ip g ++ segment))) words ∙ valid in
    ground (arith, v, p, f, t, long, same, words, checked)

drop-encode_ip :
    (h : Ipv4Header) (a b : ℕ) (segment : List ℕ)
    → drop 20 (encode_ip (record h { source = bytes32 a; destination = bytes32 b }) ++ segment)
      ≡ segment
unfolding encode_ip
drop-encode_ip h a b segment = refl

drop-encode_ethernet :
    (to from : ℕ) (packet : List ℕ)
    → drop 14 (
        encode_ethernet (record { destination = bytes48 to; source = bytes48 from; type = 0x0800 })
        ++ packet)
      ≡ packet
unfolding encode_ethernet
drop-encode_ethernet to from packet = refl

frame-length :
    (to from : ℕ) (h : Ipv4Header) (a b : ℕ) (segment : List ℕ)
    → length (
        encode_ethernet (record { destination = bytes48 to; source = bytes48 from; type = 0x0800 })
        ++ (encode_ip (record h { source = bytes32 a; destination = bytes32 b }) ++ segment))
      ≡ 34 + length segment
unfolding encode_ip encode_ethernet
frame-length to from h a b segment = omega arith

-- A frame with such a packet: what is left is to parse its segment.
pub parse_tcp-packet :
    (to from : ℕ) (h : Ipv4Header) (a b : ℕ) (segment : List ℕ)
    → let g : Ipv4Header = record h { source = bytes32 a; destination = bytes32 b } in
      let e : EthernetHeader = record {
        destination = bytes48 to;
        source = bytes48 from;
        type = 0x0800;
      } in
      h.version_ihl ≡ 0x45
      → h.protocol ≡ 6
      → h.flags_fragment ≡ 0
      → h.total_length ≡ 20 + length segment
      → 20 ≤ length segment
      → internet_checksum (encode_ip g) ≡ 0
      → parse_tcp (encode_ethernet e ++ (encode_ip g ++ segment)) (bytes32 b)
        ≡ parse_segment e g (bytes32 b) segment
unfolding parse_tcp
parse_tcp-packet to from h a b segment v p f t long valid =
    let g : Ipv4Header = record h { source = bytes32 a; destination = bytes32 b } in
    let e : EthernetHeader = record {
      destination = bytes48 to;
      source = bytes48 from;
      type = 0x0800;
    } in
    let packet = encode_ip g ++ segment in
    let words : h.version_ihl % 16 * 4 ≡ 20 = omega (arith, v) in
    let rest : take (h.total_length - h.version_ihl % 16 * 4) (drop (h.version_ihl % 16 * 4) packet)
        ≡ segment =
      ap₂ take (omega (arith, t, words))
        (ap (λ n. drop n packet) words ∙ drop-encode_ip h a b segment)
      ∙ take_all (length segment) segment (omega arith) in
    let whole : ltb (length (encode_ethernet e ++ packet)) 54 ≡ false =
      ground (arith, frame-length to from h a b segment, long) in
    ap
      (λ t.
        if t
        then none
        else stage (decode_ethernet (encode_ethernet e ++ packet))
            (decode_ip (drop 14 (encode_ethernet e ++ packet)))
            (drop 14 (encode_ethernet e ++ packet)))
      whole
    ∙ ap
        (stage (decode_ethernet (encode_ethernet e ++ packet))
          (decode_ip (drop 14 (encode_ethernet e ++ packet))))
        (drop-encode_ethernet to from packet)
    ∙ ap₂ (λ x y. stage x y packet) (decode_ethernet-encode_ethernet to from 0x0800 packet)
        (ap decode_ip (drop-encode_ethernet to from packet) ∙ decode_ip-encode_ip h a b segment)
    ∙ ap
        (λ t.
          if t
          then none
          else parse_segment e g (bytes32 b)
              (take (h.total_length - ip_header_size g) (drop (ip_header_size g) packet)))
        (refuses_packet-encode_ip h a b segment v p f t long valid)
    ∙ ap (parse_segment e g (bytes32 b)) rest
  where
    stage : EthernetHeader → Ipv4Header → List ℕ → Option TcpView
    stage ethernet ip ip_bytes =
        if refuses_packet ethernet.type ip ip_bytes (bytes32 b)
        then none
        else parse_segment ethernet ip (bytes32 b)
            (take (ip.total_length - ip_header_size ip) (drop (ip_header_size ip) ip_bytes))
