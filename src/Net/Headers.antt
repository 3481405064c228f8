-- ===== src/Net/Headers.antt =====
-- Headers that are written are read back.
use mikos.Prelude.{ℕ, ◌+◌, ◌*◌, ◌/◌, ◌%◌, ◌^◌, ◌<◌, ◌≡◌, List, [], ◌∷◌, ◌++◌, arith, drop}
use mikos.Slots.{All}
use mikos.Net.{IsByte, bytes16, bytes32, bytes48, read8, read16, read32}
use mikos.Net.Tcp.{EthernetHeader, Ipv4Header, TcpHeader, decode_ethernet, decode_ip, decode_tcp}
use mikos.Net.Segment.{encode_ethernet, encode_ip, encode_tcp}

read16-bytes16 : (n : ℕ) → n / 256 * 256 + n % 256 ≡ n
read16-bytes16 n = omega arith

read32-bytes32 :
    (n : ℕ)
    → n < 2 ^ 32
    → (n / 256 ^ 3 * 256 + n / 256 ^ 2 % 256) * 65536 + (n / 256 % 256 * 256 + n % 256) ≡ n
read32-bytes32 n short = omega arith

pub decode_tcp-encode_tcp :
    (h : TcpHeader) (rest : List ℕ)
    → h.sequence < 2 ^ 32
    → h.acknowledgement < 2 ^ 32
    → decode_tcp (encode_tcp h ++ rest) ≡ h
unfolding decode_tcp encode_tcp read32 read16 read8
decode_tcp-encode_tcp h rest short short' i = record {
  source_port = read16-bytes16 h.source_port i;
  destination_port = read16-bytes16 h.destination_port i;
  sequence = read32-bytes32 h.sequence short i;
  acknowledgement = read32-bytes32 h.acknowledgement short' i;
  data_offset = h.data_offset;
  flags = h.flags;
  window = read16-bytes16 h.window i;
  checksum = read16-bytes16 h.checksum i;
  urgent = read16-bytes16 h.urgent i;
}

pub decode_ip-encode_ip :
    (h : Ipv4Header) (a b : ℕ) (rest : List ℕ)
    → let g : Ipv4Header = record h { source = bytes32 a; destination = bytes32 b } in
      decode_ip (encode_ip g ++ rest) ≡ g
unfolding decode_ip encode_ip read16 read8
decode_ip-encode_ip h a b rest i = record {
  version_ihl = h.version_ihl;
  dscp_ecn = h.dscp_ecn;
  total_length = read16-bytes16 h.total_length i;
  identification = read16-bytes16 h.identification i;
  flags_fragment = read16-bytes16 h.flags_fragment i;
  ttl = h.ttl;
  protocol = h.protocol;
  checksum = read16-bytes16 h.checksum i;
  source = bytes32 a;
  destination = bytes32 b;
}

pub decode_ethernet-encode_ethernet :
    (to from type : ℕ) (rest : List ℕ)
    → let h : EthernetHeader = record {
      destination = bytes48 to;
      source = bytes48 from;
      type = type;
    } in
      decode_ethernet (encode_ethernet h ++ rest) ≡ h
unfolding decode_ethernet encode_ethernet read16 read8
decode_ethernet-encode_ethernet to from type rest i = record {
  destination = bytes48 to;
  source = bytes48 from;
  type = read16-bytes16 type i;
}

-- Written headers are bytes.
pub All-append : (xs ys : List ℕ) → All IsByte xs → All IsByte ys → All IsByte (xs ++ ys)
All-append [] ys a b = b
All-append (x ∷ xs) ys a b = (a.0, All-append xs ys a.1 b)

pub bytes16-AreBytes : (n : ℕ) → n < 65536 → All IsByte (bytes16 n)
bytes16-AreBytes n short = (omega (arith, short), (omega arith, tt))

pub bytes32-AreBytes : (n : ℕ) → n < 2 ^ 32 → All IsByte (bytes32 n)
bytes32-AreBytes n short = (omega (arith, short), (omega arith, (omega arith, (omega arith, tt))))

pub record IsIp (h : Ipv4Header) : Type 0 where
  pub version_byte : h.version_ihl < 256
  pub dscp_byte : h.dscp_ecn < 256
  pub total_short : h.total_length < 65536
  pub identification_short : h.identification < 65536
  pub fragment_short : h.flags_fragment < 65536
  pub ttl_byte : h.ttl < 256
  pub protocol_byte : h.protocol < 256
  pub checksum_short : h.checksum < 65536
  pub source_bytes : All IsByte h.source
  pub destination_bytes : All IsByte h.destination

pub encode_ip-AreBytes : (h : Ipv4Header) → IsIp h → All IsByte (encode_ip h)
unfolding encode_ip
encode_ip-AreBytes h k =
    let a = bytes16-AreBytes h.identification k.identification_short in
    let b = bytes16-AreBytes h.flags_fragment k.fragment_short in
    let c = bytes16-AreBytes h.checksum k.checksum_short in
    let ends = All-append h.source h.destination k.source_bytes k.destination_bytes in
    let t = bytes16-AreBytes h.total_length k.total_short in
    (
      k.version_byte,
      (
        k.dscp_byte,
        (
          t.0,
          (
            t.1.0,
            (a.0, (a.1.0, (b.0, (b.1.0, (k.ttl_byte, (k.protocol_byte, (c.0, (c.1.0, ends)))))))),
          ),
        ),
      ),
    )

pub record IsTcp (h : TcpHeader) : Type 0 where
  pub source_short : h.source_port < 65536
  pub destination_short : h.destination_port < 65536
  pub sequence_word : h.sequence < 2 ^ 32
  pub acknowledgement_word : h.acknowledgement < 2 ^ 32
  pub offset_byte : h.data_offset < 256
  pub flags_byte : h.flags < 256
  pub window_short : h.window < 65536
  pub checksum_short : h.checksum < 65536
  pub urgent_short : h.urgent < 65536

pub encode_tcp-AreBytes : (h : TcpHeader) → IsTcp h → All IsByte (encode_tcp h)
unfolding encode_tcp
encode_tcp-AreBytes h k =
    let s = bytes32-AreBytes h.sequence k.sequence_word in
    let a = bytes32-AreBytes h.acknowledgement k.acknowledgement_word in
    let tail =
      All-append (bytes16 h.window) (bytes16 h.checksum ++ bytes16 h.urgent)
        (bytes16-AreBytes h.window k.window_short)
        (All-append (bytes16 h.checksum) (bytes16 h.urgent)
          (bytes16-AreBytes h.checksum k.checksum_short)
          (bytes16-AreBytes h.urgent k.urgent_short)) in
    All-append (bytes16 h.source_port) (drop 2 (encode_tcp h))
      (bytes16-AreBytes h.source_port k.source_short)
      (All-append (bytes16 h.destination_port) (drop 4 (encode_tcp h))
        (bytes16-AreBytes h.destination_port k.destination_short)
        (All-append (bytes32 h.sequence) (drop 8 (encode_tcp h)) s (
          All-append (bytes32 h.acknowledgement) (drop 12 (encode_tcp h)) a
            (k.offset_byte, (k.flags_byte, tail)))))
