-- ===== src/Net/Tcp.antt =====
-- Headers and parse_tcp of include/mikos/net/tcp.hpp: from a frame to a segment for this address, or to
-- none.
use mikos.Prelude.{
  ℕ, ◌+◌, ◌-◌, ◌*◌, ◌/◌, ◌%◌, List, [], ◌∷◌, Option, none, some, Bool, true, false, not, ◌&&◌, ◌||◌,
  if◌then◌else◌, ◌==◌, ltb, length, take, drop,
}
use mikos.Net.{read8, read16, read32, internet_checksum, tcp_checksum}
use mikos.Net.Options.{TcpOptions, parse_tcp_options}

pub record EthernetHeader : Type 0 where
  pub destination : List ℕ
  pub source : List ℕ
  pub type : ℕ

pub record Ipv4Header : Type 0 where
  pub version_ihl : ℕ
  pub dscp_ecn : ℕ
  pub total_length : ℕ
  pub identification : ℕ
  pub flags_fragment : ℕ
  pub ttl : ℕ
  pub protocol : ℕ
  pub checksum : ℕ
  pub source : List ℕ
  pub destination : List ℕ

pub record TcpHeader : Type 0 where
  pub source_port : ℕ
  pub destination_port : ℕ
  pub sequence : ℕ
  pub acknowledgement : ℕ
  pub data_offset : ℕ
  pub flags : ℕ
  pub window : ℕ
  pub checksum : ℕ
  pub urgent : ℕ

pub record TcpView : Type 0 where
  pub ethernet : EthernetHeader
  pub ip : Ipv4Header
  pub tcp : TcpHeader
  pub payload : List ℕ
  pub options : TcpOptions

-- `decode_header`, for each header, from its first byte on.
unfoldable pub decode_ethernet : List ℕ → EthernetHeader
decode_ethernet bytes = record {
  destination = take 6 bytes;
  source = take 6 (drop 6 bytes);
  type = read16 bytes 12;
}

unfoldable pub decode_ip : List ℕ → Ipv4Header
decode_ip bytes = record {
  version_ihl = read8 bytes 0;
  dscp_ecn = read8 bytes 1;
  total_length = read16 bytes 2;
  identification = read16 bytes 4;
  flags_fragment = read16 bytes 6;
  ttl = read8 bytes 8;
  protocol = read8 bytes 9;
  checksum = read16 bytes 10;
  source = take 4 (drop 12 bytes);
  destination = take 4 (drop 16 bytes);
}

unfoldable pub decode_tcp : List ℕ → TcpHeader
decode_tcp bytes = record {
  source_port = read16 bytes 0;
  destination_port = read16 bytes 2;
  sequence = read32 bytes 4;
  acknowledgement = read32 bytes 8;
  data_offset = read8 bytes 12;
  flags = read8 bytes 13;
  window = read16 bytes 14;
  checksum = read16 bytes 16;
  urgent = read16 bytes 18;
}

-- `std::ranges::equal`
unfoldable pub same_octets : List ℕ → List ℕ → Bool
same_octets [] [] = true
same_octets [] (y ∷ ys) = false
same_octets (x ∷ xs) [] = false
same_octets (x ∷ xs) (y ∷ ys) = x == y && same_octets xs ys

abbrev pub ip_header_size : Ipv4Header → ℕ
ip_header_size ip = ip.version_ihl % 16 * 4

-- The lengths that a packet tells, its protocol, its address and its checksum are not right.
unfoldable pub refuses_packet : ℕ → Ipv4Header → List ℕ → List ℕ → Bool
refuses_packet type ip ip_bytes local_ip =
    not (type == 0x0800)
    || (not (ip.version_ihl / 16 == 4)
        || (ltb (ip_header_size ip) 20
            || (ltb (length ip_bytes) (ip_header_size ip)
                || (ltb ip.total_length (ip_header_size ip + 20)
                    || (ltb (length ip_bytes) ip.total_length
                        || (not (ip.protocol == 6)
                            || (not (ip.flags_fragment % 16384 == 0)
                                || (not (same_octets ip.destination local_ip)
                                    || not (
                                        internet_checksum (take (ip_header_size ip) ip_bytes)
                                        == 0)))))))))

abbrev pub tcp_header_size : TcpHeader → ℕ
tcp_header_size tcp = tcp.data_offset / 16 * 4

unfoldable pub refuses_segment : Ipv4Header → TcpHeader → List ℕ → List ℕ → Bool
refuses_segment ip tcp tcp_bytes local_ip =
    ltb (tcp_header_size tcp) 20
    || (ltb (length tcp_bytes) (tcp_header_size tcp)
        || not (tcp_checksum ip.source local_ip tcp_bytes == 0))

-- The part of `parse_tcp` after the lengths of the packet are validated.
unfoldable pub parse_segment : EthernetHeader → Ipv4Header → List ℕ → List ℕ → Option TcpView
parse_segment ethernet ip local_ip tcp_bytes =
    let tcp = decode_tcp tcp_bytes in
    if refuses_segment ip tcp tcp_bytes local_ip
    then none
    else (elim (parse_tcp_options (take (tcp_header_size tcp - 20) (drop 20 tcp_bytes))) [
      | none ↦ none
      | some options ↦ some (record {
        ethernet = ethernet;
        ip = ip;
        tcp = tcp;
        payload = drop (tcp_header_size tcp) tcp_bytes;
        options = options;
      })
    ])

unfoldable pub parse_tcp : List ℕ → List ℕ → Option TcpView
parse_tcp bytes local_ip =
    let ethernet = decode_ethernet bytes in
    let ip_bytes = drop 14 bytes in
    let ip = decode_ip ip_bytes in
    if ltb (length bytes) 54
    then none
    else if refuses_packet ethernet.type ip ip_bytes local_ip
    then none
    else parse_segment ethernet ip local_ip
        (take (ip.total_length - ip_header_size ip) (drop (ip_header_size ip) ip_bytes))
