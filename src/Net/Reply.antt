-- ===== src/Net/Reply.antt =====
-- make_arp_reply and make_icmp_echo_reply of include/mikos/net/ethernet.hpp: the size of the reply, 0
-- for none, and the bytes, where the reply is written over the request.
use mikos.Prelude.{
  ℕ, ◌+◌, ◌-◌, List, ◌∷◌, ◌++◌, Bool, not, ◌&&◌, if◌then◌else◌, ◌==◌, ltb, leb, length, take, drop,
}
use mikos.Net.{bytes16, read8, read16, internet_checksum}
use mikos.Net.Tcp.{Ipv4Header, decode_ip, same_octets}
use mikos.Net.Segment.{encode_ip, with_ip_checksum}

-- A request for the address of `local_ip`.
unfoldable pub asks_for : List ℕ → List ℕ → Bool
asks_for bytes local_ip =
    read16 bytes 12 == 0x0806
    && (read16 bytes 14 == 1
        && (read16 bytes 16 == 0x0800
            && (read8 bytes 18 == 6
                && (read8 bytes 19 == 4
                    && (read16 bytes 20 == 1 && same_octets (take 4 (drop 38 bytes)) local_ip)))))

unfoldable pub make_arp_reply : List ℕ → List ℕ → List ℕ → ℕ × List ℕ
make_arp_reply bytes local_mac local_ip =
    let requester_mac = take 6 (drop 22 bytes) in
    let requester_ip = take 4 (drop 28 bytes) in
    if ltb (length bytes) 42
    then (0, bytes)
    else if not (asks_for bytes local_ip)
    then (0, bytes)
    else (
      42,
      requester_mac
          ++ (local_mac
              ++ (take 8 (drop 12 bytes)
                  ++ (bytes16 2
                      ++ (local_mac
                          ++ (local_ip ++ (requester_mac ++ (requester_ip ++ drop 42 bytes))))))),
    )

-- The bytes of the packet's payload, from the echo header on.
abbrev pub icmp_bytes : List ℕ → List ℕ
icmp_bytes bytes = take (read16 bytes 16 - 20) (drop 34 bytes)

unfoldable pub is_echo_request : List ℕ → List ℕ → Bool
is_echo_request bytes local_ip =
    let ip = decode_ip (drop 14 bytes) in
    read16 bytes 12 == 0x0800
    && (ip.version_ihl == 0x45
        && (ip.protocol == 1
            && (internet_checksum (take 20 (drop 14 bytes)) == 0
                && (same_octets ip.destination local_ip
                    && (leb 28 ip.total_length
                        && (leb ip.total_length (length bytes - 14)
                            && (read8 bytes 34 == 8
                                && (read8 bytes 35 == 0
                                    && internet_checksum (icmp_bytes bytes) == 0))))))))

-- The packet's header, turned round.
unfoldable pub reply_ip : List ℕ → List ℕ → Ipv4Header
reply_ip bytes local_ip =
    let ip = decode_ip (drop 14 bytes) in
    with_ip_checksum
      (record ip { ttl = 64; checksum = 0; source = local_ip; destination = ip.source })

-- The echo, with its checksum; the type and the checksum are those of the reply, all else is the
-- request's.
unfoldable pub reply_icmp : List ℕ → List ℕ
reply_icmp icmp =
    0
    ∷ read8 icmp 1
    ∷ (bytes16 (internet_checksum (0 ∷ read8 icmp 1 ∷ 0 ∷ 0 ∷ drop 4 icmp)) ++ drop 4 icmp)

unfoldable pub make_icmp_echo_reply : List ℕ → List ℕ → List ℕ → ℕ × List ℕ
make_icmp_echo_reply bytes local_mac local_ip =
    if ltb (length bytes) 42
    then (0, bytes)
    else if not (is_echo_request bytes local_ip)
    then (0, bytes)
    else (
      14 + read16 bytes 16,
      take 6 (drop 6 bytes)
          ++ (local_mac
              ++ (take 2 (drop 12 bytes)
                  ++ (encode_ip (reply_ip bytes local_ip)
                      ++ (reply_icmp (icmp_bytes bytes) ++ drop (14 + read16 bytes 16) bytes)))),
    )
