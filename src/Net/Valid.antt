-- ===== src/Net/Valid.antt =====
-- The headers that send_segment writes have valid checksums.
use mikos.Prelude.{
  ℕ, ◌+◌, ◌*◌, ◌/◌, ◌%◌, ◌<◌, ◌≡◌, ap, sym, ◌∙◌, List, [], ◌∷◌, ◌++◌, arith, length,
}
use mikos.Slots.{All}
use mikos.Net.{IsByte, internet_checksum, tcp_checksum, checksum_add, checksum_finish}
use mikos.Net.Checksum.{sum16, sum16-bound, checksum_add_lem, checksum_add-checksum_finish}
use mikos.Net.Tcp.{Ipv4Header, TcpHeader}
use mikos.Net.Segment.{encode_ip, encode_tcp, with_ip_checksum, checked_segment}
use mikos.Net.Headers.{IsIp, IsTcp, All-append, encode_ip-AreBytes, encode_tcp-AreBytes}

pub checksum_finish-short : (sum : ℕ) → checksum_finish sum < 65536
unfolding checksum_finish
checksum_finish-short sum = omega arith

encode_ip-sum16 :
    (h : Ipv4Header) (c : ℕ)
    → h.checksum ≡ 0
    → sum16 (encode_ip (record h { checksum = c })) ≡ sum16 (encode_ip h) + c
unfolding encode_ip sum16
encode_ip-sum16 h c e = omega (arith, e)

encode_ip-length : (h : Ipv4Header) → length (encode_ip h) ≡ 12 + length (h.source ++ h.destination)
unfolding encode_ip
encode_ip-length h = omega arith

pub with_ip_checksum-IsIp : (h : Ipv4Header) → IsIp h → IsIp (with_ip_checksum h)
unfolding with_ip_checksum internet_checksum
with_ip_checksum-IsIp h k = record {
  version_byte = k.version_byte;
  dscp_byte = k.dscp_byte;
  total_short = k.total_short;
  identification_short = k.identification_short;
  fragment_short = k.fragment_short;
  ttl_byte = k.ttl_byte;
  protocol_byte = k.protocol_byte;
  source_bytes = k.source_bytes;
  destination_bytes = k.destination_bytes;
  checksum_short = checksum_finish-short (checksum_add 0 (encode_ip h));
}

pub with_ip_checksum-valid :
    (h : Ipv4Header)
    → IsIp h
    → h.checksum ≡ 0
    → length (h.source ++ h.destination) ≡ 8
    → internet_checksum (encode_ip (with_ip_checksum h)) ≡ 0
unfolding internet_checksum with_ip_checksum
with_ip_checksum-valid h k zero_yet size =
    let g = with_ip_checksum h in
    let n = encode_ip-length h in
    let m = encode_ip-length g in
    checksum_add-checksum_finish 0 (encode_ip g) (encode_ip h)
      (encode_ip-AreBytes g (with_ip_checksum-IsIp h k)) (encode_ip-AreBytes h k)
      (omega (arith, m, size)) (omega (arith, n, size))
      (encode_ip-sum16 h (internet_checksum (encode_ip h)) zero_yet)

encode_tcp-sum16 :
    (h : TcpHeader) (rest : List ℕ) (c : ℕ)
    → h.checksum ≡ 0
    → sum16 (encode_tcp (record h { checksum = c }) ++ rest) ≡ sum16 (encode_tcp h ++ rest) + c
unfolding encode_tcp sum16
encode_tcp-sum16 h rest c e = omega (arith, e)

pub encode_tcp-length :
    (h : TcpHeader) (rest : List ℕ) → length (encode_tcp h ++ rest) ≡ 20 + length rest
unfolding encode_tcp
encode_tcp-length h rest = omega arith

-- The sum of the pseudo header.
pseudo_sum : List ℕ → List ℕ → ℕ → ℕ
pseudo_sum source destination size =
    checksum_add (checksum_add (checksum_add 0 source) destination)
      (0 ∷ 6 ∷ size / 256 % 256 ∷ size % 256 ∷ [])

pseudo_sum-short :
    (source destination : List ℕ) (size : ℕ)
    → All IsByte source
    → All IsByte destination
    → length source ≡ 4
    → length destination ≡ 4
    → pseudo_sum source destination size < 65536 * 12 + 1
unfolding pseudo_sum
pseudo_sum-short source destination size a b e f =
    let pseudo = 0 ∷ 6 ∷ size / 256 % 256 ∷ size % 256 ∷ [] in
    let c : All IsByte pseudo = (omega arith, (omega arith, (omega arith, (omega arith, tt)))) in
    let first = checksum_add_lem 0 source a (omega (arith, e)) in
    let second =
      checksum_add_lem (checksum_add 0 source) destination b
        (omega (arith, first, sum16-bound source a, e, f)) in
    let third =
      checksum_add_lem (checksum_add (checksum_add 0 source) destination) pseudo c
        (omega (arith, first, second, sum16-bound source a, sum16-bound destination b, e, f)) in
    omega (
      arith,
      first,
      second,
      third,
      sum16-bound source a,
      sum16-bound destination b,
      sum16-bound pseudo c,
      e,
      f,
    )

pub with_checksum :
    (h : TcpHeader) → IsTcp h → (c : ℕ) → c < 65536 → IsTcp (record h { checksum = c })
with_checksum h k c in_range = record {
  source_short = k.source_short;
  destination_short = k.destination_short;
  sequence_word = k.sequence_word;
  acknowledgement_word = k.acknowledgement_word;
  offset_byte = k.offset_byte;
  flags_byte = k.flags_byte;
  window_short = k.window_short;
  urgent_short = k.urgent_short;
  checksum_short = in_range;
}

pub checked_segment-valid :
    (source destination : List ℕ) (h : TcpHeader) (rest : List ℕ)
    → IsTcp h
    → h.checksum ≡ 0
    → All IsByte source
    → All IsByte destination
    → length source ≡ 4
    → length destination ≡ 4
    → All IsByte rest
    → length rest < 60000
    → tcp_checksum source destination (checked_segment source destination h rest) ≡ 0
unfolding tcp_checksum checked_segment pseudo_sum
checked_segment-valid source destination h rest k zero_yet a b e f bytes short =
    let c = tcp_checksum source destination (encode_tcp h ++ rest) in
    let g : TcpHeader = record h { checksum = c } in
    let blank = encode_tcp h ++ rest in
    let whole = encode_tcp g ++ rest in
    let n = encode_tcp-length h rest in
    let m = encode_tcp-length g rest in
    let seed = pseudo_sum source destination (length blank) in
    let small = pseudo_sum-short source destination (length blank) a b e f in
    let in_range : c < 65536 = checksum_finish-short (checksum_add seed blank) in
    let g_is = with_checksum h k c in_range in
    ap (λ l. checksum_finish (checksum_add (pseudo_sum source destination l) whole)) (m ∙ sym n)
    ∙ checksum_add-checksum_finish seed whole blank
        (All-append (encode_tcp g) rest (encode_tcp-AreBytes g g_is) bytes)
        (All-append (encode_tcp h) rest (encode_tcp-AreBytes h k) bytes)
        (omega (arith, m, small, short)) (omega (arith, n, small, short))
        (encode_tcp-sum16 h rest c zero_yet)
