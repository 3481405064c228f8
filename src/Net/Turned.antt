-- ===== src/Net/Turned.antt =====
-- The parts of what make_icmp_echo_reply writes: the addresses, the header and the echo.
use mikos.Prelude.{
  ℕ, zero, suc, ◌+◌, ◌-◌, ◌*◌, ◌≤◌, ◌≡◌, ◌≢◌, refl, ap, ap₂, sym, ◌∙◌, List, [], ◌∷◌, ◌++◌,
  append_assoc, true, false, not, if◌then◌else◌, ltb, arith, length, length-append, length-take,
  length-drop, take, take-append, drop, if_intro,
}
use mikos.Slots.{All}
use mikos.Net.{IsByte, read8, read16, internet_checksum}
use mikos.Net.Tcp.{Ipv4Header, decode_ip}
use mikos.Net.Segment.{encode_ip, with_ip_checksum}
use mikos.Net.Headers.{IsIp}
use mikos.Net.Valid.{with_ip_checksum-valid}
use mikos.Net.Reply.{icmp_bytes, is_echo_request, reply_ip, reply_icmp, make_icmp_echo_reply}
use mikos.Net.Echo.{
  Reread, lists-Reread, AreBytes-drop, AreBytes-take, AreBytes-read8, AreBytes-read16,
}

read8-drop : (n i : ℕ) (xs : List ℕ) → read8 (drop n xs) i ≡ read8 xs (n + i)
unfolding read8
read8-drop zero i xs = ap (read8 xs) (omega arith)
read8-drop (suc n) i [] = refl
read8-drop (suc n) i (x ∷ xs) =
    let e : suc (n + i) ≡ suc n + i = omega arith in read8-drop n i xs ∙ ap (read8 (x ∷ xs)) e

pub read16-drop : (n i : ℕ) (xs : List ℕ) → read16 (drop n xs) i ≡ read16 xs (n + i)
unfolding read16
read16-drop n i xs =
    ap₂ (λ a b. a * 256 + b) (read8-drop n i xs)
      (read8-drop n (i + 1) xs ∙ ap (read8 xs) (omega arith))

-- The lengths that a request must tell.
pub sizes :
    (bytes local_ip : List ℕ)
    → is_echo_request bytes local_ip ≡ true
    → (28 ≤ read16 bytes 16) × (read16 bytes 16 ≤ length bytes - 14)
unfolding is_echo_request decode_ip
sizes bytes local_ip e = let moved = read16-drop 14 2 bytes in ground (arith, e, moved)

-- The parts of a reply.
pub record Parts (bytes local_mac local_ip r : List ℕ) : Type 0 where
  pub after : List ℕ
  pub front : List ℕ
  pub front_length : length front ≡ 14
  pub written :
      r ≡ front ++ (encode_ip (reply_ip bytes local_ip) ++ (reply_icmp (icmp_bytes bytes) ++ after))
  pub addressed : (more : List ℕ) → take 12 (front ++ more) ≡ take 6 (drop 6 bytes) ++ local_mac

pub made :
    (bytes local_mac local_ip : List ℕ)
    → length local_mac ≡ 6
    → (make_icmp_echo_reply bytes local_mac local_ip).0 ≢ 0
    → (42 ≤ length bytes)
      × (is_echo_request bytes local_ip ≡ true)
      × Parts bytes local_mac local_ip (make_icmp_echo_reply bytes local_mac local_ip).1
unfolding make_icmp_echo_reply
made bytes local_mac local_ip mac replied =
    if_intro P (ltb (length bytes) 42) (0, bytes)
      (if not (is_echo_request bytes local_ip) then (0, bytes) else reply)
      (λ short made. absurd (made refl))
      (λ long.
        if_intro P (not (is_echo_request bytes local_ip)) (0, bytes) reply
          (λ other made. absurd (made refl))
          (λ asked made. (
            ground (arith, long),
            ground (arith, asked),
            record {
              after = drop (14 + read16 bytes 16) bytes;
              front = requester ++ (local_mac ++ kind);
              front_length = omega (
                arith,
                length-append requester (local_mac ++ kind),
                length-append local_mac (kind),
                mac,
                length-take 6 (drop 6 bytes),
                length-take 2 (drop 12 bytes),
                length-drop 6 bytes,
                length-drop 12 bytes,
                enough long,
              );
              written = sym (
                  append_assoc requester (local_mac ++ kind) rest
                  ∙ ap (λ xs. requester ++ xs) (append_assoc local_mac kind rest));
              addressed = λ more.
                  ap (λ f. take 12 (f ++ more)) (sym (append_assoc requester local_mac kind))
                  ∙ ap (take 12) (append_assoc (requester ++ local_mac) kind more)
                  ∙ ap (λ n. take n ((requester ++ local_mac) ++ (kind ++ more)))
                      (twelve (enough long))
                  ∙ take-append (requester ++ local_mac) (kind ++ more);
            },
          )))
      replied
  where
    requester : List ℕ
    requester = take 6 (drop 6 bytes)

    kind : List ℕ
    kind = take 2 (drop 12 bytes)

    rest : List ℕ
    rest =
        encode_ip (reply_ip bytes local_ip)
        ++ (reply_icmp (icmp_bytes bytes) ++ drop (14 + read16 bytes 16) bytes)

    twelve : 42 ≤ length bytes → 12 ≡ length (requester ++ local_mac)
    twelve sizable = omega (
      arith,
      length-append requester local_mac,
      mac,
      length-take 6 (drop 6 bytes),
      length-drop 6 bytes,
      sizable,
    )

    reply : ℕ × List ℕ
    reply = (
      14 + read16 bytes 16,
      take 6 (drop 6 bytes)
          ++ (local_mac
              ++ (take 2 (drop 12 bytes)
                  ++ (encode_ip (reply_ip bytes local_ip)
                      ++ (reply_icmp (icmp_bytes bytes) ++ drop (14 + read16 bytes 16) bytes)))),
    )

    P : ℕ × List ℕ → Type 0
    P r =
        r.0 ≢ 0
        → (42 ≤ length bytes)
          × (is_echo_request bytes local_ip ≡ true)
          × Parts bytes local_mac local_ip r.1

    enough : ltb (length bytes) 42 ≡ false → 42 ≤ length bytes
    enough e = ground (arith, e)

pub length-reply_icmp : (icmp : List ℕ) → 4 ≤ length icmp → length (reply_icmp icmp) ≡ length icmp
unfolding reply_icmp
length-reply_icmp icmp long = omega (arith, length-drop 4 icmp, long)

pub drop-reply_icmp : (icmp : List ℕ) → drop 4 (reply_icmp icmp) ≡ drop 4 icmp
unfolding reply_icmp
drop-reply_icmp icmp = refl

-- The header of the reply.
unfoldable pub request_ip : List ℕ → Ipv4Header
request_ip bytes = decode_ip (drop 14 bytes)

pub record HeaderOk (bytes local_ip rest : List ℕ) : Type 0 where
  pub checked : internet_checksum (encode_ip (reply_ip bytes local_ip)) ≡ 0
  pub reread : Reread (reply_ip bytes local_ip) rest
  pub from_here : (reply_ip bytes local_ip).source ≡ local_ip
  pub to_there : (reply_ip bytes local_ip).destination ≡ (request_ip bytes).source
  pub same_size : (reply_ip bytes local_ip).total_length ≡ read16 bytes 16

pub header_lem :
    (bytes local_ip rest : List ℕ)
    → All IsByte bytes
    → All IsByte local_ip
    → length local_ip ≡ 4
    → 42 ≤ length bytes
    → HeaderOk bytes local_ip rest
unfolding reply_ip with_ip_checksum request_ip decode_ip
header_lem bytes local_ip rest all local four long =
    let ip = drop 14 bytes in
    let ips = AreBytes-drop 14 bytes all in
    let source = take 4 (drop 12 ip) in
    let source_length : length source ≡ 4 =
      omega (arith, length-take 4 (drop 12 ip), length-drop 12 ip, length-drop 14 bytes, long) in
    let h : Ipv4Header = record (request_ip bytes) {
      ttl = 64;
      checksum = 0;
      source = local_ip;
      destination = source;
    } in
    let k : IsIp h = record {
      version_byte = AreBytes-read8 ip 0 ips;
      dscp_byte = AreBytes-read8 ip 1 ips;
      total_short = AreBytes-read16 ip 2 ips;
      identification_short = AreBytes-read16 ip 4 ips;
      fragment_short = AreBytes-read16 ip 6 ips;
      ttl_byte = omega arith;
      protocol_byte = AreBytes-read8 ip 9 ips;
      checksum_short = omega arith;
      source_bytes = local;
      destination_bytes = AreBytes-take 4 (drop 12 ip) (AreBytes-drop 12 ip ips);
    } in
    record {
      checked =
          with_ip_checksum-valid h k refl
            (omega (arith, length-append local_ip source, four, source_length));
      reread = lists-Reread (with_ip_checksum h) local_ip source rest four source_length;
      from_here = refl;
      to_there = refl;
      same_size = read16-drop 14 2 bytes;
    }
