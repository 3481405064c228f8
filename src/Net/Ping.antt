-- ===== src/Net/Ping.antt =====
-- make_icmp_echo_reply turns a request round.
use mikos.Prelude.{
  ℕ, ◌-◌, ◌≡◌, ◌≢◌, ap, ap₂, sym, ◌∙◌, List, ◌++◌, arith, length, length-take, length-drop, take,
  take-append, drop, drop-append,
}
use mikos.Slots.{All}
use mikos.Socket.Slices.{drop-add}
use mikos.Net.{IsByte, read16, internet_checksum}
use mikos.Net.Tcp.{decode_ip}
use mikos.Net.Segment.{encode_ip}
use mikos.Net.Reply.{icmp_bytes, reply_ip, reply_icmp, make_icmp_echo_reply}
use mikos.Net.Echo.{AreBytes-drop, AreBytes-take, AreBytes-read16, reply_icmp-valid}
use mikos.Net.Turned.{
  read16-drop, sizes, made, length-reply_icmp, drop-reply_icmp, header_lem, request_ip,
}

echo_of :
    (r front head echo after : List ℕ)
    → length front ≡ 14
    → length head ≡ 20
    → r ≡ front ++ (head ++ (echo ++ after))
    → (drop 14 r ≡ head ++ (echo ++ after)) × (drop 34 r ≡ echo ++ after)
echo_of r front head echo after f g e =
    let inner : drop 14 r ≡ head ++ (echo ++ after) =
      ap (drop 14) e
      ∙ ap (λ n. drop n (front ++ (head ++ (echo ++ after)))) (sym f)
      ∙ drop-append front (head ++ (echo ++ after)) in
    (
      inner,
      drop-add 14 20 r
          ∙ ap (drop 20) inner
          ∙ ap (λ n. drop n (head ++ (echo ++ after))) (sym g)
          ∙ drop-append head (echo ++ after),
    )

-- Where make_icmp_echo_reply answers a frame of bytes, for octets of this host, its answer goes from
-- this host's addresses to those that the request came from; the checksums of its packet and of its
-- echo are valid, and after the type, the code and the checksum the echo is that of the request.
pub make_icmp_echo_reply_lem :
    (bytes local_mac local_ip : List ℕ)
    → All IsByte bytes
    → All IsByte local_ip
    → length local_mac ≡ 6
    → length local_ip ≡ 4
    → (make_icmp_echo_reply bytes local_mac local_ip).0 ≢ 0
    → let r = (make_icmp_echo_reply bytes local_mac local_ip).1 in
      (take 12 r ≡ take 6 (drop 6 bytes) ++ local_mac)
      × ((decode_ip (drop 14 r)).source ≡ local_ip)
      × ((decode_ip (drop 14 r)).destination ≡ (decode_ip (drop 14 bytes)).source)
      × (internet_checksum (take 20 (drop 14 r)) ≡ 0)
      × (internet_checksum (icmp_bytes r) ≡ 0)
      × (drop 4 (icmp_bytes r) ≡ drop 4 (icmp_bytes bytes))
unfolding request_ip
make_icmp_echo_reply_lem bytes local_mac local_ip all local mac four replied =
    let r = (make_icmp_echo_reply bytes local_mac local_ip).1 in
    let (long, asked, parts) = made bytes local_mac local_ip mac replied in
    let (least, most) = sizes bytes local_ip asked in
    let head = encode_ip (reply_ip bytes local_ip) in
    let icmp = icmp_bytes bytes in
    let echo = reply_icmp icmp in
    let after = parts.after in
    let h = header_lem bytes local_ip (echo ++ after) all local four long in
    let (inner, end) =
      echo_of r parts.front head echo after parts.front_length h.reread.long parts.written in
    let word = AreBytes-read16 bytes 16 all in
    let icmp_length : length icmp ≡ read16 bytes 16 - 20 = omega (
      arith,
      length-take (read16 bytes 16 - 20) (drop 34 bytes),
      length-drop 34 bytes,
      least,
      most,
      long,
    ) in
    let told : read16 r 16 ≡ read16 bytes 16 =
      sym (read16-drop 14 2 r) ∙ ap (λ xs. read16 xs 2) inner ∙ h.reread.size ∙ h.same_size in
    let same : icmp_bytes r ≡ echo =
      ap₂ take
        (omega
          (arith, told, icmp_length, length-reply_icmp icmp (omega (arith, icmp_length, least))))
        end
      ∙ take-append echo after in
    (
      ap (take 12) parts.written ∙ parts.addressed (head ++ (echo ++ after)),
      ap (λ xs. (decode_ip xs).source) inner ∙ h.reread.from ∙ h.from_here,
      ap (λ xs. (decode_ip xs).destination) inner ∙ h.reread.to ∙ h.to_there,
      ap (λ xs. internet_checksum (take 20 xs)) inner
          ∙ ap (λ n. internet_checksum (take n (head ++ (echo ++ after)))) (sym h.reread.long)
          ∙ ap internet_checksum (take-append head (echo ++ after))
          ∙ h.checked,
      ap internet_checksum same
          ∙ reply_icmp-valid icmp
              (AreBytes-take (read16 bytes 16 - 20) (drop 34 bytes) (AreBytes-drop 34 bytes all))
              (omega (arith, icmp_length, word)),
      ap (drop 4) same ∙ drop-reply_icmp icmp,
    )
