-- ===== src/Net/Echo.antt =====
-- The reply to an echo request is a valid echo, back to where the request came from.
use mikos.Prelude.{
  ℕ, zero, suc, ◌+◌, ◌<◌, ◌≡◌, refl, sym, subst, List, [], ◌∷◌, ◌++◌, arith, length, length-drop,
  take, drop,
}
use mikos.Slots.{All}
use mikos.Net.{IsByte, bytes16, read8, read16, internet_checksum, checksum_add, checksum_finish}
use mikos.Net.Checksum.{sum16, checksum_add-checksum_finish}
use mikos.Net.Tcp.{Ipv4Header, decode_ip}
use mikos.Net.Segment.{encode_ip}
use mikos.Net.Valid.{checksum_finish-short}
use mikos.Net.Reply.{reply_icmp}

-- Four octets.
four :
    (xs : List ℕ)
    → length xs ≡ 4
    → (a : ℕ) × (b : ℕ) × (c : ℕ) × (d : ℕ) × (xs ≡ a ∷ b ∷ c ∷ d ∷ [])
four [] e = absurd (omega (arith, e))
four (a ∷ []) e = absurd (omega (arith, e))
four (a ∷ b ∷ []) e = absurd (omega (arith, e))
four (a ∷ b ∷ c ∷ []) e = absurd (omega (arith, e))
four (a ∷ b ∷ c ∷ d ∷ []) e = (a, b, c, d, refl)
four (a ∷ b ∷ c ∷ d ∷ x ∷ xs) e = absurd (omega (arith, e))

abbrev pub between : Ipv4Header → List ℕ → List ℕ → Ipv4Header
between h from to = record h { source = from; destination = to }

-- What is read of a header that is written.
pub record Reread (g : Ipv4Header) (rest : List ℕ) : Type 0 where
  pub from : (decode_ip (encode_ip g ++ rest)).source ≡ g.source
  pub to : (decode_ip (encode_ip g ++ rest)).destination ≡ g.destination
  pub size : read16 (encode_ip g ++ rest) 2 ≡ g.total_length
  pub long : length (encode_ip g) ≡ 20

octets-Reread :
    (h : Ipv4Header) (a b c d e f g k : ℕ) (rest : List ℕ)
    → Reread (between h (a ∷ b ∷ c ∷ d ∷ []) (e ∷ f ∷ g ∷ k ∷ [])) rest
unfolding decode_ip encode_ip read16 read8
octets-Reread h a b c d e f g k rest = record {
  from = refl;
  to = refl;
  size = omega arith;
  long = refl;
}

pub lists-Reread :
    (h : Ipv4Header) (from to rest : List ℕ)
    → length from ≡ 4
    → length to ≡ 4
    → Reread (between h from to) rest
lists-Reread h from to rest p q =
    let (a, b, c, d, x) = four from p in
    let (e, f, g, k, y) = four to q in
    subst (λ (s : List ℕ). Reread (between h s to) rest) (sym x)
      (subst (λ (s : List ℕ). Reread (between h (a ∷ b ∷ c ∷ d ∷ []) s) rest) (sym y)
        (octets-Reread h a b c d e f g k rest))

-- The echo.
reply_icmp-sum16 :
    (code c : ℕ) (rest : List ℕ)
    → sum16 (0 ∷ code ∷ (bytes16 c ++ rest)) ≡ sum16 (0 ∷ code ∷ 0 ∷ 0 ∷ rest) + c
unfolding sum16
reply_icmp-sum16 code c rest = omega arith

pub AreBytes-drop : (n : ℕ) (xs : List ℕ) → All IsByte xs → All IsByte (drop n xs)
AreBytes-drop zero xs all = all
AreBytes-drop (suc n) [] all = tt
AreBytes-drop (suc n) (x ∷ xs) all = AreBytes-drop n xs all.1

pub AreBytes-take : (n : ℕ) (xs : List ℕ) → All IsByte xs → All IsByte (take n xs)
AreBytes-take zero xs all = tt
AreBytes-take (suc n) [] all = tt
AreBytes-take (suc n) (x ∷ xs) all = (all.0, AreBytes-take n xs all.1)

pub AreBytes-read8 : (xs : List ℕ) (i : ℕ) → All IsByte xs → read8 xs i < 256
unfolding read8
AreBytes-read8 [] i all = omega arith
AreBytes-read8 (x ∷ xs) zero all = all.0
AreBytes-read8 (x ∷ xs) (suc i) all = AreBytes-read8 xs i all.1

pub AreBytes-read16 : (xs : List ℕ) (i : ℕ) → All IsByte xs → read16 xs i < 65536
unfolding read16
AreBytes-read16 xs i all =
    let high = AreBytes-read8 xs i all in
    let low = AreBytes-read8 xs (i + 1) all in omega (arith, high, low)

pub reply_icmp-valid :
    (icmp : List ℕ)
    → All IsByte icmp
    → length icmp < 65530
    → internet_checksum (reply_icmp icmp) ≡ 0
unfolding internet_checksum reply_icmp
reply_icmp-valid icmp all short =
    let code = read8 icmp 1 in
    let rest = drop 4 icmp in
    let blank = 0 ∷ code ∷ 0 ∷ 0 ∷ rest in
    let c = checksum_finish (checksum_add 0 blank) in
    let size = length-drop 4 icmp in
    let small = checksum_finish-short (checksum_add 0 blank) in
    let tail = AreBytes-drop 4 icmp all in
    let head = AreBytes-read8 icmp 1 all in
    checksum_add-checksum_finish 0 (0 ∷ code ∷ (bytes16 c ++ rest)) blank
      (omega arith, (head, (omega (arith, small), (omega arith, tail))))
      (omega arith, (head, (omega arith, (omega arith, tail)))) (omega (arith, size, short))
      (omega (arith, size, short)) (reply_icmp-sum16 code c rest)
