-- ===== src/Net.antt =====
-- include/mikos/net/ethernet.hpp and include/mikos/net/tcp.hpp: bytes on the wire. A frame is the list
-- of its bytes. A field of more bytes is kept as the number that `net16` or `net32` gives of it, so
-- that its bytes are those of that number from the highest on; an address is the list of its octets.
pub mod Checksum
pub mod Options
pub mod Meaning
pub mod Ending
pub mod Tcp
pub mod Segment
pub mod Headers
pub mod Valid
pub mod Accepted
pub mod Received
pub mod Reply
pub mod Echo
pub mod Turned
pub mod Ping
pub mod Interface
pub mod Requests
mod Tests
use mikos.Prelude.{
  ℕ, zero, suc, ◌+◌, ◌-◌, ◌*◌, ◌/◌, ◌%◌, ◌^◌, ◌<◌, List, [], ◌∷◌, ◌++◌, Option, none, some, Bool,
  true, false, not, ◌&&◌, ◌||◌, if◌then◌else◌, ◌==◌, ltb, leb, get_or, length, take, drop, min, u16,
  u32,
}

abbrev pub IsByte : ℕ → Type 0
IsByte b = b < 256

-- The bytes of a number of 16 and of 32 bits.
abbrev pub bytes16 : ℕ → List ℕ
bytes16 n = n / 256 ∷ n % 256 ∷ []

abbrev pub bytes32 : ℕ → List ℕ
bytes32 n = n / 256 ^ 3 ∷ n / 256 ^ 2 % 256 ∷ n / 256 % 256 ∷ n % 256 ∷ []

abbrev pub bytes48 : ℕ → List ℕ
bytes48 n = n / 256 ^ 5 ∷ n / 256 ^ 4 % 256 ∷ bytes32 (n % 256 ^ 4)

-- The number at place `i` of some bytes, of 8, 16 and 32 bits.
unfoldable pub read8 : List ℕ → ℕ → ℕ
read8 bytes i = get_or bytes i 0

unfoldable pub read16 : List ℕ → ℕ → ℕ
unfolding read8
read16 bytes i = read8 bytes i * 256 + read8 bytes (i + 1)

unfoldable pub read32 : List ℕ → ℕ → ℕ
unfolding read16
read32 bytes i = read16 bytes i * 65536 + read16 bytes (i + 2)

-- The loop over pairs of bytes, and the byte that may be left.
unfoldable pub checksum_add : ℕ → List ℕ → ℕ
checksum_add sum [] = sum
checksum_add sum (a ∷ []) = u32 (sum + a * 256)
checksum_add sum (a ∷ b ∷ bytes) = checksum_add (u32 (sum + (a * 256 + b))) bytes

-- The loop that adds the carries, with fuel.
unfoldable pub fold_carries : ℕ → ℕ → ℕ
fold_carries zero sum = sum
fold_carries (suc fuel) sum =
    let rest = fold_carries fuel (sum % 65536 + sum / 65536) in
    if sum / 65536 == 0 then sum else rest

unfoldable pub checksum_finish : ℕ → ℕ
checksum_finish sum = 65535 - fold_carries 2 sum % 65536

unfoldable pub internet_checksum : List ℕ → ℕ
internet_checksum bytes = checksum_finish (checksum_add 0 bytes)

unfoldable pub tcp_checksum : List ℕ → List ℕ → List ℕ → ℕ
tcp_checksum source destination segment =
    let size = length segment in
    let pseudo = 0 ∷ 6 ∷ size / 256 % 256 ∷ size % 256 ∷ [] in
    checksum_finish (
      checksum_add (checksum_add (checksum_add (checksum_add 0 source) destination) pseudo) segment)
