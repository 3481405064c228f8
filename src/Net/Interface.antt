-- ===== src/Net/Interface.antt =====
-- include/mikos/net/interface.hpp: the requests that read and change the network interface. The value
-- of a request is a union of 16 bytes; a write to a smaller member leaves the other bytes.
use Prim.Native.Nat.{bit_or}
use mikos.Prelude.{
  ℕ, ◌+◌, ◌-◌, ◌*◌, ◌/◌, ◌%◌, ◌^◌, List, [], ◌∷◌, ◌++◌, Bool, not, ◌&&◌, if◌then◌else◌, ◌==◌, take,
  drop, replicate,
}
use mikos.Net.{read8}

pub record InterfaceState : Type 0 where
  pub mac : List ℕ
  pub address : List ℕ
  pub netmask : List ℕ
  pub broadcast : List ℕ
  pub flags : ℕ

pub data InterfaceControlResult : Type 0 where
  success no_device invalid_argument unsupported : InterfaceControlResult

-- `eth0` and the zero.
unfoldable pub interface_name_matches : List ℕ → Bool
interface_name_matches name =
    read8 name 0 == 101
    && (read8 name 1 == 116 && (read8 name 2 == 104 && (read8 name 3 == 48 && read8 name 4 == 0)))

abbrev pub family : List ℕ → ℕ
family value = read8 value 0 + read8 value 1 * 256

abbrev pub sockaddr_ipv4 : List ℕ → List ℕ
sockaddr_ipv4 value = take 4 (drop 4 value)

abbrev pub write_sockaddr_ipv4 : List ℕ → List ℕ
write_sockaddr_ipv4 address = 2 ∷ 0 ∷ 0 ∷ 0 ∷ (address ++ replicate 8 0)

abbrev pub write_u16 : ℕ → List ℕ → List ℕ
write_u16 n value = n % 256 ∷ n / 256 ∷ drop 2 value

abbrev pub write_i32 : ℕ → List ℕ → List ℕ
write_i32 n value = n % 256 ∷ n / 256 % 256 ∷ n / 256 ^ 2 % 256 ∷ n / 256 ^ 3 ∷ drop 4 value

-- `address | ~netmask`, for each octet.
unfoldable pub broadcast_of : List ℕ → List ℕ → List ℕ
broadcast_of (a ∷ address) (m ∷ netmask) = bit_or a (255 - m) ∷ broadcast_of address netmask
broadcast_of address [] = []
broadcast_of [] netmask = []

unfoldable pub update_broadcast : InterfaceState → InterfaceState
update_broadcast s = record s { broadcast = broadcast_of s.address s.netmask }

-- The requests that only read.
unfoldable pub read_interface : InterfaceState → ℕ → List ℕ → InterfaceControlResult × List ℕ
read_interface s request value =
    if request == 0x8933
    then (success, write_i32 1 value)
    else if request == 0x8913
    then (success, write_u16 s.flags value)
    else if request == 0x891d
    then (success, write_i32 0 value)
    else if request == 0x8921
    then (success, write_i32 1500 value)
    else if request == 0x8942
    then (success, write_i32 1000 value)
    else if request == 0x8915
    then (success, write_sockaddr_ipv4 s.address)
    else if request == 0x891b
    then (success, write_sockaddr_ipv4 s.netmask)
    else if request == 0x8919
    then (success, write_sockaddr_ipv4 s.broadcast)
    else if request == 0x8927
    then (success, 1 ∷ 0 ∷ (s.mac ++ replicate 8 0))
    else (unsupported, value)

unfoldable pub apply_interface_ioctl :
    InterfaceState → ℕ → List ℕ → List ℕ → InterfaceControlResult × InterfaceState × List ℕ
apply_interface_ioctl s request name value =
    if not (interface_name_matches name)
    then (no_device, s, value)
    else if request == 0x8914
    then (success, record s { flags = family value }, value)
    else if request == 0x8916
    then (if not (family value == 2)
        then (invalid_argument, s, value)
        else (success, update_broadcast (record s { address = sockaddr_ipv4 value }), value))
    else if request == 0x891c
    then (if not (family value == 2)
        then (invalid_argument, s, value)
        else (success, update_broadcast (record s { netmask = sockaddr_ipv4 value }), value))
    else if request == 0x891a
    then (if not (family value == 2)
        then (invalid_argument, s, value)
        else (success, record s { broadcast = sockaddr_ipv4 value }, value))
    else (let (result, value') = read_interface s request value in (result, s, value'))
