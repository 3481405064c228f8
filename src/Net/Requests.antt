-- ===== src/Net/Requests.antt =====
-- What each request of include/mikos/net/interface.hpp answers, what it changes, and what it returns.
use mikos.Prelude.{
  ℕ, ◌≤◌, ◌≡◌, refl, ap, sym, subst, ◌∙◌, List, [], ◌∷◌, ◌++◌, Bool, true, false, not, ◌&&◌, ◌||◌,
  if◌then◌else◌, ◌==◌, arith, length, replicate, inl, inr, Bool-cases,
}
use mikos.Slots.{All}
use mikos.Net.{read8}
use mikos.Net.Interface.{
  InterfaceState, InterfaceControlResult, success, no_device, invalid_argument, unsupported,
  interface_name_matches, family, sockaddr_ipv4, write_sockaddr_ipv4, write_u16, write_i32,
  broadcast_of, update_broadcast, read_interface, apply_interface_ioctl,
}

abbrev pub member : ℕ → List ℕ → Bool
member n [] = false
member n (x ∷ xs) = n == x || member n xs

abbrev pub starts_with : List ℕ → List ℕ → Bool
starts_with [] text = true
starts_with (p ∷ ps) [] = false
starts_with (p ∷ ps) (x ∷ xs) = x == p && starts_with ps xs

-- The value of a request in a table, or another one.
abbrev pub lookup : ℕ → List (ℕ × List ℕ) → List ℕ → List ℕ
lookup request [] other = other
lookup request ((r, value) ∷ rows) other =
    let rest = lookup request rows other in if request == r then value else rest

-- `eth0` and a zero.
abbrev pub eth0_text : List ℕ
eth0_text = 101 ∷ 116 ∷ 104 ∷ 48 ∷ 0 ∷ []

-- The requests that set an address: of the interface, its mask and its broadcast address.
abbrev pub address_setters : List ℕ
address_setters = 0x8916 ∷ 0x891c ∷ 0x891a ∷ []

-- What the requests that read return.
abbrev pub replies : InterfaceState → List ℕ → List (ℕ × List ℕ)
replies s value =
    (0x8933, write_i32 1 value)
    ∷ (0x8913, write_u16 s.flags value)
    ∷ (0x891d, write_i32 0 value)
    ∷ (0x8921, write_i32 1500 value)
    ∷ (0x8942, write_i32 1000 value)
    ∷ (0x8915, write_sockaddr_ipv4 s.address)
    ∷ (0x891b, write_sockaddr_ipv4 s.netmask)
    ∷ (0x8919, write_sockaddr_ipv4 s.broadcast)
    ∷ (0x8927, 1 ∷ 0 ∷ (s.mac ++ replicate 8 0))
    ∷ []

-- The requests there are.
abbrev pub supported : List ℕ
supported =
    0x8933 ∷ 0x8913 ∷ 0x891d ∷ 0x8921 ∷ 0x8942 ∷ 0x8914 ∷ 0x8915 ∷ 0x8916 ∷ 0x891b ∷ 0x891c ∷ 0x8919
    ∷ 0x891a ∷ 0x8927 ∷ []

unfoldable pub verdict : Bool → ℕ → List ℕ → InterfaceControlResult
verdict named request value =
    if not named
    then no_device
    else if not (member request supported)
    then unsupported
    else if member request address_setters && not (family value == 2)
    then invalid_argument
    else success

abbrev pub is_success : InterfaceControlResult → Bool
is_success success = true
is_success _ = false

-- The interface after a request that succeeds, field by field.
unfoldable pub changed : InterfaceState → ℕ → List ℕ → InterfaceState
changed s request value = record {
  mac = s.mac;
  address = if request == 0x8916 then sockaddr_ipv4 value else s.address;
  netmask = if request == 0x891c then sockaddr_ipv4 value else s.netmask;
  broadcast =
      if request == 0x891a
      then sockaddr_ipv4 value
      else if request == 0x8916
      then broadcast_of (sockaddr_ipv4 value) s.netmask
      else if request == 0x891c
      then broadcast_of s.address (sockaddr_ipv4 value)
      else s.broadcast;
  flags = if request == 0x8914 then family value else s.flags;
}

-- What a request with a verdict comes to.
unfoldable pub outcome :
    InterfaceControlResult
    → InterfaceState
    → ℕ
    → List ℕ
    → InterfaceControlResult × InterfaceState × List ℕ
unfolding changed
outcome result s request value =
    if is_success result
    then (result, changed s request value, lookup request (replies s value) value)
    else (result, s, value)

-- What holds of each request of a list.
member-All : (P : ℕ → Type 0) (rs : List ℕ) → All P rs → (r : ℕ) → member r rs ≡ true → P r
member-All P [] all r among = cc
member-All P (x ∷ xs) all r among = elim (Bool-cases (r == x)) [
  | inl same ↦ subst P (sym (equal r x same)) all.0
  | inr other ↦ member-All P xs all.1 r (ground (arith, other, among))
]
  where
    equal : (a b : ℕ) → (a == b) ≡ true → a ≡ b
    equal a b e = ground (arith, e)

name-starts_with :
    (name : List ℕ) → 5 ≤ length name → interface_name_matches name ≡ starts_with eth0_text name
unfolding interface_name_matches read8
name-starts_with [] long = absurd (omega (arith, long))
name-starts_with (a ∷ []) long = absurd (omega (arith, long))
name-starts_with (a ∷ b ∷ []) long = absurd (omega (arith, long))
name-starts_with (a ∷ b ∷ c ∷ []) long = absurd (omega (arith, long))
name-starts_with (a ∷ b ∷ c ∷ d ∷ []) long = absurd (omega (arith, long))
name-starts_with (a ∷ b ∷ c ∷ d ∷ e ∷ rest) long = ground arith

-- The requests that read, or set the flags.
abbrev plain_requests : List ℕ
plain_requests =
    0x8933 ∷ 0x8913 ∷ 0x891d ∷ 0x8921 ∷ 0x8942 ∷ 0x8914 ∷ 0x8915 ∷ 0x891b ∷ 0x8919 ∷ 0x8927 ∷ []

module _ (s : InterfaceState) (name value : List ℕ)
    (named : interface_name_matches name ≡ true) where
  Served : ℕ → Type 0
  Served request =
      apply_interface_ioctl s request name value
      ≡ outcome (verdict true request value) s request value

  plain : All Served plain_requests
  unfolding Served apply_interface_ioctl read_interface outcome verdict changed
  plain = (
    rw named refl,
    (
      rw named refl,
      (
        rw named refl,
        (
          rw named refl,
          (
            rw named refl,
            (rw named refl, (rw named refl, (rw named refl, (rw named refl, (rw named refl, tt))))),
          ),
        ),
      ),
    ),
  )

  setter : All Served address_setters
  unfolding Served apply_interface_ioctl read_interface update_broadcast outcome verdict changed
  setter = elim (Bool-cases (family value == 2)) [
    | inl internet ↦
        (rw (named, internet) refl, (rw (named, internet) refl, (rw (named, internet) refl, tt)))
    | inr other ↦ (rw (named, other) refl, (rw (named, other) refl, (rw (named, other) refl, tt)))
  ]

  unknown : (request : ℕ) → member request supported ≡ false → Served request
  unfolding Served apply_interface_ioctl read_interface outcome verdict changed
  unknown request absent =
      ground (arith, named, absent)
      ∙ ap
          (λ b.
            outcome
              (if not b
                then unsupported
                else if member request address_setters && not (family value == 2)
                then invalid_argument
                else success)
              s request value)
          (sym absent)

  served : (request : ℕ) → Served request
  served request = elim (Bool-cases (member request plain_requests)) [
    | inl among ↦ member-All Served plain_requests plain request among
    | inr other ↦ elim (Bool-cases (member request address_setters)) [
      | inl among ↦ member-All Served address_setters setter request among
      | inr neither ↦ unknown request (ground (arith, other, neither))
    ]
  ]

-- What `apply_interface_ioctl` answers, for a name field of at least five bytes: no_device exactly
-- where the name does not begin with `eth0` and a zero; else unsupported exactly where the request is
-- none of the 13 listed; else invalid_argument exactly where it sets an address and the value is not of
-- the family 2; else success. A request that does not succeed changes neither the interface nor the
-- value. One that succeeds sets the field that it names, and the broadcast address anew with the
-- address or the mask, and no other field; the value is the reply of the table, or as it was where the
-- request is not in it.
pub apply_interface_ioctl_lem :
    (s : InterfaceState) (request : ℕ) (name value : List ℕ)
    → 5 ≤ length name
    → apply_interface_ioctl s request name value
      ≡ outcome (verdict (starts_with eth0_text name) request value) s request value
unfolding apply_interface_ioctl outcome verdict Served
apply_interface_ioctl_lem s request name value long =
    elim (Bool-cases (interface_name_matches name)) [
      | inl named ↦
          served s name value named request
          ∙ ap (λ b. outcome (verdict b request value) s request value)
              (sym named ∙ name-starts_with name long)
      | inr unnamed ↦
          rw unnamed refl
          ∙ ap (λ b. outcome (verdict b request value) s request value)
              (sym unnamed ∙ name-starts_with name long)
    ]
