-- ===== src/Snapshot.antt =====
-- include/mikos/process/snapshot_arena.hpp: the extents of memory that process snapshots live in.
-- `free_[0 .. free_count_)` is a list, so what the source clears behind the count is not modelled;
-- the template parameter `ExtentCapacity` is the parameter `extents`. Sums and differences of
-- addresses wrap at 32 bits as written.
pub mod Extents
pub mod Placing
pub mod Invariant
pub mod Release
pub mod Telling
pub mod Verdict
pub mod Owners
mod Tests
use mikos.Prelude.{
  ℕ, zero, suc, ◌+◌, ◌-◌, ◌*◌, ◌/◌, ◌%◌, ◌^◌, List, [], ◌∷◌, Bool, true, false, not, ◌&&◌, ◌||◌,
  if◌then◌else◌, ◌==◌, ltb, leb, u32, sub32, length, Option, none, some, get_elem?, set,
}

pub record Extent : Type 0 where
  pub address : ℕ
  pub size : ℕ

pub data Status : Type 0 where
  success no_space invalid_argument : Status

pub record Arena : Type 0 where
  pub free : List Extent
  pub start : ℕ
  pub stop : ℕ
  pub allocated : ℕ

-- `SnapshotArena{}`
abbrev pub unset : Arena
unset = record { free = []; start = 0; stop = 0; allocated = 0 }

-- `SnapshotAllocation{}`
abbrev pub nothing : Extent
nothing = record { address = 0; size = 0 }

-- `align_up` and `align_down` (base.hpp) at the alignment 16: masking by `~15` clears four bits.
abbrev pub align_down : ℕ → ℕ
align_down n = n / 16 * 16

abbrev pub align_up : ℕ → ℕ
align_up n = u32 (n + 15) / 16 * 16

pub initialize : ℕ → ℕ → Arena → Status × Arena
initialize first last a =
    let start = align_up first in
    let stop = align_down last in
    if start == 0 || leb stop start then (invalid_argument, a) else (
      success,
      record {
        free = record { address = start; size = stop - start } ∷ [];
        start = start;
        stop = stop;
        allocated = 0;
      },
    )

-- The first extent that is large enough gives up its front; an extent used up is erased.
pub take_first : ℕ → List Extent → Option (Extent × List Extent)
take_first size [] = none
take_first size (e ∷ es) =
    let later = take_first size es in
    if ltb e.size size
    then (elim later [ none ↦ none | some (found, rest) ↦ some (found, e ∷ rest) ])
    else if e.size - size == 0
    then some (record { address = e.address; size = size }, es)
    else some (
      record { address = e.address; size = size },
      record { address = u32 (e.address + size); size = e.size - size } ∷ es,
    )

pub allocate : ℕ → Arena → Extent × Arena
allocate requested a =
    if requested == 0 || a.start == 0 || ltb (2 ^ 32 - 1 - 15) requested
    then (nothing, a)
    else (let size = align_up requested in
        if ltb size requested then (nothing, a) else (elim (take_first size a.free) [
          | none ↦ (nothing, a)
          | some (found, rest) ↦
              (found, record a { free = rest; allocated = u32 (a.allocated + size) })
        ]))

-- `while (position < free_count_ && free_[position].address < address) ++position;`
pub position : ℕ → List Extent → ℕ
position address [] = 0
position address (e ∷ es) = if ltb e.address address then suc (position address es) else 0

-- `erase(position)`
pub erase : List Extent → ℕ → List Extent
erase [] i = []
erase (e ∷ es) zero = es
erase (e ∷ es) (suc i) = e ∷ erase es i

-- Moves `free_[position ..]` up by one and puts `x` at `position`.
pub insert : List Extent → ℕ → Extent → List Extent
insert es zero x = x ∷ es
insert [] (suc i) x = []
insert (e ∷ es) (suc i) x = e ∷ insert es i x

-- `address + size` of an extent.
abbrev pub end_of : Extent → ℕ
end_of e = u32 (e.address + e.size)

-- The tests on the neighbours of `position`, which may not be there.
abbrev pub past : Option Extent → Extent → Bool
past none x = false
past (some e) x = ltb x.address (end_of e)

abbrev pub before : Extent → Option Extent → Bool
before x none = false
before x (some e) = ltb e.address (end_of x)

abbrev pub meets_previous : Option Extent → Extent → Bool
meets_previous none x = false
meets_previous (some e) x = end_of e == x.address

abbrev pub meets_next : Extent → Option Extent → Bool
meets_next x none = false
meets_next x (some e) = end_of x == e.address

abbrev pub size_of : Option Extent → ℕ
size_of none = 0
size_of (some e) = e.size

-- What `release` makes of the free extents: `x` overlaps one, or joins one, or stands apart.
pub data Placed : Type 0 where
  overlap : Placed
  joined : List Extent → Placed
  apart : List Extent → Placed

-- Whether there is an extent before `position`, and which.
abbrev pub previous : List Extent → ℕ → Option Extent
previous es zero = none
previous es (suc i) = get_elem? es i

-- `position - 1`, where there is a previous extent.
abbrev pub previous_index : ℕ → ℕ
previous_index zero = zero
previous_index (suc i) = i

abbrev pub grown : Option Extent → ℕ → Extent
grown none n = nothing
grown (some e) n = record e { size = u32 (e.size + n) }

pub place : List Extent → ℕ → Extent → Placed
place es i x =
    let p = previous es i in
    let n = get_elem? es i in
    if past p x || before x n
    then overlap
    else if meets_previous p x
    then (if meets_next x n
        then joined (erase (set es (previous_index i) (grown p (x.size + size_of n))) i)
        else joined (set es (previous_index i) (grown p x.size)))
    else if meets_next x n
    then joined (set es i (record { address = x.address; size = u32 (size_of n + x.size) }))
    else apart (insert es i x)

-- `release`'s test of its argument.
pub is_bad : Arena → Extent → Bool
is_bad a x =
    x.address == 0
    || x.size == 0
    || a.start == 0
    || not (x.address % 16 == 0)
    || not (x.size % 16 == 0)
    || ltb x.address a.start
    || leb a.stop x.address
    || ltb (sub32 a.stop x.address) x.size
    || ltb a.allocated x.size

pub release : ℕ → Arena → Extent → Status × Arena
unfolding is_bad
release extents a x =
    if is_bad a x
    then (invalid_argument, a)
    else (elim (place a.free (position x.address a.free) x) [
      | overlap ↦ (invalid_argument, a)
      | joined es ↦ (success, record a { free = es; allocated = a.allocated - x.size })
      | apart es ↦
          if length a.free == extents
          then (no_space, a)
          else (success, record a { free = es; allocated = a.allocated - x.size })
    ])

pub capacity : Arena → ℕ
capacity a = sub32 a.stop a.start

pub available : Arena → ℕ
unfolding capacity
available a = sub32 (capacity a) a.allocated

pub largest_from : ℕ → List Extent → ℕ
largest_from largest [] = largest
largest_from largest (e ∷ es) = largest_from (if ltb largest e.size then e.size else largest) es

pub largest_available : Arena → ℕ
unfolding largest_from
largest_available a = largest_from 0 a.free

pub free_extents : Arena → ℕ
free_extents a = length a.free

-- The loop of `invariant`: the bytes in the extents, unless one is out of order or out of bounds.
pub scan : ℕ → ℕ → ℕ → ℕ → List Extent → Option ℕ
scan start stop previous_end bytes [] = some bytes
scan start stop previous_end bytes (e ∷ es) =
    let rest = scan start stop (end_of e) (u32 (bytes + e.size)) es in
    if e.size == 0
      || ltb e.address previous_end
      || ltb e.address start
      || leb stop e.address
      || ltb (sub32 stop e.address) e.size
    then none
    else rest

pub invariant : ℕ → Arena → Bool
unfolding capacity
invariant extents a =
    if a.start == 0
      || leb a.stop a.start
      || ltb extents (length a.free)
      || ltb (capacity a) a.allocated
    then false
    else (elim (scan a.start a.stop a.start 0 a.free) [
      | none ↦ false
      | some bytes ↦ bytes == sub32 (capacity a) a.allocated
    ])
