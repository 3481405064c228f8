-- ===== src/Snapshot/Release.antt =====
-- Giving memory back to the arena, and the arena's own check of itself.
use mikos.Prelude.{
  if_intro, ℕ, ◌+◌, ◌-◌, ◌^◌, ◌≤◌, ◌<◌, ◌≡◌, ◌⊎◌, refl, ap, List, [], ◌∷◌, some, true, false, ◌&&◌,
  ◌||◌, if◌then◌else◌, ◌==◌, arith, length, inl, inr, Bool-cases,
}
use mikos.Snapshot.{
  Extent, Status, success, no_space, invalid_argument, Arena, Placed, overlap, joined, apart, place,
  position, is_bad, release, capacity, available, free_extents, largest_available, largest_from,
  scan, invariant,
}
use mikos.Snapshot.Extents.{Chain, total, inside, is_free, Chain-le}
use mikos.Snapshot.Placing.{Fits, Good, place-position}
use mikos.Snapshot.Invariant.{IsValid}

-- What `release` does with `x`, as to the address `k`.
abbrev pub Released : ℕ → ℕ → Arena → Extent → Status × Arena → Type 0
Released extents k a x r =
    IsValid extents r.1
    × (((r.0 ≡ success)
          × (r.1.allocated + x.size ≡ a.allocated)
          × (is_free r.1.free k ≡ (is_free a.free k || inside x k))
          × ((is_free a.free k && inside x k) ≡ false))
        ⊎ ((r.1 ≡ a) × (r.0 ≡ no_space) × (length a.free ≡ extents))
        ⊎ ((r.1 ≡ a) × (r.0 ≡ invalid_argument)))

pub accepted :
    (extents : ℕ) (a : Arena) (x : Extent)
    → IsValid extents a
    → x.address < 2 ^ 32
    → x.size < 2 ^ 32
    → is_bad a x ≡ false
    → Fits a.start a.stop x × (x.size ≤ a.allocated)
unfolding is_bad
accepted extents a x v ha hs ok = ground arith

placed :
    (extents k : ℕ) (a : Arena) (x : Extent) (p : Placed)
    → IsValid extents a
    → x.size ≤ a.allocated
    → Good a.start a.stop a.free x k p
    → Released extents k a x (elim p [
      | overlap ↦ (invalid_argument, a)
      | joined es ↦ (success, record a { free = es; allocated = a.allocated - x.size })
      | apart es ↦
          if length a.free == extents
          then (no_space, a)
          else (success, record a { free = es; allocated = a.allocated - x.size })
    ])
placed extents k a x overlap v le g = (v, inr (inr (refl, refl)))
placed extents k a x (joined es) v le g = ground arith
placed extents k a x (apart es) v le g =
    if_intro (Released extents k a x) (length a.free == extents) (no_space, a)
      (success, record a { free = es; allocated = a.allocated - x.size })
      (λ full. (v, inr (inl (refl, refl, ground arith)))) (λ room. ground arith)

-- `release` keeps a valid arena valid. It frees exactly the addresses of the extent, none of which
-- was free, and gives its bytes back; or it changes nothing, for want of an entry or for a bad argument.
pub release-Released :
    (extents k : ℕ) (a : Arena) (x : Extent)
    → IsValid extents a
    → x.address < 2 ^ 32
    → x.size < 2 ^ 32
    → Released extents k a x (release extents a x)
unfolding release
release-Released extents k a x v ha hs = elim (Bool-cases (is_bad a x)) [
  | inl bad ↦ rw (bad, release) (v, inr (inr (refl, refl)))
  | inr ok ↦
      let (fits, le) = accepted extents a x v ha hs ok in
      rw (ok, release)
        (placed extents k a x (place a.free (position x.address a.free) x) v le
          (place-position a.start a.stop a.free x k fits v.chain))
]

-- The loop of `invariant` adds the sizes of ordered extents up.
scan_lem :
    (start stop previous_end bytes : ℕ) (es : List Extent)
    → Chain previous_end es stop
    → start ≤ previous_end
    → stop < 2 ^ 32
    → bytes + total es < 2 ^ 32
    → scan start stop previous_end bytes es ≡ some (bytes + total es)
unfolding scan
scan_lem start stop previous_end bytes [] c lo hi sum = ap some (omega arith)
scan_lem start stop previous_end bytes (e ∷ es) c lo hi sum = ground (
  arith,
  Chain-le (e.address + e.size) stop es c.4,
  scan_lem start stop (e.address + e.size) (bytes + e.size) es c.4,
)

-- A valid arena passes its own check.
pub invariant-true : (extents : ℕ) (a : Arena) → IsValid extents a → invariant extents a ≡ true
unfolding invariant capacity
invariant-true extents a v = ground (
  arith,
  Chain-le a.start a.stop a.free v.chain,
  scan_lem a.start a.stop a.start 0 a.free v.chain,
)

largest_from-le : (m : ℕ) (es : List Extent) → largest_from m es ≤ m + total es
unfolding largest_from
largest_from-le m [] = omega arith
largest_from-le m (e ∷ es) = ground (arith, largest_from-le m es, largest_from-le e.size es)

-- In a valid arena `available` is the sum of the free extents, `largest_available` is no more than
-- that, and there are no more extents than entries.
pub available_lem :
    (extents : ℕ) (a : Arena)
    → IsValid extents a
    → (available a ≡ total a.free)
      × (largest_available a ≤ available a)
      × (free_extents a ≤ extents)
unfolding available capacity free_extents largest_available
available_lem extents a v =
    ground (arith, Chain-le a.start a.stop a.free v.chain, largest_from-le 0 a.free)
