-- ===== src/Snapshot/Verdict.antt =====
-- Which answer `release` gives, from the extent and the free ones alone.
use mikos.Prelude.{
  ℕ, ◌+◌, ◌-◌, ◌%◌, ◌^◌, ◌<◌, ◌≡◌, refl, ◌∙◌, Bool, true, false, not, ◌&&◌, ◌||◌, if◌then◌else◌,
  ◌==◌, ltb, leb, arith, length, inl, inr, Bool-cases,
}
use mikos.Snapshot.{
  Extent, Status, success, no_space, invalid_argument, Arena, Placed, overlap, joined, apart, place,
  position, is_bad, release,
}
use mikos.Snapshot.Invariant.{IsValid}
use mikos.Snapshot.Release.{Released, release-Released, accepted}
use mikos.Snapshot.Telling.{any_overlaps, any_touches, Tells, place-Tells}

-- A part of the arena in units of 16 bytes, of no more than is allocated.
unfoldable pub acceptable : Arena → Extent → Bool
acceptable a x =
    ltb 0 x.size
    && (x.address % 16 == 0
        && (x.size % 16 == 0
            && (leb a.start x.address
                && (leb (x.address + x.size) a.stop && leb x.size a.allocated))))

unfoldable pub verdict : ℕ → Arena → Extent → Status
verdict extents a x =
    if not (acceptable a x) || any_overlaps a.free x
    then invalid_argument
    else if length a.free == extents && not (any_touches a.free x)
    then no_space
    else success

is_bad-acceptable :
    (extents : ℕ) (a : Arena) (x : Extent)
    → IsValid extents a
    → x.address < 2 ^ 32
    → x.size < 2 ^ 32
    → is_bad a x ≡ not (acceptable a x)
unfolding is_bad acceptable
is_bad-acceptable extents a x v word size_word = ground arith

answer : ℕ → Arena → Extent → Placed → Status
answer extents a x overlap = invalid_argument
answer extents a x (joined es) = success
answer extents a x (apart es) = if length a.free == extents then no_space else success

answer-verdict :
    (extents : ℕ) (a : Arena) (x : Extent) (p : Placed)
    → acceptable a x ≡ true
    → Tells a.free x p
    → answer extents a x p ≡ verdict extents a x
unfolding answer verdict
answer-verdict extents a x overlap ok t = ground (arith, ok, t)
answer-verdict extents a x (joined es) ok t = ground (arith, ok, t)
answer-verdict extents a x (apart es) ok t = ground (arith, ok, t)

release-answer :
    (extents : ℕ) (a : Arena) (x : Extent)
    → is_bad a x ≡ false
    → (release extents a x).0 ≡ answer extents a x (place a.free (position x.address a.free) x)
unfolding release answer
release-answer extents a x ok =
    rw (ok, release) (of_placed (place a.free (position x.address a.free) x))
  where
    settled : Placed → Status × Arena
    settled p = elim p [
      | overlap ↦ (invalid_argument, a)
      | joined es ↦ (success, record a { free = es; allocated = a.allocated - x.size })
      | apart es ↦
          if length a.free == extents
          then (no_space, a)
          else (success, record a { free = es; allocated = a.allocated - x.size })
    ]

    of_placed : (p : Placed) → (settled p).0 ≡ answer extents a x p
    of_placed overlap = refl
    of_placed (joined es) = refl
    of_placed (apart es) = ground arith

release-verdict :
    (extents : ℕ) (a : Arena) (x : Extent)
    → IsValid extents a
    → x.address < 2 ^ 32
    → x.size < 2 ^ 32
    → (release extents a x).0 ≡ verdict extents a x
unfolding release verdict
release-verdict extents a x v word size_word = elim (Bool-cases (is_bad a x)) [
  | inl bad ↦
      let refused = is_bad-acceptable extents a x v word size_word in
      rw (bad, release) (ground (arith, bad, refused))
  | inr ok ↦
      let taken = is_bad-acceptable extents a x v word size_word in
      let fits = (accepted extents a x v word size_word ok).0 in
      release-answer extents a x ok
      ∙ answer-verdict extents a x (place a.free (position x.address a.free) x)
          (ground (arith, ok, taken)) (place-Tells a.start a.stop a.free x fits v.chain)
]

-- `release` of a valid arena answers invalid_argument exactly where the extent is empty or not in units
-- of 16 bytes, not inside the arena's bounds, larger than what is allocated, or has an address that is
-- free; no_space exactly where it could be freed but touches no free extent and no entry is left; and
-- else it succeeds. It keeps the arena valid. With success it frees exactly the addresses of the
-- extent, none of which was free, and gives its bytes back; without, it changes nothing.
pub release_lem :
    (extents k : ℕ) (a : Arena) (x : Extent)
    → IsValid extents a
    → x.address < 2 ^ 32
    → x.size < 2 ^ 32
    → ((release extents a x).0 ≡ verdict extents a x) × Released extents k a x (release extents a x)
release_lem extents k a x v word size_word =
    (release-verdict extents a x v word size_word, release-Released extents k a x v word size_word)
