-- ===== src/Snapshot/Tests.antt =====
-- An arena of 64 bytes, and the theorems at it.
use mikos.Prelude.{◌+◌, ◌≡◌, refl, List, [], ◌∷◌, true, not, ◌&&◌, ◌==◌, ltb, leb, arith, false}
use mikos.Snapshot.{
  Extent, success, Arena, unset, initialize, take_first, allocate, position, place, erase, release,
  largest_available, invariant, align_up, is_bad,
}
use mikos.Snapshot.Extents.{inside, is_free}
use mikos.Snapshot.Invariant.{
  IsValid, Initialized, initialize_lem, Allocated, allocate_lem, allocate-is_free, allocate-largest,
}
use mikos.Snapshot.Release.{Released, invariant-true}
use mikos.Snapshot.Verdict.{verdict, release_lem}
use mikos.Snapshot.Owners.{Call, get, put, boot, run, owners, to_ℕ, run_owned}

-- 32 .. 96, with 48 .. 64 handed out.
abbrev holed : Arena
holed = record {
  free = record { address = 32; size = 16 } ∷ record { address = 64; size = 32 } ∷ [];
  start = 32;
  stop = 96;
  allocated = 16;
}

abbrev holed-IsValid : IsValid 2 holed
holed-IsValid = omega arith

abbrev block : Extent
block = record { address = 48; size = 16 }

release-holed :
    release 2 holed block
    ≡ (success, record holed { free = record { address = 32; size = 64 } ∷ []; allocated = 0 })
unfolding release is_bad place position erase
release-holed = refl

allocate-holed : (allocate 20 holed).0 ≡ record { address = 64; size = 32 }
unfolding allocate take_first
allocate-holed = refl

initialize_test : Initialized 2 20 100 unset (initialize 20 100 unset)
initialize_test = initialize_lem 2 20 100 unset (omega arith) (omega arith) (omega arith)

allocate_lem_example : Allocated 2 20 holed (allocate 20 holed)
allocate_lem_example = allocate_lem 2 20 holed holed-IsValid

allocate-is_free_example :
    let (x, a') = allocate 20 holed in
    (is_free a'.free 70 ≡ (is_free holed.free 70 && not (inside x 70)))
    × ((inside x 70 && not (is_free holed.free 70)) ≡ false)
allocate-is_free_example = allocate-is_free 2 20 70 holed holed-IsValid

allocate-largest_example :
    ((allocate 40 holed).0.size == 0) ≡ ltb (largest_available holed) (align_up 40)
allocate-largest_example = allocate-largest 2 40 holed holed-IsValid (omega arith) (omega arith)

release_lem_example :
    ((release 2 holed block).0 ≡ verdict 2 holed block)
    × Released 2 50 holed block (release 2 holed block)
release_lem_example = release_lem 2 50 holed block holed-IsValid (omega arith) (omega arith)

invariant_test : invariant 2 holed ≡ true
invariant_test = invariant-true 2 holed holed-IsValid

abbrev calls : List Call
calls = get 20 ∷ get 5 ∷ put 1 ∷ get 16 ∷ []

run_owned_example :
    let w = run 2 (boot 20 100) calls in
    (invariant 2 w.arena ≡ true)
    × (owners w.held 70 + to_ℕ (is_free w.arena.free 70)
        ≡ to_ℕ (leb w.arena.start 70 && ltb 70 w.arena.stop))
unfolding initialize
run_owned_example = run_owned 2 20 100 70 calls (omega arith) (omega arith) (omega arith) refl
