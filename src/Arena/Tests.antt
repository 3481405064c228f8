-- ===== src/Arena/Tests.antt =====
-- An arena of 128 bytes at address 4096.
use mikos.Prelude.{◌+◌, ◌≡◌, refl, List, [], ◌∷◌, true}
use mikos.Arena.{
  empty, initialize, try_allocate, release, release_loop, allocate_loop, place, split, join,
  align_up, is_power_of_two, is_power_from,
}
use mikos.Arena.Tiling.{Tiles, Call, allocates, releases, run, step, run-Tiles}

abbrev calls : List Call
calls = allocates 20 8 ∷ allocates 5 4 ∷ releases 4112 ∷ []

accepted : (initialize 4096 128 empty).0 ≡ true
unfolding initialize
accepted = refl

first_address : (try_allocate 20 8 (initialize 4096 128 empty).1).0 ≡ 4112
unfolding try_allocate initialize allocate_loop place split align_up is_power_of_two is_power_from
first_address = refl

used_after : (run (initialize 4096 128 empty).1 calls).used ≡ 20
unfolding run step try_allocate release release_loop initialize allocate_loop place split join
    align_up is_power_of_two is_power_from
used_after = refl

run-Tiles_example : Tiles 4096 (run (initialize 4096 128 empty).1 calls).blocks (4096 + 128)
run-Tiles_example = run-Tiles 4096 128 calls accepted
