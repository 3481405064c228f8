-- ===== src/Arena.antt =====
-- include/mikos/memory/arena.hpp: an arena of contiguous blocks, each with a header, on 32 bits.
-- The linked list of blocks is a list, each block with its address; a null `user` is 0.
pub mod Tiling
mod Tests
use mikos.Prelude.{
  ℕ, zero, suc, ◌+◌, ◌-◌, ◌*◌, ◌%◌, ◌^◌, List, [], ◌∷◌, ◌++◌, Option, none, some, Bool, true, false,
  not, ◌&&◌, ◌||◌, if◌then◌else◌, ◌==◌, ltb, leb, u32, sub32,
}

pub record Block : Type 0 where
  pub begin : ℕ
  pub bytes : ℕ
  pub user : ℕ

pub record State : Type 0 where
  pub blocks : List Block
  pub used : ℕ
  pub high_water : ℕ
  pub allocations : ℕ

-- `sizeof(Block)` and `alignof(Block)` on RV32.
abbrev pub header : ℕ
header = 12

abbrev pub block_align : ℕ
block_align = 4

-- `~usize{0}`
abbrev pub max_size : ℕ
max_size = 2 ^ 32 - 1

-- Whether `a` is one of the `n` powers of two from `p` on: on 32 bits,
-- `alignment != 0 && (alignment & (alignment - 1)) == 0`.
unfoldable pub is_power_from : ℕ → ℕ → ℕ → Bool
is_power_from zero p a = false
is_power_from (suc n) p a = a == p || is_power_from n (p * 2) a

unfoldable pub is_power_of_two : ℕ → Bool
unfolding is_power_from
is_power_of_two a = is_power_from 32 1 a

-- `align_up` to a power of two.
unfoldable pub align_up : ℕ → ℕ → ℕ
align_up value a = let w = u32 (value + (a - 1)) in w - w % a

abbrev pub is_taken : Block → Bool
is_taken b = not (b.user == 0)

-- `Arena{}`
abbrev pub empty : State
empty = record { blocks = []; used = 0; high_water = 0; allocations = 0 }

unfoldable pub initialize : ℕ → ℕ → State → Bool × State
initialize storage bytes s = elim s.blocks [
  | b ∷ bs ↦ (false, s)
  | [] ↦
      if storage == 0
        || ltb bytes header
        || not (storage % block_align == 0)
        || ltb (max_size - storage) bytes
      then (false, s)
      else (true, record s { blocks = record { begin = storage; bytes = bytes; user = 0 } ∷ [] })
]

-- The address that a free block can give.
unfoldable pub place : ℕ → ℕ → Block → Option ℕ
unfolding align_up
place bytes a b =
    let start = u32 (b.begin + header) in
    let user = align_up start a in
    let padding = sub32 user b.begin in
    if ltb (max_size - (a - 1)) start
    then none
    else if ltb b.bytes padding || ltb (b.bytes - padding) bytes
    then none
    else some user

-- The block that is taken, and what is split off it.
unfoldable pub split : ℕ → ℕ → Block → List Block
unfolding align_up
split bytes user b =
    let consumed = u32 (sub32 user b.begin + bytes) in
    let rounded = align_up consumed block_align in
    if leb consumed (max_size - (block_align - 1))
      && (leb rounded b.bytes && leb (header + block_align) (b.bytes - rounded))
    then record b { bytes = rounded; user = user }
      ∷ record { begin = u32 (b.begin + rounded); bytes = b.bytes - rounded; user = 0 }
      ∷ []
    else record b { user = user } ∷ []

-- The size of the first block.
abbrev pub first_bytes : List Block → ℕ
first_bytes [] = 0
first_bytes (b ∷ bs) = b.bytes

-- The loop of `try_allocate`: the address, the bytes taken and the blocks.
unfoldable pub allocate_loop : ℕ → ℕ → List Block → Option (ℕ × ℕ × List Block)
unfolding place split
allocate_loop bytes a [] = none
allocate_loop bytes a (b ∷ bs) =
    let later : Option (ℕ × ℕ × List Block) = elim (allocate_loop bytes a bs) [
      | none ↦ none
      | some r ↦ some (r.0, r.1, b ∷ r.2)
    ] in
    if is_taken b then later else (elim (place bytes a b) [
      | none ↦ later
      | some user ↦ some (user, first_bytes (split bytes user b), split bytes user b ++ bs)
    ])

unfoldable pub try_allocate : ℕ → ℕ → State → ℕ × State
unfolding allocate_loop
try_allocate bytes a s =
    if bytes == 0 || not (is_power_of_two a)
    then (0, s)
    else (elim (allocate_loop bytes a s.blocks) [
      | none ↦ (0, s)
      | some r ↦
          let used = u32 (s.used + r.1) in
          (
            r.0,
            record {
              blocks = r.2;
              used = used;
              high_water = if ltb s.high_water used then used else s.high_water;
              allocations = u32 (s.allocations + 1);
            },
          )
    ])

-- A free block takes in the free block after it.
unfoldable pub join : Block → List Block → List Block
join b [] = b ∷ []
join b (x ∷ xs) =
    if not (is_taken b) && not (is_taken x)
    then record b { bytes = u32 (b.bytes + x.bytes) } ∷ xs
    else b ∷ x ∷ xs

-- Whether the block that a pointer names is the first one.
abbrev pub is_first : ℕ → List Block → Bool
is_first p [] = false
is_first p (b ∷ bs) = b.user == p

-- The loop of `release`: the bytes given back and the blocks.
unfoldable pub release_loop : ℕ → List Block → Option (ℕ × List Block)
unfolding join
release_loop p [] = none
release_loop p (b ∷ bs) =
    let later : Option (ℕ × List Block) = elim (release_loop p bs) [
      | none ↦ none
      | some r ↦ some (r.0, if is_first p bs then join b r.1 else b ∷ r.1)
    ] in
    if b.user == p then some (b.bytes, join (record b { user = 0 }) bs) else later

unfoldable pub release : ℕ → State → Bool × State
unfolding release_loop
release p s = if p == 0 then (true, s) else (elim (release_loop p s.blocks) [
  | none ↦ (false, s)
  | some r ↦ (
    true,
    record s { blocks = r.1; used = sub32 s.used r.0; allocations = sub32 s.allocations 1 },
  )
])
