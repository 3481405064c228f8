-- ===== src/Arena/Tiling.antt =====
-- The blocks of the arena tile its storage, and its counters are right.
use mikos.Prelude.{
  ℕ, ◌+◌, ◌-◌, ◌^◌, ◌≤◌, ◌<◌, ◌≡◌, subst, if_intro, List, [], ◌∷◌, ◌++◌, Option, none, some, Bool,
  true, false, not, ◌&&◌, ◌||◌, if◌then◌else◌, ◌==◌, leb, arith, u32, sub32, inl, inr, Bool-cases,
  Option-cases,
}
use mikos.Arena.{
  Block, State, is_taken, place, split, allocate_loop, try_allocate, join, is_first, release_loop,
  release, initialize, align_up, max_size, is_power_of_two, empty,
}

-- The blocks follow one another from `base` to `limit`.
abbrev pub Tiles : ℕ → List Block → ℕ → Type 0
Tiles base [] limit = base ≡ limit
Tiles base (b ∷ bs) limit = (b.begin ≡ base) × Tiles (base + b.bytes) bs limit

Tiles-le : (base : ℕ) (bs : List Block) (limit : ℕ) → Tiles base bs limit → base ≤ limit
Tiles-le base [] limit h = omega (arith, h)
Tiles-le base (b ∷ bs) limit h = omega (arith, Tiles-le (base + b.bytes) bs limit h.1)

-- A block that is cut in two at `k`.
cut-Tiles :
    (k user : ℕ) (b : Block) (bs : List Block) (base limit : ℕ)
    → limit < 2 ^ 32
    → k ≤ b.bytes
    → Tiles base (b ∷ bs) limit
    → Tiles base
        (record b { bytes = k; user = user }
          ∷ record { begin = u32 (b.begin + k); bytes = b.bytes - k; user = 0 }
          ∷ bs)
        limit
cut-Tiles k user b bs base limit lt le h =
    let whole = Tiles-le (base + b.bytes) bs limit h.1 in
    let after : base + b.bytes ≡ base + k + (b.bytes - k) = omega arith in
    (h.0, (omega (arith, h.0), subst (λ n. Tiles n bs limit) after h.1))

split-Tiles :
    (bytes user : ℕ) (b : Block) (bs : List Block) (base limit : ℕ)
    → limit < 2 ^ 32
    → Tiles base (b ∷ bs) limit
    → Tiles base (split bytes user b ++ bs) limit
unfolding split
split-Tiles bytes user b bs base limit lt h =
    let consumed = u32 (sub32 user b.begin + bytes) in
    let rounded = align_up consumed 4 in
    if_intro (λ (xs : List Block). Tiles base (xs ++ bs) limit)
      (leb consumed (max_size - 3) && (leb rounded b.bytes && leb 16 (b.bytes - rounded)))
      (record b { bytes = rounded; user = user }
        ∷ record { begin = u32 (b.begin + rounded); bytes = b.bytes - rounded; user = 0 }
        ∷ [])
      (record b { user = user } ∷ [])
      (λ cut. cut-Tiles rounded user b bs base limit lt (ground (arith, cut)) h) (λ whole. h)

join-Tiles :
    (b : Block) (bs : List Block) (base limit : ℕ)
    → limit < 2 ^ 32
    → Tiles base (b ∷ bs) limit
    → Tiles base (join b bs) limit
unfolding join
join-Tiles b [] base limit lt h = h
join-Tiles b (x ∷ xs) base limit lt h =
    let b_here = h.0 in
    let rest = h.1.1 in
    let whole = Tiles-le (base + b.bytes + x.bytes) xs limit rest in
    if_intro (λ (ys : List Block). Tiles base ys limit) (not (is_taken b) && not (is_taken x))
      (record b { bytes = u32 (b.bytes + x.bytes) } ∷ xs) (b ∷ x ∷ xs)
      (λ both.
        let after : base + b.bytes + x.bytes ≡ base + u32 (b.bytes + x.bytes) = omega arith in
        (b_here, subst (λ n. Tiles n xs limit) after rest))
      (λ other. h)

-- What a loop gives, if it gives anything, tiles the storage.
abbrev pub Allocated : ℕ → ℕ → Option (ℕ × ℕ × List Block) → Type 0
Allocated base limit none = Unit
Allocated base limit (some r) = Tiles base r.2 limit

abbrev pub Released : ℕ → ℕ → Option (ℕ × List Block) → Type 0
Released base limit none = Unit
Released base limit (some r) = Tiles base r.1 limit

further :
    (b : Block) (base limit : ℕ) (o : Option (ℕ × ℕ × List Block))
    → b.begin ≡ base
    → Allocated (base + b.bytes) limit o
    → Allocated base limit (elim o [ none ↦ none | some r ↦ some (r.0, r.1, b ∷ r.2) ])
further b base limit none here h = tt
further b base limit (some r) here h = (here, h)

further_back :
    (b : Block) (first : Bool) (base limit : ℕ) (o : Option (ℕ × List Block))
    → limit < 2 ^ 32
    → b.begin ≡ base
    → Released (base + b.bytes) limit o
    → Released base limit
        (elim o [ none ↦ none | some r ↦ some (r.0, if first then join b r.1 else b ∷ r.1) ])
further_back b first base limit none lt here h = tt
further_back b true base limit (some r) lt here h = join-Tiles b r.1 base limit lt (here, h)
further_back b false base limit (some r) lt here h = (here, h)

allocate_loop-Tiles :
    (bytes a : ℕ) (bs : List Block) (base limit : ℕ)
    → limit < 2 ^ 32
    → Tiles base bs limit
    → Allocated base limit (allocate_loop bytes a bs)
unfolding allocate_loop
allocate_loop-Tiles bytes a [] base limit lt h = tt
allocate_loop-Tiles bytes a (b ∷ bs) base limit lt h =
    let later =
      further b base limit (allocate_loop bytes a bs) h.0
        (allocate_loop-Tiles bytes a bs (base + b.bytes) limit lt h.1) in
    elim (Bool-cases (is_taken b)) [
      | inl busy ↦ rw busy later
      | inr idle ↦ elim (Option-cases (place bytes a b)) [
        | inl small ↦ rw (idle, small) later
        | inr (user, fits) ↦ rw (idle, fits) (split-Tiles bytes user b bs base limit lt h)
      ]
    ]

release_loop-Tiles :
    (p : ℕ) (bs : List Block) (base limit : ℕ)
    → limit < 2 ^ 32
    → Tiles base bs limit
    → Released base limit (release_loop p bs)
unfolding release_loop
release_loop-Tiles p [] base limit lt h = tt
release_loop-Tiles p (b ∷ bs) base limit lt h =
    let later =
      further_back b (is_first p bs) base limit (release_loop p bs) lt h.0
        (release_loop-Tiles p bs (base + b.bytes) limit lt h.1) in
    elim (Bool-cases (b.user == p)) [
      | inl it ↦ rw it (join-Tiles (record b { user = 0 }) bs base limit lt h)
      | inr other ↦ rw other later
    ]

pub data Call : Type 0 where
  allocates : ℕ → ℕ → Call
  releases : ℕ → Call

unfoldable pub step : State → Call → State
unfolding try_allocate release
step s (allocates bytes a) = (try_allocate bytes a s).1
step s (releases p) = (release p s).1

unfoldable pub run : State → List Call → State
unfolding step
run s [] = s
run s (c ∷ cs) = run (step s c) cs

try_allocate-Tiles :
    (bytes a : ℕ) (s : State) (base limit : ℕ)
    → limit < 2 ^ 32
    → Tiles base s.blocks limit
    → Tiles base (try_allocate bytes a s).1.blocks limit
unfolding try_allocate
try_allocate-Tiles bytes a s base limit lt h =
    elim (Bool-cases (bytes == 0 || not (is_power_of_two a))) [
      | inl refused ↦ rw refused h
      | inr fine ↦ elim (Option-cases (allocate_loop bytes a s.blocks)) [
        | inl e ↦ rw (fine, e) h
        | inr (r, e) ↦
            rw (fine, e)
              (subst (Allocated base limit) e
                (allocate_loop-Tiles bytes a s.blocks base limit lt h))
      ]
    ]

release-Tiles :
    (p : ℕ) (s : State) (base limit : ℕ)
    → limit < 2 ^ 32
    → Tiles base s.blocks limit
    → Tiles base (release p s).1.blocks limit
unfolding release
release-Tiles p s base limit lt h = elim (Bool-cases (p == 0)) [
  | inl null ↦ rw null h
  | inr fine ↦ elim (Option-cases (release_loop p s.blocks)) [
    | inl e ↦ rw (fine, e) h
    | inr (r, e) ↦
        rw (fine, e) (subst (Released base limit) e (release_loop-Tiles p s.blocks base limit lt h))
  ]
]

run-Tiles_any :
    (base limit : ℕ) (cs : List Call) (s : State)
    → limit < 2 ^ 32
    → Tiles base s.blocks limit
    → Tiles base (run s cs).blocks limit
unfolding run step
run-Tiles_any base limit [] s lt h = h
run-Tiles_any base limit (allocates bytes a ∷ cs) s lt h =
    run-Tiles_any base limit cs (try_allocate bytes a s).1 lt
      (try_allocate-Tiles bytes a s base limit lt h)
run-Tiles_any base limit (releases p ∷ cs) s lt h =
    run-Tiles_any base limit cs (release p s).1 lt (release-Tiles p s base limit lt h)

-- Where a new arena accepts its storage, its blocks tile that storage after any calls: they follow
-- one another from its first address to its end, so that no two overlap and no byte is lost.
pub run-Tiles :
    (storage bytes : ℕ) (cs : List Call)
    → (initialize storage bytes empty).0 ≡ true
    → Tiles storage (run (initialize storage bytes empty).1 cs).blocks (storage + bytes)
unfolding initialize
run-Tiles storage bytes cs ok =
    run-Tiles_any storage (storage + bytes) cs (initialize storage bytes empty).1 (ground arith)
      (ground arith)
