-- ===== src/Snapshot/Invariant.antt =====
-- The arena keeps its extents in order and its bytes accounted for, and never hands a byte out twice.
use mikos.Slots.{All}
use mikos.Prelude.{
  if_intro, ℕ, ◌+◌, ◌-◌, ◌%◌, ◌^◌, ◌≤◌, ◌<◌, ◌≡◌, ◌⊎◌, refl, List, [], ◌∷◌, none, some, Bool, false,
  not, ◌&&◌, ◌||◌, if◌then◌else◌, ◌==◌, ltb, leb, u32, arith, length, inl, inr, Bool-cases,
  Option-cases,
}
use mikos.Snapshot.{
  Extent, Status, success, invalid_argument, Arena, nothing, align_up, align_down, initialize,
  take_first, allocate, largest_from, largest_available,
}
use mikos.Snapshot.Extents.{
  Chain, total, inside, is_free, Took, take_first-Took, take_first-is_free, take_first-none,
}

pub record IsValid (extents : ℕ) (a : Arena) : Type 0 where
  pub nonzero : 0 < a.start
  pub nonempty : a.start < a.stop
  pub bounded : a.stop < 2 ^ 32
  pub start_aligned : a.start % 16 ≡ 0
  pub stop_aligned : a.stop % 16 ≡ 0
  pub chain : Chain a.start a.free a.stop
  pub count : length a.free ≤ extents
  pub sum : total a.free + a.allocated ≡ a.stop - a.start

abbrev pub Initialized : ℕ → ℕ → ℕ → Arena → Status × Arena → Type 0
Initialized extents first last a r =
    ((r.0 ≡ success)
      × IsValid extents r.1
      × (first ≤ r.1.start)
      × (r.1.stop ≤ last)
      × (r.1.allocated ≡ 0))
    ⊎ ((r.0 ≡ invalid_argument) × (r.1 ≡ a))

-- `initialize` makes a valid arena with nothing allocated, inside the bounds that it was given, or
-- refuses them and changes nothing.
pub initialize_lem :
    (extents first last : ℕ) (a : Arena)
    → 0 < extents
    → first < 2 ^ 32
    → last < 2 ^ 32
    → Initialized extents first last a (initialize first last a)
unfolding initialize
initialize_lem extents first last a pos hf hl =
    if_intro (Initialized extents first last a) (start == 0 || leb stop start) (invalid_argument, a)
      (success, made) (λ refused. inr (refl, refl)) (λ fine. inl (ground arith))
  where
    start : ℕ
    start = align_up first

    stop : ℕ
    stop = align_down last

    made : Arena
    made = record {
      free = record { address = start; size = stop - start } ∷ [];
      start = start;
      stop = stop;
      allocated = 0;
    }

-- It refuses no range that holds a block of 16 aligned bytes past the address 0.
pub initialize-success :
    (first last m : ℕ) (a : Arena)
    → last < 2 ^ 32
    → 0 < m
    → m % 16 ≡ 0
    → first ≤ m
    → m + 16 ≤ last
    → 0 < first
    → (initialize first last a).0 ≡ success
unfolding initialize
initialize-success first last m a hl pos al lo hi p = ground arith

-- What `allocate` hands out, if anything.
abbrev pub Allocated : ℕ → ℕ → Arena → Extent × Arena → Type 0
Allocated extents requested a r =
    IsValid extents r.1
    × (((r.0 ≡ nothing) × (r.1 ≡ a))
        ⊎ ((0 < requested)
            × (requested ≤ r.0.size)
            × (r.0.size < requested + 16)
            × (a.start ≤ r.0.address)
            × (r.0.address + r.0.size ≤ a.stop)
            × (r.0.address % 16 ≡ 0)
            × (r.1.allocated ≡ a.allocated + r.0.size)))

-- What `take_first` found and left makes a valid arena.
allocate_found :
    (extents requested : ℕ) (a : Arena) (x : Extent) (rest : List Extent)
    → IsValid extents a
    → 0 < requested
    → requested ≤ 2 ^ 32 - 1 - 15
    → take_first (align_up requested) a.free ≡ some (x, rest)
    → Allocated extents requested a
        (x, record a { free = rest; allocated = u32 (a.allocated + align_up requested) })
allocate_found extents requested a x rest v pos le found = ground (arith, took)
  where
    took : Took a.start a.stop (align_up requested) a.free x rest
    took =
        take_first-Took a.start a.stop (align_up requested) a.free x rest (omega arith)
          (omega arith) v.bounded v.chain found

-- `allocate` either hands out nothing and changes nothing, or what `take_first` found.
abbrev pub Served : ℕ → Arena → Extent → List Extent → Type 0
Served requested a x rest =
    (0 < requested)
    × (requested ≤ 2 ^ 32 - 1 - 15)
    × (take_first (align_up requested) a.free ≡ some (x, rest))
    × (allocate requested a
        ≡ (x, record a { free = rest; allocated = u32 (a.allocated + align_up requested) }))

pub allocate-cases :
    (requested : ℕ) (a : Arena)
    → (allocate requested a ≡ (nothing, a))
      ⊎ ((x : Extent) × (rest : List Extent) × Served requested a x rest)
unfolding allocate
allocate-cases requested a = elim (Option-cases (take_first (align_up requested) a.free)) [
  | inl missing ↦ inl (ground arith)
  | inr ((x, rest), found) ↦ elim (Bool-cases refused) [
    | inl bad ↦ inl (ground arith)
    | inr fine ↦ inr (x, rest, (ground arith, ground arith, found, ground arith))
  ]
]
  where
    refused : Bool
    refused = requested == 0 || a.start == 0 || ltb (2 ^ 32 - 1 - 15) requested

-- `allocate` keeps the arena valid. It hands out nothing and changes nothing, or hands out at
-- least what was asked for, less than 16 bytes more, aligned, inside the arena and accounted for.
pub allocate_lem :
    (extents requested : ℕ) (a : Arena)
    → IsValid extents a
    → Allocated extents requested a (allocate requested a)
allocate_lem extents requested a v = elim (allocate-cases requested a) [
  | inl nope ↦ rw nope (v, inl (refl, refl))
  | inr (x, rest, (pos, le, found, served)) ↦
      rw served (allocate_found extents requested a x rest v pos le found)
]

-- What `allocate` hands out was free, and is no longer; no other address changes.
pub allocate-is_free :
    (extents requested k : ℕ) (a : Arena)
    → IsValid extents a
    → let (x, a') = allocate requested a in
      (is_free a'.free k ≡ (is_free a.free k && not (inside x k)))
      × ((inside x k && not (is_free a.free k)) ≡ false)
allocate-is_free extents requested k a v = elim (allocate-cases requested a) [
  | inl nope ↦ rw nope (ground arith)
  | inr (x, rest, (pos, le, found, served)) ↦ rw served (
      take_first-is_free a.start a.stop (align_up requested) a.free x rest k (omega arith) v.bounded
        v.chain found)
]

largest_from-ge : (m : ℕ) (es : List Extent) → m ≤ largest_from m es
unfolding largest_from
largest_from-ge m [] = omega arith
largest_from-ge m (e ∷ es) = ground (arith, largest_from-ge m es, largest_from-ge e.size es)

largest_from-lt :
    (m n : ℕ) (es : List Extent) → m < n → All (λ e. e.size < n) es → largest_from m es < n
unfolding largest_from
largest_from-lt m n [] h all = h
largest_from-lt m n (e ∷ es) h all =
    largest_from-lt (if ltb m e.size then e.size else m) n es (ground arith) all.1

take_first-largest :
    (m size : ℕ) (es : List Extent) (r : Extent × List Extent)
    → take_first size es ≡ some r
    → size ≤ largest_from m es
unfolding take_first largest_from
take_first-largest m size [] r h = cc
take_first-largest m size (e ∷ es) r h = elim (Bool-cases (ltb e.size size)) [
  | inr large ↦ ground (arith, largest_from-ge m es, largest_from-ge e.size es)
  | inl small ↦ elim (Option-cases (take_first size es)) [
    | inl missing ↦ ground arith
    | inr (q, found) ↦ take_first-largest (if ltb m e.size then e.size else m) size es q found
  ]
]

-- For a size in range, a valid arena hands out nothing exactly when its largest free extent is
-- smaller than the size rounded up.
pub allocate-largest :
    (extents requested : ℕ) (a : Arena)
    → IsValid extents a
    → 0 < requested
    → requested ≤ 2 ^ 32 - 16
    → ((allocate requested a).0.size == 0) ≡ ltb (largest_available a) (align_up requested)
unfolding largest_available allocate
allocate-largest extents requested a v pos le =
    elim (Option-cases (take_first (align_up requested) a.free)) [
      | inl missing ↦
          let small : largest_from 0 a.free < align_up requested =
            largest_from-lt 0 (align_up requested) a.free (omega arith)
              (take_first-none _ a.free missing) in
          rw (refused missing) (ground arith)
      | inr ((x, rest), found) ↦
          let large : align_up requested ≤ largest_from 0 a.free =
            take_first-largest 0 (align_up requested) a.free _ found in
          let took =
            take_first-Took a.start a.stop (align_up requested) a.free x rest (omega arith)
              (omega arith) v.bounded v.chain found in
          rw (granted x rest found) (ground (arith, took))
    ]
  where
    refused : take_first (align_up requested) a.free ≡ none → allocate requested a ≡ (nothing, a)
    refused e = ground arith

    granted :
        (x : Extent) (rest : List Extent)
        → take_first (align_up requested) a.free ≡ some (x, rest)
        → allocate requested a
          ≡ (x, record a { free = rest; allocated = u32 (a.allocated + align_up requested) })
    granted x rest e = ground arith
