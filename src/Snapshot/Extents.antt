-- ===== src/Snapshot/Extents.antt =====
-- Lists of free extents: in order, within bounds, and the addresses that they cover.
use mikos.Prelude.{
  ℕ, ◌+◌, ◌-◌, ◌%◌, ◌^◌, ◌≤◌, ◌<◌, ◌≡◌, refl, subst, List, [], ◌∷◌, Option, none, some, Bool, false,
  not, ◌&&◌, ◌||◌, ◌==◌, ltb, leb, u32, arith, length, inl, inr, Bool-cases, Option-cases,
}
use mikos.Slots.{All}
use mikos.Snapshot.{Extent, take_first}

-- Extents in ascending order between two addresses, none empty, all on multiples of 16.
abbrev pub Chain : ℕ → List Extent → ℕ → Type 0
Chain lo [] hi = lo ≤ hi
Chain lo (e ∷ es) hi =
    (lo ≤ e.address)
    × (0 < e.size)
    × (e.address % 16 ≡ 0)
    × (e.size % 16 ≡ 0)
    × Chain (e.address + e.size) es hi

abbrev pub total : List Extent → ℕ
total [] = 0
total (e ∷ es) = e.size + total es

-- Whether an address lies in an extent, and in some extent of a list.
abbrev pub inside : Extent → ℕ → Bool
inside e k = leb e.address k && ltb k (e.address + e.size)

abbrev pub is_free : List Extent → ℕ → Bool
is_free [] k = false
is_free (e ∷ es) k = inside e k || is_free es k

pub Chain-le : (lo hi : ℕ) (es : List Extent) → Chain lo es hi → lo + total es ≤ hi
Chain-le lo hi [] c = omega arith
Chain-le lo hi (e ∷ es) c = omega (arith, Chain-le (e.address + e.size) hi es c.4)

pub Chain-weaken : (lo lo' hi : ℕ) (es : List Extent) → lo ≤ lo' → Chain lo' es hi → Chain lo es hi
Chain-weaken lo lo' hi [] h c = omega arith
Chain-weaken lo lo' hi (e ∷ es) h c = (omega arith, c.1, c.2, c.3, c.4)

-- Below the bound of a chain nothing is free.
pub is_free_below :
    (lo hi : ℕ) (es : List Extent) (k : ℕ) → Chain lo es hi → k < lo → is_free es k ≡ false
is_free_below lo hi [] k c h = refl
is_free_below lo hi (e ∷ es) k c h = ground (arith, is_free_below (e.address + e.size) hi es k)

pub is_free_above :
    (lo hi : ℕ) (es : List Extent) (k : ℕ) → Chain lo es hi → hi ≤ k → is_free es k ≡ false
is_free_above lo hi [] k c h = refl
is_free_above lo hi (e ∷ es) k c h =
    ground (arith, Chain-le (e.address + e.size) hi es, is_free_above (e.address + e.size) hi es k)

-- What `allocate` takes from a chain, and what it leaves.
pub record Took (lo hi size : ℕ) (es : List Extent) (x : Extent) (rest : List Extent) : Type 0 where
  pub chain : Chain lo rest hi
  pub taken_size : x.size ≡ size
  pub taken_from : lo ≤ x.address
  pub taken_to : x.address + size ≤ hi
  pub taken_aligned : x.address % 16 ≡ 0
  pub sum : total rest + size ≡ total es
  pub count : length rest ≤ length es

abbrev TookPair : ℕ → ℕ → ℕ → List Extent → Extent × List Extent → Type 0
TookPair lo hi size es r = Took lo hi size es r.0 r.1

-- Two values of one option are the same.
same_value {ℓ} :
    {A : Type 0} (P : A → Type ℓ) {o : Option A} {a b : A} → o ≡ some a → o ≡ some b → P a → P b
same_value P e h p = subst P (cc) p

pub take_first-Took :
    (lo hi size : ℕ) (es : List Extent) (x : Extent) (rest : List Extent)
    → 0 < size
    → size % 16 ≡ 0
    → hi < 2 ^ 32
    → Chain lo es hi
    → take_first size es ≡ some (x, rest)
    → Took lo hi size es x rest
unfolding take_first
take_first-Took lo hi size [] x rest pos al b c h = cc
take_first-Took lo hi size (e ∷ es) x rest pos al b c h = elim (Bool-cases (ltb e.size size)) [
  | inr large ↦ elim (Bool-cases (e.size - size == 0)) [
    | inl whole ↦ same_value (TookPair lo hi size (e ∷ es)) {a = (front, es)} (ground arith) h (
        ground (
          arith,
          Chain-le (e.address + e.size) hi es c.4,
          Chain-weaken lo (e.address + e.size) hi es,
        ))
    | inr part ↦
        same_value (TookPair lo hi size (e ∷ es))
          {a = (front, record { address = u32 (e.address + size); size = e.size - size } ∷ es)}
          (ground arith) h
          (ground (
            arith,
            Chain-le (e.address + e.size) hi es c.4,
            Chain-weaken (u32 (e.address + size) + (e.size - size)) (e.address + e.size) hi es,
          ))
  ]
  | inl small ↦ elim (Option-cases (take_first size es)) [
    | inl missing ↦ ground arith
    | inr ((y, later), found) ↦
        same_value (TookPair lo hi size (e ∷ es)) {a = (y, e ∷ later)} (ground arith) h (
          ground
            (arith, take_first-Took (e.address + e.size) hi size es y later pos al b c.4 found))
  ]
]
  where
    front : Extent
    front = record { address = e.address; size = size }

-- What `allocate` takes was free, and is so no more; nothing else changes.
pub take_first-is_free :
    (lo hi size : ℕ) (es : List Extent) (x : Extent) (rest : List Extent) (k : ℕ)
    → 0 < size
    → hi < 2 ^ 32
    → Chain lo es hi
    → take_first size es ≡ some (x, rest)
    → (is_free rest k ≡ (is_free es k && not (inside x k)))
      × ((inside x k && not (is_free es k)) ≡ false)
unfolding take_first
take_first-is_free lo hi size [] x rest k pos b c h = cc
take_first-is_free lo hi size (e ∷ es) x rest k pos b c h = elim (Bool-cases (ltb e.size size)) [
  | inr large ↦ ground (
    arith,
    Chain-le (e.address + e.size) hi es c.4,
    is_free_below (e.address + e.size) hi es k c.4,
  )
  | inl small ↦ elim (Option-cases (take_first size es)) [
    | inl missing ↦ ground arith
    | inr ((y, later), found) ↦ ground (
      arith,
      is_free_below (e.address + e.size) hi es k c.4,
      take_first-is_free (e.address + e.size) hi size es y later k pos b c.4 found,
    )
  ]
]

-- No extent is found only where all are too small.
pub take_first-none :
    (size : ℕ) (es : List Extent) → take_first size es ≡ none → All (λ e. e.size < size) es
unfolding take_first
take_first-none size [] h = tt
take_first-none size (e ∷ es) h = elim (Option-cases (take_first size es)) [
  | inl missing ↦ (ground arith, take_first-none size es missing)
  | inr ((y, later), found) ↦ ground arith
]
