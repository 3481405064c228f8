-- ===== src/Slots.antt =====
-- The shape that the tables of pipes and of pseudo-terminals share: a fixed array of slots, and
-- handles that name a slot and the generation of its occupant.
use mathlib.Core.Path.{subst}
use native.Mathlib.Decide.{ℕ_discrete}
use mikos.Prelude.{
  ℕ, zero, suc, ◌+◌, ◌^◌, ◌<◌, ◌≡◌, ◌≢◌, inl, inr, List, [], ◌∷◌, Option, none, some, Bool, true,
  false, ◌&&◌, if◌then◌else◌, ◌==◌, leb, Bool-cases, Option-cases, u16, arith, length, get_elem?,
  get_elem?-set_self, get_elem?-set_ne, set,
}

-- `handle.generation` and `handle.slot`.
pub record Handle : Type 0 where
  pub generation : ℕ
  pub slot : ℕ

-- `operator==` of the handles.
abbrev pub same_handle : Handle → Handle → Bool
same_handle a b = a.generation == b.generation && a.slot == b.slot

-- `Handle{}`, which the failing operations return.
abbrev pub no_handle : Handle
no_handle = record { generation = 0; slot = 0xff }

-- A generation is never 0, so a handle of generation 0 names nothing.
unfoldable pub next_generation : ℕ → ℕ
next_generation g = let g' = u16 (g + 1) in if g' == 0 then 1 else g'

pub next_generation-ne : (g : ℕ) → g < 2 ^ 16 → next_generation g ≢ g
unfolding next_generation
next_generation-ne g h e = ground arith

pub next_generation-bounds : (g : ℕ) → (0 < next_generation g) × (next_generation g < 2 ^ 16)
unfolding next_generation
next_generation-bounds g = ground arith

module _ {A : Type 0} where
  -- The index of the first element that fits.
  unfoldable pub find_index : (A → Bool) → List A → Option ℕ
  find_index p [] = none
  find_index p (x ∷ xs) =
      if p x then some 0 else elim (find_index p xs) [ none ↦ none | some i ↦ some (suc i) ]

  abbrev pub All {κ} : (A → Type κ) → List A → Type κ
  All P [] = Unit
  All P (x ∷ xs) = P x × All P xs

  pub All-get_elem? {κ} :
      (P : A → Type κ) (xs : List A) (i : ℕ) {x : A} → All P xs → get_elem? xs i ≡ some x → P x
  All-get_elem? P [] i h e = cc
  All-get_elem? P (y ∷ xs) zero {x = x} h e = let same : y ≡ x = cc in subst P same h.0
  All-get_elem? P (y ∷ xs) (suc i) h e = All-get_elem? P xs i h.1 e

  pub All-set {κ} :
      (P : A → Type κ) (xs : List A) (i : ℕ) {x : A} → All P xs → P x → All P (set xs i x)
  All-set P [] i h p = h
  All-set P (y ∷ xs) zero h p = (p, h.1)
  All-set P (y ∷ xs) (suc i) h p = (h.0, All-set P xs i h.1 p)

  -- What an index found is.
  pub find_index-some :
      (p : A → Bool) (xs : List A) (i : ℕ)
      → find_index p xs ≡ some i
      → (x : A) × (get_elem? xs i ≡ some x) × (p x ≡ true) × (i < length xs)
  unfolding find_index
  find_index-some p [] i e = cc
  find_index-some p (x ∷ xs) i e = elim (Bool-cases (p x)) [
    | inl fits ↦ (x, ground arith, fits, ground arith)
    | inr not_it ↦ elim (Option-cases (find_index p xs)) [
      | inl missing ↦ ground arith
      | inr (j, at_j) ↦
          let (y, found, fits, below) = find_index-some p xs j at_j in
          (y, ground arith, fits, ground arith)
    ]
  ]

  -- Nothing is found where nothing fits.
  pub find_index-none :
      (p : A → Bool) (xs : List A) → find_index p xs ≡ none → All (λ x. p x ≡ false) xs
  unfolding find_index
  find_index-none p [] e = tt
  find_index-none p (x ∷ xs) e = (ground arith, find_index-none p xs (ground arith))

module _ {A : Type 0} (used : A → Bool) (generation : A → ℕ) (capacity : ℕ) where
  -- The occupant that a handle's slot and generation name.
  live : Option A → ℕ → Option A
  live none g = none
  live (some a) g = if used a && generation a == g then some a else none

  -- `find` of the tables.
  unfoldable pub resolve : List A → Handle → Option A
  unfolding live
  resolve slots h = if leb capacity h.slot then none else live (get_elem? slots h.slot) h.generation

  -- What a handle names is in use, in its slot, of its generation.
  pub resolve-some :
      (slots : List A) (h : Handle) (a : A)
      → resolve slots h ≡ some a
      → (h.slot < capacity)
        × (get_elem? slots h.slot ≡ some a)
        × (used a ≡ true)
        × (generation a ≡ h.generation)
  unfolding resolve
  resolve-some slots h a e = ground arith

  pub resolve-set :
      (slots : List A) (i : ℕ) (a : A) (h : Handle)
      → length slots ≡ capacity
      → i < capacity
      → resolve (set slots i a) h ≡ (
          if i == h.slot
          then (if used a && generation a == h.generation then some a else none)
          else resolve slots h)
  unfolding resolve
  resolve-set slots i a h len lt = elim (ℕ_discrete i h.slot) [
    | yes same ↦ ground (arith, get_elem?-set_self slots i a)
    | no other ↦ ground (arith, get_elem?-set_ne slots a other)
  ]

  -- A slot that is not in use answers to no handle.
  pub resolve-unused :
      (slots : List A) (h : Handle) {a : A}
      → get_elem? slots h.slot ≡ some a
      → used a ≡ false
      → resolve slots h ≡ none
  unfolding resolve
  resolve-unused slots h e u = ground arith

  -- Writing back an occupant changes what its own handle names, and no other.
  pub resolve-set_live :
      (slots : List A) (h j : Handle) (a a' : A)
      → length slots ≡ capacity
      → resolve slots h ≡ some a
      → used a' ≡ true
      → generation a' ≡ generation a
      → resolve (set slots h.slot a') j ≡ (if same_handle h j then some a' else resolve slots j)
  unfolding resolve
  resolve-set_live slots h j a a' len e u g = elim (ℕ_discrete h.slot j.slot) [
    | yes same ↦ ground (arith, resolve-set slots h.slot a' j, resolve-some slots h a)
    | no other ↦ ground (arith, resolve-set slots h.slot a' j, resolve-some slots h a)
  ]

  -- So does giving the slot up.
  pub resolve-set_dead :
      (slots : List A) (h j : Handle) (a a' : A)
      → length slots ≡ capacity
      → resolve slots h ≡ some a
      → used a' ≡ false
      → resolve (set slots h.slot a') j ≡ (if same_handle h j then none else resolve slots j)
  unfolding resolve
  resolve-set_dead slots h j a a' len e u = elim (ℕ_discrete h.slot j.slot) [
    | yes same ↦ ground (arith, resolve-set slots h.slot a' j, resolve-some slots h a)
    | no other ↦ ground (arith, resolve-set slots h.slot a' j, resolve-some slots h a)
  ]

  -- A new occupant of an unused slot answers to its handle, which named nothing before.
  pub resolve-set_new :
      (slots : List A) (h j : Handle) (a a' : A)
      → length slots ≡ capacity
      → h.slot < capacity
      → get_elem? slots h.slot ≡ some a
      → used a ≡ false
      → used a' ≡ true
      → generation a' ≡ h.generation
      → resolve (set slots h.slot a') j ≡ (if same_handle h j then some a' else resolve slots j)
  unfolding resolve
  resolve-set_new slots h j a a' len lt e u u' g = elim (ℕ_discrete h.slot j.slot) [
    | yes same ↦ ground (arith, resolve-set slots h.slot a' j)
    | no other ↦ ground (arith, resolve-set slots h.slot a' j)
  ]
