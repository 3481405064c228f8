-- ===== src/Snapshot/Owners.antt =====
-- The arena under a client that gives back only what it holds: every byte has one owner.
use mikos.Prelude.{
  ℕ, zero, suc, ◌+◌, ◌^◌, ◌<◌, ◌≡◌, refl, List, [], ◌∷◌, none, some, Bool, true, false, ◌&&◌,
  if◌then◌else◌, ◌==◌, ltb, leb, arith, inl, inr, Option-cases, get_elem?,
}
use mikos.Slots.{All, All-get_elem?}
use mikos.Snapshot.{Extent, success, Arena, unset, allocate, release, invariant, erase, initialize}
use mikos.Snapshot.Extents.{inside, is_free}
use mikos.Snapshot.Invariant.{
  IsValid, allocate-cases, allocate_lem, allocate-is_free, initialize_lem,
}
use mikos.Snapshot.Release.{release-Released, Released, invariant-true}

pub data Call : Type 0 where
  get : ℕ → Call
  put : ℕ → Call

-- The arena, and the extents that the client holds.
pub record World : Type 0 where
  pub arena : Arena
  pub held : List Extent

-- `put i` gives the extent at place `i` of `held` back, if there is one.
pub step : ℕ → World → Call → World
step extents w (get n) =
    let (x, a') = allocate n w.arena in
    record { arena = a'; held = if x.size == 0 then w.held else x ∷ w.held }
step extents w (put i) = elim (get_elem? w.held i) [
  | none ↦ w
  | some x ↦
      let (s, a') = release extents w.arena x in
      record { arena = a'; held = elim s [ success ↦ erase w.held i | _ ↦ w.held ] }
]

pub run : ℕ → World → List Call → World
run extents w [] = w
run extents w (c ∷ cs) = run extents (step extents w c) cs

abbrev pub to_ℕ : Bool → ℕ
to_ℕ true = 1
to_ℕ false = 0

-- How many of the held extents an address lies in.
abbrev pub owners : List Extent → ℕ → ℕ
owners [] k = 0
owners (x ∷ xs) k = to_ℕ (inside x k) + owners xs k

abbrev pub InWord : Extent → Type 0
InWord x = (x.address < 2 ^ 32) × (x.size < 2 ^ 32)

-- The address `k` is free, or held once, exactly if it lies in the arena.
pub record Owned (extents k : ℕ) (w : World) : Type 0 where
  pub valid : IsValid extents w.arena
  pub words : All InWord w.held
  pub once :
      owners w.held k + to_ℕ (is_free w.arena.free k)
      ≡ to_ℕ (leb w.arena.start k && ltb k w.arena.stop)

owners-erase :
    (xs : List Extent) (i k : ℕ) (x : Extent)
    → get_elem? xs i ≡ some x
    → owners xs k ≡ owners (erase xs i) k + to_ℕ (inside x k)
unfolding erase
owners-erase [] i k x e = cc
owners-erase (y ∷ xs) zero k x e = ground arith
owners-erase (y ∷ xs) (suc i) k x e = ground (arith, owners-erase xs i k x e)

All-erase : (xs : List Extent) (i : ℕ) → All InWord xs → All InWord (erase xs i)
unfolding erase
All-erase [] i h = h
All-erase (y ∷ xs) zero h = h.1
All-erase (y ∷ xs) (suc i) h = (h.0, All-erase xs i h.1)

bounds-allocate :
    (n : ℕ) (a : Arena) → ((allocate n a).1.start ≡ a.start) × ((allocate n a).1.stop ≡ a.stop)
bounds-allocate n a = elim (allocate-cases n a) [
  | inl e ↦ rw e (refl, refl)
  | inr (x, rest, (_, _, _, e)) ↦ rw e (refl, refl)
]

bounds-release :
    (extents : ℕ) (a : Arena) (x : Extent)
    → ((release extents a x).1.start ≡ a.start) × ((release extents a x).1.stop ≡ a.stop)
unfolding release
bounds-release extents a x = ground arith

get-Owned :
    (extents k n : ℕ) (w : World) → Owned extents k w → Owned extents k (step extents w (get n))
unfolding step
get-Owned extents k n w o = record {
  valid = (allocate_lem extents n w.arena o.valid).0;
  words = ground (arith, allocate_lem extents n w.arena o.valid);
  once = ground (
    arith,
    allocate_lem extents n w.arena o.valid,
    allocate-is_free extents n k w.arena o.valid,
    bounds-allocate n w.arena,
  );
}

put-Owned :
    (extents k i : ℕ) (w : World) (x : Extent)
    → Owned extents k w
    → get_elem? w.held i ≡ some x
    → Owned extents k (step extents w (put i))
unfolding step
put-Owned extents k i w x o e =
    rw (e, step)
      (record {
        valid = done.0;
        words = ground (arith, done, All-erase w.held i);
        once =
            ground
              (arith, done, bounds-release extents w.arena x, owners-erase w.held i k x e, o.once);
      })
  where
    word : InWord x
    word = All-get_elem? InWord w.held i o.words e

    done : Released extents k w.arena x (release extents w.arena x)
    done = release-Released extents k w.arena x o.valid word.0 word.1

-- Every step keeps each address of the arena free or held once.
pub step-Owned :
    (extents k : ℕ) (w : World) (c : Call) → Owned extents k w → Owned extents k (step extents w c)
unfolding step
step-Owned extents k w (get n) o = get-Owned extents k n w o
step-Owned extents k w (put i) o = elim (Option-cases (get_elem? w.held i)) [
  | inl e ↦ rw (e, step) o
  | inr (x, e) ↦ put-Owned extents k i w x o e
]

run-Owned :
    (extents k : ℕ) (w : World) (cs : List Call)
    → Owned extents k w
    → Owned extents k (run extents w cs)
unfolding run
run-Owned extents k w [] o = o
run-Owned extents k w (c ∷ cs) o =
    run-Owned extents k (step extents w c) cs (step-Owned extents k w c o)

-- A fresh arena with nothing handed out.
pub boot : ℕ → ℕ → World
boot first last = record { arena = (initialize first last unset).1; held = [] }

initialize-free :
    (first last k : ℕ) (a : Arena)
    → (initialize first last a).0 ≡ success
    → let a' = (initialize first last a).1 in is_free a'.free k ≡ (leb a'.start k && ltb k a'.stop)
unfolding initialize
initialize-free first last k a e = ground arith

boot-Owned :
    (extents first last k : ℕ)
    → 0 < extents
    → first < 2 ^ 32
    → last < 2 ^ 32
    → (initialize first last unset).0 ≡ success
    → Owned extents k (boot first last)
unfolding boot
boot-Owned extents first last k pos hf hl e = record {
  valid = ground (arith, initialize_lem extents first last unset pos hf hl);
  words = tt;
  once = ground (arith, initialize-free first last k unset e);
}

-- Let `initialize` accept its bounds, and let a client then allocate and give back what it holds,
-- in any order. The arena passes its own check, and an address is free or in one extent that the
-- client holds, never both and never in two, exactly if it lies in the arena.
pub run_owned :
    (extents first last k : ℕ) (cs : List Call)
    → 0 < extents
    → first < 2 ^ 32
    → last < 2 ^ 32
    → (initialize first last unset).0 ≡ success
    → let w = run extents (boot first last) cs in
      (invariant extents w.arena ≡ true)
      × (owners w.held k + to_ℕ (is_free w.arena.free k)
          ≡ to_ℕ (leb w.arena.start k && ltb k w.arena.stop))
run_owned extents first last k cs pos hf hl e =
    let o =
      run-Owned extents k (boot first last) cs (boot-Owned extents first last k pos hf hl e) in
    (invariant-true extents _ o.valid, o.once)
