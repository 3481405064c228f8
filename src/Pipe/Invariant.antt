-- ===== src/Pipe/Invariant.antt =====
-- What every operation on the table keeps, and what it makes of the views of handles.
use mikos.Prelude.{
  ℕ, ◌+◌, ◌^◌, ◌≤◌, ◌<◌, ◌≡◌, refl, ap, fun_ext, ◌∙◌, Option, none, some, Bool, true, false,
  if◌then◌else◌, arith, length, length-set, set, get_elem?, replicate,
}
use mikos.Slots.{
  Handle, same_handle, All, All-set, All-get_elem?, resolve-some, resolve-set_live,
  resolve-set_dead, resolve-set_new,
}
use mikos.Ring.Refine.{IsCapacity, contents}
use mikos.Ring.Refine
use mikos.Pipe.{Limits, Pipe, Table, is_used, generation_of, vacant, find}
use mikos.Pipe.Spec.{View, Views, update}

-- The `static_assert`s, and a buffer whose indices do not wrap.
pub record IsLimits (c : Limits) : Type 0 where
  pub table_in : c.table ≤ 255
  pub atomic_in : c.atomic ≤ c.buffer
  pub buffer_in : IsCapacity c.buffer

-- A pipe is in use exactly as long as some end of it is open.
abbrev pub Counted : Bool → ℕ → Type 0
Counted true n = 0 < n
Counted false n = n ≡ 0

pub record IsPipe (c : Limits) (p : Pipe) : Type 0 where
  pub ring_valid : Refine.IsValid c.buffer p.ring
  pub generation_in : p.generation < 2 ^ 16
  pub readers_in : p.readers < 2 ^ 16
  pub writers_in : p.writers < 2 ^ 16
  pub counted : Counted p.used (p.readers + p.writers)

pub record IsValid (c : Limits) (t : Table) : Type 0 where
  pub slots : length t ≡ c.table
  pub pipes : All (IsPipe c) t

abbrev pub view_pipe : Limits → Pipe → View
view_pipe c p = record {
  queue = contents c.buffer p.ring;
  readers = p.readers;
  writers = p.writers;
}

abbrev pub view_of : Limits → Option Pipe → Option View
view_of c none = none
view_of c (some p) = some (view_pipe c p)

abbrev pub view : Limits → Table → Views
view c t h = view_of c (find c t h)

view_of-if :
    (c : Limits) (b : Bool) (x y : Option Pipe)
    → view_of c (if b then x else y) ≡ (if b then view_of c x else view_of c y)
view_of-if c true x y = refl
view_of-if c false x y = refl

-- A table of empty slots, as the program starts.
pub boot : Limits → Table
boot c = replicate c.table (vacant c)

module _ (c : Limits) (limits : IsLimits c) where
  pub vacant_lem : IsPipe c (vacant c)
  unfolding vacant
  vacant_lem = record {
    ring_valid = (Refine.fresh_lem c.buffer limits.buffer_in).0;
    generation_in = omega arith;
    readers_in = omega arith;
    writers_in = omega arith;
    counted = omega arith;
  }

  pub set-IsValid :
      (t : Table) (i : ℕ) (p : Pipe) → IsValid c t → IsPipe c p → IsValid c (set t i p)
  set-IsValid t i p v ok = record {
    slots = length-set t i p ∙ v.slots;
    pipes = All-set (IsPipe c) t i v.pipes ok;
  }

  pub find-IsPipe :
      (t : Table) (h : Handle) (p : Pipe) → IsValid c t → find c t h ≡ some p → IsPipe c p
  unfolding find
  find-IsPipe t h p v e =
      All-get_elem? (IsPipe c) t h.slot v.pipes
        (resolve-some is_used generation_of c.table t h p e).1

  -- Writing a pipe back that stays in use changes the view of its handle, and no other.
  pub view-set_live :
      (t : Table) (h : Handle) (p p' : Pipe)
      → IsValid c t
      → find c t h ≡ some p
      → p'.used ≡ true
      → p'.generation ≡ p.generation
      → view c (set t h.slot p') ≡ update (view c t) h (some (view_pipe c p'))
  unfolding find
  view-set_live t h p p' v e u g = fun_ext (λ j.
      ap (view_of c) (resolve-set_live is_used generation_of c.table t h j p p' v.slots e u g)
      ∙ view_of-if c (same_handle h j) (some p') (find c t j))

  -- Giving its slot up leaves its handle with nothing.
  pub view-set_dead :
      (t : Table) (h : Handle) (p p' : Pipe)
      → IsValid c t
      → find c t h ≡ some p
      → p'.used ≡ false
      → view c (set t h.slot p') ≡ update (view c t) h none
  unfolding find
  view-set_dead t h p p' v e u = fun_ext (λ j.
      ap (view_of c) (resolve-set_dead is_used generation_of c.table t h j p p' v.slots e u)
      ∙ view_of-if c (same_handle h j) none (find c t j))

  -- A pipe in an unused slot gives its handle a view.
  pub view-set_new :
      (t : Table) (h : Handle) (p p' : Pipe)
      → IsValid c t
      → h.slot < c.table
      → get_elem? t h.slot ≡ some p
      → p.used ≡ false
      → p'.used ≡ true
      → p'.generation ≡ h.generation
      → view c (set t h.slot p') ≡ update (view c t) h (some (view_pipe c p'))
  unfolding find
  view-set_new t h p p' v lt e u u' g = fun_ext (λ j.
      ap (view_of c) (resolve-set_new is_used generation_of c.table t h j p p' v.slots lt e u u' g)
      ∙ view_of-if c (same_handle h j) (some p') (find c t j))
