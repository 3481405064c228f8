-- ===== src/Pipe/Tests.antt =====
-- Pipes at work, and the theorems at a table with one pipe.
use mikos.Prelude.{◌+◌, ◌≡◌, ◌⊎◌, refl, List, [], ◌∷◌, ◌++◌, none, some, true, false, arith}
use mikos.Slots.{Handle, next_generation, find_index, resolve}
use mikos.Pipe.{
  read_end, write_end, success, no_space, Limits, Pipe, Table, create, find, retain, release, read,
  write, readable, writable, used,
}
use mikos.Pipe.Spec
use mikos.Pipe.Spec.{View, Views, update}
use mikos.Pipe.Invariant.{IsLimits, IsValid, view}
use mikos.Pipe.Refine.{retain_refines, release_refines, write_refines, read_refines}
use mikos.Pipe.Lifetime.{new_view, create_refines, release-create}
use mikos.Pipe.Ready.{has_input, is_success, readable-read, writable-write}
use mikos.Pipe.Stream.{Call, put, get, run, run_fifo}

abbrev small : Limits
small = record { table = 2; buffer = 3; atomic = 2 }

abbrev small-IsLimits : IsLimits small
small-IsLimits = record {
  table_in = omega arith;
  atomic_in = omega arith;
  buffer_in = record { positive = omega arith; bounded = omega arith };
}

-- 8, then 9, with one reader left and no writer.
abbrev last_reader : Pipe
last_reader = record {
  ring = record { bytes = 9 ∷ 7 ∷ 8 ∷ []; head = 2; size = 2 };
  generation = 5;
  readers = 1;
  writers = 0;
  used = true;
}

abbrev both_ends : Pipe
both_ends = record last_reader { writers = 1 }

abbrev free_slot : Pipe
free_slot = record {
  ring = record { bytes = 0 ∷ 0 ∷ 0 ∷ []; head = 0; size = 0 };
  generation = 0xffff;
  readers = 0;
  writers = 0;
  used = false;
}

abbrev shared : Table
shared = free_slot ∷ both_ends ∷ []

abbrev ending : Table
ending = free_slot ∷ last_reader ∷ []

abbrev handle : Handle
handle = record { generation = 5; slot = 1 }

abbrev shared-IsValid : IsValid small shared
shared-IsValid = omega arith

abbrev ending-IsValid : IsValid small ending
ending-IsValid = omega arith

abbrev shared_view : View
shared_view = record { queue = 8 ∷ 9 ∷ []; readers = 1; writers = 1 }

-- The generation of a slot goes from 65535 to 1.
create_wraps : (create small shared).1 ≡ record { generation = 1; slot = 0 }
unfolding create find_index next_generation
create_wraps = refl

retain_test :
    let (s, t') = retain small shared handle read_end in
    IsValid small t' × ((s, view small t') ≡ Spec.retain (view small shared) handle read_end)
retain_test = retain_refines small small-IsLimits shared handle read_end shared-IsValid

release_refines_example :
    let (s, t') = release small shared handle write_end in
    IsValid small t' × ((s, view small t') ≡ Spec.release (view small shared) handle write_end)
release_refines_example =
    release_refines small small-IsLimits shared handle write_end shared-IsValid

write_refines_example :
    let (s, n, t') = write small shared handle (4 ∷ 5 ∷ 6 ∷ []) 3 in
    IsValid small t'
    × ((s, n, view small t') ≡ Spec.write small (view small shared) handle (4 ∷ 5 ∷ 6 ∷ []) 3)
write_refines_example =
    write_refines small small-IsLimits shared handle (4 ∷ 5 ∷ 6 ∷ []) 3 (omega arith) shared-IsValid

read_refines_example :
    let (s, n, out, t') = read small shared handle 1 in
    IsValid small t' × ((s, n, out, view small t') ≡ Spec.read (view small shared) handle 1)
read_refines_example = read_refines small small-IsLimits shared handle 1 shared-IsValid

create_refines_example :
    let (s, h, t') = create small shared in
    IsValid small t'
    × (((s ≡ success)
          × (view small shared h ≡ none)
          × (view small t' ≡ update (view small shared) h (some new_view))
          × (used t' ≡ used shared + 1))
        ⊎ ((s ≡ no_space) × (t' ≡ shared) × (used shared ≡ 2)))
create_refines_example = create_refines small small-IsLimits shared shared-IsValid

view-ending : view small ending handle ≡ some (record shared_view { writers = 0 })
unfolding find resolve
view-ending = refl

release-create_example :
    let (s, t') = release small ending handle read_end in
    (s ≡ success) × (view small t' handle ≡ none) × (view small (create small t').2 handle ≡ none)
release-create_example =
    release-create small small-IsLimits ending handle read_end _ ending-IsValid view-ending refl
      (omega arith)

view-shared : view small shared handle ≡ some shared_view
unfolding find resolve
view-shared = refl

abbrev calls : List Call
calls = get 1 ∷ put (1 ∷ 2 ∷ []) ∷ get 5 ∷ []

run_fifo_example :
    let (taken, given, t') = run small handle shared calls in
    (w : View) × (view small t' handle ≡ some w) × (8 ∷ 9 ∷ taken ≡ given ++ w.queue)
run_fifo_example =
    run_fifo small small-IsLimits handle calls shared shared_view shared-IsValid view-shared

readable-read_example : readable small ending handle ≡ has_input (read small ending handle 4).0
readable-read_example = readable-read small ending handle 4 (omega arith)

writable_test : writable small shared handle ≡ is_success (write small shared handle (4 ∷ []) 1).0
writable_test =
    writable-write small shared handle (4 ∷ []) small-IsLimits shared-IsValid (omega arith)
      (omega arith)
