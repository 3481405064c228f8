-- ===== src/Pipe/Ready.antt =====
-- What `readable` and `writable` tell a poll: how a call made now would end.
use mikos.Prelude.{
  ℕ, ◌≤◌, ◌<◌, ◌≡◌, inl, inr, none, some, ◌==◌, List, Bool, true, false, arith, length,
  Option-cases,
}
use mikos.Slots.{Handle}
use mikos.Ring
use mikos.Ring.Refine.{write_lem, free_space_lem}
use mikos.Pipe.{
  Status, End, read_end, write_end, references, hung_up, success, end_of_file, Limits, Table, find,
  read, write, readable, writable,
}
use mikos.Pipe.Invariant.{IsLimits, IsValid, find-IsPipe, view}
use mikos.Pipe.Spec

-- A read ends at once with data or with the end of the file.
abbrev pub has_input : Status → Bool
has_input success = true
has_input end_of_file = true
has_input _ = false

abbrev pub is_success : Status → Bool
is_success success = true
is_success _ = false

-- `readable` is what a read of at least one byte would tell by its status.
pub readable-read :
    (c : Limits) (t : Table) (h : Handle) (count : ℕ)
    → 0 < count
    → readable c t h ≡ has_input (read c t h count).0
unfolding readable read Ring.empty
readable-read c t h count pos = elim (Option-cases (find c t h)) [
  | inl e ↦ ground arith
  | inr (p, e) ↦ ground arith
]

-- `writable` is what a write of one byte would tell by its status.
pub writable-write :
    (c : Limits) (t : Table) (h : Handle) (input : List ℕ)
    → IsLimits c
    → IsValid c t
    → 0 < c.atomic
    → 1 ≤ length input
    → writable c t h ≡ is_success (write c t h input 1).0
unfolding writable write Ring.full
writable-write c t h input limits v pos src = elim (Option-cases (find c t h)) [
  | inl e ↦ ground arith
  | inr (p, e) ↦
      let ok = (find-IsPipe c limits t h p v e).ring_valid in
      ground (
        arith,
        ok,
        free_space_lem c.buffer limits.buffer_in ok,
        write_lem c.buffer limits.buffer_in p.ring input 1 ok src,
      )
]

-- `references` reads the counts of the view.
pub references_lem :
    (c : Limits) (t : Table) (h : Handle) (end : End)
    → references c t h end ≡ (elim (view c t h) [ none ↦ 0 | some v ↦ Spec.ends end v ])
unfolding references
references_lem c t h read_end = ground arith
references_lem c t h write_end = ground arith

-- An end is hung up where its pipe has no end of the other kind.
pub hung_up_lem :
    (c : Limits) (t : Table) (h : Handle) (end : End)
    → hung_up c t h end ≡ (elim (view c t h) [
      | none ↦ false
      | some v ↦ Spec.ends (elim end [ read_end ↦ write_end | write_end ↦ read_end ]) v == 0
    ])
unfolding hung_up
hung_up_lem c t h read_end = ground arith
hung_up_lem c t h write_end = ground arith
