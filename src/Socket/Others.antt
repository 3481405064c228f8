-- ===== src/Socket/Others.antt =====
-- Calls on one socket leave the slots of the others alone, and store no segments under their handles.
use mikos.Prelude.{
  ℕ, zero, suc, ◌+◌, ◌≡◌, ◌≢◌, refl, List, [], ◌∷◌, Option, none, some, Bool, not, ◌&&◌, ◌==◌, leb,
  arith, length, take, drop, min, sub32, set, get_elem?, get_elem?-set_ne, inl, inr, Option-cases,
  if_intro,
}
use mikos.Slots.{All, All-set, find_index}
use mikos.Socket.{Slot, Segment, Table, slot, clear_reassembly}
use mikos.Socket.Stream.{
  room, append_received, Round, stop, again, deliver, drain_round, drain_reassembly, drain_fuel,
  drained, choose, has_key, is_none, store_reassembly, accept_segment, receive, read,
}

-- What holds of every entry, and of an entry that is empty, still holds where entries are taken.
module _ (P : Option Segment → Type 0) (empty_ok : P none) where
  abbrev RoundAll : Round → Type 0
  RoundAll (stop n s store) = All P store
  RoundAll (again n s store) = All P store

  deliver-All :
      (i : ℕ) (g : Segment) (s : Slot) (store : List (Option Segment))
      → All P store
      → RoundAll (deliver i g s store)
  unfolding deliver
  deliver-All i g s store all = let less = All-set P store i all empty_ok in ground (arith, less)

  clear_reassembly-All :
      (k : ℕ) (store : List (Option Segment)) → All P store → All P (clear_reassembly k store)
  unfolding clear_reassembly
  clear_reassembly-All k [] all = tt
  clear_reassembly-All k (none ∷ es) all = (all.0, clear_reassembly-All k es all.1)
  clear_reassembly-All k (some g ∷ es) all = (
    if_intro P (g.handle == k) none (some g) (λ gone. empty_ok) (λ kept. all.0),
    clear_reassembly-All k es all.1,
  )

  drain_round-All :
      (k : ℕ) (s : Slot) (store : List (Option Segment))
      → All P store
      → RoundAll (drain_round k s store)
  unfolding drain_round
  drain_round-All k s store all = elim (Option-cases (choose k s.receive_next 0 none store)) [
    | inl e ↦ ground (arith, clear_reassembly-All k store all)
    | inr ((i, g), e) ↦
        ground (arith, clear_reassembly-All k store all, deliver-All i g s store all)
  ]

  drain_reassembly-All :
      (fuel k : ℕ) (s : Slot) (store : List (Option Segment))
      → All P store
      → All P (drain_reassembly fuel k s store).2
  unfolding drain_reassembly
  drain_reassembly-All zero k s store all = all
  drain_reassembly-All (suc fuel) k s store all =
      next (drain_round k s store) (drain_round-All k s store all) (drain_reassembly-All fuel k)
    where
      next :
          (r : Round)
          → RoundAll r
          → ((s' : Slot) (store' : List (Option Segment))
              → All P store'
              → All P (drain_reassembly fuel k s' store').2)
          → All P (
              let x : ℕ × Slot × List (Option Segment) = elim r [
                | stop n s' store' ↦ (n, s', store')
                | again n s' store' ↦
                    let (more, s'', store'') = drain_reassembly fuel k s' store' in
                    (n + more, s'', store'')
              ] in
              x.2)
      next (stop n s' store') d later = d
      next (again n s' store') d later = later s' store' d

-- The slot `h` is as it was, and so is what holds of every entry.
pub record Kept (P : Option Segment → Type 0) (h : ℕ) (t t' : Table) : Type 0 where
  pub same_slot : get_elem? t'.slots h ≡ get_elem? t.slots h
  pub store_ok : All P t'.reassembly

module _ (P : Option Segment → Type 0) (empty_ok : P none) (h k : ℕ) (other : k ≢ h)
    (new_ok : (g : Segment) → g.handle ≡ k → P (some g)) where
  unchanged : (t : Table) → All P t.reassembly → Kept P h t t
  unchanged t all = record { same_slot = refl; store_ok = all }

  store_reassembly-All :
      (sequence : ℕ) (bytes : List ℕ) (finish : Bool) (store : List (Option Segment))
      → All P store
      → All P (store_reassembly k sequence bytes finish store).1
  unfolding store_reassembly
  store_reassembly-All sequence bytes finish store all =
      elim (Option-cases (find_index (has_key k sequence) store)) [
        | inr (i, e) ↦ ground (arith, all)
        | inl e ↦ elim (Option-cases (find_index is_none store)) [
          | inl e' ↦ ground (arith, all)
          | inr (i, e') ↦
              let entry : Segment = record {
                handle = k;
                sequence = sequence;
                finish = finish;
                bytes = bytes;
              } in
              let added = All-set P store i {x = some entry} all (new_ok entry refl) in
              ground (arith, all, added)
        ]
      ]

  drained-Kept : (t : Table) (s : Slot) → All P t.reassembly → Kept P h t (drained k t s).1
  unfolding drained
  drained-Kept t s all = record {
    same_slot = get_elem?-set_ne t.slots _ other;
    store_ok = drain_reassembly-All P empty_ok (drain_fuel t.reassembly) k s t.reassembly all;
  }

  accept_segment-Kept :
      (s : Slot) (sequence : ℕ) (input : List ℕ) (finish : Bool) (t : Table)
      → All P t.reassembly
      → Kept P h t (accept_segment k s sequence input finish t).2
  unfolding accept_segment
  accept_segment-Kept s sequence input finish t all =
      let kept = take (min (length input) (sub32 (room s) (sub32 sequence s.receive_next))) input in
      let ends =
        finish && not (leb (sub32 (room s) (sub32 sequence s.receive_next)) (length input)) in
      let s' = (append_received s kept ends).1 in
      let same = unchanged t all in
      let stored : Kept P h t
          (record t { reassembly = (store_reassembly k sequence kept ends t.reassembly).1 }) =
        record {
          same_slot = refl;
          store_ok = store_reassembly-All sequence kept ends t.reassembly all;
        } in
      let written : Kept P h t (record t { slots = set t.slots k s' }) = record {
        same_slot = get_elem?-set_ne t.slots s' other;
        store_ok = all;
      } in
      let delivered = drained-Kept t s' all in ground (arith, same, stored, written, delivered)

  pub receive-Kept :
      (sequence : ℕ) (input : List ℕ) (finish : Bool) (t : Table)
      → All P t.reassembly
      → Kept P h t (receive k sequence input finish t).2
  unfolding receive
  receive-Kept sequence input finish t all = elim (Option-cases (slot t.slots k)) [
    | inl e ↦ rw (e, receive) (unchanged t all)
    | inr (s, e) ↦
        let same = unchanged t all in
        let trimmed =
          accept_segment-Kept s s.receive_next (drop (sub32 s.receive_next sequence) input) finish t
            all in
        let whole = accept_segment-Kept s sequence input finish t all in
        rw (e, receive) (ground (arith, same, trimmed, whole))
  ]

  pub read-Kept : (size : ℕ) (t : Table) → All P t.reassembly → Kept P h t (read k size t).2
  unfolding read
  read-Kept size t all = elim (Option-cases (slot t.slots k)) [
    | inl e ↦ rw (e, read) (unchanged t all)
    | inr (s, e) ↦
        let same = unchanged t all in
        let delivered =
          drained-Kept t
            (record s {
              receive_buffer = drop (min size (length s.receive_buffer)) s.receive_buffer;
            })
            all in
        rw (e, read) (ground (arith, same, delivered))
  ]
