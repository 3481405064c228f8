-- ===== src/Socket/Drain.antt =====
-- How stored segments are delivered: no round and no store loses, repeats or mixes up bytes.
use mikos.Prelude.{
  ℕ, zero, suc, ◌+◌, ◌-◌, ◌^◌, ◌≤◌, ◌<◌, ◌≡◌, sym, subst, List, Option, none, some, Bool, false,
  not, ◌&&◌, ◌||◌, if◌then◌else◌, ◌==◌, ltb, arith, length, drop, u32, sub32, set, inl, inr,
  Option-cases, if_intro,
}
use mikos.Slots.{All, All-set, find_index}
use mikos.Socket.{
  Slot, Segment, Result, success, no_space, clear_reassembly, reassembly_segment_capacity,
}
use mikos.Socket.Stream.{
  room, append_received, choose, Round, stop, again, deliver, drain_round, drain_reassembly,
  has_key, is_none, store_reassembly,
}
use mikos.Socket.Slices.{Piece, Piece-drop}
use mikos.Socket.Reassembly.{
  EntryOk, SlotOk, Chosen, BestOk, append_received-SlotOk, choose-BestOk, clear_reassembly-EntryOk,
  Cut-rest,
}

module _ (stream : List ℕ) (base h : ℕ) (short : length stream < 2 ^ 31) where
  abbrev Entries : List (Option Segment) → Type 0
  Entries store = All (EntryOk stream base h short) store

  -- A slot and a store after some bytes were delivered.
  pub record Drained (got : List ℕ) (n : ℕ) (r : ℕ × Slot × List (Option Segment)) : Type 0 where
    pub slot_ok : SlotOk stream base h short got (n + r.0) r.1
    pub store_ok : Entries r.2

  abbrev pub RoundOk : List ℕ → ℕ → Round → Type 0
  RoundOk got n (stop k s store) = Drained got n (k, s, store)
  RoundOk got n (again k s store) = Drained got n (k, s, store)

  stays :
      (got : List ℕ) (n : ℕ) (s : Slot) (store : List (Option Segment))
      → SlotOk stream base h short got n s
      → Entries store
      → Drained got n (0, s, store)
  stays got n s store ok all = record {
    slot_ok =
        let same : n ≡ n + 0 = omega arith in
        subst (λ m. SlotOk stream base h short got m s) same ok;
    store_ok = all;
  }

  deliver-RoundOk :
      (i : ℕ) (g : Segment) (got : List ℕ) (n : ℕ) (s : Slot) (store : List (Option Segment))
      → Chosen stream base h short s.receive_next g
      → SlotOk stream base h short got n s
      → s.receive_closed ≡ false
      → Entries store
      → RoundOk got n (deliver i g s store)
  unfolding deliver
  deliver-RoundOk i g got n s store c ok open_yet all =
      if_intro (RoundOk got n) stale (again 0 s less) (if tight then stop 0 s store else last)
        (λ old_news. stays got n s less ok less_ok)
        (λ fresh.
          if_intro (RoundOk got n) tight (stop 0 s store) last
            (λ no_room. stays got n s store ok all)
            (λ fits.
              if_intro (RoundOk got n) partial (stop done.0 done.1 less) (again done.0 done.1 less)
                (λ cut_short. record { slot_ok = delivered fresh; store_ok = less_ok })
                (λ whole. record { slot_ok = delivered fresh; store_ok = less_ok })))
    where
      old : ℕ
      old = sub32 s.receive_next g.sequence

      done : ℕ × Slot
      done = append_received s (drop old g.bytes) g.finish

      less : List (Option Segment)
      less = set store i none

      less_ok : Entries less
      less_ok = All-set (EntryOk stream base h short) store i all tt

      stale : Bool
      stale = ltb (length g.bytes) old || (old == length g.bytes && not g.finish)

      tight : Bool
      tight = ltb (room s) (length g.bytes - old)

      partial : Bool
      partial = not (done.0 == length g.bytes - old)

      last : Round
      last = if partial then stop done.0 done.1 less else again done.0 done.1 less

      delivered : stale ≡ false → SlotOk stream base h short got (n + done.0) done.1
      delivered fresh =
          let (before, distance) =
            Cut-rest stream base h short n s.receive_next g c ok.within (ok.awaited open_yet) in
          let inside : old ≤ length g.bytes = ground (arith, fresh) in
          let here : c.cut.off + old ≡ n = omega arith in
          append_received-SlotOk stream base h short got n s (drop old g.bytes) g.finish ok open_yet
            (subst (λ m. Piece stream m (drop old g.bytes) g.finish) here
              (Piece-drop stream c.cut.off g.bytes g.finish old inside c.cut.piece))

  drain_round-RoundOk :
      (got : List ℕ) (n : ℕ) (s : Slot) (store : List (Option Segment))
      → SlotOk stream base h short got n s
      → Entries store
      → RoundOk got n (drain_round h s store)
  unfolding drain_round
  drain_round-RoundOk got n s store ok all =
      if_intro (RoundOk got n) s.receive_closed (stop 0 s (clear_reassembly h store)) chosen
        (λ closed.
          stays got n s (clear_reassembly h store) ok
            (clear_reassembly-EntryOk stream base h short h store all))
        (λ open_yet. elim (Option-cases best) [
          | inl e ↦ subst (λ b. RoundOk got n (from b)) (sym e) (stays got n s store ok all)
          | inr ((i, g), e) ↦
              subst (λ b. RoundOk got n (from b)) (sym e)
                (deliver-RoundOk i g got n s store
                  (subst (BestOk stream base h short s.receive_next) e
                    (choose-BestOk stream base h short s.receive_next 0 none store all tt))
                  ok open_yet all)
        ])
    where
      best : Option (ℕ × Segment)
      best = choose h s.receive_next 0 none store

      from : Option (ℕ × Segment) → Round
      from b = elim b [ none ↦ stop 0 s store | some (i, g) ↦ deliver i g s store ]

      chosen : Round
      chosen = from best

  -- A slot and a store to which `n` bytes were delivered before.
  more-Drained :
      (got : List ℕ) (n k : ℕ) (r : ℕ × Slot × List (Option Segment))
      → Drained got (n + k) r
      → Drained got n (k + r.0, r.1, r.2)
  more-Drained got n k r d =
      let same : n + k + r.0 ≡ n + (k + r.0) = omega arith in
      record {
        slot_ok = subst (λ m. SlotOk stream base h short got m r.1) same d.slot_ok;
        store_ok = d.store_ok;
      }

  pub drain-Drained :
      (fuel : ℕ) (got : List ℕ) (n : ℕ) (s : Slot) (store : List (Option Segment))
      → SlotOk stream base h short got n s
      → Entries store
      → Drained got n (drain_reassembly fuel h s store)
  unfolding drain_reassembly
  drain-Drained zero got n s store ok all = stays got n s store ok all
  drain-Drained (suc fuel) got n s store ok all =
      next (drain_round h s store) (drain_round-RoundOk got n s store ok all)
        (drain-Drained fuel got)
    where
      next :
          (r : Round)
          → RoundOk got n r
          → ((m : ℕ) (s' : Slot) (store' : List (Option Segment))
              → SlotOk stream base h short got m s'
              → Entries store'
              → Drained got m (drain_reassembly fuel h s' store'))
          → Drained got n (elim r [
            | stop k s' store' ↦ (k, s', store')
            | again k s' store' ↦
                let (more, s'', store'') = drain_reassembly fuel h s' store' in
                (k + more, s'', store'')
          ])
      next (stop k s' store') d later = d
      next (again k s' store') d later =
          more-Drained got n k (drain_reassembly fuel h s' store')
            (later (n + k) s' store' d.slot_ok d.store_ok)

  pub store-EntryOk :
      (off : ℕ) (k : ℕ) (sequence : ℕ) (bytes : List ℕ) (finish : Bool)
      (store : List (Option Segment))
      → (k ≡ h → (sequence ≡ u32 (base + off)) × Piece stream off bytes finish)
      → Entries store
      → Entries (store_reassembly k sequence bytes finish store).1
  unfolding store_reassembly
  store-EntryOk off k sequence bytes finish store new all =
      if_intro (λ (r : Result × List (Option Segment)). Entries r.1)
        (ltb reassembly_segment_capacity (length bytes)) (no_space, store)
        (known (find_index (has_key k sequence) store) (find_index is_none store)) (λ large. all)
        (λ fits. added (find_index (has_key k sequence) store) (find_index is_none store))
    where
      entry : Option Segment
      entry = some (record { handle = k; sequence = sequence; finish = finish; bytes = bytes })

      put : Option ℕ → Result × List (Option Segment)
      put slot = elim slot [ none ↦ (no_space, store) | some i ↦ (success, set store i entry) ]

      known : Option ℕ → Option ℕ → Result × List (Option Segment)
      known found slot = elim found [ some i ↦ (success, store) | none ↦ put slot ]

      added : (found slot : Option ℕ) → Entries (known found slot).1
      added (some i) slot = all
      added none none = all
      added none (some i) = All-set (EntryOk stream base h short) store i all (λ ours.
          let (at_off, piece) = new ours in record { off = off; at_off = at_off; piece = piece })
