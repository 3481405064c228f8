-- ===== src/Socket/Delivery.antt =====
-- What `receive` and `read` do with a connection, as the peer's stream sees it.
use mikos.Prelude.{
  ℕ, zero, suc, ◌+◌, ◌-◌, ◌^◌, ◌≤◌, ◌<◌, ◌≡◌, subst, List, [], ◌∷◌, Option, none, some, Bool, true,
  false, not, ◌&&◌, if◌then◌else◌, ◌==◌, leb, arith, length, take, drop, min, u32, sub32, set,
  get_elem?, get_elem?-set_self, inl, inr, Option-cases, if_intro,
}
use mikos.Slots.{All}
use mikos.Socket.{Slot, Segment, Table, Result, success, slot, is_free}
use mikos.Socket.Stream.{
  behind, room, append_received, Round, stop, again, deliver, drain_round, drain_reassembly,
  drain_fuel, drained, choose, store_reassembly, accept_segment,
}
use mikos.Socket.Slices.{Piece, Piece-take}
use mikos.Socket.Reassembly.{EntryOk, SlotOk, append_received-SlotOk}
use mikos.Socket.Drain.{drain-Drained, store-EntryOk}

append_received-live :
    (s : Slot) (bytes : List ℕ) (finish : Bool)
    → is_free s.state ≡ false
    → is_free (append_received s bytes finish).1.state ≡ false
unfolding append_received
append_received-live s bytes finish live = ground arith

abbrev live_round : Round → Bool
live_round (stop n s store) = is_free s.state
live_round (again n s store) = is_free s.state

deliver-live :
    (i : ℕ) (g : Segment) (s : Slot) (store : List (Option Segment))
    → is_free s.state ≡ false
    → live_round (deliver i g s store) ≡ false
unfolding deliver
deliver-live i g s store live =
    ground
      (arith, append_received-live s (drop (sub32 s.receive_next g.sequence) g.bytes) g.finish live)

drain_round-live :
    (h : ℕ) (s : Slot) (store : List (Option Segment))
    → is_free s.state ≡ false
    → live_round (drain_round h s store) ≡ false
unfolding drain_round
drain_round-live h s store live = elim (Option-cases (choose h s.receive_next 0 none store)) [
  | inl e ↦ ground arith
  | inr ((i, g), e) ↦ ground (arith, deliver-live i g s store live)
]

drain_reassembly-live :
    (fuel h : ℕ) (s : Slot) (store : List (Option Segment))
    → is_free s.state ≡ false
    → is_free (drain_reassembly fuel h s store).1.state ≡ false
unfolding drain_reassembly
drain_reassembly-live zero h s store live = live
drain_reassembly-live (suc fuel) h s store live =
    next (drain_round h s store) (drain_round-live h s store live) (drain_reassembly-live fuel h)
  where
    next :
        (r : Round)
        → live_round r ≡ false
        → ((s' : Slot) (store' : List (Option Segment))
            → is_free s'.state ≡ false
            → is_free (drain_reassembly fuel h s' store').1.state ≡ false)
        → (let x : ℕ × Slot × List (Option Segment) = elim r [
          | stop n s' store' ↦ (n, s', store')
          | again n s' store' ↦
              let (more, s'', store'') = drain_reassembly fuel h s' store' in
              (n + more, s'', store'')
        ] in
            is_free x.1.state)
          ≡ false
    next (stop n s' store') d later = d
    next (again n s' store') d later = later s' store' d

get_elem?-lt {ℓ} :
    {A : Type ℓ} (xs : List A) (i : ℕ) (x : A) → get_elem? xs i ≡ some x → i < length xs
get_elem?-lt [] i x e = cc
get_elem?-lt (y ∷ ys) zero x e = omega arith
get_elem?-lt (y ∷ ys) (suc i) x e = omega (arith, get_elem?-lt ys i x e)

-- Two places of a short stream with one sequence number are one.
same-place :
    (base a n : ℕ) → a < 2 ^ 31 → n < 2 ^ 31 → sub32 (u32 (base + a)) (u32 (base + n)) ≡ 0 → a ≡ n
same-place base a n ha hn e = omega arith

-- A sequence number that is behind belongs to an earlier place.
pub behind-place :
    (base a n : ℕ)
    → a < 2 ^ 31
    → n < 2 ^ 31
    → behind (u32 (base + a)) (u32 (base + n)) ≡ true
    → (a ≤ n) × (sub32 (u32 (base + n)) (u32 (base + a)) ≡ n - a)
behind-place base a n ha hn e = ground arith

module _ (stream : List ℕ) (base h : ℕ) (short : length stream < 2 ^ 31) where
  -- The connection is there, and agrees with the stream after `got` was read.
  pub record Connected (got : List ℕ) (t : Table) : Type 0 where
    pub value : Slot
    pub there : get_elem? t.slots h ≡ some value
    pub live : is_free value.state ≡ false
    pub reached : ℕ
    pub slot_ok : SlotOk stream base h short got reached value
    pub store_ok : All (EntryOk stream base h short) t.reassembly

  pub slot_of : {got : List ℕ} {t : Table} (c : Connected got t) → slot t.slots h ≡ some c.value
  unfolding slot
  slot_of c = let there = c.there in let live = c.live in ground arith

  -- A slot that is written back, and the store after it.
  written :
      (got : List ℕ) (t : Table) (s s' : Slot) (n : ℕ) (store : List (Option Segment))
      → get_elem? t.slots h ≡ some s
      → is_free s'.state ≡ false
      → SlotOk stream base h short got n s'
      → All (EntryOk stream base h short) store
      → Connected got (record { slots = set t.slots h s'; reassembly = store })
  written got t s s' n store there live ok all = record {
    value = s';
    there = get_elem?-set_self t.slots h s' (get_elem?-lt t.slots h s there);
    live = live;
    reached = n;
    slot_ok = ok;
    store_ok = all;
  }

  pub drained-Connected :
      (got : List ℕ) (t : Table) (s s' : Slot) (n : ℕ)
      → get_elem? t.slots h ≡ some s
      → is_free s'.state ≡ false
      → SlotOk stream base h short got n s'
      → All (EntryOk stream base h short) t.reassembly
      → Connected got (drained h t s').1
  unfolding drained
  drained-Connected got t s s' n there live ok all =
      let d =
        drain-Drained stream base h short (drain_fuel t.reassembly) got n s' t.reassembly ok all in
      written got t s _ _ _ there
        (drain_reassembly-live (drain_fuel t.reassembly) h s' t.reassembly live) d.slot_ok
        d.store_ok

  pub accept_segment-Connected :
      (got : List ℕ) (t : Table) (c : Connected got t) (sequence off : ℕ) (input : List ℕ)
      (finish : Bool)
      → c.value.receive_closed ≡ false
      → sequence ≡ u32 (base + off)
      → Piece stream off input finish
      → Connected got (accept_segment h c.value sequence input finish t).2
  unfolding accept_segment
  accept_segment-Connected got t c sequence off input finish open_yet at_off p =
      if_intro Answered _ (success, 0, t) rest (λ outside. c)
        (λ inside.
          if_intro Answered early storing appending
            (λ ahead.
              if_intro Answered (length kept == 0 && not ends) (success, 0, t) stored (λ nothing. c)
                (λ something. record {
                  value = s;
                  there = c.there;
                  live = c.live;
                  reached = c.reached;
                  slot_ok = c.slot_ok;
                  store_ok =
                      store-EntryOk stream base h short off h sequence kept ends t.reassembly
                        (λ ours. (at_off, kept_piece)) c.store_ok;
                }))
            (λ now.
              let appended =
                append_received-SlotOk stream base h short got c.reached s kept ends c.slot_ok
                  open_yet (kept_here now) in
              let alive = append_received-live s kept ends c.live in
              if_intro Answered (not (done.0 == length kept)) partial full
                (λ cut_short.
                  written got t s done.1 (c.reached + done.0) t.reassembly c.there alive appended
                    c.store_ok)
                (λ whole.
                  drained-Connected got t s done.1 (c.reached + done.0) c.there alive appended
                    c.store_ok)))
    where
      s : Slot
      s = c.value

      Answered : Result × ℕ × Table → Type 0
      Answered r = Connected got r.2

      distance : ℕ
      distance = sub32 sequence s.receive_next

      available : ℕ
      available = sub32 (room s) distance

      kept : List ℕ
      kept = take (min (length input) available) input

      ends : Bool
      ends = finish && not (leb available (length input))

      early : Bool
      early = not (distance == 0)

      stored : Result × ℕ × Table
      stored =
          (let (result, store) = store_reassembly h sequence kept ends t.reassembly in
            (result, 0, record t { reassembly = store }))

      storing : Result × ℕ × Table
      storing = if length kept == 0 && not ends then (success, 0, t) else stored

      done : ℕ × Slot
      done = append_received s kept ends

      partial : Result × ℕ × Table
      partial = (success, done.0, record t { slots = set t.slots h done.1 })

      full : Result × ℕ × Table
      full = (let (more, t') = drained h t done.1 in (success, done.0 + more, t'))

      appending : Result × ℕ × Table
      appending = if not (done.0 == length kept) then partial else full

      kept_piece : Piece stream off kept ends
      kept_piece =
          Piece-take stream off input finish (min (length input) available) ends (ground arith) p

      kept_here : early ≡ false → Piece stream c.reached kept ends
      kept_here now =
          let here : off ≡ c.reached =
            same-place base off c.reached (omega (arith, p.within))
              (omega (arith, c.slot_ok.within))
              (ground (arith, now, at_off, c.slot_ok.awaited open_yet)) in
          subst (λ m. Piece stream m kept ends) here kept_piece

      rest : Result × ℕ × Table
      rest = if early then storing else appending
