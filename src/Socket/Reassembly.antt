-- ===== src/Socket/Reassembly.antt =====
-- One connection and its stored segments, against the stream that its peer sends.
use mikos.Prelude.{
  ℕ, ◌+◌, ◌-◌, ◌^◌, ◌≤◌, ◌<◌, ◌≡◌, sym, ap, subst, ◌∙◌, List, [], ◌∷◌, ◌++◌, append_assoc, Option,
  none, some, Bool, true, false, ◌&&◌, if◌then◌else◌, ◌==◌, arith, length, length-append,
  length-take, take, drop, take-append-drop, min, u32, sub32, if_intro,
}
use mikos.Slots.{All}
use mikos.Socket.{Slot, Segment, clear_reassembly}
use mikos.Socket.Stream.{ahead, room, finished, append_received, prefers, choose}
use mikos.Socket.Slices.{Piece, drop-add, drop-append_le}

regroup : (ws bs cs ds : List ℕ) → (ws ++ (bs ++ cs)) ++ ds ≡ (ws ++ bs) ++ (cs ++ ds)
regroup ws bs cs ds = simp append_assoc

-- Sequence numbers of a stream that is short enough keep its order, whatever wraps.
due-le :
    (base a n : ℕ)
    → a < 2 ^ 31
    → n < 2 ^ 31
    → ahead (u32 (base + a)) (u32 (base + n)) ≡ false
    → (a ≤ n) × (sub32 (u32 (base + n)) (u32 (base + a)) ≡ n - a)
due-le base a n ha hn e = ground arith

-- The stream of bytes, the sequence number of its first byte, and the handle of the connection.
module _ (stream : List ℕ) (base h : ℕ) (short : length stream < 2 ^ 31) where
  -- A stored segment of the connection is a piece of the stream, at its sequence number.
  pub record Cut (g : Segment) : Type 0 where
    pub off : ℕ
    pub at_off : g.sequence ≡ u32 (base + off)
    pub piece : Piece stream off g.bytes g.finish

  abbrev pub EntryOk : Option Segment → Type 0
  EntryOk none = Unit
  EntryOk (some g) = g.handle ≡ h → Cut g

  -- After `got` was read: what was read and what waits are the first bytes of the stream, `n` of them,
  -- and the next one is awaited, unless they are all.
  pub record SlotOk (got : List ℕ) (n : ℕ) (s : Slot) : Type 0 where
    pub counted : length (got ++ s.receive_buffer) ≡ n
    pub prefix : (got ++ s.receive_buffer) ++ drop n stream ≡ stream
    pub within : n ≤ length stream
    pub awaited : s.receive_closed ≡ false → s.receive_next ≡ u32 (base + n)
    pub complete : s.receive_closed ≡ true → n ≡ length stream

  pub append_received-SlotOk :
      (got : List ℕ) (n : ℕ) (s : Slot) (bytes : List ℕ) (finish : Bool)
      → SlotOk got n s
      → s.receive_closed ≡ false
      → Piece stream n bytes finish
      → SlotOk got (n + (append_received s bytes finish).0) (append_received s bytes finish).1
  unfolding append_received
  append_received-SlotOk got n s bytes finish ok open_yet p =
      if_intro (SlotOk got (n + k)) (finish && k == length bytes) ended grown
        (λ all. record {
          counted = counted;
          prefix = whole;
          within = omega (arith, p.within);
          awaited = λ no_end. cc;
          complete = λ end. ground (arith, p.ends);
        })
        (λ part. record {
          counted = counted;
          prefix = whole;
          within = omega (arith, p.within);
          awaited = λ no_end. omega (arith, ok.awaited open_yet);
          complete = λ end. cc;
        })
    where
      k : ℕ
      k = min (length bytes) (room s)

      grown : Slot
      grown = record s {
        receive_buffer = s.receive_buffer ++ take k bytes;
        receive_next = u32 (s.receive_next + k);
      }

      ended : Slot
      ended = record grown {
        receive_next = u32 (u32 (s.receive_next + k) + 1);
        receive_closed = true;
        state = finished s.state;
      }

      counted : length (got ++ (s.receive_buffer ++ take k bytes)) ≡ n + k
      counted = omega (
        arith,
        length-append got (s.receive_buffer ++ take k bytes),
        length-append s.receive_buffer (take k bytes),
        length-append got s.receive_buffer,
        length-take k bytes,
        ok.counted,
      )

      after : drop (n + k) stream ≡ drop k bytes ++ p.rest
      after = drop-add n k stream ∙ ap (drop k) p.fits ∙ drop-append_le k bytes p.rest (omega arith)

      joined : take k bytes ++ (drop k bytes ++ p.rest) ≡ bytes ++ p.rest
      joined =
          sym (append_assoc (take k bytes) (drop k bytes) p.rest)
          ∙ ap (λ xs. xs ++ p.rest) (take-append-drop k bytes)

      whole : (got ++ (s.receive_buffer ++ take k bytes)) ++ drop (n + k) stream ≡ stream
      whole =
          ap (λ xs. (got ++ (s.receive_buffer ++ take k bytes)) ++ xs) after
          ∙ regroup got s.receive_buffer (take k bytes) (drop k bytes ++ p.rest)
          ∙ ap (λ xs. (got ++ s.receive_buffer) ++ xs) joined
          ∙ ap (λ xs. (got ++ s.receive_buffer) ++ xs) (sym p.fits)
          ∙ ok.prefix

  -- What `choose` may pick: a piece of the stream that begins no later than the byte awaited.
  pub record Chosen (next : ℕ) (g : Segment) : Type 0 where
    pub cut : Cut g
    pub due : ahead g.sequence next ≡ false

  abbrev pub BestOk : ℕ → Option (ℕ × Segment) → Type 0
  BestOk next none = Unit
  BestOk next (some b) = Chosen next b.1

  pub choose-BestOk :
      (next i : ℕ) (best : Option (ℕ × Segment)) (store : List (Option Segment))
      → All EntryOk store
      → BestOk next best
      → BestOk next (choose h next i best store)
  unfolding choose
  choose-BestOk next i best [] all ok = ok
  choose-BestOk next i best (none ∷ es) all ok = choose-BestOk next (i + 1) best es all.1 ok
  choose-BestOk next i best (some g ∷ es) all ok =
      choose-BestOk next (i + 1) (if prefers h next best g then some (i, g) else best) es all.1 (
        if_intro (BestOk next) (prefers h next best g) (some (i, g)) best
          (λ better. record { cut = all.0 (ground arith); due = ground arith }) (λ worse. ok))

  pub clear_reassembly-EntryOk :
      (k : ℕ) (store : List (Option Segment))
      → All EntryOk store
      → All EntryOk (clear_reassembly k store)
  unfolding clear_reassembly
  clear_reassembly-EntryOk k [] all = tt
  clear_reassembly-EntryOk k (none ∷ es) all = (tt, clear_reassembly-EntryOk k es all.1)
  clear_reassembly-EntryOk k (some g ∷ es) all = (
    if_intro EntryOk (g.handle == k) none (some g) (λ gone. tt) (λ kept. all.0),
    clear_reassembly-EntryOk k es all.1,
  )

  -- The piece that is still missing, of a segment that overlaps what came before.
  pub Cut-rest :
      (n next : ℕ) (g : Segment) (c : Chosen next g)
      → n ≤ length stream
      → next ≡ u32 (base + n)
      → (c.cut.off ≤ n) × (sub32 next g.sequence ≡ n - c.cut.off)
  Cut-rest n next g c le e =
      let (before, distance) =
        due-le base c.cut.off n (omega (arith, c.cut.piece.within)) (omega arith) (
          subst (λ m. ahead m (u32 (base + n)) ≡ false) c.cut.at_off
            (subst (λ k. ahead g.sequence k ≡ false) e c.due)) in
      (before, omega (arith, distance, c.cut.at_off, e))
