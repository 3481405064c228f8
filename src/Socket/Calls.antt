-- ===== src/Socket/Calls.antt =====
-- `receive` and `read` keep a connection in agreement with its peer's stream.
use mikos.Prelude.{
  ℕ, ◌+◌, ◌^◌, ◌≤◌, ◌<◌, ◌≡◌, refl, sym, ap, subst, ◌∙◌, List, [], ◌++◌, append-nil, append_assoc,
  Bool, true, false, not, ◌&&◌, ◌||◌, ◌==◌, ltb, arith, length, take, drop, take-append-drop, min,
  u32, sub32, inl, inr, Bool-cases,
}
use mikos.Socket.{Slot, Table}
use mikos.Socket.Lifecycle.{is_empty}
use mikos.Socket.Stream.{behind, receive, read}
use mikos.Socket.Slices.{Piece, Piece-drop}
use mikos.Socket.Reassembly.{SlotOk}
use mikos.Socket.Delivery.{
  Connected, slot_of, accept_segment-Connected, drained-Connected, behind-place,
}

module _ (stream : List ℕ) (base h : ℕ) (short : length stream < 2 ^ 31) where
  pub receive-Connected :
      (got : List ℕ) (t : Table) (off : ℕ) (input : List ℕ) (finish : Bool)
      → Connected stream base h short got t
      → Piece stream off input finish
      → Connected stream base h short got (receive h (u32 (base + off)) input finish t).2
  unfolding receive
  receive-Connected got t off input finish c p =
      rw (slot_of stream base h short c, receive)
        (elim (Bool-cases s.receive_closed) [
          | inl closed ↦ ground (arith, c)
          | inr open_yet ↦ elim (Bool-cases (behind sequence s.receive_next)) [
            | inr on_time ↦ ground (
              arith,
              c,
              accept_segment-Connected stream base h short got t c sequence off input finish
                  open_yet refl p,
            )
            | inl late ↦ elim (Bool-cases stale) [
              | inl old_news ↦ ground (arith, c)
              | inr fresh ↦ ground (
                arith,
                c,
                accept_segment-Connected stream base h short got t c s.receive_next c.reached
                    (drop old input) finish open_yet (c.slot_ok.awaited open_yet)
                    (tail_piece open_yet late fresh),
              )
            ]
          ]
        ])
    where
      s : Slot
      s = c.value

      sequence : ℕ
      sequence = u32 (base + off)

      old : ℕ
      old = sub32 s.receive_next sequence

      stale : Bool
      stale = ltb (length input) old || (old == length input && not finish)

      tail_piece :
          s.receive_closed ≡ false
          → behind sequence s.receive_next ≡ true
          → stale ≡ false
          → Piece stream c.reached (drop old input) finish
      tail_piece open_yet late fresh =
          let awaited = c.slot_ok.awaited open_yet in
          let (before, distance) =
            behind-place base off c.reached (omega (arith, p.within))
              (omega (arith, c.slot_ok.within))
              (subst (λ k. behind sequence k ≡ true) awaited late) in
          let inside : old ≤ length input = ground (arith, fresh) in
          let here : off + old ≡ c.reached = omega arith in
          subst (λ m. Piece stream m (drop old input) finish) here
            (Piece-drop stream off input finish old inside p)

  pub read-Connected :
      (got : List ℕ) (t : Table) (size : ℕ)
      → Connected stream base h short got t
      → Connected stream base h short (got ++ (read h size t).1) (read h size t).2
  unfolding read
  read-Connected got t size c =
      rw (slot_of stream base h short c, read)
        (elim (Bool-cases s.read_closed) [
          | inl closed ↦ ground (arith, same)
          | inr open_yet ↦ elim (Bool-cases (is_empty s.receive_buffer)) [
            | inl empty ↦ ground (arith, same)
            | inr some_bytes ↦ ground (
              arith,
              drained-Connected stream base h short (got ++ first) t s s' c.reached c.there c.live
                  taken c.store_ok,
            )
          ]
        ])
    where
      s : Slot
      s = c.value

      count : ℕ
      count = min size (length s.receive_buffer)

      first : List ℕ
      first = take count s.receive_buffer

      s' : Slot
      s' = record s { receive_buffer = drop count s.receive_buffer }

      same : Connected stream base h short (got ++ []) t
      same = subst (λ xs. Connected stream base h short xs t) (sym (append-nil got)) c

      moved : (got ++ first) ++ drop count s.receive_buffer ≡ got ++ s.receive_buffer
      moved =
          append_assoc got first (drop count s.receive_buffer)
          ∙ ap (λ xs. got ++ xs) (take-append-drop count s.receive_buffer)

      taken : SlotOk stream base h short (got ++ first) c.reached s'
      taken = record {
        counted = ap length moved ∙ c.slot_ok.counted;
        prefix = ap (λ xs. xs ++ drop c.reached stream) moved ∙ c.slot_ok.prefix;
        within = c.slot_ok.within;
        awaited = c.slot_ok.awaited;
        complete = c.slot_ok.complete;
      }
