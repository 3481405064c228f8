-- ===== src/Socket/InOrder.antt =====
-- Whatever order its segments come in, what is read from a connection is its peer's stream.
use mikos.Prelude.{
  ℕ, zero, suc, ◌+◌, ◌^◌, ◌<◌, ◌≡◌, ◌≢◌, refl, sym, ap, subst, ◌∙◌, List, [], ◌∷◌, ◌++◌, append-nil,
  append_assoc, Option, none, some, Bool, true, false, not, ◌&&◌, ◌||◌, if◌then◌else◌, ◌==◌, arith,
  length, length-take, length-drop, take, drop, drop-append, take-append-drop, min, u32, get_elem?,
  if_intro,
}
use mikos.Slots.{All}
use mikos.Socket.{
  Slot, Segment, Table, Result, success, end_of_file, would_block, slot, at, is_free, not_connected,
  is_reset, is_connection, is_syn_received,
}
use mikos.Socket.Lifecycle.{is_empty}
use mikos.Socket.Stream.{receive, read}
use mikos.Socket.Slices.{Piece}
use mikos.Socket.Reassembly.{EntryOk}
use mikos.Socket.Others.{Kept, receive-Kept, read-Kept}
use mikos.Socket.Calls.{receive-Connected, read-Connected}
use mikos.Socket.Delivery.{Connected, slot_of}

-- What happens on the way: a segment of the peer, with some of the bytes of its stream from any place
-- and perhaps the end; a read; and the same on another socket, with any bytes.
pub data Event : Type 0 where
  segment : ℕ → ℕ → Bool → Event
  reads : ℕ → Event
  other_segment : ℕ → ℕ → List ℕ → Bool → Event
  other_read : ℕ → ℕ → Event

-- The place and the bytes of a segment; its end is set only where it reaches the end of the stream.
abbrev pub place : List ℕ → ℕ → ℕ
place stream off = min off (length stream)

abbrev pub bytes_at : List ℕ → ℕ → ℕ → List ℕ
bytes_at stream off size = take size (drop (place stream off) stream)

abbrev pub ends_at : List ℕ → ℕ → ℕ → Bool → Bool
ends_at stream off size finish =
    finish && place stream off + length (bytes_at stream off size) == length stream

-- What was read from socket `h`, and the table.
unfoldable pub step : List ℕ → ℕ → ℕ → List ℕ × Table → Event → List ℕ × Table
step stream base h (got, t) (segment off size finish) = (
  got,
  (receive h (u32 (base + place stream off)) (bytes_at stream off size)
      (ends_at stream off size finish) t).2,
)
step stream base h (got, t) (reads size) = (let r = read h size t in (got ++ r.1, r.2))
step stream base h (got, t) (other_segment k sequence input finish) =
    if k == h then (got, t) else (got, (receive k sequence input finish t).2)
step stream base h (got, t) (other_read k size) =
    if k == h then (got, t) else (got, (read k size t).2)

unfoldable pub run : List ℕ → ℕ → ℕ → List ℕ × Table → List Event → List ℕ × Table
unfolding step
run stream base h st [] = st
run stream base h st (e ∷ es) = run stream base h (step stream base h st e) es

-- A segment of another connection, or none.
abbrev pub IsForeign : ℕ → Option Segment → Type 0
IsForeign h none = Unit
IsForeign h (some g) = g.handle ≢ h

-- A connection of which nothing was received, and that awaits the sequence number `base`.
pub record Fresh (base h : ℕ) (t : Table) : Type 0 where
  pub value : Slot
  pub there : get_elem? t.slots h ≡ some value
  pub live : is_free value.state ≡ false
  pub nothing : value.receive_buffer ≡ []
  pub open_yet : value.receive_closed ≡ false
  pub awaits : value.receive_next ≡ u32 base
  pub no_segments : All (IsForeign h) t.reassembly

at-there : (slots : List Slot) (i : ℕ) (s : Slot) → get_elem? slots i ≡ some s → at slots i ≡ s
unfolding at
at-there [] i s e = cc
at-there (x ∷ xs) zero s e = cc
at-there (x ∷ xs) (suc i) s e = at-there xs i s e

-- How a read of a slot ends.
read_status : Slot → Result
read_status s =
    if s.read_closed
    then end_of_file
    else if is_empty s.receive_buffer
    then (if s.receive_closed
        then end_of_file
        else if is_reset s.state
        then s.failure
        else if not (is_connection s.state) || is_syn_received s.state
        then not_connected
        else would_block)
    else success

status_of :
    (h size : ℕ) (t : Table) (s : Slot)
    → slot t.slots h ≡ some s
    → (read h size t).0 ≡ read_status s
unfolding read read_status
status_of h size t s e = rw (e, read) (ground arith)

end-empty :
    (s : Slot)
    → s.read_closed ≡ false
    → is_reset s.state ≡ false
    → read_status s ≡ end_of_file
    → (is_empty s.receive_buffer ≡ true) × (s.receive_closed ≡ true)
unfolding read_status
end-empty s open_yet alive ended = ground arith

is_empty-nil : (xs : List ℕ) → is_empty xs ≡ true → xs ≡ []
is_empty-nil [] e = refl
is_empty-nil (x ∷ xs) e = cc

module _ (stream : List ℕ) (base h : ℕ) (short : length stream < 2 ^ 31) where
  none-EntryOk :
      (store : List (Option Segment))
      → All (IsForeign h) store
      → All (EntryOk stream base h short) store
  none-EntryOk [] all = tt
  none-EntryOk (none ∷ es) all = (tt, none-EntryOk es all.1)
  none-EntryOk (some g ∷ es) all = (λ ours. absurd (all.0 ours), none-EntryOk es all.1)

  abbrev Agrees : List ℕ × Table → Type 0
  Agrees st = Connected stream base h short st.0 st.1

  Piece-at :
      (off size : ℕ) (finish : Bool)
      → Piece stream (place stream off) (bytes_at stream off size) (ends_at stream off size finish)
  Piece-at off size finish = record {
    rest = drop size (drop (place stream off) stream);
    fits = sym (take-append-drop size (drop (place stream off) stream));
    within = omega (
      arith,
      length-take size (drop (place stream off) stream),
      length-drop (place stream off) stream,
    );
    ends = ground arith;
  }

  keeps_agreement :
      (got : List ℕ) (t t' : Table)
      → Agrees (got, t)
      → Kept (EntryOk stream base h short) h t t'
      → Agrees (got, t')
  keeps_agreement got t t' c k = record {
    value = c.value;
    there = k.same_slot ∙ c.there;
    live = c.live;
    reached = c.reached;
    slot_ok = c.slot_ok;
    store_ok = k.store_ok;
  }

  differ : (k : ℕ) → (k == h) ≡ false → k ≢ h
  differ k other = ground arith

  -- A segment under another handle is nothing to this connection.
  foreign :
      (k : ℕ)
      → (k == h) ≡ false
      → (g : Segment) → g.handle ≡ k
      → EntryOk stream base h short (some g)
  foreign k other g theirs = λ ours. absurd (differ k other (sym theirs ∙ ours))

  step-Agrees : (st : List ℕ × Table) (e : Event) → Agrees st → Agrees (step stream base h st e)
  unfolding step
  step-Agrees (got, t) (segment off size finish) c =
      receive-Connected stream base h short got t (place stream off) (bytes_at stream off size)
        (ends_at stream off size finish) c (Piece-at off size finish)
  step-Agrees (got, t) (reads size) c = read-Connected stream base h short got t size c
  step-Agrees (got, t) (other_segment k sequence input finish) c =
      if_intro Agrees (k == h) (got, t) (got, (receive k sequence input finish t).2) (λ ours. c)
        (λ other. keeps_agreement got t (receive k sequence input finish t).2 c (
          receive-Kept (EntryOk stream base h short) tt h k (differ k other) (foreign k other)
            sequence input finish t c.store_ok))
  step-Agrees (got, t) (other_read k size) c =
      if_intro Agrees (k == h) (got, t) (got, (read k size t).2) (λ ours. c)
        (λ other. keeps_agreement got t (read k size t).2 c (
          read-Kept (EntryOk stream base h short) tt h k (differ k other) (foreign k other) size t
            c.store_ok))

  run-Agrees :
      (es : List Event) (st : List ℕ × Table) → Agrees st → Agrees (run stream base h st es)
  unfolding run
  run-Agrees [] st c = c
  run-Agrees (e ∷ es) st c = run-Agrees es (step stream base h st e) (step-Agrees st e c)

  starts_agreeing : (t : Table) → Fresh base h t → Agrees ([], t)
  starts_agreeing t f = record {
    value = f.value;
    there = f.there;
    live = f.live;
    reached = 0;
    slot_ok = record {
      counted = ap length f.nothing;
      prefix = ap (λ xs. xs ++ stream) f.nothing;
      within = omega arith;
      awaited = λ open_yet. f.awaits ∙ ap u32 (omega arith);
      complete = λ closed. cc (f.open_yet);
    };
    store_ok = none-EntryOk t.reassembly f.no_segments;
  }

  -- A peer sends a stream of fewer than 2^31 bytes from a new connection's sequence number on, cut into
  -- segments that come in any order, again and again, and overlap; other sockets receive and read
  -- anything in between. What was read from the connection is then the first bytes of that stream.
  pub read-IsPrefix :
      (t : Table) (es : List Event)
      → Fresh base h t
      → let (got, t') = run stream base h ([], t) es in got ++ drop (length got) stream ≡ stream
  read-IsPrefix t es f =
      let c = run-Agrees es ([], t) (starts_agreeing t f) in
      let got = (run stream base h ([], t) es).0 in
      let coming = c.value.receive_buffer ++ drop c.reached stream in
      let whole : got ++ coming ≡ stream =
        sym (append_assoc got c.value.receive_buffer (drop c.reached stream)) ∙ c.slot_ok.prefix in
      let after : drop (length got) stream ≡ coming =
        ap (drop (length got)) (sym whole) ∙ drop-append got coming in
      ap (λ xs. got ++ xs) after ∙ whole

  -- And if a read then tells the end of the stream, all of it was read; unless the reader closed the
  -- connection, or it was reset.
  pub read_to_end :
      (t : Table) (es : List Event) (size : ℕ)
      → Fresh base h t
      → let (got, t') = run stream base h ([], t) es in
        (read h size t').0 ≡ end_of_file
        → (at t'.slots h).read_closed ≡ false
        → is_reset (at t'.slots h).state ≡ false
        → got ≡ stream
  unfolding read
  read_to_end t es size f ended open_yet alive =
      let st = run stream base h ([], t) es in
      let c = run-Agrees es ([], t) (starts_agreeing t f) in
      let here = at-there st.1.slots h c.value c.there in
      let (empty, closed) =
        end-empty c.value (subst (λ (s : Slot). s.read_closed ≡ false) here open_yet)
          (subst (λ (s : Slot). is_reset s.state ≡ false) here alive)
          (sym (status_of h size st.1 c.value (slot_of stream base h short c)) ∙ ended) in
      let none_left : drop c.reached stream ≡ [] =
        ap (λ n. drop n stream) (c.slot_ok.complete closed)
        ∙ ap (drop (length stream)) (sym (append-nil stream))
        ∙ drop-append stream [] in
      sym (append-nil st.0)
      ∙ ap (λ xs. st.0 ++ xs) (sym (is_empty-nil c.value.receive_buffer empty))
      ∙ sym (append-nil (st.0 ++ c.value.receive_buffer))
      ∙ ap (λ xs. (st.0 ++ c.value.receive_buffer) ++ xs) (sym none_left)
      ∙ c.slot_ok.prefix
