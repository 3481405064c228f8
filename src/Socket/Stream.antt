-- ===== src/Socket/Stream.antt =====
-- The bytes of a connection: `receive`, `read` and the store of segments that came early.
use mikos.Prelude.{
  ℕ, zero, suc, ◌+◌, ◌-◌, ◌^◌, List, [], ◌∷◌, ◌++◌, Option, none, some, Bool, true, false, not,
  ◌&&◌, ◌||◌, if◌then◌else◌, ◌==◌, ltb, leb, set, take, drop, length, min, u32, sub32,
}
use mikos.Slots.{find_index}
use mikos.Socket.{
  State, Result, Slot, Segment, Table, closing, time_wait, close_wait, fin_wait_1, fin_wait_2,
  success, bad_handle, not_connected, would_block, no_space, was_reset, end_of_file,
  receive_capacity, reassembly_segment_capacity, is_connection, is_syn_received, is_reset, slot,
  clear_reassembly,
}
use mikos.Socket.Lifecycle.{is_empty}

-- `static_cast<i32>(a - b) < 0`
abbrev pub behind : ℕ → ℕ → Bool
behind a b = leb (2 ^ 31) (sub32 a b)

-- `static_cast<i32>(a - b) > 0`
abbrev pub ahead : ℕ → ℕ → Bool
ahead a b = not (sub32 a b == 0) && ltb (sub32 a b) (2 ^ 31)

-- `capacity() - size()` of the receive buffer.
abbrev pub room : Slot → ℕ
room s = receive_capacity - length s.receive_buffer

-- The state after the end of the stream came.
abbrev pub finished : State → State
finished fin_wait_1 = closing
finished fin_wait_2 = time_wait
finished _ = close_wait

-- The number of bytes accepted, and the slot.
unfoldable pub append_received : Slot → List ℕ → Bool → ℕ × Slot
append_received s input finish =
    let accepted = min (length input) (room s) in
    let next = u32 (s.receive_next + accepted) in
    let grown : Slot = record s {
      receive_buffer = s.receive_buffer ++ take accepted input;
      receive_next = next;
    } in
    (
      accepted,
      if finish && accepted == length input
          then record grown {
            receive_next = u32 (next + 1);
            receive_closed = true;
            state = finished s.state;
          }
          else grown,
    )

abbrev pub has_key : ℕ → ℕ → Option Segment → Bool
has_key h sequence none = false
has_key h sequence (some g) = g.handle == h && g.sequence == sequence

abbrev pub is_none : Option Segment → Bool
is_none none = true
is_none (some g) = false

unfoldable pub store_reassembly :
    ℕ → ℕ → List ℕ → Bool → List (Option Segment) → Result × List (Option Segment)
store_reassembly h sequence input finish store =
    if ltb reassembly_segment_capacity (length input)
    then (no_space, store)
    else (elim (find_index (has_key h sequence) store) [
      | some i ↦ (success, store)
      | none ↦ elim (find_index is_none store) [
        | none ↦ (no_space, store)
        | some i ↦ (
          success,
          set store i
              (some (record { handle = h; sequence = sequence; finish = finish; bytes = input })),
        )
      ]
    ])

-- Whether a segment can be delivered, and is closer to what is awaited than the one chosen so far.
abbrev pub prefers : ℕ → ℕ → Option (ℕ × Segment) → Segment → Bool
prefers h next best g =
    g.handle == h
    && (not (ahead g.sequence next)
        && (elim best [ none ↦ true | some b ↦ ahead g.sequence b.1.sequence ]))

-- The loop of `drain_reassembly` over the store from entry `i` on: which segment is chosen.
unfoldable pub choose :
    ℕ → ℕ → ℕ → Option (ℕ × Segment) → List (Option Segment) → Option (ℕ × Segment)
choose h next i best [] = best
choose h next i best (none ∷ es) = choose h next (i + 1) best es
choose h next i best (some g ∷ es) =
    choose h next (i + 1) (if prefers h next best g then some (i, g) else best) es

-- What a round of the outer loop does: it ends the loop with the bytes delivered, or goes on.
pub data Round : Type 0 where
  stop again : ℕ → Slot → List (Option Segment) → Round

-- The end of a round, where the segment `g` of entry `i` was chosen.
unfoldable pub deliver : ℕ → Segment → Slot → List (Option Segment) → Round
unfolding append_received
deliver i g s store =
    let old = sub32 s.receive_next g.sequence in
    let (n, s') = append_received s (drop old g.bytes) g.finish in
    if ltb (length g.bytes) old || (old == length g.bytes && not g.finish)
    then again 0 s (set store i none)
    else if ltb (room s) (length g.bytes - old)
    then stop 0 s store
    else if not (n == length g.bytes - old)
    then stop n s' (set store i none)
    else again n s' (set store i none)

unfoldable pub drain_round : ℕ → Slot → List (Option Segment) → Round
unfolding choose deliver
drain_round h s store =
    if s.receive_closed
    then stop 0 s (clear_reassembly h store)
    else (elim (choose h s.receive_next 0 none store) [
      | none ↦ stop 0 s store
      | some (i, g) ↦ deliver i g s store
    ])

-- The outer loop, with fuel: the number of bytes delivered, the slot and the store.
unfoldable pub drain_reassembly :
    ℕ → ℕ → Slot → List (Option Segment) → ℕ × Slot × List (Option Segment)
unfolding drain_round
drain_reassembly zero h s store = (0, s, store)
drain_reassembly (suc fuel) h s store = elim (drain_round h s store) [
  | stop n s' store' ↦ (n, s', store')
  | again n s' store' ↦
      let (more, s'', store'') = drain_reassembly fuel h s' store' in (n + more, s'', store'')
]

-- One more than the entries of the store.
abbrev pub drain_fuel : List (Option Segment) → ℕ
drain_fuel store = length store + 1

unfoldable pub drained : ℕ → Table → Slot → ℕ × Table
unfolding drain_reassembly
drained h t s =
    let (n, s', store) = drain_reassembly (drain_fuel t.reassembly) h s t.reassembly in
    (n, record { slots = set t.slots h s'; reassembly = store })

-- The part of `receive` after the overlap with what came before is trimmed: the segment is cut to
-- the window, and stored or delivered.
unfoldable pub accept_segment : ℕ → Slot → ℕ → List ℕ → Bool → Table → Result × ℕ × Table
unfolding append_received store_reassembly drained
accept_segment h s sequence input finish t =
    let distance = sub32 sequence s.receive_next in
    if leb (room s) distance && (not (length input == 0) || finish)
    then (success, 0, t)
    else (let available = sub32 (room s) distance in
        let kept = take (min (length input) available) input in
        let ends = finish && not (leb available (length input)) in
        if not (distance == 0)
        then (if length kept == 0 && not ends
            then (success, 0, t)
            else (let (result, store) = store_reassembly h sequence kept ends t.reassembly in
                (result, 0, record t { reassembly = store })))
        else (let (n, s') = append_received s kept ends in
            if not (n == length kept)
            then (success, n, record t { slots = set t.slots h s' })
            else (let (more, t') = drained h t s' in (success, n + more, t'))))

-- The status, the number of bytes delivered, and the table.
unfoldable pub receive : ℕ → ℕ → List ℕ → Bool → Table → Result × ℕ × Table
unfolding accept_segment
receive h sequence input finish t = elim (slot t.slots h) [
  | none ↦ (bad_handle, 0, t)
  | some s ↦
      if not (is_connection s.state) || (is_syn_received s.state || is_reset s.state)
      then (if is_reset s.state then was_reset else not_connected, 0, t)
      else if s.receive_closed
      then (success, 0, t)
      else if behind sequence s.receive_next
      then (let old = sub32 s.receive_next sequence in
          if ltb (length input) old || (old == length input && not finish)
          then (success, 0, t)
          else accept_segment h s s.receive_next (drop old input) finish t)
      else accept_segment h s sequence input finish t
]

-- The status, the bytes read, and the table.
unfoldable pub read : ℕ → ℕ → Table → Result × List ℕ × Table
unfolding drained
read h size t = elim (slot t.slots h) [
  | none ↦ (bad_handle, [], t)
  | some s ↦
      if s.read_closed
      then (end_of_file, [], t)
      else if is_empty s.receive_buffer
      then (
        if s.receive_closed
            then end_of_file
            else if is_reset s.state
            then s.failure
            else if not (is_connection s.state) || is_syn_received s.state
            then not_connected
            else would_block,
        [],
        t,
      )
      else (let count = min size (length s.receive_buffer) in
          (
            success,
            take count s.receive_buffer,
            (drained h t (record s { receive_buffer = drop count s.receive_buffer })).1,
          ))
]
