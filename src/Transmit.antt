-- ===== src/Transmit.antt =====
-- network/stack.cpp: the segments that a connection has sent and that are not acknowledged, its
-- congestion window and its timers; and include/mikos/net/timing.hpp. Ticks are numbers of 64 bits.
pub mod Acknowledged
pub mod Bounds
mod Tests
use mikos.Prelude.{
  ℕ, zero, suc, ◌+◌, ◌-◌, ◌*◌, ◌/◌, ◌%◌, ◌^◌, List, [], ◌∷◌, Option, none, some, Bool, true, false,
  not, ◌&&◌, ◌||◌, if◌then◌else◌, ◌==◌, ltb, leb, length, drop, min, u32, sub32,
}
use mikos.Socket.{Slot, Transport}
use mikos.Socket.Stream.{ahead}

abbrev pub tcp_second : ℕ
tcp_second = 10000000

abbrev pub tcp_initial_rto : ℕ
tcp_initial_rto = tcp_second

abbrev pub tcp_max_rto : ℕ
tcp_max_rto = 60 * tcp_second

abbrev pub transmit_capacity : ℕ
transmit_capacity = 16

abbrev pub transmit_segment_capacity : ℕ
transmit_segment_capacity = 1024

-- The value of an unsigned expression of 64 bits, and `a - b` there.
abbrev pub u64 : ℕ → ℕ
u64 n = n % 2 ^ 64

abbrev pub sub64 : ℕ → ℕ → ℕ
sub64 a b = (a + 2 ^ 64 - b) % 2 ^ 64

-- A segment that was sent, with its key.
pub record Transmission : Type 0 where
  pub handle : ℕ
  pub sequence : ℕ
  pub retry_at : ℕ
  pub delay : ℕ
  pub first_sent : ℕ
  pub fast_retry : Bool
  pub flags : ℕ
  pub attempts : ℕ
  pub content : List ℕ

-- `std::clamp(value, tcp_initial_rto, tcp_max_rto)`
abbrev pub clamp_rto : ℕ → ℕ
clamp_rto value =
    if ltb value tcp_initial_rto
    then tcp_initial_rto
    else if ltb tcp_max_rto value
    then tcp_max_rto
    else value

abbrev pub at_least_1 : ℕ → ℕ
at_least_1 n = if ltb n 1 then 1 else n

abbrev pub with_rto : Transport → Transport
with_rto t = record t {
  rto = clamp_rto (u64 (t.smoothed_rtt + at_least_1 (u64 (4 * t.rtt_variance))));
}

unfoldable pub update_rtt : Transport → ℕ → Transport
update_rtt t sample =
    if not t.rtt_measured
    then with_rto
        (record t { smoothed_rtt = sample; rtt_variance = sample / 2; rtt_measured = true })
    else (let error =
          if ltb sample t.smoothed_rtt then t.smoothed_rtt - sample else sample - t.smoothed_rtt in
        with_rto (record t {
          rtt_variance = u64 (3 * t.rtt_variance + error) / 4;
          smoothed_rtt = u64 (7 * t.smoothed_rtt + sample) / 8;
        }))

-- What new acknowledged bytes do to the congestion window, before its bound.
unfoldable pub grow : ℕ → Transport → Transport
grow newly_acked t =
    if t.fast_recovery
    then record t { congestion_window = t.slow_start_threshold; fast_recovery = false }
    else if ltb t.congestion_window t.slow_start_threshold
    then record t { congestion_window = u32 (t.congestion_window + min newly_acked t.peer_mss) }
    else (let credit = u32 (t.congestion_credit + newly_acked) in
        if leb t.congestion_window credit
        then record t {
          congestion_credit = credit - t.congestion_window;
          congestion_window = u32 (t.congestion_window + t.peer_mss);
        }
        else record t { congestion_credit = credit })

abbrev pub bounded_window : Transport → Transport
bounded_window t = record t {
  congestion_window = min t.congestion_window (transmit_capacity * transmit_segment_capacity);
}

unfoldable pub was_retransmitted : ℕ → List (Option Transmission) → Bool
was_retransmitted h [] = false
was_retransmitted h (none ∷ es) = was_retransmitted h es
was_retransmitted h (some g ∷ es) = (g.handle == h && ltb 1 g.attempts) || was_retransmitted h es

-- All of the segment is acknowledged.
abbrev pub is_acknowledged : ℕ → ℕ → Transmission → Bool
is_acknowledged h ack g =
    g.handle == h && (ahead ack g.sequence && leb (length g.content) (sub32 ack g.sequence))

-- What is left of a segment.
unfoldable pub remains : ℕ → ℕ → Option Transmission → Option Transmission
remains h ack none = none
remains h ack (some g) =
    if not (g.handle == h) || not (ahead ack g.sequence)
    then some g
    else if leb (length g.content) (sub32 ack g.sequence)
    then none
    else some (record g { sequence = ack; content = drop (sub32 ack g.sequence) g.content })

-- The loop over the segments: the first that is acknowledged is a sample, unless one was sent again.
unfoldable pub acknowledge_from :
    ℕ
    → ℕ
    → ℕ
    → Bool
    → Transport
    → List (Option Transmission)
    → Transport × List (Option Transmission)
acknowledge_from h ack now skipped t [] = (t, [])
acknowledge_from h ack now skipped t (none ∷ es) =
    let (t', es') = acknowledge_from h ack now skipped t es in (t', none ∷ es')
acknowledge_from h ack now skipped t (some g ∷ es) =
    let samples = is_acknowledged h ack g && not skipped in
    let (t', es') =
      acknowledge_from h ack now (skipped || samples)
        (if samples then update_rtt t (sub64 now g.first_sent) else t) es in
    (t', remains h ack (some g) ∷ es')

-- The loop that restarts the timers.
unfoldable pub restart : ℕ → ℕ → ℕ → List (Option Transmission) → List (Option Transmission)
restart h rto now [] = []
restart h rto now (none ∷ es) = none ∷ restart h rto now es
restart h rto now (some g ∷ es) =
    (if g.handle == h then some (record g { delay = rto; retry_at = u64 (now + rto) }) else some g)
    ∷ restart h rto now es

-- The part of `acknowledge_transmissions` after the test for progress.
unfoldable pub advance :
    ℕ → ℕ → ℕ → Slot → List (Option Transmission) → Slot × List (Option Transmission)
advance h ack now s store =
    let grown =
      bounded_window
        (grow (sub32 ack s.send_unacknowledged) (record s.transport { duplicate_acks = 0 })) in
    let (t, store') = acknowledge_from h ack now (was_retransmitted h store) grown store in
    (
      record s { send_unacknowledged = ack; transport = record t { progress_at = now } },
      restart h t.rto now store',
    )

unfoldable pub acknowledge_transmissions :
    ℕ → ℕ → ℕ → Slot → List (Option Transmission) → Slot × List (Option Transmission)
acknowledge_transmissions h ack now s store =
    if not (ahead ack s.send_unacknowledged) then (s, store) else advance h ack now s store
