-- ===== src/Transmit/Bounds.antt =====
-- The bounds of a connection's timeout and of its congestion window.
use mikos.Prelude.{
  ℕ, ◌+◌, ◌-◌, ◌*◌, ◌/◌, ◌≤◌, ◌≡◌, List, [], ◌∷◌, Option, none, some, Bool, true, not, ◌&&◌, ◌||◌,
  if◌then◌else◌, ltb, arith, sub32, if_intro,
}
use mikos.Socket.{Slot, Transport}
use mikos.Socket.Stream.{ahead}
use mikos.Transmit.{
  Transmission, u64, sub64, tcp_initial_rto, tcp_max_rto, clamp_rto, at_least_1, with_rto,
  update_rtt, grow, bounded_window, was_retransmitted, is_acknowledged, acknowledge_from, advance,
  acknowledge_transmissions, transmit_capacity, transmit_segment_capacity,
}

-- The timeout is from one second to a minute, and the window at most what the store of segments holds.
pub record IsBounded (t : Transport) : Type 0 where
  pub least : tcp_initial_rto ≤ t.rto
  pub most : t.rto ≤ tcp_max_rto
  pub window : t.congestion_window ≤ transmit_capacity * transmit_segment_capacity

clamp_rto_lem : (n : ℕ) → (tcp_initial_rto ≤ clamp_rto n) × (clamp_rto n ≤ tcp_max_rto)
clamp_rto_lem n = ground arith

with_rto-IsBounded :
    (t : Transport)
    → t.congestion_window ≤ transmit_capacity * transmit_segment_capacity
    → IsBounded (with_rto t)
with_rto-IsBounded t small =
    let (low, high) =
      clamp_rto_lem (u64 (t.smoothed_rtt + at_least_1 (u64 (4 * t.rtt_variance)))) in
    record { least = low; most = high; window = small }

update_rtt-IsBounded : (t : Transport) (sample : ℕ) → IsBounded t → IsBounded (update_rtt t sample)
unfolding update_rtt
update_rtt-IsBounded t sample b =
    if_intro IsBounded (not t.rtt_measured)
      (with_rto
        (record t { smoothed_rtt = sample; rtt_variance = sample / 2; rtt_measured = true }))
      (with_rto (record t {
        rtt_variance =
            u64 (
              3 * t.rtt_variance
              + (if ltb sample t.smoothed_rtt
                  then t.smoothed_rtt - sample
                  else sample - t.smoothed_rtt))
            / 4;
        smoothed_rtt = u64 (7 * t.smoothed_rtt + sample) / 8;
      }))
      (λ first.
        with_rto-IsBounded
          (record t { smoothed_rtt = sample; rtt_variance = sample / 2; rtt_measured = true })
          b.window)
      (λ later.
        with_rto-IsBounded
          (record t {
            rtt_variance =
                u64 (
                  3 * t.rtt_variance
                  + (if ltb sample t.smoothed_rtt
                      then t.smoothed_rtt - sample
                      else sample - t.smoothed_rtt))
                / 4;
            smoothed_rtt = u64 (7 * t.smoothed_rtt + sample) / 8;
          })
          b.window)

acknowledge_from-IsBounded :
    (h ack now : ℕ) (skipped : Bool) (t : Transport) (store : List (Option Transmission))
    → IsBounded t
    → IsBounded (acknowledge_from h ack now skipped t store).0
unfolding acknowledge_from
acknowledge_from-IsBounded h ack now skipped t [] b = b
acknowledge_from-IsBounded h ack now skipped t (none ∷ es) b =
    acknowledge_from-IsBounded h ack now skipped t es b
acknowledge_from-IsBounded h ack now skipped t (some g ∷ es) b =
    let samples = is_acknowledged h ack g && not skipped in
    acknowledge_from-IsBounded h ack now (skipped || samples)
      (if samples then update_rtt t (sub64 now g.first_sent) else t) es
      (if_intro IsBounded samples (update_rtt t (sub64 now g.first_sent)) t
        (λ yes'. update_rtt-IsBounded t (sub64 now g.first_sent) b) (λ no'. b))

grow-rto : (n : ℕ) (t : Transport) → (grow n t).rto ≡ t.rto
unfolding grow
grow-rto n t = ground arith

bounded_window-IsBounded :
    (n : ℕ) (t : Transport) → IsBounded t → IsBounded (bounded_window (grow n t))
bounded_window-IsBounded n t b =
    let same = grow-rto n t in
    let least = b.least in
    let most = b.most in
    record {
      least = omega (arith, same, least);
      most = omega (arith, same, most);
      window = omega arith;
    }

advance-IsBounded :
    (h ack now : ℕ) (s : Slot) (store : List (Option Transmission))
    → IsBounded s.transport
    → IsBounded (advance h ack now s store).0.transport
unfolding advance
advance-IsBounded h ack now s store b =
    let start : Transport = record s.transport { duplicate_acks = 0 } in
    let n = sub32 ack s.send_unacknowledged in
    let before : IsBounded start = record { least = b.least; most = b.most; window = b.window } in
    let c =
      acknowledge_from-IsBounded h ack now (was_retransmitted h store)
        (bounded_window (grow n start)) store (bounded_window-IsBounded n start before) in
    record { least = c.least; most = c.most; window = c.window }

-- An acknowledgement, whatever it is and whatever the store holds, keeps the timeout from one second
-- to a minute and the congestion window at most 16384 bytes, where they were before.
pub acknowledge_transmissions-IsBounded :
    (h ack now : ℕ) (s : Slot) (store : List (Option Transmission))
    → IsBounded s.transport
    → IsBounded (acknowledge_transmissions h ack now s store).0.transport
unfolding acknowledge_transmissions
acknowledge_transmissions-IsBounded h ack now s store b =
    if_intro (λ (r : Slot × List (Option Transmission)). IsBounded r.0.transport)
      (not (ahead ack s.send_unacknowledged)) (s, store) (advance h ack now s store) (λ stale. b)
      (λ progress. advance-IsBounded h ack now s store b)
