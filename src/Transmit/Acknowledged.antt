-- ===== src/Transmit/Acknowledged.antt =====
-- What an acknowledgement leaves to be sent again, and the bounds of the timers and the window.
use mikos.Prelude.{
  ℕ, zero, suc, ◌+◌, ◌-◌, ◌^◌, ◌≤◌, ◌<◌, ◌≡◌, ap, sym, subst, ◌∙◌, List, [], ◌∷◌, Option, none,
  some, Bool, true, not, ◌&&◌, ◌||◌, if◌then◌else◌, ◌==◌, ltb, leb, arith, get_elem?, length, drop,
  u32, sub32,
}
use mikos.Socket.{Slot, Transport}
use mikos.Socket.Stream.{ahead}
use mikos.Transmit.{
  Transmission, u64, sub64, update_rtt, grow, bounded_window, was_retransmitted, is_acknowledged,
  remains, acknowledge_from, restart, advance, acknowledge_transmissions,
}

acknowledge_from-remains :
    (h ack now : ℕ) (skipped : Bool) (t : Transport) (store : List (Option Transmission)) (k : ℕ)
    (e : Option Transmission)
    → get_elem? store k ≡ some e
    → get_elem? (acknowledge_from h ack now skipped t store).1 k ≡ some (remains h ack e)
unfolding acknowledge_from remains
acknowledge_from-remains h ack now skipped t [] k e there = cc
acknowledge_from-remains h ack now skipped t (none ∷ es) zero e there =
    let same : none ≡ e = cc in ap (λ e. some (remains h ack e)) same
acknowledge_from-remains h ack now skipped t (some g ∷ es) zero e there =
    let same : some g ≡ e = cc in ap (λ e. some (remains h ack e)) same
acknowledge_from-remains h ack now skipped t (none ∷ es) (suc k) e there =
    acknowledge_from-remains h ack now skipped t es k e there
acknowledge_from-remains h ack now skipped t (some g ∷ es) (suc k) e there =
    let samples = is_acknowledged h ack g && not skipped in
    acknowledge_from-remains h ack now (skipped || samples)
      (if samples then update_rtt t (sub64 now g.first_sent) else t) es k e there

-- What restarting the timers does to one entry.
abbrev restarted : ℕ → ℕ → ℕ → Option Transmission → Option Transmission
restarted h rto now none = none
restarted h rto now (some g) =
    if g.handle == h then some (record g { delay = rto; retry_at = u64 (now + rto) }) else some g

restart_lem :
    (h rto now : ℕ) (store : List (Option Transmission)) (k : ℕ) (e : Option Transmission)
    → get_elem? store k ≡ some e
    → get_elem? (restart h rto now store) k ≡ some (restarted h rto now e)
unfolding restart
restart_lem h rto now [] k e there = cc
restart_lem h rto now (none ∷ es) zero e there =
    let same : none ≡ e = cc in ap (λ e. some (restarted h rto now e)) same
restart_lem h rto now (some g ∷ es) zero e there =
    let same : some g ≡ e = cc in ap (λ e. some (restarted h rto now e)) same
restart_lem h rto now (none ∷ es) (suc k) e there = restart_lem h rto now es k e there
restart_lem h rto now (some g ∷ es) (suc k) e there = restart_lem h rto now es k e there

-- The order of sequence numbers is that of the places, within 2^31.
ahead-place :
    (base a b : ℕ) → a < 2 ^ 31 → b < 2 ^ 31 → ahead (u32 (base + a)) (u32 (base + b)) ≡ ltb b a
ahead-place base a b x y = ground arith

sub32-place : (base a b : ℕ) → a < 2 ^ 31 → b < a → sub32 (u32 (base + a)) (u32 (base + b)) ≡ a - b
sub32-place base a b x y = omega arith

advance-stored :
    (h ack now : ℕ) (s : Slot) (store : List (Option Transmission)) (k : ℕ)
    (e : Option Transmission)
    → get_elem? store k ≡ some e
    → let (s', store') = advance h ack now s store in
      get_elem? store' k ≡ some (restarted h s'.transport.rto now (remains h ack e))
unfolding advance
advance-stored h ack now s store k e there =
    let grown =
      bounded_window
        (grow (sub32 ack s.send_unacknowledged) (record s.transport { duplicate_acks = 0 })) in
    let (t, store') = acknowledge_from h ack now (was_retransmitted h store) grown store in
    restart_lem h t.rto now store' k (remains h ack e)
      (acknowledge_from-remains h ack now (was_retransmitted h store) grown store k e there)

acknowledge_transmissions-advance :
    (h ack now : ℕ) (s : Slot) (store : List (Option Transmission))
    → ahead ack s.send_unacknowledged ≡ true
    → acknowledge_transmissions h ack now s store ≡ advance h ack now s store
unfolding acknowledge_transmissions
acknowledge_transmissions-advance h ack now s store progress =
    ap (λ b. if not b then (s, store) else advance h ack now s store) progress

nothing : (p off : ℕ) → p ≤ off → p - off ≡ 0
nothing p off less = omega (arith, less)

-- What is left of one segment of the connection.
left_lem :
    (base p off h now rto : ℕ) (g : Transmission)
    → p < 2 ^ 31
    → g.handle ≡ h
    → g.sequence ≡ u32 (base + off)
    → 0 < length g.content
    → off + length g.content < 2 ^ 31
    → restarted h rto now (remains h (u32 (base + p)) (some g)) ≡ (
        if leb (off + length g.content) p
        then none
        else some (record g {
          sequence = u32 (base + (if ltb off p then p else off));
          content = drop (p - off) g.content;
          delay = rto;
          retry_at = u64 (now + rto);
        }))
unfolding remains
left_lem base p off h now rto g short own at some_byte long =
    let later : ahead (u32 (base + p)) g.sequence ≡ ltb off p =
      ap (ahead (u32 (base + p))) at ∙ ahead-place base p off short (omega (arith, long)) in
    let distance : off < p → sub32 (u32 (base + p)) g.sequence ≡ p - off =
      λ less. ap (sub32 (u32 (base + p))) at ∙ sub32-place base p off short less in
    let whole : p ≤ off → drop (p - off) g.content ≡ g.content =
      λ less. ap (λ n. drop n g.content) (nothing p off less) in
    ground (arith, later, distance, whole, own, at, some_byte, long)

-- A connection numbers its bytes from `base` on. An acknowledgement of the first `p` of them, with
-- progress, takes from every segment of the connection in the store exactly its bytes before place `p`:
-- the segment goes if none is left, else the rest stays where it belongs, to be sent again after the
-- connection's timeout. Places are below 2^31, and a segment has bytes.
pub acknowledge_transmissions_lem :
    (base p u off h now : ℕ) (s : Slot) (store : List (Option Transmission)) (k : ℕ)
    (g : Transmission)
    → s.send_unacknowledged ≡ u32 (base + u)
    → u < p
    → p < 2 ^ 31
    → get_elem? store k ≡ some (some g)
    → g.handle ≡ h
    → g.sequence ≡ u32 (base + off)
    → 0 < length g.content
    → off + length g.content < 2 ^ 31
    → let (s', store') = acknowledge_transmissions h (u32 (base + p)) now s store in
      let rto = s'.transport.rto in
      get_elem? store' k
      ≡ some (
          if leb (off + length g.content) p
          then none
          else some (record g {
            sequence = u32 (base + (if ltb off p then p else off));
            content = drop (p - off) g.content;
            delay = rto;
            retry_at = u64 (now + rto);
          }))
acknowledge_transmissions_lem base p u off h now s store k g un progressed short there own at
      some_byte long =
    let ack = u32 (base + p) in
    let progress : ahead ack s.send_unacknowledged ≡ true =
      ap (ahead ack) un
      ∙ ahead-place base p u short (omega (arith, progressed, short))
      ∙ ground (arith, progressed) in
    let moved = acknowledge_transmissions-advance h ack now s store progress in
    subst
      (λ (r : Slot × List (Option Transmission)).
        get_elem? r.1 k ≡ some (expected r.0.transport.rto))
      (sym moved)
      (advance-stored h ack now s store k (some g) there
        ∙ ap some (
            left_lem base p off h now (advance h ack now s store).0.transport.rto g short own at
              some_byte long))
  where
    expected : ℕ → Option Transmission
    expected rto =
        if leb (off + length g.content) p
        then none
        else some (record g {
          sequence = u32 (base + (if ltb off p then p else off));
          content = drop (p - off) g.content;
          delay = rto;
          retry_at = u64 (now + rto);
        })
