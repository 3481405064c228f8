-- ===== src/Transmit/Tests.antt =====
-- A connection that sent six bytes in two segments, of which five are acknowledged.
use mikos.Prelude.{
  ℕ, ◌+◌, ◌-◌, ◌≡◌, refl, List, [], ◌∷◌, Option, none, some, false, if◌then◌else◌, ltb, leb, arith,
  get_elem?, length, drop, u32,
}
use mikos.Socket.{Slot, vacant, first_transport}
use mikos.Transmit.{
  Transmission, u64, acknowledge_transmissions, acknowledge_from, advance, grow, update_rtt,
  was_retransmitted, remains, restart,
}
use mikos.Transmit.Acknowledged.{acknowledge_transmissions_lem}
use mikos.Transmit.Bounds.{IsBounded, acknowledge_transmissions-IsBounded}

abbrev segment : ℕ → List ℕ → Transmission
segment sequence content = record {
  handle = 2;
  sequence = sequence;
  retry_at = 5000;
  delay = 10000000;
  first_sent = 1000;
  fast_retry = false;
  flags = 24;
  attempts = 1;
  content = content;
}

-- The second segment's number has wrapped around.
abbrev store : List (Option Transmission)
store = none ∷ some (segment 4294967294 (1 ∷ 2 ∷ 3 ∷ [])) ∷ some (segment 1 (4 ∷ 5 ∷ 6 ∷ [])) ∷ []

abbrev socket : Slot
socket = record vacant {
  send_unacknowledged = 4294967294;
  send_next = 4;
  transport = first_transport;
}

acknowledged_test :
    (acknowledge_transmissions 2 3 30001000 socket store).1
    ≡ none
      ∷ none
      ∷ some (record (segment 3 (6 ∷ [])) { delay = 90000000; retry_at = 120001000 })
      ∷ []
unfolding acknowledge_transmissions acknowledge_from advance grow update_rtt was_retransmitted
    remains restart
acknowledged_test = refl

acknowledge_transmissions_lem_example :
    let (s', store') = acknowledge_transmissions 2 (u32 (4294967294 + 5)) 30001000 socket store in
    let g = segment 1 (4 ∷ 5 ∷ 6 ∷ []) in
    get_elem? store' 2
    ≡ some (
        if leb (3 + length g.content) 5
        then none
        else some (record g {
          sequence = u32 (4294967294 + (if ltb 3 5 then 5 else 3));
          content = drop (5 - 3) g.content;
          delay = s'.transport.rto;
          retry_at = u64 (30001000 + s'.transport.rto);
        }))
acknowledge_transmissions_lem_example =
    acknowledge_transmissions_lem 4294967294 5 0 3 2 30001000 socket store 2
      (segment 1 (4 ∷ 5 ∷ 6 ∷ [])) refl (omega arith) (omega arith) refl refl refl (omega arith)
      (omega arith)

first-IsBounded : IsBounded first_transport
first-IsBounded = record { least = omega arith; most = omega arith; window = omega arith }

acknowledge_transmissions-IsBounded_example :
    IsBounded (acknowledge_transmissions 2 3 30001000 socket store).0.transport
acknowledge_transmissions-IsBounded_example =
    acknowledge_transmissions-IsBounded 2 3 30001000 socket store first-IsBounded
