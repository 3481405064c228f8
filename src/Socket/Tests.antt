-- ===== src/Socket/Tests.antt =====
-- The theorems of the socket table at concrete tables, and runs of its operations.
use mikos.Prelude.{
  ℕ, ◌+◌, ◌≤◌, ◌≡◌, ◌⊎◌, refl, List, [], ◌∷◌, ◌++◌, Option, none, some, true, false, arith, length,
  drop,
}
use mikos.Socket.{
  Table, Segment, Endpoint, stream, empty_table, slot, at, allocate, address_in_use,
  clear_reassembly,
}
use mikos.Socket.Ports.{
  allocate_ephemeral_port, open_socket, bind, port_conflicts, listen, is_bound,
}
use mikos.Socket.Lifecycle.{begin_connection, establish, pending}
use mikos.Socket.Stream.{receive, read, drain_reassembly, drain_fuel}
use mikos.Socket.InOrder.{
  Event, segment, reads, other_segment, other_read, Fresh, run, read-IsPrefix, read_to_end,
}
use mikos.Socket.Termination.{drain_fuel_lem}
use mikos.Socket.Asked.{IsGiven, IsWithout, IsApart}
use mikos.Socket.Binding.{bind_lem, begin_connection_lem}

abbrev web : Endpoint
web = record { address = 0; port = 80 }

abbrev client : Endpoint
client = record { address = 167772162; port = 40000 }

abbrev opened : Table
opened = (open_socket stream empty_table).2

abbrev serving : Table
serving = (listen 0 2 (bind 0 web opened).1).1

-- A new connection, socket 1, whose peer numbers its bytes from 4294967295 on.
abbrev connected : Table
connected = (establish 1 701 (begin_connection 0 web client 99 4294967294 700 serving).2).1

-- The peer's segments come in the wrong order, one twice and two that overlap.
abbrev bytes : List ℕ
bytes = 11 ∷ 12 ∷ 13 ∷ 14 ∷ 15 ∷ 16 ∷ []

abbrev events : List Event
events =
    segment 2 3 false
    ∷ segment 4 2 true
    ∷ other_segment 5 1 bytes false
    ∷ segment 2 3 false
    ∷ reads 4
    ∷ segment 0 3 false
    ∷ reads 4
    ∷ other_read 0 9
    ∷ reads 9
    ∷ []

connected-Fresh : Fresh 4294967295 1 connected
unfolding open_socket bind port_conflicts listen slot allocate begin_connection establish at
connected-Fresh = record {
  value = at connected.slots 1;
  there = refl;
  live = refl;
  nothing = refl;
  open_yet = refl;
  awaits = refl;
  no_segments = (
    tt,
    (tt, (tt, (tt, (tt, (tt, (tt, (tt, (tt, (tt, (tt, (tt, (tt, (tt, (tt, (tt, tt))))))))))))))),
  );
}

read-IsPrefix_example :
    let (got, t') = run bytes 4294967295 1 ([], connected) events in
    got ++ drop (length got) bytes ≡ bytes
read-IsPrefix_example =
    read-IsPrefix bytes 4294967295 1 (omega arith) connected events connected-Fresh

read_to_end_example : (run bytes 4294967295 1 ([], connected) events).0 ≡ bytes
unfolding open_socket bind port_conflicts listen slot allocate begin_connection establish at run
    receive read clear_reassembly
read_to_end_example =
    read_to_end bytes 4294967295 1 (omega arith) connected events 9 connected-Fresh refl refl refl

early : List (Option Segment)
early = some (record { handle = 1; sequence = 7; finish = false; bytes = 1 ∷ [] }) ∷ none ∷ []

drain_fuel_lem_example :
    drain_reassembly (drain_fuel early + 5) 1 (at connected.slots 1) early
    ≡ drain_reassembly (drain_fuel early) 1 (at connected.slots 1) early
drain_fuel_lem_example = drain_fuel_lem 5 1 (at connected.slots 1) early

-- A second socket cannot take port 80.
abbrev second : Table
second = (open_socket stream serving).2

taken : (bind 1 web second).0 ≡ address_in_use
unfolding open_socket bind port_conflicts listen slot allocate begin_connection establish at
taken = refl

abbrev any : Endpoint
any = record { address = 167772161; port = 0 }

-- Port 0 is answered by the first port of the range, 8080 by itself.
any_port : (at (bind 1 any second).1.slots 1).here.port ≡ 49152
unfolding open_socket bind port_conflicts listen slot allocate begin_connection establish at
    allocate_ephemeral_port
any_port = refl

abbrev other_web : Endpoint
other_web = record { address = 167772161; port = 8080 }

bind_lem_example :
    let given = (at (bind 1 other_web second).1.slots 1).here in
    (is_bound (at (bind 1 other_web second).1.slots 1).state ≡ true)
    × (given.address ≡ 167772161)
    × IsGiven 8080 given.port
    × ((◌≡◌ {A = ℕ} 0 1) ⊎ (IsWithout (at second.slots 0) ⊎ IsApart (at second.slots 0).here given))
unfolding open_socket bind port_conflicts listen slot allocate begin_connection establish at
bind_lem_example = bind_lem 1 other_web second 0 refl

begin_connection_lem_example :
    pending 0 (begin_connection 0 web any 98 5 6 connected).2.slots ≤ (at connected.slots 0).backlog
unfolding open_socket bind port_conflicts listen slot allocate begin_connection establish at pending
begin_connection_lem_example =
    begin_connection_lem 0 web any 98 5 6 connected (at connected.slots 0) refl (omega arith)
