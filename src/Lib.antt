-- ===== src/Lib.antt =====
-- The portable core of mikOS, a small flat-memory operating system for RV32 in C++. Its
-- pipes, processes, signals, sockets and copies of process images are kept in tables of fixed
-- capacity, which are classes without any access to the machine. They are what is modelled here, with
-- the frames of the network and the paths of the file system.
--
-- The parts, and the files of the model:
--   Ring         include/mikos/io/ring_buffer.hpp: the bytes of a pipe, in an array that is
--                read and written round.
--   Slots        the handles with generations that the tables of include/mikos/process give out.
--   Pipe         include/mikos/process/pipe.hpp: the pipe table. A pipe has a ring, counts its
--                readers and writers, and is freed with the last of them. Pipe/Spec is the pipe as a
--                queue of bytes that the table is compared with.
--   Snapshot     include/mikos/process/snapshot_arena.hpp: the arena for the images of forked processes,
--                a sorted array of free extents.
--   Signal       include/mikos/process/signal.hpp: masks, actions and the pending set of a process.
--   Process      include/mikos/process/model.hpp: the process table, from fork to wait. Its records
--                carry a Signal.State.
--   Pty          include/mikos/process/pty.hpp: pseudo terminals, two rings each, with locks, sessions
--                and the line disciplines. Its handles are those of Slots.
--   Arena        include/mikos/memory/arena.hpp: an allocator over contiguous blocks with headers.
--   Scatter      include/mikos/io/scatter_write.hpp and include/mikos/base.hpp: checked ranges of user
--                memory, written one after another by a writer that is a parameter.
--   Socket       include/mikos/net/socket.hpp: the table of TCP sockets: addresses, the queues of
--                listeners, and the bytes of a connection with the segments that came early.
--   Net          include/mikos/net/tcp.hpp, include/mikos/net/ethernet.hpp, and send_segment of
--                network/stack.cpp: the frames of TCP segments, their headers, checksums and options,
--                written from a Socket.Slot and read; the replies to ARP and echo requests; and
--                include/mikos/net/interface.hpp, the requests for the interface.
--   Transmit     network/stack.cpp and include/mikos/net/timing.hpp: the segments that are sent and not
--                yet acknowledged, the timeout and the congestion window.
--   Path         kernel/path.hpp: the numbers at the end of device names, and canonical paths. The
--                names between the slashes are what a canonical path is compared with.
--   Prelude      lists, tests and machine words that these share.
--
-- A function of the source is a function of the same name, from the arguments and the table to the
-- results and the new table. A class template's parameters are arguments, an array is a list whose
-- length is the capacity, a pointer into an array is an index or the element that it points to, and
-- a 64-bit mask is its bits. Unsigned arithmetic is written with its wrap-around (u16, u32, sub32).
-- Loops are structural recursion on a list, or on the number of rounds that the source's bound gives.
-- Loops without such a bound have fuel: drain_reassembly one round more than the store has entries,
-- and each round but the last empties one; canonicalize and parse_tcp_options as many rounds as there
-- are bytes, and one more for the options, and each round takes a byte; the checksum two rounds of
-- carries, which are enough for a sum of 32 bits (Path.Names, Net.Ending, Net.Checksum).
--
-- Not modelled: the code that calls these classes (kernel/syscall.cpp), the fixed allocator, the
-- scheduler, the file systems, the rest of the network stack (the handling of a segment in each
-- state, the timers), and all that touches the machine: drivers, boot and traps. None of these classes
-- synchronises, so an operation is one step.
pub mod Prelude
pub mod Ring
pub mod Slots
pub mod Pipe
pub mod Snapshot
pub mod Signal
pub mod Process
pub mod Pty
pub mod Arena
pub mod Scatter
pub mod Path
pub mod Socket
pub mod Net
pub mod Transmit
