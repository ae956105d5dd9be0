-- ===== src/Lib.antt =====
-- Verification of relay_X, a relay that pairs front ends (clients) with back ends (servers) and
-- forwards their data. The current generation, v4, has a control plane, which registers connections
-- and pairs them, port pools, which hold the data ports, and a data plane, which joins the two data
-- connections of a session. The control plane reserves ports; the data plane marks them occupied
-- when both connections are up and releases them when the session ends; a sweep frees the
-- reservations that nobody used.
--
-- Files and code:
--   Errors       v4/errors/errors.go: errors with codes. `Err` is a chain of errors.
--   Status       v4/status/status.go: the status texts, over decoded JSON documents.
--   Ports        v4/ports/pool.go: the pool of ports. Each method holds the mutex throughout and is
--                one step on the record `Pool`; Go's maps are functions.
--   Control      v4/control/protocol.go and server.go: messages, registration, pairing. In
--                Control.Serving the handlers of the connections, the broadcasts and the status page
--                are steps on the record `Gateway`; `Control.Gateway.Happens` lists what can happen.
--   Relay        v4/relay/tcp_server.go and hello.go: the servers of the TCP data ports. What one
--                goroutine does under one lock of the server, with its calls of the pool, is one step
--                on `Server`; `Relay.Valid.Act` lists the atomic steps that interleave. v4/relay/session.go: one direction of a session is a
--                sequence of rounds, `Relay.Pipe.Round`, with what the connections do in each.
--                `Relay.Duplex` is a whole session, whose directions run at the same time, and the
--                heartbeat check of v4/relay/manager.go.
--                v4/relay/srt_server.go: the servers of the SRT data ports (Relay.Srt, Relay.Forget).
--                Relay.Booting: `Start` and `Stop` of v4/relay/manager.go, on the record `Plane` of both
--                servers. Relay.Whole: pairing, the connections and the end of a session together.
--   Buffer       v3/relay/buffer.go: the ring buffer of a session, a list of blocks of bytes.
--   Pipes        v3/relay/pipe.go (that of v2 is the same): a session of v3. Its four goroutines and
--                the one inside `Stop` take steps, `Pipes.Steps.Step`, that interleave.
--   Leases       v3/control/port_manager.go: the leases that the older control plane grants. Its three
--                maps are association lists.
--   Slots        v3/relay/server.go: the slots of the older data plane. `Slots.Granting` grants leases
--                over a snapshot of the slots.
--   Central      v3/control/hub.go: the clients of the older control plane and their messages, over
--                Leases and Slots; the port ranges of port_manager.go (Central.Ranges). The role that
--                a client registers is only logged, and left out. A handler is one step. It goes on after
--                its client has left the hub: `MayAsk` says which handlers may then ask for a lease.
--   V1           the oldest generation. V1.Leases: v1/control/port_manager.go (that of v2 is the same);
--                V1.Relay: v1/relay/server.go, with the atomic steps `V1.Relay.Valid.Act`; V1.Reaper:
--                v1/control/reaper.go, where a timer is running, fired or has begun its kill; V1.Hub:
--                v1/control/hub.go and auth.go, over the other three, with the messages in
--                V1.Hub.Messages, and the hook that cmd/relay-server/main.go sets; `V1.Hub.Run.Step`
--                lists what can happen to the hub.
--   Config       v4/config: port ranges, defaults, checks, loading; `itoa` of v4/relay/manager.go.
--   Video        v4/testing/video/proto.go: the frames of the video test programs. The checksum is an
--                argument; 64-bit times are wrapped as Go converts them.
--   Prelude      shared helpers: tests, lists, integers, maps, texts, sorting, decimal numbers.
--
-- Conventions: a Go `int` that the code compares with 0 is an integer, other numbers are natural
-- numbers. Strings are lists of code points. The time and fresh ids are arguments where the code
-- reads them. Where Go ranges over a map and the order could show, the order is an argument.
-- Where a goroutine leaves a lock and takes it again, what others do in between is an argument
-- (`Surroundings` for the pairing loop). The pairing loop makes at most 50 tries in the code, so
-- it recurs on the tries left and needs no fuel. `Buffer.write` gives its loop a round for each byte,
-- which is enough, as each round writes a byte. A call that waits on a condition variable ends as
-- `waits` there, and is called again with what remains.
--
-- Not modelled: sockets and deadlines, logging, JSON bytes (a document is taken decoded), metrics,
-- telemetry, the statistics of SRT and byte sizes in the configuration (all floating point), the
-- configuration and the log stream of v1, and v2, whose control plane and sessions do the same as those
-- of v1 and v3, and whose relay server is superseded.
pub mod Prelude
pub mod Errors
pub mod Status
pub mod Ports
pub mod Control
pub mod Relay
pub mod Central
pub mod Config
pub mod V1
pub mod Video
pub mod Buffer
pub mod Leases
pub mod Pipes
pub mod Slots
