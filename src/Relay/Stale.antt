-- ===== src/Relay/Stale.antt =====
-- v4/relay/tcp_server.go: a connection that waits does not remember the session it came for.
use relay_x.Prelude.{ℕ, ◌≡◌, ◌≢◌, some, codes, arith, put}
use relay_x.Errors.{ok}
use relay_x.Status.{reserved, occupied}
use relay_x.Ports.Defs.{Pool, Allocation}
use relay_x.Relay.Tcp.{Server, handle_conn, session_for, try_pair}
use relay_x.Relay.Sessions.{Waiting, hello, at_once, queue_server, queue_client, try_pair_lem}

-- The server of the session of `a` connects; the pool comes to be `p`; the client of the session of
-- `b` connects, and the two are paired.
abbrev pub mixed : ℕ → Allocation → Allocation → ℕ → ℕ → Pool → Server → Server
mixed port a b sc cc p s =
    let s1 = handle_conn port sc (ok (hello (codes "server") a a.server_id)) at_once s in
    try_pair port (
      handle_conn port cc (ok (hello (codes "client") b b.client_id)) at_once
        (record s1 { pool = p }))

-- Where the reservation of a port runs out while its server's connection waits there, and the port
-- is reserved again for another session before the next maintenance, the client of the new session
-- is joined with the server's connection of the old one, and the port is marked occupied.
pub mixed_sessions :
    (port : ℕ) (a b : Allocation) (sc cc : ℕ) (p : Pool) (s : Server)
    → Waiting port a s
    → p.alloc port ≡ some b
    → p.state port ≡ some reserved
    → a.session_id ≢ b.session_id
    → ((mixed port a b sc cc p s).sessions port ≡ some (session_for port b cc sc))
      × ((mixed port a b sc cc p s).pool.state port ≡ some occupied)
mixed_sessions port a b sc cc p s w h r n =
    rw (queue_server port a a.server_id sc s w.alloc w.no_session w.no_server) (
      rw (queue_client port b b.client_id cc taken_over h w.no_session w.no_client) (
        rw (try_pair_lem port b sc cc both h r w.no_session (ground arith) (ground arith))
          (ground arith, ground arith)))
  where
    taken_over : Server
    taken_over = record s { pool = p; pending_s = put s.pending_s port (some sc) }

    both : Server
    both = record taken_over { pending_c = put s.pending_c port (some cc) }
