-- ===== src/Relay/Sessions.antt =====
-- v4/relay/tcp_server.go: the life of a session, from the two connections to the freed port.
use relay_x.Prelude.{
  ℕ, ◌≡◌, refl, false, none, some, Text, codes, text_eq, arith, put, ◌∙◌, put_same, put-put,
  text_eq_refl,
}
use relay_x.Errors.{ok}
use relay_x.Status.{idle, reserved, occupied}
use relay_x.Ports.Defs.{Allocation, mark_occupied, release}
use relay_x.Relay.Hello.{DataHello}
use relay_x.Relay.Tcp.{Server, handle_conn, session_for, try_pair, session_stopped}

-- A port whose allocation is reserved for a session, and on which nobody waits.
pub record Waiting (port : ℕ) (a : Allocation) (s : Server) : Type 0 where
  pub alloc : s.pool.alloc port ≡ some a
  pub reserved : s.pool.state port ≡ some reserved
  pub no_session : s.sessions port ≡ none
  pub no_server : s.pending_s port ≡ none
  pub no_client : s.pending_c port ≡ none

abbrev pub hello : Text → Allocation → Text → DataHello
hello role a id = record { role = role; session_id = a.session_id; id = id }

abbrev pub at_once : Server → Server
at_once s = s

-- The two data connections of a session arrive, undisturbed, in either order; then `tryPair` runs.
abbrev pub server_first : ℕ → Allocation → ℕ → ℕ → Server → Server
server_first port a sc cc s = try_pair port (
    handle_conn port cc (ok (hello (codes "client") a a.client_id)) at_once
      (handle_conn port sc (ok (hello (codes "server") a a.server_id)) at_once s))

abbrev pub client_first : ℕ → Allocation → ℕ → ℕ → Server → Server
client_first port a sc cc s = try_pair port (
    handle_conn port sc (ok (hello (codes "server") a a.server_id)) at_once
      (handle_conn port cc (ok (hello (codes "client") a a.client_id)) at_once s))

abbrev pub running : ℕ → Allocation → ℕ → ℕ → Server → Server
running port a sc cc s = record s {
  sessions = put s.sessions port (some (session_for port a cc sc));
  pool = record s.pool { state = put s.pool.state port (some occupied) };
}

client_is_no_server : text_eq (codes "client") (codes "server") ≡ false
unfolding text_eq
client_is_no_server = refl

pub queue_server :
    (port : ℕ) (a : Allocation) (id : Text) (c : ℕ) (s : Server)
    → s.pool.alloc port ≡ some a
    → s.sessions port ≡ none
    → s.pending_s port ≡ none
    → handle_conn port c (ok (hello (codes "server") a id)) at_once s
      ≡ record s { pending_s = put s.pending_s port (some c) }
unfolding handle_conn
queue_server port a id c s h n p =
    ground (arith, text_eq_refl a.session_id, text_eq_refl (codes "server"))

pub queue_client :
    (port : ℕ) (a : Allocation) (id : Text) (c : ℕ) (s : Server)
    → s.pool.alloc port ≡ some a
    → s.sessions port ≡ none
    → s.pending_c port ≡ none
    → handle_conn port c (ok (hello (codes "client") a id)) at_once s
      ≡ record s { pending_c = put s.pending_c port (some c) }
unfolding handle_conn
queue_client port a id c s h n p =
    ground (arith, text_eq_refl a.session_id, text_eq_refl (codes "client"), client_is_no_server)

pub try_pair_lem :
    (port : ℕ) (a : Allocation) (sc cc : ℕ) (s : Server)
    → s.pool.alloc port ≡ some a
    → s.pool.state port ≡ some reserved
    → s.sessions port ≡ none
    → s.pending_s port ≡ some sc
    → s.pending_c port ≡ some cc
    → try_pair port s ≡ record s {
      pending_s = put s.pending_s port none;
      pending_c = put s.pending_c port none;
      sessions = put s.sessions port (some (session_for port a cc sc));
      pool = record s.pool { state = put s.pool.state port (some occupied) };
    }
unfolding try_pair mark_occupied
try_pair_lem port a sc cc s h r n p q = ground (arith, text_eq_refl a.session_id)

-- Where a port is reserved for a session and nobody waits on it, the two connections of
-- the session, in either order and with nothing in between, and the pairing after them, start the
-- session of the allocation between the two, mark the port occupied, and change nothing else.
pub session_starts :
    (port : ℕ) (a : Allocation) (sc cc : ℕ) (s : Server)
    → Waiting port a s
    → (server_first port a sc cc s ≡ running port a sc cc s)
      × (client_first port a sc cc s ≡ running port a sc cc s)
session_starts port a sc cc s w = (
  rw (queue_server port a a.server_id sc s w.alloc w.no_session w.no_server) (
      rw (queue_client port a a.client_id cc with_server w.alloc w.no_session w.no_client) (
        try_pair_lem port a sc cc with_both w.alloc w.reserved w.no_session (ground arith)
          (ground arith)
        ∙ settled)),
  rw (queue_client port a a.client_id cc s w.alloc w.no_session w.no_client) (
      rw (queue_server port a a.server_id sc with_client w.alloc w.no_session w.no_server) (
        try_pair_lem port a sc cc with_both w.alloc w.reserved w.no_session (ground arith)
          (ground arith)
        ∙ settled)),
)
  where
    with_server : Server
    with_server = record s { pending_s = put s.pending_s port (some sc) }

    with_client : Server
    with_client = record s { pending_c = put s.pending_c port (some cc) }

    with_both : Server
    with_both = record s {
      pending_s = put s.pending_s port (some sc);
      pending_c = put s.pending_c port (some cc);
    }

    settled :
        record with_both {
          pending_s = put with_both.pending_s port none;
          pending_c = put with_both.pending_c port none;
          sessions = put s.sessions port (some (session_for port a cc sc));
          pool = record s.pool { state = put s.pool.state port (some occupied) };
        }
        ≡ running port a sc cc s
    settled = ground (
      arith,
      put-put s.pending_s port (some sc) none,
      put_same s.pending_s port none w.no_server,
      put-put s.pending_c port (some cc) none,
      put_same s.pending_c port none w.no_client,
    )

-- When such a session ends, undisturbed, the port is idle again with no allocation, no session is
-- left on it, and nothing else has changed since before the connections came.
pub session_ends :
    (port : ℕ) (a : Allocation) (sc cc : ℕ) (s : Server)
    → Waiting port a s
    → session_stopped port a.session_id at_once (running port a sc cc s) ≡ record s {
      pool = record s.pool {
        state = put s.pool.state port (some idle);
        alloc = put s.pool.alloc port none;
      };
    }
unfolding session_stopped release
session_ends port a sc cc s w = ground (
  arith,
  text_eq_refl a.session_id,
  w.alloc,
  put-put s.sessions port (some (session_for port a cc sc)) none,
  put_same s.sessions port none w.no_session,
  put-put s.pool.state port (some occupied) (some idle),
)
