-- ===== src/Relay/Tcp.antt =====
-- v4/relay/tcp_server.go: the server of the TCP data ports. A connection is a number. What runs under
-- one lock is one step; what other goroutines do between two locks is an argument. Socket options
-- and logging are left out.
use relay_x.Prelude.{
  ℕ, Bool, true, false, not, Option, none, some, List, [], ◌∷◌, Text, codes, text_eq, Map, empty,
  put, if◌then◌else◌,
}
use relay_x.Errors.{Err, nil, wrap, code_conflict, Result, ok, err}
use relay_x.Ports.Defs.{Pool, Allocation, allocation, mark_occupied, release, touch_reservation}
use relay_x.Relay.Hello.{DataHello}

pub record Session : Type 0 where
  pub port : ℕ
  pub session_id : Text
  pub server_id : Text
  pub client_id : Text
  pub fe : ℕ
  pub be : ℕ

-- `closed` logs the connections and listeners that were closed, latest first; `stopped` the sessions
-- told to stop.
pub record Server : Type 0 where
  pub pool : Pool
  pub listeners : Map ℕ
  pub pending_s : Map ℕ
  pub pending_c : Map ℕ
  pub sessions : Map Session
  pub closed : List ℕ
  pub stopped : List Session

unfoldable pub new_server : Pool → Server
new_server pool = record {
  pool = pool;
  listeners = empty;
  pending_s = empty;
  pending_c = empty;
  sessions = empty;
  closed = [];
  stopped = [];
}

abbrev pub close : ℕ → Server → Server
close c s = record s { closed = c ∷ s.closed }

abbrev pub present {ℓ} : {A : Type ℓ} → Option A → Bool
present none = false
present (some a) = true

-- `StartPort`, of what `net.Listen` gives: the port is checked, then checked again under the lock.
abbrev listened : ℕ → (Server → Server) → Server → Result ℕ → Server × Err
listened port meanwhile s (err e) = (meanwhile s, wrap code_conflict (codes "tcp listen failed") e)
listened port meanwhile s (ok ln) =
    let s1 = meanwhile s in
    if present (s1.listeners port)
    then (close ln s1, nil)
    else (record s1 { listeners = put s1.listeners port (some ln) }, nil)

unfoldable pub start_port : ℕ → Result ℕ → (Server → Server) → Server → Server × Err
start_port port listen meanwhile s =
    if present (s.listeners port) then (s, nil) else listened port meanwhile s listen

-- `!ok || alloc.SessionID != h.SessionID`
abbrev pub mismatched : Option Allocation → Text → Bool
mismatched none session = true
mismatched (some a) session = not (text_eq a.session_id session)

-- The part of `handleConn` under the lock. `TryPair` runs next where it puts the connection in.
unfoldable pub enqueue : ℕ → Text → ℕ → Server → Server
enqueue port role c s =
    if present (s.sessions port)
    then close c s
    else if text_eq role (codes "server")
    then if present (s.pending_s port)
      then close c s
      else record s { pending_s = put s.pending_s port (some c) }
    else if text_eq role (codes "client")
    then if present (s.pending_c port)
      then close c s
      else record s { pending_c = put s.pending_c port (some c) }
    else close c s

-- `handleConn` up to the start of `tryPair`.
unfoldable pub handle_conn : ℕ → ℕ → Result DataHello → (Server → Server) → Server → Server
unfolding enqueue allocation
handle_conn port c (err e) meanwhile s = close c s
handle_conn port c (ok h) meanwhile s =
    if mismatched (allocation port s.pool) h.session_id
    then close c s
    else enqueue port h.role c (meanwhile s)

abbrev pub session_for : ℕ → Allocation → ℕ → ℕ → Session
session_for port a fe be = record {
  port = port;
  session_id = a.session_id;
  server_id = a.server_id;
  client_id = a.client_id;
  fe = fe;
  be = be;
}

-- `tryPair` with both pending connections taken out.
abbrev paired : ℕ → Option Allocation → ℕ → ℕ → Server → Server
paired port none sc cc s = close cc (close sc s)
paired port (some a) sc cc s = record s {
  sessions = put s.sessions port (some (session_for port a cc sc));
  pool = (mark_occupied port a.session_id s.pool).0;
}

abbrev pair_pending : ℕ → Option ℕ → Option ℕ → Server → Server
pair_pending port (some sc) (some cc) s =
    paired port (allocation port s.pool) sc cc
      (record s { pending_s = put s.pending_s port none; pending_c = put s.pending_c port none })
pair_pending port none cc s = s
pair_pending port sc none s = s

-- Its two calls of the pool, under the lock of the server, are part of the step.
unfoldable pub try_pair : ℕ → Server → Server
unfolding allocation
try_pair port s =
    if present (s.sessions port)
    then s
    else pair_pending port (s.pending_s port) (s.pending_c port) s

-- The callback that a session calls when it has ended: the session goes under the server's lock, the
-- port afterwards under the pool's.
unfoldable pub session_stopped : ℕ → Text → (Server → Server) → Server → Server
session_stopped port session meanwhile s =
    let s1 = meanwhile (record s { sessions = put s.sessions port none }) in
    record s1 { pool = (release port session s1.pool).0 }

-- The rounds of the two loops of `maintainPending`, at the time `now`, each with its calls of the pool under
-- the lock of the server.
abbrev maintained : ℕ → ℕ → Option Allocation → Pool → Pool
maintained port now none pool = pool
maintained port now (some a) pool = touch_reservation port a.session_id now pool

abbrev maintain_one : ℕ → ℕ → Option ℕ → (Server → Server) → Server → Server
maintain_one port now none drop s = s
maintain_one port now (some c) drop s =
    if present (allocation port s.pool)
    then record s { pool = maintained port now (allocation port s.pool) s.pool }
    else close c (drop s)

unfoldable pub maintain_s : ℕ → ℕ → Server → Server
unfolding allocation
maintain_s port now s =
    maintain_one port now (s.pending_s port)
      (λ t. record t { pending_s = put t.pending_s port none }) s

unfoldable pub maintain_c : ℕ → ℕ → Server → Server
unfolding allocation
maintain_c port now s =
    maintain_one port now (s.pending_c port)
      (λ t. record t { pending_c = put t.pending_c port none }) s

-- A loop over the ports in the order that Go visits them.
unfoldable pub each {ℓ} : {S : Type ℓ} → (ℕ → S → S) → List ℕ → S → S
each f [] s = s
each f (port ∷ ports) s = each f ports (f port s)

unfoldable pub maintain_pending : List ℕ → List ℕ → ℕ → Server → Server
unfolding each maintain_s maintain_c
maintain_pending order_s order_c now s =
    each (λ port. maintain_c port now) order_c (each (λ port. maintain_s port now) order_s s)

-- `TickPair`, over the listening ports.
unfoldable pub tick_pair : List ℕ → Server → Server
unfolding each try_pair
tick_pair order = each try_pair order

abbrev pub close_all : Option ℕ → List ℕ → List ℕ
close_all none log = log
close_all (some c) log = c ∷ log

abbrev stop_all_sessions : Option Session → List Session → List Session
stop_all_sessions none log = log
stop_all_sessions (some x) log = x ∷ log

unfoldable pub stop_listener : ℕ → Server → Server
stop_listener port s = record s {
  closed = close_all (s.listeners port) s.closed;
  listeners = put s.listeners port none;
}

unfoldable pub stop_pending_s : ℕ → Server → Server
stop_pending_s port s = record s {
  closed = close_all (s.pending_s port) s.closed;
  pending_s = put s.pending_s port none;
}

unfoldable pub stop_pending_c : ℕ → Server → Server
stop_pending_c port s = record s {
  closed = close_all (s.pending_c port) s.closed;
  pending_c = put s.pending_c port none;
}

unfoldable pub stop_session : ℕ → Server → Server
stop_session port s = record s {
  stopped = stop_all_sessions (s.sessions port) s.stopped;
  sessions = put s.sessions port none;
}

-- `StopAll`, over the keys of the four maps.
unfoldable pub stop_all : List ℕ → List ℕ → List ℕ → List ℕ → Server → Server
unfolding each stop_listener stop_pending_s stop_pending_c stop_session
stop_all ls ss cs xs s =
    each stop_session xs (each stop_pending_c cs (each stop_pending_s ss (each stop_listener ls s)))
