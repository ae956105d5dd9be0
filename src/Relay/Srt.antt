-- ===== src/Relay/Srt.antt =====
-- v4/relay/srt_server.go: the server of the SRT data ports. A waiting connection is kept with its
-- SRT connection, for the statistics. What runs under one lock is one step, as for the TCP server.
use relay_x.Prelude.{
  ℕ, Option, none, some, List, [], ◌∷◌, Text, codes, text_eq, Map, empty, put, if◌then◌else◌,
}
use relay_x.Errors.{Err, nil, wrap, code_conflict, Result, ok, err}
use relay_x.Ports.Defs.{Pool, Allocation, allocation, mark_occupied, release, touch_reservation}
use relay_x.Relay.Hello.{DataHello}
use relay_x.Relay.Tcp.{Session, present, mismatched, session_for, close_all}

pub record SrtPending : Type 0 where
  pub raw : ℕ
  pub bc : ℕ

pub record SrtSession : Type 0 where
  pub session : Session
  pub raw_server : ℕ
  pub raw_client : ℕ
  pub bc_server : ℕ
  pub bc_client : ℕ

-- `closed` and `stopped` log as those of the TCP server do.
pub record SrtServer : Type 0 where
  pub pool : Pool
  pub listeners : Map ℕ
  pub pending_s : Map SrtPending
  pub pending_c : Map SrtPending
  pub sessions : Map SrtSession
  pub closed : List ℕ
  pub stopped : List Session

unfoldable pub new_srt_server : Pool → SrtServer
new_srt_server pool = record {
  pool = pool;
  listeners = empty;
  pending_s = empty;
  pending_c = empty;
  sessions = empty;
  closed = [];
  stopped = [];
}

abbrev pub srt_close : ℕ → SrtServer → SrtServer
srt_close c s = record s { closed = c ∷ s.closed }

abbrev srt_listened : ℕ → (SrtServer → SrtServer) → SrtServer → Result ℕ → SrtServer × Err
srt_listened port meanwhile s (err e) =
    (meanwhile s, wrap code_conflict (codes "srt listen failed") e)
srt_listened port meanwhile s (ok ln) =
    let s1 = meanwhile s in
    if present (s1.listeners port)
    then (srt_close ln s1, nil)
    else (record s1 { listeners = put s1.listeners port (some ln) }, nil)

unfoldable pub srt_start_port : ℕ → Result ℕ → (SrtServer → SrtServer) → SrtServer → SrtServer × Err
srt_start_port port listen meanwhile s =
    if present (s.listeners port) then (s, nil) else srt_listened port meanwhile s listen

-- The part of `handleConn` under the lock, for a connection and its buffered connection.
unfoldable pub srt_enqueue : ℕ → Text → SrtPending → SrtServer → SrtServer
srt_enqueue port role p s =
    if present (s.sessions port)
    then srt_close p.bc s
    else if text_eq role (codes "server")
    then if present (s.pending_s port)
      then srt_close p.bc s
      else record s { pending_s = put s.pending_s port (some p) }
    else if text_eq role (codes "client")
    then if present (s.pending_c port)
      then srt_close p.bc s
      else record s { pending_c = put s.pending_c port (some p) }
    else srt_close p.bc s

-- What follows the handshake.
abbrev srt_greeted :
    ℕ → SrtPending → (SrtServer → SrtServer) → SrtServer → Result DataHello → SrtServer
srt_greeted port p meanwhile s (err e) = srt_close p.bc s
srt_greeted port p meanwhile s (ok h) =
    if mismatched (allocation port s.pool) h.session_id
    then srt_close p.bc s
    else srt_enqueue port h.role p (meanwhile s)

-- `handleConn` up to the start of `tryPair`; `raw` is `none` where `c` is no SRT connection.
unfoldable pub srt_handle_conn :
    ℕ → ℕ → Option ℕ → Result DataHello → (SrtServer → SrtServer) → SrtServer → SrtServer
unfolding srt_enqueue allocation
srt_handle_conn port c none hello meanwhile s = srt_close c s
srt_handle_conn port c (some raw) hello meanwhile s =
    srt_greeted port (record { raw = raw; bc = c }) meanwhile s hello

abbrev srt_session_for : ℕ → Allocation → SrtPending → SrtPending → SrtSession
srt_session_for port a sp cp = record {
  session = session_for port a cp.bc sp.bc;
  raw_server = sp.raw;
  raw_client = cp.raw;
  bc_server = sp.bc;
  bc_client = cp.bc;
}

-- `tryPair` with both pending connections taken out.
abbrev srt_paired : ℕ → Option Allocation → SrtPending → SrtPending → SrtServer → SrtServer
srt_paired port none sp cp s = srt_close cp.bc (srt_close sp.bc s)
srt_paired port (some a) sp cp s = record s {
  sessions = put s.sessions port (some (srt_session_for port a sp cp));
  pool = (mark_occupied port a.session_id s.pool).0;
}

abbrev srt_pair_pending : ℕ → Option SrtPending → Option SrtPending → SrtServer → SrtServer
srt_pair_pending port (some sp) (some cp) s =
    srt_paired port (allocation port s.pool) sp cp
      (record s { pending_s = put s.pending_s port none; pending_c = put s.pending_c port none })
srt_pair_pending port none cp s = s
srt_pair_pending port sp none s = s

unfoldable pub srt_try_pair : ℕ → SrtServer → SrtServer
unfolding allocation
srt_try_pair port s =
    if present (s.sessions port)
    then s
    else srt_pair_pending port (s.pending_s port) (s.pending_c port) s

-- The callback of a session that has ended: first under the server's lock, then under the pool's.
unfoldable pub srt_session_stopped : ℕ → Text → (SrtServer → SrtServer) → SrtServer → SrtServer
srt_session_stopped port session meanwhile s =
    let s1 = meanwhile (record s { sessions = put s.sessions port none }) in
    record s1 { pool = (release port session s1.pool).0 }

-- A round of one of the loops of `maintainPending`.
abbrev srt_maintain_one :
    ℕ → ℕ → Option SrtPending → Option Allocation → (SrtServer → SrtServer) → SrtServer → SrtServer
srt_maintain_one port now none alloc drop s = s
srt_maintain_one port now (some p) none drop s = srt_close p.bc (drop s)
srt_maintain_one port now (some p) (some a) drop s = record s {
  pool = touch_reservation port a.session_id now s.pool;
}

unfoldable pub srt_maintain_s : ℕ → ℕ → SrtServer → SrtServer
unfolding allocation
srt_maintain_s port now s =
    srt_maintain_one port now (s.pending_s port) (allocation port s.pool)
      (λ t. record t { pending_s = put t.pending_s port none }) s

unfoldable pub srt_maintain_c : ℕ → ℕ → SrtServer → SrtServer
unfolding allocation
srt_maintain_c port now s =
    srt_maintain_one port now (s.pending_c port) (allocation port s.pool)
      (λ t. record t { pending_c = put t.pending_c port none }) s

-- `StopAll`, one key of one map at a time.
unfoldable pub srt_stop_listener : ℕ → SrtServer → SrtServer
srt_stop_listener port s = record s {
  closed = close_all (s.listeners port) s.closed;
  listeners = put s.listeners port none;
}

abbrev pub bc_of : Option SrtPending → Option ℕ
bc_of none = none
bc_of (some p) = some p.bc

abbrev pub session_in : Option SrtSession → Option Session
session_in none = none
session_in (some x) = some x.session

abbrev srt_stop_of : Option SrtSession → List Session → List Session
srt_stop_of none log = log
srt_stop_of (some x) log = x.session ∷ log

unfoldable pub srt_stop_s : ℕ → SrtServer → SrtServer
srt_stop_s port s = record s {
  closed = close_all (bc_of (s.pending_s port)) s.closed;
  pending_s = put s.pending_s port none;
}

unfoldable pub srt_stop_c : ℕ → SrtServer → SrtServer
srt_stop_c port s = record s {
  closed = close_all (bc_of (s.pending_c port)) s.closed;
  pending_c = put s.pending_c port none;
}

unfoldable pub srt_stop_session : ℕ → SrtServer → SrtServer
srt_stop_session port s = record s {
  stopped = srt_stop_of (s.sessions port) s.stopped;
  sessions = put s.sessions port none;
}

-- `Sessions`, over the keys in the order that Go visits them.
unfoldable pub srt_sessions : List ℕ → SrtServer → List Session
srt_sessions [] s = []
srt_sessions (port ∷ ports) s = srt_stop_of (s.sessions port) (srt_sessions ports s)
