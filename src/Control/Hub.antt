-- ===== src/Control/Hub.antt =====
-- v4/control/server.go: the hub's state, registration and removal, and the port state it reports.
-- A connection is a number; the clients are immutable once registered, so a pointer to a client is
-- its connection's number.
use relay_x.Prelude.{
  ℕ, Bool, true, false, ◌&&◌, ◌||◌, not, Option, none, some, List, [], Text, codes, is_blank,
  trim_space, length, ◌==◌, if◌then◌else◌,
}
use relay_x.Prelude.Int.{ℤ, pos, leb_ℤ}
use relay_x.Prelude.Assoc.{lookup, insert, delete, text_key, number_key}
use relay_x.Errors.{Err, nil, new, code_bad_request, code_unavailable, code_conflict}
use relay_x.Status.{AuthStatus, pending, approved}
use relay_x.Ports.Defs.{Pool, Snapshot, snapshot}
use relay_x.Control.Protocol.{Role, server, client, RegisterPayload, PortState, PortStateKind}

pub record Client : Type 0 where
  pub conn : ℕ
  pub role : Role
  pub id : Text
  pub token : Text
  pub max_conn : ℤ
  pub auth : AuthStatus

-- `max_connections` is `cfg.Gateway.MaxConnections`.
pub record Hub : Type 0 where
  pub max_connections : ℤ
  pub zmq_pool : Pool
  pub srt_pool : Pool
  pub clients : List (ℕ × Client)
  pub servers : List (Text × Client)
  pub fe : List (Text × Client)

-- The client that `handleConn` makes of the payload of the first message.
unfoldable pub new_client : ℕ → RegisterPayload → Client
unfolding trim_space
new_client conn reg = record {
  conn = conn;
  role = reg.role;
  id = trim_space reg.id;
  token = trim_space reg.token;
  max_conn = reg.max_conn;
  auth = pending;
}

abbrev pub is_server : Role → Bool
is_server server = true
is_server _ = false

abbrev pub is_client : Role → Bool
is_client client = true
is_client _ = false

abbrev pub has {ℓ} : {V : Type ℓ} → Option V → Bool
has none = false
has (some v) = true

-- The client as it is stored: the default capacity filled in, and approved.
abbrev pub admitted : Client → Client
admitted c = record c {
  max_conn = if leb_ℤ c.max_conn (pos 0) then pos 1 else c.max_conn;
  auth = approved;
}

unfoldable pub validate_and_register : Client → Hub → Hub × Err
validate_and_register c h =
    if is_blank c.id || is_blank c.token
    then (h, new code_bad_request (codes "missing id/token"))
    else if not (is_server c.role) && not (is_client c.role)
    then (h, new code_bad_request (codes "invalid role"))
    else if leb_ℤ h.max_connections (pos (length h.clients))
    then (h, new code_unavailable (codes "max connections reached"))
    else if is_server c.role
    then if has (lookup c.id h.servers)
      then (h, new code_conflict (codes "duplicate server id"))
      else (
        record h {
          servers = insert c.id (admitted c) h.servers;
          clients = insert c.conn (admitted c) h.clients;
        },
        nil,
      )
    else if has (lookup c.id h.fe)
    then (h, new code_conflict (codes "duplicate client id"))
    else (
      record h {
        fe = insert c.id (admitted c) h.fe;
        clients = insert c.conn (admitted c) h.clients;
      },
      nil,
    )

-- `cur, ok := m[c.ID]; ok && cur == c`, by the pointers.
abbrev pub points_to : Client → Option Client → Bool
points_to c none = false
points_to c (some cur) = cur.conn == c.conn

unfoldable pub unregister : Client → Hub → Hub
unregister c h =
    let h1 = record h { clients = delete c.conn h.clients } in
    if is_server c.role
    then if points_to c (lookup c.id h1.servers)
      then record h1 { servers = delete c.id h1.servers }
      else h1
    else if points_to c (lookup c.id h1.fe)
    then record h1 { fe = delete c.id h1.fe }
    else h1

unfoldable pub connection_count : Hub → ℕ
connection_count h = length h.clients

abbrev port_state_kind : Bool → Snapshot → PortStateKind
port_state_kind include_idle s = record {
  total = s.total;
  idle = s.idle_count;
  reserved = s.reserved_count;
  occupied = s.occupied_count;
  blocked = s.blocked_count;
  idle_ports = if include_idle then s.idle_ports else [];
}

unfoldable pub port_state_payload : Bool → Hub → PortState
unfolding snapshot
port_state_payload include_idle h = record {
  zmq = port_state_kind include_idle (snapshot h.zmq_pool);
  srt = port_state_kind include_idle (snapshot h.srt_pool);
}
