-- ===== src/Slots.antt =====
-- v3/relay/server.go: the slots of the relay's ports. What runs under one lock is one step. A
-- connection, a listener and a session are numbers, in place of pointers; closing and stopping are
-- logged, latest first. `ip_equal` is `net.IP.Equal`. Logging, hooks and deadlines are left out.
pub mod Peers
pub mod Valid
pub mod Accepting
pub mod Udp
pub mod Snapshot
pub mod Granting
pub mod Cleaning
mod Tests
use relay_x.Prelude.{
  ℕ, ◌+◌, ◌-◌, Bool, true, false, not, ◌&&◌, ◌||◌, Option, none, some, List, [], ◌∷◌, ◌++◌, Text,
  codes, text_eq, Map, empty, put, ltb, ◌==◌, if◌then◌else◌,
}
use relay_x.Prelude.Sorting.{sort}
use relay_x.Errors.{Err, nil, Result, ok, err}

pub record UdpAddr : Type 0 where
  pub ip : Option Text
  pub port : ℕ
  pub zone : Text

-- A waiting connection and its client's id.
pub record Waiting : Type 0 where
  pub conn : ℕ
  pub client_id : Text

pub record PortSlot : Type 0 where
  pub tcp_ln : ℕ
  pub udp_conn : ℕ
  pub tcp_busy : Bool
  pub tcp_session : Option ℕ
  pub pending_be : Option Waiting
  pub pending_fe : Option Waiting
  pub udp_a : Option UdpAddr
  pub udp_b : Option UdpAddr
  pub udp_last_a : ℕ
  pub udp_last_b : ℕ

-- The slots, the connections and listeners that were closed, and the sessions that were stopped.
pub record RelayServer : Type 0 where
  pub slots : Map PortSlot
  pub closed : List ℕ
  pub stopped : List ℕ

unfoldable pub new_relay_server : RelayServer
new_relay_server = record { slots = empty; closed = []; stopped = [] }

abbrev pub new_slot : ℕ → ℕ → PortSlot
new_slot ln udp = record {
  tcp_ln = ln;
  udp_conn = udp;
  tcp_busy = false;
  tcp_session = none;
  pending_be = none;
  pending_fe = none;
  udp_a = none;
  udp_b = none;
  udp_last_a = 0;
  udp_last_b = 0;
}

abbrev pub set_slot : ℕ → PortSlot → RelayServer → RelayServer
set_slot port slot s = record s { slots = put s.slots port (some slot) }

abbrev pub close : ℕ → RelayServer → RelayServer
close c s = record s { closed = c ∷ s.closed }

abbrev udp_opened : ℕ → ℕ → Result ℕ → RelayServer → RelayServer × Err
udp_opened port ln (err e) s = (close ln s, e)
udp_opened port ln (ok udp) s = (set_slot port (new_slot ln udp) s, nil)

abbrev tcp_opened : ℕ → Result ℕ → Result ℕ → RelayServer → RelayServer × Err
tcp_opened port (err e) udp s = (s, e)
tcp_opened port (ok ln) udp s = udp_opened port ln udp s

abbrev start_at : Option PortSlot → ℕ → Result ℕ → Result ℕ → RelayServer → RelayServer × Err
start_at (some slot) port tcp udp s = (s, nil)
start_at none port tcp udp s = tcp_opened port tcp udp s

-- `StartRelayPort`, of what the two calls of `Listen` give.
unfoldable pub start_relay_port : ℕ → Result ℕ → Result ℕ → RelayServer → RelayServer × Err
start_relay_port port tcp udp s = start_at (s.slots port) port tcp udp s

abbrev pub closing : Option Waiting → List ℕ → List ℕ
closing none log = log
closing (some w) log = w.conn ∷ log

abbrev pub stopping : Option ℕ → List ℕ → List ℕ
stopping none log = log
stopping (some x) log = x ∷ log

abbrev stop_at : Option PortSlot → ℕ → RelayServer → RelayServer
stop_at none port s = s
stop_at (some slot) port s = record s {
  slots = put s.slots port none;
  closed =
      closing slot.pending_fe (closing slot.pending_be (slot.udp_conn ∷ slot.tcp_ln ∷ s.closed));
  stopped = stopping slot.tcp_session s.stopped;
}

-- `StopPort`
unfoldable pub stop_port : ℕ → RelayServer → RelayServer
stop_port port s = stop_at (s.slots port) port s

-- The slot that `ResetPort` leaves: it keeps its listeners.
abbrev pub cleared : PortSlot → PortSlot
cleared slot = new_slot slot.tcp_ln slot.udp_conn

abbrev reset_at : Option PortSlot → ℕ → RelayServer → RelayServer
reset_at none port s = s
reset_at (some slot) port s = record s {
  slots = put s.slots port (some (cleared slot));
  closed = closing slot.pending_fe (closing slot.pending_be s.closed);
  stopped = stopping slot.tcp_session s.stopped;
}

-- `ResetPort`
unfoldable pub reset_port : ℕ → RelayServer → RelayServer
reset_port port s = reset_at (s.slots port) port s

pub data Role : Type 0 where
  be fe unknown : Role

-- `helloRole`, of the role of a greeting that was read.
unfoldable pub hello_role : Option Text → Role
hello_role none = unknown
hello_role (some r) =
    if text_eq r (codes "FE") then fe else if text_eq r (codes "BE") then be else unknown

-- The role of a connection that does not say one.
abbrev pub role_for : Role → Option Waiting → Option Waiting → Role
role_for be b f = be
role_for fe b f = fe
role_for unknown none f = be
role_for unknown (some b) none = fe
role_for unknown (some b) (some f) = be

-- Under the first lock of `acceptTCPLoop`: the role, or `none` where the connection is refused.
abbrev pub classified : Option PortSlot → Role → Option Role
classified none r = none
classified (some slot) r =
    if slot.tcp_busy then none else some (role_for r slot.pending_be slot.pending_fe)

-- The session of two connections: what its callback knows.
pub record PipeSession : Type 0 where
  pub session : ℕ
  pub fe_conn : ℕ
  pub be_conn : ℕ
  pub be_id : Text

abbrev pub paired_be :
    ℕ → ℕ → PortSlot → Waiting → Waiting → RelayServer → RelayServer × Option PipeSession
paired_be port session slot f w s = (
  set_slot port (record slot { pending_fe = none; tcp_session = some session; tcp_busy = true }) s,
  some (record { session = session; fe_conn = f.conn; be_conn = w.conn; be_id = w.client_id }),
)

abbrev pub paired_fe :
    ℕ → ℕ → PortSlot → Waiting → Waiting → RelayServer → RelayServer × Option PipeSession
paired_fe port session slot b w s = (
  set_slot port (record slot { pending_be = none; tcp_session = some session; tcp_busy = true }) s,
  some (record { session = session; fe_conn = w.conn; be_conn = b.conn; be_id = b.client_id }),
)

abbrev pub admit_be :
    Option Waiting
    → Option Waiting
    → ℕ
    → ℕ
    → PortSlot
    → Waiting
    → RelayServer
    → RelayServer × Option PipeSession
admit_be (some b) f port session slot w s = (close w.conn s, none)
admit_be none (some f) port session slot w s = paired_be port session slot f w s
admit_be none none port session slot w s =
    (set_slot port (record slot { pending_be = some w }) s, none)

abbrev pub admit_fe :
    Option Waiting
    → Option Waiting
    → ℕ
    → ℕ
    → PortSlot
    → Waiting
    → RelayServer
    → RelayServer × Option PipeSession
admit_fe b (some f) port session slot w s = (close w.conn s, none)
admit_fe (some b) none port session slot w s = paired_fe port session slot b w s
admit_fe none none port session slot w s =
    (set_slot port (record slot { pending_fe = some w }) s, none)

-- Under the second lock, for a role; `session` is the new session if there is one.
abbrev pub admitted :
    Option PortSlot → Role → ℕ → ℕ → Waiting → RelayServer → RelayServer × Option PipeSession
admitted none r port session w s = (close w.conn s, none)
admitted (some slot) be port session w s =
    admit_be slot.pending_be slot.pending_fe port session slot w s
admitted (some slot) fe port session w s =
    admit_fe slot.pending_be slot.pending_fe port session slot w s
admitted (some slot) unknown port session w s = (close w.conn s, none)

abbrev pub accepted :
    Option Role
    → (RelayServer → RelayServer)
    → ℕ
    → ℕ
    → Waiting
    → RelayServer
    → RelayServer × Option PipeSession
accepted none meanwhile port session w s = (close w.conn s, none)
accepted (some r) meanwhile port session w s =
    let s1 = meanwhile s in admitted (s1.slots port) r port session w s1

-- One round of `acceptTCPLoop`; `meanwhile` is what others do between the two locks.
unfoldable pub accept :
    (RelayServer → RelayServer)
    → ℕ
    → ℕ
    → Role
    → Waiting
    → RelayServer
    → RelayServer × Option PipeSession
accept meanwhile port session r w s =
    accepted (classified (s.slots port) r) meanwhile port session w s

abbrev pub is_session : ℕ → Option ℕ → Bool
is_session x none = false
is_session x (some y) = y == x

-- The back end's connection is put back if the session kept it and no other waits.
abbrev pub kept_be : Bool → PipeSession → Option Waiting → Option Waiting
kept_be false x b = b
kept_be true x (some b) = some b
kept_be true x none = some (record { conn = x.be_conn; client_id = x.be_id })

abbrev pub ended : Option PortSlot → ℕ → Bool → PipeSession → RelayServer → RelayServer
ended none port kept x s = s
ended (some slot) port kept x s =
    if is_session x.session slot.tcp_session
    then set_slot port
        (record slot {
          tcp_session = none;
          tcp_busy = false;
          pending_be = kept_be kept x slot.pending_be;
        })
        s
    else s

-- `onStop` of a session.
unfoldable pub on_stop : ℕ → Bool → PipeSession → RelayServer → RelayServer
on_stop port kept x s = ended (s.slots port) port kept x s
