-- ===== src/V1/Relay.antt =====
-- v1/relay/server.go: the relay of the first generation, one map for each thing that a port has. What
-- runs under one lock is one step. Connections, listeners and sessions are numbers; closing and
-- stopping are logged, latest first. Logging, hooks and deadlines are left out.
pub mod Valid
pub mod Stale
use relay_x.Prelude.{
  ℕ, ◌+◌, Bool, true, false, not, ◌||◌, Option, none, some, List, [], ◌∷◌, Text, codes, text_eq,
  is_blank, Map, empty, put, ◌==◌, if◌then◌else◌,
}
use relay_x.Prelude.Sorting.{sort}
use relay_x.Errors.{Err, nil, Result, ok, err}
use relay_x.Leases.{present}
use relay_x.Slots.{Waiting, Role, be, fe, unknown, PipeSession, is_session, kept_be, closing}

-- A port that is missing in `busy` is not busy, one that is missing in `protocols` has a blank one.
pub record RelayServer : Type 0 where
  pub listeners : Map ℕ
  pub sessions : Map ℕ
  pub busy : ℕ → Bool
  pub pending_be : Map Waiting
  pub pending_fe : Map Waiting
  pub protocols : ℕ → Text
  pub closed : List ℕ
  pub stopped : List ℕ

unfoldable pub new_relay_server : RelayServer
new_relay_server = record {
  listeners = empty;
  sessions = empty;
  busy = λ port. false;
  pending_be = empty;
  pending_fe = empty;
  protocols = λ port. [];
  closed = [];
  stopped = [];
}

abbrev pub set_at {ℓ} : {A : Type ℓ} → (ℕ → A) → ℕ → A → ℕ → A
set_at m k v j = if k == j then v else m j

abbrev pub close : ℕ → RelayServer → RelayServer
close c s = record s { closed = c ∷ s.closed }

abbrev pub listening : ℕ → Text → Result ℕ → RelayServer → RelayServer × Err
listening port protocol (err e) s = (s, e)
listening port protocol (ok ln) s = (
  record s {
    listeners = put s.listeners port (some ln);
    protocols = if is_blank protocol then s.protocols else set_at s.protocols port protocol;
  },
  nil,
)

-- `StartRelayPortWithProtocol`, of what `Listen` gives; `StartRelayPort` with a blank protocol.
unfoldable pub start_relay_port : ℕ → Text → Result ℕ → RelayServer → RelayServer × Err
start_relay_port port protocol listen s =
    if present (s.listeners port) then (s, nil) else listening port protocol listen s

unfoldable pub is_port_busy : ℕ → RelayServer → Bool
is_port_busy port s = s.busy port

unfoldable pub get_session : ℕ → RelayServer → Option ℕ
get_session port s = s.sessions port

-- A session begins. It knows its connections and the id of its back end.
abbrev pub begun : ℕ → PipeSession → RelayServer → RelayServer × Option PipeSession
begun port x s = (
  record s { sessions = put s.sessions port (some x.session); busy = set_at s.busy port true },
  some x,
)

abbrev pub admit_be :
    Option Waiting
    → Option Waiting
    → ℕ
    → ℕ
    → Waiting
    → RelayServer
    → RelayServer × Option PipeSession
admit_be (some b) f port session w s = (close w.conn s, none)
admit_be none (some f) port session w s =
    begun port
      (record { session = session; fe_conn = f.conn; be_conn = w.conn; be_id = w.client_id })
      (record s { pending_fe = put s.pending_fe port none })
admit_be none none port session w s =
    (record s { pending_be = put s.pending_be port (some w) }, none)

abbrev pub admit_fe :
    Option Waiting → ℕ → ℕ → Waiting → RelayServer → RelayServer × Option PipeSession
admit_fe none port session w s = (close w.conn s, none)
admit_fe (some b) port session w s =
    begun port
      (record { session = session; fe_conn = w.conn; be_conn = b.conn; be_id = b.client_id })
      (record s { pending_be = put s.pending_be port none })

-- Under the second lock of `acceptLoop`; `session` is the new session if there is one.
unfoldable pub admit : Role → ℕ → ℕ → Waiting → RelayServer → RelayServer × Option PipeSession
admit be port session w s =
    if s.busy port
    then (close w.conn s, none)
    else admit_be (s.pending_be port) (s.pending_fe port) port session w s
admit fe port session w s =
    if s.busy port then (close w.conn s, none) else admit_fe (s.pending_be port) port session w s
admit unknown port session w s = (close w.conn s, none)

abbrev pub greeted :
    Role
    → (RelayServer → RelayServer)
    → ℕ
    → ℕ
    → Waiting
    → RelayServer
    → RelayServer × Option PipeSession
greeted unknown meanwhile port session w s = (close w.conn (meanwhile s), none)
greeted be meanwhile port session w s = admit be port session w (meanwhile s)
greeted fe meanwhile port session w s = admit fe port session w (meanwhile s)

-- A round of `acceptLoop`; `meanwhile` is what others do from its test of `IsPortBusy` on, while the
-- greeting is read.
unfoldable pub accept :
    (RelayServer → RelayServer)
    → ℕ
    → ℕ
    → Role
    → Waiting
    → RelayServer
    → RelayServer × Option PipeSession
unfolding is_port_busy admit
accept meanwhile port session r w s =
    if is_port_busy port s then (close w.conn s, none) else greeted r meanwhile port session w s

-- The callback of a session that has ended.
unfoldable pub on_stop : ℕ → Bool → PipeSession → RelayServer → RelayServer
on_stop port kept x s = record s {
  sessions =
      if is_session x.session (s.sessions port) then put s.sessions port none else s.sessions;
  busy = set_at s.busy port false;
  pending_be = put s.pending_be port (kept_be kept x (s.pending_be port));
}

abbrev pub logged : Option ℕ → List ℕ → List ℕ
logged none log = log
logged (some x) log = x ∷ log

-- `StopPort`
unfoldable pub stop_port : ℕ → RelayServer → RelayServer
stop_port port s = record s {
  listeners = put s.listeners port none;
  sessions = put s.sessions port none;
  busy = set_at s.busy port false;
  pending_be = put s.pending_be port none;
  pending_fe = put s.pending_fe port none;
  closed =
      closing (s.pending_fe port)
        (closing (s.pending_be port) (logged (s.listeners port) s.closed));
  stopped = logged (s.sessions port) s.stopped;
}

-- What a look at a waiting back end finds: it is still there, or not, or the error is another; then it
-- is closed too.
abbrev pub looked_at : (Waiting → Bool) → Option Waiting → ℕ → RelayServer → RelayServer
looked_at alive none port s = s
looked_at alive (some w) port s =
    if alive w
    then s
    else record s { pending_be = put s.pending_be port none; closed = w.conn ∷ s.closed }

-- The first loop of `SnapshotPortState`, over the ports in the order that Go visits them.
unfoldable pub look_at_pending : (Waiting → Bool) → List ℕ → RelayServer → RelayServer
look_at_pending alive [] s = s
look_at_pending alive (port ∷ order) s =
    look_at_pending alive order (looked_at alive (s.pending_be port) port s)

pub record PortStateSnapshot : Type 0 where
  pub zmq_ready_ports : List ℕ
  pub srt_ready_ports : List ℕ
  pub zmq_empty_ports : List ℕ
  pub srt_empty_ports : List ℕ
  pub zmq_busy_count : ℕ
  pub srt_busy_count : ℕ
  pub zmq_total : ℕ
  pub srt_total : ℕ

abbrev pub count_zmq : Bool → Bool → ℕ → PortStateSnapshot → PortStateSnapshot
count_zmq busy ready port n =
    if busy
    then record n { zmq_total = n.zmq_total + 1; zmq_busy_count = n.zmq_busy_count + 1 }
    else if ready
    then record n { zmq_total = n.zmq_total + 1; zmq_ready_ports = port ∷ n.zmq_ready_ports }
    else record n { zmq_total = n.zmq_total + 1; zmq_empty_ports = port ∷ n.zmq_empty_ports }

abbrev pub count_srt : Bool → Bool → ℕ → PortStateSnapshot → PortStateSnapshot
count_srt busy ready port n =
    if busy
    then record n { srt_total = n.srt_total + 1; srt_busy_count = n.srt_busy_count + 1 }
    else if ready
    then record n { srt_total = n.srt_total + 1; srt_ready_ports = port ∷ n.srt_ready_ports }
    else record n { srt_total = n.srt_total + 1; srt_empty_ports = port ∷ n.srt_empty_ports }

abbrev pub count_port : RelayServer → ℕ → PortStateSnapshot → PortStateSnapshot
count_port s port n =
    if not (present (s.listeners port))
    then n
    else if text_eq (s.protocols port) (codes "zmq")
    then count_zmq (s.busy port) (present (s.pending_be port)) port n
    else if text_eq (s.protocols port) (codes "srt")
    then count_srt (s.busy port) (present (s.pending_be port)) port n
    else n

-- The second loop, over the ports that listen.
unfoldable pub count_ports : List ℕ → RelayServer → PortStateSnapshot
count_ports [] s = record {
  zmq_ready_ports = [];
  srt_ready_ports = [];
  zmq_empty_ports = [];
  srt_empty_ports = [];
  zmq_busy_count = 0;
  srt_busy_count = 0;
  zmq_total = 0;
  srt_total = 0;
}
count_ports (port ∷ order) s = count_port s port (count_ports order s)

-- `SnapshotPortState`, with an order for each of its loops. The lists are built in the reverse order of
-- the loop and sorted after it.
unfoldable pub snapshot_port_state :
    (Waiting → Bool) → List ℕ → List ℕ → RelayServer → RelayServer × PortStateSnapshot
unfolding look_at_pending count_ports sort
snapshot_port_state alive waiting order s =
    let s1 = look_at_pending alive waiting s in
    let n = count_ports order s1 in
    (
      s1,
      record n {
        zmq_ready_ports = sort n.zmq_ready_ports;
        srt_ready_ports = sort n.srt_ready_ports;
        zmq_empty_ports = sort n.zmq_empty_ports;
        srt_empty_ports = sort n.srt_empty_ports;
      },
    )
