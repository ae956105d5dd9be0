-- ===== src/V1/Hub.antt =====
-- v1/control/hub.go and auth.go, and the hook in cmd/relay-server/main.go: the hub of the first generation,
-- over its leases, relay and reaper. A client is a number. A handler and a call of `Close` run undisturbed.
-- Telemetry, whose speeds are floating point, and logging are left out.
pub mod Messages
pub mod Valid
pub mod Handling
pub mod Run
pub mod Leak
pub mod Leaving
use relay_x.Prelude.{
  ℕ, Bool, true, false, not, ◌||◌, ◌&&◌, Option, none, some, List, [], ◌∷◌, ◌++◌, Text, codes,
  text_eq, is_blank, map, ltb, length, ◌==◌, if◌then◌else◌, put, empty,
}
use relay_x.Prelude.Int.{ℤ, pos, negsuc, pos_part, leb_ℤ}
use relay_x.Prelude.Sorting.{elem}
use relay_x.Errors.{Result, ok, err, error_text}
use relay_x.Leases.{PortAcquire, PortGrant}
use relay_x.Slots.{Waiting, Role, be, fe, unknown}
use relay_x.Central.{Clock, without}
use relay_x.Central.Ranges.{PortAlloc}
use relay_x.V1.Leases.{
  PortManager, new_port_manager, set_ranges, range_ports, refusal, acquire, acquire_from_ready,
  release, release_all_for_owner,
}
use relay_x.V1.Relay.{
  RelayServer, new_relay_server, start_relay_port, is_port_busy, PortStateSnapshot,
  snapshot_port_state, set_at,
}
use relay_x.V1.Reaper.{Reaper, schedule_kill, cancel_kill}

pub data Message : Type 0 where
  auth_ok : Message
  port_alloc : PortAlloc → Message
  port_state : PortStateSnapshot → Message
  port_grant : PortGrant → Message
  no_grant : Text → ℕ → Text → Message
  key_exchange : Text → Message
  port_release : Text → Message
  pong : Clock → Message

-- The configuration, and what is not the hub's: the clients whose connections fail, the waiting
-- connections that are still there, what listening at a port gives, the new timer of a port, and the
-- orders in which Go visits its maps.
pub record World : Type 0 where
  pub max_fe : ℤ
  pub max_be : ℤ
  pub secret : Text
  pub config : PortAlloc
  pub broken : ℕ → Bool
  pub alive : Waiting → Bool
  pub listen : ℕ → Result ℕ
  pub timer : ℕ → ℕ
  pub waiting_order : List ℕ
  pub listening_order : List ℕ
  pub lease_order : List Text

-- The two maps of clients; the clients that are let in and those that were closed; the ports that a
-- back end was given; and the messages that were sent, latest first.
pub record Hub : Type 0 where
  pub fe_clients : List ℕ
  pub be_clients : List ℕ
  pub authed : List ℕ
  pub closed : List ℕ
  pub allocated : ℕ → List ℕ
  pub leases : PortManager
  pub reaper : Reaper
  pub sent : List (ℕ × Message)

-- `GlobalHub`, with new leases, a new relay and no kills.
unfoldable pub new_hub : Hub
unfolding new_port_manager new_relay_server
new_hub = record {
  fe_clients = [];
  be_clients = [];
  authed = [];
  closed = [];
  allocated = λ c. [];
  leases = new_port_manager;
  reaper = record {
    pending_kills = empty;
    running = [];
    fired = [];
    begun = [];
    relay = new_relay_server;
  };
  sent = [];
}

-- `VerifyAuth`
unfoldable pub verify_auth : World → Text → Bool
unfolding text_eq
verify_auth w secret = not (is_blank w.secret) && text_eq secret w.secret

-- `Register`
unfoldable pub register : World → ℕ → Role → Hub → Hub × Bool
register w c fe s =
    if leb_ℤ w.max_fe (pos (length s.fe_clients))
    then (s, false)
    else (record s { fe_clients = c ∷ without c s.fe_clients }, true)
register w c be s =
    if leb_ℤ w.max_be (pos (length s.be_clients))
    then (s, false)
    else (record s { be_clients = c ∷ without c s.be_clients }, true)
register w c unknown s = (s, false)

abbrev pub leases_ended : ℕ → Hub → Hub
leases_ended c s = record s { leases = (release_all_for_owner (some c) s.leases).0 }

abbrev pub timed : World → List ℕ → List (ℕ × ℕ)
timed w [] = []
timed w (port ∷ ports) = (port, w.timer port) ∷ timed w ports

-- `Unregister`; without ports nothing is scheduled.
unfoldable pub unregister : World → ℕ → Role → Hub → Hub
unfolding release_all_for_owner schedule_kill elem
unregister w c fe s =
    if elem c s.fe_clients
    then leases_ended c (record s { fe_clients = without c s.fe_clients })
    else s
unregister w c be s =
    if elem c s.be_clients
    then leases_ended c (record s {
      be_clients = without c s.be_clients;
      reaper = schedule_kill (timed w (s.allocated c)) s.reaper;
    })
    else s
unregister w c unknown s = s

-- `Close`, once for a client.
unfoldable pub close_client : World → ℕ → Role → Hub → Hub
unfolding unregister elem
close_client w c r s =
    if elem c s.closed then s else unregister w c r (record s { closed = c ∷ s.closed })

abbrev pub fails : World → ℕ → Hub → Bool
fails w c s = elem c s.closed || w.broken c

-- `Send`, its error left aside.
abbrev pub send : World → ℕ → Message → Hub → Hub
send w c m s = if fails w c s then s else record s { sent = (c, m) ∷ s.sent }

abbrev pub send_or_close : World → Role → ℕ → Message → Hub → Hub
send_or_close w r c m s =
    if fails w c s then close_client w c r s else record s { sent = (c, m) ∷ s.sent }

unfoldable pub send_all : World → Role → List ℕ → Message → Hub → Hub
unfolding close_client
send_all w r [] m s = s
send_all w r (c ∷ cs) m s = send_all w r cs m (send_or_close w r c m s)

abbrev pub let_in : List ℕ → List ℕ → List ℕ
let_in authed [] = []
let_in authed (c ∷ cs) = let rest = let_in authed cs in if elem c authed then c ∷ rest else rest

-- `BroadcastToRole`; any role but FE is taken for BE.
unfoldable pub broadcast_to_role : World → Role → Message → Hub → Hub
unfolding send_all elem
broadcast_to_role w fe m s = send_all w fe (let_in s.authed s.fe_clients) m s
broadcast_to_role w be m s = send_all w be (let_in s.authed s.be_clients) m s
broadcast_to_role w unknown m s = send_all w be (let_in s.authed s.be_clients) m s

abbrev pub with_relay : RelayServer → Hub → Hub
with_relay relay s = record s { reaper = record s.reaper { relay = relay } }

abbrev pub with_snapshot : World → (PortStateSnapshot → Hub → Hub) → Hub → Hub
with_snapshot w next s =
    let (relay, n) = snapshot_port_state w.alive w.waiting_order w.listening_order s.reaper.relay in
    next n (with_relay relay s)

abbrev pub state_sent : World → ℕ → Hub → Hub
state_sent w c = with_snapshot w (λ n. send w c (port_state n))

-- What the main program has the relay do when its state changes.
unfoldable pub state_changed : World → Hub → Hub
unfolding snapshot_port_state broadcast_to_role
state_changed w =
    with_snapshot w
      (λ n s. broadcast_to_role w fe (port_state n) (broadcast_to_role w be (port_state n) s))

abbrev pub welcomed : World → ℕ → Role → Hub → Hub
welcomed w c fe s = state_sent w c (send w c (port_alloc w.config) s)
welcomed w c be s = state_sent w c s
welcomed w c unknown s = s

-- After `Register`: where the first `Send` fails, the connection is closed and the handler ends.
abbrev pub registered : World → ℕ → Role → Hub × Bool → Hub × Bool
registered w c r (s, false) = (s, false)
registered w c r (s, true) =
    if fails w c s
    then (s, false)
    else (welcomed w c r (record s { authed = c ∷ s.authed; sent = (c, auth_ok) ∷ s.sent }), true)

-- The beginning of `handleConnection`, of the first message if it is a registration; whether the handler
-- goes on.
unfoldable pub connect : World → ℕ → Option (Role × Text) → Hub → Hub × Bool
unfolding register verify_auth snapshot_port_state elem
connect w c none s = (s, false)
connect w c (some (r, secret)) s =
    if verify_auth w secret then registered w c r (register w c r s) else (s, false)
