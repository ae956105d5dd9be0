-- ===== src/Control/Serving.antt =====
-- v4/control/server.go: the connections of the hub. A call of a handler between two messages, of
-- `Broadcast` and of the status page is one step. A connection is a number; a message is a decoded one.
-- The load of the machine and telemetry are floating point numbers and left out.
use relay_x.Prelude.{
  ℕ, Bool, false, ◌||◌, Option, none, some, List, [], ◌∷◌, Text, Map, put, empty, codes, text_eq,
  trim_space, ◌==◌, if◌then◌else◌,
}
use relay_x.Prelude.Int.{ℤ, pos, ltb_ℤ}
use relay_x.Prelude.Assoc.{number_key}
use relay_x.Prelude.Sorting.{elem}
use relay_x.Errors.{Err, nil, plain, wrapped, coded, code, error_text, code_bad_request}
use relay_x.Status.{GatewayStatus, starting, gateway_text}
use relay_x.Ports.Defs.{Pool}
use relay_x.Control.Protocol.{
  PairRequest, PortState, Incoming, register, pair_request, bad_pair_request, Outgoing, register_ok,
  register_error, error,
}
use relay_x.Control.Hub.{
  Hub, Client, new_client, admitted, validate_and_register, unregister, connection_count,
  port_state_payload,
}
use relay_x.Control.Pairing.{
  values, occupied_ports_for_server, remaining_of, Handled, replies, starts, handle_pair_request,
}

pub record ServerStatus : Type 0 where
  pub server_id : Text
  pub occupied_ports : List ℕ
  pub remaining : ℤ

pub record HealthStatus : Type 0 where
  pub status : Text
  pub started_at : ℕ
  pub now : ℕ
  pub connections : ℕ
  pub broadcast_at : ℕ
  pub port_state : PortState

-- What is written to a connection.
pub data Written : Type 0 where
  answer : Outgoing → Written
  statuses : List ServerStatus → Written
  port_states : PortState → Written
  not_found : Written
  health : HealthStatus → Written

-- The hub, its status and times; the client of each connection whose handler is in its loop; the
-- connections that are closed; what was written, latest first; and the pairing loops that were started.
pub record Gateway : Type 0 where
  pub hub : Hub
  pub gw_status : GatewayStatus
  pub started : ℕ
  pub last_broadcast : ℕ
  pub serving : Map Client
  pub closed : List ℕ
  pub written : List (ℕ × Written)
  pub loops : List (Client × PairRequest)

-- `NewHub`, at time `now`.
unfoldable pub new_gateway : ℤ → Pool → Pool → ℕ → Gateway
new_gateway max_connections zmq srt now = record {
  hub = record {
    max_connections = max_connections;
    zmq_pool = zmq;
    srt_pool = srt;
    clients = [];
    servers = [];
    fe = [];
  };
  gw_status = starting;
  started = now;
  last_broadcast = 0;
  serving = empty;
  closed = [];
  written = [];
  loops = [];
}

-- `Close`, once for a connection.
abbrev pub close_conn : ℕ → Gateway → Gateway
close_conn conn s = if elem conn s.closed then s else record s { closed = conn ∷ s.closed }

abbrev pub write_to : ℕ → Written → Gateway → Gateway
write_to conn m s = record s { written = (conn, m) ∷ s.written }

-- `Send`, its error left aside; `broken` says to which connections writing fails.
abbrev pub send : (ℕ → Bool) → ℕ → Written → Gateway → Gateway
send broken conn m s =
    let out = write_to conn m s in if elem conn s.closed || broken conn then s else out

abbrev pub refused : (ℕ → Bool) → ℕ → ℕ → Text → Gateway → Gateway
refused broken conn number text s =
    close_conn conn (send broken conn (answer (register_error number text)) s)

-- What follows `validateAndRegister`.
abbrev pub registered : (ℕ → Bool) → Client → Hub × Err → Gateway → Gateway
registered broken c (h, nil) s =
    send broken c.conn (answer register_ok)
      (record s { hub = h; serving = put s.serving c.conn (some (admitted c)) })
registered broken c (h, plain m) s =
    refused broken c.conn (code (plain m)) (error_text (plain m)) (record s { hub = h })
registered broken c (h, wrapped m e) s =
    refused broken c.conn (code (wrapped m e)) (error_text (wrapped m e)) (record s { hub = h })
registered broken c (h, coded n m e) s =
    refused broken c.conn (code (coded n m e)) (error_text (coded n m e)) (record s { hub = h })

-- The beginning of `handleConn`, of the first message if there is one.
unfoldable pub handle_conn : (ℕ → Bool) → ℕ → Option Incoming → Gateway → Gateway
unfolding validate_and_register new_client code error_text elem
handle_conn broken conn none s = close_conn conn s
handle_conn broken conn (some (register reg)) s =
    let c = new_client conn reg in registered broken c (validate_and_register c s.hub) s
handle_conn broken conn (some _) s =
    refused broken conn code_bad_request (codes "first message must be register") s

abbrev pub handled : (ℕ → Bool) → Handled → Gateway → Gateway
handled broken (replies conn m) s = send broken conn (answer m) s
handled broken (starts c pr) s = record s { loops = (c, pr) ∷ s.loops }

-- A message in the loop of `handleConn`; `fresh` is a new request id.
unfoldable pub handle_message : (ℕ → Bool) → Text → Client → Incoming → Gateway → Gateway
unfolding handle_pair_request elem
handle_message broken fresh c (pair_request pr) s =
    handled broken (handle_pair_request fresh c pr) s
handle_message broken fresh c bad_pair_request s =
    send broken c.conn (answer (error code_bad_request (codes "invalid pair_request"))) s
handle_message broken fresh c _ s = s

-- The deferred end of `handleConn`.
unfoldable pub handler_ended : Client → Gateway → Gateway
unfolding unregister elem
handler_ended c s =
    close_conn c.conn (record s { hub = unregister c s.hub; serving = put s.serving c.conn none })

-- The clients whose connection is open.
abbrev pub open_conns : List ℕ → List Client → List ℕ
open_conns closed [] = []
open_conns closed (c ∷ cs) =
    let rest = open_conns closed cs in if elem c.conn closed then rest else c.conn ∷ rest

unfoldable pub send_each : (ℕ → Bool) → List ℕ → Written → Gateway → Gateway
unfolding elem
send_each broken [] m s = s
send_each broken (conn ∷ conns) m s =
    send_each broken conns m
      (if elem conn s.closed || broken conn then close_conn conn s else write_to conn m s)

-- `Broadcast`, in the order of the list of clients.
unfoldable pub broadcast : (ℕ → Bool) → Written → Gateway → Gateway
unfolding send_each values elem
broadcast broken m s = send_each broken (open_conns s.closed (values s.hub.clients)) m s

abbrev pub status_of : Hub → Client → ServerStatus
status_of h c = record {
  server_id = c.id;
  occupied_ports = occupied_ports_for_server h.zmq_pool h.srt_pool c.id;
  remaining = if ltb_ℤ (remaining_of h c) (pos 0) then pos 0 else remaining_of h c;
}

abbrev pub statuses_of : Hub → List Client → List ServerStatus
statuses_of h [] = []
statuses_of h (c ∷ cs) = status_of h c ∷ statuses_of h cs

-- `broadcastStatus`, at time `now`.
unfoldable pub broadcast_status : (ℕ → Bool) → ℕ → Gateway → Gateway
unfolding broadcast occupied_ports_for_server remaining_of port_state_payload values
broadcast_status broken now s =
    let sent =
      broadcast broken (statuses (statuses_of s.hub (values s.hub.servers)))
        (record s { last_broadcast = now }) in
    broadcast broken (port_states (port_state_payload false sent.hub)) sent

-- The second of the parts of a text between spaces, blank if there is none.
abbrev pub until_space : Text → Text
until_space [] = []
until_space (a ∷ s) = let rest = until_space s in if a == 32 then [] else a ∷ rest

abbrev pub second_part : Text → Text
second_part [] = []
second_part (a ∷ s) = let rest = second_part s in if a == 32 then until_space s else rest

-- `handleHTTP`, of the first line if it can be read.
unfoldable pub handle_http : ℕ → ℕ → Option Text → Gateway → Gateway
unfolding trim_space text_eq gateway_text connection_count port_state_payload elem
handle_http conn now none s = close_conn conn s
handle_http conn now (some line) s =
    if text_eq (second_part (trim_space line)) (codes "/status")
    then close_conn conn (
        write_to conn
          (health (record {
            status = gateway_text s.gw_status;
            started_at = s.started;
            now = now;
            connections = connection_count s.hub;
            broadcast_at = s.last_broadcast;
            port_state = port_state_payload false s.hub;
          }))
          s)
    else close_conn conn (write_to conn not_found s)
