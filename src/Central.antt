-- ===== src/Central.antt =====
-- v3/control/hub.go: the hub of the older control plane, over the leases of ports and the slots of the
-- relay. A client is a number; what the connections and listeners do is a parameter. A handler and a
-- call of `Close` run undisturbed. The outcome of decoding a message is a request.
pub mod Ranges
pub mod Valid
pub mod Handling
mod Tests
use relay_x.Prelude.{
  ℕ, Bool, true, false, not, ◌||◌, ◌&&◌, Option, none, some, List, [], ◌∷◌, Text, ltb, ◌==◌,
  if◌then◌else◌,
}
use relay_x.Prelude.Assoc.{lookup, text_key, number_key}
use relay_x.Prelude.Sorting.{elem}
use relay_x.Errors.{Result, ok, err, error_text, Err}
use relay_x.Leases.{
  Reservation, PortManager, PortAcquire, PortGrant, new_port_manager, acquire_from_ready, release,
  release_all_for_owner, owner_set, keys_of,
}
use relay_x.Leases.Acquire.{quiet}
use relay_x.Slots.{Waiting, RelayServer, new_relay_server, start_relay_port, reset_port}
use relay_x.Slots.Snapshot.{PortStateSnapshot, snapshot_port_state}
use relay_x.Central.Ranges.{PortAlloc, set_ranges, ports_of}

-- Times of a clock message.
pub record Clock : Type 0 where
  pub client_send_time : ℕ
  pub server_recv_time : ℕ
  pub server_send_time : ℕ

pub data Message : Type 0 where
  auth_ok : Message
  port_alloc : PortAlloc → Message
  port_state : PortStateSnapshot → Message
  port_grant : PortGrant → Message
  no_grant : Text → Text → Message
  key_exchange : Text → Message
  port_release : Text → Message
  pong : Clock → Message

-- The configuration, the clients whose connections fail, the waiting connections that were closed, what
-- the listeners of a port give, and the slots in the order that Go visits them.
pub record World : Type 0 where
  pub config : PortAlloc
  pub broken : ℕ → Bool
  pub gone : Waiting → Bool
  pub listen : ℕ → Result ℕ × Result ℕ
  pub order : List ℕ

-- The clients of the hub, the clients that were closed, and the messages that were sent, latest first.
pub record Central : Type 0 where
  pub clients : List ℕ
  pub closed : List ℕ
  pub leases : PortManager
  pub relay : RelayServer
  pub sent : List (ℕ × Message)

unfoldable pub new_central : Central
unfolding new_port_manager new_relay_server
new_central = record {
  clients = [];
  closed = [];
  leases = new_port_manager;
  relay = new_relay_server;
  sent = [];
}

abbrev pub without : ℕ → List ℕ → List ℕ
without c [] = []
without c (d ∷ ds) = let rest = without c ds in if d == c then rest else d ∷ rest

-- `Unregister`
unfoldable pub unregister_client : ℕ → Central → Central
unfolding release_all_for_owner lookup
unregister_client c s = record s {
  clients = without c s.clients;
  leases = release_all_for_owner (keys_of (owner_set c s.leases)) c s.leases;
}

-- `Close`, once for a client.
unfoldable pub close_client : ℕ → Central → Central
unfolding unregister_client elem
close_client c s =
    if elem c s.closed then s else unregister_client c (record s { closed = c ∷ s.closed })

abbrev pub fails : World → ℕ → Central → Bool
fails w c s = elem c s.closed || w.broken c

-- `Send`; its error does not matter here.
abbrev pub send : World → ℕ → Message → Central → Central
send w c m s = if fails w c s then s else record s { sent = (c, m) ∷ s.sent }

-- A client of the loop of `Broadcast`.
abbrev pub send_or_close : World → ℕ → Message → Central → Central
send_or_close w c m s =
    if fails w c s then close_client c s else record s { sent = (c, m) ∷ s.sent }

unfoldable pub send_all : World → List ℕ → Message → Central → Central
unfolding close_client
send_all w [] m s = s
send_all w (c ∷ cs) m s = send_all w cs m (send_or_close w c m s)

abbrev pub still_open : List ℕ → List ℕ → List ℕ
still_open closed [] = []
still_open closed (c ∷ cs) =
    let rest = still_open closed cs in if elem c closed then rest else c ∷ rest

-- `Broadcast`
unfoldable pub broadcast : World → Message → Central → Central
unfolding send_all elem
broadcast w m s = send_all w (still_open s.closed s.clients) m s

-- `snapshotPortState`, and what is done with it.
abbrev pub with_snapshot : World → (PortStateSnapshot → Central → Central) → Central → Central
with_snapshot w next s =
    let (relay, n) = snapshot_port_state w.gone w.order s.relay in
    next n (record s { relay = relay })

abbrev pub start_port_at : World → ℕ → Central → Central
start_port_at w port s = record s {
  relay = (start_relay_port port (w.listen port).0 (w.listen port).1 s.relay).0;
}

abbrev pub start_ports : World → List ℕ → Central → Central
start_ports w [] s = s
start_ports w (p ∷ ps) s = start_ports w ps (if ltb 0 p then start_port_at w p s else s)

pub data Request : Type 0 where
  registering : Request
  pinging : Clock → ℕ → ℕ → Request
  exchanging : Text → Request
  allocating : PortAlloc → Request
  acquiring : PortAcquire → Text → ℕ → Request
  releasing : Text → Request
  querying : Request
  unreadable : Request

abbrev pub granted : World → ℕ → PortAcquire → PortManager × Result PortGrant → Central → Central
granted w c req (pm, err e) s =
    send w c (no_grant req.request_id (error_text e)) (record s { leases = pm })
granted w c req (pm, ok g) s =
    broadcast w (port_grant g)
      (send w c (port_grant g) (start_port_at w g.zmq_port (record s { leases = pm })))

-- `AcquireFromReady`, whose second snapshot drops no more connections than its first.
abbrev pub acquired : World → ℕ → PortAcquire → Text → ℕ → Central → Central
acquired w c req sid now = with_snapshot w (λ n s.
    granted w c req
      (acquire_from_ready quiet n.ready_ports n.empty_ports (some c) req sid now s.leases) s)

abbrev pub state_sent : World → Central → Central
state_sent w = with_snapshot w (λ n. broadcast w (port_state n))

abbrev pub given_back : World → Text → PortManager × Option ℕ → Central → Central
given_back w sid (pm, none) s = record s { leases = pm }
given_back w sid (pm, some port) s =
    if ltb 0 port
    then state_sent w
        (broadcast w (port_release sid) (record s { leases = pm; relay = reset_port port s.relay }))
    else record s { leases = pm }

-- A message of a client, in the loop of `handleConnection`.
unfoldable pub handle : World → ℕ → Request → Central → Central
unfolding broadcast start_relay_port reset_port release acquire_from_ready snapshot_port_state
    set_ranges error_text
handle w c registering s = s
handle w c (pinging p recv now) s =
    send w c (pong (record p { server_recv_time = recv; server_send_time = now })) s
handle w c (exchanging p) s = broadcast w (key_exchange p) s
handle w c (allocating p) s = state_sent w (
    broadcast w (port_alloc p)
      (start_ports w (ports_of w.config p) (record s { leases = set_ranges w.config p s.leases })))
handle w c (acquiring req sid now) s = acquired w c req sid now s
handle w c (releasing sid) s = given_back w sid (release (some c) sid s.leases) s
handle w c querying s = with_snapshot w (λ n. send w c (port_state n)) s
handle w c unreadable s = s

-- The beginning of `handleConnection`.
unfoldable pub connect : World → ℕ → Central → Central
unfolding snapshot_port_state elem
connect w c s =
    with_snapshot w (λ n. send w c (port_state n))
      (send w c (port_alloc w.config)
        (send w c auth_ok (record s { clients = c ∷ without c s.clients })))
